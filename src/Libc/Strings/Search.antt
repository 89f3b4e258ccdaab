-- ===== src/Libc/Strings/Search.antt =====
-- strchr, strrchr, strnlen and strcspn.
use mathlib.Core.Option
use sscc_oslecture.Base.{
  ◌==◌, Bool-cases, length, get_elem?, ℕ, zero, suc, ◌+◌, ◌≤◌, ◌<◌, min, ◌≡◌, refl, ap, ◌∙◌, ◌≢◌,
  inl, inr, Option, none, some, List, [], ◌∷◌, arith,
}
use sscc_oslecture.Libc.Strings.{strchr, strnlen, strlen, count_from}

-- The byte stands in no place of the string.
abbrev pub IsAbsent : ℕ → List ℕ → Type 0
IsAbsent ch str = (i : ℕ) → get_elem? str i ≢ some ch

-- What a search from the left may yield.
abbrev pub IsFirst : ℕ → List ℕ → Option ℕ → Type 0
IsFirst ch str none = IsAbsent ch str
IsFirst ch str (some i) =
    (get_elem? str i ≡ some ch) × ((j : ℕ) → j < i → get_elem? str j ≢ some ch)

IsFirst-suc :
    (c ch : ℕ) (str : List ℕ) (found : Option ℕ)
    → c ≢ ch
    → IsFirst ch str found
    → IsFirst ch (c ∷ str) (Option.map suc found)
IsFirst-suc c ch str none differ absent = go
  where
    go : (i : ℕ) → get_elem? (c ∷ str) i ≢ some ch
    go zero h = differ (cc)
    go (suc i) h = absent i h
IsFirst-suc c ch str (some i) differ (here, earlier) = (here, go)
  where
    go : (j : ℕ) → j < suc i → get_elem? (c ∷ str) j ≢ some ch
    go zero below h = differ (cc)
    go (suc j) below h = earlier j (omega arith) h

-- strchr finds the first place of the byte, and NULL says that there is none.
pub strchr-IsFirst : (str : List ℕ) (ch : ℕ) → IsFirst ch str (strchr str ch)
unfolding strchr
strchr-IsFirst [] ch = λ i h. cc
strchr-IsFirst (c ∷ str) ch = elim (Bool-cases (c == ch)) [
  | inl e ↦ rw e (ap some (ground arith), λ j h. ground arith)
  | inr e ↦ rw e (IsFirst-suc c ch str (strchr str ch) (ground arith) (strchr-IsFirst str ch))
]

count_from-eq :
    (str : List ℕ) (maxlen s : ℕ)
    → s ≤ maxlen + 1
    → count_from str maxlen s ≡ min (s + length str) (maxlen + 1)
unfolding count_from
count_from-eq [] maxlen s h = omega arith
count_from-eq (c ∷ str) maxlen s h =
    ground (arith, λ (below : s ≤ maxlen). count_from-eq str maxlen (suc s) (ground arith))

-- strnlen counts one byte too many when the string is longer than the bound: it yields the smaller of
-- the length and the bound plus one.
pub strnlen_lem : (str : List ℕ) (maxlen : ℕ) → strnlen str maxlen ≡ min (length str) (maxlen + 1)
unfolding strnlen
strnlen_lem str maxlen = count_from-eq str maxlen 0 (omega arith) ∙ ground arith

pub strlen_lem : (str : List ℕ) → strlen str ≡ length str
unfolding strlen
strlen_lem [] = refl
strlen_lem (c ∷ str) = ap suc (strlen_lem str)
