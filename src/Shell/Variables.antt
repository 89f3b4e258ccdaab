-- ===== src/Shell/Variables.antt =====
-- The variables of a shell, vellum/shell/variable.c. A string is the list of its bytes; the list is in the
-- order of `next`. VlShell_SetVariable does not set `next` in a new entry: what it happens to lead to, `behind`,
-- is a parameter. So is `stale`, the byte that realloc leaves behind the value: the strncpy of the source writes
-- no 0 there, and the last 0 is written one byte behind it, and behind the allocation.
use sscc_oslecture.Base.{
  ◌==◌, if◌then◌else◌, Bool-cases, length, ℕ, ◌<◌, ◌≡◌, refl, inl, inr, Bool, true, List, [], ◌∷◌,
  ◌++◌, arith,
}
use sscc_oslecture.Base.Int.{ℤ, pos}
use sscc_oslecture.Status.{Status, Result, ok, err}
use sscc_oslecture.Libc.Strings.{strlen, strncmp}
use sscc_oslecture.Libc.Strings.Compare.{IsString, strncmp-take}
use sscc_oslecture.Filesystem.{is_zero}

-- struct shell_var: `str` holds the key, a 0 and the value; key_len is the length of the key.
pub record Variable : Type 0 where
  pub key : List ℕ
  pub value : List ℕ

-- `strncmp(current->str, key, current->key_len) == 0`
abbrev pub matches : Variable → List ℕ → Bool
matches current key = is_zero (strncmp current.key key (strlen current.key))

-- VlShell_GetVariable
unfoldable pub get_variable : List ℕ → List Variable → Result (List ℕ)
get_variable key [] = err Status.entry_not_found
get_variable key (current ∷ vars) =
    let later = get_variable key vars in if matches current key then ok current.value else later

-- The value that is then read up to the 0.
abbrev pub read_back : ℕ → List ℕ → List ℕ
read_back stale value = if stale == 0 then value else value ++ (stale ∷ [])

-- The entry that VlShell_SetVariable writes, in place of the first that matches or at the end.
unfoldable pub store_variable : ℕ → List Variable → List ℕ → List ℕ → List Variable → List Variable
store_variable stale behind key value [] =
    record { key = key; value = read_back stale value } ∷ behind
store_variable stale behind key value (current ∷ vars) =
    let later = store_variable stale behind key value vars in
    if matches current key
    then record { key = key; value = read_back stale value } ∷ vars
    else current ∷ later

-- VlShell_SetVariable; `allocated` says whether realloc succeeds.
unfoldable pub set_variable :
    Bool → ℕ → List Variable → List ℕ → List ℕ → List Variable → Result (Unit {0}) × List Variable
set_variable allocated stale behind key value vars =
    if allocated
    then (ok tt, store_variable stale behind key value vars)
    else (err Status.unknown_error, vars)

is_zero_lem : (n : ℤ) → n ≡ pos 0 → is_zero n ≡ true
is_zero_lem n h = rw (h) refl

strlen_positive : (key : List ℕ) → 0 < length key → 0 < strlen key
unfolding strlen
strlen_positive [] h = h
strlen_positive (c ∷ key) h = omega arith

matches_itself :
    (key value : List ℕ)
    → IsString key
    → 0 < length key
    → matches (record { key = key; value = value }) key ≡ true
matches_itself key value string some_bytes =
    is_zero_lem (strncmp key key (strlen key))
      ((strncmp-take key key (strlen key) string string (strlen_positive key some_bytes)).1 refl)

get_variable-store :
    (stale : ℕ) (behind : List Variable) (key value : List ℕ) (vars : List Variable)
    → IsString key
    → 0 < length key
    → get_variable key (store_variable stale behind key value vars) ≡ ok (read_back stale value)
unfolding get_variable store_variable
get_variable-store stale behind key value [] string some_bytes =
    rw (matches_itself key (read_back stale value) string some_bytes) refl
get_variable-store stale behind key value (current ∷ vars) string some_bytes =
    elim (Bool-cases (matches current key)) [
      | inl h ↦ rw (h, matches_itself key (read_back stale value) string some_bytes) refl
      | inr h ↦ rw (h, h) (get_variable-store stale behind key value vars string some_bytes)
    ]

-- When realloc succeeds, so does VlShell_SetVariable, and what VlShell_GetVariable then finds under the key,
-- of one byte or more, is the value, followed by the byte that realloc left behind it unless this is 0.
pub get_variable-set :
    (stale : ℕ) (behind : List Variable) (key value : List ℕ) (vars : List Variable)
    → IsString key
    → 0 < length key
    → let o = set_variable true stale behind key value vars in
      (o.0 ≡ ok tt) × (get_variable key (o.1) ≡ ok (read_back stale value))
unfolding set_variable
get_variable-set stale behind key value vars string some_bytes =
    (refl, get_variable-store stale behind key value vars string some_bytes)
