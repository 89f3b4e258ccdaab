-- ===== src/Paths/Elements.antt =====
-- The iterator of vellum/core/path.c against the splitting of a path at its slashes.
use mathlib.Core.Option
use sscc_oslecture.Base.{
  ◌==◌, if◌then◌else◌, ==_false, Bool-cases, length, take, drop, ℕ, zero, suc, ◌≤◌, ◌<◌, ◌≡◌, refl,
  sym, ap, ◌∙◌, ◌⊎◌, inl, inr, Bool, Option, none, some, List, [], ◌∷◌, map, arith,
}
use sscc_oslecture.Libc.Strings.{strchr, strlen, first, rest}
use sscc_oslecture.Paths.{Iterator, cut, place_or, next_element, advance, elements_of}
use sscc_oslecture.Libc.Strings.Compare.{IsString}

-- The byte before the first element of what was split.
abbrev pub onto : ℕ → List (List ℕ) → List (List ℕ)
onto c [] = (c ∷ []) ∷ []
onto c (element ∷ elements) = (c ∷ element) ∷ elements

-- A path split at every slash.
unfoldable pub split : List ℕ → List (List ℕ)
split [] = [] ∷ []
split (c ∷ path) = if c == 47 then [] ∷ split path else onto c (split path)

-- The length of the first element.
abbrev span_length : List ℕ → ℕ
span_length path = place_or (strchr path 47) (strlen path)

-- An element, as its buffer of 256 bytes holds it.
abbrev pub shortened : List ℕ → List ℕ
shortened element = take (cut (length element)) element

-- What is left to split behind the first element.
abbrev later : List ℕ → List (List ℕ)
later [] = []
later (c ∷ path) = split path

place_or-suc : (o : Option ℕ) (n : ℕ) → place_or (Option.map suc o) (suc n) ≡ suc (place_or o n)
place_or-suc none n = refl
place_or-suc (some place) n = refl

-- The path splits into its first bytes up to a slash and what is behind the slash.
split-span :
    (path : List ℕ)
    → split path ≡ take (span_length path) path ∷ later (drop (span_length path) path)
unfolding split strchr strlen
split-span [] = refl
split-span (c ∷ path) = elim (Bool-cases (c == 47)) [
  | inl e ↦ rw e refl
  | inr e ↦ rw (e, place_or-suc (strchr path 47) (strlen path), split-span path) refl
]

span_length-le : (path : List ℕ) → span_length path ≤ length path
unfolding strchr strlen
span_length-le [] = omega arith
span_length-le (c ∷ path) = elim (Bool-cases (c == 47)) [
  | inl e ↦ rw e (omega arith)
  | inr e ↦ rw (e, place_or-suc (strchr path 47) (strlen path)) (omega (arith, span_length-le path))
]

-- Behind the first element is the end or a slash.
drop-span :
    (path : List ℕ) → let tail = drop (span_length path) path in (tail ≡ []) ⊎ (first tail ≡ 47)
unfolding strchr strlen
drop-span [] = inl refl
drop-span (c ∷ path) = elim (Bool-cases (c == 47)) [
  | inl e ↦ rw e (inr (ground arith))
  | inr e ↦ rw (e, place_or-suc (strchr path 47) (strlen path)) (drop-span path)
]

take-take : (path : List ℕ) (k n : ℕ) → k ≤ n → take k (take n path) ≡ take k path
take-take path zero n h = refl
take-take [] (suc k) zero h = refl
take-take [] (suc k) (suc n) h = refl
take-take (c ∷ path) (suc k) zero h = ground arith
take-take (c ∷ path) (suc k) (suc n) h = ap (c ∷◌) (take-take path k n (omega arith))

length-take : (path : List ℕ) (n : ℕ) → n ≤ length path → length (take n path) ≡ n
length-take path zero h = refl
length-take [] (suc n) h = ground arith
length-take (c ∷ path) (suc n) h = ap suc (length-take path n (omega arith))

cut-le : (n : ℕ) → cut n ≤ n
cut-le n = ground arith

shortened-span :
    (path : List ℕ) → take (cut (span_length path)) path ≡ shortened (take (span_length path) path)
shortened-span path =
    rw (length-take path (span_length path) (span_length-le path))
      (sym (take-take path (cut (span_length path)) (span_length path) (cut-le (span_length path))))

pub IsString-drop : (path : List ℕ) (n : ℕ) → IsString path → IsString (drop n path)
IsString-drop path zero h = h
IsString-drop [] (suc n) h = h
IsString-drop (c ∷ path) (suc n) (positive, h) = IsString-drop path n h

pub length-take-le : (n : ℕ) (path : List ℕ) → length (take n path) ≤ length path
length-take-le zero path = omega arith
length-take-le (suc n) [] = omega arith
length-take-le (suc n) (c ∷ path) = omega (arith, length-take-le n path)

pub length-drop : (path : List ℕ) (n : ℕ) → length (drop n path) ≤ length path
length-drop path zero = omega arith
length-drop [] (suc n) = omega arith
length-drop (c ∷ path) (suc n) = omega (arith, length-drop path n)

-- The place that VlPath_AdvanceIter starts to read an element from.
abbrev pub strip : List ℕ → List ℕ
strip cursor = if first cursor == 47 then rest cursor else cursor

-- The loop over the elements from an iterator on yields those of its path.
abbrev pub IsSplit : ℕ → Iterator → Type 0
IsSplit fuel it = elements_of fuel it ≡ some (map shortened (split (strip it.cursor)))

is_slash : (d : ℕ) (q : List ℕ) → (d ∷ q ≡ []) ⊎ (first (d ∷ q) ≡ 47) → d ≡ 47
is_slash d q (inl e) = cc
is_slash d q (inr e) = e

module _ (fuel : ℕ)
    (next : (it : Iterator)
      → IsString (strip it.cursor)
      → length (strip it.cursor) < fuel
      → IsSplit fuel it) where
  -- The rest of the loop behind an element.
  tail-split :
      (element tail : List ℕ) (it : Iterator)
      → it.cursor ≡ tail
      → IsString tail
      → length tail < suc fuel
      → (tail ≡ []) ⊎ (first tail ≡ 47)
      → (if first tail == 0
          then some (element ∷ [])
          else Option.map (element ∷◌) (elements_of fuel it))
        ≡ some (element ∷ map shortened (later tail))
  tail-split element [] it e string enough ends = refl
  tail-split element (d ∷ q) it e string enough ends =
      let slash : d ≡ 47 = is_slash d q ends in
      let after : strip it.cursor ≡ q = rw (e, slash) refl in
      rw
        (==_false d 0 (ground arith), next it (rw after (string.1)) (rw after (omega arith)), after)
        refl

  step-split :
      (separator : Bool) (p : List ℕ) (it : Iterator)
      → IsString p
      → length p < suc fuel
      → (let (end, after) = next_element separator p it in
          if end
          then some (after.element ∷ [])
          else Option.map (after.element ∷◌) (elements_of fuel after))
        ≡ some (map shortened (split p))
  unfolding next_element
  step-split separator [] it string enough = unfold split in refl
  step-split separator (c ∷ p) it string enough =
      let path : List ℕ = c ∷ p in
      let len = span_length path in
      tail-split (take (cut len) path) (drop len path)
        (record it {
          cursor = drop len path;
          has_separator = separator;
          element = take (cut len) path;
        })
        refl (IsString-drop path len string) (omega (arith, length-drop path len)) (drop-span path)
      ∙ ap (λ x. some (x ∷ map shortened (later (drop len path)))) (shortened-span path)
      ∙ ap (λ x. some (map shortened x)) (sym (split-span path))

-- The loop over the elements of a path goes, in no more rounds than the path has bytes and one, through the
-- pieces between the slashes of the path, without the slash that it starts with and each cut to 255 bytes.
pub elements_of-IsSplit :
    (fuel : ℕ) (it : Iterator)
    → IsString (strip it.cursor)
    → length (strip it.cursor) < fuel
    → IsSplit fuel it
unfolding elements_of advance
elements_of-IsSplit zero it string enough = ground arith
elements_of-IsSplit (suc fuel) it string enough =
    step-split fuel (elements_of-IsSplit fuel) (first it.cursor == 47) (strip it.cursor) it string
      enough
