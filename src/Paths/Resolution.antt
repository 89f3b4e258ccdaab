-- ===== src/Paths/Resolution.antt =====
-- VlPath_Normalize of vellum/core/path.c against the resolution of a path: the pieces between its slashes,
-- one after the other, on a stack of names.
use sscc_oslecture.Base.{
  ◌==◌, Bool-cases, length, take, ℕ, zero, suc, ◌+◌, ◌≤◌, ◌<◌, ◌≡◌, refl, ap, subst, ◌∙◌, inl, inr,
  true, false, none, some, List, [], ◌∷◌, map, arith,
}
use sscc_oslecture.Libc.Strings.{strchr}
use sscc_oslecture.Libc.Strings.Compare.{IsString}
use sscc_oslecture.Paths.{Iterator, cut, init_iter, elements_of}
use sscc_oslecture.Paths.Elements.{onto, split, shortened, length-take-le, elements_of-IsSplit}
use sscc_oslecture.Paths.Normal.{normalize_loop, normalize_from, normalize}
use sscc_oslecture.Paths.Stack.{slashed, byte_at, IsStack, Stands, put_slash-root}
use sscc_oslecture.Paths.Resolved.{IsElement, resolve_all, cost, AreElements}
use sscc_oslecture.Paths.Absolute.{
  Reaches, Follows, loop-Follows, first_round, shown, finish-Stands,
}

byte_at-take :
    (n : ℕ) (xs : List ℕ) (i : ℕ) → i < length (take n xs) → byte_at i (take n xs) ≡ byte_at i xs
byte_at-take zero xs i h = ground arith
byte_at-take (suc n) [] i h = ground arith
byte_at-take (suc n) (x ∷ xs) zero h = refl
byte_at-take (suc n) (x ∷ xs) (suc i) h = byte_at-take n xs i (omega arith)

-- The pieces of a path have no slash.
onto-AreElements :
    (c : ℕ) (elements : List (List ℕ))
    → (c == 47) ≡ false
    → AreElements elements
    → AreElements (onto c elements)
unfolding AreElements IsElement
onto-AreElements c [] free h = (one_byte, _)
  where
    one_byte : (i : ℕ) → i < 1 → (byte_at i (c ∷ []) == 47) ≡ false
    one_byte zero h = free
    one_byte (suc i) h = ground arith
onto-AreElements c (element ∷ elements) free (is_element, h) = (longer, h)
  where
    longer : (i : ℕ) → i < suc (length element) → (byte_at i (c ∷ element) == 47) ≡ false
    longer zero h = free
    longer (suc i) h = is_element i (omega arith)

split-AreElements : (path : List ℕ) → AreElements (split path)
unfolding split AreElements IsElement
split-AreElements [] = (λ i h. ground arith, _)
split-AreElements (c ∷ path) = elim (Bool-cases (c == 47)) [
  | inl e ↦ rw e (λ i h. ground arith, split-AreElements path)
  | inr e ↦ rw e (onto-AreElements c (split path) e (split-AreElements path))
]

shortened-AreElements :
    (elements : List (List ℕ)) → AreElements elements → AreElements (map shortened elements)
unfolding AreElements IsElement
shortened-AreElements [] h = _
shortened-AreElements (element ∷ elements) (is_element, h) =
    let n = cut (length element) in
    (
      λ i inside.
          rw (byte_at-take n element i inside)
            (is_element i (omega (arith, length-take-le n element))),
      shortened-AreElements elements h,
    )

cost-onto :
    (c : ℕ) (elements : List (List ℕ))
    → 0 < cost elements
    → cost (onto c elements) ≡ cost elements + 1
unfolding cost
cost-onto c [] h = ground arith
cost-onto c (element ∷ elements) h = omega arith

cost-split : (path : List ℕ) → cost (split path) ≡ length path + 1
unfolding cost split
cost-split [] = refl
cost-split (c ∷ path) =
    let later = cost-split path in
    elim (Bool-cases (c == 47)) [
      | inl e ↦ rw e (omega (arith, later))
      | inr e ↦ rw e (omega (arith, later, cost-onto c (split path) (omega (arith, later))))
    ]

cost-shortened : (elements : List (List ℕ)) → cost (map shortened elements) ≤ cost elements
unfolding cost
cost-shortened [] = omega arith
cost-shortened (element ∷ elements) =
    omega (arith, length-take-le (cut (length element)) element, cost-shortened elements)

no_names : IsStack []
unfolding IsStack
no_names = _

root : Stands (47 ∷ []) []
unfolding Stands slashed
root = refl

-- On an absolute path without a colon, with more fuel than there are bytes behind its first slash and a
-- buffer of at least three bytes more than the path, VlPath_Normalize writes the path of the names that are
-- left when the pieces between the slashes, each cut to 255 bytes, are gone through from the root: an empty
-- piece and a dot change nothing, two dots take the innermost name away, which at the root changes
-- nothing, and any other piece is a name inside the last.
pub normalize-resolve :
    (fuel limit : ℕ) (path : List ℕ)
    → IsString path
    → strchr (47 ∷ path) 58 ≡ none
    → length path < fuel
    → length path + 2 < limit
    → normalize fuel (suc limit) (47 ∷ path)
      ≡ some (some (shown (resolve_all [] (map shortened (split path)))))
unfolding normalize init_iter normalize_from Follows Reaches
normalize-resolve fuel limit path string no_colon enough room =
    let src : List ℕ = 47 ∷ path in
    let it : Iterator = record { path = src; cursor = src; has_separator = false; element = [] } in
    let elements = map shortened (split path) in
    let goes : elements_of fuel it ≡ some elements = elements_of-IsSplit fuel it string enough in
    let follows : Follows limit [] (47 ∷ []) (some elements)
        (normalize_loop fuel limit none true false it (47 ∷ [])) =
      subst
        (λ o. Follows limit [] (47 ∷ []) o (normalize_loop fuel limit none true false it (47 ∷ [])))
        goes (loop-Follows limit fuel it [] (47 ∷ []) no_names root) in
    let (text, e, stands, names) =
      follows (shortened-AreElements (split path) (split-AreElements path))
        (omega (arith, cost-split path, cost-shortened (split path))) in
    let looped : normalize_loop fuel limit none false true it [] ≡ some text =
      first_round fuel limit it refl
      ∙ ap (normalize_loop fuel limit none true false it) (put_slash-root limit (omega arith))
      ∙ e in
    rw (no_colon, looped) (ap (λ x. some (some x)) (finish-Stands limit _ text names stands))
