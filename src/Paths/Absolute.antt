-- ===== src/Paths/Absolute.antt =====
-- VlPath_Normalize of vellum/core/path.c on an absolute path without a filesystem, as a whole.
use mathlib.Core.Option
use sscc_oslecture.Base.{
  ltb, ◌==◌, Bool-cases, length, take, length-append, ℕ, zero, suc, ◌+◌, ◌-◌, ◌<◌, ◌≡◌, refl, ap,
  ◌∙◌, inl, inr, Bool, true, false, Option, none, some, List, [], ◌∷◌, ◌++◌, arith,
}
use sscc_oslecture.Paths.Resolved.{
  resolve, IsElement, IsStack-resolve, put-At, resolve_all, cost, AreElements,
}
use sscc_oslecture.Libc.Strings.{first}
use sscc_oslecture.Paths.{Iterator, next_element, advance, elements_of}
use sscc_oslecture.Paths.Normal.{put_slash, put, normalize_loop, drop_slash, finish}
use sscc_oslecture.Paths.Stack.{
  slashed, byte_at, IsName, IsStack, Stands, byte_at-append, length-slashed,
}

-- The loop has ended, and its text stands for the stack.
unfoldable pub Reaches : List (List ℕ) → Option (List ℕ) → Type 0
Reaches stack o = (text : List ℕ) × (o ≡ some text) × Stands text stack × IsStack stack

module _ (limit : ℕ) where
  -- When going through the elements ends, and they fit, the loop does to its text what they do to the stack.
  unfoldable pub Follows :
      List (List ℕ) → List ℕ → Option (List (List ℕ)) → Option (List ℕ) → Type 0
  Follows stack text none o = Unit
  Follows stack text (some elements) o =
      AreElements elements
      → length text + cost elements < limit
      → Reaches (resolve_all stack elements) o

  module _ (stack : List (List ℕ)) (text : List ℕ) (names : IsStack stack)
      (stands : Stands text stack) where
    put-Follows :
        (element : List ℕ)
        → Follows stack text (some (element ∷ [])) (some (put limit true none text element))
    unfolding Follows AreElements cost Reaches resolve_all
    put-Follows element (is_element, nothing) room =
        let at = put-At limit stack text element (omega arith) names stands in
        (
          put limit true none text element,
          refl,
          at.stands,
          IsStack-resolve stack element names is_element,
        )

    step-Follows :
        (element : List ℕ) (later : Option (List (List ℕ))) (o : Option (List ℕ))
        → (IsElement element
            → length text + length element + 1 < limit
            → Follows (resolve stack element) (put limit true none text element) later o)
        → Follows stack text (Option.map (element ∷◌) later) o
    unfolding Follows AreElements cost resolve_all
    step-Follows element none o h = _
    step-Follows element (some elements) o h = λ (is_element, are_elements) room.
        let at = put-At limit stack text element (omega arith) names stands in
        h is_element (omega arith) are_elements (omega (arith, at.small))

  pub loop-Follows :
      (fuel : ℕ) (it : Iterator) (stack : List (List ℕ)) (text : List ℕ)
      → IsStack stack
      → Stands text stack
      → Follows stack text (elements_of fuel it) (normalize_loop fuel limit none true false it text)
  unfolding elements_of normalize_loop
  loop-Follows zero it stack text names stands = unfold Follows in _
  loop-Follows (suc fuel) it stack text names stands =
      let after = (advance it).1 in
      let element = after.element in
      let written = put limit true none text element in
      elim (Bool-cases ((advance it).0)) [
        | inl end ↦ rw end (put-Follows stack text names stands element)
        | inr more ↦ rw more (
            step-Follows stack text names stands element (elements_of fuel after)
              (normalize_loop fuel limit none true false after written)
              (λ is_element room.
                let at = put-At limit stack text element room names stands in
                loop-Follows fuel after (resolve stack element) written
                  (IsStack-resolve stack element names is_element) at.stands))
      ]

next_element-separator :
    (separator : Bool) (p : List ℕ) (it : Iterator)
    → (next_element separator p it).1.has_separator ≡ separator
unfolding next_element
next_element-separator separator [] it = refl
next_element-separator separator (c ∷ p) it = refl

-- The first round on a path that starts with a slash writes it.
pub first_round :
    (fuel limit : ℕ) (it : Iterator)
    → first it.cursor ≡ 47
    → normalize_loop fuel limit none false true it []
      ≡ normalize_loop fuel limit none true false it (put_slash limit [])
unfolding normalize_loop advance
first_round zero limit it e = refl
first_round (suc fuel) limit it e =
    let is_slash : (first it.cursor == 47) ≡ true = rw e refl in
    let separator : (advance it).1.has_separator ≡ true =
      next_element-separator (first it.cursor == 47) _ it ∙ is_slash in
    rw separator refl

-- The absolute path of a stack.
unfoldable pub shown : List (List ℕ) → List ℕ
shown [] = 47 ∷ []
shown (name ∷ stack) = slashed stack ++ name

finish_lem :
    (limit : ℕ) (text : List ℕ) → 0 < length text → finish limit none text ≡ drop_slash none text
unfolding finish
finish_lem limit [] h = ground arith
finish_lem limit (c ∷ text) h = refl

drop_slash-free :
    (text : List ℕ) → (byte_at (length text - 1) text == 47) ≡ false → drop_slash none text ≡ text
unfolding drop_slash
drop_slash-free text free = elim (Bool-cases (ltb 1 (length text))) [
  | inl e ↦ rw (e, free) refl
  | inr e ↦ rw e refl
]

take-length : (xs ys : List ℕ) → take (length xs) (xs ++ ys) ≡ xs
take-length [] ys = refl
take-length (x ∷ xs) ys = ap (x ∷◌) (take-length xs ys)

drop_slash-slashed : (text : List ℕ) → 0 < length text → drop_slash none (text ++ (47 ∷ [])) ≡ text
unfolding drop_slash
drop_slash-slashed text some_byte =
    let long : length (text ++ (47 ∷ [])) ≡ length text + 1 = length-append text (47 ∷ []) in
    let more : ltb 1 (length (text ++ (47 ∷ []))) ≡ true = ground (arith, long) in
    let last : length (text ++ (47 ∷ [])) - 1 ≡ length text = omega (arith, long) in
    let slash : byte_at (length text) (text ++ (47 ∷ [])) ≡ 47 =
      byte_at-append text (47 ∷ []) 0 (length text) (omega arith) in
    rw (more, last, slash) (take-length text (47 ∷ []))

drop_slash-root : drop_slash none (47 ∷ []) ≡ 47 ∷ []
unfolding drop_slash
drop_slash-root = refl

ends_in_name :
    (stack : List (List ℕ)) (name : List ℕ)
    → IsName name
    → (byte_at (length (slashed stack ++ name) - 1) (slashed stack ++ name) == 47) ≡ false
ends_in_name stack name is_name =
    let some_byte = is_name.some_byte in
    ap (λ b. b == 47)
      (byte_at-append (slashed stack) name (length name - 1) (length (slashed stack ++ name) - 1)
        (omega (arith, length-append (slashed stack) name)))
    ∙ is_name.no_slash (length name - 1) (omega arith)

pub finish-Stands :
    (limit : ℕ) (stack : List (List ℕ)) (text : List ℕ)
    → IsStack stack
    → Stands text stack
    → finish limit none text ≡ shown stack
unfolding Stands IsStack shown slashed
finish-Stands limit [] text names e =
    rw e (finish_lem limit (47 ∷ []) (omega arith) ∙ drop_slash-root)
finish-Stands limit (name ∷ stack) text (is_name, names) (inl e) = rw e (
    finish_lem limit (slashed stack ++ name)
      (omega (arith, length-slashed stack, length-append (slashed stack) name))
    ∙ drop_slash-free (slashed stack ++ name) (ends_in_name stack name is_name))
finish-Stands limit (name ∷ stack) text (is_name, names) (inr e) =
    let positive : 0 < length (slashed stack ++ name) =
      omega (arith, length-slashed stack, length-append (slashed stack) name) in
    rw e (
      finish_lem limit ((slashed stack ++ name) ++ (47 ∷ []))
        (omega (arith, positive, length-append (slashed stack ++ name) (47 ∷ [])))
      ∙ drop_slash-slashed (slashed stack ++ name) positive)
