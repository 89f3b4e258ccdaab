-- ===== src/Paths/Fitting.antt =====
-- VlPath_Normalize of vellum/core/path.c stays inside its buffer.
use mathlib.Core.Option
use sscc_oslecture.Base.{
  ltb, leb, ◌==◌, if◌then◌else◌, Bool-cases, length, take, drop, length-append, ℕ, zero, suc, ◌+◌,
  ◌-◌, ◌≤◌, ◌<◌, ◌≡◌, refl, ap, subst, inl, inr, Bool, true, false, ◌&&◌, Option, none, some, List,
  [], ◌∷◌, ◌++◌, arith,
}
use sscc_oslecture.Paths.Normal.{
  put_slash, put_dots, back, last_byte, up_absolute, up_relative, put_element, put, normalize_loop,
  drop_slash, finish, normalize_from, normalize,
}
use sscc_oslecture.Libc.Strings.Compare.{IsString}
use sscc_oslecture.Paths.Elements.{
  IsString-drop, length-take-le, length-drop, strip, elements_of-IsSplit,
}
use sscc_oslecture.Libc.Strings.{strchr}
use sscc_oslecture.Paths.{Iterator, init_at, init_iter, advance, elements_of}

-- What is written stays below the end of the buffer.
record Fits (limit : ℕ) (text : List ℕ) : Type 0 where
  room : length text ≤ limit

append-Fits :
    (limit : ℕ) (text element : List ℕ)
    → length text + length element ≤ limit
    → Fits limit (text ++ element)
append-Fits limit text element h = record { room = rw (length-append text element) h }

map-some :
    {A B : Type 0}
    → (f : A → B) (o : Option A) (y : B) → Option.map f o ≡ some y
    → (x : A) × (o ≡ some x)
map-some f none y e = ground arith
map-some f (some x) y e = (x, refl)

module _ (limit : ℕ) where
  put_slash-Fits : (text : List ℕ) → Fits limit text → Fits limit (put_slash limit text)
  unfolding put_slash
  put_slash-Fits text h = elim (Bool-cases (ltb (length text) limit)) [
    | inl e ↦ rw e (append-Fits limit text (47 ∷ []) (ground arith))
    | inr e ↦ rw e h
  ]

  put_dots-Fits : (text : List ℕ) → Fits limit text → Fits limit (put_dots limit text)
  unfolding put_dots
  put_dots-Fits text h = elim (Bool-cases (ltb (length text + 2) limit)) [
    | inl e ↦ rw e (append-Fits limit text (46 ∷ 46 ∷ []) (ground arith))
    | inr e ↦ rw e h
  ]

  take-Fits : (n : ℕ) (text : List ℕ) → Fits limit text → Fits limit (take n text)
  take-Fits n text h = record { room = omega (arith, h.room, length-take-le n text) }

  if-Fits :
      (b : Bool) (x y : List ℕ) → Fits limit x → Fits limit y → Fits limit (if b then x else y)
  if-Fits true x y p q = p
  if-Fits false x y p q = q

  up_absolute-Fits :
      (colon : Option ℕ) (text : List ℕ)
      → Fits limit text
      → Fits limit (up_absolute limit colon text)
  unfolding up_absolute
  up_absolute-Fits none text h =
      if-Fits _ _ _
        (if-Fits _ _ _ (put_slash-Fits [] record { room = omega arith }) (take-Fits _ text h)) h
  up_absolute-Fits (some colon) text h =
      let sep = back text 0 (last_byte text) in
      let cleared = put_slash-Fits (take (colon + 1) text) (take-Fits (colon + 1) text h) in
      if-Fits _ _ _
        (if-Fits (leb sep (colon + 1)) _ _ cleared
          (if-Fits (leb sep 0) _ _ cleared (take-Fits (sep + 1) text h)))
        h

  up_relative-Fits :
      (colon : Option ℕ) (text : List ℕ)
      → Fits limit text
      → Fits limit (up_relative limit colon text)
  unfolding up_relative
  up_relative-Fits none text h = put_dots-Fits _ (if-Fits _ _ _ (put_slash-Fits text h) h)
  up_relative-Fits (some colon) text h =
      let sep = back text (colon + 1) (last_byte text) in
      if-Fits (ltb (colon + 1) (length text)) _ _
        (if-Fits (leb sep (colon + 1)) _ _ (take-Fits (colon + 1) text h)
          (take-Fits (sep + 1) text h))
        (put_dots-Fits text h)

  add-Fits :
      (element text : List ℕ)
      → Fits limit text
      → Fits limit (if ltb (length text + length element) limit then text ++ element else text)
  add-Fits element text h = elim (Bool-cases (ltb (length text + length element) limit)) [
    | inl e ↦ rw e (append-Fits limit text element (ground arith))
    | inr e ↦ rw e h
  ]

  put_element-Fits :
      (element text : List ℕ) → Fits limit text → Fits limit (put_element limit element text)
  unfolding put_element
  put_element-Fits element text h = add-Fits element _ (if-Fits _ _ _ (put_slash-Fits text h) h)

  put-Fits :
      (rooted : Bool) (colon : Option ℕ) (text element : List ℕ)
      → Fits limit text
      → Fits limit (put limit rooted colon text element)
  unfolding put
  put-Fits rooted colon text [] h = h
  put-Fits rooted colon text (c ∷ element) h = if-Fits _ _ _ h (
      if-Fits _ _ _
        (if-Fits rooted _ _ (up_absolute-Fits colon text h) (up_relative-Fits colon text h))
        (put_element-Fits (c ∷ element) text h))

  drop_slash-Fits :
      (colon : Option ℕ) (text : List ℕ) → Fits limit text → Fits limit (drop_slash colon text)
  unfolding drop_slash
  drop_slash-Fits none text h = if-Fits _ _ _ (take-Fits (length text - 1) text h) h
  drop_slash-Fits (some colon) text h =
      if-Fits _ _ _
        (if-Fits (ltb (colon + 2) (length text)) _ _ (take-Fits (length text - 1) text h) h) h

  finish-Fits :
      (colon : Option ℕ) (text : List ℕ) → Fits limit text → Fits limit (finish limit colon text)
  unfolding finish
  finish-Fits none [] h = drop_slash-Fits none _ (elim (Bool-cases (ltb 0 limit)) [
    | inl e ↦ rw e record { room = ground arith }
    | inr e ↦ rw e h
  ])
  finish-Fits none (c ∷ text) h = drop_slash-Fits none (c ∷ text) h
  finish-Fits (some colon) text h = drop_slash-Fits (some colon) text h

  -- A loop that has ended has written a text that fits.
  Ends : Option (List ℕ) → Type 0
  Ends o = (text : List ℕ) × (o ≡ some text) × Fits limit text

  -- The loop ends, and fits, when going through the elements ends.
  normalize_loop-Ends :
      (fuel : ℕ) (colon : Option ℕ) (absolute opening : Bool) (it : Iterator) (text : List ℕ)
      (elements : List (List ℕ))
      → elements_of fuel it ≡ some elements
      → Fits limit text
      → Ends (normalize_loop fuel limit colon absolute opening it text)
  unfolding elements_of normalize_loop Ends
  normalize_loop-Ends zero colon absolute opening it text elements e h = ground arith
  normalize_loop-Ends (suc fuel) colon absolute opening it text elements e h =
      let after = (advance it).1 in
      let rooted = if opening then after.has_separator else absolute in
      let start = if opening && after.has_separator then put_slash limit text else text in
      let start-Fits : Fits limit start =
        if-Fits (opening && after.has_separator) _ _ (put_slash-Fits text h) h in
      let written = put-Fits rooted colon start after.element start-Fits in
      elim (Bool-cases ((advance it).0)) [
        | inl end ↦ rw end (_, refl, written)
        | inr more ↦
            let later = map-some (after.element ∷◌) (elements_of fuel after) elements (
              subst
                (λ b.
                  ◌≡◌
                    (if b
                      then some (after.element ∷ [])
                      else Option.map (after.element ∷◌) (elements_of fuel after))
                    (some elements))
                more e) in
            rw more (
              normalize_loop-Ends fuel colon rooted false after
                (put limit rooted colon start after.element) (later.0) (later.1) written)
      ]

  map-Ends :
      (colon : Option ℕ) (o : Option (List ℕ)) → Ends o → Ends (Option.map (finish limit colon) o)
  unfolding Ends
  map-Ends colon o (text, e, h) =
      (finish limit colon text, ap (Option.map (finish limit colon)) e, finish-Fits colon text h)

  normalize_from-Ends :
      (fuel : ℕ) (it : Iterator) (name : List ℕ) (elements : List (List ℕ))
      → elements_of fuel it ≡ some elements
      → Ends (normalize_from fuel limit it name)
  unfolding normalize_from
  normalize_from-Ends fuel it [] elements e =
      map-Ends none _
        (normalize_loop-Ends fuel none false true it [] elements e record { room = omega arith })
  normalize_from-Ends fuel it (c ∷ name) elements e =
      let place = length (c ∷ name) in
      let prefix : List ℕ = (c ∷ name) ++ (58 ∷ []) in
      elim (Bool-cases (leb limit (place + 1))) [
        | inl small ↦ rw small (unfold Ends in ([], refl, record { room = omega arith }))
        | inr large ↦ rw large (
            map-Ends (some place) _ (
              normalize_loop-Ends fuel (some place) false true it prefix elements e
                (append-Fits limit (c ∷ name) (58 ∷ []) (ground arith))))
      ]

-- A part of a path: a string that is no longer.
IsPart : List ℕ → List ℕ → Type 0
IsPart src part = (IsString src → IsString part) × (length part ≤ length src)

strip-IsPart : (src : List ℕ) → IsPart src (strip src)
unfolding IsPart
strip-IsPart [] = (λ s. s, omega arith)
strip-IsPart (c ∷ src) = elim (Bool-cases (c == 47)) [
  | inl e ↦ rw e (λ s. s.1, omega arith)
  | inr e ↦ rw e (λ s. s, omega arith)
]

drop-IsPart : (src : List ℕ) (n : ℕ) → IsPart src (strip (drop n src))
unfolding IsPart
drop-IsPart src n =
    let (string, shorter) = strip-IsPart (drop n src) in
    (λ s. string (IsString-drop src n s), omega (arith, shorter, length-drop src n))

-- Where the iterator over the elements starts.
init_iter-IsPart : (src : List ℕ) → IsPart src (strip (init_iter src).cursor)
unfolding init_iter
init_iter-IsPart src = elim (strchr src 58) as (λ o. IsPart src (strip (init_at src o).cursor)) [
  | none ↦ strip-IsPart src
  | some colon ↦ drop-IsPart src (colon + 1)
]

-- On every path, with more fuel than the path has bytes, VlPath_Normalize ends, and the text that it writes
-- leaves room for the 0 at its end in a buffer of at least one byte.
pub normalize-Fits :
    (fuel limit : ℕ) (src : List ℕ)
    → IsString src
    → length src < fuel
    → (text : List ℕ) × (normalize fuel (suc limit) src ≡ some (some text))
      × (length text < suc limit)
unfolding normalize IsPart Ends
normalize-Fits fuel limit src string enough =
    let it = init_iter src in
    let (part, shorter) = init_iter-IsPart src in
    let (text, e, h) =
      normalize_from-Ends limit fuel it it.element _
        (elements_of-IsSplit fuel it (part string) (omega arith)) in
    (text, ap (Option.map some) e, omega (arith, h.room))
