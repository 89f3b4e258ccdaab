-- ===== src/Paths/Stack.antt =====
-- What VlPath_Normalize of vellum/core/path.c does with two dots in an absolute path, against a
-- stack of names.
use sscc_oslecture.Base.{
  ltb, leb, ◌==◌, Bool-cases, length, take, drop, length-append, ℕ, zero, suc, ◌+◌, ◌-◌, ◌≤◌, ◌<◌,
  ◌≡◌, refl, sym, ap, subst, ◌∙◌, ◌⊎◌, inl, inr, true, false, none, List, [], ◌∷◌, ◌++◌, arith,
}
use sscc_oslecture.Libc.Strings.{first}
use sscc_oslecture.Paths.Normal.{put_slash, back, last_byte, up_absolute}

-- The path of the names on a stack, the innermost first, with a slash behind each.
unfoldable pub slashed : List (List ℕ) → List ℕ
slashed [] = 47 ∷ []
slashed (name ∷ stack) = (slashed stack ++ name) ++ (47 ∷ [])

-- The byte at a place of a text.
abbrev pub byte_at : ℕ → List ℕ → ℕ
byte_at i text = first (drop i text)

-- A name: it is not empty, and has no slash.
pub record IsName (name : List ℕ) : Type 0 where
  pub some_byte : 0 < length name
  pub no_slash : (i : ℕ) → i < length name → (first (drop i name) == 47) ≡ false

-- A stack of names.
unfoldable pub IsStack : List (List ℕ) → Type 0
IsStack [] = Unit
IsStack (name ∷ stack) = IsName name × IsStack stack

-- The text in the buffer stands for the stack; behind the innermost name there may be a slash.
unfoldable pub Stands : List ℕ → List (List ℕ) → Type 0
Stands text [] = text ≡ slashed []
Stands text (name ∷ stack) = (text ≡ slashed stack ++ name) ⊎ (text ≡ slashed (name ∷ stack))

pub byte_at-append :
    (xs ys : List ℕ) (i n : ℕ) → n ≡ length xs + i → byte_at n (xs ++ ys) ≡ byte_at i ys
byte_at-append [] ys i n e = let same : n ≡ i = omega arith in ap (λ k. byte_at k ys) same
byte_at-append (x ∷ xs) ys i zero e = ground arith
byte_at-append (x ∷ xs) ys i (suc n) e = byte_at-append xs ys i n (omega arith)

byte_at-before : (xs ys : List ℕ) (i : ℕ) → i < length xs → byte_at i (xs ++ ys) ≡ byte_at i xs
byte_at-before [] ys i h = ground arith
byte_at-before (x ∷ xs) ys zero h = refl
byte_at-before (x ∷ xs) ys (suc i) h = byte_at-before xs ys i (omega arith)

take-append : (xs ys zs : List ℕ) → take (length xs) ((xs ++ ys) ++ zs) ≡ xs
take-append [] ys zs = refl
take-append (x ∷ xs) ys zs = ap (x ∷◌) (take-append xs ys zs)

-- Behind every name is a slash.
pub slashed-last :
    (stack : List (List ℕ)) → byte_at (length (slashed stack) - 1) (slashed stack) ≡ 47
unfolding slashed
slashed-last [] = refl
slashed-last (name ∷ stack) =
    let text = slashed stack ++ name in
    byte_at-append text (47 ∷ []) 0 (length (text ++ (47 ∷ [])) - 1)
      (omega (arith, length-append text (47 ∷ [])))

pub length-slashed : (stack : List (List ℕ)) → 0 < length (slashed stack)
unfolding slashed
length-slashed [] = omega arith
length-slashed (name ∷ stack) = rw (length-append (slashed stack ++ name) (47 ∷ [])) (omega arith)

-- From behind a slash at `q`, with no slash in between, the loop goes back to it.
back-slash :
    (text : List ℕ) (q count p : ℕ)
    → p ≡ q + count
    → byte_at q text ≡ 47
    → ((i : ℕ) → i < count → (byte_at (suc q + i) text == 47) ≡ false)
    → back text 0 p ≡ q
unfolding back
back-slash text q count zero e slash free = omega arith
back-slash text q zero (suc p) e slash free =
    let same : q ≡ suc p = omega arith in
    let here : byte_at (suc p) text ≡ 47 = subst (λ n. byte_at n text ≡ 47) same slash in
    let positive : ltb 0 (suc p) ≡ true = ground arith in rw (here, positive) (omega arith)
back-slash text q (suc count) (suc p) e slash free =
    let next : suc q + count ≡ suc p = omega arith in
    let here : (byte_at (suc p) text == 47) ≡ false =
      subst (λ n. (byte_at n text == 47) ≡ false) next (free count (omega arith)) in
    let positive : ltb 0 (suc p) ≡ true = ground arith in
    rw (here, positive)
      (back-slash text q count p (omega arith) slash (λ i h. free i (omega arith)))

last_byte-free :
    (text : List ℕ) (p : ℕ)
    → length text - 1 ≡ p
    → (byte_at p text == 47) ≡ false
    → last_byte text ≡ p
last_byte-free text p e free = rw (e, free) refl

last_byte-behind :
    (text : List ℕ) (p : ℕ) → length text - 1 ≡ p → byte_at p text ≡ 47 → last_byte text ≡ p - 1
last_byte-behind text p e slash = rw (e, slash) refl

short_slashed : (stack : List (List ℕ)) → length (slashed stack) ≤ 1 → slashed stack ≡ 47 ∷ []
unfolding slashed
short_slashed [] h = refl
short_slashed (name ∷ stack) h = absurd (
    omega (
      arith,
      length-slashed stack,
      length-append (slashed stack ++ name) (47 ∷ []),
      length-append (slashed stack) name,
    ))

pub put_slash-root : (limit : ℕ) → 0 < limit → put_slash limit [] ≡ 47 ∷ []
unfolding put_slash
put_slash-root limit h = let room : ltb 0 limit ≡ true = ground arith in rw room refl

-- Where the loop finds its slash behind the innermost name, in a text that begins with that name's path.
module _ (stack : List (List ℕ)) (name after : List ℕ) (is_name : IsName name) where
  abbrev dir : List ℕ
  dir = slashed stack

  byte_in_name :
      (i n : ℕ)
      → i < length name
      → n ≡ length dir + i
      → (byte_at n ((dir ++ name) ++ after) == 47) ≡ false
  byte_in_name i n h e =
      let inside : n < length (dir ++ name) = omega (arith, length-append dir name) in
      rw (byte_at-before (dir ++ name) after n inside, byte_at-append dir name i n e)
        (is_name.no_slash i h)

  byte_before_name : byte_at (length dir - 1) ((dir ++ name) ++ after) ≡ 47
  byte_before_name =
      let inside : length dir - 1 < length dir = omega (arith, length-slashed stack) in
      byte_at-before (dir ++ name) after (length dir - 1) (omega (arith, length-append dir name))
      ∙ byte_at-before dir name (length dir - 1) inside
      ∙ slashed-last stack

  back_to_dir : back ((dir ++ name) ++ after) 0 (length dir + length name - 1) ≡ length dir - 1
  back_to_dir =
      back-slash ((dir ++ name) ++ after) (length dir - 1) (length name)
        (length dir + length name - 1) (omega (arith, length-slashed stack)) byte_before_name
        (λ i h. byte_in_name i (suc (length dir - 1) + i) h (omega (arith, length-slashed stack)))

  last_byte-name : after ≡ [] → last_byte ((dir ++ name) ++ after) ≡ length dir + length name - 1
  last_byte-name e =
      let none_after : length after ≡ 0 = ap length e in
      let last = length dir + length name - 1 in
      let positive = is_name.some_byte in
      last_byte-free ((dir ++ name) ++ after) last
        (omega (arith, length-append (dir ++ name) after, length-append dir name))
        (byte_in_name (length name - 1) last (omega arith) (omega arith))

  last_byte-slash :
      after ≡ 47 ∷ [] → last_byte ((dir ++ name) ++ after) ≡ length dir + length name - 1
  last_byte-slash e =
      let one_after : length after ≡ 1 = ap length e in
      let last = length dir + length name in
      last_byte-behind ((dir ++ name) ++ after) last
        (omega (arith, length-append (dir ++ name) after, length-append dir name))
        (byte_at-append (dir ++ name) after 0 last (omega (arith, length-append dir name))
          ∙ ap first e)

  -- Two dots behind the innermost name take it away.
  up-dir :
      (limit : ℕ)
      → 0 < limit
      → last_byte ((dir ++ name) ++ after) ≡ length dir + length name - 1
      → up_absolute limit none ((dir ++ name) ++ after) ≡ dir
  unfolding up_absolute
  up-dir limit room e =
      let nonempty : ltb 0 (length ((dir ++ name) ++ after)) ≡ true =
        ground (
          arith,
          length-append (dir ++ name) after,
          length-append dir name,
          length-slashed stack,
        ) in
      rw (nonempty, e, back_to_dir)
        (elim (Bool-cases (leb (length dir - 1) 0)) [
          | inl root ↦
              rw root (put_slash-root limit room ∙ sym (short_slashed stack (ground arith)))
          | inr deep ↦
              let same : length dir ≡ length dir - 1 + 1 = omega (arith, length-slashed stack) in
              rw deep (
                subst (λ n. take n ((dir ++ name) ++ after) ≡ dir) same
                  (take-append dir name after))
        ])

pub slashed-Stands : (stack : List (List ℕ)) → Stands (slashed stack) stack
unfolding Stands
slashed-Stands [] = refl
slashed-Stands (name ∷ stack) = inr refl

-- The stack without its innermost name.
abbrev pub parent : List (List ℕ) → List (List ℕ)
parent [] = []
parent (name ∷ stack) = stack

append-nil : (xs : List ℕ) → xs ++ [] ≡ xs
append-nil [] = refl
append-nil (x ∷ xs) = ap (x ∷◌) (append-nil xs)

-- Two dots in an absolute path without a filesystem take the innermost name away, and stay at the root.
pub up_absolute-parent :
    (limit : ℕ) (stack : List (List ℕ)) (text : List ℕ)
    → 0 < limit
    → IsStack stack
    → Stands text stack
    → up_absolute limit none text ≡ slashed (parent stack)
unfolding Stands IsStack up_absolute back slashed
up_absolute-parent limit [] text room names stands = rw stands (put_slash-root limit room)
up_absolute-parent limit (name ∷ stack) text room (is_name, names) (inl e) =
    rw (e ∙ sym (append-nil (slashed stack ++ name)))
      (up-dir stack name [] is_name limit room (last_byte-name stack name [] is_name refl))
up_absolute-parent limit (name ∷ stack) text room (is_name, names) (inr e) = rw e (
    up-dir stack name (47 ∷ []) is_name limit room
      (last_byte-slash stack name (47 ∷ []) is_name refl))
