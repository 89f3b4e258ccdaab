-- ===== src/Paths/Resolved.antt =====
-- VlPath_Normalize of vellum/core/path.c on an absolute path against the resolution of its elements on a
-- stack of names.
use sscc_oslecture.Base.{
  ltb, ◌==◌, if◌then◌else◌, length, length-append, ℕ, ◌+◌, ◌-◌, ◌≤◌, ◌<◌, ◌≡◌, refl, ap, ◌∙◌, inl,
  inr, Bool, true, false, not, ◌&&◌, none, List, [], ◌∷◌, ◌++◌, arith,
}
use sscc_oslecture.Libc.Strings.{strcmp}
use sscc_oslecture.Filesystem.{is_zero}
use sscc_oslecture.Paths.Normal.{put_slash, up_absolute, put_element, put}
use sscc_oslecture.Paths.Stack.{
  slashed, byte_at, IsName, IsStack, Stands, byte_at-append, slashed-last, length-slashed,
  slashed-Stands, parent, up_absolute-parent,
}

put_slash-Stands :
    (limit : ℕ) (text : List ℕ) → length text < limit → put_slash limit text ≡ text ++ (47 ∷ [])
unfolding put_slash
put_slash-Stands limit text h =
    let room : ltb (length text) limit ≡ true = ground arith in rw room refl

-- The text before a name is written behind it.
abbrev spaced : ℕ → List ℕ → List ℕ
spaced limit text =
    if ltb 0 (length text) && not (byte_at (length text - 1) text == 47)
    then put_slash limit text
    else text

spaced-slashed : (limit : ℕ) (stack : List (List ℕ)) → spaced limit (slashed stack) ≡ slashed stack
spaced-slashed limit stack =
    let positive : ltb 0 (length (slashed stack)) ≡ true = ground (arith, length-slashed stack) in
    rw (positive, slashed-last stack) refl

spaced-Stands :
    (limit : ℕ) (stack : List (List ℕ)) (text : List ℕ)
    → length text < limit
    → IsStack stack
    → Stands text stack
    → spaced limit text ≡ slashed stack
unfolding Stands IsStack
spaced-Stands limit [] text room names stands = rw stands (spaced-slashed limit [])
spaced-Stands limit (name ∷ stack) text room (is_name, names) (inr e) =
    rw e (spaced-slashed limit (name ∷ stack))
spaced-Stands limit (name ∷ stack) text room (is_name, names) (inl e) =
    let last = length text - 1 in
    let length_text : length text ≡ length (slashed stack) + length name =
      ap length e ∙ length-append (slashed stack) name in
    let positive : ltb 0 (length text) ≡ true = ground (arith, length-slashed stack) in
    let some_byte = is_name.some_byte in
    let name_last : byte_at last text ≡ byte_at (length name - 1) name =
      ap (byte_at last) e
      ∙ byte_at-append (slashed stack) name (length name - 1) last (omega arith) in
    let no_slash : (byte_at last text == 47) ≡ false =
      ap (λ b. b == 47) name_last ∙ is_name.no_slash (length name - 1) (omega arith) in
    rw (positive, no_slash)
      (put_slash-Stands limit text room ∙ unfold slashed in ap (λ x. x ++ (47 ∷ [])) e)

length-Stands :
    (stack : List (List ℕ)) (text : List ℕ)
    → Stands text stack
    → length (slashed stack) ≤ length text + 1
unfolding Stands slashed
length-Stands [] text e = let same = ap length e in omega arith
length-Stands (name ∷ stack) text (inl e) =
    let same = ap length e in omega (arith, same, length-append (slashed stack ++ name) (47 ∷ []))
length-Stands (name ∷ stack) text (inr e) = let same = ap length e in omega (arith, same)

length-parent :
    (stack : List (List ℕ)) (text : List ℕ)
    → Stands text stack
    → length (slashed (parent stack)) ≤ length text
unfolding Stands slashed
length-parent [] text e = let same = ap length e in omega (arith, same)
length-parent (name ∷ stack) text (inl e) =
    let same = ap length e in omega (arith, same, length-append (slashed stack) name)
length-parent (name ∷ stack) text (inr e) =
    let same = ap length e in
    omega (
      arith,
      same,
      length-append (slashed stack ++ name) (47 ∷ []),
      length-append (slashed stack) name,
    )

-- A name behind the path of the stack.
put_element-name :
    (limit : ℕ) (stack : List (List ℕ)) (text name : List ℕ)
    → length text + length name + 1 < limit
    → IsStack stack
    → Stands text stack
    → put_element limit name text ≡ slashed stack ++ name
unfolding put_element
put_element-name limit stack text name room names stands =
    let is_spaced = spaced-Stands limit stack text (omega arith) names stands in
    let fits : ltb (length (slashed stack) + length name) limit ≡ true =
      ground (arith, length-Stands stack text stands) in
    rw (is_spaced, fits) refl

-- What an element does to the stack.
unfoldable pub resolve : List (List ℕ) → List ℕ → List (List ℕ)
resolve stack [] = stack
resolve stack (c ∷ element) =
    if is_zero (strcmp (c ∷ element) (46 ∷ []))
    then stack
    else if is_zero (strcmp (c ∷ element) (46 ∷ 46 ∷ []))
    then parent stack
    else (c ∷ element) ∷ stack

-- An element: empty, or a name.
unfoldable pub IsElement : List ℕ → Type 0
IsElement element = (i : ℕ) → i < length element → (byte_at i element == 47) ≡ false

IsStack-if : (b : Bool) (x y : List (List ℕ)) → IsStack x → IsStack y → IsStack (if b then x else y)
IsStack-if true x y p q = p
IsStack-if false x y p q = q

IsStack-parent : (stack : List (List ℕ)) → IsStack stack → IsStack (parent stack)
unfolding IsStack
IsStack-parent [] h = h
IsStack-parent (name ∷ stack) h = h.1

pub IsStack-resolve :
    (stack : List (List ℕ)) (element : List ℕ)
    → IsStack stack
    → IsElement element
    → IsStack (resolve stack element)
unfolding resolve
IsStack-resolve stack [] h e = h
IsStack-resolve stack (c ∷ element) h e =
    let dot = is_zero (strcmp (c ∷ element) (46 ∷ [])) in
    let dots = is_zero (strcmp (c ∷ element) (46 ∷ 46 ∷ [])) in
    let is_name : IsName (c ∷ element) =
      unfold IsElement in record { some_byte = omega arith; no_slash = e } in
    IsStack-if dot stack _ h (
      IsStack-if dots (parent stack) ((c ∷ element) ∷ stack) (IsStack-parent stack h)
        (unfold IsStack in (is_name, h)))

-- A text that stands for the stack, and is no longer than `size`.
pub record At (stack : List (List ℕ)) (size : ℕ) (text : List ℕ) : Type 0 where
  pub stands : Stands text stack
  pub small : length text ≤ size

At-if :
    (b : Bool) (x y : List (List ℕ)) (size : ℕ) (t u : List ℕ)
    → At x size t
    → At y size u
    → At (if b then x else y) size (if b then t else u)
At-if true x y size t u p q = p
At-if false x y size t u p q = q

-- An element in an absolute path does to the text what it does to the stack.
pub put-At :
    (limit : ℕ) (stack : List (List ℕ)) (text element : List ℕ)
    → length text + length element + 1 < limit
    → IsStack stack
    → Stands text stack
    → At
        (resolve stack element)
        (length text + length element + 1)
        (put limit true none text element)
unfolding put resolve
put-At limit stack text [] room names stands = record { stands = stands; small = omega arith }
put-At limit stack text (c ∷ element) room names stands =
    let name : List ℕ = c ∷ element in
    let size = length text + length name + 1 in
    let dot = is_zero (strcmp name (46 ∷ [])) in
    let dots = is_zero (strcmp name (46 ∷ 46 ∷ [])) in
    let up = up_absolute-parent limit stack text (omega arith) names stands in
    let put = put_element-name limit stack text name room names stands in
    let above : At (parent stack) size (up_absolute limit none text) = rw up record {
      stands = slashed-Stands (parent stack);
      small = omega (arith, length-parent stack text stands);
    } in
    let below : At (name ∷ stack) size (put_element limit name text) = rw put record {
      stands = unfold Stands in inl refl;
      small = omega (arith, length-append (slashed stack) name, length-Stands stack text stands);
    } in
    At-if dot stack (if dots then parent stack else name ∷ stack) size text _
      record { stands = stands; small = omega arith }
      (At-if dots (parent stack) (name ∷ stack) size _ _ above below)

-- What the elements do to the stack, one after the other.
unfoldable pub resolve_all : List (List ℕ) → List (List ℕ) → List (List ℕ)
resolve_all stack [] = stack
resolve_all stack (element ∷ elements) = resolve_all (resolve stack element) elements

-- The bytes of the elements and of a slash before each.
unfoldable pub cost : List (List ℕ) → ℕ
cost [] = 0
cost (element ∷ elements) = length element + 1 + cost elements

unfoldable pub AreElements : List (List ℕ) → Type 0
AreElements [] = Unit
AreElements (element ∷ elements) = IsElement element × AreElements elements
