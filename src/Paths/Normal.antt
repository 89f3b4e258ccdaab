-- ===== src/Paths/Normal.antt =====
-- vellum/core/path.c: VlPath_Normalize. The text is what stands between `dest` and `write_pos`, so that
-- `write_pos` is its length; what stands behind is overwritten before it is read. `limit` is the distance
-- of `dest_end`, which is `len - 1`.
use mathlib.Core.Option
use sscc_oslecture.Base.{
  ltb, leb, ◌==◌, if◌then◌else◌, length, take, drop, ℕ, zero, suc, ◌+◌, ◌-◌, Bool, true, false, not,
  ◌&&◌, Option, none, some, List, [], ◌∷◌, ◌++◌,
}
use sscc_oslecture.Libc.Strings.{first, strcmp}
use sscc_oslecture.Filesystem.{is_zero}
use sscc_oslecture.Paths.{Iterator, init_iter, advance}

-- `write_pos < dest_end`, and a slash is written.
unfoldable pub put_slash : ℕ → List ℕ → List ℕ
put_slash limit text = if ltb (length text) limit then text ++ (47 ∷ []) else text

-- `write_pos + 2 < dest_end`, and two dots are written.
unfoldable pub put_dots : ℕ → List ℕ → List ℕ
put_dots limit text = if ltb (length text + 2) limit then text ++ (46 ∷ 46 ∷ []) else text

-- `last_sep` goes back to a slash, but not below `floor`.
unfoldable pub back : List ℕ → ℕ → ℕ → ℕ
back text floor zero = zero
back text floor (suc p) =
    let further = back text floor p in
    if ltb floor (suc p) && not (first (drop (suc p) text) == 47) then further else suc p

-- `last_sep` before the loop: the last byte, or the one before when the last is a slash. On the text "/"
-- it is `dest - 1`, for which the 0 of this subtraction serves: both are no more than `dest`.
abbrev pub last_byte : List ℕ → ℕ
last_byte text = let p = length text - 1 in if first (drop p text) == 47 then p - 1 else p

-- The filesystem's name and its colon at the start of the text: none, or where the colon stands.
-- Two dots, when the path is absolute.
unfoldable pub up_absolute : ℕ → Option ℕ → List ℕ → List ℕ
up_absolute limit none text =
    let sep = back text 0 (last_byte text) in
    if ltb 0 (length text)
    then (if leb sep 0 then put_slash limit [] else take (sep + 1) text)
    else text
up_absolute limit (some colon) text =
    let sep = back text 0 (last_byte text) in
    if ltb 0 (length text)
    then (if leb sep (colon + 1)
        then put_slash limit (take (colon + 1) text)
        else if leb sep 0
        then put_slash limit (take (colon + 1) text)
        else take (sep + 1) text)
    else text

-- Two dots, when it is not.
unfoldable pub up_relative : ℕ → Option ℕ → List ℕ → List ℕ
up_relative limit none text =
    put_dots limit (if ltb 0 (length text) then put_slash limit text else text)
up_relative limit (some colon) text =
    let sep = back text (colon + 1) (last_byte text) in
    if ltb (colon + 1) (length text)
    then (if leb sep (colon + 1) then take (colon + 1) text else take (sep + 1) text)
    else put_dots limit text

-- An element that is neither empty nor made of dots.
unfoldable pub put_element : ℕ → List ℕ → List ℕ → List ℕ
put_element limit element text =
    let spaced =
      if ltb 0 (length text) && not (first (drop (length text - 1) text) == 47)
      then put_slash limit text
      else text in
    if ltb (length spaced + length element) limit then spaced ++ element else spaced

-- The body of the loop behind the first round's test.
unfoldable pub put : ℕ → Bool → Option ℕ → List ℕ → List ℕ → List ℕ
put limit absolute colon text [] = text
put limit absolute colon text (c ∷ element) =
    if is_zero (strcmp (c ∷ element) (46 ∷ []))
    then text
    else if is_zero (strcmp (c ∷ element) (46 ∷ 46 ∷ []))
    then (if absolute then up_absolute limit colon text else up_relative limit colon text)
    else put_element limit (c ∷ element) text

-- The loop over the elements, on fuel; `opening` in its first round.
unfoldable pub normalize_loop : ℕ → ℕ → Option ℕ → Bool → Bool → Iterator → List ℕ → Option (List ℕ)
normalize_loop zero limit colon absolute opening it text = none
normalize_loop (suc fuel) limit colon absolute opening it text =
    let (end, after) = advance it in
    let rooted = if opening then after.has_separator else absolute in
    let start = if opening && after.has_separator then put_slash limit text else text in
    let written = put limit rooted colon start after.element in
    let later = normalize_loop fuel limit colon rooted false after written in
    if end then some written else later

-- A slash at the end is dropped, but not the one behind the colon, from a text of two bytes or more.
unfoldable pub drop_slash : Option ℕ → List ℕ → List ℕ
drop_slash colon text =
    if ltb 1 (length text) && first (drop (length text - 1) text) == 47
    then (elim colon [
      | none ↦ take (length text - 1) text
      | some place ↦ if ltb (place + 2) (length text) then take (length text - 1) text else text
    ])
    else text

-- What follows the loop.
unfoldable pub finish : ℕ → Option ℕ → List ℕ → List ℕ
finish limit none [] = drop_slash none (if ltb 0 limit then 46 ∷ [] else [])
finish limit none (c ∷ text) = drop_slash none (c ∷ text)
finish limit (some colon) text = drop_slash (some colon) text

-- VlPath_Normalize from the end of the name of the filesystem on.
unfoldable pub normalize_from : ℕ → ℕ → Iterator → List ℕ → Option (List ℕ)
normalize_from fuel limit it [] =
    Option.map (finish limit none) (normalize_loop fuel limit none false true it [])
normalize_from fuel limit it (c ∷ name) =
    let place = length (c ∷ name) in
    let written = normalize_loop fuel limit (some place) false true it ((c ∷ name) ++ (58 ∷ [])) in
    if leb limit (place + 1) then some [] else Option.map (finish limit (some place)) written

-- VlPath_Normalize: none on too little fuel, and none inside for NULL.
unfoldable pub normalize : ℕ → ℕ → List ℕ → Option (Option (List ℕ))
normalize fuel zero src = some none
normalize fuel (suc limit) src =
    let it = init_iter src in Option.map some (normalize_from fuel limit it it.element)
