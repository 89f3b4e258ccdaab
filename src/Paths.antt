-- ===== src/Paths.antt =====
-- vellum/core/path.c: the iterator over a path, VlPath_Join and the small queries; Normal is
-- VlPath_Normalize. A path is the list of its bytes, and a pointer into it the list of the bytes from there on.
pub mod Elements
pub mod Joined
pub mod Normal
pub mod Fitting
pub mod Stack
pub mod Resolved
pub mod Absolute
pub mod Resolution
mod Tests
use mathlib.Core.Option
use sscc_oslecture.Base.{
  ltb, leb, ◌==◌, if◌then◌else◌, take, drop, update, ℕ, zero, suc, ◌+◌, ◌-◌, min, Bool, true, false,
  ◌||◌, Option, none, some, List, [], ◌∷◌, map,
}
use sscc_oslecture.Libc.Strings.{strchr, strrchr, strnlen, strlen, first, rest}

-- struct path_iterator; `element` is the string in its buffer of 256 bytes.
pub record Iterator : Type 0 where
  pub path : List ℕ
  pub cursor : List ℕ
  pub has_separator : Bool
  pub element : List ℕ

-- `len >= FILENAME_MAX ? FILENAME_MAX - 1 : len`
abbrev pub cut : ℕ → ℕ
cut len = if leb 256 len then 255 else len

-- A place that was found, or else the end.
abbrev pub place_or : Option ℕ → ℕ → ℕ
place_or none end = end
place_or (some place) end = place

-- What VlPath_InitIter stores, by where the colon of the path is.
abbrev pub init_at : List ℕ → Option ℕ → Iterator
init_at path none = record { path = path; cursor = path; has_separator = false; element = [] }
init_at path (some colon) = record {
  path = path;
  cursor = drop (colon + 1) path;
  has_separator = false;
  element = take (cut colon) path;
}

-- VlPath_InitIter
pub init_iter : List ℕ → Iterator
init_iter path = init_at path (strchr path 58)

-- What VlPath_AdvanceIter does from `p`, the byte behind the separator: whether it reached the end, and the
-- iterator after it.
unfoldable pub next_element : Bool → List ℕ → Iterator → Bool × Iterator
next_element separator [] it =
    (true, record it { cursor = []; has_separator = separator; element = [] })
next_element separator (c ∷ p) it =
    let len = place_or (strchr (c ∷ p) 47) (strlen (c ∷ p)) in
    let cursor = drop len (c ∷ p) in
    (
      first cursor == 0,
      record it { cursor = cursor; has_separator = separator; element = take (cut len) (c ∷ p) },
    )

-- VlPath_AdvanceIter
unfoldable pub advance : Iterator → Bool × Iterator
advance it =
    let separator = first it.cursor == 47 in
    next_element separator (if separator then rest it.cursor else it.cursor) it

-- The elements that the loop `do { end = VlPath_AdvanceIter(&it); ... } while (!end);` goes through, on fuel.
unfoldable pub elements_of : ℕ → Iterator → Option (List (List ℕ))
elements_of zero it = none
elements_of (suc fuel) it =
    let (end, after) = advance it in
    let later = elements_of fuel after in
    if end then some (after.element ∷ []) else Option.map (after.element ∷◌) later

-- The loop of VlPath_Join, with `left` bytes between the end of the string and the end of the buffer.
unfoldable pub join_loop : (ℕ → ℕ) → ℕ → ℕ → List ℕ → ℕ → ℕ
join_loop m cur zero src = m
join_loop m cur (suc left) [] = update m cur 0
join_loop m cur (suc left) (c ∷ src) = join_loop (update m cur c) (suc cur) left src

-- VlPath_Join, where the string `text` stands at `dest`.
unfoldable pub join : (ℕ → ℕ) → ℕ → List ℕ → ℕ → List ℕ → ℕ → ℕ
join m dest text len src =
    let slen = strnlen text len in
    if ltb slen len
    then join_loop (update m (dest + slen) 47) (dest + slen + 1) (len - slen - 1) src
    else m

-- VlPath_IsAbsolute
pub is_absolute : List ℕ → Bool
is_absolute path = first path == 47 || elim (strchr path 58) [
  | none ↦ false
  | some colon ↦ first (drop (colon + 1) path) == 47 || first (drop (colon + 1) path) == 0
]

-- The loops of VlPath_GetFsname and VlPath_GetDirname: at most `len` bytes, and no 0 behind them.
unfoldable copy_prefix : (ℕ → ℕ) → ℕ → List ℕ → ℕ → ℕ → ℕ
copy_prefix m buf path zero = m
copy_prefix m buf [] (suc count) = m
copy_prefix m buf (c ∷ path) (suc count) = copy_prefix (update m buf c) (suc buf) path count

get_fsname : (ℕ → ℕ) → ℕ → ℕ → List ℕ → ℕ → ℕ
get_fsname m buf len path = elim (strchr path 58) [
  | none ↦ update m buf 0
  | some colon ↦ copy_prefix m buf path (min len colon)
]

get_dirname : (ℕ → ℕ) → ℕ → ℕ → List ℕ → ℕ → ℕ
get_dirname m buf len path =
    let end = place_or (strrchr path 47) (strlen path) in copy_prefix m buf path (min len end)
