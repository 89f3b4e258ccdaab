-- ===== src/Libc/Ctype.antt =====
-- The character classes of vellum/stdc/ctype/ctype.c. The table has 128 entries; what C reads behind it
-- is undefined and is a character of no class here.
pub mod Classes
mod Tests
use sscc_oslecture.Base.{
  ◌==◌, if◌then◌else◌, get_or, ℕ, ◌+◌, ◌-◌, bit_and, Bool, not, List, [], ◌∷◌,
}

abbrev ctype_table : List ℕ
ctype_table =
    1 ∷ 1 ∷ 1 ∷ 1 ∷ 1 ∷ 1 ∷ 1 ∷ 1 ∷ 1 ∷ 13 ∷ 5 ∷ 5 ∷ 5 ∷ 5 ∷ 1 ∷ 1 ∷ 1 ∷ 1 ∷ 1 ∷ 1 ∷ 1 ∷ 1 ∷ 1 ∷ 1
    ∷ 1 ∷ 1 ∷ 1 ∷ 1 ∷ 1 ∷ 1 ∷ 1 ∷ 1 ∷ 14 ∷ 50 ∷ 50 ∷ 50 ∷ 50 ∷ 50 ∷ 50 ∷ 50 ∷ 50 ∷ 50 ∷ 50 ∷ 50 ∷ 50
    ∷ 50 ∷ 50 ∷ 50 ∷ 3154 ∷ 3154 ∷ 3154 ∷ 3154 ∷ 3154 ∷ 3154 ∷ 3154 ∷ 3154 ∷ 3154 ∷ 3154 ∷ 50 ∷ 50
    ∷ 50 ∷ 50 ∷ 50 ∷ 50 ∷ 50 ∷ 2514 ∷ 2514 ∷ 2514 ∷ 2514 ∷ 2514 ∷ 2514 ∷ 466 ∷ 466 ∷ 466 ∷ 466 ∷ 466
    ∷ 466 ∷ 466 ∷ 466 ∷ 466 ∷ 466 ∷ 466 ∷ 466 ∷ 466 ∷ 466 ∷ 466 ∷ 466 ∷ 466 ∷ 466 ∷ 466 ∷ 466 ∷ 50
    ∷ 50 ∷ 50 ∷ 50 ∷ 50 ∷ 50 ∷ 2770 ∷ 2770 ∷ 2770 ∷ 2770 ∷ 2770 ∷ 2770 ∷ 722 ∷ 722 ∷ 722 ∷ 722 ∷ 722
    ∷ 722 ∷ 722 ∷ 722 ∷ 722 ∷ 722 ∷ 722 ∷ 722 ∷ 722 ∷ 722 ∷ 722 ∷ 722 ∷ 722 ∷ 722 ∷ 722 ∷ 722 ∷ 50
    ∷ 50 ∷ 50 ∷ 50 ∷ 1 ∷ []

unfoldable pub flags : ℕ → ℕ
flags c = get_or ctype_table c 0

unfoldable pub has : ℕ → ℕ → Bool
has c mask = not (bit_and (flags c) mask == 0)

unfoldable pub isalnum : ℕ → Bool
isalnum c = has c 64

unfoldable pub isalpha : ℕ → Bool
isalpha c = has c 128

unfoldable pub iscntrl : ℕ → Bool
iscntrl c = has c 1

unfoldable pub isdigit : ℕ → Bool
isdigit c = has c 1024

unfoldable pub isgraph : ℕ → Bool
isgraph c = has c 16

unfoldable pub islower : ℕ → Bool
islower c = has c 512

unfoldable pub isprint : ℕ → Bool
isprint c = has c 2

unfoldable pub ispunct : ℕ → Bool
ispunct c = has c 32

unfoldable pub isspace : ℕ → Bool
isspace c = has c 4

unfoldable pub isupper : ℕ → Bool
isupper c = has c 256

unfoldable pub isxdigit : ℕ → Bool
isxdigit c = has c 2048

unfoldable pub isblank : ℕ → Bool
isblank c = has c 8

unfoldable pub toupper : ℕ → ℕ
toupper c = if has c 512 then c - 97 + 65 else c

unfoldable pub tolower : ℕ → ℕ
tolower c = if has c 256 then c - 65 + 97 else c
