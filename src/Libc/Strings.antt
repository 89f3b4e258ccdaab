-- ===== src/Libc/Strings.antt =====
-- The functions of vellum/stdc/string that only read strings. A string is the list of its bytes before
-- the terminating 0; a pointer into it is the number of bytes before it, and NULL is `none`.
pub mod Compare
pub mod CaseCompare
pub mod Search
mod Tests
use mathlib.Core.Option
use sscc_oslecture.Base.{
  leb, ◌==◌, if◌then◌else◌, ℕ, suc, ◌-◌, not, ◌||◌, Option, none, some, List, [], ◌∷◌, map,
}
use sscc_oslecture.Libc.Ctype.{toupper}
use sscc_oslecture.Base.Int.{ℤ, sub_ℕ}

unfoldable pub strchr : List ℕ → ℕ → Option ℕ
strchr [] ch = none
strchr (c ∷ str) ch = if c == ch then some 0 else Option.map suc (strchr str ch)

-- `found` is the last place of `ch` before the position `at`.
unfoldable last_of : List ℕ → ℕ → ℕ → Option ℕ → Option ℕ
last_of [] ch at found = found
last_of (c ∷ str) ch at found = last_of str ch (suc at) (if c == ch then some at else found)

pub strrchr : List ℕ → ℕ → Option ℕ
strrchr str ch = last_of str ch 0 none

-- `s` bytes have been counted.
unfoldable count_from : List ℕ → ℕ → ℕ → ℕ
count_from [] maxlen s = s
count_from (c ∷ str) maxlen s = if leb s maxlen then count_from str maxlen (suc s) else s

pub strnlen : List ℕ → ℕ → ℕ
strnlen str maxlen = count_from str maxlen 0

unfoldable pub strlen : List ℕ → ℕ
strlen [] = 0
strlen (c ∷ str) = suc (strlen str)

-- `--maxlen` of a 32-bit size_t
abbrev pub before : ℕ → ℕ
before maxlen = if maxlen == 0 then 4294967295 else maxlen - 1

-- The byte a pointer stands at, which is 0 at the end.
abbrev pub first : List ℕ → ℕ
first [] = 0
first (c ∷ str) = c

abbrev pub rest : List ℕ → List ℕ
rest [] = []
rest (c ∷ str) = str

unfoldable pub strncmp : List ℕ → List ℕ → ℕ → ℤ
strncmp [] p2 maxlen = sub_ℕ 0 (first p2)
strncmp (c ∷ p1) p2 maxlen =
    let next = strncmp p1 (rest p2) (before maxlen) in
    if before maxlen == 0 || not (c == first p2) then sub_ℕ c (first p2) else next

unfoldable pub strcmp : List ℕ → List ℕ → ℤ
strcmp p1 p2 = strncmp p1 p2 4294967295

-- vellum/stdc/strings/strncasecmp.c
unfoldable pub strncasecmp : List ℕ → List ℕ → ℕ → ℤ
strncasecmp [] p2 maxlen = sub_ℕ 0 (first p2)
strncasecmp (c ∷ p1) p2 maxlen =
    let next = strncasecmp p1 (rest p2) (before maxlen) in
    if before maxlen == 0 || not (toupper c == toupper (first p2)) then sub_ℕ c (first p2) else next

unfoldable pub strcspn : List ℕ → List ℕ → ℕ
strcspn [] p2 = 0
strcspn (c ∷ p1) p2 =
    let next = strcspn p1 p2 in elim (strchr p2 c) [ some i ↦ 0 | none ↦ suc next ]
