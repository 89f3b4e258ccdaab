-- ===== src/Paths/Tests.antt =====
-- The theorems on paths at /ab/c and at /ab/../c.
use sscc_oslecture.Base.{
  length, ℕ, ◌<◌, ◌≡◌, refl, true, false, none, some, List, [], ◌∷◌, map, arith,
}
use sscc_oslecture.Libc.Strings.{strchr, strlen, strncmp, strcmp}
use sscc_oslecture.Libc.Strings.Compare.{IsString}
use sscc_oslecture.Paths.Normal.{
  put_slash, back, up_absolute, up_relative, put_element, put, normalize,
}
use sscc_oslecture.Paths.Fitting.{normalize-Fits}
use sscc_oslecture.Paths.Resolution.{normalize-resolve}
use sscc_oslecture.Paths.Resolved.{resolve, resolve_all}
use sscc_oslecture.Paths.Elements.{split, shortened}
use sscc_oslecture.Paths.Absolute.{shown}
use sscc_oslecture.Paths.{Iterator, next_element, advance, elements_of}

abbrev tail : List ℕ
tail = 97 ∷ 98 ∷ 47 ∷ 99 ∷ []

abbrev it : Iterator
it = record { path = 47 ∷ tail; cursor = 47 ∷ tail; has_separator = false; element = [] }

pieces : elements_of 5 it ≡ some ((97 ∷ 98 ∷ []) ∷ (99 ∷ []) ∷ [])
unfolding elements_of advance next_element strchr strlen
pieces = refl

tail-IsString : IsString tail
tail-IsString = ground arith

-- Two dots behind /ab.
goes_up : put 15 true none (47 ∷ 97 ∷ 98 ∷ []) (46 ∷ 46 ∷ []) ≡ 47 ∷ []
unfolding put up_absolute put_slash back strcmp strncmp
goes_up = refl

-- Two dots at the start of a relative path stay when an element follows.
stays_above : put 15 false none (46 ∷ 46 ∷ []) (99 ∷ []) ≡ 46 ∷ 46 ∷ 47 ∷ 99 ∷ []
unfolding put put_element put_slash strcmp strncmp
stays_above = refl

-- In a relative path with a filesystem, behind x:.. a second pair of dots takes the first away.
takes_dots_away : put 15 false (some 1) (120 ∷ 58 ∷ 46 ∷ 46 ∷ []) (46 ∷ 46 ∷ []) ≡ 120 ∷ 58 ∷ []
unfolding put up_relative back strcmp strncmp
takes_dots_away = refl

normalize-Fits_example :
    (text : List ℕ) × (normalize 9 4 (47 ∷ tail) ≡ some (some text)) × (length text < 4)
normalize-Fits_example = normalize-Fits 9 3 (47 ∷ tail) (ground arith) (omega arith)

-- ab/../c
abbrev turn : List ℕ
turn = 97 ∷ 98 ∷ 47 ∷ 46 ∷ 46 ∷ 47 ∷ 99 ∷ []

no_colon : strchr (47 ∷ turn) 58 ≡ none
unfolding strchr
no_colon = refl

-- What is left of /ab/../c is c.
left_over : resolve_all [] (map shortened (split turn)) ≡ (99 ∷ []) ∷ []
unfolding resolve_all resolve split strcmp strncmp
left_over = refl

normalize-resolve_example :
    normalize 8 16 (47 ∷ turn) ≡ some (some (shown (resolve_all [] (map shortened (split turn)))))
normalize-resolve_example =
    normalize-resolve 8 15 turn (ground arith) no_colon (omega arith) (omega arith)
