-- ===== src/Libc/Strings/Tests.antt =====
-- The theorem on strncasecmp at two texts of one length.
use sscc_oslecture.Base.{ℕ, ◌≡◌, ◌↔◌, List, [], ◌∷◌, map, arith}
use sscc_oslecture.Base.Int.{pos}
use sscc_oslecture.Libc.Strings.{strncasecmp}
use sscc_oslecture.Libc.Ctype.{toupper}
use sscc_oslecture.Libc.Strings.CaseCompare.{strncasecmp-map}
use sscc_oslecture.Libc.Strings.Compare.{IsString}

abbrev ab : List ℕ
ab = 97 ∷ 98 ∷ []

ab-IsString : IsString ab
ab-IsString = ground arith

strncasecmp-map_example :
    (strncasecmp ab (65 ∷ 66 ∷ []) 256 ≡ pos 0) ↔ (map toupper ab ≡ map toupper (65 ∷ 66 ∷ []))
strncasecmp-map_example =
    strncasecmp-map ab (65 ∷ 66 ∷ []) 256 ab-IsString (ground arith) (omega arith)
