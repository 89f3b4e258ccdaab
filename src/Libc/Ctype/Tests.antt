-- ===== src/Libc/Ctype/Tests.antt =====
-- The theorems on the character classes at the letter `k`.
use sscc_oslecture.Base.{arith}
use sscc_oslecture.Libc.Ctype.Classes.{IsClassified, ctype_lem}

ctype_lem_example : IsClassified 107
ctype_lem_example = ctype_lem 107 (omega arith)
