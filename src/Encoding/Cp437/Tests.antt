-- ===== src/Encoding/Cp437/Tests.antt =====
-- The theorems on the conversion at U+00E9, at U+0300 and at the byte of U+00E9.
use sscc_oslecture.Base.{◌≡◌, refl, inl, arith}
use sscc_oslecture.Status.{ok}
use sscc_oslecture.Encoding.Cp437.{utf32_to_cp437, nonzero, lookup}
use sscc_oslecture.Encoding.Cp437.Inverse.{
  character, IsByteOf, utf32_to_cp437-character, character-utf32_to_cp437,
}

utf32_to_cp437-character_example : utf32_to_cp437 (λ i. i) (character 130) ≡ ok 130
utf32_to_cp437-character_example =
    utf32_to_cp437-character (λ i. i) 130 (omega arith) (ground arith)

e_acute : utf32_to_cp437 (λ i. i) 233 ≡ ok 130
unfolding utf32_to_cp437 lookup nonzero
e_acute = refl

character-utf32_to_cp437_example : IsByteOf 233 130
character-utf32_to_cp437_example =
    character-utf32_to_cp437 (λ i. i) 233 130 (inl (omega arith)) e_acute
