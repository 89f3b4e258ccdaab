-- ===== src/Encoding/Cp437/Inverse.antt =====
-- The conversion against code page 437 itself, written as the character of every byte.
use sscc_oslecture.Base.Bits.{passes, passes_at}
use sscc_oslecture.Base.{
  ltb, leb, ◌==◌, ltb→lt, lt→ltb, le→leb, ltb-false, ==_false, Bool-cases, get_or, ℕ, ◌-◌, ◌/◌, ◌≤◌,
  ◌<◌, ◌≡◌, refl, sym, ap, subst, ◌∙◌, ◌≢◌, ◌⊎◌, inl, inr, Bool, true, false, ◌&&◌, ◌||◌, List, [],
  ◌∷◌, arith,
}
use sscc_oslecture.Status.{Status, Result, ok, err}
use sscc_oslecture.Encoding.Cp437.{utf32_to_cp437, select, nonzero, lookup, page_03, paged}

-- The character that each byte displays, as the published table of the code page has it.
abbrev characters : List ℕ
characters =
    0 ∷ 9786 ∷ 9787 ∷ 9829 ∷ 9830 ∷ 9827 ∷ 9824 ∷ 8226 ∷ 9688 ∷ 9675 ∷ 9689 ∷ 9794 ∷ 9792 ∷ 9834
    ∷ 9835 ∷ 9788 ∷ 9658 ∷ 9668 ∷ 8597 ∷ 8252 ∷ 182 ∷ 167 ∷ 9644 ∷ 8616 ∷ 8593 ∷ 8595 ∷ 8594 ∷ 8592
    ∷ 8735 ∷ 8596 ∷ 9650 ∷ 9660 ∷ 32 ∷ 33 ∷ 34 ∷ 35 ∷ 36 ∷ 37 ∷ 38 ∷ 39 ∷ 40 ∷ 41 ∷ 42 ∷ 43 ∷ 44
    ∷ 45 ∷ 46 ∷ 47 ∷ 48 ∷ 49 ∷ 50 ∷ 51 ∷ 52 ∷ 53 ∷ 54 ∷ 55 ∷ 56 ∷ 57 ∷ 58 ∷ 59 ∷ 60 ∷ 61 ∷ 62 ∷ 63
    ∷ 64 ∷ 65 ∷ 66 ∷ 67 ∷ 68 ∷ 69 ∷ 70 ∷ 71 ∷ 72 ∷ 73 ∷ 74 ∷ 75 ∷ 76 ∷ 77 ∷ 78 ∷ 79 ∷ 80 ∷ 81 ∷ 82
    ∷ 83 ∷ 84 ∷ 85 ∷ 86 ∷ 87 ∷ 88 ∷ 89 ∷ 90 ∷ 91 ∷ 92 ∷ 93 ∷ 94 ∷ 95 ∷ 96 ∷ 97 ∷ 98 ∷ 99 ∷ 100 ∷ 101
    ∷ 102 ∷ 103 ∷ 104 ∷ 105 ∷ 106 ∷ 107 ∷ 108 ∷ 109 ∷ 110 ∷ 111 ∷ 112 ∷ 113 ∷ 114 ∷ 115 ∷ 116 ∷ 117
    ∷ 118 ∷ 119 ∷ 120 ∷ 121 ∷ 122 ∷ 123 ∷ 124 ∷ 125 ∷ 126 ∷ 8962 ∷ 199 ∷ 252 ∷ 233 ∷ 226 ∷ 228 ∷ 224
    ∷ 229 ∷ 231 ∷ 234 ∷ 235 ∷ 232 ∷ 239 ∷ 238 ∷ 236 ∷ 196 ∷ 197 ∷ 201 ∷ 230 ∷ 198 ∷ 244 ∷ 246 ∷ 242
    ∷ 251 ∷ 249 ∷ 255 ∷ 214 ∷ 220 ∷ 162 ∷ 163 ∷ 165 ∷ 8359 ∷ 402 ∷ 225 ∷ 237 ∷ 243 ∷ 250 ∷ 241 ∷ 209
    ∷ 170 ∷ 186 ∷ 191 ∷ 8976 ∷ 172 ∷ 189 ∷ 188 ∷ 161 ∷ 171 ∷ 187 ∷ 9617 ∷ 9618 ∷ 9619 ∷ 9474 ∷ 9508
    ∷ 9569 ∷ 9570 ∷ 9558 ∷ 9557 ∷ 9571 ∷ 9553 ∷ 9559 ∷ 9565 ∷ 9564 ∷ 9563 ∷ 9488 ∷ 9492 ∷ 9524
    ∷ 9516 ∷ 9500 ∷ 9472 ∷ 9532 ∷ 9566 ∷ 9567 ∷ 9562 ∷ 9556 ∷ 9577 ∷ 9574 ∷ 9568 ∷ 9552 ∷ 9580
    ∷ 9575 ∷ 9576 ∷ 9572 ∷ 9573 ∷ 9561 ∷ 9560 ∷ 9554 ∷ 9555 ∷ 9579 ∷ 9578 ∷ 9496 ∷ 9484 ∷ 9608
    ∷ 9604 ∷ 9612 ∷ 9616 ∷ 9600 ∷ 945 ∷ 223 ∷ 915 ∷ 960 ∷ 931 ∷ 963 ∷ 181 ∷ 964 ∷ 934 ∷ 920 ∷ 937
    ∷ 948 ∷ 8734 ∷ 966 ∷ 949 ∷ 8745 ∷ 8801 ∷ 177 ∷ 8805 ∷ 8804 ∷ 8992 ∷ 8993 ∷ 247 ∷ 8776 ∷ 176
    ∷ 8729 ∷ 183 ∷ 8730 ∷ 8319 ∷ 178 ∷ 9632 ∷ 160 ∷ []

unfoldable pub character : ℕ → ℕ
character byte = get_or characters byte 0

abbrev is_ok : Result ℕ → ℕ → Bool
is_ok (ok b) byte = b == byte
is_ok (err e) byte = false

is_ok→≡ : (r : Result ℕ) (byte : ℕ) → is_ok r byte ≡ true → r ≡ ok byte
is_ok→≡ (ok b) byte h = ap ok (ground arith)
is_ok→≡ (err e) byte h = ground arith

ltb-false→le : (a b : ℕ) → ltb a b ≡ false → b ≤ a
ltb-false→le a b h = ground arith

abbrev pub IsByteOf : ℕ → ℕ → Type 0
IsByteOf utf32 byte = (byte < 256) × ((character byte ≡ utf32) ⊎ ((byte ≡ 23) × (utf32 ≡ 8600)))

or_right : (a b : Bool) → a ≡ false → (a || b) ≡ true → b ≡ true
or_right true b e h = ground arith
or_right false b e h = h

-- A result for `utf32` is right when it is no byte, or the byte of that character, or the one slip.
unfoldable pub matches : ℕ → Result ℕ → Bool
matches utf32 (ok b) = ltb b 256 && (character b == utf32 || (b == 23 && utf32 == 8600))
matches utf32 (err e) = true

module _ (stray : ℕ → ℕ) where
  abbrev back : ℕ → Bool
  back byte = byte == 23 || is_ok (utf32_to_cp437 stray (character byte)) byte

  abbrev forth : ℕ → Bool
  forth utf32 = (leb 768 utf32 && ltb utf32 912) || matches utf32 (utf32_to_cp437 stray utf32)

  -- The character of a byte is converted to that byte, for every byte but 17h.
  pub utf32_to_cp437-character :
      (byte : ℕ) → byte < 256 → byte ≢ 23 → utf32_to_cp437 stray (character byte) ≡ ok byte
  unfolding character utf32_to_cp437 paged page_03 lookup select nonzero passes
  utf32_to_cp437-character byte below other = is_ok→≡ (utf32_to_cp437 stray (character byte)) byte (
      or_right (byte == 23) (is_ok (utf32_to_cp437 stray (character byte)) byte)
        (==_false byte 23 other) (passes_at back refl byte below))

  small : (utf32 : ℕ) → utf32 < 9840 → forth utf32 ≡ true
  unfolding character utf32_to_cp437 paged page_03 lookup select nonzero passes matches
  small utf32 below = passes_at forth refl utf32 below

  large : (utf32 : ℕ) → 9840 ≤ utf32 → utf32_to_cp437 stray utf32 ≡ err Status.invalid_value
  unfolding utf32_to_cp437 lookup
  large utf32 h =
      rw
        (
          ==_false utf32 0 (ground arith),
          ltb-false utf32 32 (omega arith),
          ltb-false utf32 127 (omega arith),
          ltb-false utf32 160 (omega arith),
          ltb-false utf32 402 (omega arith),
          ltb-false utf32 9472 (omega arith),
          ltb-false utf32 9776 (omega arith),
          le→leb 9840 utf32 h,
        )
        refl

  matches_at : (utf32 byte : ℕ) → matches utf32 (ok byte) ≡ true → IsByteOf utf32 byte
  unfolding matches
  matches_at utf32 byte h = ground arith

  no_byte : {e : Status} {byte : ℕ} {A : Type 0} → err e ≡ ok byte → A
  no_byte e = cc

  -- What a successful conversion yields is a byte, whose character is the one converted, unless that is
  -- U+2198, which yields 17h. The characters from U+0300 to U+038F, for which the function reads before
  -- its table, are left out.
  pub character-utf32_to_cp437 :
      (utf32 byte : ℕ)
      → (utf32 < 768) ⊎ (912 ≤ utf32)
      → utf32_to_cp437 stray utf32 ≡ ok byte
      → IsByteOf utf32 byte
  character-utf32_to_cp437 utf32 byte away e = elim (Bool-cases (ltb utf32 9840)) [
    | inl lo ↦ matches_at utf32 byte (
        subst (λ r. matches utf32 r ≡ true) e
          (or_right (leb 768 utf32 && ltb utf32 912) (matches utf32 (utf32_to_cp437 stray utf32))
            (ground arith) (small utf32 (ltb→lt utf32 9840 lo))))
    | inr hi ↦ no_byte (sym (large utf32 (ltb-false→le utf32 9840 hi)) ∙ e)
  ]

  -- A character from U+0300 to U+038F is converted to whatever byte lies before the second table.
  pub utf32_to_cp437_stray :
      (utf32 : ℕ)
      → 768 ≤ utf32
      → utf32 < 912
      → stray (912 - utf32) ≢ 0
      → utf32_to_cp437 stray utf32 ≡ ok (stray (912 - utf32))
  unfolding utf32_to_cp437 paged page_03 nonzero
  utf32_to_cp437_stray utf32 lo hi some_byte =
      let page : utf32 / 256 ≡ 3 = omega arith in
      rw
        (
          ==_false utf32 0 (ground arith),
          ltb-false utf32 32 (omega arith),
          ltb-false utf32 127 (omega arith),
          ltb-false utf32 160 (omega arith),
          ltb-false utf32 402 (omega arith),
          lt→ltb utf32 9472 (omega arith),
          page,
          lt→ltb utf32 912 hi,
          ==_false (stray (912 - utf32)) 0 some_byte,
        )
        refl
