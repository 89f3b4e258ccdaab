-- ===== src/Fat/Utf8.antt =====
-- Long names of vellum/filesystem/fat/fat.c read back: lfn_ucs2_to_utf8 against a decoder of UTF-8.
use sscc_oslecture.Base.{
  ltb, ◌==◌, if◌then◌else◌, ltb→lt, lt→ltb, Bool-cases, length, ℕ, zero, suc, ◌+◌, ◌-◌, ◌*◌, ◌/◌,
  ◌%◌, ◌≤◌, ◌<◌, ◌≡◌, refl, ap, ◌∙◌, inl, inr, true, false, List, [], ◌∷◌, ◌++◌, arith,
}
use sscc_oslecture.Fat.Names.{
  Encoded, stop, short, put, ucs2_to_utf8, then_store, convert, lfn_ucs2_to_utf8,
}

-- The continuation bytes and the bits that a leading byte announces.
abbrev pub announced : ℕ → ℕ
announced b = if ltb b 128 then 0 else (if ltb b 224 then 1 else 2)

abbrev pub leading_bits : ℕ → ℕ
leading_bits b = if ltb b 224 then b - 192 else b - 224

-- The characters of a string of UTF-8 up to its 0, with `pending` bytes to come of one whose first bits
-- are `acc`.
unfoldable pub decode : ℕ → ℕ → List ℕ → List ℕ
decode pending acc [] = []
decode zero acc (b ∷ bytes) =
    let later = decode (announced b) (leading_bits b) bytes in
    if b == 0 then [] else if ltb b 128 then b ∷ later else later
decode (suc pending) acc (b ∷ bytes) =
    let char : ℕ = acc * 64 + (b - 128) in
    let later = decode pending char bytes in if pending == 0 then char ∷ later else later

-- A character that does not end a name, and the bytes it takes.
abbrev pub IsChar : ℕ → Type 0
IsChar ch = (0 < ch) × (ch < 65535)

abbrev pub width : ℕ → ℕ
width ch = if ltb ch 127 then 1 else (if ltb ch 2047 then 2 else 3)

abbrev pub IsChars : List ℕ → Type 0
IsChars [] = Unit {0}
IsChars (ch ∷ name) = IsChar ch × IsChars name

abbrev pub widths : List ℕ → ℕ
widths [] = 0
widths (ch ∷ name) = width ch + widths name

-- The buffer holds the name from `at` on, and a 0 behind it.
abbrev pub HoldsName : (ℕ → ℕ) → ℕ → List ℕ → Type 0
HoldsName src at [] = src at ≡ 0
HoldsName src at (ch ∷ name) = (src at ≡ ch) × HoldsName src (suc at) name

decode_fresh : (a b : ℕ) (bytes : List ℕ) → decode 0 a bytes ≡ decode 0 b bytes
unfolding decode
decode_fresh a b [] = refl
decode_fresh a b (c ∷ bytes) = refl

decode_one :
    (a b : ℕ) (later : List ℕ) → 0 < b → b < 128 → decode 0 a (b ∷ later) ≡ b ∷ decode 0 0 later
unfolding decode
decode_one a b later above low =
    let nonzero : (b == 0) ≡ false = ground arith in
    rw (nonzero, lt→ltb b 128 low) (ap (λ r. b ∷ r) (decode_fresh _ 0 later))

decode_two :
    (a b c : ℕ) (later : List ℕ)
    → 192 ≤ b
    → b < 224
    → decode 0 a (b ∷ c ∷ later) ≡ ((b - 192) * 64 + (c - 128)) ∷ decode 0 0 later
unfolding decode
decode_two a b c later above low =
    let nonzero : (b == 0) ≡ false = ground arith in
    let wide : ltb b 128 ≡ false = ground arith in
    rw (nonzero, wide, lt→ltb b 224 low)
      (ap (λ r. ((b - 192) * 64 + (c - 128)) ∷ r) (decode_fresh _ 0 later))

decode_three :
    (a b c d : ℕ) (later : List ℕ)
    → 224 ≤ b
    → decode 0 a (b ∷ c ∷ d ∷ later)
      ≡ (((b - 224) * 64 + (c - 128)) * 64 + (d - 128)) ∷ decode 0 0 later
unfolding decode
decode_three a b c d later above =
    let nonzero : (b == 0) ≡ false = ground arith in
    let wide : ltb b 128 ≡ false = ground arith in
    let three : ltb b 224 ≡ false = ground arith in
    rw (nonzero, wide, three)
      (ap (λ r. (((b - 224) * 64 + (c - 128)) * 64 + (d - 128)) ∷ r) (decode_fresh _ 0 later))

-- An encoded character that is stored, and read back.
abbrev IsPut : ℕ → Encoded → Type 0
IsPut ch stop = ⊥
IsPut ch short = ⊥
IsPut ch (put bytes) =
    (length bytes ≡ width ch)
    × ((a : ℕ) (later : List ℕ) → decode 0 a (bytes ++ later) ≡ ch ∷ decode 0 0 later)

-- A character with room for its bytes is stored whole, by its width.
encode_lem : (len ch : ℕ) → IsChar ch → width ch ≤ len → IsPut ch (ucs2_to_utf8 len ch)
unfolding ucs2_to_utf8
encode_lem len ch (above, below) fits =
    let not_0 : (ch == 0) ≡ false = ground arith in
    let not_ffff : (ch == 65535) ≡ false = ground arith in
    elim (Bool-cases (ltb ch 127)) [
      | inl one ↦
          let low : ch < 127 = ltb→lt ch 127 one in
          let room : ltb len 1 ≡ false = ground arith in
          rw (not_0, not_ffff, one, room)
            (rw (one) refl, λ a later. decode_one a ch later above (omega arith))
      | inr more ↦ elim (Bool-cases (ltb ch 2047)) [
        | inl two ↦
            let low : ch < 2047 = ltb→lt ch 2047 two in
            let room : ltb len 2 ≡ false = ground arith in
            rw (not_0, not_ffff, more, two, room)
              (
                rw (more, two) refl,
                λ a later.
                    decode_two a (ch / 64 % 32 + 192) (ch % 64 + 128) later (omega arith)
                      (omega arith)
                    ∙ ap (λ c. c ∷ decode 0 0 later) (omega arith),
              )
        | inr three ↦
            let room : ltb len 3 ≡ false = ground arith in
            rw (not_0, not_ffff, more, three, room)
              (
                rw (more, three) refl,
                λ a later.
                    decode_three a (ch / 4096 % 16 + 224) (ch / 64 % 64 + 128) (ch % 64 + 128) later
                      (omega arith)
                    ∙ ap (λ c. c ∷ decode 0 0 later) (omega arith),
              )
      ]
    ]

then_store_lem :
    (fallback ch : ℕ) (x : Encoded) (next : ℕ → List ℕ) (later : List ℕ)
    → IsPut ch x
    → decode 0 0 (next (width ch)) ≡ later
    → decode 0 0 (then_store fallback x next) ≡ ch ∷ later
then_store_lem fallback ch stop next later stored same = elim stored [ ]
then_store_lem fallback ch short next later stored same = elim stored [ ]
then_store_lem fallback ch (put bytes) next later (size, read) same =
    read 0 (next (length bytes)) ∙ rw (size) (ap (λ r. ch ∷ r) same)

end_of_name :
    (room fallback : ℕ) (next : ℕ → List ℕ)
    → decode 0 0 (then_store fallback (ucs2_to_utf8 room 0) next) ≡ []
unfolding ucs2_to_utf8 decode
end_of_name room fallback next = refl

width_positive : (ch : ℕ) → 0 < width ch
width_positive ch = ground arith

convert_lem :
    (fuel room fallback : ℕ) (src : ℕ → ℕ) (at : ℕ) (name : List ℕ)
    → room ≤ fuel
    → IsChars name
    → HoldsName src at name
    → widths name < room
    → decode 0 0 (convert fuel room fallback src at) ≡ name
unfolding convert
convert_lem zero room fallback src at name enough chars held fits = absurd (omega arith)
convert_lem (suc fuel) room fallback src at [] enough chars held fits =
    let some_room : (room == 0) ≡ false = ground arith in
    rw (some_room, held) (end_of_name room fallback _)
convert_lem (suc fuel) room fallback src at (ch ∷ name) enough (char, chars) (here, held) fits =
    let wide = width_positive ch in
    let some_room : (room == 0) ≡ false = ground arith in
    rw (some_room, here)
      (then_store_lem fallback ch (ucs2_to_utf8 room ch) _ name
        (encode_lem room ch char (omega arith))
        (convert_lem fuel (room - width ch) fallback src (suc at) name (omega arith) chars held
          (omega arith)))

-- A name of characters other than 0 and 0xFFFF, whose UTF-8 form leaves room for its 0 in the 255 bytes
-- of the buffer: what lfn_ucs2_to_utf8 stores for it, with characters outside ASCII allowed, decodes to
-- the name.
pub decode-lfn_ucs2_to_utf8 :
    (src : ℕ → ℕ) (name : List ℕ) (fallback : ℕ)
    → IsChars name
    → HoldsName src 0 name
    → widths name < 255
    → decode 0 0 (lfn_ucs2_to_utf8 src true fallback) ≡ name
unfolding lfn_ucs2_to_utf8
decode-lfn_ucs2_to_utf8 src name fallback chars held fits =
    convert_lem 255 255 fallback src 0 name (omega arith) chars held fits
