-- ===== src/Fat/Names.antt =====
-- File names of vellum/filesystem/fat/fat.c: the long names in UCS-2, the short names, and their
-- tests. A directory entry is the place of its 32 bytes in a buffer.
use sscc_oslecture.Base.{
  ltb, leb, ◌==◌, if◌then◌else◌, length, ℕ, zero, suc, ◌+◌, ◌-◌, ◌*◌, ◌/◌, ◌%◌, Bool, ◌&&◌, ◌||◌,
  List, [], ◌∷◌, ◌++◌,
}
use sscc_oslecture.Libc.Ctype.{tolower}
use sscc_oslecture.Fat.{half_at}

-- What ucs2_to_utf8 returns: 0, -1 or the number of bytes it has stored.
pub data Encoded : Type 0 where
  stop short : Encoded
  put : List ℕ → Encoded

-- ucs2_to_utf8; the bits that `|` joins are disjoint.
unfoldable pub ucs2_to_utf8 : ℕ → ℕ → Encoded
ucs2_to_utf8 len ch =
    if ch == 0 || ch == 65535
    then stop
    else if ltb ch 127
    then (if ltb len 1 then short else put (ch ∷ []))
    else if ltb ch 2047
    then (if ltb len 2 then short else put ((ch / 64 % 32 + 192) ∷ (ch % 64 + 128) ∷ []))
    else (if ltb len 3
        then short
        else put ((ch / 4096 % 16 + 224) ∷ (ch / 64 % 64 + 128) ∷ (ch % 64 + 128) ∷ []))

-- A round of lfn_ucs2_to_utf8: what it stores, and whether the loop goes on.
abbrev pub then_store : ℕ → Encoded → (ℕ → List ℕ) → List ℕ
then_store fallback stop next = 0 ∷ []
then_store fallback short next = fallback ∷ next 1
then_store fallback (put bytes) next = bytes ++ next (length bytes)

-- The loop of lfn_ucs2_to_utf8 with allow_nonascii: the bytes stored from here on, with `room` bytes
-- left of the buffer. Each round but the last stores a byte, so `room` rounds are enough.
unfoldable pub convert : ℕ → ℕ → ℕ → (ℕ → ℕ) → ℕ → List ℕ
convert zero room fallback src at = []
convert (suc fuel) room fallback src at =
    if room == 0
    then []
    else then_store fallback (ucs2_to_utf8 room (src at))
        (λ used. convert fuel (room - used) fallback src (suc at))

-- lfn_ucs2_to_utf8 without allow_nonascii: 256 characters and a 0.
unfoldable pub convert_ascii : ℕ → ℕ → (ℕ → ℕ) → ℕ → List ℕ
convert_ascii zero fallback src at = 0 ∷ []
convert_ascii (suc left) fallback src at =
    (if ltb (src at) 128 then src at else fallback) ∷ convert_ascii left fallback src (suc at)

unfoldable pub lfn_ucs2_to_utf8 : (ℕ → ℕ) → Bool → ℕ → List ℕ
lfn_ucs2_to_utf8 src allow_nonascii fallback =
    if allow_nonascii then convert 255 255 fallback src 0 else convert_ascii 256 fallback src 0

-- The 13 characters of a long entry: name_fragment1, name_fragment2 and name_fragment3.
abbrev pub fragment : (ℕ → ℕ) → ℕ → ℕ → ℕ
fragment bytes entry i =
    if ltb i 5
    then half_at bytes (entry + 1 + 2 * i)
    else if ltb i 11
    then half_at bytes (entry + 14 + 2 * (i - 5))
    else half_at bytes (entry + 28 + 2 * (i - 11))

-- get_lfn_filename. An entry of order 0 writes its characters in front of the buffer; of that only
-- the 0 behind them is in the buffer.
unfoldable pub get_lfn_filename : (ℕ → ℕ) → ℕ → (ℕ → ℕ) → ℕ → ℕ
get_lfn_filename bytes entry buf j =
    let order : ℕ = bytes entry % 32 in
    let last : Bool = bytes entry / 64 % 2 == 1 in
    let start : ℕ = (order - 1) * 13 in
    if order == 0
    then (if last && j == 0 then 0 else buf j)
    else if leb start j && ltb j (start + 13)
    then fragment bytes entry (j - start)
    else if last && j == start + 13
    then 0
    else buf j

-- The characters of a field of `n` bytes before the first space.
unfoldable pub field : ℕ → Bool → (ℕ → ℕ) → ℕ → List ℕ
field zero lower bytes at = []
field (suc n) lower bytes at =
    let rest = field n lower bytes (suc at) in
    if bytes at == 32 then [] else (if lower then tolower (bytes at) else bytes at) ∷ rest

-- get_sfn_filename: the characters before the terminating 0.
unfoldable pub get_sfn_filename : (ℕ → ℕ) → ℕ → List ℕ
get_sfn_filename bytes entry =
    let flags : ℕ = bytes (entry + 12) in
    let name = field 8 (flags / 8 % 2 == 1) bytes entry in
    let extension = field 3 (flags / 16 % 2 == 1) bytes (entry + 8) in
    if bytes (entry + 8) == 32 then name ++ extension else name ++ 46 ∷ extension

-- get_sfn_checksum over `n` bytes, in 8 bits.
unfoldable pub checksum : ℕ → (ℕ → ℕ) → ℕ → ℕ → ℕ
checksum zero buf at sum = sum
checksum (suc n) buf at sum =
    checksum n buf (suc at) (((if sum % 2 == 1 then 128 else 0) + sum / 2 + buf at) % 256)

unfoldable pub get_sfn_checksum : (ℕ → ℕ) → ℕ
get_sfn_checksum buf = checksum 13 buf 0 0
