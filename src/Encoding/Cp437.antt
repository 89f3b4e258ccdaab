-- ===== src/Encoding/Cp437.antt =====
-- Characters of Unicode to code page 437: VlEnc_Utf32ToCp437 of vellum/encoding/cp437.c.
pub mod Inverse
mod Tests
use sscc_oslecture.Base.{
  ltb, leb, ◌==◌, if◌then◌else◌, length, get_or, ℕ, ◌+◌, ◌-◌, ◌/◌, ◌%◌, List, [], ◌∷◌,
}
use sscc_oslecture.Status.{Status, invalid_value, Result, ok, err}

-- The four tables, for the characters from U+00A0, U+0390, U+2500 and U+2630 on.
abbrev table_1 : List ℕ
table_1 =
    255 ∷ 173 ∷ 155 ∷ 156 ∷ 0 ∷ 157 ∷ 0 ∷ 21 ∷ 0 ∷ 0 ∷ 166 ∷ 174 ∷ 170 ∷ 0 ∷ 0 ∷ 0 ∷ 248 ∷ 241 ∷ 253
    ∷ 0 ∷ 0 ∷ 230 ∷ 20 ∷ 250 ∷ 0 ∷ 0 ∷ 167 ∷ 175 ∷ 172 ∷ 171 ∷ 0 ∷ 168 ∷ 0 ∷ 0 ∷ 0 ∷ 0 ∷ 142 ∷ 143
    ∷ 146 ∷ 128 ∷ 0 ∷ 144 ∷ 0 ∷ 0 ∷ 0 ∷ 0 ∷ 0 ∷ 0 ∷ 0 ∷ 165 ∷ 0 ∷ 0 ∷ 0 ∷ 0 ∷ 153 ∷ 0 ∷ 0 ∷ 0 ∷ 0
    ∷ 0 ∷ 154 ∷ 0 ∷ 0 ∷ 225 ∷ 133 ∷ 160 ∷ 131 ∷ 0 ∷ 132 ∷ 134 ∷ 145 ∷ 135 ∷ 138 ∷ 130 ∷ 136 ∷ 137
    ∷ 141 ∷ 161 ∷ 140 ∷ 139 ∷ 0 ∷ 164 ∷ 149 ∷ 162 ∷ 147 ∷ 0 ∷ 148 ∷ 246 ∷ 0 ∷ 151 ∷ 163 ∷ 150 ∷ 129
    ∷ 0 ∷ 0 ∷ 152 ∷ []

abbrev table_2 : List ℕ
table_2 =
    0 ∷ 0 ∷ 0 ∷ 226 ∷ 0 ∷ 0 ∷ 0 ∷ 0 ∷ 233 ∷ 0 ∷ 0 ∷ 0 ∷ 0 ∷ 0 ∷ 0 ∷ 0 ∷ 0 ∷ 0 ∷ 0 ∷ 228 ∷ 0 ∷ 0
    ∷ 232 ∷ 0 ∷ 0 ∷ 234 ∷ 0 ∷ 0 ∷ 0 ∷ 0 ∷ 0 ∷ 0 ∷ 0 ∷ 224 ∷ 0 ∷ 0 ∷ 235 ∷ 238 ∷ 0 ∷ 0 ∷ 0 ∷ 0 ∷ 0
    ∷ 0 ∷ 0 ∷ 0 ∷ 0 ∷ 0 ∷ 227 ∷ 0 ∷ 0 ∷ 229 ∷ 231 ∷ 0 ∷ 237 ∷ 0 ∷ []

abbrev table_3 : List ℕ
table_3 =
    196 ∷ 0 ∷ 179 ∷ 0 ∷ 0 ∷ 0 ∷ 0 ∷ 0 ∷ 0 ∷ 0 ∷ 0 ∷ 0 ∷ 218 ∷ 0 ∷ 0 ∷ 0 ∷ 191 ∷ 0 ∷ 0 ∷ 0 ∷ 192 ∷ 0
    ∷ 0 ∷ 0 ∷ 217 ∷ 0 ∷ 0 ∷ 0 ∷ 195 ∷ 0 ∷ 0 ∷ 0 ∷ 0 ∷ 0 ∷ 0 ∷ 0 ∷ 180 ∷ 0 ∷ 0 ∷ 0 ∷ 0 ∷ 0 ∷ 0 ∷ 0
    ∷ 194 ∷ 0 ∷ 0 ∷ 0 ∷ 0 ∷ 0 ∷ 0 ∷ 0 ∷ 193 ∷ 0 ∷ 0 ∷ 0 ∷ 0 ∷ 0 ∷ 0 ∷ 0 ∷ 197 ∷ 0 ∷ 0 ∷ 0 ∷ 0 ∷ 0
    ∷ 0 ∷ 0 ∷ 0 ∷ 0 ∷ 0 ∷ 0 ∷ 0 ∷ 0 ∷ 0 ∷ 0 ∷ 0 ∷ 0 ∷ 0 ∷ 0 ∷ 205 ∷ 186 ∷ 213 ∷ 214 ∷ 201 ∷ 184
    ∷ 183 ∷ 187 ∷ 212 ∷ 211 ∷ 200 ∷ 190 ∷ 189 ∷ 188 ∷ 198 ∷ 199 ∷ 204 ∷ 181 ∷ 182 ∷ 185 ∷ 209 ∷ 210
    ∷ 203 ∷ 207 ∷ 208 ∷ 202 ∷ 216 ∷ 215 ∷ 206 ∷ 0 ∷ 0 ∷ 0 ∷ 0 ∷ 0 ∷ 0 ∷ 0 ∷ 0 ∷ 0 ∷ 0 ∷ 0 ∷ 0 ∷ 0
    ∷ 0 ∷ 0 ∷ 0 ∷ 0 ∷ 0 ∷ 0 ∷ 223 ∷ 0 ∷ 0 ∷ 0 ∷ 220 ∷ 0 ∷ 0 ∷ 0 ∷ 219 ∷ 0 ∷ 0 ∷ 0 ∷ 221 ∷ 0 ∷ 0 ∷ 0
    ∷ 222 ∷ 176 ∷ 177 ∷ 178 ∷ 0 ∷ 0 ∷ 0 ∷ 0 ∷ 0 ∷ 0 ∷ 0 ∷ 0 ∷ 0 ∷ 0 ∷ 0 ∷ 0 ∷ 254 ∷ 0 ∷ 0 ∷ 0 ∷ 0
    ∷ 0 ∷ 0 ∷ 0 ∷ 0 ∷ 0 ∷ 0 ∷ 0 ∷ 22 ∷ 0 ∷ 0 ∷ 0 ∷ 0 ∷ 0 ∷ 30 ∷ 0 ∷ 0 ∷ 0 ∷ 0 ∷ 0 ∷ 0 ∷ 0 ∷ 16 ∷ 0
    ∷ 31 ∷ 0 ∷ 0 ∷ 0 ∷ 0 ∷ 0 ∷ 0 ∷ 0 ∷ 17 ∷ 0 ∷ 0 ∷ 0 ∷ 0 ∷ 0 ∷ 0 ∷ 9 ∷ 0 ∷ 0 ∷ 0 ∷ 0 ∷ 0 ∷ 0 ∷ 0
    ∷ 0 ∷ 0 ∷ 0 ∷ 0 ∷ 0 ∷ 8 ∷ 10 ∷ 0 ∷ 0 ∷ 0 ∷ 0 ∷ 0 ∷ 0 ∷ []

abbrev table_4 : List ℕ
table_4 =
    0 ∷ 0 ∷ 0 ∷ 0 ∷ 0 ∷ 0 ∷ 0 ∷ 0 ∷ 0 ∷ 0 ∷ 1 ∷ 2 ∷ 15 ∷ 0 ∷ 0 ∷ 0 ∷ 12 ∷ 0 ∷ 11 ∷ 0 ∷ 0 ∷ 0 ∷ 0 ∷ 0
    ∷ 0 ∷ 0 ∷ 0 ∷ 0 ∷ 0 ∷ 0 ∷ 0 ∷ 0 ∷ 0 ∷ 0 ∷ 0 ∷ 0 ∷ 0 ∷ 0 ∷ 0 ∷ 0 ∷ 0 ∷ 0 ∷ 0 ∷ 0 ∷ 0 ∷ 0 ∷ 0 ∷ 0
    ∷ 6 ∷ 0 ∷ 0 ∷ 5 ∷ 0 ∷ 3 ∷ 4 ∷ 0 ∷ 0 ∷ 0 ∷ 13 ∷ 14 ∷ 0 ∷ 0 ∷ 0 ∷ 0 ∷ []

-- The cases of `switch (utf32 & 0xFF)` in the pages 20h, 21h, 22h and 23h.
abbrev cases_20 : List (ℕ × ℕ)
cases_20 = (34, 7) ∷ (60, 19) ∷ (127, 252) ∷ (167, 158) ∷ []

abbrev cases_21 : List (ℕ × ℕ)
cases_21 = (144, 27) ∷ (145, 24) ∷ (146, 26) ∷ (147, 25) ∷ (148, 29) ∷ (149, 18) ∷ (152, 23) ∷ []

abbrev cases_22 : List (ℕ × ℕ)
cases_22 =
    (25, 249)
    ∷ (26, 251)
    ∷ (30, 236)
    ∷ (31, 28)
    ∷ (41, 239)
    ∷ (72, 247)
    ∷ (97, 240)
    ∷ (100, 243)
    ∷ (101, 242)
    ∷ []

abbrev cases_23 : List (ℕ × ℕ)
cases_23 = (2, 127) ∷ (16, 169) ∷ (32, 244) ∷ (33, 245) ∷ []

select : List (ℕ × ℕ) → ℕ → Result ℕ
select [] low = err Status.invalid_value
select ((key, value) ∷ rest) low = if key == low then ok value else select rest low

-- A table entry, which is 0 for a character that the code page lacks.
nonzero : ℕ → Result ℕ
nonzero entry = if entry == 0 then err Status.invalid_value else ok entry

lookup : ℕ → List ℕ → ℕ → Result ℕ
lookup base table utf32 =
    if leb (base + length table) utf32
    then err Status.invalid_value
    else nonzero (get_or table (utf32 - base) 0)

-- `stray` is the memory before the second table, which characters from U+0300 to U+038F read.
module _ (stray : ℕ → ℕ) where
  page_03 : ℕ → Result ℕ
  page_03 utf32 = if ltb utf32 912 then nonzero (stray (912 - utf32)) else lookup 912 table_2 utf32

  paged : ℕ → Result ℕ
  paged utf32 =
      let page = utf32 / 256 in
      let low = utf32 % 256 in
      if page == 1
      then (if utf32 == 402 then ok 159 else err Status.invalid_value)
      else if page == 3
      then page_03 utf32
      else if page == 32
      then select cases_20 low
      else if page == 33
      then select cases_21 low
      else if page == 34
      then select cases_22 low
      else if page == 35
      then select cases_23 low
      else err Status.invalid_value

  pub utf32_to_cp437 : ℕ → Result ℕ
  utf32_to_cp437 utf32 =
      if utf32 == 0
      then ok 0
      else if ltb utf32 32
      then err Status.invalid_value
      else if ltb utf32 127
      then ok utf32
      else if ltb utf32 160
      then err Status.invalid_value
      else if ltb utf32 402
      then lookup 160 table_1 utf32
      else if ltb utf32 9472
      then paged utf32
      else if ltb utf32 9776
      then lookup 9472 table_3 utf32
      else lookup 9776 table_4 utf32
