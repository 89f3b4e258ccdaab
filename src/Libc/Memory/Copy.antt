-- ===== src/Libc/Memory/Copy.antt =====
-- memset, strncpy and what they leave in memory.
use sscc_oslecture.Base.{
  ltb, ◌==◌, if◌then◌else◌, Bool-cases, length, get_or, update, ℕ, zero, suc, ◌+◌, ◌-◌, min, ◌≡◌,
  ◌∙◌, inl, inr, not, ◌&&◌, List, [], ◌∷◌, arith,
}
use sscc_oslecture.Libc.Memory.{stpncpy, strncpy}

-- What strncpy is to leave at the address `j`, for `len` bytes of the string.
abbrev pub padded : (ℕ → ℕ) → ℕ → List ℕ → ℕ → ℕ → ℕ
padded m dest src maxlen j =
    let copied = min (length src) maxlen in
    if ltb j dest
    then m j
    else if ltb j (dest + copied)
    then get_or src (j - dest) 0
    else if j == dest + copied && not (maxlen == length src + 1)
    then 0
    else m j

padded-next :
    (m : ℕ → ℕ) (dest c : ℕ) (src : List ℕ) (maxlen j : ℕ)
    → padded (update m dest c) (suc dest) src maxlen j ≡ padded m dest (c ∷ src) (suc maxlen) j
padded-next m dest c src maxlen j = elim (Bool-cases (ltb dest j)) [
  | inl e ↦ let index : j - dest ≡ suc (j - suc dest) = ground arith in rw index (ground arith)
  | inr e ↦ elim (Bool-cases (j == dest)) [
    | inl here ↦ let index : j - dest ≡ 0 = ground arith in rw index (ground arith)
    | inr away ↦ ground arith
  ]
]

-- strncpy copies the bytes of the string, at most `maxlen`, and writes a 0 behind them, also when that is
-- one byte past the bound, unless the string and its 0 fill the bound exactly: then it writes no 0. It
-- changes no other byte.
pub strncpy_lem :
    (m : ℕ → ℕ) (dest : ℕ) (src : List ℕ) (maxlen j : ℕ)
    → strncpy m dest src maxlen j ≡ padded m dest src maxlen j
unfolding strncpy stpncpy
strncpy_lem m dest [] maxlen j = ground arith
strncpy_lem m dest (c ∷ src) zero j = ground arith
strncpy_lem m dest (c ∷ src) (suc maxlen) j =
    strncpy_lem (update m dest c) (suc dest) src maxlen j ∙ padded-next m dest c src maxlen j
