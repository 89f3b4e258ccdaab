-- ===== src/Base/Blocks.antt =====
-- Places in blocks of a size: quotient and remainder when one moves within a block or to its end.
use Prim.Native.Nat.{ℕ, suc, ◌+◌, ◌*◌, ◌/◌, ◌%◌, ◌<◌}
use mathlib.Core.Path.{◌≡◌, ap, ◌∙◌}
use native.Mathlib.Nat.{mul-add-div, div-eq_of_lt}
use native.Mathlib.Omega.{arith}

module _ (size : ℕ) where
  quotient : (q r : ℕ) → r < size → (size * q + r) / size ≡ q
  quotient q r h =
      mul-add-div {m = size} (omega arith) q r
      ∙ ap (λ z. q + z) (div-eq_of_lt {n = r} {m = size} h)
      ∙ omega arith

  remainder : (p q r : ℕ) → p ≡ size * q + r → p / size ≡ q → r < size → p % size ≡ r
  remainder p q r shape here h =
      let whole : p / size * size + p % size ≡ p = omega arith in
      let same : p / size * size ≡ q * size = ap (λ z. z * size) here in omega arith

  pub within_block :
      (p j : ℕ)
      → 0 < size
      → p % size + j < size
      → ((p + j) / size ≡ p / size) × ((p + j) % size ≡ p % size + j)
  within_block p j positive h =
      let shape : p + j ≡ size * (p / size) + (p % size + j) = omega arith in
      let here : (p + j) / size ≡ p / size =
        ap (λ z. z / size) shape ∙ quotient (p / size) (p % size + j) h in
      (here, remainder (p + j) (p / size) (p % size + j) shape here h)

  pub end_of_block : (p j : ℕ) → 0 < size → p % size + j ≡ size → (p + j) / size ≡ suc (p / size)
  end_of_block p j positive h =
      let shape : p + j ≡ size * suc (p / size) + 0 = omega arith in
      ap (λ z. z / size) shape ∙ quotient (suc (p / size)) 0 positive

  -- The block of a place below an end starts below it.
  pub block_start : (p last : ℕ) → 0 < size → p < last → p / size * size < last
  block_start p last positive h = omega arith

  pub end_of_block_rem : (p j : ℕ) → 0 < size → p % size + j ≡ size → (p + j) % size ≡ 0
  end_of_block_rem p j positive h =
      remainder (p + j) (suc (p / size)) 0 (omega arith) (end_of_block p j positive h) positive
