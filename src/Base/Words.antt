-- ===== src/Base/Words.antt =====
-- `uint32_t`, `size_t` and `uintptr_t` of the ia32 build: numbers below 2 ^ 32, with the wrap of
-- each operation written out.
use Prim.Native.Nat.{ℕ, ◌+◌, ◌-◌, ◌%◌, ◌^◌, ◌≤◌, ◌<◌}
use mathlib.Core.Path.{◌≡◌}
use native.Mathlib.Omega.{arith}

abbrev pub word_mod : ℕ
word_mod = 2 ^ 32

abbrev pub add32 : ℕ → ℕ → ℕ
add32 a b = (a + b) % word_mod

abbrev pub sub32 : ℕ → ℕ → ℕ
sub32 a b = (a + word_mod - b) % word_mod

pub sub32-eq : (a b : ℕ) → b ≤ a → a < word_mod → sub32 a b ≡ a - b
sub32-eq a b h w = omega arith

pub add32-eq : (a b : ℕ) → a + b < word_mod → add32 a b ≡ a + b
add32-eq a b h = omega arith
