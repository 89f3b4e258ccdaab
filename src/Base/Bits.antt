-- ===== src/Base/Bits.antt =====
-- Facts about small bit patterns by evaluation of every value.
use Prim.Native.Nat.{ℕ, zero, suc, ◌<◌}
use mathlib.Core.Path.{◌≡◌}
use mathlib.Core.Bool.{Bool, true, false}
use native.Mathlib.Omega.{arith}
use sscc_oslecture.Base.Tests.{if◌then◌else◌}

-- `test` at every number below the bound.
unfoldable pub passes : (ℕ → Bool) → ℕ → Bool
passes test zero = true
passes test (suc top) = if test top then passes test top else false

pub passes_at :
    (test : ℕ → Bool) {bound : ℕ} → passes test bound ≡ true → (k : ℕ) → k < bound → test k ≡ true
unfolding passes
passes_at test {bound = zero} ok k below = elim below [ ]
passes_at test {bound = suc top} ok k below =
    ground (arith, λ (r : passes test top ≡ true) (h : k < top). passes_at test {bound = top} r k h)
