-- ===== src/Base/Loops.antt =====
-- A counted loop `for (i = lo; i < lo + n; i++)` and its invariant rule; functions updated at one
-- point, which model memory.
use Prim.Native.Nat.{ℕ, zero, suc, ◌+◌, ◌<◌}
use mathlib.Core.Path.{◌≡◌, subst}
use native.Mathlib.Omega.{arith}
use sscc_oslecture.Base.Tests.{◌==◌, if◌then◌else◌}

module _ {ℓ} {S : Type ℓ} (body : ℕ → S → S) where
  -- `rounds` more rounds, the next of them at index `i`.
  unfoldable pub loop : ℕ → ℕ → S → S
  loop zero i state = state
  loop (suc rounds) i state = loop rounds (suc i) (body i state)

  -- What every round below `last` carries on holds at `last` when the loop ends there.
  pub loop_keeps {κ} :
      (Inv : ℕ → S → Type κ) (last : ℕ)
      → ((i : ℕ) (state : S) → i < last → Inv i state → Inv (suc i) (body i state))
      → (rounds i : ℕ) (state : S) → rounds + i ≡ last
      → Inv i state
      → Inv last (loop rounds i state)
  unfolding loop
  loop_keeps Inv last carry zero i state ends inv = subst (λ k. Inv k state) (omega arith) inv
  loop_keeps Inv last carry (suc rounds) i state ends inv =
      let now : i < last = omega arith in
      loop_keeps Inv last carry rounds (suc i) (body i state) (omega arith) (carry i state now inv)

module _ {ℓ} {A : Type ℓ} where
  abbrev pub update : (ℕ → A) → ℕ → A → ℕ → A
  update m i v j = if i == j then v else m j
