-- ===== src/Frames/Bitmap.antt =====
-- The macros PBM_GET and PBM_SET of vellum/mm/mm.c over byte memory, and their law.
use sscc_oslecture.Base.{
  ltb, ◌==◌, if◌then◌else◌, ==_iff, update, ℕ, ◌-◌, ◌*◌, ◌/◌, ◌%◌, ◌^◌, ◌<◌, bit_and, bit_or, ◌≡◌,
  refl, Bool, true, ◌&&◌, arith,
}
use sscc_oslecture.Base.Bits.{passes, passes_at}

-- The bytes from `pma_bitmap` on. The source checks no bound, so no bound is built in here.
abbrev pub Memory : Type 0
Memory = ℕ → ℕ

abbrev pub IsBytes : Memory → Type 0
IsBytes m = (i : ℕ) → m i < 256

abbrev pub pbm_free : ℕ
pbm_free = 0

abbrev pub pbm_allocated : ℕ
pbm_allocated = 1

abbrev pub pbm_reserved : ℕ
pbm_reserved = 2

-- `(b >> (k * 2)) & 3`
slot_get : ℕ → ℕ → ℕ
slot_get b k = bit_and (b / 2 ^ (k * 2)) 3

-- `b &= ~(3 << (k * 2)); b |= val << (k * 2)`, in a `uint8_t`
slot_set : ℕ → ℕ → ℕ → ℕ
slot_set b k val = bit_or (bit_and b (255 - 3 * 2 ^ (k * 2))) (val * 2 ^ (k * 2)) % 256

unfoldable pub pbm_get : Memory → ℕ → ℕ
unfolding slot_get
pbm_get m idx = slot_get (m (idx / 4)) (idx % 4)

unfoldable pub pbm_set : Memory → ℕ → ℕ → Memory
unfolding slot_set
pbm_set m idx val = update m (idx / 4) (slot_set (m (idx / 4)) (idx % 4) val)

slot_law : ℕ → ℕ → ℕ → ℕ → Bool
slot_law j k val b =
    (slot_get (slot_set b k val) j == (if k == j then val else slot_get b j))
    && ltb (slot_set b k val) 256

slot_table : passes (λ j. passes (λ k. passes (λ val. passes (slot_law j k val) 256) 4) 4) 4 ≡ true
unfolding passes slot_law slot_get slot_set
slot_table = refl

module _ (j k val b : ℕ) (hj : j < 4) (hk : k < 4) (hv : val < 4) (hb : b < 256) where
  slot_law_holds : slot_law j k val b ≡ true
  slot_law_holds =
      passes_at (slot_law j k val)
        (passes_at (λ v. passes (slot_law j k v) 256)
          (passes_at (λ q. passes (λ v. passes (slot_law j q v) 256) 4)
            (passes_at _ slot_table j hj) k hk)
          val hv)
        b hb

  slot_get-set : slot_get (slot_set b k val) j ≡ (if k == j then val else slot_get b j)
  unfolding slot_law
  slot_get-set = ground (arith, slot_law_holds)

  slot_set-lt : slot_set b k val < 256
  unfolding slot_law
  slot_set-lt = ground (arith, slot_law_holds)

-- PBM_SET writes its cell and no other.
pub pbm_get-set :
    (m : Memory) (i j val : ℕ)
    → IsBytes m
    → val < 4
    → pbm_get (pbm_set m i val) j ≡ (if i == j then val else pbm_get m j)
unfolding pbm_get pbm_set
pbm_get-set m i j val bytes hv = ground (
  arith,
  slot_get-set (j % 4) (i % 4) val (m (i / 4)) (omega arith) (omega arith) hv (bytes (i / 4)),
)

pub IsBytes-pbm_set : (m : Memory) (i val : ℕ) → IsBytes m → val < 4 → IsBytes (pbm_set m i val)
unfolding pbm_set
IsBytes-pbm_set m i val bytes hv j = ground (
  arith,
  bytes j,
  slot_set-lt 0 (i % 4) val (m (i / 4)) (omega arith) (omega arith) hv (bytes (i / 4)),
)

slot_get_zero : (k : ℕ) → k < 4 → slot_get 0 k ≡ 0
unfolding slot_get
slot_get_zero k h = (==_iff _ 0).0 (passes_at (λ k. slot_get 0 k == 0) zero_table k h)
  where
    zero_table : passes (λ k. slot_get 0 k == 0) 4 ≡ true
    zero_table = unfold passes in refl

-- In a byte of zeros every frame is free.
pub pbm_get_zero : (m : Memory) (i : ℕ) → m (i / 4) ≡ 0 → pbm_get m i ≡ pbm_free
unfolding pbm_get
pbm_get_zero m i e = rw e (slot_get_zero (i % 4) (omega arith))
