-- ===== src/Frames/Count.antt =====
-- Counting the indices below a bound that pass a test, for the counters of the frame allocator.
use sscc_oslecture.Base.{
  ◌==◌, if◌then◌else◌, ==_iff, Bool-cases, ℕ, zero, suc, ◌+◌, ◌≤◌, ◌<◌, ◌≡◌, refl, ◌≢◌, inl, inr,
  Bool, true, arith,
}

unfoldable pub count_if : (ℕ → Bool) → ℕ → ℕ
count_if f zero = 0
count_if f (suc n) = count_if f n + (if f n then 1 else 0)

pub count_if-le : (f : ℕ → Bool) (n : ℕ) → count_if f n ≤ n
unfolding count_if
count_if-le f zero = omega arith
count_if-le f (suc n) = ground (arith, count_if-le f n)

pub count_if_pos : (f : ℕ → Bool) (n i : ℕ) → i < n → f i ≡ true → 0 < count_if f n
unfolding count_if
count_if_pos f zero i h e = absurd (omega arith)
count_if_pos f (suc n) i h e = elim (Bool-cases (i == n)) [
  | inl last ↦ rw (← (==_iff i n).0 last, e) (omega arith)
  | inr other ↦ ground (arith, count_if_pos f n i (ground arith) e)
]

pub count_if_all : (f : ℕ → Bool) (n : ℕ) → ((j : ℕ) → j < n → f j ≡ true) → count_if f n ≡ n
unfolding count_if
count_if_all f zero h = refl
count_if_all f (suc n) h =
    rw (h n (omega arith), count_if_all f n (λ j b. h j (omega arith))) (omega arith)

pub count_if-ext : (f g : ℕ → Bool) (n : ℕ) → ((j : ℕ) → f j ≡ g j) → count_if f n ≡ count_if g n
unfolding count_if
count_if-ext f g zero h = refl
count_if-ext f g (suc n) h = rw (h n, count_if-ext f g n h)

module _ (f g : ℕ → Bool) (i : ℕ) (same : (j : ℕ) → j ≢ i → f j ≡ g j) where
  -- A change at an index behind the bound does not count.
  pub count_if_above : (n : ℕ) → n ≤ i → count_if f n ≡ count_if g n
  unfolding count_if
  count_if_above zero h = refl
  count_if_above (suc n) h = rw (same n (omega arith), count_if_above n (omega arith))

  -- A change below the bound counts once.
  pub count_if_change :
      (n : ℕ)
      → i < n
      → count_if f n + (if g i then 1 else 0) ≡ count_if g n + (if f i then 1 else 0)
  unfolding count_if
  count_if_change zero h = absurd (omega arith)
  count_if_change (suc n) h = elim (Bool-cases (i == n)) [
    | inl last ↦ let e = (==_iff i n).0 last in rw e (omega (arith, count_if_above n (omega arith)))
    | inr other ↦ rw (same n (ground arith)) (omega (arith, count_if_change n (ground arith)))
  ]
