-- ===== src/Libc/Memory/Move.antt =====
-- memmove and memcmp.
use sscc_oslecture.Base.{
  ltb, leb, ◌==◌, if◌then◌else◌, Bool-cases, word_mod, update, ℕ, zero, suc, ◌+◌, ◌-◌, ◌/◌, ◌≤◌,
  ◌<◌, ◌≡◌, refl, ◌↔◌, inl, inr, ◌&&◌, add-zero, arith,
}
use sscc_oslecture.Base.Int.{pos, sub_ℕ}
use sscc_oslecture.Libc.Memory.{copy_up, copy_down, memmove, memcmp, above}

-- The bytes of a range replaced by those that stood in another.
abbrev pub moved : (ℕ → ℕ) → ℕ → ℕ → ℕ → ℕ → ℕ
moved m dest src len j = if leb dest j && ltb j (dest + len) then m (src + (j - dest)) else m j

copy_up-eq :
    (m : ℕ → ℕ) (dest src len j : ℕ)
    → dest ≤ src
    → copy_up m dest src len j ≡ moved m dest src len j
unfolding copy_up
copy_up-eq m dest src zero j h = ground arith
copy_up-eq m dest src (suc len) j h =
    rw (copy_up-eq (update m dest (m src)) (suc dest) (suc src) len j (omega arith)) (grind arith)

copy_down-eq :
    (m : ℕ → ℕ) (dest src len j : ℕ)
    → src ≤ dest
    → copy_down m dest src len j ≡ moved m dest src len j
unfolding copy_down
copy_down-eq m dest src zero j h = ground arith
copy_down-eq m dest src (suc len) j h =
    rw (copy_down-eq (update m (dest + len) (m (src + len))) dest src len j h) (grind arith)

-- memmove moves the bytes that stood in its source when it was called, also when the ranges overlap, for
-- addresses in the same half of the address space.
pub memmove_lem :
    (m : ℕ → ℕ) (dest src len j : ℕ)
    → (dest < word_mod) × (src < word_mod)
    → dest / 2147483648 ≡ src / 2147483648
    → memmove m dest src len j ≡ moved m dest src len j
unfolding memmove above
memmove_lem m dest src len j (hd, hs) half = elim (Bool-cases (above dest src)) [
  | inl e ↦ rw e (copy_down-eq m dest src len j (ground arith))
  | inr e ↦ rw e (copy_up-eq m dest src len j (ground arith))
]

sub_zero : (x y : ℕ) → sub_ℕ x y ≡ pos 0 → x ≡ y
sub_zero x y h = ground arith

memcmp-next :
    (m : ℕ → ℕ) (a b len : ℕ)
    → (memcmp m (suc a) (suc b) len ≡ pos 0) ↔ ((i : ℕ) → i < len → m (suc a + i) ≡ m (suc b + i))
    → (memcmp m a b (suc len) ≡ pos 0) ↔ ((i : ℕ) → i < suc len → m (a + i) ≡ m (b + i))
unfolding memcmp
memcmp-next m a b len (to, from) = elim (Bool-cases (m a == m b)) [
  | inl e ↦ rw e (
    λ h. extend (ground arith) (to h),
    λ h. from (λ i below. grind (arith, h (suc i) (omega arith))),
  )
  | inr e ↦
      rw e (λ h. ground (arith, sub_zero (m a) (m b) h), λ h. ground (arith, h 0 (omega arith)))
]
  where
    extend :
        m a ≡ m b
        → ((i : ℕ) → i < len → m (suc a + i) ≡ m (suc b + i))
        → (i : ℕ) → i < suc len
        → m (a + i) ≡ m (b + i)
    extend here h zero below = rw (add-zero a, add-zero b) here
    extend here h (suc i) below = grind (arith, h i (omega arith))

-- memcmp of two ranges is 0 exactly when they hold the same bytes.
pub memcmp_iff :
    (m : ℕ → ℕ) (a b len : ℕ)
    → (memcmp m a b len ≡ pos 0) ↔ ((i : ℕ) → i < len → m (a + i) ≡ m (b + i))
unfolding memcmp
memcmp_iff m a b zero = (λ h i below. ground arith, λ h. refl)
memcmp_iff m a b (suc len) = memcmp-next m a b len (memcmp_iff m (suc a) (suc b) len)
