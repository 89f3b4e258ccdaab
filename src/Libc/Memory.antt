-- ===== src/Libc/Memory.antt =====
-- The functions of vellum/stdc/string that write memory, which is a function from addresses to bytes,
-- and memcmp. The string they read is the list of its bytes before the 0, and does not overlap what they
-- write.
pub mod Copy
pub mod Move
mod Tests
use sscc_oslecture.Base.{
  ltb, ◌==◌, if◌then◌else◌, update, ℕ, zero, suc, ◌+◌, ◌%◌, Bool, List, [], ◌∷◌,
}
use sscc_oslecture.Base.Int.{ℤ, pos, sub_ℕ}

unfoldable pub memset : (ℕ → ℕ) → ℕ → ℕ → ℕ → ℕ → ℕ
memset m dest c zero = m
memset m dest c (suc count) = memset (update m dest (c % 256)) (suc dest) c count

-- The loop of memcpy and of memmove from the left.
unfoldable pub copy_up : (ℕ → ℕ) → ℕ → ℕ → ℕ → ℕ → ℕ
copy_up m dest src zero = m
copy_up m dest src (suc len) = copy_up (update m dest (m src)) (suc dest) (suc src) len

-- The loop of memmove from the right: `*--dest_c = *--src_c`.
unfoldable pub copy_down : (ℕ → ℕ) → ℕ → ℕ → ℕ → ℕ → ℕ
copy_down m dest src zero = m
copy_down m dest src (suc len) = copy_down (update m (dest + len) (m (src + len))) dest src len

pub memcpy : (ℕ → ℕ) → ℕ → ℕ → ℕ → ℕ → ℕ
memcpy m dest src len = copy_up m dest src len

-- mempcpy copies as memcpy does and yields the end of the copy.
mempcpy : (ℕ → ℕ) → ℕ → ℕ → ℕ → (ℕ → ℕ) × ℕ
mempcpy m dest src len = (copy_up m dest src len, dest + len)

-- `(long)a > (long)b` for 32-bit addresses: the sign bit is flipped.
above : ℕ → ℕ → Bool
above a b = ltb ((b + 2147483648) % 4294967296) ((a + 2147483648) % 4294967296)

pub memmove : (ℕ → ℕ) → ℕ → ℕ → ℕ → ℕ → ℕ
memmove m dest src len = if above dest src then copy_down m dest src len else copy_up m dest src len

unfoldable pub memcmp : (ℕ → ℕ) → ℕ → ℕ → ℕ → ℤ
memcmp m a b zero = pos 0
memcmp m a b (suc len) = if m a == m b then memcmp m (suc a) (suc b) len else sub_ℕ (m a) (m b)

-- `if (maxlen) *d = 0;` after `maxlen--` has found `left`.
abbrev terminate : (ℕ → ℕ) → ℕ → ℕ → ℕ → ℕ
terminate m d left = if left == 1 then m else update m d 0

-- The memory after strncpy, and where its `d` ends, which stpncpy yields.
unfoldable pub stpncpy : (ℕ → ℕ) → ℕ → List ℕ → ℕ → (ℕ → ℕ) × ℕ
stpncpy m d [] maxlen = (terminate m d maxlen, d)
stpncpy m d (c ∷ src) zero = (terminate m d 0, d)
stpncpy m d (c ∷ src) (suc maxlen) = stpncpy (update m d c) (suc d) src maxlen

pub strncpy : (ℕ → ℕ) → ℕ → List ℕ → ℕ → ℕ → ℕ
strncpy m dest src maxlen = let (after, d) = stpncpy m dest src maxlen in after

pub strcpy : (ℕ → ℕ) → ℕ → List ℕ → ℕ → ℕ
strcpy m dest src = strncpy m dest src 4294967295

-- The two loops of strncat; the bound limits the bytes of both strings together.
unfoldable pub append : (ℕ → ℕ) → ℕ → List ℕ → ℕ → ℕ → ℕ
append m dest [] maxlen = m
append m dest (c ∷ src) zero = m
append m dest (c ∷ src) (suc maxlen) = append (update m dest c) (suc dest) src maxlen

unfoldable pub strncat : (ℕ → ℕ) → ℕ → List ℕ → ℕ → ℕ → ℕ
strncat m dest src zero = append m dest src zero
strncat m dest src (suc maxlen) =
    if m dest == 0 then append m dest src (suc maxlen) else strncat m (suc dest) src maxlen
