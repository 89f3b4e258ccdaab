-- ===== src/Partitions/Mbr.antt =====
-- register_partitions of vellum/device/block/part/mbr.c on a table that contains itself.
use sscc_oslecture.Base.{ℕ, zero, suc, ◌+◌, ◌≡◌, refl, subst, none, arith}
use sscc_oslecture.Status.{ok}
use sscc_oslecture.Fat.{Done, Device, half_at, word_at}
use sscc_oslecture.Partitions.{Range, mbr_entries, register_partitions}

-- A table whose first entry is an extended partition at the table itself: register_partitions calls
-- itself on it and does not return, whatever fuel it has.
pub register_partitions-none :
    (accept : Range → Done) (dev : Device) (base : ℕ) (sector : ℕ → ℕ)
    → dev base 1 (λ _. 0) ≡ (ok tt, sector)
    → half_at sector 510 ≡ 43605
    → sector 450 ≡ 5
    → word_at sector 454 ≡ 0
    → (fuel : ℕ) → register_partitions accept dev fuel base ≡ none
unfolding register_partitions mbr_entries
register_partitions-none accept dev base sector there signed extended itself zero = refl
register_partitions-none accept dev base sector there signed extended itself (suc fuel) =
    let again : register_partitions accept dev fuel (base + 0) ≡ none =
      subst (λ b. register_partitions accept dev fuel b ≡ none) (omega arith)
        (register_partitions-none accept dev base sector there signed extended itself fuel) in
    rw (there, signed, extended, itself, again) refl
