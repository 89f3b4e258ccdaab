-- ===== src/Filesystem/Mount.antt =====
-- VlFs_MountAuto of vellum/filesystem/fs.c.
use sscc_oslecture.Base.{
  Bool-cases, ◌≡◌, refl, ap, ◌⊎◌, inl, inr, true, false, List, [], ◌∷◌, ◌++◌, arith,
}
use sscc_oslecture.Status.{Status}
use sscc_oslecture.Filesystem.{Driver, is_success, mount_auto}

-- The statuses that are not negative as an int32_t, and the others.
abbrev pub Succeeds : Status → Type 0
Succeeds Status.success = Unit
Succeeds Status.deprecated = Unit
Succeeds Status.no_event = Unit
Succeeds e = ⊥

abbrev pub Fails : Status → Type 0
Fails Status.success = ⊥
Fails Status.deprecated = ⊥
Fails Status.no_event = ⊥
Fails e = Unit

is_success-Succeeds : (e : Status) → is_success e ≡ true → Succeeds e
is_success-Succeeds Status.success h = tt
is_success-Succeeds Status.deprecated h = tt
is_success-Succeeds Status.no_event h = tt
is_success-Succeeds e h = ground arith

is_success-Fails : (e : Status) → is_success e ≡ false → Fails e
is_success-Fails Status.success h = ground arith
is_success-Fails Status.deprecated h = ground arith
is_success-Fails Status.no_event h = ground arith
is_success-Fails e h = tt

module _ {ℓ} {S : Type ℓ} (probe mount : Driver → S → Status × S) where
  -- Drivers that one after the other fail to probe or to mount the device, each on the state that those
  -- before it left.
  pub data IsRefused : List Driver → S → S → Type ℓ where
    nobody : (s : S) → IsRefused [] s s
    not_probed :
        (drv : Driver) (drivers : List Driver) (s end : S)
        → Fails ((probe drv s).0)
        → IsRefused drivers ((probe drv s).1) end
        → IsRefused (drv ∷ drivers) s end
    not_mounted :
        (drv : Driver) (drivers : List Driver) (s end : S)
        → Succeeds ((probe drv s).0)
        → Fails ((mount drv ((probe drv s).1)).0)
        → IsRefused drivers ((mount drv ((probe drv s).1)).1) end
        → IsRefused (drv ∷ drivers) s end

  -- A driver mounts the device, after those before it in the list have refused it.
  pub record IsTaken (drivers : List Driver) (s : S) (end : Status × S) : Type ℓ where
    pub before : List Driver
    pub taker : Driver
    pub after : List Driver
    pub state : S
    pub listed : drivers ≡ before ++ (taker ∷ after)
    pub refused : IsRefused before s state
    pub probed : Succeeds ((probe taker state).0)
    pub mounted : mount taker ((probe taker state).1) ≡ end
    pub success : Succeeds (end.0)

  abbrev pub IsMounting : List Driver → S → Status × S → Type ℓ
  IsMounting drivers s end =
      IsTaken drivers s end ⊎ ((end.0 ≡ Status.not_supported) × IsRefused drivers s (end.1))

  behind :
      (drv : Driver) (drivers : List Driver) (s s' : S) (end : Status × S)
      → ((l : List Driver) (u : S) → IsRefused l s' u → IsRefused (drv ∷ l) s u)
      → IsMounting drivers s' end
      → IsMounting (drv ∷ drivers) s end
  behind drv drivers s s' end one (inr (e, refused)) = inr (e, one drivers (end.1) refused)
  behind drv drivers s s' end one (inl t) = inl record {
    before = drv ∷ t.before;
    taker = t.taker;
    after = t.after;
    state = t.state;
    listed = ap (λ l. drv ∷ l) t.listed;
    refused = one t.before t.state t.refused;
    probed = t.probed;
    mounted = t.mounted;
    success = t.success;
  }

  -- VlFs_MountAuto asks the drivers in the order of the list, each on the state that those before it left:
  -- either one probes and mounts the device with a status that is not negative, which is returned, after every
  -- driver before it has failed to do so, or all fail, and the result is STATUS_NOT_SUPPORTED.
  pub mount_auto-IsMounting :
      (drivers : List Driver) (s : S) → IsMounting drivers s (mount_auto probe mount drivers s)
  unfolding mount_auto
  mount_auto-IsMounting [] s = inr (refl, nobody s)
  mount_auto-IsMounting (drv ∷ drivers) s =
      let p = probe drv s in
      let m = mount drv (p.1) in
      elim (Bool-cases (is_success (p.0))) [
        | inr failed ↦ rw failed (
            behind drv drivers s (p.1) _
              (λ l u. not_probed drv l s u (is_success-Fails (p.0) failed))
              (mount_auto-IsMounting drivers (p.1)))
        | inl probed ↦ rw probed (
            let good = is_success-Succeeds (p.0) probed in
            elim (Bool-cases (is_success (m.0))) [
              | inl mounted ↦ rw mounted (
                  inl record {
                    before = [];
                    taker = drv;
                    after = drivers;
                    state = s;
                    listed = refl;
                    refused = nobody s;
                    probed = good;
                    mounted = refl;
                    success = is_success-Succeeds (m.0) mounted;
                  })
              | inr failed ↦ rw failed (
                  behind drv drivers s (m.1) _
                    (λ l u. not_mounted drv l s u good (is_success-Fails (m.0) failed))
                    (mount_auto-IsMounting drivers (m.1)))
            ])
      ]
