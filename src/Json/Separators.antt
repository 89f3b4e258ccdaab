-- ===== src/Json/Separators.antt =====
-- What stands between and behind the elements of an array or object of vellum/json/json.c.
use sscc_oslecture.Base.{
  le→leb, leb-false, ==_refl, ==_false, ℕ, zero, suc, ◌+◌, ◌-◌, ◌<◌, ◌≡◌, refl, sym, ◌≢◌, false,
  arith,
}
use sscc_oslecture.Status.{Status}
use sscc_oslecture.Libc.Ctype.{flags, has, isspace}
use sscc_oslecture.Json.{State, Run, failed}
use sscc_oslecture.Json.Scan.{moved, skip}
use sscc_oslecture.Json.Parse.{separated}

skip-still :
    (str : ℕ → ℕ) (left cursor : ℕ) → isspace (str cursor) ≡ false → skip str left cursor ≡ cursor
unfolding skip
skip-still str zero cursor h = refl
skip-still str (suc left) cursor h = rw h refl

module _ {ℓ} {A : Type ℓ} (str : ℕ → ℕ) (len : ℕ) where
  -- Behind a comma, the next element is looked for two bytes on, whatever the byte next to the comma is.
  pub separated_comma :
      (close : ℕ) (e : Status) (s : State) (last : A) (more : State → Run A)
      → close ≢ 44
      → str s.cursor ≡ 44
      → s.cursor + 2 < len
      → separated str len close e s last more ≡ more (moved (moved s 1) 1)
  unfolding separated
  separated_comma close e s last more other comma inside =
      rw
        (
          skip-still str (len - s.cursor) s.cursor (rw comma (unfold isspace has flags in refl)),
          comma,
          ==_false 44 close (λ h. other (sym h)),
          leb-false len (s.cursor + 1) (omega arith),
          leb-false len (s.cursor + 1 + 1) (omega arith),
        )
        refl

  -- An array or object that ends with the text is refused: a byte must follow its last bracket.
  pub separated_last :
      (close : ℕ) (e : Status) (s : State) (last : A) (more : State → Run A)
      → isspace close ≡ false
      → str s.cursor ≡ close
      → s.cursor + 1 ≡ len
      → separated str len close e s last more ≡ failed e
  unfolding separated
  separated_last close e s last more black closes ends =
      rw
        (
          skip-still str (len - s.cursor) s.cursor (rw closes black),
          closes,
          ==_refl close,
          le→leb len (s.cursor + 1) (omega arith),
        )
        refl
