-- ===== src/Libc/Strings/CaseCompare.antt =====
-- strncasecmp of vellum/stdc/strings/strncasecmp.c against equality up to case.
use sscc_oslecture.Base.{
  ◌==◌, ==_iff, ==_false, Bool-cases, length, ℕ, zero, suc, ◌<◌, ◌≡◌, refl, ap, ap₂, ◌≢◌, ◌↔◌, inl,
  inr, true, false, List, [], ◌∷◌, map, arith,
}
use sscc_oslecture.Base.Int.{pos, sub_ℕ}
use sscc_oslecture.Libc.Ctype.{flags, has, toupper}
use sscc_oslecture.Libc.Strings.{first, rest, strncasecmp}
use sscc_oslecture.Libc.Strings.Compare.{IsString, sub_zero, before-suc}

toupper_positive : (c : ℕ) → 0 < c → 0 < toupper c
unfolding toupper
toupper_positive c above = ground arith

toupper_zero : toupper 0 ≡ 0
unfolding toupper has flags
toupper_zero = refl

strncasecmp-agree :
    (c : ℕ) (p q : List ℕ) (n : ℕ)
    → (toupper c == toupper (first q)) ≡ true
    → strncasecmp (c ∷ p) q (suc (suc n)) ≡ strncasecmp p (rest q) (suc n)
unfolding strncasecmp
strncasecmp-agree c p q n e = rw (before-suc n, ==_false (suc n) 0 (ground arith), e) refl

strncasecmp-differ :
    (c : ℕ) (p q : List ℕ) (n : ℕ)
    → (toupper c == toupper (first q)) ≡ false
    → strncasecmp (c ∷ p) q (suc (suc n)) ≡ sub_ℕ c (first q)
unfolding strncasecmp
strncasecmp-differ c p q n e = rw (before-suc n, ==_false (suc n) 0 (ground arith), e) refl

-- strncasecmp of two strings, the first shorter than `maxlen`, is 0 exactly when they are equal after
-- toupper of each character.
pub strncasecmp-map :
    (p q : List ℕ) (maxlen : ℕ)
    → IsString p
    → IsString q
    → length p < maxlen
    → (strncasecmp p q maxlen ≡ pos 0) ↔ (map toupper p ≡ map toupper q)
unfolding strncasecmp
strncasecmp-map [] [] maxlen hp hq fits = (λ e. refl, λ e. refl)
strncasecmp-map [] (d ∷ q) maxlen hp (above, hq) fits =
    (λ e. grind (arith, sub_zero 0 d e), λ e. cc)
strncasecmp-map (c ∷ p) q zero hp hq fits = absurd (omega arith)
strncasecmp-map (c ∷ p) q (suc zero) hp hq fits = absurd (omega arith)
strncasecmp-map (c ∷ p) [] (suc (suc n)) (above, hp) hq fits =
    let differ : (toupper c == toupper 0) ≡ false =
      ==_false (toupper c) (toupper 0) (grind (arith, toupper_positive c above, toupper_zero)) in
    rw (strncasecmp-differ c p [] n differ) (λ e. grind (arith, sub_zero c 0 e), λ e. cc)
strncasecmp-map (c ∷ p) (d ∷ q) (suc (suc n)) (above, hp) (_, hq) fits =
    let (to, from) = strncasecmp-map p q (suc n) hp hq (omega arith) in
    elim (Bool-cases (toupper c == toupper d)) [
      | inl e ↦
          let same : toupper c ≡ toupper d = (==_iff (toupper c) (toupper d)).0 e in
          rw (strncasecmp-agree c p (d ∷ q) n e) (λ h. ap₂ ◌∷◌ same (to h), λ h. from (cc))
      | inr e ↦
          let differ : toupper c ≢ toupper d =
            λ same. absurd (cc (e, (==_iff (toupper c) (toupper d)).1 same)) in
          rw (strncasecmp-differ c p (d ∷ q) n e)
            (λ h. absurd (differ (ap toupper (sub_zero c d h))), λ h. absurd (differ (cc)))
    ]
