-- ===== src/Libc/Strings/Compare.antt =====
-- strncmp and strcmp against equality.
use sscc_oslecture.Base.{
  ◌==◌, ==_false, Bool-cases, length, take, word_mod, ℕ, zero, suc, ◌≤◌, ◌<◌, ◌≡◌, refl, sym, ap,
  ap₂, ◌∙◌, ◌≢◌, ◌↔◌, inl, inr, true, false, List, [], ◌∷◌, arith,
}
use sscc_oslecture.Base.Int.{pos, sub_ℕ}
use sscc_oslecture.Libc.Strings.{before, first, strncmp, strcmp}

-- What a C string is: no byte of it is 0.
abbrev pub IsString : List ℕ → Type 0
IsString [] = Unit
IsString (c ∷ str) = (0 < c) × IsString str

pub sub_zero : (a b : ℕ) → sub_ℕ a b ≡ pos 0 → a ≡ b
sub_zero a b h = ground arith

sub_same : (a b : ℕ) → a ≡ b → sub_ℕ a b ≡ pos 0
sub_same a b h = ground arith

strncmp-end :
    (q : List ℕ) (n : ℕ) → IsString q → (sub_ℕ 0 (first q) ≡ pos 0) ↔ ([] ≡ take (suc n) q)
strncmp-end [] n h = (λ e. refl, λ e. refl)
strncmp-end (d ∷ q) n h = (λ e. grind (arith, sub_zero 0 d e, h), λ e. cc)

strncmp-stop :
    (c : ℕ) (p q : List ℕ) → 0 < c → (sub_ℕ c (first q) ≡ pos 0) ↔ (take 1 (c ∷ p) ≡ take 1 q)
strncmp-stop c p [] h = (λ e. grind (arith, sub_zero c 0 e), λ e. cc)
strncmp-stop c p (d ∷ q) h = (λ e. cc (sub_zero c d e), λ e. sub_same c d (cc))

pub before-suc : (n : ℕ) → before (suc (suc n)) ≡ suc n
before-suc n = ground arith

strncmp-differ :
    (c : ℕ) (p q : List ℕ) (n : ℕ)
    → (c == first q) ≡ false
    → strncmp (c ∷ p) q (suc (suc n)) ≡ sub_ℕ c (first q)
unfolding strncmp
strncmp-differ c p q n e = rw (before-suc n, ==_false (suc n) 0 (ground arith), e) refl

strncmp-agree :
    (c d : ℕ) (p q : List ℕ) (n : ℕ)
    → (c == d) ≡ true
    → strncmp (c ∷ p) (d ∷ q) (suc (suc n)) ≡ strncmp p q (suc n)
unfolding strncmp
strncmp-agree c d p q n e = rw (before-suc n, ==_false (suc n) 0 (ground arith), e) refl

strncmp-next :
    (c d : ℕ) (p q : List ℕ) (n : ℕ)
    → (strncmp p q (suc n) ≡ pos 0) ↔ (take (suc n) p ≡ take (suc n) q)
    → (strncmp (c ∷ p) (d ∷ q) (suc (suc n)) ≡ pos 0) ↔ (c ∷ take (suc n) p ≡ d ∷ take (suc n) q)
strncmp-next c d p q n (to, from) = elim (Bool-cases (c == d)) [
  | inl e ↦
      rw (strncmp-agree c d p q n e)
        (let same : c ≡ d = ground arith in (λ h. ap₂ ◌∷◌ same (to h), λ h. from (cc)))
  | inr e ↦ rw (strncmp-differ c p (d ∷ q) n e) (
      let differ : c ≢ d = ground arith in
      (λ h. elim (differ (sub_zero c d h)) [ ], λ h. elim (differ (cc)) [ ]))
]

-- strncmp of two strings is 0 exactly when their first `maxlen` bytes are equal, for any bound but 0.
pub strncmp-take :
    (p q : List ℕ) (maxlen : ℕ)
    → IsString p
    → IsString q
    → 0 < maxlen
    → (strncmp p q maxlen ≡ pos 0) ↔ (take maxlen p ≡ take maxlen q)
unfolding strncmp
strncmp-take p q zero hp hq h = elim h [ ]
strncmp-take [] q (suc n) hp hq h = strncmp-end q n hq
strncmp-take (c ∷ p) q (suc zero) (positive, _) hq h = strncmp-stop c p q positive
strncmp-take (c ∷ p) [] (suc (suc n)) hp hq h =
    rw (strncmp-differ c p [] n (==_false c 0 (ground arith)))
      (λ e. grind (arith, sub_zero c 0 e, hp), λ e. cc)
strncmp-take (c ∷ p) (d ∷ q) (suc (suc n)) hp hq h =
    strncmp-next c d p q n (strncmp-take p q (suc n) hp.1 hq.1 (omega arith))

pub take_all : (p : List ℕ) (n : ℕ) → length p ≤ n → take n p ≡ p
take_all [] zero h = refl
take_all [] (suc n) h = refl
take_all (c ∷ p) zero h = ground arith
take_all (c ∷ p) (suc n) h = ap (c ∷◌) (take_all p n (omega arith))

-- strcmp of two strings that fit in the address space is 0 exactly when they are equal.
pub strcmp_iff :
    (p q : List ℕ)
    → IsString p
    → IsString q
    → length p < word_mod
    → length q < word_mod
    → (strcmp p q ≡ pos 0) ↔ (p ≡ q)
unfolding strcmp
strcmp_iff p q hp hq lp lq =
    let (to, from) = strncmp-take p q 4294967295 hp hq (omega arith) in
    let all_p = take_all p 4294967295 (omega arith) in
    let all_q = take_all q 4294967295 (omega arith) in
    (λ h. sym all_p ∙ to h ∙ all_q, λ e. from (ap (take 4294967295) e))

-- With the bound 0, strncmp compares nevertheless: of two strings that differ in their first byte the
-- result is not 0.
pub strncmp_unbounded : (c d : ℕ) (p q : List ℕ) → c ≢ d → strncmp (c ∷ p) (d ∷ q) 0 ≢ pos 0
unfolding strncmp
strncmp_unbounded c d p q differ = rw (==_false c d differ) (λ h. differ (sub_zero c d h))
