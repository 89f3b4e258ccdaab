-- ===== src/Libc/Ctype/Classes.antt =====
-- The classes against their ranges in ASCII, and the conversions of case.
use sscc_oslecture.Base.Bits.{passes, passes_at}
use sscc_oslecture.Base.{ltb, leb, ◌==◌, ℕ, ◌<◌, ◌≡◌, refl, sym, Bool, true, false, not, ◌&&◌, ◌||◌}
use sscc_oslecture.Libc.Ctype.{
  flags, has, isalnum, isalpha, iscntrl, isdigit, isgraph, islower, isprint, ispunct, isspace,
  isupper, isxdigit, isblank, toupper, tolower,
}

same : Bool → Bool → Bool
same true b = b
same false b = not b

same→≡ : (a b : Bool) → same a b ≡ true → a ≡ b
unfolding same
same→≡ true b h = sym h
same→≡ false true h = h
same→≡ false false h = refl

agree_at :
    (f g : ℕ → Bool) → passes (λ c. same (f c) (g c)) 128 ≡ true → (c : ℕ) → c < 128 → f c ≡ g c
agree_at f g ok c below = same→≡ (f c) (g c) (passes_at (λ c. same (f c) (g c)) ok c below)

abbrev pub IsClassified : ℕ → Type 0
IsClassified c =
    (isdigit c ≡ ((leb 48 c && leb c 57)))
    × (isupper c ≡ ((leb 65 c && leb c 90)))
    × (islower c ≡ ((leb 97 c && leb c 122)))
    × (isalpha c ≡ (isupper c || islower c))
    × (isalnum c ≡ (isalpha c || isdigit c))
    × (isxdigit c ≡ (isdigit c || (leb 65 c && leb c 70) || (leb 97 c && leb c 102)))
    × (iscntrl c ≡ (ltb c 32 || c == 127))
    × (isprint c ≡ ((leb 32 c && leb c 126)))
    × (isgraph c ≡ ((leb 33 c && leb c 126)))
    × (ispunct c ≡ (isgraph c && not (isalnum c)))
    × (isspace c ≡ (c == 32 || (leb 9 c && leb c 13)))
    × (isblank c ≡ (c == 32 || c == 9))

-- Every class of an ASCII character is the one that the C standard describes: decimal digits, capital
-- and small letters, the hexadecimal digits, the control, printing, graphic, punctuation, white-space and
-- blank characters.
pub ctype_lem : (c : ℕ) → c < 128 → IsClassified c
unfolding isalnum isalpha iscntrl isdigit isgraph islower isprint ispunct isspace isupper isxdigit
    isblank has flags same passes
ctype_lem c below = (
  agree_at isdigit (λ c. (leb 48 c && leb c 57)) refl c below,
  agree_at isupper (λ c. (leb 65 c && leb c 90)) refl c below,
  agree_at islower (λ c. (leb 97 c && leb c 122)) refl c below,
  agree_at isalpha (λ c. isupper c || islower c) refl c below,
  agree_at isalnum (λ c. isalpha c || isdigit c) refl c below,
  agree_at isxdigit (λ c. isdigit c || (leb 65 c && leb c 70) || (leb 97 c && leb c 102)) refl c
      below,
  agree_at iscntrl (λ c. ltb c 32 || c == 127) refl c below,
  agree_at isprint (λ c. (leb 32 c && leb c 126)) refl c below,
  agree_at isgraph (λ c. (leb 33 c && leb c 126)) refl c below,
  agree_at ispunct (λ c. isgraph c && not (isalnum c)) refl c below,
  agree_at isspace (λ c. c == 32 || (leb 9 c && leb c 13)) refl c below,
  agree_at isblank (λ c. c == 32 || c == 9) refl c below,
)

abbrev pub IsCaseStable : ℕ → Type 0
IsCaseStable c =
    (islower (toupper c) ≡ false)
    × (isupper (tolower c) ≡ false)
    × ((tolower (toupper c) == tolower c) ≡ true)
    × ((toupper (tolower c) == toupper c) ≡ true)

-- On ASCII, toupper and tolower change letters only: no result of toupper is a small letter, none of
-- tolower a capital, and each is undone by the other up to the case of the argument.
pub tolower-toupper : (c : ℕ) → c < 128 → IsCaseStable c
unfolding islower isupper toupper tolower has flags same passes
tolower-toupper c below = (
  agree_at (λ c. islower (toupper c)) (λ c. false) refl c below,
  agree_at (λ c. isupper (tolower c)) (λ c. false) refl c below,
  agree_at (λ c. tolower (toupper c) == tolower c) (λ c. true) refl c below,
  agree_at (λ c. toupper (tolower c) == toupper c) (λ c. true) refl c below,
)
