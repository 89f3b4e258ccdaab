-- ===== src/Terminal/Texts.antt =====
-- The bytes of a text of UTF-8 as write of vellum/device/char/ansiterm.c finds them.
use sscc_oslecture.Terminal.Escape.{after_esc, question_mark, digit, parameter}
use sscc_oslecture.Terminal.Utf8.{encode, Holds, IsAt, ReadsAs, encode-ReadsAs}
use sscc_oslecture.Base.{
  ltb, leb, ◌==◌, if◌then◌else◌, length, add32, sub32, ℕ, ◌+◌, ◌≤◌, ◌<◌, ◌≡◌, refl, ap, subst, ◌∙◌,
  Bool, true, false, ◌&&◌, ◌||◌, List, [], ◌∷◌, ◌++◌, arith,
}
use sscc_oslecture.Terminal.{Terminal, slt}
use sscc_oslecture.Terminal.Write.{get_seq_char, lead, sequence}
use sscc_oslecture.Terminal.Keeping.{IsKept}

-- No fragment of a sequence is kept.
unfoldable pub IsWhole : Terminal → Type 0
IsWhole d = d.utf8_fragment_len ≡ 0

if-IsWhole : (b : Bool) (x y : Terminal) → IsWhole x → IsWhole y → IsWhole (if b then x else y)
if-IsWhole true x y p q = p
if-IsWhole false x y p q = q

parameter-IsWhole : (d : Terminal) (ch : ℕ) → IsWhole d → IsWhole (parameter ch d)
unfolding IsWhole parameter question_mark digit
parameter-IsWhole d ch e =
    if-IsWhole (ch == 63) _ _ (if-IsWhole (leb 8 d.escape_seq_arg_count) _ _ e e) (
      if-IsWhole (leb 48 ch && leb ch 57) _ _ (if-IsWhole (leb 8 d.escape_seq_arg_count) _ _ e e)
        (if-IsWhole (ch == 59 || ch == 58) _ _ e e))

pub IsWhole-IsKept : IsKept IsWhole
unfolding IsWhole after_esc
IsWhole-IsKept = record {
  of_state = λ d state e. e;
  of_saved = λ d x y e. e;
  of_attributes = λ d a e. e;
  of_esc = λ d ch e. e;
  of_parameter = parameter-IsWhole;
}

-- What get_seq_char finds in whole bytes.
pub get-memory :
    (d : Terminal) (m : ℕ → ℕ) (buf len i : ℕ)
    → IsWhole d
    → i < len
    → len < 2147483648
    → buf + len < 4294967296
    → get_seq_char d m buf len i ≡ m (buf + i)
unfolding get_seq_char IsWhole
get-memory d m buf len i whole below small fits =
    let e : d.utf8_fragment_len ≡ 0 = whole in
    let a : slt i d.utf8_fragment_len ≡ false = ground arith in
    let b : slt i (add32 d.utf8_fragment_len len) ≡ true = ground arith in
    let c : add32 buf (sub32 i d.utf8_fragment_len) ≡ buf + i = omega arith in rw (a, b, c) refl

-- Bytes at the start of a text.
pub head-IsAt :
    (get m : ℕ → ℕ) (buf len : ℕ) (bytes later : List ℕ)
    → length bytes ≤ len
    → length bytes < 5
    → ((i : ℕ) → i < len → get i ≡ m (buf + i))
    → Holds m buf (bytes ++ later)
    → IsAt get bytes
unfolding Holds IsAt
head-IsAt get m buf len [] later enough few reads holds = _
head-IsAt get m buf len (a ∷ []) later enough few reads holds =
    reads 0 (omega arith) ∙ ap m (omega arith) ∙ holds.0
head-IsAt get m buf len (a ∷ b ∷ []) later enough few reads holds = (
  reads 0 (omega arith) ∙ ap m (omega arith) ∙ holds.0,
  reads 1 (omega arith) ∙ ap m (omega arith) ∙ holds.1.0,
)
head-IsAt get m buf len (a ∷ b ∷ c ∷ []) later enough few reads holds = (
  reads 0 (omega arith) ∙ ap m (omega arith) ∙ holds.0,
  reads 1 (omega arith) ∙ ap m (omega arith) ∙ holds.1.0,
  reads 2 (omega arith) ∙ ap m (omega arith) ∙ holds.1.1.0,
)
head-IsAt get m buf len (a ∷ b ∷ c ∷ d ∷ []) later enough few reads holds = (
  reads 0 (omega arith) ∙ ap m (omega arith) ∙ holds.0,
  reads 1 (omega arith) ∙ ap m (omega arith) ∙ holds.1.0,
  reads 2 (omega arith) ∙ ap m (omega arith) ∙ holds.1.1.0,
  reads 3 (omega arith) ∙ ap m (omega arith) ∙ holds.1.1.1.0,
)
head-IsAt get m buf len (a ∷ b ∷ c ∷ d ∷ e ∷ bytes) later enough few reads holds = ground arith

pub tail-Holds :
    (m : ℕ → ℕ) (buf : ℕ) (bytes later : List ℕ)
    → Holds m buf (bytes ++ later)
    → Holds m (buf + length bytes) later
unfolding Holds
tail-Holds m buf [] later holds = subst (λ b. Holds m b later) (omega arith) holds
tail-Holds m buf (a ∷ bytes) later (x, holds) =
    subst (λ b. Holds m b later) (omega arith) (tail-Holds m (buf + 1) bytes later holds)

pub length-encode : (ch : ℕ) → (0 < length (encode ch)) × (length (encode ch) < 5)
unfolding encode
length-encode ch =
    length_if (ltb ch 128) _ _ (omega arith, omega arith)
      (length_if (ltb ch 2048) _ _ (omega arith, omega arith)
        (length_if (ltb ch 65536) _ _ (omega arith, omega arith) (omega arith, omega arith)))
  where
    length_if :
        (b : Bool) (xs ys : List ℕ)
        → (0 < length xs) × (length xs < 5)
        → (0 < length ys) × (length ys < 5)
        → (0 < length (if b then xs else ys)) × (length (if b then xs else ys) < 5)
    length_if true xs ys p q = p
    length_if false xs ys p q = q

-- Characters up to U+1FFFFF, which four bytes can encode.
abbrev pub AreCharacters : List ℕ → Type 0
AreCharacters [] = Unit {0}
AreCharacters (ch ∷ chs) = (ch < 2097152) × AreCharacters chs

-- The loop over a sequence finds a character whose bytes stand at the start of a text.
pub character_lem :
    (d : Terminal) (m : ℕ → ℕ) (buf ch : ℕ) (later : List ℕ)
    → ch < 2097152
    → Holds m buf (encode ch ++ later)
    → length (encode ch) + length later < 2147483648
    → buf + (length (encode ch) + length later) < 4294967296
    → IsWhole d
    → let get = get_seq_char d m buf (length (encode ch) + length later) in
      ((lead (get 0)).0 ≡ length (encode ch))
      × (sequence get (lead (get 0)) ≡ (length (encode ch), ch))
unfolding ReadsAs
character_lem d m buf ch later bound holds small fits whole =
    let len = length (encode ch) + length later in
    let get = get_seq_char d m buf len in
    encode-ReadsAs get ch bound (
      head-IsAt get m buf len (encode ch) later (omega arith) ((length-encode ch).1)
        (λ i below. get-memory d m buf len i whole below (omega arith) (omega arith)) holds)
