-- ===== src/Terminal/Utf8.antt =====
-- write of vellum/device/char/ansiterm.c reads one character of UTF-8: the loop over a sequence against an
-- independent encoder.
use sscc_oslecture.Base.{
  ltb, ◌==◌, if◌then◌else◌, length, ℕ, suc, ◌+◌, ◌-◌, ◌*◌, ◌/◌, ◌%◌, ◌^◌, ◌≤◌, ◌<◌, ◌≡◌, refl, ap,
  ◌∙◌, Bool, true, false, List, [], ◌∷◌, ◌++◌, arith,
}
use sscc_oslecture.Terminal.Write.{lead, continued, sequence}
use sscc_oslecture.Terminal.{slt}

-- The bytes of a character.
unfoldable pub encode : ℕ → List ℕ
encode ch =
    if ltb ch 128
    then ch ∷ []
    else if ltb ch 2048
    then (192 + ch / 64) ∷ (128 + ch % 64) ∷ []
    else if ltb ch 65536
    then (224 + ch / 4096) ∷ (128 + ch / 64 % 64) ∷ (128 + ch % 64) ∷ []
    else (240 + ch / 262144) ∷ (128 + ch / 4096 % 64) ∷ (128 + ch / 64 % 64) ∷ (128 + ch % 64) ∷ []

unfoldable pub encode_all : List ℕ → List ℕ
encode_all [] = []
encode_all (ch ∷ chs) = encode ch ++ encode_all chs

-- The bytes stand in the memory from `buf` on.
unfoldable pub Holds : (ℕ → ℕ) → ℕ → List ℕ → Type 0
Holds m buf [] = Unit
Holds m buf (b ∷ bytes) = (m buf ≡ b) × Holds m (buf + 1) bytes

module _ (get : ℕ → ℕ) where
  continued_step :
      (n i rounds wch c : ℕ)
      → get i ≡ c
      → c / 64 % 4 ≡ 2
      → continued get n i (suc rounds) wch
        ≡ continued get n (i + 1) rounds (wch + c % 64 * 64 ^ (n - i - 1))
  unfolding continued
  continued_step n i rounds wch c e continues =
      let test : (c / 64 % 4 == 2) ≡ true = ground arith in rw (e, test) refl

  lead_one : (c : ℕ) → c < 128 → lead c ≡ (1, c)
  unfolding lead
  lead_one c small =
      let a : ltb (c % 256) 128 ≡ true = ground arith in rw a (ap (λ x. (1, x)) (omega arith))

  lead_two : (c : ℕ) → 192 ≤ c → c < 224 → lead c ≡ (2, (c - 192) * 64)
  unfolding lead
  lead_two c large small =
      let a : ltb (c % 256) 128 ≡ false = ground arith in
      let b : ltb (c % 256) 224 ≡ true = ground arith in rw (a, b) (ap (λ x. (2, x)) (omega arith))

  lead_three : (c : ℕ) → 224 ≤ c → c < 240 → lead c ≡ (3, (c - 224) * 4096)
  unfolding lead
  lead_three c large small =
      let a : ltb (c % 256) 128 ≡ false = ground arith in
      let b : ltb (c % 256) 224 ≡ false = ground arith in
      let d : ltb (c % 256) 240 ≡ true = ground arith in
      rw (a, b, d) (ap (λ x. (3, x)) (omega arith))

  lead_four : (c : ℕ) → 240 ≤ c → c < 248 → lead c ≡ (4, (c - 240) * 262144)
  unfolding lead
  lead_four c large small =
      let a : ltb (c % 256) 128 ≡ false = ground arith in
      let b : ltb (c % 256) 224 ≡ false = ground arith in
      let d : ltb (c % 256) 240 ≡ false = ground arith in
      let e : ltb (c % 256) 248 ≡ true = ground arith in
      rw (a, b, d, e) (ap (λ x. (4, x)) (omega arith))

  sequence_eq :
      (c n w char : ℕ)
      → get 0 ≡ c
      → lead c ≡ (n, w)
      → 0 < n
      → n < 5
      → continued get n 1 (n - 1) w ≡ (n, char)
      → (lead (get 0)).0 ≡ n × (sequence get (lead (get 0)) ≡ (n, char))
  unfolding sequence
  sequence_eq c n w char here leads some_byte few goes =
      let rounds : (if slt 1 n then n - 1 else 0) ≡ n - 1 = ground arith in
      let enough : slt n 1 ≡ false = ground arith in
      rw (here, leads, rounds, goes, enough) (refl, refl)

  -- The bytes from the start are those of a character.
  unfoldable pub IsAt : List ℕ → Type 0
  IsAt [] = Unit
  IsAt (a ∷ []) = get 0 ≡ a
  IsAt (a ∷ b ∷ []) = (get 0 ≡ a) × (get 1 ≡ b)
  IsAt (a ∷ b ∷ c ∷ []) = (get 0 ≡ a) × (get 1 ≡ b) × (get 2 ≡ c)
  IsAt (a ∷ b ∷ c ∷ d ∷ bytes) = (get 0 ≡ a) × (get 1 ≡ b) × (get 2 ≡ c) × (get 3 ≡ d)

  -- The character is what the loop finds there.
  unfoldable pub ReadsAs : ℕ → List ℕ → Type 0
  ReadsAs ch bytes =
      ((lead (get 0)).0 ≡ length bytes) × (sequence get (lead (get 0)) ≡ (length bytes, ch))

  reads_one : (ch : ℕ) → ch < 128 → IsAt (ch ∷ []) → ReadsAs ch (ch ∷ [])
  unfolding IsAt ReadsAs continued
  reads_one ch small here =
      sequence_eq ch 1 ch ch here (lead_one ch small) (omega arith) (omega arith) refl

  reads_two :
      (ch : ℕ)
      → 128 ≤ ch
      → ch < 2048
      → let bytes = (192 + ch / 64) ∷ (128 + ch % 64) ∷ [] in IsAt bytes → ReadsAs ch bytes
  unfolding IsAt ReadsAs
  reads_two ch large small (here, next) =
      let w = (192 + ch / 64 - 192) * 64 in
      sequence_eq (192 + ch / 64) 2 w ch here (lead_two (192 + ch / 64) (omega arith) (omega arith))
        (omega arith) (omega arith)
        (continued_step 2 1 0 w (128 + ch % 64) next (omega arith)
          ∙ unfold continued in ap (λ x. (2, x)) (omega arith))

  reads_three :
      (ch : ℕ)
      → 2048 ≤ ch
      → ch < 65536
      → let bytes = (224 + ch / 4096) ∷ (128 + ch / 64 % 64) ∷ (128 + ch % 64) ∷ [] in
        IsAt bytes → ReadsAs ch bytes
  unfolding IsAt ReadsAs
  reads_three ch large small (here, next, last) =
      let w = (224 + ch / 4096 - 224) * 4096 in
      let w' = w + (128 + ch / 64 % 64) % 64 * 64 in
      sequence_eq (224 + ch / 4096) 3 w ch here
        (lead_three (224 + ch / 4096) (omega arith) (omega arith)) (omega arith) (omega arith)
        (continued_step 3 1 1 w (128 + ch / 64 % 64) next (omega arith)
          ∙ continued_step 3 2 0 w' (128 + ch % 64) last (omega arith)
          ∙ unfold continued in ap (λ x. (3, x)) (omega arith))

  reads_four :
      (ch : ℕ)
      → 65536 ≤ ch
      → ch < 2097152
      → let bytes =
          (240 + ch / 262144)
          ∷ (128 + ch / 4096 % 64)
          ∷ (128 + ch / 64 % 64)
          ∷ (128 + ch % 64)
          ∷ [] in
        IsAt bytes → ReadsAs ch bytes
  unfolding IsAt ReadsAs
  reads_four ch large small (here, next, third, last) =
      let w = (240 + ch / 262144 - 240) * 262144 in
      let w' = w + (128 + ch / 4096 % 64) % 64 * 4096 in
      let w'' = w' + (128 + ch / 64 % 64) % 64 * 64 in
      sequence_eq (240 + ch / 262144) 4 w ch here
        (lead_four (240 + ch / 262144) (omega arith) (omega arith)) (omega arith) (omega arith)
        (continued_step 4 1 2 w (128 + ch / 4096 % 64) next (omega arith)
          ∙ continued_step 4 2 1 w' (128 + ch / 64 % 64) third (omega arith)
          ∙ continued_step 4 3 0 w'' (128 + ch % 64) last (omega arith)
          ∙ unfold continued in ap (λ x. (4, x)) (omega arith))

  reads_if :
      (b : Bool) (ch : ℕ) (xs ys : List ℕ)
      → (b ≡ true → IsAt xs → ReadsAs ch xs)
      → (b ≡ false → IsAt ys → ReadsAs ch ys)
      → IsAt (if b then xs else ys)
      → ReadsAs ch (if b then xs else ys)
  reads_if true ch xs ys h k = h refl
  reads_if false ch xs ys h k = k refl

  -- The loop reads the character that was encoded.
  pub encode-ReadsAs : (ch : ℕ) → ch < 2097152 → IsAt (encode ch) → ReadsAs ch (encode ch)
  unfolding encode
  encode-ReadsAs ch bound =
      reads_if (ltb ch 128) ch _ _ (λ e. reads_one ch (ground arith))
        (λ e.
          reads_if (ltb ch 2048) ch _ _ (λ e'. reads_two ch (ground arith) (ground arith))
            (λ e'.
              reads_if (ltb ch 65536) ch _ _ (λ e''. reads_three ch (ground arith) (ground arith))
                (λ e''. reads_four ch (ground arith) bound)))
