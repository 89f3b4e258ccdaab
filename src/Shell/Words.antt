-- ===== src/Shell/Words.antt =====
-- The words that VlShell_Parse of vellum/shell/parse.c yields.
use sscc_oslecture.Base.{
  ◌==◌, ==_false, length, ℕ, zero, suc, ◌<◌, ◌≡◌, refl, ap, ◌∙◌, ◌⊎◌, inl, inr, Bool, true, false,
  not, ◌||◌, List, [], ◌∷◌, ◌++◌, arith,
}
use sscc_oslecture.Libc.Strings.{first}
use sscc_oslecture.Shell.{Output, full, output, with_byte, push, expand, escape, word}

-- No quote, backslash or blank.
abbrev pub is_plain : ℕ → Bool
is_plain c = not (c == 34 || c == 39 || c == 92 || c == 32 || c == 9)

abbrev pub IsPlain : List ℕ → Type 0
IsPlain [] = Unit
IsPlain (c ∷ text) = (is_plain c ≡ true) × IsPlain text

-- What a buffer with `room` bytes takes in of a text that ends at `line`.
abbrev pub taken : List ℕ → ℕ → List ℕ → Output
taken [] room line = output [] room line
taken (c ∷ text) zero line = full
taken (c ∷ text) (suc room) line = with_byte c (taken text room line)

module _ (strtol : List ℕ → ℕ → ℕ × List ℕ) where
  plain_byte :
      (fuel quote room c : ℕ) (line : List ℕ)
      → is_plain c ≡ true
      → word strtol (suc fuel) quote room (c ∷ line)
        ≡ push room c (λ room. word strtol fuel quote room line)
  unfolding word
  plain_byte fuel quote room c line plain =
      rw
        (
          ==_false c 34 (ground arith),
          ==_false c 39 (ground arith),
          ==_false c 92 (ground arith),
          ==_false c 32 (ground arith),
          ==_false c 9 (ground arith),
        )
        refl

  word_end :
      (line : List ℕ) (fuel room : ℕ)
      → (line ≡ []) ⊎ ((first line ≡ 32) ⊎ (first line ≡ 9))
      → word strtol (suc fuel) 0 room line ≡ output [] room line
  unfolding word
  word_end [] fuel room ends = refl
  word_end (c ∷ line) fuel room (inl e) = cc
  word_end (c ∷ line) fuel room (inr (inl e)) = rw e refl
  word_end (c ∷ line) fuel room (inr (inr e)) = rw e refl

  -- Outside quotes a word reaches up to the first blank or the end of the line, and stands in the buffer as
  -- it is, or the buffer has no room for it.
  pub word-taken :
      (text line : List ℕ) (fuel room : ℕ)
      → IsPlain text
      → length text < fuel
      → (line ≡ []) ⊎ ((first line ≡ 32) ⊎ (first line ≡ 9))
      → word strtol fuel 0 room (text ++ line) ≡ taken text room line
  word-taken text line zero room plain enough ends = ground arith
  word-taken [] line (suc fuel) room plain enough ends = word_end line fuel room ends
  word-taken (c ∷ text) line (suc fuel) zero (here, plain) enough ends =
      plain_byte fuel 0 zero c (text ++ line) here
  word-taken (c ∷ text) line (suc fuel) (suc room) (here, plain) enough ends =
      plain_byte fuel 0 (suc room) c (text ++ line) here
      ∙ ap (with_byte c) (word-taken text line fuel room plain (omega arith) ends)

  -- Behind a backslash, the letter n puts a line feed into the word and is then read again, as a letter.
  pub word_escaped :
      (fuel quote room : ℕ) (line : List ℕ)
      → word strtol (suc (suc fuel)) quote (suc (suc room)) (92 ∷ 110 ∷ line)
        ≡ with_byte 10 (with_byte 110 (word strtol fuel quote room line))
  unfolding word escape
  word_escaped fuel quote room line = refl

-- No dollar sign and no backslash.
abbrev pub IsFixed : List ℕ → Type 0
IsFixed [] = Unit
IsFixed (c ∷ text) = ((c == 36) ≡ false) × ((c == 92) ≡ false) × IsFixed text

module _ (value_of : List ℕ → List ℕ) where
  -- The expansion of a line without dollar signs and backslashes is the line, if it fits in the buffer.
  pub expand-taken :
      (text : List ℕ) (fuel room : ℕ)
      → IsFixed text
      → length text < fuel
      → expand value_of fuel room text ≡ taken text room []
  unfolding expand
  expand-taken text zero room fixed enough = ground arith
  expand-taken [] (suc fuel) room fixed enough = refl
  expand-taken (c ∷ text) (suc fuel) zero (no_dollar, no_escape, fixed) enough =
      rw (no_escape, no_dollar) refl
  expand-taken (c ∷ text) (suc fuel) (suc room) (no_dollar, no_escape, fixed) enough =
      rw (no_escape, no_dollar, expand-taken text fuel room fixed (omega arith)) refl
