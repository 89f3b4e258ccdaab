-- ===== src/Shell/Complete.antt =====
-- The fuel of VlShell_Parse of vellum/shell/parse.c.
use sscc_oslecture.Base.{
  ltb, leb, ◌==◌, if◌then◌else◌, length, ℕ, zero, suc, ◌≤◌, ◌<◌, Bool, true, false, ◌&&◌, ◌||◌,
  List, [], ◌∷◌, arith,
}
use sscc_oslecture.Libc.Strings.{first, rest}
use sscc_oslecture.Shell.{
  Output, out_of_fuel, full, output, with_byte, push, control, is_literal, skip_blanks, escape,
  word, word_at, parse_word,
}

-- The fuel was enough.
abbrev pub IsComplete : Output → Type 0
IsComplete out_of_fuel = ⊥
IsComplete full = Unit
IsComplete (output text room line) = Unit

IsComplete-with_byte : (c : ℕ) (o : Output) → IsComplete o → IsComplete (with_byte c o)
IsComplete-with_byte c out_of_fuel h = h
IsComplete-with_byte c full h = h
IsComplete-with_byte c (output text room line) h = h

IsComplete-push :
    (room c : ℕ) (k : ℕ → Output) → ((r : ℕ) → IsComplete (k r)) → IsComplete (push room c k)
IsComplete-push zero c k next = _
IsComplete-push (suc room) c k next = IsComplete-with_byte c (k room) (next room)

IsComplete-if :
    (b : Bool) (x y : Output) → IsComplete x → IsComplete y → IsComplete (if b then x else y)
IsComplete-if true x y hx hy = hx
IsComplete-if false x y hx hy = hy

length-rest : (line : List ℕ) → length (rest line) ≤ length line
length-rest [] = omega arith
length-rest (c ∷ line) = omega arith

length-skip_blanks : (line : List ℕ) → length (skip_blanks line) ≤ length line
length-skip_blanks [] = omega arith
length-skip_blanks (c ∷ line) = ground (arith, length-skip_blanks line)

module _ (strtol : List ℕ → ℕ → ℕ × List ℕ)
    (shorter : (line : List ℕ) (base : ℕ) → length (strtol line base).1 ≤ length line) where
  escape-IsComplete :
      (room : ℕ) (line : List ℕ) (k : ℕ → List ℕ → Output)
      → ((r : ℕ) (behind : List ℕ) → length behind ≤ length line → IsComplete (k r behind))
      → IsComplete (escape strtol room line k)
  unfolding escape
  escape-IsComplete room line k next =
      let c = first line in
      IsComplete-if (is_literal c) _ _
        (IsComplete-push room c (λ r. k r (rest line)) (λ r. next r (rest line) (length-rest line)))
        (IsComplete-if (ltb 0 (control c)) _ _
          (IsComplete-push room (control c) (λ r. k r line) (λ r. next r line (omega arith)))
          (IsComplete-if (leb 48 c && leb c 55) _ _
            (IsComplete-push room (strtol line 8).0 (λ r. k r (strtol line 8).1)
              (λ r. next r (strtol line 8).1 (shorter line 8)))
            (IsComplete-if (c == 120) _ _
              (IsComplete-push room (strtol (rest line) 16).0 (λ r. k r (strtol (rest line) 16).1)
                (λ r.
                  next r (strtol (rest line) 16).1
                    (omega (arith, shorter (rest line) 16, length-rest line))))
              (next room line (omega arith)))))

  word-IsComplete :
      (fuel quote room : ℕ) (line : List ℕ)
      → length line < fuel
      → IsComplete (word strtol fuel quote room line)
  unfolding word
  word-IsComplete zero quote room line enough = ground arith
  word-IsComplete (suc fuel) quote room [] enough = _
  word-IsComplete (suc fuel) quote room (c ∷ line) enough =
      IsComplete-if (c == 34 || c == 39) _ _
        (word-IsComplete fuel (if quote == c then 0 else c) room line (omega arith))
        (IsComplete-if (c == 92) _ _
          (escape-IsComplete room line (word strtol fuel quote)
            (λ r behind h. word-IsComplete fuel quote r behind (omega arith)))
          (IsComplete-if (c == 32 || c == 9) _ _
            (IsComplete-if (quote == 0) (output [] room (c ∷ line)) _ _ (
              IsComplete-push room c (λ r. word strtol fuel quote r line)
                (λ r. word-IsComplete fuel quote r line (omega arith))))
            (IsComplete-push room c (λ r. word strtol fuel quote r line)
              (λ r. word-IsComplete fuel quote r line (omega arith)))))

  -- VlShell_Parse ends on every line, with more fuel than the line has bytes, if strtol yields a part of the
  -- line that it is given.
  pub parse_word-IsComplete :
      (fuel room : ℕ) (line : List ℕ)
      → length line < fuel
      → IsComplete (parse_word strtol fuel room line)
  unfolding parse_word word_at
  parse_word-IsComplete fuel room line enough =
      started (skip_blanks line) (omega (arith, length-skip_blanks line))
    where
      started : (line : List ℕ) → length line < fuel → IsComplete (word_at strtol fuel room line)
      started [] h = _
      started (c ∷ line) h = word-IsComplete fuel 0 room (c ∷ line) h
