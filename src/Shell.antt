-- ===== src/Shell.antt =====
-- vellum/shell/parse.c: the expansion of variables in a line, and the words of a line. A line is the list
-- of its bytes, a pointer into it the list of the bytes from there on.
pub mod Words
pub mod Variables
pub mod Complete
mod Tests
use sscc_oslecture.Base.{
  ltb, leb, ◌==◌, if◌then◌else◌, ℕ, zero, suc, Bool, ◌&&◌, ◌||◌, List, [], ◌∷◌,
}
use sscc_oslecture.Libc.Strings.{first, rest}
use sscc_oslecture.Libc.Ctype.{isalnum}

-- What a function pushes into a buffer: the bytes, the room that is left, and the rest of the line. `full`
-- is the return from PUSH_CHAR or PUSH_CHAR_E when the buffer has no room.
pub data Output : Type 0 where
  out_of_fuel : Output
  full : Output
  output : List ℕ → ℕ → List ℕ → Output

abbrev pub with_byte : ℕ → Output → Output
with_byte c out_of_fuel = out_of_fuel
with_byte c full = full
with_byte c (output text room line) = output (c ∷ text) room line

-- PUSH_CHAR and PUSH_CHAR_E
abbrev pub push : ℕ → ℕ → (ℕ → Output) → Output
push zero c k = full
push (suc room) c k = with_byte c (k room)

abbrev pub push_all : List ℕ → ℕ → (ℕ → Output) → Output
push_all [] room k = k room
push_all (c ∷ text) room k = push room c (λ room. push_all text room k)

-- The name of a variable, of at most `room` bytes, and the line behind it.
unfoldable pub variable_name : ℕ → List ℕ → List ℕ × List ℕ
variable_name zero line = ([], line)
variable_name (suc room) [] = ([], [])
variable_name (suc room) (c ∷ line) =
    let (name, behind) = variable_name room line in
    if isalnum c || c == 95 then (c ∷ name, behind) else ([], c ∷ line)

-- VlShell_Expand; `value_of` is the value that VlShell_GetVariable finds, or none.
module _ (value_of : List ℕ → List ℕ) where
  unfoldable pub expand : ℕ → ℕ → List ℕ → Output
  expand zero room line = out_of_fuel
  expand (suc fuel) room [] = output [] room []
  expand (suc fuel) room (c ∷ line) =
      if c == 92 && first line == 36
      then push room 36 (λ room. expand fuel room (rest line))
      else if c == 36
      then (let (name, behind) = variable_name 63 line in
          push_all (value_of name) room (λ room. expand fuel room behind))
      else push room c (λ room. expand fuel room line)

-- The letters a, b, e, f, n, r, t and v behind a backslash, and 0 for any other byte.
abbrev pub control : ℕ → ℕ
control c =
    if c == 97
    then 7
    else if c == 98
    then 8
    else if c == 101
    then 27
    else if c == 102
    then 12
    else if c == 110
    then 10
    else if c == 114
    then 13
    else if c == 116
    then 9
    else if c == 118
    then 11
    else 0

-- \ ' " ? and the blanks
abbrev pub is_literal : ℕ → Bool
is_literal c = c == 92 || c == 39 || c == 34 || c == 63 || c == 32 || c == 9

abbrev pub skip_blanks : List ℕ → List ℕ
skip_blanks [] = []
skip_blanks (c ∷ line) = if c == 32 || c == 9 then skip_blanks line else c ∷ line

-- `strtol` yields the number at the start of a line in the given base, as a byte, and the line behind it.
module _ (strtol : List ℕ → ℕ → ℕ × List ℕ) where
  -- The switch on the byte behind a backslash. A letter for a control character is not passed over.
  unfoldable pub escape : ℕ → List ℕ → (ℕ → List ℕ → Output) → Output
  escape room line k =
      let c = first line in
      if is_literal c
      then push room c (λ room. k room (rest line))
      else if ltb 0 (control c)
      then push room (control c) (λ room. k room line)
      else if leb 48 c && leb c 55
      then (let (byte, behind) = strtol line 8 in push room byte (λ room. k room behind))
      else if c == 120
      then (let (byte, behind) = strtol (rest line) 16 in push room byte (λ room. k room behind))
      else k room line

  -- The loop of VlShell_Parse; `quote` is `quote_char`.
  unfoldable pub word : ℕ → ℕ → ℕ → List ℕ → Output
  word zero quote room line = out_of_fuel
  word (suc fuel) quote room [] = output [] room []
  word (suc fuel) quote room (c ∷ line) =
      if c == 34 || c == 39
      then word fuel (if quote == c then 0 else c) room line
      else if c == 92
      then escape room line (word fuel quote)
      else if c == 32 || c == 9
      then (if quote == 0
          then output [] room (c ∷ line)
          else push room c (λ room. word fuel quote room line))
      else push room c (λ room. word fuel quote room line)

  unfoldable pub word_at : ℕ → ℕ → List ℕ → Output
  word_at fuel room [] = full
  word_at fuel room (c ∷ line) = word fuel 0 room (c ∷ line)

  -- VlShell_Parse, which yields NULL, here `full`, also when only blanks are left. Where the buffer has room
  -- behind the word, it writes a 0 there.
  unfoldable pub parse_word : ℕ → ℕ → List ℕ → Output
  parse_word fuel room line = word_at fuel room (skip_blanks line)
