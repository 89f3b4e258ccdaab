-- ===== src/Json/Scan.antt =====
-- The scanners of vellum/json/json.c: white space, string literals, numbers and the three words.
-- `malloc` tells whether a call succeeds, by its number and size; `str` is the text and the memory behind
-- it, `len` its length.
use sscc_oslecture.Base.{
  leb, ◌==◌, if◌then◌else◌, length, ℕ, zero, suc, ◌+◌, ◌-◌, ◌*◌, ◌%◌, ◌^◌, Bool, true, false, not,
  ◌&&◌, ◌||◌, List, [], ◌∷◌,
}
use sscc_oslecture.Status.{Status}
use sscc_oslecture.Libc.Ctype.{isdigit, isspace}
use sscc_oslecture.Json.{
  Json, null, string, number, boolean, State, Run, out_of_fuel, failed, done, bind,
}

abbrev pub moved : State → ℕ → State
moved s n = record { cursor = s.cursor + n; calls = s.calls }

-- `if (++state->cursor >= state->len)` with the failure and what follows.
abbrev pub step {ℓ} : {A : Type ℓ} → ℕ → State → Status → (State → Run A) → Run A
step len s e k = if leb len (s.cursor + 1) then failed e else k (moved s 1)

-- `malloc(size)` with its failure and what follows.
abbrev pub alloc {ℓ} : {A : Type ℓ} → (ℕ → ℕ → Bool) → State → ℕ → (State → Run A) → Run A
alloc malloc s size k =
    if malloc s.calls size
    then k (record { cursor = s.cursor; calls = suc s.calls })
    else failed Status.unknown_error

-- The size of struct json_value, and of the elements of both lists.
abbrev pub value_size : ℕ
value_size = 12

module _ (str : ℕ → ℕ) where
  -- `left` bytes of the text are left from the cursor on.
  unfoldable pub skip : ℕ → ℕ → ℕ
  skip zero cursor = cursor
  skip (suc left) cursor = if isspace (str cursor) then skip left (suc cursor) else cursor

  unfoldable pub digits : ℕ → ℕ → State → Run ℕ
  digits zero num s = out_of_fuel
  digits (suc fuel) num s =
      if isdigit (str s.cursor)
      then digits fuel ((num * 10 + str s.cursor - 48) % 2 ^ 64) (moved s 1)
      else done num s

module _ (str : ℕ → ℕ) (len : ℕ) where
  abbrev pub skip_whitespace : State → State
  skip_whitespace s = record { cursor = skip str (len - s.cursor) s.cursor; calls = s.calls }

  -- count_escaped_string_len, with as much fuel as bytes are left.
  unfoldable pub count_escaped : ℕ → ℕ → ℕ
  count_escaped zero cursor = 0
  count_escaped (suc fuel) cursor =
      if leb len cursor
      then 0
      else if str cursor == 92
      then suc (count_escaped fuel (cursor + 2))
      else if str cursor == 34
      then 0
      else suc (count_escaped fuel (cursor + 1))

  -- The loop of parse_string_literal.
  unfoldable pub literal : ℕ → State → Run (List ℕ)
  literal zero s = out_of_fuel
  literal (suc fuel) s =
      let c = str s.cursor in
      if c == 92
      then step len s Status.invalid_syntax (λ s. step len s Status.invalid_syntax (literal fuel))
      else if c == 34
      then step len s Status.invalid_syntax (done [])
      else step len s Status.invalid_syntax (λ s. bind (literal fuel s) (λ text. done (c ∷ text)))

  -- The bytes that the loop has stored in the buffer when it ends, also with a failure.
  unfoldable pub stored : ℕ → ℕ → List ℕ
  stored zero cursor = []
  stored (suc fuel) cursor =
      let past_escape = stored fuel (cursor + 2) in
      let past_byte = stored fuel (cursor + 1) in
      if str cursor == 92
      then (if leb len (cursor + 1) || leb len (cursor + 2) then [] else past_escape)
      else if str cursor == 34
      then []
      else str cursor ∷ (if leb len (cursor + 1) then [] else past_byte)

-- The word starts at the cursor: `strncmp(word, state->str + state->cursor, n) == 0`.
abbrev pub stands_at : List ℕ → (ℕ → ℕ) → ℕ → Bool
stands_at [] str cursor = true
stands_at (c ∷ word) str cursor = c == str cursor && stands_at word str (suc cursor)

module _ (malloc : ℕ → ℕ → Bool) (str : ℕ → ℕ) (len : ℕ) where
  unfoldable pub parse_string_literal : ℕ → State → Run (List ℕ)
  parse_string_literal fuel s =
      let s = skip_whitespace str len s in
      if str s.cursor == 34
      then step len s Status.invalid_syntax (λ s.
        alloc malloc s (count_escaped str len (len - s.cursor) s.cursor + 1) (literal str len fuel))
      else failed Status.invalid_syntax

  unfoldable pub parse_string : ℕ → State → Run Json
  parse_string fuel s =
      if str s.cursor == 34
      then alloc malloc s value_size
          (λ s. bind (parse_string_literal fuel s) (λ text. done (string text)))
      else failed Status.invalid_syntax

  unfoldable pub parse_number : ℕ → State → Run Json
  parse_number fuel s =
      let s = skip_whitespace str len s in
      let minus = str s.cursor == 45 in
      if not (isdigit (str s.cursor)) && not minus
      then failed Status.invalid_syntax
      else if leb len (s.cursor + 1)
      then failed Status.invalid_syntax
      else alloc malloc s value_size (λ s.
        bind (digits str fuel 0 (if minus then moved s 1 else s))
          (λ num. done (number (if minus then (2 ^ 64 - num) % 2 ^ 64 else num))))

  -- A word of parse_other: as many bytes as it has and one more must be left.
  unfoldable pub parse_word : List ℕ → Json → State → Run Json
  parse_word word value s =
      if leb len (s.cursor + length word)
      then failed Status.invalid_syntax
      else if stands_at word str s.cursor
      then done value (moved s (length word))
      else failed Status.invalid_syntax

  unfoldable pub parse_other : State → Run Json
  parse_other s =
      let s = skip_whitespace str len s in
      let c = str s.cursor in
      alloc malloc s value_size (λ s.
        if c == 116
        then parse_word (116 ∷ 114 ∷ 117 ∷ 101 ∷ []) (boolean true) s
        else if c == 102
        then parse_word (102 ∷ 97 ∷ 108 ∷ 115 ∷ 101 ∷ []) (boolean false) s
        else if c == 110
        then parse_word (110 ∷ 117 ∷ 108 ∷ 108 ∷ []) null s
        else failed Status.invalid_syntax)
