-- ===== src/Terminal/Output.antt =====
-- vellum/device/char/ansiterm.c: put_char, write and wwrite. wcwidth is a parameter, with the pattern of its
-- result.
use sscc_oslecture.Base.{
  ◌==◌, if◌then◌else◌, length, word_mod, add32, sub32, ℕ, ◌+◌, ◌*◌, ◌%◌, ◌&&◌, ◌||◌, List, [], ◌∷◌,
}
use sscc_oslecture.Terminal.{
  EscapeState, plain, esc, ConsoleInterface, Action, ◌>>=◌, ◌>>◌, done, slt, div8, set_state, asked,
  told,
}
use sscc_oslecture.Terminal.Drawing.{
  console_backspace, console_erase, console_scroll, console_putchar,
}
use sscc_oslecture.Terminal.Escape.{escaped}

module _ {S : Type 0} (con : ConsoleInterface S) where
  -- The row below `y`, for which the screen scrolls when there is none.
  unfoldable pub next_row : ℕ → ℕ → ℕ → Action S ℕ
  next_row y width height =
      if slt (add32 y 1) height
      then done (add32 y 1)
      else (do console_scroll con 1 0 0 (sub32 width 1) (sub32 height 1); done (sub32 height 1))

  -- The start of the next row, when the column `x` is behind the right margin.
  unfoldable pub wrapped : ℕ → ℕ → ℕ → ℕ → Action S (ℕ × ℕ)
  wrapped x y width height =
      if slt x width then done (x, y) else (do row ← next_row y width height; done (0, row))

  unfoldable pub backspace : ℕ → ℕ → Action S (ℕ × ℕ)
  backspace x y = do column ← console_backspace con x; done (column, y)

  unfoldable pub tabulator : ℕ → ℕ → ℕ → ℕ → Action S (ℕ × ℕ)
  tabulator x y width height = do
    let stop = (div8 x + 1) * 8 % word_mod
    console_erase con x y stop y
    wrapped stop y width height

  unfoldable pub line_feed : ℕ → ℕ → ℕ → ℕ → Action S (ℕ × ℕ)
  line_feed x y width height = do row ← next_row y width height; done (x, row)

module _ {S : Type 0} (wcwidth : ℕ → ℕ) (con : ConsoleInterface S) where
  -- A wide character that does not fit behind the cursor goes to the next row.
  unfoldable pub make_room : ℕ → ℕ → ℕ → ℕ → ℕ → Action S (ℕ × ℕ)
  make_room ch x y width height =
      if slt 1 (wcwidth ch) && slt width (add32 x (wcwidth ch))
      then (do row ← next_row con y width height; told (con.set_cursor_pos 0 row); done (0, row))
      else done (x, y)

  unfoldable pub printed : ℕ → ℕ → ℕ → ℕ → ℕ → Action S (ℕ × ℕ)
  printed ch x y width height = if slt ch 32 then done (x, y) else (do
    place ← make_room ch x y width height
    console_putchar con wcwidth ch
    wrapped con (add32 (place.0) (wcwidth ch)) (place.1) width height)

  -- The switch of put_char, with the place of the cursor behind it.
  unfoldable pub put_at : ℕ → ℕ → ℕ → ℕ → ℕ → Action S (ℕ × ℕ)
  put_at ch x y width height =
      if ch == 7 || ch == 12
      then done (x, y)
      else if ch == 8
      then backspace con x y
      else if ch == 9
      then tabulator con x y width height
      else if ch == 10
      then line_feed con 0 y width height
      else if ch == 11
      then line_feed con x y width height
      else if ch == 13
      then done (0, y)
      else if ch == 27
      then (do set_state esc; done (x, y))
      else printed ch x y width height

  -- put_char outside of an escape sequence.
  unfoldable pub put_plain : ℕ → Action S (Unit {0})
  put_plain ch = do
    (x, y) ← asked con.get_cursor_pos
    (width, height) ← asked con.get_dimension
    place ← put_at ch x y width height
    told (con.set_cursor_pos (place.0) (place.1))

  module _ (outside : ℕ → ℕ) where
    -- put_char, by the state.
    unfoldable pub put_in : EscapeState → ℕ → Action S (Unit {0})
    put_in plain ch = put_plain ch
    put_in state ch = escaped outside con state ch

    unfoldable pub put_char : ℕ → Action S (Unit {0})
    put_char ch t = put_in t.data_.escape_seq_state ch t

    -- The loop of wwrite.
    unfoldable pub put_chars : List ℕ → Action S (Unit {0})
    put_chars [] = done tt
    put_chars (ch ∷ chs) = do put_char ch; put_chars chs

    unfoldable pub wwrite : List ℕ → Action S ℕ
    wwrite chs = do put_chars chs; told con.flush; done (length chs)
