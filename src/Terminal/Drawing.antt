-- ===== src/Terminal/Drawing.antt =====
-- vellum/device/char/ansiterm.c: console_backspace, console_erase, console_scroll and console_putchar.
use sscc_oslecture.Base.{
  ◌==◌, if◌then◌else◌, word_mod, add32, sub32, update, ℕ, zero, suc, ◌+◌, ◌-◌, ◌*◌, ◌%◌, ◌&&◌,
}
use sscc_oslecture.Status.{ok}
use sscc_oslecture.Terminal.{
  Cell, ConsoleInterface, Action, ◌>>=◌, ◌>>◌, done, slt, neg32, minus_one, get_data, asked, told,
}

-- The rounds of `for (i = lo; i <= hi; i++)`.
abbrev pub rounds : ℕ → ℕ → ℕ
rounds lo hi = if slt hi lo then 0 else sub32 hi lo + 1

-- `y * width + x`
abbrev pub index : ℕ → ℕ → ℕ → ℕ
index width y x = add32 (y * width % word_mod) x

-- The inner loop of console_erase.
unfoldable pub erase_row : Cell → ℕ → ℕ → ℕ → ℕ → (ℕ → Cell) → ℕ → Cell
erase_row blank width y x zero m = m
erase_row blank width y x (suc n) m =
    erase_row blank width y (add32 x 1) n (update m (index width y x) blank)

-- Both loops of console_erase, over `rows` rows of `columns` cells.
unfoldable pub erase_rows : Cell → ℕ → ℕ → ℕ → ℕ → ℕ → (ℕ → Cell) → ℕ → Cell
erase_rows blank width x y columns zero m = m
erase_rows blank width x y columns (suc rows) m =
    erase_rows blank width x (add32 y 1) columns rows (erase_row blank width y x columns m)

-- The inner loops of console_scroll: row `to` becomes row `from`.
unfoldable pub copy_row : ℕ → ℕ → ℕ → ℕ → ℕ → (ℕ → Cell) → ℕ → Cell
copy_row width to from x zero m = m
copy_row width to from x (suc n) m =
    copy_row width to from (add32 x 1) n (update m (index width to x) (m (index width from x)))

-- Its outer loop upward, for a positive amount.
unfoldable pub shift_up : ℕ → ℕ → ℕ → ℕ → ℕ → ℕ → (ℕ → Cell) → ℕ → Cell
shift_up width amount x y columns zero m = m
shift_up width amount x y columns (suc rows) m =
    shift_up width amount x (add32 y 1) columns rows (copy_row width y (add32 y amount) x columns m)

-- Its outer loop downward from `y`, for a negative one.
unfoldable pub shift_down : ℕ → ℕ → ℕ → ℕ → ℕ → ℕ → (ℕ → Cell) → ℕ → Cell
shift_down width amount x y columns zero m = m
shift_down width amount x y columns (suc rows) m =
    shift_down width amount x (sub32 y 1) columns rows
      (copy_row width (add32 y amount) y x columns m)

-- The loop of console_backspace, from `x` down to `low`.
unfoldable pub last_column : (ℕ → Cell) → ℕ → ℕ → ℕ → ℕ → ℕ → ℕ
last_column m width y low x zero = low
last_column m width y low x (suc n) =
    let further = last_column m width y low (sub32 x 1) n in
    if (m (index width y x)).codepoint == 0 then further else add32 x 1

-- The column that console_backspace stores, for a column of 1 or more.
unfoldable pub back_column : (ℕ → Cell) → ℕ → ℕ → ℕ → ℕ
back_column m width x y =
    let low = sub32 x 1 - sub32 x 1 % 8 in
    if (m (index width y (sub32 x 1))).codepoint == 0
    then last_column m width y low (sub32 x 2) (rounds low (sub32 x 2))
    else sub32 x 1

module _ {S : Type 0} (con : ConsoleInterface S) where
  -- Writing to the cells through the pointer from get_buffer.
  unfoldable pub draw : ((ℕ → Cell) → ℕ → Cell) → Action S (Unit {0})
  draw f t = (ok tt, record t { console = con.with_cells t.console (f (con.cells t.console)) })

  unfoldable pub look : {A : Type 0} → ((ℕ → Cell) → A) → Action S A
  look f t = (ok (f (con.cells t.console)), t)

  -- console_backspace, with the column that the caller has in what it stores to: at the left margin it stays.
  unfoldable pub console_backspace : ℕ → Action S ℕ
  console_backspace old = do
    (x, y) ← asked con.get_cursor_pos
    (width, height) ← asked con.get_dimension
    asked con.get_buffer
    look (λ m. if slt x 1 then old else back_column m width x y)

  -- console_erase
  unfoldable pub console_erase : ℕ → ℕ → ℕ → ℕ → Action S (Unit {0})
  console_erase x0 y0 x1 y1 = do
    (width, height) ← asked con.get_dimension
    asked con.get_buffer
    d ← get_data
    let blank : Cell = record { attr = d.attr_state; codepoint = 0 }
    draw (erase_rows blank width x0 y0 (rounds x0 x1) (rounds y0 y1))
    told (con.invalidate x0 y0 x1 y1)

  -- A call whose status is dropped.
  unfoldable pub ignored : Action S (Unit {0}) → Action S (Unit {0})
  ignored m t = (ok tt, (m t).1)

  -- console_scroll
  unfoldable pub console_scroll : ℕ → ℕ → ℕ → ℕ → ℕ → Action S (Unit {0})
  console_scroll amount x0 y0 x1 y1 = do
    (width, height) ← asked con.get_dimension
    asked con.get_buffer
    if amount == 0
        then done tt
        else if slt 0 amount
        then (do
          draw (shift_up width amount x0 y0 (rounds x0 x1) (rounds y0 (sub32 y1 amount)))
          ignored (console_erase x0 (add32 (sub32 y1 amount) 1) x1 y1)
          told (con.invalidate x0 y0 x1 y1))
        else (do
          let up = neg32 amount
          draw (shift_down width up x0 (sub32 y1 up) (rounds x0 x1) (rounds y0 (sub32 y1 up)))
          ignored (console_erase x0 y0 x1 (add32 y0 up))
          told (con.invalidate x0 y0 x1 y1))

  -- The second half of a wide character.
  unfoldable pub second_half : (ℕ → ℕ) → ℕ → ℕ → ℕ → ℕ → Action S (Unit {0})
  second_half wcwidth ch x y width =
      if slt 1 (wcwidth ch) && slt (add32 x 1) width
      then (do
        d ← get_data
        draw (λ m.
            update m (index width y (add32 x 1))
              record { attr = d.attr_state; codepoint = minus_one })
        told (con.invalidate x y x y))
      else done tt

  -- console_putchar
  unfoldable pub console_putchar : (ℕ → ℕ) → ℕ → Action S (Unit {0})
  console_putchar wcwidth ch = do
    (x, y) ← asked con.get_cursor_pos
    (width, height) ← asked con.get_dimension
    asked con.get_buffer
    d ← get_data
    draw (λ m. update m (index width y x) record { attr = d.attr_state; codepoint = ch })
    told (con.invalidate x y x y)
    second_half wcwidth ch x y width
