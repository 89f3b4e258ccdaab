-- ===== src/Terminal/Erasing.antt =====
-- vellum/device/char/ansiterm.c: the handlers of the escape sequences that erase and scroll.
use sscc_oslecture.Base.{◌==◌, if◌then◌else◌, add32, sub32, ℕ, ◌||◌}
use sscc_oslecture.Terminal.{
  plain, ConsoleInterface, Action, ◌>>=◌, ◌>>◌, done, slt, neg32, set_state, asked, arg_or,
}
use sscc_oslecture.Terminal.Drawing.{console_erase, console_scroll}

module _ {S : Type 0} (con : ConsoleInterface S) where
  -- The cases of the options of handle_ed. The tests of the second and third are the source's.
  unfoldable pub erase_display : ℕ → ℕ → ℕ → ℕ → ℕ → Action S (Unit {0})
  erase_display option x y width height =
      if option == 0
      then (do
        console_erase con x y (sub32 width 1) y
        if slt y (sub32 height 1)
            then done tt
            else console_erase con 0 (add32 y 1) (sub32 width 1) (sub32 height 1))
      else if option == 1
      then (do
        console_erase con 0 y x y
        if slt 0 x then done tt else console_erase con 0 0 (sub32 width 1) (sub32 y 1))
      else if option == 2 || option == 3
      then console_erase con 0 0 (sub32 width 1) (sub32 height 1)
      else done tt

  unfoldable pub handle_ed : Action S (Unit {0})
  handle_ed = do
    (x, y) ← asked con.get_cursor_pos
    (width, height) ← asked con.get_dimension
    option ← arg_or 0 0
    erase_display option x y width height
    set_state plain

  -- The cases of the options of handle_el.
  unfoldable pub erase_line : ℕ → ℕ → ℕ → ℕ → Action S (Unit {0})
  erase_line option x y width =
      if option == 0
      then console_erase con x y (sub32 width 1) y
      else if option == 1
      then console_erase con 0 y x y
      else if option == 2
      then console_erase con 0 y (sub32 width 1) y
      else done tt

  unfoldable pub handle_el : Action S (Unit {0})
  handle_el = do
    (x, y) ← asked con.get_cursor_pos
    (width, height) ← asked con.get_dimension
    option ← arg_or 0 0
    erase_line option x y width
    set_state plain

  unfoldable pub handle_su : Action S (Unit {0})
  handle_su = do
    (width, height) ← asked con.get_dimension
    amount ← arg_or 0 1
    console_scroll con amount 0 0 (sub32 width 1) (sub32 height 1)
    set_state plain

  unfoldable pub handle_sd : Action S (Unit {0})
  handle_sd = do
    (width, height) ← asked con.get_dimension
    amount ← arg_or 0 1
    console_scroll con (neg32 amount) 0 0 (sub32 width 1) (sub32 height 1)
    set_state plain
