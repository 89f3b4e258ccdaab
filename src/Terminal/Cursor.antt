-- ===== src/Terminal/Cursor.antt =====
-- vellum/device/char/ansiterm.c: the handlers of the escape sequences that move, save or show the cursor.
use sscc_oslecture.Base.{if◌then◌else◌, add32, sub32, ℕ}
use sscc_oslecture.Terminal.{
  plain, ConsoleInterface, Action, ◌>>=◌, ◌>>◌, slt, smaller, minus_one, get_data, set_data,
  set_state, asked, told, arg_or,
}

module _ {S : Type 0} (con : ConsoleInterface S) where
  unfoldable pub handle_cuu : Action S (Unit {0})
  handle_cuu = do
    (x, y) ← asked con.get_cursor_pos
    count ← arg_or 0 1
    set_state plain
    told (con.set_cursor_pos minus_one (sub32 y (smaller count y)))

  unfoldable pub handle_cud : Action S (Unit {0})
  handle_cud = do
    (x, y) ← asked con.get_cursor_pos
    (width, height) ← asked con.get_dimension
    count ← arg_or 0 1
    set_state plain
    told (con.set_cursor_pos minus_one (add32 y (smaller count (sub32 height y))))

  unfoldable pub handle_cuf : Action S (Unit {0})
  handle_cuf = do
    (x, y) ← asked con.get_cursor_pos
    (width, height) ← asked con.get_dimension
    count ← arg_or 0 1
    set_state plain
    told (con.set_cursor_pos (add32 x (smaller count (sub32 width x))) minus_one)

  unfoldable pub handle_cub : Action S (Unit {0})
  handle_cub = do
    (x, y) ← asked con.get_cursor_pos
    count ← arg_or 0 1
    set_state plain
    told (con.set_cursor_pos (sub32 x (smaller count x)) minus_one)

  unfoldable pub handle_cnl : Action S (Unit {0})
  handle_cnl = do
    (x, y) ← asked con.get_cursor_pos
    (width, height) ← asked con.get_dimension
    count ← arg_or 0 1
    set_state plain
    told (con.set_cursor_pos 0 (add32 y (smaller count (sub32 height y))))

  unfoldable pub handle_cpl : Action S (Unit {0})
  handle_cpl = do
    (x, y) ← asked con.get_cursor_pos
    count ← arg_or 0 1
    set_state plain
    told (con.set_cursor_pos 0 (sub32 y (smaller count y)))

  -- `x - 1`, and 0 instead of what is negative.
  abbrev pub from_one : ℕ → ℕ
  from_one x = if slt (sub32 x 1) 0 then 0 else sub32 x 1

  unfoldable pub handle_cha : Action S (Unit {0})
  handle_cha = do
    (x, y) ← asked con.get_cursor_pos
    place ← arg_or 0 1
    set_state plain
    told (con.set_cursor_pos (from_one place) minus_one)

  unfoldable pub handle_cup_hvp : Action S (Unit {0})
  handle_cup_hvp = do
    (x, y) ← asked con.get_cursor_pos
    ypos ← arg_or 0 1
    xpos ← arg_or 1 1
    set_state plain
    told (con.set_cursor_pos (from_one xpos) (from_one ypos))

  unfoldable pub handle_scosc : Action S (Unit {0})
  handle_scosc = do
    (x, y) ← asked con.get_cursor_pos
    d ← get_data
    set_data (record d { saved_cursor_x = x; saved_cursor_y = y; escape_seq_state = plain })

  unfoldable pub handle_scorc : Action S (Unit {0})
  handle_scorc = do
    d ← get_data
    told (con.set_cursor_pos d.saved_cursor_x d.saved_cursor_y)
    set_state plain

  -- handle_dectcem_show and handle_dectcem_hide
  unfoldable pub handle_dectcem : ℕ → Action S (Unit {0})
  handle_dectcem visible = do told (con.set_cursor_visibility visible); set_state plain
