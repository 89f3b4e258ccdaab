-- ===== src/Terminal/Vconsole.antt =====
-- vellum/device/video/vconsole.c: the console on a frame buffer; in a text mode every operation is one of the console of the frame buffer's device.
use sscc_oslecture.Base.{
  ◌==◌, if◌then◌else◌, add32, sub32, update, ℕ, zero, suc, Bool, true, false, not, ◌&&◌, ◌||◌,
}
use sscc_oslecture.Status.{conflicting_state, Result, ok, err}
use sscc_oslecture.Terminal.{Cell, ConsoleInterface}
use sscc_oslecture.Terminal.Glyphs.{Framebuffer, draw_char, draw_cursor}
use sscc_oslecture.Terminal.Drawing.{rounds, index}

-- struct vconsole_data. `diff_buffer` is bit by bit: bit i is the bit i % 8 of byte i / 8.
pub record VconsoleData : Type 0 where
  pub is_switching_mode : Bool
  pub is_text : Bool
  pub vmode_width : ℕ
  pub cols : ℕ
  pub rows : ℕ
  pub cursor_col : ℕ
  pub cursor_row : ℕ
  pub cursor_prev_col : ℕ
  pub cursor_prev_row : ℕ
  pub cursor_visible : ℕ
  pub char_buffer : ℕ → Cell
  pub diff_buffer : ℕ → Bool

-- The console and the frame buffer's device.
pub record Vconsole (F : Type 0) : Type 0 where
  pub data_ : VconsoleData
  pub device : F

-- The loops of invalidate: the bits of a rectangle are set.
unfoldable pub mark_row : ℕ → ℕ → ℕ → ℕ → (ℕ → Bool) → ℕ → Bool
mark_row cols row col zero m = m
mark_row cols row col (suc n) m =
    mark_row cols row (add32 col 1) n (update m (index cols row col) true)

unfoldable pub mark_rows : ℕ → ℕ → ℕ → ℕ → ℕ → (ℕ → Bool) → ℕ → Bool
mark_rows cols col row columns zero m = m
mark_rows cols col row columns (suc n) m =
    mark_rows cols col (add32 row 1) columns n (mark_row cols row col columns m)

module _ {F : Type 0} (fb : Framebuffer F) where
  -- An order that is passed on.
  abbrev pub passed : Result (Unit {0}) × F → Vconsole F → Result (Unit {0}) × Vconsole F
  passed (result, device) v = (result, record v { device = device })

  unfoldable pub get_dimension : Vconsole F → Result (ℕ × ℕ)
  get_dimension v =
      if v.data_.is_text then fb.console.get_dimension v.device else ok (v.data_.cols, v.data_.rows)

  unfoldable pub get_buffer : Vconsole F → Result (Unit {0})
  get_buffer v = if v.data_.is_text then fb.console.get_buffer v.device else ok tt

  -- The cells behind the pointer that get_buffer stores.
  unfoldable pub cells : Vconsole F → ℕ → Cell
  cells v = if v.data_.is_text then fb.console.cells v.device else v.data_.char_buffer

  unfoldable pub with_cells : Vconsole F → (ℕ → Cell) → Vconsole F
  with_cells v m =
      if v.data_.is_text
      then record v { device = fb.console.with_cells v.device m }
      else record v { data_ = record v.data_ { char_buffer = m } }

  unfoldable pub invalidate : ℕ → ℕ → ℕ → ℕ → Vconsole F → Result (Unit {0}) × Vconsole F
  invalidate x0 y0 x1 y1 v =
      if v.data_.is_text
      then passed (fb.console.invalidate x0 y0 x1 y1 v.device) v
      else if v.data_.is_switching_mode
      then (err conflicting_state, v)
      else (
        ok tt,
        record v {
          data_ = record v.data_ {
            diff_buffer =
                mark_rows v.data_.cols x0 y0 (rounds x0 x1) (rounds y0 y1) v.data_.diff_buffer;
          };
        },
      )

  -- The cursor has moved since it was drawn.
  abbrev pub moved : VconsoleData → Bool
  moved d = not (d.cursor_prev_col == d.cursor_col) || not (d.cursor_prev_row == d.cursor_row)

  -- A cell of the loops of flush: one that has changed, or which the cursor has left.
  unfoldable pub refresh : ℕ → ℕ → Vconsole F → Vconsole F
  refresh row col v =
      let d = v.data_ in
      let i = index d.cols row col in
      if d.diff_buffer i || (moved d && (d.cursor_prev_col == col && d.cursor_prev_row == row))
      then record {
        data_ = record d { diff_buffer = update d.diff_buffer i false };
        device = (draw_char fb d.vmode_width (d.char_buffer i) col row v.device).1;
      }
      else v

  unfoldable pub refresh_row : ℕ → ℕ → ℕ → Vconsole F → Vconsole F
  refresh_row row col zero v = v
  refresh_row row col (suc n) v = refresh_row row (add32 col 1) n (refresh row col v)

  unfoldable pub refresh_rows : ℕ → ℕ → ℕ → Vconsole F → Vconsole F
  refresh_rows row columns zero v = v
  refresh_rows row columns (suc n) v =
      refresh_rows (add32 row 1) columns n (refresh_row row 0 columns v)

  -- The cursor is drawn where it has moved to.
  unfoldable pub refresh_cursor : Vconsole F → Vconsole F
  refresh_cursor v =
      let d = v.data_ in
      if moved d
      then record {
        data_ = record d { cursor_prev_col = d.cursor_col; cursor_prev_row = d.cursor_row };
        device =
            if d.cursor_visible == 0
            then v.device
            else (draw_cursor fb d.vmode_width d.cursor_col d.cursor_row v.device).1;
      }
      else v

  unfoldable pub flush : Vconsole F → Result (Unit {0}) × Vconsole F
  flush v =
      let d = v.data_ in
      let drawn =
        refresh_cursor (refresh_rows 0 (rounds 0 (sub32 d.cols 1)) (rounds 0 (sub32 d.rows 1)) v) in
      if d.is_text
      then passed (fb.console.flush v.device) v
      else if d.is_switching_mode
      then (err conflicting_state, v)
      else passed (fb.flush drawn.device) drawn

  unfoldable pub set_cursor_pos : ℕ → ℕ → Vconsole F → Result (Unit {0}) × Vconsole F
  set_cursor_pos col row v =
      if v.data_.is_text
      then passed (fb.console.set_cursor_pos col row v.device) v
      else (ok tt, record v { data_ = record v.data_ { cursor_col = col; cursor_row = row } })

  unfoldable pub get_cursor_pos : Vconsole F → Result (ℕ × ℕ)
  get_cursor_pos v =
      if v.data_.is_text
      then fb.console.get_cursor_pos v.device
      else ok (v.data_.cursor_col, v.data_.cursor_row)

  unfoldable pub set_cursor_visibility : ℕ → Vconsole F → Result (Unit {0}) × Vconsole F
  set_cursor_visibility visibility v =
      if v.data_.is_text
      then passed (fb.console.set_cursor_visibility visibility v.device) v
      else (ok tt, (flush (record v { data_ = record v.data_ { cursor_visible = visibility } })).1)

  unfoldable pub get_cursor_visibility : Vconsole F → Result ℕ
  get_cursor_visibility v =
      if v.data_.is_text
      then fb.console.get_cursor_visibility v.device
      else ok v.data_.cursor_visible

  -- conif
  abbrev pub conif : ConsoleInterface (Vconsole F)
  conif = record {
    get_dimension = get_dimension;
    get_buffer = get_buffer;
    cells = cells;
    with_cells = with_cells;
    invalidate = invalidate;
    flush = flush;
    set_cursor_pos = set_cursor_pos;
    get_cursor_pos = get_cursor_pos;
    set_cursor_visibility = set_cursor_visibility;
    get_cursor_visibility = get_cursor_visibility;
  }
