-- ===== src/Terminal/Laws.antt =====
-- What vellum/device/char/ansiterm.c relies on of a console in vellum/include/vellum/interface/console.h.
use sscc_oslecture.Base.{ℕ, ◌<◌, ◌≡◌}
use sscc_oslecture.Status.{Result, ok}
use sscc_oslecture.Terminal.{Cell, ConsoleInterface}

-- What a console shows: its size, the place of the cursor and its cells.
pub record Screen : Type 0 where
  pub width : ℕ
  pub height : ℕ
  pub col : ℕ
  pub row : ℕ
  pub cells : ℕ → Cell

-- An order has succeeded, and left a console that is ready and shows a screen.
pub record Shows {S : Type 0} (IsReady : S → Type 0) (view : S → Screen) (screen : Screen)
    (o : Result (Unit {0}) × S) : Type 0 where
  pub succeeds : o.0 ≡ ok tt
  pub ready : IsReady (o.1)
  pub shown : view (o.1) ≡ screen

-- The operations on a console that is ready. A cursor is only set to coordinates that are not negative.
pub record ConsoleLaws {S : Type 0} (con : ConsoleInterface S) : Type 1 where
  pub IsReady : S → Type 0
  pub view : S → Screen
  pub get_dimension_lem :
      (s : S) → IsReady s → con.get_dimension s ≡ ok ((view s).width, (view s).height)
  pub get_buffer_lem : (s : S) → IsReady s → con.get_buffer s ≡ ok tt
  pub get_cursor_pos_lem :
      (s : S) → IsReady s → con.get_cursor_pos s ≡ ok ((view s).col, (view s).row)
  pub cells_lem : (s : S) → IsReady s → con.cells s ≡ (view s).cells
  pub with_cells_ready : (s : S) (m : ℕ → Cell) → IsReady s → IsReady (con.with_cells s m)
  pub with_cells_lem :
      (s : S) (m : ℕ → Cell) → IsReady s → view (con.with_cells s m) ≡ record (view s) { cells = m }
  pub invalidate_lem :
      (x0 y0 x1 y1 : ℕ) (s : S)
      → IsReady s
      → Shows IsReady view (view s) (con.invalidate x0 y0 x1 y1 s)
  pub flush_lem : (s : S) → IsReady s → Shows IsReady view (view s) (con.flush s)
  pub set_cursor_pos_lem :
      (x y : ℕ) (s : S)
      → x < 2147483648
      → y < 2147483648
      → IsReady s
      → Shows IsReady view (record (view s) { col = x; row = y }) (con.set_cursor_pos x y s)
