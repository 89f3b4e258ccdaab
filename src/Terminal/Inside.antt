-- ===== src/Terminal/Inside.antt =====
-- Erasing, scrolling and the next row in vellum/device/char/ansiterm.c stay inside of the screen.
use sscc_oslecture.Base.{
  if◌then◌else◌, Bool-cases, add32, sub32, ℕ, ◌+◌, ◌-◌, ◌≤◌, ◌<◌, ◌≡◌, inl, inr, arith,
}
use sscc_oslecture.Terminal.{Cell, ConsoleInterface, slt}
use sscc_oslecture.Terminal.Drawing.{
  rounds, back_column, console_backspace, console_erase, console_scroll,
}
use sscc_oslecture.Terminal.Laws.{ConsoleLaws}
use sscc_oslecture.Terminal.Sound.{
  IsPositive, IsSize, InScreen, Goes, then-Goes, done-Goes, if-Goes, invalidate-Goes, look-Goes,
  draw-Goes, ignored-Goes, with_dimension, with_cursor, with_buffer, with_data, in_turn,
}
use sscc_oslecture.Terminal.Output.{next_row, wrapped, backspace, line_feed}
use sscc_oslecture.Terminal.Bounds.{erase_rows-IsInside, shift_up-IsInside, back_column-lt}

module _ {S : Type 0} {con : ConsoleInterface S} (laws : ConsoleLaws con) (w h : ℕ)
    (size : IsSize w h) (behind : ℕ → Cell) where
  abbrev wide : w < 2147483648
  wide = size.wide.1

  abbrev high : h < 2147483648
  high = size.high.1

  -- A rectangle of the screen is erased.
  pub erase-Goes :
      (x0 y0 x1 y1 : ℕ)
      → x0 + rounds x0 x1 ≤ w
      → y0 + rounds y0 y1 ≤ h
      → Goes laws w h behind (λ _. Unit {0}) (console_erase con x0 y0 x1 y1)
  unfolding console_erase
  erase-Goes x0 y0 x1 y1 fits below = with_dimension laws w h behind _ (
      with_buffer laws w h behind (
        with_data laws w h behind (λ d.
          in_turn laws w h behind
            (draw-Goes laws w h behind _ (λ m inside.
              erase_rows-IsInside w h size.small wide high behind
                record { attr = d.attr_state; codepoint = 0 } x0 y0 (rounds x0 x1) (rounds y0 y1) m
                fits below inside))
            (invalidate-Goes laws w h behind x0 y0 x1 y1))))

  rounds_to : (n : ℕ) → IsPositive n → rounds 0 (sub32 n 1) ≡ n
  rounds_to n positive = ground arith

  rounds_up : (n : ℕ) → IsPositive n → rounds 0 (sub32 (sub32 n 1) 1) ≡ n - 1
  rounds_up n positive = ground arith

  -- The screen scrolls by a row.
  scroll-Goes :
      Goes laws w h behind (λ _. Unit {0}) (console_scroll con 1 0 0 (sub32 w 1) (sub32 h 1))
  unfolding console_scroll
  scroll-Goes =
      let last : add32 (sub32 (sub32 h 1) 1) 1 ≡ sub32 h 1 = omega (arith, size.high) in
      let one : rounds (sub32 h 1) (sub32 h 1) ≡ 1 = ground (arith, size.high) in
      with_dimension laws w h behind _ (
        with_buffer laws w h behind (
          in_turn laws w h behind
            (draw-Goes laws w h behind _ (λ m inside.
              shift_up-IsInside w h size.small wide high behind 1 0 0 (rounds 0 (sub32 w 1))
                (rounds 0 (sub32 (sub32 h 1) 1)) m (omega (arith, rounds_to w size.wide))
                (omega (arith, rounds_up h size.high)) inside))
            (in_turn laws w h behind
              (ignored-Goes laws w h behind (
                rw last (
                  erase-Goes 0 (sub32 h 1) (sub32 w 1) (sub32 h 1)
                    (omega (arith, rounds_to w size.wide)) (omega (arith, one, size.high)))))
              (invalidate-Goes laws w h behind 0 0 (sub32 w 1) (sub32 h 1)))))

  pub next_row-Goes : (y : ℕ) → y < h → Goes laws w h behind (λ row. row < h) (next_row con y w h)
  unfolding next_row
  next_row-Goes y below =
      if-Goes laws w h behind (slt (add32 y 1) h)
        (λ e. done-Goes laws w h behind (add32 y 1) (ground (arith, size.high)))
        (λ e.
          in_turn laws w h behind scroll-Goes
            (done-Goes laws w h behind (sub32 h 1) (omega (arith, size.high))))

  pub wrapped-Goes :
      (x y : ℕ) → x < 2147483648 → y < h → Goes laws w h behind (InScreen w h) (wrapped con x y w h)
  unfolding wrapped
  wrapped-Goes x y small below =
      if-Goes laws w h behind (slt x w)
        (λ e. done-Goes laws w h behind (x, y) (ground (arith, size.wide), below))
        (λ e.
          then-Goes laws w h behind (λ row. row < h) (next_row-Goes y below)
            (λ row inside. done-Goes laws w h behind (0, row) (omega (arith, size.wide), inside)))

  pub line_feed-Goes :
      (x y : ℕ) → x < w → y < h → Goes laws w h behind (InScreen w h) (line_feed con x y w h)
  unfolding line_feed
  line_feed-Goes x y left below =
      then-Goes laws w h behind (λ row. row < h) (next_row-Goes y below)
        (λ row inside. done-Goes laws w h behind (x, row) (left, inside))

  pub backspace-Goes :
      (x y : ℕ) → x < w → y < h → Goes laws w h behind (InScreen w h) (backspace con x y)
  unfolding backspace console_backspace
  backspace-Goes x y left below =
      then-Goes laws w h behind (λ column. column < w)
        (with_cursor laws w h behind _ (λ a b left_a below_b. with_dimension laws w h behind _ (
          with_buffer laws w h behind
            (look-Goes laws w h behind _ (λ m. back a b m x left left_a)))))
        (λ column inside. done-Goes laws w h behind (column, y) (inside, below))
    where
      back :
          (a b : ℕ) (m : ℕ → Cell) (x : ℕ)
          → x < w
          → a < w
          → (if slt a 1 then x else back_column m w a b) < w
      back a b m x left left_a = elim (Bool-cases (slt a 1)) [
        | inl e ↦ rw e left
        | inr e ↦ rw e (back_column-lt m w a b wide (ground (arith, size.wide)) left_a)
      ]
