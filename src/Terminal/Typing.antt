-- ===== src/Terminal/Typing.antt =====
-- Text without escape sequences and tabulators in vellum/device/char/ansiterm.c: put_char stays inside of the
-- screen.
use sscc_oslecture.Base.{
  ◌==◌, length, add32, ℕ, ◌≤◌, ◌<◌, ◌≡◌, refl, sym, ap, subst, Bool, true, false, ◌&&◌, ◌||◌, List,
  [], ◌∷◌, arith,
}
use sscc_oslecture.Terminal.{Cell, ConsoleInterface, Tty, slt, minus_one}
use sscc_oslecture.Terminal.Drawing.{second_half, console_putchar}
use sscc_oslecture.Terminal.Laws.{ConsoleLaws}
use sscc_oslecture.Terminal.Bounds.{update-IsInside}
use sscc_oslecture.Terminal.Sound.{
  IsSize, InScreen, IsSteady, Went, Goes, then-Goes, done-Goes, if-Goes, invalidate-Goes,
  flush-Goes, set_cursor-Goes, draw-Goes, with_dimension, with_cursor, with_buffer, with_data,
  in_turn,
}
use sscc_oslecture.Terminal.Inside.{next_row-Goes, wrapped-Goes, line_feed-Goes, backspace-Goes}
use sscc_oslecture.Status.{Result, ok, err}
use sscc_oslecture.Terminal.Output.{
  make_room, printed, put_at, put_plain, put_in, put_char, put_chars, wwrite,
}

-- A character that is neither a tabulator nor begins an escape sequence, and which takes two cells at most
-- when it is printed.
pub record IsTyped (wcwidth : ℕ → ℕ) (ch : ℕ) : Type 0 where
  pub no_tabulator : (ch == 9) ≡ false
  pub no_escape : (ch == 27) ≡ false
  pub narrow : slt ch 32 ≡ false → wcwidth ch ≤ 2

abbrev pub AreTyped : (ℕ → ℕ) → List ℕ → Type 0
AreTyped wcwidth [] = Unit
AreTyped wcwidth (ch ∷ chs) = IsTyped wcwidth ch × AreTyped wcwidth chs

second_fits :
    (b : Bool) (x w : ℕ) → (b && slt (add32 x 1) w) ≡ true → x < w → w < 2147483648 → add32 x 1 < w
second_fits true x w e left small = ground arith
second_fits false x w e left small = cc

module _ {S : Type 0} {con : ConsoleInterface S} (laws : ConsoleLaws con) (w h : ℕ)
    (size : IsSize w h) (behind : ℕ → Cell) (wcwidth : ℕ → ℕ) where
  putchar-Goes : (ch : ℕ) → Goes laws w h behind (λ _. Unit {0}) (console_putchar con wcwidth ch)
  unfolding console_putchar second_half
  putchar-Goes ch = with_cursor laws w h behind _ (λ x y left below.
      with_dimension laws w h behind _ (
        with_buffer laws w h behind (
          with_data laws w h behind (λ d.
            in_turn laws w h behind
              (draw-Goes laws w h behind _ (λ m inside.
                update-IsInside w h size.small size.wide.1 size.high.1 behind m y x
                  record { attr = d.attr_state; codepoint = ch } below left inside))
              (in_turn laws w h behind (invalidate-Goes laws w h behind x y x y) (
                if-Goes laws w h behind _
                  (λ e. with_data laws w h behind (λ d'.
                    in_turn laws w h behind
                      (draw-Goes laws w h behind _ (λ m inside.
                        update-IsInside w h size.small size.wide.1 size.high.1 behind m y
                          (add32 x 1) record { attr = d'.attr_state; codepoint = minus_one } below
                          (second_fits (slt 1 (wcwidth ch)) x w e left size.wide.1) inside))
                      (invalidate-Goes laws w h behind x y x y)))
                  (λ e. done-Goes laws w h behind tt _)))))))

  make_room-Goes :
      (ch x y : ℕ)
      → x < w
      → y < h
      → Goes laws w h behind (InScreen w h) (make_room wcwidth con ch x y w h)
  unfolding make_room
  make_room-Goes ch x y left below =
      if-Goes laws w h behind _
        (λ e.
          then-Goes laws w h behind (λ row. row < h) (next_row-Goes laws w h size behind y below)
            (λ row inside.
              in_turn laws w h behind
                (set_cursor-Goes laws w h behind size 0 row (omega (arith, size.wide)) inside)
                (done-Goes laws w h behind (0, row) (omega (arith, size.wide), inside))))
        (λ e. done-Goes laws w h behind (x, y) (left, below))

  printed-Goes :
      (ch x y : ℕ)
      → IsTyped wcwidth ch
      → x < w
      → y < h
      → Goes laws w h behind (InScreen w h) (printed wcwidth con ch x y w h)
  unfolding printed
  printed-Goes ch x y typed left below =
      if-Goes laws w h behind (slt ch 32) (λ e. done-Goes laws w h behind (x, y) (left, below))
        (λ e.
          then-Goes laws w h behind (InScreen w h) (make_room-Goes ch x y left below)
            (λ place inside. in_turn laws w h behind (putchar-Goes ch) (
              wrapped-Goes laws w h size behind (add32 (place.0) (wcwidth ch)) (place.1)
                (omega (arith, typed.narrow e, inside.0, size.room)) inside.1)))

  put_plain-Goes :
      (ch : ℕ)
      → IsTyped wcwidth ch
      → Goes laws w h behind (λ _. Unit {0}) (put_plain wcwidth con ch)
  unfolding put_plain put_at
  put_plain-Goes ch typed = with_cursor laws w h behind _ (λ x y left below.
      with_dimension laws w h behind _ (
        then-Goes laws w h behind (InScreen w h)
          (if-Goes laws w h behind (ch == 7 || ch == 12)
            (λ e. done-Goes laws w h behind (x, y) (left, below))
            (λ e.
              if-Goes laws w h behind (ch == 8)
                (λ e. backspace-Goes laws w h size behind x y left below)
                (λ e.
                  if-Goes laws w h behind (ch == 9) (λ e. absurd (tab ch typed e))
                    (λ e.
                      if-Goes laws w h behind (ch == 10)
                        (λ e.
                          line_feed-Goes laws w h size behind 0 y (omega (arith, size.wide)) below)
                        (λ e.
                          if-Goes laws w h behind (ch == 11)
                            (λ e. line_feed-Goes laws w h size behind x y left below)
                            (λ e.
                              if-Goes laws w h behind (ch == 13)
                                (λ e.
                                  done-Goes laws w h behind (0, y)
                                    (omega (arith, size.wide), below))
                                (λ e.
                                  if-Goes laws w h behind (ch == 27)
                                    (λ e. absurd (escape ch typed e))
                                    (λ e. printed-Goes ch x y typed left below))))))))
          (λ place inside.
            set_cursor-Goes laws w h behind size (place.0) (place.1) inside.0 inside.1)))
    where
      tab : (ch : ℕ) → IsTyped wcwidth ch → (ch == 9) ≡ true → ⊥
      tab ch typed e = let no = typed.no_tabulator in cc

      escape : (ch : ℕ) → IsTyped wcwidth ch → (ch == 27) ≡ true → ⊥
      escape ch typed e = let no = typed.no_escape in cc

  module _ (outside : ℕ → ℕ) where
    put_char-Went :
        (ch : ℕ) (t : Tty S)
        → IsTyped wcwidth ch
        → IsSteady laws w h behind t
        → Went laws w h behind (λ _. Unit {0}) (put_char wcwidth con outside ch t)
    unfolding put_char put_in
    put_char-Went ch t typed steady =
        subst
          (λ state. Went laws w h behind (λ _. Unit {0}) (put_in wcwidth con outside state ch t))
          (sym steady.calm) ((put_plain-Goes ch typed).go t steady)

    put_chars-Goes :
        (chs : List ℕ)
        → AreTyped wcwidth chs
        → Goes laws w h behind (λ _. Unit {0}) (put_chars wcwidth con outside chs)
    unfolding put_chars
    put_chars-Goes [] typed = done-Goes laws w h behind tt _
    put_chars-Goes (ch ∷ chs) (typed, later) =
        in_turn laws w h behind record { go = λ t steady. put_char-Went ch t typed steady }
          (put_chars-Goes chs later)

-- A run that has succeeded.
ok-Went :
    {S A : Type 0} {con : ConsoleInterface S} (laws : ConsoleLaws con) (w h : ℕ) (behind : ℕ → Cell)
    (b : A) (o : Result A × Tty S)
    → Went laws w h behind (λ a. a ≡ b) o
    → (o.0 ≡ ok b) × IsSteady laws w h behind (o.1)
unfolding Went
ok-Went laws w h behind b (ok a, t) (e, steady) = (ap ok e, steady)
ok-Went laws w h behind b (err e, t) impossible = absurd impossible

-- Outside an escape sequence, on a console that follows the laws, and is ready, of a size whose cells an int counts, wwrite of characters
-- that are no tabulators, begin no escape sequence and take two cells at most succeeds with their count, the
-- cursor is inside of the screen afterwards if it was before, and the memory behind the cells of the screen
-- is as it was.
pub wwrite-IsSteady :
    {S : Type 0} {con : ConsoleInterface S} (laws : ConsoleLaws con) (w h : ℕ) (behind : ℕ → Cell)
    (wcwidth outside : ℕ → ℕ) (chs : List ℕ) (t : Tty S)
    → IsSize w h
    → AreTyped wcwidth chs
    → IsSteady laws w h behind t
    → let o = wwrite wcwidth con outside chs t in
      (o.0 ≡ ok (length chs)) × IsSteady laws w h behind (o.1)
unfolding wwrite
wwrite-IsSteady laws w h behind wcwidth outside chs t size typed steady =
    ok-Went laws w h behind (length chs) _ (
      (in_turn laws w h behind (put_chars-Goes laws w h size behind wcwidth outside chs typed) (
          in_turn laws w h behind (flush-Goes laws w h behind)
            (done-Goes laws w h behind (length chs) refl))).go
        t steady)
