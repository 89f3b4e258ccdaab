-- ===== src/Terminal/Placing.antt =====
-- The escape sequence that places the cursor, from its first byte to its last, in
-- vellum/device/char/ansiterm.c.
use sscc_oslecture.Base.{
  ltb, if◌then◌else◌, sub32, ℕ, ◌-◌, ◌<◌, ◌≡◌, refl, ap, ap₂, ◌∙◌, false, List, [], ◌∷◌, arith,
}
use sscc_oslecture.Status.{ok}
use sscc_oslecture.Terminal.{
  plain, esc, csi, Terminal, ConsoleInterface, Tty, ◌>>=◌, ◌>>◌, done, slt, set_state, asked, told,
  arg_or,
}
use sscc_oslecture.Terminal.Cursor.{from_one, handle_cup_hvp}
use sscc_oslecture.Terminal.Escape.{introduced, after_esc, parameter, final, handle_csi, escaped}
use sscc_oslecture.Terminal.Output.{put_at, put_plain, put_in, put_char, put_chars}
use sscc_oslecture.Terminal.Laws.{Screen, ConsoleLaws}
use sscc_oslecture.Terminal.Reading.{
  Expects, put_parameter, put_chars_step, Reaches, numeral-Reaches,
}
use sscc_oslecture.Libc.Numbers.Numerals.{numeral, IsDigits, number}

-- A coordinate counted from one.
pub record IsPlace (n : ℕ) : Type 0 where
  pub from : 0 < n
  pub fits : n < 2147483648

module _ {S : Type 0} {con : ConsoleInterface S} (laws : ConsoleLaws con) where
  -- A terminal that takes text, on a console that works and whose cursor is not at a negative place.
  pub record IsIdle (t : Tty S) : Type 0 where
    pub ready : laws.IsReady t.console
    pub calm : t.data_.escape_seq_state ≡ plain
    pub col : (laws.view t.console).col < 2147483648
    pub row : (laws.view t.console).row < 2147483648

module _ {S : Type 0} {con : ConsoleInterface S} (laws : ConsoleLaws con)
    (wcwidth outside : ℕ → ℕ) where
  -- The terminal after the first byte, ESC.
  abbrev begun : Tty S → Tty S
  begun t = record {
    data_ = record t.data_ { escape_seq_state = esc };
    console = (con.set_cursor_pos (laws.view t.console).col (laws.view t.console).row t.console).1;
  }

  plain_escape : (t : Tty S) → IsIdle laws t → put_plain wcwidth con 27 t ≡ (ok tt, begun t)
  unfolding put_plain put_at ◌>>=◌ ◌>>◌ asked told set_state done
  plain_escape t idle =
      let s = t.console in
      let shows =
        laws.set_cursor_pos_lem (laws.view s).col (laws.view s).row s idle.col idle.row
          idle.ready in
      rw (laws.get_cursor_pos_lem s idle.ready, laws.get_dimension_lem s idle.ready)
        (ap (λ r. (r, begun t)) shows.succeeds)

  put_escape : (t : Tty S) → IsIdle laws t → put_char wcwidth con outside 27 t ≡ (ok tt, begun t)
  unfolding put_char put_in
  put_escape t idle =
      ap (λ state. put_in wcwidth con outside state 27 t) idle.calm ∙ plain_escape t idle

  -- After the second, '['.
  abbrev opened : Tty S → Tty S
  opened t = record { data_ = after_esc 91 (begun t).data_; console = (begun t).console }

  put_bracket : (t : Tty S) → put_char wcwidth con outside 91 (begun t) ≡ (ok tt, opened t)
  unfolding put_char put_in escaped
  put_bracket t = refl

  opened-Expects : (t : Tty S) → Expects 0 (opened t).data_
  unfolding after_esc introduced
  opened-Expects t = record { state = refl; counted = refl; in_gap = refl; empty = refl }

  opened_empty : (t : Tty S) → (opened t).data_.escape_seq_args 1 ≡ 0
  unfolding after_esc
  opened_empty t = refl

  -- The terminal behind a semicolon.
  abbrev parted : Tty S → Tty S
  parted t = record t { data_ = record t.data_ { escape_seq_number_input = false } }

  put_semicolon :
      (t : Tty S)
      → t.data_.escape_seq_state ≡ csi
      → put_char wcwidth con outside 59 t ≡ (ok tt, parted t)
  unfolding final parameter
  put_semicolon t state = put_parameter wcwidth outside con 59 t state (omega arith) refl

  -- The terminal with its cursor placed.
  abbrev placed : ℕ → ℕ → Tty S → Tty S
  placed x y t = record {
    data_ = record t.data_ { escape_seq_state = plain };
    console = (con.set_cursor_pos (x - 1) (y - 1) t.console).1;
  }

  one_less : (n : ℕ) → IsPlace n → (if slt (sub32 n 1) 0 then 0 else sub32 n 1) ≡ n - 1
  one_less n place =
      let positive : slt (sub32 n 1) 0 ≡ false = ground (arith, place.from, place.fits) in
      rw positive (omega (arith, place.from, place.fits))

  cup_places :
      (x y : ℕ) (t : Tty S)
      → IsPlace x
      → IsPlace y
      → laws.IsReady t.console
      → t.data_.escape_seq_arg_count ≡ 2
      → t.data_.escape_seq_args 0 ≡ y
      → t.data_.escape_seq_args 1 ≡ x
      → handle_cup_hvp con t ≡ (ok tt, placed x y t)
  unfolding handle_cup_hvp ◌>>=◌ ◌>>◌ asked told set_state arg_or
  cup_places x y t is_x is_y ready count first_arg second_arg =
      let s = t.console in
      let d = t.data_ in
      let shows =
        laws.set_cursor_pos_lem (x - 1) (y - 1) s (omega (arith, is_x.fits))
          (omega (arith, is_y.fits)) ready in
      let column : from_one con (if ltb d.escape_seq_arg_count 2 then 1 else d.escape_seq_args 1)
          ≡ x - 1 =
        ap (λ c. from_one con (if ltb c 2 then 1 else d.escape_seq_args 1)) count
        ∙ ap (from_one con) second_arg
        ∙ one_less x is_x in
      let line : from_one con (if ltb d.escape_seq_arg_count 1 then 1 else d.escape_seq_args 0)
          ≡ y - 1 =
        ap (λ c. from_one con (if ltb c 1 then 1 else d.escape_seq_args 0)) count
        ∙ ap (from_one con) first_arg
        ∙ one_less y is_y in
      rw (laws.get_cursor_pos_lem s ready) (
        ap₂
          (λ a b. (
            (con.set_cursor_pos a b s).0,
            record {
              data_ = record d { escape_seq_state = plain };
              console = (con.set_cursor_pos a b s).1;
            },
          ))
          column line
        ∙ ap (λ r. (r, placed x y t)) shows.succeeds)

  put_final :
      (x y : ℕ) (t : Tty S)
      → IsPlace x
      → IsPlace y
      → laws.IsReady t.console
      → t.data_.escape_seq_state ≡ csi
      → t.data_.escape_seq_arg_count ≡ 2
      → t.data_.escape_seq_args 0 ≡ y
      → t.data_.escape_seq_args 1 ≡ x
      → put_char wcwidth con outside 72 t ≡ (ok tt, placed x y t)
  unfolding put_char put_in escaped handle_csi final
  put_final x y t is_x is_y ready state count first_arg second_arg =
      ap (λ state. put_in wcwidth con outside state 72 t) state
      ∙ cup_places x y t is_x is_y ready count first_arg second_arg

  put_nothing : (u : Tty S) → put_chars wcwidth con outside [] u ≡ (ok tt, u)
  unfolding put_chars done
  put_nothing u = refl

  -- The whole sequence runs to the order that places the cursor, on the console that ESC has left.
  runs :
      (y x : ℕ) (ys xs : List ℕ) (t : Tty S)
      → IsDigits 10 (y ∷ ys)
      → IsDigits 10 (x ∷ xs)
      → IsPlace (number 10 0 (y ∷ ys))
      → IsPlace (number 10 0 (x ∷ xs))
      → IsIdle laws t
      → (d : Terminal) × (put_chars wcwidth con outside
            (27 ∷ 91 ∷ numeral (y ∷ ys) (59 ∷ numeral (x ∷ xs) (72 ∷ [])))
            t
          ≡ (
            ok tt,
            placed
                (number 10 0 (x ∷ xs))
                (number 10 0 (y ∷ ys))
                record { data_ = d; console = (begun t).console },
          ))
  unfolding Reaches
  runs y x ys xs t digits_y digits_x is_y is_x idle =
      let last : List ℕ = 72 ∷ [] in
      let second : List ℕ = numeral (x ∷ xs) last in
      let shows =
        laws.set_cursor_pos_lem (laws.view t.console).col (laws.view t.console).row t.console
          idle.col idle.row idle.ready in
      let (d, e, read) =
        numeral-Reaches wcwidth outside con 0 y ys (59 ∷ second) (opened t) (omega arith) digits_y
          is_y.fits (opened-Expects t) in
      let u : Tty S = record { data_ = d; console = (begun t).console } in
      let expects : Expects 1 (parted u).data_ = record {
        state = read.state;
        counted = read.counted;
        in_gap = refl;
        empty = read.behind 1 (omega arith) ∙ opened_empty t;
      } in
      let (d', e', read') =
        numeral-Reaches wcwidth outside con 1 x xs last (parted u) (omega arith) digits_x is_x.fits
          expects in
      let v : Tty S = record { data_ = d'; console = (begun t).console } in
      let place =
        put_final (number 10 0 (x ∷ xs)) (number 10 0 (y ∷ ys)) v is_x is_y shows.ready read'.state
          read'.counted (read'.before 0 (omega arith) ∙ read.value) read'.value in
      (
        d',
        put_chars_step wcwidth outside con 27 _ t (begun t) (put_escape t idle)
            ∙ put_chars_step wcwidth outside con 91 _ (begun t) (opened t) (put_bracket t)
            ∙ e
            ∙ put_chars_step wcwidth outside con 59 second u (parted u) (put_semicolon u read.state)
            ∙ e'
            ∙ put_chars_step wcwidth outside con 72 [] v _ place
            ∙ put_nothing (placed (number 10 0 (x ∷ xs)) (number 10 0 (y ∷ ys)) v),
      )

-- On a console that follows the laws and is ready, where the terminal reads no escape sequence and the cursor
-- is at no negative place, ESC [ y ; x H of two decimal numerals from 1 to 2 ^ 31 - 1, given to put_char byte
-- by byte, succeeds, and leaves the terminal outside of escape sequences and a screen that differs from the
-- one before in the cursor, which is at column x - 1 of row y - 1.
pub put_chars-placed :
    {S : Type 0} {con : ConsoleInterface S} (laws : ConsoleLaws con) (wcwidth outside : ℕ → ℕ)
    (y x : ℕ) (ys xs : List ℕ) (t : Tty S)
    → IsDigits 10 (y ∷ ys)
    → IsDigits 10 (x ∷ xs)
    → IsPlace (number 10 0 (y ∷ ys))
    → IsPlace (number 10 0 (x ∷ xs))
    → IsIdle laws t
    → let o =
        put_chars wcwidth con outside
          (27 ∷ 91 ∷ numeral (y ∷ ys) (59 ∷ numeral (x ∷ xs) (72 ∷ [])))
          t in
      (o.0 ≡ ok tt)
      × ((o.1).data_.escape_seq_state ≡ plain)
      × (laws.view (o.1).console ≡ record (laws.view t.console) {
        col = number 10 0 (x ∷ xs) - 1;
        row = number 10 0 (y ∷ ys) - 1;
      })
put_chars-placed {con = con} laws wcwidth outside y x ys xs t digits_y digits_x is_y is_x idle =
    let s = t.console in
    let begins =
      laws.set_cursor_pos_lem (laws.view s).col (laws.view s).row s idle.col idle.row idle.ready in
    let s' = (con.set_cursor_pos (laws.view s).col (laws.view s).row s).1 in
    let column = number 10 0 (x ∷ xs) - 1 in
    let line = number 10 0 (y ∷ ys) - 1 in
    let ends =
      laws.set_cursor_pos_lem column line s' (omega (arith, is_x.fits)) (omega (arith, is_y.fits))
        begins.ready in
    let (d, e) = runs laws wcwidth outside y x ys xs t digits_y digits_x is_y is_x idle in
    (
      ap (λ o. o.0) e,
      ap (λ o. (o.1).data_.escape_seq_state) e,
      ap (λ o. laws.view (o.1).console) e
          ∙ ends.shown
          ∙ ap {A = Screen} {B = Screen}
              (λ v. record {
                width = v.width;
                height = v.height;
                col = column;
                row = line;
                cells = v.cells;
              })
              begins.shown,
    )
