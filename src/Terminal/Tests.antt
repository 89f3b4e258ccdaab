-- ===== src/Terminal/Tests.antt =====
-- The theorems on the terminal of vellum/device/char/ansiterm.c at a console of vellum/device/video/vconsole.c of
-- five columns and three rows, on a frame buffer of 40 pixels by 48 without fonts.
use sscc_oslecture.Base.{
  ltb, ◌==◌, if◌then◌else◌, length, ℕ, ◌≡◌, refl, false, some, List, [], ◌∷◌, arith,
}
use sscc_oslecture.Status.{Status, ok, err}
use sscc_oslecture.Terminal.{
  Attributes, Cell, EscapeState, plain, csi, ConsoleInterface, Tty, ◌>>=◌, get_data, set_data,
  arg_or,
}
use sscc_oslecture.Terminal.Output.{put_in, put_char, put_chars, wwrite}
use sscc_oslecture.Terminal.Write.{flushed, write}
use sscc_oslecture.Terminal.Escape.{introduced, final, handle_csi, escaped}
use sscc_oslecture.Terminal.Colors.{handle_sgr}
use sscc_oslecture.Terminal.Arguments.{IsBounded, put_chars-IsBounded}
use sscc_oslecture.Terminal.Laws.{ConsoleLaws}
use sscc_oslecture.Terminal.Sound.{IsSize, IsSteady}
use sscc_oslecture.Terminal.Typing.{AreTyped, wwrite-IsSteady}
use sscc_oslecture.Terminal.Ending.{put_char-Ended}
use sscc_oslecture.Terminal.Placing.{IsIdle, put_chars-placed}
use sscc_oslecture.Terminal.Glyphs.{Framebuffer}
use sscc_oslecture.Terminal.Vconsole.{Vconsole, conif}
use sscc_oslecture.Terminal.VconsoleLaws.{IsGraphic, conif_laws, conif-IsSteady, conif-IsIdle}
use sscc_oslecture.Terminal.Utf8.{encode, encode_all, Holds}
use sscc_oslecture.Terminal.Texts.{IsWhole}
use sscc_oslecture.Terminal.Writing.{counted, write-put_chars}
use sscc_oslecture.Libc.Numbers.Numerals.{numeral}

abbrev none_drawn : Attributes
none_drawn = record {
  fg_color = 0xAAAAAA;
  text_blink_level = 0;
  text_reversed = 0;
  text_bold = 0;
  text_dim = 0;
  text_italic = 0;
  text_underline = 0;
  text_strike = 0;
  bg_color = 0;
  text_overlined = 0;
}

-- A device without a text mode.
abbrev no_text : ConsoleInterface (ℕ → ℕ)
no_text = record {
  get_dimension = λ s. err Status.conflicting_state;
  get_buffer = λ s. err Status.conflicting_state;
  cells = λ s i. record { attr = none_drawn; codepoint = 0 };
  with_cells = λ s m. s;
  invalidate = λ x0 y0 x1 y1 s. (err Status.conflicting_state, s);
  flush = λ s. (err Status.conflicting_state, s);
  set_cursor_pos = λ x y s. (err Status.conflicting_state, s);
  get_cursor_pos = λ s. err Status.conflicting_state;
  set_cursor_visibility = λ v s. (err Status.conflicting_state, s);
  get_cursor_visibility = λ s. err Status.conflicting_state;
}

abbrev buffer : Framebuffer (ℕ → ℕ)
buffer = record {
  console = no_text;
  get_framebuffer = λ m. ok tt;
  pixels = λ m. m;
  with_pixels = λ m drawn. drawn;
  invalidate = λ x0 y0 x1 y1 m. (ok tt, m);
  glyph_dimension = λ code. err Status.entry_not_found;
  glyph_data = λ code. err Status.entry_not_found;
  flush = λ n. (ok tt, n);
}

abbrev blank : ℕ → Cell
blank i = record { attr = none_drawn; codepoint = 32 }

abbrev screen : Vconsole (ℕ → ℕ)
screen = record {
  data_ = record {
    is_switching_mode = false;
    is_text = false;
    vmode_width = 40;
    cols = 5;
    rows = 3;
    cursor_col = 4;
    cursor_row = 2;
    cursor_prev_col = 0;
    cursor_prev_row = 0;
    cursor_visible = 1;
    char_buffer = blank;
    diff_buffer = λ i. false;
  };
  device = λ i. 0;
}

abbrev with_state : EscapeState → Tty (Vconsole (ℕ → ℕ))
with_state state = record {
  data_ = record {
    escape_seq_args = λ i. 0;
    escape_seq_arg_count = 0;
    escape_seq_state = state;
    escape_seq_number_input = false;
    saved_cursor_x = 0;
    saved_cursor_y = 0;
    attr_state = none_drawn;
    utf8_fragment_len = 0;
    utf8_fragment_buf = λ i. 0;
  };
  console = screen;
}

abbrev wide_one : ℕ → ℕ
wide_one ch = if ltb ch 4352 then 1 else 2

abbrev tty : Tty (Vconsole (ℕ → ℕ))
tty = with_state plain

abbrev no_colors : ℕ → ℕ
no_colors i = 0

abbrev laws : ConsoleLaws (conif buffer)
laws = conif_laws buffer (λ n. refl)

abbrev nothing : ℕ → ℕ
nothing i = 0

-- ESC[1;;3;4;5;6;7;8;91m
abbrev many : List ℕ
many =
    27 ∷ 91 ∷ 49 ∷ 59 ∷ 59 ∷ 51 ∷ 59 ∷ 52 ∷ 59 ∷ 53 ∷ 59 ∷ 54 ∷ 59 ∷ 55 ∷ 59 ∷ 56 ∷ 59 ∷ 57 ∷ 49
    ∷ 109 ∷ []

put_chars-IsBounded_example :
    IsBounded nothing ((put_chars wide_one (conif buffer) no_colors many tty).1).data_
put_chars-IsBounded_example =
    put_chars-IsBounded wide_one no_colors (conif buffer) nothing many tty
      record { few = omega arith; begun = λ e. cc; unwritten = λ i far. refl }

size : IsSize 5 3
size = record {
  wide = (omega arith, omega arith);
  high = (omega arith, omega arith);
  room = omega arith;
  small = omega arith;
}

-- A letter, a line feed and a Hangul syllable.
abbrev text : List ℕ
text = 65 ∷ 10 ∷ 44032 ∷ []

typed : AreTyped wide_one text
typed = (
  record { no_tabulator = refl; no_escape = refl; narrow = λ e. omega arith },
  (
    record { no_tabulator = refl; no_escape = refl; narrow = λ e. omega arith },
    (record { no_tabulator = refl; no_escape = refl; narrow = λ e. omega arith }, tt),
  ),
)

ready : IsGraphic screen.data_
ready = record { settled = refl; graphic = refl }

steady : IsSteady laws 5 3 blank tty
steady =
    conif-IsSteady buffer (λ n. refl) 5 3 blank tty ready (refl, refl) (omega arith, omega arith)
      (λ i behind. refl) refl

wwrite-IsSteady_example :
    let o = wwrite wide_one (conif buffer) no_colors text tty in
    (o.0 ≡ ok 3) × IsSteady laws 5 3 blank (o.1)
wwrite-IsSteady_example =
    wwrite-IsSteady laws 5 3 blank wide_one no_colors text tty size typed steady

shown_graphics : (put_char wide_one (conif buffer) no_colors 109 (with_state csi)).0 ≡ ok tt
unfolding put_char put_in escaped handle_csi final introduced handle_sgr ◌>>=◌ arg_or get_data
    set_data
shown_graphics = refl

put_char-Ended_example :
    ((put_char wide_one (conif buffer) no_colors 109 (with_state csi)).1).data_.escape_seq_state
    ≡ plain
put_char-Ended_example =
    put_char-Ended wide_one no_colors (conif buffer) 109 (with_state csi) tt refl shown_graphics

idle : IsIdle laws tty
idle = conif-IsIdle buffer (λ n. refl) tty ready (omega arith, omega arith) refl

-- ESC[2;12H
put_chars-placed_example :
    let o =
      put_chars wide_one
        (conif buffer)
        no_colors
        (27 ∷ 91 ∷ numeral (2 ∷ []) (59 ∷ numeral (1 ∷ 2 ∷ []) (72 ∷ [])))
        tty in
    (o.0 ≡ ok tt)
    × ((o.1).data_.escape_seq_state ≡ plain)
    × (laws.view (o.1).console ≡ record (laws.view tty.console) { col = 11; row = 1 })
put_chars-placed_example =
    put_chars-placed laws wide_one no_colors 2 1 [] (2 ∷ []) tty (omega arith, tt)
      (omega arith, (omega arith, tt)) record { from = omega arith; fits = omega arith }
      record { from = omega arith; fits = omega arith } idle

-- U+AC00 and a letter.
abbrev memory : ℕ → ℕ
memory i =
    if i == 100
    then 234
    else if i == 101
    then 176
    else if i == 102
    then 128
    else if i == 103
    then 65
    else 0

abbrev characters : List ℕ
characters = 44032 ∷ 65 ∷ []

bytes_are : encode_all characters ≡ 234 ∷ 176 ∷ 128 ∷ 65 ∷ []
unfolding encode_all encode
bytes_are = refl

stored : Holds memory 100 (encode_all characters)
unfolding Holds encode_all encode
stored = (refl, (refl, (refl, (refl, tt))))

no_fragment : IsWhole tty.data_
unfolding IsWhole
no_fragment = refl

write-put_chars_example :
    write wide_one no_colors (conif buffer) 3 memory 100 (length (encode_all characters)) tty
    ≡ some (
        flushed wide_one no_colors (conif buffer) (
          counted
            (length (encode_all characters))
            (put_chars wide_one (conif buffer) no_colors characters tty)))
write-put_chars_example =
    write-put_chars wide_one no_colors (conif buffer) memory 100 characters tty
      (omega arith, (omega arith, tt)) stored (rw bytes_are (omega arith))
      (rw bytes_are (omega arith)) no_fragment
