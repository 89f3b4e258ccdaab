-- ===== src/Terminal/Handlers.antt =====
-- What every handler of vellum/device/char/ansiterm.c, and put_char, keep of the state of a terminal.
use sscc_oslecture.Base.{
  if◌then◌else◌, ℕ, ◌%◌, Bool, true, false, Option, none, some, List, [], ◌∷◌,
}
use sscc_oslecture.Terminal.{EscapeState, plain, esc, csi, Terminal, ConsoleInterface, Action}
use sscc_oslecture.Terminal.Drawing.{
  console_backspace, console_erase, console_scroll, second_half, console_putchar,
}
use sscc_oslecture.Terminal.Cursor.{
  handle_cuu, handle_cud, handle_cuf, handle_cub, handle_cnl, handle_cpl, handle_cha,
  handle_cup_hvp, handle_scosc, handle_scorc, handle_dectcem,
}
use sscc_oslecture.Terminal.Erasing.{
  erase_display, handle_ed, erase_line, handle_el, handle_su, handle_sd,
}
use sscc_oslecture.Terminal.Colors.{selected, handle_sgr}
use sscc_oslecture.Terminal.Escape.{final, or_parameter, handle_csi, escaped}
use sscc_oslecture.Terminal.Output.{
  next_row, wrapped, backspace, tabulator, line_feed, make_room, printed, put_at, put_plain, put_in,
  put_char, put_chars,
}
use sscc_oslecture.Terminal.Keeping.{
  IsKept, Kept, Keeps, then-Keeps, both-Keeps, done-Keeps, asked-Keeps, arg-Keeps, state-Keeps,
  change-Keeps, keeping,
}

module _ {S : Type 0} (P : Terminal → Type 0) (is_kept : IsKept P) (con : ConsoleInterface S) where
  cuu-Keeps : Keeps P (handle_cuu con)
  unfolding handle_cuu
  cuu-Keeps = search keeping depth 20

  cud-Keeps : Keeps P (handle_cud con)
  unfolding handle_cud
  cud-Keeps = search keeping depth 20

  cuf-Keeps : Keeps P (handle_cuf con)
  unfolding handle_cuf
  cuf-Keeps = search keeping depth 20

  cub-Keeps : Keeps P (handle_cub con)
  unfolding handle_cub
  cub-Keeps = search keeping depth 20

  cnl-Keeps : Keeps P (handle_cnl con)
  unfolding handle_cnl
  cnl-Keeps = search keeping depth 20

  cpl-Keeps : Keeps P (handle_cpl con)
  unfolding handle_cpl
  cpl-Keeps = search keeping depth 20

  cha-Keeps : Keeps P (handle_cha con)
  unfolding handle_cha
  cha-Keeps = search keeping depth 20

  cup_hvp-Keeps : Keeps P (handle_cup_hvp con)
  unfolding handle_cup_hvp
  cup_hvp-Keeps = search keeping depth 20

  scorc-Keeps : Keeps P (handle_scorc con)
  unfolding handle_scorc
  scorc-Keeps = search keeping depth 20

  dectcem-Keeps : (visible : ℕ) → Keeps P (handle_dectcem con visible)
  unfolding handle_dectcem
  dectcem-Keeps visible = search keeping depth 20

  scosc-Keeps : Keeps P (handle_scosc con)
  unfolding handle_scosc
  scosc-Keeps = then-Keeps (asked-Keeps _) (λ place.
      change-Keeps
        (λ d. record d {
          saved_cursor_x = place.0;
          saved_cursor_y = place.1;
          escape_seq_state = plain;
        })
        (λ d p. is_kept.of_saved d (place.0) (place.1) p))

  erase-Keeps : (x0 y0 x1 y1 : ℕ) → Keeps P (console_erase con x0 y0 x1 y1)
  unfolding console_erase
  erase-Keeps x0 y0 x1 y1 = search keeping depth 20

  scroll-Keeps : (amount x0 y0 x1 y1 : ℕ) → Keeps P (console_scroll con amount x0 y0 x1 y1)
  unfolding console_scroll
  scroll-Keeps amount x0 y0 x1 y1 = search (keeping, erase-Keeps) depth 20

  ed-Keeps : Keeps P (handle_ed con)
  unfolding handle_ed erase_display
  ed-Keeps = search (keeping, erase-Keeps) depth 20

  el-Keeps : Keeps P (handle_el con)
  unfolding handle_el erase_line
  el-Keeps = search (keeping, erase-Keeps) depth 20

  su-Keeps : Keeps P (handle_su con)
  unfolding handle_su
  su-Keeps = search (keeping, scroll-Keeps) depth 20

  sd-Keeps : Keeps P (handle_sd con)
  unfolding handle_sd
  sd-Keeps = search (keeping, scroll-Keeps) depth 20

  sgr-Keeps : (outside : ℕ → ℕ) → Keeps {S = S} P (handle_sgr outside)
  unfolding handle_sgr
  sgr-Keeps outside = then-Keeps (arg-Keeps 0 0) (λ option.
      change-Keeps
        (λ d. record d { attr_state = selected outside d option; escape_seq_state = plain })
        (λ d p. is_kept.of_attributes d (selected outside d option) p))

  backspace-Keeps : (x y : ℕ) → Keeps P (backspace con x y)
  unfolding backspace console_backspace
  backspace-Keeps x y = search keeping depth 20

  next_row-Keeps : (y width height : ℕ) → Keeps P (next_row con y width height)
  unfolding next_row
  next_row-Keeps y width height = search (keeping, scroll-Keeps) depth 20

  wrapped-Keeps : (x y width height : ℕ) → Keeps P (wrapped con x y width height)
  unfolding wrapped
  wrapped-Keeps x y width height = search (keeping, next_row-Keeps) depth 20

  tabulator-Keeps : (x y width height : ℕ) → Keeps P (tabulator con x y width height)
  unfolding tabulator
  tabulator-Keeps x y width height = search (keeping, erase-Keeps, wrapped-Keeps) depth 20

  line_feed-Keeps : (x y width height : ℕ) → Keeps P (line_feed con x y width height)
  unfolding line_feed
  line_feed-Keeps x y width height = search (keeping, next_row-Keeps) depth 20

  putchar-Keeps : (wcwidth : ℕ → ℕ) (ch : ℕ) → Keeps P (console_putchar con wcwidth ch)
  unfolding console_putchar second_half
  putchar-Keeps wcwidth ch = search keeping depth 20

  printed-Keeps :
      (wcwidth : ℕ → ℕ) (ch x y width height : ℕ)
      → Keeps P (printed wcwidth con ch x y width height)
  unfolding printed make_room
  printed-Keeps wcwidth ch x y width height =
      search (keeping, next_row-Keeps, putchar-Keeps, wrapped-Keeps) depth 20

  put_plain-Keeps : (wcwidth : ℕ → ℕ) (ch : ℕ) → Keeps P (put_plain wcwidth con ch)
  unfolding put_plain put_at
  put_plain-Keeps wcwidth ch =
      search (keeping, backspace-Keeps, tabulator-Keeps, line_feed-Keeps, printed-Keeps) depth 20

  -- Where there is a handler, it keeps the property.
  AllKeep : Option (Action S (Unit {0})) → Type 0
  AllKeep none = Unit
  AllKeep (some handler) = Keeps P handler

  case_Keeps :
      (b : Bool) (handler : Action S (Unit {0})) (o : Option (Action S (Unit {0})))
      → Keeps P handler
      → AllKeep o
      → AllKeep (if b then some handler else o)
  unfolding AllKeep
  case_Keeps true handler o h k = h
  case_Keeps false handler o h k = k

  none_Keeps : AllKeep none
  unfolding AllKeep
  none_Keeps = _

  module _ (outside : ℕ → ℕ) where
    final-Keeps : (ch : ℕ) → AllKeep (final outside con ch)
    unfolding final
    final-Keeps ch =
        search
          (
            case_Keeps, none_Keeps, cuu-Keeps, cud-Keeps, cuf-Keeps, cub-Keeps, cnl-Keeps,
            cpl-Keeps, cha-Keeps, cup_hvp-Keeps, dectcem-Keeps, ed-Keeps, el-Keeps, su-Keeps,
            sd-Keeps, sgr-Keeps, scosc-Keeps, scorc-Keeps, state-Keeps,
          )
          depth 24

    or_parameter-Keeps :
        (o : Option (Action S (Unit {0}))) (ch : ℕ)
        → AllKeep o
        → Keeps P (or_parameter outside con o ch)
    unfolding AllKeep Kept
    or_parameter-Keeps none ch h = record { keep = λ t p. is_kept.of_parameter t.data_ ch p }
    or_parameter-Keeps (some handler) ch h = record { keep = λ t p. h.keep t p }

    escaped-Keeps : (state : EscapeState) (ch : ℕ) → Keeps P (escaped outside con state ch)
    unfolding escaped handle_csi Kept
    escaped-Keeps esc ch = record { keep = λ t p. is_kept.of_esc t.data_ (ch % 256) p }
    escaped-Keeps csi ch = record {
      keep =
          (or_parameter-Keeps (final outside con (ch % 256)) (ch % 256)
            (final-Keeps (ch % 256))).keep;
    }
    escaped-Keeps state ch = record { keep = (state-Keeps is_kept plain).keep }

    put_in-Keeps :
        (wcwidth : ℕ → ℕ) (state : EscapeState) (ch : ℕ)
        → Keeps P (put_in wcwidth con outside state ch)
    unfolding put_in
    put_in-Keeps wcwidth plain ch = put_plain-Keeps wcwidth ch
    put_in-Keeps wcwidth state ch = escaped-Keeps state ch

    pub put_char-Keeps : (wcwidth : ℕ → ℕ) (ch : ℕ) → Keeps P (put_char wcwidth con outside ch)
    unfolding put_char
    put_char-Keeps wcwidth ch = record {
      keep = λ t p. (put_in-Keeps wcwidth t.data_.escape_seq_state ch).keep t p;
    }

    pub put_chars-Keeps :
        (wcwidth : ℕ → ℕ) (chs : List ℕ) → Keeps P (put_chars wcwidth con outside chs)
    unfolding put_chars
    put_chars-Keeps wcwidth [] = done-Keeps tt
    put_chars-Keeps wcwidth (ch ∷ chs) =
        both-Keeps (put_char-Keeps wcwidth ch) (put_chars-Keeps wcwidth chs)
