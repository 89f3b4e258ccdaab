-- ===== src/Terminal.antt =====
-- vellum/device/char/ansiterm.c: the state of a terminal, the console that it draws on
-- (vellum/include/vellum/interface/console.h), and actions on both. An `int` is its pattern of 32 bits.
pub mod Drawing
pub mod Cursor
pub mod Erasing
pub mod Colors
pub mod Escape
pub mod Output
pub mod Write
pub mod Keeping
pub mod Handlers
pub mod Arguments
pub mod Laws
pub mod Bounds
pub mod Sound
pub mod Inside
pub mod Typing
pub mod Ending
pub mod Reading
pub mod Placing
pub mod Utf8
pub mod Texts
pub mod Writing
pub mod Glyphs
pub mod Vconsole
pub mod VconsoleLaws
mod Tests
use sscc_oslecture.Base.{ltb, leb, if◌then◌else◌, word_mod, sub32, ℕ, ◌+◌, ◌/◌, ◌%◌, Bool}
use sscc_oslecture.Status.{Result, ok, and_then}

-- struct console_char_attributes
pub record Attributes : Type 0 where
  pub fg_color : ℕ
  pub text_blink_level : ℕ
  pub text_reversed : ℕ
  pub text_bold : ℕ
  pub text_dim : ℕ
  pub text_italic : ℕ
  pub text_underline : ℕ
  pub text_strike : ℕ
  pub bg_color : ℕ
  pub text_overlined : ℕ

-- struct console_char_cell
pub record Cell : Type 0 where
  pub attr : Attributes
  pub codepoint : ℕ

-- enum ansi_escape_state; `plain` is STATE_DEFAULT.
pub data EscapeState : Type 0 where
  plain esc ss2 ss3 dcs csi st osc sos pm apc : EscapeState

-- struct ansiterm_data, less the console.
pub record Terminal : Type 0 where
  pub escape_seq_args : ℕ → ℕ
  pub escape_seq_arg_count : ℕ
  pub escape_seq_state : EscapeState
  pub escape_seq_number_input : Bool
  pub saved_cursor_x : ℕ
  pub saved_cursor_y : ℕ
  pub attr_state : Attributes
  pub utf8_fragment_len : ℕ
  pub utf8_fragment_buf : ℕ → ℕ

-- struct console_interface, over the states of a console. The buffer is a memory of cells: `cells` reads
-- through the pointer that get_buffer stores, and `with_cells` writes through it.
pub record ConsoleInterface (S : Type 0) : Type 0 where
  pub get_dimension : S → Result (ℕ × ℕ)
  pub get_buffer : S → Result (Unit {0})
  pub cells : S → ℕ → Cell
  pub with_cells : S → (ℕ → Cell) → S
  pub invalidate : ℕ → ℕ → ℕ → ℕ → S → Result (Unit {0}) × S
  pub flush : S → Result (Unit {0}) × S
  pub set_cursor_pos : ℕ → ℕ → S → Result (Unit {0}) × S
  pub get_cursor_pos : S → Result (ℕ × ℕ)
  pub set_cursor_visibility : ℕ → S → Result (Unit {0}) × S
  pub get_cursor_visibility : S → Result ℕ

-- A terminal and its console.
pub record Tty (S : Type 0) : Type 0 where
  pub data_ : Terminal
  pub console : S

-- What may fail and changes both.
abbrev pub Action : Type 0 → Type 0 → Type 0
Action S A = Tty S → Result A × Tty S

-- `if (!CHECK_SUCCESS(status)) return status;` between two actions.
infixl 5 ◌>>=◌ ◌>>◌
unfoldable pub ◌>>=◌ : {S A B : Type 0} → Action S A → (A → Action S B) → Action S B
(m >>= f) t = and_then (m t) f

unfoldable pub ◌>>◌ : {S A B : Type 0} → Action S A → Action S B → Action S B
(m >> k) t = and_then (m t) (λ a. k)

unfoldable pub done : {S A : Type 0} → A → Action S A
done a t = (ok a, t)

-- Signed comparisons of 32-bit patterns.
abbrev pub slt : ℕ → ℕ → Bool
slt a b = ltb ((a + 2147483648) % word_mod) ((b + 2147483648) % word_mod)

abbrev pub sle : ℕ → ℕ → Bool
sle a b = leb ((a + 2147483648) % word_mod) ((b + 2147483648) % word_mod)

-- `(a < b) ? a : b`
abbrev pub smaller : ℕ → ℕ → ℕ
smaller a b = if slt a b then a else b

-- `-a`
abbrev pub neg32 : ℕ → ℕ
neg32 a = sub32 0 a

-- `a / 8`, which drops the fraction of a negative quotient.
abbrev pub div8 : ℕ → ℕ
div8 a = if slt a 0 then neg32 (neg32 a / 8) else a / 8

-- The -1 that stands for a coordinate to keep.
abbrev pub minus_one : ℕ
minus_one = 4294967295

module _ {S : Type 0} where
  unfoldable pub get_data : Action S Terminal
  get_data t = (ok t.data_, t)

  unfoldable pub set_data : Terminal → Action S (Unit {0})
  set_data d t = (ok tt, record t { data_ = d })

  -- `data->escape_seq_state = state;`
  unfoldable pub set_state : EscapeState → Action S (Unit {0})
  set_state state t = (ok tt, record t { data_ = record t.data_ { escape_seq_state = state } })

  -- A question to the console, and an order to it.
  unfoldable pub asked : {A : Type 0} → (S → Result A) → Action S A
  asked question t = (question t.console, t)

  unfoldable pub told : (S → Result (Unit {0}) × S) → Action S (Unit {0})
  told order t = let (result, console) = order t.console in (result, record t { console = console })

  -- `(data->escape_seq_arg_count < n + 1) ? default : data->escape_seq_args[n]`
  unfoldable pub arg_or : ℕ → ℕ → Action S ℕ
  arg_or n default t = (
    ok (if ltb t.data_.escape_seq_arg_count (n + 1) then default else t.data_.escape_seq_args n),
    t,
  )
