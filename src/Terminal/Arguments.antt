-- ===== src/Terminal/Arguments.antt =====
-- The arguments of an escape sequence in vellum/device/char/ansiterm.c: escape_seq_args is written within its
-- bounds.
use sscc_oslecture.Base.{
  ltb, leb, ◌==◌, if◌then◌else◌, Bool-cases, word_mod, sub32, update, ℕ, ◌+◌, ◌-◌, ◌*◌, ◌%◌, ◌≤◌,
  ◌<◌, ◌≡◌, refl, inl, inr, Bool, true, false, ◌&&◌, ◌||◌, List, arith,
}
use sscc_oslecture.Terminal.{Terminal, ConsoleInterface, Tty}
use sscc_oslecture.Terminal.Escape.{after_esc, question_mark, digit, parameter}
use sscc_oslecture.Terminal.Output.{put_chars}
use sscc_oslecture.Terminal.Keeping.{IsKept, kept_state}
use sscc_oslecture.Terminal.Handlers.{put_chars-Keeps}

-- At most eight arguments, one at least while a number is read, and behind them memory that was not written.
pub record IsBounded (behind : ℕ → ℕ) (d : Terminal) : Type 0 where
  pub few : d.escape_seq_arg_count ≤ 8
  pub begun : d.escape_seq_number_input ≡ true → 0 < d.escape_seq_arg_count
  pub unwritten : (i : ℕ) → 8 ≤ i → d.escape_seq_args i ≡ behind i

module _ (behind : ℕ → ℕ) where
  esc-IsBounded : (d : Terminal) (ch : ℕ) → IsBounded behind d → IsBounded behind (after_esc ch d)
  unfolding after_esc
  esc-IsBounded d ch b = record {
    few = omega arith;
    begun = λ e. cc;
    unwritten =
        λ i far. let not_in : ltb i 8 ≡ false = ground arith in rw not_in (b.unwritten i far);
  }

  question_mark-IsBounded : (d : Terminal) → IsBounded behind d → IsBounded behind (question_mark d)
  unfolding question_mark
  question_mark-IsBounded d b = elim (Bool-cases (leb 8 d.escape_seq_arg_count)) [
    | inl full ↦ rw full b
    | inr room ↦ rw room record {
      few = ground arith;
      begun = λ e. omega arith;
      unwritten = λ i far.
          let other : (d.escape_seq_arg_count == i) ≡ false = ground arith in
          rw other (b.unwritten i far);
    }
  ]

  stored-IsBounded :
      (d : Terminal) (count value : ℕ)
      → 0 < count
      → count ≤ 8
      → IsBounded behind d
      → IsBounded behind (record d {
        escape_seq_args = update d.escape_seq_args (sub32 count 1) value;
        escape_seq_arg_count = count;
        escape_seq_number_input = true;
      })
  stored-IsBounded d count value some_arg few b = record {
    few = few;
    begun = λ e. some_arg;
    unwritten = λ i far.
        let other : (sub32 count 1 == i) ≡ false = ground arith in rw other (b.unwritten i far);
  }

  counted :
      (goes_on : Bool) (n : ℕ)
      → (goes_on ≡ true → 0 < n)
      → n < 8
      → let count = if goes_on then n else n + 1 in (0 < count) × (count ≤ 8)
  counted true n begun room = (begun refl, omega arith)
  counted false n begun room = (omega arith, omega arith)

  if-IsBounded :
      (b : Bool) (x y : Terminal)
      → IsBounded behind x
      → IsBounded behind y
      → IsBounded behind (if b then x else y)
  if-IsBounded true x y p q = p
  if-IsBounded false x y p q = q

  digit-IsBounded : (d : Terminal) (ch : ℕ) → IsBounded behind d → IsBounded behind (digit ch d)
  unfolding digit
  digit-IsBounded d ch b = elim (Bool-cases (leb 8 d.escape_seq_arg_count)) [
    | inl full ↦ rw full b
    | inr room ↦
        let count =
          if d.escape_seq_number_input
          then d.escape_seq_arg_count
          else d.escape_seq_arg_count + 1 in
        let value = (d.escape_seq_args (sub32 count 1) * 10 + (ch - 48)) % word_mod in
        let (some_arg, few) =
          counted d.escape_seq_number_input d.escape_seq_arg_count b.begun (ground arith) in
        rw room (stored-IsBounded d count value some_arg few b)
  ]

  parameter-IsBounded :
      (d : Terminal) (ch : ℕ) → IsBounded behind d → IsBounded behind (parameter ch d)
  unfolding parameter
  parameter-IsBounded d ch b = if-IsBounded (ch == 63) _ _ (question_mark-IsBounded d b) (
      if-IsBounded (leb 48 ch && leb ch 57) _ _ (digit-IsBounded d ch b) (
        if-IsBounded (ch == 59 || ch == 58) _ _
          record { few = b.few; begun = λ e. cc; unwritten = b.unwritten }
          record { few = b.few; begun = b.begun; unwritten = b.unwritten }))

  IsBounded-IsKept : IsKept (IsBounded behind)
  IsBounded-IsKept = record {
    of_state = λ d state b. record { few = b.few; begun = b.begun; unwritten = b.unwritten };
    of_saved = λ d x y b. record { few = b.few; begun = b.begun; unwritten = b.unwritten };
    of_attributes = λ d a b. record { few = b.few; begun = b.begun; unwritten = b.unwritten };
    of_esc = esc-IsBounded;
    of_parameter = parameter-IsBounded;
  }

-- If at most eight arguments of an escape sequence are counted, and one at least while a number is read, as
-- it is behind every ESC [, then this is so after whatever characters put_char is given, on any console
-- and whether it succeeds or not, and nothing has been written outside of the array.
pub put_chars-IsBounded :
    {S : Type 0} (wcwidth outside : ℕ → ℕ) (con : ConsoleInterface S) (behind : ℕ → ℕ)
    (chs : List ℕ) (t : Tty S)
    → IsBounded behind t.data_
    → IsBounded behind ((put_chars wcwidth con outside chs t).1).data_
put_chars-IsBounded wcwidth outside con behind chs t b =
    kept_state (IsBounded behind) (put_chars wcwidth con outside chs t) (
      (put_chars-Keeps (IsBounded behind) (IsBounded-IsKept behind) con outside wcwidth chs).keep t
        b)
