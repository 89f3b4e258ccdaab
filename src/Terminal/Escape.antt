-- ===== src/Terminal/Escape.antt =====
-- vellum/device/char/ansiterm.c: handle_esc and handle_csi, which read an escape sequence.
use sscc_oslecture.Status.{ok}
use sscc_oslecture.Base.{
  ltb, leb, ◌==◌, if◌then◌else◌, word_mod, sub32, update, ℕ, ◌+◌, ◌-◌, ◌*◌, ◌%◌, true, false, ◌&&◌,
  ◌||◌, Option, none, some,
}
use sscc_oslecture.Terminal.{
  EscapeState, plain, esc, ss2, ss3, dcs, csi, st, osc, sos, pm, apc, Terminal, ConsoleInterface,
  Action, neg32, set_state,
}
use sscc_oslecture.Terminal.Cursor.{
  handle_cuu, handle_cud, handle_cuf, handle_cub, handle_cnl, handle_cpl, handle_cha,
  handle_cup_hvp, handle_scosc, handle_scorc, handle_dectcem,
}
use sscc_oslecture.Terminal.Erasing.{handle_ed, handle_el, handle_su, handle_sd}
use sscc_oslecture.Terminal.Colors.{handle_sgr}

-- The switch of handle_esc.
unfoldable pub introduced : ℕ → EscapeState
introduced ch =
    if ch == 78
    then ss2
    else if ch == 79
    then ss3
    else if ch == 80
    then dcs
    else if ch == 91
    then csi
    else if ch == 92
    then st
    else if ch == 93
    then osc
    else if ch == 88
    then sos
    else if ch == 94
    then pm
    else if ch == 95
    then apc
    else plain

-- handle_esc
unfoldable pub after_esc : ℕ → Terminal → Terminal
after_esc ch d = record d {
  escape_seq_args = λ i. if ltb i 8 then 0 else d.escape_seq_args i;
  escape_seq_arg_count = 0;
  escape_seq_number_input = false;
  escape_seq_state = introduced ch;
}

-- The case of '?' in handle_csi.
unfoldable pub question_mark : Terminal → Terminal
question_mark d = if leb 8 d.escape_seq_arg_count then d else record d {
  escape_seq_args = update d.escape_seq_args d.escape_seq_arg_count (neg32 63);
  escape_seq_arg_count = d.escape_seq_arg_count + 1;
}

-- The case of a digit. The argument is the last one, or a new one for the first digit of a number.
unfoldable pub digit : ℕ → Terminal → Terminal
digit ch d =
    let count =
      if d.escape_seq_number_input then d.escape_seq_arg_count else d.escape_seq_arg_count + 1 in
    let value = d.escape_seq_args (sub32 count 1) in
    if leb 8 d.escape_seq_arg_count then d else record d {
      escape_seq_args =
          update d.escape_seq_args (sub32 count 1) ((value * 10 + (ch - 48)) % word_mod);
      escape_seq_arg_count = count;
      escape_seq_number_input = true;
    }

-- The cases of handle_csi that only change the state of the terminal.
unfoldable pub parameter : ℕ → Terminal → Terminal
parameter ch d =
    if ch == 63
    then question_mark d
    else if leb 48 ch && leb ch 57
    then digit ch d
    else if ch == 59 || ch == 58
    then record d { escape_seq_number_input = false }
    else record d { escape_seq_state = plain }

module _ {S : Type 0} (outside : ℕ → ℕ) (con : ConsoleInterface S) where
  -- The cases of handle_csi that call a handler. handle_dsr only resets the state.
  unfoldable pub final : ℕ → Option (Action S (Unit {0}))
  final ch =
      if ch == 65
      then some (handle_cuu con)
      else if ch == 66
      then some (handle_cud con)
      else if ch == 67
      then some (handle_cuf con)
      else if ch == 68
      then some (handle_cub con)
      else if ch == 69
      then some (handle_cnl con)
      else if ch == 70
      then some (handle_cpl con)
      else if ch == 71
      then some (handle_cha con)
      else if ch == 102 || ch == 72
      then some (handle_cup_hvp con)
      else if ch == 104
      then some (handle_dectcem con 1)
      else if ch == 74
      then some (handle_ed con)
      else if ch == 75
      then some (handle_el con)
      else if ch == 108
      then some (handle_dectcem con 0)
      else if ch == 83
      then some (handle_su con)
      else if ch == 84
      then some (handle_sd con)
      else if ch == 109
      then some (handle_sgr outside)
      else if ch == 110
      then some (set_state plain)
      else if ch == 115
      then some (handle_scosc con)
      else if ch == 117
      then some (handle_scorc con)
      else none

  -- A handler, or else a change of the state.
  abbrev pub or_parameter : Option (Action S (Unit {0})) → ℕ → Action S (Unit {0})
  or_parameter none ch t = (ok tt, record t { data_ = parameter ch t.data_ })
  or_parameter (some handler) ch t = handler t

  unfoldable pub handle_csi : ℕ → Action S (Unit {0})
  handle_csi ch = or_parameter (final ch) ch

  -- The part of put_char inside an escape sequence; `(char)ch` keeps eight bits.
  unfoldable pub escaped : EscapeState → ℕ → Action S (Unit {0})
  escaped esc ch t = (ok tt, record t { data_ = after_esc (ch % 256) t.data_ })
  escaped csi ch t = handle_csi (ch % 256) t
  escaped state ch t = set_state plain t
