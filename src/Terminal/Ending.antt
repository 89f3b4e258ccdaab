-- ===== src/Terminal/Ending.antt =====
-- The end of an escape sequence in vellum/device/char/ansiterm.c: every handler that succeeds has left the
-- terminal outside of escape sequences.
use sscc_oslecture.Base.{
  leb, ◌==◌, if◌then◌else◌, ℕ, ◌%◌, ◌≡◌, refl, Bool, true, false, ◌&&◌, ◌||◌, Option, none, some,
}
use sscc_oslecture.Status.{Result, ok, err, and_then}
use sscc_oslecture.Terminal.{
  EscapeState, plain, esc, csi, Terminal, ConsoleInterface, Tty, Action, ◌>>=◌, ◌>>◌, get_data,
  set_data, set_state, told,
}
use sscc_oslecture.Terminal.Cursor.{
  handle_cuu, handle_cud, handle_cuf, handle_cub, handle_cnl, handle_cpl, handle_cha,
  handle_cup_hvp, handle_scosc, handle_scorc, handle_dectcem,
}
use sscc_oslecture.Terminal.Erasing.{handle_ed, handle_el, handle_su, handle_sd}
use sscc_oslecture.Terminal.Colors.{selected, handle_sgr}
use sscc_oslecture.Terminal.Escape.{parameter, final, or_parameter, handle_csi, escaped}
use sscc_oslecture.Terminal.Output.{put_in, put_char}

module _ {S : Type 0} where
  -- A run that has failed, or has left a terminal that takes text.
  unfoldable pub Ended : {A : Type 0} → Result A × Tty S → Type 0
  Ended (ok a, t) = t.data_.escape_seq_state ≡ plain
  Ended (err e, t) = Unit

  pub record Ends {A : Type 0} (m : Action S A) : Type 0 where
    pub end : (t : Tty S) → Ended (m t)

  next-Ended :
      {A B : Type 0} (o : Result A × Tty S) (f : A → Action S B)
      → ((a : A) → Ends (f a))
      → Ended (and_then o f)
  unfolding Ended
  next-Ended (ok a, t) f k = (k a).end t
  next-Ended (err e, t) f k = _

  then-Ends :
      {A B : Type 0} (m : Action S A) (f : A → Action S B) → ((a : A) → Ends (f a)) → Ends (m >>= f)
  unfolding ◌>>=◌
  then-Ends m f k = record { end = λ t. next-Ended (m t) f k }

  last-Ends : {A B : Type 0} (m : Action S A) (k : Action S B) → Ends k → Ends (m >> k)
  unfolding ◌>>◌
  last-Ends m k l = record { end = λ t. next-Ended (m t) (λ _. k) (λ _. l) }

  state-Ends : Ends (set_state {S = S} plain)
  unfolding set_state Ended
  state-Ends = record { end = λ t. refl }

  order-Ended :
      (r : Result (Unit {0})) (t : Tty S) → t.data_.escape_seq_state ≡ plain → Ended (r, t)
  unfolding Ended
  order-Ended (ok a) t e = e
  order-Ended (err e') t e = _

  told-Ends : (order : S → Result (Unit {0}) × S) → Ends (set_state plain >> told order)
  unfolding ◌>>◌ set_state told
  told-Ends order = record { end = λ t. order-Ended ((order t.console).0) _ refl }

  data-Ends :
      (f : Terminal → Terminal)
      → ((d : Terminal) → (f d).escape_seq_state ≡ plain)
      → Ends (get_data >>= λ d. set_data (f d))
  unfolding ◌>>=◌ get_data set_data Ended
  data-Ends f e = record { end = λ t. e t.data_ }

ruleset ending = (told-Ends, state-Ends, then-Ends, last-Ends)

-- The states inside of a sequence, behind what began it.
abbrev pub IsInSequence : EscapeState → Type 0
IsInSequence plain = ⊥
IsInSequence esc = ⊥
IsInSequence state = Unit

-- A byte that goes on with the parameters: '?', a digit, ';' or ':'.
abbrev pub is_parameter : ℕ → Bool
is_parameter ch = (ch == 63 || (leb 48 ch && leb ch 57)) || (ch == 59 || ch == 58)

if_plain :
    (a b c : Bool) (x y z u : Terminal)
    → ((a || b) || c) ≡ false
    → u.escape_seq_state ≡ plain
    → (if a then x else if b then y else if c then z else u).escape_seq_state ≡ plain
if_plain true b c x y z u e h = cc
if_plain false true c x y z u e h = cc
if_plain false false true x y z u e h = cc
if_plain false false false x y z u e h = h

module _ {S : Type 0} (outside : ℕ → ℕ) (con : ConsoleInterface S) where
  scosc-Ends : Ends (handle_scosc con)
  unfolding handle_scosc
  scosc-Ends = then-Ends _ _ (λ place.
      data-Ends
        (λ d. record d {
          saved_cursor_x = place.0;
          saved_cursor_y = place.1;
          escape_seq_state = plain;
        })
        (λ d. refl))

  sgr-Ends : Ends (handle_sgr {S = S} outside)
  unfolding handle_sgr
  sgr-Ends = then-Ends _ _ (λ option.
      data-Ends (λ d. record d { attr_state = selected outside d option; escape_seq_state = plain })
        (λ d. refl))

  cuu-Ends : Ends (handle_cuu con)
  unfolding handle_cuu
  cuu-Ends = search ending depth 12

  cud-Ends : Ends (handle_cud con)
  unfolding handle_cud
  cud-Ends = search ending depth 12

  cuf-Ends : Ends (handle_cuf con)
  unfolding handle_cuf
  cuf-Ends = search ending depth 12

  cub-Ends : Ends (handle_cub con)
  unfolding handle_cub
  cub-Ends = search ending depth 12

  cnl-Ends : Ends (handle_cnl con)
  unfolding handle_cnl
  cnl-Ends = search ending depth 12

  cpl-Ends : Ends (handle_cpl con)
  unfolding handle_cpl
  cpl-Ends = search ending depth 12

  cha-Ends : Ends (handle_cha con)
  unfolding handle_cha
  cha-Ends = search ending depth 12

  cup_hvp-Ends : Ends (handle_cup_hvp con)
  unfolding handle_cup_hvp
  cup_hvp-Ends = search ending depth 12

  scorc-Ends : Ends (handle_scorc con)
  unfolding handle_scorc
  scorc-Ends = search ending depth 12

  ed-Ends : Ends (handle_ed con)
  unfolding handle_ed
  ed-Ends = search ending depth 12

  el-Ends : Ends (handle_el con)
  unfolding handle_el
  el-Ends = search ending depth 12

  su-Ends : Ends (handle_su con)
  unfolding handle_su
  su-Ends = search ending depth 12

  sd-Ends : Ends (handle_sd con)
  unfolding handle_sd
  sd-Ends = search ending depth 12

  dectcem-Ends : (visible : ℕ) → Ends (handle_dectcem con visible)
  unfolding handle_dectcem
  dectcem-Ends visible = search ending depth 12

  -- Where there is a handler, it ends the sequence.
  AllEnd : Option (Action S (Unit {0})) → Type 0
  AllEnd none = Unit
  AllEnd (some handler) = Ends handler

  case_Ends :
      (b : Bool) (handler : Action S (Unit {0})) (o : Option (Action S (Unit {0})))
      → Ends handler
      → AllEnd o
      → AllEnd (if b then some handler else o)
  unfolding AllEnd
  case_Ends true handler o h k = h
  case_Ends false handler o h k = k

  none_Ends : AllEnd none
  unfolding AllEnd
  none_Ends = _

  final-Ends : (ch : ℕ) → AllEnd (final outside con ch)
  unfolding final
  final-Ends ch =
      search
        (
          case_Ends, none_Ends, cuu-Ends, cud-Ends, cuf-Ends, cub-Ends, cnl-Ends, cpl-Ends,
          cha-Ends, cup_hvp-Ends, dectcem-Ends, ed-Ends, el-Ends, su-Ends, sd-Ends, sgr-Ends,
          scosc-Ends, scorc-Ends, state-Ends,
        )
        depth 24

  or_parameter-Ended :
      (o : Option (Action S (Unit {0}))) (ch : ℕ) (t : Tty S)
      → is_parameter ch ≡ false
      → AllEnd o
      → Ended (or_parameter outside con o ch t)
  unfolding AllEnd Ended parameter
  or_parameter-Ended none ch t other h =
      if_plain (ch == 63) (leb 48 ch && leb ch 57) (ch == 59 || ch == 58) _ _ _ _ other refl
  or_parameter-Ended (some handler) ch t other h = h.end t

  put_in-Ended :
      (wcwidth : ℕ → ℕ) (state : EscapeState) (ch : ℕ) (t : Tty S)
      → IsInSequence state
      → is_parameter (ch % 256) ≡ false
      → Ended (put_in wcwidth con outside state ch t)
  unfolding put_in escaped handle_csi set_state Ended
  put_in-Ended wcwidth plain ch t within other = absurd within
  put_in-Ended wcwidth esc ch t within other = absurd within
  put_in-Ended wcwidth csi ch t within other =
      or_parameter-Ended (final outside con (ch % 256)) (ch % 256) t other (final-Ends (ch % 256))
  put_in-Ended wcwidth state ch t within other = refl

ok-Ended :
    {S A : Type 0} (o : Result A × Tty S) (a : A)
    → Ended o
    → o.0 ≡ ok a
    → (o.1).data_.escape_seq_state ≡ plain
unfolding Ended
ok-Ended (ok b, t) a h e = h
ok-Ended (err e', t) a h e = cc

-- In the middle of an escape sequence, on any console, put_char of a byte that is none of the parameters
-- either fails or leaves the terminal outside of escape sequences.
pub put_char-Ended :
    {S : Type 0} (wcwidth outside : ℕ → ℕ) (con : ConsoleInterface S) (ch : ℕ) (t : Tty S)
    → IsInSequence t.data_.escape_seq_state
    → is_parameter (ch % 256) ≡ false
    → (put_char wcwidth con outside ch t).0 ≡ ok tt
    → ((put_char wcwidth con outside ch t).1).data_.escape_seq_state ≡ plain
unfolding put_char
put_char-Ended wcwidth outside con ch t within other e =
    ok-Ended (put_char wcwidth con outside ch t) tt
      (put_in-Ended outside con wcwidth t.data_.escape_seq_state ch t within other) e
