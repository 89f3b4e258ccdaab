-- ===== src/Terminal/Keeping.antt =====
-- Properties of the state of a terminal that actions of vellum/device/char/ansiterm.c keep.
use sscc_oslecture.Base.{if◌then◌else◌, ℕ, Bool, true, false}
use sscc_oslecture.Status.{Result, ok, err, and_then}
use sscc_oslecture.Terminal.{
  Attributes, Cell, EscapeState, plain, Terminal, ConsoleInterface, Tty, Action, ◌>>=◌, ◌>>◌, done,
  get_data, set_data, set_state, asked, told, arg_or,
}
use sscc_oslecture.Terminal.Escape.{after_esc, parameter}
use sscc_oslecture.Terminal.Drawing.{draw, look, ignored}

-- A property of the state that the parts of the code that change it keep.
pub record IsKept (P : Terminal → Type 0) : Type 0 where
  pub of_state :
      (d : Terminal) (state : EscapeState) → P d → P (record d { escape_seq_state = state })
  pub of_saved :
      (d : Terminal) (x y : ℕ)
      → P d
      → P (record d { saved_cursor_x = x; saved_cursor_y = y; escape_seq_state = plain })
  pub of_attributes :
      (d : Terminal) (a : Attributes)
      → P d
      → P (record d { attr_state = a; escape_seq_state = plain })
  pub of_esc : (d : Terminal) (ch : ℕ) → P d → P (after_esc ch d)
  pub of_parameter : (d : Terminal) (ch : ℕ) → P d → P (parameter ch d)

module _ {S : Type 0} (P : Terminal → Type 0) where
  -- The state after a run has the property.
  unfoldable pub Kept : {A : Type 0} → Result A × Tty S → Type 0
  Kept (ok a, t) = P t.data_
  Kept (err e, t) = P t.data_

  -- An action keeps it, whether it fails or not.
  pub record Keeps {A : Type 0} (m : Action S A) : Type 0 where
    pub keep : (t : Tty S) → P t.data_ → Kept (m t)

module _ {S : Type 0} (P : Terminal → Type 0) where
  result-Kept : {A : Type 0} (r : Result A) (t : Tty S) → P t.data_ → Kept P (r, t)
  unfolding Kept
  result-Kept (ok a) t p = p
  result-Kept (err e) t p = p

  pub kept_state : {A : Type 0} (o : Result A × Tty S) → Kept P o → P (o.1).data_
  unfolding Kept
  kept_state (ok a, t) h = h
  kept_state (err e, t) h = h

module _ {S : Type 0} {P : Terminal → Type 0} where
  next-Keeps :
      {A B : Type 0} (o : Result A × Tty S) (f : A → Action S B)
      → Kept P o
      → ((a : A) → Keeps P (f a))
      → Kept P (and_then o f)
  unfolding Kept
  next-Keeps (ok a, t) f h k = (k a).keep t h
  next-Keeps (err e, t) f h k = h

  pub then-Keeps :
      {A B : Type 0} {m : Action S A} {f : A → Action S B}
      → Keeps P m
      → ((a : A) → Keeps P (f a))
      → Keeps P (m >>= f)
  unfolding ◌>>=◌
  then-Keeps {m = m} {f = f} h k = record { keep = λ t p. next-Keeps (m t) f (h.keep t p) k }

  pub both-Keeps :
      {A B : Type 0} {m : Action S A} {k : Action S B} → Keeps P m → Keeps P k → Keeps P (m >> k)
  unfolding ◌>>◌
  both-Keeps {m = m} {k = k} h l = record {
    keep = λ t p. next-Keeps (m t) (λ _. k) (h.keep t p) (λ _. l);
  }

  pub done-Keeps : {A : Type 0} (a : A) → Keeps {S = S} P (done a)
  unfolding Kept done
  done-Keeps a = record { keep = λ t p. p }

  pub if-Keeps :
      {A : Type 0} (b : Bool) {m n : Action S A}
      → Keeps P m
      → Keeps P n
      → Keeps P (if b then m else n)
  if-Keeps true h k = h
  if-Keeps false h k = k

  pub asked-Keeps : {A : Type 0} (question : S → Result A) → Keeps P (asked question)
  unfolding asked
  asked-Keeps question = record { keep = λ t p. result-Kept P (question t.console) t p }

  pub told-Keeps : (order : S → Result (Unit {0}) × S) → Keeps P (told order)
  unfolding told
  told-Keeps order = record {
    keep =
        λ t p. result-Kept P ((order t.console).0) (record t { console = (order t.console).1 }) p;
  }

  pub data-Keeps : Keeps {S = S} P get_data
  unfolding Kept get_data
  data-Keeps = record { keep = λ t p. p }

  pub arg-Keeps : (n default : ℕ) → Keeps {S = S} P (arg_or n default)
  unfolding Kept arg_or
  arg-Keeps n default = record { keep = λ t p. p }

  pub state-Keeps : IsKept P → (state : EscapeState) → Keeps {S = S} P (set_state state)
  unfolding Kept set_state
  state-Keeps is_kept state = record { keep = λ t p. is_kept.of_state t.data_ state p }

  -- A change of the state by a function.
  pub change-Keeps :
      (f : Terminal → Terminal)
      → ((d : Terminal) → P d → P (f d))
      → Keeps {S = S} P (get_data >>= λ d. set_data (f d))
  unfolding Kept ◌>>=◌ get_data set_data
  change-Keeps f h = record { keep = λ t p. h t.data_ p }

module _ {S : Type 0} {P : Terminal → Type 0} (con : ConsoleInterface S) where
  pub draw-Keeps : (f : (ℕ → Cell) → ℕ → Cell) → Keeps P (draw con f)
  unfolding Kept draw
  draw-Keeps f = record { keep = λ t p. p }

  pub look-Keeps : {A : Type 0} (f : (ℕ → Cell) → A) → Keeps P (look con f)
  unfolding Kept look
  look-Keeps f = record { keep = λ t p. p }

  pub ignored-Keeps : {m : Action S (Unit {0})} → Keeps P m → Keeps P (ignored con m)
  unfolding Kept ignored
  ignored-Keeps {m = m} h = record { keep = λ t p. kept_state P (m t) (h.keep t p) }

pub ruleset keeping = (
  then-Keeps, both-Keeps, done-Keeps, if-Keeps, asked-Keeps, told-Keeps, data-Keeps, arg-Keeps,
  state-Keeps, draw-Keeps, look-Keeps, ignored-Keeps,
)
