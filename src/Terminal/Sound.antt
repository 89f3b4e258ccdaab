-- ===== src/Terminal/Sound.antt =====
-- Actions of vellum/device/char/ansiterm.c that succeed on a console that works, and stay inside of it.
use sscc_oslecture.Base.{
  if◌then◌else◌, ℕ, ◌+◌, ◌*◌, ◌≤◌, ◌<◌, ◌≡◌, refl, sym, ap, ap₂, subst, ◌∙◌, Bool, true, false,
  arith,
}
use sscc_oslecture.Status.{Result, ok, err, and_then}
use sscc_oslecture.Terminal.{
  Cell, plain, Terminal, ConsoleInterface, Tty, Action, ◌>>=◌, ◌>>◌, done, get_data, asked, told,
}
use sscc_oslecture.Terminal.Laws.{Screen, Shows, ConsoleLaws}
use sscc_oslecture.Terminal.Drawing.{draw, look, ignored}
use sscc_oslecture.Terminal.Bounds.{IsInside}

-- A number that is not negative as an `int`.
abbrev pub IsPositive : ℕ → Type 0
IsPositive n = (0 < n) × (n < 2147483648)

-- A screen of at least one cell whose cells, and a column two behind its margin, can be counted in an `int`.
pub record IsSize (w h : ℕ) : Type 0 where
  pub wide : IsPositive w
  pub high : IsPositive h
  pub room : w + 2 < 2147483648
  pub small : w * h < 2147483648

abbrev pub InScreen : ℕ → ℕ → ℕ × ℕ → Type 0
InScreen w h p = (p.0 < w) × (p.1 < h)

abbrev pub HasSize : ℕ → ℕ → ℕ × ℕ → Type 0
HasSize w h p = (p.0 ≡ w) × (p.1 ≡ h)

module _ {S : Type 0} {con : ConsoleInterface S} (laws : ConsoleLaws con) (w h : ℕ)
    (behind : ℕ → Cell) where
  -- The console works and has its size, the cursor is inside, and so is what was written to its cells.
  pub record IsSound (s : S) : Type 0 where
    pub ready : laws.IsReady s
    pub width : (laws.view s).width ≡ w
    pub height : (laws.view s).height ≡ h
    pub col : (laws.view s).col < w
    pub row : (laws.view s).row < h
    pub cells : (i : ℕ) → w * h ≤ i → (laws.view s).cells i ≡ behind i

  -- So is a terminal on it that reads no escape sequence.
  pub record IsSteady (t : Tty S) : Type 0 where
    pub sound : IsSound t.console
    pub open sound use *
    pub calm : t.data_.escape_seq_state ≡ plain

  -- A run has succeeded with a result that is as wanted, and has left the terminal steady.
  unfoldable pub Went : {A : Type 0} → (A → Type 0) → Result A × Tty S → Type 0
  Went Q (ok a, t) = Q a × IsSteady t
  Went Q (err e, t) = ⊥

  -- An action that does so on a steady terminal.
  pub record Goes {A : Type 0} (Q : A → Type 0) (m : Action S A) : Type 0 where
    pub go : (t : Tty S) → IsSteady t → Went Q (m t)

  next-Went :
      {A B : Type 0} (Q : A → Type 0) (R : B → Type 0) (o : Result A × Tty S) (f : A → Action S B)
      → Went Q o
      → ((a : A) → Q a → Goes R (f a))
      → Went R (and_then o f)
  unfolding Went
  next-Went Q R (ok a, t) f (q, sound) k = (k a q).go t sound
  next-Went Q R (err e, t) f impossible k = absurd impossible

  pub then-Goes :
      {A B : Type 0} (Q : A → Type 0) {R : B → Type 0} {m : Action S A} {f : A → Action S B}
      → Goes Q m
      → ((a : A) → Q a → Goes R (f a))
      → Goes R (m >>= f)
  unfolding ◌>>=◌
  then-Goes Q {R = R} {m = m} {f = f} g k = record {
    go = λ t sound. next-Went Q R (m t) f (g.go t sound) k;
  }

  pub both-Goes :
      {A B : Type 0} (Q : A → Type 0) {R : B → Type 0} {m : Action S A} {k : Action S B}
      → Goes Q m
      → Goes R k
      → Goes R (m >> k)
  unfolding ◌>>◌
  both-Goes Q {R = R} {m = m} {k = k} g l = record {
    go = λ t sound. next-Went Q R (m t) (λ _. k) (g.go t sound) (λ _ _. l);
  }

  pub done-Goes : {A : Type 0} {Q : A → Type 0} (a : A) → Q a → Goes Q (done a)
  unfolding done Went
  done-Goes a q = record { go = λ t sound. (q, sound) }

  pub if-Goes :
      {A : Type 0} {Q : A → Type 0} (b : Bool) {m n : Action S A}
      → (b ≡ true → Goes Q m)
      → (b ≡ false → Goes Q n)
      → Goes Q (if b then m else n)
  if-Goes true g k = g refl
  if-Goes false g k = k refl

  -- What a question that the console answers yields.
  answer-Went :
      {A : Type 0} (Q : A → Type 0) (r : Result A) (a : A) (t : Tty S)
      → r ≡ ok a
      → Q a
      → IsSteady t
      → Went Q (r, t)
  unfolding Went
  answer-Went Q r a t e q sound = subst (λ x. Went Q (x, t)) (sym e) (q, sound)

  pub cursor-Goes : Goes (InScreen w h) (asked con.get_cursor_pos)
  unfolding asked
  cursor-Goes = record {
    go = λ t sound.
        answer-Went (InScreen w h) (con.get_cursor_pos t.console) _ t
          (laws.get_cursor_pos_lem t.console sound.ready) (sound.col, sound.row) sound;
  }

  pub dimension-Goes : Goes (HasSize w h) (asked con.get_dimension)
  unfolding asked
  dimension-Goes = record {
    go = λ t sound.
        answer-Went (HasSize w h) (con.get_dimension t.console) _ t
          (laws.get_dimension_lem t.console sound.ready) (sound.width, sound.height) sound;
  }

  pub buffer-Goes : Goes (λ _. Unit {0}) (asked con.get_buffer)
  unfolding asked
  buffer-Goes = record {
    go = λ t sound.
        answer-Went (λ _. Unit {0}) (con.get_buffer t.console) tt t
          (laws.get_buffer_lem t.console sound.ready) _ sound;
  }

  -- An order after which the console shows a screen that is sound.
  order-Went :
      (o : Result (Unit {0}) × S) (t : Tty S)
      → t.data_.escape_seq_state ≡ plain
      → o.0 ≡ ok tt
      → IsSound (o.1)
      → Went (λ _. Unit {0}) (o.0, record t { console = o.1 })
  unfolding Went
  order-Went o t calm e sound =
      subst (λ r. Went (λ _. Unit {0}) (r, record t { console = o.1 })) (sym e)
        (_, record { sound = sound; calm = calm })

  shown-IsSound :
      (screen : Screen) (o : Result (Unit {0}) × S)
      → Shows laws.IsReady laws.view screen o
      → screen.width ≡ w
      → screen.height ≡ h
      → screen.col < w
      → screen.row < h
      → ((i : ℕ) → w * h ≤ i → screen.cells i ≡ behind i)
      → IsSound (o.1)
  shown-IsSound screen o shows a b c d e = record {
    ready = shows.ready;
    width = ap Screen.width shows.shown ∙ a;
    height = ap Screen.height shows.shown ∙ b;
    col = subst (λ v. v.col < w) (sym shows.shown) c;
    row = subst (λ v. v.row < h) (sym shows.shown) d;
    cells = λ i far. ap (λ v. v.cells i) shows.shown ∙ e i far;
  }

  pub invalidate-Goes : (x0 y0 x1 y1 : ℕ) → Goes (λ _. Unit {0}) (told (con.invalidate x0 y0 x1 y1))
  unfolding told
  invalidate-Goes x0 y0 x1 y1 = record {
    go = λ t sound.
        let shows = laws.invalidate_lem x0 y0 x1 y1 t.console sound.ready in
        order-Went _ t sound.calm shows.succeeds (
          shown-IsSound (laws.view t.console) _ shows sound.width sound.height sound.col sound.row
            sound.cells);
  }

  pub flush-Goes : Goes (λ _. Unit {0}) (told con.flush)
  unfolding told
  flush-Goes = record {
    go = λ t sound.
        let shows = laws.flush_lem t.console sound.ready in
        order-Went _ t sound.calm shows.succeeds (
          shown-IsSound (laws.view t.console) _ shows sound.width sound.height sound.col sound.row
            sound.cells);
  }

  pub set_cursor-Goes :
      IsSize w h → (x y : ℕ) → x < w → y < h → Goes (λ _. Unit {0}) (told (con.set_cursor_pos x y))
  unfolding told
  set_cursor-Goes size x y left below = record {
    go = λ t sound.
        let shows =
          laws.set_cursor_pos_lem x y t.console (omega (arith, size.wide))
            (omega (arith, size.high)) sound.ready in
        order-Went _ t sound.calm shows.succeeds (
          shown-IsSound (record (laws.view t.console) { col = x; row = y }) _ shows sound.width
            sound.height left below sound.cells);
  }

  pub data-Goes : Goes (λ _. Unit {0}) (get_data {S = S})
  unfolding get_data Went
  data-Goes = record { go = λ t sound. (_, sound) }

  pub look-Goes :
      {A : Type 0} {Q : A → Type 0} (f : (ℕ → Cell) → A)
      → ((m : ℕ → Cell) → Q (f m))
      → Goes Q (look con f)
  unfolding look Went
  look-Goes f q = record { go = λ t sound. (q (con.cells t.console), sound) }

  -- What is drawn stays inside of the screen.
  pub draw-Goes :
      (f : (ℕ → Cell) → ℕ → Cell)
      → ((m : ℕ → Cell) → IsInside w h behind m → IsInside w h behind (f m))
      → Goes (λ _. Unit {0}) (draw con f)
  unfolding draw Went
  draw-Goes f keeps = record {
    go = λ t sound.
        let s = t.console in
        let before : IsInside w h behind (con.cells s) = record {
          outside = λ i far. ap (λ m. m i) (laws.cells_lem s sound.ready) ∙ sound.cells i far;
        } in
        let shown = laws.with_cells_lem s (f (con.cells s)) sound.ready in
        (
          _,
          record {
            calm = sound.calm;
            sound = record {
              ready = laws.with_cells_ready s (f (con.cells s)) sound.ready;
              width = ap Screen.width shown ∙ sound.width;
              height = ap Screen.height shown ∙ sound.height;
              col = subst (λ v. v.col < w) (sym shown) sound.col;
              row = subst (λ v. v.row < h) (sym shown) sound.row;
              cells =
                  λ i far. ap (λ v. v.cells i) shown ∙ (keeps (con.cells s) before).outside i far;
            };
          },
        );
  }

  ignored-Went :
      (o : Result (Unit {0}) × Tty S) → Went (λ _. Unit {0}) o → Went (λ _. Unit {0}) (ok tt, o.1)
  unfolding Went
  ignored-Went (ok a, t) went = went
  ignored-Went (err e, t) impossible = absurd impossible

  pub ignored-Goes :
      {m : Action S (Unit {0})} → Goes (λ _. Unit {0}) m → Goes (λ _. Unit {0}) (ignored con m)
  unfolding ignored
  ignored-Goes {m = m} g = record { go = λ t sound. ignored-Went (m t) (g.go t sound) }

  -- The steps that most functions begin with.
  pub with_dimension :
      {B : Type 0} {R : B → Type 0} (f : ℕ × ℕ → Action S B)
      → Goes R (f (w, h))
      → Goes R (asked con.get_dimension >>= f)
  with_dimension {R = R} f g =
      then-Goes (HasSize w h) dimension-Goes
        (λ p q. subst (λ r. Goes R (f r)) (ap₂ (λ a b. (a, b)) (sym q.0) (sym q.1)) g)

  pub with_cursor :
      {B : Type 0} {R : B → Type 0} (f : ℕ × ℕ → Action S B)
      → ((x y : ℕ) → x < w → y < h → Goes R (f (x, y)))
      → Goes R (asked con.get_cursor_pos >>= f)
  with_cursor f g = then-Goes (InScreen w h) cursor-Goes (λ p q. g p.0 p.1 q.0 q.1)

  pub with_buffer :
      {B : Type 0} {R : B → Type 0} {k : Action S B} → Goes R k → Goes R (asked con.get_buffer >> k)
  with_buffer g = both-Goes (λ _. Unit {0}) buffer-Goes g

  pub with_data :
      {B : Type 0} {R : B → Type 0} {f : Terminal → Action S B}
      → ((d : Terminal) → Goes R (f d))
      → Goes R (get_data >>= f)
  with_data g = then-Goes (λ _. Unit {0}) data-Goes (λ d _. g d)

  pub in_turn :
      {B : Type 0} {R : B → Type 0} {m : Action S (Unit {0})} {k : Action S B}
      → Goes (λ _. Unit {0}) m
      → Goes R k
      → Goes R (m >> k)
  in_turn g l = both-Goes (λ _. Unit {0}) g l
