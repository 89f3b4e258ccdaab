-- ===== src/Json/Progress.antt =====
-- The parser of vellum/json/json.c ends, and keeps the cursor within the text.
use sscc_oslecture.Base.{
  leb, ◌==◌, if◌then◌else◌, Bool-cases, length, ℕ, zero, suc, ◌+◌, ◌-◌, ◌*◌, ◌%◌, ◌^◌, ◌≤◌, ◌<◌,
  ◌≡◌, ap, ◌≢◌, inl, inr, Bool, true, false, not, ◌&&◌, List, [], ◌∷◌, arith,
}
use sscc_oslecture.Status.{Status}
use sscc_oslecture.Libc.Ctype.{isdigit}
use sscc_oslecture.Json.{Json, null, string, number, boolean, State, done, bind}
use sscc_oslecture.Json.Ahead.{
  IsAhead, IsAhead-weaken, IsAhead-if, IsAhead-step, IsAhead-alloc, IsAhead-bind,
}
use sscc_oslecture.Json.Scan.{
  moved, skip, digits, skip_whitespace, literal, stands_at, parse_string_literal, parse_string,
  parse_number, parse_word, parse_other,
}

module _ (str : ℕ → ℕ) where
  skip_bounds :
      (left cursor : ℕ) → (cursor ≤ skip str left cursor) × (skip str left cursor ≤ cursor + left)
  unfolding skip
  skip_bounds zero cursor = (omega arith, omega arith)
  skip_bounds (suc left) cursor = ground (arith, skip_bounds left (suc cursor))

module _ (str : ℕ → ℕ) (len : ℕ) where
  pub skip_whitespace_bounds :
      (s : State)
      → s.cursor ≤ len
      → let t = skip_whitespace str len s in (s.cursor ≤ t.cursor) × (t.cursor ≤ len)
  skip_whitespace_bounds s h =
      let (lo, hi) = skip_bounds str (len - s.cursor) s.cursor in (lo, omega (arith, hi))

  literal-next :
      (fuel : ℕ)
      → ((t : State)
          → t.cursor < len
          → len < fuel + t.cursor
          → IsAhead len t.cursor (literal str len fuel t))
      → (s : State) → s.cursor < len
      → len < suc fuel + s.cursor
      → IsAhead len s.cursor (literal str len (suc fuel) s)
  unfolding literal
  literal-next fuel later s h enough =
      let c = str s.cursor in
      IsAhead-if len s.cursor (c == 92) _ _
        (λ _. IsAhead-step len s.cursor s Status.invalid_syntax _ (λ one.
          IsAhead-step len s.cursor (moved s 1) Status.invalid_syntax _ (λ two.
            IsAhead-weaken len s.cursor (s.cursor + 1 + 1) _ (omega arith)
              (later (moved (moved s 1) 1) two (omega arith)))))
        (λ _.
          IsAhead-if len s.cursor (c == 34) _ _
            (λ _.
              IsAhead-step len s.cursor s Status.invalid_syntax (done [] (moved s 1))
                (λ one. (omega arith, omega arith)))
            (λ _. IsAhead-step len s.cursor s Status.invalid_syntax _ (λ one.
              IsAhead-weaken len s.cursor (s.cursor + 1) _ (omega arith) (
                IsAhead-bind len (s.cursor + 1) (literal str len fuel (moved s 1))
                  (λ text. done (c ∷ text)) (later (moved s 1) one (omega arith))
                  (λ text t lo hi. (lo, hi))))))

  literal-IsAhead :
      (fuel : ℕ) (s : State)
      → s.cursor < len
      → len < fuel + s.cursor
      → IsAhead len s.cursor (literal str len fuel s)
  unfolding literal
  literal-IsAhead zero s h enough = ground arith
  literal-IsAhead (suc fuel) s h enough = literal-next fuel (λ t. literal-IsAhead fuel t) s h enough

  digits-IsAhead :
      (fuel num : ℕ) (s : State)
      → isdigit (str len) ≡ false
      → s.cursor ≤ len
      → len < fuel + s.cursor
      → IsAhead len s.cursor (digits str fuel num s)
  unfolding digits
  digits-IsAhead zero num s ends h enough = ground arith
  digits-IsAhead (suc fuel) num s ends h enough = elim (Bool-cases (isdigit (str s.cursor))) [
    | inl digit ↦ rw digit (
        let inside : s.cursor ≢ len = λ e. cc (ap (λ i. isdigit (str i)) e) in
        IsAhead-weaken len s.cursor (s.cursor + 1)
          (digits str fuel ((num * 10 + str s.cursor - 48) % 2 ^ 64) (moved s 1)) (omega arith)
          (digits-IsAhead fuel ((num * 10 + str s.cursor - 48) % 2 ^ 64) (moved s 1) ends
            (ground arith) (omega arith)))
    | inr other ↦ rw other (omega arith, h)
  ]

module _ (malloc : ℕ → ℕ → Bool) (str : ℕ → ℕ) (len : ℕ) where
  pub parse_string_literal-IsAhead :
      (fuel : ℕ) (s : State)
      → s.cursor ≤ len
      → len < fuel + s.cursor
      → IsAhead len s.cursor (parse_string_literal malloc str len fuel s)
  unfolding parse_string_literal
  parse_string_literal-IsAhead fuel s h enough =
      let (lo, hi) = skip_whitespace_bounds str len s h in
      let t = skip_whitespace str len s in
      let after : State = record { cursor = t.cursor + 1; calls = suc s.calls } in
      IsAhead-if len s.cursor (str t.cursor == 34) _ _
        (λ _. IsAhead-step len s.cursor t Status.invalid_syntax _ (λ one.
          IsAhead-alloc len s.cursor _ _ (
            IsAhead-weaken len s.cursor (t.cursor + 1) _ (omega arith)
              (literal-IsAhead str len fuel after (omega arith) (omega arith)))))
        (λ _. _)

  pub parse_string-IsAhead :
      (fuel : ℕ) (s : State)
      → s.cursor ≤ len
      → len < fuel + s.cursor
      → IsAhead len s.cursor (parse_string malloc str len fuel s)
  unfolding parse_string
  parse_string-IsAhead fuel s h enough =
      let after : State = record { cursor = s.cursor; calls = suc s.calls } in
      IsAhead-if len s.cursor (str s.cursor == 34) _ _
        (λ _. IsAhead-alloc len s.cursor _ _ (
          IsAhead-bind len s.cursor (parse_string_literal malloc str len fuel after)
            (λ text. done (string text)) (parse_string_literal-IsAhead fuel after h enough)
            (λ text u lo hi. (lo, hi))))
        (λ _. _)

  parse_word-IsAhead :
      (word : List ℕ) (value : Json) (s : State)
      → IsAhead len s.cursor (parse_word malloc str len word value s)
  unfolding parse_word
  parse_word-IsAhead word value s =
      IsAhead-if len s.cursor (leb len (s.cursor + length word)) _ _ (λ _. _)
        (λ below.
          IsAhead-if len s.cursor (stands_at word str s.cursor) (done value (moved s (length word)))
            _ (λ _. (omega arith, ground arith)) (λ _. _))

  -- parse_number reads on while it sees digits, so what follows the text must not be one.
  pub parse_number-IsAhead :
      (fuel : ℕ) (s : State)
      → isdigit (str len) ≡ false
      → s.cursor ≤ len
      → len < fuel + s.cursor
      → IsAhead len s.cursor (parse_number malloc str len fuel s)
  unfolding parse_number
  parse_number-IsAhead fuel s ends h enough =
      let (lo, hi) = skip_whitespace_bounds str len s h in
      let t = skip_whitespace str len s in
      let after : State = record { cursor = t.cursor; calls = suc s.calls } in
      let minus = str t.cursor == 45 in
      IsAhead-if len s.cursor (not (isdigit (str t.cursor)) && not minus) _ _ (λ _. _)
        (λ _. IsAhead-step len s.cursor t Status.invalid_syntax _ (λ one.
          IsAhead-alloc len s.cursor _ _
            (IsAhead-weaken len s.cursor t.cursor _ lo (number_at after minus one (omega arith)))))
    where
      number_at :
          (u : State) (minus : Bool)
          → u.cursor + 1 < len
          → len < fuel + u.cursor
          → IsAhead len u.cursor (
              bind
                (digits str fuel 0 (if minus then moved u 1 else u))
                (λ num. done (number (if minus then (2 ^ 64 - num) % 2 ^ 64 else num))))
      number_at u true inside enough = IsAhead-weaken len u.cursor (u.cursor + 1) _ (omega arith) (
          IsAhead-bind len (u.cursor + 1) (digits str fuel 0 (moved u 1))
            (λ num. done (number ((2 ^ 64 - num) % 2 ^ 64)))
            (digits-IsAhead str len fuel 0 (moved u 1) ends (omega arith) (omega arith))
            (λ num t lo hi. (lo, hi)))
      number_at u false inside enough =
          IsAhead-bind len u.cursor (digits str fuel 0 u) (λ num. done (number num))
            (digits-IsAhead str len fuel 0 u ends (omega arith) enough) (λ num t lo hi. (lo, hi))

  pub parse_other-IsAhead :
      (s : State) → s.cursor ≤ len → IsAhead len s.cursor (parse_other malloc str len s)
  unfolding parse_other
  parse_other-IsAhead s h =
      let (lo, hi) = skip_whitespace_bounds str len s h in
      let t = skip_whitespace str len s in
      let u : State = record { cursor = t.cursor; calls = suc s.calls } in
      let c = str t.cursor in
      IsAhead-alloc len s.cursor _ _ (
        IsAhead-weaken len s.cursor t.cursor _ lo (
          IsAhead-if len t.cursor (c == 116) _ _
            (λ _. parse_word-IsAhead (116 ∷ 114 ∷ 117 ∷ 101 ∷ []) (boolean true) u)
            (λ _.
              IsAhead-if len t.cursor (c == 102) _ _
                (λ _. parse_word-IsAhead (102 ∷ 97 ∷ 108 ∷ 115 ∷ 101 ∷ []) (boolean false) u)
                (λ _.
                  IsAhead-if len t.cursor (c == 110) _ _
                    (λ _. parse_word-IsAhead (110 ∷ 117 ∷ 108 ∷ 108 ∷ []) null u) (λ _. _)))))
