-- ===== src/Json/Termination.antt =====
-- parse_value of vellum/json/json.c ends on every text that no digit follows.
use sscc_oslecture.Base.{
  leb, ◌==◌, word_mod, ℕ, zero, suc, ◌+◌, ◌%◌, ◌≤◌, ◌<◌, ◌≡◌, Bool, false, ◌&&◌, ◌||◌, List, arith,
}
use sscc_oslecture.Status.{Status}
use sscc_oslecture.Json.{
  Json, object, array, no_elements, element, no_members, member, State, Run, done, bind,
}
use sscc_oslecture.Json.Ahead.{
  IsAhead, IsAhead-weaken, IsAhead-if, IsAhead-step, IsAhead-alloc, IsAhead-bind,
}
use sscc_oslecture.Json.Scan.{moved, skip_whitespace, parse_string_literal}
use sscc_oslecture.Json.Parse.{
  separated, elements, parse_array, members, parse_object, parse_value, parse,
}
use sscc_oslecture.Json.Progress.{
  skip_whitespace_bounds, parse_string_literal-IsAhead, parse_string-IsAhead, parse_number-IsAhead,
  parse_other-IsAhead,
}
use sscc_oslecture.Libc.Ctype.{isdigit}

module _ {ℓ} {A : Type ℓ} (str : ℕ → ℕ) (len : ℕ) where
  separated-IsAhead :
      (close : ℕ) (e : Status) (s : State) (last : A) (more : State → Run A)
      → s.cursor ≤ len
      → ((t : State) → s.cursor < t.cursor → t.cursor < len → IsAhead len t.cursor (more t))
      → IsAhead len s.cursor (separated str len close e s last more)
  unfolding separated
  separated-IsAhead close e s last more h next =
      let (lo, hi) = skip_whitespace_bounds str len s h in
      let t = skip_whitespace str len s in
      IsAhead-if len s.cursor (str t.cursor == close) _ _
        (λ _.
          IsAhead-step len s.cursor t e (done last (moved t 1)) (λ one. (omega arith, omega arith)))
        (λ _.
          IsAhead-if len s.cursor (str t.cursor == 44) _ _
            (λ _. IsAhead-step len s.cursor t e _ (λ one.
              IsAhead-step len s.cursor (moved t 1) e _ (λ two.
                IsAhead-weaken len s.cursor (t.cursor + 1 + 1) _ (omega arith)
                  (next (moved (moved t 1) 1) (omega arith) two))))
            (λ _. _))

module _ (malloc : ℕ → ℕ → Bool) (str : ℕ → ℕ) (len : ℕ) (value_at : State → Run Json) (from : ℕ)
    (value_at-IsAhead : (s : State)
      → from ≤ s.cursor
      → s.cursor ≤ len
      → IsAhead len s.cursor (value_at s)) where
  elements-IsAhead :
      (fuel index : ℕ) (s : State)
      → from ≤ s.cursor
      → s.cursor ≤ len
      → len < fuel + s.cursor
      → IsAhead len s.cursor (elements malloc str len value_at fuel index s)
  unfolding elements
  elements-IsAhead zero index s above h enough = ground arith
  elements-IsAhead (suc fuel) index s above h enough =
      let (lo, hi) = skip_whitespace_bounds str len s h in
      let t : State = record { cursor = (skip_whitespace str len s).cursor; calls = suc s.calls } in
      IsAhead-alloc len s.cursor _ _ (
        IsAhead-weaken len s.cursor t.cursor _ lo (
          IsAhead-bind len t.cursor (value_at t) _ (value_at-IsAhead t (omega arith) hi)
            (λ value u lo_u hi_u. IsAhead-weaken len t.cursor u.cursor _ lo_u (
              separated-IsAhead str len 93 Status.invalid_syntax u (element index value no_elements)
                _ hi_u
                (λ v above_v below_v.
                  IsAhead-bind len v.cursor
                    (elements malloc str len value_at fuel ((index + 1) % word_mod) v)
                    (λ rest. done (element index value rest))
                    (elements-IsAhead fuel ((index + 1) % word_mod) v (omega arith) (omega arith)
                      (omega arith))
                    (λ rest w lo_w hi_w. (lo_w, hi_w)))))))

  -- What follows the colon of a member, given that the rest of the members ends.
  member-IsAhead :
      (fuel : ℕ) (key : List ℕ) (s : State)
      → ((t : State)
          → s.cursor < t.cursor
          → t.cursor < len
          → IsAhead len t.cursor (members malloc str len value_at fuel t))
      → from ≤ s.cursor
      → s.cursor ≤ len
      → IsAhead len s.cursor (
          bind (value_at (skip_whitespace str len s)) (λ value s.
            separated str len 125 Status.syntax_error s (member key value no_members) (λ s.
              bind
                (members malloc str len value_at fuel s)
                (λ rest. done (member key value rest)))))
  member-IsAhead fuel key s later above h =
      let (lo, hi) = skip_whitespace_bounds str len s h in
      let t = skip_whitespace str len s in
      IsAhead-weaken len s.cursor t.cursor _ lo (
        IsAhead-bind len t.cursor (value_at t) _ (value_at-IsAhead t (omega arith) hi)
          (λ value u lo_u hi_u. IsAhead-weaken len t.cursor u.cursor _ lo_u (
            separated-IsAhead str len 125 Status.syntax_error u (member key value no_members) _ hi_u
              (λ v above_v below_v.
                IsAhead-bind len v.cursor (members malloc str len value_at fuel v)
                  (λ rest. done (member key value rest)) (later v (omega arith) below_v)
                  (λ rest w lo_w hi_w. (lo_w, hi_w))))))

  members-IsAhead :
      (fuel : ℕ) (s : State)
      → from ≤ s.cursor
      → s.cursor ≤ len
      → len + 1 < fuel + s.cursor
      → IsAhead len s.cursor (members malloc str len value_at fuel s)
  unfolding members
  members-IsAhead zero s above h enough = ground arith
  members-IsAhead (suc fuel) s above h enough =
      let (lo, hi) = skip_whitespace_bounds str len s h in
      let t : State = record { cursor = (skip_whitespace str len s).cursor; calls = suc s.calls } in
      IsAhead-alloc len s.cursor _ _ (
        IsAhead-weaken len s.cursor t.cursor _ lo (
          IsAhead-bind len t.cursor (parse_string_literal malloc str len fuel t) _
            (parse_string_literal-IsAhead malloc str len fuel t hi (omega arith))
            (λ key u lo_u hi_u.
              let (lo_c, hi_c) = skip_whitespace_bounds str len u hi_u in
              let colon = skip_whitespace str len u in
              IsAhead-weaken len t.cursor colon.cursor _ (omega arith) (
                IsAhead-if len colon.cursor (str colon.cursor == 58) _ _
                  (λ _. IsAhead-step len colon.cursor colon Status.syntax_error _ (λ one.
                    IsAhead-weaken len colon.cursor (colon.cursor + 1) _ (omega arith) (
                      member-IsAhead fuel key (moved colon 1)
                        (λ v above_v below_v.
                          members-IsAhead fuel v (omega arith) (omega arith) (omega arith))
                        (omega arith) (omega arith))))
                  (λ _. _)))))

module _ (malloc : ℕ → ℕ → Bool) (str : ℕ → ℕ) (len : ℕ) where
  parse_array-IsAhead :
      (value_at : State → Run Json) (fuel : ℕ) (s : State)
      → ((t : State) → s.cursor + 1 ≤ t.cursor → t.cursor ≤ len → IsAhead len t.cursor (value_at t))
      → s.cursor ≤ len
      → len + 1 < fuel + (s.cursor + 1)
      → IsAhead len s.cursor (parse_array malloc str len value_at fuel s)
  unfolding parse_array
  parse_array-IsAhead value_at fuel s value_at-IsAhead h enough =
      let (lo, hi) = skip_whitespace_bounds str len s h in
      let t = skip_whitespace str len s in
      let u : State = record { cursor = t.cursor + 1; calls = suc s.calls } in
      IsAhead-if len s.cursor (str t.cursor == 91) _ _
        (λ _. IsAhead-step len s.cursor t Status.invalid_syntax _ (λ one.
          IsAhead-alloc len s.cursor _ _ (
            IsAhead-weaken len s.cursor (t.cursor + 1) _ (omega arith) (
              IsAhead-bind len (t.cursor + 1) (elements malloc str len value_at fuel 0 u)
                (λ items. done (array items))
                (elements-IsAhead malloc str len value_at (s.cursor + 1) value_at-IsAhead fuel 0 u
                  (omega arith) (omega arith) (omega arith))
                (λ items w lo_w hi_w. (lo_w, hi_w))))))
        (λ _. _)

  parse_object-IsAhead :
      (value_at : State → Run Json) (fuel : ℕ) (s : State)
      → ((t : State) → s.cursor + 1 ≤ t.cursor → t.cursor ≤ len → IsAhead len t.cursor (value_at t))
      → s.cursor ≤ len
      → len + 1 < fuel + (s.cursor + 1)
      → IsAhead len s.cursor (parse_object malloc str len value_at fuel s)
  unfolding parse_object
  parse_object-IsAhead value_at fuel s value_at-IsAhead h enough =
      let (lo, hi) = skip_whitespace_bounds str len s h in
      let t = skip_whitespace str len s in
      let u : State = record { cursor = t.cursor + 1; calls = suc s.calls } in
      IsAhead-if len s.cursor (str t.cursor == 123) _ _
        (λ _. IsAhead-step len s.cursor t Status.invalid_syntax _ (λ one.
          IsAhead-alloc len s.cursor _ _ (
            IsAhead-weaken len s.cursor (t.cursor + 1) _ (omega arith) (
              IsAhead-bind len (t.cursor + 1) (members malloc str len value_at fuel u)
                (λ items. done (object items))
                (members-IsAhead malloc str len value_at (s.cursor + 1) value_at-IsAhead fuel u
                  (omega arith) (omega arith) (omega arith))
                (λ items w lo_w hi_w. (lo_w, hi_w))))))
        (λ _. _)

module _ (malloc : ℕ → ℕ → Bool) (str : ℕ → ℕ) (len : ℕ) (ends : isdigit (str len) ≡ false) where
  -- parse_value ends on fuel that exceeds the bytes left by three.
  parse_value-IsAhead :
      (fuel : ℕ) (s : State)
      → s.cursor ≤ len
      → len + 2 < fuel + s.cursor
      → IsAhead len s.cursor (parse_value malloc str len fuel s)
  unfolding parse_value
  parse_value-IsAhead zero s h enough = ground arith
  parse_value-IsAhead (suc fuel) s h enough =
      let (lo, hi) = skip_whitespace_bounds str len s h in
      let t = skip_whitespace str len s in
      let c = str t.cursor in
      let deeper : (u : State)
          → t.cursor + 1 ≤ u.cursor
          → u.cursor ≤ len
          → IsAhead len u.cursor (parse_value malloc str len fuel u) =
        λ u above below. parse_value-IsAhead fuel u below (omega arith) in
      IsAhead-weaken len s.cursor t.cursor _ lo (
        IsAhead-if len t.cursor (c == 123) _ _
          (λ _.
            parse_object-IsAhead malloc str len (parse_value malloc str len fuel) fuel t deeper hi
              (omega arith))
          (λ _.
            IsAhead-if len t.cursor (c == 91) _ _
              (λ _.
                parse_array-IsAhead malloc str len (parse_value malloc str len fuel) fuel t deeper
                  hi (omega arith))
              (λ _.
                IsAhead-if len t.cursor (c == 34) _ _
                  (λ _. parse_string-IsAhead malloc str len fuel t hi (omega arith))
                  (λ _.
                    IsAhead-if len t.cursor ((leb 48 c && leb c 57) || c == 45) _ _
                      (λ _. parse_number-IsAhead malloc str len fuel t ends hi (omega arith))
                      (λ _.
                        IsAhead-if len t.cursor (c == 116 || c == 102 || c == 110) _ _
                          (λ _. parse_other-IsAhead malloc str len t hi) (λ _. _))))))

  -- VlJson_Parse ends on every text that no digit follows: fuel three above the length is enough, and a
  -- value it yields ends within the text.
  pub parse-IsAhead : (fuel : ℕ) → len + 2 < fuel → IsAhead len 0 (parse malloc str len fuel)
  unfolding parse
  parse-IsAhead fuel enough =
      parse_value-IsAhead fuel (record { cursor = 0; calls = 0 }) (omega arith) (omega arith)
