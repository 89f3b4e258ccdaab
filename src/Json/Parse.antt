-- ===== src/Json/Parse.antt =====
-- The recursive functions of vellum/json/json.c. The loops take the parser of the values in them;
-- parse_value ties them together on fuel, which bounds the depth and the rounds of each loop.
use sscc_oslecture.Base.{
  leb, ◌==◌, if◌then◌else◌, word_mod, ℕ, zero, suc, ◌+◌, ◌%◌, Bool, ◌&&◌, ◌||◌,
}
use sscc_oslecture.Status.{Status}
use sscc_oslecture.Json.{
  Json, object, array, Elements, no_elements, element, Members, no_members, member, State, Run,
  out_of_fuel, failed, done, bind,
}
use sscc_oslecture.Json.Scan.{
  step, alloc, value_size, skip_whitespace, parse_string_literal, parse_string, parse_number,
  parse_other,
}

module _ {ℓ} {A : Type ℓ} (str : ℕ → ℕ) (len : ℕ) where
  -- The switch after an element, and the statement after the switch: `last` if the list is closed here,
  -- `more` from where the next element is looked for. After a comma the cursor moves twice.
  unfoldable pub separated : ℕ → Status → State → A → (State → Run A) → Run A
  separated close e s last more =
      let s = skip_whitespace str len s in
      if str s.cursor == close
      then step len s e (done last)
      else if str s.cursor == 44
      then step len s e (λ s. step len s e more)
      else failed e

module _ (malloc : ℕ → ℕ → Bool) (str : ℕ → ℕ) (len : ℕ) where
  -- The loop of parse_array.
  unfoldable pub elements : (State → Run Json) → ℕ → ℕ → State → Run Elements
  elements value_at zero index s = out_of_fuel
  elements value_at (suc fuel) index s = alloc malloc (skip_whitespace str len s) value_size (λ s.
      bind (value_at s) (λ value s.
        separated str len 93 Status.invalid_syntax s (element index value no_elements) (λ s.
          bind (elements value_at fuel ((index + 1) % word_mod) s)
            (λ rest. done (element index value rest)))))

  unfoldable pub parse_array : (State → Run Json) → ℕ → State → Run Json
  parse_array value_at fuel s =
      let s = skip_whitespace str len s in
      if str s.cursor == 91
      then step len s Status.invalid_syntax (λ s.
        alloc malloc s value_size
          (λ s. bind (elements value_at fuel 0 s) (λ items. done (array items))))
      else failed Status.invalid_syntax

  -- The loop of parse_object.
  unfoldable pub members : (State → Run Json) → ℕ → State → Run Members
  members value_at zero s = out_of_fuel
  members value_at (suc fuel) s = alloc malloc (skip_whitespace str len s) value_size (λ s.
      bind (parse_string_literal malloc str len fuel s) (λ key s.
        let s = skip_whitespace str len s in
        if str s.cursor == 58
        then step len s Status.syntax_error (λ s.
          bind (value_at (skip_whitespace str len s)) (λ value s.
            separated str len 125 Status.syntax_error s (member key value no_members)
              (λ s. bind (members value_at fuel s) (λ rest. done (member key value rest)))))
        else failed Status.syntax_error))

  unfoldable pub parse_object : (State → Run Json) → ℕ → State → Run Json
  parse_object value_at fuel s =
      let s = skip_whitespace str len s in
      if str s.cursor == 123
      then step len s Status.invalid_syntax (λ s.
        alloc malloc s value_size
          (λ s. bind (members value_at fuel s) (λ fields. done (object fields))))
      else failed Status.invalid_syntax

  unfoldable pub parse_value : ℕ → State → Run Json
  parse_value zero s = out_of_fuel
  parse_value (suc fuel) s =
      let s = skip_whitespace str len s in
      let c = str s.cursor in
      if c == 123
      then parse_object (parse_value fuel) fuel s
      else if c == 91
      then parse_array (parse_value fuel) fuel s
      else if c == 34
      then parse_string malloc str len fuel s
      else if (leb 48 c && leb c 57) || c == 45
      then parse_number malloc str len fuel s
      else if c == 116 || c == 102 || c == 110
      then parse_other malloc str len s
      else failed Status.invalid_syntax

  unfoldable pub parse : ℕ → Run Json
  parse fuel = parse_value fuel (record { cursor = 0; calls = 0 })
