-- ===== src/Terminal/Reading.antt =====
-- The parameters of an escape sequence in vellum/device/char/ansiterm.c: what put_char makes of numerals.
use sscc_oslecture.Base.{
  ltb, leb, ◌==◌, if◌then◌else◌, word_mod, sub32, update, ℕ, zero, suc, ◌+◌, ◌-◌, ◌*◌, ◌%◌, ◌<◌,
  ◌≡◌, refl, sym, ap, subst, ◌∙◌, true, false, none, List, [], ◌∷◌, arith,
}
use sscc_oslecture.Terminal.{csi, Terminal, ConsoleInterface, Tty, ◌>>◌}
use sscc_oslecture.Terminal.Escape.{digit, parameter, final, or_parameter, handle_csi, escaped}
use sscc_oslecture.Status.{ok, and_then}
use sscc_oslecture.Libc.Numbers.Numerals.{digit_char, numeral, IsDigits, number, number_grows}
use sscc_oslecture.Terminal.Output.{put_in, put_char, put_chars}

-- What a digit stores in the last of `count` arguments.
abbrev stored : Terminal → ℕ → ℕ → Terminal
stored d count ch = record d {
  escape_seq_args =
      update d.escape_seq_args (sub32 count 1)
        ((d.escape_seq_args (sub32 count 1) * 10 + (ch - 48)) % word_mod);
  escape_seq_arg_count = count;
  escape_seq_number_input = true;
}

-- A terminal in front of the argument `k`: nothing of it has been read.
pub record Expects (k : ℕ) (d : Terminal) : Type 0 where
  pub state : d.escape_seq_state ≡ csi
  pub counted : d.escape_seq_arg_count ≡ k
  pub in_gap : d.escape_seq_number_input ≡ false
  pub empty : d.escape_seq_args k ≡ 0

-- A terminal that has read the value `v` of the argument `k`, and has those before it from `d₀`.
pub record HasRead (k v : ℕ) (d₀ d : Terminal) : Type 0 where
  pub state : d.escape_seq_state ≡ csi
  pub counted : d.escape_seq_arg_count ≡ suc k
  pub in_number : d.escape_seq_number_input ≡ true
  pub value : d.escape_seq_args k ≡ v
  pub before : (i : ℕ) → i < k → d.escape_seq_args i ≡ d₀.escape_seq_args i
  pub behind : (i : ℕ) → k < i → d.escape_seq_args i ≡ d₀.escape_seq_args i

digit-stored :
    (ch : ℕ) (d : Terminal)
    → d.escape_seq_arg_count < 8
    → digit ch d
      ≡ stored d
          (if d.escape_seq_number_input then d.escape_seq_arg_count else d.escape_seq_arg_count + 1)
          ch
unfolding digit
digit-stored ch d few =
    let room : leb 8 d.escape_seq_arg_count ≡ false = ground arith in
    ap
      (λ b.
        if b
        then d
        else stored d
            (if d.escape_seq_number_input
              then d.escape_seq_arg_count
              else d.escape_seq_arg_count + 1)
            ch)
      room

stored-HasRead :
    (k v ch : ℕ) (d₀ d : Terminal)
    → k < 8
    → d.escape_seq_state ≡ csi
    → d.escape_seq_args k ≡ v
    → ((i : ℕ) → i < k → d.escape_seq_args i ≡ d₀.escape_seq_args i)
    → ((i : ℕ) → k < i → d.escape_seq_args i ≡ d₀.escape_seq_args i)
    → v * 10 + (ch - 48) < 4294967296
    → HasRead k (v * 10 + (ch - 48)) d₀ (stored d (suc k) ch)
stored-HasRead k v ch d₀ d few state value before behind fits =
    let last : sub32 (suc k) 1 ≡ k = omega arith in
    record {
      state = state;
      counted = refl;
      in_number = refl;
      value =
          let same : (sub32 (suc k) 1 == k) ≡ true = ground arith in
          rw (same, last, value) (omega arith);
      before = λ i less.
          let other : (sub32 (suc k) 1 == i) ≡ false = ground arith in rw other (before i less);
      behind = λ i more.
          let other : (sub32 (suc k) 1 == i) ≡ false = ground arith in rw other (behind i more);
    }

first_digit :
    (k ch : ℕ) (d : Terminal)
    → k < 7
    → ch - 48 < 10
    → Expects k d
    → HasRead k (0 * 10 + (ch - 48)) d (digit ch d)
first_digit k ch d few small expects =
    let count : (if d.escape_seq_number_input
          then d.escape_seq_arg_count
          else d.escape_seq_arg_count + 1)
        ≡ suc k =
      ap (λ b. if b then d.escape_seq_arg_count else d.escape_seq_arg_count + 1) expects.in_gap
      ∙ omega (arith, expects.counted) in
    subst (HasRead k (0 * 10 + (ch - 48)) d)
      (sym (digit-stored ch d (omega (arith, expects.counted)) ∙ ap (λ c. stored d c ch) count))
      (stored-HasRead k 0 ch d d (omega arith) expects.state expects.empty (λ i less. refl)
        (λ i more. refl) (omega arith))

next_digit :
    (k v ch : ℕ) (d₀ d : Terminal)
    → k < 7
    → v * 10 + (ch - 48) < 4294967296
    → HasRead k v d₀ d
    → HasRead k (v * 10 + (ch - 48)) d₀ (digit ch d)
next_digit k v ch d₀ d few fits read =
    let count : (if d.escape_seq_number_input
          then d.escape_seq_arg_count
          else d.escape_seq_arg_count + 1)
        ≡ suc k =
      ap (λ b. if b then d.escape_seq_arg_count else d.escape_seq_arg_count + 1) read.in_number
      ∙ read.counted in
    subst (HasRead k (v * 10 + (ch - 48)) d₀)
      (sym (digit-stored ch d (omega (arith, read.counted)) ∙ ap (λ c. stored d c ch) count))
      (stored-HasRead k v ch d₀ d (omega arith) read.state read.value read.before read.behind fits)

module _ {S : Type 0} (wcwidth outside : ℕ → ℕ) (con : ConsoleInterface S) where
  -- A byte inside of a sequence that calls no handler.
  pub put_parameter :
      (ch : ℕ) (t : Tty S)
      → t.data_.escape_seq_state ≡ csi
      → ch < 256
      → final outside con ch ≡ none
      → put_char wcwidth con outside ch t ≡ (ok tt, record t { data_ = parameter ch t.data_ })
  unfolding put_char put_in escaped handle_csi
  put_parameter ch t reads small none_there =
      let byte : ch % 256 ≡ ch = omega arith in
      ap (λ state. put_in wcwidth con outside state ch t) reads
      ∙ ap (λ c. or_parameter outside con (final outside con c) c t) byte
      ∙ ap (λ o. or_parameter outside con o ch t) none_there

  digit-no_final : (d : ℕ) → d < 10 → final outside con (digit_char d) ≡ none
  unfolding final
  digit-no_final zero h = refl
  digit-no_final (suc zero) h = refl
  digit-no_final (suc (suc zero)) h = refl
  digit-no_final (suc (suc (suc zero))) h = refl
  digit-no_final (suc (suc (suc (suc zero)))) h = refl
  digit-no_final (suc (suc (suc (suc (suc zero))))) h = refl
  digit-no_final (suc (suc (suc (suc (suc (suc zero)))))) h = refl
  digit-no_final (suc (suc (suc (suc (suc (suc (suc zero))))))) h = refl
  digit-no_final (suc (suc (suc (suc (suc (suc (suc (suc zero)))))))) h = refl
  digit-no_final (suc (suc (suc (suc (suc (suc (suc (suc (suc zero))))))))) h = refl
  digit-no_final (suc (suc (suc (suc (suc (suc (suc (suc (suc (suc d)))))))))) h = ground arith

  digit-parameter :
      (d : ℕ) (data_ : Terminal)
      → d < 10
      → parameter (digit_char d) data_ ≡ digit (digit_char d) data_
  unfolding parameter
  digit-parameter d data_ small =
      let a : ltb d 10 ≡ true = ground arith in
      let b : (d + 48 == 63) ≡ false = ground arith in
      let c : leb 48 (d + 48) ≡ true = ground arith in
      let e : leb (d + 48) 57 ≡ true = ground arith in rw (a, b, c, e) refl

  pub put_chars_step :
      (ch : ℕ) (chs : List ℕ) (t u : Tty S)
      → put_char wcwidth con outside ch t ≡ (ok tt, u)
      → put_chars wcwidth con outside (ch ∷ chs) t ≡ put_chars wcwidth con outside chs u
  unfolding put_chars ◌>>◌
  put_chars_step ch chs t u e = ap (λ o. and_then o (λ _. put_chars wcwidth con outside chs)) e

  -- A digit goes to `digit`.
  put_digit :
      (d : ℕ) (chs : List ℕ) (t : Tty S)
      → d < 10
      → t.data_.escape_seq_state ≡ csi
      → put_chars wcwidth con outside (digit_char d ∷ chs) t
        ≡ put_chars wcwidth con outside chs (record t { data_ = digit (digit_char d) t.data_ })
  put_digit d chs t small state = put_chars_step (digit_char d) chs t _ (
      put_parameter (digit_char d) t state (ground arith) (digit-no_final d small)
      ∙ ap (λ x. (ok tt, record t { data_ = x })) (digit-parameter d t.data_ small))

  -- The rest of the characters is put on a terminal that has read the argument `k`.
  unfoldable pub Reaches : ℕ → ℕ → Terminal → List ℕ → List ℕ → Tty S → Type 0
  Reaches k v d₀ chs tail t =
      (d : Terminal) × (put_chars wcwidth con outside chs t
        ≡ put_chars wcwidth con outside tail (record t { data_ = d }))
      × HasRead k v d₀ d

  digits-Reaches :
      (k v : ℕ) (ds tail : List ℕ) (d₀ : Terminal) (t : Tty S)
      → k < 7
      → IsDigits 10 ds
      → number 10 v ds < 2147483648
      → HasRead k v d₀ t.data_
      → Reaches k (number 10 v ds) d₀ (numeral ds tail) tail t
  unfolding Reaches
  digits-Reaches k v [] tail d₀ t few small fits read = (t.data_, refl, read)
  digits-Reaches k v (d ∷ ds) tail d₀ t few (small, later) fits read =
      let grown = number_grows 10 (v * 10 + d) ds (omega arith) in
      let value : digit_char d - 48 ≡ d = ground arith in
      let u : Tty S = record t { data_ = digit (digit_char d) t.data_ } in
      let next : HasRead k (v * 10 + d) d₀ u.data_ =
        subst (λ z. HasRead k (v * 10 + z) d₀ u.data_) value
          (next_digit k v (digit_char d) d₀ t.data_ few (omega arith) read) in
      let (d', e, done_) = digits-Reaches k (v * 10 + d) ds tail d₀ u few later fits next in
      (d', put_digit d (numeral ds tail) t small read.state ∙ e, done_)

  -- A numeral of one digit or more is read as the argument that the terminal expects.
  pub numeral-Reaches :
      (k d : ℕ) (ds tail : List ℕ) (t : Tty S)
      → k < 7
      → IsDigits 10 (d ∷ ds)
      → number 10 0 (d ∷ ds) < 2147483648
      → Expects k t.data_
      → Reaches k (number 10 0 (d ∷ ds)) t.data_ (numeral (d ∷ ds) tail) tail t
  unfolding Reaches
  numeral-Reaches k d ds tail t few (small, later) fits expects =
      let value : digit_char d - 48 ≡ d = ground arith in
      let u : Tty S = record t { data_ = digit (digit_char d) t.data_ } in
      let next : HasRead k (0 * 10 + d) t.data_ u.data_ =
        subst (λ z. HasRead k (0 * 10 + z) t.data_ u.data_) value
          (first_digit k (digit_char d) t.data_ few (omega arith) expects) in
      let (d', e, done_) = digits-Reaches k (0 * 10 + d) ds tail t.data_ u few later fits next in
      (d', put_digit d (numeral ds tail) t small expects.state ∙ e, done_)
