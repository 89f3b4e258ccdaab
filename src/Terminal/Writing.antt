-- ===== src/Terminal/Writing.antt =====
-- write of vellum/device/char/ansiterm.c on a text of UTF-8 against put_char of its characters.
use mathlib.Core.Option
use sscc_oslecture.Base.{
  ltb, ◌==◌, length, length-append, add32, sub32, ℕ, zero, suc, ◌+◌, ◌<◌, ◌≡◌, refl, sym, ap, subst,
  ◌∙◌, false, Option, some, List, [], ◌∷◌, arith,
}
use sscc_oslecture.Status.{Result, ok, err, and_then}
use sscc_oslecture.Terminal.{ConsoleInterface, Tty, ◌>>◌, done}
use sscc_oslecture.Terminal.Write.{
  get_seq_char, lead, sequence, next_sequence, write_loop, flushed, write,
}
use sscc_oslecture.Terminal.Output.{put_char, put_chars}
use sscc_oslecture.Terminal.Keeping.{Kept}
use sscc_oslecture.Terminal.Utf8.{encode, encode_all, Holds}
use sscc_oslecture.Terminal.Texts.{
  IsWhole, IsWhole-IsKept, tail-Holds, length-encode, AreCharacters, character_lem,
}
use sscc_oslecture.Terminal.Handlers.{put_char-Keeps}

-- A result of put_char with a count of bytes.
abbrev pub counted : {S : Type 0} → ℕ → Result (Unit {0}) × Tty S → Result ℕ × Tty S
counted n (ok _, t) = (ok n, t)
counted n (err e, t) = (err e, t)

module _ {S : Type 0} (wcwidth outside : ℕ → ℕ) (con : ConsoleInterface S) where
  -- The rest of the characters after one that was put.
  next_lem :
      (n : ℕ) (chs : List ℕ) (o : Result (Unit {0}) × Tty S)
      (later : Tty S → Option (Result ℕ × Tty S))
      → Kept IsWhole o
      → ((t : Tty S)
          → IsWhole t.data_
          → later t ≡ some (counted n (put_chars wcwidth con outside chs t)))
      → next_sequence wcwidth outside con later o
        ≡ some (counted n (and_then o (λ _. put_chars wcwidth con outside chs)))
  unfolding next_sequence Kept IsWhole
  next_lem n chs (err e, t) later whole h = refl
  next_lem n chs (ok _, t) later whole h =
      ap (λ k. later (record t { data_ = record t.data_ { utf8_fragment_len = k } })) (sym whole)
      ∙ h t whole

  -- A round of the loop at a character of n bytes, with k bytes after it.
  round_lem :
      (fuel : ℕ) (m : ℕ → ℕ) (buf written n k ch : ℕ) (chs : List ℕ) (t : Tty S)
      → 0 < n
      → n + k < 2147483648
      → buf + (n + k) < 4294967296
      → written + (n + k) < 4294967296
      → IsWhole t.data_
      → (let get = get_seq_char t.data_ m buf (n + k) in
          ((lead (get 0)).0 ≡ n) × (sequence get (lead (get 0)) ≡ (n, ch)))
      → ((t : Tty S)
          → IsWhole t.data_
          → write_loop wcwidth outside con fuel m (buf + n) k (written + n) t
            ≡ some (counted (written + n + k) (put_chars wcwidth con outside chs t)))
      → write_loop wcwidth outside con (suc fuel) m buf (n + k) written t
        ≡ some (counted (written + (n + k)) (put_chars wcwidth con outside (ch ∷ chs) t))
  unfolding write_loop put_chars ◌>>◌ IsWhole
  round_lem fuel m buf written n k ch chs t some_byte small fits counts whole (leads, reads) later =
      let frag = t.data_.utf8_fragment_len in
      let w : frag ≡ 0 = whole in
      let none_left : (n + k == 0) ≡ false = ground arith in
      let all_there : ltb (add32 frag (n + k)) n ≡ false = ground arith in
      let a : add32 buf (sub32 n frag) ≡ buf + n = omega arith in
      let b : sub32 (n + k) (sub32 n frag) ≡ k = omega arith in
      let c : add32 written (sub32 n frag) ≡ written + n = omega arith in
      let total : written + n + k ≡ written + (n + k) = omega arith in
      rw (reads, leads, none_left, all_there, a, b, c)
        (next_lem (written + (n + k)) chs (put_char wcwidth con outside ch t)
          (λ x. write_loop wcwidth outside con fuel m (buf + n) k (written + n) x)
          ((put_char-Keeps IsWhole IsWhole-IsKept con outside wcwidth ch).keep t whole)
          (λ t' h.
            later t' h ∙ ap (λ x. some (counted x (put_chars wcwidth con outside chs t'))) total))

  loop_lem :
      (fuel : ℕ) (m : ℕ → ℕ) (buf written : ℕ) (chs : List ℕ) (t : Tty S)
      → length chs < fuel
      → AreCharacters chs
      → Holds m buf (encode_all chs)
      → length (encode_all chs) < 2147483648
      → buf + length (encode_all chs) < 4294967296
      → written + length (encode_all chs) < 4294967296
      → IsWhole t.data_
      → write_loop wcwidth outside con fuel m buf (length (encode_all chs)) written t
        ≡ some (counted (written + length (encode_all chs)) (put_chars wcwidth con outside chs t))
  unfolding write_loop
  loop_lem zero m buf written chs t enough are holds small fits counts whole = ground arith
  loop_lem (suc fuel) m buf written [] t enough are holds small fits counts whole =
      unfold encode_all put_chars done in ap (λ n. some (ok n, t)) (omega arith)
  loop_lem (suc fuel) m buf written (ch ∷ chs) t enough are holds small fits counts whole =
      let e : length (encode_all (ch ∷ chs)) ≡ length (encode ch) + length (encode_all chs) =
        unfold encode_all in length-append (encode ch) (encode_all chs) in
      let few = length-encode ch in
      subst
        (λ n.
          write_loop wcwidth outside con (suc fuel) m buf n written t
          ≡ some (counted (written + n) (put_chars wcwidth con outside (ch ∷ chs) t)))
        (sym e)
        (round_lem fuel m buf written (length (encode ch)) (length (encode_all chs)) ch chs t
          (few.0) (omega arith) (omega arith) (omega arith) whole
          (character_lem t.data_ m buf ch (encode_all chs) (are.0) (unfold encode_all in holds)
            (omega arith) (omega arith) whole)
          (λ t' h.
            loop_lem fuel m (buf + length (encode ch)) (written + length (encode ch)) chs t'
              (omega arith) (are.1)
              (tail-Holds m buf (encode ch) (encode_all chs) (unfold encode_all in holds))
              (omega arith) (omega arith) (omega arith) h))

-- write on a text of UTF-8, where no fragment of a sequence waits: on the fuel of a round for each character
-- and one more it does what put_char does on the characters in their order, tells the console to flush, and
-- returns the number of bytes; a failure of the console ends it and is returned. The text is of characters up
-- to U+1FFFFF, of less than 2^31 bytes, and does not wrap around the address space.
pub write-put_chars :
    {S : Type 0} (wcwidth outside : ℕ → ℕ) (con : ConsoleInterface S) (m : ℕ → ℕ) (buf : ℕ)
    (chs : List ℕ) (t : Tty S)
    → AreCharacters chs
    → Holds m buf (encode_all chs)
    → length (encode_all chs) < 2147483648
    → buf + length (encode_all chs) < 4294967296
    → IsWhole t.data_
    → write wcwidth outside con (suc (length chs)) m buf (length (encode_all chs)) t
      ≡ some (
          flushed wcwidth outside con
            (counted (length (encode_all chs)) (put_chars wcwidth con outside chs t)))
unfolding write
write-put_chars wcwidth outside con m buf chs t are holds small fits whole =
    let end = length (encode_all chs) in
    let start : 0 + end ≡ end = omega arith in
    ap (Option.map (flushed wcwidth outside con)) (
      loop_lem wcwidth outside con (suc (length chs)) m buf 0 chs t (omega arith) are holds small
        fits (omega arith) whole
      ∙ ap (λ n. some (counted n (put_chars wcwidth con outside chs t))) start)
