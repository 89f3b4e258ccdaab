-- ===== src/Terminal/Write.antt =====
-- vellum/device/char/ansiterm.c: write, which takes bytes of UTF-8. The bytes are a memory, `buf` an address
-- in it, and the loop runs on fuel.
use mathlib.Core.Option
use sscc_oslecture.Base.{
  ltb, leb, ◌==◌, if◌then◌else◌, add32, sub32, ℕ, zero, suc, ◌+◌, ◌-◌, ◌*◌, ◌/◌, ◌%◌, ◌^◌, ◌&&◌,
  Option, none, some,
}
use sscc_oslecture.Status.{Result, ok, err}
use sscc_oslecture.Terminal.{Terminal, ConsoleInterface, Tty, ◌>>◌, done, slt, minus_one, told}
use sscc_oslecture.Terminal.Output.{put_char}

-- get_seq_char; its -1 is the pattern of it.
unfoldable pub get_seq_char : Terminal → (ℕ → ℕ) → ℕ → ℕ → ℕ → ℕ
get_seq_char d m buf len idx =
    if slt idx d.utf8_fragment_len
    then d.utf8_fragment_buf idx
    else if slt idx (add32 d.utf8_fragment_len len)
    then m (add32 buf (sub32 idx d.utf8_fragment_len))
    else minus_one

-- The length of the sequence that a byte begins, and the bits of the character that the byte has.
unfoldable pub lead : ℕ → ℕ × ℕ
lead c =
    if ltb (c % 256) 128
    then (1, c % 128)
    else if ltb (c % 256) 224
    then (2, c % 32 * 64)
    else if ltb (c % 256) 240
    then (3, c % 16 * 4096)
    else if ltb (c % 256) 248
    then (4, c % 8 * 262144)
    else (minus_one, 0)

-- The loop over the other bytes of a sequence of `n`: where it stops, and the character. The bits that are
-- put in by `|` are 0 before.
unfoldable pub continued : (ℕ → ℕ) → ℕ → ℕ → ℕ → ℕ → ℕ × ℕ
continued get n i zero wch = (n, wch)
continued get n i (suc rounds) wch =
    let c = get i in
    let later = continued get n (i + 1) rounds (wch + c % 64 * 64 ^ (n - i - 1)) in
    if c / 64 % 4 == 2 then later else (i, 0xFFFD)

-- The length and the character at the start of the bytes.
unfoldable pub sequence : (ℕ → ℕ) → ℕ × ℕ → ℕ × ℕ
sequence get (n, wch) =
    let (stop, char) = continued get n 1 (if slt 1 n then n - 1 else 0) wch in
    if slt stop 1 then (1, 0xFFFD) else (stop, char)

-- The end of a sequence that is not all there is kept.
unfoldable pub keep_fragment : (ℕ → ℕ) → ℕ → ℕ → Terminal → Terminal
keep_fragment m buf len d = record d {
  utf8_fragment_buf = λ i.
      if leb d.utf8_fragment_len i && ltb i (d.utf8_fragment_len + len)
      then m (add32 buf (i - d.utf8_fragment_len))
      else d.utf8_fragment_buf i;
  utf8_fragment_len = add32 d.utf8_fragment_len len;
}

module _ {S : Type 0} (wcwidth outside : ℕ → ℕ) (con : ConsoleInterface S) where
  -- What follows put_char in a round of the loop: the failure, or the rest of the loop.
  unfoldable pub next_sequence :
      (Tty S → Option (Result ℕ × Tty S)) → Result (Unit {0}) × Tty S → Option (Result ℕ × Tty S)
  next_sequence later (err e, t) = some (err e, t)
  next_sequence later (ok _, t) =
      later (record t { data_ = record t.data_ { utf8_fragment_len = 0 } })

  -- The loop of write, with the count of bytes at its end: none on too little fuel.
  unfoldable pub write_loop : ℕ → (ℕ → ℕ) → ℕ → ℕ → ℕ → Tty S → Option (Result ℕ × Tty S)
  write_loop zero m buf len written t = none
  write_loop (suc fuel) m buf len written t =
      let d = t.data_ in
      let get = get_seq_char d m buf len in
      let first_byte = lead (get 0) in
      let (char_len, char) = sequence get first_byte in
      let taken = sub32 char_len d.utf8_fragment_len in
      let later =
        next_sequence (write_loop fuel m (add32 buf taken) (sub32 len taken) (add32 written taken))
          (put_char wcwidth con outside char t) in
      if len == 0
      then some (ok written, t)
      else if ltb (add32 d.utf8_fragment_len len) (first_byte.0)
      then some (ok (add32 written len), record t { data_ = keep_fragment m buf len d })
      else later

  -- What follows the loop.
  unfoldable pub flushed : Result ℕ × Tty S → Result ℕ × Tty S
  flushed (err e, t) = (err e, t)
  flushed (ok written, t) = ((told con.flush) >> done written) t

  unfoldable pub write : ℕ → (ℕ → ℕ) → ℕ → ℕ → Tty S → Option (Result ℕ × Tty S)
  write fuel m buf len t = Option.map flushed (write_loop fuel m buf len 0 t)
