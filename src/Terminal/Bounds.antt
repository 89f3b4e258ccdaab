-- ===== src/Terminal/Bounds.antt =====
-- The loops of console_erase, console_scroll and console_backspace in vellum/device/char/ansiterm.c stay
-- inside the buffer of cells.
use native.Mathlib.Nat.{mul-le-mul_left}
use sscc_oslecture.Base.{
  ◌==◌, if◌then◌else◌, add32, sub32, update, ℕ, zero, suc, ◌+◌, ◌-◌, ◌*◌, ◌%◌, ◌≤◌, ◌<◌, ◌≡◌, Bool,
  true, false, arith,
}
use sscc_oslecture.Terminal.{Cell, minus_one}
use sscc_oslecture.Terminal.Drawing.{
  rounds, index, erase_row, erase_rows, copy_row, shift_up, last_column, back_column,
}

-- The memory behind the cells of the screen is as it was.
pub record IsInside (w h : ℕ) (behind : ℕ → Cell) (m : ℕ → Cell) : Type 0 where
  pub outside : (i : ℕ) → w * h ≤ i → m i ≡ behind i

module _ (w h : ℕ) (small : w * h < 2147483648) (wide : w < 2147483648) (high : h < 2147483648)
    (behind : ℕ → Cell) where
  row_end : (y : ℕ) → y < h → y * w + w ≤ w * h
  row_end y below = let whole : w * (y + 1) ≤ w * h = mul-le-mul_left w (omega arith) in omega arith

  pub index-lt : (y x : ℕ) → y < h → x < w → index w y x < w * h
  index-lt y x below left = omega (arith, row_end y below)

  pub update-IsInside :
      (m : ℕ → Cell) (y x : ℕ) (cell : Cell)
      → y < h
      → x < w
      → IsInside w h behind m
      → IsInside w h behind (update m (index w y x) cell)
  update-IsInside m y x cell below left inside = record {
    outside = λ i far.
        let place = index-lt y x below left in
        let other : (index w y x == i) ≡ false = ground arith in rw other (inside.outside i far);
  }

  erase_row-IsInside :
      (blank : Cell) (y x n : ℕ) (m : ℕ → Cell)
      → y < h
      → x + n ≤ w
      → IsInside w h behind m
      → IsInside w h behind (erase_row blank w y x n m)
  unfolding erase_row
  erase_row-IsInside blank y x zero m below fits inside = inside
  erase_row-IsInside blank y x (suc n) m below fits inside =
      erase_row-IsInside blank y (add32 x 1) n (update m (index w y x) blank) below (omega arith)
        (update-IsInside m y x blank below (omega arith) inside)

  pub erase_rows-IsInside :
      (blank : Cell) (x y columns rows : ℕ) (m : ℕ → Cell)
      → x + columns ≤ w
      → y + rows ≤ h
      → IsInside w h behind m
      → IsInside w h behind (erase_rows blank w x y columns rows m)
  unfolding erase_rows
  erase_rows-IsInside blank x y columns zero m fits below inside = inside
  erase_rows-IsInside blank x y columns (suc rows) m fits below inside =
      erase_rows-IsInside blank x (add32 y 1) columns rows (erase_row blank w y x columns m) fits
        (omega arith) (erase_row-IsInside blank y x columns m (omega arith) fits inside)

  copy_row-IsInside :
      (to from x n : ℕ) (m : ℕ → Cell)
      → to < h
      → x + n ≤ w
      → IsInside w h behind m
      → IsInside w h behind (copy_row w to from x n m)
  unfolding copy_row
  copy_row-IsInside to from x zero m below fits inside = inside
  copy_row-IsInside to from x (suc n) m below fits inside =
      copy_row-IsInside to from (add32 x 1) n (update m (index w to x) (m (index w from x))) below
        (omega arith) (update-IsInside m to x (m (index w from x)) below (omega arith) inside)

  pub shift_up-IsInside :
      (amount x y columns rows : ℕ) (m : ℕ → Cell)
      → x + columns ≤ w
      → y + rows ≤ h
      → IsInside w h behind m
      → IsInside w h behind (shift_up w amount x y columns rows m)
  unfolding shift_up
  shift_up-IsInside amount x y columns zero m fits below inside = inside
  shift_up-IsInside amount x y columns (suc rows) m fits below inside =
      shift_up-IsInside amount x (add32 y 1) columns rows
        (copy_row w y (add32 y amount) x columns m) fits (omega arith)
        (copy_row-IsInside y (add32 y amount) x columns m (omega arith) fits inside)

if-lt : (b : Bool) (x y w : ℕ) → x < w → y < w → (if b then x else y) < w
if-lt true x y w p q = p
if-lt false x y w p q = q

last_column-lt :
    (m : ℕ → Cell) (w y low x n : ℕ)
    → w < 2147483648
    → low < w
    → x + 1 < w
    → n ≤ x + 1
    → last_column m w y low x n < w
unfolding last_column
last_column-lt m w y low x zero wide l r e = l
last_column-lt m w y low x (suc zero) wide l r e =
    if-lt ((m (index w y x)).codepoint == 0) low (add32 x 1) w l (omega arith)
last_column-lt m w y low x (suc (suc n)) wide l r e =
    if-lt ((m (index w y x)).codepoint == 0) _ (add32 x 1) w
      (last_column-lt m w y low (sub32 x 1) (suc n) wide l (omega arith) (omega arith))
      (omega arith)

rounds-le : (lo hi : ℕ) → lo < 2147483648 → hi < 2147483648 → rounds lo hi ≤ hi + 1
rounds-le lo hi l h = ground arith

rounds_none : (lo : ℕ) → lo < 2147483648 → rounds lo minus_one ≡ 0
rounds_none lo l = ground arith

pub back_column-lt :
    (m : ℕ → Cell) (w x y : ℕ) → w < 2147483648 → 0 < x → x < w → back_column m w x y < w
unfolding back_column
back_column-lt m w zero y wide some_column left = ground arith
back_column-lt m w (suc zero) y wide some_column left =
    if-lt ((m (index w y 0)).codepoint == 0) (last_column m w y 0 minus_one (rounds 0 minus_one)) 0
      w (rw (rounds_none 0 (omega arith)) (unfold last_column in omega arith)) (omega arith)
back_column-lt m w (suc (suc x)) y wide some_column left =
    let here : sub32 (suc (suc x)) 1 ≡ suc x = omega arith in
    let next : sub32 (suc (suc x)) 2 ≡ x = omega arith in
    let low = suc x - suc x % 8 in
    rw (here, next)
      (if-lt ((m (index w y (suc x))).codepoint == 0) (last_column m w y low x (rounds low x))
        (suc x) w
        (last_column-lt m w y low x (rounds low x) wide (omega arith) (omega arith)
          (omega (arith, rounds-le low x (omega arith) (omega arith))))
        (omega arith))
