-- ===== src/Terminal/Glyphs.antt =====
-- draw_char and draw_cursor of vellum/device/video/vconsole.c. The frame buffer is a memory of pixels; its device
-- and the fonts of vellum/font are parameters.
use sscc_oslecture.Base.{
  ltb, ◌==◌, if◌then◌else◌, get_or, add32, update, ℕ, zero, suc, ◌+◌, ◌-◌, ◌*◌, ◌/◌, ◌%◌, ◌^◌, Bool,
  not, ◌&&◌, ◌||◌, List, [], ◌∷◌,
}
use sscc_oslecture.Status.{Result, ok, err}
use sscc_oslecture.Terminal.{Cell, ConsoleInterface}

-- struct framebuffer_interface over the states of a device, with the console of the device for its text modes;
-- the pixels are the memory behind the pointer that get_framebuffer stores. VlFont_GetGlyphDimension and
-- VlFont_GetGlyphData give the size and the bytes of a glyph.
pub record Framebuffer (F : Type 0) : Type 0 where
  pub console : ConsoleInterface F
  pub get_framebuffer : F → Result (Unit {0})
  pub pixels : F → ℕ → ℕ
  pub with_pixels : F → (ℕ → ℕ) → F
  pub invalidate : ℕ → ℕ → ℕ → ℕ → F → Result (Unit {0}) × F
  pub flush : F → Result (Unit {0}) × F
  pub glyph_dimension : ℕ → Result (ℕ × ℕ)
  pub glyph_data : ℕ → Result (ℕ → ℕ)

-- cwidth, cheight and the bytes of the glyph
pub record Glyph : Type 0 where
  pub cwidth : ℕ
  pub cheight : ℕ
  pub bytes : ℕ → ℕ

abbrev fallback_glyph : List ℕ
fallback_glyph =
    0x00 ∷ 0x00 ∷ 0x00 ∷ 0x7E ∷ 0x66 ∷ 0x5A ∷ 0x5A ∷ 0x7A ∷ 0x76 ∷ 0x76 ∷ 0x7E ∷ 0x76 ∷ 0x76 ∷ 0x7E
    ∷ 0x00 ∷ 0x00 ∷ []

abbrev pub fallback : Glyph
fallback = record { cwidth = 8; cheight = 16; bytes = λ i. get_or fallback_glyph i 0 }

-- The glyph of the font, when there is one of 8 or 16 by 16 pixels.
abbrev with_data : ℕ × ℕ → Result (ℕ → ℕ) → Glyph
with_data (cwidth, cheight) (ok bytes) = record {
  cwidth = cwidth;
  cheight = cheight;
  bytes = bytes;
}
with_data size (err e) = fallback

abbrev with_size : Result (ℕ × ℕ) → Result (ℕ → ℕ) → Glyph
with_size (err e) data_ = fallback
with_size (ok (cwidth, cheight)) data_ =
    if (not (cwidth == 8) && not (cwidth == 16)) || not (cheight == 16)
    then fallback
    else with_data (cwidth, cheight) data_

unfoldable pub get_glyph_bit : Glyph → ℕ → ℕ → Bool
get_glyph_bit g x y = let i = y * g.cwidth + x in g.bytes (i / 8) / 2 ^ (7 - i % 8) % 2 == 1

-- `color &= 0xFCFCFC; color = (color >> 1) + (color >> 2);`
unfoldable pub dimmed : ℕ → ℕ
dimmed color =
    let masked =
      color / 65536 % 256 / 4 * 4 * 65536 + color / 256 % 256 / 4 * 4 * 256 + color % 256 / 4 * 4 in
    masked / 2 + masked / 4

-- The color of a pixel of a cell.
unfoldable pub pixel : Cell → Glyph → ℕ → ℕ → ℕ
pixel cell g x y =
    let a = cell.attr in
    let fg =
      get_glyph_bit g x y || ((not (a.text_bold == 0) && ltb 0 x) && get_glyph_bit g (x - 1) y) in
    let fg_color = if a.text_dim == 0 then a.fg_color else dimmed a.fg_color in
    let bg_color = if a.text_dim == 0 then a.bg_color else dimmed a.bg_color in
    if a.text_reversed == 0
    then (if fg then fg_color else bg_color)
    else if fg
    then bg_color
    else fg_color

-- The rows of pixels that a line goes through, and its color.
unfoldable pub has_line : Cell → ℕ → Bool
has_line cell y =
    let a = cell.attr in
    ((not (a.text_overlined == 0) && y == 1) || (not (a.text_strike == 0) && y == 8))
    || (not (a.text_underline == 0) && y == 15)

abbrev line_color : Cell → ℕ
line_color cell = if cell.attr.text_reversed == 0 then cell.attr.fg_color else cell.attr.bg_color

-- Pixels from `at` on, `n` of them, by their number in the row.
unfoldable pub fill : ℕ → (ℕ → ℕ) → ℕ → ℕ → (ℕ → ℕ) → ℕ → ℕ
fill at color x zero m = m
fill at color x (suc n) m = fill at color (x + 1) n (update m (add32 at x) (color x))

-- The loop over the rows of a glyph.
unfoldable pub draw_rows : ℕ → Cell → Glyph → ℕ → ℕ → ℕ → ℕ → (ℕ → ℕ) → ℕ → ℕ
draw_rows width cell g x_offset y_offset y zero m = m
draw_rows width cell g x_offset y_offset y (suc n) m =
    let at = ((y_offset + y) * width + x_offset) % 2 ^ 32 in
    let row = fill at (λ x. pixel cell g x y) 0 g.cwidth m in
    draw_rows width cell g x_offset y_offset (y + 1) n
      (if has_line cell y then fill at (λ x. line_color cell) 0 g.cwidth row else row)

module _ {F : Type 0} (fb : Framebuffer F) where
  -- What is drawn once the frame buffer has been asked for.
  abbrev on_pixels :
      Result (Unit {0})
      → ((ℕ → ℕ) → ℕ → ℕ)
      → (F → Result (Unit {0}) × F)
      → F
      → Result (Unit {0}) × F
  on_pixels (err e) draw then_invalidate f = (err e, f)
  on_pixels (ok _) draw then_invalidate f = then_invalidate (fb.with_pixels f (draw (fb.pixels f)))

  -- draw_char, of a cell of the buffer; `width` is that of the video mode.
  unfoldable pub draw_char : ℕ → Cell → ℕ → ℕ → F → Result (Unit {0}) × F
  draw_char width cell col row f =
      let g = with_size (fb.glyph_dimension cell.codepoint) (fb.glyph_data cell.codepoint) in
      let x_offset = col * 8 % 2 ^ 32 in
      let y_offset = row * 16 % 2 ^ 32 in
      let drawn =
        on_pixels (fb.get_framebuffer f) (draw_rows width cell g x_offset y_offset 0 g.cheight)
          (fb.invalidate x_offset y_offset (add32 x_offset g.cwidth) (add32 y_offset g.cheight))
          f in
      if cell.codepoint == 0xFFFFFFFF then (fb.get_framebuffer f, f) else drawn

  -- draw_cursor, two rows of white pixels
  unfoldable pub draw_cursor : ℕ → ℕ → ℕ → F → Result (Unit {0}) × F
  draw_cursor width col row f =
      let x = col * 8 % 2 ^ 32 in
      let y = row * 16 % 2 ^ 32 in
      let first = ((y + 14) * width + x) % 2 ^ 32 in
      let second = ((y + 15) * width + x) % 2 ^ 32 in
      on_pixels (fb.get_framebuffer f)
        (λ m. fill second (λ i. 0xFFFFFF) 0 8 (fill first (λ i. 0xFFFFFF) 0 8 m))
        (fb.invalidate x (add32 y 14) (add32 x 8) (add32 y 16)) f
