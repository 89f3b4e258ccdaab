-- ===== src/Terminal/Colors.antt =====
-- vellum/device/char/ansiterm.c: the palette, and handle_sgr, which sets the attributes of what is written.
use sscc_oslecture.Base.{
  ltb, leb, ◌==◌, if◌then◌else◌, get_or, ℕ, ◌+◌, ◌-◌, ◌*◌, ◌%◌, ◌^◌, Bool, ◌&&◌, ◌||◌, Option, none,
  some, List, [], ◌∷◌, ◌++◌,
}
use sscc_oslecture.Terminal.{Attributes, plain, Terminal, Action, ◌>>=◌, get_data, set_data, arg_or}

-- RGBI colors
abbrev rgbi_colors : List ℕ
rgbi_colors =
    0x000000 ∷ 0xAA0000 ∷ 0x00AA00 ∷ 0xAA5500 ∷ 0x0000AA ∷ 0xAA00AA ∷ 0x00AAAA ∷ 0xAAAAAA ∷ 0x555555
    ∷ 0xFF5555 ∷ 0x55FF55 ∷ 0xFFFF55 ∷ 0x5555FF ∷ 0xFF55FF ∷ 0x55FFFF ∷ 0xFFFFFF ∷ []

-- 216 colors, 0 to 35
abbrev colors_0 : List ℕ
colors_0 =
    0x000000 ∷ 0x00005F ∷ 0x000087 ∷ 0x0000AF ∷ 0x0000D7 ∷ 0x0000FF ∷ 0x005F00 ∷ 0x005F5F ∷ 0x005F87
    ∷ 0x005FAF ∷ 0x005FD7 ∷ 0x005FFF ∷ 0x008700 ∷ 0x00875F ∷ 0x008787 ∷ 0x0087AF ∷ 0x0087D7
    ∷ 0x0087FF ∷ 0x00AF00 ∷ 0x00AF5F ∷ 0x00AF87 ∷ 0x00AFAF ∷ 0x00AFD7 ∷ 0x00AFFF ∷ 0x00D700
    ∷ 0x00D75F ∷ 0x00D787 ∷ 0x00D7AF ∷ 0x00D7D7 ∷ 0x00D7FF ∷ 0x00FF00 ∷ 0x00FF5F ∷ 0x00FF87
    ∷ 0x00FFAF ∷ 0x00FFD7 ∷ 0x00FFFF ∷ []

-- 216 colors, 36 to 71
abbrev colors_1 : List ℕ
colors_1 =
    0x5F0000 ∷ 0x5F005F ∷ 0x5F0087 ∷ 0x5F00AF ∷ 0x5F00D7 ∷ 0x5F00FF ∷ 0x5F5F00 ∷ 0x5F5F5F ∷ 0x5F5F87
    ∷ 0x5F5FAF ∷ 0x5F5FD7 ∷ 0x5F5FFF ∷ 0x5F8700 ∷ 0x5F875F ∷ 0x5F8787 ∷ 0x5F87AF ∷ 0x5F87D7
    ∷ 0x5F87FF ∷ 0x5FAF00 ∷ 0x5FAF5F ∷ 0x5FAF87 ∷ 0x5FAFAF ∷ 0x5FAFD7 ∷ 0x5FAFFF ∷ 0x5FD700
    ∷ 0x5FD75F ∷ 0x5FD787 ∷ 0x5FD7AF ∷ 0x5FD7D7 ∷ 0x5FD7FF ∷ 0x5FFF00 ∷ 0x5FFF5F ∷ 0x5FFF87
    ∷ 0x5FFFAF ∷ 0x5FFFD7 ∷ 0x5FFFFF ∷ []

-- 216 colors, 72 to 107
abbrev colors_2 : List ℕ
colors_2 =
    0x870000 ∷ 0x87005F ∷ 0x870087 ∷ 0x8700AF ∷ 0x8700D7 ∷ 0x8700FF ∷ 0x875F00 ∷ 0x875F5F ∷ 0x875F87
    ∷ 0x875FAF ∷ 0x875FD7 ∷ 0x875FFF ∷ 0x878700 ∷ 0x87875F ∷ 0x878787 ∷ 0x8787AF ∷ 0x8787D7
    ∷ 0x8787FF ∷ 0x87AF00 ∷ 0x87AF5F ∷ 0x87AF87 ∷ 0x87AFAF ∷ 0x87AFD7 ∷ 0x87AFFF ∷ 0x87D700
    ∷ 0x87D75F ∷ 0x87D787 ∷ 0x87D7AF ∷ 0x87D7D7 ∷ 0x87D7FF ∷ 0x87FF00 ∷ 0x87FF5F ∷ 0x87FF87
    ∷ 0x87FFAF ∷ 0x87FFD7 ∷ 0x87FFFF ∷ []

-- 216 colors, 108 to 143
abbrev colors_3 : List ℕ
colors_3 =
    0xAF0000 ∷ 0xAF005F ∷ 0xAF0087 ∷ 0xAF00AF ∷ 0xAF00D7 ∷ 0xAF00FF ∷ 0xAF5F00 ∷ 0xAF5F5F ∷ 0xAF5F87
    ∷ 0xAF5FAF ∷ 0xAF5FD7 ∷ 0xAF5FFF ∷ 0xAF8700 ∷ 0xAF875F ∷ 0xAF8787 ∷ 0xAF87AF ∷ 0xAF87D7
    ∷ 0xAF87FF ∷ 0xAFAF00 ∷ 0xAFAF5F ∷ 0xAFAF87 ∷ 0xAFAFAF ∷ 0xAFAFD7 ∷ 0xAFAFFF ∷ 0xAFD700
    ∷ 0xAFD75F ∷ 0xAFD787 ∷ 0xAFD7AF ∷ 0xAFD7D7 ∷ 0xAFD7FF ∷ 0xAFFF00 ∷ 0xAFFF5F ∷ 0xAFFF87
    ∷ 0xAFFFAF ∷ 0xAFFFD7 ∷ 0xAFFFFF ∷ []

-- 216 colors, 144 to 179
abbrev colors_4 : List ℕ
colors_4 =
    0xD70000 ∷ 0xD7005F ∷ 0xD70087 ∷ 0xD700AF ∷ 0xD700D7 ∷ 0xD700FF ∷ 0xD75F00 ∷ 0xD75F5F ∷ 0xD75F87
    ∷ 0xD75FAF ∷ 0xD75FD7 ∷ 0xD75FFF ∷ 0xD78700 ∷ 0xD7875F ∷ 0xD78787 ∷ 0xD787AF ∷ 0xD787D7
    ∷ 0xD787FF ∷ 0xD7AF00 ∷ 0xD7AF5F ∷ 0xD7AF87 ∷ 0xD7AFAF ∷ 0xD7AFD7 ∷ 0xD7AFFF ∷ 0xD7D700
    ∷ 0xD7D75F ∷ 0xD7D787 ∷ 0xD7D7AF ∷ 0xD7D7D7 ∷ 0xD7D7FF ∷ 0xD7FF00 ∷ 0xD7FF5F ∷ 0xD7FF87
    ∷ 0xD7FFAF ∷ 0xD7FFD7 ∷ 0xD7FFFF ∷ []

-- 216 colors, 180 to 215
abbrev colors_5 : List ℕ
colors_5 =
    0xFF0000 ∷ 0xFF005F ∷ 0xFF0087 ∷ 0xFF00AF ∷ 0xFF00D7 ∷ 0xFF00FF ∷ 0xFF5F00 ∷ 0xFF5F5F ∷ 0xFF5F87
    ∷ 0xFF5FAF ∷ 0xFF5FD7 ∷ 0xFF5FFF ∷ 0xFF8700 ∷ 0xFF875F ∷ 0xFF8787 ∷ 0xFF87AF ∷ 0xFF87D7
    ∷ 0xFF87FF ∷ 0xFFAF00 ∷ 0xFFAF5F ∷ 0xFFAF87 ∷ 0xFFAFAF ∷ 0xFFAFD7 ∷ 0xFFAFFF ∷ 0xFFD700
    ∷ 0xFFD75F ∷ 0xFFD787 ∷ 0xFFD7AF ∷ 0xFFD7D7 ∷ 0xFFD7FF ∷ 0xFFFF00 ∷ 0xFFFF5F ∷ 0xFFFF87
    ∷ 0xFFFFAF ∷ 0xFFFFD7 ∷ 0xFFFFFF ∷ []

-- grayscale colors
abbrev grayscale_colors : List ℕ
grayscale_colors =
    0x080808 ∷ 0x121212 ∷ 0x1C1C1C ∷ 0x262626 ∷ 0x303030 ∷ 0x3A3A3A ∷ 0x444444 ∷ 0x4E4E4E ∷ 0x585858
    ∷ 0x626262 ∷ 0x6C6C6C ∷ 0x767676 ∷ 0x808080 ∷ 0x8A8A8A ∷ 0x949494 ∷ 0x9E9E9E ∷ 0xA8A8A8
    ∷ 0xB2B2B2 ∷ 0xBCBCBC ∷ 0xC6C6C6 ∷ 0xD0D0D0 ∷ 0xDADADA ∷ 0xE4E4E4 ∷ 0xEEEEEE ∷ []

unfoldable pub palette_colors : List ℕ
palette_colors =
    rgbi_colors ++ colors_0 ++ colors_1 ++ colors_2 ++ colors_3 ++ colors_4 ++ colors_5
    ++ grayscale_colors

-- `palette[i]`; what is read outside of the table is a parameter.
unfoldable pub palette : (ℕ → ℕ) → ℕ → ℕ
palette outside i = if ltb i 256 then get_or palette_colors i 0 else outside i

-- The cases 0 to 29 of handle_sgr that set a flag.
unfoldable pub set_flag : ℕ → Attributes → Option Attributes
set_flag option a =
    if option == 1
    then some (record a { text_bold = 1 })
    else if option == 2
    then some (record a { text_dim = 1 })
    else if option == 3
    then some (record a { text_italic = 1 })
    else if option == 4
    then some (record a { text_underline = 1 })
    else if option == 5
    then some (record a { text_blink_level = 1 })
    else if option == 6
    then some (record a { text_blink_level = 2 })
    else if option == 7
    then some (record a { text_reversed = 1 })
    else if option == 8
    then some (record a { text_blink_level = 3 })
    else if option == 9
    then some (record a { text_strike = 1 })
    else if option == 22
    then some (record a { text_bold = 0; text_dim = 0 })
    else if option == 23
    then some (record a { text_italic = 0 })
    else if option == 24
    then some (record a { text_underline = 0 })
    else if option == 25 || option == 28
    then some (record a { text_blink_level = 0 })
    else if option == 27
    then some (record a { text_reversed = 0 })
    else if option == 29
    then some (record a { text_strike = 0 })
    else if option == 53
    then some (record a { text_overlined = 1 })
    else if option == 55
    then some (record a { text_overlined = 0 })
    else none

-- Case 0.
abbrev pub reset_attributes : (ℕ → ℕ) → Attributes
reset_attributes outside = record {
  fg_color = palette outside 15;
  text_blink_level = 0;
  text_reversed = 0;
  text_bold = 0;
  text_dim = 0;
  text_italic = 0;
  text_underline = 0;
  text_strike = 0;
  bg_color = palette outside 0;
  text_overlined = 0;
}

-- Cases 38 and 48: the color that the arguments choose. Colors have 24 bits.
unfoldable pub chosen_color : (ℕ → ℕ) → Terminal → Option ℕ
chosen_color outside d =
    if ltb d.escape_seq_arg_count 2
    then none
    else if d.escape_seq_args 1 == 5
    then (if ltb d.escape_seq_arg_count 3
        then none
        else some (palette outside (d.escape_seq_args 2) % 2 ^ 24))
    else if d.escape_seq_args 1 == 2
    then (if ltb d.escape_seq_arg_count 5
        then none
        else some (
            d.escape_seq_args 2 % 256 * 65536
            + d.escape_seq_args 3 % 256 * 256
            + d.escape_seq_args 4 % 256))
    else none

abbrev pub is_within : ℕ → ℕ → ℕ → Bool
is_within lo hi option = leb lo option && leb option hi

-- The cases that choose the color of the text.
unfoldable pub set_foreground : (ℕ → ℕ) → Terminal → ℕ → Option ℕ
set_foreground outside d option =
    if is_within 30 37 option
    then some (palette outside (option - 30))
    else if option == 38
    then chosen_color outside d
    else if option == 39
    then some (palette outside 7)
    else if is_within 90 97 option
    then some (palette outside (option - 90 + 8))
    else none

-- Those that choose the background.
unfoldable pub set_background : (ℕ → ℕ) → Terminal → ℕ → Option ℕ
set_background outside d option =
    if is_within 40 47 option
    then some (palette outside (option - 40))
    else if option == 48
    then chosen_color outside d
    else if option == 49
    then some (palette outside 0)
    else if is_within 100 107 option
    then some (palette outside (option - 100 + 8))
    else none

abbrev or_attributes : Option Attributes → Attributes → Attributes
or_attributes none a = a
or_attributes (some b) a = b

abbrev with_foreground : Option ℕ → Attributes → Attributes
with_foreground none a = a
with_foreground (some color) a = record a { fg_color = color }

abbrev with_background : Option ℕ → Attributes → Attributes
with_background none a = a
with_background (some color) a = record a { bg_color = color }

-- The switch of handle_sgr; each option has one case at most.
unfoldable pub selected : (ℕ → ℕ) → Terminal → ℕ → Attributes
selected outside d option =
    if option == 0
    then reset_attributes outside
    else with_background (set_background outside d option) (
        with_foreground (set_foreground outside d option)
          (or_attributes (set_flag option d.attr_state) d.attr_state))

module _ {S : Type 0} (outside : ℕ → ℕ) where
  unfoldable pub handle_sgr : Action S (Unit {0})
  handle_sgr = do
    option ← arg_or 0 0
    d ← get_data
    set_data (record d { attr_state = selected outside d option; escape_seq_state = plain })
