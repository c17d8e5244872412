-- ===== src/Display/Font.antt =====
-- The font of src/display/vga_text_emulation.rs: 128 glyphs of 16 rows of 8 bits.
mod Symbols
mod Capitals
mod Letters
use kermol.Common.{ℕ, ◌++◌, List, [], ◌∷◌, replicate, if◌then◌else◌, ltb, Outcome, index, ok}
use Symbols.{symbols}
use Capitals.{capitals}
use Letters.{letters}

abbrev pub vga_font_width : ℕ
vga_font_width = 8

abbrev pub vga_font_height : ℕ
vga_font_height = 16

-- The control characters are empty.
abbrev pub vga_basic_font : List (List ℕ)
vga_basic_font = replicate 32 (replicate 16 0) ++ (symbols ++ (capitals ++ letters))

abbrev pub unknown_character : List ℕ
unknown_character =
    0 ∷ 0 ∷ 0xFF ∷ 0xC1 ∷ 0xA1 ∷ 0xA1 ∷ 0x91 ∷ 0x91 ∷ 0x89 ∷ 0x89 ∷ 0x85 ∷ 0x85 ∷ 0x83 ∷ 0xFF ∷ 0
    ∷ 0 ∷ []

unfoldable pub get_char_glyph {ℓ} : {E : Type ℓ} → ℕ → Outcome E (List ℕ)
get_char_glyph char = if ltb 127 char then ok unknown_character else index vga_basic_font char
