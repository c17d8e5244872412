-- ===== src/Display/Text.antt =====
-- The text cells of src/display/vga_text_emulation.rs, and its colors.
use kermol.Common.{
  ℕ, ◌/◌, ok, err, panic, out_of_fuel, Call, with_state, ◌>>=◌, mul64, Outcome, unwrap_failed,
}
use kermol.Display.Framebuffer
use kermol.Display.Framebuffer.{LinearFramebuffer, Place, plot_glyph}
use kermol.Display.Font.{vga_font_width, vga_font_height, get_char_glyph}

abbrev pub get_text_buffer_dimensions : LinearFramebuffer → ℕ × ℕ
get_text_buffer_dimensions lfb =
    (lfb.dimensions.0 / vga_font_width, lfb.dimensions.1 / vga_font_height)

-- `x.unwrap()` for a call that changes a state.
abbrev unwrap {ℓ κ μ} : {E : Type ℓ} {E' : Type κ} {A : Type μ} → Outcome E A → Outcome E' A
unwrap (ok a) = ok a
unwrap (err e) = panic unwrap_failed
unwrap (panic p) = panic p
unwrap out_of_fuel = out_of_fuel

unfoldable pub put_char {ℓ} : {E : Type ℓ} → ℕ → ℕ → ℕ → ℕ → ℕ → Call LinearFramebuffer E (Unit {0})
put_char column row color background_color char lfb = do
  (x, lfb) ← with_state lfb (mul64 column vga_font_width)
  (y, lfb) ← with_state lfb (mul64 row vga_font_height)
  (glyph, lfb) ← with_state lfb (get_char_glyph char)
  let place : Place = record {
    x = x;
    y = y;
    width = vga_font_width;
    height = vga_font_height;
    color = color;
    background = background_color;
  }
  unwrap (plot_glyph place glyph lfb)

unfoldable pub scroll {ℓ} : {E : Type ℓ} → ℕ → ℕ → Call LinearFramebuffer E (Unit {0})
scroll rows background lfb = do
  (layers, lfb) ← with_state lfb (mul64 rows vga_font_height)
  Framebuffer.scroll layers background lfb

pub data VgaColor : Type 0 where
  black blue green cyan red magenta brown light_gray : VgaColor
  dark_gray light_blue light_green light_cyan light_red pink yellow white : VgaColor

-- `color as u32`.
abbrev pub as_u32 : VgaColor → ℕ
as_u32 black = 0x0
as_u32 blue = 0xAA
as_u32 green = 0xAA00
as_u32 cyan = 0xAAAA
as_u32 red = 0xAA0000
as_u32 magenta = 0xAA00AA
as_u32 brown = 0xAAAA00
as_u32 light_gray = 0xAAAAAA
as_u32 dark_gray = 0x555555
as_u32 light_blue = 0x5555FF
as_u32 light_green = 0x55FF55
as_u32 light_cyan = 0x55FFFF
as_u32 light_red = 0xFF5555
as_u32 pink = 0xFF55FF
as_u32 yellow = 0xFFFF55
as_u32 white = 0xFFFFFF
