-- ===== src/Display/Example.antt =====
-- A small screen, and a log writer on it after the setup and a change of color.
use kermol.Common.{◌≡◌, refl, true, [], ◌∷◌, replicate, ok, none, some, arith}
use kermol.Display.Framebuffer.{LinearFramebuffer}
use kermol.Display.Bounds.{IsScreen}
use kermol.Display.Writer
use kermol.Display.Writer.{VgaWriter}
use kermol.Display.Console.{
  Console, Framebuffer, linear_framebuffer, init_kwriter, kwriter_set_color,
}
use kermol.Display.Reports.{IsDisplay, Reaches, start, initialised, colored}

-- Two columns and two rows of text.
abbrev pub screen : LinearFramebuffer
screen = record { dimensions = (16, 32); buffer = replicate 512 0 }

pub screen-IsScreen : IsScreen 16 32 screen
screen-IsScreen = record { wide = refl; tall = refl; whole = refl }

abbrev pub writer : VgaWriter
writer = Writer.new screen true 0xAAAAAA 0

abbrev pub display : Framebuffer
display = record { bpp = 32; width = 16; height = 32; pixels = replicate 512 0 }

pub display-IsDisplay : IsDisplay 16 32 (omega arith) (omega arith) (omega arith) (Unit {0}) display
display-IsDisplay = record {
  deep = refl;
  wide = refl;
  tall = refl;
  whole = refl;
  cell = (omega arith, omega arith);
}

abbrev pub at_start : Console
at_start = record { kwriter = none; panic_level = 0; serial = [] }

abbrev after_setup : Console
after_setup = record { kwriter = some writer; panic_level = 1; serial = [] }

sets_up : init_kwriter {E = Unit {0}} (some (display ∷ [])) at_start ≡ ok after_setup
unfolding init_kwriter linear_framebuffer
sets_up = refl

abbrev pub in_red : Console
in_red = record after_setup { kwriter = some (record writer { default_text = 0xFF5555 }) }

sets_color : kwriter_set_color {E = Unit {0}} 0xFF5555 after_setup ≡ ok in_red
unfolding kwriter_set_color
sets_color = refl

pub in_red-Reaches : Reaches 16 32 (omega arith) (omega arith) (omega arith) (Unit {0}) in_red
in_red-Reaches =
    colored 0xFF5555 after_setup in_red
      (initialised display [] at_start after_setup start refl display-IsDisplay sets_up) sets_color
