-- ===== src/Display/Tests.antt =====
-- Runs of the text display, and its theorems at concrete inputs.
use kermol.Common.{◌*◌, ◌≡◌, ◌+◌, refl, true, [], ◌∷◌, ok, arith}
use kermol.Display.Framebuffer.{LinearFramebufferError, Place, scroll}
use kermol.Display.Terminal.{Terminal, blank, type_all}
use kermol.Display.Terminal.Cells.{get_or-replicate}
use kermol.Display.Terminal.Refine.{Shows, Renders, write_string-Renders}
use kermol.Display.Scroll.{scroll_lem, scrolled}
use kermol.Display.Writer.{write_string}
use kermol.Display.Console.{panic_handler}
use kermol.Display.Reports.{Reports, panic_handler-Reports}
use kermol.Display.Example.{screen, screen-IsScreen, writer, in_red, in_red-Reaches}

abbrev corner : Place
corner = record { x = 8; y = 16; width = 8; height = 16; color = 1; background = 2 }

scroll_lem_example :
    scroll {E = LinearFramebufferError} 16 3 screen ≡ ok (tt, scrolled (16 * 16) 3 screen)
scroll_lem_example = scroll_lem 16 32 (omega arith) screen screen-IsScreen 16 3 (omega arith)

-- The panic handler after the setup and a change of color.
panic_handler-Reports_example :
    Reports 16 32
      (omega arith)
      (omega arith)
      (omega arith)
      (Unit {0})
      (79 ∷ 75 ∷ [])
      in_red
      (panic_handler (79 ∷ 75 ∷ []) in_red)
panic_handler-Reports_example =
    panic_handler-Reports 16 32 (omega arith) (omega arith) (omega arith) (Unit {0}) (79 ∷ 75 ∷ [])
      in_red in_red-Reaches

-- An empty terminal of two columns and two rows.
abbrev cleared : Terminal
cleared = record {
  cells = λ x y. blank 0;
  column = 0;
  row = 0;
  text = 0xAAAAAA;
  background = 0;
  scrolling = true;
}

writer-Shows : Shows 16 32 (omega arith) (omega arith) (omega arith) refl (Unit {0}) writer cleared
writer-Shows = record {
  screen = screen-IsScreen;
  grid = λ x y i j in_x in_y in_i in_j.
      get_or-replicate 512 (x * 8 + i + (y * 16 + j) * 16) 0 0 (omega arith);
  column = refl;
  row = refl;
  text = refl;
  background = refl;
  scrolling = refl;
}

-- A letter, a tab that scrolls, a line feed and a character outside the font.
write_string-Renders_example :
    Renders 16 32
      (omega arith)
      (omega arith)
      (omega arith)
      refl
      (Unit {0})
      (type_all 2 2 (65 ∷ 9 ∷ 10 ∷ 200 ∷ []) cleared)
      (write_string (65 ∷ 9 ∷ 10 ∷ 200 ∷ []) writer)
write_string-Renders_example =
    write_string-Renders 16 32 (omega arith) (omega arith) (omega arith) refl (Unit {0})
      (65 ∷ 9 ∷ 10 ∷ 200 ∷ []) writer cleared writer-Shows
      (record { column = omega arith; row = omega arith })
