-- ===== src/Display/Terminal.antt =====
-- A text terminal, as what the writer of src/display/vga_text_writer.rs shows: a grid of character
-- cells with a position in it. Terminal.Cells and Terminal.Refine relate it to the pixels.
pub mod Cells
pub mod Refine
use kermol.Common.{ℕ, zero, suc, ◌+◌, ◌*◌, ◌-◌, ◌/◌, ◌%◌, ◌^◌, ◌<◌, ◌≡◌, Bool, ◌&&◌}
use kermol.Common.{if◌then◌else◌, ltb, leb, ◌==◌, List, [], ◌∷◌, get_or}
use kermol.Display.Font.{unknown_character, vga_basic_font}
use kermol.Display.Framebuffer.{LinearFramebuffer}
use kermol.Display.Paint.{pixel}

-- A character with its two colors, or one color.
pub data Cell : Type 0 where
  shown : ℕ → ℕ → ℕ → Cell
  blank : ℕ → Cell

-- The sixteen rows of a character.
abbrev pub picture : ℕ → List ℕ
picture char = if ltb 127 char then unknown_character else get_or vga_basic_font char []

-- The color of a cell at column `i` and row `j` of its eight times sixteen pixels.
abbrev pub cell_pixel : Cell → ℕ → ℕ → ℕ
cell_pixel (shown char color background) i j =
    if get_or (picture char) j 0 / 2 ^ (7 - i) % 2 == 0 then background else color
cell_pixel (blank color) i j = color

pub record Terminal : Type 0 where
  -- By column and row.
  pub cells : ℕ → ℕ → Cell
  pub column : ℕ
  pub row : ℕ
  pub text : ℕ
  pub background : ℕ
  pub scrolling : Bool

-- A terminal of `columns` times `rows` cells.
module _ (columns rows : ℕ) where
  -- Past the last row the cells move up, or writing goes on at the top.
  abbrev pub feed : Terminal → Terminal
  feed t =
      if ltb (t.row + 1) rows
      then record t { column = 0; row = t.row + 1 }
      else if t.scrolling
      then record t {
        column = 0;
        cells = λ x y. if ltb (y + 1) rows then t.cells x (y + 1) else blank t.background;
      }
      else record t { column = 0; row = 0 }

  abbrev pub put : ℕ → Terminal → Terminal
  put char t = record t {
    cells =
        λ x y. if x == t.column && y == t.row then shown char t.text t.background else t.cells x y;
    column = t.column + 1;
  }

  abbrev pub type_char : ℕ → Terminal → Terminal
  type_char char t = if ltb (t.column + 1) columns then put char t else feed (put char t)

  abbrev pub type_spaces : ℕ → Terminal → Terminal
  type_spaces zero t = t
  type_spaces (suc count) t = type_spaces count (type_char 32 t)

  -- A tab is four spaces, and a character is its lowest byte.
  abbrev pub type_one : ℕ → Terminal → Terminal
  type_one c t =
      if c == 9 then type_spaces 4 t else if c == 10 then feed t else type_char (c % 256) t

  abbrev pub type_all : List ℕ → Terminal → Terminal
  type_all [] t = t
  type_all (c ∷ string) t = type_all string (type_one c t)

  -- The screen shows the cells, each in its rectangle of eight times sixteen pixels.
  abbrev pub Displays : ℕ → LinearFramebuffer → (ℕ → ℕ → Cell) → Type 0
  Displays width fb cells =
      (x y i j : ℕ)
      → x < columns
      → y < rows
      → i < 8
      → j < 16
      → pixel width fb (x * 8 + i) (y * 16 + j) ≡ cell_pixel (cells x y) i j
