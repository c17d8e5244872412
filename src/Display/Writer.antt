-- ===== src/Display/Writer.antt =====
-- `VGAWriter` of src/display/vga_text_writer.rs. A character is its code point.
use kermol.Common.{ℕ, zero, suc, ◌%◌, Bool, if◌then◌else◌, leb, ◌==◌, List, [], ◌∷◌}
use kermol.Common.{ok, ◌>>=◌, Call, with_state, add64, sub64, err, panic, out_of_fuel}
use kermol.Display.Framebuffer.{LinearFramebuffer}
use kermol.Display.Text
use kermol.Display.Text.{get_text_buffer_dimensions, put_char, VgaColor, light_gray}

abbrev pub tab_size : ℕ
tab_size = 4

abbrev pub default_color : VgaColor
default_color = light_gray

pub record VgaWriter : Type 0 where
  pub lfb : LinearFramebuffer
  pub column : ℕ
  pub row : ℕ
  pub default_text : ℕ
  pub default_background : ℕ
  pub scrolling : Bool

abbrev pub new : LinearFramebuffer → Bool → ℕ → ℕ → VgaWriter
new lfb scrolling default_text default_background = record {
  lfb = lfb;
  column = 0;
  row = 0;
  default_text = default_text;
  default_background = default_background;
  scrolling = scrolling;
}

module _ {ℓ} {E : Type ℓ} where
  -- A call on the writer's framebuffer.
  abbrev on_lfb : Call LinearFramebuffer E (Unit {0}) → Call VgaWriter E (Unit {0})
  on_lfb f self = elim (f self.lfb) [
    | ok (_, lfb) ↦ ok (tt, record self { lfb = lfb })
    | err (e, lfb) ↦ err (e, record self { lfb = lfb })
    | panic p ↦ panic p
    | out_of_fuel ↦ out_of_fuel
  ]

  unfoldable pub new_line : Call VgaWriter E (Unit {0})
  new_line self = do
    let self = record self { column = 0 }
    (last, self) ← with_state self (sub64 (get_text_buffer_dimensions self.lfb).1 1)
    if leb last self.row
        then (if self.scrolling
            then on_lfb (Text.scroll 1 self.default_background) self
            else ok (tt, record self { row = 0 }))
        else do (row, self) ← with_state self (add64 self.row 1); ok (tt, record self { row = row })

  -- The end of `write_char`: a full row is left.
  unfoldable pub wrap : Call VgaWriter E (Unit {0})
  wrap self =
      if leb (get_text_buffer_dimensions self.lfb).0 self.column
      then new_line self
      else ok (tt, self)

  -- `write_char` for a character that is neither a tab nor a line feed.
  unfoldable pub write_glyph : ℕ → Call VgaWriter E (Unit {0})
  write_glyph c self = do
    (_, self) ←
        on_lfb (put_char self.column self.row self.default_text self.default_background (c % 256))
          self
    (column, self) ← with_state self (add64 self.column 1)
    wrap (record self { column = column })

  -- `for _ in 0..TAB_SIZE { self.write_char(' ') }`.
  unfoldable pub write_spaces : ℕ → Call VgaWriter E (Unit {0})
  write_spaces zero self = ok (tt, self)
  write_spaces (suc count) self = do (_, self) ← write_glyph 32 self; write_spaces count self

  unfoldable pub write_char : ℕ → Call VgaWriter E (Unit {0})
  write_char c self =
      if c == 9
      then (do (_, self) ← write_spaces tab_size self; wrap self)
      else (if c == 10 then (do (_, self) ← new_line self; wrap self) else write_glyph c self)

  unfoldable pub write_string : List ℕ → Call VgaWriter E (Unit {0})
  write_string [] self = ok (tt, self)
  write_string (c ∷ string) self = do (_, self) ← write_char c self; write_string string self

unfoldable pub set_position : ℕ → ℕ → VgaWriter → VgaWriter
set_position row column self = record self { row = row; column = column }

unfoldable pub get_position : VgaWriter → ℕ × ℕ
get_position self = (self.row, self.column)
