-- ===== src/Display/Terminal/Refine.antt =====
-- The writer of src/display/vga_text_writer.rs does to the screen what the terminal does to its
-- cells.
use kermol.Common.{ℕ, zero, suc, ◌+◌, ◌*◌, ◌/◌, ◌%◌, ◌<◌, ◌≡◌, refl, ◌∙◌, subst, arith}
use kermol.Common.{if◌then◌else◌, ltb}
use kermol.Common.{Bool-cases, ◌==◌, List, [], ◌∷◌, word, Outcome, ok, ◌>>=◌}
use kermol.Common.{lt-or-le, inl, inr, lt→ltb, le→ltb}
use kermol.Display.Framebuffer.{LinearFramebuffer}
use kermol.Display.Bounds.{IsScreen}
use kermol.Display.Scroll.{scrolled, scrolled-IsScreen}
use kermol.Display.Writer.{VgaWriter, new_line, wrap, write_glyph, write_spaces, write_char}
use kermol.Display.Writer.{write_string}
use kermol.Display.Log.{IsWriter, new_line-next, new_line-top, new_line-scroll, put_and_wrap}
use kermol.Display.Log.{wrap-stays, wrap-leaves}
use kermol.Display.Terminal.{
  Terminal, blank, shown, Displays, feed, put, type_char, type_spaces, type_one,
}
use kermol.Display.Terminal.{type_all}
use kermol.Display.Terminal.Cells.{write_cell, put_char-PutsCell, scrolled-Displays}

module _ (width height : ℕ) (small : height * width < word) (narrow : width < word)
    (low : height < word) (whole_rows : height % 16 ≡ 0) (E : Type 0) where
  abbrev Screen : VgaWriter → Type 0
  Screen self = IsWriter width height small narrow low self

  -- A writer on its screen that shows a terminal, with its position, colors and mode.
  pub record Shows (self : VgaWriter) (t : Terminal) : Type 0 where
    pub screen : IsScreen width height self.lfb
    pub grid : Displays (width / 8) (height / 16) width self.lfb t.cells
    pub column : self.column ≡ t.column
    pub row : self.row ≡ t.row
    pub text : self.default_text ≡ t.text
    pub background : self.default_background ≡ t.background
    pub scrolling : self.scrolling ≡ t.scrolling

  -- The position is on the screen.
  pub record IsOn (t : Terminal) : Type 0 where
    pub column : t.column < width / 8
    pub row : t.row < height / 16

  -- A normal return that leaves the screen as the terminal is.
  pub data Renders (t : Terminal) (r : Outcome (E × VgaWriter) (Unit {0} × VgaWriter))
      : Type 0 where
    rendered : (self : VgaWriter) → r ≡ ok (tt, self) → Shows self t → IsOn t → Renders t r

  abbrev feed_here : Terminal → Terminal
  feed_here = feed (width / 8) (height / 16)

  new_line-Renders :
      (self : VgaWriter) (t : Terminal)
      → Shows self t
      → t.row < height / 16
      → 0 < width / 8
      → Renders (feed_here t) (new_line self)
  new_line-Renders self t s r room = elim (lt-or-le (t.row + 1) (height / 16)) [
    | inl h ↦ rw (lt→ltb (t.row + 1) (height / 16) h) (
        rendered (record self { column = 0; row = self.row + 1 })
          (new_line-next width height small narrow low E self s.screen (omega (arith, s.row)) room
            (omega (arith, s.row)))
          (record {
            screen = s.screen;
            grid = s.grid;
            column = refl;
            row = omega (arith, s.row);
            text = s.text;
            background = s.background;
            scrolling = s.scrolling;
          })
          (record { column = room; row = h }))
    | inr h ↦ rw (le→ltb (t.row + 1) (height / 16) h) (elim (Bool-cases t.scrolling) [
      | inl on ↦ rw on (
          rendered
            (record self {
              lfb = scrolled (16 * width) self.default_background self.lfb;
              column = 0;
            })
            (new_line-scroll width height small narrow low E self s.screen (omega (arith, r, s.row))
              room (omega (arith, s.row)) (s.scrolling ∙ on))
            (record {
              screen =
                  scrolled-IsScreen width height small self.lfb s.screen 16 self.default_background
                    (omega arith);
              grid =
                  subst
                    (λ (color : ℕ).
                      Displays (width / 8) (height / 16) width
                        (scrolled (16 * width) self.default_background self.lfb)
                        (λ x y.
                          if ltb (y + 1) (height / 16) then t.cells x (y + 1) else blank color))
                    s.background
                    (scrolled-Displays width height whole_rows self.lfb s.screen (omega arith)
                      self.default_background t.cells s.grid);
              column = refl;
              row = s.row;
              text = s.text;
              background = s.background;
              scrolling = s.scrolling ∙ on;
            })
            (record { column = room; row = r }))
      | inr off ↦ rw off (
          rendered (record self { column = 0; row = 0 })
            (new_line-top width height small narrow low E self s.screen (omega (arith, r, s.row))
              room (omega (arith, s.row)) (s.scrolling ∙ off))
            (record {
              screen = s.screen;
              grid = s.grid;
              column = refl;
              row = refl;
              text = s.text;
              background = s.background;
              scrolling = s.scrolling ∙ off;
            })
            (record { column = room; row = omega (arith, r) }))
    ])
  ]

  -- `wrap` after a character was put, and nowhere else, leaves a row.
  wrap-idle : (self : VgaWriter) (t : Terminal) → Shows self t → IsOn t → Renders t (wrap self)
  wrap-idle self t s on =
      rendered self
        (wrap-stays width height small narrow low E self s.screen
          (omega (arith, s.column, on.column)))
        s on

  write_glyph-Renders :
      (c : ℕ) (self : VgaWriter) (t : Terminal)
      → Shows self t
      → IsOn t
      → Renders (type_char (width / 8) (height / 16) (c % 256) t) (write_glyph c self)
  write_glyph-Renders c self t s on =
      let d =
        put_char-PutsCell width height small narrow low E self.column self.row self.default_text
          self.default_background (c % 256) t.cells self.lfb (omega (arith, s.column, on.column))
          (omega (arith, s.row, on.row)) s.screen s.grid in
      let after : VgaWriter = record self { lfb = d.out; column = self.column + 1 } in
      let shows = shows_put d.out d.screen d.grid in
      rw
        (put_and_wrap width height small narrow low E c self d.out d.returns
          (omega (arith, s.column, on.column)))
        (elim (lt-or-le (t.column + 1) (width / 8)) [
          | inl h ↦ rw (lt→ltb (t.column + 1) (width / 8) h) (
              wrap-idle after (put (width / 8) (height / 16) (c % 256) t) shows
                (record { column = h; row = on.row }))
          | inr h ↦
              rw
                (
                  le→ltb (t.column + 1) (width / 8) h,
                  wrap-leaves width height small narrow low E after d.screen
                      (omega (arith, s.column)),
                )
                (new_line-Renders after (put (width / 8) (height / 16) (c % 256) t) shows on.row
                  (omega (arith, on.column)))
        ])
    where
      shows_put :
          (fb : LinearFramebuffer)
          → IsScreen width height fb
          → Displays (width / 8) (height / 16) width fb (
              write_cell width height small narrow low E self.column self.row
                (shown (c % 256) self.default_text self.default_background)
                t.cells)
          → Shows
              (record self { lfb = fb; column = self.column + 1 })
              (put (width / 8) (height / 16) (c % 256) t)
      shows_put fb screen grid = record {
        screen = screen;
        grid = rw (s.column, s.row, s.text, s.background) at grid;
        column = omega (arith, s.column);
        row = s.row;
        text = s.text;
        background = s.background;
        scrolling = s.scrolling;
      }

  -- One call after another.
  then-Renders :
      (t t' : Terminal) (r : Outcome (E × VgaWriter) (Unit {0} × VgaWriter))
      (next : VgaWriter → Outcome (E × VgaWriter) (Unit {0} × VgaWriter))
      → Renders t r
      → ((self : VgaWriter) → Shows self t → IsOn t → Renders t' (next self))
      → Renders t' (r >>= λ a. next a.1)
  then-Renders t t' r next (rendered self e s on) h = rw e (h self s on)

  write_spaces-Renders :
      (count : ℕ) (self : VgaWriter) (t : Terminal)
      → Shows self t
      → IsOn t
      → Renders (type_spaces (width / 8) (height / 16) count t) (write_spaces count self)
  unfolding write_spaces
  write_spaces-Renders zero self t s on = rendered self refl s on
  write_spaces-Renders (suc count) self t s on =
      let t' = type_char (width / 8) (height / 16) 32 t in
      then-Renders t' (type_spaces (width / 8) (height / 16) count t') (write_glyph 32 self)
        (write_spaces count) (write_glyph-Renders 32 self t s on)
        (λ self' s' on'. write_spaces-Renders count self' t' s' on')

  write_char-Renders :
      (c : ℕ) (self : VgaWriter) (t : Terminal)
      → Shows self t
      → IsOn t
      → Renders (type_one (width / 8) (height / 16) c t) (write_char c self)
  unfolding write_char
  write_char-Renders c self t s on = elim (Bool-cases (c == 9)) [
    | inl tab ↦
        let t' = type_spaces (width / 8) (height / 16) 4 t in
        rw tab (
          then-Renders t' t' (write_spaces 4 self) wrap (write_spaces-Renders 4 self t s on)
            (λ self' s' on'. wrap-idle self' t' s' on'))
    | inr other ↦ elim (Bool-cases (c == 10)) [
      | inl line ↦
          let t' = feed (width / 8) (height / 16) t in
          rw (other, line)
            (then-Renders t' t' (new_line self) wrap
              (new_line-Renders self t s on.row (omega (arith, on.column)))
              (λ self' s' on'. wrap-idle self' t' s' on'))
      | inr plain ↦ rw (other, plain) (write_glyph-Renders c self t s on)
    ]
  ]

  -- Where a writer on a screen of whole rows of text, with fewer than 2^64 pixels, shows a terminal
  -- (a grid of cells with a position, colors and a mode) whose position is inside it,
  -- `write_string` returns normally, and the screen then shows what the terminal becomes by typing
  -- the string: characters with their colors, tabs of four spaces, line feeds, full rows, and
  -- scrolling or writing on at the top.
  pub write_string-Renders :
      (string : List ℕ) (self : VgaWriter) (t : Terminal)
      → Shows self t
      → IsOn t
      → Renders (type_all (width / 8) (height / 16) string t) (write_string string self)
  unfolding write_string
  write_string-Renders [] self t s on = rendered self refl s on
  write_string-Renders (c ∷ string) self t s on =
      let t' = type_one (width / 8) (height / 16) c t in
      then-Renders t' (type_all (width / 8) (height / 16) string t') (write_char c self)
        (write_string string) (write_char-Renders c self t s on)
        (λ self' s' on'. write_string-Renders string self' t' s' on')
