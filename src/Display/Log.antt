-- ===== src/Display/Log.antt =====
-- The writer of src/display/vga_text_writer.rs on a screen with room for text.
use kermol.Common.{
  ℕ, zero, suc, ◌+◌, ◌*◌, ◌/◌, ◌%◌, ◌≤◌, ◌<◌, ◌≡◌, refl, true, false, Bool-cases, ◌==◌,
}
use kermol.Common.{
  List, [], ◌∷◌, length, get_elem?-eq-get_or, word, Outcome, ◌>>=◌, ok, arith, inl, inr, lt-or-le,
  lt→ltb, le→ltb, get_or,
}
use kermol.Display.Framebuffer.{LinearFramebuffer, Place, plot_glyph}
use kermol.Display.Bounds.{IsScreen, Draws, drawn, plot_glyph-Draws}
use kermol.Display.Scroll.{scroll_lem, scrolled-IsScreen, scrolled}
use kermol.Display.Font.{unknown_character, vga_basic_font, get_char_glyph}
use kermol.Display.Text
use kermol.Display.Text.{put_char}
use kermol.Display.Writer.{
  VgaWriter, new_line, wrap, write_glyph, write_spaces, write_char, write_string,
}

-- Every byte has a glyph.
glyph_found : (E : Type 0) (char : ℕ) → (glyph : List ℕ) × (get_char_glyph {E = E} char ≡ ok glyph)
unfolding get_char_glyph
glyph_found E char = elim (lt-or-le 127 char) [
  | inl high ↦ (unknown_character, rw (lt→ltb 127 char high) refl)
  | inr low ↦
      let all : length vga_basic_font ≡ 128 = refl in
      let e = get_elem?-eq-get_or vga_basic_font char [] (omega (arith, all)) in
      (get_or vga_basic_font char [], rw (le→ltb 127 char low, e) refl)
]

module _ (width height : ℕ) (small : height * width < word) (narrow : width < word)
    (low : height < word) where
  -- A writer whose position is on its screen.
  pub record IsWriter (self : VgaWriter) : Type 0 where
    pub screen : IsScreen width height self.lfb
    pub column : self.column < width / 8
    pub row : self.row < height / 16

  module _ (E : Type 0) where
    -- A call that returns normally and leaves such a writer.
    pub data Writes (r : Outcome (E × VgaWriter) (Unit {0} × VgaWriter)) : Type 0 where
      wrote : (self : VgaWriter) → r ≡ ok (tt, self) → IsWriter self → Writes r

    scroll-returns :
        (fb : LinearFramebuffer) (color : ℕ)
        → IsScreen width height fb
        → 16 ≤ height
        → Text.scroll {E = E} 1 color fb ≡ ok (tt, scrolled (16 * width) color fb)
    unfolding Text.scroll
    scroll-returns fb color s h = scroll_lem width height small fb s 16 color h

    abbrev pub cell : ℕ → ℕ → ℕ → ℕ → Place
    cell column row color background = record {
      x = column * 8;
      y = row * 16;
      width = 8;
      height = 16;
      color = color;
      background = background;
    }

    pub put_char-returns :
        (column row color background char : ℕ) (fb fb' : LinearFramebuffer) (glyph : List ℕ)
        → column < width / 8
        → row < height / 16
        → get_char_glyph {E = E} char ≡ ok glyph
        → plot_glyph (cell column row color background) glyph fb ≡ ok (tt, fb')
        → put_char {E = E} column row color background char fb ≡ ok (tt, fb')
    unfolding put_char
    put_char-returns column row color background char fb fb' glyph c r found e =
        rw (lt→ltb (column * 8) word (omega arith), lt→ltb (row * 16) word (omega arith), found, e)
          refl

    put_char-Draws :
        (column row color background char : ℕ) (fb : LinearFramebuffer)
        → IsScreen width height fb
        → column < width / 8
        → row < height / 16
        → Draws width height small narrow low {E = E}
            (λ a. Unit)
            (put_char column row color background char fb)
    put_char-Draws column row color background char fb s c r =
        let (glyph, found) = glyph_found E char in
        elim (plot_glyph-Draws width height small narrow low (cell column row color background)
          glyph fb s (omega arith) (omega arith) (omega arith) (omega arith)) [
            | drawn a fb' e s' u ↦
                drawn tt fb'
                  (put_char-returns column row color background char fb fb' glyph c r found e) s' tt
          ]

    module _ (self : VgaWriter) (s : IsScreen width height self.lfb) (r : self.row < height / 16)
        (room : 0 < width / 8) where
      pub new_line-next :
          self.row + 1 < height / 16
          → new_line {E = E} self ≡ ok (tt, record self { column = 0; row = self.row + 1 })
      unfolding new_line
      new_line-next h = ground (arith, s.tall, low)

      pub new_line-top :
          self.row + 1 ≡ height / 16
          → self.scrolling ≡ false
          → new_line {E = E} self ≡ ok (tt, record self { column = 0; row = 0 })
      unfolding new_line
      new_line-top h f = ground (arith, s.tall, f)

      pub new_line-scroll :
          self.row + 1 ≡ height / 16
          → self.scrolling ≡ true
          → new_line {E = E} self
            ≡ ok (
              tt,
              record self {
                lfb = scrolled (16 * width) self.default_background self.lfb;
                column = 0;
              },
            )
      unfolding new_line
      new_line-scroll h f =
          ground (arith, s.tall, f, scroll-returns self.lfb self.default_background s (omega arith))

      new_line-Writes : Writes (new_line self)
      new_line-Writes = elim (lt-or-le (self.row + 1) (height / 16)) [
        | inl h ↦
            wrote (record self { column = 0; row = self.row + 1 }) (new_line-next h)
              (record { screen = s; column = room; row = h })
        | inr h ↦ elim (Bool-cases self.scrolling) [
          | inr f ↦
              wrote (record self { column = 0; row = 0 }) (new_line-top (omega arith) f)
                (record { screen = s; column = room; row = omega arith })
          | inl f ↦
              wrote
                (record self {
                  lfb = scrolled (16 * width) self.default_background self.lfb;
                  column = 0;
                })
                (new_line-scroll (omega arith) f)
                (record {
                  screen =
                      scrolled-IsScreen width height small self.lfb s 16 self.default_background
                        (omega arith);
                  column = room;
                  row = r;
                })
        ]
      ]

    -- A full row is left, another stays.
    pub wrap-stays :
        (self : VgaWriter)
        → IsScreen width height self.lfb
        → self.column < width / 8
        → wrap {E = E} self ≡ ok (tt, self)
    unfolding wrap
    wrap-stays self s h = ground (arith, s.wide)

    pub wrap-leaves :
        (self : VgaWriter)
        → IsScreen width height self.lfb
        → width / 8 ≤ self.column
        → wrap {E = E} self ≡ new_line self
    unfolding wrap
    wrap-leaves self s h = ground (arith, s.wide)

    wrap-Writes :
        (self : VgaWriter)
        → IsScreen width height self.lfb
        → self.row < height / 16
        → 0 < width / 8
        → Writes (wrap self)
    wrap-Writes self s r room = elim (lt-or-le self.column (width / 8)) [
      | inl h ↦ wrote self (wrap-stays self s h) (record { screen = s; column = h; row = r })
      | inr h ↦ rw (wrap-leaves self s h) (new_line-Writes self s r room)
    ]

    pub put_and_wrap :
        (c : ℕ) (self : VgaWriter) (fb : LinearFramebuffer)
        → put_char {E = E} self.column self.row self.default_text self.default_background
            (c % 256)
            self.lfb
          ≡ ok (tt, fb)
        → self.column + 1 < word
        → write_glyph {E = E} c self ≡ wrap (record self { lfb = fb; column = self.column + 1 })
    unfolding write_glyph
    put_and_wrap c self fb e h = ground (arith, e, h)

    write_glyph-Writes : (c : ℕ) (self : VgaWriter) → IsWriter self → Writes (write_glyph c self)
    write_glyph-Writes c self w =
        elim (put_char-Draws self.column self.row self.default_text self.default_background
          (c % 256) self.lfb w.screen w.column w.row) [
            | drawn a fb e s u ↦ rw (put_and_wrap c self fb e (omega (arith, w.column))) (
                wrap-Writes (record self { lfb = fb; column = self.column + 1 }) s w.row
                  (omega (arith, w.column)))
          ]

    -- One call after another.
    then-Writes :
        (r : Outcome (E × VgaWriter) (Unit {0} × VgaWriter))
        (next : VgaWriter → Outcome (E × VgaWriter) (Unit {0} × VgaWriter))
        → Writes r
        → ((self : VgaWriter) → IsWriter self → Writes (next self))
        → Writes (r >>= λ a. next a.1)
    then-Writes r next (wrote self e w) h = rw e (h self w)

    write_spaces-Writes :
        (count : ℕ) (self : VgaWriter) → IsWriter self → Writes (write_spaces count self)
    unfolding write_spaces
    write_spaces-Writes zero self w = wrote self refl w
    write_spaces-Writes (suc count) self w =
        then-Writes (write_glyph 32 self) (write_spaces count) (write_glyph-Writes 32 self w)
          (write_spaces-Writes count)

    wrap_again : (self : VgaWriter) → IsWriter self → Writes (wrap self)
    wrap_again self w = wrap-Writes self w.screen w.row (omega (arith, w.column))

    write_char-Writes : (c : ℕ) (self : VgaWriter) → IsWriter self → Writes (write_char c self)
    unfolding write_char
    write_char-Writes c self w = elim (Bool-cases (c == 9)) [
      | inl tab ↦
          rw tab (then-Writes (write_spaces 4 self) wrap (write_spaces-Writes 4 self w) wrap_again)
      | inr other ↦ elim (Bool-cases (c == 10)) [
        | inl feed ↦
            rw (other, feed)
              (then-Writes (new_line self) wrap
                (new_line-Writes self w.screen w.row (omega (arith, w.column))) wrap_again)
        | inr plain ↦ rw (other, plain) (write_glyph-Writes c self w)
      ]
    ]

    -- A writer whose position is on its screen, where the screen has at least one text cell and its
    -- pixels are fewer than 2^64, writes any string without a panic or an error, and its position
    -- is again on the screen, whose size is the same.
    pub write_string-Writes :
        (string : List ℕ) (self : VgaWriter) → IsWriter self → Writes (write_string string self)
    unfolding write_string
    write_string-Writes [] self w = wrote self refl w
    write_string-Writes (c ∷ string) self w =
        then-Writes (write_char c self) (write_string string) (write_char-Writes c self w)
          (write_string-Writes string)
