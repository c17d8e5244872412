-- ===== src/Display/Bounds.antt =====
-- Drawing in src/display/linear_framebuffer.rs, on a screen whose buffer has a pixel for every
-- position.
use kermol.Common.{
  ℕ, zero, suc, ◌+◌, ◌*◌, ◌≤◌, ◌<◌, ◌≡◌, refl, Bool, true, false, ◌&&◌, Bool-cases, if◌then◌else◌,
  leb,
}
use kermol.Common.{List, [], ◌∷◌, length, set, length-set, word, Outcome, ok, arith, inl, inr, ◌∙◌}
use kermol.Display.Framebuffer.{
  LinearFramebuffer, LinearFramebufferError, Place, Pen, plot, plot_bits, plot_bytes, plot_glyph,
  used_color,
}
use native.Mathlib.Nat.{mul-le-mul_right}

-- A framebuffer of `width` times `height` pixels.
pub record IsScreen (width height : ℕ) (fb : LinearFramebuffer) : Type 0 where
  pub wide : fb.dimensions.0 ≡ width
  pub tall : fb.dimensions.1 ≡ height
  pub whole : length fb.buffer ≡ height * width

module _ (width height : ℕ) (small : height * width < word) (narrow : width < word)
    (low : height < word) where
  -- A call that returns normally and leaves a screen of the same size.
  pub data Draws {E A : Type 0} (P : A → Type 0)
      (r : Outcome (E × LinearFramebuffer) (A × LinearFramebuffer)) : Type 0 where
    drawn :
        (a : A) (fb : LinearFramebuffer)
        → r ≡ ok (a, fb)
        → IsScreen width height fb
        → P a
        → Draws P r

  by_cases :
      {E A : Type 0} {P : A → Type 0} (b : Bool)
      (r r' : Outcome (E × LinearFramebuffer) (A × LinearFramebuffer))
      → (b ≡ true → Draws P r)
      → (b ≡ false → Draws P r')
      → Draws P (if b then r else r')
  by_cases true r r' first second = first refl
  by_cases false r r' first second = second refl

  -- The position of a pixel in the buffer.
  pub offset-lt : (x y : ℕ) → x < width → y < height → x + y * width < height * width
  offset-lt x y p q =
      let rows : suc y * width ≤ height * width = mul-le-mul_right width q in omega (arith, rows)

  module _ (E : Type 0) where
    plot-returns :
        (x y color : ℕ) (fb : LinearFramebuffer)
        → IsScreen width height fb
        → x < width
        → y < height
        → plot {E = E} x y color fb
          ≡ ok (tt, record fb { buffer = set fb.buffer (x + y * width) color })
    unfolding plot
    plot-returns x y color fb s p q =
        let inside = offset-lt x y p q in ground (arith, s.wide, s.whole, inside, small)

    pub plotted :
        (x y color : ℕ) (fb : LinearFramebuffer)
        → IsScreen width height fb
        → IsScreen width height (record fb { buffer = set fb.buffer (x + y * width) color })
    plotted x y color fb s = record {
      wide = s.wide;
      tall = s.tall;
      whole = length-set fb.buffer (x + y * width) color ∙ s.whole;
    }

    module _ (p : Place) (right : p.x + p.width ≤ width) (bottom : p.y + p.height ≤ height) where
      -- The pen is inside the glyph, or drawing has stopped.
      abbrev pub IsInside : Pen → Type 0
      IsInside pen = (pen.stopped ≡ false) → (pen.current_x < p.width) × (pen.current_y < p.height)

      module _ (byte count bit : ℕ) (pen : Pen) (fb : LinearFramebuffer)
          (s : IsScreen width height fb) (in_x : pen.current_x < p.width)
          (in_y : pen.current_y < p.height) where
        abbrev pub painted : LinearFramebuffer
        painted = record fb {
          buffer =
              set fb.buffer (pen.current_x + p.x + (pen.current_y + p.y) * width)
                (used_color p byte bit);
        }

        abbrev pub moved : Pen
        moved =
            let wraps = leb p.width (pen.current_x + 1) in
            let next_y = pen.current_y + (if wraps then 1 else 0) in
            record {
              current_x = if wraps then 0 else pen.current_x + 1;
              current_y = next_y;
              stopped = wraps && leb p.height next_y;
            }

        pub one_bit : plot_bits {E = E} p byte (suc count) bit pen fb ≡ (
            if moved.stopped
            then ok (moved, painted)
            else plot_bits p byte count (bit + 1) moved painted)
        unfolding plot_bits
        one_bit =
            let e =
              plot-returns (pen.current_x + p.x) (pen.current_y + p.y) (used_color p byte bit) fb s
                (omega arith) (omega arith) in
            elim (Bool-cases (leb p.width (pen.current_x + 1))) [
              | inl wraps ↦ ground (arith, e, wraps, narrow, low)
              | inr stays ↦ ground (arith, e, stays, narrow, low)
            ]

        pub moved-IsInside : IsInside moved
        moved-IsInside e = elim (Bool-cases (leb p.width (pen.current_x + 1))) [
          | inl wraps ↦ ground (arith, wraps, e)
          | inr stays ↦ ground (arith, stays)
        ]

      plot_bits-Draws :
          (byte count bit : ℕ) (pen : Pen) (fb : LinearFramebuffer)
          → IsScreen width height fb
          → pen.stopped ≡ false
          → pen.current_x < p.width
          → pen.current_y < p.height
          → Draws {E = E} IsInside (plot_bits p byte count bit pen fb)
      unfolding plot_bits
      plot_bits-Draws byte zero bit pen fb s go a b = drawn pen fb refl s (λ e. (a, b))
      plot_bits-Draws byte (suc count) bit pen fb s go a b =
          let next = moved byte count bit pen fb s a b in
          let fb' = painted byte count bit pen fb s a b in
          let s' = plotted _ _ _ fb s in
          let inside = moved-IsInside byte count bit pen fb s a b in
          rw (one_bit byte count bit pen fb s a b) (
            by_cases next.stopped (ok (next, fb')) (plot_bits p byte count (bit + 1) next fb')
              (λ e. drawn next fb' refl s' inside)
              (λ e. plot_bits-Draws byte count (bit + 1) next fb' s' e (inside e).0 (inside e).1))

      pub bytes_next :
          (byte : ℕ) (bytes : List ℕ) (pen next : Pen) (fb fb' : LinearFramebuffer)
          → plot_bits {E = E} p byte 8 0 pen fb ≡ ok (next, fb')
          → plot_bytes {E = E} p (byte ∷ bytes) pen fb
            ≡ (if next.stopped then ok (tt, fb') else plot_bytes p bytes next fb')
      unfolding plot_bytes
      bytes_next byte bytes pen next fb fb' e = rw e

      plot_bytes-Draws :
          (bytes : List ℕ) (pen : Pen) (fb : LinearFramebuffer)
          → IsScreen width height fb
          → pen.stopped ≡ false
          → pen.current_x < p.width
          → pen.current_y < p.height
          → Draws {E = E} (λ a. Unit) (plot_bytes p bytes pen fb)
      unfolding plot_bytes
      plot_bytes-Draws [] pen fb s go a b = drawn tt fb refl s tt
      plot_bytes-Draws (byte ∷ bytes) pen fb s go a b =
          elim (plot_bits-Draws byte 8 0 pen fb s go a b) [
            | drawn next fb' e s' inside ↦ rw (bytes_next byte bytes pen next fb fb' e) (
                by_cases next.stopped (ok (tt, fb')) (plot_bytes p bytes next fb')
                  (λ e. drawn tt fb' refl s' tt)
                  (λ e. plot_bytes-Draws bytes next fb' s' e (inside e).0 (inside e).1))
          ]

  abbrev pub start : Pen
  start = record { current_x = 0; current_y = 0; stopped = false }

  pub glyph-bytes :
      (p : Place) (glyph : List ℕ) (fb : LinearFramebuffer)
      → IsScreen width height fb
      → p.x + p.width ≤ width
      → p.y + p.height ≤ height
      → plot_glyph p glyph fb ≡ plot_bytes p glyph start fb
  unfolding plot_glyph
  glyph-bytes p glyph fb s right bottom = ground (arith, s.wide, s.tall, narrow, low)

  -- On a screen with fewer than 2^64 pixels, `plot_glyph` draws a glyph of at least one pixel that
  -- fits on the screen without a panic or an error, whatever the bitmap, and leaves a screen of the
  -- same size.
  pub plot_glyph-Draws :
      (p : Place) (glyph : List ℕ) (fb : LinearFramebuffer)
      → IsScreen width height fb
      → 0 < p.width
      → 0 < p.height
      → p.x + p.width ≤ width
      → p.y + p.height ≤ height
      → Draws (λ a. Unit) (plot_glyph p glyph fb)
  plot_glyph-Draws p glyph fb s wide tall right bottom =
      rw (glyph-bytes p glyph fb s right bottom)
        (plot_bytes-Draws LinearFramebufferError p right bottom glyph start fb s refl wide tall)
