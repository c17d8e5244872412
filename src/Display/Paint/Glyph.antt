-- ===== src/Display/Paint/Glyph.antt =====
-- `plot_glyph` of src/display/linear_framebuffer.rs paints the pixels of its rectangle.
use kermol.Common.{
  ℕ, zero, suc, ◌+◌, ◌*◌, ◌/◌, ◌%◌, ◌≤◌, ◌<◌, ◌≡◌, refl, sym, ◌∙◌, ap, subst, arith,
}
use kermol.Common.{Bool, true, false, Bool-cases, inl, inr, ◌⊎◌, if◌then◌else◌, leb}
use kermol.Common.{List, [], ◌∷◌, length, get_or, word, Outcome, ok}
use kermol.Display.Framebuffer.{LinearFramebuffer, LinearFramebufferError, Place, Pen}
use kermol.Display.Framebuffer.{plot_bits, plot_bytes, plot_glyph, used_color}
use kermol.Display.Bounds.{IsScreen, plotted, painted, moved, one_bit, bytes_next}
use kermol.Display.Bounds.{start, glyph-bytes}
use kermol.Display.Paint.{Paints, nothing, then-Paints, one-Paints, glyph_color, pixel}
use native.Mathlib.Nat.{mul-le-mul_right}

module _ (width height : ℕ) (small : height * width < word) (narrow : width < word)
    (low : height < word) where
  abbrev Screen : LinearFramebuffer → Type 0
  Screen fb = IsScreen width height fb

  module _ (E : Type 0) (p : Place) (right : p.x + p.width ≤ width)
      (bottom : p.y + p.height ≤ height) (f : ℕ → ℕ) where
    abbrev Painted : ℕ → ℕ → LinearFramebuffer → LinearFramebuffer → Type 0
    Painted = Paints width height small narrow low p right bottom f

    -- The pen is at the position with number `k`, or has stopped behind the last.
    record PenAt (k : ℕ) (pen : Pen) : Type 0 where
      place : pen.current_x + pen.current_y * p.width ≡ k
      go : pen.stopped ≡ false → (pen.current_x < p.width) × (pen.current_y < p.height)
      end : pen.stopped ≡ true → pen.current_y ≡ p.height

    moved-PenAt :
        (byte count bit : ℕ) (pen : Pen) (fb : LinearFramebuffer) (s : Screen fb)
        (in_x : pen.current_x < p.width) (in_y : pen.current_y < p.height)
        → PenAt
            (pen.current_x + pen.current_y * p.width + 1)
            (moved width height small narrow low E p right bottom byte count bit pen fb s in_x in_y)
    moved-PenAt byte count bit pen fb s in_x in_y =
        elim (Bool-cases (leb p.width (pen.current_x + 1))) [
          | inl wraps ↦ record {
            place = grind (arith, wraps);
            go = λ e. ground (arith, wraps, e);
            end = λ e. ground (arith, wraps, e);
          }
          | inr stays ↦ record {
            place = ground (arith, stays);
            go = λ e. ground (arith, stays);
            end = λ e. ground (arith, stays, e);
          }
        ]

    -- How `count` bits are drawn from position `k` on.
    data DrawsBits (k count : ℕ) (fb : LinearFramebuffer)
        (r : Outcome (E × LinearFramebuffer) (Pen × LinearFramebuffer)) : Type 0 where
      drawn :
          (m : ℕ) (pen : Pen) (fb' : LinearFramebuffer)
          → r ≡ ok (pen, fb')
          → Screen fb'
          → k ≤ m
          → Painted k m fb fb'
          → PenAt m pen
          → (pen.stopped ≡ false → m ≡ k + count)
          → DrawsBits k count fb r

    by_stopped :
        (k count : ℕ) (fb : LinearFramebuffer) (b : Bool)
        (r r' : Outcome (E × LinearFramebuffer) (Pen × LinearFramebuffer))
        → (b ≡ true → DrawsBits k count fb r)
        → (b ≡ false → DrawsBits k count fb r')
        → DrawsBits k count fb (if b then r else r')
    by_stopped k count fb true r r' first second = first refl
    by_stopped k count fb false r r' first second = second refl

    later :
        (k count : ℕ) (fb fb' : LinearFramebuffer)
        (r : Outcome (E × LinearFramebuffer) (Pen × LinearFramebuffer))
        → Painted k (k + 1) fb fb'
        → DrawsBits (k + 1) count fb' r
        → DrawsBits k (suc count) fb r
    later k count fb fb' r one (drawn m pen fb'' e s le rest at all) =
        drawn m pen fb'' e s (omega (arith, le))
          (then-Paints width height small narrow low p right bottom f k (k + 1) m fb fb' fb''
            (omega arith) le one rest)
          at (λ go. omega (arith, all go))

    plot_bits-DrawsBits :
        (byte count bit k : ℕ) (pen : Pen) (fb : LinearFramebuffer)
        → Screen fb
        → pen.stopped ≡ false
        → PenAt k pen
        → ((i : ℕ) → i < count → f (k + i) ≡ used_color p byte (bit + i))
        → DrawsBits k count fb (plot_bits p byte count bit pen fb)
    unfolding plot_bits
    plot_bits-DrawsBits byte zero bit k pen fb s go at colors =
        drawn k pen fb refl s (omega arith)
          (nothing width height small narrow low p right bottom f k fb) at (λ _. omega arith)
    plot_bits-DrawsBits byte (suc count) bit k pen fb s go at colors =
        let (in_x, in_y) = at.go go in
        let next =
          moved width height small narrow low E p right bottom byte count bit pen fb s in_x in_y in
        let fb' =
          painted width height small narrow low E p right bottom byte count bit pen fb s in_x
            in_y in
        let s' : Screen fb' = plotted width height small narrow low E _ _ _ fb s in
        let at' =
          subst (λ (n : ℕ). PenAt (n + 1) next) at.place
            (moved-PenAt byte count bit pen fb s in_x in_y) in
        let k-le : k ≤ k + 1 = omega arith in
        let color : f (k + 0) ≡ used_color p byte (bit + 0) = colors 0 (omega arith) in
        let one =
          subst (λ (n : ℕ). Painted n (n + 1) fb fb') at.place
            (one-Paints width height small narrow low p right bottom f pen.current_x pen.current_y
              (used_color p byte bit) fb s in_x in_y (first_color k bit pen byte at.place color)) in
        rw
          (one_bit width height small narrow low E p right bottom byte count bit pen fb s in_x in_y)
          (by_stopped k (suc count) fb next.stopped (ok (next, fb'))
            (plot_bits p byte count (bit + 1) next fb')
            (λ e. drawn (k + 1) next fb' refl s' k-le one at' (λ e'. absurd (cc)))
            (λ e. later k count fb fb' _ one (
              plot_bits-DrawsBits byte count (bit + 1) (k + 1) next fb' s' e at'
                (λ i h. later_color k bit byte i (colors (suc i) (omega arith))))))
      where
        first_color :
            (k bit : ℕ) (pen : Pen) (byte : ℕ)
            → pen.current_x + pen.current_y * p.width ≡ k
            → f (k + 0) ≡ used_color p byte (bit + 0)
            → f (pen.current_x + pen.current_y * p.width) ≡ used_color p byte bit
        first_color k bit pen byte e h =
            let a : k ≡ k + 0 = omega arith in
            let b : bit ≡ bit + 0 = omega arith in
            rw e (ap f a ∙ h ∙ sym (ap (used_color p byte) b))

        later_color :
            (k bit byte i : ℕ)
            → f (k + suc i) ≡ used_color p byte (bit + suc i)
            → f (k + 1 + i) ≡ used_color p byte (bit + 1 + i)
        later_color k bit byte i h =
            let a : k + 1 + i ≡ k + suc i = omega arith in
            let b : bit + 1 + i ≡ bit + suc i = omega arith in rw (a, b) h

    -- How the bytes are drawn: `m` bits in all, which is all of the rectangle or all of the bytes.
    data DrawsBytes (k : ℕ) (bytes : List ℕ) (fb : LinearFramebuffer)
        (r : Outcome (E × LinearFramebuffer) (Unit {0} × LinearFramebuffer)) : Type 0 where
      drawn :
          (m : ℕ) (fb' : LinearFramebuffer)
          → r ≡ ok (tt, fb')
          → Screen fb'
          → k ≤ m
          → Painted k m fb fb'
          → (p.height * p.width ≤ m) ⊎ (m ≡ k + length bytes * 8)
          → DrawsBytes k bytes fb r

    after_byte :
        (k m : ℕ) (byte : ℕ) (bytes : List ℕ) (fb fb' : LinearFramebuffer)
        (r : Outcome (E × LinearFramebuffer) (Unit {0} × LinearFramebuffer))
        → k ≤ m
        → m ≡ k + 8
        → Painted k m fb fb'
        → DrawsBytes m bytes fb' r
        → DrawsBytes k (byte ∷ bytes) fb r
    after_byte k m byte bytes fb fb' r le e first (drawn n fb'' q s le' rest ends) =
        drawn n fb'' q s (omega arith)
          (then-Paints width height small narrow low p right bottom f k m n fb fb' fb'' le le' first
            rest)
          (elim ends [ inl all ↦ inl all | inr out ↦ inr (omega arith) ])

    by_end :
        (k : ℕ) (bytes : List ℕ) (fb : LinearFramebuffer) (b : Bool)
        (r r' : Outcome (E × LinearFramebuffer) (Unit {0} × LinearFramebuffer))
        → (b ≡ true → DrawsBytes k bytes fb r)
        → (b ≡ false → DrawsBytes k bytes fb r')
        → DrawsBytes k bytes fb (if b then r else r')
    by_end k bytes fb true r r' first second = first refl
    by_end k bytes fb false r r' first second = second refl

    at_end : (m : ℕ) (pen : Pen) → PenAt m pen → pen.stopped ≡ true → p.height * p.width ≤ m
    at_end m pen at e =
        let last = at.end e in
        let rows : pen.current_y * p.width ≡ p.height * p.width =
          ap (λ (t : ℕ). t * p.width) last in
        omega (arith, rows, at.place)

    plot_bytes-DrawsBytes :
        (bytes : List ℕ) (k : ℕ) (pen : Pen) (fb : LinearFramebuffer)
        → Screen fb
        → pen.stopped ≡ false
        → PenAt k pen
        → ((n i : ℕ)
            → i < 8
            → n < length bytes
            → f (k + n * 8 + i) ≡ used_color p (get_or bytes n 0) i)
        → DrawsBytes k bytes fb (plot_bytes p bytes pen fb)
    unfolding plot_bytes
    plot_bytes-DrawsBytes [] k pen fb s go at colors =
        drawn k fb refl s (omega arith)
          (nothing width height small narrow low p right bottom f k fb) (inr (omega arith))
    plot_bytes-DrawsBytes (byte ∷ bytes) k pen fb s go at colors =
        elim (plot_bits-DrawsBits byte 8 0 k pen fb s go at
          (λ i h. first_byte i (colors 0 i h (omega arith)))) [
            | drawn m next fb' e s' le one at' all ↦
                rw
                  (bytes_next width height small narrow low E p right bottom byte bytes pen next fb
                    fb' e)
                  (by_end k (byte ∷ bytes) fb next.stopped (ok (tt, fb'))
                    (plot_bytes p bytes next fb')
                    (λ e. drawn m fb' refl s' le one (inl (at_end m next at' e)))
                    (λ e. after_byte k m byte bytes fb fb' _ le (all e) one (
                      plot_bytes-DrawsBytes bytes m next fb' s' e at'
                        (λ n i h h'. later_byte m n i (all e) (colors (suc n) i h (omega arith))))))
          ]
      where
        first_byte :
            (i : ℕ)
            → f (k + 0 * 8 + i) ≡ used_color p byte i
            → f (k + i) ≡ used_color p byte (0 + i)
        first_byte i h =
            let a : k + i ≡ k + 0 * 8 + i = omega arith in
            let b : 0 + i ≡ i = omega arith in rw (a, b) h

        later_byte :
            (m n i : ℕ)
            → m ≡ k + 8
            → f (k + suc n * 8 + i) ≡ used_color p (get_or bytes n 0) i
            → f (m + n * 8 + i) ≡ used_color p (get_or bytes n 0) i
        later_byte m n i e h = let a : m + n * 8 + i ≡ k + suc n * 8 + i = omega arith in rw a h

  -- What a whole glyph leaves in its rectangle and around it.
  pub record DrawsGlyph (p : Place) (glyph : List ℕ) (fb : LinearFramebuffer)
      (r : Outcome (LinearFramebufferError × LinearFramebuffer) (Unit {0} × LinearFramebuffer))
      : Type 0 where
    pub out : LinearFramebuffer
    pub returns : r ≡ ok (tt, out)
    pub screen : Screen out
    pub glyph_pixels :
        (i j : ℕ)
        → i < p.width
        → j < p.height
        → pixel width out (p.x + i) (p.y + j) ≡ glyph_color p glyph (i + j * p.width)
    pub others :
        (x y : ℕ)
        → x < width
        → y < height
        → ((x < p.x) ⊎ (p.x + p.width ≤ x)) ⊎ ((y < p.y) ⊎ (p.y + p.height ≤ y))
        → pixel width out x y ≡ pixel width fb x y

  whole_glyph :
      (p : Place) (right : p.x + p.width ≤ width) (bottom : p.y + p.height ≤ height)
      (glyph : List ℕ) (fb : LinearFramebuffer)
      (r : Outcome (LinearFramebufferError × LinearFramebuffer) (Unit {0} × LinearFramebuffer))
      → p.height * p.width ≤ length glyph * 8
      → DrawsBytes LinearFramebufferError p right bottom (glyph_color p glyph) 0 glyph fb r
      → DrawsGlyph p glyph fb r
  whole_glyph p right bottom glyph fb r enough (drawn m out e s le painted ends) = record {
    out = out;
    returns = e;
    screen = s;
    glyph_pixels =
        λ i j in_i in_j. painted.inside i j (in_i, in_j, omega arith, covered i j in_i in_j);
    others = λ x y in_x in_y outside. painted.other x y in_x in_y (λ i j c e e'. elim outside [
      | inl column ↦ elim column [ inl a ↦ omega (arith, c.0) | inr a ↦ omega (arith, c.0) ]
      | inr row ↦ elim row [ inl a ↦ omega (arith, c.1) | inr a ↦ omega (arith, c.1) ]
    ]);
  }
    where
      covered : (i j : ℕ) → i < p.width → j < p.height → i + j * p.width < m
      covered i j in_i in_j =
          let rows : suc j * p.width ≤ p.height * p.width = mul-le-mul_right p.width in_j in
          elim ends [ inl all ↦ omega (arith, rows) | inr out ↦ omega (arith, rows) ]

  pub plot_glyph-DrawsGlyph :
      (p : Place) (glyph : List ℕ) (fb : LinearFramebuffer)
      → Screen fb
      → 0 < p.width
      → 0 < p.height
      → p.x + p.width ≤ width
      → p.y + p.height ≤ height
      → p.height * p.width ≤ length glyph * 8
      → DrawsGlyph p glyph fb (plot_glyph p glyph fb)
  plot_glyph-DrawsGlyph p glyph fb s wide tall right bottom enough =
      rw (glyph-bytes width height small narrow low p glyph fb s right bottom) (
        whole_glyph p right bottom glyph fb _ enough (
          plot_bytes-DrawsBytes LinearFramebufferError p right bottom (glyph_color p glyph) glyph 0
            (start width height small narrow low) fb s refl at_start (λ n i h h'. color_at n i h)))
    where
      at_start :
          PenAt LinearFramebufferError p right bottom
            (glyph_color p glyph)
            0
            (start width height small narrow low)
      at_start = record { place = omega arith; go = λ _. (wide, tall); end = λ e. absurd (cc) }

      color_at :
          (n i : ℕ)
          → i < 8
          → glyph_color p glyph (0 + n * 8 + i) ≡ used_color p (get_or glyph n 0) i
      color_at n i h =
          let byte : (0 + n * 8 + i) / 8 ≡ n = omega arith in
          let bit : (0 + n * 8 + i) % 8 ≡ i = omega arith in rw (byte, bit) refl
