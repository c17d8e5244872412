-- ===== src/Display/Paint.antt =====
-- Which pixels `plot_glyph` of src/display/linear_framebuffer.rs changes, and to which colors: the
-- relation between two framebuffers that Paint.Glyph proves of the drawing.
pub mod Glyph
use kermol.Common.{ℕ, suc, ◌+◌, ◌*◌, ◌/◌, ◌%◌, ◌≤◌, ◌<◌, ◌≡◌, ◌≢◌, refl, sym, ◌∙◌, ap, arith}
use kermol.Common.{lt-or-le, inl, inr, List, length, get_or, set, word}
use kermol.Common.{get_or-set_self, get_or-set_ne}
use kermol.Display.Framebuffer.{LinearFramebuffer, Place, used_color}
use kermol.Display.Bounds.{IsScreen, offset-lt}
use native.Mathlib.Nat.{mul-le-mul_right}

-- Two places of a table of rows of `w` are one if they have the same number.
same_place : (w i j i' j' : ℕ) → i < w → i' < w → i + j * w ≡ i' + j' * w → (i ≡ i') × (j ≡ j')
same_place w i j i' j' p q e = elim (lt-or-le j j') [
  | inl below ↦
      let rows : suc j * w ≤ j' * w = mul-le-mul_right w below in absurd (omega (arith, rows))
  | inr from ↦ elim (lt-or-le j' j) [
    | inl above ↦
        let rows : suc j' * w ≤ j * w = mul-le-mul_right w above in absurd (omega (arith, rows))
    | inr to ↦
        let same : j ≡ j' = omega arith in
        let rows : j * w ≡ j' * w = ap (λ (t : ℕ). t * w) same in (omega (arith, rows), same)
  ]
]

-- The color of bit `k` of a glyph, counted from the highest bit of its first byte.
abbrev pub glyph_color : Place → List ℕ → ℕ → ℕ
glyph_color p glyph k = used_color p (get_or glyph (k / 8) 0) (k % 8)

-- The pixel at (`x`, `y`) of a screen with rows of `width`.
abbrev pub pixel : ℕ → LinearFramebuffer → ℕ → ℕ → ℕ
pixel width fb x y = get_or fb.buffer (x + y * width) 0

module _ (width height : ℕ) (small : height * width < word) (narrow : width < word)
    (low : height < word) where
  module _ (p : Place) (right : p.x + p.width ≤ width) (bottom : p.y + p.height ≤ height) where
    -- Position (`i`, `j`) of the glyph is one of those numbered from `k` on and below `m`.
    abbrev pub Covers : ℕ → ℕ → ℕ → ℕ → Type 0
    Covers k m i j = (i < p.width) × (j < p.height) × (k ≤ i + j * p.width) × (i + j * p.width < m)

    -- The positions from `k` on and below `m` get the colors `f`, and no other pixel changes.
    pub record Paints (f : ℕ → ℕ) (k m : ℕ) (fb fb' : LinearFramebuffer) : Type 0 where
      pub inside :
          (i j : ℕ) → Covers k m i j → pixel width fb' (p.x + i) (p.y + j) ≡ f (i + j * p.width)
      pub other :
          (x y : ℕ)
          → x < width
          → y < height
          → ((i j : ℕ) → Covers k m i j → p.x + i ≡ x → p.y + j ≢ y)
          → pixel width fb' x y ≡ pixel width fb x y

    pub nothing : (f : ℕ → ℕ) (k : ℕ) (fb : LinearFramebuffer) → Paints f k k fb fb
    nothing f k fb = record {
      inside = λ i j c. absurd (omega (arith, c.2, c.3));
      other = λ x y a b h. refl;
    }

    pub then-Paints :
        (f : ℕ → ℕ) (k m n : ℕ) (fb fb' fb'' : LinearFramebuffer)
        → k ≤ m
        → m ≤ n
        → Paints f k m fb fb'
        → Paints f m n fb' fb''
        → Paints f k n fb fb''
    then-Paints f k m n fb fb' fb'' a b first second = record {
      inside = λ i j c. elim (lt-or-le (i + j * p.width) m) [
        | inl below ↦
            second.other (p.x + i) (p.y + j) (omega (arith, c.0)) (omega (arith, c.1))
              (λ i' j' c' e e'. clash i j i' j' below c' e e')
            ∙ first.inside i j (c.0, c.1, c.2, below)
        | inr above ↦ second.inside i j (c.0, c.1, above, c.3)
      ];
      other = λ x y in_x in_y h.
          second.other x y in_x in_y (λ i j c e. h i j (c.0, c.1, omega (arith, c.2), c.3) e)
          ∙ first.other x y in_x in_y (λ i j c e. h i j (c.0, c.1, c.2, omega (arith, c.3)) e);
    }
      where
        clash :
            (i j i' j' : ℕ)
            → i + j * p.width < m
            → Covers m n i' j'
            → p.x + i' ≡ p.x + i
            → p.y + j' ≢ p.y + j
        clash i j i' j' below c e e' =
            let same : j' ≡ j = omega arith in
            let rows : j' * p.width ≡ j * p.width = ap (λ (t : ℕ). t * p.width) same in
            omega (arith, rows, c.2)

    -- One pixel.
    pub one-Paints :
        (f : ℕ → ℕ) (i j color : ℕ) (fb : LinearFramebuffer)
        → IsScreen width height fb
        → i < p.width
        → j < p.height
        → f (i + j * p.width) ≡ color
        → Paints f
            (i + j * p.width)
            (i + j * p.width + 1)
            fb
            (record fb { buffer = set fb.buffer (i + p.x + (j + p.y) * width) color })
    one-Paints f i j color fb s in_i in_j e = record {
      inside = λ i' j' c.
          let (same_i, same_j) = same_place p.width i' j' i j c.0 in_i (omega (arith, c.2, c.3)) in
          written i' j' same_i same_j;
      other = λ x y in_x in_y h.
          get_or-set_ne fb.buffer (i + p.x + (j + p.y) * width) (x + y * width) color 0
            (λ same. elsewhere x y in_x h same);
    }
      where
        at : i + p.x + (j + p.y) * width < length fb.buffer
        at =
            let inside =
              offset-lt width height small narrow low (i + p.x) (j + p.y) (omega arith)
                (omega arith) in
            omega (arith, inside, s.whole)

        written :
            (i' j' : ℕ)
            → i' ≡ i
            → j' ≡ j
            → get_or
                (set fb.buffer (i + p.x + (j + p.y) * width) color)
                (p.x + i' + (p.y + j') * width)
                0
              ≡ f (i' + j' * p.width)
        written i' j' same_i same_j =
            let x : p.x + i ≡ i + p.x = omega arith in
            let y : p.y + j ≡ j + p.y = omega arith in
            rw (same_i, same_j, x, y)
              (get_or-set_self fb.buffer (i + p.x + (j + p.y) * width) color 0 at ∙ sym e)

        elsewhere :
            (x y : ℕ)
            → x < width
            → ((i' j' : ℕ)
                → Covers (i + j * p.width) (i + j * p.width + 1) i' j'
                → p.x + i' ≡ x
                → p.y + j' ≢ y)
            → i + p.x + (j + p.y) * width ≢ x + y * width
        elsewhere x y in_x h same =
            let (same_x, same_y) =
              same_place width (i + p.x) (j + p.y) x y (omega arith) in_x same in
            h i j (in_i, in_j, omega arith, omega arith) (omega arith) (omega arith)
