-- ===== src/Display/Terminal/Cells.antt =====
-- The cells that put_char and scroll of src/display/vga_text_emulation.rs leave on a screen.
use kermol.Common.{ℕ, zero, suc, ◌+◌, ◌*◌, ◌-◌, ◌/◌, ◌%◌, ◌^◌, ◌≤◌, ◌<◌, ◌≡◌, refl, ◌∙◌, ap, arith}
use kermol.Common.{Bool, true, false, ◌&&◌, if◌then◌else◌, ltb, ◌==◌, lt→ltb, le→ltb}
use kermol.Common.{lt-or-le, inl, inr, ◌⊎◌, Bool-cases}
use kermol.Common.{List, [], ◌∷◌, ◌++◌, length, get_or, get_elem?-eq-get_or, drop, replicate}
use kermol.Common.{word, ok}
use kermol.Display.Framebuffer.{LinearFramebuffer, Place, plot_glyph}
use kermol.Display.Font.{vga_basic_font, get_char_glyph}
use kermol.Display.Text.{put_char}
use kermol.Display.Bounds.{IsScreen}
use kermol.Display.Scroll.{scrolled, length-drop}
use kermol.Display.Paint.{pixel, glyph_color}
use kermol.Display.Paint.Glyph.{DrawsGlyph, plot_glyph-DrawsGlyph}
use kermol.Display.Log.{cell, put_char-returns}
use native.Mathlib.Nat.{mul-le-mul_right}
use kermol.Display.Terminal.{Cell, shown, blank, picture, Displays}

-- Every character has a picture of sixteen rows, which is its glyph.
all_sixteen : List (List ℕ) → Bool
all_sixteen [] = true
all_sixteen (glyph ∷ font) = length glyph == 16 && all_sixteen font

get_or-all_sixteen :
    (font : List (List ℕ)) (i : ℕ)
    → i < length font
    → all_sixteen font ≡ true
    → length (get_or font i []) ≡ 16
unfolding all_sixteen
get_or-all_sixteen [] i h e = absurd (omega arith)
get_or-all_sixteen (glyph ∷ font) zero h e = ground (arith, e)
get_or-all_sixteen (glyph ∷ font) (suc i) h e =
    get_or-all_sixteen font i (omega arith) (ground (arith, e))

length-picture : (char : ℕ) → length (picture char) ≡ 16
unfolding all_sixteen
length-picture char = elim (lt-or-le 127 char) [
  | inl high ↦ rw (lt→ltb 127 char high) refl
  | inr low ↦
      let all : length vga_basic_font ≡ 128 = refl in
      rw (le→ltb 127 char low) (get_or-all_sixteen vga_basic_font char (omega (arith, all)) refl)
]

glyph-picture : (E : Type 0) (char : ℕ) → get_char_glyph {E = E} char ≡ ok (picture char)
unfolding get_char_glyph
glyph-picture E char = elim (lt-or-le 127 char) [
  | inl high ↦ rw (lt→ltb 127 char high) refl
  | inr low ↦
      let all : length vga_basic_font ≡ 128 = refl in
      let e = get_elem?-eq-get_or vga_basic_font char [] (omega (arith, all)) in
      rw (le→ltb 127 char low, e) refl
]

module _ {ℓ} {A : Type ℓ} where
  get_or-append_left :
      (xs ys : List A) (i : ℕ) (d : A) → i < length xs → get_or (xs ++ ys) i d ≡ get_or xs i d
  get_or-append_left [] ys i d h = absurd (omega arith)
  get_or-append_left (x ∷ xs) ys zero d h = refl
  get_or-append_left (x ∷ xs) ys (suc i) d h = get_or-append_left xs ys i d (omega arith)

  get_or-append_right :
      (xs ys : List A) (i : ℕ) (d : A)
      → length xs ≤ i
      → get_or (xs ++ ys) i d ≡ get_or ys (i - length xs) d
  get_or-append_right [] ys i d h = let e : i - 0 ≡ i = omega arith in rw e refl
  get_or-append_right (x ∷ xs) ys zero d h = absurd (omega arith)
  get_or-append_right (x ∷ xs) ys (suc i) d h =
      let e : suc i - suc (length xs) ≡ i - length xs = omega arith in
      rw e (get_or-append_right xs ys i d (omega arith))

  get_or-drop : (n : ℕ) (xs : List A) (i : ℕ) (d : A) → get_or (drop n xs) i d ≡ get_or xs (n + i) d
  get_or-drop zero xs i d = let e : zero + i ≡ i = omega arith in rw e refl
  get_or-drop (suc n) [] i d = refl
  get_or-drop (suc n) (x ∷ xs) i d =
      let e : suc n + i ≡ suc (n + i) = omega arith in rw e (get_or-drop n xs i d)

  pub get_or-replicate : (n i : ℕ) (a d : A) → i < n → get_or (replicate n a) i d ≡ a
  get_or-replicate zero i a d h = absurd (omega arith)
  get_or-replicate (suc n) zero a d h = refl
  get_or-replicate (suc n) (suc i) a d h = get_or-replicate n i a d (omega arith)

module _ (width height : ℕ) (small : height * width < word) (narrow : width < word)
    (low : height < word) (E : Type 0) where
  abbrev Grid : LinearFramebuffer → (ℕ → ℕ → Cell) → Type 0
  Grid = Displays (width / 8) (height / 16) width

  -- The cells with one of them replaced.
  abbrev pub write_cell : ℕ → ℕ → Cell → (ℕ → ℕ → Cell) → ℕ → ℕ → Cell
  write_cell column row c cells x y = if x == column && y == row then c else cells x y

  -- What `put_char` returns.
  pub record PutsCell (column row color background char : ℕ) (cells : ℕ → ℕ → Cell)
      (fb : LinearFramebuffer) : Type 0 where
    pub out : LinearFramebuffer
    pub returns : put_char {E = E} column row color background char fb ≡ ok (tt, out)
    pub screen : IsScreen width height out
    pub grid : Grid out (write_cell column row (shown char color background) cells)

  module _ (column row color background char : ℕ) (cells : ℕ → ℕ → Cell) (fb : LinearFramebuffer)
      (c : column < width / 8) (r : row < height / 16) where
    abbrev place : Place
    place = cell width height small narrow low E column row color background

    bit_color :
        (glyph : List ℕ) (i j : ℕ)
        → i < 8
        → glyph_color place glyph (i + j * 8)
          ≡ (if get_or glyph j 0 / 2 ^ (7 - i) % 2 == 0 then background else color)
    bit_color glyph i j h =
        let byte : (i + j * 8) / 8 ≡ j = omega arith in
        let bit : (i + j * 8) % 8 ≡ i = omega arith in rw (byte, bit) refl

    drawn_cell :
        (d : DrawsGlyph width height small narrow low place
          (picture char)
          fb
          (plot_glyph place (picture char) fb))
        → Grid fb cells
        → Grid d.out (write_cell column row (shown char color background) cells)
    drawn_cell d g x y i j in_x in_y in_i in_j = elim (Bool-cases (x == column && y == row)) [
      | inl here ↦
          let same_x : x ≡ column = ground (arith, here) in
          let same_y : y ≡ row = ground (arith, here) in
          rw here
            (rw (same_x, same_y) (d.glyph_pixels i j in_i in_j ∙ bit_color (picture char) i j in_i))
      | inr elsewhere ↦ rw elsewhere (
          d.others (x * 8 + i) (y * 16 + j) (omega arith) (omega arith) (apart elsewhere)
          ∙ g x y i j in_x in_y in_i in_j)
    ]
      where
        here : x ≡ column → y ≡ row → ¬ ((x == column && y == row) ≡ false)
        here a b e = ground (arith, a, b, e)

        apart :
            (x == column && y == row) ≡ false
            → ((x * 8 + i < column * 8) ⊎ (column * 8 + 8 ≤ x * 8 + i))
              ⊎ ((y * 16 + j < row * 16) ⊎ (row * 16 + 16 ≤ y * 16 + j))
        apart e = elim (lt-or-le x column) [
          | inl left ↦ inl (inl (omega arith))
          | inr from ↦ elim (lt-or-le column x) [
            | inl right ↦ inl (inr (omega arith))
            | inr to ↦ elim (lt-or-le y row) [
              | inl above ↦ inr (inl (omega arith))
              | inr from_row ↦ elim (lt-or-le row y) [
                | inl below ↦ inr (inr (omega arith))
                | inr to_row ↦ absurd (here (omega arith) (omega arith) e)
              ]
            ]
          ]
        ]

    pub put_char-PutsCell :
        IsScreen width height fb
        → Grid fb cells
        → PutsCell column row color background char cells fb
    put_char-PutsCell s g =
        let enough : 16 * 8 ≤ length (picture char) * 8 = omega (arith, length-picture char) in
        let d =
          plot_glyph-DrawsGlyph width height small narrow low place (picture char) fb s
            (omega arith) (omega arith) (omega arith) (omega arith) enough in
        record {
          out = d.out;
          returns =
              put_char-returns width height small narrow low E column row color background char fb
                d.out (picture char) c r (glyph-picture E char) d.returns;
          screen = d.screen;
          grid = drawn_cell d g;
        }

-- Scrolling by one row of text.
module _ (width height : ℕ) (whole_rows : height % 16 ≡ 0) (fb : LinearFramebuffer)
    (s : IsScreen width height fb) (tall : 16 ≤ height) (color : ℕ) where
  abbrev pub moved_up : (ℕ → ℕ → Cell) → ℕ → ℕ → Cell
  moved_up cells x y = if ltb (y + 1) (height / 16) then cells x (y + 1) else blank color

  dropped : length (drop (16 * width) fb.buffer) ≡ height * width - 16 * width
  dropped = let e = length-drop (16 * width) fb.buffer in omega (arith, e, s.whole)

  -- Pixels above the last row of text come from sixteen rows below, the others have the color.
  module _ (x y i j : ℕ) (in_x : x < width / 8) (in_i : i < 8) (in_j : j < 16) where
    abbrev at : ℕ
    at = x * 8 + i + (y * 16 + j) * width

    from_below :
        y + 1 < height / 16
        → pixel width (scrolled (16 * width) color fb) (x * 8 + i) (y * 16 + j)
          ≡ pixel width fb (x * 8 + i) ((y + 1) * 16 + j)
    from_below h =
        let row : suc ((y + 1) * 16 + j) ≤ height = omega arith in
        let rows : suc ((y + 1) * 16 + j) * width ≤ height * width = mul-le-mul_right width row in
        let place : 16 * width + at ≡ x * 8 + i + ((y + 1) * 16 + j) * width = omega arith in
        get_or-append_left (drop (16 * width) fb.buffer) (replicate (16 * width) color) at 0
          (omega (arith, dropped, rows))
        ∙ get_or-drop (16 * width) fb.buffer at 0
        ∙ ap (λ (k : ℕ). get_or fb.buffer k 0) place

    filled :
        y + 1 ≡ height / 16
        → pixel width (scrolled (16 * width) color fb) (x * 8 + i) (y * 16 + j) ≡ color
    filled h =
        let row : y * 16 + 16 ≡ height = omega arith in
        let rows : (y * 16 + 16) * width ≡ height * width = ap (λ (k : ℕ). k * width) row in
        let last : suc j * width ≤ 16 * width = mul-le-mul_right width in_j in
        get_or-append_right (drop (16 * width) fb.buffer) (replicate (16 * width) color) at 0
          (omega (arith, dropped, rows))
        ∙ get_or-replicate (16 * width) (at - length (drop (16 * width) fb.buffer)) color 0
            (omega (arith, dropped, rows, last))

  pub scrolled-Displays :
      (cells : ℕ → ℕ → Cell)
      → Displays (width / 8) (height / 16) width fb cells
      → Displays (width / 8) (height / 16) width (scrolled (16 * width) color fb) (moved_up cells)
  scrolled-Displays cells g x y i j in_x in_y in_i in_j = elim (lt-or-le (y + 1) (height / 16)) [
    | inl h ↦
        rw (lt→ltb (y + 1) (height / 16) h)
          (from_below x y i j in_x in_i in_j h ∙ g x (y + 1) i j in_x h in_i in_j)
    | inr h ↦ rw (le→ltb (y + 1) (height / 16) h) (filled x y i j in_x in_i in_j (omega arith))
  ]
