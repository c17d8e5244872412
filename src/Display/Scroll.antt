-- ===== src/Display/Scroll.antt =====
-- `LinearFramebuffer::scroll` of src/display/linear_framebuffer.rs as an operation on lists.
use kermol.Common.{
  ℕ, zero, suc, ◌+◌, ◌*◌, ◌-◌, ◌≤◌, ◌<◌, ◌≡◌, refl, ap, ◌∙◌, List, [], ◌∷◌, ◌++◌, length, set,
}
use kermol.Common.{
  take, drop, replicate, length-replicate, word, ok, arith, ltb, lt→ltb, true, false,
}
use kermol.Display.Framebuffer.{LinearFramebuffer, scroll, copy_down, write_from}
use kermol.Display.Bounds.{IsScreen}

module _ {ℓ} {A : Type ℓ} where
  pub length-drop : (n : ℕ) (xs : List A) → length (drop n xs) ≡ length xs - n
  length-drop zero xs = omega arith
  length-drop (suc n) [] = omega arith
  length-drop (suc n) (x ∷ xs) = let e = length-drop n xs in omega (arith, e)

  take-all : (n : ℕ) (xs : List A) → length xs ≤ n → take n xs ≡ xs
  take-all zero [] h = refl
  take-all zero (x ∷ xs) h = absurd (omega arith)
  take-all (suc n) [] h = refl
  take-all (suc n) (x ∷ xs) h = ap (λ ys. x ∷ ys) (take-all n xs (omega arith))

  length-append : (xs ys : List A) → length (xs ++ ys) ≡ length xs + length ys
  length-append [] ys = omega arith
  length-append (x ∷ xs) ys = let e = length-append xs ys in omega (arith, e)

-- The writes overwrite what follows the kept rows.
write_from-all :
    (color : ℕ) (xs ys : List ℕ) (at : ℕ)
    → length xs ≡ at
    → write_from at (length ys) color (xs ++ ys) ≡ xs ++ replicate (length ys) color
write_from-all color xs [] at e = refl
write_from-all color xs (y ∷ ys) at e =
    let once : set (xs ++ (y ∷ ys)) at color ≡ (xs ++ (color ∷ [])) ++ ys = place xs at e in
    let longer : length (xs ++ (color ∷ [])) ≡ suc at =
      let l = length-append xs (color ∷ []) in omega (arith, l) in
    ap (write_from (suc at) (length ys) color) once
    ∙ write_from-all color (xs ++ (color ∷ [])) ys (suc at) longer
    ∙ regroup xs
  where
    place :
        (xs : List ℕ) (at : ℕ)
        → length xs ≡ at
        → set (xs ++ (y ∷ ys)) at color ≡ (xs ++ (color ∷ [])) ++ ys
    place [] zero e = refl
    place [] (suc at) e = absurd (omega arith)
    place (x ∷ xs) zero e = absurd (omega arith)
    place (x ∷ xs) (suc at) e = ap (λ zs. x ∷ zs) (place xs at (omega arith))

    regroup :
        (xs : List ℕ)
        → (xs ++ (color ∷ [])) ++ replicate (length ys) color
          ≡ xs ++ (color ∷ replicate (length ys) color)
    regroup [] = refl
    regroup (x ∷ xs) = ap (λ zs. x ∷ zs) (regroup xs)

abbrev pub scrolled : ℕ → ℕ → LinearFramebuffer → LinearFramebuffer
scrolled pixels color fb = record fb { buffer = drop pixels fb.buffer ++ replicate pixels color }

module _ (width height : ℕ) (small : height * width < word) (fb : LinearFramebuffer)
    (s : IsScreen width height fb) (layers color : ℕ) (h : layers ≤ height) where
  abbrev kept : ℕ
  kept = width * (height - layers)

  area : kept + layers * width ≡ height * width
  area =
      let rows : height - layers + layers ≡ height = omega arith in
      let e : (height - layers + layers) * width ≡ height * width = rw rows refl in omega (arith, e)

  moved :
      write_from kept (layers * width) color (copy_down fb.buffer (layers * width) kept)
      ≡ drop (layers * width) fb.buffer ++ replicate (layers * width) color
  moved =
      let dropped = length-drop (layers * width) fb.buffer in
      let rest = length-drop kept fb.buffer in
      let at : length (drop (layers * width) fb.buffer) ≡ kept =
        omega (arith, dropped, s.whole, area) in
      let count : length (drop kept fb.buffer) ≡ layers * width =
        omega (arith, rest, s.whole, area) in
      let all = take-all kept (drop (layers * width) fb.buffer) (omega (arith, at)) in
      rw all (
        rw count at
          (write_from-all color (drop (layers * width) fb.buffer) (drop kept fb.buffer) kept at))

  -- On a screen with fewer than 2^64 pixels, for at most as many rows as it has, `scroll` drops
  -- these rows from the front of the buffer, and adds as many rows of the color at its end.
  pub scroll_lem {ℓ} :
      {E : Type ℓ} → scroll {E = E} layers color fb ≡ ok (tt, scrolled (layers * width) color fb)
  unfolding scroll
  scroll_lem =
      let skipped_fits : ltb (layers * width) word ≡ true =
        lt→ltb (layers * width) word (omega (arith, area, small)) in
      let enough_rows : ltb height layers ≡ false = ground arith in
      let kept_fits : ltb kept word ≡ true = lt→ltb kept word (omega (arith, area, small)) in
      rw (s.wide, s.tall, skipped_fits, enough_rows, kept_fits, moved) refl

  pub scrolled-IsScreen : IsScreen width height (scrolled (layers * width) color fb)
  scrolled-IsScreen = record {
    wide = s.wide;
    tall = s.tall;
    whole =
        (let a =
            length-append (drop (layers * width) fb.buffer) (replicate (layers * width) color) in
          let b = length-drop (layers * width) fb.buffer in
          let c = length-replicate (layers * width) color in omega (arith, a, b, c, s.whole, area));
  }
