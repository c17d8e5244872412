-- ===== src/Bitmap/Fuel.antt =====
-- The loops of the scans of src/memory/paging/bitmap_allocator.rs end within their fuel.
use kermol.Common.{
  ℕ, zero, suc, ◌+◌, ◌-◌, ◌/◌, ◌%◌, ◌^◌, ◌==◌, bit_and, ◌≤◌, ◌<◌, ◌≡◌, ◌≢◌, refl, sym, ◌∙◌, arith,
  inl, inr,
}
use kermol.Common.{
  true, false, Bool-cases, ltb→lt, Bool, Option, some, none, Panic, if◌then◌else◌, ltb, sub64,
}
use kermol.Common.{Outcome, ok, err, panic, out_of_fuel, ◌>>=◌, index, or_panic}
use kermol.Common.{arithmetic_overflow, division_by_zero}
use native.Mathlib.Nat.{le_refl}
use kermol.Errors.{MemoryError, allocation_error}
use kermol.Bitmap.{BitmapAllocator}
use kermol.Bitmap.Scan.{Cursor, runs, rem64, scan_bits_run, scan_bits_from}

-- A result within the fuel, which `P` describes where it is normal.
pub data Ends {E A : Type 0} (P : A → Type 0) (r : Outcome E A) : Type 0 where
  returned : (a : A) → r ≡ ok a → P a → Ends P r
  failed : (e : E) → r ≡ err e → Ends P r
  panicked : (p : Panic) → r ≡ panic p → Ends P r

pub Ends-ne : {E A : Type 0} (P : A → Type 0) (r : Outcome E A) → Ends P r → r ≢ out_of_fuel
Ends-ne P r (returned a e p) z = absurd (let y = sym e ∙ z in ground (arith, y))
Ends-ne P r (failed x e) z = absurd (let y = sym e ∙ z in ground (arith, y))
Ends-ne P r (panicked x e) z = absurd (let y = sym e ∙ z in ground (arith, y))

pub then-Ends :
    {E A B : Type 0} (P : A → Type 0) (Q : B → Type 0) (m : Outcome E A) (f : A → Outcome E B)
    → Ends P m
    → ((a : A) → P a → Ends Q (f a))
    → Ends Q (m >>= f)
then-Ends P Q m f (returned a e p) h = rw e (h a p)
then-Ends P Q m f (failed x e) h = failed x (rw e refl)
then-Ends P Q m f (panicked x e) h = panicked x (rw e refl)

module _ {E A : Type 0} (P : A → Type 0) where
  pub if-Ends :
      (b : Bool) (x y : Outcome E A)
      → (b ≡ true → Ends P x)
      → (b ≡ false → Ends P y)
      → Ends P (if b then x else y)
  if-Ends true x y h k = h refl
  if-Ends false x y h k = k refl

pub weaker-Ends :
    {E A : Type 0} (P Q : A → Type 0) (r : Outcome E A)
    → Ends P r
    → ((a : A) → P a → Q a)
    → Ends Q r
weaker-Ends P Q r (returned a e p) h = returned a e (h a p)
weaker-Ends P Q r (failed x e) h = failed x e
weaker-Ends P Q r (panicked x e) h = panicked x e

-- What is not a loop ends.
abbrev pub Any : {A : Type 0} → A → Type 0
Any a = Unit

pub or_panic-Ends : {E A : Type 0} (p : Panic) (o : Option A) → Ends Any (or_panic {E = E} p o)
or_panic-Ends p none = panicked p refl
or_panic-Ends p (some a) = returned a refl tt

pub rem64-Ends : (a b : ℕ) → Ends Any (rem64 a b)
rem64-Ends a b =
    if-Ends Any (b == 0) (panic division_by_zero) (ok (a % b)) (λ _. panicked division_by_zero refl)
      (λ _. returned (a % b) refl tt)

pub checked-Ends :
    {E : Type 0} (b : Bool) (a : ℕ)
    → Ends {E = E} Any (if b then ok a else panic arithmetic_overflow)
checked-Ends b a =
    if-Ends Any b (ok a) (panic arithmetic_overflow) (λ _. returned a refl tt)
      (λ _. panicked arithmetic_overflow refl)

pub sub64-Ends : {E : Type 0} (a b : ℕ) → Ends Any (sub64 {E = E} a b)
sub64-Ends a b =
    if-Ends Any (ltb a b) (panic arithmetic_overflow) (ok (a - b))
      (λ _. panicked arithmetic_overflow refl) (λ _. returned (a - b) refl tt)

-- What the inner loops leave: they have moved on, by at least one round if the sum has changed.
pub record Moved (c c' : Cursor) : Type 0 where
  pub forward : c.current ≤ c'.current
  pub progress : c.sum ≡ 0 → 0 < c'.sum → c.current < c'.current

module _ (self : BitmapAllocator) (target limit : ℕ) where
  -- One round.
  abbrev next_bit : Cursor → ℕ → Cursor
  next_bit c byte = record {
    sum = c.sum + bit_and byte (2 ^ (c.current % 8));
    found = c.found + 1;
    current = c.current + 1;
  }

  round_bits :
      (fuel : ℕ) (c : Cursor)
      → runs target limit c ≡ true
      → scan_bits_run (suc fuel) self target limit c
        ≡ rem64 (c.current / 8) (self.size / 8) >>= λ i.
            index self.bitmap i >>= λ byte. scan_bits_run fuel self target limit (next_bit c byte)
  unfolding scan_bits_run
  round_bits fuel c e = rw (e, scan_bits_run) refl

  done_bits :
      (fuel : ℕ) (c : Cursor)
      → runs target limit c ≡ false
      → scan_bits_run (suc fuel) self target limit c ≡ ok c
  unfolding scan_bits_run
  done_bits fuel c e = rw (e, scan_bits_run) refl

  pub stays : (c : Cursor) → Moved c c
  stays c = record { forward = le_refl c.current; progress = λ e h. absurd (omega (arith, e, h)) }

  inside : (c : Cursor) → runs target limit c ≡ true → c.current < limit
  inside c e = ground (arith, e)

  after : (c : Cursor) (byte : ℕ) (c' : Cursor) → Moved (next_bit c byte) c' → Moved c c'
  after c byte c' m = record {
    forward = omega (arith, m.forward);
    progress = λ e h. omega (arith, m.forward);
  }

  scan_bits_run-Ends :
      (fuel : ℕ) (c : Cursor)
      → 0 < fuel
      → limit < fuel + c.current
      → Ends (Moved c) (scan_bits_run fuel self target limit c)
  scan_bits_run-Ends zero c p h = absurd (omega arith)
  scan_bits_run-Ends (suc fuel) c p h =
      let again = λ (l : c.current < limit) (byte : ℕ).
        scan_bits_run-Ends fuel (next_bit c byte) (omega (arith, l)) (omega arith) in
      elim (Bool-cases (runs target limit c)) [
        | inr out ↦ returned c (done_bits fuel c out) (stays c)
        | inl more ↦ rw (round_bits fuel c more) (
            then-Ends Any (Moved c) (rem64 (c.current / 8) (self.size / 8)) _ (rem64-Ends _ _)
              (λ i _. then-Ends Any (Moved c) (index self.bitmap i) _ (or_panic-Ends _ _) (λ byte _.
                weaker-Ends (Moved (next_bit c byte)) (Moved c) _ (again (inside c more) byte)
                  (λ c' m. after c byte c' m))))
      ]

  -- What the outer loop does after a run.
  abbrev pub begin : ℕ → Cursor
  begin current = record { sum = 0; found = 0; current = current }

  abbrev after_bits : ℕ → Cursor → Outcome MemoryError ℕ
  after_bits fuel c = elim (ltb 0 c.sum) [
    | true ↦ scan_bits_from fuel self target limit c.current
    | false ↦ sub64 c.current c.found
  ]

  more_bits :
      (fuel current : ℕ)
      → ltb current limit ≡ true
      → scan_bits_from (suc fuel) self target limit current
        ≡ scan_bits_run (suc fuel) self target limit (begin current) >>= λ c. after_bits fuel c
  unfolding scan_bits_from
  more_bits fuel current e = rw (e, scan_bits_from) refl

  end_bits :
      (fuel current : ℕ)
      → ltb current limit ≡ false
      → scan_bits_from (suc fuel) self target limit current ≡ err allocation_error
  unfolding scan_bits_from
  end_bits fuel current e = rw (e, scan_bits_from) refl

  after_bits-Ends :
      (fuel : ℕ) (c : Cursor)
      → (0 < c.sum → Ends Any (scan_bits_from fuel self target limit c.current))
      → Ends Any (after_bits fuel c)
  after_bits-Ends fuel c h = elim (Bool-cases (ltb 0 c.sum)) [
    | inl more ↦ rw (more, after_bits) (h (ltb→lt 0 c.sum more))
    | inr none_left ↦ rw (none_left, after_bits) (sub64-Ends c.current c.found)
  ]

  pub scan_bits_from-Ends :
      (fuel current : ℕ)
      → 0 < fuel
      → limit < fuel + current
      → Ends Any (scan_bits_from fuel self target limit current)
  scan_bits_from-Ends zero current p h = absurd (omega arith)
  scan_bits_from-Ends (suc fuel) current p h =
      let again =
        λ (l : current < limit) (c : Cursor) (m : Moved (begin current) c) (s : 0 < c.sum).
          scan_bits_from-Ends fuel c.current (omega (arith, l))
            (let z = m.progress refl s in omega (arith, z)) in
      elim (Bool-cases (ltb current limit)) [
        | inr out ↦ failed allocation_error (end_bits fuel current out)
        | inl more ↦ rw (more_bits fuel current more) (
            then-Ends (Moved (begin current)) Any
              (scan_bits_run (suc fuel) self target limit (begin current)) _
              (scan_bits_run-Ends (suc fuel) (begin current) (omega arith) h)
              (λ c m. after_bits-Ends fuel c (again (ltb→lt current limit more) c m)))
      ]
