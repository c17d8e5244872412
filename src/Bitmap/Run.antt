-- ===== src/Bitmap/Run.antt =====
-- What the loops of `scan_bits` find. The scan goes over the bitmap up to eight times, so a bit is
-- read modulo the bitmap's length.
use kermol.Common.{ℕ, zero, suc, ◌+◌, ◌-◌, ◌*◌, ◌/◌, ◌%◌, ◌≤◌, ◌<◌, ◌≡◌, refl, Bool, true, false}
use kermol.Common.{List, length, get_or, inl, inr, lt-or-le, ◌⊎◌, ◌^◌, bit_and}
use kermol.Common.{ltb, arith, ok}
use kermol.Common.{get_elem?-eq-get_or, ◌∙◌, Bool-cases, ltb→lt}
use kermol.Common.Bits.{test_bit}
use kermol.Bitmap.{BitmapAllocator}
use kermol.Bitmap.Scan.{Cursor, runs, scan_bits_run}
use kermol.Bitmap.View.{IsValid, bit_at}
use native.Mathlib.Nat.{mod-lt, mod-eq_of_lt}

-- The bit that the scan reads at `i`.
unfoldable pub lap_bit : List ℕ → ℕ → Bool
lap_bit bytes i = test_bit (get_or bytes (i / 8 % length bytes) 0) (i % 8)

-- On the first lap it is bit `i`.
pub lap_bit-bit_at :
    (bytes : List ℕ) (i : ℕ) → i < length bytes * 8 → lap_bit bytes i ≡ bit_at bytes i
unfolding lap_bit bit_at
lap_bit-bit_at bytes i h = rw (mod-eq_of_lt {n = i / 8} {m = length bytes} (omega arith))

-- A run of `target` bits from `q` on meets a used bit before the limit.
abbrev pub IsBlocked : List ℕ → ℕ → ℕ → ℕ → Type 0
IsBlocked bytes target limit q =
    (i : ℕ) × (q ≤ i) × (i < q + target) × (i < limit) × (lap_bit bytes i ≡ true)

abbrev pub IsFree : List ℕ → ℕ → ℕ → Type 0
IsFree bytes from to = (i : ℕ) → from ≤ i → i < to → lap_bit bytes i ≡ false

module _ (self : BitmapAllocator) (target limit : ℕ) where
  -- How the inner loop stops: on a used bit just read, or on a run that is long enough or reaches
  -- the limit.
  pub record Stops (c d : Cursor) : Type 0 where
    pub steps : d.found + c.current ≡ c.found + d.current
    pub forward : c.current ≤ d.current
    pub bounded : d.found ≤ target
    pub inside : d.current ≤ limit
    pub why :
        (0 < d.sum)
          × (c.current < d.current)
          × (lap_bit self.bitmap (d.current - 1) ≡ true)
          × IsFree self.bitmap c.current (d.current - 1)
        ⊎ (d.sum ≡ 0)
          × ((target ≤ d.found) ⊎ (limit ≤ d.current))
          × IsFree self.bitmap c.current d.current

  step : Cursor → Cursor
  step c =
      let byte = get_or self.bitmap (c.current / 8 % length self.bitmap) 0 in
      record {
        sum = c.sum + bit_and byte (2 ^ (c.current % 8));
        found = c.found + 1;
        current = c.current + 1;
      }

  halt :
      (fuel : ℕ) (c : Cursor)
      → 0 < fuel
      → runs target limit c ≡ false
      → scan_bits_run fuel self target limit c ≡ ok c
  unfolding scan_bits_run
  halt zero c p e = absurd (omega arith)
  halt (suc fuel) c p e = ground arith

  go :
      (fuel : ℕ) (c : Cursor)
      → IsValid self
      → 0 < self.size
      → runs target limit c ≡ true
      → scan_bits_run (suc fuel) self target limit c ≡ scan_bits_run fuel self target limit (step c)
  unfolding scan_bits_run step
  go fuel c v pos e =
      let eight : self.size / 8 ≡ length self.bitmap = omega (arith, v.whole) in
      ground (
        arith,
        v.whole,
        eight,
        get_elem?-eq-get_or self.bitmap (c.current / 8 % length self.bitmap) 0
            (mod-lt (c.current / 8) (omega arith)),
      )

  sum-bit : (c : Cursor) → c.sum ≡ 0 → (ltb 0 (step c).sum) ≡ lap_bit self.bitmap c.current
  unfolding step lap_bit test_bit
  sum-bit c z = ground arith

  stopped :
      (c : Cursor)
      → c.found ≤ target
      → c.current ≤ limit
      → c.sum ≡ 0
      → runs target limit c ≡ false
      → Stops c c
  stopped c b i z e = record {
    steps = refl;
    forward = omega arith;
    bounded = b;
    inside = i;
    why = inr (z, ground arith, λ i p q. absurd (omega arith));
  }

  -- The run goes on over a free bit.
  extend : (c d : Cursor) → lap_bit self.bitmap c.current ≡ false → Stops (step c) d → Stops c d
  unfolding step
  extend c d free s = record {
    steps = omega (arith, s.steps);
    forward = omega (arith, s.forward);
    bounded = s.bounded;
    inside = s.inside;
    why = elim s.why [
      | inl (p, q, u, r) ↦ inl (p, omega arith, u, more (d.current - 1) r)
      | inr (z, e, r) ↦ inr (z, e, more d.current r)
    ];
  }
    where
      more : (to : ℕ) → IsFree self.bitmap (c.current + 1) to → IsFree self.bitmap c.current to
      more to r i p q = elim (lt-or-le c.current i) [
        | inl l ↦ r i (omega arith) q
        | inr g ↦ let e : i ≡ c.current = omega arith in rw e free
      ]

  -- The run ends at a used bit.
  hit :
      (c : Cursor)
      → c.sum ≡ 0
      → runs target limit c ≡ true
      → lap_bit self.bitmap c.current ≡ true
      → Stops c (step c)
  unfolding step
  hit c z e used = record {
    steps = omega arith;
    forward = omega arith;
    bounded = ground arith;
    inside = ground arith;
    why = inl (
      unfold step in ltb→lt _ _ (sum-bit c z ∙ used),
      omega arith,
      (let back : c.current + 1 - 1 ≡ c.current = omega arith in rw back used),
      λ i p q. absurd (omega arith),
    );
  }

  runs-step :
      (c : Cursor)
      → runs target limit c ≡ true
      → ((step c).found ≤ target) × ((step c).current ≤ limit) × ((step c).current ≡ c.current + 1)
  unfolding step
  runs-step c e = ground arith

  halts-step :
      (c : Cursor)
      → c.sum ≡ 0
      → lap_bit self.bitmap c.current ≡ true
      → runs target limit (step c) ≡ false
  halts-step c z used = ground (arith, sum-bit c z)

  -- With more fuel than positions left, the inner loop returns.
  pub inner :
      (fuel : ℕ) (c : Cursor)
      → IsValid self
      → 0 < self.size
      → limit < fuel + c.current
      → c.found ≤ target
      → c.current ≤ limit
      → c.sum ≡ 0
      → (d : Cursor) × (scan_bits_run fuel self target limit c ≡ ok d) × Stops c d
  inner zero c v pos f b i z = absurd (omega arith)
  inner (suc fuel) c v pos f b i z = elim (Bool-cases (runs target limit c)) [
    | inr e ↦ (c, halt (suc fuel) c (omega arith) e, stopped c b i z e)
    | inl e ↦
        let (b', i', n) = runs-step c e in
        elim (Bool-cases (lap_bit self.bitmap c.current)) [
          | inl used ↦ (
            step c,
            go fuel c v pos e ∙ halt fuel (step c) (omega (arith, n, i')) (halts-step c z used),
            hit c z e used,
          )
          | inr free ↦
              let z' : (step c).sum ≡ 0 = ground (arith, sum-bit c z) in
              let (d, r, s) = inner fuel (step c) v pos (omega (arith, n)) b' i' z' in
              (d, go fuel c v pos e ∙ r, extend c d free s)
        ]
  ]
