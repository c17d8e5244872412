-- ===== src/Bitmap/Search.antt =====
-- What `scan_bits` returns: the first run of free bits, or the lack of one.
use kermol.Common.{ℕ, zero, suc, ◌+◌, ◌-◌, ◌*◌, ◌≤◌, ◌<◌, ◌≡◌, refl, true}
use kermol.Common.{List, inl, inr, lt-or-le, ◌⊎◌, arith, Outcome, ok, err, word}
use kermol.Common.{lt→ltb, sub64}
use kermol.Errors.{MemoryError, allocation_error}
use kermol.Bitmap.{BitmapAllocator}
use kermol.Bitmap.Scan.{Cursor, scan_bits_run, scan_bits_from, scan_bits}
use kermol.Bitmap.View.{IsValid}
use kermol.Bitmap.Run.{IsBlocked, IsFree, lap_bit, Stops, inner}

-- `at` is the first position from `from` on that starts no blocked run: `run` free bits follow it,
-- which are `target` many, or fewer because the limit ends them.
pub record IsFirstRun (bytes : List ℕ) (target limit from at : ℕ) : Type 0 where
  pub run : ℕ
  pub low : from ≤ at
  pub high : at < limit
  pub free : IsFree bytes at (at + run)
  pub enough : (run ≡ target) ⊎ (run < target) × (at + run ≡ limit)
  pub first : (q : ℕ) → from ≤ q → q < at → IsBlocked bytes target limit q

-- The two ways in which a scan from `from` may end.
abbrev pub Finds : BitmapAllocator → ℕ → ℕ → ℕ → Outcome MemoryError ℕ → Type 0
Finds self target limit from r =
    ((at : ℕ) × (r ≡ ok at) × IsFirstRun self.bitmap target limit from at)
    ⊎ (r ≡ err allocation_error)
      × ((q : ℕ) → from ≤ q → q < limit → IsBlocked self.bitmap target limit q)

module _ (self : BitmapAllocator) (target limit : ℕ) (v : IsValid self) (pos : 0 < self.size) where
  abbrev begin : ℕ → Cursor
  begin current = record { sum = 0; found = 0; current = current }

  -- A run that stopped on a used bit blocks every start that it passed.
  blocked :
      (c : ℕ) (d : Cursor)
      → Stops self target limit (begin c) d
      → lap_bit self.bitmap (d.current - 1) ≡ true
      → c < d.current
      → (q : ℕ) → c ≤ q
      → q < d.current
      → IsBlocked self.bitmap target limit q
  blocked c d s used p q low high =
      (d.current - 1, omega arith, omega (arith, s.steps, s.bounded), omega (arith, s.inside), used)

  later :
      (from mid : ℕ) (r : Outcome MemoryError ℕ)
      → from ≤ mid
      → ((q : ℕ) → from ≤ q → q < mid → IsBlocked self.bitmap target limit q)
      → Finds self target limit mid r
      → Finds self target limit from r
  later from mid r le before (inl (at, e, f)) = inl (
    at,
    e,
    record {
      run = f.run;
      low = omega (arith, f.low);
      high = f.high;
      free = f.free;
      enough = f.enough;
      first = λ q p h. elim (lt-or-le q mid) [ inl l ↦ before q p l | inr g ↦ f.first q g h ];
    },
  )
  later from mid r le before (inr (e, all)) =
      inr (e, λ q p h. elim (lt-or-le q mid) [ inl l ↦ before q p l | inr g ↦ all q g h ])

  -- A run that did not stop on a used bit is the answer.
  found :
      {current : ℕ} (d : Cursor)
      → current < limit
      → Stops self target limit (begin current) d
      → (target ≤ d.found) ⊎ (limit ≤ d.current)
      → IsFree self.bitmap current d.current
      → Finds self target limit current (sub64 d.current d.found)
  found {current} d on s e run = inl (
    current,
    ground (arith, s.steps),
    record {
      run = d.found;
      low = omega arith;
      high = on;
      free = λ i p q. run i p (omega (arith, s.steps));
      enough = elim (lt-or-le d.found target) [
        | inl l ↦ inr (l, ground (arith, s.steps, s.inside))
        | inr g ↦ inl (omega (arith, s.bounded))
      ];
      first = λ q p h. absurd (omega arith);
    },
  )

  module _ (fuel current : ℕ) where
    exhausted :
        limit ≤ current → scan_bits_from (suc fuel) self target limit current ≡ err allocation_error
    unfolding scan_bits_from
    exhausted out = ground arith

    module _ (d : Cursor) (on : current < limit)
        (r : scan_bits_run (suc fuel) self target limit (begin current) ≡ ok d) where
      again :
          0 < d.sum
          → scan_bits_from (suc fuel) self target limit current
            ≡ scan_bits_from fuel self target limit d.current
      unfolding scan_bits_from
      again p = ground arith

      answer :
          d.sum ≡ 0 → scan_bits_from (suc fuel) self target limit current ≡ sub64 d.current d.found
      unfolding scan_bits_from
      answer p = ground arith

  pub scan_bits_from-Finds :
      (fuel current : ℕ)
      → limit < fuel + current
      → 0 < fuel
      → Finds self target limit current (scan_bits_from fuel self target limit current)
  scan_bits_from-Finds zero current f g = absurd (omega arith)
  scan_bits_from-Finds (suc fuel) current f g = elim (lt-or-le current limit) [
    | inr out ↦ inr (exhausted fuel current out, λ q p h. absurd (omega arith))
    | inl on ↦
        let (d, r, s) =
          inner self target limit (suc fuel) (begin current) v pos f (omega arith) (omega arith)
            refl in
        elim s.why [
          | inl (p, q, used, _) ↦ rw (again fuel current d on r p) (
              later current d.current _ s.forward (blocked current d s used q) (
                scan_bits_from-Finds fuel d.current (omega (arith, q))
                  (omega (arith, q, s.inside))))
          | inr (z, e, run) ↦ rw (answer fuel current d on r z) (found d on s e run)
        ]
  ]

-- On a valid allocator that is not empty, `scan_bits` returns, with no panic: either the first
-- position, from `last_allocated` on, that starts `target` free bits or free bits up to eight times
-- the bitmap's size, or an allocation error, where no position up to there starts such a run.
pub scan_bits-Finds :
    (self : BitmapAllocator) (target : ℕ)
    → IsValid self
    → 0 < self.size
    → Finds self target (self.size * 8) self.last_allocated (scan_bits self target)
unfolding scan_bits
scan_bits-Finds self target v pos = rw (lt→ltb (self.size * 8) word (omega (arith, v.small))) (
    scan_bits_from-Finds self target (self.size * 8) v pos (self.size * 8 + 1) self.last_allocated
      (omega arith) (omega arith))
