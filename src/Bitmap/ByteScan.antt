-- ===== src/Bitmap/ByteScan.antt =====
-- `alloc` of more than sixteen bits, the path through `scan_bytes`. It reads the byte whose index
-- is the bit position, so it looks at every eighth byte, and soon past the slice.
use kermol.Common.{ℕ, zero, suc, ◌+◌, ◌-◌, ◌*◌, ◌≤◌, ◌<◌, ◌≡◌, ◌∙◌}
use kermol.Common.{Outcome, ok, panic, index_out_of_range, arith, lt-or-le, inl, inr, length}
use kermol.Common.{get_or, get_elem?-eq-get_or, get_elem?-eq-none, some, ap}
use kermol.X86.{X86}
use kermol.Errors.{MemoryError}
use kermol.Bitmap.{BitmapAllocator}
use kermol.Bitmap.Scan.{Cursor, scan, scan_bytes_run, scan_bytes_from}
use kermol.Bitmap.View.{IsValid}
use kermol.Bitmap.Alloc.{alloc}
use kermol.Bitmap.Allocate.{Marks, alloc-Marks}
use native.Mathlib.Nat.{mod-eq_of_lt}

module _ (self : BitmapAllocator) (target : ℕ) (v : IsValid self) where
  abbrev at_byte : ℕ → Cursor
  at_byte k = record { sum = 0; found = k; current = 8 * k }

  -- One round over a zero byte.
  advance :
      (fuel k : ℕ)
      → k < target
      → 8 * k < length self.bitmap
      → get_or self.bitmap (8 * k) 0 ≡ 0
      → scan_bytes_run (suc fuel) self target (at_byte k)
        ≡ scan_bytes_run fuel self target (at_byte (k + 1))
  unfolding scan_bytes_run
  advance fuel k p q z =
      let next : 8 * k + 8 ≡ 8 * (k + 1) = omega arith in
      ground (
        arith,
        v.whole,
        v.small,
        next,
        mod-eq_of_lt {n = 8 * k} {m = self.size} (omega (arith, v.whole)),
        get_elem?-eq-get_or self.bitmap (8 * k) 0 q,
      )

  finish : (fuel : ℕ) → scan_bytes_run (suc fuel) self target (at_byte target) ≡ ok (at_byte target)
  unfolding scan_bytes_run
  finish fuel = ground arith

  escape :
      (fuel k : ℕ)
      → k < target
      → length self.bitmap ≤ 8 * k
      → 8 * k < self.size
      → scan_bytes_run (suc fuel) self target (at_byte k) ≡ panic index_out_of_range
  unfolding scan_bytes_run
  escape fuel k p q r =
      ground
        (arith, mod-eq_of_lt {n = 8 * k} {m = self.size} r, get_elem?-eq-none self.bitmap (8 * k) q)

  sparse-run :
      (n k fuel : ℕ)
      → k + n ≡ target
      → n < fuel
      → target * 64 < self.size + 64
      → ((j : ℕ) → j < target → get_or self.bitmap (8 * j) 0 ≡ 0)
      → scan_bytes_run fuel self target (at_byte k) ≡ ok (at_byte target)
  sparse-run n k zero e f h z = absurd (omega arith)
  sparse-run zero k (suc fuel) e f h z =
      let same : k ≡ target = omega arith in rw same (finish fuel)
  sparse-run (suc n) k (suc fuel) e f h z =
      advance fuel k (omega arith) (omega (arith, v.whole)) (z k (omega arith))
      ∙ sparse-run n (k + 1) fuel (omega arith) (omega arith) h z

  zero-run :
      (fuel k : ℕ)
      → length self.bitmap + 8 < 8 * fuel + 8 * k
      → 8 * k < length self.bitmap + 8
      → 16 < self.size
      → self.size + 64 ≤ target * 64
      → ((j : ℕ) → 8 * j < length self.bitmap → get_or self.bitmap (8 * j) 0 ≡ 0)
      → scan_bytes_run fuel self target (at_byte k) ≡ panic index_out_of_range
  zero-run zero k f b big h z = absurd (omega arith)
  zero-run (suc fuel) k f b big h z = elim (lt-or-le (8 * k) (length self.bitmap)) [
    | inl l ↦
        advance fuel k (omega (arith, v.whole)) l (z k l)
        ∙ zero-run fuel (k + 1) (omega arith) (omega arith) big h z
    | inr g ↦ escape fuel k (omega (arith, v.whole)) g (omega (arith, v.whole))
  ]

module _ (x86 : X86) (self : BitmapAllocator) (bits : ℕ) where
  -- A request that goes to `scan_bytes`, and starts at the front.
  pub record IsLarge : Type 0 where
    pub valid : IsValid self
    pub more : 16 < bits
    pub fits : bits < self.size
    pub at_front : self.last_allocated ≡ 0

  align_up-zero : x86.align_up 0 8 ≡ some 0
  align_up-zero =
      let (x, e, _, high, even) = x86.align_up-eight 0 (omega arith) in
      let z : x ≡ 0 = omega arith in e ∙ ap some z

  module _ (s : IsLarge) where
    large-scan :
        (r : Outcome MemoryError ℕ)
        → scan_bytes_from (suc self.size) self bits 0 ≡ r
        → scan x86 self bits ≡ r
    unfolding scan
    large-scan r e =
        let one : self.size + 1 ≡ suc self.size = omega arith in
        ground (arith, s.at_front, align_up-zero, one, e)

    from-ok :
        scan_bytes_run (suc self.size) self bits (at_byte self bits s.valid 0)
          ≡ ok (at_byte self bits s.valid bits)
        → scan_bytes_from (suc self.size) self bits 0 ≡ ok 0
    unfolding scan_bytes_from
    from-ok r =
        let back : 8 * bits - bits * 8 ≡ 0 = omega arith in
        ground (arith, r, s.fits, s.valid.small, back)

    from-panic :
        scan_bytes_run (suc self.size) self bits (at_byte self bits s.valid 0)
          ≡ panic index_out_of_range
        → scan_bytes_from (suc self.size) self bits 0 ≡ panic index_out_of_range
    unfolding scan_bytes_from
    from-panic r = ground (arith, r, s.fits)

    scan-sparse :
        bits * 64 < self.size + 64
        → ((j : ℕ) → j < bits → get_or self.bitmap (8 * j) 0 ≡ 0)
        → scan x86 self bits ≡ ok 0
    scan-sparse h z = large-scan (ok 0) (
        from-ok (
          sparse-run self bits s.valid bits 0 (suc self.size) (omega arith) (omega (arith, s.fits))
            h z))

    scan-panics :
        self.size + 64 ≤ bits * 64
        → ((j : ℕ) → 8 * j < length self.bitmap → get_or self.bitmap (8 * j) 0 ≡ 0)
        → scan x86 self bits ≡ panic index_out_of_range
    scan-panics h z = large-scan (panic index_out_of_range) (
        from-panic (
          zero-run self bits s.valid (suc self.size) 0 (omega (arith, s.valid.whole)) (omega arith)
            (omega (arith, s.more, s.fits)) h z))

alloc-panic :
    (x86 : X86) (self : BitmapAllocator) (bits : ℕ)
    → scan x86 self bits ≡ panic index_out_of_range
    → alloc x86 bits self ≡ panic index_out_of_range
unfolding alloc
alloc-panic x86 self bits e = ground (arith, e)

-- On a valid allocator that has allocated nothing yet, a request for more than 16 bits succeeds at
-- bit 0 as soon as the bytes 0, 8, 16, … up to eight times the request are zero and inside the
-- slice, whatever the other bytes hold; it then marks the first `bits` bits as used.
pub alloc_large-sparse :
    (x86 : X86) (self : BitmapAllocator) (bits : ℕ)
    → IsLarge x86 self bits
    → bits * 64 < self.size + 64
    → ((j : ℕ) → j < bits → get_or self.bitmap (8 * j) 0 ≡ 0)
    → Marks x86 self bits 0 (alloc x86 bits self)
alloc_large-sparse x86 self bits s h z =
    alloc-Marks x86 self bits 0 s.valid (scan-sparse x86 self bits s h z) (omega (arith, s.fits))

-- On a valid allocator that has allocated nothing yet and whose bytes 0, 8, 16, … are all zero, a
-- request for more than 16 bits, and for at least one more than a 64th of the size, panics on an
-- index out of range.
pub alloc_large-panics :
    (x86 : X86) (self : BitmapAllocator) (bits : ℕ)
    → IsLarge x86 self bits
    → self.size + 64 ≤ bits * 64
    → ((j : ℕ) → 8 * j < length self.bitmap → get_or self.bitmap (8 * j) 0 ≡ 0)
    → alloc x86 bits self ≡ panic index_out_of_range
alloc_large-panics x86 self bits s h z = alloc-panic x86 self bits (scan-panics x86 self bits s h z)
