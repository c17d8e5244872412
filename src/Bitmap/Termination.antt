-- ===== src/Bitmap/Termination.antt =====
-- `alloc` of src/memory/paging/bitmap_allocator.rs ends, in every state.
use kermol.Common.{ℕ, zero, suc, ◌+◌, ◌-◌, ◌/◌, ◌%◌, ◌<◌, ◌≡◌, ◌≢◌, refl, arith}
use kermol.Common.{inl, inr, true, false, Bool-cases, ltb→lt, Bool, ltb, leb, not}
use kermol.Common.{Outcome, ok, err, panic, out_of_fuel, ◌>>=◌, with_state, index, add64, sub64}
use kermol.Common.{mul64, arithmetic_overflow}
use kermol.X86.{X86}
use kermol.Errors.{MemoryError, allocation_error, out_of_bounds}
use kermol.Bitmap.{BitmapAllocator, Range, byte_aligned_end}
use kermol.Common.Bits.{pattern_byte}
use kermol.Bitmap.{flag, flag_bits, flag_range, fill_bytes, slice_ok, in_range, range_in_bounds}
use kermol.Bitmap.Scan.{Cursor, runs, rem64, scan_bits, align_up}
use kermol.Bitmap.Scan.{scan_bytes_run, scan_bytes_from, scan_bytes, scan}
use kermol.Bitmap.Alloc.{alloc}
use kermol.Bitmap.Fuel.{Ends, returned, failed, panicked, Ends-ne, then-Ends, if-Ends, weaker-Ends}
use kermol.Bitmap.Fuel.{Any, or_panic-Ends, rem64-Ends, checked-Ends, sub64-Ends, Moved, begin}
use kermol.Bitmap.Fuel.{stays, scan_bits_from-Ends}

-- `add64` gives the sum.
add64-Ends : {E : Type 0} (a b : ℕ) → Ends {E = E} (λ c. c ≡ a + b) (add64 a b)
add64-Ends a b =
    if-Ends (λ c. c ≡ a + b) (ltb (a + b) _) (ok (a + b)) (panic arithmetic_overflow)
      (λ _. returned (a + b) refl refl) (λ _. panicked arithmetic_overflow refl)

module _ (self : BitmapAllocator) (target : ℕ) where
  abbrev next_byte : Cursor → ℕ → ℕ → Cursor
  next_byte c byte current = record { sum = c.sum + byte; found = c.found + 1; current = current }

  round_bytes :
      (fuel : ℕ) (c : Cursor)
      → runs target self.size c ≡ true
      → scan_bytes_run (suc fuel) self target c
        ≡ rem64 c.current self.size >>= λ i. index self.bitmap i >>= λ byte.
            add64 c.current 8 >>= λ current.
            scan_bytes_run fuel self target (next_byte c byte current)
  unfolding scan_bytes_run
  round_bytes fuel c e = rw (e, scan_bytes_run) refl

  done_bytes :
      (fuel : ℕ) (c : Cursor)
      → runs target self.size c ≡ false
      → scan_bytes_run (suc fuel) self target c ≡ ok c
  unfolding scan_bytes_run
  done_bytes fuel c e = rw (e, scan_bytes_run) refl

  inside : (c : Cursor) → runs target self.size c ≡ true → c.current < self.size
  inside c e = ground (arith, e)

  scan_bytes_run-Ends :
      (fuel : ℕ) (c : Cursor)
      → 0 < fuel
      → self.size < fuel + c.current
      → Ends (Moved c) (scan_bytes_run fuel self target c)
  scan_bytes_run-Ends zero c p h = absurd (omega arith)
  scan_bytes_run-Ends (suc fuel) c p h =
      let again = λ (l : c.current < self.size) (byte next : ℕ) (e : next ≡ c.current + 8).
        weaker-Ends (Moved (next_byte c byte next)) (Moved c) _
          (scan_bytes_run-Ends fuel (next_byte c byte next) (omega (arith, l)) (omega (arith, e)))
          (λ c' m. record {
            forward = omega (arith, m.forward, e);
            progress = λ z s. omega (arith, m.forward, e);
          }) in
      elim (Bool-cases (runs target self.size c)) [
        | inr out ↦ returned c (done_bytes fuel c out) (stays self target self.size c)
        | inl more ↦ rw (round_bytes fuel c more) (
            then-Ends Any (Moved c) (rem64 c.current self.size) _ (rem64-Ends _ _) (λ i _.
              then-Ends Any (Moved c) (index self.bitmap i) _ (or_panic-Ends _ _) (λ byte _.
                then-Ends (λ a. a ≡ c.current + 8) (Moved c) (add64 c.current 8) _
                  (add64-Ends c.current 8) (λ next e. again (inside c more) byte next e))))
      ]

  abbrev after_bytes : ℕ → Cursor → Outcome MemoryError ℕ
  after_bytes fuel c = elim (ltb 0 c.sum) [
    | true ↦ scan_bytes_from fuel self target c.current
    | false ↦ do bytes ← mul64 c.found 8; sub64 c.current bytes
  ]

  more_bytes :
      (fuel current : ℕ)
      → ltb current self.size ≡ true
      → scan_bytes_from (suc fuel) self target current
        ≡ scan_bytes_run (suc fuel) self target (begin self target self.size current) >>= λ c.
            after_bytes fuel c
  unfolding scan_bytes_from
  more_bytes fuel current e = rw (e, scan_bytes_from) refl

  end_bytes :
      (fuel current : ℕ)
      → ltb current self.size ≡ false
      → scan_bytes_from (suc fuel) self target current ≡ err allocation_error
  unfolding scan_bytes_from
  end_bytes fuel current e = rw (e, scan_bytes_from) refl

  after_bytes-Ends :
      (fuel : ℕ) (c : Cursor)
      → (0 < c.sum → Ends Any (scan_bytes_from fuel self target c.current))
      → Ends Any (after_bytes fuel c)
  after_bytes-Ends fuel c h = elim (Bool-cases (ltb 0 c.sum)) [
    | inl more ↦ rw (more, after_bytes) (h (ltb→lt 0 c.sum more))
    | inr none_left ↦
        rw (none_left, after_bytes)
          (then-Ends Any Any (mul64 c.found 8) _ (checked-Ends _ _)
            (λ bytes _. sub64-Ends c.current bytes))
  ]

  scan_bytes_from-Ends :
      (fuel current : ℕ)
      → 0 < fuel
      → self.size < fuel + current
      → Ends Any (scan_bytes_from fuel self target current)
  scan_bytes_from-Ends zero current p h = absurd (omega arith)
  scan_bytes_from-Ends (suc fuel) current p h =
      let first = begin self target self.size current in
      let again = λ (l : current < self.size) (c : Cursor) (m : Moved first c) (s : 0 < c.sum).
        scan_bytes_from-Ends fuel c.current (omega (arith, l))
          (let z = m.progress refl s in omega (arith, z)) in
      elim (Bool-cases (ltb current self.size)) [
        | inr out ↦ failed allocation_error (end_bytes fuel current out)
        | inl more ↦ rw (more_bytes fuel current more) (
            then-Ends (Moved first) Any (scan_bytes_run (suc fuel) self target first) _
              (scan_bytes_run-Ends (suc fuel) first (omega arith) h)
              (λ c m. after_bytes-Ends fuel c (again (ltb→lt current self.size more) c m)))
      ]

scan_bits-Ends : (self : BitmapAllocator) (target : ℕ) → Ends Any (scan_bits self target)
unfolding scan_bits
scan_bits-Ends self target = then-Ends Any Any (mul64 self.size 8) _ (checked-Ends _ _) λ limit _.
    scan_bits_from-Ends self target limit (limit + 1) self.last_allocated (omega arith)
      (omega arith)

module _ (x86 : X86) where
  scan_bytes-Ends : (self : BitmapAllocator) (target : ℕ) → Ends Any (scan_bytes x86 self target)
  unfolding scan_bytes
  scan_bytes-Ends self target =
      then-Ends Any Any (align_up x86 self.last_allocated 8) _ (or_panic-Ends _ _) λ current _.
        scan_bytes_from-Ends self target (self.size + 1) current (omega arith) (omega arith)

  scan-Ends : (self : BitmapAllocator) (bits : ℕ) → Ends Any (scan x86 self bits)
  unfolding scan
  scan-Ends self bits =
      if-Ends Any (leb self.size bits) _ _ (λ _. failed out_of_bounds refl)
        λ _.
          if-Ends Any (ltb 16 bits) _ _ (λ _. scan_bytes-Ends self bits)
            λ _.
              then-Ends Any Any (align_up x86 bits 8) _ (or_panic-Ends _ _)
                (λ target _. scan_bits-Ends self target)

-- A call through a shared borrow.
with_state-Ends :
    {S E A : Type 0} (s : S) (m : Outcome E A) → Ends Any m → Ends Any (with_state s m)
with_state-Ends s m (returned a e p) = returned (a, s) (rw e refl) tt
with_state-Ends s m (failed x e) = failed (x, s) (rw e refl)
with_state-Ends s m (panicked x e) = panicked x (rw e refl)

-- A call through a shared borrow, and what follows it.
read-Ends :
    {S E A B : Type 0} (s : S) (m : Outcome E A) (f : A × S → Outcome (E × S) (B × S))
    → Ends Any m
    → ((a : A × S) → Ends Any (f a))
    → Ends Any (with_state s m >>= f)
read-Ends s m f h k = then-Ends Any Any (with_state s m) f (with_state-Ends s m h) (λ a _. k a)

limit-Ends : (size : ℕ) (f : ℕ → Bool) → Ends {E = MemoryError} Any (mul64 size 8 >>= λ l. ok (f l))
limit-Ends size f =
    then-Ends Any Any (mul64 size 8) _ (checked-Ends _ _) (λ l _. returned (f l) refl tt)

flag-Ends : (bit : ℕ) (value : Bool) (self : BitmapAllocator) → Ends Any (flag bit value self)
unfolding flag
flag-Ends bit value self = read-Ends self (in_range self bit) _ (limit-Ends self.size _) λ a.
    if-Ends Any a.0 _ _
      (λ _.
        read-Ends a.1 (index a.1.bitmap (bit / 8)) _ (or_panic-Ends _ _) (λ b. returned _ refl tt))
      (λ _. failed _ refl)

flag_bits-Ends :
    (count bit : ℕ) (value : Bool) (self : BitmapAllocator)
    → Ends Any (flag_bits count bit value self)
unfolding flag_bits
flag_bits-Ends zero bit value self = returned (tt, self) refl tt
flag_bits-Ends (suc count) bit value self =
    then-Ends Any Any (flag bit value self) _ (flag-Ends bit value self)
      (λ a _. flag_bits-Ends count (bit + 1) value a.1)

fill_bytes-Ends : (from to v : ℕ) (self : BitmapAllocator) → Ends Any (fill_bytes from to v self)
unfolding fill_bytes
fill_bytes-Ends from to v self =
    if-Ends Any (slice_ok self.bitmap from to) _ _ (λ _. returned _ refl tt) (λ _. panicked _ refl)

-- The three parts of a long range.
parts-Ends :
    (range : Range) (value : Bool) (first : ℕ) (self : BitmapAllocator)
    → Ends Any (
        flag_bits (first - range.start) range.start value self >>= λ a.
        fill_bytes (first / 8) (byte_aligned_end range / 8) (pattern_byte value) a.1 >>= λ b.
        flag_bits (range.end - byte_aligned_end range) (byte_aligned_end range) value b.1)
parts-Ends range value first self =
    let last = byte_aligned_end range in
    then-Ends Any Any (flag_bits (first - range.start) range.start value self) _
      (flag_bits-Ends (first - range.start) range.start value self)
      λ a _.
        then-Ends Any Any (fill_bytes (first / 8) (last / 8) (pattern_byte value) a.1) _
          (fill_bytes-Ends (first / 8) (last / 8) (pattern_byte value) a.1)
          (λ b _. flag_bits-Ends (range.end - last) last value b.1)

flag_range-Ends :
    (range : Range) (value : Bool) (self : BitmapAllocator) → Ends Any (flag_range range value self)
unfolding flag_range
flag_range-Ends range value self =
    read-Ends self (range_in_bounds self range) _ (limit-Ends self.size _) λ a.
      if-Ends Any (not a.0) _ _ (λ _. failed _ refl)
        λ _. read-Ends a.1 (sub64 range.end range.start) _ (sub64-Ends _ _) λ count.
          if-Ends Any (ltb count.0 8) _ _ (λ _. flag_bits-Ends count.0 range.start value count.1)
            λ _.
              read-Ends count.1 (add64 range.start ((8 - range.start % 8) % 8)) _ (checked-Ends _ _)
                (λ first. parts-Ends range value first.0 first.1)

module _ (x86 : X86) where
  alloc-Ends : (bits : ℕ) (self : BitmapAllocator) → Ends Any (alloc x86 bits self)
  unfolding alloc
  alloc-Ends bits self = read-Ends self (scan x86 self bits) _ (scan-Ends x86 self bits) λ a.
      read-Ends a.1 (add64 a.0 bits) _ (checked-Ends _ _) λ next.
        let range : Range = record { start = a.0; end = next.0 } in
        let self = record next.1 { last_allocated = next.0 } in
        then-Ends Any Any (flag_range range true self) _ (flag_range-Ends range true self)
          (λ b _. returned _ refl tt)

  -- In every state and for every request `alloc` ends within the fuel of the model: the loops of
  -- `scan_bits` and of `scan_bytes` run at most once for each position up to their bound.
  pub alloc-ne-out_of_fuel : (bits : ℕ) (self : BitmapAllocator) → alloc x86 bits self ≢ out_of_fuel
  alloc-ne-out_of_fuel bits self = Ends-ne Any (alloc x86 bits self) (alloc-Ends bits self)
