-- ===== src/Bitmap/Allocate.antt =====
-- `alloc` of at most sixteen bits, the path through `scan_bits`.
use kermol.Common.{ℕ, ◌+◌, ◌*◌, ◌%◌, ◌≤◌, ◌<◌, ◌≡◌, ◌≢◌, ◌∙◌, refl, true, false, ◌||◌}
use kermol.Common.{Outcome, ok, err, inl, inr, ◌⊎◌, arith, lt-or-le, sym, subst}
use kermol.X86.{X86}
use kermol.Errors.{MemoryError, allocation_error}
use kermol.Bitmap.{BitmapAllocator, Range}
use kermol.Bitmap.View.{IsValid, bit_at, Rewrites-IsValid}
use kermol.Bitmap.Flag.{between, flag_range-Rewrites}
use kermol.Bitmap.Flag.Panics.{flag_range-panics, flag_range-err}
use kermol.Bitmap.Scan.{scan, scan_bits}
use kermol.Bitmap.Run.{lap_bit-bit_at, IsBlocked}
use kermol.Bitmap.Search.{IsFirstRun, scan_bits-Finds}
use kermol.Bitmap.Alloc.{alloc}

module _ (x86 : X86) (self : BitmapAllocator) (bits : ℕ) where
  -- A request that `scan` gives to `scan_bits`.
  pub record IsSmall : Type 0 where
    pub valid : IsValid self
    pub some_bits : 0 < bits
    pub at_most : bits ≤ 16
    pub fits : bits < self.size

  scan-small :
      IsSmall
      → (target : ℕ) × (bits ≤ target)
        × (target < bits + 8)
        × (target % 8 ≡ 0)
        × (scan x86 self bits ≡ scan_bits self target)
  unfolding scan
  scan-small s =
      let (target, e, low, high, even) = x86.align_up-eight bits (omega arith) in
      (target, low, high, even, ground (arith, e))

  -- The normal return that marks the `bits` bits from `at` on and no others, moves
  -- `last_allocated` past them, and keeps the allocator valid.
  pub record Marks (at : ℕ) (r : Outcome (MemoryError × BitmapAllocator) (ℕ × BitmapAllocator))
      : Type 0 where
    pub out : BitmapAllocator
    pub returns : r ≡ ok (at, out)
    pub marked :
        (i : ℕ)
        → i < self.size
        → bit_at out.bitmap i ≡ (between at (at + bits) i || bit_at self.bitmap i)
    pub same_size : out.size ≡ self.size
    pub moved : out.last_allocated ≡ at + bits
    pub valid : IsValid out

  -- Moreover the range lies inside the bitmap, not below `last_allocated`, and was free.
  pub record Allocates (at : ℕ) (r : Outcome (MemoryError × BitmapAllocator) (ℕ × BitmapAllocator))
      : Type 0 where
    pub marks : Marks at r
    pub behind : self.last_allocated ≤ at
    pub inside : at + bits ≤ self.size
    pub was_free : (i : ℕ) → at ≤ i → i < at + bits → bit_at self.bitmap i ≡ false

  abbrev pub moved_to : ℕ → BitmapAllocator
  moved_to at = record self { last_allocated = at + bits }

  abbrev pub span : ℕ → Range
  span at = record { start = at; end = at + bits }

  pub moved_to-IsValid : (at : ℕ) → IsValid self → IsValid (moved_to at)
  moved_to-IsValid at v = record { whole = v.whole; bytes = v.bytes; small = v.small }

  pub alloc-Marks :
      (at : ℕ)
      → IsValid self
      → scan x86 self bits ≡ ok at
      → at + bits ≤ self.size
      → Marks at (alloc x86 bits self)
  unfolding alloc
  alloc-Marks at v e h =
      let v' = moved_to-IsValid at v in
      let w = flag_range-Rewrites (moved_to at) (span at) true v' (omega arith) h in
      record {
        out = record (moved_to at) { bitmap = w.out };
        returns = ground (arith, e, w.returns, v.small);
        marked = λ i hi. w.bits i hi;
        same_size = refl;
        moved = refl;
        valid = Rewrites-IsValid v' w;
      }

  alloc-inside :
      (at : ℕ)
      → IsValid self
      → scan x86 self bits ≡ ok at
      → self.last_allocated ≤ at
      → at + bits ≤ self.size
      → ((i : ℕ) → at ≤ i → i < at + bits → bit_at self.bitmap i ≡ false)
      → Allocates at (alloc x86 bits self)
  alloc-inside at v e low h free = record {
    marks = alloc-Marks at v e h;
    behind = low;
    inside = h;
    was_free = free;
  }

  -- Past the end the marking fails.
  alloc-past_end :
      (at : ℕ) (x : ℕ × BitmapAllocator)
      → IsValid self
      → scan x86 self bits ≡ ok at
      → 0 < bits
      → self.size < at + bits
      → alloc x86 bits self ≢ ok x
  unfolding alloc
  alloc-past_end at x v e p h r = elim (lt-or-le (self.size * 8) (at + bits)) [
    | inl far ↦
        let no = flag_range-err (moved_to at) (span at) true (moved_to-IsValid at v) far in
        ground (arith, e, no)
    | inr near ↦
        let no =
          flag_range-panics (moved_to at) (span at) true (moved_to-IsValid at v) (omega arith) h
            near in
        ground (arith, e, no)
  ]

  run-free :
      {target from at : ℕ}
      → IsValid self
      → bits ≤ target
      → IsFirstRun self.bitmap target (self.size * 8) from at
      → at + bits ≤ self.size
      → (i : ℕ) → at ≤ i
      → i < at + bits
      → bit_at self.bitmap i ≡ false
  run-free {at = at} v le f h i p q =
      sym (lap_bit-bit_at self.bitmap i (omega (arith, v.whole)))
      ∙ f.free i p (elim f.enough [ inl e ↦ omega arith | inr e ↦ omega (arith, e.1) ])

  pub alloc-err :
      scan x86 self bits ≡ err allocation_error → alloc x86 bits self ≡ err (allocation_error, self)
  unfolding alloc
  alloc-err e = ground (arith, e)

  -- How `alloc` ends on a small request: it allocates, or it returns nothing.
  data Ends : Type 0 where
    allocates : (at : ℕ) → Allocates at (alloc x86 bits self) → Ends
    fails : ((x : ℕ × BitmapAllocator) → alloc x86 bits self ≢ ok x) → Ends

  module _ (s : IsSmall) where
    pub scanned :
        (target : ℕ) × (bits ≤ target)
        × (target < bits + 8)
        × (((at : ℕ) × (scan x86 self bits ≡ ok at)
              × IsFirstRun self.bitmap target (self.size * 8) self.last_allocated at)
            ⊎ (scan x86 self bits ≡ err allocation_error)
              × ((q : ℕ)
                  → self.last_allocated ≤ q
                  → q < self.size * 8
                  → IsBlocked self.bitmap target (self.size * 8) q))
    scanned =
        let (target, low, high, even, e) = scan-small s in
        (target, low, high, rw e (scan_bits-Finds self target s.valid (omega (arith, s.fits))))

    alloc-Ends : Ends
    alloc-Ends =
        let (target, low, high, found) = scanned in
        elim found [
          | inr (e, _) ↦ fails (λ x r. no_error e x r)
          | inl (at, e, f) ↦ elim (lt-or-le self.size (at + bits)) [
            | inl past ↦ fails (λ x r. alloc-past_end at x s.valid e s.some_bits past r)
            | inr h ↦ allocates at (alloc-inside at s.valid e f.low h (run-free s.valid low f h))
          ]
        ]
      where
        no_error :
            scan x86 self bits ≡ err allocation_error
            → (x : ℕ × BitmapAllocator) → alloc x86 bits self ≢ ok x
        no_error e x r = ground (arith, alloc-err e)

-- If on a valid allocator a request for 1 to 16 bits that is smaller than the bitmap returns a
-- position, its bits lie inside the bitmap, not below `last_allocated`, and were free; they and no
-- others are marked, `last_allocated` moves past them, and the allocator stays valid.
pub alloc-Allocates :
    (x86 : X86) (self : BitmapAllocator) (bits : ℕ) (at : ℕ) (out : BitmapAllocator)
    → IsSmall x86 self bits
    → alloc x86 bits self ≡ ok (at, out)
    → Allocates x86 self bits at (alloc x86 bits self)
alloc-Allocates x86 self bits at out s e = elim (alloc-Ends x86 self bits s) [
  | allocates at' a ↦
      let same_at : at' ≡ at = ground (arith, a.marks.returns) in
      subst (λ (k : ℕ). Allocates x86 self bits k (alloc x86 bits self)) same_at a
  | fails no_result ↦ absurd (no_result (at, out) e)
]

-- On a valid allocator, a request for 1 to 16 bits that is smaller than the bitmap returns normally
-- if seven bits more than asked are free from some position on that is not below `last_allocated`:
-- it returns a position not above that one, whose bits were free and inside the bitmap, and marks
-- these bits and no others.
pub alloc_total :
    (x86 : X86) (self : BitmapAllocator) (bits : ℕ) (hole : ℕ)
    → IsSmall x86 self bits
    → self.last_allocated ≤ hole
    → hole + bits + 7 ≤ self.size
    → ((i : ℕ) → hole ≤ i → i < hole + bits + 7 → bit_at self.bitmap i ≡ false)
    → (at : ℕ) × (at ≤ hole) × Allocates x86 self bits at (alloc x86 bits self)
alloc_total x86 self bits hole s low high free =
    let (target, le, lt, found) = scanned x86 self bits s in
    elim found [
      | inr (e, all) ↦ absurd (open_run target lt (all hole low (omega (arith, s.fits))))
      | inl (at, e, f) ↦ elim (lt-or-le hole at) [
        | inl after ↦ absurd (open_run target lt (f.first hole low after))
        | inr before ↦
            let h : at + bits ≤ self.size = omega arith in
            (
              at,
              before,
              alloc-inside x86 self bits at s.valid e f.low h
                  (run-free x86 self bits s.valid le f h),
            )
      ]
    ]
  where
    open_run :
        (target : ℕ) → target < bits + 8 → ¬ IsBlocked self.bitmap target (self.size * 8) hole
    open_run target lt (i, p, q, _, used) =
        ground (
          arith,
          free i p (omega arith),
          lap_bit-bit_at self.bitmap i (omega (arith, s.valid.whole)),
        )

-- If every bit from `last_allocated` to the end of a valid bitmap is used, a request for 1 to 16
-- bits that is smaller than the bitmap never returns normally, whatever is free below
-- `last_allocated`.
pub alloc-no_wrap :
    (x86 : X86) (self : BitmapAllocator) (bits : ℕ) (x : ℕ × BitmapAllocator)
    → IsSmall x86 self bits
    → ((i : ℕ) → self.last_allocated ≤ i → i < self.size → bit_at self.bitmap i ≡ true)
    → alloc x86 bits self ≢ ok x
alloc-no_wrap x86 self bits (at, out) s used e =
    let a = alloc-Allocates x86 self bits at out s e in
    let u = used at a.behind (omega (arith, a.inside, s.some_bits)) in
    let f = a.was_free at (omega arith) (omega (arith, s.some_bits)) in cc
