-- ===== src/VirtualMemory/Addresses.antt =====
-- What the two users of `BitmapAllocator` make of the bit that it returns.
use kermol.Common.{ℕ, ◌+◌, ◌*◌, ◌≤◌, ◌<◌, ◌^◌, ◌≡◌, ok, arith, inr, true, false, ◌||◌}
use kermol.X86.{X86}
use kermol.Linear.{page_size}
use kermol.Bitmap.{BitmapAllocator}
use kermol.Bitmap.View.{bit_at, IsValid}
use kermol.Bitmap.Flag.{between}
use kermol.Bitmap.Alloc
use kermol.Bitmap.Allocate.{IsSmall, alloc_total}
use kermol.Frames.Bitmap
use kermol.VirtualMemory.{alloc_contiguous, page_allocator_start}

module _ (x86 : X86) (self : BitmapAllocator) where
  page_address :
      (pages at : ℕ) (out : BitmapAllocator)
      → Alloc.alloc x86 pages self ≡ ok (at, out)
      → at * page_size < 2 ^ 45
      → alloc_contiguous x86 pages self ≡ ok (page_allocator_start + at * page_size, out)
  unfolding alloc_contiguous
  page_address pages at out e h =
      let canonical =
        x86.virt_add-some page_allocator_start (at * page_size) (inr (omega arith, omega arith)) in
      ground (arith, e, canonical, h)

  -- On a valid bitmap of at most 2^33 bits, where seven bits more than the 1 to 16 pages asked for
  -- are free from some position on that is not below `last_allocated`, `alloc_contiguous` returns
  -- the address of a page at or below that position, counted from `PAGE_ALLOCATOR_START`, whose bit
  -- and those of the pages after it lie in the bitmap and were free. The allocator that it leaves
  -- is valid, has these bits marked and no others changed, and has `last_allocated` just past them.
  pub alloc_contiguous-Allocates :
      (pages hole : ℕ)
      → IsSmall x86 self pages
      → self.size ≤ 2 ^ 33
      → self.last_allocated ≤ hole
      → hole + pages + 7 ≤ self.size
      → ((i : ℕ) → hole ≤ i → i < hole + pages + 7 → bit_at self.bitmap i ≡ false)
      → (at : ℕ) × (out : BitmapAllocator) × (at ≤ hole)
        × (alloc_contiguous x86 pages self ≡ ok (page_allocator_start + at * page_size, out))
        × IsValid out
        × (out.size ≡ self.size)
        × (out.last_allocated ≡ at + pages)
        × (at + pages ≤ self.size)
        × ((i : ℕ) → at ≤ i → i < at + pages → bit_at self.bitmap i ≡ false)
        × ((i : ℕ)
            → i < self.size
            → bit_at out.bitmap i ≡ (between at (at + pages) i || bit_at self.bitmap i))
  alloc_contiguous-Allocates pages hole s size low high free =
      let (at, le, a) = alloc_total x86 self pages hole s low high free in
      (
        at,
        a.marks.out,
        le,
        page_address pages at a.marks.out a.marks.returns (omega (arith, a.inside, s.some_bits)),
        a.marks.valid,
        a.marks.same_size,
        a.marks.moved,
        a.inside,
        a.was_free,
        a.marks.marked,
      )

  frame_number :
      (at : ℕ) (out : BitmapAllocator)
      → Alloc.alloc x86 1 self ≡ ok (at, out)
      → at < 2 ^ 52
      → Bitmap.alloc x86 self ≡ ok (at, out)
  unfolding Bitmap.alloc
  frame_number at out e h = ground (arith, e, x86.phys_new-some at h)

  -- On a valid bitmap of at most 2^52 bits, where eight bits are free from some position on that is
  -- not below `last_allocated`, the frame allocator's `alloc` returns, as the physical address, the
  -- number of the bit that it marked, which was free.
  pub frame-number :
      (hole : ℕ)
      → IsSmall x86 self 1
      → self.size ≤ 2 ^ 52
      → self.last_allocated ≤ hole
      → hole + 8 ≤ self.size
      → ((i : ℕ) → hole ≤ i → i < hole + 8 → bit_at self.bitmap i ≡ false)
      → (at : ℕ) × (out : BitmapAllocator) × (Bitmap.alloc x86 self ≡ ok (at, out))
        × (at ≤ hole)
        × (bit_at self.bitmap at ≡ false)
        × (bit_at out.bitmap at ≡ true)
  frame-number hole s size low high free =
      let (at, le, a) =
        alloc_total x86 self 1 hole s low (omega arith) (λ i p q. free i p (omega arith)) in
      let m = a.marks.marked at (omega (arith, a.inside)) in
      let inside : at < self.size = omega (arith, a.inside) in
      (
        at,
        a.marks.out,
        frame_number at a.marks.out a.marks.returns (omega arith),
        le,
        a.was_free at (omega arith) (omega arith),
        ground (arith, m),
      )
