-- ===== src/AllocatedMemory/Create.antt =====
-- What an allocation makes of the frame allocator's answer, which is the number of a bit.
use kermol.Common.{ℕ, ◌+◌, ◌%◌, ◌≤◌, ◌<◌, ◌^◌, ◌≡◌, ◌≢◌, refl, arith}
use kermol.Common.{false, true, Bool-cases, inl, inr, some, Outcome, ok, err, panic}
use kermol.Common.{out_of_fuel, ◌>>=◌}
use kermol.Common.{bind-ne-ok, chain-ne-ok, known-ne-ok, ◌==◌}
use kermol.X86.{X86}
use kermol.Errors.{MemoryError, PagingError, locked_allocator}
use kermol.Entries.{Entries}
use kermol.Bitmap.{BitmapAllocator}
use kermol.Bitmap.View.{bit_at}
use kermol.Bitmap.Allocate.{IsSmall, alloc_total}
use kermol.Frames.Bitmap as Frames
use kermol.Frames.Bitmap.{bitmap_frames}
use kermol.VirtualMemory
use kermol.Controller
use kermol.Controller.{KernelPagingController, on_frames, on_pages, on_tables, alloc_and_map}
use kermol.AllocatedMemory.{AllocatedMemory, Global, new, div_ceil, alloc_pages, on_controller}
use kermol.Pages.Map.{World, map_contiguous}
use kermol.Pages.Unaligned.{map_contiguous-ne-ok}

module _ (x86 : X86) (entries : Entries) where
  abbrev Ctl : Type 0
  Ctl = KernelPagingController x86 entries

  abbrev Tables : Type 0
  Tables = World x86 entries (bitmap_frames x86)

  on_tables-ne-ok :
      (r : Outcome (PagingError × Tables) (Unit {0} × Tables)) (self : Ctl) (x : Unit {0} × Ctl)
      → ((y : Unit {0} × Tables) → r ≢ ok y)
      → on_tables x86 entries (λ w. r) self ≢ ok x
  on_tables-ne-ok (ok y) self x h e = h y refl
  on_tables-ne-ok (err y) self x h e = ground arith
  on_tables-ne-ok (panic p) self x h e = ground arith
  on_tables-ne-ok out_of_fuel self x h e = ground arith

  controller_map-ne-ok :
      (from to count : ℕ) (flags : entries.Flags) (self : Ctl) (x : Unit {0} × Ctl)
      → from % 4096 ≢ 0
      → from < 2 ^ 52
      → 0 < count
      → Controller.map x86 entries from to count flags self ≢ ok x
  unfolding Controller.map
  controller_map-ne-ok from to count flags self x unaligned low some_pages e =
      let w : Tables = record { memory = self.memory; frames = self.frame_allocator } in
      on_tables-ne-ok
        (map_contiguous x86 entries (bitmap_frames x86) self.rec_page_table count from to flags w)
        self x
        (λ y.
          map_contiguous-ne-ok x86 entries (bitmap_frames x86) self.rec_page_table from flags
            unaligned low count to w y some_pages)
        e

  -- The next `pages` frames, and seven more, are free, and the first is at `last_allocated`.
  pub record IsNext (self : BitmapAllocator) (pages : ℕ) : Type 0 where
    pub request : IsSmall x86 self pages
    pub size : self.size ≤ 2 ^ 52
    pub room : self.last_allocated + pages + 7 ≤ self.size
    pub free :
        (i : ℕ)
        → self.last_allocated ≤ i
        → i < self.last_allocated + pages + 7
        → bit_at self.bitmap i ≡ false

  frames_next :
      (self : BitmapAllocator) (pages : ℕ)
      → IsNext self pages
      → (out : BitmapAllocator) × (Frames.alloc_contiguous x86 pages self
          ≡ ok (self.last_allocated, out))
  unfolding Frames.alloc_contiguous
  frames_next self pages n =
      let (at, le, a) =
        alloc_total x86 self pages self.last_allocated n.request (omega arith) n.room n.free in
      let same : at ≡ self.last_allocated = omega (arith, le, a.behind) in
      let low : at < 2 ^ 52 = omega (arith, same, n.room, n.size) in
      (a.marks.out, ground (arith, a.marks.returns, x86.phys_new-some at low, same))

  on_frames_next :
      (self : Ctl) (pages : ℕ) (out : BitmapAllocator)
      → Frames.alloc_contiguous x86 pages self.frame_allocator
        ≡ ok (self.frame_allocator.last_allocated, out)
      → on_frames x86 entries (Frames.alloc_contiguous x86 pages) self
        ≡ ok (self.frame_allocator.last_allocated, record self { frame_allocator = out })
  on_frames_next self pages out e = rw (e, on_frames) refl

  -- Whatever the pages are, mapping them to that frame does not return normally.
  then_map-ne-ok {ℓ} :
      {B : Type ℓ} (self : Ctl) (pages : ℕ) (flags : entries.Flags)
      (virt : Ctl → Outcome (MemoryError × Ctl) (ℕ × Ctl))
      (result : ℕ → ℕ → Ctl → Outcome (MemoryError × Ctl) (B × Ctl)) (x : B × Ctl)
      → IsNext self.frame_allocator pages
      → self.frame_allocator.last_allocated % 4096 ≢ 0
      → (on_frames x86 entries (Frames.alloc_contiguous x86 pages) self >>= λ a. virt a.1 >>= λ b.
          Controller.map x86 entries a.0 b.0 pages flags b.1 >>= λ c. result a.0 b.0 c.1)
        ≢ ok x
  then_map-ne-ok self pages flags virt result x n unaligned =
      let (out, granted) = frames_next self.frame_allocator pages n in
      let low : self.frame_allocator.last_allocated < 2 ^ 52 = omega (arith, n.room, n.size) in
      known-ne-ok _ _ _ x (on_frames_next self pages out granted) (
        chain-ne-ok (virt (record self { frame_allocator = out })) _ x (λ (b : ℕ × Ctl).
          bind-ne-ok
            (Controller.map x86 entries self.frame_allocator.last_allocated b.0 pages flags b.1) _ x
            (λ (c : Unit {0} × Ctl).
              controller_map-ne-ok self.frame_allocator.last_allocated b.0 pages flags b.1 c
                unaligned low n.request.some_bits)))

  alloc_and_map-ne-ok :
      (pages : ℕ) (flags : entries.Flags) (self : Ctl) (x : ℕ × Ctl)
      → IsNext self.frame_allocator pages
      → self.frame_allocator.last_allocated % 4096 ≢ 0
      → alloc_and_map x86 entries pages flags self ≢ ok x
  unfolding alloc_and_map
  alloc_and_map-ne-ok pages flags self x n unaligned =
      then_map-ne-ok self pages flags
        (on_pages x86 entries (VirtualMemory.alloc_contiguous x86 pages)) (λ a b c. ok (b, c)) x n
        unaligned

  alloc_pages-ne-ok :
      (size : ℕ) (flags : entries.Flags) (self : Ctl) (x : AllocatedMemory x86 entries × Ctl)
      → IsNext self.frame_allocator (div_ceil size)
      → self.frame_allocator.last_allocated % 4096 ≢ 0
      → alloc_pages x86 entries size flags self ≢ ok x
  alloc_pages-ne-ok size flags self x n unaligned =
      then_map-ne-ok self (div_ceil size) flags
        (on_pages x86 entries (VirtualMemory.alloc_contiguous x86 (div_ceil size)))
        (λ phys virt ctl. ok (
          record { virt = virt; phys = phys; size = size; flags = flags; free_after_use = true },
          ctl,
        ))
        x n unaligned

  on_controller-ne-ok {ℓ} :
      {A : Type ℓ} (missing : Outcome (MemoryError × Global x86 entries) (A × Global x86 entries))
      (r : Outcome (MemoryError × Ctl) (A × Ctl)) (self : Ctl) (x : A × Global x86 entries)
      → ((y : A × Ctl) → r ≢ ok y)
      → on_controller x86 entries missing (λ c. r) (some self) ≢ ok x
  on_controller-ne-ok missing (ok y) self x h e = h y refl
  on_controller-ne-ok missing (err y) self x h e = ground arith
  on_controller-ne-ok missing (panic p) self x h e = ground arith
  on_controller-ne-ok missing out_of_fuel self x h e = ground arith

  -- Where `last_allocated` of the frame bitmap, valid and of at most 2^52 bits, is not a multiple
  -- of 4096, and the 1 to 16 frames that a size needs and seven more are free from there on,
  -- `AllocatedMemory::new` never returns normally, whatever the page tables and the pages are: the
  -- number of the bit is taken for the address of the frame.
  pub new-ne-ok :
      (size : ℕ) (flags : entries.Flags) (self : Ctl)
      (x : AllocatedMemory x86 entries × Global x86 entries)
      → IsNext self.frame_allocator (div_ceil size)
      → self.frame_allocator.last_allocated % 4096 ≢ 0
      → new x86 entries size flags (some self) ≢ ok x
  unfolding new
  new-ne-ok size flags self x n unaligned e = elim (Bool-cases (size == 0)) [
    | inl nothing ↦ ground (arith, nothing, e)
    | inr something ↦
        on_controller-ne-ok (err (locked_allocator, some self))
          (alloc_pages x86 entries size flags self) self x
          (λ y. alloc_pages-ne-ok size flags self y n unaligned) (rw something at e)
  ]
