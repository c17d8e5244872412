-- ===== src/Frames/Bitmap.antt =====
-- `BitmapFrameAllocator` of src/memory/paging/frame_allocation.rs, a `BitmapAllocator` whose bits
-- stand for page frames, and the allocators as values of the trait.
use kermol.Common.{ℕ, if◌then◌else◌, ◌/◌, true, false, List, [], ◌∷◌, ok, err, panic, out_of_fuel}
use kermol.Common.{◌>>=◌, Call, with_state, add64, or_panic, invalid_address, unwrap_failed}
use kermol.Errors.{MemoryError}
use kermol.X86.{X86}
use kermol.Linear
use kermol.Linear.{LinearFrameAllocator, page_size}
use kermol.Bitmap.{BitmapAllocator, flag_range}
use kermol.Bitmap.Alloc
use kermol.Frames.{FrameAllocator}
use kermol.Regions.{MemoryRegionInfo, is_usable}

-- One usable region's frames are cleared.
unfoldable pub clear_region : MemoryRegionInfo → Call BitmapAllocator MemoryError (Unit {0})
clear_region r allocator = do
  (end, allocator) ← with_state allocator (add64 r.base r.length)
  elim (flag_range (record { start = r.base / page_size; end = end / page_size }) false allocator) [
    | ok a ↦ ok a
    | err e ↦ panic unwrap_failed
    | panic p ↦ panic p
    | out_of_fuel ↦ out_of_fuel
  ]

unfoldable pub clear_usable : List MemoryRegionInfo → Call BitmapAllocator MemoryError (Unit {0})
clear_usable [] allocator = ok (tt, allocator)
clear_usable (r ∷ mmap_entries) allocator = do
  (_, allocator) ← if is_usable r then clear_region r allocator else ok (tt, allocator)
  clear_usable mmap_entries allocator

module _ (x86 : X86) where
  unfoldable pub new :
      ℕ → List MemoryRegionInfo → ℕ → Call LinearFrameAllocator MemoryError BitmapAllocator
  new bitmap_size mmap_entries offset frames = do
    (allocator, frames) ← Alloc.new x86 bitmap_size true offset frames
    elim (clear_usable mmap_entries allocator) [
      | ok (_, allocator) ↦ ok (allocator, frames)
      | err (e, allocator) ↦ err (e, frames)
      | panic p ↦ panic p
      | out_of_fuel ↦ out_of_fuel
    ]

  unfoldable pub alloc_contiguous : ℕ → Call BitmapAllocator MemoryError ℕ
  alloc_contiguous pages self = do
    (frame, self) ← Alloc.alloc x86 pages self
    with_state self (or_panic invalid_address (x86.phys_new frame))

  unfoldable pub alloc : Call BitmapAllocator MemoryError ℕ
  alloc self = do
    (frame, self) ← Alloc.alloc x86 1 self
    with_state self (or_panic invalid_address (x86.phys_new frame))

unfoldable pub free : ℕ → Call BitmapAllocator MemoryError (Unit {0})
free phys_addr self = Alloc.free (phys_addr / page_size) self

unfoldable pub free_contiguous : ℕ → ℕ → Call BitmapAllocator MemoryError (Unit {0})
free_contiguous phys_addr pages self = do
  let offset = phys_addr / page_size
  (end, self) ← with_state self (add64 offset pages)
  Alloc.free_range (record { start = offset; end = end }) self

module _ (x86 : X86) where
  abbrev pub bitmap_frames : FrameAllocator BitmapAllocator
  bitmap_frames = record {
    alloc = alloc x86;
    alloc_contiguous = alloc_contiguous x86;
    free = free;
    free_contiguous = free_contiguous;
  }

  abbrev pub linear_frames : FrameAllocator LinearFrameAllocator
  linear_frames = record {
    alloc = Linear.alloc x86;
    alloc_contiguous = Linear.alloc_contiguous x86;
    free = Linear.free;
    free_contiguous = Linear.free_contiguous;
  }
