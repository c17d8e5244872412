-- ===== src/VirtualMemory.antt =====
-- `VirtualMemoryAllocator` of src/memory/paging/page_mapping.rs: a bitmap of the pages from
-- `PAGE_ALLOCATOR_START` on.
pub mod Addresses
mod Tests
use kermol.Common.{ℕ, ◌/◌, true, ok, ◌>>=◌, Call, with_state, add64, sub64, mul64, or_panic}
use kermol.Common.{invalid_address}
use kermol.Errors.{MemoryError}
use kermol.X86.{X86}
use kermol.Linear.{LinearFrameAllocator, page_size}
use kermol.Bitmap.{BitmapAllocator}
use kermol.Bitmap.Alloc

abbrev pub page_allocator_start : ℕ
page_allocator_start = 0xFFFFE00000000000

module _ (x86 : X86) where
  unfoldable pub new : ℕ → ℕ → Call LinearFrameAllocator MemoryError BitmapAllocator
  new size offset frames = Alloc.new x86 size true offset frames

  unfoldable pub alloc_contiguous : ℕ → Call BitmapAllocator MemoryError ℕ
  alloc_contiguous pages self = do
    (page, self) ← Alloc.alloc x86 pages self
    (bytes, self) ← with_state self (mul64 page page_size)
    with_state self (or_panic invalid_address (x86.virt_add page_allocator_start bytes))

unfoldable pub free : ℕ → ℕ → Call BitmapAllocator MemoryError (Unit {0})
free addr pages self = do
  (from_start, self) ← with_state self (sub64 addr page_allocator_start)
  let offset = from_start / page_size
  (end, self) ← with_state self (add64 offset pages)
  Alloc.free_range (record { start = offset; end = end }) self
