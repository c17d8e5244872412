-- ===== src/Bitmap/Alloc.antt =====
-- `new`, `alloc`, `free` and `free_range` of src/memory/paging/bitmap_allocator.rs.
use kermol.Common.{ℕ, Bool, true, false, not, if◌then◌else◌, leb, replicate}
use kermol.Common.{ok, err, panic, ◌>>=◌, Call, with_state, add64, mul64, or_panic}
use kermol.Common.{invalid_address, not_yet_implemented}
use kermol.X86.{X86}
use kermol.Errors.{MemoryError, out_of_bounds, double_free}
use kermol.Linear
use kermol.Linear.{LinearFrameAllocator, size_in_pages}
use kermol.Bitmap.{BitmapAllocator, Range, check, check_range, flag, flag_range}
use kermol.Bitmap.Scan.{scan}
use kermol.Common.Bits.{pattern_byte}

abbrev Write : Type 0 → Type 0
Write A = Call BitmapAllocator MemoryError A

module _ (x86 : X86) where
  -- `offset` is the page table's `internal_offset`. The slice at `virt` is filled whole, so what
  -- the frames held before is of no account.
  unfoldable pub new : ℕ → Bool → ℕ → Call LinearFrameAllocator MemoryError BitmapAllocator
  unfolding Linear.alloc_contiguous size_in_pages
  new size set_at_init offset frames = do
    (phys, frames) ← Linear.alloc_contiguous x86 (size_in_pages size) frames
    (at, frames) ← with_state frames (add64 phys offset)
    (virt, frames) ← with_state frames (or_panic invalid_address (x86.virt_new at))
    (bits, frames) ← with_state frames (mul64 size 8)
    ok (
      record {
        bitmap = replicate size (pattern_byte set_at_init);
        size = bits;
        last_allocated = 0;
      },
      frames,
    )

  unfoldable pub alloc : ℕ → Write ℕ
  unfolding scan flag_range
  alloc bits self = do
    (free_space, self) ← with_state self (scan x86 self bits)
    (next, self) ← with_state self (add64 free_space bits)
    (_, self) ←
        flag_range (record { start = free_space; end = next }) true
          (record self { last_allocated = next })
    ok (free_space, self)

unfoldable pub free : ℕ → Write (Unit {0})
unfolding check flag
free bit self = if leb self.size bit then err (out_of_bounds, self) else do
  (free_bit, self) ← with_state self (check self bit false)
  if not free_bit then err (double_free, self) else flag bit false self

-- The flagging is followed by `todo!()`.
unfoldable pub free_range : Range → Write (Unit {0})
unfolding check_range flag_range
free_range range self = do
  (free_bits, self) ← with_state self (check_range self range false)
  if not free_bits
      then err (double_free, self)
      else do (_, self) ← flag_range range false self; panic not_yet_implemented
