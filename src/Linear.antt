-- ===== src/Linear.antt =====
-- The boot allocator `LinearFrameAllocator` of src/memory/paging/frame_allocation.rs, and
-- `size_in_pages` of src/memory/paging/mod.rs.
use kermol.Common.{ℕ, ◌+◌, ◌*◌, ◌/◌, ◌%◌, not, if◌then◌else◌, ◌==◌}
use kermol.Common.{ok, panic, explicit_panic, invalid_address, ◌>>=◌, Call, with_state}
use kermol.Common.{mul64, or_panic}
use kermol.Errors.{MemoryError}
use kermol.X86.{X86}

-- `PAGE_SIZE`, four times `KIBIBYTE`.
abbrev pub page_size : ℕ
page_size = 4 * 1024

-- The pages that `size_bytes` need.
unfoldable pub size_in_pages : ℕ → ℕ
size_in_pages size_bytes =
    let size = size_bytes / page_size in
    if not (size_bytes % page_size == 0) then size + 1 else size

-- The next frame to give out.
pub record LinearFrameAllocator : Type 0 where
  pub next : ℕ

module _ (x86 : X86) where
  unfoldable pub alloc : Call LinearFrameAllocator MemoryError ℕ
  alloc self = do
    (next, self) ← with_state self (or_panic invalid_address (x86.phys_add self.next page_size))
    ok (self.next, record { next = next })

  unfoldable pub alloc_contiguous : ℕ → Call LinearFrameAllocator MemoryError ℕ
  alloc_contiguous pages self = do
    (bytes, self) ← with_state self (mul64 pages page_size)
    (next, self) ← with_state self (or_panic invalid_address (x86.phys_add self.next bytes))
    ok (self.next, record { next = next })

-- The linear allocator cannot free.
unfoldable pub free : ℕ → Call LinearFrameAllocator MemoryError (Unit {0})
free phys_addr self = panic explicit_panic

unfoldable pub free_contiguous : ℕ → ℕ → Call LinearFrameAllocator MemoryError (Unit {0})
free_contiguous phys_addr pages self = panic explicit_panic
