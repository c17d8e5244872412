-- ===== src/Boot/Stack.antt =====
-- `remap_stack` of src/memory/paging/mod.rs.
use kermol.Common.{ℕ, zero, suc, ◌+◌, ◌*◌, ok, ◌>>=◌, Call, with_state, or_panic}
use kermol.Common.{invalid_address}
use kermol.X86.{X86}
use kermol.Errors.{MemoryError}
use kermol.Entries.{Entries, flags_rw}
use kermol.Linear.{page_size}
use kermol.Pages.{RecursivePageTable, Memory, unmap, update_flags}
use kermol.Boot.{from_paging}
use kermol.Boot.Kernel.{rounds}

-- The size that `STACK_SIZE_REQUEST` of src/limine_requests.rs asks for.
abbrev pub stack_size : ℕ
stack_size = 64 * 1024

module _ (x86 : X86) (entries : Entries) where
  -- `for page in (stack_bottom..stack_top).step_by(PAGE_SIZE)`, with `count` rounds to go. The
  -- range is too short to cross the gap between the halves of the address space.
  unfoldable pub protect_pages :
      ℕ → ℕ → RecursivePageTable x86 entries → Call (Memory x86 entries) MemoryError (Unit {0})
  protect_pages zero page page_table memory = ok (tt, memory)
  protect_pages (suc count) page page_table memory = do
    (_, memory) ← from_paging (update_flags x86 entries page_table page (flags_rw entries) memory)
    protect_pages count (page + page_size) page_table memory

  unfoldable pub remap_stack :
      ℕ → RecursivePageTable x86 entries → Call (Memory x86 entries) MemoryError (Unit {0})
  remap_stack entry_stack_pointer page_table memory = do
    (stack_top, memory) ←
        with_state memory (or_panic invalid_address (x86.virt_add entry_stack_pointer 16))
    (stack_bottom, memory) ←
        with_state memory (or_panic invalid_address (x86.virt_sub stack_top stack_size))
    (_, memory) ← from_paging (unmap x86 entries page_table stack_top memory)
    protect_pages (rounds stack_bottom stack_top) stack_bottom page_table memory
