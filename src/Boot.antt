-- ===== src/Boot.antt =====
-- The boot sequence of src/memory/mod.rs and src/memory/paging/mod.rs: the page tables that the
-- kernel makes for itself before it leaves the bootloader's. What the linker and the bootloader
-- provide is a parameter.
pub mod Kernel
pub mod Stack
pub mod Paging
pub mod Load
pub mod Protect
pub mod Section
pub mod Direct
pub mod Misc
pub mod Logged
mod Tests
use kermol.Common.{ℕ, ◌+◌, ◌*◌, ◌/◌, ok, err, panic, out_of_fuel, Outcome, Call, Option}
use kermol.X86.{X86}
use kermol.Errors.{MemoryError, PagingError, paging_error}
use kermol.Entries.{Entries}
use kermol.Linear.{LinearFrameAllocator}
use kermol.Frames.Bitmap.{linear_frames}
use kermol.Pages.Map.{World}

-- The addresses of the linker's symbols.
pub record Image : Type 0 where
  pub limine_reqs_start : ℕ
  pub text_start : ℕ
  pub rodata_start : ℕ
  pub data_start : ℕ
  pub elf_end : ℕ

-- The answer to `KERNEL_ADDRESS_REQUEST`.
pub record KernelAddress : Type 0 where
  pub virtual_base : ℕ
  pub physical_base : ℕ

module _ (x86 : X86) (entries : Entries) where
  -- The page tables in memory and the boot allocator.
  abbrev pub BootWorld : Type 0
  BootWorld = World x86 entries (linear_frames x86)

  abbrev pub Boot : Type 0 → Type 0
  Boot A = Call BootWorld MemoryError A

-- `?` on a `PagingError`, by `From<PagingError> for MemoryError`.
abbrev pub from_paging {ℓ κ} :
    {S : Type ℓ} {A : Type κ} → Outcome (PagingError × S) A → Outcome (MemoryError × S) A
from_paging (ok a) = ok a
from_paging (err (e, s)) = err (paging_error e, s)
from_paging (panic p) = panic p
from_paging out_of_fuel = out_of_fuel
