-- ===== src/AllocatedMemory.antt =====
-- src/memory/allocated_memory.rs: a run of pages that a part of the kernel owns. Memory that it
-- reads and writes is a function from an address to the value there.
pub mod Access
pub mod Release
pub mod Create
mod Tests
use kermol.Common.{
  ℕ, zero, suc, ◌+◌, ◌/◌, ◌%◌, Bool, true, false, ◌&&◌, not, if◌then◌else◌, leb, ◌==◌,
}
use kermol.Common.{
  Option, none, some, Outcome, ok, err, panic, out_of_fuel, ◌>>=◌, Call, with_state,
}
use kermol.Common.{add64, or_panic, invalid_address, explicit_panic, unwrap_failed}
use kermol.Errors.{MemoryError, out_of_bounds, page_not_present, write_to_read_only}
use kermol.Errors.{empty_allocation, locked_allocator}
use kermol.X86.{X86}
use kermol.Entries.{Entries}
use kermol.Linear.{page_size}
use kermol.Frames.Bitmap
use kermol.VirtualMemory
use kermol.Controller
use kermol.Controller.{KernelPagingController, Kernel, on_frames, on_pages}

-- `size.div_ceil(PAGE_SIZE)`.
abbrev pub div_ceil : ℕ → ℕ
div_ceil size = let d = size / page_size in if not (size % page_size == 0) then d + 1 else d

module _ (x86 : X86) (entries : Entries) where
  open entries use {Flags, present, writable, contains}

  -- `address.0` and `address.1` of the source are the virtual and the physical address.
  pub record AllocatedMemory : Type 0 where
    pub virt : ℕ
    pub phys : ℕ
    pub size : ℕ
    pub flags : Flags
    pub free_after_use : Bool

  -- `KERNEL_PAGING_CONTROLLER`, which is empty until `init_memory` fills it.
  abbrev pub Global : Type 0
  Global = Option (KernelPagingController x86 entries)

  -- A call on the controller, and what happens where there is none.
  abbrev pub on_controller {ℓ} :
      {A : Type ℓ}
      → Outcome (MemoryError × Global) (A × Global)
      → Call (KernelPagingController x86 entries) MemoryError A
      → Global
      → Outcome (MemoryError × Global) (A × Global)
  on_controller missing f none = missing
  on_controller missing f (some ctl) = elim (f ctl) [
    | ok (a, ctl) ↦ ok (a, some ctl)
    | err (e, ctl) ↦ err (e, some ctl)
    | panic p ↦ panic p
    | out_of_fuel ↦ out_of_fuel
  ]

  -- The calls of `new` and `reserve_physical` on the controller.
  abbrev pub alloc_pages :
      ℕ → Flags → Call (KernelPagingController x86 entries) MemoryError AllocatedMemory
  alloc_pages size flags ctl = do
    let pages = div_ceil size
    (phys_addr, ctl) ← on_frames x86 entries (Bitmap.alloc_contiguous x86 pages) ctl
    (virt_addr, ctl) ← on_pages x86 entries (VirtualMemory.alloc_contiguous x86 pages) ctl
    (_, ctl) ← Controller.map x86 entries phys_addr virt_addr pages flags ctl
    ok (
      record {
        virt = virt_addr;
        phys = phys_addr;
        size = size;
        flags = flags;
        free_after_use = true;
      },
      ctl,
    )

  abbrev reserve_pages :
      ℕ → ℕ → Flags → Call (KernelPagingController x86 entries) MemoryError AllocatedMemory
  reserve_pages phys_addr size flags ctl = do
    let pages = div_ceil size
    (virt_addr, ctl) ← on_pages x86 entries (VirtualMemory.alloc_contiguous x86 pages) ctl
    (_, ctl) ← Controller.map x86 entries phys_addr virt_addr pages flags ctl
    ok (
      record {
        virt = virt_addr;
        phys = phys_addr;
        size = size;
        flags = flags;
        free_after_use = false;
      },
      ctl,
    )

  unfoldable pub new : ℕ → Flags → Call Global MemoryError AllocatedMemory
  new size flags global =
      if size == 0
      then err (empty_allocation, global)
      else on_controller (err (locked_allocator, global)) (alloc_pages size flags) global

  unfoldable pub reserve_physical : ℕ → ℕ → Flags → Call Global MemoryError AllocatedMemory
  reserve_physical phys_addr size flags global =
      if size == 0
      then err (empty_allocation, global)
      else on_controller (err (locked_allocator, global)) (reserve_pages phys_addr size flags)
          global

  abbrev pub pages : AllocatedMemory → ℕ
  pages self = div_ceil self.size

  -- `handle_errors::<T>`, with `size_of::<T>()` as an argument.
  unfoldable pub handle_errors : AllocatedMemory → ℕ → Bool → ℕ → Outcome MemoryError (Unit {0})
  handle_errors self size_of write offset =
      if not (contains self.flags present)
      then err page_not_present
      else if write && not (contains self.flags writable)
      then err write_to_read_only
      else do end ← add64 offset size_of; if leb self.size end then err out_of_bounds else ok tt

  -- `self.address.0.add(offset as u64)`.
  abbrev place {ℓ} : {E : Type ℓ} → AllocatedMemory → ℕ → Outcome E ℕ
  place self offset = or_panic invalid_address (x86.virt_add self.virt offset)

  -- The volatile accesses read and write the same places.
  module _ {T : Type 0} (size_of : ℕ) where
    unfoldable pub read : AllocatedMemory → ℕ → (ℕ → T) → Outcome MemoryError T
    unfolding handle_errors
    read self offset memory = do
      _ ← handle_errors self size_of false offset
      at ← place self offset
      ok (memory at)

    abbrev pub store : ℕ → T → (ℕ → T) → ℕ → T
    store at value memory a = if a == at then value else memory a

    unfoldable pub write : AllocatedMemory → ℕ → T → Call (ℕ → T) MemoryError (Unit {0})
    unfolding handle_errors
    write self offset value memory = do
      (_, memory) ← with_state memory (handle_errors self size_of true offset)
      (at, memory) ← with_state memory (place self offset)
      ok (tt, store at value memory)

    unfoldable pub write_back : AllocatedMemory → ℕ → (T → T) → Call (ℕ → T) MemoryError (Unit {0})
    unfolding handle_errors
    write_back self offset f memory = do
      (_, memory) ← with_state memory (handle_errors self size_of true offset)
      (at, memory) ← with_state memory (place self offset)
      ok (tt, store at (f (memory at)) memory)

  -- An error of `drop` is reported by a panic.
  abbrev pub or_report : Kernel x86 entries (Unit {0}) → Kernel x86 entries (Unit {0})
  or_report f ctl = elim (f ctl) [
    | ok r ↦ ok r
    | err e ↦ panic explicit_panic
    | panic p ↦ panic p
    | out_of_fuel ↦ out_of_fuel
  ]

  -- The three steps of `drop`.
  abbrev pub drop_mapping : AllocatedMemory → Kernel x86 entries (Unit {0})
  drop_mapping self = or_report (Controller.unmap x86 entries self.virt (pages self))

  abbrev pub drop_virtual : AllocatedMemory → Kernel x86 entries (Unit {0})
  drop_virtual self = or_report (on_pages x86 entries (VirtualMemory.free self.virt (pages self)))

  abbrev pub drop_physical : AllocatedMemory → Kernel x86 entries (Unit {0})
  drop_physical self ctl =
      if not self.free_after_use
      then ok (tt, ctl)
      else or_report (on_frames x86 entries (Bitmap.free_contiguous self.phys (pages self))) ctl

  abbrev pub drop_both : AllocatedMemory → Kernel x86 entries (Unit {0})
  drop_both self ctl = drop_virtual self ctl >>= λ a. drop_physical self a.1

  abbrev pub drop_pages : AllocatedMemory → Kernel x86 entries (Unit {0})
  drop_pages self ctl = drop_mapping self ctl >>= λ a. drop_both self a.1

  unfoldable pub drop : AllocatedMemory → Call Global MemoryError (Unit {0})
  drop self global = on_controller (panic unwrap_failed) (drop_pages self) global
