-- ===== src/AllocatedMemory/Release.antt =====
-- What becomes of memory that is given back.
use kermol.Common.{
  ℕ, ◌∙◌, unwrap_failed, ◌≡◌, ◌≢◌, refl, Outcome, ok, err, panic, out_of_fuel, Call, lt-or-le, inl,
  inr, ◌-◌, arith, ◌/◌, ◌+◌,
}
use kermol.Common.{none, some, bind-ne-ok, chain-ne-ok}
use kermol.Errors.{MemoryError}
use kermol.X86.{X86}
use kermol.Entries.{Entries}
use kermol.Bitmap.{BitmapAllocator}
use kermol.Bitmap.Release.{free_range-ne-ok}
use kermol.VirtualMemory
use kermol.Linear.{page_size}
use kermol.Controller
use kermol.Controller.{KernelPagingController, Kernel, on_pages}
use kermol.AllocatedMemory.{
  AllocatedMemory, Global, drop, drop_pages, drop_mapping, drop_virtual, drop_physical, drop_both,
  pages, or_report, on_controller,
}

pub free-ne-ok :
    (addr pages : ℕ) (self : BitmapAllocator) (x : Unit {0} × BitmapAllocator)
    → VirtualMemory.free addr pages self ≢ ok x
unfolding VirtualMemory.free
free-ne-ok addr pages self x e = elim (lt-or-le addr VirtualMemory.page_allocator_start) [
  | inl low ↦ ground arith
  | inr high ↦
      let offset = (addr - VirtualMemory.page_allocator_start) / page_size in
      ground (arith, free_range-ne-ok (record { start = offset; end = offset + pages }) self x)
]

module _ (x86 : X86) (entries : Entries) where
  on_pages-ne-ok :
      (f : Call BitmapAllocator MemoryError (Unit {0})) (self : KernelPagingController x86 entries)
      (x : Unit {0} × KernelPagingController x86 entries)
      → ((a : Unit {0} × BitmapAllocator) → f self.virt_mem_allocator ≢ ok a)
      → on_pages x86 entries f self ≢ ok x
  on_pages-ne-ok f self x h e = go (f self.virt_mem_allocator) refl e
    where
      go :
          (r : Outcome (MemoryError × BitmapAllocator) (Unit {0} × BitmapAllocator))
          → f self.virt_mem_allocator ≡ r
          → on_pages x86 entries (λ b. r) self ≡ ok x
          → ⊥
      go (ok a) q e = h a q
      go (err a) q e = ground arith
      go (panic p) q e = ground arith
      go out_of_fuel q e = ground arith

  -- From no state does `free_and_unmap` return normally.
  free_and_unmap-ne-ok :
      (addr page_count : ℕ) (self : KernelPagingController x86 entries)
      (x : Unit {0} × KernelPagingController x86 entries)
      → Controller.free_and_unmap x86 entries addr page_count self ≢ ok x
  unfolding Controller.free_and_unmap
  free_and_unmap-ne-ok addr page_count self x e =
      bind-ne-ok _ _ x
        (λ a.
          on_pages-ne-ok (VirtualMemory.free addr page_count) self a
            (λ b. free-ne-ok addr page_count self.virt_mem_allocator b))
        e

  or_report-ne-ok :
      (f : Kernel x86 entries (Unit {0})) (ctl : KernelPagingController x86 entries)
      (x : Unit {0} × KernelPagingController x86 entries)
      → f ctl ≢ ok x
      → or_report x86 entries f ctl ≢ ok x
  or_report-ne-ok f ctl x h e = go (f ctl) refl e
    where
      go :
          (r : Outcome
            (MemoryError × KernelPagingController x86 entries)
            (Unit {0} × KernelPagingController x86 entries))
          → f ctl ≡ r
          → or_report x86 entries (λ c. r) ctl ≡ ok x
          → ⊥
      go (ok a) q e = h (q ∙ e)
      go (err a) q e = ground arith
      go (panic p) q e = ground arith
      go out_of_fuel q e = ground arith

  module _ (self : AllocatedMemory x86 entries) where
    drop_virtual-ne-ok :
        (ctl : KernelPagingController x86 entries)
        (x : Unit {0} × KernelPagingController x86 entries)
        → drop_virtual x86 entries self ctl ≢ ok x
    drop_virtual-ne-ok ctl x =
        or_report-ne-ok
          (on_pages x86 entries (VirtualMemory.free self.virt (pages x86 entries self))) ctl x
          (on_pages-ne-ok (VirtualMemory.free self.virt (pages x86 entries self)) ctl x
            (free-ne-ok self.virt (pages x86 entries self) ctl.virt_mem_allocator))

    drop_pages-ne-ok :
        (ctl : KernelPagingController x86 entries)
        (x : Unit {0} × KernelPagingController x86 entries)
        → drop_pages x86 entries self ctl ≢ ok x
    drop_pages-ne-ok ctl x =
        chain-ne-ok (drop_mapping x86 entries self ctl) (λ a. drop_both x86 entries self a.1) x
          λ a.
            bind-ne-ok (drop_virtual x86 entries self a.1) (λ b. drop_physical x86 entries self b.1)
              x (drop_virtual-ne-ok a.1)

  -- From no state does `drop` return normally.
  pub drop-ne-ok :
      (self : AllocatedMemory x86 entries) (global : Global x86 entries)
      (x : Unit {0} × Global x86 entries)
      → drop x86 entries self global ≢ ok x
  unfolding drop
  drop-ne-ok self none x e = ground arith
  drop-ne-ok self (some ctl) x e = go (drop_pages x86 entries self ctl) refl e
    where
      go :
          (r : Outcome
            (MemoryError × KernelPagingController x86 entries)
            (Unit {0} × KernelPagingController x86 entries))
          → drop_pages x86 entries self ctl ≡ r
          → on_controller x86 entries (panic unwrap_failed) (λ c. r) (some ctl) ≡ ok x
          → ⊥
      go (ok a) q e = drop_pages-ne-ok self ctl a q
      go (err a) q e = ground arith
      go (panic p) q e = ground arith
      go out_of_fuel q e = ground arith
