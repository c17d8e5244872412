-- ===== src/Controller.antt =====
-- `KernelPagingController` of src/memory/paging/paging_controller.rs, with the memory that its
-- page tables are in.
use kermol.Common.{ℕ, none, some, ok, err, panic, out_of_fuel, ◌>>=◌, Call, with_state}
use kermol.Errors.{MemoryError, PagingError, paging_error, page_not_present}
use kermol.X86.{X86}
use kermol.Entries.{Entries}
use kermol.Bitmap.{BitmapAllocator}
use kermol.Frames.Bitmap
use kermol.Frames.Bitmap.{bitmap_frames}
use kermol.VirtualMemory
use kermol.Pages
use kermol.Pages.{RecursivePageTable, Memory}
use kermol.Pages.Map
use kermol.Pages.Map.{World}

module _ (x86 : X86) (entries : Entries) where
  open entries use {Flags}

  pub record KernelPagingController : Type 0 where
    pub rec_page_table : RecursivePageTable x86 entries
    pub frame_allocator : BitmapAllocator
    pub virt_mem_allocator : BitmapAllocator
    pub memory : Memory x86 entries

  abbrev pub Kernel : Type 0 → Type 0
  Kernel A = Call KernelPagingController MemoryError A

  -- Calls on one part of the controller; a `PagingError` is turned into a `MemoryError`.
  abbrev pub on_tables :
      Call (World x86 entries (bitmap_frames x86)) PagingError (Unit {0}) → Kernel (Unit {0})
  on_tables f self = elim (f (record { memory = self.memory; frames = self.frame_allocator })) [
    | ok (a, w) ↦ ok (a, record self { memory = w.memory; frame_allocator = w.frames })
    | err (e, w) ↦
        err (paging_error e, record self { memory = w.memory; frame_allocator = w.frames })
    | panic p ↦ panic p
    | out_of_fuel ↦ out_of_fuel
  ]

  abbrev on_memory : Call (Memory x86 entries) PagingError (Unit {0}) → Kernel (Unit {0})
  on_memory f self = elim (f self.memory) [
    | ok (a, memory) ↦ ok (a, record self { memory = memory })
    | err (e, memory) ↦ err (paging_error e, record self { memory = memory })
    | panic p ↦ panic p
    | out_of_fuel ↦ out_of_fuel
  ]

  abbrev pub on_frames {ℓ} :
      {A : Type ℓ} → Call BitmapAllocator MemoryError A → Call KernelPagingController MemoryError A
  on_frames f self = elim (f self.frame_allocator) [
    | ok (a, frames) ↦ ok (a, record self { frame_allocator = frames })
    | err (e, frames) ↦ err (e, record self { frame_allocator = frames })
    | panic p ↦ panic p
    | out_of_fuel ↦ out_of_fuel
  ]

  abbrev pub on_pages {ℓ} :
      {A : Type ℓ} → Call BitmapAllocator MemoryError A → Call KernelPagingController MemoryError A
  on_pages f self = elim (f self.virt_mem_allocator) [
    | ok (a, pages) ↦ ok (a, record self { virt_mem_allocator = pages })
    | err (e, pages) ↦ err (e, record self { virt_mem_allocator = pages })
    | panic p ↦ panic p
    | out_of_fuel ↦ out_of_fuel
  ]

  unfoldable pub map : ℕ → ℕ → ℕ → Flags → Kernel (Unit {0})
  map from to page_count flags self =
      on_tables
        (Map.map_contiguous x86 entries (bitmap_frames x86) self.rec_page_table page_count from to
          flags)
        self

  unfoldable pub unmap : ℕ → ℕ → Kernel (Unit {0})
  unmap addr page_count self =
      on_memory (Pages.unmap_contiguous x86 entries self.rec_page_table page_count addr) self

  unfoldable pub alloc_and_map : ℕ → Flags → Kernel ℕ
  alloc_and_map pages flags self = do
    (phys, self) ← on_frames (Bitmap.alloc_contiguous x86 pages) self
    (virt, self) ← on_pages (VirtualMemory.alloc_contiguous x86 pages) self
    (_, self) ← map phys virt pages flags self
    ok (virt, self)

  unfoldable pub free_and_unmap : ℕ → ℕ → Kernel (Unit {0})
  free_and_unmap addr page_count self = do
    (_, self) ← on_pages (VirtualMemory.free addr page_count) self
    (found, self) ←
        with_state self (Pages.translate x86 entries self.rec_page_table self.memory addr)
    elim found [
      | none ↦ err (page_not_present, self)
      | some phys ↦ do
        (_, self) ← on_frames (Bitmap.free_contiguous phys page_count) self
        (_, self) ← unmap addr page_count self
        ok (tt, self)
    ]
