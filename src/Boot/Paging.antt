-- ===== src/Boot/Paging.antt =====
-- `load` of src/memory/paging/page_table.rs, `init_paging` of src/memory/paging/mod.rs and
-- `init_memory` of src/memory/mod.rs.
use kermol.Common.{ℕ, ◌*◌, ◌/◌, ◌%◌, ◌==◌, true, Option, some, none, List, [], ◌∷◌}
use kermol.Common.{Outcome, ok, err, panic, out_of_fuel, ◌>>=◌, ◌>>◌, Call, with_state, or_panic}
use kermol.Common.{add64, sub64, mul64, ensure, invalid_address, unwrap_failed}
use kermol.X86.{X86}
use kermol.Errors.{MemoryError, allocation_error}
use kermol.Entries.{Entries, flags_rw}
use kermol.Linear
use kermol.Linear.{LinearFrameAllocator, page_size}
use kermol.Bitmap.{flag_range}
use kermol.Frames.Bitmap
use kermol.Frames.Bitmap.{linear_frames}
use kermol.VirtualMemory
use kermol.Display.Console.{Console, kprintln, log_ram_map}
use kermol.Regions.{
  MemoryRegionType, MemoryRegionInfo, is_executable, find, allocator_region, highest_valid_region,
}
use kermol.Pages.{RecursivePageTable, Memory}
use kermol.Pages.Map.{new, map_contiguous}
use kermol.Controller.{KernelPagingController}
use kermol.Boot.{Image, KernelAddress, Boot, BootWorld, from_paging}
use kermol.Boot.Kernel.{map_kernel, map_misc}
use kermol.Boot.Stack.{remap_stack}

-- `LEVEL4`.
abbrev pub level4 : ℕ
level4 = 0xFFFFFF7FFFFFF000

-- `KERNEL_HEAP_SIZE`, in bytes.
abbrev pub kernel_heap_size : ℕ
kernel_heap_size = 4 * (1024 * 1024)

-- The bootloader's answers.
pub record Responses : Type 0 where
  pub memory_map : Option (List MemoryRegionInfo)
  pub hhdm_offset : Option ℕ
  pub kernel_address : Option KernelAddress

-- "Bootloader provided physical RAM map:", "Heap Initialized" and "PEIS".
abbrev pub ram_map_title : List ℕ
ram_map_title =
    66 ∷ 111 ∷ 111 ∷ 116 ∷ 108 ∷ 111 ∷ 97 ∷ 100 ∷ 101 ∷ 114 ∷ 32 ∷ 112 ∷ 114 ∷ 111 ∷ 118 ∷ 105 ∷ 100
    ∷ 101 ∷ 100 ∷ 32 ∷ 112 ∷ 104 ∷ 121 ∷ 115 ∷ 105 ∷ 99 ∷ 97 ∷ 108 ∷ 32 ∷ 82 ∷ 65 ∷ 77 ∷ 32 ∷ 109
    ∷ 97 ∷ 112 ∷ 58 ∷ []

abbrev pub heap_initialized : List ℕ
heap_initialized =
    72 ∷ 101 ∷ 97 ∷ 112 ∷ 32 ∷ 73 ∷ 110 ∷ 105 ∷ 116 ∷ 105 ∷ 97 ∷ 108 ∷ 105 ∷ 122 ∷ 101 ∷ 100 ∷ []

abbrev pub peis : List ℕ
peis = 80 ∷ 69 ∷ 73 ∷ 83 ∷ []

-- `init_heap`, past the initialisation of the heap itself.
unfoldable pub init_heap {ℓ} : {E : Type ℓ} → Console → Outcome E Console
init_heap console = kprintln heap_initialized console

module _ (x86 : X86) (entries : Entries) where
  -- `load`: the frame that CR3 gets, and the table with its new pointer.
  unfoldable pub load {ℓ} :
      {E : Type ℓ} → RecursivePageTable x86 entries → Outcome E (ℕ × RecursivePageTable x86 entries)
  load self = do
    at ← sub64 self.lvl4 self.internal_offset
    page_table ← or_panic invalid_address (x86.phys_new at)
    ensure (page_table % page_size == 0) unwrap_failed
    ok (page_table, record self { lvl4 = level4 })

  -- Calls on one part of the state.
  abbrev on_linear {ℓ} :
      {A : Type ℓ}
      → Call LinearFrameAllocator MemoryError A
      → Call (BootWorld x86 entries) MemoryError A
  on_linear f w = elim (f w.frames) [
    | ok (a, frames) ↦ ok (a, record w { frames = frames })
    | err (e, frames) ↦ err (e, record w { frames = frames })
    | panic p ↦ panic p
    | out_of_fuel ↦ out_of_fuel
  ]

  abbrev on_memory : Call (Memory x86 entries) MemoryError (Unit {0}) → Boot x86 entries (Unit {0})
  on_memory f w = elim (f w.memory) [
    | ok (a, memory) ↦ ok (a, record w { memory = memory })
    | err (e, memory) ↦ err (e, record w { memory = memory })
    | panic p ↦ panic p
    | out_of_fuel ↦ out_of_fuel
  ]

  -- The result of a call whose state is not used again, with the console.
  abbrev pub result {ℓ} :
      {A : Type ℓ}
      → Console
      → Outcome (MemoryError × BootWorld x86 entries) (A × BootWorld x86 entries)
      → Outcome (MemoryError × Console) (A × Console)
  result console (ok (a, w)) = ok (a, console)
  result console (err (e, w)) = err (e, console)
  result console (panic p) = panic p
  result console out_of_fuel = out_of_fuel

  -- What `init_memory` leaves: the frame in CR3, where the heap is and its size, and the
  -- controller for `KERNEL_PAGING_CONTROLLER`.
  pub record Booted : Type 0 where
    pub cr3 : ℕ
    pub heap : ℕ
    pub heap_size : ℕ
    pub controller : KernelPagingController x86 entries

  module _ (image : Image) (responses : Responses) where
    unfoldable pub init_paging :
        ℕ → List MemoryRegionInfo → Boot x86 entries (KernelPagingController x86 entries)
    init_paging entry_stack_pointer rammap_entries w = do
      (offset, w) ← with_state w (or_panic unwrap_failed responses.hhdm_offset)
      (rec_page_table, w) ← new x86 entries (linear_frames x86) offset w
      (k_sect, w) ← with_state w (or_panic unwrap_failed (find is_executable rammap_entries))
      (_, w) ← map_kernel x86 entries responses.kernel_address image rec_page_table k_sect w
      (_, w) ← map_misc x86 entries rammap_entries rec_page_table w
      (_, w) ← on_memory (remap_stack x86 entries entry_stack_pointer rec_page_table) w
      (highest, w) ← with_state w (highest_valid_region rammap_entries)
      (region, w) ← with_state w (or_panic unwrap_failed highest)
      (end, w) ← with_state w (add64 region.base region.length)
      let size_bytes = end / page_size / 8
      (frame_allocator, w) ← on_linear (Bitmap.new x86 size_bytes rammap_entries offset) w
      (pages_bytes, w) ← with_state w (mul64 size_bytes 2)
      (virt_mem_allocator, w) ← on_linear (VirtualMemory.new x86 pages_bytes offset) w
      ok (
        record {
          rec_page_table = rec_page_table;
          frame_allocator = frame_allocator;
          virt_mem_allocator = virt_mem_allocator;
          memory = w.memory;
        },
        w,
      )

    -- From the choice of the region on, with the boot allocator in `w`.
    unfoldable pub init_tables :
        ℕ → List MemoryRegionInfo → MemoryRegionInfo → Boot x86 entries Booted
    init_tables entry_stack_pointer rammap_entries allocator_region w = do
      let heap_pages = kernel_heap_size / page_size
      (heap_phys, w) ← on_linear (Linear.alloc_contiguous x86 heap_pages) w
      (sp, w) ← with_state w (or_panic invalid_address (x86.virt_new entry_stack_pointer))
      (ctrl, w) ← init_paging sp rammap_entries w
      (base, w) ← with_state w (or_panic invalid_address (x86.virt_new heap_phys))
      (heap_virt, w) ←
          with_state w
            (or_panic invalid_address (x86.virt_add base ctrl.rec_page_table.internal_offset))
      (_, w) ← from_paging (
          map_contiguous x86 entries (linear_frames x86) ctrl.rec_page_table heap_pages heap_phys
            heap_virt (flags_rw entries) w)
      (frames, w) ←
          elim (flag_range
            (record { start = allocator_region.base / page_size; end = w.frames.next / page_size })
            true ctrl.frame_allocator) [
              | ok (_, frames) ↦ ok (frames, w)
              | err (e, _) ↦ err (e, w)
              | panic p ↦ panic p
              | out_of_fuel ↦ out_of_fuel
            ]
      ((cr3, rec_page_table), w) ← with_state w (load ctrl.rec_page_table)
      ok (
        record {
          cr3 = cr3;
          heap = heap_virt;
          heap_size = kernel_heap_size;
          controller = record ctrl {
            rec_page_table = rec_page_table;
            frame_allocator = frames;
            memory = w.memory;
          };
        },
        w,
      )

    -- From the tables on: the heap is where they map it.
    unfoldable pub start_memory :
        ℕ
        → List MemoryRegionInfo
        → MemoryRegionInfo
        → BootWorld x86 entries
        → Call Console MemoryError Booted
    start_memory entry_stack_pointer rammap_entries allocator_region w console = do
      (booted, console) ←
          result console (init_tables entry_stack_pointer rammap_entries allocator_region w)
      console ← init_heap (record console { serial = peis ∷ console.serial })
      ok (booted, console)

    -- With the region for the boot allocator, if there is one.
    unfoldable pub with_region :
        ℕ
        → List MemoryRegionInfo
        → ℕ
        → Memory x86 entries
        → Option MemoryRegionInfo
        → Call Console MemoryError Booted
    with_region entry_stack_pointer rammap_entries physical_memory_offset memory none console =
        err (allocation_error, console)
    with_region entry_stack_pointer rammap_entries physical_memory_offset memory (some region)
          console =
        do
          _ ← or_panic invalid_address (x86.phys_new region.base)
          at ← or_panic invalid_address (x86.virt_new region.base)
          virt_base ← or_panic invalid_address (x86.virt_add at physical_memory_offset)
          back ← sub64 virt_base physical_memory_offset
          next ← or_panic invalid_address (x86.phys_new back)
          start_memory entry_stack_pointer rammap_entries region
              (record { memory = memory; frames = record { next = next } }) console

    -- `bounds` and `name` format the lines of the memory map.
    unfoldable pub init_memory :
        (ℕ → ℕ → List ℕ)
        → (MemoryRegionType → List ℕ)
        → ℕ
        → Memory x86 entries
        → Call Console MemoryError Booted
    init_memory bounds name entry_stack_pointer memory console = do
      rammap_entries ← or_panic unwrap_failed responses.memory_map
      offset ← or_panic unwrap_failed responses.hhdm_offset
      console ← log_ram_map bounds name ram_map_title rammap_entries console
      physical_memory_offset ← or_panic invalid_address (x86.virt_new offset)
      with_region entry_stack_pointer rammap_entries physical_memory_offset memory
          (allocator_region rammap_entries) console
