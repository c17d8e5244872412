-- ===== src/Boot/Kernel.antt =====
-- `map_kernel`, `map_kernel_section` and `map_misc` of src/memory/paging/mod.rs.
use kermol.Common.{ℕ, zero, suc, ◌+◌, ◌-◌, ◌/◌, ◌==◌, if◌then◌else◌, Option, some, none}
use kermol.Common.{List, [], ◌∷◌, ok, ◌>>=◌, with_state, add64, sub64, or_panic}
use kermol.Common.{invalid_address, unwrap_failed}
use kermol.X86.{X86}
use kermol.Entries.{Entries, flags_r, flags_rw, flags_rx, flags_rwx}
use kermol.Linear.{page_size, size_in_pages}
use kermol.Frames.Bitmap.{linear_frames}
use kermol.Regions.{MemoryRegionType, MemoryRegionInfo}
use kermol.Regions.MemoryRegionType.{
  framebuffer, acpi_nvs, acpi_reclaimable, acpi_tables, bootloader_reclaimable,
}
use kermol.Pages.{RecursivePageTable}
use kermol.Pages.Map.{map, map_contiguous}
use kermol.Boot.{Image, KernelAddress, Boot, from_paging}

-- The number of rounds of `(start..end).step_by(PAGE_SIZE)`.
abbrev pub rounds : ℕ → ℕ → ℕ
rounds start end = (end - start + 4095) / page_size

module _ (x86 : X86) (entries : Entries) where
  open entries use {Flags, global, union}

  abbrev Table : Type 0
  Table = RecursivePageTable x86 entries

  -- `PhysAddr::new(at - virtual_base + physical_base)`.
  abbrev pub kernel_phys : KernelAddress → ℕ → Boot x86 entries ℕ
  kernel_phys kernel_addr at w = do
    (inside, w) ← with_state w (sub64 at kernel_addr.virtual_base)
    (at, w) ← with_state w (add64 inside kernel_addr.physical_base)
    with_state w (or_panic invalid_address (x86.phys_new at))

  -- The loop of `map_kernel_section`, with `count` rounds to go.
  unfoldable pub map_section_pages :
      KernelAddress → ℕ → ℕ → Flags → Table → Boot x86 entries (Unit {0})
  map_section_pages kernel_addr zero page flags page_table w = ok (tt, w)
  map_section_pages kernel_addr (suc count) page flags page_table w = do
    (from, w) ← kernel_phys kernel_addr page w
    (to, w) ← with_state w (or_panic invalid_address (x86.virt_new page))
    (_, w) ←
        from_paging (map x86 entries (linear_frames x86) page_table from to (union flags global) w)
    map_section_pages kernel_addr count (page + page_size) flags page_table w

  -- `address` is the bootloader's answer to the request.
  unfoldable pub map_kernel_section :
      Option KernelAddress → ℕ → ℕ → Flags → Table → Boot x86 entries (Unit {0})
  map_kernel_section address start end flags page_table w = do
    (kernel_addr, w) ← with_state w (or_panic unwrap_failed address)
    if start == end
        then ok (tt, w)
        else map_section_pages kernel_addr (rounds start end) start flags page_table w

  unfoldable pub map_kernel :
      Option KernelAddress → Image → Table → MemoryRegionInfo → Boot x86 entries (Unit {0})
  map_kernel address image page_table kernel_region w = do
    (_, w) ←
        map_kernel_section address image.limine_reqs_start image.text_start (flags_r entries)
          page_table w
    (_, w) ←
        map_kernel_section address image.text_start image.rodata_start (flags_rx entries) page_table
          w
    (_, w) ←
        map_kernel_section address image.rodata_start image.data_start (flags_r entries) page_table
          w
    (_, w) ←
        map_kernel_section address image.data_start image.elf_end (flags_rw entries) page_table w
    (kernel_addr, w) ← with_state w (or_panic unwrap_failed address)
    (mapped_sect_size, w) ← with_state w (sub64 image.elf_end image.limine_reqs_start)
    (remaining, w) ← with_state w (sub64 kernel_region.length mapped_sect_size)
    (from, w) ← kernel_phys kernel_addr image.elf_end w
    (to, w) ← with_state w (or_panic invalid_address (x86.virt_new image.elf_end))
    from_paging (
        map_contiguous x86 entries (linear_frames x86) page_table (size_in_pages remaining) from to
          (union (flags_r entries) global) w)

  -- The flags for a kind of region, if it is mapped at all.
  abbrev pub misc_flags : MemoryRegionType → Option Flags
  misc_flags kind = elim kind [
    | framebuffer ↦ some (flags_rwx entries)
    | acpi_nvs ↦ some (flags_rwx entries)
    | acpi_reclaimable ↦ some (flags_rwx entries)
    | acpi_tables ↦ some (flags_rwx entries)
    | bootloader_reclaimable ↦ some (flags_rwx entries)
    | _ ↦ none
  ]

  -- One round of `map_misc`.
  unfoldable pub map_misc_region : MemoryRegionInfo → Table → Boot x86 entries (Unit {0})
  map_misc_region region page_table w = elim (misc_flags region.kind) [
    | none ↦ ok (tt, w)
    | some flags ↦ do
      (from, w) ← with_state w (or_panic invalid_address (x86.phys_new region.base))
      (at, w) ← with_state w (add64 region.base page_table.internal_offset)
      (to, w) ← with_state w (or_panic invalid_address (x86.virt_new at))
      from_paging (
          map_contiguous x86 entries (linear_frames x86) page_table (size_in_pages region.length)
            from to flags w)
  ]

  unfoldable pub map_misc : List MemoryRegionInfo → Table → Boot x86 entries (Unit {0})
  map_misc [] page_table w = ok (tt, w)
  map_misc (region ∷ rammap_entries) page_table w = do
    (_, w) ← map_misc_region region page_table w
    map_misc rammap_entries page_table w
