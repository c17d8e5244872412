-- ===== src/Boot/Tests.antt =====
-- The boot sequence's theorems at concrete inputs.
use kermol.Common.{true, ℕ, ◌+◌, ◌-◌, ◌*◌, ◌^◌, ◌<◌, ◌≡◌, ◌≢◌, refl, some, ok, arith, inr, Outcome}
use kermol.X86.{IsCanonical}
use kermol.X86.Example.{machine}
use kermol.Errors.{PagingError}
use kermol.Entries.{flags_rx}
use kermol.Entries.Example.{entries, Bits}
use kermol.Frames.Bitmap.{linear_frames}
use kermol.Pages.Tree.{IsMappable, IsRecursive, frame_of}
use kermol.Pages.MapRange.{IsRange, MapsRange}
use kermol.Pages.Example.{
  table, started, started_shape, started-IsSound, source, reach, page, mapped,
}
use kermol.Pages.Example.{after_map, World0}
use kermol.Common.{[], ◌∷◌, ◌%◌, ◌+◌, ◌^◌}
use kermol.Linear.{size_in_pages}
use kermol.Entries.{flags_rwx}
use kermol.Regions.{MemoryRegionInfo, framebuffer, usable, acpi_tables}
use kermol.Boot.Kernel.{map_misc}
use kermol.Boot.Direct.{Fits, Directs}
use kermol.Boot.Misc.{map_misc-Directs}
use kermol.Boot.{KernelAddress, from_paging}
use kermol.Boot.Kernel.{map_kernel_section}
use kermol.Boot.Stack.{remap_stack}
use kermol.Boot.Paging.{load, level4}
use kermol.Boot.Load.{recursive, load_lem}
use kermol.Boot.Section.{IsSection, map_kernel_section-MapsRange}
use kermol.Boot.Protect.{IsStack, Remaps, remap_stack-Remaps}

started-IsRecursive : IsRecursive machine entries table started.memory
started-IsRecursive = record { used = refl; self_frame = refl }

load_lem_example :
    (load machine entries {E = PagingError} table ≡ ok (0x100000, record table { lvl4 = level4 }))
    × (0x100000 + 0xFFFF800000000000 ≡ table.lvl4)
    × ((a : ℕ) → frame_of machine entries table started.memory level4 ≡ some a → a ≢ 0x100000)
    × (frame_of machine entries table started.memory recursive ≡ some 0x100000)
load_lem_example =
    load_lem machine entries table started.memory started_shape started-IsSound.tree
      started-IsRecursive

-- The kernel at its usual virtual address, with two pages and a half of code.
abbrev kernel_address : KernelAddress
kernel_address = record { virtual_base = 0xFFFFFFFF80000000; physical_base = 0x7F00000 }

abbrev text : ℕ
text = 0xFFFFFFFF80001000

text-IsCanonical : (i : ℕ) → i < 3 → IsCanonical (text + i * 4096)
text-IsCanonical i l = inr (omega (arith, l), omega (arith, l))

text-IsMappable : (i : ℕ) → i < 3 → IsMappable (text + i * 4096)
text-IsMappable i l e = omega (arith, l, e)

text-IsSection :
    IsSection machine entries
      (2 ^ 40)
      (omega arith)
      table
      kernel_address
      text
      (text + 0x2800)
      (flags_rx entries)
text-IsSection = record {
  inside = omega arith;
  range = record {
    aligned = refl;
    physical = omega arith;
    short = omega arith;
    canonical = text-IsCanonical;
    mappable = text-IsMappable;
    here = refl;
  };
}

map_kernel_section-MapsRange_example :
    (r : Outcome (PagingError × World0) (Unit {0} × World0)) × (map_kernel_section machine entries
        (some kernel_address)
        text
        (text + 0x2800)
        (flags_rx entries)
        table
        started
      ≡ from_paging r)
    × MapsRange machine entries
        (linear_frames machine)
        source
        table
        0x7F01000
        text
        (record (flags_rx entries) { global = true })
        0
        0
        3
        started
        r
map_kernel_section-MapsRange_example =
    map_kernel_section-MapsRange machine entries (2 ^ 40) (omega arith) table kernel_address text
      (text + 0x2800) (flags_rx entries) text-IsSection reach 0 started started_shape
      started-IsSound (omega arith)

-- A stack that ends where a page is mapped.
page-IsStack : IsStack machine entries table reach.direct after_map.shape' (page - 16)
page-IsStack = record {
  high = omega arith;
  top_canonical = inr (omega arith, omega arith);
  bottom_canonical = inr (omega arith, omega arith);
  top_mappable = λ e. omega (arith, e);
  mappable = λ i l e. omega (arith, l, e);
}

remap_stack-Remaps_example :
    Remaps machine entries table reach.direct after_map.shape'
      (page - 16)
      mapped.memory
      (remap_stack machine entries (page - 16) table mapped.memory)
remap_stack-Remaps_example =
    remap_stack-Remaps machine entries table reach.direct after_map.shape' (page - 16) page-IsStack
      mapped.memory after_map.tree

-- Two regions that are mapped, and one that is not.
abbrev screen_region : MemoryRegionInfo
screen_region = record { base = 0xFD000000; length = 0x2000; kind = framebuffer }

abbrev free_region : MemoryRegionInfo
free_region = record { base = 0x100000; length = 0x7E00000; kind = usable }

abbrev acpi_region : MemoryRegionInfo
acpi_region = record { base = 0x7FE0000; length = 0x1800; kind = acpi_tables }

two_pages : (size_in_pages 0x2000 ≡ 2) × (size_in_pages 0x1800 ≡ 2)
unfolding size_in_pages
two_pages = (refl, refl)

usable_pages : size_in_pages 0x7E00000 ≡ 0x7E00
unfolding size_in_pages
usable_pages = refl

module _ (base length : ℕ) (f : Bits) (two : size_in_pages length ≡ 2) (whole : base % 4096 ≡ 0)
    (low : base < 2 ^ 32) (present : entries.contains f entries.present ≡ true) where
  two-IsRange :
      IsRange machine entries
        (linear_frames machine)
        source
        table
        base
        (base + 0xFFFF800000000000)
        f
        (size_in_pages length)
  two-IsRange = record {
    aligned = whole;
    physical = omega (arith, low, two);
    short = omega (arith, two);
    canonical = λ i l. inr (omega (arith, low, l, two), omega (arith, low, l, two));
    mappable = λ i l e. omega (arith, low, l, two, e);
    here = present;
  }

screen-Fits : Fits machine entries (2 ^ 40) (omega arith) table screen_region
screen-Fits wanted = (
  two-IsRange 0xFD000000 0x2000 (flags_rwx entries) two_pages.0 refl (omega arith) refl,
  inr (omega arith, omega arith),
  omega arith,
  omega arith,
)

free-Fits : Fits machine entries (2 ^ 40) (omega arith) table free_region
free-Fits wanted = elim wanted [ ]

acpi-Fits : Fits machine entries (2 ^ 40) (omega arith) table acpi_region
acpi-Fits wanted = (
  two-IsRange 0x7FE0000 0x1800 (flags_rwx entries) two_pages.1 refl (omega arith) refl,
  inr (omega arith, omega arith),
  omega arith,
  omega arith,
)

map_misc-Directs_example :
    Directs machine entries
      (2 ^ 40)
      (omega arith)
      table
      (screen_region ∷ free_region ∷ acpi_region ∷ [])
      0
      started
      (map_misc machine entries (screen_region ∷ free_region ∷ acpi_region ∷ []) table started)
map_misc-Directs_example =
    map_misc-Directs machine entries (2 ^ 40) (omega arith) table reach
      (screen_region ∷ free_region ∷ acpi_region ∷ []) 0 started started_shape started-IsSound
      (screen-Fits, (free-Fits, (acpi-Fits, tt))) (refl, omega (arith, two_pages, usable_pages))
