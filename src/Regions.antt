-- ===== src/Regions.antt =====
-- The memory map that the bootloader reports, and the choices that src/memory/mod.rs and
-- src/memory/paging/mod.rs make in it.
pub mod Choice
mod Tests
use kermol.Common.{ℕ, ◌+◌, Bool, true, false, if◌then◌else◌, ltb, ◌&&◌, not}
use kermol.Common.{Option, some, none, List, [], ◌∷◌, Outcome, ok, ◌>>=◌, add64}
use kermol.Errors.{MemoryError}

-- The kinds of memory that the bootloader reports, as far as the kernel names them.
pub data MemoryRegionType : Type 0 where
  usable reserved bad_memory framebuffer executable_and_modules : MemoryRegionType
  acpi_nvs acpi_reclaimable acpi_tables bootloader_reclaimable other : MemoryRegionType

pub record MemoryRegionInfo : Type 0 where
  pub base : ℕ
  pub length : ℕ
  pub kind : MemoryRegionType

-- `r.get_type() == MemoryRegionType::Usable`, and so on.
abbrev pub is_usable : MemoryRegionInfo → Bool
is_usable r = elim r.kind [ usable ↦ true | _ ↦ false ]

abbrev pub is_executable : MemoryRegionInfo → Bool
is_executable r = elim r.kind [ executable_and_modules ↦ true | _ ↦ false ]

-- Neither `Reserved` nor `Framebuffer`.
abbrev pub is_valid : MemoryRegionInfo → Bool
is_valid r = elim r.kind [ reserved ↦ false | framebuffer ↦ false | _ ↦ true ]

-- `.iter().filter(…)`.
abbrev pub filter : (MemoryRegionInfo → Bool) → List MemoryRegionInfo → List MemoryRegionInfo
filter test [] = []
filter test (r ∷ regions) = let rest = filter test regions in if test r then r ∷ rest else rest

-- `.iter().find(…)`.
abbrev pub find : (MemoryRegionInfo → Bool) → List MemoryRegionInfo → Option MemoryRegionInfo
find test [] = none
find test (r ∷ regions) = let rest = find test regions in if test r then some r else rest

-- `.max_by(|a, b| key(a).cmp(&key(b)))`: the later one of two that are equal.
unfoldable pub max_from :
    (MemoryRegionInfo → ℕ) → MemoryRegionInfo → List MemoryRegionInfo → MemoryRegionInfo
max_from key best [] = best
max_from key best (r ∷ regions) = max_from key (if ltb (key r) (key best) then best else r) regions

unfoldable pub max_by : (MemoryRegionInfo → ℕ) → List MemoryRegionInfo → Option MemoryRegionInfo
max_by key [] = none
max_by key (r ∷ regions) = some (max_from key r regions)

-- `.max_by(|r, a| (r.base + r.length).cmp(&(a.base + a.length)))`, with the sums checked.
unfoldable pub highest_from :
    MemoryRegionInfo → List MemoryRegionInfo → Outcome MemoryError MemoryRegionInfo
highest_from best [] = ok best
highest_from best (r ∷ regions) = do
  end ← add64 best.base best.length
  this ← add64 r.base r.length
  highest_from (if ltb this end then best else r) regions

unfoldable pub highest : List MemoryRegionInfo → Outcome MemoryError (Option MemoryRegionInfo)
highest [] = ok none
highest (r ∷ regions) = do best ← highest_from r regions; ok (some best)

-- The region in which `init_memory` places the boot allocator.
unfoldable pub allocator_region : List MemoryRegionInfo → Option MemoryRegionInfo
allocator_region rammap_entries = max_by (λ r. r.length) (filter is_usable rammap_entries)

-- The region whose end bounds the memory that `init_paging` makes allocators for.
unfoldable pub highest_valid_region :
    List MemoryRegionInfo → Outcome MemoryError (Option MemoryRegionInfo)
highest_valid_region rammap_entries = highest (filter is_valid rammap_entries)
