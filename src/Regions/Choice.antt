-- ===== src/Regions/Choice.antt =====
-- Which region of the memory map src/memory/mod.rs and src/memory/paging/mod.rs choose.
use kermol.Common.{ℕ, ◌+◌, ◌≤◌, ◌<◌, ◌≡◌, word}
use kermol.Common.{Bool, true, false}
use kermol.Common.{Option, some, none, List, get_elem?}
use kermol.Regions.{MemoryRegionInfo}

-- A region of the map.
abbrev pub IsIn : MemoryRegionInfo → List MemoryRegionInfo → Type 0
IsIn r regions = (i : ℕ) × (get_elem? regions i ≡ some r)

abbrev pub end : MemoryRegionInfo → ℕ
end r = r.base + r.length

-- What is chosen among the regions that pass `test`: one with the largest key, or none if there is
-- none.
pub data Chooses (test : MemoryRegionInfo → Bool) (key : MemoryRegionInfo → ℕ)
    (regions : List MemoryRegionInfo) (o : Option MemoryRegionInfo) : Type 0 where
  chosen :
      (r : MemoryRegionInfo)
      → o ≡ some r
      → IsIn r regions
      → test r ≡ true
      → ((s : MemoryRegionInfo) → IsIn s regions → test s ≡ true → key s ≤ key r)
      → Chooses test key regions o
  nothing :
      o ≡ none
      → ((s : MemoryRegionInfo) → IsIn s regions → test s ≡ false)
      → Chooses test key regions o

-- The ends of the regions do not overflow.
abbrev pub Ends : List MemoryRegionInfo → Type 0
Ends regions = (s : MemoryRegionInfo) → IsIn s regions → end s < word
