-- ===== src/Regions/Tests.antt =====
-- The choices of regions in a small memory map.
use kermol.Common.{◌≡◌, refl, some, List, [], ◌∷◌, ok}
use kermol.Regions.{MemoryRegionInfo, usable, reserved}
use kermol.Regions.{executable_and_modules, allocator_region}
use kermol.Regions.{highest_valid_region, max_by, max_from, highest, highest_from}

abbrev low : MemoryRegionInfo
low = record { base = 0x1000; length = 0x9E000; kind = usable }

abbrev big : MemoryRegionInfo
big = record { base = 0x100000; length = 0x7E00000; kind = usable }

abbrev kernel : MemoryRegionInfo
kernel = record { base = 0x7F00000; length = 0x100000; kind = executable_and_modules }

abbrev hole : MemoryRegionInfo
hole = record { base = 0xFEE00000; length = 0x1000; kind = reserved }

abbrev ram_map : List MemoryRegionInfo
ram_map = low ∷ big ∷ kernel ∷ hole ∷ []

largest : allocator_region ram_map ≡ some big
unfolding allocator_region max_by max_from
largest = refl

highest_one : highest_valid_region ram_map ≡ ok (some kernel)
unfolding highest_valid_region highest highest_from
highest_one = refl
