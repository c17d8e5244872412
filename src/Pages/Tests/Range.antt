-- ===== src/Pages/Tests/Range.antt =====
-- The loops over pages at concrete inputs.
use kermol.Common.{ℕ, ◌+◌, ◌*◌, ◌<◌, refl, arith, inr}
use kermol.X86.{IsCanonical}
use kermol.X86.Example.{machine}
use kermol.Entries.Example.{entries}
use kermol.Frames.Bitmap.{linear_frames}
use kermol.Pages.{unmap_contiguous}
use kermol.Pages.Map.{map_contiguous}
use kermol.Pages.Tree.{IsMappable}
use kermol.Pages.MapRange.{IsRange, MapsRange, map_contiguous-MapsRange}
use kermol.Pages.UnmapRange.{IsPages, UnmapsRange, unmap_contiguous-UnmapsRange}
use kermol.Pages.Example.{source, table, page, rw_flags, started, started_shape, started-IsSound}
use kermol.Pages.Example.{reach}
use kermol.Pages.Example.{mapped, after_map}

page-IsCanonical : (i : ℕ) → i < 3 → IsCanonical (page + i * 4096)
page-IsCanonical i l = inr (omega (arith, l), omega (arith, l))

pages-IsMappable : (i : ℕ) → i < 3 → IsMappable (page + i * 4096)
pages-IsMappable i l e = omega (arith, l, e)

page-IsRange : IsRange machine entries (linear_frames machine) source table 0x200000 page rw_flags 3
page-IsRange = record {
  aligned = refl;
  physical = omega arith;
  short = omega arith;
  canonical = page-IsCanonical;
  mappable = pages-IsMappable;
  here = refl;
}

map_contiguous-MapsRange_example :
    MapsRange machine entries
      (linear_frames machine)
      source
      table
      0x200000
      page
      rw_flags
      7
      0
      3
      started
      (map_contiguous machine entries
        (linear_frames machine)
        table
        3
        0x200000
        page
        rw_flags
        started)
map_contiguous-MapsRange_example =
    map_contiguous-MapsRange machine entries (linear_frames machine) source table 0x200000 page
      rw_flags reach 3 page-IsRange 7 started started_shape started-IsSound (omega arith)

page-IsPages : IsPages machine entries table page 3
page-IsPages = record {
  short = omega arith;
  canonical = page-IsCanonical;
  mappable = pages-IsMappable;
}

unmap_contiguous-UnmapsRange_example :
    UnmapsRange machine entries table page 0 3 mapped.memory after_map.shape'
      (unmap_contiguous machine entries table 3 page mapped.memory)
unmap_contiguous-UnmapsRange_example =
    unmap_contiguous-UnmapsRange machine entries table page reach.direct 3 page-IsPages
      after_map.shape' mapped.memory after_map.tree
