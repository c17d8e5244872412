-- ===== src/Pages/Example.antt =====
-- The kernel's page tables as `new` leaves them, for runs at concrete inputs: the boot allocator
-- gives frames from 0x100000 on, and the direct map lies at 0xFFFF800000000000.
use kermol.Common.{ℕ, ◌^◌, ◌≡◌, refl, true, ok, err, panic, out_of_fuel, arith, Outcome}
use kermol.Errors.{PagingError}
use kermol.X86.Example.{machine}
use kermol.Entries.Example.{entries, Bits, Entry, bits}
use kermol.Linear
use kermol.Linear.{LinearFrameAllocator, page_size}
use kermol.Frames.{IsFrameSource}
use kermol.Frames.Bitmap.{linear_frames}
use kermol.Frames.Linear.{linear_source}
use kermol.Pages.{RecursivePageTable, get_page_table, walk, phys_page_table_as_virt}
use kermol.Pages.Map.{World, map, map_from, map_entry, add_levels, add_level}
use kermol.Pages.Tree.{Shape, IsMappable}
use kermol.Pages.Levels.{IsSound, IsReachable}
use kermol.Pages.Ending.{IsTarget}
use kermol.Pages.Root
use kermol.Pages.Root.{Starts, new-Starts}
use kermol.Pages.RoundTrip.{Mapped, map-Mapped}

abbrev pub offset : ℕ
offset = 0xFFFF800000000000

abbrev pub source : IsFrameSource (linear_frames machine)
source = linear_source machine (2 ^ 40) (omega arith)

abbrev pub World0 : Type 0
World0 = World machine entries (linear_frames machine)

abbrev pub boot : World0
boot = record { memory = λ p i. entries.unused; frames = record { next = 0x100000 } }

-- The state that `new` leaves.
pub first_frame : Linear.alloc machine boot.frames ≡ ok (0x100000, record { next = 0x101000 })
unfolding Linear.alloc
first_frame = refl

abbrev pub root_entry : Entry
root_entry = record { frame = 0x100; flags = bits true true true }

abbrev pub table : RecursivePageTable machine entries
table = record { lvl4 = 0xFFFF800000100000; internal_offset = offset }

abbrev pub started : World0
started =
    Root.after machine entries (linear_frames machine) source offset refl (omega arith)
      (omega arith) boot 5 (omega arith) 0x100000 (record { next = 0x101000 }) first_frame
      root_entry refl

abbrev pub started_shape : Shape
started_shape =
    Root.shape machine entries (linear_frames machine) source offset refl (omega arith)
      (omega arith) boot 5 (omega arith) 0x100000 (record { next = 0x101000 }) first_frame
      root_entry refl

pub started-IsSound :
    IsSound machine entries (linear_frames machine) source table started started_shape
started-IsSound =
    Root.sound machine entries (linear_frames machine) source offset refl (omega arith)
      (omega arith) boot 5 (omega arith) 0x100000 (record { next = 0x101000 }) first_frame
      root_entry refl

pub reach : IsReachable machine entries (linear_frames machine) source table
reach = record { direct = record { aligned = refl; upper = omega arith }; inside = omega arith }

-- The first page of the virtual memory allocator, and a frame for it.
abbrev pub page : ℕ
page = 0xFFFFE00000000000

pub page-IsMappable : IsMappable page
page-IsMappable e = omega (arith, e)

abbrev pub rw_flags : Bits
rw_flags = bits true true true

pub target : IsTarget machine entries (linear_frames machine) source table 0x200000 rw_flags
target = record { aligned = refl; physical = omega arith; here = refl }

-- The state after mapping the page.
abbrev pub mapped_run : Outcome (PagingError × World0) (Unit {0} × World0)
mapped_run = map machine entries (linear_frames machine) table 0x200000 page rw_flags started

abbrev pub mapped_state : Outcome (PagingError × World0) (Unit {0} × World0) → World0
mapped_state (ok (u, w)) = w
mapped_state (err e) = started
mapped_state (panic p) = started
mapped_state out_of_fuel = started

pub map_runs : mapped_run ≡ ok (tt, mapped_state mapped_run)
unfolding map map_from map_entry add_levels add_level get_page_table walk phys_page_table_as_virt
    Linear.alloc
map_runs = refl

abbrev pub mapped : World0
mapped = mapped_state mapped_run

pub after_map :
    Mapped machine entries
      (linear_frames machine)
      source
      table
      reach
      page
      page-IsMappable
      0x200000
      rw_flags
      target
      started
      started_shape
      started-IsSound
      0
      (omega arith)
      mapped
after_map =
    map-Mapped machine entries (linear_frames machine) source table reach page page-IsMappable
      0x200000 rw_flags target started started_shape started-IsSound 0 (omega arith) mapped map_runs
