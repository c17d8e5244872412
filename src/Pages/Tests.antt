-- ===== src/Pages/Tests.antt =====
-- Runs of the page table, and its theorems at concrete inputs.
mod Range
use kermol.Common.{
  ℕ, ◌^◌, ◌≡◌, ◌+◌, ◌%◌, refl, true, false, some, none, List, [], ◌∷◌, ok, err, panic, out_of_fuel,
  arith, Outcome,
}
use kermol.Errors.{PagingError, not_mapped, already_mapped, attempted_mapping_to_reserved}
use kermol.X86.Example.{machine}
use kermol.Entries.Example.{entries, Bits, Entry, bits}
use kermol.Linear
use kermol.Linear.{LinearFrameAllocator, page_size}
use kermol.Frames.{IsFrameSource}
use kermol.Frames.Bitmap.{linear_frames}
use kermol.Frames.Linear.{linear_source, alloc-ne-err}
use kermol.Pages.{
  RecursivePageTable, Memory, translate, unmap, update_flags, get_page_table, walk,
  phys_page_table_as_virt,
}
use kermol.Pages.Map.{World, new, map, map_from, map_entry, add_levels, add_level}
use kermol.Pages.Tree.{Shape, IsMappable, frame_of}
use kermol.Pages.Translate.{translate-frame_of, add_offset}
use kermol.Pages.Levels.{IsSound, IsReachable}
use kermol.Pages.Ending.{IsTarget, Maps}
use kermol.Pages.Mapping.{map-Maps, map_reserved}
use kermol.Pages.Unmap.{Unmaps, Updates, unmap-Unmaps, update_flags-Updates}
use kermol.Pages.Root
use kermol.Pages.Root.{Starts, new-Starts}
use kermol.Pages.Refine
use kermol.Pages.Refine.{Command, Answer, done, failed, address}
use kermol.Pages.Refine.{Holds, map_page, unmap_page, translate_page, run, run_spec, run-run_spec}
use kermol.Pages.RoundTrip.{Mapped, map-Mapped, translate-map, unmap-map}
use kermol.Pages.Example.{offset, source, World0, boot, root_entry, table, started, started_shape}
use kermol.Pages.Example.{
  page, rw_flags, first_frame, started-IsSound, reach, page-IsMappable, target,
}
use kermol.Pages.Example.{mapped, map_runs, after_map}

new-Starts_example :
    Starts machine entries
      (linear_frames machine)
      source
      offset
      5
      (new machine entries (linear_frames machine) offset boot)
new-Starts_example =
    new-Starts machine entries (linear_frames machine) source offset refl (omega arith)
      (omega arith) boot 5 (omega arith)

map-Maps_example :
    Maps machine entries
      (linear_frames machine)
      source
      table
      0
      started
      0x200000
      page
      rw_flags
      (map machine entries (linear_frames machine) table 0x200000 page rw_flags started)
map-Maps_example =
    map-Maps machine entries (linear_frames machine) source table reach page page-IsMappable
      0x200000 rw_flags target 0 started started_shape started-IsSound (omega arith)

translate-map_example :
    translate machine entries {E = PagingError} table mapped.memory (page + 0x123)
    ≡ ok (some (0x200000 + (page + 0x123) % page_size))
translate-map_example =
    translate-map machine entries (linear_frames machine) source table reach page page-IsMappable
      0x200000 rw_flags target started started_shape started-IsSound 0 (omega arith) mapped
      (page + 0x123) map_runs (λ e. omega (arith, e)) refl

unmap-map_example :
    (memory : Memory machine entries) × (unmap machine entries table page mapped.memory
      ≡ ok (tt, memory))
    × ((b : ℕ)
        → IsMappable b
        → frame_of machine entries table memory b ≡ frame_of machine entries table started.memory b)
unmap-map_example =
    unmap-map machine entries (linear_frames machine) source table reach page page-IsMappable
      0x200000 rw_flags target started started_shape started-IsSound 0 (omega arith) mapped map_runs

translate-frame_of_example :
    translate machine entries {E = PagingError} table mapped.memory page
    ≡ ok (add_offset page (frame_of machine entries table mapped.memory page))
translate-frame_of_example =
    translate-frame_of machine entries table reach.direct mapped.memory after_map.shape'
      after_map.tree {E = PagingError} page page-IsMappable

unmap-Unmaps_example :
    Unmaps machine entries table reach.direct mapped.memory after_map.shape' after_map.tree page
      page-IsMappable
      (unmap machine entries table page mapped.memory)
unmap-Unmaps_example =
    unmap-Unmaps machine entries table reach.direct mapped.memory after_map.shape' after_map.tree
      page page-IsMappable

update_flags-Updates_example :
    Updates machine entries table reach.direct mapped.memory after_map.shape' after_map.tree page
      page-IsMappable
      (bits true false false)
      (update_flags machine entries table page (bits true false false) mapped.memory)
update_flags-Updates_example =
    update_flags-Updates machine entries table reach.direct mapped.memory after_map.shape'
      after_map.tree page page-IsMappable (bits true false false) refl

-- A run: the page is mapped once, refused twice, read, unmapped and read again.
abbrev commands : List (Command machine entries (linear_frames machine) source table)
commands =
    map_page 0x200000 page rw_flags
    ∷ map_page 0x300000 (page + 0x123) rw_flags
    ∷ map_page 0x300000 0xFFFFFF0000000000 rw_flags
    ∷ translate_page (page + 0x123)
    ∷ unmap_page page
    ∷ translate_page page
    ∷ unmap_page page
    ∷ []

abbrev answers : List Answer
answers =
    done
    ∷ failed (already_mapped (page + 0x123))
    ∷ failed (attempted_mapping_to_reserved 0xFFFFFF0000000000)
    ∷ address (some 0x200123)
    ∷ done
    ∷ address none
    ∷ failed (not_mapped page)
    ∷ []

answers_spec :
    (run_spec machine entries (linear_frames machine) source table commands (λ b. none)).0 ≡ answers
answers_spec = refl

other_target : IsTarget machine entries (linear_frames machine) source table 0x300000 rw_flags
other_target = record { aligned = refl; physical = omega arith; here = refl }

in_page : IsMappable (page + 0x123)
in_page e = omega (arith, e)

started-Holds : Holds machine entries (linear_frames machine) source table started (λ b. none)
started-Holds = record {
  shape = started_shape;
  sound = started-IsSound;
  agree =
      Root.nothing machine entries (linear_frames machine) source offset refl (omega arith)
        (omega arith) boot 5 (omega arith) 0x100000 (record { next = 0x101000 }) first_frame
        root_entry refl;
}

run-run_spec_example :
    (w' : World0) × (run machine entries (linear_frames machine) source table commands started
      ≡ ok (answers, w'))
    × Holds machine entries
        (linear_frames machine)
        source
        table
        w'
        (run_spec machine entries (linear_frames machine) source table commands (λ b. none)).1
run-run_spec_example =
    run-run_spec machine entries (linear_frames machine) source table reach
      (alloc-ne-err machine (2 ^ 40) (omega arith)) commands
      (
        target,
        (
          other_target,
          (other_target, (in_page, (page-IsMappable, (page-IsMappable, (page-IsMappable, tt))))),
        ),
      )
      started (λ b. none) started-Holds (omega arith)
