-- ===== src/Pages/Map.antt =====
-- `new`, `map` and `map_contiguous` of src/memory/paging/page_table.rs.
use kermol.Common.{ℕ, zero, suc, ◌+◌, ◌-◌, ◌*◌, ◌%◌, not, ◌==◌, if◌then◌else◌}
use kermol.Common.{none, some, ok, err, panic, out_of_fuel, ◌>>=◌, Call, with_state}
use kermol.Common.{
  or_panic, ensure, assertion_failed, explicit_panic, invalid_address, unwrap_failed, mul64, ◌/◌,
}
use kermol.Errors.{PagingError, attempted_mapping_to_reserved, already_mapped}
use kermol.Errors.{table_allocation_failed}
use kermol.X86.{X86}
use kermol.Entries.{Entries, flags_rw, flags_rwx}
use kermol.Frames.{FrameAllocator}
use kermol.Linear.{page_size}
use kermol.Pages.{get_page_index, Memory, empty_table, set_entry, set_table, RecursivePageTable}
use kermol.Pages.{phys_page_table_as_virt, get_page_table}

module _ (x86 : X86) (entries : Entries) {F : Type 0} (frame_allocator : FrameAllocator F) where
  open entries use {Entry, Flags, is_unused, addr, set_addr}

  -- The page tables in memory, and the frame allocator that `map` is given.
  pub record World : Type 0 where
    pub memory : Memory x86 entries
    pub frames : F

  -- `frame_allocator.alloc()`, with its error replaced.
  abbrev alloc_table : Call World PagingError ℕ
  alloc_table w = elim (frame_allocator.alloc w.frames) [
    | ok (frame, frames) ↦ ok (frame, record w { frames = frames })
    | err (e, frames) ↦ err (table_allocation_failed, record w { frames = frames })
    | panic p ↦ panic p
    | out_of_fuel ↦ out_of_fuel
  ]

  abbrev store : World → ℕ → ℕ → Entry → World
  store w table i e = record w { memory = set_entry x86 entries w.memory table i e }

  -- `new_page_table_level(at)`.
  abbrev pub new_page_table_level {ℓ} : {E : Type ℓ} → ℕ → Call World E ℕ
  new_page_table_level at w =
      if at % page_size == 0
      then ok
          (at, record w { memory = set_table x86 entries w.memory at (empty_table x86 entries) })
      else panic explicit_panic

  -- `RecursivePageTable::new`, `internal_offset` being the bootloader's answer. The level 4 table
  -- has itself at index 510.
  unfoldable pub new {ℓ} : {E : Type ℓ} → ℕ → Call World E (RecursivePageTable x86 entries)
  new internal_offset w = do
    (frame, w) ← elim (alloc_table w) [
      | ok (frame, w) ↦ ok (frame, w)
      | err e ↦ panic unwrap_failed
      | panic p ↦ panic p
      | out_of_fuel ↦ out_of_fuel
    ]
    (base, w) ← with_state w (or_panic invalid_address (x86.virt_new frame))
    (at, w) ← with_state w (or_panic invalid_address (x86.virt_add base internal_offset))
    (lvl4, w) ← new_page_table_level at w
    let containing = frame / page_size * page_size
    (entry, w) ← with_state w (or_panic assertion_failed (set_addr containing (flags_rw entries)))
    ok (record { lvl4 = lvl4; internal_offset = internal_offset }, store w lvl4 510 entry)

  -- One round of `for new_level in (2..=level).rev()`: a new table below `table`.
  unfoldable pub add_level : RecursivePageTable x86 entries → ℕ → ℕ → ℕ → Call World PagingError ℕ
  add_level self new_level table to w = do
    (i, w) ← with_state w (get_page_index new_level to)
    (_, w) ← with_state w (ensure (is_unused (w.memory table i)) assertion_failed)
    (frame, w) ← alloc_table w
    (entry, w) ← with_state w (or_panic assertion_failed (set_addr frame (flags_rwx entries)))
    let w = store w table i entry
    (at, w) ← with_state w (phys_page_table_as_virt x86 entries self (addr entry))
    new_page_table_level at w

  -- The rounds from `count + 1` down to level 2; the result is the level 1 table.
  unfoldable pub add_levels : RecursivePageTable x86 entries → ℕ → ℕ → ℕ → Call World PagingError ℕ
  add_levels self zero table to w = ok (table, w)
  add_levels self (suc count) table to w = do
    (next, w) ← add_level self (suc (suc count)) table to w
    add_levels self count next to w

  -- The end of `map`: the entry of the level 1 table.
  unfoldable pub map_entry :
      RecursivePageTable x86 entries → ℕ → ℕ → ℕ → Flags → Call World PagingError (Unit {0})
  map_entry self table from to flags w = do
    (i, w) ← with_state w (get_page_index 1 to)
    if not (is_unused (w.memory table i)) then err (already_mapped to, w) else do
      (entry, w) ← with_state w (or_panic assertion_failed (set_addr from flags))
      ok (tt, store w table i entry)

  -- `for level in 1..=4`, with `count` levels to go from `level` up; past them is `unreachable!()`.
  unfoldable pub map_from :
      RecursivePageTable x86 entries → ℕ → ℕ → ℕ → ℕ → Flags → Call World PagingError (Unit {0})
  map_from self zero level from to flags w = panic explicit_panic
  map_from self (suc count) level from to flags w = do
    (found, w) ← with_state w (get_page_table x86 entries self w.memory level to)
    elim found [
      | none ↦ map_from self count (level + 1) from to flags w
      | some page_table ↦ do
        (table, w) ← add_levels self (level - 1) page_table to w
        map_entry self table from to flags w
    ]

  unfoldable pub map :
      RecursivePageTable x86 entries → ℕ → ℕ → Flags → Call World PagingError (Unit {0})
  map self from to flags w = do
    (top, w) ← with_state w (get_page_index 4 to)
    if top == 510
        then err (attempted_mapping_to_reserved to, w)
        else map_from self 4 1 from to flags w

  -- `for page in (0..pages * PAGE_SIZE).step_by(PAGE_SIZE)`, with `count` pages to go.
  unfoldable pub map_pages :
      RecursivePageTable x86 entries → ℕ → ℕ → ℕ → ℕ → Flags → Call World PagingError (Unit {0})
  map_pages self zero page from to flags w = ok (tt, w)
  map_pages self (suc count) page from to flags w = do
    (phys, w) ← with_state w (or_panic invalid_address (x86.phys_add from page))
    (virt, w) ← with_state w (or_panic invalid_address (x86.virt_add to page))
    (_, w) ← map self phys virt flags w
    map_pages self count (page + page_size) from to flags w

  unfoldable pub map_contiguous :
      RecursivePageTable x86 entries → ℕ → ℕ → ℕ → Flags → Call World PagingError (Unit {0})
  map_contiguous self pages from to flags w = do
    (_, w) ← with_state w (mul64 pages page_size)
    map_pages self pages 0 from to flags w
