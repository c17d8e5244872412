-- ===== src/Pages.antt =====
-- src/memory/paging/page_table.rs: the four levels of page tables, the walk, and the calls that
-- change entries. Page tables are reached through the direct map, at their frame's address plus
-- `internal_offset`; memory is a function from such a pointer to the table there.
pub mod Map
pub mod Tree
pub mod Translate
pub mod Leaf
pub mod Grow
pub mod Walk
pub mod Levels
pub mod Ending
pub mod Mapping
pub mod Unmap
pub mod Root
pub mod RoundTrip
pub mod Refine
pub mod Unaligned
pub mod MapRange
pub mod UnmapRange
pub mod Debug
pub mod Example
mod Tests
use kermol.Common.{ℕ, zero, suc, ◌+◌, ◌-◌, ◌*◌, ◌/◌, ◌%◌, ◌^◌, Bool, true, false, ◌&&◌, not}
use kermol.Common.{Option, none, some, if◌then◌else◌, leb, ◌==◌}
use kermol.Common.{Outcome, ok, err, panic, ◌>>=◌, ◌>>◌, Call, with_state, add64, sub64, or_panic}
use kermol.Common.{ensure, assertion_failed, explicit_panic, invalid_address, unwrap_failed, mul64}
use kermol.Errors.{MemoryError, PagingError, attempted_mapping_to_reserved, not_mapped}
use kermol.Errors.{already_mapped, table_allocation_failed}
use kermol.X86.{X86}
use kermol.Entries.{Entries}
use kermol.Frames.{FrameAllocator}
use kermol.Linear.{page_size}

-- `get_page_index(level, addr)`, past its assertion.
abbrev pub page_index : ℕ → ℕ → ℕ
page_index level addr = addr / 2 ^ (9 * level + 3) % 512

abbrev pub get_page_index {ℓ} : {E : Type ℓ} → ℕ → ℕ → Outcome E ℕ
get_page_index level addr =
    ensure (leb 1 level && leb level 4) assertion_failed >> ok (page_index level addr)

module _ (x86 : X86) (entries : Entries) where
  open entries use {Entry, Flags, unused, is_unused, addr, set_addr, set_flags}

  -- A page table is read at an index below 512.
  abbrev pub Table : Type 0
  Table = ℕ → Entry

  abbrev pub Memory : Type 0
  Memory = ℕ → Table

  -- `PageTable::new()`.
  abbrev pub empty_table : Table
  empty_table i = unused

  -- `memory.table[i] = e`, and a whole table written to memory.
  abbrev pub set_entry : Memory → ℕ → ℕ → Entry → Memory
  set_entry memory table i e p j = if p == table && j == i then e else memory p j

  abbrev pub set_table : Memory → ℕ → Table → Memory
  set_table memory table t p j = if p == table then t j else memory p j

  pub record RecursivePageTable : Type 0 where
    pub lvl4 : ℕ
    pub internal_offset : ℕ

  -- `phys_page_table_as_virt`, and `VirtAddr::new` under it.
  unfoldable pub phys_page_table_as_virt {ℓ} : {E : Type ℓ} → RecursivePageTable → ℕ → Outcome E ℕ
  phys_page_table_as_virt self page_table = do
    at ← add64 page_table self.internal_offset
    or_panic invalid_address (x86.virt_new at)

  -- The loop of `get_page_table`, with `count` levels to go from `level` down.
  unfoldable pub walk {ℓ} :
      {E : Type ℓ} → RecursivePageTable → Memory → ℕ → ℕ → ℕ → ℕ → Outcome E (Option ℕ)
  unfolding phys_page_table_as_virt
  walk self memory zero level table to = ok (some table)
  walk self memory (suc count) level table to = do
    i ← get_page_index level to
    let entry = memory table i
    if is_unused entry then ok none else do
      next ← phys_page_table_as_virt self (addr entry)
      walk self memory count (level - 1) next to

  unfoldable pub get_page_table {ℓ} :
      {E : Type ℓ} → RecursivePageTable → Memory → ℕ → ℕ → Outcome E (Option ℕ)
  unfolding walk
  get_page_table self memory target_lvl to = do
    ensure (leb 1 target_lvl && leb target_lvl 4) assertion_failed
    walk self memory (4 - target_lvl) 4 self.lvl4 to

  unfoldable pub translate {ℓ} :
      {E : Type ℓ} → RecursivePageTable → Memory → ℕ → Outcome E (Option ℕ)
  unfolding get_page_table
  translate self memory from = do
    found ← get_page_table self memory 1 from
    elim found [
      | none ↦ ok none
      | some page_table ↦ do
        i ← get_page_index 1 from
        let entry = memory page_table i
        if is_unused entry then ok none else do
          at ← or_panic invalid_address (x86.phys_add (addr entry) (from % page_size))
          ok (some at)
    ]

  unfoldable pub update_flags : RecursivePageTable → ℕ → Flags → Call Memory PagingError (Unit {0})
  unfolding get_page_table
  update_flags self to flags memory = do
    (found, memory) ← with_state memory (get_page_table self memory 1 to)
    elim found [
      | none ↦ ok (tt, memory)
      | some page_table ↦ do
        (i, memory) ← with_state memory (get_page_index 1 to)
        let entry = memory page_table i
        if is_unused entry
            then err (not_mapped to, memory)
            else ok (tt, set_entry memory page_table i (set_flags entry flags))
    ]

  unfoldable pub unmap : RecursivePageTable → ℕ → Call Memory PagingError (Unit {0})
  unfolding get_page_table
  unmap self address memory = do
    (found, memory) ← with_state memory (get_page_table self memory 1 address)
    elim found [
      | none ↦ err (not_mapped address, memory)
      | some page_table ↦ do
        (i, memory) ← with_state memory (get_page_index 1 address)
        if is_unused (memory page_table i)
            then err (not_mapped address, memory)
            else ok (tt, set_entry memory page_table i unused)
    ]

  -- `for page in (0..pages * PAGE_SIZE).step_by(PAGE_SIZE)`, with `count` pages to go.
  unfoldable pub unmap_pages : RecursivePageTable → ℕ → ℕ → ℕ → Call Memory PagingError (Unit {0})
  unfolding unmap
  unmap_pages self zero page address memory = ok (tt, memory)
  unmap_pages self (suc count) page address memory = do
    (at, memory) ← with_state memory (or_panic invalid_address (x86.virt_add address page))
    (_, memory) ← unmap self at memory
    unmap_pages self count (page + page_size) address memory

  unfoldable pub unmap_contiguous : RecursivePageTable → ℕ → ℕ → Call Memory PagingError (Unit {0})
  unfolding unmap_pages
  unmap_contiguous self pages address memory = do
    (_, memory) ← with_state memory (mul64 pages page_size)
    unmap_pages self pages 0 address memory
