-- ===== src/Pages/Debug.antt =====
-- The debug output of src/memory/paging/page_table.rs: `debug_recursive` and `debug_page`. What a
-- formatter does with a text is a parameter.
pub mod Adds
pub mod Paths
pub mod Lines
pub mod Listing
mod Tests
use kermol.Common.{ℕ, zero, suc, ◌-◌, if◌then◌else◌, ok, ◌>>=◌, Call, with_state}
use kermol.X86.{X86}
use kermol.Entries.{Entries}
use kermol.Pages.{RecursivePageTable, Memory, phys_page_table_as_virt}

-- The arguments of a `write!`: a tab; a level, an index of a table there, and the table it leads to;
-- or an index of a level 1 table and the entry there.
pub data Text (Entry : Type 0) : Type 0 where
  tab : Text Entry
  table_line : ℕ → ℕ → ℕ → Text Entry
  page_line : ℕ → Entry → Text Entry

module _ (x86 : X86) (entries : Entries) where
  open entries use {Entry, is_unused, addr}

  -- `fmt::Error` has no data.
  module _ {F : Type 0} (write : Text Entry → Call F (Unit {0}) (Unit {0}))
      (self : RecursivePageTable x86 entries) (memory : Memory x86 entries) where
    abbrev pub Debug : Type 0
    Debug = Call F (Unit {0}) (Unit {0})

    unfoldable pub write_tabs : ℕ → Debug
    write_tabs zero f = ok (tt, f)
    write_tabs (suc count) f = write tab f >>= λ a. write_tabs count a.1

    -- The loop of `debug_page`, with `count` entries to go from `i` on.
    abbrev pub debug_page_entry : ℕ → ℕ → Debug
    debug_page_entry i page f =
        let entry = memory page i in
        if is_unused entry then ok (tt, f) else write (page_line i entry) f

    unfoldable pub debug_page_from : ℕ → ℕ → ℕ → Debug
    debug_page_from zero i page f = ok (tt, f)
    debug_page_from (suc count) i page f =
        debug_page_entry i page f >>= λ a. debug_page_from count (suc i) page a.1

    unfoldable pub debug_page : ℕ → Debug
    debug_page page f = debug_page_from 512 0 page f

    -- The loop of `debug_recursive` over the entries of a table of that level; `below` is the call
    -- for the level below it.
    module _ (below : ℕ → Debug) (level : ℕ) where
      abbrev pub debug_entry : ℕ → ℕ → Debug
      debug_entry i current f =
          let entry = memory current i in
          if is_unused entry then ok (tt, f) else do
            (next, f) ← with_state f (phys_page_table_as_virt x86 entries self (addr entry))
            (_, f) ← write_tabs (4 - level) f
            (_, f) ← write (table_line level i next) f
            below next f

      unfoldable pub debug_entries : ℕ → ℕ → ℕ → Debug
      debug_entries zero i current f = ok (tt, f)
      debug_entries (suc count) i current f =
          debug_entry i current f >>= λ a. debug_entries count (suc i) current a.1

    -- At the level after `below`.
    unfoldable pub debug_recursive : ℕ → ℕ → Debug
    debug_recursive zero current f = debug_page current f
    debug_recursive (suc below) current f =
        debug_entries (debug_recursive below) (suc (suc below)) 512 0 current f

    -- `Debug::fmt`.
    unfoldable pub fmt : Debug
    unfolding debug_recursive
    fmt f = debug_recursive 3 self.lvl4 f
