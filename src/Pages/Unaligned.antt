-- ===== src/Pages/Unaligned.antt =====
-- `map` and `map_contiguous` of src/memory/paging/page_table.rs on a frame that is not aligned.
use kermol.Common.{ℕ, zero, suc, ◌+◌, ◌-◌, ◌%◌, ◌<◌, ◌^◌, ◌≢◌, arith}
use kermol.Common.{Option, none, some, Outcome, ok, err, panic, out_of_fuel, ◌>>=◌, with_state}
use kermol.Common.{bind-ne-ok, chain-ne-ok}
use kermol.X86.{X86}
use kermol.Errors.{PagingError}
use kermol.Entries.{Entries}
use kermol.Frames.{FrameAllocator}
use kermol.Pages.{RecursivePageTable, get_page_table}
use kermol.Pages.Map.{World, add_levels, map_entry, map_from, map, map_pages, map_contiguous}

-- `map` panics on a frame that is not aligned, unless it ends with an error before.
module _ (x86 : X86) (entries : Entries) {F : Type 0} (allocator : FrameAllocator F)
    (self : RecursivePageTable x86 entries) (from : ℕ) (flags : entries.Flags)
    (unaligned : from % 4096 ≢ 0) where
  abbrev Worlds : Type 0
  Worlds = World x86 entries allocator

  map_entry-ne-ok :
      (table to : ℕ) (w : Worlds) (x : Unit {0} × Worlds)
      → map_entry x86 entries allocator self table from to flags w ≢ ok x
  unfolding map_entry
  map_entry-ne-ok table to w x e =
      let no = entries.set_addr-unaligned from flags unaligned in ground (arith, no)

  map_from-ne-ok :
      (count level to : ℕ) (w : Worlds) (x : Unit {0} × Worlds)
      → map_from x86 entries allocator self count level from to flags w ≢ ok x
  unfolding map_from
  map_from-ne-ok zero level to w x e = ground arith
  map_from-ne-ok (suc count) level to w x e =
      go (get_page_table x86 entries self w.memory level to)
        (map_from-ne-ok count (level + 1) to w x) e
    where
      go :
          (r : Outcome PagingError (Option ℕ))
          → map_from x86 entries allocator self count (level + 1) from to flags w ≢ ok x
          → (with_state w r >>= (λ a. elim a.0 [
            | none ↦ map_from x86 entries allocator self count (level + 1) from to flags a.1
            | some page_table ↦
                add_levels x86 entries allocator self (level - 1) page_table to a.1 >>= λ b.
                map_entry x86 entries allocator self b.0 from to flags b.1
          ]))
            ≢ ok x
      go (ok none) h e = h e
      go (ok (some table)) h e = chain-ne-ok _ _ x (λ b. map_entry-ne-ok b.0 to b.1 x) e
      go (err p) h e = ground arith
      go (panic p) h e = ground arith
      go out_of_fuel h e = ground arith

  map-ne-ok :
      (to : ℕ) (w : Worlds) (x : Unit {0} × Worlds)
      → map x86 entries allocator self from to flags w ≢ ok x
  unfolding map
  map-ne-ok to w x e = ground (arith, map_from-ne-ok 4 1 to w x)

module _ (x86 : X86) (entries : Entries) {F : Type 0} (allocator : FrameAllocator F)
    (self : RecursivePageTable x86 entries) (from : ℕ) (flags : entries.Flags)
    (unaligned : from % 4096 ≢ 0) (low : from < 2 ^ 52) where
  map_pages-ne-ok :
      (count to : ℕ) (w : World x86 entries allocator) (x : Unit {0} × World x86 entries allocator)
      → map_pages x86 entries allocator self (suc count) 0 from to flags w ≢ ok x
  unfolding map_pages
  map_pages-ne-ok count to w x e =
      let first = x86.phys_add-some from 0 (omega (arith, low)) in
      let here : (from + 0) % 4096 ≢ 0 = λ z. unaligned (omega (arith, z)) in
      chain-ne-ok _ _ x
        (λ a. bind-ne-ok _ _ x (map-ne-ok x86 entries allocator self (from + 0) flags here a.0 a.1))
        (rw first at e)

  pub map_contiguous-ne-ok :
      (count to : ℕ) (w : World x86 entries allocator) (x : Unit {0} × World x86 entries allocator)
      → 0 < count
      → map_contiguous x86 entries allocator self count from to flags w ≢ ok x
  unfolding map_contiguous
  map_contiguous-ne-ok zero to w x some_pages e = absurd (omega arith)
  map_contiguous-ne-ok (suc count) to w x some_pages e =
      chain-ne-ok _ _ x (λ a. map_pages-ne-ok count to a.1 x) e
