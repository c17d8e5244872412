-- ===== src/Pages/Unmap.antt =====
-- `unmap` and `update_flags` on a tree of page tables.
use kermol.Common.{
  ℕ, ◌≡◌, refl, sym, ◌∙◌, ap, true, false, if◌then◌else◌, Bool-cases, Option, none, some,
}
use kermol.Common.{arith, inl, inr, Outcome, ok, err}
use kermol.X86.{X86}
use kermol.Errors.{PagingError, not_mapped}
use kermol.Entries.{Entries}
use kermol.Pages.{
  page_index, Memory, RecursivePageTable, set_entry, get_page_table, unmap, update_flags,
}
use kermol.Pages.Tree.{
  IsMappable, Shape, IsDirectMap, IsTree, descend, frame_of, same_page, leaf_of, flags_of,
}
use kermol.Pages.Tree.{frame_of-descend}
use kermol.Pages.Translate.{get_page_table-descend}
use kermol.Pages.Leaf.{written-IsTree, frame_of-written, frame_of-same_page, flags_of-written}

module _ (x86 : X86) (entries : Entries) (self : RecursivePageTable x86 entries)
    (d : IsDirectMap x86 entries self) (memory : Memory x86 entries) (shape : Shape)
    (t : IsTree x86 entries self memory shape) (at : ℕ) (m : IsMappable at) where
  open entries use {Entry, Flags, unused, is_unused, addr, set_flags}

  abbrev frame : Memory x86 entries → ℕ → Option ℕ
  frame = frame_of x86 entries self

  abbrev Result : Type 0
  Result = Outcome (PagingError × Memory x86 entries) (Unit {0} × Memory x86 entries)

  -- How `unmap` ends: the page was mapped, and it alone no longer is; or it was not, and nothing
  -- changed.
  pub data Unmaps (r : Result) : Type 0 where
    unmapped :
        (a : ℕ) (after : Memory x86 entries)
        → frame memory at ≡ some a
        → r ≡ ok (tt, after)
        → IsTree x86 entries self after shape
        → ((b : ℕ)
            → IsMappable b
            → frame after b ≡ (if same_page at b then none else frame memory b))
        → ((b : ℕ)
            → IsMappable b
            → flags_of x86 entries self after b
              ≡ (if same_page at b then none else flags_of x86 entries self memory b))
        → Unmaps r
    missing : frame memory at ≡ none → r ≡ err (not_mapped at, memory) → Unmaps r

  abbrev leaf : Option ℕ
  leaf = descend x86 entries self memory 3 0 self.lvl4 at

  found : get_page_table x86 entries {E = PagingError} self memory 1 at ≡ ok leaf
  found =
      get_page_table-descend x86 entries self d memory shape t {E = PagingError} 1 at m
        (omega arith) (omega arith)

  frame_at :
      (o : Option ℕ)
      → leaf ≡ o
      → frame memory at ≡ leaf_of x86 entries self memory (page_index 1 at) o
  frame_at o e =
      frame_of-descend x86 entries self memory at
      ∙ ap (leaf_of x86 entries self memory (page_index 1 at)) e

  unmap_missing : leaf ≡ none → unmap x86 entries self at memory ≡ err (not_mapped at, memory)
  unfolding unmap
  unmap_missing e = rw (found, e)

  update_missing :
      (f : Flags) → leaf ≡ none → update_flags x86 entries self at f memory ≡ ok (tt, memory)
  unfolding update_flags
  update_missing f e = rw (found, e)

  module _ (p : ℕ) (reached : leaf ≡ some p) where
    abbrev entry : Entry
    entry = memory p (page_index 1 at)

    unmap_found : unmap x86 entries self at memory ≡ (
        if is_unused entry
        then err (not_mapped at, memory)
        else ok (tt, set_entry x86 entries memory p (page_index 1 at) unused))
    unfolding unmap
    unmap_found = rw (found, reached)

    update_found :
        (f : Flags)
        → update_flags x86 entries self at f memory ≡ (
            if is_unused entry
            then err (not_mapped at, memory)
            else ok (tt, set_entry x86 entries memory p (page_index 1 at) (set_flags entry f)))
    unfolding update_flags
    update_found f = rw (found, reached)

    unmap_leaf : Unmaps (unmap x86 entries self at memory)
    unmap_leaf = elim (Bool-cases (is_unused entry)) [
      | inl u ↦ missing (rw u at (frame_at _ reached)) (rw u at unmap_found)
      | inr u ↦
          unmapped (addr entry) (set_entry x86 entries memory p (page_index 1 at) unused)
            (rw u at (frame_at _ reached)) (rw u at unmap_found)
            (written-IsTree x86 entries self d memory shape t p at unused m reached)
            (λ b mb.
              rw entries.unused-is_unused at
                (frame_of-written x86 entries self d memory shape t p at unused m reached b mb))
            (λ b mb.
              rw entries.unused-is_unused at
                (flags_of-written x86 entries self d memory shape t p at unused m reached b mb))
    ]

  -- On a tree of page tables, for an address outside the recursive range, `unmap` either finds the
  -- page mapped and unmaps it alone, keeping the tree and the frames and flags of the other pages,
  -- or finds it not mapped, says so and changes nothing.
  pub unmap-Unmaps : Unmaps (unmap x86 entries self at memory)
  unmap-Unmaps = go leaf refl
    where
      go : (o : Option ℕ) → leaf ≡ o → Unmaps (unmap x86 entries self at memory)
      go none e = missing (frame_at none e) (unmap_missing e)
      go (some p) e = unmap_leaf p e

  -- How `update_flags` ends. Where a table of the walk is missing it is `Ok`, although the page is
  -- not mapped.
  pub data Updates (f : Flags) (r : Result) : Type 0 where
    updated :
        (p : ℕ) (after : Memory x86 entries)
        → leaf ≡ some p
        → is_unused (memory p (page_index 1 at)) ≡ false
        → r ≡ ok (tt, after)
        → IsTree x86 entries self after shape
        → ((b : ℕ)
            → IsMappable b
            → flags_of x86 entries self after b
              ≡ (if same_page at b then some f else flags_of x86 entries self memory b))
        → ((b : ℕ) → IsMappable b → frame after b ≡ frame memory b)
        → Updates f r
    empty_entry :
        (p : ℕ)
        → leaf ≡ some p
        → frame memory at ≡ none
        → r ≡ err (not_mapped at, memory)
        → Updates f r
    no_table : leaf ≡ none → frame memory at ≡ none → r ≡ ok (tt, memory) → Updates f r

  module _ (f : Flags) (present : entries.contains f entries.present ≡ true) where
    module _ (p : ℕ) (reached : leaf ≡ some p) where
      abbrev new_entry : Entry
      new_entry = set_flags (entry p reached) f

      abbrev after : Memory x86 entries
      after = set_entry x86 entries memory p (page_index 1 at) new_entry

      still_used : is_unused new_entry ≡ false
      still_used = ground (
        arith,
        entries.is_unused-set_flags (entry p reached) f,
        entries.present-is_empty f present,
      )

      new_flags :
          (b : ℕ)
          → IsMappable b
          → flags_of x86 entries self after b
            ≡ (if same_page at b then some f else flags_of x86 entries self memory b)
      new_flags b mb =
          rw (still_used, entries.flags-set_flags (entry p reached) f) at
            (flags_of-written x86 entries self d memory shape t p at new_entry m reached b mb)

      same_frames :
          is_unused (entry p reached) ≡ false
          → (b : ℕ) → IsMappable b
          → frame after b ≡ frame memory b
      same_frames u b mb =
          let now =
            frame_of-written x86 entries self d memory shape t p at new_entry m reached b mb in
          let before = rw u at (frame_at _ reached) in
          elim (Bool-cases (same_page at b)) [
            | inr other ↦ rw other at now
            | inl same ↦
                rw (same, still_used, entries.addr-set_flags (entry p reached) f) at now
                ∙ sym before
                ∙ frame_of-same_page x86 entries self d memory shape t at b same
          ]

      update_leaf : Updates f (update_flags x86 entries self at f memory)
      update_leaf = elim (Bool-cases (is_unused (entry p reached))) [
        | inl u ↦
            empty_entry p reached (rw u at (frame_at _ reached))
              (rw u at (update_found p reached f))
        | inr u ↦
            updated p after reached u (rw u at (update_found p reached f))
              (written-IsTree x86 entries self d memory shape t p at new_entry m reached) new_flags
              (same_frames u)
      ]

    -- On a tree of page tables, for an address outside the recursive range and flags that contain
    -- `PRESENT`, `update_flags` ends in one of three ways: the mapped page gets the flags, and the
    -- tree, the frames of all pages and the flags of the others stay; or the entry is empty, and
    -- the error says that the page is not mapped; or a table on the way is missing, and the call is
    -- `Ok` and changes nothing, although the page is not mapped.
    pub update_flags-Updates : Updates f (update_flags x86 entries self at f memory)
    update_flags-Updates = go leaf refl
      where
        go : (o : Option ℕ) → leaf ≡ o → Updates f (update_flags x86 entries self at f memory)
        go none e = no_table e (frame_at none e) (update_missing f e)
        go (some p) e = update_leaf p e
