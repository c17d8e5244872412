-- ===== src/Pages/Mapping.antt =====
-- How `map` of src/memory/paging/page_table.rs ends on a sound tree of page tables.
use kermol.Common.{ℕ, zero, suc, ◌+◌, ◌-◌, ◌≤◌, ◌≡◌, refl, ◌∙◌, ap, sym}
use kermol.Common.{false, ◌==◌, Option, none, some}
use kermol.Common.{arith, inl, inr, ◌⊎◌, Outcome, ok, err, lt-or-le}
use native.Mathlib.Nat.{zero-add, add-zero}
use kermol.X86.{X86}
use kermol.Errors.{PagingError, attempted_mapping_to_reserved}
use kermol.Entries.{Entries}
use kermol.Frames.{FrameAllocator, IsFrameSource, fewer_many}
use kermol.Pages.{page_index, RecursivePageTable, get_page_table}
use kermol.Pages.Map.{add_levels, map_entry, map_from, map}
use kermol.Pages.Tree.{IsMappable, Shape, descend, descend-place}
use kermol.Pages.Translate.{get_page_table-descend}
use kermol.Pages.Levels.{IsReachable, IsAt, Grows, grew, failed}
use kermol.Pages.Levels.{add_levels-Grows}
use kermol.Pages.Walk.{descend-stop, frame_of-stop}
use kermol.Pages.Ending.{
  State, Sound, frame, Maps, no_frame, IsTarget, map_entry-Maps, after_growing,
}

module _ (x86 : X86) (entries : Entries) {F : Type 0} (allocator : FrameAllocator F)
    (source : IsFrameSource allocator) (self : RecursivePageTable x86 entries) where
  open entries use {Entry, Flags, is_unused, addr, set_addr}

  module _ (h : IsReachable x86 entries allocator source self) (to : ℕ) (m : IsMappable to)
      (from : ℕ) (flags : Flags) (g : IsTarget x86 entries allocator source self from flags)
      (n : ℕ) where
    module _ (count level : ℕ) (w : State x86 entries allocator source self) where
      abbrev rest :
          Outcome
            (PagingError × State x86 entries allocator source self)
            (Unit {0} × State x86 entries allocator source self)
      rest = map_from x86 entries allocator self (suc count) level from to flags w

      go_up :
          get_page_table x86 entries {E = PagingError} self w.memory level to ≡ ok none
          → rest ≡ map_from x86 entries allocator self count (level + 1) from to flags w
      unfolding map_from
      go_up e = rw e

      go_down :
          (p q : ℕ) (w' : State x86 entries allocator source self)
          → get_page_table x86 entries {E = PagingError} self w.memory level to ≡ ok (some p)
          → add_levels x86 entries allocator self (level - 1) p to w ≡ ok (q, w')
          → rest ≡ map_entry x86 entries allocator self q from to flags w'
      unfolding map_from
      go_down p q w' e a = rw (e, a)

      give_up :
          (p : ℕ) (x : PagingError) (w' : State x86 entries allocator source self)
          → get_page_table x86 entries {E = PagingError} self w.memory level to ≡ ok (some p)
          → add_levels x86 entries allocator self (level - 1) p to w ≡ err (x, w')
          → rest ≡ err (x, w')
      unfolding map_from
      give_up p x w' e a = rw (e, a)

    stay_level :
        (w : State x86 entries allocator source self) (p : ℕ)
        → add_levels x86 entries allocator self 0 p to w ≡ ok (p, w)
    unfolding add_levels
    stay_level w p = refl

    module _ (count level : ℕ) (w : State x86 entries allocator source self) (shape : Shape) (p : ℕ)
        (free : frame x86 entries allocator source self w to ≡ none)
        (found : get_page_table x86 entries {E = PagingError} self w.memory level to
          ≡ ok (some p)) where
      grow-Maps :
          Grows x86 entries allocator source self n w to 3
            (add_levels x86 entries allocator self (level - 1) p to w)
          → Maps x86 entries allocator source self n w from to flags (rest count level w)
      grow-Maps (failed w' shape' e sound s z) =
          no_frame w' shape' free (give_up count level w p _ w' found e) sound s z
      grow-Maps (grew q w' shape' e at_q unused s still) =
          rw (go_down count level w p q w' found e) (
            after_growing x86 entries allocator source self h to m from flags g n w w' _ s free (
              map_entry-Maps x86 entries allocator source self h to m from flags g n w' shape' q
                at_q still))

    module _ (w : State x86 entries allocator source self) (shape : Shape)
        (sound : Sound x86 entries allocator source self w shape)
        (ready : source.Ready (3 + n) w.frames) where
      abbrev reach : ℕ → Option ℕ
      reach steps = descend x86 entries self w.memory steps 0 self.lvl4 to

      find_table :
          (level : ℕ)
          → 1 ≤ level
          → level ≤ 4
          → get_page_table x86 entries {E = PagingError} self w.memory level to
            ≡ ok (reach (4 - level))
      find_table level l u =
          get_page_table-descend x86 entries self h.direct w.memory shape sound.tree
            {E = PagingError} level to m l u

      here :
          (steps p : ℕ)
          → steps ≤ 3
          → reach steps ≡ some p
          → IsAt x86 entries allocator source self w shape to steps p
      here steps p s e =
          let (rank, _) =
            descend-place x86 entries self h.direct w.memory shape sound.tree steps 0 self.lvl4 to p
              m sound.tree.root sound.tree.root_place (omega arith) e in
          record { sound = sound; reached = e; rank = rw add-zero at rank }

      root_reached : reach 0 ≡ some self.lvl4
      unfolding descend
      root_reached = refl

      Ready-for : (level : ℕ) → 1 ≤ level → level ≤ 4 → source.Ready (level - 1 + n) w.frames
      Ready-for level l u =
          let calls : 3 + n ≡ 4 - level + (level - 1 + n) = omega arith in
          fewer_many source (4 - level) (level - 1 + n) w.frames (rw calls at ready)

      -- The table at `level` is the lowest that there is.
      from_lowest :
          (count level p : ℕ)
          → 2 ≤ level
          → level ≤ 4
          → reach (4 - level) ≡ some p
          → reach (5 - level) ≡ none
          → Maps x86 entries allocator source self n w from to flags (rest count level w)
      from_lowest count level p l u e stop =
          let next : 5 - level ≡ suc (4 - level) = omega arith in
          let depth : 4 - (4 - level) ≡ level = omega arith in
          let free =
            descend-stop x86 entries self w.memory (4 - level) 0 self.lvl4 to p e
              (rw next at stop) in
          grow-Maps count level w shape p
            (frame_of-stop x86 entries self w.memory (5 - level) to (omega arith) stop)
            (find_table level (omega arith) u ∙ ap ok e)
            (add_levels-Grows x86 entries allocator source self (level - 1) (4 - level) p to w shape
              n h m (here (4 - level) p (omega arith) e) (omega arith) (rw add-zero at free)
              (Ready-for level (omega arith) u))

      at_leaf :
          (count level p : ℕ)
          → reach (4 - level) ≡ some p
          → level ≡ 1
          → Maps x86 entries allocator source self n w from to flags (rest count level w)
      at_leaf count level p e one =
          let nothing : level - 1 ≡ 0 = omega arith in
          rw
            (go_down count level w p p w (find_table level (omega arith) (omega arith) ∙ ap ok e)
              (rw nothing (stay_level w p)))
            (map_entry-Maps x86 entries allocator source self h to m from flags g n w shape p
              (here 3 p (omega arith) (rw one at e))
              (rw (one, zero-add) at (Ready-for level (omega arith) (omega arith))))

      -- The loop finds the lowest table that there is.
      map_from-Maps :
          (count level : ℕ)
          → count + level ≡ 5
          → 1 ≤ level
          → (level ≡ 1) ⊎ (reach (5 - level) ≡ none)
          → Maps x86 entries allocator source self n w from to flags
              (map_from x86 entries allocator self count level from to flags w)
      map_from-Maps zero level c l (inl one) = absurd (omega arith)
      map_from-Maps zero level c l (inr stop) =
          let root : 5 - level ≡ 0 = omega arith in
          absurd (let z = sym root_reached ∙ rw root at stop in ground (arith, z))
      map_from-Maps (suc count) level c l low =
          go (reach (4 - level)) refl
            λ next. map_from-Maps count (level + 1) (omega arith) (omega arith) (inr next)
        where
          go :
              (o : Option ℕ)
              → reach (4 - level) ≡ o
              → (reach (5 - (level + 1)) ≡ none
                  → Maps x86 entries allocator source self n w from to flags
                      (map_from x86 entries allocator self count (level + 1) from to flags w))
              → Maps x86 entries allocator source self n w from to flags (rest count level w)
          go none e up =
              let next : 5 - (level + 1) ≡ 4 - level = omega arith in
              rw (go_up count level w (find_table level l (omega arith) ∙ ap ok e)) (up (rw next e))
          go (some p) e up = elim low [
            | inl one ↦ at_leaf count level p e one
            | inr stop ↦ elim (lt-or-le 1 level) [
              | inl two ↦ from_lowest count level p (omega arith) (omega arith) e stop
              | inr small ↦ at_leaf count level p e (omega arith)
            ]
          ]

      map_from_start :
          map x86 entries allocator self from to flags w
          ≡ map_from x86 entries allocator self 4 1 from to flags w
      unfolding map
      map_from_start =
          let mappable : (page_index 4 to == 510) ≡ false = ground (arith, m) in
          ground (arith, mappable)

      -- On a sound tree of page tables whose frames the direct map reaches, for an address outside
      -- the recursive range, an aligned physical address below 2^52 with flags that contain
      -- `PRESENT`, and an allocator that returns `n` and three more times, `map` ends in one of
      -- three ways: the page was free and now has the frame and the flags, the tree is sound and
      -- every other page has the frame and flags it had, and the allocator returns `n` more times;
      -- or the page was mapped, the error says so and nothing changed; or the allocator refused a
      -- frame for a table, the error says so, the tree is sound and every page has the frame and
      -- flags it had.
      pub map-Maps :
          Maps x86 entries allocator source self n w from to flags
            (map x86 entries allocator self from to flags w)
      map-Maps = rw map_from_start (map_from-Maps 4 1 refl (omega arith) (inl refl))

  -- An address whose level 4 index is 510 is refused by `map`, whatever the tables are, and nothing
  -- changes.
  pub map_reserved :
      (from to : ℕ) (flags : Flags) (w : State x86 entries allocator source self)
      → page_index 4 to ≡ 510
      → map x86 entries allocator self from to flags w ≡ err (attempted_mapping_to_reserved to, w)
  unfolding map
  map_reserved from to flags w e = ground (arith, e)
