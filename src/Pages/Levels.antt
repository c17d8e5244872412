-- ===== src/Pages/Levels.antt =====
-- `add_level` and `add_levels`: the tables that `map` makes on its way down.
use kermol.Common.{ℕ, zero, suc, ◌+◌, ◌-◌, ◌*◌, ◌≤◌, ◌<◌, ◌≡◌, refl, ◌∙◌, ◌^◌, ◌%◌}
use kermol.Common.{true, false, Bool-cases, ◌==◌, some}
use kermol.Common.{arith, inl, inr, ==→≡, word, Outcome, ok, err}
use native.Mathlib.Nat.{zero-add, add-zero}
use kermol.X86.{X86}
use kermol.Errors.{MemoryError, PagingError, table_allocation_failed}
use kermol.Entries.{Entries, flags_rwx}
use kermol.Frames.{FrameAllocator, IsFrameSource, Refuses}
use kermol.Pages.{page_index, RecursivePageTable}
use kermol.Pages.{phys_page_table_as_virt}
use kermol.Pages.Map.{World, add_level, add_levels}
use kermol.Pages.Tree.{IsMappable, Shape, IsDirectMap, IsTree, descend, frame_of, flags_of}
use kermol.Pages.Tree.{child}
use kermol.Pages.Grow.{Links, grown, grow_shape, grown-IsTree, frame_of-grown, flags_of-grown, kept}
use kermol.Pages.Walk.{descend-snoc, descend-grown}

module _ (x86 : X86) (entries : Entries) {F : Type 0} (allocator : FrameAllocator F)
    (source : IsFrameSource allocator) (self : RecursivePageTable x86 entries) where
  open entries use {Entry, Flags, is_unused, addr}

  abbrev pub W : Type 0
  W = World x86 entries allocator

  -- The tables form a tree, and no frame that may still be given out is one of them.
  pub record IsSound (w : W) (shape : Shape) : Type 0 where
    pub tree : IsTree x86 entries self w.memory shape
    pub apart : (a : ℕ) → source.Avail w.frames a → shape.rank (a + self.internal_offset) ≡ 0

  -- Every frame that the allocator gives out is in reach of the direct map.
  pub record IsReachable : Type 0 where
    pub direct : IsDirectMap x86 entries self
    pub inside : source.top + self.internal_offset ≤ word

  -- The same addresses are mapped, to the same frames with the same flags.
  abbrev pub SamePages : W → W → Type 0
  SamePages w w' =
      (b : ℕ)
      → IsMappable b
      → (frame_of x86 entries self w'.memory b ≡ frame_of x86 entries self w.memory b)
        × (flags_of x86 entries self w'.memory b ≡ flags_of x86 entries self w.memory b)

  pub then-SamePages : (w v u : W) → SamePages w v → SamePages v u → SamePages w u
  then-SamePages w v u first second b m =
      let (f, g) = first b m in let (f', g') = second b m in (f' ∙ f, g' ∙ g)

  -- The walk for `to` ends at `p` after `depth` steps; `p` is not full at that index.
  pub record IsAt (w : W) (shape : Shape) (to depth p : ℕ) : Type 0 where
    pub sound : IsSound w shape
    pub reached : descend x86 entries self w.memory depth 0 self.lvl4 to ≡ some p
    pub rank : shape.rank p ≡ suc depth

  -- How making tables ends: at a table `depth` steps down whose entry for `to` is unused, or with
  -- no frame for a table. No page changes its frame or flags.
  pub data Grows (n : ℕ) (w : W) (to depth : ℕ) (r : Outcome (PagingError × W) (ℕ × W))
      : Type 0 where
    grew :
        (p : ℕ) (w' : W) (shape : Shape)
        → r ≡ ok (p, w')
        → IsAt w' shape to depth p
        → is_unused (w'.memory p (page_index (4 - depth) to)) ≡ true
        → SamePages w w'
        → source.Ready n w'.frames
        → Grows n w to depth r
    failed :
        (w' : W) (shape : Shape)
        → r ≡ err (table_allocation_failed, w')
        → IsSound w' shape
        → SamePages w w'
        → Refuses source
        → Grows n w to depth r

  module _ (h : IsReachable) (w : W) (shape : Shape) (to depth p : ℕ) (m : IsMappable to)
      (at_p : IsAt w shape to depth p) (high : depth ≤ 2)
      (free : is_unused (w.memory p (page_index (4 - depth) to)) ≡ true) (n : ℕ)
      (ready : source.Ready (suc n) w.frames) where
    abbrev i : ℕ
    i = page_index (4 - depth) to

    refused :
        (e : MemoryError) (f' : F)
        → allocator.alloc w.frames ≡ err (e, f')
        → add_level x86 entries allocator self (4 - depth) p to w
          ≡ err (table_allocation_failed, record w { frames = f' })
    unfolding add_level
    refused e f' r = ground (arith, r, free)

    module _ (a : ℕ) (f' : F) (r : allocator.alloc w.frames ≡ ok (a, f')) (e : Entry)
        (es : entries.set_addr a (flags_rwx entries) ≡ some e) (ea : addr e ≡ a)
        (eu : is_unused e ≡ false) where
      small : child x86 entries self e < word
      small =
          let (_, _, low, _, _) = source.alloc_fresh n w.frames ready a f' r in
          omega (arith, ea, low, h.inside)

      upper : 2 ^ 64 ≤ addr e + self.internal_offset + 2 ^ 47
      upper = omega (arith, h.direct.upper)

      after : W
      after = record { memory = grown x86 entries self w.memory p i e; frames = f' }

      granted :
          add_level x86 entries allocator self (4 - depth) p to w
          ≡ ok (child x86 entries self e, after)
      unfolding add_level phys_page_table_as_virt after
      granted =
          let aligned : (addr e + self.internal_offset) % 4096 ≡ 0 =
            omega (arith, h.direct.aligned, entries.addr_aligned e) in
          let canonical = x86.virt_new-some (addr e + self.internal_offset) (inr (upper, small)) in
          ground (arith, r, free, es, aligned, canonical, small)

      link : Links x86 entries self w.memory shape depth p i e
      link = record {
        above = at_p.rank;
        high = high;
        was_unused = free;
        used = eu;
        fresh =
            (let (avail, _, _, _, _) = source.alloc_fresh n w.frames ready a f' r in
              rw ea (at_p.sound.apart a avail));
        small = small;
      }

      abbrev c : ℕ
      c = child x86 entries self e

      abbrev shape' : Shape
      shape' = grow_shape shape c (suc (suc depth)) (shape.place p * 512 + i)

      c_self : (c == c) ≡ true
      c_self = ground arith

      other_frame : (b : ℕ) → source.Avail f' b → (b + self.internal_offset == c) ≡ false
      other_frame b avail = elim (Bool-cases (b + self.internal_offset == c)) [
        | inr z ↦ z
        | inl z ↦
            let (_, _, _, gone, _) = source.alloc_fresh n w.frames ready a f' r in
            let one = ==→≡ (b + self.internal_offset) c z in
            let b_is_a : b ≡ a = omega (arith, one, ea) in absurd (gone (rw b_is_a at avail))
      ]

      after-IsSound : IsSound after shape'
      unfolding after
      after-IsSound = record {
        tree =
            grown-IsTree x86 entries self h.direct w.memory shape at_p.sound.tree depth p i e link;
        apart = λ b avail.
            let (_, _, _, _, less) = source.alloc_fresh n w.frames ready a f' r in
            rw (other_frame b avail) (at_p.sound.apart b (less b avail));
      }

      linked_entry : after.memory p i ≡ e
      unfolding after
      linked_entry =
          kept x86 entries self h.direct w.memory shape at_p.sound.tree depth p i e link p i
            (omega (arith, at_p.rank))
          ∙ ground arith

      after-reached : descend x86 entries self after.memory (suc depth) 0 self.lvl4 to ≡ some c
      unfolding after
      after-reached =
          let there =
            descend-grown x86 entries self h.direct w.memory shape at_p.sound.tree depth p i e link
              depth 0 self.lvl4 to p m at_p.sound.tree.root (omega arith) at_p.reached in
          let further =
            descend-snoc x86 entries self after.memory depth 0 self.lvl4 to p there
              (rw (add-zero, linked_entry) eu) in
          rw (add-zero, linked_entry) at further

      after-same : SamePages w after
      unfolding after
      after-same b mb = (
        frame_of-grown x86 entries self h.direct w.memory shape at_p.sound.tree depth p i e link b
            mb,
        flags_of-grown x86 entries self h.direct w.memory shape at_p.sound.tree depth p i e link b
            mb,
      )

      after-empty : (j : ℕ) → is_unused (after.memory c j) ≡ true
      unfolding after
      after-empty j = rw c_self entries.unused-is_unused

    add_level-Grows :
        Grows n w to (suc depth) (add_level x86 entries allocator self (4 - depth) p to w)
    unfolding after
    add_level-Grows = elim (source.alloc_returns n w.frames ready) [
      | inr (e, f', r, still, less) ↦
          failed (record w { frames = f' }) shape (refused e f' r)
            (record { tree = at_p.sound.tree; apart = λ a v. at_p.sound.apart a (less a v) })
            (λ b mb. (refl, refl)) (n, w.frames, ready, e, f', r)
      | inl (a, f', r, still) ↦
          let (_, aligned, low, _, _) = source.alloc_fresh n w.frames ready a f' r in
          let (e, es, ea, _, eu) =
            entries.set_addr-some a (flags_rwx entries) aligned
              (omega (arith, low, source.top-le)) in
          let used : is_unused e ≡ false = ground (arith, eu, rwx_not_empty) in
          grew (child x86 entries self e) (after a f' r e es ea used) (shape' a f' r e es ea used)
            (granted a f' r e es ea used)
            (record {
              sound = after-IsSound a f' r e es ea used;
              reached = after-reached a f' r e es ea used;
              rank = rw (c_self a f' r e es ea used) refl;
            })
            (after-empty a f' r e es ea used _) (after-same a f' r e es ea used) still
    ]
      where
        rwx_not_empty : entries.is_empty (flags_rwx entries) ≡ false
        rwx_not_empty = entries.present-is_empty (flags_rwx entries) (
            entries.contains-union_right entries.writable entries.present entries.present
              (entries.contains_self entries.present))

  later :
      (n : ℕ) (w w' : W) (to depth : ℕ) (r : Outcome (PagingError × W) (ℕ × W))
      → SamePages w w'
      → Grows n w' to depth r
      → Grows n w to depth r
  later n w w' to depth r same (grew p v shape e at_p free s ready) =
      grew p v shape e at_p free (then-SamePages w w' v same s) ready
  later n w w' to depth r same (failed v shape e sound s refuses) =
      failed v shape e sound (then-SamePages w w' v same s) refuses

  module _ (count p to : ℕ) (w : W) where
    next-ok :
        (c : ℕ) (w' : W)
        → add_level x86 entries allocator self (suc (suc count)) p to w ≡ ok (c, w')
        → add_levels x86 entries allocator self (suc count) p to w
          ≡ add_levels x86 entries allocator self count c to w'
    unfolding add_levels
    next-ok c w' e = rw e

    next-err :
        (x : PagingError) (w' : W)
        → add_level x86 entries allocator self (suc (suc count)) p to w ≡ err (x, w')
        → add_levels x86 entries allocator self (suc count) p to w ≡ err (x, w')
    unfolding add_levels
    next-err x w' e = rw e

  pub add_levels-Grows :
      (count depth p to : ℕ) (w : W) (shape : Shape) (n : ℕ)
      → IsReachable
      → IsMappable to
      → IsAt w shape to depth p
      → count + depth ≡ 3
      → is_unused (w.memory p (page_index (4 - depth) to)) ≡ true
      → source.Ready (count + n) w.frames
      → Grows n w to 3 (add_levels x86 entries allocator self count p to w)
  unfolding add_levels
  add_levels-Grows zero depth p to w shape n h m at_p c free ready =
      let three : depth ≡ 3 = omega arith in
      grew p w shape refl (rw three at at_p) (rw three at free) (λ b mb. (refl, refl))
        (rw zero-add at ready)
  add_levels-Grows (suc count) depth p to w shape n h m at_p c free ready =
      let level : 4 - depth ≡ suc (suc count) = omega arith in
      let calls : suc count + n ≡ suc (count + n) = omega arith in
      elim (rw level at (
        add_level-Grows h w shape to depth p m at_p (omega arith) free (count + n)
          (rw calls at ready))) [
            | failed w' shape' e sound s z ↦
                failed w' shape' (next-err count p to w _ w' e) sound s z
            | grew q w' shape' e at_q free' s still ↦ rw (next-ok count p to w q w' e) (
                later n w w' to 3 _ s (
                  add_levels-Grows count (suc depth) q to w' shape' n h m at_q (omega arith) free'
                    still))
          ]
