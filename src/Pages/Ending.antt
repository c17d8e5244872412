-- ===== src/Pages/Ending.antt =====
-- The ways in which `map` of src/memory/paging/page_table.rs may end, and the end at a level 1 table.
use kermol.Common.{ℕ, ◌<◌, ◌≡◌, ◌∙◌, ap, sym, ◌^◌, ◌%◌}
use kermol.Common.{true, false, if◌then◌else◌, Bool-cases, Option, none, some}
use kermol.Common.{arith, inl, inr, Outcome, ok, err}
use kermol.X86.{X86}
use kermol.Errors.{PagingError, table_allocation_failed, already_mapped}
use kermol.Entries.{Entries}
use kermol.Frames.{FrameAllocator, IsFrameSource, Refuses}
use kermol.Pages.{page_index, RecursivePageTable, set_entry}
use kermol.Pages.Map.{map_entry}
use kermol.Pages.Tree.{IsMappable, Shape, frame_of, flags_of, same_page}
use kermol.Pages.Tree.{frame_of-descend}
use kermol.Pages.Leaf.{written-IsTree, frame_of-written, flags_of-written}
use kermol.Pages.Levels.{W, IsSound, IsReachable, SamePages, IsAt}
use kermol.Pages.Levels.{then-SamePages}

module _ (x86 : X86) (entries : Entries) {F : Type 0} (allocator : FrameAllocator F)
    (source : IsFrameSource allocator) (self : RecursivePageTable x86 entries) where
  open entries use {Entry, Flags, is_unused, addr, set_addr}

  abbrev pub frame : W x86 entries allocator source self → ℕ → Option ℕ
  frame w b = frame_of x86 entries self w.memory b

  abbrev pub flags_at : W x86 entries allocator source self → ℕ → Option Flags
  flags_at w b = flags_of x86 entries self w.memory b

  abbrev pub Sound : W x86 entries allocator source self → Shape → Type 0
  Sound = IsSound x86 entries allocator source self

  abbrev pub State : Type 0
  State = W x86 entries allocator source self

  -- The three ways in which a call of `map` may end. In the first the page of `to` was not mapped
  -- and now has the frame `from`, every other page has the frame it had; in the second it was
  -- mapped, and nothing changed; in the third a table found no frame, and no page changed its own.
  pub data Maps (n : ℕ) (w : State) (from to : ℕ) (flags : Flags)
      (r : Outcome (PagingError × State) (Unit {0} × State)) : Type 0 where
    mapped :
        (w' : State) (shape : Shape)
        → frame w to ≡ none
        → r ≡ ok (tt, w')
        → Sound w' shape
        → ((b : ℕ) → IsMappable b → frame w' b ≡ (if same_page to b then some from else frame w b))
        → ((b : ℕ)
            → IsMappable b
            → flags_at w' b ≡ (if same_page to b then some flags else flags_at w b))
        → source.Ready n w'.frames
        → Maps n w from to flags r
    already :
        (a : ℕ) → frame w to ≡ some a → r ≡ err (already_mapped to, w) → Maps n w from to flags r
    no_frame :
        (w' : State) (shape : Shape)
        → frame w to ≡ none
        → r ≡ err (table_allocation_failed, w')
        → Sound w' shape
        → SamePages x86 entries allocator source self w w'
        → Refuses source
        → Maps n w from to flags r

  -- An address and flags that make a used entry.
  pub record IsTarget (from : ℕ) (flags : Flags) : Type 0 where
    pub aligned : from % 4096 ≡ 0
    pub physical : from < 2 ^ 52
    pub here : entries.contains flags entries.present ≡ true

  module _ (h : IsReachable x86 entries allocator source self) (to : ℕ) (m : IsMappable to)
      (from : ℕ) (flags : Flags) (g : IsTarget from flags) (n : ℕ) where
    entry_fits :
        (e : Entry) × (set_addr from flags ≡ some e)
        × (addr e ≡ from)
        × (entries.flags e ≡ flags)
        × (is_unused e ≡ false)
    entry_fits =
        let (e, es, ea, ef, eu) = entries.set_addr-some from flags g.aligned g.physical in
        (e, es, ea, ef, ground (arith, eu, entries.present-is_empty flags g.here))

    -- At the level 1 table.
    module _ (w : State) (shape : Shape) (p : ℕ)
        (at_p : IsAt x86 entries allocator source self w shape to 3 p)
        (still : source.Ready n w.frames) where
      frame_at_p : frame w to ≡ (
          if is_unused (w.memory p (page_index 1 to))
          then none
          else some (addr (w.memory p (page_index 1 to))))
      frame_at_p = rw (frame_of-descend x86 entries self w.memory to, at_p.reached)

      stays :
          is_unused (w.memory p (page_index 1 to)) ≡ false
          → map_entry x86 entries allocator self p from to flags w ≡ err (already_mapped to, w)
      unfolding map_entry
      stays u = ground (arith, u)

      writes :
          (e : Entry)
          → is_unused (w.memory p (page_index 1 to)) ≡ true
          → set_addr from flags ≡ some e
          → map_entry x86 entries allocator self p from to flags w
            ≡ ok (tt, record w { memory = set_entry x86 entries w.memory p (page_index 1 to) e })
      unfolding map_entry
      writes e u es = ground (arith, u, es)

      pub map_entry-Maps :
          Maps n w from to flags (map_entry x86 entries allocator self p from to flags w)
      map_entry-Maps = elim (Bool-cases (is_unused (w.memory p (page_index 1 to)))) [
        | inr u ↦ already (addr (w.memory p (page_index 1 to))) (rw u at frame_at_p) (stays u)
        | inl u ↦
            let (e, es, ea, ef, eu) = entry_fits in
            mapped (record w { memory = set_entry x86 entries w.memory p (page_index 1 to) e })
              shape (rw u at frame_at_p) (writes e u es)
              (record {
                tree =
                    written-IsTree x86 entries self h.direct w.memory shape at_p.sound.tree p to e m
                      at_p.reached;
                apart = at_p.sound.apart;
              })
              (λ b mb.
                frame_of-written x86 entries self h.direct w.memory shape at_p.sound.tree p to e m
                  at_p.reached b mb
                ∙ rw (eu, ea))
              (λ b mb.
                flags_of-written x86 entries self h.direct w.memory shape at_p.sound.tree p to e m
                  at_p.reached b mb
                ∙ rw (eu, ef))
              still
      ]

    -- A mapping on the tree that making tables left is one on the tree before.
    pub after_growing :
        (w w' : State) (r : Outcome (PagingError × State) (Unit {0} × State))
        → SamePages x86 entries allocator source self w w'
        → frame w to ≡ none
        → Maps n w' from to flags r
        → Maps n w from to flags r
    after_growing w w' r same free (mapped v shape e q sound f g still) =
        mapped v shape free q sound
          (λ b mb. f b mb ∙ ap (λ o. if same_page to b then some from else o) (same b mb).0)
          (λ b mb. g b mb ∙ ap (λ o. if same_page to b then some flags else o) (same b mb).1) still
    after_growing w w' r same free (already a e q) =
        absurd (
          let z = (same to m).0 in
          let y : none ≡ some a = sym free ∙ sym z ∙ e in ground (arith, y))
    after_growing w w' r same free (no_frame v shape e q sound s z) =
        no_frame v shape free q sound
          (then-SamePages x86 entries allocator source self w w' v same s) z
