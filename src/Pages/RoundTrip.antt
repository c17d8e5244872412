-- ===== src/Pages/RoundTrip.antt =====
-- `map` followed by `translate`, and `map` followed by `unmap`.
use kermol.Common.{
  ℕ, ◌+◌, ◌%◌, ◌≡◌, ◌∙◌, sym, subst, ap, true, Bool-cases, if◌then◌else◌, some, none, arith, inl,
  inr, ok,
}
use kermol.X86.{X86}
use kermol.Errors.{PagingError}
use kermol.Linear.{page_size}
use kermol.Entries.{Entries}
use kermol.Frames.{FrameAllocator, IsFrameSource}
use kermol.Pages.{RecursivePageTable, Memory, translate, unmap}
use kermol.Pages.Map.{map}
use kermol.Pages.Tree.{IsMappable, Shape, IsTree, same_page, frame_of}
use kermol.Pages.Translate.{add_offset, translate-frame_of}
use kermol.Pages.Leaf.{frame_of-same_page}
use kermol.Pages.Levels.{W, IsSound, IsReachable}
use kermol.Pages.Ending.{IsTarget, mapped, already, no_frame}
use kermol.Pages.Mapping.{map-Maps}
use kermol.Pages.Unmap.{unmapped, missing, unmap-Unmaps}

module _ (x86 : X86) (entries : Entries) {F : Type 0} (allocator : FrameAllocator F)
    (source : IsFrameSource allocator) (self : RecursivePageTable x86 entries)
    (h : IsReachable x86 entries allocator source self) (to : ℕ) (m : IsMappable to) (from : ℕ)
    (flags : entries.Flags) (g : IsTarget x86 entries allocator source self from flags)
    (w : W x86 entries allocator source self) (shape : Shape)
    (sound : IsSound x86 entries allocator source self w shape) (n : ℕ)
    (ready : source.Ready (3 + n) w.frames) where
  abbrev State : Type 0
  State = W x86 entries allocator source self

  -- What a normal return of `map` says: it is the first way in which `map` ends.
  pub record Mapped (w' : State) : Type 0 where
    pub shape' : Shape
    pub was_free : frame_of x86 entries self w.memory to ≡ none
    pub tree : IsTree x86 entries self w'.memory shape'
    pub frames :
        (b : ℕ)
        → IsMappable b
        → frame_of x86 entries self w'.memory b
          ≡ (if same_page to b then some from else frame_of x86 entries self w.memory b)

  pub map-Mapped :
      (w' : State) → map x86 entries allocator self from to flags w ≡ ok (tt, w') → Mapped w'
  map-Mapped w' r =
      elim (map-Maps x86 entries allocator source self h to m from flags g n w shape sound ready) [
        | already a e q ↦ absurd (let z = sym q ∙ r in ground (arith, z))
        | no_frame v s u q t f z ↦ absurd (let y = sym q ∙ r in ground (arith, y))
        | mapped v s u q t f g' still ↦
            let z = sym q ∙ r in
            let same : v ≡ w' = ground (arith, z) in
            subst (λ (u : State). Mapped u) same
              (record { shape' = s; was_free = u; tree = t.tree; frames = f })
      ]

  -- On a sound tree, after a normal return of `map` with a valid target, an address in the mapped
  -- page translates to the physical address that was given plus the offset in the page.
  pub translate-map :
      (w' : State) (at : ℕ)
      → map x86 entries allocator self from to flags w ≡ ok (tt, w')
      → IsMappable at
      → same_page to at ≡ true
      → translate x86 entries {E = PagingError} self w'.memory at
        ≡ ok (some (from + at % page_size))
  translate-map w' at r ma same =
      let k = map-Mapped w' r in
      translate-frame_of x86 entries self h.direct w'.memory k.shape' k.tree {E = PagingError} at ma
      ∙ ap (λ o. ok (add_offset at o)) (rw same at (k.frames at ma))

  -- On a sound tree, after a normal return of `map` with a valid target, `unmap` of the address
  -- succeeds, and every page has the frame that it had before `map`.
  pub unmap-map :
      (w' : State)
      → map x86 entries allocator self from to flags w ≡ ok (tt, w')
      → (memory : Memory x86 entries) × (unmap x86 entries self to w'.memory ≡ ok (tt, memory))
        × ((b : ℕ)
            → IsMappable b
            → frame_of x86 entries self memory b ≡ frame_of x86 entries self w.memory b)
  unmap-map w' r =
      let k = map-Mapped w' r in
      elim (unmap-Unmaps x86 entries self h.direct w'.memory k.shape' k.tree to m) [
        | missing none_there q ↦
            let self_page : same_page to to ≡ true = ground arith in
            absurd (let z = sym (rw self_page at (k.frames to m)) ∙ none_there in ground (arith, z))
        | unmapped a memory e q t' f' g' ↦ (
          memory,
          q,
          λ b mb. elim (Bool-cases (same_page to b)) [
            | inr other ↦ rw other at (f' b mb) ∙ rw other at (k.frames b mb)
            | inl same ↦
                rw same at (f' b mb)
                ∙ sym k.was_free
                ∙ frame_of-same_page x86 entries self h.direct w.memory shape sound.tree to b same
          ],
        )
      ]
