-- ===== src/Pages/MapRange.antt =====
-- `map_contiguous` of src/memory/paging/page_table.rs as a loop of `map` on a sound tree.
use kermol.Common.{ℕ, zero, suc, ◌+◌, ◌*◌, ◌%◌, ◌^◌, ◌<◌, ◌≡◌, ◌⊎◌, refl, sym, ◌∙◌}
use kermol.Common.{
  ◌≤◌, lt-or-le, true, false, Bool-cases, if◌then◌else◌, Option, some, none, arith, inl, inr,
}
use kermol.Common.{Outcome, ok, err, word, ◌>>=◌}
use native.Mathlib.Nat.{zero-add}
use kermol.X86.{X86, IsCanonical}
use kermol.Errors.{PagingError, already_mapped, table_allocation_failed}
use kermol.Entries.{Entries}
use kermol.Frames.{FrameAllocator, IsFrameSource, Refuses}
use kermol.Pages.{RecursivePageTable}
use kermol.Pages.Map.{map, map_pages, map_contiguous}
use kermol.Pages.Tree.{IsMappable, Shape, same_page, frame_of, flags_of}
use kermol.Pages.Leaf.{frame_of-same_page}
use kermol.Pages.Levels.{SamePages, W, IsSound, IsReachable}
use kermol.Pages.Ending.{IsTarget, Maps, mapped, already, no_frame}
use kermol.Pages.Mapping.{map-Maps}

module _ (x86 : X86) (entries : Entries) {F : Type 0} (allocator : FrameAllocator F)
    (source : IsFrameSource allocator) (self : RecursivePageTable x86 entries) (from to : ℕ)
    (flags : entries.Flags) where
  abbrev State : Type 0
  State = W x86 entries allocator source self

  abbrev frame : State → ℕ → Option ℕ
  frame w b = frame_of x86 entries self w.memory b

  abbrev flags_at : State → ℕ → Option entries.Flags
  flags_at w b = flags_of x86 entries self w.memory b

  -- Page `i` of the range, and its frame.
  abbrev pub virt : ℕ → ℕ
  virt i = to + i * 4096

  abbrev pub phys : ℕ → ℕ
  phys i = from + i * 4096

  -- The pages from `lo` up to `hi` were free and have got their frames and flags, and no other page has
  -- changed its own or its flags.
  pub record MapsPages (lo hi : ℕ) (w w' : State) : Type 0 where
    pub free : (i : ℕ) → lo ≤ i → i < hi → frame w (virt i) ≡ none
    pub placed : (i : ℕ) → lo ≤ i → i < hi → frame w' (virt i) ≡ some (phys i)
    pub flagged : (i : ℕ) → lo ≤ i → i < hi → flags_at w' (virt i) ≡ some flags
    pub kept :
        (b : ℕ)
        → IsMappable b
        → ((i : ℕ) → lo ≤ i → i < hi → same_page (virt i) b ≡ false)
        → (frame w' b ≡ frame w b) × (flags_at w' b ≡ flags_at w b)

  -- How the loop ends: with all pages mapped, or at the first that was mapped already or whose
  -- tables found no frame; the pages before it stay mapped.
  pub data MapsRange (n lo hi : ℕ) (w : State)
      (r : Outcome (PagingError × State) (Unit {0} × State)) : Type 0 where
    all_mapped :
        (w' : State) (shape : Shape)
        → r ≡ ok (tt, w')
        → IsSound x86 entries allocator source self w' shape
        → MapsPages lo hi w w'
        → source.Ready n w'.frames
        → MapsRange n lo hi w r
    stopped :
        (k : ℕ) (w' : State) (shape : Shape) (e : PagingError)
        → lo ≤ k
        → k < hi
        → r ≡ err (e, w')
        → IsSound x86 entries allocator source self w' shape
        → MapsPages lo k w w'
        → ((e ≡ already_mapped (virt k)) × ((a : ℕ) × (frame w' (virt k) ≡ some a)))
          ⊎ ((e ≡ table_allocation_failed) × Refuses source)
        → MapsRange n lo hi w r

  -- The pages and frames of a call for `count` pages.
  pub record IsRange (count : ℕ) : Type 0 where
    pub aligned : from % 4096 ≡ 0
    pub physical : from + count * 4096 < 2 ^ 52
    pub short : count * 4096 < word
    pub canonical : (i : ℕ) → i < count → IsCanonical (virt i)
    pub mappable : (i : ℕ) → i < count → IsMappable (virt i)
    pub here : entries.contains flags entries.present ≡ true

  -- One page, and the pages after it.
  module _ (h : IsReachable x86 entries allocator source self) (count : ℕ) (range : IsRange count)
      (w w1 : State) (shape : Shape) (sound : IsSound x86 entries allocator source self w1 shape)
      (lo : ℕ) (low : lo < count) (was_free : frame w (virt lo) ≡ none)
      (frames : (b : ℕ)
        → IsMappable b
        → frame w1 b ≡ (if same_page (virt lo) b then some (phys lo) else frame w b))
      (new_flags : (b : ℕ)
        → IsMappable b
        → flags_at w1 b ≡ (if same_page (virt lo) b then some flags else flags_at w b)) where
    self_page : same_page (virt lo) (virt lo) ≡ true
    self_page = ground arith

    head_placed : frame w1 (virt lo) ≡ some (phys lo)
    head_placed = rw self_page at (frames (virt lo) (range.mappable lo low))

    free_before :
        (b : ℕ)
        → IsMappable b
        → frame w1 b ≡ none
        → (same_page (virt lo) b ≡ false) × (frame w b ≡ none)
    free_before b m e = elim (Bool-cases (same_page (virt lo) b)) [
      | inr other ↦ (other, sym (rw other at (frames b m)) ∙ e)
      | inl same ↦ absurd (let z = sym (rw same at (frames b m)) ∙ e in ground (arith, z))
    ]

    other_page : (b : ℕ) → frame w1 b ≡ none → same_page b (virt lo) ≡ false
    other_page b e = elim (Bool-cases (same_page b (virt lo))) [
      | inr other ↦ other
      | inl same ↦
          let one =
            frame_of-same_page x86 entries self h.direct w1.memory shape sound.tree b (virt lo)
              same in
          absurd (let z = sym e ∙ one ∙ head_placed in ground (arith, z))
    ]

    head_flagged : flags_at w1 (virt lo) ≡ some flags
    head_flagged = rw self_page at (new_flags (virt lo) (range.mappable lo low))

    -- The pages after it are others.
    head_kept :
        (k : ℕ) (w' : State)
        → MapsPages (suc lo) k w1 w'
        → (frame w' (virt lo) ≡ frame w1 (virt lo))
          × (flags_at w' (virt lo) ≡ flags_at w1 (virt lo))
    head_kept k w' tail =
        tail.kept (virt lo) (range.mappable lo low)
          (λ j lj uj. other_page (virt j) (tail.free j lj uj))

    maps-cons :
        (k : ℕ) (w' : State)
        → suc lo ≤ k
        → k ≤ count
        → MapsPages (suc lo) k w1 w'
        → MapsPages lo k w w'
    maps-cons k w' some_page inside tail = record {
      free = λ i l u. elim (lt-or-le lo i) [
        | inl after ↦
            (free_before (virt i) (range.mappable i (omega arith)) (tail.free i after u)).1
        | inr here ↦ let e : i ≡ lo = omega arith in rw e was_free
      ];
      placed = λ i l u. elim (lt-or-le lo i) [
        | inl after ↦ tail.placed i after u
        | inr here ↦ let e : i ≡ lo = omega arith in rw e ((head_kept k w' tail).0 ∙ head_placed)
      ];
      flagged = λ i l u. elim (lt-or-le lo i) [
        | inl after ↦ tail.flagged i after u
        | inr here ↦ let e : i ≡ lo = omega arith in rw e ((head_kept k w' tail).1 ∙ head_flagged)
      ];
      kept = λ b mb none_of.
          let (f, g) = tail.kept b mb (λ j lj uj. none_of j (omega arith) uj) in
          let other = none_of lo (omega arith) some_page in
          (f ∙ rw other at (frames b mb), g ∙ rw other at (new_flags b mb));
    }

    cons-MapsRange :
        (n : ℕ) (r : Outcome (PagingError × State) (Unit {0} × State))
        → MapsRange n (suc lo) count w1 r
        → MapsRange n lo count w r
    cons-MapsRange n r (all_mapped w' s q t f still) =
        all_mapped w' s q t (maps-cons count w' (omega arith) (omega arith) f) still
    cons-MapsRange n r (stopped k' w' s e l u q t f why) =
        stopped k' w' s e (omega arith) u q t (maps-cons k' w' (omega arith) (omega arith) f) why

  nothing-MapsPages :
      (lo : ℕ) (w w' : State)
      → SamePages x86 entries allocator source self w w'
      → MapsPages lo lo w w'
  nothing-MapsPages lo w w' same = record {
    free = λ i l u. absurd (omega arith);
    placed = λ i l u. absurd (omega arith);
    flagged = λ i l u. absurd (omega arith);
    kept = λ b mb _. same b mb;
  }

  module _ (h : IsReachable x86 entries allocator source self) (count : ℕ)
      (range : IsRange count) where
    -- The addresses of page `lo` do not overflow.
    next_page :
        (rest lo : ℕ) (w : State)
        → lo < count
        → map_pages x86 entries allocator self (suc rest) (lo * 4096) from to flags w
          ≡ map x86 entries allocator self (phys lo) (virt lo) flags w >>= λ r.
              map_pages x86 entries allocator self rest (suc lo * 4096) from to flags r.1
    unfolding map_pages
    next_page rest lo w l =
        let next : lo * 4096 + 4096 ≡ suc lo * 4096 = omega arith in
        let at_phys = x86.phys_add-some from (lo * 4096) (omega (arith, range.physical)) in
        let at_virt = x86.virt_add-some to (lo * 4096) (range.canonical lo l) in
        rw (at_phys, at_virt, next) refl

    finish :
        (lo : ℕ) (w : State)
        → map_pages x86 entries allocator self 0 (lo * 4096) from to flags w ≡ ok (tt, w)
    unfolding map_pages
    finish lo w = refl

    target : (lo : ℕ) → lo < count → IsTarget x86 entries allocator source self (phys lo) flags
    target lo l = record {
      aligned = omega (arith, range.aligned);
      physical = omega (arith, range.physical);
      here = range.here;
    }

    module _ (n rest lo : ℕ) (low : lo < count) (w : State) where
      abbrev Run : Outcome (PagingError × State) (Unit {0} × State)
      Run = map_pages x86 entries allocator self (suc rest) (lo * 4096) from to flags w

      abbrev Tail : State → Outcome (PagingError × State) (Unit {0} × State)
      Tail w = map_pages x86 entries allocator self rest (suc lo * 4096) from to flags w

      head-MapsRange :
          Maps x86 entries allocator source self
            (rest * 3 + n)
            w
            (phys lo)
            (virt lo)
            flags
            (map x86 entries allocator self (phys lo) (virt lo) flags w)
          → ((w1 : State) (shape : Shape)
              → IsSound x86 entries allocator source self w1 shape
              → source.Ready (rest * 3 + n) w1.frames
              → MapsRange n (suc lo) count w1 (Tail w1))
          → (shape : Shape) → IsSound x86 entries allocator source self w shape
          → MapsRange n lo count w Run
      head-MapsRange (mapped w1 shape free q sound f g still) tail _ _ =
          rw (next_page rest lo w low, q)
            (cons-MapsRange h count range w w1 shape sound lo low free f g n (Tail w1)
              (tail w1 shape sound still))
      head-MapsRange (already a there q) tail shape sound =
          stopped lo w shape _ (omega arith) low (rw (next_page rest lo w low, q) refl) sound
            (nothing-MapsPages lo w w (λ b _. (refl, refl))) (inl (refl, (a, there)))
      head-MapsRange (no_frame w' shape free q sound same z) tail _ _ =
          stopped lo w' shape _ (omega arith) low (rw (next_page rest lo w low, q) refl) sound
            (nothing-MapsPages lo w w' same) (inr (refl, z))

    map_pages-MapsRange :
        (n rest lo : ℕ) (w : State) (shape : Shape)
        → lo + rest ≡ count
        → IsSound x86 entries allocator source self w shape
        → source.Ready (rest * 3 + n) w.frames
        → MapsRange n lo count w
            (map_pages x86 entries allocator self rest (lo * 4096) from to flags w)
    map_pages-MapsRange n zero lo w shape e sound ready =
        let last : lo ≡ count = omega arith in
        rw last (
          all_mapped w shape (finish count w) sound
            (nothing-MapsPages count w w (λ b _. (refl, refl))) (rw zero-add at ready))
    map_pages-MapsRange n (suc rest) lo w shape e sound ready =
        let calls : suc rest * 3 + n ≡ 3 + (rest * 3 + n) = omega arith in
        head-MapsRange n rest lo (omega arith) w
          (map-Maps x86 entries allocator source self h (virt lo) (range.mappable lo (omega arith))
            (phys lo) flags (target lo (omega arith)) (rest * 3 + n) w shape sound
            (rw calls at ready))
          (λ w1 s t r. map_pages-MapsRange n rest (suc lo) w1 s (omega arith) t r) shape sound

    no_overflow :
        (w : State)
        → map_contiguous x86 entries allocator self count from to flags w
          ≡ map_pages x86 entries allocator self count 0 from to flags w
    unfolding map_contiguous
    no_overflow w = ground (arith, range.short)

    -- On a sound tree, for a range of pages outside the recursive range whose addresses are valid,
    -- flags that contain `PRESENT`, and an allocator that returns three more times for each page,
    -- `map_contiguous` either maps every page, all of which were free, to its frame with the flags;
    -- or stops at the first page that is mapped by then or for whose tables the allocator refused a
    -- frame, with an error that says which, and with the pages before it mapped. No other page
    -- changes its frame or flags, and the tree stays sound.
    pub map_contiguous-MapsRange :
        (n : ℕ) (w : State) (shape : Shape)
        → IsSound x86 entries allocator source self w shape
        → source.Ready (count * 3 + n) w.frames
        → MapsRange n 0 count w (map_contiguous x86 entries allocator self count from to flags w)
    map_contiguous-MapsRange n w shape sound ready =
        rw (no_overflow w) (map_pages-MapsRange n count 0 w shape (zero-add count) sound ready)
