-- ===== src/Pages/Root.antt =====
-- `RecursivePageTable::new` of src/memory/paging/page_table.rs and the tree that it starts.
use kermol.Common.{ℕ, suc, ◌+◌, ◌*◌, ◌/◌, ◌%◌, ◌≤◌, ◌<◌, ◌≡◌, ◌≢◌, refl, ◌^◌}
use kermol.Common.{true, false, if◌then◌else◌, Bool-cases, ◌==◌, none, some, arith, inl, inr}
use kermol.Common.{==→≡, word, Outcome, ok, err, panic, unwrap_failed}
use kermol.X86.{X86}
use kermol.Errors.{MemoryError, PagingError}
use kermol.Entries.{Entries, flags_rw}
use kermol.Frames.{FrameAllocator, IsFrameSource, Refuses}
use kermol.Pages.{page_index, Memory, RecursivePageTable, set_entry, set_table, empty_table}
use kermol.Pages.Map.{World, new}
use kermol.Pages.Tree.{IsMappable, Shape, frame_of, find}
use kermol.Pages.Levels.{IsSound, IsReachable}

module _ (x86 : X86) (entries : Entries) {F : Type 0} (allocator : FrameAllocator F)
    (source : IsFrameSource allocator) (offset : ℕ) where
  open entries use {Entry, unused, is_unused, addr, set_addr}

  abbrev State : Type 0
  State = World x86 entries allocator

  abbrev Table : Type 0
  Table = RecursivePageTable x86 entries

  -- How `new` ends: with a page table in which no page is mapped, or in the `unwrap` of a refused
  -- frame.
  pub data Starts (n : ℕ) (r : Outcome (PagingError × State) (Table × State)) : Type 0 where
    started :
        (self : Table) (w' : State) (shape : Shape)
        → r ≡ ok (self, w')
        → IsReachable x86 entries allocator source self
        → IsSound x86 entries allocator source self w' shape
        → ((b : ℕ) → IsMappable b → frame_of x86 entries self w'.memory b ≡ none)
        → source.Ready n w'.frames
        → Starts n r
    refused : r ≡ panic unwrap_failed → Refuses source → Starts n r

  module _ (aligned : offset % 4096 ≡ 0) (upper : 2 ^ 64 ≤ offset + 2 ^ 47)
      (inside : source.top + offset ≤ word) (w : State) (n : ℕ)
      (ready : source.Ready (suc n) w.frames) where
    module _ (a : ℕ) (f' : F) (r : allocator.alloc w.frames ≡ ok (a, f')) (e : Entry)
        (es : set_addr a (flags_rw entries) ≡ some e) where
      abbrev pub self : Table
      self = record { lvl4 = a + offset; internal_offset = offset }

      abbrev memory : Memory x86 entries
      memory =
          set_entry x86 entries
            (set_table x86 entries w.memory (a + offset) (empty_table x86 entries)) (a + offset) 510
            e

      abbrev pub after : State
      after = record { memory = memory; frames = f' }

      abbrev pub shape : Shape
      shape = record { rank = λ p. if p == a + offset then 1 else 0; place = λ p. 0 }

      returns : new x86 entries allocator {E = PagingError} offset w ≡ ok (self, after)
      unfolding new
      returns =
          let (_, whole, low, _, _) = source.alloc_fresh n w.frames ready a f' r in
          let at_page : a / 4096 * 4096 ≡ a = omega (arith, whole) in
          let page : (a + offset) % 4096 ≡ 0 = omega (arith, whole) in
          let base = x86.virt_new-some a (inl (omega (arith, low))) in
          let at = x86.virt_add-some a offset (inr (omega arith, omega (arith, low))) in
          ground (arith, r, base, at, at_page, page, es)

      root_self : (a + offset == a + offset) ≡ true
      root_self = ground arith

      empty : (i : ℕ) → i ≢ 510 → is_unused (memory (a + offset) i) ≡ true
      empty i ne =
          let other : (i == 510) ≡ false = ground (arith, ne) in
          rw (root_self, other) entries.unused-is_unused

      only_root :
          (p i : ℕ)
          → 0 < shape.rank p
          → (shape.rank p ≡ 1 → i ≢ 510)
          → is_unused (memory p i) ≡ true
      only_root p i some_rank top = elim (Bool-cases (p == a + offset)) [
        | inr other ↦ absurd (omega (arith, rw other at some_rank))
        | inl root ↦ rw (==→≡ p (a + offset) root) (empty i (top (rw root refl)))
      ]

      pub sound : IsSound x86 entries allocator source self after shape
      sound = record {
        tree = record {
          root = rw root_self refl;
          root_place = refl;
          link = λ p i some_rank high i_low top used.
              absurd (let z = only_root p i some_rank top in cc);
        };
        apart = λ b avail.
            let (_, _, _, gone, _) = source.alloc_fresh n w.frames ready a f' r in
            elim (Bool-cases (b + offset == a + offset)) [
              | inr other ↦ rw other refl
              | inl one ↦
                  let e : b + offset ≡ a + offset = ==→≡ (b + offset) (a + offset) one in
                  let same_frame : b ≡ a = omega arith in absurd (gone (rw same_frame at avail))
            ];
      }

      pub nothing : (b : ℕ) → IsMappable b → frame_of x86 entries self memory b ≡ none
      unfolding frame_of find
      nothing b mb = rw (empty (page_index 4 b) mb)

    refuses :
        (e : MemoryError) (f' : F)
        → allocator.alloc w.frames ≡ err (e, f')
        → new x86 entries allocator {E = PagingError} offset w ≡ panic unwrap_failed
    unfolding new
    refuses e f' r = rw r

    -- With a direct map in the upper half that reaches the frames of an allocator that returns at
    -- least once more, `new` either returns a page table whose tree is sound and in which no page
    -- outside the recursive range is mapped, or panics because the allocator refused a frame.
    pub new-Starts : Starts n (new x86 entries allocator offset w)
    new-Starts = elim (source.alloc_returns n w.frames ready) [
      | inr (e, f', r, _, _) ↦ refused (refuses e f' r) (n, w.frames, ready, e, f', r)
      | inl (a, f', r, still) ↦
          let (_, whole, low, _, _) = source.alloc_fresh n w.frames ready a f' r in
          let (e, es, _, _, _) =
            entries.set_addr-some a (flags_rw entries) whole (omega (arith, low, source.top-le)) in
          started (self a f' r e es) (after a f' r e es) (shape a f' r e es) (returns a f' r e es)
            (record { direct = record { aligned = aligned; upper = upper }; inside = inside })
            (sound a f' r e es) (nothing a f' r e es) still
    ]
