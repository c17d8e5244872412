-- ===== src/Pages/Refine.antt =====
-- The page tables as an implementation of an abstract address space, a function from pages to
-- frames: sequences of `map`, `unmap` and `translate` of src/memory/paging/page_table.rs.
use kermol.Common.{ℕ, ◌+◌, ◌*◌, ◌≡◌, refl, sym, ◌∙◌, ap, Option, some, none, ◌==◌}
use kermol.Common.{if◌then◌else◌, Bool-cases, true, false, arith, inl, inr, List, [], ◌∷◌, length}
use kermol.Common.{Outcome, ok, err, panic, out_of_fuel, ◌>>=◌, All, ==→≡, ==→≢}
use kermol.X86.{X86}
use kermol.Errors.{PagingError, attempted_mapping_to_reserved, already_mapped, not_mapped}
use kermol.Entries.{Entries}
use kermol.Frames.{FrameAllocator, IsFrameSource, Refuses, fewer_many}
use kermol.Pages.{RecursivePageTable, translate, unmap, page_index}
use kermol.Pages.Map.{map}
use kermol.Pages.Tree.{IsMappable, Shape, same_page, frame_of}
use kermol.Pages.Translate.{add_offset, translate-frame_of}
use kermol.Pages.Levels.{W, IsSound, IsReachable}
use kermol.Pages.Ending.{IsTarget, Maps, mapped, already, no_frame}
use kermol.Pages.Mapping.{map-Maps, map_reserved}
use kermol.Pages.Unmap.{Unmaps, unmapped, missing, unmap-Unmaps}

-- What a call tells its caller.
pub data Answer : Type 0 where
  done : Answer
  failed : PagingError → Answer
  address : Option ℕ → Answer

-- The abstract view: the frame of each page, and no table.
abbrev pub Space : Type 0
Space = ℕ → Option ℕ

module _ (x86 : X86) (entries : Entries) {F : Type 0} (allocator : FrameAllocator F)
    (source : IsFrameSource allocator) (self : RecursivePageTable x86 entries) where
  abbrev State : Type 0
  State = W x86 entries allocator source self

  pub data Command : Type 0 where
    map_page : ℕ → ℕ → entries.Flags → Command
    unmap_page translate_page : ℕ → Command

  -- The abstract machine.
  abbrev pub spec : Command → Space → Answer × Space
  spec (map_page from to flags) s =
      if page_index 4 to == 510
      then (failed (attempted_mapping_to_reserved to), s)
      else elim (s to) [
        | none ↦ (done, λ b. if same_page to b then some from else s b)
        | some a ↦ (failed (already_mapped to), s)
      ]
  spec (unmap_page to) s = elim (s to) [
    | none ↦ (failed (not_mapped to), s)
    | some a ↦ (done, λ b. if same_page to b then none else s b)
  ]
  spec (translate_page at) s = (address (add_offset at (s at)), s)

  abbrev pub run_spec : List Command → Space → List Answer × Space
  run_spec [] s = ([], s)
  run_spec (c ∷ cs) s =
      let (a, s) = spec c s in let (answers, s) = run_spec cs s in (a ∷ answers, s)

  -- The kernel's calls, an error being an answer too.
  abbrev answer :
      Outcome (PagingError × State) (Unit {0} × State) → Outcome PagingError (Answer × State)
  answer (ok (_, w)) = ok (done, w)
  answer (err (e, w)) = ok (failed e, w)
  answer (panic p) = panic p
  answer out_of_fuel = out_of_fuel

  abbrev pub exec : Command → State → Outcome PagingError (Answer × State)
  exec (map_page from to flags) w = answer (map x86 entries allocator self from to flags w)
  exec (unmap_page to) w = elim (unmap x86 entries self to w.memory) [
    | ok (_, memory) ↦ ok (done, record w { memory = memory })
    | err (e, memory) ↦ ok (failed e, record w { memory = memory })
    | panic p ↦ panic p
    | out_of_fuel ↦ out_of_fuel
  ]
  exec (translate_page at) w = do at ← translate x86 entries self w.memory at; ok (address at, w)

  abbrev pub run : List Command → State → Outcome PagingError (List Answer × State)
  run [] w = ok ([], w)
  run (c ∷ cs) w = do (a, w) ← exec c w; (answers, w) ← run cs w; ok (a ∷ answers, w)

  -- A command that the kernel may give.
  abbrev pub IsAllowed : Command → Type 0
  IsAllowed (map_page from to flags) = IsTarget x86 entries allocator source self from flags
  IsAllowed (unmap_page to) = IsMappable to
  IsAllowed (translate_page at) = IsMappable at

  -- The tables hold the abstract space.
  pub record Holds (w : State) (s : Space) : Type 0 where
    pub shape : Shape
    pub sound : IsSound x86 entries allocator source self w shape
    pub agree : (b : ℕ) → IsMappable b → frame_of x86 entries self w.memory b ≡ s b

  -- A call that answers as the abstract machine does, and leaves tables that hold its space.
  abbrev Follows : ℕ → Command → State → Space → Type 0
  Follows n c w s =
      (w' : State) × (exec c w ≡ ok ((spec c s).0, w'))
      × Holds w' (spec c s).1
      × source.Ready n w'.frames

  module _ (h : IsReachable x86 entries allocator source self) (total : ¬ Refuses source) (n : ℕ)
      (w : State) (s : Space) (holds : Holds w s) (ready : source.Ready (3 + n) w.frames) where
    translate-Follows : (at : ℕ) → IsMappable at → Follows n (translate_page at) w s
    translate-Follows at m =
        let q =
          translate-frame_of x86 entries self h.direct w.memory holds.shape holds.sound.tree
            {E = PagingError} at m in
        (w, rw (q, holds.agree at m) refl, holds, fewer_many source 3 n w.frames ready)

    Unmaps-Follows :
        (to : ℕ) (m : IsMappable to)
        → Unmaps x86 entries self h.direct w.memory holds.shape holds.sound.tree to m
            (unmap x86 entries self to w.memory)
        → Follows n (unmap_page to) w s
    Unmaps-Follows to m (missing free q) =
        let none_there : s to ≡ none = sym (holds.agree to m) ∙ free in
        rw (none_there, spec) (w, rw (q, exec) refl, holds, fewer_many source 3 n w.frames ready)
    Unmaps-Follows to m (unmapped a memory there q t f g) =
        let some_there : s to ≡ some a = sym (holds.agree to m) ∙ there in
        rw (some_there, spec)
          (
            record w { memory = memory },
            rw (q, exec) refl,
            record {
              shape = holds.shape;
              sound = record { tree = t; apart = holds.sound.apart };
              agree =
                  λ b mb. f b mb ∙ ap (λ o. if same_page to b then none else o) (holds.agree b mb);
            },
            fewer_many source 3 n w.frames ready,
          )

    unmap-Follows : (to : ℕ) → IsMappable to → Follows n (unmap_page to) w s
    unmap-Follows to m =
        Unmaps-Follows to m
          (unmap-Unmaps x86 entries self h.direct w.memory holds.shape holds.sound.tree to m)

    module _ (from to : ℕ) (flags : entries.Flags)
        (g : IsTarget x86 entries allocator source self from flags) where
      reserved-Follows : page_index 4 to ≡ 510 → Follows n (map_page from to flags) w s
      reserved-Follows e =
          let test : (page_index 4 to == 510) ≡ true = ground (arith, e) in
          let q = map_reserved x86 entries allocator source self from to flags w e in
          rw test (w, rw q refl, holds, fewer_many source 3 n w.frames ready)

      Maps-Follows :
          (m : IsMappable to)
          → Maps x86 entries allocator source self n w from to flags
              (map x86 entries allocator self from to flags w)
          → Follows n (map_page from to flags) w s
      Maps-Follows m (no_frame w' shape free q sound f refused) = absurd (total refused)
      Maps-Follows m (already a there q) =
          let test : (page_index 4 to == 510) ≡ false = ground (arith, m) in
          let some_there : s to ≡ some a = sym (holds.agree to m) ∙ there in
          rw (test, some_there) (w, rw q refl, holds, fewer_many source 3 n w.frames ready)
      Maps-Follows m (mapped w' shape free q sound f g' still) =
          let test : (page_index 4 to == 510) ≡ false = ground (arith, m) in
          let none_there : s to ≡ none = sym (holds.agree to m) ∙ free in
          rw (test, none_there)
            (
              w',
              rw q refl,
              record {
                shape = shape;
                sound = sound;
                agree = λ b mb.
                    f b mb ∙ ap (λ o. if same_page to b then some from else o) (holds.agree b mb);
              },
              still,
            )

      map-Follows : Follows n (map_page from to flags) w s
      map-Follows = elim (Bool-cases (page_index 4 to == 510)) [
        | inl e ↦ reserved-Follows (==→≡ _ _ e)
        | inr e ↦ Maps-Follows (==→≢ _ _ e) (
            map-Maps x86 entries allocator source self h to (==→≢ _ _ e) from flags g n w
              holds.shape holds.sound ready)
      ]

    exec-Follows : (c : Command) → IsAllowed c → Follows n c w s
    exec-Follows (map_page from to flags) a = map-Follows from to flags a
    exec-Follows (unmap_page to) a = unmap-Follows to a
    exec-Follows (translate_page at) a = translate-Follows at a

  -- With tables that hold an abstract space (a function from pages to frames), frames that the
  -- direct map reaches, an allocator that never refuses and returns three more times for each
  -- command, a sequence of `map`, `unmap` and `translate` commands, where `map` gets a valid target
  -- and the other two get addresses outside the recursive range, runs without a panic and gives the
  -- answers, errors included, that the abstract space gives, and the tables then hold the space
  -- that it became.
  pub run-run_spec :
      IsReachable x86 entries allocator source self
      → ¬ Refuses source
      → (cs : List Command) → All IsAllowed cs
      → (w : State) (s : Space) → Holds w s
      → source.Ready (3 * length cs) w.frames
      → (w' : State) × (run cs w ≡ ok ((run_spec cs s).0, w')) × Holds w' (run_spec cs s).1
  run-run_spec h total [] a w s holds ready = (w, refl, holds)
  run-run_spec h total (c ∷ cs) (a, rest) w s holds ready =
      let calls : 3 * length (c ∷ cs) ≡ 3 + 3 * length cs = omega arith in
      let (w', e, holds', still) =
        exec-Follows h total (3 * length cs) w s holds (rw calls at ready) c a in
      let (w'', es, holds'') = run-run_spec h total cs rest w' (spec c s).1 holds' still in
      (w'', rw (e, es) refl, holds'')
