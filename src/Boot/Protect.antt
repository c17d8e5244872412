-- ===== src/Boot/Protect.antt =====
-- `remap_stack` of src/memory/paging/mod.rs on a tree of page tables.
use kermol.Common.{ℕ, zero, suc, ◌+◌, ◌-◌, ◌*◌, ◌/◌, ◌≤◌, ◌<◌, ◌≡◌, refl, sym, ◌∙◌, lt-or-le}
use kermol.Common.{true, false, Bool-cases, if◌then◌else◌, Option, some, none, arith, inl, inr}
use kermol.Common.{Outcome, ok, err, ◌>>=◌}
use kermol.X86.{X86, IsCanonical}
use kermol.Errors.{MemoryError, paging_error, not_mapped}
use kermol.Entries.{Entries, flags_rw}
use kermol.Pages.{RecursivePageTable, Memory, unmap, update_flags}
use kermol.Pages.Tree.{IsMappable, Shape, IsDirectMap, IsTree, same_page, frame_of, flags_of}
use kermol.Pages.Unmap.{Updates, updated, empty_entry, no_table, update_flags-Updates}
use kermol.Pages.Unmap.{Unmaps, unmapped, missing, unmap-Unmaps}
use kermol.Boot.{from_paging}
use kermol.Boot.Stack.{protect_pages, remap_stack, stack_size}

module _ (x86 : X86) (entries : Entries) (self : RecursivePageTable x86 entries)
    (d : IsDirectMap x86 entries self) (shape : Shape) where
  abbrev Store : Type 0
  Store = Memory x86 entries

  abbrev Result : Type 0
  Result = Outcome (MemoryError × Store) (Unit {0} × Store)

  abbrev frame : Store → ℕ → Option ℕ
  frame = frame_of x86 entries self

  abbrev flags : Store → ℕ → Option entries.Flags
  flags = flags_of x86 entries self

  -- No page changes its frame; a page in the range that is mapped has the stack's flags, and no
  -- other page changes its flags.
  pub record Protected (base lo hi : ℕ) (memory after : Store) : Type 0 where
    pub tree : IsTree x86 entries self after shape
    pub frames : (b : ℕ) → IsMappable b → frame after b ≡ frame memory b
    pub writable :
        (i a : ℕ)
        → lo ≤ i
        → i < hi
        → frame memory (base + i * 4096) ≡ some a
        → flags after (base + i * 4096) ≡ some (flags_rw entries)
    pub stays :
        (b : ℕ)
        → IsMappable b
        → flags memory b ≡ some (flags_rw entries)
        → flags after b ≡ some (flags_rw entries)
    pub others :
        (b : ℕ)
        → IsMappable b
        → ((i : ℕ) → lo ≤ i → i < hi → same_page (base + i * 4096) b ≡ false)
        → flags after b ≡ flags memory b

  -- How the loop ends.
  pub data Protects (base lo hi : ℕ) (memory : Store) (r : Result) : Type 0 where
    protected :
        (after : Store)
        → r ≡ ok (tt, after)
        → Protected base lo hi memory after
        → Protects base lo hi memory r
    page_missing :
        (k : ℕ) (after : Store)
        → lo ≤ k
        → k < hi
        → r ≡ err (paging_error (not_mapped (base + k * 4096)), after)
        → frame memory (base + k * 4096) ≡ none
        → Protected base lo k memory after
        → Protects base lo hi memory r

  nothing-Protected :
      (base lo : ℕ) (memory : Store)
      → IsTree x86 entries self memory shape
      → Protected base lo lo memory memory
  nothing-Protected base lo memory t = record {
    tree = t;
    frames = λ b m. refl;
    writable = λ i a l u e. absurd (omega arith);
    stays = λ b m e. e;
    others = λ b m n. refl;
  }

  module _ (base hi : ℕ) (mappable : (i : ℕ) → i < hi → IsMappable (base + i * 4096)) where
    module _ (memory m1 : Store) (lo : ℕ) (low : lo < hi)
        (same_frames : (b : ℕ) → IsMappable b → frame m1 b ≡ frame memory b)
        (here : (a : ℕ)
          → frame memory (base + lo * 4096) ≡ some a
          → flags m1 (base + lo * 4096) ≡ some (flags_rw entries))
        (kept : (b : ℕ)
          → IsMappable b
          → flags memory b ≡ some (flags_rw entries)
          → flags m1 b ≡ some (flags_rw entries))
        (apart : (b : ℕ)
          → IsMappable b
          → same_page (base + lo * 4096) b ≡ false
          → flags m1 b ≡ flags memory b) where
      cons-Protected :
          (k : ℕ) (after : Store)
          → suc lo ≤ k
          → k ≤ hi
          → Protected base (suc lo) k m1 after
          → Protected base lo k memory after
      cons-Protected k after some_page inside tail = record {
        tree = tail.tree;
        frames = λ b m. tail.frames b m ∙ same_frames b m;
        writable = λ i a l u e. elim (lt-or-le lo i) [
          | inl later ↦ tail.writable i a later u (same_frames _ (mappable i (omega arith)) ∙ e)
          | inr now ↦
              let one : i ≡ lo = omega arith in
              tail.stays (base + i * 4096) (mappable i (omega arith))
                (rw one (here a (rw one at e)))
        ];
        stays = λ b m e. tail.stays b m (kept b m e);
        others = λ b m n.
            tail.others b m (λ i l u. n i (omega arith) u)
            ∙ apart b m (n lo (omega arith) some_page);
      }

      cons-Protects : (r : Result) → Protects base (suc lo) hi m1 r → Protects base lo hi memory r
      cons-Protects r (protected after q p) =
          protected after q (cons-Protected hi after (omega arith) (omega arith) p)
      cons-Protects r (page_missing k after l u q none_there p) =
          page_missing k after (omega arith) u q (sym (same_frames _ (mappable k u)) ∙ none_there)
            (cons-Protected k after (omega arith) (omega arith) p)

    module _ (rest lo : ℕ) (low : lo < hi) (memory : Store)
        (t : IsTree x86 entries self memory shape) where
      abbrev at : ℕ
      at = base + lo * 4096

      abbrev tail : Store → Result
      tail m = protect_pages x86 entries rest (base + suc lo * 4096) self m

      next_round :
          protect_pages x86 entries (suc rest) at self memory
          ≡ from_paging (update_flags x86 entries self at (flags_rw entries) memory) >>= λ r.
              tail r.1
      unfolding protect_pages
      next_round =
          let next : base + lo * 4096 + 4096 ≡ base + suc lo * 4096 = omega arith in rw next refl

      self_page : same_page at at ≡ true
      self_page = ground arith

      head-Protects :
          Updates x86 entries self d memory shape t at
            (mappable lo low)
            (flags_rw entries)
            (update_flags x86 entries self at (flags_rw entries) memory)
          → ((m1 : Store)
              → IsTree x86 entries self m1 shape
              → Protects base (suc lo) hi m1 (tail m1))
          → Protects base lo hi memory (protect_pages x86 entries (suc rest) at self memory)
      head-Protects (no_table e none_there q) later =
          rw (next_round, q)
            (cons-Protects memory memory lo low (λ b m. refl)
              (λ a e. absurd (let z = sym none_there ∙ e in ground (arith, z))) (λ b m e. e)
              (λ b m n. refl) _ (later memory t))
      head-Protects (empty_entry p e none_there q) later =
          page_missing lo memory (omega arith) low (rw (next_round, q) refl) none_there
            (nothing-Protected base lo memory t)
      head-Protects (updated p after e used q t1 new same) later =
          rw (next_round, q)
            (cons-Protects memory after lo low same
              (λ a e. rw self_page at (new at (mappable lo low)))
              (λ b m e. elim (Bool-cases (same_page at b)) [
                | inl one ↦ rw one at (new b m)
                | inr other ↦ rw other at (new b m) ∙ e
              ])
              (λ b m n. rw n at (new b m)) _ (later after t1))

    present : entries.contains (flags_rw entries) entries.present ≡ true
    present =
        entries.contains-union_left (entries.union entries.writable entries.present)
          entries.no_execute entries.present
          (entries.contains-union_right entries.writable entries.present entries.present
            (entries.contains_self entries.present))

    finish : (page : ℕ) (m : Store) → protect_pages x86 entries 0 page self m ≡ ok (tt, m)
    unfolding protect_pages
    finish page m = refl

    protect_pages-Protects :
        (rest lo : ℕ) (memory : Store)
        → lo + rest ≡ hi
        → IsTree x86 entries self memory shape
        → Protects base lo hi memory (protect_pages x86 entries rest (base + lo * 4096) self memory)
    protect_pages-Protects zero lo memory e t =
        let last : lo ≡ hi = omega arith in
        rw last
          (protected memory (finish (base + hi * 4096) memory) (nothing-Protected base hi memory t))
    protect_pages-Protects (suc rest) lo memory e t =
        head-Protects rest lo (omega arith) memory t
          (update_flags-Updates x86 entries self d memory shape t (base + lo * 4096)
            (mappable lo (omega arith)) (flags_rw entries) present)
          (λ m1 t1. protect_pages-Protects rest (suc lo) m1 (omega arith) t1)

  module _ (sp : ℕ) where
    abbrev pub stack_top : ℕ
    stack_top = sp + 16

    abbrev pub stack_bottom : ℕ
    stack_bottom = stack_top - stack_size

    -- The addresses of a stack that ends at `stack_top`.
    pub record IsStack : Type 0 where
      pub high : stack_size ≤ stack_top
      pub top_canonical : IsCanonical stack_top
      pub bottom_canonical : IsCanonical stack_bottom
      pub top_mappable : IsMappable stack_top
      pub mappable : (i : ℕ) → i < 16 → IsMappable (stack_bottom + i * 4096)

    -- How `remap_stack` ends: the page at the top was not mapped, and nothing changed; or that page
    -- is unmapped, and the sixteen pages below the top are protected, or those before the first
    -- that is not mapped.
    pub data Remaps (memory : Store) (r : Result) : Type 0 where
      no_guard :
          frame memory stack_top ≡ none
          → r ≡ err (paging_error (not_mapped stack_top), memory)
          → Remaps memory r
      guarded :
          (a : ℕ) (between : Store)
          → frame memory stack_top ≡ some a
          → ((b : ℕ)
              → IsMappable b
              → frame between b ≡ (if same_page stack_top b then none else frame memory b))
          → ((b : ℕ)
              → IsMappable b
              → flags between b ≡ (if same_page stack_top b then none else flags memory b))
          → Protects stack_bottom 0 16 between r
          → Remaps memory r

    module _ (s : IsStack) (memory : Store) (t : IsTree x86 entries self memory shape) where
      sixteen : (stack_top - stack_bottom + 4095) / 4096 ≡ 16
      sixteen = omega (arith, s.high)

      after_unmap :
          remap_stack x86 entries sp self memory
          ≡ from_paging (unmap x86 entries self stack_top memory) >>= λ r.
              protect_pages x86 entries 16 stack_bottom self r.1
      unfolding remap_stack
      after_unmap =
          let at_top = x86.virt_add-some sp 16 s.top_canonical in
          let at_bottom = x86.virt_sub-some stack_top stack_size s.high s.bottom_canonical in
          rw (at_top, at_bottom, sixteen) refl

      unmapped-Remaps :
          Unmaps x86 entries self d memory shape t stack_top s.top_mappable
            (unmap x86 entries self stack_top memory)
          → Remaps memory (remap_stack x86 entries sp self memory)
      unmapped-Remaps (missing none_there q) = no_guard none_there (rw (after_unmap, q) refl)
      unmapped-Remaps (unmapped a between there q t1 f g) =
          let first : stack_bottom + 0 * 4096 ≡ stack_bottom = omega arith in
          guarded a between there f g (
            rw (after_unmap, q)
              (rw first at
                (protect_pages-Protects stack_bottom 16 s.mappable 16 0 between refl t1)))

      -- On a tree of page tables, for a stack whose pages lie outside the recursive range at
      -- canonical addresses, `remap_stack` either finds the page at the stack's top not mapped,
      -- says so and changes nothing; or unmaps that page and no other, and then gives `flags_rw` to
      -- the sixteen pages below the top, those of them that are mapped; it may stop with an error
      -- at one that is not mapped, after the ones before it. This changes no frame, no flags of
      -- another page and not the tree.
      pub remap_stack-Remaps : Remaps memory (remap_stack x86 entries sp self memory)
      remap_stack-Remaps =
          unmapped-Remaps (unmap-Unmaps x86 entries self d memory shape t stack_top s.top_mappable)
