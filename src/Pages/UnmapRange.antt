-- ===== src/Pages/UnmapRange.antt =====
-- `unmap_contiguous` of src/memory/paging/page_table.rs as a loop of `unmap` on a tree of tables.
use kermol.Common.{ℕ, zero, suc, ◌+◌, ◌*◌, ◌≤◌, ◌<◌, ◌≡◌, refl, sym, ◌∙◌, lt-or-le}
use kermol.Common.{true, false, Bool-cases, if◌then◌else◌, Option, some, none, arith, inl, inr}
use kermol.Common.{Outcome, ok, err, word, ◌>>=◌}
use native.Mathlib.Nat.{zero-add}
use kermol.X86.{X86, IsCanonical}
use kermol.Errors.{PagingError, not_mapped}
use kermol.Entries.{Entries}
use kermol.Pages.{Memory, RecursivePageTable, unmap, unmap_pages, unmap_contiguous}
use kermol.Pages.Tree.{IsMappable, Shape, IsDirectMap, IsTree, same_page, frame_of, flags_of}
use kermol.Pages.Leaf.{frame_of-same_page}
use kermol.Pages.Unmap.{Unmaps, unmapped, missing, unmap-Unmaps}

module _ (x86 : X86) (entries : Entries) (self : RecursivePageTable x86 entries) (to : ℕ) where
  abbrev Store : Type 0
  Store = Memory x86 entries

  abbrev frame : Store → ℕ → Option ℕ
  frame = frame_of x86 entries self

  abbrev flags_at : Store → ℕ → Option entries.Flags
  flags_at = flags_of x86 entries self

  abbrev Result : Type 0
  Result = Outcome (PagingError × Store) (Unit {0} × Store)

  -- Page `i` of the range.
  abbrev pub virt : ℕ → ℕ
  virt i = to + i * 4096

  -- The pages from `lo` up to `hi` were mapped and no longer are, and no other page has changed its
  -- frame or flags.
  pub record UnmapsPages (lo hi : ℕ) (w w' : Store) : Type 0 where
    pub used : (i : ℕ) → lo ≤ i → i < hi → (a : ℕ) × (frame w (virt i) ≡ some a)
    pub gone : (i : ℕ) → lo ≤ i → i < hi → frame w' (virt i) ≡ none
    pub kept :
        (b : ℕ)
        → IsMappable b
        → ((i : ℕ) → lo ≤ i → i < hi → same_page (virt i) b ≡ false)
        → (frame w' b ≡ frame w b) × (flags_at w' b ≡ flags_at w b)

  -- How the loop ends: with all pages unmapped, or at the first that was not mapped; the pages
  -- before it stay unmapped.
  pub data UnmapsRange (lo hi : ℕ) (w : Store) (shape : Shape) (r : Result) : Type 0 where
    all_unmapped :
        (w' : Store)
        → r ≡ ok (tt, w')
        → IsTree x86 entries self w' shape
        → UnmapsPages lo hi w w'
        → UnmapsRange lo hi w shape r
    stopped :
        (k : ℕ) (w' : Store)
        → lo ≤ k
        → k < hi
        → r ≡ err (not_mapped (virt k), w')
        → IsTree x86 entries self w' shape
        → UnmapsPages lo k w w'
        → frame w' (virt k) ≡ none
        → UnmapsRange lo hi w shape r

  -- The pages of a call for `count` pages.
  pub record IsPages (count : ℕ) : Type 0 where
    pub short : count * 4096 < word
    pub canonical : (i : ℕ) → i < count → IsCanonical (virt i)
    pub mappable : (i : ℕ) → i < count → IsMappable (virt i)

  -- One page, and the pages after it.
  module _ (d : IsDirectMap x86 entries self) (count : ℕ) (pages : IsPages count) (w w1 : Store)
      (shape : Shape) (t : IsTree x86 entries self w1 shape) (lo a : ℕ) (low : lo < count)
      (was_used : frame w (virt lo) ≡ some a)
      (frames : (b : ℕ)
        → IsMappable b
        → frame w1 b ≡ (if same_page (virt lo) b then none else frame w b))
      (new_flags : (b : ℕ)
        → IsMappable b
        → flags_at w1 b ≡ (if same_page (virt lo) b then none else flags_at w b)) where
    self_page : same_page (virt lo) (virt lo) ≡ true
    self_page = ground arith

    used_before : (b c : ℕ) → IsMappable b → frame w1 b ≡ some c → frame w b ≡ some c
    used_before b c m e = elim (Bool-cases (same_page (virt lo) b)) [
      | inr other ↦ sym (rw other at (frames b m)) ∙ e
      | inl same ↦ absurd (let z = sym (rw same at (frames b m)) ∙ e in ground (arith, z))
    ]

    first_gone : frame w1 (virt lo) ≡ none
    first_gone = rw self_page at (frames (virt lo) (pages.mappable lo low))

    other_page : (b c : ℕ) → frame w1 b ≡ some c → same_page b (virt lo) ≡ false
    other_page b c e = elim (Bool-cases (same_page b (virt lo))) [
      | inr other ↦ other
      | inl same ↦
          let one = frame_of-same_page x86 entries self d w1 shape t b (virt lo) same in
          absurd (let z = sym e ∙ one ∙ first_gone in ground (arith, z))
    ]

    unmaps-cons :
        (k : ℕ) (w' : Store)
        → suc lo ≤ k
        → k ≤ count
        → UnmapsPages (suc lo) k w1 w'
        → UnmapsPages lo k w w'
    unmaps-cons k w' some_page inside tail = record {
      used = λ i l u. elim (lt-or-le lo i) [
        | inl after ↦
            let (c, e) = tail.used i after u in
            (c, used_before (virt i) c (pages.mappable i (omega arith)) e)
        | inr here ↦ let e : i ≡ lo = omega arith in rw e (a, was_used)
      ];
      gone = λ i l u. elim (lt-or-le lo i) [
        | inl after ↦ tail.gone i after u
        | inr here ↦
            let e : i ≡ lo = omega arith in
            rw e (
              (tail.kept (virt lo) (pages.mappable lo low)
                (λ j lj uj. let (c, q) = tail.used j lj uj in other_page (virt j) c q)).0
              ∙ first_gone)
      ];
      kept = λ b mb none_of.
          let (f, g) = tail.kept b mb (λ j lj uj. none_of j (omega arith) uj) in
          let other = none_of lo (omega arith) some_page in
          (f ∙ rw other at (frames b mb), g ∙ rw other at (new_flags b mb));
    }

    cons-UnmapsRange :
        (r : Result) → UnmapsRange (suc lo) count w1 shape r → UnmapsRange lo count w shape r
    cons-UnmapsRange r (all_unmapped w' q t f) =
        all_unmapped w' q t (unmaps-cons count w' (omega arith) (omega arith) f)
    cons-UnmapsRange r (stopped k w' l u q t f why) =
        stopped k w' (omega arith) u q t (unmaps-cons k w' (omega arith) (omega arith) f) why

  nothing-UnmapsPages : (lo : ℕ) (w : Store) → UnmapsPages lo lo w w
  nothing-UnmapsPages lo w = record {
    used = λ i l u. absurd (omega arith);
    gone = λ i l u. absurd (omega arith);
    kept = λ b mb _. (refl, refl);
  }

  module _ (d : IsDirectMap x86 entries self) (count : ℕ) (pages : IsPages count)
      (shape : Shape) where
    -- The address of page `lo` is canonical.
    next_page :
        (rest lo : ℕ) (w : Store)
        → lo < count
        → unmap_pages x86 entries self (suc rest) (lo * 4096) to w
          ≡ unmap x86 entries self (virt lo) w >>= λ r.
              unmap_pages x86 entries self rest (suc lo * 4096) to r.1
    unfolding unmap_pages
    next_page rest lo w l =
        let next : lo * 4096 + 4096 ≡ suc lo * 4096 = omega arith in
        let at_virt = x86.virt_add-some to (lo * 4096) (pages.canonical lo l) in
        rw (at_virt, next) refl

    finish : (lo : ℕ) (w : Store) → unmap_pages x86 entries self 0 (lo * 4096) to w ≡ ok (tt, w)
    unfolding unmap_pages
    finish lo w = refl

    module _ (rest lo : ℕ) (low : lo < count) (w : Store)
        (t : IsTree x86 entries self w shape) where
      head-UnmapsRange :
          Unmaps x86 entries self d w shape t
            (virt lo)
            (pages.mappable lo low)
            (unmap x86 entries self (virt lo) w)
          → ((w1 : Store)
              → IsTree x86 entries self w1 shape
              → UnmapsRange
                  (suc lo)
                  count
                  w1
                  shape
                  (unmap_pages x86 entries self rest (suc lo * 4096) to w1))
          → UnmapsRange lo count w shape (unmap_pages x86 entries self (suc rest) (lo * 4096) to w)
      head-UnmapsRange (unmapped a w1 there q t1 f g) tail =
          rw (next_page rest lo w low, q)
            (cons-UnmapsRange d count pages w w1 shape t1 lo a low there f g _ (tail w1 t1))
      head-UnmapsRange (missing none_there q) tail =
          stopped lo w (omega arith) low (rw (next_page rest lo w low, q) refl) t
            (nothing-UnmapsPages lo w) none_there

    unmap_pages-UnmapsRange :
        (rest lo : ℕ) (w : Store)
        → lo + rest ≡ count
        → IsTree x86 entries self w shape
        → UnmapsRange lo count w shape (unmap_pages x86 entries self rest (lo * 4096) to w)
    unmap_pages-UnmapsRange zero lo w e t =
        let last : lo ≡ count = omega arith in
        rw last (all_unmapped w (finish count w) t (nothing-UnmapsPages count w))
    unmap_pages-UnmapsRange (suc rest) lo w e t =
        head-UnmapsRange rest lo (omega arith) w t
          (unmap-Unmaps x86 entries self d w shape t (virt lo) (pages.mappable lo (omega arith)))
          (λ w1 t1. unmap_pages-UnmapsRange rest (suc lo) w1 (omega arith) t1)

    no_overflow :
        (w : Store)
        → unmap_contiguous x86 entries self count to w ≡ unmap_pages x86 entries self count 0 to w
    unfolding unmap_contiguous
    no_overflow w = ground (arith, pages.short)

    -- On a tree of page tables, for a range of pages outside the recursive range whose addresses
    -- are valid, `unmap_contiguous` either unmaps every page, all of which were mapped; or stops at
    -- the first page that is not mapped by then, with an error that names it, and with the pages
    -- before it unmapped. No other page changes its frame or flags, and the tree stays.
    pub unmap_contiguous-UnmapsRange :
        (w : Store)
        → IsTree x86 entries self w shape
        → UnmapsRange 0 count w shape (unmap_contiguous x86 entries self count to w)
    unmap_contiguous-UnmapsRange w t =
        rw (no_overflow w) (unmap_pages-UnmapsRange count 0 w (zero-add count) t)
