-- ===== src/Pages/Debug/Listing.antt =====
-- What the debug output of src/memory/paging/page_table.rs lists.
use mathlib.Core.List.{Memᴰ}
use mathlib.Core.List.Memᴰ
use kermol.Common.{ℕ, zero, suc, ◌+◌, ◌≤◌, ◌<◌, ◌≡◌, ◌≢◌, refl, ap, ◌∙◌, ◌⊎◌, inl, inr}
use kermol.Common.{false, [], some, word, arith, lt-or-le}
use kermol.Common.{ok, Call}
use kermol.X86.{X86, IsCanonical}
use kermol.Entries.{Entries}
use kermol.Pages.{RecursivePageTable, Memory, page_index, translate}
use kermol.Pages.Tree.{Shape, IsTree, IsDirectMap, IsRecursive, IsMappable, child}
use kermol.Pages.Debug.{Text, page_line, fmt, debug_recursive}
use kermol.Pages.Debug.Adds.{IsFormatter, Adds}
use kermol.Pages.Debug.Paths.{
  Lists, used_entry, find-Lists, Lists-find, translated, frame_of-translated,
}
use kermol.Pages.Translate.{translate-frame_of}
use kermol.Pages.Debug.Lines.{debug_page-Adds, debug_entries-Adds}

module _ (x86 : X86) (entries : Entries) where
  open entries use {Entry, is_unused, addr}

  module _ {F : Type 0} (write : Text Entry → Call F (Unit {0}) (Unit {0}))
      (formatter : IsFormatter write) (self : RecursivePageTable x86 entries)
      (memory : Memory x86 entries) where
    module _ (d : IsDirectMap x86 entries self) (shape : Shape)
        (t : IsTree x86 entries self memory shape) (r : IsRecursive x86 entries self memory)
        (small : self.lvl4 < word) where
      -- A table that is not too deep for its level, the level 4 table for one.
      abbrev Known : ℕ → ℕ → Type 0
      Known levels p =
          (shape.rank p + levels ≤ 4) × (0 < shape.rank p) × ((1 < shape.rank p) ⊎ (p ≡ self.lvl4))

      -- An entry of it leads to another, or back to the level 4 table.
      below-Known :
          (levels p j : ℕ)
          → Known (suc levels) p
          → j < 512
          → is_unused (memory p j) ≡ false
          → Known levels (child x86 entries self (memory p j))
            × (child x86 entries self (memory p j) < word)
      below-Known levels p j (deep, known, at) l used = elim at [
        | inl more ↦ linked (λ one. absurd (omega (arith, more, one)))
        | inr top ↦ elim (lt-or-le 510 j) [
          | inl more ↦ linked (λ one e. absurd (omega (arith, more, e)))
          | inr less ↦ elim (lt-or-le 509 j) [
            | inr few ↦ linked (λ one e. absurd (omega (arith, few, e)))
            | inl more ↦
                let last : j ≡ 510 = omega (arith, less, more) in
                let back : child x86 entries self (memory p j) ≡ self.lvl4 =
                  rw (top, last) r.self_frame in
                let one = t.root in
                let rank = ap shape.rank top in
                rw back ((omega (arith, one, rank, deep), omega (arith, one), inr refl), small)
          ]
        ]
      ]
        where
          linked :
              (shape.rank p ≡ 1 → j ≢ 510)
              → Known levels (child x86 entries self (memory p j))
                × (child x86 entries self (memory p j) < word)
          linked top =
              let (rank, place, small) = t.link p j known (omega (arith, deep)) l top used in
              (
                (omega (arith, rank, deep), omega (arith, rank), inl (omega (arith, rank, known))),
                small,
              )

      debug_recursive-Adds :
          (levels p : ℕ) (f : F)
          → Known levels p
          → Adds write formatter
              (Lists x86 entries self memory levels p)
              f
              (debug_recursive x86 entries write self memory levels p f)
      unfolding debug_recursive
      debug_recursive-Adds zero p f known =
          debug_page-Adds x86 entries write formatter self memory p f
      debug_recursive-Adds (suc levels) p f known =
          debug_entries-Adds x86 entries write formatter self memory d shape t
            (debug_recursive x86 entries write self memory levels) levels p
            (λ j l used.
              let (reached, fits) = below-Known levels p j known l used in
              (
                fits,
                (λ f. debug_recursive-Adds levels (child x86 entries self (memory p j)) f reached),
              ))
            f

      -- On a tree of page tables whose entry 510 leads back to the level 4 table, with a formatter
      -- that takes every text and has none, the debug output returns, and lists exactly the entries
      -- that addresses lead to through used entries, whether these are present or not: a line with
      -- an index and an entry is in it if and only if some canonical address has that index in its
      -- level 1 table and leads, through entry 510 too, to that used entry. For an address outside
      -- the recursive range, that entry is the one from which `translate` makes its result.
      pub fmt-Lists :
          (f : F)
          → formatter.texts f ≡ []
          → (f' : F) × (fmt x86 entries write self memory f ≡ ok (tt, f'))
            × ((to : ℕ) (e : Entry)
                → used_entry x86 entries self memory to ≡ some e
                → Memᴰ (page_line (page_index 1 to) e) (formatter.texts f'))
            × ((i : ℕ) (e : Entry)
                → Memᴰ (page_line i e) (formatter.texts f')
                → (to : ℕ) × IsCanonical to
                  × (page_index 1 to ≡ i)
                  × (used_entry x86 entries self memory to ≡ some e))
            × ((to : ℕ)
                → IsMappable to
                → translate x86 entries {E = Unit {0}} self memory to
                  ≡ ok (
                      translated x86 entries self memory to
                        (used_entry x86 entries self memory to)))
      unfolding fmt
      fmt-Lists f empty =
          let root = t.root in
          let adds =
            debug_recursive-Adds 3 self.lvl4 f
              (omega (arith, root), omega (arith, root), inr refl) in
          (
            adds.after,
            adds.returns,
            (λ to e found.
                adds.all (page_index 1 to) e
                  (find-Lists x86 entries self memory 3 0 self.lvl4 to e refl found)),
            (λ i e m. elim (adds.only i e m) [
              | inl old ↦ absurd (Memᴰ.not-nil (rw empty at old))
              | inr listed ↦ Lists-find x86 entries self memory self.lvl4 i e listed
            ]),
            (λ to m.
                translate-frame_of x86 entries self d memory shape t to m
                ∙ ap ok (frame_of-translated x86 entries self memory to)),
          )
