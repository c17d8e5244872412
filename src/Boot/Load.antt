-- ===== src/Boot/Load.antt =====
-- The pointer to the level 4 table after `load` of src/memory/paging/page_table.rs.
use kermol.Common.{ℕ, ◌+◌, ◌-◌, ◌<◌, suc, ◌≡◌, ◌≢◌, refl, sym, ◌∙◌, ap, false, Bool-cases}
use kermol.Common.{some, arith, inl, inr, ok}
use kermol.X86.{X86}
use kermol.Errors.{PagingError}
use kermol.Entries.{Entries}
use kermol.Pages.{RecursivePageTable, Memory}
use kermol.Pages.Tree.{Shape, IsTree, IsRecursive, child, frame_of, find}
use kermol.Boot.Paging.{load, level4}

-- The address whose four indices are all 510.
abbrev pub recursive : ℕ
recursive = 0xFFFFFF7FBFDFE000

module _ (x86 : X86) (entries : Entries) (self : RecursivePageTable x86 entries)
    (memory : Memory x86 entries) (shape : Shape) (t : IsTree x86 entries self memory shape) where
  open entries use {Entry, is_unused, addr}

  module _ (r : IsRecursive x86 entries self memory) where
    abbrev top : Entry
    top = memory self.lvl4 511

    back : child x86 entries self (memory self.lvl4 510) ≡ self.lvl4
    back = r.self_frame

    -- What the last three steps of the walk for `level4` find.
    seen :
        frame_of x86 entries self memory level4
        ≡ find x86 entries self addr memory 2 1 self.lvl4 level4
    unfolding frame_of find
    seen = rw (r.used, back) refl

    all_back : frame_of x86 entries self memory recursive ≡ some (addr (memory self.lvl4 510))
    unfolding frame_of find
    all_back = rw (r.used, back, r.used, back, r.used, back, r.used) refl

    step :
        (p k : ℕ)
        → shape.rank p ≡ k
        → 0 < k
        → k < 4
        → is_unused (memory p 511) ≡ false
        → shape.rank (child x86 entries self (memory p 511)) ≡ suc k
    step p k e l u used =
        let (rank, _, _) =
          t.link p 511 (omega (arith, e)) (omega (arith, e)) (omega arith) (λ _ z. omega (arith, z))
            used in
        rank ∙ ap suc e

    abbrev next : ℕ → ℕ
    next p = child x86 entries self (memory p 511)

    -- The frame that `level4` is mapped to is that of a level 1 table.
    seen_rank :
        (a : ℕ)
        → find x86 entries self addr memory 2 1 self.lvl4 level4 ≡ some a
        → shape.rank (a + self.internal_offset) ≡ 4
    unfolding find
    seen_rank a e = elim (Bool-cases (is_unused (memory self.lvl4 511))) [
      | inl gone ↦ absurd (let z = rw gone at e in ground (arith, z))
      | inr first ↦
          let one = step self.lvl4 1 t.root (omega arith) (omega arith) first in
          elim (Bool-cases (is_unused (memory (next self.lvl4) 511))) [
            | inl gone ↦ absurd (let z = rw (first, gone) at e in ground (arith, z))
            | inr second ↦
                let two = step (next self.lvl4) 2 one (omega arith) (omega arith) second in
                elim (Bool-cases (is_unused (memory (next (next self.lvl4)) 511))) [
                  | inl gone ↦ absurd (let z = rw (first, second, gone) at e in ground (arith, z))
                  | inr third ↦
                      let found = rw (first, second, third) at e in
                      let same : addr (memory (next (next self.lvl4)) 511) ≡ a =
                        ground (arith, found) in
                      rw same at
                        (step (next (next self.lvl4)) 3 two (omega arith) (omega arith) third)
                ]
          ]
    ]

    other_frame :
        (a : ℕ)
        → frame_of x86 entries self memory level4 ≡ some a
        → a + self.internal_offset ≢ self.lvl4
    other_frame a e same =
        let four = rw same at (seen_rank a (sym seen ∙ e)) in absurd (omega (arith, four, t.root))

    abbrev frame : ℕ
    frame = addr (memory self.lvl4 510)

    -- On a tree of page tables whose entry 510 leads back to the level 4 table, `load` writes the
    -- frame of that table to CR3 and points `lvl4` at the constant `LEVEL4`; no walk of the tables
    -- for that constant ends at the frame of the level 4 table, while the address whose four
    -- indices are all 510 is mapped to it.
    pub load_lem :
        (load x86 entries {E = PagingError} self ≡ ok (frame, record self { lvl4 = level4 }))
        × (frame + self.internal_offset ≡ self.lvl4)
        × ((a : ℕ) → frame_of x86 entries self memory level4 ≡ some a → a ≢ frame)
        × (frame_of x86 entries self memory recursive ≡ some frame)
    unfolding load
    load_lem =
        let at : self.lvl4 - self.internal_offset ≡ frame = omega (arith, r.self_frame) in
        let small = entries.addr-lt (memory self.lvl4 510) in
        let whole = entries.addr_aligned (memory self.lvl4 510) in
        let fits = x86.phys_new-some frame small in
        (
          ground (arith, at, fits, whole, r.self_frame),
          r.self_frame,
          (λ a e same.
              other_frame a e (ap (λ (x : ℕ). x + self.internal_offset) same ∙ r.self_frame)),
          all_back,
        )
