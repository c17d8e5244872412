-- ===== src/Pages/Grow.antt =====
-- Linking a new, empty table below a table: the tree grows, and no address changes its frame.
use kermol.Common.{ℕ, zero, suc, ◌+◌, ◌-◌, ◌*◌, ◌≤◌, ◌<◌, ◌≡◌, ◌≢◌, refl, ◌∙◌, ap, sym}
use kermol.Common.{true, false, ◌&&◌, if◌then◌else◌, Bool-cases, ◌==◌, none}
use kermol.Common.{arith, inl, inr, ◌⊎◌, ==→≡, word}
use kermol.X86.{X86}
use kermol.Entries.{Entries}
use kermol.Pages.{page_index, Memory, RecursivePageTable, set_entry, set_table, empty_table}
use kermol.Pages.Tree.{IsMappable, Shape, IsDirectMap, IsTree, find, frame_of, flags_of}
use kermol.Pages.Tree.{step_down, child}

-- The tables with one more, at `c`.
abbrev pub grow_shape : Shape → ℕ → ℕ → ℕ → Shape
grow_shape shape c r l = record {
  rank = λ q. if q == c then r else shape.rank q;
  place = λ q. if q == c then l else shape.place q;
}

module _ (x86 : X86) (entries : Entries) (self : RecursivePageTable x86 entries) where
  open entries use {Entry, is_unused, addr, unused-is_unused}

  abbrev pub grown : Memory x86 entries → ℕ → ℕ → Entry → Memory x86 entries
  grown memory p i e =
      set_table x86 entries (set_entry x86 entries memory p i e) (child x86 entries self e)
        (empty_table x86 entries)

  -- `e` links a table that is not in the tree to the unused entry `i` of `p`.
  pub record Links (memory : Memory x86 entries) (shape : Shape) (depth p i : ℕ) (e : Entry)
      : Type 0 where
    pub above : shape.rank p ≡ suc depth
    pub high : depth ≤ 2
    pub was_unused : is_unused (memory p i) ≡ true
    pub used : is_unused e ≡ false
    pub fresh : shape.rank (child x86 entries self e) ≡ 0
    pub small : child x86 entries self e < word

  module _ (d : IsDirectMap x86 entries self) (memory : Memory x86 entries) (shape : Shape)
      (t : IsTree x86 entries self memory shape) (depth p i : ℕ) (e : Entry)
      (k : Links memory shape depth p i e) where
    abbrev c : ℕ
    c = child x86 entries self e

    abbrev memory' : Memory x86 entries
    memory' = grown memory p i e

    abbrev shape' : Shape
    shape' = grow_shape shape c (suc (suc depth)) (shape.place p * 512 + i)

    not_new : (q : ℕ) → 0 < shape.rank q → (q == c) ≡ false
    not_new q h = elim (Bool-cases (q == c)) [
      | inr z ↦ z
      | inl z ↦ let one = ap shape.rank (==→≡ q c z) in absurd (omega (arith, one, k.fresh))
    ]

    c-empty : (j : ℕ) → is_unused (memory' c j) ≡ true
    c-empty j = ground (arith, unused-is_unused)

    -- The entries of the old tables, but for the new link.
    pub kept : (q j : ℕ) → 0 < shape.rank q → memory' q j ≡ set_entry x86 entries memory p i e q j
    kept q j h = rw (not_new q h)

    never : (q j : ℕ) → (q == c) ≡ true → is_unused (memory' q j) ≢ false
    never q j z u = let v : is_unused (memory' q j) ≡ true = rw z unused-is_unused in cc

    -- An old table's entry is the new link or what it was.
    pub entry-cases :
        (q j : ℕ)
        → 0 < shape.rank q
        → ((q ≡ p) × (j ≡ i) × (memory' q j ≡ e)) ⊎ (memory' q j ≡ memory q j)
    entry-cases q j h = elim (Bool-cases (q == p && j == i)) [
      | inl z ↦ inl (ground arith, ground arith, kept q j h ∙ rw z)
      | inr z ↦ inr (kept q j h ∙ rw z)
    ]

    abbrev Linked : ℕ → ℕ → Entry → Type 0
    Linked q j f =
        (shape'.rank (child x86 entries self f) ≡ suc (shape.rank q))
        × (shape'.place (child x86 entries self f) ≡ shape.place q * 512 + j)
        × (child x86 entries self f < word)

    linked :
        (q j : ℕ)
        → 0 < shape.rank q
        → shape.rank q < 4
        → j < 512
        → (shape.rank q ≡ 1 → j ≢ 510)
        → is_unused (memory' q j) ≡ false
        → Linked q j (memory' q j)
    linked q j low high less top used = elim (entry-cases q j low) [
      | inl (qp, ji, me) ↦
          let self_c : (c == c) ≡ true = ground arith in
          rw (me, qp, ji, self_c) (ap suc (sym k.above), refl, k.small)
      | inr me ↦
          let (rank, place, small) = t.link q j low high less top (rw me at used) in
          let old : (child x86 entries self (memory q j) == c) ≡ false =
            not_new (child x86 entries self (memory q j)) (omega (arith, rank)) in
          rw (me, old) (rank, place, small)
    ]

    pub grown-IsTree : IsTree x86 entries self memory' shape'
    grown-IsTree = record {
      root = rw (not_new self.lvl4 (omega (arith, t.root))) t.root;
      root_place = rw (not_new self.lvl4 (omega (arith, t.root))) t.root_place;
      link = λ q j low high less top used. elim (Bool-cases (q == c)) [
        | inl z ↦ absurd (never q j z used)
        | inr z ↦
            rw z (rw z at (linked q j (rw z at low) (rw z at high) less (λ o. top (rw z o)) used))
      ];
    }

    find-empty :
        {A : Type 0} (view : Entry → A) (count depth' b : ℕ)
        → find x86 entries self view memory' count depth' c b ≡ none
    unfolding find
    find-empty view zero depth' b = rw (c-empty (page_index (4 - depth') b))
    find-empty view (suc count) depth' b = rw (c-empty (page_index (4 - depth') b))

    find-grown :
        {A : Type 0} (view : Entry → A) (count depth' q b : ℕ)
        → IsMappable b
        → shape.rank q ≡ suc depth'
        → count + depth' ≡ 3
        → find x86 entries self view memory' count depth' q b
          ≡ find x86 entries self view memory count depth' q b
    unfolding find
    find-grown view zero depth' q b m r h =
        elim (entry-cases q (page_index (4 - depth') b) (omega (arith, r))) [
          | inl (qp, _, _) ↦
              let one = ap shape.rank qp in absurd (omega (arith, one, r, h, k.above, k.high))
          | inr me ↦ rw me
        ]
    find-grown view (suc count) depth' q b m r h =
        elim (entry-cases q (page_index (4 - depth') b) (omega (arith, r))) [
          | inl (qp, ji, me) ↦
              rw (me, k.used, qp, ji, k.was_unused) (find-empty view count (suc depth') b)
          | inr me ↦ rw me (elim (Bool-cases (is_unused (memory q (page_index (4 - depth') b)))) [
            | inl u ↦ rw u
            | inr u ↦
                let (rank, _, _) =
                  step_down x86 entries self d memory shape t depth' q b m r (omega arith) u in
                rw u (find-grown view count (suc depth') _ b m rank (omega arith))
          ])
        ]

    pub frame_of-grown :
        (b : ℕ)
        → IsMappable b
        → frame_of x86 entries self memory' b ≡ frame_of x86 entries self memory b
    unfolding frame_of
    frame_of-grown b m = find-grown addr 3 0 self.lvl4 b m t.root (omega arith)

    pub flags_of-grown :
        (b : ℕ)
        → IsMappable b
        → flags_of x86 entries self memory' b ≡ flags_of x86 entries self memory b
    unfolding flags_of
    flags_of-grown b m = find-grown entries.flags 3 0 self.lvl4 b m t.root (omega arith)
