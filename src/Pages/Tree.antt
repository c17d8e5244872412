-- ===== src/Pages/Tree.antt =====
-- The page tables as a tree: what the walk reaches, and the invariant that no two paths meet.
use kermol.Common.{ℕ, zero, suc, ◌+◌, ◌-◌, ◌*◌, ◌%◌, ◌^◌, ◌≤◌, ◌<◌, ◌≡◌, ◌≢◌, refl, ◌∙◌}
use kermol.Common.{Bool, false, if◌then◌else◌, Bool-cases, Option, none, some, ap, sym}
use kermol.Common.{ok, word, arith, inl, inr, ◌==◌}
use kermol.X86.{X86}
use native.Mathlib.Nat.{zero-add}
use kermol.Entries.{Entries}
use kermol.Pages.{page_index, Memory, RecursivePageTable}
use kermol.Pages.{phys_page_table_as_virt, walk}

-- The indices of the first `depth` levels of an address, as one number.
abbrev pub route : ℕ → ℕ → ℕ
route zero to = 0
route (suc depth) to = route depth to * 512 + page_index (4 - depth) to

-- Two addresses in one page.
abbrev pub same_page : ℕ → ℕ → Bool
same_page a b = route 4 a == route 4 b

-- An address that the recursive entry does not serve.
abbrev pub IsMappable : ℕ → Type 0
IsMappable to = page_index 4 to ≢ 510

-- Which pointers are page tables: `rank` is 0 for none, and 1 for the level 4 table to 4 for a
-- level 1 table; `place` is the route that leads there.
pub record Shape : Type 0 where
  pub rank : ℕ → ℕ
  pub place : ℕ → ℕ

module _ (x86 : X86) (entries : Entries) (self : RecursivePageTable x86 entries) where
  open entries use {Entry, is_unused, addr}

  -- The direct map lies in the upper half of the address space.
  pub record IsDirectMap : Type 0 where
    pub aligned : self.internal_offset % 4096 ≡ 0
    pub upper : 2 ^ 64 ≤ self.internal_offset + 2 ^ 47

  abbrev pub child : Entry → ℕ
  child e = addr e + self.internal_offset

  -- The table that `count` steps from the table `p` at depth `depth` lead to.
  unfoldable pub descend : Memory x86 entries → ℕ → ℕ → ℕ → ℕ → Option ℕ
  descend memory zero depth p to = some p
  descend memory (suc count) depth p to =
      let e = memory p (page_index (4 - depth) to) in
      if is_unused e then none else descend memory count (suc depth) (child e) to

  -- What the walk from `p` on finds for an address, `view` being what is asked of the entry.
  unfoldable pub find : {A : Type 0} → (Entry → A) → Memory x86 entries → ℕ → ℕ → ℕ → ℕ → Option A
  find view memory zero depth p to =
      let e = memory p (page_index (4 - depth) to) in if is_unused e then none else some (view e)
  find view memory (suc count) depth p to =
      let e = memory p (page_index (4 - depth) to) in
      if is_unused e then none else find view memory count (suc depth) (child e) to

  -- The frame that an address is mapped to, and its page's flags.
  unfoldable pub frame_of : Memory x86 entries → ℕ → Option ℕ
  unfolding find
  frame_of memory to = find addr memory 3 0 self.lvl4 to

  unfoldable pub flags_of : Memory x86 entries → ℕ → Option entries.Flags
  unfolding find
  flags_of memory to = find entries.flags memory 3 0 self.lvl4 to

  -- A used entry, the recursive one apart, leads to a table one level down, at the route that it
  -- extends, which the direct map reaches.
  pub record IsTree (memory : Memory x86 entries) (shape : Shape) : Type 0 where
    pub root : shape.rank self.lvl4 ≡ 1
    pub root_place : shape.place self.lvl4 ≡ 0
    pub link :
        (p i : ℕ)
        → 0 < shape.rank p
        → shape.rank p < 4
        → i < 512
        → (shape.rank p ≡ 1 → i ≢ 510)
        → is_unused (memory p i) ≡ false
        → (shape.rank (child (memory p i)) ≡ suc (shape.rank p))
          × (shape.place (child (memory p i)) ≡ shape.place p * 512 + i)
          × (child (memory p i) < word)

  -- Entry 510 of the level 4 table leads back to it.
  pub record IsRecursive (memory : Memory x86 entries) : Type 0 where
    pub used : is_unused (memory self.lvl4 510) ≡ false
    pub self_frame : addr (memory self.lvl4 510) + self.internal_offset ≡ self.lvl4

  module _ (d : IsDirectMap) (memory : Memory x86 entries) (shape : Shape)
      (t : IsTree memory shape) where
    pub as_virt {ℓ} :
        {E : Type ℓ} (a : ℕ)
        → a + self.internal_offset < word
        → phys_page_table_as_virt x86 entries {E = E} self a ≡ ok (a + self.internal_offset)
    unfolding phys_page_table_as_virt
    as_virt a h =
        ground (arith, x86.virt_new-some (a + self.internal_offset) (inr (omega arith, h)))

    -- What a step down from a table on the route of `to` meets.
    pub step_down :
        (depth p to : ℕ)
        → IsMappable to
        → shape.rank p ≡ suc depth
        → depth ≤ 2
        → is_unused (memory p (page_index (4 - depth) to)) ≡ false
        → let c = child (memory p (page_index (4 - depth) to)) in
          (shape.rank c ≡ suc (suc depth))
          × (shape.place p ≡ route depth to → shape.place c ≡ route (suc depth) to)
          × (c < word)
    step_down depth p to m r h u =
        let (rank, place, small) =
          t.link p (page_index (4 - depth) to) (omega (arith, r)) (omega (arith, r)) (omega arith)
            top u in
        (
          rank ∙ ap suc r,
          (λ e. place ∙ ap (λ (k : ℕ). k * 512 + page_index (4 - depth) to) e),
          small,
        )
      where
        top : shape.rank p ≡ 1 → page_index (4 - depth) to ≢ 510
        top one e =
            let z : depth ≡ 0 = omega (arith, r, one) in
            m (ap (λ (k : ℕ). page_index (4 - k) to) (sym z) ∙ e)

    -- On a tree the loop of `get_page_table` never panics, and reaches what `descend` says.
    pub walk-descend {ℓ} :
        {E : Type ℓ} (count depth p to : ℕ)
        → IsMappable to
        → shape.rank p ≡ suc depth
        → count + depth ≤ 3
        → walk x86 entries {E = E} self memory count (4 - depth) p to
          ≡ ok (descend memory count depth p to)
    unfolding walk descend
    walk-descend zero depth p to m r h = refl
    walk-descend {E} (suc count) depth p to m r h =
        elim (Bool-cases (is_unused (memory p (page_index (4 - depth) to)))) [
          | inl e ↦ ground (arith, e)
          | inr e ↦
              let (rank, place, small) = step_down depth p to m r (omega arith) e in
              let next : 4 - depth - 1 ≡ 4 - suc depth = omega arith in
              ground (
                arith,
                e,
                next,
                as_virt {E = E} (addr (memory p (page_index (4 - depth) to))) small,
                walk-descend {E = E} count (suc depth)
                    (child (memory p (page_index (4 - depth) to))) to m rank (omega arith),
              )
        ]

    -- A table that is reached lies at the route of the address.
    pub descend-place :
        (count depth p to c : ℕ)
        → IsMappable to
        → shape.rank p ≡ suc depth
        → shape.place p ≡ route depth to
        → count + depth ≤ 3
        → descend memory count depth p to ≡ some c
        → (shape.rank c ≡ suc (count + depth)) × (shape.place c ≡ route (count + depth) to)
    unfolding descend
    descend-place zero depth p to c m r q h e =
        let same : p ≡ c = ground arith in rw (zero-add, ← same) (r, q)
    descend-place (suc count) depth p to c m r q h e =
        elim (Bool-cases (is_unused (memory p (page_index (4 - depth) to)))) [
          | inl u ↦ ground (arith, u)
          | inr u ↦
              let (rank, place, small) = step_down depth p to m r (omega arith) u in
              let deeper : suc count + depth ≡ count + suc depth = omega arith in
              rw deeper (
                descend-place count (suc depth) (child (memory p (page_index (4 - depth) to))) to c
                  m rank (place q) (omega arith) (ground (arith, e, u)))
        ]

  -- The entry that ends a walk decides what `find` returns; `view` is what is asked of it.
  abbrev pub view_leaf : {A : Type 0} → (Entry → A) → Memory x86 entries → ℕ → Option ℕ → Option A
  view_leaf view memory i none = none
  view_leaf view memory i (some p) =
      if is_unused (memory p i) then none else some (view (memory p i))

  abbrev pub leaf_of : Memory x86 entries → ℕ → Option ℕ → Option ℕ
  leaf_of memory i o = view_leaf addr memory i o

  pub find-descend :
      {A : Type 0} (view : Entry → A) (memory : Memory x86 entries) (count depth p to : ℕ)
      → find view memory count depth p to
        ≡ view_leaf view memory
            (page_index (4 - (count + depth)) to)
            (descend memory count depth p to)
  unfolding find descend
  find-descend view memory zero depth p to = rw zero-add
  find-descend view memory (suc count) depth p to =
      let deeper : suc count + depth ≡ count + suc depth = omega arith in
      let e = memory p (page_index (4 - depth) to) in
      rw (deeper, find-descend view memory count (suc depth) (child e) to)
        (elim (Bool-cases (is_unused e)) [ inl u ↦ rw u | inr u ↦ rw u ])

  pub frame_of-descend :
      (memory : Memory x86 entries) (to : ℕ)
      → frame_of memory to ≡ leaf_of memory (page_index 1 to) (descend memory 3 0 self.lvl4 to)
  unfolding frame_of
  frame_of-descend memory to = find-descend addr memory 3 0 self.lvl4 to

  pub flags_of-descend :
      (memory : Memory x86 entries) (to : ℕ)
      → flags_of memory to
        ≡ view_leaf entries.flags memory (page_index 1 to) (descend memory 3 0 self.lvl4 to)
  unfolding flags_of
  flags_of-descend memory to = find-descend entries.flags memory 3 0 self.lvl4 to
