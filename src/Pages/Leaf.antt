-- ===== src/Pages/Leaf.antt =====
-- Writing one entry of a level 1 table of src/memory/paging/page_table.rs.
use kermol.Common.{ℕ, zero, suc, ◌+◌, ◌-◌, ◌≤◌, ◌≡◌, ◌≢◌, refl, ◌∙◌, ap, sym}
use kermol.Common.{true, false, if◌then◌else◌, Bool-cases, ◌==◌, Option, none, some}
use kermol.Common.{arith, inl, inr, ==→≡, ==→≢}
use kermol.X86.{X86}
use kermol.Entries.{Entries}
use kermol.Pages.{page_index, Memory, RecursivePageTable, set_entry}
use kermol.Pages.Tree.{
  IsMappable, Shape, IsDirectMap, IsTree, descend, frame_of, view_leaf, flags_of, route,
}
use kermol.Pages.Tree.{
  frame_of-descend, flags_of-descend, step_down, descend-place, same_page, child,
}
use kermol.Pages.Translate.{same-indices}

module _ (x86 : X86) (entries : Entries) (self : RecursivePageTable x86 entries)
    (d : IsDirectMap x86 entries self) (memory : Memory x86 entries) (shape : Shape)
    (t : IsTree x86 entries self memory shape) where
  open entries use {Entry, is_unused, addr}

  descend-same :
      (count depth p a b : ℕ)
      → route 4 a ≡ route 4 b
      → count + depth ≤ 3
      → descend x86 entries self memory count depth p a
        ≡ descend x86 entries self memory count depth p b
  unfolding descend
  descend-same zero depth p a b e h = refl
  descend-same (suc count) depth p a b e h = rw (same-indices a b depth e (omega arith)) (
      ap (λ o. if is_unused (memory p (page_index (4 - depth) b)) then none else o)
        (descend-same count (suc depth)
          (child x86 entries self (memory p (page_index (4 - depth) b))) a b e (omega arith)))

  -- The addresses of one page have one frame.
  pub frame_of-same_page :
      (a b : ℕ)
      → same_page a b ≡ true
      → frame_of x86 entries self memory a ≡ frame_of x86 entries self memory b
  frame_of-same_page a b s =
      let r = ==→≡ (route 4 a) (route 4 b) s in
      rw (
        frame_of-descend x86 entries self memory a,
        frame_of-descend x86 entries self memory b,
        descend-same 3 0 self.lvl4 a b r (omega arith),
        same-indices a b 3 r (omega arith),
      )

  module _ (c to : ℕ) (e : Entry) (m : IsMappable to)
      (reached : descend x86 entries self memory 3 0 self.lvl4 to ≡ some c) where
    abbrev written : Memory x86 entries
    written = set_entry x86 entries memory c (page_index 1 to) e

    at_c : (shape.rank c ≡ 4) × (shape.place c ≡ route 3 to)
    at_c =
        descend-place x86 entries self d memory shape t 3 0 self.lvl4 to c m t.root t.root_place
          (omega arith) reached

    pub written-IsTree : IsTree x86 entries self written shape
    written-IsTree = record {
      root = t.root;
      root_place = t.root_place;
      link = λ p i low high less top used.
          let other : (p == c) ≡ false = ground (arith, at_c) in
          rw other (t.link p i low high less top (rw other at used));
    }

    -- The tables that the walks go through are the same.
    descend-written :
        (count depth p b : ℕ)
        → IsMappable b
        → shape.rank p ≡ suc depth
        → count + depth ≤ 3
        → descend x86 entries self written count depth p b
          ≡ descend x86 entries self memory count depth p b
    unfolding descend
    descend-written zero depth p b mb r h = refl
    descend-written (suc count) depth p b mb r h =
        let other : (p == c) ≡ false = ground (arith, at_c) in
        rw other (elim (Bool-cases (is_unused (memory p (page_index (4 - depth) b)))) [
          | inl u ↦ rw u
          | inr u ↦
              let (rank, _, _) =
                step_down x86 entries self d memory shape t depth p b mb r (omega arith) u in
              rw u (descend-written count (suc depth) _ b mb rank (omega arith))
        ])

    abbrev new_leaf : {A : Type 0} → (Entry → A) → Option A
    new_leaf view = if is_unused e then none else some (view e)

    -- A table that a walk ends in is the written one only for its own addresses.
    leaf-written :
        {A : Type 0} (view : Entry → A) (b : ℕ) (o : Option ℕ)
        → IsMappable b
        → descend x86 entries self memory 3 0 self.lvl4 b ≡ o
        → view_leaf x86 entries self view written (page_index 1 b) o ≡ (
            if same_page to b
            then new_leaf view
            else view_leaf x86 entries self view memory (page_index 1 b) o)
    leaf-written view b o mb q = elim (Bool-cases (same_page to b)) [
      | inl s ↦
          let s' = ==→≡ (route 4 to) (route 4 b) s in
          let here : o ≡ some c =
            sym q ∙ sym (descend-same 3 0 self.lvl4 to b s' (omega arith)) ∙ reached in
          let i = same-indices to b 3 s' (omega arith) in rw (s, here) (ground (arith, i))
      | inr s ↦ rw s (apart o q (==→≢ (route 4 to) (route 4 b) s))
    ]
      where
        apart :
            (o : Option ℕ)
            → descend x86 entries self memory 3 0 self.lvl4 b ≡ o
            → route 4 to ≢ route 4 b
            → view_leaf x86 entries self view written (page_index 1 b) o
              ≡ view_leaf x86 entries self view memory (page_index 1 b) o
        apart none q ne = refl
        apart (some p) q ne =
            let (_, place) =
              descend-place x86 entries self d memory shape t 3 0 self.lvl4 b p mb t.root
                t.root_place (omega arith) q in
            let same_entry : written p (page_index 1 b) ≡ memory p (page_index 1 b) =
              elim (Bool-cases (p == c)) [
                | inr z ↦ rw z
                | inl z ↦
                    let one : p ≡ c = ==→≡ p c z in
                    let three : route 3 b ≡ route 3 to = sym place ∙ ap shape.place one ∙ at_c.1 in
                    elim (Bool-cases (page_index 1 b == page_index 1 to)) [
                      | inr y ↦ rw (z, y)
                      | inl y ↦
                          let last = ==→≡ (page_index 1 b) (page_index 1 to) y in
                          absurd (ne (omega (arith, three, last)))
                    ]
              ] in
            rw same_entry

    -- After the write the page of `to` has the entry's frame, and every other page its old one.
    pub frame_of-written :
        (b : ℕ)
        → IsMappable b
        → frame_of x86 entries self written b
          ≡ (if same_page to b then new_leaf addr else frame_of x86 entries self memory b)
    frame_of-written b mb =
        rw
          (
            frame_of-descend x86 entries self written b,
            frame_of-descend x86 entries self memory b,
            descend-written 3 0 self.lvl4 b mb t.root (omega arith),
          )
          (leaf-written addr b _ mb refl)

    pub flags_of-written :
        (b : ℕ)
        → IsMappable b
        → flags_of x86 entries self written b
          ≡ (if same_page to b then new_leaf entries.flags else flags_of x86 entries self memory b)
    flags_of-written b mb =
        rw
          (
            flags_of-descend x86 entries self written b,
            flags_of-descend x86 entries self memory b,
            descend-written 3 0 self.lvl4 b mb t.root (omega arith),
          )
          (leaf-written entries.flags b _ mb refl)
