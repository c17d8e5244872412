-- ===== src/Pages/Translate.antt =====
-- `get_page_table` and `translate` on a tree of page tables.
use kermol.Common.{ℕ, zero, suc, ◌+◌, ◌-◌, ◌/◌, ◌%◌, ◌^◌, ◌≤◌, ◌≡◌}
use kermol.Common.{Bool-cases, Option, none, some}
use kermol.Common.{ok, arith, inl, inr}
use kermol.Linear.{page_size}
use kermol.X86.{X86}
use kermol.Entries.{Entries}
use kermol.Pages.{page_index, Memory, RecursivePageTable, get_page_table, translate}
use kermol.Pages.Tree.{
  IsMappable, Shape, IsDirectMap, IsTree, descend, walk-descend, frame_of, leaf_of,
}
use kermol.Pages.Tree.{frame_of-descend, route}

-- Addresses in one page have the same indices.
pub same-indices :
    (a b depth : ℕ)
    → route 4 a ≡ route 4 b
    → depth ≤ 3
    → page_index (4 - depth) a ≡ page_index (4 - depth) b
same-indices a b zero e h = omega arith
same-indices a b (suc zero) e h = omega arith
same-indices a b (suc (suc zero)) e h = omega arith
same-indices a b (suc (suc (suc zero))) e h = omega arith
same-indices a b (suc (suc (suc (suc n)))) e h = absurd (omega arith)

-- The route is the page's number below 2 ^ 36.
pub route-page : (a : ℕ) → route 4 a ≡ a / page_size % 2 ^ 36
route-page a = omega arith

abbrev pub add_offset : ℕ → Option ℕ → Option ℕ
add_offset to none = none
add_offset to (some a) = some (a + to % page_size)

module _ (x86 : X86) (entries : Entries) (self : RecursivePageTable x86 entries)
    (d : IsDirectMap x86 entries self) (memory : Memory x86 entries) (shape : Shape)
    (t : IsTree x86 entries self memory shape) where
  open entries use {is_unused, addr}

  pub get_page_table-descend {ℓ} :
      {E : Type ℓ} (level to : ℕ)
      → IsMappable to
      → 1 ≤ level
      → level ≤ 4
      → get_page_table x86 entries {E = E} self memory level to
        ≡ ok (descend x86 entries self memory (4 - level) 0 self.lvl4 to)
  unfolding get_page_table
  get_page_table-descend {E} level to m p q = ground (
    arith,
    walk-descend x86 entries self d memory shape t {E = E} (4 - level) 0 self.lvl4 to m t.root
        (omega arith),
  )

  offset_fits :
      (c i to : ℕ)
      → x86.phys_add (addr (memory c i)) (to % page_size)
        ≡ some (addr (memory c i) + to % page_size)
  offset_fits c i to =
      x86.phys_add-some _ _
        (omega (arith, entries.addr-lt (memory c i), entries.addr_aligned (memory c i)))

  from_table {ℓ} :
      {E : Type ℓ} (to : ℕ) (found : Option ℕ)
      → get_page_table x86 entries {E = E} self memory 1 to ≡ ok found
      → translate x86 entries {E = E} self memory to
        ≡ ok (add_offset to (leaf_of x86 entries self memory (page_index 1 to) found))
  unfolding translate
  from_table {E} to none e = ground (arith, e)
  from_table {E} to (some c) e = elim (Bool-cases (is_unused (memory c (page_index 1 to)))) [
    | inl u ↦ ground (arith, e, u)
    | inr u ↦ ground (arith, e, u, offset_fits c (page_index 1 to) to)
  ]

  -- On a tree of page tables `translate` does not panic for an address outside the recursive range:
  -- it adds the offset in the page to the frame that the address is mapped to, and is `None` if
  -- there is none.
  pub translate-frame_of {ℓ} :
      {E : Type ℓ} (to : ℕ)
      → IsMappable to
      → translate x86 entries {E = E} self memory to
        ≡ ok (add_offset to (frame_of x86 entries self memory to))
  translate-frame_of {E} to m =
      rw (frame_of-descend x86 entries self memory to) (
        from_table {E = E} to _ (get_page_table-descend {E = E} 1 to m (omega arith) (omega arith)))
