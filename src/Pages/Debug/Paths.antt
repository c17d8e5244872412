-- ===== src/Pages/Debug/Paths.antt =====
-- The pages that a table of src/memory/paging/page_table.rs leads to, by the indices on the way, and
-- by an address.
use kermol.Common.{ℕ, zero, suc, ◌+◌, ◌-◌, ◌*◌, ◌^◌, ◌%◌, ◌<◌, ◌≡◌, refl, inl, inr}
use kermol.Common.{false, Bool-cases, some, none, Option, arith, lt-or-le}
use kermol.X86.{X86, IsCanonical}
use kermol.Entries.{Entries}
use kermol.Pages.{RecursivePageTable, Memory, page_index}
use kermol.Pages.Tree.{child, find, frame_of}
use kermol.Pages.Translate.{add_offset}
use kermol.Linear.{page_size}

module _ (x86 : X86) (entries : Entries) (self : RecursivePageTable x86 entries)
    (memory : Memory x86 entries) where
  open entries use {Entry, is_unused}

  -- The pages of a table that is `levels` above the level 1 tables.
  abbrev pub Lists : ℕ → ℕ → ℕ → Entry → Type 0
  Lists zero p i e = (i < 512) × (is_unused (memory p i) ≡ false) × (memory p i ≡ e)
  Lists (suc levels) p i e =
      (j : ℕ) × (j < 512)
      × (is_unused (memory p j) ≡ false)
      × Lists levels (child x86 entries self (memory p j)) i e

  -- The entry that an address leads to through used entries, entry 510 among them. Like
  -- `translate`, this does not look at the flags: a used entry need not be present.
  abbrev pub used_entry : ℕ → Option Entry
  used_entry to = find x86 entries self (λ e. e) memory 3 0 self.lvl4 to

  -- What `translate` makes of it.
  abbrev pub translated : ℕ → Option Entry → Option ℕ
  translated to none = none
  translated to (some e) = some (entries.addr e + to % page_size)

  find-translated :
      (levels depth p to : ℕ)
      → add_offset to (find x86 entries self entries.addr memory levels depth p to)
        ≡ translated to (find x86 entries self (λ e. e) memory levels depth p to)
  unfolding find
  find-translated zero depth p to =
      elim (Bool-cases (is_unused (memory p (page_index (4 - depth) to)))) [
        | inl u ↦ rw u refl
        | inr u ↦ rw u refl
      ]
  find-translated (suc levels) depth p to =
      elim (Bool-cases (is_unused (memory p (page_index (4 - depth) to)))) [
        | inl u ↦ rw u refl
        | inr u ↦ rw u (
            find-translated levels (suc depth)
              (child x86 entries self (memory p (page_index (4 - depth) to))) to)
      ]

  pub frame_of-translated :
      (to : ℕ) → add_offset to (frame_of x86 entries self memory to) ≡ translated to (used_entry to)
  unfolding frame_of
  frame_of-translated to = find-translated 3 0 self.lvl4 to

  pub find-Lists :
      (levels depth p to : ℕ) (e : Entry)
      → levels + depth ≡ 3
      → find x86 entries self (λ e. e) memory levels depth p to ≡ some e
      → Lists levels p (page_index 1 to) e
  unfolding find
  find-Lists zero depth p to e h found =
      let last : 4 - depth ≡ 1 = omega (arith, h) in
      let found = rw last at found in
      elim (Bool-cases (is_unused (memory p (page_index 1 to)))) [
        | inl u ↦ ground (arith, u, found)
        | inr u ↦ (omega arith, u, ground (arith, u, found))
      ]
  find-Lists (suc levels) depth p to e h found =
      elim (Bool-cases (is_unused (memory p (page_index (4 - depth) to)))) [
        | inl u ↦ absurd (let z = rw u at found in ground (arith, z))
        | inr u ↦ (
          page_index (4 - depth) to,
          omega arith,
          u,
          find-Lists levels (suc depth)
              (child x86 entries self (memory p (page_index (4 - depth) to))) to e
              (omega (arith, h)) (rw u at found),
        )
      ]

  -- The address with these indices, and with `k` in its upper 16 bits.
  abbrev at : ℕ → ℕ → ℕ → ℕ → ℕ → ℕ
  at k a b c d = k * 2 ^ 48 + ((a * 512 + b) * 512 + c) * 512 * 4096 + d * 4096

  at-find :
      (k p i : ℕ) (e : Entry) (found : Lists 3 p i e)
      → let to = at k found.0 found.3.0 found.3.3.0 i in
        (page_index 1 to ≡ i) × (find x86 entries self (λ e. e) memory 3 0 p to ≡ some e)
  unfolding find
  at-find k p i e (a, la, ua, (b, lb, ub, (c, lc, uc, (li, ui, q)))) =
      let four : page_index 4 (at k a b c i) ≡ a = omega (arith, la, lb, lc, li) in
      let three : page_index 3 (at k a b c i) ≡ b = omega (arith, la, lb, lc, li) in
      let two : page_index 2 (at k a b c i) ≡ c = omega (arith, la, lb, lc, li) in
      let one : page_index 1 (at k a b c i) ≡ i = omega (arith, la, lb, lc, li) in
      (one, rw (four, ua, three, ub, two, uc, one, ui, q) refl)

  pub Lists-find :
      (p i : ℕ) (e : Entry)
      → Lists 3 p i e
      → (to : ℕ) × IsCanonical to
        × (page_index 1 to ≡ i)
        × (find x86 entries self (λ e. e) memory 3 0 p to ≡ some e)
  Lists-find p i e found =
      let (a, la, ua, (b, lb, ub, (c, lc, uc, (li, ui, q)))) = found in
      elim (lt-or-le 255 a) [
        | inr low ↦ (
          at 0 a b c i,
          inl (omega (arith, la, lb, lc, li, low)),
          (at-find 0 p i e found).0,
          (at-find 0 p i e found).1,
        )
        | inl high ↦ (
          at 0xFFFF a b c i,
          inr (omega (arith, la, lb, lc, li, high), omega (arith, la, lb, lc, li)),
          (at-find 0xFFFF p i e found).0,
          (at-find 0xFFFF p i e found).1,
        )
      ]
