-- ===== src/Pages/Walk.antt =====
-- Walks through the page tables: how they go on, stop, and survive the growth of the tree.
use kermol.Common.{ℕ, zero, suc, ◌+◌, ◌-◌, ◌≤◌, ◌≡◌, ◌≢◌, refl}
use kermol.Common.{true, false, Bool-cases, none, some}
use kermol.Common.{arith, inl, inr}
use native.Mathlib.Nat.{zero-add}
use kermol.X86.{X86}
use kermol.Entries.{Entries}
use kermol.Pages.{page_index, Memory, RecursivePageTable}
use kermol.Pages.Tree.{IsMappable, Shape, IsDirectMap, IsTree, descend, frame_of}
use kermol.Pages.Tree.{step_down, child}
use kermol.Pages.Grow.{Links, grown, entry-cases}
use kermol.Pages.Tree.{descend, find, frame_of}

module _ (x86 : X86) (entries : Entries) (self : RecursivePageTable x86 entries) where
  open entries use {Entry, is_unused, addr}

  -- One more step of a walk.
  pub descend-snoc :
      (memory : Memory x86 entries) (count depth q b x : ℕ)
      → descend x86 entries self memory count depth q b ≡ some x
      → is_unused (memory x (page_index (4 - (count + depth)) b)) ≡ false
      → descend x86 entries self memory (suc count) depth q b
        ≡ some (child x86 entries self (memory x (page_index (4 - (count + depth)) b)))
  unfolding descend
  descend-snoc memory zero depth q b x e u =
      let s : x ≡ q = ground arith in rw (zero-add, s, rw (zero-add, s) at u) refl
  descend-snoc memory (suc count) depth q b x e u =
      let deeper : suc count + depth ≡ count + suc depth = omega arith in
      elim (Bool-cases (is_unused (memory q (page_index (4 - depth) b)))) [
        | inl v ↦ absurd (ground (arith, e, v))
        | inr v ↦
            rw (v, deeper)
              (descend-snoc memory count (suc depth)
                (child x86 entries self (memory q (page_index (4 - depth) b))) b x (rw v at e)
                (rw deeper at u))
      ]

  -- A walk that ends one step later ends at an unused entry.
  pub descend-stop :
      (memory : Memory x86 entries) (count depth q b x : ℕ)
      → descend x86 entries self memory count depth q b ≡ some x
      → descend x86 entries self memory (suc count) depth q b ≡ none
      → is_unused (memory x (page_index (4 - (count + depth)) b)) ≡ true
  descend-stop memory count depth q b x e n =
      elim (Bool-cases (is_unused (memory x (page_index (4 - (count + depth)) b)))) [
        | inl u ↦ u
        | inr u ↦ let s = descend-snoc memory count depth q b x e u in cc
      ]

  module _ (d : IsDirectMap x86 entries self) (memory : Memory x86 entries) (shape : Shape)
      (t : IsTree x86 entries self memory shape) (depth p i : ℕ) (e : Entry)
      (k : Links x86 entries self memory shape depth p i e) where
    -- A walk that ended at a table still ends there when the tree has grown.
    pub descend-grown :
        (count depth' q b x : ℕ)
        → IsMappable b
        → shape.rank q ≡ suc depth'
        → count + depth' ≤ 3
        → descend x86 entries self memory count depth' q b ≡ some x
        → descend x86 entries self (grown x86 entries self memory p i e) count depth' q b ≡ some x
    unfolding descend
    descend-grown zero depth' q b x m r h w = w
    descend-grown (suc count) depth' q b x m r h w =
        elim (Bool-cases (is_unused (memory q (page_index (4 - depth') b)))) [
          | inl u ↦ absurd (ground (arith, w, u))
          | inr u ↦
              elim (entry-cases x86 entries self d memory shape t depth p i e k q
                (page_index (4 - depth') b) (omega (arith, r))) [
                  | inl (qp, ji, _) ↦ absurd (unlinked q (page_index (4 - depth') b) qp ji u)
                  | inr me ↦
                      let (rank, _, _) =
                        step_down x86 entries self d memory shape t depth' q b m r (omega arith)
                          u in
                      rw (me, u)
                        (descend-grown count (suc depth') _ b x m rank (omega arith) (rw u at w))
                ]
        ]
      where
        unlinked : (q j : ℕ) → q ≡ p → j ≡ i → is_unused (memory q j) ≢ false
        unlinked q j qp ji u =
            let v : is_unused (memory q j) ≡ true = rw (qp, ji) k.was_unused in cc

-- A walk that stops early finds no frame.
module _ (x86 : X86) (entries : Entries) (self : RecursivePageTable x86 entries) where
  open entries use {is_unused}

  find-stop :
      {A : Type 0} (view : entries.Entry → A) (memory : Memory x86 entries)
      (count more depth p to : ℕ)
      → descend x86 entries self memory count depth p to ≡ none
      → find x86 entries self view memory (count + more) depth p to ≡ none
  unfolding descend find
  find-stop view memory zero more depth p to e = absurd (ground arith)
  find-stop view memory (suc count) more depth p to e =
      let step : suc count + more ≡ suc (count + more) = omega arith in
      elim (Bool-cases (is_unused (memory p (page_index (4 - depth) to)))) [
        | inl u ↦ rw (step, u)
        | inr u ↦ rw (step, u) (find-stop view memory count more (suc depth) _ to (rw u at e))
      ]

  pub frame_of-stop :
      (memory : Memory x86 entries) (count to : ℕ)
      → count ≤ 3
      → descend x86 entries self memory count 0 self.lvl4 to ≡ none
      → frame_of x86 entries self memory to ≡ none
  unfolding frame_of
  frame_of-stop memory count to h e =
      let all : count + (3 - count) ≡ 3 = omega arith in
      rw all at (find-stop entries.addr memory count (3 - count) 0 self.lvl4 to e)
