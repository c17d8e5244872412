-- ===== src/Bitmap/History/Grants.antt =====
-- What a bitmap allocator has granted, in every state that it reaches.
use kermol.Common.{ℕ, ◌+◌, ◌≤◌, ◌<◌, ◌≡◌, ◌∙◌, subst, arith, Bool, true, false, ◌||◌}
use kermol.Common.{ok, List, [], ◌∷◌, All}
use kermol.X86.{X86}
use kermol.Bitmap.{BitmapAllocator, Range}
use kermol.Bitmap.View.{IsValid, bit_at}
use kermol.Bitmap.Flag.{between}
use kermol.Bitmap.Alloc.{alloc}
use kermol.Bitmap.History.{Grows, still, Reaches, start, granted, not_granted, freed, range_freed}
use kermol.Bitmap.History.{marked, free-Grows, free_range-Grows, marked-Grows, not_granted-Grows}
use kermol.Bitmap.History.{granted-Grows, granted-Allocates}

All-imply :
    {P Q : Range → Type 0}
    → ((r : Range) → P r → Q r)
    → (ranges : List Range) → All P ranges
    → All Q ranges
All-imply imply [] all = tt
All-imply imply (r ∷ ranges) all = (imply r all.0, All-imply imply ranges all.1)

-- A range inside the bitmap that was free at first, is used now and lies below `last_allocated`.
pub record IsGrant (first self : BitmapAllocator) (r : Range) : Type 0 where
  pub some_bits : r.start < r.end
  pub inside : r.end ≤ first.size
  pub behind : r.end ≤ self.last_allocated
  pub was_free : (i : ℕ) → r.start ≤ i → i < r.end → bit_at first.bitmap i ≡ false
  pub is_used : (i : ℕ) → r.start ≤ i → i < r.end → bit_at self.bitmap i ≡ true

-- Each range lies above those that were granted before it.
abbrev pub Ascending : List Range → Type 0
Ascending [] = Unit
Ascending (r ∷ ranges) = All (λ (q : Range). q.end ≤ r.start) ranges × Ascending ranges

pub record Accounts (first self : BitmapAllocator) (ranges : List Range) : Type 0 where
  pub grown : Grows first self
  pub grants : All (IsGrant first self) ranges
  pub ascending : Ascending ranges

then-Grows :
    (first self out : BitmapAllocator) → Grows first self → Grows self out → Grows first out
then-Grows first self out g h = record {
  valid = h.valid;
  same_size = h.same_size ∙ g.same_size;
  forward = omega (arith, g.forward, h.forward);
  used = λ i p e. h.used i (omega (arith, g.same_size)) (g.used i p e);
}

later-IsGrant :
    (first self out : BitmapAllocator)
    → Grows first self
    → Grows self out
    → (r : Range) → IsGrant first self r
    → IsGrant first out r
later-IsGrant first self out g h r a = record {
  some_bits = a.some_bits;
  inside = a.inside;
  behind = omega (arith, a.behind, h.forward);
  was_free = a.was_free;
  is_used = λ i p q. h.used i (omega (arith, a.inside, g.same_size)) (a.is_used i p q);
}

later-Accounts :
    (first self out : BitmapAllocator) (ranges : List Range)
    → Accounts first self ranges
    → Grows self out
    → Accounts first out ranges
later-Accounts first self out ranges a h = record {
  grown = then-Grows first self out a.grown h;
  grants =
      All-imply {P = IsGrant first self} {Q = IsGrant first out}
        (later-IsGrant first self out a.grown h) ranges a.grants;
  ascending = a.ascending;
}

-- A bit that is free now was free at first.
free_at_first :
    (first self : BitmapAllocator) (i : ℕ)
    → Grows first self
    → i < first.size
    → bit_at self.bitmap i ≡ false
    → bit_at first.bitmap i ≡ false
free_at_first first self i g h e = ground (arith, g.used i h, e)

module _ (x86 : X86) (first : BitmapAllocator) (v : IsValid first) where
  granted-Accounts :
      (bits at : ℕ) (self out : BitmapAllocator) (ranges : List Range)
      → Accounts first self ranges
      → 0 < bits
      → bits ≤ 16
      → alloc x86 bits self ≡ ok (at, out)
      → Accounts first out (record { start = at; end = at + bits } ∷ ranges)
  granted-Accounts bits at self out ranges a some_bits at_most e =
      let g = granted-Grows x86 bits self some_bits at_most a.grown.valid at out e in
      let got = granted-Allocates x86 bits self some_bits at_most a.grown.valid at out e in
      let same : got.marks.out ≡ out = ground (arith, got.marks.returns, e) in
      let kept = later-Accounts first self out ranges a g in
      record {
        grown = kept.grown;
        grants = (
          record {
            some_bits = omega (arith, some_bits);
            inside = omega (arith, got.inside, a.grown.same_size);
            behind =
                subst (λ (b : BitmapAllocator). at + bits ≤ b.last_allocated) same
                  (omega (arith, got.marks.moved));
            was_free = λ i p q.
                free_at_first first self i a.grown (omega (arith, got.inside, a.grown.same_size))
                  (got.was_free i p q);
            is_used = λ i p q.
                subst (λ (b : BitmapAllocator). bit_at b.bitmap i ≡ true) same
                  (got.marks.marked i (omega (arith, got.inside))
                    ∙ in_range at (at + bits) i (bit_at self.bitmap i) p q);
          },
          kept.grants,
        );
        ascending = (
          All-imply {P = IsGrant first self} {Q = λ (q : Range). q.end ≤ at}
              (λ r grant. omega (arith, grant.behind, got.behind)) ranges a.grants,
          a.ascending,
        );
      }
    where
      in_range : (from to i : ℕ) (c : Bool) → from ≤ i → i < to → (between from to i || c) ≡ true
      in_range from to i c p q = ground arith

  -- From a valid allocator on, after any sequence of requests for 1 to 16 bits, of giving back bits
  -- and ranges inside the bitmap, and of marking such ranges, be they refused or not, the allocator
  -- is valid and of the same size, no used bit has become free, and the ranges granted are not
  -- empty, lie inside the bitmap, were free at first, are used now, and each lies above those
  -- granted before it.
  pub Reaches-Accounts :
      (self : BitmapAllocator) (ranges : List Range)
      → Reaches x86 first self ranges
      → Accounts first self ranges
  Reaches-Accounts self ranges start = record { grown = still first v; grants = tt; ascending = tt }
  Reaches-Accounts out ranges (granted bits at self out' earlier reached p q e) =
      granted-Accounts bits at self out earlier (Reaches-Accounts self earlier reached) p q e
  Reaches-Accounts out ranges (not_granted bits e self out' earlier reached p q r) =
      let a = Reaches-Accounts self earlier reached in
      later-Accounts first self out earlier a
        (not_granted-Grows x86 bits self p q a.grown.valid e out r)
  Reaches-Accounts out ranges (freed bit self out' earlier reached left) =
      let a = Reaches-Accounts self earlier reached in
      later-Accounts first self out earlier a (free-Grows x86 bit self out a.grown.valid left)
  Reaches-Accounts out ranges (range_freed range self out' earlier reached p q left) =
      let a = Reaches-Accounts self earlier reached in
      later-Accounts first self out earlier a
        (free_range-Grows x86 range self out a.grown.valid p q left)
  Reaches-Accounts out ranges (marked range self out' earlier reached p q left) =
      let a = Reaches-Accounts self earlier reached in
      later-Accounts first self out earlier a
        (marked-Grows x86 range self out a.grown.valid p q left)
