-- ===== src/Bitmap/History.antt =====
-- The states that a bitmap allocator reaches by the calls of src/memory/paging/bitmap_allocator.rs,
-- with the ranges that it has granted, and what each call leaves of a state.
pub mod Grants
use kermol.Common.{ℕ, ◌+◌, ◌*◌, ◌≤◌, ◌<◌, ◌≡◌, refl, ◌∙◌, subst, arith, Bool, true, false}
use kermol.Common.{◌||◌, Outcome, ok, err, lt-or-le, inl, inr, List, [], ◌∷◌}
use kermol.X86.{X86}
use kermol.Errors.{MemoryError, out_of_bounds}
use kermol.Bitmap.{BitmapAllocator, Range, flag_range}
use kermol.Bitmap.View.{IsValid, bit_at, Rewrites-IsValid}
use kermol.Bitmap.Flag.{between, flag_range-Rewrites}
use kermol.Bitmap.Flag.Panics.{flag_range-panics, flag_range-err}
use kermol.Bitmap.Scan.{scan}
use kermol.Bitmap.Alloc.{alloc, free, free_range}
use kermol.Bitmap.Allocate.{IsSmall, moved_to, moved_to-IsValid, span, scanned, alloc-err}
use kermol.Bitmap.Allocate.{alloc-Marks, alloc-Allocates, Allocates}
use kermol.Bitmap.Release.{free_lem, free_range_lem}

-- The state that a call leaves, be it by a result or by an error.
pub data Leaves {A : Type 0} (out : BitmapAllocator)
    (r : Outcome (MemoryError × BitmapAllocator) (A × BitmapAllocator)) : Type 0 where
  returned : (a : A) → r ≡ ok (a, out) → Leaves out r
  refused : (e : MemoryError) → r ≡ err (e, out) → Leaves out r

-- A state that has used up no less than another.
pub record Grows (before after : BitmapAllocator) : Type 0 where
  pub valid : IsValid after
  pub same_size : after.size ≡ before.size
  pub forward : before.last_allocated ≤ after.last_allocated
  pub used :
      (i : ℕ) → i < before.size → bit_at before.bitmap i ≡ true → bit_at after.bitmap i ≡ true

pub still : (self : BitmapAllocator) → IsValid self → Grows self self
still self v = record { valid = v; same_size = refl; forward = omega arith; used = λ i h e. e }

pub stays_set : (b : Bool) {c : Bool} → c ≡ true → (b || c) ≡ true
stays_set b e = ground (arith, e)

module _ (x86 : X86) where
  -- The calls on an allocator: requests of at most sixteen bits, and the giving back and marking of
  -- ranges inside the bitmap.
  pub data Reaches (first : BitmapAllocator) : BitmapAllocator → List Range → Type 0 where
    start : Reaches first first []
    granted :
        (bits at : ℕ) (self out : BitmapAllocator) (ranges : List Range)
        → Reaches first self ranges
        → 0 < bits
        → bits ≤ 16
        → alloc x86 bits self ≡ ok (at, out)
        → Reaches first out (record { start = at; end = at + bits } ∷ ranges)
    not_granted :
        (bits : ℕ) (e : MemoryError) (self out : BitmapAllocator) (ranges : List Range)
        → Reaches first self ranges
        → 0 < bits
        → bits ≤ 16
        → alloc x86 bits self ≡ err (e, out)
        → Reaches first out ranges
    freed :
        (bit : ℕ) (self out : BitmapAllocator) (ranges : List Range)
        → Reaches first self ranges
        → Leaves out (free bit self)
        → Reaches first out ranges
    range_freed :
        (range : Range) (self out : BitmapAllocator) (ranges : List Range)
        → Reaches first self ranges
        → range.start ≤ range.end
        → range.end ≤ self.size
        → Leaves out (free_range range self)
        → Reaches first out ranges
    marked :
        (range : Range) (self out : BitmapAllocator) (ranges : List Range)
        → Reaches first self ranges
        → range.start ≤ range.end
        → range.end ≤ self.size
        → Leaves out (flag_range range true self)
        → Reaches first out ranges

  -- No call gives bits back.
  pub free-Grows :
      (bit : ℕ) (self out : BitmapAllocator)
      → IsValid self
      → Leaves out (free bit self)
      → Grows self out
  free-Grows bit self out v (returned a e) =
      let same : self ≡ out = ground (arith, free_lem self bit v, e) in
      subst (Grows self) same (still self v)
  free-Grows bit self out v (refused a e) =
      let same : self ≡ out = ground (arith, free_lem self bit v, e) in
      subst (Grows self) same (still self v)

  pub free_range-Grows :
      (range : Range) (self out : BitmapAllocator)
      → IsValid self
      → range.start ≤ range.end
      → range.end ≤ self.size
      → Leaves out (free_range range self)
      → Grows self out
  free_range-Grows range self out v ordered inside (returned a e) =
      let (b, _, r) = free_range_lem self range v ordered inside in absurd (ground (arith, r, e))
  free_range-Grows range self out v ordered inside (refused a e) =
      let (b, _, r) = free_range_lem self range v ordered inside in
      let same : self ≡ out = ground (arith, r, e) in subst (Grows self) same (still self v)

  pub marked-Grows :
      (range : Range) (self out : BitmapAllocator)
      → IsValid self
      → range.start ≤ range.end
      → range.end ≤ self.size
      → Leaves out (flag_range range true self)
      → Grows self out
  marked-Grows range self out v ordered inside left =
      let w = flag_range-Rewrites self range true v ordered inside in
      let same : record self { bitmap = w.out } ≡ out = same_state w.out w.returns left in
      subst (Grows self) same (record {
        valid = Rewrites-IsValid v w;
        same_size = refl;
        forward = omega arith;
        used = λ i h e. w.bits i h ∙ stays_set (between range.start range.end i) e;
      })
    where
      same_state :
          (bitmap : List ℕ)
          → flag_range range true self ≡ ok (tt, record self { bitmap = bitmap })
          → Leaves out (flag_range range true self)
          → record self { bitmap = bitmap } ≡ out
      same_state bitmap r (returned a e) = ground (arith, r, e)
      same_state bitmap r (refused a e) = ground (arith, r, e)

  module _ (bits : ℕ) (self : BitmapAllocator) (some_bits : 0 < bits) (at_most : bits ≤ 16)
      (v : IsValid self) where
    small : bits < self.size → IsSmall x86 self bits
    small h = record { valid = v; some_bits = some_bits; at_most = at_most; fits = h }

    -- A request for the whole bitmap or more is refused.
    too_large : self.size ≤ bits → alloc x86 bits self ≡ err (out_of_bounds, self)
    unfolding alloc scan
    too_large h = ground arith

    pub granted-Allocates :
        (at : ℕ) (out : BitmapAllocator)
        → alloc x86 bits self ≡ ok (at, out)
        → Allocates x86 self bits at (alloc x86 bits self)
    granted-Allocates at out e = elim (lt-or-le bits self.size) [
      | inl h ↦ alloc-Allocates x86 self bits at out (small h) e
      | inr h ↦ absurd (ground (arith, too_large h, e))
    ]

    -- A refusal that comes from the marking has moved `last_allocated`.
    after_scan :
        (at : ℕ) (e : MemoryError) (out : BitmapAllocator)
        → scan x86 self bits ≡ ok at
        → alloc x86 bits self ≡ err (e, out)
        → moved_to x86 self bits at ≡ out
    unfolding alloc
    after_scan at e out found q = elim (lt-or-le (self.size * 8) (at + bits)) [
      | inl far ↦
          let no =
            flag_range-err (moved_to x86 self bits at) (span x86 self bits at) true
              (moved_to-IsValid x86 self bits at v) far in
          ground (arith, found, no, q)
      | inr near ↦ elim (lt-or-le self.size (at + bits)) [
        | inl past ↦
            let no =
              flag_range-panics (moved_to x86 self bits at) (span x86 self bits at) true
                (moved_to-IsValid x86 self bits at v) (omega (arith, some_bits)) past near in
            absurd (ground (arith, found, no, q))
        | inr h ↦
            let m = alloc-Marks x86 self bits at v found h in absurd (ground (arith, m.returns, q))
      ]
    ]

    pub not_granted-Grows :
        (e : MemoryError) (out : BitmapAllocator)
        → alloc x86 bits self ≡ err (e, out)
        → Grows self out
    not_granted-Grows e out q = elim (lt-or-le bits self.size) [
      | inr h ↦
          let same : self ≡ out = ground (arith, too_large h, q) in
          subst (Grows self) same (still self v)
      | inl h ↦
          let (target, _, _, found) = scanned x86 self bits (small h) in
          elim found [
            | inr (none_found, _) ↦
                let same : self ≡ out = ground (arith, alloc-err x86 self bits none_found, q) in
                subst (Grows self) same (still self v)
            | inl (at, f, run) ↦ subst (Grows self) (after_scan at e out f q) (record {
              valid = moved_to-IsValid x86 self bits at v;
              same_size = refl;
              forward = omega (arith, run.low);
              used = λ i h' e'. e';
            })
          ]
    ]

    pub granted-Grows :
        (at : ℕ) (out : BitmapAllocator) → alloc x86 bits self ≡ ok (at, out) → Grows self out
    granted-Grows at out e =
        let a = granted-Allocates at out e in
        let same : a.marks.out ≡ out = ground (arith, a.marks.returns, e) in
        subst (Grows self) same (record {
          valid = a.marks.valid;
          same_size = a.marks.same_size;
          forward = omega (arith, a.behind, a.marks.moved);
          used = λ i h e'. a.marks.marked i h ∙ stays_set (between at (at + bits) i) e';
        })
