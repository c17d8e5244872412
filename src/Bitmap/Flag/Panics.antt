-- ===== src/Bitmap/Flag/Panics.antt =====
-- A range that `flag_range` lets through past the last bit, and one that it refuses.
use kermol.Common.{ℕ, zero, suc, ◌+◌, ◌-◌, ◌*◌, ◌/◌, ◌≤◌, ◌<◌, ◌≡◌, Bool, arith}
use kermol.Common.{get_elem?-eq-none, lt-or-le, inl, inr, ◌⊎◌, err, panic, index_out_of_range}
use kermol.Common.{slice_out_of_range}
use kermol.Bitmap.{BitmapAllocator, Range, flag, flag_bits, fill_bytes, flag_range}
use kermol.Bitmap.{byte_aligned_start, byte_aligned_end}
use kermol.Errors.{out_of_bounds}
use kermol.Bitmap.View.{IsValid, Rewrites-IsValid}
use kermol.Bitmap.Flag.{flag-Rewrites, flag_bits-Rewrites, fill_bytes-Rewrites}

flag-panics :
    (self : BitmapAllocator) (bit : ℕ) (value : Bool)
    → IsValid self
    → self.size ≤ bit
    → bit < self.size * 8
    → flag bit value self ≡ panic index_out_of_range
unfolding flag
flag-panics self bit value v low high =
    ground (arith, get_elem?-eq-none self.bitmap (bit / 8) (omega arith))

flag_bits-panics :
    (count : ℕ) (self : BitmapAllocator) (bit : ℕ) (value : Bool)
    → IsValid self
    → 0 < count
    → self.size < bit + count
    → bit + count ≤ self.size * 8
    → flag_bits count bit value self ≡ panic index_out_of_range
unfolding flag_bits
flag_bits-panics zero self bit value v pos low high = absurd (omega arith)
flag_bits-panics (suc count) self bit value v pos low high = elim (lt-or-le bit self.size) [
  | inl h ↦
      let w = flag-Rewrites self bit value v h in
      rw w.returns (
        flag_bits-panics count (record self { bitmap = w.out }) (bit + 1) value
          (Rewrites-IsValid v w) (omega arith) (omega arith) (omega arith))
  | inr h ↦ rw (flag-panics self bit value v h (omega arith))
]

module _ (self : BitmapAllocator) (range : Range) (value : Bool) (v : IsValid self)
    (ordered : range.start < range.end) (past : self.size < range.end)
    (checked : range.end ≤ self.size * 8) where
  abbrev first : ℕ
  first = byte_aligned_start range

  abbrev last : ℕ
  last = byte_aligned_end range

  short-panics :
      range.end - range.start < 8 → flag_range range value self ≡ panic index_out_of_range
  unfolding flag_range
  short-panics h = ground (
    arith,
    flag_bits-panics (range.end - range.start) self range.start value v (omega arith) (omega arith)
        (omega arith),
  )

  head-panics :
      8 ≤ range.end - range.start
      → self.size < first
      → range.start < first
      → flag_range range value self ≡ panic index_out_of_range
  unfolding flag_range
  head-panics h p q = ground (
    arith,
    flag_bits-panics (first - range.start) self range.start value v (omega arith) (omega arith)
        (omega arith),
  )

  fill-panics :
      8 ≤ range.end - range.start
      → self.size < last
      → (first ≤ self.size) ⊎ (range.start ≡ first)
      → flag_range range value self ≡ panic slice_out_of_range
  unfolding flag_range fill_bytes
  fill-panics h p (inr e) =
      let none_left : first - range.start ≡ 0 = omega arith in ground (arith, v.whole)
  fill-panics h p (inl q) =
      let a = flag_bits-Rewrites (first - range.start) self range.start value v (omega arith) in
      ground (arith, a.returns, a.same_length, v.whole)

  tail-panics :
      8 ≤ range.end - range.start
      → last ≡ self.size
      → flag_range range value self ≡ panic index_out_of_range
  unfolding flag_range
  tail-panics h p =
      let a = flag_bits-Rewrites (first - range.start) self range.start value v (omega arith) in
      let va = Rewrites-IsValid v a in
      let b =
        fill_bytes-Rewrites (record self { bitmap = a.out }) (first / 8) (last / 8) value va
          (omega arith) (omega (arith, v.whole, a.same_length)) in
      ground (
        arith,
        a.returns,
        b.returns,
        flag_bits-panics (range.end - last) (record self { bitmap = b.out }) last value
            (Rewrites-IsValid va b) (omega arith) (omega arith) (omega arith),
      )

-- On a valid allocator, a range that is not empty and ends past the last bit but within eight times
-- the bitmap passes `flag_range`'s own bounds test and panics on an index or a slice out of range.
pub flag_range-panics :
    (self : BitmapAllocator) (range : Range) (value : Bool)
    → IsValid self
    → range.start < range.end
    → self.size < range.end
    → range.end ≤ self.size * 8
    → (flag_range range value self ≡ panic index_out_of_range)
      ⊎ (flag_range range value self ≡ panic slice_out_of_range)
flag_range-panics self range value v ordered past checked =
    elim (lt-or-le (range.end - range.start) 8) [
      | inl h ↦ inl (short-panics self range value v ordered past checked h)
      | inr h ↦ elim (lt-or-le self.size (last self range value v ordered past checked)) [
        | inl l ↦ elim (lt-or-le self.size (first self range value v ordered past checked)) [
          | inl f ↦ elim (lt-or-le range.start (first self range value v ordered past checked)) [
            | inl s ↦ inl (head-panics self range value v ordered past checked h f s)
            | inr s ↦
                inr (fill-panics self range value v ordered past checked h l (inr (omega arith)))
          ]
          | inr f ↦ inr (fill-panics self range value v ordered past checked h l (inl f))
        ]
        | inr l ↦
            inl (tail-panics self range value v ordered past checked h (omega (arith, v.whole)))
      ]
    ]

-- Past eight times the bitmap, `flag_range` is refused and changes nothing.
pub flag_range-err :
    (self : BitmapAllocator) (range : Range) (value : Bool)
    → IsValid self
    → self.size * 8 < range.end
    → flag_range range value self ≡ err (out_of_bounds, self)
unfolding flag_range
flag_range-err self range value v past = ground arith
