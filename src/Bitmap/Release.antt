-- ===== src/Bitmap/Release.antt =====
-- `free` and `free_range` give nothing back: `flag` with `false` leaves the byte as it was, and
-- `free_range` ends in `todo!()`.
use kermol.Common.{ℕ, ◌≤◌, ◌<◌, ◌≡◌, ◌≢◌, Bool, true, false, if◌then◌else◌, leb, arith, lt-or-le}
use kermol.Common.{ok, err, panic, not_yet_implemented, inl, inr, ◌↔◌}
use kermol.Common.{set-get_or_self, get_or, ◌/◌}
use kermol.Common.Bits.{bit_or-zero}
use kermol.Errors.{out_of_bounds, double_free}
use kermol.Bitmap.{BitmapAllocator, Range, flag}
use kermol.Bitmap.View.{IsValid, bit_at, get_or-IsByte}
use kermol.Bitmap.Flag.{read_byte, flag_range-Rewrites}
use kermol.Bitmap.Check.{check_lem, check_range_iff}
use kermol.Bitmap.Alloc.{free, free_range}

-- Flagging with `false` changes nothing.
flag-false :
    (self : BitmapAllocator) (bit : ℕ)
    → IsValid self
    → bit < self.size
    → flag bit false self ≡ ok (tt, self)
unfolding flag
flag-false self bit v h = ground (
  arith,
  read_byte self bit v h,
  bit_or-zero (get_or self.bitmap (bit / 8) 0) (get_or-IsByte self.bitmap v.bytes (bit / 8)),
  set-get_or_self self.bitmap (bit / 8) 0,
)

-- On a valid allocator, `free` returns an error and changes nothing for a bit past the end and for
-- a bit that is in use, and for one that is not in use returns the allocator as it was.
pub free_lem :
    (self : BitmapAllocator) (bit : ℕ)
    → IsValid self
    → free bit self ≡ (
        if leb self.size bit
        then err (out_of_bounds, self)
        else if bit_at self.bitmap bit
        then err (double_free, self)
        else ok (tt, self))
unfolding free
free_lem self bit v = elim (lt-or-le bit self.size) [
  | inl h ↦ ground (arith, check_lem self bit false v h, flag-false self bit v h)
  | inr h ↦ ground arith
]

-- On a valid allocator, for an ordered range inside the bitmap, `free_range` reports a double free
-- if a bit of the range is in use, and reaches `todo!()` exactly if none is.
pub free_range_lem :
    (self : BitmapAllocator) (range : Range)
    → IsValid self
    → range.start ≤ range.end
    → range.end ≤ self.size
    → (b : Bool) × ((b ≡ true)
        ↔ ((i : ℕ) → range.start ≤ i → i < range.end → bit_at self.bitmap i ≡ false))
      × (free_range range self ≡ (if b then panic not_yet_implemented else err (double_free, self)))
unfolding free_range
free_range_lem self range v ordered inside =
    let (b, r, all) = check_range_iff self range false v ordered inside in
    let w = flag_range-Rewrites self range false v ordered inside in
    (b, all, ground (arith, r, w.returns))

-- From no state does `free_range` return normally.
pub free_range-ne-ok :
    (range : Range) (self : BitmapAllocator) (x : Unit {0} × BitmapAllocator)
    → free_range range self ≢ ok x
unfolding free_range
free_range-ne-ok range self x e = ground arith
