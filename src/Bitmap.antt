-- ===== src/Bitmap.antt =====
-- src/memory/paging/bitmap_allocator.rs: the bitmap of pages or frames, one bit each, set if used.
-- A mutating method is a `Call` on the allocator; one that borrows it shared is a function of it.
pub mod View
pub mod Flag
pub mod Check
pub mod Scan
pub mod Run
pub mod Search
pub mod Release
pub mod Allocate
pub mod ByteScan
pub mod Fuel
pub mod History
pub mod Termination
mod Tests
pub mod Alloc
use kermol.Common.{ℕ, zero, suc, ◌+◌, ◌-◌, ◌/◌, ◌%◌, ◌^◌, bit_or}
use kermol.Common.{Bool, true, false, ◌&&◌, not, List, length, set, fill}
use kermol.Common.{take, drop}
use kermol.Common.{ltb, leb, ◌==◌, same, if◌then◌else◌}
use kermol.Common.{Outcome, ok, err, panic, ◌>>=◌, ◌>>◌, Call, with_state}
use kermol.Common.{slice_out_of_range}
use kermol.Common.{add64, sub64, mul64, index, ensure}
use kermol.Common.Bits.{test_bit, pattern_byte}
use kermol.Errors.{MemoryError, out_of_bounds}

-- The static slice is a list of bytes, indexed from 0.
pub record BitmapAllocator : Type 0 where
  pub bitmap : List ℕ
  pub size : ℕ
  pub last_allocated : ℕ

-- `core::ops::Range<u64>`.
pub record Range : Type 0 where
  pub start : ℕ
  pub end : ℕ

abbrev Read : Type 0 → Type 0
Read A = Outcome MemoryError A

abbrev Write : Type 0 → Type 0
Write A = Call BitmapAllocator MemoryError A

pub in_range : BitmapAllocator → ℕ → Read Bool
in_range self bit = do limit ← mul64 self.size 8; ok (ltb bit limit)

pub range_in_bounds : BitmapAllocator → Range → Read Bool
range_in_bounds self range = do limit ← mul64 self.size 8; ok (leb range.end limit)

-- Whether a bit has the value `value`.
pub check : BitmapAllocator → ℕ → Bool → Read Bool
unfolding in_range
check self bit value = do
  inside ← in_range self bit
  if inside
      then (do byte ← index self.bitmap (bit / 8); ok (same value (test_bit byte (bit % 8))))
      else err out_of_bounds

-- `(flag as u8) << (bit % 8)`.
abbrev flag_mask : Bool → ℕ → ℕ
flag_mask true bit = 2 ^ (bit % 8)
flag_mask false bit = 0

pub flag : ℕ → Bool → Write (Unit {0})
unfolding in_range
flag bit value self = do
  (inside, self) ← with_state self (in_range self bit)
  if inside
      then (do
        (byte, self) ← with_state self (index self.bitmap (bit / 8))
        ok (
          tt,
          record self { bitmap = set self.bitmap (bit / 8) (bit_or byte (flag_mask value bit)) },
        ))
      else err (out_of_bounds, self)

-- `for bit in start..end { self.flag(bit, value)?; }`, with `count` bits to go.
pub flag_bits : ℕ → ℕ → Bool → Write (Unit {0})
unfolding flag
flag_bits zero bit value self = ok (tt, self)
flag_bits (suc count) bit value self = do
  (_, self) ← flag bit value self
  flag_bits count (bit + 1) value self

-- `for bit in start..end { check = check && self.check(bit, value)?; }`.
pub check_bits : ℕ → BitmapAllocator → ℕ → Bool → Bool → Read Bool
unfolding check
check_bits zero self bit value so_far = ok so_far
check_bits (suc count) self bit value so_far = do
  this ← if so_far then check self bit value else ok false
  check_bits count self (bit + 1) value this

abbrev pub byte_aligned_start : Range → ℕ
byte_aligned_start range = range.start + (8 - range.start % 8) % 8

abbrev pub byte_aligned_end : Range → ℕ
byte_aligned_end range = range.end - range.end % 8

-- `bytes[from..to]` is in range.
abbrev slice_ok : List ℕ → ℕ → ℕ → Bool
slice_ok bytes from to = leb from to && leb to (length bytes)

-- `self.bitmap[from..to].fill(v)`.
pub fill_bytes : ℕ → ℕ → ℕ → Write (Unit {0})
fill_bytes from to v self =
    if slice_ok self.bitmap from to
    then ok (tt, record self { bitmap = fill self.bitmap from to v })
    else panic slice_out_of_range

-- `for byte in bytes.iter() { check = check && byte == &test; }`.
pub check_bytes : List ℕ → ℕ → Bool → Bool
check_bytes List.[] test so_far = so_far
check_bytes (List.◌∷◌ byte bytes) test so_far = check_bytes bytes test (so_far && byte == test)

pub flag_range : Range → Bool → Write (Unit {0})
unfolding range_in_bounds flag_bits fill_bytes
flag_range range value self = do
  (inside, self) ← with_state self (range_in_bounds self range)
  if not inside then err (out_of_bounds, self) else do
    (count, self) ← with_state self (sub64 range.end range.start)
    if ltb count 8 then flag_bits count range.start value self else do
      (first, self) ← with_state self (add64 range.start ((8 - range.start % 8) % 8))
      let last = byte_aligned_end range
      (_, self) ← flag_bits (first - range.start) range.start value self
      (_, self) ← fill_bytes (first / 8) (last / 8) (pattern_byte value) self
      flag_bits (range.end - last) last value self

unfoldable pub check_range : BitmapAllocator → Range → Bool → Read Bool
unfolding range_in_bounds check_bits check_bytes
check_range self range value = do
  inside ← range_in_bounds self range
  if not inside then err out_of_bounds else do
    count ← sub64 range.end range.start
    if ltb count 8 then check_bits count self range.start value true else do
      first ← add64 range.start ((8 - range.start % 8) % 8)
      let last = byte_aligned_end range
      so_far ← check_bits (first - range.start) self range.start value true
      let from = first / 8
      let to = last / 8
      ensure (slice_ok self.bitmap from to) slice_out_of_range
      let bytes = take (to - from) (drop from self.bitmap)
      check_bits (range.end - last) self last value (check_bytes bytes (pattern_byte value) so_far)
