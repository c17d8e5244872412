-- ===== src/Bitmap/Flag.antt =====
-- What `flag` and `flag_range` do to the bits.
pub mod Panics
use kermol.Common.{ok}
use kermol.Common.{
  List, ℕ, zero, suc, ◌+◌, ◌-◌, ◌*◌, ◌/◌, ◌%◌, ◌≤◌, ◌<◌, ◌≡◌, refl, Bool, true, false,
}
use kermol.Common.{length, get_or, get_elem?, set, fill, length-set, length-fill, All-set}
use kermol.Common.{◌&&◌, ◌||◌, if◌then◌else◌, ltb, leb, ◌==◌, arith, All-fill}
use kermol.Common.{
  get_elem?-eq-get_or, get_elem?-eq-none, lt-or-le, inl, inr, ◌⊎◌, err, panic, index_out_of_range,
  slice_out_of_range, set-get_or_self, some, ◌∙◌, bit_or, ◌^◌,
}
use kermol.Common.Bits.{IsByte, bit_or-IsByte, bit_or-zero, pattern_byte}
use kermol.Bitmap.{BitmapAllocator, Range, flag, flag_bits, fill_bytes, flag_range}
use kermol.Bitmap.{byte_aligned_start, byte_aligned_end}
use kermol.Errors.{out_of_bounds}
use kermol.Bitmap.View.{
  IsValid, Rewrites, Rewrites-IsValid, bit_at, get_or-IsByte, bit_at-set_bit, bit_at-fill,
}

abbrev pub between : ℕ → ℕ → ℕ → Bool
between from to i = leb from i && ltb i to

-- The read of `self.bitmap[bit / 8]` is in range.
pub read_byte :
    (self : BitmapAllocator) (bit : ℕ)
    → IsValid self
    → bit < self.size
    → get_elem? self.bitmap (bit / 8) ≡ some (get_or self.bitmap (bit / 8) 0)
read_byte self bit v h = get_elem?-eq-get_or self.bitmap (bit / 8) 0 (omega arith)

pub flag-Rewrites :
    (self : BitmapAllocator) (bit : ℕ) (value : Bool)
    → IsValid self
    → bit < self.size
    → Rewrites self (λ i. value && (bit == i) || bit_at self.bitmap i) (flag bit value self)
unfolding flag
flag-Rewrites self bit true v h = record {
  out = set self.bitmap (bit / 8) (bit_or (get_or self.bitmap (bit / 8) 0) (2 ^ (bit % 8)));
  returns = ground (arith, read_byte self bit v h);
  same_length = length-set _ _ _;
  bytes =
      All-set IsByte _ _ _ v.bytes
        (bit_or-IsByte _ _ (get_or-IsByte self.bitmap v.bytes (bit / 8)) (omega arith));
  bits = λ i hi. bit_at-set_bit self.bitmap v.bytes bit i (omega arith);
}
flag-Rewrites self bit false v h =
    let byte = get_or self.bitmap (bit / 8) 0 in
    record {
      out = self.bitmap;
      returns = ground (
        arith,
        read_byte self bit v h,
        bit_or-zero byte (get_or-IsByte self.bitmap v.bytes (bit / 8)),
        set-get_or_self self.bitmap (bit / 8) 0,
      );
      same_length = refl;
      bytes = v.bytes;
      bits = λ i hi. refl;
    }

pub flag_bits-Rewrites :
    (count : ℕ) (self : BitmapAllocator) (bit : ℕ) (value : Bool)
    → IsValid self
    → bit + count ≤ self.size
    → Rewrites self
        (λ i. value && between bit (bit + count) i || bit_at self.bitmap i)
        (flag_bits count bit value self)
unfolding flag_bits
flag_bits-Rewrites zero self bit value v h = record {
  out = self.bitmap;
  returns = refl;
  same_length = refl;
  bytes = v.bytes;
  bits = λ i hi. ground arith;
}
flag_bits-Rewrites (suc count) self bit value v h =
    let first = flag-Rewrites self bit value v (omega arith) in
    let rest =
      flag_bits-Rewrites count (record self { bitmap = first.out }) (bit + 1) value
        (Rewrites-IsValid v first) (omega arith) in
    record {
      out = rest.out;
      returns = rw first.returns rest.returns;
      same_length = rest.same_length ∙ first.same_length;
      bytes = rest.bytes;
      bits = λ i hi. ground (arith, rest.bits i hi, first.bits i hi);
    }

pattern_byte-IsByte : (v : Bool) → IsByte (pattern_byte v)
pattern_byte-IsByte true = omega arith
pattern_byte-IsByte false = omega arith

pub fill_bytes-Rewrites :
    (self : BitmapAllocator) (from to : ℕ) (value : Bool)
    → IsValid self
    → from ≤ to
    → to ≤ length self.bitmap
    → Rewrites self
        (λ i. if between (from * 8) (to * 8) i then value else bit_at self.bitmap i)
        (fill_bytes from to (pattern_byte value) self)
unfolding fill_bytes
fill_bytes-Rewrites self from to value v p q = record {
  out = fill self.bitmap from to (pattern_byte value);
  returns = ground arith;
  same_length = length-fill _ _ _ _;
  bytes = All-fill IsByte _ _ _ _ v.bytes (pattern_byte-IsByte value);
  bits = λ i hi. bit_at-fill self.bitmap v.bytes from to i value q;
}

-- The bits after `flag_range`: `true` sets the range; `false` clears only its whole bytes, and
-- nothing of a range shorter than a byte.
abbrev pub flagged : BitmapAllocator → Range → Bool → ℕ → Bool
flagged self range true i = between range.start range.end i || bit_at self.bitmap i
flagged self range false i =
    if leb 8 (range.end - range.start)
      && between (byte_aligned_start range) (byte_aligned_end range) i
    then false
    else bit_at self.bitmap i

module _ (self : BitmapAllocator) (range : Range) (value : Bool) (v : IsValid self)
    (ordered : range.start ≤ range.end) (inside : range.end ≤ self.size) where
  short :
      range.end - range.start < 8
      → Rewrites self (flagged self range value) (flag_range range value self)
  unfolding flag_range
  short h =
      let w = flag_bits-Rewrites (range.end - range.start) self range.start value v (omega arith) in
      record {
        out = w.out;
        returns = ground (arith, w.returns);
        same_length = w.same_length;
        bytes = w.bytes;
        bits = λ i hi. ground (arith, w.bits i hi);
      }

  -- A longer range: its head, its whole bytes and its tail.
  module _ (h : 8 ≤ range.end - range.start) where
    abbrev from_byte : ℕ
    from_byte = byte_aligned_start range

    abbrev to_byte : ℕ
    to_byte = byte_aligned_end range

    abbrev with_bits : List ℕ → BitmapAllocator
    with_bits bitmap = record self { bitmap = bitmap }

    three_steps :
        (a b c : List ℕ)
        → flag_bits (from_byte - range.start) range.start value self ≡ ok (tt, with_bits a)
        → fill_bytes (from_byte / 8) (to_byte / 8) (pattern_byte value) (with_bits a)
          ≡ ok (tt, with_bits b)
        → flag_bits (range.end - to_byte) to_byte value (with_bits b) ≡ ok (tt, with_bits c)
        → flag_range range value self ≡ ok (tt, with_bits c)
    unfolding flag_range
    three_steps a b c x y z = ground (arith, x, y, z)

    three_bits :
        (i : ℕ) (a b c : Bool)
        → a ≡ (
            value && between range.start (range.start + (from_byte - range.start)) i
            || bit_at self.bitmap i)
        → b ≡ (if between (from_byte / 8 * 8) (to_byte / 8 * 8) i then value else a)
        → c ≡ (value && between to_byte (to_byte + (range.end - to_byte)) i || b)
        → c ≡ flagged self range value i
    three_bits i a b c x y z = ground (arith, x, y, z)

    head-Rewrites :
        Rewrites self
          (λ i.
            value && between range.start (range.start + (from_byte - range.start)) i
            || bit_at self.bitmap i)
          (flag_bits (from_byte - range.start) range.start value self)
    head-Rewrites =
        flag_bits-Rewrites (from_byte - range.start) self range.start value v (omega arith)

    after_head-IsValid : IsValid (with_bits head-Rewrites.out)
    after_head-IsValid = Rewrites-IsValid v head-Rewrites

    middle-Rewrites :
        Rewrites
          (with_bits head-Rewrites.out)
          (λ i.
            if between (from_byte / 8 * 8) (to_byte / 8 * 8) i
            then value
            else bit_at head-Rewrites.out i)
          (fill_bytes
            (from_byte / 8)
            (to_byte / 8)
            (pattern_byte value)
            (with_bits head-Rewrites.out))
    middle-Rewrites =
        fill_bytes-Rewrites (with_bits head-Rewrites.out) (from_byte / 8) (to_byte / 8) value
          after_head-IsValid (omega arith) (omega (arith, v.whole, head-Rewrites.same_length))

    after_middle-IsValid : IsValid (with_bits middle-Rewrites.out)
    after_middle-IsValid = Rewrites-IsValid after_head-IsValid middle-Rewrites

    tail-Rewrites :
        Rewrites
          (with_bits middle-Rewrites.out)
          (λ i.
            value && between to_byte (to_byte + (range.end - to_byte)) i
            || bit_at middle-Rewrites.out i)
          (flag_bits (range.end - to_byte) to_byte value (with_bits middle-Rewrites.out))
    tail-Rewrites =
        flag_bits-Rewrites (range.end - to_byte) (with_bits middle-Rewrites.out) to_byte value
          after_middle-IsValid (omega arith)

    long : Rewrites self (flagged self range value) (flag_range range value self)
    long = record {
      out = tail-Rewrites.out;
      returns =
          three_steps head-Rewrites.out middle-Rewrites.out tail-Rewrites.out head-Rewrites.returns
            middle-Rewrites.returns tail-Rewrites.returns;
      same_length =
          tail-Rewrites.same_length ∙ middle-Rewrites.same_length ∙ head-Rewrites.same_length;
      bytes = tail-Rewrites.bytes;
      bits = λ i hi.
          three_bits i _ _ _ (head-Rewrites.bits i hi) (middle-Rewrites.bits i hi)
            (tail-Rewrites.bits i hi);
    }

-- On a valid allocator, for an ordered range inside the bitmap, `flag_range` succeeds; it changes
-- no field but the bitmap, keeps its length and its bytes in range, and gives each bit the value
-- that `flagged` says: `true` sets the range, `false` clears its whole bytes only.
pub flag_range-Rewrites :
    (self : BitmapAllocator) (range : Range) (value : Bool)
    → IsValid self
    → range.start ≤ range.end
    → range.end ≤ self.size
    → Rewrites self (flagged self range value) (flag_range range value self)
flag_range-Rewrites self range value v ordered inside =
    elim (lt-or-le (range.end - range.start) 8) [
      | inl h ↦ short self range value v ordered inside h
      | inr h ↦ long self range value v ordered inside h
    ]
