-- ===== src/Bitmap/View.antt =====
-- The bit view of the bitmap, its invariant, and the shape of what the mutating methods return.
use kermol.Common.{ℕ, bit_or, ◌^◌, ◌*◌, ◌/◌, ◌%◌, ◌≤◌, ◌<◌, ◌≡◌, ◌≢◌, Bool}
use kermol.Common.{List, length, get_or, set, fill, All}
use kermol.Common.{◌&&◌, ◌||◌, if◌then◌else◌, ltb, leb, ◌==◌, arith, Outcome, ok, word}
use kermol.Common.{get_or-set_self, get_or-set_ne, All-get_or}
use kermol.Common.{get_or-fill_inside, get_or-fill_below, get_or-fill_above, lt-or-le, inl, inr}
use kermol.Common.Bits.{IsByte, test_bit, test_bit-bit_or}
use kermol.Common.Bits.{pattern_byte, test_bit-pattern_byte}
use kermol.Errors.{MemoryError}
use kermol.Bitmap.{BitmapAllocator}

-- Bit `i` of the bytes, counted from the lowest bit of the first.
unfoldable pub bit_at : List ℕ → ℕ → Bool
bit_at bytes i = test_bit (get_or bytes (i / 8) 0) (i % 8)

-- `size` counts the bits of the slice, and eight times it, plus as much again, fits a `u64`.
pub record IsValid (self : BitmapAllocator) : Type 0 where
  pub whole : self.size ≡ length self.bitmap * 8
  pub bytes : All IsByte self.bitmap
  pub small : self.size * 16 < word

-- A normal return that leaves `size` and `last_allocated`, keeps the bitmap's length and its bytes
-- in range, and gives bit `i` the value `f i`.
pub record Rewrites (self : BitmapAllocator) (f : ℕ → Bool)
    (r : Outcome (MemoryError × BitmapAllocator) (Unit {0} × BitmapAllocator)) : Type 0 where
  pub out : List ℕ
  pub returns : r ≡ ok (tt, record self { bitmap = out })
  pub same_length : length out ≡ length self.bitmap
  pub bytes : All IsByte out
  pub bits : (i : ℕ) → i < self.size → bit_at out i ≡ f i

pub Rewrites-IsValid :
    {self : BitmapAllocator} {f : ℕ → Bool}
    {r : Outcome (MemoryError × BitmapAllocator) (Unit {0} × BitmapAllocator)}
    → IsValid self
    → (w : Rewrites self f r) → IsValid (record self { bitmap = w.out })
Rewrites-IsValid v w = record {
  whole = omega (arith, w.same_length);
  bytes = w.bytes;
  small = v.small;
}

div-lt : (i n : ℕ) → i < n * 8 → i / 8 < n
div-lt i n h = omega arith

module _ (bytes : List ℕ) (sane : All IsByte bytes) where
  pub get_or-IsByte : (i : ℕ) → IsByte (get_or bytes i 0)
  get_or-IsByte i = All-get_or IsByte bytes i 0 sane (omega arith)

  -- Setting bit `bit` in its byte sets that bit alone.
  pub bit_at-set_bit :
      (bit i : ℕ)
      → bit < length bytes * 8
      → bit_at (set bytes (bit / 8) (bit_or (get_or bytes (bit / 8) 0) (2 ^ (bit % 8)))) i
        ≡ ((bit == i) || bit_at bytes i)
  unfolding bit_at
  bit_at-set_bit bit i h = elim (lt-or-le (bit / 8) (i / 8)) [
    | inl l ↦ apart (omega arith)
    | inr g ↦ elim (lt-or-le (i / 8) (bit / 8)) [
      | inl l ↦ apart (omega arith)
      | inr g' ↦ together (omega arith)
    ]
  ]
    where
      byte : ℕ
      byte = get_or bytes (bit / 8) 0

      new : ℕ
      new = bit_or byte (2 ^ (bit % 8))

      apart :
          bit / 8 ≢ i / 8
          → test_bit (get_or (set bytes (bit / 8) new) (i / 8) 0) (i % 8)
            ≡ ((bit == i) || test_bit (get_or bytes (i / 8) 0) (i % 8))
      apart ne = rw (get_or-set_ne bytes (bit / 8) (i / 8) new 0 ne) (ground arith)

      together :
          i / 8 ≡ bit / 8
          → test_bit (get_or (set bytes (bit / 8) new) (i / 8) 0) (i % 8)
            ≡ ((bit == i) || test_bit (get_or bytes (i / 8) 0) (i % 8))
      together e =
          rw
            (
              e,
              get_or-set_self bytes (bit / 8) new 0 (div-lt bit (length bytes) h),
              test_bit-bit_or byte (bit % 8) (i % 8) (get_or-IsByte (bit / 8)) (omega arith)
                  (omega arith),
            )
            (ground arith)

  -- Overwriting whole bytes by a pattern gives their bits its value.
  pub bit_at-fill :
      (from to i : ℕ) (v : Bool)
      → to ≤ length bytes
      → bit_at (fill bytes from to (pattern_byte v)) i
        ≡ (if leb (from * 8) i && ltb i (to * 8) then v else bit_at bytes i)
  unfolding bit_at
  bit_at-fill from to i v h = elim (lt-or-le (i / 8) from) [
    | inl l ↦ rw (get_or-fill_below bytes from to (i / 8) p 0 l) (ground arith)
    | inr g ↦ elim (lt-or-le (i / 8) to) [
      | inl l ↦
          rw
            (
              get_or-fill_inside bytes from to (i / 8) p 0 g l (omega arith),
              test_bit-pattern_byte v (i % 8) (omega arith),
            )
            (ground arith)
      | inr g' ↦ rw (get_or-fill_above bytes from to (i / 8) p 0 g') (ground arith)
    ]
  ]
    where
      p : ℕ
      p = pattern_byte v
