-- ===== src/Bitmap/Check.antt =====
-- What `check` and `check_range` return.
use kermol.Common.{ℕ, zero, suc, ◌+◌, ◌-◌, ◌*◌, ◌/◌, ◌%◌, ◌≤◌, ◌<◌, ◌≡◌, refl, Bool, true, false}
use kermol.Common.{List, [], ◌∷◌, length, get_or, take, drop, All, ◌↔◌, inl, inr, lt-or-le}
use kermol.Common.{◌&&◌, ◌==◌, same, arith, ok, sym}
use kermol.Common.{◌∙◌, Bool-cases, ==→≡}
use kermol.Common.Bits.{IsByte, test_bit, pattern_byte, test_bit-pattern_byte, eq-pattern_byte}
use kermol.Bitmap.{BitmapAllocator, Range, check, check_bits, check_bytes, check_range}
use kermol.Bitmap.{byte_aligned_start, byte_aligned_end}
use kermol.Bitmap.View.{IsValid, bit_at, get_or-IsByte}
use kermol.Bitmap.Flag.{read_byte}
use native.Mathlib.Nat.{zero-add, add-zero, suc-add}

-- Whether the `n` bits from `lo` on all have the value `value`.
abbrev uniform : List ℕ → Bool → ℕ → ℕ → Bool
uniform bytes value lo zero = true
uniform bytes value lo (suc n) = same value (bit_at bytes lo) && uniform bytes value (lo + 1) n

module _ (bytes : List ℕ) (value : Bool) where
  uniform-add :
      (m lo n : ℕ)
      → uniform bytes value lo (m + n)
        ≡ (uniform bytes value lo m && uniform bytes value (lo + m) n)
  uniform-add zero lo n = rw (zero-add, add-zero)
  uniform-add (suc m) lo n =
      let e : lo + suc m ≡ lo + 1 + m = omega arith in
      rw (suc-add, e) (ground (arith, uniform-add m (lo + 1) n))

  uniform_sound :
      (n lo i : ℕ) → uniform bytes value lo n ≡ true → lo ≤ i → i < lo + n → bit_at bytes i ≡ value
  uniform_sound zero lo i h p q = absurd (omega arith)
  uniform_sound (suc n) lo i h p q = elim (lt-or-le lo i) [
    | inl l ↦ uniform_sound n (lo + 1) i (ground arith) (omega arith) (omega arith)
    | inr g ↦ let e : i ≡ lo = omega arith in rw e (ground arith)
  ]

  uniform_complete :
      (n lo : ℕ)
      → ((i : ℕ) → lo ≤ i → i < lo + n → bit_at bytes i ≡ value)
      → uniform bytes value lo n ≡ true
  uniform_complete zero lo h = refl
  uniform_complete (suc n) lo h = ground (
    arith,
    h lo (omega arith) (omega arith),
    uniform_complete n (lo + 1) (λ i p q. h i (omega arith) (omega arith)),
  )

pub check_lem :
    (self : BitmapAllocator) (bit : ℕ) (value : Bool)
    → IsValid self
    → bit < self.size
    → check self bit value ≡ ok (same value (bit_at self.bitmap bit))
unfolding check bit_at
check_lem self bit value v h = ground (arith, read_byte self bit v h)

check_bits_lem :
    (count : ℕ) (self : BitmapAllocator) (bit : ℕ) (value so_far : Bool)
    → IsValid self
    → bit + count ≤ self.size
    → check_bits count self bit value so_far ≡ ok (so_far && uniform self.bitmap value bit count)
unfolding check_bits
check_bits_lem zero self bit value so_far v h = ground arith
check_bits_lem (suc count) self bit value true v h =
    rw (check_lem self bit value v (omega arith))
      (check_bits_lem count self (bit + 1) value _ v (omega arith))
check_bits_lem (suc count) self bit value false v h =
    check_bits_lem count self (bit + 1) value false v (omega arith)

bool_ext : (a b : Bool) → (a ≡ true → b ≡ true) → (b ≡ true → a ≡ true) → a ≡ b
bool_ext true b f g = sym (f refl)
bool_ext false b f g = elim (Bool-cases b) [ inl e ↦ g e ∙ sym e | inr e ↦ sym e ]

drop-cons :
    (k : ℕ) (bytes : List ℕ)
    → k < length bytes
    → drop k bytes ≡ get_or bytes k 0 ∷ drop (k + 1) bytes
drop-cons k [] h = absurd (omega arith)
drop-cons zero (x ∷ xs) h = refl
drop-cons (suc k) (x ∷ xs) h =
    let e : suc k + 1 ≡ suc (k + 1) = omega arith in rw e (drop-cons k xs (omega arith))

module _ (bytes : List ℕ) (sane : All IsByte bytes) (value : Bool) where
  pattern-bit :
      (k i : ℕ)
      → (get_or bytes k 0 == pattern_byte value) ≡ true
      → k * 8 ≤ i
      → i < k * 8 + 8
      → bit_at bytes i ≡ value
  unfolding bit_at
  pattern-bit k i e p q =
      let byte : i / 8 ≡ k = omega arith in
      let low : i % 8 < 8 = omega arith in
      rw (byte, ==→≡ (get_or bytes k 0) (pattern_byte value) e)
        (test_bit-pattern_byte value (i % 8) low)

  -- Comparing a byte with the pattern compares its eight bits.
  byte-uniform : (k : ℕ) → (get_or bytes k 0 == pattern_byte value) ≡ uniform bytes value (k * 8) 8
  unfolding bit_at
  byte-uniform k =
      bool_ext _ _ (λ e. uniform_complete bytes value 8 (k * 8) (λ i p q. pattern-bit k i e p q))
        λ u. eq-pattern_byte value _ (get_or-IsByte bytes sane k) λ j h.
          bit_at_byte j h
            (uniform_sound bytes value 8 (k * 8) (k * 8 + j) u (omega arith) (omega arith))
    where
      bit_at_byte :
          (j : ℕ) → j < 8 → bit_at bytes (k * 8 + j) ≡ value → test_bit (get_or bytes k 0) j ≡ value
      bit_at_byte j h b =
          let d : (k * 8 + j) / 8 ≡ k = omega arith in
          let m : (k * 8 + j) % 8 ≡ j = omega arith in rw (d, m) at b

  check_bytes_lem :
      (n k : ℕ) (so_far : Bool)
      → k + n ≤ length bytes
      → check_bytes (take n (drop k bytes)) (pattern_byte value) so_far
        ≡ (so_far && uniform bytes value (k * 8) (n * 8))
  unfolding check_bytes
  check_bytes_lem zero k so_far h = ground arith
  check_bytes_lem (suc n) k so_far h =
      let e : suc n * 8 ≡ 8 + n * 8 = omega arith in
      let e' : k * 8 + 8 ≡ (k + 1) * 8 = omega arith in
      rw (drop-cons k bytes (omega arith), e, uniform-add bytes value 8 (k * 8) (n * 8), e')
        (ground (
          arith,
          check_bytes_lem n (k + 1) (so_far && (get_or bytes k 0 == pattern_byte value)),
          byte-uniform k,
        ))

module _ (self : BitmapAllocator) (range : Range) (value : Bool) (v : IsValid self)
    (ordered : range.start ≤ range.end) (inside : range.end ≤ self.size) where
  abbrev first : ℕ
  first = byte_aligned_start range

  abbrev last : ℕ
  last = byte_aligned_end range

  abbrev Answers : Type 0
  Answers =
      check_range self range value
      ≡ ok (uniform self.bitmap value range.start (range.end - range.start))

  short : range.end - range.start < 8 → Answers
  unfolding check_range
  short h =
      ground (
        arith,
        check_bits_lem (range.end - range.start) self range.start value true v (omega arith),
      )

  split :
      8 ≤ range.end - range.start
      → uniform self.bitmap value range.start (range.end - range.start) ≡ (
          uniform self.bitmap value range.start (first - range.start)
          && uniform self.bitmap value (first / 8 * 8) ((last / 8 - first / 8) * 8)
          && uniform self.bitmap value last (range.end - last))
  split h =
      let whole : ℕ = (last / 8 - first / 8) * 8 in
      let cut : range.end - range.start ≡ first - range.start + (whole + (range.end - last)) =
        omega arith in
      let at_first : range.start + (first - range.start) ≡ first / 8 * 8 = omega arith in
      let at_last : first / 8 * 8 + whole ≡ last = omega arith in
      rw
        (
          cut,
          uniform-add self.bitmap value (first - range.start) range.start _,
          at_first,
          uniform-add self.bitmap value whole (first / 8 * 8) (range.end - last),
          at_last,
        )
        (ground arith)

  long : 8 ≤ range.end - range.start → Answers
  unfolding check_range
  long h = ground (
    arith,
    v.whole,
    split h,
    check_bits_lem (first - range.start) self range.start value true v (omega arith),
    check_bytes_lem self.bitmap v.bytes value (last / 8 - first / 8) (first / 8)
        (uniform self.bitmap value range.start (first - range.start)) (omega (arith, v.whole)),
    check_bits_lem (range.end - last) self last value
        (uniform self.bitmap value range.start (first - range.start)
          && uniform self.bitmap value (first / 8 * 8) ((last / 8 - first / 8) * 8))
        v (omega arith),
  )

-- On a valid allocator, for an ordered range inside the bitmap, `check_range` returns `true`
-- exactly when every bit of the range has the asked value, and `false` otherwise.
pub check_range_iff :
    (self : BitmapAllocator) (range : Range) (value : Bool)
    → IsValid self
    → range.start ≤ range.end
    → range.end ≤ self.size
    → (b : Bool) × (check_range self range value ≡ ok b)
      × ((b ≡ true) ↔ ((i : ℕ) → range.start ≤ i → i < range.end → bit_at self.bitmap i ≡ value))
check_range_iff self range value v ordered inside = (
  uniform self.bitmap value range.start (range.end - range.start),
  answer,
  (
    (λ h i p q. uniform_sound self.bitmap value _ range.start i h p (omega arith)),
    λ h. uniform_complete self.bitmap value _ range.start λ i p q. h i p (omega arith),
  ),
)
  where
    answer : Answers self range value v ordered inside
    answer = elim (lt-or-le (range.end - range.start) 8) [
      | inl h ↦ short self range value v ordered inside h
      | inr h ↦ long self range value v ordered inside h
    ]
