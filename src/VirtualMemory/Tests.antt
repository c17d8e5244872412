-- ===== src/VirtualMemory/Tests.antt =====
-- The theorems on the two users of the bitmap at concrete inputs.
use kermol.Common.{ℕ, ◌+◌, ◌*◌, ◌≤◌, ◌<◌, ◌≡◌, refl, true, false, [], ◌∷◌, ok, arith, ◌||◌}
use kermol.Common.Bits.{test_bit}
use kermol.X86.Example.{machine}
use kermol.Linear.{page_size}
use kermol.Bitmap.{BitmapAllocator, Range, check_range}
use kermol.Bitmap.View.{IsValid, bit_at}
use kermol.Bitmap.Flag.{between}
use kermol.Bitmap.Check.{check_range_iff}
use kermol.Bitmap.Allocate.{IsSmall}
use kermol.Frames.Bitmap
use kermol.VirtualMemory.{alloc_contiguous, page_allocator_start}
use kermol.VirtualMemory.Addresses.{alloc_contiguous-Allocates, frame-number}

abbrev pages : BitmapAllocator
pages = record { bitmap = 0x0F ∷ 0x02 ∷ 0 ∷ 0 ∷ []; size = 32; last_allocated = 0 }

pages-IsValid : IsValid pages
pages-IsValid = omega arith

abbrev upper : Range
upper = record { start = 10; end = 32 }

upper_is_free : check_range pages upper false ≡ ok true
unfolding check_range test_bit
upper_is_free = refl

upper_bits : (i : ℕ) → 10 ≤ i → i < 32 → bit_at pages.bitmap i ≡ false
upper_bits i p q =
    let (b, r, all) = check_range_iff pages upper false pages-IsValid (omega arith) (omega arith) in
    all.0 (ground (arith, r, upper_is_free)) i p q

small : (n : ℕ) → 0 < n → n ≤ 16 → IsSmall machine pages n
small n p q = record { valid = pages-IsValid; some_bits = p; at_most = q; fits = omega arith }

alloc_contiguous-Allocates_example :
    (at : ℕ) × (out : BitmapAllocator) × (at ≤ 20)
    × (alloc_contiguous machine 3 pages ≡ ok (page_allocator_start + at * page_size, out))
    × IsValid out
    × (out.size ≡ 32)
    × (out.last_allocated ≡ at + 3)
    × (at + 3 ≤ 32)
    × ((i : ℕ) → at ≤ i → i < at + 3 → bit_at pages.bitmap i ≡ false)
    × ((i : ℕ) → i < 32 → bit_at out.bitmap i ≡ (between at (at + 3) i || bit_at pages.bitmap i))
alloc_contiguous-Allocates_example =
    alloc_contiguous-Allocates machine pages 3 20 (small 3 (omega arith) (omega arith))
      (omega arith) (omega arith) (omega arith) (λ i p q. upper_bits i (omega arith) (omega arith))

frame-number_example :
    (at : ℕ) × (out : BitmapAllocator) × (Bitmap.alloc machine pages ≡ ok (at, out))
    × (at ≤ 20)
    × (bit_at pages.bitmap at ≡ false)
    × (bit_at out.bitmap at ≡ true)
frame-number_example =
    frame-number machine pages 20 (small 1 (omega arith) (omega arith)) (omega arith) (omega arith)
      (omega arith) (λ i p q. upper_bits i (omega arith) (omega arith))
