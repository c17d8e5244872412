-- ===== src/Bitmap/Tests.antt =====
-- Runs of the bitmap allocator, and its theorems at concrete inputs.
use kermol.Common.{ℕ, ◌+◌, ◌*◌, ◌≤◌, ◌<◌, ◌≡◌, ◌≢◌, refl, Bool, true, false, [], ◌∷◌, replicate}
use kermol.Common.{ok, err, panic, index_out_of_range, slice_out_of_range, arith, ◌⊎◌, ◌↔◌}
use kermol.Common.{get_or, zero, suc, if◌then◌else◌, not_yet_implemented}
use kermol.Common.Bits.{test_bit}
use kermol.Errors.{out_of_bounds, double_free}
use kermol.X86.Example.{machine}
use kermol.Bitmap.{BitmapAllocator, Range, check_range, flag_range}
use kermol.Bitmap.View.{IsValid, Rewrites, bit_at}
use kermol.Bitmap.Flag.{flagged, flag_range-Rewrites}
use kermol.Bitmap.Flag.Panics.{flag_range-panics, flag_range-err}
use kermol.Bitmap.Check.{check_range_iff}
use kermol.Bitmap.Alloc.{alloc, free, free_range}
use kermol.Bitmap.Allocate.{IsSmall, Allocates, Marks, alloc-Allocates, alloc_total, alloc-no_wrap}
use kermol.Bitmap.Release.{free_lem, free_range_lem}
use kermol.Bitmap.History.{freed, granted, start, refused}
use kermol.Bitmap.History.Grants.{Accounts, Reaches-Accounts}
use kermol.Bitmap.Termination.{alloc-ne-out_of_fuel}
use kermol.Common.{out_of_fuel}
use kermol.Bitmap.ByteScan.{IsLarge, alloc_large-sparse}

-- 32 bits, of which bits 0 to 3 and bit 9 are used.
abbrev pages : BitmapAllocator
pages = record { bitmap = 0x0F ∷ 0x02 ∷ 0 ∷ 0 ∷ []; size = 32; last_allocated = 0 }

pages-IsValid : IsValid pages
pages-IsValid = omega arith

abbrev span : ℕ → ℕ → Range
span a b = record { start = a; end = b }

alloc_runs :
    alloc machine 3 pages
    ≡ ok (10, record { bitmap = 0x0F ∷ 0x1E ∷ 0 ∷ 0 ∷ []; size = 32; last_allocated = 13 })
unfolding alloc
alloc_runs = refl

-- The freed bit stays used.
free_runs : free 4 pages ≡ ok (tt, pages)
unfolding free test_bit
free_runs = refl

free_used : free 3 pages ≡ err (double_free, pages)
unfolding free test_bit
free_used = refl

flag_range_runs :
    flag_range (span 5 27) true pages
    ≡ ok (tt, record pages { bitmap = 0xEF ∷ 0xFF ∷ 0xFF ∷ 0x07 ∷ [] })
unfolding flag_range
flag_range_runs = refl

-- Clearing a range reaches its whole bytes only.
unflag_range_runs :
    flag_range (span 2 16) false pages ≡ ok (tt, record pages { bitmap = 0x0F ∷ 0 ∷ 0 ∷ 0 ∷ [] })
unfolding flag_range
unflag_range_runs = refl

flag_range-Rewrites_example :
    Rewrites pages (flagged pages (span 5 27) true) (flag_range (span 5 27) true pages)
flag_range-Rewrites_example =
    flag_range-Rewrites pages (span 5 27) true pages-IsValid (omega arith) (omega arith)

flag_range-panics_example :
    (flag_range (span 30 34) true pages ≡ panic index_out_of_range)
    ⊎ (flag_range (span 30 34) true pages ≡ panic slice_out_of_range)
flag_range-panics_example =
    flag_range-panics pages (span 30 34) true pages-IsValid (omega arith) (omega arith)
      (omega arith)

flag_range-err_example : flag_range (span 0 257) true pages ≡ err (out_of_bounds, pages)
flag_range-err_example = flag_range-err pages (span 0 257) true pages-IsValid (omega arith)

check_range_iff_example :
    (b : Bool) × (check_range pages (span 10 32) false ≡ ok b)
    × ((b ≡ true) ↔ ((i : ℕ) → 10 ≤ i → i < 32 → bit_at pages.bitmap i ≡ false))
check_range_iff_example =
    check_range_iff pages (span 10 32) false pages-IsValid (omega arith) (omega arith)

three-IsSmall : IsSmall machine pages 3
three-IsSmall = record {
  valid = pages-IsValid;
  some_bits = omega arith;
  at_most = omega arith;
  fits = omega arith;
}

alloc-Allocates_example : Allocates machine pages 3 10 (alloc machine 3 pages)
alloc-Allocates_example = alloc-Allocates machine pages 3 10 _ three-IsSmall alloc_runs

-- What a run of `check_range` says of the bits.
check_range_bits :
    (self : BitmapAllocator) (range : Range) (value : Bool)
    → IsValid self
    → range.start ≤ range.end
    → range.end ≤ self.size
    → check_range self range value ≡ ok true
    → (i : ℕ) → range.start ≤ i
    → i < range.end
    → bit_at self.bitmap i ≡ value
check_range_bits self range value v p q e =
    let (b, r, all) = check_range_iff self range value v p q in all.0 (ground (arith, r, e))

upper_is_free : check_range pages (span 10 32) false ≡ ok true
unfolding check_range test_bit
upper_is_free = refl

alloc_total_example : (at : ℕ) × (at ≤ 20) × Allocates machine pages 3 at (alloc machine 3 pages)
alloc_total_example =
    alloc_total machine pages 3 20 three-IsSmall (omega arith) (omega arith) λ i p q.
      check_range_bits pages (span 10 32) false pages-IsValid (omega arith) (omega arith)
        upper_is_free i (omega arith) (omega arith)

-- The last byte is used and the scan starts there: the 24 free bits below are out of reach.
abbrev wrapped : BitmapAllocator
wrapped = record { bitmap = 0 ∷ 0 ∷ 0 ∷ 0xFF ∷ []; size = 32; last_allocated = 24 }

wrapped-IsSmall : IsSmall machine wrapped 3
wrapped-IsSmall = record {
  valid = omega arith;
  some_bits = omega arith;
  at_most = omega arith;
  fits = omega arith;
}

last_byte_is_used : check_range wrapped (span 24 32) true ≡ ok true
unfolding check_range test_bit
last_byte_is_used = refl

alloc_wrapped : alloc machine 3 wrapped ≡ panic index_out_of_range
unfolding alloc
alloc_wrapped = refl

alloc-no_wrap_example : alloc machine 3 wrapped ≢ ok (0, wrapped)
alloc-no_wrap_example =
    alloc-no_wrap machine wrapped 3 (0, wrapped) wrapped-IsSmall
      λ i p q.
        check_range_bits wrapped (span 24 32) true (omega arith) (omega arith) (omega arith)
          last_byte_is_used i p q

free_lem_example : free 4 pages ≡ ok (tt, pages)
unfolding bit_at test_bit
free_lem_example = free_lem pages 4 pages-IsValid

free_range_lem_example :
    (b : Bool) × ((b ≡ true) ↔ ((i : ℕ) → 10 ≤ i → i < 32 → bit_at pages.bitmap i ≡ false))
    × (free_range (span 10 32) pages
        ≡ (if b then panic not_yet_implemented else err (double_free, pages)))
free_range_lem_example = free_range_lem pages (span 10 32) pages-IsValid (omega arith) (omega arith)

-- 1088 bits, of which bits 8 to 15 are used.
abbrev large : BitmapAllocator
large = record { bitmap = 0 ∷ 0xFF ∷ replicate 134 0; size = 1088; last_allocated = 0 }

get_or-replicate : (n i : ℕ) → get_or {A = ℕ} (replicate n 0) i 0 ≡ 0
get_or-replicate zero i = refl
get_or-replicate (suc n) zero = refl
get_or-replicate (suc n) (suc i) = get_or-replicate n i

large_sparse : (j : ℕ) → get_or large.bitmap (8 * j) 0 ≡ 0
large_sparse zero = refl
large_sparse (suc j) =
    let e : 8 * suc j ≡ suc (suc (6 + 8 * j)) = omega arith in
    rw e (get_or-replicate 134 (6 + 8 * j))

large-IsLarge : IsLarge machine large 17
large-IsLarge = record {
  valid = omega arith;
  more = omega arith;
  fits = omega arith;
  at_front = refl;
}

-- The range of 17 bits at 0 covers the eight used bits.
alloc_large-sparse_example : Marks machine large 17 0 (alloc machine 17 large)
alloc_large-sparse_example =
    alloc_large-sparse machine large 17 large-IsLarge (omega arith) (λ j h. large_sparse j)

abbrev clear : BitmapAllocator
clear = record { bitmap = replicate 4 0; size = 32; last_allocated = 0 }

clear-IsLarge : IsLarge machine clear 17
clear-IsLarge = record {
  valid = omega arith;
  more = omega arith;
  fits = omega arith;
  at_front = refl;
}

alloc-ne-out_of_fuel_example : alloc machine 40 pages ≢ out_of_fuel
alloc-ne-out_of_fuel_example = alloc-ne-out_of_fuel machine 40 pages

-- Three bits are granted, and giving one of them back is refused.
abbrev three_granted : BitmapAllocator
three_granted = record { bitmap = 0x0F ∷ 0x1E ∷ 0 ∷ 0 ∷ []; size = 32; last_allocated = 13 }

not_freed : free 11 three_granted ≡ err (double_free, three_granted)
unfolding free test_bit
not_freed = refl

Reaches-Accounts_example : Accounts pages three_granted (span 10 13 ∷ [])
Reaches-Accounts_example =
    Reaches-Accounts machine pages pages-IsValid three_granted (span 10 13 ∷ []) (
      freed 11 three_granted three_granted (span 10 13 ∷ [])
        (granted 3 10 pages three_granted [] start (omega arith) (omega arith) alloc_runs)
        (refused double_free not_freed))
