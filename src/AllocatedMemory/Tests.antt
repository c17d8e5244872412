-- ===== src/AllocatedMemory/Tests.antt =====
-- The theorems on `AllocatedMemory` at concrete inputs.
use kermol.Common.{
  ℕ, [], ◌∷◌, ◌≡◌, ◌≢◌, ◌+◌, refl, true, false, some, ok, arith, inl, inr, if◌then◌else◌, ◌==◌,
}
use kermol.X86.{IsCanonical}
use kermol.X86.Example.{machine}
use kermol.Entries.Example.{entries, bits}
use kermol.Bitmap.{BitmapAllocator, Range, check_range}
use kermol.Bitmap.View.{IsValid, bit_at}
use kermol.Bitmap.Check.{check_range_iff}
use kermol.Common.Bits.{test_bit}
use kermol.Common.{◌≤◌, ◌<◌}
use kermol.Controller.{KernelPagingController}
use kermol.AllocatedMemory.{AllocatedMemory, read, write, handle_errors, drop, new}
use kermol.AllocatedMemory.Access.{Ends, write-Ends, read-write}
use kermol.AllocatedMemory.Create.{new-ne-ok}
use kermol.AllocatedMemory.Release.{drop-ne-ok}

abbrev memory : AllocatedMemory machine entries
memory = record {
  virt = 0xFFFFE00000000000;
  phys = 0x200000;
  size = 100;
  flags = bits true true false;
  free_after_use = true;
}

abbrev zeros : ℕ → ℕ
zeros a = 0

-- The memory after the write of a 7.
abbrev sevens : ℕ → ℕ
sevens a = if a == 0xFFFFE00000000000 + 8 then 7 else zeros a

in_range : (at : ℕ) → at + 4 < memory.size → IsCanonical (memory.virt + at)
in_range at l = inr (omega (arith, l), omega (arith, l))

written : write machine entries 4 memory 8 7 zeros ≡ ok (tt, sevens)
unfolding write handle_errors
written = refl

write-Ends_example :
    Ends machine entries memory 4 true 8
      (λ e. (e, zeros))
      (ok (tt, sevens))
      (write machine entries 4 memory 8 7 zeros)
write-Ends_example = write-Ends machine entries memory 4 8 zeros 7 (omega arith) (in_range 8)

read-write_example :
    Ends machine entries memory 4 false 12 (λ e. e) (ok 0) (read machine entries 4 memory 12 sevens)
read-write_example =
    read-write machine entries memory 4 8 zeros sevens 7 12 (omega arith) in_range (omega arith)
      (inr (inl (omega arith))) written

abbrev empty_bitmap : BitmapAllocator
empty_bitmap = record { bitmap = 0 ∷ 0 ∷ []; size = 16; last_allocated = 0 }

abbrev controller : KernelPagingController machine entries
controller = record {
  rec_page_table = record { lvl4 = 0xFFFF800000100000; internal_offset = 0xFFFF800000000000 };
  frame_allocator = empty_bitmap;
  virt_mem_allocator = empty_bitmap;
  memory = λ p i. entries.unused;
}

drop-ne-ok_example : drop machine entries memory (some controller) ≢ ok (tt, some controller)
drop-ne-ok_example = drop-ne-ok machine entries memory (some controller) (tt, some controller)

-- Three frames have been allocated.
abbrev later : KernelPagingController machine entries
later = record controller {
  frame_allocator = record { bitmap = 7 ∷ 0 ∷ []; size = 16; last_allocated = 3 };
}

abbrev above : Range
above = record { start = 3; end = 11 }

later-IsValid : IsValid later.frame_allocator
later-IsValid = omega arith

above_is_free : check_range later.frame_allocator above false ≡ ok true
unfolding check_range test_bit
above_is_free = refl

above_bits : (i : ℕ) → 3 ≤ i → i < 11 → bit_at later.frame_allocator.bitmap i ≡ false
above_bits i p q =
    let (b, r, all) =
      check_range_iff later.frame_allocator above false later-IsValid (omega arith) (omega arith) in
    all.0 (ground (arith, r, above_is_free)) i p q

new-ne-ok_example :
    new machine entries 100 (bits true true false) (some later) ≢ ok (memory, some later)
new-ne-ok_example =
    new-ne-ok machine entries 100 (bits true true false) later (memory, some later)
      (record {
        request = record {
          valid = later-IsValid;
          some_bits = omega arith;
          at_most = omega arith;
          fits = omega arith;
        };
        size = omega arith;
        room = omega arith;
        free = λ i p q. above_bits i p (omega arith);
      })
      (omega arith)
