-- ===== src/Bitmap/Scan.antt =====
-- `scan`, `scan_bits` and `scan_bytes` of src/memory/paging/bitmap_allocator.rs. The `while` loops
-- run on fuel, a round each; the byte sum is zero before each addition, so it cannot overflow.
use kermol.Common.{ℕ, zero, suc, ◌+◌, ◌/◌, ◌%◌, ◌^◌, bit_and, Bool, true, false, ◌&&◌}
use kermol.Common.{if◌then◌else◌, ltb, leb, ◌==◌}
use kermol.Common.{Outcome, ok, err, panic, out_of_fuel, ◌>>=◌, division_by_zero, invalid_address}
use kermol.Common.{add64, mul64, sub64, index, or_panic}
use kermol.X86.{X86}
use kermol.Errors.{MemoryError, out_of_bounds, allocation_error}
use kermol.Bitmap.{BitmapAllocator}

abbrev Read : Type 0 → Type 0
Read A = Outcome MemoryError A

-- The local variables of both loops.
pub record Cursor : Type 0 where
  pub sum : ℕ
  pub found : ℕ
  pub current : ℕ

-- `a % b` on `u64`.
abbrev pub rem64 : ℕ → ℕ → Read ℕ
rem64 a b = if b == 0 then panic division_by_zero else ok (a % b)

-- The test of the inner loops.
abbrev pub runs : ℕ → ℕ → Cursor → Bool
runs target limit c = c.sum == 0 && ltb c.found target && ltb c.current limit

-- The inner loop of `scan_bits`, one bit a round; `limit` is `self.size * 8`.
unfoldable pub scan_bits_run : ℕ → BitmapAllocator → ℕ → ℕ → Cursor → Read Cursor
scan_bits_run zero self target limit c = out_of_fuel
scan_bits_run (suc fuel) self target limit c = elim (runs target limit c) [
  | false ↦ ok c
  | true ↦ do
    i ← rem64 (c.current / 8) (self.size / 8)
    byte ← index self.bitmap i
    scan_bits_run fuel self target limit (record {
      sum = c.sum + bit_and byte (2 ^ (c.current % 8));
      found = c.found + 1;
      current = c.current + 1;
    })
]

-- The outer loop: each round starts a new run of free bits at `current`.
unfoldable pub scan_bits_from : ℕ → BitmapAllocator → ℕ → ℕ → ℕ → Read ℕ
unfolding scan_bits_run
scan_bits_from zero self target limit current = out_of_fuel
scan_bits_from (suc fuel) self target limit current = elim (ltb current limit) [
  | false ↦ err allocation_error
  | true ↦ do
    c ←
        scan_bits_run (suc fuel) self target limit
          (record { sum = 0; found = 0; current = current })
    elim (ltb 0 c.sum) [
      | true ↦ scan_bits_from fuel self target limit c.current
      | false ↦ sub64 c.current c.found
    ]
]

-- Each round of either loop advances `current`, which stays at most the limit.
unfoldable pub scan_bits : BitmapAllocator → ℕ → Read ℕ
unfolding scan_bits_from
scan_bits self target = do
  limit ← mul64 self.size 8
  scan_bits_from (limit + 1) self target limit self.last_allocated

-- The inner loop of `scan_bytes`: it reads the byte whose index is `current % self.size`.
unfoldable pub scan_bytes_run : ℕ → BitmapAllocator → ℕ → Cursor → Read Cursor
scan_bytes_run zero self target c = out_of_fuel
scan_bytes_run (suc fuel) self target c = elim (runs target self.size c) [
  | false ↦ ok c
  | true ↦ do
    i ← rem64 c.current self.size
    byte ← index self.bitmap i
    current ← add64 c.current 8
    scan_bytes_run fuel self target
        (record { sum = c.sum + byte; found = c.found + 1; current = current })
]

unfoldable pub scan_bytes_from : ℕ → BitmapAllocator → ℕ → ℕ → Read ℕ
unfolding scan_bytes_run
scan_bytes_from zero self target current = out_of_fuel
scan_bytes_from (suc fuel) self target current = elim (ltb current self.size) [
  | false ↦ err allocation_error
  | true ↦ do
    c ← scan_bytes_run (suc fuel) self target (record { sum = 0; found = 0; current = current })
    elim (ltb 0 c.sum) [
      | true ↦ scan_bytes_from fuel self target c.current
      | false ↦ do bytes ← mul64 c.found 8; sub64 c.current bytes
    ]
]

module _ (x86 : X86) where
  abbrev pub align_up : ℕ → ℕ → Read ℕ
  align_up a align = or_panic invalid_address (x86.align_up a align)

  unfoldable pub scan_bytes : BitmapAllocator → ℕ → Read ℕ
  unfolding scan_bytes_from
  scan_bytes self target = do
    current ← align_up self.last_allocated 8
    scan_bytes_from (self.size + 1) self target current

  unfoldable pub scan : BitmapAllocator → ℕ → Read ℕ
  unfolding scan_bits scan_bytes
  scan self bits =
      if leb self.size bits
      then err out_of_bounds
      else if ltb 16 bits
      then scan_bytes self bits
      else (do target ← align_up bits 8; scan_bits self target)
