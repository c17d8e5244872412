-- ===== src/Common/Bits.antt =====
-- The bits of a byte: `byte & (1 << k)` and `byte | (1 << k)`, whose laws are checked at every byte.
use kermol.Common.Tests.{if◌then◌else◌, ltb, ◌==◌, same, ==→≡}
use Prim.Native.Nat.{ℕ, zero, suc, ◌^◌, ◌<◌, bit_and, bit_or}
use mathlib.Core.Path.{◌≡◌, refl, ◌∙◌}
use mathlib.Core.Bool.{Bool, true, false, ◌&&◌, ◌||◌, not}
use native.Mathlib.Omega.{arith}

-- Bit `k` of a byte.
unfoldable pub test_bit : ℕ → ℕ → Bool
test_bit byte k = not (bit_and byte (2 ^ k) == 0)

abbrev pub IsByte : ℕ → Type 0
IsByte b = b < 256

-- Whether a test succeeds on each number below a limit.
every : ℕ → (ℕ → Bool) → Bool
every zero test = true
every (suc limit) test = if test limit then every limit test else false

every_applies :
    (limit : ℕ) (test : ℕ → Bool) (k : ℕ) → every limit test ≡ true → k < limit → test k ≡ true
unfolding every
every_applies zero test k all low = absurd (omega arith)
every_applies (suc limit) test k all low =
    let below = every_applies limit test k in ground (arith, all, low, below)

same→≡ : (a b : Bool) → same a b ≡ true → a ≡ b
same→≡ a b h = ground arith

set_table :
    every 256 (λ b.
      every 8 (λ k. every 8 (λ j. same (test_bit (bit_or b (2 ^ k)) j) ((k == j) || test_bit b j))))
    ≡ true
unfolding every test_bit
set_table = refl

byte_table : every 256 (λ b. every 8 (λ k. ltb (bit_or b (2 ^ k)) 256)) ≡ true
unfolding every
byte_table = refl

-- `byte |= 1 << k` sets bit `k` and keeps the others.
pub test_bit-bit_or :
    (b k j : ℕ)
    → b < 256
    → k < 8
    → j < 8
    → test_bit (bit_or b (2 ^ k)) j ≡ ((k == j) || test_bit b j)
test_bit-bit_or b k j hb hk hj =
    same→≡ _ _
      (every_applies 8 _ j (every_applies 8 _ k (every_applies 256 _ b set_table hb) hk) hj)

pub bit_or-IsByte : (b k : ℕ) → b < 256 → k < 8 → IsByte (bit_or b (2 ^ k))
bit_or-IsByte b k hb hk =
    let e = every_applies 8 _ k (every_applies 256 _ b byte_table hb) hk in ground arith

or_zero_table : every 256 (λ b. bit_or b 0 == b) ≡ true
unfolding every
or_zero_table = refl

-- `byte |= 0` changes nothing.
pub bit_or-zero : (b : ℕ) → b < 256 → bit_or b 0 ≡ b
bit_or-zero b h = ==→≡ _ _ (every_applies 256 _ b or_zero_table h)

constant_table : every 8 (λ k. test_bit 0xFF k) && every 8 (λ k. not (test_bit 0 k)) ≡ true
unfolding every test_bit
constant_table = refl

pub test_bit-ones : (k : ℕ) → k < 8 → test_bit 0xFF k ≡ true
test_bit-ones k h = every_applies 8 _ k refl' h
  where
    refl' : every 8 (λ k. test_bit 0xFF k) ≡ true
    refl' = ground (arith, constant_table)

pub test_bit-zeros : (k : ℕ) → k < 8 → test_bit 0 k ≡ false
test_bit-zeros k h = ground (arith, every_applies 8 (λ k. not (test_bit 0 k)) k part h)
  where
    part : every 8 (λ k. not (test_bit 0 k)) ≡ true
    part = ground (arith, constant_table)

-- A byte that equals the pattern of eight bits `v`.
abbrev pub pattern_byte : Bool → ℕ
pattern_byte true = 0xFF
pattern_byte false = 0

pub test_bit-pattern_byte : (v : Bool) (k : ℕ) → k < 8 → test_bit (pattern_byte v) k ≡ v
test_bit-pattern_byte true k h = test_bit-ones k h
test_bit-pattern_byte false k h = test_bit-zeros k h

uniform_table :
    (v : Bool)
    → every 256 (λ b. same (b == pattern_byte v) (every 8 (λ k. same v (test_bit b k)))) ≡ true
unfolding every test_bit
uniform_table true = refl
uniform_table false = refl

every_from : (n : ℕ) (p : ℕ → Bool) → ((x : ℕ) → x < n → p x ≡ true) → every n p ≡ true
unfolding every
every_from zero p h = refl
every_from (suc n) p h =
    ground (arith, h n (omega arith), every_from n p (λ x l. h x (omega arith)))

-- A byte is all ones or all zeros exactly when each of its bits is.
pub eq-pattern_byte :
    (v : Bool) (b : ℕ)
    → b < 256
    → ((k : ℕ) → k < 8 → test_bit b k ≡ v)
    → (b == pattern_byte v) ≡ true
eq-pattern_byte v b hb h =
    same→≡ _ _ (every_applies 256 _ b (uniform_table v) hb) ∙ every_from 8 _ (λ k hk. bit k hk)
  where
    bit : (k : ℕ) → k < 8 → same v (test_bit b k) ≡ true
    bit k hk = ground (arith, h k hk)
