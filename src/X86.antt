-- ===== src/X86.antt =====
-- What the kernel calls of the `x86_64` crate, as an interface: addresses are their `u64`, `none`
-- is a panic, and the laws are the crate's documented behaviour.
pub mod Example
use kermol.Common.{ℕ, ◌+◌, ◌-◌, ◌%◌, ◌^◌, ◌≤◌, ◌<◌, ◌≡◌, ◌⊎◌, Option, some, word}

-- Bits 48 to 63 repeat bit 47.
abbrev pub IsCanonical : ℕ → Type 0
IsCanonical a = (a < 2 ^ 47) ⊎ (2 ^ 64 ≤ a + 2 ^ 47) × (a < word)

pub record X86 : Type 0 where
  -- `align_up(addr, align)`: the smallest multiple of `align` at or above `addr`.
  pub align_up : ℕ → ℕ → Option ℕ
  pub align_up-eight :
      (a : ℕ)
      → a + 7 < word
      → (x : ℕ) × (align_up a 8 ≡ some x) × (a ≤ x) × (x < a + 8) × (x % 8 ≡ 0)
  -- `PhysAddr::new` and `PhysAddr + u64`.
  pub phys_new : ℕ → Option ℕ
  pub phys_new-some : (a : ℕ) → a < 2 ^ 52 → phys_new a ≡ some a
  pub phys_add : ℕ → ℕ → Option ℕ
  pub phys_add-some : (a n : ℕ) → a + n < 2 ^ 52 → phys_add a n ≡ some (a + n)
  -- `VirtAddr::new` and `VirtAddr + u64`.
  pub virt_new : ℕ → Option ℕ
  pub virt_new-some : (a : ℕ) → IsCanonical a → virt_new a ≡ some a
  pub virt_add : ℕ → ℕ → Option ℕ
  pub virt_add-some : (a n : ℕ) → IsCanonical (a + n) → virt_add a n ≡ some (a + n)
  -- `VirtAddr - u64`.
  pub virt_sub : ℕ → ℕ → Option ℕ
  pub virt_sub-some : (a n : ℕ) → n ≤ a → IsCanonical (a - n) → virt_sub a n ≡ some (a - n)
