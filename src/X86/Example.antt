-- ===== src/X86/Example.antt =====
-- Functions that meet the interface, for runs at concrete inputs.
use kermol.Common.{ℕ, ◌+◌, ◌-◌, ◌*◌, ◌/◌, ◌^◌, ◌≤◌, ◌<◌, ◌%◌, ◌≡◌, Option, some, none, word}
use kermol.Common.{if◌then◌else◌, ltb, leb, ◌||◌, ◌&&◌, true, arith}
use kermol.X86.{X86, IsCanonical}

abbrev pub align_up : ℕ → ℕ → Option ℕ
align_up a n = let x = (a + (n - 1)) / n * n in if ltb x word then some x else none

pub align_up-eight :
    (a : ℕ) → a + 7 < word → (x : ℕ) × (align_up a 8 ≡ some x) × (a ≤ x) × (x < a + 8) × (x % 8 ≡ 0)
align_up-eight a h = ((a + 7) / 8 * 8, ground arith, omega arith, omega arith, omega arith)

abbrev pub phys : ℕ → Option ℕ
phys a = if ltb a (2 ^ 52) then some a else none

pub phys-some : (a : ℕ) → a < 2 ^ 52 → phys a ≡ some a
phys-some a h = ground arith

abbrev pub virt : ℕ → Option ℕ
virt a = if ltb a (2 ^ 47) || leb (2 ^ 64) (a + 2 ^ 47) && ltb a word then some a else none

pub virt-some : (a : ℕ) → IsCanonical a → virt a ≡ some a
virt-some a h = ground arith

pub virt_sub-some :
    (a n : ℕ)
    → n ≤ a
    → IsCanonical (a - n)
    → (if leb n a then virt (a - n) else none) ≡ some (a - n)
virt_sub-some a n l h =
    let inside : leb n a ≡ true = ground (arith, l) in rw inside (virt-some (a - n) h)

abbrev pub machine : X86
machine = record {
  align_up = align_up;
  align_up-eight = align_up-eight;
  phys_new = phys;
  phys_new-some = phys-some;
  phys_add = λ a n. phys (a + n);
  phys_add-some = λ a n h. phys-some (a + n) h;
  virt_new = virt;
  virt_new-some = virt-some;
  virt_add = λ a n. virt (a + n);
  virt_add-some = λ a n h. virt-some (a + n) h;
  virt_sub = λ a n. if leb n a then virt (a - n) else none;
  virt_sub-some = λ a n l h. virt_sub-some a n l h;
}
