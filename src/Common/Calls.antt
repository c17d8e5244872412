-- ===== src/Common/Calls.antt =====
-- What a Rust call ends in, and calls that change a borrowed state. Integers are `u64` or `usize`
-- of 64 bits; the kernel is built with the dev profile, whose overflow checks panic.
use Prim.Native.Nat.{ℕ, ◌+◌, ◌-◌, ◌*◌, ◌^◌}
use mathlib.Core.Path.{◌≡◌, refl}
use mathlib.Core.Logic.{◌≢◌}
use native.Mathlib.Omega.{arith}
use mathlib.Core.Bool.{Bool, true, false}
use mathlib.Core.Option.{Option, none, some}
use mathlib.Core.List.{List}
use kermol.Common.Tests.{ltb, if◌then◌else◌}
use kermol.Common.Lists.{get_elem?}

pub data Panic : Type 0 where
  arithmetic_overflow division_by_zero index_out_of_range slice_out_of_range : Panic
  not_yet_implemented assertion_failed explicit_panic unwrap_failed invalid_address : Panic

-- `Ok`, `Err`, a panic (which halts the kernel), or the end of the model's fuel.
pub data Outcome {ℓ κ} (E : Type ℓ) (A : Type κ) : Type (ℓ ⊔ κ) where
  ok : A → Outcome E A
  err : E → Outcome E A
  panic : Panic → Outcome E A
  out_of_fuel : Outcome E A

infixl 5 ◌>>=◌ ◌>>◌
abbrev pub ◌>>=◌ {ℓ κ μ} :
    {E : Type ℓ} {A : Type κ} {B : Type μ} → Outcome E A → (A → Outcome E B) → Outcome E B
ok a >>= f = f a
err e >>= f = err e
panic p >>= f = panic p
out_of_fuel >>= f = out_of_fuel

abbrev pub ◌>>◌ {ℓ κ} : {E : Type ℓ} {B : Type κ} → Outcome E (Unit {0}) → Outcome E B → Outcome E B
m >> k = m >>= λ _. k

abbrev pub word : ℕ
word = 2 ^ 64

module _ {ℓ} {E : Type ℓ} where
  -- `u64` arithmetic under overflow checks.
  abbrev pub add64 : ℕ → ℕ → Outcome E ℕ
  add64 a b = if ltb (a + b) word then ok (a + b) else panic arithmetic_overflow

  abbrev pub sub64 : ℕ → ℕ → Outcome E ℕ
  sub64 a b = if ltb a b then panic arithmetic_overflow else ok (a - b)

  abbrev pub mul64 : ℕ → ℕ → Outcome E ℕ
  mul64 a b = if ltb (a * b) word then ok (a * b) else panic arithmetic_overflow

  -- `xs[i]` and `x.expect(…)`.
  abbrev pub or_panic {κ} : {A : Type κ} → Panic → Option A → Outcome E A
  or_panic p none = panic p
  or_panic p (some a) = ok a

  abbrev pub index {κ} : {A : Type κ} → List A → ℕ → Outcome E A
  index xs i = or_panic index_out_of_range (get_elem? xs i)

  abbrev pub ensure : Bool → Panic → Outcome E (Unit {0})
  ensure true p = ok tt
  ensure false p = panic p

-- A call that changes a state: an error keeps the changes made before it.
abbrev pub Call {ℓ κ μ} : Type ℓ → Type κ → Type μ → Type (ℓ ⊔ κ ⊔ μ)
Call S E A = S → Outcome (E × S) (A × S)

-- A call through a shared borrow, in the place of one that may change the state.
abbrev pub with_state {ℓ κ μ} :
    {S : Type ℓ} {E : Type κ} {A : Type μ} → S → Outcome E A → Outcome (E × S) (A × S)
with_state s (ok a) = ok (a, s)
with_state s (err e) = err (e, s)
with_state s (panic p) = panic p
with_state s out_of_fuel = out_of_fuel

-- A chain whose first call never returns normally does not either.
pub bind-ne-ok {ℓ κ μ} :
    {E : Type ℓ} {A : Type κ} {B : Type μ} (m : Outcome E A) (f : A → Outcome E B) (b : B)
    → ((a : A) → m ≢ ok a)
    → (m >>= f) ≢ ok b
bind-ne-ok (ok a) f b h e = absurd (h a refl)
bind-ne-ok (err x) f b h e = ground arith
bind-ne-ok (panic p) f b h e = ground arith
bind-ne-ok out_of_fuel f b h e = ground arith

-- A chain that goes on to a call that never returns normally does not either.
pub chain-ne-ok {ℓ κ μ} :
    {E : Type ℓ} {A : Type κ} {B : Type μ} (m : Outcome E A) (f : A → Outcome E B) (b : B)
    → ((a : A) → f a ≢ ok b)
    → (m >>= f) ≢ ok b
chain-ne-ok (ok a) f b h e = h a e
chain-ne-ok (err x) f b h e = ground arith
chain-ne-ok (panic p) f b h e = ground arith
chain-ne-ok out_of_fuel f b h e = ground arith

-- A chain from a call whose result is known.
pub known-ne-ok {ℓ κ μ} :
    {E : Type ℓ} {A : Type κ} {B : Type μ} (m : Outcome E A) (f : A → Outcome E B) (a : A) (b : B)
    → m ≡ ok a
    → f a ≢ ok b
    → (m >>= f) ≢ ok b
known-ne-ok m f a b known h e = h (rw known at e)
