-- ===== src/Common/Lists.antt =====
-- Lists measured and indexed by native numbers, under the library's names.
use Prim.Native.Nat.{ℕ, zero, suc, ◌<◌, ◌≤◌}
use mathlib.Core.Path.{◌≡◌, refl, ap}
use mathlib.Core.Logic.{◌≢◌}
use mathlib.Core.List.{List, [], ◌∷◌}
use mathlib.Core.Option.{Option, none, some}
use native.Mathlib.Omega.{arith}

module _ {ℓ} {A : Type ℓ} where
  abbrev pub length : List A → ℕ
  length [] = 0
  length (x ∷ xs) = suc (length xs)

  abbrev pub get_elem? : List A → ℕ → Option A
  get_elem? [] i = none
  get_elem? (x ∷ xs) zero = some x
  get_elem? (x ∷ xs) (suc i) = get_elem? xs i

  abbrev pub get_or : List A → ℕ → A → A
  get_or [] i d = d
  get_or (x ∷ xs) zero d = x
  get_or (x ∷ xs) (suc i) d = get_or xs i d

  -- A write out of bounds changes nothing.
  abbrev pub set : List A → ℕ → A → List A
  set [] i v = []
  set (x ∷ xs) zero v = v ∷ xs
  set (x ∷ xs) (suc i) v = x ∷ set xs i v

  abbrev pub take : ℕ → List A → List A
  take zero xs = []
  take (suc n) [] = []
  take (suc n) (x ∷ xs) = x ∷ take n xs

  abbrev pub drop : ℕ → List A → List A
  drop zero xs = xs
  drop (suc n) [] = []
  drop (suc n) (x ∷ xs) = drop n xs

  abbrev pub replicate : ℕ → A → List A
  replicate zero a = []
  replicate (suc n) a = a ∷ replicate n a

  -- The list with the positions from `a` up to `b` overwritten by `v`.
  abbrev pub fill : List A → ℕ → ℕ → A → List A
  fill [] a b v = []
  fill (x ∷ xs) a zero v = x ∷ xs
  fill (x ∷ xs) zero (suc b) v = v ∷ fill xs zero b v
  fill (x ∷ xs) (suc a) (suc b) v = x ∷ fill xs a b v

  abbrev pub All {κ} : (A → Type κ) → List A → Type κ
  All P [] = Unit
  All P (x ∷ xs) = P x × All P xs

module _ {ℓ} {A : Type ℓ} where
  pub length-set : (xs : List A) (i : ℕ) (v : A) → length (set xs i v) ≡ length xs
  length-set [] i v = refl
  length-set (x ∷ xs) zero v = refl
  length-set (x ∷ xs) (suc i) v = ap suc (length-set xs i v)

  pub length-replicate : (n : ℕ) (a : A) → length (replicate n a) ≡ n
  length-replicate zero a = refl
  length-replicate (suc n) a = ap suc (length-replicate n a)

  pub length-fill : (xs : List A) (a b : ℕ) (v : A) → length (fill xs a b v) ≡ length xs
  length-fill [] a b v = refl
  length-fill (x ∷ xs) a zero v = refl
  length-fill (x ∷ xs) zero (suc b) v = ap suc (length-fill xs zero b v)
  length-fill (x ∷ xs) (suc a) (suc b) v = ap suc (length-fill xs a b v)

  pub get_elem?-eq-get_or :
      (xs : List A) (i : ℕ) (d : A) → i < length xs → get_elem? xs i ≡ some (get_or xs i d)
  get_elem?-eq-get_or [] i d h = absurd (omega arith)
  get_elem?-eq-get_or (x ∷ xs) zero d h = refl
  get_elem?-eq-get_or (x ∷ xs) (suc i) d h = get_elem?-eq-get_or xs i d (omega arith)

  pub get_elem?-eq-none : (xs : List A) (i : ℕ) → length xs ≤ i → get_elem? xs i ≡ none
  get_elem?-eq-none [] i h = refl
  get_elem?-eq-none (x ∷ xs) zero h = absurd (omega arith)
  get_elem?-eq-none (x ∷ xs) (suc i) h = get_elem?-eq-none xs i (omega arith)

  pub get_or-set_self :
      (xs : List A) (i : ℕ) (v d : A) → i < length xs → get_or (set xs i v) i d ≡ v
  get_or-set_self [] i v d h = absurd (omega arith)
  get_or-set_self (x ∷ xs) zero v d h = refl
  get_or-set_self (x ∷ xs) (suc i) v d h = get_or-set_self xs i v d (omega arith)

  pub get_or-set_ne :
      (xs : List A) (i j : ℕ) (v d : A) → i ≢ j → get_or (set xs i v) j d ≡ get_or xs j d
  get_or-set_ne [] i j v d h = refl
  get_or-set_ne (x ∷ xs) zero zero v d h = absurd (h refl)
  get_or-set_ne (x ∷ xs) zero (suc j) v d h = refl
  get_or-set_ne (x ∷ xs) (suc i) zero v d h = refl
  get_or-set_ne (x ∷ xs) (suc i) (suc j) v d h = get_or-set_ne xs i j v d (λ e. h (ap suc e))

  pub set-get_or_self : (xs : List A) (i : ℕ) (d : A) → set xs i (get_or xs i d) ≡ xs
  set-get_or_self [] i d = refl
  set-get_or_self (x ∷ xs) zero d = refl
  set-get_or_self (x ∷ xs) (suc i) d = ap (λ ys. x ∷ ys) (set-get_or_self xs i d)

  pub get_or-fill_inside :
      (xs : List A) (a b i : ℕ) (v d : A)
      → a ≤ i
      → i < b
      → i < length xs
      → get_or (fill xs a b v) i d ≡ v
  get_or-fill_inside [] a b i v d p q r = absurd (omega arith)
  get_or-fill_inside (x ∷ xs) a zero i v d p q r = absurd (omega arith)
  get_or-fill_inside (x ∷ xs) zero (suc b) zero v d p q r = refl
  get_or-fill_inside (x ∷ xs) zero (suc b) (suc i) v d p q r =
      get_or-fill_inside xs zero b i v d (omega arith) (omega arith) (omega arith)
  get_or-fill_inside (x ∷ xs) (suc a) (suc b) zero v d p q r = absurd (omega arith)
  get_or-fill_inside (x ∷ xs) (suc a) (suc b) (suc i) v d p q r =
      get_or-fill_inside xs a b i v d (omega arith) (omega arith) (omega arith)

  pub get_or-fill_below :
      (xs : List A) (a b i : ℕ) (v d : A) → i < a → get_or (fill xs a b v) i d ≡ get_or xs i d
  get_or-fill_below [] a b i v d p = refl
  get_or-fill_below (x ∷ xs) a zero i v d p = refl
  get_or-fill_below (x ∷ xs) zero (suc b) i v d p = absurd (omega arith)
  get_or-fill_below (x ∷ xs) (suc a) (suc b) zero v d p = refl
  get_or-fill_below (x ∷ xs) (suc a) (suc b) (suc i) v d p =
      get_or-fill_below xs a b i v d (omega arith)

  pub get_or-fill_above :
      (xs : List A) (a b i : ℕ) (v d : A) → b ≤ i → get_or (fill xs a b v) i d ≡ get_or xs i d
  get_or-fill_above [] a b i v d p = refl
  get_or-fill_above (x ∷ xs) a zero i v d p = refl
  get_or-fill_above (x ∷ xs) zero (suc b) zero v d p = absurd (omega arith)
  get_or-fill_above (x ∷ xs) zero (suc b) (suc i) v d p =
      get_or-fill_above xs zero b i v d (omega arith)
  get_or-fill_above (x ∷ xs) (suc a) (suc b) zero v d p = absurd (omega arith)
  get_or-fill_above (x ∷ xs) (suc a) (suc b) (suc i) v d p =
      get_or-fill_above xs a b i v d (omega arith)

module _ {ℓ κ} {A : Type ℓ} (P : A → Type κ) where
  pub All-get_or : (xs : List A) (i : ℕ) (d : A) → All P xs → P d → P (get_or xs i d)
  All-get_or [] i d h p = p
  All-get_or (x ∷ xs) zero d h p = h.0
  All-get_or (x ∷ xs) (suc i) d h p = All-get_or xs i d h.1 p

  pub All-set : (xs : List A) (i : ℕ) (v : A) → All P xs → P v → All P (set xs i v)
  All-set [] i v h p = tt
  All-set (x ∷ xs) zero v h p = (p, h.1)
  All-set (x ∷ xs) (suc i) v h p = (h.0, All-set xs i v h.1 p)

  pub All-fill : (xs : List A) (a b : ℕ) (v : A) → All P xs → P v → All P (fill xs a b v)
  All-fill [] a b v h p = tt
  All-fill (x ∷ xs) a zero v h p = h
  All-fill (x ∷ xs) zero (suc b) v h p = (p, All-fill xs zero b v h.1 p)
  All-fill (x ∷ xs) (suc a) (suc b) v h p = (h.0, All-fill xs a b v h.1 p)

  pub All-replicate : (n : ℕ) (v : A) → P v → All P (replicate n v)
  All-replicate zero v p = tt
  All-replicate (suc n) v p = (p, All-replicate n v p)
