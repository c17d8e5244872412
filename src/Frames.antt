-- ===== src/Frames.antt =====
-- The trait `FrameAllocator` of src/memory/paging/frame_allocation.rs, and what its users rely on.
pub mod Bitmap
pub mod Linear
use native.Mathlib.Nat.{zero-add}
use kermol.Common.{ℕ, zero, suc, ◌+◌, arith, ◌%◌, ◌^◌, ◌≤◌, ◌<◌, ◌≡◌, ◌⊎◌, Call, ok, err}
use kermol.Errors.{MemoryError}

-- The methods on an allocator of type `F`. Physical addresses are their `u64`.
pub record FrameAllocator (F : Type 0) : Type 0 where
  pub alloc : Call F MemoryError ℕ
  pub alloc_contiguous : ℕ → Call F MemoryError ℕ
  pub free : ℕ → Call F MemoryError (Unit {0})
  pub free_contiguous : ℕ → ℕ → Call F MemoryError (Unit {0})

-- What `map` relies on. `Ready n f` says that the next `n` calls of `alloc` return, each with a
-- frame or with an error; `Avail f a` says that the allocator may still give out the frame `a`. A
-- frame that it gives out was available, is aligned, lies below `top` and is not available again.
pub record IsFrameSource {F : Type 0} (allocator : FrameAllocator F) : Type 1 where
  pub Ready : ℕ → F → Type 0
  pub Avail : F → ℕ → Type 0
  pub top : ℕ
  pub top-le : top ≤ 2 ^ 52
  pub fewer : (n : ℕ) (f : F) → Ready (suc n) f → Ready n f
  pub alloc_returns :
      (n : ℕ) (f : F)
      → Ready (suc n) f
      → ((a : ℕ) × (f' : F) × (allocator.alloc f ≡ ok (a, f')) × Ready n f')
        ⊎ ((e : MemoryError) × (f' : F) × (allocator.alloc f ≡ err (e, f'))
            × Ready n f'
            × ((b : ℕ) → Avail f' b → Avail f b))
  pub alloc_fresh :
      (n : ℕ) (f : F)
      → Ready (suc n) f
      → (a : ℕ) (f' : F) → allocator.alloc f ≡ ok (a, f')
      → Avail f a × (a % 4096 ≡ 0) × (a < top) × (¬ Avail f' a) × ((b : ℕ) → Avail f' b → Avail f b)

module _ {F : Type 0} {allocator : FrameAllocator F} (source : IsFrameSource allocator) where
  -- A call that should have returned a frame, and did not.
  abbrev pub Refuses : Type 0
  Refuses =
      (n : ℕ) × (f : F) × source.Ready (suc n) f
      × (e : MemoryError) × (f' : F) × (allocator.alloc f ≡ err (e, f'))

  pub fewer_many : (k n : ℕ) (f : F) → source.Ready (k + n) f → source.Ready n f
  fewer_many zero n f r = rw zero-add at r
  fewer_many (suc k) n f r =
      let next : suc k + n ≡ suc (k + n) = omega arith in
      fewer_many k n f (source.fewer (k + n) f (rw next at r))
