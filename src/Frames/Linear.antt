-- ===== src/Frames/Linear.antt =====
-- `LinearFrameAllocator` of src/memory/paging/frame_allocation.rs as a source of frames for `map`.
use kermol.Common.{ℕ, suc, ◌+◌, ◌*◌, ◌%◌, ◌^◌, ◌≤◌, ◌<◌, ◌≡◌, sym, ◌∙◌, ok, arith, inl}
use kermol.X86.{X86}
use kermol.Linear.{LinearFrameAllocator, alloc}
use kermol.Frames.{IsFrameSource, Refuses}
use kermol.Frames.Bitmap.{linear_frames}

module _ (x86 : X86) (top : ℕ) (low : top ≤ 2 ^ 52) where
  abbrev pub Ready : ℕ → LinearFrameAllocator → Type 0
  Ready n f = (f.next % 4096 ≡ 0) × (f.next + n * 4096 < top)

  abbrev pub Avail : LinearFrameAllocator → ℕ → Type 0
  Avail f a = (a % 4096 ≡ 0) × (f.next ≤ a) × (a < top)

  abbrev pub after : LinearFrameAllocator → LinearFrameAllocator
  after f = record { next = f.next + 4096 }

  pub alloc_next :
      (n : ℕ) (f : LinearFrameAllocator) → Ready (suc n) f → alloc x86 f ≡ ok (f.next, after f)
  unfolding alloc
  alloc_next n f (aligned, room) =
      ground (arith, x86.phys_add-some f.next 4096 (omega (arith, low)))

  pub fewer : (n : ℕ) (f : LinearFrameAllocator) → Ready (suc n) f → Ready n f
  fewer n f r = omega arith

  pub still-Ready : (n : ℕ) (f : LinearFrameAllocator) → Ready (suc n) f → Ready n (after f)
  still-Ready n f r = omega arith

  pub alloc_fresh :
      (n : ℕ) (f : LinearFrameAllocator)
      → Ready (suc n) f
      → (a : ℕ) (f' : LinearFrameAllocator) → alloc x86 f ≡ ok (a, f')
      → Avail f a × (a % 4096 ≡ 0) × (a < top) × (¬ Avail f' a) × ((b : ℕ) → Avail f' b → Avail f b)
  alloc_fresh n f r a f' e =
      let q = sym (alloc_next n f r) ∙ e in
      let same_a : a ≡ f.next = ground (arith, q) in
      let moved : f'.next ≡ f.next + 4096 = ground (arith, q) in
      (
        (omega (arith, r), omega (arith, r), omega (arith, r)),
        omega (arith, r),
        omega (arith, r),
        (λ v. omega (arith, v)),
        (λ b v. (v.0, omega (arith, v), omega (arith, v))),
      )

  abbrev pub linear_source : IsFrameSource (linear_frames x86)
  linear_source = record {
    Ready = Ready;
    Avail = Avail;
    top = top;
    top-le = low;
    fewer = fewer;
    alloc_returns = λ n f r. inl (f.next, after f, alloc_next n f r, still-Ready n f r);
    alloc_fresh = alloc_fresh;
  }

  pub alloc-ne-err : ¬ Refuses linear_source
  alloc-ne-err (n, f, ready, e, f', q) = let z = sym (alloc_next n f ready) ∙ q in ground (arith, z)
