-- ===== src/AllocatedMemory/Access.antt =====
-- Which accesses `AllocatedMemory` lets through, and what they do.
use kermol.Common.{ℕ, ◌+◌, ◌<◌, ◌≡◌, ◌≢◌, Bool, true, false, if◌then◌else◌, ◌==◌, refl, arith}
use kermol.Common.{
  ok, err, panic, Outcome, word, arithmetic_overflow, ◌≤◌, Bool-cases, inl, inr, ◌⊎◌, sym, ◌∙◌, ap,
  lt-or-le, not, ◌&&◌,
}
use kermol.Errors.{MemoryError, page_not_present, write_to_read_only, out_of_bounds}
use kermol.X86.{X86, IsCanonical}
use kermol.Entries.{Entries}
use kermol.AllocatedMemory.{AllocatedMemory, handle_errors, read, write, write_back}

module _ (x86 : X86) (entries : Entries) (self : AllocatedMemory x86 entries) (size_of : ℕ) where
  open entries use {present, writable, contains}

  -- An access that the flags allow and that ends below the last byte, at an address that exists.
  pub record IsAllowed (needs_write : Bool) (offset : ℕ) : Type 0 where
    pub present : contains self.flags present ≡ true
    pub writable : needs_write ≡ true → contains self.flags writable ≡ true
    pub inside : offset + size_of < self.size
    pub small : self.size < word
    pub canonical : IsCanonical (self.virt + offset)

  pub handle_errors-allowed :
      (needs_write : Bool) (offset : ℕ)
      → IsAllowed needs_write offset
      → handle_errors x86 entries self size_of needs_write offset ≡ ok tt
  unfolding handle_errors
  handle_errors-allowed true offset a =
      ground (arith, a.present, a.writable refl, a.inside, a.small)
  handle_errors-allowed false offset a = ground (arith, a.present, a.inside, a.small)

  -- An access that ends exactly at the end of the memory is not let through.
  pub handle_errors-at_end :
      (needs_write : Bool) (offset : ℕ)
      → offset + size_of ≡ self.size
      → handle_errors x86 entries self size_of needs_write offset ≢ ok tt
  unfolding handle_errors
  handle_errors-at_end needs_write offset e r = ground arith

  -- How an access ends: by the first of its guards that fails, or as `done` says.
  pub data Ends {E A : Type 0} (needs_write : Bool) (offset : ℕ) (fails : MemoryError → E)
      (done : Outcome E A) (r : Outcome E A) : Type 0 where
    absent :
        contains self.flags present ≡ false
        → r ≡ err (fails page_not_present)
        → Ends needs_write offset fails done r
    read_only :
        contains self.flags present ≡ true
        → needs_write ≡ true
        → contains self.flags writable ≡ false
        → r ≡ err (fails write_to_read_only)
        → Ends needs_write offset fails done r
    overflows :
        contains self.flags present ≡ true
        → (needs_write ≡ true → contains self.flags writable ≡ true)
        → word ≤ offset + size_of
        → r ≡ panic arithmetic_overflow
        → Ends needs_write offset fails done r
    outside :
        contains self.flags present ≡ true
        → (needs_write ≡ true → contains self.flags writable ≡ true)
        → self.size ≤ offset + size_of
        → offset + size_of < word
        → r ≡ err (fails out_of_bounds)
        → Ends needs_write offset fails done r
    allowed :
        contains self.flags present ≡ true
        → (needs_write ≡ true → contains self.flags writable ≡ true)
        → offset + size_of < self.size
        → r ≡ done
        → Ends needs_write offset fails done r

  handle_errors-Ends :
      (needs_write : Bool) (offset : ℕ)
      → self.size < word
      → Ends needs_write offset
          (λ e. e)
          (ok tt)
          (handle_errors x86 entries self size_of needs_write offset)
  unfolding handle_errors
  handle_errors-Ends needs_write offset small = elim (Bool-cases (contains self.flags present)) [
    | inr gone ↦ absent gone (ground (arith, gone))
    | inl here ↦ elim (Bool-cases (needs_write && not (contains self.flags writable))) [
      | inl refused ↦
          read_only here (ground (arith, refused)) (ground (arith, refused))
            (ground (arith, here, refused))
      | inr granted ↦ elim (lt-or-le (offset + size_of) word) [
        | inr large ↦
            overflows here (λ w. ground (arith, granted, w)) large
              (ground (arith, here, granted, large))
        | inl fits ↦ elim (lt-or-le (offset + size_of) self.size) [
          | inl inside ↦
              allowed here (λ w. ground (arith, granted, w)) inside
                (ground (arith, here, granted, fits, inside))
          | inr beyond ↦
              outside here (λ w. ground (arith, granted, w)) beyond fits
                (ground (arith, here, granted, fits, beyond))
        ]
      ]
    ]
  ]

  module _ {T : Type 0} (offset : ℕ) (memory : ℕ → T) where
    abbrev pub changed : T → ℕ → T
    changed value a = if a == self.virt + offset then value else memory a

    -- In memory smaller than 2^64 whose places exist, a write of a value of `size_of` bytes fails
    -- where the pages are not present, then where they are not writable, then where the end of the
    -- access is not below the end of the memory, each with its error and with nothing changed, or
    -- panics where that end is not below 2^64; and every other write returns, and changes the place
    -- at the offset and no other.
    pub write-Ends :
        (value : T)
        → self.size < word
        → (offset + size_of < self.size → IsCanonical (self.virt + offset))
        → Ends true offset
            (λ e. (e, memory))
            (ok (tt, changed value))
            (write x86 entries size_of self offset value memory)
    unfolding write
    write-Ends value small canonical = elim (handle_errors-Ends true offset small) [
      | absent a e ↦ absent a (rw e refl)
      | read_only a b c e ↦ read_only a b c (rw e refl)
      | overflows a b c e ↦ overflows a b c (rw e refl)
      | outside a b c d e ↦ outside a b c d (rw e refl)
      | allowed a b c e ↦
          allowed a b c (rw (e, x86.virt_add-some self.virt offset (canonical c)) refl)
    ]

    pub read-Ends :
        self.size < word
        → (offset + size_of < self.size → IsCanonical (self.virt + offset))
        → Ends false offset
            (λ e. e)
            (ok (memory (self.virt + offset)))
            (read x86 entries size_of self offset memory)
    unfolding read
    read-Ends small canonical = elim (handle_errors-Ends false offset small) [
      | absent a e ↦ absent a (rw e refl)
      | read_only a b c e ↦ read_only a b c (rw e refl)
      | overflows a b c e ↦ overflows a b c (rw e refl)
      | outside a b c d e ↦ outside a b c d (rw e refl)
      | allowed a b c e ↦
          allowed a b c (rw (e, x86.virt_add-some self.virt offset (canonical c)) refl)
    ]

    -- Where a write is allowed, `write_back` is the write of the function's value at what is there.
    pub write_back_lem :
        (f : T → T)
        → IsAllowed true offset
        → write_back x86 entries size_of self offset f memory
          ≡ write x86 entries size_of self offset (f (memory (self.virt + offset))) memory
    unfolding write_back write
    write_back_lem f a =
        ground (
          arith,
          handle_errors-allowed true offset a,
          x86.virt_add-some self.virt offset a.canonical,
        )

  -- A place that is the same, or that the bytes of the other do not touch.
  abbrev pub IsApart : ℕ → ℕ → Type 0
  IsApart offset o = (o ≡ offset) ⊎ ((offset + size_of ≤ o) ⊎ (o + size_of ≤ offset))

  module _ {T : Type 0} (offset : ℕ) (memory memory' : ℕ → T) (value : T) where
    stored :
        self.size < word
        → (offset + size_of < self.size → IsCanonical (self.virt + offset))
        → write x86 entries size_of self offset value memory ≡ ok (tt, memory')
        → memory' ≡ changed offset memory value
    stored small canonical written = elim (write-Ends offset memory value small canonical) [
      | absent a e ↦ absurd (let z = sym e ∙ written in ground (arith, z))
      | read_only a b c e ↦ absurd (let z = sym e ∙ written in ground (arith, z))
      | overflows a b c e ↦ absurd (let z = sym e ∙ written in ground (arith, z))
      | outside a b c d e ↦ absurd (let z = sym e ∙ written in ground (arith, z))
      | allowed a b c e ↦ let z = sym written ∙ e in ground (arith, z)
    ]

    -- In memory smaller than 2^64 whose places exist, after a write that returned, a read of a
    -- value of the same size, at the same offset or at one whose bytes the write does not touch,
    -- fails where the pages are not present, then where the end of the access is not below the end
    -- of the memory, or panics where that end is not below 2^64; and every other read returns the
    -- written value at that offset, and elsewhere what was there before the write.
    pub read-write :
        (o : ℕ)
        → self.size < word
        → ((at : ℕ) → at + size_of < self.size → IsCanonical (self.virt + at))
        → 0 < size_of
        → IsApart offset o
        → write x86 entries size_of self offset value memory ≡ ok (tt, memory')
        → Ends false o
            (λ e. e)
            (ok (if o == offset then value else memory (self.virt + o)))
            (read x86 entries size_of self o memory')
    read-write o small canonical some_bytes apart written =
        let same = stored small (canonical offset) written in
        let seen : memory' (self.virt + o)
            ≡ (if o == offset then value else memory (self.virt + o)) =
          ap (λ (m : ℕ → T). m (self.virt + o)) same ∙ place_of in
        rw seen at (read-Ends o memory' small (canonical o))
      where
        place_of :
            changed offset memory value (self.virt + o)
            ≡ (if o == offset then value else memory (self.virt + o))
        place_of = elim (lt-or-le o offset) [
          | inl less ↦ ground (arith, less)
          | inr more ↦ elim (lt-or-le offset o) [
            | inl less ↦ ground (arith, less)
            | inr equal ↦ ground (arith, more, equal)
          ]
        ]
