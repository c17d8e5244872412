-- ===== src/Boot/Section.antt =====
-- `map_kernel_section` of src/memory/paging/mod.rs as `map_contiguous` of the section's pages.
use kermol.Common.{ℕ, zero, suc, ◌+◌, ◌-◌, ◌*◌, ◌%◌, ◌^◌, ◌≤◌, ◌<◌, ◌≡◌, refl, sym, ◌∙◌, arith}
use kermol.Common.{◌==◌, Bool-cases, ==→≡, le→ltb, lt→ltb, ap, some, inl, inr}
use kermol.Common.{Outcome, ok, err, panic, out_of_fuel, ◌>>=◌, word}
use native.Mathlib.Nat.{add-zero}
use kermol.X86.{X86}
use kermol.Errors.{MemoryError, PagingError}
use kermol.Entries.{Entries}
use kermol.Frames.Bitmap.{linear_frames}
use kermol.Frames.Linear.{linear_source}
use kermol.Pages.{RecursivePageTable}
use kermol.Pages.Map.{map, map_pages, map_contiguous}
use kermol.Pages.Tree.{Shape}
use kermol.Pages.Levels.{IsSound, IsReachable}
use kermol.Pages.MapRange.{IsRange, MapsRange, map_contiguous-MapsRange}
use kermol.Boot.{KernelAddress, BootWorld, from_paging}
use kermol.Boot.Kernel.{rounds, kernel_phys, map_section_pages, map_kernel_section}

module _ (x86 : X86) (entries : Entries) (top : ℕ) (small_top : top ≤ 2 ^ 52)
    (self : RecursivePageTable x86 entries) (kernel_addr : KernelAddress) (start end : ℕ)
    (flags : entries.Flags) where
  abbrev State : Type 0
  State = BootWorld x86 entries

  abbrev Result : Type 0
  Result = Outcome (PagingError × State) (Unit {0} × State)

  -- Where the bootloader put the section, and the flags that its pages get.
  abbrev pub from : ℕ
  from = start - kernel_addr.virtual_base + kernel_addr.physical_base

  abbrev pub section_flags : entries.Flags
  section_flags = entries.union flags entries.global

  pub record IsSection : Type 0 where
    pub inside : kernel_addr.virtual_base ≤ start
    pub range :
        IsRange x86 entries
          (linear_frames x86)
          (linear_source x86 top small_top)
          self
          from
          start
          section_flags
          (rounds start end)

  module _ (s : IsSection) where
    abbrev rest : ℕ → ℕ → State → Outcome (MemoryError × State) (Unit {0} × State)
    rest count i w = map_section_pages x86 entries kernel_addr count (start + i * 4096) flags self w

    abbrev rest_pages : ℕ → ℕ → State → Result
    rest_pages count i w =
        map_pages x86 entries (linear_frames x86) self count (i * 4096) from start section_flags w

    abbrev this_page : ℕ → State → Result
    this_page i w =
        map x86 entries (linear_frames x86) self (from + i * 4096) (start + i * 4096) section_flags
          w

    load_address :
        (i : ℕ) (w : State)
        → i < rounds start end
        → kernel_phys x86 entries kernel_addr (start + i * 4096) w ≡ ok (from + i * 4096, w)
    load_address i w l =
        let moved : start + i * 4096 - kernel_addr.virtual_base + kernel_addr.physical_base
            ≡ from + i * 4096 =
          omega (arith, s.inside) in
        let below : from + i * 4096 < 2 ^ 52 = omega (arith, l, s.range.physical) in
        let at_phys = x86.phys_new-some (from + i * 4096) below in
        let in_image : kernel_addr.virtual_base ≤ start + i * 4096 = omega (arith, s.inside) in
        rw
          (
            le→ltb (start + i * 4096) kernel_addr.virtual_base in_image,
            moved,
            lt→ltb (from + i * 4096) word (omega (arith, below)),
            at_phys,
          )
          refl

    one_section :
        (count i : ℕ) (w : State)
        → i < rounds start end
        → rest (suc count) i w ≡ from_paging (this_page i w) >>= λ r. rest count (suc i) r.1
    unfolding map_section_pages
    one_section count i w l =
        let next : start + i * 4096 + 4096 ≡ start + suc i * 4096 = omega arith in
        let at_virt = x86.virt_new-some (start + i * 4096) (s.range.canonical i l) in
        rw (load_address i w l, at_virt, next) refl

    one_range :
        (count i : ℕ) (w : State)
        → i < rounds start end
        → rest_pages (suc count) i w ≡ this_page i w >>= λ r. rest_pages count (suc i) r.1
    unfolding map_pages
    one_range count i w l =
        let next : i * 4096 + 4096 ≡ suc i * 4096 = omega arith in
        let at_phys = x86.phys_add-some from (i * 4096) (omega (arith, s.range.physical)) in
        let at_virt = x86.virt_add-some start (i * 4096) (s.range.canonical i l) in
        rw (at_phys, at_virt, next) refl

    -- After one page, whatever `map` does.
    one_page :
        (i : ℕ) (count : ℕ) (r : Result)
        → ((w : State) → rest count (suc i) w ≡ from_paging (rest_pages count (suc i) w))
        → from_paging r >>= (λ q. rest count (suc i) q.1)
          ≡ from_paging (r >>= λ q. rest_pages count (suc i) q.1)
    one_page i count (ok (_, w)) same = same w
    one_page i count (err e) same = refl
    one_page i count (panic p) same = refl
    one_page i count out_of_fuel same = refl

    no_section : (i : ℕ) (w : State) → rest 0 i w ≡ from_paging (rest_pages 0 i w)
    unfolding map_section_pages map_pages
    no_section i w = refl

    same_pages :
        (count i : ℕ) (w : State)
        → count + i ≡ rounds start end
        → rest count i w ≡ from_paging (rest_pages count i w)
    same_pages zero i w e = no_section i w
    same_pages (suc count) i w e =
        one_section count i w (omega arith)
        ∙ one_page i count (this_page i w) (λ w. same_pages count (suc i) w (omega arith))
        ∙ ap from_paging (sym (one_range count i w (omega arith)))

    whole_range :
        (w : State)
        → map_contiguous x86 entries
            (linear_frames x86)
            self
            (rounds start end)
            from
            start
            section_flags
            w
          ≡ rest_pages (rounds start end) 0 w
    unfolding map_contiguous
    whole_range w = ground (arith, s.range.short)

    whole_section :
        (w : State)
        → map_kernel_section x86 entries (some kernel_addr) start end flags self w
          ≡ rest (rounds start end) 0 w
    unfolding map_kernel_section map_section_pages
    whole_section w = elim (Bool-cases (start == end)) [
      | inl same ↦
          let e = ==→≡ start end same in
          let nothing : rounds start end ≡ 0 = omega (arith, e) in rw (same, nothing) refl
      | inr other ↦ let first : start + 0 * 4096 ≡ start = omega arith in rw (other, first) refl
    ]

    -- With a boot allocator that has frames enough left, on a sound tree, for a section that lies
    -- in the kernel's image with pages outside the recursive range and valid addresses,
    -- `map_kernel_section` does what `map_contiguous` does for the pages of the section and the
    -- frames at their load addresses, with `GLOBAL` added to the flags: it maps every page, or
    -- stops at the first that is mapped already or for whose tables the allocator refused a frame,
    -- with an error that says which.
    pub map_kernel_section-MapsRange :
        IsReachable x86 entries (linear_frames x86) (linear_source x86 top small_top) self
        → (n : ℕ) (w : State) (shape : Shape)
        → IsSound x86 entries (linear_frames x86) (linear_source x86 top small_top) self w shape
        → (w.frames.next % 4096 ≡ 0) × (w.frames.next + (rounds start end * 3 + n) * 4096 < top)
        → (r : Result) × (map_kernel_section x86 entries (some kernel_addr) start end flags self w
            ≡ from_paging r)
          × MapsRange x86 entries
              (linear_frames x86)
              (linear_source x86 top small_top)
              self
              from
              start
              section_flags
              n
              0
              (rounds start end)
              w
              r
    map_kernel_section-MapsRange h n w shape sound ready = (
      map_contiguous x86 entries (linear_frames x86) self (rounds start end) from start
          section_flags w,
      whole_section w
          ∙ same_pages (rounds start end) 0 w (add-zero (rounds start end))
          ∙ ap from_paging (sym (whole_range w)),
      map_contiguous-MapsRange x86 entries (linear_frames x86) (linear_source x86 top small_top)
          self from start section_flags h (rounds start end) s.range n w shape sound ready,
    )
