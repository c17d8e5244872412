-- ===== src/Boot/Misc.antt =====
-- `map_misc` of src/memory/paging/mod.rs on a sound tree of page tables.
use kermol.Common.{ℕ, zero, suc, ◌+◌, ◌*◌, ◌^◌, ◌≤◌, ◌≡◌, refl, sym, ◌∙◌, ap, subst, arith}
use kermol.Common.{List, [], ◌∷◌, All}
use kermol.Common.{Outcome, ok, ◌>>=◌}
use kermol.Common.{inl, inr}
use kermol.X86.{X86}
use kermol.Errors.{PagingError}
use kermol.Entries.{Entries, flags_rwx}
use kermol.Linear.{size_in_pages}
use kermol.Frames.Bitmap.{linear_frames}
use kermol.Frames.Linear.{linear_source}
use kermol.Regions.{MemoryRegionInfo}
use kermol.Regions.Choice.{IsIn}
use kermol.Pages.{RecursivePageTable}
use kermol.Pages.Tree.{Shape}
use kermol.Pages.Levels.{IsReachable}
use kermol.Pages.MapRange.{MapsPages, MapsRange, all_mapped, stopped}
use kermol.Pages.MapRange.{map_contiguous-MapsRange}
use kermol.Boot.{from_paging}
use kermol.Boot.Kernel.{misc_flags, map_misc_region, map_misc}
use kermol.Boot.Direct.{
  State, Result, Sound, Fits, IsDirect, Keeps, then-Keeps, Keeps-IsDirect, kept-mapped, skipped,
  taken, Ready, Directs, direct, refused, only_one, calls, Others, then-Others, IsWanted,
  misc_flags-IsWanted, wanted-or-none, lt-size_in_pages, size_in_pages-lt,
}

module _ (x86 : X86) (entries : Entries) (top : ℕ) (small_top : top ≤ 2 ^ 52)
    (self : RecursivePageTable x86 entries) where
  module _
      (h : IsReachable x86 entries (linear_frames x86) (linear_source x86 top small_top) self) where
    module _ (r : MemoryRegionInfo) (n : ℕ) (w : State x86 entries top small_top self)
        (shape : Shape) (sound : Sound x86 entries top small_top self w shape)
        (fits : Fits x86 entries top small_top self r) where
      module _ (wanted : IsWanted r.kind) (hi : ℕ) (w' : State x86 entries top small_top self)
          (maps : MapsPages x86 entries
            (linear_frames x86)
            (linear_source x86 top small_top)
            self
            r.base
            (r.base + self.internal_offset)
            (flags_rwx entries)
            0
            hi
            w
            w') where
        region-Keeps : Keeps x86 entries top small_top self w w'
        region-Keeps =
            kept-mapped x86 entries top small_top self r.base (r.base + self.internal_offset) hi
              (flags_rwx entries) w w' shape h sound maps

        region-Others :
            hi ≤ size_in_pages r.length → Others x86 entries top small_top self (r ∷ []) w w'
        region-Others some_of b m none_of = maps.kept b m (λ i l u.
            none_of r (0, refl) wanted i (size_in_pages-lt i r.length (omega (arith, u, some_of))))

        placed : hi ≡ size_in_pages r.length → IsDirect x86 entries top small_top self w' r
        placed all_of wanted i l =
            let u = lt-size_in_pages i r.length l in
            (
              maps.placed i (omega arith) (omega (arith, u, all_of)),
              maps.flagged i (omega arith) (omega (arith, u, all_of)),
            )

      mapped-Directs :
          IsWanted r.kind
          → (q : Outcome
              (PagingError × State x86 entries top small_top self)
              (Unit {0} × State x86 entries top small_top self))
          → MapsRange x86 entries
              (linear_frames x86)
              (linear_source x86 top small_top)
              self
              r.base
              (r.base + self.internal_offset)
              (flags_rwx entries)
              n
              0
              (size_in_pages r.length)
              w
              q
          → Directs x86 entries top small_top self (r ∷ []) n w (from_paging q)
      mapped-Directs wanted q (all_mapped w' s z t maps still) =
          direct w' s (rw z refl) t (region-Keeps wanted (size_in_pages r.length) w' maps)
            (region-Others wanted (size_in_pages r.length) w' maps (omega arith))
            (λ x inside.
              subst (IsDirect x86 entries top small_top self w')
                (only_one x86 entries top small_top self r x inside)
                (placed wanted (size_in_pages r.length) w' maps refl))
            still
      mapped-Directs wanted q (stopped k w' s x l u z t maps why) =
          refused w' s x (rw z refl) t (region-Keeps wanted k w' maps)
            (region-Others wanted k w' maps (omega (arith, u)))

      region-Directs :
          Ready x86 entries top small_top self (size_in_pages r.length * 3 + n) w
          → Directs x86 entries top small_top self
              (r ∷ [])
              n
              w
              (map_misc_region x86 entries r self w)
      region-Directs ready = elim (wanted-or-none entries x86 r.kind) [
        | inr e ↦
            direct w shape (skipped x86 entries top small_top self r w e) sound
              (λ b a m q. (refl, refl)) (λ b m none_of. (refl, refl))
              (λ x inside wanted.
                let same =
                  ap (λ (y : MemoryRegionInfo). misc_flags x86 entries y.kind)
                    (only_one x86 entries top small_top self r x inside) in
                let e' = misc_flags-IsWanted entries x86 x.kind wanted in
                absurd (let z = sym e ∙ same ∙ e' in ground (arith, z)))
              (omega (arith, ready))
        | inl wanted ↦ rw (taken x86 entries top small_top self r w wanted fits) (
            mapped-Directs wanted _ (
              map_contiguous-MapsRange x86 entries (linear_frames x86)
                (linear_source x86 top small_top) self r.base (r.base + self.internal_offset)
                (flags_rwx entries) h (size_in_pages r.length) (fits wanted).0 n w shape sound
                ready))
      ]

    next_region :
        (r : MemoryRegionInfo) (regions : List MemoryRegionInfo)
        (w : State x86 entries top small_top self)
        → map_misc x86 entries (r ∷ regions) self w
          ≡ map_misc_region x86 entries r self w >>= λ q. map_misc x86 entries regions self q.1
    unfolding map_misc
    next_region r regions w = refl

    no_region :
        (w : State x86 entries top small_top self) → map_misc x86 entries [] self w ≡ ok (tt, w)
    unfolding map_misc
    no_region w = refl

    module _ (r : MemoryRegionInfo) (regions : List MemoryRegionInfo) (n : ℕ)
        (w v : State x86 entries top small_top self) (fits : Fits x86 entries top small_top self r)
        (first : Keeps x86 entries top small_top self w v)
        (rest_stays : Others x86 entries top small_top self (r ∷ []) w v)
        (at : IsDirect x86 entries top small_top self v r) where
      cons-Directs :
          (q : Result x86 entries top small_top self)
          → Directs x86 entries top small_top self regions n v q
          → Directs x86 entries top small_top self (r ∷ regions) n w q
      cons-Directs q (direct w' s z t keeps others all still) =
          direct w' s z t (then-Keeps x86 entries top small_top self w v w' first keeps)
            (then-Others x86 entries top small_top self r regions w v w' rest_stays others)
            (both w' keeps all) still
        where
          both :
              (w' : State x86 entries top small_top self)
              → Keeps x86 entries top small_top self v w'
              → ((x : MemoryRegionInfo)
                  → IsIn x regions
                  → IsDirect x86 entries top small_top self w' x)
              → (x : MemoryRegionInfo) → IsIn x (r ∷ regions)
              → IsDirect x86 entries top small_top self w' x
          both w' keeps all x (zero, e) =
              let one : r ≡ x = ground (arith, e) in
              subst (IsDirect x86 entries top small_top self w') one
                (Keeps-IsDirect x86 entries top small_top self v w' r fits keeps at)
          both w' keeps all x (suc i, e) = all x (i, e)
      cons-Directs q (refused w' s x z t keeps others) =
          refused w' s x z t (then-Keeps x86 entries top small_top self w v w' first keeps)
            (then-Others x86 entries top small_top self r regions w v w' rest_stays others)

    -- With a boot allocator that has three frames left for each page, on a sound tree, for regions
    -- whose pages in the direct map lie outside the recursive range at valid addresses, `map_misc`
    -- either ends with every page that starts in a framebuffer region, one of the three ACPI kinds
    -- or a bootloader-reclaimable one mapped to its own frame with `flags_rwx`, or stops with an
    -- error of `map`. Either way the tree stays sound, what was mapped before keeps its frame and
    -- flags, and a page that starts in none of those regions gets no mapping.
    pub map_misc-Directs :
        (regions : List MemoryRegionInfo) (n : ℕ) (w : State x86 entries top small_top self)
        (shape : Shape)
        → Sound x86 entries top small_top self w shape
        → All (Fits x86 entries top small_top self) regions
        → Ready x86 entries top small_top self (calls x86 entries top small_top self regions + n) w
        → Directs x86 entries top small_top self regions n w (map_misc x86 entries regions self w)
    map_misc-Directs [] n w shape sound fits ready =
        direct w shape (no_region w) sound (λ b a m q. (refl, refl)) (λ b m none_of. (refl, refl))
          (λ r inside. absurd (let e = inside.1 in ground (arith, e))) (omega (arith, ready))
    map_misc-Directs (r ∷ regions) n w shape sound (fits, rest) ready =
        then-Directs
          (region-Directs r (calls x86 entries top small_top self regions + n) w shape sound fits
            (omega (arith, ready)))
          (λ v s t still. map_misc-Directs regions n v s t rest still)
      where
        then-Directs :
            Directs x86 entries top small_top self
              (r ∷ [])
              (calls x86 entries top small_top self regions + n)
              w
              (map_misc_region x86 entries r self w)
            → ((v : State x86 entries top small_top self) (s : Shape)
                → Sound x86 entries top small_top self v s
                → Ready x86 entries top small_top self
                    (calls x86 entries top small_top self regions + n)
                    v
                → Directs x86 entries top small_top self regions n v
                    (map_misc x86 entries regions self v))
            → Directs x86 entries top small_top self
                (r ∷ regions)
                n
                w
                (map_misc x86 entries (r ∷ regions) self w)
        then-Directs (direct v s z t keeps others all still) later =
            rw (next_region r regions w, z)
              (cons-Directs r regions n w v fits keeps others (all r (0, refl)) _
                (later v s t still))
        then-Directs (refused v s x z t keeps others) later =
            refused v s x (rw (next_region r regions w, z) refl) t keeps (
              then-Others x86 entries top small_top self r regions w v v others
                (λ b m none_of. (refl, refl)))
