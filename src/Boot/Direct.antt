-- ===== src/Boot/Direct.antt =====
-- The regions that `map_misc` of src/memory/paging/mod.rs maps, in the direct map.
use kermol.Common.{
  ℕ, zero, suc, ◌+◌, ◌*◌, ◌^◌, ◌%◌, ◌≤◌, ◌<◌, ◌≡◌, refl, sym, ◌∙◌, arith, inl, inr, ◌⊎◌, false,
}
use kermol.Common.{Bool-cases, Option, some, none, List, [], ◌∷◌, word}
use kermol.Common.{Outcome, ok, err, lt→ltb}
use kermol.X86.{X86, IsCanonical}
use kermol.Errors.{MemoryError, PagingError, paging_error}
use kermol.Entries.{Entries, flags_rwx}
use kermol.Linear.{size_in_pages}
use kermol.Frames.Bitmap.{linear_frames}
use kermol.Frames.Linear.{linear_source}
use kermol.Regions.{
  MemoryRegionInfo, MemoryRegionType, usable, reserved, bad_memory, framebuffer,
  executable_and_modules, acpi_nvs, acpi_reclaimable, acpi_tables, bootloader_reclaimable, other,
}
use kermol.Regions.Choice.{IsIn}
use kermol.Pages.{RecursivePageTable}
use kermol.Pages.Map.{map_contiguous}
use kermol.Pages.Tree.{IsMappable, Shape, frame_of, flags_of, same_page}
use kermol.Pages.Leaf.{frame_of-same_page}
use kermol.Pages.Levels.{IsSound, IsReachable}
use kermol.Pages.MapRange.{IsRange, MapsPages}
use kermol.Boot.{BootWorld, from_paging}
use kermol.Boot.Kernel.{misc_flags, map_misc_region}

-- The kinds of region that the kernel keeps using after it has left the bootloader's tables.
pub data IsWanted : MemoryRegionType → Type 0 where
  screen_memory : IsWanted framebuffer
  acpi_storage : IsWanted acpi_nvs
  acpi_reclaim : IsWanted acpi_reclaimable
  acpi_table : IsWanted acpi_tables
  bootloader_memory : IsWanted bootloader_reclaimable

module _ (entries : Entries) where
  pub misc_flags-IsWanted :
      (x86 : X86) (kind : MemoryRegionType)
      → IsWanted kind
      → misc_flags x86 entries kind ≡ some (flags_rwx entries)
  misc_flags-IsWanted x86 _ screen_memory = refl
  misc_flags-IsWanted x86 _ acpi_storage = refl
  misc_flags-IsWanted x86 _ acpi_reclaim = refl
  misc_flags-IsWanted x86 _ acpi_table = refl
  misc_flags-IsWanted x86 _ bootloader_memory = refl

  -- The other kinds have none.
  pub wanted-or-none :
      (x86 : X86) (kind : MemoryRegionType) → IsWanted kind ⊎ (misc_flags x86 entries kind ≡ none)
  wanted-or-none x86 usable = inr refl
  wanted-or-none x86 reserved = inr refl
  wanted-or-none x86 bad_memory = inr refl
  wanted-or-none x86 framebuffer = inl screen_memory
  wanted-or-none x86 executable_and_modules = inr refl
  wanted-or-none x86 acpi_nvs = inl acpi_storage
  wanted-or-none x86 acpi_reclaimable = inl acpi_reclaim
  wanted-or-none x86 acpi_tables = inl acpi_table
  wanted-or-none x86 bootloader_reclaimable = inl bootloader_memory
  wanted-or-none x86 other = inr refl

-- A page starts in the region if and only if it is one of `size_in_pages`.
pub lt-size_in_pages : (i length : ℕ) → i * 4096 < length → i < size_in_pages length
unfolding size_in_pages
lt-size_in_pages i length h = ground (arith, h)

pub size_in_pages-lt : (i length : ℕ) → i < size_in_pages length → i * 4096 < length
unfolding size_in_pages
size_in_pages-lt i length h = ground (arith, h)

module _ (x86 : X86) (entries : Entries) (top : ℕ) (small_top : top ≤ 2 ^ 52)
    (self : RecursivePageTable x86 entries) where
  abbrev pub State : Type 0
  State = BootWorld x86 entries

  abbrev pub Result : Type 0
  Result = Outcome (MemoryError × State) (Unit {0} × State)

  abbrev pub Sound : State → Shape → Type 0
  Sound = IsSound x86 entries (linear_frames x86) (linear_source x86 top small_top) self

  abbrev pub frame : State → ℕ → Option ℕ
  frame w b = frame_of x86 entries self w.memory b

  abbrev pub flags : State → ℕ → Option entries.Flags
  flags w b = flags_of x86 entries self w.memory b

  -- Page `i` of a region in the direct map.
  abbrev pub direct_page : MemoryRegionInfo → ℕ → ℕ
  direct_page r i = r.base + self.internal_offset + i * 4096

  -- The pages of a region that is mapped have the region's frames, and can be written and run.
  abbrev pub IsDirect : State → MemoryRegionInfo → Type 0
  IsDirect w r =
      IsWanted r.kind
      → (i : ℕ) → i * 4096 < r.length
      → (frame w (direct_page r i) ≡ some (r.base + i * 4096))
        × (flags w (direct_page r i) ≡ some (flags_rwx entries))

  -- A page that starts in none of the regions keeps its frame and flags, or stays without.
  abbrev pub Others : List MemoryRegionInfo → State → State → Type 0
  Others regions w w' =
      (b : ℕ)
      → IsMappable b
      → ((r : MemoryRegionInfo)
          → IsIn r regions
          → IsWanted r.kind
          → (i : ℕ) → i * 4096 < r.length
          → same_page (direct_page r i) b ≡ false)
      → (frame w' b ≡ frame w b) × (flags w' b ≡ flags w b)

  -- The frames that the tables of a list of regions may take.
  abbrev pub calls : List MemoryRegionInfo → ℕ
  calls [] = 0
  calls (r ∷ regions) = size_in_pages r.length * 3 + calls regions

  -- The addresses of a region that is mapped.
  abbrev pub Fits : MemoryRegionInfo → Type 0
  Fits r =
      IsWanted r.kind
      → IsRange x86 entries (linear_frames x86) (linear_source x86 top small_top) self r.base
          (r.base + self.internal_offset) (flags_rwx entries) (size_in_pages r.length)
        × IsCanonical (r.base + self.internal_offset)
        × (r.base + self.internal_offset < word)
        × (r.base < 2 ^ 52)

  -- What is mapped stays, since the loop maps free pages only.
  pub kept-mapped :
      (from to hi : ℕ) (f : entries.Flags) (w w' : State) (shape : Shape)
      → IsReachable x86 entries (linear_frames x86) (linear_source x86 top small_top) self
      → Sound w shape
      → MapsPages x86 entries
          (linear_frames x86)
          (linear_source x86 top small_top)
          self
          from
          to
          f
          0
          hi
          w
          w'
      → (b a : ℕ) → IsMappable b
      → frame w b ≡ some a
      → (frame w' b ≡ frame w b) × (flags w' b ≡ flags w b)
  kept-mapped from to hi f w w' shape h sound maps b a mb e = maps.kept b mb λ i l u.
      elim (Bool-cases (same_page (to + i * 4096) b)) [
        | inr apart ↦ apart
        | inl same ↦
            let one =
              frame_of-same_page x86 entries self h.direct w.memory shape sound.tree (to + i * 4096)
                b same in
            absurd (let z = sym (maps.free i l u) ∙ one ∙ e in ground (arith, z))
      ]

  -- One region.
  pub skipped :
      (r : MemoryRegionInfo) (w : State)
      → misc_flags x86 entries r.kind ≡ none
      → map_misc_region x86 entries r self w ≡ ok (tt, w)
  unfolding map_misc_region
  skipped r w e = rw (e, map_misc_region) refl

  pub taken :
      (r : MemoryRegionInfo) (w : State)
      → IsWanted r.kind
      → Fits r
      → map_misc_region x86 entries r self w
        ≡ from_paging (
            map_contiguous x86 entries
              (linear_frames x86)
              self
              (size_in_pages r.length)
              r.base
              (r.base + self.internal_offset)
              (flags_rwx entries)
              w)
  unfolding map_misc_region
  taken r w wanted fits =
      let (_, canonical, small, low) = fits wanted in
      let e = misc_flags-IsWanted entries x86 r.kind wanted in
      let at_phys = x86.phys_new-some r.base low in
      let at_virt = x86.virt_new-some (r.base + self.internal_offset) canonical in
      rw (e, map_misc_region)
        (rw (at_phys, lt→ltb (r.base + self.internal_offset) word small, at_virt) refl)

  -- What is mapped keeps its frame and its flags.
  abbrev pub Keeps : State → State → Type 0
  Keeps w w' =
      (b a : ℕ)
      → IsMappable b
      → frame w b ≡ some a
      → (frame w' b ≡ frame w b) × (flags w' b ≡ flags w b)

  pub then-Keeps : (w v u : State) → Keeps w v → Keeps v u → Keeps w u
  then-Keeps w v u first second b a m e =
      let (f, g) = first b a m e in let (f', g') = second b a m (f ∙ e) in (f' ∙ f, g' ∙ g)

  pub then-Others :
      (r : MemoryRegionInfo) (regions : List MemoryRegionInfo) (w v u : State)
      → Others (r ∷ []) w v
      → Others regions v u
      → Others (r ∷ regions) w u
  then-Others r regions w v u first second b m none_of =
      let (f, g) = first b m (λ x inside. none_of x (head_IsIn x inside)) in
      let (f', g') = second b m (λ x inside. none_of x (suc inside.0, inside.1)) in (f' ∙ f, g' ∙ g)
    where
      head_IsIn : (x : MemoryRegionInfo) → IsIn x (r ∷ []) → IsIn x (r ∷ regions)
      head_IsIn x (zero, e) = (zero, e)
      head_IsIn x (suc i, e) = absurd (ground (arith, e))

  pub Keeps-IsDirect :
      (w w' : State) (r : MemoryRegionInfo) → Fits r → Keeps w w' → IsDirect w r → IsDirect w' r
  Keeps-IsDirect w w' r fits keeps direct wanted i l =
      let (range, _, _, _) = fits wanted in
      let (at, with_flags) = direct wanted i l in
      let (f', g') =
        keeps (direct_page r i) (r.base + i * 4096)
          (range.mappable i (lt-size_in_pages i r.length l)) at in
      (f' ∙ at, g' ∙ with_flags)

  abbrev pub Ready : ℕ → State → Type 0
  Ready n w = (w.frames.next % 4096 ≡ 0) × (w.frames.next + n * 4096 < top)

  -- How the mapping of some regions ends: with all of them in the direct map, or at an error of
  -- `map`. What was mapped before stays, and nothing else gets mapped.
  pub data Directs (regions : List MemoryRegionInfo) (n : ℕ) (w : State) (q : Result) : Type 0 where
    direct :
        (w' : State) (shape : Shape)
        → q ≡ ok (tt, w')
        → Sound w' shape
        → Keeps w w'
        → Others regions w w'
        → ((r : MemoryRegionInfo) → IsIn r regions → IsDirect w' r)
        → Ready n w'
        → Directs regions n w q
    refused :
        (w' : State) (shape : Shape) (e : PagingError)
        → q ≡ err (paging_error e, w')
        → Sound w' shape
        → Keeps w w'
        → Others regions w w'
        → Directs regions n w q

  pub only_one : (r s : MemoryRegionInfo) → IsIn s (r ∷ []) → r ≡ s
  only_one r s (zero, e) = ground (arith, e)
  only_one r s (suc i, e) = absurd (ground (arith, e))
