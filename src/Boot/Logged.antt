-- ===== src/Boot/Logged.antt =====
-- What the boot sequence prints, on a log writer that is set up: `log_ram_map` and `init_memory` of
-- src/memory/mod.rs.
use kermol.Common.{ℕ, ◌+◌, ◌*◌, ◌<◌, ◌≡◌, refl, word, lt→ltb, ltb}
use kermol.Common.{Option, none, some, List, [], ◌∷◌, ◌++◌, All, Outcome, ok, err, panic}
use kermol.Common.{out_of_fuel, ◌>>=◌, or_panic, Panic, sub64, if◌then◌else◌, Bool, true, false}
use kermol.Common.{arithmetic_overflow, invalid_address, unwrap_failed, ◌-◌, ap}
use kermol.X86.{X86}
use kermol.Entries.{Entries}
use kermol.Errors.{MemoryError}
use kermol.Pages.{Memory}
use kermol.Regions.{MemoryRegionType, MemoryRegionInfo, allocator_region}
use kermol.Display.Text.{as_u32}
use kermol.Display.Writer.{VgaWriter, default_color}
use kermol.Display.Log.{IsWriter}
use kermol.Display.Console.{Console, kprint, kwriter_set_color, log_region, log_regions}
use kermol.Display.Console.{log_ram_map, region_color}
use kermol.Display.Reports.{print-returns, kprint-print, set_color_lem, recolored}
use kermol.Boot.{Image, BootWorld}
use kermol.Boot.Paging.{Responses, Booted, init_tables, start_memory, init_memory}
use kermol.Boot.Paging.{result, init_heap, with_region}
use kermol.Boot.Paging.{peis, ram_map_title, heap_initialized}

module _ (width height : ℕ) (small : height * width < word) (narrow : width < word)
    (low : height < word) where
  -- The log writer is set up and on its screen, and the serial port has got these lines.
  pub record IsReady (lines : List (List ℕ)) (c : Console) : Type 0 where
    pub w : VgaWriter
    pub set_up : c.kwriter ≡ some w
    pub level : c.panic_level ≡ 1
    pub screen : IsWriter width height small narrow low w
    pub serial : c.serial ≡ lines

  -- A normal return that leaves such a console.
  pub data Logs {E : Type 0} (lines : List (List ℕ)) (r : Outcome E Console) : Type 0 where
    logged : (c : Console) → r ≡ ok c → IsReady lines c → Logs lines r

  module _ (E : Type 0) where
    then-Logs :
        (lines : List (List ℕ)) (r : Outcome E Console) (next : Console → Outcome E Console)
        → Logs lines r
        → ((c : Console) → IsReady lines c → Logs lines (next c))
        → Logs lines (r >>= next)
    then-Logs lines r next (logged c e v) h = rw e (h c v)

    pub kprint-Logs :
        (lines : List (List ℕ)) (args : List ℕ) (c : Console)
        → IsReady lines c
        → Logs {E = E} lines (kprint args c)
    kprint-Logs lines args c v =
        let (w', e, s) = print-returns width height small narrow low E args v.w v.screen in
        logged (record c { kwriter = some w' })
          (kprint-print width height small narrow low E c v.w v.set_up args w' e)
          (record { w = w'; set_up = refl; level = v.level; screen = s; serial = v.serial })

    set_color-Logs :
        (lines : List (List ℕ)) (color : ℕ) (c : Console)
        → IsReady lines c
        → Logs {E = E} lines (kwriter_set_color color c)
    set_color-Logs lines color c v =
        logged (record c { kwriter = some (record v.w { default_text = color }) })
          (set_color_lem width height small narrow low E c v.w v.set_up color)
          (record {
            w = record v.w { default_text = color };
            set_up = refl;
            level = v.level;
            screen = recolored width height small narrow low E v.w color v.screen;
            serial = v.serial;
          })

    module _ (bounds : ℕ → ℕ → List ℕ) (name : MemoryRegionType → List ℕ)
        (lines : List (List ℕ)) where
      log_region-Logs :
          (r : MemoryRegionInfo) (c : Console)
          → r.base + r.length < word
          → IsReady lines c
          → Logs {E = E} lines (log_region bounds name r c)
      unfolding log_region
      log_region-Logs r c fits v = rw (lt→ltb (r.base + r.length) word fits) (
          then-Logs lines (kprint (bounds r.base (r.base + r.length)) c) _
            (kprint-Logs lines (bounds r.base (r.base + r.length)) c v)
            (λ c' v'.
              then-Logs lines (kwriter_set_color (as_u32 (region_color r.kind)) c') _
                (set_color-Logs lines (as_u32 (region_color r.kind)) c' v')
                (λ c2 v2.
                  then-Logs lines (kprint (name r.kind ++ 10 ∷ []) c2)
                    (kwriter_set_color (as_u32 default_color))
                    (kprint-Logs lines (name r.kind ++ 10 ∷ []) c2 v2)
                    (set_color-Logs lines (as_u32 default_color)))))

      log_regions-Logs :
          (regions : List MemoryRegionInfo) (c : Console)
          → All (λ r. r.base + r.length < word) regions
          → IsReady lines c
          → Logs {E = E} lines (log_regions bounds name regions c)
      unfolding log_regions
      log_regions-Logs [] c fits v = logged c refl v
      log_regions-Logs (r ∷ regions) c fits v =
          then-Logs lines (log_region bounds name r c) (log_regions bounds name regions)
            (log_region-Logs r c fits.0 v) (λ c' v'. log_regions-Logs regions c' fits.1 v')

      pub log_ram_map-Logs :
          (title : List ℕ) (regions : List MemoryRegionInfo) (c : Console)
          → All (λ r. r.base + r.length < word) regions
          → IsReady lines c
          → Logs {E = E} lines (log_ram_map bounds name title regions c)
      unfolding log_ram_map
      log_ram_map-Logs title regions c fits v =
          then-Logs lines (kprint (title ++ 10 ∷ []) c) (log_regions bounds name regions)
            (kprint-Logs lines (title ++ 10 ∷ []) c v)
            (λ c' v'. log_regions-Logs regions c' fits v')

-- How `init_memory` ends on a console with these lines: with one line more, or with an error and
-- none.
module _ (width height : ℕ) (small : height * width < word) (narrow : width < word)
    (low : height < word) (x86 : X86) (entries : Entries) (lines : List (List ℕ)) where
  abbrev Result : Type 0
  Result = Outcome (MemoryError × Console) (Booted x86 entries × Console)

  abbrev Ready : List (List ℕ) → Console → Type 0
  Ready = IsReady width height small narrow low

  abbrev pub Ends : Result → Type 0
  Ends (ok (booted, c)) = Ready (peis ∷ lines) c
  Ends (err (e, c)) = Ready lines c
  Ends (panic p) = Unit
  Ends out_of_fuel = Unit

  then-Ends :
      {A : Type 0} (p : Panic) (o : Option A) (next : A → Result)
      → ((a : A) → o ≡ some a → Ends (next a))
      → Ends (or_panic p o >>= next)
  then-Ends p none next h = tt
  then-Ends p (some a) next h = h a refl

  logs-Ends :
      (r : Outcome (MemoryError × Console) Console) (next : Console → Result)
      → Logs width height small narrow low lines r
      → ((c : Console) → Ready lines c → Ends (next c))
      → Ends (r >>= next)
  logs-Ends r next (logged c e v) h = rw e (h c v)

  sub64-Ends : (a b : ℕ) (next : ℕ → Result) → ((d : ℕ) → Ends (next d)) → Ends (sub64 a b >>= next)
  sub64-Ends a b next h = go (ltb a b)
    where
      go : (t : Bool) → Ends ((if t then panic arithmetic_overflow else ok (a - b)) >>= next)
      go true = tt
      go false = h (a - b)

  module _ (image : Image) (responses : Responses) where
    start_memory-Ends :
        (sp : ℕ) (regions : List MemoryRegionInfo) (region : MemoryRegionInfo)
        (w : BootWorld x86 entries) (c : Console)
        → Ready lines c
        → Ends (start_memory x86 entries image responses sp regions region w c)
    unfolding start_memory init_heap
    start_memory-Ends sp regions region w c v =
        go (init_tables x86 entries image responses sp regions region w)
      where
        more : Ready (peis ∷ lines) (record c { serial = peis ∷ c.serial })
        more = record {
          w = v.w;
          set_up = v.set_up;
          level = v.level;
          screen = v.screen;
          serial = ap (λ (l : List (List ℕ)). peis ∷ l) v.serial;
        }

        printed :
            (booted : Booted x86 entries)
            → Logs width height small narrow low {E = MemoryError × Console}
                (peis ∷ lines)
                (kprint (heap_initialized ++ 10 ∷ []) (record c { serial = peis ∷ c.serial }))
            → Ends (
                kprint (heap_initialized ++ 10 ∷ []) (record c { serial = peis ∷ c.serial })
                >>= λ c'. ok (booted, c'))
        printed booted (logged c' e v') = rw e v'

        go :
            (r : Outcome
              (MemoryError × BootWorld x86 entries)
              (Booted x86 entries × BootWorld x86 entries))
            → Ends (
                result x86 entries c r >>= λ a.
                init_heap (record a.1 { serial = peis ∷ a.1.serial }) >>= λ c'. ok (a.0, c'))
        go (ok (booted, w')) = printed booted (
            kprint-Logs width height small narrow low (MemoryError × Console) (peis ∷ lines)
              (heap_initialized ++ 10 ∷ []) (record c { serial = peis ∷ c.serial }) more)
        go (err (e, w')) = v
        go (panic p) = tt
        go out_of_fuel = tt

    with_region-Ends :
        (sp : ℕ) (regions : List MemoryRegionInfo) (offset : ℕ) (memory : Memory x86 entries)
        (region : Option MemoryRegionInfo) (c : Console)
        → Ready lines c
        → Ends (with_region x86 entries image responses sp regions offset memory region c)
    unfolding with_region
    with_region-Ends sp regions offset memory none c v = v
    with_region-Ends sp regions offset memory (some region) c v =
        then-Ends invalid_address (x86.phys_new region.base) _ (λ base e.
          then-Ends invalid_address (x86.virt_new region.base) _ (λ at e.
            then-Ends invalid_address (x86.virt_add at offset) _ (λ virt_base e.
              sub64-Ends virt_base offset _ (λ back.
                then-Ends invalid_address (x86.phys_new back) _ (λ next e.
                  start_memory-Ends sp regions region
                    (record { memory = memory; frames = record { next = next } }) c v)))))

    pub init_memory-Ends :
        (bounds : ℕ → ℕ → List ℕ) (name : MemoryRegionType → List ℕ) (sp : ℕ)
        (memory : Memory x86 entries) (c : Console)
        → ((regions : List MemoryRegionInfo)
            → responses.memory_map ≡ some regions
            → All (λ r. r.base + r.length < word) regions)
        → Ready lines c
        → Ends (init_memory x86 entries image responses bounds name sp memory c)
    unfolding init_memory
    init_memory-Ends bounds name sp memory c fits v =
        then-Ends unwrap_failed responses.memory_map _ (λ regions answered.
          then-Ends unwrap_failed responses.hhdm_offset _ (λ offset e.
            logs-Ends (log_ram_map bounds name ram_map_title regions c) _
              (log_ram_map-Logs width height small narrow low (MemoryError × Console) bounds name
                lines ram_map_title regions c (fits regions answered) v)
              (λ c' v'.
                then-Ends invalid_address (x86.virt_new offset) _ (λ physical_memory_offset e.
                  with_region-Ends sp regions physical_memory_offset memory
                    (allocator_region regions) c' v'))))
