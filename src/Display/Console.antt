-- ===== src/Display/Console.antt =====
-- The global log writer of src/display/vga_text_writer.rs, the panic handler of src/lib.rs, and
-- `log_ram_map` of src/memory/mod.rs. A formatted message is the string that is printed.
use kermol.Common.{ℕ, ◌+◌, ◌%◌, ◌==◌, if◌then◌else◌, true, Option, some, none, List, [], ◌∷◌, ◌++◌}
use kermol.Common.{Outcome, ok, err, panic, out_of_fuel, ◌>>=◌, or_panic, unwrap_failed}
use kermol.Common.{get_elem?, add64, mul64}
use kermol.Regions.{MemoryRegionType, MemoryRegionInfo}
use kermol.Regions.MemoryRegionType.{usable, reserved, bad_memory, framebuffer}
use kermol.Display.Framebuffer.{LinearFramebuffer, LinearFramebufferError, unsupported_pixel_depth}
use kermol.Display.Text.{
  VgaColor, as_u32, black, light_red, light_green, light_blue, dark_gray, yellow,
}
use kermol.Display.Writer
use kermol.Display.Writer.{VgaWriter, default_color, write_string}

-- A framebuffer as the bootloader describes it, with the pixels at its address.
pub record Framebuffer : Type 0 where
  pub bpp : ℕ
  pub width : ℕ
  pub height : ℕ
  pub pixels : List ℕ

-- `LinearFramebuffer::new`.
unfoldable pub linear_framebuffer : Framebuffer → Outcome LinearFramebufferError LinearFramebuffer
linear_framebuffer fb =
    if fb.bpp == 32
    then (do
      _ ← mul64 fb.width fb.height
      ok (record { dimensions = (fb.width, fb.height); buffer = fb.pixels }))
    else err unsupported_pixel_depth

-- `KWRITER`, `PANIC_LEVEL`, and the lines that the serial port has got, the last one first.
pub record Console : Type 0 where
  pub kwriter : Option VgaWriter
  pub panic_level : ℕ
  pub serial : List (List ℕ)

-- `KWRITER.call_once(…)`.
abbrev pub call_once : VgaWriter → Option VgaWriter → Option VgaWriter
call_once w none = some w
call_once w (some first) = some first

abbrev pub region_color : MemoryRegionType → VgaColor
region_color kind = elim kind [
  | usable ↦ light_green
  | reserved ↦ light_red
  | bad_memory ↦ light_red
  | framebuffer ↦ light_blue
  | _ ↦ dark_gray
]

module _ {ℓ} {E : Type ℓ} where
  -- `result.expect(…)`.
  abbrev pub expect : {F A : Type 0} → Outcome F A → Outcome E A
  expect (ok a) = ok a
  expect (err e) = panic unwrap_failed
  expect (panic p) = panic p
  expect out_of_fuel = out_of_fuel

  -- The framebuffers are the bootloader's answer.
  unfoldable pub init_kwriter : Option (List Framebuffer) → Console → Outcome E Console
  init_kwriter framebuffers self = do
    fbs ← or_panic unwrap_failed framebuffers
    fb ← or_panic unwrap_failed (get_elem? fbs 0)
    lfb ← expect (linear_framebuffer fb)
    ok (record self {
      kwriter = call_once (Writer.new lfb true (as_u32 default_color) (as_u32 black)) self.kwriter;
      panic_level = (self.panic_level + 1) % 256;
    })

  -- `writer.write_fmt(args).unwrap()`.
  abbrev pub print : List ℕ → VgaWriter → Outcome E VgaWriter
  print args w = elim (write_string {E = Unit {0}} args w) [
    | ok (_, w) ↦ ok w
    | err e ↦ panic unwrap_failed
    | panic p ↦ panic p
    | out_of_fuel ↦ out_of_fuel
  ]

  unfoldable pub kprint : List ℕ → Console → Outcome E Console
  kprint args self = do
    w ← or_panic unwrap_failed self.kwriter
    w ← print args w
    ok (record self { kwriter = some w })

  unfoldable pub kprint_color : List ℕ → VgaColor → Console → Outcome E Console
  kprint_color args color self = do
    w ← or_panic unwrap_failed self.kwriter
    w ← print args (record w { default_text = as_u32 color })
    ok (record self { kwriter = some (record w { default_text = as_u32 default_color }) })

  unfoldable pub kwriter_set_color : ℕ → Console → Outcome E Console
  kwriter_set_color color self = do
    w ← or_panic unwrap_failed self.kwriter
    ok (record self { kwriter = some (record w { default_text = color }) })

  unfoldable pub kwriter_set_bg : ℕ → Console → Outcome E Console
  kwriter_set_bg background self = do
    w ← or_panic unwrap_failed self.kwriter
    ok (record self { kwriter = some (record w { default_background = background }) })

  -- `kprintln!`.
  abbrev pub kprintln : List ℕ → Console → Outcome E Console
  kprintln args self = kprint (args ++ 10 ∷ []) self

  -- `kwarn!` and `kerror!`.
  abbrev pub kwarn : List ℕ → Console → Outcome E Console
  kwarn args self = kprint_color (args ++ 10 ∷ []) yellow self

  abbrev pub kerror : List ℕ → Console → Outcome E Console
  kerror args self = kprint_color (args ++ 10 ∷ []) light_red self

  -- What `panic_handler` prints before it halts.
  unfoldable pub panic_handler : List ℕ → Console → Outcome E Console
  panic_handler info self =
      if self.panic_level == 0
      then ok (record self { serial = info ∷ self.serial })
      else if self.panic_level == 1
      then (do
        let self = record self { serial = info ∷ self.serial }
        w ← or_panic unwrap_failed self.kwriter
        w ← print (info ++ 10 ∷ []) (record w { default_text = as_u32 light_red })
        ok (record self { kwriter = some w }))
      else ok self

  -- `log_ram_map`, where `bounds` and `name` format a line's two parts.
  module _ (bounds : ℕ → ℕ → List ℕ) (name : MemoryRegionType → List ℕ) where
    unfoldable pub log_region : MemoryRegionInfo → Console → Outcome E Console
    log_region r self = do
      end ← add64 r.base r.length
      self ← kprint (bounds r.base end) self
      self ← kwriter_set_color (as_u32 (region_color r.kind)) self
      self ← kprintln (name r.kind) self
      kwriter_set_color (as_u32 default_color) self

    unfoldable pub log_regions : List MemoryRegionInfo → Console → Outcome E Console
    log_regions [] self = ok self
    log_regions (r ∷ rammap_entries) self = do
      self ← log_region r self
      log_regions rammap_entries self

    unfoldable pub log_ram_map : List ℕ → List MemoryRegionInfo → Console → Outcome E Console
    log_ram_map title rammap_entries self = do
      self ← kprintln title self
      log_regions rammap_entries self
