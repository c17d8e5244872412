-- ===== src/Kernel.antt =====
-- `kernel_main` of src/lib.rs, past which the processor halts. The bootloader's answers, the format
-- of the text and the place of the stack for double faults are parameters.
pub mod Main
mod Tests
use kermol.Common.{ℕ, Bool, true, Option, none, some, List, [], ◌∷◌, ◌++◌}
use kermol.Common.{Outcome, ok, err, panic, out_of_fuel, ◌>>=◌, or_panic, unwrap_failed}
use kermol.X86.{X86}
use kermol.Errors.{MemoryError}
use kermol.Entries.{Entries}
use kermol.Pages.{Memory}
use kermol.Regions.{MemoryRegionType}
use kermol.Display.Console.{Console, Framebuffer, init_kwriter, kprintln, panic_handler}
use kermol.Gdt.{GlobalDescriptorTable, Descriptors, init_gdt}
use kermol.Boot.{Image}
use kermol.Boot.Paging.{Responses, Booted, init_memory}

-- "Kermol was loaded using ", what `kernel_main` logs of the descriptor tables, and "Hi".
abbrev pub loaded_using : List ℕ
loaded_using =
    75 ∷ 101 ∷ 114 ∷ 109 ∷ 111 ∷ 108 ∷ 32 ∷ 119 ∷ 97 ∷ 115 ∷ 32 ∷ 108 ∷ 111 ∷ 97 ∷ 100 ∷ 101 ∷ 100
    ∷ 32 ∷ 117 ∷ 115 ∷ 105 ∷ 110 ∷ 103 ∷ 32 ∷ []

abbrev pub gdt_initialized : List ℕ
gdt_initialized =
    71 ∷ 108 ∷ 111 ∷ 98 ∷ 97 ∷ 108 ∷ 32 ∷ 68 ∷ 101 ∷ 115 ∷ 99 ∷ 114 ∷ 105 ∷ 112 ∷ 116 ∷ 111 ∷ 114
    ∷ 32 ∷ 84 ∷ 97 ∷ 98 ∷ 108 ∷ 101 ∷ 32 ∷ 105 ∷ 110 ∷ 105 ∷ 116 ∷ 105 ∷ 97 ∷ 108 ∷ 105 ∷ 122 ∷ 101
    ∷ 100 ∷ []

abbrev pub idt_loaded : List ℕ
idt_loaded =
    73 ∷ 110 ∷ 116 ∷ 101 ∷ 114 ∷ 114 ∷ 117 ∷ 112 ∷ 116 ∷ 32 ∷ 68 ∷ 101 ∷ 115 ∷ 99 ∷ 114 ∷ 105 ∷ 112
    ∷ 116 ∷ 111 ∷ 114 ∷ 32 ∷ 84 ∷ 97 ∷ 98 ∷ 108 ∷ 101 ∷ 32 ∷ 108 ∷ 111 ∷ 97 ∷ 100 ∷ 101 ∷ 100 ∷ 44
    ∷ 32 ∷ 69 ∷ 120 ∷ 99 ∷ 101 ∷ 112 ∷ 116 ∷ 105 ∷ 111 ∷ 110 ∷ 115 ∷ 32 ∷ 97 ∷ 114 ∷ 101 ∷ 32 ∷ 110
    ∷ 111 ∷ 119 ∷ 32 ∷ 101 ∷ 110 ∷ 97 ∷ 98 ∷ 108 ∷ 101 ∷ 100 ∷ []

abbrev pub hi : List ℕ
hi = 72 ∷ 105 ∷ []

-- The answers to `BOOTLOADER_INFO_REQUEST` and the framebuffer request.
pub record Loader : Type 0 where
  pub framebuffers : Option (List Framebuffer)
  pub name_and_version : Option (List ℕ × List ℕ)

-- How the lines of the memory map, an error, and the message of its panic are formatted.
pub record Formats : Type 0 where
  pub bounds : ℕ → ℕ → List ℕ
  pub region_type : MemoryRegionType → List ℕ
  pub memory_error : MemoryError → List ℕ
  pub panic_info : List ℕ → List ℕ

-- `KWRITER` with the rest of the console, the descriptor tables, and whether the table of handlers
-- is loaded.
pub record Kernel (x86 : X86) (tables : GlobalDescriptorTable) : Type 0 where
  pub console : Console
  pub descriptors : Descriptors x86 tables
  pub idt_is_loaded : Bool

module _ (x86 : X86) (entries : Entries) (tables : GlobalDescriptorTable) (formats : Formats)
    (image : Image) (responses : Responses) (loader : Loader) where
  -- The panic of an error of `init_memory`, or the last line.
  abbrev pub finish {ℓ} :
      {E : Type ℓ}
      → Outcome (MemoryError × Console) (Booted x86 entries × Console)
      → Outcome E (Option (Booted x86 entries) × Console)
  finish (ok (booted, console)) = ok (some booted, record console { serial = hi ∷ console.serial })
  finish (err (memory_error, console)) = do
    console ← panic_handler (formats.panic_info (formats.memory_error memory_error)) console
    ok (none, console)
  finish (panic p) = panic p
  finish out_of_fuel = out_of_fuel

  -- What is done before `init_memory`.
  unfoldable pub set_up {ℓ} : {E : Type ℓ} → ℕ → Kernel x86 tables → Outcome E (Kernel x86 tables)
  set_up stack self = do
    console ← init_kwriter loader.framebuffers self.console
    (name, version) ← or_panic unwrap_failed loader.name_and_version
    console ← kprintln (loaded_using ++ (name ++ 32 ∷ version)) console
    descriptors ← init_gdt x86 tables stack self.descriptors
    console ← kprintln gdt_initialized console
    console ← kprintln idt_loaded console
    ok (record { console = console; descriptors = descriptors; idt_is_loaded = true })

  -- What is left when the processor halts: what `init_memory` has made, if it ended without an error.
  unfoldable pub kernel_main {ℓ} :
      {E : Type ℓ}
      → ℕ
      → ℕ
      → Memory x86 entries
      → Kernel x86 tables
      → Outcome E (Option (Booted x86 entries) × Console)
  kernel_main stack entry_stack_pointer memory self = do
    self ← set_up stack self
    finish (
        init_memory x86 entries image responses formats.bounds formats.region_type
          entry_stack_pointer memory self.console)
