-- ===== src/Kernel/Main.antt =====
-- How `kernel_main` of src/lib.rs ends, with a framebuffer that the log writer can use.
use kermol.Common.{ℕ, ◌+◌, ◌*◌, ◌<◌, ◌≡◌, true, word}
use kermol.Common.{Option, none, some, List, [], ◌∷◌, Outcome, ok, err, panic}
use kermol.Common.{out_of_fuel}
use kermol.X86.{X86, IsCanonical}
use kermol.Entries.{Entries}
use kermol.Errors.{MemoryError}
use kermol.Pages.{Memory}
use kermol.Display.Console.{Console, Framebuffer}
use kermol.Display.Reports.{IsDisplay, first_writer}
use kermol.Gdt.{GlobalDescriptorTable, stack_size}
use kermol.Boot.{Image}
use kermol.Boot.Paging.{Responses, Booted, init_memory, peis}
use kermol.Boot.Logged.{IsReady}
use kermol.Kernel.{Kernel, Loader, Formats, hi}

module _ (width height : ℕ) (small : height * width < word) (narrow : width < word)
    (low : height < word) (x86 : X86) (tables : GlobalDescriptorTable) (stack : ℕ) where
  -- Before `init_memory` the log writer is set up, and both tables are loaded.
  pub record IsSetUp (k : Kernel x86 tables) : Type 0 where
    pub console : IsReady width height small narrow low [] k.console
    pub double_fault : k.descriptors.tss ≡ some (stack + stack_size)
    pub exceptions : k.idt_is_loaded ≡ true

module _ (width height : ℕ) (small : height * width < word) (narrow : width < word)
    (low : height < word) (x86 : X86) (entries : Entries) (tables : GlobalDescriptorTable)
    (formats : Formats) (image : Image) (responses : Responses) (loader : Loader) (E : Type 0) where
  abbrev Ready : List (List ℕ) → Console → Type 0
  Ready = IsReady width height small narrow low

  -- What the bootloader and the linker provide.
  pub record IsStart (stack : ℕ) (fb : Framebuffer) (self : Kernel x86 tables) : Type 0 where
    pub kwriter : self.console ≡ record { kwriter = none; panic_level = 0; serial = [] }
    pub tss : self.descriptors.tss ≡ none
    pub display : IsDisplay width height small narrow low E fb
    pub first_framebuffer : (fbs : List Framebuffer) × (loader.framebuffers ≡ some (fb ∷ fbs))
    pub named : (named : List ℕ × List ℕ) × (loader.name_and_version ≡ some named)
    pub stack_start : IsCanonical stack
    pub stack_end : IsCanonical (stack + stack_size)

  abbrev start_console : Console
  start_console = record { kwriter = none; panic_level = 0; serial = [] }

  abbrev first_console : Framebuffer → Console
  first_console fb = record start_console {
    kwriter = some (first_writer width height small narrow low E fb.pixels);
    panic_level = 1;
  }

  -- The message of an error of `init_memory`.
  abbrev pub message : MemoryError → List ℕ
  message e = formats.panic_info (formats.memory_error e)

  -- How the kernel halts after `init_memory` has ended so: with the memory that it has made, and
  -- "PEIS" and "Hi" on the serial port; with the message of its error there; or by its panic.
  abbrev pub Halts :
      Outcome (MemoryError × Console) (Booted x86 entries × Console)
      → Outcome E (Option (Booted x86 entries) × Console)
      → Type 0
  Halts (ok (booted, _)) r = (c : Console) × (r ≡ ok (some booted, c)) × Ready (hi ∷ peis ∷ []) c
  Halts (err (e, _)) r = (c : Console) × (r ≡ ok (none, c)) × Ready (message e ∷ []) c
  Halts (panic p) r = r ≡ panic p
  Halts out_of_fuel r = r ≡ out_of_fuel

  -- The call of `init_memory` that `kernel_main` makes.
  abbrev pub memory_call :
      ℕ
      → Memory x86 entries
      → Console
      → Outcome (MemoryError × Console) (Booted x86 entries × Console)
  memory_call sp memory console =
      init_memory x86 entries image responses formats.bounds formats.region_type sp memory console
