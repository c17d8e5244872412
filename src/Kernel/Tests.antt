-- ===== src/Kernel/Tests.antt =====
-- A start of the kernel on a machine without usable memory.
use kermol.Common.{ℕ, refl, none, some, List, [], ◌∷◌}
use kermol.Common.{false}
use kermol.X86.Example.{machine}
use kermol.Entries.Example.{entries}
use kermol.Pages.{Memory}
use kermol.Display.Example.{display, at_start}
use kermol.Errors.{MemoryError}
use kermol.Gdt.{Descriptor, kernel_code_segment, tss_segment, GlobalDescriptorTable}
use kermol.Boot.{Image}
use kermol.Boot.Paging.{Responses}
use kermol.Kernel.{Kernel, Loader, Formats}

-- The table as the list of its descriptors.
abbrev tables : GlobalDescriptorTable
tables = record {
  Table = List Descriptor;
  empty = [];
  append = λ d t. some (8, d ∷ t);
  append-some = λ stack_end. (
    8,
    kernel_code_segment ∷ [],
    8,
    tss_segment stack_end ∷ kernel_code_segment ∷ [],
    refl,
    refl,
  );
}

abbrev no_text : MemoryError → List ℕ
no_text e = []

abbrev formats : Formats
formats = record {
  bounds = λ a b. a ∷ b ∷ [];
  region_type = λ kind. [];
  memory_error = no_text;
  panic_info = λ text. 80 ∷ text;
}

abbrev image : Image
image = record {
  limine_reqs_start = 0;
  text_start = 0;
  rodata_start = 0;
  data_start = 0;
  elf_end = 0;
}

abbrev responses : Responses
responses = record { memory_map = some []; hhdm_offset = some 0; kernel_address = none }

abbrev loader : Loader
loader = record { framebuffers = some (display ∷ []); name_and_version = some (76 ∷ [], 57 ∷ []) }

abbrev memory : Memory machine entries
memory = λ p i. entries.unused

abbrev at_boot : Kernel machine tables
at_boot = record {
  console = at_start;
  descriptors = record {
    tss = none;
    gdt = none;
    loaded = none;
    code_segment = none;
    task_register = none;
  };
  idt_is_loaded = false;
}
