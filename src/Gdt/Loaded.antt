-- ===== src/Gdt/Loaded.antt =====
-- The descriptor tables of src/memory/gdt.rs once they are loaded.
use kermol.Common.{ℕ, ◌+◌, ◌≡◌, refl}
use kermol.Common.{none, some, ok}
use kermol.X86.{X86, IsCanonical}
use kermol.Gdt.{GlobalDescriptorTable, Descriptors, init_gdt, once, stack_size}

-- Once both descriptors are in the table, the double fault has its own stack.
module _ (x86 : X86) (tables : GlobalDescriptorTable) (stack : ℕ)
    (self : Descriptors x86 tables) where
  pub init_gdt-returns :
      (E : Type 0)
      → self.tss ≡ none
      → IsCanonical stack
      → IsCanonical (stack + stack_size)
      → (d : Descriptors x86 tables) × (init_gdt x86 tables {E = E} stack self ≡ ok d)
        × (d.tss ≡ some (stack + stack_size))
  unfolding init_gdt
  init_gdt-returns E unset start end =
      let (code, table, task, both, first, second) = tables.append-some (stack + stack_size) in
      (
        record {
          tss = some (stack + stack_size);
          gdt = some (once x86 tables both self.gdt);
          loaded = some (once x86 tables both self.gdt);
          code_segment = some code;
          task_register = some task;
        },
        rw
            (
              unset,
              x86.virt_new-some stack start,
              x86.virt_add-some stack stack_size end,
              first,
              second,
            )
            refl,
        refl,
      )
