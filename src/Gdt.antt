-- ===== src/Gdt.antt =====
-- src/memory/gdt.rs: the descriptor tables, with the `x86_64` crate's table as an interface whose
-- law is the crate's documented behaviour: two descriptors fit in a new table.
pub mod Loaded
use kermol.Common.{ℕ, ◌*◌, ◌≡◌, Option, none, some, Outcome, ok, ◌>>=◌, or_panic}
use kermol.Common.{invalid_address, explicit_panic}
use kermol.X86.{X86}

-- A task state segment is the end of the stack for a double fault, `DOUBLE_FAULT_IST_INDEX`.
pub data Descriptor : Type 0 where
  kernel_code_segment : Descriptor
  tss_segment : ℕ → Descriptor

pub record GlobalDescriptorTable : Type 1 where
  pub Table : Type 0
  pub empty : Table
  -- The selector of the descriptor, or none where the table is full.
  pub append : Descriptor → Table → Option (ℕ × Table)
  pub append-some :
      (stack_end : ℕ)
      → (code : ℕ) × (table : Table) × (task : ℕ) × (both : Table) × (append kernel_code_segment
            empty
          ≡ some (code, table))
        × (append (tss_segment stack_end) table ≡ some (task, both))

-- `STACK_SIZE`.
abbrev pub stack_size : ℕ
stack_size = 4 * 1024

module _ (x86 : X86) (tables : GlobalDescriptorTable) where
  -- `TSS`, `GDT`, and the registers that `init_gdt` loads.
  pub record Descriptors : Type 0 where
    pub tss : Option ℕ
    pub gdt : Option tables.Table
    pub loaded : Option tables.Table
    pub code_segment : Option ℕ
    pub task_register : Option ℕ

  -- `call_once(…)` with a value that is there, and the closure of the one on `TSS`.
  abbrev pub once {ℓ} : {A : Type ℓ} → A → Option A → A
  once a none = a
  once a (some first) = first

  abbrev pub double_fault_stack {ℓ} : {E : Type ℓ} → ℕ → Option ℕ → Outcome E ℕ
  double_fault_stack stack none = do
    stack_start ← or_panic invalid_address (x86.virt_new stack)
    or_panic invalid_address (x86.virt_add stack_start stack_size)
  double_fault_stack stack (some stack_end) = ok stack_end

  -- `stack` is the address of `STACK`.
  unfoldable pub init_gdt {ℓ} : {E : Type ℓ} → ℕ → Descriptors → Outcome E Descriptors
  init_gdt stack self = do
    stack_end ← double_fault_stack stack self.tss
    (code_segment, gdt) ← or_panic explicit_panic (tables.append kernel_code_segment tables.empty)
    (task_state_segment, gdt) ← or_panic explicit_panic (tables.append (tss_segment stack_end) gdt)
    let first = once gdt self.gdt
    ok (record {
      tss = some stack_end;
      gdt = some first;
      loaded = some first;
      code_segment = some code_segment;
      task_register = some task_state_segment;
    })
