-- ===== src/Interrupts/Tests.antt =====
-- An exception that is raised while the log writer is set up.
use kermol.Common.{ℕ, ◌≢◌, refl, Option, some, List, [], ◌∷◌, arith}
use kermol.Display.Example.{in_red, in_red-Reaches}
use kermol.Interrupts.{Handler, Trap, raise, invalid_tss, machine_check}
use kermol.Interrupts.Reports.{Announces, raise-Announces}

-- A selector that is printed as its code.
abbrev small_selector : ℕ → Option (List ℕ)
small_selector code = some (code ∷ [])

abbrev with_place : Handler → List ℕ → List ℕ
with_place h text = 80 ∷ 10 ∷ text

abbrev trap : Trap
trap = record {
  stack_frame = 83 ∷ [];
  error_code = 40;
  decimal_code = 52 ∷ 48 ∷ [];
  accessed_address = [];
  page_fault_code = [];
}

no_machine_check : invalid_tss ≢ machine_check
no_machine_check e = ground (arith, e)

raise-Announces_example :
    Announces 16 32
      (omega arith)
      (omega arith)
      (omega arith)
      (Unit {0})
      with_place
      invalid_tss
      trap
      (40 ∷ [])
      in_red
      (raise small_selector with_place invalid_tss trap in_red)
raise-Announces_example =
    raise-Announces 16 32 (omega arith) (omega arith) (omega arith) (Unit {0}) small_selector
      with_place invalid_tss trap (40 ∷ []) in_red no_machine_check refl in_red-Reaches
