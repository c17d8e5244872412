-- ===== src/Interrupts.antt =====
-- src/interrupts: the exceptions, the table of their handlers, and what a handler prints. The
-- processor's stack frame and codes come formatted; the formats are the `core` and `x86_64` crates'.
pub mod Message
pub mod Reports
mod Tests
use kermol.Common.{ℕ, Option, some, none, List, [], ◌∷◌, ◌++◌, Outcome, ok, ◌>>=◌, or_panic}
use kermol.Common.{unwrap_failed}
use kermol.Display.Console.{Console, panic_handler}

-- The entries of the table that the source names.
pub data Exception : Type 0 where
  divide_error debug non_maskable_interrupt breakpoint overflow bound_range_exceeded : Exception
  invalid_opcode device_not_available double_fault invalid_tss segment_not_present : Exception
  stack_segment_fault general_protection_fault page_fault x87_floating_point : Exception
  alignment_check machine_check simd_floating_point virtualization cp_protection_exception :
      Exception
  hv_injection_exception vmm_communication_exception security_exception : Exception

pub data Handler : Type 0 where
  division_error_handler debug_handler nmi_handler breakpoint_handler overflow_handler : Handler
  bound_range_exceeded_handler invalid_opcode_handler device_not_available_handler : Handler
  double_fault_handler invalid_tss_handler segment_not_present_handler : Handler
  stack_segment_fault_handler general_protection_fault_handler page_fault_handler : Handler
  x87_floating_point_exception_handler alignment_check_handler machine_check_handler : Handler
  simd_floating_point_exception_handler virtualization_exception_handler : Handler
  control_protection_exception_handler hypervisor_injection_exception_handler : Handler
  vmm_communication_exception_handler security_exception_handler : Handler

-- `IDT`: the handler of the machine check is commented out.
unfoldable pub idt : Exception → Option Handler
idt divide_error = some division_error_handler
idt debug = some debug_handler
idt non_maskable_interrupt = some nmi_handler
idt breakpoint = some breakpoint_handler
idt overflow = some overflow_handler
idt bound_range_exceeded = some bound_range_exceeded_handler
idt invalid_opcode = some invalid_opcode_handler
idt device_not_available = some device_not_available_handler
idt double_fault = some double_fault_handler
idt invalid_tss = some invalid_tss_handler
idt segment_not_present = some segment_not_present_handler
idt stack_segment_fault = some stack_segment_fault_handler
idt general_protection_fault = some general_protection_fault_handler
idt page_fault = some page_fault_handler
idt x87_floating_point = some x87_floating_point_exception_handler
idt alignment_check = some alignment_check_handler
idt machine_check = none
idt simd_floating_point = some simd_floating_point_exception_handler
idt virtualization = some virtualization_exception_handler
idt cp_protection_exception = some control_protection_exception_handler
idt hv_injection_exception = some hypervisor_injection_exception_handler
idt vmm_communication_exception = some vmm_communication_exception_handler
idt security_exception = some security_exception_handler

-- The text that a handler starts with.
abbrev pub banner : Handler → List ℕ
banner division_error_handler =
    68 ∷ 73 ∷ 86 ∷ 73 ∷ 83 ∷ 73 ∷ 79 ∷ 78 ∷ 32 ∷ 69 ∷ 82 ∷ 82 ∷ 79 ∷ 82 ∷ 58 ∷ 32 ∷ 10 ∷ []
banner debug_handler = 68 ∷ 69 ∷ 66 ∷ 85 ∷ 71 ∷ 58 ∷ 32 ∷ 10 ∷ []
banner nmi_handler =
    78 ∷ 79 ∷ 78 ∷ 45 ∷ 77 ∷ 65 ∷ 83 ∷ 75 ∷ 65 ∷ 66 ∷ 76 ∷ 69 ∷ 32 ∷ 73 ∷ 78 ∷ 84 ∷ 69 ∷ 82 ∷ 82
    ∷ 85 ∷ 80 ∷ 84 ∷ 58 ∷ 32 ∷ 10 ∷ []
banner breakpoint_handler = 66 ∷ 82 ∷ 69 ∷ 65 ∷ 75 ∷ 80 ∷ 79 ∷ 73 ∷ 78 ∷ 84 ∷ 58 ∷ 32 ∷ 10 ∷ []
banner overflow_handler = 79 ∷ 86 ∷ 69 ∷ 82 ∷ 70 ∷ 76 ∷ 79 ∷ 87 ∷ 58 ∷ 32 ∷ 10 ∷ []
banner bound_range_exceeded_handler =
    66 ∷ 79 ∷ 85 ∷ 78 ∷ 68 ∷ 32 ∷ 82 ∷ 65 ∷ 78 ∷ 71 ∷ 69 ∷ 32 ∷ 69 ∷ 88 ∷ 67 ∷ 69 ∷ 69 ∷ 68 ∷ 69
    ∷ 68 ∷ 58 ∷ 32 ∷ 10 ∷ []
banner invalid_opcode_handler =
    73 ∷ 78 ∷ 86 ∷ 65 ∷ 76 ∷ 73 ∷ 68 ∷ 32 ∷ 79 ∷ 80 ∷ 67 ∷ 79 ∷ 68 ∷ 69 ∷ 58 ∷ 32 ∷ 10 ∷ []
banner device_not_available_handler =
    68 ∷ 69 ∷ 86 ∷ 73 ∷ 67 ∷ 69 ∷ 95 ∷ 78 ∷ 79 ∷ 84 ∷ 95 ∷ 65 ∷ 86 ∷ 65 ∷ 73 ∷ 76 ∷ 65 ∷ 66 ∷ 76
    ∷ 69 ∷ 58 ∷ 32 ∷ 10 ∷ []
banner double_fault_handler =
    33 ∷ 68 ∷ 79 ∷ 85 ∷ 66 ∷ 76 ∷ 69 ∷ 32 ∷ 70 ∷ 65 ∷ 85 ∷ 76 ∷ 84 ∷ 58 ∷ 32 ∷ 10 ∷ []
banner invalid_tss_handler =
    73 ∷ 78 ∷ 86 ∷ 65 ∷ 76 ∷ 73 ∷ 68 ∷ 32 ∷ 84 ∷ 65 ∷ 83 ∷ 75 ∷ 45 ∷ 83 ∷ 84 ∷ 65 ∷ 84 ∷ 69 ∷ 32
    ∷ 83 ∷ 69 ∷ 71 ∷ 77 ∷ 69 ∷ 78 ∷ 84 ∷ 58 ∷ 32 ∷ 10 ∷ []
banner segment_not_present_handler =
    83 ∷ 69 ∷ 71 ∷ 77 ∷ 69 ∷ 78 ∷ 84 ∷ 32 ∷ 78 ∷ 79 ∷ 84 ∷ 32 ∷ 80 ∷ 82 ∷ 69 ∷ 83 ∷ 69 ∷ 78 ∷ 84
    ∷ 58 ∷ 32 ∷ 10 ∷ []
banner stack_segment_fault_handler =
    83 ∷ 84 ∷ 65 ∷ 67 ∷ 75 ∷ 45 ∷ 83 ∷ 69 ∷ 71 ∷ 77 ∷ 69 ∷ 78 ∷ 84 ∷ 32 ∷ 70 ∷ 65 ∷ 85 ∷ 76 ∷ 84
    ∷ 58 ∷ 32 ∷ 10 ∷ []
banner general_protection_fault_handler =
    71 ∷ 69 ∷ 78 ∷ 69 ∷ 82 ∷ 65 ∷ 76 ∷ 32 ∷ 80 ∷ 82 ∷ 79 ∷ 84 ∷ 69 ∷ 67 ∷ 84 ∷ 73 ∷ 79 ∷ 78 ∷ 32
    ∷ 70 ∷ 65 ∷ 85 ∷ 76 ∷ 84 ∷ 58 ∷ 32 ∷ 10 ∷ []
banner page_fault_handler =
    80 ∷ 65 ∷ 71 ∷ 69 ∷ 32 ∷ 70 ∷ 65 ∷ 85 ∷ 76 ∷ 84 ∷ 32 ∷ 10 ∷ 65 ∷ 99 ∷ 99 ∷ 101 ∷ 115 ∷ 115 ∷ 101
    ∷ 100 ∷ 32 ∷ 65 ∷ 100 ∷ 100 ∷ 114 ∷ 101 ∷ 115 ∷ 115 ∷ 58 ∷ 32 ∷ []
banner x87_floating_point_exception_handler =
    88 ∷ 56 ∷ 55 ∷ 32 ∷ 70 ∷ 76 ∷ 79 ∷ 65 ∷ 84 ∷ 73 ∷ 78 ∷ 71 ∷ 45 ∷ 80 ∷ 79 ∷ 73 ∷ 78 ∷ 84 ∷ 32
    ∷ 69 ∷ 88 ∷ 67 ∷ 69 ∷ 80 ∷ 84 ∷ 73 ∷ 79 ∷ 78 ∷ 58 ∷ 32 ∷ 10 ∷ []
banner alignment_check_handler =
    65 ∷ 76 ∷ 73 ∷ 71 ∷ 78 ∷ 77 ∷ 69 ∷ 78 ∷ 84 ∷ 32 ∷ 67 ∷ 72 ∷ 69 ∷ 67 ∷ 75 ∷ 58 ∷ 32 ∷ 10 ∷ []
banner machine_check_handler =
    77 ∷ 65 ∷ 67 ∷ 72 ∷ 73 ∷ 78 ∷ 69 ∷ 32 ∷ 67 ∷ 72 ∷ 69 ∷ 67 ∷ 75 ∷ 58 ∷ 32 ∷ 10 ∷ []
banner simd_floating_point_exception_handler =
    83 ∷ 73 ∷ 77 ∷ 68 ∷ 32 ∷ 70 ∷ 76 ∷ 79 ∷ 65 ∷ 84 ∷ 73 ∷ 78 ∷ 71 ∷ 45 ∷ 80 ∷ 79 ∷ 73 ∷ 78 ∷ 84
    ∷ 32 ∷ 69 ∷ 88 ∷ 67 ∷ 69 ∷ 80 ∷ 84 ∷ 73 ∷ 79 ∷ 78 ∷ 58 ∷ 32 ∷ 10 ∷ []
banner virtualization_exception_handler =
    86 ∷ 73 ∷ 82 ∷ 84 ∷ 85 ∷ 65 ∷ 76 ∷ 73 ∷ 90 ∷ 65 ∷ 84 ∷ 73 ∷ 79 ∷ 78 ∷ 32 ∷ 69 ∷ 88 ∷ 67 ∷ 69
    ∷ 80 ∷ 84 ∷ 73 ∷ 79 ∷ 78 ∷ 58 ∷ 32 ∷ 10 ∷ []
banner control_protection_exception_handler =
    67 ∷ 79 ∷ 78 ∷ 84 ∷ 82 ∷ 79 ∷ 76 ∷ 32 ∷ 80 ∷ 82 ∷ 79 ∷ 84 ∷ 69 ∷ 67 ∷ 84 ∷ 73 ∷ 79 ∷ 78 ∷ 32
    ∷ 69 ∷ 88 ∷ 67 ∷ 69 ∷ 80 ∷ 84 ∷ 73 ∷ 79 ∷ 78 ∷ 58 ∷ 32 ∷ 10 ∷ []
banner hypervisor_injection_exception_handler =
    72 ∷ 89 ∷ 80 ∷ 69 ∷ 82 ∷ 86 ∷ 73 ∷ 83 ∷ 79 ∷ 82 ∷ 32 ∷ 73 ∷ 78 ∷ 74 ∷ 69 ∷ 67 ∷ 84 ∷ 73 ∷ 79
    ∷ 78 ∷ 32 ∷ 69 ∷ 88 ∷ 67 ∷ 69 ∷ 80 ∷ 84 ∷ 73 ∷ 79 ∷ 78 ∷ 58 ∷ 32 ∷ 10 ∷ []
banner vmm_communication_exception_handler =
    86 ∷ 77 ∷ 77 ∷ 32 ∷ 67 ∷ 79 ∷ 77 ∷ 77 ∷ 85 ∷ 78 ∷ 73 ∷ 67 ∷ 65 ∷ 84 ∷ 73 ∷ 79 ∷ 78 ∷ 32 ∷ 69
    ∷ 88 ∷ 67 ∷ 69 ∷ 80 ∷ 84 ∷ 73 ∷ 79 ∷ 78 ∷ 58 ∷ 32 ∷ 10 ∷ []
banner security_exception_handler =
    83 ∷ 69 ∷ 67 ∷ 85 ∷ 82 ∷ 73 ∷ 84 ∷ 89 ∷ 32 ∷ 69 ∷ 88 ∷ 67 ∷ 69 ∷ 80 ∷ 84 ∷ 73 ∷ 79 ∷ 78 ∷ 58
    ∷ 32 ∷ 10 ∷ []

-- What the processor hands to a handler, formatted.
pub record Trap : Type 0 where
  pub stack_frame : List ℕ
  pub error_code : ℕ
  pub decimal_code : List ℕ
  pub accessed_address : List ℕ
  pub page_fault_code : List ℕ

-- "\n ", "\nError Code: " and "\n error code: ".
abbrev pub gap : List ℕ
gap = 10 ∷ 32 ∷ []

abbrev pub error_code_line : List ℕ
error_code_line = 10 ∷ 69 ∷ 114 ∷ 114 ∷ 111 ∷ 114 ∷ 32 ∷ 67 ∷ 111 ∷ 100 ∷ 101 ∷ 58 ∷ 32 ∷ []

abbrev pub code_line : List ℕ
code_line = 10 ∷ 32 ∷ 101 ∷ 114 ∷ 114 ∷ 111 ∷ 114 ∷ 32 ∷ 99 ∷ 111 ∷ 100 ∷ 101 ∷ 58 ∷ 32 ∷ []

-- `selector` is `SelectorErrorCode::new`, formatted, and `info` the message that the `core` crate
-- makes of a handler's text, which starts with the place of the call.
module _ {ℓ} {E : Type ℓ} (selector : ℕ → Option (List ℕ)) (info : Handler → List ℕ → List ℕ) where
  -- The text after the banner.
  abbrev pub details : Handler → Trap → Outcome E (List ℕ)
  details division_error_handler t = ok t.stack_frame
  details debug_handler t = ok t.stack_frame
  details nmi_handler t = ok t.stack_frame
  details breakpoint_handler t = ok t.stack_frame
  details overflow_handler t = ok t.stack_frame
  details bound_range_exceeded_handler t = ok t.stack_frame
  details invalid_opcode_handler t = ok t.stack_frame
  details device_not_available_handler t = ok t.stack_frame
  details double_fault_handler t = ok t.stack_frame
  details invalid_tss_handler t = do
    code ← or_panic unwrap_failed (selector t.error_code)
    ok (t.stack_frame ++ gap ++ code)
  details segment_not_present_handler t = do
    code ← or_panic unwrap_failed (selector t.error_code)
    ok (t.stack_frame ++ gap ++ code)
  details stack_segment_fault_handler t = do
    code ← or_panic unwrap_failed (selector t.error_code)
    ok (t.stack_frame ++ gap ++ code)
  details general_protection_fault_handler t = do
    code ← or_panic unwrap_failed (selector t.error_code)
    ok (t.stack_frame ++ (10 ∷ []) ++ code)
  details page_fault_handler t =
      ok (t.accessed_address ++ error_code_line ++ t.page_fault_code ++ 10 ∷ t.stack_frame)
  details x87_floating_point_exception_handler t = ok t.stack_frame
  details alignment_check_handler t = ok (t.stack_frame ++ code_line ++ t.decimal_code)
  details machine_check_handler t = ok t.stack_frame
  details simd_floating_point_exception_handler t = ok t.stack_frame
  details virtualization_exception_handler t = ok t.stack_frame
  details control_protection_exception_handler t = ok (t.stack_frame ++ code_line ++ t.decimal_code)
  details hypervisor_injection_exception_handler t = ok t.stack_frame
  details vmm_communication_exception_handler t = ok (t.stack_frame ++ code_line ++ t.decimal_code)
  details security_exception_handler t = ok (t.stack_frame ++ code_line ++ t.decimal_code)

  -- A handler panics with its message; without a handler nothing is printed.
  abbrev respond : Option Handler → Trap → Console → Outcome E (Option Console)
  respond none t console = ok none
  respond (some handler) t console = do
    text ← details handler t
    console ← panic_handler (info handler (banner handler ++ text)) console
    ok (some console)

  unfoldable pub raise : Exception → Trap → Console → Outcome E (Option Console)
  raise e t console = respond (idt e) t console
