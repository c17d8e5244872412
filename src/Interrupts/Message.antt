-- ===== src/Interrupts/Message.antt =====
-- What the message of an exception of src/interrupts has to say, whatever its handler.
use mathlib.Core.List.{append-nil, append_assoc}
use kermol.Common.{ℕ, ◌≡◌, sym, ◌∙◌, ap, List, [], ◌∷◌, ◌++◌, All}
use kermol.Interrupts.{Exception, Trap}
use kermol.Interrupts.{
  divide_error, debug, non_maskable_interrupt, breakpoint, overflow, bound_range_exceeded,
  invalid_opcode, device_not_available, double_fault, invalid_tss, segment_not_present,
  stack_segment_fault, general_protection_fault, page_fault, x87_floating_point, alignment_check,
  machine_check, simd_floating_point, virtualization, cp_protection_exception,
  hv_injection_exception, vmm_communication_exception, security_exception,
}

-- The name under which an exception is announced.
abbrev pub title : Exception → List ℕ
title divide_error = 68 ∷ 73 ∷ 86 ∷ 73 ∷ 83 ∷ 73 ∷ 79 ∷ 78 ∷ 32 ∷ 69 ∷ 82 ∷ 82 ∷ 79 ∷ 82 ∷ []
title debug = 68 ∷ 69 ∷ 66 ∷ 85 ∷ 71 ∷ []
title non_maskable_interrupt =
    78 ∷ 79 ∷ 78 ∷ 45 ∷ 77 ∷ 65 ∷ 83 ∷ 75 ∷ 65 ∷ 66 ∷ 76 ∷ 69 ∷ 32 ∷ 73 ∷ 78 ∷ 84 ∷ 69 ∷ 82 ∷ 82
    ∷ 85 ∷ 80 ∷ 84 ∷ []
title breakpoint = 66 ∷ 82 ∷ 69 ∷ 65 ∷ 75 ∷ 80 ∷ 79 ∷ 73 ∷ 78 ∷ 84 ∷ []
title overflow = 79 ∷ 86 ∷ 69 ∷ 82 ∷ 70 ∷ 76 ∷ 79 ∷ 87 ∷ []
title bound_range_exceeded =
    66 ∷ 79 ∷ 85 ∷ 78 ∷ 68 ∷ 32 ∷ 82 ∷ 65 ∷ 78 ∷ 71 ∷ 69 ∷ 32 ∷ 69 ∷ 88 ∷ 67 ∷ 69 ∷ 69 ∷ 68 ∷ 69
    ∷ 68 ∷ []
title invalid_opcode = 73 ∷ 78 ∷ 86 ∷ 65 ∷ 76 ∷ 73 ∷ 68 ∷ 32 ∷ 79 ∷ 80 ∷ 67 ∷ 79 ∷ 68 ∷ 69 ∷ []
title device_not_available =
    68 ∷ 69 ∷ 86 ∷ 73 ∷ 67 ∷ 69 ∷ 95 ∷ 78 ∷ 79 ∷ 84 ∷ 95 ∷ 65 ∷ 86 ∷ 65 ∷ 73 ∷ 76 ∷ 65 ∷ 66 ∷ 76
    ∷ 69 ∷ []
title double_fault = 33 ∷ 68 ∷ 79 ∷ 85 ∷ 66 ∷ 76 ∷ 69 ∷ 32 ∷ 70 ∷ 65 ∷ 85 ∷ 76 ∷ 84 ∷ []
title invalid_tss =
    73 ∷ 78 ∷ 86 ∷ 65 ∷ 76 ∷ 73 ∷ 68 ∷ 32 ∷ 84 ∷ 65 ∷ 83 ∷ 75 ∷ 45 ∷ 83 ∷ 84 ∷ 65 ∷ 84 ∷ 69 ∷ 32
    ∷ 83 ∷ 69 ∷ 71 ∷ 77 ∷ 69 ∷ 78 ∷ 84 ∷ []
title segment_not_present =
    83 ∷ 69 ∷ 71 ∷ 77 ∷ 69 ∷ 78 ∷ 84 ∷ 32 ∷ 78 ∷ 79 ∷ 84 ∷ 32 ∷ 80 ∷ 82 ∷ 69 ∷ 83 ∷ 69 ∷ 78 ∷ 84
    ∷ []
title stack_segment_fault =
    83 ∷ 84 ∷ 65 ∷ 67 ∷ 75 ∷ 45 ∷ 83 ∷ 69 ∷ 71 ∷ 77 ∷ 69 ∷ 78 ∷ 84 ∷ 32 ∷ 70 ∷ 65 ∷ 85 ∷ 76 ∷ 84
    ∷ []
title general_protection_fault =
    71 ∷ 69 ∷ 78 ∷ 69 ∷ 82 ∷ 65 ∷ 76 ∷ 32 ∷ 80 ∷ 82 ∷ 79 ∷ 84 ∷ 69 ∷ 67 ∷ 84 ∷ 73 ∷ 79 ∷ 78 ∷ 32
    ∷ 70 ∷ 65 ∷ 85 ∷ 76 ∷ 84 ∷ []
title page_fault = 80 ∷ 65 ∷ 71 ∷ 69 ∷ 32 ∷ 70 ∷ 65 ∷ 85 ∷ 76 ∷ 84 ∷ []
title x87_floating_point =
    88 ∷ 56 ∷ 55 ∷ 32 ∷ 70 ∷ 76 ∷ 79 ∷ 65 ∷ 84 ∷ 73 ∷ 78 ∷ 71 ∷ 45 ∷ 80 ∷ 79 ∷ 73 ∷ 78 ∷ 84 ∷ 32
    ∷ 69 ∷ 88 ∷ 67 ∷ 69 ∷ 80 ∷ 84 ∷ 73 ∷ 79 ∷ 78 ∷ []
title alignment_check =
    65 ∷ 76 ∷ 73 ∷ 71 ∷ 78 ∷ 77 ∷ 69 ∷ 78 ∷ 84 ∷ 32 ∷ 67 ∷ 72 ∷ 69 ∷ 67 ∷ 75 ∷ []
title machine_check = 77 ∷ 65 ∷ 67 ∷ 72 ∷ 73 ∷ 78 ∷ 69 ∷ 32 ∷ 67 ∷ 72 ∷ 69 ∷ 67 ∷ 75 ∷ []
title simd_floating_point =
    83 ∷ 73 ∷ 77 ∷ 68 ∷ 32 ∷ 70 ∷ 76 ∷ 79 ∷ 65 ∷ 84 ∷ 73 ∷ 78 ∷ 71 ∷ 45 ∷ 80 ∷ 79 ∷ 73 ∷ 78 ∷ 84
    ∷ 32 ∷ 69 ∷ 88 ∷ 67 ∷ 69 ∷ 80 ∷ 84 ∷ 73 ∷ 79 ∷ 78 ∷ []
title virtualization =
    86 ∷ 73 ∷ 82 ∷ 84 ∷ 85 ∷ 65 ∷ 76 ∷ 73 ∷ 90 ∷ 65 ∷ 84 ∷ 73 ∷ 79 ∷ 78 ∷ 32 ∷ 69 ∷ 88 ∷ 67 ∷ 69
    ∷ 80 ∷ 84 ∷ 73 ∷ 79 ∷ 78 ∷ []
title cp_protection_exception =
    67 ∷ 79 ∷ 78 ∷ 84 ∷ 82 ∷ 79 ∷ 76 ∷ 32 ∷ 80 ∷ 82 ∷ 79 ∷ 84 ∷ 69 ∷ 67 ∷ 84 ∷ 73 ∷ 79 ∷ 78 ∷ 32
    ∷ 69 ∷ 88 ∷ 67 ∷ 69 ∷ 80 ∷ 84 ∷ 73 ∷ 79 ∷ 78 ∷ []
title hv_injection_exception =
    72 ∷ 89 ∷ 80 ∷ 69 ∷ 82 ∷ 86 ∷ 73 ∷ 83 ∷ 79 ∷ 82 ∷ 32 ∷ 73 ∷ 78 ∷ 74 ∷ 69 ∷ 67 ∷ 84 ∷ 73 ∷ 79
    ∷ 78 ∷ 32 ∷ 69 ∷ 88 ∷ 67 ∷ 69 ∷ 80 ∷ 84 ∷ 73 ∷ 79 ∷ 78 ∷ []
title vmm_communication_exception =
    86 ∷ 77 ∷ 77 ∷ 32 ∷ 67 ∷ 79 ∷ 77 ∷ 77 ∷ 85 ∷ 78 ∷ 73 ∷ 67 ∷ 65 ∷ 84 ∷ 73 ∷ 79 ∷ 78 ∷ 32 ∷ 69
    ∷ 88 ∷ 67 ∷ 69 ∷ 80 ∷ 84 ∷ 73 ∷ 79 ∷ 78 ∷ []
title security_exception =
    83 ∷ 69 ∷ 67 ∷ 85 ∷ 82 ∷ 73 ∷ 84 ∷ 89 ∷ 32 ∷ 69 ∷ 88 ∷ 67 ∷ 69 ∷ 80 ∷ 84 ∷ 73 ∷ 79 ∷ 78 ∷ []

-- The parts that a message must have, besides the name: the stack frame; the error code, where the
-- processor pushes one that is not always zero, `selector` being the formatted selector in it; and
-- for a page fault the address that was accessed.
abbrev pub parts : Exception → Trap → List ℕ → List (List ℕ)
parts divide_error t selector = t.stack_frame ∷ []
parts debug t selector = t.stack_frame ∷ []
parts non_maskable_interrupt t selector = t.stack_frame ∷ []
parts breakpoint t selector = t.stack_frame ∷ []
parts overflow t selector = t.stack_frame ∷ []
parts bound_range_exceeded t selector = t.stack_frame ∷ []
parts invalid_opcode t selector = t.stack_frame ∷ []
parts device_not_available t selector = t.stack_frame ∷ []
parts double_fault t selector = t.stack_frame ∷ []
parts invalid_tss t selector = t.stack_frame ∷ selector ∷ []
parts segment_not_present t selector = t.stack_frame ∷ selector ∷ []
parts stack_segment_fault t selector = t.stack_frame ∷ selector ∷ []
parts general_protection_fault t selector = t.stack_frame ∷ selector ∷ []
parts page_fault t selector = t.stack_frame ∷ t.page_fault_code ∷ t.accessed_address ∷ []
parts x87_floating_point t selector = t.stack_frame ∷ []
parts alignment_check t selector = t.stack_frame ∷ t.decimal_code ∷ []
parts machine_check t selector = t.stack_frame ∷ []
parts simd_floating_point t selector = t.stack_frame ∷ []
parts virtualization t selector = t.stack_frame ∷ []
parts cp_protection_exception t selector = t.stack_frame ∷ t.decimal_code ∷ []
parts hv_injection_exception t selector = t.stack_frame ∷ []
parts vmm_communication_exception t selector = t.stack_frame ∷ t.decimal_code ∷ []
parts security_exception t selector = t.stack_frame ∷ t.decimal_code ∷ []

abbrev pub StartsWith : List ℕ → List ℕ → Type 0
StartsWith s text = (rest : List ℕ) × (text ≡ s ++ rest)

abbrev pub Contains : List ℕ → List ℕ → Type 0
Contains s text = (before : List ℕ) × (after : List ℕ) × (text ≡ before ++ (s ++ after))

pub Contains-self : (s : List ℕ) → Contains s s
Contains-self s = ([], [], sym (append-nil s))

pub Contains-left : (s x y : List ℕ) → Contains s x → Contains s (x ++ y)
Contains-left s x y (a, b, e) = (
  a,
  b ++ y,
  ap (λ (l : List ℕ). l ++ y) e
      ∙ append_assoc a (s ++ b) y
      ∙ ap (λ (l : List ℕ). a ++ l) (append_assoc s b y),
)

pub Contains-right : (s x y : List ℕ) → Contains s y → Contains s (x ++ y)
Contains-right s x y (a, b, e) =
    (x ++ a, b, ap (λ (l : List ℕ). x ++ l) e ∙ sym (append_assoc x a (s ++ b)))

-- A text that starts with the name of the exception and has its parts.
pub record Tells (e : Exception) (t : Trap) (selector : List ℕ) (text : List ℕ) : Type 0 where
  pub name : StartsWith (title e) text
  pub all : All (λ part. Contains part text) (parts e t selector)

-- Parts stay when something comes before them.
pub All-Contains :
    (ps : List (List ℕ)) (x y : List ℕ)
    → All (λ part. Contains part y) ps
    → All (λ part. Contains part (x ++ y)) ps
All-Contains [] x y tt = tt
All-Contains (p ∷ ps) x y (h, hs) = (Contains-right p x y h, All-Contains ps x y hs)
