-- ===== src/Interrupts/Reports.antt =====
-- What an exception of the processor leaves, from the table in src/interrupts/mod.rs to the panic
-- handler of src/lib.rs.
use mathlib.Core.List.{append_assoc}
use kermol.Common.{ℕ, ◌*◌, ◌<◌, ◌≡◌, refl, word}
use kermol.Common.{ap, ◌∙◌, ◌≢◌, All, Option, some, List, [], ◌∷◌, ◌++◌, Outcome, ok}
use kermol.Display.Console.{Console, panic_handler}
use kermol.Display.Reports.{Reaches, IsConsole, Reports, reported, panic_handler-Reports}
use kermol.Interrupts.{
  gap, error_code_line, code_line, Exception, Handler, Trap, idt, banner, details, raise,
}
use kermol.Interrupts.{
  divide_error, debug, non_maskable_interrupt, breakpoint, overflow, bound_range_exceeded,
  invalid_opcode, device_not_available, double_fault, invalid_tss, segment_not_present,
  stack_segment_fault, general_protection_fault, page_fault, x87_floating_point, alignment_check,
  machine_check, simd_floating_point, virtualization, cp_protection_exception,
  hv_injection_exception, vmm_communication_exception, security_exception,
}
use kermol.Interrupts.{
  division_error_handler, debug_handler, nmi_handler, breakpoint_handler, overflow_handler,
  bound_range_exceeded_handler, invalid_opcode_handler, device_not_available_handler,
  double_fault_handler, invalid_tss_handler, segment_not_present_handler,
  stack_segment_fault_handler, general_protection_fault_handler, page_fault_handler,
  x87_floating_point_exception_handler, alignment_check_handler,
  simd_floating_point_exception_handler, virtualization_exception_handler,
  control_protection_exception_handler, hypervisor_injection_exception_handler,
  vmm_communication_exception_handler, security_exception_handler,
}
use kermol.Interrupts.Message.{
  title, parts, Contains, Contains-self, Contains-left, Contains-right, All-Contains, Tells,
}

abbrev colon : List ℕ
colon = 58 ∷ 32 ∷ 10 ∷ []

module _ (t : Trap) where
  framed : All (λ part. Contains part t.stack_frame) (t.stack_frame ∷ [])
  framed = (Contains-self t.stack_frame, tt)

  -- The stack frame, a line, and a code.
  coded :
      (line c : List ℕ)
      → All (λ part. Contains part (t.stack_frame ++ line ++ c)) (t.stack_frame ∷ c ∷ [])
  coded line c = (
    Contains-left t.stack_frame (t.stack_frame ++ line) c
        (Contains-left t.stack_frame t.stack_frame line (Contains-self t.stack_frame)),
    (Contains-right c (t.stack_frame ++ line) c (Contains-self c), tt),
  )

  -- The text of a page fault, up to the error code.
  abbrev faulted : List ℕ
  faulted = t.accessed_address ++ error_code_line ++ t.page_fault_code

  page_parts :
      All
        (λ part. Contains part (faulted ++ 10 ∷ t.stack_frame))
        (t.stack_frame ∷ t.page_fault_code ∷ t.accessed_address ∷ [])
  page_parts = (
    Contains-right t.stack_frame faulted (10 ∷ t.stack_frame)
        (Contains-right t.stack_frame (10 ∷ []) t.stack_frame (Contains-self t.stack_frame)),
    (
      Contains-left t.page_fault_code faulted (10 ∷ t.stack_frame) (
          Contains-right t.page_fault_code (t.accessed_address ++ error_code_line) t.page_fault_code
            (Contains-self t.page_fault_code)),
      (
        Contains-left t.accessed_address faulted (10 ∷ t.stack_frame) (
            Contains-left t.accessed_address (t.accessed_address ++ error_code_line)
              t.page_fault_code
              (Contains-left t.accessed_address t.accessed_address error_code_line
                (Contains-self t.accessed_address))),
        tt,
      ),
    ),
  )

module _ (E : Type 0) (selector : ℕ → Option (List ℕ)) (info : Handler → List ℕ → List ℕ) (t : Trap)
    (code : List ℕ) where
  -- An exception with a handler in the table whose text tells of it.
  record IsTold (e : Exception) : Type 0 where
    handler : Handler
    text : List ℕ
    handled : idt e ≡ some handler
    said : details {E = E} selector info handler t ≡ ok text
    tells : Tells e t code (banner handler ++ text)

  told :
      (e : Exception) (h : Handler) (text sep : List ℕ)
      → idt e ≡ some h
      → details {E = E} selector info h t ≡ ok text
      → banner h ≡ title e ++ sep
      → All (λ part. Contains part text) (parts e t code)
      → IsTold e
  told e h text sep handled said named has = record {
    handler = h;
    text = text;
    handled = handled;
    said = said;
    tells = record {
      name = (sep ++ text, ap (λ (l : List ℕ). l ++ text) named ∙ append_assoc (title e) sep text);
      all = All-Contains (parts e t code) (banner h) text has;
    };
  }

  exception-IsTold :
      (e : Exception) → e ≢ machine_check → selector t.error_code ≡ some code → IsTold e
  unfolding idt
  exception-IsTold divide_error ne s =
      told divide_error division_error_handler _ colon refl refl refl (framed t)
  exception-IsTold debug ne s = told debug debug_handler _ colon refl refl refl (framed t)
  exception-IsTold non_maskable_interrupt ne s =
      told non_maskable_interrupt nmi_handler _ colon refl refl refl (framed t)
  exception-IsTold breakpoint ne s =
      told breakpoint breakpoint_handler _ colon refl refl refl (framed t)
  exception-IsTold overflow ne s = told overflow overflow_handler _ colon refl refl refl (framed t)
  exception-IsTold bound_range_exceeded ne s =
      told bound_range_exceeded bound_range_exceeded_handler _ colon refl refl refl (framed t)
  exception-IsTold invalid_opcode ne s =
      told invalid_opcode invalid_opcode_handler _ colon refl refl refl (framed t)
  exception-IsTold device_not_available ne s =
      told device_not_available device_not_available_handler _ colon refl refl refl (framed t)
  exception-IsTold double_fault ne s =
      told double_fault double_fault_handler _ colon refl refl refl (framed t)
  exception-IsTold invalid_tss ne s =
      told invalid_tss invalid_tss_handler (t.stack_frame ++ gap ++ code) colon refl (rw s refl)
        refl (coded t gap code)
  exception-IsTold segment_not_present ne s =
      told segment_not_present segment_not_present_handler (t.stack_frame ++ gap ++ code) colon refl
        (rw s refl) refl (coded t gap code)
  exception-IsTold stack_segment_fault ne s =
      told stack_segment_fault stack_segment_fault_handler (t.stack_frame ++ gap ++ code) colon refl
        (rw s refl) refl (coded t gap code)
  exception-IsTold general_protection_fault ne s =
      told general_protection_fault general_protection_fault_handler
        (t.stack_frame ++ (10 ∷ []) ++ code) colon refl (rw s refl) refl (coded t (10 ∷ []) code)
  exception-IsTold page_fault ne s =
      told page_fault page_fault_handler _
        (32 ∷ 10 ∷ 65 ∷ 99 ∷ 99 ∷ 101 ∷ 115 ∷ 115 ∷ 101 ∷ 100 ∷ 32 ∷ 65 ∷ 100 ∷ 100 ∷ 114 ∷ 101
          ∷ 115 ∷ 115 ∷ 58 ∷ 32 ∷ [])
        refl refl refl (page_parts t)
  exception-IsTold x87_floating_point ne s =
      told x87_floating_point x87_floating_point_exception_handler _ colon refl refl refl (framed t)
  exception-IsTold alignment_check ne s =
      told alignment_check alignment_check_handler _ colon refl refl refl
        (coded t code_line t.decimal_code)
  exception-IsTold machine_check ne s = absurd (ne refl)
  exception-IsTold simd_floating_point ne s =
      told simd_floating_point simd_floating_point_exception_handler _ colon refl refl refl
        (framed t)
  exception-IsTold virtualization ne s =
      told virtualization virtualization_exception_handler _ colon refl refl refl (framed t)
  exception-IsTold cp_protection_exception ne s =
      told cp_protection_exception control_protection_exception_handler _ colon refl refl refl
        (coded t code_line t.decimal_code)
  exception-IsTold hv_injection_exception ne s =
      told hv_injection_exception hypervisor_injection_exception_handler _ colon refl refl refl
        (framed t)
  exception-IsTold vmm_communication_exception ne s =
      told vmm_communication_exception vmm_communication_exception_handler _ colon refl refl refl
        (coded t code_line t.decimal_code)
  exception-IsTold security_exception ne s =
      told security_exception security_exception_handler _ colon refl refl refl
        (coded t code_line t.decimal_code)

module _ {E : Type 0} (selector : ℕ → Option (List ℕ)) (info : Handler → List ℕ → List ℕ) where
  raise-handler :
      (e : Exception) (h : Handler) (t : Trap) (c c' : Console) (text : List ℕ)
      → idt e ≡ some h
      → details {E = E} selector info h t ≡ ok text
      → panic_handler {E = E} (info h (banner h ++ text)) c ≡ ok c'
      → raise {E = E} selector info e t c ≡ ok (some c')
  unfolding raise
  raise-handler e h t c c' text handled said printed = rw (handled, said, printed) refl

module _ (width height : ℕ) (small : height * width < word) (narrow : width < word)
    (low : height < word) (E : Type 0) where
  -- The message of the exception is the last line on the serial port.
  pub data Announces (info : Handler → List ℕ → List ℕ) (e : Exception) (t : Trap) (code : List ℕ)
      (c : Console) (r : Outcome E (Option Console)) : Type 0 where
    announced :
        (h : Handler) (text : List ℕ) (c' : Console)
        → Tells e t code text
        → r ≡ ok (some c')
        → c'.serial ≡ info h text ∷ c.serial
        → IsConsole width height small narrow low E c'
        → Announces info e t code c r

  module _ (selector : ℕ → Option (List ℕ)) (info : Handler → List ℕ → List ℕ) where
    -- In every state that the log writer reaches, an exception other than a machine check, with an
    -- error code that `SelectorErrorCode::new` accepts, runs its handler to the end of the panic
    -- handler. The last line on the serial port is then a panic message whose text starts with the
    -- name of that exception and contains the stack frame, for an invalid TSS, a segment that is
    -- not present, a stack-segment and a general protection fault the selector, for an alignment
    -- check and the control protection, VMM and security exceptions the error code, and for a page
    -- fault its code and the accessed address. The log writer, if there is one, is still on its
    -- screen.
    pub raise-Announces :
        (e : Exception) (t : Trap) (code : List ℕ) (c : Console)
        → e ≢ machine_check
        → selector t.error_code ≡ some code
        → Reaches width height small narrow low E c
        → Announces info e t code c (raise selector info e t c)
    raise-Announces e t code c other coded reached =
        let s = exception-IsTold E selector info t code e other coded in
        go s (
          panic_handler-Reports width height small narrow low E
            (info s.handler (banner s.handler ++ s.text)) c reached)
      where
        go :
            (s : IsTold E selector info t code e)
            → Reports width height small narrow low E
                (info s.handler (banner s.handler ++ s.text))
                c
                (panic_handler (info s.handler (banner s.handler ++ s.text)) c)
            → Announces info e t code c (raise selector info e t c)
        go s (reported c' printed last sound) =
            announced s.handler (banner s.handler ++ s.text) c' s.tells
              (raise-handler selector info e s.handler t c c' s.text s.handled s.said printed) last
              sound
