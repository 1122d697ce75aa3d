-- ===== src/Trap.antt =====
-- `interrupt_handler` of arch/x86/interrupt.c and the register frame that interrupt_asm.s keeps
-- around it.
use lbos.Base.{ℕ, Option, none, some, List}
use lbos.Interrupt.{
  Handler, page_fault_handler, syscall_interrupt_handler, pit_handler,
  general_protection_fault_handler, handler_at, register_interrupt_handler,
}
use lbos.Process.Data.{CpuState}
use lbos.Process.Create.{Layout}
use lbos.Kernel.{Kernel, Outcome, returned, halted}
use lbos.Syscall.Table.{handle_syscall}
use lbos.Devices.Pic.{pic_init}
use lbos.Devices.Pit.{handle_tick, pit_init}
use lbos.Descriptors.{IdtGate, idt_init}
use lbos.Fault.{handle_page_fault}

-- What comes with an interrupt: its index, its error code, and the address in CR2.
pub record Info : Type 0 where
  pub idt_index : ℕ
  pub error_code : ℕ
  pub faulting_address : ℕ

abbrev pub interrupt_general_protection_fault : ℕ
interrupt_general_protection_fault = 13

-- A call through the table. Structures are passed by value, so a handler works on a copy of the
-- registers, and the copy is dropped.
unfoldable pub run_handler : Layout → Handler → CpuState → Info → Kernel → Outcome × Kernel
unfolding handle_syscall handle_tick handle_page_fault
run_handler layout page_fault_handler state info k =
    handle_page_fault info.faulting_address info.error_code k
run_handler layout syscall_interrupt_handler state info k = (handle_syscall layout state k).1
run_handler layout pit_handler state info k = handle_tick layout k
run_handler layout general_protection_fault_handler state info k = (halted, k)

-- Both arms of the test for the system call index make the same call or only log.
unfoldable pub interrupt_handler : Layout → CpuState → Info → Kernel → Outcome × Kernel
unfolding run_handler
interrupt_handler layout state info k = elim (handler_at k.handlers info.idt_index) [
  | none ↦ (returned 0, k)
  | some h ↦ run_handler layout h state info k
]

-- The registers with which the interrupted code goes on: those that were pushed, popped again.
unfoldable pub common_interrupt_handler :
    Layout → CpuState → Info → Kernel → CpuState × (Outcome × Kernel)
unfolding interrupt_handler
common_interrupt_handler layout state info k = (state, interrupt_handler layout state info k)

-- With the entry points of interrupt_asm.s; `none` is a division by zero in `pit_init`.
unfoldable pub interrupt_init :
    (entry_of : ℕ → ℕ) → Kernel × List IdtGate → Option (Kernel × List IdtGate)
unfolding pic_init idt_init pit_init register_interrupt_handler
interrupt_init entry_of (k, idt) = elim (pit_init (pic_init k)) [
  | none ↦ none
  | some k' ↦
      let (failed, handlers') =
        register_interrupt_handler k'.handlers interrupt_general_protection_fault
          general_protection_fault_handler in
      some (record k' { handlers = handlers' }, idt_init entry_of idt)
]
