-- ===== src/Syscall/Table.antt =====
-- The table of system calls and the handler of their interrupt.
use lbos.Base.{ℕ, Option, none, some, List, ltb, leb, if◌then◌else◌, get_elem?, set}
use lbos.Interrupt.{syscall_interrupt_handler, register_interrupt_handler}
use lbos.Process.Data.{CpuState}
use lbos.Process.Create.{Layout}
use lbos.Kernel.{
  Syscall, sys_printf, sys_fork, sys_exit, sys_wait, Kernel, Outcome, returned, minus_one,
}
use lbos.Syscall.Fork.{fork}
use lbos.Syscall.Calls.{printf, exit, wait}

abbrev pub max_syscalls : ℕ
max_syscalls = 32

abbrev pub syscall_int_idx : ℕ
syscall_int_idx = 0x80

unfoldable pub register_syscall : ℕ → Syscall → Kernel → Kernel
register_syscall num handler k =
    if ltb num max_syscalls
    then record k { syscall_handlers = set k.syscall_handlers num (some handler) }
    else k

unfoldable pub syscall_init : Kernel → Kernel
unfolding register_syscall register_interrupt_handler
syscall_init k =
    let k0 = record k {
      handlers =
          (register_interrupt_handler k.handlers syscall_int_idx syscall_interrupt_handler).1;
    } in
    register_syscall 4 sys_wait
      (register_syscall 3 sys_exit (register_syscall 2 sys_fork (register_syscall 1 sys_printf k0)))

-- A call through the table.
unfoldable pub run_syscall : Layout → Syscall → ℕ → Kernel → Outcome × Kernel
unfolding printf exit wait
run_syscall layout sys_printf arg1 k = printf arg1 k
run_syscall layout sys_fork arg1 k = fork layout k
run_syscall layout sys_exit arg1 k = exit layout arg1 k
run_syscall layout sys_wait arg1 k = wait arg1 k

abbrev pub syscall_at : List (Option Syscall) → ℕ → Option Syscall
syscall_at t i = elim (get_elem? t i) [ none ↦ none | some c ↦ c ]

-- The handler's own copy of the registers, as it stands when the handler returns.
unfoldable pub handle_syscall : Layout → CpuState → Kernel → CpuState × (Outcome × Kernel)
unfolding run_syscall
handle_syscall layout state k =
    let invalid : CpuState × (Outcome × Kernel) =
      (record state { eax = minus_one }, (returned 0, k)) in
    let found : Option Syscall = syscall_at k.syscall_handlers state.eax in
    if leb max_syscalls state.eax then invalid else elim found [
      | none ↦ invalid
      | some c ↦
          let (outcome, k') = run_syscall layout c state.ebx k in
          elim outcome [
            | returned result ↦ (record state { eax = result }, (returned 0, k'))
            | other ↦ (state, (other, k'))
          ]
    ]
