-- ===== src/Kernel.antt =====
-- The state that the interrupt handlers share, and how a handler ends.
use lbos.Base.{ℕ, ◌-◌, ◌^◌, Option, none, some, List, [], ◌∷◌, ◌++◌, get_elem?}
use lbos.Frames.{Mem}
use lbos.Interrupt.{Handlers}
use lbos.Process.Data.{Process, Processes}

-- The functions that `syscall_init` registers.
pub data Syscall : Type 0 where
  sys_printf sys_fork sys_exit sys_wait : Syscall

pub record Kernel : Type 0 where
  pub processes : Processes
  pub mem : Mem
  -- `tss.esp0`
  pub esp0 : ℕ
  pub handlers : Handlers
  pub syscall_handlers : List (Option Syscall)
  -- Stores through user pointers, and bytes written to ports, in order.
  pub user_stores : List (ℕ × ℕ)
  pub ports : List (ℕ × ℕ)

-- A handler returns with a value, never returns since control went to a process, or stops the
-- machine in its `hlt` loop.
pub data Outcome : Type 0 where
  returned : ℕ → Outcome
  switched : ℕ → Outcome
  halted : Outcome

abbrev pub current : Kernel → Option Process
current k = elim k.processes.current_process [
  | none ↦ none
  | some i ↦ get_elem? k.processes.process_table i
]

-- -1 as a `uint32_t`.
abbrev pub minus_one : ℕ
minus_one = 2 ^ 32 - 1

-- The calls that fail with -1 where there is no current process.
abbrev pub on_current : Kernel → (ℕ → Outcome × Kernel) → Option ℕ → Outcome × Kernel
on_current k call none = (returned minus_one, k)
on_current k call (some c) = call c

-- `outb`
abbrev pub outb : ℕ → ℕ → Kernel → Kernel
outb port value k = record k { ports = k.ports ++ (port, value) ∷ [] }
