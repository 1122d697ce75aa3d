-- ===== src/Steps.antt =====
-- The kernel as a transition system: what can happen between two instructions of user code. A step is a whole
-- handler, which no other one interrupts. In the kernel the gates leave interrupts enabled, so a tick can come while a
-- system call is at work; such runs are not among these.
-- Nor are those in which `sys_wait` stores an exit status into the process table.
pub mod Lost
pub mod Preempted
pub mod Ready
use lbos.Base.{ℕ, ◌≡◌, ◌≢◌, Option, some, get_elem?}
use lbos.Process.Data.{Process, ready}
use lbos.Process.Create.{Layout, create_process, create_kernel_process}
use lbos.Kernel.{Kernel, Outcome, returned}
use lbos.Syscall.Calls
use lbos.Syscall.Fork
use lbos.Devices.Pit.{handle_tick}
use lbos.Fault.{handle_page_fault}

abbrev pub spawn_user : Layout → ℕ → ℕ → Kernel → Kernel
spawn_user layout data_at size k =
    let (made, (s, m)) = create_process layout data_at size (k.processes, k.mem) in
    record k { processes = s; mem = m }

abbrev pub spawn_kernel : Layout → ℕ → Kernel → Kernel
spawn_kernel layout entry k =
    let (made, (s, m)) = create_kernel_process layout entry (k.processes, k.mem) in
    record k { processes = s; mem = m }

-- One step from `k`, with how it ends. The process that calls `exit` is not marked ready: `sys_exit` does not look at
-- its state, and would leave a ready one in the queue.
pub data Step (layout : Layout) (k : Kernel) (r : Outcome × Kernel) : Type 0 where
  user_process :
      (data_at size : ℕ) → r ≡ (returned 0, spawn_user layout data_at size k) → Step layout k r
  kernel_process : (entry : ℕ) → r ≡ (returned 0, spawn_kernel layout entry k) → Step layout k r
  print : (fmt_ptr : ℕ) → r ≡ Calls.printf fmt_ptr k → Step layout k r
  fork : r ≡ Fork.fork layout k → Step layout k r
  exit :
      (status c : ℕ) (p : Process)
      → k.processes.current_process ≡ some c
      → get_elem? k.processes.process_table c ≡ some p
      → p.state ≢ ready
      → r ≡ Calls.exit layout status k
      → Step layout k r
  wait : (status_ptr : ℕ) → r ≡ Calls.wait status_ptr k → Step layout k r
  tick : r ≡ handle_tick layout k → Step layout k r
  page_fault :
      (faulting_address error_code : ℕ)
      → r ≡ handle_page_fault faulting_address error_code k
      → Step layout k r

-- Any number of steps, with the last state.
pub data Reach (layout : Layout) (k : Kernel) : Kernel → Type 0 where
  here : Reach layout k k
  next :
      {k' : Kernel} {o : Outcome} {k'' : Kernel}
      → Reach layout k k'
      → Step layout k' (o, k'')
      → Reach layout k k''
