-- ===== src/Process/Schedule.antt =====
-- `schedule` and `switch_to_process` (mem/switch_asm.s): where control goes.
use lbos.Base.{ℕ, ◌+◌, ◌-◌, ◌%◌, ◌==◌, Option, none, some, if◌then◌else◌}
use lbos.Memory.{load32}
use lbos.Process.Data.{
  ProcessState, CpuState, StackState, Process, Processes, process_kernel_stack_size, process_at,
  set_state,
}
use lbos.Process.Create.{Layout, kstack_at}

-- `p->next_in_ready_queue` of a table entry.
abbrev pub next_of : Processes → ℕ → Option ℕ
next_of s i = (process_at s i).next_in_ready_queue

-- The process at the head of the queue leaves it and becomes the current one.
unfoldable pub dispatch : Processes → ℕ → Processes
unfolding set_state
dispatch s i =
    set_state (record s { current_process = some i; ready_queue_head = next_of s i }) i
      ProcessState.running

-- `some i`: control has gone to process `i`, and `schedule` does not return to its caller. The
-- number beside the processes is the kernel stack in the TSS.
unfoldable pub schedule : Layout → Processes × ℕ → Option ℕ × (Processes × ℕ)
schedule layout (s, esp0) = elim s.ready_queue_head [
  | none ↦ (none, (s, esp0))
  | some i ↦ (some i, (dispatch s i, kstack_at layout i + process_kernel_stack_size))
]

-- What a process goes on with.
pub record Entry : Type 0 where
  pub cr3 : ℕ
  pub reg : CpuState
  pub stack : StackState

-- What `iret` takes from the kernel stack of process `i`, with the stack pointer saved in its context: three
-- words, and two more if they lead to user mode; otherwise the stack pointer moves on and SS stays.
abbrev pub iret_frame : Layout → (ss i : ℕ) → Process → StackState
iret_frame layout ss i p =
    let esp = p.context.reg.esp in
    let at = esp - kstack_at layout i in
    let cs = load32 p.kstack (at + 4) in
    let to_user = cs % 4 == 3 in
    record {
      eip = load32 p.kstack at;
      cs = cs;
      eflags = load32 p.kstack (at + 8);
      esp = if to_user then load32 p.kstack (at + 12) else esp + 12;
      ss = if to_user then load32 p.kstack (at + 16) else ss;
    }

-- With `ss` in the stack segment register; `next` is the process at index `i`.
unfoldable pub switch_to_process : Layout → (ss : ℕ) → Processes → ℕ → Entry
unfolding load32
switch_to_process layout ss s i =
    let next = process_at s i in
    record { cr3 = next.context.cr3; reg = next.context.reg; stack = iret_frame layout ss i next }
