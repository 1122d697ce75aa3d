-- ===== src/App.antt =====
-- app: the library of system calls for user programs and the program that the kernel starts. A run of the program
-- has its system calls alone: no timer tick and no page fault comes between its instructions or in a call, although
-- the program runs with interrupts enabled.
pub mod Runs
use lbos.Base.{ℕ, ◌==◌, if◌then◌else◌, not, ltb, ◌&&◌}
use lbos.Process.Data.{CpuState}
use lbos.Process.Create.{Layout}
use lbos.Kernel.{Kernel, Outcome, returned, switched, halted}
use lbos.Trap.{Info, common_interrupt_handler}
use lbos.Serial.{is_negative}

abbrev pub sys_printf : ℕ
sys_printf = 1

abbrev pub sys_fork : ℕ
sys_fork = 2

abbrev pub sys_exit : ℕ
sys_exit = 3

abbrev pub sys_wait : ℕ
sys_wait = 4

-- How a stretch of a user program ends: with a value, with control elsewhere for good, or in a loop without end.
pub data Ran {ℓ} (A : Type ℓ) : Type ℓ where
  value : A → Kernel → Ran A
  away : Outcome → Kernel → Ran A
  spins : Kernel → Ran A

abbrev pub User : Type 0 → Type 0
User A = Kernel → Ran A

infixl 5 ◌>>=◌ ◌>>◌
abbrev pub ◌>>=◌ : {A B : Type 0} → User A → (A → User B) → User B
◌>>=◌ m f k = elim (m k) [ value a k' ↦ f a k' | away o k' ↦ away o k' | spins k' ↦ spins k' ]

abbrev pub ◌>>◌ : {A B : Type 0} → User A → User B → User B
m >> next = m >>= λ _. next

-- `while(1) {}`
abbrev pub forever : {A : Type 0} → User A
forever k = spins k

-- The addresses of the program's literals and of its variable `status`.
pub record Program : Type 0 where
  pub starting : ℕ
  pub fork_failed : ℕ
  pub hello_child : ℕ
  pub hello_parent : ℕ
  pub child_exited : ℕ
  pub wait_failed : ℕ
  pub exiting : ℕ
  pub status : ℕ

-- `int $0x80`
abbrev pub trap : Info
trap = record { idt_index = 0x80; error_code = 0; faulting_address = 0 }

-- `regs` are the registers before a call.
module _ (layout : Layout) (regs : CpuState) where
  -- The registers with which the instruction behind `int` goes on give the result.
  unfoldable pub syscall : (num arg1 arg2 arg3 arg4 arg5 : ℕ) → User ℕ
  unfolding common_interrupt_handler
  syscall num arg1 arg2 arg3 arg4 arg5 k =
      let before = record regs {
        eax = num;
        ebx = arg1;
        ecx = arg2;
        edx = arg3;
        esi = arg4;
        edi = arg5;
      } in
      let (after, (outcome, k')) = common_interrupt_handler layout before trap k in
      elim outcome [
        | returned n ↦ value after.eax k'
        | switched i ↦ away (switched i) k'
        | halted ↦ away halted k'
      ]

  unfoldable pub printf : ℕ → User ℕ
  unfolding syscall
  printf format = syscall sys_printf format 0 0 0 0

  unfoldable pub fork : User ℕ
  unfolding syscall
  fork = syscall sys_fork 0 0 0 0 0

  unfoldable pub exit : ℕ → User (Unit {0})
  unfolding syscall
  exit status = do syscall sys_exit status 0 0 0 0; λ k. value tt k

  unfoldable pub wait : ℕ → User ℕ
  unfolding syscall
  wait status = syscall sys_wait status 0 0 0 0

  -- The branches of `main`.
  unfoldable pub in_child : Program → User ℕ
  unfolding printf exit
  in_child program = do printf program.hello_child; exit 42; printf program.exiting; forever

  unfoldable pub in_parent : Program → User ℕ
  unfolding printf wait
  in_parent program = do
    printf program.hello_parent
    child_pid ← wait program.status
    if ltb 0 child_pid && not (is_negative child_pid)
        then printf program.child_exited
        else printf program.wait_failed
    printf program.exiting
    forever

  unfoldable pub main : Program → User ℕ
  unfolding in_child in_parent printf fork
  main program = do
    printf program.starting
    pid ← fork
    if is_negative pid
        then (do printf program.fork_failed; printf program.exiting; forever)
        else if pid == 0
        then in_child program
        else in_parent program

  -- `_start`: `jmp $` behind the call.
  unfoldable pub start : Program → User ℕ
  unfolding main
  start program = do main program; forever
