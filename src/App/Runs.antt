-- ===== src/App/Runs.antt =====
-- The program of app/main.c on the kernel.
use lbos.Base.{ℕ, Option, none, ◌==◌, if_both, leb, false, ◌≡◌, refl, ap, ◌∙◌, some}
use lbos.Interrupt.{syscall_interrupt_handler, handler_at}
use lbos.Process.Data.{CpuState, Processes, allocate_pcb_and_pid}
use lbos.Process.Create.{Layout}
use lbos.Kernel.{Kernel, Outcome, minus_one, on_current, returned, switched, halted}
use lbos.Kernel
use lbos.Syscall.Calls
use lbos.Syscall.Fork
use lbos.Syscall.Table.{max_syscalls, syscall_at, handle_syscall, run_syscall}
use lbos.Trap.{common_interrupt_handler, interrupt_handler, run_handler}
use lbos.App
use lbos.App.{
  ◌>>=◌, Ran, value, away, spins, Program, trap, sys_printf, sys_fork, sys_exit, sys_wait, syscall,
  main,
}

-- The tables as `syscall_init` leaves them.
pub record Serves (k : Kernel) : Type 0 where
  pub dispatch : handler_at k.handlers 0x80 ≡ some syscall_interrupt_handler
  pub printf : syscall_at k.syscall_handlers sys_printf ≡ some Kernel.Syscall.sys_printf
  pub fork : syscall_at k.syscall_handlers sys_fork ≡ some Kernel.Syscall.sys_fork
  pub exit : syscall_at k.syscall_handlers sys_exit ≡ some Kernel.Syscall.sys_exit
  pub wait : syscall_at k.syscall_handlers sys_wait ≡ some Kernel.Syscall.sys_wait

-- A call that returns to the program, and leaves the tables as they are.
record Answers (k : Kernel) (r : Outcome × Kernel) : Type 0 where
  result : ℕ
  returns : r ≡ (returned result, r.1)
  handlers : r.1.handlers ≡ k.handlers
  table : r.1.syscall_handlers ≡ k.syscall_handlers

Answers-Serves : {k : Kernel} {r : Outcome × Kernel} → Answers k r → Serves k → Serves r.1
Answers-Serves a s = record {
  dispatch = rw a.handlers s.dispatch;
  printf = rw a.table s.printf;
  fork = rw a.table s.fork;
  exit = rw a.table s.exit;
  wait = rw a.table s.wait;
}

answers :
    (k k' : Kernel) (n : ℕ)
    → k'.handlers ≡ k.handlers
    → k'.syscall_handlers ≡ k.syscall_handlers
    → Answers k (returned n, k')
answers k k' n h t = record { result = n; returns = refl; handlers = h; table = t }

printf-Answers : (arg : ℕ) (k : Kernel) → Answers k (Calls.printf arg k)
unfolding Calls.printf
printf-Answers arg k =
    if_both (Answers k) (arg == 0) (answers k k minus_one refl refl) (answers k k 1 refl refl)

fork_into-Answers :
    (layout : Layout) (c : ℕ) (k : Kernel) (a : Option (ℕ × ℕ) × Processes)
    → Answers k (Fork.fork_into layout c k a)
unfolding Fork.fork_into
fork_into-Answers layout c k (none, s) = answers k _ minus_one refl refl
fork_into-Answers layout c k (some (i, new_pid), s) =
    if_both (Answers k) _ (answers k _ minus_one refl refl)
      (if_both (Answers k) _ (answers k _ new_pid refl refl) (answers k _ minus_one refl refl))

on_current-Answers :
    (k : Kernel) (call : ℕ → Outcome × Kernel) (o : Option ℕ)
    → ((c : ℕ) → Answers k (call c))
    → Answers k (on_current k call o)
on_current-Answers k call none all = answers k k minus_one refl refl
on_current-Answers k call (some c) all = all c

fork-Answers : (layout : Layout) (k : Kernel) → Answers k (Fork.fork layout k)
unfolding Fork.fork
fork-Answers layout k =
    on_current-Answers k _ k.processes.current_process
      (λ c. fork_into-Answers layout c k (allocate_pcb_and_pid k.processes))

reap_child-Answers :
    (status_ptr : ℕ) (k : Kernel) (o : Option ℕ) → Answers k (Calls.reap_child status_ptr k o)
reap_child-Answers status_ptr k none = answers k k minus_one refl refl
reap_child-Answers status_ptr k (some i) = answers k _ _ refl refl

wait-Answers : (status_ptr : ℕ) (k : Kernel) → Answers k (Calls.wait status_ptr k)
unfolding Calls.wait
wait-Answers status_ptr k =
    on_current-Answers k _ k.processes.current_process (λ c. reap_child-Answers status_ptr k _)

kept : (format : ℕ) (k : Kernel) → (Calls.printf format k).1 ≡ k
unfolding Calls.printf
kept format k = if_both (λ (r : Outcome × Kernel). r.1 ≡ k) (format == 0) refl refl

bind-value :
    {A B : Type 0} (m : App.User A) (f : A → App.User B) (a : A) (k k' : Kernel)
    → m k ≡ value a k'
    → (m >>= f) k ≡ f a k'
bind-value {A} {B} m f a k k' e =
    ap
      (λ (r : Ran A).
        let next : Ran B = elim r [ value b q ↦ f b q | away o q ↦ away o q | spins q ↦ spins q ] in
        next)
      e

module _ (layout : Layout) (regs : CpuState) where
  answered :
      (num arg n : ℕ) (c : Kernel.Syscall) (k k' : Kernel) (state : CpuState)
      → state.eax ≡ num
      → state.ebx ≡ arg
      → leb max_syscalls num ≡ false
      → syscall_at k.syscall_handlers num ≡ some c
      → run_syscall layout c arg k ≡ (returned n, k')
      → (handle_syscall layout state k).1 ≡ (returned 0, k')
  unfolding handle_syscall
  answered num arg n c k k' state in_eax in_ebx low found ran =
      rw (in_eax, low, found)
        (ap
          (λ (q : Outcome × Kernel).
            let r : CpuState × (Outcome × Kernel) = elim q.0 [
              | returned result ↦ (record state { eax = result }, (returned 0, q.1))
              | other ↦ (state, (other, q.1))
            ] in
            r.1)
          (ap (λ (a : ℕ). run_syscall layout c a k) in_ebx ∙ ran))

  -- A call that the kernel answers with any number gives the program the number of the call.
  syscall-value :
      (num arg n : ℕ) (c : Kernel.Syscall) (k k' : Kernel)
      → handler_at k.handlers 0x80 ≡ some syscall_interrupt_handler
      → leb max_syscalls num ≡ false
      → syscall_at k.syscall_handlers num ≡ some c
      → run_syscall layout c arg k ≡ (returned n, k')
      → syscall layout regs num arg 0 0 0 0 k ≡ value num k'
  unfolding syscall common_interrupt_handler interrupt_handler run_handler
  syscall-value num arg n c k k' dispatch low found ran =
      let regs' = record regs { eax = num; ebx = arg; ecx = 0; edx = 0; esi = 0; edi = 0 } in
      let done : interrupt_handler layout regs' trap k ≡ (returned 0, k') =
        rw (dispatch, interrupt_handler)
          (answered num arg n c k k' regs' refl refl low found ran) in
      ap
        (λ (q : Outcome × Kernel).
          let r : Ran ℕ = elim q.0 [
            | returned result ↦ value num q.1
            | switched i ↦ away (switched i) q.1
            | halted ↦ away halted q.1
          ] in
          r)
        done

  printf-value :
      (format : ℕ) (k : Kernel) → Serves k → App.printf layout regs format k ≡ value sys_printf k
  unfolding App.printf
  printf-value format k s =
      let a = printf-Answers format k in
      syscall-value sys_printf format a.result Kernel.Syscall.sys_printf k _ s.dispatch refl
        s.printf a.returns
      ∙ ap (value sys_printf) (kept format k)

  fork-value :
      (k : Kernel) → Serves k → App.fork layout regs k ≡ value sys_fork (Fork.fork layout k).1
  unfolding App.fork
  fork-value k s =
      let a = fork-Answers layout k in
      syscall-value sys_fork 0 a.result Kernel.Syscall.sys_fork k _ s.dispatch refl s.fork a.returns

  wait-value :
      (status : ℕ) (k : Kernel)
      → Serves k
      → App.wait layout regs status k ≡ value sys_wait (Calls.wait status k).1
  unfolding App.wait
  wait-value status k s =
      let a = wait-Answers status k in
      syscall-value sys_wait status a.result Kernel.Syscall.sys_wait k _ s.dispatch refl s.wait
        a.returns

  in_parent-spins :
      (program : Program) (k : Kernel)
      → Serves k
      → App.in_parent layout regs program k ≡ spins (Calls.wait program.status k).1
  unfolding App.in_parent
  in_parent-spins program k s =
      let k' = (Calls.wait program.status k).1 in
      let s' = Answers-Serves (wait-Answers program.status k) s in
      bind-value (App.printf layout regs program.hello_parent) _ sys_printf k k
        (printf-value program.hello_parent k s)
      ∙ bind-value (App.wait layout regs program.status) _ sys_wait k k'
          (wait-value program.status k s)
      ∙ bind-value (App.printf layout regs program.child_exited) _ sys_printf k' k'
          (printf-value program.child_exited k' s')
      ∙ bind-value (App.printf layout regs program.exiting) _ sys_printf k' k'
          (printf-value program.exiting k' s')

  -- When no interrupt and no page fault comes while it runs, the program that the kernel starts makes one fork and
  -- one wait, and then runs in its last loop without end, whatever the kernel answers: the results that it sees are
  -- the numbers of the calls, so it takes itself for the parent, it never sees a failure, and it never exits. The
  -- tables are those that `syscall_init` makes.
  pub main-spins :
      (program : Program) (k : Kernel)
      → Serves k
      → main layout regs program k ≡ spins (Calls.wait program.status (Fork.fork layout k).1).1
  unfolding main
  main-spins program k s =
      let k' = (Fork.fork layout k).1 in
      bind-value (App.printf layout regs program.starting) _ sys_printf k k
        (printf-value program.starting k s)
      ∙ bind-value (App.fork layout regs) _ sys_fork k k' (fork-value k s)
      ∙ in_parent-spins program k' (Answers-Serves (fork-Answers layout k) s)
