-- ===== src/Syscall/Calls.antt =====
-- `sys_printf`, `sys_exit` and `sys_wait`.
use lbos.Base.{ℕ, Option, none, some, [], ◌∷◌, ◌++◌, ◌==◌, if◌then◌else◌}
use lbos.Process.Data.{
  ProcessState, Process, Processes, process_at, update, set_state, get_zombie_process_for_parent,
}
use lbos.Process.Create.{Layout}
use lbos.Process.Schedule.{schedule}
use lbos.Kernel.{Kernel, Outcome, returned, switched, minus_one, on_current}

-- The text goes to the log.
unfoldable pub printf : ℕ → Kernel → Outcome × Kernel
printf fmt_ptr k = if fmt_ptr == 0 then (returned minus_one, k) else (returned 1, k)

abbrev pub with_eax : ℕ → Process → Process
with_eax eax' p = record p {
  context = record (p.context) { reg = record (p.context.reg) { eax = eax' } };
}

-- What follows a call of `schedule`, if control comes back from it.
abbrev pub after_schedule :
    (Kernel → Outcome × Kernel) → Kernel → Option ℕ × (Processes × ℕ) → Outcome × Kernel
after_schedule resume k (none, (s, esp0)) = resume (record k { processes = s; esp0 = esp0 })
after_schedule resume k (some i, (s, esp0)) = (switched i, record k { processes = s; esp0 = esp0 })

abbrev pub schedule_then : Layout → (Kernel → Outcome × Kernel) → Kernel → Outcome × Kernel
schedule_then layout resume k = after_schedule resume k (schedule layout (k.processes, k.esp0))

-- The kernel when `sys_exit` of the current process `c` calls `schedule`.
unfoldable pub ended : ℕ → Kernel → ℕ → Kernel
unfolding set_state
ended status k c =
    let s = k.processes in
    let named = record s { process_table = update s.process_table c (with_eax status) } in
    record k { processes = set_state named c ProcessState.terminated }

unfoldable pub exit_process : Layout → ℕ → Kernel → ℕ → Outcome × Kernel
unfolding schedule ended
exit_process layout status k c = schedule_then layout (λ k'. (returned 0, k')) (ended status k c)

unfoldable pub exit : Layout → ℕ → Kernel → Outcome × Kernel
unfolding exit_process
exit layout status k = on_current k (exit_process layout status k) k.processes.current_process

-- The child's slot is given back before its pid is read for the result.
abbrev pub reap : Processes → ℕ → Processes
reap s i = record s {
  process_table =
      update s.process_table i
        (λ p. record p { state = ProcessState.free; pid = 0; parent_pid = 0 });
}

-- `sys_wait` once the table has been searched for a terminated child.
abbrev pub reap_child : ℕ → Kernel → Option ℕ → Outcome × Kernel
reap_child status_ptr k none = (returned minus_one, k)
reap_child status_ptr k (some i) =
    let exit_status = (process_at k.processes i).context.reg.eax in
    let stores =
      if status_ptr == 0 then k.user_stores else k.user_stores ++ (status_ptr, exit_status) ∷ [] in
    let s = reap k.processes i in
    (returned (process_at s i).pid, record k { processes = s; user_stores = stores })

unfoldable pub wait : ℕ → Kernel → Outcome × Kernel
unfolding get_zombie_process_for_parent
wait status_ptr k =
    on_current k
      (λ c.
        reap_child status_ptr k
          (get_zombie_process_for_parent k.processes (process_at k.processes c).pid))
      k.processes.current_process
