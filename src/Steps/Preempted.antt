-- ===== src/Steps/Preempted.antt =====
-- What a step of the kernel does to a process that was preempted.
use lbos.Base.{
  ℕ, ◌≡◌, ◌≢◌, refl, sym, ap, ◌∙◌, ◌&&◌, Option, none, some, List, ◌∷◌, get_elem?, Option-cases,
  inl, inr, if_both, ◌==◌,
}
use mathlib.Core.Path.{subst}
use lbos.Process.Data.{
  ready, free, running, terminated, is_terminated, process_at, get_zombie_process_for_parent,
  Process, Processes, set_state,
}
use lbos.Process.Create.{Layout}
use lbos.Process.Schedule.{dispatch}
use lbos.Process.Queue.{IsQueue, dispatch-IsQueue, queue-head, schedule-some}
use lbos.Process.Slot.{terminated_of_child, state_of_some}
use lbos.Process.Make.{create_process-Makes, create_kernel_process-Makes}
use lbos.Kernel.{Kernel, Outcome, returned, switched, current, minus_one, on_current}
use lbos.Syscall.Calls.{schedule_then, after_schedule}
use lbos.Process.Table.{IsFirst, search_table-some, get-update_self, get-update_ne}
use mathlib.Core.Option.{some-injective}
use lbos.Syscall.Calls
use lbos.Syscall.Family.{fork-Forks}
use lbos.Devices.Pic.{pic_acknowledge}
use lbos.Devices.Pit.{handle_tick}
use lbos.Fault.{fault_of, handle_page_fault}
use lbos.Steps.{
  Step, user_process, kernel_process, print, fork, exit, wait, tick, page_fault, Reach, here, next,
}
use lbos.Base.{leb, not, bit_and}
use lbos.Paging.{kernel_virtual_start}
use lbos.Fault.{demand_page}
use lbos.Steps.Lost.{
  IsLost, StillLost, free-ne-ready, terminated-ne-running, returned-ne-switched, halted-ne-switched,
  terminated-ne-ready, ready-ne-running, schedule-StillLost, same-StillLost, mem-StillLost,
  Makes-StillLost, update-StillLost,
}

module _ (layout : Layout) (i : ℕ) where
  exit-StillLost :
      (status c : ℕ) (p : Process) (k : Kernel) (l : List ℕ)
      → IsQueue k.processes l
      → IsLost k.processes i
      → k.processes.current_process ≡ some c
      → get_elem? k.processes.process_table c ≡ some p
      → p.state ≢ ready
      → StillLost i (Calls.exit layout status k)
  unfolding Calls.exit Calls.exit_process Calls.ended set_state
  exit-StillLost status c p k l v x now at busy =
      let apart : c ≢ i = λ e. x.not_current (now ∙ ap some e) in
      let (v1, x1) =
        update-StillLost layout i c p (Calls.with_eax status) v x at busy
          (λ q at' e. busy (state_of_some (sym at ∙ at') ∙ e)) apart in
      let (v2, x2) =
        update-StillLost layout i c (Calls.with_eax status p) (λ q. record q { state = terminated })
          v1 x1 (get-update_self k.processes.process_table c _ at) busy
          (λ q here e. terminated-ne-ready e) apart in
      subst (λ (o : Option ℕ). StillLost i (on_current k (Calls.exit_process layout status k) o))
        (sym now)
        (schedule-StillLost layout i (λ k'. (returned 0, k')) (λ q. returned-ne-switched)
          (λ q. refl) (Calls.ended status k c) l v2 x2)

  wait-StillLost :
      (status_ptr : ℕ) (k : Kernel) (l : List ℕ)
      → IsQueue k.processes l
      → IsLost k.processes i
      → StillLost i (Calls.wait status_ptr k)
  unfolding Calls.wait
  wait-StillLost status_ptr k l v x = elim (Option-cases k.processes.current_process) [
    | inl gone ↦ subst (λ (o : Option ℕ). StillLost i (on_current k call o)) (sym gone) same
    | inr (c, now) ↦
        subst (λ (o : Option ℕ). StillLost i (on_current k call o)) (sym now)
          (elim (Option-cases (zombie_of c)) [
            | inl childless ↦
                subst (λ (o : Option ℕ). StillLost i (Calls.reap_child status_ptr k o))
                  (sym childless) same
            | inr (j, found) ↦
                subst (λ (o : Option ℕ). StillLost i (Calls.reap_child status_ptr k o)) (sym found)
                  (reaped j _ (search_table-some _ k.processes.process_table j found))
          ])
  ]
    where
      zombie_of : ℕ → Option ℕ
      zombie_of c = get_zombie_process_for_parent k.processes (process_at k.processes c).pid

      call : ℕ → Outcome × Kernel
      call c = Calls.reap_child status_ptr k (zombie_of c)

      same : StillLost i (returned minus_one, k)
      same = same-StillLost layout i v x refl returned-ne-switched

      reaped :
          (j pid : ℕ)
          → IsFirst (λ p. is_terminated p.state && p.parent_pid == pid) k.processes.process_table j
          → StillLost i (Calls.reap_child status_ptr k (some j))
      reaped j pid f =
          let ended = terminated_of_child f.entry _ f.passes in
          let (v1, x1) =
            update-StillLost layout i j f.entry
              (λ p. record p { state = free; pid = 0; parent_pid = 0 }) v x f.at
              (λ e. terminated-ne-ready (sym ended ∙ e)) (λ q at e. free-ne-ready e)
              (λ e. terminated-ne-running (
                sym ended
                ∙ state_of_some (sym f.at ∙ ap (get_elem? k.processes.process_table) e ∙ x.at)
                ∙ x.is)) in
          record { members = l; queue = v1; lost = x1; not_run = returned-ne-switched }

  fault-StillLost :
      (addr code : ℕ) (k : Kernel) (l : List ℕ) (o : Option Process)
      → IsQueue k.processes l
      → IsLost k.processes i
      → StillLost i (fault_of addr code k o)
  fault-StillLost addr code k l none v x = mem-StillLost layout i k k.mem v x halted-ne-switched
  fault-StillLost addr code k l (some p) v x =
      if_both (StillLost i) (leb kernel_virtual_start addr)
        (mem-StillLost layout i k k.mem v x halted-ne-switched)
        (if_both (StillLost i) (not (bit_and code 0x1 == 0))
          (mem-StillLost layout i k k.mem v x halted-ne-switched)
          (if_both (StillLost i) (demand_page p.context.cr3 addr code k.mem).0
            (mem-StillLost layout i k (demand_page p.context.cr3 addr code k.mem).1 v x
              returned-ne-switched)
            (mem-StillLost layout i k (demand_page p.context.cr3 addr code k.mem).1 v x
              halted-ne-switched)))

  -- No step of the kernel runs a process that is marked running and is not the current one, and the
  -- process stays so: neither an interrupt nor a system call puts it back into the ready queue.
  pub Step-StillLost :
      {k : Kernel} {r : Outcome × Kernel} (l : List ℕ)
      → IsQueue k.processes l
      → IsLost k.processes i
      → Step layout k r
      → StillLost i r
  unfolding Calls.printf handle_tick handle_page_fault
  Step-StillLost {k} l v x (user_process data_at size e) = rw e (
      Makes-StillLost layout i (create_process-Makes layout k.mem v data_at size) x
        returned-ne-switched)
  Step-StillLost {k} l v x (kernel_process entry e) = rw e (
      Makes-StillLost layout i (create_kernel_process-Makes layout k.mem v entry) x
        returned-ne-switched)
  Step-StillLost {k} l v x (print fmt_ptr e) = rw e (
      if_both (StillLost i) (fmt_ptr == 0) (same-StillLost layout i v x refl returned-ne-switched)
        (same-StillLost layout i v x refl returned-ne-switched))
  Step-StillLost {k} l v x (fork e) =
      let g = fork-Forks layout k v in
      rw e (Makes-StillLost layout i g.makes x (rw g.returns returned-ne-switched))
  Step-StillLost {k} l v x (exit status c p now at is e) =
      rw e (exit-StillLost status c p k l v x now at is)
  Step-StillLost {k} l v x (wait status_ptr e) = rw e (wait-StillLost status_ptr k l v x)
  Step-StillLost {k} l v x (tick e) = rw e (
      schedule-StillLost layout i (λ q. (returned 0, pic_acknowledge q)) (λ q. returned-ne-switched)
        (λ q. unfold pic_acknowledge in refl) k l v x)
  Step-StillLost {k} l v x (page_fault addr code e) =
      rw e (fault-StillLost addr code k l (current k) v x)

  -- Whatever the kernel does from there on, process `i` stays out of the queue and is not current.
  pub Reach-IsLost :
      {k k' : Kernel} (l : List ℕ)
      → IsQueue k.processes l
      → IsLost k.processes i
      → Reach layout k k'
      → (members : List ℕ) × IsQueue k'.processes members × IsLost k'.processes i
  Reach-IsLost l v x here = (l, v, x)
  Reach-IsLost l v x (next path step) =
      let (l1, v1, x1) = Reach-IsLost l v x path in
      let r = Step-StillLost l1 v1 x1 step in (r.members, r.queue, r.lost)

  -- A tick while `i` runs and the ready queue is not empty leaves the processor to the head of the queue.
  tick-IsLost :
      (k : Kernel) {h : ℕ} {l : List ℕ} {p : Process}
      → IsQueue k.processes (h ∷ l)
      → get_elem? k.processes.process_table i ≡ some p
      → p.state ≡ running
      → IsQueue (handle_tick layout k).1.processes l × IsLost (handle_tick layout k).1.processes i
  unfolding handle_tick dispatch
  tick-IsLost k {h} {l} {p} v at is =
      let (first, q, at', is') = queue-head v in
      let apart : h ≢ i = λ e. ready-ne-running (
        sym is' ∙ state_of_some (sym at' ∙ ap (get_elem? k.processes.process_table) e ∙ at) ∙ is) in
      subst
        (λ (a : Option ℕ × (Processes × ℕ)).
          let k' = (after_schedule (λ q. (returned 0, pic_acknowledge q)) k a).1.processes in
          IsQueue k' l × IsLost k' i)
        (sym (schedule-some layout k.processes k.esp0 h first))
        (
          dispatch-IsQueue v,
          record {
            entry = p;
            at = get-update_ne k.processes.process_table h i _ apart ∙ at;
            is = is;
            not_current = λ e. apart (some-injective h i e);
          },
        )

  -- Let process `i` be marked running, as the current process is, at a timer tick with a non-empty ready queue.
  -- After the tick and any further steps of the kernel, each of them a whole handler, no step gives the processor to `i`.
  pub tick-preempts :
      (k : Kernel) {h : ℕ} {l : List ℕ} {p : Process} {k' k'' : Kernel} {o : Outcome}
      → IsQueue k.processes (h ∷ l)
      → get_elem? k.processes.process_table i ≡ some p
      → p.state ≡ running
      → Reach layout (handle_tick layout k).1 k'
      → Step layout k' (o, k'')
      → o ≢ switched i
  tick-preempts k v at is path step =
      let (v1, x1) = tick-IsLost k v at is in
      let (members, v2, x2) = Reach-IsLost _ v1 x1 path in
      (Step-StillLost members v2 x2 step).not_run
