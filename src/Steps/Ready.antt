-- ===== src/Steps/Ready.antt =====
-- The ready queue in every run of the kernel.
use lbos.Base.{
  ℕ, zero, suc, ◌≡◌, ◌≢◌, refl, sym, ap, ◌∙◌, Option, none, some, List, [], ◌∷◌, get_elem?, if_both,
  ◌==◌, leb, not, bit_and, map,
}
use mathlib.Core.Path.{subst}
use lbos.Paging.{kernel_virtual_start}
use lbos.Process.Data.{
  free, ready, terminated, Process, Processes, update, set_state, process_at, or_null,
  get_zombie_process_for_parent, init_process_manager,
}
use lbos.Process.Create.{Layout}
use lbos.Process.Table.{search_table-some, get-update_self}
use lbos.Process.Queue.{
  IsQueue, nil, dispatch-IsQueue, queue-head, queue-nil, schedule-some, schedule-none,
  update-IsQueue,
}
use lbos.Process.Slot.{terminated_of_child, state_of_some, not-has_of_state}
use lbos.Process.Make.{create_process-Makes, create_kernel_process-Makes}
use lbos.Kernel.{Kernel, Outcome, returned, current, on_current}
use lbos.Syscall.Calls
use lbos.Syscall.Calls.{schedule_then, after_schedule}
use lbos.Syscall.Family.{fork-Forks}
use lbos.Devices.Pic.{pic_acknowledge}
use lbos.Devices.Pit.{handle_tick}
use lbos.Fault.{demand_page, fault_of, handle_page_fault}
use lbos.Steps.{
  Step, user_process, kernel_process, print, fork, exit, wait, tick, page_fault, Reach, here, next,
}
use lbos.Steps.Lost.{free-ne-ready, terminated-ne-ready}

-- Some list of processes is the queue.
abbrev pub Queued : Processes → Type 0
Queued s = (l : List ℕ) × IsQueue s l

schedule-Queued :
    (layout : Layout) (resume : Kernel → Outcome × Kernel)
    → ((k : Kernel) → (resume k).1.processes ≡ k.processes)
    → (k : Kernel) (l : List ℕ) → IsQueue k.processes l
    → Queued (schedule_then layout resume k).1.processes
schedule-Queued layout resume kept k [] v =
    subst (λ (a : Option ℕ × (Processes × ℕ)). Queued (after_schedule resume k a).1.processes)
      (sym (schedule-none layout k.processes k.esp0 (queue-nil v))) ([], rw (kept k) v)
schedule-Queued layout resume kept k (h ∷ l) v =
    subst (λ (a : Option ℕ × (Processes × ℕ)). Queued (after_schedule resume k a).1.processes)
      (sym (schedule-some layout k.processes k.esp0 h (queue-head v).0)) (l, dispatch-IsQueue v)

-- A slot that is not ready may change to one that is not.
slot-IsQueue :
    {s : Processes} {l : List ℕ} (c : ℕ) (p : Process) (f : Process → Process)
    → IsQueue s l
    → get_elem? s.process_table c ≡ some p
    → p.state ≢ ready
    → (f p).state ≢ ready
    → IsQueue (record s { process_table = update s.process_table c f }) l
slot-IsQueue c p f v at was is =
    update-IsQueue c f v (not-has_of_state c p v.chain at was)
      (λ q at' e. is (ap (λ (o : Option Process). (f (or_null o)).state) (sym at ∙ at') ∙ e))

exit-Queued :
    (layout : Layout) (status c : ℕ) (p : Process) (k : Kernel) (l : List ℕ)
    → IsQueue k.processes l
    → k.processes.current_process ≡ some c
    → get_elem? k.processes.process_table c ≡ some p
    → p.state ≢ ready
    → Queued (Calls.exit layout status k).1.processes
unfolding Calls.exit Calls.exit_process Calls.ended set_state
exit-Queued layout status c p k l v now at busy =
    let v1 = slot-IsQueue c p (Calls.with_eax status) v at busy busy in
    let v2 =
      slot-IsQueue c (Calls.with_eax status p) (λ q. record q { state = terminated }) v1
        (get-update_self k.processes.process_table c (Calls.with_eax status) at) busy
        (λ e. terminated-ne-ready e) in
    subst
      (λ (o : Option ℕ). Queued (on_current k (Calls.exit_process layout status k) o).1.processes)
      (sym now)
      (schedule-Queued layout (λ k'. (returned 0, k')) (λ q. refl) (Calls.ended status k c) l v2)

reap_child-Queued :
    (status_ptr pid : ℕ) (k : Kernel) (l : List ℕ) (o : Option ℕ)
    → IsQueue k.processes l
    → get_zombie_process_for_parent k.processes pid ≡ o
    → Queued (Calls.reap_child status_ptr k o).1.processes
unfolding get_zombie_process_for_parent
reap_child-Queued status_ptr pid k l none v found = (l, v)
reap_child-Queued status_ptr pid k l (some j) v found =
    let f = search_table-some _ k.processes.process_table j found in
    let ended = terminated_of_child f.entry _ f.passes in
    (
      l,
      slot-IsQueue j f.entry (λ p. record p { state = free; pid = 0; parent_pid = 0 }) v f.at
          (λ e. terminated-ne-ready (sym ended ∙ e)) (λ e. free-ne-ready e),
    )

wait-Queued :
    (status_ptr : ℕ) (k : Kernel) (l : List ℕ) (o : Option ℕ)
    → IsQueue k.processes l
    → Queued
        (on_current k
          (λ c.
            Calls.reap_child status_ptr k
              (get_zombie_process_for_parent k.processes (process_at k.processes c).pid))
          o).1.processes
wait-Queued status_ptr k l none v = (l, v)
wait-Queued status_ptr k l (some c) v =
    reap_child-Queued status_ptr (process_at k.processes c).pid k l _ v refl

fault_of-processes :
    (addr code : ℕ) (k : Kernel) (o : Option Process)
    → (fault_of addr code k o).1.processes ≡ k.processes
fault_of-processes addr code k none = refl
fault_of-processes addr code k (some p) =
    if_both (λ (r : Outcome × Kernel). r.1.processes ≡ k.processes) (leb kernel_virtual_start addr)
      refl
      (if_both (λ (r : Outcome × Kernel). r.1.processes ≡ k.processes) (not (bit_and code 0x1 == 0))
        refl
        (if_both (λ (r : Outcome × Kernel). r.1.processes ≡ k.processes)
          (demand_page p.context.cr3 addr code k.mem).0 refl refl))

cleared_state :
    (t : List Process) (j : ℕ) (p : Process)
    → get_elem?
        (map {A = Process} (λ q. record q { state = free; pid = 0; next_in_ready_queue = none }) t)
        j
      ≡ some p
    → p.state ≡ free
cleared_state [] j p e = cc
cleared_state (x ∷ t) zero p e = sym (state_of_some e)
cleared_state (x ∷ t) (suc j) p e = cleared_state t j p e

pub init-IsQueue : (s : Processes) → IsQueue (init_process_manager s) []
unfolding init_process_manager
init-IsQueue s = record {
  chain = nil;
  complete = λ j p at is. absurd (free-ne-ready (sym (cleared_state s.process_table j p at) ∙ is));
}

module _ (layout : Layout) where
  Step-Queued :
      (k : Kernel) (r : Outcome × Kernel) (l : List ℕ)
      → IsQueue k.processes l
      → Step layout k r
      → Queued r.1.processes
  unfolding Calls.printf Calls.wait handle_tick handle_page_fault
  Step-Queued k r l v (user_process data_at size e) =
      rw e (_, (create_process-Makes layout k.mem v data_at size).queue)
  Step-Queued k r l v (kernel_process entry e) =
      rw e (_, (create_kernel_process-Makes layout k.mem v entry).queue)
  Step-Queued k r l v (print fmt_ptr e) =
      rw e (if_both (λ (r' : Outcome × Kernel). Queued r'.1.processes) (fmt_ptr == 0) (l, v) (l, v))
  Step-Queued k r l v (fork e) = rw e (_, (fork-Forks layout k v).makes.queue)
  Step-Queued k r l v (exit status c p now at is e) =
      rw e (exit-Queued layout status c p k l v now at is)
  Step-Queued k r l v (wait status_ptr e) =
      rw e (wait-Queued status_ptr k l k.processes.current_process v)
  Step-Queued k r l v (tick e) = rw e (
      schedule-Queued layout (λ q. (returned 0, pic_acknowledge q))
        (λ q. unfold pic_acknowledge in refl) k l v)
  Step-Queued k r l v (page_fault addr code e) =
      rw (e, fault_of-processes addr code k (current k)) (l, v)

  Reach-Queued :
      {k k' : Kernel} (l : List ℕ) → IsQueue k.processes l → Reach layout k k' → Queued k'.processes
  Reach-Queued l v here = (l, v)
  Reach-Queued l v (next path step) =
      let (l1, v1) = Reach-Queued l v path in Step-Queued _ _ l1 v1 step

  -- In every state that a run of the kernel reaches from `init_process_manager`, the ready queue is sound: its
  -- links lead through distinct processes to NULL, and these are exactly the ready ones. In such a run each handler
  -- comes to its end before another one starts, so no timer tick falls into a system call, no process that calls exit is
  -- marked ready, and wait stores no exit status into the process table.
  pub run-Queued :
      (s : Processes) (k k' : Kernel)
      → k.processes ≡ init_process_manager s
      → Reach layout k k'
      → (l : List ℕ) × IsQueue k'.processes l
  run-Queued s k k' started path =
      Reach-Queued [] (subst (λ (x : Processes). IsQueue x []) (sym started) (init-IsQueue s)) path
