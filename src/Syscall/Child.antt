-- ===== src/Syscall/Child.antt =====
-- What the child of `sys_fork` starts with.
use lbos.Base.{ℕ, ◌≡◌, ◌≢◌, refl, sym, ap, ◌∙◌, Option, none, some, List, if_both, get_elem?}
use mathlib.Core.Path.{subst}
use lbos.Frames.{Mem}
use lbos.Process.Data.{
  free, ready, Process, Processes, StackState, process_at, or_null, update, enqueue,
  allocate_pcb_and_pid,
}
use lbos.Process.Create.{Layout, push_iret_frame}
use lbos.Process.Schedule.{iret_frame, switch_to_process}
use lbos.Process.Table.{get-update_self}
use lbos.Process.Queue.{IsQueue}
use lbos.Process.Slot.{Allocation, Allocation-some, allocate-Allocation}
use lbos.Process.Enter.{IsUserState, user_frame}
use lbos.Kernel.{Kernel, Outcome, returned, minus_one, on_current}
use lbos.Syscall.Fork.{inherit, entered, fork_into, fork}

module _ (layout : Layout) (ss : ℕ) (k : Kernel) {l : List ℕ} (v : IsQueue k.processes l) where
  -- The call fails, or the child stands at the head of the ready queue, starts in the state `st`, and has 0 in EAX.
  pub data Child (st : StackState) (r : Outcome × Kernel) : Type 0 where
    refused : r.0 ≡ returned minus_one → Child st r
    forked :
        (i pid : ℕ)
        → r.0 ≡ returned pid
        → r.1.processes.ready_queue_head ≡ some i
        → (switch_to_process layout ss r.1.processes i).stack ≡ st
        → (switch_to_process layout ss r.1.processes i).reg.eax ≡ 0
        → Child st r

  -- The slot of the child, once it is queued.
  abbrev child : ℕ → Option ℕ → Process → ℕ → Process → Process
  child i head parent cr3 p = record (entered layout i (inherit parent cr3 p)) {
    state = ready;
    next_in_ready_queue = head;
  }

  pub at_child :
      (s : Processes) (i : ℕ) (p parent : Process) (cr3 : ℕ)
      → get_elem? s.process_table i ≡ some p
      → let s2 = record s { process_table = update s.process_table i (inherit parent cr3) } in
        let s3 = record s2 { process_table = update s2.process_table i (entered layout i) } in
        get_elem? (enqueue s3 i).process_table i ≡ some (child i s.ready_queue_head parent cr3 p)
  unfolding enqueue
  at_child s i p parent cr3 at =
      let t1 = update s.process_table i (inherit parent cr3) in
      get-update_self (update t1 i (entered layout i)) i
        (λ q. record q { state = ready; next_in_ready_queue = s.ready_queue_head })
        (get-update_self t1 i (entered layout i)
          (get-update_self s.process_table i (inherit parent cr3) at))

  child_frame :
      (i : ℕ) (head : Option ℕ) (parent : Process) (cr3 : ℕ) (p : Process)
      → IsUserState parent.context.stack
      → iret_frame layout ss i (child i head parent cr3 p) ≡ parent.context.stack
  unfolding push_iret_frame
  child_frame i head parent cr3 p u =
      user_frame layout ss i parent.context.stack (inherit parent cr3 p) (child i head parent cr3 p)
        u refl refl

  forked-Child :
      (s : Processes) (i pid : ℕ) (p parent : Process) (cr3 : ℕ) (m : Mem)
      → get_elem? s.process_table i ≡ some p
      → IsUserState parent.context.stack
      → let s2 = record s { process_table = update s.process_table i (inherit parent cr3) } in
        let s3 = record s2 { process_table = update s2.process_table i (entered layout i) } in
        Child parent.context.stack (returned pid, record k { processes = enqueue s3 i; mem = m })
  unfolding switch_to_process enqueue
  forked-Child s i pid p parent cr3 m at u =
      let slot = at_child s i p parent cr3 at in
      forked i pid refl refl
        (ap (λ (o : Option Process). iret_frame layout ss i (or_null o)) slot
          ∙ child_frame i s.ready_queue_head parent cr3 p u)
        (ap (λ (o : Option Process). (or_null o).context.reg.eax) slot)

  fork_into-Child :
      (c : ℕ) (a : Option (ℕ × ℕ) × Processes) (p : Process)
      → Allocation k.processes l a
      → get_elem? k.processes.process_table c ≡ some p
      → p.state ≢ free
      → IsUserState p.context.stack
      → Child p.context.stack (fork_into layout c k a)
  unfolding fork_into
  fork_into-Child c (none, s1) p al at not_free u = refused refl
  fork_into-Child c (some (i, pid), s1) p al at not_free u =
      let r = Allocation-some al in
      let same : (process_at s1 c).context.stack ≡ p.context.stack =
        ap (λ (o : Option Process). (or_null o).context.stack) (r.keeps.others c p at not_free) in
      subst (λ (st : StackState). Child st (fork_into layout c k (some (i, pid), s1))) same
        (if_both (Child (process_at s1 c).context.stack) _ (refused refl) (
          if_both (Child (process_at s1 c).context.stack) _
            (forked-Child s1 i pid r.entry (process_at s1 c) _ _ r.at
              (subst IsUserState (sym same) u))
            (refused refl)))

  -- The child that `sys_fork` makes of a user process gets 0 in EAX, stands at the head of the ready queue, and
  -- goes on with the stack state in the parent's context; otherwise the call answers -1. That state is the
  -- saved one, not the one of the interrupted parent.
  pub fork-Child :
      (c : ℕ) (p : Process)
      → k.processes.current_process ≡ some c
      → get_elem? k.processes.process_table c ≡ some p
      → p.state ≢ free
      → IsUserState p.context.stack
      → Child p.context.stack (fork layout k)
  unfolding fork
  fork-Child c p now at not_free u =
      subst
        (λ (o : Option ℕ).
          Child p.context.stack
            (on_current k (λ c'. fork_into layout c' k (allocate_pcb_and_pid k.processes)) o))
        (sym now)
        (fork_into-Child c (allocate_pcb_and_pid k.processes) p
          (allocate-Allocation k.processes l v) at not_free u)
