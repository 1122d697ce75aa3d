-- ===== src/Syscall/Family.antt =====
-- `sys_fork`, `sys_exit` and `sys_wait` on the ready queue and the processes that are there.
use lbos.Base.{
  ℕ, ◌<◌, ◌≡◌, ◌≢◌, ◌&&◌, Bool, true, false, arith, refl, sym, ap, Option, none, some, List, [],
  ◌∷◌, ◌++◌, if◌then◌else◌, ◌==◌, get_elem?, Option-cases, inl, inr, if_both,
}
use mathlib.Core.Path.{subst}
use lbos.Process.Data.{
  free, terminated, is_terminated, Process, Processes, process_at, or_null, allocate_pcb_and_pid,
  get_zombie_process_for_parent,
}
use lbos.Process.Create.{Layout}
use lbos.Process.Table.{search_table-some, search_table-none, get-update_self, get-update_ne}
use lbos.Process.Queue.{IsQueue}
use lbos.Process.Slot.{
  terminated_of_child, Reserved-update, Allocation, Allocation-none, Allocation-some,
  allocate-Allocation, Makes,
}
use lbos.Process.Make.{Makes-none, Makes-enqueue, Makes-release}
use lbos.Kernel.{Kernel, Outcome, returned, minus_one, on_current}
use lbos.Syscall.Fork.{fork_into, fork}
use lbos.Syscall.Calls.{reap_child, wait}

-- A call that returns a number and may have made a process.
pub record Forks (s : Processes) (l : List ℕ) (r : Outcome × Kernel) : Type 0 where
  pub made : Option ℕ
  pub makes : Makes s r.1.processes l made
  pub result : ℕ
  pub returns : r.0 ≡ returned result

module _ (layout : Layout) (k : Kernel) {l : List ℕ} (v : IsQueue k.processes l) where
  fork_into-Forks :
      (c : ℕ) (a : Option (ℕ × ℕ) × Processes)
      → Allocation k.processes l a
      → Forks k.processes l (fork_into layout c k a)
  unfolding fork_into
  fork_into-Forks c (none, s1) al = record {
    made = none;
    makes = Makes-none v (Allocation-none al);
    result = minus_one;
    returns = refl;
  }
  fork_into-Forks c (some (i, new_pid), s1) al =
      let r = Allocation-some al in
      if_both (Forks k.processes l) _
        (record {
          made = none;
          makes = Makes-release (Reserved-update r _ (λ p. refl));
          result = minus_one;
          returns = refl;
        })
        (if_both (Forks k.processes l) _
          (record {
            made = some i;
            makes = Makes-enqueue (Reserved-update (Reserved-update r _ (λ p. refl)) _ (λ p. refl));
            result = new_pid;
            returns = refl;
          })
          (record {
            made = none;
            makes = Makes-release (Reserved-update r _ (λ p. refl));
            result = minus_one;
            returns = refl;
          }))

  pub fork-Forks : Forks k.processes l (fork layout k)
  unfolding fork
  fork-Forks = elim (Option-cases k.processes.current_process) [
    | inl gone ↦
        subst (λ (o : Option ℕ). Forks k.processes l (on_current k call o)) (sym gone) none_made
    | inr (c, e) ↦
        subst (λ (o : Option ℕ). Forks k.processes l (on_current k call o)) (sym e)
          (fork_into-Forks c (allocate_pcb_and_pid k.processes)
            (allocate-Allocation k.processes l v))
  ]
    where
      call : ℕ → Outcome × Kernel
      call c = fork_into layout c k (allocate_pcb_and_pid k.processes)

      none_made : Forks k.processes l (returned minus_one, k)
      none_made = record {
        made = none;
        makes = Makes-none v refl;
        result = minus_one;
        returns = refl;
      }

-- What `sys_wait` leaves when it reaps the process in slot `i`: the slot is free and has no pid, every
-- other slot stays, and the exit status went through the pointer unless that is NULL.
pub record Reaps (status_ptr : ℕ) (k : Kernel) (i : ℕ) (r : Outcome × Kernel) : Type 0 where
  pub answer : r.0 ≡ returned 0
  pub freed : (process_at r.1.processes i).state ≡ free
  pub no_pid : (process_at r.1.processes i).pid ≡ 0
  pub others :
      (j : ℕ)
      → i ≢ j
      → get_elem? r.1.processes.process_table j ≡ get_elem? k.processes.process_table j
  pub status : r.1.user_stores ≡ (
      if status_ptr == 0
      then k.user_stores
      else k.user_stores ++ (status_ptr, (process_at k.processes i).context.reg.eax) ∷ [])

reap_child-Reaps :
    (status_ptr : ℕ) (k : Kernel) (i : ℕ) {p : Process}
    → get_elem? k.processes.process_table i ≡ some p
    → Reaps status_ptr k i (reap_child status_ptr k (some i))
reap_child-Reaps status_ptr k i at =
    let after = get-update_self k.processes.process_table i _ at in
    record {
      answer = ap (λ (o : Option Process). returned (or_null o).pid) after;
      freed = ap (λ (o : Option Process). (or_null o).state) after;
      no_pid = ap (λ (o : Option Process). (or_null o).pid) after;
      others = λ j n. get-update_ne k.processes.process_table i j _ n;
      status = refl;
    }

-- A terminated process whose parent has the pid.
abbrev pub IsEndedChild : ℕ → Process → Type 0
IsEndedChild pid p = (p.state ≡ terminated) × (p.parent_pid ≡ pid)

-- What `sys_wait` answers to the process with the pid: the first of its terminated children in the table is
-- reaped, or there is none.
pub data Waits (status_ptr pid : ℕ) (k : Kernel) (r : Outcome × Kernel) : Type 0 where
  reaped :
      (i : ℕ) (p : Process)
      → get_elem? k.processes.process_table i ≡ some p
      → IsEndedChild pid p
      → ((j : ℕ) (q : Process)
          → j < i
          → get_elem? k.processes.process_table j ≡ some q
          → ¬ IsEndedChild pid q)
      → Reaps status_ptr k i r
      → Waits status_ptr pid k r
  childless :
      ((j : ℕ) (q : Process)
        → get_elem? k.processes.process_table j ≡ some q
        → ¬ IsEndedChild pid q)
      → r ≡ (returned minus_one, k)
      → Waits status_ptr pid k r

-- The test of `get_zombie_process_for_parent`.
abbrev is_zombie : ℕ → Process → Bool
is_zombie pid p = is_terminated p.state && p.parent_pid == pid

is_zombie-IsEndedChild : (pid : ℕ) (p : Process) → is_zombie pid p ≡ true → IsEndedChild pid p
is_zombie-IsEndedChild pid p e =
    (terminated_of_child p (p.parent_pid == pid) e, parent (is_terminated p.state) p.parent_pid e)
  where
    parent : (b : Bool) (n : ℕ) → (b && n == pid) ≡ true → n ≡ pid
    parent b n h = ground arith

not-IsEndedChild : (pid : ℕ) (p : Process) → is_zombie pid p ≡ false → ¬ IsEndedChild pid p
not-IsEndedChild pid p e (ended, parent) =
    let yes_state : is_terminated p.state ≡ true = ap is_terminated ended in
    let yes_parent : (p.parent_pid == pid) ≡ true = ground arith in ground arith

-- With a current process, `sys_wait` reaps the first terminated process in the table whose parent has the
-- caller's pid: the slot is free and has no pid, every other slot stays, its exit status is stored through the
-- pointer unless that is NULL, and the answer is 0, whatever the child's pid was. If there is no such process the
-- answer is -1 and nothing changes. The store is one to the program's memory, apart from the process table.
pub wait-Waits :
    (status_ptr : ℕ) (k : Kernel) (c : ℕ)
    → k.processes.current_process ≡ some c
    → Waits status_ptr (process_at k.processes c).pid k (wait status_ptr k)
unfolding wait get_zombie_process_for_parent
wait-Waits status_ptr k c here =
    subst (λ (o : Option ℕ). Waits status_ptr pid k (on_current k call o)) (sym here)
      (elim (Option-cases (get_zombie_process_for_parent k.processes pid)) [
        | inl gone ↦
            childless
              (λ j q at.
                not-IsEndedChild pid q
                  (search_table-none (is_zombie pid) k.processes.process_table j q gone at))
              (ap (reap_child status_ptr k) gone)
        | inr (i, found) ↦
            let first = search_table-some (is_zombie pid) k.processes.process_table i found in
            reaped i first.entry first.at (is_zombie-IsEndedChild pid first.entry first.passes)
              (λ j q lt at. not-IsEndedChild pid q (first.earlier j q lt at))
              (subst (λ (o : Option ℕ). Reaps status_ptr k i (reap_child status_ptr k o))
                (sym found) (reap_child-Reaps status_ptr k i first.at))
      ])
  where
    pid : ℕ
    pid = (process_at k.processes c).pid

    call : ℕ → Outcome × Kernel
    call c' =
        reap_child status_ptr k
          (get_zombie_process_for_parent k.processes (process_at k.processes c').pid)
