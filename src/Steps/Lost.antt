-- ===== src/Steps/Lost.antt =====
-- Processes that are marked running but are not the current one.
use lbos.Base.{ℕ, ◌≡◌, ◌≢◌, refl, sym, ap, ◌∙◌, Option, some, List, [], ◌∷◌, get_elem?}
use mathlib.Core.Path.{subst}
use lbos.Frames.{Mem}
use lbos.Process.Data.{free, ready, running, terminated, Process, Processes, update}
use lbos.Process.Create.{Layout}
use lbos.Process.Schedule.{dispatch}
use lbos.Process.Queue.{
  IsQueue, dispatch-IsQueue, queue-head, queue-nil, schedule-some, schedule-none, update-IsQueue,
}
use lbos.Process.Slot.{Keeps, Makes, push_made, state_of_some, not-has_of_state}
use lbos.Kernel.{Kernel, Outcome, returned, switched, halted}
use lbos.Syscall.Calls.{schedule_then, after_schedule}
use lbos.Process.Table.{get-update_ne}
use mathlib.Core.Option.{some-injective}

-- Process `i` is marked running, but is not the current process.
pub record IsLost (s : Processes) (i : ℕ) : Type 0 where
  pub entry : Process
  pub at : get_elem? s.process_table i ≡ some entry
  pub is : entry.state ≡ running
  pub not_current : s.current_process ≢ some i

-- The queue is sound and `i` is lost, and control has not gone to `i`.
pub record StillLost (i : ℕ) (r : Outcome × Kernel) : Type 0 where
  pub members : List ℕ
  pub queue : IsQueue r.1.processes members
  pub lost : IsLost r.1.processes i
  pub not_run : r.0 ≢ switched i

pub running-ne-free : running ≢ free
running-ne-free e = cc

pub Keeps-IsLost : {s s' : Processes} {i : ℕ} → Keeps s s' → IsLost s i → IsLost s' i
Keeps-IsLost {s} {s'} {i} k x = record {
  entry = x.entry;
  at = k.others i x.entry x.at (λ e. running-ne-free (sym x.is ∙ e));
  is = x.is;
  not_current = λ e. x.not_current (sym k.current ∙ e);
}

pub returned-ne-switched : {n i : ℕ} → returned n ≢ switched i
returned-ne-switched e = cc

pub halted-ne-switched : {i : ℕ} → halted ≢ switched i
halted-ne-switched e = cc

pub terminated-ne-ready : terminated ≢ ready
terminated-ne-ready e = cc

pub free-ne-ready : free ≢ ready
free-ne-ready e = cc

pub terminated-ne-running : terminated ≢ running
terminated-ne-running e = cc

pub switched-injective : {i j : ℕ} → switched i ≡ switched j → i ≡ j
switched-injective e = cc

pub ready-ne-running : ready ≢ running
ready-ne-running e = cc

-- The head of the queue is ready, so it is another process.
pub dispatch-IsLost :
    {s : Processes} {h i : ℕ} {l : List ℕ}
    → IsQueue s (h ∷ l)
    → IsLost s i
    → IsLost (dispatch s h) i × (h ≢ i)
unfolding dispatch
dispatch-IsLost {s} {h} {i} v x =
    let (first, p, at, is) = queue-head v in
    let apart : h ≢ i = λ e.
      ready-ne-running
        (sym is ∙ state_of_some (sym at ∙ ap (get_elem? s.process_table) e ∙ x.at) ∙ x.is) in
    (
      record {
        entry = x.entry;
        at = get-update_ne s.process_table h i _ apart ∙ x.at;
        is = x.is;
        not_current = λ e. apart (some-injective h i e);
      },
      apart,
    )

module _ (layout : Layout) (i : ℕ) where
  pub schedule-StillLost :
      (resume : Kernel → Outcome × Kernel)
      → ((k : Kernel) → (resume k).0 ≢ switched i)
      → ((k : Kernel) → (resume k).1.processes ≡ k.processes)
      → (k : Kernel) (l : List ℕ) → IsQueue k.processes l
      → IsLost k.processes i
      → StillLost i (schedule_then layout resume k)
  schedule-StillLost resume quiet kept k [] v x =
      subst (λ (a : Option ℕ × (Processes × ℕ)). StillLost i (after_schedule resume k a))
        (sym (schedule-none layout k.processes k.esp0 (queue-nil v)))
        (record { members = []; queue = rw (kept k) v; lost = rw (kept k) x; not_run = quiet k })
  schedule-StillLost resume quiet kept k (h ∷ l) v x =
      subst (λ (a : Option ℕ × (Processes × ℕ)). StillLost i (after_schedule resume k a))
        (sym (schedule-some layout k.processes k.esp0 h (queue-head v).0))
        (record {
          members = l;
          queue = dispatch-IsQueue v;
          lost = (dispatch-IsLost v x).0;
          not_run = λ e. (dispatch-IsLost v x).1 (switched-injective e);
        })

  -- A step that returns and leaves the processes of `k`.
  pub same-StillLost :
      {s : Processes} {k' : Kernel} {l : List ℕ} {o : Outcome}
      → IsQueue s l
      → IsLost s i
      → k'.processes ≡ s
      → o ≢ switched i
      → StillLost i (o, k')
  same-StillLost {l} v x e quiet = record {
    members = l;
    queue = rw e v;
    lost = rw e x;
    not_run = quiet;
  }

  pub mem-StillLost :
      (k : Kernel) (m : Mem) {l : List ℕ} {o : Outcome}
      → IsQueue k.processes l
      → IsLost k.processes i
      → o ≢ switched i
      → StillLost i (o, record k { mem = m })
  mem-StillLost k m v x quiet = same-StillLost v x refl quiet

  pub Makes-StillLost :
      {s : Processes} {k' : Kernel} {l : List ℕ} {made : Option ℕ} {o : Outcome}
      → Makes s k'.processes l made
      → IsLost s i
      → o ≢ switched i
      → StillLost i (o, k')
  Makes-StillLost {l} {made} g x quiet = record {
    members = push_made made l;
    queue = g.queue;
    lost = Keeps-IsLost g.keeps x;
    not_run = quiet;
  }

  -- A change of a slot that is neither queued nor lost.
  pub update-StillLost :
      {s : Processes} {l : List ℕ} (c : ℕ) (p : Process) (f : Process → Process)
      → IsQueue s l
      → IsLost s i
      → get_elem? s.process_table c ≡ some p
      → p.state ≢ ready
      → ((q : Process) → get_elem? s.process_table c ≡ some q → (f q).state ≢ ready)
      → c ≢ i
      → IsQueue (record s { process_table = update s.process_table c f }) l
        × IsLost (record s { process_table = update s.process_table c f }) i
  update-StillLost {s} c p f v x at is not_ready apart = (
    update-IsQueue c f v (not-has_of_state c p v.chain at is) not_ready,
    record {
      entry = x.entry;
      at = get-update_ne s.process_table c i f apart ∙ x.at;
      is = x.is;
      not_current = x.not_current;
    },
  )
