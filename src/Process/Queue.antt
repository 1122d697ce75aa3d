-- ===== src/Process/Queue.antt =====
-- The ready queue: a list of ready processes, linked through the table.
use lbos.Base.{
  ℕ, ◌+◌, ◌≡◌, ◌≢◌, refl, sym, ap, ◌∙◌, Bool, true, false, ◌||◌, Option, none, some, List, [], ◌∷◌,
  arith, ◌==◌, get_elem?,
}
use mathlib.Core.Path.{subst}
use native.Mathlib.Decide.{ℕ_discrete}
use lbos.Process.Data.{
  ready, running, Process, Processes, process_kernel_stack_size, update, enqueue, process_at,
  or_null, or_null,
}
use lbos.Process.Create.{Layout, kstack_at}
use lbos.Process.Schedule.{dispatch, schedule}
use lbos.Process.Table.{get-update_self, get-update_inv, get-update_ne}

abbrev pub has : ℕ → List ℕ → Bool
has i [] = false
has i (j ∷ l) = (i == j) || has i l

-- From `q` on, the links lead through the distinct ready processes `l` to NULL.
pub data Chain (t : List Process) : Option ℕ → List ℕ → Type 0 where
  nil : Chain t none []
  cons :
      {i : ℕ} {q : Option ℕ} {l : List ℕ} (p : Process)
      → get_elem? t i ≡ some p
      → p.state ≡ ready
      → p.next_in_ready_queue ≡ q
      → has i l ≡ false
      → Chain t q l
      → Chain t (some i) (i ∷ l)

-- The queue holds exactly the ready processes.
pub record IsQueue (s : Processes) (l : List ℕ) : Type 0 where
  pub chain : Chain s.process_table s.ready_queue_head l
  pub complete :
      (j : ℕ) (p : Process)
      → get_elem? s.process_table j ≡ some p
      → p.state ≡ ready
      → has j l ≡ true

Chain-update :
    {t : List Process} {q : Option ℕ} {l : List ℕ} (i : ℕ) (f : Process → Process)
    → Chain t q l
    → has i l ≡ false
    → Chain (update t i f) q l
Chain-update i f nil out = nil
Chain-update {t} i f (cons {i = j} {l = l} p at is next fresh c) out =
    let apart : i ≢ j = ground arith in
    cons p (get-update_ne t i j f apart ∙ at) is next fresh (Chain-update i f c (ground arith))

at_same :
    (t : List Process) {i j : ℕ} {p : Process}
    → i ≡ j
    → get_elem? t j ≡ some p
    → get_elem? t i ≡ some p
at_same t e at = ap (get_elem? t) e ∙ at

-- A slot outside the queue may change in any way that does not make it ready.
pub update-IsQueue :
    {s : Processes} {l : List ℕ} (i : ℕ) (f : Process → Process)
    → IsQueue s l
    → has i l ≡ false
    → ((p : Process) → get_elem? s.process_table i ≡ some p → (f p).state ≢ ready)
    → IsQueue (record s { process_table = update s.process_table i f }) l
update-IsQueue {s} {l} i f v out changed = record {
  chain = Chain-update i f v.chain out;
  complete = all;
}
  where
    all :
        (j : ℕ) (p : Process)
        → get_elem? (update s.process_table i f) j ≡ some p
        → p.state ≡ ready
        → has j l ≡ true
    all j p at is = elim (ℕ_discrete i j) [
      | yes e ↦
          let (old, here, q) =
            get-update_inv s.process_table i f p (at_same (update s.process_table i f) e at) in
          absurd (changed old here (ap (λ (x : Process). x.state) (sym q) ∙ is))
      | no n ↦ v.complete j p (sym (get-update_ne s.process_table i j f n) ∙ at) is
    ]

-- `enqueue` puts a process outside the queue in front of it.
pub enqueue-IsQueue :
    {s : Processes} {l : List ℕ} (i : ℕ) (p : Process)
    → IsQueue s l
    → get_elem? s.process_table i ≡ some p
    → has i l ≡ false
    → IsQueue (enqueue s i) (i ∷ l)
unfolding enqueue
enqueue-IsQueue {s} {l} i p v here out = record {
  chain =
      cons (f p) (get-update_self s.process_table i f here) refl refl out
        (Chain-update i f v.chain out);
  complete = all;
}
  where
    f : Process → Process
    f p = record p { state = ready; next_in_ready_queue = s.ready_queue_head }

    all :
        (j : ℕ) (p : Process)
        → get_elem? (update s.process_table i f) j ≡ some p
        → p.state ≡ ready
        → has j (i ∷ l) ≡ true
    all j p at is = elim (ℕ_discrete i j) [
      | yes e ↦ ground arith
      | no n ↦ ground (arith, v.complete j p (sym (get-update_ne s.process_table i j f n) ∙ at) is)
    ]

running-ne-ready : running ≢ ready
running-ne-ready e = cc

-- What stands at the head of a queue that is not empty.
record Head (t : List Process) (q : Option ℕ) (i : ℕ) (l : List ℕ) : Type 0 where
  entry : Process
  first : q ≡ some i
  at : get_elem? t i ≡ some entry
  is : entry.state ≡ ready
  fresh : has i l ≡ false
  rest : Chain t entry.next_in_ready_queue l

Chain-front :
    {t : List Process} {q : Option ℕ} {i : ℕ} {l : List ℕ} → Chain t q (i ∷ l) → Head t q i l
Chain-front (cons p at is next fresh c) = record {
  entry = p;
  first = refl;
  at = at;
  is = is;
  fresh = fresh;
  rest = rw next c;
}

Chain-nil : {t : List Process} {q : Option ℕ} → Chain t q [] → q ≡ none
Chain-nil nil = refl

pub dispatch-IsQueue :
    {s : Processes} {i : ℕ} {l : List ℕ} → IsQueue s (i ∷ l) → IsQueue (dispatch s i) l
unfolding dispatch
dispatch-IsQueue {s} {i} {l} v = record { chain = tail; complete = all }
  where
    h : Head s.process_table s.ready_queue_head i l
    h = Chain-front v.chain

    f : Process → Process
    f p = record p { state = running }

    tail : Chain (update s.process_table i f) (process_at s i).next_in_ready_queue l
    tail =
        subst
          (λ (o : Option Process).
            Chain (update s.process_table i f) (or_null o).next_in_ready_queue l)
          (sym h.at) (Chain-update i f h.rest h.fresh)

    all :
        (j : ℕ) (p : Process)
        → get_elem? (update s.process_table i f) j ≡ some p
        → p.state ≡ ready
        → has j l ≡ true
    all j p at is = elim (ℕ_discrete i j) [
      | yes e ↦
          let (old, here, q) =
            get-update_inv s.process_table i f p (at_same (update s.process_table i f) e at) in
          absurd (running-ne-ready (ap (λ (x : Process). x.state) (sym q) ∙ is))
      | no n ↦ ground (arith, v.complete j p (sym (get-update_ne s.process_table i j f n) ∙ at) is)
    ]

pub queue-head :
    {s : Processes} {i : ℕ} {l : List ℕ}
    → IsQueue s (i ∷ l)
    → (s.ready_queue_head ≡ some i)
      × (p : Process) × (get_elem? s.process_table i ≡ some p)
      × (p.state ≡ ready)
queue-head v = let h = Chain-front v.chain in (h.first, h.entry, h.at, h.is)

pub queue-nil : {s : Processes} → IsQueue s [] → s.ready_queue_head ≡ none
queue-nil v = Chain-nil v.chain

module _ (layout : Layout) (s : Processes) (esp0 : ℕ) where
  abbrev scheduled : Option ℕ × (Processes × ℕ)
  scheduled = schedule layout (s, esp0)

  pub schedule-some :
      (i : ℕ)
      → s.ready_queue_head ≡ some i
      → scheduled ≡ (some i, (dispatch s i, kstack_at layout i + process_kernel_stack_size))
  unfolding schedule
  schedule-some i e = simp e

  pub schedule-none : s.ready_queue_head ≡ none → scheduled ≡ (none, (s, esp0))
  unfolding schedule
  schedule-none e = simp e

  -- With a ready process, `schedule` hands control to the one at the head of the queue: it becomes
  -- the current process and runs, on its own kernel stack for the next trap; the queue loses its
  -- head, and every other slot of the table stays as it is.
  pub schedule-head :
      (i : ℕ) (l : List ℕ)
      → IsQueue s (i ∷ l)
      → (scheduled.0 ≡ some i)
        × (scheduled.1.0.current_process ≡ some i)
        × ((process_at scheduled.1.0 i).state ≡ running)
        × (scheduled.1.1 ≡ kstack_at layout i + process_kernel_stack_size)
        × ((j : ℕ) → i ≢ j → process_at scheduled.1.0 j ≡ process_at s j)
        × IsQueue scheduled.1.0 l
  unfolding dispatch
  schedule-head i l v = rw (schedule-some i h.first) (
    refl,
    refl,
    ap (λ (o : Option Process). (or_null o).state) (get-update_self s.process_table i f h.at),
    refl,
    λ j n. ap or_null (get-update_ne s.process_table i j f n),
    dispatch-IsQueue v,
  )
    where
      h : Head s.process_table s.ready_queue_head i l
      h = Chain-front v.chain

      f : Process → Process
      f p = record p { state = running }
