-- ===== src/Process/Slot.antt =====
-- A slot from its allocation to the ready queue, or back to the free ones.
use lbos.Base.{
  ℕ, ◌≡◌, ◌≢◌, refl, sym, ap, ◌∙◌, Bool, true, ◌&&◌, false, Option, none, some, List, ◌∷◌, arith,
  get_elem?, Option-cases, inl, inr,
}
use mathlib.Core.Path.{subst}
use native.Mathlib.Decide.{ℕ_discrete}
use lbos.Process.Data.{
  ProcessState, is_terminated, free, ready, running, blocked, terminated, or_null, Process,
  Processes, is_free, search_table, update, claim_slot, claim, allocate_pcb_and_pid, enqueue,
  set_state,
}
use lbos.Process.Table.{get-update_self, get-update_ne, IsFirst, search_table-some}
use lbos.Process.Queue.{has, Chain, nil, cons, IsQueue, update-IsQueue, enqueue-IsQueue}

free-ne-ready : free ≢ ready
free-ne-ready e = cc

pub state_of_some : {p p' : Process} → some p ≡ some p' → p.state ≡ p'.state
state_of_some e = ap (λ (o : Option Process). (or_null o).state) e

pub not-has_of_state :
    {t : List Process} {q : Option ℕ} {l : List ℕ} (i : ℕ) (p : Process)
    → Chain t q l
    → get_elem? t i ≡ some p
    → p.state ≢ ready
    → has i l ≡ false
not-has_of_state i p nil at n = refl
not-has_of_state {t} i p (cons {i = j} p' at' is next fresh c) at n = elim (ℕ_discrete i j) [
  | yes e ↦ absurd (n (state_of_some (sym at ∙ ap (get_elem? t) e ∙ at') ∙ is))
  | no d ↦ ground (arith, not-has_of_state i p c at n)
]

pub terminated_of_child :
    (p : Process) (b : Bool) → (is_terminated p.state && b) ≡ true → p.state ≡ terminated
terminated_of_child p b e = ground arith

-- What an operation that makes a process keeps: every process that is not in a free slot, and the
-- current one.
pub record Keeps (s s' : Processes) : Type 0 where
  pub current : s'.current_process ≡ s.current_process
  pub others :
      (j : ℕ) (p : Process)
      → get_elem? s.process_table j ≡ some p
      → p.state ≢ free
      → get_elem? s'.process_table j ≡ some p

-- Slot `i`, which was free in `s`, is being filled in `s'`.
pub record Reserved (s s' : Processes) (l : List ℕ) (i : ℕ) : Type 0 where
  pub queue : IsQueue s' l
  pub entry : Process
  pub at : get_elem? s'.process_table i ≡ some entry
  pub is : entry.state ≡ free
  pub keeps : Keeps s s'

module _ {s s' : Processes} {l : List ℕ} {i : ℕ} (r : Reserved s s' l i) where
  pub not-has : has i l ≡ false
  not-has = not-has_of_state i r.entry r.queue.chain r.at (λ e. free-ne-ready (sym r.is ∙ e))

  -- An update of the slot leaves the other processes.
  Keeps-update :
      (f : Process → Process) → Keeps s (record s' { process_table = update s'.process_table i f })
  Keeps-update f = record {
    current = r.keeps.current;
    others = λ j p at n. elim (ℕ_discrete i j) [
      | yes e ↦ absurd (
          n (
            state_of_some
              (sym (r.keeps.others j p at n) ∙ ap (get_elem? s'.process_table) (sym e) ∙ r.at)
            ∙ r.is))
      | no d ↦ get-update_ne s'.process_table i j f d ∙ r.keeps.others j p at n
    ];
  }

  pub Reserved-update :
      (f : Process → Process)
      → ((p : Process) → (f p).state ≡ p.state)
      → Reserved s (record s' { process_table = update s'.process_table i f }) l i
  Reserved-update f same = record {
    queue = update-IsQueue i f r.queue not-has λ p at ready_now.
        free-ne-ready (sym (same p ∙ state_of_some (sym at ∙ r.at) ∙ r.is) ∙ ready_now);
    entry = f r.entry;
    at = get-update_self s'.process_table i f r.at;
    is = same r.entry ∙ r.is;
    keeps = Keeps-update f;
  }

  -- The slot goes to the front of the queue.
  pub Reserved-enqueue : IsQueue (enqueue s' i) (i ∷ l) × Keeps s (enqueue s' i)
  unfolding enqueue
  Reserved-enqueue = (
    enqueue-IsQueue i r.entry r.queue r.at not-has,
    record { current = r.keeps.current; others = (Keeps-update _).others },
  )

  -- The slot is given up.
  pub Reserved-release : IsQueue (set_state s' i free) l × Keeps s (set_state s' i free)
  unfolding set_state
  Reserved-release =
      (update-IsQueue i _ r.queue not-has (λ p at e. free-ne-ready e), Keeps-update _)

is_free-eq : (x : ProcessState) → is_free x ≡ true → x ≡ free
is_free-eq free e = refl
is_free-eq ready e = cc
is_free-eq running e = cc
is_free-eq blocked e = cc
is_free-eq terminated e = cc

pub Keeps-refl : (s : Processes) → Keeps s s
Keeps-refl s = record { current = refl; others = λ j p at n. at }

-- What `allocate_pcb_and_pid` answers.
pub data Allocation (s : Processes) (l : List ℕ) (r : Option (ℕ × ℕ) × Processes) : Type 0 where
  full : r ≡ (none, s) → Allocation s l r
  slot : (i : ℕ) → r.0 ≡ some (i, s.next_pid) → Reserved s r.1 l i → Allocation s l r

claim_slot-Reserved :
    (s : Processes) (l : List ℕ) (i : ℕ)
    → IsQueue s l
    → IsFirst (λ p. is_free p.state) s.process_table i
    → Reserved s (claim_slot s i) l i
unfolding claim_slot
claim_slot-Reserved s l i v f =
    let blank : Reserved s s l i = record {
      queue = v;
      entry = f.entry;
      at = f.at;
      is = is_free-eq f.entry.state f.passes;
      keeps = Keeps-refl s;
    } in
    let r = Reserved-update blank _ (λ p. refl) in
    record {
      queue = record { chain = r.queue.chain; complete = r.queue.complete };
      entry = r.entry;
      at = r.at;
      is = r.is;
      keeps = record { current = r.keeps.current; others = r.keeps.others };
    }

-- The same for an answer that is taken apart.
pub Allocation-none : {s s1 : Processes} {l : List ℕ} → Allocation s l (none, s1) → s1 ≡ s
Allocation-none (full e) = ap (λ (x : Option (ℕ × ℕ) × Processes). x.1) e
Allocation-none (slot i e r) = cc

index_of : Option (ℕ × ℕ) → ℕ
index_of none = 0
index_of (some (i, pid)) = i

pub Allocation-some :
    {s s1 : Processes} {l : List ℕ} {i pid : ℕ}
    → Allocation s l (some (i, pid), s1)
    → Reserved s s1 l i
unfolding index_of
Allocation-some (full e) = cc
Allocation-some {s} {s1} {l} (slot k e r) = subst (Reserved s s1 l) (sym (ap index_of e)) r

pub allocate-Allocation :
    (s : Processes) (l : List ℕ) → IsQueue s l → Allocation s l (allocate_pcb_and_pid s)
unfolding allocate_pcb_and_pid
allocate-Allocation s l v = elim (Option-cases found) [
  | inl gone ↦ full (ap (claim s) gone)
  | inr (i, e) ↦
      subst (Allocation s l) (ap (claim s) (sym e))
        (slot i refl (claim_slot-Reserved s l i v (search_table-some test s.process_table i e)))
]
  where
    test : Process → Bool
    test p = is_free p.state

    found : Option ℕ
    found = search_table test s.process_table

-- The queue after an operation that may have made a process.
abbrev pub push_made : Option ℕ → List ℕ → List ℕ
push_made none l = l
push_made (some i) l = i ∷ l

pub record Makes (s s' : Processes) (l : List ℕ) (made : Option ℕ) : Type 0 where
  pub queue : IsQueue s' (push_made made l)
  pub keeps : Keeps s s'
