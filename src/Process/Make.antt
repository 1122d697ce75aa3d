-- ===== src/Process/Make.antt =====
-- What making a process leaves of the ready queue and of the other processes.
use lbos.Base.{ℕ, ◌≡◌, refl, sym, Option, none, some, List, if_both}
use mathlib.Core.Path.{subst}
use lbos.Frames.{Mem}
use lbos.Process.Data.{free, Processes, set_state, enqueue, allocate_pcb_and_pid}
use lbos.Process.Create.{
  Layout, System, build_process, create_process, build_kernel_process, create_kernel_process,
  finish_user, finish_kernel,
}
use lbos.Process.Queue.{IsQueue}
use lbos.Process.Slot.{
  Reserved, Reserved-update, Reserved-enqueue, Reserved-release, Allocation, Allocation-none,
  Allocation-some, allocate-Allocation, Makes, Keeps-refl,
}

abbrev pub MakesIn : Processes → List ℕ → Option ℕ × System → Type 0
MakesIn s l r = Makes s r.1.0 l r.0

pub Makes-enqueue :
    {s s' : Processes} {l : List ℕ} {i : ℕ} → Reserved s s' l i → Makes s (enqueue s' i) l (some i)
Makes-enqueue r = record { queue = (Reserved-enqueue r).0; keeps = (Reserved-enqueue r).1 }

pub Makes-release :
    {s s' : Processes} {l : List ℕ} {i : ℕ}
    → Reserved s s' l i
    → Makes s (set_state s' i free) l none
Makes-release r = record { queue = (Reserved-release r).0; keeps = (Reserved-release r).1 }

pub Makes-none : {s s1 : Processes} {l : List ℕ} → IsQueue s l → s1 ≡ s → Makes s s1 l none
Makes-none {s} {s1} {l} v e =
    subst (λ (x : Processes). Makes s x l none) (sym e) (record { queue = v; keeps = Keeps-refl s })

module _ (layout : Layout) (m : Mem) {s : Processes} {l : List ℕ} (v : IsQueue s l) where
  finish_user-Makes :
      {s' : Processes} {i : ℕ} → Reserved s s' l i → Makes s (finish_user layout i s') l (some i)
  unfolding finish_user
  finish_user-Makes r = Makes-enqueue (Reserved-update r _ (λ p. refl))

  finish_kernel-Makes :
      (entry : ℕ) {s' : Processes} {i : ℕ}
      → Reserved s s' l i
      → Makes s (finish_kernel layout entry i s') l (some i)
  unfolding finish_kernel
  finish_kernel-Makes entry r = Makes-enqueue (Reserved-update r _ (λ p. refl))

  build_process-Makes :
      (data_at size : ℕ) (a : Option (ℕ × ℕ) × Processes)
      → Allocation s l a
      → MakesIn s l (build_process layout data_at size m a)
  unfolding build_process
  build_process-Makes data_at size (none, s1) al = Makes-none v (Allocation-none al)
  build_process-Makes data_at size (some (i, pid), s1) al =
      let r = Allocation-some al in
      if_both (MakesIn s l) _ (Makes-release r) (
        if_both (MakesIn s l) _ (finish_user-Makes (Reserved-update r _ (λ p. refl)))
          (Makes-release (Reserved-update r _ (λ p. refl))))

  build_kernel_process-Makes :
      (entry : ℕ) (a : Option (ℕ × ℕ) × Processes)
      → Allocation s l a
      → MakesIn s l (build_kernel_process layout entry m a)
  unfolding build_kernel_process
  build_kernel_process-Makes entry (none, s1) al = Makes-none v (Allocation-none al)
  build_kernel_process-Makes entry (some (i, pid), s1) al =
      let r = Allocation-some al in
      if_both (MakesIn s l) _ (Makes-release r)
        (finish_kernel-Makes entry (Reserved-update r _ (λ p. refl)))

  -- For a sound ready queue: `create_process` either fails and leaves the ready queue as it is, or puts the process that it
  -- answers in front of it; either way every process that is not in a free slot stays unchanged, and
  -- so does the current process.
  pub create_process-Makes :
      (data_at size : ℕ) → MakesIn s l (create_process layout data_at size (s, m))
  unfolding create_process
  create_process-Makes data_at size =
      build_process-Makes data_at size (allocate_pcb_and_pid s) (allocate-Allocation s l v)

  -- For a sound ready queue: `create_kernel_process` either fails and leaves the ready queue as it is, or puts the process that it
  -- answers in front of it; either way every process that is not in a free slot stays unchanged, and
  -- so does the current process.
  pub create_kernel_process-Makes :
      (entry : ℕ) → MakesIn s l (create_kernel_process layout entry (s, m))
  unfolding create_kernel_process
  create_kernel_process-Makes entry =
      build_kernel_process-Makes entry (allocate_pcb_and_pid s) (allocate-Allocation s l v)
