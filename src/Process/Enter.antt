-- ===== src/Process/Enter.antt =====
-- What a new process starts with when `switch_to_process` first goes to it.
use lbos.Base.{
  ℕ, ◌+◌, ◌-◌, ◌%◌, ◌^◌, ◌<◌, ◌≡◌, refl, ap, ◌∙◌, Option, none, some, List, arith, u32, ◌==◌,
  get_elem?,
}
use mathlib.Core.Bool.{true}
use lbos.Memory.{Ram, load32, store32}
use lbos.Frames.{Mem}
use lbos.Process.Data.{
  StackState, Process, Processes, ready, enqueue, update, process_kernel_stack_size,
}
use lbos.Process.Create.{
  Layout, System, kstack_at, push_iret_frame, with_esp, with_stack, user_entry, finish_user,
}
use lbos.Process.Schedule.{iret_frame, switch_to_process}
use lbos.Process.Table.{get-update_self}
use lbos.Process.Queue.{IsQueue}

-- The last five words that are pushed are read back.
push-load :
    (m : Ram) (a b c d e : ℕ)
    → let k =
        store32 (store32 (store32 (store32 (store32 m 4092 a) 4088 b) 4084 c) 4080 d) 4076 e in
      (load32 k 4076 ≡ u32 e)
      × (load32 k 4080 ≡ u32 d)
      × (load32 k 4084 ≡ u32 c)
      × (load32 k 4088 ≡ u32 b)
      × (load32 k 4092 ≡ u32 a)
unfolding load32 store32
push-load m a b c d e = (ground arith, ground arith, ground arith, ground arith, ground arith)

-- The fields of a stack state are 32-bit words, with a selector for user mode in CS.
pub record IsUserState (st : StackState) : Type 0 where
  pub eip : st.eip < 2 ^ 32
  pub cs : st.cs < 2 ^ 32
  pub eflags : st.eflags < 2 ^ 32
  pub esp : st.esp < 2 ^ 32
  pub ss : st.ss < 2 ^ 32
  pub user : st.cs % 4 ≡ 3

read_back : {m k : Ram} {v : ℕ} (a : ℕ) → m ≡ k → load32 k a ≡ u32 v → v < 2 ^ 32 → load32 m a ≡ v
read_back a e w h = ap (λ (r : Ram). load32 r a) e ∙ w ∙ omega arith

-- The frame that `push_iret_frame` leaves is the state that was pushed.
pub user_frame :
    (layout : Layout) (ss i : ℕ) (st : StackState) (p q : Process)
    → IsUserState st
    → q.kstack ≡ (push_iret_frame st p).kstack
    → q.context.reg.esp ≡ kstack_at layout i + process_kernel_stack_size - 20
    → iret_frame layout ss i q ≡ st
unfolding push_iret_frame
user_frame layout ss i st p q u stack esp =
    let (w0, w1, w2, w3, w4) = push-load p.kstack st.ss st.esp st.eflags st.cs st.eip in
    let at : q.context.reg.esp - kstack_at layout i ≡ 4076 = omega arith in
    let e0 : load32 q.kstack 4076 ≡ st.eip = read_back 4076 stack w0 u.eip in
    let e1 : load32 q.kstack 4080 ≡ st.cs = read_back 4080 stack w1 u.cs in
    let e2 : load32 q.kstack 4084 ≡ st.eflags = read_back 4084 stack w2 u.eflags in
    let e3 : load32 q.kstack 4088 ≡ st.esp = read_back 4088 stack w3 u.esp in
    let e4 : load32 q.kstack 4092 ≡ st.ss = read_back 4092 stack w4 u.ss in
    let user : (st.cs % 4 == 3) ≡ true = ground (arith, u.user) in
    rw (at, e0, e1, e2, e3, e4, user) refl

pub user_entry-IsUserState : IsUserState user_entry
user_entry-IsUserState = record {
  eip = omega arith;
  cs = omega arith;
  eflags = omega arith;
  esp = omega arith;
  ss = omega arith;
  user = refl;
}

-- What `finish_user` makes of the slot.
module _ (layout : Layout) where
  abbrev pub entering : ℕ → Process → Process
  entering i p =
      with_esp (kstack_at layout i + process_kernel_stack_size - 20)
        (push_iret_frame user_entry (with_stack user_entry p))

  abbrev pub queued : Option ℕ → Process → Process
  queued head p = record p { state = ready; next_in_ready_queue = head }

  pub at_finish_user :
      (s' : Processes) (i : ℕ) (p : Process)
      → get_elem? s'.process_table i ≡ some p
      → get_elem? (finish_user layout i s').process_table i
        ≡ some (queued s'.ready_queue_head (entering i p))
  unfolding finish_user enqueue
  at_finish_user s' i p at =
      get-update_self (update s'.process_table i (entering i)) i (queued s'.ready_queue_head)
        (get-update_self s'.process_table i (entering i) at)

module _ (layout : Layout) (ss : ℕ) (m : Mem) {s : Processes} {l : List ℕ} (v : IsQueue s l) where
  -- Where a process was made, it starts in the state `st`.
  data Enters (st : StackState) (r : Option ℕ × System) : Type 0 where
    failed : r.0 ≡ none → Enters st r
    made : (i : ℕ) → r.0 ≡ some i → (switch_to_process layout ss r.1.0 i).stack ≡ st → Enters st r
