-- ===== src/Process/Data.antt =====
-- The structures of include/mem/process.h, and the functions of mem/process.c on the table alone.
use lbos.Base.{
  ℕ, zero, suc, ◌+◌, Bool, true, false, Option, none, some, List, [], ◌∷◌, ◌==◌, ◌&&◌, get_elem?,
  map, u32,
}
use lbos.Memory.{Ram, memset}

abbrev pub max_processes : ℕ
max_processes = 64

abbrev pub process_kernel_stack_size : ℕ
process_kernel_stack_size = 4096

pub data ProcessState : Type 0 where
  free ready running blocked terminated : ProcessState

pub record CpuState : Type 0 where
  pub edi : ℕ
  pub esi : ℕ
  pub ebp : ℕ
  pub edx : ℕ
  pub ecx : ℕ
  pub ebx : ℕ
  pub eax : ℕ
  pub esp : ℕ

pub record StackState : Type 0 where
  pub eip : ℕ
  pub cs : ℕ
  pub eflags : ℕ
  pub esp : ℕ
  pub ss : ℕ

pub record Context : Type 0 where
  pub reg : CpuState
  pub stack : StackState
  pub cr3 : ℕ

abbrev pub zero_context : Context
zero_context = record {
  reg = record { edi = 0; esi = 0; ebp = 0; edx = 0; ecx = 0; ebx = 0; eax = 0; esp = 0 };
  stack = record { eip = 0; cs = 0; eflags = 0; esp = 0; ss = 0 };
  cr3 = 0;
}

pub record Process : Type 0 where
  pub pid : ℕ
  pub state : ProcessState
  pub context : Context
  pub kstack : Ram
  pub next_in_ready_queue : Option ℕ
  pub parent_pid : ℕ
  pub exit_status : ℕ

pub record Processes : Type 0 where
  pub next_pid : ℕ
  pub process_table : List Process
  pub current_process : Option ℕ
  pub ready_queue_head : Option ℕ

abbrev pub is_free : ProcessState → Bool
is_free free = true
is_free other = false

abbrev pub is_terminated : ProcessState → Bool
is_terminated terminated = true
is_terminated other = false

-- `&process_table[i]` as an access: the process at an index, and the table with it changed.
abbrev pub update : List Process → ℕ → (Process → Process) → List Process
update [] i f = []
update (p ∷ table) zero f = f p ∷ table
update (p ∷ table) (suc i) f = p ∷ update table i f

abbrev pub null_process : Process
null_process = record {
  pid = 0;
  state = free;
  context = zero_context;
  kstack = λ a. 0;
  next_in_ready_queue = none;
  parent_pid = 0;
  exit_status = 0;
}

abbrev pub or_null : Option Process → Process
or_null none = null_process
or_null (some p) = p

-- Every index that the code uses lies in the table.
abbrev pub process_at : Processes → ℕ → Process
process_at s i = or_null (get_elem? s.process_table i)

-- A search of the table from index 0 on.
abbrev pub or_next : Bool → Option ℕ → Option ℕ
or_next true later = some 0
or_next false none = none
or_next false (some i) = some (suc i)

abbrev pub search_table : (Process → Bool) → List Process → Option ℕ
search_table test [] = none
search_table test (p ∷ table) = or_next (test p) (search_table test table)

-- The slot at `i` gets the next pid, and an empty context and stack; its state stays.
unfoldable pub claim_slot : Processes → ℕ → Processes
claim_slot s i = record s {
  next_pid = u32 (s.next_pid + 1);
  process_table = update s.process_table i (λ p. record p {
    pid = s.next_pid;
    context = zero_context;
    kstack = memset p.kstack 0 0xcd process_kernel_stack_size;
  });
}

abbrev pub claim : Processes → Option ℕ → Option (ℕ × ℕ) × Processes
claim s none = (none, s)
claim s (some i) = (some (i, s.next_pid), claim_slot s i)

unfoldable pub allocate_pcb_and_pid : Processes → Option (ℕ × ℕ) × Processes
unfolding claim_slot
allocate_pcb_and_pid s = claim s (search_table (λ p. is_free p.state) s.process_table)

unfoldable pub get_zombie_process_for_parent : Processes → ℕ → Option ℕ
get_zombie_process_for_parent s parent_pid =
    search_table (λ p. is_terminated p.state && p.parent_pid == parent_pid) s.process_table

unfoldable pub init_process_manager : Processes → Processes
init_process_manager s = record {
  next_pid = 1;
  process_table =
      map {A = Process} (λ p. record p { state = free; pid = 0; next_in_ready_queue = none })
        s.process_table;
  current_process = none;
  ready_queue_head = none;
}

-- `p->state = PROCESS_STATE_READY`, and `p` becomes the head of the ready queue.
unfoldable pub enqueue : Processes → ℕ → Processes
enqueue s i = record s {
  process_table =
      update s.process_table i
        (λ p. record p { state = ready; next_in_ready_queue = s.ready_queue_head });
  ready_queue_head = some i;
}

unfoldable pub set_state : Processes → ℕ → ProcessState → Processes
set_state s i state' = record s {
  process_table = update s.process_table i (λ p. record p { state = state' });
}
