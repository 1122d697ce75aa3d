-- ===== src/Examples/Programs.antt =====
-- Loading a program of three bytes from frame 4: the kernel's directory and its table lie in the frames 2 and 3, the bitmap
-- in frame 1, and the frames from 5 on are free.
use lbos.Base.{
  ℕ, zero, suc, ◌-◌, ◌*◌, ◌/◌, ◌^◌, ◌≤◌, ◌<◌, ◌≡◌, ◌≢◌, refl, sym, ap, ◌∙◌, true, false, some, none,
  [], ◌∷◌, arith, ◌==◌, if◌then◌else◌, get_elem?,
}
use mathlib.Core.Path.{subst}
use native.Mathlib.Decide.{ℕ_discrete}
use lbos.Memory.{load32}
use lbos.Memory.Blocks.{IsBytes}
use lbos.Frames.{Mem, phys_to_virt, test_bit}
use lbos.Paging.{pd_index}
use lbos.Paging.Walk.{window, pde}
use lbos.Paging.Owned.{Owns}
use lbos.Paging.Room.{Room}
use lbos.Paging.Spare.{Spare}
use lbos.Process.Data.{ready, null_process, Process, Processes, allocate_pcb_and_pid, claim_slot}
use lbos.Process.Create.{Layout, create_process}
use lbos.Process.Queue.{has, IsQueue, nil}
use lbos.Process.Page.{IsSource}
use lbos.Process.Program.{Runs}
use lbos.Process.Program
use lbos.Paging.Isolated.{Isolated}
use lbos.Steps.Lost.{free-ne-ready}
use lbos.Process.Slot.{state_of_some}
use lbos.Examples.Directories.{with_bytes, two_parts, one_table-Owns}

abbrev mem : Mem
mem = with_bytes λ a.
    if a == 0xc000_1000
    then 0x1f
    else if a == 0xc000_2000
    then 7
    else if a == 0xc000_2001
    then 0x30
    else if a == 0xc000_4000
    then 0xeb
    else if a == 0xc000_4001
    then 0xfe
    else 0

bitmap : (j : ℕ) → test_bit mem j ≡ false → j ≢ 1
unfolding test_bit load32
bitmap j free e =
    let used : test_bit mem 1 ≡ true = refl in
    let same : test_bit mem j ≡ test_bit mem 1 = ap (test_bit mem) e in cc (sym free ∙ same ∙ used)

entries : (v : ℕ) → v < 2 ^ 32 → pde mem 0x2000 v ≡ (if pd_index v == 0 then 0x3007 else 0)
unfolding load32 phys_to_virt
entries v h = ground arith

mem-Owns : Owns 8 mem 0x2000
unfolding test_bit load32
mem-Owns =
    one_table-Owns mem.ram bitmap 2 3 entries refl refl (omega arith) (omega arith) (omega arith)
      refl refl

mem-IsBytes : IsBytes mem.ram
mem-IsBytes b = ground arith

module_frame : Spare 8 mem 0x2000 4
unfolding test_bit load32
module_frame = record {
  below = omega arith;
  used = refl;
  other =
      two_parts mem.ram bitmap 2 3 entries refl refl (omega arith) (omega arith) (omega arith) refl
        refl (λ p. 4 * 4096 ≢ p) (omega arith) (omega arith);
  away = λ i lt. ground arith;
}

module-IsSource : IsSource 8 mem 0x2000 0xc000_4000 3
module-IsSource b lo hi = (
  omega arith,
  mem-IsBytes b,
  (let frame : (b - window) / 4096 ≡ 4 = omega arith in
      subst (Spare 8 mem 0x2000) (sym frame) module_frame),
)

free_frames : (j : ℕ) → 5 ≤ j → j < 8 → test_bit mem j ≡ false
unfolding test_bit load32
free_frames j lo hi = elim (ℕ_discrete 5 j) [
  | yes e ↦ subst (λ (i : ℕ). test_bit mem i ≡ false) e refl
  | no n ↦ elim (ℕ_discrete 6 j) [
    | yes e ↦ subst (λ (i : ℕ). test_bit mem i ≡ false) e refl
    | no n' ↦
        let last : 7 ≡ j = omega (arith, n, n') in
        subst (λ (i : ℕ). test_bit mem i ≡ false) last refl
  ]
]

mem-Room : Room 8 mem 5 3
unfolding test_bit load32
mem-Room = record {
  fits = omega arith;
  managed = omega arith;
  reserved = refl;
  free = λ j lo hi. free_frames j lo hi;
}

abbrev layout : Layout
layout = record {
  kernel_page_directory = 0xc000_2000;
  process_table = 0xc011_8000;
  kernel_idle = 0xc010_0100;
}

abbrev empty : Processes
empty = record {
  next_pid = 1;
  process_table = null_process ∷ [];
  current_process = none;
  ready_queue_head = none;
}

empty-IsQueue : IsQueue empty []
empty-IsQueue = record { chain = nil; complete = λ j p at is. one j p at is }
  where
    one :
        (j : ℕ) (p : Process)
        → get_elem? empty.process_table j ≡ some p
        → p.state ≡ ready
        → has j [] ≡ true
    one zero p at is = absurd (free-ne-ready (state_of_some at ∙ is))
    one (suc j) p at is = cc

create_process-Runs_example :
    Runs 8 mem 0x2000 0xc000_4000 3 0 (create_process layout 0xc000_4000 3 (empty, mem))
unfolding allocate_pcb_and_pid
create_process-Runs_example =
    Program.create_process-Runs layout empty (claim_slot empty 0) mem 0x2000 0xc000_4000 3 5 0 0 1
      empty-IsQueue refl mem-Owns mem-IsBytes refl (omega arith) module-IsSource mem-Room

-- The kernel's own directory is one of them.
create_process-Isolated_example :
    Isolated 8 mem (create_process layout 0xc000_4000 3 (empty, mem)).1.1 (λ p. ⊥) 0x2000
unfolding allocate_pcb_and_pid
create_process-Isolated_example =
    Program.create_process-Isolated layout empty (claim_slot empty 0) mem 0x2000 0xc000_4000 3 5 0 0
      1 empty-IsQueue refl mem-Owns mem-IsBytes refl (omega arith) module-IsSource mem-Room 0x2000
      mem-Owns
