-- ===== src/Examples/Forks.antt =====
-- A fork of a process with one page, in frame 4. Its directory, which is the kernel's, and the table lie in the frames 2
-- and 3, the bitmap in frame 1, and the frames from 5 on are free.
use lbos.Base.{
  ℕ, zero, suc, ◌+◌, ◌*◌, ◌/◌, ◌^◌, ◌≤◌, ◌<◌, ◌≡◌, ◌≢◌, refl, sym, ap, ◌∙◌, true, false, some, none,
  [], ◌∷◌, arith, ◌==◌, ◌&&◌, if◌then◌else◌, get_elem?,
}
use mathlib.Core.Path.{subst}
use native.Mathlib.Decide.{ℕ_discrete}
use lbos.Memory.{load32}
use lbos.Memory.Blocks.{IsBytes}
use lbos.Frames.{Mem, phys_to_virt, test_bit}
use lbos.Interrupt.{no_handlers}
use lbos.Paging.{is_present, pd_index, pt_index, page_of, kernel_virtual_start}
use lbos.Paging.Walk.{pde, pt_index_lem}
use lbos.Paging.Owned.{Owns}
use lbos.Paging.Room.{Room}
use lbos.Paging.Spare.{Spare}
use lbos.Paging.Isolated.{Isolated}
use lbos.Process.Data.{
  ready, running, null_process, zero_context, Process, allocate_pcb_and_pid, claim_slot,
}
use lbos.Process.Create.{Layout}
use lbos.Process.Queue.{has, IsQueue, nil}
use lbos.Process.Queue
use lbos.Process.Slot.{state_of_some}
use lbos.Kernel.{Kernel}
use lbos.Steps.Lost.{free-ne-ready, ready-ne-running, running-ne-free}
use lbos.Syscall.Fork.{fork}
use lbos.Syscall.Forked.{entry_of}
use lbos.Syscall.Forked
use lbos.Syscall.Copying.{count_pages, count_tables}
use lbos.Syscall.Copied.{count_tables-suc}
use lbos.Syscall.Doubles.{Doubles}
use lbos.Syscall.Doubled
use lbos.Examples.Directories.{with_bytes, two_parts, one_table-Owns}

abbrev mem : Mem
mem = with_bytes λ a.
    if a == 0xc000_1000
    then 0x1f
    else if a == 0xc000_2000
    then 7
    else if a == 0xc000_2001
    then 0x30
    else if a == 0xc000_3000
    then 7
    else if a == 0xc000_3001
    then 0x40
    else if a == 0xc000_4000
    then 0xeb
    else 0

bitmap : (j : ℕ) → test_bit mem j ≡ false → j ≢ 1
unfolding test_bit load32
bitmap j free_bit e =
    let used : test_bit mem 1 ≡ true = refl in
    let same : test_bit mem j ≡ test_bit mem 1 = ap (test_bit mem) e in
    cc (sym free_bit ∙ same ∙ used)

entries : (v : ℕ) → v < 2 ^ 32 → pde mem 0x2000 v ≡ (if pd_index v == 0 then 0x3007 else 0)
unfolding load32 phys_to_virt
entries v h = ground arith

words :
    (i : ℕ)
    → i < 1024
    → load32 mem.ram (phys_to_virt mem 0x3000 + 4 * i) ≡ (if i == 0 then 0x4007 else 0)
unfolding load32 phys_to_virt
words i h = ground arith

mem-Owns : Owns 8 mem 0x2000
unfolding test_bit load32
mem-Owns =
    one_table-Owns mem.ram bitmap 2 3 entries refl refl (omega arith) (omega arith) (omega arith)
      refl refl

mem-IsBytes : IsBytes mem.ram
mem-IsBytes b = ground arith

page_frame : Spare 8 mem 0x2000 4
unfolding test_bit load32
page_frame = record {
  below = omega arith;
  used = refl;
  other =
      two_parts mem.ram bitmap 2 3 entries refl refl (omega arith) (omega arith) (omega arith) refl
        refl (λ p. 4 * 4096 ≢ p) (omega arith) (omega arith);
  away = λ i lt. ground arith;
}

-- Page 0 is the only one.
other_pages : (q : ℕ) → q < 768 * 1024 → q ≢ 0 → Forked.has mem 0x2000 q ≡ false
other_pages q hq ne = elim (ℕ_discrete (q / 1024) 0) [
  | yes z ↦
      let index : pd_index (q * 4096) ≡ 0 = omega (arith, z) in
      let table : pde mem 0x2000 (q * 4096) ≡ 0x3007 =
        entries (q * 4096) (omega arith) ∙ rw index refl in
      let slot : pt_index (q * 4096) ≡ q = omega (arith, pt_index_lem (q * 4096), z) in
      let there : (q == 0) ≡ false = ground arith in
      let absent : load32 mem.ram (phys_to_virt mem 0x3000 + 4 * q) ≡ 0 =
        words q (omega (arith, z)) ∙ rw there refl in
      ap
        (λ (e : ℕ).
          is_present e
          && is_present (load32 mem.ram (phys_to_virt mem (page_of e) + 4 * pt_index (q * 4096))))
        table
      ∙ ap (λ (i : ℕ). is_present (load32 mem.ram (phys_to_virt mem 0x3000 + 4 * i))) slot
      ∙ ap is_present absent
  | no n ↦
      let index : (pd_index (q * 4096) == 0) ≡ false = ground arith in
      let gone : pde mem 0x2000 (q * 4096) ≡ 0 = entries (q * 4096) (omega arith) ∙ rw index refl in
      ap (λ (e : ℕ). is_present e && is_present (entry_of mem 0x2000 q)) gone
]

count_pages-none :
    (rounds n : ℕ) → n ≢ 0 → n + rounds ≤ 768 * 1024 → count_pages mem 0x2000 rounds n ≡ 0
unfolding count_pages
count_pages-none zero n ne le = refl
count_pages-none (suc rounds) n ne le =
    rw (other_pages n (omega arith) ne, count_pages-none rounds (n + 1) (omega arith) (omega arith))
      refl

count_tables-none :
    (rounds n : ℕ) → n ≢ 0 → n + rounds * 1024 ≤ 768 * 1024 → count_tables mem 0x2000 rounds n ≡ 0
unfolding count_tables
count_tables-none zero n ne le = refl
count_tables-none (suc rounds) n ne le =
    rw
      (
        count_pages-none 1024 n ne (omega arith),
        count_tables-none rounds (n + 1024) (omega arith) (omega arith),
      )
      refl

page_there : Forked.has mem 0x2000 0 ≡ true
unfolding load32 phys_to_virt
page_there = refl

count_pages-suc :
    (rounds n : ℕ)
    → count_pages mem 0x2000 (suc rounds) n
      ≡ (if Forked.has mem 0x2000 n then 1 else 0) + count_pages mem 0x2000 rounds (n + 1)
unfolding count_pages
count_pages-suc rounds n = refl

one_page : count_tables mem 0x2000 768 0 ≡ 1
one_page =
    count_tables-suc mem 0x2000 767 0
    ∙ rw
        (
          count_tables-none 767 1024 (omega arith) (omega arith),
          count_pages-suc 1023 0,
          page_there,
          count_pages-none 1023 1 (omega arith) (omega arith),
        )
        refl

free_frames : (j : ℕ) → 5 ≤ j → j < 8 → test_bit mem j ≡ false
unfolding test_bit load32
free_frames j lo hi = elim (ℕ_discrete 5 j) [
  | yes e ↦ subst (λ (i : ℕ). test_bit mem i ≡ false) e refl
  | no n ↦ elim (ℕ_discrete 6 j) [
    | yes e ↦ subst (λ (i : ℕ). test_bit mem i ≡ false) e refl
    | no n' ↦
        let last : 7 ≡ j = omega (arith, n, n') in
        subst (λ (i : ℕ). test_bit mem i ≡ false) last refl
  ]
]

three_frames : Room 8 mem 5 3
unfolding test_bit load32
three_frames = record {
  fits = omega arith;
  managed = omega arith;
  reserved = refl;
  free = λ j lo hi. free_frames j lo hi;
}

mem-Room : Room 8 mem 5 (1 + (count_tables mem 0x2000 768 0 * 2 + 0))
mem-Room = subst (λ (n : ℕ). Room 8 mem 5 (1 + (n * 2 + 0))) (sym one_page) three_frames

page_entry : entry_of mem 0x2000 0 ≡ 0x4007
unfolding load32 phys_to_virt
page_entry = refl

mem_sources :
    (q : ℕ)
    → q * 4096 < kernel_virtual_start
    → Forked.has mem 0x2000 q ≡ true
    → Spare 8 mem 0x2000 (page_of (entry_of mem 0x2000 q) / 4096)
mem_sources q hq is = elim (ℕ_discrete q 0) [
  | yes z ↦
      let at : page_of (entry_of mem 0x2000 q) / 4096 ≡ 4 =
        ap (λ (j : ℕ). page_of (entry_of mem 0x2000 j) / 4096) z
        ∙ ap (λ (e : ℕ). page_of e / 4096) page_entry in
      subst (Spare 8 mem 0x2000) (sym at) page_frame
  | no n ↦ absurd (let gone = other_pages q (omega arith) n in cc (sym gone ∙ is))
]

abbrev parent : Process
parent = record null_process {
  pid = 1;
  state = running;
  context = record zero_context { cr3 = 0x2000 };
}

abbrev kernel : Kernel
kernel = record {
  processes = record {
    next_pid = 2;
    process_table = parent ∷ null_process ∷ [];
    current_process = some 0;
    ready_queue_head = none;
  };
  mem = mem;
  esp0 = 0;
  handlers = no_handlers;
  syscall_handlers = [];
  user_stores = [];
  ports = [];
}

no-IsQueue : IsQueue kernel.processes []
no-IsQueue = record { chain = nil; complete = all }
  where
    all :
        (j : ℕ) (p : Process)
        → get_elem? kernel.processes.process_table j ≡ some p
        → p.state ≡ ready
        → Queue.has j [] ≡ true
    all zero p at is = absurd (ready-ne-running (sym is ∙ sym (state_of_some at)))
    all (suc zero) p at is = absurd (free-ne-ready (state_of_some at ∙ is))
    all (suc (suc j)) p at is = cc

abbrev layout : Layout
layout = record {
  kernel_page_directory = 0xc000_2000;
  process_table = 0xc011_8000;
  kernel_idle = 0xc010_0100;
}

fork-Doubles_example : Doubles 8 kernel 0x2000 0x2000 1 2 (fork layout kernel)
unfolding allocate_pcb_and_pid
fork-Doubles_example =
    Doubled.fork-Doubles layout kernel (claim_slot kernel.processes 1) parent 0x2000 5 0 0 1 2
      no-IsQueue refl refl refl running-ne-free mem-Owns mem-Owns mem-IsBytes refl mem_sources
      mem-Room

fork-Isolated_example : Isolated 8 mem (fork layout kernel).1.mem (λ p. ⊥) 0x2000
unfolding allocate_pcb_and_pid
fork-Isolated_example =
    Doubled.fork-Isolated layout kernel (claim_slot kernel.processes 1) parent 0x2000 5 0 0 1 2
      no-IsQueue refl refl refl running-ne-free mem-Owns mem-Owns mem-IsBytes refl mem_sources
      mem-Room 0x2000 mem-Owns
