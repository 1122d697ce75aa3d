-- ===== src/Syscall/Fork.antt =====
-- `sys_fork`: the child gets a copy of every user page that is present.
use lbos.Base.{
  ℕ, zero, suc, ◌+◌, ◌-◌, ◌*◌, ◌/◌, Bool, true, false, Option, none, some, ◌==◌, if◌then◌else◌,
  bit_and, bit_or, ◌<<<◌,
}
use lbos.Memory.{load32, memcpy}
use lbos.Frames.{Mem, alloc_frame, phys_to_virt, virt_to_phys, frame_size}
use lbos.Paging.{create_page_directory, map_page, is_present, page_of, kernel_virtual_start}
use lbos.Process.Data.{
  ProcessState, Process, Processes, process_at, process_kernel_stack_size, update,
  allocate_pcb_and_pid, enqueue, set_state,
}
use lbos.Process.Create.{Layout, kstack_at, push_iret_frame}
use lbos.Kernel.{Kernel, Outcome, returned, minus_one, on_current}

-- The copy of one page: a new frame with the contents of the old one, mapped with the flags that the parent's entry
-- has then.
unfoldable pub fork_page : (child_cr3 virt_addr entry_at entry : ℕ) → Mem → Bool × Mem
fork_page child_cr3 virt_addr entry_at entry m =
    let (child_frame, m1) = alloc_frame m in
    let copied =
      memcpy m1.ram (phys_to_virt m1 child_frame) (phys_to_virt m1 (page_of entry)) frame_size in
    let flags = bit_and (load32 copied entry_at) 0xfff in
    if child_frame == 0
    then (false, m1)
    else (true, map_page (record m1 { ram = copied }) child_cr3 virt_addr child_frame flags)

-- The entries of one page table from `pte_idx` on.
unfoldable pub fork_table : (child_cr3 parent_page_table pde_idx : ℕ) → ℕ → ℕ → Mem → Bool × Mem
unfolding fork_page
fork_table child_cr3 parent_page_table pde_idx zero pte_idx m = (true, m)
fork_table child_cr3 parent_page_table pde_idx (suc rounds) pte_idx m =
    let entry_at = parent_page_table + 4 * pte_idx in
    let entry = load32 m.ram entry_at in
    let virt_addr = bit_or (pde_idx <<< 22) (pte_idx <<< 12) in
    let (copied, m1) : Bool × Mem =
      if is_present entry then fork_page child_cr3 virt_addr entry_at entry m else (true, m) in
    let rest = fork_table child_cr3 parent_page_table pde_idx rounds (pte_idx + 1) m1 in
    if copied then rest else (false, m1)

-- The tables of the parent's directory from `pde_idx` on.
unfoldable pub fork_directory : (child_cr3 parent_page_dir : ℕ) → ℕ → ℕ → Mem → Bool × Mem
fork_directory child_cr3 parent_page_dir zero pde_idx m = (true, m)
fork_directory child_cr3 parent_page_dir (suc rounds) pde_idx m =
    let entry = load32 m.ram (parent_page_dir + 4 * pde_idx) in
    let table = phys_to_virt m (page_of entry) in
    let (copied, m1) : Bool × Mem =
      if is_present entry then fork_table child_cr3 table pde_idx 1024 0 m else (true, m) in
    let rest = fork_directory child_cr3 parent_page_dir rounds (pde_idx + 1) m1 in
    if copied then rest else (false, m1)

-- What the child takes over from the parent at once.
abbrev pub inherit : Process → ℕ → Process → Process
inherit parent cr3' child = record child {
  parent_pid = parent.pid;
  context = record { reg = parent.context.reg; stack = parent.context.stack; cr3 = cr3' };
}

-- The child's first kernel stack and its registers.
abbrev pub entered : Layout → ℕ → Process → Process
entered layout i p =
    let pushed = push_iret_frame p.context.stack p in
    let reg' = record (p.context.reg) {
      eax = 0;
      esp = kstack_at layout i + process_kernel_stack_size - 20;
    } in
    record pushed { context = record (p.context) { reg = reg' } }

-- `sys_fork` with what `allocate_pcb_and_pid` answered; `c` is the current process.
unfoldable pub fork_into : Layout → ℕ → Kernel → Option (ℕ × ℕ) × Processes → Outcome × Kernel
unfolding push_iret_frame
fork_into layout c k (none, s1) = (returned minus_one, record k { processes = s1 })
fork_into layout c k (some (i, new_pid), s1) =
    let parent = process_at s1 c in
    let (page_dir, m1) = create_page_directory layout.kernel_page_directory k.mem in
    let cr3 = virt_to_phys m1 page_dir in
    let (copied, m2) =
      fork_directory cr3 (phys_to_virt m1 parent.context.cr3) (kernel_virtual_start / 0x40_0000) 0
        m1 in
    let named = record s1 {
      process_table = update s1.process_table i (λ p. record p { parent_pid = parent.pid });
    } in
    let s2 = record s1 { process_table = update s1.process_table i (inherit parent cr3) } in
    let s3 = record s2 { process_table = update s2.process_table i (entered layout i) } in
    if page_dir == 0
    then (
      returned minus_one,
      record k { processes = set_state named i ProcessState.free; mem = m1 },
    )
    else if copied
    then (returned new_pid, record k { processes = enqueue s3 i; mem = m2 })
    else (returned minus_one, record k { processes = set_state s2 i ProcessState.free; mem = m2 })

unfoldable pub fork : Layout → Kernel → Outcome × Kernel
unfolding fork_into
fork layout k =
    on_current k (λ c. fork_into layout c k (allocate_pcb_and_pid k.processes))
      k.processes.current_process
