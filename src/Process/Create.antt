-- ===== src/Process/Create.antt =====
-- `create_process` and `create_kernel_process`: a slot, a page directory, the pages of the module
-- and the first kernel stack.
use lbos.Base.{
  ℕ, zero, suc, ◌+◌, ◌-◌, ◌*◌, ◌/◌, Bool, true, false, Option, none, some, ◌==◌, ltb, if◌then◌else◌,
  bit_or, u32, sub32,
}
use lbos.Memory.{store32, memset, memcpy}
use lbos.Frames.{Mem, alloc_frame, phys_to_virt, virt_to_phys, frame_size}
use lbos.Paging.{create_page_directory, map_page, page_present, page_user, page_rw}
use lbos.Process.Data.{
  ProcessState, StackState, Process, Processes, process_kernel_stack_size, update,
  allocate_pcb_and_pid, enqueue, set_state,
}

abbrev pub kernel_cs_selector : ℕ
kernel_cs_selector = 0x08

abbrev pub kernel_eflags : ℕ
kernel_eflags = 0x202

abbrev pub user_cs_selector : ℕ
user_cs_selector = 0x1b

abbrev pub user_ds_selector : ℕ
user_ds_selector = 0x23

abbrev pub user_eflags : ℕ
user_eflags = 0x202

abbrev pub user_stack_top : ℕ
user_stack_top = 0xbfff_f000

abbrev pub user_code_start : ℕ
user_code_start = 0x0804_8000

-- Where the linker puts the static objects whose addresses the code uses.
pub record Layout : Type 0 where
  pub kernel_page_directory : ℕ
  pub process_table : ℕ
  pub kernel_idle : ℕ

-- The address of `process_table[i].kstack`: a `process_t` takes 4176 bytes, its stack starts at 64.
abbrev pub kstack_at : Layout → ℕ → ℕ
kstack_at layout i = layout.process_table + i * 4176 + 64

abbrev pub System : Type 0
System = Processes × Mem

-- The five pushes that `iret` to another privilege level takes back.
unfoldable pub push_iret_frame : StackState → Process → Process
push_iret_frame s p =
    let k1 = store32 p.kstack (process_kernel_stack_size - 4) s.ss in
    let k2 = store32 k1 (process_kernel_stack_size - 8) s.esp in
    let k3 = store32 k2 (process_kernel_stack_size - 12) s.eflags in
    let k4 = store32 k3 (process_kernel_stack_size - 16) s.cs in
    let k5 = store32 k4 (process_kernel_stack_size - 20) s.eip in record p { kstack = k5 }

-- `context.stack` and `context.cr3` of a process.
abbrev pub with_stack : StackState → Process → Process
with_stack s p = record p { context = record (p.context) { stack = s } }

abbrev pub with_cr3 : ℕ → Process → Process
with_cr3 cr3' p = record p { context = record (p.context) { cr3 = cr3' } }

abbrev pub with_esp : ℕ → Process → Process
with_esp esp' p = record p {
  context = record (p.context) { reg = record (p.context.reg) { esp = esp' } };
}

-- The part of page `i` that the module fills.
abbrev pub copy_size : ℕ → ℕ → ℕ
copy_size module_size offset =
    if ltb module_size (u32 (offset + frame_size)) then sub32 module_size offset else frame_size

-- The loop over the pages of the module; false where a frame could not be had.
unfoldable pub load_pages : (cr3 data_at module_size : ℕ) → ℕ → ℕ → ℕ → Mem → Bool × Mem
load_pages cr3 data_at module_size zero i vaddr m = (true, m)
load_pages cr3 data_at module_size (suc rounds) i vaddr m =
    let (frame_phys, m1) = alloc_frame m in
    let flags = bit_or (bit_or page_present page_user) page_rw in
    let m2 = map_page m1 cr3 vaddr frame_phys flags in
    let offset = u32 (i * frame_size) in
    let size = copy_size module_size offset in
    let frame_virt = phys_to_virt m2 frame_phys in
    let copied = memcpy m2.ram frame_virt (data_at + offset) size in
    let padded =
      if ltb size frame_size
      then memset copied (frame_virt + size) 0 (frame_size - size)
      else copied in
    let rest =
      load_pages cr3 data_at module_size rounds (i + 1) (u32 (vaddr + frame_size))
        (record m2 { ram = padded }) in
    if frame_phys == 0 then (false, m1) else rest

-- The state in which a user process first runs.
abbrev pub user_entry : StackState
user_entry = record {
  eip = user_code_start;
  cs = user_cs_selector;
  eflags = user_eflags;
  esp = user_stack_top;
  ss = user_ds_selector;
}

abbrev pub kernel_entry : ℕ → StackState
kernel_entry entry_point = record {
  eip = entry_point;
  cs = kernel_cs_selector;
  eflags = kernel_eflags;
  esp = 0;
  ss = 0;
}

-- A kernel process gets four words: its entry and, below it, the address of `kernel_idle`.
unfoldable pub push_kernel_frame : ℕ → StackState → Process → Process
push_kernel_frame idle s p =
    let k1 = store32 p.kstack (process_kernel_stack_size - 4) idle in
    let k2 = store32 k1 (process_kernel_stack_size - 8) s.eflags in
    let k3 = store32 k2 (process_kernel_stack_size - 12) s.cs in
    let k4 = store32 k3 (process_kernel_stack_size - 16) s.eip in record p { kstack = k4 }

module _ (layout : Layout) where
  -- The end of `create_process`, once the pages stand.
  unfoldable pub finish_user : ℕ → Processes → Processes
  unfolding push_iret_frame
  finish_user i s =
      let esp = kstack_at layout i + process_kernel_stack_size - 20 in
      enqueue
        (record s {
          process_table =
              update s.process_table i
                (λ p. with_esp esp (push_iret_frame user_entry (with_stack user_entry p)));
        })
        i

  -- `create_process` with what `allocate_pcb_and_pid` answered.
  unfoldable pub build_process : ℕ → ℕ → Mem → Option (ℕ × ℕ) × Processes → Option ℕ × System
  unfolding load_pages finish_user
  build_process module_data module_size m (none, s1) = (none, (s1, m))
  build_process module_data module_size m (some (i, new_pid), s1) =
      let (page_dir, m1) = create_page_directory layout.kernel_page_directory m in
      let cr3 = virt_to_phys m1 page_dir in
      let pages_needed = u32 (module_size + frame_size - 1) / frame_size in
      let (loaded, m2) = load_pages cr3 module_data module_size pages_needed 0 user_code_start m1 in
      let s2 = record s1 { process_table = update s1.process_table i (with_cr3 cr3) } in
      if page_dir == 0
      then (none, (set_state s1 i ProcessState.free, m1))
      else if loaded
      then (some i, (finish_user i s2, m2))
      else (none, (set_state s2 i ProcessState.free, m2))

  unfoldable pub create_process : ℕ → ℕ → System → Option ℕ × System
  unfolding build_process
  create_process module_data module_size (s, m) =
      build_process module_data module_size m (allocate_pcb_and_pid s)

  -- The end of `create_kernel_process`.
  unfoldable pub finish_kernel : ℕ → ℕ → Processes → Processes
  unfolding push_kernel_frame
  finish_kernel entry_point i s =
      let esp = kstack_at layout i + process_kernel_stack_size - 16 in
      let entry = kernel_entry entry_point in
      enqueue
        (record s {
          process_table =
              update s.process_table i (λ p.
                with_esp esp (push_kernel_frame layout.kernel_idle entry (with_stack entry p)));
        })
        i

  unfoldable pub build_kernel_process : ℕ → Mem → Option (ℕ × ℕ) × Processes → Option ℕ × System
  unfolding finish_kernel
  build_kernel_process entry_point m (none, s1) = (none, (s1, m))
  build_kernel_process entry_point m (some (i, new_pid), s1) =
      let (page_dir, m1) = create_page_directory layout.kernel_page_directory m in
      let cr3 = virt_to_phys m1 page_dir in
      let s2 = record s1 { process_table = update s1.process_table i (with_cr3 cr3) } in
      if page_dir == 0
      then (none, (set_state s1 i ProcessState.free, m1))
      else (some i, (finish_kernel entry_point i s2, m1))

  unfoldable pub create_kernel_process : ℕ → System → Option ℕ × System
  unfolding build_kernel_process
  create_kernel_process entry_point (s, m) =
      build_kernel_process entry_point m (allocate_pcb_and_pid s)
