-- ===== src/Boot.antt =====
-- kmain.c, with what it reads of include/multiboot.h: the kernel's parts are set up in order, the boot modules are taken
-- up, and control goes to a process. What is only logged is left out.
pub mod Listing
pub mod Start
use lbos.Base.{
  ℕ, zero, suc, ◌+◌, ◌*◌, not, Option, none, some, List, [], ◌∷◌, ◌&&◌, ◌==◌, ltb, leb,
  if◌then◌else◌, bit_and, u32, sub32,
}
use lbos.Memory.{write8, load32}
use lbos.Text.{Text, codes}
use lbos.Frames.{init_page_frame_allocator, phys_to_virt}
use lbos.Process.Data.{init_process_manager}
use lbos.Process.Create.{Layout, create_process}
use lbos.Process.Schedule.{schedule}
use lbos.Kernel.{Kernel, Outcome, switched, halted}
use lbos.Syscall.Table.{syscall_init}
use lbos.Descriptors.{GdtEntry, IdtGate, gdt_init, tss_init}
use lbos.Trap.{interrupt_init}
use lbos.Serial.{is_negative}
use lbos.Vfs.{Vfs, Descriptor, init_vfs, mount_fs}
use lbos.Vfs.Calls.{open_file, close_file, read_file, read_directory}
use lbos.Initrd.{Initrd, init_initrd, get_initrd_ops}

abbrev pub multiboot_bootloader_magic : ℕ
multiboot_bootloader_magic = 0x2badb002

abbrev pub multiboot_info_mods : ℕ
multiboot_info_mods = 0x8

-- `kernel_meminfo_t`
pub record KernelMeminfo : Type 0 where
  pub kernel_physical_start : ℕ
  pub kernel_physical_end : ℕ
  pub kernel_virtual_start : ℕ
  pub kernel_virtual_end : ℕ

-- The kernel with its descriptor tables and file systems. The memory is the one of `kernel`.
pub record Boot : Type 0 where
  pub kernel : Kernel
  pub gdt : List GdtEntry
  pub idt : List IdtGate
  pub vfs : Vfs Initrd
  pub fs : Initrd

abbrev pub files_of : Boot → Initrd
files_of b = record b.fs { ram = b.kernel.mem.ram }

abbrev pub with_files : Initrd → Boot → Boot
with_files r b =
    let m = record b.kernel.mem { ram = r.ram } in
    record b { fs = r; kernel = record b.kernel { mem = m } }

-- The fields of `multiboot_info_t` and `multiboot_module_t` at an address.
abbrev pub flags_at : Boot → ℕ → ℕ
flags_at b mbinfo = load32 b.kernel.mem.ram mbinfo

abbrev pub mods_count_at : Boot → ℕ → ℕ
mods_count_at b mbinfo = load32 b.kernel.mem.ram (mbinfo + 20)

abbrev pub mods_addr_at : Boot → ℕ → ℕ
mods_addr_at b mbinfo = load32 b.kernel.mem.ram (mbinfo + 24)

abbrev pub mod_start : Boot → ℕ → ℕ
mod_start b m = load32 b.kernel.mem.ram m

abbrev pub mod_end : Boot → ℕ → ℕ
mod_end b m = load32 b.kernel.mem.ram (m + 4)

abbrev pub mod_cmdline : Boot → ℕ → ℕ
mod_cmdline b m = load32 b.kernel.mem.ram (m + 8)

-- The addresses of `buffer` and `name` on the stack, of the task state and of the objects of `init_initrd`, the entry
-- points of interrupt_asm.s, a descriptor with what was on the stack before it, and the rounds that the loops get.
module _ (layout : Layout) (buffer name tss temp_header temp_data : ℕ) (entry_of : ℕ → ℕ)
    (fd : Descriptor) (rounds : ℕ) where
  abbrev pub close : Descriptor → Boot → Boot
  close fd' b = let (failed, fd'', r) = close_file b.vfs fd' (files_of b) in with_files r b

  unfoldable pub test_read_file : Text → Boot → Boot
  test_read_file path b =
      let (failed, fd1, r1) = open_file b.vfs path fd (files_of b) in
      let b1 = with_files r1 b in
      let (bytes_read, fd2, r2) = read_file b1.vfs buffer fd1.size fd1 (files_of b1) in
      let b2 = with_files r2 b1 in
      let ended = with_files (record r2 { ram = write8 r2.ram (buffer + bytes_read) 0 }) b2 in
      if not (failed == 0)
      then b1
      else if leb 512 fd1.size
      then close fd1 b1
      else if is_negative bytes_read
      then close fd2 b2
      else close fd2 ended

  -- `while (read_directory(&fd, name, sizeof(name)))`; none when the rounds run out.
  unfoldable pub list_loop : ℕ → Descriptor → Boot → Option (Descriptor × Boot)
  list_loop zero fd' b = none
  list_loop (suc left) fd' b =
      let (more, fd'', r) = read_directory b.vfs name 64 fd' (files_of b) in
      let rest = list_loop left fd'' (with_files r b) in
      if more == 0 then some (fd'', with_files r b) else rest

  abbrev pub close_listed : Option (Descriptor × Boot) → Option Boot
  close_listed none = none
  close_listed (some (fd', b)) = some (close fd' b)

  unfoldable pub test_list_directory : Boot → Option Boot
  test_list_directory b =
      let (failed, fd1, r1) = open_file b.vfs (codes "/") fd (files_of b) in
      let b1 = with_files r1 b in
      if not (failed == 0) then some b1 else close_listed (list_loop rounds fd1 b1)

  abbrev pub read_tests : Option Boot → Option Boot
  read_tests none = none
  read_tests (some b) = some (
      test_read_file (codes "/README.txt")
        (test_read_file (codes "/test.txt") (test_read_file (codes "/hello.txt") b)))

  -- A module with a command line, behind the first.
  unfoldable pub mount_initrd : (module_start_virt : ℕ) → Boot → Option Boot
  mount_initrd module_start_virt b =
      let b1 = with_files (init_initrd temp_header temp_data module_start_virt (files_of b)) b in
      let (failed, v) = mount_fs b1.vfs (codes "/") (codes "initrd") get_initrd_ops 0 in
      let b2 = record b1 { vfs = v } in
      if failed == 0 then read_tests (test_list_directory b2) else some b2

  -- The first module becomes a process.
  abbrev pub start_process : (module_start_virt module_size : ℕ) → Boot → Boot
  start_process module_start_virt module_size b =
      let k = b.kernel in
      let (made, (s, m)) =
        create_process layout module_start_virt module_size (k.processes, k.mem) in
      record b { kernel = record k { processes = s; mem = m } }

  unfoldable pub take_module : (modules i : ℕ) → Boot → Option Boot
  take_module modules i b =
      let m = modules + 16 * i in
      let module_size = sub32 (mod_end b m) (mod_start b m) in
      let module_start_virt = phys_to_virt b.kernel.mem (mod_start b m) in
      let mounted = mount_initrd module_start_virt b in
      if i == 0
      then some (start_process module_start_virt module_size b)
      else if mod_cmdline b m == 0
      then some b
      else mounted

  -- `for (i = 0; i < mbinfo->mods_count; i++)`, which reads the bound again in each round.
  unfoldable pub module_loop : (mbinfo modules : ℕ) → ℕ → ℕ → Boot → Option Boot
  module_loop mbinfo modules zero i b = none
  module_loop mbinfo modules (suc left) i b =
      let taken = take_module modules i b in
      let next : Boot → Option Boot = module_loop mbinfo modules left (u32 (i + 1)) in
      if ltb i (mods_count_at b mbinfo)
      then (elim taken [ none ↦ none | some b' ↦ next b' ])
      else some b

  -- From the frame allocator on, with what `interrupt_init` left.
  abbrev pub set_up_rest :
      KernelMeminfo → Boot → List GdtEntry → Option (Kernel × List IdtGate) → Option Boot
  set_up_rest mem b gdt1 none = none
  set_up_rest mem b gdt1 (some (k1, idt1)) =
      let k2 = syscall_init k1 in
      let (m3, handlers3) =
        init_page_frame_allocator mem.kernel_physical_start mem.kernel_physical_end
          mem.kernel_virtual_start mem.kernel_virtual_end (k2.mem, k2.handlers) in
      let k3 = record k2 {
        mem = m3;
        handlers = handlers3;
        processes = init_process_manager k2.processes;
      } in
      some (record b { kernel = k3; gdt = gdt1; idt = idt1; vfs = init_vfs b.vfs })

  -- The parts are set up; none is a division by zero in `pit_init`.
  unfoldable pub set_up : KernelMeminfo → Boot → Option Boot
  set_up mem b =
      let (ram1, gdt1) = tss_init tss b.kernel.mem.ram (gdt_init b.gdt) in
      let m1 = record b.kernel.mem { ram = ram1 } in
      let k1 = record b.kernel { mem = m1; esp0 = 0 } in
      set_up_rest mem b gdt1 (interrupt_init entry_of (k1, b.idt))

  abbrev pub take_modules : (mbinfo : ℕ) → Boot → Option Boot
  take_modules mbinfo b =
      let modules = phys_to_virt b.kernel.mem (mods_addr_at b mbinfo) in
      let taken = module_loop mbinfo modules rounds 0 b in
      if ltb 0 (mods_count_at b mbinfo)
        && not (bit_and (flags_at b mbinfo) multiboot_info_mods == 0)
      then taken
      else some b

  -- `schedule`, and the loop of `hlt` behind it.
  unfoldable pub start : Boot → Outcome × Boot
  start b =
      let (chosen, (s, esp0')) = schedule layout (b.kernel.processes, b.kernel.esp0) in
      let b' = record b { kernel = record b.kernel { processes = s; esp0 = esp0' } } in
      (elim chosen [ none ↦ halted | some i ↦ switched i ], b')

  unfoldable pub kmain : (mbinfo magic_number : ℕ) → KernelMeminfo → Boot → Option (Outcome × Boot)
  kmain mbinfo magic_number mem b =
      let after : Option Boot = elim (set_up mem b) [
        | none ↦ none
        | some b1 ↦ take_modules mbinfo b1
      ] in
      if not (magic_number == multiboot_bootloader_magic)
      then some (halted, b)
      else elim after [ none ↦ none | some b2 ↦ some (start b2) ]
