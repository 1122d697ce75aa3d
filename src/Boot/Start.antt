-- ===== src/Boot/Start.antt =====
-- kmain.c with one boot module: the way from the parts being set up to the process that control goes to.
use lbos.Base.{
  ℕ, suc, ◌+◌, ◌*◌, ◌≡◌, ◌≢◌, refl, ap, ◌∙◌, sym, arith, true, false, Option, none, some, [], ◌==◌,
  ltb, bit_and, sub32, u32,
}
use mathlib.Core.Path.{subst}
use mathlib.Core.Option.{some-injective}
use lbos.Frames.{phys_to_virt}
use lbos.Process.Data.{Processes, running, process_at, init_process_manager}
use lbos.Process.Create.{Layout, System, create_process}
use lbos.Process.Queue.{IsQueue, schedule-head, schedule-none, queue-nil}
use lbos.Process.Slot.{Makes}
use lbos.Process.Make.{create_process-Makes}
use lbos.Process.Schedule.{schedule}
use lbos.Kernel.{Outcome, switched, halted}
use lbos.Steps.Ready.{init-IsQueue}
use lbos.Vfs.{Descriptor}
use lbos.Trap.{interrupt_init}
use lbos.Devices.Pit.{pit_init}
use lbos.Devices.Pic.{pic_init}
use lbos.Syscall.Table.{syscall_init}
use lbos.Frames.{init_page_frame_allocator}
use lbos.Boot.{
  Boot, KernelMeminfo, flags_at, mods_count_at, mods_addr_at, mod_start, mod_end, set_up,
  take_module, module_loop, take_modules, start, kmain, multiboot_info_mods,
  multiboot_bootloader_magic,
}

-- How the kernel goes on, where `made` tells which process was made of the first module.
pub data Starts (made : Option ℕ) (r : Option (Outcome × Boot)) : Type 0 where
  runs :
      (i : ℕ) (b : Boot)
      → made ≡ some i
      → r ≡ some (switched i, b)
      → b.kernel.processes.current_process ≡ some i
      → (process_at b.kernel.processes i).state ≡ running
      → IsQueue b.kernel.processes []
      → Starts made r
  halts :
      (b : Boot)
      → made ≡ none
      → r ≡ some (halted, b)
      → IsQueue b.kernel.processes []
      → Starts made r

module _ (layout : Layout) (buffer name tss temp_header temp_data : ℕ) (entry_of : ℕ → ℕ)
    (fd : Descriptor) (rounds : ℕ) where
  abbrev start' : Boot → Outcome × Boot
  start' = start layout buffer name tss temp_header temp_data entry_of fd rounds

  start-Starts :
      {s : Processes} (made : Option ℕ) (b : Boot)
      → Makes s b.kernel.processes [] made
      → Starts made (some (start' b))
  unfolding start
  start-Starts none b m =
      halts (start' b).1 refl
        (ap
          (λ (a : Option ℕ × (Processes × ℕ)).
            some (elim a.0 [ none ↦ halted | some i ↦ switched i ], (start' b).1))
          quiet)
        (rw quiet m.queue)
    where
      quiet :
          schedule layout (b.kernel.processes, b.kernel.esp0)
          ≡ (none, (b.kernel.processes, b.kernel.esp0))
      quiet = schedule-none layout b.kernel.processes b.kernel.esp0 (queue-nil m.queue)
  start-Starts (some i) b m =
      let (chosen, now, is, stack, others, left) =
        schedule-head layout b.kernel.processes b.kernel.esp0 i [] m.queue in
      runs i (start' b).1 refl
        (ap (λ (o : Option ℕ). some (elim o [ none ↦ halted | some j ↦ switched j ], (start' b).1))
          chosen)
        now is left

  abbrev set_up' : KernelMeminfo → Boot → Option Boot
  set_up' = set_up layout buffer name tss temp_header temp_data entry_of fd rounds

  -- `set_up` has a result: the division in `pit_init` is by a constant.
  set_up-some :
      (mem : KernelMeminfo) (b : Boot)
      → (b1 : Boot) × (set_up' mem b ≡ some b1)
        × (b1.kernel.processes ≡ init_process_manager b.kernel.processes)
  unfolding set_up interrupt_init pit_init pic_init syscall_init init_page_frame_allocator
  set_up-some mem b = (_, refl, refl)

  abbrev first_module : (mbinfo : ℕ) → Boot → ℕ
  first_module mbinfo b = phys_to_virt b.kernel.mem (mods_addr_at b mbinfo)

  abbrev create_at : (m : ℕ) → Boot → Option ℕ × System
  create_at m b =
      create_process layout (phys_to_virt b.kernel.mem (mod_start b m))
        (sub32 (mod_end b m) (mod_start b m)) (b.kernel.processes, b.kernel.mem)

  abbrev with_process : (m : ℕ) → Boot → Boot
  with_process m b =
      let (made, (s, mem)) = create_at m b in
      record b { kernel = record b.kernel { processes = s; mem = mem } }

  -- `create_process` for the first module of the list, in the state that it is taken up in.
  abbrev pub first_process : (mbinfo : ℕ) → Boot → Option ℕ × System
  first_process mbinfo b = create_at (first_module mbinfo b) b

  abbrev pub with_first_process : (mbinfo : ℕ) → Boot → Boot
  with_first_process mbinfo b = with_process (first_module mbinfo b) b

  take_first :
      (modules : ℕ) (b : Boot)
      → take_module layout buffer name tss temp_header temp_data entry_of fd rounds modules 0 b
        ≡ some (with_process modules b)
  unfolding take_module
  take_first modules b =
      let first : modules + 16 * 0 ≡ modules = omega arith in
      ap (λ (m : ℕ). some (with_process m b)) first

  abbrev loop : (mbinfo modules left i : ℕ) → Boot → Option Boot
  loop = module_loop layout buffer name tss temp_header temp_data entry_of fd rounds

  loop-next :
      (mbinfo modules left i : ℕ) (b b' : Boot)
      → ltb i (mods_count_at b mbinfo) ≡ true
      → take_module layout buffer name tss temp_header temp_data entry_of fd rounds modules i b
        ≡ some b'
      → loop mbinfo modules (suc left) i b ≡ loop mbinfo modules left (u32 (i + 1)) b'
  unfolding module_loop
  loop-next mbinfo modules left i b b' more taken = rw (more, taken) refl

  loop-end :
      (mbinfo modules left i : ℕ) (b : Boot)
      → ltb i (mods_count_at b mbinfo) ≡ false
      → loop mbinfo modules (suc left) i b ≡ some b
  unfolding module_loop
  loop-end mbinfo modules left i b ended = rw ended refl

  loop-one :
      (left mbinfo : ℕ) (b : Boot)
      → mods_count_at b mbinfo ≡ 1
      → mods_count_at (with_first_process mbinfo b) mbinfo ≡ 1
      → loop mbinfo (first_module mbinfo b) (suc (suc left)) 0 b
        ≡ some (with_first_process mbinfo b)
  loop-one left mbinfo b one still =
      loop-next mbinfo (first_module mbinfo b) (suc left) 0 b (with_first_process mbinfo b)
        (ap (ltb 0) one) (take_first (first_module mbinfo b) b)
      ∙ loop-end mbinfo (first_module mbinfo b) left 1 (with_first_process mbinfo b)
          (ap (ltb 1) still)

  take_modules-one :
      (left mbinfo : ℕ) (b : Boot)
      → rounds ≡ suc (suc left)
      → bit_and (flags_at b mbinfo) multiboot_info_mods ≢ 0
      → mods_count_at b mbinfo ≡ 1
      → mods_count_at (with_first_process mbinfo b) mbinfo ≡ 1
      → take_modules layout buffer name tss temp_header temp_data entry_of fd rounds mbinfo b
        ≡ some (with_first_process mbinfo b)
  take_modules-one left mbinfo b enough mods one still =
      let marked : (bit_and (flags_at b mbinfo) multiboot_info_mods == 0) ≡ false = ground arith in
      let listed : ltb 0 (mods_count_at b mbinfo) ≡ true = ap (ltb 0) one in
      rw (listed, marked)
        (ap (λ (r : ℕ). loop mbinfo (first_module mbinfo b) r 0 b) enough
          ∙ loop-one left mbinfo b one still)

  abbrev kmain' : (mbinfo magic_number : ℕ) → KernelMeminfo → Boot → Option (Outcome × Boot)
  kmain' = kmain layout buffer name tss temp_header temp_data entry_of fd rounds

  kmain-taken :
      (mbinfo magic_number : ℕ) (mem : KernelMeminfo) (b b1 b2 : Boot)
      → magic_number ≡ multiboot_bootloader_magic
      → set_up' mem b ≡ some b1
      → take_modules layout buffer name tss temp_header temp_data entry_of fd rounds mbinfo b1
        ≡ some b2
      → kmain' mbinfo magic_number mem b ≡ some (start' b2)
  unfolding kmain
  kmain-taken mbinfo magic_number mem b b1 b2 known up taken = rw (known, up, taken) refl

  set_up-IsQueue :
      (mem : KernelMeminfo) (b b1 : Boot) → set_up' mem b ≡ some b1 → IsQueue b1.kernel.processes []
  set_up-IsQueue mem b b1 up =
      let (b', up', cleared) = set_up-some mem b in
      let same : b' ≡ b1 = some-injective b' b1 (sym up' ∙ up) in
      subst (λ (x : Boot). IsQueue x.kernel.processes []) same
        (rw cleared (init-IsQueue b.kernel.processes))

  -- Where the boot loader gives its magic number and, after the parts are set up, the flag for modules and one
  -- module, whose count `create_process` does not overwrite, and the loop gets at least two rounds: `kmain` has a
  -- result. If `create_process` makes a process of that module, control goes to it: it is the current process, it
  -- runs, and the ready queue is empty. If it makes none, the kernel halts, and the ready queue is empty.
  pub kmain-Starts :
      (left mbinfo magic_number : ℕ) (mem : KernelMeminfo) (b b1 : Boot)
      → magic_number ≡ multiboot_bootloader_magic
      → rounds ≡ suc (suc left)
      → set_up' mem b ≡ some b1
      → bit_and (flags_at b1 mbinfo) multiboot_info_mods ≢ 0
      → mods_count_at b1 mbinfo ≡ 1
      → mods_count_at (with_first_process mbinfo b1) mbinfo ≡ 1
      → Starts (first_process mbinfo b1).0 (kmain' mbinfo magic_number mem b)
  kmain-Starts left mbinfo magic_number mem b b1 known enough up mods one still =
      let m = first_module mbinfo b1 in
      let taken = take_modules-one left mbinfo b1 enough mods one still in
      subst (Starts (first_process mbinfo b1).0)
        (sym
          (kmain-taken mbinfo magic_number mem b b1 (with_first_process mbinfo b1) known up taken))
        (start-Starts (first_process mbinfo b1).0 (with_first_process mbinfo b1) (
          create_process-Makes layout b1.kernel.mem (set_up-IsQueue mem b b1 up)
            (phys_to_virt b1.kernel.mem (mod_start b1 m)) (sub32 (mod_end b1 m) (mod_start b1 m))))
