-- ===== src/Examples/Faults.antt =====
-- Page faults with two directories, in the frames 2 and 5, which have one table each, in the frames 3 and 6. The
-- bitmap lies in frame 1.
use lbos.Base.{
  ℕ, ◌^◌, ◌<◌, ◌≡◌, ◌≢◌, refl, sym, ap, ◌∙◌, true, false, none, some, [], ◌∷◌, arith, ◌==◌,
  if◌then◌else◌,
}
use mathlib.Core.Path.{subst}
use mathlib.Core.Option.{some-injective}
use lbos.Memory.{load32, store32}
use lbos.Interrupt.{no_handlers}
use lbos.Frames.{Mem, phys_to_virt, test_bit, set_bit, alloc_frame}
use lbos.Paging.{create_page_directory, map_page, pd_index}
use lbos.Paging.Walk.{pde}
use lbos.Paging.Owned.{Part, Owns}
use lbos.Process.Data.{Process, running, null_process, zero_context}
use lbos.Kernel.{Kernel}
use lbos.Examples.Directories.{with_bytes, two_parts, one_table-Owns}
use lbos.Fault.{handle_page_fault}
use lbos.Fault.Handle.{Handles}
use lbos.Fault.Handle
use lbos.Paging.Isolated.{Isolated}
use lbos.Fault.Isolate
use lbos.Paging.Mapped.{Written, directory}
use lbos.Paging.Mapped.{Maps}
use lbos.Paging.Mapped
use lbos.Paging.Created.{Creates}
use lbos.Paging.Created
use lbos.Memory.Blocks.{IsBytes}

abbrev pub mem : Mem
mem = with_bytes λ a.
    if a == 0xc000_1000
    then 0x6f
    else if a == 0xc000_2000
    then 7
    else if a == 0xc000_2001
    then 0x30
    else if a == 0xc000_5000
    then 7
    else if a == 0xc000_5001
    then 0x60
    else 0

free-ne-one : (j : ℕ) → test_bit mem j ≡ false → j ≢ 1
unfolding test_bit load32
free-ne-one j free e =
    let used : test_bit mem 1 ≡ true = refl in
    let same : test_bit mem j ≡ test_bit mem 1 = ap (test_bit mem) e in cc (sym free ∙ same ∙ used)

entries_2 : (v : ℕ) → v < 2 ^ 32 → pde mem 0x2000 v ≡ (if pd_index v == 0 then 0x3007 else 0)
unfolding load32 phys_to_virt
entries_2 v h = ground arith

entries_5 : (v : ℕ) → v < 2 ^ 32 → pde mem 0x5000 v ≡ (if pd_index v == 0 then 0x6007 else 0)
unfolding load32 phys_to_virt
entries_5 v h = ground arith

mem-Owns : Owns 8 mem 0x2000
unfolding test_bit load32
mem-Owns =
    one_table-Owns mem.ram free-ne-one 2 3 entries_2 refl refl (omega arith) (omega arith)
      (omega arith) refl refl

other-Owns : Owns 8 mem 0x5000
unfolding test_bit load32
other-Owns =
    one_table-Owns mem.ram free-ne-one 5 6 entries_5 refl refl (omega arith) (omega arith)
      (omega arith) refl refl

other_parts {ℓ} : (P : ℕ → Type ℓ) → P 0x5000 → P 0x6000 → (p : ℕ) → Part mem 0x5000 p → P p
unfolding test_bit load32
other_parts P a b =
    two_parts mem.ram free-ne-one 5 6 entries_5 refl refl (omega arith) (omega arith) (omega arith)
      refl refl P a b

-- The address lies in a part of the directory that has no table, which frame 4 becomes.
map_page-Maps_example :
    Maps 8 mem 0x2000 0x4000_0000 0x7000 (map_page mem 0x2000 0x4000_0000 0x7000 7)
unfolding alloc_frame test_bit load32
map_page-Maps_example =
    Mapped.map_page-Maps mem-Owns 0x4000_0000 0x7000 7 (omega arith) (omega arith) (omega arith)
      refl (omega arith) refl

abbrev faulting : Process
faulting = record null_process {
  pid = 1;
  state = running;
  context = record zero_context { cr3 = 0x2000 };
}

abbrev kernel : Kernel
kernel = record {
  processes = record {
    next_pid = 2;
    process_table = faulting ∷ [];
    current_process = some 0;
    ready_queue_head = none;
  };
  mem = mem;
  esp0 = 0;
  handlers = no_handlers;
  syscall_handlers = [];
  user_stores = [];
  ports = [];
}

-- A read of the page at 0x4000_0000 by user code.
handle_page_fault-Handles_example :
    Handles 8 0x4000_0123 4 kernel (handle_page_fault 0x4000_0123 4 kernel)
unfolding alloc_frame test_bit load32 set_bit store32
handle_page_fault-Handles_example =
    Handle.handle_page_fault-Handles 0x4000_0123 4 kernel (omega arith) (omega arith) (omega arith)
      (λ p e.
        subst (λ (q : Process). Owns 8 mem q.context.cr3) (some-injective faulting p e) mem-Owns)

not-Written : (q : ℕ) → q ≢ 0x2000 → ¬ Written mem 0x2000 0x4000_0123 q
not-Written q ne (directory e) = ne e
not-Written q ne (Written.table here e) =
    let none_there = entries_2 0x4000_0123 (omega arith) in cc here

handle_page_fault-Isolated_example :
    Isolated 8 mem
      (handle_page_fault 0x4000_0123 4 kernel).1.mem
      (Written mem 0x2000 0x4000_0123)
      0x5000
unfolding alloc_frame test_bit load32 set_bit store32
handle_page_fault-Isolated_example =
    Isolate.handle_page_fault-Isolated 0x4000_0123 4 kernel faulting 0x5000 (omega arith)
      (omega arith) (omega arith) refl mem-Owns other-Owns
      (other_parts (λ q. ¬ Written mem 0x2000 0x4000_0123 q) (not-Written 0x5000 (omega arith))
        (not-Written 0x6000 (omega arith)))

mem-IsBytes : IsBytes mem.ram
mem-IsBytes b = ground arith

create_page_directory-Creates_example : Creates 8 mem 0x2000 (create_page_directory 0xc000_2000 mem)
unfolding alloc_frame test_bit load32
create_page_directory-Creates_example =
    Created.create_page_directory-Creates mem-Owns mem-IsBytes 0xc000_2000 refl (omega arith)
