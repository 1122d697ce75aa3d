-- ===== src/Examples/Boot.antt =====
-- kmain.c: listing the root of an initrd with two files, one boot module, and a boot loader that does not know the
-- kernel.
use lbos.Base.{◌≡◌, refl, arith, none, some, [], ◌∷◌, ◌==◌, if◌then◌else◌}
use lbos.Memory.{load32, store32, memset}
use lbos.Interrupt.{no_handlers}
use lbos.Frames.{Mem}
use lbos.Process.Data.{Processes}
use lbos.Process.Create.{Layout, create_process}
use lbos.Kernel.{Kernel, halted}
use lbos.Vfs.{Descriptor, MountPoint, null_mount_point}
use lbos.Initrd.{Initrd, get_initrd_ops}
use lbos.Boot.{Boot, KernelMeminfo, set_up, kmain}
use lbos.Boot.Start.{Starts, kmain-Starts}
use lbos.Process.Data.{null_process, allocate_pcb_and_pid, init_process_manager}
use lbos.Trap.{interrupt_init}
use lbos.Syscall.Table.{syscall_init}
use lbos.Paging.{create_page_directory}
use lbos.Frames.{alloc_frame, init_page_frame_allocator, set_bit, test_bit}
use lbos.Descriptors.{tss_init}
use lbos.Boot.Listing

abbrev layout : Layout
layout = record {
  kernel_page_directory = 0xc011_0000;
  process_table = 0xc011_8000;
  kernel_idle = 0xc010_0100;
}

-- The header at 0x1000 counts two files.
abbrev memory : Mem
memory = record {
  ram = λ a. if a == 0x1004 then 2 else 0;
  frame_bitmap = 0xc020_0000;
  bitmap_size = 4096;
  total_frames = 16;
  kernel_physical_start = 0x10_0000;
  kernel_physical_end = 0x12_0000;
  kernel_virtual_start = 0xc010_0000;
  kernel_virtual_end = 0xc012_0000;
}

abbrev no_processes : Processes
no_processes = record {
  next_pid = 1;
  process_table = [];
  current_process = none;
  ready_queue_head = none;
}

abbrev kernel : Kernel
kernel = record {
  processes = no_processes;
  mem = memory;
  esp0 = 0;
  handlers = no_handlers;
  syscall_handlers = [];
  user_stores = [];
  ports = [];
}

abbrev initrd : Initrd
initrd = record { ram = memory.ram; initrd_header = 0x1000; initrd_data = 0x1c08; current_file = 0 }

abbrev mount_point : MountPoint Initrd
mount_point = record (null_mount_point {F = Initrd}) { ops = get_initrd_ops }

abbrev mounted : Boot
mounted = record {
  kernel = kernel;
  gdt = [];
  idt = [];
  vfs = record {
    mount_points = mount_point ∷ [];
    num_mount_points = 1;
    path_buffers = (47 ∷ []) ∷ [];
    device_buffers = [] ∷ [];
  };
  fs = initrd;
}

abbrev root : Descriptor
root = record { inode = 0xffff_ffff; position = 0; type = 1; size = 0; permissions = 1 }

abbrev meminfo : KernelMeminfo
meminfo = record {
  kernel_physical_start = 0x10_0000;
  kernel_physical_end = 0x12_0000;
  kernel_virtual_start = 0xc010_0000;
  kernel_virtual_end = 0xc012_0000;
}

wrong_magic :
    kmain layout 0x7000 0x7200 0x6000 0x5000 0x5800 (λ i. 0) root 0 0x9000 7 meminfo mounted
    ≡ some (halted, mounted)
unfolding kmain
wrong_magic = refl

-- One empty module, which the list at 0xa000 puts at the physical address 0xb000.
abbrev loaded : Boot
loaded = record mounted {
  kernel = record kernel {
    processes = record no_processes { process_table = null_process ∷ [] };
    mem = record memory {
      ram = λ a.
          if a == 0xc000_9000
          then 8
          else if a == 0xc000_9014
          then 1
          else if a == 0xc000_9019
          then 0xa0
          else if a == 0xc000_a001
          then 0xb0
          else if a == 0xc000_a005
          then 0xb0
          else 0;
    };
  };
}

abbrev low_kernel : KernelMeminfo
low_kernel = record {
  kernel_physical_start = 0;
  kernel_physical_end = 0;
  kernel_virtual_start = 0xc000_0000;
  kernel_virtual_end = 0xc000_0000;
}

kmain-Starts_example : Starts (some 0) (
    kmain layout 0x7000 0x7200 0x6000 0x5000 0x5800
      (λ i. 0)
      root
      2
      0xc000_9000
      0x2bad_b002
      low_kernel
      loaded)
unfolding set_up load32 interrupt_init create_process allocate_pcb_and_pid init_process_manager
    syscall_init create_page_directory alloc_frame init_page_frame_allocator set_bit test_bit
    store32 memset tss_init
kmain-Starts_example =
    kmain-Starts layout 0x7000 0x7200 0x6000 0x5000 0x5800 (λ i. 0) root 2 0 0xc000_9000 0x2bad_b002
      low_kernel loaded _ refl refl refl (omega arith) refl refl
