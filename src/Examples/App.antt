-- ===== src/Examples/App.antt =====
-- The program of app on a kernel with one process, which has no pages.
use lbos.Base.{◌≡◌, refl, none, some, [], ◌∷◌, replicate}
use lbos.Interrupt.{no_handlers}
use lbos.Process.Data.{zero_context, null_process, running}
use lbos.Kernel.{Kernel}
use lbos.Syscall.Calls
use lbos.Syscall.Fork
use lbos.Syscall.Table.{syscall_init, max_syscalls}
use lbos.App.{Program, spins, main}
use lbos.App.Runs.{Serves}
use lbos.App.Runs
use lbos.Process.Create.{Layout}
use lbos.Examples.Faults.{mem}

abbrev layout : Layout
layout = record {
  kernel_page_directory = 0xc011_0000;
  process_table = 0xc011_8000;
  kernel_idle = 0xc010_0100;
}

abbrev kernel : Kernel
kernel = syscall_init (record {
  processes = record {
    next_pid = 2;
    process_table = record null_process { pid = 1; state = running } ∷ null_process ∷ [];
    current_process = some 0;
    ready_queue_head = none;
  };
  mem = mem;
  esp0 = 0;
  handlers = no_handlers;
  syscall_handlers = replicate max_syscalls none;
  user_stores = [];
  ports = [];
})

abbrev program : Program
program = record {
  starting = 0x804_9000;
  fork_failed = 0x804_9020;
  hello_child = 0x804_9040;
  hello_parent = 0x804_9060;
  child_exited = 0x804_9080;
  wait_failed = 0x804_90a0;
  exiting = 0x804_90c0;
  status = 0xbfff_eff0;
}

kernel-Serves : Serves kernel
unfolding syscall_init
kernel-Serves = record { dispatch = refl; printf = refl; fork = refl; exit = refl; wait = refl }

main-spins_example :
    main layout zero_context.reg program kernel
    ≡ spins (Calls.wait 0xbfff_eff0 (Fork.fork layout kernel).1).1
main-spins_example = Runs.main-spins layout zero_context.reg program kernel kernel-Serves
