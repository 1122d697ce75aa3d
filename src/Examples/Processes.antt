-- ===== src/Examples/Processes.antt =====
-- mem/process.c and the process calls of arch/x86/syscall.c on a table of five slots.
use lbos.Base.{ℕ, zero, suc, ◌+◌, ◌≡◌, ◌≢◌, refl, true, some, [], ◌∷◌, get_elem?}
use lbos.Interrupt.{no_handlers}
use lbos.Process.Data.{
  ready, running, terminated, null_process, Process, Processes, process_at,
  process_kernel_stack_size,
}
use lbos.Process.Create.{Layout, create_process, kstack_at}
use lbos.Process.Schedule.{schedule}
use lbos.Process.Queue.{IsQueue, nil, cons}
use lbos.Process.Queue
use lbos.Process.Make
use lbos.Kernel.{Kernel, switched}
use lbos.Syscall.Calls.{wait}
use lbos.Syscall.Fork.{fork}
use lbos.Syscall.Family
use lbos.Syscall.Child
use lbos.Process.Enter
use lbos.Process.Enter.{user_entry-IsUserState}
use lbos.Process.Create.{user_entry}
use lbos.Process.Data.{zero_context}
use lbos.Base.{List}
use lbos.Steps.Lost.{running-ne-free}
use lbos.Devices.Pit.{handle_tick}
use lbos.Steps.{tick, here}
use lbos.Steps.Lost.{ready-ne-running, terminated-ne-ready, free-ne-ready}
use lbos.Steps.Preempted
use lbos.Steps.Ready
use lbos.Steps.{spawn_user, user_process, next}
use lbos.Process.Data.{init_process_manager}
use lbos.Process.Slot.{state_of_some}
use mathlib.Core.Path.{◌∙◌, sym}
use lbos.Examples.Frames.{small}

abbrev parent : Process
parent = record null_process {
  pid = 1;
  state = running;
  context = record zero_context { stack = user_entry };
}

abbrev waiting : Process
waiting = record null_process { pid = 2; state = ready; next_in_ready_queue = some 2 }

abbrev child : Process
child = record null_process { pid = 3; state = terminated; parent_pid = 1 }

abbrev last : Process
last = record null_process { pid = 4; state = ready }

abbrev five : Processes
five = record {
  next_pid = 5;
  process_table = parent ∷ waiting ∷ last ∷ child ∷ null_process ∷ [];
  current_process = some 0;
  ready_queue_head = some 1;
}

five-IsQueue : IsQueue five (1 ∷ 2 ∷ [])
five-IsQueue = record {
  chain = cons waiting refl refl refl refl (cons last refl refl refl refl nil);
  complete = all;
}
  where
    all :
        (j : ℕ) (p : Process)
        → get_elem? five.process_table j ≡ some p
        → p.state ≡ ready
        → Queue.has j (1 ∷ 2 ∷ []) ≡ true
    all zero p at is = absurd (ready-ne-running (sym is ∙ sym (state_of_some at)))
    all (suc zero) p at is = refl
    all (suc (suc zero)) p at is = refl
    all (suc (suc (suc zero))) p at is = absurd (terminated-ne-ready (state_of_some at ∙ is))
    all (suc (suc (suc (suc zero)))) p at is = absurd (free-ne-ready (state_of_some at ∙ is))
    all (suc (suc (suc (suc (suc j))))) p at is = cc

abbrev layout : Layout
layout = record {
  kernel_page_directory = 0xc011_0000;
  process_table = 0xc011_8000;
  kernel_idle = 0xc010_0100;
}

abbrev kernel : Kernel
kernel = record {
  processes = five;
  mem = small;
  esp0 = 0;
  handlers = no_handlers;
  syscall_handlers = [];
  user_stores = [];
  ports = [];
}

schedule-head_example :
    let r = schedule layout (five, 0) in
    (r.0 ≡ some 1)
    × (r.1.0.current_process ≡ some 1)
    × ((process_at r.1.0 1).state ≡ running)
    × (r.1.1 ≡ kstack_at layout 1 + process_kernel_stack_size)
    × ((j : ℕ) → 1 ≢ j → process_at r.1.0 j ≡ process_at five j)
    × IsQueue r.1.0 (2 ∷ [])
schedule-head_example = Queue.schedule-head layout five 0 1 (2 ∷ []) five-IsQueue

create_process-Makes_example :
    Make.MakesIn five (1 ∷ 2 ∷ []) (create_process layout 0xc030_0000 100 (five, small))
create_process-Makes_example = Make.create_process-Makes layout small five-IsQueue 0xc030_0000 100

wait-Waits_example : Family.Waits 0x8000 1 kernel (wait 0x8000 kernel)
wait-Waits_example = Family.wait-Waits 0x8000 kernel 0 refl

tick-preempts_example : (handle_tick layout (handle_tick layout kernel).1).0 ≢ switched 0
tick-preempts_example =
    Preempted.tick-preempts layout 0 kernel five-IsQueue refl refl here (tick refl)

fork-Child_example : Child.Child layout 0x10 kernel five-IsQueue user_entry (fork layout kernel)
fork-Child_example =
    Child.fork-Child layout 0x10 kernel five-IsQueue 0 parent refl refl (λ e. running-ne-free e)
      user_entry-IsUserState

abbrev booted : Kernel
booted = record kernel { processes = init_process_manager five }

run-Queued_example : (l : List ℕ) × IsQueue (spawn_user layout 0xc030_0000 100 booted).processes l
run-Queued_example =
    Ready.run-Queued layout five booted (spawn_user layout 0xc030_0000 100 booted) refl
      (next here (user_process 0xc030_0000 100 refl))
