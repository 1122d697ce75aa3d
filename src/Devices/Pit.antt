-- ===== src/Devices/Pit.antt =====
-- arch/x86/pit.c: the timer and its interrupt handler.
use lbos.Base.{ℕ, ◌/◌, Option, none, some, ◌==◌, if◌then◌else◌, bit_or, u8, u16, ◌<<<◌, ◌>>>◌}
use lbos.Interrupt.{pit_handler, register_interrupt_handler}
use lbos.Process.Create.{Layout}
use lbos.Process.Schedule.{schedule}
use lbos.Kernel.{Kernel, Outcome, returned, outb}
use lbos.Syscall.Calls.{schedule_then}
use lbos.Devices.Pic.{pic_acknowledge}

abbrev pub pit_frequency : ℕ
pit_frequency = 1193182

abbrev pub pit_channel_0_data : ℕ
pit_channel_0_data = 0x40

abbrev pub pit_command : ℕ
pit_command = 0x43

abbrev pub pit_int_idx : ℕ
pit_int_idx = 0x20

-- The divider for an interval in milliseconds; `none` is a division by zero.
unfoldable pub pit_divider : ℕ → Option ℕ
pit_divider interval =
    let frequency = 1000 / interval in
    if interval == 0
    then none
    else if frequency == 0
    then none
    else some (u16 (pit_frequency / frequency))

unfoldable pub pit_set_interval : ℕ → Kernel → Option Kernel
unfolding pit_divider
pit_set_interval interval k = elim (pit_divider interval) [
  | none ↦ none
  | some divider ↦
      some (outb pit_channel_0_data (u8 (divider >>> 8)) (outb pit_channel_0_data (u8 divider) k))
]

unfoldable pub pit_init : Kernel → Option Kernel
unfolding pit_set_interval register_interrupt_handler
pit_init k =
    let command = bit_or (bit_or (bit_or (1 <<< 5) (1 <<< 4)) (1 <<< 2)) (1 <<< 1) in
    let k1 = outb pit_command (u8 command) k in
    let k2 = record k1 {
      handlers = (register_interrupt_handler k1.handlers pit_int_idx pit_handler).1;
    } in
    pit_set_interval 10 k2

-- The acknowledgement stands behind the call of `schedule`.
unfoldable pub handle_tick : Layout → Kernel → Outcome × Kernel
unfolding schedule pic_acknowledge
handle_tick layout = schedule_then layout (λ k. (returned 0, pic_acknowledge k))
