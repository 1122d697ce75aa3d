-- ===== src/Interrupt.antt =====
-- arch/x86/interrupt.c: the table of C interrupt handlers and its dispatch.
use lbos.Base.{
  ℕ, Bool, true, false, Option, none, some, List, ◌||◌, leb, if◌then◌else◌, get_elem?, set,
  replicate,
}

-- The functions that the kernel installs.
pub data Handler : Type 0 where
  page_fault_handler syscall_interrupt_handler pit_handler general_protection_fault_handler :
      Handler

abbrev pub idt_num_entries : ℕ
idt_num_entries = 256

abbrev pub Handlers : Type 0
Handlers = List (Option Handler)

-- A `static` table starts out zeroed.
abbrev pub no_handlers : Handlers
no_handlers = replicate idt_num_entries none

abbrev pub handler_at : Handlers → ℕ → Option Handler
handler_at t i = elim (get_elem? t i) [ none ↦ none | some h ↦ h ]

abbrev pub is_some {ℓ} : {A : Type ℓ} → Option A → Bool
is_some none = false
is_some (some a) = true

unfoldable pub register_interrupt_handler : Handlers → ℕ → Handler → ℕ × Handlers
register_interrupt_handler t interrupt handler =
    if leb idt_num_entries interrupt || is_some (handler_at t interrupt)
    then (1, t)
    else (0, set t interrupt (some handler))
