-- ===== src/Descriptors.antt =====
-- arch/x86/gdt.c, arch/x86/idt.c and arch/x86/tss.c: the tables of segment descriptors and of interrupt
-- gates, and the task state segment in memory. What is only logged is left out.
pub mod Fields
use lbos.Base.{
  ℕ, zero, suc, ◌+◌, List, [], ◌∷◌, bit_and, bit_or, set, replicate, u8, u16, ◌<<<◌, ◌>>>◌,
}
use lbos.Memory.{Ram, write8, store32, memset}

-- `gdt_entry_t`
pub record GdtEntry : Type 0 where
  pub limit_low : ℕ
  pub base_low : ℕ
  pub base_middle : ℕ
  pub access : ℕ
  pub granularity : ℕ
  pub base_high : ℕ

abbrev pub null_entry : GdtEntry
null_entry = record {
  limit_low = 0;
  base_low = 0;
  base_middle = 0;
  access = 0;
  granularity = 0;
  base_high = 0;
}

abbrev pub encode : (base limit access gran : ℕ) → GdtEntry
encode base limit access gran = record {
  limit_low = bit_and limit 0xffff;
  base_low = bit_and base 0xffff;
  base_middle = bit_and (base >>> 16) 0xff;
  access = access;
  granularity = bit_or (bit_and (limit >>> 16) 0x0f) (bit_and gran 0xf0);
  base_high = bit_and (base >>> 24) 0xff;
}

unfoldable pub gdt_set_gate : List GdtEntry → (num base limit access gran : ℕ) → List GdtEntry
gdt_set_gate gdt_entries num base limit access gran =
    set gdt_entries num (encode base limit access gran)

-- The five segments; the sixth entry is for the task state.
unfoldable pub gdt_init : List GdtEntry → List GdtEntry
unfolding gdt_set_gate
gdt_init t =
    let code = bit_or (bit_or (bit_or (bit_or 0x80 0x00) 0x18) 0x08) 0x02 in
    let data_segment = bit_or (bit_or (bit_or 0x80 0x00) 0x10) 0x02 in
    let user_code = bit_or (bit_or (bit_or (bit_or 0x80 0x60) 0x18) 0x08) 0x02 in
    let user_data = bit_or (bit_or (bit_or 0x80 0x60) 0x10) 0x02 in
    let gran = bit_or 0x80 0x40 in
    let t1 = gdt_set_gate t 0 0 0 0 0 in
    let t2 = gdt_set_gate t1 1 0 0xffff_ffff code gran in
    let t3 = gdt_set_gate t2 2 0 0xffff_ffff data_segment gran in
    let t4 = gdt_set_gate t3 3 0 0xffff_ffff user_code gran in
    gdt_set_gate t4 4 0 0xffff_ffff user_data gran

abbrev pub tss_size : ℕ
tss_size = 104

-- The task state stands at the address `tss`.
unfoldable pub tss_init : (tss : ℕ) → Ram → List GdtEntry → Ram × List GdtEntry
unfolding gdt_set_gate memset store32 write8
tss_init tss m gdt_entries =
    let m1 = memset m tss 0 tss_size in
    let m2 = store32 m1 (tss + 8) 0x10 in
    let m3 = store32 m2 (tss + 4) 0 in
    let m4 = write8 (write8 m3 (tss + 102) tss_size) (tss + 103) 0 in
    (m4, gdt_set_gate gdt_entries 5 tss 103 0x89 0x00)

unfoldable pub tss_set_kernel_stack : (tss stack : ℕ) → Ram → Ram
unfolding store32
tss_set_kernel_stack tss stack m = store32 m (tss + 4) stack

-- `idt_gate_t`
pub record IdtGate : Type 0 where
  pub handler_low : ℕ
  pub segsel : ℕ
  pub zero_byte : ℕ
  pub config : ℕ
  pub handler_high : ℕ

abbrev pub segsel_kernel_cs : ℕ
segsel_kernel_cs = 0x08

abbrev pub idt_trap_gate_type : ℕ
idt_trap_gate_type = 1

abbrev pub gate_config : (type' pl : ℕ) → ℕ
gate_config type' pl = u8 (
    bit_or
      (bit_or (bit_or (bit_or (bit_or (1 <<< 7) (bit_and pl 0x03 <<< 5)) (1 <<< 3)) (1 <<< 2))
        (1 <<< 1))
      type')

abbrev pub gate : (handler type' pl : ℕ) → IdtGate
gate handler type' pl = record {
  handler_low = bit_and handler 0xffff;
  segsel = segsel_kernel_cs;
  zero_byte = 0;
  config = gate_config type' pl;
  handler_high = bit_and (handler >>> 16) 0xffff;
}

unfoldable pub create_idt_gate : List IdtGate → (n handler type' pl : ℕ) → List IdtGate
create_idt_gate idt n handler type' pl = set idt n (gate handler type' pl)

-- The gates from `i` on, with the entry points that interrupt_asm.s defines.
unfoldable pub create_gates : (entry_of : ℕ → ℕ) → ℕ → ℕ → List IdtGate → List IdtGate
unfolding create_idt_gate
create_gates entry_of zero i idt = idt
create_gates entry_of (suc rounds) i idt =
    create_gates entry_of rounds (i + 1) (create_idt_gate idt i (entry_of i) idt_trap_gate_type 0)

unfoldable pub idt_init : (entry_of : ℕ → ℕ) → List IdtGate → List IdtGate
unfolding create_gates
idt_init entry_of idt =
    create_idt_gate (create_gates entry_of 48 0 idt) 0x80 (entry_of 0x80) idt_trap_gate_type 3
