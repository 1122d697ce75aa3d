-- ===== src/Examples/Descriptors.antt =====
-- arch/x86/gdt.c and arch/x86/idt.c: the task state's descriptor, and the gate of the system call.
use lbos.Base.{refl, arith, replicate}
use lbos.Descriptors.{null_entry, gdt_set_gate, idt_init}
use lbos.Descriptors.Fields
use lbos.Descriptors.Fields.{null_gate, gate_at}

gdt_set_gate-Sets_example :
    Fields.Sets
      (replicate 6 null_entry)
      5
      0xc011_a0c0
      103
      0x89
      0
      (gdt_set_gate (replicate 6 null_entry) 5 0xc011_a0c0 103 0x89 0)
gdt_set_gate-Sets_example =
    Fields.gdt_set_gate-Sets (replicate 6 null_entry) 5 0xc011_a0c0 103 0x89 0 (omega arith)
      (omega arith) (omega arith)

idt_init-IsTrapGate_example :
    Fields.IsTrapGate
      (gate_at (idt_init (λ i. 0xc010_0000) (replicate 256 null_gate)) 0x80)
      0xc010_0000
      3
idt_init-IsTrapGate_example =
    Fields.idt_init-IsTrapGate (λ i. 0xc010_0000) (replicate 256 null_gate) 0x80 refl
      (λ i. omega arith) refl
