-- ===== src/Descriptors/Fields.antt =====
-- What the processor reads from the descriptors and gates.
use lbos.Base.{
  ℕ, zero, suc, ◌+◌, ◌*◌, ◌/◌, ◌%◌, ◌^◌, ◌<◌, ◌≤◌, ◌≡◌, ◌≢◌, refl, ap, ◌∙◌, List, Bool, true, ◌||◌,
  arith, bit_and, bit_or, length, length-set, get_or, get_or-set, set, ltb, leb, ◌==◌, ◌&&◌,
  if◌then◌else◌, bit_and-low, bit_and-shifted, bit_or-fields, bit_or_comm, ◌>>>◌,
}
use mathlib.Core.Path.{subst}
use native.Mathlib.Decide.{ℕ_discrete}
use lbos.Descriptors.{
  GdtEntry, null_entry, encode, gdt_set_gate, IdtGate, gate, create_gates, create_idt_gate,
  idt_init,
}

abbrev pub base_of : GdtEntry → ℕ
base_of e = e.base_low + e.base_middle * 2 ^ 16 + e.base_high * 2 ^ 24

abbrev pub limit_of : GdtEntry → ℕ
limit_of e = e.limit_low + e.granularity % 2 ^ 4 * 2 ^ 16

-- The descriptor that stands at an index.
abbrev pub entry_at : List GdtEntry → ℕ → GdtEntry
entry_at t i = get_or t i null_entry

pub base-encode :
    (base limit access gran : ℕ) → base < 2 ^ 32 → base_of (encode base limit access gran) ≡ base
base-encode base limit access gran h =
    omega (arith, bit_and-low 16 base, bit_and-low 8 (base >>> 16), bit_and-low 8 (base >>> 24))

granularity_lem :
    (limit gran : ℕ)
    → gran < 256
    → bit_or (bit_and (limit >>> 16) 0x0f) (bit_and gran 0xf0)
      ≡ gran / 16 * 16 + limit / 2 ^ 16 % 16
granularity_lem limit gran h =
    let high : bit_and gran 0xf0 ≡ gran / 16 * 16 =
      omega (arith, bit_and-shifted 4 gran 15, bit_and-low 4 (gran / 16)) in
    let low : bit_and (limit >>> 16) 0x0f ≡ limit / 2 ^ 16 % 16 = bit_and-low 4 (limit >>> 16) in
    rw (high, low, bit_or_comm (limit / 2 ^ 16 % 16) (gran / 16 * 16))
      (bit_or-fields 4 (gran / 16) (limit / 2 ^ 16 % 16) (omega arith))

-- What a descriptor says, and that no other one changes.
pub record Sets (t : List GdtEntry) (num base limit access gran : ℕ) (t' : List GdtEntry)
    : Type 0 where
  pub base_read : base_of (entry_at t' num) ≡ base
  pub limit_read : limit_of (entry_at t' num) ≡ limit % 2 ^ 20
  pub access_read : (entry_at t' num).access ≡ access
  pub flags_read : (entry_at t' num).granularity / 2 ^ 4 ≡ gran / 2 ^ 4
  pub others : (j : ℕ) → num ≢ j → entry_at t' j ≡ entry_at t j

-- The processor reads from the descriptor that `gdt_set_gate` writes the base, the low 20 bits of the limit, the
-- access byte and the high four bits of the granularity; no other descriptor changes.
pub gdt_set_gate-Sets :
    (t : List GdtEntry) (num base limit access gran : ℕ)
    → num < length t
    → base < 2 ^ 32
    → gran < 256
    → Sets t num base limit access gran (gdt_set_gate t num base limit access gran)
unfolding gdt_set_gate
gdt_set_gate-Sets t num base limit access gran lt hb hg =
    let new = encode base limit access gran in
    let here : entry_at (set t num new) num ≡ new =
      ground (arith, get_or-set t num num new null_entry lt) in
    record {
      base_read = ap base_of here ∙ base-encode base limit access gran hb;
      limit_read =
          ap limit_of here ∙ omega (arith, granularity_lem limit gran hg, bit_and-low 16 limit);
      access_read = ap (λ (e : GdtEntry). e.access) here;
      flags_read =
          ap (λ (e : GdtEntry). e.granularity / 2 ^ 4) here
          ∙ omega (arith, granularity_lem limit gran hg);
      others = λ j n. ground (arith, get_or-set t num j new null_entry lt);
    }

abbrev pub null_gate : IdtGate
null_gate = record { handler_low = 0; segsel = 0; zero_byte = 0; config = 0; handler_high = 0 }

abbrev pub gate_at : List IdtGate → ℕ → IdtGate
gate_at t i = get_or t i null_gate

create_gates_lem :
    (entry_of : ℕ → ℕ) (rounds i : ℕ) (t : List IdtGate) (j : ℕ)
    → i + rounds ≤ length t
    → gate_at (create_gates entry_of rounds i t) j
      ≡ (if leb i j && ltb j (i + rounds) then gate (entry_of j) 1 0 else gate_at t j)
unfolding create_gates create_idt_gate
create_gates_lem entry_of zero i t j h = ground arith
create_gates_lem entry_of (suc rounds) i t j h =
    let g = gate (entry_of i) 1 0 in
    ground (
      arith,
      create_gates_lem entry_of rounds (i + 1) (set t i g) j (omega (arith, length-set t i g)),
      get_or-set t i j g null_gate (omega arith),
    )

length-create_gates :
    (entry_of : ℕ → ℕ) (rounds i : ℕ) (t : List IdtGate)
    → length (create_gates entry_of rounds i t) ≡ length t
unfolding create_gates create_idt_gate
length-create_gates entry_of zero i t = refl
length-create_gates entry_of (suc rounds) i t =
    length-create_gates entry_of rounds (i + 1) (set t i (gate (entry_of i) 1 0))
    ∙ length-set t i (gate (entry_of i) 1 0)

-- A present gate for 32-bit traps, at the kernel's code segment.
pub record IsTrapGate (g : IdtGate) (handler pl : ℕ) : Type 0 where
  pub handler_read : g.handler_low + g.handler_high * 2 ^ 16 ≡ handler
  pub segment : g.segsel ≡ 0x08
  pub present : g.config / 2 ^ 7 ≡ 1
  pub privilege : g.config / 2 ^ 5 % 4 ≡ pl
  pub trap : g.config % 2 ^ 5 ≡ 0xf

kernel_gate : (handler : ℕ) → handler < 2 ^ 32 → IsTrapGate (gate handler 1 0) handler 0
kernel_gate handler h = record {
  handler_read = omega (arith, bit_and-low 16 handler, bit_and-low 16 (handler >>> 16));
  segment = refl;
  present = refl;
  privilege = refl;
  trap = refl;
}

user_gate : (handler : ℕ) → handler < 2 ^ 32 → IsTrapGate (gate handler 1 3) handler 3
user_gate handler h = record {
  handler_read = omega (arith, bit_and-low 16 handler, bit_and-low 16 (handler >>> 16));
  segment = refl;
  present = refl;
  privilege = refl;
  trap = refl;
}

idt_init_lem :
    (entry_of : ℕ → ℕ) (t : List IdtGate) (j : ℕ)
    → length t ≡ 256
    → gate_at (idt_init entry_of t) j
      ≡ (if 0x80 == j then gate (entry_of 0x80) 1 3 else gate_at (create_gates entry_of 48 0 t) j)
unfolding idt_init create_idt_gate
idt_init_lem entry_of t j size =
    get_or-set (create_gates entry_of 48 0 t) 0x80 j (gate (entry_of 0x80) 1 3) null_gate
      (omega (arith, length-create_gates entry_of 48 0 t))

-- The exceptions and device interrupts, and the system call, which user code may make.
abbrev pub is_installed : ℕ → Bool
is_installed j = ltb j 48 || j == 0x80

abbrev pub level_of : ℕ → ℕ
level_of j = if j == 0x80 then 3 else 0

-- After `idt_init` each of the exceptions and device interrupts, 0 to 47, and of the system call, 0x80, has a
-- present trap gate to its entry point, which user code can use for the system call only. The entry points are
-- 32-bit addresses, and the table has its 256 gates.
pub idt_init-IsTrapGate :
    (entry_of : ℕ → ℕ) (t : List IdtGate) (j : ℕ)
    → length t ≡ 256
    → ((i : ℕ) → entry_of i < 2 ^ 32)
    → is_installed j ≡ true
    → IsTrapGate (gate_at (idt_init entry_of t) j) (entry_of j) (level_of j)
idt_init-IsTrapGate entry_of t j size words known = elim (ℕ_discrete 0x80 j) [
  | yes call ↦
      subst (λ (k : ℕ). IsTrapGate (gate_at (idt_init entry_of t) k) (entry_of k) (level_of k)) call
        (rw (idt_init_lem entry_of t 0x80 size) (user_gate (entry_of 0x80) (words 0x80)))
  | no other ↦
      let kernel : level_of j ≡ 0 = ground arith in
      let here : gate_at (idt_init entry_of t) j ≡ gate (entry_of j) 1 0 =
        ground (
          arith,
          idt_init_lem entry_of t j size,
          create_gates_lem entry_of 48 0 t j (omega arith),
        ) in
      rw (kernel, here) (kernel_gate (entry_of j) (words j))
]
