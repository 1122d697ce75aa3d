-- ===== src/Frames.antt =====
-- mem/page_frame_allocator.c: the bitmap of page frames. The bitmap is an array of `uint32_t` of
-- which the code uses eight bits each; it lies in the same memory as everything else.
pub mod Bitmap
pub mod Alloc
pub mod Init
pub mod Refines
use lbos.Base.{
  ℕ, zero, suc, ◌+◌, ◌-◌, ◌*◌, ◌/◌, ◌%◌, ◌^◌, Bool, true, not, bit_and, bit_or, ◌==◌, ltb,
  if◌then◌else◌, u32, add32, sub32, not32, ◌<<<◌,
}
use lbos.Memory.{Ram, load32, store32, memset}
use lbos.Interrupt.{Handlers, page_fault_handler, register_interrupt_handler}

abbrev pub frame_size : ℕ
frame_size = 4096

abbrev pub bits_per_byte : ℕ
bits_per_byte = 8

abbrev pub interrupt_page_fault : ℕ
interrupt_page_fault = 14

-- Memory and the static variables of the allocator. Addresses are kernel virtual addresses.
pub record Mem : Type 0 where
  pub ram : Ram
  pub frame_bitmap : ℕ
  pub bitmap_size : ℕ
  pub total_frames : ℕ
  pub kernel_physical_start : ℕ
  pub kernel_physical_end : ℕ
  pub kernel_virtual_start : ℕ
  pub kernel_virtual_end : ℕ

-- The address of the bitmap's word for a frame, `&frame_bitmap[frame_idx / BITS_PER_BYTE]`.
abbrev pub slot : Mem → ℕ → ℕ
slot m frame_idx = m.frame_bitmap + 4 * (frame_idx / bits_per_byte)

unfoldable pub set_bit : Mem → ℕ → Mem
set_bit m frame_idx =
    let a = slot m frame_idx in
    let bit_idx = frame_idx % bits_per_byte in
    record m { ram = store32 m.ram a (bit_or (load32 m.ram a) (1 <<< bit_idx)) }

unfoldable pub clear_bit : Mem → ℕ → Mem
clear_bit m frame_idx =
    let a = slot m frame_idx in
    let bit_idx = frame_idx % bits_per_byte in
    record m { ram = store32 m.ram a (bit_and (load32 m.ram a) (not32 (1 <<< bit_idx))) }

unfoldable pub test_bit : Mem → ℕ → Bool
test_bit m frame_idx =
    let bit_idx = frame_idx % bits_per_byte in
    not (bit_and (load32 m.ram (slot m frame_idx)) (1 <<< bit_idx) == 0)

unfoldable pub phys_to_virt : Mem → ℕ → ℕ
phys_to_virt m phys_addr = add32 phys_addr (sub32 m.kernel_virtual_start m.kernel_physical_start)

unfoldable pub virt_to_phys : Mem → ℕ → ℕ
virt_to_phys m virt_addr = sub32 virt_addr (sub32 m.kernel_virtual_start m.kernel_physical_start)

-- `for (i = first; i < first + rounds; i++) set_bit(i)`
unfoldable pub set_bits : ℕ → ℕ → Mem → Mem
set_bits zero i m = m
set_bits (suc rounds) i m = set_bits rounds (i + 1) (set_bit m i)

abbrev pub total_physical_memory : ℕ
total_physical_memory = 1024 * 1024 * 128

-- Rounding up to a whole frame, `(x + FRAME_SIZE - 1) & ~(FRAME_SIZE - 1)`.
abbrev pub round_up : ℕ → ℕ
round_up x = bit_and (u32 (x + frame_size - 1)) (not32 (frame_size - 1))

-- The variables as they stand before the bitmap is filled.
abbrev pub configured : Mem → ℕ → ℕ → ℕ → ℕ → Mem
configured m phys_start phys_end virt_start virt_end =
    let total = total_physical_memory / frame_size in
    let size = round_up ((total + bits_per_byte - 1) / bits_per_byte) in
    let sized : Mem = record {
      ram = m.ram;
      frame_bitmap = m.frame_bitmap;
      bitmap_size = size;
      total_frames = total;
      kernel_physical_start = phys_start;
      kernel_physical_end = phys_end;
      kernel_virtual_start = virt_start;
      kernel_virtual_end = virt_end;
    } in
    record sized { frame_bitmap = phys_to_virt sized (round_up phys_end) }

-- What is only computed to be logged is left out.
unfoldable pub init_page_frame_allocator : ℕ → ℕ → ℕ → ℕ → Mem × Handlers → Mem × Handlers
unfolding set_bits phys_to_virt
init_page_frame_allocator phys_start phys_end virt_start virt_end (m, handlers) =
    let c = configured m phys_start phys_end virt_start virt_end in
    let cleared = record c { ram = memset c.ram c.frame_bitmap 0 c.bitmap_size } in
    let kernel_start_frame = phys_start / frame_size in
    let bitmap_end_phys = u32 (round_up phys_end + c.bitmap_size) in
    let kernel_end_frame = bitmap_end_phys / frame_size in
    let low = set_bits kernel_start_frame 0 cleared in
    let full = set_bits (kernel_end_frame - kernel_start_frame) kernel_start_frame low in
    (full, (register_interrupt_handler handlers interrupt_page_fault page_fault_handler).1)

-- The loop of `alloc_frame` at frame `i` with `rounds` frames left.
unfoldable pub alloc_loop : ℕ → ℕ → Mem → ℕ × Mem
alloc_loop zero i m = (0, m)
alloc_loop (suc rounds) i m =
    let rest = alloc_loop rounds (i + 1) m in
    if not (test_bit m i) then (u32 (i * frame_size), set_bit m i) else rest

unfoldable pub alloc_frame : Mem → ℕ × Mem
unfolding alloc_loop
alloc_frame m = alloc_loop m.total_frames 0 m

unfoldable pub free_frame : Mem → ℕ → Mem
free_frame m frame_addr =
    let frame_idx = frame_addr / frame_size in
    if ltb frame_idx m.total_frames then clear_bit m frame_idx else m

unfoldable pub is_frame_allocated : Mem → ℕ → Bool
is_frame_allocated m frame_addr =
    let frame_idx = frame_addr / frame_size in
    if ltb frame_idx m.total_frames then test_bit m frame_idx else true
