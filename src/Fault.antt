-- ===== src/Fault.antt =====
-- `page_fault_handler` of mem/page_frame_allocator.c: demand paging for the current process.
pub mod Demand
pub mod Handle
pub mod Isolate
use lbos.Base.{
  ℕ, Bool, not, Option, ◌||◌, none, some, ◌==◌, ltb, leb, if◌then◌else◌, bit_and, bit_or,
}
use lbos.Memory.{memset}
use lbos.Frames.{Mem, alloc_frame, phys_to_virt, frame_size}
use lbos.Paging.{map_page, kernel_virtual_start, page_of, page_present, page_rw, page_user}
use lbos.Process.Data.{Process}
use lbos.Kernel.{Kernel, Outcome, returned, halted, current}

-- The page of a missing address gets a zeroed frame; false where there is none.
unfoldable pub demand_page : (cr3 faulting_address error_code : ℕ) → Mem → Bool × Mem
demand_page cr3 faulting_address error_code m =
    let write = not (bit_and error_code 0x2 == 0) in
    let page_addr = page_of faulting_address in
    let (frame_phys, m1) = alloc_frame m in
    let base = bit_or page_present page_user in
    let flags = if write || ltb page_addr 0xc000_0000 then bit_or base page_rw else base in
    let m2 = map_page m1 cr3 page_addr frame_phys flags in
    let zeroed = record m2 { ram = memset m2.ram (phys_to_virt m2 frame_phys) 0 frame_size } in
    if frame_phys == 0 then (Bool.false, m1) else (Bool.true, zeroed)

-- The handler with `current_process` taken apart.
abbrev pub fault_of : (faulting_address error_code : ℕ) → Kernel → Option Process → Outcome × Kernel
fault_of faulting_address error_code k none = (halted, k)
fault_of faulting_address error_code k (some p) =
    let present = not (bit_and error_code 0x1 == 0) in
    let (served, m) = demand_page p.context.cr3 faulting_address error_code k.mem in
    if leb kernel_virtual_start faulting_address
    then (halted, k)
    else if present
    then (halted, k)
    else if served
    then (returned 0, record k { mem = m })
    else (halted, record k { mem = m })

unfoldable pub handle_page_fault : (faulting_address error_code : ℕ) → Kernel → Outcome × Kernel
unfolding demand_page
handle_page_fault faulting_address error_code k = fault_of faulting_address error_code k (current k)
