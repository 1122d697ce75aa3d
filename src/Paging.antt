-- ===== src/Paging.antt =====
-- mem/paging.c: page directories and page tables in memory. A page directory is named by its
-- physical address and reached through the kernel window (`phys_to_virt`). The translation cache
-- (`invlpg`) is not modelled.
pub mod Walk
pub mod Entry
pub mod Map
pub mod Same
pub mod Owned
pub mod Fresh
pub mod Table
pub mod Link
pub mod Spare
pub mod Guard
pub mod Room
pub mod Copy
pub mod Filled
pub mod Created
pub mod Handed
pub mod Ensure
pub mod Mapped
pub mod Isolated
pub mod Marked
use lbos.Base.{
  ℕ, zero, suc, ◌+◌, ◌-◌, ◌*◌, ◌/◌, ◌%◌, ◌^◌, Bool, true, false, not, ◌&&◌, bit_and, bit_or, ◌==◌,
  ltb, if◌then◌else◌, u32, not32, ◌<<<◌, ◌>>>◌,
}
use lbos.Memory.{Ram, load32, store32, memset}
use lbos.Frames.{Mem, alloc_frame, phys_to_virt, frame_size}

abbrev pub kernel_virtual_start : ℕ
kernel_virtual_start = 0xc000_0000

abbrev pub kernel_pdt_idx : ℕ
kernel_pdt_idx = kernel_virtual_start >>> 22

abbrev pub page_present : ℕ
page_present = 0x1

abbrev pub page_rw : ℕ
page_rw = 0x2

abbrev pub page_user : ℕ
page_user = 0x4

abbrev pub page_writethrough : ℕ
page_writethrough = 0x8

abbrev pub page_directory_size : ℕ
page_directory_size = 1024

abbrev pub page_table_size : ℕ
page_table_size = 1024

-- `for (i = first; i < first + rounds; i++) kernel_page_table[i] = (i * FRAME_SIZE) | ...`
unfoldable pub fill_table : ℕ → ℕ → ℕ → Ram → Ram
fill_table table zero i m = m
fill_table table (suc rounds) i m =
    let entry = bit_or (bit_or (bit_or (i * frame_size) page_present) page_rw) page_writethrough in
    fill_table table rounds (i + 1) (store32 m (table + 4 * i) entry)

-- The two static arrays stand at the addresses `directory` and `table`.
unfoldable pub init_paging : (directory table : ℕ) → Ram → Ram
unfolding fill_table
init_paging directory table m =
    let m1 = memset m directory 0 (4 * page_directory_size) in
    let m2 = memset m1 table 0 (4 * page_table_size) in
    let entry = bit_or (bit_or (bit_or table page_present) page_rw) page_writethrough in
    let m3 = store32 m2 directory entry in
    let m4 = store32 m3 (directory + 4 * kernel_pdt_idx) entry in
    fill_table table page_table_size 0 m4

-- The control registers that the kernel sets.
pub record Control : Type 0 where
  pub cr0 : ℕ
  pub cr3 : ℕ
  pub cr4 : ℕ

unfoldable pub enable_paging : (directory : ℕ) → Control → Control
enable_paging directory c = record {
  cr0 = bit_or c.cr0 0x8000_0000;
  cr3 = directory;
  cr4 = bit_or c.cr4 0x10;
}

unfoldable pub setup_higher_half : (directory : ℕ) → Ram → Ram
setup_higher_half directory m = store32 m directory 0

-- `for (i = first; i < first + rounds; i++) new_page_directory[i] = kernel_page_directory[i]`
unfoldable pub copy_entries : (target source : ℕ) → ℕ → ℕ → Ram → Ram
copy_entries target source zero i m = m
copy_entries target source (suc rounds) i m =
    copy_entries target source rounds (i + 1)
      (store32 m (target + 4 * i) (load32 m (source + 4 * i)))

-- Answers the kernel virtual address of the new directory, or 0. The kernel's own directory stands
-- at the address `kernel_directory`.
unfoldable pub create_page_directory : (kernel_directory : ℕ) → Mem → ℕ × Mem
unfolding copy_entries
create_page_directory kernel_directory m =
    let (page_dir_phys, m1) = alloc_frame m in
    let new_page_directory = phys_to_virt m1 page_dir_phys in
    let zeroed = memset m1.ram new_page_directory 0 (4 * page_directory_size) in
    let copied =
      copy_entries new_page_directory kernel_directory (page_directory_size - kernel_pdt_idx)
        kernel_pdt_idx zeroed in
    if page_dir_phys == 0 then (0, m1) else (new_page_directory, record m1 { ram = copied })

abbrev pub pd_index : ℕ → ℕ
pd_index virtual_addr = virtual_addr >>> 22

abbrev pub pt_index : ℕ → ℕ
pt_index virtual_addr = bit_and (virtual_addr >>> 12) 0x3ff

-- `&pd_virt[pd_index]`, and `&pt_virt[pt_index]` in the table at a physical address.
abbrev pub pde_at : Mem → ℕ → ℕ → ℕ
pde_at m page_directory virtual_addr = phys_to_virt m page_directory + 4 * pd_index virtual_addr

abbrev pub pte_at : Mem → ℕ → ℕ → ℕ
pte_at m pt_phys virtual_addr = phys_to_virt m pt_phys + 4 * pt_index virtual_addr

abbrev pub is_present : ℕ → Bool
is_present entry = not (bit_and entry page_present == 0)

abbrev pub page_of : ℕ → ℕ
page_of entry = bit_and entry (not32 0xfff)

-- The first half of `map_page`: the page table of the address exists, or is made from a new frame.
-- The Boolean is false where the code returns for lack of a frame.
unfoldable pub ensure_table : Mem → ℕ → ℕ → Bool × Mem
ensure_table m page_directory virtual_addr =
    let pde = pde_at m page_directory virtual_addr in
    let (pt_phys, m1) = alloc_frame m in
    let zeroed = memset m1.ram (phys_to_virt m1 pt_phys) 0 (4 * page_table_size) in
    let entry = bit_or (bit_or (bit_or pt_phys page_present) page_rw) page_user in
    if is_present (load32 m.ram pde)
    then (true, m)
    else if pt_phys == 0
    then (false, m1)
    else (true, record m1 { ram = store32 zeroed pde entry })

-- Writes the entry of an address whose table is present.
unfoldable pub write_entry : Mem → ℕ → ℕ → ℕ → Mem
write_entry m page_directory virtual_addr entry =
    let pt_phys = page_of (load32 m.ram (pde_at m page_directory virtual_addr)) in
    record m { ram = store32 m.ram (pte_at m pt_phys virtual_addr) entry }

unfoldable pub map_page : Mem → ℕ → ℕ → ℕ → ℕ → Mem
unfolding ensure_table write_entry
map_page m page_directory virtual_addr physical_addr flags =
    let (ready, m1) = ensure_table m page_directory virtual_addr in
    if ready then write_entry m1 page_directory virtual_addr (bit_or physical_addr flags) else m1

unfoldable pub unmap_page : Mem → ℕ → ℕ → Mem
unfolding write_entry
unmap_page m page_directory virtual_addr =
    if is_present (load32 m.ram (pde_at m page_directory virtual_addr))
    then write_entry m page_directory virtual_addr 0
    else m

unfoldable pub get_physical_address : Mem → ℕ → ℕ → ℕ
get_physical_address m page_directory virtual_addr =
    let offset = bit_and virtual_addr 0xfff in
    let pde = load32 m.ram (pde_at m page_directory virtual_addr) in
    let pte = load32 m.ram (pte_at m (page_of pde) virtual_addr) in
    if is_present pde then (if is_present pte then bit_or (page_of pte) offset else 0) else 0
