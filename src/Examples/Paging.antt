-- ===== src/Examples/Paging.antt =====
-- mem/paging.c on a directory with one page table.
use lbos.Base.{ℕ, ◌^◌, ◌<◌, ◌≡◌, refl, sym, ◌∙◌, true, arith, ◌==◌, if◌then◌else◌}
use lbos.Memory.{load32}
use lbos.Frames.{Mem, phys_to_virt}
use lbos.Paging.{unmap_page, get_physical_address, pd_index, is_present, page_of}
use lbos.Paging.Walk.{pde}
use lbos.Paging.Entry.{IsDirectory}
use lbos.Paging.Map

-- A directory at 0x300000 whose entry 0 leads to an empty table at 0x301000.
abbrev mapped : Mem
mapped = record {
  ram = λ a.
      if a == 0xc030_0000
      then 7
      else if a == 0xc030_0001
      then 0x10
      else if a == 0xc030_0002
      then 0x30
      else 0;
  frame_bitmap = 0xc020_0000;
  bitmap_size = 4096;
  total_frames = 16;
  kernel_physical_start = 0x10_0000;
  kernel_physical_end = 0x12_0000;
  kernel_virtual_start = 0xc010_0000;
  kernel_virtual_end = 0xc012_0000;
}

pde-mapped :
    (v : ℕ) → v < 2 ^ 32 → pde mapped 0x30_0000 v ≡ (if pd_index v == 0 then 0x30_1007 else 0)
unfolding load32 phys_to_virt
pde-mapped v h = ground arith

index_of_present :
    (v : ℕ) → v < 2 ^ 32 → is_present (pde mapped 0x30_0000 v) ≡ true → pd_index v ≡ 0
index_of_present v h = rw (pde-mapped v h) (λ ready. ground arith)

table_of_present :
    (v : ℕ)
    → v < 2 ^ 32
    → is_present (pde mapped 0x30_0000 v) ≡ true
    → page_of (pde mapped 0x30_0000 v) ≡ 0x30_1000
table_of_present v h ready = rw (pde-mapped v h, index_of_present v h ready) refl

mapped-IsDirectory : IsDirectory mapped 0x30_0000
mapped-IsDirectory = record {
  window = (refl, omega arith);
  frame = (omega arith, refl);
  tables = λ v h ready. (
    omega (arith, table_of_present v h ready),
    λ e. omega (arith, table_of_present v h ready, e),
  );
  unshared =
      λ v v' h h' ready ready' e. index_of_present v h ready ∙ sym (index_of_present v' h' ready');
}

get-unmap_page_example :
    get_physical_address (unmap_page mapped 0x30_0000 0x5000) 0x30_0000 0x6123
    ≡ get_physical_address mapped 0x30_0000 0x6123
get-unmap_page_example = Map.get-unmap_page mapped-IsDirectory (omega arith) 0x6123 (omega arith)
