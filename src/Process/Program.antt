-- ===== src/Process/Program.antt =====
-- The address space of a program that `create_process` loads.
use lbos.Base.{
  ℕ, ◌+◌, ◌-◌, ◌*◌, ◌/◌, ◌%◌, ◌^◌, ◌≤◌, ◌<◌, ◌≡◌, ◌⊎◌, refl, sym, ap, ◌∙◌, inr, Option, none, some,
  List, true, false, arith, ◌==◌, ltb, leb, if◌then◌else◌, u32, get_elem?,
}
use mathlib.Core.Path.{subst}
use lbos.Memory.Blocks.{IsBytes}
use lbos.Frames.{Mem, virt_to_phys, frame_size}
use lbos.Frames.{test_bit}
use lbos.Paging.Same.{with_ram}
use lbos.Paging.Guard.{Leaves, Guarded-ne-free}
use lbos.Paging.Isolated.{Isolated, changed-Isolated}
use lbos.Paging.{
  page_table_size, is_present, create_page_directory, get_physical_address, kernel_virtual_start,
}
use lbos.Paging.Walk.{window, pde, IsWindow}
use lbos.Paging.Owned.{Owns}
use lbos.Paging.Room.{Room, Room-alloc}
use lbos.Paging.Spare.{Spare, Kept}
use lbos.Paging.Created.{Creates, created, failed, create_page_directory-Creates}
use lbos.Process.Data.{Process, Processes, or_null, update, set_state, allocate_pcb_and_pid}
use lbos.Process.Data
use lbos.Process.Create.{
  Layout, System, load_pages, push_iret_frame, with_cr3, user_code_start, finish_user,
  build_process, create_process,
}
use lbos.Process.Table.{get-update_self}
use lbos.Process.Queue.{IsQueue}
use lbos.Process.Slot.{Reserved, Reserved-update, Allocation, Allocation-some, allocate-Allocation}
use lbos.Process.Enter.{at_finish_user}
use lbos.Process.Page.{IsSource}
use lbos.Paging.Marked.{Spare-Guarded}
use lbos.Process.Load.{Loaded, pages_needed, load_pages-Loaded}

-- The process `i` was made, and its address space is that of the program: the bytes of the module, with zeros behind
-- them up to the end of the last page, and the kernel's half.
pub record Runs (limit : ℕ) (m : Mem) (kernel data_at size i : ℕ) (r : Option ℕ × System)
    : Type 0 where
  pub made : r.0 ≡ some i
  pub pd : ℕ
  pub cr3 : (or_null (get_elem? r.1.0.process_table i)).context.cr3 ≡ pd
  pub owns : Owns limit r.1.1 pd
  pub grows : (j : ℕ) → j < limit → test_bit m j ≡ true → test_bit r.1.1 j ≡ true
  pub only_ram : r.1.1 ≡ with_ram m r.1.1.ram
  pub leaves : Leaves limit m r.1.1 (λ p. ⊥)
  pub bytes :
      (b : ℕ)
      → b < pages_needed size * 4096
      → r.1.1.ram (get_physical_address r.1.1 pd (user_code_start + b) + window)
        ≡ (if ltb b size then m.ram (data_at + b) else 0)
  pub kernel_half :
      (x : ℕ)
      → x < 2 ^ 32
      → kernel_virtual_start ≤ x
      → get_physical_address r.1.1 pd x ≡ get_physical_address m kernel x
  pub nothing_else :
      (x : ℕ)
      → x < kernel_virtual_start
      → (x < user_code_start) ⊎ (user_code_start + pages_needed size * 4096 ≤ x)
      → get_physical_address r.1.1 pd x ≡ 0

pub virt_to_phys_lem :
    (m : Mem) (p : ℕ) → IsWindow m → p < page_table_size * 4096 → virt_to_phys m (p + window) ≡ p
unfolding virt_to_phys
virt_to_phys_lem m p w h = omega arith

module _ {limit : ℕ} (layout : Layout) {s s1 : Processes} {l : List ℕ} {m : Mem} {kernel : ℕ}
    (o : Owns limit m kernel) (bytes : IsBytes m.ram)
    (stands : layout.kernel_page_directory ≡ kernel + window) (data_at size a c i pid : ℕ)
    (fits : user_code_start + size + 4096 ≤ kernel_virtual_start)
    (src : IsSource limit m kernel data_at size)
    (room : Room limit m a (1 + (pages_needed size * 2 + c))) (r : Reserved s s1 l i) where
  -- `build_process` with what `create_page_directory` answered.
  abbrev with_directory : ℕ × Mem → Option ℕ × System
  with_directory (page_dir, m1) =
      let cr3 = virt_to_phys m1 page_dir in
      let needed = u32 (size + frame_size - 1) / frame_size in
      let (loaded, m2) = load_pages cr3 data_at size needed 0 user_code_start m1 in
      let s2 = record s1 { process_table = update s1.process_table i (with_cr3 cr3) } in
      if page_dir == 0
      then (none, (set_state s1 i Data.free, m1))
      else if loaded
      then (some i, (finish_user layout i s2, m2))
      else (none, (set_state s2 i Data.free, m2))

  build-with_directory :
      build_process layout data_at size m (some (i, pid), s1)
      ≡ with_directory (create_page_directory layout.kernel_page_directory m)
  unfolding build_process
  build-with_directory = refl

  module _ (k : ℕ) (m1 : Mem) (low : k * 4096 < page_table_size * 4096)
      (owns : Owns limit m1 (k * 4096))
      (translations : (x : ℕ)
        → x < 2 ^ 32
        → get_physical_address m1 (k * 4096) x
          ≡ (if leb kernel_virtual_start x then get_physical_address m kernel x else 0))
      (same : (b : ℕ) → data_at ≤ b → b < data_at + size → m1.ram b ≡ m.ram b)
      (kept1 : Kept limit m m1 kernel) (leaves1 : Leaves limit m m1 (λ p. ⊥))
      (free : test_bit m k ≡ false)
      (bare : (x : ℕ) → x < kernel_virtual_start → is_present (pde m1 (k * 4096) x) ≡ false)
      (spares : (j : ℕ) → Spare limit m kernel j → Spare limit m1 (k * 4096) j)
      (room1 : Room limit m1 (a + 1) (pages_needed size * 2 + c)) where
    source : IsSource limit m1 (k * 4096) data_at size
    source b lo hi =
        let (above, byte, s) = src b lo hi in
        (above, rw (same b lo hi) byte, spares ((b - window) / 4096) s)

    abbrev entry_of : Process → Process
    entry_of = with_cr3 (k * 4096)

    module _ (m2 : Mem) (now : Loaded limit m1 (k * 4096) data_at size (pages_needed size) m2) where
      page_bytes :
          (b : ℕ)
          → b < pages_needed size * 4096
          → m2.ram (get_physical_address m2 (k * 4096) (user_code_start + b) + window)
            ≡ (if ltb b size then m.ram (data_at + b) else 0)
      page_bytes b hb =
          let page = now.pages (b / 4096) (omega arith) in
          let at : user_code_start + b < 2 ^ 32 = omega (arith, fits) in
          let offset : (user_code_start + b) % 4096 ≡ b % 4096 = omega arith in
          let whole : b / 4096 * 4096 + b % 4096 ≡ b = omega arith in
          let sum : page.frame * 4096 + b % 4096 + window ≡ page.frame * 4096 + window + b % 4096 =
            omega arith in
          let content = page.content (b % 4096) (omega arith) in
          rw (page.through (user_code_start + b) at (omega arith), offset, sum, content, whole)
            (kept_byte b)
        where
          kept_byte :
              (q : ℕ)
              → (if ltb q size then m1.ram (data_at + q) else 0)
                ≡ (if ltb q size then m.ram (data_at + q) else 0)
          kept_byte q = ground (arith, same (data_at + q))

      outside :
          (x : ℕ)
          → x < 2 ^ 32
          → (x < user_code_start) ⊎ (user_code_start + pages_needed size * 4096 ≤ x)
          → get_physical_address m2 (k * 4096) x
            ≡ (if leb kernel_virtual_start x then get_physical_address m kernel x else 0)
      outside x hx out = now.others x hx (ground arith) ∙ translations x hx

      loaded-Leaves : Leaves limit m m2 (λ p. ⊥)
      loaded-Leaves j g n =
          let (same_bytes, g') = leaves1 j g n in
          let ne = Guarded-ne-free j k g free in
          let (same_bytes', g'') = now.leaves j g' (λ e. ne (omega (arith, e))) in
          (λ b lo hi. same_bytes' b lo hi ∙ same_bytes b lo hi, g'')

      loaded-Runs : Runs limit m kernel data_at size i (
        some i,
        (
          finish_user layout i (record s1 { process_table = update s1.process_table i entry_of }),
          m2,
        ),
      )
      unfolding push_iret_frame
      loaded-Runs =
          let r' = Reserved-update r entry_of (λ p. refl) in
          let at = get-update_self s1.process_table i entry_of r.at in
          record {
            made = refl;
            pd = k * 4096;
            cr3 =
                ap (λ (q : Option Process). (or_null q).context.cr3)
                  (at_finish_user layout
                    (record s1 { process_table = update s1.process_table i entry_of }) i
                    (entry_of r.entry) at);
            owns = now.kept.owns;
            grows = λ j hj used. now.kept.grows j hj (kept1.grows j hj used);
            only_ram = now.kept.only_ram ∙ ap (λ (q : Mem). with_ram q m2.ram) kept1.only_ram;
            leaves = loaded-Leaves;
            bytes = page_bytes;
            kernel_half = λ x hx high.
                let in_half : leb kernel_virtual_start x ≡ true = ground arith in
                outside x hx (inr (omega (arith, fits))) ∙ rw in_half refl;
            nothing_else = λ x hx out.
                let below : leb kernel_virtual_start x ≡ false = ground arith in
                outside x (omega arith) out ∙ rw below refl;
          }

    with_directory-Runs :
        Runs limit m kernel data_at size i (with_directory (k * 4096 + window, m1))
    with_directory-Runs =
        let address : (k * 4096 + window == 0) ≡ false = ground arith in
        let cr3 = virt_to_phys_lem m1 (k * 4096) owns.directory.window low in
        let needed : u32 (size + frame_size - 1) / frame_size ≡ pages_needed size =
          omega (arith, fits) in
        let (all, now) = load_pages-Loaded data_at size source fits bare (a + 1) c owns room1 in
        rw (address, cr3, needed, all) (loaded-Runs _ now)

  Creates-Runs :
      (q : ℕ × Mem)
      → Creates limit m kernel q
      → Runs limit m kernel data_at size i (with_directory q)
  Creates-Runs (page_dir, m1) (failed z gone kept same leaves) =
      absurd ((Room-alloc m a (pages_needed size * 2 + c) o.frames room).1 gone)
  Creates-Runs (page_dir, m1)
        (created k free is owns translations kept same leaves bare spares spends) =
      subst (λ (d : ℕ). Runs limit m kernel data_at size i (with_directory (d, m1))) (sym is)
        (with_directory-Runs k m1 owns.directory.frame.0 owns translations same_bytes kept leaves
          free bare spares (spends a (pages_needed size * 2 + c) room))
    where
      same_bytes : (b : ℕ) → data_at ≤ b → b < data_at + size → m1.ram b ≡ m.ram b
      same_bytes b lo hi =
          let (above, byte, spare) = src b lo hi in
          (leaves ((b - window) / 4096) (Spare-Guarded spare) (λ e. e)).0 b (omega arith)
            (omega arith)

  build_process-Runs :
      Runs limit m kernel data_at size i (build_process layout data_at size m (some (i, pid), s1))
  build_process-Runs = rw build-with_directory (
      Creates-Runs _ (
        create_page_directory-Creates o bytes layout.kernel_page_directory stands
          (Room-alloc m a (pages_needed size * 2 + c) o.frames room).0))

module _ {limit : ℕ} (layout : Layout) (s s1 : Processes) {l : List ℕ} (m : Mem)
    (kernel data_at size a c i pid : ℕ) (v : IsQueue s l)
    (slot : allocate_pcb_and_pid s ≡ (some (i, pid), s1)) (o : Owns limit m kernel)
    (bytes : IsBytes m.ram) (stands : layout.kernel_page_directory ≡ kernel + window)
    (fits : user_code_start + size + 4096 ≤ kernel_virtual_start)
    (src : IsSource limit m kernel data_at size)
    (room : Room limit m a (1 + (pages_needed size * 2 + c))) where
  -- `create_process` loads a program: given a sound ready queue, a free slot, a kernel directory in the allocator's care behind the
  -- kernel window, a module whose bytes lie in frames in use that are no part of that directory, a size that keeps the
  -- program below the kernel, and free frames in a row (one for the directory and two for each page), all these frames among the 1024 frames that
  -- `init_paging` maps, it succeeds
  -- and answers the free slot. CR3 of the new process is a directory in the allocator's care in which the addresses
  -- from the start of the user code on lead to the bytes of the module, with zeros up to the end of the last page; from
  -- KERNEL_VIRTUAL_START on it translates as the kernel's does, and no other address is mapped.
  pub create_process-Runs :
      Runs limit m kernel data_at size i (create_process layout data_at size (s, m))
  unfolding create_process
  create_process-Runs = rw slot (
      build_process-Runs layout o bytes stands data_at size a c i pid fits src room
        (Allocation-some (subst (Allocation s l) slot (allocate-Allocation s l v))))

  -- Under the same conditions, `create_process` leaves every address space whose directory is in the allocator's care as it
  -- is: the directory stays in its care, each of its addresses translates as before, and each leads to the same byte
  -- where the frame is in use and lies apart from the bitmap.
  pub create_process-Isolated :
      (pd : ℕ)
      → Owns limit m pd
      → Isolated limit m (create_process layout data_at size (s, m)).1.1 (λ p. ⊥) pd
  create_process-Isolated pd other =
      let r = create_process-Runs in
      changed-Isolated (λ p. ⊥) other (λ q part x. x) r.only_ram r.grows r.leaves
