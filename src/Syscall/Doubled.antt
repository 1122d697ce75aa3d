-- ===== src/Syscall/Doubled.antt =====
-- The address space of the child of `sys_fork`.
use lbos.Base.{
  ℕ, ◌+◌, ◌*◌, ◌/◌, ◌^◌, ◌≤◌, ◌<◌, ◌≡◌, ◌≢◌, ◌⊎◌, refl, sym, ap, ◌∙◌, inl, inr, true, Option, some,
  List, false, arith, ◌==◌, leb, if◌then◌else◌, get_elem?,
}
use mathlib.Core.Path.{subst}
use lbos.Memory.Blocks.{IsBytes}
use lbos.Frames.{Mem, test_bit, phys_to_virt, virt_to_phys}
use lbos.Paging.{
  is_present, page_of, create_page_directory, get_physical_address, kernel_virtual_start,
}
use lbos.Paging.Walk.{window, pde, page_of_aligned}
use lbos.Paging.Same.{with_ram, Same-Keeps}
use lbos.Paging.Owned.{Part, root, Owns, Part-Keeps, free-ne-Part}
use lbos.Paging.Guard.{Leaves, Leaves-refl, Guarded-ne-free}
use lbos.Paging.Marked.{Spare-Guarded}
use lbos.Paging.Room.{Room, Room-alloc}
use lbos.Paging.Spare.{Spare, Kept}
use lbos.Paging.Handed.{unchanged}
use lbos.Paging.Isolated.{Isolated, changed-Isolated, Part-Same}
use lbos.Paging.Created.{Creates, created, failed, create_page_directory-Creates}
use lbos.Process.Data.{
  Process, Processes, process_at, or_null, update, set_state, enqueue, allocate_pcb_and_pid,
}
use lbos.Process.Data
use lbos.Process.Create.{Layout, push_iret_frame}
use lbos.Process.Queue.{IsQueue}
use lbos.Process.Slot.{Reserved, Allocation, Allocation-some, allocate-Allocation}
use lbos.Process.Program.{virt_to_phys_lem}
use lbos.Kernel.{Kernel, Outcome, returned, minus_one, on_current}
use lbos.Syscall.Fork.{inherit, entered, fork_directory, fork_into, fork}
use lbos.Syscall.Child.{at_child}
use lbos.Syscall.Words.{has-same, has-entry}
use lbos.Syscall.Forked.{entry_of, has, PageCopied, Forked}
use lbos.Syscall.Copying.{count_tables, Through}
use lbos.Syscall.Copied.{tables-Through}
use lbos.Syscall.Doubles.{Doubles, count_tables-cong}

-- The kernel's state with a child whose directory is `pd`, in the slot `i`.
abbrev child_state : Layout → Kernel → Processes → (i pd : ℕ) → Process → Mem → Kernel
child_state layout k s1 i pd parent m2 =
    let s2 = record s1 { process_table = update s1.process_table i (inherit parent pd) } in
    let s3 = record s2 { process_table = update s2.process_table i (entered layout i) } in
    record k { processes = enqueue s3 i; mem = m2 }

module _ {limit : ℕ} (layout : Layout) (k : Kernel) {s1 : Processes} {l : List ℕ}
    (v : IsQueue k.processes l) {kernel pp : ℕ} (o : Owns limit k.mem kernel)
    (op : Owns limit k.mem pp) (bytes : IsBytes k.mem.ram)
    (stands : layout.kernel_page_directory ≡ kernel + window) (a c here i pid : ℕ)
    (is : (process_at s1 here).context.cr3 ≡ pp)
    (sources : (q : ℕ)
      → q * 4096 < kernel_virtual_start
      → has k.mem pp q ≡ true
      → Spare limit k.mem kernel (page_of (entry_of k.mem pp q) / 4096))
    (room : Room limit k.mem a (1 + (count_tables k.mem pp 768 0 * 2 + c)))
    (r : Reserved k.processes s1 l i) where
  abbrev parent : Process
  parent = process_at s1 here

  -- `fork_into` with what `create_page_directory` answered.
  abbrev with_directory : ℕ × Mem → Outcome × Kernel
  with_directory (page_dir, m1) =
      let cr3 = virt_to_phys m1 page_dir in
      let (copied, m2) =
        fork_directory cr3 (phys_to_virt m1 parent.context.cr3) (kernel_virtual_start / 0x40_0000) 0
          m1 in
      let named = record s1 {
        process_table = update s1.process_table i (λ p. record p { parent_pid = parent.pid });
      } in
      let s2 = record s1 { process_table = update s1.process_table i (inherit parent cr3) } in
      if page_dir == 0
      then (returned minus_one, record k { processes = set_state named i Data.free; mem = m1 })
      else if copied
      then (returned pid, child_state layout k s1 i cr3 parent m2)
      else (returned minus_one, record k { processes = set_state s2 i Data.free; mem = m2 })

  fork_into-with_directory :
      fork_into layout here k (some (i, pid), s1)
      ≡ with_directory (create_page_directory layout.kernel_page_directory k.mem)
  unfolding fork_into
  fork_into-with_directory = refl

  module _ (n : ℕ) (m1 : Mem) (free : test_bit k.mem n ≡ false) (owns : Owns limit m1 (n * 4096))
      (translations : (x : ℕ)
        → x < 2 ^ 32
        → get_physical_address m1 (n * 4096) x
          ≡ (if leb kernel_virtual_start x then get_physical_address k.mem kernel x else 0))
      (kept1 : Kept limit k.mem m1 kernel) (leaves1 : Leaves limit k.mem m1 (λ p. ⊥))
      (bare : (x : ℕ) → x < kernel_virtual_start → is_present (pde m1 (n * 4096) x) ≡ false)
      (spares : (j : ℕ) → Spare limit k.mem kernel j → Spare limit m1 (n * 4096) j)
      (room1 : Room limit m1 (a + 1) (count_tables k.mem pp 768 0 * 2 + c)) where
    same : (q : ℕ) → q * 4096 < kernel_virtual_start → has m1 pp q ≡ has k.mem pp q
    same q hq = has-same op (λ p part x. x) kept1.only_ram leaves1 q hq

    entry :
        (q : ℕ)
        → q * 4096 < kernel_virtual_start
        → has m1 pp q ≡ true
        → entry_of m1 pp q ≡ entry_of k.mem pp q
    entry q hq is' =
        has-entry op (λ p part x. x) kept1.only_ram leaves1 q hq (sym (same q hq) ∙ is')

    parent-Owns : Owns limit m1 pp
    parent-Owns =
        (changed-Isolated (λ p. ⊥) op (λ p part x. x) kept1.only_ram kept1.grows leaves1).owns

    parent-apart : (q : ℕ) → Part m1 pp q → q ≢ n * 4096
    parent-apart q part e =
        let leaves' = subst (λ (m : Mem). Leaves limit k.mem m (λ p. ⊥)) kept1.only_ram leaves1 in
        let entries =
          Same-Keeps m1.ram op.directory
            (Part-Same (λ p. ⊥) op (λ p part' x. x) m1.ram leaves' pp (root refl)) in
        let before = Part-Keeps entries (subst (λ (m : Mem). Part m pp q) kept1.only_ram part) in
        free-ne-Part op n q free before (sym e)

    source :
        (q : ℕ)
        → q * 4096 < kernel_virtual_start
        → has m1 pp q ≡ true
        → Spare limit m1 (n * 4096) (page_of (entry_of m1 pp q) / 4096)
    source q hq is' =
        subst (λ (e : ℕ). Spare limit m1 (n * 4096) (page_of e / 4096)) (sym (entry q hq is'))
          (spares (page_of (entry_of k.mem pp q) / 4096) (sources q hq (sym (same q hq) ∙ is')))

    source_byte :
        (q j : ℕ)
        → q * 4096 < kernel_virtual_start
        → has k.mem pp q ≡ true
        → j < 4096
        → m1.ram (page_of (entry_of k.mem pp q) + window + j)
          ≡ k.mem.ram (page_of (entry_of k.mem pp q) + window + j)
    source_byte q j hq is' hj =
        let e = entry_of k.mem pp q in
        let whole = page_of_aligned e in
        (leaves1 (page_of e / 4096) (Spare-Guarded (sources q hq is')) (λ x. x)).0
          (page_of e + window + j) (omega (arith, whole)) (omega (arith, whole))

    source_bytes :
        (q j : ℕ)
        → q * 4096 < kernel_virtual_start
        → has m1 pp q ≡ true
        → j < 4096
        → m1.ram (page_of (entry_of m1 pp q) + window + j) < 256
    source_bytes q j hq is' hj =
        rw (entry q hq is', source_byte q j hq (sym (same q hq) ∙ is') hj)
          (bytes (page_of (entry_of k.mem pp q) + window + j))

    begins : Forked limit m1 pp (n * 4096) 0 m1
    begins = record {
      kept = unchanged owns;
      leaves = Leaves-refl m1 (λ p. p ≡ n * 4096);
      tables = λ x hx here'. absurd (let gone = bare x hx in cc (sym gone ∙ here'));
      pages = λ q lt is'. absurd (omega arith);
      others = λ x hx out. refl;
    }

    through :
        Through limit m1 pp
          (n * 4096)
          (768 * 1024)
          c
          (fork_directory (n * 4096) (phys_to_virt m1 pp) 768 0 m1)
    through =
        let counted : count_tables k.mem pp 768 0 * 2 + c
            ≡ count_tables m1 pp 768 (0 * 1024) * 2 + c =
          ap (λ (q : ℕ). q * 2 + c)
            (sym (count_tables-cong k.mem m1 pp 768 0 same (omega arith))) in
        tables-Through parent-Owns parent-apart source source_bytes 768 0 (a + 1) c m1 refl
          (subst (Room limit m1 (a + 1)) counted room1) begins

    module _ (m2 : Mem) (now : Forked limit m1 pp (n * 4096) (768 * 1024) m2) where
      copied_page :
          (q : ℕ)
          → q * 4096 < kernel_virtual_start
          → has k.mem pp q ≡ true
          → PageCopied limit k.mem m2 pp (n * 4096) q
      copied_page q hq is' =
          let is1 = same q hq ∙ is' in
          let page = now.pages q (omega arith) is1 in
          record {
            frame = page.frame;
            spare = page.spare;
            through = page.through;
            content = λ j hj.
                page.content j hj
                ∙ ap (λ (e : ℕ). m1.ram (page_of e + window + j)) (entry q hq is1)
                ∙ source_byte q j hq is' hj;
          }

      doubled-Leaves : Leaves limit k.mem m2 (λ p. ⊥)
      doubled-Leaves j g ne =
          let (same_bytes, g') = leaves1 j g ne in
          let other = Guarded-ne-free j n g free in
          let (same_bytes', g'') = now.leaves j g' (λ e. other (omega (arith, e))) in
          (λ b lo hi. same_bytes' b lo hi ∙ same_bytes b lo hi, g'')

      unmapped :
          (x : ℕ)
          → x < 2 ^ 32
          → (768 * 1024 ≤ x / 4096) ⊎ (has m1 pp (x / 4096) ≡ false)
          → get_physical_address m2 (n * 4096) x
            ≡ (if leb kernel_virtual_start x then get_physical_address k.mem kernel x else 0)
      unmapped x hx out = now.others x hx out ∙ translations x hx

      doubled :
          Doubles limit k kernel pp i pid
            (returned pid, child_state layout k s1 i (n * 4096) parent m2)
      unfolding push_iret_frame
      doubled = record {
        done = refl;
        pd = n * 4096;
        cr3 =
            ap (λ (q : Option Process). (or_null q).context.cr3)
              (at_child layout 0 k v s1 i r.entry parent (n * 4096) r.at);
        owns = now.kept.owns;
        pages = copied_page;
        nothing_else = λ x hx gone.
            let below : leb kernel_virtual_start x ≡ false = ground arith in
            unmapped x (omega arith) (inr (same (x / 4096) (omega arith) ∙ gone)) ∙ rw below refl;
        kernel_half = λ x hx high.
            let in_half : leb kernel_virtual_start x ≡ true = ground arith in
            unmapped x hx (inl (omega arith)) ∙ rw in_half refl;
        grows = λ j hj used. now.kept.grows j hj (kept1.grows j hj used);
        only_ram = now.kept.only_ram ∙ ap (λ (q : Mem). with_ram q m2.ram) kept1.only_ram;
        leaves = doubled-Leaves;
      }

    with_directory-Doubles :
        Doubles limit k kernel pp i pid (with_directory (n * 4096 + window, m1))
    with_directory-Doubles =
        let address : (n * 4096 + window == 0) ≡ false = ground arith in
        let at = virt_to_phys_lem m1 (n * 4096) owns.directory.window owns.directory.frame.0 in
        rw (address, at, is, through.done) (doubled _ through.forked)

  Creates-Doubles :
      (q : ℕ × Mem)
      → Creates limit k.mem kernel q
      → Doubles limit k kernel pp i pid (with_directory q)
  Creates-Doubles (page_dir, m1) (failed z gone kept same leaves) =
      absurd ((Room-alloc k.mem a (count_tables k.mem pp 768 0 * 2 + c) o.frames room).1 gone)
  Creates-Doubles (page_dir, m1)
        (created n free at owns translations kept same leaves bare spares spends) =
      subst (λ (d : ℕ). Doubles limit k kernel pp i pid (with_directory (d, m1))) (sym at)
        (with_directory-Doubles n m1 free owns translations kept leaves bare spares
          (spends a (count_tables k.mem pp 768 0 * 2 + c) room))

  pub fork_into-Doubles :
      Doubles limit k kernel pp i pid (fork_into layout here k (some (i, pid), s1))
  fork_into-Doubles = rw fork_into-with_directory (
      Creates-Doubles _ (
        create_page_directory-Creates o bytes layout.kernel_page_directory stands
          (Room-alloc k.mem a (count_tables k.mem pp 768 0 * 2 + c) o.frames room).0))

module _ {limit : ℕ} (layout : Layout) (k : Kernel) (s1 : Processes) {l : List ℕ} (p : Process)
    (kernel a c here i pid : ℕ) (v : IsQueue k.processes l)
    (slot : allocate_pcb_and_pid k.processes ≡ (some (i, pid), s1))
    (now : k.processes.current_process ≡ some here)
    (at : get_elem? k.processes.process_table here ≡ some p) (not_free : p.state ≢ Data.free)
    (o : Owns limit k.mem kernel) (op : Owns limit k.mem p.context.cr3) (bytes : IsBytes k.mem.ram)
    (stands : layout.kernel_page_directory ≡ kernel + window)
    (sources : (q : ℕ)
      → q * 4096 < kernel_virtual_start
      → has k.mem p.context.cr3 q ≡ true
      → Spare limit k.mem kernel (page_of (entry_of k.mem p.context.cr3 q) / 4096))
    (room : Room limit k.mem a (1 + (count_tables k.mem p.context.cr3 768 0 * 2 + c))) where
  -- `sys_fork` copies the address space: given a sound ready queue, a free slot, a current process that is not in a
  -- free slot, its directory and the kernel's in the allocator's care, the frames of its user pages in use and no part of
  -- the kernel's directory, and free frames in a row (one for the directory and two for each user page), all these frames among the
  -- 1024 frames that `init_paging` maps, it answers the
  -- child's identifier. CR3 of the child is a directory in the allocator's care in which each user page of the parent
  -- leads to a frame with the bytes of the parent's page, every other address below KERNEL_VIRTUAL_START is not mapped,
  -- and the rest translates as in the kernel's directory.
  pub fork-Doubles : Doubles limit k kernel p.context.cr3 i pid (fork layout k)
  unfolding fork
  fork-Doubles =
      let r =
        Allocation-some
          (subst (Allocation k.processes l) slot (allocate-Allocation k.processes l v)) in
      let is =
        ap (λ (q : Option Process). (or_null q).context.cr3) (r.keeps.others here p at not_free) in
      subst
        (λ (o : Option ℕ).
          Doubles limit k kernel p.context.cr3 i pid
            (on_current k (λ c'. fork_into layout c' k (allocate_pcb_and_pid k.processes)) o))
        (sym now)
        (subst
          (λ (q : Option (ℕ × ℕ) × Processes).
            Doubles limit k kernel p.context.cr3 i pid (fork_into layout here k q))
          (sym slot)
          (fork_into-Doubles layout k v o op bytes stands a c here i pid is sources room r))

  -- Under the same conditions, `sys_fork` leaves every address space whose directory is in the allocator's care as it is,
  -- that of the parent among them: the directory stays in its care, each of its addresses translates as before, and each
  -- leads to the same byte where the frame is in use and lies apart from the bitmap.
  pub fork-Isolated :
      (pd : ℕ) → Owns limit k.mem pd → Isolated limit k.mem (fork layout k).1.mem (λ p. ⊥) pd
  fork-Isolated pd other =
      let r = fork-Doubles in
      changed-Isolated (λ p. ⊥) other (λ q part x. x) r.only_ram r.grows r.leaves
