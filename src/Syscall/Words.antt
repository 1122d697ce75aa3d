-- ===== src/Syscall/Words.antt =====
-- The entries of a directory and of its tables, as they are read while the frames they lie in stay the same.
use lbos.Base.{
  ℕ, ◌+◌, ◌*◌, ◌/◌, ◌%◌, ◌≤◌, ◌<◌, ◌≡◌, refl, sym, ap, ◌∙◌, inl, inr, Bool, true, false, arith,
  ◌&&◌, Bool-cases,
}
use mathlib.Core.Path.{subst}
use lbos.Memory.{load32}
use lbos.Frames.{Mem, phys_to_virt}
use lbos.Paging.{page_of, is_present, pd_index, pt_index, kernel_virtual_start}
use lbos.Paging.Walk.{pde, pt_index_lem}
use lbos.Paging.Same.{with_ram, Same, load32-Same}
use lbos.Paging.Owned.{Part, root, table, Owns, Part-IsFrame}
use lbos.Paging.Guard.{Leaves}
use lbos.Paging.Isolated.{Part-Same}
use lbos.Syscall.Forked.{entry_of, has}

module _ {limit : ℕ} {m0 : Mem} {pp : ℕ} (o : Owns limit m0 pp) where
  module _ {X : ℕ → Type 0} (apart : (q : ℕ) → Part m0 pp q → ¬ X q) {m : Mem}
      (only_ram : m ≡ with_ram m0 m.ram) (leaves : Leaves limit m0 m X) where
    part-Same : (p : ℕ) → Part m0 pp p → Same m0.ram m.ram p
    part-Same p part =
        Part-Same X o apart m.ram (subst (λ (q : Mem). Leaves limit m0 q X) only_ram leaves) p part

    pub window_same : (p : ℕ) → phys_to_virt m p ≡ phys_to_virt m0 p
    unfolding phys_to_virt
    window_same p = ap (λ (q : Mem). phys_to_virt q p) only_ram

    pub directory_word :
        (d : ℕ) → d < 1024 → load32 m.ram (phys_to_virt m0 pp + 4 * d) ≡ pde m0 pp (d * 1024 * 4096)
    directory_word d hd =
        let index : pd_index (d * 1024 * 4096) ≡ d = omega arith in
        rw index (
          load32-Same m0 m.ram pp d o.directory.window o.directory.frame.0 hd
            (part-Same pp (root refl)))

    pub table_word :
        (d i : ℕ)
        → d < 768
        → i < 1024
        → is_present (pde m0 pp (d * 1024 * 4096)) ≡ true
        → load32 m.ram (phys_to_virt m0 (page_of (pde m0 pp (d * 1024 * 4096))) + 4 * i)
          ≡ entry_of m0 pp (d * 1024 + i)
    table_word d i hd hi here =
        let t = page_of (pde m0 pp (d * 1024 * 4096)) in
        let part = table (d * 1024 * 4096) (omega arith) here refl in
        let frame = Part-IsFrame o.directory part in
        let index : pd_index ((d * 1024 + i) * 4096) ≡ pd_index (d * 1024 * 4096) = omega arith in
        let index' : pt_index ((d * 1024 + i) * 4096) ≡ i =
          omega (arith, pt_index_lem ((d * 1024 + i) * 4096)) in
        rw (index, index')
          (load32-Same m0 m.ram t i o.directory.window frame.0 hi (part-Same t part))

-- What a directory says of a page in the part of table `d`.
module _ (m0 : Mem) (pp : ℕ) where
  pub has-present :
      (d i : ℕ)
      → d < 768
      → i < 1024
      → is_present (pde m0 pp (d * 1024 * 4096)) ≡ true
      → has m0 pp (d * 1024 + i) ≡ is_present (entry_of m0 pp (d * 1024 + i))
  has-present d i hd hi here =
      let index : pd_index ((d * 1024 + i) * 4096) ≡ pd_index (d * 1024 * 4096) = omega arith in
      let same : pde m0 pp ((d * 1024 + i) * 4096) ≡ pde m0 pp (d * 1024 * 4096) =
        ap (λ (j : ℕ). load32 m0.ram (phys_to_virt m0 pp + 4 * j)) index in
      let here' : is_present (pde m0 pp ((d * 1024 + i) * 4096)) ≡ true =
        ap is_present same ∙ here in
      ap (λ (b : Bool). b && is_present (entry_of m0 pp (d * 1024 + i))) here'

  pub has-absent :
      (d q : ℕ)
      → d < 768
      → d * 1024 ≤ q
      → q < d * 1024 + 1024
      → is_present (pde m0 pp (d * 1024 * 4096)) ≡ false
      → has m0 pp q ≡ false
  has-absent d q hd lo hi gone =
      let index : pd_index (q * 4096) ≡ pd_index (d * 1024 * 4096) = omega arith in
      let same : pde m0 pp (q * 4096) ≡ pde m0 pp (d * 1024 * 4096) =
        ap (λ (j : ℕ). load32 m0.ram (phys_to_virt m0 pp + 4 * j)) index in
      let gone' : is_present (pde m0 pp (q * 4096)) ≡ false = ap is_present same ∙ gone in
      ap (λ (b : Bool). b && is_present (entry_of m0 pp q)) gone'

-- The pages that are there, seen from both memories.
module _ {limit : ℕ} {m0 : Mem} {pp : ℕ} (o : Owns limit m0 pp) {X : ℕ → Type 0}
    (apart : (q : ℕ) → Part m0 pp q → ¬ X q) {m : Mem} (only_ram : m ≡ with_ram m0 m.ram)
    (leaves : Leaves limit m0 m X) where
  pde-same : (d : ℕ) → d < 1024 → pde m pp (d * 1024 * 4096) ≡ pde m0 pp (d * 1024 * 4096)
  pde-same d hd =
      let index : pd_index (d * 1024 * 4096) ≡ d = omega arith in
      ap (λ (b : ℕ). load32 m.ram (b + 4 * pd_index (d * 1024 * 4096)))
        (window_same o apart only_ram leaves pp)
      ∙ ap (λ (j : ℕ). load32 m.ram (phys_to_virt m0 pp + 4 * j)) index
      ∙ directory_word o apart only_ram leaves d hd

  pub entry-same :
      (d i : ℕ)
      → d < 768
      → i < 1024
      → is_present (pde m0 pp (d * 1024 * 4096)) ≡ true
      → entry_of m pp (d * 1024 + i) ≡ entry_of m0 pp (d * 1024 + i)
  entry-same d i hd hi here =
      let index : pd_index ((d * 1024 + i) * 4096) ≡ pd_index (d * 1024 * 4096) = omega arith in
      let index' : pt_index ((d * 1024 + i) * 4096) ≡ i =
        omega (arith, pt_index_lem ((d * 1024 + i) * 4096)) in
      let at : pde m pp ((d * 1024 + i) * 4096) ≡ pde m0 pp (d * 1024 * 4096) =
        ap (λ (j : ℕ). load32 m.ram (phys_to_virt m pp + 4 * j)) index ∙ pde-same d (omega arith) in
      ap
        (λ (e : ℕ).
          load32 m.ram (phys_to_virt m (page_of e) + 4 * pt_index ((d * 1024 + i) * 4096)))
        at
      ∙ ap
          (λ (j : ℕ). load32 m.ram (phys_to_virt m (page_of (pde m0 pp (d * 1024 * 4096))) + 4 * j))
          index'
      ∙ ap (λ (b : ℕ). load32 m.ram (b + 4 * i))
          (window_same o apart only_ram leaves (page_of (pde m0 pp (d * 1024 * 4096))))
      ∙ table_word o apart only_ram leaves d i hd hi here

  has-same-at : (d i : ℕ) → d < 768 → i < 1024 → has m pp (d * 1024 + i) ≡ has m0 pp (d * 1024 + i)
  has-same-at d i hd hi = elim (Bool-cases (is_present (pde m0 pp (d * 1024 * 4096)))) [
    | inl here ↦
        has-present m pp d i hd hi (ap is_present (pde-same d (omega arith)) ∙ here)
        ∙ ap is_present (entry-same d i hd hi here)
        ∙ sym (has-present m0 pp d i hd hi here)
    | inr gone ↦
        has-absent m pp d (d * 1024 + i) hd (omega arith) (omega arith)
          (ap is_present (pde-same d (omega arith)) ∙ gone)
        ∙ sym (has-absent m0 pp d (d * 1024 + i) hd (omega arith) (omega arith) gone)
  ]

  pub has-same : (q : ℕ) → q * 4096 < kernel_virtual_start → has m pp q ≡ has m0 pp q
  has-same q hq =
      let at : q / 1024 * 1024 + q % 1024 ≡ q = omega arith in
      subst (λ (j : ℕ). has m pp j ≡ has m0 pp j) at
        (has-same-at (q / 1024) (q % 1024) (omega arith) (omega arith))

  -- A page that is there has the same entry.
  pub has-entry :
      (q : ℕ)
      → q * 4096 < kernel_virtual_start
      → has m0 pp q ≡ true
      → entry_of m pp q ≡ entry_of m0 pp q
  has-entry q hq is =
      let at : q / 1024 * 1024 + q % 1024 ≡ q = omega arith in
      elim (Bool-cases (is_present (pde m0 pp (q / 1024 * 1024 * 4096)))) [
        | inl here ↦
            subst (λ (j : ℕ). entry_of m pp j ≡ entry_of m0 pp j) at
              (entry-same (q / 1024) (q % 1024) (omega arith) (omega arith) here)
        | inr gone ↦ absurd (
            let none_there =
              has-absent m0 pp (q / 1024) q (omega arith) (omega arith) (omega arith) gone in
            cc (sym none_there ∙ is))
      ]
