-- ===== src/Paging/Filled.antt =====
-- The memory of a new directory that `create_page_directory` fills, in the free frame `k`.
use lbos.Base.{
  ℕ, ◌+◌, ◌*◌, ◌^◌, ◌≤◌, ◌<◌, ◌≡◌, ◌≢◌, ◌⊎◌, refl, sym, ap, ◌∙◌, inl, inr, true, false, arith, leb,
  if◌then◌else◌, Bool-cases,
}
use lbos.Memory.{Ram, load32, memset}
use lbos.Memory.Blocks.{IsBytes, memset-outside, load32-memset_zero, load32-memset_apart}
use lbos.Frames.{Mem, set_bit, test_bit, phys_to_virt}
use lbos.Paging.{page_table_size, is_present, page_of, pd_index, copy_entries}
use lbos.Paging.Walk.{window, pde, phys_to_virt_lem}
use lbos.Paging.Same.{with_ram}
use lbos.Paging.Owned.{Part, root, table, Owns, Within, free-ne-Part}
use lbos.Paging.Fresh.{SameTranslations, set_bit-same}
use lbos.Paging.Copy.{copy_entries-outside, load32-copy_entries}
use lbos.Paging.Spare.{
  Spare, Kept, alloc-Spare, set_bit-Kept, set_bit-Keeps, written-Kept, written-same, Kept-trans,
}

pub load32-lt : (m : Ram) (a : ℕ) → IsBytes m → load32 m a < 2 ^ 32
unfolding load32
load32-lt m a bytes = omega (arith, bytes a, bytes (a + 1), bytes (a + 2), bytes (a + 3))

module _ {limit : ℕ} {m : Mem} {kernel : ℕ} (o : Owns limit m kernel) (bytes : IsBytes m.ram)
    (at : ℕ) (stands : at ≡ kernel + window) where
  abbrev pub copied : ℕ → Mem → Ram
  copied p m1 =
      copy_entries (phys_to_virt m1 p) at 256 768 (memset m1.ram (phys_to_virt m1 p) 0 4096)

  module _ (k : ℕ) (lt : k < limit) (free : test_bit m k ≡ false) where
    abbrev pub marked : Mem
    marked = set_bit m k

    pub marked-Kept : Kept limit m marked kernel
    marked-Kept = set_bit-Kept o k lt

    pub spare : Spare limit marked kernel k
    spare = alloc-Spare o k lt free

    abbrev pub target : ℕ
    target = phys_to_virt marked (k * 4096)

    pub target_lem : target ≡ k * 4096 + window
    target_lem =
        phys_to_virt_lem marked (k * 4096) marked-Kept.owns.directory.window
          (omega (arith, o.small, lt))

    apart : (target + 4096 ≤ at) ⊎ (at + 4096 ≤ target)
    apart =
        let other = free-ne-Part o k kernel free (root refl) in
        let aligned = o.directory.frame.1 in ground (arith, target_lem)

    abbrev pub result : Mem
    result = with_ram marked (copied (k * 4096) marked)

    pub copied-Within : Within marked.ram result.ram (k * 4096)
    copied-Within b out =
        copy_entries-outside target at apart 256 768 b _ (omega arith) (ground (arith, target_lem))
        ∙ memset-outside marked.ram target 0 4096 b (ground (arith, target_lem))

    pub result-Kept : Kept limit m result kernel
    result-Kept =
        Kept-trans marked-Kept (written-Kept marked-Kept.owns k spare result.ram copied-Within)

    pub result-same : SameTranslations m result kernel
    result-same x hx =
        written-same marked-Kept.owns k spare result.ram copied-Within x hx
        ∙ set_bit-same o k lt x hx

    abbrev zeroed : Ram
    zeroed = memset marked.ram target 0 4096

    source-zeroed : (x : ℕ) → x < 2 ^ 32 → load32 zeroed (at + 4 * pd_index x) ≡ pde m kernel x
    unfolding set_bit
    source-zeroed x hx =
        let same : at ≡ phys_to_virt marked kernel =
          stands ∙ sym (phys_to_virt_lem marked kernel o.directory.window o.directory.frame.0) in
        load32-memset_apart marked.ram target 4096 (at + 4 * pd_index x) (ground (arith, apart))
        ∙ ap (λ (a : ℕ). load32 marked.ram (a + 4 * pd_index x)) same
        ∙ set_bit-Keeps o k lt x hx

    -- The new entries.
    pub pde-result :
        (x : ℕ)
        → x < 2 ^ 32
        → pde result (k * 4096) x ≡ (if leb 768 (pd_index x) then pde m kernel x else 0)
    unfolding phys_to_virt
    pde-result x hx =
        let w = pd_index x in
        let word : pde m kernel x < 2 ^ 32 = load32-lt m.ram _ bytes in
        let zero_word : load32 zeroed (target + 4 * w) ≡ 0 =
          load32-memset_zero marked.ram target 4096 (target + 4 * w) (omega arith) (omega arith) in
        load32-copy_entries target at apart 256 768 w zeroed (omega arith) (omega arith)
        ∙ rw (source-zeroed x hx, zero_word) (ground arith)

    -- A present entry is one of the kernel's.
    pub data Reads (x : ℕ) : Type 0 where
      shared : 768 ≤ pd_index x → pde result (k * 4096) x ≡ pde m kernel x → Reads x
      absent : pd_index x < 768 → pde result (k * 4096) x ≡ 0 → Reads x

    pub reads : (x : ℕ) → x < 2 ^ 32 → Reads x
    reads x hx = elim (Bool-cases (leb 768 (pd_index x))) [
      | inl high ↦ shared (ground arith) (pde-result x hx ∙ rw high refl)
      | inr low ↦ absent (ground arith) (pde-result x hx ∙ rw low refl)
    ]

    pub present_shared :
        (x : ℕ)
        → x < 2 ^ 32
        → is_present (pde result (k * 4096) x) ≡ true
        → pde result (k * 4096) x ≡ pde m kernel x
    present_shared x hx here = elim (reads x hx) [
      | shared high e ↦ e
      | absent low e ↦ absurd (let gone = ap is_present e in cc (sym gone ∙ here))
    ]

    pub Part-result : (p : ℕ) → Part result (k * 4096) p → (p ≡ k * 4096) ⊎ Part m kernel p
    Part-result p (root e) = inl e
    Part-result p (table x hx here e) =
        let q = present_shared x hx here in
        inr (table x hx (ap is_present (sym q) ∙ here) (e ∙ ap page_of q))

    unused : (p : ℕ) → Part m kernel p → k * 4096 ≢ p
    unused p part = free-ne-Part o k p free part

    pub result-tables :
        (x : ℕ)
        → x < 2 ^ 32
        → is_present (pde result (k * 4096) x) ≡ true
        → (page_of (pde result (k * 4096) x) < page_table_size * 4096)
          × (k * 4096 ≢ page_of (pde result (k * 4096) x))
    result-tables x hx here =
        let q = present_shared x hx here in
        let here' = ap is_present (sym q) ∙ here in
        rw q (
          (o.directory.tables x hx here').0,
          unused (page_of (pde m kernel x)) (table x hx here' refl),
        )

    pub result-unshared :
        (x y : ℕ)
        → x < 2 ^ 32
        → y < 2 ^ 32
        → is_present (pde result (k * 4096) x) ≡ true
        → is_present (pde result (k * 4096) y) ≡ true
        → page_of (pde result (k * 4096) x) ≡ page_of (pde result (k * 4096) y)
        → pd_index x ≡ pd_index y
    result-unshared x y hx hy here here' e =
        let q = present_shared x hx here in
        let q' = present_shared y hy here' in
        o.directory.unshared x y hx hy (ap is_present (sym q) ∙ here)
          (ap is_present (sym q') ∙ here') (sym (ap page_of q) ∙ e ∙ ap page_of q')
