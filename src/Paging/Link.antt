-- ===== src/Paging/Link.antt =====
-- An empty table is put into an entry of a directory that was not present.
use lbos.Base.{
  ℕ, ◌+◌, ◌*◌, ◌/◌, ◌^◌, ◌≤◌, ◌<◌, ◌≡◌, ◌≢◌, ◌⊎◌, refl, sym, ap, ◌∙◌, inl, inr, Bool, true, false,
  arith, ◌==◌, if◌then◌else◌, u32, bit_and-page,
}
use native.Mathlib.Decide.{ℕ_discrete}
use lbos.Memory.{load32, store32}
use lbos.Memory.Words.{store32-outside, load32-store32_self, load32-store32-Apart, load32-zero}
use lbos.Frames.{Mem, test_bit, phys_to_virt}
use lbos.Paging.{
  page_table_size, is_present, page_of, pd_index, pt_index, pde_at, pte_at, get_physical_address,
}
use lbos.Paging.Walk.{window, pde, is_present_lem, pt_index_lem, phys_to_virt_lem}
use lbos.Paging.Spare.{Spare}
use lbos.Paging.Table.{table_entry, table_entry_lem}
use lbos.Paging.Entry.{walks, get_physical_address_lem}
use lbos.Paging.Same.{with_ram, load32-Same}
use lbos.Paging.Owned.{Part, root, table, Owns, Within, Within-Same, test_bit-Within, Part-IsFrame}

module _ {limit : ℕ} {m : Mem} {pd v : ℕ} (o : Owns limit m pd) (hv : v < 2 ^ 32)
    (gone : is_present (pde m pd v) ≡ false) (k : ℕ) (s : Spare limit m pd k) where
  abbrev at : ℕ
  at = pde_at m pd v

  abbrev pub linked : Mem
  linked = with_ram m (store32 m.ram at (table_entry (k * 4096)))

  pub linked-Within : Within m.ram linked.ram pd
  linked-Within b out =
      let base = phys_to_virt_lem m pd o.directory.window o.directory.frame.0 in
      store32-outside m.ram at _ b (ground arith)

  entry-page : page_of (table_entry (k * 4096)) ≡ k * 4096
  entry-page =
      ap page_of (table_entry_lem k)
      ∙ bit_and-page (k * 4096 + 7) (omega (arith, o.small, s.below))
      ∙ omega arith

  pde-linked :
      (x : ℕ)
      → pde linked pd x ≡ (if pd_index v == pd_index x then table_entry (k * 4096) else pde m pd x)
  unfolding phys_to_virt
  pde-linked x = elim (ℕ_discrete (pd_index v) (pd_index x)) [
    | yes same ↦
        let slots : pde_at m pd v ≡ pde_at m pd x =
          ap (λ (i : ℕ). phys_to_virt m pd + 4 * i) same in
        let word : u32 (table_entry (k * 4096)) ≡ table_entry (k * 4096) =
          omega (arith, table_entry_lem k, o.small) in
        rw (← slots) (load32-store32_self m.ram at (table_entry (k * 4096)) ∙ word ∙ ground arith)
    | no n ↦
        load32-store32-Apart m.ram at (table_entry (k * 4096)) (pde_at m pd x) (ground arith)
        ∙ ground arith
  ]

  -- What an entry of the new directory says.
  data Reads (x : ℕ) : Type 0 where
    fresh : pd_index v ≡ pd_index x → pde linked pd x ≡ table_entry (k * 4096) → Reads x
    old : pd_index v ≢ pd_index x → pde linked pd x ≡ pde m pd x → Reads x

  reads : (x : ℕ) → Reads x
  reads x = elim (ℕ_discrete (pd_index v) (pd_index x)) [
    | yes same ↦ fresh same (pde-linked x ∙ ground arith)
    | no n ↦ old n (pde-linked x ∙ ground arith)
  ]

  gone_same : (x : ℕ) → pd_index v ≡ pd_index x → is_present (pde m pd x) ≡ false
  gone_same x same =
      ap (λ (i : ℕ). is_present (load32 m.ram (phys_to_virt m pd + 4 * i))) (sym same) ∙ gone

  page_fresh :
      (x : ℕ) → pde linked pd x ≡ table_entry (k * 4096) → page_of (pde linked pd x) ≡ k * 4096
  page_fresh x e = ap page_of e ∙ entry-page

  Part-linked : (p : ℕ) → Part linked pd p → (p ≡ k * 4096) ⊎ Part m pd p
  Part-linked p (root e) = inr (root e)
  Part-linked p (table x hx here e) = elim (reads x) [
    | fresh same q ↦ inl (e ∙ page_fresh x q)
    | old n q ↦ inr (table x hx (ap is_present (sym q) ∙ here) (e ∙ ap page_of q))
  ]

  linked-tables :
      (x : ℕ)
      → x < 2 ^ 32
      → is_present (pde linked pd x) ≡ true
      → (page_of (pde linked pd x) < page_table_size * 4096) × (pd ≢ page_of (pde linked pd x))
  linked-tables x hx here = elim (reads x) [
    | fresh same q ↦
        rw (page_fresh x q) (omega (arith, o.small, s.below), λ e. s.other pd (root refl) (sym e))
    | old n q ↦ rw q (o.directory.tables x hx (ap is_present (sym q) ∙ here))
  ]

  table-ne : (x : ℕ) → x < 2 ^ 32 → is_present (pde m pd x) ≡ true → k * 4096 ≢ page_of (pde m pd x)
  table-ne x hx here = s.other (page_of (pde m pd x)) (table x hx here refl)

  linked-unshared :
      (x y : ℕ)
      → x < 2 ^ 32
      → y < 2 ^ 32
      → is_present (pde linked pd x) ≡ true
      → is_present (pde linked pd y) ≡ true
      → page_of (pde linked pd x) ≡ page_of (pde linked pd y)
      → pd_index x ≡ pd_index y
  linked-unshared x y hx hy hx' hy' e = elim (reads x) [
    | fresh same q ↦ elim (reads y) [
      | fresh same' q' ↦ sym same ∙ same'
      | old n' q' ↦
          absurd (
            table-ne y hy (ap is_present (sym q') ∙ hy') (sym (page_fresh x q) ∙ e ∙ ap page_of q'))
    ]
    | old n q ↦ elim (reads y) [
      | fresh same' q' ↦ absurd (
          table-ne x hx (ap is_present (sym q) ∙ hx')
            (sym (page_fresh y q') ∙ sym e ∙ ap page_of q))
      | old n' q' ↦
          o.directory.unshared x y hx hy (ap is_present (sym q) ∙ hx')
            (ap is_present (sym q') ∙ hy') (sym (ap page_of q) ∙ e ∙ ap page_of q')
    ]
  ]

  pub linked-test_bit : (i : ℕ) → i < limit → test_bit linked i ≡ test_bit m i
  linked-test_bit i hi =
      test_bit-Within m linked.ram i pd (o.apart i pd hi (root refl)) linked-Within

  pub linked-Owns : Owns limit linked pd
  linked-Owns = record {
    directory = record {
      window = o.directory.window;
      frame = o.directory.frame;
      tables = linked-tables;
      unshared = linked-unshared;
    };
    small = o.small;
    frames = o.frames;
    below = λ p part. elim (Part-linked p part) [
      | inl e ↦ omega (arith, e)
      | inr old' ↦ o.below p old'
    ];
    in_use = λ p part. elim (Part-linked p part) [
      | inl e ↦ let index : p / 4096 ≡ k = omega (arith, e) in rw index (still k s.below s.used)
      | inr old' ↦ still (p / 4096) (omega (arith, o.below p old')) (o.in_use p old')
    ];
    apart = λ i p hi part. elim (Part-linked p part) [
      | inl e ↦ rw e (s.away i hi)
      | inr old' ↦ o.apart i p hi old'
    ];
    apart_free = λ i j hi hj free. o.apart_free i j hi hj (sym (linked-test_bit j hj) ∙ free);
  }
    where
      still : (i : ℕ) → i < limit → test_bit m i ≡ true → test_bit linked i ≡ true
      still i hi e = linked-test_bit i hi ∙ e

  pub linked-Spare : (j : ℕ) → j ≢ k → Spare limit m pd j → Spare limit linked pd j
  linked-Spare j ne s' = record {
    below = s'.below;
    used = linked-test_bit j s'.below ∙ s'.used;
    other = λ p part. elim (Part-linked p part) [
      | inl e ↦ λ e'. ne (omega (arith, e, e'))
      | inr old' ↦ s'.other p old'
    ];
    away = s'.away;
  }

  pub linked-reads :
      (x : ℕ) → (page_of (pde linked pd x) ≡ k * 4096) ⊎ (pde linked pd x ≡ pde m pd x)
  linked-reads x = elim (reads x) [ fresh same q ↦ inl (page_fresh x q) | old n q ↦ inr q ]

  pub linked-present : is_present (pde linked pd v) ≡ true
  linked-present =
      ap is_present (pde-linked v)
      ∙ ground (arith, is_present_lem (table_entry (k * 4096)), table_entry_lem k)

  -- The table is empty, so no address gets a translation through it.
  pub linked-same :
      ((b : ℕ) → k * 4096 + window ≤ b → b < k * 4096 + window + 4096 → m.ram b ≡ 0)
      → (x : ℕ) → x < 2 ^ 32
      → get_physical_address linked pd x ≡ get_physical_address m pd x
  unfolding phys_to_virt
  linked-same empty x hx =
      get_physical_address_lem linked pd x
      ∙ through (reads x)
      ∙ sym (get_physical_address_lem m pd x)
    where
      word_fresh : load32 linked.ram (pte_at linked (k * 4096) x) ≡ 0
      word_fresh =
          let kept =
            Within-Same m.ram linked.ram pd (k * 4096) o.directory.frame.1 (omega arith)
              (λ e. s.other pd (root refl) (sym e)) linked-Within in
          load32-Same m linked.ram (k * 4096) (pt_index x) o.directory.window
            (omega (arith, o.small, s.below)) (omega (arith, pt_index_lem x)) kept
          ∙ rw (phys_to_virt_lem m (k * 4096) o.directory.window (omega (arith, o.small, s.below)))
              (load32-zero m.ram (k * 4096 + window + 4 * pt_index x) (k * 4096 + window)
                (k * 4096 + window + 4096) empty (omega arith) (omega (arith, pt_index_lem x)))

      under_old :
          (b : Bool)
          → is_present (pde m pd x) ≡ b
          → walks (pde m pd x) (load32 linked.ram (pte_at linked (page_of (pde m pd x)) x)) x
            ≡ walks (pde m pd x) (load32 m.ram (pte_at m (page_of (pde m pd x)) x)) x
      under_old false absent = rw absent refl
      under_old true here =
          let t = page_of (pde m pd x) in
          let f = Part-IsFrame o.directory (table x hx here refl) in
          let kept =
            Within-Same m.ram linked.ram pd t o.directory.frame.1 f.1
              (o.directory.tables x hx here).1 linked-Within in
          ap (λ (e : ℕ). walks (pde m pd x) e x)
            (load32-Same m linked.ram t (pt_index x) o.directory.window f.0
              (omega (arith, pt_index_lem x)) kept)

      through :
          Reads x
          → walks
              (pde linked pd x)
              (load32 linked.ram (pte_at linked (page_of (pde linked pd x)) x))
              x
            ≡ walks (pde m pd x) (load32 m.ram (pte_at m (page_of (pde m pd x)) x)) x
      through (fresh same q) = rw (page_fresh x q, word_fresh, gone_same x same) (ground arith)
      through (old n q) = rw q (under_old (is_present (pde m pd x)) refl)
