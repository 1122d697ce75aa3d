-- ===== src/Syscall/Forked.antt =====
-- The pages of the parent that `sys_fork` has copied.
use lbos.Base.{
  ℕ, ◌+◌, ◌*◌, ◌/◌, ◌%◌, ◌^◌, ◌≤◌, ◌<◌, ◌≡◌, ◌≢◌, ◌⊎◌, refl, sym, ap, ◌∙◌, inl, inr, Bool, true,
  false, arith, ◌==◌, ltb, ◌&&◌,
}
use mathlib.Core.Path.{subst}
use native.Mathlib.Decide.{ℕ_discrete}
use lbos.Memory.{load32}
use lbos.Frames.{Mem, test_bit}
use lbos.Paging.{page_of, is_present, pte_at, get_physical_address, kernel_virtual_start}
use lbos.Paging.Walk.{window, pde, page_of_aligned}
use lbos.Paging.Same.{Same}
use lbos.Paging.Owned.{Part}
use lbos.Paging.Ensure.{TableOf, old, new}
use lbos.Paging.Marked.{Spare-Guarded}
use lbos.Paging.Guard.{Guarded, Leaves}
use lbos.Paging.Spare.{Spare, Kept, Kept-trans}
use lbos.Paging.Mapped.{Written, directory, table}
use lbos.Process.Page.{Loads}

-- The entry of page `q` in the table that the directory `pp` has for it.
abbrev pub entry_of : Mem → (pp q : ℕ) → ℕ
entry_of m pp q = load32 m.ram (pte_at m (page_of (pde m pp (q * 4096))) (q * 4096))

-- Page `q` is there.
abbrev pub has : Mem → (pp q : ℕ) → Bool
has m pp q = is_present (pde m pp (q * 4096)) && is_present (entry_of m pp q)

-- Page `q` of the child is a copy, with the memory of before as `m0`.
pub record PageCopied (limit : ℕ) (m0 m : Mem) (pp pd q : ℕ) : Type 0 where
  pub frame : ℕ
  pub spare : Spare limit m pd frame
  pub through :
      (x : ℕ) → x < 2 ^ 32 → x / 4096 ≡ q → get_physical_address m pd x ≡ frame * 4096 + x % 4096
  pub content :
      (i : ℕ)
      → i < 4096
      → m.ram (frame * 4096 + window + i) ≡ m0.ram (page_of (entry_of m0 pp q) + window + i)

-- The pages below `n` are copied.
pub record Forked (limit : ℕ) (m0 : Mem) (pp pd n : ℕ) (m : Mem) : Type 0 where
  pub kept : Kept limit m0 m pd
  pub leaves : Leaves limit m0 m (λ p. p ≡ pd)
  pub tables :
      (x : ℕ)
      → x < kernel_virtual_start
      → is_present (pde m pd x) ≡ true
      → test_bit m0 (page_of (pde m pd x) / 4096) ≡ false
  pub pages : (q : ℕ) → q < n → has m0 pp q ≡ true → PageCopied limit m0 m pp pd q
  pub others :
      (x : ℕ)
      → x < 2 ^ 32
      → (n ≤ x / 4096) ⊎ (has m0 pp (x / 4096) ≡ false)
      → get_physical_address m pd x ≡ get_physical_address m0 pd x

module _ {limit : ℕ} {m0 : Mem} {pp pd : ℕ} where
  -- A page that is not there takes no copy.
  pub skip :
      {n : ℕ} {m : Mem} (c : ℕ)
      → ((q : ℕ) → n ≤ q → q < n + c → has m0 pp q ≡ false)
      → Forked limit m0 pp pd n m
      → Forked limit m0 pp pd (n + c) m
  skip {n} {m} c gone now = record {
    kept = now.kept;
    leaves = now.leaves;
    tables = now.tables;
    pages = λ q lt is. now.pages q (ground (arith, gone q)) is;
    others = λ x hx out. elim (ℕ_before n c (x / 4096)) [
      | inl behind ↦
          now.others x hx (elim out [ inl far ↦ inl (omega arith) | inr gone_q ↦ inr gone_q ])
      | inr (lo, hi) ↦ now.others x hx (inr (gone (x / 4096) lo hi))
    ];
  }
    where
      ℕ_before : (n c q : ℕ) → ((q < n) ⊎ (n + c ≤ q)) ⊎ ((n ≤ q) × (q < n + c))
      ℕ_before n c q = ground arith

  module _ {m m' : Mem} {n a c : ℕ} (below : n * 4096 < kernel_virtual_start)
      (now : Forked limit m0 pp pd n m) (is : has m0 pp n ≡ true)
      (src : Spare limit m0 pd (page_of (entry_of m0 pp n) / 4096))
      (l : Loads limit m pd (n * 4096) (page_of (entry_of m0 pp n) + window) 4096 a c m') where
    source-Same : (j : ℕ) → Spare limit m0 pd j → Same m0.ram m.ram (j * 4096)
    source-Same j s = (now.leaves j (Spare-Guarded s) (s.other pd (Part.root refl))).0

    stays : {q : ℕ} → q < n → PageCopied limit m0 m pp pd q → PageCopied limit m0 m' pp pd q
    stays {q} lt s = record {
      frame = s.frame;
      spare = l.kept.spares s.frame s.spare;
      through = λ x hx page.
          let other : (n * 4096 / 4096 == x / 4096) ≡ false = ground arith in
          l.through x hx ∙ rw other (s.through x hx page);
      content = λ i hi.
          l.stays s.frame s.spare (s.frame * 4096 + window + i) (omega arith) (omega arith)
          ∙ s.content i hi;
    }

    fresh : PageCopied limit m0 m' pp pd n
    fresh = record {
      frame = l.frame;
      spare = l.spare;
      through = λ x hx page.
          let same : (n * 4096 / 4096 == x / 4096) ≡ true = ground arith in
          l.through x hx ∙ rw same refl;
      content = λ i hi.
          let all : ltb i 4096 ≡ true = ground arith in
          let whole = page_of_aligned (entry_of m0 pp n) in
          l.content i hi
          ∙ rw all (
              source-Same (page_of (entry_of m0 pp n) / 4096) src
                (page_of (entry_of m0 pp n) + window + i) (omega (arith, whole))
                (omega (arith, whole)));
    }

    free_table :
        (x : ℕ)
        → x < kernel_virtual_start
        → is_present (pde m' pd x) ≡ true
        → TableOf m pd x (page_of (pde m' pd x))
        → test_bit m0 (page_of (pde m' pd x) / 4096) ≡ false
    free_table x hx here (old here' e) =
        ap (λ (t : ℕ). test_bit m0 (t / 4096)) e ∙ now.tables x hx here'
    free_table x hx here (new j free e) =
        let t = page_of (pde m' pd x) in
        let low = l.kept.owns.below t (Part.table x (omega arith) here refl) in
        let index : t / 4096 ≡ j = omega (arith, e) in
        rw index (ground (arith, now.kept.grows j, e, low))

    not-Written :
        (j : ℕ) → Guarded limit m0 j → ¬ (j * 4096 ≡ pd) → ¬ Written m pd (n * 4096) (j * 4096)
    not-Written j g ne (directory e) = ne e
    not-Written j g ne (table here e) =
        let index : page_of (pde m pd (n * 4096)) / 4096 ≡ j = omega (arith, e) in
        let free = now.tables (n * 4096) below here in
        let free' = subst (λ (q : ℕ). test_bit m0 q ≡ false) index free in
        let used = g.used in ground arith

    pub add : Forked limit m0 pp pd (n + 1) m'
    add = record {
      kept = Kept-trans now.kept l.kept;
      leaves = λ j g ne.
          let (same, g') = now.leaves j g ne in
          let (same', g'') = l.leaves j g' (not-Written j g ne) in
          (λ b lo hi. same' b lo hi ∙ same b lo hi, g'');
      tables = λ x hx here. free_table x hx here (l.tables x (omega arith) here);
      pages = λ q lt has_q. elim (ℕ_discrete q n) [
        | yes e ↦ subst (PageCopied limit m0 m' pp pd) (sym e) fresh
        | no ne ↦ stays (omega arith) (now.pages q (omega arith) has_q)
      ];
      others = λ x hx out.
          let apart = not-here (x / 4096) out in
          let other : (n * 4096 / 4096 == x / 4096) ≡ false = ground arith in
          l.through x hx
          ∙ rw other (
              now.others x hx (elim out [ inl far ↦ inl (omega arith) | inr gone_q ↦ inr gone_q ]));
    }
      where
        not-here : (q : ℕ) → (n + 1 ≤ q) ⊎ (has m0 pp q ≡ false) → q ≢ n
        not-here q (inl far) e = omega arith
        not-here q (inr gone_q) e =
            let no' = subst (λ (j : ℕ). has m0 pp j ≡ false) e gone_q in cc (sym no' ∙ is)
