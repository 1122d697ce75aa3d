-- ===== src/Process/Load.antt =====
-- The loop of `create_process` over the pages of a module.
use lbos.Base.{
  ℕ, suc, zero, ◌+◌, ◌-◌, ◌*◌, ◌/◌, ◌%◌, ◌^◌, ◌≤◌, ◌<◌, ◌≡◌, ◌≢◌, ◌⊎◌, refl, sym, ap, ◌∙◌, inl, inr,
  true, false, arith, ◌==◌, ltb, if◌then◌else◌, u32, Bool-cases,
}
use mathlib.Core.Path.{subst}
use native.Mathlib.Decide.{ℕ_discrete}
use lbos.Frames.{Mem, alloc_frame, test_bit}
use lbos.Paging.{get_physical_address, is_present, page_of, kernel_virtual_start}
use lbos.Paging.Guard.{Guarded, Leaves, Leaves-refl}
use lbos.Paging.Mapped.{Written, directory, table}
use lbos.Paging.Ensure.{TableOf, old, new}
use lbos.Paging.Walk.{window, pde}
use lbos.Paging.Owned.{Part, Owns}
use lbos.Paging.Room.{Room}
use lbos.Paging.Spare.{Spare, Kept, Kept-trans}
use lbos.Paging.Handed.{unchanged}
use lbos.Process.Create.{load_pages, copy_size, user_code_start}
use lbos.Process.Page.{IsSource, Loads, round, alloc_frame-Loads}

-- As many pages as the module takes.
abbrev pub pages_needed : ℕ → ℕ
pages_needed size = (size + 4095) / 4096

-- The bytes of a page of the module.
abbrev pub page_byte : Mem → (data_at size q i : ℕ) → ℕ
page_byte m data_at size q i =
    if ltb (q * 4096 + i) size then m.ram (data_at + (q * 4096 + i)) else 0

-- Page `q` of the program stands in a spare frame.
pub record PageStands (limit : ℕ) (m0 m : Mem) (pd data_at size q : ℕ) : Type 0 where
  pub frame : ℕ
  pub spare : Spare limit m pd frame
  pub through :
      (x : ℕ)
      → x < 2 ^ 32
      → x / 4096 ≡ user_code_start / 4096 + q
      → get_physical_address m pd x ≡ frame * 4096 + x % 4096
  pub content :
      (i : ℕ) → i < 4096 → m.ram (frame * 4096 + window + i) ≡ page_byte m0 data_at size q i

-- After `i` pages, with the memory of before as `m0`.
pub record Loaded (limit : ℕ) (m0 : Mem) (pd data_at size i : ℕ) (m : Mem) : Type 0 where
  pub kept : Kept limit m0 m pd
  pub pages : (q : ℕ) → q < i → PageStands limit m0 m pd data_at size q
  pub source : (b : ℕ) → data_at ≤ b → b < data_at + size → m.ram b ≡ m0.ram b
  pub tables :
      (x : ℕ)
      → x < kernel_virtual_start
      → is_present (pde m pd x) ≡ true
      → test_bit m0 (page_of (pde m pd x) / 4096) ≡ false
  pub leaves : Leaves limit m0 m (λ p. p ≡ pd)
  pub others :
      (x : ℕ)
      → x < 2 ^ 32
      → (x / 4096 < user_code_start / 4096) ⊎ (user_code_start / 4096 + i ≤ x / 4096)
      → get_physical_address m pd x ≡ get_physical_address m0 pd x

module _ {limit : ℕ} {m0 : Mem} {pd : ℕ} (data_at size : ℕ)
    (src : IsSource limit m0 pd data_at size)
    (fits : user_code_start + size + 4096 ≤ kernel_virtual_start)
    (bare : (x : ℕ) → x < kernel_virtual_start → is_present (pde m0 pd x) ≡ false) where
  abbrev part : ℕ → ℕ
  part i = if ltb size (i * 4096 + 4096) then size - i * 4096 else 4096

  -- A page that was there before stays.
  stays :
      {m m' : Mem} {q i a c : ℕ}
      → Loads limit m pd (user_code_start + i * 4096) (data_at + i * 4096) (part i) a c m'
      → q < i
      → PageStands limit m0 m pd data_at size q
      → PageStands limit m0 m' pd data_at size q
  stays {q = q} {i = i} l lt s = record {
    frame = s.frame;
    spare = l.kept.spares s.frame s.spare;
    through = λ x hx page.
        let other : ((user_code_start + i * 4096) / 4096 == x / 4096) ≡ false = ground arith in
        l.through x hx ∙ rw other (s.through x hx page);
    content = λ j hj.
        l.stays s.frame s.spare (s.frame * 4096 + window + j) (omega arith) (omega arith)
        ∙ s.content j hj;
  }

  source-Spare :
      {m : Mem} {i : ℕ} (now : Loaded limit m0 pd data_at size i m) (b : ℕ)
      → data_at ≤ b
      → b < data_at + size
      → (window ≤ b) × (m.ram b < 256) × Spare limit m pd ((b - window) / 4096)
  source-Spare now b lo hi =
      let (above, byte, s) = src b lo hi in
      (above, rw (now.source b lo hi) byte, now.kept.spares ((b - window) / 4096) s)

  fresh :
      {m m' : Mem} {i a c : ℕ}
      → i * 4096 < size
      → Loaded limit m0 pd data_at size i m
      → Loads limit m pd (user_code_start + i * 4096) (data_at + i * 4096) (part i) a c m'
      → PageStands limit m0 m' pd data_at size i
  fresh {m} {m'} {i} more now l = record {
    frame = l.frame;
    spare = l.spare;
    through = λ x hx page.
        let same : ((user_code_start + i * 4096) / 4096 == x / 4096) ≡ true = ground arith in
        l.through x hx ∙ rw same refl;
    content = λ j hj. l.content j hj ∙ elim (Bool-cases (ltb (i * 4096 + j) size)) [
      | inl inside ↦
          let filled : ltb j (part i) ≡ true = ground arith in
          let at : data_at + i * 4096 + j ≡ data_at + (i * 4096 + j) = omega arith in
          rw (filled, inside, at)
            (now.source (data_at + (i * 4096 + j)) (omega arith) (ground arith))
      | inr behind ↦ let empty : ltb j (part i) ≡ false = ground arith in rw (empty, behind) refl
    ];
  }

  -- The tables of the program lie in frames that were free.
  free_table :
      {m m' : Mem} {i : ℕ}
      → Loaded limit m0 pd data_at size i m
      → Kept limit m m' pd
      → (x : ℕ) → x < kernel_virtual_start
      → is_present (pde m' pd x) ≡ true
      → TableOf m pd x (page_of (pde m' pd x))
      → test_bit m0 (page_of (pde m' pd x) / 4096) ≡ false
  free_table now kept x hx here (old here' e) =
      ap (λ (t : ℕ). test_bit m0 (t / 4096)) e ∙ now.tables x hx here'
  free_table {m} {m'} now kept x hx here (new j free e) =
      let t = page_of (pde m' pd x) in
      let low = kept.owns.below t (Part.table x (omega arith) here refl) in
      let index : t / 4096 ≡ j = omega (arith, e) in
      rw index (ground (arith, now.kept.grows j, e, low))

  next-Leaves :
      {m m' : Mem} {i a c : ℕ}
      → i * 4096 < size
      → Loaded limit m0 pd data_at size i m
      → Loads limit m pd (user_code_start + i * 4096) (data_at + i * 4096) (part i) a c m'
      → Leaves limit m0 m' (λ p. p ≡ pd)
  next-Leaves {m} {m'} {i} more now l j g n =
      let (same, g') = now.leaves j g n in
      let (same', g'') = l.leaves j g' (not-Table j g n) in
      (λ b lo hi. same' b lo hi ∙ same b lo hi, g'')
    where
      not-Table :
          (j : ℕ)
          → Guarded limit m0 j
          → ¬ (j * 4096 ≡ pd)
          → ¬ Written m pd (user_code_start + i * 4096) (j * 4096)
      not-Table j g n (directory e) = n e
      not-Table j g n (table here e) =
          let index : page_of (pde m pd (user_code_start + i * 4096)) / 4096 ≡ j =
            omega (arith, e) in
          let free = now.tables (user_code_start + i * 4096) (omega (arith, fits)) here in
          let used = g.used in
          let free' = subst (λ (q : ℕ). test_bit m0 q ≡ false) index free in ground arith

  next :
      {m m' : Mem} {i a c : ℕ}
      → i * 4096 < size
      → Loaded limit m0 pd data_at size i m
      → Loads limit m pd (user_code_start + i * 4096) (data_at + i * 4096) (part i) a c m'
      → Loaded limit m0 pd data_at size (i + 1) m'
  next {m} {m'} {i} more now l = record {
    kept = Kept-trans now.kept l.kept;
    pages = λ q lt. elim (ℕ_discrete q i) [
      | yes e ↦ subst (PageStands limit m0 m' pd data_at size) (sym e) (fresh more now l)
      | no n ↦ stays l (omega arith) (now.pages q (omega arith))
    ];
    source = λ b lo hi.
        let (above, byte, s) = source-Spare now b lo hi in
        l.stays ((b - window) / 4096) s b (omega arith) (omega arith) ∙ now.source b lo hi;
    tables = λ x hx here. free_table now l.kept x hx here (l.tables x (omega arith) here);
    leaves = next-Leaves more now l;
    others = λ x hx out.
        let other : ((user_code_start + i * 4096) / 4096 == x / 4096) ≡ false = ground arith in
        l.through x hx ∙ rw other (now.others x hx (ground arith));
  }

  -- The round of the code is that of `round`.
  load_pages-step :
      (rounds i : ℕ) (m : Mem)
      → (alloc_frame m).0 ≢ 0
      → i * 4096 < size
      → load_pages pd data_at size (suc rounds) i (user_code_start + i * 4096) m
        ≡ load_pages pd data_at size rounds
            (i + 1)
            (user_code_start + (i + 1) * 4096)
            (round pd (user_code_start + i * 4096) (data_at + i * 4096) (part i) (alloc_frame m))
  unfolding load_pages
  load_pages-step rounds i m got more =
      let address : ((alloc_frame m).0 == 0) ≡ false = ground arith in
      let offset : u32 (i * 4096) ≡ i * 4096 = omega arith in
      let vaddr : u32 (user_code_start + i * 4096 + 4096) ≡ user_code_start + (i + 1) * 4096 =
        omega arith in
      let amount : copy_size size (i * 4096) ≡ part i = ground arith in
      rw (address, offset, vaddr, amount) refl

  loop-Loaded :
      (rounds i a c : ℕ) (m : Mem)
      → i + rounds ≡ pages_needed size
      → Room limit m a (rounds * 2 + c)
      → Loaded limit m0 pd data_at size i m
      → ((load_pages pd data_at size rounds i (user_code_start + i * 4096) m).0 ≡ true)
        × Loaded limit m0 pd data_at size
            (pages_needed size)
            (load_pages pd data_at size rounds i (user_code_start + i * 4096) m).1
  unfolding load_pages
  loop-Loaded zero i a c m e room now =
      let all : i ≡ pages_needed size = omega (arith, e) in
      (refl, subst (λ (j : ℕ). Loaded limit m0 pd data_at size j m) all now)
  loop-Loaded (suc rounds) i a c m e room now =
      let more : i * 4096 < size = omega (arith, e) in
      let two : suc rounds * 2 + c ≡ 1 + (1 + (rounds * 2 + c)) = omega arith in
      let bound : part i ≤ 4096 = ground arith in
      let inside : i * 4096 + part i ≤ size = ground arith in
      let (got, l) =
        alloc_frame-Loads now.kept.owns (user_code_start + i * 4096) (data_at + i * 4096) (part i) a
          (rounds * 2 + c) (omega arith) bound (subst (Room limit m a) two room)
          (λ b lo hi. source-Spare now b (omega arith) (omega (arith, inside))) in
      rw (load_pages-step rounds i m got more)
        (loop-Loaded rounds (i + 1) (a + 1 + 1) c _ (omega (arith, e)) l.room (next more now l))

  pub load_pages-Loaded :
      (a c : ℕ)
      → Owns limit m0 pd
      → Room limit m0 a (pages_needed size * 2 + c)
      → ((load_pages pd data_at size (pages_needed size) 0 user_code_start m0).0 ≡ true)
        × Loaded limit m0 pd data_at size
            (pages_needed size)
            (load_pages pd data_at size (pages_needed size) 0 user_code_start m0).1
  load_pages-Loaded a c o room =
      loop-Loaded (pages_needed size) 0 a c m0 (omega arith) room (record {
        kept = unchanged o;
        pages = λ q lt. absurd (omega arith);
        source = λ b lo hi. refl;
        tables = λ x hx here. absurd (let gone = bare x hx in cc (sym gone ∙ here));
        leaves = Leaves-refl m0 (λ p. p ≡ pd);
        others = λ x hx out. refl;
      })
