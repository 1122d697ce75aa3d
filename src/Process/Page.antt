-- ===== src/Process/Page.antt =====
-- One page of a module, as `create_process` loads it.
use lbos.Base.{
  ℕ, ◌+◌, ◌-◌, ◌*◌, ◌/◌, ◌%◌, ◌^◌, ◌≤◌, ◌<◌, ◌≡◌, ◌≢◌, ◌⊎◌, refl, sym, ap, ◌∙◌, inl, inr, true,
  false, arith, ◌==◌, ltb, leb, ◌&&◌, if◌then◌else◌, u8, bit_or, Bool-cases,
}
use mathlib.Core.Path.{subst}
use lbos.Frames.{Mem, set_bit, test_bit, phys_to_virt, alloc_frame}
use lbos.Frames.Bitmap.{test_bit-set_bit}
use lbos.Paging.{page_of, map_page, get_physical_address, page_present, page_user, page_rw}
use lbos.Paging.Walk.{window, pde, phys_to_virt_lem}
use lbos.Paging.Same.{with_ram, Same}
use lbos.Paging.Owned.{Part, Owns, Within, test_bit-Within}
use lbos.Paging.Fresh.{set_bit-same}
use lbos.Paging.{is_present}
use lbos.Paging.Ensure.{TableOf}
use lbos.Paging.Marked.{Spare-Guarded, not-Written, marked-TableOf, Written-marked}
use lbos.Paging.Guard.{Guarded-ne-free, Within-Leaves, Leaves, set_bit-Leaves}
use lbos.Paging.Room.{Room, Spends-one, Room-Same, Room-alloc}
use lbos.Paging.Spare.{
  written-Keeps, Spare, Kept, alloc-Spare, set_bit-Kept, written-Kept, written-same, Kept-trans,
}
use lbos.Paging.Handed.{Handed, handed, none_left, alloc_frame-Handed}
use lbos.Paging.Mapped.{Written, Maps, maps, fails, map_page-Maps}
use lbos.Process.Padded.{padded, padded_lem, beside}

abbrev pub user_flags : ℕ
user_flags = bit_or (bit_or page_present page_user) page_rw

-- The bytes from `source` on lie in spare frames.
abbrev pub IsSource : ℕ → Mem → (pd source n : ℕ) → Type 0
IsSource limit m pd source n =
    (b : ℕ)
    → source ≤ b
    → b < source + n
    → (window ≤ b) × (m.ram b < 256) × Spare limit m pd ((b - window) / 4096)

-- The page of `v` leads to a spare frame with the bytes of the source and zeros behind them.
pub record Loads (limit : ℕ) (m : Mem) (pd v source n a c : ℕ) (m' : Mem) : Type 0 where
  pub frame : ℕ
  pub spare : Spare limit m' pd frame
  pub kept : Kept limit m m' pd
  pub through :
      (x : ℕ)
      → x < 2 ^ 32
      → get_physical_address m' pd x
        ≡ (if v / 4096 == x / 4096 then frame * 4096 + x % 4096 else get_physical_address m pd x)
  pub content :
      (i : ℕ)
      → i < 4096
      → m'.ram (frame * 4096 + window + i) ≡ (if ltb i n then m.ram (source + i) else 0)
  pub tables :
      (x : ℕ)
      → x < 2 ^ 32
      → is_present (pde m' pd x) ≡ true
      → TableOf m pd x (page_of (pde m' pd x))
  pub leaves : Leaves limit m m' (Written m pd v)
  pub stays : (j : ℕ) → Spare limit m pd j → Same m.ram m'.ram (j * 4096)
  pub room : Room limit m' (a + 1 + 1) c

-- A round of the loop with what `alloc_frame` answered.
abbrev pub round : (pd v source n : ℕ) → ℕ × Mem → Mem
round pd v source n (frame_phys, m1) =
    let m2 = map_page m1 pd v frame_phys user_flags in
    with_ram m2 (padded n source (phys_to_virt m2 frame_phys) m2.ram)

module _ {limit : ℕ} {m : Mem} {pd : ℕ} (o : Owns limit m pd) (v source n a c : ℕ) (hv : v < 2 ^ 32)
    (fits : n ≤ 4096) (room : Room limit m a (1 + (1 + c)))
    (src : IsSource limit m pd source n) where
  module _ (k : ℕ) (low : k < limit) (free : test_bit m k ≡ false)
      (lower : (j : ℕ) → j < k → test_bit m j ≡ true) where
    abbrev marked : Mem
    marked = set_bit m k

    marked-Kept : Kept limit m marked pd
    marked-Kept = set_bit-Kept o k low

    marked-Room : Room limit marked (a + 1) (1 + c)
    marked-Room =
        Spends-one m marked k low free lower (unfold set_bit in refl)
          (λ j hj. test_bit-set_bit m k j) a (1 + c) room

    module _ (m2 : Mem) (kept : Kept limit marked m2 pd)
        (through : (x : ℕ)
          → x < 2 ^ 32
          → get_physical_address m2 pd x ≡ (
              if v / 4096 == x / 4096
              then k * 4096 + x % 4096
              else get_physical_address marked pd x))
        (leaves : Leaves limit marked m2 (Written marked pd v))
        (tables : (x : ℕ)
          → x < 2 ^ 32
          → is_present (pde m2 pd x) ≡ true
          → TableOf marked pd x (page_of (pde m2 pd x)))
        (room2 : Room limit m2 (a + 1 + 1) c) where
      spare : Spare limit m2 pd k
      spare = kept.spares k (alloc-Spare o k low free)

      abbrev f : ℕ
      f = phys_to_virt m2 (k * 4096)

      f_lem : phys_to_virt m2 (k * 4096) ≡ k * 4096 + window
      f_lem =
          phys_to_virt_lem m2 (k * 4096) kept.owns.directory.window (omega (arith, o.small, low))

      Spare-ne : (j : ℕ) → Spare limit m pd j → j ≢ k
      Spare-ne j s e = let used = subst (λ (i : ℕ). test_bit m i ≡ true) e s.used in ground arith

      stays2 : (j : ℕ) → Spare limit m pd j → Same m.ram m2.ram (j * 4096)
      stays2 j s b lo hi =
          let s' = marked-Kept.spares j s in
          (leaves j (Spare-Guarded s') (not-Written hv s')).0 b lo hi
          ∙ (set_bit-Leaves m k (λ p. ⊥) low j (Spare-Guarded s) (λ x. x)).0 b lo hi

      source-apart : (f + n ≤ source) ⊎ (source + n ≤ f)
      source-apart = rw f_lem (
          beside (k * 4096 + window) source n fits (λ b lo hi.
            let (above, byte, s) = src b lo hi in
            let ne = Spare-ne ((b - window) / 4096) s in ground arith))

      abbrev loaded : Mem
      loaded = with_ram m2 (padded n source f m2.ram)

      loaded_lem :
          (b : ℕ)
          → loaded.ram b ≡ (
              if leb f b && ltb b (f + 4096)
              then (if ltb (b - f) n then u8 (m2.ram (source + (b - f))) else 0)
              else m2.ram b)
      loaded_lem b = padded_lem n source f m2.ram fits source-apart b

      loaded-Within : Within m2.ram loaded.ram (k * 4096)
      loaded-Within b out = loaded_lem b ∙ rw f_lem (ground arith)

      loaded-Kept : Kept limit m2 loaded pd
      loaded-Kept = written-Kept kept.owns k spare loaded.ram loaded-Within

      source-same : (i : ℕ) → i < n → m2.ram (source + i) ≡ m.ram (source + i)
      source-same i hi =
          let (above, byte, s) = src (source + i) (omega arith) (omega arith) in
          let j = (source + i - window) / 4096 in
          stays2 j s (source + i) (omega arith) (omega arith)

      content :
          (i : ℕ)
          → i < 4096
          → loaded.ram (k * 4096 + window + i) ≡ (if ltb i n then m.ram (source + i) else 0)
      content i hi =
          loaded_lem (k * 4096 + window + i)
          ∙ rw f_lem (
              let at : k * 4096 + window + i - (k * 4096 + window) ≡ i = omega arith in
              rw at (inside i hi))
        where
          inside :
              (q : ℕ)
              → q < 4096
              → (if leb (k * 4096 + window) (k * 4096 + window + q)
                    && ltb (k * 4096 + window + q) (k * 4096 + window + 4096)
                  then (if ltb q n then u8 (m2.ram (source + q)) else 0)
                  else m2.ram (k * 4096 + window + q))
                ≡ (if ltb q n then m.ram (source + q) else 0)
          inside q hq = elim (Bool-cases (ltb q n)) [
            | inl filled ↦
                let lt : q < n = ground arith in
                let byte = (src (source + q) (omega arith) (omega arith)).1 in
                rw (filled, source-same q lt) (ground arith)
            | inr behind ↦ rw behind (ground arith)
          ]

      loaded_entry : (x : ℕ) → x < 2 ^ 32 → pde loaded pd x ≡ pde m2 pd x
      loaded_entry x hx = written-Keeps kept.owns k spare loaded.ram loaded-Within x hx

      loaded-TableOf :
          (x : ℕ)
          → x < 2 ^ 32
          → is_present (pde loaded pd x) ≡ true
          → TableOf m pd x (page_of (pde loaded pd x))
      loaded-TableOf x hx here =
          let same = loaded_entry x hx in
          let here' = ap is_present (sym same) ∙ here in
          let low_table = kept.owns.below (page_of (pde m2 pd x)) (Part.table x hx here' refl) in
          subst (λ (q : ℕ). TableOf m pd x (page_of q)) (sym same)
            (marked-TableOf o k low x (page_of (pde m2 pd x)) hx low_table (tables x hx here'))

      loaded-Leaves : Leaves limit m loaded (Written m pd v)
      loaded-Leaves j g n =
          let (same, g') = set_bit-Leaves m k (Written m pd v) low j g n in
          let (same', g'') = leaves j g' (λ w. n (Written-marked o k low v hv (j * 4096) w)) in
          let ne = Guarded-ne-free j k g free in
          let (same'', g3) =
            Within-Leaves m2 loaded.ram (k * 4096) (omega arith) spare.away loaded-Within j g''
              (λ e. ne (omega (arith, e))) in
          (λ b lo hi. same'' b lo hi ∙ same' b lo hi ∙ same b lo hi, g3)

      loaded-Loads : Loads limit m pd v source n a c loaded
      loaded-Loads = record {
        frame = k;
        spare = loaded-Kept.spares k spare;
        kept = Kept-trans (Kept-trans marked-Kept kept) loaded-Kept;
        through = λ x hx.
            written-same kept.owns k spare loaded.ram loaded-Within x hx
            ∙ through x hx
            ∙ rw (set_bit-same o k low x hx) refl;
        content = content;
        tables = loaded-TableOf;
        leaves = loaded-Leaves;
        stays = λ j s b lo hi.
            let ne = Spare-ne j s in loaded-Within b (ground arith) ∙ stays2 j s b lo hi;
        room =
            Room-Same m2 loaded (a + 1 + 1) c (omega (arith, low)) refl
              (λ j hj. test_bit-Within m2 loaded.ram j (k * 4096) (spare.away j hj) loaded-Within)
              room2;
      }

    Maps-Loads :
        (m2 : Mem)
        → Maps limit marked pd v (k * 4096) m2
        → Loads limit m pd v source n a c
            (with_ram m2 (padded n source (phys_to_virt m2 (k * 4096)) m2.ram))
    Maps-Loads m2 (maps kept through leaves tables spends) =
        loaded-Loads m2 kept through leaves tables (spends (a + 1) c marked-Room)
    Maps-Loads m2 (fails gone z kept same leaves) =
        absurd ((Room-alloc marked (a + 1) c marked-Kept.owns.frames marked-Room).1 z)

  Handed-Loads :
      (r : ℕ × Mem)
      → alloc_frame m ≡ r
      → Handed limit m pd r
      → (r.0 ≢ 0) × Loads limit m pd v source n a c (round pd v source n r)
  Handed-Loads r is (none_left z kept same leaves) =
      absurd ((Room-alloc m a (1 + c) o.frames room).1 (ap (λ (q : ℕ × Mem). q.0) is ∙ z))
  Handed-Loads r is (handed k nz low free lower e) =
      subst (λ (q : ℕ × Mem). (q.0 ≢ 0) × Loads limit m pd v source n a c (round pd v source n q))
        (sym e)
        (
          λ z. omega (arith, nz),
          Maps-Loads k low free lower _ (
              map_page-Maps (marked-Kept k low free lower).owns v (k * 4096) user_flags
                (Room-alloc (set_bit m k) (a + 1) c (marked-Kept k low free lower).owns.frames
                  (marked-Room k low free lower)).0
                hv (omega (arith, low, o.small)) (omega arith) (omega arith) refl),
        )

  pub alloc_frame-Loads :
      ((alloc_frame m).0 ≢ 0)
      × Loads limit m pd v source n a c (round pd v source n (alloc_frame m))
  alloc_frame-Loads =
      Handed-Loads (alloc_frame m) refl
        (alloc_frame-Handed o (Room-alloc m a (1 + c) o.frames room).0)
