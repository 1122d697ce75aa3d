-- ===== src/Paging/Ensure.antt =====
-- `map_page` on a directory that the allocator keeps, whether or not the page table is there.
use lbos.Base.{
  ℕ, ◌*◌, ◌^◌, ◌<◌, ◌≡◌, refl, sym, ap, ◌∙◌, inl, inr, Bool, true, false, arith, ◌==◌,
  if◌then◌else◌, Bool-cases,
}
use mathlib.Core.Path.{subst}
use lbos.Memory.{store32, memset}
use lbos.Frames.{Mem, set_bit, test_bit, phys_to_virt, alloc_frame}
use lbos.Paging.{is_present, page_of, pde_at, page_table_size, ensure_table}
use lbos.Paging.Walk.{pde}
use lbos.Paging.Same.{with_ram}
use lbos.Paging.Owned.{root, Owns, test_bit-Within}
use lbos.Frames.Bitmap.{test_bit-set_bit}
use lbos.Paging.Fresh.{SameTranslations, set_bit-same}
use lbos.Paging.Guard.{Leaves, Leaves-refl, set_bit-Leaves, Within-Leaves, Guarded-ne-free}
use lbos.Paging.Room.{Spends, Spends-one, Room-less}
use lbos.Paging.Handed.{Handed, handed, none_left, unchanged, alloc_frame-Handed}
use lbos.Paging.Table.{table_entry}
use lbos.Paging.Link.{
  linked, linked-Owns, linked-Spare, linked-present, linked-reads, linked-test_bit, linked-Within,
  linked-same,
}
use lbos.Paging.Spare.{
  Spare, Kept, alloc-Spare, set_bit-Kept, cleared, cleared-Kept, cleared-same, set_bit-Keeps,
  cleared-Keeps, cleared_empty, cleared-Within, Kept-trans,
}

-- A table afterwards: the one of before, or a frame that was free.
pub data TableOf (m : Mem) (pd v t : ℕ) : Type 0 where
  old : is_present (pde m pd v) ≡ true → t ≡ page_of (pde m pd v) → TableOf m pd v t
  new : (k : ℕ) → test_bit m k ≡ false → t ≡ k * 4096 → TableOf m pd v t

-- What `ensure_table` leaves: the table is there, or no frame could be had for it.
pub data Ensured (limit : ℕ) (m : Mem) (pd v : ℕ) (r : Bool × Mem) : Type 0 where
  ready :
      r.0 ≡ true
      → is_present (pde r.1 pd v) ≡ true
      → ((x : ℕ)
          → x < 2 ^ 32
          → is_present (pde r.1 pd x) ≡ true
          → TableOf m pd x (page_of (pde r.1 pd x)))
      → Kept limit m r.1 pd
      → SameTranslations m r.1 pd
      → Leaves limit m r.1 (λ p. p ≡ pd)
      → Spends limit m r.1 1
      → Ensured limit m pd v r
  failed :
      r.0 ≡ false
      → is_present (pde m pd v) ≡ false
      → (alloc_frame m).0 ≡ 0
      → Kept limit m r.1 pd
      → SameTranslations m r.1 pd
      → Leaves limit m r.1 (λ p. p ≡ pd)
      → Ensured limit m pd v r

module _ {limit : ℕ} {m : Mem} {pd : ℕ} (o : Owns limit m pd) (v : ℕ) (hv : v < 2 ^ 32) where
  -- `ensure_table` with what `alloc_frame` answered.
  abbrev ensured : ℕ × Mem → Bool × Mem
  ensured (pt_phys, m1) =
      let zeroed = memset m1.ram (phys_to_virt m1 pt_phys) 0 (4 * page_table_size) in
      if is_present (pde m pd v)
      then (true, m)
      else if pt_phys == 0
      then (false, m1)
      else (true, record m1 { ram = store32 zeroed (pde_at m pd v) (table_entry pt_phys) })

  ensure_table-ensured : ensure_table m pd v ≡ ensured (alloc_frame m)
  unfolding ensure_table
  ensure_table-ensured = refl

  -- The table in the frame `k`, which was free.
  module _ (gone : is_present (pde m pd v) ≡ false) (k : ℕ) (lt : k < limit)
      (free : test_bit m k ≡ false) where
    abbrev marked : Mem
    marked = set_bit m k

    marked-Kept : Kept limit m marked pd
    marked-Kept = set_bit-Kept o k lt

    spare : Spare limit marked pd k
    spare = alloc-Spare o k lt free

    abbrev empty : Mem
    empty = cleared marked-Kept.owns k spare

    empty-Kept : Kept limit m empty pd
    empty-Kept = Kept-trans marked-Kept (cleared-Kept marked-Kept.owns k spare)

    still_gone : is_present (pde empty pd v) ≡ false
    unfolding set_bit
    still_gone =
        ap is_present (cleared-Keeps marked-Kept.owns k spare v hv ∙ set_bit-Keeps o k lt v hv)
        ∙ gone

    in_table : Spare limit empty pd k
    in_table = (cleared-Kept marked-Kept.owns k spare).spares k spare

    abbrev table_made : Mem
    table_made = linked empty-Kept.owns hv still_gone k in_table

    table_made-Kept : Kept limit m table_made pd
    table_made-Kept = record {
      owns = linked-Owns empty-Kept.owns hv still_gone k in_table;
      spares = λ j s.
          linked-Spare empty-Kept.owns hv still_gone k in_table j
            (λ e. ground (arith, subst (λ (i : ℕ). test_bit m i ≡ true) e s.used))
            (empty-Kept.spares j s);
      grows = λ i hi used.
          linked-test_bit empty-Kept.owns hv still_gone k in_table i hi
          ∙ empty-Kept.grows i hi used;
      only_ram = ap (λ (q : Mem). with_ram q table_made.ram) empty-Kept.only_ram;
    }

    table_made-same : SameTranslations m table_made pd
    table_made-same x hx =
        linked-same empty-Kept.owns hv still_gone k in_table
          (cleared_empty marked-Kept.owns k spare) x hx
        ∙ cleared-same marked-Kept.owns k spare x hx
        ∙ set_bit-same o k lt x hx

    table_made-TableOf :
        (x : ℕ)
        → x < 2 ^ 32
        → is_present (pde table_made pd x) ≡ true
        → TableOf m pd x (page_of (pde table_made pd x))
    unfolding set_bit
    table_made-TableOf x hx here = elim (linked-reads empty-Kept.owns hv still_gone k in_table x) [
      | inl e ↦ new k free e
      | inr q ↦
          let same = q ∙ cleared-Keeps marked-Kept.owns k spare x hx ∙ set_bit-Keeps o k lt x hx in
          old (ap is_present (sym same) ∙ here) (ap page_of same)
    ]

    table_made-Leaves : Leaves limit m table_made (λ p. p ≡ pd)
    table_made-Leaves j g n =
        let (same, g') = set_bit-Leaves m k (λ p. p ≡ pd) lt j g n in
        let ne = Guarded-ne-free j k g free in
        let (same', g'') =
          Within-Leaves marked empty.ram (k * 4096) (omega arith) spare.away
            (cleared-Within marked-Kept.owns k spare) j g' (λ e. ne (omega (arith, e))) in
        let (same'', g3) =
          Within-Leaves empty table_made.ram pd o.directory.frame.1
            (λ i hi. empty-Kept.owns.apart i pd hi (root refl))
            (linked-Within empty-Kept.owns hv still_gone k in_table) j g'' n in
        (λ b lo hi. same'' b lo hi ∙ same' b lo hi ∙ same b lo hi, g3)

    table_made-Spends : ((j : ℕ) → j < k → test_bit m j ≡ true) → Spends limit m table_made 1
    table_made-Spends lower =
        Spends-one m table_made k lt free lower (unfold set_bit in refl) (λ j hj.
          linked-test_bit empty-Kept.owns hv still_gone k in_table j hj
          ∙ test_bit-Within marked empty.ram j (k * 4096) (spare.away j hj)
              (cleared-Within marked-Kept.owns k spare)
          ∙ test_bit-set_bit m k j)

    made-Ensured : ((j : ℕ) → j < k → test_bit m j ≡ true) → Ensured limit m pd v (true, table_made)
    made-Ensured lower =
        ready refl (linked-present empty-Kept.owns hv still_gone k in_table) table_made-TableOf
          table_made-Kept table_made-same table_made-Leaves (table_made-Spends lower)

  Handed-Ensured :
      is_present (pde m pd v) ≡ false
      → (a : ℕ × Mem) → alloc_frame m ≡ a
      → Handed limit m pd a
      → Ensured limit m pd v (ensured a)
  Handed-Ensured gone a is (none_left z kept same leaves) =
      let zero_address : (a.0 == 0) ≡ true = ground arith in
      rw (gone, zero_address) (failed refl gone (ap (λ (q : ℕ × Mem). q.0) is ∙ z) kept same leaves)
  Handed-Ensured gone a is (handed k nz low free lower e) =
      let address : (k * 4096 == 0) ≡ false = ground arith in
      subst (λ (q : ℕ × Mem). Ensured limit m pd v (ensured q)) (sym e)
        (rw (gone, address) (unfold set_bit phys_to_virt in made-Ensured gone k low free lower))

  pub ensure_table-Ensured :
      (alloc_frame m).0 < limit * 4096 → Ensured limit m pd v (ensure_table m pd v)
  ensure_table-Ensured lt = rw ensure_table-ensured (elim (Bool-cases (is_present (pde m pd v))) [
    | inl here ↦ rw here (
        ready refl here (λ x hx here'. old here' refl) (unchanged o) (λ x hx. refl)
          (Leaves-refl m (λ p. p ≡ pd)) (Room-less m))
    | inr gone ↦ Handed-Ensured gone (alloc_frame m) refl (alloc_frame-Handed o lt)
  ])
