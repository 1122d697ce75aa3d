-- ===== src/Syscall/Copying.antt =====
-- The loops of `sys_fork` over the parent's directory and its tables.
use lbos.Base.{
  ◌≤◌, ℕ, zero, suc, ◌+◌, ◌*◌, ◌/◌, ◌^◌, ◌<◌, ◌≡◌, ◌≢◌, refl, sym, ◌∙◌, inl, inr, Bool, true, false,
  arith, if◌then◌else◌, Bool-cases, bit_or, ◌<<<◌, bit_or-fields,
}
use mathlib.Core.Path.{subst}
use lbos.Frames.{Mem, phys_to_virt}
use lbos.Paging.{page_of, is_present, kernel_virtual_start}
use lbos.Paging.Walk.{window, pde, page_of_aligned}
use lbos.Paging.Owned.{Part, root, Owns}
use lbos.Paging.Marked.{Spare-Guarded}
use lbos.Paging.Room.{Room, Room-fewer}
use lbos.Paging.Spare.{Spare}
use lbos.Paging.Owned.{table}
use lbos.Paging.Isolated.{Part-Guarded}
use lbos.Paging.Guard.{Guarded}
use lbos.Paging.Walk.{phys_to_virt_lem}
use lbos.Syscall.Words.{table_word, has-present}
use lbos.Syscall.Fork.{fork_page, fork_table}
use lbos.Syscall.Page.{fork_page-Copies}
use lbos.Syscall.Forked.{entry_of, has, Forked, skip, add}

-- The pages that are there, of `rounds` from `n` on.
unfoldable pub count_pages : Mem → (pp rounds n : ℕ) → ℕ
count_pages m pp zero n = 0
count_pages m pp (suc rounds) n = (if has m pp n then 1 else 0) + count_pages m pp rounds (n + 1)

-- The same for `rounds` tables.
unfoldable pub count_tables : Mem → (pp rounds n : ℕ) → ℕ
count_tables m pp zero n = 0
count_tables m pp (suc rounds) n = count_pages m pp 1024 n + count_tables m pp rounds (n + 1024)

-- A loop that went through, with room for `c` more frames.
pub record Through (limit : ℕ) (m0 : Mem) (pp pd stop c : ℕ) (r : Bool × Mem) : Type 0 where
  pub done : r.0 ≡ true
  pub forked : Forked limit m0 pp pd stop r.1
  pub next : ℕ
  pub room : Room limit r.1 next c

module _ {limit : ℕ} {m0 : Mem} {pp pd : ℕ} (o : Owns limit m0 pp)
    (apart : (q : ℕ) → Part m0 pp q → q ≢ pd)
    (sources : (q : ℕ)
      → q * 4096 < kernel_virtual_start
      → has m0 pp q ≡ true
      → Spare limit m0 pd (page_of (entry_of m0 pp q) / 4096))
    (bytes : (q i : ℕ)
      → q * 4096 < kernel_virtual_start
      → has m0 pp q ≡ true
      → i < 4096
      → m0.ram (page_of (entry_of m0 pp q) + window + i) < 256) where
  address : (d i : ℕ) → d < 768 → i < 1024 → bit_or (d <<< 22) (i <<< 12) ≡ (d * 1024 + i) * 4096
  address d i hd hi =
      let low : i <<< 12 ≡ i * 4096 = omega arith in
      let high : d <<< 22 ≡ d * 2 ^ 22 = omega arith in
      rw (low, high) (bit_or-fields 22 d (i * 4096) (omega arith) ∙ omega arith)

  -- The entry at page `d * 1024 + i` of a table that is there.
  module _ (d : ℕ) (hd : d < 768) (here : is_present (pde m0 pp (d * 1024 * 4096)) ≡ true) where
    abbrev tbl : ℕ
    tbl = phys_to_virt m0 (page_of (pde m0 pp (d * 1024 * 4096)))

    abbrev copy_of : ℕ → Mem → Bool × Mem
    copy_of i m =
        fork_page pd ((d * 1024 + i) * 4096) (tbl + 4 * i) (entry_of m0 pp (d * 1024 + i)) m

    -- The table's frame is guarded, and the entry lies in it.
    table-Guarded :
        {m : Mem} {n : ℕ}
        → Forked limit m0 pp pd n m
        → Guarded limit m (page_of (pde m0 pp (d * 1024 * 4096)) / 4096)
    table-Guarded now =
        let q = page_of (pde m0 pp (d * 1024 * 4096)) in
        let part = table (d * 1024 * 4096) (omega arith) here refl in
        let aligned = page_of_aligned (pde m0 pp (d * 1024 * 4096)) in
        (now.leaves (q / 4096) (Part-Guarded o q part)
          (λ e. apart q part (omega (arith, aligned, e)))).1

    entry_inside :
        (i : ℕ)
        → i < 1024
        → (page_of (pde m0 pp (d * 1024 * 4096)) / 4096 * 4096 + window ≤ tbl + 4 * i)
          × (tbl + 4 * i + 4 ≤ page_of (pde m0 pp (d * 1024 * 4096)) / 4096 * 4096 + window + 4096)
    entry_inside i hi =
        let q = page_of (pde m0 pp (d * 1024 * 4096)) in
        let aligned = page_of_aligned (pde m0 pp (d * 1024 * 4096)) in
        let low = (o.directory.tables (d * 1024 * 4096) (omega arith) here).0 in
        let base = phys_to_virt_lem m0 q o.directory.window low in
        (omega (arith, aligned, base), omega (arith, aligned, base))

    table-gone :
        {m : Mem} (rounds i : ℕ)
        → i < 1024
        → Forked limit m0 pp pd (d * 1024 + i) m
        → is_present (entry_of m0 pp (d * 1024 + i)) ≡ false
        → fork_table pd tbl d (suc rounds) i m ≡ fork_table pd tbl d rounds (i + 1) m
    unfolding fork_table
    table-gone rounds i hi now gone =
        rw (table_word o apart now.kept.only_ram now.leaves d i hd hi here, gone) refl

    table-copied :
        {m : Mem} (rounds i : ℕ)
        → i < 1024
        → Forked limit m0 pp pd (d * 1024 + i) m
        → is_present (entry_of m0 pp (d * 1024 + i)) ≡ true
        → (copy_of i m).0 ≡ true
        → fork_table pd tbl d (suc rounds) i m ≡ fork_table pd tbl d rounds (i + 1) (copy_of i m).1
    unfolding fork_table
    table-copied rounds i hi now is done =
        rw
          (
            table_word o apart now.kept.only_ram now.leaves d i hd hi here,
            is,
            address d i hd hi,
            done,
          )
          refl

    source_bytes :
        {m : Mem} {n : ℕ} (i : ℕ) (now : Forked limit m0 pp pd n m) (q : ℕ)
        → Spare limit m0 pd (page_of (entry_of m0 pp q) / 4096)
        → q * 4096 < kernel_virtual_start
        → has m0 pp q ≡ true
        → i < 4096
        → m.ram (page_of (entry_of m0 pp q) + window + i) < 256
    source_bytes i now q s below is hi =
        let whole = page_of_aligned (entry_of m0 pp q) in
        let same =
          (now.leaves (page_of (entry_of m0 pp q) / 4096) (Spare-Guarded s)
              (s.other pd (root refl))).0
            (page_of (entry_of m0 pp q) + window + i) (omega (arith, whole))
            (omega (arith, whole)) in
        rw same (bytes q i below is hi)

    pub loop-Through :
        (rounds i a c : ℕ) (m : Mem)
        → i + rounds ≡ 1024
        → Room limit m a (count_pages m0 pp rounds (d * 1024 + i) * 2 + c)
        → Forked limit m0 pp pd (d * 1024 + i) m
        → Through limit m0 pp pd (d * 1024 + 1024) c (fork_table pd tbl d rounds i m)
    unfolding fork_table count_pages
    loop-Through zero i a c m e room now = record {
      done = refl;
      forked =
          let all : i ≡ 1024 = omega (arith, e) in
          subst (λ (j : ℕ). Forked limit m0 pp pd (d * 1024 + j) m) all now;
      next = a;
      room = Room-fewer m a (0 + c) c (omega arith) room;
    }
    loop-Through (suc rounds) i a c m e room now =
        let hi : i < 1024 = omega (arith, e) in
        elim (Bool-cases (is_present (entry_of m0 pp (d * 1024 + i)))) [
          | inl is ↦
              let has_it = has-present m0 pp d i hd hi here ∙ is in
              let n = d * 1024 + i in
              let below : n * 4096 < kernel_virtual_start = omega arith in
              let s = sources n below has_it in
              let step : n + 1 ≡ d * 1024 + (i + 1) = omega arith in
              let two : count_pages m0 pp (suc rounds) n * 2 + c
                  ≡ 1 + (1 + (count_pages m0 pp rounds (n + 1) * 2 + c)) =
                ground (arith, has_it) in
              let (done, l) =
                fork_page-Copies now.kept.owns (n * 4096) (tbl + 4 * i) (entry_of m0 pp n) a
                  (count_pages m0 pp rounds (n + 1) * 2 + c) (omega arith)
                  (subst (Room limit m a) two room) is
                  (now.kept.spares (page_of (entry_of m0 pp n) / 4096) s)
                  (λ j hj. source_bytes j now n s below has_it hj)
                  (page_of (pde m0 pp (d * 1024 * 4096)) / 4096) (table-Guarded now)
                  (entry_inside i hi)
                  (table_word o apart now.kept.only_ram now.leaves d i hd hi here) in
              rw (table-copied rounds i hi now is done) (
                loop-Through rounds (i + 1) (a + 1 + 1) c (copy_of i m).1 (omega (arith, e))
                  (subst
                    (λ (j : ℕ).
                      Room limit (copy_of i m).1 (a + 1 + 1) (count_pages m0 pp rounds j * 2 + c))
                    step l.room)
                  (subst (λ (j : ℕ). Forked limit m0 pp pd j (copy_of i m).1) step
                    (add below now has_it s l)))
          | inr gone ↦
              let no_page = has-present m0 pp d i hd hi here ∙ gone in
              let n = d * 1024 + i in
              let step : n + 1 ≡ d * 1024 + (i + 1) = omega arith in
              let same : count_pages m0 pp (suc rounds) n * 2 + c
                  ≡ count_pages m0 pp rounds (n + 1) * 2 + c =
                ground (arith, no_page) in
              rw (table-gone rounds i hi now gone) (
                loop-Through rounds (i + 1) a c m (omega (arith, e))
                  (subst (λ (j : ℕ). Room limit m a (count_pages m0 pp rounds j * 2 + c)) step
                    (subst (Room limit m a) same room))
                  (subst (λ (j : ℕ). Forked limit m0 pp pd j m) step
                    (skip 1
                      (λ q lo hi'.
                        let at : q ≡ n = omega (arith, lo, hi') in
                        subst (λ (j : ℕ). has m0 pp j ≡ false) (sym at) no_page)
                      now)))
        ]
