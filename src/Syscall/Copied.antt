-- ===== src/Syscall/Copied.antt =====
-- The user half of the parent's address space, as `sys_fork` copies it.
use lbos.Base.{
  ℕ, zero, suc, ◌+◌, ◌*◌, ◌/◌, ◌<◌, ◌≡◌, ◌≢◌, refl, ap, ◌∙◌, inl, inr, Bool, true, false, arith,
  Bool-cases,
}
use mathlib.Core.Path.{subst}
use lbos.Frames.{Mem, phys_to_virt}
use lbos.Paging.{page_of, is_present, kernel_virtual_start}
use lbos.Paging.Walk.{pde, window}
use lbos.Paging.Owned.{Part, Owns}
use lbos.Paging.Room.{Room, Room-fewer}
use lbos.Paging.Spare.{Spare}
use lbos.Syscall.Fork.{fork_table, fork_directory}
use lbos.Syscall.Words.{window_same, directory_word, has-absent}
use lbos.Syscall.Forked.{entry_of, has, Forked, skip}
use lbos.Syscall.Copying.{count_pages, count_tables, Through, loop-Through}

pub count_tables-suc :
    (m : Mem) (pp rounds n : ℕ)
    → count_tables m pp (suc rounds) n
      ≡ count_pages m pp 1024 n + count_tables m pp rounds (n + 1024)
unfolding count_tables
count_tables-suc m pp rounds n = refl

module _ {limit : ℕ} {m0 : Mem} {pp pd : ℕ} (o : Owns limit m0 pp)
    (apart : (q : ℕ) → Part m0 pp q → q ≢ pd)
    (sources : (q : ℕ)
      → q * 4096 < kernel_virtual_start
      → has m0 pp q ≡ true
      → Spare limit m0 pd (page_of (entry_of m0 pp q) / 4096))
    (bytes : (q i : ℕ)
      → q * 4096 < kernel_virtual_start
      → has m0 pp q ≡ true
      → i < 4096
      → m0.ram (page_of (entry_of m0 pp q) + window + i) < 256) where
  abbrev dir : ℕ
  dir = phys_to_virt m0 pp

  abbrev entry : ℕ → ℕ
  entry d = pde m0 pp (d * 1024 * 4096)

  abbrev copied_table : ℕ → Mem → Bool × Mem
  copied_table d m = fork_table pd (phys_to_virt m0 (page_of (entry d))) d 1024 0 m

  module _ {m : Mem} (rounds d : ℕ) (hd : d < 768) (now : Forked limit m0 pp pd (d * 1024) m) where
    directory-gone :
        is_present (entry d) ≡ false
        → fork_directory pd dir (suc rounds) d m ≡ fork_directory pd dir rounds (d + 1) m
    unfolding fork_directory
    directory-gone gone =
        rw (directory_word o apart now.kept.only_ram now.leaves d (omega arith), gone) refl

    directory-copied :
        is_present (entry d) ≡ true
        → (copied_table d m).0 ≡ true
        → fork_directory pd dir (suc rounds) d m
          ≡ fork_directory pd dir rounds (d + 1) (copied_table d m).1
    unfolding fork_directory
    directory-copied here done =
        rw
          (
            directory_word o apart now.kept.only_ram now.leaves d (omega arith),
            here,
            window_same o apart now.kept.only_ram now.leaves (page_of (entry d)),
            done,
          )
          refl

  pub tables-Through :
      (rounds d a c : ℕ) (m : Mem)
      → d + rounds ≡ 768
      → Room limit m a (count_tables m0 pp rounds (d * 1024) * 2 + c)
      → Forked limit m0 pp pd (d * 1024) m
      → Through limit m0 pp pd (768 * 1024) c (fork_directory pd dir rounds d m)
  unfolding fork_directory
  tables-Through zero d a c m e room now = record {
    done = refl;
    forked =
        let all : d ≡ 768 = omega (arith, e) in
        subst (λ (j : ℕ). Forked limit m0 pp pd (j * 1024) m) all now;
    next = a;
    room = Room-fewer m a (count_tables m0 pp 0 (d * 1024) * 2 + c) c (omega arith) room;
  }
  tables-Through (suc rounds) d a c m e room now =
      let hd : d < 768 = omega (arith, e) in
      let n = d * 1024 in
      let next_n : n + 1024 ≡ (d + 1) * 1024 = omega arith in
      let zero_on : n ≡ n + 0 = omega arith in
      let rest = count_tables m0 pp rounds ((d + 1) * 1024) in
      let all : count_tables m0 pp (suc rounds) n ≡ count_pages m0 pp 1024 n + rest =
        count_tables-suc m0 pp rounds n
        ∙ ap (λ (j : ℕ). count_pages m0 pp 1024 n + count_tables m0 pp rounds j) next_n in
      elim (Bool-cases (is_present (entry d))) [
        | inl here ↦
            let amount : count_tables m0 pp (suc rounds) n * 2 + c
                ≡ count_pages m0 pp 1024 (n + 0) * 2 + (rest * 2 + c) =
              ap (λ (j : ℕ). j * 2 + c) all
              ∙ start (count_pages m0 pp 1024 n) rest c
              ∙ ap (λ (j : ℕ). count_pages m0 pp 1024 j * 2 + (rest * 2 + c)) zero_on in
            let t =
              loop-Through o apart sources bytes d hd here 1024 0 a (rest * 2 + c) m (omega arith)
                (subst (Room limit m a) amount room)
                (subst (λ (j : ℕ). Forked limit m0 pp pd j m) zero_on now) in
            rw (directory-copied rounds d hd now here t.done) (
              tables-Through rounds (d + 1) t.next c _ (omega (arith, e)) t.room
                (subst (λ (j : ℕ). Forked limit m0 pp pd j (copied_table d m).1) next_n t.forked))
        | inr gone ↦ rw (directory-gone rounds d hd now gone) (
            tables-Through rounds (d + 1) a c m (omega (arith, e))
              (Room-fewer m a (count_tables m0 pp (suc rounds) n * 2 + c) (rest * 2 + c)
                (omega (arith, all)) room)
              (subst (λ (j : ℕ). Forked limit m0 pp pd j m) next_n
                (skip 1024 (λ q lo hi. has-absent m0 pp d q hd lo hi gone) now)))
      ]
    where
      start : (p r c : ℕ) → (p + r) * 2 + c ≡ p * 2 + (r * 2 + c)
      start p r c = omega arith
