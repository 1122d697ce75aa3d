-- ===== src/Syscall/Doubles.antt =====
-- What `sys_fork` makes of the parent's address space for the child.
use lbos.Base.{ℕ, zero, suc, ◌+◌, ◌*◌, ◌/◌, ◌^◌, ◌≤◌, ◌<◌, ◌≡◌, refl, true, false, arith}
use lbos.Frames.{Mem, test_bit}
use lbos.Paging.{get_physical_address, kernel_virtual_start}
use lbos.Paging.Same.{with_ram}
use lbos.Paging.Owned.{Owns}
use lbos.Paging.Guard.{Leaves}
use lbos.Process.Data.{process_at}
use lbos.Kernel.{Kernel, Outcome, returned}
use lbos.Syscall.Forked.{has, PageCopied}
use lbos.Syscall.Copying.{count_pages, count_tables}

-- The call answers the child's identifier, and the child in slot `i` has the parent's user pages, each in a frame of
-- its own with the same bytes, nothing else below the kernel, and the kernel's half.
pub record Doubles (limit : ℕ) (k : Kernel) (kernel pp i pid : ℕ) (r : Outcome × Kernel)
    : Type 0 where
  pub done : r.0 ≡ returned pid
  pub pd : ℕ
  pub cr3 : (process_at r.1.processes i).context.cr3 ≡ pd
  pub owns : Owns limit r.1.mem pd
  pub pages :
      (q : ℕ)
      → q * 4096 < kernel_virtual_start
      → has k.mem pp q ≡ true
      → PageCopied limit k.mem r.1.mem pp pd q
  pub nothing_else :
      (x : ℕ)
      → x < kernel_virtual_start
      → has k.mem pp (x / 4096) ≡ false
      → get_physical_address r.1.mem pd x ≡ 0
  pub kernel_half :
      (x : ℕ)
      → x < 2 ^ 32
      → kernel_virtual_start ≤ x
      → get_physical_address r.1.mem pd x ≡ get_physical_address k.mem kernel x
  pub grows : (j : ℕ) → j < limit → test_bit k.mem j ≡ true → test_bit r.1.mem j ≡ true
  pub only_ram : r.1.mem ≡ with_ram k.mem r.1.mem.ram
  pub leaves : Leaves limit k.mem r.1.mem (λ p. ⊥)

-- The same pages are counted where the same pages are there.
count_pages-cong :
    (m m' : Mem) (pp rounds n : ℕ)
    → ((q : ℕ) → q * 4096 < kernel_virtual_start → has m' pp q ≡ has m pp q)
    → (n + rounds) * 4096 ≤ kernel_virtual_start
    → count_pages m' pp rounds n ≡ count_pages m pp rounds n
unfolding count_pages
count_pages-cong m m' pp zero n same le = refl
count_pages-cong m m' pp (suc rounds) n same le =
    rw (same n (omega arith), count_pages-cong m m' pp rounds (n + 1) same (omega arith)) refl

pub count_tables-cong :
    (m m' : Mem) (pp rounds n : ℕ)
    → ((q : ℕ) → q * 4096 < kernel_virtual_start → has m' pp q ≡ has m pp q)
    → (n + rounds * 1024) * 4096 ≤ kernel_virtual_start
    → count_tables m' pp rounds n ≡ count_tables m pp rounds n
unfolding count_tables
count_tables-cong m m' pp zero n same le = refl
count_tables-cong m m' pp (suc rounds) n same le =
    rw
      (
        count_pages-cong m m' pp 1024 n same (omega arith),
        count_tables-cong m m' pp rounds (n + 1024) same (omega arith),
      )
      refl
