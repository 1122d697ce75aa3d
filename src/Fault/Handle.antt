-- ===== src/Fault/Handle.antt =====
-- `page_fault_handler` of mem/page_frame_allocator.c as a whole.
use lbos.Base.{
  ℕ, ◌*◌, ◌^◌, ◌≤◌, ◌<◌, ◌≡◌, ◌⊎◌, refl, Bool, true, false, arith, ◌==◌, inl, inr, if◌then◌else◌,
  not, leb, bit_and, Option, none, some, Bool-cases,
}
use lbos.Frames.{Mem, alloc_frame}
use lbos.Paging.{kernel_virtual_start}
use lbos.Paging.Owned.{Owns}
use lbos.Process.Data.{Process}
use lbos.Kernel.{Kernel, Outcome, returned, halted, current}
use lbos.Fault.{demand_page, fault_of, handle_page_fault}
use lbos.Fault.Demand.{Serves, demand_page-Serves}

-- The error code tells of a page that is there, but not for this access.
abbrev pub is_violation : ℕ → Bool
is_violation code = not (bit_and code 0x1 == 0)

-- The kernel halts, or it looks after the page of a process; only memory changes.
pub data Handles (limit addr code : ℕ) (k : Kernel) (r : Outcome × Kernel) : Type 0 where
  stops :
      (current k ≡ none) ⊎ (kernel_virtual_start ≤ addr) ⊎ (is_violation code ≡ true)
      → r ≡ (halted, k)
      → Handles limit addr code k r
  pages :
      (p : Process) (done : Bool)
      → current k ≡ some p
      → addr < kernel_virtual_start
      → is_violation code ≡ false
      → r ≡ (if done then returned 0 else halted, record k { mem = r.1.mem })
      → Serves limit k.mem p.context.cr3 addr (done, r.1.mem)
      → Handles limit addr code k r

module _ {limit : ℕ} (addr code : ℕ) (k : Kernel) (ha : addr < 2 ^ 32)
    (lt : (alloc_frame k.mem).0 < limit * 4096)
    (next : (alloc_frame (alloc_frame k.mem).1).0 < limit * 4096) where
  fault_of-Handles :
      (o : Option Process)
      → current k ≡ o
      → ((p : Process) → o ≡ some p → Owns limit k.mem p.context.cr3)
      → Handles limit addr code k (fault_of addr code k o)
  fault_of-Handles none is owns = stops (inl is) refl
  fault_of-Handles (some p) is owns = elim (Bool-cases (leb kernel_virtual_start addr)) [
    | inl high ↦ rw high (stops (inr (inl (ground arith))) refl)
    | inr low ↦ elim (Bool-cases (is_violation code)) [
      | inl bad ↦ rw (low, bad) (stops (inr (inr bad)) refl)
      | inr missing ↦
          rw (low, missing)
            (finish (demand_page p.context.cr3 addr code k.mem) (ground arith) missing
              (demand_page-Serves (owns p refl) addr code ha lt next))
    ]
  ]
    where
      finish :
          (r : Bool × Mem)
          → addr < kernel_virtual_start
          → is_violation code ≡ false
          → Serves limit k.mem p.context.cr3 addr r
          → Handles limit addr code k (
              if r.0
              then (returned 0, record k { mem = r.1 })
              else (halted, record k { mem = r.1 }))
      finish (true, m) lo missing s = pages p true is lo missing refl s
      finish (false, m) lo missing s = pages p false is lo missing refl s

  -- A page fault of user code on a missing page gives the page a frame that was free, filled with zeros, and
  -- changes no other translation of the process; the handler returns. If no frame is left, the kernel halts and
  -- no translation changes. If there is one, but none for the page table, the handler returns with nothing
  -- mapped. On all other faults, and without a process, the kernel halts with nothing changed. The allocator
  -- keeps the directory of the current process, and the next two frames it hands out lie below the limit, which is
  -- at most the 1024 frames that `init_paging` maps.
  pub handle_page_fault-Handles :
      ((p : Process) → current k ≡ some p → Owns limit k.mem p.context.cr3)
      → Handles limit addr code k (handle_page_fault addr code k)
  unfolding handle_page_fault
  handle_page_fault-Handles owns = fault_of-Handles (current k) refl owns
