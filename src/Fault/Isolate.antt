-- ===== src/Fault/Isolate.antt =====
-- A page fault of one process, seen from the address space of another.
use lbos.Base.{ℕ, ◌*◌, ◌^◌, ◌<◌, ◌≡◌, sym, ap, ◌∙◌, Bool, some}
use mathlib.Core.Path.{subst}
use mathlib.Core.Option.{some-injective}
use lbos.Frames.{Mem, alloc_frame}
use lbos.Paging.Owned.{Part, Owns}
use lbos.Paging.Spare.{Kept}
use lbos.Paging.Guard.{Leaves, Leaves-refl}
use lbos.Paging.Handed.{unchanged}
use lbos.Paging.Mapped.{Written}
use lbos.Process.Data.{Process}
use lbos.Kernel.{Kernel, Outcome, current}
use lbos.Fault.{handle_page_fault}
use lbos.Fault.Demand.{Serves, served, unmapped, refused}
use lbos.Fault.Handle.{Handles, stops, pages, handle_page_fault-Handles}
use lbos.Paging.Isolated.{Isolated, Kept-Isolated}

Serves-Kept :
    {limit : ℕ} {m : Mem} {pd addr : ℕ} {r : Bool × Mem}
    → Serves limit m pd addr r
    → Kept limit m r.1 pd × Leaves limit m r.1 (Written m pd addr)
Serves-Kept (served k free e kept through zeroed leaves) = (kept, leaves)
Serves-Kept (unmapped k free e gone z kept same leaves) = (kept, leaves)
Serves-Kept (refused e z kept same leaves) = (kept, leaves)

-- A page fault of the current process leaves another address space as it is, whatever becomes of the fault: its
-- directory stays in the allocator's care, each of its addresses translates as before, and each leads to the same
-- byte where the frame is in use, lies apart from the bitmap, and is not the directory of the current process or
-- the table of the faulting address. The allocator keeps both directories, the next two frames it hands out lie
-- below the limit, which is at most the 1024 frames that `init_paging` maps, and the other directory does not stand on a frame of the current one that is written.
pub handle_page_fault-Isolated :
    {limit : ℕ} (addr code : ℕ) (k : Kernel) (p : Process) (pd : ℕ)
    → addr < 2 ^ 32
    → (alloc_frame k.mem).0 < limit * 4096
    → (alloc_frame (alloc_frame k.mem).1).0 < limit * 4096
    → current k ≡ some p
    → Owns limit k.mem p.context.cr3
    → Owns limit k.mem pd
    → ((q : ℕ) → Part k.mem pd q → ¬ Written k.mem p.context.cr3 addr q)
    → Isolated limit k.mem
        (handle_page_fault addr code k).1.mem
        (Written k.mem p.context.cr3 addr)
        pd
handle_page_fault-Isolated {limit} addr code k p pd ha lt next now owns o other = go (
    handle_page_fault-Handles addr code k ha lt next (λ p' e.
      subst (λ (q : Process). Owns limit k.mem q.context.cr3) (some-injective p p' (sym now ∙ e))
        owns))
  where
    X : ℕ → Type 0
    X = Written k.mem p.context.cr3 addr

    go : {r : Outcome × Kernel} → Handles limit addr code k r → Isolated limit k.mem r.1.mem X pd
    go (stops why e) =
        subst (λ (m : Mem). Isolated limit k.mem m X pd)
          (sym (ap (λ (q : Outcome × Kernel). q.1.mem) e))
          (Kept-Isolated X o other (unchanged owns) (Leaves-refl k.mem X))
    go {r} (pages p' done now' low missing e s) =
        let same : p' ≡ p = some-injective p' p (sym now' ∙ now) in
        let parts =
          Serves-Kept (
            subst (λ (q : Process). Serves limit k.mem q.context.cr3 addr (done, r.1.mem)) same
              s) in
        Kept-Isolated X o other parts.0 parts.1
