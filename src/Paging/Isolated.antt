-- ===== src/Paging/Isolated.antt =====
-- What an operation on one directory leaves of the address space of another.
use lbos.Base.{ℕ, ◌+◌, ◌*◌, ◌/◌, ◌^◌, ◌<◌, ◌≡◌, refl, sym, ap, ◌∙◌, true, arith}
use mathlib.Core.Path.{subst}
use lbos.Memory.{Ram}
use lbos.Frames.{Mem, test_bit}
use lbos.Paging.{get_physical_address}
use lbos.Paging.Walk.{window}
use lbos.Paging.Same.{with_ram, Same, Same-Keeps}
use lbos.Paging.Owned.{Part, root, Owns, Part-IsFrame, Keeps-Owns}
use lbos.Paging.Fresh.{SameTranslations, Parts-Same}
use lbos.Paging.Spare.{Kept}
use lbos.Paging.Guard.{Guarded, Leaves}

-- The byte that an address leads to.
abbrev pub byte_at : Mem → (pd x : ℕ) → ℕ
byte_at m pd x = m.ram (get_physical_address m pd x + window)

-- What is left of the address space of the directory `pd`: all of its translations, and the bytes of the pages
-- whose frames are guarded and not among `X`.
pub record Isolated (limit : ℕ) (m m' : Mem) (X : ℕ → Type 0) (pd : ℕ) : Type 0 where
  pub owns : Owns limit m' pd
  pub translations : SameTranslations m m' pd
  pub bytes :
      (x : ℕ)
      → x < 2 ^ 32
      → Guarded limit m (get_physical_address m pd x / 4096)
      → ¬ X (get_physical_address m pd x / 4096 * 4096)
      → byte_at m' pd x ≡ byte_at m pd x

-- The frames of a directory in the allocator's care are guarded.
pub Part-Guarded :
    {limit : ℕ} {m : Mem} {pd : ℕ} (o : Owns limit m pd) (q : ℕ)
    → Part m pd q
    → Guarded limit m (q / 4096)
Part-Guarded o q part =
    let whole : q / 4096 * 4096 ≡ q = omega (arith, (Part-IsFrame o.directory part).1) in
    record {
      below = omega (arith, o.below q part);
      used = o.in_use q part;
      away = λ i hi. rw whole (o.apart i q hi part);
    }

module _ {limit : ℕ} {m : Mem} {pd : ℕ} (X : ℕ → Type 0) (o : Owns limit m pd)
    (other : (q : ℕ) → Part m pd q → ¬ X q) where
  pub Part-Same :
      (r : Ram) → Leaves limit m (with_ram m r) X → (q : ℕ) → Part m pd q → Same m.ram r q
  Part-Same r leaves q part =
      let whole : q / 4096 * 4096 ≡ q = omega (arith, (Part-IsFrame o.directory part).1) in
      let guarded = Part-Guarded o q part in
      subst (Same m.ram r) whole (leaves (q / 4096) guarded (λ x. other q part (subst X whole x))).0

  ram-Isolated :
      (r : Ram)
      → Leaves limit m (with_ram m r) X
      → ((i : ℕ) → i < limit → test_bit m i ≡ true → test_bit (with_ram m r) i ≡ true)
      → Isolated limit m (with_ram m r) X pd
  ram-Isolated r leaves grows = record {
    owns = Keeps-Owns o r (Same-Keeps r o.directory (Part-Same r leaves pd (root refl))) grows;
    translations = same;
    bytes = λ x hx g n.
        let p = get_physical_address m pd x in
        ap (λ (q : ℕ). r (q + window)) (same x hx)
        ∙ (leaves (p / 4096) g n).0 (p + window) (omega arith) (omega arith);
  }
    where
      same : SameTranslations m (with_ram m r) pd
      same = Parts-Same o r (Part-Same r leaves)

  -- An operation that changes memory alone and gives no frame up.
  pub changed-Isolated :
      {m' : Mem}
      → m' ≡ with_ram m m'.ram
      → ((i : ℕ) → i < limit → test_bit m i ≡ true → test_bit m' i ≡ true)
      → Leaves limit m m' X
      → Isolated limit m m' X pd
  changed-Isolated {m'} only_ram grows leaves =
      let leaves' = subst (λ (q : Mem). Leaves limit m q X) only_ram leaves in
      subst (λ (q : Mem). Isolated limit m q X pd) (sym only_ram)
        (ram-Isolated m'.ram leaves'
          (λ i hi used. ap (λ (q : Mem). test_bit q i) (sym only_ram) ∙ grows i hi used))

  pub Kept-Isolated :
      {m' : Mem} {pd' : ℕ} → Kept limit m m' pd' → Leaves limit m m' X → Isolated limit m m' X pd
  Kept-Isolated kept leaves = changed-Isolated kept.only_ram kept.grows leaves
