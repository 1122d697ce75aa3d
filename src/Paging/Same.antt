-- ===== src/Paging/Same.antt =====
-- What a directory says depends on the memory of its own frame and of its tables alone.
use lbos.Base.{ℕ, ◌+◌, ◌*◌, ◌/◌, ◌^◌, ◌≤◌, ◌<◌, ◌≡◌, refl, sym, ap, ◌∙◌, Bool, true, false, arith}
use lbos.Memory.{Ram, load32}
use lbos.Memory.Words.{load32-cong}
use lbos.Frames.{Mem, phys_to_virt}
use lbos.Paging.{page_table_size, pt_index, pte_at, is_present, page_of, get_physical_address}
use lbos.Paging.Walk.{window, IsWindow, pde, phys_to_virt_lem, pt_index_lem}
use lbos.Paging.Entry.{IsDirectory, walks, get_physical_address_lem}

abbrev pub with_ram : Mem → Ram → Mem
with_ram m r = record m { ram = r }

-- The frame at the physical address `p` holds the same bytes.
abbrev pub Same : Ram → Ram → ℕ → Type 0
Same r r' p = (b : ℕ) → p + window ≤ b → b < p + window + 4096 → r' b ≡ r b

pub load32-Same :
    (m : Mem) (r : Ram) (p i : ℕ)
    → IsWindow m
    → p < page_table_size * 4096
    → i < 1024
    → Same m.ram r p
    → load32 r (phys_to_virt m p + 4 * i) ≡ load32 m.ram (phys_to_virt m p + 4 * i)
load32-Same m r p i w hp hi same = rw (phys_to_virt_lem m p w hp) (
    load32-cong m.ram r (p + window + 4 * i) (p + window) (p + window + 4096) same (omega arith)
      (omega arith))

-- The entries of the directory read as before.
abbrev pub Keeps : Mem → Ram → ℕ → Type 0
Keeps m r pd = (v : ℕ) → v < 2 ^ 32 → pde (with_ram m r) pd v ≡ pde m pd v

module _ {m : Mem} {pd : ℕ} (r : Ram) (d : IsDirectory m pd) where
  pub Same-Keeps : Same m.ram r pd → Keeps m r pd
  unfolding phys_to_virt
  Same-Keeps same v hv = load32-Same m r pd (v / 2 ^ 22) d.window d.frame.0 (omega arith) same

  pub Keeps-IsDirectory : Keeps m r pd → IsDirectory (with_ram m r) pd
  Keeps-IsDirectory kept = record {
    window = d.window;
    frame = d.frame;
    tables = λ v hv. rw (kept v hv) (d.tables v hv);
    unshared = λ v v' hv hv'. rw (kept v hv, kept v' hv') (d.unshared v v' hv hv');
  }

  pub get-Same :
      (x : ℕ)
      → x < 2 ^ 32
      → Keeps m r pd
      → (is_present (pde m pd x) ≡ true → Same m.ram r (page_of (pde m pd x)))
      → get_physical_address (with_ram m r) pd x ≡ get_physical_address m pd x
  get-Same x hx kept tables =
      get_physical_address_lem (with_ram m r) pd x
      ∙ unfold phys_to_virt in
        ap (λ (q : ℕ). walks q (load32 r (pte_at m (page_of q) x)) x) (kept x hx)
        ∙ under_table (is_present (pde m pd x)) refl
        ∙ sym (get_physical_address_lem m pd x)
    where
      t : ℕ
      t = page_of (pde m pd x)

      word : is_present (pde m pd x) ≡ true → load32 r (pte_at m t x) ≡ load32 m.ram (pte_at m t x)
      word here =
          load32-Same m r t (pt_index x) d.window (d.tables x hx here).0
            (omega (arith, pt_index_lem x)) (tables here)

      under_table :
          (b : Bool)
          → is_present (pde m pd x) ≡ b
          → walks (pde m pd x) (load32 r (pte_at m t x)) x
            ≡ walks (pde m pd x) (load32 m.ram (pte_at m t x)) x
      under_table true here = ap (λ (e : ℕ). walks (pde m pd x) e x) (word here)
      under_table false gone = rw gone refl
