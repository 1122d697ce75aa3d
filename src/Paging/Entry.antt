-- ===== src/Paging/Entry.antt =====
-- The translation of addresses after one entry of a table is written.
use lbos.Base.{
  ℕ, ◌+◌, ◌*◌, ◌/◌, ◌^◌, ◌<◌, ◌≡◌, ◌≢◌, refl, sym, ap, ◌∙◌, ◌⊎◌, inl, inr, true, bit_and, bit_or,
  arith, ◌==◌, if◌then◌else◌, u32, Bool-cases,
}
use mathlib.Core.Path.{ap₂}
use native.Mathlib.Decide.{ℕ_discrete}
use lbos.Memory.{load32}
use lbos.Memory.Words.{load32-store32_self, load32-store32-Apart}
use lbos.Frames.{Mem, phys_to_virt}
use lbos.Paging.{
  page_table_size, pd_index, pt_index, pde_at, pte_at, is_present, page_of, write_entry,
  get_physical_address,
}
use lbos.Paging.Walk.{
  IsWindow, IsFrame, pde, page_of_aligned, pt_index_lem, entries-Apart, tables-Apart,
}

-- A directory whose present entries lead to tables in frames of their own.
pub record IsDirectory (m : Mem) (pd : ℕ) : Type 0 where
  pub window : IsWindow m
  pub frame : IsFrame pd
  pub tables :
      (v : ℕ)
      → v < 2 ^ 32
      → is_present (pde m pd v) ≡ true
      → (page_of (pde m pd v) < page_table_size * 4096) × (pd ≢ page_of (pde m pd v))
  pub unshared :
      (v v' : ℕ)
      → v < 2 ^ 32
      → v' < 2 ^ 32
      → is_present (pde m pd v) ≡ true
      → is_present (pde m pd v') ≡ true
      → page_of (pde m pd v) ≡ page_of (pde m pd v')
      → pd_index v ≡ pd_index v'

-- The translation that the values of an entry of each level give.
abbrev pub translates : ℕ → ℕ → ℕ
translates entry x = if is_present entry then bit_or (page_of entry) (bit_and x 0xfff) else 0

abbrev pub walks : ℕ → ℕ → ℕ → ℕ
walks p q x = if is_present p then translates q x else 0

pub get_physical_address_lem :
    (m : Mem) (pd x : ℕ)
    → get_physical_address m pd x
      ≡ walks (pde m pd x) (load32 m.ram (pte_at m (page_of (pde m pd x)) x)) x
unfolding get_physical_address
get_physical_address_lem m pd x = refl

module _ {m : Mem} {pd v : ℕ} (e : ℕ) (d : IsDirectory m pd) (hv : v < 2 ^ 32)
    (ready : is_present (pde m pd v) ≡ true) where
  abbrev table : ℕ → ℕ
  table x = page_of (pde m pd x)

  table-IsFrame : (x : ℕ) → x < 2 ^ 32 → is_present (pde m pd x) ≡ true → IsFrame (table x)
  table-IsFrame x hx here = ((d.tables x hx here).0, page_of_aligned (pde m pd x))

  pub pde-write_entry : (x : ℕ) → x < 2 ^ 32 → pde (write_entry m pd v e) pd x ≡ pde m pd x
  unfolding write_entry phys_to_virt
  pde-write_entry x hx = load32-store32-Apart m.ram (pte_at m (table v) v) e (pde_at m pd x) (
      entries-Apart m pd (table v) v x d.window d.frame (table-IsFrame v hv ready)
        (d.tables v hv ready).1 hv hx)

  pte_same :
      (x : ℕ)
      → v / 4096 ≡ x / 4096
      → load32 (write_entry m pd v e).ram (pte_at m (table x) x) ≡ u32 e
  unfolding write_entry
  pte_same x same =
      let dirs : pd_index v ≡ pd_index x = omega arith in
      let slots : pte_at m (table v) v ≡ pte_at m (table x) x =
        ap₂
          (λ (k p : ℕ).
            phys_to_virt m (page_of (load32 m.ram (phys_to_virt m pd + 4 * k)))
            + 4 * bit_and p 0x3ff)
          dirs same in
      rw (← slots) (load32-store32_self m.ram (pte_at m (table v) v) e)

  pte_other :
      (x : ℕ)
      → x < 2 ^ 32
      → is_present (pde m pd x) ≡ true
      → v / 4096 ≢ x / 4096
      → load32 (write_entry m pd v e).ram (pte_at m (table x) x)
        ≡ load32 m.ram (pte_at m (table x) x)
  unfolding write_entry
  pte_other x hx here other =
      load32-store32-Apart m.ram (pte_at m (table v) v) e (pte_at m (table x) x) (
        tables-Apart m (table v) (table x) v x d.window (table-IsFrame v hv ready)
          (table-IsFrame x hx here) places)
    where
      places : (table v ≢ table x) ⊎ (pt_index v ≢ pt_index x)
      places = elim (ℕ_discrete (pd_index v) (pd_index x)) [
        | yes same ↦ inr (λ q. other (omega (arith, pt_index_lem v, pt_index_lem x, q)))
        | no n ↦ inl (λ q. n (d.unshared v x hv hx ready here q))
      ]

  ready_same : (x : ℕ) → v / 4096 ≡ x / 4096 → is_present (pde m pd x) ≡ true
  ready_same x same =
      let dirs : pd_index v ≡ pd_index x = omega arith in
      ap (λ (k : ℕ). is_present (load32 m.ram (phys_to_virt m pd + 4 * k))) (sym dirs) ∙ ready

  walk-write_entry :
      (x : ℕ)
      → x < 2 ^ 32
      → get_physical_address (write_entry m pd v e) pd x
        ≡ walks (pde m pd x) (load32 (write_entry m pd v e).ram (pte_at m (table x) x)) x
  walk-write_entry x hx =
      get_physical_address_lem (write_entry m pd v e) pd x
      ∙ unfold write_entry phys_to_virt in
        ap (λ (p : ℕ). walks p (load32 (write_entry m pd v e).ram (pte_at m (page_of p) x)) x)
          (pde-write_entry x hx)

  -- The translations after an entry of a present table is written.
  pub get-write_entry :
      (x : ℕ)
      → x < 2 ^ 32
      → get_physical_address (write_entry m pd v e) pd x
        ≡ (if v / 4096 == x / 4096 then translates (u32 e) x else get_physical_address m pd x)
  get-write_entry x hx =
      rw (walk-write_entry x hx, get_physical_address_lem m pd x)
        (elim (ℕ_discrete (v / 4096) (x / 4096)) [
          | yes same ↦ rw (pte_same x same, ready_same x same) (ground arith)
          | no other ↦ elim (Bool-cases (is_present (pde m pd x))) [
            | inl here ↦ rw (here, pte_other x hx here other) (ground arith)
            | inr gone ↦ rw gone (ground arith)
          ]
        ])
