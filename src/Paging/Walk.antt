-- ===== src/Paging/Walk.antt =====
-- The two-level walk through a directory whose page tables are separate frames.
use lbos.Base.{
  ◌*◌, ℕ, ◌+◌, ◌/◌, ◌%◌, ◌^◌, ◌<◌, ◌≡◌, ◌≢◌, ◌⊎◌, arith, ◌==◌, ◌>>>◌, bit_and-low, bit_and-shifted,
}
use lbos.Memory.{load32}
use lbos.Memory.Words.{Apart}
use lbos.Frames.{Mem, phys_to_virt}
use lbos.Paging.{page_table_size, pt_index, pde_at, pte_at, is_present, page_of}

abbrev pub window : ℕ
window = 0xc000_0000

-- The offset of the kernel window is the linked one.
abbrev pub IsWindow : Mem → Type 0
IsWindow m =
    (m.kernel_virtual_start ≡ m.kernel_physical_start + window) × (m.kernel_physical_start < 2 ^ 30)

pub phys_to_virt_lem :
    (m : Mem) (p : ℕ) → IsWindow m → p < page_table_size * 4096 → phys_to_virt m p ≡ p + window
unfolding phys_to_virt
phys_to_virt_lem m p w h = omega arith

pub page_of_aligned : (x : ℕ) → page_of x % 4096 ≡ 0
page_of_aligned x = omega (arith, bit_and-shifted 12 x 0xfffff)

pub pt_index_lem : (v : ℕ) → pt_index v ≡ v / 4096 % 1024
pt_index_lem v = bit_and-low 10 (v >>> 12)

pub is_present_lem : (x : ℕ) → is_present x ≡ (x % 2 == 1)
is_present_lem x = ground (arith, bit_and-low 1 x)

-- The page directory entry of an address.
abbrev pub pde : Mem → ℕ → ℕ → ℕ
pde m pd v = load32 m.ram (pde_at m pd v)

abbrev pub IsFrame : ℕ → Type 0
IsFrame p = (p < page_table_size * 4096) × (p % 4096 ≡ 0)

-- The address of a directory's word never meets the word of a table in another frame.
pub entries-Apart :
    (m : Mem) (pd t v v' : ℕ)
    → IsWindow m
    → IsFrame pd
    → IsFrame t
    → pd ≢ t
    → v < 2 ^ 32
    → v' < 2 ^ 32
    → Apart (pte_at m t v) (pde_at m pd v')
entries-Apart m pd t v v' w (d1, d2) (t1, t2) ne hv hv' =
    rw (phys_to_virt_lem m pd w d1, phys_to_virt_lem m t w t1) (ground (arith, pt_index_lem v))

pub tables-Apart :
    (m : Mem) (t t' v v' : ℕ)
    → IsWindow m
    → IsFrame t
    → IsFrame t'
    → (t ≢ t') ⊎ (pt_index v ≢ pt_index v')
    → Apart (pte_at m t v) (pte_at m t' v')
tables-Apart m t t' v v' w (d1, d2) (t1, t2) ne =
    rw (phys_to_virt_lem m t w d1, phys_to_virt_lem m t' w t1)
      (ground (arith, pt_index_lem v, pt_index_lem v'))
