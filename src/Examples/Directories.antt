-- ===== src/Examples/Directories.antt =====
-- Directories with one table, beside a bitmap in frame 1.
use lbos.Base.{
  ℕ, ◌+◌, ◌*◌, ◌/◌, ◌^◌, ◌<◌, ◌≡◌, ◌≢◌, refl, sym, ◌∙◌, true, false, arith, ◌==◌, if◌then◌else◌,
}
use mathlib.Core.Path.{subst}
use lbos.Memory.{Ram}
use lbos.Frames.{Mem, slot, test_bit}
use lbos.Paging.{pd_index, is_present, page_of}
use lbos.Paging.Walk.{pde}
use lbos.Paging.Entry.{IsDirectory}
use lbos.Paging.Owned.{Part, root, table, Away, Owns}

abbrev pub with_bytes : Ram → Mem
with_bytes ram = record {
  ram = ram;
  frame_bitmap = 0xc000_1000;
  bitmap_size = 4096;
  total_frames = 16;
  kernel_physical_start = 0x10_0000;
  kernel_physical_end = 0x12_0000;
  kernel_virtual_start = 0xc010_0000;
  kernel_virtual_end = 0xc012_0000;
}

-- A directory in the frame `d` whose only table lies in the frame `t`.
module _ (ram : Ram) (bitmap : (j : ℕ) → test_bit (with_bytes ram) j ≡ false → j ≢ 1) (d t : ℕ)
    (entries : (v : ℕ)
      → v < 2 ^ 32
      → pde (with_bytes ram) (d * 4096) v ≡ (if pd_index v == 0 then t * 4096 + 7 else 0))
    (present : is_present (t * 4096 + 7) ≡ true) (at_table : page_of (t * 4096 + 7) ≡ t * 4096)
    (hd : (1 < d) × (d < 8)) (ht : (1 < t) × (t < 8)) (ne : d ≢ t)
    (used_d : test_bit (with_bytes ram) d ≡ true)
    (used_t : test_bit (with_bytes ram) t ≡ true) where
  index_of_present :
      (v : ℕ) → v < 2 ^ 32 → is_present (pde (with_bytes ram) (d * 4096) v) ≡ true → pd_index v ≡ 0
  index_of_present v h = rw (entries v h) (λ ready. ground arith)

  page_of_present :
      (v : ℕ)
      → v < 2 ^ 32
      → is_present (pde (with_bytes ram) (d * 4096) v) ≡ true
      → page_of (pde (with_bytes ram) (d * 4096) v) ≡ t * 4096
  page_of_present v h ready = rw (entries v h, index_of_present v h ready) at_table

  one_table-IsDirectory : IsDirectory (with_bytes ram) (d * 4096)
  one_table-IsDirectory = record {
    window = (refl, omega arith);
    frame = omega arith;
    tables = λ v h ready. (
      omega (arith, page_of_present v h ready),
      λ e. omega (arith, page_of_present v h ready, e),
    );
    unshared = λ v v' h h' ready ready' e.
        index_of_present v h ready ∙ sym (index_of_present v' h' ready');
  }

  pub two_parts {ℓ} :
      (P : ℕ → Type ℓ)
      → P (d * 4096)
      → P (t * 4096)
      → (p : ℕ) → Part (with_bytes ram) (d * 4096) p
      → P p
  two_parts P a b p (root e) = subst P (sym e) a
  two_parts P a b p (table v h ready e) = subst P (sym (e ∙ page_of_present v h ready)) b

  bit_of :
      (i : ℕ)
      → test_bit (with_bytes ram) i ≡ true
      → test_bit (with_bytes ram) (i * 4096 / 4096) ≡ true
  bit_of i used = let whole : i * 4096 / 4096 ≡ i = omega arith in rw whole used

  pub one_table-Owns : Owns 8 (with_bytes ram) (d * 4096)
  one_table-Owns = record {
    directory = one_table-IsDirectory;
    small = omega arith;
    frames = omega arith;
    below = two_parts (λ p. p < 8 * 4096) (omega arith) (omega arith);
    in_use =
        two_parts (λ p. test_bit (with_bytes ram) (p / 4096) ≡ true) (bit_of d used_d)
          (bit_of t used_t);
    apart =
        λ i p lt. two_parts (λ q. Away (slot (with_bytes ram) i) q) (ground arith) (ground arith) p;
    apart_free = λ i j lt lt' free. let other = bitmap j free in ground arith;
  }
