-- ===== src/Paging/Fresh.antt =====
-- Changes outside a directory: a frame is marked in use, and its memory is written.
use lbos.Base.{ℕ, ◌%◌, ◌^◌, ◌<◌, ◌≡◌, ◌≢◌, refl, ◌∙◌, true, arith}
use lbos.Memory.{Ram}
use lbos.Memory.Words.{store32-outside}
use lbos.Frames.{Mem, slot, set_bit}
use lbos.Frames.Bitmap.{test_bit-set_bit}
use lbos.Paging.{is_present, page_of, pte_at, write_entry, get_physical_address}
use lbos.Paging.Walk.{pde, pt_index_lem, phys_to_virt_lem}
use lbos.Paging.Entry.{pde-write_entry}
use lbos.Paging.Same.{with_ram, Same, Same-Keeps, get-Same}
use lbos.Paging.Owned.{
  Part, root, table, Away, Owns, Within, Within-Same, test_bit-Within, Part-IsFrame, Keeps-Owns,
  set_bit-Same,
}

-- No translation of the directory changes.
abbrev pub SameTranslations : Mem → Mem → ℕ → Type 0
SameTranslations m m' pd =
    (x : ℕ) → x < 2 ^ 32 → get_physical_address m' pd x ≡ get_physical_address m pd x

module _ {limit : ℕ} {m : Mem} {pd : ℕ} (o : Owns limit m pd) where
  pub Parts-Same :
      (r : Ram) → ((p : ℕ) → Part m pd p → Same m.ram r p) → SameTranslations m (with_ram m r) pd
  Parts-Same r same x hx =
      get-Same r o.directory x hx (Same-Keeps r o.directory (same pd (root refl)))
        (λ here. same (page_of (pde m pd x)) (table x hx here refl))

  pub set_bit-Owns : (k : ℕ) → k < limit → Owns limit (set_bit m k) pd
  unfolding set_bit
  set_bit-Owns k lt =
      Keeps-Owns o (set_bit m k).ram
        (Same-Keeps (set_bit m k).ram o.directory (set_bit-Same o k pd lt (root refl)))
        (λ i lt' used. ground (arith, test_bit-set_bit m k i))

  pub set_bit-same : (k : ℕ) → k < limit → SameTranslations m (set_bit m k) pd
  unfolding set_bit
  set_bit-same k lt = Parts-Same (set_bit m k).ram (λ p part. set_bit-Same o k p lt part)

  -- A write inside a frame that is no part of the directory, nor of the bitmap.
  module _ (q : ℕ) (r : Ram) (aligned : q % 4096 ≡ 0) (within : Within m.ram r q)
      (other : (p : ℕ) → Part m pd p → q ≢ p) (away : (i : ℕ) → i < limit → Away (slot m i) q) where
    pub outside-Same : (p : ℕ) → Part m pd p → Same m.ram r p
    outside-Same p part =
        Within-Same m.ram r q p aligned (Part-IsFrame o.directory part).1 (other p part) within

    pub outside-Owns : Owns limit (with_ram m r) pd
    outside-Owns =
        Keeps-Owns o r (Same-Keeps r o.directory (outside-Same pd (root refl)))
          (λ i lt used. test_bit-Within m r i q (away i lt) within ∙ used)

    pub outside-same : SameTranslations m (with_ram m r) pd
    outside-same = Parts-Same r outside-Same

  -- The word of a table that `write_entry` writes.
  module _ (v e : ℕ) (hv : v < 2 ^ 32) (here : is_present (pde m pd v) ≡ true) where
    abbrev t : ℕ
    t = page_of (pde m pd v)

    pub write_entry-Within : Within m.ram (write_entry m pd v e).ram t
    unfolding write_entry
    write_entry-Within b out =
        let base = phys_to_virt_lem m t o.directory.window (o.directory.tables v hv here).0 in
        store32-outside m.ram (pte_at m t v) e b (ground (arith, pt_index_lem v))

    pub write_entry-Owns : Owns limit (write_entry m pd v e) pd
    unfolding write_entry
    write_entry-Owns =
        Keeps-Owns o (write_entry m pd v e).ram (λ x hx. pde-write_entry e o.directory hv here x hx)
          (λ i lt used.
            test_bit-Within m (write_entry m pd v e).ram i t (o.apart i t lt (table v hv here refl))
              write_entry-Within
            ∙ used)
