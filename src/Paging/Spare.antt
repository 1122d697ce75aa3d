-- ===== src/Paging/Spare.antt =====
-- Frames in use that no directory stands on, such as one that was just handed out.
use lbos.Base.{ℕ, ◌+◌, ◌*◌, ◌^◌, ◌≤◌, ◌<◌, ◌≡◌, ◌≢◌, refl, ap, ◌∙◌, true, false, arith}
use lbos.Memory.{Ram, memset}
use lbos.Memory.Blocks.{memset-outside, memset_lem}
use lbos.Frames.{Mem, slot, set_bit, test_bit, phys_to_virt}
use lbos.Frames.Bitmap.{test_bit-set_bit}
use lbos.Paging.{is_present, page_of, write_entry}
use lbos.Paging.Walk.{window, pde, phys_to_virt_lem}
use lbos.Paging.Entry.{pde-write_entry}
use lbos.Paging.Same.{with_ram, Keeps, Same-Keeps}
use lbos.Paging.Owned.{
  Part, root, table, Away, Owns, Within, test_bit-Within, Part-Keeps, free-ne-Part, set_bit-Same,
}
use lbos.Paging.Fresh.{
  SameTranslations, set_bit-Owns, outside-Owns, outside-same, outside-Same, write_entry-Owns,
  write_entry-Within,
}

pub record Spare (limit : ℕ) (m : Mem) (pd k : ℕ) : Type 0 where
  pub below : k < limit
  pub used : test_bit m k ≡ true
  pub other : (p : ℕ) → Part m pd p → k * 4096 ≢ p
  pub away : (i : ℕ) → i < limit → Away (slot m i) (k * 4096)

-- The directory stays in the allocator's care, spare frames stay spare, no frame is given up, and only memory
-- changes.
pub record Kept (limit : ℕ) (m m' : Mem) (pd : ℕ) : Type 0 where
  pub owns : Owns limit m' pd
  pub spares : (j : ℕ) → Spare limit m pd j → Spare limit m' pd j
  pub grows : (i : ℕ) → i < limit → test_bit m i ≡ true → test_bit m' i ≡ true
  pub only_ram : m' ≡ with_ram m m'.ram

Keeps-Spare :
    {limit : ℕ} {m : Mem} {pd : ℕ} (r : Ram) (j : ℕ)
    → Keeps m r pd
    → test_bit (with_ram m r) j ≡ true
    → Spare limit m pd j
    → Spare limit (with_ram m r) pd j
Keeps-Spare r j kept used s = record {
  below = s.below;
  used = used;
  other = λ p part. s.other p (Part-Keeps kept part);
  away = s.away;
}

module _ {limit : ℕ} {m : Mem} {pd : ℕ} (o : Owns limit m pd) where
  pub set_bit-Keeps : (k : ℕ) → k < limit → Keeps m (set_bit m k).ram pd
  unfolding set_bit
  set_bit-Keeps k lt = Same-Keeps (set_bit m k).ram o.directory (set_bit-Same o k pd lt (root refl))

  pub alloc-Spare : (k : ℕ) → k < limit → test_bit m k ≡ false → Spare limit (set_bit m k) pd k
  unfolding set_bit
  alloc-Spare k lt free = record {
    below = lt;
    used = test_bit-set_bit m k k ∙ ground arith;
    other = λ p part. free-ne-Part o k p free (Part-Keeps (set_bit-Keeps k lt) part);
    away = λ i hi. o.apart_free i k hi lt free;
  }

  pub set_bit-Kept : (k : ℕ) → k < limit → Kept limit m (set_bit m k) pd
  unfolding set_bit
  set_bit-Kept k lt = record {
    owns = set_bit-Owns o k lt;
    spares = λ j s.
        Keeps-Spare (set_bit m k).ram j (set_bit-Keeps k lt)
          (ground (arith, test_bit-set_bit m k j, s.used)) s;
    grows = λ i hi used. ground (arith, test_bit-set_bit m k i);
    only_ram = refl;
  }

  -- A write inside a spare frame.
  module _ (k : ℕ) (s : Spare limit m pd k) (r : Ram) (within : Within m.ram r (k * 4096)) where
    pub written-Keeps : Keeps m r pd
    written-Keeps =
        Same-Keeps r o.directory
          (outside-Same o (k * 4096) r (omega arith) within s.other s.away pd (root refl))

    pub written-Kept : Kept limit m (with_ram m r) pd
    written-Kept = record {
      owns = outside-Owns o (k * 4096) r (omega arith) within s.other s.away;
      spares = λ j s'.
          Keeps-Spare r j written-Keeps
            (test_bit-Within m r j (k * 4096) (s.away j s'.below) within ∙ s'.used) s';
      grows = λ i hi used. test_bit-Within m r i (k * 4096) (s.away i hi) within ∙ used;
      only_ram = refl;
    }

    pub written-same : SameTranslations m (with_ram m r) pd
    written-same = outside-same o (k * 4096) r (omega arith) within s.other s.away

  -- Clearing a spare frame.
  module _ (k : ℕ) (s : Spare limit m pd k) where
    abbrev pub cleared : Mem
    cleared = with_ram m (memset m.ram (phys_to_virt m (k * 4096)) 0 4096)

    base : phys_to_virt m (k * 4096) ≡ k * 4096 + window
    base = phys_to_virt_lem m (k * 4096) o.directory.window (omega (arith, o.small, s.below))

    pub cleared-Within : Within m.ram cleared.ram (k * 4096)
    cleared-Within b out =
        memset-outside m.ram (phys_to_virt m (k * 4096)) 0 4096 b (ground (arith, base))

    pub cleared_empty :
        (b : ℕ) → k * 4096 + window ≤ b → b < k * 4096 + window + 4096 → cleared.ram b ≡ 0
    cleared_empty b lo hi =
        ground (arith, base, memset_lem m.ram (phys_to_virt m (k * 4096)) 0 4096 b)

    pub cleared-Keeps : Keeps m cleared.ram pd
    cleared-Keeps = written-Keeps k s cleared.ram cleared-Within

    pub cleared-Kept : Kept limit m cleared pd
    cleared-Kept = written-Kept k s cleared.ram cleared-Within

    pub cleared-same : SameTranslations m cleared pd
    cleared-same = written-same k s cleared.ram cleared-Within

  pub write_entry-Kept :
      (v e : ℕ)
      → v < 2 ^ 32
      → is_present (pde m pd v) ≡ true
      → Kept limit m (write_entry m pd v e) pd
  unfolding write_entry
  write_entry-Kept v e hv here = record {
    owns = write_entry-Owns o v e hv here;
    spares = λ j s.
        Keeps-Spare (write_entry m pd v e).ram j
          (λ x hx. pde-write_entry e o.directory hv here x hx)
          (test_bit-Within m (write_entry m pd v e).ram j (page_of (pde m pd v))
              (o.apart j (page_of (pde m pd v)) s.below (table v hv here refl))
              (write_entry-Within o v e hv here)
            ∙ s.used)
          s;
    grows = λ i hi used.
        test_bit-Within m (write_entry m pd v e).ram i (page_of (pde m pd v))
          (o.apart i (page_of (pde m pd v)) hi (table v hv here refl))
          (write_entry-Within o v e hv here)
        ∙ used;
    only_ram = refl;
  }

pub Kept-trans :
    {limit : ℕ} {m m' m'' : Mem} {pd : ℕ}
    → Kept limit m m' pd
    → Kept limit m' m'' pd
    → Kept limit m m'' pd
Kept-trans {m'' = m''} a b = record {
  owns = b.owns;
  spares = λ j s. b.spares j (a.spares j s);
  grows = λ i hi used. b.grows i hi (a.grows i hi used);
  only_ram = b.only_ram ∙ ap (λ (q : Mem). with_ram q m''.ram) a.only_ram;
}
