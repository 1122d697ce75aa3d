-- ===== src/Paging/Owned.antt =====
-- A directory whose frames the allocator keeps: they are in use, and the words of the bitmap lie elsewhere.
use lbos.Base.{
  ℕ, ◌+◌, ◌*◌, ◌/◌, ◌%◌, ◌^◌, ◌≤◌, ◌<◌, ◌≡◌, ◌≢◌, ◌⊎◌, ap, true, false, not, arith, ◌==◌, bit_and,
  ◌<<<◌,
}
use mathlib.Core.Path.{subst}
use lbos.Memory.{Ram}
use lbos.Memory.Words.{load32-cong, store32-outside}
use lbos.Frames.{Mem, slot, set_bit, test_bit}
use lbos.Paging.{page_table_size, is_present, page_of}
use lbos.Paging.Walk.{window, IsFrame, pde, page_of_aligned}
use lbos.Paging.Entry.{IsDirectory}
use lbos.Paging.Same.{with_ram, Same, Keeps, Keeps-IsDirectory}

-- The frames that a directory stands on: its own and those of its tables.
pub data Part (m : Mem) (pd p : ℕ) : Type 0 where
  root : p ≡ pd → Part m pd p
  table :
      (v : ℕ) → v < 2 ^ 32 → is_present (pde m pd v) ≡ true → p ≡ page_of (pde m pd v) → Part m pd p

-- A word lies outside the frame at the physical address `p`.
abbrev pub Away : ℕ → ℕ → Type 0
Away a p = (a + 4 ≤ p + window) ⊎ (p + window + 4096 ≤ a)

-- For the frames below `limit`, which are among those that `init_paging` maps behind the kernel window: the others
-- cannot be reached.
pub record Owns (limit : ℕ) (m : Mem) (pd : ℕ) : Type 0 where
  pub directory : IsDirectory m pd
  pub small : limit ≤ page_table_size
  pub frames : m.total_frames ≤ 2 ^ 20
  pub below : (p : ℕ) → Part m pd p → p < limit * 4096
  pub in_use : (p : ℕ) → Part m pd p → test_bit m (p / 4096) ≡ true
  pub apart : (i p : ℕ) → i < limit → Part m pd p → Away (slot m i) p
  pub apart_free :
      (i j : ℕ) → i < limit → j < limit → test_bit m j ≡ false → Away (slot m i) (j * 4096)

-- Nothing outside the frame at `p` changes.
abbrev pub Within : Ram → Ram → ℕ → Type 0
Within r r' p = (b : ℕ) → (b < p + window) ⊎ (p + window + 4096 ≤ b) → r' b ≡ r b

pub Within-Same :
    (r r' : Ram) (p q : ℕ) → p % 4096 ≡ 0 → q % 4096 ≡ 0 → p ≢ q → Within r r' p → Same r r' q
Within-Same r r' p q hp hq ne within b lo hi = within b (ground arith)

pub test_bit-Within :
    (m : Mem) (r : Ram) (i p : ℕ)
    → Away (slot m i) p
    → Within m.ram r p
    → test_bit (with_ram m r) i ≡ test_bit m i
unfolding test_bit
test_bit-Within m r i p away within =
    ap (λ (w : ℕ). not (bit_and w (1 <<< (i % 8)) == 0))
      (load32-cong m.ram r (slot m i) (slot m i) (slot m i + 4) (λ b lo hi. within b (ground arith))
        (omega arith) (omega arith))

pub Part-IsFrame : {m : Mem} {pd p : ℕ} → IsDirectory m pd → Part m pd p → IsFrame p
Part-IsFrame {m} {pd} d (root e) = rw e d.frame
Part-IsFrame {m} {pd} d (table v hv here e) =
    rw e ((d.tables v hv here).0, page_of_aligned (pde m pd v))

pub Part-Keeps :
    {m : Mem} {pd p : ℕ} {r : Ram} → Keeps m r pd → Part (with_ram m r) pd p → Part m pd p
Part-Keeps kept (root e) = root e
Part-Keeps {m} {pd} {p} {r} kept (table v hv here e) =
    table v hv (rw (← kept v hv) here) (rw (← kept v hv) e)

module _ {limit : ℕ} {m : Mem} {pd : ℕ} (o : Owns limit m pd) where
  -- A change that keeps the entries and frees no frame.
  pub Keeps-Owns :
      (r : Ram)
      → Keeps m r pd
      → ((i : ℕ) → i < limit → test_bit m i ≡ true → test_bit (with_ram m r) i ≡ true)
      → Owns limit (with_ram m r) pd
  Keeps-Owns r kept grows = record {
    directory = Keeps-IsDirectory r o.directory kept;
    small = o.small;
    frames = o.frames;
    below = λ p part. o.below p (Part-Keeps kept part);
    in_use = λ p part.
        let part' = Part-Keeps kept part in
        let lt = o.below p part' in grows (p / 4096) (omega arith) (o.in_use p part');
    apart = λ i p lt part. o.apart i p lt (Part-Keeps kept part);
    apart_free = λ i j lt lt' free. o.apart_free i j lt lt' (was_free j lt' free);
  }
    where
      was_free : (j : ℕ) → j < limit → test_bit (with_ram m r) j ≡ false → test_bit m j ≡ false
      was_free j lt free = ground (arith, grows j lt)

  -- A frame that was free is no part of the directory.
  pub free-ne-Part : (k p : ℕ) → test_bit m k ≡ false → Part m pd p → k * 4096 ≢ p
  free-ne-Part k p free part e =
      let index : p / 4096 ≡ k = omega (arith, e) in
      let used = o.in_use p part in
      let used' : test_bit m k ≡ true = subst (λ (q : ℕ). test_bit m q ≡ true) index used in
      ground arith

  pub set_bit-Same : (k p : ℕ) → k < limit → Part m pd p → Same m.ram (set_bit m k).ram p
  unfolding set_bit
  set_bit-Same k p lt part b lo hi =
      let away = o.apart k p lt part in store32-outside m.ram (slot m k) _ b (ground arith)
