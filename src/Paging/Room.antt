-- ===== src/Paging/Room.antt =====
-- Frames that are free in a row, so that the next allocations succeed.
use lbos.Base.{
  ℕ, ◌+◌, ◌*◌, ◌^◌, ◌≤◌, ◌<◌, ◌≡◌, ◌≢◌, ◌∙◌, inl, inr, true, false, arith, ◌==◌, if◌then◌else◌,
}
use mathlib.Core.Path.{subst}
use lbos.Frames.{Mem, test_bit, alloc_frame}
use lbos.Frames.Alloc.{AllocatesLowest, alloc_frame-lowest}

-- The frames from `a` on, `n` of them, are free; frame 0 is not, since its address stands for a failure.
pub record Room (limit : ℕ) (m : Mem) (a n : ℕ) : Type 0 where
  pub fits : a + n ≤ limit
  pub managed : a + n ≤ m.total_frames
  pub reserved : test_bit m 0 ≡ true
  pub free : (j : ℕ) → a ≤ j → j < a + n → test_bit m j ≡ false

-- An operation that takes at most `c` frames.
abbrev pub Spends : ℕ → Mem → Mem → ℕ → Type 0
Spends limit m m' c = (a n : ℕ) → Room limit m a (c + n) → Room limit m' (a + c) n

-- The frames in use are those of before and `k`, the lowest that was free.
pub Spends-one :
    {limit : ℕ} (m m' : Mem) (k : ℕ)
    → k < limit
    → test_bit m k ≡ false
    → ((j : ℕ) → j < k → test_bit m j ≡ true)
    → m'.total_frames ≡ m.total_frames
    → ((j : ℕ) → j < limit → test_bit m' j ≡ (if k == j then true else test_bit m j))
    → Spends limit m m' 1
Spends-one m m' k lt free lower total bits a n room = record {
  fits = omega (arith, room.fits);
  managed = omega (arith, room.managed, total);
  reserved = ground (arith, bits 0, room.reserved);
  free = λ j lo hi. ground (arith, bits j, room.free j, room.free a, lower a, room.fits);
}

-- An operation that marks and frees no frame.
pub Room-Same :
    {limit : ℕ} (m m' : Mem) (a n : ℕ)
    → 0 < limit
    → m'.total_frames ≡ m.total_frames
    → ((j : ℕ) → j < limit → test_bit m' j ≡ test_bit m j)
    → Room limit m a n
    → Room limit m' a n
Room-Same m m' a n pos total bits room = record {
  fits = room.fits;
  managed = omega (arith, room.managed, total);
  reserved = bits 0 pos ∙ room.reserved;
  free = λ j lo hi. bits j (omega (arith, room.fits)) ∙ room.free j lo hi;
}

-- The frames from the second on.
pub Room-less : {limit : ℕ} (m : Mem) (a n : ℕ) → Room limit m a (1 + n) → Room limit m (a + 1) n
Room-less m a n room = record {
  fits = omega (arith, room.fits);
  managed = omega (arith, room.managed);
  reserved = room.reserved;
  free = λ j lo hi. room.free j (omega arith) (omega arith);
}

pub Spends-trans :
    {limit : ℕ} (m m' m'' : Mem) (c d : ℕ)
    → Spends limit m m' c
    → Spends limit m' m'' d
    → Spends limit m m'' (c + d)
Spends-trans {limit} m m' m'' c d s t a n room =
    let sum : c + d + n ≡ c + (d + n) = omega arith in
    let sum' : a + c + d ≡ a + (c + d) = omega arith in
    subst (λ (b : ℕ). Room limit m'' b n) sum'
      (t (a + c) n (s a (d + n) (subst (Room limit m a) sum room)))

-- With room, an allocation succeeds, below the limit.
pub Room-alloc :
    {limit : ℕ} (m : Mem) (a n : ℕ)
    → m.total_frames ≤ 2 ^ 20
    → Room limit m a (1 + n)
    → ((alloc_frame m).0 < limit * 4096) × ((alloc_frame m).0 ≢ 0)
Room-alloc {limit} m a n small room = go (alloc_frame m) (alloc_frame-lowest m small)
  where
    go : (r : ℕ × Mem) → AllocatesLowest m r → (r.0 < limit * 4096) × (r.0 ≢ 0)
    go r (inr (all, z, same)) = ground (arith, all a, room.free a, room.managed)
    go r (inl (i, lt, below, free, e, adds)) =
        ground (arith, below a, room.free a, room.fits, room.reserved)

pub Room-fewer : {limit : ℕ} (m : Mem) (a n k : ℕ) → k ≤ n → Room limit m a n → Room limit m a k
Room-fewer m a n k le room = record {
  fits = omega (arith, room.fits);
  managed = omega (arith, room.managed);
  reserved = room.reserved;
  free = λ j lo hi. room.free j lo (omega arith);
}
