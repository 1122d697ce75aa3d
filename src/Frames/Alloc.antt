-- ===== src/Frames/Alloc.antt =====
-- `alloc_frame` and `free_frame` against the set of frames that are in use.
use lbos.Base.{
  ℕ, zero, suc, ◌+◌, ◌*◌, ◌/◌, ◌^◌, ◌≤◌, ◌<◌, ◌≡◌, ◌≢◌, refl, ap, ◌∙◌, ◌⊎◌, inl, inr, true, false,
  arith, ◌==◌, if◌then◌else◌, u32, Bool-cases,
}
use lbos.Frames.{
  Mem, set_bit, clear_bit, test_bit, alloc_loop, alloc_frame, free_frame, is_frame_allocated,
  frame_size,
}
use lbos.Frames.Bitmap.{test_bit-set_bit, test_bit-clear_bit}

-- What the loop can answer from frame `i` on: the last frame was passed, or the first free frame.
pub data Alloc (m : Mem) (i limit : ℕ) (r : ℕ × Mem) : Type 0 where
  full : ((j : ℕ) → i ≤ j → j < limit → test_bit m j ≡ true) → r ≡ (0, m) → Alloc m i limit r
  found :
      (k : ℕ)
      → k < limit
      → ((j : ℕ) → i ≤ j → j < k → test_bit m j ≡ true)
      → test_bit m k ≡ false
      → r ≡ (u32 (k * frame_size), set_bit m k)
      → Alloc m i limit r

Alloc-skip :
    {m : Mem} {i limit : ℕ} {r : ℕ × Mem}
    → test_bit m i ≡ true
    → Alloc m (i + 1) limit r
    → Alloc m i limit r
Alloc-skip used (full all e) = full (λ j p q. ground (arith, all j)) e
Alloc-skip used (found k lt all free e) = found k lt (λ j p q. ground (arith, all j)) free e

alloc_loop-Alloc :
    (m : Mem) (rounds i limit : ℕ) → i + rounds ≡ limit → Alloc m i limit (alloc_loop rounds i m)
unfolding alloc_loop
alloc_loop-Alloc m zero i limit e = full (λ j p q. absurd (omega arith)) refl
alloc_loop-Alloc m (suc rounds) i limit e = elim (Bool-cases (test_bit m i)) [
  | inl used ↦ rw used (Alloc-skip used (alloc_loop-Alloc m rounds (i + 1) limit (omega arith)))
  | inr free ↦ rw free (found i (omega arith) (λ j p q. absurd (omega arith)) free refl)
]

pub alloc_frame-Alloc : (m : Mem) → Alloc m 0 m.total_frames (alloc_frame m)
unfolding alloc_frame alloc_loop
alloc_frame-Alloc m = alloc_loop-Alloc m m.total_frames 0 m.total_frames (omega arith)

-- The frames in use are those in use before and the one that was handed out.
abbrev pub Adds : Mem → ℕ → Mem → Type 0
Adds m i n = (j : ℕ) → test_bit n j ≡ (if i == j then true else test_bit m j)

-- What a caller of `alloc_frame` may rely on: the lowest free frame, or 0 with nothing changed.
abbrev pub AllocatesLowest : Mem → ℕ × Mem → Type 0
AllocatesLowest m (addr, n) =
    ((i : ℕ) × (i < m.total_frames)
      × ((j : ℕ) → j < i → test_bit m j ≡ true)
      × (test_bit m i ≡ false)
      × (addr ≡ i * frame_size)
      × Adds m i n)
    ⊎ (((j : ℕ) → j < m.total_frames → test_bit m j ≡ true) × (addr ≡ 0) × (n ≡ m))

Alloc-lowest :
    (m : Mem) (r : ℕ × Mem)
    → m.total_frames ≤ 2 ^ 20
    → Alloc m 0 m.total_frames r
    → AllocatesLowest m r
Alloc-lowest m r small (full all e) =
    inr (λ j p. all j (omega arith) p, ap (λ (x : ℕ × Mem). x.0) e, ap (λ (x : ℕ × Mem). x.1) e)
Alloc-lowest m r small (found k lt all free e) = inl (
  k,
  lt,
  λ j p. all j (omega arith) p,
  free,
  ap (λ (x : ℕ × Mem). x.0) e ∙ omega arith,
  λ j. ap (λ (x : ℕ × Mem). test_bit x.1 j) e ∙ test_bit-set_bit m k j,
)

-- With at most 2^20 frames, `alloc_frame` hands out the lowest frame that is free, as its physical
-- address, and marks that frame and no other; if no frame is free it answers 0 and changes nothing.
pub alloc_frame-lowest : (m : Mem) → m.total_frames ≤ 2 ^ 20 → AllocatesLowest m (alloc_frame m)
alloc_frame-lowest m small = Alloc-lowest m (alloc_frame m) small (alloc_frame-Alloc m)

-- Where the lowest free frame is known, so is the answer.
pub alloc_frame-eq :
    (m : Mem) (k : ℕ)
    → m.total_frames ≤ 2 ^ 20
    → k < m.total_frames
    → test_bit m k ≡ false
    → ((j : ℕ) → j < k → test_bit m j ≡ true)
    → (alloc_frame m).0 ≡ k * frame_size
alloc_frame-eq m k small lt free below = go (alloc_frame m) (alloc_frame-lowest m small)
  where
    go : (r : ℕ × Mem) → AllocatesLowest m r → r.0 ≡ k * frame_size
    go r (inr (all, z, same)) = ground (arith, all k)
    go r (inl (i, lt', below', free', e, adds)) = ground (arith, below i, below' k)

pub total_frames-alloc_frame : (m : Mem) → (alloc_frame m).1.total_frames ≡ m.total_frames
total_frames-alloc_frame m = go (alloc_frame m) (alloc_frame-Alloc m)
  where
    go : (r : ℕ × Mem) → Alloc m 0 m.total_frames r → r.1.total_frames ≡ m.total_frames
    go r (full all e) = ap (λ (x : ℕ × Mem). x.1.total_frames) e
    go r (found k lt all free e) = unfold set_bit in ap (λ (x : ℕ × Mem). x.1.total_frames) e

lowest-ne :
    (m n : Mem) (a b : ℕ) (o : Mem)
    → AllocatesLowest m (a, n)
    → AllocatesLowest n (b, o)
    → a ≢ 0
    → b ≢ a
lowest-ne m n a b o (inr (all, z, same)) second got = absurd (got z)
lowest-ne m n a b o (inl (i, lt, below, free, e, adds)) (inr (all, z, same)) got = omega arith
lowest-ne m n a b o (inl (i, lt, below, free, e, adds)) (inl (i', lt', below', free', e', adds'))
      got =
    ground (arith, adds i')

-- Two allocations in a row never hand out one frame twice: after an allocation that succeeded, the
-- next answer is another address, with at most 2^20 frames.
pub alloc_frame-ne :
    (m : Mem)
    → m.total_frames ≤ 2 ^ 20
    → (alloc_frame m).0 ≢ 0
    → (alloc_frame (alloc_frame m).1).0 ≢ (alloc_frame m).0
alloc_frame-ne m small got =
    let n = (alloc_frame m).1 in
    let again : n.total_frames ≤ 2 ^ 20 = rw (total_frames-alloc_frame m) small in
    lowest-ne m n (alloc_frame m).0 (alloc_frame n).0 (alloc_frame n).1 (alloc_frame-lowest m small)
      (alloc_frame-lowest n again) got

pub total_frames-clear_bit : (m : Mem) (i : ℕ) → (clear_bit m i).total_frames ≡ m.total_frames
unfolding clear_bit
total_frames-clear_bit m i = refl

-- `free_frame` of any address inside a managed frame gives back exactly that frame: it is free
-- afterwards, and every other frame is in use as before.
pub is_frame_allocated-free_frame :
    (m : Mem) (addr other : ℕ)
    → addr / frame_size < m.total_frames
    → is_frame_allocated (free_frame m addr) other
      ≡ (if addr / frame_size == other / frame_size then false else is_frame_allocated m other)
unfolding is_frame_allocated free_frame
is_frame_allocated-free_frame m addr other h = ground (
  arith,
  total_frames-clear_bit m (addr / frame_size),
  test_bit-clear_bit m (addr / frame_size) (other / frame_size),
)
