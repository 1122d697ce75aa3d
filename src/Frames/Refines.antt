-- ===== src/Frames/Refines.antt =====
-- The allocator against a set of frames: any sequence of calls gives the answers that the set gives.
use lbos.Base.{
  ℕ, zero, suc, ◌*◌, ◌/◌, ◌^◌, ◌≤◌, ◌<◌, ◌≡◌, refl, sym, ap, ◌∙◌, inl, inr, Bool, true, false,
  arith, ◌==◌, ltb, if◌then◌else◌, Option, none, some, List, [], ◌∷◌, Bool-cases,
}
use mathlib.Core.Path.{ap₂}
use native.Mathlib.Decide.{ℕ_discrete}
use lbos.Frames.{Mem, test_bit, alloc_frame, free_frame, frame_size}
use lbos.Frames.Bitmap.{test_bit-clear_bit}
use lbos.Frames.Alloc.{
  AllocatesLowest, alloc_frame-lowest, total_frames-alloc_frame, total_frames-clear_bit,
}

-- A call of the allocator; to free a frame is to give back an address inside it.
pub data Call : Type 0 where
  alloc : Call
  free : ℕ → Call

abbrev pub call : Call → Mem → ℕ × Mem
call alloc m = alloc_frame m
call (free addr) m = (0, free_frame m addr)

abbrev pub run : List Call → Mem → List ℕ × Mem
run [] m = ([], m)
run (c ∷ cs) m =
    let (answer, m') = call c m in let (answers, last) = run cs m' in (answer ∷ answers, last)

-- The abstract state: which of the frames are in use.
abbrev pub Used : Type 0
Used = ℕ → Bool

-- The lowest of `n` frames that is not in use.
abbrev pub lowest : ℕ → Used → Option ℕ
lowest zero used = none
lowest (suc n) used = elim (lowest n used) [
  | some i ↦ some i
  | none ↦ if used n then none else some n
]

abbrev pub mark : ℕ → Bool → Used → Used
mark i b used j = if i == j then b else used j

abbrev pub taken : Used → Option ℕ → ℕ × Used
taken used none = (0, used)
taken used (some i) = (i * frame_size, mark i true used)

abbrev pub answer : ℕ → Call → Used → ℕ × Used
answer total alloc used = taken used (lowest total used)
answer total (free addr) used =
    (0, if ltb (addr / frame_size) total then mark (addr / frame_size) false used else used)

abbrev pub replay : ℕ → List Call → Used → List ℕ × Used
replay total [] used = ([], used)
replay total (c ∷ cs) used =
    let (answer', used') = answer total c used in
    let (answers, last) = replay total cs used' in (answer' ∷ answers, last)

lowest-full : (n : ℕ) (used : Used) → ((j : ℕ) → j < n → used j ≡ true) → lowest n used ≡ none
lowest-full zero used all = refl
lowest-full (suc n) used all =
    rw (lowest-full n used (λ j lt. all j (omega arith)), all n (omega arith)) refl

lowest-found :
    (n i : ℕ) (used : Used)
    → i < n
    → ((j : ℕ) → j < i → used j ≡ true)
    → used i ≡ false
    → lowest n used ≡ some i
lowest-found zero i used lt below unused = absurd (omega arith)
lowest-found (suc n) i used lt below unused = elim (ℕ_discrete i n) [
  | yes e ↦
      rw (lowest-full n used (λ j lt'. below j (omega arith)), sym (ap used e) ∙ unused)
        (ap some (sym e))
  | no ne ↦ rw (lowest-found n i used (omega arith) below unused) refl
]

-- The set that the bitmap stands for.
pub record Stands (total : ℕ) (m : Mem) (used : Used) : Type 0 where
  pub frames : m.total_frames ≡ total
  pub bits : (j : ℕ) → test_bit m j ≡ used j

alloc-Stands :
    (total : ℕ) (m : Mem) (used : Used) (r : ℕ × Mem)
    → Stands total m used
    → r.1.total_frames ≡ m.total_frames
    → AllocatesLowest m r
    → (r.0 ≡ (answer total alloc used).0) × Stands total r.1 (answer total alloc used).1
alloc-Stands total m used r st same (inl (i, lt, below, unused, addr, adds)) =
    let here : lowest total used ≡ some i =
      lowest-found total i used (omega (arith, st.frames)) (λ j lt'. sym (st.bits j) ∙ below j lt')
        (sym (st.bits i) ∙ unused) in
    rw here (
      addr,
      record {
        frames = same ∙ st.frames;
        bits = λ j. adds j ∙ ap (λ (b : Bool). if i == j then true else b) (st.bits j);
      },
    )
alloc-Stands total m used r st same (inr (all, zero', kept)) =
    let none_left : lowest total used ≡ none =
      lowest-full total used (λ j lt. sym (st.bits j) ∙ all j (omega (arith, st.frames))) in
    rw none_left (
      zero',
      record {
        frames = same ∙ st.frames;
        bits = λ j. ap (λ (x : Mem). test_bit x j) kept ∙ st.bits j;
      },
    )

free-Stands :
    (total addr : ℕ) (m : Mem) (used : Used)
    → Stands total m used
    → Stands total (free_frame m addr) (answer total (free addr) used).1
unfolding free_frame
free-Stands total addr m used st = elim (Bool-cases (ltb (addr / frame_size) m.total_frames)) [
  | inl managed ↦
      rw (managed, to_spec ∙ managed)
        (record {
          frames = total_frames-clear_bit m (addr / frame_size) ∙ st.frames;
          bits = λ j.
              test_bit-clear_bit m (addr / frame_size) j
              ∙ ap (λ (b : Bool). if addr / frame_size == j then false else b) (st.bits j);
        })
  | inr other ↦ rw (other, to_spec ∙ other) st
]
  where
    to_spec : ltb (addr / frame_size) total ≡ ltb (addr / frame_size) m.total_frames
    to_spec = ap (ltb (addr / frame_size)) (sym st.frames)

call-Stands :
    (total : ℕ) (m : Mem) (used : Used) (c : Call)
    → total ≤ 2 ^ 20
    → Stands total m used
    → ((call c m).0 ≡ (answer total c used).0) × Stands total (call c m).1 (answer total c used).1
call-Stands total m used alloc small st =
    alloc-Stands total m used (alloc_frame m) st (total_frames-alloc_frame m)
      (alloc_frame-lowest m (omega (arith, st.frames)))
call-Stands total m used (free addr) small st = (refl, free-Stands total addr m used st)

-- The allocator is a set of frames: with at most 2^20 frames, any sequence of allocations and releases gives the
-- answers that one gets from the set of the frames in use, of which an allocation takes the lowest frame
-- outside, and leaves a bitmap that stands for the set that is left.
pub run-Stands :
    (total : ℕ) (cs : List Call) (m : Mem) (used : Used)
    → total ≤ 2 ^ 20
    → Stands total m used
    → ((run cs m).0 ≡ (replay total cs used).0) × Stands total (run cs m).1 (replay total cs used).1
run-Stands total [] m used small st = (refl, st)
run-Stands total (c ∷ cs) m used small st =
    let (same, next) = call-Stands total m used c small st in
    let (later, last) = run-Stands total cs (call c m).1 (answer total c used).1 small next in
    (ap₂ (λ (a : ℕ) (l : List ℕ). a ∷ l) same later, last)
