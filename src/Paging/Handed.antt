-- ===== src/Paging/Handed.antt =====
-- What `alloc_frame` answers beside a directory in its care.
use lbos.Base.{ℕ, ◌*◌, ◌<◌, ◌≡◌, ◌≢◌, refl, sym, ap, ◌∙◌, false, arith, true, u32}
use mathlib.Core.Path.{subst}
use native.Mathlib.Decide.{ℕ_discrete}
use lbos.Frames.{Mem, set_bit, test_bit, alloc_frame, frame_size}
use lbos.Frames.Alloc.{Alloc, full, found, alloc_frame-Alloc}
use lbos.Paging.Owned.{Owns}
use lbos.Paging.Fresh.{SameTranslations, set_bit-same}
use lbos.Paging.Guard.{Leaves, Leaves-refl, set_bit-Leaves}
use lbos.Paging.Spare.{Kept, set_bit-Kept}

-- A frame that was free, or an answer that stands for failure. A free frame 0 is such an answer too.
pub data Handed (limit : ℕ) (m : Mem) (pd : ℕ) (a : ℕ × Mem) : Type 0 where
  handed :
      (k : ℕ)
      → k ≢ 0
      → k < limit
      → test_bit m k ≡ false
      → ((j : ℕ) → j < k → test_bit m j ≡ true)
      → a ≡ (k * 4096, set_bit m k)
      → Handed limit m pd a
  none_left :
      a.0 ≡ 0
      → Kept limit m a.1 pd
      → SameTranslations m a.1 pd
      → Leaves limit m a.1 (λ p. p ≡ pd)
      → Handed limit m pd a

module _ {limit : ℕ} {m : Mem} {pd : ℕ} (o : Owns limit m pd) where
  pub unchanged : Kept limit m m pd
  unchanged = record { owns = o; spares = λ j s. s; grows = λ i hi used. used; only_ram = refl }

  Alloc-Handed :
      (a : ℕ × Mem) → a.0 < limit * 4096 → Alloc m 0 m.total_frames a → Handed limit m pd a
  Alloc-Handed a lt (full all e) =
      subst (Handed limit m pd) (sym e)
        (none_left refl unchanged (λ x hx. refl) (Leaves-refl m (λ p. p ≡ pd)))
  Alloc-Handed a lt (found k hk all free e) = elim (ℕ_discrete k 0) [
    | yes z ↦ subst (Handed limit m pd) (sym exact) (
        none_left (omega (arith, z)) (set_bit-Kept o k low) (set_bit-same o k low)
          (set_bit-Leaves m k (λ p. p ≡ pd) low))
    | no nz ↦ handed k nz low free (λ j h. all j (omega arith) h) exact
  ]
    where
      exact : a ≡ (k * 4096, set_bit m k)
      exact =
          let whole : u32 (k * frame_size) ≡ k * 4096 = omega (arith, o.frames) in
          e ∙ ap (λ (q : ℕ). (q, set_bit m k)) whole

      low : k < limit
      low = omega (arith, ap (λ (q : ℕ × Mem). q.0) exact)

  pub alloc_frame-Handed : (alloc_frame m).0 < limit * 4096 → Handed limit m pd (alloc_frame m)
  alloc_frame-Handed lt = Alloc-Handed (alloc_frame m) lt (alloc_frame-Alloc m)
