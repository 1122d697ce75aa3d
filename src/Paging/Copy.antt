-- ===== src/Paging/Copy.antt =====
-- `copy_entries`: the words of one page that are copied to another.
use lbos.Base.{
  ℕ, zero, suc, ◌+◌, ◌*◌, ◌≤◌, ◌<◌, ◌≡◌, ◌⊎◌, refl, ◌∙◌, arith, ◌&&◌, ltb, leb, if◌then◌else◌, u32,
}
use mathlib.Core.Path.{subst}
use native.Mathlib.Decide.{ℕ_discrete}
use lbos.Memory.{Ram, load32, store32}
use lbos.Memory.Words.{store32-outside, load32-store32_self, load32-store32-Apart}
use lbos.Paging.{copy_entries}

-- The pages do not overlap.
module _ (target source : ℕ) (apart : (target + 4096 ≤ source) ⊎ (source + 4096 ≤ target)) where
  pub copy_entries-outside :
      (rounds i b : ℕ) (m : Ram)
      → i + rounds ≤ 1024
      → (b < target) ⊎ (target + 4096 ≤ b)
      → copy_entries target source rounds i m b ≡ m b
  unfolding copy_entries
  copy_entries-outside zero i b m fits out = refl
  copy_entries-outside (suc rounds) i b m fits out =
      copy_entries-outside rounds (i + 1) b _ (omega arith) out
      ∙ store32-outside m (target + 4 * i) _ b (ground arith)

  -- An entry behind the copied ones and one before them.
  pub load32-copy_entries :
      (rounds i w : ℕ) (m : Ram)
      → i + rounds ≤ 1024
      → w < 1024
      → load32 (copy_entries target source rounds i m) (target + 4 * w) ≡ (
          if leb i w && ltb w (i + rounds)
          then u32 (load32 m (source + 4 * w))
          else load32 m (target + 4 * w))
  unfolding copy_entries
  load32-copy_entries zero i w m fits hw = ground arith
  load32-copy_entries (suc rounds) i w m fits hw =
      let v = load32 m (source + 4 * i) in
      let m' = store32 m (target + 4 * i) v in
      load32-copy_entries rounds (i + 1) w m' (omega arith) hw ∙ (elim (ℕ_discrete i w) [
        | yes e ↦
            let word : load32 m' (target + 4 * w) ≡ u32 (load32 m (source + 4 * w)) =
              subst (λ (j : ℕ). load32 m' (target + 4 * j) ≡ u32 (load32 m (source + 4 * j))) e
                (load32-store32_self m (target + 4 * i) v) in
            ground arith
        | no n ↦
            let from : load32 m' (source + 4 * w) ≡ load32 m (source + 4 * w) =
              load32-store32-Apart m (target + 4 * i) v (source + 4 * w) (ground arith) in
            let to : load32 m' (target + 4 * w) ≡ load32 m (target + 4 * w) =
              load32-store32-Apart m (target + 4 * i) v (target + 4 * w) (ground arith) in
            ground arith
      ])
