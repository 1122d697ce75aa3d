-- ===== src/Paging/Marked.antt =====
-- Marking a frame as used, and the frames that an operation writes to.
use lbos.Base.{ℕ, ◌*◌, ◌^◌, ◌<◌, ◌≡◌, refl, sym, ap, ◌∙◌, arith}
use lbos.Frames.{Mem, set_bit}
use lbos.Paging.{page_of}
use lbos.Paging.Walk.{pde}
use lbos.Paging.Owned.{Part, Owns}
use lbos.Paging.{is_present}
use lbos.Paging.Ensure.{TableOf, old, new}
use lbos.Paging.Guard.{Guarded}
use lbos.Paging.Spare.{set_bit-Keeps, Spare, set_bit-Kept}
use lbos.Paging.Mapped.{Written, directory, table}

module _ {limit : ℕ} {m : Mem} {pd : ℕ} where
  pub Spare-Guarded : {j : ℕ} → Spare limit m pd j → Guarded limit m j
  Spare-Guarded s = record { below = s.below; used = s.used; away = s.away }

  pub not-Written : {v j : ℕ} → v < 2 ^ 32 → Spare limit m pd j → ¬ Written m pd v (j * 4096)
  not-Written hv s (directory e) = s.other pd (Part.root refl) e
  not-Written {v} hv s (table here e) = s.other (page_of (pde m pd v)) (Part.table v hv here refl) e

-- The frame `k` is marked as used.
module _ {limit : ℕ} {m : Mem} {pd : ℕ} (o : Owns limit m pd) (k : ℕ) (low : k < limit) where
  pub marked_entry : (x : ℕ) → x < 2 ^ 32 → pde (set_bit m k) pd x ≡ pde m pd x
  unfolding set_bit
  marked_entry x hx = set_bit-Keeps o k low x hx

  -- A free frame of then was free before.
  pub marked-TableOf :
      (x t : ℕ) → x < 2 ^ 32 → t < limit * 4096 → TableOf (set_bit m k) pd x t → TableOf m pd x t
  marked-TableOf x t hx lt (old here e) =
      let same = marked_entry x hx in old (ap is_present (sym same) ∙ here) (e ∙ ap page_of same)
  marked-TableOf x t hx lt (new j free' e) =
      new j (ground (arith, (set_bit-Kept o k low).grows j)) e

  pub Written-marked :
      (v : ℕ) → v < 2 ^ 32 → (q : ℕ) → Written (set_bit m k) pd v q → Written m pd v q
  Written-marked v hv q (directory e) = directory e
  Written-marked v hv q (table here e) =
      let same = marked_entry v hv in table (ap is_present (sym same) ∙ here) (e ∙ ap page_of same)
