-- ===== src/Paging/Guard.antt =====
-- Frames in use whose bytes an operation on a directory leaves alone, such as those of other processes.
use lbos.Base.{ℕ, ◌*◌, ◌%◌, ◌<◌, ◌≡◌, ◌≢◌, refl, sym, ◌∙◌, true, false, arith}
use mathlib.Core.Path.{subst}
use lbos.Memory.{Ram}
use lbos.Memory.Words.{store32-outside}
use lbos.Frames.{Mem, slot, set_bit, test_bit}
use lbos.Frames.Bitmap.{test_bit-set_bit}
use lbos.Paging.Same.{with_ram, Same}
use lbos.Paging.Owned.{Away, Within, Within-Same, test_bit-Within}

-- A frame in use, apart from the words of the bitmap below the limit.
pub record Guarded (limit : ℕ) (m : Mem) (j : ℕ) : Type 0 where
  pub below : j < limit
  pub used : test_bit m j ≡ true
  pub away : (i : ℕ) → i < limit → Away (slot m i) (j * 4096)

-- All guarded frames but those that `X` names hold the same bytes, and stay guarded.
abbrev pub Leaves : ℕ → Mem → Mem → (ℕ → Type 0) → Type 0
Leaves limit m m' X =
    (j : ℕ) → Guarded limit m j → ¬ X (j * 4096) → Same m.ram m'.ram (j * 4096) × Guarded limit m' j

pub Leaves-trans :
    {limit : ℕ} {m m' m'' : Mem} (X : ℕ → Type 0)
    → Leaves limit m m' X
    → Leaves limit m' m'' X
    → Leaves limit m m'' X
Leaves-trans X a b j g n =
    let (same, g') = a j g n in
    let (same', g'') = b j g' n in (λ c lo hi. same' c lo hi ∙ same c lo hi, g'')

pub Leaves-mono :
    {limit : ℕ} {m m' : Mem} (X Y : ℕ → Type 0)
    → ((p : ℕ) → X p → Y p)
    → Leaves limit m m' X
    → Leaves limit m m' Y
Leaves-mono X Y more a j g n = a j g (λ x. n (more (j * 4096) x))

pub Leaves-refl : {limit : ℕ} (m : Mem) (X : ℕ → Type 0) → Leaves limit m m X
Leaves-refl m X j g n = (λ c lo hi. refl, g)

pub set_bit-Leaves :
    {limit : ℕ} (m : Mem) (k : ℕ) (X : ℕ → Type 0) → k < limit → Leaves limit m (set_bit m k) X
unfolding set_bit
set_bit-Leaves m k X lt j g n = (
  λ b lo hi. let away = g.away k lt in store32-outside m.ram (slot m k) _ b (ground arith),
  record { below = g.below; used = ground (arith, test_bit-set_bit m k j, g.used); away = g.away },
)

-- A write inside the frame at `q`, which is apart from the bitmap too.
pub Within-Leaves :
    {limit : ℕ} (m : Mem) (r : Ram) (q : ℕ)
    → q % 4096 ≡ 0
    → ((i : ℕ) → i < limit → Away (slot m i) q)
    → Within m.ram r q
    → Leaves limit m (with_ram m r) (λ p. p ≡ q)
Within-Leaves m r q aligned away within j g n = (
  Within-Same m.ram r q (j * 4096) aligned (omega arith) (λ e. n (sym e)) within,
  record {
    below = g.below;
    used = test_bit-Within m r j q (away j g.below) within ∙ g.used;
    away = g.away;
  },
)

-- A guarded frame is none that is free.
pub Guarded-ne-free :
    {limit : ℕ} {m : Mem} (j k : ℕ) → Guarded limit m j → test_bit m k ≡ false → j ≢ k
Guarded-ne-free {limit} {m} j k g free e =
    let used = subst (λ (i : ℕ). test_bit m i ≡ true) e g.used in ground arith
