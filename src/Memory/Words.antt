-- ===== src/Memory/Words.antt =====
-- Laws of the 32-bit accesses.
use lbos.Base.{ℕ, ap, ◌+◌, ◌≤◌, ◌<◌, ◌≡◌, ◌⊎◌, ◌∙◌, refl, arith, u32}
use lbos.Memory.{Ram, load32, store32}

-- Two words do not overlap.
abbrev pub Apart : ℕ → ℕ → Type 0
Apart a b = (a + 4 ≤ b) ⊎ (b + 4 ≤ a)

pub store32-outside : (m : Ram) (a v b : ℕ) → (b < a) ⊎ (a + 4 ≤ b) → store32 m a v b ≡ m b
unfolding store32
store32-outside m a v b h = ground arith

pub load32-store32_self : (m : Ram) (a v : ℕ) → load32 (store32 m a v) a ≡ u32 v
unfolding load32 store32
load32-store32_self m a v = ground arith

pub load32-store32-Apart : (m : Ram) (a v b : ℕ) → Apart a b → load32 (store32 m a v) b ≡ load32 m b
unfolding load32
load32-store32-Apart m a v b h = ground (
  arith,
  store32-outside m a v b,
  store32-outside m a v (b + 1),
  store32-outside m a v (b + 2),
  store32-outside m a v (b + 3),
)

-- Words that are made of the same bytes.
pub load32-cong :
    (m m' : Ram) (a lo hi : ℕ)
    → ((b : ℕ) → lo ≤ b → b < hi → m' b ≡ m b)
    → lo ≤ a
    → a + 4 ≤ hi
    → load32 m' a ≡ load32 m a
unfolding load32
load32-cong m m' a lo hi same p q = omega (
  arith,
  same a (omega arith) (omega arith),
  same (a + 1) (omega arith) (omega arith),
  same (a + 2) (omega arith) (omega arith),
  same (a + 3) (omega arith) (omega arith),
)

-- A word of zeros.
pub load32-zero :
    (m : Ram) (a lo hi : ℕ)
    → ((b : ℕ) → lo ≤ b → b < hi → m b ≡ 0)
    → lo ≤ a
    → a + 4 ≤ hi
    → load32 m a ≡ 0
load32-zero m a lo hi zeros p q = load32-cong (λ b. 0) m a lo hi zeros p q ∙ unfold load32 in refl

-- A word of a part of memory.
pub load32-shift : (m : Ram) (base a : ℕ) → load32 (λ k. m (base + k)) a ≡ load32 m (base + a)
unfolding load32
load32-shift m base a = omega (arith, ap m (next 1), ap m (next 2), ap m (next 3))
  where
    next : (k : ℕ) → base + (a + k) ≡ base + a + k
    next k = omega arith
