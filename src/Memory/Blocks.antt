-- ===== src/Memory/Blocks.antt =====
-- What `memset` and `memcpy` leave in memory.
use lbos.Base.{ℕ, zero, suc, ◌+◌, ◌-◌, ◌≤◌, ◌<◌, ◌≡◌, ◌⊎◌, arith, ltb, leb, ◌&&◌, if◌then◌else◌, u8}
use lbos.Memory.{Ram, write8, load32, memset, memcpy}

-- `memset` writes its value to the block and nothing else.
pub memset_lem :
    (m : Ram) (p v n b : ℕ) → memset m p v n b ≡ (if leb p b && ltb b (p + n) then u8 v else m b)
unfolding memset write8
memset_lem m p v zero b = ground arith
memset_lem m p v (suc n) b = ground (arith, memset_lem (write8 m p v) (p + 1) v n b)

pub memset-outside : (m : Ram) (p v n b : ℕ) → (b < p) ⊎ (p + n ≤ b) → memset m p v n b ≡ m b
memset-outside m p v n b h = ground (arith, memset_lem m p v n b)

pub load32-memset_zero :
    (m : Ram) (p n a : ℕ) → p ≤ a → a + 4 ≤ p + n → load32 (memset m p 0 n) a ≡ 0
unfolding load32
load32-memset_zero m p n a h k = ground (
  arith,
  memset_lem m p 0 n a,
  memset_lem m p 0 n (a + 1),
  memset_lem m p 0 n (a + 2),
  memset_lem m p 0 n (a + 3),
)

pub load32-memset_apart :
    (m : Ram) (p n a : ℕ) → (a + 4 ≤ p) ⊎ (p + n ≤ a) → load32 (memset m p 0 n) a ≡ load32 m a
unfolding load32
load32-memset_apart m p n a h = ground (
  arith,
  memset-outside m p 0 n a,
  memset-outside m p 0 n (a + 1),
  memset-outside m p 0 n (a + 2),
  memset-outside m p 0 n (a + 3),
)

-- Every cell holds a byte.
abbrev pub IsBytes : Ram → Type 0
IsBytes m = (b : ℕ) → m b < 256

-- Blocks that do not overlap: the target becomes a copy of the source.
pub memcpy_lem :
    (m : Ram) (d s n b : ℕ)
    → (d + n ≤ s) ⊎ (s + n ≤ d)
    → memcpy m d s n b ≡ (if leb d b && ltb b (d + n) then u8 (m (s + (b - d))) else m b)
unfolding memcpy write8
memcpy_lem m d s zero b h = ground arith
memcpy_lem m d s (suc n) b h = ground (arith, memcpy_lem (write8 m d (m s)) (d + 1) (s + 1) n b)
