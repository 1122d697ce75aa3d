-- ===== src/Base/Bits.antt =====
-- The bits of a word: `bit w k` is bit `k` of `w` as 0 or 1, and `&` and `|` act bit by bit.
use Prim.Native.Nat.{
  ℕ, zero, suc, ◌+◌, ◌-◌, ◌*◌, ◌/◌, ◌%◌, ◌^◌, ◌≤◌, ◌<◌, min, max, bit_and, bit_or, digits,
  bit_and-bitwise, bit_or-bitwise,
}
use mathlib.Core.Path.{◌≡◌, refl, sym, ap, ◌∙◌}
use native.Mathlib.Omega.{arith}
use native.Mathlib.Nat.{pow-suc, one-le-pow, div-add-mod, div-div-eq-div-mul}
use lbos.Base.Tests.{◌==◌, if◌then◌else◌}

-- A native operation is `digits` on as much fuel as its first argument; more fuel changes nothing.
module _ (base : ℕ → ℕ) (op : ℕ → ℕ → ℕ) where
  digits-fuel : (n m a b : ℕ) → a ≤ n → a ≤ m → digits base op n a b ≡ digits base op m a b
  digits-fuel zero zero a b p q = refl
  digits-fuel zero (suc m) zero b p q = refl
  digits-fuel zero (suc m) (suc a) b p q = absurd (omega arith)
  digits-fuel (suc n) zero zero b p q = refl
  digits-fuel (suc n) zero (suc a) b p q = absurd (omega arith)
  digits-fuel (suc n) (suc m) zero b p q = refl
  digits-fuel (suc n) (suc m) (suc a) b p q =
      omega (arith, digits-fuel n m (suc a / 2) (b / 2) (omega arith) (omega arith))

  digits-suc :
      (a b : ℕ)
      → digits base op (suc a) (suc a) b
        ≡ digits base op (suc a / 2) (suc a / 2) (b / 2) * 2 + op (suc a % 2) (b % 2)
  digits-suc a b =
      omega (arith, digits-fuel a (suc a / 2) (suc a / 2) (b / 2) (omega arith) (omega arith))

pub bit_and_step : (a b : ℕ) → bit_and a b ≡ bit_and (a / 2) (b / 2) * 2 + min (a % 2) (b % 2)
bit_and_step zero b = omega (arith, bit_and-bitwise 0 b, bit_and-bitwise 0 (b / 2))
bit_and_step (suc a) b = omega (
  arith,
  bit_and-bitwise (suc a) b,
  bit_and-bitwise (suc a / 2) (b / 2),
  digits-suc (λ y. zero) min a b,
)

pub bit_or_step : (a b : ℕ) → bit_or a b ≡ bit_or (a / 2) (b / 2) * 2 + max (a % 2) (b % 2)
bit_or_step zero b = omega (arith, bit_or-bitwise 0 b, bit_or-bitwise 0 (b / 2))
bit_or_step (suc a) b = omega (
  arith,
  bit_or-bitwise (suc a) b,
  bit_or-bitwise (suc a / 2) (b / 2),
  digits-suc (λ y. y) max a b,
)

unfoldable pub bit : ℕ → ℕ → ℕ
bit w zero = w % 2
bit w (suc k) = bit (w / 2) k

pub bit-le : (w k : ℕ) → bit w k ≤ 1
unfolding bit
bit-le w zero = omega arith
bit-le w (suc k) = bit-le (w / 2) k

pub bit-bit_and : (x y k : ℕ) → bit (bit_and x y) k ≡ min (bit x k) (bit y k)
unfolding bit
bit-bit_and x y zero = omega (arith, bit_and_step x y)
bit-bit_and x y (suc k) =
    let e : bit_and x y / 2 ≡ bit_and (x / 2) (y / 2) = omega (arith, bit_and_step x y) in
    rw e (bit-bit_and (x / 2) (y / 2) k)

pub bit-bit_or : (x y k : ℕ) → bit (bit_or x y) k ≡ max (bit x k) (bit y k)
unfolding bit
bit-bit_or x y zero = omega (arith, bit_or_step x y)
bit-bit_or x y (suc k) =
    let e : bit_or x y / 2 ≡ bit_or (x / 2) (y / 2) = omega (arith, bit_or_step x y) in
    rw e (bit-bit_or (x / 2) (y / 2) k)

pub bit-zero : (k : ℕ) → bit 0 k ≡ 0
unfolding bit
bit-zero zero = refl
bit-zero (suc k) = bit-zero k

pub bit-two-pow : (b k : ℕ) → bit (2 ^ b) k ≡ (if b == k then 1 else 0)
unfolding bit
bit-two-pow zero zero = refl
bit-two-pow zero (suc k) = ground (arith, bit-zero k)
bit-two-pow (suc b) zero = ground (arith, pow-suc 2 b)
bit-two-pow (suc b) (suc k) =
    let e : 2 ^ suc b / 2 ≡ 2 ^ b = omega (arith, pow-suc 2 b) in
    rw e (ground (arith, bit-two-pow b k))

bit-ones : (n k : ℕ) → k < n → bit (2 ^ n - 1) k ≡ 1
unfolding bit
bit-ones zero k q = absurd (omega arith)
bit-ones (suc n) zero q = omega (arith, pow-suc 2 n, one-le-pow n 2 (omega arith))
bit-ones (suc n) (suc k) q =
    let e : (2 ^ suc n - 1) / 2 ≡ 2 ^ n - 1 =
      omega (arith, pow-suc 2 n, one-le-pow n 2 (omega arith)) in
    rw e (bit-ones n k (omega arith))

pub two-pow-lt : (b n : ℕ) → b < n → 2 ^ b < 2 ^ n
two-pow-lt b zero p = absurd (omega arith)
two-pow-lt zero (suc n) p = omega (arith, pow-suc 2 n, one-le-pow n 2 (omega arith))
two-pow-lt (suc b) (suc n) p = omega (arith, pow-suc 2 n, pow-suc 2 b, two-pow-lt b n (omega arith))

-- The complement of `2 ^ b` among `n` bits has every bit below `n` but bit `b`.
pub bit-not-two-pow :
    (n b k : ℕ) → b < n → k < n → bit (2 ^ n - 1 - 2 ^ b) k ≡ (if b == k then 0 else 1)
unfolding bit
bit-not-two-pow zero b k p q = absurd (omega arith)
bit-not-two-pow (suc n) zero zero p q = ground (arith, pow-suc 2 n, one-le-pow n 2 (omega arith))
bit-not-two-pow (suc n) zero (suc k) p q =
    let e : (2 ^ suc n - 1 - 1) / 2 ≡ 2 ^ n - 1 =
      omega (arith, pow-suc 2 n, one-le-pow n 2 (omega arith)) in
    rw e (ground (arith, bit-ones n k (omega arith)))
bit-not-two-pow (suc n) (suc b) zero p q =
    ground (arith, pow-suc 2 n, pow-suc 2 b, two-pow-lt b n (omega arith))
bit-not-two-pow (suc n) (suc b) (suc k) p q =
    let e : (2 ^ suc n - 1 - 2 ^ suc b) / 2 ≡ 2 ^ n - 1 - 2 ^ b =
      omega (arith, pow-suc 2 n, pow-suc 2 b, two-pow-lt b n (omega arith)) in
    rw e (ground (arith, bit-not-two-pow n b k (omega arith) (omega arith)))

-- `x & 0` and `x | 0`, by induction on a bound of `x`.
bit_and-zero_below : (n x : ℕ) → x ≤ n → bit_and x 0 ≡ 0
bit_and-zero_below n zero h = refl
bit_and-zero_below zero (suc x) h = absurd (omega arith)
bit_and-zero_below (suc n) (suc x) h =
    omega (arith, bit_and_step (suc x) 0, bit_and-zero_below n (suc x / 2) (omega arith))

bit_or-zero_below : (n x : ℕ) → x ≤ n → bit_or x 0 ≡ x
bit_or-zero_below n zero h = refl
bit_or-zero_below zero (suc x) h = absurd (omega arith)
bit_or-zero_below (suc n) (suc x) h =
    omega (arith, bit_or_step (suc x) 0, bit_or-zero_below n (suc x / 2) (omega arith))

pub bit_and-zero : (x : ℕ) → bit_and x 0 ≡ 0
bit_and-zero x = bit_and-zero_below x x (omega arith)

pub bit_or-zero : (x : ℕ) → bit_or x 0 ≡ x
bit_or-zero x = bit_or-zero_below x x (omega arith)

two-pow-suc : (k : ℕ) → 2 ^ suc k ≡ 2 * 2 ^ k
two-pow-suc k = omega (arith, pow-suc 2 k)

div-two-pow-suc : (x k : ℕ) → x / 2 ^ suc k ≡ x / 2 / 2 ^ k
div-two-pow-suc x k = rw two-pow-suc (sym (div-div-eq-div-mul x 2 (2 ^ k)))

mod-two-pow-suc : (x k : ℕ) → x % 2 ^ suc k ≡ x / 2 % 2 ^ k * 2 + x % 2
mod-two-pow-suc x k = omega (
  arith,
  div-add-mod x (2 ^ suc k),
  div-add-mod (x / 2) (2 ^ k),
  ap (λ (t : ℕ). 2 ^ suc k * t) (div-two-pow-suc x k),
  ap (λ (t : ℕ). t * (x / 2 / 2 ^ k)) (two-pow-suc k),
)

mul-two-pow-suc : (q k : ℕ) → q * 2 ^ suc k ≡ q * 2 ^ k * 2
mul-two-pow-suc q k = omega (arith, ap (λ (t : ℕ). q * t) (two-pow-suc k))

halved : (k : ℕ) → (2 ^ suc k - 1) / 2 ≡ 2 ^ k - 1
halved k = omega (arith, two-pow-suc k, one-le-pow k 2 (omega arith))

-- A mask of `k` low ones is the remainder by `2 ^ k`.
pub bit_and-low : (k x : ℕ) → bit_and x (2 ^ k - 1) ≡ x % 2 ^ k
bit_and-low zero x = ground (arith, bit_and-zero x)
bit_and-low (suc k) x = omega (
  arith,
  bit_and_step x (2 ^ suc k - 1),
  mod-two-pow-suc x k,
  two-pow-suc k,
  one-le-pow k 2 (omega arith),
  bit_and-low k (x / 2),
  ap (bit_and (x / 2)) (halved k),
)

halved_mul : (m k : ℕ) → m * 2 ^ suc k / 2 ≡ m * 2 ^ k
halved_mul m k = omega (arith, mul-two-pow-suc m k)

-- `x & (m << k)` acts on `x >> k`.
pub bit_and-shifted : (k x m : ℕ) → bit_and x (m * 2 ^ k) ≡ bit_and (x / 2 ^ k) m * 2 ^ k
bit_and-shifted zero x m = ground arith
bit_and-shifted (suc k) x m = omega (
  arith,
  bit_and_step x (m * 2 ^ suc k),
  mul-two-pow-suc m k,
  mul-two-pow-suc (bit_and (x / 2 ^ suc k) m) k,
  bit_and-shifted k (x / 2) m,
  ap (bit_and (x / 2)) (halved_mul m k),
  ap (λ (t : ℕ). bit_and t m * 2 ^ k) (div-two-pow-suc x k),
)

-- `|` of fields that do not overlap is their sum.
pub bit_or-fields : (k q r : ℕ) → r < 2 ^ k → bit_or (q * 2 ^ k) r ≡ q * 2 ^ k + r
bit_or-fields zero q r h = ground (arith, bit_or-zero q)
bit_or-fields (suc k) q r h = omega (
  arith,
  bit_or_step (q * 2 ^ suc k) r,
  mul-two-pow-suc q k,
  two-pow-suc k,
  bit_or-fields k q (r / 2) (omega (arith, two-pow-suc k)),
  ap (λ (t : ℕ). bit_or t (r / 2)) (halved_mul q k),
)

pub bit_lem : (k w : ℕ) → bit w k ≡ w / 2 ^ k % 2
unfolding bit
bit_lem zero w = omega arith
bit_lem (suc k) w = omega (arith, bit_lem k (w / 2), div-two-pow-suc w k)

pub bit_and-two-pow : (k w : ℕ) → bit_and w (2 ^ k) ≡ bit w k * 2 ^ k
bit_and-two-pow k w =
    let e : 2 ^ k ≡ 1 * 2 ^ k = omega arith in
    let one : bit_and (w / 2 ^ k) 1 ≡ bit w k = bit_and-low 1 (w / 2 ^ k) ∙ sym (bit_lem k w) in
    ap (bit_and w) e ∙ bit_and-shifted k w 1 ∙ ap (λ (t : ℕ). t * 2 ^ k) one

-- Casting to `n` bits keeps the bits below `n`.
pub bit-mod : (n w k : ℕ) → k < n → bit (w % 2 ^ n) k ≡ bit w k
unfolding bit
bit-mod zero w k h = absurd (omega arith)
bit-mod (suc n) w zero h = omega (arith, mod-two-pow-suc w n)
bit-mod (suc n) w (suc k) h =
    let e : w % 2 ^ suc n / 2 ≡ w / 2 % 2 ^ n = omega (arith, mod-two-pow-suc w n) in
    rw e (bit-mod n (w / 2) k (omega arith))

bit_or-swapped_below : (n a b : ℕ) → a ≤ n → b ≤ n → bit_or a b ≡ bit_or b a
bit_or-swapped_below zero zero zero h h' = refl
bit_or-swapped_below zero zero (suc b) h h' = absurd (omega arith)
bit_or-swapped_below zero (suc a) b h h' = absurd (omega arith)
bit_or-swapped_below (suc n) a b h h' = omega (
  arith,
  bit_or_step a b,
  bit_or_step b a,
  bit_or-swapped_below n (a / 2) (b / 2) (omega arith) (omega arith),
)

pub bit_or_comm : (a b : ℕ) → bit_or a b ≡ bit_or b a
bit_or_comm a b = bit_or-swapped_below (a + b) a b (omega arith) (omega arith)
