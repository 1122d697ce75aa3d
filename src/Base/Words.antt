-- ===== src/Base/Words.antt =====
-- 32-bit words: wrapping arithmetic, shifts and casts.
use Prim.Native.Nat.{ℕ, ◌+◌, ◌-◌, ◌*◌, ◌/◌, ◌%◌, ◌^◌, ◌<◌, bit_and, bit_or}
use mathlib.Core.Path.{◌≡◌, ◌∙◌}
use native.Mathlib.Omega.{arith}
use lbos.Base.Bits.{bit_and-shifted, bit_and-low, bit_or-fields}

abbrev pub u8 : ℕ → ℕ
u8 n = n % 2 ^ 8

abbrev pub u16 : ℕ → ℕ
u16 n = n % 2 ^ 16

abbrev pub u32 : ℕ → ℕ
u32 n = n % 2 ^ 32

-- `uint32_t` addition and subtraction.
abbrev pub add32 : ℕ → ℕ → ℕ
add32 a b = u32 (a + b)

abbrev pub sub32 : ℕ → ℕ → ℕ
sub32 a b = u32 (a + 2 ^ 32 - b)

abbrev pub mul32 : ℕ → ℕ → ℕ
mul32 a b = u32 (a * b)

-- `~m` of a `uint32_t`, and the shifts.
abbrev pub not32 : ℕ → ℕ
not32 m = 2 ^ 32 - 1 - m

infixl 75 ◌<<<◌ ◌>>>◌
abbrev pub ◌<<<◌ : ℕ → ℕ → ℕ
x <<< k = u32 (x * 2 ^ k)

abbrev pub ◌>>>◌ : ℕ → ℕ → ℕ
x >>> k = x / 2 ^ k

-- `x & ~0xFFF`, `x & 0xFFF` and `page | flags`.
pub bit_and-page : (x : ℕ) → x < 2 ^ 32 → bit_and x (not32 0xfff) ≡ x / 4096 * 4096
bit_and-page x h = bit_and-shifted 12 x 0xfffff ∙ omega (arith, bit_and-low 20 (x / 4096))

pub bit_and-offset : (x : ℕ) → bit_and x 0xfff ≡ x % 4096
bit_and-offset x = bit_and-low 12 x

pub bit_or-page : (q r : ℕ) → r < 4096 → bit_or (q * 4096) r ≡ q * 4096 + r
bit_or-page q r h = bit_or-fields 12 q r h
