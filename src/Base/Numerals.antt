-- ===== src/Base/Numerals.antt =====
-- Numerals as texts: what a numeral says in a base up to sixteen.
use Prim.Native.Nat.{ℕ, ◌+◌, ◌-◌, ◌*◌, ◌/◌, ◌%◌, ◌<◌}
use mathlib.Core.Path.{◌≡◌, refl, ap}
use mathlib.Core.Bool.{◌&&◌}
use mathlib.Core.Option.{Option, none, some, some-injective}
use mathlib.Core.List.{List, [], ◌∷◌, ◌++◌}
use native.Mathlib.Nat.{div-add-mod'}
use native.Mathlib.Omega.{arith}
use lbos.Base.Tests.{leb, ltb, lt→ltb, if◌then◌else◌}

abbrev pub digit_of : ℕ → Option ℕ
digit_of c =
    if leb b'0' c && leb c b'9'
    then some (c - b'0')
    else if leb b'A' c && leb c b'F'
    then some (c - b'A' + 10)
    else if leb b'a' c && leb c b'f'
    then some (c - b'a' + 10)
    else none

-- A value with one more digit.
abbrev pub with_digit : (base n : ℕ) → Option ℕ → Option ℕ
with_digit base n none = none
with_digit base n (some d) = if ltb d base then some (n * base + d) else none

abbrev pub next_digit : ℕ → Option ℕ → ℕ → Option ℕ
next_digit base none c = none
next_digit base (some n) c = with_digit base n (digit_of c)

-- The value of a numeral behind the value read so far; none where a character is not a digit of the base.
abbrev pub read_digits : ℕ → Option ℕ → List ℕ → Option ℕ
read_digits base o [] = o
read_digits base o (c ∷ t) = read_digits base (next_digit base o c) t

-- A text of digits, at least one.
abbrev pub read : ℕ → List ℕ → Option ℕ
read base [] = none
read base (c ∷ t) = read_digits base (some 0) (c ∷ t)

pub read_digits-snoc :
    (base : ℕ) (o : Option ℕ) (s : List ℕ) (c : ℕ)
    → read_digits base o (s ++ c ∷ []) ≡ next_digit base (read_digits base o s) c
read_digits-snoc base o [] c = refl
read_digits-snoc base o (d ∷ s) c = read_digits-snoc base (next_digit base o d) s c

pub with_digit_last :
    (base n : ℕ) → n % base < base → with_digit base (n / base) (some (n % base)) ≡ some n
with_digit_last base n h = rw (lt→ltb (n % base) base h) (ap some (div-add-mod' n base))

pub digit_of-decimal : (d : ℕ) → d < 10 → digit_of (b'0' + d) ≡ some d
digit_of-decimal d h = ground arith

pub read_positive :
    (base n : ℕ) (t : List ℕ) → 0 < n → read_digits base (some 0) t ≡ some n → read base t ≡ some n
read_positive base n [] h e = absurd (omega (arith, some-injective 0 n e))
read_positive base n (c ∷ t) h e = e
