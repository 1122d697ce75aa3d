-- ===== src/Serial/Digits.antt =====
-- The numbers that the line writes.
use lbos.Base.{
  ℕ, zero, suc, ◌+◌, ◌-◌, ◌/◌, ◌%◌, ◌^◌, ◌≤◌, ◌<◌, ◌≡◌, refl, ap, sym, ◌∙◌, false, Bool-cases, inl,
  inr, arith, Option, some, [], ◌∷◌, ◌++◌, ◌==◌, length, digit_of, next_digit, with_digit,
  with_digit_last, digit_of-decimal, read_positive, read_digits, read, read_digits-snoc,
  length-reverse, bit_and-low, bit_and, length-append, sub32,
}
use mathlib.Core.List.{reverse, reverse-cons, reverse-append}
use mathlib.Core.Path.{subst}
use native.Mathlib.Nat.{pow-suc}
use native.Mathlib.Decide.{ℕ_discrete}
use lbos.Text.{Text}
use lbos.Serial.Swap.{swap_loop-reverse}
use lbos.Serial.{
  hex_char, hex_loop, num_to_hex, decimal_loop, is_negative, reversed_decimal, num_to_decimal,
}

digit_of-hex_char : (d : ℕ) → d < 16 → digit_of (hex_char d) ≡ some d
digit_of-hex_char d h = ground arith

read-hex_loop :
    (i num : ℕ) (buf : Text)
    → num < 16 ^ i
    → read_digits 16 (some 0) (hex_loop i num buf) ≡ read_digits 16 (some num) buf
read-hex_loop zero num buf h = ap (λ (n : ℕ). read_digits 16 (some n) buf) (omega arith)
read-hex_loop (suc i) num buf h =
    ap (λ (d : ℕ). read_digits 16 (some 0) (hex_loop i (num / 16) (hex_char d ∷ buf)))
      (bit_and-low 4 num)
    ∙ read-hex_loop i (num / 16) (hex_char (num % 16) ∷ buf) (omega (arith, pow-suc 16 i))
    ∙ ap (λ (o : Option ℕ). read_digits 16 (with_digit 16 (num / 16) o) buf)
        (digit_of-hex_char (num % 16) (omega arith))
    ∙ ap (λ (o : Option ℕ). read_digits 16 o buf) (with_digit_last 16 num (omega arith))

decimal_loop-read :
    (rounds num : ℕ)
    → num < 10 ^ rounds
    → read_digits 10 (some 0) (reverse (decimal_loop rounds num)) ≡ some num
unfolding decimal_loop
decimal_loop-read zero num h = ap some (omega arith)
decimal_loop-read (suc rounds) num h = elim (ℕ_discrete num 0) [
  | yes e ↦ rw e refl
  | no ne ↦ rw (not_zero ne) (
      ap (read_digits 10 (some 0)) (reverse-cons (b'0' + num % 10) (decimal_loop rounds (num / 10)))
      ∙ read_digits-snoc 10 (some 0) (reverse (decimal_loop rounds (num / 10))) (b'0' + num % 10)
      ∙ ap (λ (o : Option ℕ). next_digit 10 o (b'0' + num % 10))
          (decimal_loop-read rounds (num / 10) (omega (arith, pow-suc 10 rounds)))
      ∙ ap (with_digit 10 (num / 10)) (digit_of-decimal (num % 10) (omega arith))
      ∙ with_digit_last 10 num (omega arith))
]
  where
    not_zero : ¬ (num ≡ 0) → (num == 0) ≡ false
    not_zero ne = ground arith

-- The text of a signed word.
pub data Spells (num : ℕ) (t : Text) : Type 0 where
  natural : num < 2 ^ 31 → read 10 t ≡ some num → Spells num t
  negative :
      (u : Text) → 2 ^ 31 < num → t ≡ b'-' ∷ u → read 10 u ≡ some (2 ^ 32 - num) → Spells num t
  least : num ≡ 2 ^ 31 → t ≡ b'-' ∷ [] → Spells num t

num_to_decimal-reverse : (num : ℕ) → num_to_decimal num ≡ reverse (reversed_decimal num)
unfolding num_to_decimal
num_to_decimal-reverse num = swap_loop-reverse (reversed_decimal num)

read-decimal_loop :
    (num : ℕ) → 0 < num → num < 2 ^ 31 → read 10 (reverse (decimal_loop 10 num)) ≡ some num
read-decimal_loop num pos lt =
    read_positive 10 num (reverse (decimal_loop 10 num)) pos
      (decimal_loop-read 10 num (omega arith))

-- The buffer of a signed word before it is turned round.
data Reversed (num : ℕ) (buf : Text) : Type 0 where
  nothing : num ≡ 0 → buf ≡ b'0' ∷ [] → Reversed num buf
  natural : 0 < num → num < 2 ^ 31 → buf ≡ decimal_loop 10 num → Reversed num buf
  least : num ≡ 2 ^ 31 → buf ≡ b'-' ∷ [] → Reversed num buf
  negative :
      2 ^ 31 < num
      → num < 2 ^ 32
      → buf ≡ decimal_loop 10 (2 ^ 32 - num) ++ b'-' ∷ []
      → Reversed num buf

reversed_decimal-Reversed : (num : ℕ) → num < 2 ^ 32 → Reversed num (reversed_decimal num)
reversed_decimal-Reversed num lt = elim (Bool-cases (is_negative num)) [
  | inl neg ↦ elim (ℕ_discrete num (2 ^ 31)) [
    | yes e ↦ least e (rw e refl)
    | no ne ↦
        let lo : 2 ^ 31 < num = ground arith in
        negative lo lt (rw (neg, wrapped (omega arith), below lo, positive lt) refl)
  ]
  | inr pos ↦ elim (ℕ_discrete num 0) [
    | yes e ↦ nothing e (rw e refl)
    | no ne ↦ natural (omega arith) (ground arith) (rw (pos, not_zero ne) (rw pos refl))
  ]
]
  where
    wrapped : 0 < num → sub32 0 num ≡ 2 ^ 32 - num
    wrapped h = omega arith

    below : 2 ^ 31 < num → is_negative (2 ^ 32 - num) ≡ false
    below h = ground arith

    positive : num < 2 ^ 32 → (2 ^ 32 - num == 0) ≡ false
    positive h = ground arith

    not_zero : ¬ (num ≡ 0) → (num == 0) ≡ false
    not_zero ne = ground arith

Spells-Reversed : (num : ℕ) (buf : Text) → Reversed num buf → Spells num (reverse buf)
Spells-Reversed num buf (nothing e b) = natural (omega arith) (rw b (ap some (sym e)))
Spells-Reversed num buf (natural lo hi b) = natural hi (rw b (read-decimal_loop num lo hi))
Spells-Reversed num buf (least e b) = least e (rw b refl)
Spells-Reversed num buf (negative lo hi b) =
    negative (reverse (decimal_loop 10 (2 ^ 32 - num))) lo
      (rw b (reverse-append (decimal_loop 10 (2 ^ 32 - num)) (b'-' ∷ [])))
      (read-decimal_loop (2 ^ 32 - num) (omega arith) (omega arith))

-- The text of a signed word is the decimal numeral of its value, after a minus sign where the value is negative.
-- Of the least value, whose negation wraps around, only the minus sign is written.
pub num_to_decimal-Spells : (num : ℕ) → num < 2 ^ 32 → Spells num (num_to_decimal num)
num_to_decimal-Spells num lt =
    subst (Spells num) (sym (num_to_decimal-reverse num))
      (Spells-Reversed num (reversed_decimal num) (reversed_decimal-Reversed num lt))

length-decimal_loop : (rounds num : ℕ) → length (decimal_loop rounds num) ≤ rounds
unfolding decimal_loop
length-decimal_loop zero num = omega arith
length-decimal_loop (suc rounds) num = ground (arith, length-decimal_loop rounds (num / 10))

length-Reversed : (num : ℕ) (buf : Text) → Reversed num buf → length buf ≤ 11
length-Reversed num buf (nothing e b) = rw b (omega arith)
length-Reversed num buf (natural lo hi b) = rw b (omega (arith, length-decimal_loop 10 num))
length-Reversed num buf (least e b) = rw b (omega arith)
length-Reversed num buf (negative lo hi b) = rw b (
    omega (
      arith,
      length-append (decimal_loop 10 (2 ^ 32 - num)) (b'-' ∷ []),
      length-decimal_loop 10 (2 ^ 32 - num),
    ))

-- The text of a signed word and its terminator fit into the 12 bytes that `serial_write_decimal` sets aside.
pub length-num_to_decimal : (num : ℕ) → num < 2 ^ 32 → length (num_to_decimal num) + 1 ≤ 12
length-num_to_decimal num lt = rw (num_to_decimal-reverse num) (
    omega (
      arith,
      length-reverse (reversed_decimal num),
      length-Reversed num (reversed_decimal num) (reversed_decimal-Reversed num lt),
    ))

length-hex_loop : (i num : ℕ) (buf : Text) → length (hex_loop i num buf) ≡ i + length buf
length-hex_loop zero num buf = omega arith
length-hex_loop (suc i) num buf =
    omega (arith, length-hex_loop i (num / 2 ^ 4) (hex_char (bit_and num 15) ∷ buf))

pub length-num_to_hex : (num : ℕ) → length (num_to_hex num) ≡ 8
unfolding num_to_hex
length-num_to_hex num = length-hex_loop 8 num []

-- The text of a word is its hexadecimal numeral, of eight digits.
pub num_to_hex-read :
    (num : ℕ)
    → num < 2 ^ 32
    → (read_digits 16 (some 0) (num_to_hex num) ≡ some num) × (length (num_to_hex num) ≡ 8)
unfolding num_to_hex
num_to_hex-read num lt = (read-hex_loop 8 num [] (omega arith), length-num_to_hex num)
