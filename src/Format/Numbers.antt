-- ===== src/Format/Numbers.antt =====
-- The numbers that are formatted.
use lbos.Base.{
  ℕ, zero, suc, ◌+◌, ◌-◌, ◌/◌, ◌%◌, ◌^◌, ◌≤◌, ◌<◌, ◌≡◌, refl, ap, sym, ◌∙◌, Bool, true, false,
  Bool-cases, inl, inr, ◌⊎◌, ◌&&◌, arith, Option, some, [], ◌∷◌, ◌==◌, length, digit_of, next_digit,
  with_digit, with_digit_last, read_digits, read, sub32,
}
use mathlib.Core.Path.{subst}
use native.Mathlib.Nat.{pow-zero, div-lt_iff_lt-mul, pow-suc, mod-lt}
use lbos.Text.{Text}
use lbos.Serial.{is_negative}
use lbos.Format.{digit_char, digit_loop, number_to_string}

digit_of-digit_char : (d : ℕ) → d < 16 → digit_of (digit_char d) ≡ some d
digit_of-digit_char d h = ground arith

-- One digit behind the others.
next_digit-char :
    (base n : ℕ)
    → n % base < base
    → base ≤ 16
    → next_digit base (some (n / base)) (digit_char (n % base)) ≡ some n
next_digit-char base n lt small =
    ap (with_digit base (n / base)) (digit_of-digit_char (n % base) (omega arith))
    ∙ with_digit_last base n lt

read-digit_loop :
    (rounds base unum : ℕ) (num_buf : Text)
    → 1 < base
    → base ≤ 16
    → unum < base ^ rounds
    → read_digits base (some 0) (digit_loop rounds base unum num_buf)
      ≡ read_digits base (some unum) num_buf
unfolding digit_loop
read-digit_loop zero base unum num_buf big small lt =
    ap (λ (n : ℕ). read_digits base (some n) num_buf) (omega (arith, pow-zero base))
read-digit_loop (suc rounds) base unum num_buf big small lt = elim (Bool-cases (unum / base == 0)) [
  | inl done ↦ rw done (
      ap (λ (o : Option ℕ). read_digits base o num_buf)
        (ap (λ (q : ℕ). next_digit base (some q) (digit_char (unum % base))) (sym (all_done done))
          ∙ next_digit-char base unum (mod-lt unum (omega arith)) small))
  | inr more ↦ rw more (
      read-digit_loop rounds base (unum / base) (digit_char (unum % base) ∷ num_buf) big small (
        ((div-lt_iff_lt-mul {k = base} {x = unum} {y = base ^ rounds} (omega arith)).1)
          (subst (λ (p : ℕ). unum < p) (pow-suc base rounds) lt))
      ∙ ap (λ (o : Option ℕ). read_digits base o num_buf)
          (next_digit-char base unum (mod-lt unum (omega arith)) small))
]
  where
    all_done : (unum / base == 0) ≡ true → unum / base ≡ 0
    all_done e = ground arith

pub length-digit_loop :
    (rounds base unum : ℕ) (num_buf : Text)
    → (length num_buf < length (digit_loop (suc rounds) base unum num_buf))
      × (length (digit_loop (suc rounds) base unum num_buf) ≤ suc rounds + length num_buf)
unfolding digit_loop
length-digit_loop zero base unum num_buf = ground arith
length-digit_loop (suc rounds) base unum num_buf =
    let (more, bound) =
      length-digit_loop rounds base (unum / base) (digit_char (unum % base) ∷ num_buf) in
    ground arith

read_nonempty :
    (base n : ℕ) (t : Text)
    → 0 < length t
    → read_digits base (some 0) t ≡ some n
    → read base t ≡ some n
read_nonempty base n [] pos e = absurd (omega arith)
read_nonempty base n (c ∷ t) pos e = e

-- The numeral of a word.
numeral :
    (base unum : ℕ)
    → (base ≡ 10) ⊎ (base ≡ 16)
    → unum < 2 ^ 32
    → read base (digit_loop 10 base unum []) ≡ some unum
numeral base unum h lt =
    let (more, bound) = length-digit_loop 9 base unum [] in
    read_nonempty base unum (digit_loop 10 base unum []) (omega arith)
      (read-digit_loop 10 base unum [] (omega arith) (omega arith) (fits h))
  where
    fits : (base ≡ 10) ⊎ (base ≡ 16) → unum < base ^ 10
    fits (inl e) = rw e (omega arith)
    fits (inr e) = rw e (omega arith)

-- What a word is formatted to.
pub data Formats (num base : ℕ) (t : Text) : Type 0 where
  unsigned : (base ≡ 16) ⊎ (num < 2 ^ 31) → read base t ≡ some num → Formats num base t
  negative :
      (u : Text)
      → base ≡ 10
      → 2 ^ 31 ≤ num
      → t ≡ b'-' ∷ u
      → read 10 u ≡ some (2 ^ 32 - num)
      → Formats num base t

ten : (base : ℕ) → base ≡ 10 → (base == 10) ≡ true
ten base e = ground arith

not_ten : (base : ℕ) → base ≡ 16 → (base == 10) ≡ false
not_ten base e = ground arith

and_false : (b : Bool) → (b && false) ≡ false
and_false true = refl
and_false false = refl

-- A word is formatted as its numeral in the base 16, and in the base 10 as the numeral of its signed value, behind a
-- minus sign where this value is negative, and the least value is no exception.
pub number_to_string-Formats :
    (num base : ℕ)
    → (base ≡ 10) ⊎ (base ≡ 16)
    → num < 2 ^ 32
    → Formats num base (number_to_string num base)
unfolding number_to_string
number_to_string-Formats num base (inr e) lt =
    rw (not_ten base e, and_false (is_negative num))
      (unsigned (inl e) (numeral base num (inr e) lt))
number_to_string-Formats num base (inl e) lt = elim (Bool-cases (is_negative num)) [
  | inl neg ↦
      rw (neg, ten base e)
        (negative (digit_loop 10 base (sub32 0 num) []) e (ground arith) refl (
          subst (λ (b : ℕ). read b (digit_loop 10 base (sub32 0 num) []) ≡ some (2 ^ 32 - num)) e
            (numeral base (sub32 0 num) (inl e) (omega arith) ∙ ap some (wrapped (ground arith)))))
  | inr pos ↦ rw (pos) (unsigned (inr (ground arith)) (numeral base num (inl e) lt))
]
  where
    wrapped : 0 < num → sub32 0 num ≡ 2 ^ 32 - num
    wrapped h = omega arith
