-- ===== src/Memory/Strings.antt =====
-- Strings in memory: their length, and their copies.
use lbos.Base.{
  ℕ, zero, suc, ◌+◌, ◌-◌, ◌≤◌, ◌<◌, ◌≡◌, refl, ap, ◌∙◌, ◌⊎◌, inl, inr, true, false, Bool-cases,
  some, arith, ltb, leb, ◌==◌, ◌&&◌, if◌then◌else◌,
}
use native.Mathlib.Decide.{ℕ_discrete}
use lbos.Memory.{Ram, write8, strlen, strcpy, strncpy}
use lbos.Memory.Blocks.{memset_lem}

-- At `a` stand `n` characters and a terminator.
pub record IsString (m : Ram) (a n : ℕ) : Type 0 where
  pub chars : (i : ℕ) → i < n → (0 < m (a + i)) × (m (a + i) < 256)
  pub terminator : m (a + n) ≡ 0

-- `strlen` counts the characters before the terminator, in one round for each and one for the terminator.
pub strlen-from :
    (rounds : ℕ) (m : Ram) (str len n : ℕ)
    → IsString m str n
    → len ≤ n
    → n < len + rounds
    → strlen rounds m str len ≡ some n
unfolding strlen
strlen-from zero m str len n h le lt = absurd (omega arith)
strlen-from (suc rounds) m str len n h le lt = elim (ℕ_discrete len n) [
  | yes e ↦ rw (ap (λ (k : ℕ). m (str + k)) e ∙ h.terminator) (ap some e)
  | no ne ↦ rw (not_zero ne) (strlen-from rounds m str (len + 1) n h (omega arith) (omega arith))
]
  where
    not_zero : ¬ (len ≡ n) → (m (str + len) == 0) ≡ false
    not_zero ne = let (pos, byte) = h.chars len (omega arith) in ground arith

-- The memory after a copy of `n` characters and what follows.
abbrev pub copied : Ram → (d s n b : ℕ) → ℕ
copied m d s n b = if leb d b && ltb b (d + n) then m (s + (b - d)) else m b

start : (s : ℕ) → s + 0 ≡ s
start s = omega arith

next-IsString :
    (m : Ram) (d s n v : ℕ)
    → IsString m s (suc n)
    → (d ≤ s) ⊎ (s + suc n < d)
    → IsString (write8 m d v) (s + 1) n
unfolding write8
next-IsString m d s n v h apart = record {
  chars = λ i lt.
      let (pos, byte) = h.chars (suc i) (omega arith) in
      (ground (arith, at i), ground (arith, at i));
  terminator = ground (arith, at n, h.terminator);
}
  where
    at : (i : ℕ) → m (s + 1 + i) ≡ m (s + suc i)
    at i = ap m (omega arith)

-- One character, and then the copy of the rest.
copied-step :
    (m : Ram) (d s n b : ℕ)
    → m s < 256
    → (d + n < s) ⊎ (s + n < d)
    → copied (write8 m d (m s)) (d + 1) (s + 1) n b ≡ copied m d s (suc n) b
unfolding write8
copied-step m d s n b byte apart = elim (ℕ_discrete b d) [
  | yes e ↦ ground (arith, ap m (here e))
  | no ne ↦ elim (Bool-cases (ltb b d)) [
    | inl below ↦ ground arith
    | inr above ↦ ground (arith, ap m (there (ground arith)))
  ]
]
  where
    here : b ≡ d → s + (b - d) ≡ s
    here e = omega arith

    there : d < b → s + 1 + (b - (d + 1)) ≡ s + (b - d)
    there lt = omega arith

-- `strcpy` of a string of `n` characters, to a place that it does not overlap, ends after `n + 1` rounds: the characters and
-- the terminator are copied, and all other memory is as it was.
pub strcpy-copied :
    (rounds : ℕ) (m : Ram) (d s n : ℕ)
    → IsString m s n
    → n < rounds
    → (d + n < s) ⊎ (s + n < d)
    → (r : Ram) × (strcpy rounds m d s ≡ some r) × ((b : ℕ) → r b ≡ copied m d s (suc n) b)
unfolding strcpy write8
strcpy-copied zero m d s n h lt apart = absurd (omega arith)
strcpy-copied (suc rounds) m d s zero h lt apart = (
  write8 m d (m s),
  rw (ends_here) refl,
  λ b. ground arith ∙ copied-step m d s 0 b byte (omega arith),
)
  where
    byte : m s < 256
    byte = ground (arith, h.terminator, ap m (start s))

    ends_here : (write8 m d (m s) d == 0) ≡ true
    ends_here = ground (arith, h.terminator, ap m (start s))
strcpy-copied (suc rounds) m d s (suc n) h lt apart =
    let (r, e, same) =
      strcpy-copied rounds (write8 m d (m s)) (d + 1) (s + 1) n
        (next-IsString m d s n (m s) h (omega arith)) (omega arith) (omega arith) in
    (r, rw goes_on e, λ b. same b ∙ copied-step m d s (suc n) b byte (omega arith))
  where
    byte : m s < 256
    byte = let (pos, lt') = h.chars 0 (omega arith) in ground (arith, ap m (start s))

    goes_on : (write8 m d (m s) d == 0) ≡ false
    goes_on = let (pos, lt') = h.chars 0 (omega arith) in ground (arith, ap m (start s))

-- The memory after `count` bytes of which the first `n` are copied and the others are 0.
abbrev pub padded : Ram → (d s count n b : ℕ) → ℕ
padded m d s count n b =
    if leb d b && ltb b (d + count) then (if ltb (b - d) n then m (s + (b - d)) else 0) else m b

padded-step :
    (m : Ram) (d s count n b : ℕ)
    → m s < 256
    → (d + suc count ≤ s) ⊎ (s + suc n < d)
    → padded (write8 m d (m s)) (d + 1) (s + 1) count n b ≡ padded m d s (suc count) (suc n) b
unfolding write8
padded-step m d s count n b byte apart = elim (ℕ_discrete b d) [
  | yes e ↦ ground (arith, ap m (here e))
  | no ne ↦ elim (Bool-cases (ltb b d)) [
    | inl below ↦ ground arith
    | inr above ↦ ground (arith, ap m (there (ground arith)))
  ]
]
  where
    here : b ≡ d → s + (b - d) ≡ s
    here e = omega arith

    there : d < b → s + 1 + (b - (d + 1)) ≡ s + (b - d)
    there lt = omega arith

-- `strncpy` writes `count` bytes, the characters of the string and then zeros, and leaves all other memory as it is. The
-- two do not overlap. Where the string has `count` characters or more, no terminator is written.
pub strncpy-padded :
    (m : Ram) (d s count n b : ℕ)
    → IsString m s n
    → (d + count ≤ s) ⊎ (s + n < d)
    → strncpy m d s count b ≡ padded m d s count n b
unfolding strncpy
strncpy-padded m d s zero n b h apart = ground arith
strncpy-padded m d s (suc count) zero b h apart =
    rw ends_here (memset_lem m d 0 (suc count) b ∙ ground arith)
  where
    ends_here : (m s == 0) ≡ true
    ends_here = ground (arith, h.terminator, ap m (start s))
strncpy-padded m d s (suc count) (suc n) b h apart = rw goes_on (
    strncpy-padded (write8 m d (m s)) (d + 1) (s + 1) count n b
      (next-IsString m d s n (m s) h (omega arith)) (omega arith)
    ∙ padded-step m d s count n b byte apart)
  where
    byte : m s < 256
    byte = let (pos, lt') = h.chars 0 (omega arith) in ground (arith, ap m (start s))

    goes_on : (m s == 0) ≡ false
    goes_on = let (pos, lt') = h.chars 0 (omega arith) in ground (arith, ap m (start s))
