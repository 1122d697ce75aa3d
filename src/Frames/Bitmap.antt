-- ===== src/Frames/Bitmap.antt =====
-- The bitmap as a set of frames: `set_bit` and `clear_bit` change the membership of one frame.
use lbos.Base.{
  ℕ, ◌+◌, ◌-◌, ◌*◌, ◌/◌, ◌%◌, ◌^◌, ◌<◌, ◌≡◌, ◌≢◌, sym, ap, ◌∙◌, true, false, bit_and, bit_or, arith,
  ◌==◌, if◌then◌else◌, u32, not32, ◌<<<◌, bit, bit-le, bit-bit_and, bit-bit_or, bit-two-pow,
  bit-not-two-pow, bit-mod, bit_and-two-pow, two-pow-lt,
}
use native.Mathlib.Nat.{one-le-pow}
use native.Mathlib.Decide.{ℕ_discrete}
use lbos.Memory.{load32, store32}
use lbos.Memory.Words.{load32-store32_self, load32-store32-Apart}
use lbos.Frames.{Mem, slot, set_bit, clear_bit, test_bit}

-- The bit that stands for a frame.
abbrev pub frame_bit : Mem → ℕ → ℕ
frame_bit m i = bit (load32 m.ram (slot m i)) (i % 8)

one-shl : (b : ℕ) → b < 32 → 1 <<< b ≡ 2 ^ b
one-shl b h = omega (arith, two-pow-lt b 32 h)

pub test_bit_lem : (m : Mem) (i : ℕ) → test_bit m i ≡ (frame_bit m i == 1)
unfolding test_bit
test_bit_lem m i =
    rw (one-shl (i % 8) (omega arith), bit_and-two-pow)
      (ground (arith, bit-le (load32 m.ram (slot m i)) (i % 8), one-le-pow (i % 8) 2))

-- The two assignments at the level of one word.
or_word :
    (w b c : ℕ) → b < 8 → c < 8 → bit (u32 (bit_or w (1 <<< b))) c ≡ (if b == c then 1 else bit w c)
or_word w b c hb hc =
    rw (one-shl b (omega arith), bit-mod 32 (bit_or w (2 ^ b)) c (omega arith), bit-bit_or)
      (ground (arith, bit-two-pow b c, bit-le w c))

and_not_word :
    (w b c : ℕ)
    → b < 8
    → c < 8
    → bit (u32 (bit_and w (not32 (1 <<< b)))) c ≡ (if b == c then 0 else bit w c)
and_not_word w b c hb hc =
    rw
      (
        one-shl b (omega arith),
        bit-mod 32 (bit_and w (2 ^ 32 - 1 - 2 ^ b)) c (omega arith),
        bit-bit_and,
      )
      (ground (arith, bit-not-two-pow 32 b c (omega arith) (omega arith), bit-le w c))

-- A store into the slot of frame `i`, seen by frame `j`.
module _ (m : Mem) (i j : ℕ) where
  abbrev stored : ℕ → ℕ
  stored v = bit (load32 (store32 m.ram (slot m i) v) (slot m j)) (j % 8)

  stored_same : (v : ℕ) → i / 8 ≡ j / 8 → stored v ≡ bit (u32 v) (j % 8)
  stored_same v e =
      ap (λ (s : ℕ). bit (load32 (store32 m.ram (slot m i) v) (m.frame_bitmap + 4 * s)) (j % 8))
        (sym e)
      ∙ ap (λ (w : ℕ). bit w (j % 8)) (load32-store32_self m.ram (slot m i) v)

  stored_apart : (v : ℕ) → i / 8 ≢ j / 8 → stored v ≡ frame_bit m j
  stored_apart v n =
      ap (λ (w : ℕ). bit w (j % 8))
        (load32-store32-Apart m.ram (slot m i) v (slot m j) (ground arith))

  same_slot : i / 8 ≡ j / 8 → bit (load32 m.ram (slot m i)) (j % 8) ≡ frame_bit m j
  same_slot e = ap (λ (s : ℕ). bit (load32 m.ram (m.frame_bitmap + 4 * s)) (j % 8)) e

  frame_bit-set_bit : frame_bit (set_bit m i) j ≡ (if i == j then 1 else frame_bit m j)
  unfolding set_bit
  frame_bit-set_bit =
      let w = load32 m.ram (slot m i) in
      let v = bit_or w (1 <<< (i % 8)) in
      elim (ℕ_discrete (i / 8) (j / 8)) [
        | yes e ↦
            stored_same v e
            ∙ ground (arith, or_word w (i % 8) (j % 8) (omega arith) (omega arith), same_slot e)
        | no n ↦ stored_apart v n ∙ ground arith
      ]

  frame_bit-clear_bit : frame_bit (clear_bit m i) j ≡ (if i == j then 0 else frame_bit m j)
  unfolding clear_bit
  frame_bit-clear_bit =
      let w = load32 m.ram (slot m i) in
      let v = bit_and w (not32 (1 <<< (i % 8))) in
      elim (ℕ_discrete (i / 8) (j / 8)) [
        | yes e ↦
            stored_same v e
            ∙ ground
                (arith, and_not_word w (i % 8) (j % 8) (omega arith) (omega arith), same_slot e)
        | no n ↦ stored_apart v n ∙ ground arith
      ]

pub test_bit-set_bit :
    (m : Mem) (i j : ℕ) → test_bit (set_bit m i) j ≡ (if i == j then true else test_bit m j)
test_bit-set_bit m i j =
    ground (arith, test_bit_lem m j, test_bit_lem (set_bit m i) j, frame_bit-set_bit m i j)

pub test_bit-clear_bit :
    (m : Mem) (i j : ℕ) → test_bit (clear_bit m i) j ≡ (if i == j then false else test_bit m j)
test_bit-clear_bit m i j =
    ground (arith, test_bit_lem m j, test_bit_lem (clear_bit m i) j, frame_bit-clear_bit m i j)
