-- ===== src/Fb/Cells.antt =====
-- What the screen shows.
use lbos.Base.{
  ℕ, zero, suc, ◌+◌, ◌-◌, ◌*◌, ◌/◌, ◌%◌, ◌^◌, ◌≤◌, ◌<◌, ◌≡◌, refl, ap, sym, ◌∙◌, arith, List, [],
  ◌∷◌, ◌++◌, ◌==◌, ltb, leb, ◌&&◌, get_or, if◌then◌else◌, bit_and, bit_and-low, ◌>>>◌, u8, u16, u32,
  add32, mul32,
}
use mathlib.Core.List.{append_assoc, append-nil}
use native.Mathlib.Decide.{ℕ_discrete}
use lbos.Memory.{Ram, write8}
use lbos.Text.{Text}
use lbos.Fb.{fb, Screen, fb_write_cell, fb_move_cursor, fb_loop, fb_write}

-- The byte at address `a` after the characters from `i` on.
abbrev pub shown : Ram → Text → (i rounds a : ℕ) → ℕ
shown m buf i rounds a =
    if leb (fb + 2 * i) a && ltb a (fb + 2 * (i + rounds))
    then (if (a - fb) % 2 == 0 then u8 (get_or buf ((a - fb) / 2) 0) else 0xf0)
    else m a

-- The bytes of one cell.
ram-write_cell :
    (i c a : ℕ) (s : Screen)
    → fb + 2 * i + 2 ≤ 2 ^ 32
    → (fb_write_cell (mul32 i 2) c 15 0 s).ram a
      ≡ (if a == fb + 2 * i then u8 c else if a == fb + 2 * i + 1 then 0xf0 else s.ram a)
unfolding fb_write_cell write8
ram-write_cell i c a s h = rw (place, next) (ground arith)
  where
    place : add32 fb (mul32 i 2) ≡ fb + 2 * i
    place = omega arith

    next : add32 fb (add32 (mul32 i 2) 1) ≡ fb + 2 * i + 1
    next = omega arith

shown-step :
    (m m' : Ram) (buf : Text) (i rounds a : ℕ)
    → m' a
      ≡ (if a == fb + 2 * i then u8 (get_or buf i 0) else if a == fb + 2 * i + 1 then 0xf0 else m a)
    → shown m' buf (i + 1) rounds a ≡ shown m buf i (suc rounds) a
shown-step m m' buf i rounds a e = elim (ℕ_discrete a (fb + 2 * i)) [
  | yes at ↦ ground (arith, ap (λ (k : ℕ). get_or buf k 0) (index i at))
  | no ne ↦ ground arith
]
  where
    index : (i : ℕ) → a ≡ fb + 2 * i → (a - fb) / 2 ≡ i
    index i at = omega arith

fb_loop-shown :
    (buf : Text) (i rounds a : ℕ) (s : Screen)
    → fb + 2 * (i + rounds) ≤ 2 ^ 32
    → (fb_loop buf i rounds s).ram a ≡ shown s.ram buf i rounds a
unfolding fb_loop fb_move_cursor
fb_loop-shown buf i zero a s h = ground arith
fb_loop-shown buf i (suc rounds) a s h =
    rw (fb_loop, next)
      (fb_loop-shown buf (i + 1) rounds a
          (fb_move_cursor (u16 (i + 1)) (fb_write_cell (mul32 i 2) (get_or buf i 0) 15 0 s))
          (omega arith)
        ∙ shown-step s.ram (fb_write_cell (mul32 i 2) (get_or buf i 0) 15 0 s).ram buf i rounds a
            (ram-write_cell i (get_or buf i 0) a s (omega arith)))
  where
    next : u32 (i + 1) ≡ i + 1
    next = omega arith

-- What is sent to place the cursor behind each character from `i` on.
abbrev pub cursor_bytes : (i rounds : ℕ) → List (ℕ × ℕ)
cursor_bytes i zero = []
cursor_bytes i (suc rounds) =
    (0x3d4, 14)
    ∷ (0x3d5, (i + 1) / 2 ^ 8)
    ∷ (0x3d4, 15)
    ∷ (0x3d5, (i + 1) % 2 ^ 8)
    ∷ cursor_bytes (i + 1) rounds

append_four :
    (p : List (ℕ × ℕ)) (a b c d : ℕ × ℕ)
    → (((p ++ a ∷ []) ++ b ∷ []) ++ c ∷ []) ++ d ∷ [] ≡ p ++ a ∷ b ∷ c ∷ d ∷ []
append_four [] a b c d = refl
append_four (e ∷ p) a b c d = ap (λ (l : List (ℕ × ℕ)). e ∷ l) (append_four p a b c d)

ports-move_cursor :
    (pos : ℕ) (s : Screen)
    → pos < 2 ^ 16
    → (fb_move_cursor (u16 pos) s).ports
      ≡ s.ports ++ (0x3d4, 14) ∷ (0x3d5, pos / 2 ^ 8) ∷ (0x3d4, 15) ∷ (0x3d5, pos % 2 ^ 8) ∷ []
unfolding fb_move_cursor
ports-move_cursor pos s h =
    rw (high, low)
      (append_four s.ports (0x3d4, 14) (0x3d5, pos / 2 ^ 8) (0x3d4, 15) (0x3d5, pos % 2 ^ 8))
  where
    high : u8 (bit_and (u16 pos >>> 8) 0x00ff) ≡ pos / 2 ^ 8
    high = omega (arith, bit_and-low 8 (u16 pos >>> 8))

    low : u8 (bit_and (u16 pos) 0x00ff) ≡ pos % 2 ^ 8
    low = omega (arith, bit_and-low 8 (u16 pos))

fb_loop-cursor :
    (buf : Text) (i rounds : ℕ) (s : Screen)
    → i + rounds < 2 ^ 16
    → (fb_loop buf i rounds s).ports ≡ s.ports ++ cursor_bytes i rounds
unfolding fb_loop fb_write_cell
fb_loop-cursor buf i zero s h = sym (append-nil s.ports)
fb_loop-cursor buf i (suc rounds) s h =
    rw (fb_loop, next)
      (fb_loop-cursor buf (i + 1) rounds
          (fb_move_cursor (u16 (i + 1)) (fb_write_cell (mul32 i 2) (get_or buf i 0) 15 0 s))
          (omega arith)
        ∙ ap (λ (p : List (ℕ × ℕ)). p ++ cursor_bytes (i + 1) rounds)
            (ports-move_cursor (i + 1) (fb_write_cell (mul32 i 2) (get_or buf i 0) 15 0 s)
              (omega arith))
        ∙ append_assoc s.ports _ _)
  where
    next : u32 (i + 1) ≡ i + 1
    next = omega arith

-- Writing a text puts each character into the next cell of the screen, all in the same colours, and leaves all other
-- memory as it is; the cursor goes behind each character in turn. Required is that the text stays below the
-- places that the cursor can name.
pub fb_write-shown :
    (buf : Text) (len : ℕ) (s : Screen)
    → len < 2 ^ 16
    → ((fb_write buf len s).0 ≡ len)
      × ((a : ℕ) → (fb_write buf len s).1.ram a ≡ shown s.ram buf 0 len a)
      × ((fb_write buf len s).1.ports ≡ s.ports ++ cursor_bytes 0 len)
unfolding fb_write
fb_write-shown buf len s h =
    (refl, λ a. fb_loop-shown buf 0 len a s (omega arith), fb_loop-cursor buf 0 len s (omega arith))
