-- ===== src/Image/Written.antt =====
-- What is in a file that is written.
use lbos.Base.{
  ℕ, zero, suc, ◌+◌, ◌-◌, ◌≤◌, ◌<◌, ◌≡◌, refl, ap, ◌∙◌, max, Bool-cases, inl, inr, ◌&&◌, arith, [],
  ◌∷◌, ltb, leb, length, get_or, u8, if◌then◌else◌,
}
use native.Mathlib.Decide.{ℕ_discrete}
use lbos.Memory.{Ram, write8}
use lbos.Memory.Blocks.{IsBytes}
use lbos.Text.{Text}
use lbos.Image.{Output, fwrite, object}

-- The bytes once a text is written at `pos`.
abbrev pub written : Ram → (pos : ℕ) → Text → ℕ → ℕ
written m pos t b = if leb pos b && ltb b (pos + length t) then u8 (get_or t (b - pos) 0) else m b

written-step :
    (m : Ram) (pos c : ℕ) (t : Text) (b : ℕ)
    → written (write8 m pos c) (pos + 1) t b ≡ written m pos (c ∷ t) b
unfolding write8
written-step m pos c t b = elim (ℕ_discrete b pos) [
  | yes e ↦ ground (arith, ap (λ (k : ℕ). get_or (c ∷ t) k 0) (here e))
  | no ne ↦ elim (Bool-cases (ltb b pos)) [
    | inl below ↦ ground arith
    | inr above ↦ ground (arith, ap (λ (k : ℕ). get_or (c ∷ t) k 0) (there (ground arith)))
  ]
]
  where
    here : b ≡ pos → b - pos ≡ 0
    here e = omega arith

    there : pos < b → b - pos ≡ suc (b - (pos + 1))
    there lt = omega arith

pub bytes-fwrite :
    (t : Text) (o : Output) (b : ℕ) → (fwrite t o).bytes b ≡ written o.bytes o.pos t b
unfolding fwrite
bytes-fwrite [] o b = ground arith
bytes-fwrite (c ∷ t) o b = bytes-fwrite t _ b ∙ written-step o.bytes o.pos c t b

pub written-before : (m : Ram) (pos : ℕ) (t : Text) (b : ℕ) → b < pos → written m pos t b ≡ m b
written-before m pos t b lt = ground arith

pub written-behind :
    (m : Ram) (pos : ℕ) (t : Text) (b : ℕ) → pos + length t ≤ b → written m pos t b ≡ m b
written-behind m pos t b le = ground arith

pub written-inside :
    (m : Ram) (pos : ℕ) (t : Text) (k : ℕ)
    → k < length t
    → written m pos t (pos + k) ≡ u8 (get_or t k 0)
written-inside m pos t k lt = ground (arith, ap (λ (j : ℕ). get_or t j 0) back)
  where
    back : pos + k - pos ≡ k
    back = omega arith

pub size-fwrite :
    (t : Text) (o : Output) → o.pos ≤ o.size → (fwrite t o).size ≡ max o.size (o.pos + length t)
unfolding fwrite
size-fwrite [] o h = omega arith
size-fwrite (c ∷ t) o h = omega (
  arith,
  size-fwrite t
      (record { bytes = write8 o.bytes o.pos c; size = max o.size (o.pos + 1); pos = o.pos + 1 })
      (omega arith),
)

pub pos-fwrite : (t : Text) (o : Output) → (fwrite t o).pos ≡ o.pos + length t
unfolding fwrite
pos-fwrite [] o = omega arith
pos-fwrite (c ∷ t) o = omega (
  arith,
  pos-fwrite t
      (record { bytes = write8 o.bytes o.pos c; size = max o.size (o.pos + 1); pos = o.pos + 1 }),
)

pub IsBytes-fwrite : (t : Text) (o : Output) → IsBytes o.bytes → IsBytes (fwrite t o).bytes
IsBytes-fwrite t o bytes b = ground (arith, bytes-fwrite t o b, bytes b)

pub length-object : (m : Ram) (a n : ℕ) → length (object m a n) ≡ n
unfolding object
length-object m a zero = refl
length-object m a (suc n) = ap suc (length-object m (a + 1) n)

start : (a : ℕ) → a ≡ a + 0
start a = omega arith

pub get_or-object : (m : Ram) (a n k : ℕ) → k < n → get_or (object m a n) k 0 ≡ m (a + k)
unfolding object
get_or-object m a zero k h = absurd (omega arith)
get_or-object m a (suc n) zero h = ap m (start a)
get_or-object m a (suc n) (suc k) h = get_or-object m (a + 1) n k (omega arith) ∙ ap m (shift k)
  where
    shift : (k : ℕ) → a + 1 + k ≡ a + suc k
    shift k = omega arith
