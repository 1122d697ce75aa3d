-- ===== src/Serial/Swap.antt =====
-- Turning a text round in place.
use lbos.Base.{
  ℕ, zero, suc, ◌+◌, ◌-◌, ◌≤◌, ◌<◌, ◌≡◌, refl, ap, sym, ◌∙◌, true, Bool-cases, inl, inr, arith, [],
  ◌∷◌, ◌==◌, ltb, leb, length, get_or, set, get_or-set, length-set, if◌then◌else◌, length-reverse,
  get_or-reverse, get_or_ext, ◌&&◌,
}
use mathlib.Core.List.{reverse}
use native.Mathlib.Decide.{ℕ_discrete}
use lbos.Text.{Text}
use lbos.Serial.{swap_loop}

length-swap_loop :
    (rounds start end : ℕ) (buf : Text) → length (swap_loop rounds start end buf) ≡ length buf
length-swap_loop zero start end buf = refl
length-swap_loop (suc rounds) start end buf = ground (
  arith,
  length-swap_loop rounds (start + 1) (end - 1)
      (set (set buf start (get_or buf end 0)) end (get_or buf start 0)),
  length-set buf start (get_or buf end 0),
  length-set (set buf start (get_or buf end 0)) end (get_or buf start 0),
)

-- With one place, or none, left nothing changes.
get_or-same :
    (start end j : ℕ) (buf : Text)
    → end ≤ start
    → get_or buf j 0
      ≡ (if leb start j && leb j end then get_or buf (start + end - j) 0 else get_or buf j 0)
get_or-same start end j buf le = elim (Bool-cases (leb start j && leb j end)) [
  | inl inside ↦ rw inside (ap (λ (k : ℕ). get_or buf k 0) (the_one inside))
  | inr outside ↦ rw outside refl
]
  where
    the_one : (leb start j && leb j end) ≡ true → j ≡ start + end - j
    the_one e = ground arith

abbrev swapped : (start end : ℕ) → Text → Text
swapped start end buf = set (set buf start (get_or buf end 0)) end (get_or buf start 0)

get_or-swapped :
    (start end k : ℕ) (buf : Text)
    → start < end
    → end < length buf
    → get_or (swapped start end buf) k 0 ≡ (
        if end == k
        then get_or buf start 0
        else if start == k
        then get_or buf end 0
        else get_or buf k 0)
get_or-swapped start end k buf lt bound =
    get_or-set (set buf start (get_or buf end 0)) end k (get_or buf start 0) 0
      (omega (arith, length-set buf start (get_or buf end 0)))
    ∙ ap (λ (x : ℕ). if end == k then get_or buf start 0 else x)
        (get_or-set buf start k (get_or buf end 0) 0 (omega arith))

-- One exchange, before the places between are turned round.
swapped-step :
    (start end j : ℕ) (buf : Text)
    → start < end
    → end < length buf
    → (if leb (start + 1) j && leb j (end - 1)
        then get_or (swapped start end buf) (start + 1 + (end - 1) - j) 0
        else get_or (swapped start end buf) j 0)
      ≡ (if leb start j && leb j end then get_or buf (start + end - j) 0 else get_or buf j 0)
swapped-step start end j buf lt bound = elim (ℕ_discrete j start) [
  | yes e ↦
      ground
        (arith, get_or-swapped start end j buf lt bound, ap (λ (k : ℕ). get_or buf k 0) (first e))
  | no ne ↦ elim (ℕ_discrete j end) [
    | yes e ↦
        ground
          (arith, get_or-swapped start end j buf lt bound, ap (λ (k : ℕ). get_or buf k 0) (last e))
    | no ne' ↦ elim (Bool-cases (leb (start + 1) j && leb j (end - 1))) [
      | inl in_between ↦ ground (
        arith,
        ap (λ (k : ℕ). get_or (swapped start end buf) k 0) (between in_between),
        get_or-swapped start end (start + end - j) buf lt bound,
      )
      | inr outside ↦ ground (arith, get_or-swapped start end j buf lt bound)
    ]
  ]
]
  where
    first : j ≡ start → start + end - j ≡ end
    first e = omega arith

    last : j ≡ end → start + end - j ≡ start
    last e = omega arith

    between :
        (leb (start + 1) j && leb j (end - 1)) ≡ true → start + 1 + (end - 1) - j ≡ start + end - j
    between e = omega arith

get_or-swap_loop :
    (rounds start end j : ℕ) (buf : Text)
    → end < length buf
    → end ≤ start + rounds
    → get_or (swap_loop rounds start end buf) j 0
      ≡ (if leb start j && leb j end then get_or buf (start + end - j) 0 else get_or buf j 0)
get_or-swap_loop zero start end j buf lt le = get_or-same start end j buf (omega arith)
get_or-swap_loop (suc rounds) start end j buf lt le = elim (Bool-cases (ltb start end)) [
  | inl go ↦ rw go (
      get_or-swap_loop rounds (start + 1) (end - 1) j (swapped start end buf)
        (omega (
          arith,
          length-set buf start (get_or buf end 0),
          length-set (set buf start (get_or buf end 0)) end (get_or buf start 0),
        ))
        (omega arith)
      ∙ swapped-step start end j buf (ground arith) lt)
  | inr stop ↦ rw stop (get_or-same start end j buf (ground arith))
]

place :
    (c : ℕ) (t : Text) (j : ℕ)
    → j < length (c ∷ t)
    → 0 + (length (c ∷ t) - 1) - j ≡ length (c ∷ t) - 1 - j
place c t j lt = omega arith

pub swap_loop-reverse : (buf : Text) → swap_loop (length buf) 0 (length buf - 1) buf ≡ reverse buf
swap_loop-reverse [] = refl
swap_loop-reverse (c ∷ t) =
    get_or_ext (swap_loop (length (c ∷ t)) 0 (length (c ∷ t) - 1) (c ∷ t)) (reverse (c ∷ t)) 0
      (length-swap_loop (length (c ∷ t)) 0 (length (c ∷ t) - 1) (c ∷ t)
        ∙ sym (length-reverse (c ∷ t)))
      (λ j lt.
        same j (omega (arith, length-swap_loop (length (c ∷ t)) 0 (length (c ∷ t) - 1) (c ∷ t))))
  where
    same :
        (j : ℕ)
        → j < length (c ∷ t)
        → get_or (swap_loop (length (c ∷ t)) 0 (length (c ∷ t) - 1) (c ∷ t)) j 0
          ≡ get_or (reverse (c ∷ t)) j 0
    same j lt =
        get_or-swap_loop (length (c ∷ t)) 0 (length (c ∷ t) - 1) j (c ∷ t) (omega arith)
          (omega arith)
        ∙ ground (arith, ap (λ (k : ℕ). get_or (c ∷ t) k 0) (place c t j lt))
        ∙ sym (get_or-reverse (c ∷ t) 0 j lt)
