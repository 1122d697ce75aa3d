-- ===== src/Base/Reverse.antt =====
-- Reversed lists by their places, and equality of lists by their places.
use Prim.Native.Nat.{ℕ, zero, suc, ◌+◌, ◌-◌, ◌<◌}
use mathlib.Core.Path.{◌≡◌, refl, ap, ap₂, ◌∙◌}
use mathlib.Core.List.{List, [], ◌∷◌, ◌++◌, reverse, reverse-cons}
use native.Mathlib.Omega.{arith}
use native.Mathlib.Decide.{ℕ_discrete}
use lbos.Base.Tests.{◌==◌, if◌then◌else◌}
use lbos.Base.Lists.{length, length-append, get_or}

module _ {ℓ} {A : Type ℓ} where
  pub length-reverse : (xs : List A) → length (reverse xs) ≡ length xs
  length-reverse [] = refl
  length-reverse (x ∷ xs) =
      ap length (reverse-cons x xs)
      ∙ omega (arith, length-append (reverse xs) (x ∷ []), length-reverse xs)

  get_or-snoc :
      (xs : List A) (x d : A) (j : ℕ)
      → j < length xs + 1
      → get_or (xs ++ x ∷ []) j d ≡ (if j == length xs then x else get_or xs j d)
  get_or-snoc [] x d zero h = refl
  get_or-snoc [] x d (suc j) h = absurd (omega arith)
  get_or-snoc (y ∷ xs) x d zero h = ground arith
  get_or-snoc (y ∷ xs) x d (suc j) h = ground (arith, get_or-snoc xs x d j (omega arith))

  get_or-cons : (x d : A) (xs : List A) (k : ℕ) → 0 < k → get_or (x ∷ xs) k d ≡ get_or xs (k - 1) d
  get_or-cons x d xs zero h = absurd (omega arith)
  get_or-cons x d xs (suc k) h = ap (λ (n : ℕ). get_or xs n d) (omega arith)

  pub get_or-reverse :
      (xs : List A) (d : A) (j : ℕ)
      → j < length xs
      → get_or (reverse xs) j d ≡ get_or xs (length xs - 1 - j) d
  get_or-reverse [] d j h = absurd (omega arith)
  get_or-reverse (x ∷ xs) d j h =
      ap (λ (l : List A). get_or l j d) (reverse-cons x xs)
      ∙ get_or-snoc (reverse xs) x d j (omega (arith, length-reverse xs))
      ∙ elim (ℕ_discrete j (length xs)) [
        | yes e ↦ ground (arith, length-reverse xs, ap (λ (k : ℕ). get_or (x ∷ xs) k d) (first e))
        | no ne ↦ ground (
          arith,
          length-reverse xs,
          get_or-reverse xs d j (omega arith),
          get_or-cons x d xs (length xs - j) (omega arith),
          ap (λ (k : ℕ). get_or xs k d) (back ne),
        )
      ]
    where
      first : j ≡ length xs → suc (length xs) - 1 - j ≡ 0
      first e = omega arith

      back : ¬ (j ≡ length xs) → length xs - j - 1 ≡ length xs - 1 - j
      back ne = omega arith

  -- Lists of the same length with the same elements.
  pub get_or_ext :
      (xs ys : List A) (d : A)
      → length xs ≡ length ys
      → ((j : ℕ) → j < length xs → get_or xs j d ≡ get_or ys j d)
      → xs ≡ ys
  get_or_ext [] [] d e h = refl
  get_or_ext [] (y ∷ ys) d e h = absurd (omega arith)
  get_or_ext (x ∷ xs) [] d e h = absurd (omega arith)
  get_or_ext (x ∷ xs) (y ∷ ys) d e h =
      ap₂ (λ (a : A) (l : List A). a ∷ l) (h 0 (omega arith))
        (get_or_ext xs ys d (omega arith) (λ j lt. h (suc j) (omega arith)))
