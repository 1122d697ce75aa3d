-- ===== src/Text/Compare.antt =====
-- What `strcmp` and `strncmp` decide.
use lbos.Base.{
  ℕ, zero, suc, take, ◌<◌, ◌≡◌, refl, Bool, true, false, ◌&&◌, [], ◌∷◌, arith, ◌==◌, length,
}
use mathlib.Core.Path.{ap₂, subst}
use lbos.Base.{◌↔◌}
use lbos.Text.{Text, strcmp, strncmp}

-- The characters of a string: bytes other than the terminator.
pub data IsText : Text → Type 0 where
  nil : IsText []
  cons : {c : ℕ} {t : Text} → 0 < c → c < 256 → IsText t → IsText (c ∷ t)

abbrev pub is_prefix : Text → Text → Bool
is_prefix [] s = true
is_prefix (b ∷ t) [] = false
is_prefix (b ∷ t) (a ∷ s) = (a == b) && is_prefix t s

-- Of two strings, `strncmp` over the length of the second answers 0 exactly when the second is a prefix of
-- the first.
pub strncmp-is_prefix :
    (s t : Text) → IsText s → IsText t → (strncmp s t (length t) == 0) ≡ is_prefix t s
unfolding strncmp
strncmp-is_prefix s [] x nil = refl
strncmp-is_prefix [] (b ∷ t) nil (cons lo hi y) = ground arith
strncmp-is_prefix (a ∷ s) (b ∷ t) (cons lo hi x) (cons lo' hi' y) =
    ground (arith, strncmp-is_prefix s t x y)

pub strcmp_refl : (s : Text) → strcmp s s ≡ 0
unfolding strcmp
strcmp_refl [] = refl
strcmp_refl (a ∷ s) = ground (arith, strcmp_refl s)

pub strcmp-eq : (s t : Text) → IsText s → IsText t → strcmp s t ≡ 0 → s ≡ t
unfolding strcmp
strcmp-eq [] [] nil nil e = refl
strcmp-eq [] (b ∷ t) nil (cons lo hi y) e = absurd (omega arith)
strcmp-eq (a ∷ s) [] (cons lo hi x) nil e = absurd (omega arith)
strcmp-eq (a ∷ s) (b ∷ t) (cons lo hi x) (cons lo' hi' y) e =
    let first : a ≡ b = ground arith in
    let rest : strcmp s t ≡ 0 = ground arith in
    ap₂ (λ (c : ℕ) (u : Text). c ∷ u) first (strcmp-eq s t x y rest)

-- Of two strings `strcmp` answers 0 exactly when they are the same.
pub strcmp_lem : (s t : Text) → IsText s → IsText t → (strcmp s t ≡ 0) ↔ (s ≡ t)
strcmp_lem s t x y =
    (strcmp-eq s t x y, λ e. subst (λ (u : Text). strcmp s u ≡ 0) e (strcmp_refl s))

pub IsText-take : (n : ℕ) (t : Text) → IsText t → IsText (take n t)
IsText-take zero t x = nil
IsText-take (suc n) [] nil = nil
IsText-take (suc n) (c ∷ t) (cons lo hi x) = cons lo hi (IsText-take n t x)
