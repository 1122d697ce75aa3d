-- ===== src/Image/Names.antt =====
-- Names of the image, as strings that the kernel compares.
use lbos.Base.{
  sym, Option, some, true, false, ◌≢◌, ◌⊎◌, inl, inr, ◌≤◌, ℕ, suc, ◌+◌, ◌<◌, ◌≡◌, refl, ap, ◌∙◌,
  arith, [], ◌∷◌, length, get_or,
}
use mathlib.Core.Path.{subst}
use lbos.Memory.{Ram}
use lbos.Text.{Text, strcmp}
use native.Mathlib.Decide.{ℕ_discrete}
use lbos.Initrd.{Initrd}
use lbos.Initrd.Open.{Search, missing, at_file, names}
use lbos.Text.Compare.{IsText, nil, cons}
use lbos.Initrd.{strncmp_at, strcmp_at}
use lbos.Image.Header.{name_char}

-- The characters of a text stand at `a`, and its terminator.
pub data Stands (m : Ram) : ℕ → Text → Type 0 where
  ends : {a : ℕ} → m a ≡ 0 → Stands m a []
  continues : {a c : ℕ} {t : Text} → m a ≡ c → Stands m (a + 1) t → Stands m a (c ∷ t)

pub strcmp_at-strcmp :
    (m : Ram) (a : ℕ) (s t : Text) → Stands m a s → IsText s → strcmp_at m a t ≡ strcmp s t
unfolding strcmp
strcmp_at-strcmp m a [] [] (ends z) x = z
strcmp_at-strcmp m a [] (b ∷ t) (ends z) x = ground arith
strcmp_at-strcmp m a (c ∷ s) [] (continues e more) x = e
strcmp_at-strcmp m a (c ∷ s) (b ∷ t) (continues e more) (cons lo hi x) =
    ground (arith, strcmp_at-strcmp m (a + 1) s t more x)

-- Only the characters before the terminator are compared.
pub strncmp_at-prefix :
    (m : Ram) (a : ℕ) (t : Text)
    → IsText t
    → ((k : ℕ) → k < length t → m (a + k) ≡ get_or t k 0)
    → strncmp_at m a t (length t) ≡ 0
strncmp_at-prefix m a [] nil same = refl
strncmp_at-prefix m a (c ∷ t) (cons lo hi x) same = ground (
  arith,
  first,
  strncmp_at-prefix m (a + 1) t x (λ k lt. ap m (next k) ∙ same (suc k) (omega arith)),
)
  where
    first : m a ≡ c
    first = ap m (start a) ∙ same 0 (omega arith)
      where
        start : (a : ℕ) → a ≡ a + 0
        start a = omega arith

    next : (k : ℕ) → a + 1 + k ≡ a + suc k
    next k = omega arith

-- A name of an entry, as a string.
pub name-Stands :
    (m : Ram) (a k : ℕ) (s t : Text)
    → ((j : ℕ) → k ≤ j → j < 32 → m (a + j) ≡ name_char s j)
    → IsText t
    → k + length t ≤ 31
    → ((j : ℕ) → get_or s (k + j) 0 ≡ get_or t j 0)
    → Stands m (a + k) t
name-Stands m a k s [] stored nil fits suffix = ends (
    ground
      (arith, stored k (omega arith) (omega arith), suffix 0, ap (λ (j : ℕ). get_or s j 0) here))
  where
    here : k + 0 ≡ k
    here = omega arith
name-Stands m a k s (c ∷ t) stored (cons lo hi x) fits suffix =
    continues
      (ground
        (arith, stored k (omega arith) (omega arith), suffix 0, ap (λ (j : ℕ). get_or s j 0) here))
      (subst (λ (b : ℕ). Stands m b t) behind
        (name-Stands m a (k + 1) s t (λ j lo' hi'. stored j (omega arith) hi') x (omega arith)
          (λ j. ap (λ (i : ℕ). get_or s i 0) (next j) ∙ suffix (suc j))))
  where
    here : k + 0 ≡ k
    here = omega arith

    behind : a + (k + 1) ≡ a + k + 1
    behind = omega arith

    next : (j : ℕ) → k + 1 + j ≡ k + suc j
    next j = omega arith

true-ne-false : true ≢ false
true-ne-false e = cc

below-or-not : (a b : ℕ) → (a < b) ⊎ (b ≤ a)
below-or-not a b = omega arith

-- The first file with a name is the one that a search finds.
pub Search-first :
    (r : Initrd) (name : Text) (limit i : ℕ) (found : Option ℕ)
    → i < limit
    → names r name i ≡ true
    → ((j : ℕ) → j < i → names r name j ≡ false)
    → Search r name 0 limit found
    → found ≡ some i
Search-first r name limit i found lt here before (missing e all) =
    absurd (true-ne-false (sym here ∙ all i (omega arith) lt))
Search-first r name limit i found lt here before (at_file k e lt' is all) = elim (ℕ_discrete k i) [
  | yes same ↦ e ∙ ap some same
  | no ne ↦ elim (below-or-not k i) [
    | inl less ↦ absurd (true-ne-false (sym is ∙ before k less))
    | inr more ↦ absurd (true-ne-false (sym here ∙ all i (omega arith) (omega arith)))
  ]
]
