-- ===== src/Text/Search.antt =====
-- What `strstr` finds.
use lbos.Base.{
  ℕ, zero, suc, ◌+◌, ◌<◌, ◌≡◌, refl, ap, ◌∙◌, inl, inr, true, false, ◌&&◌, arith, ◌==◌, Option,
  none, some, [], ◌∷◌, Bool-cases, drop,
}
use lbos.Text.{Text, needle_left, at_end, search_loop, strstr}
use lbos.Text.Compare.{is_prefix}

at_end-needle_left : (h n : Text) → at_end (needle_left h n) ≡ is_prefix n h
at_end-needle_left [] [] = refl
at_end-needle_left [] (b ∷ n) = refl
at_end-needle_left (a ∷ h) [] = refl
at_end-needle_left (a ∷ h) (b ∷ n) = ground (arith, at_end-needle_left h n)

-- The test of one place.
place-is_prefix :
    (a : ℕ) (h : Text) (b : ℕ) (n : Text)
    → ((a == b) && at_end (needle_left (a ∷ h) (b ∷ n))) ≡ is_prefix (b ∷ n) (a ∷ h)
place-is_prefix a h b n = ground (arith, at_end-needle_left h n)

-- The needle stands at the place `i + k`, and at none before, or at none at all.
pub data Found (i : ℕ) (haystack needle : Text) (r : Option ℕ) : Type 0 where
  first :
      (k : ℕ)
      → r ≡ some (i + k)
      → is_prefix needle (drop k haystack) ≡ true
      → ((j : ℕ) → j < k → is_prefix needle (drop j haystack) ≡ false)
      → Found i haystack needle r
  absent :
      r ≡ none → ((j : ℕ) → is_prefix needle (drop j haystack) ≡ false) → Found i haystack needle r

Found-skip :
    {i a : ℕ} {h needle : Text} {r : Option ℕ}
    → is_prefix needle (a ∷ h) ≡ false
    → Found (i + 1) h needle r
    → Found i (a ∷ h) needle r
Found-skip {i} {a} {h} {needle} {r} no_match (first k e here before) =
    first (suc k) (e ∙ ap some (omega arith)) here earlier
  where
    earlier : (j : ℕ) → j < suc k → is_prefix needle (drop j (a ∷ h)) ≡ false
    earlier zero lt = no_match
    earlier (suc j) lt = before j (omega arith)
Found-skip {i} {a} {h} {needle} no_match (absent e never) = absent e nowhere
  where
    nowhere : (j : ℕ) → is_prefix needle (drop j (a ∷ h)) ≡ false
    nowhere zero = no_match
    nowhere (suc j) = never j

drop-nil : (j : ℕ) (b : ℕ) (n : Text) → is_prefix (b ∷ n) (drop j []) ≡ false
drop-nil zero b n = refl
drop-nil (suc j) b n = refl

search_loop-Found :
    (i : ℕ) (haystack : Text) (b : ℕ) (n : Text)
    → Found i haystack (b ∷ n) (search_loop i haystack b n)
search_loop-Found i [] b n = absent refl (λ j. drop-nil j b n)
search_loop-Found i (a ∷ h) b n = elim (Bool-cases (is_prefix (b ∷ n) (a ∷ h))) [
  | inl match' ↦
      rw (place-is_prefix a h b n, match')
        (first 0 (ap some (omega arith)) match' (λ j lt. absurd (omega arith)))
  | inr no_match ↦
      rw (place-is_prefix a h b n, no_match) (Found-skip no_match (search_loop-Found (i + 1) h b n))
]

-- `strstr` answers the first place of the haystack at which the needle stands, and NULL where it stands at no
-- place. The empty needle stands at the first.
pub strstr-Found : (haystack needle : Text) → Found 0 haystack needle (strstr haystack needle)
unfolding strstr
strstr-Found haystack [] = first 0 refl refl (λ j lt. absurd (omega arith))
strstr-Found haystack (b ∷ n) = search_loop-Found 0 haystack b n
