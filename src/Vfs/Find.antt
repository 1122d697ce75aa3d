-- ===== src/Vfs/Find.antt =====
-- Which mount point `find_mount_point` chooses.
use lbos.Base.{
  ℕ, zero, suc, ◌+◌, ◌<◌, ◌≤◌, ◌≡◌, ◌≢◌, refl, ap, ◌∙◌, ◌⊎◌, inl, inr, Bool-cases, Bool, true,
  false, ◌&&◌, ◌||◌, Option, none, some, arith, length, get_or, ltb, ◌==◌, if◌then◌else◌,
}
use mathlib.Core.Path.{subst, sym}
use native.Mathlib.Decide.{ℕ_discrete}
use lbos.Text.{Text, strncmp}
use lbos.Text.Compare.{IsText, is_prefix, strncmp-is_prefix}
use lbos.Vfs.{Vfs, path_of, slash, choose, better, match_loop, find_mount_point}

-- A mount path leads to a path if it is the root and the path is absolute, or if it is not empty and the
-- path goes on behind it with a slash or ends there.
abbrev pub leads : Text → Text → Bool
leads mount_path path =
    let follows = get_or path (length mount_path) 0 in
    (length mount_path == 1 && get_or mount_path 0 0 == slash && get_or path 0 0 == slash)
    || (ltb 0 (length mount_path)
        && (is_prefix mount_path path && (follows == slash || follows == 0)))

choose-nothing :
    (root matches : Bool) (i n : ℕ)
    → (root ≡ true → n ≡ 1)
    → choose root matches i n (none, 0)
      ≡ (if root || (ltb 0 n && matches) then (some i, n) else (none, 0))
choose-nothing true matches i n h = ap (λ (k : ℕ). (some i, k)) (omega (arith, h refl))
choose-nothing false matches i n h = ground arith

choose-longest :
    (root matches : Bool) (i n b l : ℕ)
    → (root ≡ true → n ≡ 1)
    → 0 < l
    → choose root matches i n (some b, l)
      ≡ (if (root || (ltb 0 n && matches)) && ltb l n then (some i, n) else (some b, l))
choose-longest root matches i n b l h lt = ground arith

leads-length : (mount_path path : Text) → leads mount_path path ≡ true → 0 < length mount_path
leads-length mount_path path h = ground arith

below_suc {ℓ} : {P : ℕ → Type ℓ} {i : ℕ} → ((j : ℕ) → j < i → P j) → P i → (j : ℕ) → j < i + 1 → P j
below_suc {P} {i} h last j lt = elim (ℕ_discrete i j) [
  | yes e ↦ subst P e last
  | no n ↦ h j (omega arith)
]

true-ne-false : true ≢ false
true-ne-false e = cc

and_left : (a b : Bool) → (a && b) ≡ true → a ≡ true
and_left a b h = ground arith

and_right : (a b : Bool) → (a && b) ≡ true → b ≡ true
and_right a b h = ground arith

at_most : (n m b i : ℕ) → b < i → ltb m n ≡ false → (n < m) ⊎ ((n ≡ m) × (b ≤ i))
at_most n m b i lt h = ground arith

module _ {F : Type 0} (v : Vfs F) (path : Text) where
  abbrev pub len : ℕ → ℕ
  len i = length (path_of v i)

  -- Entry `b` is to be preferred over `j`.
  abbrev pub AtMost : ℕ → ℕ → Type 0
  AtMost j b = (len j < len b) ⊎ ((len j ≡ len b) × (b ≤ j))

  -- The longest mount path of the entries below `limit` that lead to the path, the first one of these.
  pub data Best (limit : ℕ) : Option ℕ × ℕ → Type 0 where
    nothing : ((j : ℕ) → j < limit → leads (path_of v j) path ≡ false) → Best limit (none, 0)
    longest :
        (b : ℕ)
        → b < limit
        → leads (path_of v b) path ≡ true
        → ((j : ℕ) → j < limit → leads (path_of v j) path ≡ true → AtMost j b)
        → Best limit (some b, len b)

  abbrev root : ℕ → Bool
  root i = len i == 1 && get_or (path_of v i) 0 0 == slash && get_or path 0 0 == slash

  abbrev goes_on : ℕ → Bool
  goes_on i =
      let follows = get_or path (len i) 0 in
      is_prefix (path_of v i) path && (follows == slash || follows == 0)

  root_length : (i : ℕ) → root i ≡ true → len i ≡ 1
  root_length i h = ground arith

  module _ (i : ℕ)
      (e : (strncmp path (path_of v i) (len i) == 0) ≡ is_prefix (path_of v i) path) where
    better-nothing :
        better v path i (none, 0)
        ≡ (if leads (path_of v i) path then (some i, len i) else (none, 0))
    better-nothing = rw e (choose-nothing (root i) (goes_on i) i (len i) (root_length i))

    better-longest :
        (b : ℕ)
        → 0 < len b
        → better v path i (some b, len b) ≡ (
            if leads (path_of v i) path && ltb (len b) (len i)
            then (some i, len i)
            else (some b, len b))
    better-longest b lt =
        rw e (choose-longest (root i) (goes_on i) i (len i) b (len b) (root_length i) lt)

    longer : (j b : ℕ) → AtMost j b → ltb (len b) (len i) ≡ true → AtMost j i
    longer j b h lt = inl (ground (arith, h))

    not_longer :
        (b : ℕ)
        → b < i
        → leads (path_of v i) path ≡ true
        → (leads (path_of v i) path && ltb (len b) (len i)) ≡ false
        → AtMost i b
    not_longer b lt is h =
        at_most (len i) (len b) b i lt (ap (λ (t : Bool). t && ltb (len b) (len i)) (sym is) ∙ h)

    better-Best : (best : Option ℕ × ℕ) → Best i best → Best (i + 1) (better v path i best)
    better-Best best (nothing none_yet) = elim (Bool-cases (leads (path_of v i) path)) [
      | inl fits ↦
          rw (better-nothing, fits)
            (longest i (omega arith) fits (
              below_suc {P = λ j. leads (path_of v j) path ≡ true → AtMost j i}
                (λ j lt is. absurd (true-ne-false (sym is ∙ none_yet j lt)))
                (λ is. inr (refl, omega arith))))
      | inr misfits ↦ rw (better-nothing, misfits) (nothing (below_suc none_yet misfits))
    ]
    better-Best best (longest b lt is most) =
        elim (Bool-cases (leads (path_of v i) path && ltb (len b) (len i))) [
          | inl fits ↦
              rw (better-longest b (leads-length _ path is), fits)
                (longest i (omega arith) (and_left _ _ fits) (
                  below_suc {P = λ j. leads (path_of v j) path ≡ true → AtMost j i}
                    (λ j lt is. longer j b (most j lt is) (and_right _ _ fits))
                    (λ is. inr (refl, omega arith))))
          | inr misfits ↦
              rw (better-longest b (leads-length _ path is), misfits)
                (longest b (omega arith) is (
                  below_suc {P = λ j. leads (path_of v j) path ≡ true → AtMost j b} most
                    (λ is. not_longer b lt is misfits)))
        ]

  match_loop-Best :
      (rounds i limit : ℕ) (best : Option ℕ × ℕ)
      → IsText path
      → ((j : ℕ) → j < limit → IsText (path_of v j))
      → i + rounds ≡ limit
      → Best i best
      → Best limit (match_loop v path rounds i best)
  match_loop-Best zero i limit best x xs e h = subst (λ (n : ℕ). Best n best) (omega arith) h
  match_loop-Best (suc rounds) i limit best x xs e h =
      match_loop-Best rounds (i + 1) limit (better v path i best) x xs (omega arith)
        (better-Best i (strncmp-is_prefix path (path_of v i) x (xs i (omega arith))) best h)

  -- What the answer tells of the mounted entries.
  abbrev pub Answers : Option ℕ → Type 0
  Answers none = (j : ℕ) → j < v.num_mount_points → leads (path_of v j) path ≡ false
  Answers (some b) =
      (b < v.num_mount_points)
      × (leads (path_of v b) path ≡ true)
      × ((j : ℕ) → j < v.num_mount_points → leads (path_of v j) path ≡ true → AtMost j b)

  Best-Answers : (r : Option ℕ × ℕ) → Best v.num_mount_points r → Answers r.0
  Best-Answers r (nothing none_yet) = none_yet
  Best-Answers r (longest b lt is most) = (lt, is, most)

  -- `find_mount_point` answers, of the mounted entries whose path leads to the given path, the one with
  -- the longest path, the first of these if there are several, and NULL only if no entry leads there.
  -- The paths are strings.
  pub find_mount_point-Answers :
      IsText path
      → ((j : ℕ) → j < v.num_mount_points → IsText (path_of v j))
      → Answers (find_mount_point v path)
  unfolding find_mount_point
  find_mount_point-Answers x xs =
      let start : Best 0 (none, 0) = nothing (λ j lt. absurd (omega arith)) in
      Best-Answers _
        (match_loop-Best v.num_mount_points 0 v.num_mount_points (none, 0) x xs (omega arith) start)
