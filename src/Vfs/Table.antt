-- ===== src/Vfs/Table.antt =====
-- The arrays of fs/vfs.c: reading after a write and after the loop that moves entries down.
use lbos.Base.{
  ℕ, zero, suc, ◌+◌, ◌<◌, ◌≤◌, ◌≡◌, ◌≢◌, Option-cases, refl, ap, ◌∙◌, List, [], some, none, arith,
  length, length-set, get_or, get_or-set, set, ltb, leb, ◌==◌, ◌&&◌, if◌then◌else◌, Bool,
  Bool-cases, false, inl, inr,
}
use mathlib.Core.Path.{subst, sym}
use mathlib.Core.Option.{Option, some-injective}
use native.Mathlib.Decide.{ℕ_discrete}
use lbos.Text.{Text, strcmp}
use lbos.Text.Compare.{IsText, strcmp_refl, strcmp-eq}
use lbos.Vfs.{Vfs, mount_at, path_of, find_path, move_down, null_mount_point, max_mount_points}

-- `for (j = i; j < i + rounds; j++) xs[j] = xs[j + 1]`
abbrev pub shift {ℓ} : {A : Type ℓ} → ℕ → ℕ → A → List A → List A
shift zero i d xs = xs
shift (suc rounds) i d xs = shift rounds (i + 1) d (set xs i (get_or xs (i + 1) d))

pub get_or-shift {ℓ} :
    {A : Type ℓ} (rounds i : ℕ) (d : A) (xs : List A) (j : ℕ)
    → i + rounds ≤ length xs
    → get_or (shift rounds i d xs) j d
      ≡ (if leb i j && ltb j (i + rounds) then get_or xs (j + 1) d else get_or xs j d)
get_or-shift zero i d xs j h = ground arith
get_or-shift (suc rounds) i d xs j h =
    let ys = set xs i (get_or xs (i + 1) d) in
    ground (
      arith,
      get_or-shift rounds (i + 1) d ys j (omega (arith, length-set xs i (get_or xs (i + 1) d))),
      get_or-set xs i j (get_or xs (i + 1) d) d (omega arith),
      get_or-set xs i (j + 1) (get_or xs (i + 1) d) d (omega arith),
    )

module _ {F : Type 0} where
  pub mounts-move_down :
      (rounds i : ℕ) (v : Vfs F)
      → (move_down rounds i v).mount_points ≡ shift rounds i null_mount_point v.mount_points
  mounts-move_down zero i v = refl
  mounts-move_down (suc rounds) i v = mounts-move_down rounds (i + 1) _

  pub paths-move_down :
      (rounds i : ℕ) (v : Vfs F)
      → (move_down rounds i v).path_buffers ≡ shift rounds i [] v.path_buffers
  paths-move_down zero i v = refl
  paths-move_down (suc rounds) i v = paths-move_down rounds (i + 1) _

  -- What `mount_fs` makes of an empty table, and keeps: entry `j` points at buffer `j`, which holds a string.
  pub record IsTable (v : Vfs F) : Type 0 where
    pub bounded : v.num_mount_points ≤ max_mount_points
    pub mounts : length v.mount_points ≡ max_mount_points
    pub buffers : length v.path_buffers ≡ max_mount_points
    pub pointers : (j : ℕ) → j < v.num_mount_points → (mount_at v j).path ≡ j
    pub texts : (j : ℕ) → j < v.num_mount_points → IsText (path_of v j)

  -- The search answers the first entry with the path.
  pub record Finds (v : Vfs F) (path : Text) (first limit i : ℕ) : Type 0 where
    pub from : first ≤ i
    pub below : i < limit
    pub same : strcmp (path_of v i) path ≡ 0
    pub earlier : (j : ℕ) → first ≤ j → j < i → (strcmp (path_of v j) path == 0) ≡ false

  find_path-some :
      (v : Vfs F) (path : Text) (rounds first limit i : ℕ)
      → first + rounds ≡ limit
      → find_path v path rounds first ≡ some i
      → Finds v path first limit i
  find_path-some v path zero first limit i e found = cc
  find_path-some v path (suc rounds) first limit i e found =
      elim (Bool-cases (strcmp (path_of v first) path == 0)) [
        | inl here ↦
            let at_first = some-injective first i (ap taken (sym here) ∙ found) in
            subst (Finds v path first limit) at_first (record {
              from = omega arith;
              below = omega arith;
              same = ground arith;
              earlier = λ j lo hi. absurd (omega arith);
            })
        | inr other ↦
            let f =
              find_path-some v path rounds (first + 1) limit i (omega arith)
                (ap taken (sym other) ∙ found) in
            record {
              from = omega (arith, f.from);
              below = f.below;
              same = f.same;
              earlier = λ j lo hi. elim (ℕ_discrete first j) [
                | yes e ↦ subst (λ k. (strcmp (path_of v k) path == 0) ≡ false) e other
                | no n ↦ f.earlier j (omega arith) hi
              ];
            }
      ]
    where
      taken : Bool → Option ℕ
      taken b = if b then some first else find_path v path rounds (first + 1)

  pub find_path-none :
      (v : Vfs F) (path : Text) (rounds first : ℕ)
      → find_path v path rounds first ≡ none
      → (j : ℕ) → first ≤ j
      → j < first + rounds
      → (strcmp (path_of v j) path == 0) ≡ false
  find_path-none v path zero first gone j lo hi = absurd (omega arith)
  find_path-none v path (suc rounds) first gone j lo hi =
      elim (Bool-cases (strcmp (path_of v first) path == 0)) [
        | inl here ↦ absurd (some-ne-none (ap taken (sym here) ∙ gone))
        | inr other ↦ elim (ℕ_discrete first j) [
          | yes e ↦ subst (λ k. (strcmp (path_of v k) path == 0) ≡ false) e other
          | no n ↦
              find_path-none v path rounds (first + 1) (ap taken (sym other) ∙ gone) j (omega arith)
                (omega arith)
        ]
      ]
    where
      taken : Bool → Option ℕ
      taken b = if b then some first else find_path v path rounds (first + 1)

      some-ne-none : some first ≢ none
      some-ne-none e = cc

  -- The first entry with the path, or none that has it.
  pub data Locates (v : Vfs F) (path : Text) (r : Option ℕ) : Type 0 where
    at :
        (i : ℕ)
        → i < v.num_mount_points
        → path_of v i ≡ path
        → ((j : ℕ) → j < i → path_of v j ≢ path)
        → r ≡ some i
        → Locates v path r
    nowhere : ((j : ℕ) → j < v.num_mount_points → path_of v j ≢ path) → r ≡ none → Locates v path r

  other_path :
      (v : Vfs F) (path : Text) (j : ℕ)
      → (strcmp (path_of v j) path == 0) ≡ false
      → path_of v j ≢ path
  other_path v path j other e =
      let same : strcmp path path ≡ 0 = strcmp_refl path in
      let same' : strcmp (path_of v j) path ≡ 0 = ap (λ (t : Text). strcmp t path) e ∙ same in
      ground arith

  pub find_path-Locates :
      (v : Vfs F) (path : Text)
      → IsTable v
      → IsText path
      → Locates v path (find_path v path v.num_mount_points 0)
  find_path-Locates v path t x = elim (Option-cases (find_path v path v.num_mount_points 0)) [
    | inl gone ↦
        nowhere
          (λ j lt.
            other_path v path j
              (find_path-none v path v.num_mount_points 0 gone j (omega arith) (omega arith)))
          gone
    | inr (i, found) ↦
        let f =
          find_path-some v path v.num_mount_points 0 v.num_mount_points i (omega arith) found in
        at i f.below (strcmp-eq (path_of v i) path (t.texts i f.below) x f.same)
          (λ j lt. other_path v path j (f.earlier j (omega arith) lt)) found
  ]
