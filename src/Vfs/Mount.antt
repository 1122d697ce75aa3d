-- ===== src/Vfs/Mount.antt =====
-- What `mount_fs` adds to the table.
use lbos.Base.{
  ℕ, ◌+◌, ◌<◌, ◌≡◌, ◌≢◌, Bool-cases, inl, inr, sym, refl, ap, ◌∙◌, arith, length-set, [], leb, ◌==◌,
  if◌then◌else◌,
}
use mathlib.Core.Path.{subst}
use native.Mathlib.Decide.{ℕ_discrete}
use lbos.Text.{Text}
use lbos.Vfs.{
  Vfs, FsOps, MountPoint, path_of, mount_at, bounded, buffer_at, null_mount_point, max_mount_points,
  add_mount, mount_fs,
}
use lbos.Kernel.{minus_one}
use lbos.Text.Compare.{IsText, IsText-take}
use lbos.Vfs.Table.{IsTable, at, nowhere, find_path-Locates}
use lbos.Base.{get_or-set}

-- The table with one more entry, behind the others.
pub record Adds {F : Type 0} (v : Vfs F) (path : Text) (ops : FsOps F) (r : ℕ × Vfs F)
    : Type 0 where
  pub answer : r.0 ≡ 0
  pub count : r.1.num_mount_points ≡ v.num_mount_points + 1
  pub table : IsTable r.1
  pub text : path_of r.1 v.num_mount_points ≡ bounded path
  pub system : (mount_at r.1 v.num_mount_points).ops ≡ ops
  pub others :
      (j : ℕ)
      → j < v.num_mount_points
      → (mount_at r.1 j ≡ mount_at v j) × (path_of r.1 j ≡ path_of v j)

module _ {F : Type 0} (v : Vfs F) (path device : Text) (ops : FsOps F) (private_data : ℕ) where
  abbrev added : Vfs F
  added = add_mount v path device ops private_data

  module _ (t : IsTable v) (room : v.num_mount_points < max_mount_points) where
    abbrev entry : MountPoint F
    entry = record {
      path = v.num_mount_points;
      device = v.num_mount_points;
      ops = ops;
      private_data = private_data;
    }

    mount-added :
        (j : ℕ) → mount_at added j ≡ (if v.num_mount_points == j then entry else mount_at v j)
    mount-added j =
        get_or-set v.mount_points v.num_mount_points j entry null_mount_point
          (omega (arith, t.mounts))

    buffer-added :
        (j : ℕ)
        → buffer_at added.path_buffers j
          ≡ (if v.num_mount_points == j then bounded path else buffer_at v.path_buffers j)
    buffer-added j =
        get_or-set v.path_buffers v.num_mount_points j (bounded path) [] (omega (arith, t.buffers))

    pointer-added : (j : ℕ) → j < v.num_mount_points + 1 → (mount_at added j).path ≡ j
    pointer-added j h =
        ap (λ (x : MountPoint F). x.path) (mount-added j) ∙ ground (arith, t.pointers j)

    IsText-added : IsText path → (j : ℕ) → j < v.num_mount_points + 1 → IsText (path_of added j)
    IsText-added x j h = elim (ℕ_discrete v.num_mount_points j) [
      | yes e ↦
          let here : path_of added j ≡ bounded path =
            ap (buffer_at added.path_buffers) (pointer-added j h)
            ∙ ground (arith, buffer-added j) in
          subst IsText (sym here) (IsText-take 255 path x)
      | no n ↦
          let lt : j < v.num_mount_points = omega (arith, n) in
          let kept : path_of added j ≡ path_of v j =
            ap (buffer_at added.path_buffers) (pointer-added j h)
            ∙ ground (arith, buffer-added j, ap (buffer_at v.path_buffers) (t.pointers j lt)) in
          subst IsText (sym kept) (t.texts j lt)
    ]

    add_mount-Adds : IsText path → Adds v path ops (0, added)
    add_mount-Adds x = record {
      answer = refl;
      count = refl;
      table = record {
        bounded = omega arith;
        mounts = length-set v.mount_points v.num_mount_points entry ∙ t.mounts;
        buffers = length-set v.path_buffers v.num_mount_points (bounded path) ∙ t.buffers;
        pointers = pointer-added;
        texts = IsText-added x;
      };
      text =
          ap (buffer_at added.path_buffers) (pointer-added v.num_mount_points (omega arith))
          ∙ ground (arith, buffer-added v.num_mount_points);
      system = ap (λ (x : MountPoint F). x.ops) (mount-added v.num_mount_points) ∙ ground arith;
      others = λ j lt. (
        ground (arith, mount-added j),
        ap (buffer_at added.path_buffers) (pointer-added j (omega arith))
            ∙ ground (arith, buffer-added j, ap (buffer_at v.path_buffers) (t.pointers j lt)),
      );
    }

  -- What `mount_fs` answers: the entry is added, the table is full, or the path is taken.
  pub data Mounts (r : ℕ × Vfs F) : Type 0 where
    mounted :
        v.num_mount_points < max_mount_points
        → ((j : ℕ) → j < v.num_mount_points → path_of v j ≢ path)
        → Adds v path ops r
        → Mounts r
    full : v.num_mount_points ≡ max_mount_points → r ≡ (minus_one, v) → Mounts r
    taken : (i : ℕ) → i < v.num_mount_points → path_of v i ≡ path → r ≡ (minus_one, v) → Mounts r

  -- In a well-formed table, with a string for a path: if there is room and no entry has the path, `mount_fs` adds one
  -- entry, with the file system and the first 255 characters of the path, answers 0, and changes no other entry, and
  -- the table stays well-formed. If the table is full or an entry has the path, it answers -1 and changes nothing.
  pub mount_fs-Mounts : IsTable v → IsText path → Mounts (mount_fs v path device ops private_data)
  unfolding mount_fs
  mount_fs-Mounts t x = elim (Bool-cases (leb max_mount_points v.num_mount_points)) [
    | inl no_room ↦ rw no_room (full (ground (arith, t.bounded)) refl)
    | inr has_room ↦ rw has_room (elim (find_path-Locates v path t x) [
      | at i lt same first found ↦ rw found (taken i lt same refl)
      | nowhere fresh found ↦
          rw found (mounted (ground arith) fresh (add_mount-Adds t (ground arith) x))
    ])
  ]
