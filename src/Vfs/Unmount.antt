-- ===== src/Vfs/Unmount.antt =====
-- What `unmount_fs` leaves in the table.
use lbos.Base.{
  ℕ, ◌+◌, ◌-◌, ◌<◌, ◌≡◌, ◌≢◌, refl, ap, ◌∙◌, List, [], some, arith, get_or, ltb, leb, ◌&&◌,
  if◌then◌else◌,
}
use lbos.Text.{Text}
use lbos.Vfs.{
  MountPoint, Vfs, mount_at, path_of, buffer_at, move_down, null_mount_point, unmount_fs,
  remove_mount,
}
use lbos.Kernel.{minus_one}
use lbos.Text.Compare.{IsText}
use lbos.Vfs.Table.{
  IsTable, get_or-shift, mounts-move_down, paths-move_down, at, nowhere, find_path-Locates,
}

-- What `unmount_fs` leaves when it finds entry `i`: the entries above move one place down, but entry
-- `j` still points at buffer `j + 1`, whose text the loop has replaced unless it is the last one.
pub record Unmounts {F : Type 0} (v : Vfs F) (i : ℕ) (r : ℕ × Vfs F) : Type 0 where
  pub answer : r.0 ≡ 0
  pub count : r.1.num_mount_points + 1 ≡ v.num_mount_points
  pub mounts :
      (j : ℕ)
      → j < r.1.num_mount_points
      → mount_at r.1 j ≡ (if leb i j then mount_at v (j + 1) else mount_at v j)
  pub paths :
      (j : ℕ)
      → j < r.1.num_mount_points
      → path_of r.1 j ≡ (
          if leb i j
          then (if ltb (j + 2) v.num_mount_points then path_of v (j + 2) else path_of v (j + 1))
          else path_of v j)

module _ {F : Type 0} (v : Vfs F) (t : IsTable v) (path : Text) where
  module _ (i : ℕ) (lt : i < v.num_mount_points) where
    abbrev rounds : ℕ
    rounds = v.num_mount_points - 1 - i

    abbrev moved : Vfs F
    moved = move_down rounds i v

    mount-moved :
        (j : ℕ)
        → j + 1 < v.num_mount_points
        → mount_at moved j ≡ (if leb i j then mount_at v (j + 1) else mount_at v j)
    mount-moved j h =
        ap (λ (xs : List (MountPoint F)). get_or xs j null_mount_point)
          (mounts-move_down rounds i v)
        ∙ ground (
          arith,
          t.bounded,
          t.mounts,
          get_or-shift rounds i null_mount_point v.mount_points j
              (omega (arith, t.bounded, t.mounts)),
        )

    buffer-moved :
        (k : ℕ)
        → k < v.num_mount_points
        → buffer_at moved.path_buffers k ≡ (
            if leb i k && ltb (k + 1) v.num_mount_points
            then buffer_at v.path_buffers (k + 1)
            else buffer_at v.path_buffers k)
    buffer-moved k h =
        ap (λ (xs : List Text). get_or xs k []) (paths-move_down rounds i v)
        ∙ ground (
          arith,
          t.bounded,
          t.buffers,
          get_or-shift rounds i [] v.path_buffers k (omega (arith, t.bounded, t.buffers)),
        )

    pointer-moved :
        (j : ℕ)
        → j + 1 < v.num_mount_points
        → (mount_at moved j).path ≡ (if leb i j then j + 1 else j)
    pointer-moved j h =
        ap (λ (x : MountPoint F). x.path) (mount-moved j h)
        ∙ ground (arith, t.pointers j (omega arith), t.pointers (j + 1) h)

    text_of : (k : ℕ) → k < v.num_mount_points → path_of v k ≡ buffer_at v.path_buffers k
    text_of k h = ap (buffer_at v.path_buffers) (t.pointers k h)

    path-moved :
        (j : ℕ)
        → j + 1 < v.num_mount_points
        → path_of moved j ≡ (
            if leb i j
            then (if ltb (j + 2) v.num_mount_points then path_of v (j + 2) else path_of v (j + 1))
            else path_of v j)
    path-moved j h =
        ap (buffer_at moved.path_buffers) (pointer-moved j h)
        ∙ ground (
          arith,
          buffer-moved j (omega arith),
          buffer-moved (j + 1) h,
          text_of j (omega arith),
          text_of (j + 1) h,
          text_of (j + 2),
        )

    remove_mount-Unmounts : Unmounts v i (remove_mount v (some i))
    remove_mount-Unmounts = record {
      answer = refl;
      count = omega arith;
      mounts = λ j h. mount-moved j (omega arith);
      paths = λ j h. path-moved j (omega arith);
    }

  -- What `unmount_fs` answers: the first entry with the path goes, or none has it.
  pub data Removes (r : ℕ × Vfs F) : Type 0 where
    removed :
        (i : ℕ)
        → i < v.num_mount_points
        → path_of v i ≡ path
        → ((j : ℕ) → j < i → path_of v j ≢ path)
        → Unmounts v i r
        → Removes r
    unknown :
        ((j : ℕ) → j < v.num_mount_points → path_of v j ≢ path) → r ≡ (minus_one, v) → Removes r

  -- In a table as `mount_fs` makes it, and with a string for a path: `unmount_fs` removes the first entry that shows
  -- that path and answers 0; the entries above move one place down, each with its file system, and the ones below
  -- stay. But an entry that moved shows the path of the entry above its own, if there was one. If no entry shows the
  -- path it answers -1 and changes nothing.
  pub unmount_fs-Removes : IsText path → Removes (unmount_fs v path)
  unfolding unmount_fs
  unmount_fs-Removes x = elim (find_path-Locates v path t x) [
    | at i lt same first found ↦ rw found (removed i lt same first (remove_mount-Unmounts i lt))
    | nowhere fresh found ↦ rw found (unknown fresh refl)
  ]
