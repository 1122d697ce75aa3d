-- ===== src/Vfs.antt =====
-- fs/vfs.c: the mount table and the calls that go through it. The file systems behind it share a
-- state `F`. A path pointer of an entry is an index of `path_buffers`.
pub mod Calls
pub mod Table
pub mod Mount
pub mod Find
pub mod Unmount
use lbos.Base.{
  ℕ, zero, suc, ◌+◌, ◌-◌, Bool, Option, none, some, List, [], ◌∷◌, ◌==◌, ◌&&◌, ◌||◌, ltb, leb,
  if◌then◌else◌, length, take, set, get_or, replicate,
}
use lbos.Kernel.{minus_one}
use lbos.Text.{Text, strcmp, strncmp}

abbrev pub max_mount_points : ℕ
max_mount_points = 8

abbrev pub max_path_len : ℕ
max_path_len = 256

-- `fs_descriptor_t`
pub record Descriptor : Type 0 where
  pub inode : ℕ
  pub position : ℕ
  pub type : ℕ
  pub size : ℕ
  pub permissions : ℕ

-- An answer, the descriptor, and the state of the file systems.
abbrev pub OnDescriptor : Type 0 → Type 0
OnDescriptor F = Descriptor → F → ℕ × Descriptor × F

abbrev pub OnPath : Type 0 → Type 0
OnPath F = Text → F → ℕ × F

-- `fs_ops_t`; a function pointer may be NULL. `on_open` is `open`, a reserved word here.
pub record FsOps (F : Type 0) : Type 0 where
  pub on_open : Option (Text → OnDescriptor F)
  pub close : Option (OnDescriptor F)
  pub read : Option (ℕ → ℕ → OnDescriptor F)
  pub write : Option (ℕ → ℕ → OnDescriptor F)
  pub seek : Option (ℕ → OnDescriptor F)
  pub readdir : Option (ℕ → ℕ → OnDescriptor F)
  pub mkdir : Option (OnPath F)
  pub rmdir : Option (OnPath F)
  pub create : Option (OnPath F)
  pub unlink : Option (OnPath F)
  pub mount : Option (Text → OnPath F)
  pub unmount : Option (OnPath F)

pub record MountPoint (F : Type 0) : Type 0 where
  pub path : ℕ
  pub device : ℕ
  pub ops : FsOps F
  pub private_data : ℕ

pub record Vfs (F : Type 0) : Type 0 where
  pub mount_points : List (MountPoint F)
  pub num_mount_points : ℕ
  pub path_buffers : List Text
  pub device_buffers : List Text

abbrev pub buffer_at : List Text → ℕ → Text
buffer_at buffers i = get_or buffers i []

-- `strncpy` of at most 255 characters, and a terminator.
abbrev pub bounded : Text → Text
bounded path = take (max_path_len - 1) path

abbrev pub slash : ℕ
slash = 47

-- The tests of one round of `find_mount_point`: whether entry `i` is the root and the path absolute, and
-- whether the path begins with the mount path and a name ends there.
abbrev pub choose : (root matches : Bool) → (i mount_path_len : ℕ) → Option ℕ × ℕ → Option ℕ × ℕ
choose root matches i mount_path_len (best_match, best_match_len) =
    if root
    then (if best_match_len == 0 then (some i, 1) else (best_match, best_match_len))
    else if matches && ltb best_match_len mount_path_len
    then (some i, mount_path_len)
    else (best_match, best_match_len)

module _ {F : Type 0} where
  -- An entry at `num_mount_points` or above: its pointers are NULL and never read.
  abbrev pub null_mount_point : MountPoint F
  null_mount_point = record {
    path = 0;
    device = 0;
    ops = record {
      on_open = none;
      close = none;
      read = none;
      write = none;
      seek = none;
      readdir = none;
      mkdir = none;
      rmdir = none;
      create = none;
      unlink = none;
      mount = none;
      unmount = none;
    };
    private_data = 0;
  }

  unfoldable pub init_vfs : Vfs F → Vfs F
  init_vfs v = record v {
    num_mount_points = 0;
    mount_points = replicate max_mount_points null_mount_point;
  }

  abbrev pub mount_at : Vfs F → ℕ → MountPoint F
  mount_at v i = get_or v.mount_points i null_mount_point

  -- The text behind `mount_points[i].path`.
  abbrev pub path_of : Vfs F → ℕ → Text
  path_of v i = buffer_at v.path_buffers (mount_at v i).path

  -- The first entry of the `rounds` entries from `i` on whose path is `path`.
  abbrev pub find_path : Vfs F → Text → ℕ → ℕ → Option ℕ
  find_path v path zero i = none
  find_path v path (suc rounds) i =
      let rest = find_path v path rounds (i + 1) in
      if strcmp (path_of v i) path == 0 then some i else rest

  -- The entry behind the last one is filled.
  abbrev pub add_mount : Vfs F → Text → Text → FsOps F → ℕ → Vfs F
  add_mount v path device ops private_data =
      let idx = v.num_mount_points in
      let entry : MountPoint F = record {
        path = idx;
        device = idx;
        ops = ops;
        private_data = private_data;
      } in
      record {
        mount_points = set v.mount_points idx entry;
        num_mount_points = idx + 1;
        path_buffers = set v.path_buffers idx (bounded path);
        device_buffers = set v.device_buffers idx (bounded device);
      }

  abbrev pub mount_unless : Vfs F → Vfs F → Option ℕ → ℕ × Vfs F
  mount_unless v added none = (0, added)
  mount_unless v added (some i) = (minus_one, v)

  unfoldable pub mount_fs : Vfs F → Text → Text → FsOps F → ℕ → ℕ × Vfs F
  unfolding strcmp
  mount_fs v path device ops private_data =
      let found = find_path v path v.num_mount_points 0 in
      if leb max_mount_points v.num_mount_points
      then (minus_one, v)
      else mount_unless v (add_mount v path device ops private_data) found

  -- `for (j = first; j < first + rounds; j++)`: entries and buffers move one place down.
  abbrev pub move_down : ℕ → ℕ → Vfs F → Vfs F
  move_down zero j v = v
  move_down (suc rounds) j v = move_down rounds (j + 1) (record v {
    mount_points = set v.mount_points j (mount_at v (j + 1));
    path_buffers = set v.path_buffers j (buffer_at v.path_buffers (j + 1));
    device_buffers = set v.device_buffers j (buffer_at v.device_buffers (j + 1));
  })

  abbrev pub remove_mount : Vfs F → Option ℕ → ℕ × Vfs F
  remove_mount v none = (minus_one, v)
  remove_mount v (some i) =
      let moved = move_down (v.num_mount_points - 1 - i) i v in
      (0, record moved { num_mount_points = v.num_mount_points - 1 })

  unfoldable pub unmount_fs : Vfs F → Text → ℕ × Vfs F
  unfolding strcmp
  unmount_fs v path = remove_mount v (find_path v path v.num_mount_points 0)

  -- One entry against the best match so far, which is an index and a length.
  abbrev pub better : Vfs F → Text → ℕ → Option ℕ × ℕ → Option ℕ × ℕ
  better v path i best =
      let mount_path = path_of v i in
      let mount_path_len = length mount_path in
      let follows = get_or path mount_path_len 0 in
      choose (mount_path_len == 1 && get_or mount_path 0 0 == slash && get_or path 0 0 == slash)
        (strncmp path mount_path mount_path_len == 0 && (follows == slash || follows == 0)) i
        mount_path_len best

  abbrev pub match_loop : Vfs F → Text → ℕ → ℕ → Option ℕ × ℕ → Option ℕ × ℕ
  match_loop v path zero i best = best
  match_loop v path (suc rounds) i best = match_loop v path rounds (i + 1) (better v path i best)

  unfoldable pub find_mount_point : Vfs F → Text → Option ℕ
  unfolding strncmp
  find_mount_point v path = (match_loop v path v.num_mount_points 0 (none, 0)).0

  -- The argument is not used.
  unfoldable pub find_mount_point_by_inode : Vfs F → ℕ → Option ℕ
  find_mount_point_by_inode v inode = if ltb 0 v.num_mount_points then some 0 else none
