-- ===== src/Vfs/Calls.antt =====
-- The calls of fs/vfs.c that go through a mount point to the file system behind it.
use lbos.Base.{ℕ, Option, none, some}
use lbos.Kernel.{minus_one}
use lbos.Text.{Text}
use lbos.Vfs.{
  Vfs, FsOps, OnDescriptor, OnPath, mount_at, find_mount_point, find_mount_point_by_inode,
}

-- A call with no mount point, or with NULL for the operation, fails.
abbrev pub call_or : {A B : Type 0} → (A → B) → B → Option A → B
call_or call failed none = failed
call_or call failed (some op) = call op

module _ {F : Type 0} (v : Vfs F) where
  abbrev ops_of : {A : Type 0} → (FsOps F → Option A) → Option ℕ → Option A
  ops_of member none = none
  ops_of member (some i) = member ((mount_at v i).ops)

  abbrev on_descriptor : {A : Type 0} → (FsOps F → Option A) → (A → OnDescriptor F) → OnDescriptor F
  on_descriptor member call fd fs =
      call_or (λ op. call op fd fs) (minus_one, fd, fs)
        (ops_of member (find_mount_point_by_inode v fd.inode))

  abbrev on_path : (FsOps F → Option (OnPath F)) → OnPath F
  on_path member path fs =
      call_or (λ op. op path fs) (minus_one, fs) (ops_of member (find_mount_point v path))

  unfoldable pub open_file : Text → OnDescriptor F
  unfolding find_mount_point
  open_file path fd fs =
      call_or (λ op. op path fd fs) (minus_one, fd, fs)
        (ops_of (λ o. o.on_open) (find_mount_point v path))

  unfoldable pub close_file : OnDescriptor F
  unfolding find_mount_point_by_inode
  close_file = on_descriptor (λ o. o.close) (λ op. op)

  unfoldable pub read_file : ℕ → ℕ → OnDescriptor F
  unfolding find_mount_point_by_inode
  read_file buffer size = on_descriptor (λ o. o.read) (λ op. op buffer size)

  unfoldable pub write_file : ℕ → ℕ → OnDescriptor F
  unfolding find_mount_point_by_inode
  write_file buffer size = on_descriptor (λ o. o.write) (λ op. op buffer size)

  unfoldable pub seek_file : ℕ → OnDescriptor F
  unfolding find_mount_point_by_inode
  seek_file offset = on_descriptor (λ o. o.seek) (λ op. op offset)

  unfoldable pub read_directory : ℕ → ℕ → OnDescriptor F
  unfolding find_mount_point_by_inode
  read_directory name size = on_descriptor (λ o. o.readdir) (λ op. op name size)

  unfoldable pub create_directory : OnPath F
  unfolding find_mount_point
  create_directory = on_path (λ o. o.mkdir)

  unfoldable pub remove_directory : OnPath F
  unfolding find_mount_point
  remove_directory = on_path (λ o. o.rmdir)

  unfoldable pub create_file : OnPath F
  unfolding find_mount_point
  create_file = on_path (λ o. o.create)

  unfoldable pub delete_file : OnPath F
  unfolding find_mount_point
  delete_file = on_path (λ o. o.unlink)
