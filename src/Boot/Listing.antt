-- ===== src/Boot/Listing.antt =====
-- Listing the root directory of a mounted initrd.
use lbos.Base.{ℕ, ◌+◌, ◌≤◌, ◌<◌, ◌≡◌, ◌⊎◌, Option, sub32, add32}
use lbos.Memory.{Ram, write8, strncpy}
use lbos.Process.Create.{Layout}
use lbos.Vfs.{Vfs, Descriptor, mount_at}
use lbos.Initrd.{Initrd, file_at, get_initrd_ops}
use lbos.Boot.{Boot, files_of, with_files, list_loop}

-- The memory after an entry was copied to `name`.
abbrev copied : Initrd → ℕ → Ram
copied r name =
    write8 (strncpy r.ram name (file_at r r.current_file) (sub32 64 1)) (name + sub32 64 1) 0

-- The initrd is the first file system that was mounted.
pub record IsMounted (v : Vfs Initrd) : Type 0 where
  pub some_mount : 0 < v.num_mount_points
  pub first : (mount_at v 0).ops ≡ get_initrd_ops

-- After a listing: the cursor is back at the first file, and nothing has changed but the buffer.
pub record Listed (name : ℕ) (b b' : Boot) : Type 0 where
  pub rewound : b'.fs.current_file ≡ 0
  pub header : b'.fs.initrd_header ≡ b.fs.initrd_header
  pub memory : (a : ℕ) → (a < name) ⊎ (name + 64 ≤ a) → b'.kernel.mem.ram a ≡ b.kernel.mem.ram a
  pub processes : b'.kernel.processes ≡ b.kernel.processes
  pub mounts : b'.vfs ≡ b.vfs

module _ (layout : Layout) (buffer name tss temp_header temp_data : ℕ) (entry_of : ℕ → ℕ)
    (fd' : Descriptor) (rounds : ℕ) where
  abbrev list : ℕ → Descriptor → Boot → Option (Descriptor × Boot)
  list = list_loop layout buffer name tss temp_header temp_data entry_of fd' rounds

  abbrev stepped : Boot → Boot
  stepped b =
      with_files
        (record (files_of b) {
          ram = copied (files_of b) name;
          current_file = add32 b.fs.current_file 1;
        })
        b
