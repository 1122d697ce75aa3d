-- ===== src/Examples/Files.antt =====
-- fs/vfs.c with three file systems, and fs/initrd.c on a module with one file.
use lbos.Base.{
  ℕ, zero, suc, ◌+◌, ◌<◌, ◌≡◌, refl, inr, [], ◌∷◌, arith, ◌==◌, if◌then◌else◌, replicate,
}
use lbos.Memory.{load32}
use lbos.Memory.Blocks.{IsBytes}
use lbos.Text.{Text, strcmp}
use lbos.Base.{◌==◌}
use lbos.Text.Compare.{IsText, nil, cons}
use lbos.Vfs.{
  Vfs, MountPoint, Descriptor, null_mount_point, mount_at, path_of, find_mount_point, mount_fs,
  unmount_fs,
}
use lbos.Vfs.Table.{IsTable}
use lbos.Vfs.Mount
use lbos.Vfs.Find
use lbos.Vfs.Unmount
use lbos.Initrd.{Initrd, find_file, initrd_open, initrd_read, file_size, file_offset}
use lbos.Initrd.Read
use lbos.Initrd.Open

abbrev root : Text
root = 47 ∷ []

abbrev path_a : Text
path_a = 47 ∷ 97 ∷ []

abbrev path_b : Text
path_b = 47 ∷ 98 ∷ []

abbrev path_c : Text
path_c = 47 ∷ 99 ∷ []

abbrev entry : ℕ → MountPoint Initrd
entry i = record (null_mount_point {F = Initrd}) { path = i; device = i; private_data = i }

abbrev three : Vfs Initrd
three = record {
  mount_points = entry 0 ∷ entry 1 ∷ entry 2 ∷ replicate 5 (null_mount_point {F = Initrd});
  num_mount_points = 3;
  path_buffers = root ∷ path_a ∷ path_b ∷ replicate 5 [];
  device_buffers = replicate 8 [];
}

name-IsText : (c : ℕ) → 0 < c → c < 256 → IsText (47 ∷ c ∷ [])
name-IsText c lo hi = cons (omega arith) (omega arith) (cons lo hi nil)

paths-IsText : (j : ℕ) → j < 3 → IsText (path_of three j)
paths-IsText zero h = cons (omega arith) (omega arith) nil
paths-IsText (suc zero) h = name-IsText 97 (omega arith) (omega arith)
paths-IsText (suc (suc zero)) h = name-IsText 98 (omega arith) (omega arith)
paths-IsText (suc (suc (suc j))) h = absurd (omega arith)

three-IsTable : IsTable three
three-IsTable = record {
  bounded = omega arith;
  mounts = refl;
  buffers = refl;
  pointers = pointers;
  texts = paths-IsText;
}
  where
    pointers : (j : ℕ) → j < 3 → (mount_at three j).path ≡ j
    pointers zero h = refl
    pointers (suc zero) h = refl
    pointers (suc (suc zero)) h = refl
    pointers (suc (suc (suc j))) h = absurd (omega arith)

mount_fs-Mounts_example :
    Mount.Mounts three path_c []
      (null_mount_point {F = Initrd}).ops
      3
      (mount_fs three path_c [] (null_mount_point {F = Initrd}).ops 3)
mount_fs-Mounts_example =
    Mount.mount_fs-Mounts three path_c [] (null_mount_point {F = Initrd}).ops 3 three-IsTable
      (name-IsText 99 (omega arith) (omega arith))

-- `/a` stands between the root and `/b`.
unmount_fs-Removes_example : Unmount.Removes three three-IsTable path_a (unmount_fs three path_a)
unmount_fs-Removes_example =
    Unmount.unmount_fs-Removes three three-IsTable path_a
      (name-IsText 97 (omega arith) (omega arith))

find_mount_point-Answers_example : Find.Answers three path_b (find_mount_point three path_b)
find_mount_point-Answers_example =
    Find.find_mount_point-Answers three path_b (name-IsText 98 (omega arith) (omega arith))
      paths-IsText

-- An initrd at 0x1000 with the file "a" of 16 bytes at offset 0.
abbrev module_ram : ℕ → ℕ
module_ram a =
    if a == 0x1000
    then 0xbf
    else if a == 0x1004
    then 1
    else if a == 0x1008
    then 97
    else if a == 0x1028
    then 16
    else if a == 0x1c08
    then 5
    else 0

abbrev loaded : Initrd
loaded = record { ram = module_ram; initrd_header = 0x1000; initrd_data = 0x1c08; current_file = 0 }

module_ram-IsBytes : IsBytes module_ram
module_ram-IsBytes b = ground arith

abbrev fd : Descriptor
fd = record { inode = 0; position = 4; type = 0; size = 16; permissions = 1 }

initrd_read-Copies_example : Read.Copies 0x8000 10 fd loaded (initrd_read 0x8000 10 fd loaded)
unfolding load32
initrd_read-Copies_example =
    Read.initrd_read-Copies 0x8000 10 fd loaded module_ram-IsBytes (omega arith) (omega arith)
      (inr (omega arith))

open-read_example :
    let (n, fd', r') =
      initrd_read 0x8000 100 (initrd_open path_a fd loaded).1 (initrd_open path_a fd loaded).2 in
    (n ≡ file_size loaded 0)
    × ((j : ℕ)
        → j < file_size loaded 0
        → r'.ram (0x8000 + j) ≡ module_ram (0x1c08 + file_offset loaded 0 + j))
unfolding strcmp find_file load32
open-read_example =
    Open.open-read path_a fd loaded (λ e. omega (arith, e)) (λ e. omega (arith, e)) 0 0x8000 100
      module_ram-IsBytes refl (omega arith) (inr (omega arith))
