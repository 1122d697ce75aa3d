-- ===== src/Initrd.antt =====
-- fs/initrd.c: the read-only file system in a boot module, in the memory it lies in. An address 0 is NULL.
pub mod Read
pub mod Open
use lbos.Base.{
  ℕ, zero, suc, ◌+◌, ◌-◌, ◌*◌, Option, none, some, List, [], ◌∷◌, ◌==◌, ltb, leb, if◌then◌else◌,
  get_or, add32, sub32,
}
use lbos.Memory.{strncpy, Ram, write8, load32, store32, memset, memcpy}
use lbos.Kernel.{minus_one}
use lbos.Text.{Text, strcmp}
use lbos.Vfs.{Descriptor, FsOps, slash}

abbrev pub initrd_magic : ℕ
initrd_magic = 0xbf

abbrev pub initrd_signature : Text
initrd_signature = 73 ∷ 78 ∷ 73 ∷ 84 ∷ 82 ∷ 68 ∷ []

abbrev pub initrd_header_size : ℕ
initrd_header_size = 3080

abbrev pub fs_type_file : ℕ
fs_type_file = 0

abbrev pub fs_type_directory : ℕ
fs_type_directory = 1

abbrev pub fs_perm_read : ℕ
fs_perm_read = 1

-- Memory, the static variables `initrd_header` and `initrd_data`, and `current_file` of `initrd_readdir`.
pub record Initrd : Type 0 where
  pub ram : Ram
  pub initrd_header : ℕ
  pub initrd_data : ℕ
  pub current_file : ℕ

-- `strcmp` and `strncmp` of a string in memory with a text.
abbrev pub strcmp_at : Ram → ℕ → Text → ℕ
strcmp_at m a [] = m a
strcmp_at m a (c ∷ t) =
    let rest = strcmp_at m (a + 1) t in
    if m a == 0 then sub32 0 c else if m a == c then rest else sub32 (m a) c

abbrev pub strncmp_at : Ram → ℕ → Text → ℕ → ℕ
strncmp_at m a t zero = 0
strncmp_at m a [] (suc count) = m a
strncmp_at m a (c ∷ t) (suc count) =
    let rest = strncmp_at m (a + 1) t count in
    if m a == 0 then sub32 0 c else if m a == c then rest else sub32 (m a) c

-- `strcpy` of a text.
abbrev pub strcpy_at : Ram → ℕ → Text → Ram
strcpy_at m a [] = write8 m a 0
strcpy_at m a (c ∷ t) = strcpy_at (write8 m a c) (a + 1) t

-- The fields of the header, and of the file header at an index.
abbrev pub num_files : Initrd → ℕ
num_files r = load32 r.ram (r.initrd_header + 4)

abbrev pub file_at : Initrd → ℕ → ℕ
file_at r i = r.initrd_header + 8 + 48 * i

abbrev pub file_size : Initrd → ℕ → ℕ
file_size r i = load32 r.ram (file_at r i + 32)

abbrev pub file_offset : Initrd → ℕ → ℕ
file_offset r i = load32 r.ram (file_at r i + 36)

-- The first offset, of `rounds` from `i` on, at which the magic number stands.
abbrev pub find_magic : Ram → ℕ → ℕ → ℕ → Option ℕ
find_magic m location zero i = none
find_magic m location (suc rounds) i =
    let rest = find_magic m location rounds (i + 1) in
    if load32 m (location + i) == initrd_magic then some i else rest

abbrev pub header_of_magic : ℕ → ℕ → Option ℕ → ℕ
header_of_magic before location none = before
header_of_magic before location (some i) = location + i

-- The file that stands in for a missing initrd; the two static objects have these addresses.
abbrev pub temporary : (temp_header temp_data : ℕ) → Initrd → Initrd
temporary temp_header temp_data r =
    let m1 = store32 r.ram temp_header initrd_magic in
    let m2 = store32 m1 (temp_header + 4) 1 in
    let file = temp_header + 8 in
    let m3 = memset m2 file 0 32 in
    let m4 = strcpy_at m3 file (116 ∷ 101 ∷ 115 ∷ 116 ∷ 46 ∷ 116 ∷ 120 ∷ 116 ∷ []) in
    let m5 = store32 m4 (file + 32) 38 in
    let m6 = store32 m5 (file + 36) 0 in
    let m7 = store32 m6 (file + 40) fs_type_file in
    let m8 = store32 m7 (file + 44) fs_perm_read in
    record r { ram = m8; initrd_header = temp_header; initrd_data = temp_data }

unfoldable pub init_initrd : (temp_header temp_data initrd_location : ℕ) → Initrd → Initrd
unfolding load32 store32 memset write8
init_initrd temp_header temp_data initrd_location r =
    let header =
      if strncmp_at r.ram initrd_location initrd_signature 6 == 0
      then initrd_location + 8
      else header_of_magic r.initrd_header initrd_location
          (find_magic r.ram initrd_location 64 0) in
    let found = record r { initrd_header = header } in
    if header == 0
    then temporary temp_header temp_data found
    else if load32 r.ram header == initrd_magic
    then record found { initrd_data = header + initrd_header_size }
    else found

abbrev pub without_slash : Text → Text
without_slash [] = []
without_slash (c ∷ t) = if c == slash then t else c ∷ t

abbrev pub find_name : Initrd → Text → ℕ → ℕ → Option ℕ
find_name r path zero i = none
find_name r path (suc rounds) i =
    let rest = find_name r path rounds (i + 1) in
    if strcmp_at r.ram (file_at r i) path == 0 then some i else rest

unfoldable pub find_file : Initrd → Text → Option ℕ
unfolding load32
find_file r path =
    if r.initrd_header == 0 then none else find_name r (without_slash path) (num_files r) 0

abbrev pub open_at : Descriptor → Initrd → Option ℕ → ℕ × Descriptor × Initrd
open_at fd r none = (minus_one, fd, r)
open_at fd r (some i) = (
  0,
  record {
    inode = i;
    position = 0;
    type = load32 r.ram (file_at r i + 40);
    size = file_size r i;
    permissions = load32 r.ram (file_at r i + 44);
  },
  r,
)

unfoldable pub initrd_open : Text → Descriptor → Initrd → ℕ × Descriptor × Initrd
unfolding strcmp find_file load32
initrd_open path fd r =
    let root : Descriptor = record {
      inode = 0xffff_ffff;
      position = 0;
      type = fs_type_directory;
      size = 0;
      permissions = fs_perm_read;
    } in
    if strcmp path (slash ∷ []) == 0 then (0, root, r) else open_at fd r (find_file r path)

unfoldable pub initrd_close : Descriptor → Initrd → ℕ × Descriptor × Initrd
initrd_close fd r = (0, fd, r)

unfoldable pub initrd_read : ℕ → ℕ → Descriptor → Initrd → ℕ × Descriptor × Initrd
unfolding load32 memcpy
initrd_read buffer size fd r =
    let remaining = file_size r fd.inode - fd.position in
    let to_read = if ltb size remaining then size else remaining in
    let source = r.initrd_data + file_offset r fd.inode + fd.position in
    if leb (num_files r) fd.inode
    then (minus_one, fd, r)
    else if leb (file_size r fd.inode) fd.position
    then (0, fd, r)
    else (
      to_read,
      record fd { position = add32 fd.position to_read },
      record r { ram = memcpy r.ram buffer source to_read },
    )

unfoldable pub initrd_write : ℕ → ℕ → Descriptor → Initrd → ℕ × Descriptor × Initrd
initrd_write buffer size fd r = (minus_one, fd, r)

unfoldable pub initrd_seek : ℕ → Descriptor → Initrd → ℕ × Descriptor × Initrd
unfolding load32
initrd_seek offset fd r =
    if leb (num_files r) fd.inode
    then (minus_one, fd, r)
    else if ltb (file_size r fd.inode) offset
    then (minus_one, fd, r)
    else (0, record fd { position = offset }, r)

unfoldable pub initrd_readdir : ℕ → ℕ → Descriptor → Initrd → ℕ × Descriptor × Initrd
unfolding load32 memset write8
initrd_readdir name size fd r =
    let copied = strncpy r.ram name (file_at r r.current_file) (sub32 size 1) in
    let ended = write8 copied (name + sub32 size 1) 0 in
    if fd.type == fs_type_directory
    then (if leb (num_files r) r.current_file
        then (0, fd, record r { current_file = 0 })
        else (1, fd, record r { ram = ended; current_file = add32 r.current_file 1 }))
    else (0, fd, r)

-- `mkdir`, `rmdir`, `create`, `unlink`, and `unmount`, which all refuse.
abbrev pub refuse : Text → Initrd → ℕ × Initrd
refuse path r = (minus_one, r)

unfoldable pub get_initrd_ops : FsOps Initrd
unfolding initrd_open initrd_close initrd_read initrd_write initrd_seek initrd_readdir
get_initrd_ops = record {
  on_open = some initrd_open;
  close = some initrd_close;
  read = some initrd_read;
  write = some initrd_write;
  seek = some initrd_seek;
  readdir = some initrd_readdir;
  mkdir = some refuse;
  rmdir = some refuse;
  create = some refuse;
  unlink = some refuse;
  mount = some (λ path device. refuse path);
  unmount = some refuse;
}
