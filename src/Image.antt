-- ===== src/Image.antt =====
-- tools/create_initrd.c: the program that makes the module which fs/initrd.c reads. The header that it fills is memory
-- from address 0 on, laid out as the kernel's. What a file of the host holds is a parameter.
pub mod Written
pub mod Header
pub mod Entries
pub mod Given
pub mod Build
pub mod Main
pub mod Names
pub mod Load
pub mod RoundTrip
use lbos.Base.{
  ℕ, zero, suc, ◌+◌, ◌*◌, max, Option, none, some, List, [], ◌∷◌, ◌==◌, if◌then◌else◌, length, u32,
  add32,
}
use lbos.Memory.{Ram, write8, load32, store32, memset}
use lbos.Text.{Text, codes}

abbrev pub initrd_magic : ℕ
initrd_magic = 0xbf

abbrev pub fs_type_file : ℕ
fs_type_file = 0

abbrev pub fs_perm_read : ℕ
fs_perm_read = 1

-- `sizeof(initrd_header_t)`: two words, and 64 entries of 48 bytes.
abbrev pub header_size : ℕ
header_size = 3080

abbrev pub files : ℕ → ℕ
files i = 8 + 48 * i

-- A file that is written: its bytes, how many there are, and where the next one goes.
pub record Output : Type 0 where
  pub bytes : Ram
  pub size : ℕ
  pub pos : ℕ

unfoldable pub fwrite : Text → Output → Output
fwrite [] o = o
fwrite (b ∷ t) o =
    fwrite t
      (record { bytes = write8 o.bytes o.pos b; size = max o.size (o.pos + 1); pos = o.pos + 1 })

-- The bytes of an object.
unfoldable pub object : Ram → (a count : ℕ) → Text
object m a zero = []
object m a (suc count) = m a ∷ object m (a + 1) count

-- `strncpy` of a text.
unfoldable pub strncpy_text : Ram → ℕ → Text → (count : ℕ) → Ram
strncpy_text m d t zero = m
strncpy_text m d [] (suc count) = memset m d 0 (suc count)
strncpy_text m d (c ∷ t) (suc count) = strncpy_text (write8 m d c) (d + 1) t count

-- `for (i = 0; i < header->num_files; i++) offset += header->files[i].size`
unfoldable pub offset_loop : Ram → (rounds i offset : ℕ) → ℕ
offset_loop header zero i offset = offset
offset_loop header (suc rounds) i offset =
    offset_loop header rounds (i + 1) (add32 offset (load32 header (files i + 32)))

-- The entry of a file.
unfoldable pub add_entry : Ram → (filename input : Text) → Ram
add_entry header filename input =
    let n = load32 header 4 in
    let h1 = strncpy_text header (files n) filename 31 in
    let h2 = write8 h1 (files n + 31) 0 in
    let h3 = store32 h2 (files n + 32) (length input) in
    let h4 = store32 h3 (files n + 40) fs_type_file in
    let h5 = store32 h4 (files n + 44) fs_perm_read in
    let h6 = store32 h5 (files n + 36) (offset_loop h5 n 0 0) in store32 h6 4 (n + 1)

-- `strrchr(filepath, '/')`, and the character behind it.
abbrev pub after_slash : Text → Text → Text
after_slash [] filename = filename
after_slash (c ∷ t) filename = if c == b'/' then after_slash t t else after_slash t filename

abbrev pub name_of : Text → Text
name_of filepath = after_slash filepath filepath

abbrev pub empty_header : Ram → Ram
empty_header stack = store32 (store32 (memset stack 0 0 header_size) 0 initrd_magic) 4 0

abbrev pub signature : Text
signature = b'I' ∷ b'N' ∷ b'I' ∷ b'T' ∷ b'R' ∷ b'D' ∷ 0 ∷ 0 ∷ []

abbrev pub write_header : Ram × Output → Output
write_header (header, output) = fwrite (object header 0 header_size) (record output { pos = 8 })

-- A file that cannot be opened is left out.
abbrev pub add_opened : Text → Option Text → Ram × Output → Ram × Output
add_opened filename none (header, output) = (header, output)
add_opened filename (some input) (header, output) =
    (add_entry header filename input, fwrite input (record output { pos = output.size }))

module _ (contents : Text → Option Text) where
  abbrev pub add_file : (filename filepath : Text) → Ram × Output → Ram × Output
  add_file filename filepath = add_opened filename (contents filepath)

  unfoldable pub add_files : List Text → Ram × Output → Ram × Output
  add_files [] s = s
  add_files (filepath ∷ paths) s = add_files paths (add_file (name_of filepath) filepath s)

  -- `main` with the paths behind the output file's. `stack` is the memory that the header is put into.
  unfoldable pub create_initrd : Ram → List Text → Option Output
  create_initrd stack [] = none
  create_initrd stack (path ∷ paths) =
      let header = empty_header stack in
      let o1 = fwrite signature (record { bytes = λ a. 0; size = 0; pos = 0 }) in
      let o2 = fwrite (object header 0 header_size) o1 in
      some (write_header (add_files (path ∷ paths) (header, o2)))
