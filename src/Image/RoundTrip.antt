-- ===== src/Image/RoundTrip.antt =====
-- What the kernel reads from a module that the tool made.
use lbos.Base.{
  ℕ, ◌+◌, ◌*◌, ◌≤◌, ◌<◌, ◌≡◌, ◌≢◌, ◌⊎◌, ap, ◌∙◌, sym, arith, Option, some, List, [], ◌∷◌, ◌==◌,
  length, get_or, take, u8,
}
use mathlib.Core.Path.{subst}
use mathlib.Core.Option.{some-injective}
use lbos.Memory.{Ram, load32}
use lbos.Memory.Blocks.{IsBytes}
use lbos.Text.{Text, strcmp}
use lbos.Text.Compare.{strcmp_lem, strcmp_refl}
use lbos.Vfs.{Descriptor, slash}
use lbos.Initrd.{
  Initrd, init_initrd, num_files, file_at, file_size, file_offset, find_file, find_name,
  initrd_open, initrd_read,
}
use lbos.Initrd.Open.{names, find_name-Search, open-read, find_file_lem}
use lbos.Image.{files, create_initrd, Output}
use lbos.Image.Given.{no_file, file_of, AreNames, not_root, total-take, different}
use lbos.Image.Entries.{File, total, Entry, Entries, Entries-frame, Entries-at}
use lbos.Memory.Words.{load32-shift}
use lbos.Image.Main.{Fits, IsImage, create_initrd-IsImage}
use lbos.Image.Build.{opened}
use lbos.Image.Names.{Stands, strcmp_at-strcmp, name-Stands, Search-first}
use lbos.Image.Load.{mounted, word, init_lem}

module _ (m : Ram) (size : ℕ) (fs : List File) (image : IsImage m size fs) (fits : Fits fs)
    (location temp_header temp_data : ℕ) (r : Initrd)
    (loaded : (k : ℕ) → k < size → r.ram (location + k) ≡ m k) where
  abbrev k_mounted : Initrd
  k_mounted = mounted m size fs image fits location temp_header temp_data r loaded

  in_memory : Entries (λ a. r.ram (location + 8 + a)) (λ k. r.ram (location + k)) 0 0 fs
  in_memory =
      Entries-frame (λ a. m (8 + a)) (λ a. r.ram (location + 8 + a)) m (λ k. r.ram (location + k)) 0
        0 fs
        (λ b lo hi. ap r.ram (address b) ∙ loaded (8 + b) (omega (arith, image.all, fits.room)))
        (λ b lo hi. loaded b (omega (arith, image.all))) image.entries
    where
      address : (b : ℕ) → location + 8 + b ≡ location + (8 + b)
      address b = omega arith

  entry_of :
      (i : ℕ)
      → i < length fs
      → Entry
          (λ a. r.ram (location + 8 + a))
          (λ k. r.ram (location + k))
          (0 + i)
          (0 + total (take i fs))
          (file_of fs i)
  entry_of i lt = Entries-at _ _ 0 0 fs i no_file lt in_memory

  count : num_files k_mounted ≡ length fs
  count =
      ap (load32 r.ram) address
      ∙ word m size fs image fits location temp_header temp_data r loaded 12
          (omega (arith, image.all))
      ∙ image.count
    where
      address : location + 8 + 4 ≡ location + 12
      address = omega arith

  field_at :
      (i k : ℕ)
      → load32 r.ram (file_at k_mounted i + k)
        ≡ load32 (λ a. r.ram (location + 8 + a)) (files (0 + i) + k)
  field_at i k =
      ap (load32 r.ram) address ∙ sym (load32-shift r.ram (location + 8) (files (0 + i) + k))
    where
      address : location + 8 + 8 + 48 * i + k ≡ location + 8 + (8 + 48 * (0 + i) + k)
      address = omega arith

  size_of : (i : ℕ) → i < length fs → file_size k_mounted i ≡ length (file_of fs i).content
  size_of i lt = field_at i 32 ∙ (entry_of i lt).size

  offset_of : (i : ℕ) → i < length fs → file_offset k_mounted i ≡ total (take i fs)
  offset_of i lt = field_at i 36 ∙ (entry_of i lt).offset ∙ omega arith

  module _ (texts : AreNames fs) where
    name_at : (i : ℕ) → i < length fs → Stands r.ram (file_at k_mounted i) (file_of fs i).name
    name_at i lt =
        let (text, short) = texts i lt in
        let s = (file_of fs i).name in
        subst (λ (a : ℕ). Stands r.ram a s) here
          (name-Stands r.ram (file_at k_mounted i) 0 s s
            (λ j lo hi. ap r.ram (address j) ∙ (entry_of i lt).name j hi) text (omega arith)
            (λ j. ap (λ (k : ℕ). get_or s k 0) (start j)))
      where
        here : file_at k_mounted i + 0 ≡ file_at k_mounted i
        here = omega arith

        address : (j : ℕ) → location + 8 + 8 + 48 * i + j ≡ location + 8 + (8 + 48 * (0 + i) + j)
        address j = omega arith

        start : (j : ℕ) → 0 + j ≡ j
        start j = omega arith

    names-strcmp :
        (i : ℕ) (path : Text)
        → i < length fs
        → names k_mounted path i ≡ (strcmp (file_of fs i).name path == 0)
    names-strcmp i path lt =
        let (text, short) = texts i lt in
        ap (λ (n : ℕ). n == 0)
          (strcmp_at-strcmp r.ram (file_at k_mounted i) (file_of fs i).name path (name_at i lt)
            text)

    -- The search for the name of a file finds that file, where no file before it has the name.
    find_created :
        (i : ℕ) (fd : Descriptor)
        → i < length fs
        → (file_of fs i).name ≢ []
        → ((j : ℕ) → j < i → (file_of fs j).name ≢ (file_of fs i).name)
        → find_file k_mounted (slash ∷ (file_of fs i).name) ≡ some i
    find_created i fd lt named first =
        let (text, short) = texts i lt in
        let name = (file_of fs i).name in
        find_file_lem (slash ∷ name) fd k_mounted (λ e. absurd (omega (arith, e)))
          (not_root text named)
        ∙ Search-first k_mounted name (num_files k_mounted) i
            (find_name k_mounted name (num_files k_mounted) 0) (omega (arith, count))
            (names-strcmp i name lt ∙ ap (λ (n : ℕ). n == 0) (strcmp_refl name))
            (λ j below.
              names-strcmp j name (omega arith)
              ∙ different (strcmp (file_of fs j).name name) (λ e.
                first j below
                  ((strcmp_lem (file_of fs j).name name (texts j (omega arith)).0 text).0 e)))
            (find_name-Search k_mounted name (num_files k_mounted) 0 (num_files k_mounted)
              (omega arith))

    -- Opening the file and reading it, on the mounted image.
    open-read-created :
        (i buffer room : ℕ) (fd : Descriptor)
        → IsBytes r.ram
        → i < length fs
        → (file_of fs i).name ≢ []
        → ((j : ℕ) → j < i → (file_of fs j).name ≢ (file_of fs i).name)
        → length (file_of fs i).content ≤ room
        → (buffer + room ≤ location) ⊎ (location + size ≤ buffer)
        → let path = slash ∷ (file_of fs i).name in
          let (n, fd', r') =
            initrd_read buffer room
              (initrd_open path fd k_mounted).1
              (initrd_open path fd k_mounted).2 in
          (n ≡ length (file_of fs i).content)
          × ((j : ℕ)
              → j < length (file_of fs i).content
              → r'.ram (buffer + j) ≡ u8 (get_or (file_of fs i).content j 0))
    open-read-created i buffer room fd bytes lt named first fits_room apart =
        let (text, short) = texts i lt in
        let path = slash ∷ (file_of fs i).name in
        let (answer, copied) =
          open-read path fd k_mounted (λ e. absurd (omega (arith, e))) (not_root text named) i
            buffer room bytes (find_created i fd lt named first) (omega (arith, size_of i lt))
            (omega (arith, size_of i lt, offset_of i lt, image.all, total-take fs i lt)) in
        (
          answer ∙ size_of i lt,
          λ j below.
              copied j (omega (arith, size_of i lt))
              ∙ ap r.ram (place j)
              ∙ (entry_of i lt).content j below,
        )
      where
        place :
            (j : ℕ)
            → location + 3088 + file_offset k_mounted i + j
              ≡ location + (3088 + (0 + total (take i fs)) + j)
        place j = omega (arith, offset_of i lt)

-- What the image tool packs, the kernel reads back: with the tool's output as the module, `init_initrd`, opening a
-- packed file by its name behind a slash, and reading with room for the whole of it gives the file's bytes and their
-- number. The files fit into the table, their names are of at most 31 characters and not empty, the file is the
-- first of its name, and the buffer lies outside the module.
pub create-read :
    (contents : Text → Option Text) (stack : Ram) (path : Text) (paths : List Text) (o : Output)
    → IsBytes stack
    → create_initrd contents stack (path ∷ paths) ≡ some o
    → Fits (opened contents (path ∷ paths))
    → AreNames (opened contents (path ∷ paths))
    → (location temp_header temp_data : ℕ) (r : Initrd) → IsBytes r.ram
    → ((k : ℕ) → k < o.size → r.ram (location + k) ≡ o.bytes k)
    → (i buffer room : ℕ) (fd : Descriptor) → i < length (opened contents (path ∷ paths))
    → (file_of (opened contents (path ∷ paths)) i).name ≢ []
    → ((j : ℕ)
        → j < i
        → (file_of (opened contents (path ∷ paths)) j).name
          ≢ (file_of (opened contents (path ∷ paths)) i).name)
    → length (file_of (opened contents (path ∷ paths)) i).content ≤ room
    → (buffer + room ≤ location) ⊎ (location + o.size ≤ buffer)
    → let file = file_of (opened contents (path ∷ paths)) i in
      let k = init_initrd temp_header temp_data location r in
      let s = initrd_open (slash ∷ file.name) fd k in
      let (n, fd', r') = initrd_read buffer room s.1 s.2 in
      (n ≡ length file.content)
      × ((j : ℕ) → j < length file.content → r'.ram (buffer + j) ≡ u8 (get_or file.content j 0))
create-read contents stack path paths o bytes made fits texts location temp_header temp_data r
      bytes' loaded i buffer room fd lt named first enough apart =
    let fs = opened contents (path ∷ paths) in
    let (o', made', image) = create_initrd-IsImage contents stack path paths bytes fits in
    let same : o' ≡ o = some-injective o' o (sym made' ∙ made) in
    let image' : IsImage o.bytes o.size fs =
      subst (λ (x : Output). IsImage x.bytes x.size fs) same image in
    rw (init_lem o.bytes o.size fs image' fits location temp_header temp_data r loaded) (
      open-read-created o.bytes o.size fs image' fits location temp_header temp_data r loaded texts
        i buffer room fd bytes' lt named first enough apart)
