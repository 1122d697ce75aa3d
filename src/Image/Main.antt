-- ===== src/Image/Main.antt =====
-- The whole output file.
use lbos.Base.{
  ℕ, zero, suc, ◌+◌, ◌-◌, ◌^◌, ◌≤◌, ◌<◌, ◌≡◌, refl, ap, ◌∙◌, sym, arith, Option, none, some, List,
  [], ◌∷◌, ◌++◌, length, length-append, get_or, u8,
}
use mathlib.Core.List.{append_assoc, append-nil}
use mathlib.Core.Path.{subst}
use lbos.Memory.{Ram, store32, memset, load32}
use lbos.Memory.Words.{load32-store32_self, load32-store32-Apart, load32-cong, load32-shift}
use lbos.Memory.Blocks.{IsBytes}
use lbos.Text.{Text}
use lbos.Image.{
  Output, fwrite, object, add_opened, add_files, name_of, signature, empty_header, write_header,
  create_initrd, header_size,
}
use lbos.Image.Written.{
  written, written-before, written-behind, written-inside, bytes-fwrite, size-fwrite, pos-fwrite,
  IsBytes-fwrite, length-object, get_or-object,
}
use lbos.Image.Entries.{File, total, Entries, nil, Entries-frame}
use lbos.Image.Build.{Built, Built-add, IsBytes-store32, IsBytes-memset, opened, opened_one}

-- The files fit into the table and the module.
pub record Fits (fs : List File) : Type 0 where
  pub room : length fs ≤ 64
  pub small : total fs < 2 ^ 32 - 3088

total-append : (fs gs : List File) → total (fs ++ gs) ≡ total fs + total gs
total-append [] gs = omega arith
total-append (f ∷ fs) gs = omega (arith, total-append fs gs)

-- One path, and then the others.
module _ (F : Ram × Output → Ram × Output) (rest : List File) where
  abbrev Later : Type 0
  Later =
      (h : Ram) (out : Output) (fs : List File)
      → Built h out fs
      → Fits (fs ++ rest)
      → Built (F (h, out)).0 (F (h, out)).1 (fs ++ rest)

  add_opened-Built :
      (name : Text) (o : Option Text) (h : Ram) (out : Output) (fs : List File)
      → Later
      → Built h out fs
      → Fits (fs ++ opened_one name o rest)
      → Built
          (F (add_opened name o (h, out))).0
          (F (add_opened name o (h, out))).1
          (fs ++ opened_one name o rest)
  add_opened-Built name none h out fs later b fits = later h out fs b fits
  add_opened-Built name (some input) h out fs later b fits =
      let file : File = record { name = name; content = input } in
      let e : (fs ++ file ∷ []) ++ rest ≡ fs ++ file ∷ rest = append_assoc fs (file ∷ []) rest in
      subst (Built _ _) e (
        later _ _ (fs ++ file ∷ [])
          (Built-add h out fs name input b
            (omega (arith, fits.room, length-append fs (file ∷ rest)))
            (omega (arith, fits.small, total-append fs (file ∷ rest))))
          (subst Fits (sym e) fits))

module _ (contents : Text → Option Text) where
  add_files-Built :
      (paths : List Text) (h : Ram) (out : Output) (fs : List File)
      → Built h out fs
      → Fits (fs ++ opened contents paths)
      → Built
          (add_files contents paths (h, out)).0
          (add_files contents paths (h, out)).1
          (fs ++ opened contents paths)
  unfolding add_files
  add_files-Built [] h out fs b fits = subst (Built h out) (sym (append-nil fs)) b
  add_files-Built (path ∷ paths) h out fs b fits =
      add_opened-Built (add_files contents paths) (opened contents paths) (name_of path)
        (contents path) h out fs (add_files-Built paths) b fits

-- The output before the first file.
abbrev pub started : Ram → Output
started stack =
    fwrite (object (empty_header stack) 0 header_size)
      (fwrite signature (record { bytes = λ a. 0; size = 0; pos = 0 }))

signature_byte : (k : ℕ) → k < 8 → u8 (get_or signature k 0) ≡ get_or signature k 0
signature_byte zero lt = refl
signature_byte (suc zero) lt = refl
signature_byte (suc (suc zero)) lt = refl
signature_byte (suc (suc (suc zero))) lt = refl
signature_byte (suc (suc (suc (suc zero)))) lt = refl
signature_byte (suc (suc (suc (suc (suc zero))))) lt = refl
signature_byte (suc (suc (suc (suc (suc (suc zero)))))) lt = refl
signature_byte (suc (suc (suc (suc (suc (suc (suc zero))))))) lt = refl
signature_byte (suc (suc (suc (suc (suc (suc (suc (suc k)))))))) lt = absurd (omega arith)

signature-written :
    (k : ℕ)
    → k < 8
    → (fwrite signature (record { bytes = λ a. 0; size = 0; pos = 0 })).bytes k
      ≡ get_or signature k 0
signature-written k lt =
    bytes-fwrite signature (record { bytes = λ a. 0; size = 0; pos = 0 }) k
    ∙ ap (written (λ a. 0) 0 signature) (start k)
    ∙ written-inside (λ a. 0) 0 signature k lt
    ∙ signature_byte k lt
  where
    start : (k : ℕ) → k ≡ 0 + k
    start k = omega arith

started-Built : (stack : Ram) → IsBytes stack → Built (empty_header stack) (started stack) []
started-Built stack bytes =
    let first : Output = fwrite signature (record { bytes = λ a. 0; size = 0; pos = 0 }) in
    let table = object (empty_header stack) 0 header_size in
    let at_eight : first.pos ≡ 8 =
      pos-fwrite signature (record { bytes = λ a. 0; size = 0; pos = 0 }) in
    let eight : first.size ≡ 8 =
      size-fwrite signature (record { bytes = λ a. 0; size = 0; pos = 0 }) (omega arith) in
    record {
      is_bytes =
          IsBytes-store32 _ 4 0
            (IsBytes-store32 _ 0 0xbf (IsBytes-memset stack 0 0 header_size bytes));
      out_bytes = IsBytes-fwrite table first (
          IsBytes-fwrite signature (record { bytes = λ a. 0; size = 0; pos = 0 })
            (λ k. omega arith));
      magic =
          load32-store32-Apart (store32 (memset stack 0 0 header_size) 0 0xbf) 4 0 0 (omega arith)
          ∙ load32-store32_self (memset stack 0 0 header_size) 0 0xbf;
      count = load32-store32_self (store32 (memset stack 0 0 header_size) 0 0xbf) 4 0;
      entries = nil;
      size = omega (
        arith,
        size-fwrite table first (omega arith),
        length-object (empty_header stack) 0 header_size,
      );
      signed = λ k lt.
          bytes-fwrite table first k
          ∙ written-before first.bytes first.pos table k (omega arith)
          ∙ signature-written k lt;
    }

-- The image of a list of files.
pub record IsImage (m : Ram) (size : ℕ) (fs : List File) : Type 0 where
  pub is_bytes : IsBytes m
  pub all : size ≡ 3088 + total fs
  pub signed : (k : ℕ) → k < 8 → m k ≡ get_or signature k 0
  pub magic : load32 m 8 ≡ 0xbf
  pub count : load32 m 12 ≡ length fs
  pub entries : Entries (λ a. m (8 + a)) m 0 0 fs

-- With the header behind the signature, the output is the image.
module _ (h : Ram) (out : Output) (fs : List File) (b : Built h out fs) (fits : Fits fs) where
  abbrev final : Output
  final = write_header (h, out)

  table-length : length (object h 0 header_size) ≡ 3080
  table-length = length-object h 0 header_size

  in_header : (a : ℕ) → a < 3080 → final.bytes (8 + a) ≡ h a
  in_header a lt =
      bytes-fwrite (object h 0 header_size) (record out { pos = 8 }) (8 + a)
      ∙ written-inside out.bytes 8 (object h 0 header_size) a (omega (arith, table-length))
      ∙ ap u8 (get_or-object h 0 header_size a lt)
      ∙ omega (arith, b.is_bytes (0 + a), ap h (start a))
    where
      start : (k : ℕ) → 0 + k ≡ k
      start k = omega arith

  write_header-IsImage : IsImage final.bytes final.size fs
  write_header-IsImage = record {
    is_bytes = IsBytes-fwrite (object h 0 header_size) (record out { pos = 8 }) b.out_bytes;
    all = omega (
      arith,
      size-fwrite (object h 0 header_size) (record out { pos = 8 }) (omega (arith, b.size)),
      table-length,
      b.size,
    );
    signed = λ k lt.
        bytes-fwrite (object h 0 header_size) (record out { pos = 8 }) k
        ∙ written-before out.bytes 8 (object h 0 header_size) k lt
        ∙ b.signed k lt;
    magic =
        sym (load32-shift final.bytes 8 0)
        ∙ load32-cong h (λ a. final.bytes (8 + a)) 0 0 3080 (λ k lo hi. in_header k hi)
            (omega arith) (omega arith)
        ∙ b.magic;
    count =
        sym (load32-shift final.bytes 8 4)
        ∙ load32-cong h (λ a. final.bytes (8 + a)) 4 0 3080 (λ k lo hi. in_header k hi)
            (omega arith) (omega arith)
        ∙ b.count;
    entries =
        Entries-frame h (λ a. final.bytes (8 + a)) out.bytes final.bytes 0 0 fs
          (λ k lo hi. in_header k (omega (arith, fits.room)))
          (λ k lo hi.
            bytes-fwrite (object h 0 header_size) (record out { pos = 8 }) k
            ∙ written-behind out.bytes 8 (object h 0 header_size) k (omega (arith, table-length)))
          b.entries;
  }

-- What the tool writes for paths of which at least one is given: the image of the files that can be opened, in
-- their order, provided that they fit into the table of 64 entries.
pub create_initrd-IsImage :
    (contents : Text → Option Text) (stack : Ram) (path : Text) (paths : List Text)
    → IsBytes stack
    → Fits (opened contents (path ∷ paths))
    → (o : Output) × (create_initrd contents stack (path ∷ paths) ≡ some o)
      × IsImage o.bytes o.size (opened contents (path ∷ paths))
unfolding create_initrd
create_initrd-IsImage contents stack path paths bytes fits =
    let b =
      add_files-Built contents (path ∷ paths) (empty_header stack) (started stack) []
        (started-Built stack bytes) fits in
    (_, refl, write_header-IsImage _ _ (opened contents (path ∷ paths)) b fits)
