-- ===== src/Image/Build.antt =====
-- The header and the output file while files are added.
use lbos.Base.{
  ℕ, zero, suc, ◌+◌, ◌-◌, ◌^◌, ◌<◌, ◌≡◌, inl, inr, refl, ap, ◌∙◌, arith, Option, none, some, List,
  [], ◌∷◌, ◌++◌, length, length-append, get_or, u8,
}
use lbos.Memory.{Ram, write8, store32, memset, load32}
use lbos.Memory.Blocks.{IsBytes, memset_lem}
use lbos.Text.{Text}
use lbos.Image.{offset_loop, Output, fwrite, strncpy_text, add_entry, name_of, signature, files}
use lbos.Image.Written.{bytes-fwrite, size-fwrite, IsBytes-fwrite}
use lbos.Image.Header.{
  h5, h5-before, add_entry-before, add_entry-count, add_entry-name, add_entry-size,
  add_entry-offset, add_entry-type, add_entry-permissions,
}
use lbos.Image.Entries.{File, total, Entry, Entries, Entries-frame, Entries-snoc, offset_loop-total}
use lbos.Memory.Words.{load32-cong}

IsBytes-write8 : (m : Ram) (a v : ℕ) → IsBytes m → IsBytes (write8 m a v)
unfolding write8
IsBytes-write8 m a v bytes b = ground (arith, bytes b)

pub IsBytes-store32 : (m : Ram) (a v : ℕ) → IsBytes m → IsBytes (store32 m a v)
unfolding store32 write8
IsBytes-store32 m a v bytes b = ground (arith, bytes b)

pub IsBytes-memset : (m : Ram) (a v n : ℕ) → IsBytes m → IsBytes (memset m a v n)
IsBytes-memset m a v n bytes b = ground (arith, memset_lem m a v n b, bytes b)

IsBytes-strncpy_text :
    (m : Ram) (d : ℕ) (t : Text) (count : ℕ) → IsBytes m → IsBytes (strncpy_text m d t count)
unfolding strncpy_text
IsBytes-strncpy_text m d t zero bytes = bytes
IsBytes-strncpy_text m d [] (suc count) bytes = IsBytes-memset m d 0 (suc count) bytes
IsBytes-strncpy_text m d (c ∷ t) (suc count) bytes =
    IsBytes-strncpy_text (write8 m d c) (d + 1) t count (IsBytes-write8 m d c bytes)

IsBytes-add_entry : (h : Ram) (name input : Text) → IsBytes h → IsBytes (add_entry h name input)
unfolding add_entry
IsBytes-add_entry h name input bytes = IsBytes-store32 _ _ _ (
    IsBytes-store32 _ _ _ (
      IsBytes-store32 _ _ _ (
        IsBytes-store32 _ _ _
          (IsBytes-store32 _ _ _ (IsBytes-write8 _ _ _ (IsBytes-strncpy_text _ _ _ _ bytes))))))

pub total-snoc : (fs : List File) (f : File) → total (fs ++ f ∷ []) ≡ total fs + length f.content
total-snoc [] f = omega arith
total-snoc (g ∷ fs) f = omega (arith, total-snoc fs f)

-- The header and the output describe the files that have been added.
pub record Built (h : Ram) (out : Output) (fs : List File) : Type 0 where
  pub is_bytes : IsBytes h
  pub out_bytes : IsBytes out.bytes
  pub magic : load32 h 0 ≡ 0xbf
  pub count : load32 h 4 ≡ length fs
  pub entries : Entries h out.bytes 0 0 fs
  pub size : out.size ≡ 3088 + total fs
  pub signed : (k : ℕ) → k < 8 → out.bytes k ≡ get_or signature k 0

module _ (h : Ram) (out : Output) (fs : List File) (name input : Text) (b : Built h out fs)
    (room : length fs < 64) (small : total fs + length input < 2 ^ 32) where
  abbrev file : File
  file = record { name = name; content = input }

  abbrev h' : Ram
  h' = add_entry h name input

  abbrev out' : Output
  out' = fwrite input (record out { pos = out.size })

  bytes-before : (k : ℕ) → k < out.size → out'.bytes k ≡ out.bytes k
  bytes-before k lt = bytes-fwrite input (record out { pos = out.size }) k ∙ ground arith

  offset-total : load32 h' (files (load32 h 4) + 36) ≡ total fs
  offset-total =
      let before : Entries (h5 h name input) out.bytes 0 0 fs =
        Entries-frame h (h5 h name input) out.bytes out.bytes 0 0 fs
          (λ k lo hi. h5-before h name input k (omega (arith, b.count))) (λ k lo hi. refl)
          b.entries in
      omega (
        arith,
        add_entry-offset h name input,
        ap (λ (k : ℕ). offset_loop (h5 h name input) k 0 0) b.count,
        offset_loop-total (h5 h name input) out.bytes 0 0 0 fs (omega arith) before,
      )

  content-written :
      (j : ℕ) → j < length input → out'.bytes (3088 + total fs + j) ≡ u8 (get_or input j 0)
  content-written j lt =
      bytes-fwrite input (record out { pos = out.size }) (3088 + total fs + j)
      ∙ ground (arith, b.size, ap (λ (k : ℕ). get_or input k 0) back)
    where
      back : 3088 + total fs + j - out.size ≡ j
      back = omega (arith, b.size)

  new-Entry : Entry h' out'.bytes (load32 h 4) (total fs) file
  new-Entry = record {
    name = add_entry-name h name input;
    size = omega (arith, add_entry-size h name input);
    offset = offset-total;
    kind = add_entry-type h name input;
    permissions = add_entry-permissions h name input;
    content = content-written;
  }

  kept : Entries h' out'.bytes 0 0 fs
  kept =
      Entries-frame h h' out.bytes out'.bytes 0 0 fs
        (λ k lo hi. add_entry-before h name input k (inr (omega arith, omega (arith, b.count))))
        (λ k lo hi. bytes-before k (omega (arith, b.size))) b.entries

  pub Built-add : Built h' out' (fs ++ file ∷ [])
  Built-add = record {
    is_bytes = IsBytes-add_entry h name input b.is_bytes;
    out_bytes = IsBytes-fwrite input (record out { pos = out.size }) b.out_bytes;
    magic =
        load32-cong h h' 0 0 4 (λ k lo hi. add_entry-before h name input k (inl hi)) (omega arith)
          (omega arith)
        ∙ b.magic;
    count = omega (arith, add_entry-count h name input, b.count, length-append fs (file ∷ []));
    entries =
        Entries-snoc h' out'.bytes 0 0 (load32 h 4) (total fs) fs file (omega (arith, b.count))
          (omega arith) kept new-Entry;
    size = omega (
      arith,
      size-fwrite input (record out { pos = out.size }) (omega arith),
      b.size,
      total-snoc fs file,
    );
    signed = λ k lt. bytes-before k (omega (arith, b.size)) ∙ b.signed k lt;
  }

-- The files that can be opened, under the names that they get.
abbrev pub opened_one : Text → Option Text → List File → List File
opened_one name none fs = fs
opened_one name (some input) fs = record { name = name; content = input } ∷ fs

abbrev pub opened : (Text → Option Text) → List Text → List File
opened contents [] = []
opened contents (path ∷ paths) = opened_one (name_of path) (contents path) (opened contents paths)
