-- ===== src/Initrd/Open.antt =====
-- Which file `initrd_open` opens, and what a program that reads it gets.
use lbos.Base.{
  ℕ, zero, suc, ◌+◌, ◌<◌, ◌≤◌, ◌≡◌, ◌≢◌, refl, sym, ◌∙◌, ◌⊎◌, inl, inr, Bool, Bool-cases, Option,
  none, some, true, false, arith, [], ◌∷◌, ◌==◌, min,
}
use mathlib.Core.Path.{subst}
use mathlib.Core.Option.{some-injective}
use native.Mathlib.Decide.{ℕ_discrete}
use lbos.Memory.{load32}
use lbos.Memory.Blocks.{IsBytes}
use lbos.Kernel.{minus_one}
use lbos.Text.{Text, strcmp}
use lbos.Vfs.{Descriptor, slash}
use lbos.Initrd.{
  Initrd, num_files, file_size, file_offset, file_at, without_slash, strcmp_at, find_name,
  find_file, open_at, initrd_open, initrd_read,
}
use lbos.Initrd.Read.{available, initrd_read-Copies}

-- File `i` has the name that the path asks for.
abbrev pub names : Initrd → Text → ℕ → Bool
names r path i = strcmp_at r.ram (file_at r i) path == 0

-- A search from `first` on for a name.
pub data Search (r : Initrd) (name : Text) (first limit : ℕ) (found : Option ℕ) : Type 0 where
  missing :
      found ≡ none
      → ((j : ℕ) → first ≤ j → j < limit → names r name j ≡ false)
      → Search r name first limit found
  at_file :
      (i : ℕ)
      → found ≡ some i
      → i < limit
      → names r name i ≡ true
      → ((j : ℕ) → first ≤ j → j < i → names r name j ≡ false)
      → Search r name first limit found

extend :
    {P : ℕ → Type 0} {first limit : ℕ}
    → P first
    → ((j : ℕ) → first + 1 ≤ j → j < limit → P j)
    → (j : ℕ) → first ≤ j
    → j < limit
    → P j
extend {P} {first} {limit} h rest j lo hi = elim (ℕ_discrete first j) [
  | yes e ↦ subst P e h
  | no n ↦ rest j (omega arith) hi
]

Search-skip :
    {r : Initrd} {name : Text} {first limit : ℕ} {found : Option ℕ}
    → names r name first ≡ false
    → Search r name (first + 1) limit found
    → Search r name first limit found
Search-skip {r} {name} other (missing e all) =
    missing e (extend {P = λ j. names r name j ≡ false} other all)
Search-skip {r} {name} other (at_file i e lt is all) =
    at_file i e lt is (extend {P = λ j. names r name j ≡ false} other all)

pub find_name-Search :
    (r : Initrd) (name : Text) (rounds first limit : ℕ)
    → first + rounds ≡ limit
    → Search r name first limit (find_name r name rounds first)
find_name-Search r name zero first limit e = missing refl (λ j lo hi. absurd (omega arith))
find_name-Search r name (suc rounds) first limit e = elim (Bool-cases (names r name first)) [
  | inl is ↦ rw is (at_file first refl (omega arith) is (λ j lo hi. absurd (omega arith)))
  | inr other ↦
      rw other (Search-skip other (find_name-Search r name rounds (first + 1) limit (omega arith)))
]

-- The descriptor of the file at an index, at its beginning.
abbrev pub descriptor_of : Initrd → ℕ → Descriptor
descriptor_of r i = record {
  inode = i;
  position = 0;
  type = load32 r.ram (file_at r i + 40);
  size = file_size r i;
  permissions = load32 r.ram (file_at r i + 44);
}

-- What opening a path other than the root comes to.
pub data Opens (path : Text) (fd : Descriptor) (r : Initrd) (s : ℕ × Descriptor × Initrd)
    : Type 0 where
  refused :
      s ≡ (minus_one, fd, r)
      → ((j : ℕ) → j < num_files r → names r (without_slash path) j ≡ false)
      → Opens path fd r s
  opened :
      (i : ℕ)
      → s ≡ (0, descriptor_of r i, r)
      → i < num_files r
      → names r (without_slash path) i ≡ true
      → ((j : ℕ) → j < i → names r (without_slash path) j ≡ false)
      → Opens path fd r s

none-ne-some : {i : ℕ} → none ≢ some i
none-ne-some e = cc

module _ (path : Text) (fd : Descriptor) (r : Initrd) (loaded : r.initrd_header ≢ 0)
    (not_root : strcmp path (slash ∷ []) ≢ 0) where
  pub find_file_lem : find_file r path ≡ find_name r (without_slash path) (num_files r) 0
  unfolding find_file
  find_file_lem = let no_null : (r.initrd_header == 0) ≡ false = ground arith in rw no_null refl

  open_lem : initrd_open path fd r ≡ open_at fd r (find_file r path)
  unfolding initrd_open
  open_lem = let other : (strcmp path (slash ∷ []) == 0) ≡ false = ground arith in rw other refl

  found_below :
      (i : ℕ) (o : Option ℕ)
      → Search r (without_slash path) 0 (num_files r) o
      → o ≡ some i
      → i < num_files r
  found_below i o (missing e all) h = absurd (none-ne-some (sym e ∙ h))
  found_below i o (at_file k e lt is all) h = omega (arith, some-injective k i (sym e ∙ h))

  -- A program that opens a file and reads with room for all of it, into a buffer apart from the file, is
  -- told the file's size and gets the file.
  pub open-read :
      (i buffer size : ℕ)
      → IsBytes r.ram
      → find_file r path ≡ some i
      → file_size r i ≤ size
      → (buffer + file_size r i ≤ r.initrd_data + file_offset r i)
        ⊎ (r.initrd_data + file_offset r i + file_size r i ≤ buffer)
      → let (n, fd', r') =
          initrd_read buffer size (initrd_open path fd r).1 (initrd_open path fd r).2 in
        (n ≡ file_size r i)
        × ((j : ℕ)
            → j < file_size r i
            → r'.ram (buffer + j) ≡ r.ram (r.initrd_data + file_offset r i + j))
  open-read i buffer size bytes found room apart =
      let known : i < num_files r =
        found_below i (find_name r (without_slash path) (num_files r) 0)
          (find_name-Search r (without_slash path) (num_files r) 0 (num_files r) (omega arith))
          (sym find_file_lem ∙ found) in
      let count : min size (available (descriptor_of r i) r) ≡ file_size r i = omega arith in
      let c =
        initrd_read-Copies buffer size (descriptor_of r i) r bytes known (omega arith)
          (ground arith) in
      rw (open_lem, found) (c.answer ∙ count, λ j lt. ground (arith, c.memory (buffer + j), count))
