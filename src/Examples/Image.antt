-- ===== src/Examples/Image.antt =====
-- tools/create_initrd.c and fs/initrd.c on two files.
use lbos.Base.{
  ℕ, zero, suc, ◌+◌, ◌-◌, ◌<◌, ◌≡◌, ◌≢◌, inl, refl, ap, ◌∙◌, sym, arith, Option, none, some, List,
  [], ◌∷◌, ◌==◌, length, get_or, u8, if◌then◌else◌,
}
use mathlib.Core.Path.{subst}
use mathlib.Core.Option.{some-injective}
use lbos.Memory.{Ram}
use lbos.Text.{Text, codes}
use lbos.Text.Compare.{nil, cons}
use lbos.Vfs.{Descriptor}
use lbos.Initrd.{Initrd, init_initrd, initrd_open, initrd_read}
use lbos.Image.{Output, create_initrd, add_files, write_header, empty_header}
use lbos.Image.Build.{opened}
use lbos.Image.Main.{Fits, IsImage, create_initrd-IsImage, started}
use lbos.Image.RoundTrip
use lbos.Image.Given.{AreNames, file_of}

-- What the host has.
abbrev contents : Text → Option Text
contents path =
    if length path == 3
    then some (codes "one")
    else if length path == 5
    then some (codes "seven")
    else none

-- "d/a", a missing file, and "d/e/b".
abbrev first_path : Text
first_path = codes "d/a"

abbrev other_paths : List Text
other_paths = codes "gone" ∷ codes "d/e/b" ∷ []

abbrev blank : Ram
blank a = 0

abbrev made : Output
made =
    write_header (add_files contents (first_path ∷ other_paths) (empty_header blank, started blank))

created : create_initrd contents blank (first_path ∷ other_paths) ≡ some made
unfolding create_initrd
created = refl

two_files : Fits (opened contents (first_path ∷ other_paths))
two_files = record { room = omega arith; small = omega arith }

their_names : AreNames (opened contents (first_path ∷ other_paths))
their_names zero lt = (cons (omega arith) (omega arith) nil, omega arith)
their_names (suc zero) lt = (cons (omega arith) (omega arith) nil, omega arith)
their_names (suc (suc j)) lt = absurd (omega arith)

made-IsImage : IsImage made.bytes made.size (opened contents (first_path ∷ other_paths))
made-IsImage =
    let (o, e, image) =
      create_initrd-IsImage contents blank first_path other_paths (λ b. omega arith) two_files in
    subst (λ (x : Output). IsImage x.bytes x.size (opened contents (first_path ∷ other_paths)))
      (some-injective o made (sym e ∙ created)) image

-- The module at 0x10000.
abbrev kernel_ram : Ram
kernel_ram a = made.bytes (a - 0x10000)

abbrev before_init : Initrd
before_init = record { ram = kernel_ram; initrd_header = 0; initrd_data = 0; current_file = 0 }

loaded : (k : ℕ) → k < made.size → kernel_ram (0x10000 + k) ≡ made.bytes k
loaded k lt = let e : 0x10000 + k - 0x10000 ≡ k = omega arith in ap made.bytes e

abbrev fd : Descriptor
fd = record { inode = 0; position = 0; type = 0; size = 0; permissions = 0 }

a-not-b :
    (j : ℕ) → j < 1 → (file_of (opened contents (first_path ∷ other_paths)) j).name ≢ codes "b"
a-not-b zero lt = λ e. omega (arith, ap (λ (t : Text). get_or t 0 0) e)
a-not-b (suc j) lt = absurd (omega arith)

create-read_example :
    let s = initrd_open (codes "/b") fd (init_initrd 0x2000 0x3000 0x10000 before_init) in
    let (n, fd', r') = initrd_read 0x8000 512 s.1 s.2 in
    (n ≡ 5) × ((j : ℕ) → j < 5 → r'.ram (0x8000 + j) ≡ u8 (get_or (codes "seven") j 0))
create-read_example =
    RoundTrip.create-read contents blank first_path other_paths made (λ b. omega arith) created
      two_files their_names 0x10000 0x2000 0x3000 before_init
      (λ b. made-IsImage.is_bytes (b - 0x10000)) loaded 1 0x8000 512 fd (omega arith)
      (λ e. omega (arith, ap length e)) a-not-b (omega arith) (inl (omega arith))
