-- ===== src/Image/Given.antt =====
-- The files that the image tool is given: their names, and where their contents lie in the image.
use lbos.Base.{
  ℕ, zero, suc, ◌+◌, ◌≤◌, ◌<◌, ◌≡◌, ◌≢◌, refl, arith, false, List, [], ◌∷◌, ◌==◌, length, get_or,
  take,
}
use lbos.Text.{Text, strcmp}
use lbos.Text.Compare.{IsText, nil, cons}
use lbos.Vfs.{slash}
use lbos.Image.Entries.{File, total}

abbrev pub no_file : File
no_file = record { name = []; content = [] }

abbrev pub file_of : List File → ℕ → File
file_of fs i = get_or fs i no_file

-- The names are strings that an entry has room for.
abbrev pub AreNames : List File → Type 0
AreNames fs =
    (j : ℕ) → j < length fs → IsText (file_of fs j).name × (length (file_of fs j).name ≤ 31)

pub not_root : {s : Text} → IsText s → s ≢ [] → strcmp (slash ∷ s) (slash ∷ []) ≢ 0
unfolding strcmp
not_root nil named = absurd (named refl)
not_root (cons lo hi x) named = λ e. absurd (omega (arith, e))

pub total-take :
    (fs : List File) (i : ℕ)
    → i < length fs
    → total (take i fs) + length (file_of fs i).content ≤ total fs
total-take [] i lt = absurd (omega arith)
total-take (f ∷ fs) zero lt = omega arith
total-take (f ∷ fs) (suc i) lt = omega (arith, total-take fs i (omega arith))

pub different : (n : ℕ) → n ≢ 0 → (n == 0) ≡ false
different n ne = ground arith
