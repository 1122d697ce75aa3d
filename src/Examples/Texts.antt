-- ===== src/Examples/Texts.antt =====
-- lib/string.c on texts, in memory and in formats.
use lbos.Base.{
  ◌++◌, ℕ, zero, suc, ◌+◌, ◌-◌, ◌^◌, ◌≤◌, ◌<◌, ◌≡◌, refl, inl, inr, arith, none, some, [], ◌∷◌,
  length, ◌==◌, if◌then◌else◌,
}
use lbos.Memory.{Ram, strcpy}
use lbos.Memory.Strings
use lbos.Memory.Strings.{IsString, padded}
use lbos.Text.{Text, codes, strstr}
use lbos.Text.Search
use lbos.Format.{number_to_string, digit_loop, convert, format_loop, vsnprintf}
use lbos.Format.Numbers
use lbos.Format.Bounds

strstr-Found_example :
    Search.Found 0 (codes "banana") (codes "nan") (strstr (codes "banana") (codes "nan"))
strstr-Found_example = Search.strstr-Found (codes "banana") (codes "nan")

finds_nan : strstr (codes "banana") (codes "nan") ≡ some 2
unfolding strstr
finds_nan = refl

-- The string "ab" at 0x100, with other bytes behind it.
abbrev memory : Ram
memory a = if a == 0x100 then 97 else if a == 0x101 then 98 else if a == 0x102 then 0 else 200

memory-IsString : IsString memory 0x100 2
memory-IsString = record { chars = chars; terminator = refl }
  where
    chars : (i : ℕ) → i < 2 → (0 < memory (0x100 + i)) × (memory (0x100 + i) < 256)
    chars zero h = (omega arith, omega arith)
    chars (suc zero) h = (omega arith, omega arith)
    chars (suc (suc i)) h = absurd (omega arith)

strcpy-copied_example :
    (r : Ram) × (strcpy 3 memory 0x200 0x100 ≡ some r)
    × ((b : ℕ) → r b ≡ Strings.copied memory 0x200 0x100 3 b)
strcpy-copied_example =
    Strings.strcpy-copied 3 memory 0x200 0x100 2 memory-IsString (omega arith) (inr (omega arith))

number_to_string-Formats_example : Numbers.Formats (2 ^ 31) 10 (number_to_string (2 ^ 31) 10)
number_to_string-Formats_example =
    Numbers.number_to_string-Formats (2 ^ 31) 10 (inl refl) (omega arith)

abbrev strings : ℕ → Text
strings n = codes "disk"

abbrev arguments : ℕ → ℕ
arguments n = 2 ^ 32 - 42

-- Four bytes of room, and seven that are written.
overflow : vsnprintf strings arguments 4 (codes "ab%d") ≡ some (5, 97 ∷ 98 ∷ 45 ∷ 52 ∷ 50 ∷ 0 ∷ [])
unfolding vsnprintf format_loop convert number_to_string digit_loop
overflow = refl

percents : vsnprintf strings arguments 64 (codes "%%d") ≡ some (4, codes "%-42" ++ 0 ∷ [])
unfolding vsnprintf format_loop convert number_to_string digit_loop
percents = refl

unsigned : vsnprintf strings arguments 64 (codes "%u") ≡ some (3, codes "-42" ++ 0 ∷ [])
unfolding vsnprintf format_loop convert number_to_string digit_loop
unsigned = refl

single_percent : vsnprintf strings arguments 64 (codes "5%") ≡ none
unfolding vsnprintf format_loop
single_percent = refl

vsnprintf-ends_example :
    (bytes : Text) × (vsnprintf strings arguments 4 (codes "ab%d") ≡ some (length bytes - 1, bytes))
    × (0 < length bytes)
    × (length bytes ≤ 14)
vsnprintf-ends_example =
    Bounds.vsnprintf-ends strings arguments 4 (codes "ab%d") (omega arith) (omega arith) refl
