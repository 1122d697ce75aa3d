-- ===== src/Text.antt =====
-- `strcmp`, `strncmp` and `strstr` of lib/string.c. A text is the characters of a string before its terminator;
-- reading at its end gives the terminator. The result of a comparison is the `int` as a 32-bit word.
pub mod Compare
pub mod Search
use Prim.Native.Char.{code}
use Prim.Native.String.{String}
use lbos.Base.{
  ℕ, zero, suc, ◌+◌, Bool, true, false, ◌&&◌, Option, none, some, List, [], ◌∷◌, ◌==◌,
  if◌then◌else◌, sub32,
}

abbrev pub Text : Type 0
Text = List ℕ

-- A string literal.
abbrev pub codes : String → Text
codes String.[] = []
codes (String.◌∷◌ c s) = code c ∷ codes s

unfoldable pub strcmp : Text → Text → ℕ
strcmp [] [] = 0
strcmp [] (b ∷ t) = sub32 0 b
strcmp (a ∷ s) [] = a
strcmp (a ∷ s) (b ∷ t) = if a == b then strcmp s t else sub32 a b

unfoldable pub strncmp : Text → Text → ℕ → ℕ
strncmp s t zero = 0
strncmp [] [] (suc count) = 0
strncmp [] (b ∷ t) (suc count) = sub32 0 b
strncmp (a ∷ s) [] (suc count) = a
strncmp (a ∷ s) (b ∷ t) (suc count) = if a == b then strncmp s t count else sub32 a b

-- `while (*h && *n && *h == *n)`: what is left of the needle.
abbrev pub needle_left : Text → Text → Text
needle_left [] n = n
needle_left (a ∷ h) [] = []
needle_left (a ∷ h) (b ∷ n) = if a == b then needle_left h n else b ∷ n

abbrev pub at_end : Text → Bool
at_end [] = true
at_end (c ∷ t) = false

-- `while (*haystack)` at index `i` of the haystack, for a needle that starts with `b`.
abbrev pub search_loop : ℕ → Text → ℕ → Text → Option ℕ
search_loop i [] b needle = none
search_loop i (a ∷ haystack) b needle =
    let rest = search_loop (i + 1) haystack b needle in
    if (a == b) && at_end (needle_left (a ∷ haystack) (b ∷ needle)) then some i else rest

-- The pointer that is returned is an index into the haystack, NULL is `none`.
unfoldable pub strstr : Text → Text → Option ℕ
strstr haystack [] = some 0
strstr haystack (b ∷ needle) = search_loop 0 haystack b needle
