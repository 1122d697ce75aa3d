-- ===== src/Log/Pieces.antt =====
-- A format as a list of pieces, and what each is written as.
use lbos.Base.{
  ℕ, ◌+◌, Bool, true, false, not, ◌&&◌, ◌||◌, List, [], ◌∷◌, ◌++◌, u8, if◌then◌else◌, ◌==◌,
}
use lbos.Text.{Text, codes}
use lbos.Serial.{num_to_hex, num_to_decimal}
use lbos.Log.{escape, log_level_info}

-- A character, a directive, a `%` before another character, and an escape sequence by what stands between
-- its first and its last character.
pub data Piece : Type 0 where
  literal quoted : ℕ → Piece
  decimal hex string char : Piece
  colour : Text → Piece

abbrev pub source : Piece → Text
source (literal c) = c ∷ []
source (quoted c) = b'%' ∷ c ∷ []
source decimal = b'%' ∷ b'd' ∷ []
source hex = b'%' ∷ b'x' ∷ []
source string = b'%' ∷ b's' ∷ []
source char = b'%' ∷ b'c' ∷ []
source (colour t) = escape ∷ t ++ b'm' ∷ []

-- How many arguments a piece takes.
abbrev pub taken : Piece → ℕ
taken (literal c) = 0
taken (quoted c) = 0
taken (colour t) = 0
taken decimal = 1
taken hex = 1
taken string = 1
taken char = 1

abbrev pub has_m : Text → Bool
has_m [] = false
has_m (c ∷ t) = (c == b'm') || has_m t

-- The pieces that stand for themselves.
abbrev pub is_piece : Piece → Bool
is_piece (literal c) = not (c == b'%') && not (c == escape)
is_piece (quoted c) = not (c == b'd') && not (c == b'x') && not (c == b's') && not (c == b'c')
is_piece (colour t) = not (has_m t)
is_piece decimal = true
is_piece hex = true
is_piece string = true
is_piece char = true

module _ (text_at : ℕ → Text) (args : ℕ → ℕ) (level : ℕ) where
  -- What a piece is written as, with `n` arguments taken before it.
  abbrev pub shown : Piece → ℕ → Text
  shown (literal c) n = c ∷ []
  shown (quoted c) n = c ∷ []
  shown decimal n = num_to_decimal (args n)
  shown hex n = num_to_hex (args n)
  shown string n = if args n == 0 then codes "(null)" else text_at (args n)
  shown char n = u8 (args n) ∷ []
  shown (colour t) n = if level == log_level_info then [] else escape ∷ t ++ b'm' ∷ []

  abbrev pub all_shown : List Piece → ℕ → Text
  all_shown [] n = []
  all_shown (p ∷ ps) n = shown p n ++ all_shown ps (n + taken p)

abbrev pub all_source : List Piece → Text
all_source [] = []
all_source (p ∷ ps) = source p ++ all_source ps

abbrev pub all_pieces : List Piece → Bool
all_pieces [] = true
all_pieces (p ∷ ps) = is_piece p && all_pieces ps
