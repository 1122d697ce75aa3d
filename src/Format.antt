-- ===== src/Format.antt =====
-- The formatting of lib/string.c. The arguments are the words on the stack behind the format, `args n` the one of
-- number `n`; the text at an address is a parameter. The buffer is the text that has been written to it.
pub mod Numbers
pub mod Bounds
use lbos.Base.{
  ℕ, zero, suc, ◌+◌, ◌-◌, ◌*◌, ◌/◌, ◌%◌, ◌^◌, Bool, true, false, not, ◌&&◌, ◌||◌, Option, none,
  some, List, [], ◌∷◌, ◌++◌, bit_and, ◌==◌, ltb, leb, if◌then◌else◌, length, take, u8, sub32, ◌>>>◌,
}
use lbos.Text.{Text}
use lbos.Serial.{is_negative}

-- A digit below 16 as a character.
abbrev pub digit_char : ℕ → ℕ
digit_char digit = if ltb digit 10 then b'0' + digit else b'a' + (digit - 10)

-- `do … while (unum > 0)` on `num_buf`, listed from its last character, so that the loop that empties it yields it in
-- this order. Ten rounds are enough for a word in the bases 10 and 16.
unfoldable pub digit_loop : ℕ → (base unum : ℕ) → Text → Text
digit_loop zero base unum num_buf = num_buf
digit_loop (suc rounds) base unum num_buf =
    let num_buf' = digit_char (unum % base) ∷ num_buf in
    let rest = digit_loop rounds base (unum / base) num_buf' in
    if unum / base == 0 then num_buf' else rest

-- What is appended to the buffer.
unfoldable pub number_to_string : (num base : ℕ) → Text
number_to_string num base =
    if is_negative num && (base == 10)
    then b'-' ∷ digit_loop 10 base (sub32 0 num) []
    else digit_loop 10 base num []

-- `for (i = 7; i >= 0; i--)`
abbrev pub pointer_loop : ℕ → ℕ → Text
pointer_loop zero addr = []
pointer_loop (suc i) addr = digit_char (bit_and (addr >>> (i * 4)) 0xf) ∷ pointer_loop i addr

unfoldable pub pointer_to_string : ℕ → Text
pointer_to_string addr = b'0' ∷ b'x' ∷ pointer_loop 8 addr

-- "(null)"
abbrev pub null_text : Text
null_text = b'(' ∷ b'n' ∷ b'u' ∷ b'l' ∷ b'l' ∷ b')' ∷ []

abbrev pub terminated : Option (ℕ × Text) → Option (ℕ × Text)
terminated none = none
terminated (some (n, buffer)) = some (length buffer, buffer ++ 0 ∷ [])

module _ (text_at : ℕ → Text) (args : ℕ → ℕ) where
  -- `switch (*fmt)`, with `limit` for `size - 1`: the number of the next argument, and the buffer.
  unfoldable pub convert : (limit d : ℕ) → ℕ × Text → ℕ × Text
  convert limit d (n, buffer) =
      if (d == b'd') || (d == b'i') || (d == b'u')
      then (n + 1, buffer ++ number_to_string (args n) 10)
      else if (d == b'x') || (d == b'X')
      then (n + 1, buffer ++ number_to_string (args n) 16)
      else if d == b'p'
      then (n + 1, buffer ++ pointer_to_string (args n))
      else if d == b's'
      then (
        n + 1,
        buffer
            ++ take (limit - length buffer) (if args n == 0 then null_text else text_at (args n)),
      )
      else if d == b'c'
      then (n + 1, buffer ++ u8 (args n) ∷ [])
      else if d == b'%'
      then (n, buffer ++ b'%' ∷ [])
      else (n, buffer ++ b'%' ∷ d ∷ [])

  -- `while (*fmt && pos < size - 1)`; none where it reads behind the terminator of the format, after a single `%`
  -- at its end.
  unfoldable pub format_loop : ℕ → Text → ℕ × Text → Option (ℕ × Text)
  format_loop limit [] (n, buffer) = some (n, buffer)
  format_loop limit (c ∷ []) (n, buffer) =
      if not (ltb (length buffer) limit)
      then some (n, buffer)
      else if c == b'%'
      then none
      else some (n, buffer ++ c ∷ [])
  format_loop limit (c ∷ d ∷ fmt) (n, buffer) =
      let converted = format_loop limit fmt (convert limit d (n, buffer)) in
      let plain = format_loop limit (d ∷ fmt) (n, buffer ++ c ∷ []) in
      if not (ltb (length buffer) limit)
      then some (n, buffer)
      else if (c == b'%') && not (d == b'%')
      then converted
      else plain

  -- The length that is returned, and the bytes that are written from the start of the buffer on.
  unfoldable pub vsnprintf : ℕ → Text → Option (ℕ × Text)
  vsnprintf size format = terminated (format_loop (sub32 size 1) format (0, []))
