-- ===== src/Log.antt =====
-- lib/log.c and include/lib/log.h: the log on the serial line. The arguments of a format are the words on the stack
-- behind it, `args n` the one of number `n`, and the text at an address is a parameter.
pub mod Sent
pub mod Pieces
pub mod Passes
pub mod Written
use lbos.Base.{
  ℕ, zero, suc, ◌+◌, ◌-◌, Bool, true, false, not, Option, none, some, List, [], ◌∷◌, ◌++◌, ◌==◌,
  ltb, leb, if◌then◌else◌, u8, replicate,
}
use lbos.Kernel.{minus_one}
use lbos.Text.{Text, codes}
use lbos.Serial.{
  Line, serial_com1_base, serial_init, serial_write, serial_write_hex, serial_write_decimal,
}

-- `log_level_t`, by its number.
abbrev pub log_level_debug : ℕ
log_level_debug = 0

abbrev pub log_level_info : ℕ
log_level_info = 1

abbrev pub log_level_warn : ℕ
log_level_warn = 2

abbrev pub log_level_error : ℕ
log_level_error = 3

abbrev pub log_level_fatal : ℕ
log_level_fatal = 4

abbrev pub escape : ℕ
escape = 27

abbrev pub log_color_reset : Text
log_color_reset = escape ∷ codes "[0m"

abbrev pub log_color : ℕ → Text
log_color level =
    escape
    ∷ (if level == log_level_debug
        then codes "[36m"
        else if level == log_level_info
        then codes "[32m"
        else if level == log_level_warn
        then codes "[33m"
        else if level == log_level_error
        then codes "[31m"
        else codes "[35m")

abbrev pub level_name : ℕ → Text
level_name level =
    if level == log_level_debug
    then codes "[DEBUG]"
    else if level == log_level_info
    then codes "[INFO]"
    else if level == log_level_warn
    then codes "[WARN]"
    else if level == log_level_error
    then codes "[ERROR]"
    else codes "[FATAL]"

-- `level_strings` and `level_lengths`
unfoldable pub level_string : ℕ → Text
level_string level = log_color level ++ level_name level ++ log_color_reset

unfoldable pub level_length : ℕ → ℕ
level_length level =
    if level == log_level_debug
    then 7
    else if level == log_level_info
    then 6
    else if level == log_level_warn
    then 6
    else if level == log_level_error
    then 7
    else 7

-- Where the loop over the format stands: before a character, behind a `%`, or inside an escape sequence, with the
-- characters from `color_start` on.
pub data Mode : Type 0 where
  plain : Mode
  percent : Mode
  color : Text → Mode

-- The mode, the number of the next argument, and the line.
pub record Scan : Type 0 where
  pub mode : Mode
  pub next : ℕ
  pub line : Line

abbrev pub log_set_level : (level current_log_level : ℕ) → ℕ
log_set_level level current_log_level = level

module _ (status : ℕ → ℕ) (text_at : ℕ → Text) where
  -- `serial_write(str, -1)` and `serial_write(&c, 1)`
  abbrev pub put : Text → Line → Line
  put str s = (serial_write status (some str) minus_one s).1

  abbrev pub put_char : ℕ → Line → Line
  put_char c s = (serial_write status (some (c ∷ [])) 1 s).1

  -- "(null)" for a null pointer.
  abbrev pub put_string : ℕ → Line → Line
  put_string str s =
      if str == 0 then (serial_write status (some (codes "(null)")) 6 s).1 else put (text_at str) s

  -- `switch (*p)`
  unfoldable pub directive : (args : ℕ → ℕ) → ℕ → Scan → Scan
  directive args c s =
      if c == b'd'
      then record {
        mode = plain;
        next = s.next + 1;
        line = (serial_write_decimal status (args s.next) s.line).1;
      }
      else if c == b'x'
      then record {
        mode = plain;
        next = s.next + 1;
        line = (serial_write_hex status (args s.next) s.line).1;
      }
      else if c == b's'
      then record { mode = plain; next = s.next + 1; line = put_string (args s.next) s.line }
      else if c == b'c'
      then record { mode = plain; next = s.next + 1; line = put_char (u8 (args s.next)) s.line }
      else record { mode = plain; next = s.next; line = put_char c s.line }

  -- One character of the format. An escape sequence is written when its `m` is reached, and not at the level of
  -- information.
  unfoldable pub log_char : (args : ℕ → ℕ) → (level c : ℕ) → Mode → Scan → Scan
  log_char args level c plain s =
      if c == b'%'
      then record s { mode = percent }
      else if c == escape
      then record s { mode = color (c ∷ []) }
      else record s { line = put_char c s.line }
  log_char args level c percent s = directive args c s
  log_char args level c (color start) s =
      if c == b'm'
      then record s {
        mode = plain;
        line = if not (level == log_level_info) then put (start ++ c ∷ []) s.line else s.line;
      }
      else record s { mode = color (start ++ c ∷ []) }

  unfoldable pub log_loop : (args : ℕ → ℕ) → ℕ → Text → Scan → Scan
  log_loop args level [] s = s
  log_loop args level (c ∷ format) s = log_loop args level format (log_char args level c s.mode s)

  -- Behind a `%` the terminator is taken for the character of a directive, and what is read next lies outside
  -- the format: none.
  abbrev pub finish : Mode → Line → Option Line
  finish plain s = some (put_char 10 s)
  finish percent s = none
  finish (color start) s = some (put_char 10 s)

  abbrev pub put_spaces : ℕ → Line → Line
  put_spaces zero s = s
  put_spaces (suc spaces) s = put_spaces spaces (put_char b' ' s)

  unfoldable pub log_write :
      (current_log_level : ℕ) → (args : ℕ → ℕ) → (level : ℕ) → Text → Line → Option Line
  log_write current_log_level args level format s =
      let headed = put_spaces (10 - level_length level) (put (level_string level) s) in
      let end = log_loop args level format (record { mode = plain; next = 0; line = headed }) in
      if ltb level current_log_level then some s else finish end.mode end.line

  -- `log_init`, without the loop that only waits.
  unfoldable pub log_init : Line → Line
  log_init s =
      let (failed, s1) = serial_init status serial_com1_base s in
      if not (failed == 0) then s1 else put_char 10 (put_char 10 s1)

  -- The functions for one level give the address of the list of arguments, a word, to `log_write`, where it is the first argument.
  -- `stack n` are the words behind it.
  abbrev pub with_list : (list : ℕ) → (stack : ℕ → ℕ) → ℕ → ℕ
  with_list list stack zero = list
  with_list list stack (suc n) = stack n

  abbrev pub log_at :
      (level current_log_level list : ℕ) → (stack : ℕ → ℕ) → Text → Line → Option Line
  log_at level current_log_level list stack format s =
      if leb current_log_level level
      then log_write current_log_level (with_list list stack) level format s
      else some s

  unfoldable pub log_debug :
      (current_log_level list : ℕ) → (stack : ℕ → ℕ) → Text → Line → Option Line
  log_debug = log_at log_level_debug

  unfoldable pub log_info :
      (current_log_level list : ℕ) → (stack : ℕ → ℕ) → Text → Line → Option Line
  log_info = log_at log_level_info

  unfoldable pub log_warn :
      (current_log_level list : ℕ) → (stack : ℕ → ℕ) → Text → Line → Option Line
  log_warn = log_at log_level_warn

  unfoldable pub log_error :
      (current_log_level list : ℕ) → (stack : ℕ → ℕ) → Text → Line → Option Line
  log_error = log_at log_level_error

  unfoldable pub log_fatal :
      (current_log_level list : ℕ) → (stack : ℕ → ℕ) → Text → Line → Option Line
  log_fatal = log_at log_level_fatal
