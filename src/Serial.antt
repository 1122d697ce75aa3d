-- ===== src/Serial.antt =====
-- drivers/serial.c: the line to the host. What the device answers is a parameter: `status n` is the line
-- status register at the read number `n`.
pub mod Wait
pub mod Swap
pub mod Digits
pub mod Output
use lbos.Base.{
  ℕ, zero, suc, ◌+◌, ◌-◌, ◌*◌, ◌/◌, ◌%◌, ◌^◌, Bool, true, false, not, Option, none, some, List, [],
  ◌∷◌, ◌++◌, ◌||◌, bit_and, ◌==◌, ltb, leb, if◌then◌else◌, length, get_or, set, u8, sub32, ◌>>>◌,
}
use lbos.Kernel.{minus_one}
use lbos.Text.{Text}

abbrev pub serial_com1_base : ℕ
serial_com1_base = 0x3f8

abbrev pub serial_data_port : ℕ → ℕ
serial_data_port base = base

abbrev pub serial_fifo_command_port : ℕ → ℕ
serial_fifo_command_port base = base + 2

abbrev pub serial_line_command_port : ℕ → ℕ
serial_line_command_port base = base + 3

abbrev pub serial_modem_command_port : ℕ → ℕ
serial_modem_command_port base = base + 4

abbrev pub serial_line_enable_dlab : ℕ
serial_line_enable_dlab = 0x80

abbrev pub serial_line_command_port_value : ℕ
serial_line_command_port_value = 0x03

abbrev pub serial_fifo_command_port_value : ℕ
serial_fifo_command_port_value = 0xc7

abbrev pub serial_modem_command_port_value : ℕ
serial_modem_command_port_value = 0x03

abbrev pub serial_max_wait_attempts : ℕ
serial_max_wait_attempts = 1000

-- How often the status was read, and what was written to which port, in order.
pub record Line : Type 0 where
  pub reads : ℕ
  pub ports : List (ℕ × ℕ)

abbrev pub out : ℕ → ℕ → Line → Line
out port value s = record s { ports = s.ports ++ (port, u8 value) ∷ [] }

unfoldable pub serial_configure_line : ℕ → Line → Line
serial_configure_line base = out (serial_line_command_port base) serial_line_command_port_value

unfoldable pub serial_configure_fifo : ℕ → Line → Line
serial_configure_fifo base = out (serial_fifo_command_port base) serial_fifo_command_port_value

unfoldable pub serial_configure_modem : ℕ → Line → Line
serial_configure_modem base = out (serial_modem_command_port base) serial_modem_command_port_value

unfoldable pub serial_configure_baud_rate : (base divisor : ℕ) → Line → Line
serial_configure_baud_rate base divisor s =
    let s1 = out (serial_line_command_port base) serial_line_enable_dlab s in
    let s2 = out (serial_data_port base) (bit_and (divisor >>> 8) 0x00ff) s1 in
    out (serial_data_port base) (bit_and divisor 0x00ff) s2

-- `hex_chars[d]` for a digit below 16.
abbrev pub hex_char : ℕ → ℕ
hex_char d = if ltb d 10 then b'0' + d else b'A' + (d - 10)

-- The loop over the buffer, which is filled from its last place to its first.
abbrev pub hex_loop : ℕ → ℕ → Text → Text
hex_loop zero num buf = buf
hex_loop (suc i) num buf = hex_loop i (num >>> 4) (hex_char (bit_and num 0xf) ∷ buf)

unfoldable pub num_to_hex : ℕ → Text
num_to_hex num = hex_loop 8 num []

-- `while (num > 0)`: the digits from the last on. Ten rounds are enough below 2^31.
unfoldable pub decimal_loop : ℕ → ℕ → Text
decimal_loop zero num = []
decimal_loop (suc rounds) num =
    let rest = decimal_loop rounds (num / 10) in if num == 0 then [] else (b'0' + num % 10) ∷ rest

-- `while (start < end)`: the characters change places.
abbrev pub swap_loop : ℕ → (start end : ℕ) → Text → Text
swap_loop zero start end buf = buf
swap_loop (suc rounds) start end buf =
    let temp = get_or buf start 0 in
    let swapped = set (set buf start (get_or buf end 0)) end temp in
    let rest = swap_loop rounds (start + 1) (end - 1) swapped in if ltb start end then rest else buf

-- An `int32_t` is the word that holds it; the minus sign wraps around at the least number.
abbrev pub is_negative : ℕ → Bool
is_negative num = leb (2 ^ 31) num

-- The buffer before its characters are put into order.
abbrev pub reversed_decimal : ℕ → Text
reversed_decimal num =
    let magnitude = if is_negative num then sub32 0 num else num in
    let digits =
      if magnitude == 0
      then b'0' ∷ []
      else if is_negative magnitude
      then []
      else decimal_loop 10 magnitude in
    if is_negative num then digits ++ b'-' ∷ [] else digits

unfoldable pub num_to_decimal : ℕ → Text
num_to_decimal num = let buf = reversed_decimal num in swap_loop (length buf) 0 (length buf - 1) buf

module _ (status : ℕ → ℕ) where
  abbrev pub read_status : Line → Line
  read_status s = record s { reads = s.reads + 1 }

  abbrev pub is_empty : Line → Bool
  is_empty s = not (bit_and (status s.reads) 0x20 == 0)

  -- `while (serial_is_transmit_fifo_empty(base) == 0)` with the attempts that are left; false when they run out.
  unfoldable pub wait_loop : ℕ → Line → Bool × Line
  wait_loop zero s = (false, s)
  wait_loop (suc left) s =
      let rest = wait_loop left (read_status s) in
      if is_empty s then (true, read_status s) else rest

  unfoldable pub serial_write_byte : (base byte : ℕ) → Line → ℕ × Line
  unfolding wait_loop
  serial_write_byte base byte s =
      let (ready, s') = wait_loop serial_max_wait_attempts s in
      if ready then (0, out (serial_data_port base) byte s') else (minus_one, s')

  -- The loop of `serial_write` at index `i`, with `rounds` characters left.
  unfoldable pub write_loop : Text → ℕ → ℕ → Line → Bool × ℕ × Line
  unfolding serial_write_byte
  write_loop str zero i s = (true, i, s)
  write_loop str (suc rounds) i s =
      let (failed, s') = serial_write_byte serial_com1_base (get_or str i 0) s in
      let rest = write_loop str rounds (i + 1) s' in
      if is_negative failed then (false, i, s') else rest

  abbrev pub write_all : Text → ℕ → Line → ℕ × Line
  write_all str len s =
      let (complete, written, s') = write_loop str len 0 s in
      if complete then (len, (wait_loop serial_max_wait_attempts s').1) else (written, s')

  -- NULL is `none`; a length of 0 or below asks for the whole text.
  unfoldable pub serial_write : Option Text → ℕ → Line → ℕ × Line
  unfolding write_loop
  serial_write none len s = (0, s)
  serial_write (some str) len s =
      write_all str (if len == 0 || is_negative len then length str else len) s

  unfoldable pub serial_write_hex : ℕ → Line → ℕ × Line
  unfolding serial_write num_to_hex
  serial_write_hex num = serial_write (some (num_to_hex num)) 8

  unfoldable pub serial_write_decimal : ℕ → Line → ℕ × Line
  unfolding serial_write num_to_decimal
  serial_write_decimal num = serial_write (some (num_to_decimal num)) minus_one

  -- -2 as a word, where the device does not answer.
  unfoldable pub serial_init : ℕ → Line → ℕ × Line
  unfolding wait_loop serial_configure_line serial_configure_fifo serial_configure_modem
      serial_configure_baud_rate
  serial_init base s =
      let s1 = serial_configure_baud_rate base 1 s in
      let s2 =
        serial_configure_modem base (serial_configure_fifo base (serial_configure_line base s1)) in
      let s3 = out (serial_data_port base) 0xaa s2 in
      let (ready, s4) = wait_loop serial_max_wait_attempts s3 in
      if base == serial_com1_base
      then (if ready then (0, s4) else (2 ^ 32 - 2, s4))
      else (minus_one, s)
