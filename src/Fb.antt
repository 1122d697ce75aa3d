-- ===== src/Fb.antt =====
-- drivers/fb.c and include/drivers/fb.h: the text screen, which is memory at a fixed address, and its cursor.
pub mod Cells
use lbos.Base.{
  ℕ, zero, suc, ◌+◌, ◌*◌, List, [], ◌∷◌, ◌++◌, bit_and, bit_or, get_or, u8, u16, u32, add32, mul32,
  ◌<<<◌, ◌>>>◌,
}
use lbos.Memory.{Ram, write8}
use lbos.Text.{Text}

abbrev pub fb_command_port : ℕ
fb_command_port = 0x3d4

abbrev pub fb_data_port : ℕ
fb_data_port = 0x3d5

abbrev pub fb_high_byte_command : ℕ
fb_high_byte_command = 14

abbrev pub fb_low_byte_command : ℕ
fb_low_byte_command = 15

abbrev pub fb_black : ℕ
fb_black = 0

abbrev pub fb_white : ℕ
fb_white = 15

-- `fb`
abbrev pub fb : ℕ
fb = 0x000b8000

-- Memory, and what was written to which port, in order.
pub record Screen : Type 0 where
  pub ram : Ram
  pub ports : List (ℕ × ℕ)

abbrev pub outb : ℕ → ℕ → Screen → Screen
outb port value s = record s { ports = s.ports ++ (port, u8 value) ∷ [] }

unfoldable pub fb_write_cell : (i c fg bg : ℕ) → Screen → Screen
unfolding write8
fb_write_cell i c fg bg s = record s {
  ram =
      write8 (write8 s.ram (add32 fb i) c) (add32 fb (add32 i 1))
        (bit_or (bit_and fg 0x0f <<< 4) (bit_and bg 0x0f));
}

unfoldable pub fb_move_cursor : ℕ → Screen → Screen
fb_move_cursor pos s =
    let s1 = outb fb_command_port fb_high_byte_command s in
    let s2 = outb fb_data_port (bit_and (pos >>> 8) 0x00ff) s1 in
    let s3 = outb fb_command_port fb_low_byte_command s2 in
    outb fb_data_port (bit_and pos 0x00ff) s3

-- The loop at index `i` with `rounds` characters left.
unfoldable pub fb_loop : Text → (i rounds : ℕ) → Screen → Screen
unfolding fb_write_cell fb_move_cursor
fb_loop buf i zero s = s
fb_loop buf i (suc rounds) s =
    fb_loop buf (u32 (i + 1)) rounds (
      fb_move_cursor (u16 (i + 1)) (fb_write_cell (mul32 i 2) (get_or buf i 0) fb_white fb_black s))

-- The buffer lies outside the screen.
unfoldable pub fb_write : Text → ℕ → Screen → ℕ × Screen
unfolding fb_loop
fb_write buf len s = (len, fb_loop buf 0 len s)
