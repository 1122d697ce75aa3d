-- ===== src/Process/Padded.antt =====
-- The copy of a part of a module into a page, as `create_process` makes it.
use lbos.Base.{ℕ, ◌+◌, ◌-◌, ◌≤◌, ◌<◌, ◌≡◌, ◌⊎◌, arith, ltb, leb, ◌&&◌, if◌then◌else◌, u8}
use lbos.Memory.{Ram, memset, memcpy}
use lbos.Memory.Blocks.{memset_lem, memcpy_lem}
use lbos.Frames.{frame_size}

-- The part of a page that the module fills, and zeros behind it.
abbrev pub padded : (size : ℕ) (source : ℕ) (frame_virt : ℕ) → Ram → Ram
padded size source frame_virt r =
    let copied = memcpy r frame_virt source size in
    if ltb size frame_size then memset copied (frame_virt + size) 0 (frame_size - size) else copied

pub padded_lem :
    (size source f : ℕ) (r : Ram)
    → size ≤ 4096
    → (f + size ≤ source) ⊎ (source + size ≤ f)
    → (b : ℕ)
    → padded size source f r b ≡ (
        if leb f b && ltb b (f + 4096)
        then (if ltb (b - f) size then u8 (r (source + (b - f))) else 0)
        else r b)
padded_lem size source f r fits apart b = ground (
  arith,
  memcpy_lem r f source size b apart,
  memset_lem (memcpy r f source size) (f + size) 0 (frame_size - size) b,
)

-- A block that has no byte in a frame lies before it or behind it.
pub beside :
    (f from n : ℕ)
    → n ≤ 4096
    → ((b : ℕ) → from ≤ b → b < from + n → (b < f) ⊎ (f + 4096 ≤ b))
    → (f + n ≤ from) ⊎ (from + n ≤ f)
beside f from n fits out = ground (arith, out f, out from)
