-- ===== src/Memory.antt =====
-- Memory as the kernel addresses it: a byte at each kernel address, with the 32-bit little-endian
-- accesses of the code, and `memset` and `memcpy` of lib/string.c over it.
pub mod Words
pub mod Blocks
pub mod Strings
use lbos.Base.{ℕ, zero, suc, ◌+◌, ◌*◌, ◌/◌, ◌%◌, ◌^◌, Option, none, some, ◌==◌, if◌then◌else◌, u8}

abbrev pub Ram : Type 0
Ram = ℕ → ℕ

-- A store of one byte.
unfoldable pub write8 : Ram → ℕ → ℕ → Ram
write8 m a v b = if a == b then u8 v else m b

-- `*(uint32_t*)a` as a value and as the target of an assignment.
unfoldable pub load32 : Ram → ℕ → ℕ
load32 m a = m a + m (a + 1) * 2 ^ 8 + m (a + 2) * 2 ^ 16 + m (a + 3) * 2 ^ 24

unfoldable pub store32 : Ram → ℕ → ℕ → Ram
unfolding write8
store32 m a v =
    write8 (write8 (write8 (write8 m a v) (a + 1) (v / 2 ^ 8)) (a + 2) (v / 2 ^ 16)) (a + 3)
      (v / 2 ^ 24)

-- `while (count-- > 0) *ptr++ = val`
unfoldable pub memset : Ram → ℕ → ℕ → ℕ → Ram
memset m ptr val zero = m
memset m ptr val (suc count) = memset (write8 m ptr val) (ptr + 1) val count

-- `while (count-- > 0) *d++ = *s++`
unfoldable pub memcpy : Ram → ℕ → ℕ → ℕ → Ram
memcpy m d s zero = m
memcpy m d s (suc count) = memcpy (write8 m d (m s)) (d + 1) (s + 1) count

-- `while (str[len]) len++`, for at most `rounds` characters; none where the string is longer.
unfoldable pub strlen : ℕ → Ram → (str len : ℕ) → Option ℕ
strlen zero m str len = none
strlen (suc rounds) m str len =
    let rest = strlen rounds m str (len + 1) in if m (str + len) == 0 then some len else rest

-- `while ((*d++ = *src++))`, for at most `rounds` characters.
unfoldable pub strcpy : ℕ → Ram → (d src : ℕ) → Option Ram
strcpy zero m d src = none
strcpy (suc rounds) m d src =
    let copied = write8 m d (m src) in
    let rest = strcpy rounds copied (d + 1) (src + 1) in if copied d == 0 then some copied else rest

-- The first loop, and the second where the string has ended.
unfoldable pub strncpy : Ram → (d s count : ℕ) → Ram
strncpy m d s zero = m
strncpy m d s (suc count) =
    let rest = strncpy (write8 m d (m s)) (d + 1) (s + 1) count in
    if m s == 0 then memset m d 0 (suc count) else rest
