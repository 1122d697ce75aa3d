-- ===== src/Initrd/Read.antt =====
-- Opening and reading a file of the initrd.
use lbos.Base.{
  ℕ, ◌+◌, ◌-◌, ◌^◌, ◌<◌, ◌≤◌, ◌≡◌, refl, ap, ◌⊎◌, inl, inr, Bool-cases, false, arith, ltb, leb,
  ◌&&◌, if◌then◌else◌, min,
}
use lbos.Memory.{load32}
use lbos.Memory.Blocks.{IsBytes, memcpy_lem}
use lbos.Vfs.{Descriptor}
use lbos.Initrd.{Initrd, num_files, file_size, file_offset, file_at, initrd_read}

-- The bytes that a read at the descriptor's position can still give.
abbrev pub available : Descriptor → Initrd → ℕ
available fd r = file_size r fd.inode - fd.position

-- Where the next byte to read lies.
abbrev pub source_of : Descriptor → Initrd → ℕ
source_of fd r = r.initrd_data + file_offset r fd.inode + fd.position

-- A read of `n` bytes: the descriptor moves on, the buffer holds a copy, and no other memory changes.
pub record Copies (buffer n : ℕ) (fd : Descriptor) (r : Initrd) (s : ℕ × Descriptor × Initrd)
    : Type 0 where
  pub answer : s.0 ≡ n
  pub moved : s.1 ≡ record fd { position = fd.position + n }
  pub memory :
      (b : ℕ)
      → s.2.ram b ≡ (
          if leb buffer b && ltb b (buffer + n)
          then r.ram (source_of fd r + (b - buffer))
          else r.ram b)
  pub header : s.2.initrd_header ≡ r.initrd_header

file_size-bound : (r : Initrd) (i : ℕ) → IsBytes r.ram → file_size r i < 2 ^ 32
unfolding load32
file_size-bound r i bytes =
    let a = file_at r i + 32 in omega (arith, bytes a, bytes (a + 1), bytes (a + 2), bytes (a + 3))

count_lem : (a b : ℕ) → (if ltb a b then a else b) ≡ min a b
count_lem a b = ground arith

module _ (buffer size : ℕ) (fd : Descriptor) (r : Initrd) where
  -- Reading an open file into a buffer apart from what is read gives as many bytes as were asked for, or
  -- as are left, and they are the file's bytes from the descriptor's position on.
  pub initrd_read-Copies :
      IsBytes r.ram
      → fd.inode < num_files r
      → fd.position ≤ file_size r fd.inode
      → (buffer + min size (available fd r) ≤ source_of fd r)
        ⊎ (source_of fd r + min size (available fd r) ≤ buffer)
      → Copies buffer (min size (available fd r)) fd r (initrd_read buffer size fd r)
  unfolding initrd_read
  initrd_read-Copies bytes known within apart =
      let here : leb (num_files r) fd.inode ≡ false = ground arith in
      let count = count_lem size (available fd r) in
      elim (Bool-cases (leb (file_size r fd.inode) fd.position)) [
        | inl at_end ↦
            let none_left : min size (available fd r) ≡ 0 = ground arith in
            rw (here, at_end, none_left)
              (record {
                answer = refl;
                moved = ap (λ (p : ℕ). record fd { position = p }) (omega arith);
                memory = λ b. ground arith;
                header = refl;
              })
        | inr some_left ↦
            rw (here, some_left, count)
              (record {
                answer = refl;
                moved =
                    ap (λ (p : ℕ). record fd { position = p })
                      (omega (arith, file_size-bound r fd.inode bytes));
                memory = λ b. ground (
                  arith,
                  memcpy_lem r.ram buffer (source_of fd r) (min size (available fd r)) b apart,
                  bytes (source_of fd r + (b - buffer)),
                );
                header = refl;
              })
      ]
