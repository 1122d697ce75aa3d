-- ===== src/Frames/Init.antt =====
-- What `init_page_frame_allocator` reserves.
use lbos.Base.{
  ℕ, zero, suc, ◌+◌, ◌-◌, ◌*◌, ◌/◌, ◌%◌, ◌^◌, ◌≤◌, ◌<◌, ◌≡◌, refl, ap, ◌∙◌, true, false, arith, ltb,
  leb, ◌&&◌, if◌then◌else◌, u32, bit-zero, bit_and-page,
}
use lbos.Memory.{memset}
use lbos.Memory.Blocks.{load32-memset_zero, load32-memset_apart}
use lbos.Interrupt.{Handlers}
use lbos.Frames.{
  Mem, slot, set_bit, test_bit, set_bits, alloc_frame, init_page_frame_allocator, configured,
  round_up, phys_to_virt, frame_size,
}
use lbos.Frames.Alloc.{alloc_frame-eq}
use lbos.Frames.Bitmap.{test_bit_lem, test_bit-set_bit}

pub test_bit-set_bits :
    (n i : ℕ) (m : Mem) (j : ℕ)
    → test_bit (set_bits n i m) j ≡ (if leb i j && ltb j (i + n) then true else test_bit m j)
unfolding set_bits
test_bit-set_bits zero i m j = ground arith
test_bit-set_bits (suc n) i m j =
    ground (arith, test_bit-set_bits n (i + 1) (set_bit m i) j, test_bit-set_bit m i j)

pub round_up_lem : (x : ℕ) → x + 4095 < 2 ^ 32 → round_up x ≡ (x + 4095) / 4096 * 4096
round_up_lem x h = omega (arith, bit_and-page (u32 (x + frame_size - 1)) (omega arith))

abbrev cleared : Mem → Mem
cleared c = record c { ram = memset c.ram c.frame_bitmap 0 c.bitmap_size }

test_bit-cleared :
    (c : Mem) (j : ℕ) → 4 * (j / 8) + 4 ≤ c.bitmap_size → test_bit (cleared c) j ≡ false
test_bit-cleared c j h = ground (
  arith,
  test_bit_lem (cleared c) j,
  load32-memset_zero c.ram c.frame_bitmap c.bitmap_size (slot c j) (omega arith) (omega arith),
  bit-zero (j % 8),
)

test_bit-not_cleared :
    (c : Mem) (j : ℕ) → c.bitmap_size ≤ 4 * (j / 8) → test_bit (cleared c) j ≡ test_bit c j
test_bit-not_cleared c j h = ground (
  arith,
  test_bit_lem (cleared c) j,
  test_bit_lem c j,
  load32-memset_apart c.ram c.frame_bitmap c.bitmap_size (slot c j),
)

-- Filling the bitmap writes memory and no variable.
only_ram : (n i : ℕ) (m : Mem) → set_bits n i m ≡ record m { ram = (set_bits n i m).ram }
unfolding set_bits set_bit
only_ram zero i m = refl
only_ram (suc n) i m = only_ram n (i + 1) (set_bit m i)

module _ (phys_start phys_end virt_start virt_end : ℕ) (m : Mem) (h : Handlers) where
  abbrev pub initialized : Mem
  initialized = (init_page_frame_allocator phys_start phys_end virt_start virt_end (m, h)).0

  abbrev kernel_end_frame : ℕ
  kernel_end_frame = (phys_end + 4095) / 4096 + 1

  -- The bitmap before and after its two loops.
  abbrev start : Mem
  start = cleared (configured m phys_start phys_end virt_start virt_end)

  abbrev low : Mem
  low = set_bits (phys_start / frame_size) 0 start

  abbrev rest : ℕ
  rest = u32 (round_up phys_end + 4096) / frame_size - phys_start / frame_size

  initialized_lem : initialized ≡ set_bits rest (phys_start / frame_size) low
  unfolding init_page_frame_allocator
  initialized_lem = refl

  initialized-variables : initialized ≡ record start { ram = initialized.ram }
  unfolding init_page_frame_allocator
  initialized-variables =
      only_ram rest (phys_start / frame_size) low
      ∙ ap (λ (x : Mem). record x { ram = initialized.ram })
          (only_ram (phys_start / frame_size) 0 start)

  init_bits :
      phys_start ≤ phys_end
      → phys_end + 8192 ≤ 2 ^ 32
      → (j : ℕ)
      → test_bit initialized j ≡ (if ltb j kernel_end_frame then true else test_bit start j)
  init_bits le small j = ground (
    arith,
    ap (λ (x : Mem). test_bit x j) initialized_lem,
    test_bit-set_bits rest (phys_start / frame_size) low j,
    test_bit-set_bits (phys_start / frame_size) 0 start j,
    round_up_lem phys_end,
  )

  -- For a kernel image that ends two frames below 4 GiB or lower, `init_page_frame_allocator` marks,
  -- of the frames whose bits lie in the cleared bitmap, exactly those below the frame behind the
  -- image and the first 4096 bytes of the bitmap.
  pub init-reserves :
      phys_start ≤ phys_end
      → phys_end + 8192 ≤ 2 ^ 32
      → (j : ℕ) → j < 8192
      → test_bit initialized j ≡ ltb j kernel_end_frame
  init-reserves le small j lt = ground (
    arith,
    init_bits le small j,
    test_bit-cleared (configured m phys_start phys_end virt_start virt_end) j (omega arith),
  )

  -- The first frame handed out after initialization, for an image below 32 MiB at the linked offset,
  -- is the frame behind the first 4096 bytes of the bitmap, and the words with the bits of the managed frames
  -- 8192 to 16383 lie in that same frame, from its first byte on.
  pub init-bitmap_overlap :
      phys_start ≤ phys_end
      → phys_end + 8192 ≤ 2 ^ 25
      → virt_start ≡ phys_start + 0xc000_0000
      → ((alloc_frame initialized).0 ≡ kernel_end_frame * frame_size)
        × (phys_to_virt initialized (alloc_frame initialized).0 ≡ slot initialized 8192)
        × ((j : ℕ)
            → 8192 ≤ j
            → j < 16384
            → (slot initialized 8192 ≤ slot initialized j)
              × (slot initialized j + 4 ≤ slot initialized 8192 + frame_size))
        × (16384 ≤ initialized.total_frames)
  unfolding phys_to_virt
  init-bitmap_overlap le small linked =
      let total : initialized.total_frames ≡ 32768 =
        ap (λ (x : Mem). x.total_frames) initialized-variables in
      let answer : (alloc_frame initialized).0 ≡ kernel_end_frame * frame_size =
        alloc_frame-eq initialized kernel_end_frame (omega arith) (omega arith)
          (ground (arith, init-reserves le (omega arith) kernel_end_frame))
          (λ j below. ground (arith, init-reserves le (omega arith) j)) in
      (
        answer,
        rw (answer, initialized-variables) (omega (arith, round_up_lem phys_end)),
        λ j lo hi. omega arith,
        omega arith,
      )
