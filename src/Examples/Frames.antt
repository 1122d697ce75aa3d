-- ===== src/Examples/Frames.antt =====
-- mem/page_frame_allocator.c on a small machine and on the kernel's own layout.
use lbos.Base.{ℕ, ◌≤◌, ◌+◌, [], ◌∷◌, ◌*◌, ◌<◌, ◌≡◌, refl, false, arith, ◌==◌, if◌then◌else◌}
use lbos.Memory.{load32}
use lbos.Interrupt.{no_handlers}
use lbos.Frames.{
  Mem, slot, set_bit, test_bit, alloc_loop, alloc_frame, free_frame, is_frame_allocated, frame_size,
  init_page_frame_allocator, phys_to_virt,
}
use lbos.Frames.Alloc
use lbos.Frames.Init
use lbos.Frames.Refines

-- Sixteen frames, the first three of them in use.
abbrev pub small : Mem
small = record {
  ram = λ a. if a == 0xc020_0000 then 7 else 0;
  frame_bitmap = 0xc020_0000;
  bitmap_size = 4096;
  total_frames = 16;
  kernel_physical_start = 0x10_0000;
  kernel_physical_end = 0x12_0000;
  kernel_virtual_start = 0xc010_0000;
  kernel_virtual_end = 0xc012_0000;
}

alloc_frame-small : (alloc_frame small).0 ≡ 3 * frame_size
unfolding alloc_frame alloc_loop test_bit set_bit load32
alloc_frame-small = refl

alloc_frame-lowest_example : Alloc.AllocatesLowest small (alloc_frame small)
alloc_frame-lowest_example = Alloc.alloc_frame-lowest small (omega arith)

is_frame_allocated-free_frame_example :
    is_frame_allocated (free_frame small 0x2abc) 0x1000 ≡ is_frame_allocated small 0x1000
is_frame_allocated-free_frame_example =
    Alloc.is_frame_allocated-free_frame small 0x2abc 0x1000 (omega arith)

init-reserves_example :
    test_bit
      (init_page_frame_allocator 0x10_0000 0x12_0345 0xc010_0000 0xc012_0345 (small, no_handlers)).0
      290
    ≡ false
init-reserves_example =
    Init.init-reserves 0x10_0000 0x12_0345 0xc010_0000 0xc012_0345 small no_handlers (omega arith)
      (omega arith) 290 (omega arith)

init-bitmap_overlap_example :
    ((alloc_frame
        (Init.initialized 0x10_0000 0x12_0345 0xc010_0000 0xc012_0345 small no_handlers)).0
      ≡ 0x12_2000)
    × (phys_to_virt
          (Init.initialized 0x10_0000 0x12_0345 0xc010_0000 0xc012_0345 small no_handlers)
          (alloc_frame
            (Init.initialized 0x10_0000 0x12_0345 0xc010_0000 0xc012_0345 small no_handlers)).0
        ≡ slot
            (Init.initialized 0x10_0000 0x12_0345 0xc010_0000 0xc012_0345 small no_handlers)
            8192)
    × ((j : ℕ)
        → 8192 ≤ j
        → j < 16384
        → (slot
              (Init.initialized 0x10_0000 0x12_0345 0xc010_0000 0xc012_0345 small no_handlers)
              8192
            ≤ slot
                (Init.initialized 0x10_0000 0x12_0345 0xc010_0000 0xc012_0345 small no_handlers)
                j)
          × (slot (Init.initialized 0x10_0000 0x12_0345 0xc010_0000 0xc012_0345 small no_handlers) j
                + 4
              ≤ slot
                  (Init.initialized 0x10_0000 0x12_0345 0xc010_0000 0xc012_0345 small no_handlers)
                  8192
                + 4096))
    × (16384
        ≤ (Init.initialized 0x10_0000 0x12_0345 0xc010_0000 0xc012_0345 small
            no_handlers).total_frames)
init-bitmap_overlap_example =
    Init.init-bitmap_overlap 0x10_0000 0x12_0345 0xc010_0000 0xc012_0345 small no_handlers
      (omega arith) (omega arith) (omega arith)

-- Two frames are taken, one is given back and taken again.
run-Stands_example :
    ((Refines.run
        (Refines.alloc ∷ Refines.alloc ∷ Refines.free 0x3000 ∷ Refines.alloc ∷ [])
        small).0
      ≡ 0x3000 ∷ 0x4000 ∷ 0 ∷ 0x3000 ∷ [])
    × Refines.Stands 16
        (Refines.run
          (Refines.alloc ∷ Refines.alloc ∷ Refines.free 0x3000 ∷ Refines.alloc ∷ [])
          small).1
        (Refines.replay 16
          (Refines.alloc ∷ Refines.alloc ∷ Refines.free 0x3000 ∷ Refines.alloc ∷ [])
          (test_bit small)).1
unfolding test_bit load32
run-Stands_example =
    Refines.run-Stands 16 (Refines.alloc ∷ Refines.alloc ∷ Refines.free 0x3000 ∷ Refines.alloc ∷ [])
      small (test_bit small) (omega arith) (record { frames = refl; bits = λ j. refl })
