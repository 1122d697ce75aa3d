-- ===== src/Paging/Table.antt =====
-- The entry that `map_page` makes for a new page table.
use lbos.Base.{
  ℕ, ◌+◌, ◌*◌, ◌/◌, ◌%◌, ◌≡◌, ap, ◌∙◌, arith, bit_or, bit_or-page, bit_or_step, bit_or-fields, max,
}
use lbos.Paging.{page_present, page_rw, page_user}

-- The entry for a table in the frame `k`.
abbrev pub table_entry : ℕ → ℕ
table_entry t = bit_or (bit_or (bit_or t page_present) page_rw) page_user

or_two : (q : ℕ) → bit_or (q * 4096 + 1) 2 ≡ q * 4096 + 3
or_two q =
    let half : (q * 4096 + 1) / 2 ≡ q * 2048 = omega arith in
    let low : max ((q * 4096 + 1) % 2) (2 % 2) ≡ 1 = ground arith in
    bit_or_step (q * 4096 + 1) 2 ∙ rw (half, low, bit_or-fields 11 q 1 (omega arith)) (omega arith)

or_four : (q : ℕ) → bit_or (q * 4096 + 3) 4 ≡ q * 4096 + 7
or_four q =
    let half : (q * 4096 + 3) / 2 ≡ q * 2048 + 1 = omega arith in
    let low : max ((q * 4096 + 3) % 2) (4 % 2) ≡ 1 = ground arith in
    let half' : (q * 2048 + 1) / 2 ≡ q * 1024 = omega arith in
    let low' : max ((q * 2048 + 1) % 2) (2 % 2) ≡ 1 = ground arith in
    bit_or_step (q * 4096 + 3) 4
    ∙ rw (half, low, bit_or_step (q * 2048 + 1) 2)
        (rw (half', low', bit_or-fields 10 q 1 (omega arith)) (omega arith))

pub table_entry_lem : (k : ℕ) → table_entry (k * 4096) ≡ k * 4096 + 7
table_entry_lem k =
    ap (λ (x : ℕ). bit_or (bit_or x 2) 4) (bit_or-page k 1 (omega arith))
    ∙ ap (λ (x : ℕ). bit_or x 4) (or_two k)
    ∙ or_four k
