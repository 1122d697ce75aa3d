-- ===== src/Paging/Mapped.antt =====
-- `map_page` on a directory in the allocator's care, with a new page table where there is none.
use lbos.Base.{
  ℕ, ◌+◌, ◌/◌, ◌%◌, ◌^◌, ◌<◌, ◌≡◌, ◌≢◌, ◌*◌, refl, sym, ap, ◌∙◌, Bool, true, false, arith, ◌==◌,
  if◌then◌else◌, bit_or,
}
use lbos.Frames.{Mem, alloc_frame, test_bit}
use lbos.Paging.{is_present, page_of, ensure_table, write_entry, map_page, get_physical_address}
use lbos.Paging.Walk.{pde, page_of_aligned}
use mathlib.Core.Path.{subst}
use lbos.Paging.Entry.{get-write_entry, pde-write_entry}
use lbos.Paging.Map.{translates-entry}
use lbos.Paging.Owned.{Part, Owns, test_bit-Within}
use lbos.Paging.Fresh.{SameTranslations, write_entry-Within}
use lbos.Paging.Room.{Room-Same, Spends}
use lbos.Paging.Guard.{Guarded, Leaves, Leaves-mono, Within-Leaves, Guarded-ne-free}
use lbos.Paging.Spare.{Kept, write_entry-Kept, Kept-trans}
use lbos.Paging.Ensure.{Ensured, ready, failed, TableOf, old, new, ensure_table-Ensured}

-- The frames of the directory that `map_page` writes to.
pub data Written (m : Mem) (pd v p : ℕ) : Type 0 where
  directory : p ≡ pd → Written m pd v p
  table : is_present (pde m pd v) ≡ true → p ≡ page_of (pde m pd v) → Written m pd v p

-- Either the page of `v` leads to the frame `p` and all else is as before, with a table from a free frame at most,
-- or there was no table and no frame for one, and nothing changes.
pub data Maps (limit : ℕ) (m : Mem) (pd v p : ℕ) (m' : Mem) : Type 0 where
  maps :
      Kept limit m m' pd
      → ((x : ℕ)
          → x < 2 ^ 32
          → get_physical_address m' pd x
            ≡ (if v / 4096 == x / 4096 then p + x % 4096 else get_physical_address m pd x))
      → Leaves limit m m' (Written m pd v)
      → ((x : ℕ)
          → x < 2 ^ 32
          → is_present (pde m' pd x) ≡ true
          → TableOf m pd x (page_of (pde m' pd x)))
      → Spends limit m m' 1
      → Maps limit m pd v p m'
  fails :
      is_present (pde m pd v) ≡ false
      → (alloc_frame m).0 ≡ 0
      → Kept limit m m' pd
      → SameTranslations m m' pd
      → Leaves limit m m' (Written m pd v)
      → Maps limit m pd v p m'

table-ne :
    {limit : ℕ} {m : Mem} {pd v t : ℕ}
    → TableOf m pd v t
    → (j : ℕ) → Guarded limit m j
    → ¬ Written m pd v (j * 4096)
    → j * 4096 ≢ t
table-ne (old here e) j g n e' = n (table here (e' ∙ e))
table-ne (new k free e) j g n e' = Guarded-ne-free j k g free (omega (arith, e, e'))

write_entry-Leaves :
    {limit : ℕ} {m : Mem} {pd : ℕ} (o : Owns limit m pd) (v e : ℕ) (hv : v < 2 ^ 32)
    → (here : is_present (pde m pd v) ≡ true)
    → Leaves limit m (write_entry m pd v e) (λ p. p ≡ page_of (pde m pd v))
unfolding write_entry
write_entry-Leaves {limit} {m} {pd} o v e hv here =
    let t = page_of (pde m pd v) in
    Within-Leaves m (write_entry m pd v e).ram t (page_of_aligned (pde m pd v))
      (λ i hi. o.apart i t hi (Part.table v hv here refl)) (write_entry-Within o v e hv here)

write_entry-bits :
    {limit : ℕ} {m : Mem} {pd : ℕ} (o : Owns limit m pd) (v e : ℕ) (hv : v < 2 ^ 32)
    → is_present (pde m pd v) ≡ true
    → (j : ℕ) → j < limit
    → test_bit (write_entry m pd v e) j ≡ test_bit m j
unfolding write_entry
write_entry-bits {limit} {m} {pd} o v e hv here j hj =
    let t = page_of (pde m pd v) in
    test_bit-Within m (write_entry m pd v e).ram j t (o.apart j t hj (Part.table v hv here refl))
      (write_entry-Within o v e hv here)

-- The end of `map_page`.
abbrev end : ℕ → ℕ → ℕ → Bool × Mem → Mem
end pd v e (done, m1) = if done then write_entry m1 pd v e else m1

end-Maps :
    {limit : ℕ} {m : Mem} {pd : ℕ} (v p flags : ℕ)
    → v < 2 ^ 32
    → p < 2 ^ 32
    → p % 4096 ≡ 0
    → flags < 4096
    → flags % 2 ≡ 1
    → (r : Bool × Mem) → Ensured limit m pd v r
    → Maps limit m pd v p (end pd v (bit_or p flags) r)
end-Maps {limit} {m} {pd} v p flags hv hp aligned hf present (done, m1)
      (failed e gone z kept same leaves) =
    rw e
      (fails gone z kept same (Leaves-mono (λ q. q ≡ pd) (Written m pd v) (λ q. directory) leaves))
end-Maps {limit} {m} {pd} v p flags hv hp aligned hf present (done, m1)
      (ready e here at kept same leaves spends) =
    rw e (
      maps (Kept-trans kept (write_entry-Kept kept.owns v (bit_or p flags) hv here))
        (λ x hx.
          get-write_entry (bit_or p flags) kept.owns.directory hv here x hx
          ∙ rw (translates-entry p flags x hp aligned hf present, same x hx) refl)
        (λ j g n.
          let (kept_bytes, g') = leaves j g (λ q. n (directory q)) in
          let (kept_bytes', g'') =
            write_entry-Leaves kept.owns v (bit_or p flags) hv here j g'
              (table-ne (at v hv here) j g n) in
          (λ b lo hi. kept_bytes' b lo hi ∙ kept_bytes b lo hi, g''))
        (λ x hx here'.
          let same_entry = pde-write_entry (bit_or p flags) kept.owns.directory hv here x hx in
          subst (λ (q : ℕ). TableOf m pd x (page_of q)) (sym same_entry)
            (at x hx (ap is_present (sym same_entry) ∙ here')))
        (λ a n room.
          Room-Same m1 (write_entry m1 pd v (bit_or p flags)) (a + 1) n (omega (arith, room.fits))
            (unfold write_entry in refl) (write_entry-bits kept.owns v (bit_or p flags) hv here)
            (spends a n room)))

module _ {limit : ℕ} {m : Mem} {pd : ℕ} (o : Owns limit m pd) where
  -- On a directory in the allocator's care, `map_page` makes every address of the page of `v` translate into the
  -- given frame and changes no other translation, with a new page table where there was none; only if there was
  -- none and no frame is left for it, no translation changes. The directory stays in the allocator's care, and
  -- of the other guarded frames each keeps its bytes, but for the directory and the table. A table that is there
  -- afterwards was there before or lies in a frame that was free. The next frame that
  -- the allocator hands out lies below the limit, which is at most the 1024 frames that `init_paging` maps.
  pub map_page-Maps :
      (v p flags : ℕ)
      → (alloc_frame m).0 < limit * 4096
      → v < 2 ^ 32
      → p < 2 ^ 32
      → p % 4096 ≡ 0
      → flags < 4096
      → flags % 2 ≡ 1
      → Maps limit m pd v p (map_page m pd v p flags)
  unfolding map_page
  map_page-Maps v p flags lt hv hp aligned hf present =
      end-Maps v p flags hv hp aligned hf present (ensure_table m pd v)
        (ensure_table-Ensured o v hv lt)
