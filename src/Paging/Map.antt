-- ===== src/Paging/Map.antt =====
-- `map_page` and `unmap_page` seen through `get_physical_address`, where the table exists.
use lbos.Base.{
  ℕ, ◌+◌, ◌*◌, ◌/◌, ◌%◌, ◌^◌, ◌<◌, ◌≡◌, sym, ap, ◌∙◌, true, false, bit_or, arith, ◌==◌, inl, inr,
  if◌then◌else◌, u32, Bool-cases, bit_and-page, bit_and-offset, bit_or-page,
}
use native.Mathlib.Decide.{ℕ_discrete}
use lbos.Memory.{load32}
use lbos.Frames.{Mem, phys_to_virt}
use lbos.Paging.{
  is_present, pd_index, ensure_table, write_entry, map_page, unmap_page, get_physical_address,
}
use lbos.Paging.Walk.{pde, is_present_lem}
use lbos.Paging.Entry.{IsDirectory, translates, get-write_entry, get_physical_address_lem}

-- The entry that `map_page` writes translates to its page, whatever its flags.
pub translates-entry :
    (p flags x : ℕ)
    → p < 2 ^ 32
    → p % 4096 ≡ 0
    → flags < 4096
    → flags % 2 ≡ 1
    → translates (u32 (bit_or p flags)) x ≡ p + x % 4096
translates-entry p flags x hp aligned hf present =
    let whole : p ≡ p / 4096 * 4096 = omega arith in
    let sum : bit_or p flags ≡ p + flags =
      ap (λ (q : ℕ). bit_or q flags) whole ∙ bit_or-page (p / 4096) flags hf ∙ omega arith in
    let word : u32 (bit_or p flags) ≡ p + flags = omega (arith, sum) in
    rw (word, bit_and-page (p + flags) (omega arith), bit_and-offset)
      (ground (arith, is_present_lem (p + flags), bit_or-page ((p + flags) / 4096) (x % 4096)))

module _ {m : Mem} {pd v : ℕ} (d : IsDirectory m pd) (hv : v < 2 ^ 32) where
  -- Where the page table of an address is present, `map_page` makes every address of its page
  -- translate into the given frame, and no other translation of the directory changes.
  pub get-map_page :
      (p flags x : ℕ)
      → is_present (pde m pd v) ≡ true
      → p < 2 ^ 32
      → p % 4096 ≡ 0
      → flags < 4096
      → flags % 2 ≡ 1
      → x < 2 ^ 32
      → get_physical_address (map_page m pd v p flags) pd x
        ≡ (if v / 4096 == x / 4096 then p + x % 4096 else get_physical_address m pd x)
  get-map_page p flags x ready hp aligned hf present hx =
      let made : map_page m pd v p flags ≡ write_entry m pd v (bit_or p flags) =
        unfold map_page ensure_table in rw ready in
      rw (
        made,
        get-write_entry (bit_or p flags) d hv ready x hx,
        translates-entry p flags x hp aligned hf present,
      )

  gone_same :
      is_present (pde m pd v) ≡ false
      → (x : ℕ) → v / 4096 ≡ x / 4096
      → is_present (pde m pd x) ≡ false
  gone_same gone x same =
      let dirs : pd_index v ≡ pd_index x = omega arith in
      ap (λ (k : ℕ). is_present (load32 m.ram (phys_to_virt m pd + 4 * k))) (sym dirs) ∙ gone

  -- In a directory whose present entries lead to distinct tables, none of which is the directory itself, all in the
  -- 1024 frames that `init_paging` maps, in a kernel that is linked at the window: `unmap_page` leaves no translation for the page of its
  -- address, whether or not there was one, and changes no other translation of the directory.
  pub get-unmap_page :
      (x : ℕ)
      → x < 2 ^ 32
      → get_physical_address (unmap_page m pd v) pd x
        ≡ (if v / 4096 == x / 4096 then 0 else get_physical_address m pd x)
  get-unmap_page x hx = elim (Bool-cases (is_present (pde m pd v))) [
    | inl ready ↦
        let made : unmap_page m pd v ≡ write_entry m pd v 0 = unfold unmap_page in rw ready in
        rw (made, get-write_entry 0 d hv ready x hx)
    | inr gone ↦
        let kept : unmap_page m pd v ≡ m = unfold unmap_page in rw gone in
        rw (kept, get_physical_address_lem m pd x)
          (elim (ℕ_discrete (v / 4096) (x / 4096)) [
            | yes same ↦ rw (gone_same gone x same) (ground arith)
            | no other ↦ ground arith
          ])
  ]
