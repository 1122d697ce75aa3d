-- ===== src/Fault/Demand.antt =====
-- Demand paging in `page_fault_handler` of mem/page_frame_allocator.c.
use lbos.Base.{
  ℕ, ◌+◌, ◌*◌, ◌/◌, ◌%◌, ◌^◌, ◌≤◌, ◌<◌, ◌≡◌, refl, sym, ap, ◌∙◌, Bool, true, false, arith, ◌==◌,
  if◌then◌else◌, bit_or, bit_and, not, ltb, ◌||◌, if_both, bit_and-page,
}
use mathlib.Core.Path.{subst}
use lbos.Memory.{memset, load32}
use lbos.Frames.{Mem, alloc_frame, set_bit, test_bit, phys_to_virt, frame_size}
use lbos.Paging.{
  is_present, page_of, pd_index, map_page, get_physical_address, page_present, page_user, page_rw,
}
use lbos.Paging.Walk.{window, pde}
use lbos.Paging.Owned.{Owns}
use lbos.Paging.Fresh.{SameTranslations, set_bit-same}
use lbos.Paging.Spare.{
  Spare, Kept, alloc-Spare, set_bit-Kept, cleared, cleared-Within, cleared-Kept, cleared-same,
  cleared_empty, set_bit-Keeps, Kept-trans,
}
use lbos.Paging.Handed.{Handed, handed, none_left, alloc_frame-Handed}
use lbos.Paging.Guard.{Leaves, Leaves-mono, set_bit-Leaves, Within-Leaves, Guarded-ne-free}
use lbos.Paging.Mapped.{Written, directory, table, Maps, maps, fails, map_page-Maps}
use lbos.Fault.{demand_page}

-- The frame `k` holds zeros.
abbrev pub IsZeroed : Mem → ℕ → Type 0
IsZeroed m k = (b : ℕ) → k * 4096 + window ≤ b → b < k * 4096 + window + 4096 → m.ram b ≡ 0

-- What becomes of the page of `addr`: it gets a frame that was free, with zeros in it; or no frame is left for it;
-- or there is a frame, but no other for the page table, and the code goes on as if the page stood.
pub data Serves (limit : ℕ) (m : Mem) (pd addr : ℕ) (r : Bool × Mem) : Type 0 where
  served :
      (k : ℕ)
      → test_bit m k ≡ false
      → r.0 ≡ true
      → Kept limit m r.1 pd
      → ((x : ℕ)
          → x < 2 ^ 32
          → get_physical_address r.1 pd x ≡ (
              if addr / 4096 == x / 4096 then k * 4096 + x % 4096 else get_physical_address m pd x))
      → IsZeroed r.1 k
      → Leaves limit m r.1 (Written m pd addr)
      → Serves limit m pd addr r
  unmapped :
      (k : ℕ)
      → test_bit m k ≡ false
      → r.0 ≡ true
      → is_present (pde m pd addr) ≡ false
      → (alloc_frame (alloc_frame m).1).0 ≡ 0
      → Kept limit m r.1 pd
      → SameTranslations m r.1 pd
      → Leaves limit m r.1 (Written m pd addr)
      → Serves limit m pd addr r
  refused :
      r.0 ≡ false
      → (alloc_frame m).0 ≡ 0
      → Kept limit m r.1 pd
      → SameTranslations m r.1 pd
      → Leaves limit m r.1 (Written m pd addr)
      → Serves limit m pd addr r

module _ {limit : ℕ} {m : Mem} {pd : ℕ} (o : Owns limit m pd) (addr code : ℕ)
    (ha : addr < 2 ^ 32) where
  abbrev flags : ℕ
  flags =
      if not (bit_and code 0x2 == 0) || ltb (page_of addr) 0xc000_0000
      then bit_or (bit_or page_present page_user) page_rw
      else bit_or page_present page_user

  abbrev IsFlags : ℕ → Type 0
  IsFlags f = (f < 4096) × (f % 2 ≡ 1)

  flags-IsFlags : IsFlags flags
  flags-IsFlags =
      if_both IsFlags (not (bit_and code 0x2 == 0) || ltb (page_of addr) 0xc000_0000)
        (omega arith, refl) (omega arith, refl)

  -- `demand_page` with what `alloc_frame` answered.
  abbrev demanded : ℕ × Mem → Bool × Mem
  demanded (frame_phys, m1) =
      let m2 = map_page m1 pd (page_of addr) frame_phys flags in
      let zeroed = record m2 { ram = memset m2.ram (phys_to_virt m2 frame_phys) 0 frame_size } in
      if frame_phys == 0 then (false, m1) else (true, zeroed)

  demand_page-demanded : demand_page pd addr code m ≡ demanded (alloc_frame m)
  unfolding demand_page
  demand_page-demanded = refl

  page-addr : page_of addr ≡ addr / 4096 * 4096
  page-addr = bit_and-page addr ha

  same_page : page_of addr / 4096 ≡ addr / 4096
  same_page = omega (arith, page-addr)

  module _ (k : ℕ) (lt : k < limit) (free : test_bit m k ≡ false) where
    marked-Kept : Kept limit m (set_bit m k) pd
    marked-Kept = set_bit-Kept o k lt

    spare : Spare limit (set_bit m k) pd k
    spare = alloc-Spare o k lt free

    entry-kept : pde (set_bit m k) pd (page_of addr) ≡ pde m pd addr
    unfolding set_bit
    entry-kept =
        let entry : pd_index (page_of addr) ≡ pd_index addr = omega (arith, page-addr) in
        set_bit-Keeps o k lt (page_of addr) (omega (arith, page-addr))
        ∙ ap (λ (i : ℕ). load32 m.ram (phys_to_virt m pd + 4 * i)) entry

    Written-marked : (p : ℕ) → Written (set_bit m k) pd (page_of addr) p → Written m pd addr p
    Written-marked p (directory e) = directory e
    Written-marked p (table here e) =
        table (ap is_present (sym entry-kept) ∙ here) (e ∙ ap page_of entry-kept)

    -- The frame is marked, the page is mapped, and the frame is cleared.
    all-Leaves :
        (m2 : Mem)
        → Kept limit (set_bit m k) m2 pd
        → Leaves limit (set_bit m k) m2 (Written (set_bit m k) pd (page_of addr))
        → Leaves limit m
            (record m2 { ram = memset m2.ram (phys_to_virt m2 (k * 4096)) 0 frame_size })
            (Written m pd addr)
    all-Leaves m2 kept leaves j g n =
        let s = kept.spares k spare in
        let ne = Guarded-ne-free j k g free in
        let (same, g') = set_bit-Leaves m k (Written m pd addr) lt j g n in
        let (same', g'') = leaves j g' (λ w. n (Written-marked (j * 4096) w)) in
        let (same'', g3) =
          Within-Leaves m2 (cleared kept.owns k s).ram (k * 4096) (omega arith) s.away
            (cleared-Within kept.owns k s) j g'' (λ e. ne (omega (arith, e))) in
        (λ b lo hi. same'' b lo hi ∙ same' b lo hi ∙ same b lo hi, g3)

    zeroed-Serves :
        (m2 : Mem)
        → (alloc_frame m).1 ≡ set_bit m k
        → Maps limit (set_bit m k) pd (page_of addr) (k * 4096) m2
        → Serves limit m pd addr
            (true, record m2 { ram = memset m2.ram (phys_to_virt m2 (k * 4096)) 0 frame_size })
    unfolding set_bit
    zeroed-Serves m2 is (maps kept through leaves tables spends) =
        let s = kept.spares k spare in
        let cleared = cleared-Kept kept.owns k s in
        served k free refl (Kept-trans (Kept-trans marked-Kept kept) cleared)
          (λ x hx.
            cleared-same kept.owns k s x hx
            ∙ through x hx
            ∙ rw (same_page, set_bit-same o k lt x hx) refl)
          (cleared_empty kept.owns k s) (all-Leaves m2 kept leaves)
    zeroed-Serves m2 is (fails gone z kept same leaves) =
        let s = kept.spares k spare in
        unmapped k free refl (ap is_present (sym entry-kept) ∙ gone)
          (ap (λ (q : Mem). (alloc_frame q).0) is ∙ z)
          (Kept-trans (Kept-trans marked-Kept kept) (cleared-Kept kept.owns k s))
          (λ x hx. cleared-same kept.owns k s x hx ∙ same x hx ∙ set_bit-same o k lt x hx)
          (all-Leaves m2 kept leaves)

  Handed-Serves :
      (a : ℕ × Mem)
      → alloc_frame m ≡ a
      → (alloc_frame a.1).0 < limit * 4096
      → Handed limit m pd a
      → Serves limit m pd addr (demanded a)
  Handed-Serves a is next (none_left z kept same leaves) =
      let zero_address : (a.0 == 0) ≡ true = ground arith in
      rw zero_address (
        refused refl (ap (λ (q : ℕ × Mem). q.0) is ∙ z) kept same
          (Leaves-mono (λ p. p ≡ pd) (Written m pd addr) (λ p. directory) leaves))
  Handed-Serves a is next (handed k nz low free lower e) =
      let address : (k * 4096 == 0) ≡ false = ground arith in
      let next' : (alloc_frame (set_bit m k)).0 < limit * 4096 =
        subst (λ (q : ℕ × Mem). (alloc_frame q.1).0 < limit * 4096) e next in
      subst (λ (q : ℕ × Mem). Serves limit m pd addr (demanded q)) (sym e)
        (rw address (
          zeroed-Serves k low free _ (ap (λ (q : ℕ × Mem). q.1) (is ∙ e)) (
            map_page-Maps (set_bit-Kept o k low).owns (page_of addr) (k * 4096) flags next'
              (omega (arith, page-addr)) (omega (arith, low, o.small)) (omega arith) flags-IsFlags.0
              flags-IsFlags.1)))

  pub demand_page-Serves :
      (alloc_frame m).0 < limit * 4096
      → (alloc_frame (alloc_frame m).1).0 < limit * 4096
      → Serves limit m pd addr (demand_page pd addr code m)
  demand_page-Serves lt next =
      rw demand_page-demanded (Handed-Serves (alloc_frame m) refl next (alloc_frame-Handed o lt))
