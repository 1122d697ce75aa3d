-- ===== src/Paging/Created.antt =====
-- `create_page_directory`: a new directory with the kernel's entries.
use lbos.Base.{
  ℕ, ◌+◌, ◌*◌, ◌/◌, ◌^◌, ◌<◌, ◌≡◌, ◌≢◌, refl, sym, ap, ◌∙◌, inl, inr, true, false, arith, ◌==◌, leb,
  if◌then◌else◌,
}
use mathlib.Core.Path.{subst}
use lbos.Memory.{load32}
use lbos.Memory.Blocks.{IsBytes}
use lbos.Frames.{Mem, set_bit, test_bit, phys_to_virt, alloc_frame}
use lbos.Paging.{
  is_present, page_of, pte_at, create_page_directory, get_physical_address, kernel_virtual_start,
}
use lbos.Paging.Walk.{window, pde}
use lbos.Paging.Entry.{walks, get_physical_address_lem}
use lbos.Paging.Same.{with_ram}
use lbos.Paging.Owned.{Owns, test_bit-Within}
use lbos.Frames.Bitmap.{test_bit-set_bit}
use lbos.Paging.Fresh.{SameTranslations}
use lbos.Paging.Guard.{Leaves, set_bit-Leaves, Within-Leaves, Guarded-ne-free}
use lbos.Paging.Room.{Spends, Spends-one}
use lbos.Paging.Spare.{Spare, Kept, set_bit-Keeps, written-Keeps, written-Kept}
use lbos.Paging.Handed.{Handed, handed, none_left, alloc_frame-Handed}
use lbos.Paging.Filled.{
  copied, Part-result, result-tables, result-unshared, marked-Kept, spare, target_lem,
  copied-Within, result-Kept, result-same, shared, absent, reads,
}

-- A new directory, which has the kernel's half of the address space and nothing else; or 0, for lack of a frame.
pub data Creates (limit : ℕ) (m : Mem) (kernel : ℕ) (r : ℕ × Mem) : Type 0 where
  created :
      (k : ℕ)
      → test_bit m k ≡ false
      → r.0 ≡ k * 4096 + window
      → Owns limit r.1 (k * 4096)
      → ((x : ℕ)
          → x < 2 ^ 32
          → get_physical_address r.1 (k * 4096) x
            ≡ (if leb kernel_virtual_start x then get_physical_address m kernel x else 0))
      → Kept limit m r.1 kernel
      → SameTranslations m r.1 kernel
      → Leaves limit m r.1 (λ p. ⊥)
      → ((x : ℕ) → x < kernel_virtual_start → is_present (pde r.1 (k * 4096) x) ≡ false)
      → ((j : ℕ) → Spare limit m kernel j → Spare limit r.1 (k * 4096) j)
      → Spends limit m r.1 1
      → Creates limit m kernel r
  failed :
      r.0 ≡ 0
      → (alloc_frame m).0 ≡ 0
      → Kept limit m r.1 kernel
      → SameTranslations m r.1 kernel
      → Leaves limit m r.1 (λ p. p ≡ kernel)
      → Creates limit m kernel r

module _ {limit : ℕ} {m : Mem} {kernel : ℕ} (o : Owns limit m kernel) (bytes : IsBytes m.ram)
    (at : ℕ) (stands : at ≡ kernel + window) where
  -- `create_page_directory` with what `alloc_frame` answered.
  abbrev makes : ℕ × Mem → ℕ × Mem
  makes (p, m1) =
      if p == 0
      then (0, m1)
      else (phys_to_virt m1 p, record m1 { ram = copied o bytes at stands p m1 })

  create-makes : create_page_directory at m ≡ makes (alloc_frame m)
  unfolding create_page_directory
  create-makes = refl

  module _ (k : ℕ) (lt : k < limit) (free : test_bit m k ≡ false) where
    abbrev marked : Mem
    marked = set_bit m k

    abbrev target : ℕ
    target = phys_to_virt marked (k * 4096)

    abbrev result : Mem
    result = with_ram marked (copied o bytes at stands (k * 4096) marked)

    new-Spare : Spare limit result kernel k
    new-Spare =
        (written-Kept (marked-Kept o bytes at stands k lt free).owns k
            (spare o bytes at stands k lt free) result.ram
            (copied-Within o bytes at stands k lt free)).spares
          k (spare o bytes at stands k lt free)

    result-Owns : Owns limit result (k * 4096)
    unfolding set_bit
    result-Owns = record {
      directory = record {
        window = o.directory.window;
        frame = (omega (arith, o.small, lt), omega arith);
        tables = (result-tables o bytes at stands k lt free);
        unshared = (result-unshared o bytes at stands k lt free);
      };
      small = o.small;
      frames = o.frames;
      below = λ p part. elim ((Part-result o bytes at stands k lt free) p part) [
        | inl e ↦ omega (arith, e)
        | inr old ↦ o.below p old
      ];
      in_use = λ p part. elim ((Part-result o bytes at stands k lt free) p part) [
        | inl e ↦ let index : p / 4096 ≡ k = omega (arith, e) in rw index new-Spare.used
        | inr old ↦
            (result-Kept o bytes at stands k lt free).grows (p / 4096)
              (omega (arith, o.below p old)) (o.in_use p old)
      ];
      apart = λ i p hi part. elim ((Part-result o bytes at stands k lt free) p part) [
        | inl e ↦ rw e (o.apart_free i k hi lt free)
        | inr old ↦ o.apart i p hi old
      ];
      apart_free = λ i j hi hj free'. o.apart_free i j hi hj (was_free j hj free');
    }
      where
        was_free : (j : ℕ) → j < limit → test_bit result j ≡ false → test_bit m j ≡ false
        was_free j hj free' = ground (arith, (result-Kept o bytes at stands k lt free).grows j hj)

    kernel_entry : (x : ℕ) → x < 2 ^ 32 → pde result kernel x ≡ pde m kernel x
    unfolding set_bit
    kernel_entry x hx =
        written-Keeps (marked-Kept o bytes at stands k lt free).owns k
          (spare o bytes at stands k lt free) result.ram (copied-Within o bytes at stands k lt free)
          x hx
        ∙ set_bit-Keeps o k lt x hx

    get-result :
        (x : ℕ)
        → x < 2 ^ 32
        → get_physical_address result (k * 4096) x
          ≡ (if leb kernel_virtual_start x then get_physical_address m kernel x else 0)
    get-result x hx =
        get_physical_address_lem result (k * 4096) x
        ∙ elim ((reads o bytes at stands k lt free) x hx) [
          | shared high e ↦
              let in_half : leb kernel_virtual_start x ≡ true = ground arith in
              ap (λ (q : ℕ). walks q (load32 result.ram (pte_at result (page_of q) x)) x)
                (e ∙ sym (kernel_entry x hx))
              ∙ sym (get_physical_address_lem result kernel x)
              ∙ (result-same o bytes at stands k lt free) x hx
              ∙ rw in_half refl
          | absent low e ↦ rw e (ground arith)
        ]

    result-Leaves : Leaves limit m result (λ p. ⊥)
    result-Leaves j g n =
        let ne = Guarded-ne-free j k g free in
        let (same, g') = set_bit-Leaves m k (λ p. ⊥) lt j g n in
        let (same', g'') =
          Within-Leaves marked result.ram (k * 4096) (omega arith)
            (spare o bytes at stands k lt free).away (copied-Within o bytes at stands k lt free) j
            g' (λ e. ne (omega (arith, e))) in
        (λ b lo hi. same' b lo hi ∙ same b lo hi, g'')

    result_bare : (x : ℕ) → x < kernel_virtual_start → is_present (pde result (k * 4096) x) ≡ false
    result_bare x hx = elim (reads o bytes at stands k lt free x (omega arith)) [
      | shared high e ↦ absurd (omega arith)
      | absent low e ↦ ap is_present e
    ]

    -- A frame that is spare beside the kernel's directory is so beside the new one.
    result-spares : (j : ℕ) → Spare limit m kernel j → Spare limit result (k * 4096) j
    result-spares j s =
        let s' = (result-Kept o bytes at stands k lt free).spares j s in
        let ne : j ≢ k =
          λ e. (let used = subst (λ (i : ℕ). test_bit m i ≡ true) e s.used in ground arith) in
        record {
          below = s'.below;
          used = s'.used;
          other = λ p part. elim ((Part-result o bytes at stands k lt free) p part) [
            | inl e ↦ λ e'. ne (omega (arith, e, e'))
            | inr old ↦ s.other p old
          ];
          away = s'.away;
        }

    result-Spends : ((j : ℕ) → j < k → test_bit m j ≡ true) → Spends limit m result 1
    result-Spends lower = Spends-one m result k lt free lower (unfold set_bit in refl) (λ j hj.
        test_bit-Within marked result.ram j (k * 4096)
          ((spare o bytes at stands k lt free).away j hj)
          (copied-Within o bytes at stands k lt free)
        ∙ test_bit-set_bit m k j)

    result-Creates :
        ((j : ℕ) → j < k → test_bit m j ≡ true) → Creates limit m kernel (target, result)
    result-Creates lower =
        created k free (target_lem o bytes at stands k lt free) result-Owns get-result
          (result-Kept o bytes at stands k lt free) (result-same o bytes at stands k lt free)
          result-Leaves result_bare result-spares (result-Spends lower)

  Handed-Creates :
      (a : ℕ × Mem) → alloc_frame m ≡ a → Handed limit m kernel a → Creates limit m kernel (makes a)
  Handed-Creates a is (none_left z kept same leaves) =
      let zero_address : (a.0 == 0) ≡ true = ground arith in
      rw zero_address (failed refl (ap (λ (q : ℕ × Mem). q.0) is ∙ z) kept same leaves)
  Handed-Creates a is (handed k nz low free lower e) =
      let address : (k * 4096 == 0) ≡ false = ground arith in
      subst (λ (q : ℕ × Mem). Creates limit m kernel (makes q)) (sym e)
        (rw address (result-Creates k low free lower))

  -- `create_page_directory` gives a new address space the kernel's translations from KERNEL_VIRTUAL_START on and
  -- none below, in a frame that was free; it answers 0 only if no frame is left. The kernel's own translations
  -- stay, both directories are in the allocator's care, and the guarded frames keep their bytes. The kernel's
  -- directory lies behind the kernel window, and the next frame that the allocator hands out is below the limit, which is at
  -- most the 1024 frames that `init_paging` maps.
  pub create_page_directory-Creates :
      (alloc_frame m).0 < limit * 4096 → Creates limit m kernel (create_page_directory at m)
  create_page_directory-Creates lt =
      rw create-makes (Handed-Creates (alloc_frame m) refl (alloc_frame-Handed o lt))
