-- ===== src/Syscall/Page.antt =====
-- One page of the parent, as `sys_fork` copies it.
use lbos.Base.{
  ℕ, ◌≤◌, ◌+◌, ◌-◌, ◌*◌, ◌/◌, ◌^◌, ◌<◌, ◌≡◌, ◌≢◌, refl, sym, ap, ◌∙◌, Bool, true, false, arith,
  ◌==◌, ltb, leb, ◌&&◌, if◌then◌else◌, u8, bit_and, bit_and-low,
}
use mathlib.Core.Path.{subst}
use lbos.Memory.{memcpy}
use lbos.Memory.Blocks.{memcpy_lem}
use lbos.Frames.{Mem, set_bit, test_bit, phys_to_virt, alloc_frame}
use lbos.Frames.Bitmap.{test_bit-set_bit}
use lbos.Paging.{page_of, is_present, map_page}
use lbos.Paging.Walk.{window, pde, phys_to_virt_lem, page_of_aligned, is_present_lem}
use lbos.Paging.Same.{with_ram}
use lbos.Paging.Owned.{Part, Owns, Within, test_bit-Within}
use lbos.Paging.Fresh.{SameTranslations, set_bit-same}
use lbos.Paging.Ensure.{TableOf, old, new}
use lbos.Paging.Marked.{Spare-Guarded, not-Written, marked-TableOf, Written-marked}
use lbos.Memory.{load32}
use lbos.Memory.Words.{load32-cong}
use lbos.Paging.Guard.{Guarded, Guarded-ne-free, Within-Leaves, Leaves, set_bit-Leaves}
use lbos.Paging.Room.{Room, Spends-one, Room-Same, Room-alloc}
use lbos.Paging.Spare.{
  Spare, Kept, alloc-Spare, set_bit-Kept, written-Kept, written-same, written-Keeps, Kept-trans,
}
use lbos.Paging.Handed.{Handed, handed, none_left, alloc_frame-Handed}
use lbos.Paging.Mapped.{Written, directory, table, Maps, maps, fails, map_page-Maps}
use lbos.Process.Page.{Loads}
use lbos.Syscall.Fork.{fork_page}

module _ {limit : ℕ} {m : Mem} {pd : ℕ} (o : Owns limit m pd) (v entry_at entry a c : ℕ)
    (hv : v < 2 ^ 32) (room : Room limit m a (1 + (1 + c))) (here : is_present entry ≡ true)
    (src : Spare limit m pd (page_of entry / 4096))
    (bytes : (i : ℕ) → i < 4096 → m.ram (page_of entry + window + i) < 256) (t : ℕ)
    (held : Guarded limit m t)
    (inside : (t * 4096 + window ≤ entry_at) × (entry_at + 4 ≤ t * 4096 + window + 4096))
    (reads : load32 m.ram entry_at ≡ entry) where
  abbrev flags : ℕ → ℕ
  flags e = bit_and e 0xfff

  -- `fork_page` with what `alloc_frame` answered.
  abbrev copies : ℕ × Mem → Bool × Mem
  copies (child_frame, m1) =
      let copied =
        memcpy m1.ram (phys_to_virt m1 child_frame) (phys_to_virt m1 (page_of entry)) 4096 in
      if child_frame == 0
      then (false, m1)
      else (true, map_page (with_ram m1 copied) pd v child_frame (flags (load32 copied entry_at)))

  fork_page-copies : fork_page pd v entry_at entry m ≡ copies (alloc_frame m)
  unfolding fork_page
  fork_page-copies = refl

  whole : page_of entry / 4096 * 4096 ≡ page_of entry
  whole = omega (arith, page_of_aligned entry)

  abbrev Copies : Mem → Type 0
  Copies m' = Loads limit m pd v (page_of entry + window) 4096 a c m'

  module _ (k : ℕ) (low : k < limit) (free : test_bit m k ≡ false)
      (lower : (j : ℕ) → j < k → test_bit m j ≡ true) where
    abbrev marked : Mem
    marked = set_bit m k

    marked-Kept : Kept limit m marked pd
    marked-Kept = set_bit-Kept o k low

    marked-Room : Room limit marked (a + 1) (1 + c)
    marked-Room =
        Spends-one m marked k low free lower (unfold set_bit in refl)
          (λ j hj. test_bit-set_bit m k j) a (1 + c) room

    spare : Spare limit marked pd k
    spare = alloc-Spare o k low free

    abbrev copied : Mem
    copied = with_ram marked (
        memcpy marked.ram (phys_to_virt marked (k * 4096)) (phys_to_virt marked (page_of entry))
          4096)

    Spare-ne : (j : ℕ) → Spare limit m pd j → j ≢ k
    Spare-ne j s e = let used = subst (λ (i : ℕ). test_bit m i ≡ true) e s.used in ground arith

    f_lem : phys_to_virt marked (k * 4096) ≡ k * 4096 + window
    f_lem =
        phys_to_virt_lem marked (k * 4096) marked-Kept.owns.directory.window
          (omega (arith, o.small, low))

    q_lem : phys_to_virt marked (page_of entry) ≡ page_of entry + window
    q_lem =
        phys_to_virt_lem marked (page_of entry) marked-Kept.owns.directory.window
          (omega (arith, o.small, src.below, whole))

    copied_lem :
        (b : ℕ)
        → copied.ram b ≡ (
            if leb (k * 4096 + window) b && ltb b (k * 4096 + window + 4096)
            then u8 (marked.ram (page_of entry + window + (b - (k * 4096 + window))))
            else marked.ram b)
    copied_lem b =
        let ne = Spare-ne (page_of entry / 4096) src in
        rw (f_lem, q_lem)
          (memcpy_lem marked.ram (k * 4096 + window) (page_of entry + window) 4096 b
            (ground (arith, whole)))

    copied-Within : Within marked.ram copied.ram (k * 4096)
    copied-Within b out = copied_lem b ∙ ground arith

    -- The parent's entry is as before.
    again : load32 copied.ram entry_at ≡ entry
    again =
        let ne = Guarded-ne-free t k held free in
        let (same, held') = set_bit-Leaves m k (λ p. ⊥) low t held (λ x. x) in
        let (same', held'') =
          Within-Leaves marked copied.ram (k * 4096) (omega arith) spare.away copied-Within t held'
            (λ e. ne (omega (arith, e))) in
        load32-cong m.ram copied.ram entry_at (t * 4096 + window) (t * 4096 + window + 4096)
          (λ b lo hi. same' b lo hi ∙ same b lo hi) inside.0 inside.1
        ∙ reads

    copied-Kept : Kept limit m copied pd
    copied-Kept =
        Kept-trans marked-Kept (written-Kept marked-Kept.owns k spare copied.ram copied-Within)

    copied-Spare : Spare limit copied pd k
    copied-Spare = (written-Kept marked-Kept.owns k spare copied.ram copied-Within).spares k spare

    copied-Room : Room limit copied (a + 1) (1 + c)
    copied-Room =
        Room-Same marked copied (a + 1) (1 + c) (omega (arith, low)) refl
          (λ j hj. test_bit-Within marked copied.ram j (k * 4096) (spare.away j hj) copied-Within)
          marked-Room

    copied_entry : (x : ℕ) → x < 2 ^ 32 → pde copied pd x ≡ pde marked pd x
    copied_entry x hx = written-Keeps marked-Kept.owns k spare copied.ram copied-Within x hx

    copied_same : SameTranslations m copied pd
    copied_same x hx =
        written-same marked-Kept.owns k spare copied.ram copied-Within x hx
        ∙ set_bit-same o k low x hx

    source_same :
        (i : ℕ)
        → i < 4096
        → marked.ram (page_of entry + window + i) ≡ m.ram (page_of entry + window + i)
    source_same i hi =
        (set_bit-Leaves m k (λ p. ⊥) low (page_of entry / 4096) (Spare-Guarded src) (λ x. x)).0
          (page_of entry + window + i) (omega (arith, whole)) (omega (arith, whole))

    copied_content :
        (i : ℕ) → i < 4096 → copied.ram (k * 4096 + window + i) ≡ m.ram (page_of entry + window + i)
    copied_content i hi =
        let at : k * 4096 + window + i - (k * 4096 + window) ≡ i = omega arith in
        copied_lem (k * 4096 + window + i) ∙ rw (at, source_same i hi) (ground (arith, bytes i hi))

    copied-TableOf :
        (x t : ℕ) → x < 2 ^ 32 → t < limit * 4096 → TableOf copied pd x t → TableOf m pd x t
    copied-TableOf x t hx lt (old is e) =
        let same = copied_entry x hx in
        marked-TableOf o k low x t hx lt (old (ap is_present (sym same) ∙ is) (e ∙ ap page_of same))
    copied-TableOf x t hx lt (new j free' e) = new j (ground (arith, copied-Kept.grows j)) e

    Written-copied : (q : ℕ) → Written copied pd v q → Written m pd v q
    Written-copied q (directory e) = directory e
    Written-copied q (table is e) =
        let same = copied_entry v hv in
        Written-marked o k low v hv q (table (ap is_present (sym same) ∙ is) (e ∙ ap page_of same))

    copied-Leaves : Leaves limit m copied (Written m pd v)
    copied-Leaves j g n =
        let (same, g') = set_bit-Leaves m k (Written m pd v) low j g n in
        let ne = Guarded-ne-free j k g free in
        let (same', g'') =
          Within-Leaves marked copied.ram (k * 4096) (omega arith) spare.away copied-Within j g'
            (λ e. ne (omega (arith, e))) in
        (λ b lo hi. same' b lo hi ∙ same b lo hi, g'')

    Maps-Copies : (m' : Mem) → Maps limit copied pd v (k * 4096) m' → Copies m'
    Maps-Copies m' (fails gone z kept same leaves) =
        absurd ((Room-alloc copied (a + 1) c copied-Kept.owns.frames copied-Room).1 z)
    Maps-Copies m' (maps kept through leaves tables spends) = record {
      frame = k;
      spare = kept.spares k copied-Spare;
      kept = Kept-trans copied-Kept kept;
      through = λ x hx. through x hx ∙ rw (copied_same x hx) refl;
      content = λ i hi.
          let all : ltb i 4096 ≡ true = ground arith in
          (leaves k (Spare-Guarded copied-Spare) (not-Written hv copied-Spare)).0
            (k * 4096 + window + i) (omega arith) (omega arith)
          ∙ copied_content i hi
          ∙ rw all refl;
      tables = λ x hx is.
          let low_table = kept.owns.below (page_of (pde m' pd x)) (Part.table x hx is refl) in
          copied-TableOf x (page_of (pde m' pd x)) hx low_table (tables x hx is);
      leaves = λ j g n.
          let (same, g') = copied-Leaves j g n in
          let (same', g'') = leaves j g' (λ w. n (Written-copied (j * 4096) w)) in
          (λ b lo hi. same' b lo hi ∙ same b lo hi, g'');
      stays = λ j s b lo hi.
          let s' = copied-Kept.spares j s in
          (leaves j (Spare-Guarded s') (not-Written hv s')).0 b lo hi
          ∙ (copied-Leaves j (Spare-Guarded s) (not-Written hv s)).0 b lo hi;
      room = spends (a + 1) c copied-Room;
    }

  Handed-Copies :
      (r : ℕ × Mem)
      → alloc_frame m ≡ r
      → Handed limit m pd r
      → ((copies r).0 ≡ true) × Copies (copies r).1
  Handed-Copies r is (none_left z kept same leaves) =
      absurd ((Room-alloc m a (1 + c) o.frames room).1 (ap (λ (q : ℕ × Mem). q.0) is ∙ z))
  Handed-Copies r is (handed k nz low free lower e) =
      let address : (k * 4096 == 0) ≡ false = ground arith in
      subst (λ (q : ℕ × Mem). ((copies q).0 ≡ true) × Copies (copies q).1) (sym e)
        (rw (address, again k low free lower)
          (
            refl,
            Maps-Copies k low free lower _ (
                map_page-Maps (copied-Kept k low free lower).owns v (k * 4096) (flags entry)
                  (Room-alloc (copied k low free lower) (a + 1) c
                    (copied-Kept k low free lower).owns.frames (copied-Room k low free lower)).0
                  hv (omega (arith, low, o.small)) (omega arith)
                  (omega (arith, bit_and-low 12 entry))
                  (ground (arith, bit_and-low 12 entry, is_present_lem entry, here))),
          ))

  pub fork_page-Copies :
      ((fork_page pd v entry_at entry m).0 ≡ true) × Copies (fork_page pd v entry_at entry m).1
  fork_page-Copies = rw fork_page-copies (
      Handed-Copies (alloc_frame m) refl
        (alloc_frame-Handed o (Room-alloc m a (1 + c) o.frames room).0))
