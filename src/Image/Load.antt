-- ===== src/Image/Load.antt =====
-- The image as the module that the kernel loads.
use lbos.Base.{
  ℕ, zero, suc, ◌+◌, ◌≤◌, ◌<◌, ◌≡◌, refl, ap, ◌∙◌, sym, arith, true, false, List, ◌==◌, get_or,
}
use lbos.Memory.{Ram, load32}
use lbos.Text.Compare.{IsText, nil, cons}
use lbos.Initrd.{Initrd, initrd_signature, strncmp_at, init_initrd}
use lbos.Image.{signature}
use lbos.Image.Entries.{File}
use lbos.Memory.Words.{load32-cong, load32-shift}
use lbos.Image.Main.{Fits, IsImage}
use lbos.Image.Names.{strncmp_at-prefix}

signature-IsText : IsText initrd_signature
signature-IsText = cons (omega arith) (omega arith) (
    cons (omega arith) (omega arith) (
      cons (omega arith) (omega arith) (
        cons (omega arith) (omega arith)
          (cons (omega arith) (omega arith) (cons (omega arith) (omega arith) nil)))))

signature_prefix : (k : ℕ) → k < 6 → get_or signature k 0 ≡ get_or initrd_signature k 0
signature_prefix zero lt = refl
signature_prefix (suc zero) lt = refl
signature_prefix (suc (suc zero)) lt = refl
signature_prefix (suc (suc (suc zero))) lt = refl
signature_prefix (suc (suc (suc (suc zero)))) lt = refl
signature_prefix (suc (suc (suc (suc (suc zero))))) lt = refl
signature_prefix (suc (suc (suc (suc (suc (suc k)))))) lt = absurd (omega arith)

-- An image lies at an address of the kernel's memory.
module _ (m : Ram) (size : ℕ) (fs : List File) (image : IsImage m size fs) (fits : Fits fs)
    (location temp_header temp_data : ℕ) (r : Initrd)
    (loaded : (k : ℕ) → k < size → r.ram (location + k) ≡ m k) where
  abbrev pub mounted : Initrd
  mounted = record r { initrd_header = location + 8; initrd_data = location + 3088 }

  signed : strncmp_at r.ram location initrd_signature 6 ≡ 0
  signed = strncmp_at-prefix r.ram location initrd_signature signature-IsText (λ k lt.
      loaded k (omega (arith, image.all)) ∙ image.signed k (omega arith) ∙ signature_prefix k lt)

  -- A word of the image.
  pub word : (a : ℕ) → a + 4 ≤ size → load32 r.ram (location + a) ≡ load32 m a
  word a lt =
      sym (load32-shift r.ram location a)
      ∙ load32-cong m (λ k. r.ram (location + k)) a 0 size (λ k lo hi. loaded k hi) (omega arith) lt

  pub init_lem : init_initrd temp_header temp_data location r ≡ mounted
  unfolding init_initrd
  init_lem =
      rw (begins, not_null, right_magic)
        (ap (λ (a : ℕ). record r { initrd_header = location + 8; initrd_data = a }) behind)
    where
      begins : (strncmp_at r.ram location initrd_signature 6 == 0) ≡ true
      begins = ap (λ (n : ℕ). n == 0) signed

      not_null : (location + 8 == 0) ≡ false
      not_null = ground arith

      right_magic : (load32 r.ram (location + 8) == 0xbf) ≡ true
      right_magic = ap (λ (n : ℕ). n == 0xbf) (word 8 (omega (arith, image.all)) ∙ image.magic)

      behind : location + 8 + 3080 ≡ location + 3088
      behind = omega arith
