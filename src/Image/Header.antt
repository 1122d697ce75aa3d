-- ===== src/Image/Header.antt =====
-- What `add_file` writes into the header.
use lbos.Base.{
  ℕ, zero, suc, ◌+◌, ◌-◌, ◌≤◌, ◌<◌, ◌≡◌, ◌⊎◌, inl, inr, refl, ap, ◌∙◌, Bool-cases, ◌&&◌, arith, [],
  ◌∷◌, ltb, leb, length, get_or, u8, u32, if◌then◌else◌,
}
use native.Mathlib.Decide.{ℕ_discrete}
use lbos.Memory.{Ram, write8, load32, store32}
use lbos.Memory.Words.{store32-outside, load32-store32_self, load32-store32-Apart}
use lbos.Memory.Blocks.{memset_lem}
use lbos.Text.{Text}
use lbos.Image.{files, strncpy_text, offset_loop, add_entry, fs_type_file, fs_perm_read}

abbrev named : Ram → (d : ℕ) → Text → (count b : ℕ) → ℕ
named m d t count b = if leb d b && ltb b (d + count) then u8 (get_or t (b - d) 0) else m b

named-step :
    (m : Ram) (d c : ℕ) (t : Text) (count b : ℕ)
    → named (write8 m d c) (d + 1) t count b ≡ named m d (c ∷ t) (suc count) b
unfolding write8
named-step m d c t count b = elim (ℕ_discrete b d) [
  | yes e ↦ ground (arith, ap (λ (k : ℕ). get_or (c ∷ t) k 0) (here e))
  | no ne ↦ elim (Bool-cases (ltb b d)) [
    | inl below ↦ ground arith
    | inr above ↦ ground (arith, ap (λ (k : ℕ). get_or (c ∷ t) k 0) (there (ground arith)))
  ]
]
  where
    here : b ≡ d → b - d ≡ 0
    here e = omega arith

    there : d < b → b - d ≡ suc (b - (d + 1))
    there lt = omega arith

strncpy_text-named :
    (m : Ram) (d : ℕ) (t : Text) (count b : ℕ) → strncpy_text m d t count b ≡ named m d t count b
unfolding strncpy_text
strncpy_text-named m d t zero b = ground arith
strncpy_text-named m d [] (suc count) b = memset_lem m d 0 (suc count) b ∙ ground arith
strncpy_text-named m d (c ∷ t) (suc count) b =
    strncpy_text-named (write8 m d c) (d + 1) t count b ∙ named-step m d c t count b

-- The character at place `k` of the name in an entry.
abbrev pub name_char : Text → ℕ → ℕ
name_char name k = if ltb k 31 then u8 (get_or name k 0) else 0

module _ (h : Ram) (name input : Text) where
  abbrev pub n : ℕ
  n = load32 h 4

  abbrev h2 : Ram
  h2 = write8 (strncpy_text h (files n) name 31) (files n + 31) 0

  abbrev h3 : Ram
  h3 = store32 h2 (files n + 32) (length input)

  abbrev h4 : Ram
  h4 = store32 h3 (files n + 40) fs_type_file

  abbrev pub h5 : Ram
  h5 = store32 h4 (files n + 44) fs_perm_read

  abbrev pub offset : ℕ
  offset = offset_loop h5 n 0 0

  abbrev h6 : Ram
  h6 = store32 h5 (files n + 36) offset

  add_entry-h6 : add_entry h name input ≡ store32 h6 4 (n + 1)
  unfolding add_entry
  add_entry-h6 = refl

  h2_lem :
      (b : ℕ)
      → h2 b
        ≡ (if leb (files n) b && ltb b (files n + 32) then name_char name (b - files n) else h b)
  unfolding write8
  h2_lem b = ground (arith, strncpy_text-named h (files n) name 31 b)

  -- Before the offset is written, nothing before the entry has changed.
  pub h5-before : (b : ℕ) → b < files n → h5 b ≡ h b
  h5-before b lt = ground (
    arith,
    h2_lem b,
    store32-outside h2 (files n + 32) (length input) b,
    store32-outside h3 (files n + 40) fs_type_file b,
    store32-outside h4 (files n + 44) fs_perm_read b,
  )

  -- Nothing changes but the number of files and the new entry.
  pub add_entry-before :
      (b : ℕ) → (b < 4) ⊎ ((8 ≤ b) × (b < files n)) → add_entry h name input b ≡ h b
  add_entry-before b apart =
      ap (λ (m : Ram). m b) add_entry-h6
      ∙ store32-outside h6 4 (n + 1) b (omega arith)
      ∙ store32-outside h5 (files n + 36) offset b (omega arith)
      ∙ h5-before b (omega arith)

  pub add_entry-count : load32 (add_entry h name input) 4 ≡ u32 (n + 1)
  add_entry-count = ap (λ (m : Ram). load32 m 4) add_entry-h6 ∙ load32-store32_self h6 4 (n + 1)

  pub add_entry-name : (k : ℕ) → k < 32 → add_entry h name input (files n + k) ≡ name_char name k
  add_entry-name k lt =
      ap (λ (m : Ram). m (files n + k)) add_entry-h6
      ∙ store32-outside h6 4 (n + 1) (files n + k) (omega arith)
      ∙ store32-outside h5 (files n + 36) offset (files n + k) (omega arith)
      ∙ store32-outside h4 (files n + 44) fs_perm_read (files n + k) (omega arith)
      ∙ store32-outside h3 (files n + 40) fs_type_file (files n + k) (omega arith)
      ∙ store32-outside h2 (files n + 32) (length input) (files n + k) (omega arith)
      ∙ h2_lem (files n + k)
      ∙ ground (arith, ap (name_char name) back)
    where
      back : files n + k - files n ≡ k
      back = omega arith

  field :
      (k : ℕ)
      → 32 ≤ k
      → (k + 4 ≤ 36) ⊎ (40 ≤ k)
      → load32 (add_entry h name input) (files n + k) ≡ load32 h5 (files n + k)
  field k lo apart =
      ap (λ (m : Ram). load32 m (files n + k)) add_entry-h6
      ∙ load32-store32-Apart h6 4 (n + 1) (files n + k) (omega arith)
      ∙ load32-store32-Apart h5 (files n + 36) offset (files n + k) (omega arith)

  pub add_entry-size : load32 (add_entry h name input) (files n + 32) ≡ u32 (length input)
  add_entry-size =
      field 32 (omega arith) (omega arith)
      ∙ load32-store32-Apart h4 (files n + 44) fs_perm_read (files n + 32) (omega arith)
      ∙ load32-store32-Apart h3 (files n + 40) fs_type_file (files n + 32) (omega arith)
      ∙ load32-store32_self h2 (files n + 32) (length input)

  pub add_entry-offset : load32 (add_entry h name input) (files n + 36) ≡ u32 offset
  add_entry-offset =
      ap (λ (m : Ram). load32 m (files n + 36)) add_entry-h6
      ∙ load32-store32-Apart h6 4 (n + 1) (files n + 36) (omega arith)
      ∙ load32-store32_self h5 (files n + 36) offset

  pub add_entry-type : load32 (add_entry h name input) (files n + 40) ≡ 0
  add_entry-type =
      field 40 (omega arith) (omega arith)
      ∙ load32-store32-Apart h4 (files n + 44) fs_perm_read (files n + 40) (omega arith)
      ∙ load32-store32_self h3 (files n + 40) fs_type_file

  pub add_entry-permissions : load32 (add_entry h name input) (files n + 44) ≡ 1
  add_entry-permissions =
      field 44 (omega arith) (omega arith) ∙ load32-store32_self h4 (files n + 44) fs_perm_read
