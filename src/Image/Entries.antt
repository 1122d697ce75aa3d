-- ===== src/Image/Entries.antt =====
-- A header and the contents behind it as a list of files.
use lbos.Base.{
  ℕ, zero, suc, ◌+◌, ◌^◌, ◌≤◌, ◌<◌, ◌≡◌, ap, ◌∙◌, arith, List, [], ◌∷◌, ◌++◌, length, get_or, take,
  u8, add32,
}
use mathlib.Core.Path.{subst}
use lbos.Memory.{Ram, load32}
use lbos.Memory.Words.{load32-cong}
use lbos.Text.{Text}
use lbos.Image.{files, offset_loop}
use lbos.Image.Header.{name_char}

pub record File : Type 0 where
  pub name : Text
  pub content : Text

abbrev pub total : List File → ℕ
total [] = 0
total (f ∷ fs) = length f.content + total fs

-- Entry `i` of the header `h` describes the file, whose contents stand in `o` at `off` behind the header.
pub record Entry (h o : Ram) (i off : ℕ) (f : File) : Type 0 where
  pub name : (k : ℕ) → k < 32 → h (files i + k) ≡ name_char f.name k
  pub size : load32 h (files i + 32) ≡ length f.content
  pub offset : load32 h (files i + 36) ≡ off
  pub kind : load32 h (files i + 40) ≡ 0
  pub permissions : load32 h (files i + 44) ≡ 1
  pub content : (j : ℕ) → j < length f.content → o (3088 + off + j) ≡ u8 (get_or f.content j 0)

pub data Entries (h o : Ram) : (i off : ℕ) → List File → Type 0 where
  nil : {i off : ℕ} → Entries h o i off []
  cons :
      {i off : ℕ} {f : File} {fs : List File}
      → Entry h o i off f
      → Entries h o (i + 1) (off + length f.content) fs
      → Entries h o i off (f ∷ fs)

Entry-frame :
    (h h' o o' : Ram) (i off : ℕ) (f : File)
    → ((b : ℕ) → files i ≤ b → b < files (i + 1) → h' b ≡ h b)
    → ((b : ℕ) → 3088 + off ≤ b → b < 3088 + off + length f.content → o' b ≡ o b)
    → Entry h o i off f
    → Entry h' o' i off f
Entry-frame h h' o o' i off f same same' e = record {
  name = λ k lt. same (files i + k) (omega arith) (omega arith) ∙ e.name k lt;
  size =
      load32-cong h h' (files i + 32) (files i) (files (i + 1)) same (omega arith) (omega arith)
      ∙ e.size;
  offset =
      load32-cong h h' (files i + 36) (files i) (files (i + 1)) same (omega arith) (omega arith)
      ∙ e.offset;
  kind =
      load32-cong h h' (files i + 40) (files i) (files (i + 1)) same (omega arith) (omega arith)
      ∙ e.kind;
  permissions =
      load32-cong h h' (files i + 44) (files i) (files (i + 1)) same (omega arith) (omega arith)
      ∙ e.permissions;
  content = λ j lt. same' (3088 + off + j) (omega arith) (omega arith) ∙ e.content j lt;
}

-- Entries stay where neither their part of the header nor their contents change.
pub Entries-frame :
    (h h' o o' : Ram) (i off : ℕ) (fs : List File)
    → ((b : ℕ) → files i ≤ b → b < files (i + length fs) → h' b ≡ h b)
    → ((b : ℕ) → 3088 + off ≤ b → b < 3088 + off + total fs → o' b ≡ o b)
    → Entries h o i off fs
    → Entries h' o' i off fs
Entries-frame h h' o o' i off [] same same' nil = nil
Entries-frame h h' o o' i off (f ∷ fs) same same' (cons e es) =
    cons
      (Entry-frame h h' o o' i off f (λ b lo hi. same b lo (omega arith))
        (λ b lo hi. same' b lo (omega arith)) e)
      (Entries-frame h h' o o' (i + 1) (off + length f.content) fs
        (λ b lo hi. same b (omega arith) (omega arith))
        (λ b lo hi. same' b (omega arith) (omega arith)) es)

pub Entries-snoc :
    (h o : Ram) (i off k p : ℕ) (fs : List File) (f : File)
    → i + length fs ≡ k
    → off + total fs ≡ p
    → Entries h o i off fs
    → Entry h o k p f
    → Entries h o i off (fs ++ f ∷ [])
Entries-snoc h o i off k p [] f ek ep nil e =
    let here : k ≡ i = omega arith in
    let start : p ≡ off = omega arith in
    cons (subst (λ (x : ℕ). Entry h o x off f) here (subst (λ (y : ℕ). Entry h o k y f) start e))
      nil
Entries-snoc h o i off k p (g ∷ fs) f ek ep (cons d es) e =
    cons d
      (Entries-snoc h o (i + 1) (off + length g.content) k p fs f (omega arith) (omega arith) es e)

-- The sum that the offset of a new file is computed as.
pub offset_loop-total :
    (h o : Ram) (i off acc : ℕ) (fs : List File)
    → acc + total fs < 2 ^ 32
    → Entries h o i off fs
    → offset_loop h (length fs) i acc ≡ acc + total fs
unfolding offset_loop
offset_loop-total h o i off acc [] lt nil = omega arith
offset_loop-total h o i off acc (f ∷ fs) lt (cons e es) =
    ap (offset_loop h (length fs) (i + 1)) next
    ∙ offset_loop-total h o (i + 1) (off + length f.content) (acc + length f.content) fs
        (omega arith) es
    ∙ omega arith
  where
    next : add32 acc (load32 h (files i + 32)) ≡ acc + length f.content
    next = omega (arith, e.size)

pub Entries-at :
    (h o : Ram) (i off : ℕ) (fs : List File) (j : ℕ) (other : File)
    → j < length fs
    → Entries h o i off fs
    → Entry h o (i + j) (off + total (take j fs)) (get_or fs j other)
Entries-at h o i off [] j other lt nil = absurd (omega arith)
Entries-at h o i off (f ∷ fs) zero other lt (cons e es) =
    let here : i ≡ i + 0 = omega arith in
    let start : off ≡ off + 0 = omega arith in
    subst (λ (x : ℕ). Entry h o x (off + 0) f) here (subst (λ (y : ℕ). Entry h o i y f) start e)
Entries-at h o i off (f ∷ fs) (suc j) other lt (cons e es) =
    let there : i + 1 + j ≡ i + suc j = omega arith in
    let start : off + length f.content + total (take j fs) ≡ off + total (take (suc j) (f ∷ fs)) =
      omega arith in
    subst (λ (x : ℕ). Entry h o x (off + total (take (suc j) (f ∷ fs))) (get_or fs j other)) there
      (subst (λ (y : ℕ). Entry h o (i + 1 + j) y (get_or fs j other)) start
        (Entries-at h o (i + 1) (off + length f.content) fs j other (omega arith) es))
