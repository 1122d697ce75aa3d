-- ===== src/Process/Table.antt =====
-- Reading the process table after an update, and what a search of it finds.
use lbos.Base.{
  ℕ, zero, suc, ◌<◌, ◌≡◌, ◌≢◌, refl, ap, Bool, true, false, none, some, List, [], ◌∷◌, arith,
  length, get_elem?, Bool-cases, Option-cases, inl, inr,
}
use lbos.Process.Data.{Process, update, search_table}

pub lt-length_of_some :
    (t : List Process) (i : ℕ) {p : Process} → get_elem? t i ≡ some p → i < length t
lt-length_of_some [] i e = cc
lt-length_of_some (x ∷ t) zero e = omega arith
lt-length_of_some (x ∷ t) (suc i) e = omega (arith, lt-length_of_some t i e)

pub get-update_self :
    (t : List Process) (i : ℕ) (f : Process → Process) {p : Process}
    → get_elem? t i ≡ some p
    → get_elem? (update t i f) i ≡ some (f p)
get-update_self [] i f e = cc
get-update_self (x ∷ t) zero f e = cc
get-update_self (x ∷ t) (suc i) f e = get-update_self t i f e

pub get-update_inv :
    (t : List Process) (i : ℕ) (f : Process → Process) (p : Process)
    → get_elem? (update t i f) i ≡ some p
    → (old : Process) × (get_elem? t i ≡ some old) × (p ≡ f old)
get-update_inv [] i f p e = cc
get-update_inv (x ∷ t) zero f p e = (x, refl, cc)
get-update_inv (x ∷ t) (suc i) f p e = get-update_inv t i f p e

pub get-update_ne :
    (t : List Process) (i j : ℕ) (f : Process → Process)
    → i ≢ j
    → get_elem? (update t i f) j ≡ get_elem? t j
get-update_ne [] i j f n = refl
get-update_ne (x ∷ t) zero zero f n = absurd (n refl)
get-update_ne (x ∷ t) zero (suc j) f n = refl
get-update_ne (x ∷ t) (suc i) zero f n = refl
get-update_ne (x ∷ t) (suc i) (suc j) f n = get-update_ne t i j f (λ e. n (ap suc e))

pub length-update :
    (t : List Process) (i : ℕ) (f : Process → Process) → length (update t i f) ≡ length t
length-update [] i f = refl
length-update (x ∷ t) zero f = refl
length-update (x ∷ t) (suc i) f = ap suc (length-update t i f)

-- The first entry that passes a test.
pub record IsFirst (test : Process → Bool) (t : List Process) (i : ℕ) : Type 0 where
  pub entry : Process
  pub at : get_elem? t i ≡ some entry
  pub passes : test entry ≡ true
  pub earlier : (j : ℕ) (p : Process) → j < i → get_elem? t j ≡ some p → test p ≡ false

IsFirst-zero :
    (test : Process → Bool) (x : Process) (t : List Process)
    → test x ≡ true
    → IsFirst test (x ∷ t) 0
IsFirst-zero test x t h = record {
  entry = x;
  at = refl;
  passes = h;
  earlier = λ j p lt e. absurd (omega arith);
}

IsFirst-suc :
    (test : Process → Bool) (x : Process) (t : List Process) (i : ℕ)
    → test x ≡ false
    → IsFirst test t i
    → IsFirst test (x ∷ t) (suc i)
IsFirst-suc test x t i h f = record {
  entry = f.entry;
  at = f.at;
  passes = f.passes;
  earlier = before;
}
  where
    before : (j : ℕ) (p : Process) → j < suc i → get_elem? (x ∷ t) j ≡ some p → test p ≡ false
    before zero p lt e = ground arith
    before (suc j) p lt e = f.earlier j p (omega arith) e

pub search_table-some :
    (test : Process → Bool) (t : List Process) (i : ℕ)
    → search_table test t ≡ some i
    → IsFirst test t i
search_table-some test [] i e = cc
search_table-some test (x ∷ t) i e = elim (Bool-cases (test x)) [
  | inl h ↦ let z : 0 ≡ i = ground arith in rw (← z) (IsFirst-zero test x t h)
  | inr h ↦ elim (Option-cases (search_table test t)) [
    | inl gone ↦ ground arith
    | inr (k, found) ↦
        let z : suc k ≡ i = ground arith in
        rw (← z) (IsFirst-suc test x t k h (search_table-some test t k found))
  ]
]

pub search_table-none :
    (test : Process → Bool) (t : List Process) (j : ℕ) (p : Process)
    → search_table test t ≡ none
    → get_elem? t j ≡ some p
    → test p ≡ false
search_table-none test [] j p e at = cc
search_table-none test (x ∷ t) zero p e at = ground arith
search_table-none test (x ∷ t) (suc j) p e at = elim (Option-cases (search_table test t)) [
  | inl gone ↦ search_table-none test t j p gone at
  | inr (k, found) ↦ ground arith
]
