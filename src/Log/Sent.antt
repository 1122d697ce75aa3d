-- ===== src/Log/Sent.antt =====
-- What the calls that write a text leave on a line that answers.
use lbos.Base.{
  ℕ, zero, suc, ◌+◌, ◌<◌, ◌≡◌, refl, sym, ap, ◌∙◌, true, arith, some, List, [], ◌∷◌, ◌++◌, length,
  get_or, map, u8, Bool-cases, inl, inr, if◌then◌else◌, ◌==◌,
}
use mathlib.Core.Path.{ap₂}
use lbos.Kernel.{minus_one}
use lbos.Text.{Text, codes}
use lbos.Serial.{
  Line, num_to_hex, num_to_decimal, serial_data_port, serial_com1_base, serial_write,
  serial_write_hex, serial_write_decimal, serial_max_wait_attempts,
}
use lbos.Serial.Wait.{ready_at}
use lbos.Serial.Output.{bytes_of, actual, serial_write-whole}
use lbos.Serial.Digits.{length-num_to_hex}
use lbos.Log.{put, put_char, put_string}

-- The characters of a text at the data port.
abbrev pub sent : Text → List (ℕ × ℕ)
sent = map (λ c. (serial_data_port serial_com1_base, u8 c))

bytes_of-cons : (c : ℕ) (t : Text) (i n : ℕ) → bytes_of (c ∷ t) (i + 1) n ≡ bytes_of t i n
bytes_of-cons c t i zero = refl
bytes_of-cons c t i (suc n) =
    ap₂ (λ (x : ℕ) (l : List (ℕ × ℕ)). (serial_data_port serial_com1_base, u8 x) ∷ l) (place)
      (bytes_of-cons c t (i + 1) n)
  where
    next : i + 1 ≡ suc i
    next = omega arith

    place : get_or (c ∷ t) (i + 1) 0 ≡ get_or t i 0
    place = ap (λ (k : ℕ). get_or (c ∷ t) k 0) next

bytes_of-sent : (t : Text) → bytes_of t 0 (length t) ≡ sent t
bytes_of-sent [] = refl
bytes_of-sent (c ∷ t) =
    ap (λ (l : List (ℕ × ℕ)). (serial_data_port serial_com1_base, u8 c) ∷ l)
      (bytes_of-cons c t 0 (length t) ∙ bytes_of-sent t)

-- The transmitter is never busy for 1000 reads in a row.
abbrev pub Answers : (ℕ → ℕ) → Type 0
Answers status =
    (n : ℕ) → (k : ℕ) × (k < serial_max_wait_attempts) × (ready_at status (n + k) ≡ true)

module _ (status : ℕ → ℕ) (text_at : ℕ → Text) (answers : Answers status) where
  whole :
      (t : Text) (len : ℕ) (s : Line)
      → actual t len ≡ length t
      → (serial_write status (some t) len s).1.ports ≡ s.ports ++ sent t
  whole t len s e =
      let (count, ports) = serial_write-whole status answers t len s in
      ports
      ∙ ap (λ (n : ℕ). s.ports ++ bytes_of t 0 n) e
      ∙ ap (λ (l : List (ℕ × ℕ)). s.ports ++ l) (bytes_of-sent t)

  pub ports-put : (t : Text) (s : Line) → (put status text_at t s).ports ≡ s.ports ++ sent t
  ports-put t s = whole t minus_one s refl

  pub ports-put_char :
      (c : ℕ) (s : Line) → (put_char status text_at c s).ports ≡ s.ports ++ sent (c ∷ [])
  ports-put_char c s = whole (c ∷ []) 1 s refl

  pub ports-decimal :
      (num : ℕ) (s : Line)
      → (serial_write_decimal status num s).1.ports ≡ s.ports ++ sent (num_to_decimal num)
  unfolding serial_write_decimal
  ports-decimal num s = whole (num_to_decimal num) minus_one s refl

  pub ports-hex :
      (num : ℕ) (s : Line)
      → (serial_write_hex status num s).1.ports ≡ s.ports ++ sent (num_to_hex num)
  unfolding serial_write_hex
  ports-hex num s = whole (num_to_hex num) 8 s (sym (length-num_to_hex num))

  -- A string argument, or what stands for the null pointer.
  pub ports-put_string :
      (str : ℕ) (s : Line)
      → (put_string status text_at str s).ports
        ≡ s.ports ++ sent (if str == 0 then codes "(null)" else text_at str)
  ports-put_string str s = elim (Bool-cases (str == 0)) [
    | inl null ↦ rw null (whole (codes "(null)") 6 s refl)
    | inr given ↦ rw given (ports-put (text_at str) s)
  ]
