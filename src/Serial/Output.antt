-- ===== src/Serial/Output.antt =====
-- Sending a text.
use lbos.Base.{
  ℕ, zero, suc, ◌+◌, ◌*◌, ◌≤◌, ◌<◌, ◌≡◌, ◌≢◌, refl, ap, ◌∙◌, Bool, true, false, arith, List, [],
  ◌∷◌, ◌++◌, ◌||◌, ◌==◌, some, u8, length, get_or, if◌then◌else◌,
}
use mathlib.Core.Path.{sym, subst}
use mathlib.Core.List.{append_assoc, append-nil}
use lbos.Kernel.{minus_one}
use lbos.Text.{Text}
use lbos.Serial.{
  Line, serial_write_byte, serial_data_port, serial_com1_base, serial_max_wait_attempts,
  is_negative, wait_loop, write_loop, serial_write, out,
}
use lbos.Serial.Wait.{
  ready_at, after, Waits, ready, gave_up, wait_loop-Waits, Sends, sent, timed_out,
  serial_write_byte-Sends,
}

-- The port writes that send the characters from index `i` on.
abbrev pub bytes_of : Text → (i n : ℕ) → List (ℕ × ℕ)
bytes_of str i zero = []
bytes_of str i (suc n) =
    (serial_data_port serial_com1_base, u8 (get_or str i 0)) ∷ bytes_of str (i + 1) n

-- The length that the code takes: the whole text for 0 and below.
abbrev pub actual : Text → ℕ → ℕ
actual str len = if len == 0 || is_negative len then length str else len

true-ne-false : true ≢ false
true-ne-false e = cc

module _ (status : ℕ → ℕ) where
  -- The first `n` of the `rounds` characters from `i` on went out; all of them, unless the transmitter was once
  -- busy for 1000 reads.
  pub data Writes (str : Text) (i rounds : ℕ) (s : Line) (r : Bool × ℕ × Line) : Type 0 where
    complete :
        r.0 ≡ true
        → r.1 ≡ i + rounds
        → r.2.ports ≡ s.ports ++ bytes_of str i rounds
        → r.2.reads ≤ s.reads + serial_max_wait_attempts * rounds
        → Writes str i rounds s r
    stopped :
        (n from : ℕ)
        → n < rounds
        → ((k : ℕ) → k < serial_max_wait_attempts → ready_at status (from + k) ≡ false)
        → r.0 ≡ false
        → r.1 ≡ i + n
        → r.2.ports ≡ s.ports ++ bytes_of str i n
        → r.2.reads ≤ s.reads + serial_max_wait_attempts * rounds
        → Writes str i rounds s r

  -- One character that went out, and then the others.
  Writes-cons :
      {str : Text} {i rounds k : ℕ} {s : Line} {r : Bool × ℕ × Line}
      → k ≤ serial_max_wait_attempts
      → Writes str
          (i + 1)
          rounds
          (out (serial_data_port serial_com1_base) (get_or str i 0) (after status k s))
          r
      → Writes str i (suc rounds) s r
  Writes-cons {str} {i} {rounds} {k} {s} le (complete all count ports reads) =
      complete all (omega arith) (ports ∙ append_assoc s.ports _ _) (omega arith)
  Writes-cons {str} {i} {rounds} {k} {s} le (stopped n from lt busy cut count ports reads) =
      stopped (suc n) from (omega arith) busy cut (omega arith) (ports ∙ append_assoc s.ports _ _)
        (omega arith)

  -- The rest of the loop after an attempt to send the character at `i`.
  abbrev rest_of : Text → ℕ → ℕ → ℕ × Line → Bool × ℕ × Line
  rest_of str rounds i (failed, s') =
      if is_negative failed then (false, i, s') else write_loop status str rounds (i + 1) s'

  rest_of-Writes :
      (str : Text) (rounds i : ℕ) (s : Line) (r : ℕ × Line)
      → Sends status serial_com1_base (get_or str i 0) s r
      → ((s' : Line) → Writes str (i + 1) rounds s' (write_loop status str rounds (i + 1) s'))
      → Writes str i (suc rounds) s (rest_of str rounds i r)
  rest_of-Writes str rounds i s r (sent k le ok e) later =
      let both : r
          ≡ (0, out (serial_data_port serial_com1_base) (get_or str i 0) (after status k s)) =
        λ d. (ok d, e d) in
      subst (λ (x : ℕ × Line). Writes str i (suc rounds) s (rest_of str rounds i x)) (sym both)
        (Writes-cons le
          (later (out (serial_data_port serial_com1_base) (get_or str i 0) (after status k s))))
  rest_of-Writes str rounds i s r (timed_out busy failed e) later =
      let both : r ≡ (minus_one, after status serial_max_wait_attempts s) = λ d. (failed d, e d) in
      subst (λ (x : ℕ × Line). Writes str i (suc rounds) s (rest_of str rounds i x)) (sym both)
        (stopped 0 s.reads (omega arith) busy refl (omega arith) (sym (append-nil s.ports))
          (omega arith))

  write_loop-Writes :
      (str : Text) (rounds i : ℕ) (s : Line)
      → Writes str i rounds s (write_loop status str rounds i s)
  unfolding write_loop
  write_loop-Writes str zero i s =
      complete refl (omega arith) (sym (append-nil s.ports)) (omega arith)
  write_loop-Writes str (suc rounds) i s =
      rest_of-Writes str rounds i s (serial_write_byte status serial_com1_base (get_or str i 0) s)
        (serial_write_byte-Sends status serial_com1_base (get_or str i 0) s)
        (write_loop-Writes str rounds (i + 1))

  -- What `serial_write` comes to.
  pub data Result (str : Text) (len : ℕ) (s : Line) (r : ℕ × Line) : Type 0 where
    whole :
        r.0 ≡ len
        → r.1.ports ≡ s.ports ++ bytes_of str 0 len
        → r.1.reads ≤ s.reads + serial_max_wait_attempts * (len + 1)
        → Result str len s r
    part :
        (from : ℕ)
        → r.0 < len
        → r.1.ports ≡ s.ports ++ bytes_of str 0 r.0
        → ((k : ℕ) → k < serial_max_wait_attempts → ready_at status (from + k) ≡ false)
        → r.1.reads ≤ s.reads + serial_max_wait_attempts * (len + 1)
        → Result str len s r

  -- Waiting only reads.
  only_reads :
      (left : ℕ) (s : Line) (r : Bool × Line)
      → Waits status left s r
      → (r.1.ports ≡ s.ports) × (r.1.reads ≤ s.reads + left)
  only_reads left s r (ready k lt now e) =
      (ap (λ (x : Bool × Line). x.1.ports) e, omega (arith, ap (λ (x : Bool × Line). x.1.reads) e))
  only_reads left s r (gave_up all e) =
      (ap (λ (x : Bool × Line). x.1.ports) e, omega (arith, ap (λ (x : Bool × Line). x.1.reads) e))

  abbrev finish : ℕ → Bool × ℕ × Line → ℕ × Line
  finish len (all, written, s') =
      if all then (len, (wait_loop status serial_max_wait_attempts s').1) else (written, s')

  finish-Result :
      (str : Text) (len : ℕ) (s : Line) (r : Bool × ℕ × Line)
      → Writes str 0 len s r
      → Result str len s (finish len r)
  finish-Result str len s r (complete all count ports reads) =
      let (same, more) =
        only_reads serial_max_wait_attempts r.2 (wait_loop status serial_max_wait_attempts r.2)
          (wait_loop-Waits status serial_max_wait_attempts r.2) in
      rw all (whole refl (same ∙ ports) (omega arith))
  finish-Result str len s r (stopped n from lt busy cut count ports reads) =
      let counted : r.1 ≡ n = omega arith in
      rw cut (
        part from (omega arith) (ports ∙ ap (λ (k : ℕ). s.ports ++ bytes_of str 0 k) (sym counted))
          busy (omega arith))

  -- `serial_write` of a text ends on every device, after at most 1000 reads of the status for each character and
  -- for the end. It answers how many of the characters went out, from the first one on and in order, and these are
  -- all, unless the transmitter was once busy for 1000 reads. A length of 0 or below stands for the whole text.
  pub serial_write-Result :
      (str : Text) (len : ℕ) (s : Line)
      → Result str (actual str len) s (serial_write status (some str) len s)
  unfolding serial_write
  serial_write-Result str len s =
      finish-Result str (actual str len) s (write_loop status str (actual str len) 0 s)
        (write_loop-Writes str (actual str len) 0 s)

  Result-whole :
      (str : Text) (len : ℕ) (s : Line) (r : ℕ × Line)
      → ((n : ℕ) → (k : ℕ) × (k < serial_max_wait_attempts) × (ready_at status (n + k) ≡ true))
      → Result str len s r
      → (r.0 ≡ len) × (r.1.ports ≡ s.ports ++ bytes_of str 0 len)
  Result-whole str len s r answers (whole count ports reads) = (count, ports)
  Result-whole str len s r answers (part from lt ports busy reads) =
      let (k, lt', now) = answers from in absurd (true-ne-false (sym now ∙ busy k lt'))

  -- On a device whose transmitter is never busy for 1000 reads in a row, every character goes out.
  pub serial_write-whole :
      ((n : ℕ) → (k : ℕ) × (k < serial_max_wait_attempts) × (ready_at status (n + k) ≡ true))
      → (str : Text) (len : ℕ) (s : Line)
      → ((serial_write status (some str) len s).0 ≡ actual str len)
        × ((serial_write status (some str) len s).1.ports
            ≡ s.ports ++ bytes_of str 0 (actual str len))
  serial_write-whole answers str len s =
      Result-whole str (actual str len) s _ answers (serial_write-Result str len s)
