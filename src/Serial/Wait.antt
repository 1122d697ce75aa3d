-- ===== src/Serial/Wait.antt =====
-- Waiting for the transmitter, and sending one byte.
use lbos.Base.{
  ℕ, zero, suc, ◌+◌, ◌≤◌, ◌<◌, ◌≡◌, refl, ap, ◌∙◌, Bool, true, false, Bool-cases, inl, inr, arith,
  [], if◌then◌else◌,
}
use lbos.Kernel.{minus_one}
use lbos.Serial.{
  Line, wait_loop, is_empty, read_status, serial_write_byte, serial_data_port,
  serial_max_wait_attempts, out,
}

module _ (status : ℕ → ℕ) where
  -- The transmitter is empty at the read of number `n`.
  abbrev pub ready_at : ℕ → Bool
  ready_at n = is_empty status (record { reads = n; ports = [] })

  -- The line after `k` more reads.
  abbrev pub after : ℕ → Line → Line
  after k s = record s { reads = s.reads + k }

  pub data Waits (left : ℕ) (s : Line) (r : Bool × Line) : Type 0 where
    ready :
        (k : ℕ)
        → k < left
        → ready_at (s.reads + k) ≡ true
        → r ≡ (true, after (k + 1) s)
        → Waits left s r
    gave_up :
        ((k : ℕ) → k < left → ready_at (s.reads + k) ≡ false)
        → r ≡ (false, after left s)
        → Waits left s r

  Waits-skip :
      {left : ℕ} {s : Line} {r : Bool × Line}
      → ready_at s.reads ≡ false
      → Waits left (read_status status s) r
      → Waits (suc left) s r
  Waits-skip {left} {s} busy (ready k lt now e) =
      ready (k + 1) (omega arith) (ap ready_at (omega arith) ∙ now)
        (e ∙ ap (λ (n : ℕ). (true, record s { reads = n })) (omega arith))
  Waits-skip {left} {s} {r} busy (gave_up all e) =
      gave_up never (e ∙ ap (λ (n : ℕ). (false, record s { reads = n })) (omega arith))
    where
      never : (k : ℕ) → k < suc left → ready_at (s.reads + k) ≡ false
      never zero lt = ap ready_at (omega arith) ∙ busy
      never (suc k) lt = ap ready_at (omega arith) ∙ all k (omega arith)

  pub wait_loop-Waits : (left : ℕ) (s : Line) → Waits left s (wait_loop status left s)
  unfolding wait_loop
  wait_loop-Waits zero s =
      gave_up (λ k lt. absurd (omega arith))
        (ap (λ (n : ℕ). (false, record s { reads = n })) (omega arith))
  wait_loop-Waits (suc left) s = elim (Bool-cases (ready_at s.reads)) [
    | inl now ↦ rw now (ready 0 (omega arith) (ap ready_at (omega arith) ∙ now) refl)
    | inr busy ↦ rw busy (Waits-skip busy (wait_loop-Waits left (read_status status s)))
  ]

  -- What sending one byte comes to: it is written to the data port, after at most 1000 reads of the status, or
  -- nothing is written since the transmitter was not empty at any of 1000 reads.
  pub data Sends (base byte : ℕ) (s : Line) (r : ℕ × Line) : Type 0 where
    sent :
        (k : ℕ)
        → k ≤ serial_max_wait_attempts
        → r.0 ≡ 0
        → r.1 ≡ out (serial_data_port base) byte (after k s)
        → Sends base byte s r
    timed_out :
        ((k : ℕ) → k < serial_max_wait_attempts → ready_at (s.reads + k) ≡ false)
        → r.0 ≡ minus_one
        → r.1 ≡ after serial_max_wait_attempts s
        → Sends base byte s r

  abbrev finish : (base byte : ℕ) → Bool × Line → ℕ × Line
  finish base byte (ready', s') =
      if ready' then (0, out (serial_data_port base) byte s') else (minus_one, s')

  finish-Sends :
      (base byte : ℕ) (s : Line) (r : Bool × Line)
      → Waits serial_max_wait_attempts s r
      → Sends base byte s (finish base byte r)
  finish-Sends base byte s r (ready k lt now e) =
      sent (k + 1) (omega arith) (ap (λ (x : Bool × Line). (finish base byte x).0) e)
        (ap (λ (x : Bool × Line). (finish base byte x).1) e)
  finish-Sends base byte s r (gave_up all e) =
      timed_out all (ap (λ (x : Bool × Line). (finish base byte x).0) e)
        (ap (λ (x : Bool × Line). (finish base byte x).1) e)

  -- `serial_write_byte` ends on every device: within 1000 reads of the status it writes the byte, once, to the
  -- data port and answers 0, or it writes nothing and answers -1 since each of 1000 reads found the transmitter
  -- busy.
  pub serial_write_byte-Sends :
      (base byte : ℕ) (s : Line) → Sends base byte s (serial_write_byte status base byte s)
  unfolding serial_write_byte
  serial_write_byte-Sends base byte s =
      finish-Sends base byte s (wait_loop status serial_max_wait_attempts s)
        (wait_loop-Waits serial_max_wait_attempts s)
