-- ===== src/Log/Written.antt =====
-- What a call of the log sends.
use lbos.Base.{
  ℕ, zero, suc, ◌+◌, ◌-◌, ◌≡◌, refl, sym, ap, ◌∙◌, true, arith, some, List, [], ◌∷◌, ◌++◌,
  replicate, u8, ltb, Bool-cases, inl, inr, if◌then◌else◌,
}
use mathlib.Core.List.{append_assoc, append-nil}
use lbos.Text.{Text}
use lbos.Serial.{Line}
use lbos.Log.{
  Scan, finish, log_loop, log_write, put, put_char, put_spaces, level_string, level_length,
}
use lbos.Log.Sent.{sent, Answers, ports-put, ports-put_char}
use lbos.Log.Pieces.{Piece, taken, all_pieces, all_source, shown, all_shown}
use lbos.Log.Passes.{at, piece-Passes}

sent-append : (t u : Text) → sent (t ++ u) ≡ sent t ++ sent u
sent-append [] u = refl
sent-append (c ∷ t) u = ap (λ (l : List (ℕ × ℕ)). (0x3f8, u8 c) ∷ l) (sent-append t u)

module _ (status : ℕ → ℕ) (text_at : ℕ → Text) (answers : Answers status) where
  ports-put_spaces :
      (k : ℕ) (s : Line)
      → (put_spaces status text_at k s).ports ≡ s.ports ++ sent (replicate k b' ')
  ports-put_spaces zero s = sym (append-nil s.ports)
  ports-put_spaces (suc k) s =
      ports-put_spaces k (put_char status text_at b' ' s)
      ∙ ap (λ (p : List (ℕ × ℕ)). p ++ sent (replicate k b' '))
          (ports-put_char status text_at answers b' ' s)
      ∙ append_assoc s.ports (sent (b' ' ∷ [])) (sent (replicate k b' '))

  -- Texts one behind the other.
  sent-then :
      (p q r : List (ℕ × ℕ)) (t u : Text)
      → q ≡ p ++ sent t
      → r ≡ q ++ sent u
      → r ≡ p ++ sent (t ++ u)
  sent-then p q r t u e f =
      f
      ∙ ap (λ (x : List (ℕ × ℕ)). x ++ sent u) e
      ∙ append_assoc p (sent t) (sent u)
      ∙ ap (λ (x : List (ℕ × ℕ)). p ++ x) (sym (sent-append t u))

  pieces-Pass :
      (args : ℕ → ℕ) (level : ℕ) (ps : List Piece) (n : ℕ) (s : Line)
      → all_pieces ps ≡ true
      → (m : ℕ) × (s' : Line) × (log_loop status text_at args level (all_source ps) (at n s)
          ≡ at m s')
        × (s'.ports ≡ s.ports ++ sent (all_shown text_at args level ps n))
  unfolding log_loop
  pieces-Pass args level [] n s h = (n, s, refl, sym (append-nil s.ports))
  pieces-Pass args level (p ∷ ps) n s h =
      let (s1, e1, sent1) =
        piece-Passes status text_at answers args level p n s (all_source ps) (ground arith) in
      let (m, s2, e2, sent2) = pieces-Pass args level ps (n + taken p) s1 (ground arith) in
      (
        m,
        s2,
        e1 ∙ e2,
        sent-then s.ports s1.ports s2.ports (shown text_at args level p n)
            (all_shown text_at args level ps (n + taken p)) sent1 sent2,
      )

  -- The text of a call: the level in its colour, spaces up to the eleventh column, the message and a new line.
  abbrev pub written : (args : ℕ → ℕ) → ℕ → List Piece → Text
  written args level ps =
      level_string level
      ++ (replicate (10 - level_length level) b' '
          ++ (all_shown text_at args level ps 0 ++ 10 ∷ []))

  -- The line once the level and the spaces are sent.
  abbrev headed : ℕ → Line → Line
  headed level s =
      put_spaces status text_at (10 - level_length level)
        (put status text_at (level_string level) s)

  written-ports :
      (args : ℕ → ℕ) (level : ℕ) (ps : List Piece) (s s' : Line)
      → s'.ports ≡ (headed level s).ports ++ sent (all_shown text_at args level ps 0)
      → (put_char status text_at 10 s').ports ≡ s.ports ++ sent (written args level ps)
  written-ports args level ps s s' e =
      let l1 = put status text_at (level_string level) s in
      let l2 = headed level s in
      let l3 = put_char status text_at 10 s' in
      let pad = replicate (10 - level_length level) b' ' in
      let text = all_shown text_at args level ps 0 in
      sent-then s.ports l1.ports l3.ports (level_string level) (pad ++ (text ++ 10 ∷ []))
        (ports-put status text_at answers (level_string level) s)
        (sent-then l1.ports l2.ports l3.ports pad (text ++ 10 ∷ [])
          (ports-put_spaces (10 - level_length level) l1)
          (sent-then l2.ports s'.ports l3.ports text (10 ∷ []) e
            (ports-put_char status text_at answers 10 s')))

  -- On a line that answers, and for any format that is made of characters, directives and whole escape sequences, a call of
  -- the log at the current level or above ends and sends the level, the padding, the message in which each
  -- directive is replaced by its argument, and a new line, in this order. Escape sequences of the format are left
  -- out at the level of information. Below the current level nothing is sent.
  pub log_write-written :
      (current_log_level : ℕ) (args : ℕ → ℕ) (level : ℕ) (ps : List Piece) (s : Line)
      → all_pieces ps ≡ true
      → (s' : Line) × (log_write status text_at current_log_level args level (all_source ps) s
          ≡ some s')
        × (s'.ports ≡ (
            if ltb level current_log_level
            then s.ports
            else s.ports ++ sent (written args level ps)))
  unfolding log_write
  log_write-written current_log_level args level ps s h =
      let (m, s', e, ports) = pieces-Pass args level ps 0 (headed level s) h in
      elim (Bool-cases (ltb level current_log_level)) [
        | inl below ↦ (s, rw below refl, rw below refl)
        | inr write ↦ (
          put_char status text_at 10 s',
          rw write (ap (λ (x : Scan). finish status text_at x.mode x.line) e),
          rw write (written-ports args level ps s s' ports),
        )
      ]
