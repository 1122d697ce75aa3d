-- ===== src/Log/Passes.antt =====
-- The loop over the format, piece by piece.
use lbos.Base.{
  ℕ, ◌+◌, ◌≡◌, refl, sym, ap, ◌∙◌, Bool, true, false, not, Bool-cases, inl, inr, ◌⊎◌, arith, [],
  ◌∷◌, ◌++◌, u8, if◌then◌else◌, ◌==◌,
}
use mathlib.Core.List.{append_assoc, append-nil}
use lbos.Text.{Text}
use lbos.Serial.{Line, num_to_hex, num_to_decimal, serial_write_hex, serial_write_decimal}
use lbos.Log.{
  Scan, plain, color, directive, log_char, log_loop, put, put_char, put_string, escape,
  log_level_info,
}
use lbos.Log.Sent.{
  sent, Answers, ports-put, ports-put_char, ports-decimal, ports-hex, ports-put_string,
}
use lbos.Log.Pieces.{
  Piece, literal, quoted, decimal, hex, string, char, colour, source, taken, has_m, is_piece, shown,
}

abbrev pub at : ℕ → Line → Scan
at n s = record { mode = plain; next = n; line = s }

if-not : (b : Bool) (x y : Line) → (if not b then x else y) ≡ (if b then y else x)
if-not true x y = refl
if-not false x y = refl

module _ (status : ℕ → ℕ) (text_at : ℕ → Text) (answers : Answers status) (args : ℕ → ℕ)
    (level : ℕ) where
  -- The loop passes a piece with which `t` is sent.
  abbrev pub Passes : Piece → Text → ℕ → Line → Text → Type 0
  Passes p t n s rest =
      (s' : Line) × (log_loop status text_at args level (source p ++ rest) (at n s)
        ≡ log_loop status text_at args level rest (at (n + taken p) s'))
      × (s'.ports ≡ s.ports ++ sent t)

  same_next :
      (n : ℕ) (s : Line) (rest : Text)
      → log_loop status text_at args level rest (at n s)
        ≡ log_loop status text_at args level rest (at (n + 0) s)
  same_next n s rest =
      let e : n ≡ n + 0 = omega arith in
      ap (λ (k : ℕ). log_loop status text_at args level rest (at k s)) e

  literal-Passes :
      (c n : ℕ) (s : Line) (rest : Text)
      → is_piece (literal c) ≡ true
      → Passes (literal c) (c ∷ []) n s rest
  unfolding log_loop log_char
  literal-Passes c n s rest h = (
    put_char status text_at c s,
    rw (no_percent, no_escape) (same_next n _ rest),
    ports-put_char status text_at answers c s,
  )
    where
      no_percent : (c == b'%') ≡ false
      no_percent = ground arith

      no_escape : (c == 27) ≡ false
      no_escape = ground arith

  decimal-Passes :
      (n : ℕ) (s : Line) (rest : Text) → Passes decimal (num_to_decimal (args n)) n s rest
  unfolding log_loop log_char directive
  decimal-Passes n s rest = (
    (serial_write_decimal status (args n) s).1,
    refl,
    ports-decimal status text_at answers (args n) s,
  )

  hex-Passes : (n : ℕ) (s : Line) (rest : Text) → Passes hex (num_to_hex (args n)) n s rest
  unfolding log_loop log_char directive
  hex-Passes n s rest =
      ((serial_write_hex status (args n) s).1, refl, ports-hex status text_at answers (args n) s)

  string-Passes :
      (n : ℕ) (s : Line) (rest : Text) → Passes string (shown text_at args level string n) n s rest
  unfolding log_loop log_char directive
  string-Passes n s rest = (
    put_string status text_at (args n) s,
    refl,
    ports-put_string status text_at answers (args n) s,
  )

  char-Passes : (n : ℕ) (s : Line) (rest : Text) → Passes char (u8 (args n) ∷ []) n s rest
  unfolding log_loop log_char directive
  char-Passes n s rest = (
    put_char status text_at (u8 (args n)) s,
    refl,
    ports-put_char status text_at answers (u8 (args n)) s,
  )

  quoted-Passes :
      (c n : ℕ) (s : Line) (rest : Text)
      → is_piece (quoted c) ≡ true
      → Passes (quoted c) (c ∷ []) n s rest
  unfolding log_loop log_char directive
  quoted-Passes c n s rest h = (
    put_char status text_at c s,
    rw (no_d, no_x, no_s, no_c) (same_next n _ rest),
    ports-put_char status text_at answers c s,
  )
    where
      no_d : (c == b'd') ≡ false
      no_d = ground arith

      no_x : (c == b'x') ≡ false
      no_x = ground arith

      no_s : (c == b's') ≡ false
      no_s = ground arith

      no_c : (c == b'c') ≡ false
      no_c = ground arith

  log_char-color :
      (c : ℕ) (start : Text) (n : ℕ) (s : Line)
      → (c == b'm') ≡ false
      → log_char status text_at args level c
          (color start)
          (record { mode = color start; next = n; line = s })
        ≡ record { mode = color (start ++ c ∷ []); next = n; line = s }
  unfolding log_char
  log_char-color c start n s h = rw (log_char, h) refl

  -- The characters of an escape sequence up to its end, behind those from `start` on.
  colour_loop :
      (start t rest : Text) (n : ℕ) (s : Line)
      → has_m t ≡ false
      → log_loop status text_at args level
          (t ++ b'm' ∷ rest)
          (record { mode = color start; next = n; line = s })
        ≡ log_loop status text_at args level rest (
            at n (
              if level == log_level_info
              then s
              else put status text_at (start ++ (t ++ b'm' ∷ [])) s))
  unfolding log_loop log_char
  colour_loop start [] rest n s h =
      ap (λ (l : Line). log_loop status text_at args level rest (at n l))
        (if-not (level == log_level_info) (put status text_at (start ++ b'm' ∷ []) s) s)
  colour_loop start (c ∷ t) rest n s h =
      ap (log_loop status text_at args level (t ++ b'm' ∷ rest)) (log_char-color c start n s no_m)
      ∙ colour_loop (start ++ c ∷ []) t rest n s no_later
      ∙ ap
          (λ (u : Text).
            log_loop status text_at args level rest
              (at n (if level == log_level_info then s else put status text_at u s)))
          (append_assoc start (c ∷ []) (t ++ b'm' ∷ []))
    where
      no_m : (c == b'm') ≡ false
      no_m = ground arith

      no_later : has_m t ≡ false
      no_later = ground arith

  colour-Passes :
      (t : Text) (n : ℕ) (s : Line) (rest : Text)
      → is_piece (colour t) ≡ true
      → Passes (colour t) (shown text_at args level (colour t) n) n s rest
  unfolding log_loop log_char
  colour-Passes t n s rest h = (
    if level == log_level_info then s else put status text_at (escape ∷ t ++ b'm' ∷ []) s,
    ap
          (λ (u : Text).
            log_loop status text_at args level u
              (record { mode = color (escape ∷ []); next = n; line = s }))
          (append_assoc t (b'm' ∷ []) rest)
        ∙ colour_loop (escape ∷ []) t rest n s no_m
        ∙ same_next n _ rest,
    written (Bool-cases (level == log_level_info)),
  )
    where
      no_m : has_m t ≡ false
      no_m = ground arith

      written :
          ((level == log_level_info) ≡ true) ⊎ ((level == log_level_info) ≡ false)
          → (if level == log_level_info
              then s
              else put status text_at (escape ∷ t ++ b'm' ∷ []) s).ports
            ≡ s.ports ++ sent (shown text_at args level (colour t) n)
      written (inl info) = rw info (sym (append-nil s.ports))
      written (inr other) = rw other (ports-put status text_at answers (escape ∷ t ++ b'm' ∷ []) s)

  pub piece-Passes :
      (p : Piece) (n : ℕ) (s : Line) (rest : Text)
      → is_piece p ≡ true
      → Passes p (shown text_at args level p n) n s rest
  piece-Passes (literal c) n s rest h = literal-Passes c n s rest h
  piece-Passes (quoted c) n s rest h = quoted-Passes c n s rest h
  piece-Passes decimal n s rest h = decimal-Passes n s rest
  piece-Passes hex n s rest h = hex-Passes n s rest
  piece-Passes string n s rest h = string-Passes n s rest
  piece-Passes char n s rest h = char-Passes n s rest
  piece-Passes (colour t) n s rest h = colour-Passes t n s rest h
