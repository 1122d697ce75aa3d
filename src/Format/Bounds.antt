-- ===== src/Format/Bounds.antt =====
-- How much a format writes.
use lbos.Base.{
  ℕ, ◌+◌, ◌-◌, ◌^◌, ◌≤◌, ◌<◌, ◌≡◌, refl, ap, ◌∙◌, Bool, true, false, not, Bool-cases, inl, inr,
  ◌&&◌, ◌||◌, arith, Option, some, [], ◌∷◌, ◌++◌, ◌==◌, ltb, length, length-append, length-take,
  take, if_both, if◌then◌else◌, sub32, u8,
}
use lbos.Text.{Text}
use lbos.Format.{
  number_to_string, pointer_to_string, convert, format_loop, vsnprintf, terminated, null_text,
}
use lbos.Format.Numbers.{length-digit_loop}

length-number_to_string : (num base : ℕ) → length (number_to_string num base) ≤ 11
unfolding number_to_string
length-number_to_string num base =
    let (more, bound) = length-digit_loop 9 base (sub32 0 num) [] in
    let (more', bound') = length-digit_loop 9 base num [] in ground arith

length-pointer_to_string : (addr : ℕ) → length (pointer_to_string addr) ≡ 10
unfolding pointer_to_string
length-pointer_to_string addr = refl

-- The format does not end in a `%`.
abbrev pub ends_plain : Text → Bool
ends_plain [] = true
ends_plain (c ∷ []) = not (c == b'%')
ends_plain (c ∷ d ∷ fmt) = ends_plain (d ∷ fmt)

ends_plain-rest : (d : ℕ) (fmt : Text) → ends_plain (d ∷ fmt) ≡ true → ends_plain fmt ≡ true
ends_plain-rest d [] h = refl
ends_plain-rest d (e ∷ fmt) h = h

module _ (text_at : ℕ → Text) (args : ℕ → ℕ) where
  abbrev Within : ℕ → ℕ × Text → Type 0
  Within bound r = length r.1 ≤ bound

  convert-Within :
      (limit d n : ℕ) (buffer : Text)
      → length buffer < limit
      → Within (limit + 10) (convert text_at args limit d (n, buffer))
  unfolding convert
  convert-Within limit d n buffer lt =
      if_both (Within (limit + 10)) ((d == b'd') || (d == b'i') || (d == b'u'))
        (appended (number_to_string (args n) 10) (length-number_to_string (args n) 10))
        (if_both (Within (limit + 10)) ((d == b'x') || (d == b'X'))
          (appended (number_to_string (args n) 16) (length-number_to_string (args n) 16))
          (if_both (Within (limit + 10)) (d == b'p')
            (appended (pointer_to_string (args n))
              (omega (arith, length-pointer_to_string (args n))))
            (if_both (Within (limit + 10)) (d == b's')
              (omega (
                arith,
                length-append buffer (
                    take (limit - length buffer)
                      (if args n == 0 then null_text else text_at (args n))),
                length-take (limit - length buffer)
                    (if args n == 0 then null_text else text_at (args n)),
              ))
              (if_both (Within (limit + 10)) (d == b'c') (appended (u8 (args n) ∷ []) (omega arith))
                (if_both (Within (limit + 10)) (d == b'%') (appended (b'%' ∷ []) (omega arith))
                  (appended (b'%' ∷ d ∷ []) (omega arith)))))))
    where
      appended : (t : Text) → length t ≤ 11 → length (buffer ++ t) ≤ limit + 10
      appended t h = omega (arith, length-append buffer t)

  -- The loop comes to its end with a buffer of at most `bound` characters.
  data Ends (bound : ℕ) (r : Option (ℕ × Text)) : Type 0 where
    ends : (n : ℕ) (buffer : Text) → r ≡ some (n, buffer) → length buffer ≤ bound → Ends bound r

  format_loop-Ends :
      (limit : ℕ) (fmt : Text) (s : ℕ × Text)
      → ends_plain fmt ≡ true
      → length s.1 ≤ limit + 10
      → Ends (limit + 10) (format_loop text_at args limit fmt s)
  unfolding format_loop
  format_loop-Ends limit [] (n, buffer) plain fits = ends n buffer refl fits
  format_loop-Ends limit (c ∷ []) (n, buffer) plain fits =
      elim (Bool-cases (ltb (length buffer) limit)) [
        | inl room ↦
            rw (room, not_percent plain)
              (ends n (buffer ++ c ∷ []) refl
                (omega (arith, length-append buffer (c ∷ []), less room)))
        | inr full ↦ rw full (ends n buffer refl fits)
      ]
    where
      not_percent : not (c == b'%') ≡ true → (c == b'%') ≡ false
      not_percent h = ground arith

      less : ltb (length buffer) limit ≡ true → length buffer < limit
      less h = ground arith
  format_loop-Ends limit (c ∷ d ∷ fmt) (n, buffer) plain fits =
      elim (Bool-cases (ltb (length buffer) limit)) [
        | inl room ↦ rw room (
            if_both (Ends (limit + 10)) ((c == b'%') && not (d == b'%'))
              (format_loop-Ends limit fmt (convert text_at args limit d (n, buffer))
                (ends_plain-rest d fmt plain) (convert-Within limit d n buffer (less room)))
              (format_loop-Ends limit (d ∷ fmt) (n, buffer ++ c ∷ []) plain
                (omega (arith, length-append buffer (c ∷ []), less room))))
        | inr full ↦ rw full (ends n buffer refl fits)
      ]
    where
      less : ltb (length buffer) limit ≡ true → length buffer < limit
      less h = ground arith

  Ends-terminated :
      (bound : ℕ) (r : Option (ℕ × Text))
      → Ends bound r
      → (bytes : Text) × (terminated r ≡ some (length bytes - 1, bytes))
        × (0 < length bytes)
        × (length bytes ≤ bound + 1)
  Ends-terminated bound r (ends n buffer e h) = (
    buffer ++ 0 ∷ [],
    ap (terminated) e
        ∙ ap (λ (k : ℕ). some (k, buffer ++ 0 ∷ [])) (omega (arith, length-append buffer (0 ∷ []))),
    omega (arith, length-append buffer (0 ∷ [])),
    omega (arith, length-append buffer (0 ∷ [])),
  )

  -- With any arguments, `vsnprintf` comes to its end on a format that does not end in a `%`, and answers the number
  -- of characters before the terminator that it writes. It writes at most ten bytes more than `size`, which is at
  -- least 1: a number that begins inside the buffer is written to its end.
  pub vsnprintf-ends :
      (size : ℕ) (format : Text)
      → 0 < size
      → size < 2 ^ 32
      → ends_plain format ≡ true
      → (bytes : Text) × (vsnprintf text_at args size format ≡ some (length bytes - 1, bytes))
        × (0 < length bytes)
        × (length bytes ≤ size + 10)
  unfolding vsnprintf
  vsnprintf-ends size format pos lt plain =
      let (bytes, e, some', bound) =
        Ends-terminated (sub32 size 1 + 10) (format_loop text_at args (sub32 size 1) format (0, []))
          (format_loop-Ends (sub32 size 1) format (0, []) plain (omega arith)) in
      (bytes, e, some', omega arith)
