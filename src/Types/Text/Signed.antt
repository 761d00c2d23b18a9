-- ===== src/Types/Text/Signed.antt =====
-- `itoa`, `ltoa` and `lltoa` in base 10 against `atoi`, `atol` and `atoll`.
use linuxab.Prelude.{
  ℕ, ◌+◌, ◌-◌, ◌*◌, ◌^◌, ◌≤◌, ◌<◌, ◌≡◌, refl, sym, ap, ◌∙◌, true, false, some, [], ◌∷◌, ◌++◌, arith,
  lt→ltb, ◌==◌,
}
use linuxab.Prelude.Int.{ℤ, pos, negsuc, negate}
use linuxab.Types.Text.{
  Text, digit_char, emit_digits, is_digit, read_decimal, write_number, bad_base, skip_blanks,
  read_sign, signed_to_text, ato, itoa, atoi, ltoa, atol, lltoa, atoll,
}
use linuxab.Types.Text.Emit.{emit_read, emit_digits-leading}
use linuxab.Types.Text.RoundTrip.{write_unsigned}
use linuxab.Types.Text.Reverse.{reverse_buffer-reverse}
use native.Mathlib.Numerals.{add-one}
use mathlib.Core.List.{reverse, reverse-append, append-nil}

-- The values of a signed type of w bits but the least.
abbrev pub InRange : ℕ → ℤ → Type 0
InRange w (pos n) = n < 2 ^ (w - 1)
InRange w (negsuc n) = n + 1 < 2 ^ (w - 1)

digit_char_lem : (d : ℕ) → d < 10 → (is_digit (digit_char d) ≡ true) × (digit_char d - b'0' ≡ d)
unfolding digit_char is_digit
digit_char_lem d h = (ground arith, ground arith)

read_decimal_take :
    (w res c d : ℕ) (s : Text)
    → is_digit c ≡ true
    → c - b'0' ≡ d
    → res * 10 + d < 2 ^ (w - 1)
    → read_decimal w res (c ∷ s) ≡ read_decimal w (res * 10 + d) s
unfolding read_decimal
read_decimal_take w res c d s h e fits = rw (e, h) (rw (lt→ltb _ _ fits))

read_decimal_step :
    (w res d : ℕ) (s : Text)
    → d < 10
    → res * 10 + d < 2 ^ (w - 1)
    → read_decimal w res (digit_char d ∷ s) ≡ read_decimal w (res * 10 + d) s
read_decimal_step w res d s lt fits =
    let (is, value) = digit_char_lem d lt in
    read_decimal_take w res (digit_char d) d s is value fits

-- Text that starts with a digit has no blanks and no sign in front.
skip_blanks_digit : (c : ℕ) (t : Text) → is_digit c ≡ true → skip_blanks (c ∷ t) ≡ c ∷ t
unfolding skip_blanks is_digit
skip_blanks_digit c t h = ground arith

read_sign_digit : (c : ℕ) (t : Text) → is_digit c ≡ true → read_sign (c ∷ t) ≡ (false, c ∷ t)
unfolding read_sign is_digit
read_sign_digit c t h = ground arith

ato_unsigned :
    (w c n : ℕ) (t : Text)
    → is_digit c ≡ true
    → read_decimal w 0 (c ∷ t) ≡ some n
    → ato w (c ∷ t) ≡ some (pos n)
unfolding ato
ato_unsigned w c n t h e = rw (skip_blanks_digit c t h, read_sign_digit c t h, e)

ato_minus : (w n : ℕ) (t : Text) → read_decimal w 0 t ≡ some n → ato w (b'-' ∷ t) ≡ some (negate n)
unfolding ato skip_blanks read_sign
ato_minus w n t e = rw e

read_decimal_end : (w res : ℕ) → read_decimal w res [] ≡ some res
unfolding read_decimal
read_decimal_end w res = refl

write_minus :
    (w uv base : ℕ) (s : Text)
    → emit_digits w base uv ≡ some s
    → write_number w true uv base ≡ some (b'-' ∷ reverse s)
unfolding write_number
write_minus w uv base s e =
    rw (e, reverse_buffer-reverse (s ++ (b'-' ∷ [])), reverse-append s (b'-' ∷ []))

-- The digits of a value in range, and what a parser of the same width makes of them.
read_back :
    (w uv : ℕ)
    → 0 < w
    → 2 ^ (w - 1) ≤ 2 ^ w
    → uv < 2 ^ (w - 1)
    → (s : Text) × (emit_digits w 10 uv ≡ some s) × (read_decimal w 0 (reverse s) ≡ some uv)
read_back w uv positive wider fits =
    let (s, runs, reads) =
      emit_read 10 (2 ^ (w - 1)) (omega arith) (read_decimal w) (read_decimal_step w) w uv positive
        (omega arith) fits in
    (
      s,
      runs,
      ap (read_decimal w 0) (sym (append-nil (reverse s))) ∙ reads [] ∙ read_decimal_end w uv,
    )

-- The digits in front of what a parser sees: one at least.
read_unsigned :
    (w uv : ℕ) (s : Text)
    → emit_digits w 10 uv ≡ some s
    → read_decimal w 0 (reverse s) ≡ some uv
    → ato w (reverse s) ≡ some (pos uv)
read_unsigned w uv s runs reads =
    let (c, t, e, digit) = emit_digits-leading w uv s runs in
    ap (ato w) e ∙ ato_unsigned w c uv t digit (ap (read_decimal w 0) (sym e) ∙ reads)

signed-ato :
    (w : ℕ) (v : ℤ)
    → 0 < w
    → 2 ^ (w - 1) ≤ 2 ^ w
    → InRange w v
    → (s : Text) × (signed_to_text w v 10 ≡ some s) × (ato w s ≡ some v)
unfolding signed_to_text bad_base
signed-ato w (pos n) positive wider fits =
    let (s, runs, reads) = read_back w n positive wider fits in
    (reverse s, write_unsigned w n 10 s runs, read_unsigned w n s runs reads)
signed-ato w (negsuc n) positive wider fits =
    let (s, runs, reads) = read_back w (n + 1) positive wider fits in
    let above : (n + 1 == 2 ^ (w - 1)) ≡ false = ground arith in
    let value : negate (n + 1) ≡ negsuc n = rw add-one in
    (
      b'-' ∷ reverse s,
      rw above (write_minus w (n + 1) 10 s runs),
      ato_minus w (n + 1) (reverse s) reads ∙ ap some value,
    )

-- In base 10 `itoa` writes every `int` but the least, and `atoi` reads that value back.
pub itoa-atoi : (v : ℤ) → InRange 32 v → (s : Text) × (itoa v 10 ≡ some s) × (atoi s ≡ some v)
unfolding itoa atoi
itoa-atoi v fits = signed-ato 32 v (omega arith) (omega arith) fits

-- In base 10 `ltoa` and `lltoa` write the same text of every 64-bit value but the least, and `atol`
-- and `atoll` read that value back.
pub ltoa-atol :
    (v : ℤ)
    → InRange 64 v
    → (s : Text) × (ltoa v 10 ≡ some s)
      × (lltoa v 10 ≡ some s)
      × (atol s ≡ some v)
      × (atoll s ≡ some v)
unfolding ltoa lltoa atol atoll
ltoa-atol v fits =
    let (s, written, read) = signed-ato 64 v (omega arith) (omega arith) fits in
    (s, written, written, read, read)
