-- ===== src/Types/Text/RoundTrip.antt =====
-- What the printers write, the parsers read back.
use linuxab.Prelude.{
  ℕ, ◌+◌, ◌*◌, ◌%◌, ◌^◌, ◌≤◌, ◌<◌, ◌≡◌, refl, sym, ap, ◌∙◌, false, some, [], ◌∷◌, arith, ◌==◌,
}
use linuxab.Types.Text.{
  Text, digit_char, emit_digits, digit_value, read_digits, write_number, bad_base, utoa, strtoul,
}
use linuxab.Types.Text.Emit.{emit_read, digit_value-digit_char}
use linuxab.Types.Text.Reverse.{reverse_buffer-reverse}
use native.Mathlib.Nat.{mod-eq_of_lt}
use mathlib.Core.List.{reverse, append-nil}

read_digits_take :
    (base res c d : ℕ) (s : Text)
    → digit_value c ≡ some d
    → d < base
    → read_digits base res (c ∷ s) ≡ read_digits base ((res * base + d) % 2 ^ 64) s
unfolding read_digits
read_digits_take base res c d s h lt = ground arith

read_digits_step :
    (base : ℕ)
    → base ≤ 16
    → (res d : ℕ) (s : Text) → d < base
    → res * base + d < 2 ^ 64
    → read_digits base res (digit_char d ∷ s) ≡ read_digits base (res * base + d) s
read_digits_step base h res d s lt fits =
    read_digits_take base res (digit_char d) d s (digit_value-digit_char d (omega arith)) lt
    ∙ ap (λ r. read_digits base r s) (mod-eq_of_lt fits)

read_digits_end : (base res : ℕ) → read_digits base res [] ≡ (res, [])
unfolding read_digits
read_digits_end base res = refl

pub write_unsigned :
    (w uv base : ℕ) (s : Text)
    → emit_digits w base uv ≡ some s
    → write_number w false uv base ≡ some (reverse s)
unfolding write_number
write_unsigned w uv base s e = rw (e, reverse_buffer-reverse s)

pub good_base : (base : ℕ) → 2 ≤ base → base ≤ 16 → bad_base base ≡ false
unfolding bad_base
good_base base h k = ground arith

strtoul_given : (base : ℕ) (s : Text) → 2 ≤ base → strtoul s base ≡ read_digits base 0 s
unfolding strtoul
strtoul_given base s h = let e : (base == 0) ≡ false = ground arith in rw e

-- `utoa` writes every 32-bit value in every base from 2 to 16, and `strtoul` in that base reads the
-- value back and stops at the end of the text.
pub utoa-strtoul :
    (val base : ℕ)
    → val < 2 ^ 32
    → 2 ≤ base
    → base ≤ 16
    → (s : Text) × (utoa val base ≡ some s) × (strtoul s base ≡ (val, []))
unfolding utoa
utoa-strtoul val base fits two sixteen =
    let (s, runs, reads) =
      emit_read base (2 ^ 64) two (read_digits base) (read_digits_step base sixteen) 32 val
        (omega arith) fits (omega arith) in
    (
      reverse s,
      rw (good_base base two sixteen) (write_unsigned 32 val base s runs),
      strtoul_given base (reverse s) two
          ∙ ap (read_digits base 0) (sym (append-nil (reverse s)))
          ∙ reads []
          ∙ read_digits_end base val,
    )
