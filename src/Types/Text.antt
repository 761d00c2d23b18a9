-- ===== src/Types/Text.antt =====
-- rust/types.c: numbers read from text and written as text. A C string is the list of its bytes up to
-- the terminating NUL, so `*s` at its end is 0. `none` of a parser is a signed overflow, which C leaves
-- undefined; `none` of a printer is `-val` at the least value of its type, likewise.
pub mod Emit
pub mod Reverse
pub mod RoundTrip
pub mod Signed
use linuxab.Prelude.{
  ℕ, zero, suc, ◌+◌, ◌-◌, ◌*◌, ◌/◌, ◌%◌, ◌^◌, Bool, true, false, Option, none, some, List, [], ◌∷◌,
  ◌++◌, ltb, leb, ◌==◌, if◌then◌else◌, ◌&&◌, ◌||◌, length, set, get_or,
}
use linuxab.Prelude.Int.{ℤ, pos, negsuc, negate}
use mathlib.Core.Option

abbrev pub Text : Type 0
Text = List ℕ

pub is_digit : ℕ → Bool
is_digit c = leb b'0' c && leb c b'9'

-- `while (*s == ' ' || *s == '\t') s++;`
pub skip_blanks : Text → Text
skip_blanks [] = []
skip_blanks (c ∷ s) = if c == b' ' || c == 9 then skip_blanks s else c ∷ s

-- The sign, `true` for minus, and what follows it.
pub read_sign : Text → Bool × Text
read_sign [] = (false, [])
read_sign (c ∷ s) =
    if c == b'-' then (true, s) else if c == b'+' then (false, s) else (false, c ∷ s)

-- `while (*s >= '0' && *s <= '9') { res = res * 10 + (*s - '0'); s++; }` in a signed type of w bits
pub read_decimal : ℕ → ℕ → Text → Option ℕ
read_decimal w res [] = some res
read_decimal w res (c ∷ s) =
    if is_digit c
    then (if ltb (res * 10 + (c - b'0')) (2 ^ (w - 1))
        then read_decimal w (res * 10 + (c - b'0')) s
        else none)
    else some res

-- The body that `atoi`, `atol` and `atoll` share.
pub ato : ℕ → Text → Option ℤ
ato w s =
    let (minus, t) = read_sign (skip_blanks s) in
    Option.map (λ r. if minus then negate r else pos r) (read_decimal w 0 t)

pub atoi : Text → Option ℤ
atoi = ato 32

pub atol : Text → Option ℤ
atol = ato 64

pub atoll : Text → Option ℤ
atoll = ato 64

-- The value of a character in `strtoul`, if it is a digit or a letter.
pub digit_value : ℕ → Option ℕ
digit_value c =
    if is_digit c
    then some (c - b'0')
    else if leb b'a' c && leb c b'z'
    then some (c - b'a' + 10)
    else if leb b'A' c && leb c b'Z'
    then some (c - b'A' + 10)
    else none

-- The loop: `unsigned long` wraps. The rest of the text is what `*endptr` is set to.
pub read_digits : ℕ → ℕ → Text → ℕ × Text
read_digits base res [] = (res, [])
read_digits base res (c ∷ s) =
    let go = λ (d : ℕ). read_digits base ((res * base + d) % 2 ^ 64) s in
    elim (digit_value c) [
      | none ↦ (res, c ∷ s)
      | some d ↦ if leb base d then (res, c ∷ s) else go d
    ]

-- Base 0 asks for the base that the prefix shows.
pub detect_base : Text → ℕ × Text
detect_base [] = (10, [])
detect_base (c ∷ []) = if c == b'0' then (8, []) else (10, c ∷ [])
detect_base (c ∷ d ∷ s) =
    if c == b'0' && (d == b'x' || d == b'X')
    then (16, s)
    else if c == b'0'
    then (8, d ∷ s)
    else (10, c ∷ d ∷ s)

pub strtoul : Text → ℕ → ℕ × Text
strtoul s base =
    let (base', t) = if base == 0 then detect_base s else (base, s) in read_digits base' 0 t

pub strtoull : Text → ℕ → ℕ × Text
strtoull s base =
    let (base', t) = if base == 0 then detect_base s else (base, s) in read_digits base' 0 t

pub digit_char : ℕ → ℕ
digit_char rem = if ltb rem 10 then b'0' + rem else b'a' + rem - 10

-- `do { *p++ = ...; uv /= base; } while (uv > 0);`: what the loop writes, lowest digit first. `none`
-- is fuel that has run out.
pub emit_digits : ℕ → ℕ → ℕ → Option Text
emit_digits zero base uv = none
emit_digits (suc fuel) base uv =
    let more = emit_digits fuel base (uv / base) in
    Option.map (λ s. digit_char (uv % base) ∷ s) (if uv / base == 0 then some [] else more)

-- `while (p1 < p2) { swap *p1 and *p2; p1++; p2--; }`, for the given number of rounds at most
pub reverse_loop : ℕ → Text → ℕ → ℕ → Text
reverse_loop zero buf p1 p2 = buf
reverse_loop (suc fuel) buf p1 p2 =
    let swapped = set (set buf p1 (get_or buf p2 0)) p2 (get_or buf p1 0) in
    let more = reverse_loop fuel swapped (p1 + 1) (p2 - 1) in if ltb p1 p2 then more else buf

-- From `p1 = buf` and `p2 = p - 1`; each round brings the two nearer.
pub reverse_buffer : Text → Text
reverse_buffer buf = reverse_loop (length buf) buf 0 (length buf - 1)

-- Digits of an unsigned value, a minus sign behind them if `minus`, then all turned round. One round
-- of the digit loop for each bit of the type is enough.
pub write_number : ℕ → Bool → ℕ → ℕ → Option Text
write_number w minus uv base =
    Option.map (λ s. reverse_buffer (if minus then s ++ (b'-' ∷ []) else s)) (emit_digits w base uv)

pub bad_base : ℕ → Bool
bad_base base = ltb base 2 || ltb 16 base

-- The body that `itoa`, `ltoa` and `lltoa` share, at a type of w bits: a negative value is written
-- with a sign in base 10 and as its unsigned pattern in any other.
pub signed_to_text : ℕ → ℤ → ℕ → Option Text
signed_to_text w (pos n) base = if bad_base base then some [] else write_number w false n base
signed_to_text w (negsuc n) base =
    if bad_base base
    then some []
    else if base == 10
    then (if n + 1 == 2 ^ (w - 1) then none else write_number w true (n + 1) base)
    else write_number w false (2 ^ w - (n + 1)) base

pub itoa : ℤ → ℕ → Option Text
itoa = signed_to_text 32

pub ltoa : ℤ → ℕ → Option Text
ltoa = signed_to_text 64

pub lltoa : ℤ → ℕ → Option Text
lltoa = signed_to_text 64

pub utoa : ℕ → ℕ → Option Text
utoa val base = if bad_base base then some [] else write_number 32 false val base
