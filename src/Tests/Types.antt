-- ===== src/Tests/Types.antt =====
-- rust/types.c at concrete inputs.
use linuxab.Prelude.{ℕ, ◌+◌, ◌*◌, ◌<◌, ◌≡◌, some, [], arith}
use linuxab.Prelude.Int.{negsuc}
use linuxab.Types.Divide.{div64_32}
use linuxab.Types.Divide.Correct.{div64_32_correct}
use linuxab.Types.Text.{Text, utoa, strtoul, itoa, atoi}
use linuxab.Types.Text.RoundTrip.{utoa-strtoul}
use linuxab.Types.Text.Signed.{itoa-atoi}

div64_32_correct_example :
    (q r : ℕ) × (div64_32 10000000000000000000 1000000007 ≡ some (q, r))
    × (q * 1000000007 + r ≡ 10000000000000000000)
    × (r < 1000000007)
div64_32_correct_example =
    div64_32_correct 10000000000000000000 1000000007 (omega arith) (omega arith) (omega arith)

utoa-strtoul_example :
    (s : Text) × (utoa 3735928559 16 ≡ some s) × (strtoul s 16 ≡ (3735928559, []))
utoa-strtoul_example = utoa-strtoul 3735928559 16 (omega arith) (omega arith) (omega arith)

itoa-atoi_example : (s : Text) × (itoa (negsuc 41) 10 ≡ some s) × (atoi s ≡ some (negsuc 41))
itoa-atoi_example = itoa-atoi (negsuc 41) (omega arith)
