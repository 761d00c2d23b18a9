-- ===== src/Kernel/Cpu/Notify.antt =====
-- The notifier chain: who is called, in which order, and what comes back.
use Prim.Native.Nat.{bit_and}
use linuxab.Prelude.{ℕ, ◌+◌, ◌%◌, ◌≡◌, List, [], ◌∷◌, ◌++◌, arith, length}
use linuxab.Prelude.Bits.{and_shift}
use linuxab.Kernel.Cpu.{Notifier, register_cpu_notifier, cpu_notify}

stop_bit : (r : ℕ) → bit_and r 1 ≡ r % 2
stop_bit r = omega (arith, and_shift 0 r)

-- Each of these notifiers lets the chain go on: its answer has bit 0 clear.
abbrev pub AllGoOn : ℕ → List Notifier → Type 0
AllGoOn val [] = Unit {0}
AllGoOn val (nb ∷ chain) = (nb val % 2 ≡ 0) × AllGoOn val chain

-- The notifiers are called in the order of the chain up to the first whose answer has bit 0 set, and
-- its answer is the result; those behind it are not called.
pub cpu_notify_stops :
    (val ret : ℕ) (pre post : List Notifier) (nb : Notifier)
    → AllGoOn val pre
    → nb val % 2 ≡ 1
    → cpu_notify val (pre ++ (nb ∷ post)) ret ≡ (nb val, length pre + 1)
unfolding cpu_notify
cpu_notify_stops val ret [] post nb h stop = ground (arith, stop_bit (nb val))
cpu_notify_stops val ret (p ∷ pre) post nb h stop =
    ground (arith, stop_bit (p val), cpu_notify_stops val (p val) pre post nb h.1 stop)

-- A notifier that is registered later is called earlier.
pub register-notify :
    (val ret : ℕ) (nb : Notifier) (chain : List Notifier)
    → nb val % 2 ≡ 0
    → cpu_notify val (register_cpu_notifier nb chain) ret
      ≡ ((cpu_notify val chain (nb val)).0, (cpu_notify val chain (nb val)).1 + 1)
unfolding cpu_notify register_cpu_notifier
register-notify val ret nb chain h = ground (arith, stop_bit (nb val))
