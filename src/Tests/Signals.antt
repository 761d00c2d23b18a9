-- ===== src/Tests/Signals.antt =====
-- kernel/signal.c at concrete inputs.
use linuxab.Prelude.{
  ℕ, zero, suc, ◌≡◌, refl, true, none, some, List, [], ◌∷◌, ltb, if◌then◌else◌, arith, get_elem?,
}
use linuxab.Kernel.Signal.{
  Sigset, Sigaction, Signals, einval, done, nsig, sigismember, sys_sigprocmask, do_sigaction,
}
use linuxab.Kernel.Signal.Sets.{IsValid, sys_sigprocmask_lem, masked}
use linuxab.Kernel.Signal.Actions.{do_sigaction_installs, do_sigaction-nsig}

abbrev two_signals : Sigset
two_signals = record { sig0 = 2; sig1 = 1 }

two_signals-IsValid : IsValid two_signals
two_signals-IsValid = record { sig0_fits = omega arith; sig1_fits = omega arith }

abbrev an_action : Sigaction
an_action = record { handler = 7; sigaction = 0; mask = two_signals; flags = 0; restorer = 0 }

abbrev many : ℕ → List Sigaction
many zero = []
many (suc n) = an_action ∷ many n

abbrev signals : Signals
signals = record { actions = many 64; blocked = two_signals }

sys_sigprocmask_lem_example :
    let (answer, old, s') = sys_sigprocmask 1 (some two_signals) signals in
    (sigismember s'.blocked 33
      ≡ masked 1 (sigismember signals.blocked 33) (sigismember two_signals 33))
    × (answer ≡ (if ltb 2 1 then einval else done tt))
    × (old ≡ signals.blocked)
    × (s'.actions ≡ signals.actions)
sys_sigprocmask_lem_example =
    sys_sigprocmask_lem 1 33 two_signals signals two_signals-IsValid (omega arith) (omega arith)

abbrev another : Sigaction
another = record an_action { handler = 9 }

do_sigaction_installs_example :
    (s' : Signals) × (do_sigaction 5 (some another) true signals ≡ some (done (some an_action), s'))
    × (do_sigaction 5 none true s' ≡ some (done (some another), s'))
    × (s'.blocked ≡ signals.blocked)
    × (get_elem? s'.actions 6 ≡ get_elem? signals.actions 6)
do_sigaction_installs_example =
    do_sigaction_installs 5 6 another an_action signals (omega arith) (omega arith) (omega arith)
      (omega arith) refl (omega arith) refl

do_sigaction-nsig_example :
    (do_sigaction nsig (some another) true signals ≡ none)
    × (do_sigaction nsig none true signals ≡ none)
do_sigaction-nsig_example = do_sigaction-nsig another true signals refl
