-- ===== src/Kernel/Signal/Actions.antt =====
-- `do_sigaction`: what is written, what is left alone, and what is refused.
use linuxab.Prelude.{
  ℕ, ◌≤◌, ◌<◌, ◌≡◌, ◌≢◌, ◌⊎◌, refl, ◌∙◌, Bool, true, false, Option, none, some, ltb, ◌==◌, ◌||◌,
  arith, get_elem?, set, length, get_elem?-eq-none, get_elem?-set_self, get_elem?-set_ne,
}
use linuxab.Kernel.Signal.{
  Sigaction, Signals, einval, done, bad_signum, sigkill, sigstop, nsig, swap_action, do_sigaction,
}

swap_lem :
    (sig : ℕ) (a old : Sigaction) (s : Signals) (e : Option Sigaction)
    → e ≡ some old
    → swap_action sig (some a) true s e
      ≡ some (done (some old), record s { actions = set s.actions sig a })
unfolding swap_action
swap_lem sig a old s e h = ground arith

swap_query :
    (sig : ℕ) (a : Sigaction) (s : Signals) (e : Option Sigaction)
    → e ≡ some a
    → swap_action sig none true s e ≡ some (done (some a), s)
unfolding swap_action
swap_query sig a s e h = ground arith

swap_out :
    (act : Sigaction) (query : Bool) (s : Signals)
    → get_elem? s.actions nsig ≡ none
    → do_sigaction nsig (some act) query s ≡ none
unfolding do_sigaction swap_action
swap_out act query s h = ground arith

query_out : (s : Signals) → get_elem? s.actions nsig ≡ none → do_sigaction nsig none true s ≡ none
unfolding do_sigaction swap_action
query_out s h = ground arith

do_sigaction-swap :
    (sig : ℕ) (act : Option Sigaction) (query : Bool) (s : Signals)
    → 1 ≤ sig
    → sig < nsig
    → sig ≢ sigkill
    → sig ≢ sigstop
    → do_sigaction sig act query s ≡ swap_action sig act query s (get_elem? s.actions sig)
unfolding do_sigaction bad_signum
do_sigaction-swap sig act query s lo below nk ns =
    let b : (ltb sig 1 || ltb nsig sig) ≡ false = ground arith in
    let k : (sig == sigkill || sig == sigstop) ≡ false = ground arith in rw b (rw k)

-- With a table of NSIG actions, for a signal from 1 to below NSIG but SIGKILL and SIGSTOP,
-- `do_sigaction` hands out the old action and installs the new one, which the next query finds. The
-- action of another signal does not change, nor does the mask.
pub do_sigaction_installs :
    (sig j : ℕ) (a old : Sigaction) (s : Signals)
    → sig ≢ j
    → 1 ≤ sig
    → sig ≢ sigkill
    → sig ≢ sigstop
    → get_elem? s.actions sig ≡ some old
    → sig < nsig
    → length s.actions ≡ nsig
    → (s' : Signals) × (do_sigaction sig (some a) true s ≡ some (done (some old), s'))
      × (do_sigaction sig none true s' ≡ some (done (some a), s'))
      × (s'.blocked ≡ s.blocked)
      × (get_elem? s'.actions j ≡ get_elem? s.actions j)
do_sigaction_installs sig j a old s ne lo nk ns e below len = (
  record s { actions = set s.actions sig a },
  do_sigaction-swap sig (some a) true s lo below nk ns ∙ swap_lem sig a old s _ e,
  do_sigaction-swap sig none true _ lo below nk ns
      ∙ swap_query sig a _ _ (get_elem?-set_self s.actions sig a (omega arith)),
  refl,
  get_elem?-set_ne s.actions a ne,
)

-- SIGKILL, SIGSTOP and every number above NSIG are refused, and nothing changes.
pub do_sigaction_refuses :
    (sig : ℕ) (act : Option Sigaction) (query : Bool) (s : Signals)
    → (sig ≡ 0) ⊎ ((sig ≡ sigkill) ⊎ ((sig ≡ sigstop) ⊎ (nsig < sig)))
    → do_sigaction sig act query s ≡ some (einval, s)
unfolding do_sigaction
do_sigaction_refuses sig act query s h = ground arith

-- With a table of NSIG actions, signal NSIG itself passes the tests and lies outside the table: to
-- ask for its action or to set it is an access out of bounds.
pub do_sigaction-nsig :
    (act : Sigaction) (query : Bool) (s : Signals)
    → length s.actions ≡ nsig
    → (do_sigaction nsig (some act) query s ≡ none) × (do_sigaction nsig none true s ≡ none)
do_sigaction-nsig act query s len = (
  swap_out act query s (get_elem?-eq-none s.actions nsig (omega arith)),
  query_out s (get_elem?-eq-none s.actions nsig (omega arith)),
)
