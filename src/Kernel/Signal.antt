-- ===== src/Kernel/Signal.antt =====
-- kernel/signal.c: signal sets, the actions of the signals and the mask of blocked ones. A result of
-- -1 is `none` or `false`; a negative signal number fails the same tests as 0 and is not modelled.
-- An access outside an array is a fault, the `none` of `Option`.
pub mod Sets
pub mod Actions
use Prim.Native.Nat.{bit_and, bit_or}
use linuxab.Prelude.{
  ℕ, zero, suc, ◌+◌, ◌-◌, ◌*◌, ◌/◌, ◌%◌, ◌^◌, Bool, true, false, not, Option, none, some, List, [],
  ◌∷◌, ltb, leb, ◌==◌, if◌then◌else◌, ◌&&◌, ◌||◌, get_elem?, set, map,
}
use linuxab.Prelude.Bits.{complement, has_bit}

abbrev pub nsig : ℕ
nsig = 64

abbrev pub sigkill : ℕ
sigkill = 9

abbrev pub sigstop : ℕ
sigstop = 19

-- `sigset_t`: the two words of `sig`.
pub record Sigset : Type 0 where
  pub sig0 : ℕ
  pub sig1 : ℕ

pub sigemptyset : Sigset
sigemptyset = record { sig0 = 0; sig1 = 0 }

pub sigfillset : Sigset
sigfillset = record { sig0 = 2 ^ 32 - 1; sig1 = 2 ^ 32 - 1 }

-- `signum < 1 || signum > NSIG`
pub bad_signum : ℕ → Bool
bad_signum signum = ltb signum 1 || ltb nsig signum

pub sigaddset : Sigset → ℕ → Option Sigset
sigaddset s signum =
    let bit = 2 ^ ((signum - 1) % 32) in
    if bad_signum signum
    then none
    else some (
        if (signum - 1) / 32 == 0
        then record s { sig0 = bit_or s.sig0 bit }
        else record s { sig1 = bit_or s.sig1 bit })

pub sigdelset : Sigset → ℕ → Option Sigset
sigdelset s signum =
    let mask = complement 32 (2 ^ ((signum - 1) % 32)) in
    if bad_signum signum
    then none
    else some (
        if (signum - 1) / 32 == 0
        then record s { sig0 = bit_and s.sig0 mask }
        else record s { sig1 = bit_and s.sig1 mask })

pub sigismember : Sigset → ℕ → Bool
sigismember s signum =
    if bad_signum signum
    then false
    else has_bit (if (signum - 1) / 32 == 0 then s.sig0 else s.sig1) ((signum - 1) % 32)

pub sigorset : Sigset → Sigset → Sigset
sigorset l r = record { sig0 = bit_or l.sig0 r.sig0; sig1 = bit_or l.sig1 r.sig1 }

pub sigandset : Sigset → Sigset → Sigset
sigandset l r = record { sig0 = bit_and l.sig0 r.sig0; sig1 = bit_and l.sig1 r.sig1 }

pub signotset : Sigset → Sigset
signotset s = record { sig0 = complement 32 s.sig0; sig1 = complement 32 s.sig1 }

pub sigisempty : Sigset → Bool
sigisempty s = s.sig0 == 0 && s.sig1 == 0

-- `struct sigaction`; the function pointers are numbers.
pub record Sigaction : Type 0 where
  pub handler : ℕ
  pub sigaction : ℕ
  pub mask : Sigset
  pub flags : ℕ
  pub restorer : ℕ

-- `sig_actions`, an array of `_NSIG` entries, and `blocked_sigs`.
pub record Signals : Type 0 where
  pub actions : List Sigaction
  pub blocked : Sigset

pub reset_action : Sigaction → Sigaction
unfolding sigemptyset
reset_action a = record a { handler = 0; mask = sigemptyset; flags = 0 }

pub signal_init : Signals → Signals
unfolding sigemptyset reset_action
signal_init s = record { actions = map reset_action s.actions; blocked = sigemptyset }

-- What a call of `do_sigaction` ends in: -1, or 0 with what it writes to `*oact`.
pub data Answer (A : Type 0) : Type 0 where
  einval : Answer A
  done : A → Answer A

-- Behind the tests: the entry is read for `*oact` and written from `*act`; `none` in place of the entry
-- is an index outside the array.
pub swap_action :
    ℕ
    → Option Sigaction
    → Bool
    → Signals
    → Option Sigaction
    → Option (Answer (Option Sigaction) × Signals)
swap_action sig act query s none =
    if query then none else elim act [ none ↦ some (done none, s) | some a ↦ none ]
swap_action sig act query s (some old) = some (
  done (if query then some old else none),
  elim act [ none ↦ s | some a ↦ record s { actions = set s.actions sig a } ],
)

-- `act` is `none` for a null pointer; the old action is written only where the caller asks (`query`).
pub do_sigaction :
    ℕ → Option Sigaction → Bool → Signals → Option (Answer (Option Sigaction) × Signals)
unfolding swap_action bad_signum
do_sigaction sig act query s =
    if bad_signum sig
    then some (einval, s)
    else if sig == sigkill || sig == sigstop
    then some (einval, s)
    else swap_action sig act query s (get_elem? s.actions sig)

-- `how` is any number; 0, 1 and 2 are SIG_BLOCK, SIG_UNBLOCK and SIG_SETMASK. The mask from before
-- the call goes to `*oldset`, on the error too.
pub sys_sigprocmask : ℕ → Option Sigset → Signals → Answer (Unit {0}) × Sigset × Signals
unfolding sigorset sigandset signotset
sys_sigprocmask how none s = (done tt, s.blocked, s)
sys_sigprocmask how (some set) s =
    if how == 0
    then (done tt, s.blocked, record s { blocked = sigorset s.blocked set })
    else if how == 1
    then (done tt, s.blocked, record s { blocked = sigandset s.blocked (signotset set) })
    else if how == 2
    then (done tt, s.blocked, record s { blocked = set })
    else (einval, s.blocked, s)

pub block_all_signals : Signals → Signals
unfolding sigfillset
block_all_signals s = record s { blocked = sigfillset }

pub unblock_all_signals : Signals → Signals
unfolding sigemptyset
unblock_all_signals s = record s { blocked = sigemptyset }
