-- ===== src/Kernel/Signal/Sets.antt =====
-- Signal sets are sets of signal numbers.
use Prim.Native.Nat.{bit_and, bit_or}
use linuxab.Prelude.{
  ℕ, ◌-◌, ◌/◌, ◌%◌, ◌^◌, ◌≤◌, ◌<◌, ◌≡◌, Bool, false, not, some, ltb, ◌==◌, if◌then◌else◌, ◌&&◌,
  ◌||◌, arith, inl, inr, Bool-cases,
}
use linuxab.Prelude.Bits.{complement, bit_or-lt, bit_and-lt}
use linuxab.Prelude.HasBit.{
  shift-lt, has_bit-raise, has_bit-lower, has_bit-bit_or, has_bit-bit_and, has_bit-complement,
}
use linuxab.Kernel.Signal.{
  Sigset, bad_signum, sigaddset, sigdelset, sigismember, sigorset, sigandset, signotset, Signals,
  sys_sigprocmask, done, einval,
}

-- The words are 32-bit words.
pub record IsValid (s : Sigset) : Type 0 where
  pub sig0_fits : s.sig0 < 2 ^ 32
  pub sig1_fits : s.sig1 < 2 ^ 32

good_signum : (n : ℕ) → 1 ≤ n → n ≤ 64 → bad_signum n ≡ false
unfolding bad_signum
good_signum n lo hi = ground arith

sigaddset-sigismember :
    (s t : Sigset) (n m : ℕ)
    → sigaddset s n ≡ some t
    → sigismember t m ≡ (n == m || sigismember s m)
unfolding sigaddset sigismember bad_signum
sigaddset-sigismember s t n m e = ground (
  arith,
  has_bit-raise s.sig0 ((n - 1) % 32) ((m - 1) % 32),
  has_bit-raise s.sig1 ((n - 1) % 32) ((m - 1) % 32),
)

sigdelset-sigismember :
    (s t : Sigset) (n m : ℕ)
    → sigdelset s n ≡ some t
    → sigismember t m ≡ (not (n == m) && sigismember s m)
unfolding sigdelset sigismember bad_signum
sigdelset-sigismember s t n m e = ground (
  arith,
  has_bit-lower s.sig0 ((n - 1) % 32) ((m - 1) % 32),
  has_bit-lower s.sig1 ((n - 1) % 32) ((m - 1) % 32),
)

sigaddset_runs :
    (s : Sigset) (n : ℕ)
    → IsValid s
    → 1 ≤ n
    → n ≤ 64
    → (t : Sigset) × (sigaddset s n ≡ some t) × IsValid t
unfolding sigaddset
sigaddset_runs s n v lo hi = elim (Bool-cases ((n - 1) / 32 == 0)) [
  | inl low ↦ (
    record s { sig0 = bit_or s.sig0 (2 ^ ((n - 1) % 32)) },
    rw (good_signum n lo hi) (rw low),
    record {
      sig0_fits = bit_or-lt 32 s.sig0 _ v.sig0_fits (shift-lt ((n - 1) % 32) (omega arith));
      sig1_fits = v.sig1_fits;
    },
  )
  | inr high ↦ (
    record s { sig1 = bit_or s.sig1 (2 ^ ((n - 1) % 32)) },
    rw (good_signum n lo hi) (rw high),
    record {
      sig0_fits = v.sig0_fits;
      sig1_fits = bit_or-lt 32 s.sig1 _ v.sig1_fits (shift-lt ((n - 1) % 32) (omega arith));
    },
  )
]

sigdelset_runs :
    (s : Sigset) (n : ℕ)
    → IsValid s
    → 1 ≤ n
    → n ≤ 64
    → (t : Sigset) × (sigdelset s n ≡ some t) × IsValid t
unfolding sigdelset
sigdelset_runs s n v lo hi = elim (Bool-cases ((n - 1) / 32 == 0)) [
  | inl low ↦ (
    record s { sig0 = bit_and s.sig0 (complement 32 (2 ^ ((n - 1) % 32))) },
    rw (good_signum n lo hi) (rw low),
    record { sig0_fits = bit_and-lt 32 s.sig0 _ v.sig0_fits; sig1_fits = v.sig1_fits },
  )
  | inr high ↦ (
    record s { sig1 = bit_and s.sig1 (complement 32 (2 ^ ((n - 1) % 32))) },
    rw (good_signum n lo hi) (rw high),
    record { sig0_fits = v.sig0_fits; sig1_fits = bit_and-lt 32 s.sig1 _ v.sig1_fits },
  )
]

-- On 32-bit words `sigaddset` and `sigdelset` take every signal number from 1 to NSIG. The set gains
-- or loses that signal alone, whichever word it lies in, and the words stay 32-bit words.
pub sigaddset-sigdelset :
    (s : Sigset) (n : ℕ)
    → IsValid s
    → 1 ≤ n
    → n ≤ 64
    → (t u : Sigset) × (sigaddset s n ≡ some t)
      × (sigdelset s n ≡ some u)
      × IsValid t
      × IsValid u
      × ((m : ℕ) → sigismember t m ≡ (n == m || sigismember s m))
      × ((m : ℕ) → sigismember u m ≡ (not (n == m) && sigismember s m))
sigaddset-sigdelset s n v lo hi =
    let (t, added, vt) = sigaddset_runs s n v lo hi in
    let (u, removed, vu) = sigdelset_runs s n v lo hi in
    (
      t,
      u,
      added,
      removed,
      vt,
      vu,
      λ m. sigaddset-sigismember s t n m added,
      λ m. sigdelset-sigismember s u n m removed,
    )

sigorset-sigismember :
    (l r : Sigset) (m : ℕ) → sigismember (sigorset l r) m ≡ (sigismember l m || sigismember r m)
unfolding sigorset sigismember
sigorset-sigismember l r m = ground (
  arith,
  has_bit-bit_or l.sig0 r.sig0 ((m - 1) % 32),
  has_bit-bit_or l.sig1 r.sig1 ((m - 1) % 32),
)

sigandset-sigismember :
    (l r : Sigset) (m : ℕ) → sigismember (sigandset l r) m ≡ (sigismember l m && sigismember r m)
unfolding sigandset sigismember
sigandset-sigismember l r m = ground (
  arith,
  has_bit-bit_and l.sig0 r.sig0 ((m - 1) % 32),
  has_bit-bit_and l.sig1 r.sig1 ((m - 1) % 32),
)

signotset-sigismember :
    (s : Sigset) (m : ℕ)
    → IsValid s
    → sigismember (signotset s) m ≡ (not (bad_signum m) && not (sigismember s m))
unfolding signotset sigismember
signotset-sigismember s m v = ground (
  arith,
  has_bit-complement 32 s.sig0 ((m - 1) % 32) v.sig0_fits (omega arith),
  has_bit-complement 32 s.sig1 ((m - 1) % 32) v.sig1_fits (omega arith),
)

-- What `sys_sigprocmask` makes of the membership of a signal in the mask.
abbrev pub masked : ℕ → Bool → Bool → Bool
masked how old given =
    if how == 0
    then old || given
    else if how == 1
    then old && not given
    else if how == 2
    then given
    else old

-- `sys_sigprocmask` adds the given set of 32-bit words to the mask, takes it away, or puts it in its
-- place, for `how` = 0, 1, 2; for any other `how` it fails and the mask stays: so for each signal
-- from 1 to NSIG, SIGKILL and SIGSTOP not excepted. It always hands out the mask from before the
-- call, and leaves the actions.
pub sys_sigprocmask_lem :
    (how m : ℕ) (set : Sigset) (s : Signals)
    → IsValid set
    → 1 ≤ m
    → m ≤ 64
    → let (answer, old, s') = sys_sigprocmask how (some set) s in
      (sigismember s'.blocked m ≡ masked how (sigismember s.blocked m) (sigismember set m))
      × (answer ≡ (if ltb 2 how then einval else done tt))
      × (old ≡ s.blocked)
      × (s'.actions ≡ s.actions)
unfolding sys_sigprocmask
sys_sigprocmask_lem how m set s v lo hi = (
  ground (
    arith,
    good_signum m lo hi,
    sigorset-sigismember s.blocked set m,
    sigandset-sigismember s.blocked (signotset set) m,
    signotset-sigismember set m v,
  ),
  ground arith,
  ground arith,
  ground arith,
)
