-- ===== src/Unix/Clock.antt =====
-- unix/kernel/ken/clock.c: `clock`, and in it what it does at `out:` behind the callouts, that is the
-- processor times, the time of day and the once-a-second work. HZ and PUSER are constants of headers that the
-- repository does not hold, and parameters here, as is `setpri`. The profile of a user program
-- (`incupc`) and the signals that a second in user mode delivers (`issig`, `psig`) change nothing that
-- stands here. Words have 16 bits; `p_cpu` and `p_time` are bytes. `lbolt` is an int: it stands
-- here as its 16 bits, of which those from 32768 on are the negative numbers.
pub mod Time
use linuxab.Prelude.{
  ℕ, zero, suc, ◌+◌, ◌-◌, ◌*◌, ◌%◌, ◌^◌, Bool, true, false, not, List, [], ◌∷◌, map, ltb, leb, ◌==◌,
  if◌then◌else◌, ◌&&◌, Option, none, some,
}
use linuxab.Unix.Callout.{Table, Request, run_callouts}

-- The fields of `struct proc` that the clock touches.
pub record Proc : Type 0 where
  pub stat : ℕ
  pub time : ℕ
  pub cpu : ℕ
  pub pri : ℕ

-- `runrun` and the wakeups are what the interrupt leaves behind for the scheduler.
pub record Clock : Type 0 where
  pub utime : ℕ
  pub stime : ℕ
  pub lbolt : ℕ
  pub time0 : ℕ
  pub time1 : ℕ
  pub tout0 : ℕ
  pub tout1 : ℕ
  pub runrun : ℕ
  pub runin : ℕ
  pub wakeups : List ℕ

abbrev pub word : ℕ → ℕ
word n = n % 65536

-- The channels of the three wakeups.
abbrev pub tout_chan : ℕ
tout_chan = 0

abbrev pub lbolt_chan : ℕ
lbolt_chan = 1

abbrev pub runin_chan : ℕ
runin_chan = 2

-- `if(++pp->p_cpu == 0) pp->p_cpu--;`
pub charge : Proc → Proc
charge p = let c = (p.cpu + 1) % 256 in record p { cpu = if c == 0 then 255 else c }

-- The charge for the current process.
pub charge_current : ℕ → List Proc → List Proc
charge_current cur [] = []
charge_current zero (p ∷ ps) = charge p ∷ ps
charge_current (suc cur) (p ∷ ps) = p ∷ charge_current cur ps

-- `u.u_utime++` or `u.u_stime++`; `user` is `(ps&UMODE) == UMODE`
pub account : Bool → Clock → Clock
account user c =
    if user
    then record c { utime = word (c.utime + 1) }
    else record c { stime = word (c.stime + 1) }

-- `lbolt >= HZ` of two 16-bit ints, for an HZ that is not negative
abbrev pub full : ℕ → ℕ → Bool
full hz lbolt = ltb lbolt 32768 && leb hz lbolt

-- `lbolt =- HZ; if(++time[1] == 0) ++time[0];`
pub second : ℕ → Clock → Clock
second hz c =
    let t1 = word (c.time1 + 1) in
    record c {
      lbolt = word (c.lbolt + (65536 - hz));
      time1 = t1;
      time0 = if t1 == 0 then word (c.time0 + 1) else c.time0;
    }

pub wake : ℕ → Clock → Clock
wake chan c = record c { wakeups = chan ∷ c.wakeups }

-- The wakeups of the second: `tout` at its time, the lightning bolt every four seconds.
pub bolts : Clock → Clock
bolts c =
    let c' = if c.time1 == c.tout1 && c.time0 == c.tout0 then wake tout_chan c else c in
    if c.time1 % 4 == 0 then wake lbolt_chan (record c' { runrun = word (c'.runrun + 1) }) else c'

module _ (hz puser : ℕ) (setpri : Proc → Proc) where
  -- The body of the loop over the processes: ageing, for those in use.
  pub age : Proc → Proc
  age p =
      let p' = record p {
        time = if p.time == 127 then p.time else (p.time + 1) % 256;
        cpu = if ltb 10 (p.cpu % 256) then p.cpu - 10 else 0;
      } in
      if p.stat == 0 then p else if ltb puser p.pri then setpri p' else p'

  pub wake_runin : Clock → Clock
  wake_runin c = if c.runin == 0 then c else wake runin_chan (record c { runin = 0 })

  -- `setpri(u.u_procp)` at the end of a second in user mode; `cur` is the current process.
  pub reprioritise : Bool → ℕ → List Proc → List Proc
  reprioritise user cur [] = []
  reprioritise user zero (p ∷ ps) = (if user then setpri p else p) ∷ ps
  reprioritise user (suc cur) (p ∷ ps) = p ∷ reprioritise user cur ps

  -- From `out:` to the end: `user` and `high` are the two tests of `ps`, `cur` is the place of the
  -- current process in the process table. At high priority a full second waits.
  pub clock_out : Bool → Bool → ℕ → Clock → List Proc → Clock × List Proc
  clock_out user high cur c procs =
      let c1 = account user c in
      let c2 = record c1 { lbolt = word (c1.lbolt + 1) } in
      let procs1 = charge_current cur procs in
      if full hz c2.lbolt && not high
      then (wake_runin (bolts (second hz c2)), reprioritise user cur (map age procs1))
      else (c2, procs1)

  -- `clock` itself: the callouts, and then what stands at `out:`. What a function that is called back
  -- asks of `timeout` is `calls`; the calls made are the first result.
  pub clock :
      (ℕ → ℕ → List Request)
      → ℕ
      → Bool
      → Bool
      → ℕ
      → Table
      → Clock
      → List Proc
      → Option (List (ℕ × ℕ) × Table × (Clock × List Proc))
  clock calls fuel user high cur table c procs = elim (run_callouts calls fuel high table) [
    | none ↦ none
    | some (log, table') ↦ some (log, table', clock_out user high cur c procs)
  ]
