-- ===== src/Unix/Clock/Time.antt =====
-- The time of day counts the interrupts, and processes age within their bounds.
use linuxab.Prelude.{
  ℕ, ◌+◌, ◌-◌, ◌*◌, ◌≤◌, ◌<◌, ◌≡◌, ap, ◌∙◌, inl, inr, Bool, true, false, not, List, arith,
  if◌then◌else◌, ◌==◌, ◌&&◌, Bool-cases,
}
use Prim.Native.Nat.{min}
use linuxab.Unix.Clock.{
  Proc, Clock, word, full, charge, account, second, wake, bolts, age, wake_runin, clock_out,
}

-- Seconds since the epoch: the two words of `time`.
abbrev pub seconds : Clock → ℕ
seconds c = c.time0 * 65536 + c.time1

-- The interrupts that the time of day and the part of a second make up.
abbrev pub elapsed : ℕ → Clock → ℕ
elapsed hz c = hz * seconds c + c.lbolt

second_lem :
    (hz : ℕ) (c : Clock)
    → c.time1 < 65536
    → c.time0 < 65535
    → full hz c.lbolt ≡ true
    → (seconds (second hz c) ≡ seconds c + 1) × ((second hz c).lbolt + hz ≡ c.lbolt)
unfolding second
second_lem hz c h k l =
    let fits : c.lbolt < 32768 = ground arith in
    let enough : hz ≤ c.lbolt = ground arith in (ground arith, omega arith)

-- The wakeups of a second leave the time alone.
bolts_time :
    (hz puser : ℕ) (setpri : Proc → Proc) (c : Clock)
    → let d = wake_runin hz puser setpri (bolts c) in (seconds d ≡ seconds c) × (d.lbolt ≡ c.lbolt)
unfolding bolts wake wake_runin
bolts_time hz puser setpri c = (ground arith, ground arith)

account_time :
    (user : Bool) (c : Clock)
    → ((account user c).time0 ≡ c.time0)
      × ((account user c).time1 ≡ c.time1)
      × ((account user c).lbolt ≡ c.lbolt)
unfolding account
account_time user c = (ground arith, ground arith, ground arith)

module _ (hz puser : ℕ) (setpri : Proc → Proc) where
  -- Every interrupt, in user or kernel mode and at either priority, adds exactly one to HZ times the
  -- seconds plus `lbolt`, as long as neither `lbolt`, an int of 16 bits that is not negative, nor the
  -- upper word of the time overflows.
  pub clock_out-elapsed :
      (user high : Bool) (cur : ℕ) (c : Clock) (procs : List Proc)
      → c.time1 < 65536
      → c.time0 < 65535
      → c.lbolt < 32767
      → elapsed hz (clock_out hz puser setpri user high cur c procs).0 ≡ elapsed hz c + 1
  unfolding clock_out
  clock_out-elapsed user high cur c procs h k small =
      let c1 = account user c in
      let c2 : Clock = record c1 { lbolt = word (c1.lbolt + 1) } in
      let more : word (c1.lbolt + 1) ≡ c.lbolt + 1 =
        omega (arith, (account_time user c).2, small) in
      let (same0, same1, samel) = account_time user c in
      let same : hz * seconds c1 ≡ hz * seconds c =
        ap (λ (t : ℕ). hz * t) (omega (arith, same0, same1)) in
      elim (Bool-cases (full hz (word (c1.lbolt + 1)) && not high)) [
        | inl waits ↦
            let (sec, left) =
              second_lem hz c2 (omega (arith, same1)) (omega (arith, same0)) (ground arith) in
            let (woken, kept) = bolts_time hz puser setpri (second hz c2) in
            rw waits
              (omega (arith, ap (λ (t : ℕ). hz * t) (woken ∙ sec), kept, left, same, samel, more))
        | inr part ↦ rw part (omega (arith, same, more))
      ]

  -- After an interrupt at low priority less than a second is left over, if less than two were, and two
  -- seconds fit in `lbolt`.
  pub clock_out-lbolt :
      (user : Bool) (cur : ℕ) (c : Clock) (procs : List Proc)
      → 0 < hz
      → c.lbolt + 1 < 2 * hz
      → 2 * hz ≤ 32768
      → (clock_out hz puser setpri user false cur c procs).0.lbolt < hz
  unfolding clock_out bolts wake wake_runin second account
  clock_out-lbolt true cur c procs pos h low = ground arith
  clock_out-lbolt false cur c procs pos h low = ground arith

  -- What a second does to a process in use whose priority is not above PUSER: its time grows by one up
  -- to 127, and its processor charge falls by ten down to 0. A free slot is left alone.
  pub age_bounds :
      (p : Proc)
      → p.time ≤ 127
      → p.cpu < 256
      → p.pri ≤ puser
      → let q = age hz puser setpri p in
        (q.time ≡ (if p.stat == 0 then p.time else min 127 (p.time + 1)))
        × (q.cpu ≡ (if p.stat == 0 then p.cpu else p.cpu - 10))
        × (q.stat ≡ p.stat)
  unfolding age
  age_bounds p t c r = (ground arith, ground arith, ground arith)

-- The charge for the current process stops at 255.
pub charge_saturates : (p : Proc) → p.cpu < 256 → (charge p).cpu ≡ min 255 (p.cpu + 1)
unfolding charge
charge_saturates p h = ground arith
