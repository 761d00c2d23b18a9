-- ===== src/Tests/Unix.antt =====
-- unix/kernel/ken/clock.c at concrete inputs.
use linuxab.Prelude.{
  ℕ, ◌+◌, ◌≡◌, inl, inr, Bool-cases, true, false, some, List, [], ◌∷◌, ◌==◌, if◌then◌else◌, arith,
  length,
}
use linuxab.Unix.Callout.{Table, Request, timeout, run_callouts}
use linuxab.Unix.Callout.Agenda.{agenda, schedule, tick, timeout-schedule}
use linuxab.Unix.Callout.Fire.{due_now, not_yet, AllLater}
use linuxab.Unix.Callout.Loop.{reschedule, run_callouts_low}
use linuxab.Unix.Callout.Refine.{Event, ask, interrupt, run, spec, run-spec}
use linuxab.Unix.Clock.{Proc, Clock, clock_out}
use linuxab.Unix.Clock.Time.{elapsed, clock_out-elapsed}

-- A callout due in two ticks, and another three ticks behind it.
abbrev table : Table
table = record { time = 2; func = 7; arg = 1 } ∷ record { time = 3; func = 8; arg = 2 } ∷ []

-- Function 7 asks to be called again in five ticks.
abbrev again : ℕ → ℕ → List Request
again f a = if f == 7 then record { func = 7; arg = a; tim = 5 } ∷ [] else []

again_later : (f a : ℕ) → AllLater (again f a)
again_later f a = elim (Bool-cases (f == 7)) [ inl t ↦ rw t (omega arith, tt) | inr e ↦ rw e tt ]

timeout-schedule_example :
    agenda (timeout 9 3 4 table) ≡ schedule (record { left = 4; func = 9; arg = 3 }) (agenda table)
timeout-schedule_example = timeout-schedule 9 3 4 table

abbrev events : List Event
events =
    ask (record { func = 7; arg = 4; tim = 1 })
    ∷ interrupt true
    ∷ interrupt false
    ∷ interrupt false
    ∷ []

run-spec_example : run again table events ≡ some (spec again (agenda table) events)
run-spec_example = run-spec again again_later events table

run_callouts_low_example :
    (ps' : Table) × (run_callouts again (length table + 1) false table
      ≡ some (due_now (tick (agenda table)), ps'))
    × (agenda ps'
        ≡ reschedule again (due_now (tick (agenda table))) (not_yet (tick (agenda table))))
run_callouts_low_example = run_callouts_low again again_later table

abbrev a_process : Proc
a_process = record { stat = 3; time = 127; cpu = 9; pri = 50 }

abbrev a_clock : Clock
a_clock = record {
  utime = 0;
  stime = 0;
  lbolt = 59;
  time0 = 1;
  time1 = 65535;
  tout0 = 0;
  tout1 = 0;
  runrun = 0;
  runin = 1;
  wakeups = [];
}

clock_out-elapsed_example :
    elapsed 60 (clock_out 60 100 (λ p. p) true false 0 a_clock (a_process ∷ [])).0
    ≡ elapsed 60 a_clock + 1
clock_out-elapsed_example =
    clock_out-elapsed 60 100 (λ p. p) true false 0 a_clock (a_process ∷ []) (omega arith)
      (omega arith) (omega arith)
