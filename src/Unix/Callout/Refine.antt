-- ===== src/Unix/Callout/Refine.antt =====
-- The callout table against its agenda, over any sequence of requests and clock interrupts.
use linuxab.Prelude.{
  ℕ, ◌+◌, ◌≡◌, refl, ap, ◌∙◌, Bool, true, false, Option, none, some, List, [], ◌∷◌, length,
}
use linuxab.Unix.Callout.{Table, Request, timeout, count_down, run_callouts}
use linuxab.Unix.Callout.Agenda.{Agenda, agenda, schedule, timeout-schedule, tick, count_down-tick}
use linuxab.Unix.Callout.Fire.{due_now, not_yet, AllLater}
use linuxab.Unix.Callout.Loop.{reschedule, run_callouts_high, run_callouts_low}

pub data Event : Type 0 where
  ask : Request → Event
  interrupt : Bool → Event

module _ (calls : ℕ → ℕ → List Request) where
  -- The kernel: what each clock interrupt calls, in order. The fuel is one more than the table is long.
  unfoldable pub run : Table → List Event → Option (List (List (ℕ × ℕ)))
  run ps [] = some []
  run ps (ask r ∷ es) = run (timeout r.func r.arg r.tim ps) es
  run ps (interrupt high ∷ es) = elim (run_callouts calls (length ps + 1) high ps) [
    | none ↦ none
    | some (log, ps') ↦ elim (run ps' es) [ none ↦ none | some logs ↦ some (log ∷ logs) ]
  ]

  -- The specification: a list of what is due when. A high interrupt only counts; a low one also runs
  -- all that is due and takes in what that asks for.
  unfoldable pub spec : Agenda → List Event → List (List (ℕ × ℕ))
  spec ds [] = []
  spec ds (ask r ∷ es) = spec (schedule (record { left = r.tim; func = r.func; arg = r.arg }) ds) es
  spec ds (interrupt true ∷ es) = [] ∷ spec (tick ds) es
  spec ds (interrupt false ∷ es) =
      due_now (tick ds) ∷ spec (reschedule calls (due_now (tick ds)) (not_yet (tick ds))) es

run_step :
    (calls : ℕ → ℕ → List Request) (ps ps' : Table) (es : List Event) (log : List (ℕ × ℕ))
    (logs : List (List (ℕ × ℕ))) (high : Bool)
    → run_callouts calls (length ps + 1) high ps ≡ some (log, ps')
    → run calls ps' es ≡ some logs
    → run calls ps (interrupt high ∷ es) ≡ some (log ∷ logs)
unfolding run
run_step calls ps ps' es log logs high e r = cc

run_nil : (calls : ℕ → ℕ → List Request) (ps : Table) → run calls ps [] ≡ some []
unfolding run
run_nil calls ps = refl

run_ask :
    (calls : ℕ → ℕ → List Request) (ps : Table) (es : List Event) (r : Request)
    → run calls ps (ask r ∷ es) ≡ run calls (timeout r.func r.arg r.tim ps) es
unfolding run
run_ask calls ps es r = refl

module _ (calls : ℕ → ℕ → List Request) (later : (f a : ℕ) → AllLater (calls f a)) where
  -- Where the functions that are called back ask only for later ticks, no sequence of requests and
  -- interrupts tells the table from its agenda: every interrupt ends, and calls what the agenda says.
  pub run-spec : (es : List Event) (ps : Table) → run calls ps es ≡ some (spec calls (agenda ps) es)
  unfolding spec
  run-spec [] ps = run_nil calls ps
  run-spec (ask r ∷ es) ps =
      run_ask calls ps es r
      ∙ run-spec es (timeout r.func r.arg r.tim ps)
      ∙ ap (λ ds. some (spec calls ds es)) (timeout-schedule r.func r.arg r.tim ps)
  run-spec (interrupt true ∷ es) ps =
      run_step calls ps (count_down ps) es [] (spec calls (tick (agenda ps)) es) true
        (run_callouts_high calls (length ps + 1) ps)
        (run-spec es (count_down ps) ∙ ap (λ ds. some (spec calls ds es)) (count_down-tick ps))
  run-spec (interrupt false ∷ es) ps =
      let (ps', ran, view) = run_callouts_low calls later ps in
      run_step calls ps ps' es (due_now (tick (agenda ps)))
        (spec calls (reschedule calls (due_now (tick (agenda ps))) (not_yet (tick (agenda ps)))) es)
        false ran (run-spec es ps' ∙ ap (λ ds. some (spec calls ds es)) view)
