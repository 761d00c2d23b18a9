-- ===== src/Unix/Callout/Loop.antt =====
-- The loop of `clock` that runs callouts, and the move of the rest to the front of the table.
use linuxab.Prelude.{
  ℕ, zero, suc, ◌+◌, ◌<◌, ◌≡◌, refl, sym, ap, ◌∙◌, inl, inr, true, false, none, some, List, [], ◌∷◌,
  ◌++◌, arith, leb, ◌==◌, Bool-cases, length, get_elem?, drop, length-append, get_elem?-append,
  get_elem?-length, drop-append,
}
use mathlib.Core.Path.{ap₂}
use mathlib.Core.List.{append_assoc, append-nil}
use linuxab.Unix.Callout.{Callo, Table, Request, request_all, fire_loop, count_down, run_callouts}
use linuxab.Unix.Callout.Agenda.{Agenda, agenda_from, agenda, tick, count_down-tick}
use linuxab.Unix.Callout.Fire.{
  due_now, not_yet, schedule_all, AllLater, AllZero, AllZero-append, request_all-append,
  request_all-schedule_all, due_now-schedule_all, not_yet-schedule_all, due_now_from, not_yet_from,
  length-due_now,
}

module _ (calls : ℕ → ℕ → List Request) where
  -- What is asked for by the calls of a list, in order.
  unfoldable pub reschedule : List (ℕ × ℕ) → Agenda → Agenda
  reschedule [] es = es
  reschedule ((f, a) ∷ log) es = reschedule log (schedule_all (calls f a) es)

  fire_end :
      (fuel p1 : ℕ) (ps : Table)
      → get_elem? ps p1 ≡ none
      → fire_loop calls (suc fuel) ps p1 ≡ some ([], ps, p1)
  unfolding fire_loop
  fire_end fuel p1 ps e = ground arith

  fire_wait :
      (fuel p1 : ℕ) (ps : Table) (p : Callo)
      → get_elem? ps p1 ≡ some p
      → leb p.time 0 ≡ false
      → fire_loop calls (suc fuel) ps p1 ≡ some ([], ps, p1)
  unfolding fire_loop
  fire_wait fuel p1 ps p e h = ground arith

  fire_call :
      (fuel p1 end : ℕ) (ps ps' : Table) (p : Callo) (log : List (ℕ × ℕ))
      → get_elem? ps p1 ≡ some p
      → leb p.time 0 ≡ true
      → fire_loop calls fuel (request_all ps (calls p.func p.arg)) (p1 + 1) ≡ some (log, ps', end)
      → fire_loop calls (suc fuel) ps p1 ≡ some ((p.func, p.arg) ∷ log, ps', end)
  unfolding fire_loop
  fire_call fuel p1 end ps ps' p log e h r = ground arith

empty_agenda : (due_now (agenda []) ≡ []) × (not_yet (agenda []) ≡ [])
unfolding due_now not_yet agenda_from
empty_agenda = (refl, refl)

reschedule_nil : (calls : ℕ → ℕ → List Request) (es : Agenda) → reschedule calls [] es ≡ es
unfolding reschedule
reschedule_nil calls es = refl

reschedule_cons :
    (calls : ℕ → ℕ → List Request) (f a : ℕ) (log : List (ℕ × ℕ)) (es : Agenda)
    → reschedule calls ((f, a) ∷ log) es ≡ reschedule calls log (schedule_all (calls f a) es)
unfolding reschedule
reschedule_cons calls f a log es = refl

-- An entry with time 0 in front is due now; with any other time nothing is.
due_now-zero :
    (p : Callo) (ps : Table)
    → p.time ≡ 0
    → (due_now (agenda (p ∷ ps)) ≡ (p.func, p.arg) ∷ due_now (agenda ps))
      × (not_yet (agenda (p ∷ ps)) ≡ not_yet (agenda ps))
unfolding due_now not_yet agenda_from
due_now-zero p ps e =
    let now : 0 + p.time ≡ 0 = omega arith in
    let now' : (0 + p.time == 0) ≡ true = ground arith in
    (
      rw now' (ap (λ k. (p.func, p.arg) ∷ due_now (agenda_from k ps)) now),
      rw now' (ap (λ k. not_yet (agenda_from k ps)) now),
    )

due_now-pos :
    (p : Callo) (ps : Table)
    → 0 < p.time
    → (due_now (agenda (p ∷ ps)) ≡ []) × (not_yet (agenda (p ∷ ps)) ≡ agenda (p ∷ ps))
unfolding due_now not_yet agenda_from
due_now-pos p ps h =
    (ground (arith, due_now_from (0 + p.time) ps), ground (arith, not_yet_from (0 + p.time) ps))

run_low :
    (calls : ℕ → ℕ → List Request) (fuel end : ℕ) (p : Callo) (ps ps' : Table) (log : List (ℕ × ℕ))
    → fire_loop calls fuel (count_down (p ∷ ps)) 0 ≡ some (log, ps', end)
    → run_callouts calls fuel false (p ∷ ps) ≡ some (log, drop end ps')
unfolding run_callouts
run_low calls fuel end p ps ps' log e = cc

-- At high priority `clock` only counts.
pub run_callouts_high :
    (calls : ℕ → ℕ → List Request) (fuel : ℕ) (ps : Table)
    → run_callouts calls fuel true ps ≡ some ([], count_down ps)
unfolding run_callouts count_down
run_callouts_high calls fuel [] = refl
run_callouts_high calls fuel (p ∷ ps) = refl

length-count_down : (ps : Table) → length (count_down ps) ≡ length ps
unfolding count_down
length-count_down [] = refl
length-count_down (p ∷ ps) = ground (arith, length-count_down ps)

module _ (calls : ℕ → ℕ → List Request) (later : (f a : ℕ) → AllLater (calls f a)) where
  fire_lem :
      (fuel : ℕ) (done rest : Table)
      → AllZero done
      → length (due_now (agenda rest)) < fuel
      → (done' rest' : Table) × (fire_loop calls fuel (done ++ rest) (length done)
          ≡ some (due_now (agenda rest), done' ++ rest', length done'))
        × (agenda rest' ≡ reschedule calls (due_now (agenda rest)) (not_yet (agenda rest)))
  unfolding agenda_from
  fire_lem zero done rest h lt = elim lt [ ]
  fire_lem (suc fuel) done [] h lt = (
    done,
    [],
    fire_end calls fuel (length done) (done ++ [])
          (ap (λ t. get_elem? t (length done)) (append-nil done) ∙ get_elem?-length done)
        ∙ ap (λ l. some (l, done ++ [], length done)) (sym empty_agenda.0),
    sym (reschedule_nil calls [])
        ∙ ap₂ (reschedule calls) (sym empty_agenda.0) (sym empty_agenda.1),
  )
  fire_lem (suc fuel) done (p ∷ ps) h lt = elim (Bool-cases (leb p.time 0)) [
    | inl due ↦
        let zero_time : p.time ≡ 0 = ground arith in
        let (now, rest) = due_now-zero p ps zero_time in
        let rs = calls p.func p.arg in
        let same = request_all-schedule_all rs ps in
        let now' : due_now (agenda (request_all ps rs)) ≡ due_now (agenda ps) =
          ap due_now same ∙ due_now-schedule_all rs (agenda ps) (later p.func p.arg) in
        let rest' : not_yet (agenda (request_all ps rs)) ≡ schedule_all rs (not_yet (agenda ps)) =
          ap not_yet same ∙ not_yet-schedule_all rs (agenda ps) (later p.func p.arg) in
        let (done', left, runs, view) =
          fire_lem fuel (done ++ (p ∷ [])) (request_all ps rs) (AllZero-append done p h zero_time)
            (omega (arith, ap length now, ap length now')) in
        let entered : fire_loop calls fuel (request_all (done ++ (p ∷ ps)) rs) (length done + 1)
            ≡ some (due_now (agenda (request_all ps rs)), done' ++ left, length done') =
          ap₂ (fire_loop calls fuel)
            (ap (λ t. request_all t rs) (sym (append_assoc done (p ∷ []) ps))
              ∙ request_all-append rs (done ++ (p ∷ [])) ps (AllZero-append done p h zero_time))
            (omega (arith, length-append done (p ∷ [])))
          ∙ runs in
        (
          done',
          left,
          fire_call calls fuel (length done) (length done') (done ++ (p ∷ ps)) (done' ++ left) p
                (due_now (agenda (request_all ps rs))) (get_elem?-append done p ps) due entered
              ∙ ap (λ l. some ((p.func, p.arg) ∷ l, done' ++ left, length done')) now'
              ∙ ap (λ l. some (l, done' ++ left, length done')) (sym now),
          view
              ∙ ap₂ (reschedule calls) now' rest'
              ∙ sym (reschedule_cons calls p.func p.arg (due_now (agenda ps)) (not_yet (agenda ps)))
              ∙ ap₂ (reschedule calls) (sym now) (sym rest),
        )
    | inr wait ↦
        let (none_due, all) = due_now-pos p ps (ground arith) in
        (
          done,
          p ∷ ps,
          fire_wait calls fuel (length done) (done ++ (p ∷ ps)) p (get_elem?-append done p ps) wait
              ∙ ap (λ l. some (l, done ++ (p ∷ ps), length done)) (sym none_due),
          sym all
              ∙ sym (reschedule_nil calls (not_yet (agenda (p ∷ ps))))
              ∙ ap (λ l. reschedule calls l (not_yet (agenda (p ∷ ps)))) (sym none_due),
        )
  ]

  run_callouts_cons :
      (p : Callo) (ps : Table)
      → (ps' : Table) × (run_callouts calls (length (p ∷ ps) + 1) false (p ∷ ps)
          ≡ some (due_now (tick (agenda (p ∷ ps))), ps'))
        × (agenda ps'
            ≡ reschedule calls
                (due_now (tick (agenda (p ∷ ps))))
                (not_yet (tick (agenda (p ∷ ps)))))
  run_callouts_cons p ps =
      let table = count_down (p ∷ ps) in
      let (done, left, runs, view) =
        fire_lem (length (p ∷ ps) + 1) [] table tt
          (omega (arith, length-due_now 0 table, length-count_down (p ∷ ps))) in
      let nearer = count_down-tick (p ∷ ps) in
      (
        left,
        run_low calls (length (p ∷ ps) + 1) (length done) p ps (done ++ left)
              (due_now (agenda table)) runs
            ∙ ap₂ (λ l t. some (l, t)) (ap due_now nearer) (drop-append done left),
        view ∙ ap (λ es. reschedule calls (due_now es) (not_yet es)) nearer,
      )

  -- Where the functions that are called back ask only for later ticks, `clock` at low priority runs exactly
  -- the callouts that this tick makes due, in the order of the table, and ends. It leaves the others one
  -- tick nearer, with what the called functions asked for.
  pub run_callouts_low :
      (ps : Table)
      → (ps' : Table) × (run_callouts calls (length ps + 1) false ps
          ≡ some (due_now (tick (agenda ps)), ps'))
        × (agenda ps' ≡ reschedule calls (due_now (tick (agenda ps))) (not_yet (tick (agenda ps))))
  unfolding run_callouts tick agenda_from due_now not_yet reschedule
  run_callouts_low [] = ([], refl, refl)
  run_callouts_low (p ∷ ps) = run_callouts_cons p ps
