-- ===== src/Unix/Callout/Fire.antt =====
-- Which callouts `clock` runs, and what it leaves in the table.
use linuxab.Prelude.{
  ℕ, ◌+◌, ◌-◌, ◌≤◌, ◌<◌, ◌≡◌, refl, ap, ◌∙◌, true, List, [], ◌∷◌, ◌++◌, arith, leb, ◌==◌,
  if◌then◌else◌, length,
}
use linuxab.Unix.Callout.{Callo, Table, Request, timeout, request_all}
use linuxab.Unix.Callout.Agenda.{Due, Agenda, agenda_from, agenda, schedule, timeout-schedule}

-- What is due, in order, and the rest.
unfoldable pub due_now : Agenda → List (ℕ × ℕ)
due_now [] = []
due_now (e ∷ es) = if e.left == 0 then (e.func, e.arg) ∷ due_now es else due_now es

unfoldable pub not_yet : Agenda → Agenda
not_yet [] = []
not_yet (e ∷ es) = if e.left == 0 then not_yet es else e ∷ not_yet es

unfoldable pub schedule_all : List Request → Agenda → Agenda
schedule_all [] es = es
schedule_all (r ∷ rs) es =
    schedule_all rs (schedule (record { left = r.tim; func = r.func; arg = r.arg }) es)

abbrev pub AllLater : List Request → Type 0
AllLater [] = Unit {0}
AllLater (r ∷ rs) = (0 < r.tim) × AllLater rs

abbrev pub AllZero : Table → Type 0
AllZero [] = Unit {0}
AllZero (p ∷ ps) = (p.time ≡ 0) × AllZero ps

pub AllZero-append : (ps : Table) (p : Callo) → AllZero ps → p.time ≡ 0 → AllZero (ps ++ (p ∷ []))
AllZero-append [] p h e = (e, tt)
AllZero-append (q ∷ ps) p h e = (h.0, AllZero-append ps p h.1 e)

-- Entries with time 0 in front are passed.
timeout-append :
    (fun arg t : ℕ) (done ps : Table)
    → AllZero done
    → timeout fun arg t (done ++ ps) ≡ done ++ timeout fun arg t ps
unfolding timeout
timeout-append fun arg t [] ps h = refl
timeout-append fun arg t (p ∷ done) ps h =
    let pass : leb p.time t ≡ true = ground arith in
    let same : t - p.time ≡ t = omega arith in
    rw pass (
      ap (λ r. p ∷ r)
        (ap (λ k. timeout fun arg k (done ++ ps)) same ∙ timeout-append fun arg t done ps h.1))

pub request_all-append :
    (rs : List Request) (done ps : Table)
    → AllZero done
    → request_all (done ++ ps) rs ≡ done ++ request_all ps rs
unfolding request_all
request_all-append [] done ps h = refl
request_all-append (r ∷ rs) done ps h =
    ap (λ q. request_all q rs) (timeout-append r.func r.arg r.tim done ps h)
    ∙ request_all-append rs done (timeout r.func r.arg r.tim ps) h

pub request_all-schedule_all :
    (rs : List Request) (ps : Table) → agenda (request_all ps rs) ≡ schedule_all rs (agenda ps)
unfolding request_all schedule_all
request_all-schedule_all [] ps = refl
request_all-schedule_all (r ∷ rs) ps =
    request_all-schedule_all rs (timeout r.func r.arg r.tim ps)
    ∙ ap (schedule_all rs) (timeout-schedule r.func r.arg r.tim ps)

due_now-schedule : (d : Due) (es : Agenda) → 0 < d.left → due_now (schedule d es) ≡ due_now es
unfolding due_now schedule
due_now-schedule d [] h = ground arith
due_now-schedule d (e ∷ es) h = ground (arith, due_now-schedule d es h)

not_yet-schedule :
    (d : Due) (es : Agenda) → 0 < d.left → not_yet (schedule d es) ≡ schedule d (not_yet es)
unfolding not_yet schedule
not_yet-schedule d [] h = ground arith
not_yet-schedule d (e ∷ es) h = ground (arith, not_yet-schedule d es h)

pub due_now-schedule_all :
    (rs : List Request) (es : Agenda) → AllLater rs → due_now (schedule_all rs es) ≡ due_now es
unfolding schedule_all
due_now-schedule_all [] es h = refl
due_now-schedule_all (r ∷ rs) es h =
    due_now-schedule_all rs _ h.1
    ∙ due_now-schedule (record { left = r.tim; func = r.func; arg = r.arg }) es h.0

pub not_yet-schedule_all :
    (rs : List Request) (es : Agenda)
    → AllLater rs
    → not_yet (schedule_all rs es) ≡ schedule_all rs (not_yet es)
unfolding schedule_all
not_yet-schedule_all [] es h = refl
not_yet-schedule_all (r ∷ rs) es h =
    not_yet-schedule_all rs _ h.1
    ∙ ap (schedule_all rs)
        (not_yet-schedule (record { left = r.tim; func = r.func; arg = r.arg }) es h.0)

-- Behind an entry that is not due nothing is.
pub due_now_from : (base : ℕ) (ps : Table) → 0 < base → due_now (agenda_from base ps) ≡ []
unfolding due_now agenda_from
due_now_from base [] h = refl
due_now_from base (p ∷ ps) h = ground (arith, due_now_from (base + p.time) ps)

pub not_yet_from :
    (base : ℕ) (ps : Table) → 0 < base → not_yet (agenda_from base ps) ≡ agenda_from base ps
unfolding not_yet agenda_from
not_yet_from base [] h = refl
not_yet_from base (p ∷ ps) h = ground (arith, not_yet_from (base + p.time) ps)

pub length-due_now : (base : ℕ) (ps : Table) → length (due_now (agenda_from base ps)) ≤ length ps
unfolding due_now agenda_from
length-due_now base [] = omega arith
length-due_now base (p ∷ ps) = ground (arith, length-due_now (base + p.time) ps)
