-- ===== src/Unix/Callout/Agenda.antt =====
-- The absolute view of the callout table: when each entry is due, counted from now.
use linuxab.Prelude.{
  ℕ, ◌+◌, ◌-◌, ◌<◌, ◌≡◌, refl, sym, ap, ◌∙◌, inl, inr, true, false, List, [], ◌∷◌, arith, leb,
  if◌then◌else◌, Bool-cases, leb→le,
}
use mathlib.Core.Path.{ap₂}
use linuxab.Unix.Callout.{Table, timeout, count_down}

-- An entry with the ticks that are left.
pub record Due : Type 0 where
  pub left : ℕ
  pub func : ℕ
  pub arg : ℕ

abbrev pub Agenda : Type 0
Agenda = List Due

unfoldable pub agenda_from : ℕ → Table → Agenda
agenda_from base [] = []
agenda_from base (p ∷ ps) =
    record { left = base + p.time; func = p.func; arg = p.arg } ∷ agenda_from (base + p.time) ps

abbrev pub agenda : Table → Agenda
agenda ps = agenda_from 0 ps

-- Behind everything that is due at the same time or before.
unfoldable pub schedule : Due → Agenda → Agenda
schedule d [] = d ∷ []
schedule d (e ∷ es) = if leb e.left d.left then e ∷ schedule d es else d ∷ e ∷ es

unfoldable pub tick : Agenda → Agenda
tick [] = []
tick (e ∷ es) = record e { left = e.left - 1 } ∷ tick es

timeout_from :
    (base fun arg t : ℕ) (ps : Table)
    → agenda_from base (timeout fun arg t ps)
      ≡ schedule (record { left = base + t; func = fun; arg = arg }) (agenda_from base ps)
unfolding agenda_from timeout schedule
timeout_from base fun arg t [] = refl
timeout_from base fun arg t (p ∷ ps) = elim (Bool-cases (leb p.time t)) [
  | inl le ↦
      let same : base + p.time + (t - p.time) ≡ base + t = omega (arith, leb→le p.time t le) in
      let le' : leb (base + p.time) (base + t) ≡ true = ground arith in
      rw (le, le')
        (ap (λ r. head ∷ r)
          (timeout_from (base + p.time) fun arg (t - p.time) ps
            ∙ ap (λ k. schedule (record { left = k; func = fun; arg = arg }) rest) same))
  | inr gt ↦
      let same : base + t + (p.time - t) ≡ base + p.time = ground arith in
      let gt' : leb (base + p.time) (base + t) ≡ false = ground arith in
      rw (gt, gt')
        (ap (λ k. new ∷ record { left = k; func = p.func; arg = p.arg } ∷ agenda_from k ps) same)
]
  where
    head : Due
    head = record { left = base + p.time; func = p.func; arg = p.arg }

    new : Due
    new = record { left = base + t; func = fun; arg = arg }

    rest : Agenda
    rest = agenda_from (base + p.time) ps

-- `timeout(fun, arg, tim)` keeps every other callout due when it was, and makes the new one due in
-- `tim` ticks, behind those that are due no later.
pub timeout-schedule :
    (fun arg t : ℕ) (ps : Table)
    → agenda (timeout fun arg t ps)
      ≡ schedule (record { left = t; func = fun; arg = arg }) (agenda ps)
timeout-schedule fun arg t ps =
    let e : 0 + t ≡ t = omega arith in
    timeout_from 0 fun arg t ps
    ∙ ap (λ k. schedule (record { left = k; func = fun; arg = arg }) (agenda ps)) e

tick_from :
    (base : ℕ) (ps : Table) → 0 < base → tick (agenda_from base ps) ≡ agenda_from (base - 1) ps
unfolding agenda_from tick
tick_from base [] h = refl
tick_from base (p ∷ ps) h =
    let e : base + p.time - 1 ≡ base - 1 + p.time = omega arith in
    ap
      (λ k. record { left = k; func = p.func; arg = p.arg } ∷ tick (agenda_from (base + p.time) ps))
      e
    ∙ ap (λ r. head ∷ r) (tick_from (base + p.time) ps (omega arith) ∙ ap (λ k. agenda_from k ps) e)
  where
    head : Due
    head = record { left = base - 1 + p.time; func = p.func; arg = p.arg }

-- One count of the first time that is not 0 brings every callout one tick nearer; those that are due
-- already stay due.
pub count_down-tick : (ps : Table) → agenda (count_down ps) ≡ tick (agenda ps)
unfolding agenda_from tick count_down
count_down-tick [] = refl
count_down-tick (p ∷ ps) = elim (Bool-cases (leb p.time 0)) [
  | inl due ↦
      let now : 0 + p.time ≡ 0 = ground arith in
      let now' : 0 + p.time - 1 ≡ 0 = ground arith in
      rw due (
        ap₂ ◌∷◌ (ap (λ k. record { left = k; func = p.func; arg = p.arg }) (now ∙ sym now')) (
          ap (λ k. agenda_from k (count_down ps)) now
          ∙ count_down-tick ps
          ∙ ap (λ k. tick (agenda_from k ps)) (sym now)))
  | inr not_yet ↦
      let e : 0 + (p.time - 1) ≡ 0 + p.time - 1 = omega arith in
      rw not_yet (
        ap₂ ◌∷◌ (ap (λ k. record { left = k; func = p.func; arg = p.arg }) e)
          (ap (λ k. agenda_from k ps) e ∙ sym (tick_from (0 + p.time) ps (ground arith))))
]
