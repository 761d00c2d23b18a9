-- ===== src/Bond/Group/Outcome.antt =====
-- servers/bond_3ad.c: what ad_port_selection_logic does with a port, and what it keeps.
use linuxab.Prelude.{
  ℕ, ◌+◌, ◌%◌, ◌≡◌, ◌⊎◌, refl, sym, subst, ap, ◌∙◌, inl, inr, true, false, Option, none, some, List,
  ◌∷◌, ◌==◌, Bool-cases, arith,
}
use linuxab.Bond.Port.{Port, set_selected}
use linuxab.Bond.Mux.{SlaveFlags}
use linuxab.Bond.Speed.{Lane}
use linuxab.Bond.Select.{AdSelect}
use linuxab.Bond.Group.{
  Lag, Bond, is_empty, leave, joined_lag, founded_lag, enlist, choose_lag, settle,
  ad_port_selection_logic,
}
use linuxab.Bond.Group.Lists.{IsGrouped, leave-IsGrouped, enlist-IsGrouped, is_empty-nil}
use linuxab.Bond.Group.Choose.{FirstOf, NoneOf, shares, is_free, Ways, choose_lag-Ways}
use linuxab.Bond.Group.Keeps.{settle-Settled, FirstOf-holds}
use linuxab.Bond.Group.Fits.{
  Fits, Fitting, suits-Fits, leave-Fitting, enlist-Fitting, Settled-Fitting, Settled-IsGrouped,
  Fits-same,
}

-- What becomes of the port `a` in the aggregators `lags`: it is selected, and first on the list of the
-- aggregator that the loop has found and that it fits, or it is left alone.
abbrev pub Placed : {S : Type 0} → List ℕ → ℕ → Bond S → Bond S → Type 0
Placed slaves a s t =
    let p = s.world.ports a in
    ((g : ℕ) × (FirstOf (shares s.lags p) g slaves
        ⊎ (NoneOf (shares s.lags p) slaves × FirstOf (is_free s.lags) g slaves))
      × (t.aggregator a ≡ some g)
      × ((t.lags g).lag_ports ≡ a ∷ (s.lags g).lag_ports)
      × ((t.world.ports a).sm_vars.selected ≡ true)
      × Fits (t.lags g) (t.world.ports a))
    ⊎ (NoneOf (shares s.lags p) slaves × NoneOf (is_free s.lags) slaves × (t ≡ s))

-- The same before the logic ends, with the invariants.
abbrev Enlisted : {S : Type 0} → List ℕ → ℕ → Bond S → Option ℕ × Bond S → Type 0
Enlisted slaves a s r =
    let p = s.world.ports a in
    ((g : ℕ) × (FirstOf (shares s.lags p) g slaves
        ⊎ (NoneOf (shares s.lags p) slaves × FirstOf (is_free s.lags) g slaves))
      × (r.0 ≡ some g)
      × (((r.1).lags g).lag_ports ≡ a ∷ (s.lags g).lag_ports)
      × (((r.1).world.ports a).sm_vars.selected ≡ true)
      × ((r.1).aggregator a ≡ some g)
      × IsGrouped (r.1)
      × Fitting (r.1)
      × Fits ((r.1).lags g) ((r.1).world.ports a))
    ⊎ (NoneOf (shares s.lags p) slaves × NoneOf (is_free s.lags) slaves × (r ≡ (none, s)))

enlist_at :
    {S : Type 0} (a g : ℕ) (l : Lag) (s : Bond S)
    → ((enlist a g l s).lags g ≡ l)
      × ((enlist a g l s).world.ports a ≡ set_selected true (s.world.ports a))
      × ((enlist a g l s).aggregator a ≡ some g)
unfolding enlist
enlist_at a g l s =
    let t : (g == g) ≡ true = ground arith in
    let u : (a == a) ≡ true = ground arith in (rw t refl, rw u refl, rw u refl)

enlist-Enlisted :
    {S : Type 0} (slaves : List ℕ) (a g : ℕ) (l : Lag) (s : Bond S) (r : Option ℕ × Bond S)
    → IsGrouped s
    → Fitting s
    → s.aggregator a ≡ none
    → FirstOf (shares s.lags (s.world.ports a)) g slaves
      ⊎ (NoneOf (shares s.lags (s.world.ports a)) slaves × FirstOf (is_free s.lags) g slaves)
    → l.lag_ports ≡ a ∷ (s.lags g).lag_ports
    → l.num_of_ports ≡ ((s.lags g).num_of_ports + 1) % 65536
    → Fits l (s.world.ports a)
    → ((p : Port) → Fits (s.lags g) p → Fits l p) ⊎ (is_empty (s.lags g).lag_ports ≡ true)
    → r ≡ (some g, enlist a g l s)
    → Enlisted slaves a s r
enlist-Enlisted slaves a g l s r v f alone first ports count fit keep e =
    let (lag, port, at) = enlist_at a g l s in
    subst (Enlisted slaves a s) (sym e) (
      inl (
        g,
        first,
        refl,
        ap (λ x. x.lag_ports) lag ∙ ports,
        ap (λ x. x.sm_vars.selected) port,
        at,
        enlist-IsGrouped a g l s v alone ports count,
        enlist-Fitting a g l s v f fit keep,
        rw (lag, port) fit,
      ))

choose_lag-Enlisted :
    {S : Type 0} (slaves : List ℕ) (admin_key : ℕ → ℕ) (a : ℕ) (s : Bond S)
    → IsGrouped s
    → Fitting s
    → s.aggregator a ≡ none
    → (r : Option ℕ × Bond S) → Ways slaves (admin_key a) a s r
    → Enlisted slaves a s r
unfolding joined_lag founded_lag
choose_lag-Enlisted slaves admin_key a s v f alone r (inl (g, first, e)) =
    let (t, m) = FirstOf-holds (shares s.lags (s.world.ports a)) g slaves first in
    enlist-Enlisted slaves a g (joined_lag a (s.lags g)) s r v f alone (inl first) refl refl
      (suits-Fits (s.lags g) (s.world.ports a) (ground arith)) (inl (λ p k. k)) e
choose_lag-Enlisted slaves admin_key a s v f alone r (inr (inl (g, unsuited, first, e))) =
    let (t, m) = FirstOf-holds (is_free s.lags) g slaves first in
    enlist-Enlisted slaves a g (founded_lag (admin_key a) (s.world.ports a) a (s.lags g)) s r v f
      alone (inr (unsuited, first)) (ap (λ l. a ∷ l) (sym (is_empty-nil (s.lags g).lag_ports t)))
      refl (refl, refl, refl, refl) (inr t) e
choose_lag-Enlisted slaves admin_key a s v f alone r (inr (inr h)) = inr h

-- The logic on a port that is not selected, once the choice is made.
abbrev pub ended :
    {S : Type 0} → SlaveFlags S → AdSelect → List ℕ → (ℕ → Lane) → ℕ → Option ℕ × Bond S → Bond S
ended flags mode slaves links a r = elim (r.0) [
  | none ↦ r.1
  | some g ↦ settle flags mode slaves links g a (r.1)
]

module _ {S : Type 0} (flags : SlaveFlags S) (mode : AdSelect) (slaves : List ℕ) (links : ℕ → Lane)
    (admin_key : ℕ → ℕ) (a : ℕ) (s : Bond S) where
  abbrev pub after : Bond S
  after = ad_port_selection_logic flags mode slaves links admin_key a s

  pub untouched : (s.world.ports a).sm_vars.selected ≡ true → after ≡ s
  unfolding ad_port_selection_logic
  untouched t = rw t refl

  pub worked :
      (s.world.ports a).sm_vars.selected ≡ false
      → after ≡ ended flags mode slaves links a (choose_lag slaves admin_key a s)
  unfolding ad_port_selection_logic
  worked f = rw f refl

ended-Placed :
    {S : Type 0} (flags : SlaveFlags S) (mode : AdSelect) (slaves : List ℕ) (links : ℕ → Lane)
    (a : ℕ) (s : Bond S) (r : Option ℕ × Bond S)
    → IsGrouped s
    → Fitting s
    → Enlisted slaves a s r
    → Placed slaves a s (ended flags mode slaves links a r)
      × IsGrouped (ended flags mode slaves links a r)
      × Fitting (ended flags mode slaves links a r)
ended-Placed flags mode slaves links a s r v f
      (inl (g, first, found, ports, sel, at, v', f', fit)) =
    let t = settle flags mode slaves links g a (r.1) in
    let h = settle-Settled flags mode slaves links g a (r.1) in
    let e : ended flags mode slaves links a r ≡ t =
      ap (λ o. elim o [ none ↦ r.1 | some g ↦ settle flags mode slaves links g a (r.1) ]) found in
    subst (λ z. Placed slaves a s z × IsGrouped z × Fitting z) (sym e)
      (
        inl (
          g,
          first,
          h.1 a ∙ at,
          (h.0 g).0 ∙ ports,
          (h.2 a).0 ∙ sel,
          Fits-same (t.lags g) ((r.1).lags g) (t.world.ports a) ((r.1).world.ports a) (h.0 g)
              (h.2 a) fit,
        ),
        Settled-IsGrouped (r.1) t h v',
        Settled-Fitting (r.1) t h f',
      )
ended-Placed {S} flags mode slaves links a s r v f (inr (unsuited, taken, e)) =
    let same : ended flags mode slaves links a r ≡ s = ap (ended flags mode slaves links a) e in
    rw same (inr (unsuited, taken, refl), v, f)

module _ {S : Type 0} (flags : SlaveFlags S) (mode : AdSelect) (slaves : List ℕ) (links : ℕ → Lane)
    (admin_key : ℕ → ℕ) (a : ℕ) (s : Bond S) (v : IsGrouped s) (f : Fitting s) where
  whole :
      Placed slaves a
        (leave a s)
        (ended flags mode slaves links a (choose_lag slaves admin_key a s))
      × IsGrouped (ended flags mode slaves links a (choose_lag slaves admin_key a s))
      × Fitting (ended flags mode slaves links a (choose_lag slaves admin_key a s))
  whole =
      let (v1, alone, same) = leave-IsGrouped a s v in
      let f1 = leave-Fitting a s v f in
      let r = choose_lag slaves admin_key a s in
      ended-Placed flags mode slaves links a (leave a s) r v1 f1 (
        choose_lag-Enlisted slaves admin_key a (leave a s) v1 f1 alone r
          (choose_lag-Ways slaves admin_key a s))

-- When each port is on the list of its aggregator and on no other, and each selected port fits its
-- aggregator, this stays so, whichever port the logic is run for and whatever it finds.
pub ad_port_selection_logic-IsGrouped :
    {S : Type 0} (flags : SlaveFlags S) (mode : AdSelect) (slaves : List ℕ) (links : ℕ → Lane)
    (admin_key : ℕ → ℕ) (a : ℕ) (s : Bond S)
    → IsGrouped s
    → Fitting s
    → let t = ad_port_selection_logic flags mode slaves links admin_key a s in
      IsGrouped t × Fitting t
ad_port_selection_logic-IsGrouped {S} flags mode slaves links admin_key a s v f =
    let keep : Bond S → Type 0 = λ z. IsGrouped z × Fitting z in
    elim (Bool-cases (s.world.ports a).sm_vars.selected) [
      | inl t ↦ subst keep (sym (untouched flags mode slaves links admin_key a s t)) (v, f)
      | inr u ↦
          let w = whole flags mode slaves links admin_key a s v f in
          subst keep (sym (worked flags mode slaves links admin_key a s u)) (w.1, w.2)
    ]

-- When each port is on the list of its aggregator and on no other, and each selected port fits its
-- aggregator, a port that is not selected leaves its aggregator. If then an aggregator has ports, is not
-- individual, has a partner and has the port's keys and partner, the port comes first on the list of the
-- first such; if there is none, but aggregators without ports, it founds the first of them. Either way it
-- is selected and fits its aggregator. If there is neither, it is left alone, without an aggregator.
pub ad_port_selection_logic-Placed :
    {S : Type 0} (flags : SlaveFlags S) (mode : AdSelect) (slaves : List ℕ) (links : ℕ → Lane)
    (admin_key : ℕ → ℕ) (a : ℕ) (s : Bond S)
    → IsGrouped s
    → Fitting s
    → (s.world.ports a).sm_vars.selected ≡ false
    → ((leave a s).aggregator a ≡ none)
      × Placed slaves a (leave a s) (ad_port_selection_logic flags mode slaves links admin_key a s)
ad_port_selection_logic-Placed flags mode slaves links admin_key a s v f u =
    let w = whole flags mode slaves links admin_key a s v f in
    (
      (leave-IsGrouped a s v).1,
      subst (Placed slaves a (leave a s)) (sym (worked flags mode slaves links admin_key a s u))
          (w.0),
    )
