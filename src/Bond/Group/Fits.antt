-- ===== src/Bond/Group/Fits.antt =====
-- servers/bond_3ad.c: the aggregator that a port ends up with has the keys and the partner of the port.
use linuxab.Prelude.{
  ℕ, ◌≡◌, ◌⊎◌, sym, subst, ap, ◌∙◌, inl, inr, true, false, none, some, List, [], ◌∷◌, ◌==◌,
  if◌then◌else◌, Bool-cases, Option-cases, arith,
}
use linuxab.Prelude.Distinct.{without}
use linuxab.Bond.Port.{Port, set_selected}
use linuxab.Bond.Mux.Ready.{member}
use linuxab.Bond.Group.{
  Lag, Bond, is_empty, leave, left_lag, suits, enlist, set_lag, set_aggregator,
}
use linuxab.Bond.Group.Lists.{IsGrouped, leave-none, leave-some, is_empty-nil, member-without}
use linuxab.Bond.Group.Keeps.{Alike, SameLag, Settled, IsGrouped-same}

-- The aggregator has the key of the port, and the port's partner and the partner's key are its.
abbrev pub Fits : Lag → Port → Type 0
Fits l p =
    (l.actor_oper_aggregator_key ≡ p.actor_oper_port_key)
    × (l.partner_system ≡ p.partner_oper.system)
    × (l.partner_system_priority ≡ p.partner_oper.system_priority)
    × (l.partner_oper_aggregator_key ≡ p.partner_oper.key)

-- Each selected port fits its aggregator.
abbrev pub Fitting : {S : Type 0} → Bond S → Type 0
Fitting s =
    (b h : ℕ)
    → s.aggregator b ≡ some h
    → (s.world.ports b).sm_vars.selected ≡ true
    → Fits (s.lags h) (s.world.ports b)

pub suits-Fits : (l : Lag) (p : Port) → suits l p ≡ true → Fits l p
unfolding suits
suits-Fits l p h = (ground arith, ground arith, ground arith, ground arith)

pub Fits-same : (l k : Lag) (p q : Port) → SameLag l k → Alike p q → Fits k q → Fits l p
Fits-same l k p q h a f = (
  h.2 ∙ f.0 ∙ sym a.1,
  h.3 ∙ f.1 ∙ ap (λ x. x.system) (sym a.2),
  h.4 ∙ f.2 ∙ ap (λ x. x.system_priority) (sym a.2),
  h.5 ∙ f.3 ∙ ap (λ x. x.key) (sym a.2),
)

pub Settled-Fitting : {S : Type 0} (s t : Bond S) → Settled s t → Fitting s → Fitting t
Settled-Fitting s t h f b g e sel =
    Fits-same (t.lags g) (s.lags g) (t.world.ports b) (s.world.ports b) (h.0 g) (h.2 b)
      (f b g (sym (h.1 b) ∙ e) (sym (h.2 b).0 ∙ sel))

pub Settled-IsGrouped : {S : Type 0} (s t : Bond S) → Settled s t → IsGrouped s → IsGrouped t
Settled-IsGrouped s t h v = IsGrouped-same s t (λ g. (h.0 g).0) (λ g. (h.0 g).1) h.1 v

-- An aggregator that is left by one of several ports keeps its keys.
left_lag-Fits :
    (a b : ℕ) (l : Lag) (p : Port)
    → member b (without a l.lag_ports) ≡ true
    → Fits l p
    → Fits (left_lag a l) p
unfolding left_lag member
left_lag-Fits a b l p m f =
    let stay : is_empty (without a l.lag_ports) ≡ false =
      elim (Bool-cases (is_empty (without a l.lag_ports))) [
        | inl t ↦
            let bad : false ≡ true =
              ap (member b) (sym (is_empty-nil (without a l.lag_ports) t)) ∙ m in
            absurd (cc)
        | inr g ↦ g
      ] in
    rw stay f

left-Fitting :
    {S : Type 0} (a g : ℕ) (s : Bond S)
    → IsGrouped s
    → Fitting s
    → Fitting (set_lag g (left_lag a (s.lags g)) (set_aggregator a none 0 s))
left-Fitting a g s v f b h e sel = elim (Bool-cases (a == b)) [
  | inl t ↦
      let bad : none ≡ some h = ap (λ c. if c then none else s.aggregator b) (sym t) ∙ e in
      absurd (cc)
  | inr u ↦
      let at : s.aggregator b ≡ some h = ap (λ c. if c then none else s.aggregator b) (sym u) ∙ e in
      elim (Bool-cases (g == h)) [
        | inl t ↦
            let same : g ≡ h = ground arith in
            let here : s.aggregator b ≡ some g = at ∙ ap some (sym same) in
            rw t (
              left_lag-Fits a b (s.lags g) (s.world.ports b)
                (member-without a b (s.lags g).lag_ports (v.distinct g)
                  ∙ ground (arith, v.on_list b g here))
                (f b g here sel))
        | inr w ↦ rw w (f b h at sel)
      ]
]

pub leave-Fitting :
    {S : Type 0} (a : ℕ) (s : Bond S) → IsGrouped s → Fitting s → Fitting (leave a s)
leave-Fitting a s v f = elim (Option-cases (s.aggregator a)) [
  | inl e ↦ subst Fitting (sym (leave-none a s e)) f
  | inr (g, e) ↦ subst Fitting (sym (leave-some a g s v e)) (left-Fitting a g s v f)
]

not_on_nil : (b : ℕ) (xs : List ℕ) → is_empty xs ≡ true → ¬ (member b xs ≡ true)
unfolding member
not_on_nil b [] h m = cc
not_on_nil b (x ∷ xs) h m = cc

-- A port is put on the list of an aggregator that fits it and keeps its keys, or had no port.
pub enlist-Fitting :
    {S : Type 0} (a g : ℕ) (l : Lag) (s : Bond S)
    → IsGrouped s
    → Fitting s
    → Fits l (s.world.ports a)
    → ((p : Port) → Fits (s.lags g) p → Fits l p) ⊎ (is_empty (s.lags g).lag_ports ≡ true)
    → Fitting (enlist a g l s)
unfolding enlist
enlist-Fitting a g l s v f fit keep b h e sel = elim (Bool-cases (a == b)) [
  | inl t ↦
      let same : some g ≡ some h = ap (λ c. if c then some g else s.aggregator b) (sym t) ∙ e in
      let gh : (g == h) ≡ true = ground arith in rw (t, gh) fit
  | inr u ↦
      let at : s.aggregator b ≡ some h =
        ap (λ c. if c then some g else s.aggregator b) (sym u) ∙ e in
      let chosen : (s.world.ports b).sm_vars.selected ≡ true =
        ap
          (λ c.
            (if c then set_selected true (s.world.ports a) else s.world.ports b).sm_vars.selected)
          (sym u)
        ∙ sel in
      elim (Bool-cases (g == h)) [
        | inl t ↦
            let gh : h ≡ g = ground arith in
            let here : s.aggregator b ≡ some g = at ∙ ap some gh in
            rw (u, t)
              (elim keep [
                | inl k ↦ k (s.world.ports b) (f b g here chosen)
                | inr nil ↦ absurd (not_on_nil b (s.lags g).lag_ports nil (v.on_list b g here))
              ])
        | inr w ↦ rw (u, w) (f b h at chosen)
      ]
]
