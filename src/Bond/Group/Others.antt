-- ===== src/Bond/Group/Others.antt =====
-- servers/bond_3ad.c: what ad_port_selection_logic for one port leaves of the other ports.
use linuxab.Prelude.{
  ℕ, ◌≡◌, ◌≢◌, refl, sym, subst, ap, ◌∙◌, inl, inr, false, Option, none, some, List, ◌==◌,
  Bool-cases, Option-cases, arith,
}
use linuxab.Bond.Mux.{SlaveFlags}
use linuxab.Bond.Speed.{Lane}
use linuxab.Bond.Select.{AdSelect}
use linuxab.Bond.Group.{
  Lag, Bond, leave, enlist, joined_lag, founded_lag, settle, ad_port_selection_logic,
}
use linuxab.Bond.Group.Lists.{IsGrouped, leave-none, leave-some}
use linuxab.Bond.Group.Choose.{choose_lag-Ways}
use linuxab.Bond.Group.Keeps.{Alike, Alike-trans, settle-Settled}
use linuxab.Bond.Group.Outcome.{ended, untouched, worked}

-- What another port has: its selection, its key, its partner and its aggregator.
abbrev pub Kept : {S : Type 0} → ℕ → Bond S → Bond S → Type 0
Kept b s t = Alike (t.world.ports b) (s.world.ports b) × (t.aggregator b ≡ s.aggregator b)

Kept-trans : {S : Type 0} (b : ℕ) (s t u : Bond S) → Kept b s t → Kept b t u → Kept b s u
Kept-trans b s t u h k =
    (Alike-trans (u.world.ports b) (t.world.ports b) (s.world.ports b) k.0 h.0, k.1 ∙ h.1)

leave-Kept : {S : Type 0} (a b : ℕ) (s : Bond S) → IsGrouped s → a ≢ b → Kept b s (leave a s)
leave-Kept a b s v h = elim (Option-cases (s.aggregator a)) [
  | inl e ↦ subst (Kept b s) (sym (leave-none a s e)) ((refl, refl, refl), refl)
  | inr (g, e) ↦
      let f : (a == b) ≡ false = ground arith in
      subst (Kept b s) (sym (leave-some a g s v e)) ((refl, refl, refl), rw f refl)
]

enlist-Kept : {S : Type 0} (a b g : ℕ) (l : Lag) (s : Bond S) → a ≢ b → Kept b s (enlist a g l s)
unfolding enlist
enlist-Kept a b g l s h =
    let f : (a == b) ≡ false = ground arith in (rw f (refl, refl, refl), rw f refl)

-- The end of the logic, for a choice that keeps the port.
ended-Kept :
    {S : Type 0} (flags : SlaveFlags S) (mode : AdSelect) (slaves : List ℕ) (links : ℕ → Lane)
    (a b : ℕ) (s : Bond S) (o : Option ℕ) (t : Bond S)
    → Kept b s t
    → Kept b s (ended flags mode slaves links a (o, t))
ended-Kept flags mode slaves links a b s none t h = h
ended-Kept flags mode slaves links a b s (some g) t h =
    let k = settle-Settled flags mode slaves links g a t in
    Kept-trans b s t (settle flags mode slaves links g a t) h (k.2 b, k.1 b)

pub ad_port_selection_logic-Kept :
    {S : Type 0} (flags : SlaveFlags S) (mode : AdSelect) (slaves : List ℕ) (links : ℕ → Lane)
    (admin_key : ℕ → ℕ) (a b : ℕ) (s : Bond S)
    → IsGrouped s
    → a ≢ b
    → Kept b s (ad_port_selection_logic flags mode slaves links admin_key a s)
ad_port_selection_logic-Kept flags mode slaves links admin_key a b s v h =
    elim (Bool-cases (s.world.ports a).sm_vars.selected) [
      | inl t ↦
          subst (Kept b s) (sym (untouched flags mode slaves links admin_key a s t))
            ((refl, refl, refl), refl)
      | inr f ↦
          let s1 = leave a s in
          let k = leave-Kept a b s v h in
          let p = s1.world.ports a in
          let e = worked flags mode slaves links admin_key a s f in
          elim (choose_lag-Ways slaves admin_key a s) [
            | inl (g, first, r) ↦
                subst (Kept b s) (sym (e ∙ ap (ended flags mode slaves links a) r)) (
                  ended-Kept flags mode slaves links a b s (some g)
                    (enlist a g (joined_lag a (s1.lags g)) s1)
                    (Kept-trans b s s1 (enlist a g (joined_lag a (s1.lags g)) s1) k
                      (enlist-Kept a b g (joined_lag a (s1.lags g)) s1 h)))
            | inr (inl (g, unsuited, first, r)) ↦
                subst (Kept b s) (sym (e ∙ ap (ended flags mode slaves links a) r)) (
                  ended-Kept flags mode slaves links a b s (some g)
                    (enlist a g (founded_lag (admin_key a) p a (s1.lags g)) s1)
                    (Kept-trans b s s1 (enlist a g (founded_lag (admin_key a) p a (s1.lags g)) s1) k
                      (enlist-Kept a b g (founded_lag (admin_key a) p a (s1.lags g)) s1 h)))
            | inr (inr (unsuited, taken, r)) ↦
                subst (Kept b s) (sym (e ∙ ap (ended flags mode slaves links a) r))
                  (ended-Kept flags mode slaves links a b s none s1 k)
          ]
    ]
