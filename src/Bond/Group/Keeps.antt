-- ===== src/Bond/Group/Keeps.antt =====
-- servers/bond_3ad.c: what ad_port_selection_logic keeps of the lists and of the keys of their aggregators.
use linuxab.Prelude.{
  ℕ, ◌%◌, ◌≡◌, refl, sym, subst, ap, ◌∙◌, inl, inr, Bool, true, false, List, [], ◌∷◌, ◌==◌,
  if◌then◌else◌, length, Bool-cases, arith,
}
use linuxab.Bond.Port.{Port}
use linuxab.Bond.Mux.{
  SlaveFlags, World, Aggregator, set_port, agg_ports_are_ready, share_ready, set_ready,
}
use linuxab.Bond.Mux.Ready.{member, set_agg_ports_ready_lem}
use linuxab.Bond.Speed.{Lane}
use linuxab.Bond.Select.{AdSelect}
use linuxab.Bond.Group.{Lag, Bond, select_active, settle}
use linuxab.Bond.Group.Lists.{IsGrouped}
use linuxab.Bond.Group.Choose.{FirstOf}

-- What the lists and their keys depend on in a port.
abbrev pub Alike : Port → Port → Type 0
Alike p q =
    (p.sm_vars.selected ≡ q.sm_vars.selected)
    × (p.actor_oper_port_key ≡ q.actor_oper_port_key)
    × (p.partner_oper ≡ q.partner_oper)

Alike-ready : (m v : Bool) (p : Port) → Alike (if m then set_ready v p else p) p
Alike-ready true v p = (refl, refl, refl)
Alike-ready false v p = (refl, refl, refl)

pub FirstOf-holds :
    (test : ℕ → Bool) (g : ℕ) (l : List ℕ)
    → FirstOf test g l
    → (test g ≡ true) × (member g l ≡ true)
unfolding member
FirstOf-holds test g [] h = absurd h
FirstOf-holds test g (i ∷ l) (inl (e, t)) = (ap test (sym e) ∙ t, ground arith)
FirstOf-holds test g (i ∷ l) (inr (f, h)) =
    let (t, m) = FirstOf-holds test g l h in (t, ground (arith, m))

either :
    {S : Type 0} (P : Bond S → Type 0) (b : Bool) (s t : Bond S)
    → P s
    → P t
    → P (if b then s else t)
either P true s t h k = h
either P false s t h k = k

-- Only the lists, the counts and the aggregators of the ports matter.
pub IsGrouped-same :
    {S : Type 0} (s t : Bond S)
    → ((g : ℕ) → (t.lags g).lag_ports ≡ (s.lags g).lag_ports)
    → ((g : ℕ) → (t.lags g).num_of_ports ≡ (s.lags g).num_of_ports)
    → ((a : ℕ) → t.aggregator a ≡ s.aggregator a)
    → IsGrouped s
    → IsGrouped t
IsGrouped-same s t ports count at v = record {
  on_list = λ a g e. ap (member a) (ports g) ∙ v.on_list a g (sym (at a) ∙ e);
  belongs = λ a g m. at a ∙ v.belongs a g (ap (member a) (sym (ports g)) ∙ m);
  distinct = λ g. rw (ports g) (v.distinct g);
  counted = λ g. count g ∙ v.counted g ∙ ap (λ l. length l % 65536) (sym (ports g));
}

-- What the end of the logic leaves of an aggregator: all but whether it is active.
abbrev pub SameLag : Lag → Lag → Type 0
SameLag l k =
    (l.lag_ports ≡ k.lag_ports)
    × (l.num_of_ports ≡ k.num_of_ports)
    × (l.actor_oper_aggregator_key ≡ k.actor_oper_aggregator_key)
    × (l.partner_system ≡ k.partner_system)
    × (l.partner_system_priority ≡ k.partner_system_priority)
    × (l.partner_oper_aggregator_key ≡ k.partner_oper_aggregator_key)

-- The end of the logic changes no list, no key and no aggregator of a port.
abbrev pub Settled : {S : Type 0} → Bond S → Bond S → Type 0
Settled s t =
    ((g : ℕ) → SameLag (t.lags g) (s.lags g))
    × ((a : ℕ) → t.aggregator a ≡ s.aggregator a)
    × ((a : ℕ) → Alike (t.world.ports a) (s.world.ports a))

pub shared-Alike :
    {S : Type 0} (l : Aggregator) (w : World S) (b : ℕ)
    → Alike ((share_ready l w).ports b) (w.ports b)
unfolding share_ready
shared-Alike l w b =
    let v = agg_ports_are_ready l.lag_ports w.ports in
    subst (λ p. Alike p (w.ports b)) (sym (set_agg_ports_ready_lem l.lag_ports v w.ports b))
      (Alike-ready (member b l.lag_ports) v (w.ports b))

pub Alike-trans : (p q r : Port) → Alike p q → Alike q r → Alike p r
Alike-trans p q r h k = (h.0 ∙ k.0, h.1 ∙ k.1, h.2 ∙ k.2)

unsynchronized : Port → Port
unsynchronized p = record p {
  actor_oper_port_state = record p.actor_oper_port_state { synchronization = false };
}

unsynchronized-Settled :
    {S : Type 0} (s t : Bond S) (a : ℕ)
    → Settled s t
    → Settled s (record t { world = set_port a (unsynchronized (t.world.ports a)) t.world })
unfolding unsynchronized
unsynchronized-Settled s t a h = (
  h.0,
  h.1,
  (λ b. elim (Bool-cases (a == b)) [
    | inl e ↦
        let same : a ≡ b = ground arith in
        rw e (subst (λ c. Alike (unsynchronized (t.world.ports a)) (s.world.ports c)) same (h.2 a))
    | inr f ↦ rw f (h.2 b)
  ]),
)

module _ {S : Type 0} (flags : SlaveFlags S) (mode : AdSelect) (slaves : List ℕ)
    (links : ℕ → Lane) where
  pub select_active-Settled : (s : Bond S) → Settled s (select_active flags mode slaves links s)
  unfolding select_active
  select_active-Settled s =
      ((λ g. (refl, refl, refl, refl, refl, refl)), (λ a. refl), (λ a. (refl, refl, refl)))

  pub settle-Settled : (g a : ℕ) (s : Bond S) → Settled s (settle flags mode slaves links g a s)
  unfolding settle unsynchronized
  settle-Settled g a s =
      let l : Aggregator = record {
        is_active = (s.lags g).is_active;
        partner_system = (s.lags g).partner_system;
        lag_ports = (s.lags g).lag_ports;
      } in
      let s0 : Bond S = record s { world = share_ready l s.world } in
      let s1 = select_active flags mode slaves links s0 in
      let (lags, at, ports) = select_active-Settled s0 in
      let h : Settled s s1 = (
        lags,
        at,
        (λ b.
            Alike-trans (s1.world.ports b) (s0.world.ports b) (s.world.ports b) (ports b)
              (shared-Alike l s.world b)),
      ) in
      either (Settled s) (s1.lags g).is_active s1
        (record s1 { world = set_port a (unsynchronized (s1.world.ports a)) s1.world }) h
        (unsynchronized-Settled s s1 a h)
