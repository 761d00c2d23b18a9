-- ===== src/Bond/Handler/Runs.antt =====
-- servers/bond_3ad.c: what the ticks of a bond and the LACPDUs that come in keep of the lists of ports.
use linuxab.Prelude.{
  ℕ, ◌≡◌, refl, sym, ap, ◌∙◌, inl, inr, Bool, true, false, ◌&&◌, not, none, some, List, [], ◌∷◌,
  ◌==◌, if◌then◌else◌, Bool-cases, ◌⊎◌, arith,
}
use linuxab.Bond.Mux.Ready.{member}
use linuxab.Bond.Port.{Port, Lacpdu}
use linuxab.Bond.Receive.{ad_rx_machine}
use linuxab.Bond.Timers.{ad_periodic_machine, ad_churn_machine, ad_tx_machine}
use linuxab.Bond.Mux.{World, ad_mux_machine}
use linuxab.Bond.Group.{Bond, select_active, ad_port_selection_logic}
use linuxab.Bond.Group.Lists.{IsGrouped}
use linuxab.Bond.Group.Keeps.{Alike, Alike-trans, Settled, select_active-Settled}
use linuxab.Bond.Group.Fits.{Fits, Fitting, Settled-Fitting, Settled-IsGrouped}
use linuxab.Bond.Group.Outcome.{ad_port_selection_logic-IsGrouped}
use linuxab.Bond.Handler.{
  Setup, params, own_agg, put_port, run_port, run_ports, begin_tick, clear_begin,
  bond_agg_timer_advance, bond_3ad_state_machine_handler, bond_3ad_rx_indication, receive_lacpdu,
  Frame, lacpdu, marker_information, marker_response, marker_unknown, unknown, Counters,
}
use linuxab.Bond.Handler.Follows.{Follows, ad_rx_machine-Follows}
use linuxab.Bond.Handler.Moves.{Moves}
use linuxab.Bond.Handler.Enters.{ad_mux_machine-Moves}
use linuxab.Bond.Handler.Timed.{Alike-periodic, Alike-churn, Alike-tx}

-- Each port is on the list of its aggregator and on no other, and each selected port fits its aggregator.
abbrev pub Good : {S : Type 0} → Bond S → Type 0
Good s = IsGrouped s × Fitting s

pub Settled-Good : {S : Type 0} (s t : Bond S) → Settled s t → Good s → Good t
Settled-Good s t h v = (Settled-IsGrouped s t h (v.0), Settled-Fitting s t h (v.1))

moved-Good :
    {S : Type 0} (s : Bond S) (w : World S)
    → Moves s.world w
    → Good s
    → Good (record s { world = w })
moved-Good s w h v =
    Settled-Good s (record s { world = w })
      ((λ g. (refl, refl, refl, refl, refl, refl)), (λ a. refl), h) v

Alike-Follows : (q p : Port) → Alike q p → Follows q p
Alike-Follows q p h e = (
  sym (h.0) ∙ e,
  h.1,
  ap (λ x. x.system) (h.2),
  ap (λ x. x.system_priority) (h.2),
  ap (λ x. x.key) (h.2),
)

Alike-twice : (r q p : Port) → Alike r q → Alike q p → Follows r p
Alike-twice r q p h k = Alike-Follows r p (Alike-trans r q p h k)

put-Fits :
    {S : Type 0} (c : Setup S) (a : ℕ) (q : Port) (s : Bond S) (b g : ℕ)
    → Follows q (s.world.ports a)
    → s.aggregator b ≡ some g
    → ((put_port c a q s).world.ports b).sm_vars.selected ≡ true
    → Fitting s
    → Fits (s.lags g) ((put_port c a q s).world.ports b)
put-Fits c a q s b g h e sel f = elim (Bool-cases (a == b)) [
  | inl t ↦
      let same : a ≡ b = ground arith in
      let chosen : q.sm_vars.selected ≡ true =
        ap (λ z. (if z then q else s.world.ports b).sm_vars.selected) (sym t) ∙ sel in
      let (was, key, system, priority, partner) = h chosen in
      let (k, y, r, n) = f a g (ap s.aggregator same ∙ e) was in
      rw t (k ∙ sym key, y ∙ sym system, r ∙ sym priority, n ∙ sym partner)
  | inr u ↦
      let chosen : (s.world.ports b).sm_vars.selected ≡ true =
        ap (λ z. (if z then q else s.world.ports b).sm_vars.selected) (sym u) ∙ sel in
      rw u (f b g e chosen)
]

put-Good :
    {S : Type 0} (c : Setup S) (a : ℕ) (q : Port) (s : Bond S)
    → Follows q (s.world.ports a)
    → Good s
    → Good (put_port c a q s)
put-Good c a q s h v = (
  record {
    on_list = v.0.on_list;
    belongs = v.0.belongs;
    distinct = v.0.distinct;
    counted = v.0.counted;
  },
  (λ b g e sel. put-Fits c a q s b g h e sel (v.1)),
)

module _ {S : Type 0} (c : Setup S) where
  -- The first two machines of a port.
  pub before-Good :
      (a : ℕ) (s : Bond S)
      → Good s
      → let s1 = put_port c a (ad_rx_machine c.ticks none (s.world.ports a)) s in
        Good (put_port c a (ad_periodic_machine c.ticks (s1.world.ports a)) s1)
  before-Good a s v =
      let s1 = put_port c a (ad_rx_machine c.ticks none (s.world.ports a)) s in
      put-Good c a (ad_periodic_machine c.ticks (s1.world.ports a)) s1
        (Alike-Follows (ad_periodic_machine c.ticks (s1.world.ports a)) (s1.world.ports a)
          (Alike-periodic c.ticks (s1.world.ports a)))
        (put-Good c a (ad_rx_machine c.ticks none (s.world.ports a)) s
          (ad_rx_machine-Follows c.ticks none (s.world.ports a)) v)

  pub run_port-Good :
      (timer : ℕ) (sent : Bool) (a : ℕ) (s : Bond S) → Good s → Good (run_port c timer sent a s).1
  unfolding run_port
  run_port-Good timer sent a s v =
      let s1 = put_port c a (ad_rx_machine c.ticks none (s.world.ports a)) s in
      let s2 = put_port c a (ad_periodic_machine c.ticks (s1.world.ports a)) s1 in
      let s3 = ad_port_selection_logic c.flags c.mode c.slaves c.links c.admin_key a s2 in
      let w4 = ad_mux_machine c.flags (params c timer) (own_agg c s3 a) c.ticks a s3.world in
      let s4 : Bond S = record s3 { world = w4 } in
      let p4 = s4.world.ports a in
      let p5 = (ad_tx_machine c.ticks sent p4).1 in
      let p6 = clear_begin (ad_churn_machine c.ticks p5) in
      let v2 : Good s2 = before-Good a s v in
      let v3 : Good s3 =
        ad_port_selection_logic-IsGrouped c.flags c.mode c.slaves c.links c.admin_key a s2 (v2.0)
          (v2.1) in
      let v4 : Good s4 =
        moved-Good s3 w4
          (ad_mux_machine-Moves c.flags (params c timer) (own_agg c s3 a) c.ticks a s3.world) v3 in
      put-Good c a p6 s4 (Alike-twice p6 p5 p4 (Alike-churn c.ticks p5) (Alike-tx c.ticks sent p4))
        v4

  run_ports-Good :
      (timer : ℕ) (bound sent : ℕ → Bool) (l : List ℕ) (s : Bond S)
      → Good s
      → Good (run_ports c timer bound sent l s).1
  unfolding run_ports
  run_ports-Good timer bound sent [] s v = v
  run_ports-Good timer bound sent (a ∷ l) s v =
      let s1 = (run_port c timer (sent a) a s).1 in
      let rest = run_ports-Good timer bound sent l s1 (run_port-Good timer (sent a) a s v) in
      elim (Bool-cases (bound a)) [ inl t ↦ rw t rest | inr f ↦ rw f v ]

  -- The choice of the active aggregator when the timer has just reached 0.
  abbrev pub reselected : Bool → Bond S → Bond S
  reselected due s = if due then select_active c.flags c.mode c.slaves c.links s else s

  pub reselected-Settled : (due : Bool) (s : Bond S) → Settled s (reselected due s)
  reselected-Settled true s = select_active-Settled c.flags c.mode c.slaves c.links s
  reselected-Settled false s =
      ((λ g. (refl, refl, refl, refl, refl, refl)), (λ a. refl), (λ a. (refl, refl, refl)))

  pub begin-Good : (s : Bond S) → Good s → Good (begin_tick s)
  unfolding begin_tick
  begin-Good s v =
      moved-Good s (record s.world { update_slave_arr = false }) (λ b. (refl, refl, refl)) v

  module _ (bound sent : ℕ → Bool) (timer : ℕ) (s : Bond S) where
    abbrev pub left : ℕ
    left = (bond_agg_timer_advance timer).0

    abbrev pub due : Bool
    due = (bond_agg_timer_advance timer).1

    -- The bond once the machines of the ports have run.
    abbrev pub ran : Bond S
    ran = (run_ports c left bound sent c.slaves (reselected due (begin_tick s))).1

    -- The handler does not come to the machines.
    abbrev pub Stopped : Type 0
    Stopped = (c.slaves ≡ []) ⊎ ((a : ℕ) × (member a c.slaves ≡ true) × (bound a ≡ false))

    -- The handler by the slaves it reads first.
    abbrev by_slaves : List ℕ → ℕ × List (ℕ × Lacpdu) × Bond S
    by_slaves l =
        let s0 = begin_tick s in
        let (timer', due) = bond_agg_timer_advance timer in
        elim l [
          | [] ↦ (timer, [], s0)
          | first ∷ others ↦
              if due && not (bound first)
              then (timer', [], s0)
              else let s1 = if due then select_active c.flags c.mode c.slaves c.links s0 else s0 in
                let r = run_ports c timer' bound sent c.slaves s1 in (timer', r.0, r.1)
        ]

    by_slaves_lem :
        (P : Bond S → Type 0) (l : List ℕ)
        → c.slaves ≡ l
        → (Stopped → P (begin_tick s))
        → P ran
        → P (by_slaves l).2
    unfolding member
    by_slaves_lem P [] e h k = h (inl e)
    by_slaves_lem P (a ∷ l) e h k = elim (Bool-cases (due && not (bound a))) [
      | inl t ↦
          let unset : bound a ≡ false = ground arith in
          let first : member a c.slaves ≡ true = rw e (ground arith) in
          rw t (h (inr (a, first, unset)))
      | inr f ↦ rw f k
    ]

    -- What holds of the bond where the handler stops and where it does not holds of what it leaves.
    pub handler_leaves :
        (P : Bond S → Type 0)
        → (Stopped → P (begin_tick s))
        → P ran
        → P (bond_3ad_state_machine_handler c bound sent timer s).2
    unfolding bond_3ad_state_machine_handler
    handler_leaves P h k = by_slaves_lem P c.slaves refl h k

    pub handler-Good : Good s → Good (bond_3ad_state_machine_handler c bound sent timer s).2
    handler-Good v =
        let v0 = begin-Good s v in
        let s0 = begin_tick s in
        handler_leaves Good (λ h. v0)
          (run_ports-Good left bound sent c.slaves (reselected due s0)
            (Settled-Good s0 (reselected due s0) (reselected-Settled due s0) v0))

  receive-Good : (a : ℕ) (l : Lacpdu) (s : Bond S) → Good s → Good (receive_lacpdu c a l s)
  unfolding receive_lacpdu
  receive-Good a l s v =
      put-Good c a (ad_rx_machine c.ticks (some l) (s.world.ports a)) s
        (ad_rx_machine-Follows c.ticks (some l) (s.world.ports a)) v

  pub indication-Good :
      (bound found : Bool) (a : ℕ) (f : Frame) (n : Counters) (s : Bond S)
      → Good s
      → Good (bond_3ad_rx_indication c bound found a f n s).3
  unfolding bond_3ad_rx_indication
  indication-Good false found a f n s v = v
  indication-Good true found a (lacpdu l) n s v = receive-Good a l s v
  indication-Good true found a marker_information n s v = v
  indication-Good true found a marker_response n s v = v
  indication-Good true found a marker_unknown n s v = v
  indication-Good true found a unknown n s v = v
