-- ===== src/Tests/Groups.antt =====
-- servers/bond_3ad.c: the lists of ports and the ticks of a bond at concrete inputs.
use linuxab.Prelude.{
  ℕ, ◌≡◌, refl, sym, ap, ◌∙◌, inl, inr, Bool, true, false, none, some, [], ◌∷◌, ◌==◌, if◌then◌else◌,
  Bool-cases, arith,
}
use linuxab.Prelude.Distinct.{Distinct}
use linuxab.Bond.Port.{Port}
use linuxab.Bond.Mux.Ready.{member}
use linuxab.Bond.Select.{bond_ad_bandwidth}
use linuxab.Bond.Group.{Lag, Bond, leave, ad_port_selection_logic}
use linuxab.Bond.Group.Lists.{IsGrouped}
use linuxab.Bond.Group.Fits.{Fitting}
use linuxab.Bond.Group.Outcome.{Placed, ad_port_selection_logic-Placed}
use linuxab.Bond.Handler.{
  Setup, lacpdu, Counters, bond_3ad_state_machine_handler, bond_3ad_rx_indication,
}
use linuxab.Bond.Handler.Reach.{tick, frame, Reach, here, next, Reach-Good}
use linuxab.Bond.Handler.Selects.{bond_3ad_state_machine_handler_selects}
use linuxab.Tests.Choices.{lane}
use linuxab.Tests.Machines.{slave_flags}
use linuxab.Tests.Ports.{near, from_far}

-- A port with a partner.
abbrev paired : Port
paired = record near { partner_oper = record near.partner_oper { system = 22136 } }

-- The port of slave 2 is on the list of the aggregator of slave 1; the port of slave 1 is on none.
abbrev founded : Lag
founded = record {
  aggregator_identifier = 1;
  is_individual = false;
  actor_admin_aggregator_key = 0;
  actor_oper_aggregator_key = paired.actor_oper_port_key;
  partner_system = paired.partner_oper.system;
  partner_system_priority = paired.partner_oper.system_priority;
  partner_oper_aggregator_key = paired.partner_oper.key;
  receive_state = 1;
  transmit_state = 1;
  lag_ports = 2 ∷ [];
  num_of_ports = 1;
  is_active = false;
}

abbrev empty_lag : Lag
empty_lag = record founded { aggregator_identifier = 2; lag_ports = []; num_of_ports = 0 }

abbrev unselected : Port
unselected = record paired { sm_vars = record paired.sm_vars { selected = false } }

abbrev bond : Bond (Bool × Bool)
bond = record {
  world = record {
    ports = λ a. if a == 1 then unselected else paired;
    slaves = λ a. (false, false);
    update_slave_arr = false;
    rearmed = false;
  };
  lags = λ g. if g == 1 then founded else empty_lag;
  aggregator = λ a. if a == 2 then some 1 else none;
  identifier = λ a. if a == 2 then 1 else 0;
}

abbrev setup : Setup (Bool × Bool)
setup = record {
  flags = slave_flags;
  mode = bond_ad_bandwidth;
  slaves = 1 ∷ 2 ∷ [];
  links = λ a. lane 1000;
  admin_key = λ a. 0;
  coupled_control = true;
  broadcast_neighbor = false;
  ticks = 10;
}

on_first : (a g : ℕ) → bond.aggregator a ≡ some g → (a ≡ 2) × (g ≡ 1)
on_first a g e = elim (Bool-cases (a == 2)) [
  | inl t ↦
      let got : some 1 ≡ some g = ap (λ c. if c then some 1 else none) (sym t) ∙ e in
      (ground arith, cc)
  | inr f ↦
      let got : none ≡ some g = ap (λ c. if c then some 1 else none) (sym f) ∙ e in absurd (cc)
]

bond-IsGrouped : IsGrouped bond
unfolding member
bond-IsGrouped = record {
  on_list = λ a g e. let (x, y) = on_first a g e in rw (x, y) refl;
  belongs = λ a g m. elim (Bool-cases (g == 1)) [
    | inl t ↦
        let on : member a (2 ∷ []) ≡ true =
          ap (λ c. member a (if c then founded else empty_lag).lag_ports) (sym t) ∙ m in
        let two : a ≡ 2 = ground arith in let one : 1 ≡ g = ground arith in rw two (ap some one)
    | inr f ↦
        let off : false ≡ true =
          ap (λ c. member a (if c then founded else empty_lag).lag_ports) (sym f) ∙ m in
        absurd (cc)
  ];
  distinct = λ g. elim (Bool-cases (g == 1)) [ inl t ↦ rw t (tt, tt) | inr f ↦ rw f tt ];
  counted = λ g. ground arith;
}

bond-Fitting : Fitting bond
bond-Fitting b h e sel = let (x, y) = on_first b h e in rw (x, y) (refl, refl, refl, refl)

ad_port_selection_logic-Placed_example :
    ((leave 1 bond).aggregator 1 ≡ none)
    × Placed setup.slaves 1 (leave 1 bond) (
        ad_port_selection_logic setup.flags setup.mode setup.slaves setup.links setup.admin_key 1
          bond)
ad_port_selection_logic-Placed_example =
    ad_port_selection_logic-Placed setup.flags setup.mode setup.slaves setup.links setup.admin_key 1
      bond bond-IsGrouped bond-Fitting refl

abbrev no_counts : Counters
no_counts = record {
  marker_tx = 0;
  marker_rx = 0;
  marker_resp_tx = 0;
  marker_resp_rx = 0;
  marker_unknown_rx = 0;
  lacpdu_unknown_rx = 0;
}

-- A tick, and the bond and its timer behind it.
abbrev ticked : ℕ × Bond (Bool × Bool)
ticked = let r = bond_3ad_state_machine_handler setup (λ a. true) (λ a. true) 1 bond in (r.0, r.2)

abbrev heard : ℕ × Bond (Bool × Bool)
heard =
    (ticked.0, (bond_3ad_rx_indication setup true true 2 (lacpdu from_far) no_counts (ticked.1)).3)

tick_and_frame : Reach setup (1, bond) heard
tick_and_frame =
    next (next here (tick (λ a. true) (λ a. true) 1 bond))
      (frame true true 2 (lacpdu from_far) no_counts (ticked.0) (ticked.1))

Reach-Good_example : IsGrouped (heard.1) × Fitting (heard.1)
Reach-Good_example = Reach-Good setup (1, bond) heard tick_and_frame (bond-IsGrouped, bond-Fitting)

slaves_only : (b g : ℕ) → bond.aggregator b ≡ some g → member b setup.slaves ≡ true
unfolding member
slaves_only b g e = let (x, y) = on_first b g e in rw x refl

first_is_slave : member 1 setup.slaves ≡ true
unfolding member
first_is_slave = refl

slaves-Distinct : Distinct setup.slaves
slaves-Distinct = ((omega arith, tt), (tt, tt))

bond_3ad_state_machine_handler_selects_example :
    ((bond_3ad_state_machine_handler setup (λ a. true) (λ a. false) 1 bond).2.world.ports
      1).sm_vars.selected
    ≡ true
bond_3ad_state_machine_handler_selects_example =
    bond_3ad_state_machine_handler_selects setup (λ a. true) (λ a. false) 1 bond bond-IsGrouped
      bond-Fitting slaves-Distinct slaves_only (λ b m. refl) 1 first_is_slave
