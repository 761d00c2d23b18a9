-- ===== src/Tests/Choices.antt =====
-- servers/bond_3ad.c: the choice of the active aggregator at concrete inputs.
use linuxab.Prelude.{
  ℕ, ◌≡◌, refl, true, false, none, some, List, [], ◌∷◌, ◌==◌, if◌then◌else◌, arith,
}
use linuxab.Bond.Speed.{Lane}
use linuxab.Bond.Select.{
  bond_ad_stable, bond_ad_bandwidth, Agg, eligible, get_active_agg, agg_has_partner,
  ad_agg_selection_logic, active_ports, agg_device_up, any_running,
}
use linuxab.Bond.Select.Outcome.{
  Best, ad_agg_selection_logic_one, ad_agg_selection_logic-Best, ad_agg_selection_logic_stays,
}
use linuxab.Bond.Mux.Ready.{member}
use linuxab.Bond.Speed.{agg_active_ports}

abbrev pub lane : ℕ → Lane
lane mbps = record {
  is_enabled = true;
  link_up = true;
  speed = mbps;
  full_duplex = true;
  port_priority = 255;
  running = true;
}

-- Three slaves: the aggregator of 1 is active, that of 2 is faster, that of 3 has no port.
abbrev aggs : ℕ → Agg
aggs i =
    if i == 1
    then record {
      is_active = true;
      is_individual = false;
      partner_system = 7;
      actor_oper_aggregator_key = 9;
      lag_ports = lane 1000 ∷ [];
    }
    else if i == 2
    then record {
      is_active = false;
      is_individual = false;
      partner_system = 8;
      actor_oper_aggregator_key = 13;
      lag_ports = lane 10000 ∷ [];
    }
    else record {
      is_active = false;
      is_individual = true;
      partner_system = 0;
      actor_oper_aggregator_key = 1;
      lag_ports = [];
    }

abbrev slaves : List ℕ
slaves = 1 ∷ 2 ∷ 3 ∷ []

all_members : (member 1 slaves ≡ true) × (member 2 slaves ≡ true)
unfolding member
all_members = (refl, refl)

both_eligible : (eligible (aggs 1) ≡ true) × (eligible (aggs 2) ≡ true)
unfolding eligible active_ports agg_device_up any_running agg_active_ports
both_eligible = (refl, refl)

first_active : get_active_agg slaves aggs ≡ some 1
unfolding get_active_agg
first_active = refl

has_partner : agg_has_partner (aggs 1) ≡ true
unfolding agg_has_partner
has_partner = refl

ad_agg_selection_logic-Best_example :
    Best bond_ad_bandwidth aggs slaves
      (aggs 2)
      (ad_agg_selection_logic bond_ad_bandwidth slaves aggs false)
ad_agg_selection_logic-Best_example =
    ad_agg_selection_logic-Best bond_ad_bandwidth slaves aggs false 2 refl all_members.1
      both_eligible.1

ad_agg_selection_logic_stays_example :
    let s = ad_agg_selection_logic bond_ad_stable slaves aggs false in
    ((s.aggs 1).is_active ≡ true) × (s.disabled ≡ none)
ad_agg_selection_logic_stays_example =
    ad_agg_selection_logic_stays slaves aggs false 1 first_active all_members.0 refl both_eligible.0
      has_partner (omega arith)

still_active : ((ad_agg_selection_logic bond_ad_stable slaves aggs false).aggs 1).is_active ≡ true
still_active =
    (ad_agg_selection_logic_stays slaves aggs false 1 first_active all_members.0 refl
      both_eligible.0 has_partner (omega arith)).0

ad_agg_selection_logic_one_example :
    ((ad_agg_selection_logic bond_ad_stable slaves aggs false).aggs 2).is_active ≡ false
ad_agg_selection_logic_one_example =
    ad_agg_selection_logic_one bond_ad_stable slaves aggs false 1 2 (omega arith) all_members.0
      all_members.1 still_active
