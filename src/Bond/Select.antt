-- ===== src/Bond/Select.antt =====
-- servers/bond_3ad.c: ad_agg_selection_logic, the choice of a bond's active aggregator. The slaves of the
-- bond are a list of addresses, each with its aggregator. The mode is the bond's `ad_select`.
pub mod Order
pub mod Choice
pub mod Flags
pub mod Policy
pub mod Outcome
use linuxab.Prelude.{
  ℕ, suc, ◌+◌, ◌%◌, Bool, true, false, ◌&&◌, ◌||◌, not, Option, none, some, List, [], ◌∷◌, ◌==◌,
  ltb, if◌then◌else◌,
}
use linuxab.Bond.Speed.{Lane, agg_active_ports, get_agg_bandwidth}

pub data AdSelect : Type 0 where
  bond_ad_stable : AdSelect
  bond_ad_bandwidth : AdSelect
  bond_ad_count : AdSelect
  bond_ad_prio : AdSelect

-- `partner_system` is 0 for the address of zeros, and `lag_ports` are the ports, the first one first.
pub record Agg : Type 0 where
  pub is_active : Bool
  pub is_individual : Bool
  pub partner_system : ℕ
  pub actor_oper_aggregator_key : ℕ
  pub lag_ports : List Lane

unfoldable pub agg_has_partner : Agg → Bool
agg_has_partner a = not (a.partner_system == 0)

unfoldable pub active_ports : Agg → ℕ
active_ports a = agg_active_ports a.lag_ports

pub sum_priorities : ℕ → List Lane → ℕ
sum_priorities prio [] = prio
sum_priorities prio (lane ∷ lanes) =
    sum_priorities (if lane.is_enabled then (prio + lane.port_priority) % 4294967296 else prio)
      lanes

pub agg_ports_priority : Agg → ℕ
agg_ports_priority a = sum_priorities 0 a.lag_ports

pub bandwidth : Agg → ℕ
bandwidth a = elim a.lag_ports [ [] ↦ 0 | first ∷ others ↦ get_agg_bandwidth first others ]

unfoldable pub any_running : List Lane → Bool
any_running [] = false
any_running (lane ∷ lanes) = lane.running || any_running lanes

unfoldable pub agg_device_up : Agg → Bool
agg_device_up a = any_running a.lag_ports

pub by_count : Agg → Agg → Bool
by_count curr best =
    if ltb (active_ports best) (active_ports curr)
    then true
    else if ltb (active_ports curr) (active_ports best)
    then false
    else ltb (bandwidth best) (bandwidth curr)

-- The `switch` on the mode, with its cases that fall through.
pub by_policy : AdSelect → Agg → Agg → Bool
by_policy bond_ad_prio curr best =
    if ltb (agg_ports_priority best) (agg_ports_priority curr)
    then true
    else if ltb (agg_ports_priority curr) (agg_ports_priority best)
    then false
    else by_count curr best
by_policy bond_ad_count curr best = by_count curr best
by_policy bond_ad_stable curr best = ltb (bandwidth best) (bandwidth curr)
by_policy bond_ad_bandwidth curr best = ltb (bandwidth best) (bandwidth curr)

-- `curr` takes the place of `best`.
pub beats : AdSelect → Agg → Agg → Bool
beats mode curr best =
    if not curr.is_individual && best.is_individual
    then true
    else if curr.is_individual && not best.is_individual
    then false
    else if agg_has_partner curr && not (agg_has_partner best)
    then true
    else if not (agg_has_partner curr) && agg_has_partner best
    then false
    else by_policy mode curr best

pub ad_agg_selection_test : AdSelect → (ℕ → Agg) → Option ℕ → ℕ → ℕ
ad_agg_selection_test mode aggs none curr = curr
ad_agg_selection_test mode aggs (some best) curr =
    if beats mode (aggs curr) (aggs best) then curr else best

-- `__agg_active_ports(agg) && agg_device_up(agg)`
unfoldable pub eligible : Agg → Bool
eligible a = not (active_ports a == 0) && agg_device_up a

unfoldable pub get_active_agg : List ℕ → (ℕ → Agg) → Option ℕ
get_active_agg [] aggs = none
get_active_agg (i ∷ slaves) aggs =
    let rest = get_active_agg slaves aggs in if (aggs i).is_active then some i else rest

-- The loop's choice. It clears `is_active` on the way, `clear_active` below, which no test reads.
pub select_best : AdSelect → (ℕ → Agg) → Option ℕ → List ℕ → Option ℕ
select_best mode aggs best [] = best
select_best mode aggs best (i ∷ slaves) =
    select_best mode aggs
      (if eligible (aggs i) then some (ad_agg_selection_test mode aggs best i) else best) slaves

abbrev pub is_stable : AdSelect → Bool
is_stable bond_ad_stable = true
is_stable _ = false

abbrev pub has_ports : Agg → Bool
has_ports a = elim a.lag_ports [ [] ↦ false | first ∷ others ↦ true ]

-- The STABLE policy does not replace the aggregator `a` by `b`.
pub stays : AdSelect → Agg → Agg → Bool
stays mode a b =
    is_stable mode
    && (has_ports a
        && (not (active_ports a == 0)
            && ((agg_has_partner a || (not (agg_has_partner a) && not (agg_has_partner b)))
                && not (
                    (a.actor_oper_aggregator_key == 0) && not (b.actor_oper_aggregator_key == 0)))))

-- A write of `is_active`
unfoldable pub set_active : Bool → ℕ → (ℕ → Agg) → ℕ → Agg
set_active v i aggs k = if i == k then record (aggs k) { is_active = v } else aggs k

-- The `agg->is_active = 0` of the loop
unfoldable pub clear_active : List ℕ → (ℕ → Agg) → ℕ → Agg
clear_active [] aggs = aggs
clear_active (i ∷ slaves) aggs = clear_active slaves (set_active false i aggs)

-- `best` and the aggregators. The STABLE policy takes `best` back and marks the old one.
unfoldable pub keep_stable : AdSelect → Option ℕ → Option ℕ × (ℕ → Agg) → Option ℕ × (ℕ → Agg)
keep_stable mode none (best, aggs) = (best, aggs)
keep_stable mode (some a) (none, aggs) = (none, aggs)
keep_stable mode (some a) (some b, aggs) =
    if stays mode (aggs a) (aggs b) then (none, set_active true a aggs) else (some b, aggs)

-- `if (best && (best == active))`
unfoldable pub keep_same : Option ℕ → Option ℕ × (ℕ → Agg) → Option ℕ × (ℕ → Agg)
keep_same none (best, aggs) = (best, aggs)
keep_same (some a) (none, aggs) = (none, aggs)
keep_same (some a) (some b, aggs) =
    if b == a then (none, set_active true a aggs) else (some b, aggs)

-- `best->is_active = 1` for a new best one
unfoldable pub take_best : Option ℕ × (ℕ → Agg) → ℕ → Agg
take_best (none, aggs) = aggs
take_best (some b, aggs) = set_active true b aggs

-- The aggregators, those whose ports are disabled and enabled, and whether the slave array is renewed.
pub record Selection : Type 0 where
  pub aggs : ℕ → Agg
  pub disabled : Option ℕ
  pub enabled : Option ℕ
  pub update_slave_arr : Bool

abbrev pub up_or_none : (ℕ → Agg) → Option ℕ → Option ℕ
up_or_none aggs none = none
up_or_none aggs (some a) = if agg_device_up (aggs a) then some a else none

abbrev pub lonely : (ℕ → Agg) → Option ℕ → Option ℕ
lonely aggs none = none
lonely aggs (some a) = if agg_has_partner (aggs a) then none else some a

pub ad_agg_selection_logic : AdSelect → List ℕ → (ℕ → Agg) → Bool → Selection
ad_agg_selection_logic mode slaves aggs update =
    let active = get_active_agg slaves aggs in
    let best = select_best mode aggs (up_or_none aggs active) slaves in
    let s1 = keep_stable mode active (best, clear_active slaves aggs) in
    let s2 = keep_same active s1 in
    let aggs' = take_best s2 in
    let new : Bool = elim (s2.0) [ none ↦ false | some b ↦ true ] in
    let alone = lonely aggs' (get_active_agg slaves aggs') in
    record {
      aggs = aggs';
      disabled = if new then active else none;
      enabled = alone;
      update_slave_arr = update || (new || elim alone [ none ↦ false | some a ↦ true ]);
    }
