-- ===== src/Tests/Ports.antt =====
-- servers/bond_3ad.c: two ports, and the receive machine, at concrete inputs.
use linuxab.Prelude.{◌+◌, ◌*◌, ◌≡◌, ◌↔◌, refl, true, false, ◌&&◌, some, if◌then◌else◌, arith}
use linuxab.Bond.Port.{
  Vars, LacpState, Params, Port, Lacpdu, ad_rx_current, ad_rx_expired, ad_rx_defaulted,
  ad_periodic_tx, ad_churn_monitor, ad_mux_detached, ad_timer_to_ticks, ad_current_while_timer,
}
use linuxab.Bond.Receive.{ad_rx_machine}
use linuxab.Bond.Receive.Effects.{IsListening}
use linuxab.Bond.Receive.Records.{Matches, Unchanged, KnowsAll, ad_rx_machine_records}
use linuxab.Bond.Receive.Silence.{silence, silence_lem, loopback_silence}
use linuxab.Bond.Timers.{update_lacpdu_from_port}
use linuxab.Bond.Handshake.{IsPartner, handshake_matched}

abbrev a_state : LacpState
a_state = record {
  activity = true;
  timeout = true;
  aggregation = true;
  synchronization = true;
  collecting = false;
  distributing = false;
  defaulted = false;
  expired = false;
}

abbrev nobody : Params
nobody = record {
  system = 0;
  system_priority = 65535;
  key = 1;
  port_number = 1;
  port_priority = 255;
  port_state = record a_state { synchronization = false };
}

abbrev some_vars : Vars
some_vars = record {
  begins = false;
  lacp_enabled = true;
  actor_churn = false;
  partner_churn = false;
  ready = false;
  ready_n = false;
  matched = false;
  standby = false;
  selected = true;
  moved = false;
}

-- A port that listens, with fifteen ticks on its timer.
abbrev pub near : Port
near = record {
  actor_port_number = 1;
  actor_port_priority = 255;
  actor_system = 4660;
  actor_system_priority = 65535;
  actor_oper_port_key = 9;
  actor_oper_port_state = a_state;
  partner_admin = nobody;
  partner_oper = nobody;
  is_enabled = true;
  sm_vars = some_vars;
  sm_rx_state = ad_rx_current;
  sm_rx_timer_counter = 15;
  sm_periodic_state = ad_periodic_tx;
  sm_periodic_timer_counter = 0;
  sm_mux_state = ad_mux_detached;
  sm_mux_timer_counter = 0;
  sm_tx_timer_counter = 0;
  sm_churn_actor_state = ad_churn_monitor;
  sm_churn_partner_state = ad_churn_monitor;
  sm_churn_actor_timer_counter = 0;
  sm_churn_partner_timer_counter = 0;
  churn_actor_count = 0;
  churn_partner_count = 0;
  ntt = true;
  lacpdu_rx = 0;
}

abbrev pub far : Port
far = record near { actor_port_number = 4; actor_system = 22136; sm_rx_state = ad_rx_defaulted }

near-IsListening : IsListening near
near-IsListening = record { steady = refl; enabled = refl; open_state = refl }

far-IsListening : IsListening far
far-IsListening = record { steady = refl; enabled = refl; open_state = refl }

handshake_matched_example :
    let q1 = ad_rx_machine 10 (some (update_lacpdu_from_port near)) far in
    let p1 = ad_rx_machine 10 (some (update_lacpdu_from_port q1)) near in
    IsPartner q1.partner_oper near
    × IsPartner p1.partner_oper far
    × (p1.sm_vars.matched ≡ true)
    × (p1.partner_oper.port_state.synchronization ≡ far.actor_oper_port_state.synchronization)
handshake_matched_example =
    handshake_matched 10 near far near-IsListening far-IsListening (omega arith)

silence_lem_example :
    ((silence 10 14 near).sm_rx_state ≡ ad_rx_current)
    × ((silence 10 15 near).sm_rx_state ≡ ad_rx_expired)
    × ((silence 10 15 near).partner_oper.port_state.synchronization ≡ false)
    × ((silence 10 15 near).actor_oper_port_state.expired ≡ true)
    × ((silence 10 (15 + 3 * 10) near).sm_rx_state ≡ ad_rx_defaulted)
    × ((silence 10 (15 + 3 * 10) near).partner_oper ≡ near.partner_admin)
    × ((silence 10 (15 + 3 * 10) near).actor_oper_port_state.defaulted ≡ true)
silence_lem_example =
    silence_lem 10 14 15 near near-IsListening refl refl (omega arith) (omega arith) (omega arith)

abbrev pub from_far : Lacpdu
from_far = record { actor = record nobody { system = 22136 }; partner = nobody }

abbrev from_near : Lacpdu
from_near = record { actor = record nobody { system = 4660 }; partner = nobody }

loopback_silence_example :
    ((silence 10 500 (ad_rx_machine 10 (some from_near) near)).sm_rx_state ≡ ad_rx_current)
    × ((silence 10 500 (ad_rx_machine 10 (some from_near) near)).sm_rx_timer_counter ≡ 0)
    × ((silence 10 500 (ad_rx_machine 10 (some from_near) near)).partner_oper ≡ near.partner_oper)
    × ((silence 10 500 (ad_rx_machine 10 (some from_near) near)).sm_vars.selected
        ≡ near.sm_vars.selected)
loopback_silence_example = loopback_silence 10 500 from_near near near-IsListening refl

ad_rx_machine_records_example :
    let q = ad_rx_machine 10 (some from_far) near in
    (q.sm_rx_state ≡ ad_rx_current)
    × (q.partner_oper ≡ record from_far.actor {
      port_state = record from_far.actor.port_state {
        synchronization = q.sm_vars.matched && from_far.actor.port_state.synchronization;
      };
    })
    × ((q.sm_vars.matched ≡ true) ↔ Matches from_far near)
    × ((q.actor_oper_port_state.defaulted ≡ false) × (q.actor_oper_port_state.expired ≡ false))
    × ((q.sm_vars.selected ≡ true)
        ↔ ((near.sm_vars.selected ≡ true) × Unchanged from_far.actor near.partner_oper))
    × (q.actor_oper_port_state.synchronization ≡ near.actor_oper_port_state.synchronization)
    × (q.sm_rx_timer_counter
        ≡ ad_timer_to_ticks 10 ad_current_while_timer
            (if near.actor_oper_port_state.timeout then 1 else 0))
    × ((q.ntt ≡ false) ↔ ((near.ntt ≡ false) × KnowsAll from_far near))
ad_rx_machine_records_example =
    ad_rx_machine_records 10 from_far near near-IsListening (omega arith)
