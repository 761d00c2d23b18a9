-- ===== src/Bond/Timers.antt =====
-- servers/bond_3ad.c: the machines of a port that run on its timers alone: periodic transmission, the
-- detection of churn, and transmission. `ticks` is ad_ticks_per_sec.
pub mod Period
pub mod Rate
pub mod Churn
use linuxab.Prelude.{
  ℕ, ◌+◌, ◌-◌, ◌*◌, ◌/◌, ◌%◌, Bool, true, false, ◌&&◌, ◌||◌, not, Option, none, some, ◌==◌,
  if◌then◌else◌,
}
use linuxab.Bond.Port.{
  LacpState, Params, Port, Lacpdu, PeriodicState, ad_no_periodic, ad_fast_periodic,
  ad_slow_periodic, ad_periodic_tx, ChurnState, ad_churn_monitor, ad_churn, ad_no_churn,
  ad_timer_to_ticks, ad_periodic_timer, ad_actor_churn_timer, ad_partner_churn_timer, expires,
}

abbrev pub set_periodic : PeriodicState → ℕ → Port → Port
set_periodic s n p = record p { sm_periodic_state = s; sm_periodic_timer_counter = n }

abbrev pub same_periodic : PeriodicState → PeriodicState → Bool
same_periodic ad_no_periodic ad_no_periodic = true
same_periodic ad_fast_periodic ad_fast_periodic = true
same_periodic ad_slow_periodic ad_slow_periodic = true
same_periodic ad_periodic_tx ad_periodic_tx = true
same_periodic _ _ = false

-- Neither end is active, or the port does not take part.
unfoldable pub no_periodic : Port → Bool
no_periodic p =
    (p.sm_vars.begins || (not p.sm_vars.lacp_enabled || not p.is_enabled))
    || (not p.actor_oper_port_state.activity && not p.partner_oper.port_state.activity)

-- The timer still runs, at `n`: a partner that has changed its timeout is heeded.
unfoldable pub periodic_runs : ℕ → Port → Port
periodic_runs n p = elim p.sm_periodic_state [
  | ad_fast_periodic ↦
      if not p.partner_oper.port_state.timeout
      then set_periodic ad_slow_periodic n p
      else set_periodic ad_fast_periodic n p
  | ad_slow_periodic ↦
      if p.partner_oper.port_state.timeout
      then set_periodic ad_periodic_tx 0 p
      else set_periodic ad_slow_periodic n p
  | s ↦ set_periodic s n p
]

unfoldable pub periodic_off : Port → Port
periodic_off p = elim p.sm_periodic_state [
  | ad_no_periodic ↦ record p { sm_periodic_state = ad_fast_periodic }
  | ad_periodic_tx ↦
      if not p.partner_oper.port_state.timeout
      then record p { sm_periodic_state = ad_slow_periodic }
      else record p { sm_periodic_state = ad_fast_periodic }
  | _ ↦ p
]

unfoldable pub periodic_next : Port → Port
periodic_next p =
    if no_periodic p
    then record p { sm_periodic_state = ad_no_periodic }
    else if p.sm_periodic_timer_counter == 0
    then periodic_off p
    else if expires p.sm_periodic_timer_counter
    then set_periodic ad_periodic_tx 0 p
    else periodic_runs (p.sm_periodic_timer_counter - 1) p

-- AD_FAST_PERIODIC_TIME is 1 and AD_SLOW_PERIODIC_TIME is 30; the counter is a u16.
unfoldable pub periodic_enter : ℕ → Port → Port
periodic_enter ticks p = elim p.sm_periodic_state [
  | ad_no_periodic ↦ record p { sm_periodic_timer_counter = 0 }
  | ad_fast_periodic ↦ record p {
    sm_periodic_timer_counter = (ad_timer_to_ticks ticks ad_periodic_timer 1 + 65535) % 65536;
  }
  | ad_slow_periodic ↦ record p {
    sm_periodic_timer_counter = (ad_timer_to_ticks ticks ad_periodic_timer 30 + 65535) % 65536;
  }
  | ad_periodic_tx ↦ record p { ntt = true }
]

unfoldable pub ad_periodic_machine : ℕ → Port → Port
ad_periodic_machine ticks port =
    let p = periodic_next port in
    if same_periodic p.sm_periodic_state port.sm_periodic_state then p else periodic_enter ticks p

-- The counts are u32 and the counters u16 of a header that the tree does not hold. What a monitor's end finds: no churn when the bit for sync is on, and else a churn, which is counted.
unfoldable pub churn_actor : Port → Port
churn_actor p =
    let n = p.sm_churn_actor_timer_counter in
    let counted = record p { sm_churn_actor_timer_counter = n - 1 } in
    let found =
      if p.actor_oper_port_state.synchronization
      then record counted { sm_churn_actor_state = ad_no_churn }
      else record counted {
        sm_churn_actor_state = ad_churn;
        churn_actor_count = (p.churn_actor_count + 1) % 4294967296;
      } in
    if expires n
    then elim p.sm_churn_actor_state [ ad_churn_monitor ↦ found | _ ↦ counted ]
    else counted

unfoldable pub churn_partner : Port → Port
churn_partner p =
    let n = p.sm_churn_partner_timer_counter in
    let counted = record p { sm_churn_partner_timer_counter = n - 1 } in
    let found =
      if p.partner_oper.port_state.synchronization
      then record counted { sm_churn_partner_state = ad_no_churn }
      else record counted {
        sm_churn_partner_state = ad_churn;
        churn_partner_count = (p.churn_partner_count + 1) % 4294967296;
      } in
    if expires n
    then elim p.sm_churn_partner_state [ ad_churn_monitor ↦ found | _ ↦ counted ]
    else counted

unfoldable pub ad_churn_machine : ℕ → Port → Port
ad_churn_machine ticks p =
    if p.sm_vars.actor_churn || p.sm_vars.partner_churn
    then record p {
      sm_vars = record p.sm_vars { actor_churn = false; partner_churn = false };
      sm_churn_actor_state = ad_churn_monitor;
      sm_churn_partner_state = ad_churn_monitor;
      sm_churn_actor_timer_counter = ad_timer_to_ticks ticks ad_actor_churn_timer 0;
      sm_churn_partner_timer_counter = ad_timer_to_ticks ticks ad_partner_churn_timer 0;
    }
    else churn_partner (churn_actor p)

-- The LACPDU that a port sends: itself for the actor, and its partner.
unfoldable pub update_lacpdu_from_port : Port → Lacpdu
update_lacpdu_from_port p = record {
  actor = record {
    system = p.actor_system;
    system_priority = p.actor_system_priority;
    key = p.actor_oper_port_key;
    port_number = p.actor_port_number;
    port_priority = p.actor_port_priority;
    port_state = p.actor_oper_port_state;
  };
  partner = p.partner_oper;
}

-- `sent` is whether `ad_lacpdu_send` finds a buffer. The LACPDU that goes out, if one does; `port->lacpdu`
-- is written afresh before every sending and is no state here. AD_MAX_TX_IN_SECOND is 3.
unfoldable pub ad_tx_machine : ℕ → Bool → Port → Option Lacpdu × Port
ad_tx_machine ticks sent port =
    let p = record port { sm_tx_timer_counter = port.sm_tx_timer_counter - 1 } in
    if (port.sm_tx_timer_counter == 0) || expires port.sm_tx_timer_counter
    then if p.ntt && p.sm_vars.lacp_enabled
      then if sent
        then (
          some (update_lacpdu_from_port p),
          record p { ntt = false; sm_tx_timer_counter = (ticks / 3) % 65536 },
        )
        else (none, p)
      else (none, p)
    else (none, p)
