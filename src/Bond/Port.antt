-- ===== src/Bond/Port.antt =====
-- servers/bond_3ad.c: a port as its state machines see it. A bit of `sm_vars` or of a LACP state is a
-- Bool of that name; the masks of the latter stand in a header of the system. The counters are u16.
use linuxab.Prelude.{ℕ, ◌*◌, ◌%◌, Bool, true, false, not, ◌==◌, if◌then◌else◌}

-- `sm_vars`; AD_PORT_CHURNED is both of the churn bits.
pub record Vars : Type 0 where
  pub begins : Bool
  pub lacp_enabled : Bool
  pub actor_churn : Bool
  pub partner_churn : Bool
  pub ready : Bool
  pub ready_n : Bool
  pub matched : Bool
  pub standby : Bool
  pub selected : Bool
  pub moved : Bool

pub record LacpState : Type 0 where
  pub activity : Bool
  pub timeout : Bool
  pub aggregation : Bool
  pub synchronization : Bool
  pub collecting : Bool
  pub distributing : Bool
  pub defaulted : Bool
  pub expired : Bool

-- `struct port_params`.
pub record Params : Type 0 where
  pub system : ℕ
  pub system_priority : ℕ
  pub key : ℕ
  pub port_number : ℕ
  pub port_priority : ℕ
  pub port_state : LacpState

pub data RxState : Type 0 where
  ad_rx_initialize : RxState
  ad_rx_port_disabled : RxState
  ad_rx_lacp_disabled : RxState
  ad_rx_expired : RxState
  ad_rx_defaulted : RxState
  ad_rx_current : RxState

pub data PeriodicState : Type 0 where
  ad_no_periodic : PeriodicState
  ad_fast_periodic : PeriodicState
  ad_slow_periodic : PeriodicState
  ad_periodic_tx : PeriodicState

pub data ChurnState : Type 0 where
  ad_churn_monitor : ChurnState
  ad_churn : ChurnState
  ad_no_churn : ChurnState

pub data MuxState : Type 0 where
  ad_mux_detached : MuxState
  ad_mux_waiting : MuxState
  ad_mux_attached : MuxState
  ad_mux_collecting : MuxState
  ad_mux_distributing : MuxState
  ad_mux_collecting_distributing : MuxState

pub record Port : Type 0 where
  pub actor_port_number : ℕ
  pub actor_port_priority : ℕ
  pub actor_system : ℕ
  pub actor_system_priority : ℕ
  pub actor_oper_port_key : ℕ
  pub actor_oper_port_state : LacpState
  pub partner_admin : Params
  pub partner_oper : Params
  pub is_enabled : Bool
  pub sm_vars : Vars
  pub sm_rx_state : RxState
  pub sm_rx_timer_counter : ℕ
  pub sm_periodic_state : PeriodicState
  pub sm_periodic_timer_counter : ℕ
  pub sm_mux_state : MuxState
  pub sm_mux_timer_counter : ℕ
  pub sm_tx_timer_counter : ℕ
  pub sm_churn_actor_state : ChurnState
  pub sm_churn_partner_state : ChurnState
  pub sm_churn_actor_timer_counter : ℕ
  pub sm_churn_partner_timer_counter : ℕ
  pub churn_actor_count : ℕ
  pub churn_partner_count : ℕ
  pub ntt : Bool
  pub lacpdu_rx : ℕ

-- `struct lacpdu`, once its words are in the order of the host.
pub record Lacpdu : Type 0 where
  pub actor : Params
  pub partner : Params

pub data Timer : Type 0 where
  ad_current_while_timer : Timer
  ad_actor_churn_timer : Timer
  ad_periodic_timer : Timer
  ad_partner_churn_timer : Timer
  ad_wait_while_timer : Timer

-- `ticks` is ad_ticks_per_sec. The times are AD_SHORT_TIMEOUT_TIME 3, AD_LONG_TIMEOUT_TIME 90,
-- AD_CHURN_DETECTION_TIME 60 and AD_AGGREGATE_WAIT_TIME 2; `par` is 0 for the long timeout.
unfoldable pub ad_timer_to_ticks : ℕ → Timer → ℕ → ℕ
ad_timer_to_ticks ticks ad_current_while_timer par =
    if par == 0 then (90 * ticks) % 65536 else (3 * ticks) % 65536
ad_timer_to_ticks ticks ad_actor_churn_timer par = (60 * ticks) % 65536
ad_timer_to_ticks ticks ad_periodic_timer par = (par * ticks) % 65536
ad_timer_to_ticks ticks ad_partner_churn_timer par = (60 * ticks) % 65536
ad_timer_to_ticks ticks ad_wait_while_timer par = (2 * ticks) % 65536

-- `if (counter && !(--counter))`: the counter is left at `counter - 1`, and the test holds at 1.
abbrev pub expires : ℕ → Bool
expires counter = counter == 1

abbrev pub set_selected : Bool → Port → Port
set_selected b p = record p { sm_vars = record p.sm_vars { selected = b } }

abbrev pub set_matched : Bool → Port → Port
set_matched b p = record p { sm_vars = record p.sm_vars { matched = b } }

abbrev pub set_expired : Bool → Port → Port
set_expired b p = record p {
  actor_oper_port_state = record p.actor_oper_port_state { expired = b };
}

abbrev pub set_churned : Port → Port
set_churned p = record p { sm_vars = record p.sm_vars { actor_churn = true; partner_churn = true } }

abbrev pub same_bit : Bool → Bool → Bool
same_bit true b = b
same_bit false b = not b
