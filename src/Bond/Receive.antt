-- ===== src/Bond/Receive.antt =====
-- servers/bond_3ad.c: ad_rx_machine, a port's receive machine. `ticks` is ad_ticks_per_sec. The
-- machine's first half chooses the next state and its second half does what the state asks for.
pub mod Effects
pub mod Records
pub mod Silence
use linuxab.Prelude.{
  ℕ, ◌+◌, ◌-◌, ◌*◌, ◌%◌, Bool, true, false, ◌&&◌, ◌||◌, not, Option, none, some, ◌==◌,
  if◌then◌else◌,
}
use linuxab.Bond.Port.{
  Vars, LacpState, Params, Port, Lacpdu, RxState, ad_rx_initialize, ad_rx_port_disabled,
  ad_rx_lacp_disabled, ad_rx_expired, ad_rx_defaulted, ad_rx_current, ad_timer_to_ticks,
  ad_current_while_timer, expires, set_selected, set_matched, set_expired, set_churned,
}
use linuxab.Bond.Record.{
  record_pdu, record_default, update_selected, update_default_selected, update_ntt,
}

abbrev pub set_rx_state : RxState → Port → Port
set_rx_state r p = record p { sm_rx_state = r }

abbrev pub set_rx_timer : ℕ → Port → Port
set_rx_timer n p = record p { sm_rx_timer_counter = n }

abbrev pub same_rx : RxState → RxState → Bool
same_rx ad_rx_initialize ad_rx_initialize = true
same_rx ad_rx_port_disabled ad_rx_port_disabled = true
same_rx ad_rx_lacp_disabled ad_rx_lacp_disabled = true
same_rx ad_rx_expired ad_rx_expired = true
same_rx ad_rx_defaulted ad_rx_defaulted = true
same_rx ad_rx_current ad_rx_current = true
same_rx _ _ = false

-- The states in which a LACPDU is taken.
abbrev pub listens : RxState → Bool
listens ad_rx_expired = true
listens ad_rx_defaulted = true
listens ad_rx_current = true
listens _ = false

-- `counter` has just been counted down.
unfoldable pub rx_timeout : Port → Port
rx_timeout p = elim p.sm_rx_state [
  | ad_rx_expired ↦ set_rx_state ad_rx_defaulted p
  | ad_rx_current ↦ set_rx_state ad_rx_expired p
  | _ ↦ p
]

unfoldable pub rx_idle : Port → Port
rx_idle p = elim p.sm_rx_state [
  | ad_rx_port_disabled ↦
      if p.is_enabled && p.sm_vars.lacp_enabled
      then set_rx_state ad_rx_expired p
      else if p.is_enabled && not p.sm_vars.lacp_enabled
      then set_rx_state ad_rx_lacp_disabled p
      else p
  | _ ↦ p
]

unfoldable pub rx_heard : Port → Port
rx_heard p =
    set_rx_state ad_rx_current
      (set_rx_timer 0 (if same_rx p.sm_rx_state ad_rx_current then p else set_churned p))

unfoldable pub rx_next : Bool → Port → Port
rx_next arrived p =
    let counted = set_rx_timer (p.sm_rx_timer_counter - 1) p in
    if p.sm_vars.begins
    then set_rx_state ad_rx_initialize (set_churned p)
    else if not p.is_enabled
    then set_rx_state ad_rx_port_disabled p
    else if arrived && listens p.sm_rx_state
    then rx_heard p
    else if expires p.sm_rx_timer_counter
    then rx_timeout counted
    else rx_idle counted

unfoldable pub rx_initialize : Port → Port
rx_initialize p =
    let enabled = record p {
      sm_vars = record p.sm_vars { lacp_enabled = not (p.actor_oper_port_key % 2 == 0) };
    } in
    set_matched false (
      set_rx_state ad_rx_port_disabled
        (set_expired false (record_default (set_selected false enabled))))

unfoldable pub rx_lacp_disabled : Port → Port
rx_lacp_disabled port =
    let p = record_default (set_selected false port) in
    set_expired false (
      set_matched true (record p {
        partner_oper = record p.partner_oper {
          port_state = record p.partner_oper.port_state { aggregation = false };
        };
      }))

unfoldable pub rx_expired : ℕ → Port → Port
rx_expired ticks port =
    let p = set_matched false port in
    set_churned (
      set_expired true (
        set_rx_timer (ad_timer_to_ticks ticks ad_current_while_timer 1) (record p {
          partner_oper = record p.partner_oper {
            port_state = record p.partner_oper.port_state {
              synchronization = false;
              timeout = true;
            };
          };
        })))

unfoldable pub rx_defaulted : Port → Port
rx_defaulted p = set_expired false (set_matched true (record_default (update_default_selected p)))

-- Nothing is recorded of a LACPDU that the port's own system has sent.
unfoldable pub rx_current : ℕ → Lacpdu → Port → Port
rx_current ticks lacpdu p =
    let q = record_pdu lacpdu (update_ntt lacpdu (update_selected lacpdu p)) in
    let short = if q.actor_oper_port_state.timeout then 1 else 0 in
    if lacpdu.actor.system == p.actor_system
    then p
    else set_expired false (set_rx_timer (ad_timer_to_ticks ticks ad_current_while_timer short) q)

-- Without a LACPDU the machine never enters `ad_rx_current`.
unfoldable pub rx_enter : ℕ → Option Lacpdu → Port → Port
rx_enter ticks lacpdu p = elim p.sm_rx_state [
  | ad_rx_initialize ↦ rx_initialize p
  | ad_rx_port_disabled ↦ set_matched false p
  | ad_rx_lacp_disabled ↦ rx_lacp_disabled p
  | ad_rx_expired ↦ rx_expired ticks p
  | ad_rx_defaulted ↦ rx_defaulted p
  | ad_rx_current ↦ elim lacpdu [ none ↦ p | some l ↦ rx_current ticks l p ]
]

abbrev pub arrived : Option Lacpdu → Bool
arrived none = false
arrived (some l) = true

-- The statistics of the slave; those of the bond count the same LACPDU, and no machine reads either.
unfoldable pub count_rx : Option Lacpdu → Port → Port
count_rx none p = p
count_rx (some l) p = record p { lacpdu_rx = (p.lacpdu_rx + 1) % 18446744073709551616 }

unfoldable pub ad_rx_machine : ℕ → Option Lacpdu → Port → Port
ad_rx_machine ticks lacpdu port =
    let p = rx_next (arrived lacpdu) (count_rx lacpdu port) in
    if not (same_rx p.sm_rx_state port.sm_rx_state) || arrived lacpdu
    then rx_enter ticks lacpdu p
    else p
