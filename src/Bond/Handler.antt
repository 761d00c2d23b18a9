-- ===== src/Bond/Handler.antt =====
-- servers/bond_3ad.c: what a tick of the bond does, bond_3ad_state_machine_handler, and what a received frame
-- does, bond_3ad_rx_indication. `bound` is whether a port's slave is set, `sent` whether a buffer is found
-- for its LACPDU, and `found` whether one is found for the response to a marker. The carrier of the bond and the notifications are outside.
pub mod Follows
pub mod Moves
pub mod Enters
pub mod Timed
pub mod Runs
pub mod Reach
pub mod Selects
use linuxab.Prelude.{
  ℕ, ◌+◌, ◌-◌, ◌%◌, Bool, true, false, ◌&&◌, ◌||◌, not, Option, none, some, List, [], ◌∷◌, ◌++◌,
  ◌==◌, if◌then◌else◌,
}
use linuxab.Bond.Port.{Port, Lacpdu}
use linuxab.Bond.Receive.{ad_rx_machine}
use linuxab.Bond.Timers.{ad_periodic_machine, ad_churn_machine, ad_tx_machine}
use linuxab.Bond.Mux.{World, Aggregator, BondParams, SlaveFlags, set_port, ad_mux_machine}
use linuxab.Bond.Speed.{Lane}
use linuxab.Bond.Select.{AdSelect}
use linuxab.Bond.Group.{Lag, Bond, select_active, ad_port_selection_logic, view}

-- What stays the same from tick to tick.
pub record Setup (S : Type 0) : Type 0 where
  pub flags : SlaveFlags S
  pub mode : AdSelect
  pub slaves : List ℕ
  pub links : ℕ → Lane
  pub admin_key : ℕ → ℕ
  pub coupled_control : Bool
  pub broadcast_neighbor : Bool
  pub ticks : ℕ

-- `agg_select_timer` counted down, and whether it has just reached 0.
unfoldable pub bond_agg_timer_advance : ℕ → ℕ × Bool
bond_agg_timer_advance val = if val == 0 then (0, false) else (val - 1, val == 1)

unfoldable pub clear_begin : Port → Port
clear_begin p = record p { sm_vars = record p.sm_vars { begins = false } }

unfoldable pub begin_tick : {S : Type 0} → Bond S → Bond S
begin_tick s = record s { world = record s.world { update_slave_arr = false } }

module _ {S : Type 0} (c : Setup S) where
  abbrev pub params : ℕ → BondParams
  params timer = record {
    coupled_control = c.coupled_control;
    broadcast_neighbor = c.broadcast_neighbor;
    select_timer = timer;
  }

  -- The aggregator of a port as the mux machine sees it. The code does not test it for NULL; here one that
  -- is NULL has no port and no partner.
  abbrev pub own_agg : Bond S → ℕ → Aggregator
  own_agg s a = elim (s.aggregator a) [
    | none ↦ record { is_active = false; partner_system = 0; lag_ports = [] }
    | some g ↦ record {
      is_active = (s.lags g).is_active;
      partner_system = (s.lags g).partner_system;
      lag_ports = (s.lags g).lag_ports;
    }
  ]

  abbrev pub put_port : ℕ → Port → Bond S → Bond S
  put_port a p s = record s { world = set_port a p s.world }

  -- The machines of one port in their order, and the LACPDU that goes out.
  unfoldable pub run_port : ℕ → Bool → ℕ → Bond S → Option Lacpdu × Bond S
  run_port timer sent a s =
      let s1 = put_port a (ad_rx_machine c.ticks none (s.world.ports a)) s in
      let s2 = put_port a (ad_periodic_machine c.ticks (s1.world.ports a)) s1 in
      let s3 = ad_port_selection_logic c.flags c.mode c.slaves c.links c.admin_key a s2 in
      let s4 = record s3 {
        world = ad_mux_machine c.flags (params timer) (own_agg s3 a) c.ticks a s3.world;
      } in
      let out = ad_tx_machine c.ticks sent (s4.world.ports a) in
      let s5 = put_port a (clear_begin (ad_churn_machine c.ticks (out.1))) s4 in (out.0, s5)

  -- The loop over the slaves, which an uninitialized port ends.
  unfoldable pub run_ports :
      ℕ → (ℕ → Bool) → (ℕ → Bool) → List ℕ → Bond S → List (ℕ × Lacpdu) × Bond S
  run_ports timer bound sent [] s = ([], s)
  run_ports timer bound sent (a ∷ slaves) s =
      let r = run_port timer (sent a) a s in
      let rest = run_ports timer bound sent slaves (r.1) in
      if bound a then (elim (r.0) [ none ↦ rest.0 | some l ↦ (a, l) ∷ rest.0 ], rest.1) else ([], s)

  -- The timer, the LACPDUs that go out, and the bond; its `update_slave_arr` asks for a new slave array.
  pub bond_3ad_state_machine_handler :
      (ℕ → Bool) → (ℕ → Bool) → ℕ → Bond S → ℕ × List (ℕ × Lacpdu) × Bond S
  bond_3ad_state_machine_handler bound sent timer s =
      let s0 = begin_tick s in
      let (timer', due) = bond_agg_timer_advance timer in
      elim c.slaves [
        | [] ↦ (timer, [], s0)
        | first ∷ others ↦
            if due && not (bound first)
            then (timer', [], s0)
            else let s1 = if due then select_active c.flags c.mode c.slaves c.links s0 else s0 in
              let r = run_ports timer' bound sent c.slaves s1 in (timer', r.0, r.1)
      ]

  -- A LACPDU for the port `a`.
  unfoldable pub receive_lacpdu : ℕ → Lacpdu → Bond S → Bond S
  receive_lacpdu a l s = put_port a (ad_rx_machine c.ticks (some l) (s.world.ports a)) s

-- The kinds of frame, by `subtype` and, for a marker, `tlv_type`.
pub data Frame : Type 0 where
  lacpdu : Lacpdu → Frame
  marker_information : Frame
  marker_response : Frame
  marker_unknown : Frame
  unknown : Frame

-- The counters of a slave for markers and unknown frames; those of the bond count the same.
pub record Counters : Type 0 where
  pub marker_tx : ℕ
  pub marker_rx : ℕ
  pub marker_resp_tx : ℕ
  pub marker_resp_rx : ℕ
  pub marker_unknown_rx : ℕ
  pub lacpdu_unknown_rx : ℕ

abbrev pub counted : ℕ → ℕ
counted n = (n + 1) % 18446744073709551616

-- The two kinds of marker. Whether one is sent depends on whether a buffer is found for it.
pub data Marker : Type 0 where
  information response : Marker

unfoldable pub ad_marker_send : Bool → Marker → Counters → Bool × Counters
ad_marker_send found k n = if not found then (false, n) else elim k [
  | information ↦ (true, record n { marker_tx = counted n.marker_tx })
  | response ↦ (true, record n { marker_resp_tx = counted n.marker_resp_tx })
]

unfoldable pub ad_marker_info_received : Bool → Counters → Bool × Counters
ad_marker_info_received found n =
    ad_marker_send found response (record n { marker_rx = counted n.marker_rx })

unfoldable pub ad_marker_response_received : Counters → Counters
ad_marker_response_received n = record n { marker_resp_rx = counted n.marker_resp_rx }

-- Whether the frame is consumed, whether a marker response is sent, the counters and the bond.
pub bond_3ad_rx_indication :
    {S : Type 0}
    → Setup S
    → Bool
    → Bool
    → ℕ
    → Frame
    → Counters
    → Bond S
    → Bool × Bool × Counters × Bond S
bond_3ad_rx_indication c bound found a f n s = if not bound then (false, false, n, s) else elim f [
  | lacpdu l ↦ (true, false, n, receive_lacpdu c a l s)
  | marker_information ↦ let r = ad_marker_info_received found n in (true, r.0, r.1, s)
  | marker_response ↦ (true, false, ad_marker_response_received n, s)
  | marker_unknown ↦ (true, false, record n { marker_unknown_rx = counted n.marker_unknown_rx }, s)
  | unknown ↦ (false, false, record n { lacpdu_unknown_rx = counted n.lacpdu_unknown_rx }, s)
]
