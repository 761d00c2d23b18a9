-- ===== src/Bond/Mux.antt =====
-- servers/bond_3ad.c: ad_mux_machine, which attaches a port to its aggregator and opens it for frames.
-- The machine reads and writes the other ports of the aggregator, so that the ports are a function of
-- their address. What the flags of a slave are is for bonding.h, which the tree does not hold: a record
-- of the functions that the machine calls.
pub mod Keeps
pub mod Ready
use linuxab.Prelude.{
  ℕ, ◌+◌, ◌-◌, ◌*◌, ◌%◌, Bool, true, false, ◌&&◌, ◌||◌, not, List, [], ◌∷◌, ◌==◌, if◌then◌else◌,
}
use linuxab.Bond.Port.{
  Vars, LacpState, Params, Port, MuxState, ad_mux_detached, ad_mux_waiting, ad_mux_attached,
  ad_mux_collecting, ad_mux_distributing, ad_mux_collecting_distributing, ad_timer_to_ticks,
  ad_wait_while_timer, expires,
}

-- bond_set_slave_active_flags and its like, bond_is_active_slave, bond_is_slave_rx_disabled, and whether the
-- slave's link is up and the slave is.
pub record SlaveFlags (S : Type 0) : Type 0 where
  pub set_active : S → S
  pub set_inactive : S → S
  pub set_rx_enabled : S → S
  pub set_tx_disabled : S → S
  pub is_active_slave : S → Bool
  pub is_rx_disabled : S → Bool
  pub is_up : S → Bool

-- `partner_system` is 0 for the address of zeros; `select_timer` is agg_select_timer.
pub record Aggregator : Type 0 where
  pub is_active : Bool
  pub partner_system : ℕ
  pub lag_ports : List ℕ

pub record BondParams : Type 0 where
  pub coupled_control : Bool
  pub broadcast_neighbor : Bool
  pub select_timer : ℕ

pub record World (S : Type 0) : Type 0 where
  pub ports : ℕ → Port
  pub slaves : ℕ → S
  pub update_slave_arr : Bool
  pub rearmed : Bool

abbrev pub set_port : {S : Type 0} → ℕ → Port → World S → World S
set_port a p w = record w { ports = λ b. if a == b then p else w.ports b }

abbrev pub set_slave : {S : Type 0} → ℕ → S → World S → World S
set_slave a s w = record w { slaves = λ b. if a == b then s else w.slaves b }

abbrev pub set_mux : MuxState → Port → Port
set_mux m p = record p { sm_mux_state = m }

abbrev pub set_ready : Bool → Port → Port
set_ready b p = record p { sm_vars = record p.sm_vars { ready = b } }

abbrev pub set_ready_n : Bool → Port → Port
set_ready_n b p = record p { sm_vars = record p.sm_vars { ready_n = b } }

-- The bits `collecting`, `distributing` and `synchronization` of the port's own state.
abbrev pub set_bits : Bool → Bool → Bool → Port → Port
set_bits c d s p = record p {
  actor_oper_port_state = record p.actor_oper_port_state {
    collecting = c;
    distributing = d;
    synchronization = s;
  };
}

abbrev pub same_mux : MuxState → MuxState → Bool
same_mux ad_mux_detached ad_mux_detached = true
same_mux ad_mux_waiting ad_mux_waiting = true
same_mux ad_mux_attached ad_mux_attached = true
same_mux ad_mux_collecting ad_mux_collecting = true
same_mux ad_mux_distributing ad_mux_distributing = true
same_mux ad_mux_collecting_distributing ad_mux_collecting_distributing = true
same_mux _ _ = false

unfoldable pub agg_ports_are_ready : List ℕ → (ℕ → Port) → Bool
agg_ports_are_ready [] ports = true
agg_ports_are_ready (b ∷ bs) ports = (ports b).sm_vars.ready_n && agg_ports_are_ready bs ports

unfoldable pub set_agg_ports_ready : List ℕ → Bool → (ℕ → Port) → ℕ → Port
set_agg_ports_ready [] v ports = ports
set_agg_ports_ready (b ∷ bs) v ports =
    set_agg_ports_ready bs v (λ c. if b == c then set_ready v (ports b) else ports c)

-- `__set_agg_ports_ready(aggregator, __agg_ports_are_ready(aggregator))`
unfoldable pub share_ready : {S : Type 0} → Aggregator → World S → World S
share_ready agg w = record w {
  ports = set_agg_ports_ready agg.lag_ports (agg_ports_are_ready agg.lag_ports w.ports) w.ports;
}

-- The test of `__port_move_to_attached_state`.
unfoldable pub moves_to_attached : Port → Bool
moves_to_attached p =
    (not p.sm_vars.selected || p.sm_vars.standby)
    || (not p.partner_oper.port_state.synchronization
        || not p.actor_oper_port_state.synchronization)

module _ {S : Type 0} (flags : SlaveFlags S) (bond : BondParams) (agg : Aggregator)
    (ticks : ℕ) where
  unfoldable pub enable_port : ℕ → World S → World S
  enable_port a w =
      if flags.is_up (w.slaves a) then set_slave a (flags.set_active (w.slaves a)) w else w

  unfoldable pub enable_collecting : ℕ → World S → World S
  enable_collecting a w =
      if agg.is_active && flags.is_up (w.slaves a)
      then set_slave a (flags.set_rx_enabled (w.slaves a)) w
      else w

  unfoldable pub disable_distributing : ℕ → World S → World S
  disable_distributing a w =
      if agg.partner_system == 0
      then w
      else record (set_slave a (flags.set_tx_disabled (w.slaves a)) w) { update_slave_arr = true }

  unfoldable pub enable_collecting_distributing : ℕ → World S → World S
  enable_collecting_distributing a w =
      if agg.is_active
      then record (enable_port a w) {
        update_slave_arr = true;
        rearmed = w.rearmed || bond.broadcast_neighbor;
      }
      else w

  unfoldable pub disable_collecting_distributing : ℕ → World S → World S
  disable_collecting_distributing a w =
      if agg.partner_system == 0
      then w
      else record (set_slave a (flags.set_inactive (w.slaves a)) w) { update_slave_arr = true }

  -- The port gives up its READY_N, and with it the aggregator's ports their READY.
  unfoldable pub detach : ℕ → World S → World S
  detach a w =
      let w1 = share_ready agg (set_port a (set_ready_n false (w.ports a)) w) in
      set_port a (set_mux ad_mux_detached (w1.ports a)) w1

  unfoldable pub mux_waiting : ℕ → World S → World S
  mux_waiting a w =
      let p = w.ports a in
      let n = p.sm_mux_timer_counter in
      let counted = record p { sm_mux_timer_counter = n - 1 } in
      let w1 =
        share_ready agg (set_port a (if expires n then set_ready_n true counted else counted) w) in
      let q = w1.ports a in
      if not p.sm_vars.selected
      then detach a w
      else if q.sm_vars.ready && (q.sm_mux_timer_counter == 0)
      then set_port a (set_mux ad_mux_attached q) w1
      else w1

  unfoldable pub mux_attached : ℕ → World S → World S
  mux_attached a w =
      let p = w.ports a in
      if p.sm_vars.selected
        && (p.partner_oper.port_state.synchronization && (bond.select_timer == 0))
      then if agg.is_active
        then set_port a
            (set_mux
              (if bond.coupled_control then ad_mux_collecting_distributing else ad_mux_collecting)
              p)
            w
        else w
      else if not p.sm_vars.selected || p.sm_vars.standby
      then detach a w
      else if agg.is_active
      then set_port a
          (record p {
            actor_oper_port_state = record p.actor_oper_port_state { synchronization = true };
          })
          w
      else w

  -- A port of an active aggregator that is not yet enabled.
  unfoldable pub enable_late : ℕ → World S → World S
  enable_late a w =
      if agg.is_active && not (flags.is_active_slave (w.slaves a))
      then record (enable_port a w) { update_slave_arr = true }
      else w

  unfoldable pub mux_collecting : ℕ → World S → World S
  mux_collecting a w =
      let p = w.ports a in
      if moves_to_attached p
      then set_port a (set_mux ad_mux_attached p) w
      else if p.sm_vars.selected
          && (p.partner_oper.port_state.synchronization && p.partner_oper.port_state.collecting)
      then set_port a (set_mux ad_mux_distributing p) w
      else if agg.is_active && flags.is_rx_disabled (w.slaves a)
      then record (enable_collecting a w) { update_slave_arr = true }
      else w

  unfoldable pub mux_distributing : ℕ → World S → World S
  mux_distributing a w =
      let p = w.ports a in
      if moves_to_attached p || not p.partner_oper.port_state.collecting
      then set_port a (set_mux ad_mux_collecting p) w
      else enable_late a w

  unfoldable pub mux_next : ℕ → World S → World S
  mux_next a w =
      let p = w.ports a in
      if p.sm_vars.begins then set_port a (set_mux ad_mux_detached p) w else elim p.sm_mux_state [
        | ad_mux_detached ↦
            if p.sm_vars.selected || p.sm_vars.standby
            then set_port a (set_mux ad_mux_waiting p) w
            else w
        | ad_mux_waiting ↦ mux_waiting a w
        | ad_mux_attached ↦ mux_attached a w
        | ad_mux_collecting_distributing ↦
            if moves_to_attached p
            then set_port a (set_mux ad_mux_attached p) w
            else enable_late a w
        | ad_mux_collecting ↦ mux_collecting a w
        | ad_mux_distributing ↦ mux_distributing a w
      ]

  unfoldable pub mux_enter : ℕ → World S → World S
  mux_enter a w =
      let p = w.ports a in
      let asks = record p { ntt = true } in
      elim p.sm_mux_state [
        | ad_mux_detached ↦
            disable_collecting_distributing a (set_port a (set_bits false false false asks) w)
        | ad_mux_waiting ↦
            set_port a
              (record p { sm_mux_timer_counter = ad_timer_to_ticks ticks ad_wait_while_timer 0 }) w
        | ad_mux_attached ↦
            disable_collecting_distributing a
              (set_port a (set_bits false false agg.is_active asks) w)
        | ad_mux_collecting_distributing ↦
            enable_collecting_distributing a (set_port a (set_bits true true true asks) w)
        | ad_mux_collecting ↦
            disable_distributing a
              (enable_collecting a (set_port a (set_bits true false true asks) w))
        | ad_mux_distributing ↦
            enable_collecting_distributing a
              (set_port a (set_bits p.actor_oper_port_state.collecting true true p) w)
      ]

  unfoldable pub ad_mux_machine : ℕ → World S → World S
  ad_mux_machine a w =
      let w1 = mux_next a w in
      if same_mux (w1.ports a).sm_mux_state (w.ports a).sm_mux_state then w1 else mux_enter a w1
