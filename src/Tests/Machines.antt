-- ===== src/Tests/Machines.antt =====
-- servers/bond_3ad.c: the timers, the mux machine and the bandwidth at concrete inputs.
use linuxab.Prelude.{
  ℕ, zero, suc, ◌+◌, ◌*◌, ◌/◌, ◌≤◌, ◌≡◌, refl, Bool, true, false, not, List, [], ◌∷◌, ◌==◌,
  if◌then◌else◌, length, arith,
}
use linuxab.Bond.Port.{Port, ad_mux_attached, ad_mux_collecting, ad_periodic_tx}
use linuxab.Bond.Timers.{set_periodic, no_periodic, ad_tx_machine}
use linuxab.Bond.Timers.Rate.{sends, due, sends_bound}
use linuxab.Bond.Timers.Period.{periods, waiting_for, period, periods_lem}
use linuxab.Bond.Timers.Churn.{churn_ticks, verdict, tally, churn_ticks_lem}
use linuxab.Bond.Mux.{
  SlaveFlags, Aggregator, BondParams, World, ad_mux_machine, mux_next, mux_attached, mux_enter,
  enable_collecting, disable_distributing,
}
use linuxab.Bond.Mux.Keeps.{may_move, Shows, ad_mux_machine-Shows}
use linuxab.Tests.Ports.{near, far}

abbrev busy : ℕ → List (Bool × Port)
busy zero = []
busy (suc n) = (true, near) ∷ busy n

-- With ten ticks to the second a port that always has something to send does so four times in a second.
sends-busy : sends 10 0 (busy 10) ≡ 4
unfolding sends ad_tx_machine
sends-busy = refl

sends_bound_example : sends 10 0 (busy 10) * (10 / 3) + due 0 ≤ length (busy 10) + 10 / 3
sends_bound_example = sends_bound 10 0 (busy 10) (omega arith) (omega arith) (omega arith)

takes_part : no_periodic near ≡ false
unfolding no_periodic
takes_part = refl

periods_lem_example :
    ((periods 10 (suc 3) near).sm_periodic_state ≡ waiting_for true)
    × ((periods 10 (suc 3) near).ntt ≡ near.ntt)
    × (periods 10 (period true * 10) near
        ≡ record (set_periodic ad_periodic_tx 0 near) { ntt = true })
periods_lem_example =
    periods_lem 10 3 true near takes_part refl refl refl (omega arith) (omega arith)

abbrev shaken : Port
shaken = record near { sm_vars = record near.sm_vars { actor_churn = true } }

churn_ticks_lem_example :
    let q = churn_ticks 10 (suc (60 * 10)) shaken in
    (q.sm_churn_actor_state ≡ verdict true)
    × (q.sm_churn_partner_state ≡ verdict false)
    × (q.churn_actor_count ≡ tally true shaken.churn_actor_count)
    × (q.churn_partner_count ≡ tally false shaken.churn_partner_count)
churn_ticks_lem_example =
    churn_ticks_lem 10 true false shaken refl refl refl (omega arith) (omega arith)

-- A slave as its two flags, active and receiving.
abbrev pub slave_flags : SlaveFlags (Bool × Bool)
slave_flags = record {
  set_active = λ s. (true, true);
  set_inactive = λ s. (false, false);
  set_rx_enabled = λ s. (s.0, true);
  set_tx_disabled = λ s. (false, s.1);
  is_active_slave = λ s. s.0;
  is_rx_disabled = λ s. not s.1;
  is_up = λ s. true;
}

abbrev params : BondParams
params = record { coupled_control = false; broadcast_neighbor = false; select_timer = 0 }

abbrev lag : Aggregator
lag = record { is_active = true; partner_system = 22136; lag_ports = 1 ∷ 2 ∷ [] }

-- An attached port whose partner is in sync.
abbrev attached : Port
attached = record near {
  sm_mux_state = ad_mux_attached;
  partner_oper = record near.partner_oper {
    port_state = record near.partner_oper.port_state { synchronization = true };
  };
}

abbrev world : World (Bool × Bool)
world = record {
  ports = λ a. if a == 1 then attached else far;
  slaves = λ a. (false, false);
  update_slave_arr = false;
  rearmed = false;
}

ad_mux_machine-Shows_example :
    let q = (ad_mux_machine slave_flags params lag 10 1 world).ports 1 in
    (may_move (world.ports 1).sm_mux_state q.sm_mux_state ≡ true)
    × Shows q.sm_mux_state q.actor_oper_port_state
ad_mux_machine-Shows_example = ad_mux_machine-Shows slave_flags params lag 10 1 world (refl, refl)

goes_on :
    ((ad_mux_machine slave_flags params lag 10 1 world).ports 1).sm_mux_state ≡ ad_mux_collecting
unfolding ad_mux_machine mux_next mux_attached mux_enter enable_collecting disable_distributing
goes_on = refl
