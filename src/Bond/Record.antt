-- ===== src/Bond/Record.antt =====
-- servers/bond_3ad.c: what a port takes from a received LACPDU, the helpers of the receive machine.
use linuxab.Prelude.{Bool, true, false, ◌&&◌, ◌||◌, not, ◌==◌, if◌then◌else◌}
use linuxab.Bond.Port.{Params, Port, Lacpdu, set_selected, set_matched, same_bit}

-- The five numbers of the partner in a LACPDU are those of the port.
unfoldable pub names_actor : Lacpdu → Port → Bool
names_actor lacpdu p =
    (lacpdu.partner.port_number == p.actor_port_number)
    && ((lacpdu.partner.port_priority == p.actor_port_priority)
        && ((lacpdu.partner.system == p.actor_system)
            && ((lacpdu.partner.system_priority == p.actor_system_priority)
                && (lacpdu.partner.key == p.actor_oper_port_key))))

unfoldable pub choose_matched : Lacpdu → Port → Port
choose_matched lacpdu p =
    set_matched
      ((names_actor lacpdu p
          && same_bit lacpdu.partner.port_state.aggregation p.actor_oper_port_state.aggregation)
        || not lacpdu.actor.port_state.aggregation)
      p

unfoldable pub record_pdu : Lacpdu → Port → Port
record_pdu lacpdu port =
    let p = choose_matched lacpdu port in
    record p {
      partner_oper = record lacpdu.actor {
        port_state = record lacpdu.actor.port_state {
          synchronization = p.sm_vars.matched && lacpdu.actor.port_state.synchronization;
        };
      };
      actor_oper_port_state = record p.actor_oper_port_state { defaulted = false };
    }

unfoldable pub record_default : Port → Port
record_default p = record p {
  partner_oper = p.partner_admin;
  actor_oper_port_state = record p.actor_oper_port_state { defaulted = true };
}

-- The tests of `__update_selected` and of `__update_default_selected`, which find no difference.
unfoldable pub same_params : Params → Params → Bool
same_params a b =
    (a.port_number == b.port_number)
    && ((a.port_priority == b.port_priority)
        && ((a.system == b.system)
            && ((a.system_priority == b.system_priority)
                && ((a.key == b.key)
                    && same_bit a.port_state.aggregation b.port_state.aggregation))))

unfoldable pub update_selected : Lacpdu → Port → Port
update_selected lacpdu p =
    if same_params lacpdu.actor p.partner_oper then p else set_selected false p

unfoldable pub update_default_selected : Port → Port
update_default_selected p =
    if same_params p.partner_admin p.partner_oper then p else set_selected false p

unfoldable pub update_ntt : Lacpdu → Port → Port
update_ntt lacpdu p =
    if names_actor lacpdu p
      && (same_bit lacpdu.partner.port_state.activity p.actor_oper_port_state.activity
          && (same_bit lacpdu.partner.port_state.timeout p.actor_oper_port_state.timeout
              && (same_bit lacpdu.partner.port_state.synchronization
                    p.actor_oper_port_state.synchronization
                  && same_bit lacpdu.partner.port_state.aggregation
                      p.actor_oper_port_state.aggregation)))
    then p
    else record p { ntt = true }
