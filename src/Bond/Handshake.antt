-- ===== src/Bond/Handshake.antt =====
-- servers/bond_3ad.c: two ports that send each other the LACPDUs which each makes of itself.
use linuxab.Prelude.{ℕ, ◌≡◌, ◌≢◌, refl, sym, ap, true, ◌&&◌, ◌||◌, not, some, ◌==◌, arith}
use linuxab.Bond.Port.{Params, Port, Lacpdu, same_bit}
use linuxab.Bond.Record.{names_actor, record_pdu, choose_matched}
use linuxab.Bond.Receive.{count_rx, ad_rx_machine}
use linuxab.Bond.Receive.Effects.{IsListening, ad_rx_machine-recorded, recorded, same_bit_refl}
use linuxab.Bond.Timers.{update_lacpdu_from_port}

-- A port's partner is that other port, whatever either holds of the bit for sync.
pub record IsPartner (partner : Params) (q : Port) : Type 0 where
  pub system : partner.system ≡ q.actor_system
  pub system_priority : partner.system_priority ≡ q.actor_system_priority
  pub key : partner.key ≡ q.actor_oper_port_key
  pub port_number : partner.port_number ≡ q.actor_port_number
  pub port_priority : partner.port_priority ≡ q.actor_port_priority
  pub aggregation : partner.port_state.aggregation ≡ q.actor_oper_port_state.aggregation
  pub activity : partner.port_state.activity ≡ q.actor_oper_port_state.activity
  pub timeout : partner.port_state.timeout ≡ q.actor_oper_port_state.timeout

names_partner :
    (l : Lacpdu) (p : Port)
    → IsPartner l.partner p
    → (names_actor l p
        && same_bit l.partner.port_state.aggregation p.actor_oper_port_state.aggregation)
      ≡ true
unfolding names_actor
names_partner l p h =
    let eq : (n : ℕ) → (n == n) ≡ true = λ n. ground arith in
    rw (
      h.system,
      h.system_priority,
      h.key,
      h.port_number,
      h.port_priority,
      h.aggregation,
      eq p.actor_port_number,
      eq p.actor_port_priority,
      eq p.actor_system,
      eq p.actor_system_priority,
      eq p.actor_oper_port_key,
      same_bit_refl p.actor_oper_port_state.aggregation,
    )

-- What a listening port of one system makes of a port of another from the LACPDU that this one sends.
pub learns :
    (ticks : ℕ) (p q : Port)
    → IsListening q
    → p.actor_system ≢ q.actor_system
    → IsPartner (ad_rx_machine ticks (some (update_lacpdu_from_port p)) q).partner_oper p
unfolding update_lacpdu_from_port count_rx record_pdu choose_matched
learns ticks p q h other =
    rw (ad_rx_machine-recorded ticks (update_lacpdu_from_port p) q h other) (record {
      system = refl;
      system_priority = refl;
      key = refl;
      port_number = refl;
      port_priority = refl;
      aggregation = refl;
      activity = refl;
      timeout = refl;
    })

-- When a listening port has heard another of a different system that listens too, and answers with the
-- LACPDU that it now makes of itself, each has the other for its partner, and the one that is answered
-- finds itself matched: it takes the partner's word on whether that is in sync.
pub handshake_matched :
    (ticks : ℕ) (p q : Port)
    → IsListening p
    → IsListening q
    → p.actor_system ≢ q.actor_system
    → let q1 = ad_rx_machine ticks (some (update_lacpdu_from_port p)) q in
      let p1 = ad_rx_machine ticks (some (update_lacpdu_from_port q1)) p in
      IsPartner q1.partner_oper p
      × IsPartner p1.partner_oper q
      × (p1.sm_vars.matched ≡ true)
      × (p1.partner_oper.port_state.synchronization ≡ q.actor_oper_port_state.synchronization)
unfolding update_lacpdu_from_port count_rx record_pdu choose_matched names_actor
handshake_matched ticks p q hp hq other =
    let q1 = recorded ticks (update_lacpdu_from_port p) q in
    let l = update_lacpdu_from_port q1 in
    let answered : IsPartner l.partner p = record {
      system = refl;
      system_priority = refl;
      key = refl;
      port_number = refl;
      port_priority = refl;
      aggregation = refl;
      activity = refl;
      timeout = refl;
    } in
    let named = names_partner l p answered in
    rw
      (
        ad_rx_machine-recorded ticks (update_lacpdu_from_port p) q hq other,
        ad_rx_machine-recorded ticks l p hp (λ e. other (sym e)),
      )
      (
        answered,
        record {
          system = refl;
          system_priority = refl;
          key = refl;
          port_number = refl;
          port_priority = refl;
          aggregation = refl;
          activity = refl;
          timeout = refl;
        },
        ap (λ b. b || not q.actor_oper_port_state.aggregation) named,
        ap
            (λ b.
              (b || not q.actor_oper_port_state.aggregation)
              && q.actor_oper_port_state.synchronization)
            named,
      )
