-- ===== src/Bond/Receive/Records.antt =====
-- servers/bond_3ad.c: what ad_rx_machine takes from the LACPDU of another system, field by field.
use linuxab.Prelude.{
  ℕ, ◌≡◌, ◌≢◌, ◌⊎◌, ◌↔◌, refl, inl, inr, Bool, true, false, ◌&&◌, ◌||◌, not, some, if◌then◌else◌,
  Bool-cases, arith,
}
use linuxab.Bond.Port.{
  Params, Port, Lacpdu, ad_rx_current, ad_timer_to_ticks, ad_current_while_timer, same_bit,
  set_selected,
}
use linuxab.Bond.Record.{names_actor, choose_matched, same_params, record_pdu}
use linuxab.Bond.Receive.{count_rx, ad_rx_machine}
use linuxab.Bond.Receive.Effects.{IsListening, no_news, heard, ad_rx_machine-recorded}

-- The five numbers and the aggregation bit of two sets of parameters are the same.
abbrev pub Unchanged : Params → Params → Type 0
Unchanged a b =
    (a.port_number ≡ b.port_number)
    × (a.port_priority ≡ b.port_priority)
    × (a.system ≡ b.system)
    × (a.system_priority ≡ b.system_priority)
    × (a.key ≡ b.key)
    × (a.port_state.aggregation ≡ b.port_state.aggregation)

-- The sender of the LACPDU knows the five numbers of the port.
abbrev pub Knows : Lacpdu → Port → Type 0
Knows l p =
    (l.partner.port_number ≡ p.actor_port_number)
    × (l.partner.port_priority ≡ p.actor_port_priority)
    × (l.partner.system ≡ p.actor_system)
    × (l.partner.system_priority ≡ p.actor_system_priority)
    × (l.partner.key ≡ p.actor_oper_port_key)

-- And it knows four bits of the port's state.
abbrev pub KnowsAll : Lacpdu → Port → Type 0
KnowsAll l p =
    let s = l.partner.port_state in
    let t = p.actor_oper_port_state in
    Knows l p
    × (s.activity ≡ t.activity)
    × (s.timeout ≡ t.timeout)
    × (s.synchronization ≡ t.synchronization)
    × (s.aggregation ≡ t.aggregation)

-- The port matches: it is known as one that may aggregate or not, or its partner is an individual.
abbrev pub Matches : Lacpdu → Port → Type 0
Matches l p =
    (Knows l p × (l.partner.port_state.aggregation ≡ p.actor_oper_port_state.aggregation))
    ⊎ (l.actor.port_state.aggregation ≡ false)

same_bit-eq : (b c : Bool) → same_bit b c ≡ true → b ≡ c
same_bit-eq b c h = ground arith

eq-same_bit : (b c : Bool) → b ≡ c → same_bit b c ≡ true
eq-same_bit b c h = ground arith

names_actor-Knows : (l : Lacpdu) (p : Port) → (names_actor l p ≡ true) ↔ Knows l p
unfolding names_actor
names_actor-Knows l p = (
  (λ h. (ground arith, ground arith, ground arith, ground arith, ground arith)),
  (λ h. ground arith),
)

selected-Unchanged :
    (a b : Params) (s : Bool) → ((same_params a b && s) ≡ true) ↔ ((s ≡ true) × Unchanged a b)
unfolding same_params
selected-Unchanged a b s = (
  (λ h. (
    ground arith,
    (
      ground arith,
      ground arith,
      ground arith,
      ground arith,
      ground arith,
      same_bit-eq a.port_state.aggregation b.port_state.aggregation (ground arith),
    ),
  )),
  (λ h. ground arith),
)

matched-Matches :
    (l : Lacpdu) (p : Port)
    → (((names_actor l p
            && same_bit l.partner.port_state.aggregation p.actor_oper_port_state.aggregation)
          || not l.actor.port_state.aggregation)
        ≡ true)
      ↔ Matches l p
matched-Matches l p =
    let n = names_actor-Knows l p in
    let b = same_bit l.partner.port_state.aggregation p.actor_oper_port_state.aggregation in
    (
      (λ h. elim (Bool-cases l.actor.port_state.aggregation) [
        | inl t ↦ inl (
          n.0 (ground arith),
          same_bit-eq l.partner.port_state.aggregation p.actor_oper_port_state.aggregation
              (ground arith),
        )
        | inr f ↦ inr f
      ]),
      (λ h. elim h [
        | inl (known, same) ↦
            let k = n.1 known in
            let e =
              eq-same_bit l.partner.port_state.aggregation p.actor_oper_port_state.aggregation
                same in
            rw (k, e) refl
        | inr alone ↦ rw alone (ground arith)
      ]),
    )

ntt-KnowsAll :
    (l : Lacpdu) (p : Port) (b : Bool)
    → ((if no_news l p then b else true) ≡ false) ↔ ((b ≡ false) × KnowsAll l p)
ntt-KnowsAll l p b =
    let n = names_actor-Knows l p in
    let s = l.partner.port_state in
    let t = p.actor_oper_port_state in
    (
      (λ h. (
        ground arith,
        (
          n.0 (ground arith),
          same_bit-eq s.activity t.activity (ground arith),
          same_bit-eq s.timeout t.timeout (ground arith),
          same_bit-eq s.synchronization t.synchronization (ground arith),
          same_bit-eq s.aggregation t.aggregation (ground arith),
        ),
      )),
      (λ h.
          let k = h.1 in
          rw
            (
              n.1 (k.0),
              eq-same_bit s.activity t.activity (k.1),
              eq-same_bit s.timeout t.timeout (k.2),
              eq-same_bit s.synchronization t.synchronization (k.3),
              eq-same_bit s.aggregation t.aggregation (k.4),
            )
            (h.0)),
    )

-- A LACPDU of another system that reaches a listening port makes it current. Its sender's parameters
-- become those of the partner, in sync only when the port matches: when the sender is an individual, or
-- knows the port's five numbers and its aggregation bit. The port is neither defaulted nor expired; it is
-- selected exactly when it was and neither a number nor the aggregation bit of the partner has changed;
-- its own bit for sync stays as it was, and the timer is loaded for the timeout that it asks for. It has
-- nothing to send exactly when it had nothing and the sender knows its numbers and, of its state, its
-- activity, its timeout, its sync and its aggregation.
pub ad_rx_machine_records :
    (ticks : ℕ) (l : Lacpdu) (p : Port)
    → IsListening p
    → l.actor.system ≢ p.actor_system
    → let q = ad_rx_machine ticks (some l) p in
      (q.sm_rx_state ≡ ad_rx_current)
      × (q.partner_oper ≡ record l.actor {
        port_state = record l.actor.port_state {
          synchronization = q.sm_vars.matched && l.actor.port_state.synchronization;
        };
      })
      × ((q.sm_vars.matched ≡ true) ↔ Matches l p)
      × ((q.actor_oper_port_state.defaulted ≡ false) × (q.actor_oper_port_state.expired ≡ false))
      × ((q.sm_vars.selected ≡ true)
          ↔ ((p.sm_vars.selected ≡ true) × Unchanged l.actor p.partner_oper))
      × (q.actor_oper_port_state.synchronization ≡ p.actor_oper_port_state.synchronization)
      × (q.sm_rx_timer_counter
          ≡ ad_timer_to_ticks ticks ad_current_while_timer
              (if p.actor_oper_port_state.timeout then 1 else 0))
      × ((q.ntt ≡ false) ↔ ((p.ntt ≡ false) × KnowsAll l p))
unfolding count_rx record_pdu choose_matched same_params names_actor
ad_rx_machine_records ticks l p h other =
    let k = heard (count_rx (some l) p) in
    rw (ad_rx_machine-recorded ticks l p h other) (
      refl,
      refl,
      matched-Matches l k,
      (refl, refl),
      selected-Unchanged l.actor p.partner_oper p.sm_vars.selected,
      refl,
      refl,
      ntt-KnowsAll l (set_selected (same_params l.actor k.partner_oper && k.sm_vars.selected) k)
          p.ntt,
    )
