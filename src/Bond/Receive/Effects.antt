-- ===== src/Bond/Receive/Effects.antt =====
-- servers/bond_3ad.c: what ad_rx_machine does with a LACPDU, with one of its own, and at a restart.
use linuxab.Prelude.{
  ℕ, ◌%◌, ◌≡◌, ◌≢◌, refl, ap, ◌∙◌, inl, inr, Bool, true, false, ◌&&◌, ◌||◌, not, Option, none, some,
  ◌==◌, if◌then◌else◌, Bool-cases, arith,
}
use linuxab.Bond.Port.{
  Params, Port, Lacpdu, ad_rx_initialize, ad_rx_port_disabled, ad_rx_current, ad_timer_to_ticks,
  ad_current_while_timer, set_selected, set_expired, same_bit,
}
use linuxab.Bond.Record.{
  names_actor, choose_matched, same_params, record_pdu, record_default, update_selected, update_ntt,
}
use linuxab.Bond.Receive.{
  set_rx_timer, same_rx, listens, rx_heard, rx_next, rx_current, rx_enter, rx_initialize, count_rx,
  ad_rx_machine,
}

-- A port that takes the LACPDUs that arrive.
pub record IsListening (p : Port) : Type 0 where
  pub steady : p.sm_vars.begins ≡ false
  pub enabled : p.is_enabled ≡ true
  pub open_state : listens p.sm_rx_state ≡ true

or_true : (b : Bool) → (b || true) ≡ true
or_true true = refl
or_true false = refl

pub update_selected_eq :
    (l : Lacpdu) (p : Port)
    → update_selected l p
      ≡ set_selected (same_params l.actor p.partner_oper && p.sm_vars.selected) p
unfolding update_selected
update_selected_eq l p = elim (Bool-cases (same_params l.actor p.partner_oper)) [
  | inl t ↦ rw t
  | inr f ↦ rw f
]

-- The tests of `__update_ntt`, which find no difference.
abbrev pub no_news : Lacpdu → Port → Bool
no_news l p =
    names_actor l p
    && (same_bit l.partner.port_state.activity p.actor_oper_port_state.activity
        && (same_bit l.partner.port_state.timeout p.actor_oper_port_state.timeout
            && (same_bit l.partner.port_state.synchronization
                  p.actor_oper_port_state.synchronization
                && same_bit l.partner.port_state.aggregation p.actor_oper_port_state.aggregation)))

update_ntt_eq :
    (l : Lacpdu) (p : Port)
    → update_ntt l p ≡ record p { ntt = if no_news l p then p.ntt else true }
unfolding update_ntt
update_ntt_eq l p = elim (Bool-cases (no_news l p)) [ inl t ↦ rw t | inr f ↦ rw f ]

rx_next_heard : (p : Port) → IsListening p → rx_next true p ≡ rx_heard p
unfolding rx_next
rx_next_heard p h = rw (h.steady, h.enabled, h.open_state)

pub ad_rx_machine_step :
    (ticks : ℕ) (l : Lacpdu) (p : Port)
    → IsListening p
    → ad_rx_machine ticks (some l) p ≡ rx_current ticks l (rx_heard (count_rx (some l) p))
unfolding ad_rx_machine rx_heard rx_enter count_rx
ad_rx_machine_step ticks l p h =
    let q = count_rx (some l) p in
    let heard : rx_next true q ≡ rx_heard q =
      rx_next_heard q
        (record { steady = h.steady; enabled = h.enabled; open_state = h.open_state }) in
    rw (heard, or_true (not (same_rx ad_rx_current p.sm_rx_state)))

-- `rx_heard` with its test put to the two bits that it decides.
abbrev pub heard : Port → Port
heard p =
    let b = same_rx p.sm_rx_state ad_rx_current in
    record p {
      sm_rx_state = ad_rx_current;
      sm_rx_timer_counter = 0;
      sm_vars = record p.sm_vars {
        actor_churn = if b then p.sm_vars.actor_churn else true;
        partner_churn = if b then p.sm_vars.partner_churn else true;
      };
    }

rx_heard_eq : (p : Port) → rx_heard p ≡ heard p
unfolding rx_heard
rx_heard_eq p = elim (Bool-cases (same_rx p.sm_rx_state ad_rx_current)) [
  | inl t ↦ rw t
  | inr f ↦ rw f
]

-- The port after the LACPDU `l` of another system.
abbrev pub recorded : ℕ → Lacpdu → Port → Port
recorded ticks l port =
    let p = heard (count_rx (some l) port) in
    let selected = set_selected (same_params l.actor p.partner_oper && p.sm_vars.selected) p in
    let q = record_pdu l (record selected { ntt = if no_news l selected then p.ntt else true }) in
    let short = if p.actor_oper_port_state.timeout then 1 else 0 in
    set_expired false (set_rx_timer (ad_timer_to_ticks ticks ad_current_while_timer short) q)

pub ad_rx_machine-recorded :
    (ticks : ℕ) (l : Lacpdu) (p : Port)
    → IsListening p
    → l.actor.system ≢ p.actor_system
    → ad_rx_machine ticks (some l) p ≡ recorded ticks l p
unfolding rx_current count_rx record_pdu choose_matched
ad_rx_machine-recorded ticks l p h other =
    let q = heard (count_rx (some l) p) in
    let test : (l.actor.system == p.actor_system) ≡ false = ground arith in
    ad_rx_machine_step ticks l p h
    ∙ ap (rx_current ticks l) (rx_heard_eq (count_rx (some l) p))
    ∙ rw
        (
          update_selected_eq l q,
          update_ntt_eq l
              (set_selected (same_params l.actor q.partner_oper && q.sm_vars.selected) q),
          test,
        )
        refl

pub same_bit_refl : (b : Bool) → same_bit b b ≡ true
same_bit_refl true = refl
same_bit_refl false = refl

same_params_refl :
    (a : Params) (b : Bool)
    → same_params a (record a { port_state = record a.port_state { synchronization = b } }) ≡ true
unfolding same_params
same_params_refl a b =
    let eq : (n : ℕ) → (n == n) ≡ true = λ n. ground arith in
    rw (
      eq a.port_number,
      eq a.port_priority,
      eq a.system,
      eq a.system_priority,
      eq a.key,
      same_bit_refl a.port_state.aggregation,
    )

-- A LACPDU that repeats the last one leaves the port's selection as it is.
pub ad_rx_machine_repeat :
    (ticks : ℕ) (l : Lacpdu) (p : Port)
    → IsListening p
    → l.actor.system ≢ p.actor_system
    → (ad_rx_machine ticks (some l) (ad_rx_machine ticks (some l) p)).sm_vars.selected
      ≡ (ad_rx_machine ticks (some l) p).sm_vars.selected
unfolding count_rx record_pdu choose_matched
ad_rx_machine_repeat ticks l p h other =
    let q = recorded ticks l p in
    let again : IsListening q = record {
      steady = h.steady;
      enabled = h.enabled;
      open_state = refl;
    } in
    rw (
      ad_rx_machine-recorded ticks l p h other,
      ad_rx_machine-recorded ticks l q again other,
      same_params_refl l.actor (q.sm_vars.matched && l.actor.port_state.synchronization),
    )

pub ad_rx_machine_loopback :
    (ticks : ℕ) (l : Lacpdu) (p : Port)
    → IsListening p
    → l.actor.system ≡ p.actor_system
    → ad_rx_machine ticks (some l) p ≡ heard (count_rx (some l) p)
unfolding rx_current count_rx
ad_rx_machine_loopback ticks l p h own =
    let test : (l.actor.system == p.actor_system) ≡ true = ground arith in
    ad_rx_machine_step ticks l p h
    ∙ ap (rx_current ticks l) (rx_heard_eq (count_rx (some l) p))
    ∙ rw test refl

pub record IsRestarted (p q : Port) : Type 0 where
  pub disabled : q.sm_rx_state ≡ ad_rx_port_disabled
  pub unselected : q.sm_vars.selected ≡ false
  pub unmatched : q.sm_vars.matched ≡ false
  pub admin : q.partner_oper ≡ p.partner_admin
  pub default : q.actor_oper_port_state.defaulted ≡ true
  pub live : q.actor_oper_port_state.expired ≡ false
  pub duplex : q.sm_vars.lacp_enabled ≡ not (p.actor_oper_port_key % 2 == 0)
  pub churned : (q.sm_vars.actor_churn ≡ true) × (q.sm_vars.partner_churn ≡ true)

-- A port with AD_PORT_BEGIN whose machine is not in `ad_rx_initialize` goes through that state at once,
-- with a LACPDU or without: its partner is the administrative one, it is unselected, and LACP is
-- on exactly when the port's key says full duplex.
pub ad_rx_machine_restarts :
    (ticks : ℕ) (lacpdu : Option Lacpdu) (p : Port)
    → p.sm_vars.begins ≡ true
    → same_rx ad_rx_initialize p.sm_rx_state ≡ false
    → IsRestarted p (ad_rx_machine ticks lacpdu p)
unfolding ad_rx_machine rx_next rx_enter rx_initialize record_default count_rx
ad_rx_machine_restarts ticks none p b r =
    rw (b, r)
      (record {
        disabled = refl;
        unselected = refl;
        unmatched = refl;
        admin = refl;
        default = refl;
        live = refl;
        duplex = refl;
        churned = (refl, refl);
      })
ad_rx_machine_restarts ticks (some l) p b r =
    rw (b, r)
      (record {
        disabled = refl;
        unselected = refl;
        unmatched = refl;
        admin = refl;
        default = refl;
        live = refl;
        duplex = refl;
        churned = (refl, refl);
      })
