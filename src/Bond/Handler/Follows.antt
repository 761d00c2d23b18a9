-- ===== src/Bond/Handler/Follows.antt =====
-- servers/bond_3ad.c: the machines of a port clear its selection where they change what the selection went
-- by.
use linuxab.Prelude.{
  ℕ, ◌≡◌, refl, ◌∙◌, inl, inr, Bool, true, false, not, ◌||◌, Option, none, some, Bool-cases, arith,
}
use linuxab.Bond.Port.{
  Port, Lacpdu, RxState, ad_rx_initialize, ad_rx_port_disabled, ad_rx_lacp_disabled, ad_rx_expired,
  ad_rx_defaulted, ad_rx_current, set_matched,
}
use linuxab.Bond.Record.{
  record_pdu, record_default, update_selected, update_default_selected, update_ntt, same_params,
  choose_matched,
}
use linuxab.Bond.Receive.{
  rx_timeout, rx_idle, rx_heard, rx_next, rx_initialize, rx_lacp_disabled, rx_expired, rx_defaulted,
  rx_current, rx_enter, count_rx, arrived, same_rx, ad_rx_machine,
}

-- A port that is selected was so, with the same key and the same partner.
abbrev pub Follows : Port → Port → Type 0
Follows q p =
    q.sm_vars.selected ≡ true
    → (p.sm_vars.selected ≡ true)
      × (q.actor_oper_port_key ≡ p.actor_oper_port_key)
      × (q.partner_oper.system ≡ p.partner_oper.system)
      × (q.partner_oper.system_priority ≡ p.partner_oper.system_priority)
      × (q.partner_oper.key ≡ p.partner_oper.key)

pub Follows-trans : (r q p : Port) → Follows r q → Follows q p → Follows r p
Follows-trans r q p h k e =
    let (s, a, b, c, d) = h e in
    let (s', a', b', c', d') = k s in (s', a ∙ a', b ∙ b', c ∙ c', d ∙ d')

next-Follows : (heard : Bool) (p : Port) → Follows (rx_next heard p) p
unfolding rx_next rx_heard rx_timeout rx_idle
next-Follows heard p e = ground arith

initialize-Follows : (p : Port) → Follows (rx_initialize p) p
unfolding rx_initialize record_default
initialize-Follows p e = absurd (ground arith)

lacp_disabled-Follows : (p : Port) → Follows (rx_lacp_disabled p) p
unfolding rx_lacp_disabled record_default
lacp_disabled-Follows p e = absurd (ground arith)

expired-Follows : (ticks : ℕ) (p : Port) → Follows (rx_expired ticks p) p
unfolding rx_expired
expired-Follows ticks p e = (e, refl, refl, refl, refl)

defaulted-Follows : (p : Port) → Follows (rx_defaulted p) p
unfolding rx_defaulted record_default update_default_selected same_params
defaulted-Follows p e = ground arith

current-Follows : (ticks : ℕ) (l : Lacpdu) (p : Port) → Follows (rx_current ticks l p) p
unfolding rx_current record_pdu update_selected update_ntt same_params choose_matched
current-Follows ticks l p e = ground arith

-- The second half of the machine in each state.
abbrev entered : ℕ → Option Lacpdu → Port → RxState → Port
entered ticks l p r = elim r [
  | ad_rx_initialize ↦ rx_initialize p
  | ad_rx_port_disabled ↦ set_matched false p
  | ad_rx_lacp_disabled ↦ rx_lacp_disabled p
  | ad_rx_expired ↦ rx_expired ticks p
  | ad_rx_defaulted ↦ rx_defaulted p
  | ad_rx_current ↦ elim l [ none ↦ p | some m ↦ rx_current ticks m p ]
]

entered-Follows :
    (ticks : ℕ) (l : Option Lacpdu) (p : Port) (r : RxState) → Follows (entered ticks l p r) p
entered-Follows ticks l p ad_rx_initialize = initialize-Follows p
entered-Follows ticks l p ad_rx_port_disabled = λ e. (e, refl, refl, refl, refl)
entered-Follows ticks l p ad_rx_lacp_disabled = lacp_disabled-Follows p
entered-Follows ticks l p ad_rx_expired = expired-Follows ticks p
entered-Follows ticks l p ad_rx_defaulted = defaulted-Follows p
entered-Follows ticks none p ad_rx_current = λ e. (e, refl, refl, refl, refl)
entered-Follows ticks (some m) p ad_rx_current = current-Follows ticks m p

enter-Follows : (ticks : ℕ) (l : Option Lacpdu) (p : Port) → Follows (rx_enter ticks l p) p
unfolding rx_enter
enter-Follows ticks l p = entered-Follows ticks l p p.sm_rx_state

count-Follows : (l : Option Lacpdu) (p : Port) → Follows (count_rx l p) p
unfolding count_rx
count-Follows none p = λ e. (e, refl, refl, refl, refl)
count-Follows (some m) p = λ e. (e, refl, refl, refl, refl)

pub ad_rx_machine-Follows :
    (ticks : ℕ) (l : Option Lacpdu) (p : Port) → Follows (ad_rx_machine ticks l p) p
unfolding ad_rx_machine
ad_rx_machine-Follows ticks l p =
    let q = rx_next (arrived l) (count_rx l p) in
    let h =
      Follows-trans q (count_rx l p) p (next-Follows (arrived l) (count_rx l p))
        (count-Follows l p) in
    elim (Bool-cases (not (same_rx q.sm_rx_state p.sm_rx_state) || arrived l)) [
      | inl t ↦ rw t (Follows-trans (rx_enter ticks l q) q p (enter-Follows ticks l q) h)
      | inr f ↦ rw f h
    ]
