-- ===== src/Bond/Receive/Silence.antt =====
-- servers/bond_3ad.c: ad_rx_machine over ticks at which no LACPDU arrives.
use linuxab.Prelude.{
  ℕ, zero, suc, ◌+◌, ◌-◌, ◌*◌, ◌%◌, ◌<◌, ◌≡◌, ◌≢◌, refl, ap, ◌∙◌, ◌⊎◌, inl, inr, true, false, none,
  some, arith, Bool-cases,
}
use linuxab.Bond.Port.{
  Port, Lacpdu, ad_rx_expired, ad_rx_defaulted, ad_rx_current, ad_timer_to_ticks, expires,
  ad_rx_port_disabled, ad_rx_lacp_disabled, ad_rx_initialize,
}
use linuxab.Bond.Record.{same_params, record_default, update_default_selected}
use linuxab.Bond.Receive.{
  RxState, set_rx_state, set_rx_timer, same_rx, listens, rx_next, rx_idle, rx_timeout, rx_enter,
  rx_expired, rx_defaulted, count_rx, ad_rx_machine,
}
use linuxab.Bond.Receive.Effects.{IsListening, heard, ad_rx_machine_loopback}

-- `n` ticks without a LACPDU.
pub silence : ℕ → ℕ → Port → Port
silence ticks zero p = p
silence ticks (suc n) p = silence ticks n (ad_rx_machine ticks none p)

listens-cases :
    (r : RxState)
    → listens r ≡ true
    → (r ≡ ad_rx_expired) ⊎ ((r ≡ ad_rx_defaulted) ⊎ (r ≡ ad_rx_current))
listens-cases ad_rx_initialize h = ground arith
listens-cases ad_rx_port_disabled h = ground arith
listens-cases ad_rx_lacp_disabled h = ground arith
listens-cases ad_rx_expired h = inl refl
listens-cases ad_rx_defaulted h = inr (inl refl)
listens-cases ad_rx_current h = inr (inr refl)

same_rx_refl : (r : RxState) → same_rx r r ≡ true
same_rx_refl ad_rx_initialize = refl
same_rx_refl ad_rx_port_disabled = refl
same_rx_refl ad_rx_lacp_disabled = refl
same_rx_refl ad_rx_expired = refl
same_rx_refl ad_rx_defaulted = refl
same_rx_refl ad_rx_current = refl

rx_idle-listens : (p : Port) → listens p.sm_rx_state ≡ true → rx_idle p ≡ p
unfolding rx_idle
rx_idle-listens p h = elim (listens-cases p.sm_rx_state h) [
  | inl e ↦ rw e
  | inr (inl e) ↦ rw e
  | inr (inr e) ↦ rw e
]

rx_next_waits :
    (p : Port)
    → IsListening p
    → p.sm_rx_timer_counter ≢ 1
    → rx_next false p ≡ set_rx_timer (p.sm_rx_timer_counter - 1) p
unfolding rx_next
rx_next_waits p h k =
    let t : expires p.sm_rx_timer_counter ≡ false = ground arith in
    let i = rx_idle-listens (set_rx_timer (p.sm_rx_timer_counter - 1) p) h.open_state in
    let s = h.steady in let e = h.enabled in ground arith

-- A tick at which the timer is off, or does not yet run out.
waits :
    (ticks : ℕ) (p : Port)
    → IsListening p
    → p.sm_rx_timer_counter ≢ 1
    → ad_rx_machine ticks none p ≡ set_rx_timer (p.sm_rx_timer_counter - 1) p
unfolding ad_rx_machine count_rx
waits ticks p h k = rw (rx_next_waits p h k, same_rx_refl p.sm_rx_state) refl

runs_out_current :
    (ticks : ℕ) (p : Port)
    → IsListening p
    → p.sm_rx_timer_counter ≡ 1
    → p.sm_rx_state ≡ ad_rx_current
    → ad_rx_machine ticks none p ≡ rx_expired ticks (set_rx_state ad_rx_expired (set_rx_timer 0 p))
unfolding ad_rx_machine count_rx rx_next rx_timeout rx_enter
runs_out_current ticks p h k e = rw (h.steady, h.enabled, k, e) refl

runs_out_expired :
    (ticks : ℕ) (p : Port)
    → IsListening p
    → p.sm_rx_timer_counter ≡ 1
    → p.sm_rx_state ≡ ad_rx_expired
    → ad_rx_machine ticks none p ≡ rx_defaulted (set_rx_state ad_rx_defaulted (set_rx_timer 0 p))
unfolding ad_rx_machine count_rx rx_next rx_timeout rx_enter
runs_out_expired ticks p h k e = rw (h.steady, h.enabled, k, e) refl

-- The timer is counted down by one at each tick before it runs out.
silence_waits :
    (ticks n : ℕ) (p : Port)
    → IsListening p
    → n < p.sm_rx_timer_counter
    → silence ticks n p ≡ set_rx_timer (p.sm_rx_timer_counter - n) p
unfolding silence
silence_waits ticks zero p h k =
    let e : p.sm_rx_timer_counter ≡ p.sm_rx_timer_counter - 0 = omega arith in
    ap (λ k'. set_rx_timer k' p) e
silence_waits ticks (suc n) p h k =
    let q = set_rx_timer (p.sm_rx_timer_counter - 1) p in
    let rest =
      silence_waits ticks n q
        (record { steady = h.steady; enabled = h.enabled; open_state = h.open_state })
        (omega arith) in
    let e : p.sm_rx_timer_counter - 1 - n ≡ p.sm_rx_timer_counter - suc n = omega arith in
    ap (silence ticks n) (waits ticks p h (omega arith)) ∙ rest ∙ ap (λ k'. set_rx_timer k' p) e

silence-add :
    (ticks m n : ℕ) (p : Port) → silence ticks (m + n) p ≡ silence ticks n (silence ticks m p)
unfolding silence
silence-add ticks zero n p = let e : 0 + n ≡ n = omega arith in ap (λ k. silence ticks k p) e
silence-add ticks (suc m) n p =
    let e : suc m + n ≡ suc (m + n) = omega arith in
    ap (λ k. silence ticks k p) e ∙ silence-add ticks m n (ad_rx_machine ticks none p)

-- With its timer off, a port stays as it is.
silence_off :
    (ticks n : ℕ) (p : Port) → IsListening p → p.sm_rx_timer_counter ≡ 0 → silence ticks n p ≡ p
unfolding silence
silence_off ticks zero p h k = refl
silence_off ticks (suc n) p h k =
    ap (silence ticks n)
      (waits ticks p h (omega arith) ∙ ap (λ k'. set_rx_timer k' p) (omega arith))
    ∙ silence_off ticks n p h k

-- The port when the timer of `ad_rx_current`, and then that of `ad_rx_expired`, has run out.
abbrev gone : ℕ → Port → Port
gone ticks p = rx_expired ticks (set_rx_state ad_rx_expired (set_rx_timer 0 p))

abbrev given_up : Port → Port
given_up p = rx_defaulted (set_rx_state ad_rx_defaulted (set_rx_timer 0 p))

silence_last :
    (ticks n : ℕ) (p : Port)
    → silence ticks (suc n) p ≡ ad_rx_machine ticks none (silence ticks n p)
unfolding silence
silence_last ticks n p =
    let e : suc n ≡ n + 1 = omega arith in ap (λ k. silence ticks k p) e ∙ silence-add ticks n 1 p

silence_current :
    (ticks n : ℕ) (p : Port)
    → IsListening p
    → p.sm_rx_state ≡ ad_rx_current
    → p.sm_rx_timer_counter ≡ suc n
    → silence ticks (suc n) p ≡ gone ticks p
silence_current ticks n p h s k =
    let e : p.sm_rx_timer_counter - n ≡ 1 = omega arith in
    silence_last ticks n p
    ∙ ap (ad_rx_machine ticks none)
        (silence_waits ticks n p h (omega arith) ∙ ap (λ k'. set_rx_timer k' p) e)
    ∙ runs_out_current ticks (set_rx_timer 1 p)
        (record { steady = h.steady; enabled = h.enabled; open_state = h.open_state }) refl s

silence_expired :
    (ticks n : ℕ) (p : Port)
    → IsListening p
    → p.sm_rx_state ≡ ad_rx_expired
    → p.sm_rx_timer_counter ≡ suc n
    → silence ticks (suc n) p ≡ given_up p
silence_expired ticks n p h s k =
    let e : p.sm_rx_timer_counter - n ≡ 1 = omega arith in
    silence_last ticks n p
    ∙ ap (ad_rx_machine ticks none)
        (silence_waits ticks n p h (omega arith) ∙ ap (λ k'. set_rx_timer k' p) e)
    ∙ runs_out_expired ticks (set_rx_timer 1 p)
        (record { steady = h.steady; enabled = h.enabled; open_state = h.open_state }) refl s

given_up_fields :
    (p : Port)
    → ((given_up p).sm_rx_state ≡ ad_rx_defaulted)
      × ((given_up p).partner_oper ≡ p.partner_admin)
      × ((given_up p).actor_oper_port_state.defaulted ≡ true)
      × ((given_up p).actor_oper_port_state.expired ≡ false)
unfolding rx_defaulted record_default update_default_selected
given_up_fields p = elim (Bool-cases (same_params p.partner_admin p.partner_oper)) [
  | inl t ↦ rw t (refl, refl, refl, refl)
  | inr f ↦ rw f (refl, refl, refl, refl)
]

silence_both :
    (ticks k : ℕ) (p : Port)
    → IsListening p
    → p.sm_rx_state ≡ ad_rx_current
    → p.sm_rx_timer_counter ≡ suc k
    → 0 < ticks
    → 3 * ticks < 65536
    → silence ticks (suc k + 3 * ticks) p ≡ given_up (gone ticks p)
unfolding rx_expired ad_timer_to_ticks
silence_both ticks k p h s e pos_ticks small =
    let m : 3 * ticks ≡ suc (3 * ticks - 1) = omega arith in
    let timer : (3 * ticks) % 65536 ≡ suc (3 * ticks - 1) = omega arith in
    silence-add ticks (suc k) (3 * ticks) p
    ∙ ap (silence ticks (3 * ticks)) (silence_current ticks k p h s e)
    ∙ ap (λ j. silence ticks j (gone ticks p)) m
    ∙ silence_expired ticks (3 * ticks - 1) (gone ticks p)
        (record { steady = h.steady; enabled = h.enabled; open_state = refl }) refl timer

-- A listening current port whose timer stands at `k`, and that no LACPDU reaches, is current at each
-- tick before the `k`th, where it is expired with the partner out of sync, and after the three
-- seconds of the short timeout it is defaulted, with the administrative parameters for its partner. A
-- second has a tick or more, and three fit the counter.
pub silence_lem :
    (ticks n k : ℕ) (p : Port)
    → IsListening p
    → p.sm_rx_state ≡ ad_rx_current
    → p.sm_rx_timer_counter ≡ k
    → n < k
    → 0 < ticks
    → 3 * ticks < 65536
    → ((silence ticks n p).sm_rx_state ≡ ad_rx_current)
      × ((silence ticks k p).sm_rx_state ≡ ad_rx_expired)
      × ((silence ticks k p).partner_oper.port_state.synchronization ≡ false)
      × ((silence ticks k p).actor_oper_port_state.expired ≡ true)
      × ((silence ticks (k + 3 * ticks) p).sm_rx_state ≡ ad_rx_defaulted)
      × ((silence ticks (k + 3 * ticks) p).partner_oper ≡ p.partner_admin)
      × ((silence ticks (k + 3 * ticks) p).actor_oper_port_state.defaulted ≡ true)
unfolding rx_expired
silence_lem ticks n zero p h s e lt pos_ticks small = absurd (omega arith)
silence_lem ticks n (suc k) p h s e lt pos_ticks small =
    let f = given_up_fields (gone ticks p) in
    rw
      (
        silence_waits ticks n p h (omega arith),
        silence_current ticks k p h s e,
        silence_both ticks k p h s e pos_ticks small,
      )
      (s, refl, refl, refl, f.0, f.1, f.2)

-- A LACPDU of its own that reaches a listening port leaves it current with its timer off, and from
-- then on no silence, however long, makes it expire.
pub loopback_silence :
    (ticks n : ℕ) (l : Lacpdu) (p : Port)
    → IsListening p
    → l.actor.system ≡ p.actor_system
    → ((silence ticks n (ad_rx_machine ticks (some l) p)).sm_rx_state ≡ ad_rx_current)
      × ((silence ticks n (ad_rx_machine ticks (some l) p)).sm_rx_timer_counter ≡ 0)
      × ((silence ticks n (ad_rx_machine ticks (some l) p)).partner_oper ≡ p.partner_oper)
      × ((silence ticks n (ad_rx_machine ticks (some l) p)).sm_vars.selected ≡ p.sm_vars.selected)
unfolding count_rx
loopback_silence ticks n l p h own =
    let q = heard (count_rx (some l) p) in
    let still : silence ticks n q ≡ q =
      silence_off ticks n q (record { steady = h.steady; enabled = h.enabled; open_state = refl })
        refl in
    rw (ad_rx_machine_loopback ticks l p h own, still) (refl, refl, refl, refl)
