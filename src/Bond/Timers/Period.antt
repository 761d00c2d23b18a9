-- ===== src/Bond/Timers/Period.antt =====
-- servers/bond_3ad.c: the rhythm of ad_periodic_machine.
use linuxab.Prelude.{
  ℕ, zero, suc, ◌+◌, ◌-◌, ◌*◌, ◌%◌, ◌<◌, ◌≡◌, refl, ap, ◌∙◌, Bool, true, false, arith,
}
use linuxab.Bond.Port.{
  Port, PeriodicState, ad_fast_periodic, ad_slow_periodic, ad_periodic_tx, ad_timer_to_ticks,
}
use linuxab.Bond.Timers.{
  set_periodic, no_periodic, periodic_runs, periodic_off, periodic_next, periodic_enter,
  ad_periodic_machine,
}

pub periods : ℕ → ℕ → Port → Port
periods ticks zero p = p
periods ticks (suc n) p = periods ticks n (ad_periodic_machine ticks p)

-- The state in which a port waits for a partner with that timeout.
abbrev pub waiting_for : Bool → PeriodicState
waiting_for true = ad_fast_periodic
waiting_for false = ad_slow_periodic

-- AD_FAST_PERIODIC_TIME and AD_SLOW_PERIODIC_TIME, in seconds.
abbrev pub period : Bool → ℕ
period true = 1
period false = 30

tick_waits :
    (ticks : ℕ) (b : Bool) (p : Port)
    → no_periodic p ≡ false
    → p.partner_oper.port_state.timeout ≡ b
    → p.sm_periodic_state ≡ waiting_for b
    → 1 < p.sm_periodic_timer_counter
    → ad_periodic_machine ticks p ≡ set_periodic (waiting_for b) (p.sm_periodic_timer_counter - 1) p
unfolding ad_periodic_machine periodic_next periodic_runs
tick_waits ticks true p on t s k = ground arith
tick_waits ticks false p on t s k = ground arith

tick_sends :
    (ticks : ℕ) (b : Bool) (p : Port)
    → no_periodic p ≡ false
    → p.sm_periodic_state ≡ waiting_for b
    → p.sm_periodic_timer_counter ≡ 1
    → ad_periodic_machine ticks p ≡ record (set_periodic ad_periodic_tx 0 p) { ntt = true }
unfolding ad_periodic_machine periodic_next periodic_enter
tick_sends ticks true p on s k = ground arith
tick_sends ticks false p on s k = ground arith

tick_starts :
    (ticks : ℕ) (b : Bool) (p : Port)
    → no_periodic p ≡ false
    → p.partner_oper.port_state.timeout ≡ b
    → p.sm_periodic_state ≡ ad_periodic_tx
    → p.sm_periodic_timer_counter ≡ 0
    → ad_periodic_machine ticks p
      ≡ set_periodic (waiting_for b) (((period b * ticks) % 65536 + 65535) % 65536) p
unfolding ad_periodic_machine periodic_next periodic_off periodic_enter ad_timer_to_ticks
tick_starts ticks true p on t s k = ground arith
tick_starts ticks false p on t s k = ground arith

periods_wait :
    (ticks n : ℕ) (b : Bool) (p : Port)
    → no_periodic p ≡ false
    → p.partner_oper.port_state.timeout ≡ b
    → p.sm_periodic_state ≡ waiting_for b
    → n < p.sm_periodic_timer_counter
    → periods ticks n p ≡ set_periodic (waiting_for b) (p.sm_periodic_timer_counter - n) p
unfolding periods no_periodic
periods_wait ticks zero b p on t s k =
    let e : p.sm_periodic_timer_counter ≡ p.sm_periodic_timer_counter - 0 = omega arith in
    ap (λ r. set_periodic r p.sm_periodic_timer_counter p) s
    ∙ ap (λ c. set_periodic (waiting_for b) c p) e
periods_wait ticks (suc n) b p on t s k =
    let q = set_periodic (waiting_for b) (p.sm_periodic_timer_counter - 1) p in
    let e : p.sm_periodic_timer_counter - 1 - n ≡ p.sm_periodic_timer_counter - suc n =
      omega arith in
    ap (periods ticks n) (tick_waits ticks b p on t s (omega arith))
    ∙ periods_wait ticks n b q on t refl (omega arith)
    ∙ ap (λ c. set_periodic (waiting_for b) c p) e

periods-add :
    (ticks m n : ℕ) (p : Port) → periods ticks (m + n) p ≡ periods ticks n (periods ticks m p)
unfolding periods
periods-add ticks zero n p = let e : 0 + n ≡ n = omega arith in ap (λ k. periods ticks k p) e
periods-add ticks (suc m) n p =
    let e : suc m + n ≡ suc (m + n) = omega arith in
    ap (λ k. periods ticks k p) e ∙ periods-add ticks m n (ad_periodic_machine ticks p)

-- After the first tick, and up to the one that sends.
after_start :
    (ticks n : ℕ) (b : Bool) (p : Port)
    → no_periodic p ≡ false
    → p.partner_oper.port_state.timeout ≡ b
    → p.sm_periodic_state ≡ ad_periodic_tx
    → p.sm_periodic_timer_counter ≡ 0
    → suc n < period b * ticks
    → period b * ticks < 65536
    → periods ticks (suc n) p ≡ set_periodic (waiting_for b) (period b * ticks - suc n) p
unfolding periods no_periodic
after_start ticks n b p on t s k more small =
    let load : ((period b * ticks) % 65536 + 65535) % 65536 ≡ period b * ticks - 1 = omega arith in
    let q = set_periodic (waiting_for b) (period b * ticks - 1) p in
    let e : period b * ticks - 1 - n ≡ period b * ticks - suc n = omega arith in
    ap (periods ticks n)
      (tick_starts ticks b p on t s k ∙ ap (λ c. set_periodic (waiting_for b) c p) load)
    ∙ periods_wait ticks n b q on t refl (omega arith)
    ∙ ap (λ c. set_periodic (waiting_for b) c p) e

-- A port that takes part, has just asked for a transmission and has a partner that keeps its timeout
-- waits at every tick before a second has gone by, or thirty with the long timeout, without asking
-- again, and asks again at the tick that ends the time: its period is exactly that. The time is two
-- ticks or more, and fits the counter.
pub periods_lem :
    (ticks n : ℕ) (b : Bool) (p : Port)
    → no_periodic p ≡ false
    → p.partner_oper.port_state.timeout ≡ b
    → p.sm_periodic_state ≡ ad_periodic_tx
    → p.sm_periodic_timer_counter ≡ 0
    → suc n < period b * ticks
    → period b * ticks < 65536
    → ((periods ticks (suc n) p).sm_periodic_state ≡ waiting_for b)
      × ((periods ticks (suc n) p).ntt ≡ p.ntt)
      × (periods ticks (period b * ticks) p
          ≡ record (set_periodic ad_periodic_tx 0 p) { ntt = true })
unfolding periods no_periodic
periods_lem ticks n b p on t s k more small =
    let one : period b * ticks - suc (period b * ticks - 2) ≡ 1 = omega arith in
    let q = set_periodic (waiting_for b) 1 p in
    let all : period b * ticks ≡ suc (period b * ticks - 2) + 1 = omega arith in
    let end : periods ticks (period b * ticks) p
        ≡ record (set_periodic ad_periodic_tx 0 p) { ntt = true } =
      ap (λ j. periods ticks j p) all
      ∙ periods-add ticks (suc (period b * ticks - 2)) 1 p
      ∙ ap (periods ticks 1) (
          after_start ticks (period b * ticks - 2) b p on t s k (omega arith) small
          ∙ ap (λ c. set_periodic (waiting_for b) c p) one)
      ∙ tick_sends ticks b q on refl refl in
    rw (after_start ticks n b p on t s k more small) (refl, refl, end)
