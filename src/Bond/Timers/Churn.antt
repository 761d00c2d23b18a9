-- ===== src/Bond/Timers/Churn.antt =====
-- servers/bond_3ad.c: what ad_churn_machine finds at the end of its time.
use linuxab.Prelude.{
  ℕ, zero, suc, ◌+◌, ◌-◌, ◌*◌, ◌%◌, ◌<◌, ◌≡◌, refl, ap, ◌∙◌, Bool, true, false, ◌||◌, arith,
}
use linuxab.Bond.Port.{Port, ChurnState, ad_churn_monitor, ad_churn, ad_no_churn, ad_timer_to_ticks}
use linuxab.Bond.Timers.{churn_actor, churn_partner, ad_churn_machine}

pub churn_ticks : ℕ → ℕ → Port → Port
churn_ticks ticks zero p = p
churn_ticks ticks (suc n) p = churn_ticks ticks n (ad_churn_machine ticks p)

-- Both monitors wait, with `k` ticks to go.
abbrev monitored : ℕ → Port → Port
monitored k p = record p {
  sm_vars = record p.sm_vars { actor_churn = false; partner_churn = false };
  sm_churn_actor_state = ad_churn_monitor;
  sm_churn_partner_state = ad_churn_monitor;
  sm_churn_actor_timer_counter = k;
  sm_churn_partner_timer_counter = k;
}

starts :
    (ticks : ℕ) (p : Port)
    → (p.sm_vars.actor_churn || p.sm_vars.partner_churn) ≡ true
    → ad_churn_machine ticks p ≡ monitored ((60 * ticks) % 65536) p
unfolding ad_churn_machine ad_timer_to_ticks
starts ticks p c = rw c

counts :
    (ticks k : ℕ) (p : Port)
    → ad_churn_machine ticks (monitored (suc (suc k)) p) ≡ monitored (suc k) p
unfolding ad_churn_machine churn_actor churn_partner
counts ticks k p = ground arith

-- What each end is found to be, and its count.
abbrev pub verdict : Bool → ChurnState
verdict true = ad_no_churn
verdict false = ad_churn

abbrev pub tally : Bool → ℕ → ℕ
tally true n = n
tally false n = (n + 1) % 4294967296

ends :
    (ticks : ℕ) (a b : Bool) (p : Port)
    → p.actor_oper_port_state.synchronization ≡ a
    → p.partner_oper.port_state.synchronization ≡ b
    → let q = ad_churn_machine ticks (monitored 1 p) in
      (q.sm_churn_actor_state ≡ verdict a)
      × (q.sm_churn_partner_state ≡ verdict b)
      × (q.churn_actor_count ≡ tally a p.churn_actor_count)
      × (q.churn_partner_count ≡ tally b p.churn_partner_count)
unfolding ad_churn_machine churn_actor churn_partner
ends ticks true true p ea eb = ground arith
ends ticks true false p ea eb = ground arith
ends ticks false true p ea eb = ground arith
ends ticks false false p ea eb = ground arith

monitors :
    (ticks n k : ℕ) (p : Port) → churn_ticks ticks n (monitored (n + suc k) p) ≡ monitored (suc k) p
unfolding churn_ticks
monitors ticks zero k p = let e : 0 + suc k ≡ suc k = omega arith in ap (λ c. monitored c p) e
monitors ticks (suc n) k p =
    let e : suc n + suc k ≡ suc (suc (n + k)) = omega arith in
    let e' : suc (n + k) ≡ n + suc k = omega arith in
    ap (churn_ticks ticks n) (
      ap (λ c. ad_churn_machine ticks (monitored c p)) e
      ∙ counts ticks (n + k) p
      ∙ ap (λ c. monitored c p) e')
    ∙ monitors ticks n k p

churn_ticks_last :
    (ticks n : ℕ) (p : Port)
    → churn_ticks ticks (suc n) p ≡ ad_churn_machine ticks (churn_ticks ticks n p)
unfolding churn_ticks
churn_ticks_last ticks zero p = refl
churn_ticks_last ticks (suc n) p = churn_ticks_last ticks n (ad_churn_machine ticks p)

monitored_through :
    (ticks : ℕ) (p : Port)
    → (p.sm_vars.actor_churn || p.sm_vars.partner_churn) ≡ true
    → 0 < ticks
    → 60 * ticks < 65536
    → churn_ticks ticks (60 * ticks) p ≡ monitored 1 p
unfolding churn_ticks
monitored_through ticks p c pos_ticks small =
    let load : (60 * ticks) % 65536 ≡ (60 * ticks - 1) + 1 = omega arith in
    let e : 60 * ticks ≡ suc (60 * ticks - 1) = omega arith in
    ap (λ j. churn_ticks ticks j p) e
    ∙ ap (churn_ticks ticks (60 * ticks - 1)) (starts ticks p c ∙ ap (λ k. monitored k p) load)
    ∙ monitors ticks (60 * ticks - 1) 0 p

-- A minute and a tick after a change that may be churn, when the bits for sync have stayed as they
-- are, each of the two ends has been found: no churn for one in sync, and for another a churn, which
-- is counted once. A second has a tick or more, and the minute fits the counter.
pub churn_ticks_lem :
    (ticks : ℕ) (a b : Bool) (p : Port)
    → (p.sm_vars.actor_churn || p.sm_vars.partner_churn) ≡ true
    → p.actor_oper_port_state.synchronization ≡ a
    → p.partner_oper.port_state.synchronization ≡ b
    → 0 < ticks
    → 60 * ticks < 65536
    → let q = churn_ticks ticks (suc (60 * ticks)) p in
      (q.sm_churn_actor_state ≡ verdict a)
      × (q.sm_churn_partner_state ≡ verdict b)
      × (q.churn_actor_count ≡ tally a p.churn_actor_count)
      × (q.churn_partner_count ≡ tally b p.churn_partner_count)
churn_ticks_lem ticks a b p c ea eb pos_ticks small =
    rw (churn_ticks_last ticks (60 * ticks) p, monitored_through ticks p c pos_ticks small)
      (ends ticks a b p ea eb)
