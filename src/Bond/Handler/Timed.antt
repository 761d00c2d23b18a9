-- ===== src/Bond/Handler/Timed.antt =====
-- servers/bond_3ad.c: the machines of a port that run on timers leave its selection, its key and its partner
-- as they are.
use linuxab.Prelude.{ℕ, refl, inl, inr, Bool, ◌||◌, Bool-cases, arith}
use linuxab.Bond.Port.{Port}
use linuxab.Bond.Timers.{
  ad_periodic_machine, ad_churn_machine, ad_tx_machine, periodic_next, periodic_enter,
  periodic_runs, periodic_off, churn_actor, churn_partner,
}
use linuxab.Bond.Group.Keeps.{Alike, Alike-trans}
use linuxab.Bond.Handler.{clear_begin}

pub Alike-periodic : (ticks : ℕ) (p : Port) → Alike (ad_periodic_machine ticks p) p
unfolding ad_periodic_machine periodic_next periodic_enter periodic_runs periodic_off
Alike-periodic ticks p = (ground arith, ground arith, ground arith)

actor-Alike : (p : Port) → Alike (churn_actor p) p
unfolding churn_actor
actor-Alike p = (ground arith, ground arith, ground arith)

partner-Alike : (p : Port) → Alike (churn_partner p) p
unfolding churn_partner
partner-Alike p = (ground arith, ground arith, ground arith)

churn-Alike : (ticks : ℕ) (p : Port) → Alike (ad_churn_machine ticks p) p
unfolding ad_churn_machine
churn-Alike ticks p = elim (Bool-cases (p.sm_vars.actor_churn || p.sm_vars.partner_churn)) [
  | inl t ↦ rw t (refl, refl, refl)
  | inr f ↦ rw f (
      Alike-trans (churn_partner (churn_actor p)) (churn_actor p) p (partner-Alike (churn_actor p))
        (actor-Alike p))
]

pub Alike-churn : (ticks : ℕ) (p : Port) → Alike (clear_begin (ad_churn_machine ticks p)) p
unfolding clear_begin
Alike-churn ticks p = churn-Alike ticks p

pub Alike-tx : (ticks : ℕ) (sent : Bool) (p : Port) → Alike (ad_tx_machine ticks sent p).1 p
unfolding ad_tx_machine
Alike-tx ticks sent p = (ground arith, ground arith, ground arith)
