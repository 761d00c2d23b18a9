-- ===== src/Bond/Select/Order.antt =====
-- servers/bond_3ad.c: the order on aggregators that the selection test follows. It is a strict weak
-- order: what is beaten does not beat, and not to beat goes on from one to the next.
use linuxab.Prelude.{◌≡◌, true, false, arith}
use linuxab.Bond.Select.{
  AdSelect, bond_ad_stable, bond_ad_bandwidth, bond_ad_count, bond_ad_prio, Agg, by_count,
  by_policy, beats,
}

by_count_weak : (x y z : Agg) → by_count x y ≡ false → by_count y z ≡ false → by_count x z ≡ false
unfolding by_count
by_count_weak x y z p q = ground arith

by_policy_weak :
    (mode : AdSelect) (x y z : Agg)
    → by_policy mode x y ≡ false
    → by_policy mode y z ≡ false
    → by_policy mode x z ≡ false
unfolding by_policy
by_policy_weak bond_ad_prio x y z p q = let w = by_count_weak x y z in ground arith
by_policy_weak bond_ad_count x y z p q = by_count_weak x y z p q
by_policy_weak bond_ad_stable x y z p q = ground arith
by_policy_weak bond_ad_bandwidth x y z p q = ground arith

pub beats_weak :
    (mode : AdSelect) (x y z : Agg)
    → beats mode x y ≡ false
    → beats mode y z ≡ false
    → beats mode x z ≡ false
unfolding beats
beats_weak mode x y z p q = let w = by_policy_weak mode x y z in ground arith

by_count_asym : (x y : Agg) → by_count x y ≡ true → by_count y x ≡ false
unfolding by_count
by_count_asym x y p = ground arith

by_policy_asym :
    (mode : AdSelect) (x y : Agg) → by_policy mode x y ≡ true → by_policy mode y x ≡ false
unfolding by_policy
by_policy_asym bond_ad_prio x y p = let w = by_count_asym x y in ground arith
by_policy_asym bond_ad_count x y p = by_count_asym x y p
by_policy_asym bond_ad_stable x y p = ground arith
by_policy_asym bond_ad_bandwidth x y p = ground arith

pub beats_asym : (mode : AdSelect) (x y : Agg) → beats mode x y ≡ true → beats mode y x ≡ false
unfolding beats
beats_asym mode x y p = let w = by_policy_asym mode x y in ground arith
