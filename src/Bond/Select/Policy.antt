-- ===== src/Bond/Select/Policy.antt =====
-- servers/bond_3ad.c: the policies of the modes as one order on what an aggregator has to offer.
use linuxab.Prelude.{ℕ, ◌≡◌, Bool, true, false, not, List, [], ◌∷◌, ltb, if◌then◌else◌, arith}
use linuxab.Bond.Select.{
  AdSelect, bond_ad_stable, bond_ad_bandwidth, bond_ad_count, bond_ad_prio, Agg, agg_has_partner,
  active_ports, agg_ports_priority, bandwidth, by_count, by_policy, beats,
}

-- The number 1 for what holds.
abbrev one_if : Bool → ℕ
one_if b = if b then 1 else 0

-- What a mode looks at, the first first: an aggregator that is no individual, then one with a partner,
-- then the measures of the mode, of which more is better.
abbrev pub merits : AdSelect → Agg → List ℕ
merits mode a = one_if (not a.is_individual) ∷ one_if (agg_has_partner a) ∷ elim mode [
  | bond_ad_stable ↦ bandwidth a ∷ []
  | bond_ad_bandwidth ↦ bandwidth a ∷ []
  | bond_ad_count ↦ active_ports a ∷ bandwidth a ∷ []
  | bond_ad_prio ↦ agg_ports_priority a ∷ active_ports a ∷ bandwidth a ∷ []
]

-- The lexicographic order.
abbrev pub lex_le : List ℕ → List ℕ → Bool
lex_le [] ys = true
lex_le (x ∷ xs) [] = false
lex_le (x ∷ xs) (y ∷ ys) =
    let rest = lex_le xs ys in if ltb x y then true else if ltb y x then false else rest

-- One that does not beat another has no more to offer.
pub beats-merits :
    (mode : AdSelect) (x y : Agg)
    → beats mode x y ≡ false
    → lex_le (merits mode x) (merits mode y) ≡ true
unfolding beats by_policy by_count
beats-merits bond_ad_stable x y h = ground arith
beats-merits bond_ad_bandwidth x y h = ground arith
beats-merits bond_ad_count x y h = ground arith
beats-merits bond_ad_prio x y h = ground arith
