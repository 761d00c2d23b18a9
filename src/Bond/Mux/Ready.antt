-- ===== src/Bond/Mux/Ready.antt =====
-- servers/bond_3ad.c: READY, which the ports of an aggregator have only together.
use linuxab.Prelude.{
  ℕ, ◌≡◌, refl, sym, ap, ◌∙◌, inl, inr, Bool, true, false, ◌&&◌, ◌||◌, List, [], ◌∷◌, ◌==◌,
  if◌then◌else◌, Bool-cases, arith,
}
use linuxab.Bond.Port.{Port}
use linuxab.Bond.Mux.{
  World, Aggregator, agg_ports_are_ready, set_agg_ports_ready, share_ready, set_ready,
}

unfoldable pub member : ℕ → List ℕ → Bool
member a [] = false
member a (b ∷ bs) = (b == a) || member a bs

-- A write to one port, as `set_agg_ports_ready` makes it.
abbrev write : ℕ → Bool → (ℕ → Port) → ℕ → Port
write b v ports c = if b == c then set_ready v (ports b) else ports c

write_at :
    (b c : ℕ) (v : Bool) (ports : ℕ → Port)
    → (b == c) ≡ true
    → write b v ports c ≡ set_ready v (ports c)
write_at b c v ports e =
    let same : b ≡ c = ground arith in
    ap (λ t. if t then set_ready v (ports b) else ports c) e ∙ ap (λ k. set_ready v (ports k)) same

write_here :
    (b c : ℕ) (v m : Bool) (ports : ℕ → Port)
    → (b == c) ≡ true
    → (if m then set_ready v (write b v ports c) else write b v ports c) ≡ set_ready v (ports c)
write_here b c v true ports e = ap (set_ready v) (write_at b c v ports e)
write_here b c v false ports e = write_at b c v ports e

write_away :
    (b c : ℕ) (v m : Bool) (ports : ℕ → Port)
    → (b == c) ≡ false
    → (if m then set_ready v (write b v ports c) else write b v ports c)
      ≡ (if m then set_ready v (ports c) else ports c)
write_away b c v m ports e =
    ap (λ p. if m then set_ready v p else p)
      (ap (λ t. if t then set_ready v (ports b) else ports c) e)

-- The ports of the list get the value, and no other port changes.
pub set_agg_ports_ready_lem :
    (bs : List ℕ) (v : Bool) (ports : ℕ → Port) (c : ℕ)
    → set_agg_ports_ready bs v ports c ≡ (if member c bs then set_ready v (ports c) else ports c)
unfolding set_agg_ports_ready member
set_agg_ports_ready_lem [] v ports c = refl
set_agg_ports_ready_lem (b ∷ bs) v ports c =
    let rest = set_agg_ports_ready_lem bs v (write b v ports) c in
    elim (Bool-cases (b == c)) [
      | inl t ↦
          rest
          ∙ write_here b c v (member c bs) ports t
          ∙ ap (λ m. if m || member c bs then set_ready v (ports c) else ports c) (sym t)
      | inr f ↦
          rest
          ∙ write_away b c v (member c bs) ports f
          ∙ ap (λ m. if m || member c bs then set_ready v (ports c) else ports c) (sym f)
    ]

and_left : (a b : Bool) → (a && b) ≡ true → a ≡ true
and_left true b h = refl
and_left false b h = h

and_right : (a b : Bool) → (a && b) ≡ true → b ≡ true
and_right true b h = h
and_right false b h = ground arith

or_right : (a b : Bool) → a ≡ false → (a || b) ≡ true → b ≡ true
or_right true b f h = ground arith
or_right false b f h = h

-- `agg_ports_are_ready` says that each of the list has its READY_N.
pub agg_ports_are_ready-member :
    (bs : List ℕ) (ports : ℕ → Port) (c : ℕ)
    → agg_ports_are_ready bs ports ≡ true
    → member c bs ≡ true
    → (ports c).sm_vars.ready_n ≡ true
unfolding agg_ports_are_ready member
agg_ports_are_ready-member [] ports c all m = ground arith
agg_ports_are_ready-member (b ∷ bs) ports c all m = elim (Bool-cases (b == c)) [
  | inl t ↦
      let same : b ≡ c = ground arith in
      ap (λ k. (ports k).sm_vars.ready_n) (sym same)
      ∙ and_left ((ports b).sm_vars.ready_n) (agg_ports_are_ready bs ports) all
  | inr f ↦
      agg_ports_are_ready-member bs ports c
        (and_right ((ports b).sm_vars.ready_n) (agg_ports_are_ready bs ports) all)
        (or_right (b == c) (member c bs) f m)
]

-- After the ports of an aggregator share their READY, a port of it has READY only when each port of it
-- has its READY_N, and a port outside it is as it was.
pub share_ready_lem :
    {S : Type 0} (agg : Aggregator) (w : World S) (b c : ℕ)
    → member b agg.lag_ports ≡ true
    → member c agg.lag_ports ≡ true
    → ((share_ready agg w).ports b).sm_vars.ready ≡ true
    → (w.ports c).sm_vars.ready_n ≡ true
unfolding share_ready
share_ready_lem agg w b c mb mc r =
    let all = agg_ports_are_ready agg.lag_ports w.ports in
    let e = set_agg_ports_ready_lem agg.lag_ports all w.ports b in
    let e' : set_agg_ports_ready agg.lag_ports all w.ports b ≡ set_ready all (w.ports b) =
      e ∙ ap (λ m. if m then set_ready all (w.ports b) else w.ports b) mb in
    agg_ports_are_ready-member agg.lag_ports w.ports c (ap (λ p. p.sm_vars.ready) (sym e') ∙ r) mc
