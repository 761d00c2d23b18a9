-- ===== src/Bond/Speed.antt =====
-- servers/bond_3ad.c: the speed of a port, the duplex of a port and the bandwidth of an aggregator. The
-- speeds that a driver reports are in Mb/s, as ethtool numbers them.
use linuxab.Prelude.{
  ℕ, zero, suc, ◌*◌, ◌%◌, ◌≡◌, ◌≢◌, refl, sym, ap, ◌∙◌, inl, inr, Bool, true, false, List, [], ◌∷◌,
  ◌==◌, if◌then◌else◌, Bool-cases, arith,
}

-- The cases of `__get_link_speed`, each with its place in `enum ad_link_speed_type`.
abbrev pub speeds : List (ℕ × ℕ)
speeds =
    (10, 2)
    ∷ (100, 3)
    ∷ (1000, 4)
    ∷ (2500, 5)
    ∷ (5000, 6)
    ∷ (10000, 7)
    ∷ (14000, 8)
    ∷ (20000, 9)
    ∷ (25000, 10)
    ∷ (40000, 11)
    ∷ (50000, 12)
    ∷ (56000, 13)
    ∷ (80000, 14)
    ∷ (100000, 15)
    ∷ (200000, 16)
    ∷ (400000, 17)
    ∷ (800000, 18)
    ∷ (1600000, 19)
    ∷ []

-- The cases of `__get_agg_bandwidth`, AD_LINK_SPEED_1MBPS first.
abbrev pub factors : List (ℕ × ℕ)
factors =
    (1, 1)
    ∷ (2, 10)
    ∷ (3, 100)
    ∷ (4, 1000)
    ∷ (5, 2500)
    ∷ (6, 5000)
    ∷ (7, 10000)
    ∷ (8, 14000)
    ∷ (9, 20000)
    ∷ (10, 25000)
    ∷ (11, 40000)
    ∷ (12, 50000)
    ∷ (13, 56000)
    ∷ (14, 80000)
    ∷ (15, 100000)
    ∷ (16, 200000)
    ∷ (17, 400000)
    ∷ (18, 800000)
    ∷ (19, 1600000)
    ∷ []

-- A `switch`: the value of the first case that fits, and 0 by default.
unfoldable pub switch : List (ℕ × ℕ) → ℕ → ℕ
switch [] n = 0
switch ((c, v) ∷ cases) n = if n == c then v else switch cases n

-- What the bonding driver knows of a port and its slave: DUPLEX_FULL as `full_duplex`, and whether the
-- device runs and has a carrier.
pub record Lane : Type 0 where
  pub is_enabled : Bool
  pub link_up : Bool
  pub speed : ℕ
  pub full_duplex : Bool
  pub port_priority : ℕ
  pub running : Bool

pub get_link_speed : Lane → ℕ
get_link_speed lane = if lane.link_up then switch speeds lane.speed else 0

pub get_duplex : Lane → ℕ
get_duplex lane = if lane.link_up then (if lane.full_duplex then 1 else 0) else 0

unfoldable pub agg_active_ports : List Lane → ℕ
agg_active_ports [] = 0
agg_active_ports (lane ∷ lanes) =
    let rest = agg_active_ports lanes in if lane.is_enabled then suc rest else rest

-- Of an aggregator whose first port is `first`; the product is a u32.
pub get_agg_bandwidth : Lane → List Lane → ℕ
get_agg_bandwidth first others =
    let nports = agg_active_ports (first ∷ others) in
    if nports == 0 then 0 else (nports * switch factors (get_link_speed first)) % 4294967296

-- Each speed of the table has a factor, its own.
abbrev Inverse : List (ℕ × ℕ) → Type 0
Inverse [] = Unit {0}
Inverse ((s, c) ∷ cases) = (switch factors c ≡ s) × Inverse cases

switch_here : (c v n : ℕ) (cases : List (ℕ × ℕ)) → (n == c) ≡ true → switch ((c, v) ∷ cases) n ≡ v
unfolding switch
switch_here c v n cases t = rw t

switch_past :
    (c v n : ℕ) (cases : List (ℕ × ℕ))
    → (n == c) ≡ false
    → switch ((c, v) ∷ cases) n ≡ switch cases n
unfolding switch
switch_past c v n cases f = rw f

switch_none : (n : ℕ) → switch [] n ≡ 0
unfolding switch
switch_none n = refl

factor_speed :
    (cases : List (ℕ × ℕ)) (s : ℕ)
    → Inverse cases
    → switch cases s ≢ 0
    → switch factors (switch cases s) ≡ s
factor_speed [] s inv known = absurd (known (switch_none s))
factor_speed ((m, c) ∷ cases) s inv known = elim (Bool-cases (s == m)) [
  | inl t ↦
      let same : m ≡ s = ground arith in
      ap (switch factors) (switch_here m c s cases t) ∙ inv.0 ∙ same
  | inr f ↦
      let past = switch_past m c s cases f in
      ap (switch factors) past ∙ factor_speed cases s inv.1 (λ e. known (past ∙ e))
]

inverse : Inverse speeds
unfolding switch
inverse = (
  refl,
  (
    refl,
    (
      refl,
      (
        refl,
        (
          refl,
          (
            refl,
            (
              refl,
              (
                refl,
                (refl, (refl, (refl, (refl, (refl, (refl, (refl, (refl, (refl, (refl, tt)))))))))),
              ),
            ),
          ),
        ),
      ),
    ),
  ),
)

factor_zero : switch factors 0 ≡ 0
unfolding switch
factor_zero = refl

zero_or : (n s : ℕ) → (if n == 0 then 0 else (n * s) % 4294967296) ≡ (n * s) % 4294967296
zero_or zero s = let e : 0 * s ≡ 0 = omega arith in ap (λ k. k % 4294967296) (sym e)
zero_or (suc n) s = let t : (suc n == 0) ≡ false = ground arith in rw t

none_of : (n : ℕ) → (if n == 0 then 0 else (n * 0) % 4294967296) ≡ 0
none_of zero = refl
none_of (suc n) =
    let t : (suc n == 0) ≡ false = ground arith in let e : suc n * 0 ≡ 0 = omega arith in rw (t, e)

-- When the link of an aggregator's first port is up at a speed that the table has, its bandwidth is the
-- number of its active ports times that speed, in Mb/s and as a u32; and while the link is down it is 0.
pub get_agg_bandwidth_lem :
    (first : Lane) (others : List Lane)
    → switch speeds first.speed ≢ 0
    → get_agg_bandwidth first others ≡ (
        if first.link_up then (agg_active_ports (first ∷ others) * first.speed) % 4294967296 else 0)
unfolding get_agg_bandwidth get_link_speed
get_agg_bandwidth_lem first others known =
    let n = agg_active_ports (first ∷ others) in
    let s = first.speed in
    let f = factor_speed speeds s inverse known in
    let code : Bool → ℕ = λ b. if b then switch speeds s else 0 in
    let width : ℕ → ℕ = λ k. if n == 0 then 0 else (n * k) % 4294967296 in
    let answer : Bool → ℕ = λ b. if b then (n * s) % 4294967296 else 0 in
    elim (Bool-cases first.link_up) [
      | inl up ↦
          ap (λ b. width (switch factors (code b))) up
          ∙ ap width f
          ∙ zero_or n s
          ∙ ap answer (sym up)
      | inr down ↦
          ap (λ b. width (switch factors (code b))) down
          ∙ ap width factor_zero
          ∙ none_of n
          ∙ ap answer (sym down)
    ]
