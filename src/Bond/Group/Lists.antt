-- ===== src/Bond/Group/Lists.antt =====
-- servers/bond_3ad.c: the lists of ports, and that each port is on the list of its aggregator and on no
-- other.
use linuxab.Prelude.{
  ℕ, suc, ◌+◌, ◌%◌, ◌≡◌, refl, sym, ap, ◌∙◌, inl, inr, true, false, not, ◌&&◌, ◌||◌, none, some,
  List, [], ◌∷◌, ◌==◌, if◌then◌else◌, length, Bool-cases, Option-cases, arith,
}
use linuxab.Prelude.Distinct.{NotIn, Distinct, without, Distinct-without}
use linuxab.Bond.Mux.Ready.{member}
use linuxab.Bond.Group.{
  Lag, Bond, ad_clear_agg, is_empty, set_lag, set_aggregator, left_lag, leave, enlist,
}

NotIn-member : (a : ℕ) (xs : List ℕ) → NotIn a xs → member a xs ≡ false
unfolding member
NotIn-member a [] h = refl
NotIn-member a (x ∷ xs) h = ground (arith, NotIn-member a xs h.1)

member-cons : (a b : ℕ) (xs : List ℕ) → member b (a ∷ xs) ≡ ((a == b) || member b xs)
unfolding member
member-cons a b xs = refl

pub member-NotIn : (a : ℕ) (xs : List ℕ) → member a xs ≡ false → NotIn a xs
unfolding member
member-NotIn a [] h = tt
member-NotIn a (x ∷ xs) h = (ground arith, member-NotIn a xs (ground arith))

pub member-without :
    (a b : ℕ) (xs : List ℕ) → Distinct xs → member b (without a xs) ≡ (not (a == b) && member b xs)
unfolding member
member-without a b [] d = ground arith
member-without a b (x ∷ xs) d = elim (Bool-cases (x == a)) [
  | inl t ↦
      let e : x ≡ a = ground arith in
      let out : member x xs ≡ false = NotIn-member x xs d.0 in
      let out' : member a xs ≡ false = ap (λ z. member z xs) (sym e) ∙ out in
      rw t (elim (Bool-cases (a == b)) [
        | inl u ↦
            let f : a ≡ b = ground arith in
            let gone : member b xs ≡ false = ap (λ z. member z xs) (sym f) ∙ out' in
            rw (u, gone) refl
        | inr u ↦ let v : (x == b) ≡ false = ground arith in rw (u, v) refl
      ])
  | inr f ↦ rw f (ground (arith, member-without a b xs d.1))
]

pub length-without-member :
    (a : ℕ) (xs : List ℕ) → member a xs ≡ true → length xs ≡ suc (length (without a xs))
unfolding member
length-without-member a [] h = cc
length-without-member a (x ∷ xs) h = ground (arith, length-without-member a xs)

-- Each port is on the list of its aggregator and on no other, once, and the lists are counted.
pub record IsGrouped {S : Type 0} (s : Bond S) : Type 0 where
  pub on_list : (a g : ℕ) → s.aggregator a ≡ some g → member a (s.lags g).lag_ports ≡ true
  pub belongs : (a g : ℕ) → member a (s.lags g).lag_ports ≡ true → s.aggregator a ≡ some g
  pub distinct : (g : ℕ) → Distinct (s.lags g).lag_ports
  pub counted : (g : ℕ) → (s.lags g).num_of_ports ≡ length (s.lags g).lag_ports % 65536

pub is_empty-nil : (xs : List ℕ) → is_empty xs ≡ true → xs ≡ []
is_empty-nil [] h = refl
is_empty-nil (x ∷ xs) h = cc

-- What `left_lag` makes of the list and the count, cleared or not.
pub left_lag_ports : (a : ℕ) (l : Lag) → (left_lag a l).lag_ports ≡ without a l.lag_ports
unfolding left_lag ad_clear_agg
left_lag_ports a l = elim (Bool-cases (is_empty (without a l.lag_ports))) [
  | inl t ↦ rw t (sym (is_empty-nil (without a l.lag_ports) t))
  | inr f ↦ rw f refl
]

left_lag_count :
    (a : ℕ) (l : Lag)
    → member a l.lag_ports ≡ true
    → l.num_of_ports ≡ length l.lag_ports % 65536
    → (left_lag a l).num_of_ports ≡ length (without a l.lag_ports) % 65536
unfolding left_lag ad_clear_agg
left_lag_count a l m c = elim (Bool-cases (is_empty (without a l.lag_ports))) [
  | inl t ↦
      let none_left : length (without a l.lag_ports) ≡ 0 =
        ap length (is_empty-nil (without a l.lag_ports) t) in
      rw (t, none_left) refl
  | inr f ↦ rw f (omega (arith, c, length-without-member a l.lag_ports m))
]

-- A write at one aggregator, read at another or at itself.
module _ (g h : ℕ) (l : Lag) (lags : ℕ → Lag) where
  abbrev written : Lag
  written = if g == h then l else lags h

  written_at : (g == h) ≡ true → written ≡ l
  written_at t = rw t refl

  written_away : (g == h) ≡ false → written ≡ lags h
  written_away f = rw f refl

-- A port that leaves the aggregator it belongs to.
left-IsGrouped :
    {S : Type 0} (a g : ℕ) (s : Bond S)
    → IsGrouped s
    → s.aggregator a ≡ some g
    → IsGrouped (set_lag g (left_lag a (s.lags g)) (set_aggregator a none 0 s))
left-IsGrouped a g s v at =
    let l : Lag = left_lag a (s.lags g) in
    let ports = left_lag_ports a (s.lags g) in
    let there : (b h : ℕ)
        → member b (if g == h then l else s.lags h).lag_ports ≡ (
            if g == h
            then not (a == b) && member b (s.lags g).lag_ports
            else member b (s.lags h).lag_ports) =
      λ b h. elim (Bool-cases (g == h)) [
        | inl t ↦ rw (t, ports) (member-without a b (s.lags g).lag_ports (v.distinct g))
        | inr f ↦ rw f refl
      ] in
    record {
      on_list = λ b h e. there b h ∙ ground (arith, v.on_list b g, v.on_list b h);
      belongs =
          λ b h e. let m = sym (there b h) ∙ e in ground (arith, v.belongs b g, v.belongs b h);
      distinct = λ h. elim (Bool-cases (g == h)) [
        | inl t ↦ rw (t, ports) (Distinct-without a (s.lags g).lag_ports (v.distinct g))
        | inr f ↦ rw f (v.distinct h)
      ];
      counted = λ h. elim (Bool-cases (g == h)) [
        | inl t ↦ rw (t, ports) (left_lag_count a (s.lags g) (v.on_list a g at) (v.counted g))
        | inr f ↦ rw f (v.counted h)
      ];
    }

pub leave-none : {S : Type 0} (a : ℕ) (s : Bond S) → s.aggregator a ≡ none → leave a s ≡ s
unfolding leave
leave-none a s e = rw (e, leave) refl

pub leave-some :
    {S : Type 0} (a g : ℕ) (s : Bond S)
    → IsGrouped s
    → s.aggregator a ≡ some g
    → leave a s ≡ set_lag g (left_lag a (s.lags g)) (set_aggregator a none 0 s)
unfolding leave
leave-some a g s v e = let m = v.on_list a g e in rw (e, m, leave) refl

-- To leave keeps the lists, and the port belongs to none.
pub leave-IsGrouped :
    {S : Type 0} (a : ℕ) (s : Bond S)
    → IsGrouped s
    → IsGrouped (leave a s) × ((leave a s).aggregator a ≡ none) × ((leave a s).world ≡ s.world)
unfolding leave
leave-IsGrouped a s v = elim (Option-cases (s.aggregator a)) [
  | inl e ↦ rw (e, leave) (v, e, refl)
  | inr (g, e) ↦
      let m = v.on_list a g e in
      let t : (a == a) ≡ true = ground arith in
      rw (e, m, leave) (left-IsGrouped a g s v e, rw t refl, refl)
]

-- A port that belongs to no aggregator is put first on the list of one.
pub enlist-IsGrouped :
    {S : Type 0} (a g : ℕ) (l : Lag) (s : Bond S)
    → IsGrouped s
    → s.aggregator a ≡ none
    → l.lag_ports ≡ a ∷ (s.lags g).lag_ports
    → l.num_of_ports ≡ ((s.lags g).num_of_ports + 1) % 65536
    → IsGrouped (enlist a g l s)
unfolding enlist
enlist-IsGrouped a g l s v alone ports count =
    let there : (b h : ℕ)
        → member b (if g == h then l else s.lags h).lag_ports ≡ (
            if g == h
            then (a == b) || member b (s.lags g).lag_ports
            else member b (s.lags h).lag_ports) =
      λ b h. elim (Bool-cases (g == h)) [
        | inl t ↦ rw (t, ports) (member-cons a b (s.lags g).lag_ports)
        | inr f ↦ rw f refl
      ] in
    let out : member a (s.lags g).lag_ports ≡ false =
      elim (Bool-cases (member a (s.lags g).lag_ports)) [
        | inl t ↦ let bad : none ≡ some g = sym alone ∙ v.belongs a g t in absurd (cc)
        | inr f ↦ f
      ] in
    record {
      on_list = λ b h e. there b h ∙ ground (arith, v.on_list b g, v.on_list b h);
      belongs =
          λ b h e. let m = sym (there b h) ∙ e in ground (arith, v.belongs b g, v.belongs b h);
      distinct = λ h. elim (Bool-cases (g == h)) [
        | inl t ↦ rw (t, ports) (member-NotIn a (s.lags g).lag_ports out, v.distinct g)
        | inr f ↦ rw f (v.distinct h)
      ];
      counted = λ h. elim (Bool-cases (g == h)) [
        | inl t ↦ rw (t, ports) (omega (arith, count, v.counted g))
        | inr f ↦ rw f (v.counted h)
      ];
    }
