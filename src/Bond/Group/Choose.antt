-- ===== src/Bond/Group/Choose.antt =====
-- servers/bond_3ad.c: which aggregator the loop over the slaves finds for a port.
use linuxab.Prelude.{
  ℕ, ◌≡◌, ◌⊎◌, refl, sym, subst, ap, ◌∙◌, inl, inr, Bool, true, false, not, ◌&&◌, Option, none,
  some, List, [], ◌∷◌, Bool-cases, arith,
}
use linuxab.Bond.Port.{Port}
use linuxab.Bond.Group.{
  Lag, Bond, is_empty, leave, suits, search_lags, joined_lag, founded_lag, enlist, choose_lag,
}

-- Whether an aggregator has ports and suits the port, and whether it is free.
abbrev pub shares : (ℕ → Lag) → Port → ℕ → Bool
shares lags p g = not (is_empty (lags g).lag_ports) && suits (lags g) p

abbrev pub is_free : (ℕ → Lag) → ℕ → Bool
is_free lags g = is_empty (lags g).lag_ports

-- No slave's aggregator passes a test.
abbrev pub NoneOf : (ℕ → Bool) → List ℕ → Type 0
NoneOf test [] = Unit {0}
NoneOf test (i ∷ l) = (test i ≡ false) × NoneOf test l

-- The first slave whose aggregator passes a test.
abbrev pub FirstOf : (ℕ → Bool) → ℕ → List ℕ → Type 0
FirstOf test g [] = ⊥
FirstOf test g (i ∷ l) = ((i ≡ g) × (test i ≡ true)) ⊎ ((test i ≡ false) × FirstOf test g l)

-- What the loop gives, where `free` was found before.
abbrev Searched : List ℕ → (ℕ → Lag) → Port → Option ℕ → Option ℕ × Option ℕ → Type 0
Searched slaves lags p free r =
    ((g : ℕ) × (r.0 ≡ some g) × FirstOf (shares lags p) g slaves)
    ⊎ ((r.0 ≡ none)
        × NoneOf (shares lags p) slaves
        × (((g : ℕ) × (free ≡ some g) × (r.1 ≡ some g))
            ⊎ ((free ≡ none)
                × (((g : ℕ) × FirstOf (is_free lags) g slaves × (r.1 ≡ some g))
                    ⊎ (NoneOf (is_free lags) slaves × (r.1 ≡ none))))))

-- A slave in front whose aggregator is not free and does not suit, or where a free one is known.
pass_over :
    (i : ℕ) (slaves : List ℕ) (lags : ℕ → Lag) (p : Port) (free : Option ℕ)
    (r : Option ℕ × Option ℕ)
    → shares lags p i ≡ false
    → (is_free lags i ≡ false) ⊎ ((f : ℕ) × (free ≡ some f))
    → Searched slaves lags p free r
    → Searched (i ∷ slaves) lags p free r
pass_over i slaves lags p free r u h (inl (g, e, first)) = inl (g, e, inr (u, first))
pass_over i slaves lags p free r u h (inr (e, unsuited, inl k)) = inr (e, (u, unsuited), inl k)
pass_over i slaves lags p free r u (inl f) (inr (e, unsuited, inr (unset, inl (g, first, k)))) =
    inr (e, (u, unsuited), inr (unset, inl (g, inr (f, first), k)))
pass_over i slaves lags p free r u (inl f) (inr (e, unsuited, inr (unset, inr (taken, k)))) =
    inr (e, (u, unsuited), inr (unset, inr ((f, taken), k)))
pass_over i slaves lags p free r u (inr (f, known)) (inr (e, unsuited, inr (unset, k))) =
    let bad : none ≡ some f = sym unset ∙ known in absurd (cc)

-- A slave in front with the first free aggregator.
free_first :
    (i : ℕ) (slaves : List ℕ) (lags : ℕ → Lag) (p : Port) (r : Option ℕ × Option ℕ)
    → shares lags p i ≡ false
    → is_free lags i ≡ true
    → Searched slaves lags p (some i) r
    → Searched (i ∷ slaves) lags p none r
free_first i slaves lags p r u t (inl (g, e, first)) = inl (g, e, inr (u, first))
free_first i slaves lags p r u t (inr (e, unsuited, inl (g, known, k))) = inr (
  e,
  (u, unsuited),
  inr (refl, inl (g, inl (ap (λ o. elim o [ none ↦ i | some x ↦ x ]) known, t), k)),
)
free_first i slaves lags p r u t (inr (e, unsuited, inr (unset, k))) = absurd (cc)

-- The three ways through one round of the loop.
module _ (i : ℕ) (slaves : List ℕ) (lags : ℕ → Lag) (p : Port) (free : Option ℕ) where
  abbrev known_free : Option ℕ
  known_free = elim free [ none ↦ some i | some f ↦ some f ]

  step_free :
      is_free lags i ≡ true
      → search_lags (i ∷ slaves) lags p free ≡ search_lags slaves lags p known_free
  unfolding search_lags
  step_free t = rw t refl

  step_found :
      is_free lags i ≡ false
      → suits (lags i) p ≡ true
      → search_lags (i ∷ slaves) lags p free ≡ (some i, free)
  unfolding search_lags
  step_found f s = rw (f, s) refl

  step_next :
      is_free lags i ≡ false
      → suits (lags i) p ≡ false
      → search_lags (i ∷ slaves) lags p free ≡ search_lags slaves lags p free
  unfolding search_lags
  step_next f s = rw (f, s) refl

-- A round that keeps what is known to be free, or the lack of it.
round :
    (i : ℕ) (slaves : List ℕ) (lags : ℕ → Lag) (p : Port) (free : Option ℕ)
    → is_free lags i ≡ false
    → Searched slaves lags p free (search_lags slaves lags p free)
    → Searched (i ∷ slaves) lags p free (search_lags (i ∷ slaves) lags p free)
round i slaves lags p free f rest = elim (Bool-cases (suits (lags i) p)) [
  | inl s ↦
      subst (Searched (i ∷ slaves) lags p free) (sym (step_found i slaves lags p free f s))
        (inl (i, refl, inl (refl, ground arith)))
  | inr s ↦
      let u : shares lags p i ≡ false = ground arith in
      subst (Searched (i ∷ slaves) lags p free) (sym (step_next i slaves lags p free f s))
        (pass_over i slaves lags p free (search_lags slaves lags p free) u (inl f) rest)
]

search_lags-Searched :
    (slaves : List ℕ) (lags : ℕ → Lag) (p : Port) (free : Option ℕ)
    → Searched slaves lags p free (search_lags slaves lags p free)
unfolding search_lags
search_lags-Searched [] lags p none = inr (refl, tt, inr (refl, inr (tt, refl)))
search_lags-Searched [] lags p (some f) = inr (refl, tt, inl (f, refl, refl))
search_lags-Searched (i ∷ slaves) lags p none = elim (Bool-cases (is_free lags i)) [
  | inl t ↦
      let u : shares lags p i ≡ false = ground arith in
      subst (Searched (i ∷ slaves) lags p none) (sym (step_free i slaves lags p none t)) (
        free_first i slaves lags p (search_lags slaves lags p (some i)) u t
          (search_lags-Searched slaves lags p (some i)))
  | inr f ↦ round i slaves lags p none f (search_lags-Searched slaves lags p none)
]
search_lags-Searched (i ∷ slaves) lags p (some k) = elim (Bool-cases (is_free lags i)) [
  | inl t ↦
      let u : shares lags p i ≡ false = ground arith in
      subst (Searched (i ∷ slaves) lags p (some k)) (sym (step_free i slaves lags p (some k) t)) (
        pass_over i slaves lags p (some k) (search_lags slaves lags p (some k)) u (inr (k, refl))
          (search_lags-Searched slaves lags p (some k)))
  | inr f ↦ round i slaves lags p (some k) f (search_lags-Searched slaves lags p (some k))
]

-- The three ways of the choice, with what becomes of the bond.
abbrev pub Ways : {S : Type 0} → List ℕ → ℕ → ℕ → Bond S → Option ℕ × Bond S → Type 0
Ways slaves key a s r =
    let p = s.world.ports a in
    ((g : ℕ) × FirstOf (shares s.lags p) g slaves
      × (r ≡ (some g, enlist a g (joined_lag a (s.lags g)) s)))
    ⊎ (((g : ℕ) × NoneOf (shares s.lags p) slaves
          × FirstOf (is_free s.lags) g slaves
          × (r ≡ (some g, enlist a g (founded_lag key p a (s.lags g)) s)))
        ⊎ (NoneOf (shares s.lags p) slaves × NoneOf (is_free s.lags) slaves × (r ≡ (none, s))))

abbrev picked : {S : Type 0} → ℕ → ℕ → Bond S → Option ℕ → Option ℕ → Option ℕ × Bond S
picked key a s found free = elim found [
  | some g ↦ (some g, enlist a g (joined_lag a (s.lags g)) s)
  | none ↦ elim free [
    | some g ↦ (some g, enlist a g (founded_lag key (s.world.ports a) a (s.lags g)) s)
    | none ↦ (none, s)
  ]
]

choose_lag-picked :
    {S : Type 0} (slaves : List ℕ) (admin_key : ℕ → ℕ) (a : ℕ) (s : Bond S)
    → let s1 = leave a s in
      let r = search_lags slaves s1.lags (s1.world.ports a) none in
      choose_lag slaves admin_key a s ≡ picked (admin_key a) a s1 (r.0) (r.1)
unfolding choose_lag
choose_lag-picked slaves admin_key a s = refl

pub choose_lag-Ways :
    {S : Type 0} (slaves : List ℕ) (admin_key : ℕ → ℕ) (a : ℕ) (s : Bond S)
    → Ways slaves (admin_key a) a (leave a s) (choose_lag slaves admin_key a s)
choose_lag-Ways slaves admin_key a s =
    let s1 = leave a s in
    let p = s1.world.ports a in
    let r = search_lags slaves s1.lags p none in
    let key = admin_key a in
    let e = choose_lag-picked slaves admin_key a s in
    elim (search_lags-Searched slaves s1.lags p none) [
      | inl (g, found, first) ↦ inl (g, first, e ∙ ap (λ x. picked key a s1 x (r.1)) found)
      | inr (lost, unsuited, inl (g, known, k)) ↦ absurd (cc)
      | inr (lost, unsuited, inr (unset, inl (g, first, k))) ↦ inr (
          inl (
            g,
            unsuited,
            first,
            e ∙ ap (λ x. picked key a s1 x (r.1)) lost ∙ ap (picked key a s1 none) k,
          ))
      | inr (lost, unsuited, inr (unset, inr (taken, k))) ↦ inr (
          inr (
            unsuited,
            taken,
            e ∙ ap (λ x. picked key a s1 x (r.1)) lost ∙ ap (picked key a s1 none) k,
          ))
    ]
