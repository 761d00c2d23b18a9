-- ===== src/Bond/Group/Enough.antt =====
-- servers/bond_3ad.c: there are as many aggregators as ports, so that a port always finds one.
use linuxab.Prelude.{
  ℕ, suc, ◌≤◌, ◌≡◌, refl, sym, ap, ◌∙◌, inl, inr, true, false, none, some, List, [], ◌∷◌, ◌==◌,
  length, Bool-cases, Option-cases, arith,
}
use linuxab.Prelude.Distinct.{NotIn, Distinct, without, Distinct-without}
use linuxab.Bond.Mux.{SlaveFlags}
use linuxab.Bond.Mux.Ready.{member}
use linuxab.Bond.Speed.{Lane}
use linuxab.Bond.Select.{AdSelect}
use linuxab.Bond.Group.{Bond, is_empty, leave, ad_port_selection_logic}
use linuxab.Bond.Group.Lists.{
  IsGrouped, leave-IsGrouped, leave-none, leave-some, member-without, length-without-member,
}
use linuxab.Bond.Group.Choose.{NoneOf, is_free}
use linuxab.Bond.Group.Fits.{Fitting}
use linuxab.Bond.Group.Outcome.{untouched, ad_port_selection_logic-Placed}

-- Every number of a list is on another.
abbrev Within : List ℕ → List ℕ → Type 0
Within [] xs = Unit {0}
Within (y ∷ ys) xs = (member y xs ≡ true) × Within ys xs

Within-without :
    (y : ℕ) (ys xs : List ℕ) → Distinct xs → NotIn y ys → Within ys xs → Within ys (without y xs)
Within-without y [] xs d n w = tt
Within-without y (z ∷ ys) xs d n w = (
  member-without y z xs d ∙ (let f : (y == z) ≡ false = ground arith in rw (f, w.0) refl),
  Within-without y ys xs d n.1 w.1,
)

-- Different numbers of a list are no more than it has.
Within-length : (ys xs : List ℕ) → Distinct ys → Distinct xs → Within ys xs → length ys ≤ length xs
Within-length [] xs d e w = omega arith
Within-length (y ∷ ys) xs d e w = omega (
  arith,
  length-without-member y xs w.0,
  Within-length ys (without y xs) d.1 (Distinct-without y xs e) (Within-without y ys xs e d.0 w.1),
)

-- The first port of each aggregator, and 0 for one without ports.
front : List ℕ → ℕ
front [] = 0
front (x ∷ xs) = x

front-member : (xs : List ℕ) → is_empty xs ≡ false → member (front xs) xs ≡ true
unfolding front member
front-member [] h = cc
front-member (x ∷ xs) h = ground arith

module _ {S : Type 0} (s : Bond S) (v : IsGrouped s) where
  abbrev fronts : List ℕ → List ℕ
  fronts [] = []
  fronts (g ∷ gs) = front (s.lags g).lag_ports ∷ fronts gs

  -- A port that is first on the list of an aggregator belongs to it.
  front_belongs :
      (g : ℕ) → is_free s.lags g ≡ false → s.aggregator (front (s.lags g).lag_ports) ≡ some g
  front_belongs g f = v.belongs (front (s.lags g).lag_ports) g (front-member (s.lags g).lag_ports f)

  fronts_differ :
      (a : ℕ) (h : ℕ) (gs : List ℕ)
      → s.aggregator a ≡ some h
      → NotIn h gs
      → NoneOf (is_free s.lags) gs
      → NotIn a (fronts gs)
  fronts_differ a h [] e n t = tt
  fronts_differ a h (g ∷ gs) e n t = (
    (λ same.
        n.0 (let k : some h ≡ some g = sym e ∙ ap s.aggregator same ∙ front_belongs g t.0 in cc)),
    fronts_differ a h gs e n.1 t.1,
  )

  fronts-Distinct : (gs : List ℕ) → Distinct gs → NoneOf (is_free s.lags) gs → Distinct (fronts gs)
  fronts-Distinct [] d t = tt
  fronts-Distinct (g ∷ gs) d t = (
    fronts_differ (front (s.lags g).lag_ports) g gs (front_belongs g t.0) d.0 t.1,
    fronts-Distinct gs d.1 t.1,
  )

  length-fronts : (gs : List ℕ) → length (fronts gs) ≡ length gs
  length-fronts [] = refl
  length-fronts (g ∷ gs) = ap suc (length-fronts gs)

  -- A port without an aggregator is none of them.
  fronts_without :
      (a : ℕ) (gs : List ℕ)
      → s.aggregator a ≡ none
      → NoneOf (is_free s.lags) gs
      → NotIn a (fronts gs)
  fronts_without a [] e t = tt
  fronts_without a (g ∷ gs) e t = (
    (λ same. let k : none ≡ some g = sym e ∙ ap s.aggregator same ∙ front_belongs g t.0 in cc),
    fronts_without a gs e t.1,
  )

  fronts-Within :
      (gs slaves : List ℕ)
      → ((b g : ℕ) → s.aggregator b ≡ some g → member b slaves ≡ true)
      → NoneOf (is_free s.lags) gs
      → Within (fronts gs) slaves
  fronts-Within [] slaves all t = tt
  fronts-Within (g ∷ gs) slaves all t =
      (all (front (s.lags g).lag_ports) g (front_belongs g t.0), fronts-Within gs slaves all t.1)

  -- Where a slave's port has no aggregator, an aggregator of a slave has no port.
  not_all_taken :
      (slaves : List ℕ) (a : ℕ)
      → Distinct slaves
      → member a slaves ≡ true
      → ((b g : ℕ) → s.aggregator b ≡ some g → member b slaves ≡ true)
      → s.aggregator a ≡ none
      → ¬ NoneOf (is_free s.lags) slaves
  not_all_taken slaves a d m all alone t =
      let more =
        Within-length (a ∷ fronts slaves) slaves
          (fronts_without a slaves alone t, fronts-Distinct slaves d t) d
          (m, fronts-Within slaves slaves all t) in
      absurd (omega (arith, more, length-fronts slaves))

-- To leave gives no port an aggregator.
leave_fewer :
    {S : Type 0} (a b g : ℕ) (s : Bond S)
    → IsGrouped s
    → (leave a s).aggregator b ≡ some g
    → s.aggregator b ≡ some g
leave_fewer a b g s v e = elim (Option-cases (s.aggregator a)) [
  | inl k ↦ ap (λ z. z.aggregator b) (sym (leave-none a s k)) ∙ e
  | inr (h, k) ↦ let e' = ap (λ z. z.aggregator b) (sym (leave-some a h s v k)) ∙ e in ground arith
]

-- When the lists are as they should be, and only slaves have their ports on them, the logic leaves
-- every slave's port selected. One that was not selected has an aggregator then: the bond has one for
-- each slave, and the error that no suitable aggregator was found is not reached.
pub ad_port_selection_logic_selects :
    {S : Type 0} (flags : SlaveFlags S) (mode : AdSelect) (slaves : List ℕ) (links : ℕ → Lane)
    (admin_key : ℕ → ℕ) (a : ℕ) (s : Bond S)
    → IsGrouped s
    → Fitting s
    → Distinct slaves
    → ((b g : ℕ) → s.aggregator b ≡ some g → member b slaves ≡ true)
    → member a slaves ≡ true
    → let t = ad_port_selection_logic flags mode slaves links admin_key a s in
      ((t.world.ports a).sm_vars.selected ≡ true)
      × ((s.world.ports a).sm_vars.selected ≡ false → (g : ℕ) × (t.aggregator a ≡ some g))
ad_port_selection_logic_selects flags mode slaves links admin_key a s v f d all m =
    elim (Bool-cases (s.world.ports a).sm_vars.selected) [
      | inl t ↦ (
        ap (λ z. (z.world.ports a).sm_vars.selected)
              (untouched flags mode slaves links admin_key a s t)
            ∙ t,
        (λ u. let bad : true ≡ false = sym t ∙ u in absurd (cc)),
      )
      | inr u ↦
          let (alone, placed) =
            ad_port_selection_logic-Placed flags mode slaves links admin_key a s v f u in
          elim placed [
            | inl (g, first, at, ports, sel, fit) ↦ (sel, (λ w. (g, at)))
            | inr (unsuited, taken, same) ↦ absurd (
                not_all_taken (leave a s) (leave-IsGrouped a s v).0 slaves a d m
                  (λ b g e. all b g (leave_fewer a b g s v e)) alone taken)
          ]
    ]
