-- ===== src/Bond/Select/Choice.antt =====
-- servers/bond_3ad.c: the loop of ad_agg_selection_logic over the slaves.
use linuxab.Prelude.{
  ℕ, ◌≡◌, refl, sym, ap, ◌∙◌, subst, ◌⊎◌, inl, inr, true, false, Option, none, some, List, [], ◌∷◌,
  ◌==◌, if◌then◌else◌, Bool-cases, arith,
}
use linuxab.Bond.Select.{AdSelect, Agg, beats, ad_agg_selection_test, eligible, select_best}
use linuxab.Bond.Select.Order.{beats_weak, beats_asym}
use linuxab.Bond.Mux.Ready.{member}

pub beats_irrefl : (mode : AdSelect) (x : Agg) → beats mode x x ≡ false
beats_irrefl mode x = elim (Bool-cases (beats mode x x)) [
  | inl t ↦ beats_asym mode x x t
  | inr f ↦ f
]

-- The choice is there, lies in the list, and the aggregator `x` does not beat it.
abbrev pub Chosen : AdSelect → (ℕ → Agg) → List ℕ → Agg → Option ℕ → Type 0
Chosen mode aggs l x none = ⊥
Chosen mode aggs l x (some r) = (member r l ≡ true) × (beats mode x (aggs r) ≡ false)

select_step :
    (mode : AdSelect) (aggs : ℕ → Agg) (best : Option ℕ) (i : ℕ) (l : List ℕ)
    → select_best mode aggs best (i ∷ l)
      ≡ select_best mode aggs
          (if eligible (aggs i) then some (ad_agg_selection_test mode aggs best i) else best)
          l
unfolding select_best
select_step mode aggs best i l = refl

select_end :
    (mode : AdSelect) (aggs : ℕ → Agg) (best : Option ℕ) → select_best mode aggs best [] ≡ best
unfolding select_best
select_end mode aggs best = refl

-- What takes the place of `b`, whichever wins: neither `b` nor `i` beats it.
test_weak :
    (mode : AdSelect) (aggs : ℕ → Agg) (b i : ℕ)
    → let t = ad_agg_selection_test mode aggs (some b) i in
      (beats mode (aggs b) (aggs t) ≡ false)
      × (beats mode (aggs i) (aggs t) ≡ false)
      × ((t ≡ b) ⊎ (t ≡ i))
unfolding ad_agg_selection_test
test_weak mode aggs b i = elim (Bool-cases (beats mode (aggs i) (aggs b))) [
  | inl t ↦ rw t (beats_asym mode (aggs i) (aggs b) t, beats_irrefl mode (aggs i), inr refl)
  | inr f ↦ rw f (beats_irrefl mode (aggs b), f, inl refl)
]

-- From a first best in `all`, over a part of `all`.
abbrev pub Within : List ℕ → List ℕ → Type 0
Within [] all = Unit {0}
Within (i ∷ l) all = (member i all ≡ true) × Within l all

abbrev pub InAll : List ℕ → Option ℕ → Type 0
InAll all none = Unit {0}
InAll all (some b) = member b all ≡ true

test_member :
    (mode : AdSelect) (aggs : ℕ → Agg) (b i : ℕ) (all : List ℕ)
    → member b all ≡ true
    → member i all ≡ true
    → member (ad_agg_selection_test mode aggs (some b) i) all ≡ true
test_member mode aggs b i all mb mi = elim ((test_weak mode aggs b i).2) [
  | inl e ↦ rw e mb
  | inr e ↦ rw e mi
]

test_none : (mode : AdSelect) (aggs : ℕ → Agg) (i : ℕ) → ad_agg_selection_test mode aggs none i ≡ i
unfolding ad_agg_selection_test
test_none mode aggs i = refl

found :
    (mode : AdSelect) (aggs : ℕ → Agg) (best : Option ℕ) (i : ℕ) (all : List ℕ)
    → InAll all best
    → member i all ≡ true
    → member (ad_agg_selection_test mode aggs best i) all ≡ true
found mode aggs none i all h m = ap (λ k. member k all) (test_none mode aggs i) ∙ m
found mode aggs (some b) i all h m = test_member mode aggs b i all h m

pub select_keeps :
    (mode : AdSelect) (aggs : ℕ → Agg) (x : Agg) (b : ℕ) (l all : List ℕ)
    → Within l all
    → member b all ≡ true
    → beats mode x (aggs b) ≡ false
    → Chosen mode aggs all x (select_best mode aggs (some b) l)
select_keeps mode aggs x b [] all w m h = rw (select_end mode aggs (some b)) (m, h)
select_keeps mode aggs x b (i ∷ l) all w m h =
    let t = ad_agg_selection_test mode aggs (some b) i in
    let k = test_weak mode aggs b i in
    rw (select_step mode aggs (some b) i l) (elim (Bool-cases (eligible (aggs i))) [
      | inl e ↦ rw e (
          select_keeps mode aggs x t l all w.1 (test_member mode aggs b i all m w.0)
            (beats_weak mode x (aggs b) (aggs t) h k.0))
      | inr f ↦ rw f (select_keeps mode aggs x b l all w.1 m h)
    ])

next_InAll :
    (mode : AdSelect) (aggs : ℕ → Agg) (best : Option ℕ) (i : ℕ) (all : List ℕ)
    → InAll all best
    → member i all ≡ true
    → InAll all (if eligible (aggs i) then some (ad_agg_selection_test mode aggs best i) else best)
next_InAll mode aggs best i all h m = elim (Bool-cases (eligible (aggs i))) [
  | inl e ↦ rw e (found mode aggs best i all h m)
  | inr f ↦ rw f h
]

-- At its own turn an eligible aggregator is passed by one that it does not beat, or is taken.
covers_here :
    (mode : AdSelect) (aggs : ℕ → Agg) (best : Option ℕ) (i : ℕ) (l all : List ℕ)
    → Within l all
    → InAll all best
    → member i all ≡ true
    → eligible (aggs i) ≡ true
    → Chosen mode aggs all (aggs i) (
        select_best mode aggs
          (if eligible (aggs i) then some (ad_agg_selection_test mode aggs best i) else best)
          l)
covers_here mode aggs none i l all w b m e =
    rw (e, test_none mode aggs i)
      (select_keeps mode aggs (aggs i) i l all w m (beats_irrefl mode (aggs i)))
covers_here mode aggs (some c) i l all w b m e = rw e (
    select_keeps mode aggs (aggs i) (ad_agg_selection_test mode aggs (some c) i) l all w
      (test_member mode aggs c i all b m) ((test_weak mode aggs c i).1))

-- An eligible aggregator of the list does not beat the choice.
pub select_covers :
    (mode : AdSelect) (aggs : ℕ → Agg) (best : Option ℕ) (i : ℕ) (l all : List ℕ)
    → Within l all
    → InAll all best
    → member i l ≡ true
    → eligible (aggs i) ≡ true
    → Chosen mode aggs all (aggs i) (select_best mode aggs best l)
unfolding member
select_covers mode aggs best i [] all w b m e = ground arith
select_covers mode aggs best i (j ∷ l) all w b m e =
    rw (select_step mode aggs best j l) (elim (Bool-cases (j == i)) [
      | inl t ↦
          let same : j ≡ i = ground arith in
          subst
            (λ k. Chosen mode aggs all (aggs i) (
              select_best mode aggs
                (if eligible (aggs k) then some (ad_agg_selection_test mode aggs best k) else best)
                l))
            (sym same)
            (covers_here mode aggs best i l all w.1 b (ap (λ k. member k all) (sym same) ∙ w.0) e)
      | inr f ↦
          select_covers mode aggs
            (if eligible (aggs j) then some (ad_agg_selection_test mode aggs best j) else best) i l
            all w.1 (next_InAll mode aggs best j all b w.0) (rw f at m) e
    ])

pub member_later : (i j : ℕ) (l : List ℕ) → member i l ≡ true → member i (j ∷ l) ≡ true
unfolding member
member_later i j l m = ground arith

pub member_first : (i : ℕ) (l : List ℕ) → member i (i ∷ l) ≡ true
unfolding member
member_first i l = ground arith

Within-later : (j : ℕ) (l all : List ℕ) → Within l all → Within l (j ∷ all)
Within-later j [] all w = tt
Within-later j (i ∷ l) all w = (member_later i j all w.0, Within-later j l all w.1)

pub Within-self : (l : List ℕ) → Within l l
Within-self [] = tt
Within-self (i ∷ l) = (member_first i l, Within-later i l l (Within-self l))
