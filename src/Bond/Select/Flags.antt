-- ===== src/Bond/Select/Flags.antt =====
-- servers/bond_3ad.c: the writes of `is_active` in ad_agg_selection_logic, against one choice.
use linuxab.Prelude.{
  ℕ, ◌≡◌, refl, ap, ◌∙◌, inl, inr, Bool, true, false, ◌||◌, Option, none, some, List, [], ◌∷◌, ◌==◌,
  if◌then◌else◌, Bool-cases, arith,
}
use linuxab.Bond.Select.{
  AdSelect, Agg, stays, set_active, clear_active, keep_stable, keep_same, take_best, active_ports,
  agg_has_partner,
}
use linuxab.Bond.Mux.Ready.{member}

-- The one aggregator that is to be active, and whether it is a new one.
abbrev pub decided : AdSelect → (ℕ → Agg) → Option ℕ → Option ℕ → Option ℕ × Bool
decided mode aggs active none = (none, false)
decided mode aggs none (some b) = (some b, true)
decided mode aggs (some a) (some b) =
    if stays mode (aggs a) (aggs b) || (b == a) then (some a, false) else (some b, true)

-- Whether the choice is `i`.
abbrev pub is_choice : Option ℕ → ℕ → Bool
is_choice none i = false
is_choice (some c) i = c == i

abbrev cleared : List ℕ → ℕ → Agg → Agg
cleared slaves k a = record a { is_active = if member k slaves then false else a.is_active }

cleared_here :
    (b : Bool) (j : ℕ) (slaves : List ℕ) (k : ℕ) (a : Agg)
    → (j == k) ≡ b
    → cleared slaves k (if b then record a { is_active = false } else a)
      ≡ record a { is_active = if b || member k slaves then false else a.is_active }
cleared_here true j slaves k a e = ap (λ v. record a { is_active = v }) (ground arith)
cleared_here false j slaves k a e = refl

clear_active_lem :
    (slaves : List ℕ) (aggs : ℕ → Agg) (k : ℕ)
    → clear_active slaves aggs k ≡ cleared slaves k (aggs k)
unfolding clear_active member set_active
clear_active_lem [] aggs k = refl
clear_active_lem (j ∷ slaves) aggs k =
    clear_active_lem slaves (set_active false j aggs) k
    ∙ cleared_here (j == k) j slaves k (aggs k) refl

clear_active-member :
    (slaves : List ℕ) (aggs : ℕ → Agg) (k : ℕ)
    → member k slaves ≡ true
    → (clear_active slaves aggs k).is_active ≡ false
clear_active-member slaves aggs k m =
    ap (λ a. a.is_active) (clear_active_lem slaves aggs k)
    ∙ ap (λ b. if b then false else (aggs k).is_active) m

-- The STABLE policy does not look at the flags.
stays-clear_active :
    (mode : AdSelect) (slaves : List ℕ) (aggs : ℕ → Agg) (a b : ℕ)
    → stays mode (clear_active slaves aggs a) (clear_active slaves aggs b)
      ≡ stays mode (aggs a) (aggs b)
unfolding stays active_ports agg_has_partner
stays-clear_active mode slaves aggs a b =
    rw (clear_active_lem slaves aggs a, clear_active_lem slaves aggs b) refl

set_active-choice :
    (c i : ℕ) (aggs : ℕ → Agg)
    → (aggs i).is_active ≡ false
    → (set_active true c aggs i).is_active ≡ is_choice (some c) i
unfolding set_active
set_active-choice c i aggs e = ground arith

abbrev pub is_new : Option ℕ → Bool
is_new best = elim best [ none ↦ false | some b ↦ true ]

-- The writes leave exactly the choice active of the slaves' aggregators.
pub take_best-decided :
    (mode : AdSelect) (slaves : List ℕ) (aggs : ℕ → Agg) (active best : Option ℕ) (i : ℕ)
    → member i slaves ≡ true
    → let s = keep_same active (keep_stable mode active (best, clear_active slaves aggs)) in
      ((take_best s i).is_active ≡ is_choice (decided mode aggs active best).0 i)
      × (is_new (s.0) ≡ (decided mode aggs active best).1)
unfolding keep_same keep_stable take_best
take_best-decided mode slaves aggs none none i m = (clear_active-member slaves aggs i m, refl)
take_best-decided mode slaves aggs none (some b) i m =
    (set_active-choice b i (clear_active slaves aggs) (clear_active-member slaves aggs i m), refl)
take_best-decided mode slaves aggs (some a) none i m = (clear_active-member slaves aggs i m, refl)
take_best-decided mode slaves aggs (some a) (some b) i m =
    let off = clear_active-member slaves aggs i m in
    let same = stays-clear_active mode slaves aggs a b in
    let on : (c : ℕ) → (set_active true c (clear_active slaves aggs) i).is_active ≡ (c == i) =
      λ c. set_active-choice c i (clear_active slaves aggs) off in
    elim (Bool-cases (stays mode (aggs a) (aggs b))) [
      | inl t ↦ rw (same, t) (on a, refl)
      | inr f ↦ elim (Bool-cases (b == a)) [
        | inl t ↦ rw (same, f, t) (on a, refl)
        | inr g ↦ rw (same, f, g) (on b, refl)
      ]
    ]
