-- ===== src/Bond/Select/Outcome.antt =====
-- servers/bond_3ad.c: which aggregator ad_agg_selection_logic leaves active.
use linuxab.Prelude.{
  ℕ, ◌≡◌, ◌≢◌, refl, sym, ap, ◌∙◌, inl, inr, Bool, true, false, Option, none, some, List, [], ◌∷◌,
  ◌==◌, if◌then◌else◌, Bool-cases, arith,
}
use linuxab.Bond.Select.{
  AdSelect, bond_ad_stable, Agg, Selection, agg_device_up, agg_has_partner, eligible,
  get_active_agg, select_best, is_stable, has_ports, stays, up_or_none, ad_agg_selection_logic,
}
use linuxab.Bond.Mux.Ready.{member}
use linuxab.Bond.Select.Flags.{decided, is_choice, take_best-decided}
use linuxab.Bond.Select.Policy.{merits, lex_le, beats-merits}
use linuxab.Bond.Select.Choice.{
  Chosen, InAll, beats_irrefl, member_later, member_first, Within-self, select_keeps, select_covers,
}

-- What is active of the slaves' aggregators is the choice alone, and the ports of the one that was active
-- are disabled when it is new.
logic_active :
    (mode : AdSelect) (slaves : List ℕ) (aggs : ℕ → Agg) (update : Bool) (i : ℕ)
    → member i slaves ≡ true
    → let active = get_active_agg slaves aggs in
      let best = select_best mode aggs (up_or_none aggs active) slaves in
      let d = decided mode aggs active best in
      let s = ad_agg_selection_logic mode slaves aggs update in
      ((s.aggs i).is_active ≡ is_choice (d.0) i) × (s.disabled ≡ (if d.1 then active else none))
unfolding ad_agg_selection_logic
logic_active mode slaves aggs update i m =
    let active = get_active_agg slaves aggs in
    let best = select_best mode aggs (up_or_none aggs active) slaves in
    let (on, new) = take_best-decided mode slaves aggs active best i m in
    (on, ap (λ (b : Bool). if b then active else none) new)

one_choice :
    (chosen : Option ℕ) (i j : ℕ) → i ≢ j → is_choice chosen i ≡ true → is_choice chosen j ≡ false
one_choice none i j ne p = refl
one_choice (some c) i j ne p = ground arith

-- In every mode, and however many of the bond's aggregators were active before the selection, when one of
-- them is active after it no other is.
pub ad_agg_selection_logic_one :
    (mode : AdSelect) (slaves : List ℕ) (aggs : ℕ → Agg) (update : Bool) (i j : ℕ)
    → i ≢ j
    → member i slaves ≡ true
    → member j slaves ≡ true
    → ((ad_agg_selection_logic mode slaves aggs update).aggs i).is_active ≡ true
    → ((ad_agg_selection_logic mode slaves aggs update).aggs j).is_active ≡ false
ad_agg_selection_logic_one mode slaves aggs update i j ne mi mj p =
    let active = get_active_agg slaves aggs in
    let best = select_best mode aggs (up_or_none aggs active) slaves in
    (logic_active mode slaves aggs update j mj).0
    ∙ one_choice (decided mode aggs active best).0 i j ne
        (sym ((logic_active mode slaves aggs update i mi).0) ∙ p)

InAll-later : (j : ℕ) (l : List ℕ) (o : Option ℕ) → InAll l o → InAll (j ∷ l) o
InAll-later j l none h = tt
InAll-later j l (some b) h = member_later b j l h

active_InAll : (slaves : List ℕ) (aggs : ℕ → Agg) → InAll slaves (get_active_agg slaves aggs)
unfolding get_active_agg
active_InAll [] aggs = tt
active_InAll (i ∷ slaves) aggs = elim (Bool-cases (aggs i).is_active) [
  | inl t ↦ rw t (member_first i slaves)
  | inr f ↦ rw f (InAll-later i slaves (get_active_agg slaves aggs) (active_InAll slaves aggs))
]

up_InAll : (l : List ℕ) (aggs : ℕ → Agg) (o : Option ℕ) → InAll l o → InAll l (up_or_none aggs o)
up_InAll l aggs none h = tt
up_InAll l aggs (some a) h = elim (Bool-cases (agg_device_up (aggs a))) [
  | inl t ↦ rw t h
  | inr f ↦ rw f tt
]

stays_stable : (mode : AdSelect) (a b : Agg) → is_stable mode ≡ false → stays mode a b ≡ false
unfolding stays
stays_stable mode a b s = ground arith

-- In a mode other than STABLE, the choice for a best aggregator is that one.
decided_best :
    (mode : AdSelect) (aggs : ℕ → Agg) (active : Option ℕ) (b : ℕ)
    → is_stable mode ≡ false
    → (decided mode aggs active (some b)).0 ≡ some b
decided_best mode aggs none b s = refl
decided_best mode aggs (some a) b s = let k = stays_stable mode (aggs a) (aggs b) s in ground arith

-- The selection leaves one of the slaves' aggregators active, and `x` has no more to offer than it.
abbrev pub Best : AdSelect → (ℕ → Agg) → List ℕ → Agg → Selection → Type 0
Best mode aggs slaves x s =
    (c : ℕ) × (member c slaves ≡ true)
    × ((s.aggs c).is_active ≡ true)
    × (lex_le (merits mode x) (merits mode (aggs c)) ≡ true)

Best-of :
    (mode : AdSelect) (slaves : List ℕ) (aggs : ℕ → Agg) (update : Bool) (x : Agg) (best : Option ℕ)
    → is_stable mode ≡ false
    → select_best mode aggs (up_or_none aggs (get_active_agg slaves aggs)) slaves ≡ best
    → Chosen mode aggs slaves x best
    → Best mode aggs slaves x (ad_agg_selection_logic mode slaves aggs update)
Best-of mode slaves aggs update x none s e h = absurd h
Best-of mode slaves aggs update x (some c) s e h =
    let active = get_active_agg slaves aggs in
    let same : (c == c) ≡ true = ground arith in
    (
      c,
      h.0,
      (logic_active mode slaves aggs update c h.0).0
          ∙ ap (λ o. is_choice (decided mode aggs active o).0 c) e
          ∙ ap (λ o. is_choice o c) (decided_best mode aggs active c s)
          ∙ same,
      beats-merits mode x (aggs c) h.1,
    )

-- In a mode other than STABLE, when an aggregator of the bond has an active port and a device that is up,
-- the selection leaves an aggregator of the bond active that has at least as much to offer. First it
-- counts that an aggregator is no individual, then that it has a partner; of two that agree in this, the
-- bandwidth decides for BANDWIDTH, the active ports and then the bandwidth for COUNT, and the
-- priority of the ports, the active ports and then the bandwidth for PRIO, more always being better.
pub ad_agg_selection_logic-Best :
    (mode : AdSelect) (slaves : List ℕ) (aggs : ℕ → Agg) (update : Bool) (i : ℕ)
    → is_stable mode ≡ false
    → member i slaves ≡ true
    → eligible (aggs i) ≡ true
    → Best mode aggs slaves (aggs i) (ad_agg_selection_logic mode slaves aggs update)
ad_agg_selection_logic-Best mode slaves aggs update i s m e =
    let active = get_active_agg slaves aggs in
    let first = up_or_none aggs active in
    Best-of mode slaves aggs update (aggs i) (select_best mode aggs first slaves) s refl (
      select_covers mode aggs first i slaves slaves (Within-self slaves)
        (up_InAll slaves aggs active (active_InAll slaves aggs)) m e)

stays_on :
    (a b : Agg)
    → has_ports a ≡ true
    → eligible a ≡ true
    → agg_has_partner a ≡ true
    → a.actor_oper_aggregator_key ≢ 0
    → stays bond_ad_stable a b ≡ true
unfolding stays eligible
stays_on a b p e h k = ground arith

stable_choice :
    (slaves : List ℕ) (aggs : ℕ → Agg) (a : ℕ) (best : Option ℕ)
    → Chosen bond_ad_stable aggs slaves (aggs a) best
    → has_ports (aggs a) ≡ true
    → eligible (aggs a) ≡ true
    → agg_has_partner (aggs a) ≡ true
    → (aggs a).actor_oper_aggregator_key ≢ 0
    → decided bond_ad_stable aggs (some a) best ≡ (some a, false)
stable_choice slaves aggs a none c p e h k = absurd c
stable_choice slaves aggs a (some b) c p e h k = rw (stays_on (aggs a) (aggs b) p e h k) refl

device_up : (a : Agg) → eligible a ≡ true → agg_device_up a ≡ true
unfolding eligible
device_up a e = ground arith

stable_decision :
    (slaves : List ℕ) (aggs : ℕ → Agg) (a : ℕ)
    → get_active_agg slaves aggs ≡ some a
    → member a slaves ≡ true
    → has_ports (aggs a) ≡ true
    → eligible (aggs a) ≡ true
    → agg_has_partner (aggs a) ≡ true
    → (aggs a).actor_oper_aggregator_key ≢ 0
    → let active = get_active_agg slaves aggs in
      decided bond_ad_stable aggs active
        (select_best bond_ad_stable aggs (up_or_none aggs active) slaves)
      ≡ (some a, false)
stable_decision slaves aggs a act m p e h k =
    let best : Option ℕ → Option ℕ = λ o. select_best bond_ad_stable aggs o slaves in
    let up : up_or_none aggs (some a) ≡ some a =
      ap (λ b. if b then some a else none) (device_up (aggs a) e) in
    ap (λ o. decided bond_ad_stable aggs o (best (up_or_none aggs o))) act
    ∙ ap (λ o. decided bond_ad_stable aggs (some a) (best o)) up
    ∙ stable_choice slaves aggs a (best (some a))
        (select_keeps bond_ad_stable aggs (aggs a) a slaves slaves (Within-self slaves) m
          (beats_irrefl bond_ad_stable (aggs a)))
        p e h k

-- In the STABLE mode the active aggregator stays the active one, and no port of it is disabled, as long
-- as it has an active port, a device that is up, a partner and a key: whatever the others offer.
pub ad_agg_selection_logic_stays :
    (slaves : List ℕ) (aggs : ℕ → Agg) (update : Bool) (a : ℕ)
    → get_active_agg slaves aggs ≡ some a
    → member a slaves ≡ true
    → has_ports (aggs a) ≡ true
    → eligible (aggs a) ≡ true
    → agg_has_partner (aggs a) ≡ true
    → (aggs a).actor_oper_aggregator_key ≢ 0
    → let s = ad_agg_selection_logic bond_ad_stable slaves aggs update in
      ((s.aggs a).is_active ≡ true) × (s.disabled ≡ none)
unfolding ad_agg_selection_logic
ad_agg_selection_logic_stays slaves aggs update a act m p e h k =
    let active = get_active_agg slaves aggs in
    let decision = stable_decision slaves aggs a act m p e h k in
    let (on, off) = logic_active bond_ad_stable slaves aggs update a m in
    let same : (a == a) ≡ true = ground arith in
    (
      on ∙ ap (λ d. is_choice d.0 a) decision ∙ same,
      off ∙ ap (λ d. if d.1 then active else none) decision,
    )
