-- ===== src/Bond/Handler/Selects.antt =====
-- servers/bond_3ad.c: after a tick that comes to all ports, each of them is selected.
use linuxab.Prelude.{
  ℕ, ◌≡◌, ◌≢◌, refl, sym, ap, ◌∙◌, inl, inr, Bool, true, false, none, some, List, [], ◌∷◌, ◌==◌,
  Bool-cases, ◌⊎◌, arith,
}
use linuxab.Prelude.Distinct.{Distinct}
use linuxab.Bond.Port.{Port}
use linuxab.Bond.Receive.{ad_rx_machine}
use linuxab.Bond.Timers.{ad_periodic_machine, ad_churn_machine, ad_tx_machine}
use linuxab.Bond.Mux.{ad_mux_machine}
use linuxab.Bond.Mux.Ready.{member}
use linuxab.Bond.Group.{Bond, ad_port_selection_logic}
use linuxab.Bond.Group.Lists.{IsGrouped}
use linuxab.Bond.Group.Keeps.{Alike-trans}
use linuxab.Bond.Group.Fits.{Fitting}
use linuxab.Bond.Group.Enough.{ad_port_selection_logic_selects}
use linuxab.Bond.Group.Others.{ad_port_selection_logic-Kept}
use linuxab.Bond.Handler.{
  Setup, params, own_agg, put_port, run_port, run_ports, begin_tick, clear_begin,
  bond_3ad_state_machine_handler,
}
use linuxab.Bond.Handler.Enters.{ad_mux_machine-Moves}
use linuxab.Bond.Handler.Timed.{Alike-churn, Alike-tx}
use linuxab.Bond.Handler.Runs.{
  Good, before-Good, run_port-Good, begin-Good, reselected, reselected-Settled, Settled-Good, left,
  due, handler_leaves,
}

-- Only ports of the slaves are on lists.
abbrev pub SlavesOnly : {S : Type 0} → List ℕ → Bond S → Type 0
SlavesOnly slaves s = (b g : ℕ) → s.aggregator b ≡ some g → member b slaves ≡ true

away :
    {S : Type 0} (c : Setup S) (a b : ℕ) (q : Port) (s : Bond S)
    → (a == b) ≡ false
    → (put_port c a q s).world.ports b ≡ s.world.ports b
away c a b q s f = rw f refl

at :
    {S : Type 0} (c : Setup S) (a : ℕ) (q : Port) (s : Bond S)
    → (put_port c a q s).world.ports a ≡ q
at c a q s = let t : (a == a) ≡ true = ground arith in rw t refl

module _ {S : Type 0} (c : Setup S) where
  -- What the machines of a port leave of another, and that its own port is selected.
  run_port_lem :
      (timer : ℕ) (sent : Bool) (a : ℕ) (s : Bond S)
      → Good s
      → Distinct c.slaves
      → SlavesOnly c.slaves s
      → member a c.slaves ≡ true
      → let t = (run_port c timer sent a s).1 in
        ((t.world.ports a).sm_vars.selected ≡ true)
        × ((b : ℕ)
            → a ≢ b
            → ((t.world.ports b).sm_vars.selected ≡ (s.world.ports b).sm_vars.selected)
              × (t.aggregator b ≡ s.aggregator b))
  unfolding run_port
  run_port_lem timer sent a s v d only m =
      let s1 = put_port c a (ad_rx_machine c.ticks none (s.world.ports a)) s in
      let s2 = put_port c a (ad_periodic_machine c.ticks (s1.world.ports a)) s1 in
      let s3 = ad_port_selection_logic c.flags c.mode c.slaves c.links c.admin_key a s2 in
      let w4 = ad_mux_machine c.flags (params c timer) (own_agg c s3 a) c.ticks a s3.world in
      let s4 : Bond S = record s3 { world = w4 } in
      let p4 = s4.world.ports a in
      let p5 = (ad_tx_machine c.ticks sent p4).1 in
      let p6 = clear_begin (ad_churn_machine c.ticks p5) in
      let v2 : Good s2 = before-Good c a s v in
      let sel =
        ad_port_selection_logic_selects c.flags c.mode c.slaves c.links c.admin_key a s2 (v2.0)
          (v2.1) d only m in
      let moved =
        ad_mux_machine-Moves c.flags (params c timer) (own_agg c s3 a) c.ticks a s3.world in
      (
        ap (λ p. p.sm_vars.selected) (at c a p6 s4)
            ∙ (Alike-trans p6 p5 p4 (Alike-churn c.ticks p5) (Alike-tx c.ticks sent p4)).0
            ∙ (moved a).0
            ∙ sel.0,
        (λ b ne.
            let f : (a == b) ≡ false = ground arith in
            let kept =
              ad_port_selection_logic-Kept c.flags c.mode c.slaves c.links c.admin_key a b s2 (v2.0)
                ne in
            (
              ap (λ p. p.sm_vars.selected) (away c a b p6 s4 f)
                  ∙ (moved b).0
                  ∙ (kept.0).0
                  ∙ ap (λ p. p.sm_vars.selected)
                      (away c a b (ad_periodic_machine c.ticks (s1.world.ports a)) s1 f
                        ∙ away c a b (ad_rx_machine c.ticks none (s.world.ports a)) s f),
              kept.1,
            )),
      )

  -- A port that was selected, or whose machines run, is selected once its machines and those of the
  -- other ports have run.
  kept_or_selected :
      (a b : ℕ) (s t : Bond S)
      → ((t.world.ports a).sm_vars.selected ≡ true)
        × ((i : ℕ)
            → a ≢ i
            → ((t.world.ports i).sm_vars.selected ≡ (s.world.ports i).sm_vars.selected)
              × (t.aggregator i ≡ s.aggregator i))
      → ((s.world.ports b).sm_vars.selected ≡ true) ⊎ (a ≡ b)
      → (t.world.ports b).sm_vars.selected ≡ true
  kept_or_selected a b s t h k = elim (Bool-cases (a == b)) [
    | inl u ↦
        let same : a ≡ b = ground arith in
        ap (λ i. (t.world.ports i).sm_vars.selected) (sym same) ∙ h.0
    | inr f ↦
        let ne : a ≢ b = ground arith in
        elim k [ inl was ↦ (h.1 b ne).0 ∙ was | inr e ↦ absurd (ne e) ]
  ]

  kept-SlavesOnly :
      (a : ℕ) (s t : Bond S)
      → member a c.slaves ≡ true
      → ((i : ℕ) → a ≢ i → t.aggregator i ≡ s.aggregator i)
      → SlavesOnly c.slaves s
      → SlavesOnly c.slaves t
  kept-SlavesOnly a s t m h only b g e = elim (Bool-cases (a == b)) [
    | inl u ↦ let same : a ≡ b = ground arith in ap (λ i. member i c.slaves) (sym same) ∙ m
    | inr f ↦ let ne : a ≢ b = ground arith in only b g (sym (h b ne) ∙ e)
  ]

  run_ports_selects :
      (timer : ℕ) (bound sent : ℕ → Bool) (l : List ℕ) (s : Bond S)
      → Good s
      → Distinct c.slaves
      → SlavesOnly c.slaves s
      → ((b : ℕ) → member b l ≡ true → (member b c.slaves ≡ true) × (bound b ≡ true))
      → (b : ℕ) → ((s.world.ports b).sm_vars.selected ≡ true) ⊎ (member b l ≡ true)
      → ((run_ports c timer bound sent l s).1.world.ports b).sm_vars.selected ≡ true
  unfolding run_ports member
  run_ports_selects timer bound sent [] s v d only all b (inl was) = was
  run_ports_selects timer bound sent [] s v d only all b (inr m) = cc
  run_ports_selects timer bound sent (a ∷ l) s v d only all b k =
      let s1 = (run_port c timer (sent a) a s).1 in
      let (m, set) = all a (ground arith) in
      let h = run_port_lem timer (sent a) a s v d only m in
      let v1 = run_port-Good c timer (sent a) a s v in
      let only1 : SlavesOnly c.slaves s1 = kept-SlavesOnly a s s1 m (λ i ne. (h.1 i ne).1) only in
      let rest =
        run_ports_selects timer bound sent l s1 v1 d only1 (λ i n. all i (ground (arith, n))) b in
      rw set (
        rest (elim k [
          | inl was ↦ inl (kept_or_selected a b s s1 h (inl was))
          | inr n ↦ elim (Bool-cases (a == b)) [
            | inl u ↦ inl (kept_or_selected a b s s1 h (inr (ground arith)))
            | inr f ↦ inr (ground arith)
          ]
        ]))

-- A tick of a bond whose slaves are distinct and all set, and on whose lists are only ports of slaves,
-- leaves every slave's port selected, also one that its machines unselect on the way, whatever the timers,
-- the links and the mode are. Before it each port is on the list of its aggregator and on no other, and
-- each selected port fits its aggregator.
pub bond_3ad_state_machine_handler_selects :
    {S : Type 0} (c : Setup S) (bound sent : ℕ → Bool) (timer : ℕ) (s : Bond S)
    → IsGrouped s
    → Fitting s
    → Distinct c.slaves
    → ((b g : ℕ) → s.aggregator b ≡ some g → member b c.slaves ≡ true)
    → ((b : ℕ) → member b c.slaves ≡ true → bound b ≡ true)
    → (a : ℕ) → member a c.slaves ≡ true
    → ((bond_3ad_state_machine_handler c bound sent timer s).2.world.ports a).sm_vars.selected
      ≡ true
unfolding member begin_tick
bond_3ad_state_machine_handler_selects c bound sent timer s v f d only all a m =
    let s0 = begin_tick s in
    let u = due c bound sent timer s in
    let h = reselected-Settled c u s0 in
    let v1 : Good (reselected c u s0) =
      Settled-Good s0 (reselected c u s0) h (begin-Good c s (v, f)) in
    handler_leaves c bound sent timer s (λ t. (t.world.ports a).sm_vars.selected ≡ true)
      (λ stop. elim stop [
        | inl e ↦
            let gone : member a c.slaves ≡ false = rw e refl in absurd (ground (arith, gone, m))
        | inr (i, on, unset) ↦ let set = all i on in absurd (ground (arith, set, unset))
      ])
      (run_ports_selects c (left c bound sent timer s) bound sent c.slaves (reselected c u s0) v1 d
        (λ b g e. only b g (sym (h.1 b) ∙ e)) (λ b n. (n, all b n)) a (inr m))
