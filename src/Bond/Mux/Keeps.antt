-- ===== src/Bond/Mux/Keeps.antt =====
-- servers/bond_3ad.c: the steps that ad_mux_machine takes, and the bits that a port shows in each state.
use linuxab.Prelude.{
  ℕ, ◌-◌, ◌≡◌, sym, ap, ◌∙◌, inl, inr, Bool, true, false, ◌||◌, ◌==◌, if◌then◌else◌, Bool-cases,
  arith,
}
use linuxab.Bond.Port.{
  Port, LacpState, MuxState, ad_mux_detached, ad_mux_waiting, ad_mux_attached, ad_mux_collecting,
  ad_mux_distributing, ad_mux_collecting_distributing, expires,
}
use linuxab.Bond.Mux.{
  SlaveFlags, Aggregator, BondParams, World, set_port, set_ready, set_ready_n, same_mux,
  share_ready, agg_ports_are_ready, detach, mux_waiting, mux_attached, mux_collecting,
  mux_distributing, enable_late, enable_port, enable_collecting, disable_distributing,
  enable_collecting_distributing, disable_collecting_distributing, mux_next, mux_enter,
  ad_mux_machine,
}
use linuxab.Bond.Mux.Ready.{member, set_agg_ports_ready_lem}

-- The steps of the machine's diagram; a port that begins again is detached from any state.
abbrev pub may_move : MuxState → MuxState → Bool
may_move m ad_mux_detached = true
may_move m ad_mux_waiting = same_mux m ad_mux_detached || same_mux m ad_mux_waiting
may_move m ad_mux_attached =
    same_mux m ad_mux_waiting
    || same_mux m ad_mux_attached
    || same_mux m ad_mux_collecting
    || same_mux m ad_mux_collecting_distributing
may_move m ad_mux_collecting =
    same_mux m ad_mux_attached || same_mux m ad_mux_collecting || same_mux m ad_mux_distributing
may_move m ad_mux_distributing = same_mux m ad_mux_collecting || same_mux m ad_mux_distributing
may_move m ad_mux_collecting_distributing =
    same_mux m ad_mux_attached || same_mux m ad_mux_collecting_distributing

-- What the port says of itself in a state: whether it collects, and whether it distributes.
abbrev pub Shows : MuxState → LacpState → Type 0
Shows ad_mux_detached s = (s.collecting ≡ false) × (s.distributing ≡ false)
Shows ad_mux_waiting s = (s.collecting ≡ false) × (s.distributing ≡ false)
Shows ad_mux_attached s = (s.collecting ≡ false) × (s.distributing ≡ false)
Shows ad_mux_collecting s = (s.collecting ≡ true) × (s.distributing ≡ false)
Shows ad_mux_distributing s = (s.collecting ≡ true) × (s.distributing ≡ true)
Shows ad_mux_collecting_distributing s = (s.collecting ≡ true) × (s.distributing ≡ true)

-- From `p` to `q` the bits stay, and the state takes a step of the diagram.
abbrev Steps : Port → Port → Type 0
Steps p q =
    (q.actor_oper_port_state.collecting ≡ p.actor_oper_port_state.collecting)
    × (q.actor_oper_port_state.distributing ≡ p.actor_oper_port_state.distributing)
    × (may_move p.sm_mux_state q.sm_mux_state ≡ true)

share_same :
    {S : Type 0} (agg : Aggregator) (w : World S) (c : ℕ)
    → (((share_ready agg w).ports c).sm_mux_state ≡ (w.ports c).sm_mux_state)
      × (((share_ready agg w).ports c).actor_oper_port_state ≡ (w.ports c).actor_oper_port_state)
unfolding share_ready
share_same agg w c =
    let all = agg_ports_are_ready agg.lag_ports w.ports in
    let e = set_agg_ports_ready_lem agg.lag_ports all w.ports c in
    elim (Bool-cases (member c agg.lag_ports)) [
      | inl t ↦
          let e' = e ∙ ap (λ m. if m then set_ready all (w.ports c) else w.ports c) t in
          (ap (λ p. p.sm_mux_state) e', ap (λ p. p.actor_oper_port_state) e')
      | inr f ↦
          let e' = e ∙ ap (λ m. if m then set_ready all (w.ports c) else w.ports c) f in
          (ap (λ p. p.sm_mux_state) e', ap (λ p. p.actor_oper_port_state) e')
    ]

module _ {S : Type 0} (flags : SlaveFlags S) (bond : BondParams) (agg : Aggregator)
    (ticks : ℕ) where
  detach-Steps :
      (a : ℕ) (w : World S) → Steps (w.ports a) ((detach flags bond agg ticks a w).ports a)
  unfolding detach
  detach-Steps a w =
      let s = share_same agg (set_port a (set_ready_n false (w.ports a)) w) a in
      let e : (a == a) ≡ true = ground arith in ground arith

  waiting-Steps :
      (a : ℕ) (w : World S)
      → (w.ports a).sm_mux_state ≡ ad_mux_waiting
      → Steps (w.ports a) ((mux_waiting flags bond agg ticks a w).ports a)
  unfolding mux_waiting
  waiting-Steps a w m =
      let p = w.ports a in
      let counted = record p { sm_mux_timer_counter = p.sm_mux_timer_counter - 1 } in
      let s =
        share_same agg
          (set_port a (if expires p.sm_mux_timer_counter then set_ready_n true counted else counted)
            w)
          a in
      let d = detach-Steps a w in ground arith

  attached-Steps :
      (a : ℕ) (w : World S)
      → (w.ports a).sm_mux_state ≡ ad_mux_attached
      → Steps (w.ports a) ((mux_attached flags bond agg ticks a w).ports a)
  unfolding mux_attached
  attached-Steps a w m = let d = detach-Steps a w in ground arith

  collecting-Steps :
      (a : ℕ) (w : World S)
      → (w.ports a).sm_mux_state ≡ ad_mux_collecting
      → Steps (w.ports a) ((mux_collecting flags bond agg ticks a w).ports a)
  unfolding mux_collecting enable_collecting
  collecting-Steps a w m = ground arith

  late_same : (a : ℕ) (w : World S) → (enable_late flags bond agg ticks a w).ports ≡ w.ports
  unfolding enable_late enable_port
  late_same a w = ground arith

  distributing-Steps :
      (a : ℕ) (w : World S)
      → (w.ports a).sm_mux_state ≡ ad_mux_distributing
      → Steps (w.ports a) ((mux_distributing flags bond agg ticks a w).ports a)
  unfolding mux_distributing
  distributing-Steps a w m = let l = ap (λ f. f a) (late_same a w) in ground arith

  next-Steps :
      (a : ℕ) (w : World S) → Steps (w.ports a) ((mux_next flags bond agg ticks a w).ports a)
  unfolding mux_next
  next-Steps a w =
      let wait = waiting-Steps a w in
      let attach = attached-Steps a w in
      let collect = collecting-Steps a w in
      let distribute = distributing-Steps a w in
      let l = ap (λ f. f a) (late_same a w) in ground arith

  enter-Shows :
      (a : ℕ) (w : World S) (p : Port)
      → Shows p.sm_mux_state p.actor_oper_port_state
      → Steps p (w.ports a)
      → same_mux (w.ports a).sm_mux_state p.sm_mux_state ≡ false
      → Shows
          ((mux_enter flags bond agg ticks a w).ports a).sm_mux_state
          ((mux_enter flags bond agg ticks a w).ports a).actor_oper_port_state
  unfolding mux_enter disable_collecting_distributing enable_collecting_distributing
      disable_distributing enable_collecting enable_port
  enter-Shows a w p shows step changed = ground arith

  enter_state :
      (a : ℕ) (w : World S)
      → ((mux_enter flags bond agg ticks a w).ports a).sm_mux_state ≡ (w.ports a).sm_mux_state
  unfolding mux_enter disable_collecting_distributing enable_collecting_distributing
      disable_distributing enable_collecting enable_port
  enter_state a w = ground arith

  -- A state that is as it was asks for the same bits.
  stays_shown :
      (p q : Port)
      → Shows p.sm_mux_state p.actor_oper_port_state
      → Steps p q
      → same_mux q.sm_mux_state p.sm_mux_state ≡ true
      → Shows q.sm_mux_state q.actor_oper_port_state
  stays_shown p q shows step same = ground arith

  -- Whatever the port's variables and the others' are, the machine takes a port only along a step of its
  -- diagram, and a port that shows what its state asks for before the machine runs shows what the new
  -- state asks for after it: it says that it collects or distributes exactly in the states of that name.
  pub ad_mux_machine-Shows :
      (a : ℕ) (w : World S)
      → Shows (w.ports a).sm_mux_state (w.ports a).actor_oper_port_state
      → let q = (ad_mux_machine flags bond agg ticks a w).ports a in
        (may_move (w.ports a).sm_mux_state q.sm_mux_state ≡ true)
        × Shows q.sm_mux_state q.actor_oper_port_state
  unfolding ad_mux_machine
  ad_mux_machine-Shows a w shows =
      let n = mux_next flags bond agg ticks a w in
      let step = next-Steps a w in
      elim (Bool-cases (same_mux (n.ports a).sm_mux_state (w.ports a).sm_mux_state)) [
        | inl t ↦ rw t (step.2, stays_shown (w.ports a) (n.ports a) shows step t)
        | inr f ↦ rw f (
          ap (may_move (w.ports a).sm_mux_state) (enter_state a n) ∙ step.2,
          enter-Shows a n (w.ports a) shows step f,
        )
      ]

  machine_state :
      (a : ℕ) (w : World S)
      → ((ad_mux_machine flags bond agg ticks a w).ports a).sm_mux_state
        ≡ ((mux_next flags bond agg ticks a w).ports a).sm_mux_state
  unfolding ad_mux_machine
  machine_state a w = let e = enter_state a (mux_next flags bond agg ticks a w) in ground arith

  next_attached :
      (a : ℕ) (w : World S)
      → (w.ports a).sm_vars.begins ≡ false
      → (w.ports a).sm_mux_state ≡ ad_mux_attached
      → mux_next flags bond agg ticks a w ≡ mux_attached flags bond agg ticks a w
  unfolding mux_next
  next_attached a w begins m = ground arith

  detach_state :
      (a : ℕ) (w : World S)
      → ((detach flags bond agg ticks a w).ports a).sm_mux_state ≡ ad_mux_detached
  unfolding detach
  detach_state a w = ground arith

  attached_opens :
      (a : ℕ) (w : World S)
      → (w.ports a).sm_mux_state ≡ ad_mux_attached
      → let q = (mux_attached flags bond agg ticks a w).ports a in
        same_mux q.sm_mux_state ad_mux_attached ≡ false
        → same_mux q.sm_mux_state ad_mux_detached ≡ false
        → ((w.ports a).sm_vars.selected ≡ true)
          × ((w.ports a).partner_oper.port_state.synchronization ≡ true)
          × (agg.is_active ≡ true)
          × (bond.select_timer ≡ 0)
  unfolding mux_attached
  attached_opens a w m on kept = let d = detach_state a w in ground arith

  -- An attached port that leaves its state, other than to be detached, is selected, has its partner in
  -- sync and the active aggregator, and the time for choosing that one is over.
  pub ad_mux_machine_opens :
      (a : ℕ) (w : World S) (m : MuxState)
      → (w.ports a).sm_vars.begins ≡ false
      → (w.ports a).sm_mux_state ≡ ad_mux_attached
      → ((ad_mux_machine flags bond agg ticks a w).ports a).sm_mux_state ≡ m
      → same_mux m ad_mux_attached ≡ false
      → same_mux m ad_mux_detached ≡ false
      → ((w.ports a).sm_vars.selected ≡ true)
        × ((w.ports a).partner_oper.port_state.synchronization ≡ true)
        × (agg.is_active ≡ true)
        × (bond.select_timer ≡ 0)
  ad_mux_machine_opens a w m begins s e on kept =
      let same : m ≡ ((mux_attached flags bond agg ticks a w).ports a).sm_mux_state =
        sym e
        ∙ machine_state a w
        ∙ ap (λ v. (v.ports a).sm_mux_state) (next_attached a w begins s) in
      attached_opens a w s (ap (λ k. same_mux k ad_mux_attached) (sym same) ∙ on)
        (ap (λ k. same_mux k ad_mux_detached) (sym same) ∙ kept)
