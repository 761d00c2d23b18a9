-- ===== src/Bond/Handler/Moves.antt =====
-- servers/bond_3ad.c: the first half of the mux machine leaves every port's selection, key and partner as
-- they are.
use linuxab.Prelude.{
  ℕ, ◌-◌, ◌≡◌, refl, subst, inl, inr, Bool, true, false, not, ◌&&◌, ◌||◌, ◌==◌, if◌then◌else◌,
  Bool-cases, arith,
}
use linuxab.Bond.Port.{
  Port, MuxState, ad_mux_detached, ad_mux_waiting, ad_mux_attached, ad_mux_collecting,
  ad_mux_distributing, ad_mux_collecting_distributing, expires,
}
use linuxab.Bond.Mux.{
  SlaveFlags, Aggregator, BondParams, World, set_port, set_slave, moves_to_attached, set_ready_n,
  set_mux, share_ready, detach, mux_waiting, mux_attached, mux_collecting, mux_distributing,
  enable_late, enable_port, enable_collecting, mux_next,
}
use linuxab.Bond.Group.Keeps.{Alike, Alike-trans, shared-Alike}

-- No port's selection, key or partner is changed.
abbrev pub Moves : {S : Type 0} → World S → World S → Type 0
Moves w w' = (b : ℕ) → Alike (w'.ports b) (w.ports b)

pub Moves-trans : {S : Type 0} (w x y : World S) → Moves w x → Moves x y → Moves w y
Moves-trans w x y h k b = Alike-trans (y.ports b) (x.ports b) (w.ports b) (k b) (h b)

pub set_port-Moves :
    {S : Type 0} (a : ℕ) (q : Port) (w : World S) → Alike q (w.ports a) → Moves w (set_port a q w)
set_port-Moves a q w h b = elim (Bool-cases (a == b)) [
  | inl t ↦ let e : a ≡ b = ground arith in rw t (subst (λ c. Alike q (w.ports c)) e h)
  | inr f ↦ rw f (refl, refl, refl)
]

pub either_way :
    {S : Type 0} (b : Bool) (w x y : World S) → Moves w x → Moves w y → Moves w (if b then x else y)
either_way true w x y h k = h
either_way false w x y h k = k

module _ {S : Type 0} (flags : SlaveFlags S) (bond : BondParams) (agg : Aggregator)
    (ticks : ℕ) where
  detach-Moves : (a : ℕ) (w : World S) → Moves w (detach flags bond agg ticks a w)
  unfolding detach
  detach-Moves a w =
      let w0 : World S = set_port a (set_ready_n false (w.ports a)) w in
      let w1 : World S = share_ready agg w0 in
      Moves-trans w w1 (set_port a (set_mux ad_mux_detached (w1.ports a)) w1)
        (Moves-trans w w0 w1 (set_port-Moves a (set_ready_n false (w.ports a)) w (refl, refl, refl))
          (shared-Alike agg w0))
        (set_port-Moves a (set_mux ad_mux_detached (w1.ports a)) w1 (refl, refl, refl))

  set_mux-Moves :
      (m : MuxState) (a : ℕ) (w : World S) → Moves w (set_port a (set_mux m (w.ports a)) w)
  set_mux-Moves m a w = set_port-Moves a (set_mux m (w.ports a)) w (refl, refl, refl)

  -- Writes to a slave and to the world's flags leave the ports.
  pub same-Moves : (w : World S) → Moves w w
  same-Moves w b = (refl, refl, refl)

  pub enable_port-Moves : (a : ℕ) (w : World S) → Moves w (enable_port flags bond agg ticks a w)
  unfolding enable_port
  enable_port-Moves a w =
      either_way (flags.is_up (w.slaves a)) w (set_slave a (flags.set_active (w.slaves a)) w) w
        (same-Moves w) (same-Moves w)

  waiting-Moves : (a : ℕ) (w : World S) → Moves w (mux_waiting flags bond agg ticks a w)
  unfolding mux_waiting
  waiting-Moves a w =
      let p = w.ports a in
      let n = p.sm_mux_timer_counter in
      let counted : Port = record p { sm_mux_timer_counter = n - 1 } in
      let q0 : Port = if expires n then set_ready_n true counted else counted in
      let w0 : World S = set_port a q0 w in
      let w1 : World S = share_ready agg w0 in
      let q = w1.ports a in
      let h : Moves w w1 =
        Moves-trans w w0 w1 (set_port-Moves a q0 w (ground arith, ground arith, ground arith))
          (shared-Alike agg w0) in
      let done : World S = set_port a (set_mux ad_mux_attached q) w1 in
      let later : World S = if q.sm_vars.ready && (q.sm_mux_timer_counter == 0) then done else w1 in
      either_way (not p.sm_vars.selected) w (detach flags bond agg ticks a w) later
        (detach-Moves a w)
        (either_way (q.sm_vars.ready && (q.sm_mux_timer_counter == 0)) w done w1
          (Moves-trans w w1 done h (set_mux-Moves ad_mux_attached a w1)) h)

  attached-Moves : (a : ℕ) (w : World S) → Moves w (mux_attached flags bond agg ticks a w)
  unfolding mux_attached
  attached-Moves a w =
      let p = w.ports a in
      let m = if bond.coupled_control then ad_mux_collecting_distributing else ad_mux_collecting in
      let moved : World S = set_port a (set_mux m p) w in
      let in_sync : Port = record p {
        actor_oper_port_state = record p.actor_oper_port_state { synchronization = true };
      } in
      let synced : World S = set_port a in_sync w in
      either_way
        (p.sm_vars.selected
          && (p.partner_oper.port_state.synchronization && (bond.select_timer == 0)))
        w (if agg.is_active then moved else w)
        (if not p.sm_vars.selected || p.sm_vars.standby
          then detach flags bond agg ticks a w
          else if agg.is_active
          then synced
          else w)
        (either_way agg.is_active w moved w (set_mux-Moves m a w) (same-Moves w))
        (either_way (not p.sm_vars.selected || p.sm_vars.standby) w
          (detach flags bond agg ticks a w) (if agg.is_active then synced else w) (detach-Moves a w)
          (either_way agg.is_active w synced w (set_port-Moves a in_sync w (refl, refl, refl))
            (same-Moves w)))

  enable_late-Moves : (a : ℕ) (w : World S) → Moves w (enable_late flags bond agg ticks a w)
  unfolding enable_late
  enable_late-Moves a w =
      either_way (agg.is_active && not (flags.is_active_slave (w.slaves a))) w
        (record (enable_port flags bond agg ticks a w) { update_slave_arr = true }) w
        (enable_port-Moves a w) (same-Moves w)

  pub enable_collecting-Moves :
      (a : ℕ) (w : World S) → Moves w (enable_collecting flags bond agg ticks a w)
  unfolding enable_collecting
  enable_collecting-Moves a w =
      either_way (agg.is_active && flags.is_up (w.slaves a)) w
        (set_slave a (flags.set_rx_enabled (w.slaves a)) w) w (same-Moves w) (same-Moves w)

  collecting-Moves : (a : ℕ) (w : World S) → Moves w (mux_collecting flags bond agg ticks a w)
  unfolding mux_collecting
  collecting-Moves a w =
      let p = w.ports a in
      let back : World S = set_port a (set_mux ad_mux_attached p) w in
      let on : World S = set_port a (set_mux ad_mux_distributing p) w in
      let late : World S = record (enable_collecting flags bond agg ticks a w) {
        update_slave_arr = true;
      } in
      let ready =
        p.sm_vars.selected
        && (p.partner_oper.port_state.synchronization && p.partner_oper.port_state.collecting) in
      let shut = agg.is_active && flags.is_rx_disabled (w.slaves a) in
      either_way (moves_to_attached p) w back (if ready then on else if shut then late else w)
        (set_mux-Moves ad_mux_attached a w)
        (either_way ready w on (if shut then late else w) (set_mux-Moves ad_mux_distributing a w)
          (either_way shut w late w (enable_collecting-Moves a w) (same-Moves w)))

  distributing-Moves : (a : ℕ) (w : World S) → Moves w (mux_distributing flags bond agg ticks a w)
  unfolding mux_distributing
  distributing-Moves a w =
      let p = w.ports a in
      either_way (moves_to_attached p || not p.partner_oper.port_state.collecting) w
        (set_port a (set_mux ad_mux_collecting p) w) (enable_late flags bond agg ticks a w)
        (set_mux-Moves ad_mux_collecting a w) (enable_late-Moves a w)

  -- The first half of the machine in each state.
  abbrev moved_from : ℕ → World S → MuxState → World S
  moved_from a w m = elim m [
    | ad_mux_detached ↦
        if (w.ports a).sm_vars.selected || (w.ports a).sm_vars.standby
        then set_port a (set_mux ad_mux_waiting (w.ports a)) w
        else w
    | ad_mux_waiting ↦ mux_waiting flags bond agg ticks a w
    | ad_mux_attached ↦ mux_attached flags bond agg ticks a w
    | ad_mux_collecting_distributing ↦
        if moves_to_attached (w.ports a)
        then set_port a (set_mux ad_mux_attached (w.ports a)) w
        else enable_late flags bond agg ticks a w
    | ad_mux_collecting ↦ mux_collecting flags bond agg ticks a w
    | ad_mux_distributing ↦ mux_distributing flags bond agg ticks a w
  ]

  from-Moves : (a : ℕ) (w : World S) (m : MuxState) → Moves w (moved_from a w m)
  from-Moves a w ad_mux_detached =
      either_way ((w.ports a).sm_vars.selected || (w.ports a).sm_vars.standby) w
        (set_port a (set_mux ad_mux_waiting (w.ports a)) w) w (set_mux-Moves ad_mux_waiting a w)
        (same-Moves w)
  from-Moves a w ad_mux_waiting = waiting-Moves a w
  from-Moves a w ad_mux_attached = attached-Moves a w
  from-Moves a w ad_mux_collecting_distributing =
      either_way (moves_to_attached (w.ports a)) w
        (set_port a (set_mux ad_mux_attached (w.ports a)) w) (enable_late flags bond agg ticks a w)
        (set_mux-Moves ad_mux_attached a w) (enable_late-Moves a w)
  from-Moves a w ad_mux_collecting = collecting-Moves a w
  from-Moves a w ad_mux_distributing = distributing-Moves a w

  pub next-Moves : (a : ℕ) (w : World S) → Moves w (mux_next flags bond agg ticks a w)
  unfolding mux_next
  next-Moves a w =
      either_way (w.ports a).sm_vars.begins w (set_port a (set_mux ad_mux_detached (w.ports a)) w)
        (moved_from a w (w.ports a).sm_mux_state) (set_mux-Moves ad_mux_detached a w)
        (from-Moves a w (w.ports a).sm_mux_state)
