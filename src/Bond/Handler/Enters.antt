-- ===== src/Bond/Handler/Enters.antt =====
-- servers/bond_3ad.c: the second half of the mux machine, and the whole, leave every port's selection, key and
-- partner as they are.
use linuxab.Prelude.{ℕ, refl, true, false, ◌||◌, ◌==◌}
use linuxab.Bond.Port.{
  Port, MuxState, ad_mux_detached, ad_mux_waiting, ad_mux_attached, ad_mux_collecting,
  ad_mux_distributing, ad_mux_collecting_distributing, ad_timer_to_ticks, ad_wait_while_timer,
}
use linuxab.Bond.Mux.{
  SlaveFlags, Aggregator, BondParams, World, set_port, set_slave, set_bits, same_mux, enable_port,
  enable_collecting, disable_distributing, enable_collecting_distributing,
  disable_collecting_distributing, mux_next, mux_enter, ad_mux_machine,
}
use linuxab.Bond.Group.Keeps.{Alike}
use linuxab.Bond.Handler.Moves.{
  Moves, Moves-trans, set_port-Moves, either_way, same-Moves, enable_port-Moves,
  enable_collecting-Moves, next-Moves,
}

module _ {S : Type 0} (flags : SlaveFlags S) (bond : BondParams) (agg : Aggregator)
    (ticks : ℕ) where
  -- What the second half does to the slaves.
  closed-Moves :
      (a : ℕ) (w : World S) → Moves w (disable_collecting_distributing flags bond agg ticks a w)
  unfolding disable_collecting_distributing
  closed-Moves a w =
      either_way (agg.partner_system == 0) w w
        (record (set_slave a (flags.set_inactive (w.slaves a)) w) { update_slave_arr = true })
        (same-Moves flags bond agg ticks w) (same-Moves flags bond agg ticks w)

  opened-Moves :
      (a : ℕ) (w : World S) → Moves w (enable_collecting_distributing flags bond agg ticks a w)
  unfolding enable_collecting_distributing
  opened-Moves a w =
      either_way agg.is_active w
        (record (enable_port flags bond agg ticks a w) {
          update_slave_arr = true;
          rearmed = w.rearmed || bond.broadcast_neighbor;
        })
        w (enable_port-Moves flags bond agg ticks a w) (same-Moves flags bond agg ticks w)

  quiet-Moves : (a : ℕ) (w : World S) → Moves w (disable_distributing flags bond agg ticks a w)
  unfolding disable_distributing
  quiet-Moves a w =
      either_way (agg.partner_system == 0) w w
        (record (set_slave a (flags.set_tx_disabled (w.slaves a)) w) { update_slave_arr = true })
        (same-Moves flags bond agg ticks w) (same-Moves flags bond agg ticks w)

  abbrev entered_at : ℕ → World S → MuxState → World S
  entered_at a w m =
      let p = w.ports a in
      let asks = record p { ntt = true } in
      elim m [
        | ad_mux_detached ↦
            disable_collecting_distributing flags bond agg ticks a
              (set_port a (set_bits false false false asks) w)
        | ad_mux_waiting ↦
            set_port a
              (record p { sm_mux_timer_counter = ad_timer_to_ticks ticks ad_wait_while_timer 0 }) w
        | ad_mux_attached ↦
            disable_collecting_distributing flags bond agg ticks a
              (set_port a (set_bits false false agg.is_active asks) w)
        | ad_mux_collecting_distributing ↦
            enable_collecting_distributing flags bond agg ticks a
              (set_port a (set_bits true true true asks) w)
        | ad_mux_collecting ↦ disable_distributing flags bond agg ticks a (
            enable_collecting flags bond agg ticks a (set_port a (set_bits true false true asks) w))
        | ad_mux_distributing ↦
            enable_collecting_distributing flags bond agg ticks a
              (set_port a (set_bits p.actor_oper_port_state.collecting true true p) w)
      ]

  -- A write of bits, and then what is done to the slaves.
  bits-Moves :
      (a : ℕ) (q : Port) (w : World S) (f : World S → World S)
      → Alike q (w.ports a)
      → ((x : World S) → Moves x (f x))
      → Moves w (f (set_port a q w))
  bits-Moves a q w f h k =
      Moves-trans w (set_port a q w) (f (set_port a q w)) (set_port-Moves a q w h)
        (k (set_port a q w))

  at-Moves : (a : ℕ) (w : World S) (m : MuxState) → Moves w (entered_at a w m)
  at-Moves a w ad_mux_detached =
      bits-Moves a (set_bits false false false (record (w.ports a) { ntt = true })) w
        (disable_collecting_distributing flags bond agg ticks a) (refl, refl, refl) (closed-Moves a)
  at-Moves a w ad_mux_waiting =
      set_port-Moves a
        (record (w.ports a) {
          sm_mux_timer_counter = ad_timer_to_ticks ticks ad_wait_while_timer 0;
        })
        w (refl, refl, refl)
  at-Moves a w ad_mux_attached =
      bits-Moves a (set_bits false false agg.is_active (record (w.ports a) { ntt = true })) w
        (disable_collecting_distributing flags bond agg ticks a) (refl, refl, refl) (closed-Moves a)
  at-Moves a w ad_mux_collecting_distributing =
      bits-Moves a (set_bits true true true (record (w.ports a) { ntt = true })) w
        (enable_collecting_distributing flags bond agg ticks a) (refl, refl, refl) (opened-Moves a)
  at-Moves a w ad_mux_collecting =
      bits-Moves a (set_bits true false true (record (w.ports a) { ntt = true })) w
        (λ x.
          disable_distributing flags bond agg ticks a (enable_collecting flags bond agg ticks a x))
        (refl, refl, refl)
        (λ x.
          Moves-trans x (enable_collecting flags bond agg ticks a x)
            (disable_distributing flags bond agg ticks a
              (enable_collecting flags bond agg ticks a x))
            (enable_collecting-Moves flags bond agg ticks a x)
            (quiet-Moves a (enable_collecting flags bond agg ticks a x)))
  at-Moves a w ad_mux_distributing =
      bits-Moves a (set_bits (w.ports a).actor_oper_port_state.collecting true true (w.ports a)) w
        (enable_collecting_distributing flags bond agg ticks a) (refl, refl, refl) (opened-Moves a)

  enter-Moves : (a : ℕ) (w : World S) → Moves w (mux_enter flags bond agg ticks a w)
  unfolding mux_enter
  enter-Moves a w = at-Moves a w (w.ports a).sm_mux_state

  pub ad_mux_machine-Moves :
      (a : ℕ) (w : World S) → Moves w (ad_mux_machine flags bond agg ticks a w)
  unfolding ad_mux_machine
  ad_mux_machine-Moves a w =
      let w1 = mux_next flags bond agg ticks a w in
      either_way (same_mux (w1.ports a).sm_mux_state (w.ports a).sm_mux_state) w w1
        (mux_enter flags bond agg ticks a w1) (next-Moves flags bond agg ticks a w)
        (Moves-trans w w1 (mux_enter flags bond agg ticks a w1)
          (next-Moves flags bond agg ticks a w) (enter-Moves a w1))
