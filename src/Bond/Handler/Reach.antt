-- ===== src/Bond/Handler/Reach.antt =====
-- servers/bond_3ad.c: ticks of a bond and frames that come in, in any order.
use linuxab.Prelude.{ℕ, Bool}
use linuxab.Bond.Group.{Bond}
use linuxab.Bond.Group.Lists.{IsGrouped}
use linuxab.Bond.Group.Fits.{Fitting}
use linuxab.Bond.Handler.{
  Setup, bond_3ad_state_machine_handler, bond_3ad_rx_indication, Frame, Counters,
}
use linuxab.Bond.Handler.Runs.{Good, handler-Good, indication-Good}

-- The timer and the bond from a tick to the next and when a frame comes in for a port.
pub data Step {S : Type 0} (c : Setup S) : ℕ × Bond S → ℕ × Bond S → Type 0 where
  tick :
      (bound sent : ℕ → Bool) (timer : ℕ) (s : Bond S)
      → Step c
          (timer, s)
          (
            (bond_3ad_state_machine_handler c bound sent timer s).0,
            (bond_3ad_state_machine_handler c bound sent timer s).2,
          )
  frame :
      (bound found : Bool) (a : ℕ) (f : Frame) (n : Counters) (timer : ℕ) (s : Bond S)
      → Step c (timer, s) (timer, (bond_3ad_rx_indication c bound found a f n s).3)

pub data Reach {S : Type 0} (c : Setup S) (x : ℕ × Bond S) : ℕ × Bond S → Type 0 where
  here : Reach c x x
  next : {y z : ℕ × Bond S} → Reach c x y → Step c y z → Reach c x z

step-Good : {S : Type 0} (c : Setup S) (x y : ℕ × Bond S) → Step c x y → Good (x.1) → Good (y.1)
step-Good c x y (tick bound sent timer s) v = handler-Good c bound sent timer s v
step-Good c x y (frame bound found a f n timer s) v = indication-Good c bound found a f n s v

-- When each port is on the list of its aggregator and on no other, once, when the lists are counted, and
-- when each selected port has the key and the partner of its aggregator, all this stays so in
-- whatever order ticks and frames come, whatever the frames hold and whichever slaves are set.
pub Reach-Good :
    {S : Type 0} (c : Setup S) (x y : ℕ × Bond S)
    → Reach c x y
    → IsGrouped (x.1) × Fitting (x.1)
    → IsGrouped (y.1) × Fitting (y.1)
Reach-Good c x y here v = v
Reach-Good c x y (next {y = w} r k) v = step-Good c w y k (Reach-Good c x w r v)
