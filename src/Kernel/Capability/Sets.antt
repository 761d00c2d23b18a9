-- ===== src/Kernel/Capability/Sets.antt =====
-- Capability sets are sets of the flags 0 to CAP_LAST_CAP.
use linuxab.Prelude.{ℕ, ◌%◌, ◌≡◌, true, false, not, leb, ◌==◌, ◌&&◌, ◌||◌, arith}
use linuxab.Prelude.HasBit.{has_bit-raise, has_bit-lower, has_bit-zero, has_bit-ones}
use linuxab.Kernel.Capability.{
  CapSet, cap_last_cap, cap_raised, cap_raise, cap_lower, cap_is_empty, cap_is_full,
}

raise-raised :
    (c : CapSet) (f g : ℕ)
    → cap_raised (cap_raise c f) g ≡ (leb f cap_last_cap && f == g || cap_raised c g)
unfolding cap_raised cap_raise
raise-raised c f g =
    ground (arith, has_bit-raise c.cap0 (f % 32) (g % 32), has_bit-raise c.cap1 (f % 32) (g % 32))

lower-raised :
    (c : CapSet) (f g : ℕ) → cap_raised (cap_lower c f) g ≡ (not (f == g) && cap_raised c g)
unfolding cap_raised cap_lower
lower-raised c f g =
    ground (arith, has_bit-lower c.cap0 (f % 32) (g % 32), has_bit-lower c.cap1 (f % 32) (g % 32))

-- `cap_raise` adds one flag and `cap_lower` takes one away, in either word of the set; a flag above
-- CAP_LAST_CAP is ignored.
pub cap_raise-cap_lower :
    (c : CapSet) (f g : ℕ)
    → (cap_raised (cap_raise c f) g ≡ (leb f cap_last_cap && f == g || cap_raised c g))
      × (cap_raised (cap_lower c f) g ≡ (not (f == g) && cap_raised c g))
cap_raise-cap_lower c f g = (raise-raised c f g, lower-raised c f g)

pub empty-raised : (c : CapSet) (g : ℕ) → cap_is_empty c ≡ true → cap_raised c g ≡ false
unfolding cap_is_empty cap_raised
empty-raised c g h = ground (arith, has_bit-zero (g % 32))

pub full-raised : (c : CapSet) (g : ℕ) → cap_is_full c ≡ true → cap_raised c g ≡ leb g cap_last_cap
unfolding cap_is_full cap_raised
full-raised c g h = ground (arith, has_bit-ones (g % 32) (omega arith))
