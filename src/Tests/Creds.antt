-- ===== src/Tests/Creds.antt =====
-- kernel/capability.c at concrete inputs.
use linuxab.Prelude.{◌≡◌, refl, false, some, leb}
use linuxab.Kernel.Capability.{
  CapSet, Cred, cap_setuid_flag, cap_setgid_flag, cap_last_cap, cap_capable, cap_setuid, cap_init,
  cap_set_init_eff, cap_raised,
}
use linuxab.Kernel.Capability.Creds.{
  here, next, setuid, Confined, Reach-Confined, cap_init-cap_set_init_eff,
}
use linuxab.Prelude.Bits.{has_bit}

abbrev no_caps : CapSet
no_caps = record { cap0 = 0; cap1 = 0 }

-- A process of user 1000 that was started from user 5.
abbrev a_user : Cred
a_user = record {
  usage = 1;
  uid = 1000;
  gid = 100;
  suid = 5;
  sgid = 100;
  euid = 5;
  egid = 100;
  fsuid = 5;
  fsgid = 100;
  cap_inheritable = no_caps;
  cap_permitted = no_caps;
  cap_effective = no_caps;
  cap_bset = no_caps;
  cap_ambient = no_caps;
}

abbrev as_five : Cred
as_five = record a_user { uid = 5 }

setuid_five : cap_setuid a_user a_user 5 ≡ some as_five
unfolding cap_setuid cap_capable cap_raised has_bit
setuid_five = refl

no_setuid : cap_capable a_user cap_setuid_flag ≡ false
unfolding cap_capable cap_raised has_bit
no_setuid = refl

no_setgid : cap_capable a_user cap_setgid_flag ≡ false
unfolding cap_capable cap_raised has_bit
no_setgid = refl

Reach-Confined_example : Confined a_user as_five
Reach-Confined_example =
    Reach-Confined no_setuid no_setgid (next here (setuid a_user as_five 5 setuid_five))

cap_init-cap_set_init_eff_example :
    (cap_capable (cap_init a_user) 21 ≡ false)
    × (cap_capable (cap_set_init_eff (cap_init a_user)) 21 ≡ leb 21 cap_last_cap)
cap_init-cap_set_init_eff_example = cap_init-cap_set_init_eff a_user 21
