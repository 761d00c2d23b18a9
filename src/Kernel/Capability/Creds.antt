-- ===== src/Kernel/Capability/Creds.antt =====
-- What `cap_setuid` and `cap_setgid` let a process do with and without the capability.
use linuxab.Prelude.{ℕ, ◌%◌, ◌≡◌, ◌∙◌, ◌⊎◌, false, some, leb, arith}
use linuxab.Prelude.HasBit.{has_bit-zero, has_bit-ones}
use linuxab.Kernel.Capability.{
  Cred, cap_setuid_flag, cap_setgid_flag, cap_last_cap, cap_capable, cap_setuid, cap_setgid,
  cap_init, cap_set_init_eff,
}

-- The calls that change the ids, on a copy of the current credentials.
pub data Step : Cred → Cred → Type 0 where
  setuid : (c d : Cred) (uid : ℕ) → cap_setuid c c uid ≡ some d → Step c d
  setgid : (c d : Cred) (gid : ℕ) → cap_setgid c c gid ≡ some d → Step c d

pub data Reach (c : Cred) : Cred → Type 0 where
  here : Reach c c
  next : {d e : Cred} → Reach c d → Step d e → Reach c e

-- What stays of the credentials `c` in `d`: everything but the real ids, and those are among the old.
pub record Confined (c d : Cred) : Type 0 where
  pub suid_kept : d.suid ≡ c.suid
  pub sgid_kept : d.sgid ≡ c.sgid
  pub euid_kept : d.euid ≡ c.euid
  pub egid_kept : d.egid ≡ c.egid
  pub fsuid_kept : d.fsuid ≡ c.fsuid
  pub fsgid_kept : d.fsgid ≡ c.fsgid
  pub effective_kept : d.cap_effective ≡ c.cap_effective
  pub permitted_kept : d.cap_permitted ≡ c.cap_permitted
  pub inheritable_kept : d.cap_inheritable ≡ c.cap_inheritable
  pub bset_kept : d.cap_bset ≡ c.cap_bset
  pub ambient_kept : d.cap_ambient ≡ c.cap_ambient
  pub uid_known : (d.uid ≡ c.uid) ⊎ ((d.uid ≡ c.suid) ⊎ (d.uid ≡ c.euid))
  pub gid_known : (d.gid ≡ c.gid) ⊎ ((d.gid ≡ c.sgid) ⊎ (d.gid ≡ c.egid))

capable_kept :
    (c d : Cred) (cap : ℕ)
    → d.cap_effective ≡ c.cap_effective
    → cap_capable d cap ≡ cap_capable c cap
unfolding cap_capable
capable_kept c d cap e = ground arith

setuid_Confined :
    (c d e : Cred) (uid : ℕ)
    → cap_capable d cap_setuid_flag ≡ false
    → Confined c d
    → cap_setuid d d uid ≡ some e
    → Confined c e
unfolding cap_setuid
setuid_Confined c d e uid n k r = ground arith

setgid_Confined :
    (c d e : Cred) (gid : ℕ)
    → cap_capable d cap_setgid_flag ≡ false
    → Confined c d
    → cap_setgid d d gid ≡ some e
    → Confined c e
unfolding cap_setgid
setgid_Confined c d e gid n k r = ground arith

Confined-refl : (c : Cred) → Confined c c
Confined-refl c = ground arith

-- A process without CAP_SETUID and CAP_SETGID gains nothing by any sequence of `cap_setuid` and
-- `cap_setgid` that it does on its own credentials: its effective, saved and filesystem ids and all
-- capability sets stay, and its real ids stay among the old ones. No other call is among the steps.
pub Reach-Confined :
    {c d : Cred}
    → cap_capable c cap_setuid_flag ≡ false
    → cap_capable c cap_setgid_flag ≡ false
    → Reach c d
    → Confined c d
Reach-Confined {c} nu ng here = Confined-refl c
Reach-Confined {c} nu ng (next r (setuid d e uid h)) =
    let k = Reach-Confined nu ng r in
    setuid_Confined c d e uid (capable_kept c d cap_setuid_flag k.effective_kept ∙ nu) k h
Reach-Confined {c} nu ng (next r (setgid d e gid h)) =
    let k = Reach-Confined nu ng r in
    setgid_Confined c d e gid (capable_kept c d cap_setgid_flag k.effective_kept ∙ ng) k h

-- Behind `cap_init` the first process has no capability, and behind `cap_set_init_eff` it has every
-- one up to CAP_LAST_CAP.
pub cap_init-cap_set_init_eff :
    (c : Cred) (cap : ℕ)
    → (cap_capable (cap_init c) cap ≡ false)
      × (cap_capable (cap_set_init_eff (cap_init c)) cap ≡ leb cap cap_last_cap)
unfolding cap_capable cap_init cap_set_init_eff
cap_init-cap_set_init_eff c cap =
    (ground (arith, has_bit-zero (cap % 32)), ground (arith, has_bit-ones (cap % 32) (omega arith)))
