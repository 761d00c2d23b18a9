-- ===== src/Kernel/Capability.antt =====
-- kernel/capability.c: capability sets and the credentials that they guard. A result of -1 is `none`,
-- and leaves the new credentials as they were; a negative capability fails the same tests as one
-- above CAP_LAST_CAP and is not modelled.
pub mod Sets
pub mod Creds
use Prim.Native.Nat.{bit_and, bit_or}
use linuxab.Prelude.{
  ℕ, ◌-◌, ◌/◌, ◌%◌, ◌^◌, Bool, true, false, Option, none, some, ltb, ◌==◌, if◌then◌else◌, ◌&&◌,
  ◌||◌,
}
use linuxab.Prelude.Bits.{complement, has_bit}

abbrev pub cap_last_cap : ℕ
cap_last_cap = 40

abbrev pub cap_setgid_flag : ℕ
cap_setgid_flag = 6

abbrev pub cap_setuid_flag : ℕ
cap_setuid_flag = 7

-- `kernel_cap_t`: _KERNEL_CAPABILITY_U32S is 2.
pub record CapSet : Type 0 where
  pub cap0 : ℕ
  pub cap1 : ℕ

unfoldable pub cap_raised : CapSet → ℕ → Bool
cap_raised c flag =
    if ltb cap_last_cap flag
    then false
    else has_bit (if flag / 32 == 0 then c.cap0 else c.cap1) (flag % 32)

pub cap_raise : CapSet → ℕ → CapSet
cap_raise c flag =
    let bit = 2 ^ (flag % 32) in
    if ltb cap_last_cap flag
    then c
    else if flag / 32 == 0
    then record c { cap0 = bit_or c.cap0 bit }
    else record c { cap1 = bit_or c.cap1 bit }

pub cap_lower : CapSet → ℕ → CapSet
cap_lower c flag =
    let mask = complement 32 (2 ^ (flag % 32)) in
    if ltb cap_last_cap flag
    then c
    else if flag / 32 == 0
    then record c { cap0 = bit_and c.cap0 mask }
    else record c { cap1 = bit_and c.cap1 mask }

pub cap_clear : CapSet
cap_clear = record { cap0 = 0; cap1 = 0 }

pub cap_set_full : CapSet
cap_set_full = record { cap0 = 2 ^ 32 - 1; cap1 = 2 ^ 32 - 1 }

pub cap_is_full : CapSet → Bool
cap_is_full c = c.cap0 == 2 ^ 32 - 1 && c.cap1 == 2 ^ 32 - 1

pub cap_is_empty : CapSet → Bool
cap_is_empty c = c.cap0 == 0 && c.cap1 == 0

-- `struct cred`
pub record Cred : Type 0 where
  pub usage : ℕ
  pub uid : ℕ
  pub gid : ℕ
  pub suid : ℕ
  pub sgid : ℕ
  pub euid : ℕ
  pub egid : ℕ
  pub fsuid : ℕ
  pub fsgid : ℕ
  pub cap_inheritable : CapSet
  pub cap_permitted : CapSet
  pub cap_effective : CapSet
  pub cap_bset : CapSet
  pub cap_ambient : CapSet

pub cap_init : Cred → Cred
unfolding cap_clear cap_set_full
cap_init c = record c {
  cap_inheritable = cap_clear;
  cap_permitted = cap_clear;
  cap_effective = cap_clear;
  cap_bset = cap_set_full;
  cap_ambient = cap_clear;
}

unfoldable pub cap_capable : Cred → ℕ → Bool
cap_capable cred cap =
    if ltb cap_last_cap cap
    then false
    else has_bit (if cap / 32 == 0 then cred.cap_effective.cap0 else cred.cap_effective.cap1)
        (cap % 32)

-- A change to one of the old ids needs no capability.
unfoldable pub cap_setuid : Cred → Cred → ℕ → Option Cred
unfolding cap_clear
cap_setuid new old uid =
    if uid == old.uid || uid == old.suid || uid == old.euid
    then some (record new { uid = uid })
    else if cap_capable old cap_setuid_flag
    then some
        (record new { uid = uid; suid = uid; euid = uid; fsuid = uid; cap_ambient = cap_clear })
    else none

pub cap_setgid : Cred → Cred → ℕ → Option Cred
cap_setgid new old gid =
    if gid == old.gid || gid == old.sgid || gid == old.egid
    then some (record new { gid = gid })
    else if cap_capable old cap_setgid_flag
    then some (record new { gid = gid; sgid = gid; egid = gid; fsgid = gid })
    else none

pub cap_setgroups : Cred → Cred → Option Cred
cap_setgroups new old = if cap_capable old cap_setgid_flag then some new else none

pub cap_set_init_eff : Cred → Cred
unfolding cap_set_full
cap_set_init_eff c = record c {
  cap_effective = cap_set_full;
  cap_permitted = cap_set_full;
  cap_inheritable = cap_set_full;
}

-- `get_current_cred` answers with the credentials of the first process for every task.
pub has_capability : Cred → ℕ → Bool
has_capability init_cred cap = cap_capable init_cred cap
