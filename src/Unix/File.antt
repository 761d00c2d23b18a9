-- ===== src/Unix/File.antt =====
-- unix/kernel/ken/fio.c: descriptors, file structures, and the permission of an inode. The headers
-- with NOFILE, NFILE and the bits of flags and modes are not in the repository: the tables are lists of
-- any length, and the bits are a parameter `c`. A descriptor is the index of a file structure, `none` is
-- NULL, and an inode is its address. The device switches, `wakeup` and `iput` are calls that a list
-- records; `namei` and `getfs` are answers that are arguments.
pub mod Access
pub mod Close
pub mod Counts
pub mod Falloc
pub mod Open
pub mod Steps
use linuxab.Prelude.{
  ℕ, zero, suc, ◌+◌, ◌/◌, Bool, true, false, not, Option, none, some, List, [], ◌∷◌, ◌++◌, ◌==◌,
  ◌&&◌, leb, ltb, if◌then◌else◌, length, set, get_elem?,
}
use linuxab.Prelude.Int.{ℤ, pos, negsuc, succ, pred}
use linuxab.Prelude.Bits.{complement}
use Prim.Native.Nat.{bit_and, bit_or}

-- The constants of the headers, and the sizes of the device switches.
pub record Conf : Type 0 where
  pub fpipe : ℕ
  pub fwrite : ℕ
  pub iread : ℕ
  pub iwrite : ℕ
  pub iexec : ℕ
  pub ifmt : ℕ
  pub ifchr : ℕ
  pub ifblk : ℕ
  pub itext : ℕ
  pub nchrdev : ℕ
  pub nblkdev : ℕ

pub data Error : Type 0 where
  ebadf enxio erofs etxtbsy eacces eperm emfile enfile : Error

-- The fields of `struct user` that these functions touch; `r0` is `u.u_ar0[R0]`.
pub record User : Type 0 where
  pub ofile : List (Option ℕ)
  pub uid : ℕ
  pub gid : ℕ
  pub error : Option Error
  pub r0 : ℕ

pub record File : Type 0 where
  pub flag : ℕ
  pub count : ℤ
  pub inode : ℕ
  pub offset0 : ℕ
  pub offset1 : ℕ

pub record Inode : Type 0 where
  pub mode : ℕ
  pub flag : ℕ
  pub count : ℕ
  pub uid : ℕ
  pub gid : ℕ
  pub addr0 : ℕ

-- The calls that leave this file. A channel is an inode and the number that is added to it.
pub data Call : Type 0 where
  wakeup : ℕ → ℕ → Call
  char_open char_close block_open block_close : ℕ → ℕ → ℕ → Call
  iput : ℕ → Call

pub fail : Error → User → User
fail e u = record u { error = some e }

-- The file structure that a descriptor stands for.
pub getf : ℤ → User → Option ℕ × User
getf (negsuc n) u = (none, fail ebadf u)
getf (pos f) u = elim (get_elem? u.ofile f) [
  | none ↦ (none, fail ebadf u)
  | some fp ↦ elim fp [ none ↦ (none, fail ebadf u) | some k ↦ (some k, u) ]
]

-- `for (i=0; i<NOFILE; i++) if (u.u_ofile[i] == NULL)` from `i` on
unfoldable pub first_free : ℕ → List (Option ℕ) → Option ℕ
first_free i [] = none
first_free i (none ∷ l) = some i
first_free i (some k ∷ l) = first_free (suc i) l

unfoldable pub ufalloc : User → Option ℕ × User
ufalloc u = elim (first_free 0 u.ofile) [
  | none ↦ (none, fail emfile u)
  | some i ↦ (some i, record u { r0 = i })
]

-- `f_count == 0` and `f_count <= 1`
unfoldable pub is_zero : ℤ → Bool
is_zero (pos zero) = true
is_zero (pos (suc n)) = false
is_zero (negsuc n) = false

pub at_most_one : ℤ → Bool
at_most_one (pos n) = leb n 1
at_most_one (negsuc n) = true

-- `for (fp = &file[0]; fp < &file[NFILE]; fp++) if (fp->f_count==0)` from `k` on
unfoldable pub unused_file : ℕ → List File → Option (ℕ × File)
unused_file k [] = none
unused_file k (f ∷ l) =
    let more = unused_file (suc k) l in if is_zero f.count then some (k, f) else more

unfoldable pub falloc : List File → User → Option ℕ × List File × User
falloc file u = elim ((ufalloc u).0) [
  | none ↦ (none, file, (ufalloc u).1)
  | some i ↦
      let u1 = (ufalloc u).1 in
      elim (unused_file 0 file) [
        | none ↦ (none, file, fail enfile u1)
        | some (k, f) ↦ (
          some k,
          set file k (record f { count = succ f.count; offset0 = 0; offset1 = 0 }),
          record u1 { ofile = set u1.ofile i (some k) },
        )
      ]
]

-- The upper byte of a device's number.
pub d_major : ℕ → ℕ
d_major dev = dev / 256

-- `m` shifted to the field of the owner, the group or the others
pub class_bits : Inode → ℕ → User → ℕ
class_bits i m u = if u.uid == i.uid then m else if u.gid == i.gid then m / 8 else m / 8 / 8

module _ (c : Conf) where
  pub closei : Inode → ℕ → ℕ → List Call
  closei i ip rw =
      let maj = d_major i.addr0 in
      let kind = bit_and i.mode c.ifmt in
      (if leb i.count 1
        then (if kind == c.ifchr
            then char_close maj i.addr0 rw ∷ []
            else if kind == c.ifblk
            then block_close maj i.addr0 rw ∷ []
            else [])
        else [])
      ++ (iput ip ∷ [])

  -- The inode's mode, the file structure, and the calls.
  pub closef : File → Inode → Inode × File × List Call
  closef fp i =
      let pipe = not (bit_and fp.flag c.fpipe == 0) in
      let ip = fp.inode in
      let i1 =
        if pipe
        then record i { mode = bit_and i.mode (complement 16 (bit_or c.iread c.iwrite)) }
        else i in
      (
        i1,
        record fp { count = pred fp.count },
        (if pipe then wakeup ip 1 ∷ wakeup ip 2 ∷ [] else [])
            ++ (if at_most_one fp.count then closei i1 ip (bit_and fp.flag c.fwrite) else []),
      )

  pub openi : Inode → ℕ → User → List Call × User
  openi i rw u =
      let maj = d_major i.addr0 in
      let kind = bit_and i.mode c.ifmt in
      if kind == c.ifchr
      then (if leb c.nchrdev maj then ([], fail enxio u) else (char_open maj i.addr0 rw ∷ [], u))
      else if kind == c.ifblk
      then (if leb c.nblkdev maj then ([], fail enxio u) else (block_open maj i.addr0 rw ∷ [], u))
      else ([], u)

  -- Whether access is refused; `ronly` is whether the file system is mounted for reading only.
  pub access : Bool → Inode → ℕ → User → Bool × User
  access ronly i m u =
      if m == c.iwrite && ronly
      then (true, fail erofs u)
      else if m == c.iwrite && not (bit_and i.flag c.itext == 0)
      then (true, fail etxtbsy u)
      else if u.uid == 0
      then (if m == c.iexec
            && bit_and i.mode (bit_or c.iexec (bit_or (c.iexec / 8) (c.iexec / 64))) == 0
          then (true, fail eacces u)
          else (false, u))
      else if not (bit_and i.mode (class_bits i m u) == 0)
      then (false, u)
      else (true, fail eacces u)

-- Whether the user is the super-user.
pub suser : User → Bool × User
suser u = if u.uid == 0 then (true, u) else (false, fail eperm u)

-- `found` is what `namei` gives, an inode and its address.
pub owner : Option (ℕ × Inode) → User → Option ℕ × List Call × User
owner none u = (none, [], u)
owner (some (ip, i)) u =
    if u.uid == i.uid
    then (some ip, [], u)
    else if (suser u).0
    then (some ip, [], (suser u).1)
    else (none, iput ip ∷ [], (suser u).1)
