-- ===== src/Tests/Files.antt =====
-- unix/kernel/ken/fio.c at concrete inputs, with the bits of the sixth edition's headers.
use linuxab.Prelude.{
  ℕ, zero, suc, ◌^◌, ◌≡◌, ◌≢◌, refl, true, false, none, some, List, [], ◌∷◌, set, get_elem?,
  if◌then◌else◌, arith,
}
use linuxab.Prelude.Int.{pos}
use linuxab.Unix.File.{
  Conf, User, File, Inode, fail, getf, falloc, closef, access, is_zero, ufalloc, first_free,
  unused_file,
}
use linuxab.Unix.File.Access.{allowed, refusal, access_lem}
use linuxab.Unix.File.Close.{closes, given_up, closef_last}
use linuxab.Unix.File.Falloc.{Allocates, falloc-Allocates}
use linuxab.Unix.File.Open.{falloc-getf}
use linuxab.Unix.File.Counts.{refs, Counted}
use linuxab.Unix.File.Steps.{opens, ends, Reach, here, next, Reach-Counted}

abbrev conf : Conf
conf = record {
  fpipe = 4;
  fwrite = 2;
  iread = 256;
  iwrite = 128;
  iexec = 64;
  ifmt = 24576;
  ifchr = 8192;
  ifblk = 24576;
  itext = 32;
  nchrdev = 16;
  nblkdev = 8;
}

-- A user with the first descriptor in use.
abbrev user : User
user = record { ofile = some 0 ∷ none ∷ none ∷ []; uid = 7; gid = 3; error = none; r0 = 0 }

abbrev shared : File
shared = record { flag = 2; count = pos 2; inode = 40; offset0 = 0; offset1 = 99 }

abbrev unused : File
unused = record { flag = 1; count = pos 0; inode = 41; offset0 = 0; offset1 = 5 }

abbrev table : List File
table = shared ∷ unused ∷ unused ∷ []

-- A text that is in use, which its owner may read, write and execute and its group only read.
abbrev text : Inode
text = record { mode = 480; flag = 32; count = 1; uid = 7; gid = 3; addr0 = 0 }

access_lem_example : access conf false text (2 ^ 7) user ≡ (
    if allowed conf false text 7 7 6 user
    then (false, user)
    else (true, fail (refusal false 7 7 conf text) user))
access_lem_example =
    access_lem conf false text 7 7 6 user refl refl (omega arith) (omega arith) (omega arith)

closef_last_example :
    let r = closes conf 1 shared text in
    (given_up (r.2) ≡ [])
    × (given_up (closef conf (r.1) (r.0)).2 ≡ 40 ∷ [])
    × (((closef conf (r.1) (r.0)).1).count ≡ pos 0)
closef_last_example = closef_last conf 1 shared text refl

falloc-Allocates_example : Allocates table user (falloc table user)
falloc-Allocates_example = falloc-Allocates table user

is_unused : is_zero shared.count ≡ false × (is_zero unused.count ≡ true)
unfolding is_zero
is_unused = (refl, refl)

falloc-getf_example :
    (file' : List File) × (u' : User) × (falloc table user ≡ (some 1, file', u'))
    × (u'.r0 ≡ 1)
    × (getf (pos 1) u' ≡ (some 1, u'))
    × (get_elem? file' 1 ≡ some (record unused { count = pos 1; offset0 = 0; offset1 = 0 }))
    × ((j : ℕ) → 1 ≢ j → (getf (pos j) u').0 ≡ (getf (pos j) user).0)
    × ((l : ℕ) → 1 ≢ l → get_elem? file' l ≡ get_elem? table l)
falloc-getf_example = falloc-getf table user 1 1 unused tt (is_unused.0, (refl, is_unused.1))

-- Another process has the first file structure open once more.
abbrev elsewhere : ℕ → ℕ
elsewhere zero = 1
elsewhere (suc k) = 0

table-Counted : Counted elsewhere table user.ofile
unfolding refs
table-Counted zero f e = cc
table-Counted (suc zero) f e = cc
table-Counted (suc (suc zero)) f e = cc
table-Counted (suc (suc (suc k))) f e = cc

-- A file is opened, and the one that was open before is closed.
abbrev opened : List File × User
opened = ((falloc table user).1, (falloc table user).2)

abbrev then_closed : List File × User
then_closed = (
  set (opened.0) 0 (closef conf shared text).1,
  record (opened.1) { ofile = set (opened.1).ofile 0 none },
)

still_open : (get_elem? (opened.1).ofile 0 ≡ some (some 0)) × (get_elem? (opened.0) 0 ≡ some shared)
unfolding falloc ufalloc first_free unused_file is_zero
still_open = (refl, refl)

open_and_close : Reach conf (table, user) then_closed
open_and_close =
    next (next here (opens table user))
      (ends (opened.0) (opened.1) 0 0 shared text still_open.0 still_open.1)

Reach-Counted_example : Counted elsewhere (then_closed.0) (then_closed.1).ofile
Reach-Counted_example =
    Reach-Counted conf elsewhere (table, user) then_closed open_and_close table-Counted
