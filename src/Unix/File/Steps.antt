-- ===== src/Unix/File/Steps.antt =====
-- unix/kernel/ken/fio.c: a process that opens and closes files, in any order.
use linuxab.Prelude.{ℕ, ◌≡◌, none, some, List, set, get_elem?}
use linuxab.Unix.File.{User, File, Inode, Conf, falloc, closef}
use linuxab.Unix.File.Counts.{Counted, falloc-Counted, closef-Counted}

-- `falloc`, whatever comes of it, and `closef` of a descriptor that the caller then clears.
pub data Step (conf : Conf) : List File × User → List File × User → Type 0 where
  opens : (file : List File) (u : User) → Step conf (file, u) ((falloc file u).1, (falloc file u).2)
  ends :
      (file : List File) (u : User) (d k : ℕ) (f : File) (i : Inode)
      → get_elem? u.ofile d ≡ some (some k)
      → get_elem? file k ≡ some f
      → Step conf
          (file, u)
          (set file k (closef conf f i).1, record u { ofile = set u.ofile d none })

pub data Reach (conf : Conf) (x : List File × User) : List File × User → Type 0 where
  here : Reach conf x x
  next : {y z : List File × User} → Reach conf x y → Step conf y z → Reach conf x z

-- Where each file structure counts the descriptors that stand for it, those of this process and a fixed
-- number of others, it does so after any sequence of steps of two kinds: a call of `falloc`, which may
-- fail for the lack of a descriptor or of a structure, and a close, which is `closef` of the structure
-- that a descriptor of the process stands for together with the clearing of that descriptor, which is
-- the caller's.
pub Reach-Counted :
    (conf : Conf) (others : ℕ → ℕ) (x y : List File × User)
    → Reach conf x y
    → Counted others (x.0) (x.1).ofile
    → Counted others (y.0) (y.1).ofile
Reach-Counted conf others x y here v = v
Reach-Counted conf others x y (next r (opens file u)) v =
    falloc-Counted others file u (Reach-Counted conf others x (file, u) r v)
Reach-Counted conf others x y (next r (ends file u d k f i at held)) v =
    closef-Counted conf others file u d k f i (Reach-Counted conf others x (file, u) r v) at held
