-- ===== src/Unix/File/Close.antt =====
-- unix/kernel/ken/fio.c: the last close of a file structure, and no other, gives its inode up.
use linuxab.Prelude.{
  ℕ, zero, suc, ◌+◌, ◌≡◌, refl, ap, ◌∙◌, true, false, Bool, List, [], ◌∷◌, ◌++◌, not, ◌==◌,
  if◌then◌else◌, arith,
}
use linuxab.Prelude.Int.{pos, pred}
use linuxab.Unix.File.{
  Conf, File, Inode, Call, wakeup, char_open, char_close, block_open, block_close, iput,
  at_most_one, closei, closef,
}
use linuxab.Prelude.Bits.{complement}
use Prim.Native.Nat.{bit_and, bit_or}

-- One close after the other of a file structure: its inode, the structure and all calls.
pub closes : Conf → ℕ → File → Inode → Inode × File × List Call
closes c zero fp i = (i, fp, [])
closes c (suc n) fp i =
    let r = closef c fp i in let q = closes c n (r.1) (r.0) in (q.0, q.1, r.2 ++ q.2)

-- The inodes that are given up, in order.
pub given_up : List Call → List ℕ
given_up [] = []
given_up (iput ip ∷ l) = ip ∷ given_up l
given_up (wakeup ip n ∷ l) = given_up l
given_up (char_open a b c ∷ l) = given_up l
given_up (char_close a b c ∷ l) = given_up l
given_up (block_open a b c ∷ l) = given_up l
given_up (block_close a b c ∷ l) = given_up l

given_up-append : (l k : List Call) → given_up (l ++ k) ≡ given_up l ++ given_up k
unfolding given_up
given_up-append [] k = refl
given_up-append (iput ip ∷ l) k = ap (λ z. ip ∷ z) (given_up-append l k)
given_up-append (wakeup ip n ∷ l) k = given_up-append l k
given_up-append (char_open a b c ∷ l) k = given_up-append l k
given_up-append (char_close a b c ∷ l) k = given_up-append l k
given_up-append (block_open a b c ∷ l) k = given_up-append l k
given_up-append (block_close a b c ∷ l) k = given_up-append l k

given_up-closei : (c : Conf) (i : Inode) (ip rw : ℕ) → given_up (closei c i ip rw) ≡ ip ∷ []
unfolding given_up closei
given_up-closei c i ip rw = ground arith

given_up_wakes :
    (pipe : Bool) (ip : ℕ) (l : List Call)
    → given_up ((if pipe then wakeup ip 1 ∷ wakeup ip 2 ∷ [] else []) ++ l) ≡ given_up l
unfolding given_up
given_up_wakes true ip l = refl
given_up_wakes false ip l = refl

given_up_if :
    (last : Bool) (ip : ℕ) (l : List Call)
    → given_up l ≡ ip ∷ []
    → given_up (if last then l else []) ≡ (if last then ip ∷ [] else [])
unfolding given_up
given_up_if true ip l e = e
given_up_if false ip l e = refl

given_up-closef :
    (c : Conf) (fp : File) (i : Inode)
    → given_up (closef c fp i).2 ≡ (if at_most_one fp.count then fp.inode ∷ [] else [])
unfolding closef
given_up-closef c fp i =
    let pipe = not (bit_and fp.flag c.fpipe == 0) in
    let i1 =
      if pipe
      then record i { mode = bit_and i.mode (complement 16 (bit_or c.iread c.iwrite)) }
      else i in
    let last = closei c i1 fp.inode (bit_and fp.flag c.fwrite) in
    given_up_wakes pipe fp.inode (if at_most_one fp.count then last else [])
    ∙ given_up_if (at_most_one fp.count) fp.inode last
        (given_up-closei c i1 fp.inode (bit_and fp.flag c.fwrite))

closef_keeps :
    (c : Conf) (fp : File) (i : Inode)
    → (((closef c fp i).1).count ≡ pred fp.count) × (((closef c fp i).1).inode ≡ fp.inode)
unfolding closef
closef_keeps c fp i = (refl, refl)

closes_before :
    (c : Conf) (m n : ℕ) (fp : File) (i : Inode)
    → fp.count ≡ pos (m + suc n)
    → (given_up (closes c m fp i).2 ≡ [])
      × (((closes c m fp i).1).count ≡ pos (suc n))
      × (((closes c m fp i).1).inode ≡ fp.inode)
unfolding closes given_up at_most_one
closes_before c zero n fp i e = (refl, e ∙ ap pos (omega arith), refl)
closes_before c (suc m) n fp i e =
    let r = closef c fp i in
    let e' : fp.count ≡ pos (suc (m + suc n)) = e ∙ ap pos (omega arith) in
    let (count, inode) = closef_keeps c fp i in
    let (quiet, left, same) = closes_before c m n (r.1) (r.0) (count ∙ ap pred e') in
    let two : at_most_one fp.count ≡ false = ap at_most_one e' ∙ ground arith in
    let none_here : given_up (r.2) ≡ [] = given_up-closef c fp i ∙ rw two refl in
    (
      given_up-append (r.2) ((closes c m (r.1) (r.0)).2) ∙ rw (none_here, quiet) refl,
      left,
      same ∙ inode,
    )

-- A file structure with n + 1 references gives no inode up in n closes, whatever its flags and its inode
-- are. The next close gives up the inode that the structure had at the start, once and no other,
-- and leaves no reference.
pub closef_last :
    (c : Conf) (n : ℕ) (fp : File) (i : Inode)
    → fp.count ≡ pos (suc n)
    → let r = closes c n fp i in
      (given_up r.2 ≡ [])
      × (given_up (closef c r.1 r.0).2 ≡ fp.inode ∷ [])
      × (((closef c r.1 r.0).1).count ≡ pos 0)
unfolding at_most_one
closef_last c n fp i e =
    let (quiet, left, same) = closes_before c n 0 fp i (e ∙ ap pos (omega arith)) in
    let r = closes c n fp i in
    let one : at_most_one (r.1).count ≡ true = ap at_most_one left in
    (
      quiet,
      given_up-closef c (r.1) (r.0) ∙ rw one (ap (λ k. k ∷ []) same),
      (closef_keeps c (r.1) (r.0)).0 ∙ ap pred left,
    )
