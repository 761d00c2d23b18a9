-- ===== src/Unix/File/Counts.antt =====
-- unix/kernel/ken/fio.c: a file structure counts what refers to it.
use linuxab.Prelude.{
  ℕ, zero, suc, ◌+◌, ◌<◌, ◌≡◌, refl, ap, sym, ◌∙◌, inl, inr, true, Option, none, some, List, [],
  ◌∷◌, ◌==◌, length, set, get_elem?, get_elem?-set_self, get_elem?-set_ne, arith, if◌then◌else◌,
  ℕ_discrete,
}
use linuxab.Prelude.Int.{pos, succ, pred}
use linuxab.Unix.File.{User, File, Inode, Conf, fail, is_zero, falloc, closef}
use linuxab.Unix.File.Falloc.{LowestFree, FirstUnused, FirstUnused-get, opened, falloc-Allocates}

-- How many descriptors of a process stand for file structure `k`.
unfoldable pub refs : ℕ → List (Option ℕ) → ℕ
refs k [] = 0
refs k (none ∷ l) = refs k l
refs k (some j ∷ l) = (if k == j then 1 else 0) + refs k l

-- Each file structure counts the descriptors of this process and those of the others.
abbrev pub Counted : (ℕ → ℕ) → List File → List (Option ℕ) → Type 0
Counted others file ofile =
    (k : ℕ) (f : File) → get_elem? file k ≡ some f → f.count ≡ pos (refs k ofile + others k)

refs-set_free :
    (k j i : ℕ) (l : List (Option ℕ))
    → LowestFree i l
    → refs k (set l i (some j)) ≡ refs k l + (if k == j then 1 else 0)
unfolding refs
refs-set_free k j i [] h = absurd h
refs-set_free k j zero (none ∷ l) h = omega arith
refs-set_free k j zero (some m ∷ l) h = absurd h
refs-set_free k j (suc i) (none ∷ l) h = absurd h
refs-set_free k j (suc i) (some m ∷ l) h = omega (arith, refs-set_free k j i l h)

refs-set-none :
    (k j i : ℕ) (l : List (Option ℕ))
    → get_elem? l i ≡ some (some j)
    → refs k (set l i none) + (if k == j then 1 else 0) ≡ refs k l
unfolding refs
refs-set-none k j i [] h = cc
refs-set-none k j zero (none ∷ l) h = cc
refs-set-none k j zero (some m ∷ l) h = let e : m ≡ j = cc in rw e (omega arith)
refs-set-none k j (suc i) (none ∷ l) h = refs-set-none k j i l h
refs-set-none k j (suc i) (some m ∷ l) h = omega (arith, refs-set-none k j i l h)

is_zero-pos : (n : ℕ) → is_zero (pos n) ≡ true → n ≡ 0
unfolding is_zero
is_zero-pos zero h = refl
is_zero-pos (suc n) h = cc

-- A file structure that is handed out, and one that stays as it is.
opened-Counted :
    (others : ℕ → ℕ) (file : List File) (ofile : List (Option ℕ)) (i k : ℕ) (f : File)
    → Counted others file ofile
    → LowestFree i ofile
    → FirstUnused k f file
    → Counted others (set file k (opened f)) (set ofile i (some k))
opened-Counted others file ofile i k f c low h j g e =
    let (at, unused, inside) = FirstUnused-get k f file h in
    let more = refs-set_free j k i ofile low in
    elim (ℕ_discrete k j) [
      | yes p ↦
          let was : f.count ≡ pos (refs k ofile + others k) = c k f at in
          let none_left = is_zero-pos (refs k ofile + others k) (ap is_zero (sym was) ∙ unused) in
          let got : some g ≡ some (opened f) =
            sym e
            ∙ ap (get_elem? (set file k (opened f))) (sym p)
            ∙ get_elem?-set_self file k (opened f) inside in
          let count : g.count ≡ succ f.count =
            ap (λ o. elim o [ none ↦ g.count | some x ↦ x.count ]) got in
          count
          ∙ ap succ was
          ∙ ap pos (
              let t : (if j == k then 1 else 0) ≡ ◌+◌ 0 1 = ground arith in
              let m : refs j ofile + others j ≡ refs k ofile + others k =
                ap (λ z. refs z ofile + others z) (sym p) in
              omega (arith, more, t, m))
      | no p ↦
          let before = c j g (sym (get_elem?-set_ne file (opened f) p) ∙ e) in
          let t : (if j == k then 1 else 0) ≡ ◌+◌ 0 0 = ground arith in
          before ∙ ap pos (omega (arith, more, t))
    ]

get_elem?-lt : (k : ℕ) (l : List File) (f : File) → get_elem? l k ≡ some f → k < length l
get_elem?-lt k [] f h = cc
get_elem?-lt zero (g ∷ l) f h = omega arith
get_elem?-lt (suc k) (g ∷ l) f h = omega (arith, get_elem?-lt k l f h)

-- `falloc` keeps the counts, whether it hands out a file structure or fails for the lack of a
-- descriptor or of a structure.
pub falloc-Counted :
    (others : ℕ → ℕ) (file : List File) (u : User)
    → Counted others file u.ofile
    → Counted others (falloc file u).1 ((falloc file u).2).ofile
unfolding fail
falloc-Counted others file u c = elim (falloc-Allocates file u) [
  | inl (h, e) ↦ rw e c
  | inr (i, low, inl (h, e)) ↦ rw e c
  | inr (i, low, inr (k, f, h, e)) ↦ rw e (opened-Counted others file u.ofile i k f c low h)
]

-- When `closef` is called for a descriptor of the process, and its caller clears the descriptor, the
-- counts are kept.
pub closef-Counted :
    (conf : Conf) (others : ℕ → ℕ) (file : List File) (u : User) (d k : ℕ) (f : File) (i : Inode)
    → Counted others file u.ofile
    → get_elem? u.ofile d ≡ some (some k)
    → get_elem? file k ≡ some f
    → Counted others (set file k (closef conf f i).1) (set u.ofile d none)
unfolding closef
closef-Counted conf others file u d k f i c h at j g e =
    let more = refs-set-none j k d u.ofile h in
    elim (ℕ_discrete k j) [
      | yes p ↦
          let got : some g ≡ some ((closef conf f i).1) =
            sym e
            ∙ ap (get_elem? (set file k (closef conf f i).1)) (sym p)
            ∙ get_elem?-set_self file k ((closef conf f i).1) (get_elem?-lt k file f at) in
          let count : g.count ≡ pred f.count =
            ap (λ o. elim o [ none ↦ g.count | some x ↦ x.count ]) got in
          let t : (if j == k then 1 else 0) ≡ ◌+◌ 0 1 = ground arith in
          let m : refs k u.ofile + others k ≡ refs j u.ofile + others j =
            ap (λ z. refs z u.ofile + others z) p in
          let one : refs k u.ofile + others k ≡ suc (refs j (set u.ofile d none) + others j) =
            omega (arith, more, t, m) in
          count ∙ ap pred (c k f at ∙ ap pos one)
      | no p ↦
          let before = c j g (sym (get_elem?-set_ne file ((closef conf f i).1) p) ∙ e) in
          let t : (if j == k then 1 else 0) ≡ ◌+◌ 0 0 = ground arith in
          before ∙ ap pos (omega (arith, more, t))
    ]
