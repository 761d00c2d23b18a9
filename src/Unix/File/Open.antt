-- ===== src/Unix/File/Open.antt =====
-- unix/kernel/ken/fio.c: what `getf` finds behind `falloc`.
use linuxab.Prelude.{
  ℕ, zero, suc, ◌<◌, ◌≡◌, ◌≢◌, refl, ap, sym, ◌∙◌, inl, inr, true, false, Option, none, some, List,
  [], ◌∷◌, length, set, get_elem?, get_elem?-set_self, get_elem?-set_ne, arith,
}
use linuxab.Prelude.Int.{pos, negsuc, succ, ℤ}
use linuxab.Unix.File.{User, File, ebadf, fail, getf, is_zero, falloc}
use linuxab.Unix.File.Falloc.{
  NoneFree, LowestFree, AllUsed, FirstUnused, FirstUnused-get, opened, falloc-Allocates,
}

NoneFree-LowestFree : (i : ℕ) (l : List (Option ℕ)) → NoneFree l → ¬ LowestFree i l
NoneFree-LowestFree i [] h k = k
NoneFree-LowestFree i (none ∷ l) h k = h
NoneFree-LowestFree zero (some m ∷ l) h k = k
NoneFree-LowestFree (suc i) (some m ∷ l) h k = NoneFree-LowestFree i l h k

LowestFree-unique : (i j : ℕ) (l : List (Option ℕ)) → LowestFree i l → LowestFree j l → i ≡ j
LowestFree-unique i j [] h k = absurd h
LowestFree-unique zero zero (x ∷ l) h k = refl
LowestFree-unique zero (suc j) (none ∷ l) h k = absurd k
LowestFree-unique zero (suc j) (some m ∷ l) h k = absurd h
LowestFree-unique (suc i) zero (none ∷ l) h k = absurd h
LowestFree-unique (suc i) zero (some m ∷ l) h k = absurd k
LowestFree-unique (suc i) (suc j) (none ∷ l) h k = absurd h
LowestFree-unique (suc i) (suc j) (some m ∷ l) h k = ap suc (LowestFree-unique i j l h k)

LowestFree-lt : (i : ℕ) (l : List (Option ℕ)) → LowestFree i l → i < length l
LowestFree-lt i [] h = absurd h
LowestFree-lt zero (x ∷ l) h = omega arith
LowestFree-lt (suc i) (none ∷ l) h = absurd h
LowestFree-lt (suc i) (some m ∷ l) h = omega (arith, LowestFree-lt i l h)

AllUsed-FirstUnused : (k : ℕ) (f : File) (l : List File) → AllUsed l → ¬ FirstUnused k f l
AllUsed-FirstUnused k f [] h u = u
AllUsed-FirstUnused zero f (g ∷ l) h u = let b : true ≡ false = sym u.1 ∙ h.0 in cc
AllUsed-FirstUnused (suc k) f (g ∷ l) h u = AllUsed-FirstUnused k f l h.1 u.1

FirstUnused-unique :
    (k j : ℕ) (f g : File) (l : List File)
    → FirstUnused k f l
    → FirstUnused j g l
    → (k ≡ j) × (f ≡ g)
FirstUnused-unique k j f g [] h u = absurd h
FirstUnused-unique zero zero f g (e ∷ l) h u = (refl, sym h.0 ∙ u.0)
FirstUnused-unique zero (suc j) f g (e ∷ l) h u =
    let b : true ≡ false = sym h.1 ∙ u.0 in absurd (cc)
FirstUnused-unique (suc k) zero f g (e ∷ l) h u =
    let b : true ≡ false = sym u.1 ∙ h.0 in absurd (cc)
FirstUnused-unique (suc k) (suc j) f g (e ∷ l) h u =
    let (a, b) = FirstUnused-unique k j f g l h.1 u.1 in (ap suc a, b)

succ-is_zero : (n : ℤ) → is_zero n ≡ true → succ n ≡ pos 1
unfolding is_zero
succ-is_zero (pos zero) h = refl
succ-is_zero (pos (suc n)) h = cc
succ-is_zero (negsuc n) h = cc

-- With a free descriptor and an unused file structure `falloc` hands out the first of each.
falloc_succeeds :
    (file : List File) (u : User) (i k : ℕ) (f : File)
    → LowestFree i u.ofile
    → FirstUnused k f file
    → falloc file u
      ≡ (some k, set file k (opened f), record u { r0 = i; ofile = set u.ofile i (some k) })
falloc_succeeds file u i k f low unused = elim (falloc-Allocates file u) [
  | inl (h, e) ↦ absurd (NoneFree-LowestFree i u.ofile h low)
  | inr (j, low', inl (h, e)) ↦ absurd (AllUsed-FirstUnused k f file h unused)
  | inr (j, low', inr (l, g, h, e)) ↦
      let same = LowestFree-unique j i u.ofile low' low in
      let (a, b) = FirstUnused-unique l k g f file h unused in e ∙ rw (same, a, b) refl
]

-- What a descriptor stands for, by the entry of the table.
abbrev got : Option (Option ℕ) → Option ℕ
got none = none
got (some fp) = fp

abbrev answered : User → Option (Option ℕ) → Option ℕ × User
answered u o = elim o [
  | none ↦ (none, fail ebadf u)
  | some fp ↦ elim fp [ none ↦ (none, fail ebadf u) | some k ↦ (some k, u) ]
]

answered-got : (u : User) (o : Option (Option ℕ)) → (answered u o).0 ≡ got o
answered-got u none = refl
answered-got u (some none) = refl
answered-got u (some (some k)) = refl

getf-some :
    (u : User) (i k : ℕ) → get_elem? u.ofile i ≡ some (some k) → getf (pos i) u ≡ (some k, u)
unfolding getf
getf-some u i k e = ap (answered u) e

getf-got : (u : User) (i : ℕ) → (getf (pos i) u).0 ≡ got (get_elem? u.ofile i)
unfolding getf
getf-got u i = answered-got u (get_elem? u.ofile i)

-- When a descriptor is free and a file structure unused, `falloc` hands out the first of each. The
-- structure then counts one reference and stands at offset 0, the descriptor is in R0 and stands for it,
-- and every other descriptor stands for what it stood for and every other structure is as it was.
pub falloc-getf :
    (file : List File) (u : User) (i k : ℕ) (f : File)
    → LowestFree i u.ofile
    → FirstUnused k f file
    → (file' : List File) × (u' : User) × (falloc file u ≡ (some k, file', u'))
      × (u'.r0 ≡ i)
      × (getf (pos i) u' ≡ (some k, u'))
      × (get_elem? file' k ≡ some (record f { count = pos 1; offset0 = 0; offset1 = 0 }))
      × ((j : ℕ) → i ≢ j → (getf (pos j) u').0 ≡ (getf (pos j) u).0)
      × ((l : ℕ) → k ≢ l → get_elem? file' l ≡ get_elem? file l)
falloc-getf file u i k f low unused =
    let (at, zero_count, inside) = FirstUnused-get k f file unused in
    let u' : User = record u { r0 = i; ofile = set u.ofile i (some k) } in
    (
      set file k (opened f),
      u',
      falloc_succeeds file u i k f low unused,
      refl,
      getf-some u' i k (get_elem?-set_self u.ofile i (some k) (LowestFree-lt i u.ofile low)),
      get_elem?-set_self file k (opened f) inside
          ∙ ap some (
              ap (λ n. record f { count = n; offset0 = 0; offset1 = 0 })
                (succ-is_zero f.count zero_count)),
      (λ j h. getf-got u' j ∙ ap got (get_elem?-set_ne u.ofile (some k) h) ∙ sym (getf-got u j)),
      (λ l h. get_elem?-set_ne file (opened f) h),
    )
