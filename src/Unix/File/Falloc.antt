-- ===== src/Unix/File/Falloc.antt =====
-- unix/kernel/ken/fio.c: what `falloc` allocates, and what it leaves alone.
use linuxab.Prelude.{
  ℕ, zero, suc, ◌+◌, ◌<◌, ◌≡◌, refl, ap, sym, ◌∙◌, ◌⊎◌, inl, inr, true, false, Option, none, some,
  List, [], ◌∷◌, length, set, get_elem?, arith, Bool-cases,
}
use linuxab.Prelude.Int.{succ}
use linuxab.Unix.File.{
  User, File, emfile, enfile, fail, first_free, ufalloc, is_zero, unused_file, falloc,
}

-- The lowest free descriptor, and the first file structure that is not used.
abbrev pub NoneFree : List (Option ℕ) → Type 0
NoneFree [] = Unit {0}
NoneFree (none ∷ l) = ⊥
NoneFree (some k ∷ l) = NoneFree l

abbrev pub LowestFree : ℕ → List (Option ℕ) → Type 0
LowestFree i [] = ⊥
LowestFree zero (none ∷ l) = Unit {0}
LowestFree zero (some k ∷ l) = ⊥
LowestFree (suc i) (none ∷ l) = ⊥
LowestFree (suc i) (some k ∷ l) = LowestFree i l

abbrev pub AllUsed : List File → Type 0
AllUsed [] = Unit {0}
AllUsed (f ∷ l) = (is_zero f.count ≡ false) × AllUsed l

abbrev pub FirstUnused : ℕ → File → List File → Type 0
FirstUnused k f [] = ⊥
FirstUnused zero f (g ∷ l) = (g ≡ f) × (is_zero g.count ≡ true)
FirstUnused (suc k) f (g ∷ l) = (is_zero g.count ≡ false) × FirstUnused k f l

first_free-cases :
    (n : ℕ) (l : List (Option ℕ))
    → (NoneFree l × (first_free n l ≡ none))
      ⊎ ((i : ℕ) × LowestFree i l × (first_free n l ≡ some (n + i)))
unfolding first_free
first_free-cases n [] = inl (tt, refl)
first_free-cases n (none ∷ l) = inr (0, tt, ap some (omega arith))
first_free-cases n (some k ∷ l) = elim (first_free-cases (suc n) l) [
  | inl h ↦ inl h
  | inr (i, low, e) ↦ inr (suc i, low, e ∙ ap some (omega arith))
]

unused_file-cases :
    (n : ℕ) (l : List File)
    → (AllUsed l × (unused_file n l ≡ none))
      ⊎ ((k : ℕ) × (f : File) × FirstUnused k f l × (unused_file n l ≡ some (n + k, f)))
unfolding unused_file
unused_file-cases n [] = inl (tt, refl)
unused_file-cases n (g ∷ l) = elim (Bool-cases (is_zero g.count)) [
  | inl t ↦ inr (0, g, (refl, t), rw t (ap (λ j. some (j, g)) (omega arith)))
  | inr f ↦ elim (unused_file-cases (suc n) l) [
    | inl (h, e) ↦ inl ((f, h), rw f e)
    | inr (k, g', h, e) ↦ inr (suc k, g', (f, h), rw f (e ∙ ap (λ j. some (j, g')) (omega arith)))
  ]
]

-- The structure as it is handed out.
abbrev pub opened : File → File
opened f = record f { count = succ f.count; offset0 = 0; offset1 = 0 }

-- What `falloc` makes of the table and the user on each of its three ways out.
abbrev pub Allocates : List File → User → Option ℕ × List File × User → Type 0
Allocates file u r =
    (NoneFree u.ofile × (r ≡ (none, file, fail emfile u)))
    ⊎ ((i : ℕ) × LowestFree i u.ofile
        × ((AllUsed file × (r ≡ (none, file, fail enfile (record u { r0 = i }))))
            ⊎ ((k : ℕ) × (f : File) × FirstUnused k f file
                × (r ≡ (
                  some k,
                  set file k (opened f),
                  record u { r0 = i; ofile = set u.ofile i (some k) },
                )))))

-- The two searches of `falloc`, by what they find.
abbrev allotted : User → Option ℕ → Option ℕ × User
allotted u o = elim o [ none ↦ (none, fail emfile u) | some i ↦ (some i, record u { r0 = i }) ]

abbrev placed : List File → ℕ → User → Option (ℕ × File) → Option ℕ × List File × User
placed file i u o = elim o [
  | none ↦ (none, file, fail enfile u)
  | some (k, f) ↦ (some k, set file k (opened f), record u { ofile = set u.ofile i (some k) })
]

abbrev searched : List File → Option ℕ × User → Option ℕ × List File × User
searched file r = elim (r.0) [
  | none ↦ (none, file, r.1)
  | some i ↦ placed file i (r.1) (unused_file 0 file)
]

falloc-searched :
    (file : List File) (u : User) (o : Option ℕ)
    → first_free 0 u.ofile ≡ o
    → falloc file u ≡ searched file (allotted u o)
unfolding falloc ufalloc
falloc-searched file u o e = ap (λ z. searched file (allotted u z)) e

-- `falloc` goes one of three ways. With no free descriptor it gives NULL and the error EMFILE and changes
-- nothing else. With a free descriptor and no unused file structure it gives NULL and ENFILE, and only R0,
-- with the lowest free descriptor, is changed. Otherwise it gives the first unused structure, counted up
-- and at offset 0, which the lowest free descriptor, also in R0, then stands for.
pub falloc-Allocates : (file : List File) (u : User) → Allocates file u (falloc file u)
falloc-Allocates file u = elim (first_free-cases 0 u.ofile) [
  | inl (h, e) ↦ inl (h, falloc-searched file u none e)
  | inr (i, low, e) ↦
      let u1 : User = record u { r0 = i } in
      let e' = falloc-searched file u (some i) (e ∙ ap some (omega arith)) in
      elim (unused_file-cases 0 file) [
        | inl (h, g) ↦ inr (i, low, inl (h, e' ∙ ap (placed file i u1) g))
        | inr (k, f, h, g) ↦ inr (
          i,
          low,
          inr (k, f, h, e' ∙ ap (placed file i u1) (g ∙ ap (λ j. some (j, f)) (omega arith))),
        )
      ]
]

pub FirstUnused-get :
    (k : ℕ) (f : File) (l : List File)
    → FirstUnused k f l
    → (get_elem? l k ≡ some f) × (is_zero f.count ≡ true) × (k < length l)
FirstUnused-get k f [] h = absurd h
FirstUnused-get zero f (g ∷ l) h =
    (ap some h.0, ap (λ x. is_zero x.count) (sym h.0) ∙ h.1, omega arith)
FirstUnused-get (suc k) f (g ∷ l) h =
    let (a, b, c) = FirstUnused-get k f l h.1 in (a, b, omega arith)
