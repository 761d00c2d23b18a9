-- ===== src/Net/Device/Chain.antt =====
-- net/dev.c: the list of devices that the links form, and what the two walks along it find.
use linuxab.Prelude.{
  ℕ, zero, suc, ◌<◌, ◌≡◌, ◌≢◌, refl, inl, inr, true, false, some, List, [], ◌∷◌, ◌==◌,
  if◌then◌else◌, length, arith, Bool-cases,
}
use linuxab.Types.Text.{Text}
use linuxab.Net.Queue.{put}
use linuxab.Prelude.Distinct.{NotIn, Distinct, without}
use linuxab.Net.Device.{Devices, same_text, find_name}

pub same_text_refl : (s : Text) → same_text s s ≡ true
unfolding same_text
same_text_refl [] = refl
same_text_refl (c ∷ s) = ground (arith, same_text_refl s)

pub same_text-eq : (s t : Text) → same_text s t ≡ true → s ≡ t
unfolding same_text
same_text-eq [] [] h = refl
same_text-eq [] (d ∷ t) h = cc
same_text-eq (c ∷ s) [] h = cc
same_text-eq (c ∷ s) (d ∷ t) h = ground (arith, same_text-eq s t)

-- From `p` the links lead through `xs` to NULL.
abbrev pub Listed : (ℕ → ℕ) → ℕ → List ℕ → Type 0
Listed next p [] = p ≡ 0
Listed next p (x ∷ xs) = (p ≡ x) × (x ≢ 0) × Listed next (next x) xs

-- The device that a list has under a name, and 0 if there is none.
abbrev pub named : (ℕ → Text) → Text → List ℕ → ℕ
named name n [] = 0
named name n (x ∷ xs) = if same_text (name x) n then x else named name n xs

-- No device of the list has the name.
abbrev pub Unnamed : (ℕ → Text) → Text → List ℕ → Type 0
Unnamed name n [] = Unit {0}
Unnamed name n (x ∷ xs) = (same_text (name x) n ≡ false) × Unnamed name n xs

abbrev pub NamesDiffer : (ℕ → Text) → List ℕ → Type 0
NamesDiffer name [] = Unit {0}
NamesDiffer name (x ∷ xs) = Unnamed name (name x) xs × NamesDiffer name xs

-- The devices are those of the list, the last registered first; no two have one name.
pub record IsDevices (s : Devices) (xs : List ℕ) : Type 0 where
  pub listed : Listed s.next s.dev_base xs
  pub distinct : Distinct xs
  pub names : NamesDiffer s.name xs
  pub counted : s.dev_count ≡ length xs

pub find_name-named :
    (fuel : ℕ) (s : Devices) (p : ℕ) (n : Text) (xs : List ℕ)
    → Listed s.next p xs
    → length xs < fuel
    → find_name fuel s p n ≡ some (named s.name n xs)
unfolding find_name
find_name-named zero s p n xs l h = absurd (omega arith)
find_name-named (suc fuel) s p n [] l h =
    let t : (p == 0) ≡ true = ground arith in rw (t, find_name)
find_name-named (suc fuel) s p n (x ∷ xs) l h =
    let t : (p == 0) ≡ false = ground arith in
    let more = find_name-named fuel s (s.next p) n xs (rw (l.0) (l.2)) (omega arith) in
    ground (arith, more)

-- A write outside a list leaves it as it is.
pub Listed-put :
    (next : ℕ → ℕ) (a v p : ℕ) (xs : List ℕ)
    → NotIn a xs
    → Listed next p xs
    → Listed (put next a v) p xs
Listed-put next a v p [] n l = l
Listed-put next a v p (x ∷ xs) n l =
    let e : put next a v x ≡ next x = ground arith in
    (l.0, l.1, rw e (Listed-put next a v (next x) xs n.1 l.2))

Unnamed-without :
    (name : ℕ → Text) (n : Text) (d : ℕ) (xs : List ℕ)
    → Unnamed name n xs
    → Unnamed name n (without d xs)
Unnamed-without name n d [] u = tt
Unnamed-without name n d (x ∷ xs) u = elim (Bool-cases (x == d)) [
  | inl t ↦ rw t (u.1)
  | inr f ↦ rw f (u.0, Unnamed-without name n d xs u.1)
]

pub NamesDiffer-without :
    (name : ℕ → Text) (d : ℕ) (xs : List ℕ) → NamesDiffer name xs → NamesDiffer name (without d xs)
NamesDiffer-without name d [] u = tt
NamesDiffer-without name d (x ∷ xs) u = elim (Bool-cases (x == d)) [
  | inl t ↦ rw t (u.1)
  | inr f ↦ rw f (Unnamed-without name (name x) d xs u.0, NamesDiffer-without name d xs u.1)
]

-- A name of a device outside the list does not matter.
module _ (name : ℕ → Text) (dev : ℕ) (new : Text) where
  abbrev renamed : ℕ → Text
  renamed a = if dev == a then new else name a

  pub named-renamed : (n : Text) (xs : List ℕ) → NotIn dev xs → named renamed n xs ≡ named name n xs
  named-renamed n [] h = refl
  named-renamed n (x ∷ xs) h =
      let e : renamed x ≡ name x = ground arith in rw (e, named-renamed n xs h.1)

  pub Unnamed-renamed :
      (n : Text) (xs : List ℕ) → NotIn dev xs → Unnamed name n xs → Unnamed renamed n xs
  Unnamed-renamed n [] h u = tt
  Unnamed-renamed n (x ∷ xs) h u =
      let e : renamed x ≡ name x = ground arith in rw e (u.0, Unnamed-renamed n xs h.1 u.1)

  pub NamesDiffer-renamed :
      (xs : List ℕ) → NotIn dev xs → NamesDiffer name xs → NamesDiffer renamed xs
  NamesDiffer-renamed [] h u = tt
  NamesDiffer-renamed (x ∷ xs) h u =
      let e : renamed x ≡ name x = ground arith in
      rw e (Unnamed-renamed (name x) xs h.1 u.0, NamesDiffer-renamed xs h.1 u.1)

-- What is found is a device, so that 0 tells that the name is free.
pub Unnamed-named :
    (next : ℕ → ℕ) (name : ℕ → Text) (n : Text) (p : ℕ) (xs : List ℕ)
    → Listed next p xs
    → named name n xs ≡ 0
    → Unnamed name n xs
Unnamed-named next name n p [] l h = tt
Unnamed-named next name n p (x ∷ xs) l h = elim (Bool-cases (same_text (name x) n)) [
  | inl t ↦ absurd (ground arith)
  | inr f ↦ (f, Unnamed-named next name n (next x) xs l.2 (ground arith))
]
