-- ===== src/Prelude/Distinct.antt =====
-- Lists of different numbers, and a list without one of its members.
use Prim.Native.Nat.{ℕ, ◌≤◌}
use mathlib.Core.Logic.{◌≢◌, inl, inr}
use mathlib.Core.List.{List, [], ◌∷◌}
use native.Mathlib.Omega.{arith}
use linuxab.Prelude.Tests.{◌==◌, if◌then◌else◌, Bool-cases}
use linuxab.Prelude.Lists.{length}

abbrev pub NotIn : ℕ → List ℕ → Type 0
NotIn a [] = Unit {0}
NotIn a (x ∷ xs) = (a ≢ x) × NotIn a xs

abbrev pub Distinct : List ℕ → Type 0
Distinct [] = Unit {0}
Distinct (x ∷ xs) = NotIn x xs × Distinct xs

abbrev pub without : ℕ → List ℕ → List ℕ
without d [] = []
without d (x ∷ xs) = if x == d then xs else x ∷ without d xs

pub length-without : (d : ℕ) (xs : List ℕ) → length (without d xs) ≤ length xs
length-without d [] = omega arith
length-without d (x ∷ xs) = ground (arith, length-without d xs)

pub NotIn-without : (a d : ℕ) (xs : List ℕ) → NotIn a xs → NotIn a (without d xs)
NotIn-without a d [] n = tt
NotIn-without a d (x ∷ xs) n = elim (Bool-cases (x == d)) [
  | inl t ↦ rw t (n.1)
  | inr f ↦ rw f (n.0, NotIn-without a d xs n.1)
]

pub Distinct-without : (d : ℕ) (xs : List ℕ) → Distinct xs → Distinct (without d xs)
Distinct-without d [] n = tt
Distinct-without d (x ∷ xs) n = elim (Bool-cases (x == d)) [
  | inl t ↦ rw t (n.1)
  | inr f ↦ rw f (NotIn-without x d xs n.0, Distinct-without d xs n.1)
]
