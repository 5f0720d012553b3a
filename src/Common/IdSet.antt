-- ===== src/Common/IdSet.antt =====
-- `std::set` of node IDs, as its elements in increasing order.
use Prim.Native.Nat.{ℕ, ◌<◌}
use mathlib.Core.Path.{◌≡◌, refl}
use mathlib.Core.Logic.{inl, inr}
use mathlib.Core.Bool.{Bool, true, false, ◌&&◌, ◌||◌, not}
use mathlib.Core.List.{List, [], ◌∷◌}
use native.Mathlib.Omega.{arith}
use ptranalysis.Common.Tests.{ltb, ◌==◌, if◌then◌else◌, Bool-cases}

abbrev pub insert : ℕ → List ℕ → List ℕ
insert a [] = a ∷ []
insert a (x ∷ xs) = if ltb a x then a ∷ x ∷ xs else if a == x then x ∷ xs else x ∷ insert a xs

-- `count(a)`, as a test.
abbrev pub contains : ℕ → List ℕ → Bool
contains a [] = false
contains a (x ∷ xs) = (a == x) || contains a xs

abbrev pub erase : ℕ → List ℕ → List ℕ
erase a [] = []
erase a (x ∷ xs) = if a == x then xs else x ∷ erase a xs

-- All elements are above the bound, in increasing order.
abbrev pub Above : ℕ → List ℕ → Type 0
Above b [] = Unit {0}
Above b (x ∷ xs) = (b < x) × Above x xs

abbrev pub IsIncreasing : List ℕ → Type 0
IsIncreasing [] = Unit {0}
IsIncreasing (x ∷ xs) = Above x xs

pub contains-insert : (a b : ℕ) (xs : List ℕ) → contains b (insert a xs) ≡ (b == a) || contains b xs
contains-insert a b [] = refl
contains-insert a b (x ∷ xs) = ground (arith, contains-insert a b xs)

pub Above-insert : (c a : ℕ) (xs : List ℕ) → c < a → Above c xs → Above c (insert a xs)
Above-insert c a [] h s = (h, tt)
Above-insert c a (x ∷ xs) h s = elim (Bool-cases (ltb a x)) [
  | inl lt ↦ rw lt (h, (ground arith, s.1))
  | inr ge ↦ elim (Bool-cases (a == x)) [
    | inl e ↦ rw (ge, e) s
    | inr n ↦ rw (ge, n) (s.0, Above-insert x a xs (ground arith) s.1)
  ]
]

pub insert-IsIncreasing : (a : ℕ) (xs : List ℕ) → IsIncreasing xs → IsIncreasing (insert a xs)
insert-IsIncreasing a [] s = tt
insert-IsIncreasing a (x ∷ xs) s = elim (Bool-cases (ltb a x)) [
  | inl lt ↦ rw lt (ground arith, s)
  | inr ge ↦ elim (Bool-cases (a == x)) [
    | inl e ↦ rw (ge, e) s
    | inr n ↦ rw (ge, n) (Above-insert x a xs (ground arith) s)
  ]
]

-- What is above a bound is not the bound, nor below it.
pub Above-lt : (b a : ℕ) (xs : List ℕ) → Above b xs → contains a xs ≡ true → b < a
Above-lt b a [] s h = cc
Above-lt b a (x ∷ xs) s h = ground (arith, Above-lt x a xs)

pub contains-erase :
    (a b : ℕ) (xs : List ℕ)
    → IsIncreasing xs
    → contains b (erase a xs) ≡ not (b == a) && contains b xs
contains-erase a b [] s = ground arith
contains-erase a b (x ∷ []) s = ground arith
contains-erase a b (x ∷ y ∷ xs) s =
    ground (arith, contains-erase a b (y ∷ xs) s.1, Above-lt x b (y ∷ xs) s)
