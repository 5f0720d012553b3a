-- ===== src/Tests/Vectors.antt =====
-- A bdd_allsat for the domains of four nodes, and what bdd2vec of anders/util.cpp makes of a set.
use ptranalysis.Common.{
  ℕ, zero, suc, ◌^◌, ◌≤◌, ◌<◌, ◌≡◌, ◌↔◌, ◌⊎◌, refl, sym, ap, ◌∙◌, Bool, true, false, List, [], ◌∷◌,
  arith, ltb, if◌then◌else◌, Bool-cases, inl, inr, ℕ_discrete,
}
use ptranalysis.Common.Bits.{has, has_above, eq_of_has}
use ptranalysis.Solver.Expand.{SatBit, bit_clear, bit_set}
use ptranalysis.Solver.Expanded.{agrees, Fits, AnyFits}

abbrev pub bit_at : Bool → SatBit
bit_at true = bit_set
bit_at false = bit_clear

-- The vector of one number, with the entries of domain 1 between its bits.
abbrev pub vector_of : ℕ → List SatBit
vector_of y = bit_at (has y 0) ∷ bit_clear ∷ bit_at (has y 1) ∷ []

-- The vectors of the members of a mask below a bound.
abbrev pub vectors_below : ℕ → ℕ → List (List SatBit)
vectors_below s zero = []
vectors_below s (suc k) =
    let rest = vectors_below s k in if has s k then vector_of k ∷ rest else rest

agrees-bit_at : (b r : Bool) → agrees (bit_at b) r ≡ true → r ≡ b
agrees-bit_at true r h = h
agrees-bit_at false true h = sym h
agrees-bit_at false false h = refl

bit_at-agrees : (b : Bool) → agrees (bit_at b) b ≡ true
bit_at-agrees true = refl
bit_at-agrees false = refl

Fits-only : (y x : ℕ) → y < 4 → Fits 2 (vector_of y) x → x ≡ y
Fits-only y x l h = eq_of_has x y bits
  where
    bits : (p : ℕ) → has x p ≡ has y p
    bits zero = agrees-bit_at (has y 0) (has x 0) (h 0)
    bits (suc zero) = agrees-bit_at (has y 1) (has x 1) (h 1)
    bits (suc (suc p)) =
        (let w = h (suc (suc p)) in ground arith)
        ∙ sym (has_above 2 y (suc (suc p)) (omega arith) (omega arith))

Fits-itself : (y : ℕ) → y < 4 → Fits 2 (vector_of y) y
Fits-itself y l zero = bit_at-agrees (has y 0)
Fits-itself y l (suc zero) = bit_at-agrees (has y 1)
Fits-itself y l (suc (suc p)) =
    let outside : ltb (suc (suc p)) 2 ≡ false = ground arith in
    rw (outside, has_above 2 y (suc (suc p)) (omega arith) (omega arith)) refl

vectors_below-found : (s k x : ℕ) → k ≤ 4 → AnyFits 2 (vectors_below s k) x → has s x ≡ true
vectors_below-found s zero x l h = absurd cc
vectors_below-found s (suc k) x l h = elim (Bool-cases (has s k)) [
  | inr missing ↦ vectors_below-found s k x (omega arith) (rw missing at h)
  | inl there ↦
      let h' : Fits 2 (vector_of k) x ⊎ AnyFits 2 (vectors_below s k) x = rw there at h in
      elim h' [
        | inl here ↦ ap (has s) (Fits-only k x (omega arith) here) ∙ there
        | inr later ↦ vectors_below-found s k x (omega arith) later
      ]
]

vectors_below-there : (s k x : ℕ) → k ≤ 4 → x < k → has s x ≡ true → AnyFits 2 (vectors_below s k) x
vectors_below-there s zero x l p h = absurd (omega arith)
vectors_below-there s (suc k) x l p h = elim (ℕ_discrete x k) [
  | yes e ↦
      let there : has s k ≡ true = ap (has s) (sym e) ∙ h in
      rw (there, e) (inl (Fits-itself k (omega arith)))
  | no n ↦
      let rest = vectors_below-there s k x (omega arith) (omega arith) h in
      elim (Bool-cases (has s k)) [
        | inl there ↦ rw there (inr rest)
        | inr missing ↦ rw missing rest
      ]
]

-- The members of a mask below 4 are just the numbers that fit its vectors.
pub vectors_below_iff :
    (s : ℕ)
    → ((x : ℕ) → has s x ≡ true → x < 2 ^ 2)
    → (x : ℕ) → (has s x ≡ true) ↔ AnyFits 2 (vectors_below s 4) x
vectors_below_iff s inside x = (
  λ h. (let l = inside x h in vectors_below-there s 4 x (omega arith) (omega arith) h),
  λ h. vectors_below-found s 4 x (omega arith) h,
)
