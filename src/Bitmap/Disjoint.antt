-- ===== src/Bitmap/Disjoint.antt =====
-- `operator&=` of include/bitmap.h on vectors that have no element in common.
use ptranalysis.Common.{
  ℕ, ◌≡◌, ◌≢◌, refl, true, false, ◌&&◌, List, [], ◌∷◌, arith, compare-cases, inl, inr, Bool-cases,
}
use ptranalysis.Bitmap.Element.{Element}
use ptranalysis.Bitmap.Vector.{Bitmap, empty, intersect, intersect_elements}

-- No element has the index.
abbrev pub Apart : ℕ → List Element → Type 0
Apart i [] = Unit {0}
Apart i (y ∷ ys) = (i ≢ y.index) × Apart i ys

-- No index is in both lists.
abbrev pub AreDisjoint : List Element → List Element → Type 0
AreDisjoint [] ys = Unit {0}
AreDisjoint (x ∷ xs) ys = Apart x.index ys × AreDisjoint xs ys

AreDisjoint-tail :
    (xs : List Element) (y : Element) (ys : List Element)
    → AreDisjoint xs (y ∷ ys)
    → AreDisjoint xs ys
AreDisjoint-tail [] y ys d = tt
AreDisjoint-tail (x ∷ xs) y ys (a, d) = (a.1, AreDisjoint-tail xs y ys d)

intersect_elements-disjoint :
    (xs ys : List Element) → AreDisjoint xs ys → intersect_elements xs ys ≡ ([], false)
unfolding intersect_elements
intersect_elements-disjoint [] ys d = refl
intersect_elements-disjoint (x ∷ xs) [] d = refl
intersect_elements-disjoint (x ∷ xs) (y ∷ ys) (a, d) = elim (compare-cases x.index y.index) [
  | inl (e, lt) ↦ rw (e, intersect_elements) (intersect_elements-disjoint xs (y ∷ ys) d)
  | inr (inl (e, eq)) ↦ absurd (a.0 eq)
  | inr (inr (e, gt)) ↦
      rw (e, intersect_elements)
        (intersect_elements-disjoint (x ∷ xs) ys (a.1, AreDisjoint-tail xs y ys d))
]

-- `&=` with a vector that shares no index erases all elements, and returns false all the same.
pub intersect-AreDisjoint :
    (a b : Bitmap)
    → AreDisjoint a.elements b.elements
    → ((intersect a b).0.elements ≡ []) × ((intersect a b).1 ≡ false)
unfolding intersect
intersect-AreDisjoint a b d = elim (Bool-cases (empty a && empty b)) [
  | inl none ↦ rw none (no_elements a.elements (ground arith), refl)
  | inr filled ↦ rw (filled, intersect_elements-disjoint a.elements b.elements d) (refl, refl)
]
  where
    no_elements : (es : List Element) → empty (record { elements = es; curr = 0 }) ≡ true → es ≡ []
    no_elements [] e = refl
    no_elements (x ∷ xs) e = unfold empty in cc e
