-- ===== src/Bitmap/Chain.antt =====
-- The elements of a bit vector as a set of bits: in increasing order, none of them empty.
use ptranalysis.Common.{
  ℕ, suc, ◌/◌, ◌%◌, ◌≤◌, ◌<◌, ◌≡◌, refl, Bool, true, false, not, ◌&&◌, ◌||◌, List, [], ◌∷◌, arith,
  ◌==◌, Bool-cases, inl, inr, compare-cases,
}
use ptranalysis.Bitmap.Element
use ptranalysis.Bitmap.Element.{Element, element_size}
use ptranalysis.Bitmap.Words.{has_bit, IsElement}
use ptranalysis.Bitmap.Merge.{
  empty-has, union_with-has, union_with-IsElement, intersect_with-has, intersect_with-IsElement,
  intersect_with-zero, complement-has, complement-IsElement, complement-zero, merge_index,
}
use ptranalysis.Bitmap.Vector.{union_elements, intersect_elements, complement_elements, keep}

-- Bit `n` of an element at its place in the vector.
abbrev pub holds_here : Element → ℕ → Bool
holds_here e n = (e.index == n / element_size) && has_bit e.bits (n % element_size)

-- Is `n` in the set?
unfoldable pub holds : List Element → ℕ → Bool
holds [] n = false
holds (e ∷ es) n = holds_here e n || holds es n

-- Indices from `lo` on, increasing, of elements that are not empty.
abbrev pub Chain : ℕ → List Element → Type 0
Chain lo [] = Unit {0}
Chain lo (e ∷ es) =
    (lo ≤ e.index) × IsElement e × (Element.empty e ≡ false) × Chain (suc e.index) es

pub Chain-le : (lo hi : ℕ) (es : List Element) → lo ≤ hi → Chain hi es → Chain lo es
Chain-le lo hi [] h c = tt
Chain-le lo hi (e ∷ es) h c = (omega (arith, c.0), c.1, c.2, c.3)

-- No bit stands below the first index.
pub holds_below :
    (lo : ℕ) (es : List Element) (n : ℕ) → Chain lo es → n / element_size < lo → holds es n ≡ false
unfolding holds
holds_below lo [] n c h = refl
holds_below lo (e ∷ es) n c h = ground (arith, holds_below (suc e.index) es n c.3)

pub empty_no_bit :
    (e : Element) (j : ℕ) → IsElement e → Element.empty e ≡ true → has_bit e.bits j ≡ false
empty_no_bit e j x h = (empty-has e x).0 h j

-- A union is not empty if one side is not.
not_empty :
    (e f : Element)
    → IsElement e
    → IsElement f
    → Element.empty e ≡ false
    → ((j : ℕ) → has_bit f.bits j ≡ false → has_bit e.bits j ≡ false)
    → Element.empty f ≡ false
not_empty e f x y ne sub = elim (Bool-cases (Element.empty f)) [
  | inl empty ↦
      let none = (empty-has f y).0 empty in
      absurd (cc ((empty-has e x).1 (λ j. sub j (none j)), ne))
  | inr e ↦ e
]

-- `|=` makes the union.
pub holds-union :
    (xs ys : List Element) (lo : ℕ) (n : ℕ)
    → Chain lo xs
    → Chain lo ys
    → holds (union_elements xs ys).0 n ≡ holds xs n || holds ys n
unfolding holds union_elements
holds-union [] [] lo n c d = refl
holds-union (x ∷ xs) [] lo n c d = ground arith
holds-union [] (y ∷ ys) lo n c d = ground (arith, holds-union [] ys (suc y.index) n tt d.3)
holds-union (x ∷ xs) (y ∷ ys) lo n c d = ground (
  arith,
  union_with-has x y c.1 d.1 (n % 128),
  merge_index x y,
  λ (p : x.index < y.index). holds-union xs (y ∷ ys) (suc x.index) n c.3 (p, d.1, d.2, d.3),
  λ (p : y.index < x.index). holds-union (x ∷ xs) ys (suc y.index) n (p, c.1, c.2, c.3) d.3,
  λ (p : x.index ≡ y.index). holds-union xs ys (suc x.index) n c.3 (rw p d.3),
)

union_not_empty :
    (x y : Element)
    → IsElement x
    → IsElement y
    → Element.empty x ≡ false
    → Element.empty (Element.union_with x y).0 ≡ false
union_not_empty x y p q ne =
    not_empty x (Element.union_with x y).0 p (union_with-IsElement x y p q) ne
      (λ j h. ground (arith, union_with-has x y p q j))

pub Chain-union :
    (xs ys : List Element) (lo : ℕ) → Chain lo xs → Chain lo ys → Chain lo (union_elements xs ys).0
unfolding union_elements
Chain-union [] [] lo c d = tt
Chain-union (x ∷ xs) [] lo c d = c
Chain-union [] (y ∷ ys) lo c d = (d.0, d.1, d.2, Chain-union [] ys (suc y.index) tt d.3)
Chain-union (x ∷ xs) (y ∷ ys) lo c d = elim (compare-cases x.index y.index) [
  | inl (e, lt) ↦
      rw (e, union_elements)
        (c.0, c.1, c.2, Chain-union xs (y ∷ ys) (suc x.index) c.3 (lt, d.1, d.2, d.3))
  | inr (inl (e, eq)) ↦
      rw (e, union_elements)
        (
          omega (arith, merge_index x y, c.0),
          union_with-IsElement x y c.1 d.1,
          union_not_empty x y c.1 d.1 c.2,
          Chain-le _ (suc x.index) _ (omega (arith, merge_index x y))
              (Chain-union xs ys (suc x.index) c.3 (rw eq d.3)),
        )
  | inr (inr (e, gt)) ↦
      rw (e, union_elements)
        (d.0, d.1, d.2, Chain-union (x ∷ xs) ys (suc y.index) (gt, c.1, c.2, c.3) d.3)
]

-- `&=` makes the intersection.
pub holds-intersect :
    (xs ys : List Element) (lo : ℕ) (n : ℕ)
    → Chain lo xs
    → Chain lo ys
    → holds (intersect_elements xs ys).0 n ≡ holds xs n && holds ys n
unfolding holds intersect_elements
holds-intersect [] ys lo n c d = refl
holds-intersect (x ∷ xs) [] lo n c d = ground arith
holds-intersect (x ∷ xs) (y ∷ ys) lo n c d = ground (
  arith,
  intersect_with-has x y c.1 d.1 (n % 128),
  merge_index x y,
  intersect_with-zero x y c.1 d.1,
  empty_no_bit (Element.intersect_with x y).0 (n % 128) (intersect_with-IsElement x y c.1 d.1),
  holds_below (suc x.index) xs n c.3,
  holds_below (suc y.index) ys n d.3,
  λ (p : x.index < y.index). holds-intersect xs (y ∷ ys) (suc x.index) n c.3 (p, d.1, d.2, d.3),
  λ (p : y.index < x.index). holds-intersect (x ∷ xs) ys (suc y.index) n (p, c.1, c.2, c.3) d.3,
  λ (p : x.index ≡ y.index). holds-intersect xs ys (suc x.index) n c.3 (rw p d.3),
)

-- `intersectWithComplement` makes the difference.
pub holds-complement :
    (xs ys : List Element) (lo : ℕ) (n : ℕ)
    → Chain lo xs
    → Chain lo ys
    → holds (complement_elements xs ys).0 n ≡ holds xs n && not (holds ys n)
unfolding holds complement_elements
holds-complement [] ys lo n c d = refl
holds-complement (x ∷ xs) [] lo n c d = ground arith
holds-complement (x ∷ xs) (y ∷ ys) lo n c d = ground (
  arith,
  complement-has x y c.1 d.1 (n % 128),
  merge_index x y,
  complement-zero x y c.1 d.1,
  empty_no_bit (Element.intersect_with_complement x y).0 (n % 128)
      (complement-IsElement x y c.1 d.1),
  holds_below (suc x.index) xs n c.3,
  holds_below (suc y.index) ys n d.3,
  λ (p : x.index < y.index). holds-complement xs (y ∷ ys) (suc x.index) n c.3 (p, d.1, d.2, d.3),
  λ (p : y.index < x.index). holds-complement (x ∷ xs) ys (suc y.index) n (p, c.1, c.2, c.3) d.3,
  λ (p : x.index ≡ y.index). holds-complement xs ys (suc x.index) n c.3 (rw p d.3),
)

-- An element that did not become zero goes on a chain.
Chain-keep :
    (lo : ℕ) (z : Bool) (e : Element) (es : List Element)
    → lo ≤ e.index
    → IsElement e
    → z ≡ Element.empty e
    → Chain (suc e.index) es
    → Chain lo (keep z e es)
Chain-keep lo z e es h x p c = elim (Bool-cases z) [
  | inl t ↦ rw t (Chain-le lo (suc e.index) es (omega arith) c)
  | inr f ↦ rw f (h, x, cc, c)
]

pub Chain-intersect :
    (xs ys : List Element) (lo : ℕ)
    → Chain lo xs
    → Chain lo ys
    → Chain lo (intersect_elements xs ys).0
unfolding intersect_elements
Chain-intersect [] ys lo c d = tt
Chain-intersect (x ∷ xs) [] lo c d = tt
Chain-intersect (x ∷ xs) (y ∷ ys) lo c d = elim (compare-cases x.index y.index) [
  | inl (e, lt) ↦
      rw (e, intersect_elements)
        (Chain-le lo (suc x.index) _ (omega arith)
          (Chain-intersect xs (y ∷ ys) (suc x.index) c.3 (lt, d.1, d.2, d.3)))
  | inr (inl (e, eq)) ↦
      rw (e, intersect_elements)
        (Chain-keep lo _ (Element.intersect_with x y).0 _ (omega (arith, merge_index x y, c.0))
          (intersect_with-IsElement x y c.1 d.1) (intersect_with-zero x y c.1 d.1)
          (Chain-le _ (suc x.index) _ (omega (arith, merge_index x y))
            (Chain-intersect xs ys (suc x.index) c.3 (rw eq d.3))))
  | inr (inr (e, gt)) ↦
      rw (e, intersect_elements)
        (Chain-le lo (suc y.index) _ (omega arith)
          (Chain-intersect (x ∷ xs) ys (suc y.index) (gt, c.1, c.2, c.3) d.3))
]

pub Chain-complement :
    (xs ys : List Element) (lo : ℕ)
    → Chain lo xs
    → Chain lo ys
    → Chain lo (complement_elements xs ys).0
unfolding complement_elements
Chain-complement [] ys lo c d = tt
Chain-complement (x ∷ xs) [] lo c d = c
Chain-complement (x ∷ xs) (y ∷ ys) lo c d = elim (compare-cases x.index y.index) [
  | inl (e, lt) ↦
      rw (e, complement_elements)
        (c.0, c.1, c.2, Chain-complement xs (y ∷ ys) (suc x.index) c.3 (lt, d.1, d.2, d.3))
  | inr (inl (e, eq)) ↦
      rw (e, complement_elements)
        (Chain-keep lo _ (Element.intersect_with_complement x y).0 _
          (omega (arith, merge_index x y, c.0)) (complement-IsElement x y c.1 d.1)
          (complement-zero x y c.1 d.1)
          (Chain-le _ (suc x.index) _ (omega (arith, merge_index x y))
            (Chain-complement xs ys (suc x.index) c.3 (rw eq d.3))))
  | inr (inr (e, gt)) ↦
      rw (e, complement_elements)
        (Chain-le lo (suc y.index) _ (omega arith)
          (Chain-complement (x ∷ xs) ys (suc y.index) (gt, c.1, c.2, c.3) d.3))
]
