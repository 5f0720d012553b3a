-- ===== src/Bitmap/Algebra.antt =====
-- `reset`, `test_and_set`, the set operations and the assignments of include/bitmap.h.
use ptranalysis.Common.{
  ℕ, ◌/◌, ◌%◌, ◌<◌, ◌≡◌, ◌↔◌, refl, ap, ◌∙◌, true, false, not, ◌&&◌, ◌||◌, List, [], ◌∷◌, arith,
  ◌==◌, if◌then◌else◌, length, Bool-cases, inl, inr, subst, compare-cases,
}
use ptranalysis.Bitmap.Element
use ptranalysis.Bitmap.Element.{Element, element_size}
use ptranalysis.Bitmap.Words.{has_bit, IsElement, reset-has, reset-IsElement}
use ptranalysis.Bitmap.Merge.{union_with-changed}
use ptranalysis.Bitmap.Vector
use ptranalysis.Bitmap.Vector.{
  Bitmap, element_at, index_at, find_lower_bound, empty, found, test, set, reset, test_and_set,
  replace_at, erase_at, union, intersect, intersect_with_complement, union_elements,
}
use ptranalysis.Bitmap.Chain.{
  holds, Chain, holds-union, Chain-union, holds-intersect, Chain-intersect, holds-complement,
  Chain-complement, empty_no_bit,
}
use ptranalysis.Bitmap.Places.{
  element-IsElement, holds_there, holds-replace, Chain-replace, holds-erase, Chain-erase,
  length-replace, length-erase,
}
use ptranalysis.Bitmap.Search.{IsBitmap, holds-found}
use ptranalysis.Bitmap.Laws.{
  member, Stands, at, empty-member, test-member, set-member, i, moved, moved_eq, moved-IsBitmap,
  found_place,
}

-- A bit reset in an element that is there, which goes if it has become zero.
reset_there :
    (es : List Element) (n i : ℕ)
    → Chain 0 es
    → i < length es
    → index_at es i ≡ n / element_size
    → (e : Element) → e ≡ Element.reset (element_at es i) (n % element_size)
    → Stands
        (record {
          elements = if Element.empty e then erase_at es i else replace_at es i e;
          curr = i;
        })
        (λ m. not (m == n) && holds es m)
reset_there es n i c h q e eq =
    let x = (element-IsElement 0 es i c h).0 in
    let y : IsElement e = rw eq (reset-IsElement (element_at es i) (n % element_size) x) in
    let same : e.index ≡ index_at es i = rw eq (unfold Element.reset in refl) in
    let bits = λ (k : ℕ).
      let r : has_bit e.bits k ≡ not (k == n % element_size) && has_bit (element_at es i).bits k =
        rw eq (reset-has (element_at es i) (n % element_size) k x (omega arith)) in
      r in
    elim (Bool-cases (Element.empty e)) [
      | inl gone ↦ rw gone (record {
        ok = record { chain = Chain-erase 0 es i c; pointer = omega (arith, length-erase es i h) };
        decides = λ m. ground (
          arith,
          holds-erase 0 es i m c h,
          bits (m % element_size),
          empty_no_bit e (m % element_size) y gone,
          λ (p : index_at es i ≡ m / element_size). holds_there 0 es i m c h p,
        );
      })
      | inr kept ↦ rw kept (record {
        ok = record {
          chain = Chain-replace e 0 es i c h same y kept;
          pointer = omega (arith, length-replace e es i);
        };
        decides = λ m. ground (
          arith,
          holds-replace e 0 es i m c h same,
          bits (m % element_size),
          λ (p : index_at es i ≡ m / element_size). holds_there 0 es i m c h p,
        );
      })
    ]

reset_found :
    (b : Bitmap) (n : ℕ) (ok : IsBitmap b)
    → empty b ≡ false
    → found b.elements (i b n ok) (n / element_size) ≡ true
    → (let e = Element.reset (element_at b.elements (i b n ok)) (n % element_size) in
        ◌≡◌ {A = Bitmap}
          (record {
            elements =
                if Element.empty e
                then erase_at b.elements (i b n ok)
                else replace_at b.elements (i b n ok) e;
            curr = i b n ok;
          })
          (reset b n))
unfolding reset
reset_found b n ok filled there = rw (filled, moved_eq b n ok, there)

-- `reset` of a well-formed vector leaves a well-formed one without the bit, and with every
-- other bit as it was.
pub reset-member :
    (b : Bitmap) (n : ℕ) → IsBitmap b → Stands (reset b n) (λ m. not (m == n) && member b m)
reset-member b n ok = elim (Bool-cases (empty b)) [
  | inl none ↦
      let e : b ≡ reset b n = unfold reset in rw none in
      subst (λ (t : Bitmap). Stands t (λ m. not (m == n) && member b m)) e
        (record { ok = ok; decides = λ m. ground (arith, empty-member b m none) })
  | inr filled ↦ elim (Bool-cases (found b.elements (i b n ok) (n / element_size))) [
    | inl there ↦
        let (p, q) = found_place b n ok there in
        subst (λ (t : Bitmap). Stands t (λ m. not (m == n) && member b m))
          (reset_found b n ok filled there)
          (reset_there b.elements n (i b n ok) ok.chain p q _ refl)
    | inr missing ↦
        let e : moved b n ok ≡ reset b n = unfold reset in rw (filled, moved_eq b n ok, missing) in
        let gone : member b n ≡ false =
          ground (arith, holds-found b.elements n (i b n ok) ok.chain (at b n ok), missing) in
        subst (λ (t : Bitmap). Stands t (λ m. not (m == n) && member b m)) e
          (record {
            ok = moved-IsBitmap b n ok;
            decides = λ m. ground (arith, gone, λ (p : m ≡ n). ap (λ (k : ℕ). member b k) p);
          })
  ]
]

-- `test_and_set` on a well-formed vector leaves a well-formed one with the bit, and with every
-- other bit as it was, and tells whether the bit was missing.
pub test_and_set-member :
    (b : Bitmap) (n : ℕ)
    → IsBitmap b
    → Stands (test_and_set b n).0 (λ m. (m == n) || member b m)
      × ((test_and_set b n).1 ≡ not (member b n))
unfolding test_and_set
test_and_set-member b n ok =
    let (t, same, ok') = test-member b n ok in
    elim (Bool-cases (test b n).1) [
      | inl old ↦ rw old (
        record {
          ok = ok';
          decides = λ m.
              ap (λ (es : List Element). holds es m) same
              ∙ ground (arith, t, old, λ (p : m ≡ n). ap (λ (k : ℕ). member b k) p);
        },
        ground (arith, t, old),
      )
      | inr new ↦
          let s = set-member (test b n).0 n ok' in
          rw new (
            record {
              ok = s.ok;
              decides = λ m. s.decides m ∙ ap (λ (es : List Element). (m == n) || holds es m) same;
            },
            ground (arith, t, new),
          )
    ]

-- `|=` of well-formed vectors leaves a well-formed one that stands for the union of the sets.
pub union-member :
    (a b : Bitmap) → IsBitmap a → IsBitmap b → Stands (union a b).0 (λ m. member a m || member b m)
unfolding union
union-member a b p q = elim (Bool-cases (empty b)) [
  | inl none ↦ rw none (record { ok = p; decides = λ m. ground (arith, empty-member b m none) })
  | inr filled ↦ rw filled (record {
    ok = record {
      chain = Chain-union a.elements b.elements 0 p.chain q.chain;
      pointer = omega arith;
    };
    decides = λ m. holds-union a.elements b.elements 0 m p.chain q.chain;
  })
]

-- `&=` of well-formed vectors leaves a well-formed one that stands for the intersection of
-- the sets.
pub intersect-member :
    (a b : Bitmap)
    → IsBitmap a
    → IsBitmap b
    → Stands (intersect a b).0 (λ m. member a m && member b m)
unfolding intersect
intersect-member a b p q = elim (Bool-cases (empty a && empty b)) [
  | inl none ↦ rw none (record { ok = p; decides = λ m. ground (arith, empty-member a m) })
  | inr filled ↦ rw filled (record {
    ok = record {
      chain = Chain-intersect a.elements b.elements 0 p.chain q.chain;
      pointer = omega arith;
    };
    decides = λ m. holds-intersect a.elements b.elements 0 m p.chain q.chain;
  })
]

-- `intersectWithComplement` of well-formed vectors leaves a well-formed one that stands for
-- the difference of the sets.
pub complement-member :
    (a b : Bitmap)
    → IsBitmap a
    → IsBitmap b
    → Stands (intersect_with_complement a b).0 (λ m. member a m && not (member b m))
unfolding intersect_with_complement
complement-member a b p q = elim (Bool-cases (empty a || empty b)) [
  | inl none ↦
      rw none (record { ok = p; decides = λ m. ground (arith, empty-member a m, empty-member b m) })
  | inr filled ↦ rw filled (record {
    ok = record {
      chain = Chain-complement a.elements b.elements 0 p.chain q.chain;
      pointer = omega arith;
    };
    decides = λ m. holds-complement a.elements b.elements 0 m p.chain q.chain;
  })
]

changed-union_elements :
    (xs ys : List Element) → ((union_elements xs ys).1 ≡ false) ↔ ((union_elements xs ys).0 ≡ xs)
unfolding union_elements
changed-union_elements [] [] = (λ _. refl, λ _. refl)
changed-union_elements (x ∷ xs) [] = (λ _. refl, λ _. refl)
changed-union_elements [] (y ∷ ys) = (λ h. cc, λ h. cc)
changed-union_elements (x ∷ xs) (y ∷ ys) = elim (compare-cases x.index y.index) [
  | inl (e, lt) ↦
      rw (e, union_elements) (let ih = changed-union_elements xs (y ∷ ys) in ground arith)
  | inr (inl (e, eq)) ↦
      rw (e, union_elements)
        (let ih = changed-union_elements xs ys in ground (arith, union_with-changed x y))
  | inr (inr (e, gt)) ↦ rw (e, union_elements) (λ h. cc, λ h. absurd (ground arith))
]

-- `|=` returns false exactly if the elements are the same as before.
pub union-changed : (a b : Bitmap) → ((union a b).1 ≡ false) ↔ ((union a b).0.elements ≡ a.elements)
unfolding union
union-changed a b = elim (Bool-cases (empty b)) [
  | inl none ↦ rw none (λ _. refl, λ _. refl)
  | inr filled ↦ rw filled (changed-union_elements a.elements b.elements)
]

-- A new vector has no bit.
pub new-member : Stands Vector.new (λ m. false)
new-member = record {
  ok = record { chain = tt; pointer = omega arith };
  decides = λ m. unfold holds in refl;
}

-- The copy of a well-formed vector, and what is assigned from it, are well-formed and stand for its
-- set.
pub copy-member :
    (a b : Bitmap)
    → IsBitmap b
    → Stands (Vector.copy b) (member b) × Stands (Vector.assign a b) (member b)
copy-member a b ok = (
  record { ok = record { chain = ok.chain; pointer = omega arith }; decides = λ m. refl },
  record { ok = record { chain = ok.chain; pointer = omega arith }; decides = λ m. refl },
)
