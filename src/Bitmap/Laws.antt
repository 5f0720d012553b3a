-- ===== src/Bitmap/Laws.antt =====
-- The operations of include/bitmap.h against the set of bits that a vector stands for.
use ptranalysis.Common.{
  ℕ, ◌/◌, ◌%◌, ◌≤◌, ◌<◌, ◌≡◌, refl, sym, ap, ◌∙◌, Bool, true, false, ◌&&◌, ◌||◌, List, [], ◌∷◌,
  arith, ◌==◌, if◌then◌else◌, length, Bool-cases, inl, inr, ℕ_discrete, subst,
}
use ptranalysis.Bitmap.Element
use ptranalysis.Bitmap.Element.{Element, element_size}
use ptranalysis.Bitmap.Words.{has_bit, IsElement, test_lem, set_bit-has, set_bit-IsElement}
use ptranalysis.Bitmap.Vector.{
  Bitmap, element_at, index_at, find_lower_bound, empty, found, test, set, ensure_element,
  insert_position, insert_at, replace_at,
}
use ptranalysis.Bitmap.Chain.{holds, Chain, empty_no_bit}
use ptranalysis.Bitmap.Places.{
  element-IsElement, holds_there, holds-replace, Chain-replace, holds-insert, Chain-insert,
  length-replace, length-insert, element_inserted, replace-insert,
}
use ptranalysis.Bitmap.Search.{IsBitmap, Located, find_lower_bound_lem, holds-found}

-- The set that a vector stands for.
abbrev pub member : Bitmap → ℕ → Bool
member b n = holds b.elements n

pub empty-member : (b : Bitmap) (n : ℕ) → empty b ≡ true → member b n ≡ false
unfolding empty holds
empty-member b n h = go b.elements h
  where
    go :
        (es : List Element) → empty (record { elements = es; curr = 0 }) ≡ true → holds es n ≡ false
    go [] e = refl
    go (x ∷ xs) e = cc

-- The vector after a search.
module _ (b : Bitmap) (n : ℕ) (ok : IsBitmap b) where
  abbrev pub i : ℕ
  i = (find_lower_bound b (n / element_size)).1

  abbrev pub moved : Bitmap
  moved = record b { curr = i }

  pub at : Located b.elements (n / element_size) i
  at = (find_lower_bound_lem b (n / element_size) ok).1

  pub moved-IsBitmap : IsBitmap moved
  moved-IsBitmap = record { chain = ok.chain; pointer = at.in_range }

  -- `test` as a decision on the position that the search found.
  test-found : test b n ≡ (
      if empty b
      then (b, false)
      else if found b.elements i (n / element_size)
      then (moved, Element.test (element_at b.elements i) (n % element_size))
      else (moved, false))
  test-found = unfold test in rw (find_lower_bound_lem b (n / element_size) ok).0 refl

-- On a well-formed vector `test` tells whether the bit is in the set; it keeps the elements, and the
-- vector well-formed.
pub test-member :
    (b : Bitmap) (n : ℕ)
    → IsBitmap b
    → ((test b n).1 ≡ member b n) × ((test b n).0.elements ≡ b.elements) × IsBitmap (test b n).0
test-member b n ok = rw (test-found b n ok) (elim (Bool-cases (empty b)) [
  | inl none ↦ rw none (sym (empty-member b n none), refl, ok)
  | inr filled ↦ rw filled (elim (Bool-cases (found b.elements (i b n ok) (n / element_size))) [
    | inl there ↦ rw there (
      test_lem (element_at b.elements (i b n ok)) (n % element_size) ∙ sym (decided true there),
      refl,
      moved-IsBitmap b n ok,
    )
    | inr missing ↦ rw missing (sym (decided false missing), refl, moved-IsBitmap b n ok)
  ])
])
  where
    decided :
        (t : Bool)
        → found b.elements (i b n ok) (n / element_size) ≡ t
        → member b n ≡ t && has_bit (element_at b.elements (i b n ok)).bits (n % element_size)
    decided t e = rw (← e) (holds-found b.elements n (i b n ok) ok.chain (at b n ok))

-- What an operation promises: a well-formed vector for the set that `p` decides.
pub record Stands (b : Bitmap) (p : ℕ → Bool) : Type 0 where
  pub ok : IsBitmap b
  pub decides : (m : ℕ) → member b m ≡ p m

pub set_bit-filled :
    (e : Element) (k : ℕ) → IsElement e → k < 128 → Element.empty (Element.set_bit e k) ≡ false
set_bit-filled e k x h = elim (Bool-cases (Element.empty (Element.set_bit e k))) [
  | inl none ↦ absurd (
      ground (
        arith,
        set_bit-has e k k x h,
        empty_no_bit (Element.set_bit e k) k (set_bit-IsElement e k x) none,
      ))
  | inr filled ↦ filled
]

set_bit-index : (e : Element) (k : ℕ) → (Element.set_bit e k).index ≡ e.index
set_bit-index e k = unfold Element.set_bit in refl

new-IsElement : (idx : ℕ) → IsElement (Element.new idx)
new-IsElement idx = record { four = refl; fits = omega arith }

new-has : (idx k : ℕ) → has_bit (Element.new idx).bits k ≡ false
new-has idx k = empty_no_bit (Element.new idx) k (new-IsElement idx) (unfold Element.empty in refl)

-- A bit set in an element that is there.
set_there :
    (es : List Element) (n i : ℕ)
    → Chain 0 es
    → i < length es
    → index_at es i ≡ n / element_size
    → Stands
        (record {
          elements = replace_at es i (Element.set_bit (element_at es i) (n % element_size));
          curr = i;
        })
        (λ m. (m == n) || holds es m)
set_there es n i c h e =
    let x = (element-IsElement 0 es i c h).0 in
    let f = Element.set_bit (element_at es i) (n % element_size) in
    let same = set_bit-index (element_at es i) (n % element_size) in
    record {
      ok = record {
        chain =
            Chain-replace f 0 es i c h same
              (set_bit-IsElement (element_at es i) (n % element_size) x)
              (set_bit-filled (element_at es i) (n % element_size) x (omega arith));
        pointer = omega (arith, length-replace f es i);
      };
      decides = λ m. ground (
        arith,
        holds-replace f 0 es i m c h same,
        set_bit-has (element_at es i) (n % element_size) (m % element_size) x,
        λ (p : index_at es i ≡ m / element_size). holds_there 0 es i m c h p,
      );
    }

-- A bit set in an element that is put in its place.
set_new :
    (es : List Element) (n j : ℕ)
    → Chain 0 es
    → j ≤ length es
    → ((k : ℕ) → k < j → k < length es → index_at es k < n / element_size)
    → ((k : ℕ) → j ≤ k → k < length es → n / element_size < index_at es k)
    → Stands
        (record {
          elements =
              insert_at es j (Element.set_bit (Element.new (n / element_size)) (n % element_size));
          curr = j;
        })
        (λ m. (m == n) || holds es m)
set_new es n j c h before after =
    let x = new-IsElement (n / element_size) in
    let e = Element.new (n / element_size) in
    let f = Element.set_bit e (n % element_size) in
    let same : f.index ≡ n / element_size = set_bit-index e (n % element_size) in
    record {
      ok = record {
        chain =
            Chain-insert f 0 es j c (omega arith) (λ k p q. omega (arith, before k p q))
              (λ k p q. omega (arith, after k p q)) (set_bit-IsElement e (n % element_size) x)
              (set_bit-filled e (n % element_size) x (omega arith));
        pointer = omega (arith, length-insert f es j);
      };
      decides = λ m. ground (
        arith,
        holds-insert f es j m,
        same,
        set_bit-has e (n % element_size) (m % element_size) x,
        new-has (n / element_size) (m % element_size),
      );
    }

module _ (b : Bitmap) (n : ℕ) (ok : IsBitmap b) where
  pub moved_eq : find_lower_bound b (n / element_size) ≡ (moved b n ok, i b n ok)
  moved_eq = ap (λ (t : Bitmap). (t, i b n ok)) (find_lower_bound_lem b (n / element_size) ok).0

  pub found_place :
      found b.elements (i b n ok) (n / element_size) ≡ true
      → (i b n ok < length b.elements) × (index_at b.elements (i b n ok) ≡ n / element_size)
  found_place h = ground (arith, (at b n ok).in_range)

  -- The position of `set` for a new element.
  abbrev j : ℕ
  j = insert_position b.elements (i b n ok) (n / element_size)

  j_place :
      found b.elements (i b n ok) (n / element_size) ≡ false
      → (j ≤ length b.elements)
        × ((k : ℕ) → k < j → k < length b.elements → index_at b.elements k < n / element_size)
        × ((k : ℕ) → j ≤ k → k < length b.elements → n / element_size < index_at b.elements k)
  j_place h = (
    ground (arith, (at b n ok).in_range),
    λ k p q. elim (ℕ_discrete k (i b n ok)) [
      | yes e ↦ ground (arith, e)
      | no ne ↦ (at b n ok).before k (ground arith)
    ],
    λ k p q. elim (ℕ_discrete k (i b n ok)) [
      | yes e ↦ ground (arith, e)
      | no ne ↦ (at b n ok).after k (ground arith) q
    ],
  )

-- `set` once the element is there.
abbrev set_in : ℕ → List Element × ℕ → Bitmap
set_in n r = record {
  elements = replace_at r.0 r.1 (Element.set_bit (element_at r.0 r.1) (n % element_size));
  curr = r.1;
}

set_of :
    (b : Bitmap) (n : ℕ) (r : List Element × ℕ) (p : ℕ → Bool)
    → ensure_element b (n / element_size) ≡ r
    → Stands (set_in n r) p
    → Stands (set b n) p
set_of b n r p e s =
    subst (λ (t : Bitmap). Stands t p)
      (let q : set_in n r ≡ set b n = unfold set in ap (set_in n) (sym e) in q) s

set-empty : (b : Bitmap) (n : ℕ) → empty b ≡ true → Stands (set b n) (λ m. (m == n) || member b m)
set-empty b n e =
    let s =
      set_new [] n 0 tt (omega arith) (λ k p q. absurd (omega arith))
        (λ k p q. absurd (omega arith)) in
    set_of b n (Element.new (n / element_size) ∷ [], 0) _ (unfold ensure_element in rw e)
      (record {
        ok = unfold insert_at replace_at in s.ok;
        decides = λ m.
            unfold insert_at replace_at in
            s.decides m
            ∙ ap (λ (t : Bool). (m == n) || t) (none_there m ∙ sym (empty-member b m e));
      })
  where
    none_there : (m : ℕ) → holds [] m ≡ false
    none_there m = unfold holds in refl

module _ (b : Bitmap) (n : ℕ) (ok : IsBitmap b) (e : empty b ≡ false) where
  set-found :
      found b.elements (i b n ok) (n / element_size) ≡ true
      → Stands (set b n) (λ m. (m == n) || member b m)
  set-found h =
      let (p, q) = found_place b n ok h in
      set_of b n (b.elements, i b n ok) _ (unfold ensure_element in rw (e, moved_eq b n ok, h))
        (set_there b.elements n (i b n ok) ok.chain p q)

  set_missing :
      found b.elements (i b n ok) (n / element_size) ≡ false
      → Stands (set b n) (λ m. (m == n) || member b m)
  set_missing h =
      let (p, before, after) = j_place b n ok h in
      let es = insert_at b.elements (j b n ok) (Element.new (n / element_size)) in
      let inserted = element_inserted (Element.new (n / element_size)) b.elements (j b n ok) p in
      set_of b n (es, j b n ok) _ (unfold ensure_element in rw (e, moved_eq b n ok, h))
        (subst
          (λ (t : List Element).
            Stands (record { elements = t; curr = j b n ok }) (λ m. (m == n) || member b m))
          (sym (
            ap (λ (x : Element). replace_at es (j b n ok) (Element.set_bit x (n % element_size)))
              inserted
            ∙ replace-insert _ b.elements (j b n ok) _ p))
          (set_new b.elements n (j b n ok) ok.chain p before after))

-- `set` of a well-formed vector leaves a well-formed one with the bit, and with every other
-- bit as it was.
pub set-member : (b : Bitmap) (n : ℕ) → IsBitmap b → Stands (set b n) (λ m. (m == n) || member b m)
set-member b n ok = elim (Bool-cases (empty b)) [
  | inl none ↦ set-empty b n none
  | inr filled ↦ elim (Bool-cases (found b.elements (i b n ok) (n / element_size))) [
    | inl there ↦ set-found b n ok filled there
    | inr missing ↦ set_missing b n ok filled missing
  ]
]
