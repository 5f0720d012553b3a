-- ===== src/Bitmap/Search.antt =====
-- The search of include/bitmap.h from the element that was used last, forwards or backwards.
use ptranalysis.Common.{
  ℕ, zero, suc, ◌+◌, ◌-◌, ◌/◌, ◌%◌, ◌≤◌, ◌<◌, ◌≡◌, refl, sym, ◌&&◌, List, [], ◌∷◌, arith, ltb, ◌==◌,
  if◌then◌else◌, length, Bool-cases, inl, inr, dec_lt, ℕ_discrete,
}
use ptranalysis.Bitmap.Element.{Element, element_size}
use ptranalysis.Bitmap.Words.{has_bit}
use ptranalysis.Bitmap.Vector.{
  Bitmap, element_at, index_at, search_back, search_on, find_lower_bound, empty, found,
}
use ptranalysis.Bitmap.Chain.{holds, Chain}
use ptranalysis.Bitmap.Places.{Chain-lt, holds_nowhere, holds_there}

pub record IsBitmap (b : Bitmap) : Type 0 where
  pub chain : Chain 0 b.elements
  pub pointer : b.curr ≤ length b.elements

-- A position that splits the indices at `idx`; the element there may be on either side.
pub record Located (es : List Element) (idx i : ℕ) : Type 0 where
  pub in_range : i ≤ length es
  pub before : (j : ℕ) → j < i → index_at es j < idx
  pub after : (j : ℕ) → i < j → j < length es → idx < index_at es j

module _ (es : List Element) (c : Chain 0 es) (idx : ℕ) where
  back-Located :
      (i : ℕ)
      → i < length es
      → ((j : ℕ) → i < j → j < length es → idx < index_at es j)
      → Located es idx (search_back es idx i)
  unfolding search_back
  back-Located zero h above = record {
    in_range = omega arith;
    before = λ j p. absurd (omega arith);
    after = above;
  }
  back-Located (suc i) h above = elim (Bool-cases (ltb idx (index_at es (suc i)))) [
    | inl greater ↦ rw greater (
        back-Located i (omega arith) (λ j p q. elim (ℕ_discrete j (suc i)) [
          | yes e ↦ rw e (ground arith)
          | no n ↦ above j (omega arith) q
        ]))
    | inr stop ↦ rw stop (record {
      in_range = omega arith;
      before = λ j p. ground (arith, Chain-lt 0 es j (suc i) c);
      after = above;
    })
  ]

  on-Located :
      (left i : ℕ)
      → left + i ≡ length es
      → ((j : ℕ) → j < i → index_at es j < idx)
      → Located es idx (search_on es idx left i)
  unfolding search_on
  on-Located zero i h below = record {
    in_range = omega arith;
    before = below;
    after = λ j p q. absurd (omega arith);
  }
  on-Located (suc left) i h below = elim (Bool-cases (ltb (index_at es i) idx)) [
    | inl less ↦ rw less (
        on-Located left (suc i) (omega arith) (λ j p. elim (ℕ_discrete j i) [
          | yes e ↦ rw e (ground arith)
          | no n ↦ below j (omega arith)
        ]))
    | inr stop ↦ rw stop (record {
      in_range = omega arith;
      before = below;
      after = λ j p q. ground (arith, Chain-lt 0 es i j c);
    })
  ]

  here-Located : (i : ℕ) → i < length es → index_at es i ≡ idx → Located es idx i
  here-Located i h e = record {
    in_range = omega arith;
    before = λ j p. omega (arith, Chain-lt 0 es j i c p h);
    after = λ j p q. omega (arith, Chain-lt 0 es i j c p q);
  }

-- In a well-formed vector, from wherever the pointer stands, the search ends at a position that splits
-- the indices, moves the pointer there, and changes nothing else.
pub find_lower_bound_lem :
    (b : Bitmap) (idx : ℕ)
    → IsBitmap b
    → ((find_lower_bound b idx).0 ≡ record b { curr = (find_lower_bound b idx).1 })
      × Located b.elements idx (find_lower_bound b idx).1
unfolding find_lower_bound empty
find_lower_bound_lem b idx ok = go b.elements b.curr ok.chain ok.pointer
  where
    at_start :
        (x : Element) (xs : List Element) (c : ℕ)
        → Chain 0 (x ∷ xs)
        → c < suc (length xs)
        → Located (x ∷ xs) idx (
            if index_at (x ∷ xs) c == idx
            then c
            else if ltb idx (index_at (x ∷ xs) c)
            then search_back (x ∷ xs) idx c
            else search_on (x ∷ xs) idx (suc (length xs) - c) c)
    at_start x xs c ch h = elim (Bool-cases (index_at (x ∷ xs) c == idx)) [
      | inl same ↦ rw same (here-Located (x ∷ xs) ch idx c h (ground arith))
      | inr other ↦ elim (Bool-cases (ltb idx (index_at (x ∷ xs) c))) [
        | inl back ↦
            rw (other, back)
              (back-Located (x ∷ xs) ch idx c h
                (λ j p q. ground (arith, Chain-lt 0 (x ∷ xs) c j ch)))
        | inr on ↦
            rw (other, on)
              (on-Located (x ∷ xs) ch idx (suc (length xs) - c) c (omega arith)
                (λ j p. ground (arith, Chain-lt 0 (x ∷ xs) j c ch)))
      ]
    ]

    go :
        (es : List Element) (c : ℕ)
        → Chain 0 es
        → c ≤ length es
        → ((find_lower_bound (record { elements = es; curr = c }) idx).0 ≡ record {
          elements = es;
          curr = (find_lower_bound (record { elements = es; curr = c }) idx).1;
        })
          × Located es idx (find_lower_bound (record { elements = es; curr = c }) idx).1
    go [] c ch h = (
      refl,
      record {
        in_range = omega arith;
        before = λ j p. absurd (omega arith);
        after = λ j p q. absurd (omega arith);
      },
    )
    go (x ∷ xs) c ch h =
        (refl, at_start x xs (if c == suc (length xs) then c - 1 else c) ch (ground arith))

-- Membership is decided at the position that the search found.
pub holds-found :
    (es : List Element) (n i : ℕ)
    → Chain 0 es
    → Located es (n / element_size) i
    → holds es n
      ≡ found es i (n / element_size) && has_bit (element_at es i).bits (n % element_size)
holds-found es n i c at = elim (Bool-cases (found es i (n / element_size))) [
  | inl there ↦ rw there (holds_there 0 es i n c (ground (arith, at.in_range)) (ground arith))
  | inr missing ↦ rw missing (
      holds_nowhere es n (λ j p. elim (dec_lt j i) [
        | yes lt ↦ omega (arith, at.before j lt)
        | no ge ↦ elim (ℕ_discrete i j) [
          | yes e ↦ rw (sym e) (ground (arith, missing))
          | no n ↦ omega (arith, at.after j (omega arith) p)
        ]
      ]))
]
