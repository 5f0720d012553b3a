-- ===== src/Bitmap/Iterate.antt =====
-- The walk of the iterator of include/bitmap.h over a whole bit vector.
use ptranalysis.Common.{
  ℕ, zero, suc, ◌+◌, ◌*◌, ◌/◌, ◌%◌, ◌≤◌, ◌<◌, ◌≡◌, refl, ap, true, false, Option, some, List, [],
  ◌∷◌, arith, length, ℕ_discrete, dec_lt, ◌∙◌, sym, Bool-cases, inl, inr,
}
use ptranalysis.Common.IdSet.{contains, Above, IsIncreasing, Above-lt}
use ptranalysis.Bitmap.Element.{Element}
use ptranalysis.Bitmap.Words.{has_bit}
use ptranalysis.Bitmap.Vector.{Bitmap, element_at, index_at, empty}
use ptranalysis.Bitmap.Chain.{Chain, holds}
use ptranalysis.Bitmap.Places.{Chain-lt, holds_there}
use ptranalysis.Bitmap.Search.{IsBitmap}
use ptranalysis.Bitmap.Laws.{member, empty-member}
use ptranalysis.Bitmap.Iterator.{Builtins, Iterator, begin, increment, walk, iterate}
use ptranalysis.Bitmap.Steps.{
  IsAt, Next, same_element, later_element, no_element, enter_lem, increment_lem,
}

-- A bit that no element has.
holds_none :
    (es : List Element) (m : ℕ)
    → ((i : ℕ)
        → i < length es
        → index_at es i ≡ m / 128
        → has_bit (element_at es i).bits (m % 128) ≡ false)
    → holds es m ≡ false
unfolding holds
holds_none [] m h = refl
holds_none (e ∷ es) m h =
    ground (arith, h 0 (omega arith), holds_none es m (λ i l. h (suc i) (omega arith)))

walk_end :
    (cpu : Builtins) (es : List Element) (fuel : ℕ) (it : Iterator)
    → it.at_end ≡ true
    → walk cpu es fuel it ≡ some []
unfolding walk
walk_end cpu es zero it e = rw e refl
walk_end cpu es (suc fuel) it e = rw e refl

module _ (cpu : Builtins) (es : List Element) (c : Chain 0 es) where
  -- A run of the iterator from the bit `n` on.
  record Lists (n : ℕ) (result : Option (List ℕ)) : Type 0 where
    rest : List ℕ
    lists : result ≡ some (n ∷ rest)
    above : Above n rest
    decides : (m : ℕ) → n < m → contains m rest ≡ holds es m

  abbrev at : ℕ → ℕ → ℕ
  at pos k = index_at es pos * 128 + k

  -- The bits between two neighbours in one element.
  gap_inside :
      (pos k j : ℕ)
      → pos < length es
      → k < 128
      → j < 128
      → ((i : ℕ) → k < i → i < j → has_bit (element_at es pos).bits i ≡ false)
      → (m : ℕ) → at pos k < m
      → m < at pos j
      → holds es m ≡ false
  gap_inside pos k j p u v z m l h =
      holds_there 0 es pos m c p (omega arith) ∙ z (m % 128) (omega arith) (omega arith)

  -- The bits behind the last of an element, up to the first of the next.
  gap_behind :
      (pos k j : ℕ)
      → suc pos < length es
      → k < 128
      → j < 128
      → ((i : ℕ) → k < i → has_bit (element_at es pos).bits i ≡ false)
      → ((i : ℕ) → i < j → has_bit (element_at es (suc pos)).bits i ≡ false)
      → (m : ℕ) → at pos k < m
      → m < at (suc pos) j
      → holds es m ≡ false
  gap_behind pos k j p u v z y m l h = holds_none es m (λ i q e. elim (ℕ_discrete i pos) [
    | yes here ↦ rw here (z (m % 128) (omega (arith, ap (index_at es) here)))
    | no here ↦ elim (ℕ_discrete i (suc pos)) [
      | yes next ↦ rw next (y (m % 128) (omega (arith, ap (index_at es) next)))
      | no next ↦ elim (dec_lt i pos) [
        | yes before ↦ absurd (omega (arith, Chain-lt 0 es i pos c before (omega arith)))
        | no other ↦ absurd (omega (arith, Chain-lt 0 es (suc pos) i c (omega arith) q))
      ]
    ]
  ])

  gap_end :
      (pos k : ℕ)
      → suc pos ≡ length es
      → k < 128
      → ((i : ℕ) → k < i → has_bit (element_at es pos).bits i ≡ false)
      → (m : ℕ) → at pos k < m
      → holds es m ≡ false
  gap_end pos k p u z m l = holds_none es m (λ i q e. elim (ℕ_discrete i pos) [
    | yes here ↦ rw here (z (m % 128) (omega (arith, ap (index_at es) here)))
    | no other ↦ absurd (omega (arith, Chain-lt 0 es i pos c (omega arith) (omega arith)))
  ])

  -- The bits before the first one of the vector.
  gap_begin :
      (k : ℕ)
      → 0 < length es
      → k < 128
      → ((i : ℕ) → i < k → has_bit (element_at es 0).bits i ≡ false)
      → (m : ℕ) → m < at 0 k
      → holds es m ≡ false
  gap_begin k p u z m l = holds_none es m (λ i q e. elim (ℕ_discrete i 0) [
    | yes here ↦ rw here (z (m % 128) (omega (arith, ap (index_at es) here)))
    | no other ↦ absurd (omega (arith, Chain-lt 0 es 0 i c (omega arith) q))
  ])

  has_number :
      (pos k : ℕ)
      → pos < length es
      → k < 128
      → has_bit (element_at es pos).bits k ≡ true
      → holds es (at pos k) ≡ true
  has_number pos k p u one =
      let r : (index_at es pos * 128 + k) % 128 ≡ k = omega arith in
      holds_there 0 es pos (at pos k) c p (omega arith) ∙ rw r one

  -- One more value in front of a run.
  more :
      (n n' : ℕ) (rest : List ℕ)
      → n < n'
      → Above n' rest
      → holds es n' ≡ true
      → ((m : ℕ) → n < m → m < n' → holds es m ≡ false)
      → ((m : ℕ) → n' < m → contains m rest ≡ holds es m)
      → (m : ℕ) → n < m
      → contains m (n' ∷ rest) ≡ holds es m
  more n n' rest l a one gap d m h = elim (ℕ_discrete m n') [
    | yes e ↦ rw e (ground (arith, one))
    | no other ↦ ground (arith, gap m h, d m, Above-lt n' m rest a)
  ]

  walk_lem :
      (fuel : ℕ) (it : Iterator) (pos k : ℕ)
      → IsAt es it pos k
      → length es * 128 ≤ fuel + (pos * 128 + k)
      → Lists (at pos k) (walk cpu es fuel it)
  unfolding walk
  walk_lem zero it pos k a h = absurd (omega (arith, a.in_list, a.in_element))
  walk_lem (suc fuel) it pos k a h =
      go (increment_lem cpu es c it pos k a) (λ next p j b. walk_lem fuel next p j b)
    where
      step :
          {next : Iterator} {n' : ℕ}
          → increment cpu es it ≡ some next
          → at pos k < n'
          → holds es n' ≡ true
          → ((m : ℕ) → at pos k < m → m < n' → holds es m ≡ false)
          → Lists n' (walk cpu es fuel next)
          → Lists (at pos k) (walk cpu es (suc fuel) it)
      step {next} {n'} e l one gap r = record {
        rest = n' ∷ r.rest;
        lists = rw (walk, e, r.lists, a.running, a.number) refl;
        above = (l, r.above);
        decides = more (at pos k) _ r.rest l r.above one gap r.decides;
      }

      go :
          Next cpu es c pos k (increment cpu es it)
          → ((next : Iterator) (p j : ℕ)
              → IsAt es next p j
              → length es * 128 ≤ fuel + (p * 128 + j)
              → Lists (at p j) (walk cpu es fuel next))
          → Lists (at pos k) (walk cpu es (suc fuel) it)
      go (same_element next j e b l z) rec =
          step e (omega arith) (has_number pos j b.in_list b.in_element b.one)
            (gap_inside pos k j a.in_list a.in_element b.in_element z)
            (rec next pos j b (omega arith))
      go (later_element next j e b z y) rec =
          step e
            (omega (arith, Chain-lt 0 es pos (suc pos) c (omega arith) b.in_list, a.in_element))
            (has_number (suc pos) j b.in_list b.in_element b.one)
            (gap_behind pos k j b.in_list a.in_element b.in_element z y)
            (rec next (suc pos) j b (omega (arith, a.in_element)))
      go (no_element next e end last z) rec = record {
        rest = [];
        lists = rw (walk, e, walk_end cpu es fuel next end, a.running, a.number) refl;
        above = tt;
        decides = λ m l. sym (gap_end pos k last a.in_element z m l);
      }

no_empty : (b : Bitmap) → empty b ≡ false → 0 < length b.elements
unfolding empty
no_empty b h = go b.elements h
  where
    go : (es : List Element) → empty (record { elements = es; curr = 0 }) ≡ false → 0 < length es
    go [] h = cc
    go (e ∷ es) h = omega arith

-- The iterator goes through the bits of the vector in increasing order, and ends.
pub iterate_lem :
    (cpu : Builtins) (b : Bitmap)
    → IsBitmap b
    → (ns : List ℕ) × (iterate cpu b ≡ some ns)
      × IsIncreasing ns
      × ((m : ℕ) → contains m ns ≡ member b m)
unfolding iterate begin
iterate_lem cpu b ok = elim (Bool-cases (empty b)) [
  | inl none_there ↦ (
    [],
    rw (iterate, begin, none_there)
        (walk_end cpu b.elements (length b.elements * 128)
          (record { at_end = true; iter = 0; bit_number = 0; word_number = 0xffffffff; bits = 0 })
          refl),
    tt,
    λ m. sym (empty-member b m none_there),
  )
  | inr filled ↦
      let p : 0 < length b.elements = no_empty b filled in
      let (it, k, e, a, z) = enter_lem cpu b.elements ok.chain 0 p in
      let r = walk_lem cpu b.elements ok.chain (length b.elements * 128) it 0 k a (omega arith) in
      (
        at cpu b.elements ok.chain 0 k ∷ r.rest,
        rw (iterate, begin, filled, e) r.lists,
        r.above,
        λ m. elim (ℕ_discrete m (at cpu b.elements ok.chain 0 k)) [
          | yes same ↦
              rw same (ground (arith, has_number cpu b.elements ok.chain 0 k p a.in_element a.one))
          | no other ↦ ground (
            arith,
            gap_begin cpu b.elements ok.chain k p a.in_element z m,
            r.decides m,
            Above-lt (at cpu b.elements ok.chain 0 k) m r.rest r.above,
          )
        ],
      )
]
