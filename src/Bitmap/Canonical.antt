-- ===== src/Bitmap/Canonical.antt =====
-- `operator==` of include/bitmap.h: a set of bits has one list of elements.
use ptranalysis.Common.{
  ℕ, suc, ◌+◌, ◌*◌, ◌/◌, ◌%◌, ◌≤◌, ◌<◌, ◌≡◌, ◌↔◌, refl, sym, ap, ◌∙◌, true, false, List, [], ◌∷◌,
  arith, length, inl, inr, dec_lt, compare-cases, get_or_outside,
}
use ptranalysis.Common.Bits.{has, has-zero, eq_of_has, has_above}
use ptranalysis.Bitmap.Element
use ptranalysis.Bitmap.Element.{Element, element_size, word, equal_words}
use ptranalysis.Bitmap.Words.{has_bit, IsElement, word-lt, equal_words_refl, equal_words_eq}
use ptranalysis.Bitmap.Merge.{empty-has}
use ptranalysis.Bitmap.Vector.{Bitmap, equal_elements, equal}
use ptranalysis.Bitmap.Chain.{holds, Chain, holds_below}
use ptranalysis.Bitmap.Search.{IsBitmap}
use ptranalysis.Bitmap.Laws.{member}

equal_iff : (a b : Element) → (Element.equal a b ≡ true) ↔ (a ≡ b)
unfolding Element.equal
equal_iff a b = (
  λ h. let w = equal_words_eq a.bits b.bits in ground arith,
  λ h. ground (arith, equal_words_refl a.bits, h),
)

pub equal_elements_iff : (xs ys : List Element) → (equal_elements xs ys ≡ true) ↔ (xs ≡ ys)
unfolding equal_elements
equal_elements_iff [] [] = (λ _. refl, λ _. refl)
equal_elements_iff [] (y ∷ ys) = (λ h. cc, λ h. cc)
equal_elements_iff (x ∷ xs) [] = (λ h. cc, λ h. cc)
equal_elements_iff (x ∷ xs) (y ∷ ys) = ground (arith, equal_iff x y, equal_elements_iff xs ys)

-- Bits from 128 on are in no element.
pub has_bit_outside : (e : Element) (j : ℕ) → IsElement e → 128 ≤ j → has_bit e.bits j ≡ false
has_bit_outside e j x h =
    rw (get_or_outside e.bits (j / 32) 0 (omega (arith, x.four))) (has-zero (j % 32))

words_eq : (xs ys : List ℕ) → length xs ≡ length ys → ((i : ℕ) → word xs i ≡ word ys i) → xs ≡ ys
words_eq [] [] h all = refl
words_eq [] (y ∷ ys) h all = absurd (omega arith)
words_eq (x ∷ xs) [] h all = absurd (omega arith)
words_eq (x ∷ xs) (y ∷ ys) h all =
    let rest = words_eq xs ys (omega arith) (λ i. all (suc i)) in ground (arith, all 0)

-- Elements with the same bits have the same words.
bits_eq :
    (a b : Element)
    → IsElement a
    → IsElement b
    → ((j : ℕ) → j < 128 → has_bit a.bits j ≡ has_bit b.bits j)
    → a.bits ≡ b.bits
bits_eq a b x y same =
    words_eq a.bits b.bits (x.four ∙ sym y.four)
      (λ i. eq_of_has (word a.bits i) (word b.bits i) (digit i))
  where
    every : (j : ℕ) → has_bit a.bits j ≡ has_bit b.bits j
    every j = elim (dec_lt j 128) [
      | yes lt ↦ same j lt
      | no ge ↦ has_bit_outside a j x (omega arith) ∙ sym (has_bit_outside b j y (omega arith))
    ]

    digit : (i k : ℕ) → has (word a.bits i) k ≡ has (word b.bits i) k
    digit i k = elim (dec_lt k 32) [
      | yes lt ↦
          let q : (i * 32 + k) / 32 ≡ i = omega arith in
          let r : (i * 32 + k) % 32 ≡ k = omega arith in rw (q, r) at (every (i * 32 + k))
      | no ge ↦
          has_above 32 (word a.bits i) k (word-lt a.bits i x.fits) (omega arith)
          ∙ sym (has_above 32 (word b.bits i) k (word-lt b.bits i y.fits) (omega arith))
    ]

-- The first element of a chain is not missing from a set that starts above it.
first_bit :
    (x : Element) (xs ys : List Element) (lo : ℕ)
    → Chain lo (x ∷ xs)
    → Chain (suc x.index) ys
    → ¬ ((n : ℕ) → holds (x ∷ xs) n ≡ holds ys n)
unfolding holds
first_bit x xs ys lo c d same = absurd (cc ((empty-has x c.1).1 none, c.2))
  where
    none : (j : ℕ) → has_bit x.bits j ≡ false
    none j = elim (dec_lt j 128) [
      | yes lt ↦
          let q : (x.index * 128 + j) / 128 ≡ x.index = omega arith in
          let r : (x.index * 128 + j) % 128 ≡ j = omega arith in
          let e : holds (x ∷ xs) (x.index * 128 + j) ≡ holds ys (x.index * 128 + j) =
            same (x.index * 128 + j) in
          ground (
            arith,
            q,
            e,
            ap (λ (k : ℕ). has_bit x.bits k) r,
            holds_below (suc x.index) ys (x.index * 128 + j) d,
          )
      | no ge ↦ has_bit_outside x j c.1 (omega arith)
    ]

module _ (x y : Element) (xs ys : List Element) (eq : x.index ≡ y.index)
    (c : Chain (suc x.index) xs) (d : Chain (suc y.index) ys)
    (same : (n : ℕ) → holds (x ∷ xs) n ≡ holds (y ∷ ys) n) where
  head_bits : (j : ℕ) → j < 128 → has_bit x.bits j ≡ has_bit y.bits j
  unfolding holds
  head_bits j lt =
      let n : ℕ = x.index * 128 + j in
      let q : n / 128 ≡ x.index = omega arith in
      let r : n % 128 ≡ j = omega arith in
      let e : holds (x ∷ xs) n ≡ holds (y ∷ ys) n = same n in
      let f : holds xs n ≡ false = holds_below (suc x.index) xs n c (omega arith) in
      let g : holds ys n ≡ false = holds_below (suc y.index) ys n d (omega arith) in
      let u : has_bit x.bits (n % 128) ≡ has_bit x.bits j = ap (λ (k : ℕ). has_bit x.bits k) r in
      let v : has_bit y.bits (n % 128) ≡ has_bit y.bits j = ap (λ (k : ℕ). has_bit y.bits k) r in
      ground arith

  tail_same : (n : ℕ) → holds xs n ≡ holds ys n
  unfolding holds
  tail_same n = elim (dec_lt x.index (n / 128)) [
    | yes above ↦ ground (arith, same n)
    | no below ↦
        holds_below (suc x.index) xs n c (omega arith)
        ∙ sym (holds_below (suc y.index) ys n d (omega arith))
  ]

Chain-unique :
    (xs ys : List Element) (lo : ℕ)
    → Chain lo xs
    → Chain lo ys
    → ((n : ℕ) → holds xs n ≡ holds ys n)
    → xs ≡ ys
Chain-unique [] [] lo c d same = refl
Chain-unique [] (y ∷ ys) lo c d same = absurd (first_bit y ys [] lo d tt (λ n. sym (same n)))
Chain-unique (x ∷ xs) [] lo c d same = absurd (first_bit x xs [] lo c tt same)
Chain-unique (x ∷ xs) (y ∷ ys) lo c d same = elim (compare-cases x.index y.index) [
  | inl (_, lt) ↦ absurd (first_bit x xs (y ∷ ys) lo c (lt, d.1, d.2, d.3) same)
  | inr (inl (_, eq)) ↦
      let heads : x.bits ≡ y.bits = bits_eq x y c.1 d.1 (head_bits x y xs ys eq c.3 d.3 same) in
      let tails : xs ≡ ys =
        Chain-unique xs ys (suc x.index) c.3 (rw eq d.3) (tail_same x y xs ys eq c.3 d.3 same) in
      ground (arith, eq, heads, tails)
  | inr (inr (_, gt)) ↦
      absurd (first_bit y ys (x ∷ xs) lo d (gt, c.1, c.2, c.3) (λ n. sym (same n)))
]

-- Two well-formed vectors compare equal exactly if they stand for the same set.
pub equal-member :
    (a b : Bitmap)
    → IsBitmap a
    → IsBitmap b
    → (equal a b ≡ true) ↔ ((n : ℕ) → member a n ≡ member b n)
unfolding equal
equal-member a b p q = (
  λ h n. ap (λ (es : List Element). holds es n) ((equal_elements_iff a.elements b.elements).0 h),
  λ same.
      (equal_elements_iff a.elements b.elements).1
        (Chain-unique a.elements b.elements 0 p.chain q.chain same),
)
