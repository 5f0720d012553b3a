-- ===== src/Bitmap/Merge.antt =====
-- Union and intersection of two elements of include/bitmap.h, bit by bit, and their flags.
use Prim.Native.Nat.{bit_and}
use ptranalysis.Common.{
  ℕ, zero, suc, ◌+◌, ◌*◌, ◌/◌, ◌%◌, ◌≡◌, ◌↔◌, refl, sym, ap, ◌∙◌, Bool, true, false, not, ◌&&◌,
  ◌||◌, List, [], ◌∷◌, arith, length, dec_lt,
}
use ptranalysis.Common.Bits.{
  complement, has, has-bit_or, has-bit_and, has-complement, has-zero, zero_of_has, has_above,
  bit_and-le,
}
use ptranalysis.Bitmap.Element.{
  Element, word, equal_words, all_zero, empty, union_loop, union_with, mask_loop, intersect_with,
  and_not, intersect_with_complement,
}
use ptranalysis.Bitmap.Words.{
  has_bit, Fits, IsElement, word-lt, word-union, changed-union, length-union, Fits-union, word-mask,
  changed-mask, zero-mask, length-mask, Fits-mask, equal_words_refl, equal_words_eq,
}

all_zero-word : (bits : List ℕ) (i : ℕ) → all_zero bits ≡ true → word bits i ≡ 0
unfolding all_zero
all_zero-word [] i h = refl
all_zero-word (x ∷ xs) zero h = ground arith
all_zero-word (x ∷ xs) (suc i) h = ground (arith, all_zero-word xs i)

all_zero_of_words : (bits : List ℕ) → ((i : ℕ) → word bits i ≡ 0) → all_zero bits ≡ true
unfolding all_zero
all_zero_of_words [] all = refl
all_zero_of_words (x ∷ xs) all = ground (arith, all 0, all_zero_of_words xs (λ i. all (suc i)))

word_of_bits :
    (bits : List ℕ) (i : ℕ) → Fits bits → ((j : ℕ) → has_bit bits j ≡ false) → word bits i ≡ 0
word_of_bits bits i f none = zero_of_has (word bits i) digit
  where
    digit : (k : ℕ) → has (word bits i) k ≡ false
    digit k = elim (dec_lt k 32) [
      | yes lt ↦
          let q : (i * 32 + k) / 32 ≡ i = omega arith in
          let r : (i * 32 + k) % 32 ≡ k = omega arith in rw (q, r) at (none (i * 32 + k))
      | no ge ↦ has_above 32 (word bits i) k (word-lt bits i f) (omega arith)
    ]

-- An element is empty exactly if it has no bit.
pub empty-has :
    (e : Element) → IsElement e → (empty e ≡ true) ↔ ((j : ℕ) → has_bit e.bits j ≡ false)
unfolding empty
empty-has e ok = (
  λ h j. rw (all_zero-word e.bits (j / 32) h) (has-zero (j % 32)),
  λ none. all_zero_of_words e.bits (λ i. word_of_bits e.bits i ok.fits none),
)

module _ (a b : Element) (x : IsElement a) (y : IsElement b) where
  same_length : length a.bits ≡ length b.bits
  same_length = x.four ∙ sym y.four

  pub union_with-has :
      (j : ℕ) → has_bit (union_with a b).0.bits j ≡ has_bit a.bits j || has_bit b.bits j
  unfolding union_with
  union_with-has j =
      rw (word-union false a.bits b.bits (j / 32) same_length)
        (has-bit_or (word a.bits (j / 32)) (word b.bits (j / 32)) (j % 32))

  pub union_with-IsElement : IsElement (union_with a b).0
  unfolding union_with
  union_with-IsElement = record {
    four = length-union false a.bits b.bits ∙ x.four;
    fits = Fits-union false a.bits b.bits x.fits y.fits;
  }

  pub intersect_with-has :
      (j : ℕ) → has_bit (intersect_with a b).0.bits j ≡ has_bit a.bits j && has_bit b.bits j
  unfolding intersect_with
  intersect_with-has j =
      rw (word-mask bit_and false true a.bits b.bits (j / 32) same_length refl)
        (has-bit_and (word a.bits (j / 32)) (word b.bits (j / 32)) (j % 32))

  pub intersect_with-IsElement : IsElement (intersect_with a b).0
  unfolding intersect_with
  intersect_with-IsElement = record {
    four = length-mask bit_and false true a.bits b.bits ∙ x.four;
    fits = Fits-mask bit_and false true a.bits b.bits bit_and-le x.fits;
  }

  pub intersect_with-zero : (intersect_with a b).2 ≡ empty (intersect_with a b).0
  unfolding intersect_with empty
  intersect_with-zero = ground (arith, zero-mask bit_and false true a.bits b.bits same_length)

  pub complement-has :
      (j : ℕ)
      → has_bit (intersect_with_complement a b).0.bits j
        ≡ has_bit a.bits j && not (has_bit b.bits j)
  unfolding intersect_with_complement
  complement-has j = rw (word-mask and_not false true a.bits b.bits (j / 32) same_length refl) (
      has-bit_and (word a.bits (j / 32)) (complement 32 (word b.bits (j / 32))) (j % 32)
      ∙ ap (λ (t : Bool). has (word a.bits (j / 32)) (j % 32) && t)
          (has-complement 32 (word b.bits (j / 32)) (j % 32) (word-lt b.bits (j / 32) y.fits)
            (omega arith)))

  pub complement-IsElement : IsElement (intersect_with_complement a b).0
  unfolding intersect_with_complement
  complement-IsElement = record {
    four = length-mask and_not false true a.bits b.bits ∙ x.four;
    fits =
        Fits-mask and_not false true a.bits b.bits (λ m n. bit_and-le m (complement 32 n)) x.fits;
  }

  pub complement-zero : (intersect_with_complement a b).2 ≡ empty (intersect_with_complement a b).0
  unfolding intersect_with_complement empty
  complement-zero = ground (arith, zero-mask and_not false true a.bits b.bits same_length)

changed_iff :
    (a : Element) (ws : List ℕ) (c : Bool)
    → c ≡ not (equal_words a.bits ws)
    → (c ≡ false) ↔ (record a { bits = ws } ≡ a)
changed_iff a ws c e = (
  λ h.
      ap (λ (l : List ℕ). record a { bits = l })
        (sym (equal_words_eq a.bits ws (ground (arith, e)))),
  λ h.
      let w : a.bits ≡ ws = sym (ap (λ (r : Element). r.bits) h) in
      ground (arith, e, ap (λ (l : List ℕ). equal_words a.bits l) w, equal_words_refl a.bits),
)

-- The three operations report a change exactly if the element changed.
pub union_with-changed : (a b : Element) → ((union_with a b).1 ≡ false) ↔ ((union_with a b).0 ≡ a)
unfolding union_with
union_with-changed a b =
    changed_iff a (union_loop false a.bits b.bits).0 _ (changed-union false a.bits b.bits)

pub intersect_with-changed :
    (a b : Element) → ((intersect_with a b).1 ≡ false) ↔ ((intersect_with a b).0 ≡ a)
unfolding intersect_with
intersect_with-changed a b =
    changed_iff a (mask_loop bit_and false true a.bits b.bits).0 _
      (changed-mask bit_and false true a.bits b.bits)

pub complement-changed :
    (a b : Element)
    → ((intersect_with_complement a b).1 ≡ false) ↔ ((intersect_with_complement a b).0 ≡ a)
unfolding intersect_with_complement
complement-changed a b =
    changed_iff a (mask_loop and_not false true a.bits b.bits).0 _
      (changed-mask and_not false true a.bits b.bits)

-- None of them moves the element.
pub merge_index :
    (a b : Element)
    → ((union_with a b).0.index ≡ a.index)
      × ((intersect_with a b).0.index ≡ a.index)
      × ((intersect_with_complement a b).0.index ≡ a.index)
unfolding union_with intersect_with intersect_with_complement
merge_index a b = (refl, refl, refl)
