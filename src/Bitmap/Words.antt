-- ===== src/Bitmap/Words.antt =====
-- The words of an element as a set of the bits 0 to 127.
use Prim.Native.Nat.{bit_or}
use ptranalysis.Common.{
  ℕ, zero, suc, ◌/◌, ◌%◌, ◌^◌, ◌≤◌, ◌<◌, ◌≡◌, refl, sym, ap, ◌∙◌, Bool, true, false, not, ◌&&◌,
  ◌||◌, List, [], ◌∷◌, arith, ◌==◌, if◌then◌else◌, set, length, get_or-set, length-set,
}
use ptranalysis.Common.Bits.{
  one_shl, complement, has, has-bit_or, has-bit_and, has-complement, bit-one_shl, mask_test,
  one_shl-lt, bit_or-lt, bit_and-le,
}
use ptranalysis.Bitmap.Element.{
  bitword_size, Element, word, equal_words, all_zero, set_bit, reset, test, note_change, union_loop,
  mask_loop, and_not,
}

-- Bit `i` of an array of words.
abbrev pub has_bit : List ℕ → ℕ → Bool
has_bit bits i = has (word bits (i / bitword_size)) (i % bitword_size)

-- Every word fits 32 bits.
abbrev pub Fits : List ℕ → Type 0
Fits [] = Unit {0}
Fits (x ∷ xs) = (x < 2 ^ bitword_size) × Fits xs

pub record IsElement (e : Element) : Type 0 where
  pub four : length e.bits ≡ 4
  pub fits : Fits e.bits

pub word-lt : (bits : List ℕ) (i : ℕ) → Fits bits → word bits i < 2 ^ bitword_size
word-lt [] i f = omega arith
word-lt (x ∷ xs) zero f = f.0
word-lt (x ∷ xs) (suc i) f = word-lt xs i f.1

Fits-set : (bits : List ℕ) (i x : ℕ) → Fits bits → x < 2 ^ bitword_size → Fits (set bits i x)
Fits-set [] i x f h = tt
Fits-set (y ∷ ys) zero x f h = (h, f.1)
Fits-set (y ∷ ys) (suc i) x f h = (f.0, Fits-set ys i x f.1 h)

pub test_lem : (e : Element) (i : ℕ) → test e i ≡ has_bit e.bits i
unfolding test
test_lem e i = mask_test (word e.bits (i / bitword_size)) (i % bitword_size)

-- `set` adds exactly bit `i`.
pub set_bit-has :
    (e : Element) (i j : ℕ)
    → IsElement e
    → i < 128
    → has_bit (set_bit e i).bits j ≡ (j == i) || has_bit e.bits j
unfolding set_bit
set_bit-has e i j ok h = ground (
  arith,
  get_or-set e.bits (i / 32) (bit_or (word e.bits (i / 32)) (one_shl (i % 32))) (j / 32) 0,
  has-bit_or (word e.bits (i / 32)) (one_shl (i % 32)) (j % 32),
  bit-one_shl (i % 32) (j % 32),
  ok.four,
)

pub set_bit-IsElement : (e : Element) (i : ℕ) → IsElement e → IsElement (set_bit e i)
unfolding set_bit
set_bit-IsElement e i ok = record {
  four = length-set e.bits (i / 32) _ ∙ ok.four;
  fits =
      Fits-set e.bits (i / 32) _ ok.fits
        (bit_or-lt _ _ 32 (word-lt e.bits (i / 32) ok.fits) (one_shl-lt (i % 32) 32 (omega arith)));
}

-- `reset` removes exactly bit `i`.
pub reset-has :
    (e : Element) (i j : ℕ)
    → IsElement e
    → i < 128
    → has_bit (reset e i).bits j ≡ not (j == i) && has_bit e.bits j
unfolding reset
reset-has e i j ok h = ground (
  arith,
  get_or-set e.bits (i / 32) (and_not (word e.bits (i / 32)) (one_shl (i % 32))) (j / 32) 0,
  has-bit_and (word e.bits (i / 32)) (complement 32 (one_shl (i % 32))) (j % 32),
  bit-one_shl (i % 32) (j % 32),
  has-complement 32 (one_shl (i % 32)) (j % 32) (one_shl-lt (i % 32) 32 (omega arith))
      (omega arith),
  ok.four,
)

pub reset-IsElement : (e : Element) (i : ℕ) → IsElement e → IsElement (reset e i)
unfolding reset
reset-IsElement e i ok = record {
  four = length-set e.bits (i / 32) _ ∙ ok.four;
  fits = Fits-set e.bits (i / 32) _ ok.fits (
      omega (
        arith,
        bit_and-le (word e.bits (i / 32)) (complement 32 (one_shl (i % 32))),
        word-lt e.bits (i / 32) ok.fits,
      ));
}

pub equal_words_refl : (xs : List ℕ) → equal_words xs xs ≡ true
unfolding equal_words
equal_words_refl [] = refl
equal_words_refl (x ∷ xs) = ground (arith, equal_words_refl xs)

pub equal_words_eq : (xs ys : List ℕ) → equal_words xs ys ≡ true → xs ≡ ys
unfolding equal_words
equal_words_eq [] [] h = refl
equal_words_eq [] (y ∷ ys) h = cc
equal_words_eq (x ∷ xs) [] h = cc
equal_words_eq (x ∷ xs) (y ∷ ys) h = ground (arith, equal_words_eq xs ys)

-- The words that the loops leave, and their flags.
pub word-union :
    (c : Bool) (xs ys : List ℕ) (i : ℕ)
    → length xs ≡ length ys
    → word (union_loop c xs ys).0 i ≡ bit_or (word xs i) (word ys i)
unfolding union_loop
word-union c [] [] i h = refl
word-union c [] (y ∷ ys) i h = absurd (omega arith)
word-union c (x ∷ xs) [] i h = absurd (omega arith)
word-union c (x ∷ xs) (y ∷ ys) zero h = refl
word-union c (x ∷ xs) (y ∷ ys) (suc i) h =
    word-union (note_change c x (bit_or x y)) xs ys i (omega arith)

pub changed-union :
    (c : Bool) (xs ys : List ℕ)
    → (union_loop c xs ys).1 ≡ c || not (equal_words xs (union_loop c xs ys).0)
unfolding union_loop equal_words
changed-union c [] ys = ground arith
changed-union c (x ∷ xs) [] = ground (arith, equal_words_refl xs)
changed-union c (x ∷ xs) (y ∷ ys) =
    ground (arith, changed-union (note_change c x (bit_or x y)) xs ys)

pub length-union : (c : Bool) (xs ys : List ℕ) → length (union_loop c xs ys).0 ≡ length xs
unfolding union_loop
length-union c [] ys = refl
length-union c (x ∷ xs) [] = refl
length-union c (x ∷ xs) (y ∷ ys) = ap suc (length-union (note_change c x (bit_or x y)) xs ys)

pub Fits-union : (c : Bool) (xs ys : List ℕ) → Fits xs → Fits ys → Fits (union_loop c xs ys).0
unfolding union_loop
Fits-union c [] ys f g = tt
Fits-union c (x ∷ xs) [] f g = f
Fits-union c (x ∷ xs) (y ∷ ys) f g =
    (bit_or-lt x y 32 f.0 g.0, Fits-union (note_change c x (bit_or x y)) xs ys f.1 g.1)

module _ (op : ℕ → ℕ → ℕ) where
  pub word-mask :
      (c z : Bool) (xs ys : List ℕ) (i : ℕ)
      → length xs ≡ length ys
      → op 0 0 ≡ 0
      → word (mask_loop op c z xs ys).0 i ≡ op (word xs i) (word ys i)
  unfolding mask_loop
  word-mask c z [] [] i h e = sym e
  word-mask c z [] (y ∷ ys) i h e = absurd (omega arith)
  word-mask c z (x ∷ xs) [] i h e = absurd (omega arith)
  word-mask c z (x ∷ xs) (y ∷ ys) zero h e = refl
  word-mask c z (x ∷ xs) (y ∷ ys) (suc i) h e =
      word-mask (note_change c x (op x y)) (if not (op x y == 0) then false else z) xs ys i
        (omega arith) e

  pub changed-mask :
      (c z : Bool) (xs ys : List ℕ)
      → (mask_loop op c z xs ys).1 ≡ c || not (equal_words xs (mask_loop op c z xs ys).0)
  unfolding mask_loop equal_words
  changed-mask c z [] ys = ground arith
  changed-mask c z (x ∷ xs) [] = ground (arith, equal_words_refl xs)
  changed-mask c z (x ∷ xs) (y ∷ ys) = ground (
    arith,
    changed-mask (note_change c x (op x y)) (if not (op x y == 0) then false else z) xs ys,
  )

  pub zero-mask :
      (c z : Bool) (xs ys : List ℕ)
      → length xs ≡ length ys
      → (mask_loop op c z xs ys).2 ≡ z && all_zero (mask_loop op c z xs ys).0
  unfolding mask_loop all_zero
  zero-mask c z [] ys h = ground arith
  zero-mask c z (x ∷ xs) [] h = absurd (omega arith)
  zero-mask c z (x ∷ xs) (y ∷ ys) h =
      ground
        (arith, zero-mask (note_change c x (op x y)) (if not (op x y == 0) then false else z) xs ys)

  pub length-mask : (c z : Bool) (xs ys : List ℕ) → length (mask_loop op c z xs ys).0 ≡ length xs
  unfolding mask_loop
  length-mask c z [] ys = refl
  length-mask c z (x ∷ xs) [] = refl
  length-mask c z (x ∷ xs) (y ∷ ys) =
      ap suc (length-mask (note_change c x (op x y)) (if not (op x y == 0) then false else z) xs ys)

  pub Fits-mask :
      (c z : Bool) (xs ys : List ℕ)
      → ((x y : ℕ) → op x y ≤ x)
      → Fits xs
      → Fits (mask_loop op c z xs ys).0
  unfolding mask_loop
  Fits-mask c z [] ys le f = tt
  Fits-mask c z (x ∷ xs) [] le f = f
  Fits-mask c z (x ∷ xs) (y ∷ ys) le f = (
    omega (arith, le x y, f.0),
    Fits-mask (note_change c x (op x y)) (if not (op x y == 0) then false else z) xs ys le f.1,
  )
