-- ===== src/Bitmap/Element.antt =====
-- include/bitmap.h, MySparseBitVectorElement with ElementSize 128 (BM_ELSZ of include/config.h), on
-- the platform of README, where `unsigned long` has 32 bits.
use Prim.Native.Nat.{bit_and, bit_or}
use ptranalysis.Common.{
  ℕ, ◌/◌, ◌%◌, Bool, true, false, not, ◌&&◌, List, [], ◌∷◌, ◌==◌, if◌then◌else◌, get_or, set,
  replicate,
}
use ptranalysis.Common.Bits.{one_shl, complement}

abbrev pub bitword_size : ℕ
bitword_size = 32

abbrev pub bitwords_per_element : ℕ
bitwords_per_element = 4

abbrev pub element_size : ℕ
element_size = 128

pub record Element : Type 0 where
  pub index : ℕ
  pub bits : List ℕ

-- `getNewElement(idx)`: all words are 0, whether the element is new or from the free list.
abbrev pub new : ℕ → Element
new idx = record { index = idx; bits = replicate bitwords_per_element 0 }

-- `Bits[i]`, behind the bounds that the loops and the index arithmetic keep.
abbrev pub word : List ℕ → ℕ → ℕ
word bits i = get_or bits i 0

unfoldable pub equal_words : List ℕ → List ℕ → Bool
equal_words [] [] = true
equal_words [] (y ∷ ys) = false
equal_words (x ∷ xs) [] = false
equal_words (x ∷ xs) (y ∷ ys) = (x == y) && equal_words xs ys

-- `operator==`
unfoldable pub equal : Element → Element → Bool
unfolding equal_words
equal a b = if not (a.index == b.index) then false else equal_words a.bits b.bits

-- `memcmp` with the array `zero`
unfoldable pub all_zero : List ℕ → Bool
all_zero [] = true
all_zero (x ∷ xs) = (x == 0) && all_zero xs

unfoldable pub empty : Element → Bool
unfolding all_zero
empty e = all_zero e.bits

unfoldable pub set_bit : Element → ℕ → Element
set_bit e i =
    let w = i / bitword_size in
    record e { bits = set e.bits w (bit_or (word e.bits w) (one_shl (i % bitword_size))) }

unfoldable pub reset : Element → ℕ → Element
reset e i =
    let w = i / bitword_size in
    record e {
      bits =
          set e.bits w
            (bit_and (word e.bits w) (complement bitword_size (one_shl (i % bitword_size))));
    }

unfoldable pub test : Element → ℕ → Bool
test e i = not (bit_and (word e.bits (i / bitword_size)) (one_shl (i % bitword_size)) == 0)

-- The element after the call, and whether it changed.
unfoldable pub test_and_set : Element → ℕ → Element × Bool
unfolding test set_bit
test_and_set e i = if not (test e i) then (set_bit e i, true) else (e, false)

-- The flag `changed` of the loops below, after a word went from `old` to `w`.
abbrev pub note_change : Bool → ℕ → ℕ → Bool
note_change changed x w =
    let old = if changed then 0 else x in if not changed && not (old == w) then true else changed

-- The words after the loop, and `changed`.
unfoldable pub union_loop : Bool → List ℕ → List ℕ → List ℕ × Bool
union_loop changed [] ys = ([], changed)
union_loop changed (x ∷ xs) [] = (x ∷ xs, changed)
union_loop changed (x ∷ xs) (y ∷ ys) =
    let w = bit_or x y in
    let (rest, c) = union_loop (note_change changed x w) xs ys in (w ∷ rest, c)

unfoldable pub union_with : Element → Element → Element × Bool
unfolding union_loop
union_with a b = let (bits, c) = union_loop false a.bits b.bits in (record a { bits = bits }, c)

-- The loop of both intersections, for the operation on a word: the words, `changed`, `allzero`.
unfoldable pub mask_loop : (ℕ → ℕ → ℕ) → Bool → Bool → List ℕ → List ℕ → List ℕ × Bool × Bool
mask_loop op changed zeros [] ys = ([], changed, zeros)
mask_loop op changed zeros (x ∷ xs) [] = (x ∷ xs, changed, zeros)
mask_loop op changed zeros (x ∷ xs) (y ∷ ys) =
    let w = op x y in
    let (rest, c, z) =
      mask_loop op (note_change changed x w) (if not (w == 0) then false else zeros) xs ys in
    (w ∷ rest, c, z)

-- The element after the call, whether it changed, and `BecameZero`.
unfoldable pub intersect_with : Element → Element → Element × Bool × Bool
unfolding mask_loop
intersect_with a b =
    let (bits, c, z) = mask_loop bit_and false true a.bits b.bits in
    (record a { bits = bits }, c, z)

-- `x & ~y`
abbrev pub and_not : ℕ → ℕ → ℕ
and_not x y = bit_and x (complement bitword_size y)

unfoldable pub intersect_with_complement : Element → Element → Element × Bool × Bool
unfolding mask_loop
intersect_with_complement a b =
    let (bits, c, z) = mask_loop and_not false true a.bits b.bits in
    (record a { bits = bits }, c, z)
