-- ===== src/Bitmap/Iterator.antt =====
-- include/bitmap.h, MySparseBitVectorIterator, with find_first and find_next of an element. The
-- position of `Iter` in the list is a number; a failed assertion is `none`.
use Prim.Native.Nat.{bit_and}
use ptranalysis.Common.{
  ℕ, zero, suc, ◌+◌, ◌-◌, ◌*◌, ◌/◌, ◌%◌, ◌^◌, ◌<◌, ◌≡◌, Bool, true, false, not, ◌&&◌, Option, none,
  some, List, [], ◌∷◌, leb, ◌==◌, if◌then◌else◌, length,
}
use ptranalysis.Common.Bits.{has}
use ptranalysis.Bitmap.Element.{Element, bitword_size, element_size, word}
use ptranalysis.Bitmap.Vector.{Bitmap, element_at, index_at, empty}

-- countTrailingZeros of LLVM, for a word that is not 0.
pub record Builtins : Type 0 where
  pub count_trailing_zeros : ℕ → ℕ
  pub first_one : (x : ℕ) → 0 < x → x < 2 ^ bitword_size → has x (count_trailing_zeros x) ≡ true
  pub zeros_below :
      (x j : ℕ) → 0 < x → x < 2 ^ bitword_size → j < count_trailing_zeros x → has x j ≡ false

-- `~0L << k`, on 32 bits.
abbrev pub ones_from : ℕ → ℕ
ones_from k = 2 ^ bitword_size - 2 ^ k

-- `BitVector`, which does not change, is an argument of the operations.
pub record Iterator : Type 0 where
  pub at_end : Bool
  pub iter : ℕ
  pub bit_number : ℕ
  pub word_number : ℕ
  pub bits : ℕ

-- `while(Bits && !(Bits & 1))`, with the bits and the bit number.
unfoldable pub skip_zeros : ℕ → ℕ → ℕ → ℕ × ℕ
skip_zeros zero bits n = (bits, n)
skip_zeros (suc fuel) bits n =
    let rest = skip_zeros fuel (bits / 2) (n + 1) in
    if not (bits == 0) && bit_and bits 1 == 0 then rest else (bits, n)

module _ (cpu : Builtins) where
  -- The loop over the words from word `i` on; `none` if all of them are 0.
  unfoldable pub find_word : List ℕ → ℕ → Option ℕ
  find_word [] i = none
  find_word (w ∷ ws) i =
      if not (w == 0)
      then some (i * bitword_size + cpu.count_trailing_zeros w)
      else find_word ws (suc i)

  -- `none` is the failed assertion.
  unfoldable pub find_first : Element → Option ℕ
  unfolding find_word
  find_first e = find_word e.bits 0

  -- The words behind the first `n`.
  abbrev pub drop : ℕ → List ℕ → List ℕ
  drop zero ws = ws
  drop (suc n) [] = []
  drop (suc n) (w ∷ ws) = drop n ws

  -- `none` is -1.
  unfoldable pub find_next : Element → ℕ → Option ℕ
  unfolding find_word
  find_next e curr =
      if leb element_size curr
      then none
      else let word_pos = curr / bitword_size in
        let copy = bit_and (word e.bits word_pos) (ones_from (curr % bitword_size)) in
        if not (copy == 0)
        then some (word_pos * bitword_size + cpu.count_trailing_zeros copy)
        else find_word (drop (suc word_pos) e.bits) (suc word_pos)

  -- The first set bit of the element at a position. The bits are 32-bit numbers, so that the index of an
  -- element that `set` has made is below 2 ^ 25, and its product with 128 does not wrap.
  unfoldable pub enter_element : List Element → ℕ → Option Iterator
  enter_element es i = elim (find_first (element_at es i)) [
    | none ↦ none
    | some k ↦
        let n = index_at es i * element_size + k in
        let w = n % element_size / bitword_size in
        some (record {
          at_end = false;
          iter = i;
          bit_number = n;
          word_number = w;
          bits = word (element_at es i).bits w / 2 ^ (k % bitword_size);
        })
  ]

  -- The constructor with AdvanceToFirstNonZero.
  unfoldable pub begin : Bitmap → Option Iterator
  begin b =
      if empty b
      then some
          (record { at_end = true; iter = 0; bit_number = 0; word_number = 0xffffffff; bits = 0 })
      else enter_element b.elements 0

  -- The element behind that of the iterator.
  unfoldable pub next_element : List Element → Iterator → Option Iterator
  next_element es it =
      if it.iter + 1 == length es
      then some (record it { at_end = true; iter = it.iter + 1; word_number = 0 })
      else enter_element es (it.iter + 1)

  -- The part of AdvanceToNextNonZero for a word that is used up.
  unfoldable pub leave_word : List Element → Iterator → Option Iterator
  leave_word es it = elim (find_next (element_at es it.iter) (it.bit_number % element_size)) [
    | none ↦ next_element es it
    | some k ↦
        if it.bit_number % element_size == 0
        then next_element es it
        else let w = k % element_size / bitword_size in
          some (record it {
            bit_number = index_at es it.iter * element_size + k;
            word_number = w;
            bits = word (element_at es it.iter).bits w / 2 ^ (k % bitword_size);
          })
  ]

  -- AdvanceToNextNonZero
  unfoldable pub advance : List Element → Iterator → Option Iterator
  unfolding skip_zeros
  advance es it =
      if it.at_end
      then some it
      else let (bits, n) = skip_zeros bitword_size it.bits it.bit_number in
        let moved = record it { bits = bits; bit_number = n } in
        if not (bits == 0) then some moved else leave_word es moved

  -- `operator++`
  unfoldable pub increment : List Element → Iterator → Option Iterator
  increment es it = advance es (record it { bit_number = it.bit_number + 1; bits = it.bits / 2 })

  -- The values of the iterator up to the end; no vector has more bits than its elements have room for.
  unfoldable pub walk : List Element → ℕ → Iterator → Option (List ℕ)
  walk es zero it = if it.at_end then some [] else none
  walk es (suc fuel) it =
      let rest : Option (List ℕ) = elim (increment es it) [
        | none ↦ none
        | some next ↦ walk es fuel next
      ] in
      if it.at_end then some [] else elim rest [ none ↦ none | some ns ↦ some (it.bit_number ∷ ns) ]

  unfoldable pub iterate : Bitmap → Option (List ℕ)
  unfolding begin walk
  iterate b = elim (begin b) [
    | none ↦ none
    | some it ↦ walk b.elements (length b.elements * element_size) it
  ]
