-- ===== src/Bitmap/Steps.antt =====
-- One step of the iterator of include/bitmap.h.
use native.Mathlib.Nat.{div-le_self}
use ptranalysis.Common.{
  ℕ, suc, ◌+◌, ◌-◌, ◌*◌, ◌/◌, ◌%◌, ◌^◌, ◌≤◌, ◌<◌, ◌≡◌, ◌≢◌, refl, sym, ap, ◌∙◌, true, false, Option,
  some, List, arith, ◌==◌, length, Option-cases, inl, inr, dec_lt, ℕ_discrete, subst, ne→==, eq→==,
}
use ptranalysis.Common.Bits.{has, has-zero, has-shift, has-half, has_above, zero_of_has}
use ptranalysis.Bitmap.Element.{Element, word}
use ptranalysis.Bitmap.Words.{has_bit, IsElement, word-lt}
use ptranalysis.Bitmap.Merge.{empty-has}
use ptranalysis.Bitmap.Vector.{element_at, index_at}
use ptranalysis.Bitmap.Chain.{Chain}
use ptranalysis.Bitmap.Places.{element-IsElement}
use ptranalysis.Bitmap.Canonical.{has_bit_outside}
use ptranalysis.Bitmap.Iterator.{
  Builtins, Iterator, skip_zeros, find_first, find_next, enter_element, next_element, leave_word,
  advance, increment,
}
use ptranalysis.Bitmap.Scan.{IsFirst, Skipped, skip_zeros-Skipped, find_first_lem, find_next_lem}

-- The iterator stands at bit `k` of the element at `pos`, which is a one.
pub record IsAt (es : List Element) (it : Iterator) (pos k : ℕ) : Type 0 where
  pub running : it.at_end ≡ false
  pub position : it.iter ≡ pos
  pub in_list : pos < length es
  pub in_element : k < 128
  pub number : it.bit_number ≡ index_at es pos * 128 + k
  pub digits : (i : ℕ) → has it.bits i ≡ has (word (element_at es pos).bits (k / 32)) (k % 32 + i)
  pub small : it.bits < 2 ^ 32
  pub one : has_bit (element_at es pos).bits k ≡ true

-- A shifted word is no larger.
shift-lt : (x s : ℕ) → x < 2 ^ 32 → x / 2 ^ s < 2 ^ 32
shift-lt x s h = omega (arith, div-le_self x (2 ^ s))

module _ (cpu : Builtins) (es : List Element) (c : Chain 0 es) where
  -- The first bit of an element.
  pub enter_lem :
      (pos : ℕ)
      → pos < length es
      → (it : Iterator) × (k : ℕ) × (enter_element cpu es pos ≡ some it)
        × IsAt es it pos k
        × ((j : ℕ) → j < k → has_bit (element_at es pos).bits j ≡ false)
  unfolding enter_element
  enter_lem pos p =
      let (x, filled) = element-IsElement 0 es pos c p in
      elim (Option-cases (find_first cpu (element_at es pos))) [
        | inl missing ↦
            let f =
              subst (IsFirst (has_bit (element_at es pos).bits) 0 128) missing
                (find_first_lem cpu (element_at es pos) x) in
            absurd (cc ((empty-has (element_at es pos) x).1 (no_bit x f), filled))
        | inr (k, found) ↦
            let f =
              subst (IsFirst (has_bit (element_at es pos).bits) 0 128) found
                (find_first_lem cpu (element_at es pos) x) in
            let w : (index_at es pos * 128 + k) % 128 / 32 ≡ k / 32 = omega arith in
            (
              record {
                at_end = false;
                iter = pos;
                bit_number = index_at es pos * 128 + k;
                word_number = k / 32;
                bits = word (element_at es pos).bits (k / 32) / 2 ^ (k % 32);
              },
              k,
              rw (enter_element, found, w) refl,
              record {
                running = refl;
                position = refl;
                in_list = p;
                in_element = f.1;
                number = refl;
                digits = λ i. has-shift (k % 32) (word (element_at es pos).bits (k / 32)) i;
                small = shift-lt _ (k % 32) (word-lt (element_at es pos).bits (k / 32) x.fits);
                one = f.2;
              },
              λ j l. f.3 j (omega arith) l,
            )
      ]
    where
      no_bit :
          IsElement (element_at es pos)
          → ((j : ℕ) → 0 ≤ j → j < 128 → has_bit (element_at es pos).bits j ≡ false)
          → (j : ℕ) → has_bit (element_at es pos).bits j ≡ false
      no_bit x f j = elim (dec_lt j 128) [
        | yes l ↦ f j (omega arith) l
        | no g ↦ has_bit_outside (element_at es pos) j x (omega arith)
      ]

  -- What `operator++` comes to from bit `k` of the element at `pos`.
  pub data Next (pos k : ℕ) (result : Option Iterator) : Type 0 where
    same_element :
        (it : Iterator) (j : ℕ)
        → result ≡ some it
        → IsAt es it pos j
        → k < j
        → ((i : ℕ) → k < i → i < j → has_bit (element_at es pos).bits i ≡ false)
        → Next pos k result
    later_element :
        (it : Iterator) (j : ℕ)
        → result ≡ some it
        → IsAt es it (suc pos) j
        → ((i : ℕ) → k < i → has_bit (element_at es pos).bits i ≡ false)
        → ((i : ℕ) → i < j → has_bit (element_at es (suc pos)).bits i ≡ false)
        → Next pos k result
    no_element :
        (it : Iterator)
        → result ≡ some it
        → it.at_end ≡ true
        → suc pos ≡ length es
        → ((i : ℕ) → k < i → has_bit (element_at es pos).bits i ≡ false)
        → Next pos k result

  -- The step to the element behind that of the iterator.
  next_element_lem :
      (it : Iterator) (pos k : ℕ)
      → it.iter ≡ pos
      → pos < length es
      → ((i : ℕ) → k < i → has_bit (element_at es pos).bits i ≡ false)
      → Next pos k (next_element cpu es it)
  unfolding next_element
  next_element_lem it pos k e p none_left = elim (ℕ_discrete (pos + 1) (length es)) [
    | yes last ↦
        no_element (record it { at_end = true; iter = it.iter + 1; word_number = 0 })
          (rw (e, eq→== (pos + 1) (length es) last) refl) refl (omega arith) none_left
    | no more ↦
        let (t, j, entered, at, before) = enter_lem (suc pos) (omega arith) in
        let s : pos + 1 ≡ suc pos = omega arith in
        let same : next_element cpu es it ≡ enter_element cpu es (suc pos) =
          rw (e, ne→== (pos + 1) (length es) more, s) refl in
        later_element t j (same ∙ entered) at none_left before
  ]

  module _ (it : Iterator) (pos k : ℕ) (a : IsAt es it pos k) where
    abbrev w : ℕ
    w = word (element_at es pos).bits (k / 32)

    x : IsElement (element_at es pos)
    x = (element-IsElement 0 es pos c a.in_list).0

    abbrev skipped : ℕ × ℕ
    skipped = skip_zeros 32 (it.bits / 2) (it.bit_number + 1)

    s : Skipped (it.bits / 2) (it.bit_number + 1) skipped
    s = skip_zeros-Skipped 32 (it.bits / 2) (it.bit_number + 1) (omega (arith, a.small))

    -- The digits left after the loop over zeros.
    skipped_digits : (i : ℕ) → has skipped.0 i ≡ has w (k % 32 + suc (s.d + i))
    skipped_digits i = s.tail i ∙ has-half it.bits (s.d + i) ∙ a.digits (suc (s.d + i))

    skipped_zeros : (i : ℕ) → i < s.d → has w (k % 32 + suc i) ≡ false
    skipped_zeros i l = sym (a.digits (suc i)) ∙ sym (has-half it.bits i) ∙ s.zeros i l

    -- A bit of the same word.
    in_word :
        (i : ℕ)
        → k < i
        → i / 32 ≡ k / 32
        → has_bit (element_at es pos).bits i ≡ has w (k % 32 + suc (i - suc k))
    in_word i l e = let r : i % 32 ≡ k % 32 + suc (i - suc k) = omega arith in rw (e, r) refl

    -- With a digit left the iterator stays in the word.
    stays :
        skipped.0 ≢ 0
        → IsAt es (record it { bits = skipped.0; bit_number = skipped.1 }) pos (k + suc s.d)
          × ((i : ℕ) → k < i → i < k + suc s.d → has_bit (element_at es pos).bits i ≡ false)
    stays nz =
        let one : has w (k % 32 + suc s.d) ≡ true = elim s.stop [
          | inl z ↦ absurd (nz z)
          | inr o ↦
              sym (skipped_digits 0 ∙ ap (λ (d : ℕ). has w (k % 32 + suc d)) (omega arith)) ∙ o
        ] in
        let room : k % 32 + suc s.d < 32 = elim (dec_lt (k % 32 + suc s.d) 32) [
          | yes l ↦ l
          | no g ↦ absurd (
              cc (
                one,
                has_above 32 w (k % 32 + suc s.d) (word-lt (element_at es pos).bits (k / 32) x.fits)
                    (omega arith),
              ))
        ] in
        let q : (k + suc s.d) / 32 ≡ k / 32 = omega arith in
        let r : (k + suc s.d) % 32 ≡ k % 32 + suc s.d = omega arith in
        (
          record {
            running = a.running;
            position = a.position;
            in_list = a.in_list;
            in_element = omega (arith, a.in_element);
            number = omega (arith, s.moved, a.number);
            digits = λ i. rw (q, r) (skipped_digits i ∙ ap (has w) (omega arith));
            small = omega (arith, s.small, a.small);
            one = rw (q, r) one;
          },
          λ i l m. in_word i l (omega arith) ∙ skipped_zeros (i - suc k) (omega arith),
        )

    skipped-nonzero : it.bits / 2 ≢ 0 → skipped.0 ≢ 0
    skipped-nonzero nz z = nz (zero_of_has (it.bits / 2) (λ i. all_zero i))
      where
        all_zero : (i : ℕ) → has (it.bits / 2) i ≡ false
        all_zero i = elim (dec_lt i s.d) [
          | yes l ↦ s.zeros i l
          | no g ↦
              let t : s.d + (i - s.d) ≡ i = omega arith in
              ap (has (it.bits / 2)) (sym t)
              ∙ sym (s.tail (i - s.d))
              ∙ ap (λ (b : ℕ). has b (i - s.d)) z
              ∙ has-zero (i - s.d)
        ]

    -- With no digit left the rest of the word is zeros.
    rest_of_word :
        it.bits / 2 ≡ 0
        → (i : ℕ) → k < i
        → i / 32 ≡ k / 32
        → has_bit (element_at es pos).bits i ≡ false
    rest_of_word z i l e =
        in_word i l e
        ∙ sym (a.digits (suc (i - suc k)))
        ∙ sym (has-half it.bits (i - suc k))
        ∙ ap (λ (b : ℕ). has b (i - suc k)) z
        ∙ has-zero (i - suc k)

    -- With a digit left.
    increment_in_word : it.bits / 2 ≢ 0 → Next pos k (increment cpu es it)
    unfolding increment advance
    increment_in_word nz =
        let (at, zeros) = stays (skipped-nonzero nz) in
        same_element (record it { bits = skipped.0; bit_number = skipped.1 }) (k + suc s.d)
          (rw (a.running, ne→== skipped.0 0 (skipped-nonzero nz)) refl) at (omega arith) zeros

    -- No one in the rest of the element.
    rest_of_element :
        it.bits / 2 ≡ 0
        → ((i : ℕ) → suc k ≤ i → i < 128 → has_bit (element_at es pos).bits i ≡ false)
        → (i : ℕ) → k < i
        → has_bit (element_at es pos).bits i ≡ false
    rest_of_element z f i l = elim (dec_lt i 128) [
      | yes m ↦ f i (omega arith) m
      | no g ↦ has_bit_outside (element_at es pos) i x (omega arith)
    ]

    abbrev moved : Iterator
    moved = record it { bits = 0; bit_number = it.bit_number + 1 }

    moved_lem : it.bits / 2 ≡ 0 → increment cpu es it ≡ leave_word cpu es moved
    unfolding increment advance
    moved_lem z = rw (a.running, z) refl

    -- The last bit of the element.
    increment_last : it.bits / 2 ≡ 0 → k + 1 ≡ 128 → Next pos k (leave_word cpu es moved)
    unfolding leave_word
    increment_last z l =
        let c : (it.bit_number + 1) % 128 ≡ 0 = omega (arith, a.number) in
        elim (Option-cases (find_next cpu (element_at es pos) 0)) [
          | inl e ↦ rw (leave_word, a.position, c, e) leaves
          | inr (j, e) ↦ rw (leave_word, a.position, c, e, c) leaves
        ]
      where
        leaves : Next pos k (next_element cpu es moved)
        leaves =
            next_element_lem moved pos k a.position a.in_list
              (λ i m. has_bit_outside (element_at es pos) i x (omega arith))

    increment_on : it.bits / 2 ≡ 0 → k + 1 < 128 → Next pos k (leave_word cpu es moved)
    unfolding leave_word
    increment_on z l =
        let c : (it.bit_number + 1) % 128 ≡ suc k = omega (arith, a.number) in
        let f = find_next_lem cpu (element_at es pos) (suc k) x (omega arith) in
        elim (Option-cases (find_next cpu (element_at es pos) (suc k))) [
          | inl e ↦
              rw (leave_word, a.position, c, e)
                (next_element_lem moved pos k a.position a.in_list (
                  rest_of_element z
                    (subst (IsFirst (has_bit (element_at es pos).bits) (suc k) 128) e f)))
          | inr (j, e) ↦
              let g = subst (IsFirst (has_bit (element_at es pos).bits) (suc k) 128) e f in
              let q : j % 128 / 32 ≡ j / 32 = omega (arith, g.1) in
              let nz : (suc k == 0) ≡ false = ground arith in
              same_element
                (record moved {
                  bit_number = index_at es pos * 128 + j;
                  word_number = j / 32;
                  bits = word (element_at es pos).bits (j / 32) / 2 ^ (j % 32);
                })
                j (rw (leave_word, a.position, c, e, a.position, c, nz, q) refl)
                (record {
                  running = a.running;
                  position = a.position;
                  in_list = a.in_list;
                  in_element = g.1;
                  number = refl;
                  digits = λ i. has-shift (j % 32) (word (element_at es pos).bits (j / 32)) i;
                  small = shift-lt _ (j % 32) (word-lt (element_at es pos).bits (j / 32) x.fits);
                  one = g.2;
                })
                (omega (arith, g.0)) (λ i m n. g.3 i (omega arith) n)
        ]

    pub increment_lem : Next pos k (increment cpu es it)
    increment_lem = elim (ℕ_discrete (it.bits / 2) 0) [
      | no nz ↦ increment_in_word nz
      | yes z ↦ rw (moved_lem z) (elim (dec_lt (k + 1) 128) [
        | yes l ↦ increment_on z l
        | no g ↦ increment_last z (omega (arith, a.in_element))
      ])
    ]
