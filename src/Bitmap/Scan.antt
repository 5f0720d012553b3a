-- ===== src/Bitmap/Scan.antt =====
-- The searches for the first and the next set bit of an element of include/bitmap.h.
use Prim.Native.Nat.{bit_and}
use native.Mathlib.Nat.{pow-suc, one-le-pow}
use ptranalysis.Common.{
  ℕ, zero, suc, ◌+◌, ◌-◌, ◌*◌, ◌/◌, ◌%◌, ◌^◌, ◌≤◌, ◌<◌, ◌≡◌, refl, sym, ap, ◌∙◌, Bool, true, false,
  not, ◌&&◌, Option, none, some, List, [], ◌∷◌, arith, ltb, leb, ◌==◌, if◌then◌else◌, length,
  Bool-cases, inl, inr, ◌⊎◌, dec_lt, ℕ_discrete, subst, ne→==, ◌≢◌,
}
use ptranalysis.Common.Bits.{
  has, has-zero, has-bit_and, has_above, mask_test, bit_and-le, has-half, has-ones_below,
  has-complement, complement, one_shl-lt,
}
use ptranalysis.Bitmap.Element.{Element, word}
use ptranalysis.Bitmap.Words.{has_bit, Fits, IsElement, word-lt}
use ptranalysis.Bitmap.Iterator.{
  Builtins, ones_from, skip_zeros, find_word, find_first, drop, find_next,
}

-- The result is the least number from `lo` on, below `hi`, that the test takes.
abbrev pub IsFirst : (ℕ → Bool) → ℕ → ℕ → Option ℕ → Type 0
IsFirst p lo hi none = (j : ℕ) → lo ≤ j → j < hi → p j ≡ false
IsFirst p lo hi (some k) =
    (lo ≤ k) × (k < hi) × (p k ≡ true) × ((j : ℕ) → lo ≤ j → j < k → p j ≡ false)

-- What the loop over zeros leaves: `d` digits, none of them a one, are gone.
pub record Skipped (bits n : ℕ) (result : ℕ × ℕ) : Type 0 where
  pub d : ℕ
  pub moved : result.1 ≡ n + d
  pub tail : (i : ℕ) → has result.0 i ≡ has bits (d + i)
  pub zeros : (i : ℕ) → i < d → has bits i ≡ false
  pub small : result.0 ≤ bits
  pub stop : (result.0 ≡ 0) ⊎ (has result.0 0 ≡ true)

pub skip_zeros-Skipped :
    (fuel bits n : ℕ) → bits < 2 ^ fuel → Skipped bits n (skip_zeros fuel bits n)
unfolding skip_zeros
skip_zeros-Skipped zero bits n h = record {
  d = 0;
  moved = omega arith;
  tail = λ i. ap (has bits) (omega arith);
  zeros = λ i l. absurd (omega arith);
  small = omega arith;
  stop = inl (omega arith);
}
skip_zeros-Skipped (suc fuel) bits n h =
    elim (Bool-cases (not (bits == 0) && bit_and bits 1 == 0)) [
      | inl go ↦
          let r = skip_zeros-Skipped fuel (bits / 2) (n + 1) (omega (arith, pow-suc 2 fuel)) in
          let even : has bits 0 ≡ false =
            (let m : not (bit_and bits 1 == 0) ≡ has bits 0 = mask_test bits 0 in
              ground (arith, m)) in
          rw go (record {
            d = suc r.d;
            moved = omega (arith, r.moved);
            tail = λ i. r.tail i ∙ has-half bits (r.d + i) ∙ ap (has bits) (omega arith);
            zeros = λ i l. zeros_below i l even r.zeros;
            small = omega (arith, r.small);
            stop = r.stop;
          })
      | inr stop ↦ rw stop (record {
        d = 0;
        moved = omega arith;
        tail = λ i. ap (has bits) (omega arith);
        zeros = λ i l. absurd (omega arith);
        small = omega arith;
        stop = stops stop;
      })
    ]
  where
    zeros_below :
        {d : ℕ} (i : ℕ)
        → i < suc d
        → has bits 0 ≡ false
        → ((j : ℕ) → j < d → has (bits / 2) j ≡ false)
        → has bits i ≡ false
    zeros_below zero l e z = e
    zeros_below (suc i) l e z = sym (has-half bits i) ∙ z i (omega arith)

    stops : not (bits == 0) && bit_and bits 1 == 0 ≡ false → (bits ≡ 0) ⊎ (has bits 0 ≡ true)
    stops e = elim (ℕ_discrete bits 0) [
      | yes z ↦ inl z
      | no nz ↦ inr (
          let m : not (bit_and bits 1 == 0) ≡ has bits 0 = mask_test bits 0 in ground (arith, m, e))
    ]

-- Bits of the first word, and of the others.
has_bit_low : (w : ℕ) (ws : List ℕ) (k : ℕ) → k < 32 → has_bit (w ∷ ws) k ≡ has w k
has_bit_low w ws k h =
    let q : k / 32 ≡ 0 = omega arith in let r : k % 32 ≡ k = omega arith in rw (q, r) refl

has_bit_high : (w : ℕ) (ws : List ℕ) (k : ℕ) → has_bit (w ∷ ws) (32 + k) ≡ has_bit ws k
has_bit_high w ws k =
    let q : (32 + k) / 32 ≡ suc (k / 32) = omega arith in
    let r : (32 + k) % 32 ≡ k % 32 = omega arith in rw (q, r) refl

abbrev shifted : ℕ → Option ℕ → Option ℕ
shifted n none = none
shifted n (some k) = some (n + k)

has_bit_split :
    (w : ℕ) (ws : List ℕ) (j : ℕ)
    → has_bit (w ∷ ws) j ≡ (if ltb j 32 then has w j else has_bit ws (j - 32))
has_bit_split w ws j = elim (dec_lt j 32) [
  | yes l ↦ has_bit_low w ws j l ∙ ground arith
  | no g ↦
      (let e : 32 + (j - 32) ≡ j = omega arith in ap (has_bit (w ∷ ws)) (sym e))
      ∙ has_bit_high w ws (j - 32)
      ∙ ground arith
]

-- A first bit of the words behind a word of 0.
IsFirst-cons :
    (ws : List ℕ) (r : Option ℕ)
    → IsFirst (has_bit ws) 0 (length ws * 32) r
    → IsFirst (has_bit (0 ∷ ws)) 0 (length (0 ∷ ws) * 32) (shifted 32 r)
IsFirst-cons ws none f = λ j l h. ground (arith, has_bit_split 0 ws j, f (j - 32), has-zero j)
IsFirst-cons ws (some k) f = (
  omega arith,
  omega (arith, f.1),
  has_bit_high 0 ws k ∙ f.2,
  λ j l h. ground (arith, has_bit_split 0 ws j, f.3 (j - 32), has-zero j),
)

module _ (cpu : Builtins) where
  -- The lowest one of a word that is not 0.
  ctz_lem :
      (w : ℕ)
      → 0 < w
      → w < 2 ^ 32
      → (cpu.count_trailing_zeros w < 32) × (has w (cpu.count_trailing_zeros w) ≡ true)
  ctz_lem w p h = (
    elim (dec_lt (cpu.count_trailing_zeros w) 32) [
      | yes l ↦ l
      | no g ↦
          absurd
            (cc (cpu.first_one w p h, has_above 32 w (cpu.count_trailing_zeros w) h (omega arith)))
    ],
    cpu.first_one w p h,
  )

  pub find_word_lem :
      (ws : List ℕ) (i : ℕ)
      → Fits ws
      → (r : Option ℕ) × (find_word cpu ws i ≡ shifted (i * 32) r)
        × IsFirst (has_bit ws) 0 (length ws * 32) r
  unfolding find_word
  find_word_lem [] i f = (none, refl, λ j l h. absurd (omega arith))
  find_word_lem (w ∷ ws) i f = elim (ℕ_discrete w 0) [
    | yes z ↦
        let (r, e, first) = find_word_lem ws (suc i) f.1 in
        (
          shifted 32 r,
          rw z (e ∙ deeper r),
          (let back : 0 ≡ w = omega arith in
              subst (λ (x : ℕ). IsFirst (has_bit (x ∷ ws)) 0 (length (x ∷ ws) * 32) (shifted 32 r))
                back (IsFirst-cons ws r first)),
        )
    | no nz ↦
        let (l, one) = ctz_lem w (omega arith) f.0 in
        (
          some (cpu.count_trailing_zeros w),
          ground arith,
          (
            omega arith,
            omega arith,
            has_bit_low w ws (cpu.count_trailing_zeros w) l ∙ one,
            λ j a b. has_bit_low w ws j (omega arith) ∙ cpu.zeros_below w j (omega arith) f.0 b,
          ),
        )
  ]
    where
      deeper : (r : Option ℕ) → shifted (suc i * 32) r ≡ shifted (i * 32) (shifted 32 r)
      deeper none = refl
      deeper (some k) = ap some (omega arith)

  -- find_first finds the lowest set bit, and fails only on an element of zeros.
  pub find_first_lem :
      (e : Element) → IsElement e → IsFirst (has_bit e.bits) 0 128 (find_first cpu e)
  unfolding find_first
  find_first_lem e x =
      let (r, eq, first) = find_word_lem e.bits 0 x.fits in
      let len : length e.bits * 32 ≡ 128 = omega (arith, x.four) in
      subst (λ (o : Option ℕ). IsFirst (has_bit e.bits) 0 128 o) (sym (eq ∙ same r))
        (subst (λ (h : ℕ). IsFirst (has_bit e.bits) 0 h r) len first)
    where
      same : (r : Option ℕ) → shifted (0 * 32) r ≡ r
      same none = refl
      same (some k) = ap some (omega arith)

  -- The bits behind the first `n` words.
  word-drop : (n : ℕ) (ws : List ℕ) (a : ℕ) → word (drop cpu n ws) a ≡ word ws (n + a)
  word-drop zero ws a = ap (word ws) (omega arith)
  word-drop (suc n) [] a = refl
  word-drop (suc n) (w ∷ ws) a =
      word-drop n ws a ∙ ap (word (w ∷ ws)) (let e : suc (n + a) ≡ suc n + a = omega arith in e)

  has_bit-drop : (n : ℕ) (ws : List ℕ) (j : ℕ) → has_bit (drop cpu n ws) j ≡ has_bit ws (n * 32 + j)
  has_bit-drop n ws j =
      let q : (n * 32 + j) / 32 ≡ n + j / 32 = omega arith in
      let r : (n * 32 + j) % 32 ≡ j % 32 = omega arith in
      rw (q, r) (ap (λ (w : ℕ). has w (j % 32)) (word-drop n ws (j / 32)))

  Fits-drop : (n : ℕ) (ws : List ℕ) → Fits ws → Fits (drop cpu n ws)
  Fits-drop zero ws f = f
  Fits-drop (suc n) [] f = tt
  Fits-drop (suc n) (w ∷ ws) f = Fits-drop n ws f.1

  length-drop : (n : ℕ) (ws : List ℕ) → length (drop cpu n ws) ≡ length ws - n
  length-drop zero ws = omega arith
  length-drop (suc n) [] = omega arith
  length-drop (suc n) (w ∷ ws) = omega (arith, length-drop n ws)

  -- The word of `curr` without the bits below it.
  has-copy : (w c i : ℕ) → c < 32 → i < 32 → has (bit_and w (ones_from c)) i ≡ has w i && leb c i
  has-copy w c i p q =
      let e : ones_from c ≡ complement 32 (2 ^ c - 1) =
        omega (arith, one-le-pow c 2 (omega arith)) in
      let lt : 2 ^ c < 2 ^ 32 = one_shl-lt c 32 p in
      let m = has-complement 32 (2 ^ c - 1) i (omega arith) q in
      rw e (ground (arith, has-bit_and w (complement 32 (2 ^ c - 1)) i, m, has-ones_below c i))

  -- A first bit behind the word of `curr`, when that word has none left.
  IsFirst-later :
      (ws : List ℕ) (c : ℕ) (r : Option ℕ)
      → length ws ≡ 4
      → c < 128
      → ((i : ℕ) → i < 32 → has (bit_and (word ws (c / 32)) (ones_from (c % 32))) i ≡ false)
      → IsFirst
          (has_bit (drop cpu (suc (c / 32)) ws))
          0
          (length (drop cpu (suc (c / 32)) ws) * 32)
          r
      → IsFirst (has_bit ws) c 128 (shifted (suc (c / 32) * 32) r)
  IsFirst-later ws c none len h z f = λ j l m. elim (ℕ_discrete (j / 32) (c / 32)) [
    | yes same ↦
        let e = has-copy (word ws (c / 32)) (c % 32) (j % 32) (omega arith) (omega arith) in
        rw same (ground (arith, e, z (j % 32)))
    | no later ↦
        let d = has_bit-drop (suc (c / 32)) ws (j - suc (c / 32) * 32) in
        let t : suc (c / 32) * 32 + (j - suc (c / 32) * 32) ≡ j = omega arith in
        ap (has_bit ws) (sym t)
        ∙ sym d
        ∙ f (j - suc (c / 32) * 32) (omega arith) (omega (arith, length-drop (suc (c / 32)) ws))
  ]
  IsFirst-later ws c (some k) len h z f = (
    omega arith,
    omega (arith, f.1, length-drop (suc (c / 32)) ws),
    sym (has_bit-drop (suc (c / 32)) ws k) ∙ f.2,
    λ j l m. elim (ℕ_discrete (j / 32) (c / 32)) [
      | yes same ↦
          let e = has-copy (word ws (c / 32)) (c % 32) (j % 32) (omega arith) (omega arith) in
          rw same (ground (arith, e, z (j % 32)))
      | no later ↦
          let d = has_bit-drop (suc (c / 32)) ws (j - suc (c / 32) * 32) in
          let t : suc (c / 32) * 32 + (j - suc (c / 32) * 32) ≡ j = omega arith in
          ap (has_bit ws) (sym t) ∙ sym d ∙ f.3 (j - suc (c / 32) * 32) (omega arith) (omega arith)
    ],
  )

  -- find_next finds the lowest set bit from `curr` on, and returns -1 if there is none.
  pub find_next_lem :
      (e : Element) (c : ℕ)
      → IsElement e
      → c < 128
      → IsFirst (has_bit e.bits) c 128 (find_next cpu e c)
  unfolding find_next
  find_next_lem e c x h =
      elim (ℕ_discrete (bit_and (word e.bits (c / 32)) (ones_from (c % 32))) 0) [
        | yes zero_word ↦
            let (r, eq, first) =
              find_word_lem (drop cpu (suc (c / 32)) e.bits) (suc (c / 32))
                (Fits-drop (suc (c / 32)) e.bits x.fits) in
            rw (low, zero_word, eq)
              (IsFirst-later e.bits c r x.four h
                (λ i l. ap (λ (w : ℕ). has w i) zero_word ∙ has-zero i) first)
        | no some_bit ↦
            rw (low, ne→== (bit_and (word e.bits (c / 32)) (ones_from (c % 32))) 0 some_bit)
              (in_word some_bit)
      ]
    where
      low : leb 128 c ≡ false
      low = ground arith

      copy : ℕ
      copy = bit_and (word e.bits (c / 32)) (ones_from (c % 32))

      in_word :
          copy ≢ 0
          → IsFirst (has_bit e.bits) c 128 (some (c / 32 * 32 + cpu.count_trailing_zeros copy))
      in_word nz =
          let small : copy < 2 ^ 32 = omega (
            arith,
            bit_and-le (word e.bits (c / 32)) (ones_from (c % 32)),
            word-lt e.bits (c / 32) x.fits,
          ) in
          let (l, one) = ctz_lem copy (omega arith) small in
          let k = cpu.count_trailing_zeros copy in
          let at = has-copy (word e.bits (c / 32)) (c % 32) k (omega arith) l in
          let q : (c / 32 * 32 + k) / 32 ≡ c / 32 = omega arith in
          let r : (c / 32 * 32 + k) % 32 ≡ k = omega arith in
          (
            ground (arith, at, one),
            omega arith,
            rw (q, r) (ground (arith, at, one)),
            λ j a b.
                let s : j / 32 ≡ c / 32 = omega arith in
                let e' =
                  has-copy (word e.bits (c / 32)) (c % 32) (j % 32) (omega arith) (omega arith) in
                let z = cpu.zeros_below copy (j % 32) (omega arith) small (omega arith) in
                rw s (ground (arith, e', z)),
          )
