-- ===== src/Common/Bits.antt =====
-- The binary digits of machine words: `|`, `&` and `~` digit by digit, `1 << k`, and the test for 0.
use Prim.Native.Nat.{
  ℕ, zero, suc, ◌+◌, ◌-◌, ◌*◌, ◌/◌, ◌%◌, ◌^◌, ◌≤◌, ◌<◌, min, max, digits, bit_and, bit_or,
  bit_and-bitwise, bit_or-bitwise,
}
use mathlib.Core.Path.{◌≡◌, refl, ap, sym, ◌∙◌}
use mathlib.Core.Logic.{inl, inr}
use mathlib.Core.Bool.{Bool, false, ◌&&◌, ◌||◌, not}
use native.Mathlib.Omega.{arith}
use native.Mathlib.Nat.{div-div-eq-div-mul, pow-suc, one-le-pow, le_refl}
use ptranalysis.Common.Tests.{◌==◌, ltb, Bool-cases}

-- Digit `k` of `x`, the lowest digit first.
pub bit : ℕ → ℕ → ℕ
bit x zero = x % 2
bit x (suc k) = bit (x / 2) k

-- Is digit `k` of `x` a one?
pub has : ℕ → ℕ → Bool
has x k = bit x k == 1

pub bit-lt : (x k : ℕ) → bit x k < 2
unfolding bit
bit-lt x zero = omega arith
bit-lt x (suc k) = bit-lt (x / 2) k

pub bit-zero : (k : ℕ) → bit 0 k ≡ 0
unfolding bit
bit-zero zero = refl
bit-zero (suc k) = bit-zero k

-- `Prim.Native.Nat.digits` goes through the digits of both numbers at once.
module _ (z : ℕ → ℕ) (f : ℕ → ℕ → ℕ) (small : (a b : ℕ) → f (a % 2) (b % 2) < 2)
    (at_zero : (b k : ℕ) → bit (z b) k ≡ f 0 (bit b k)) where
  bit-digits : (n a b k : ℕ) → a ≤ n → bit (digits z f n a b) k ≡ f (bit a k) (bit b k)
  unfolding bit
  bit-digits zero zero b k h = rw bit-zero (at_zero b k)
  bit-digits zero (suc a) b k h = absurd (omega arith)
  bit-digits (suc n) zero b k h = rw bit-zero (at_zero b k)
  bit-digits (suc n) (suc a) b zero h = omega (arith, small (suc a) b)
  bit-digits (suc n) (suc a) b (suc k) h =
      ap (λ (x : ℕ). bit x k)
        (let half : (digits z f n (suc a / 2) (b / 2) * 2 + f (suc a % 2) (b % 2)) / 2
              ≡ digits z f n (suc a / 2) (b / 2) =
            omega (arith, small (suc a) b) in
          half)
      ∙ bit-digits n (suc a / 2) (b / 2) k (omega arith)

pub bit-bit_or : (a b k : ℕ) → bit (bit_or a b) k ≡ max (bit a k) (bit b k)
bit-bit_or a b k =
    ap (λ (x : ℕ). bit x k) (bit_or-bitwise a b)
    ∙ bit-digits (λ y. y) max (λ x y. omega arith) (λ y j. omega arith) a a b k (le_refl a)

pub bit-bit_and : (a b k : ℕ) → bit (bit_and a b) k ≡ min (bit a k) (bit b k)
bit-bit_and a b k =
    ap (λ (x : ℕ). bit x k) (bit_and-bitwise a b)
    ∙ bit-digits (λ y. 0) min (λ x y. omega arith) (λ y j. omega (arith, bit-zero j)) a a b k
        (le_refl a)

pub has-bit_or : (a b k : ℕ) → has (bit_or a b) k ≡ has a k || has b k
unfolding has
has-bit_or a b k = ground (arith, bit-bit_or a b k, bit-lt a k, bit-lt b k)

pub has-bit_and : (a b k : ℕ) → has (bit_and a b) k ≡ has a k && has b k
unfolding has
has-bit_and a b k = ground (arith, bit-bit_and a b k, bit-lt a k, bit-lt b k)

-- `a & ~b`
abbrev pub bit_diff : ℕ → ℕ → ℕ
bit_diff a b = digits (λ y. 0) (λ x y. x - y) a a b

pub has-bit_diff : (a b k : ℕ) → has (bit_diff a b) k ≡ has a k && not (has b k)
unfolding has
has-bit_diff a b k =
    let e : bit (bit_diff a b) k ≡ bit a k - bit b k =
      bit-digits (λ y. 0) (λ x y. x - y) (λ x y. omega arith) (λ y j. omega (arith, bit-zero j)) a a
        b k (le_refl a) in
    ground (arith, e, bit-lt a k, bit-lt b k)

pub has-zero : (k : ℕ) → has 0 k ≡ false
unfolding has
has-zero k = ground (arith, bit-zero k)

-- `1 << k`
abbrev pub one_shl : ℕ → ℕ
one_shl k = 2 ^ k

pub bit-one_shl : (k j : ℕ) → has (one_shl k) j ≡ (k == j)
unfolding has bit
bit-one_shl zero zero = refl
bit-one_shl zero (suc j) = ground (arith, bit-zero j)
bit-one_shl (suc k) zero = ground (arith, pow-suc 2 k)
bit-one_shl (suc k) (suc j) =
    let half : 2 ^ suc k / 2 ≡ 2 ^ k = omega (arith, pow-suc 2 k) in
    rw half (ground (arith, bit-one_shl k j))

-- `~x` on `w` bits.
abbrev pub complement : ℕ → ℕ → ℕ
complement w x = 2 ^ w - 1 - x

bit-complement : (w x k : ℕ) → x < 2 ^ w → k < w → bit (complement w x) k ≡ 1 - bit x k
unfolding bit
bit-complement zero x k h p = absurd (omega arith)
bit-complement (suc w) x zero h p = omega (arith, pow-suc 2 w, one-le-pow w 2)
bit-complement (suc w) x (suc k) h p =
    let half : (2 ^ suc w - 1 - x) / 2 ≡ 2 ^ w - 1 - x / 2 =
      omega (arith, pow-suc 2 w, one-le-pow w 2) in
    rw half (bit-complement w (x / 2) k (omega (arith, pow-suc 2 w)) (omega arith))

pub has-complement : (w x k : ℕ) → x < 2 ^ w → k < w → has (complement w x) k ≡ not (has x k)
unfolding has
has-complement w x k h p = ground (arith, bit-complement w x k h p, bit-lt x k)

-- A number below `2 ^ w` has no digit from `w` on.
bit_above : (w x k : ℕ) → x < 2 ^ w → w ≤ k → bit x k ≡ 0
unfolding bit
bit_above zero x k h p = rw (let e : x ≡ 0 = omega arith in e) (bit-zero k)
bit_above (suc w) x zero h p = absurd (omega arith)
bit_above (suc w) x (suc k) h p = bit_above w (x / 2) k (omega (arith, pow-suc 2 w)) (omega arith)

pub has_above : (w x k : ℕ) → x < 2 ^ w → w ≤ k → has x k ≡ false
unfolding has
has_above w x k h p = ground (arith, bit_above w x k h p)

pub one_shl-lt : (k w : ℕ) → k < w → one_shl k < 2 ^ w
one_shl-lt k zero h = absurd (omega arith)
one_shl-lt zero (suc w) h = omega (arith, pow-suc 2 w, one-le-pow w 2)
one_shl-lt (suc k) (suc w) h = omega (arith, pow-suc 2 w, pow-suc 2 k, one_shl-lt k w (omega arith))

-- A number all of whose digits are zero is 0.
zero_of_bits : (n x : ℕ) → x ≤ n → ((k : ℕ) → bit x k ≡ 0) → x ≡ 0
unfolding bit
zero_of_bits zero x h all = omega arith
zero_of_bits (suc n) x h all =
    let half = zero_of_bits n (x / 2) (omega arith) (λ k. all (suc k)) in omega (arith, all 0)

pub zero_of_has : (x : ℕ) → ((k : ℕ) → has x k ≡ false) → x ≡ 0
zero_of_has x all = zero_of_bits x x (le_refl x) (λ k. none k (all k))
  where
    none : (k : ℕ) → has x k ≡ false → bit x k ≡ 0
    none k e = unfold has in ground (arith, bit-lt x k)

-- Numbers with the same digits are the same.
eq_of_bits : (n x y : ℕ) → x ≤ n → y ≤ n → ((k : ℕ) → bit x k ≡ bit y k) → x ≡ y
unfolding bit
eq_of_bits zero x y p q all = omega arith
eq_of_bits (suc n) x y p q all =
    let half = eq_of_bits n (x / 2) (y / 2) (omega arith) (omega arith) (λ k. all (suc k)) in
    omega (arith, all 0)

pub eq_of_has : (x y : ℕ) → ((k : ℕ) → has x k ≡ has y k) → x ≡ y
eq_of_has x y all = eq_of_bits (x + y) x y (omega arith) (omega arith) (λ k. same k (all k))
  where
    same : (k : ℕ) → has x k ≡ has y k → bit x k ≡ bit y k
    same k e = unfold has in ground (arith, bit-lt x k, bit-lt y k)

-- `x & (1 << k)` is not 0 exactly if digit `k` of `x` is a one.
pub mask_test : (x k : ℕ) → not (bit_and x (one_shl k) == 0) ≡ has x k
mask_test x k = elim (Bool-cases (has x k)) [
  | inl one ↦ ground (
    arith,
    one,
    has-bit_and x (one_shl k) k,
    bit-one_shl k k,
    has-zero k,
    ap (λ (y : ℕ). has y k) {x = bit_and x (one_shl k)} {y = 0},
  )
  | inr none ↦ ground (
    arith,
    none,
    zero_of_has (bit_and x (one_shl k))
        (λ j. ground (arith, none, has-bit_and x (one_shl k) j, bit-one_shl k j)),
  )
]

digits_or-lt : (n a b w : ℕ) → a < 2 ^ w → b < 2 ^ w → digits (λ y. y) max n a b < 2 ^ w
digits_or-lt zero a b w p q = q
digits_or-lt (suc n) zero b w p q = q
digits_or-lt (suc n) (suc a) b zero p q = absurd (omega arith)
digits_or-lt (suc n) (suc a) b (suc w) p q = omega (
  arith,
  pow-suc 2 w,
  digits_or-lt n (suc a / 2) (b / 2) w (omega (arith, pow-suc 2 w)) (omega (arith, pow-suc 2 w)),
)

pub bit_or-lt : (a b w : ℕ) → a < 2 ^ w → b < 2 ^ w → bit_or a b < 2 ^ w
bit_or-lt a b w p q = rw (bit_or-bitwise a b) (digits_or-lt a a b w p q)

digits_and-le : (n a b : ℕ) → digits (λ y. 0) min n a b ≤ a
digits_and-le zero a b = omega arith
digits_and-le (suc n) zero b = omega arith
digits_and-le (suc n) (suc a) b = omega (arith, digits_and-le n (suc a / 2) (b / 2))

pub bit_and-le : (a b : ℕ) → bit_and a b ≤ a
bit_and-le a b = rw (bit_and-bitwise a b) (digits_and-le a a b)

-- Digit `i` of half a number.
pub has-half : (x i : ℕ) → has (x / 2) i ≡ has x (suc i)
unfolding has bit
has-half x i = refl

-- Digit `i` of a number without its `s` lowest digits.
pub has-shift : (s x i : ℕ) → has (x / 2 ^ s) i ≡ has x (s + i)
unfolding has bit
has-shift zero x i =
    rw (let e : x / 2 ^ 0 ≡ x = omega arith in e, let e : 0 + i ≡ i = omega arith in e)
has-shift (suc s) x i =
    let e : x / 2 ^ suc s ≡ x / 2 / 2 ^ s =
      ap (λ (m : ℕ). x / m) (let t : 2 ^ suc s ≡ 2 * 2 ^ s = omega (arith, pow-suc 2 s) in t)
      ∙ sym (div-div-eq-div-mul x 2 (2 ^ s)) in
    let f : suc s + i ≡ suc (s + i) = omega arith in rw (e, f) (has-shift s (x / 2) i)

-- The number with ones below digit `k`.
pub has-ones_below : (k i : ℕ) → has (2 ^ k - 1) i ≡ ltb i k
has-ones_below k i = elim (Bool-cases (ltb i k)) [
  | inl lt ↦
      let c = has-complement k 0 i (one-le-pow k 2 (omega arith)) (ground arith) in
      let e : complement k 0 ≡ 2 ^ k - 1 = omega arith in rw e at c ∙ ground (arith, has-zero i)
  | inr ge ↦
      has_above k (2 ^ k - 1) i (omega (arith, one-le-pow k 2 (omega arith))) (ground arith)
      ∙ sym ge
]
