-- ===== src/Clump/Count.antt =====
-- The numbers of nodes that a loop of clump_addr_taken takes.
use ptranalysis.Common.{
  ℕ, zero, suc, ◌+◌, ◌-◌, ◌≤◌, ◌<◌, ◌≡◌, Bool, true, not, arith, ap, ◌∙◌, if◌then◌else◌,
}

-- How many of the `n` numbers from `i` on the test takes.
unfoldable pub count : (ℕ → Bool) → ℕ → ℕ → ℕ
count p zero i = 0
count p (suc n) i = (if p i then 1 else 0) + count p n (suc i)

pub count-le : (p : ℕ → Bool) (n i : ℕ) → count p n i ≤ n
unfolding count
count-le p zero i = omega arith
count-le p (suc n) i = ground (arith, count-le p n (suc i))

-- What one test does not take, the opposite one takes.
pub count-opposite :
    (p q : ℕ → Bool) → ((i : ℕ) → q i ≡ not (p i)) → (n i : ℕ) → count p n i + count q n i ≡ n
unfolding count
count-opposite p q o zero i = omega arith
count-opposite p q o (suc n) i = ground (arith, count-opposite p q o n (suc i), o i)

-- A number that is taken counts for all that come after it.
pub count-lt : (p : ℕ → Bool) (a b i : ℕ) → a < b → p (i + a) ≡ true → count p a i < count p b i
unfolding count
count-lt p a zero i h t = absurd (omega arith)
count-lt p zero (suc b) i h t = ground (arith, ap p {x = i + 0} {y = i})
count-lt p (suc a) (suc b) i h t = ground (
  arith,
  count-lt p a b (suc i) (omega arith)
      (ap p (let e : suc i + a ≡ i + suc a = omega arith in e) ∙ t),
)

-- The count up to a number behind the first one.
pub count-from :
    (p : ℕ → Bool) (i j : ℕ)
    → i < j
    → count p (j - i) i ≡ (if p i then 1 else 0) + count p (j - suc i) (suc i)
unfolding count
count-from p i j h =
    ap (λ (n : ℕ). count p n i) (let e : j - i ≡ suc (j - suc i) = omega arith in e)

pub count-none : (p : ℕ → Bool) (i j : ℕ) → i ≡ j → count p (j - i) i ≡ 0
unfolding count
count-none p i j h = ap (λ (n : ℕ). count p n i) (let e : j - i ≡ 0 = omega arith in e)
