-- ===== src/Tests/Domains.antt =====
-- The two domains of anders/solve.cpp for four nodes, with sets of nodes as bit masks and relations as
-- functions.
use ptranalysis.Common.{
  ℕ, zero, suc, ◌+◌, ◌%◌, ◌^◌, ◌<◌, ◌≡◌, ◌↔◌, refl, sym, ap, ◌∙◌, Bool, true, false, not, ◌&&◌,
  ◌||◌, arith, ltb, ◌==◌, if◌then◌else◌, Bool-cases, inl, inr, ℕ_discrete,
}
use ptranalysis.Common.Bits.{has, has-zero, bit-one_shl, one_shl}
use ptranalysis.Solver.Variables.{Vars}
use ptranalysis.Tests.Graphs.{masks}

pub has-one_shl : (n m : ℕ) → has (one_shl n) m ≡ (m == n)
has-one_shl n m = ground (arith, bit-one_shl n m)

-- Is there a number below `n` in the test?
abbrev pub any_below : ℕ → (ℕ → Bool) → Bool
any_below zero p = false
any_below (suc n) p = p n || any_below n p

any_below-found : (n : ℕ) (p : ℕ → Bool) → any_below n p ≡ true → (x : ℕ) × (x < n) × (p x ≡ true)
any_below-found zero p h = absurd (ground arith)
any_below-found (suc n) p h = elim (Bool-cases (p n)) [
  | inl here ↦ (n, omega arith, here)
  | inr other ↦ let (x, l, e) = any_below-found n p (ground arith) in (x, omega arith, e)
]

any_below-there : (n : ℕ) (p : ℕ → Bool) (x : ℕ) → x < n → p x ≡ true → any_below n p ≡ true
any_below-there zero p x l h = absurd (omega arith)
any_below-there (suc n) p x l h = elim (ℕ_discrete x n) [
  | yes e ↦ (let here : p n ≡ true = ap p (sym e) ∙ h in ground arith)
  | no other ↦ ground (arith, any_below-there n p x (omega arith) h)
]

-- The mask of the numbers below `n` in the test.
abbrev pub mask_below : ℕ → (ℕ → Bool) → ℕ
mask_below zero p = 0
mask_below (suc n) p =
    let rest = mask_below n p in if p n then masks.bdd_or rest (one_shl n) else rest

has-mask_below : (n : ℕ) (p : ℕ → Bool) (y : ℕ) → has (mask_below n p) y ≡ ltb y n && p y
has-mask_below zero p y = has-zero y ∙ ground arith
has-mask_below (suc n) p y = elim (Bool-cases (p n)) [
  | inl here ↦ rw here (
      masks.contains-bdd_or (mask_below n p) (one_shl n) y ∙ elim (ℕ_discrete y n) [
        | yes e ↦ ground (arith, has-one_shl n y, ap p e)
        | no other ↦ ground (arith, has-one_shl n y, has-mask_below n p y)
      ])
  | inr missing ↦ rw missing (
      has-mask_below n p y
      ∙ elim (ℕ_discrete y n) [ yes e ↦ ground (arith, ap p e) | no other ↦ ground arith ])
]

abbrev pub some_pair : (ℕ → ℕ → Bool) → Bool
some_pair f = any_below 4 (λ x. any_below 4 (f x))

pub some_pair_iff :
    (f : ℕ → ℕ → Bool)
    → (not (some_pair f) ≡ true) ↔ ((x y : ℕ) → x < 2 ^ 2 → y < 2 ^ 2 → f x y ≡ false)
some_pair_iff f = (
  λ h x y p q. elim (Bool-cases (f x y)) [
    | inr missing ↦ missing
    | inl there ↦
        let a = any_below-there 4 (f x) y (omega arith) there in
        let b = any_below-there 4 (λ z. any_below 4 (f z)) x (omega arith) a in absurd (cc (h, b))
  ],
  λ all. elim (Bool-cases (some_pair f)) [
    | inr missing ↦ rw missing refl
    | inl there ↦
        let (x, p, a) = any_below-found 4 (λ z. any_below 4 (f z)) there in
        let (y, q, b) = any_below-found 4 (f x) a in
        absurd (cc (all x y (omega arith) (omega arith), b))
  ],
)

abbrev pub image : ℕ → (ℕ → ℕ → Bool) → ℕ
image s f = mask_below 4 (λ y. any_below 4 (λ x. has s x && f x y))

pub image_iff :
    (s : ℕ) (f : ℕ → ℕ → Bool) (y : ℕ)
    → (has (image s f) y ≡ true)
      ↔ ((y < 2 ^ 2) × (x : ℕ) × (x < 2 ^ 2) × (has s x ≡ true) × (f x y ≡ true))
image_iff s f y =
    let e = has-mask_below 4 (λ z. any_below 4 (λ x. has s x && f x z)) y in
    (
      λ h.
          let (x, p, a) =
            any_below-found 4 (λ z. has s z && f z y) (let w = sym e ∙ h in ground arith) in
          (let w = sym e ∙ h in ground arith, x, omega arith, ground arith, ground arith),
      λ (q, x, p, there, holds).
          let w = any_below-there 4 (λ z. has s z && f z y) x (omega arith) (ground arith) in
          e ∙ ground arith,
    )

abbrev pub mask_vars : Vars masks
mask_vars = record {
  pts_bits = 2;
  Vector = ℕ → ℕ → ℕ;
  Relation = ℕ → ℕ → Bool;
  GepSet = ℕ;
  value = λ v. v;
  holds = λ f. f;
  contains_gep = has;
  fdd_ithvar = one_shl;
  bvec_varfdd = λ d x y. if d == 0 then x else y;
  bvec_con = λ bits n x y. n % 2 ^ bits;
  bvec_add = λ u v x y. (u x y + v x y) % 2 ^ 2;
  bvec_equ = λ u v x y. u x y == v x y;
  bddfalse = λ x y. false;
  is_bddfalse = λ f. not (some_pair f);
  bdd_and = λ f s x y. f x y && has s x;
  bdd_relprod = image;
  bdd_replace = λ s. s;
  contains-fdd_ithvar = λ n m p. has-one_shl n m;
  value-points = λ x y p q. refl;
  value-results = λ x y p q. refl;
  value-bvec_con = λ n x y. refl;
  value-bvec_add = λ u v x y. refl;
  holds-bvec_equ = λ u v x y. refl;
  holds-bdd_and = λ f s x y. refl;
  is_bddfalse_iff = some_pair_iff;
  contains_gep-bdd_relprod = image_iff;
  contains-bdd_replace = λ g y. refl;
}
