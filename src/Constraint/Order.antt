-- ===== src/Constraint/Order.antt =====
-- The comparison operators of a constraint are those of one strict total order.
use ptranalysis.Common.{
  if◌then◌else◌, sym, ◌∙◌, ℕ, ◌≡◌, ◌↔◌, ◌⊎◌, refl, ap, true, false, ◌||◌, arith, ◌==◌,
}
use ptranalysis.Constraint.{
  ConsType, addr_of_cons, copy_cons, load_cons, store_cons, gep_cons, rank, Constraint, equal, less,
  greater, differs, at_least, at_most,
}

-- The type with a given value.
of_rank : ℕ → ConsType
of_rank n =
    if n == 0
    then addr_of_cons
    else if n == 1
    then copy_cons
    else if n == 2
    then load_cons
    else if n == 3
    then store_cons
    else gep_cons

of_rank-rank : (k : ConsType) → of_rank (rank k) ≡ k
unfolding of_rank
of_rank-rank addr_of_cons = refl
of_rank-rank copy_cons = refl
of_rank-rank load_cons = refl
of_rank-rank store_cons = refl
of_rank-rank gep_cons = refl

rank-injective : (j k : ConsType) → rank j ≡ rank k → j ≡ k
rank-injective j k e = sym (of_rank-rank j) ∙ ap of_rank e ∙ of_rank-rank k

-- `==` holds exactly between a constraint and itself.
pub equal_iff : (a b : Constraint) → (equal a b ≡ true) ↔ (a ≡ b)
unfolding equal
equal_iff a b = (
  λ h. ground (arith, rank-injective a.kind b.kind),
  λ h. ground (arith, ap (λ (c : Constraint). rank c.kind) h),
)

-- Of two constraints the first is less, or they are equal, or the second is less, and only one of
-- these holds.
pub less_total :
    (a b : Constraint)
    → ((less a b ≡ true) × (equal a b ≡ false) × (less b a ≡ false))
      ⊎ ((less a b ≡ false) × (equal a b ≡ true) × (less b a ≡ false))
      ⊎ ((less a b ≡ false) × (equal a b ≡ false) × (less b a ≡ true))
unfolding less equal
less_total a b = ground arith

-- `<` is transitive.
pub less_trans : (a b c : Constraint) → less a b ≡ true → less b c ≡ true → less a c ≡ true
unfolding less
less_trans a b c p q = ground arith

-- `>`, `<=`, `>=` and `!=` agree with `<` and `==`.
pub operators_agree :
    (a b : Constraint)
    → (greater a b ≡ less b a)
      × (at_most a b ≡ less a b || equal a b)
      × (at_least a b ≡ less b a || equal a b)
      × (differs a b ≡ less a b || less b a)
unfolding greater at_most at_least differs less equal
operators_agree a b = ground arith
