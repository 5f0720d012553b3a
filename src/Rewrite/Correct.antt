-- ===== src/Rewrite/Correct.antt =====
-- The rewritten constraints are the old ones between representatives, each once.
use ptranalysis.Common.{
  ℕ, Bool, true, false, not, ◌&&◌, ◌||◌, ◌≡◌, ◌<◌, List, [], ◌∷◌, refl, ap, ◌∙◌, if◌then◌else◌,
  arith, length, Bool-cases, inl, inr,
}
use ptranalysis.Constraint.{Constraint, equal}
use ptranalysis.Constraint.Order.{equal_iff}
use ptranalysis.UnionFind.{cget_node_rep, get_node_rep}
use ptranalysis.UnionFind.Forest.{IsForest}
use ptranalysis.UnionFind.Find.{Keeps, Keeps-trans, Keeps-refl, get_node_rep_lem}
use ptranalysis.Rewrite.{
  contains, is_addr_of, is_useful, rewrite_one, rewrite_loop, rewrite_ptr_eq, rewrite_hcd,
}

-- A constraint between representatives; what an address is taken of stays.
abbrev pub rewritten : List ℕ → Constraint → Constraint
rewritten reps c = record c {
  dest = cget_node_rep reps c.dest;
  src = if is_addr_of c then c.src else cget_node_rep reps c.src;
}

-- Is `d` one of the constraints, between representatives, that are on pointers and useful?
unfoldable pub wanted : (ℕ → Bool) → List ℕ → Constraint → List Constraint → Bool
unfolding equal
wanted nonptr reps d [] = false
wanted nonptr reps d (c ∷ cs) =
    (not (nonptr c.dest || nonptr c.src)
      && is_useful (rewritten reps c)
      && equal d (rewritten reps c))
    || wanted nonptr reps d cs

-- The nodes of all constraints are there.
abbrev pub AllInRange : ℕ → List Constraint → Type 0
AllInRange n [] = Unit {0}
AllInRange n (c ∷ cs) = (c.dest < n) × (c.src < n) × AllInRange n cs

-- No constraint stands in the list twice.
abbrev pub IsDistinct : List Constraint → Type 0
IsDistinct [] = Unit {0}
IsDistinct (c ∷ cs) = (contains c cs ≡ false) × IsDistinct cs

rewrite_one_lem :
    (reps : List ℕ) (c : Constraint)
    → IsForest reps
    → c.dest < length reps
    → c.src < length reps
    → ((rewrite_one reps c).1 ≡ rewritten reps c) × Keeps reps (rewrite_one reps c).0
unfolding rewrite_one
rewrite_one_lem reps c f p q =
    let (e, k) = get_node_rep_lem reps c.dest f p in
    elim (Bool-cases (is_addr_of c)) [
      | inl addr ↦ rw addr (ap (λ (d : ℕ). record c { dest = d }) e, k)
      | inr other ↦
          let (e', k') =
            get_node_rep_lem (get_node_rep reps c.dest).0 c.src k.forest
              (omega (arith, k.same_length)) in
          let s = e' ∙ k.same_rep c.src q in
          rw other (
            ap
                  (λ (d : ℕ). record c {
                    dest = d;
                    src = (get_node_rep (get_node_rep reps c.dest).0 c.src).1;
                  })
                  e
                ∙ ap (λ (x : ℕ). record c { dest = cget_node_rep reps c.dest; src = x }) s,
            Keeps-trans k k',
          )
    ]

rewritten-same :
    (reps t : List ℕ) (c : Constraint)
    → Keeps reps t
    → c.dest < length reps
    → c.src < length reps
    → rewritten t c ≡ rewritten reps c
rewritten-same reps t c k p q = ground (arith, k.same_rep c.dest p, k.same_rep c.src q)

-- What the loop makes of the constraints `cs`, when those of `seen` are pushed already.
pub record Rewritten (nonptr : ℕ → Bool) (reps : List ℕ) (seen cs : List Constraint)
    (result : List ℕ × List Constraint) : Type 0 where
  pub keeps : Keeps reps result.0
  pub listed :
      (d : Constraint)
      → contains d seen || contains d result.1 ≡ contains d seen || wanted nonptr reps d cs
  pub fresh : (d : Constraint) → contains d result.1 ≡ true → contains d seen ≡ false
  pub distinct : IsDistinct result.1

equal_refl : (c : Constraint) → equal c c ≡ true
equal_refl c = (equal_iff c c).1 refl

-- Equal constraints are contained in the same lists.
contains-equal :
    (c d : Constraint) (cs : List Constraint) → equal c d ≡ true → contains c cs ≡ contains d cs
contains-equal c d cs e = ap (λ (x : Constraint). contains x cs) ((equal_iff c d).0 e)

module _ (nonptr : ℕ → Bool) (reps : List ℕ) (seen cs : List Constraint) (c : Constraint)
    (result : List ℕ × List Constraint) where
  ignored-Rewritten :
      nonptr c.dest || nonptr c.src ≡ true
      → Rewritten nonptr reps seen cs result
      → Rewritten nonptr reps seen (c ∷ cs) result
  unfolding wanted
  ignored-Rewritten e r = record {
    keeps = r.keeps;
    listed = λ d. ground (arith, r.listed d, e);
    fresh = r.fresh;
    distinct = r.distinct;
  }

  module _ (live : nonptr c.dest || nonptr c.src ≡ false) where
    useless-Rewritten :
        is_useful (rewritten reps c) ≡ false
        → Rewritten nonptr reps seen cs result
        → Rewritten nonptr reps seen (c ∷ cs) result
    unfolding wanted
    useless-Rewritten e r = record {
      keeps = r.keeps;
      listed = λ d. ground (arith, r.listed d, e);
      fresh = r.fresh;
      distinct = r.distinct;
    }

    again-Rewritten :
        contains (rewritten reps c) seen ≡ true
        → Rewritten nonptr reps seen cs result
        → Rewritten nonptr reps seen (c ∷ cs) result
    unfolding wanted
    again-Rewritten e r = record {
      keeps = r.keeps;
      listed = λ d. ground (arith, r.listed d, e, live, contains-equal d (rewritten reps c) seen);
      fresh = r.fresh;
      distinct = r.distinct;
    }

    kept-Rewritten :
        is_useful (rewritten reps c) ≡ true
        → contains (rewritten reps c) seen ≡ false
        → Rewritten nonptr reps (rewritten reps c ∷ seen) cs result
        → Rewritten nonptr reps seen (c ∷ cs) (result.0, rewritten reps c ∷ result.1)
    unfolding wanted contains
    kept-Rewritten e n r = record {
      keeps = r.keeps;
      listed = λ d. ground (arith, r.listed d, e, live);
      fresh = λ d. ground (arith, r.fresh d, n, contains-equal d (rewritten reps c) seen);
      distinct =
          (ground (arith, r.fresh (rewritten reps c), equal_refl (rewritten reps c)), r.distinct);
    }

loop-Rewritten :
    (nonptr : ℕ → Bool) (reps t : List ℕ) (seen cs : List Constraint)
    → Keeps reps t
    → AllInRange (length reps) cs
    → Rewritten nonptr reps seen cs (rewrite_loop nonptr t seen cs)
unfolding rewrite_loop
loop-Rewritten nonptr reps t seen [] k a = record {
  keeps = k;
  listed = λ d. unfold wanted contains in refl;
  fresh = λ d h. absurd (unfold contains in cc h);
  distinct = tt;
}
loop-Rewritten nonptr reps t seen (c ∷ cs) k (p, q, a) =
    elim (Bool-cases (nonptr c.dest || nonptr c.src)) [
      | inl e ↦
          rw e
            (ignored-Rewritten nonptr reps seen cs c _ e (loop-Rewritten nonptr reps t seen cs k a))
      | inr live ↦
          let (one, k1) =
            rewrite_one_lem t c k.forest (omega (arith, k.same_length))
              (omega (arith, k.same_length)) in
          let d : (rewrite_one t c).1 ≡ rewritten reps c = one ∙ rewritten-same reps t c k p q in
          let k2 = Keeps-trans k k1 in
          elim (Bool-cases (is_useful (rewritten reps c))) [
            | inl useful ↦ elim (Bool-cases (contains (rewritten reps c) seen)) [
              | inl old ↦
                  rw (live, ap is_useful d ∙ useful, d, old)
                    (again-Rewritten nonptr reps seen cs c _ live old
                      (loop-Rewritten nonptr reps (rewrite_one t c).0 seen cs k2 a))
              | inr n ↦
                  rw (live, ap is_useful d ∙ useful, d, n)
                    (kept-Rewritten nonptr reps seen cs c _ live useful n (
                      loop-Rewritten nonptr reps (rewrite_one t c).0 (rewritten reps c ∷ seen) cs k2
                        a))
            ]
            | inr useless ↦
                rw (live, ap is_useful d ∙ useless)
                  (useless-Rewritten nonptr reps seen cs c _ live useless
                    (loop-Rewritten nonptr reps (rewrite_one t c).0 seen cs k2 a))
          ]
    ]

-- In a forest, and for constraints on nodes that are there, merge_ptr_eq leaves exactly the
-- constraints on pointers, each once, rewritten to the representatives (the source of an addr_of
-- stays), without copies of a node to itself; every node keeps its representative.
pub rewrite_ptr_eq_lem :
    (nonptr : ℕ → Bool) (reps : List ℕ) (cs : List Constraint)
    → IsForest reps
    → AllInRange (length reps) cs
    → Keeps reps (rewrite_ptr_eq nonptr reps cs).0
      × ((d : Constraint) → contains d (rewrite_ptr_eq nonptr reps cs).1 ≡ wanted nonptr reps d cs)
      × IsDistinct (rewrite_ptr_eq nonptr reps cs).1
unfolding rewrite_ptr_eq
rewrite_ptr_eq_lem nonptr reps cs f a =
    let r = loop-Rewritten nonptr reps reps [] cs (Keeps-refl reps f) a in
    (r.keeps, λ d. unfold contains in r.listed d, r.distinct)

-- In a forest, and for constraints on nodes that are there, hcd leaves exactly the constraints, each
-- once, rewritten to the representatives (the source of an addr_of stays), without copies of a node to
-- itself; every node keeps its representative.
pub rewrite_hcd_lem :
    (reps : List ℕ) (cs : List Constraint)
    → IsForest reps
    → AllInRange (length reps) cs
    → Keeps reps (rewrite_hcd reps cs).0
      × ((d : Constraint) → contains d (rewrite_hcd reps cs).1 ≡ wanted (λ n. false) reps d cs)
      × IsDistinct (rewrite_hcd reps cs).1
unfolding rewrite_hcd
rewrite_hcd_lem reps cs f a =
    let r = loop-Rewritten (λ n. false) reps reps [] cs (Keeps-refl reps f) a in
    (r.keeps, λ d. unfold contains in r.listed d, r.distinct)
