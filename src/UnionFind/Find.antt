-- ===== src/UnionFind/Find.antt =====
-- `get_node_rep` finds the representative that the walk without path compression finds, and the
-- compression changes no representative.
use ptranalysis.Common.{
  ℕ, zero, suc, ◌<◌, ◌≡◌, refl, sym, ◌∙◌, ap, true, false, List, arith, leb, ◌==◌, if◌then◌else◌,
  set, length, length-set, get_or-set, Bool-cases, inl, inr, ℕ_discrete, subst,
}
use ptranalysis.UnionFind.{node_rank_min, rep, is_rep, find, get_node_rep, walk, cget_node_rep}
use ptranalysis.UnionFind.Forest.{merged, merged-set, merged-le, IsForest}

module _ (reps : List ℕ) (f : IsForest reps) where
  -- With more fuel than the depth the walk ends at a representative.
  walk_ends :
      (fuel n : ℕ)
      → n < length reps
      → f.depth n < fuel
      → (walk fuel reps n < length reps) × (is_rep reps (walk fuel reps n) ≡ true)
  unfolding walk
  walk_ends zero n p h = absurd (omega arith)
  walk_ends (suc fuel) n p h = elim (Bool-cases (is_rep reps n)) [
    | inl root ↦ rw root (p, root)
    | inr inner ↦
        let (q, d) = f.parents n p inner in rw inner (walk_ends fuel (rep reps n) q (omega arith))
  ]

  -- Fuel beyond the depth makes no difference.
  pub walk_fuel :
      (a b n : ℕ) → n < length reps → f.depth n < a → f.depth n < b → walk a reps n ≡ walk b reps n
  unfolding walk
  walk_fuel zero b n p h k = absurd (omega arith)
  walk_fuel (suc a) zero n p h k = absurd (omega arith)
  walk_fuel (suc a) (suc b) n p h k = elim (Bool-cases (is_rep reps n)) [
    | inl root ↦ rw root
    | inr inner ↦
        let (q, d) = f.parents n p inner in
        rw inner (walk_fuel a b (rep reps n) q (omega arith) (omega arith))
  ]

  -- The representative of every node is a node that is its own representative.
  pub cget_ends :
      (n : ℕ)
      → n < length reps
      → (cget_node_rep reps n < length reps) × (is_rep reps (cget_node_rep reps n) ≡ true)
  unfolding cget_node_rep
  cget_ends n p = walk_ends (suc (length reps)) n p (omega (arith, f.bounded n p, merged-le reps))

  pub cget_root : (n : ℕ) → is_rep reps n ≡ true → cget_node_rep reps n ≡ n
  unfolding cget_node_rep
  cget_root n e = rw e

  pub cget_parent :
      (n : ℕ)
      → n < length reps
      → is_rep reps n ≡ false
      → cget_node_rep reps n ≡ cget_node_rep reps (rep reps n)
  unfolding cget_node_rep
  cget_parent n p e =
      let (q, d) = f.parents n p e in
      (let step : walk (suc (length reps)) reps n ≡ walk (length reps) reps (rep reps n) = rw e in
        step)
      ∙ walk_fuel (length reps) (suc (length reps)) (rep reps n) q
          (omega (arith, f.bounded n p, merged-le reps))
          (omega (arith, f.bounded n p, merged-le reps))

-- What a find keeps: every node has the representative, and every representative the rank, that
-- it had.
pub record Keeps (reps t : List ℕ) : Type 0 where
  pub forest : IsForest t
  pub same_length : length t ≡ length reps
  pub same_rep : (m : ℕ) → m < length reps → cget_node_rep t m ≡ cget_node_rep reps m
  pub same_root : (m : ℕ) → m < length reps → is_rep t m ≡ is_rep reps m
  pub same_rank : (m : ℕ) → m < length reps → is_rep reps m ≡ true → rep t m ≡ rep reps m

-- One field set to the representative.
module _ (reps : List ℕ) (f : IsForest reps) (n : ℕ) (p : n < length reps)
    (inner : is_rep reps n ≡ false) where
  abbrev r : ℕ
  r = cget_node_rep reps n

  abbrev short : List ℕ
  short = set reps n r

  rep-short : (m : ℕ) → rep short m ≡ (if m == n then r else rep reps m)
  rep-short m = ground (arith, get_or-set reps n r m node_rank_min)

  -- A node number is no rank.
  r_small : leb node_rank_min r ≡ false
  r_small = ground (arith, cget_ends reps f n p, f.room)

  merged-short : merged short ≡ merged reps
  merged-short = ground (arith, merged-set reps n r p, r_small, inner)

  short-IsForest : IsForest short
  short-IsForest = record {
    room = omega (arith, length-set reps n r, f.room);
    depth = f.depth;
    bounded = λ m q. omega (arith, length-set reps n r, f.bounded m, merged-short);
    roots = λ m q e.
        f.roots m (omega (arith, length-set reps n r)) (ground (arith, rep-short m, r_small, e));
    parents = λ m q e. elim (ℕ_discrete m n) [
      | yes same ↦
          let root = cget_ends reps f n p in
          let d : f.depth r ≡ 0 = f.roots r root.0 root.1 in
          let up = f.parents n p inner in
          ground (arith, same, rep-short m, root, d, up, length-set reps n r)
      | no other ↦ ground (arith, rep-short m, f.parents m, length-set reps n r, e)
    ];
    ranks = λ m q e.
        ground (arith, rep-short m, f.ranks m, length-set reps n r, r_small, e, merged-short);
  }

  short_same :
      (k m : ℕ) → m < length reps → f.depth m < k → cget_node_rep short m ≡ cget_node_rep reps m
  short_same zero m q h = absurd (omega arith)
  short_same (suc k) m q h = elim (ℕ_discrete m n) [
    | yes same ↦
        let root = cget_ends reps f n p in
        let at : rep short m ≡ r = ground (arith, rep-short m, same) in
        cget_parent short short-IsForest m (omega (arith, length-set reps n r))
          (ground (arith, rep-short m, same, r_small))
        ∙ ap (λ (x : ℕ). cget_node_rep short x) at
        ∙ cget_root short short-IsForest r (ground (arith, rep-short r, root, inner))
        ∙ ap (λ (x : ℕ). cget_node_rep reps x) (sym same)
    | no other ↦ elim (Bool-cases (is_rep reps m)) [
      | inl root ↦
          cget_root short short-IsForest m (ground (arith, rep-short m, root))
          ∙ sym (cget_root reps f m root)
      | inr lower ↦
          let up = f.parents m q lower in
          let at : rep short m ≡ rep reps m = ground (arith, rep-short m) in
          cget_parent short short-IsForest m (omega (arith, length-set reps n r))
            (ground (arith, rep-short m, lower))
          ∙ ap (λ (x : ℕ). cget_node_rep short x) at
          ∙ short_same k (rep reps m) up.0 (omega arith)
          ∙ sym (cget_parent reps f m q lower)
    ]
  ]

  short-Keeps : Keeps reps short
  short-Keeps = record {
    forest = short-IsForest;
    same_length = length-set reps n r;
    same_rep = λ m q. short_same (suc (f.depth m)) m q (omega arith);
    same_root = λ m q. ground (arith, rep-short m, r_small, inner);
    same_rank = λ m q e. ground (arith, rep-short m, e, inner);
  }

pub Keeps-refl : (reps : List ℕ) → IsForest reps → Keeps reps reps
Keeps-refl reps f = record {
  forest = f;
  same_length = refl;
  same_rep = λ m q. refl;
  same_root = λ m q. refl;
  same_rank = λ m q e. refl;
}

pub Keeps-trans : {a b c : List ℕ} → Keeps a b → Keeps b c → Keeps a c
Keeps-trans x y = record {
  forest = y.forest;
  same_length = y.same_length ∙ x.same_length;
  same_rep = λ m q. y.same_rep m (omega (arith, x.same_length)) ∙ x.same_rep m q;
  same_root = λ m q. y.same_root m (omega (arith, x.same_length)) ∙ x.same_root m q;
  same_rank = λ m q e.
      y.same_rank m (omega (arith, x.same_length)) (x.same_root m q ∙ e) ∙ x.same_rank m q e;
}

find_ends :
    (fuel : ℕ) (reps : List ℕ) (n : ℕ) (f : IsForest reps)
    → n < length reps
    → f.depth n < fuel
    → ((find fuel reps n).1 ≡ cget_node_rep reps n) × Keeps reps (find fuel reps n).0
unfolding find
find_ends zero reps n f p h = absurd (omega arith)
find_ends (suc fuel) reps n f p h = elim (Bool-cases (is_rep reps n)) [
  | inl root ↦ rw root (sym (cget_root reps f n root), Keeps-refl reps f)
  | inr inner ↦
      let (q, d) = f.parents n p inner in
      let (e, k) = find_ends fuel reps (rep reps n) f q (omega arith) in
      let p' : n < length (find fuel reps (rep reps n)).0 = omega (arith, k.same_length) in
      let found : (find fuel reps (rep reps n)).1 ≡ cget_node_rep reps n =
        e ∙ sym (cget_parent reps f n p inner) in
      let target : (find fuel reps (rep reps n)).1
          ≡ cget_node_rep (find fuel reps (rep reps n)).0 n =
        found ∙ sym (k.same_rep n p) in
      rw inner (
        found,
        subst (λ (x : ℕ). Keeps reps (set (find fuel reps (rep reps n)).0 n x)) (sym target)
            (Keeps-trans k (
              short-Keeps (find fuel reps (rep reps n)).0 k.forest n p' (k.same_root n p ∙ inner))),
      )
]

-- In a forest `get_node_rep` returns the representative that the const walk finds. Afterwards every
-- node has the representative that it had, every representative its rank, and the forest is one.
pub get_node_rep_lem :
    (reps : List ℕ) (n : ℕ)
    → IsForest reps
    → n < length reps
    → ((get_node_rep reps n).1 ≡ cget_node_rep reps n) × Keeps reps (get_node_rep reps n).0
unfolding get_node_rep
get_node_rep_lem reps n f p =
    find_ends (suc (length reps)) reps n f p (omega (arith, f.bounded n p, merged-le reps))
