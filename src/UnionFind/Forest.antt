-- ===== src/UnionFind/Forest.antt =====
-- The invariant of the union-find structure: the parents make no cycle, and no rank overflows.
use ptranalysis.Common.{
  ℕ, zero, suc, ◌+◌, ◌≤◌, ◌<◌, ◌≡◌, refl, true, false, List, [], ◌∷◌, arith, leb, if◌then◌else◌,
  set, length, replicate, length-replicate, get_or-replicate,
}
use ptranalysis.UnionFind.{node_rank_min, rep, is_rep}

-- The number of nodes that were merged into another one.
pub merged : List ℕ → ℕ
merged [] = 0
merged (r ∷ rs) = (if leb node_rank_min r then 0 else 1) + merged rs

pub merged-set :
    (reps : List ℕ) (n r : ℕ)
    → n < length reps
    → merged (set reps n r) + (if is_rep reps n then 0 else 1)
      ≡ merged reps + (if leb node_rank_min r then 0 else 1)
unfolding merged
merged-set [] n r h = absurd (omega arith)
merged-set (x ∷ reps) zero r h = omega arith
merged-set (x ∷ reps) (suc n) r h = omega (arith, merged-set reps n r (omega arith))

pub merged-le : (reps : List ℕ) → merged reps ≤ length reps
unfolding merged
merged-le [] = omega arith
merged-le (x ∷ reps) = ground (arith, merged-le reps)

-- A list with a representative in it is not merged as a whole.
pub merged-lt :
    (reps : List ℕ) (n : ℕ) → n < length reps → is_rep reps n ≡ true → merged reps < length reps
unfolding merged
merged-lt [] n h e = absurd (omega arith)
merged-lt (x ∷ reps) zero h e = ground (arith, merged-le reps)
merged-lt (x ∷ reps) (suc n) h e = ground (arith, merged-lt reps n (omega arith) e)

-- `depth` falls from a node to its parent.
pub record IsForest (reps : List ℕ) : Type 0 where
  pub room : length reps ≤ 0x0fffffff
  pub depth : ℕ → ℕ
  pub bounded : (n : ℕ) → n < length reps → depth n ≤ merged reps
  pub roots : (n : ℕ) → n < length reps → is_rep reps n ≡ true → depth n ≡ 0
  pub parents :
      (n : ℕ)
      → n < length reps
      → is_rep reps n ≡ false
      → (rep reps n < length reps) × (depth (rep reps n) < depth n)
  pub ranks :
      (n : ℕ) → n < length reps → is_rep reps n ≡ true → rep reps n ≤ node_rank_min + merged reps

merged-replicate : (k : ℕ) → merged (replicate k node_rank_min) ≡ 0
unfolding merged
merged-replicate zero = refl
merged-replicate (suc k) = omega (arith, merged-replicate k)

-- New nodes, each with the lowest rank.
pub new-IsForest : (k : ℕ) → k ≤ 0x0fffffff → IsForest (replicate k node_rank_min)
new-IsForest k h = record {
  room = omega (arith, length-replicate k node_rank_min);
  depth = λ n. 0;
  bounded = λ n p. omega arith;
  roots = λ n p e. refl;
  parents = λ n p e. absurd (ground (arith, get_or-replicate k node_rank_min n, e));
  ranks = λ n p e. omega (arith, get_or-replicate k node_rank_min n);
}
