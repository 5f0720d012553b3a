-- ===== src/UnionFind.antt =====
-- The union-find structure of include/anders.h and anders/cons_opt.cpp, over the `rep` fields of the
-- nodes: below `node_rank_min` a field is another node of the set, else the rank of its representative.
pub mod Forest
pub mod Find
pub mod Merge
use ptranalysis.Common.{
  ℕ, zero, suc, ◌+◌, ◌%◌, ◌^◌, Bool, true, false, List, [], ◌∷◌, ltb, leb, ◌==◌, if◌then◌else◌,
  get_or, set, length,
}

abbrev pub node_rank_min : ℕ
node_rank_min = 0xf0000000

-- `nodes[n]->rep`, behind the bounds that the callers keep.
abbrev pub rep : List ℕ → ℕ → ℕ
rep reps n = get_or reps n node_rank_min

abbrev pub is_rep : List ℕ → ℕ → Bool
is_rep reps n = leb node_rank_min (rep reps n)

-- The fields after the path compression, and the representative.
unfoldable pub find : ℕ → List ℕ → ℕ → List ℕ × ℕ
find zero reps n = (reps, n)
find (suc fuel) reps n =
    let rest = find fuel reps (rep reps n) in
    if is_rep reps n then (reps, n) else (set rest.0 n rest.1, rest.1)

-- A path is shorter than the number of nodes.
unfoldable pub get_node_rep : List ℕ → ℕ → List ℕ × ℕ
unfolding find
get_node_rep reps n = find (suc (length reps)) reps n

unfoldable pub walk : ℕ → List ℕ → ℕ → ℕ
walk zero reps n = n
walk (suc fuel) reps n = let r = walk fuel reps (rep reps n) in if is_rep reps n then n else r

unfoldable pub cget_node_rep : List ℕ → ℕ → ℕ
unfolding walk
cget_node_rep reps n = walk (suc (length reps)) reps n

-- The union of two representatives: the fields after it, the parent and the child.
unfoldable pub unite : List ℕ → ℕ → ℕ → List ℕ × ℕ × ℕ
unite reps n1 n2 =
    if ltb (rep reps n1) (rep reps n2)
    then (set reps n1 n2, n2, n1)
    else if rep reps n1 == rep reps n2
    then (set (set reps n1 ((rep reps n1 + 1) % 2 ^ 32)) n2 n1, n1, n2)
    else (set reps n2 n1, n1, n2)
