-- ===== src/Rewrite.antt =====
-- anders/cons_opt.cpp: merge_ptr_eq and hcd rewrite the constraints to refer to the representatives,
-- without duplicates and copies of a node to itself.
pub mod Correct
use ptranalysis.Common.{ℕ, Bool, true, false, not, ◌&&◌, ◌||◌, List, [], ◌∷◌, ◌==◌, if◌then◌else◌}
use ptranalysis.Constraint.{Constraint, rank, addr_of_cons, copy_cons, equal}
use ptranalysis.UnionFind.{get_node_rep}

-- `cons_seen.count(c)`, as a test.
unfoldable pub contains : Constraint → List Constraint → Bool
unfolding equal
contains c [] = false
contains c (x ∷ xs) = equal c x || contains c xs

abbrev pub is_addr_of : Constraint → Bool
is_addr_of c = rank c.kind == rank addr_of_cons

-- Not a copy of a node to itself.
abbrev pub is_useful : Constraint → Bool
is_useful c = not (rank c.kind == rank copy_cons) || not (c.dest == c.src)

-- The `rep` fields after the call, and the constraint between representatives.
unfoldable pub rewrite_one : List ℕ → Constraint → List ℕ × Constraint
rewrite_one reps c =
    let (r1, dest) = get_node_rep reps c.dest in
    let (r2, src) = if is_addr_of c then (r1, c.src) else get_node_rep r1 c.src in
    (r2, record c { dest = dest; src = src })

-- The loop over the old constraints: the `rep` fields, and the constraints that it pushes back.
unfoldable pub rewrite_loop :
    (ℕ → Bool) → List ℕ → List Constraint → List Constraint → List ℕ × List Constraint
unfolding rewrite_one contains
rewrite_loop nonptr reps seen [] = (reps, [])
rewrite_loop nonptr reps seen (c ∷ cs) =
    let ignored = nonptr c.dest || nonptr c.src in
    let (r, d) = rewrite_one reps c in
    let kept = is_useful d && not (contains d seen) in
    let rest =
      rewrite_loop nonptr (if ignored then reps else r)
        (if ignored then seen else if kept then d ∷ seen else seen) cs in
    if ignored then rest else if kept then (rest.0, d ∷ rest.1) else rest

-- The loop of merge_ptr_eq, which ignores constraints on nodes marked as non-pointers.
unfoldable pub rewrite_ptr_eq : (ℕ → Bool) → List ℕ → List Constraint → List ℕ × List Constraint
unfolding rewrite_loop
rewrite_ptr_eq nonptr reps cs = rewrite_loop nonptr reps [] cs

-- The loop of hcd.
unfoldable pub rewrite_hcd : List ℕ → List Constraint → List ℕ × List Constraint
unfolding rewrite_loop
rewrite_hcd reps cs = rewrite_loop (λ n. false) reps [] cs
