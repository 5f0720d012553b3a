-- ===== src/Tests/Starts.antt =====
-- Runs of solve_init, anders/solve.cpp.
use ptranalysis.Common.{
  ℕ, ◌≡◌, ◌∙◌, refl, sym, ap, some, List, [], ◌∷◌, arith, length, replicate, get_or-replicate,
  subst, inl,
}
use ptranalysis.Common.Bits.{has, has-zero}
use ptranalysis.Bitmap.Laws.{member}
use ptranalysis.Bitmap.Algebra.{new-member}
use ptranalysis.Constraint.{Constraint, addr_of_cons, copy_cons}
use ptranalysis.UnionFind.{node_rank_min, cget_node_rep}
use ptranalysis.UnionFind.Forest.{new-IsForest}
use ptranalysis.Graph.{Node, new, node}
use ptranalysis.Graph.Merging.{IsNode}
use ptranalysis.Solver.{State}
use ptranalysis.Solver.Setup.{Setup, solve_init}
use ptranalysis.Solver.Placed.{AllAllowed}
use ptranalysis.Solver.Begin.{Begun, solve_init_lem}
use ptranalysis.Tests.Graphs.{masks}
use ptranalysis.Tests.Domains.{mask_vars}
use ptranalysis.Tests.Visits.{load_2}

-- Node 2 points to node 3, which is copied to node 0, and there is a load from node 2.
abbrev some_cons : List Constraint
some_cons =
    record { kind = addr_of_cons; dest = 2; src = 3; off = 0 }
    ∷ record { kind = copy_cons; dest = 0; src = 2; off = 0 }
    ∷ load_2
    ∷ []

abbrev new_graph : Setup masks mask_vars
new_graph = record {
  nodes = replicate 4 (new masks);
  reps = replicate 4 node_rank_min;
  cplx_cons = [];
  node_vars = replicate 4 0;
}

node-new_graph : (m : ℕ) → node masks new_graph.nodes m ≡ new masks
node-new_graph m = get_or-replicate 4 (new masks) m

new-IsNode : IsNode masks (new masks)
new-IsNode = record {
  copy_ok = new-member.ok;
  load_ok = new-member.ok;
  store_ok = new-member.ok;
  gep_ok = new-member.ok;
}

some_cons-AllAllowed : AllAllowed masks mask_vars 4 (length new_graph.reps) new_graph.reps some_cons
unfolding cget_node_rep
some_cons-AllAllowed = (
  omega arith,
  omega arith,
  omega arith,
  (omega arith, omega arith, refl, (omega arith, omega arith, tt, tt)),
)

solve_init_lem_example :
    (st : State masks) × (cplx : List Constraint) × (solve_init masks mask_vars 4 some_cons
        new_graph
      ≡ some (st, cplx))
    × Begun masks mask_vars some_cons new_graph st cplx
solve_init_lem_example =
    solve_init_lem masks mask_vars 4 some_cons new_graph (new-IsForest 4 (omega arith)) refl
      (λ m p. subst (IsNode masks) (sym (node-new_graph m)) new-IsNode)
      (λ m k. ap (λ (n : Node masks). has n.prev_points_to k) (node-new_graph m) ∙ has-zero k)
      (λ m d p h. absurd (
        cc (
          ap (λ (n : Node masks). member n.copy_to d) (node-new_graph m) ∙ new-member.decides d,
          h,
        )))
      (record {
        room = omega arith;
        entries = λ n. inl (ap (λ (b : ℕ). masks.same b 0) (get_or-replicate 4 0 n));
      })
      (omega arith) some_cons-AllAllowed
