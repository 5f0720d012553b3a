-- ===== src/Solver.antt =====
-- A visit of a node by the solver, anders/solve.cpp: the propagation along its copy edges. The nodes
-- are those of Graph, with their `rep` fields apart, as in UnionFind.
pub mod Propagate
pub mod Flow
pub mod Variables
pub mod Complex
pub mod Edges
pub mod Members
pub mod Constraints
pub mod Geps
pub mod Offsets
pub mod Expand
pub mod Expanded
pub mod Vectors
pub mod Masks
pub mod Prepared
pub mod Fields
pub mod Setup
pub mod Start
pub mod Placed
pub mod Begin
use ptranalysis.Common.{
  ℕ, ◌+◌, ◌%◌, ◌^◌, Bool, true, false, not, ◌&&◌, ◌||◌, Option, none, some, List, [], ◌∷◌, ◌==◌,
  if◌then◌else◌, set,
}
use ptranalysis.Common.IdSet
use ptranalysis.Constraint.{Constraint}
use ptranalysis.UnionFind.{get_node_rep}
use ptranalysis.Graph.{Sets, Node, node}
use ptranalysis.Worklist
use ptranalysis.Worklist.{Worklist}
use ptranalysis.Bitmap.Iterator.{Builtins, iterate}

pub record State (S : Sets) : Type 0 where
  pub nodes : List (Node S)
  pub reps : List ℕ
  pub worklist : Worklist
  pub n_node_runs : ℕ
  pub vtime : ℕ
  pub lcd_edges : List (ℕ × ℕ)
  pub lcd_starts : List ℕ

-- `lcd_edges.count(pair(n, dest))`
abbrev pub count_edge : ℕ → ℕ → List (ℕ × ℕ) → Bool
count_edge n dest [] = false
count_edge n dest (e ∷ es) = (n == e.0 && dest == e.1) || count_edge n dest es

module _ (S : Sets) where
  -- How solve_node begins: the state, and what is new in the points-to set of the node; `none` is
  -- the early return.
  unfoldable pub start_visit : State S → ℕ → State S × Option S.NodeSet
  start_visit st n =
      let visited = record (node S st.nodes n) { vtime = st.vtime } in
      let counted = record st {
        nodes = set st.nodes n visited;
        n_node_runs = (st.n_node_runs + 1) % 2 ^ 32;
        vtime = (st.vtime + 1) % 2 ^ 32;
      } in
      let d_points_to = S.bdd_diff visited.points_to visited.prev_points_to in
      if S.same d_points_to S.bddfalse then (counted, none) else (
        record counted {
          nodes = set st.nodes n (record visited { prev_points_to = visited.points_to });
        },
        some d_points_to,
      )

  -- The first time that `n` and `dest` have equal points-to sets, a cycle check is asked for.
  unfoldable pub check_cycle : State S → ℕ → ℕ → State S
  check_cycle st n dest =
      if not (count_edge n dest st.lcd_edges)
        && not (S.same (node S st.nodes n).points_to S.bddfalse)
      then if S.same (node S st.nodes n).points_to (node S st.nodes dest).points_to
        then record st {
          lcd_edges = (n, dest) ∷ st.lcd_edges;
          lcd_starts = IdSet.insert n st.lcd_starts;
        }
        else st
      else st

  -- `D->points_to |= pts`, and a push of `dest` if that changed it.
  unfoldable pub grow : State S → ℕ → S.NodeSet → State S
  grow st dest pts =
      let d = node S st.nodes dest in
      let points_to = S.bdd_or d.points_to pts in
      let grown = record st { nodes = set st.nodes dest (record d { points_to = points_to }) } in
      if not (S.same points_to d.points_to)
      then record grown { worklist = Worklist.push st.worklist dest d.vtime }
      else grown

  -- The round of the loop for the copy edge to `dest0`, with `copy_seen`.
  unfoldable pub prop_edge : ℕ → S.NodeSet → ℕ → State S → List ℕ → State S × List ℕ
  unfolding check_cycle grow
  prop_edge n d_points_to dest0 st seen =
      let (reps, dest) = get_node_rep st.reps dest0 in
      let found = record st { reps = reps } in
      if dest == n || IdSet.contains dest seen
      then (found, seen)
      else (grow (check_cycle found n dest) dest d_points_to, IdSet.insert dest seen)

  -- The loop over the copy edges; `none` is the failed assertion that there is no self-loop.
  unfoldable pub prop_loop : ℕ → S.NodeSet → List ℕ → State S → List ℕ → Option (State S)
  unfolding prop_edge
  prop_loop n d_points_to [] st seen = some st
  prop_loop n d_points_to (dest0 ∷ dests) st seen =
      let (next, more) = prop_edge n d_points_to dest0 st seen in
      let rest = prop_loop n d_points_to dests next more in if dest0 == n then none else rest

  -- `copy_to` of the node does not change in the loop.
  unfoldable pub solve_prop : Builtins → ℕ → S.NodeSet → State S → Option (State S)
  unfolding prop_loop
  solve_prop cpu n d_points_to st = elim (iterate cpu (node S st.nodes n).copy_to) [
    | none ↦ none
    | some dests ↦ prop_loop n d_points_to dests st []
  ]
