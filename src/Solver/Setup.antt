-- ===== src/Solver/Setup.antt =====
-- How the solver begins: solve_init of anders/solve.cpp.
use ptranalysis.Common.{
  ℕ, zero, suc, Bool, not, ◌&&◌, Option, none, some, List, [], ◌∷◌, ◌++◌, ltb, ◌==◌, if◌then◌else◌,
  set, length,
}
use ptranalysis.Constraint.{
  Constraint, ConsType, addr_of_cons, copy_cons, load_cons, store_cons, gep_cons,
}
use ptranalysis.UnionFind.{get_node_rep, is_rep}
use ptranalysis.Graph.{Sets, Node, node}
use ptranalysis.Bitmap.Vector
use ptranalysis.Worklist
use ptranalysis.Worklist.{Worklist}
use ptranalysis.Solver.{State}
use ptranalysis.Solver.Variables.{Vars}
use ptranalysis.Solver.Offsets.{get_node_var}

module _ (S : Sets) (vars : Vars S) where
  -- `ncplx` is the length of `cplx_cons`.
  pub record Setup : Type 0 where
    pub nodes : List (Node S)
    pub reps : List ℕ
    pub cplx_cons : List Constraint
    pub node_vars : List S.NodeSet

  -- The switch on the type of a constraint, between the representatives `dest` and `src`; `none` is a
  -- failed assertion, or an access outside the cache of fdd_ithvar.
  unfoldable pub place : ℕ → ConsType → Constraint → ℕ → ℕ → Setup → Option Setup
  place npts addr_of_cons c dest src s =
      if ltb src npts
      then elim (get_node_var S vars s.node_vars src) [
        | none ↦ none
        | some (node_vars, b) ↦
            let d = node S s.nodes dest in
            some (record s {
              nodes = set s.nodes dest (record d { points_to = S.bdd_or d.points_to b });
              node_vars = node_vars;
            })
      ]
      else none
  place npts copy_cons c dest src s =
      if src == dest
      then none
      else (let n = node S s.nodes src in
          some (record s {
            nodes = set s.nodes src (record n { copy_to = Vector.set n.copy_to dest });
          }))
  place npts load_cons c dest src s =
      let n = node S s.nodes src in
      some (record s {
        nodes = set s.nodes src (record n { load_to = Vector.set n.load_to (length s.cplx_cons) });
        cplx_cons = s.cplx_cons ++ c ∷ [];
      })
  place npts store_cons c dest src s =
      let n = node S s.nodes dest in
      some (record s {
        nodes =
            set s.nodes dest
              (record n { store_from = Vector.set n.store_from (length s.cplx_cons) });
        cplx_cons = s.cplx_cons ++ c ∷ [];
      })
  place npts gep_cons c dest src s =
      let n = node S s.nodes src in
      some (record s {
        nodes = set s.nodes src (record n { gep_to = Vector.set n.gep_to (length s.cplx_cons) });
        cplx_cons = s.cplx_cons ++ c ∷ [];
      })

  unfoldable pub place_loop : ℕ → List Constraint → Setup → Option Setup
  unfolding place
  place_loop npts [] s = some s
  place_loop npts (c ∷ cs) s =
      let (r1, dest) = get_node_rep s.reps c.dest in
      let (r2, src) = get_node_rep r1 c.src in
      elim (place npts c.kind c dest src (record s { reps = r2 })) [
        | none ↦ none
        | some t ↦ place_loop npts cs t
      ]

  -- Does the node point to something, and have outgoing constraints?
  abbrev pub starts : Node S → Bool
  starts n =
      not (S.same n.points_to S.bddfalse)
      && not (
          Vector.empty n.copy_to
          && Vector.empty n.load_to
          && Vector.empty n.store_from
          && Vector.empty n.gep_to)

  -- The loop over the `fuel` nodes from `i` on, with the nodes and the worklist.
  unfoldable pub push_loop : List ℕ → ℕ → ℕ → List (Node S) → Worklist → List (Node S) × Worklist
  push_loop reps zero i nodes w = (nodes, w)
  push_loop reps (suc fuel) i nodes w =
      let n = node S nodes i in
      let next = if is_rep reps i then set nodes i (record n { vtime = 0 }) else nodes in
      let wl = if is_rep reps i && starts n then Worklist.push w i 0 else w in
      push_loop reps fuel (suc i) next wl

  -- The state when the solver begins, and `cplx_cons`.
  unfoldable pub solve_init : ℕ → List Constraint → Setup → Option (State S × List Constraint)
  unfolding place_loop push_loop
  solve_init npts cs s = elim (place_loop npts cs (record s { cplx_cons = [] })) [
    | none ↦ none
    | some t ↦
        let nn = length t.nodes in
        let (nodes, w) = push_loop t.reps nn 0 t.nodes (Worklist.new nn) in
        some (
          record {
            nodes = nodes;
            reps = t.reps;
            worklist = (Worklist.swap_if_empty w).0;
            n_node_runs = 0;
            vtime = 1;
            lcd_edges = [];
            lcd_starts = [];
          },
          t.cplx_cons,
        )
  ]
