-- ===== src/Solver/Complex.antt =====
-- The complex constraints in a visit of a node, anders/solve.cpp: solve_ls_cons and solve_ls_off for
-- constraints of no indirect call, and solve_gep_cons.
use ptranalysis.Common.{
  ℕ, ◌+◌, Bool, true, false, not, ◌&&◌, ◌||◌, Option, none, some, List, [], ◌∷◌, ltb, ◌==◌,
  if◌then◌else◌, get_or, length,
}
use ptranalysis.Constraint.{Constraint, rank, load_cons, store_cons, gep_cons}
use ptranalysis.UnionFind.{get_node_rep, is_rep}
use ptranalysis.Graph.{Sets, node, add_copy_edge}
use ptranalysis.Rewrite.{contains}
use ptranalysis.Worklist
use ptranalysis.Solver.{State, grow}
use ptranalysis.Solver.Variables.{Vars}
use ptranalysis.Solver.Expand.{SatBit, bdd2vec}

-- What pts_init has prepared, with the domains of the BDD library, and the vectors that bdd_allsat passes
-- on for a set.
pub record Domain (S : Sets) : Type 1 where
  pub vars : Vars S
  pub bdd_allsat : S.NodeSet → List (List SatBit)
  pub off_mask : List S.NodeSet
  pub geps : List vars.Relation
  pub func_node_set : ℕ → Bool

-- What a constraint comes to: the state, `cons_seen`, the constraint with its representatives, and
-- whether it became redundant.
pub record Solved (S : Sets) : Type 0 where
  pub state : State S
  pub cons_seen : List Constraint
  pub cons : Constraint
  pub redundant : Bool

module _ (S : Sets) where
  -- `WL->push(n, nodes[n]->vtime)`
  unfoldable pub push_node : State S → ℕ → State S
  push_node st n = record st { worklist = Worklist.push st.worklist n (node S st.nodes n).vtime }

  unfoldable pub add_edge : State S → ℕ → ℕ → State S × Bool
  add_edge st src dest =
      let (nodes, changed) = add_copy_edge S st.nodes src dest in
      (record st { nodes = nodes }, changed)

  unfoldable pub add_edge_push : State S → ℕ → ℕ → State S
  unfolding add_edge push_node
  add_edge_push st src dest =
      let (t, changed) = add_edge st src dest in if changed then push_node t dest else t

  -- `get_node_rep` on the state.
  abbrev pub find_rep : State S → ℕ → State S × ℕ
  find_rep st n = let (reps, r) = get_node_rep st.reps n in (record st { reps = reps }, r)

  -- An edge to `dest` from each of the nodes, and whether `dest` gained by it.
  unfoldable pub load_loop : ℕ → List ℕ → State S → Bool → State S × Bool
  unfolding add_edge
  load_loop dest [] st chg = (st, chg)
  load_loop dest (x ∷ xs) st chg =
      let (found, rn) = find_rep st x in
      let (t, c) = add_edge found rn dest in load_loop dest xs t (chg || c)

  -- An edge from `src` to each of the nodes.
  unfoldable pub store_loop : ℕ → List ℕ → State S → State S
  unfolding add_edge_push
  store_loop src [] st = st
  store_loop src (x ∷ xs) st =
      let (found, rn) = find_rep st x in store_loop src xs (add_edge_push found src rn)

  -- The edges of a load or a store through the nodes of the list.
  unfoldable pub solve_ls : Bool → ℕ → ℕ → List ℕ → State S → State S
  unfolding load_loop store_loop push_node
  solve_ls load dest src xs st =
      if load
      then (let (t, chg) = load_loop dest xs st false in if chg then push_node t dest else t)
      else store_loop src xs st

  module _ (dom : Domain S) where
    -- Functions are skipped; the others are taken at the offset.
    abbrev pub at_offset : ℕ → List ℕ → List ℕ
    at_offset off [] = []
    at_offset off (x ∷ xs) =
        let rest = at_offset off xs in if dom.func_node_set x then rest else (x + off) ∷ rest

    -- `bdd2vec` and the `at(0)` after it; `none` is a failed assertion or an empty vector.
    unfoldable pub some_members : S.NodeSet → Option (List ℕ)
    some_members s = elim (bdd2vec S dom.vars.pts_bits dom.bdd_allsat s) [
      | none ↦ none
      | some [] ↦ none
      | some (x ∷ xs) ↦ some (x ∷ xs)
    ]

    unfoldable pub solve_ls_off : S.NodeSet → Bool → ℕ → ℕ → ℕ → State S → Option (State S)
    unfolding solve_ls
    solve_ls_off d_points_to load dest src off st =
        let m_points_to = S.bdd_and d_points_to (get_or dom.off_mask off S.bddfalse) in
        if S.same m_points_to S.bddfalse then some st else elim (some_members m_points_to) [
          | none ↦ none
          | some xs ↦ some (solve_ls load dest src (at_offset off xs) st)
        ]

    -- What is left to do for a constraint that was not seen before, with the members of `d_points_to`; `none`
    -- is a failed assertion, or an access outside a vector.
    unfoldable pub solve_new :
        ℕ → S.NodeSet → List ℕ → Bool → ℕ → ℕ → ℕ → State S → Option (State S × Bool)
    unfolding add_edge_push solve_ls_off
    solve_new hcd_rep d_points_to members load dest src off st =
        if not (hcd_rep == 0) && off == 0
        then if is_rep st.reps hcd_rep
          then some
              (if load then add_edge_push st hcd_rep dest else add_edge_push st src hcd_rep, true)
          else none
        else if not (off == 0)
        then if ltb off (length dom.off_mask)
          then elim (solve_ls_off d_points_to load dest src off st) [
            | none ↦ none
            | some t ↦ some (t, false)
          ]
          else none
        else some (solve_ls load dest src members st, false)

    -- The constraint `c` with its representatives, when `d_points_to` has members.
    unfoldable pub solve_ls_members :
        ℕ → ℕ → S.NodeSet → List ℕ → List Constraint → Constraint → State S → Option (Solved S)
    unfolding solve_new contains
    solve_ls_members n hcd_rep d_points_to members seen c st =
        let load = rank c.kind == rank load_cons in
        let (st1, dest) = find_rep st c.dest in
        let (st2, src) = find_rep st1 c.src in
        let c' = record c { dest = dest; src = src } in
        if not ((if load then src else dest) == n)
        then none
        else if contains c' seen
        then some (record { state = st2; cons_seen = seen; cons = c'; redundant = true })
        else elim (solve_new hcd_rep d_points_to members load dest src c.off st2) [
          | none ↦ none
          | some (t, redundant) ↦
              some (record { state = t; cons_seen = c' ∷ seen; cons = c'; redundant = redundant })
        ]

    -- The constraint `c` of a node `n` that no indirect call goes through; `none` is a failed assertion or an
    -- access outside a vector.
    unfoldable pub solve_ls_cons :
        ℕ → ℕ → S.NodeSet → List Constraint → Constraint → State S → Option (Solved S)
    unfolding solve_ls_members
    solve_ls_cons n hcd_rep d_points_to seen c st =
        if rank c.kind == rank load_cons || rank c.kind == rank store_cons
        then elim (some_members d_points_to) [
          | none ↦ none
          | some members ↦ solve_ls_members n hcd_rep d_points_to members seen c st
        ]
        else none

    -- `geps[off]`
    abbrev pub gep_at : ℕ → dom.vars.Relation
    gep_at off = get_or dom.geps off dom.vars.bddfalse

    -- `none` is a failed assertion.
    unfoldable pub solve_gep_cons :
        ℕ → S.NodeSet → List Constraint → Constraint → State S → Option (Solved S)
    unfolding contains grow
    solve_gep_cons n d_points_to seen c st =
        let (st1, src) = find_rep st c.src in
        let (st2, dest) = find_rep st1 c.dest in
        let c' = record c { src = n; dest = dest } in
        if not (rank c.kind == rank gep_cons) || not (src == n)
        then none
        else if contains c' seen
        then some (record { state = st2; cons_seen = seen; cons = c'; redundant = true })
        else if ltb c.off (length dom.geps) && not (dom.vars.is_bddfalse (gep_at c.off))
        then some (record {
          state =
              grow S st2 dest
                (dom.vars.bdd_replace (dom.vars.bdd_relprod d_points_to (gep_at c.off)));
          cons_seen = c' ∷ seen;
          cons = c';
          redundant = false;
        })
        else none
