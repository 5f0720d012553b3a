-- ===== src/Solver/Constraints.antt =====
-- A complex constraint in a visit of a node: solve_ls_cons and solve_gep_cons of anders/solve.cpp.
use ptranalysis.Common.{
  ℕ, ◌-◌, ◌^◌, ◌↔◌, ◌<◌, ◌≡◌, Bool, true, false, not, ◌&&◌, ◌||◌, List, ◌∷◌, leb, ◌==◌,
  if◌then◌else◌, get_or,
}
use ptranalysis.Common.IdSet
use ptranalysis.Constraint.{Constraint, rank, load_cons, store_cons}
use ptranalysis.Rewrite
use ptranalysis.UnionFind.{cget_node_rep}
use ptranalysis.Graph.{Sets}
use ptranalysis.Solver.{State}
use ptranalysis.Solver.Expanded.{AnyFits}
use ptranalysis.Solver.Complex.{Domain, Solved}
use ptranalysis.Solver.Edges.{Extended}
use ptranalysis.Solver.Members.{nobody, served}

module _ (S : Sets) (dom : Domain S) where
  -- The node through which a constraint of offset `off` asks for an edge, for the points-to set `d`.
  abbrev pub target : ℕ → S.NodeSet → ℕ → ℕ → Bool
  target hcd_rep d off y =
      if not (hcd_rep == 0) && off == 0
      then y == hcd_rep
      else if off == 0
      then S.contains d y
      else leb off y
        && S.contains d (y - off)
        && S.contains (get_or dom.off_mask off S.bddfalse) (y - off)
        && not (dom.func_node_set (y - off))

  -- Is every member of the set a number of the domain?
  abbrev pub InDomain : S.NodeSet → Type 0
  InDomain s = (x : ℕ) → S.contains s x ≡ true → x < 2 ^ dom.vars.pts_bits

  -- bdd_allsat passes on vectors that the members of a set fit, and no other numbers.
  abbrev pub IsAllsat : Type 0
  IsAllsat =
      (s : S.NodeSet)
      → InDomain s
      → (x : ℕ) → (S.contains s x ≡ true) ↔ AnyFits dom.vars.pts_bits (dom.bdd_allsat s) x

  module _ (nn : ℕ) (pending : ℕ → ℕ → Bool) where
    -- What a constraint of the visited node comes to. It is redundant if it was seen before, or if the
    -- edge of the collapsed set stands for all members.
    pub record Handled (load : Bool) (c : Constraint) (seen : List Constraint) (collapsed : Bool)
        (wanted : ℕ → Bool) (st : State S) (r : Solved S) : Type 0 where
      pub extended : Extended S nn pending (nobody S nn pending) st r.state
      pub renamed :
          r.cons
          ≡ record c { dest = cget_node_rep st.reps c.dest; src = cget_node_rep st.reps c.src }
      pub solved : r.redundant ≡ Rewrite.contains r.cons seen || collapsed
      pub now_seen : r.cons_seen ≡ (if Rewrite.contains r.cons seen then seen else r.cons ∷ seen)
      pub joined :
          (Rewrite.contains r.cons seen ≡ false)
          → (y : ℕ) → wanted y ≡ true
          → served S nn pending load r.cons.dest r.cons.src r.state (cget_node_rep st.reps y) ≡ true

    abbrev pub is_load : Constraint → Bool
    is_load c = rank c.kind == rank load_cons

    abbrev pub is_store : Constraint → Bool
    is_store c = rank c.kind == rank store_cons
