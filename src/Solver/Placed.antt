-- ===== src/Solver/Placed.antt =====
-- The loop of solve_init in anders/solve.cpp over the constraints.
use ptranalysis.Common.{
  ℕ, ◌<◌, ◌≤◌, ◌≡◌, refl, sym, ◌∙◌, some, List, [], ◌∷◌, arith, inl, length, subst,
}
use ptranalysis.Constraint.{Constraint}
use ptranalysis.UnionFind.{cget_node_rep, get_node_rep}
use ptranalysis.UnionFind.Forest.{IsForest}
use ptranalysis.UnionFind.Find.{Keeps, Keeps-trans, get_node_rep_lem, cget_ends}
use ptranalysis.Graph.{Sets, node}
use ptranalysis.Graph.Merging.{IsNode}
use ptranalysis.Solver.Variables.{Vars}
use ptranalysis.Solver.Prepared.{IsCache}
use ptranalysis.Solver.Setup.{Setup, place, place_loop}
use ptranalysis.Solver.Start.{
  Kept, Kept-refl, Kept-trans, Above-refl, IsPlaced, IsPlaced-Kept, IsAllowed, place_lem,
}

module _ (S : Sets) (vars : Vars S) where
  -- Every constraint is in the graph, between the representatives.
  abbrev pub AllPlaced : List ℕ → List Constraint → Setup S vars → Type 0
  AllPlaced reps [] t = Unit {0}
  AllPlaced reps (c ∷ cs) t =
      IsPlaced S vars c.kind c (cget_node_rep reps c.dest) (cget_node_rep reps c.src) t
      × AllPlaced reps cs t

  -- The constraints are between nodes that are there, and no assertion on them fails.
  abbrev pub AllAllowed : ℕ → ℕ → List ℕ → List Constraint → Type 0
  AllAllowed npts nn reps [] = Unit {0}
  AllAllowed npts nn reps (c ∷ cs) =
      (c.dest < nn)
      × (c.src < nn)
      × IsAllowed S vars npts c.kind (cget_node_rep reps c.dest) (cget_node_rep reps c.src)
      × AllAllowed npts nn reps cs

  AllAllowed-Keeps :
      (npts : ℕ) (a b : List ℕ) (cs : List Constraint)
      → Keeps a b
      → AllAllowed npts (length a) a cs
      → AllAllowed npts (length a) b cs
  AllAllowed-Keeps npts a b [] k h = tt
  AllAllowed-Keeps npts a b (c ∷ cs) k (p, q, h, t) =
      (p, q, rw (k.same_rep c.dest p, k.same_rep c.src q) h, AllAllowed-Keeps npts a b cs k t)

  AllPlaced-Keeps :
      (npts : ℕ) (a b : List ℕ) (cs : List Constraint) (t : Setup S vars)
      → Keeps a b
      → AllAllowed npts (length a) a cs
      → AllPlaced b cs t
      → AllPlaced a cs t
  AllPlaced-Keeps npts a b [] t k h x = tt
  AllPlaced-Keeps npts a b (c ∷ cs) t k (p, q, h, r) (x, y) = (
    rw (sym (k.same_rep c.dest p), sym (k.same_rep c.src q)) x,
    AllPlaced-Keeps npts a b cs t k r y,
  )

  place_step :
      (npts : ℕ) (c : Constraint) (cs : List Constraint) (s t : Setup S vars) (dest src : ℕ)
      → (get_node_rep s.reps c.dest).1 ≡ dest
      → (get_node_rep (get_node_rep s.reps c.dest).0 c.src).1 ≡ src
      → place S vars npts c.kind c dest src
          (record s { reps = (get_node_rep (get_node_rep s.reps c.dest).0 c.src).0 })
        ≡ some t
      → place_loop S vars npts (c ∷ cs) s ≡ place_loop S vars npts cs t
  unfolding place_loop
  place_step npts c cs s t dest src d u e = rw (place_loop, d, u, e) refl

  pub place_loop_lem :
      (npts : ℕ) (cs : List Constraint) (s : Setup S vars)
      → IsForest s.reps
      → length s.reps ≡ length s.nodes
      → ((m : ℕ) → m < length s.nodes → IsNode S (node S s.nodes m))
      → IsCache S vars s.node_vars
      → npts ≤ length s.node_vars
      → AllAllowed npts (length s.reps) s.reps cs
      → (t : Setup S vars) × (place_loop S vars npts cs s ≡ some t)
        × Kept S vars s t
        × AllPlaced s.reps cs t
  unfolding place_loop
  place_loop_lem npts [] s f len ok ca room all = (s, refl, Kept-refl S vars s f ca, tt)
  place_loop_lem npts (c ∷ cs) s f len ok ca room (p, q, allowed, all) =
      let (e1, k1) = get_node_rep_lem s.reps c.dest f p in
      let r1 = (get_node_rep s.reps c.dest).0 in
      let (e2, k2) = get_node_rep_lem r1 c.src k1.forest (omega (arith, k1.same_length)) in
      let r2 = (get_node_rep r1 c.src).0 in
      let k = Keeps-trans k1 k2 in
      let dest = cget_node_rep s.reps c.dest in
      let src = cget_node_rep s.reps c.src in
      let e3 : (get_node_rep r1 c.src).1 ≡ src = e2 ∙ k1.same_rep c.src q in
      let d : dest < length s.nodes = omega (arith, (cget_ends s.reps f c.dest p).0, len) in
      let u : src < length s.nodes = omega (arith, (cget_ends s.reps f c.src q).0, len) in
      let s2 : Setup S vars = record s { reps = r2 } in
      let (t, e, x, placed, same_reps) =
        place_lem S vars npts c dest src s2 k.forest d u ok ca c.kind allowed room in
      let first : Kept S vars s s2 = record {
        keeps = k;
        count = refl;
        above = λ m. Above-refl S vars (node S s.nodes m);
        targets = λ m j h. inl h;
        cplx_count = omega arith;
        cplx = λ j b h. refl;
        cache = ca;
        same_vars = refl;
      } in
      let both = Kept-trans S vars first x in
      let kt : Keeps s.reps t.reps = both.keeps in
      let (w, g, y, rest) =
        place_loop_lem npts cs t kt.forest (kt.same_length ∙ len ∙ sym both.count)
          (λ m h. (both.above m).ok (ok m (omega (arith, both.count)))) x.cache
          (omega (arith, room, both.same_vars))
          (subst (λ (n : ℕ). AllAllowed npts n t.reps cs) (sym kt.same_length)
            (AllAllowed-Keeps npts s.reps t.reps cs kt all)) in
      (
        w,
        place_step npts c cs s t dest src e1 e3 e ∙ g,
        Kept-trans S vars both y,
        (
          IsPlaced-Kept S vars c.kind c dest src y placed,
          AllPlaced-Keeps npts s.reps t.reps cs w kt all rest,
        ),
      )
