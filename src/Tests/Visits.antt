-- ===== src/Tests/Visits.antt =====
-- Runs of the visit of a node, anders/solve.cpp.
use ptranalysis.Common.{
  ◌+◌, ◌%◌, ℕ, zero, suc, ◌<◌, ◌≡◌, ◌↔◌, ◌≢◌, refl, Bool, true, false, ◌&&◌, ◌||◌, some, List, [],
  ◌∷◌, arith, ltb, ◌==◌, replicate,
}
use ptranalysis.Common.Bits.{has, has-zero}
use ptranalysis.Bitmap.Vector
use ptranalysis.Bitmap.Search.{IsBitmap}
use ptranalysis.Bitmap.Laws.{member, set-member}
use ptranalysis.Bitmap.Algebra.{new-member}
use ptranalysis.Constraint.{Constraint, load_cons, gep_cons}
use ptranalysis.UnionFind.{node_rank_min, cget_node_rep}
use ptranalysis.UnionFind.Forest.{new-IsForest}
use ptranalysis.Graph.{Node, node}
use ptranalysis.Graph.Edges.{edge, points}
use ptranalysis.Worklist
use ptranalysis.Worklist.Passes.{new-IsReady}
use ptranalysis.Solver.{State, solve_prop}
use ptranalysis.Solver.Complex.{Domain, Solved, gep_at, solve_gep_cons}
use ptranalysis.Solver.Propagate.{IsSound, Grown, solve_prop_lem}
use ptranalysis.Solver.Flow.{IsFlowing, nothing, only, solve_prop-IsFlowing}
use ptranalysis.Tests.Domains.{mask_vars}
use ptranalysis.Tests.Vectors.{vectors_below}
use ptranalysis.Solver.Geps.{Applied, solve_gep_cons_lem}
use ptranalysis.Tests.Graphs.{masks, pointing}
use ptranalysis.Tests.Bitmaps.{some_cpu}

-- Node 2 points to nodes 2 and 3, and had what the mask `prev` holds; it has an edge to node 3.
abbrev visited_node : ℕ → Node masks
visited_node prev = record (pointing 12) {
  prev_points_to = prev;
  copy_to = Vector.set Vector.new 3;
}

abbrev some_state : ℕ → State masks
some_state prev = record {
  nodes = pointing 0 ∷ pointing 0 ∷ visited_node prev ∷ pointing 16 ∷ [];
  reps = replicate 4 node_rank_min;
  worklist = Worklist.new 4;
  n_node_runs = 0;
  vtime = 1;
  lcd_edges = [];
  lcd_starts = [];
}

some_state-IsSound : (prev : ℕ) → IsSound masks 4 (some_state prev)
some_state-IsSound prev = record {
  forest = new-IsForest 4 (omega arith);
  same_length = refl;
  room = omega arith;
  ready = (new-IsReady 4 (omega arith)).0;
}

edge_to_3 : (d : ℕ) → member (Vector.set Vector.new 3) d ≡ (d == 3)
edge_to_3 d =
    ground (arith, (set-member Vector.new 3 new-member.ok).decides d, new-member.decides d)

-- What node 2 had is among what it has, and has gone to node 3 but for what is pending.
some_state-IsFlowing :
    (prev : ℕ) (pending : ℕ → ℕ → Bool)
    → ((k : ℕ) → has prev k ≡ true → has 12 k ≡ true)
    → ((k : ℕ) → has prev k ≡ true → pending 2 k ≡ true)
    → IsFlowing masks pending (some_state prev)
some_state-IsFlowing prev pending sub left = record {
  bitmaps = λ n p. ok n;
  targets = λ n d p h. in_range n d h;
  kept = λ n k p h. seen n k h;
  flowed = λ n d k p h v. flows n d k h v;
}
  where
    nodes : List (Node masks)
    nodes = (some_state prev).nodes

    ok : (n : ℕ) → IsBitmap (node masks (some_state prev).nodes n).copy_to
    ok zero = new-member.ok
    ok (suc zero) = new-member.ok
    ok (suc (suc zero)) = (set-member Vector.new 3 new-member.ok).ok
    ok (suc (suc (suc zero))) = new-member.ok
    ok (suc (suc (suc (suc n)))) = new-member.ok

    in_range : (n d : ℕ) → edge masks (some_state prev).nodes n d ≡ true → d < 4
    in_range zero d h = absurd (cc (new-member.decides d, h))
    in_range (suc zero) d h = absurd (cc (new-member.decides d, h))
    in_range (suc (suc zero)) d h = ground (arith, edge_to_3 d)
    in_range (suc (suc (suc zero))) d h = absurd (cc (new-member.decides d, h))
    in_range (suc (suc (suc (suc n)))) d h = absurd (cc (new-member.decides d, h))

    seen :
        (n k : ℕ)
        → has (node masks (some_state prev).nodes n).prev_points_to k ≡ true
        → has (node masks (some_state prev).nodes n).points_to k ≡ true
    seen zero k h = h
    seen (suc zero) k h = h
    seen (suc (suc zero)) k h = sub k h
    seen (suc (suc (suc zero))) k h = absurd (cc (has-zero k, h))
    seen (suc (suc (suc (suc n)))) k h = h

    flows :
        (n d k : ℕ)
        → edge masks (some_state prev).nodes n d ≡ true
        → has (node masks (some_state prev).nodes n).prev_points_to k ≡ true
        → points masks (some_state prev).nodes (cget_node_rep (some_state prev).reps d) k
            || pending n k
          ≡ true
    flows zero d k h v = absurd (cc (new-member.decides d, h))
    flows (suc zero) d k h v = absurd (cc (new-member.decides d, h))
    flows (suc (suc zero)) d k h v = ground (arith, left k v)
    flows (suc (suc (suc zero))) d k h v = absurd (cc (new-member.decides d, h))
    flows (suc (suc (suc (suc n)))) d k h v = absurd (cc (new-member.decides d, h))

solve_prop_lem_example :
    (t : State masks) × (solve_prop masks some_cpu 2 12 (some_state 12) ≡ some t)
    × ((reaches : ℕ → Bool) × ((m : ℕ)
          → (reaches m ≡ true) ↔ (
              (m ≢ 2)
              × ((x : ℕ) × (edge masks (some_state 12).nodes 2 x ≡ true)
                  × (cget_node_rep (some_state 12).reps x ≡ m))))
        × Grown masks 4 12 reaches (some_state 12) t)
solve_prop_lem_example =
    solve_prop_lem masks some_cpu 4 2 12 (some_state 12) (some_state-IsSound 12)
      ((some_state-IsFlowing 12 (only masks 2 12) (λ k h. h) (λ k h. h)).bitmaps 2 (omega arith))
      (λ x.
        (some_state-IsFlowing 12 (only masks 2 12) (λ k h. h) (λ k h. h)).targets 2 x (omega arith))
      (edge_to_3 2)

solve_prop-IsFlowing_example :
    (t : State masks) × (solve_prop masks some_cpu 2 12 (some_state 12) ≡ some t)
    × IsSound masks 4 t
    × IsFlowing masks (nothing masks) t
solve_prop-IsFlowing_example =
    solve_prop-IsFlowing masks some_cpu 4 2 12 (some_state 12) (some_state-IsSound 12)
      (some_state-IsFlowing 12 (only masks 2 12) (λ k h. h) (λ k h. h)) (omega arith) (edge_to_3 2)
      (λ k h. h)

fresh-IsFlowing : (pending : ℕ → ℕ → Bool) → IsFlowing masks pending (some_state 0)
fresh-IsFlowing pending =
    some_state-IsFlowing 0 pending (λ k h. absurd (cc (has-zero k, h)))
      (λ k h. absurd (cc (has-zero k, h)))

-- Nodes 2 and 3 have a second field; the function for offset 1 adds one to them.
abbrev some_domain : Domain masks
some_domain = record {
  vars = mask_vars;
  bdd_allsat = λ s. vectors_below s 4;
  off_mask = 0 ∷ 12 ∷ [];
  geps = mask_vars.bddfalse ∷ (λ x y. (y == (x + 1) % 4) && ltb 1 x) ∷ [];
  func_node_set = λ x. false;
}

same_rep : cget_node_rep (some_state 0).reps 2 ≡ 2
unfolding cget_node_rep
same_rep = refl

abbrev pub load_2 : Constraint
load_2 = record { kind = load_cons; dest = 3; src = 2; off = 0 }

abbrev pub gep_2 : Constraint
gep_2 = record { kind = gep_cons; dest = 3; src = 2; off = 1 }

solve_gep_cons_lem_example :
    (r : Solved masks) × (solve_gep_cons masks some_domain 2 4 [] gep_2 (some_state 0) ≡ some r)
    × Applied masks 4
        (nothing masks)
        gep_2
        []
        (mask_vars.bdd_replace (mask_vars.bdd_relprod 4 (gep_at masks some_domain 1)))
        (some_state 0)
        r
solve_gep_cons_lem_example =
    solve_gep_cons_lem masks 4 (nothing masks) some_domain 2 4 [] gep_2 (some_state 0)
      (some_state-IsSound 0) (fresh-IsFlowing (nothing masks)) refl (omega arith) (omega arith)
      same_rep (omega arith) refl
