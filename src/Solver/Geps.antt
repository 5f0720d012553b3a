-- ===== src/Solver/Geps.antt =====
-- A GEP constraint in a visit of a node: solve_gep_cons of anders/solve.cpp.
use ptranalysis.Common.{
  ℕ, ◌<◌, ◌≡◌, refl, sym, ◌∙◌, Bool, true, false, not, ◌&&◌, ◌||◌, some, List, ◌∷◌, arith, ltb,
  ◌==◌, if◌then◌else◌, Bool-cases, inl, inr, length, get_or_outside, dec_lt,
}
use ptranalysis.Constraint.{Constraint, rank, gep_cons}
use ptranalysis.Rewrite
use ptranalysis.UnionFind.{cget_node_rep}
use ptranalysis.Graph.{Sets, new, node}
use ptranalysis.Graph.Edges.{edge, points, visited}
use ptranalysis.Solver.{State, grow}
use ptranalysis.Solver.Propagate.{IsSound, grow-Grown, joined, gains}
use ptranalysis.Solver.Flow.{IsFlowing}
use ptranalysis.Solver.Complex.{Domain, Solved, find_rep, gep_at, solve_gep_cons}
use ptranalysis.Solver.Edges.{Extended, Extended-trans}
use ptranalysis.Solver.Members.{nobody, find-Found}

module _ (S : Sets) (nn : ℕ) (pending : ℕ → ℕ → Bool) where
  grow-Extended :
      (st : State S) (dest : ℕ) (pts : S.NodeSet)
      → IsSound S nn st
      → IsFlowing S pending st
      → dest < length st.nodes
      → Extended S nn pending (nobody S nn pending) st (grow S st dest pts)
        × ((m k : ℕ)
            → points S (grow S st dest pts).nodes m k
              ≡ points S st.nodes m k || ((m == dest) && S.contains pts k))
  grow-Extended st dest pts s f p =
      let g = grow-Grown S nn pts st dest s p in
      let t = grow S st dest pts in
      let at : (m : ℕ)
          → node S t.nodes m
            ≡ (if m == dest then joined S (node S st.nodes m) pts else node S st.nodes m) =
        λ m. elim (dec_lt m (length st.nodes)) [
          | yes q ↦ g.nodes m q
          | no q ↦
              let e : (m == dest) ≡ false = ground arith in
              rw e (
                get_or_outside t.nodes m (new S) (omega (arith, g.count))
                ∙ sym (get_or_outside st.nodes m (new S) (omega arith)))
        ] in
      let has_more : (m k : ℕ)
          → points S t.nodes m k ≡ (points S st.nodes m k || ((m == dest) && S.contains pts k)) =
        λ m k. ground (arith, at m, S.contains-bdd_or (node S st.nodes m).points_to pts k) in
      let same_visited : (m k : ℕ) → visited S t.nodes m k ≡ visited S st.nodes m k =
        λ m k. ground (arith, at m) in
      let same_bitmap : (m : ℕ) → (node S t.nodes m).copy_to ≡ (node S st.nodes m).copy_to =
        λ m. ground (arith, at m) in
      (
        record {
          sound = g.sound;
          keeps = g.keeps;
          count = g.count;
          flowing = record {
            bitmaps = λ m q. rw (same_bitmap m) (f.bitmaps m (omega (arith, g.count)));
            targets = λ m d q h.
                omega (
                  arith,
                  g.count,
                  f.targets m d (omega (arith, g.count)) (rw (same_bitmap m) at h),
                );
            kept = λ m k q h.
                ground (arith, has_more m k, same_visited m k, f.kept m k (omega (arith, g.count)));
            flowed = λ m d k q h v.
                let old : m < length st.nodes = omega (arith, g.count) in
                let there : edge S st.nodes m d ≡ true = rw (same_bitmap m) at h in
                let same_rep : cget_node_rep t.reps d ≡ cget_node_rep st.reps d =
                  g.keeps.same_rep d (omega (arith, s.same_length, f.targets m d old there)) in
                rw same_rep (
                  ground (
                    arith,
                    has_more (cget_node_rep st.reps d) k,
                    same_visited m k,
                    f.flowed m d k old there,
                  ));
          };
          edges = λ a b h. rw (same_bitmap a) h;
          pointed = λ m k h. ground (arith, has_more m k);
          times = λ m. ground (arith, at m);
          same_curr = g.same_curr;
          pushed = λ m q. elim (Bool-cases ((m == dest) && gains S (node S st.nodes m) pts)) [
            | inl gained ↦ inl (g.pushed m q ∙ ground (arith, gained))
            | inr same ↦ inr (
                inl (
                  λ k. elim (Bool-cases (m == dest)) [
                    | inl here ↦
                        let e =
                          (S.same_iff (S.bdd_or (node S st.nodes m).points_to pts)
                              (node S st.nodes m).points_to).0
                            (ground (arith, same)) k in
                        ground (arith, at m, e)
                    | inr other ↦ ground (arith, has_more m k)
                  ],
                  g.pushed m q ∙ ground (arith, same),
                ))
          ];
        },
        has_more,
      )

  -- What a GEP constraint of the visited node comes to: it is redundant if it was seen before, and then
  -- nothing changes but by path compression; otherwise it is seen from now on, and its destination
  -- gets all that the GEP function makes of the set, and no other node gets anything.
  pub record Applied (c : Constraint) (seen : List Constraint) (image : S.NodeSet) (st : State S)
      (r : Solved S) : Type 0 where
    pub extended : Extended S nn pending (nobody S nn pending) st r.state
    pub renamed :
        r.cons ≡ record c { dest = cget_node_rep st.reps c.dest; src = cget_node_rep st.reps c.src }
    pub solved : r.redundant ≡ Rewrite.contains r.cons seen
    pub now_seen : r.cons_seen ≡ (if Rewrite.contains r.cons seen then seen else r.cons ∷ seen)
    pub gained :
        (m k : ℕ)
        → points S r.state.nodes m k
          ≡ points S st.nodes m k
            || (not (Rewrite.contains r.cons seen) && (m == r.cons.dest) && S.contains image k)

  -- For a constraint at a node that represents its source, in a sound state whose edges carry all but what
  -- is pending, with its nodes there and a GEP function for its offset that is not bddfalse: solve_gep_cons succeeds,
  -- rewrites the constraint to the representatives, keeps the state so, and pushes every node that
  -- gained members. It is redundant exactly if it was seen before, and otherwise it is added to those
  -- seen. Only its destination gains members: all that the GEP function makes of the set, unless it
  -- was seen before.
  pub solve_gep_cons_lem :
      (dom : Domain S) (n : ℕ) (d : S.NodeSet) (seen : List Constraint) (c : Constraint)
      (st : State S)
      → IsSound S nn st
      → IsFlowing S pending st
      → (rank c.kind == rank gep_cons) ≡ true
      → c.src < length st.nodes
      → c.dest < length st.nodes
      → cget_node_rep st.reps c.src ≡ n
      → c.off < length dom.geps
      → dom.vars.is_bddfalse (gep_at S dom c.off) ≡ false
      → (r : Solved S) × (solve_gep_cons S dom n d seen c st ≡ some r)
        × Applied c seen (dom.vars.bdd_replace (dom.vars.bdd_relprod d (gep_at S dom c.off))) st r
  unfolding solve_gep_cons
  solve_gep_cons_lem dom n d seen c st s f kind q p at fits some_gep =
      let image = dom.vars.bdd_replace (dom.vars.bdd_relprod d (gep_at S dom c.off)) in
      let inside : ltb c.off (length dom.geps) ≡ true = ground arith in
      let a = find-Found S nn pending st c.src s f q in
      let st1 = (find_rep S st c.src).0 in
      let src = (find_rep S st c.src).1 in
      let b = find-Found S nn pending st1 c.dest a.rest.sound a.rest.flowing p in
      let st2 = (find_rep S st1 c.dest).0 in
      let dest = (find_rep S st1 c.dest).1 in
      let both = Extended-trans S a.rest b.rest in
      let dest_is : dest ≡ cget_node_rep st.reps c.dest =
        b.is ∙ a.rest.keeps.same_rep c.dest (omega (arith, s.same_length)) in
      let here : not (rank c.kind == rank gep_cons) || not (src == n) ≡ false =
        ground (arith, a.is, at, kind) in
      let c' : Constraint = record c { src = n; dest = dest } in
      let renamed : c'
          ≡ record c { dest = cget_node_rep st.reps c.dest; src = cget_node_rep st.reps c.src } =
        rw (dest_is, at) refl in
      elim (Bool-cases (Rewrite.contains c' seen)) [
        | inl old ↦ (
          record { state = st2; cons_seen = seen; cons = c'; redundant = true },
          rw (solve_gep_cons, here, old) refl,
          record {
            extended = both;
            renamed = renamed;
            solved = sym old;
            now_seen = rw old refl;
            gained = λ m k. rw old (ground arith);
          },
        )
        | inr fresh ↦
            let (x, l) = grow-Extended st2 dest image b.rest.sound b.rest.flowing b.here in
            (
              record {
                state = grow S st2 dest image;
                cons_seen = c' ∷ seen;
                cons = c';
                redundant = false;
              },
              rw (solve_gep_cons, here, fresh, inside, some_gep) refl,
              record {
                extended = Extended-trans S both x;
                renamed = renamed;
                solved = sym fresh;
                now_seen = rw fresh refl;
                gained = λ m k. rw fresh (l m k ∙ ground arith);
              },
            )
      ]
