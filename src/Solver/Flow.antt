-- ===== src/Solver/Flow.antt =====
-- What the solver of anders/solve.cpp keeps between its steps: what a node had at its last visit has
-- gone along its copy edges, to the representatives of their targets.
use ptranalysis.Common.{
  ℕ, ◌+◌, ◌%◌, ◌<◌, ◌≡◌, ◌≢◌, refl, sym, ap, ◌∙◌, Bool, true, false, not, ◌&&◌, ◌||◌, Option, none,
  some, arith, ◌==◌, Bool-cases, inl, inr, length,
}
use ptranalysis.UnionFind.{cget_node_rep}
use ptranalysis.UnionFind.Find.{cget_ends}
use ptranalysis.Graph.{Sets, Node, node}
use ptranalysis.Graph.Edges.{edge, points, visited}
use ptranalysis.Bitmap.Search.{IsBitmap}
use ptranalysis.Bitmap.Iterator.{Builtins}
use ptranalysis.Solver.{State, solve_prop}
use ptranalysis.Solver.Propagate.{IsSound, solve_prop_lem}

-- What a node had at its last visit it still has, and every target of its copy edges has it too, but
-- for what is `pending` at the node. The edges are well-formed.
pub record IsFlowing (S : Sets) (pending : ℕ → ℕ → Bool) (st : State S) : Type 0 where
  pub bitmaps : (n : ℕ) → n < length st.nodes → IsBitmap (node S st.nodes n).copy_to
  pub targets : (n d : ℕ) → n < length st.nodes → edge S st.nodes n d ≡ true → d < length st.nodes
  pub kept :
      (n k : ℕ) → n < length st.nodes → visited S st.nodes n k ≡ true → points S st.nodes n k ≡ true
  pub flowed :
      (n d k : ℕ)
      → n < length st.nodes
      → edge S st.nodes n d ≡ true
      → visited S st.nodes n k ≡ true
      → points S st.nodes (cget_node_rep st.reps d) k || pending n k ≡ true

module _ (S : Sets) where
  -- Nothing is pending, and only the set at the node.
  abbrev pub nothing : ℕ → ℕ → Bool
  nothing n k = false

  abbrev pub only : ℕ → S.NodeSet → ℕ → ℕ → Bool
  only n pts m k = (m == n) && S.contains pts k

  -- From a sound state in which just the set of the node is still to flow, and in which the node has
  -- the set, no edge of it leads to itself: solve_prop succeeds, and nothing is pending afterwards.
  pub solve_prop-IsFlowing :
      (cpu : Builtins) (nn n : ℕ) (pts : S.NodeSet) (st : State S)
      → IsSound S nn st
      → IsFlowing S (only n pts) st
      → n < length st.nodes
      → edge S st.nodes n n ≡ false
      → ((k : ℕ) → S.contains pts k ≡ true → points S st.nodes n k ≡ true)
      → (t : State S) × (solve_prop S cpu n pts st ≡ some t)
        × IsSound S nn t
        × IsFlowing S nothing t
  solve_prop-IsFlowing cpu nn n pts st s f p loop sub =
      let (t, e, (reaches, iff, g)) =
        solve_prop_lem S cpu nn n pts st s (f.bitmaps n p) (λ x. f.targets n x p) loop in
      let has_more : (m k : ℕ)
          → m < length st.nodes
          → points S t.nodes m k ≡ (points S st.nodes m k || (reaches m && S.contains pts k)) =
        λ m k q.
          ground (arith, g.nodes m q, S.contains-bdd_or (node S st.nodes m).points_to pts k) in
      let same_visited : (m k : ℕ)
          → m < length st.nodes
          → visited S t.nodes m k ≡ visited S st.nodes m k =
        λ m k q. ground (arith, g.nodes m q) in
      let same_edges : (m d : ℕ) → m < length st.nodes → edge S t.nodes m d ≡ edge S st.nodes m d =
        λ m d q. ground (arith, g.nodes m q) in
      let same_bitmap : (m : ℕ)
          → m < length st.nodes
          → (node S t.nodes m).copy_to ≡ (node S st.nodes m).copy_to =
        λ m q. ground (arith, g.nodes m q) in
      (
        t,
        e,
        g.sound,
        record {
          bitmaps = λ m q.
              rw (same_bitmap m (omega (arith, g.count))) (f.bitmaps m (omega (arith, g.count)));
          targets = λ m d q h. omega (
            arith,
            g.count,
            f.targets m d (omega (arith, g.count))
                (sym (same_edges m d (omega (arith, g.count))) ∙ h),
          );
          kept = λ m k q h.
              let r : m < length st.nodes = omega (arith, g.count) in
              ground (arith, has_more m k r, same_visited m k r, f.kept m k r);
          flowed = λ m d k q h v.
              let r : m < length st.nodes = omega (arith, g.count) in
              let there : edge S st.nodes m d ≡ true = sym (same_edges m d r) ∙ h in
              let dr : d < length st.reps = omega (arith, f.targets m d r there, s.same_length) in
              let rep = cget_node_rep st.reps d in
              let here : rep < length st.nodes =
                omega (arith, (cget_ends st.reps s.forest d dr).0, s.same_length) in
              let same_rep : cget_node_rep t.reps d ≡ rep = g.keeps.same_rep d dr in
              rw same_rep (elim (Bool-cases (points S st.nodes rep k)) [
                | inl old ↦ ground (arith, has_more rep k here)
                | inr fresh ↦
                    let pend : only n pts m k ≡ true =
                      (let w = f.flowed m d k r there (sym (same_visited m k r) ∙ v) in
                        ground (arith, w)) in
                    let at_n : m ≡ n = ground arith in
                    let edge_n : edge S st.nodes n d ≡ true =
                      ap (λ (i : ℕ). edge S st.nodes i d) (sym at_n) ∙ there in
                    let other : rep ≢ n = λ same.
                      ground
                        (arith, sub k, ap (λ (i : ℕ). points S st.nodes i k) {x = rep} {y = n}) in
                    ground (arith, has_more rep k here, (iff rep).1 (other, (d, edge_n, refl)))
              ]);
        },
      )

  -- The node as a visit at the time of the state leaves it: with nothing new, and with news.
  abbrev pub at_visit : State S → ℕ → Node S
  at_visit st n = record (node S st.nodes n) { vtime = st.vtime }

  abbrev pub after_news : State S → ℕ → Node S
  after_news st n = record (at_visit st n) { prev_points_to = (node S st.nodes n).points_to }

  -- The time and the count of the runs are one more, as 32-bit numbers; node `n` is `v`, and nothing else
  -- has changed.
  pub record Visited (n : ℕ) (v : Node S) (st t : State S) : Type 0 where
    pub time : t.vtime ≡ (st.vtime + 1) % 4294967296
    pub runs : t.n_node_runs ≡ (st.n_node_runs + 1) % 4294967296
    pub same_worklist : t.worklist ≡ st.worklist
    pub same_reps : t.reps ≡ st.reps
    pub count : length t.nodes ≡ length st.nodes
    pub at : node S t.nodes n ≡ v
    pub others : (m : ℕ) → m ≢ n → node S t.nodes m ≡ node S st.nodes m

  -- What start_visit comes to for node `n`.
  pub data Started (nn n : ℕ) (st : State S) (result : State S × Option S.NodeSet) : Type 0 where
    nothing_new :
        result.1 ≡ none
        → IsSound S nn result.0
        → IsFlowing S nothing result.0
        → ((k : ℕ) → points S st.nodes n k ≡ true → visited S st.nodes n k ≡ true)
        → Visited n (at_visit st n) st result.0
        → Started nn n st result
    has_news :
        (d : S.NodeSet)
        → result.1 ≡ some d
        → IsSound S nn result.0
        → IsFlowing S (only n d) result.0
        → ((k : ℕ) → S.contains d k ≡ points S st.nodes n k && not (visited S st.nodes n k))
        → S.same d S.bddfalse ≡ false
        → Visited n (after_news st n) st result.0
        → Started nn n st result
