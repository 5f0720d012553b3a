-- ===== src/Solver/Edges.antt =====
-- The copy edges that solve_ls_cons of anders/solve.cpp adds, and the nodes that it pushes.
use ptranalysis.Common.{
  ℕ, ◌<◌, ◌≡◌, ◌⊎◌, refl, sym, ap, ◌∙◌, Bool, true, false, not, ◌&&◌, ◌||◌, some, List, arith, ◌==◌,
  if◌then◌else◌, Bool-cases, inl, inr, length, length-set, set, get_or-set,
}
use ptranalysis.UnionFind.{cget_node_rep, get_node_rep}
use ptranalysis.UnionFind.Find.{Keeps, Keeps-refl, Keeps-trans, get_node_rep_lem}
use ptranalysis.Graph.{Sets, Node, new, node, i2p, add_copy_edge}
use ptranalysis.Graph.Edges.{edge, points, visited, admissible, EdgeAdded, add_copy_edge_lem}
use ptranalysis.Heap.Index.{lookup}
use ptranalysis.Bitmap.Vector
use ptranalysis.Worklist
use ptranalysis.Worklist.Passes.{push-queued}
use ptranalysis.Solver.{State}
use ptranalysis.Solver.Propagate.{IsSound}
use ptranalysis.Solver.Flow.{IsFlowing}
use ptranalysis.Solver.Complex.{push_node, add_edge}

vtime-add_copy_edge :
    (S : Sets) (nodes : List (Node S)) (src dest m : ℕ)
    → src < length nodes
    → dest < length nodes
    → (node S (add_copy_edge S nodes src dest).0 m).vtime ≡ (node S nodes m).vtime
unfolding add_copy_edge
vtime-add_copy_edge S nodes src dest m p q =
    elim (Bool-cases (src == i2p || dest == i2p || src == dest)) [
      | inl closed ↦ rw closed refl
      | inr free ↦ elim (Bool-cases (Vector.test_and_set (node S nodes src).copy_to dest).1) [
        | inl added ↦
            rw (free, added)
              (ground (
                arith,
                get_or-set (marked) dest (joined) m (new S)
                    (omega (arith, length-set nodes src changed)),
                get_or-set nodes src changed m (new S) p,
                get_or-set nodes src changed dest (new S) p,
                ap (λ (i : ℕ). (node S nodes i).vtime) {x = m} {y = dest},
                ap (λ (i : ℕ). (node S nodes i).vtime) {x = m} {y = src},
                ap (λ (i : ℕ). (node S nodes i).vtime) {x = dest} {y = src},
              ))
        | inr old ↦
            rw (free, old)
              (ground (
                arith,
                get_or-set nodes src changed m (new S) p,
                ap (λ (i : ℕ). (node S nodes i).vtime) {x = m} {y = src},
              ))
      ]
    ]
  where
    changed : Node S
    changed = record (node S nodes src) {
      copy_to = (Vector.test_and_set (node S nodes src).copy_to dest).0;
    }

    marked : List (Node S)
    marked = set nodes src changed

    joined : Node S
    joined = record (node S marked dest) {
      points_to = S.bdd_or (node S marked dest).points_to (node S nodes src).points_to;
    }

module _ (S : Sets) where
  -- Does an edge between the nodes have nothing to carry, or is it there?
  abbrev pub linked : State S → ℕ → ℕ → Bool
  linked st a b = not (admissible S a b) || edge S st.nodes a b

  -- Edges were added between nodes: the state stays sound, what is pending stays so, no edge and no
  -- member of a points-to set is lost, and every node that gained members was pushed, or is owed a push.
  pub record Extended (nn : ℕ) (pending : ℕ → ℕ → Bool) (owed : ℕ → Bool) (st t : State S)
      : Type 0 where
    pub sound : IsSound S nn t
    pub keeps : Keeps st.reps t.reps
    pub count : length t.nodes ≡ length st.nodes
    pub flowing : IsFlowing S pending t
    pub edges : (a b : ℕ) → edge S st.nodes a b ≡ true → edge S t.nodes a b ≡ true
    pub pointed : (m k : ℕ) → points S st.nodes m k ≡ true → points S t.nodes m k ≡ true
    pub times : (m : ℕ) → (node S t.nodes m).vtime ≡ (node S st.nodes m).vtime
    pub same_curr : t.worklist.curr ≡ st.worklist.curr
    pub pushed :
        (m : ℕ)
        → m < length st.nodes
        → (lookup t.worklist.next m ≡ some (node S st.nodes m).vtime)
          ⊎ (((k : ℕ) → points S t.nodes m k ≡ points S st.nodes m k)
              × (lookup t.worklist.next m ≡ lookup st.worklist.next m))
          ⊎ (owed m ≡ true)

  pub Extended-refl :
      (nn : ℕ) (pending : ℕ → ℕ → Bool) (owed : ℕ → Bool) (st : State S)
      → IsSound S nn st
      → IsFlowing S pending st
      → Extended nn pending owed st st
  Extended-refl nn pending owed st s f = record {
    sound = s;
    keeps = Keeps-refl st.reps s.forest;
    count = refl;
    flowing = f;
    edges = λ a b h. h;
    pointed = λ m k h. h;
    times = λ m. refl;
    same_curr = refl;
    pushed = λ m p. inr (inl ((λ k. refl), refl));
  }

  pub Extended-trans :
      {nn : ℕ} {pending : ℕ → ℕ → Bool} {owed : ℕ → Bool} {st u t : State S}
      → Extended nn pending owed st u
      → Extended nn pending owed u t
      → Extended nn pending owed st t
  Extended-trans {nn} {pending} {owed} {st} {u} {t} a b = record {
    sound = b.sound;
    keeps = Keeps-trans a.keeps b.keeps;
    count = b.count ∙ a.count;
    flowing = b.flowing;
    edges = λ x y h. b.edges x y (a.edges x y h);
    pointed = λ m k h. b.pointed m k (a.pointed m k h);
    times = λ m. b.times m ∙ a.times m;
    same_curr = b.same_curr ∙ a.same_curr;
    pushed = λ m p. elim (b.pushed m (omega (arith, a.count))) [
      | inl late ↦ inl (late ∙ ap some (a.times m))
      | inr (inr owes) ↦ inr (inr owes)
      | inr (inl (same, kept)) ↦ elim (a.pushed m p) [
        | inl early ↦ inl (kept ∙ early)
        | inr (inr owes) ↦ inr (inr owes)
        | inr (inl (same', kept')) ↦ inr (inl ((λ k. same k ∙ same' k), kept ∙ kept'))
      ]
    ];
  }

  pub find-Extended :
      (nn : ℕ) (pending : ℕ → ℕ → Bool) (owed : ℕ → Bool) (st : State S) (x : ℕ)
      → IsSound S nn st
      → IsFlowing S pending st
      → x < length st.nodes
      → Extended nn pending owed st (record st { reps = (get_node_rep st.reps x).0 })
  find-Extended nn pending owed st x s f p =
      let k = (get_node_rep_lem st.reps x s.forest (omega (arith, s.same_length))).1 in
      record {
        sound = record {
          forest = k.forest;
          same_length = k.same_length ∙ s.same_length;
          room = s.room;
          ready = s.ready;
        };
        keeps = k;
        count = refl;
        flowing = record {
          bitmaps = f.bitmaps;
          targets = f.targets;
          kept = f.kept;
          flowed = λ n d i q h v.
              rw (k.same_rep d (omega (arith, s.same_length, f.targets n d q h)))
                (f.flowed n d i q h v);
        };
        edges = λ a b h. h;
        pointed = λ m i h. h;
        times = λ m. refl;
        same_curr = refl;
        pushed = λ m q. inr (inl ((λ i. refl), refl));
      }

  module _ (nn : ℕ) (pending : ℕ → ℕ → Bool) where
    -- The new edge carries what its source had at its last visit.
    add_edge-IsFlowing :
        (st : State S) (src dest : ℕ)
        → EdgeAdded S st.nodes src dest
            (add_copy_edge S st.nodes src dest).0
            (add_copy_edge S st.nodes src dest).1
        → IsFlowing S pending st
        → src < length st.nodes
        → dest < length st.nodes
        → cget_node_rep st.reps dest ≡ dest
        → IsFlowing S pending (record st { nodes = (add_copy_edge S st.nodes src dest).0 })
    add_edge-IsFlowing st src dest e f p q root = record {
      bitmaps = λ n r. e.bitmaps n (f.bitmaps n (omega (arith, e.same_length)));
      targets = λ n d r h. elim (Bool-cases (edge S st.nodes n d)) [
        | inl there ↦
            omega (arith, e.same_length, f.targets n d (omega (arith, e.same_length)) there)
        | inr added ↦
            let same : d ≡ dest = ground (arith, e.edges n d) in omega (arith, e.same_length)
      ];
      kept = λ n k r h.
          ground
            (arith, e.pointed n k, e.same_visited n k, f.kept n k (omega (arith, e.same_length)));
      flowed = λ n d k r h v.
          let old : n < length st.nodes = omega (arith, e.same_length) in
          let was : visited S st.nodes n k ≡ true = sym (e.same_visited n k) ∙ v in
          elim (Bool-cases (edge S st.nodes n d)) [
            | inl there ↦
                ground (arith, e.pointed (cget_node_rep st.reps d) k, f.flowed n d k old there was)
            | inr added ↦
                let same : d ≡ dest = ground (arith, e.edges n d) in
                let from : n ≡ src = ground (arith, e.edges n d) in
                let at : cget_node_rep st.reps d ≡ dest = ap (cget_node_rep st.reps) same ∙ root in
                let new_one : edge S st.nodes src dest ≡ false =
                  ap (λ (i : ℕ). edge S st.nodes i dest) (sym from)
                  ∙ ap (edge S st.nodes n) (sym same)
                  ∙ added in
                let has_src : points S st.nodes src k ≡ true =
                  ap (λ (i : ℕ). points S st.nodes i k) (sym from) ∙ f.kept n k old was in
                rw at (ground (arith, e.pointed dest k, e.edges n d))
          ];
    }

    pub add_edge-Extended :
        (st : State S) (src dest : ℕ)
        → IsSound S nn st
        → IsFlowing S pending st
        → src < length st.nodes
        → dest < length st.nodes
        → cget_node_rep st.reps dest ≡ dest
        → Extended nn pending
            (λ m. (m == dest) && (add_edge S st src dest).1)
            st
            (add_edge S st src dest).0
          × (linked (add_edge S st src dest).0 src dest ≡ true)
    unfolding add_edge
    add_edge-Extended st src dest s f p q root =
        let e = add_copy_edge_lem S st.nodes src dest p q (f.bitmaps src p) in
        (
          record {
            sound = record {
              forest = s.forest;
              same_length = s.same_length ∙ sym e.same_length;
              room = omega (arith, s.room, e.same_length);
              ready = s.ready;
            };
            keeps = Keeps-refl st.reps s.forest;
            count = e.same_length;
            flowing = add_edge-IsFlowing st src dest e f p q root;
            edges = λ a b h. ground (arith, e.edges a b);
            pointed = λ m k h. ground (arith, e.pointed m k);
            times = λ m. vtime-add_copy_edge S st.nodes src dest m p q;
            same_curr = refl;
            pushed = λ m r. elim (Bool-cases (add_copy_edge S st.nodes src dest).1) [
              | inr same ↦ inr (inl (e.reports.0 same m, refl))
              | inl changed ↦ elim (Bool-cases (m == dest)) [
                | inl here ↦ inr (inr (ground arith))
                | inr other ↦ inr (inl ((λ k. ground (arith, e.pointed m k)), refl))
              ]
            ];
          },
          ground (arith, e.edges src dest),
        )

    -- The push that is owed to `dest`.
    pub push-Extended :
        (owed : ℕ → Bool) (st t : State S) (dest : ℕ)
        → Extended nn pending owed st t
        → dest < length st.nodes
        → ((m : ℕ) → owed m ≡ true → m ≡ dest)
        → Extended nn pending (λ m. false) st (push_node S t dest)
    unfolding push_node
    push-Extended owed st t dest a p only_dest =
        let (r, stored) =
          push-queued nn dest (node S t.nodes dest).vtime t.worklist a.sound.ready
            (omega (arith, a.sound.room, a.count)) in
        let at : (m : ℕ)
            → m < length st.nodes
            → lookup (Worklist.push t.worklist dest (node S t.nodes dest).vtime).next m
              ≡ (if m == dest then some (node S t.nodes dest).vtime else lookup t.worklist.next m) =
          λ m q. ap (λ o. o.1) (stored m (omega (arith, a.sound.room, a.count))) in
        record {
          sound = record {
            forest = a.sound.forest;
            same_length = a.sound.same_length;
            room = a.sound.room;
            ready = r;
          };
          keeps = a.keeps;
          count = a.count;
          flowing = record {
            bitmaps = a.flowing.bitmaps;
            targets = a.flowing.targets;
            kept = a.flowing.kept;
            flowed = a.flowing.flowed;
          };
          edges = a.edges;
          pointed = a.pointed;
          times = a.times;
          same_curr = same_curr_push t.worklist dest (node S t.nodes dest).vtime ∙ a.same_curr;
          pushed = λ m q. elim (Bool-cases (m == dest)) [
            | inl here ↦
                let e : dest ≡ m = ground arith in
                inl (at m q ∙ ground (arith, a.times m, ap (λ (i : ℕ). (node S t.nodes i).vtime) e))
            | inr other ↦ elim (a.pushed m q) [
              | inl early ↦ inl (at m q ∙ ground arith)
              | inr (inl (same, kept)) ↦ inr (inl (same, at m q ∙ ground arith))
              | inr (inr owes) ↦ absurd (ground (arith, only_dest m owes))
            ]
          ];
        }
      where
        same_curr_push : (w : Worklist.Worklist) (n p : ℕ) → (Worklist.push w n p).curr ≡ w.curr
        same_curr_push w n p = unfold Worklist.push in refl
