-- ===== src/Solver/Begin.antt =====
-- The worklist and the graph when solve of anders/solve.cpp begins.
use ptranalysis.Common.{
  ℕ, zero, suc, ◌+◌, ◌<◌, ◌≤◌, ◌≡◌, refl, sym, ap, ◌∙◌, true, false, ◌&&◌, Option, none, some, List,
  [], ◌∷◌, arith, leb, ◌==◌, if◌then◌else◌, Bool-cases, inl, inr, length, get_or, set, get_or-set,
  length-set, ℕ_discrete, eq→==, ne→==, subst,
}
use ptranalysis.Constraint.{Constraint}
use ptranalysis.UnionFind.{is_rep, cget_node_rep}
use ptranalysis.UnionFind.Find.{Keeps-refl}
use ptranalysis.Bitmap.Laws.{member}
use ptranalysis.Heap
use ptranalysis.UnionFind.Forest.{IsForest}
use ptranalysis.Graph.{Sets, Node, new, node}
use ptranalysis.Graph.Edges.{edge, visited}
use ptranalysis.Graph.Merging.{IsNode}
use ptranalysis.Heap.Index.{lookup}
use ptranalysis.Worklist
use ptranalysis.Worklist.{Worklist}
use ptranalysis.Worklist.Passes.{IsReady, queued, push-queued, new-IsReady, swap_if_empty_lem}
use ptranalysis.Solver.{State}
use ptranalysis.Solver.Propagate.{IsSound}
use ptranalysis.Solver.Flow.{IsFlowing, nothing}
use ptranalysis.Solver.Variables.{Vars}
use ptranalysis.Solver.Prepared.{IsCache}
use ptranalysis.Solver.Setup.{Setup, starts, push_loop, solve_init}
use ptranalysis.Solver.Start.{Above, Kept, Kept-trans, IsPlaced-Kept}
use ptranalysis.Solver.Placed.{AllPlaced, AllAllowed, place_loop_lem}

module _ (S : Sets) (vars : Vars S) where
  -- The nodes but for their time stamps.
  record Restamped (a b : List (Node S)) : Type 0 where
    count : length b ≡ length a
    same : (m : ℕ) → node S b m ≡ record (node S a m) { vtime = (node S b m).vtime }

  -- The loop of solve_init over the nodes.
  record Pushed (reps : List ℕ) (i nn : ℕ) (nodes : List (Node S)) (w : Worklist)
      (result : List (Node S) × Worklist) : Type 0 where
    restamped : Restamped nodes result.0
    ready : IsReady nn result.1
    same_curr : result.1.curr ≡ w.curr
    queued :
        (m : ℕ)
        → m < nn
        → lookup result.1.next m ≡ (
            if leb i m && (is_rep reps m && starts S vars (node S nodes m))
            then some 0
            else lookup w.next m)

  stamp :
      (reps : List ℕ) (i : ℕ) (nodes : List (Node S))
      → i < length nodes
      → Restamped nodes
          (if is_rep reps i then set nodes i (record (node S nodes i) { vtime = 0 }) else nodes)
  stamp reps i nodes p = elim (Bool-cases (is_rep reps i)) [
    | inr child ↦ rw child (record { count = refl; same = λ m. refl })
    | inl root ↦ rw root (record {
      count = length-set nodes i _;
      same = λ m.
          let at = get_or-set nodes i (record (node S nodes i) { vtime = 0 }) m (new S) p in
          elim (ℕ_discrete i m) [
            | yes e ↦
                let w : node S (set nodes i (record (node S nodes i) { vtime = 0 })) m
                    ≡ record (node S nodes m) { vtime = 0 } =
                  at ∙ rw (eq→== i m e) (ap (λ (j : ℕ). record (node S nodes j) { vtime = 0 }) e) in
                w
                ∙ ap (λ (v : ℕ). record (node S nodes m) { vtime = v })
                    (sym (ap (λ (n : Node S). n.vtime) w))
            | no n ↦
                let w : node S (set nodes i (record (node S nodes i) { vtime = 0 })) m
                    ≡ node S nodes m =
                  at ∙ rw (ne→== i m n) refl in
                w
                ∙ ap (λ (v : ℕ). record (node S nodes m) { vtime = v })
                    (sym (ap (λ (n : Node S). n.vtime) w))
          ];
    })
  ]

  push_loop_lem :
      (reps : List ℕ) (fuel i nn : ℕ) (nodes : List (Node S)) (w : Worklist)
      → i + fuel ≡ nn
      → length nodes ≡ nn
      → IsReady nn w
      → Pushed reps i nn nodes w (push_loop S vars reps fuel i nodes w)
  unfolding push_loop
  push_loop_lem reps zero i nn nodes w e len r = record {
    restamped = record { count = refl; same = λ m. refl };
    ready = r;
    same_curr = refl;
    queued = λ m p. ground arith;
  }
  push_loop_lem reps (suc fuel) i nn nodes w e len r =
      let next =
        if is_rep reps i then set nodes i (record (node S nodes i) { vtime = 0 }) else nodes in
      let wl = if is_rep reps i && starts S vars (node S nodes i) then Worklist.push w i 0 else w in
      let a = stamp reps i nodes (omega arith) in
      let (ready, stored) = push-queued nn i 0 w r (omega arith) in
      let b : IsReady nn wl
          × (wl.curr ≡ w.curr)
          × ((m : ℕ)
              → m < nn
              → lookup wl.next m ≡ (
                  if (m == i) && (is_rep reps i && starts S vars (node S nodes i))
                  then some 0
                  else lookup w.next m)) =
        elim (Bool-cases (is_rep reps i && starts S vars (node S nodes i))) [
          | inl go ↦ rw go (
            ready,
            same_curr_push w i 0,
            λ m p. ap (λ o. o.1) (stored m (omega arith)) ∙ ground arith,
          )
          | inr stay ↦ rw stay (r, refl, λ m p. ground arith)
        ] in
      let rest = push_loop_lem reps fuel (suc i) nn next wl (omega arith) (a.count ∙ len) b.0 in
      record {
        restamped = record {
          count = rest.restamped.count ∙ a.count;
          same = λ m.
              rest.restamped.same m
              ∙ ap
                  (λ (n : Node S). record n {
                    vtime = (node S (push_loop S vars reps fuel (suc i) next wl).0 m).vtime;
                  })
                  (a.same m);
        };
        ready = rest.ready;
        same_curr = rest.same_curr ∙ b.1;
        queued = λ m p.
            let st : starts S vars (node S next m) ≡ starts S vars (node S nodes m) =
              ap (starts S vars) (a.same m) in
            rest.queued m p ∙ elim (ℕ_discrete m i) [
              | yes e' ↦
                  let f : (is_rep reps i && starts S vars (node S nodes i))
                      ≡ (is_rep reps m && starts S vars (node S nodes m)) =
                    ap (λ (j : ℕ). is_rep reps j && starts S vars (node S nodes j)) (sym e') in
                  ground (arith, b.2 m p, f)
              | no n ↦ ground (arith, b.2 m p, st)
            ];
      }
    where
      same_curr_push : (w : Worklist) (n p : ℕ) → (Worklist.push w n p).curr ≡ w.curr
      same_curr_push w n p = unfold Worklist.push in refl

  Kept-Restamped :
      (t u : Setup S vars)
      → Restamped t.nodes u.nodes
      → u.reps ≡ t.reps
      → u.cplx_cons ≡ t.cplx_cons
      → IsForest t.reps
      → IsCache S vars u.node_vars
      → length u.node_vars ≡ length t.node_vars
      → Kept S vars t u
  Kept-Restamped t u r e c f ca cv = record {
    keeps = rw e (Keeps-refl t.reps f);
    count = r.count;
    above = λ m. subst (Above S vars (node S t.nodes m)) (sym (r.same m)) (record {
      pts = λ k h. h;
      prev = refl;
      copies = λ k h. h;
      loads = λ k h. h;
      stores = λ k h. h;
      gep_tos = λ k h. h;
      ok = λ o. record {
        copy_ok = o.copy_ok;
        load_ok = o.load_ok;
        store_ok = o.store_ok;
        gep_ok = o.gep_ok;
      };
    });
    targets = λ m d h. inl (sym (ap (λ (n : Node S). member n.copy_to d) (r.same m)) ∙ h);
    cplx_count = omega (arith, ap length c);
    cplx = λ j d h. ap (λ (cs : List Constraint). get_or cs j d) c;
    cache = ca;
    same_vars = cv;
  }

  AllPlaced-Kept :
      (reps : List ℕ) (cs : List Constraint) (t u : Setup S vars)
      → Kept S vars t u
      → AllPlaced S vars reps cs t
      → AllPlaced S vars reps cs u
  AllPlaced-Kept reps [] t u x p = tt
  AllPlaced-Kept reps (c ∷ cs) t u x (p, q) = (
    IsPlaced-Kept S vars c.kind c (cget_node_rep reps c.dest) (cget_node_rep reps c.src) x p,
    AllPlaced-Kept reps cs t u x q,
  )

  empty-new : (nn : ℕ) (w : Worklist) → w.curr ≡ (Worklist.new nn).curr → Worklist.empty w ≡ true
  unfolding Worklist.empty Worklist.new Heap.empty Heap.new
  empty-new nn w e = ap Heap.empty e

  -- The graph holds every constraint, and the nodes to start with are queued, and no others.
  pub record Begun (cs : List Constraint) (s : Setup S vars) (st : State S) (cplx : List Constraint)
      : Type 0 where
    pub sound : IsSound S (length s.nodes) st
    pub flowing : IsFlowing S (nothing S) st
    pub node_vars : List S.NodeSet
    pub placed :
        AllPlaced S vars s.reps cs
          (record { nodes = st.nodes; reps = st.reps; cplx_cons = cplx; node_vars = node_vars })
    pub starting :
        (m : ℕ)
        → m < length s.nodes
        → queued st.worklist m
          ≡ (if is_rep st.reps m && starts S vars (node S st.nodes m) then some 0 else none, none)

  -- For nodes with their `rep` fields, that are well-formed, were not visited yet and have copy edges only
  -- to nodes that are there, with a cache of fdd_ithvar that is right and has room for the objects, and for
  -- constraints between such nodes on which no assertion fails: solve_init succeeds in a sound state with
  -- nothing pending; every constraint is in the graph between the representatives, the source of an
  -- addr_of constraint included, so that it is the representative of the object that is pointed to; and
  -- exactly the representatives that point to something and have outgoing constraints are queued for
  -- the first pass.
  pub solve_init_lem :
      (npts : ℕ) (cs : List Constraint) (s : Setup S vars)
      → IsForest s.reps
      → length s.reps ≡ length s.nodes
      → ((m : ℕ) → m < length s.nodes → IsNode S (node S s.nodes m))
      → ((m k : ℕ) → visited S s.nodes m k ≡ false)
      → ((m d : ℕ) → m < length s.nodes → edge S s.nodes m d ≡ true → d < length s.nodes)
      → IsCache S vars s.node_vars
      → npts ≤ length s.node_vars
      → AllAllowed S vars npts (length s.reps) s.reps cs
      → (st : State S) × (cplx : List Constraint) × (solve_init S vars npts cs s ≡ some (st, cplx))
        × Begun cs s st cplx
  unfolding solve_init
  solve_init_lem npts cs s f len ok fresh inside ca vars_room all =
      let (t, e, x, placed) =
        place_loop_lem S vars npts cs (record s { cplx_cons = [] }) f len ok ca vars_room all in
      let nn = length t.nodes in
      let (ready, none_queued) = new-IsReady nn (omega (arith, f.room, x.count, len)) in
      let r = push_loop_lem t.reps nn 0 nn t.nodes (Worklist.new nn) (omega arith) refl ready in
      let ns = (push_loop S vars t.reps nn 0 t.nodes (Worklist.new nn)).0 in
      let w = (push_loop S vars t.reps nn 0 t.nodes (Worklist.new nn)).1 in
      let (ready', _, swapped, _) = swap_if_empty_lem nn w r.ready in
      let u : Setup S vars = record t { nodes = ns } in
      let y =
        Kept-trans S vars x
          (Kept-Restamped t u r.restamped refl refl x.keeps.forest x.cache refl) in
      let st : State S = record {
        nodes = ns;
        reps = t.reps;
        worklist = (Worklist.swap_if_empty w).0;
        n_node_runs = 0;
        vtime = 1;
        lcd_edges = [];
        lcd_starts = [];
      } in
      let unseen : (m k : ℕ) → visited S ns m k ≡ false =
        λ m k. ap (λ (p : S.NodeSet). S.contains p k) ((y.above m).prev) ∙ fresh m k in
      (
        st,
        t.cplx_cons,
        rw (solve_init, e) refl,
        record {
          sound = record {
            forest = x.keeps.forest;
            same_length = x.keeps.same_length ∙ len ∙ sym y.count;
            room = omega (arith, y.count);
            ready = subst (λ (n : ℕ). IsReady n st.worklist) x.count ready';
          };
          flowing = record {
            bitmaps = λ m p. ((y.above m).ok (ok m (omega (arith, y.count)))).copy_ok;
            targets = λ m d p h. elim (y.targets m d h) [
              | inl old ↦ omega (arith, y.count, inside m d (omega (arith, y.count)) old)
              | inr here ↦ omega (arith, y.count)
            ];
            kept = λ m k p h. absurd (cc (unseen m k, h));
            flowed = λ m d k p h v. absurd (cc (unseen m k, v));
          };
          node_vars = t.node_vars;
          placed =
              AllPlaced-Kept s.reps cs t u
                (Kept-Restamped t u r.restamped refl refl x.keeps.forest x.cache refl) placed;
          starting = λ m p.
              let q : m < nn = omega (arith, x.count) in
              let same : starts S vars (node S ns m) ≡ starts S vars (node S t.nodes m) =
                ap (starts S vars) (r.restamped.same m) in
              swapped (empty-new nn w r.same_curr) m (omega arith)
              ∙ ap (λ (o : Option ℕ). (o, none))
                  (r.queued m q ∙ ground (arith, same, ap (λ o. o.1) (none_queued m)));
        },
      )
