-- ===== src/Solver/Propagate.antt =====
-- What the loop of solve_prop in anders/solve.cpp does to the nodes and to the worklist.
use ptranalysis.Common.{
  ℕ, ◌≤◌, ◌<◌, ◌≡◌, ◌↔◌, ◌≢◌, refl, sym, ap, ◌∙◌, Bool, true, false, not, ◌&&◌, ◌||◌, some, List,
  [], ◌∷◌, arith, ◌==◌, if◌then◌else◌, Bool-cases, inl, inr, length, length-set, set, get_or-set,
}
use ptranalysis.Common.IdSet.{contains, contains-insert}
use ptranalysis.UnionFind.{cget_node_rep, get_node_rep}
use ptranalysis.UnionFind.Forest.{IsForest}
use ptranalysis.UnionFind.Find.{Keeps, Keeps-refl, Keeps-trans, get_node_rep_lem, cget_ends}
use ptranalysis.Graph.{Sets, Node, new, node}
use ptranalysis.Heap.Index.{lookup}
use ptranalysis.Worklist
use ptranalysis.Worklist.Passes.{IsReady, push-queued}
use ptranalysis.Solver.{State, count_edge, check_cycle, grow, prop_edge, prop_loop, solve_prop}
use ptranalysis.Graph.Edges.{edge}
use ptranalysis.Bitmap.Search.{IsBitmap}
use ptranalysis.Bitmap.Iterator.{Builtins}
use ptranalysis.Bitmap.Iterate.{iterate_lem}

-- The nodes have their `rep` fields, and room on the worklist.
pub record IsSound (S : Sets) (nn : ℕ) (st : State S) : Type 0 where
  pub forest : IsForest st.reps
  pub same_length : length st.reps ≡ length st.nodes
  pub room : length st.nodes ≤ nn
  pub ready : IsReady nn st.worklist

-- Is `m` the representative of one of the nodes?
abbrev pub hits : List ℕ → List ℕ → ℕ → Bool
hits reps [] m = false
hits reps (x ∷ xs) m = (cget_node_rep reps x == m) || hits reps xs m

module _ (S : Sets) where
  -- Does the node gain anything from the set?
  abbrev pub gains : Node S → S.NodeSet → Bool
  gains d pts = not (S.same (S.bdd_or d.points_to pts) d.points_to)

  abbrev pub joined : Node S → S.NodeSet → Node S
  joined d pts = record d { points_to = S.bdd_or d.points_to pts }

  -- The nodes for which `grows` holds got the set, and those that gained by it were pushed.
  pub record Grown (nn : ℕ) (pts : S.NodeSet) (grows : ℕ → Bool) (st t : State S) : Type 0 where
    pub sound : IsSound S nn t
    pub keeps : Keeps st.reps t.reps
    pub count : length t.nodes ≡ length st.nodes
    pub nodes :
        (m : ℕ)
        → m < length st.nodes
        → node S t.nodes m ≡ (if grows m then joined (node S st.nodes m) pts else node S st.nodes m)
    pub pushed :
        (m : ℕ)
        → m < length st.nodes
        → lookup t.worklist.next m ≡ (
            if grows m && gains (node S st.nodes m) pts
            then some (node S st.nodes m).vtime
            else lookup st.worklist.next m)
    pub same_curr : t.worklist.curr ≡ st.worklist.curr

  -- A round that only looks for the representative.
  skip-Grown :
      (nn : ℕ) (pts : S.NodeSet) (st : State S) (x : ℕ)
      → IsSound S nn st
      → x < length st.nodes
      → Grown nn pts (λ m. false) st (record st { reps = (get_node_rep st.reps x).0 })
  skip-Grown nn pts st x s p =
      let k = (get_node_rep_lem st.reps x s.forest (omega (arith, s.same_length))).1 in
      record {
        sound = record {
          forest = k.forest;
          same_length = k.same_length ∙ s.same_length;
          room = s.room;
          ready = s.ready;
        };
        keeps = k;
        count = refl;
        nodes = λ m q. refl;
        pushed = λ m q. refl;
        same_curr = refl;
      }

  pub grow-Grown :
      (nn : ℕ) (pts : S.NodeSet) (st : State S) (dest : ℕ)
      → IsSound S nn st
      → dest < length st.nodes
      → Grown nn pts (λ m. m == dest) st (grow S st dest pts)
  unfolding grow
  grow-Grown nn pts st dest s p =
      let all = set st.nodes dest (joined (node S st.nodes dest) pts) in
      let len : length all ≡ length st.nodes = length-set st.nodes dest _ in
      let at : (m : ℕ)
          → node S all m
            ≡ (if dest == m then joined (node S st.nodes dest) pts else node S st.nodes m) =
        λ m. get_or-set st.nodes dest _ m (new S) p in
      let same : (m : ℕ)
          → m < length st.nodes
          → node S all m
            ≡ (if m == dest then joined (node S st.nodes m) pts else node S st.nodes m) =
        λ m q.
          ground (arith, at m, ap (λ (i : ℕ). joined (node S st.nodes i) pts) {x = m} {y = dest}) in
      elim (Bool-cases (gains (node S st.nodes dest) pts)) [
        | inl more ↦
            let (r, stored) =
              push-queued nn dest (node S st.nodes dest).vtime st.worklist s.ready
                (omega (arith, s.room)) in
            rw more (record {
              sound = record {
                forest = s.forest;
                same_length = s.same_length ∙ sym len;
                room = omega (arith, s.room);
                ready = r;
              };
              keeps = Keeps-refl st.reps s.forest;
              count = len;
              nodes = same;
              pushed = λ m q.
                  ap (λ o. o.1) (stored m (omega (arith, s.room)))
                  ∙ ground (
                    arith,
                    more,
                    ap (λ (i : ℕ). (node S st.nodes i).vtime) {x = m} {y = dest},
                    ap (λ (i : ℕ). gains (node S st.nodes i) pts) {x = m} {y = dest},
                  );
              same_curr = same_curr_push st.worklist dest (node S st.nodes dest).vtime;
            })
        | inr no_more ↦ rw no_more (record {
          sound = record {
            forest = s.forest;
            same_length = s.same_length ∙ sym len;
            room = omega (arith, s.room);
            ready = s.ready;
          };
          keeps = Keeps-refl st.reps s.forest;
          count = len;
          nodes = same;
          pushed = λ m q.
              ground
                (arith, no_more, ap (λ (i : ℕ). gains (node S st.nodes i) pts) {x = m} {y = dest});
          same_curr = refl;
        })
      ]
    where
      same_curr_push : (w : Worklist.Worklist) (n p : ℕ) → (Worklist.push w n p).curr ≡ w.curr
      same_curr_push w n p = unfold Worklist.push in refl

  check-Grown :
      (nn : ℕ) (pts : S.NodeSet) (st : State S) (n dest : ℕ)
      → IsSound S nn st
      → Grown nn pts (λ m. false) st (check_cycle S st n dest)
  unfolding check_cycle
  check-Grown nn pts st n dest s =
      elim (Bool-cases (
        not (count_edge n dest st.lcd_edges)
        && not (S.same (node S st.nodes n).points_to S.bddfalse))) [
          | inr old ↦ rw old unchanged
          | inl fresh ↦
              rw fresh
                (elim (Bool-cases
                  (S.same (node S st.nodes n).points_to (node S st.nodes dest).points_to)) [
                    | inr other ↦ rw other unchanged
                    | inl equal ↦ rw equal (record {
                      sound = record {
                        forest = s.forest;
                        same_length = s.same_length;
                        room = s.room;
                        ready = s.ready;
                      };
                      keeps = Keeps-refl st.reps s.forest;
                      count = refl;
                      nodes = λ m q. refl;
                      pushed = λ m q. refl;
                      same_curr = refl;
                    })
                  ])
        ]
    where
      unchanged : Grown nn pts (λ m. false) st st
      unchanged = record {
        sound = s;
        keeps = Keeps-refl st.reps s.forest;
        count = refl;
        nodes = λ m q. refl;
        pushed = λ m q. refl;
        same_curr = refl;
      }

  -- Two steps that do not reach the same node.
  Grown-trans :
      (nn : ℕ) (pts : S.NodeSet) (f g h : ℕ → Bool) (st u t : State S)
      → ((m : ℕ) → m < length st.nodes → f m && g m ≡ false)
      → ((m : ℕ) → m < length st.nodes → f m || g m ≡ h m)
      → Grown nn pts f st u
      → Grown nn pts g u t
      → Grown nn pts h st t
  Grown-trans nn pts f g h st u t apart either a b = record {
    sound = b.sound;
    keeps = Keeps-trans a.keeps b.keeps;
    count = b.count ∙ a.count;
    nodes = λ m q.
        b.nodes m (omega (arith, a.count)) ∙ ground (arith, a.nodes m q, apart m q, either m q);
    pushed = λ m q. b.pushed m (omega (arith, a.count)) ∙ elim (Bool-cases (f m)) [
      | inl in_f ↦ ground (arith, a.pushed m q, apart m q, either m q)
      | inr not_f ↦
          let e : node S u.nodes m ≡ node S st.nodes m = a.nodes m q ∙ ground arith in
          rw e (ground (arith, a.pushed m q, either m q))
    ];
    same_curr = b.same_curr ∙ a.same_curr;
  }

  module _ (nn n : ℕ) (pts : S.NodeSet) where
    abbrev prop_grows : List ℕ → ℕ → ℕ → Bool
    prop_grows seen dest m = (m == dest) && not (dest == n) && not (contains dest seen)

    edge-Grown :
        (dest0 : ℕ) (st : State S) (seen : List ℕ)
        → IsSound S nn st
        → dest0 < length st.nodes
        → Grown nn pts
            (prop_grows seen (cget_node_rep st.reps dest0))
            st
            (prop_edge S n pts dest0 st seen).0
          × ((m : ℕ)
              → contains m (prop_edge S n pts dest0 st seen).1
                ≡ (contains m seen || prop_grows seen (cget_node_rep st.reps dest0) m))
    unfolding prop_edge
    edge-Grown dest0 st seen s p =
        let (e, k) = get_node_rep_lem st.reps dest0 s.forest (omega (arith, s.same_length)) in
        let dest = cget_node_rep st.reps dest0 in
        let found = record st { reps = (get_node_rep st.reps dest0).0 } in
        let a = skip-Grown nn pts st dest0 s p in
        let here : dest < length st.nodes = omega (
          arith,
          (cget_ends st.reps s.forest dest0 (omega (arith, s.same_length))).0,
          s.same_length,
        ) in
        elim (Bool-cases (dest == n || contains dest seen)) [
          | inl skipped ↦
              rw (e, skipped)
                (
                  Grown-trans nn pts (λ m. false) (λ m. false) (prop_grows seen dest) st found found
                      (λ m q. refl) (λ m q. ground (arith, skipped)) a
                      (record {
                        sound = a.sound;
                        keeps = Keeps-refl found.reps a.sound.forest;
                        count = refl;
                        nodes = λ m q. refl;
                        pushed = λ m q. refl;
                        same_curr = refl;
                      }),
                  λ m. ground (arith, skipped),
                )
          | inr taken ↦
              let b = check-Grown nn pts found n dest a.sound in
              let c =
                grow-Grown nn pts (check_cycle S found n dest) dest b.sound
                  (omega (arith, b.count)) in
              rw (e, taken)
                (
                  Grown-trans nn pts (λ m. false) (λ m. m == dest) (prop_grows seen dest) st found _
                      (λ m q. refl) (λ m q. ground (arith, taken)) a
                      (Grown-trans nn pts (λ m. false) (λ m. m == dest) (λ m. m == dest) found
                        (check_cycle S found n dest) _ (λ m q. refl) (λ m q. refl) b c),
                  λ m. contains-insert dest m seen ∙ ground (arith, taken),
                )
        ]

    -- The nodes that the loop reaches through edges to the nodes of the list.
    abbrev pub reached : List ℕ → List ℕ → List ℕ → ℕ → Bool
    reached reps seen ds m = not (m == n) && not (contains m seen) && hits reps ds m

    hits-Keeps :
        (a b ds : List ℕ) (m : ℕ)
        → Keeps a b
        → ((x : ℕ) → contains x ds ≡ true → x < length a)
        → hits b ds m ≡ hits a ds m
    hits-Keeps a b [] m k all = refl
    hits-Keeps a b (x ∷ xs) m k all = ground (
      arith,
      k.same_rep x (all x (ground arith)),
      hits-Keeps a b xs m k (λ y h. all y (ground arith)),
    )

    pub loop-Grown :
        (ds : List ℕ) (st : State S) (seen : List ℕ)
        → IsSound S nn st
        → ((x : ℕ) → contains x ds ≡ true → x < length st.nodes)
        → contains n ds ≡ false
        → (t : State S) × (prop_loop S n pts ds st seen ≡ some t)
          × Grown nn pts (reached st.reps seen ds) st t
    unfolding prop_loop
    loop-Grown [] st seen s all none_back = (
      st,
      refl,
      record {
        sound = s;
        keeps = Keeps-refl st.reps s.forest;
        count = refl;
        nodes = λ m q. ground arith;
        pushed = λ m q. ground arith;
        same_curr = refl;
      },
    )
    loop-Grown (x ∷ ds) st seen s all none_back =
        let (a, more) = edge-Grown x st seen s (all x (ground arith)) in
        let next = prop_edge S n pts x st seen in
        let (t, e, b) =
          loop-Grown ds next.0 next.1 a.sound (λ y h. omega (arith, a.count, all y (ground arith)))
            (ground arith) in
        let go : (x == n) ≡ false = ground arith in
        let dest = cget_node_rep st.reps x in
        (
          t,
          rw (prop_loop, e, go) refl,
          Grown-trans nn pts (prop_grows seen dest) (reached next.0.reps next.1 ds)
              (reached st.reps seen (x ∷ ds)) st next.0 t (λ m q. ground (arith, more m))
              (λ m q. ground (
                arith,
                more m,
                hits-Keeps st.reps next.0.reps ds m a.keeps
                    (λ y h. omega (arith, s.same_length, all y (ground arith))),
                ap (λ (i : ℕ). contains i seen) {x = m} {y = dest},
              ))
              a b,
        )

  hits_iff :
      (reps ds : List ℕ) (m : ℕ)
      → (hits reps ds m ≡ true) ↔ ((x : ℕ) × (contains x ds ≡ true) × (cget_node_rep reps x ≡ m))
  hits_iff reps [] m = (λ h. cc, λ h. cc)
  hits_iff reps (y ∷ ds) m = (
    λ h. elim (Bool-cases (cget_node_rep reps y == m)) [
      | inl e ↦ (y, ground arith, ground arith)
      | inr o ↦ let (x, c, e) = (hits_iff reps ds m).0 (ground arith) in (x, ground arith, e)
    ],
    λ (x, c, e). elim (Bool-cases (x == y)) [
      | inl same ↦ ground (arith, ap (cget_node_rep reps) {x = x} {y = y})
      | inr other ↦ ground (arith, (hits_iff reps ds m).1 (x, ground arith, e))
    ],
  )

-- From a sound state, with well-formed copy edges at the node to nodes that are there and not to
-- itself, solve_prop succeeds: exactly the other representatives that a copy edge of the node leads to
-- get the set, each of them is pushed exactly if it gains by it, and nothing else of nodes, representatives
-- and worklist changes.
pub solve_prop_lem :
    (S : Sets) (cpu : Builtins) (nn n : ℕ) (pts : S.NodeSet) (st : State S)
    → IsSound S nn st
    → IsBitmap (node S st.nodes n).copy_to
    → ((x : ℕ) → edge S st.nodes n x ≡ true → x < length st.nodes)
    → edge S st.nodes n n ≡ false
    → (t : State S) × (solve_prop S cpu n pts st ≡ some t)
      × ((reaches : ℕ → Bool) × ((m : ℕ)
            → (reaches m ≡ true) ↔ (
                (m ≢ n) × ((x : ℕ) × (edge S st.nodes n x ≡ true) × (cget_node_rep st.reps x ≡ m))))
          × Grown S nn pts reaches st t)
unfolding solve_prop
solve_prop_lem S cpu nn n pts st s ok all none_back =
    let (ds, e, _, decides) = iterate_lem cpu (node S st.nodes n).copy_to ok in
    let (t, f, g) =
      loop-Grown S nn n pts ds st [] s (λ x h. all x (sym (decides x) ∙ h))
        (decides n ∙ none_back) in
    (
      t,
      rw (solve_prop, e) f,
      (
        reached S nn n pts st.reps [] ds,
        λ m. (
          λ h.
              let (x, c, r) = (hits_iff S st.reps ds m).0 (ground arith) in
              (λ same. ground arith, (x, sym (decides x) ∙ c, r)),
          λ (other, (x, c, r)).
              let there : contains x ds ≡ true = decides x ∙ c in
              ground (arith, (hits_iff S st.reps ds m).1 (x, there, r)),
        ),
        g,
      ),
    )
