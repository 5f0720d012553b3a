-- ===== src/Solver/Members.antt =====
-- Loads and stores through the members of a points-to set, solve_ls_cons and solve_ls_off of
-- anders/solve.cpp.
use ptranalysis.Common.{
  ℕ, ◌<◌, ◌≡◌, refl, sym, ap, ◌∙◌, Bool, true, false, ◌&&◌, ◌||◌, List, [], ◌∷◌, arith, ◌==◌,
  if◌then◌else◌, Bool-cases, inl, inr, length,
}
use ptranalysis.Common.IdSet.{contains}
use ptranalysis.UnionFind.{cget_node_rep}
use ptranalysis.UnionFind.Find.{get_node_rep_lem, cget_ends, cget_root}
use ptranalysis.Graph.{Sets}
use ptranalysis.Solver.{State}
use ptranalysis.Solver.Propagate.{IsSound}
use ptranalysis.Solver.Flow.{IsFlowing}
use ptranalysis.Solver.Complex.{
  push_node, add_edge, add_edge_push, find_rep, load_loop, store_loop, solve_ls,
}
use ptranalysis.Solver.Edges.{
  linked, Extended, Extended-refl, Extended-trans, find-Extended, add_edge-Extended, push-Extended,
}

module _ (S : Sets) (nn : ℕ) (pending : ℕ → ℕ → Bool) where
  abbrev pub nobody : ℕ → Bool
  nobody m = false

  Extended-owed :
      {owed more : ℕ → Bool} {st t : State S}
      → ((m : ℕ) → owed m ≡ true → more m ≡ true)
      → Extended S nn pending owed st t
      → Extended S nn pending more st t
  Extended-owed sub a = record {
    sound = a.sound;
    keeps = a.keeps;
    count = a.count;
    flowing = a.flowing;
    edges = a.edges;
    pointed = a.pointed;
    times = a.times;
    same_curr = a.same_curr;
    pushed = λ m p. elim (a.pushed m p) [
      | inl early ↦ inl early
      | inr (inl same) ↦ inr (inl same)
      | inr (inr owes) ↦ inr (inr (sub m owes))
    ];
  }

  pub linked-Extended :
      {owed : ℕ → Bool} {st t : State S} (a b : ℕ)
      → Extended S nn pending owed st t
      → linked S st a b ≡ true
      → linked S t a b ≡ true
  linked-Extended a b x h = ground (arith, x.edges a b)

  -- A root stays the representative of itself.
  pub root-Extended :
      {owed : ℕ → Bool} {st t : State S} (a : ℕ)
      → Extended S nn pending owed st t
      → IsSound S nn st
      → a < length st.nodes
      → cget_node_rep st.reps a ≡ a
      → cget_node_rep t.reps a ≡ a
  root-Extended a x s p e = x.keeps.same_rep a (omega (arith, s.same_length)) ∙ e

  -- The representative of a node, with what the search leaves.
  pub record Found (st : State S) (x : ℕ) (found : State S) (r : ℕ) : Type 0 where
    pub is : r ≡ cget_node_rep st.reps x
    pub here : r < length st.nodes
    pub root : cget_node_rep found.reps r ≡ r
    pub rest : Extended S nn pending nobody st found

  pub find-Found :
      (st : State S) (x : ℕ)
      → IsSound S nn st
      → IsFlowing S pending st
      → x < length st.nodes
      → Found st x (find_rep S st x).0 (find_rep S st x).1
  find-Found st x s f p =
      let q : x < length st.reps = omega (arith, s.same_length) in
      let (e, k) = get_node_rep_lem st.reps x s.forest q in
      let (here, root) = cget_ends st.reps s.forest x q in
      record {
        is = e;
        here = omega (arith, e, here, s.same_length);
        root = rw e (
            k.same_rep (cget_node_rep st.reps x) here
            ∙ cget_root st.reps s.forest (cget_node_rep st.reps x) root);
        rest = find-Extended S nn pending nobody st x s f p;
      }

  pub add_edge_push-Extended :
      (st : State S) (src dest : ℕ)
      → IsSound S nn st
      → IsFlowing S pending st
      → src < length st.nodes
      → dest < length st.nodes
      → cget_node_rep st.reps dest ≡ dest
      → Extended S nn pending nobody st (add_edge_push S st src dest)
        × (linked S (add_edge_push S st src dest) src dest ≡ true)
  unfolding add_edge_push push_node
  add_edge_push-Extended st src dest s f p q root =
      let (a, l) = add_edge-Extended S nn pending st src dest s f p q root in
      elim (Bool-cases (add_edge S st src dest).1) [
        | inl changed ↦ rw changed (
          push-Extended S nn pending _ st (add_edge S st src dest).0 dest a q (λ m h. ground arith),
          l,
        )
        | inr same ↦ rw same (Extended-owed (λ m h. ground arith) a, l)
      ]

  -- A gain is not forgotten by the loop of a load.
  load_loop-changed :
      (dest : ℕ) (xs : List ℕ) (st : State S) → (load_loop S dest xs st true).1 ≡ true
  unfolding load_loop
  load_loop-changed dest [] st = refl
  load_loop-changed dest (x ∷ xs) st =
      load_loop-changed dest xs (add_edge S (find_rep S st x).0 (find_rep S st x).1 dest).0

  load_loop-Extended :
      (dest : ℕ) (xs : List ℕ) (st : State S) (chg : Bool)
      → IsSound S nn st
      → IsFlowing S pending st
      → dest < length st.nodes
      → cget_node_rep st.reps dest ≡ dest
      → ((x : ℕ) → contains x xs ≡ true → x < length st.nodes)
      → Extended S nn pending
          (λ m. (m == dest) && (load_loop S dest xs st chg).1)
          st
          (load_loop S dest xs st chg).0
        × ((x : ℕ)
            → contains x xs ≡ true
            → linked S (load_loop S dest xs st chg).0 (cget_node_rep st.reps x) dest ≡ true)
  unfolding load_loop
  load_loop-Extended dest [] st chg s f p root all =
      (Extended-refl S nn pending _ st s f, λ x h. absurd (ground arith))
  load_loop-Extended dest (x ∷ xs) st chg s f p root all =
      let found = (find_rep S st x).0 in
      let rn = (find_rep S st x).1 in
      let a = find-Found st x s f (all x (ground arith)) in
      let root1 = root-Extended dest a.rest s p root in
      let (b, l) =
        add_edge-Extended S nn pending found rn dest a.rest.sound a.rest.flowing a.here p root1 in
      let next = (add_edge S found rn dest).0 in
      let c = (add_edge S found rn dest).1 in
      let len : length next.nodes ≡ length st.nodes = b.count in
      let (r, ls) =
        load_loop-Extended dest xs next (chg || c) b.sound b.flowing (omega (arith, len))
          (root-Extended dest b a.rest.sound p root1)
          (λ y h. omega (arith, len, all y (ground arith))) in
      (
        Extended-trans S
            (Extended-trans S (Extended-owed (λ m h. absurd (ground arith)) a.rest) (
              Extended-owed
                (λ m h. elim (Bool-cases c) [
                  | inl yes_c ↦ ground (arith, load_loop-changed dest xs next, or_true chg c yes_c)
                  | inr no_c ↦ absurd (ground arith)
                ])
                b))
            r,
        λ y h. elim (Bool-cases (y == x)) [
          | inl same ↦
              let e : cget_node_rep st.reps y ≡ rn =
                ap (cget_node_rep st.reps) (let q : y ≡ x = ground arith in q) ∙ sym a.is in
              rw e (linked-Extended rn dest r l)
          | inr other ↦
              let q : y < length st.reps = omega (arith, s.same_length, all y h) in
              rw⁻¹ (a.rest.keeps.same_rep y q) (ls y (ground arith))
        ],
      )
    where
      or_true : (p q : Bool) → q ≡ true → p || q ≡ true
      or_true p q h = ground arith

  store_loop-Extended :
      (src : ℕ) (xs : List ℕ) (st : State S)
      → IsSound S nn st
      → IsFlowing S pending st
      → src < length st.nodes
      → ((x : ℕ) → contains x xs ≡ true → x < length st.nodes)
      → Extended S nn pending nobody st (store_loop S src xs st)
        × ((x : ℕ)
            → contains x xs ≡ true
            → linked S (store_loop S src xs st) src (cget_node_rep st.reps x) ≡ true)
  unfolding store_loop
  store_loop-Extended src [] st s f p all =
      (Extended-refl S nn pending _ st s f, λ x h. absurd (ground arith))
  store_loop-Extended src (x ∷ xs) st s f p all =
      let found = (find_rep S st x).0 in
      let rn = (find_rep S st x).1 in
      let a = find-Found st x s f (all x (ground arith)) in
      let (b, l) =
        add_edge_push-Extended found src rn a.rest.sound a.rest.flowing p a.here a.root in
      let next = add_edge_push S found src rn in
      let len : length next.nodes ≡ length st.nodes = b.count in
      let (r, ls) =
        store_loop-Extended src xs next b.sound b.flowing (omega (arith, len))
          (λ y h. omega (arith, len, all y (ground arith))) in
      (
        Extended-trans S (Extended-trans S a.rest b) r,
        λ y h. elim (Bool-cases (y == x)) [
          | inl same ↦
              let e : cget_node_rep st.reps y ≡ rn =
                ap (cget_node_rep st.reps) (let q : y ≡ x = ground arith in q) ∙ sym a.is in
              rw e (linked-Extended src rn r l)
          | inr other ↦
              let q : y < length st.reps = omega (arith, s.same_length, all y h) in
              let m = Extended-trans S a.rest b in rw⁻¹ (m.keeps.same_rep y q) (ls y (ground arith))
        ],
      )

  -- The edge that a load into `dest` or a store of `src` asks for at a node.
  abbrev pub served : Bool → ℕ → ℕ → State S → ℕ → Bool
  served load dest src t r = if load then linked S t r dest else linked S t src r

  pub solve_ls-Extended :
      (load : Bool) (dest src : ℕ) (xs : List ℕ) (st : State S)
      → IsSound S nn st
      → IsFlowing S pending st
      → src < length st.nodes
      → dest < length st.nodes
      → cget_node_rep st.reps dest ≡ dest
      → ((x : ℕ) → contains x xs ≡ true → x < length st.nodes)
      → Extended S nn pending nobody st (solve_ls S load dest src xs st)
        × ((x : ℕ)
            → contains x xs ≡ true
            → served load dest src (solve_ls S load dest src xs st) (cget_node_rep st.reps x)
              ≡ true)
  unfolding solve_ls push_node
  solve_ls-Extended false dest src xs st s f q p root all = store_loop-Extended src xs st s f q all
  solve_ls-Extended true dest src xs st s f q p root all =
      let (a, l) = load_loop-Extended dest xs st false s f p root all in
      elim (Bool-cases (load_loop S dest xs st false).1) [
        | inl changed ↦ rw changed (
          push-Extended S nn pending _ st (load_loop S dest xs st false).0 dest a p
              (λ m h. ground arith),
          l,
        )
        | inr same ↦ rw same (Extended-owed (λ m h. ground arith) a, l)
      ]
