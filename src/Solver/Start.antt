-- ===== src/Solver/Start.antt =====
-- The state in which solve_init of anders/solve.cpp leaves the graph: every constraint is in it.
use ptranalysis.Common.{
  ℕ, ◌≤◌, ◌<◌, ◌≡◌, ◌⊎◌, refl, sym, ap, ◌∙◌, true, false, some, List, [], ◌∷◌, ◌++◌, arith, ltb,
  ◌==◌, if◌then◌else◌, inl, inr, length, get_or, set, get_or-set, get_or-concat, length-set,
  length-append, ℕ_discrete, eq→==, ne→==,
}
use ptranalysis.Constraint.{
  Constraint, ConsType, addr_of_cons, copy_cons, load_cons, store_cons, gep_cons,
}
use ptranalysis.UnionFind.Forest.{IsForest}
use ptranalysis.UnionFind.Find.{Keeps, Keeps-refl, Keeps-trans}
use ptranalysis.Graph.{Sets, Node, new, node}
use ptranalysis.Graph.Edges.{edge, points}
use ptranalysis.Graph.Merging.{IsNode}
use ptranalysis.Bitmap.Vector
use ptranalysis.Bitmap.Vector.{Bitmap}
use ptranalysis.Bitmap.Laws.{member, set-member}
use ptranalysis.Solver.Variables.{Vars}
use ptranalysis.Solver.Prepared.{IsCache, get_node_var_lem}
use ptranalysis.Solver.Setup.{Setup, place}

module _ (S : Sets) (vars : Vars S) where
  -- A node that has all that another has, and had the same at its last visit.
  pub record Above (a b : Node S) : Type 0 where
    pub pts : (k : ℕ) → S.contains a.points_to k ≡ true → S.contains b.points_to k ≡ true
    pub prev : b.prev_points_to ≡ a.prev_points_to
    pub copies : (k : ℕ) → member a.copy_to k ≡ true → member b.copy_to k ≡ true
    pub loads : (k : ℕ) → member a.load_to k ≡ true → member b.load_to k ≡ true
    pub stores : (k : ℕ) → member a.store_from k ≡ true → member b.store_from k ≡ true
    pub gep_tos : (k : ℕ) → member a.gep_to k ≡ true → member b.gep_to k ≡ true
    pub ok : IsNode S a → IsNode S b

  pub Above-refl : (a : Node S) → Above a a
  Above-refl a = record {
    pts = λ k h. h;
    prev = refl;
    copies = λ k h. h;
    loads = λ k h. h;
    stores = λ k h. h;
    gep_tos = λ k h. h;
    ok = λ h. h;
  }

  -- The graph keeps what is in it, and gets copy edges only to nodes that are there.
  pub record Kept (s t : Setup S vars) : Type 0 where
    pub keeps : Keeps s.reps t.reps
    pub count : length t.nodes ≡ length s.nodes
    pub above : (m : ℕ) → Above (node S s.nodes m) (node S t.nodes m)
    pub targets :
        (m d : ℕ) → edge S t.nodes m d ≡ true → (edge S s.nodes m d ≡ true) ⊎ (d < length s.nodes)
    pub cplx_count : length s.cplx_cons ≤ length t.cplx_cons
    pub cplx :
        (j : ℕ) (c : Constraint)
        → j < length s.cplx_cons
        → get_or t.cplx_cons j c ≡ get_or s.cplx_cons j c
    pub cache : IsCache S vars t.node_vars
    pub same_vars : length t.node_vars ≡ length s.node_vars

  pub Kept-refl : (s : Setup S vars) → IsForest s.reps → IsCache S vars s.node_vars → Kept s s
  Kept-refl s f c = record {
    keeps = Keeps-refl s.reps f;
    count = refl;
    above = λ m. Above-refl (node S s.nodes m);
    targets = λ m d h. inl h;
    cplx_count = omega arith;
    cplx = λ j d h. refl;
    cache = c;
    same_vars = refl;
  }

  pub Kept-trans : {a b c : Setup S vars} → Kept a b → Kept b c → Kept a c
  Kept-trans x y = record {
    keeps = Keeps-trans x.keeps y.keeps;
    count = y.count ∙ x.count;
    above = λ m.
        let u = x.above m in
        let v = y.above m in
        record {
          pts = λ k h. v.pts k (u.pts k h);
          prev = v.prev ∙ u.prev;
          copies = λ k h. v.copies k (u.copies k h);
          loads = λ k h. v.loads k (u.loads k h);
          stores = λ k h. v.stores k (u.stores k h);
          gep_tos = λ k h. v.gep_tos k (u.gep_tos k h);
          ok = λ h. v.ok (u.ok h);
        };
    targets = λ m d h. elim (y.targets m d h) [
      | inr p ↦ inr (omega (arith, x.count))
      | inl e ↦ x.targets m d e
    ];
    cplx_count = omega (arith, x.cplx_count, y.cplx_count);
    cplx = λ j d h. y.cplx j d (omega (arith, x.cplx_count)) ∙ x.cplx j d h;
    cache = y.cache;
    same_vars = y.same_vars ∙ x.same_vars;
  }

  -- The constraint is in `cplx_cons` at a number of the bit vector.
  abbrev pub IsStored : Constraint → Bitmap → Setup S vars → Type 0
  IsStored c b t =
      (j : ℕ) × (j < length t.cplx_cons) × (member b j ≡ true) × (get_or t.cplx_cons j c ≡ c)

  -- The constraint is in the graph, between the representatives `dest` and `src`.
  abbrev pub IsPlaced : ConsType → Constraint → ℕ → ℕ → Setup S vars → Type 0
  IsPlaced addr_of_cons c dest src t = points S t.nodes dest src ≡ true
  IsPlaced copy_cons c dest src t = edge S t.nodes src dest ≡ true
  IsPlaced load_cons c dest src t = IsStored c (node S t.nodes src).load_to t
  IsPlaced store_cons c dest src t = IsStored c (node S t.nodes dest).store_from t
  IsPlaced gep_cons c dest src t = IsStored c (node S t.nodes src).gep_to t

  IsStored-Kept :
      {s t : Setup S vars} (c : Constraint) (a b : Bitmap)
      → Kept s t
      → ((k : ℕ) → member a k ≡ true → member b k ≡ true)
      → IsStored c a s
      → IsStored c b t
  IsStored-Kept c a b x sub (j, l, m, e) =
      (j, omega (arith, x.cplx_count), sub j m, x.cplx j c l ∙ e)

  pub IsPlaced-Kept :
      (k : ConsType) {s t : Setup S vars} (c : Constraint) (dest src : ℕ)
      → Kept s t
      → IsPlaced k c dest src s
      → IsPlaced k c dest src t
  IsPlaced-Kept addr_of_cons c dest src x h = (x.above dest).pts src h
  IsPlaced-Kept copy_cons c dest src x h = (x.above src).copies dest h
  IsPlaced-Kept load_cons {s} {t} c dest src x h =
      IsStored-Kept c (node S s.nodes src).load_to (node S t.nodes src).load_to x
        (x.above src).loads h
  IsPlaced-Kept store_cons {s} {t} c dest src x h =
      IsStored-Kept c (node S s.nodes dest).store_from (node S t.nodes dest).store_from x
        (x.above dest).stores h
  IsPlaced-Kept gep_cons {s} {t} c dest src x h =
      IsStored-Kept c (node S s.nodes src).gep_to (node S t.nodes src).gep_to x
        (x.above src).gep_tos h

  -- One node is replaced by one above it.
  pub Kept-set :
      (s t : Setup S vars) (i : ℕ) (v : Node S)
      → IsForest s.reps
      → i < length s.nodes
      → t.nodes ≡ set s.nodes i v
      → t.reps ≡ s.reps
      → Above (node S s.nodes i) v
      → ((d : ℕ) → member v.copy_to d ≡ true → (edge S s.nodes i d ≡ true) ⊎ (d < length s.nodes))
      → length s.cplx_cons ≤ length t.cplx_cons
      → ((j : ℕ) (c : Constraint)
          → j < length s.cplx_cons
          → get_or t.cplx_cons j c ≡ get_or s.cplx_cons j c)
      → IsCache S vars t.node_vars
      → length t.node_vars ≡ length s.node_vars
      → Kept s t
  Kept-set s t i v f p e r a tg cc cp ca cv =
      let at : (m : ℕ) → node S t.nodes m ≡ (if i == m then v else node S s.nodes m) =
        λ m. ap (λ (ns : List (Node S)). node S ns m) e ∙ get_or-set s.nodes i v m (new S) p in
      record {
        keeps = rw r (Keeps-refl s.reps f);
        count = ap length e ∙ length-set s.nodes i v;
        above = λ m. elim (ℕ_discrete i m) [
          | yes same ↦
              let w : node S t.nodes m ≡ v = at m ∙ rw (eq→== i m same) refl in rw (w, sym same) a
          | no other ↦
              let w : node S t.nodes m ≡ node S s.nodes m = at m ∙ rw (ne→== i m other) refl in
              rw w (Above-refl (node S s.nodes m))
        ];
        targets = λ m d h. elim (ℕ_discrete i m) [
          | yes same ↦
              let w : node S t.nodes m ≡ v = at m ∙ rw (eq→== i m same) refl in
              let g : member v.copy_to d ≡ true =
                sym (ap (λ (n : Node S). member n.copy_to d) w) ∙ h in
              rw (sym same) (tg d g)
          | no other ↦
              let w : node S t.nodes m ≡ node S s.nodes m = at m ∙ rw (ne→== i m other) refl in
              inl (sym (ap (λ (n : Node S). member n.copy_to d) w) ∙ h)
        ];
        cplx_count = cc;
        cplx = cp;
        cache = ca;
        same_vars = cv;
      }

  -- The assertions on a constraint between the representatives.
  abbrev pub IsAllowed : ℕ → ConsType → ℕ → ℕ → Type 0
  IsAllowed npts addr_of_cons dest src = src < npts
  IsAllowed npts copy_cons dest src = (src == dest) ≡ false
  IsAllowed npts load_cons dest src = Unit {0}
  IsAllowed npts store_cons dest src = Unit {0}
  IsAllowed npts gep_cons dest src = Unit {0}

  -- A constraint that is stored under the next number.
  stored_new :
      (c : Constraint) (cs : List Constraint)
      → (length cs < length (cs ++ c ∷ [])) × (get_or (cs ++ c ∷ []) (length cs) c ≡ c)
  stored_new c cs =
      (omega (arith, length-append cs (c ∷ [])), get_or-concat cs c (length cs) c ∙ ground arith)

  stored_old :
      (c : Constraint) (cs : List Constraint) (j : ℕ) (d : Constraint)
      → j < length cs
      → get_or (cs ++ c ∷ []) j d ≡ get_or cs j d
  stored_old c cs j d h =
      get_or-concat cs c j d ∙ (let e : (j == length cs) ≡ false = ground arith in rw e refl)

  module _ (npts : ℕ) (c : Constraint) (dest src : ℕ) (s : Setup S vars) (f : IsForest s.reps)
      (p : dest < length s.nodes) (q : src < length s.nodes)
      (ok : (m : ℕ) → m < length s.nodes → IsNode S (node S s.nodes m))
      (ca : IsCache S vars s.node_vars) where
    -- What a constraint comes to.
    abbrev pub Outcome : ConsType → Type 0
    Outcome k =
        (t : Setup S vars) × (place S vars npts k c dest src s ≡ some t)
        × Kept s t
        × IsPlaced k c dest src t
        × (t.reps ≡ s.reps)

    node_at : (i : ℕ) (v : Node S) → i < length s.nodes → node S (set s.nodes i v) i ≡ v
    node_at i v h = get_or-set s.nodes i v i (new S) h ∙ rw (eq→== i i refl) refl

    place_addr_of : src < npts → npts ≤ length s.node_vars → Outcome addr_of_cons
    unfolding place
    place_addr_of small room =
        let (more, b, there, cache, len, is) =
          get_node_var_lem S vars s.node_vars src ca (omega arith) in
        let d = node S s.nodes dest in
        let v : Node S = record d { points_to = S.bdd_or d.points_to b } in
        let fits : ltb src npts ≡ true = ground arith in
        (
          record s { nodes = set s.nodes dest v; node_vars = more },
          rw (fits, there) refl,
          Kept-set s _ dest v f p refl refl
              (record {
                pts = λ k h. ground (arith, S.contains-bdd_or d.points_to b k);
                prev = refl;
                copies = λ k h. h;
                loads = λ k h. h;
                stores = λ k h. h;
                gep_tos = λ k h. h;
                ok = λ o. record {
                  copy_ok = o.copy_ok;
                  load_ok = o.load_ok;
                  store_ok = o.store_ok;
                  gep_ok = o.gep_ok;
                };
              })
              (λ k h. inl h) (omega arith) (λ j e h. refl) cache len,
          ap (λ (n : Node S). S.contains n.points_to src) (node_at dest v p)
              ∙ ground (arith, S.contains-bdd_or d.points_to b src, is src),
          refl,
        )

    place_copy : (src == dest) ≡ false → Outcome copy_cons
    unfolding place
    place_copy other =
        let n = node S s.nodes src in
        let t = set-member n.copy_to dest (ok src q).copy_ok in
        let v : Node S = record n { copy_to = Vector.set n.copy_to dest } in
        (
          record s { nodes = set s.nodes src v },
          rw other refl,
          Kept-set s _ src v f q refl refl
              (record {
                pts = λ k h. h;
                prev = refl;
                copies = λ k h. ground (arith, t.decides k);
                loads = λ k h. h;
                stores = λ k h. h;
                gep_tos = λ k h. h;
                ok = λ o. record {
                  copy_ok = t.ok;
                  load_ok = o.load_ok;
                  store_ok = o.store_ok;
                  gep_ok = o.gep_ok;
                };
              })
              (λ k h. elim (ℕ_discrete k dest) [
                | yes e ↦ inr (omega arith)
                | no n' ↦ inl (ground (arith, t.decides k))
              ])
              (omega arith) (λ j e h. refl) ca refl,
          ap (λ (m : Node S). member m.copy_to dest) (node_at src v q)
              ∙ ground (arith, t.decides dest),
          refl,
        )

    place_load : Outcome load_cons
    unfolding place
    place_load =
        let n = node S s.nodes src in
        let t = set-member n.load_to (length s.cplx_cons) (ok src q).load_ok in
        let v : Node S = record n { load_to = Vector.set n.load_to (length s.cplx_cons) } in
        let (l, e) = stored_new c s.cplx_cons in
        (
          record s { nodes = set s.nodes src v; cplx_cons = s.cplx_cons ++ c ∷ [] },
          refl,
          Kept-set s _ src v f q refl refl
              (record {
                pts = λ k h. h;
                prev = refl;
                copies = λ k h. h;
                loads = λ k h. ground (arith, t.decides k);
                stores = λ k h. h;
                gep_tos = λ k h. h;
                ok = λ o. record {
                  copy_ok = o.copy_ok;
                  load_ok = t.ok;
                  store_ok = o.store_ok;
                  gep_ok = o.gep_ok;
                };
              })
              (λ k h. inl h) (omega (arith, l)) (λ j d h. stored_old c s.cplx_cons j d h) ca refl,
          (
            length s.cplx_cons,
            l,
            ap (λ (m : Node S). member m.load_to (length s.cplx_cons)) (node_at src v q)
                ∙ ground (arith, t.decides (length s.cplx_cons)),
            e,
          ),
          refl,
        )

    place_store : Outcome store_cons
    unfolding place
    place_store =
        let n = node S s.nodes dest in
        let t = set-member n.store_from (length s.cplx_cons) (ok dest p).store_ok in
        let v : Node S = record n { store_from = Vector.set n.store_from (length s.cplx_cons) } in
        let (l, e) = stored_new c s.cplx_cons in
        (
          record s { nodes = set s.nodes dest v; cplx_cons = s.cplx_cons ++ c ∷ [] },
          refl,
          Kept-set s _ dest v f p refl refl
              (record {
                pts = λ k h. h;
                prev = refl;
                copies = λ k h. h;
                loads = λ k h. h;
                stores = λ k h. ground (arith, t.decides k);
                gep_tos = λ k h. h;
                ok = λ o. record {
                  copy_ok = o.copy_ok;
                  load_ok = o.load_ok;
                  store_ok = t.ok;
                  gep_ok = o.gep_ok;
                };
              })
              (λ k h. inl h) (omega (arith, l)) (λ j d h. stored_old c s.cplx_cons j d h) ca refl,
          (
            length s.cplx_cons,
            l,
            ap (λ (m : Node S). member m.store_from (length s.cplx_cons)) (node_at dest v p)
                ∙ ground (arith, t.decides (length s.cplx_cons)),
            e,
          ),
          refl,
        )

    place_gep : Outcome gep_cons
    unfolding place
    place_gep =
        let n = node S s.nodes src in
        let t = set-member n.gep_to (length s.cplx_cons) (ok src q).gep_ok in
        let v : Node S = record n { gep_to = Vector.set n.gep_to (length s.cplx_cons) } in
        let (l, e) = stored_new c s.cplx_cons in
        (
          record s { nodes = set s.nodes src v; cplx_cons = s.cplx_cons ++ c ∷ [] },
          refl,
          Kept-set s _ src v f q refl refl
              (record {
                pts = λ k h. h;
                prev = refl;
                copies = λ k h. h;
                loads = λ k h. h;
                stores = λ k h. h;
                gep_tos = λ k h. ground (arith, t.decides k);
                ok = λ o. record {
                  copy_ok = o.copy_ok;
                  load_ok = o.load_ok;
                  store_ok = o.store_ok;
                  gep_ok = t.ok;
                };
              })
              (λ k h. inl h) (omega (arith, l)) (λ j d h. stored_old c s.cplx_cons j d h) ca refl,
          (
            length s.cplx_cons,
            l,
            ap (λ (m : Node S). member m.gep_to (length s.cplx_cons)) (node_at src v q)
                ∙ ground (arith, t.decides (length s.cplx_cons)),
            e,
          ),
          refl,
        )

    pub place_lem :
        (k : ConsType) → IsAllowed npts k dest src → npts ≤ length s.node_vars → Outcome k
    place_lem addr_of_cons h room = place_addr_of h room
    place_lem copy_cons h room = place_copy h
    place_lem load_cons h room = place_load
    place_lem store_cons h room = place_store
    place_lem gep_cons h room = place_gep
