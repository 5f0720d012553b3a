-- ===== src/Graph/Edges.antt =====
-- The copy edges that add_copy_edge of anders/solve.cpp adds, and the propagation along them.
use ptranalysis.Common.{
  ℕ, Bool, true, false, not, ◌&&◌, ◌||◌, ◌≡◌, ◌↔◌, ◌<◌, refl, ap, ◌∙◌, arith, ◌==◌, if◌then◌else◌,
  Bool-cases, inl, inr, List, length, length-set, set, get_or-set,
}
use ptranalysis.Bitmap.Vector
use ptranalysis.Bitmap.Search.{IsBitmap}
use ptranalysis.Bitmap.Laws.{member}
use ptranalysis.Bitmap.Algebra.{test_and_set-member}
use ptranalysis.Graph.{Sets, Node, new, node, i2p, add_copy_edge}

module _ (S : Sets) where
  -- Is there a copy edge from `s` to `d`?
  abbrev pub edge : List (Node S) → ℕ → ℕ → Bool
  edge nodes s d = member (node S nodes s).copy_to d

  -- Does node `n` point to `k`?
  abbrev pub points : List (Node S) → ℕ → ℕ → Bool
  points nodes n k = S.contains (node S nodes n).points_to k

  -- Did node `n` point to `k` at the start of its last visit?
  abbrev pub visited : List (Node S) → ℕ → ℕ → Bool
  visited nodes n k = S.contains (node S nodes n).prev_points_to k

  -- Will add_copy_edge look at the edge at all?
  abbrev pub admissible : ℕ → ℕ → Bool
  admissible src dest = not (src == i2p) && not (dest == i2p) && not (src == dest)

-- The edge is there, and if it is new the destination points to what the source points to. All
-- else is as it was, and the result tells whether any points-to set changed.
pub record EdgeAdded (S : Sets) (nodes : List (Node S)) (src dest : ℕ) (t : List (Node S))
    (changed : Bool) : Type 0 where
  pub same_length : length t ≡ length nodes
  pub bitmaps : (n : ℕ) → IsBitmap (node S nodes n).copy_to → IsBitmap (node S t n).copy_to
  pub edges :
      (n k : ℕ)
      → edge S t n k ≡ (admissible S src dest && (n == src) && (k == dest)) || edge S nodes n k
  pub pointed :
      (n k : ℕ)
      → points S t n k
        ≡ points S nodes n k
          || (admissible S src dest
              && (n == dest)
              && not (edge S nodes src dest)
              && points S nodes src k)
  pub same_visited : (n k : ℕ) → visited S t n k ≡ visited S nodes n k
  pub reports : (changed ≡ false) ↔ ((n k : ℕ) → points S t n k ≡ points S nodes n k)

module _ (S : Sets) (nodes : List (Node S)) (src dest : ℕ) (p : src < length nodes)
    (q : dest < length nodes) (ok : IsBitmap (node S nodes src).copy_to)
    (adm : admissible S src dest ≡ true) where
  abbrev s : Node S
  s = node S nodes src

  abbrev marked : List (Node S)
  marked = set nodes src (record s { copy_to = (Vector.test_and_set s.copy_to dest).0 })

  abbrev d : Node S
  d = node S marked dest

  abbrev joined : List (Node S)
  joined = set marked dest (record d { points_to = S.bdd_or d.points_to s.points_to })

  node-marked :
      (n : ℕ)
      → node S marked n ≡ (
          if src == n
          then record s { copy_to = (Vector.test_and_set s.copy_to dest).0 }
          else node S nodes n)
  node-marked n = get_or-set nodes src _ n (new S) p

  node-joined :
      (n : ℕ)
      → node S joined n ≡ (
          if dest == n
          then record d { points_to = S.bdd_or d.points_to s.points_to }
          else node S marked n)
  node-joined n = get_or-set marked dest _ n (new S) (
      omega (
        arith,
        length-set nodes src (record s { copy_to = (Vector.test_and_set s.copy_to dest).0 }),
      ))

  old-EdgeAdded :
      (Vector.test_and_set s.copy_to dest).1 ≡ false → EdgeAdded S nodes src dest marked false
  old-EdgeAdded old =
      let (t, new) = test_and_set-member s.copy_to dest ok in
      record {
        same_length = length-set nodes src _;
        bitmaps = λ n x. elim (Bool-cases (src == n)) [
          | inl e ↦ ground (arith, node-marked n, t.ok)
          | inr e ↦ ground (arith, node-marked n, x)
        ];
        edges = λ n k. ground (arith, node-marked n, t.decides k, new, old, adm);
        pointed = λ n k. ground (arith, node-marked n, new, old, adm);
        same_visited = λ n k. ground (arith, node-marked n);
        reports = (λ _ n k. ground (arith, node-marked n), λ _. refl);
      }

  -- The points-to set of the destination after the edge was added.
  abbrev grown : S.NodeSet
  grown = S.bdd_or d.points_to s.points_to

  points-marked : (n k : ℕ) → points S marked n k ≡ points S nodes n k
  points-marked n k = ground (arith, node-marked n)

  points-joined :
      (n k : ℕ)
      → points S joined n k ≡ (if dest == n then S.contains grown k else points S nodes n k)
  points-joined n k = ground (arith, node-joined n, points-marked n k)

  grown-contains : (k : ℕ) → S.contains grown k ≡ points S nodes dest k || points S nodes src k
  grown-contains k =
      ground (arith, S.contains-bdd_or d.points_to s.points_to k, points-marked dest k)

  -- The BDDs are the same exactly if no points-to set changed.
  joined-reports :
      (not (S.same grown d.points_to) ≡ false)
      ↔ ((n k : ℕ) → points S joined n k ≡ points S nodes n k)
  joined-reports =
      let iff = S.same_iff grown d.points_to in
      (
        λ h n k. ground (
          arith,
          points-joined n k,
          iff.0 (ground arith) k,
          points-marked dest k,
          ap (λ (m : ℕ). points S nodes m k) {x = dest} {y = n},
        ),
        λ all. ground (
          arith,
          iff.1 (λ k.
              let at : S.contains grown k ≡ points S nodes dest k =
                (let j = points-joined dest k in ground (arith, j)) ∙ all dest k in
              ground (arith, at, points-marked dest k)),
        ),
      )

  new-EdgeAdded :
      (Vector.test_and_set s.copy_to dest).1 ≡ true
      → EdgeAdded S nodes src dest joined (not (S.same grown d.points_to))
  new-EdgeAdded old =
      let (t, new) = test_and_set-member s.copy_to dest ok in
      record {
        same_length = length-set marked dest _ ∙ length-set nodes src _;
        bitmaps = λ n x. elim (Bool-cases (src == n)) [
          | inl e ↦ ground (arith, node-marked n, node-joined n, t.ok, adm)
          | inr e ↦ ground (arith, node-marked n, node-marked dest, node-joined n, x)
        ];
        edges =
            λ n k. ground (arith, node-marked n, node-marked dest, node-joined n, t.decides k, adm);
        pointed = λ n k. ground (
          arith,
          points-joined n k,
          grown-contains k,
          new,
          old,
          adm,
          ap (λ (m : ℕ). points S nodes m k) {x = dest} {y = n},
        );
        same_visited = λ n k. ground (arith, node-marked n, node-marked dest, node-joined n);
        reports = joined-reports;
      }

-- add_copy_edge between nodes that are there, with well-formed edges at the source: the edge is there
-- afterwards unless it is a self-loop or touches i2p; if it is new the destination points to
-- what the source points to as well; and the result tells whether any points-to set changed.
pub add_copy_edge_lem :
    (S : Sets) (nodes : List (Node S)) (src dest : ℕ)
    → src < length nodes
    → dest < length nodes
    → IsBitmap (node S nodes src).copy_to
    → EdgeAdded S nodes src dest
        (add_copy_edge S nodes src dest).0
        (add_copy_edge S nodes src dest).1
unfolding add_copy_edge
add_copy_edge_lem S nodes src dest p q ok =
    elim (Bool-cases (src == i2p || dest == i2p || src == dest)) [
      | inl closed ↦ rw closed (record {
        same_length = refl;
        bitmaps = λ n x. x;
        edges = λ n k. ground (arith, closed);
        pointed = λ n k. ground (arith, closed);
        same_visited = λ n k. refl;
        reports = (λ _ n k. refl, λ _. refl);
      })
      | inr free ↦ elim (Bool-cases (Vector.test_and_set (node S nodes src).copy_to dest).1) [
        | inl added ↦ rw (free, added) (new-EdgeAdded S nodes src dest p q ok (ground arith) added)
        | inr old ↦ rw (free, old) (old-EdgeAdded S nodes src dest p q ok (ground arith) old)
      ]
    ]

-- What the solver keeps between its steps: what a node had at the start of its last visit it still
-- has, and it has gone along every copy edge.
pub record IsPropagated (S : Sets) (nodes : List (Node S)) : Type 0 where
  pub bitmaps : (n : ℕ) → IsBitmap (node S nodes n).copy_to
  pub kept : (n k : ℕ) → visited S nodes n k ≡ true → points S nodes n k ≡ true
  pub flowed :
      (n d k : ℕ) → edge S nodes n d ≡ true → visited S nodes n k ≡ true → points S nodes d k ≡ true

-- add_copy_edge between nodes that are there keeps the nodes propagated: what a node had at the start
-- of its last visit it still has, and has passed along every copy edge, the new one included.
pub add_copy_edge-IsPropagated :
    (S : Sets) (nodes : List (Node S)) (src dest : ℕ)
    → src < length nodes
    → dest < length nodes
    → IsPropagated S nodes
    → IsPropagated S (add_copy_edge S nodes src dest).0
add_copy_edge-IsPropagated S nodes src dest p q f =
    let e = add_copy_edge_lem S nodes src dest p q (f.bitmaps src) in
    record {
      bitmaps = λ n. e.bitmaps n (f.bitmaps n);
      kept = λ n k h. ground (arith, e.pointed n k, e.same_visited n k, f.kept n k);
      flowed = λ n d k h v. elim (Bool-cases (edge S nodes n d)) [
        | inl there ↦ ground (arith, e.pointed d k, e.same_visited n k, f.flowed n d k)
        | inr added ↦ ground (
          arith,
          e.pointed d k,
          e.same_visited n k,
          f.kept src k,
          e.edges n d,
          h,
          v,
          ap (λ (m : ℕ). visited S nodes m k) {x = n} {y = src},
          ap (λ (m : ℕ). edge S nodes src m) {x = d} {y = dest},
          ap (λ (m : ℕ). edge S nodes m dest) {x = n} {y = src},
        )
      ];
    }
