-- ===== src/Graph/Merging.antt =====
-- What merge_nodes of anders/cons_opt.cpp makes of the sets of the two nodes.
use ptranalysis.Common.{
  ℕ, false, not, ◌&&◌, ◌||◌, ◌≡◌, ◌≤◌, ◌⊎◌, refl, arith, ltb, ◌==◌, Bool-cases, inl, inr,
}
use ptranalysis.Bitmap.Vector
use ptranalysis.Bitmap.Vector.{Bitmap}
use ptranalysis.Bitmap.Search.{IsBitmap}
use ptranalysis.Bitmap.Laws.{member, Stands, test-member}
use ptranalysis.Bitmap.Algebra.{reset-member, union-member, new-member}
use ptranalysis.Graph.{Sets, Node, drop_edge, merge_data}

-- The edge sets of a node are well-formed.
pub record IsNode (S : Sets) (a : Node S) : Type 0 where
  pub copy_ok : IsBitmap a.copy_to
  pub load_ok : IsBitmap a.load_to
  pub store_ok : IsBitmap a.store_from
  pub gep_ok : IsBitmap a.gep_to

-- The parent has what both nodes had, but for copy edges to either of them, and has propagated
-- nothing yet.
pub record Merged (S : Sets) (n1 n2 : ℕ) (a b t : Node S) : Type 0 where
  pub ok : IsNode S t
  pub points :
      (k : ℕ) → S.contains t.points_to k ≡ S.contains a.points_to k || S.contains b.points_to k
  pub unseen : (k : ℕ) → S.contains t.prev_points_to k ≡ false
  pub copies :
      (k : ℕ)
      → member t.copy_to k
        ≡ not (k == n1) && not (k == n2) && (member a.copy_to k || member b.copy_to k)
  pub loads : (k : ℕ) → member t.load_to k ≡ member a.load_to k || member b.load_to k
  pub stores : (k : ℕ) → member t.store_from k ≡ member a.store_from k || member b.store_from k
  pub geps : (k : ℕ) → member t.gep_to k ≡ member a.gep_to k || member b.gep_to k
  pub sooner :
      (t.vtime ≤ a.vtime) × (t.vtime ≤ b.vtime) × ((t.vtime ≡ a.vtime) ⊎ (t.vtime ≡ b.vtime))
  pub pointer : t.nonptr ≡ a.nonptr && b.nonptr

-- The child is left without edges and points-to set.
pub record Emptied (S : Sets) (t : Node S) : Type 0 where
  pub ok : IsNode S t
  pub points : (k : ℕ) → S.contains t.points_to k ≡ false
  pub edges :
      (k : ℕ)
      → (member t.copy_to k ≡ false)
        × (member t.load_to k ≡ false)
        × (member t.store_from k ≡ false)
        × (member t.gep_to k ≡ false)

module _ (S : Sets) where
  drop_edge-member :
      (b : Bitmap) (n : ℕ) → IsBitmap b → Stands (drop_edge S b n) (λ k. not (k == n) && member b k)
  unfolding drop_edge
  drop_edge-member b n ok =
      let (found, same, ok') = test-member b n ok in
      elim (Bool-cases (Vector.test b n).1) [
        | inl there ↦
            let r = reset-member (Vector.test b n).0 n ok' in
            rw there (record { ok = r.ok; decides = λ k. ground (arith, r.decides k, same) })
        | inr missing ↦
            rw missing (record { ok = ok'; decides = λ k. ground (arith, same, found, missing) })
      ]

  -- When two nodes with well-formed edges are merged, the parent has the points-to
  -- sets and edges of both, but no copy edge to either of them, the earlier of the two visits, and
  -- nothing propagated; it is a non-pointer if both are. The child is left without edges and
  -- points-to set.
  pub merge_data_lem :
      (n1 n2 : ℕ) (a b : Node S)
      → IsNode S a
      → IsNode S b
      → Merged S n1 n2 a b (merge_data S n1 n2 a b).0 × Emptied S (merge_data S n1 n2 a b).1
  unfolding merge_data
  merge_data_lem n1 n2 a b x y =
      let u = union-member a.copy_to b.copy_to x.copy_ok y.copy_ok in
      let v = drop_edge-member (Vector.union a.copy_to b.copy_to).0 n1 u.ok in
      let w = drop_edge-member (drop_edge S (Vector.union a.copy_to b.copy_to).0 n1) n2 v.ok in
      let l = union-member a.load_to b.load_to x.load_ok y.load_ok in
      let s = union-member a.store_from b.store_from x.store_ok y.store_ok in
      let g = union-member a.gep_to b.gep_to x.gep_ok y.gep_ok in
      let t = (merge_data S n1 n2 a b).0 in
      let earlier : (t.vtime ≤ a.vtime)
          × (t.vtime ≤ b.vtime)
          × ((t.vtime ≡ a.vtime) ⊎ (t.vtime ≡ b.vtime)) =
        elim (Bool-cases (ltb b.vtime a.vtime)) [
          | inl less ↦ (ground (arith, less), ground (arith, less), inr (ground (arith, less)))
          | inr more ↦ (ground (arith, more), ground (arith, more), inl (ground (arith, more)))
        ] in
      (
        record {
          ok = record { copy_ok = w.ok; load_ok = l.ok; store_ok = s.ok; gep_ok = g.ok };
          points = S.contains-bdd_or a.points_to b.points_to;
          unseen = S.contains-bddfalse;
          copies = λ k. ground (arith, w.decides k, v.decides k, u.decides k);
          loads = l.decides;
          stores = s.decides;
          geps = g.decides;
          sooner = earlier;
          pointer = refl;
        },
        record {
          ok = record {
            copy_ok = new-member.ok;
            load_ok = new-member.ok;
            store_ok = new-member.ok;
            gep_ok = new-member.ok;
          };
          points = S.contains-bddfalse;
          edges = λ k. (
            new-member.decides k,
            new-member.decides k,
            new-member.decides k,
            new-member.decides k,
          );
        },
      )
