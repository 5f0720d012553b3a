-- ===== src/Graph.antt =====
-- The nodes of the constraint graph, class Node of include/anders.h, with what add_copy_edge of
-- anders/solve.cpp and merge_nodes of anders/cons_opt.cpp do to their sets. The field `rep` is in
-- UnionFind, and `val` points to a value of LLVM.
pub mod Edges
pub mod Merging
use ptranalysis.Common.{
  ℕ, Bool, true, false, not, ◌&&◌, ◌||◌, List, ◌≡◌, ◌↔◌, ltb, ◌==◌, if◌then◌else◌, get_or, set,
}
use ptranalysis.Bitmap.Vector
use ptranalysis.Bitmap.Vector.{Bitmap}

-- Sets of nodes as the BDD library has them: bddfalse, bdd_or, bdd_and, the - and the == of bdd, which compares the
-- sets since the diagrams are canonical.
pub record Sets : Type 1 where
  pub NodeSet : Type 0
  pub bddfalse : NodeSet
  pub bdd_or : NodeSet → NodeSet → NodeSet
  pub bdd_and : NodeSet → NodeSet → NodeSet
  pub bdd_diff : NodeSet → NodeSet → NodeSet
  pub same : NodeSet → NodeSet → Bool
  pub contains : NodeSet → ℕ → Bool
  pub contains-bddfalse : (n : ℕ) → contains bddfalse n ≡ false
  pub contains-bdd_or :
      (a b : NodeSet) (n : ℕ) → contains (bdd_or a b) n ≡ contains a n || contains b n
  pub contains-bdd_and :
      (a b : NodeSet) (n : ℕ) → contains (bdd_and a b) n ≡ contains a n && contains b n
  pub contains-bdd_diff :
      (a b : NodeSet) (n : ℕ) → contains (bdd_diff a b) n ≡ contains a n && not (contains b n)
  pub same_iff : (a b : NodeSet) → (same a b ≡ true) ↔ ((n : ℕ) → contains a n ≡ contains b n)

-- The node for the unknown target of pointers cast from integers.
abbrev pub i2p : ℕ
i2p = 1

pub record Node (S : Sets) : Type 0 where
  pub obj_sz : ℕ
  pub vtime : ℕ
  pub nonptr : Bool
  pub weak : Bool
  pub points_to : S.NodeSet
  pub prev_points_to : S.NodeSet
  pub copy_to : Bitmap
  pub load_to : Bitmap
  pub store_from : Bitmap
  pub gep_to : Bitmap

module _ (S : Sets) where
  -- The constructor, with its default arguments.
  abbrev pub new : Node S
  new = record {
    obj_sz = 0;
    vtime = 0;
    nonptr = false;
    weak = false;
    points_to = S.bddfalse;
    prev_points_to = S.bddfalse;
    copy_to = Vector.new;
    load_to = Vector.new;
    store_from = Vector.new;
    gep_to = Vector.new;
  }

  -- `nodes[n]`, behind the bounds that the callers keep.
  abbrev pub node : List (Node S) → ℕ → Node S
  node nodes n = get_or nodes n new

  -- The nodes after the call, and whether the points-to set of `dest` changed.
  unfoldable pub add_copy_edge : List (Node S) → ℕ → ℕ → List (Node S) × Bool
  add_copy_edge nodes src dest =
      if src == i2p || dest == i2p || src == dest
      then (nodes, false)
      else let s = node nodes src in
        let (copy_to, added) = Vector.test_and_set s.copy_to dest in
        let marked = set nodes src (record s { copy_to = copy_to }) in
        if added
        then (let d = node marked dest in
            let points_to = S.bdd_or d.points_to s.points_to in
            (
              set marked dest (record d { points_to = points_to }),
              not (S.same points_to d.points_to),
            ))
        else (marked, false)

  -- `if(copy_to.test(n)) copy_to.reset(n)`
  unfoldable pub drop_edge : Bitmap → ℕ → Bitmap
  drop_edge b n = let (b', there) = Vector.test b n in if there then Vector.reset b' n else b'

  -- What becomes of the parent `n1` and the child `n2` when they are merged.
  unfoldable pub merge_data : ℕ → ℕ → Node S → Node S → Node S × Node S
  unfolding drop_edge
  merge_data n1 n2 a b = (
    record a {
      vtime = if ltb b.vtime a.vtime then b.vtime else a.vtime;
      points_to = S.bdd_or a.points_to b.points_to;
      copy_to = drop_edge (drop_edge (Vector.union a.copy_to b.copy_to).0 n1) n2;
      load_to = (Vector.union a.load_to b.load_to).0;
      store_from = (Vector.union a.store_from b.store_from).0;
      gep_to = (Vector.union a.gep_to b.gep_to).0;
      prev_points_to = S.bddfalse;
      nonptr = a.nonptr && b.nonptr;
    },
    record b {
      points_to = S.bddfalse;
      prev_points_to = S.bddfalse;
      copy_to = Vector.clear b.copy_to;
      load_to = Vector.clear b.load_to;
      store_from = Vector.clear b.store_from;
      gep_to = Vector.clear b.gep_to;
    },
  )
