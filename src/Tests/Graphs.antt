-- ===== src/Tests/Graphs.antt =====
-- Runs of the graph of include/anders.h, with sets of nodes as bit masks.
use Prim.Native.Nat.{bit_and, bit_or}
use ptranalysis.Common.{
  ℕ, zero, suc, ◌≡◌, refl, true, false, arith, List, [], ◌∷◌, ◌==◌, ap, ◌||◌, ==→eq, eq→==,
}
use ptranalysis.Common.Bits.{
  has, bit_diff, has-bit_diff, has-bit_and, has-bit_or, has-zero, eq_of_has,
}
use ptranalysis.Bitmap.Vector
use ptranalysis.Bitmap.Search.{IsBitmap}
use ptranalysis.Bitmap.Algebra.{new-member}
use ptranalysis.Bitmap.Laws.{member, set-member}
use ptranalysis.Graph.{Sets, Node, new, node, add_copy_edge, merge_data}
use ptranalysis.Graph.Edges.{EdgeAdded, add_copy_edge_lem, IsPropagated, add_copy_edge-IsPropagated}
use ptranalysis.Constraint.{Constraint, copy_cons, addr_of_cons, equal}
use ptranalysis.Clump
use ptranalysis.Clump.{clump_addr_taken, move_constraint}
use ptranalysis.Clump.Correct.{Clumped, clump_addr_taken_lem}
use ptranalysis.Clump.Renumber.{move_constraint-equal}
use ptranalysis.Graph.Merging.{IsNode, Merged, Emptied, merge_data_lem}

abbrev pub masks : Sets
masks = record {
  NodeSet = ℕ;
  bddfalse = 0;
  bdd_or = bit_or;
  bdd_and = bit_and;
  bdd_diff = bit_diff;
  same = λ a b. a == b;
  contains = has;
  contains-bddfalse = has-zero;
  contains-bdd_or = has-bit_or;
  contains-bdd_and = has-bit_and;
  contains-bdd_diff = has-bit_diff;
  same_iff =
      λ a b. (λ h n. ap (λ (x : ℕ). has x n) (==→eq a b h), λ all. eq→== a b (eq_of_has a b all));
}

-- A node that points to the objects of the mask, and has propagated none of them.
abbrev pub pointing : ℕ → Node masks
pointing m = record (new masks) { points_to = m }

abbrev four_nodes : List (Node masks)
four_nodes =
    pointing 0 ∷ pointing 0 ∷ record (pointing 12) { prev_points_to = 4 } ∷ pointing 16 ∷ []

add_copy_edge_lem_example :
    EdgeAdded masks four_nodes 2 3
      (add_copy_edge masks four_nodes 2 3).0
      (add_copy_edge masks four_nodes 2 3).1
add_copy_edge_lem_example =
    add_copy_edge_lem masks four_nodes 2 3 (omega arith) (omega arith) new-member.ok

four_nodes-IsPropagated : IsPropagated masks four_nodes
four_nodes-IsPropagated = record {
  bitmaps = ok;
  kept = seen;
  flowed = λ n d k e h. absurd (cc (no_edge n d, e));
}
  where
    ok : (n : ℕ) → IsBitmap (node masks four_nodes n).copy_to
    ok zero = new-member.ok
    ok (suc zero) = new-member.ok
    ok (suc (suc zero)) = new-member.ok
    ok (suc (suc (suc zero))) = new-member.ok
    ok (suc (suc (suc (suc n)))) = new-member.ok

    seen :
        (n k : ℕ)
        → has (node masks four_nodes n).prev_points_to k ≡ true
        → has (node masks four_nodes n).points_to k ≡ true
    seen zero k h = h
    seen (suc zero) k h = h
    seen (suc (suc zero)) k h =
        let e : has 12 k ≡ has 4 k || has 8 k = has-bit_or 4 8 k in ground arith
    seen (suc (suc (suc zero))) k h = absurd (cc (has-zero k, h))
    seen (suc (suc (suc (suc n)))) k h = h

    no_edge : (n d : ℕ) → member (node masks four_nodes n).copy_to d ≡ false
    no_edge zero d = new-member.decides d
    no_edge (suc zero) d = new-member.decides d
    no_edge (suc (suc zero)) d = new-member.decides d
    no_edge (suc (suc (suc zero))) d = new-member.decides d
    no_edge (suc (suc (suc (suc n)))) d = new-member.decides d

add_copy_edge-IsPropagated_example : IsPropagated masks (add_copy_edge masks four_nodes 2 3).0
add_copy_edge-IsPropagated_example =
    add_copy_edge-IsPropagated masks four_nodes 2 3 (omega arith) (omega arith)
      four_nodes-IsPropagated

abbrev linked : Node masks
linked = record (pointing 6) { copy_to = Vector.set Vector.new 5; nonptr = true }

linked-IsNode : IsNode masks linked
linked-IsNode = record {
  copy_ok = (set-member Vector.new 5 new-member.ok).ok;
  load_ok = new-member.ok;
  store_ok = new-member.ok;
  gep_ok = new-member.ok;
}

pointing-IsNode : IsNode masks (pointing 9)
pointing-IsNode = record {
  copy_ok = new-member.ok;
  load_ok = new-member.ok;
  store_ok = new-member.ok;
  gep_ok = new-member.ok;
}

merge_data_lem_example :
    Merged masks 5 7 linked (pointing 9) (merge_data masks 5 7 linked (pointing 9)).0
    × Emptied masks (merge_data masks 5 7 linked (pointing 9)).1
merge_data_lem_example = merge_data_lem masks 5 7 linked (pointing 9) linked-IsNode pointing-IsNode

-- Three special nodes, a value, an object of two nodes, and a value.
abbrev old_nodes : List (Node masks)
old_nodes =
    new masks
    ∷ new masks
    ∷ new masks
    ∷ new masks
    ∷ record (new masks) { obj_sz = 2 }
    ∷ record (new masks) { obj_sz = 1 }
    ∷ new masks
    ∷ []

clump_addr_taken_lem_example :
    Clumped masks old_nodes
      (clump_addr_taken masks old_nodes).0
      (clump_addr_taken masks old_nodes).1
      (clump_addr_taken masks old_nodes).2
clump_addr_taken_lem_example = clump_addr_taken_lem masks old_nodes (omega arith)

new_numbers : (clump_addr_taken masks old_nodes).1 ≡ 0 ∷ 1 ∷ 2 ∷ 5 ∷ 3 ∷ 4 ∷ 6 ∷ []
unfolding clump_addr_taken Clump.clump_objects Clump.clump_front Clump.keep_front Clump.move_loop
    Clump.move_node
new_numbers = refl

abbrev copied : Constraint
copied = record { kind = copy_cons; dest = 3; src = 6; off = 0 }

abbrev taken : Constraint
taken = record { kind = addr_of_cons; dest = 3; src = 4; off = 0 }

move_constraint-equal_example :
    equal
      (move_constraint (clump_addr_taken masks old_nodes).1 copied)
      (move_constraint (clump_addr_taken masks old_nodes).1 taken)
    ≡ equal copied taken
move_constraint-equal_example =
    move_constraint-equal masks old_nodes copied taken (omega arith) (omega arith, omega arith)
      (omega arith, omega arith)
