-- ===== src/Clump/Renumber.antt =====
-- The numbers that clump_addr_taken gives to the nodes in the constraints.
use ptranalysis.Common.{ℕ, ◌≤◌, ◌<◌, ◌≡◌, ◌≢◌, List, arith, ap, sym, length, dec_lt}
use ptranalysis.Graph.{Sets, Node}
use ptranalysis.Clump.{moved, first_var_node, clump_addr_taken, move_constraint}
use ptranalysis.Clump.Correct.{clump_addr_taken_lem}
use ptranalysis.Constraint.{Constraint, equal}

-- No two nodes move to the same place.
move_to-injective :
    (S : Sets) (old : List (Node S)) (i j : ℕ)
    → first_var_node ≤ length old
    → i < length old
    → j < length old
    → moved (clump_addr_taken S old).1 i ≡ moved (clump_addr_taken S old).1 j
    → i ≡ j
move_to-injective S old i j h l r e = elim (dec_lt i j) [
  | yes lt ↦ absurd (distinct i j lt r e)
  | no ge ↦ elim (dec_lt j i) [ yes gt ↦ absurd (distinct j i gt l (sym e)) | no le ↦ omega arith ]
]
  where
    distinct :
        (i j : ℕ)
        → i < j
        → j < length old
        → moved (clump_addr_taken S old).1 i ≢ moved (clump_addr_taken S old).1 j
    distinct i j l r =
        let c = clump_addr_taken_lem S old h in
        ground (
          arith,
          c.special i,
          c.special j,
          c.objects i,
          c.objects j,
          c.others i,
          c.others j,
          c.in_order i j,
          c.front,
        )

-- Constraints between nodes that are there are equal under the new numbers exactly if they are equal
-- under the old ones, when the special nodes are there.
pub move_constraint-equal :
    (S : Sets) (old : List (Node S)) (c d : Constraint)
    → first_var_node ≤ length old
    → (c.dest < length old) × (c.src < length old)
    → (d.dest < length old) × (d.src < length old)
    → equal
        (move_constraint (clump_addr_taken S old).1 c)
        (move_constraint (clump_addr_taken S old).1 d)
      ≡ equal c d
unfolding equal
move_constraint-equal S old c d h x y =
    let dest = move_to-injective S old c.dest d.dest h x.0 y.0 in
    let src = move_to-injective S old c.src d.src h x.1 y.1 in
    ground (
      arith,
      dest,
      src,
      ap (moved (clump_addr_taken S old).1) {x = c.dest} {y = d.dest},
      ap (moved (clump_addr_taken S old).1) {x = c.src} {y = d.src},
    )
