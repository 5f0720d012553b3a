-- ===== src/Tests/Nodes.antt =====
-- Runs of the constraints and the union-find structure of include/anders.h.
use ptranalysis.Common.{
  length, ℕ, ◌≡◌, ◌⊎◌, refl, true, false, arith, ◌||◌, List, replicate, [], ◌∷◌, Bool, ◌==◌,
}
use ptranalysis.Constraint.{
  Constraint, copy_cons, gep_cons, load_cons, equal, less, greater, at_most, at_least, differs,
}
use ptranalysis.Constraint.Order.{less_total, operators_agree}
use ptranalysis.UnionFind.{find, node_rank_min, get_node_rep, cget_node_rep, unite}
use ptranalysis.UnionFind.Forest.{IsForest, new-IsForest}
use ptranalysis.UnionFind.Find.{Keeps, get_node_rep_lem}
use ptranalysis.Rewrite.{rewrite_ptr_eq, rewrite_hcd, rewrite_loop, rewrite_one, contains}
use ptranalysis.Rewrite.Correct.{
  AllInRange, IsDistinct, wanted, rewrite_ptr_eq_lem, rewrite_hcd_lem,
}
use ptranalysis.UnionFind.Merge.{United, unite_lem}

abbrev copy : Constraint
copy = record { kind = copy_cons; dest = 4; src = 5; off = 0 }

abbrev gep : Constraint
gep = record { kind = gep_cons; dest = 4; src = 5; off = 2 }

abbrev load : Constraint
load = record { kind = load_cons; dest = 9; src = 1; off = 0 }

less_total_example :
    ((less copy gep ≡ true) × (equal copy gep ≡ false) × (less gep copy ≡ false))
    ⊎ ((less copy gep ≡ false) × (equal copy gep ≡ true) × (less gep copy ≡ false))
    ⊎ ((less copy gep ≡ false) × (equal copy gep ≡ false) × (less gep copy ≡ true))
less_total_example = less_total copy gep

operators_agree_example :
    (greater copy gep ≡ less gep copy)
    × (at_most copy gep ≡ less copy gep || equal copy gep)
    × (at_least copy gep ≡ less gep copy || equal copy gep)
    × (differs copy gep ≡ less copy gep || less gep copy)
operators_agree_example = operators_agree copy gep

abbrev fields : List ℕ
fields = replicate 4 node_rank_min

forest : IsForest fields
forest = new-IsForest 4 (omega arith)

unite_lem_example : United fields 1 2 (unite fields 1 2)
unite_lem_example = unite_lem fields 1 2 forest (omega arith) (omega arith) refl refl (omega arith)

abbrev joined : List ℕ
joined = (unite fields 1 2).0

get_node_rep_lem_example :
    ((get_node_rep joined 2).1 ≡ cget_node_rep joined 2) × Keeps joined (get_node_rep joined 2).0
get_node_rep_lem_example =
    get_node_rep_lem joined 2
      (unite_lem fields 1 2 forest (omega arith) (omega arith) refl refl (omega arith)).forest
      (unfold unite in omega arith)

-- Copies between the joined nodes, which become a copy of a node to itself, and a load twice.
abbrev some_constraints : List Constraint
some_constraints =
    record { kind = copy_cons; dest = 1; src = 2; off = 0 }
    ∷ record { kind = load_cons; dest = 3; src = 2; off = 0 }
    ∷ record { kind = load_cons; dest = 3; src = 1; off = 0 }
    ∷ record { kind = copy_cons; dest = 3; src = 0; off = 0 }
    ∷ []

abbrev is_first : ℕ → Bool
is_first n = n == 0

joined-IsForest : IsForest joined
joined-IsForest =
    (unite_lem fields 1 2 forest (omega arith) (omega arith) refl refl (omega arith)).forest

constraints_there : AllInRange (length joined) some_constraints
unfolding unite
constraints_there = (
  omega arith,
  omega arith,
  (omega arith, omega arith, (omega arith, omega arith, (omega arith, omega arith, tt))),
)

rewrite_ptr_eq_lem_example :
    Keeps joined (rewrite_ptr_eq is_first joined some_constraints).0
    × ((d : Constraint)
        → contains d (rewrite_ptr_eq is_first joined some_constraints).1
          ≡ wanted is_first joined d some_constraints)
    × IsDistinct (rewrite_ptr_eq is_first joined some_constraints).1
rewrite_ptr_eq_lem_example =
    rewrite_ptr_eq_lem is_first joined some_constraints joined-IsForest constraints_there

rewrite_hcd_lem_example :
    Keeps joined (rewrite_hcd joined some_constraints).0
    × ((d : Constraint)
        → contains d (rewrite_hcd joined some_constraints).1
          ≡ wanted (λ n. false) joined d some_constraints)
    × IsDistinct (rewrite_hcd joined some_constraints).1
rewrite_hcd_lem_example = rewrite_hcd_lem joined some_constraints joined-IsForest constraints_there

-- One load between representatives is left.
one_left :
    (rewrite_ptr_eq is_first joined some_constraints).1
    ≡ record { kind = load_cons; dest = 3; src = 1; off = 0 } ∷ []
unfolding rewrite_ptr_eq rewrite_loop rewrite_one get_node_rep find unite contains equal
one_left = refl
