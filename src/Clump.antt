-- ===== src/Clump.antt =====
-- anders/cons_opt.cpp, clump_addr_taken: the nodes in a new order, the address-taken ones in front of
-- the others, and the constraints and indirect calls under their new numbers.
pub mod Count
pub mod Moves
pub mod Correct
pub mod Renumber
use ptranalysis.Common.{
  ℕ, zero, suc, ◌+◌, ◌-◌, Bool, true, false, not, List, [], ◌∷◌, map, ◌==◌, if◌then◌else◌, get_or,
  set, length, replicate,
}
use ptranalysis.Common.IdSet.{insert}
use ptranalysis.Graph.{Sets, Node, new, node}
use ptranalysis.Constraint.{Constraint}

abbrev pub first_var_node : ℕ
first_var_node = 3

-- The node that was originally at `i` will be at `move_to[i]`; `nn` nodes are at their new places.
pub record Clump (S : Sets) : Type 0 where
  pub nodes : List (Node S)
  pub move_to : List ℕ
  pub nn : ℕ

-- `move_to[i]`, behind the bounds that the callers keep.
abbrev pub moved : List ℕ → ℕ → ℕ
moved move_to i = get_or move_to i 0

abbrev pub move_constraint : List ℕ → Constraint → Constraint
move_constraint move_to c = record c { dest = moved move_to c.dest; src = moved move_to c.src }

-- The new set of indirect calls, from the elements of the old one.
unfoldable pub move_calls : List ℕ → List ℕ → List ℕ → List ℕ
move_calls move_to [] calls = calls
move_calls move_to (n ∷ ns) calls = move_calls move_to ns (insert (moved move_to n) calls)

module _ (S : Sets) where
  -- `FORN(i, first_var_node)`, up to `i`.
  unfoldable pub keep_front : ℕ → List (Node S) → Clump S → Clump S
  keep_front zero old c = c
  keep_front (suc i) old c =
      let r = keep_front i old c in
      record r { nodes = set r.nodes i (node S old i); move_to = set r.move_to i i }

  unfoldable pub move_node : (Node S → Bool) → List (Node S) → ℕ → Clump S → Clump S
  move_node take old i c =
      if take (node S old i)
      then record {
        nodes = set c.nodes c.nn (node S old i);
        move_to = set c.move_to i c.nn;
        nn = c.nn + 1;
      }
      else c

  -- One of the two loops over the old nodes, `left` of them from `i` on.
  unfoldable pub move_loop : (Node S → Bool) → List (Node S) → ℕ → ℕ → Clump S → Clump S
  unfolding move_node
  move_loop take old zero i c = c
  move_loop take old (suc left) i c = move_loop take old left (suc i) (move_node take old i c)

  abbrev pub address_taken : Node S → Bool
  address_taken n = not (n.obj_sz == 0)

  abbrev pub other : Node S → Bool
  other n = n.obj_sz == 0

  unfoldable pub clump_front : List (Node S) → Clump S
  unfolding keep_front
  clump_front old =
      let c = keep_front first_var_node old (record {
        nodes = replicate (length old) (new S);
        move_to = replicate (length old) 0;
        nn = 0;
      }) in
      record c { nn = first_var_node }

  unfoldable pub clump_objects : List (Node S) → Clump S
  unfolding move_loop clump_front
  clump_objects old =
      move_loop address_taken old (length old - first_var_node) first_var_node (clump_front old)

  -- The nodes, `move_to`, and `last_obj_node`.
  unfoldable pub clump_addr_taken : List (Node S) → List (Node S) × List ℕ × ℕ
  unfolding clump_objects
  clump_addr_taken old =
      let objects = clump_objects old in
      let c = move_loop other old (length old - first_var_node) first_var_node objects in
      (c.nodes, c.move_to, objects.nn - 1)
