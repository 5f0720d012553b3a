-- ===== src/Solver/Offsets.antt =====
-- What pts_init of anders/solve.cpp prepares for constraints with an offset: off_mask and geps.
use ptranalysis.Common.{
  ℕ, zero, suc, ◌-◌, not, Option, none, some, List, [], ◌∷◌, ◌++◌, ltb, ◌==◌, if◌then◌else◌, get_or,
  set, replicate, length,
}
use ptranalysis.Common.IdSet
use ptranalysis.Constraint.{Constraint}
use ptranalysis.Graph.{Sets}
use ptranalysis.Solver.Variables.{Vars}

-- `valid_off`
unfoldable pub valid_offsets : List Constraint → List ℕ → List ℕ
valid_offsets [] valid = valid
valid_offsets (c ∷ cs) valid =
    valid_offsets cs (if not (c.off == 0) then IdSet.insert c.off valid else valid)

-- `for(; off && !valid_off.count(off); --off)`
unfoldable pub largest_valid : List ℕ → ℕ → ℕ
largest_valid valid zero = 0
largest_valid valid (suc n) =
    let rest = largest_valid valid n in if IdSet.contains (suc n) valid then suc n else rest

-- `off_nodes.resize(sz)` for a larger size.
abbrev pub resize : List (List ℕ) → ℕ → List (List ℕ)
resize off_nodes sz = off_nodes ++ replicate (sz - length off_nodes) []

-- The round of the loop for node `i`; max_sz is the length of `off_nodes`.
unfoldable pub add_node : List ℕ → List (List ℕ) → ℕ → ℕ → List (List ℕ)
unfolding largest_valid
add_node valid off_nodes i sz =
    if ltb sz 2
    then off_nodes
    else let larger = if ltb (length off_nodes) sz then resize off_nodes sz else off_nodes in
      let off = largest_valid valid (sz - 1) in
      if off == 0 then larger else set larger off (IdSet.insert i (get_or larger off []))

-- The loop over the sizes of the objects from node `i` on.
unfoldable pub group_nodes : List ℕ → List (List ℕ) → ℕ → List ℕ → List (List ℕ)
unfolding add_node
group_nodes valid off_nodes i [] = off_nodes
group_nodes valid off_nodes i (sz ∷ sizes) =
    group_nodes valid (add_node valid off_nodes i sz) (suc i) sizes

module _ (S : Sets) (vars : Vars S) where
  -- The cache of fdd_ithvar after the call, and the set; `none` is an access outside the cache.
  unfoldable pub get_node_var : List S.NodeSet → ℕ → Option (List S.NodeSet × S.NodeSet)
  get_node_var node_vars n =
      if ltb n (length node_vars)
      then if S.same (get_or node_vars n S.bddfalse) S.bddfalse
        then some (set node_vars n (vars.fdd_ithvar n), vars.fdd_ithvar n)
        else some (node_vars, get_or node_vars n S.bddfalse)
      else none

  -- `om |= get_node_var(*it)` for the nodes of a group.
  unfoldable pub add_group :
      List S.NodeSet → S.NodeSet → List ℕ → Option (List S.NodeSet × S.NodeSet)
  unfolding get_node_var
  add_group node_vars om [] = some (node_vars, om)
  add_group node_vars om (n ∷ ns) = elim (get_node_var node_vars n) [
    | none ↦ none
    | some (more, b) ↦ add_group more (S.bdd_or om b) ns
  ]

  -- The caches and the vectors while the loop runs.
  pub record Masks : Type 0 where
    pub node_vars : List S.NodeSet
    pub om : S.NodeSet
    pub off_mask : List S.NodeSet
    pub geps : List vars.Relation

  -- `bvec_equ(vgep, add) & om`
  abbrev pub gep_function : ℕ → S.NodeSet → vars.Relation
  gep_function off om =
      let vpts = vars.bvec_varfdd 0 in
      let vgep = vars.bvec_varfdd 1 in
      let add = vars.bvec_add vpts (vars.bvec_con vars.pts_bits off) in
      vars.bdd_and (vars.bvec_equ vgep add) om

  -- The loop over the valid offsets, the largest first; `none` is an access outside a vector.
  unfoldable pub mask_loop : List (List ℕ) → List ℕ → Masks → Option Masks
  unfolding add_group
  mask_loop off_nodes [] m = some m
  mask_loop off_nodes (off ∷ valid) m = elim (mask_loop off_nodes valid m) [
    | none ↦ none
    | some later ↦
        if ltb off (length off_nodes)
        then elim (add_group later.node_vars later.om (get_or off_nodes off [])) [
          | none ↦ none
          | some (node_vars, om) ↦ some (record {
            node_vars = node_vars;
            om = om;
            off_mask = set later.off_mask off om;
            geps = set later.geps off (gep_function off om);
          })
        ]
        else none
  ]

  -- The part of pts_init for offsets, for the objects of the sizes.
  unfoldable pub init_masks : List Constraint → List ℕ → List S.NodeSet → Option Masks
  unfolding valid_offsets group_nodes mask_loop
  init_masks cs sizes node_vars =
      let valid = valid_offsets cs [] in
      let off_nodes = group_nodes valid [] 0 sizes in
      mask_loop off_nodes valid (record {
        node_vars = node_vars;
        om = S.bddfalse;
        off_mask = replicate (length off_nodes) S.bddfalse;
        geps = replicate (length off_nodes) vars.bddfalse;
      })
