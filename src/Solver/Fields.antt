-- ===== src/Solver/Fields.antt =====
-- pts_init of anders/solve.cpp as a whole, for constraints with an offset: off_mask holds the objects
-- with more fields than the offset, or an access is outside a vector.
use native.Mathlib.Nat.{mod-lt, add-mod-mod}
use ptranalysis.Common.{
  ℕ, zero, suc, ◌+◌, ◌-◌, ◌%◌, ◌^◌, ◌≤◌, ◌<◌, ◌≡◌, ◌↔◌, refl, sym, ◌∙◌, get_or_outside, Bool, true,
  false, not, ◌&&◌, ◌||◌, none, some, List, [], ◌∷◌, arith, leb, ltb, ◌==◌, if◌then◌else◌,
  Bool-cases, inl, inr, length, get_or, replicate, length-set, length-replicate, length-append,
  dec_lt, ℕ_discrete, Option-cases, eq→==, ne→==,
}
use ptranalysis.Common.IdSet
use ptranalysis.Common.IdSet.{
  contains, contains-insert, Above, IsIncreasing, insert-IsIncreasing, Above-lt,
}
use ptranalysis.Constraint.{Constraint}
use ptranalysis.Graph.{Sets}
use ptranalysis.Solver.Variables.{Vars}
use ptranalysis.Solver.Offsets.{
  valid_offsets, largest_valid, resize, add_node, group_nodes, Masks, gep_function, mask_loop,
  init_masks,
}
use ptranalysis.Solver.Masks.{largest_valid-Largest, belongs, in_group}
use ptranalysis.Solver.Prepared.{
  in_group-group_nodes, length-group_nodes, group_from, IsCache, mask_loop_lem,
}

-- Does a constraint have the offset?
abbrev pub has_offset : List Constraint → ℕ → Bool
has_offset [] v = false
has_offset (c ∷ cs) v = (c.off == v) || has_offset cs v

valid_offsets_lem :
    (cs : List Constraint) (valid : List ℕ)
    → IsIncreasing valid
    → IsIncreasing (valid_offsets cs valid)
      × ((v : ℕ)
          → contains v (valid_offsets cs valid)
            ≡ contains v valid || (not (v == 0) && has_offset cs v))
unfolding valid_offsets
valid_offsets_lem [] valid inc = (inc, λ v. ground arith)
valid_offsets_lem (c ∷ cs) valid inc = elim (ℕ_discrete c.off 0) [
  | yes none_there ↦
      let (a, b) = valid_offsets_lem cs valid inc in
      rw (eq→== c.off 0 none_there) (a, λ v. b v ∙ ground arith)
  | no some_off ↦
      let (a, b) =
        valid_offsets_lem cs (IdSet.insert c.off valid) (insert-IsIncreasing c.off valid inc) in
      rw (ne→== c.off 0 some_off) (a, λ v. b v ∙ ground (arith, contains-insert c.off v valid))
]

-- The groups from `v` on have the nodes of more than `v` fields.
group_from_lem :
    (valid : List ℕ) (g : List (List ℕ)) (sz v x : ℕ)
    → ((w : ℕ) → 0 < w → in_group g w x ≡ belongs valid sz w)
    → contains v valid ≡ true
    → 0 < v
    → contains 0 valid ≡ false
    → group_from g v valid x ≡ ltb v sz
group_from_lem valid g sz v x groups there p no_zero =
    let r = largest_valid-Largest valid (sz - 1) in
    let big = largest_valid valid (sz - 1) in
    walk valid (λ w h. w_pos w h) ∙ elim (dec_lt v sz) [
      | yes l ↦
          let m : v ≤ big = r.maximal v there (omega arith) in
          elim r.found [ inl z ↦ absurd (omega arith) | inr c ↦ ground arith ]
      | no g' ↦ ground (arith, r.bounded)
    ]
  where
    w_pos : (w : ℕ) → contains w valid ≡ true → 0 < w
    w_pos zero h = absurd (cc (h, no_zero))
    w_pos (suc w) h = omega arith

    walk :
        (ws : List ℕ)
        → ((w : ℕ) → contains w ws ≡ true → 0 < w)
        → group_from g v ws x
          ≡ ltb 1 sz
            && leb v (largest_valid valid (sz - 1))
            && contains (largest_valid valid (sz - 1)) ws
    walk [] pos = ground arith
    walk (w ∷ ws) pos =
        let rest = walk ws (λ u h. pos u (ground arith)) in
        elim (ℕ_discrete w (largest_valid valid (sz - 1))) [
          | yes e ↦ ground (arith, groups w (pos w (ground arith)), rest)
          | no n ↦ ground (arith, groups w (pos w (ground arith)), rest)
        ]

-- What the vectors have for the offset `v` and objects of the sizes: off_mask is the set of the objects with
-- more than `v` fields, and the GEP function of `v` is not bddfalse, and takes a set to the numbers `v`
-- above those of its objects that have more than `v` fields, as numbers of `pts_bits` bits.
pub record HasFields (S : Sets) (vars : Vars S) (sizes : List ℕ) (m : Masks S vars) (v : ℕ)
    : Type 0 where
  pub in_masks : v < length m.off_mask
  pub in_geps : v < length m.geps
  pub mask : (x : ℕ) → S.contains (get_or m.off_mask v S.bddfalse) x ≡ ltb v (get_or sizes x 0)
  pub some_gep : vars.is_bddfalse (get_or m.geps v vars.bddfalse) ≡ false
  pub gep :
      (d : S.NodeSet) (y : ℕ)
      → (S.contains (vars.bdd_replace (vars.bdd_relprod d (get_or m.geps v vars.bddfalse))) y
          ≡ true)
        ↔ ((x : ℕ) × (S.contains d x ≡ true)
            × (v < get_or sizes x 0)
            × (y ≡ (x + v) % 2 ^ vars.pts_bits))

module _ (S : Sets) (vars : Vars S) (off : ℕ) (om : S.NodeSet) where
  holds-gep_function :
      (x y : ℕ)
      → x < 2 ^ vars.pts_bits
      → y < 2 ^ vars.pts_bits
      → vars.holds (gep_function S vars off om) x y
        ≡ (y == (x + off) % 2 ^ vars.pts_bits) && S.contains om x
  holds-gep_function x y p q =
      let con = vars.bvec_con vars.pts_bits off in
      let add = vars.bvec_add (vars.bvec_varfdd 0) con in
      let sum : vars.value add x y ≡ (x + off) % 2 ^ vars.pts_bits =
        vars.value-bvec_add (vars.bvec_varfdd 0) con x y
        ∙ rw (vars.value-points x y p q, vars.value-bvec_con off x y)
            (add-mod-mod x off (2 ^ vars.pts_bits)) in
      vars.holds-bdd_and (vars.bvec_equ (vars.bvec_varfdd 1) add) om x y
      ∙ rw (vars.holds-bvec_equ (vars.bvec_varfdd 1) add x y, vars.value-results x y p q, sum) refl

  -- The result of the function on a set whose objects all belong to the domain.
  image-gep_function :
      (d : S.NodeSet) (y : ℕ)
      → ((x : ℕ) → S.contains om x ≡ true → x < 2 ^ vars.pts_bits)
      → (S.contains (vars.bdd_replace (vars.bdd_relprod d (gep_function S vars off om))) y ≡ true)
        ↔ ((x : ℕ) × (S.contains d x ≡ true)
            × (S.contains om x ≡ true)
            × (y ≡ (x + off) % 2 ^ vars.pts_bits))
  image-gep_function d y inside =
      let f = gep_function S vars off om in
      let iff = vars.contains_gep-bdd_relprod d f y in
      let same = vars.contains-bdd_replace (vars.bdd_relprod d f) y in
      (
        λ h.
            let (q, x, p, there, holds) = iff.0 (sym same ∙ h) in
            let e = sym (holds-gep_function x y p q) ∙ holds in
            (x, there, ground (arith, e), ground (arith, e)),
        λ (x, there, acceptable, e).
            let p = inside x acceptable in
            let q : y < 2 ^ vars.pts_bits = rw e (mod-lt (x + off) (omega (arith, p))) in
            same
            ∙ iff.1 (
              q,
              x,
              p,
              there,
              holds-gep_function x y p q ∙ ground (arith, eq→== y _ e, acceptable),
            ),
      )

  -- The function is not bddfalse when there is an object to take.
  gep_function-some :
      (x : ℕ)
      → x < 2 ^ vars.pts_bits
      → S.contains om x ≡ true
      → vars.is_bddfalse (gep_function S vars off om) ≡ false
  gep_function-some x p h =
      let f = gep_function S vars off om in
      let y = (x + off) % 2 ^ vars.pts_bits in
      let q : y < 2 ^ vars.pts_bits = mod-lt (x + off) (omega (arith, p)) in
      elim (Bool-cases (vars.is_bddfalse f)) [
        | inr some_there ↦ some_there
        | inl none_there ↦
            let e = (vars.is_bddfalse_iff f).0 none_there x y p q in
            absurd (ground (arith, holds-gep_function x y p q, e, eq→== y y refl, h))
      ]

inside_sizes : (sizes : List ℕ) (x : ℕ) → 0 < get_or sizes x 0 → x < length sizes
inside_sizes sizes x h = elim (dec_lt x (length sizes)) [
  | yes l ↦ l
  | no g ↦ absurd (omega (arith, get_or_outside sizes x 0 (omega arith)))
]

in_group-inside :
    (valid sizes : List ℕ) (v x : ℕ)
    → 0 < v
    → in_group (group_nodes valid [] 0 sizes) v x ≡ true
    → x < length sizes
in_group-inside valid sizes v x p h =
    let e = sym (in_group-group_nodes valid [] 0 sizes v x p) ∙ h in
    inside_sizes sizes x (ground (arith, e))

-- When for each offset of a constraint there is an object with more fields, there is room for the objects in
-- the cache of fdd_ithvar, and what it holds is right: no access of pts_init is outside a vector; off_mask of
-- an offset of a constraint is the set of the objects with more fields than the offset; and the GEP
-- function of the offset is not bddfalse, and adds the offset, in the bits of the domain, to the
-- members of a set that have more fields than the offset.
pub init_masks_lem :
    (S : Sets) (vars : Vars S) (cs : List Constraint) (sizes : List ℕ) (node_vars : List S.NodeSet)
    → IsCache S vars node_vars
    → length sizes ≤ length node_vars
    → ((v : ℕ) → 0 < v → has_offset cs v ≡ true → (i : ℕ) × (v < get_or sizes i 0))
    → (m : Masks S vars) × (init_masks S vars cs sizes node_vars ≡ some m)
      × ((v : ℕ) → 0 < v → has_offset cs v ≡ true → HasFields S vars sizes m v)
unfolding init_masks
init_masks_lem S vars cs sizes node_vars c enough fits =
    let (inc, there) = valid_offsets_lem cs [] tt in
    let valid = valid_offsets cs [] in
    let g = group_nodes valid [] 0 sizes in
    let positive : (v : ℕ) → contains v valid ≡ true → 0 < v = λ v h. ground (arith, there v) in
    let room : (v : ℕ) → contains v valid ≡ true → v < length g = λ v h.
      let (i, l) = fits v (positive v h) (ground (arith, there v)) in
      omega (
        arith,
        l,
        positive v h,
        (length-group_nodes valid [] 0 sizes).1 i (omega (arith, l, positive v h)),
      ) in
    let (m, e, r) =
      mask_loop_lem S vars g valid _ inc room
        (λ v x h q. omega (arith, enough, in_group-inside valid sizes v x (positive v h) q)) c
        (λ x. S.contains-bddfalse x) (length-replicate (length g) S.bddfalse)
        (length-replicate (length g) vars.bddfalse) in
    (
      m,
      e,
      λ v p h.
          let has : contains v valid ≡ true = ground (arith, there v) in
          let om = get_or m.off_mask v S.bddfalse in
          let mask : (x : ℕ) → S.contains om x ≡ ltb v (get_or sizes x 0) = λ x.
            r.mask v x has
            ∙ group_from_lem valid g (get_or sizes x 0) v x
                (λ w q. in_group-group_nodes valid [] 0 sizes w x q ∙ ground arith) has p
                (ground (arith, there 0)) in
          let inside : (x : ℕ) → S.contains om x ≡ true → x < 2 ^ vars.pts_bits = λ x q.
            let l : v < get_or sizes x 0 = ground (arith, mask x) in
            omega (arith, c.room, enough, inside_sizes sizes x (omega arith)) in
          let (i, l) = fits v p h in
          let some_there : S.contains om i ≡ true = mask i ∙ ground arith in
          record {
            in_masks =
                omega (arith, room v has, r.same_masks, length-replicate (length g) S.bddfalse);
            in_geps =
                omega (arith, room v has, r.same_geps, length-replicate (length g) vars.bddfalse);
            mask = mask;
            some_gep =
                rw (r.gep v has) (gep_function-some S vars v om i (inside i some_there) some_there);
            gep = λ d y.
                let iff = image-gep_function S vars v om d y inside in
                rw (r.gep v has) (
                  λ q. let (x, a, b, e) = iff.0 q in (x, a, ground (arith, mask x), e),
                  λ (x, a, b, e). iff.1 (x, a, mask x ∙ ground arith, e),
                );
          },
    )

mask_loop-none :
    (S : Sets) (vars : Vars S) (g : List (List ℕ)) (valid : List ℕ) (start : Masks S vars) (v : ℕ)
    → contains v valid ≡ true
    → length g ≤ v
    → mask_loop S vars g valid start ≡ none
unfolding mask_loop
mask_loop-none S vars g [] start v h l = absurd (ground arith)
mask_loop-none S vars g (off ∷ valid) start v h l =
    elim (Option-cases (mask_loop S vars g valid start)) [
      | inl fails ↦ rw (mask_loop, fails) refl
      | inr (m, e) ↦ elim (ℕ_discrete v off) [
        | yes same ↦
            let out : ltb off (length g) ≡ false = ground arith in rw (mask_loop, e, out) refl
        | no other ↦
            absurd (ground (arith, mask_loop-none S vars g valid start v (ground arith) l, e))
      ]
    ]

length-add_node_most :
    (valid : List ℕ) (g : List (List ℕ)) (i sz b : ℕ)
    → length g ≤ b
    → sz ≤ b
    → length (add_node valid g i sz) ≤ b
unfolding add_node
length-add_node_most valid g i sz b p q = elim (Bool-cases (ltb sz 2)) [
  | inl small ↦ rw small p
  | inr large ↦
      let more : List (List ℕ) = if ltb (length g) sz then resize g sz else g in
      let len : length more ≤ b = elim (Bool-cases (ltb (length g) sz)) [
        | inl less ↦
            let e = length-append g (replicate (sz - length g) []) in
            let f = length-replicate {A = List ℕ} (sz - length g) [] in
            rw less (omega (arith, e, f, ltb-true less))
        | inr enough ↦ rw enough p
      ] in
      elim (Bool-cases (largest_valid valid (sz - 1) == 0)) [
        | inl zero_off ↦ rw (large, zero_off) len
        | inr off ↦
            let e =
              length-set more (largest_valid valid (sz - 1))
                (IdSet.insert i (get_or more (largest_valid valid (sz - 1)) [])) in
            rw (large, off) (omega (arith, len, e))
      ]
]
  where
    ltb-true : ltb (length g) sz ≡ true → length g < sz
    ltb-true h = ground arith

length-group_nodes_most :
    (valid : List ℕ) (g : List (List ℕ)) (i : ℕ) (sizes : List ℕ) (b : ℕ)
    → length g ≤ b
    → ((j : ℕ) → get_or sizes j 0 ≤ b)
    → length (group_nodes valid g i sizes) ≤ b
unfolding group_nodes
length-group_nodes_most valid g i [] b p all = p
length-group_nodes_most valid g i (sz ∷ sizes) b p all =
    length-group_nodes_most valid (add_node valid g i sz) (suc i) sizes b
      (length-add_node_most valid g i sz b p (all 0)) (λ j. all (suc j))

-- When a constraint has an offset, not 0, that no object has more fields than, pts_init accesses a
-- vector outside its bounds.
pub init_masks-none :
    (S : Sets) (vars : Vars S) (cs : List Constraint) (sizes : List ℕ) (node_vars : List S.NodeSet)
    (v : ℕ)
    → 0 < v
    → has_offset cs v ≡ true
    → ((i : ℕ) → get_or sizes i 0 ≤ v)
    → init_masks S vars cs sizes node_vars ≡ none
unfolding init_masks
init_masks-none S vars cs sizes node_vars v p h small =
    let valid = valid_offsets cs [] in
    mask_loop-none S vars (group_nodes valid [] 0 sizes) valid _ v
      (ground (arith, (valid_offsets_lem cs [] tt).1 v))
      (length-group_nodes_most valid [] 0 sizes v (omega arith) small)
