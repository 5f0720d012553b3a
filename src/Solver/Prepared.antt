-- ===== src/Solver/Prepared.antt =====
-- The loops of pts_init, anders/solve.cpp, that fill off_mask and geps.
use ptranalysis.Common.{
  ℕ, zero, suc, ◌-◌, ◌^◌, ◌≤◌, ◌<◌, ◌≡◌, ◌⊎◌, refl, ap, ◌∙◌, Bool, true, false, ◌&&◌, ◌||◌, some,
  List, [], ◌∷◌, arith, leb, ltb, ◌==◌, if◌then◌else◌, Bool-cases, inl, inr, length, get_or, set,
  get_or-set, length-set, dec_lt, ℕ_discrete, eq→==, ne→==,
}
use ptranalysis.Common.IdSet.{contains, Above, IsIncreasing, Above-lt}
use ptranalysis.Graph.{Sets}
use ptranalysis.Solver.Variables.{Vars}
use ptranalysis.Solver.Offsets.{
  add_node, group_nodes, get_node_var, add_group, Masks, gep_function, mask_loop,
}
use ptranalysis.Solver.Masks.{belongs, in_group, length-add_node, in_group-add_node}

pub in_group-group_nodes :
    (valid : List ℕ) (g : List (List ℕ)) (i : ℕ) (sizes : List ℕ) (v x : ℕ)
    → 0 < v
    → in_group (group_nodes valid g i sizes) v x
      ≡ in_group g v x || (leb i x && belongs valid (get_or sizes (x - i) 0) v)
unfolding group_nodes
in_group-group_nodes valid g i [] v x p = ground arith
in_group-group_nodes valid g i (sz ∷ sizes) v x p =
    in_group-group_nodes valid (add_node valid g i sz) (suc i) sizes v x p ∙ elim (ℕ_discrete x i) [
      | yes e ↦
          let z : x - i ≡ 0 = omega arith in
          rw z (ground (arith, in_group-add_node valid g i sz v x p))
      | no n ↦ elim (dec_lt i x) [
        | yes l ↦
            let z : x - i ≡ suc (x - suc i) = omega arith in
            rw z (ground (arith, in_group-add_node valid g i sz v x p))
        | no m ↦ ground (arith, in_group-add_node valid g i sz v x p)
      ]
    ]

pub length-group_nodes :
    (valid : List ℕ) (g : List (List ℕ)) (i : ℕ) (sizes : List ℕ)
    → (length g ≤ length (group_nodes valid g i sizes))
      × ((j : ℕ) → 1 < get_or sizes j 0 → get_or sizes j 0 ≤ length (group_nodes valid g i sizes))
unfolding group_nodes
length-group_nodes valid g i [] = (omega arith, λ j h. absurd (omega arith))
length-group_nodes valid g i (sz ∷ sizes) =
    let (a, b) = length-group_nodes valid (add_node valid g i sz) (suc i) sizes in
    let (c, d) = length-add_node valid g i sz in (omega (arith, a, c), λ j h. at j h a b d)
  where
    at :
        (j : ℕ)
        → 1 < get_or (sz ∷ sizes) j 0
        → length (add_node valid g i sz)
          ≤ length (group_nodes valid (add_node valid g i sz) (suc i) sizes)
        → ((k : ℕ)
            → 1 < get_or sizes k 0
            → get_or sizes k 0 ≤ length (group_nodes valid (add_node valid g i sz) (suc i) sizes))
        → (1 < sz → sz ≤ length (add_node valid g i sz))
        → get_or (sz ∷ sizes) j 0 ≤ length (group_nodes valid (add_node valid g i sz) (suc i) sizes)
    at zero h a b d = omega (arith, a, d h)
    at (suc j) h a b d = b j h

-- Some group of the list has the node.
abbrev pub any_group : List (List ℕ) → List ℕ → ℕ → Bool
any_group g [] x = false
any_group g (v ∷ vs) x = in_group g v x || any_group g vs x

-- Some group from `v` on has the node.
abbrev pub group_from : List (List ℕ) → ℕ → List ℕ → ℕ → Bool
group_from g v [] x = false
group_from g v (w ∷ ws) x = (leb v w && in_group g w x) || group_from g v ws x

group_from-Above :
    (g : List (List ℕ)) (v w : ℕ) (ws : List ℕ) (x : ℕ)
    → v ≤ w
    → Above w ws
    → group_from g v ws x ≡ any_group g ws x
group_from-Above g v w [] x l a = refl
group_from-Above g v w (u ∷ us) x l a =
    ground (arith, a.0, group_from-Above g v u us x (omega (arith, a.0)) a.1)

module _ (S : Sets) (vars : Vars S) where
  -- The cache is for nodes of the domain, and every entry is bddfalse or right.
  pub record IsCache (node_vars : List S.NodeSet) : Type 0 where
    pub room : length node_vars ≤ 2 ^ vars.pts_bits
    pub entries :
        (n : ℕ)
        → (S.same (get_or node_vars n S.bddfalse) S.bddfalse ≡ true)
          ⊎ ((m : ℕ) → S.contains (get_or node_vars n S.bddfalse) m ≡ (m == n))

  pub get_node_var_lem :
      (node_vars : List S.NodeSet) (n : ℕ)
      → IsCache node_vars
      → n < length node_vars
      → (more : List S.NodeSet) × (b : S.NodeSet) × (get_node_var S vars node_vars n
          ≡ some (more, b))
        × IsCache more
        × (length more ≡ length node_vars)
        × ((m : ℕ) → S.contains b m ≡ (m == n))
  unfolding get_node_var
  get_node_var_lem node_vars n c p =
      let inside : ltb n (length node_vars) ≡ true = ground arith in
      let var = λ (m : ℕ). vars.contains-fdd_ithvar n m (omega (arith, c.room)) in
      let len = length-set node_vars n (vars.fdd_ithvar n) in
      elim (Bool-cases (S.same (get_or node_vars n S.bddfalse) S.bddfalse)) [
        | inr there ↦ (
          node_vars,
          get_or node_vars n S.bddfalse,
          rw (inside, there) refl,
          c,
          refl,
          elim (c.entries n) [ inl empty ↦ absurd (cc (empty, there)) | inr right ↦ right ],
        )
        | inl missing ↦ (
          set node_vars n (vars.fdd_ithvar n),
          vars.fdd_ithvar n,
          rw (inside, missing) refl,
          record {
            room = omega (arith, c.room, len);
            entries = λ j.
                let e = get_or-set node_vars n (vars.fdd_ithvar n) j S.bddfalse p in
                elim (ℕ_discrete n j) [
                  | yes here ↦ inr (λ m. ap (λ b. S.contains b m) e ∙ ground (arith, var m))
                  | no other ↦
                      let f : get_or (set node_vars n (vars.fdd_ithvar n)) j S.bddfalse
                          ≡ get_or node_vars j S.bddfalse =
                        e ∙ ground arith in
                      rw f (c.entries j)
                ];
          },
          len,
          var,
        )
      ]

  add_group_lem :
      (node_vars : List S.NodeSet) (om : S.NodeSet) (ns : List ℕ)
      → IsCache node_vars
      → ((m : ℕ) → contains m ns ≡ true → m < length node_vars)
      → (more : List S.NodeSet) × (om' : S.NodeSet) × (add_group S vars node_vars om ns
          ≡ some (more, om'))
        × IsCache more
        × (length more ≡ length node_vars)
        × ((m : ℕ) → S.contains om' m ≡ S.contains om m || contains m ns)
  unfolding add_group
  add_group_lem node_vars om [] c inside = (node_vars, om, refl, c, refl, λ m. ground arith)
  add_group_lem node_vars om (n ∷ ns) c inside =
      let (more, b, e, d, len, is) = get_node_var_lem node_vars n c (inside n (ground arith)) in
      let (last, om', g, h, len', rest) =
        add_group_lem more (S.bdd_or om b) ns d
          (λ m q. omega (arith, len, inside m (ground arith))) in
      (
        last,
        om',
        rw (add_group, e) g,
        h,
        len' ∙ len,
        λ m. rest m ∙ ground (arith, S.contains-bdd_or om b m, is m),
      )

  -- What the loop over the valid offsets leaves.
  pub record Prepared (g : List (List ℕ)) (valid : List ℕ) (start m : Masks S vars) : Type 0 where
    pub cache : IsCache m.node_vars
    pub same_vars : length m.node_vars ≡ length start.node_vars
    pub same_masks : length m.off_mask ≡ length start.off_mask
    pub same_geps : length m.geps ≡ length start.geps
    pub all : (x : ℕ) → S.contains m.om x ≡ any_group g valid x
    pub mask :
        (v x : ℕ)
        → contains v valid ≡ true
        → S.contains (get_or m.off_mask v S.bddfalse) x ≡ group_from g v valid x
    pub gep :
        (v : ℕ)
        → contains v valid ≡ true
        → get_or m.geps v vars.bddfalse ≡ gep_function S vars v (get_or m.off_mask v S.bddfalse)

  pub mask_loop_lem :
      (g : List (List ℕ)) (valid : List ℕ) (start : Masks S vars)
      → IsIncreasing valid
      → ((v : ℕ) → contains v valid ≡ true → v < length g)
      → ((v x : ℕ) → contains v valid ≡ true → in_group g v x ≡ true → x < length start.node_vars)
      → IsCache start.node_vars
      → ((x : ℕ) → S.contains start.om x ≡ false)
      → length start.off_mask ≡ length g
      → length start.geps ≡ length g
      → (m : Masks S vars) × (mask_loop S vars g valid start ≡ some m) × Prepared g valid start m
  unfolding mask_loop
  mask_loop_lem g [] start inc room inside c empty lm lg = (
    start,
    refl,
    record {
      cache = c;
      same_vars = refl;
      same_masks = refl;
      same_geps = refl;
      all = empty;
      mask = λ v x h. absurd (ground arith);
      gep = λ v h. absurd (ground arith);
    },
  )
  mask_loop_lem g (off ∷ valid) start inc room inside c empty lm lg =
      let (later, e, r) =
        mask_loop_lem g valid start (tail_inc valid inc) (λ v h. room v (ground arith))
          (λ v x h q. inside v x (ground arith) q) c empty lm lg in
      let (more, om, e', d, len, grown) =
        add_group_lem later.node_vars later.om (get_or g off []) r.cache
          (λ x h. omega (arith, r.same_vars, inside off x (ground arith) h)) in
      let here : off < length g = room off (ground arith) in
      let masks_at : (v : ℕ)
          → get_or (set later.off_mask off om) v S.bddfalse
            ≡ (if off == v then om else get_or later.off_mask v S.bddfalse) =
        λ v. get_or-set later.off_mask off om v S.bddfalse (omega (arith, r.same_masks, lm)) in
      let geps_at : (v : ℕ)
          → get_or (set later.geps off (gep_function S vars off om)) v vars.bddfalse
            ≡ (if off == v then gep_function S vars off om else get_or later.geps v vars.bddfalse) =
        λ v.
          get_or-set later.geps off (gep_function S vars off om) v vars.bddfalse
            (omega (arith, r.same_geps, lg)) in
      let fits : ltb off (length g) ≡ true = ground arith in
      (
        record {
          node_vars = more;
          om = om;
          off_mask = set later.off_mask off om;
          geps = set later.geps off (gep_function S vars off om);
        },
        rw (mask_loop, e, fits, e') refl,
        record {
          cache = d;
          same_vars = len ∙ r.same_vars;
          same_masks = length-set later.off_mask off om ∙ r.same_masks;
          same_geps = length-set later.geps off (gep_function S vars off om) ∙ r.same_geps;
          all = λ x. grown x ∙ ground (arith, r.all x);
          mask = λ v x h. ap (λ b. S.contains b x) (masks_at v) ∙ elim (ℕ_discrete off v) [
            | yes same ↦ rw (eq→== off v same) (
                grown x
                ∙ ground (
                  arith,
                  r.all x,
                  group_from-Above g v off valid x (omega arith) inc,
                  ap (λ (i : ℕ). in_group g i x) same,
                ))
            | no other ↦
                rw (ne→== off v other)
                  (r.mask v x (ground arith) ∙ ground (arith, Above-lt off v valid inc))
          ];
          gep = λ v h. geps_at v ∙ elim (ℕ_discrete off v) [
            | yes same ↦
                let f : get_or (set later.off_mask off om) v S.bddfalse ≡ om =
                  masks_at v ∙ rw (eq→== off v same) refl in
                rw (eq→== off v same, f) (ap (λ (i : ℕ). gep_function S vars i om) same)
            | no other ↦
                let f : get_or (set later.off_mask off om) v S.bddfalse
                    ≡ get_or later.off_mask v S.bddfalse =
                  masks_at v ∙ rw (ne→== off v other) refl in
                rw (ne→== off v other, f) (r.gep v (ground arith))
          ];
        },
      )
    where
      tail_inc : (vs : List ℕ) → Above off vs → IsIncreasing vs
      tail_inc [] a = tt
      tail_inc (x ∷ xs) a = a.1
