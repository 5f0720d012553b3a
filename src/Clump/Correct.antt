-- ===== src/Clump/Correct.antt =====
-- clump_addr_taken moves every node to a place of its own, the address-taken ones to the front.
use ptranalysis.Common.{
  ℕ, zero, suc, ◌+◌, ◌-◌, ◌≤◌, ◌<◌, ◌≡◌, ◌⊎◌, Bool, true, false, not, List, arith, refl, ap, sym,
  ◌∙◌, length, length-set, get_or-set, Bool-cases, inl, inr, replicate, length-replicate, dec_lt,
}
use ptranalysis.Graph.{Sets, Node, new, node}
use ptranalysis.Clump.{
  Clump, moved, first_var_node, keep_front, move_loop, address_taken, other, clump_front,
  clump_objects, clump_addr_taken,
}
use ptranalysis.Clump.Count.{count, count-le, count-lt, count-opposite}
use ptranalysis.Clump.Moves.{Moved, move_loop-Moved}

-- The new order of the nodes `old`.
pub record Clumped (S : Sets) (old nodes : List (Node S)) (move_to : List ℕ) (last : ℕ)
    : Type 0 where
  pub same_length : (length nodes ≡ length old) × (length move_to ≡ length old)
  pub in_range : (i : ℕ) → i < length old → moved move_to i < length old
  pub same_node : (i : ℕ) → i < length old → node S nodes (moved move_to i) ≡ node S old i
  pub special : (i : ℕ) → i < first_var_node → moved move_to i ≡ i
  pub front : first_var_node ≤ last + 1
  pub objects :
      (i : ℕ)
      → first_var_node ≤ i
      → i < length old
      → address_taken S (node S old i) ≡ true
      → (first_var_node ≤ moved move_to i) × (moved move_to i ≤ last)
  pub others :
      (i : ℕ)
      → first_var_node ≤ i
      → i < length old
      → address_taken S (node S old i) ≡ false
      → last < moved move_to i
  pub in_order :
      (i j : ℕ)
      → first_var_node ≤ i
      → i < j
      → j < length old
      → address_taken S (node S old i) ≡ address_taken S (node S old j)
      → moved move_to i < moved move_to j

module _ (S : Sets) (old : List (Node S)) (h : first_var_node ≤ length old) where
  keep_front-node :
      (k : ℕ) (c : Clump S)
      → k ≤ length c.nodes
      → k ≤ length c.move_to
      → (length (keep_front S k old c).nodes ≡ length c.nodes)
        × (length (keep_front S k old c).move_to ≡ length c.move_to)
        × ((i : ℕ) → i < k → node S (keep_front S k old c).nodes i ≡ node S old i)
        × ((i : ℕ) → i < k → moved (keep_front S k old c).move_to i ≡ i)
  unfolding keep_front
  keep_front-node zero c p q =
      (refl, refl, λ i r. absurd (omega arith), λ i r. absurd (omega arith))
  keep_front-node (suc k) c p q =
      let (a, b, ns, ms) = keep_front-node k c (omega arith) (omega arith) in
      let r = keep_front S k old c in
      (
        length-set r.nodes k (node S old k) ∙ a,
        length-set r.move_to k k ∙ b,
        λ i l. ground (
          arith,
          get_or-set r.nodes k (node S old k) i (new S),
          a,
          ns i,
          ap (λ (x : ℕ). node S old x) {x = k} {y = i},
        ),
        λ i l. ground (arith, get_or-set r.move_to k k i 0, b, ms i),
      )

  abbrev p : ℕ → Bool
  p i = address_taken S (node S old i)

  abbrev q : ℕ → Bool
  q i = other S (node S old i)

  abbrev left : ℕ
  left = length old - first_var_node

  opposite : (i : ℕ) → q i ≡ not (p i)
  opposite i = ground arith

  abbrev start : Clump S
  start = clump_front S old

  start_places :
      (length start.nodes ≡ length old)
      × (length start.move_to ≡ length old)
      × ((i : ℕ) → i < 3 → node S start.nodes i ≡ node S old i)
      × ((i : ℕ) → i < 3 → moved start.move_to i ≡ i)
  unfolding clump_front
  start_places =
      let n = length-replicate (length old) (new S) in
      let m = length-replicate {A = ℕ} (length old) 0 in
      let (a, b, ns, ms) =
        keep_front-node 3
          (record {
            nodes = replicate (length old) (new S);
            move_to = replicate (length old) 0;
            nn = 0;
          })
          (omega arith) (omega arith) in
      (a ∙ n, b ∙ m, ns, ms)

  abbrev objs : Clump S
  objs = clump_objects S old

  objs-Moved : Moved S (address_taken S) old left 3 start objs
  unfolding clump_objects clump_front
  objs-Moved =
      move_loop-Moved S (address_taken S) old left 3 start (omega (arith, start_places))
        (omega (arith, start_places, count-le p left 3))

  start-nn : start.nn ≡ 3
  unfolding clump_front
  start-nn = refl

  abbrev end : Clump S
  end = move_loop S (other S) old left 3 objs

  -- The two loops take all nodes.
  all_taken : objs.nn + count q left 3 ≡ length old
  all_taken = omega (arith, objs-Moved.more, start-nn, count-opposite p q opposite left 3)

  end-Moved : Moved S (other S) old left 3 objs end
  end-Moved =
      move_loop-Moved S (other S) old left 3 objs
        (omega (arith, objs-Moved.same_moves, start_places))
        (omega (arith, objs-Moved.same_nodes, start_places, all_taken))

  special_at : (i : ℕ) → i < 3 → (moved end.move_to i ≡ i) × (node S end.nodes i ≡ node S old i)
  special_at i l =
      let (a, b, ns, ms) = start_places in
      (
        end-Moved.unmoved i (inl l) ∙ objs-Moved.unmoved i (inl l) ∙ ms i l,
        end-Moved.kept i (omega (arith, objs-Moved.more, start-nn))
            ∙ objs-Moved.kept i (omega (arith, start-nn))
            ∙ ns i l,
      )

  object_at :
      (i : ℕ)
      → 3 ≤ i
      → i < length old
      → p i ≡ true
      → (moved end.move_to i ≡ 3 + count p (i - 3) 3)
        × (count p (i - 3) 3 < count p left 3)
        × (node S end.nodes (moved end.move_to i) ≡ node S old i)
  object_at i l r e =
      let lt =
        count-lt p (i - 3) left 3 (omega arith)
          (ap p (let s : 3 + (i - 3) ≡ i = omega arith in s) ∙ e) in
      let to = end-Moved.unmoved i (inr (ground (arith, e))) ∙ objs-Moved.to i l (omega arith) e in
      (
        omega (arith, to, start-nn),
        lt,
        ap (λ (m : ℕ). node S end.nodes m) to
            ∙ end-Moved.kept (start.nn + count p (i - 3) 3) (omega (arith, objs-Moved.more))
            ∙ objs-Moved.placed i l (omega arith) e,
      )

  other_at :
      (i : ℕ)
      → 3 ≤ i
      → i < length old
      → q i ≡ true
      → (moved end.move_to i ≡ objs.nn + count q (i - 3) 3)
        × (count q (i - 3) 3 < count q left 3)
        × (node S end.nodes (moved end.move_to i) ≡ node S old i)
  other_at i l r e =
      let lt =
        count-lt q (i - 3) left 3 (omega arith)
          (ap q (let s : 3 + (i - 3) ≡ i = omega arith in s) ∙ e) in
      let to = end-Moved.to i l (omega arith) e in
      (to, lt, ap (λ (m : ℕ). node S end.nodes m) to ∙ end-Moved.placed i l (omega arith) e)

  -- Every node is of one of the three kinds.
  kinds : (i : ℕ) → (i < 3) ⊎ ((3 ≤ i) × (p i ≡ true)) ⊎ ((3 ≤ i) × (q i ≡ true))
  kinds i = elim (dec_lt i 3) [
    | yes l ↦ inl l
    | no g ↦ elim (Bool-cases (p i)) [
      | inl e ↦ inr (inl (omega arith, e))
      | inr e ↦ inr (inr (omega arith, ground (arith, e)))
    ]
  ]

  total : objs.nn ≡ 3 + count p left 3
  total = omega (arith, objs-Moved.more, start-nn)

  end-Clumped : Clumped S old end.nodes end.move_to (objs.nn - 1)
  end-Clumped = record {
    same_length =
        let (a, b, ns, ms) = start_places in
        (
          end-Moved.same_nodes ∙ objs-Moved.same_nodes ∙ a,
          end-Moved.same_moves ∙ objs-Moved.same_moves ∙ b,
        );
    in_range = λ i r. elim (kinds i) [
      | inl l ↦ omega (arith, special_at i l)
      | inr (inl (l, e)) ↦ omega (arith, object_at i l r e, total, all_taken)
      | inr (inr (l, e)) ↦ omega (arith, other_at i l r e, all_taken)
    ];
    same_node = λ i r. elim (kinds i) [
      | inl l ↦ ap (λ (m : ℕ). node S end.nodes m) (special_at i l).0 ∙ (special_at i l).1
      | inr (inl (l, e)) ↦ (object_at i l r e).2
      | inr (inr (l, e)) ↦ (other_at i l r e).2
    ];
    special = λ i l. (special_at i l).0;
    front = omega (arith, total);
    objects =
        λ i l r e. (omega (arith, object_at i l r e), omega (arith, object_at i l r e, total));
    others = λ i l r e. omega (arith, other_at i l r (ground (arith, e)), total);
    in_order = λ i j l s r same. elim (Bool-cases (p i)) [
      | inl e ↦ omega (
        arith,
        object_at i l (omega arith) e,
        object_at j (omega arith) r (sym same ∙ e),
        count-lt p (i - 3) (j - 3) 3 (omega arith)
            (ap p (let z : 3 + (i - 3) ≡ i = omega arith in z) ∙ e),
      )
      | inr e ↦
          let e' : q i ≡ true = ground (arith, e) in
          let f' : q j ≡ true = ground (arith, e, same) in
          omega (
            arith,
            other_at i l (omega arith) e',
            other_at j (omega arith) r f',
            count-lt q (i - 3) (j - 3) 3 (omega arith)
                (ap q (let z : 3 + (i - 3) ≡ i = omega arith in z) ∙ e'),
          )
    ];
  }

-- clump_addr_taken, with the special nodes there, keeps the number of nodes. The node at `i` is
-- afterwards at `move_to[i]`: the special nodes where they were, then the address-taken nodes up to
-- last_obj_node, then the others, and within each kind in the order in which they were.
pub clump_addr_taken_lem :
    (S : Sets) (old : List (Node S))
    → first_var_node ≤ length old
    → Clumped S old (clump_addr_taken S old).0 (clump_addr_taken S old).1 (clump_addr_taken S old).2
unfolding clump_addr_taken
clump_addr_taken_lem S old h = end-Clumped S old h
