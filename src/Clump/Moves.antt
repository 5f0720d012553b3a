-- ===== src/Clump/Moves.antt =====
-- Where the loops of clump_addr_taken put the nodes.
use ptranalysis.Common.{
  ℕ, zero, suc, ◌+◌, ◌-◌, ◌≤◌, ◌<◌, ◌≡◌, ◌⊎◌, Bool, true, false, List, arith, refl, ap, ◌∙◌, ◌==◌,
  if◌then◌else◌, length, length-set, get_or-set, Bool-cases, inl, inr, ℕ_discrete,
}
use ptranalysis.Graph.{Sets, Node, new, node}
use ptranalysis.Clump.{Clump, moved, move_node, move_loop}
use ptranalysis.Clump.Count.{count, count-from, count-none}

-- What a loop over `left` nodes from `i` on makes of `c`.
pub record Moved (S : Sets) (take : Node S → Bool) (old : List (Node S)) (left i : ℕ)
    (c t : Clump S) : Type 0 where
  pub same_nodes : length t.nodes ≡ length c.nodes
  pub same_moves : length t.move_to ≡ length c.move_to
  pub more : t.nn ≡ c.nn + count (λ j. take (node S old j)) left i
  pub kept : (m : ℕ) → m < c.nn → node S t.nodes m ≡ node S c.nodes m
  pub unmoved :
      (j : ℕ) → (j < i) ⊎ (take (node S old j) ≡ false) → moved t.move_to j ≡ moved c.move_to j
  pub to :
      (j : ℕ)
      → i ≤ j
      → j < i + left
      → take (node S old j) ≡ true
      → moved t.move_to j ≡ c.nn + count (λ k. take (node S old k)) (j - i) i
  pub placed :
      (j : ℕ)
      → i ≤ j
      → j < i + left
      → take (node S old j) ≡ true
      → node S t.nodes (c.nn + count (λ k. take (node S old k)) (j - i) i) ≡ node S old j

module _ (S : Sets) (take : Node S → Bool) (old : List (Node S)) where
  abbrev p : ℕ → Bool
  p j = take (node S old j)

  -- One node more in front of a loop.
  step_taken :
      (left i : ℕ) (c t : Clump S)
      → i < length c.move_to
      → c.nn < length c.nodes
      → p i ≡ true
      → Moved S take old left (suc i) (move_node S take old i c) t
      → Moved S take old (suc left) i c t
  unfolding move_node count
  step_taken left i c t h k e m =
      let c' : Clump S = move_node S take old i c in
      let n' : c'.nn ≡ suc c.nn = rw e (omega arith) in
      let ns : (x : ℕ)
          → node S c'.nodes x ≡ (if c.nn == x then node S old i else node S c.nodes x) =
        rw e (λ x. get_or-set c.nodes c.nn (node S old i) x (new S) k) in
      let ms : (j : ℕ) → moved c'.move_to j ≡ (if i == j then c.nn else moved c.move_to j) =
        rw e (λ j. get_or-set c.move_to i c.nn j 0 h) in
      let l1 : length c'.nodes ≡ length c.nodes = rw e (length-set c.nodes c.nn (node S old i)) in
      let l2 : length c'.move_to ≡ length c.move_to = rw e (length-set c.move_to i c.nn) in
      record {
        same_nodes = m.same_nodes ∙ l1;
        same_moves = m.same_moves ∙ l2;
        more = ground (arith, m.more, n', e);
        kept = λ x q. m.kept x (omega arith) ∙ ground (arith, ns x);
        unmoved = λ j q. elim q [
          | inl lt ↦ m.unmoved j (inl (omega arith)) ∙ ground (arith, ms j)
          | inr f ↦ m.unmoved j (inr f) ∙ ground (arith, ms j, ap p {x = i} {y = j})
        ];
        to = λ j q r f. elim (ℕ_discrete i j) [
          | yes s ↦ m.unmoved j (inl (omega arith)) ∙ ground (arith, ms j, count-none p i j s)
          | no n ↦
              m.to j (omega arith) (omega arith) f
              ∙ omega (
                arith,
                n',
                count-from p i j (omega arith),
                (let x : if◌then◌else◌ {A = ℕ} (p i) 1 0 ≡ 1 = rw e refl in x),
              )
        ];
        placed = λ j q r f. elim (ℕ_discrete i j) [
          | yes s ↦
              let z : c.nn + count p (j - i) i ≡ c.nn = omega (arith, count-none p i j s) in
              ap (λ x. node S t.nodes x) z
              ∙ m.kept c.nn (omega arith)
              ∙ ground (arith, ns c.nn)
              ∙ ap (λ x. node S old x) s
          | no n ↦
              let z : c.nn + count p (j - i) i ≡ c'.nn + count p (j - suc i) (suc i) = omega (
                arith,
                n',
                count-from p i j (omega arith),
                (let x : if◌then◌else◌ {A = ℕ} (p i) 1 0 ≡ 1 = rw e refl in x),
              ) in
              ap (λ x. node S t.nodes x) z ∙ m.placed j (omega arith) (omega arith) f
        ];
      }

  step_other :
      (left i : ℕ) (c t : Clump S)
      → p i ≡ false
      → Moved S take old left (suc i) c t
      → Moved S take old (suc left) i c t
  unfolding count
  step_other left i c t e m =
      let zero_more : if◌then◌else◌ {A = ℕ} (p i) 1 0 ≡ 0 = rw e refl in
      record {
        same_nodes = m.same_nodes;
        same_moves = m.same_moves;
        more = omega (arith, m.more, zero_more);
        kept = m.kept;
        unmoved = λ j q. elim q [
          | inl lt ↦ m.unmoved j (inl (omega arith))
          | inr f ↦ m.unmoved j (inr f)
        ];
        to = λ j q r f. elim (ℕ_discrete i j) [
          | yes s ↦ absurd (cc (s, e, f))
          | no n ↦
              m.to j (omega arith) (omega arith) f
              ∙ omega (arith, zero_more, count-from p i j (omega arith))
        ];
        placed = λ j q r f. elim (ℕ_discrete i j) [
          | yes s ↦ absurd (cc (s, e, f))
          | no n ↦
              let z : c.nn + count p (j - i) i ≡ c.nn + count p (j - suc i) (suc i) =
                omega (arith, zero_more, count-from p i j (omega arith)) in
              ap (λ x. node S t.nodes x) z ∙ m.placed j (omega arith) (omega arith) f
        ];
      }

  -- With room for the nodes that it takes, a loop puts them behind those that are placed, in order.
  pub move_loop-Moved :
      (left i : ℕ) (c : Clump S)
      → i + left ≤ length c.move_to
      → c.nn + count p left i ≤ length c.nodes
      → Moved S take old left i c (move_loop S take old left i c)
  unfolding move_loop count
  move_loop-Moved zero i c h k = record {
    same_nodes = refl;
    same_moves = refl;
    more = omega arith;
    kept = λ m q. refl;
    unmoved = λ j q. refl;
    to = λ j q r f. absurd (omega arith);
    placed = λ j q r f. absurd (omega arith);
  }
  move_loop-Moved (suc left) i c h k = elim (Bool-cases (p i)) [
    | inl e ↦
        let x : if◌then◌else◌ {A = ℕ} (p i) 1 0 ≡ 1 = rw e refl in
        step_taken left i c _ (omega arith) (omega arith) e (
          move_loop-Moved left (suc i) (move_node S take old i c)
            (unfold move_node in rw e (omega (arith, length-set c.move_to i c.nn)))
            (unfold move_node in rw e (omega (arith, x, length-set c.nodes c.nn (node S old i)))))
    | inr e ↦
        let x : if◌then◌else◌ {A = ℕ} (p i) 1 0 ≡ 0 = rw e refl in
        let same : move_node S take old i c ≡ c = unfold move_node in rw e refl in
        step_other left i c _ e
          (rw same (move_loop-Moved left (suc i) c (omega arith) (omega arith)))
  ]
