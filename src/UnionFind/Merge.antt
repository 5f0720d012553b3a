-- ===== src/UnionFind/Merge.antt =====
-- The union of two sets, as `merge_nodes` and `merge_off_nodes` make it.
use ptranalysis.Common.{
  ℕ, zero, suc, ◌+◌, ◌%◌, ◌^◌, ◌≤◌, ◌<◌, ◌≡◌, ◌≢◌, ◌⊎◌, refl, sym, ◌∙◌, ap, true, false, List,
  arith, ltb, ◌==◌, if◌then◌else◌, set, length, length-set, get_or-set, Bool-cases, inl, inr,
  ℕ_discrete,
}
use ptranalysis.UnionFind.{node_rank_min, rep, is_rep, cget_node_rep, unite}
use ptranalysis.UnionFind.Forest.{merged, merged-set, merged-lt, IsForest}
use ptranalysis.UnionFind.Find.{cget_root, cget_parent}

-- `child` hung under `parent`, whose rank may have grown.
record Hung (reps t : List ℕ) (parent child : ℕ) : Type 0 where
  same_length : length t ≡ length reps
  one_more : merged t ≡ suc (merged reps)
  at : (m : ℕ) → (m ≢ child) → (m ≢ parent) → rep t m ≡ rep reps m
  at_child : rep t child ≡ parent
  at_parent : (node_rank_min ≤ rep t parent) × (rep t parent ≤ node_rank_min + merged t)

module _ (reps t : List ℕ) (f : IsForest reps) (parent child : ℕ) (p : parent < length reps)
    (c : child < length reps) (rp : is_rep reps parent ≡ true) (rc : is_rep reps child ≡ true)
    (ne : parent ≢ child) (h : Hung reps t parent child) where
  root-hung : (m : ℕ) → m < length reps → is_rep t m ≡ (if m == child then false else is_rep reps m)
  root-hung m q = elim (ℕ_discrete m child) [
    | yes e ↦ ground (arith, e, h.at_child, f.room)
    | no n ↦ elim (ℕ_discrete m parent) [
      | yes e ↦ ground (arith, e, h.at_parent)
      | no k ↦ ground (arith, h.at m n k)
    ]
  ]

  abbrev deeper : ℕ → ℕ
  deeper m = if is_rep t m then 0 else suc (f.depth m)

  hung-IsForest : IsForest t
  hung-IsForest = record {
    room = omega (arith, h.same_length, f.room);
    depth = deeper;
    bounded = λ m q. ground (arith, h.same_length, h.one_more, f.bounded m);
    roots = λ m q e. ground (arith, e);
    parents = λ m q e. elim (ℕ_discrete m child) [
      | yes same ↦ ground (arith, same, h.at_child, h.same_length, root-hung parent, ne)
      | no n ↦ ground (
        arith,
        root-hung m,
        h.same_length,
        h.at m,
        f.parents m,
        root-hung (rep reps m),
        e,
        root-hung parent,
        rp,
      )
    ];
    ranks = λ m q e. elim (ℕ_discrete m parent) [
      | yes same ↦ ground (arith, same, h.at_parent)
      | no n ↦ ground (arith, root-hung m, h.at m, f.ranks m, h.same_length, h.one_more, e)
    ];
  }

  hung_rep :
      (k m : ℕ)
      → m < length reps
      → f.depth m < k
      → cget_node_rep t m ≡ (if cget_node_rep reps m == child then parent else cget_node_rep reps m)
  hung_rep zero m q d = absurd (omega arith)
  hung_rep (suc k) m q d = elim (Bool-cases (is_rep reps m)) [
    | inl root ↦
        let r = cget_root reps f m root in
        elim (ℕ_discrete m child) [
          | yes e ↦
              let up =
                cget_parent t hung-IsForest m (omega (arith, h.same_length))
                  (ground (arith, root-hung m, e)) in
              let at : rep t m ≡ parent = ground (arith, e, h.at_child) in
              let top =
                cget_root t hung-IsForest parent (ground (arith, root-hung parent, rp, ne)) in
              ground (arith, r, e, up, top, ap (λ (x : ℕ). cget_node_rep t x) at)
          | no n ↦
              let s = cget_root t hung-IsForest m (ground (arith, root-hung m, root)) in
              ground (arith, r, s)
        ]
    | inr lower ↦
        let up = f.parents m q lower in
        let e : rep t m ≡ rep reps m = ground (arith, h.at m, rp, rc, lower) in
        let s =
          cget_parent t hung-IsForest m (omega (arith, h.same_length)) (ground (arith, e, lower)) in
        let r = cget_parent reps f m q lower in
        let ih = hung_rep k (rep reps m) up.0 (omega arith) in
        ground (arith, s, r, ih, ap (λ (x : ℕ). cget_node_rep t x) e)
  ]

-- What the union of the representatives `n1` and `n2` returns.
pub record United (reps : List ℕ) (n1 n2 : ℕ) (result : List ℕ × ℕ × ℕ) : Type 0 where
  pub forest : IsForest result.0
  pub length_kept : length result.0 ≡ length reps
  pub ends : ((result.1 ≡ n1) × (result.2 ≡ n2)) ⊎ ((result.1 ≡ n2) × (result.2 ≡ n1))
  pub reps_merged :
      (m : ℕ)
      → m < length reps
      → cget_node_rep result.0 m
        ≡ (if cget_node_rep reps m == result.2 then result.1 else cget_node_rep reps m)

module _ (reps : List ℕ) (f : IsForest reps) (parent child : ℕ) (p : parent < length reps)
    (c : child < length reps) (rp : is_rep reps parent ≡ true) (rc : is_rep reps child ≡ true)
    (ne : parent ≢ child) where
  -- The child's field set to the parent, with a rank below the parent's.
  lower-Hung : Hung reps (set reps child parent) parent child
  lower-Hung = record {
    same_length = length-set reps child parent;
    one_more = ground (arith, merged-set reps child parent c, f.room, rc);
    at = λ m n k. ground (arith, get_or-set reps child parent m node_rank_min c);
    at_child = ground (arith, get_or-set reps child parent child node_rank_min c);
    at_parent = ground (
      arith,
      get_or-set reps child parent parent node_rank_min c,
      ne,
      rp,
      f.ranks parent p rp,
      merged-set reps child parent c,
      f.room,
      rc,
    );
  }

  abbrev higher : List ℕ
  higher = set reps parent ((rep reps parent + 1) % 2 ^ 32)

  -- The parent's rank raised by one, which does not overflow.
  raised : (rep reps parent + 1) % 2 ^ 32 ≡ rep reps parent + 1
  raised = omega (arith, f.ranks parent p rp, f.room, merged-lt reps parent p rp)

  raised-Hung : Hung reps (set higher child parent) parent child
  raised-Hung =
      let l = length-set reps parent ((rep reps parent + 1) % 2 ^ 32) in
      let c' : child < length higher = omega arith in
      let at =
        λ (m : ℕ). get_or-set reps parent ((rep reps parent + 1) % 2 ^ 32) m node_rank_min p in
      let at' = λ (m : ℕ). get_or-set higher child parent m node_rank_min c' in
      let more = merged-set higher child parent c' in
      let same = merged-set reps parent ((rep reps parent + 1) % 2 ^ 32) p in
      record {
        same_length = length-set higher child parent ∙ l;
        one_more = ground (arith, more, same, at child, raised, rp, rc, ne, f.room);
        at = λ m n k. ground (arith, at m, at' m);
        at_child = ground (arith, at' child);
        at_parent = ground (
          arith,
          at parent,
          at' parent,
          ne,
          raised,
          more,
          same,
          at child,
          rp,
          rc,
          f.ranks parent p rp,
          f.room,
        );
      }

-- Two distinct representatives of a forest are united: one of them is the parent, every node of the
-- child's set has the parent as its representative, every other node keeps its own, and the result is
-- a forest of the same length.
pub unite_lem :
    (reps : List ℕ) (n1 n2 : ℕ)
    → IsForest reps
    → n1 < length reps
    → n2 < length reps
    → is_rep reps n1 ≡ true
    → is_rep reps n2 ≡ true
    → n1 ≢ n2
    → United reps n1 n2 (unite reps n1 n2)
unfolding unite
unite_lem reps n1 n2 f p q r1 r2 ne = elim (Bool-cases (ltb (rep reps n1) (rep reps n2))) [
  | inl lt ↦
      let h = lower-Hung reps f n2 n1 q p r2 r1 (λ e. ne (sym e)) in
      rw lt (record {
        forest = hung-IsForest reps _ f n2 n1 q p r2 r1 (λ e. ne (sym e)) h;
        length_kept = h.same_length;
        ends = inr (refl, refl);
        reps_merged = λ m l.
            hung_rep reps _ f n2 n1 q p r2 r1 (λ e. ne (sym e)) h (suc (f.depth m)) m l
              (omega arith);
      })
  | inr ge ↦ elim (Bool-cases (rep reps n1 == rep reps n2)) [
    | inl eq ↦
        let h = raised-Hung reps f n1 n2 p q r1 r2 ne in
        rw (ge, eq)
          (record {
            forest = hung-IsForest reps _ f n1 n2 p q r1 r2 ne h;
            length_kept = h.same_length;
            ends = inl (refl, refl);
            reps_merged =
                λ m l. hung_rep reps _ f n1 n2 p q r1 r2 ne h (suc (f.depth m)) m l (omega arith);
          })
    | inr gt ↦
        let h = lower-Hung reps f n1 n2 p q r1 r2 ne in
        rw (ge, gt)
          (record {
            forest = hung-IsForest reps _ f n1 n2 p q r1 r2 ne h;
            length_kept = h.same_length;
            ends = inl (refl, refl);
            reps_merged =
                λ m l. hung_rep reps _ f n1 n2 p q r1 r2 ne h (suc (f.depth m)) m l (omega arith);
          })
  ]
]
