-- ===== src/Solver/Masks.antt =====
-- The offset masks of pts_init, anders/solve.cpp: off_mask[off] is the set of the objects with more
-- than `off` fields.
use ptranalysis.Common.{
  ℕ, zero, suc, ◌-◌, ◌≤◌, ◌<◌, ◌≡◌, ◌⊎◌, refl, ap, ◌∙◌, Bool, true, false, ◌&&◌, ◌||◌, List, [],
  ◌∷◌, ◌++◌, arith, ltb, ◌==◌, if◌then◌else◌, Bool-cases, inl, inr, length, get_or, replicate,
  get_or-set, get_or-replicate, length-set, length-replicate, length-append, ℕ_discrete,
}
use ptranalysis.Common.IdSet
use ptranalysis.Common.IdSet.{contains, contains-insert, Above, IsIncreasing, insert-IsIncreasing}
use ptranalysis.Solver.Offsets.{largest_valid, resize, add_node}

-- The largest valid offset up to `n`, or 0.
pub record Largest (valid : List ℕ) (n r : ℕ) : Type 0 where
  pub bounded : r ≤ n
  pub found : (r ≡ 0) ⊎ (contains r valid ≡ true)
  pub maximal : (v : ℕ) → contains v valid ≡ true → v ≤ n → v ≤ r

pub largest_valid-Largest : (valid : List ℕ) (n : ℕ) → Largest valid n (largest_valid valid n)
unfolding largest_valid
largest_valid-Largest valid zero = record {
  bounded = omega arith;
  found = inl refl;
  maximal = λ v c l. l;
}
largest_valid-Largest valid (suc n) =
    let r = largest_valid-Largest valid n in
    elim (Bool-cases (contains (suc n) valid)) [
      | inl there ↦
          rw there (record { bounded = omega arith; found = inr there; maximal = λ v c l. l })
      | inr not_there ↦ rw not_there (record {
        bounded = omega (arith, r.bounded);
        found = r.found;
        maximal = λ v c l. r.maximal v c (elim (ℕ_discrete v (suc n)) [
          | yes e ↦ absurd (cc (ap (λ (i : ℕ). contains i valid) e, c, not_there))
          | no other ↦ omega arith
        ]);
      })
    ]

-- Does an object of the size belong to the group of `v`?
abbrev pub belongs : List ℕ → ℕ → ℕ → Bool
belongs valid sz v = ltb 1 sz && (largest_valid valid (sz - 1) == v)

abbrev pub in_group : List (List ℕ) → ℕ → ℕ → Bool
in_group off_nodes v x = contains x (get_or off_nodes v [])

get_or-resize : (g : List (List ℕ)) (k v : ℕ) → get_or (g ++ replicate k []) v [] ≡ get_or g v []
get_or-resize [] k v = get_or-replicate k [] v
get_or-resize (x ∷ g) k zero = refl
get_or-resize (x ∷ g) k (suc v) = get_or-resize g k v

pub length-add_node :
    (valid : List ℕ) (g : List (List ℕ)) (i sz : ℕ)
    → (length g ≤ length (add_node valid g i sz)) × (1 < sz → sz ≤ length (add_node valid g i sz))
unfolding add_node
length-add_node valid g i sz = elim (Bool-cases (ltb sz 2)) [
  | inl small ↦ rw small (omega arith, λ h. absurd (ground arith))
  | inr large ↦
      let more : List (List ℕ) = if ltb (length g) sz then resize g sz else g in
      let len : (length g ≤ length more) × (sz ≤ length more) =
        elim (Bool-cases (ltb (length g) sz)) [
          | inl less ↦
              let e = length-append g (replicate (sz - length g) []) in
              let f = length-replicate {A = List ℕ} (sz - length g) [] in
              rw less (omega (arith, e, f), omega (arith, e, f))
          | inr enough ↦ rw enough (omega arith, ground arith)
        ] in
      elim (Bool-cases (largest_valid valid (sz - 1) == 0)) [
        | inl zero_off ↦ rw (large, zero_off) (len.0, λ h. len.1)
        | inr off ↦
            let e =
              length-set more (largest_valid valid (sz - 1))
                (IdSet.insert i (get_or more (largest_valid valid (sz - 1)) [])) in
            rw (large, off) (omega (arith, len.0, e), λ h. omega (arith, len.1, e))
      ]
]

pub in_group-add_node :
    (valid : List ℕ) (g : List (List ℕ)) (i sz v x : ℕ)
    → 0 < v
    → in_group (add_node valid g i sz) v x ≡ in_group g v x || ((x == i) && belongs valid sz v)
unfolding add_node
in_group-add_node valid g i sz v x p = elim (Bool-cases (ltb sz 2)) [
  | inl small ↦ rw small (ground arith)
  | inr large ↦
      let more : List (List ℕ) = if ltb (length g) sz then resize g sz else g in
      let off = largest_valid valid (sz - 1) in
      let same : (u : ℕ) → get_or more u [] ≡ get_or g u [] = λ u.
        elim (Bool-cases (ltb (length g) sz)) [
          | inl less ↦ rw less (get_or-resize g (sz - length g) u)
          | inr enough ↦ rw enough refl
        ] in
      let len : sz ≤ length more = elim (Bool-cases (ltb (length g) sz)) [
        | inl less ↦
            let e = length-append g (replicate (sz - length g) []) in
            let f = length-replicate {A = List ℕ} (sz - length g) [] in
            rw less (omega (arith, e, f))
        | inr enough ↦ rw enough (ground arith)
      ] in
      elim (Bool-cases (off == 0)) [
        | inl zero_off ↦ rw (large, zero_off) (ap (contains x) (same v) ∙ ground arith)
        | inr some_off ↦
            let b = (largest_valid-Largest valid (sz - 1)).bounded in
            let e =
              get_or-set more off (IdSet.insert i (get_or more off [])) v []
                (omega (arith, b, len, ltb-false large)) in
            rw (large, some_off)
              (ap (contains x) e ∙ elim (ℕ_discrete off v) [
                | yes here ↦ rw here (
                    ground
                      (arith, contains-insert i x (get_or more v []), ap (contains x) (same v)))
                | no other ↦ ground (arith, ap (contains x) (same v))
              ])
      ]
]
  where
    ltb-false : ltb sz 2 ≡ false → 2 ≤ sz
    ltb-false h = ground arith
