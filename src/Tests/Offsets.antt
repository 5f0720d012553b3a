-- ===== src/Tests/Offsets.antt =====
-- Runs of the part of pts_init, anders/solve.cpp, for constraints with an offset.
use ptranalysis.Common.{
  ℕ, zero, suc, ◌≤◌, ◌<◌, ◌≡◌, refl, true, some, none, List, [], ◌∷◌, arith, ◌==◌, get_or, inl,
}
use ptranalysis.Constraint.{Constraint}
use ptranalysis.Solver.Offsets.{Masks, init_masks}
use ptranalysis.Solver.Fields.{has_offset, HasFields, init_masks_lem, init_masks-none}
use ptranalysis.Tests.Graphs.{masks}
use ptranalysis.Tests.Domains.{mask_vars}
use ptranalysis.Tests.Visits.{load_2, gep_2}

-- Objects of one, three and two fields.
abbrev some_sizes : List ℕ
some_sizes = 1 ∷ 3 ∷ 2 ∷ []

init_masks_lem_example :
    (m : Masks masks mask_vars) × (init_masks masks mask_vars
        (load_2 ∷ gep_2 ∷ [])
        some_sizes
        (0 ∷ 0 ∷ 0 ∷ [])
      ≡ some m)
    × ((v : ℕ)
        → 0 < v
        → has_offset (load_2 ∷ gep_2 ∷ []) v ≡ true
        → HasFields masks mask_vars some_sizes m v)
init_masks_lem_example =
    init_masks_lem masks mask_vars (load_2 ∷ gep_2 ∷ []) some_sizes (0 ∷ 0 ∷ 0 ∷ [])
      (record { room = omega arith; entries = λ n. inl (no_sets n) }) (omega arith)
      (λ v p h. (1, only_one v p h))
  where
    no_sets : (n : ℕ) → (get_or (0 ∷ 0 ∷ 0 ∷ []) n 0 == 0) ≡ true
    no_sets zero = refl
    no_sets (suc zero) = refl
    no_sets (suc (suc zero)) = refl
    no_sets (suc (suc (suc n))) = refl

    only_one : (v : ℕ) → 0 < v → has_offset (load_2 ∷ gep_2 ∷ []) v ≡ true → v < 3
    only_one v p h = ground arith

-- An offset of 3, as of the second argument of an indirect call.
abbrev far : Constraint
far = record gep_2 { off = 3 }

init_masks-none_example : init_masks masks mask_vars (far ∷ []) some_sizes (0 ∷ 0 ∷ 0 ∷ []) ≡ none
init_masks-none_example =
    init_masks-none masks mask_vars (far ∷ []) some_sizes (0 ∷ 0 ∷ 0 ∷ []) 3 (omega arith) refl
      small
  where
    small : (i : ℕ) → get_or some_sizes i 0 ≤ 3
    small zero = omega arith
    small (suc zero) = omega arith
    small (suc (suc zero)) = omega arith
    small (suc (suc (suc i))) = omega arith
