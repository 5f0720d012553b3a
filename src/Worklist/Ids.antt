-- ===== src/Worklist/Ids.antt =====
-- include/worklist.h, the class for WL_ORDER == WLO_ID, with DUAL_WL == 1: an ordered set for each
-- pass.
use ptranalysis.Common.{
  ℕ, ◌≤◌, ◌≡◌, refl, Bool, true, false, not, ◌&&◌, ◌||◌, Option, none, some, List, [], ◌∷◌, arith,
  ◌==◌, if◌then◌else◌, ◌⊎◌, inl, inr,
}
use ptranalysis.Common.IdSet.{
  insert, contains, IsIncreasing, Above, contains-insert, insert-IsIncreasing, Above-lt,
}

pub record IdSets : Type 0 where
  pub curr : List ℕ
  pub next : List ℕ

unfoldable pub empty : IdSets → Bool
empty d = elim d.curr [ [] ↦ true | _ ∷ _ ↦ false ]

unfoldable pub swap_if_empty : IdSets → IdSets × Bool
unfolding empty
swap_if_empty d = if empty d then (record { curr = d.next; next = d.curr }, true) else (d, false)

-- The priority is ignored.
unfoldable pub push : IdSets → ℕ → ℕ → IdSets
push d n p = record d { next = insert n d.next }

-- The sets after the call, the lowest node, and the priority 0.
unfoldable pub pop : IdSets → Option (IdSets × ℕ × ℕ)
pop d = elim d.curr [ [] ↦ none | x ∷ xs ↦ some (record d { curr = xs }, x, 0) ]

pub record IsOrdered (d : IdSets) : Type 0 where
  pub curr_increasing : IsIncreasing d.curr
  pub next_increasing : IsIncreasing d.next

Above-IsIncreasing : (b : ℕ) (xs : List ℕ) → Above b xs → IsIncreasing xs
Above-IsIncreasing b [] s = tt
Above-IsIncreasing b (x ∷ xs) s = s.1

-- A push adds the node, and no other, to the next pass and keeps this pass; ordered sets stay so.
pub push-contains :
    (d : IdSets) (n p m : ℕ)
    → IsOrdered d
    → IsOrdered (push d n p)
      × (contains m (push d n p).next ≡ (m == n) || contains m d.next)
      × (contains m (push d n p).curr ≡ contains m d.curr)
unfolding push
push-contains d n p m o = (
  record {
    curr_increasing = o.curr_increasing;
    next_increasing = insert-IsIncreasing n d.next o.next_increasing;
  },
  contains-insert n m d.next,
  refl,
)

-- What a pop of the lowest node leaves.
pub record Lowest (d t : IdSets) (n : ℕ) : Type 0 where
  pub ordered : IsOrdered t
  pub was_there : contains n d.curr ≡ true
  pub lowest : (m : ℕ) → contains m d.curr ≡ true → n ≤ m
  pub left : (m : ℕ) → contains m t.curr ≡ not (m == n) && contains m d.curr
  pub same_next : t.next ≡ d.next

pop_cons :
    (x : ℕ) (xs ns : List ℕ)
    → Above x xs
    → IsIncreasing ns
    → Lowest (record { curr = x ∷ xs; next = ns }) (record { curr = xs; next = ns }) x
pop_cons x xs ns a i = record {
  ordered = record { curr_increasing = Above-IsIncreasing x xs a; next_increasing = i };
  was_there = ground arith;
  lowest = λ m h. ground (arith, Above-lt x m xs a);
  left = λ m. ground (arith, Above-lt x m xs a);
  same_next = refl;
}

-- On ordered sets a pop fails if this pass is empty; otherwise it takes the lowest node of
-- this pass, which is in it once, and leaves the next pass alone.
pub pop-Lowest :
    (d : IdSets)
    → IsOrdered d
    → ((pop d ≡ none) × (empty d ≡ true))
      ⊎ ((t : IdSets) × (n : ℕ) × (pop d ≡ some (t, n, 0)) × Lowest d t n)
unfolding pop empty
pop-Lowest d o = split d.curr d.next o.curr_increasing o.next_increasing
  where
    split :
        (c ns : List ℕ)
        → IsIncreasing c
        → IsIncreasing ns
        → ((pop (record { curr = c; next = ns }) ≡ none)
            × (empty (record { curr = c; next = ns }) ≡ true))
          ⊎ ((t : IdSets) × (n : ℕ) × (pop (record { curr = c; next = ns }) ≡ some (t, n, 0))
              × Lowest (record { curr = c; next = ns }) t n)
    split [] ns a i = inl (refl, refl)
    split (x ∷ xs) ns a i = inr (record { curr = xs; next = ns }, x, refl, pop_cons x xs ns a i)
