-- ===== src/Worklist/Deque.antt =====
-- include/worklist.h, the class for WL_ORDER == WLO_FIFO or WLO_LIFO, with DUAL_WL == 1: a deque for
-- each pass.
use ptranalysis.Common.{
  ℕ, zero, suc, ◌≤◌, ◌≡◌, refl, Bool, true, false, Option, none, some, List, [], ◌∷◌, ◌++◌, arith,
  ◌==◌, if◌then◌else◌, length, get_or, drop_last, ◌-◌, ap, ◌∙◌, sym,
}
use mathlib.Core.List.{append_assoc, append-nil}

pub record Deques : Type 0 where
  pub curr : List ℕ
  pub next : List ℕ

-- include/config.h defines WL_PRIO as WLP_LRF, which is 0.
abbrev pub wl_prio : ℕ
wl_prio = 0

-- No file defines this macro, and the preprocessor reads such a name as 0.
abbrev pub wlp_fifo : ℕ
wlp_fifo = 0

unfoldable pub new : Deques
new = record { curr = []; next = [] }

unfoldable pub empty : Deques → Bool
empty d = elim d.curr [ [] ↦ true | _ ∷ _ ↦ false ]

unfoldable pub swap_if_empty : Deques → Deques × Bool
unfolding empty
swap_if_empty d = if empty d then (record { curr = d.next; next = d.curr }, true) else (d, false)

-- The priority is ignored.
unfoldable pub push : Deques → ℕ → ℕ → Deques
push d n p = record d { next = d.next ++ n ∷ [] }

-- The deques after the call, the node, and the priority 0.
unfoldable pub pop : Deques → Option (Deques × ℕ × ℕ)
pop d = elim d.curr [
  | [] ↦ none
  | x ∷ xs ↦
      if wl_prio == wlp_fifo
      then some (record d { curr = xs }, x, 0)
      else some (record d { curr = drop_last (x ∷ xs) }, get_or (x ∷ xs) (length (x ∷ xs) - 1) 0, 0)
]

-- The nodes in the order in which they are pushed.
unfoldable pub push_all : Deques → List ℕ → Deques
push_all d [] = d
push_all d (n ∷ ns) = push_all (push d n 0) ns

-- The nodes in the order in which one pass pops them.
unfoldable pub drain : ℕ → Deques → List ℕ
drain zero d = []
drain (suc fuel) d = elim (pop d) [ none ↦ [] | some (t, n, p) ↦ n ∷ drain fuel t ]

push_all-next : (d : Deques) (ns : List ℕ) → push_all d ns ≡ record d { next = d.next ++ ns }
unfolding push_all push
push_all-next d [] = ap (λ (l : List ℕ). record d { next = l }) (sym (append-nil d.next))
push_all-next d (n ∷ ns) =
    push_all-next (push d n 0) ns
    ∙ ap (λ (l : List ℕ). record d { next = l }) (append_assoc d.next (n ∷ []) ns)

drain-curr :
    (fuel : ℕ) (c n : List ℕ) → length c ≤ fuel → drain fuel (record { curr = c; next = n }) ≡ c
unfolding drain pop
drain-curr zero [] n h = refl
drain-curr zero (x ∷ c) n h = absurd (omega arith)
drain-curr (suc fuel) [] n h = refl
drain-curr (suc fuel) (x ∷ c) n h = ap (λ l. x ∷ l) (drain-curr fuel c n (omega arith))

-- Nodes pushed in one pass are popped in the next one in the order of the pushes, the least recent
-- first, under WLO_LIFO as well: the test of the preprocessor does not read WL_ORDER.
pub drain-push_all : (ns : List ℕ) → drain (length ns) (swap_if_empty (push_all new ns)).0 ≡ ns
unfolding new
drain-push_all ns =
    rw (push_all-next new ns) (unfold swap_if_empty in drain-curr (length ns) ns [] (omega arith))
