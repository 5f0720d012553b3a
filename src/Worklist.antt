-- ===== src/Worklist.antt =====
-- include/worklist.h as include/config.h sets it up: WL_ORDER is WLO_PRIO, so the lists are heaps,
-- and DUAL_WL is 1, so nodes are pushed onto `next` and popped from `curr`.
pub mod Passes
pub mod Deque
pub mod Ids
use ptranalysis.Common.{ℕ, Bool, true, false, Option, none, some, if◌then◌else◌}
use ptranalysis.Heap
use ptranalysis.Heap.{Heap}

pub record Worklist : Type 0 where
  pub curr : Heap
  pub next : Heap

unfoldable pub new : ℕ → Worklist
unfolding Heap.new
new nn = record { curr = Heap.new nn; next = Heap.new nn }

unfoldable pub empty : Worklist → Bool
unfolding Heap.empty
empty w = Heap.empty w.curr

-- `curr.swap(next)` exchanges every field of the two heaps.
unfoldable pub swap_if_empty : Worklist → Worklist × Bool
unfolding Heap.empty
swap_if_empty w =
    if Heap.empty w.curr then (record { curr = w.next; next = w.curr }, true) else (w, false)

unfoldable pub push : Worklist → ℕ → ℕ → Worklist
push w n p = record w { next = (Heap.push w.next n p).0 }

-- The list after the call, the node and its priority; `none` is the failed assertion.
unfoldable pub pop : Worklist → Option (Worklist × ℕ × ℕ)
pop w = elim (Heap.pop w.curr) [ none ↦ none | some (h, n, p) ↦ some (record w { curr = h }, n, p) ]
