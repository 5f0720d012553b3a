-- ===== src/Tests/Queues.antt =====
-- Runs of include/heap.h and include/worklist.h.
use ptranalysis.Common.{
  ℕ, zero, suc, ◌≡◌, ◌↔◌, refl, true, false, none, some, List, [], ◌∷◌, arith, ◌==◌, if◌then◌else◌,
  not, ◌+◌, ◌≤◌,
}
use ptranalysis.Heap
use ptranalysis.Heap.{Heap, no_position, position, perc_up, perc_dn}
use ptranalysis.Heap.Order.{IsValid}
use ptranalysis.Heap.Index.{lookup}
use ptranalysis.Heap.Push.{Pushed, push_lem, new-IsValid}
use ptranalysis.Heap.Pop.{Popped, pop_lem}
use ptranalysis.Worklist
use ptranalysis.Worklist.{Worklist}
use ptranalysis.Worklist.Passes.{
  IsReady, queued, new-IsReady, push-queued, Taken, pop-queued, swap_if_empty_lem, converged_iff,
}
use ptranalysis.Worklist.Deque
use ptranalysis.Worklist.Deque.{drain-push_all}
use ptranalysis.Worklist.Ids
use ptranalysis.Worklist.Ids.{IdSets, push-contains, Lowest, pop-Lowest}

abbrev no_items : Heap
no_items = Heap.new 8

abbrev one_item : Heap
one_item = (Heap.push no_items 3 70).0

abbrev two_items : Heap
two_items = (Heap.push one_item 5 20).0

IsValid-none : IsValid no_items
IsValid-none = new-IsValid 8 (omega arith)

IsValid-one : IsValid one_item
unfolding Heap.new
IsValid-one = (push_lem no_items 3 70 IsValid-none (omega arith)).0.valid

IsValid-two : IsValid two_items
unfolding Heap.push Heap.new
IsValid-two = (push_lem one_item 5 20 IsValid-one (omega arith)).0.valid

push_lem_example :
    Pushed two_items 3 10 (Heap.push two_items 3 10).0
    × ((Heap.push two_items 3 10).1 ≡ not (position two_items 3 == no_position))
    × ((Heap.push two_items 3 10).0.nv
        ≡ two_items.nv + (if position two_items 3 == no_position then 1 else 0))
push_lem_example = push_lem two_items 3 10 IsValid-two (unfold Heap.push Heap.new in omega arith)

pop_lem_example :
    (t : Heap) × (v : ℕ) × (k : ℕ) × (Heap.pop two_items ≡ some (t, v, k)) × Popped two_items t v k
pop_lem_example = pop_lem two_items IsValid-two (
    unfold Heap.push Heap.new Heap.append_item Heap.perc_up Heap.up_loop Heap.swap_items in
    omega arith)

-- The least key comes out first, and a push lowers a key.
pops : ℕ → Heap → List (ℕ × ℕ)
pops zero h = []
pops (suc fuel) h = elim (Heap.pop h) [ none ↦ [] | some (t, v, k) ↦ (v, k) ∷ pops fuel t ]

pops_two : pops 3 two_items ≡ (5, 20) ∷ (3, 70) ∷ []
unfolding pops Heap.pop Heap.push Heap.new Heap.append_item Heap.remove_first Heap.move_last
    Heap.perc_up Heap.perc_dn Heap.up_loop Heap.down_loop Heap.swap_items
pops_two = refl

pops_lowered : pops 3 (Heap.push two_items 3 10).0 ≡ (3, 10) ∷ (5, 20) ∷ []
unfolding pops Heap.pop Heap.push Heap.new Heap.append_item Heap.remove_first Heap.move_last
    Heap.perc_up Heap.perc_dn Heap.up_loop Heap.down_loop Heap.swap_items
pops_lowered = refl

abbrev no_nodes : Worklist
no_nodes = Worklist.new 8

IsReady-none : IsReady 8 no_nodes
IsReady-none = (new-IsReady 8 (omega arith)).0

abbrev one_node : Worklist
one_node = Worklist.push no_nodes 4 6

IsReady-one : IsReady 8 one_node
IsReady-one = (push-queued 8 4 6 no_nodes IsReady-none (omega arith)).0

push-queued_example :
    IsReady 8 (Worklist.push one_node 5 2)
    × ((m : ℕ)
        → m ≤ 8
        → queued (Worklist.push one_node 5 2) m
          ≡ (lookup one_node.curr m, if m == 5 then some 2 else lookup one_node.next m))
push-queued_example = push-queued 8 5 2 one_node IsReady-one (omega arith)

swap_if_empty_lem_example :
    IsReady 8 (Worklist.swap_if_empty one_node).0
    × ((Worklist.swap_if_empty one_node).1 ≡ Worklist.empty one_node)
    × (Worklist.empty one_node ≡ true
        → (m : ℕ) → m ≤ 8
        → queued (Worklist.swap_if_empty one_node).0 m ≡ (lookup one_node.next m, none))
    × (Worklist.empty one_node ≡ false → (Worklist.swap_if_empty one_node).0 ≡ one_node)
swap_if_empty_lem_example = swap_if_empty_lem 8 one_node IsReady-one

abbrev next_pass : Worklist
next_pass = (Worklist.swap_if_empty one_node).0

IsReady-pass : IsReady 8 next_pass
IsReady-pass = (swap_if_empty_lem 8 one_node IsReady-one).0

next_filled : Worklist.empty next_pass ≡ false
unfolding Worklist.empty Worklist.swap_if_empty Worklist.push Worklist.new Heap.new Heap.empty
    Heap.push Heap.append_item Heap.perc_up Heap.up_loop Heap.swap_items
next_filled = refl

pop-queued_example :
    (t : Worklist) × (n : ℕ) × (p : ℕ) × (Worklist.pop next_pass ≡ some (t, n, p))
    × Taken 8 next_pass t n p
pop-queued_example = pop-queued 8 next_pass IsReady-pass next_filled

converged_iff_example :
    (((Worklist.swap_if_empty no_nodes).1 ≡ true)
      × (Worklist.empty (Worklist.swap_if_empty no_nodes).0 ≡ true))
    ↔ ((m : ℕ) → m ≤ 8 → queued no_nodes m ≡ (none, none))
converged_iff_example = converged_iff 8 no_nodes IsReady-none

drain-push_all_example :
    Deque.drain 3 (Deque.swap_if_empty (Deque.push_all Deque.new (7 ∷ 2 ∷ 9 ∷ []))).0
    ≡ 7 ∷ 2 ∷ 9 ∷ []
drain-push_all_example = drain-push_all (7 ∷ 2 ∷ 9 ∷ [])

abbrev some_ids : IdSets
some_ids = record { curr = 3 ∷ 7 ∷ []; next = 2 ∷ 5 ∷ [] }

some_ids-IsOrdered : Ids.IsOrdered some_ids
some_ids-IsOrdered = record {
  curr_increasing = (omega arith, tt);
  next_increasing = (omega arith, tt);
}
