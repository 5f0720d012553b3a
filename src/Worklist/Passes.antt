-- ===== src/Worklist/Passes.antt =====
-- The passes of the solver over the worklist: what is pushed in a pass is popped in the next one,
-- and no node is lost.
use ptranalysis.Common.{
  ℕ, suc, ◌≤◌, ◌<◌, ◌≡◌, ◌↔◌, refl, true, false, Option, none, some, arith, ◌==◌, if◌then◌else◌,
  inl, inr, Bool-cases, ◌∙◌, ap, ℕ_discrete,
}
use mathlib.Core.Path.{ap₂}
use ptranalysis.Heap
use ptranalysis.Heap.{Heap, no_position, position}
use ptranalysis.Heap.Index.{lookup, lookup_empty, lookup_first}
use ptranalysis.Heap.Order.{IsValid}
use ptranalysis.Heap.Push.{Pushed, push_lem, new-IsValid, lookup-new}
use ptranalysis.Heap.Pop.{pop_lem}
use ptranalysis.Worklist.{Worklist, new, empty, swap_if_empty, push, pop}

pub record IsReady (nn : ℕ) (w : Worklist) : Type 0 where
  pub curr_valid : IsValid w.curr
  pub next_valid : IsValid w.next
  pub curr_max : w.curr.maxv ≡ nn
  pub next_max : w.next.maxv ≡ nn

-- The priorities under which a node is queued, in this pass and in the next one.
abbrev pub queued : Worklist → ℕ → Option ℕ × Option ℕ
queued w n = (lookup w.curr n, lookup w.next n)

-- A new worklist for fewer than 2 ^ 30 - 1 nodes is ready, and no node is queued.
pub new-IsReady :
    (nn : ℕ)
    → suc nn < 1073741824
    → IsReady nn (new nn) × ((n : ℕ) → queued (new nn) n ≡ (none, none))
unfolding new
new-IsReady nn h =
    let max : (Heap.new nn).maxv ≡ nn = unfold Heap.new in refl in
    (
      record {
        curr_valid = new-IsValid nn h;
        next_valid = new-IsValid nn h;
        curr_max = max;
        next_max = max;
      },
      λ n. rw (lookup-new nn n),
    )

-- A push of a node in range keeps a worklist ready. It queues the node for the next pass with the
-- new priority, and leaves every other node, and this pass, as it was.
pub push-queued :
    (nn n p : ℕ) (w : Worklist)
    → IsReady nn w
    → n ≤ nn
    → IsReady nn (push w n p)
      × ((m : ℕ)
          → m ≤ nn
          → queued (push w n p) m ≡ (lookup w.curr m, if m == n then some p else lookup w.next m))
unfolding push
push-queued nn n p w r h =
    let s : Pushed w.next n p (Heap.push w.next n p).0 =
      (push_lem w.next n p r.next_valid (omega (arith, r.next_max))).0 in
    (
      record {
        curr_valid = r.curr_valid;
        next_valid = s.valid;
        curr_max = r.curr_max;
        next_max = s.same_maxv ∙ r.next_max;
      },
      λ m q. ap (λ o. (lookup w.curr m, o)) (s.stored m (omega (arith, r.next_max))),
    )

-- What a pop of this pass leaves.
pub record Taken (nn : ℕ) (w t : Worklist) (n p : ℕ) : Type 0 where
  pub ready : IsReady nn t
  pub in_range : n ≤ nn
  pub was_queued : lookup w.curr n ≡ some p
  pub least : (m q : ℕ) → m ≤ nn → lookup w.curr m ≡ some q → p ≤ q
  pub left : (m : ℕ) → m ≤ nn → lookup t.curr m ≡ (if m == n then none else lookup w.curr m)
  pub same_next : t.next ≡ w.next

pop_of :
    (w : Worklist) (h : Heap) (n p : ℕ)
    → Heap.pop w.curr ≡ some (h, n, p)
    → pop w ≡ some (record w { curr = h }, n, p)
unfolding pop
pop_of w h n p e = rw (e, pop)

-- While this pass of a ready worklist is not empty, a pop takes from it a queued node of least
-- priority, and leaves every other node, and the next pass, as it was.
pub pop-queued :
    (nn : ℕ) (w : Worklist)
    → IsReady nn w
    → empty w ≡ false
    → (t : Worklist) × (n : ℕ) × (p : ℕ) × (pop w ≡ some (t, n, p)) × Taken nn w t n p
unfolding pop empty
pop-queued nn w r e =
    let (h, n, p, popped, s) = pop_lem w.curr r.curr_valid (ground arith) in
    (
      record w { curr = h },
      n,
      p,
      pop_of w h n p popped,
      record {
        ready = record {
          curr_valid = s.valid;
          next_valid = r.next_valid;
          curr_max = s.same_maxv ∙ r.curr_max;
          next_max = r.next_max;
        };
        in_range = omega (arith, s.in_range, r.curr_max);
        was_queued = s.present;
        least = λ m q a. s.least m q (omega (arith, r.curr_max));
        left = λ m a. s.removed m (omega (arith, r.curr_max));
        same_next = refl;
      },
    )

-- On a ready worklist a swap happens exactly if this pass is empty. It makes the next pass this one,
-- with nothing queued behind it; otherwise the worklist stays as it is. Either way it stays ready.
pub swap_if_empty_lem :
    (nn : ℕ) (w : Worklist)
    → IsReady nn w
    → IsReady nn (swap_if_empty w).0
      × ((swap_if_empty w).1 ≡ empty w)
      × (empty w ≡ true → (m : ℕ) → m ≤ nn → queued (swap_if_empty w).0 m ≡ (lookup w.next m, none))
      × (empty w ≡ false → (swap_if_empty w).0 ≡ w)
unfolding swap_if_empty empty
swap_if_empty_lem nn w r = elim (Bool-cases (w.curr.nv == 0)) [
  | inl e ↦ rw e (
    record {
      curr_valid = r.next_valid;
      next_valid = r.curr_valid;
      curr_max = r.next_max;
      next_max = r.curr_max;
    },
    refl,
    λ _ m p.
        ap (λ o. (lookup w.next m, o))
          (lookup_empty w.curr r.curr_valid.indexed (ground arith) m (omega (arith, r.curr_max))),
    λ h. cc,
  )
  | inr e ↦ rw e (r, refl, λ h. cc, λ _. refl)
]

heap_empty : (h : Heap) → IsValid h → ((m : ℕ) → m ≤ h.maxv → lookup h m ≡ none) → h.nv ≡ 0
heap_empty h ok all = elim (ℕ_discrete h.nv 0) [
  | yes e ↦ e
  | no n ↦
      let (in_range, e) = lookup_first h ok.indexed (omega arith) in
      absurd (cc (all (Heap.value h 1) in_range))
]

-- The solver leaves its loop, at a swap after which nothing is there to pop, exactly if no node is
-- queued in either pass of the ready worklist.
pub converged_iff :
    (nn : ℕ) (w : Worklist)
    → IsReady nn w
    → (((swap_if_empty w).1 ≡ true) × (empty (swap_if_empty w).0 ≡ true))
      ↔ ((m : ℕ) → m ≤ nn → queued w m ≡ (none, none))
unfolding swap_if_empty empty
converged_iff nn w r = (
  λ (swapped, done) m p. elim (Bool-cases (w.curr.nv == 0)) [
    | inl e ↦
        ap₂ (λ a b. (a, b))
          (lookup_empty w.curr r.curr_valid.indexed (ground arith) m (omega (arith, r.curr_max)))
          (lookup_empty w.next r.next_valid.indexed (ground arith) m (omega (arith, r.next_max)))
    | inr e ↦ absurd (ground arith)
  ],
  λ all.
      let c =
        heap_empty w.curr r.curr_valid (λ m p. ap (λ q. q.0) (all m (omega (arith, r.curr_max)))) in
      let n =
        heap_empty w.next r.next_valid (λ m p. ap (λ q. q.1) (all m (omega (arith, r.next_max)))) in
      ground arith,
)
