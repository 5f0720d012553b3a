-- ===== src/Heap/Pop.antt =====
-- `pop` of include/heap.h.
use ptranalysis.Common.{
  ℕ, zero, suc, ◌↔◌, ne→==, eq→==, ◌+◌, ◌-◌, ◌/◌, ◌≤◌, ◌<◌, ◌≡◌, ◌≢◌, refl, none, some, arith, ◌==◌,
  if◌then◌else◌, ◌∙◌, length, set, length-set, get_or-set, ℕ_discrete, length-drop_last,
  get_or-drop_last,
}
use ptranalysis.Heap.{
  Heap, no_position, key, value, position, pop, remove_first, move_last, trim, perc_dn,
}
use ptranalysis.Heap.Index.{IsIndexed, lookup, lookup_first, used, used-set, nv-lt-no_position}
use ptranalysis.Heap.Order.{IsOrdered, IsValid, Sifted, DownInv, perc_dn-Sifted}

-- The first item is a least one.
root_least :
    (fuel : ℕ) (h : Heap) (i : ℕ) → IsOrdered h → 0 < i → i ≤ h.nv → i ≤ fuel → key h 1 ≤ key h i
root_least zero h i o p q f = absurd (omega arith)
root_least (suc fuel) h i o p q f = elim (ℕ_discrete i 1) [
  | yes e ↦ rw e (omega arith)
  | no n ↦ omega (
    arith,
    o i (omega arith) q,
    root_least fuel h (i / 2) o (omega arith) (omega arith) (omega arith),
  )
]

-- What `pop` promises: an item with a least key has left the heap, and all else is kept.
pub record Popped (h : Heap) (t : Heap) (v k : ℕ) : Type 0 where
  pub valid : IsValid t
  pub same_maxv : t.maxv ≡ h.maxv
  pub size : suc t.nv ≡ h.nv
  pub in_range : v ≤ h.maxv
  pub present : lookup h v ≡ some k
  pub least : (w j : ℕ) → w ≤ h.maxv → lookup h w ≡ some j → k ≤ j
  pub removed : (w : ℕ) → w ≤ h.maxv → lookup t w ≡ (if w == v then none else lookup h w)

module _ (h : Heap) (ok : IsValid h) (0<nv : 0 < h.nv) where
  abbrev x : IsIndexed h
  x = ok.indexed

  first_present : lookup h (value h 1) ≡ some (key h 1)
  first_present = (lookup_first h x 0<nv).1

  first_least : (w j : ℕ) → w ≤ h.maxv → lookup h w ≡ some j → key h 1 ≤ j
  unfolding lookup
  first_least w j p e =
      ground (arith, x.placed w, root_least h.nv h (position h w) ok.ordered, nv-lt-no_position h x)

  position-remove :
      (w : ℕ) → position (remove_first h) w ≡ (if w == value h 1 then no_position else position h w)
  unfolding remove_first
  position-remove w =
      ground (arith, get_or-set h.idxv (value h 1) no_position w no_position, x.entries, x.held 1)

  counted-remove : used (remove_first h).idxv ≡ h.nv - 1
  unfolding remove_first
  counted-remove = ground (
    arith,
    used-set h.idxv (value h 1) no_position,
    x.entries,
    x.counted,
    x.held 1,
    nv-lt-no_position h x,
  )

  -- Where the last item is not the one that leaves.
  module _ (1<nv : 1 < h.nv) where
    abbrev m : Heap
    m = move_last (remove_first h)

    key-move : (i : ℕ) → key m i ≡ (if i == 1 then key h h.nv else key h i)
    unfolding move_last remove_first
    key-move i =
        let e : h.nv - 1 + 1 ≡ h.nv = omega arith in
        ground (arith, get_or-set h.hk 1 (key h (h.nv - 1 + 1)) i 0, x.keys, e)

    value-move : (i : ℕ) → value m i ≡ (if i == 1 then value h h.nv else value h i)
    unfolding move_last remove_first
    value-move i =
        let e : h.nv - 1 + 1 ≡ h.nv = omega arith in
        ground (arith, get_or-set h.hv 1 (value h (h.nv - 1 + 1)) i 0, x.values, e)

    last_ne : value h h.nv ≢ value h 1
    last_ne = ground (arith, x.held 1, x.held h.nv)

    position-move :
        (w : ℕ)
        → position m w
          ≡ (if w == value h h.nv then 1 else if w == value h 1 then no_position else position h w)
    unfolding move_last remove_first
    position-move w =
        let e : h.nv - 1 + 1 ≡ h.nv = omega arith in
        ground (
          arith,
          e,
          get_or-set (set h.idxv (value h 1) no_position) (value h (h.nv - 1 + 1)) 1 w no_position,
          get_or-set h.idxv (value h 1) no_position w no_position,
          x.entries,
          x.held 1,
          x.held h.nv,
          length-set h.idxv (value h 1) no_position,
        )

    counted-move : used m.idxv ≡ h.nv - 1
    unfolding move_last remove_first
    counted-move =
        let e : h.nv - 1 + 1 ≡ h.nv = omega arith in
        ground (
          arith,
          e,
          used-set (set h.idxv (value h 1) no_position) (value h (h.nv - 1 + 1)) 1,
          used-set h.idxv (value h 1) no_position,
          x.entries,
          x.counted,
          x.held 1,
          x.held h.nv,
          nv-lt-no_position h x,
          length-set h.idxv (value h 1) no_position,
          last_ne,
          get_or-set h.idxv (value h 1) no_position (value h h.nv) no_position,
        )

    move_sizes :
        (m.nv ≡ h.nv - 1)
        × (m.maxv ≡ h.maxv)
        × (length m.hk ≡ length h.hk)
        × (length m.hv ≡ length h.hv)
        × (length m.idxv ≡ length h.idxv)
    unfolding move_last remove_first
    move_sizes = ground (
      arith,
      length-set h.hk 1 (key h (h.nv - 1 + 1)),
      length-set h.hv 1 (value h (h.nv - 1 + 1)),
      length-set (set h.idxv (value h 1) no_position) (value h (h.nv - 1 + 1)) 1,
      length-set h.idxv (value h 1) no_position,
    )

    move-IsIndexed : IsIndexed m
    move-IsIndexed = record {
      keys = omega (arith, move_sizes, x.keys);
      values = omega (arith, move_sizes, x.values);
      entries = omega (arith, move_sizes, x.entries);
      room = omega (arith, move_sizes, x.room);
      counted = omega (arith, move_sizes, counted-move);
      held = λ i p q. ground (
        arith,
        move_sizes,
        value-move i,
        position-move (value m i),
        x.held i,
        x.held 1,
        x.held h.nv,
      );
      placed = λ w p q. ground (
        arith,
        move_sizes,
        position-move w,
        value-move (position m w),
        x.placed w,
        x.held 1,
        x.held h.nv,
      );
    }

    move-DownInv : DownInv m 1
    move-DownInv = record {
      edges = λ c a b n. ground (arith, move_sizes, key-move c, key-move (c / 2), ok.ordered c);
      bridged = λ c a b p e. absurd (omega arith);
    }

    move_lookup : (w : ℕ) → w ≤ h.maxv → lookup m w ≡ (if w == value h 1 then none else lookup h w)
    unfolding lookup
    move_lookup w p = ground (
      arith,
      position-move w,
      key-move (position m w),
      x.placed w,
      x.held 1,
      x.held h.nv,
      last_ne,
      nv-lt-no_position h x,
    )

  -- Where the item that leaves is the only one.
  module _ (one : h.nv ≡ 1) where
    remove_none : (w : ℕ) → w ≤ h.maxv → position (remove_first h) w ≡ no_position
    remove_none w p = ground (arith, position-remove w, x.placed w, x.held 1)

    remove-IsIndexed : IsIndexed (remove_first h)
    unfolding remove_first
    remove-IsIndexed = record {
      keys = omega (arith, x.keys);
      values = omega (arith, x.values);
      entries = omega (arith, length-set h.idxv (value h 1) no_position, x.entries);
      room = x.room;
      counted = counted-remove;
      held = λ i p q. absurd (omega arith);
      placed = λ w p q. absurd (q (remove_none w p));
    }

    remove_lookup :
        (w : ℕ)
        → w ≤ h.maxv
        → lookup (remove_first h) w ≡ (if w == value h 1 then none else lookup h w)
    unfolding lookup
    remove_lookup w p = ground (arith, position-remove w, x.placed w, x.held 1)

module _ (t : Heap) (x : IsIndexed t) (o : IsOrdered t) (keys : length t.hk ≡ suc (suc t.nv))
    (values : length t.hv ≡ suc (suc t.nv)) where
  key-trim : (i : ℕ) → i ≤ t.nv → key (trim t) i ≡ key t i
  key-trim i p = get_or-drop_last t.hk i 0 (omega arith)

  value-trim : (i : ℕ) → i ≤ t.nv → value (trim t) i ≡ value t i
  value-trim i p = get_or-drop_last t.hv i 0 (omega arith)

  trim-IsValid : IsValid (trim t)
  trim-IsValid = record {
    indexed = record {
      keys = omega (arith, length-drop_last t.hk);
      values = omega (arith, length-drop_last t.hv);
      entries = x.entries;
      room = x.room;
      counted = x.counted;
      held = λ i p q. ground (arith, value-trim i, x.held i);
      placed = λ w p q. ground (arith, x.placed w, value-trim (position t w));
    };
    ordered = λ c p q. ground (arith, key-trim c, key-trim (c / 2), o c);
    exact = omega (arith, length-drop_last t.hk, length-drop_last t.hv);
  }

  lookup-trim : (w : ℕ) → w ≤ t.maxv → lookup (trim t) w ≡ lookup t w
  unfolding lookup
  lookup-trim w p = ground (arith, key-trim (position t w), x.placed w)

-- The assertion of `pop` fails exactly on an empty heap.
pub pop-none : (h : Heap) → (pop h ≡ none) ↔ (h.nv ≡ 0)
unfolding pop
pop-none h = ground arith

pop_last :
    (h : Heap) → IsValid h → h.nv ≡ 1 → Popped h (trim (remove_first h)) (value h 1) (key h 1)
unfolding remove_first
pop_last h ok one =
    let lt : 0 < h.nv = omega arith in
    let x = remove-IsIndexed h ok lt one in
    let o : IsOrdered (remove_first h) = λ c p q. absurd (omega arith) in
    let keys : length h.hk ≡ suc (suc (h.nv - 1)) = omega (arith, ok.exact) in
    let values : length h.hv ≡ suc (suc (h.nv - 1)) = omega (arith, ok.exact) in
    record {
      valid = trim-IsValid (remove_first h) x o keys values;
      same_maxv = refl;
      size = omega arith;
      in_range = (ok.indexed.held 1 (omega arith) lt).0;
      present = first_present h ok lt;
      least = first_least h ok lt;
      removed =
          λ w p. lookup-trim (remove_first h) x o keys values w p ∙ remove_lookup h ok lt one w p;
    }

pop_more :
    (h : Heap)
    → IsValid h
    → 1 < h.nv
    → Popped h (trim (perc_dn (move_last (remove_first h)) 1)) (value h 1) (key h 1)
pop_more h ok more =
    let lt : 0 < h.nv = omega arith in
    let x = move-IsIndexed h ok lt more in
    let sizes = move_sizes h ok lt more in
    let s : Sifted (move_last (remove_first h)) (perc_dn (move_last (remove_first h)) 1) =
      perc_dn-Sifted (move_last (remove_first h)) 1 x (omega arith) (omega arith)
        (move-DownInv h ok lt more) in
    let t = perc_dn (move_last (remove_first h)) 1 in
    let keys : length t.hk ≡ suc (suc t.nv) = omega (arith, s.same_length, s.same_nv, ok.exact) in
    let values : length t.hv ≡ suc (suc t.nv) = omega (arith, s.same_length, s.same_nv, ok.exact) in
    record {
      valid = trim-IsValid t s.indexed s.ordered keys values;
      same_maxv = omega (arith, s.same_maxv);
      size = omega (arith, s.same_nv);
      in_range = (ok.indexed.held 1 (omega arith) lt).0;
      present = first_present h ok lt;
      least = first_least h ok lt;
      removed = λ w p.
          lookup-trim t s.indexed s.ordered keys values w (omega (arith, s.same_maxv))
          ∙ s.same_items w (omega arith)
          ∙ move_lookup h ok lt more w p;
    }

-- `pop` on a valid heap that is not empty returns a value and its key, and no stored key is less;
-- it leaves a valid heap in which that value alone is missing.
pub pop_lem :
    (h : Heap)
    → IsValid h
    → 0 < h.nv
    → (t : Heap) × (v : ℕ) × (k : ℕ) × (pop h ≡ some (t, v, k)) × Popped h t v k
unfolding pop
pop_lem h ok lt = elim (ℕ_discrete h.nv 1) [
  | yes one ↦ (
    trim (remove_first h),
    value h 1,
    key h 1,
    rw (ne→== h.nv 0 (omega arith), eq→== (h.nv - 1) 0 (omega arith)),
    pop_last h ok one,
  )
  | no more ↦ (
    trim (perc_dn (move_last (remove_first h)) 1),
    value h 1,
    key h 1,
    rw (ne→== h.nv 0 (omega arith), ne→== (h.nv - 1) 0 (omega arith)),
    pop_more h ok (omega arith),
  )
]
