-- ===== src/Heap/Push.antt =====
-- `push` of include/heap.h.
use ptranalysis.Common.{
  ℕ, zero, suc, ◌+◌, ◌/◌, ◌≤◌, ◌<◌, ◌≡◌, ◌≢◌, refl, not, none, some, arith, ◌==◌, if◌then◌else◌,
  Bool-cases, inl, inr, ◌∙◌, length, length-set, get_or-set, length-append, get_or-concat, [], ◌∷◌,
  length-replicate, get_or-replicate, replicate,
}
use native.Mathlib.Numerals.{add-one}
use ptranalysis.Heap.{
  Heap, no_position, key, value, position, index_room, new, push, append_item, set_key, perc_up,
  perc_dn,
}
use ptranalysis.Heap.Index.{IsIndexed, lookup, used, used-set, used-lt-length, nv-lt-no_position}
use ptranalysis.Heap.Order.{
  IsOrdered, IsValid, Sifted, UpInv, DownInv, perc_up-Sifted, perc_dn-Sifted, Sifted-IsValid,
}

-- What `push` promises of the heap `t` that it leaves: the value has the key, all else is kept.
pub record Pushed (h : Heap) (v k : ℕ) (t : Heap) : Type 0 where
  pub valid : IsValid t
  pub same_maxv : t.maxv ≡ h.maxv
  pub stored : (w : ℕ) → w ≤ h.maxv → lookup t w ≡ (if w == v then some k else lookup h w)

module _ (h : Heap) (v k : ℕ) (ok : IsValid h) (v≤ : v ≤ h.maxv) where
  abbrev x : IsIndexed h
  x = ok.indexed

  key-append : (m : ℕ) → key (append_item h v k) m ≡ (if m == suc h.nv then k else key h m)
  unfolding append_item
  key-append m = ground (arith, get_or-concat h.hk k m 0, ok.exact)

  value-append : (m : ℕ) → value (append_item h v k) m ≡ (if m == suc h.nv then v else value h m)
  unfolding append_item
  value-append m = ground (arith, get_or-concat h.hv v m 0, ok.exact)

  position-append :
      (w : ℕ) → position (append_item h v k) w ≡ (if w == v then suc h.nv else position h w)
  unfolding append_item
  position-append w = ground (arith, get_or-set h.idxv v (h.nv + 1) w no_position, x.entries)

  append-IsIndexed : position h v ≡ no_position → IsIndexed (append_item h v k)
  unfolding append_item
  append-IsIndexed absent = record {
    keys = ground (arith, length-append h.hk (k ∷ []), x.keys);
    values = ground (arith, length-append h.hv (v ∷ []), x.values);
    entries = ground (arith, length-set h.idxv v (h.nv + 1), x.entries);
    room = x.room;
    counted = ground (
      arith,
      used-set h.idxv v (h.nv + 1),
      x.entries,
      x.counted,
      x.room,
      used-lt-length h.idxv v,
    );
    held = λ i p q. ground (
      arith,
      value-append i,
      position-append (value (append_item h v k) i),
      x.held i,
      nv-lt-no_position h x,
    );
    placed = λ w p q.
        ground
          (arith, position-append w, value-append (position (append_item h v k) w), x.placed w);
  }

  append_lookup :
      position h v ≡ no_position
      → (w : ℕ) → w ≤ h.maxv
      → lookup (append_item h v k) w ≡ (if w == v then some k else lookup h w)
  unfolding lookup
  append_lookup absent w p = ground (
    arith,
    position-append w,
    key-append (position (append_item h v k) w),
    x.placed w,
    nv-lt-no_position h x,
    used-lt-length h.idxv v,
    x.entries,
    x.counted,
    x.room,
  )

  append-UpInv : IsOrdered h → UpInv (append_item h v k) (suc h.nv)
  unfolding append_item
  append-UpInv o = record {
    edges = λ c a b n. ground (arith, key-append c, key-append (c / 2), o c);
    bridged = λ c a b p e. absurd (omega arith);
  }

  -- The key at a position changed in place.
  module _ (i : ℕ) (0<i : 0 < i) (i≤ : i ≤ h.nv) where
    key-set : (m : ℕ) → key (set_key h i k) m ≡ (if m == i then k else key h m)
    key-set m = ground (arith, get_or-set h.hk i k m 0, x.keys)

    set-IsIndexed : IsIndexed (set_key h i k)
    set-IsIndexed = record {
      keys = ground (arith, length-set h.hk i k, x.keys);
      values = x.values;
      entries = x.entries;
      room = x.room;
      counted = x.counted;
      held = x.held;
      placed = x.placed;
    }

    set_lookup :
        position h v ≡ i
        → (w : ℕ) → w ≤ h.maxv
        → lookup (set_key h i k) w ≡ (if w == v then some k else lookup h w)
    unfolding lookup
    set_lookup e w p =
        ground (arith, key-set (position h w), x.placed w, x.placed v, nv-lt-no_position h x)

    set-UpInv : IsOrdered h → k < key h i → UpInv (set_key h i k) i
    set-UpInv o lt = record {
      edges = λ c a b n. ground (arith, key-set c, key-set (c / 2), o c);
      bridged = λ c a b p e. ground (arith, key-set c, key-set (i / 2), o c, o i);
    }

    set-DownInv : IsOrdered h → key h i < k → DownInv (set_key h i k) i
    set-DownInv o lt = record {
      edges = λ c a b n. ground (arith, key-set c, key-set (c / 2), o c);
      bridged = λ c a b p e. ground (arith, key-set c, key-set (i / 2), o c, o i);
    }

  append_exact :
      (length (append_item h v k).hk ≡ suc (append_item h v k).nv)
      × (length (append_item h v k).hv ≡ suc (append_item h v k).nv)
  unfolding append_item
  append_exact = ground (arith, length-append h.hk (k ∷ []), length-append h.hv (v ∷ []), ok.exact)

  append_same : ((append_item h v k).nv ≡ suc h.nv) × ((append_item h v k).maxv ≡ h.maxv)
  unfolding append_item
  append_same = (omega arith, refl)

-- A sifted heap holds what the heap before the loop held.
Pushed-Sifted :
    (h : Heap) (v k : ℕ) (m t : Heap)
    → Sifted m t
    → (length m.hk ≡ suc m.nv) × (length m.hv ≡ suc m.nv)
    → m.maxv ≡ h.maxv
    → ((w : ℕ) → w ≤ h.maxv → lookup m w ≡ (if w == v then some k else lookup h w))
    → Pushed h v k t
Pushed-Sifted h v k m t s e same at = record {
  valid = Sifted-IsValid s e;
  same_maxv = s.same_maxv ∙ same;
  stored = λ w p. s.same_items w (omega arith) ∙ at w p;
}

module _ (h : Heap) (v k : ℕ) (ok : IsValid h) (v≤ : v ≤ h.maxv) where
  push_new :
      position h v ≡ no_position
      → Pushed h v k (perc_up (append_item h v k) (h.nv + 1))
        × ((perc_up (append_item h v k) (h.nv + 1)).nv ≡ h.nv + 1)
  push_new e =
      let same = append_same h v k ok v≤ in
      let s : Sifted (append_item h v k) (perc_up (append_item h v k) (h.nv + 1)) =
        perc_up-Sifted (append_item h v k) (h.nv + 1) (append-IsIndexed h v k ok v≤ e) (omega arith)
          (omega arith) (rw add-one (append-UpInv h v k ok v≤ ok.ordered)) in
      (
        Pushed-Sifted h v k (append_item h v k) _ s (append_exact h v k ok v≤) same.1
            (append_lookup h v k ok v≤ e),
        omega (arith, s.same_nv),
      )

  push_same : position h v ≢ no_position → k ≡ key h (position h v) → Pushed h v k h
  unfolding lookup
  push_same n e = record { valid = ok; same_maxv = refl; stored = λ w p. ground (arith, e) }

  -- The position of a value that is there.
  module _ (n : position h v ≢ no_position) where
    push_at : (t : Heap) → Sifted (set_key h (position h v) k) t → Pushed h v k t × (t.nv ≡ h.nv)
    push_at t s =
        let at = ok.indexed.placed v v≤ n in
        (
          Pushed-Sifted h v k (set_key h (position h v) k) t s
              (length-set h.hk (position h v) k ∙ ok.exact.0, ok.exact.1) refl
              (set_lookup h v k ok v≤ (position h v) at.0 at.1 refl),
          s.same_nv,
        )

    push_lower :
        k < key h (position h v)
        → Pushed h v k (perc_up (set_key h (position h v) k) (position h v))
          × ((perc_up (set_key h (position h v) k) (position h v)).nv ≡ h.nv)
    push_lower lt =
        let at = ok.indexed.placed v v≤ n in
        push_at _ (
          perc_up-Sifted (set_key h (position h v) k) (position h v)
            (set-IsIndexed h v k ok v≤ (position h v) at.0 at.1) at.0 at.1
            (set-UpInv h v k ok v≤ (position h v) at.0 at.1 ok.ordered lt))

    push_higher :
        key h (position h v) < k
        → Pushed h v k (perc_dn (set_key h (position h v) k) (position h v))
          × ((perc_dn (set_key h (position h v) k) (position h v)).nv ≡ h.nv)
    push_higher lt =
        let at = ok.indexed.placed v v≤ n in
        push_at _ (
          perc_dn-Sifted (set_key h (position h v) k) (position h v)
            (set-IsIndexed h v k ok v≤ (position h v) at.0 at.1) at.0 at.1
            (set-DownInv h v k ok v≤ (position h v) at.0 at.1 ok.ordered lt))

-- `push` on a valid heap, for a value of at most `maxv`, leaves a valid heap in which the value has
-- the key and every other value of at most `maxv` has the key, or the absence, that it had. It
-- returns true exactly if the value was there, and the size grows by one exactly if it was not.
pub push_lem :
    (h : Heap) (v k : ℕ)
    → IsValid h
    → v ≤ h.maxv
    → Pushed h v k (push h v k).0
      × ((push h v k).1 ≡ not (position h v == no_position))
      × ((push h v k).0.nv ≡ h.nv + (if position h v == no_position then 1 else 0))
unfolding push
push_lem h v k ok v≤ = elim (Bool-cases (position h v == no_position)) [
  | inl absent ↦ rw absent (ground (arith, push_new h v k ok v≤))
  | inr present ↦
      ground (arith, push_same h v k ok v≤, push_lower h v k ok v≤, push_higher h v k ok v≤)
]

used-replicate : (n : ℕ) → used (replicate n no_position) ≡ 0
unfolding used
used-replicate zero = refl
used-replicate (suc n) = omega (arith, used-replicate n)

-- Below 2 ^ 30 entries the size in bytes does not wrap.
index_room_lem : (mv : ℕ) → suc mv < 1073741824 → index_room mv ≡ suc mv
index_room_lem mv h = omega arith

-- A new heap is valid, and holds no value.
pub new-IsValid : (mv : ℕ) → suc mv < 1073741824 → IsValid (new mv)
unfolding new
new-IsValid mv h = record {
  indexed = record {
    keys = omega arith;
    values = omega arith;
    entries = omega (arith, index_room_lem mv h, length-replicate (index_room mv) no_position);
    room = omega (arith, h);
    counted = used-replicate (index_room mv);
    held = λ i p q. absurd (omega arith);
    placed = λ v p q. absurd (q (get_or-replicate (index_room mv) no_position v));
  };
  ordered = λ c p q. absurd (omega arith);
  exact = (refl, refl);
}

pub lookup-new : (mv v : ℕ) → lookup (new mv) v ≡ none
unfolding new lookup
lookup-new mv v = ground (arith, get_or-replicate (index_room mv) no_position v)
