-- ===== src/Heap/Index.antt =====
-- The index of include/heap.h: `idxv` is the inverse of `hv`, and an exchange of two items keeps
-- that and the stored key of each value.
use ptranalysis.Common.{
  ℕ, zero, suc, ◌+◌, ◌≤◌, ◌<◌, ◌≡◌, ◌≢◌, refl, List, [], ◌∷◌, Option, none, some, arith, ◌==◌,
  if◌then◌else◌, length, get_or, set, length-set, get_or-set,
}
use ptranalysis.Heap.{no_position, Heap, key, value, position, swap_items}

-- The entries of an index that hold a position.
unfoldable pub used : List ℕ → ℕ
used [] = 0
used (i ∷ is) = (if i == no_position then 0 else 1) + used is

pub used-set :
    (is : List ℕ) (v i : ℕ)
    → v < length is
    → used (set is v i) + (if get_or is v no_position == no_position then 0 else 1)
      ≡ used is + (if i == no_position then 0 else 1)
unfolding used
used-set [] v i h = absurd (omega arith)
used-set (j ∷ is) zero i h = omega arith
used-set (j ∷ is) (suc v) i h = omega (arith, used-set is v i (omega arith))

pub used-le-length : (is : List ℕ) → used is ≤ length is
unfolding used
used-le-length [] = omega arith
used-le-length (j ∷ is) = ground (arith, used-le-length is)

-- An index with an entry that holds no position is not full.
pub used-lt-length :
    (is : List ℕ) (v : ℕ)
    → v < length is
    → get_or is v no_position ≡ no_position
    → used is < length is
unfolding used
used-lt-length [] v h e = absurd (omega arith)
used-lt-length (j ∷ is) zero h e = ground (arith, used-le-length is)
used-lt-length (j ∷ is) (suc v) h e = ground (arith, used-lt-length is v (omega arith) e)

pub record IsIndexed (h : Heap) : Type 0 where
  -- `pop` works with one item more than `nv` counts.
  pub keys : suc h.nv ≤ length h.hk
  pub values : suc h.nv ≤ length h.hv
  pub entries : length h.idxv ≡ suc h.maxv
  pub room : suc h.maxv < no_position
  pub counted : used h.idxv ≡ h.nv
  pub held : (i : ℕ) → 0 < i → i ≤ h.nv → (value h i ≤ h.maxv) × (position h (value h i) ≡ i)
  pub placed :
      (v : ℕ)
      → v ≤ h.maxv
      → position h v ≢ no_position
      → (0 < position h v) × (position h v ≤ h.nv) × (value h (position h v) ≡ v)

-- The key stored for a value.
unfoldable pub lookup : Heap → ℕ → Option ℕ
lookup h v = if position h v == no_position then none else some (key h (position h v))

-- A heap with no item holds no value.
pub lookup_empty : (h : Heap) → IsIndexed h → h.nv ≡ 0 → (v : ℕ) → v ≤ h.maxv → lookup h v ≡ none
unfolding lookup
lookup_empty h x e v p = ground (arith, x.placed v)

-- A heap with an item holds the value of its first item.
pub lookup_first :
    (h : Heap)
    → IsIndexed h
    → 0 < h.nv
    → (value h 1 ≤ h.maxv) × (lookup h (value h 1) ≡ some (key h 1))
unfolding lookup
lookup_first h x p = ground (arith, x.held 1, x.counted, x.entries, x.room, used-le-length h.idxv)

-- `nv` fits, so no position is `no_position`.
pub nv-lt-no_position : (h : Heap) → IsIndexed h → h.nv < no_position
nv-lt-no_position h v = omega (arith, used-le-length h.idxv, v.counted, v.entries, v.room)

module _ (h : Heap) (x : IsIndexed h) (i j : ℕ) (0<i : 0 < i) (i≤ : i ≤ h.nv) (0<j : 0 < j)
    (j≤ : j ≤ h.nv) (i≢j : i ≢ j) where
  -- What an exchange makes of each array.
  pub key-swap :
      (m : ℕ)
      → key (swap_items h i j) m ≡ (if m == i then key h j else if m == j then key h i else key h m)
  unfolding swap_items
  key-swap m = ground (
    arith,
    get_or-set (set h.hk j (key h i)) i (key h j) m 0,
    get_or-set h.hk j (key h i) m 0,
    length-set h.hk j (key h i),
    x.keys,
  )

  pub value-swap :
      (m : ℕ)
      → value (swap_items h i j) m
        ≡ (if m == i then value h j else if m == j then value h i else value h m)
  unfolding swap_items
  value-swap m = ground (
    arith,
    get_or-set (set h.hv j (value h i)) i (value h j) m 0,
    get_or-set h.hv j (value h i) m 0,
    length-set h.hv j (value h i),
    x.values,
  )

  pub position-swap :
      (v : ℕ)
      → position (swap_items h i j) v
        ≡ (if v == value h j then i else if v == value h i then j else position h v)
  unfolding swap_items
  position-swap v = ground (
    arith,
    get_or-set (set h.idxv (value h i) j) (value h j) i v no_position,
    get_or-set h.idxv (value h i) j v no_position,
    length-set h.idxv (value h i) j,
    x.entries,
    (x.held i 0<i i≤).0,
    (x.held j 0<j j≤).0,
  )

  pub swap_lengths :
      (length (swap_items h i j).hk ≡ length h.hk)
      × (length (swap_items h i j).hv ≡ length h.hv)
      × (length (swap_items h i j).idxv ≡ length h.idxv)
  unfolding swap_items
  swap_lengths = ground (
    arith,
    length-set (set h.hk j (key h i)) i (key h j),
    length-set h.hk j (key h i),
    length-set (set h.hv j (value h i)) i (value h j),
    length-set h.hv j (value h i),
    length-set (set h.idxv (value h i) j) (value h j) i,
    length-set h.idxv (value h i) j,
  )

  used-swap : used (swap_items h i j).idxv ≡ h.nv
  unfolding swap_items
  used-swap = ground (
    arith,
    used-set (set h.idxv (value h i) j) (value h j) i,
    used-set h.idxv (value h i) j,
    length-set h.idxv (value h i) j,
    x.entries,
    x.counted,
    (x.held i 0<i i≤),
    (x.held j 0<j j≤),
    get_or-set h.idxv (value h i) j (value h j) no_position,
    nv-lt-no_position h x,
  )

  pub swap_same : ((swap_items h i j).nv ≡ h.nv) × ((swap_items h i j).maxv ≡ h.maxv)
  unfolding swap_items
  swap_same = (refl, refl)

  swap_held :
      (m : ℕ)
      → 0 < m
      → m ≤ h.nv
      → (value (swap_items h i j) m ≤ h.maxv)
        × (position (swap_items h i j) (value (swap_items h i j) m) ≡ m)
  swap_held m p q = ground (
    arith,
    value-swap m,
    position-swap (value (swap_items h i j) m),
    x.held i 0<i i≤,
    x.held j 0<j j≤,
    x.held m p q,
  )

  swap_placed :
      (v : ℕ)
      → v ≤ h.maxv
      → position (swap_items h i j) v ≢ no_position
      → (0 < position (swap_items h i j) v)
        × (position (swap_items h i j) v ≤ h.nv)
        × (value (swap_items h i j) (position (swap_items h i j) v) ≡ v)
  swap_placed v p q = ground (
    arith,
    value-swap (position (swap_items h i j) v),
    position-swap v,
    x.held i 0<i i≤,
    x.held j 0<j j≤,
    x.placed v p,
  )

  pub swap-IsIndexed : IsIndexed (swap_items h i j)
  swap-IsIndexed = record {
    keys = ground (arith, swap_same, swap_lengths, x.keys);
    values = ground (arith, swap_same, swap_lengths, x.values);
    entries = ground (arith, swap_same, swap_lengths, x.entries);
    room = rw swap_same.1 x.room;
    counted = rw swap_same.0 used-swap;
    held = λ m p q. ground (arith, swap_held m p, swap_same);
    placed = λ v p q. ground (arith, swap_placed v, swap_same);
  }

  pub lookup-swap : (v : ℕ) → v ≤ h.maxv → lookup (swap_items h i j) v ≡ lookup h v
  unfolding lookup
  lookup-swap v p = ground (
    arith,
    key-swap (position (swap_items h i j) v),
    position-swap v,
    x.held i 0<i i≤,
    x.held j 0<j j≤,
    x.placed v p,
    nv-lt-no_position h x,
  )
