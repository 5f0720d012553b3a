-- ===== src/Heap/Order.antt =====
-- The heap order of include/heap.h, and the two percolation loops that restore it.
use ptranalysis.Common.{
  ℕ, zero, suc, ◌+◌, ◌*◌, ◌/◌, ◌≤◌, ◌<◌, ◌≡◌, ◌≢◌, refl, arith, ltb, leb, ◌==◌, Bool-cases, inl,
  inr, ◌∙◌, dec_lt, ℕ_discrete, leb→le, ◌⊎◌, length,
}
use ptranalysis.Heap.{Heap, key, swap_items, up_loop, perc_up, down_loop, perc_dn, least_child}
use ptranalysis.Heap.Index.{
  IsIndexed, lookup, key-swap, swap_same, swap_lengths, swap-IsIndexed, lookup-swap,
}

-- No item has a smaller key than its parent.
abbrev pub IsOrdered : Heap → Type 0
IsOrdered h = (c : ℕ) → 1 < c → c ≤ h.nv → key h (c / 2) ≤ key h c

pub record IsValid (h : Heap) : Type 0 where
  pub indexed : IsIndexed h
  pub ordered : IsOrdered h
  -- The arrays end with the last item.
  pub exact : (length h.hk ≡ suc h.nv) × (length h.hv ≡ suc h.nv)

-- What both loops make of a heap: the same stored items, in heap order.
pub record Sifted (h t : Heap) : Type 0 where
  pub indexed : IsIndexed t
  pub ordered : IsOrdered t
  pub same_length : (length t.hk ≡ length h.hk) × (length t.hv ≡ length h.hv)
  pub same_nv : t.nv ≡ h.nv
  pub same_maxv : t.maxv ≡ h.maxv
  pub same_items : (v : ℕ) → v ≤ h.maxv → lookup t v ≡ lookup h v

-- The order but for the item at `i` and its parent.
pub record UpInv (h : Heap) (i : ℕ) : Type 0 where
  pub edges : (c : ℕ) → 1 < c → c ≤ h.nv → c ≢ i → key h (c / 2) ≤ key h c
  pub bridged : (c : ℕ) → 1 < c → c ≤ h.nv → 1 < i → c / 2 ≡ i → key h (i / 2) ≤ key h c

-- The order but for the item at `i` and its children.
pub record DownInv (h : Heap) (i : ℕ) : Type 0 where
  pub edges : (c : ℕ) → 1 < c → c ≤ h.nv → c / 2 ≢ i → key h (c / 2) ≤ key h c
  pub bridged : (c : ℕ) → 1 < c → c ≤ h.nv → 1 < i → c / 2 ≡ i → key h (i / 2) ≤ key h c

module _ (h : Heap) (i j : ℕ) (x : IsIndexed h) (0<i : 0 < i) (i≤ : i ≤ h.nv) (0<j : 0 < j)
    (j≤ : j ≤ h.nv) (i≢j : i ≢ j) where
  Sifted-swap : {t : Heap} → Sifted (swap_items h i j) t → Sifted h t
  Sifted-swap {t} s =
      let (nv, maxv) = swap_same h x i j 0<i i≤ 0<j j≤ i≢j in
      record {
        indexed = s.indexed;
        ordered = s.ordered;
        same_length =
            let lengths = swap_lengths h x i j 0<i i≤ 0<j j≤ i≢j in
            (s.same_length.0 ∙ lengths.0, s.same_length.1 ∙ lengths.1);
        same_nv = s.same_nv ∙ nv;
        same_maxv = s.same_maxv ∙ maxv;
        same_items =
            λ v p. s.same_items v (omega arith) ∙ lookup-swap h x i j 0<i i≤ 0<j j≤ i≢j v p;
      }

UpInv-swap :
    (h : Heap) (i : ℕ)
    → IsIndexed h
    → 1 < i
    → i ≤ h.nv
    → UpInv h i
    → key h i < key h (i / 2)
    → UpInv (swap_items h i (i / 2)) (i / 2)
UpInv-swap h i x p q u lt =
    let at = key-swap h x i (i / 2) (omega arith) q (omega arith) (omega arith) (omega arith) in
    let same = swap_same h x i (i / 2) (omega arith) q (omega arith) (omega arith) (omega arith) in
    record {
      edges = λ c a b n.
          ground (arith, same, at c, at (c / 2), u.edges c, u.bridged c, u.edges (i / 2));
      bridged = λ c a b n e.
          ground (arith, same, at c, at (c / 2), at (i / 2 / 2), u.edges c, u.edges (i / 2));
    }

Sifted-refl : (h : Heap) → IsIndexed h → IsOrdered h → Sifted h h
Sifted-refl h x o = record {
  indexed = x;
  ordered = o;
  same_length = (refl, refl);
  same_nv = refl;
  same_maxv = refl;
  same_items = λ v p. refl;
}

pub up_loop-Sifted :
    (fuel : ℕ) (h : Heap) (i : ℕ)
    → IsIndexed h
    → 0 < i
    → i ≤ h.nv
    → UpInv h i
    → i ≤ fuel
    → Sifted h (up_loop fuel h i)
unfolding up_loop
up_loop-Sifted zero h i x p q u f = absurd (omega arith)
up_loop-Sifted (suc fuel) h i x p q u f = elim (Bool-cases (i / 2 == 0)) [
  | inl top ↦ rw top (Sifted-refl h x (λ c a b. u.edges c a b (ground arith)))
  | inr below ↦ elim (Bool-cases (leb (key h (i / 2)) (key h i))) [
    | inl fits ↦ rw (below, fits) (Sifted-refl h x (λ c a b. ground (arith, u.edges c a b)))
    | inr exceeds ↦
        let same = swap_same h x i (i / 2) p q (ground arith) (omega arith) (omega arith) in
        rw (below, exceeds)
          (Sifted-swap h i (i / 2) x p q (ground arith) (omega arith) (omega arith) (
            up_loop-Sifted fuel (swap_items h i (i / 2)) (i / 2)
              (swap-IsIndexed h x i (i / 2) p q (ground arith) (omega arith) (omega arith))
              (ground arith) (omega arith) (UpInv-swap h i x (ground arith) q u (ground arith))
              (omega arith)))
  ]
]

-- The loop ends with the heap in order, whatever the one misplaced item is.
pub perc_up-Sifted :
    (h : Heap) (i : ℕ) → IsIndexed h → 0 < i → i ≤ h.nv → UpInv h i → Sifted h (perc_up h i)
unfolding perc_up
perc_up-Sifted h i x p q u = up_loop-Sifted i h i x p q u (omega arith)

least_child_lem :
    (h : Heap) (i : ℕ)
    → 0 < i
    → i * 2 ≤ h.nv
    → (least_child h i / 2 ≡ i)
      × (least_child h i ≤ h.nv)
      × ((c : ℕ) → c ≤ h.nv → c / 2 ≡ i → key h (least_child h i) ≤ key h c)
least_child_lem h i p q = (
  ground arith,
  ground arith,
  λ c a e.
      least c
        (elim (dec_lt c (i * 2 + 1)) [ yes lt ↦ inl (omega arith) | no ge ↦ inr (omega arith) ]) a,
)
  where
    least : (c : ℕ) → (c ≡ i * 2) ⊎ (c ≡ i * 2 + 1) → c ≤ h.nv → key h (least_child h i) ≤ key h c
    least c (inl e) a = rw e (ground arith)
    least c (inr e) a = rw e (ground arith)

DownInv-swap :
    (h : Heap) (i j : ℕ)
    → IsIndexed h
    → 0 < i
    → j ≤ h.nv
    → j / 2 ≡ i
    → DownInv h i
    → ((c : ℕ) → c ≤ h.nv → c / 2 ≡ i → key h j ≤ key h c)
    → key h j < key h i
    → DownInv (swap_items h i j) j
DownInv-swap h i j x p q e d least lt =
    let at = key-swap h x i j p (omega arith) (omega arith) q (omega arith) in
    let same = swap_same h x i j p (omega arith) (omega arith) q (omega arith) in
    record {
      edges = λ c a b n.
          ground (arith, same, at c, at (c / 2), d.edges c, d.bridged c, d.bridged j, least c);
      bridged = λ c a b n m. ground (arith, same, at c, at (j / 2), d.edges c);
    }

pub down_loop-Sifted :
    (fuel : ℕ) (h : Heap) (i : ℕ)
    → IsIndexed h
    → 0 < i
    → i ≤ h.nv
    → DownInv h i
    → h.nv < fuel + i
    → Sifted h (down_loop fuel h i)
unfolding down_loop
down_loop-Sifted zero h i x p q d f = absurd (omega arith)
down_loop-Sifted (suc fuel) h i x p q d f = elim (Bool-cases (ltb h.nv (i * 2))) [
  | inl leaf ↦ rw leaf (Sifted-refl h x (λ c a b. d.edges c a b (ground arith)))
  | inr inner ↦
      let j = least_child h i in
      let (child, in_range, least) = least_child_lem h i p (ground arith) in
      elim (Bool-cases (leb (key h i) (key h j))) [
        | inl fits ↦
            rw (inner, fits)
              (Sifted-refl h x (λ c a b. elim (ℕ_discrete (c / 2) i) [
                | yes e ↦ rw e (omega (arith, least c b e, leb→le _ _ fits))
                | no n ↦ d.edges c a b n
              ]))
        | inr exceeds ↦
            let same = swap_same h x i j p q (omega arith) in_range (omega arith) in
            rw (inner, exceeds)
              (Sifted-swap h i j x p q (omega arith) in_range (omega arith) (
                down_loop-Sifted fuel (swap_items h i j) j
                  (swap-IsIndexed h x i j p q (omega arith) in_range (omega arith)) (omega arith)
                  (omega arith) (DownInv-swap h i j x p in_range child d least (ground arith))
                  (omega arith)))
      ]
]

pub perc_dn-Sifted :
    (h : Heap) (i : ℕ) → IsIndexed h → 0 < i → i ≤ h.nv → DownInv h i → Sifted h (perc_dn h i)
unfolding perc_dn
perc_dn-Sifted h i x p q d = down_loop-Sifted h.nv h i x p q d (omega arith)

-- A loop on a heap whose arrays are exact leaves a valid heap.
pub Sifted-IsValid :
    {h t : Heap} → Sifted h t → (length h.hk ≡ suc h.nv) × (length h.hv ≡ suc h.nv) → IsValid t
Sifted-IsValid s e = record {
  indexed = s.indexed;
  ordered = s.ordered;
  exact = omega (arith, s.same_length, s.same_nv);
}
