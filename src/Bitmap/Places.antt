-- ===== src/Bitmap/Places.antt =====
-- Elements of a bit vector at their positions: insertion, replacement and erasure.
use ptranalysis.Common.{
  ℕ, zero, suc, ◌/◌, ◌%◌, ◌≤◌, ◌<◌, ◌≡◌, ◌≢◌, refl, ap, false, not, ◌&&◌, ◌||◌, List, [], ◌∷◌,
  arith, ◌==◌, if◌then◌else◌, length,
}
use ptranalysis.Bitmap.Element
use ptranalysis.Bitmap.Element.{Element, element_size}
use ptranalysis.Bitmap.Words.{has_bit, IsElement}
use ptranalysis.Bitmap.Vector.{element_at, index_at, insert_at, replace_at, erase_at}
use ptranalysis.Bitmap.Chain.{holds, holds_here, Chain, Chain-le, holds_below}

pub Chain-index :
    (lo : ℕ) (es : List Element) (i : ℕ) → Chain lo es → i < length es → lo ≤ index_at es i
Chain-index lo [] i c h = absurd (omega arith)
Chain-index lo (e ∷ es) zero c h = c.0
Chain-index lo (e ∷ es) (suc i) c h =
    omega (arith, c.0, Chain-index (suc e.index) es i c.3 (omega arith))

pub Chain-lt :
    (lo : ℕ) (es : List Element) (i j : ℕ)
    → Chain lo es
    → i < j
    → j < length es
    → index_at es i < index_at es j
Chain-lt lo [] i j c h k = absurd (omega arith)
Chain-lt lo (e ∷ es) i zero c h k = absurd (omega arith)
Chain-lt lo (e ∷ es) zero (suc j) c h k = Chain-index (suc e.index) es j c.3 (omega arith)
Chain-lt lo (e ∷ es) (suc i) (suc j) c h k =
    Chain-lt (suc e.index) es i j c.3 (omega arith) (omega arith)

pub element-IsElement :
    (lo : ℕ) (es : List Element) (i : ℕ)
    → Chain lo es
    → i < length es
    → IsElement (element_at es i) × (Element.empty (element_at es i) ≡ false)
element-IsElement lo [] i c h = absurd (omega arith)
element-IsElement lo (e ∷ es) zero c h = (c.1, c.2)
element-IsElement lo (e ∷ es) (suc i) c h = element-IsElement (suc e.index) es i c.3 (omega arith)

-- Without an element of its index a bit is not in the set.
pub holds_nowhere :
    (es : List Element) (n : ℕ)
    → ((j : ℕ) → j < length es → index_at es j ≢ n / element_size)
    → holds es n ≡ false
unfolding holds
holds_nowhere [] n none = refl
holds_nowhere (e ∷ es) n none =
    ground (arith, none 0, holds_nowhere es n (λ j h. none (suc j) (omega arith)))

-- The element of its index decides of a bit.
pub holds_there :
    (lo : ℕ) (es : List Element) (i n : ℕ)
    → Chain lo es
    → i < length es
    → index_at es i ≡ n / element_size
    → holds es n ≡ has_bit (element_at es i).bits (n % element_size)
unfolding holds
holds_there lo [] i n c h e = absurd (omega arith)
holds_there lo (x ∷ es) zero n c h e = ground (arith, holds_below (suc x.index) es n c.3)
holds_there lo (x ∷ es) (suc i) n c h e = ground (
  arith,
  holds_there (suc x.index) es i n c.3 (omega arith) e,
  Chain-index (suc x.index) es i c.3 (omega arith),
)

module _ (f : Element) where
  pub length-replace : (es : List Element) (i : ℕ) → length (replace_at es i f) ≡ length es
  unfolding replace_at
  length-replace [] i = refl
  length-replace (e ∷ es) zero = refl
  length-replace (e ∷ es) (suc i) = ap suc (length-replace es i)

  pub length-insert : (es : List Element) (i : ℕ) → length (insert_at es i f) ≡ suc (length es)
  unfolding insert_at
  length-insert es zero = refl
  length-insert [] (suc i) = refl
  length-insert (e ∷ es) (suc i) = ap suc (length-insert es i)

  pub holds-replace :
      (lo : ℕ) (es : List Element) (i n : ℕ)
      → Chain lo es
      → i < length es
      → f.index ≡ index_at es i
      → holds (replace_at es i f) n ≡ (
          if index_at es i == n / element_size
          then has_bit f.bits (n % element_size)
          else holds es n)
  unfolding holds replace_at
  holds-replace lo [] i n c h e = absurd (omega arith)
  holds-replace lo (x ∷ es) zero n c h e = ground (arith, holds_below (suc x.index) es n c.3)
  holds-replace lo (x ∷ es) (suc i) n c h e = ground (
    arith,
    holds-replace (suc x.index) es i n c.3 (omega arith) e,
    Chain-index (suc x.index) es i c.3 (omega arith),
  )

  pub Chain-replace :
      (lo : ℕ) (es : List Element) (i : ℕ)
      → Chain lo es
      → i < length es
      → f.index ≡ index_at es i
      → IsElement f
      → Element.empty f ≡ false
      → Chain lo (replace_at es i f)
  unfolding replace_at
  Chain-replace lo [] i c h e x z = absurd (omega arith)
  Chain-replace lo (y ∷ es) zero c h e x z =
      (omega (arith, c.0), x, z, Chain-le (suc f.index) (suc y.index) es (omega arith) c.3)
  Chain-replace lo (y ∷ es) (suc i) c h e x z =
      (c.0, c.1, c.2, Chain-replace (suc y.index) es i c.3 (omega arith) e x z)

  pub holds-insert :
      (es : List Element) (i n : ℕ) → holds (insert_at es i f) n ≡ holds_here f n || holds es n
  unfolding holds insert_at
  holds-insert es zero n = refl
  holds-insert [] (suc i) n = refl
  holds-insert (e ∷ es) (suc i) n = ground (arith, holds-insert es i n)

  pub Chain-insert :
      (lo : ℕ) (es : List Element) (i : ℕ)
      → Chain lo es
      → lo ≤ f.index
      → ((j : ℕ) → j < i → j < length es → index_at es j < f.index)
      → ((j : ℕ) → i ≤ j → j < length es → f.index < index_at es j)
      → IsElement f
      → Element.empty f ≡ false
      → Chain lo (insert_at es i f)
  unfolding insert_at
  Chain-insert lo [] zero c h before after x z = (h, x, z, tt)
  Chain-insert lo [] (suc i) c h before after x z = (h, x, z, tt)
  Chain-insert lo (e ∷ es) zero c h before after x z =
      (h, x, z, (after 0 (omega arith) (omega arith), c.1, c.2, c.3))
  Chain-insert lo (e ∷ es) (suc i) c h before after x z = (
    c.0,
    c.1,
    c.2,
    Chain-insert (suc e.index) es i c.3 (before 0 (omega arith) (omega arith))
        (λ j p q. before (suc j) (omega arith) (omega arith))
        (λ j p q. after (suc j) (omega arith) (omega arith)) x z,
  )

  pub element_inserted :
      (es : List Element) (i : ℕ) → i ≤ length es → element_at (insert_at es i f) i ≡ f
  unfolding insert_at
  element_inserted es zero h = refl
  element_inserted [] (suc i) h = absurd (omega arith)
  element_inserted (e ∷ es) (suc i) h = element_inserted es i (omega arith)

  pub replace-insert :
      (es : List Element) (i : ℕ) (g : Element)
      → i ≤ length es
      → replace_at (insert_at es i g) i f ≡ insert_at es i f
  unfolding insert_at replace_at
  replace-insert [] zero g h = refl
  replace-insert (e ∷ es) zero g h = refl
  replace-insert [] (suc i) g h = absurd (omega arith)
  replace-insert (e ∷ es) (suc i) g h = ap (λ l. e ∷ l) (replace-insert es i g (omega arith))

pub holds-erase :
    (lo : ℕ) (es : List Element) (i n : ℕ)
    → Chain lo es
    → i < length es
    → holds (erase_at es i) n ≡ not (index_at es i == n / element_size) && holds es n
unfolding holds erase_at
holds-erase lo [] i n c h = absurd (omega arith)
holds-erase lo (x ∷ es) zero n c h = ground (arith, holds_below (suc x.index) es n c.3)
holds-erase lo (x ∷ es) (suc i) n c h = ground (
  arith,
  holds-erase (suc x.index) es i n c.3 (omega arith),
  Chain-index (suc x.index) es i c.3 (omega arith),
)

pub Chain-erase : (lo : ℕ) (es : List Element) (i : ℕ) → Chain lo es → Chain lo (erase_at es i)
unfolding erase_at
Chain-erase lo [] i c = tt
Chain-erase lo (e ∷ es) zero c = Chain-le lo (suc e.index) es (omega (arith, c.0)) c.3
Chain-erase lo (e ∷ es) (suc i) c = (c.0, c.1, c.2, Chain-erase (suc e.index) es i c.3)

pub length-erase :
    (es : List Element) (i : ℕ) → i < length es → suc (length (erase_at es i)) ≡ length es
unfolding erase_at
length-erase [] i h = absurd (omega arith)
length-erase (e ∷ es) zero h = refl
length-erase (e ∷ es) (suc i) h = ap suc (length-erase es i (omega arith))
