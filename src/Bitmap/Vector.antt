-- ===== src/Bitmap/Vector.antt =====
-- include/bitmap.h, MySparseBitVector. An iterator into the list is a position, and `end()` is the
-- length; the free list of elements is not seen, since every use of it initialises the element.
use ptranalysis.Common.{
  ℕ, zero, suc, ◌-◌, ◌/◌, ◌%◌, Bool, true, false, not, ◌&&◌, ◌||◌, List, [], ◌∷◌, ltb, ◌==◌,
  if◌then◌else◌, get_or, length, compare, Ordering,
}
use ptranalysis.Bitmap.Element
use ptranalysis.Bitmap.Element.{Element, element_size}

pub record Bitmap : Type 0 where
  pub elements : List Element
  -- CurrElementIter
  pub curr : ℕ

-- The element at the end of a list: its index is ~0U and its words are 0.
abbrev pub sentinel : Element
sentinel = Element.new 0xffffffff

abbrev pub element_at : List Element → ℕ → Element
element_at es i = get_or es i sentinel

abbrev pub index_at : List Element → ℕ → ℕ
index_at es i = (element_at es i).index

-- `while(it != begin && it->index() > idx) --it`
unfoldable pub search_back : List Element → ℕ → ℕ → ℕ
search_back es idx zero = zero
search_back es idx (suc i) =
    let rest = search_back es idx i in if ltb idx (index_at es (suc i)) then rest else suc i

-- `while(it != end && it->index() < idx) ++it`, with the number of elements from `i` on.
unfoldable pub search_on : List Element → ℕ → ℕ → ℕ → ℕ
search_on es idx zero i = i
search_on es idx (suc left) i =
    let rest = search_on es idx left (suc i) in if ltb (index_at es i) idx then rest else i

unfoldable pub empty : Bitmap → Bool
empty b = elim b.elements [ [] ↦ true | _ ∷ _ ↦ false ]

-- The vector with its pointer moved, and the position found.
unfoldable pub find_lower_bound : Bitmap → ℕ → Bitmap × ℕ
unfolding search_back search_on empty
find_lower_bound b idx =
    if empty b
    then (record b { curr = 0 }, 0)
    else let es = b.elements in
      let c = if b.curr == length es then b.curr - 1 else b.curr in
      let i =
        if index_at es c == idx
        then c
        else if ltb idx (index_at es c)
        then search_back es idx c
        else search_on es idx (length es - c) c in
      (record b { curr = i }, i)

unfoldable pub insert_at : List Element → ℕ → Element → List Element
insert_at es zero e = e ∷ es
insert_at [] (suc i) e = e ∷ []
insert_at (x ∷ es) (suc i) e = x ∷ insert_at es i e

unfoldable pub replace_at : List Element → ℕ → Element → List Element
replace_at [] i e = []
replace_at (x ∷ es) zero e = e ∷ es
replace_at (x ∷ es) (suc i) e = x ∷ replace_at es i e

unfoldable pub erase_at : List Element → ℕ → List Element
erase_at [] i = []
erase_at (x ∷ es) zero = es
erase_at (x ∷ es) (suc i) = x ∷ erase_at es i

abbrev pub new : Bitmap
new = record { elements = []; curr = 0 }

-- The copy constructor, and `operator=`, which leaves the pointer at the end.
abbrev pub copy : Bitmap → Bitmap
copy b = record { elements = b.elements; curr = 0 }

abbrev pub assign : Bitmap → Bitmap → Bitmap
assign a b = record { elements = b.elements; curr = length b.elements }

abbrev pub clear : Bitmap → Bitmap
clear b = new

-- Is there an element with the index at the position that the search found?
abbrev pub found : List Element → ℕ → ℕ → Bool
found es i idx = not (i == length es) && (index_at es i == idx)

-- The vector after the call, for the pointer, and the bit.
unfoldable pub test : Bitmap → ℕ → Bitmap × Bool
test b idx =
    if empty b
    then (b, false)
    else let (b', i) = find_lower_bound b (idx / element_size) in
      if found b'.elements i (idx / element_size)
      then (b', Element.test (element_at b'.elements i) (idx % element_size))
      else (b', false)

-- An element that has become zero is erased, and the pointer goes to the one behind it.
unfoldable pub reset : Bitmap → ℕ → Bitmap
reset b idx =
    if empty b
    then b
    else let (b', i) = find_lower_bound b (idx / element_size) in
      if found b'.elements i (idx / element_size)
      then (let e = Element.reset (element_at b'.elements i) (idx % element_size) in
          record b' {
            elements =
                if Element.empty e then erase_at b'.elements i else replace_at b'.elements i e;
          })
      else b'

-- The position for a new element, from the position that the search found.
abbrev pub insert_position : List Element → ℕ → ℕ → ℕ
insert_position es i idx = if not (i == length es) && ltb (index_at es i) idx then suc i else i

-- The list with an element of the index, and its position.
unfoldable pub ensure_element : Bitmap → ℕ → List Element × ℕ
ensure_element b idx =
    if empty b
    then (Element.new idx ∷ [], 0)
    else let (b', i) = find_lower_bound b idx in
      if found b'.elements i idx
      then (b'.elements, i)
      else let j = insert_position b'.elements i idx in
        (insert_at b'.elements j (Element.new idx), j)

unfoldable pub set : Bitmap → ℕ → Bitmap
set b idx =
    let (es, i) = ensure_element b (idx / element_size) in
    record {
      elements = replace_at es i (Element.set_bit (element_at es i) (idx % element_size));
      curr = i;
    }

-- The vector after the call, and whether the bit is new.
unfoldable pub test_and_set : Bitmap → ℕ → Bitmap × Bool
test_and_set b idx =
    let (b', old) = test b idx in if not old then (set b' idx, true) else (b', false)

unfoldable pub equal_elements : List Element → List Element → Bool
unfolding Element.equal
equal_elements [] [] = true
equal_elements [] (y ∷ ys) = false
equal_elements (x ∷ xs) [] = false
equal_elements (x ∷ xs) (y ∷ ys) =
    let rest = equal_elements xs ys in if not (Element.equal x y) then false else rest

unfoldable pub equal : Bitmap → Bitmap → Bool
unfolding equal_elements
equal a b = equal_elements a.elements b.elements

-- The elements after the loop, and `changed`.
unfoldable pub union_elements : List Element → List Element → List Element × Bool
unfolding Element.union_with
union_elements xs [] = (xs, false)
union_elements [] (y ∷ ys) = (y ∷ (union_elements [] ys).0, true)
union_elements (x ∷ xs) (y ∷ ys) = elim (compare x.index y.index) [
  | Ordering.gt ↦ (y ∷ (union_elements (x ∷ xs) ys).0, true)
  | Ordering.eq ↦
      let (e, c) = Element.union_with x y in
      let (rest, d) = union_elements xs ys in (e ∷ rest, c || d)
  | Ordering.lt ↦ let (rest, d) = union_elements xs (y ∷ ys) in (x ∷ rest, d)
]

-- `operator|=`: the vector after the call, and whether it changed.
unfoldable pub union : Bitmap → Bitmap → Bitmap × Bool
unfolding union_elements empty
union a b =
    if empty b
    then (a, false)
    else let (es, c) = union_elements a.elements b.elements in
      (record { elements = es; curr = 0 }, c)

-- An element goes on the list unless it became zero.
abbrev pub keep : Bool → Element → List Element → List Element
keep zeroed e es = if zeroed then es else e ∷ es

unfoldable pub intersect_elements : List Element → List Element → List Element × Bool
unfolding Element.intersect_with
intersect_elements [] ys = ([], false)
intersect_elements (x ∷ xs) [] = ([], false)
intersect_elements (x ∷ xs) (y ∷ ys) = elim (compare x.index y.index) [
  | Ordering.gt ↦ intersect_elements (x ∷ xs) ys
  | Ordering.eq ↦
      let (e, c, z) = Element.intersect_with x y in
      let (rest, d) = intersect_elements xs ys in (keep z e rest, c || d)
  | Ordering.lt ↦ intersect_elements xs (y ∷ ys)
]

-- `operator&=`
unfoldable pub intersect : Bitmap → Bitmap → Bitmap × Bool
unfolding intersect_elements empty
intersect a b =
    if empty a && empty b
    then (a, false)
    else let (es, c) = intersect_elements a.elements b.elements in
      (record { elements = es; curr = 0 }, c)

unfoldable pub complement_elements : List Element → List Element → List Element × Bool
unfolding Element.intersect_with_complement
complement_elements [] ys = ([], false)
complement_elements (x ∷ xs) [] = (x ∷ xs, false)
complement_elements (x ∷ xs) (y ∷ ys) = elim (compare x.index y.index) [
  | Ordering.gt ↦ complement_elements (x ∷ xs) ys
  | Ordering.eq ↦
      let (e, c, z) = Element.intersect_with_complement x y in
      let (rest, d) = complement_elements xs ys in (keep z e rest, c || d)
  | Ordering.lt ↦ let (rest, d) = complement_elements xs (y ∷ ys) in (x ∷ rest, d)
]

-- `intersectWithComplement` of one argument
unfoldable pub intersect_with_complement : Bitmap → Bitmap → Bitmap × Bool
unfolding complement_elements empty
intersect_with_complement a b =
    if empty a || empty b
    then (a, false)
    else let (es, c) = complement_elements a.elements b.elements in
      (record { elements = es; curr = 0 }, c)
