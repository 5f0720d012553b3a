-- ===== src/Tests/Bitmaps.antt =====
-- Runs of include/bitmap.h.
use ptranalysis.Common.{
  ℕ, ◌≡◌, ◌↔◌, true, false, ◌==◌, not, ◌&&◌, ◌||◌, [], arith, ◌+◌, ◌-◌, ◌<◌, ◌^◌, refl, sym, ap,
  ◌∙◌, List, ◌∷◌, some, inl, inr, dec_lt, length,
}
use ptranalysis.Bitmap.Vector
use ptranalysis.Bitmap.Vector.{Bitmap, find_lower_bound, element_at}
use ptranalysis.Bitmap.Search.{IsBitmap, Located, find_lower_bound_lem}
use ptranalysis.Bitmap.Laws.{member, Stands, test-member, set-member}
use ptranalysis.Bitmap.Algebra.{
  reset-member, test_and_set-member, union-member, intersect-member, complement-member, new-member,
}
use ptranalysis.Bitmap.Element
use ptranalysis.Bitmap.Disjoint.{AreDisjoint, intersect-AreDisjoint}
use ptranalysis.Bitmap.Words.{has_bit}
use ptranalysis.Bitmap.Places.{element-IsElement}
use ptranalysis.Bitmap.Iterator.{Builtins, skip_zeros, find_next, iterate}
use ptranalysis.Bitmap.Scan.{IsFirst, skip_zeros-Skipped, find_next_lem}
use ptranalysis.Bitmap.Iterate.{iterate_lem}
use ptranalysis.Common.Bits.{has, has-zero, zero_of_has}
use ptranalysis.Common.IdSet.{contains, IsIncreasing}
use ptranalysis.Bitmap.Canonical.{equal-member}

abbrev low : Bitmap
low = Vector.set (Vector.set Vector.new 5) 300

abbrev high : Bitmap
high = Vector.set (Vector.set Vector.new 300) 1000

ok_low : IsBitmap low
ok_low = (set-member _ 300 (set-member Vector.new 5 new-member.ok).ok).ok

ok_high : IsBitmap high
ok_high = (set-member _ 1000 (set-member Vector.new 300 new-member.ok).ok).ok

find_lower_bound_lem_example :
    ((find_lower_bound low 2).0 ≡ record low { curr = (find_lower_bound low 2).1 })
    × Located low.elements 2 (find_lower_bound low 2).1
find_lower_bound_lem_example = find_lower_bound_lem low 2 ok_low

test-member_example :
    ((Vector.test low 300).1 ≡ member low 300)
    × ((Vector.test low 300).0.elements ≡ low.elements)
    × IsBitmap (Vector.test low 300).0
test-member_example = test-member low 300 ok_low

set-member_example : Stands (Vector.set low 6) (λ m. (m == 6) || member low m)
set-member_example = set-member low 6 ok_low

reset-member_example : Stands (Vector.reset low 300) (λ m. not (m == 300) && member low m)
reset-member_example = reset-member low 300 ok_low

test_and_set-member_example :
    Stands (Vector.test_and_set low 7).0 (λ m. (m == 7) || member low m)
    × ((Vector.test_and_set low 7).1 ≡ not (member low 7))
test_and_set-member_example = test_and_set-member low 7 ok_low

union-member_example : Stands (Vector.union low high).0 (λ m. member low m || member high m)
union-member_example = union-member low high ok_low ok_high

intersect-member_example : Stands (Vector.intersect low high).0 (λ m. member low m && member high m)
intersect-member_example = intersect-member low high ok_low ok_high

complement-member_example :
    Stands (Vector.intersect_with_complement low high).0 (λ m. member low m && not (member high m))
complement-member_example = complement-member low high ok_low ok_high

equal-member_example : (Vector.equal low high ≡ true) ↔ ((n : ℕ) → member low n ≡ member high n)
equal-member_example = equal-member low high ok_low ok_high

-- Bit 5 is in the first element, bit 1000 in another one.
abbrev apart : Bitmap
apart = Vector.set Vector.new 1000

abbrev alone : Bitmap
alone = Vector.set Vector.new 5

no_common : AreDisjoint alone.elements apart.elements
unfolding Vector.set Vector.ensure_element Vector.empty Vector.replace_at Element.set_bit
no_common = ((omega arith, tt), tt)

intersect-AreDisjoint_example :
    ((Vector.intersect alone apart).0.elements ≡ []) × ((Vector.intersect alone apart).1 ≡ false)
intersect-AreDisjoint_example = intersect-AreDisjoint alone apart no_common

-- countTrailingZeros, by the loop of the iterator.
abbrev pub some_cpu : Builtins
some_cpu = record {
  count_trailing_zeros = λ x. (skip_zeros 32 x 0).1;
  first_one = λ x p h.
      let s = skip_zeros-Skipped 32 x 0 h in
      let at : (skip_zeros 32 x 0).1 ≡ s.d + 0 = omega (arith, s.moved) in
      elim s.stop [
        | inr o ↦ rw at (sym (s.tail 0) ∙ o)
        | inl z ↦ absurd (omega (arith, zero_of_has x (all_zero x p h z)))
      ];
  zeros_below =
      λ x j p h l. let s = skip_zeros-Skipped 32 x 0 h in s.zeros j (omega (arith, s.moved));
}
  where
    all_zero :
        (x : ℕ) → 0 < x → (h : x < 2 ^ 32) → (skip_zeros 32 x 0).0 ≡ 0 → (i : ℕ) → has x i ≡ false
    all_zero x p h z i =
        let s = skip_zeros-Skipped 32 x 0 h in
        elim (dec_lt i s.d) [
          | yes l ↦ s.zeros i l
          | no g ↦
              let t : s.d + (i - s.d) ≡ i = omega arith in
              ap (has x) (sym t)
              ∙ sym (s.tail (i - s.d))
              ∙ ap (λ (b : ℕ). has b (i - s.d)) z
              ∙ has-zero (i - s.d)
        ]

iterate_lem_example :
    (ns : List ℕ) × (iterate some_cpu low ≡ some ns)
    × IsIncreasing ns
    × ((m : ℕ) → contains m ns ≡ member low m)
iterate_lem_example = iterate_lem some_cpu low ok_low

low_elements :
    low.elements ≡ Element.set_bit (Element.new 0) 5 ∷ Element.set_bit (Element.new 2) 44 ∷ []
unfolding Vector.set Vector.empty Vector.replace_at Vector.ensure_element find_lower_bound
    Vector.insert_at Element.set_bit
low_elements = refl

low_filled : 0 < length low.elements
low_filled = rw low_elements (omega arith)

find_next_lem_example :
    IsFirst
      (has_bit (element_at low.elements 0).bits)
      3
      128
      (find_next some_cpu (element_at low.elements 0) 3)
find_next_lem_example =
    find_next_lem some_cpu (element_at low.elements 0) 3
      (element-IsElement 0 low.elements 0 ok_low.chain low_filled).0 (omega arith)
