-- ===== src/Solver/Expanded.antt =====
-- What bdd2vec of anders/util.cpp makes of a set: the vector of its members.
use Prim.Native.Nat.{bit_or}
use ptranalysis.Common.{
  ℕ, zero, suc, ◌+◌, ◌*◌, ◌≤◌, ◌≡◌, ◌↔◌, ◌⊎◌, refl, sym, ap, ◌∙◌, Bool, true, false, not, ◌&&◌,
  ◌||◌, List, [], ◌∷◌, map, arith, ltb, leb, ◌==◌, if◌then◌else◌, Bool-cases, inl, inr, length,
  ℕ_discrete, eq→==, ==→eq,
}
use ptranalysis.Common.Bits.{has, one_shl, has-zero, has-bit_or, bit-one_shl, eq_of_has}
use ptranalysis.Common.IdSet.{contains}
use ptranalysis.Solver.Expand.{SatBit, dont_care, bit_clear, bit_set, entry, take_bit, scan}

-- May a bit of a number stand at the entry?
abbrev pub agrees : SatBit → Bool → Bool
agrees dont_care b = true
agrees bit_clear b = not b
agrees bit_set b = b

-- The number has `bits` bits, and each of them agrees with its entry.
abbrev pub Fits : ℕ → List SatBit → ℕ → Type 0
Fits bits v x =
    (p : ℕ) → agrees (if ltb p bits then entry v (p * 2) else bit_clear) (has x p) ≡ true

abbrev pub AnyFits : ℕ → List (List SatBit) → ℕ → Type 0
AnyFits bits [] x = false ≡ true
AnyFits bits (v ∷ vs) x = Fits bits v x ⊎ AnyFits bits vs x

abbrev pub is_free : SatBit → Bool
is_free dont_care = true
is_free bit_clear = false
is_free bit_set = false

abbrev pub is_set : SatBit → Bool
is_set dont_care = false
is_set bit_clear = false
is_set bit_set = true

abbrev pub keep_free : SatBit → ℕ → List ℕ → List ℕ
keep_free dont_care j ps = j ∷ ps
keep_free bit_clear j ps = ps
keep_free bit_set j ps = ps

-- The positions of the masks that scan makes.
abbrev pub places : ℕ → List SatBit → ℕ → List ℕ
places zero v j = []
places (suc rounds) v j = keep_free (entry v (j * 2)) j (places rounds v (suc j))

contains-keep_free :
    (b : SatBit) (j p : ℕ) (ps : List ℕ)
    → contains p (keep_free b j ps) ≡ (is_free b && (p == j)) || contains p ps
contains-keep_free dont_care j p ps = refl
contains-keep_free bit_clear j p ps = refl
contains-keep_free bit_set j p ps = refl

pub contains-places :
    (rounds : ℕ) (v : List SatBit) (j p : ℕ)
    → contains p (places rounds v j) ≡ leb j p && ltb p (j + rounds) && is_free (entry v (p * 2))
contains-places zero v j p = ground arith
contains-places (suc rounds) v j p =
    contains-keep_free (entry v (j * 2)) j p (places rounds v (suc j)) ∙ elim (ℕ_discrete p j) [
      | yes e ↦
          ground
            (arith, contains-places rounds v (suc j) p, ap (λ (i : ℕ). is_free (entry v (i * 2))) e)
      | no n ↦ ground (arith, contains-places rounds v (suc j) p)
    ]

take_bit-masks :
    (b : SatBit) (j : ℕ) (r : ℕ × List ℕ) (ps : List ℕ)
    → r.1 ≡ map one_shl ps
    → (take_bit b (one_shl j) r).1 ≡ map one_shl (keep_free b j ps)
take_bit-masks dont_care j r ps e = ap (λ ms. one_shl j ∷ ms) e
take_bit-masks bit_clear j r ps e = e
take_bit-masks bit_set j r ps e = e

pub scan-masks :
    (rounds : ℕ) (v : List SatBit) (j : ℕ) → (scan rounds v j).1 ≡ map one_shl (places rounds v j)
unfolding scan
scan-masks zero v j = refl
scan-masks (suc rounds) v j =
    take_bit-masks (entry v (j * 2)) j (scan rounds v (suc j)) (places rounds v (suc j))
      (scan-masks rounds v (suc j))

has-take_bit :
    (b : SatBit) (j p : ℕ) (r : ℕ × List ℕ)
    → has (take_bit b (one_shl j) r).0 p ≡ (is_set b && (j == p)) || has r.0 p
has-take_bit dont_care j p r = refl
has-take_bit bit_clear j p r = refl
has-take_bit bit_set j p r = ground (arith, has-bit_or r.0 (one_shl j) p, bit-one_shl j p)

pub has-scan :
    (rounds : ℕ) (v : List SatBit) (j p : ℕ)
    → has (scan rounds v j).0 p ≡ leb j p && ltb p (j + rounds) && is_set (entry v (p * 2))
unfolding scan
has-scan zero v j p = has-zero p ∙ ground arith
has-scan (suc rounds) v j p =
    has-take_bit (entry v (j * 2)) j p (scan rounds v (suc j)) ∙ elim (ℕ_discrete p j) [
      | yes e ↦
          ground (arith, has-scan rounds v (suc j) p, ap (λ (i : ℕ). is_set (entry v (i * 2))) e)
      | no n ↦ ground (arith, has-scan rounds v (suc j) p)
    ]

abbrev pub Distinct : List ℕ → Type 0
Distinct [] = Unit {0}
Distinct (p ∷ ps) = (contains p ps ≡ false) × Distinct ps

keep_free-Distinct :
    (b : SatBit) (j : ℕ) (ps : List ℕ)
    → contains j ps ≡ false
    → Distinct ps
    → Distinct (keep_free b j ps)
keep_free-Distinct dont_care j ps h d = (h, d)
keep_free-Distinct bit_clear j ps h d = d
keep_free-Distinct bit_set j ps h d = d

pub places-Distinct : (rounds : ℕ) (v : List SatBit) (j : ℕ) → Distinct (places rounds v j)
places-Distinct zero v j = tt
places-Distinct (suc rounds) v j =
    keep_free-Distinct (entry v (j * 2)) j (places rounds v (suc j))
      (contains-places rounds v (suc j) j ∙ ground arith) (places-Distinct rounds v (suc j))

length-keep_free : (b : SatBit) (j : ℕ) (ps : List ℕ) → length (keep_free b j ps) ≤ suc (length ps)
length-keep_free dont_care j ps = omega arith
length-keep_free bit_clear j ps = omega arith
length-keep_free bit_set j ps = omega arith

pub length-places : (rounds : ℕ) (v : List SatBit) (j : ℕ) → length (places rounds v j) ≤ rounds
length-places zero v j = omega arith
length-places (suc rounds) v j = omega (
  arith,
  length-keep_free (entry v (j * 2)) j (places rounds v (suc j)),
  length-places rounds v (suc j),
)

pub length-map-one_shl : (ps : List ℕ) → length (map one_shl ps) ≡ length ps
length-map-one_shl [] = refl
length-map-one_shl (p ∷ ps) = ap suc (length-map-one_shl ps)

-- Is the number `base` with some of the masks?
abbrev pub reach : ℕ → List ℕ → ℕ → Bool
reach base [] x = x == base
reach base (m ∷ dc) x = reach base dc x || reach (bit_or base m) dc x

abbrev pub same_bit : Bool → Bool → Bool
same_bit a b = if a then b else not b

same_bit_refl : (a : Bool) → same_bit a a ≡ true
same_bit_refl true = refl
same_bit_refl false = refl

same_bit-eq : (a b : Bool) → same_bit a b ≡ true → a ≡ b
same_bit-eq true b h = sym h
same_bit-eq false true h = h
same_bit-eq false false h = refl

pub reach_iff :
    (ps : List ℕ) (base x : ℕ)
    → Distinct ps
    → ((p : ℕ) → contains p ps ≡ true → has base p ≡ false)
    → (reach base (map one_shl ps) x ≡ true)
      ↔ ((p : ℕ) → contains p ps || same_bit (has x p) (has base p) ≡ true)
reach_iff [] base x d clear = (
  λ h p. (let e = ==→eq x base h in rw e (same_bit_refl (has base p))),
  λ all. eq→== x base (eq_of_has x base (λ p. same_bit-eq (has x p) (has base p) (all p))),
)
reach_iff (q ∷ ps) base x (fresh, d) clear =
    let more = bit_or base (one_shl q) in
    let bits : (p : ℕ) → has more p ≡ has base p || (q == p) =
      λ p. has-bit_or base (one_shl q) p ∙ ground (arith, bit-one_shl q p) in
    let low = reach_iff ps base x d (λ p h. clear p (ground arith)) in
    let other : (p : ℕ) → contains p ps ≡ true → (q == p) ≡ false = λ p h. elim (ℕ_discrete p q) [
      | yes e ↦ absurd (cc (ap (λ (i : ℕ). contains i ps) e, h, fresh))
      | no n ↦ ground arith
    ] in
    let high =
      reach_iff ps more x d (λ p h. bits p ∙ ground (arith, clear p (ground arith), other p h)) in
    (
      λ h p. elim (Bool-cases (reach base (map one_shl ps) x)) [
        | inl r ↦ (let w = low.0 r p in ground arith)
        | inr r ↦ let w = high.0 (ground (arith, h, r)) p in ground (arith, bits p)
      ],
      λ all. elim (Bool-cases (has x q)) [
        | inl there ↦
            let r = high.1 (λ p. elim (ℕ_discrete p q) [
              | yes e ↦ (let w = ap (has x) e in ground (arith, bits p, there))
              | no n ↦ ground (arith, bits p, all p)
            ]) in
            ground (arith, r)
        | inr missing ↦
            let c : has base q ≡ false = clear q (ground arith) in
            let r = low.1 (λ p. elim (ℕ_discrete p q) [
              | yes e ↦
                  let w = ap (has x) e in let u = ap (has base) e in ground (arith, missing, c)
              | no n ↦ ground (arith, all p)
            ]) in
            ground (arith, r)
      ],
    )
