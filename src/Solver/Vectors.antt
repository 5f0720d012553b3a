-- ===== src/Solver/Vectors.antt =====
-- bdd2vec of anders/util.cpp as a whole: it lists the members of a set.
use Prim.Native.Nat.{bit_or}
use native.Mathlib.Nat.{pow-suc}
use ptranalysis.Common.{
  ℕ, zero, suc, ◌+◌, ◌*◌, ◌/◌, ◌%◌, ◌^◌, ◌≤◌, ◌≡◌, ◌↔◌, ◌⊎◌, refl, sym, ap, ◌∙◌, Bool, true, false,
  ◌&&◌, ◌||◌, some, List, [], ◌∷◌, ◌++◌, map, arith, ltb, leb, ◌==◌, if◌then◌else◌, Bool-cases, inl,
  inr, length,
}
use ptranalysis.Common.Bits.{has, one_shl, has-bit_or, eq_of_has}
use ptranalysis.Common.IdSet.{contains}
use ptranalysis.Graph.{Sets}
use ptranalysis.Solver.Expand.{
  SatBit, dont_care, bit_clear, bit_set, entry, scan, choose, choices, expand, sat2vec, append_all,
  insert_sorted, sort, bdd2vec,
}
use ptranalysis.Solver.Expanded.{
  agrees, Fits, AnyFits, is_free, is_set, places, contains-places, scan-masks, has-scan,
  places-Distinct, length-places, length-map-one_shl, reach, same_bit, reach_iff,
}

contains-append : (x : ℕ) (xs ys : List ℕ) → contains x (xs ++ ys) ≡ contains x xs || contains x ys
contains-append x [] ys = refl
contains-append x (y ∷ xs) ys = ground (arith, contains-append x xs ys)

-- The choices of one mask more are those without it and those with it.
choices-cons :
    (x base m : ℕ) (dc : List ℕ) (n : ℕ)
    → contains x (choices base (m ∷ dc) (n * 2))
      ≡ contains x (choices base dc n) || contains x (choices (bit_or base m) dc n)
unfolding choices choose
choices-cons x base m dc zero = refl
choices-cons x base m dc (suc n) =
    let two : suc n * 2 ≡ suc (suc (n * 2)) = omega arith in
    let even : (n * 2 % 2 == 1) ≡ false = ground arith in
    let odd : (suc (n * 2) % 2 == 1) ≡ true = ground arith in
    let half : n * 2 / 2 ≡ n = omega arith in
    let half' : suc (n * 2) / 2 ≡ n = omega arith in
    let low : choose base (m ∷ dc) (n * 2) ≡ choose base dc n = rw (choose, even, half) refl in
    let high : choose base (m ∷ dc) (suc (n * 2)) ≡ choose (bit_or base m) dc n =
      rw (choose, odd, half') refl in
    rw (two, low, high)
      (contains-append x (choices base (m ∷ dc) (n * 2) ++ choose base dc n ∷ []) _
        ∙ ground (
          arith,
          contains-append x (choices base (m ∷ dc) (n * 2)) (choose base dc n ∷ []),
          choices-cons x base m dc n,
          contains-append x (choices base dc n) (choose base dc n ∷ []),
          contains-append x (choices (bit_or base m) dc n) (choose (bit_or base m) dc n ∷ []),
        ))

choices-reach :
    (x base : ℕ) (dc : List ℕ) → contains x (choices base dc (2 ^ length dc)) ≡ reach base dc x
choices-reach x base [] = unfold choices choose in ground arith
choices-reach x base (m ∷ dc) =
    let two : 2 ^ suc (length dc) ≡ 2 ^ length dc * 2 = omega (arith, pow-suc 2 (length dc)) in
    rw two (
      choices-cons x base m dc (2 ^ length dc)
      ∙ ground (arith, choices-reach x base dc, choices-reach x (bit_or base m) dc))

bit_or-swap : (a b c : ℕ) → bit_or (bit_or a b) c ≡ bit_or (bit_or a c) b
bit_or-swap a b c = eq_of_has _ _ (λ k. ground (
  arith,
  has-bit_or (bit_or a b) c k,
  has-bit_or a b k,
  has-bit_or (bit_or a c) b k,
  has-bit_or a c k,
))

expand_lem :
    (base : ℕ) (dc : List ℕ)
    → length dc ≤ 25
    → (xs : List ℕ) × (expand base dc ≡ some xs) × ((x : ℕ) → contains x xs ≡ reach base dc x)
unfolding expand
expand_lem base [] h = (base ∷ [], refl, λ x. ground arith)
expand_lem base (m ∷ []) h = (bit_or base m ∷ base ∷ [], refl, λ x. ground arith)
expand_lem base (m ∷ n ∷ []) h = (
  bit_or base n ∷ bit_or (bit_or base n) m ∷ bit_or base m ∷ base ∷ [],
  refl,
  λ x. rw (bit_or-swap base n m) (ground arith),
)
expand_lem base (m ∷ n ∷ o ∷ dc) h =
    let few : leb (length (m ∷ n ∷ o ∷ dc)) 25 ≡ true = ground arith in
    (
      choices base (m ∷ n ∷ o ∷ dc) (2 ^ length (m ∷ n ∷ o ∷ dc)),
      rw few refl,
      λ x. choices-reach x base (m ∷ n ∷ o ∷ dc),
    )

-- One bit agrees with its entry exactly if it is a free one, or that of the base.
agrees_iff : (b : SatBit) (r t : Bool) → t ≡ is_set b → agrees b r ≡ (is_free b || same_bit r t)
agrees_iff dont_care r t e = refl
agrees_iff bit_clear r t e = ground (arith, e)
agrees_iff bit_set r t e = ground (arith, e)

sat2vec_lem :
    (bits : ℕ) (v : List SatBit)
    → bits ≤ 25
    → (xs : List ℕ) × (sat2vec bits v ≡ some xs)
      × ((x : ℕ) → (contains x xs ≡ true) ↔ Fits bits v x)
unfolding sat2vec
sat2vec_lem bits v h =
    let base = (scan bits v 0).0 in
    let ps = places bits v 0 in
    let masks = scan-masks bits v 0 in
    let few : length (scan bits v 0).1 ≤ 25 =
      omega (arith, ap length masks, length-map-one_shl ps, length-places bits v 0) in
    let (xs, e, is) = expand_lem base (scan bits v 0).1 few in
    let clear : (p : ℕ) → contains p ps ≡ true → has base p ≡ false = λ p q.
      has-scan bits v 0 p
      ∙ one_of (entry v (p * 2)) (leb 0 p && ltb p (0 + bits))
          (sym (contains-places bits v 0 p ∙ ground arith) ∙ q) in
    let iff = λ (x : ℕ). reach_iff ps base x (places-Distinct bits v 0) clear in
    let reached : (x : ℕ) → contains x xs ≡ reach base (map one_shl ps) x =
      λ x. is x ∙ ap (λ ms. reach base ms x) masks in
    let bit : (x p : ℕ)
        → agrees (if ltb p bits then entry v (p * 2) else bit_clear) (has x p)
          ≡ contains p ps || same_bit (has x p) (has base p) =
      λ x p. elim (Bool-cases (ltb p bits)) [
        | inl inside ↦ rw inside (
            agrees_iff (entry v (p * 2)) (has x p) (has base p)
              (has-scan bits v 0 p ∙ ground (arith, inside))
            ∙ ground (arith, contains-places bits v 0 p, inside))
        | inr outside ↦
            rw outside (ground (arith, contains-places bits v 0 p, has-scan bits v 0 p, outside))
      ] in
    (
      xs,
      e,
      λ x. (
        λ q p. bit x p ∙ (iff x).0 (sym (reached x) ∙ q) p,
        λ all. reached x ∙ (iff x).1 (λ p. sym (bit x p) ∙ all p),
      ),
    )
  where
    one_of : (b : SatBit) (c : Bool) → c && is_free b ≡ true → c && is_set b ≡ false
    one_of dont_care c q = ground arith
    one_of bit_clear c q = ground arith
    one_of bit_set c q = ground arith

append_all_lem :
    (bits : ℕ) (vs : List (List SatBit)) (bddexp : List ℕ)
    → bits ≤ 25
    → (xs : List ℕ) × (append_all bits vs bddexp ≡ some xs)
      × ((x : ℕ) → (contains x xs ≡ true) ↔ ((contains x bddexp ≡ true) ⊎ AnyFits bits vs x))
unfolding append_all
append_all_lem bits [] bddexp h = (
  bddexp,
  refl,
  λ x. (λ q. inl q, λ q. elim q [ inl there ↦ there | inr none_there ↦ absurd cc ]),
)
append_all_lem bits (v ∷ vs) bddexp h =
    let (more, e, one) = sat2vec_lem bits v h in
    let (xs, f, rest) = append_all_lem bits vs (bddexp ++ more) h in
    let both = λ (x : ℕ). contains-append x bddexp more in
    (
      xs,
      rw (append_all, e) f,
      λ x. (
        λ q. elim ((rest x).0 q) [
          | inr later ↦ inr (inr later)
          | inl here ↦ elim (Bool-cases (contains x bddexp)) [
            | inl before ↦ inl before
            | inr new_one ↦ inr (inl ((one x).0 (let w = sym (both x) ∙ here in ground arith)))
          ]
        ],
        λ q. (rest x).1 (elim q [
          | inl before ↦ inl (both x ∙ ground arith)
          | inr (inl fits) ↦ inl (let w = (one x).1 fits in both x ∙ ground arith)
          | inr (inr later) ↦ inr later
        ]),
      ),
    )

contains-insert_sorted :
    (x a : ℕ) (xs : List ℕ) → contains x (insert_sorted a xs) ≡ (x == a) || contains x xs
contains-insert_sorted x a [] = refl
contains-insert_sorted x a (y ∷ xs) = ground (arith, contains-insert_sorted x a xs)

contains-sort : (x : ℕ) (xs : List ℕ) → contains x (sort xs) ≡ contains x xs
contains-sort x [] = refl
contains-sort x (y ∷ xs) = contains-insert_sorted x y (sort xs) ∙ ground (arith, contains-sort x xs)

-- For a domain of at most 25 bits, and a bdd_allsat that passes on vectors which the members of a set fit,
-- and no others: no assertion of bdd2vec fails, and it lists exactly the members of the set.
pub bdd2vec_lem :
    (S : Sets) (bits : ℕ) (bdd_allsat : S.NodeSet → List (List SatBit)) (s : S.NodeSet)
    → bits ≤ 25
    → ((x : ℕ) → (S.contains s x ≡ true) ↔ AnyFits bits (bdd_allsat s) x)
    → (xs : List ℕ) × (bdd2vec S bits bdd_allsat s ≡ some xs)
      × ((x : ℕ) → contains x xs ≡ S.contains s x)
unfolding bdd2vec
bdd2vec_lem S bits bdd_allsat s h law = elim (Bool-cases (S.same s S.bddfalse)) [
  | inl empty ↦
      ([], rw empty refl, λ x. sym ((S.same_iff s S.bddfalse).0 empty x ∙ S.contains-bddfalse x))
  | inr filled ↦
      let (xs, e, iff) = append_all_lem bits (bdd_allsat s) [] h in
      (
        sort xs,
        rw (filled, e) refl,
        λ x. contains-sort x xs ∙ elim (Bool-cases (S.contains s x)) [
          | inl there ↦ (iff x).1 (inr ((law x).0 there)) ∙ sym there
          | inr missing ↦ elim (Bool-cases (contains x xs)) [
            | inr out ↦ out ∙ sym missing
            | inl listed ↦ elim ((iff x).0 listed) [
              | inl in_none ↦ absurd cc
              | inr fits ↦ absurd (cc ((law x).1 fits, missing))
            ]
          ]
        ],
      )
]
