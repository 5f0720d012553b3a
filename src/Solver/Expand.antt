-- ===== src/Solver/Expand.antt =====
-- The members of a set of nodes as a vector: sat2vec and bdd2vec of anders/util.cpp.
use Prim.Native.Nat.{bit_or}
use ptranalysis.Common.{
  ℕ, zero, suc, ◌*◌, ◌/◌, ◌%◌, ◌^◌, Option, none, some, List, [], ◌∷◌, ◌++◌, leb, ◌==◌,
  if◌then◌else◌, get_or, length,
}
use ptranalysis.Common.Bits.{one_shl}
use ptranalysis.Graph.{Sets}

-- An entry of the vector that bdd_allsat passes on: -1, 0 or 1.
pub data SatBit : Type 0 where
  dont_care : SatBit
  bit_clear : SatBit
  bit_set : SatBit

-- `v[i]`
abbrev pub entry : List SatBit → ℕ → SatBit
entry v i = get_or v i bit_clear

-- The switch on an entry, with the mask `m` of its bit, `base` and the masks in `dc`.
abbrev pub take_bit : SatBit → ℕ → ℕ × List ℕ → ℕ × List ℕ
take_bit dont_care m (base, dc) = (base, m ∷ dc)
take_bit bit_clear m (base, dc) = (base, dc)
take_bit bit_set m (base, dc) = (bit_or base m, dc)

-- `base` and the masks in `dc`, in their order, of the loop over the bits from `j` on, of which there are
-- `rounds`: bit `j` of the result is entry `2 * j`, the odd ones being those of domain 1.
unfoldable pub scan : ℕ → List SatBit → ℕ → ℕ × List ℕ
scan zero v j = (0, [])
scan (suc rounds) v j = take_bit (entry v (j * 2)) (one_shl j) (scan rounds v (suc j))

-- The inner loop over the masks: `x` with those whose bit in `i` is set.
unfoldable pub choose : ℕ → List ℕ → ℕ → ℕ
choose x [] i = x
choose x (m ∷ dc) i = choose (if i % 2 == 1 then bit_or x m else x) dc (i / 2)

-- The outer loop, for `i` below `n`.
unfoldable pub choices : ℕ → List ℕ → ℕ → List ℕ
unfolding choose
choices base dc zero = []
choices base dc (suc n) = choices base dc n ++ choose base dc n ∷ []

-- The switch on the number of masks, whose first cases fall through; `none` is the failed assertion.
unfoldable pub expand : ℕ → List ℕ → Option (List ℕ)
unfolding choices
expand base [] = some (base ∷ [])
expand base (m ∷ []) = some (bit_or base m ∷ base ∷ [])
expand base (m ∷ n ∷ []) =
    let x = bit_or base n in some (x ∷ bit_or x m ∷ bit_or base m ∷ base ∷ [])
expand base (m ∷ n ∷ o ∷ dc) =
    let ndc = length (m ∷ n ∷ o ∷ dc) in
    if leb ndc 25 then some (choices base (m ∷ n ∷ o ∷ dc) (2 ^ ndc)) else none

-- What one call appends to `bddexp`, for a domain of `bits` bits.
unfoldable pub sat2vec : ℕ → List SatBit → Option (List ℕ)
unfolding scan expand
sat2vec bits v = let (base, dc) = scan bits v 0 in expand base dc

-- `bddexp` after a call for each of the vectors.
unfoldable pub append_all : ℕ → List (List SatBit) → List ℕ → Option (List ℕ)
unfolding sat2vec
append_all bits [] bddexp = some bddexp
append_all bits (v ∷ vs) bddexp = elim (sat2vec bits v) [
  | none ↦ none
  | some more ↦ append_all bits vs (bddexp ++ more)
]

-- `sort`
abbrev pub insert_sorted : ℕ → List ℕ → List ℕ
insert_sorted a [] = a ∷ []
insert_sorted a (x ∷ xs) = if leb a x then a ∷ x ∷ xs else x ∷ insert_sorted a xs

abbrev pub sort : List ℕ → List ℕ
sort [] = []
sort (x ∷ xs) = insert_sorted x (sort xs)

-- The vector, which the cache of the source keeps by the identity of the BDD; `bits` is
-- `fdd_varnum(0)`, and bdd_allsat comes to the vectors that it passes on. A set of nodes is never
-- bddtrue.
unfoldable pub bdd2vec :
    (S : Sets) → ℕ → (S.NodeSet → List (List SatBit)) → S.NodeSet → Option (List ℕ)
unfolding append_all
bdd2vec S bits bdd_allsat s =
    if S.same s S.bddfalse
    then some []
    else elim (append_all bits (bdd_allsat s) []) [ none ↦ none | some bddexp ↦ some (sort bddexp) ]
