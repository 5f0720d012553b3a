-- ===== src/Solver/Variables.antt =====
-- What anders/solve.cpp uses of the BuDDy library for its two domains of finite integers, beyond the sets
-- of nodes of Graph: the result of bvec_* and the functions of constraints with an offset.
use ptranalysis.Common.{ℕ, ◌+◌, ◌%◌, ◌^◌, ◌<◌, ◌≡◌, ◌↔◌, Bool, true, false, ◌&&◌, ◌==◌}
use ptranalysis.Graph.{Sets}

-- Domain 0, of `pts_bits` bits, is that of the members of points-to sets, and domain 1 that of the
-- results of GEPs. A Vector is a bit vector of `pts_bits` bits over both, with a value for a number of each; a
-- Relation is a BDD over both, and holds of some pairs of numbers; a GepSet is one over domain 1. The
-- laws are those of the documentation of BuDDy: bvec_con keeps the low bits of its number, bvec_add drops the
-- carry, bdd_relprod with the variables of domain 0 quantifies over its numbers, and bdd_replace with the
-- pair from domain 1 to 0 renames the variables.
pub record Vars (S : Sets) : Type 1 where
  pub pts_bits : ℕ
  pub Vector : Type 0
  pub Relation : Type 0
  pub GepSet : Type 0
  pub value : Vector → ℕ → ℕ → ℕ
  pub holds : Relation → ℕ → ℕ → Bool
  pub contains_gep : GepSet → ℕ → Bool
  pub fdd_ithvar : ℕ → S.NodeSet
  pub bvec_varfdd : ℕ → Vector
  pub bvec_con : ℕ → ℕ → Vector
  pub bvec_add : Vector → Vector → Vector
  pub bvec_equ : Vector → Vector → Relation
  pub bddfalse : Relation
  pub is_bddfalse : Relation → Bool
  pub bdd_and : Relation → S.NodeSet → Relation
  pub bdd_relprod : S.NodeSet → Relation → GepSet
  pub bdd_replace : GepSet → S.NodeSet
  pub contains-fdd_ithvar : (n m : ℕ) → n < 2 ^ pts_bits → S.contains (fdd_ithvar n) m ≡ (m == n)
  pub value-points : (x y : ℕ) → x < 2 ^ pts_bits → y < 2 ^ pts_bits → value (bvec_varfdd 0) x y ≡ x
  pub value-results :
      (x y : ℕ) → x < 2 ^ pts_bits → y < 2 ^ pts_bits → value (bvec_varfdd 1) x y ≡ y
  pub value-bvec_con : (n x y : ℕ) → value (bvec_con pts_bits n) x y ≡ n % 2 ^ pts_bits
  pub value-bvec_add :
      (u v : Vector) (x y : ℕ)
      → value (bvec_add u v) x y ≡ (value u x y + value v x y) % 2 ^ pts_bits
  pub holds-bvec_equ :
      (u v : Vector) (x y : ℕ) → holds (bvec_equ u v) x y ≡ (value u x y == value v x y)
  pub holds-bdd_and :
      (f : Relation) (s : S.NodeSet) (x y : ℕ)
      → holds (bdd_and f s) x y ≡ holds f x y && S.contains s x
  pub is_bddfalse_iff :
      (f : Relation)
      → (is_bddfalse f ≡ true)
        ↔ ((x y : ℕ) → x < 2 ^ pts_bits → y < 2 ^ pts_bits → holds f x y ≡ false)
  pub contains_gep-bdd_relprod :
      (s : S.NodeSet) (f : Relation) (y : ℕ)
      → (contains_gep (bdd_relprod s f) y ≡ true) ↔ (
          (y < 2 ^ pts_bits)
          × (x : ℕ) × (x < 2 ^ pts_bits)
          × (S.contains s x ≡ true)
          × (holds f x y ≡ true))
  pub contains-bdd_replace : (g : GepSet) (y : ℕ) → S.contains (bdd_replace g) y ≡ contains_gep g y
