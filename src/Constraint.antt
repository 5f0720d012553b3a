-- ===== src/Constraint.antt =====
-- include/anders.h: the constraints and their order.
pub mod Order
use Prim.Native.Nat.{bit_xor}
use ptranalysis.Common.{ℕ, ◌*◌, ◌%◌, ◌^◌, Bool, true, false, not, ◌&&◌, ltb, ◌==◌, if◌then◌else◌}

pub data ConsType : Type 0 where
  addr_of_cons copy_cons load_cons store_cons gep_cons : ConsType

-- The value of the enumerator.
abbrev pub rank : ConsType → ℕ
rank addr_of_cons = 0
rank copy_cons = 1
rank load_cons = 2
rank store_cons = 3
rank gep_cons = 4

pub record Constraint : Type 0 where
  pub kind : ConsType
  pub dest : ℕ
  pub src : ℕ
  pub off : ℕ

unfoldable pub equal : Constraint → Constraint → Bool
equal a b =
    (rank a.kind == rank b.kind) && (a.dest == b.dest) && (a.src == b.src) && (a.off == b.off)

unfoldable pub less : Constraint → Constraint → Bool
less a b =
    if not (rank a.kind == rank b.kind)
    then ltb (rank a.kind) (rank b.kind)
    else if not (a.dest == b.dest)
    then ltb a.dest b.dest
    else if not (a.src == b.src)
    then ltb a.src b.src
    else ltb a.off b.off

unfoldable pub greater : Constraint → Constraint → Bool
greater a b =
    if not (rank a.kind == rank b.kind)
    then ltb (rank b.kind) (rank a.kind)
    else if not (a.dest == b.dest)
    then ltb b.dest a.dest
    else if not (a.src == b.src)
    then ltb b.src a.src
    else ltb b.off a.off

-- `!=`, `>=` and `<=`.
unfoldable pub differs : Constraint → Constraint → Bool
unfolding equal
differs a b = not (equal a b)

unfoldable pub at_least : Constraint → Constraint → Bool
unfolding less
at_least a b = not (less a b)

unfoldable pub at_most : Constraint → Constraint → Bool
unfolding greater
at_most a b = not (greater a b)
