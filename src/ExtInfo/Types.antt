-- ===== src/ExtInfo/Types.antt =====
-- include/extinfo.h: the types of external functions. A double underscore of the source is one here.
use ptranalysis.Common.{ℕ, Bool, ◌==◌}

pub data ExtType : Type 0 where
  noop alloc realloc nostruct_alloc stat stat2 l_a0 l_a1 l_a2 l_a8 : ExtType
  l_a0_a0r_a1r a1r_a0r a3r_a1r_ns a1r_a0 a2r_a1 a4r_a1 l_a0_a2r_a0 : ExtType
  a0r_new a1r_new a2r_new a4r_new a11r_new other : ExtType

-- The value of the enumerator.
abbrev pub rank : ExtType → ℕ
rank noop = 0
rank alloc = 1
rank realloc = 2
rank nostruct_alloc = 3
rank stat = 4
rank stat2 = 5
rank l_a0 = 6
rank l_a1 = 7
rank l_a2 = 8
rank l_a8 = 9
rank l_a0_a0r_a1r = 10
rank a1r_a0r = 11
rank a3r_a1r_ns = 12
rank a1r_a0 = 13
rank a2r_a1 = 14
rank a4r_a1 = 15
rank l_a0_a2r_a0 = 16
rank a0r_new = 17
rank a1r_new = 18
rank a2r_new = 19
rank a4r_new = 20
rank a11r_new = 21
rank other = 22

abbrev pub same_type : ExtType → ExtType → Bool
same_type s t = rank s == rank t
