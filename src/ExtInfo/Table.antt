-- ===== src/ExtInfo/Table.antt =====
-- The table `ei_pairs` of anders/extinfo.cpp, but for its last entry, which marks the end.
pub mod Noop
pub mod Alloc
pub mod Effects
use Prim.Native.String.{String}
use ptranalysis.Common.{List, ◌++◌}
use ptranalysis.ExtInfo.Types.{ExtType}
use Noop.{noop_pairs_1, noop_pairs_2, noop_pairs_3}
use Alloc.{alloc_pairs, nostruct_alloc_pairs}
use Effects.{static_pairs, return_pairs, store_pairs}

unfoldable pub ei_pairs : List (String × ExtType)
unfolding noop_pairs_1 noop_pairs_2 noop_pairs_3 alloc_pairs nostruct_alloc_pairs static_pairs
    return_pairs store_pairs
ei_pairs =
    noop_pairs_1
    ++ (noop_pairs_2
        ++ (noop_pairs_3
            ++ (alloc_pairs
                ++ (nostruct_alloc_pairs ++ (static_pairs ++ (return_pairs ++ store_pairs))))))
