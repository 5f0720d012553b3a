-- ===== src/Lib.antt =====
-- The points-to analysis of this repository, and the data structures on which its solver stands.
--
-- The constraint generator makes a node for each value and object and a constraint for each
-- instruction; the solver keeps a points-to set and edges for each node, and visits nodes from a
-- worklist until nothing changes. Nodes found to be equivalent are merged. Modelled here are:
--
-- - Heap: include/heap.h, the min-heap with an index (class Heap). `up_loop` and `down_loop` are
--   the loops of perc_up and perc_dn; the position falls to half, or grows to the double, in each
--   round, so the first position and `nv` are fuel enough.
-- - Worklist: include/worklist.h with DUAL_WL == 1, as include/config.h sets it. The class for
--   WLO_PRIO is Worklist, over two heaps; Worklist/Deque is the one for WLO_FIFO and WLO_LIFO,
--   Worklist/Ids the one for WLO_ID. Worklist/Passes is about the passes of anders/solve.cpp.
-- - Bitmap: include/bitmap.h, the sparse bit vector. Bitmap/Element is MySparseBitVectorElement
--   with 4 words of 32 bits, as on a platform with a 32-bit `unsigned long`; Bitmap/Vector is
--   MySparseBitVector. An element list is a list, an iterator a position in it, and
--   CurrElementIter the field `curr`. Bitmap/Iterator is MySparseBitVectorIterator, with the
--   searches of an element that it calls; countTrailingZeros of LLVM is the parameter Builtins.
--   A walk is on fuel: the elements have room for 128 bits each, and each step visits a new one.
-- - Constraint: class Constraint of include/anders.h and its operators.
-- - UnionFind: the field `rep` of class Node in include/anders.h, get_node_rep, cget_node_rep, and
--   the union with which merge_nodes in anders/cons_opt.cpp begins. Recursion is on fuel: the
--   number of nodes plus one, which exceeds the length of a path in a forest. A forest has fewer
--   than 2 ^ 28 nodes, so that no rank overflows.
-- - Graph: class Node without `rep`, add_copy_edge of anders/solve.cpp, and what merge_nodes of
--   anders/cons_opt.cpp does to the sets of the two nodes. BuDDy is the parameter Sets: its sets,
--   bddfalse, bdd_or, bdd_and, the difference and ==, with what they mean.
-- - Solver: the visit of a node in anders/solve.cpp. `start_visit` is how solve_node begins;
--   solve_prop is the propagation along the copy edges, over Bitmap/Iterator, UnionFind and
--   Worklist. Solver/Complex is solve_ls_cons, solve_ls_off and solve_gep_cons, for constraints
--   that no indirect call goes through; the masks and GEP functions that they need are in the record Domain.
--   Solver/Variables is what the solver uses of BuDDy beyond Sets, a parameter with its laws: the
--   two domains of `pts_bits` bits, bvec_add and bvec_equ on them, and bdd_relprod.
--   Solver/Expand is sat2vec and bdd2vec of anders/util.cpp, which make a vector of a set;
--   bdd_allsat, a parameter, comes to the vectors that it passes on, and the cache is left out.
--   Solver/Offsets is the part of pts_init that prepares them, with the cache get_node_var; an access
--   outside a vector is `none`. Solver/Setup is solve_init, with the fields that solve sets first.
--   The loops are over lists, so they need no fuel.
-- - Clump: clump_addr_taken of anders/cons_opt.cpp, over the nodes of Graph.
-- - Rewrite: the loops of merge_ptr_eq and hcd in anders/cons_opt.cpp that rewrite the constraints
--   to refer to the representatives, over UnionFind and Constraint.
-- - ExtInfo: include/extinfo.h and anders/extinfo.cpp, the effects of external functions.
--   ExtInfo/Table is ei_pairs, by blocks. A function of LLVM is a number, and what ExtInfo asks it
--   is the parameter Functions; a cache is an association list.
--
-- A 32-bit number is a natural number; the places where it could wrap are written out, or excluded
-- by the bounds in the invariants. An assertion that fails is `none`, or a hypothesis.
--
-- Not modelled: the front end (anders/obj_cons_id.cpp), which reads LLVM values;
-- the offline optimisations of anders/cons_opt.cpp besides those; the rest of
-- anders/solve.cpp: indirect calls, the main loop and cycle detection; the BDD library BuDDy; the cache of bdd2vec and the memory statistics in anders/util.cpp; printing, profiling
-- and the pass driver.
pub mod Common
pub mod Heap
pub mod Worklist
pub mod Bitmap
pub mod Constraint
pub mod UnionFind
pub mod Graph
pub mod Clump
pub mod Rewrite
pub mod ExtInfo
pub mod Solver
pub mod Tests
