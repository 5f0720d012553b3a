-- ===== src/Tests/Functions.antt =====
-- Runs of include/extinfo.h.
use ptranalysis.Common.{◌≡◌, refl, true, false, none, some, [], ◌∷◌, arith, ◌==◌, if◌then◌else◌}
use ptranalysis.ExtInfo
use ptranalysis.ExtInfo.{ExtInfo, Functions, find, is_ext, compute_ext, get_type}
use ptranalysis.ExtInfo.Types.{nostruct_alloc, other}
use ptranalysis.ExtInfo.Table.{ei_pairs}
use ptranalysis.ExtInfo.Lookup.{get_type-new}
use ptranalysis.ExtInfo.Cache.{IsCached, is_ext-IsCached}

-- The module has mmap at address 1, and a function of its own at every other address.
abbrev some_functions : Functions
some_functions = record {
  get_name = λ f. if f == 1 then "mmap" else "main";
  is_declaration = λ f. f == 1;
  is_intrinsic = λ f. false;
}

get_type-new_example :
    (e : ExtInfo) × (ExtInfo.new ≡ some e)
    × (get_type some_functions e 1
        ≡ elim (find (some_functions.get_name 1) ei_pairs) [ none ↦ other | some t ↦ t ])
get_type-new_example = get_type-new some_functions 1

mmap_found : find "mmap" ei_pairs ≡ some nostruct_alloc
unfolding find ei_pairs
mmap_found = refl

-- Nothing is known, and one answer is in the cache.
abbrev asked : ExtInfo
asked = record { info = ("mmap", nostruct_alloc) ∷ []; isext_cache = (1, true) ∷ [] }

asked-IsCached : IsCached some_functions asked
unfolding ExtInfo.find_cached compute_ext
asked-IsCached f b h = ground arith

is_ext-IsCached_example :
    ((is_ext some_functions asked 2).1 ≡ compute_ext some_functions asked 2)
    × IsCached some_functions (is_ext some_functions asked 2).0
    × ((is_ext some_functions asked 2).0.info ≡ asked.info)
is_ext-IsCached_example = is_ext-IsCached some_functions asked 2 asked-IsCached
