-- ===== src/ExtInfo.antt =====
-- include/extinfo.h and ExtInfo::init of anders/extinfo.cpp: what is known of external functions. A
-- function of LLVM is its address, with the name and the two flags as parameters.
pub mod Types
pub mod Table
pub mod Lookup
pub mod Cache
use Prim.Native.String.{String}
use text.Mathlib.Text.{◌==◌ as str_eq}
use ptranalysis.Common.{
  ℕ, Bool, true, false, not, ◌&&◌, ◌||◌, Option, none, some, List, [], ◌∷◌, ◌==◌, if◌then◌else◌,
}
use Types.{ExtType, noop, alloc, realloc, nostruct_alloc, stat, stat2, other, same_type}
use Table.{ei_pairs}

-- The functions of the LLVM module.
pub record Functions : Type 0 where
  pub get_name : ℕ → String
  pub is_declaration : ℕ → Bool
  pub is_intrinsic : ℕ → Bool

pub record ExtInfo : Type 0 where
  pub info : List (String × ExtType)
  pub isext_cache : List (ℕ × Bool)

-- `info.find(n)`
unfoldable pub find : String → List (String × ExtType) → Option ExtType
find n [] = none
find n ((m, t) ∷ ps) = if str_eq n m then some t else find n ps

-- `info.count(n)`, as a test.
unfoldable pub count : String → List (String × ExtType) → Bool
count n [] = false
count n ((m, t) ∷ ps) = str_eq n m || count n ps

-- `t_seen.count(t)`, as a test.
unfoldable pub is_seen : ExtType → List ExtType → Bool
is_seen t [] = false
is_seen t (s ∷ ss) = same_type t s || is_seen t ss

-- The loop over the table from a set `t_seen`, a type `prev_t` and a map; `none` is a failed assertion.
unfoldable pub init_loop :
    List ExtType
    → ExtType
    → List (String × ExtType)
    → List (String × ExtType)
    → Option (List (String × ExtType))
unfolding count is_seen
init_loop t_seen prev_t info [] = some info
init_loop t_seen prev_t info ((n, t) ∷ ps) =
    let rest = init_loop (if same_type t prev_t then t_seen else t ∷ t_seen) t ((n, t) ∷ info) ps in
    if not (same_type t prev_t) && is_seen t t_seen
    then none
    else if count n info
    then none
    else rest

unfoldable pub init : Option (List (String × ExtType))
init = init_loop (noop ∷ []) noop [] ei_pairs

-- The constructor.
unfoldable pub new : Option ExtInfo
new = elim init [ none ↦ none | some m ↦ some (record { info = m; isext_cache = [] }) ]

-- `isext_cache.find(f)`
unfoldable pub find_cached : ℕ → List (ℕ × Bool) → Option Bool
find_cached f [] = none
find_cached f ((g, b) ∷ c) = if f == g then some b else find_cached f c

module _ (fs : Functions) where
  unfoldable pub get_type : ExtInfo → ℕ → ExtType
  get_type e f = elim (find (fs.get_name f) e.info) [ none ↦ other | some t ↦ t ]

  unfoldable pub has_static : ExtInfo → ℕ → Bool
  has_static e f = let t = get_type e f in same_type t stat || same_type t stat2

  unfoldable pub has_static2 : ExtInfo → ℕ → Bool
  has_static2 e f = same_type (get_type e f) stat2

  unfoldable pub is_alloc : ExtInfo → ℕ → Bool
  is_alloc e f = let t = get_type e f in same_type t alloc || same_type t nostruct_alloc

  unfoldable pub no_struct_alloc : ExtInfo → ℕ → Bool
  no_struct_alloc e f = same_type (get_type e f) nostruct_alloc

  unfoldable pub is_noop : ExtInfo → ℕ → Bool
  is_noop e f = same_type (get_type e f) noop

  -- What `is_ext` computes for a function that is not in the cache.
  unfoldable pub compute_ext : ExtInfo → ℕ → Bool
  compute_ext e f =
      if fs.is_declaration f || fs.is_intrinsic f
      then true
      else let t = get_type e f in
        same_type t alloc || same_type t realloc || same_type t nostruct_alloc || same_type t noop

  -- The information with its cache after the call, and the answer.
  unfoldable pub is_ext : ExtInfo → ℕ → ExtInfo × Bool
  is_ext e f = elim (find_cached f e.isext_cache) [
    | some b ↦ (e, b)
    | none ↦ let res = compute_ext e f in (record e { isext_cache = (f, res) ∷ e.isext_cache }, res)
  ]
