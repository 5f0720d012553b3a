-- ===== src/ExtInfo/Cache.antt =====
-- The cache of ExtInfo::is_ext changes no answer.
use ptranalysis.Common.{ℕ, ◌≡◌, refl, ap, Bool, some, List, ◌∷◌, arith, Option-cases, inl, inr}
use ptranalysis.ExtInfo.{ExtInfo, Functions, find_cached, is_ext, compute_ext, get_type}

-- Every answer in the cache is the computed one.
abbrev pub IsCached : Functions → ExtInfo → Type 0
IsCached fs e = (f : ℕ) (b : Bool) → find_cached f e.isext_cache ≡ some b → b ≡ compute_ext fs e f

-- The computed answer does not depend on the cache.
compute_ext-cache :
    (fs : Functions) (e : ExtInfo) (c : List (ℕ × Bool)) (f : ℕ)
    → compute_ext fs (record e { isext_cache = c }) f ≡ compute_ext fs e f
unfolding compute_ext get_type
compute_ext-cache fs e c f = refl

-- `is_ext` answers what it computes without the cache, whatever calls filled the cache, and keeps
-- the cache right and the known types.
pub is_ext-IsCached :
    (fs : Functions) (e : ExtInfo) (f : ℕ)
    → IsCached fs e
    → ((is_ext fs e f).1 ≡ compute_ext fs e f)
      × IsCached fs (is_ext fs e f).0
      × ((is_ext fs e f).0.info ≡ e.info)
unfolding is_ext
is_ext-IsCached fs e f ok = elim (Option-cases (find_cached f e.isext_cache)) [
  | inl miss ↦
      rw (miss, is_ext)
        (
          refl,
          λ g b h.
              unfold find_cached in
              ground (
                arith,
                compute_ext-cache fs e ((f, compute_ext fs e f) ∷ e.isext_cache) g,
                ok g b,
                ap (λ (x : ℕ). compute_ext fs e x) {x = f} {y = g},
              ),
          refl,
        )
  | inr (b, hit) ↦ rw (hit, is_ext) (ok f b hit, ok, refl)
]
