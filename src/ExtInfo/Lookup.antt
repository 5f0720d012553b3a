-- ===== src/ExtInfo/Lookup.antt =====
-- The map that ExtInfo::init builds is the table.
use Prim.Native.String.{String}
use text.Mathlib.Text.{◌==◌ as str_eq}
use text.Mathlib.TextEquality.{eq_iff}
use ptranalysis.Common.{
  ℕ, ◌≡◌, inl, inr, refl, ap, ◌∙◌, Bool, true, false, Option, none, some, List, [], ◌∷◌, arith,
  if◌then◌else◌, Option-cases, Bool-cases,
}
use ptranalysis.ExtInfo.Types.{ExtType, noop, other, same_type}
use ptranalysis.ExtInfo.Table.{ei_pairs}
use ptranalysis.ExtInfo.{ExtInfo, Functions, find, count, init_loop, init, new, get_type}

-- The entry of `n`, in the first list or else in the second one.
abbrev or_else : Option ExtType → Option ExtType → Option ExtType
or_else none b = b
or_else (some t) b = some t

count-find : (n : String) (ps : List (String × ExtType)) → count n ps ≡ false → find n ps ≡ none
unfolding count find
count-find n [] h = refl
count-find n ((m, t) ∷ ps) h = ground (arith, count-find n ps)

-- What the assertions of a round leave.
init_loop_step :
    (ss : List ExtType) (p : ExtType) (info : List (String × ExtType)) (m : String) (t : ExtType)
    (ps : List (String × ExtType)) {result : List (String × ExtType)}
    → init_loop ss p info ((m, t) ∷ ps) ≡ some result
    → (count m info ≡ false)
      × (init_loop (if same_type t p then ss else t ∷ ss) t ((m, t) ∷ info) ps ≡ some result)
unfolding init_loop
init_loop_step ss p info m t ps h = ground arith

-- When the loop succeeds, a name that is in the map is not in the rest of the table.
init_loop_fresh :
    (ss : List ExtType) (p : ExtType) (info ps : List (String × ExtType))
    {result : List (String × ExtType)} (n : String)
    → init_loop ss p info ps ≡ some result
    → count n info ≡ true
    → find n ps ≡ none
unfolding find count
init_loop_fresh ss p info [] n h c = refl
init_loop_fresh ss p info ((m, t) ∷ ps) n h c =
    let (fresh, rest) = init_loop_step ss p info m t ps h in
    let ih =
      init_loop_fresh (if same_type t p then ss else t ∷ ss) t ((m, t) ∷ info) ps n rest
        (ground arith) in
    ground (arith, ih, eq_iff n m, ap (λ (x : String). count x info) {x = n} {y = m})

-- When the loop succeeds, the map has the entries of the table and those that it had.
init_loop-find :
    (ss : List ExtType) (p : ExtType) (info ps : List (String × ExtType))
    {result : List (String × ExtType)} (n : String)
    → init_loop ss p info ps ≡ some result
    → find n result ≡ or_else (find n ps) (find n info)
unfolding find
init_loop-find ss p info [] n h = unfold init_loop in ground arith
init_loop-find ss p info ((m, t) ∷ ps) n h =
    let (fresh, rest) = init_loop_step ss p info m t ps h in
    init_loop-find (if same_type t p then ss else t ∷ ss) t ((m, t) ∷ info) ps n rest
    ∙ elim (Bool-cases (str_eq n m)) [
      | inl e ↦
          let absent =
            init_loop_fresh (if same_type t p then ss else t ∷ ss) t ((m, t) ∷ info) ps n rest
              (unfold count in ground arith) in
          rw (e, absent) refl
      | inr d ↦ rw d refl
    ]

init_succeeds : (m : List (String × ExtType)) × (init ≡ some m)
init_succeeds = elim (Option-cases init) [
  | inl fails ↦ absurd (cc (fails, runs))
  | inr found ↦ found
]
  where
    is_some : Option (List (String × ExtType)) → Bool
    is_some none = false
    is_some (some m) = true

    runs : is_some init ≡ true
    runs = unfold init init_loop ei_pairs in refl

opened :
    (m : List (String × ExtType)) → init ≡ some m → init_loop (noop ∷ []) noop [] ei_pairs ≡ some m
unfolding init
opened m e = e

or_else-none : (n : String) (o : Option ExtType) → or_else o (find n []) ≡ o
unfolding find
or_else-none n none = refl
or_else-none n (some t) = refl

-- No assertion of ExtInfo::init fails on the table. The type of a function is the one that the table
-- has for its name, and EFT_OTHER if the table has none.
pub get_type-new :
    (fs : Functions) (f : ℕ)
    → (e : ExtInfo) × (new ≡ some e)
      × (get_type fs e f ≡ elim (find (fs.get_name f) ei_pairs) [ none ↦ other | some t ↦ t ])
unfolding new get_type
get_type-new fs f =
    let (m, e) = init_succeeds in
    let same : find (fs.get_name f) m ≡ find (fs.get_name f) ei_pairs = entry m e in
    (record { info = m; isext_cache = [] }, rw (e, new) refl, rw (same, get_type) refl)
  where
    entry :
        (m : List (String × ExtType))
        → init ≡ some m
        → find (fs.get_name f) m ≡ find (fs.get_name f) ei_pairs
    entry m e =
        init_loop-find (noop ∷ []) noop [] ei_pairs (fs.get_name f) (opened m e)
        ∙ or_else-none (fs.get_name f) (find (fs.get_name f) ei_pairs)
