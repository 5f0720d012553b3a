-- ===== src/Heap.antt =====
-- include/heap.h: the binary min-heap with an index of the position of each value.
pub mod Index
pub mod Order
pub mod Push
pub mod Pop
use ptranalysis.Common.{
  ℕ, zero, suc, ◌+◌, ◌-◌, ◌*◌, ◌/◌, ◌%◌, ◌^◌, List, [], ◌∷◌, ◌++◌, Bool, true, false, Option, none,
  some, ltb, leb, ◌==◌, if◌then◌else◌, get_or, set, drop_last, replicate,
}

-- The index entry of a value that is not in the heap.
abbrev pub no_position : ℕ
no_position = 0xffffffff

-- `hk[0]` and `hv[0]` are padding; `idxv` has an entry for each value up to `maxv`.
pub record Heap : Type 0 where
  pub hk : List ℕ
  pub hv : List ℕ
  pub maxv : ℕ
  pub nv : ℕ
  pub idxv : List ℕ

abbrev pub key : Heap → ℕ → ℕ
key h i = get_or h.hk i 0

abbrev pub value : Heap → ℕ → ℕ
value h i = get_or h.hv i 0

-- Every read of `idxv` has an index of at most `maxv`.
abbrev pub position : Heap → ℕ → ℕ
position h v = get_or h.idxv v no_position

-- The exchange that both percolation loops make, of position `i` and position `j`.
unfoldable pub swap_items : Heap → ℕ → ℕ → Heap
swap_items h i j =
    let v = value h i in
    let vj = value h j in
    record h {
      hk = set (set h.hk j (key h i)) i (key h j);
      hv = set (set h.hv j v) i vj;
      idxv = set (set h.idxv v j) vj i;
    }

unfoldable pub up_loop : ℕ → Heap → ℕ → Heap
up_loop zero h i = h
up_loop (suc fuel) h i =
    let ip = i / 2 in
    let rest = up_loop fuel (swap_items h i ip) ip in
    if ip == 0 then h else if leb (key h ip) (key h i) then h else rest

-- `i` is at least halved by each round.
unfoldable pub perc_up : Heap → ℕ → Heap
unfolding up_loop swap_items
perc_up h i0 = up_loop i0 h i0

-- The child with which the loop compares position `i`.
abbrev pub least_child : Heap → ℕ → ℕ
least_child h i =
    if ltb (i * 2) h.nv
    then if ltb (key h (i * 2 + 1)) (key h (i * 2)) then i * 2 + 1 else i * 2
    else i * 2

unfoldable pub down_loop : ℕ → Heap → ℕ → Heap
down_loop zero h i = h
down_loop (suc fuel) h i =
    let ic = least_child h i in
    let rest = down_loop fuel (swap_items h i ic) ic in
    if ltb h.nv (i * 2) then h else if leb (key h i) (key h ic) then h else rest

-- `i` is at least doubled by each round, and stays at most `nv`.
unfoldable pub perc_dn : Heap → ℕ → Heap
unfolding down_loop swap_items
perc_dn h i0 = down_loop h.nv h i0

-- The words of an array of `(mv+1)*4` bytes, a number of 32 bits.
abbrev pub index_room : ℕ → ℕ
index_room mv = (mv + 1) * 4 % 2 ^ 32 / 4

unfoldable pub new : ℕ → Heap
new mv = record {
  hk = 0 ∷ [];
  hv = 0 ∷ [];
  maxv = mv;
  nv = 0;
  idxv = replicate (index_room mv) no_position;
}

unfoldable pub size : Heap → ℕ
size h = h.nv

unfoldable pub empty : Heap → Bool
empty h = h.nv == 0

-- `v` appended as the last item, before it moves up.
unfoldable pub append_item : Heap → ℕ → ℕ → Heap
append_item h v k = record h {
  hk = h.hk ++ k ∷ [];
  hv = h.hv ++ v ∷ [];
  nv = h.nv + 1;
  idxv = set h.idxv v (h.nv + 1);
}

abbrev pub set_key : Heap → ℕ → ℕ → Heap
set_key h i k = record h { hk = set h.hk i k }

-- The heap after the call, and whether `v` was there before it.
unfoldable pub push : Heap → ℕ → ℕ → Heap × Bool
unfolding append_item perc_up perc_dn
push h v k =
    let i = position h v in
    if i == no_position
    then (perc_up (append_item h v k) (h.nv + 1), false)
    else if k == key h i
    then (h, true)
    else if ltb k (key h i)
    then (perc_up (set_key h i k) i, true)
    else (perc_dn (set_key h i k) i, true)

-- The heap after the first item has left the index.
unfoldable pub remove_first : Heap → Heap
remove_first h = record h { nv = h.nv - 1; idxv = set h.idxv (value h 1) no_position }

-- The last item moved to the top.
unfoldable pub move_last : Heap → Heap
move_last h =
    let lv = value h (h.nv + 1) in
    record h { hk = set h.hk 1 (key h (h.nv + 1)); hv = set h.hv 1 lv; idxv = set h.idxv lv 1 }

abbrev pub trim : Heap → Heap
trim h = record h { hk = drop_last h.hk; hv = drop_last h.hv }

-- The heap after the call, the value and its key; `none` is the failed assertion.
unfoldable pub pop : Heap → Option (Heap × ℕ × ℕ)
unfolding remove_first move_last perc_dn
pop h =
    if h.nv == 0
    then none
    else let v = value h 1 in
      let left = remove_first h in
      let sifted = if left.nv == 0 then left else perc_dn (move_last left) 1 in
      some (trim sifted, v, key h 1)
