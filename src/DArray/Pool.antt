-- ===== src/DArray/Pool.antt =====
-- The pool of free cells, and the arcs of a node.
use libdatrie_rs.Common.{
  ℕ, zero, suc, ◌+◌, ◌-◌, ◌%◌, ◌^◌, Bool, true, false, ◌&&◌, ◌||◌, not, Option, none, some, List,
  [], ◌∷◌, ◌++◌, ltb, if◌then◌else◌, length,
}
use libdatrie_rs.Common.Int.{
  pos, pos_part, neg_part, as_i32, as_usize, eqb_ℤ, ltb_ℤ, leb_ℤ, ◌+ℤ◌, ◌-ℤ◌, neg,
}
use libdatrie_rs.Common.Run.{Run, ok, panic, out_of_fuel, ◌>>=◌}
use libdatrie_rs.Types.{TrieIndex, trie_index_max, trie_char_max}
use libdatrie_rs.Symbols.{ArrayVec, Symbols, symbols_default, add_fast}
use libdatrie_rs.DArray.Cells.{
  DaCell, DArray, cell, da_pool_begin, get_free_list, get_base, set_base, get_check, set_check,
  unwrap, is_some_of, min_ℤ,
}

-- `self.cells.len() as TrieIndex`
abbrev pub len : DArray → TrieIndex
len self = as_i32 (length self.cells % 2 ^ 32)

-- The largest label to try under a node with this base.
abbrev pub max_char : DArray → TrieIndex → TrieIndex
max_char self base = min_ℤ (pos trie_char_max) (len self -ℤ base)

-- The rounds of `for c in from..=max_c`.
abbrev pub rounds_to : TrieIndex → TrieIndex → ℕ
rounds_to from max_c = suc (pos_part max_c + neg_part from) - (pos_part from + neg_part max_c)

-- The first of `n` labels, from `c` on, for which there is an arc from `s`.
unfoldable pub find_child : DArray → TrieIndex → TrieIndex → ℕ → TrieIndex → Option TrieIndex
find_child self s base zero c = none
find_child self s base (suc n) c =
    let rest = find_child self s base n (c +ℤ pos 1) in
    if is_some_of (get_check self (base +ℤ c)) s then some c else rest

abbrev pub is_found : Option TrieIndex → Bool
is_found none = false
is_found (some c) = true

children_at : DArray → TrieIndex → Option TrieIndex → Bool
children_at self s none = false
children_at self s (some base) =
    if ltb_ℤ base (pos 0)
    then false
    else is_found (find_child self s base (rounds_to (pos 0) (max_char self base)) (pos 0))

unfoldable pub has_children : DArray → TrieIndex → Bool
unfolding children_at
has_children self s = children_at self s (get_base self s)

-- `to_index - i + 1` new cells, linked to one another.
unfoldable pub new_cells : TrieIndex → TrieIndex → TrieIndex → TrieIndex → ℕ → ℕ → List DaCell
new_cells free_list free_tail new_begin to_index zero i = []
new_cells free_list free_tail new_begin to_index (suc n) i =
    cell (if eqb_ℤ (pos i) new_begin then neg free_tail else neg (pos i -ℤ pos 1))
      (if eqb_ℤ (pos i) to_index then neg free_list else neg (pos i +ℤ pos 1))
    ∷ new_cells free_list free_tail new_begin to_index n (i + 1)

-- `self.cells[0].check = …`
abbrev pub set_header : DArray → DArray
set_header self = set_check self (pos 0) (len self)

unfoldable pub grow_pool : DArray → TrieIndex → Run (DArray × Bool)
grow_pool self to_index =
    let new_begin = len self in
    let free_list = get_free_list self in
    do
      base ← unwrap (get_base self free_list)
      let free_tail = neg base
      let begin = length self.cells
      let grown : DArray = record {
        cells =
            self.cells
            ++ new_cells free_list free_tail new_begin to_index (suc (as_usize to_index) - begin)
                begin;
      }
      let linked = set_base (set_check grown free_tail (neg new_begin)) free_list (neg to_index)
      ok (set_header linked, true)

unfoldable pub extend_pool : DArray → TrieIndex → Run (DArray × Bool)
extend_pool self to_index =
    if ltb_ℤ to_index da_pool_begin || leb_ℤ trie_index_max to_index
    then ok (self, false)
    else if ltb (as_usize to_index) (length self.cells)
    then ok (self, true)
    else grow_pool self to_index

is_free : Option TrieIndex → Bool
is_free none = false
is_free (some v) = ltb_ℤ v (pos 0)

unfoldable pub check_free_cell : DArray → TrieIndex → Run (DArray × Bool)
unfolding is_free
check_free_cell self s = do
  (self, extended) ← extend_pool self s
  ok (self, if extended then is_free (get_check self s) else false)

unfoldable pub alloc_cell : DArray → TrieIndex → Run DArray
alloc_cell self cell = do
  base ← unwrap (get_base self cell)
  check ← unwrap (get_check self cell)
  let prev = neg base
  let next = neg check
  ok (set_base (set_check self prev (neg next)) next (neg prev))

-- `while i != self.get_free_list() && i < cell { i = -self.get_check(i).unwrap(); }`. More rounds
-- than there are cells would come by one of them twice, and so never end.
unfoldable pub find_free : ℕ → DArray → TrieIndex → TrieIndex → Run TrieIndex
find_free zero self bound i = out_of_fuel
find_free (suc fuel) self bound i = elim (not (eqb_ℤ i (get_free_list self)) && ltb_ℤ i bound) [
  | true ↦ (elim (get_check self i) [
    | none ↦ panic
    | some check ↦ find_free fuel self bound (neg check)
  ])
  | false ↦ ok i
]

unfoldable pub free_cell : DArray → TrieIndex → Run DArray
free_cell self cell = do
  first ← unwrap (get_check self (get_free_list self))
  i ← find_free (suc (length self.cells)) self cell (neg first)
  base ← unwrap (get_base self i)
  let prev = neg base
  let self₁ = set_base (set_check self cell (neg i)) cell (neg prev)
  ok (set_base (set_check self₁ prev (neg cell)) i (neg cell))

-- The labels of the arcs from `s`, for `n` labels from `c` on.
unfoldable pub collect_symbols :
    ArrayVec → DArray → TrieIndex → TrieIndex → ℕ → ℕ → Symbols → Run Symbols
collect_symbols v self s base zero c syms = ok syms
collect_symbols v self s base (suc n) c syms =
    elim (is_some_of (get_check self (base +ℤ pos c)) s) [
      | true ↦ (add_fast v syms c >>= collect_symbols v self s base n (c + 1))
      | false ↦ collect_symbols v self s base n (c + 1) syms
    ]

unfoldable pub output_symbols : ArrayVec → DArray → TrieIndex → Run Symbols
output_symbols v self s = do
  base ← unwrap (get_base self s)
  collect_symbols v self s base (rounds_to (pos 0) (max_char self base)) 0 symbols_default
