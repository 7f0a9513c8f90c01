-- ===== src/DArray/Insert.antt =====
-- `insert_branch`, with the search for a free place and the relocation of a node's children.
use libdatrie_rs.Common.{
  ℕ, zero, suc, ◌+◌, Bool, true, false, not, Option, none, some, List, [], ◌∷◌, if◌then◌else◌,
  length,
}
use libdatrie_rs.Common.Int.{pos, eqb_ℤ, ltb_ℤ, ◌+ℤ◌, ◌-ℤ◌, neg}
use libdatrie_rs.Common.Run.{Run, ok, out_of_fuel, ◌>>=◌}
use libdatrie_rs.Types.{TrieIndex, TrieChar, trie_index_max}
use libdatrie_rs.Symbols.{ArrayVec, Symbols, symbols_default, add, get, iter}
use libdatrie_rs.DArray.Cells.{
  DArray, da_pool_begin, get_free_list, get_base, set_base, get_check, set_check, unwrap,
  is_some_of,
}
use libdatrie_rs.DArray.Pool.{
  len, max_char, rounds_to, extend_pool, check_free_cell, alloc_cell, find_free, free_cell,
  output_symbols,
}

-- The loop of `fit_symbols` over the symbols that are left.
unfoldable pub fit_symbols : DArray → TrieIndex → List TrieChar → Run (DArray × Bool)
fit_symbols self base [] = ok (self, true)
fit_symbols self base (sym ∷ syms) = elim (ltb_ℤ (trie_index_max -ℤ pos sym) base) [
  | true ↦ ok (self, false)
  | false ↦ (do
    (self, free) ← check_free_cell self (base +ℤ pos sym)
    elim free [ true ↦ fit_symbols self base syms | false ↦ ok (self, false) ])
]

-- `loop { extend_pool(s)?; if get_check(s) < 0 { break }; s += 1 }`
unfoldable pub first_after : ℕ → DArray → TrieIndex → Run (DArray × Option TrieIndex)
first_after zero self s = out_of_fuel
first_after (suc fuel) self s = do
  (self, extended) ← extend_pool self s
  elim extended [
    | false ↦ ok (self, none)
    | true ↦ (do
      check ← unwrap (get_check self s)
      elim (ltb_ℤ check (pos 0)) [
        | true ↦ ok (self, some s)
        | false ↦ first_after fuel self (s +ℤ pos 1)
      ])
  ]

-- The search for the next free cell whose base fits the symbols; the pool is extended before the
-- last free cell is passed.
unfoldable pub search_fit :
    ℕ → DArray → TrieIndex → Symbols → TrieIndex → Run (DArray × Option TrieIndex)
search_fit zero self first_sym symbols s = out_of_fuel
search_fit (suc fuel) self first_sym symbols s = do
  (self, fits) ← fit_symbols self (s -ℤ first_sym) (iter symbols)
  elim fits [
    | true ↦ ok (self, some (s -ℤ first_sym))
    | false ↦ (do
      check ← unwrap (get_check self s)
      (self, extended) ←
          (if eqb_ℤ (neg check) (get_free_list self)
            then extend_pool self (len self)
            else ok (self, true))
      elim extended [
        | false ↦ ok (self, none)
        | true ↦ (do
          check ← unwrap (get_check self s)
          search_fit fuel self first_sym symbols (neg check))
      ])
  ]

-- The first loop walks the free list, the second passes cells in use up to the end of the pool,
-- and beyond the end all cells are free: so many rounds are enough.
unfoldable pub find_free_base : DArray → Symbols → Run (DArray × Option TrieIndex)
find_free_base self symbols = do
  sym ← unwrap (get symbols 0)
  let first_sym = pos sym
  check ← unwrap (get_check self (get_free_list self))
  s ← find_free (suc (length self.cells)) self (first_sym +ℤ da_pool_begin) (neg check)
  (self, start) ←
      (if eqb_ℤ s (get_free_list self)
        then first_after (length self.cells + 2) self (first_sym +ℤ da_pool_begin)
        else ok (self, some s))
  elim start [
    | none ↦ ok (self, none)
    | some s ↦ search_fit (length self.cells + 2) self first_sym symbols s
  ]

-- `for c in 0..=max_c`: the children of `old_next` become those of `new_next`.
unfoldable pub move_children : TrieIndex → TrieIndex → TrieIndex → ℕ → ℕ → DArray → DArray
move_children base old_next new_next zero c self = self
move_children base old_next new_next (suc n) c self =
    move_children base old_next new_next n (c + 1) (
      if is_some_of (get_check self (base +ℤ pos c)) old_next
      then set_check self (base +ℤ pos c) new_next
      else self)

-- The body of the loop in `relocate_base`, for the symbol `sym`.
unfoldable pub relocate_symbol : TrieIndex → TrieIndex → TrieIndex → TrieChar → DArray → Run DArray
relocate_symbol s old_base new_base sym self =
    let old_next = old_base +ℤ pos sym in
    let new_next = new_base +ℤ pos sym in
    do
      old_next_base ← unwrap (get_base self old_next)
      self ← alloc_cell self new_next
      let copied = set_base (set_check self new_next s) new_next old_next_base
      free_cell
          (if ltb_ℤ (pos 0) old_next_base
            then move_children old_next_base old_next new_next
                (rounds_to (pos 0) (max_char copied old_next_base)) 0 copied
            else copied)
          old_next

unfoldable pub relocate_symbols :
    TrieIndex → TrieIndex → TrieIndex → List TrieChar → DArray → Run DArray
relocate_symbols s old_base new_base [] self = ok self
relocate_symbols s old_base new_base (sym ∷ syms) self =
    relocate_symbol s old_base new_base sym self >>= relocate_symbols s old_base new_base syms

module _ (v : ArrayVec) where
  unfoldable pub relocate_base : DArray → TrieIndex → TrieIndex → Run DArray
  relocate_base self s new_base = do
    old_base ← unwrap (get_base self s)
    symbols ← output_symbols v self s
    self ← relocate_symbols s old_base new_base (iter symbols) self
    ok (set_base self s new_base)

  -- `alloc_cell(next); set_check(next, s); Some(next)`
  unfoldable pub claim : DArray → TrieIndex → TrieIndex → Run (DArray × Option TrieIndex)
  claim self s next = do self ← alloc_cell self next; ok (set_check self next s, some next)

  -- The cell for the new arc is taken, so the node's children move to a new base.
  unfoldable pub insert_relocated : DArray → TrieIndex → TrieChar → Run (DArray × Option TrieIndex)
  insert_relocated self s c = do
    symbols ← output_symbols v self s
    symbols ← add v symbols c
    (self, found) ← find_free_base self symbols
    elim found [
      | none ↦ ok (self, none)
      | some new_base ↦ (do self ← relocate_base self s new_base; claim self s (new_base +ℤ pos c))
    ]

  -- The node has no arcs yet.
  unfoldable pub insert_first : DArray → TrieIndex → TrieChar → Run (DArray × Option TrieIndex)
  insert_first self s c = do
    symbols ← add v symbols_default c
    (self, found) ← find_free_base self symbols
    elim found [
      | none ↦ ok (self, none)
      | some new_base ↦ claim (set_base self s new_base) s (new_base +ℤ pos c)
    ]

  -- `base > TRIE_INDEX_MAX - c || !self.check_free_cell(next)`
  unfoldable pub is_taken : DArray → TrieIndex → TrieChar → Run (DArray × Bool)
  is_taken self base c = elim (ltb_ℤ (trie_index_max -ℤ pos c) base) [
    | true ↦ ok (self, true)
    | false ↦ (do (self, free) ← check_free_cell self (base +ℤ pos c); ok (self, not free))
  ]

  unfoldable pub insert_branch : DArray → TrieIndex → TrieChar → Run (DArray × Option TrieIndex)
  insert_branch self s c = do
    base ← unwrap (get_base self s)
    elim (ltb_ℤ (pos 0) base) [
      | true ↦
          (let next = base +ℤ pos c in
            elim (is_some_of (get_check self next) s) [
              | true ↦ ok (self, some next)
              | false ↦ (do
                (self, taken) ← is_taken self base c
                elim taken [ true ↦ insert_relocated self s c | false ↦ claim self s next ])
            ])
      | false ↦ insert_first self s c
    ]
