-- ===== src/DArray/Cells.antt =====
-- `DArray`, its cells, and the functions that read or write one cell.
use libdatrie_rs.Common.{
  ℕ, Bool, false, Option, none, some, List, [], ◌∷◌, if◌then◌else◌, get_elem?, set,
}
use libdatrie_rs.Common.Int.{pos, negsuc, as_i32, eqb_ℤ, ltb_ℤ, leb_ℤ, ◌+ℤ◌, neg, get?}
use libdatrie_rs.Common.Run.{Run, ok, panic, ◌>>=◌}
use libdatrie_rs.Types.{TrieIndex, TrieChar, trie_index_error}

pub record DaCell : Type 0 where
  pub base : TrieIndex
  pub check : TrieIndex

abbrev pub cell : TrieIndex → TrieIndex → DaCell
cell b c = record { base = b; check = c }

pub record DArray : Type 0 where
  pub cells : List DaCell

abbrev pub da_signature : ℕ
da_signature = 0xdafc_dafc

abbrev pub da_pool_begin : TrieIndex
da_pool_begin = pos 3

unfoldable pub da_default : DArray
da_default = record {
  cells =
      cell (as_i32 da_signature) (pos 3)
      ∷ cell (negsuc 0) (negsuc 0)
      ∷ cell da_pool_begin (pos 0)
      ∷ [];
}

unfoldable pub get_free_list : DArray → TrieIndex
get_free_list self = pos 1

unfoldable pub get_root : DArray → TrieIndex
get_root self = pos 2

-- `Option::unwrap`
abbrev pub unwrap {ℓ} : {A : Type ℓ} → Option A → Run A
unwrap none = panic
unwrap (some a) = ok a

abbrev pub base_of : Option DaCell → Option TrieIndex
base_of none = none
base_of (some v) = some v.base

abbrev pub check_of : Option DaCell → Option TrieIndex
check_of none = none
check_of (some v) = some v.check

unfoldable pub get_base : DArray → TrieIndex → Option TrieIndex
get_base self s = base_of (get? self.cells s)

unfoldable pub get_check : DArray → TrieIndex → Option TrieIndex
get_check self s = check_of (get? self.cells s)

-- `*v.get_mut(i as usize) = …`, which does nothing where there is no such element
abbrev pub update : List DaCell → TrieIndex → (DaCell → DaCell) → List DaCell
update cells (negsuc n) f = cells
update cells (pos n) f = elim (get_elem? cells n) [ none ↦ cells | some v ↦ set cells n (f v) ]

-- The callers do not look at the results `Some(())` and `None` of the two setters.
unfoldable pub set_base : DArray → TrieIndex → TrieIndex → DArray
set_base self s val = record self { cells = update self.cells s (λ v. record v { base = val }) }

unfoldable pub set_check : DArray → TrieIndex → TrieIndex → DArray
set_check self s val = record self { cells = update self.cells s (λ v. record v { check = val }) }

-- `o == Some(s)`
abbrev pub is_some_of : Option TrieIndex → TrieIndex → Bool
is_some_of none s = false
is_some_of (some v) s = eqb_ℤ v s

unfoldable pub walk : DArray → TrieIndex → TrieChar → Run (Option TrieIndex)
walk self s c = do
  base ← unwrap (get_base self s)
  let next = base +ℤ pos c
  ok (if is_some_of (get_check self next) s then some next else none)

unfoldable pub is_separate : DArray → TrieIndex → Run Bool
is_separate self s = do base ← unwrap (get_base self s); ok (ltb_ℤ base (pos 0))

abbrev pub unwrap_or : Option TrieIndex → TrieIndex → TrieIndex
unwrap_or none d = d
unwrap_or (some v) d = v

unfoldable pub is_walkable : DArray → TrieIndex → TrieChar → Bool
is_walkable self s c =
    eqb_ℤ
      (unwrap_or (get_check self (unwrap_or (get_base self s) trie_index_error +ℤ pos c))
        trie_index_error)
      s

unfoldable pub get_tail_index : DArray → TrieIndex → Run TrieIndex
get_tail_index self s = do base ← unwrap (get_base self s); ok (neg base)

unfoldable pub set_tail_index : DArray → TrieIndex → TrieIndex → DArray
set_tail_index self s v = set_base self s (neg v)

abbrev pub min_ℤ : TrieIndex → TrieIndex → TrieIndex
min_ℤ a b = if leb_ℤ a b then a else b
