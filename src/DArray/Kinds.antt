-- ===== src/DArray/Kinds.antt =====
-- About the two kinds of nodes: a separate one, with a tail block, and one with a base for its arcs.
use libdatrie_rs.Common.{ℕ, suc, ◌^◌, ◌<◌, ◌≡◌, true, false, some, arith}
use libdatrie_rs.Common.Int.{pos, negsuc, neg-negsuc}
use libdatrie_rs.Common.Run.{ok}
use libdatrie_rs.DArray.Cells.{DArray, get_base, is_separate, get_tail_index}
use libdatrie_rs.DArray.Fields.{base_at}

module _ (self : DArray) (x : ℕ) where
  pub is_separate-leaf :
      (i : ℕ) → base_at self.cells x ≡ some (negsuc i) → is_separate self (pos x) ≡ ok true
  unfolding is_separate get_base
  is_separate-leaf i e = rw e (ground arith)

  pub is_separate-inner :
      (b : ℕ) → base_at self.cells x ≡ some (pos b) → is_separate self (pos x) ≡ ok false
  unfolding is_separate get_base
  is_separate-inner b e = rw e (ground arith)

  pub get_tail_index-leaf :
      (i : ℕ)
      → base_at self.cells x ≡ some (negsuc i)
      → suc i < 2 ^ 31
      → get_tail_index self (pos x) ≡ ok (pos (suc i))
  unfolding get_tail_index get_base
  get_tail_index-leaf i e small = rw (e, neg-negsuc i (omega (arith, small)))
