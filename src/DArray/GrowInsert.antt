-- ===== src/DArray/GrowInsert.antt =====
-- About `insert_branch` where the cell for the new arc is beyond the end of the pool.
use libdatrie_rs.Common.{
  ℕ, ◌+◌, ◌-◌, ◌^◌, ◌≤◌, ◌<◌, ◌≡◌, sym, ◌∙◌, true, false, some, List, ◌++◌, arith, length, has,
  get_elem?-none,
}
use libdatrie_rs.Common.Int.{◌-ℤ◌, pos, negsuc, +ℤ_pos, -ℤ_pos, ltb_ℤ}
use libdatrie_rs.Common.Run.{ok}
use libdatrie_rs.Types.{TrieChar, trie_index_max}
use libdatrie_rs.Symbols.{ArrayVec}
use libdatrie_rs.DArray.Cells.{DArray, get_base, get_check}
use libdatrie_rs.DArray.Pool.{extend_pool, check_free_cell}
use libdatrie_rs.DArray.Insert.{claim, is_taken, insert_branch}
use libdatrie_rs.DArray.Fields.{base_at, check_at}
use libdatrie_rs.DArray.FreeList.{IsPool}
use libdatrie_rs.DArray.Arcs.{free-check, check_free_cell-free, negative}
use libdatrie_rs.DArray.Grow.{Grown}
use libdatrie_rs.DArray.GrowArcs.{added, now_free, grown-base}

module _ (v : ArrayVec) (self self' : DArray) (p b n : ℕ) (c : TrieChar) (xs : List ℕ)
    (pool : IsPool self xs) (no_base : base_at self.cells 0 ≡ some (negsuc n))
    (header : check_at self.cells 0 ≡ some (pos (length self.cells)))
    (arc : base_at self.cells p ≡ some (pos b)) (positive : 0 < b)
    (beyond : length self.cells ≤ b + c) (top : b + c < 2 ^ 31 - 1)
    (run : extend_pool self (pos (b + c)) ≡ ok (self', true))
    (g : Grown self (b + c) xs self') where
  pub cell-free : has (b + c) (xs ++ added v self self' (b + c) xs pool header beyond g) ≡ true
  cell-free = now_free v self self' (b + c) xs pool header beyond g (b + c) beyond (omega arith)

  abbrev ys : List ℕ
  ys = xs ++ added v self self' (b + c) xs pool header beyond g

  fits : ltb_ℤ (trie_index_max -ℤ pos c) (pos b) ≡ false
  fits = rw (-ℤ_pos 0x7fff_ffff c (omega arith) (omega arith)) (ground arith)

  before : insert_branch v self (pos p) c ≡ claim v self' (pos p) (pos (b + c))
  unfolding insert_branch is_taken check_free_cell get_base get_check
  before =
      let sum = +ℤ_pos b c (omega arith) in
      let gone = get_elem?-none self.cells (b + c) beyond in
      let (k, linked) = free-check v self' (b + c) ys g.pool cell-free in
      ground (arith, arc, positive, sum, gone, fits, run, linked, negative k)

  after : insert_branch v self' (pos p) c ≡ claim v self' (pos p) (pos (b + c))
  unfolding insert_branch is_taken get_base get_check
  after =
      let sum = +ℤ_pos b c (omega arith) in
      let (k, linked) = free-check v self' (b + c) ys g.pool cell-free in
      let base = grown-base v self self' (b + c) xs pool header beyond g n no_base p b arc in
      ground (
        arith,
        base,
        positive,
        sum,
        linked,
        fits,
        check_free_cell-free v self' (b + c) ys g.pool cell-free,
      )

  -- `insert_branch` is what it is in the extended pool.
  pub insert_branch-grown : insert_branch v self (pos p) c ≡ insert_branch v self' (pos p) c
  insert_branch-grown = before ∙ sym after
