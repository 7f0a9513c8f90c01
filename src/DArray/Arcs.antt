-- ===== src/DArray/Arcs.antt =====
-- About `insert_branch` where the cell for the new arc is free.
use libdatrie_rs.Common.{
  ℕ, zero, suc, ◌+◌, ◌^◌, ◌≤◌, ◌<◌, ◌≡◌, refl, sym, ap, subst, ◌∙◌, ◌⊎◌, true, false, some, List,
  [], ◌∷◌, arith, ◌==◌, length, has, Ascending, has-below, get_elem?-some, Bool-cases, inl, inr,
}
use libdatrie_rs.Common.Int.{◌-ℤ◌, pos, negsuc, +ℤ_pos, -ℤ_pos, ltb_ℤ, eqb_ℤ_refl}
use libdatrie_rs.Common.Run.{ok}
use libdatrie_rs.Types.{TrieIndex, TrieChar, trie_index_max}
use libdatrie_rs.Symbols.{ArrayVec}
use libdatrie_rs.DArray.Cells.{DArray, get_base, get_check, set_check, base_of, check_of, walk}
use libdatrie_rs.DArray.Pool.{extend_pool, check_free_cell}
use libdatrie_rs.DArray.Insert.{claim, is_taken, insert_branch}
use libdatrie_rs.DArray.Fields.{
  link, base_at, check_at, with_check, length-update, update_ne, check_at-with_check,
}
use libdatrie_rs.DArray.Links.{Links-at, behind, behind-above, remove, frame-check}
use libdatrie_rs.DArray.FreeList.{IsPool, Changed, alloc_cell_lem, has-small, has-apart}

pub remove-has : (m x : ℕ) (xs : List ℕ) → Ascending m xs → has x (remove x xs) ≡ false
remove-has m x [] s = refl
remove-has m x (y ∷ ys) s = ground (arith, remove-has (suc y) x ys s.1, has-below (suc y) y ys s.1)

pub has-above : (m x : ℕ) (xs : List ℕ) → Ascending m xs → has x xs ≡ true → m ≤ x
has-above m x [] s h = cc
has-above m x (y ∷ ys) s h = elim (Bool-cases (y == x)) [
  | inl same ↦ ground (arith, s.0)
  | inr other ↦ omega (arith, s.0, has-above (suc y) x ys s.1 (ground arith))
]

pub link-negsuc : (n : ℕ) → 0 < n → (k : ℕ) × (link n ≡ negsuc k)
link-negsuc zero h = elim h [ ]
link-negsuc (suc n) h = (n, refl)

pub above-zero : (n : ℕ) → (n ≡ 1) ⊎ (3 ≤ n) → 0 < n
above-zero n h = ground arith

pub ltb_pos : (b : ℕ) → 0 < b → ltb_ℤ (pos 0) (pos b) ≡ true
ltb_pos b h = ground arith

pub negative : (n : ℕ) → ltb_ℤ (negsuc n) (pos 0) ≡ true
negative n = ground arith

module _ (v : ArrayVec) (self : DArray) (x : ℕ) (xs : List ℕ) (pool : IsPool self xs)
    (free : has x xs ≡ true) where
  x-above : 3 ≤ x
  x-above = has-above 3 x xs pool.sorted free

  x-inside : x < length self.cells
  x-inside = has-small self.cells 1 x xs pool.links free

  claim_lem :
      (s : TrieIndex)
      → (self' : DArray) × (claim v self s (pos x) ≡ ok (self', some (pos x)))
        × IsPool self' (remove x xs)
        × (check_at self'.cells x ≡ some s)
        × Changed self self' (1 ∷ xs)
  unfolding claim set_check
  claim_lem s =
      let (mid, run, pool', changed) = alloc_cell_lem self x xs pool free in
      let (c, here) = get_elem?-some mid.cells x (rw changed.size x-inside) in
      let size : length (with_check mid.cells x s) ≡ length mid.cells =
        length-update mid.cells x _ in
      let out : has x (1 ∷ remove x xs) ≡ false =
        ground (arith, remove-has 3 x xs pool.sorted, x-above) in
      (
        record { cells = with_check mid.cells x s },
        rw run,
        record {
          links = frame-check mid.cells 1 (remove x xs) x s out pool'.links;
          sorted = pool'.sorted;
          small = subst (λ l. l < 2 ^ 31) (sym size) pool'.small;
          enough = subst (λ l. 3 ≤ l) (sym size) pool'.enough;
        },
        check_at-with_check mid.cells x c.check s (ap check_of here),
        record {
          kept = λ k used.
              update_ne mid.cells x k _ (has-apart x k xs free (ground arith))
              ∙ changed.kept k used;
          size = size ∙ changed.size;
        },
      )

  -- The link of a free cell is negative.
  pub free-check : (n : ℕ) × (check_at self.cells x ≡ some (negsuc n))
  free-check =
      let (n, e) = link-negsuc (behind x xs) (above-zero _ (behind-above x 3 xs pool.sorted)) in
      (n, (Links-at self.cells 1 x xs pool.links free).1 ∙ ap some e)

  extend_pool-inside : extend_pool self (pos x) ≡ ok (self, true)
  unfolding extend_pool
  extend_pool-inside = ground (arith, x-above, x-inside, pool.small)

  pub check_free_cell-free : check_free_cell self (pos x) ≡ ok (self, true)
  unfolding check_free_cell get_check
  check_free_cell-free = rw (extend_pool-inside, free-check.1, negative free-check.0)

pub arc-walk :
    (self : DArray) (p b : ℕ) (c : TrieChar)
    → base_at self.cells p ≡ some (pos b)
    → check_at self.cells (b + c) ≡ some (pos p)
    → b + c < 2 ^ 31
    → walk self (pos p) c ≡ ok (some (pos (b + c)))
unfolding walk get_base get_check
arc-walk self p b c base check small = rw (base, +ℤ_pos b c small, check, eqb_ℤ_refl (pos p))

module _ (v : ArrayVec) (self : DArray) (p b : ℕ) (c : TrieChar) (xs : List ℕ)
    (pool : IsPool self xs) (parent : has p (1 ∷ xs) ≡ false)
    (arc : base_at self.cells p ≡ some (pos b)) (positive : 0 < b)
    (free : has (b + c) xs ≡ true) where
  pub next-small : b + c < 2 ^ 31
  next-small = omega (arith, x-inside v self (b + c) xs pool free, pool.small)

  -- The arc as `base` and `check` hold it.
  pub insert_branch-arc :
      (self' : DArray) × (insert_branch v self (pos p) c ≡ ok (self', some (pos (b + c))))
      × IsPool self' (remove (b + c) xs)
      × (base_at self'.cells p ≡ some (pos b))
      × (check_at self'.cells (b + c) ≡ some (pos p))
      × Changed self self' (1 ∷ xs)
  unfolding insert_branch is_taken get_base get_check
  insert_branch-arc =
      let (self', run, pool', there, changed) = claim_lem v self (b + c) xs pool free (pos p) in
      let (n, linked) = free-check v self (b + c) xs pool free in
      let sum = +ℤ_pos b c next-small in
      let fits : ltb_ℤ (trie_index_max -ℤ pos c) (pos b) ≡ false =
        rw (-ℤ_pos 0x7fff_ffff c (omega (arith, next-small)) (omega arith))
          (ground (arith, next-small)) in
      (
        self',
        ground (
          arith,
          arc,
          positive,
          sum,
          linked,
          fits,
          check_free_cell-free v self (b + c) xs pool free,
          run,
        ),
        pool',
        ap base_of (changed.kept p parent) ∙ arc,
        there,
        changed,
      )

  -- At a node with base `b`, whose cell for the label `c` is free, `insert_branch` makes the arc:
  -- `walk` finds it, its cell and no other leaves the list of free cells, and no cell in use has
  -- changed, so all other arcs are as they were.
  pub insert_branch_lem :
      (self' : DArray) × (insert_branch v self (pos p) c ≡ ok (self', some (pos (b + c))))
      × IsPool self' (remove (b + c) xs)
      × (walk self' (pos p) c ≡ ok (some (pos (b + c))))
      × Changed self self' (1 ∷ xs)
  insert_branch_lem =
      let (self', run, pool', base, check, changed) = insert_branch-arc in
      (self', run, pool', arc-walk self' p b c base check next-small, changed)
