-- ===== src/DArray/FreeList.antt =====
-- About `alloc_cell` and `free_cell`, and the circular list of free cells.
use libdatrie_rs.Common.{
  ℕ, suc, ◌^◌, ◌≤◌, ◌<◌, ◌≡◌, refl, sym, ap, subst, ◌∙◌, ◌≢◌, true, false, some, List, [], ◌∷◌,
  arith, ◌==◌, length, has, Ascending, place, place-Ascending, Ascending-weaken, get_elem?,
  get_elem?-some, Bool-cases, inl, inr,
}
use libdatrie_rs.Common.Int.{pos}
use libdatrie_rs.Common.Run.{ok}
use libdatrie_rs.Types.{TrieIndex}
use libdatrie_rs.DArray.Cells.{
  DaCell, DArray, get_free_list, get_base, get_check, set_base, set_check, base_of, check_of,
}
use libdatrie_rs.DArray.Pool.{alloc_cell, free_cell}
use libdatrie_rs.DArray.Fields.{
  link, neg-pos_link, neg-link, check_at, with_base, with_check, length-update, update_ne,
}
use libdatrie_rs.DArray.Links.{
  Links, Links-first, Links-at, Links-remove, first_of, before, behind, remove, unlinked,
}
use libdatrie_rs.DArray.Place.{
  stop, below, placed, Links-place, base_at-lt, first_of-small, find_free_lem, base_at-stop,
  Links-short,
}

-- The free cells are `xs`, ascending, in the circular list that cell 1 heads; the header, the head
-- and the root are there.
pub record IsPool (self : DArray) (xs : List ℕ) : Type 0 where
  pub links : Links self.cells 1 xs
  pub sorted : Ascending 3 xs
  pub small : length self.cells < 2 ^ 31
  pub enough : 3 ≤ length self.cells

-- From `self` to `self'` only the cells `touched` have changed, and there are as many.
pub record Changed (self self' : DArray) (touched : List ℕ) : Type 0 where
  pub kept : (k : ℕ) → has k touched ≡ false → get_elem? self'.cells k ≡ get_elem? self.cells k
  pub size : length self'.cells ≡ length self.cells

before-has : (x a : ℕ) (xs : List ℕ) → has (before x a xs) (a ∷ xs) ≡ true
before-has x a [] = ground arith
before-has x a (y ∷ ys) = ground (arith, before-has x y ys)

behind-has : (x : ℕ) (xs : List ℕ) → has (behind x xs) (1 ∷ xs) ≡ true
behind-has x [] = refl
behind-has x (y ∷ []) = ground arith
behind-has x (y ∷ z ∷ zs) = ground (arith, behind-has x (z ∷ zs))

below-has : (x a : ℕ) (xs : List ℕ) → has (below x a xs) (a ∷ xs) ≡ true
below-has x a [] = ground arith
below-has x a (y ∷ ys) = ground (arith, below-has x y ys)

stop-has : (x : ℕ) (xs : List ℕ) → has (stop x xs) (1 ∷ xs) ≡ true
stop-has x [] = refl
stop-has x (y ∷ ys) = ground (arith, stop-has x ys)

pub has-apart : (i k : ℕ) (xs : List ℕ) → has i xs ≡ true → has k xs ≡ false → i ≢ k
has-apart i k xs h out e = cc

pub remove-Ascending : (m x : ℕ) (xs : List ℕ) → Ascending m xs → Ascending m (remove x xs)
remove-Ascending m x [] s = tt
remove-Ascending m x (y ∷ ys) s =
    ground (arith, remove-Ascending (suc y) x ys s.1, Ascending-weaken (suc y) m ys s.1)

two :
    (cells : List DaCell) (p n k : ℕ) (u v : TrieIndex)
    → p ≢ k
    → n ≢ k
    → get_elem? (with_base (with_check cells p u) n v) k ≡ get_elem? cells k
two cells p n k u v pk nk = update_ne (with_check cells p u) n k _ nk ∙ update_ne cells p k _ pk

two-size :
    (cells : List DaCell) (p n : ℕ) (u v : TrieIndex)
    → length (with_base (with_check cells p u) n v) ≡ length cells
two-size cells p n u v = length-update (with_check cells p u) n _ ∙ length-update cells p _

pub has-small :
    (cells : List DaCell) (a x : ℕ) (xs : List ℕ)
    → Links cells a xs
    → has x xs ≡ true
    → x < length cells
has-small cells a x xs h p = base_at-lt cells x _ (Links-at cells a x xs h p).0

module _ (self : DArray) (x : ℕ) (xs : List ℕ) (pool : IsPool self xs) where
  -- A cell of the list, or its head, has an index that `i32` holds.
  index-small : (i : ℕ) → has i (1 ∷ xs) ≡ true → i < 2 ^ 31
  index-small i h = elim (Bool-cases (1 == i)) [
    | inl one ↦ ground arith
    | inr other ↦ omega (arith, has-small self.cells 1 i xs pool.links (ground arith), pool.small)
  ]

  -- `alloc_cell` of a free cell takes it, and no other, out of the list, and changes only free
  -- cells and the head.
  pub alloc_cell_lem :
      has x xs ≡ true
      → (self' : DArray) × (alloc_cell self (pos x) ≡ ok self')
        × IsPool self' (remove x xs)
        × Changed self self' (1 ∷ xs)
  unfolding alloc_cell get_base get_check set_base set_check
  alloc_cell_lem free =
      let p = before x 1 xs in
      let n = behind x xs in
      let p-small = index-small p (before-has x 1 xs) in
      let n-small = index-small n (behind-has x xs) in
      let (b, c) = Links-at self.cells 1 x xs pool.links free in
      (
        record { cells = unlinked self.cells p n },
        rw (
          b,
          c,
          neg-link p p-small,
          neg-link n n-small,
          neg-pos_link n n-small,
          neg-pos_link p p-small,
        ),
        record {
          links =
              Links-remove self.cells 1 x xs (omega arith) pool.links
                (Ascending-weaken 3 2 xs pool.sorted (omega arith)) free;
          sorted = remove-Ascending 3 x xs pool.sorted;
          small = subst (λ l. l < 2 ^ 31) (sym (two-size self.cells p n _ _)) pool.small;
          enough = subst (λ l. 3 ≤ l) (sym (two-size self.cells p n _ _)) pool.enough;
        },
        record {
          kept = λ k out.
              two self.cells p n k _ _ (has-apart p k (1 ∷ xs) (before-has x 1 xs) out)
                (has-apart n k (1 ∷ xs) (behind-has x xs) out);
          size = two-size self.cells p n _ _;
        },
      )

  -- `free_cell` of a cell in use puts it in its place in the list, changes only this cell, free
  -- cells and the head, and ends its search within the fuel.
  pub free_cell_lem :
      3 ≤ x
      → x < length self.cells
      → has x xs ≡ false
      → (self' : DArray) × (free_cell self (pos x) ≡ ok self')
        × IsPool self' (place x xs)
        × Changed self self' (1 ∷ x ∷ xs)
  unfolding free_cell get_base get_check set_base set_check get_free_list
  free_cell_lem above inside used =
      let p = below x 1 xs in
      let n = stop x xs in
      let first = first_of xs in
      let p-small = index-small p (below-has x 1 xs) in
      let n-small = index-small n (stop-has x xs) in
      let first-small = first_of-small self.cells 1 xs pool.links pool.small in
      let (c, here) = get_elem?-some self.cells x inside in
      let own = with_base (with_check self.cells x (link n)) x (link p) in
      let head : check_at self.cells 1 ≡ some (link first) =
        Links-first self.cells 1 xs pool.links in
      let found =
        find_free_lem (suc (length self.cells)) self 1 x xs pool.links
          (Ascending-weaken 3 2 xs pool.sorted (omega arith)) pool.small
          (omega (arith, Links-short self.cells 1 3 xs pool.links pool.sorted (omega arith))) in
      let size : length (placed self.cells x p n) ≡ length self.cells =
        two-size own p n (link x) (link x) ∙ two-size self.cells x x (link n) (link p) in
      (
        record { cells = placed self.cells x p n },
        rw (
          head,
          neg-link first first-small,
          found,
          base_at-stop self.cells 1 x xs pool.links,
          neg-link p p-small,
          neg-pos_link n n-small,
          neg-pos_link p p-small,
          neg-pos_link x (omega (arith, inside, pool.small)),
        ),
        record {
          links =
              Links-place self.cells 1 x xs c.check c.base (omega arith) (omega arith) pool.links
                (Ascending-weaken 3 2 xs pool.sorted (omega arith)) used (ap check_of here)
                (ap base_of here);
          sorted = place-Ascending 3 x xs pool.sorted above used;
          small = subst (λ l. l < 2 ^ 31) (sym size) pool.small;
          enough = subst (λ l. 3 ≤ l) (sym size) pool.enough;
        },
        record {
          kept = λ k out.
              two own p n k _ _ (has-apart p k (1 ∷ xs) (below-has x 1 xs) (ground arith))
                (has-apart n k (1 ∷ xs) (stop-has x xs) (ground arith))
              ∙ two self.cells x x k _ _ (λ e. ground arith) (λ e. ground arith);
          size = size;
        },
      )
