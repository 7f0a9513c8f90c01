-- ===== src/DArray/Grow.antt =====
-- `extend_pool` on a pool that is too short.
use libdatrie_rs.Common.{
  ℕ, suc, ◌+◌, ◌-◌, ◌^◌, ◌≤◌, ◌<◌, ◌≡◌, sym, ap, subst, ◌∙◌, ◌≢◌, true, false, some, List, ◌∷◌,
  ◌++◌, arith, length, has, Ascending-weaken, get_elem?, get_elem?-some, get_elem?-append_left,
  length-append,
}
use libdatrie_rs.Common.Int.{pos, as_i32-small}
use libdatrie_rs.Common.Run.{ok}
use libdatrie_rs.DArray.Cells.{
  DaCell, DArray, get_free_list, get_base, set_base, set_check, base_of, check_of,
}
use libdatrie_rs.DArray.Pool.{new_cells, grow_pool, extend_pool}
use libdatrie_rs.DArray.Fields.{
  link, neg-pos_link, neg-link, base_at, check_at, with_base, with_check, length-update, update_ne,
  check_at-with_check, base_at-with_base, check_at-ne, base_at-ne, check_at-with_base,
  base_at-with_check,
}
use libdatrie_rs.DArray.Links.{Links}
use libdatrie_rs.DArray.Place.{check_at-lt}
use libdatrie_rs.DArray.FreeList.{IsPool, has-apart}
use libdatrie_rs.DArray.Extend.{
  get-right, length-new_cells, last_of-has, last-check, indices-Ascending, append-Ascending,
  indices, last_of, last_of-le, Links-last, Links-extend, new_cell, new_cells-at, base-first,
  fresh-Links,
}

-- The pool of `self'` has the cells up to `to`. The new ones are free, and no cell in use has
-- changed.
pub record Grown (self : DArray) (to : ℕ) (xs : List ℕ) (self' : DArray) : Type 0 where
  pub pool : IsPool self' (xs ++ indices (suc to - length self.cells) (length self.cells))
  pub size : length self'.cells ≡ suc to
  pub header : check_at self'.cells 0 ≡ some (pos (suc to))
  pub header_base : base_at self'.cells 0 ≡ base_at self.cells 0
  pub kept :
      (k : ℕ)
      → has k (0 ∷ 1 ∷ xs) ≡ false
      → k < length self.cells
      → get_elem? self'.cells k ≡ get_elem? self.cells k

module _ (self : DArray) (to : ℕ) (xs : List ℕ) (pool : IsPool self xs)
    (beyond : length self.cells ≤ to) (top : to < 2 ^ 31 - 1) where
  abbrev pub l : ℕ
  l = length self.cells

  abbrev pub t : ℕ
  t = last_of 1 xs

  abbrev pub new : List DaCell
  new = new_cells (pos 1) (pos t) (pos l) (pos to) (suc to - l) l

  abbrev pub joined : List DaCell
  joined = self.cells ++ new

  abbrev pub result : List DaCell
  result = with_check (with_base (with_check joined t (link l)) 1 (link to)) 0 (pos (suc to))

  t-lt : t < l
  t-lt = check_at-lt self.cells t (link 1) (last-check self.cells 1 xs pool.links)

  t-ge : 1 ≤ t
  t-ge = last_of-le 1 xs (Ascending-weaken 3 2 xs pool.sorted (omega arith))

  result-at : (k : ℕ) → 0 ≢ k → 1 ≢ k → t ≢ k → get_elem? result k ≡ get_elem? joined k
  result-at k z o n =
      update_ne (with_base (with_check joined t (link l)) 1 (link to)) 0 k _ z
      ∙ update_ne (with_check joined t (link l)) 1 k _ o
      ∙ update_ne joined t k _ n

  old-at : (k : ℕ) → k < l → get_elem? joined k ≡ get_elem? self.cells k
  old-at k h = get_elem?-append_left self.cells new k h

  new-at : (k : ℕ) → l ≤ k → k ≤ to → get_elem? result k ≡ some (new_cell (pos t) l to k)
  new-at k from le =
      let back : l + (k - l) ≡ k = omega arith in
      result-at k (λ e. omega (arith, e, t-lt)) (λ e. omega (arith, e, t-lt, t-ge))
        (λ e. omega (arith, e, t-lt))
      ∙ ap (λ i. get_elem? joined i) (sym back)
      ∙ get-right self.cells new (k - l)
      ∙ new_cells-at (pos t) l to (suc to - l) l (k - l) (omega arith)
      ∙ ap (λ i. some (new_cell (pos t) l to i)) back

  check-result : (k : ℕ) → 0 ≢ k → check_at result k ≡ check_at (with_check joined t (link l)) k
  check-result k z =
      check_at-ne (with_base (with_check joined t (link l)) 1 (link to)) 0 k (pos (suc to)) z
      ∙ check_at-with_base (with_check joined t (link l)) 1 k (link to)

  base-result :
      (k : ℕ) → base_at result k ≡ base_at (with_base (with_check joined t (link l)) 1 (link to)) k
  base-result k =
      base_at-with_check (with_base (with_check joined t (link l)) 1 (link to)) 0 k (pos (suc to))

  head-base : base_at result 1 ≡ some (link to)
  head-base =
      base-result 1
      ∙ base_at-with_base (with_check joined t (link l)) 1 (link t) (link to) (
          base_at-with_check joined t 1 (link l)
          ∙ ap base_of (old-at 1 (omega (arith, t-lt, t-ge)))
          ∙ Links-last self.cells 1 xs pool.links)

  tail-check : check_at result t ≡ some (link l)
  tail-check =
      check-result t (λ e. omega (arith, e, t-ge))
      ∙ check_at-with_check joined t (link 1) (link l)
          (ap check_of (old-at t t-lt) ∙ last-check self.cells 1 xs pool.links)

  result-Links : Links result 1 (xs ++ indices (suc to - l) l)
  result-Links =
      let some_new : suc to - l ≡ suc (to - l) = omega arith in
      Links-extend self.cells result 1 xs (indices (suc to - l) l) (omega arith) pool.links
        (Ascending-weaken 3 2 xs pool.sorted (omega arith))
        (λ k ne above inside.
          check-result k (λ e. omega (arith, e))
          ∙ check_at-ne joined t k (link l) (λ e. ne (sym e))
          ∙ ap check_of (old-at k inside))
        (λ k ne inside.
          base-result k
          ∙ base_at-ne (with_check joined t (link l)) 1 k (link to) (λ e. ne (sym e))
          ∙ base_at-with_check joined t k (link l)
          ∙ ap base_of (old-at k inside))
        (subst (λ n. Links result t (indices n l)) (sym some_new)
          (
            tail-check,
            (
              base-first (pos t) l to result (omega arith) new-at beyond
                  ∙ ap some (neg-pos_link t (omega (arith, t-lt, pool.small))),
              fresh-Links (pos t) l to result (omega arith) new-at (to - l) l head-base
                  (omega arith) (omega arith),
            ),
          ))

  joined-length : length joined ≡ suc to
  joined-length =
      length-append self.cells new
      ∙ ap (λ n. l + n) (length-new_cells (pos 1) (pos t) (pos l) (pos to) (suc to - l) l)
      ∙ omega arith

  linked-length : length (with_base (with_check joined t (link l)) 1 (link to)) ≡ suc to
  linked-length =
      length-update (with_check joined t (link l)) 1 _ ∙ length-update joined t _ ∙ joined-length

  result-length : length result ≡ suc to
  result-length =
      length-update (with_base (with_check joined t (link l)) 1 (link to)) 0 _ ∙ linked-length

  result-header : check_at result 0 ≡ some (pos (suc to))
  result-header =
      let linked = with_base (with_check joined t (link l)) 1 (link to) in
      let (c, here) = get_elem?-some linked 0 (rw linked-length (omega arith)) in
      check_at-with_check linked 0 c.check (pos (suc to)) (ap check_of here)

  result-Grown : Grown self to xs (record { cells = result })
  result-Grown = record {
    pool = record {
      links = result-Links;
      sorted =
          append-Ascending 1 3 xs (indices (suc to - l) l) pool.sorted
            (indices-Ascending (suc t) (suc to - l) l (omega (arith, t-lt)))
            (indices-Ascending 3 (suc to - l) l pool.enough);
      small = rw result-length (omega arith);
      enough = rw result-length (omega (arith, pool.enough));
    };
    size = result-length;
    header = result-header;
    header_base =
        base-result 0
        ∙ base_at-ne (with_check joined t (link l)) 1 0 (link to) (λ e. omega (arith, e))
        ∙ base_at-with_check joined t 0 (link l)
        ∙ ap base_of (old-at 0 (omega (arith, pool.enough)));
    kept = λ k used inside.
        result-at k (λ e. ground arith) (λ e. ground arith)
          (has-apart t k (1 ∷ xs) (last_of-has 1 xs) (ground arith))
        ∙ old-at k inside;
  }

  grow_pool_run : grow_pool self (pos to) ≡ ok (record { cells = result }, true)
  unfolding grow_pool get_base set_base set_check get_free_list
  grow_pool_run = rw (
    as_i32-small l pool.small,
    Links-last self.cells 1 xs pool.links,
    neg-link t (omega (arith, t-lt, pool.small)),
    neg-pos_link l pool.small,
    neg-pos_link to (omega arith),
    linked-length,
    as_i32-small (suc to) (omega arith),
  )

  -- `extend_pool` up to an index beyond the end, below `TRIE_INDEX_MAX`, appends the cells up to
  -- there to the list of free cells, counts them in the header, and changes no cell in use.
  pub extend_pool_lem :
      (self' : DArray) × (extend_pool self (pos to) ≡ ok (self', true)) × Grown self to xs self'
  unfolding extend_pool
  extend_pool_lem =
      (record { cells = result }, ground (arith, pool.enough, grow_pool_run), result-Grown)
