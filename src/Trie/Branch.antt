-- ===== src/Trie/Branch.antt =====
-- About `branch_in_branch`, which adds a key where the tree has no arc for it.
use libdatrie_rs.Common.{
  ◌==◌, if◌then◌else◌, ℕ, suc, ◌+◌, ◌^◌, ◌≤◌, sym, subst, ◌<◌, ◌≡◌, refl, ap, ◌∙◌, ◌≢◌, true, false,
  some, List, ◌∷◌, arith, length, has, get_elem?, get_elem?-some,
}
use libdatrie_rs.Common.Int.{pos, negsuc, neg-pos, neg-negsuc}
use libdatrie_rs.Common.Run.{ok}
use libdatrie_rs.Types.{TrieIndex, TrieChar, trie_char_term, TrieData}
use libdatrie_rs.Symbols.{ArrayVec}
use libdatrie_rs.DArray
use libdatrie_rs.DArray.{DArray}
use libdatrie_rs.DArray.Cells.{get_base, set_base, base_of}
use libdatrie_rs.DArray.Fields.{
  base_at, check_at, length-update, with_base, base_at-with_base, base_at-ne, check_at-with_base,
  update_ne,
}
use libdatrie_rs.DArray.Links.{remove, frame-base}
use libdatrie_rs.DArray.Place.{check_at-lt}
use libdatrie_rs.DArray.FreeList.{IsPool, has-apart}
use libdatrie_rs.DArray.Arcs.{remove-has, has-above, insert_branch-arc, arc-walk, next-small}
use libdatrie_rs.Tail
use libdatrie_rs.Tail.Free.{IsFree}
use libdatrie_rs.Tail.AllocBlock.{fresh, rest}
use libdatrie_rs.Tail.AddSuffix.{fresh-le, add_suffix_lem}
use libdatrie_rs.Trie.Defs.{Trie}
use libdatrie_rs.Trie.Store.{branch_in_branch, skip_branch}

module _ {D : Type 0} (t : TrieData D) where
  -- In `self'` an arc `c` leads from node `p` to the separate cell `x`, whose tail block holds the
  -- rest of the suffix and the data; no cell and no block in use has changed, nor has the alphabet;
  -- the free
  -- lists are well-formed, and the trie is dirty.
  pub record Branched (self : Trie D) (xs ys : List ℕ) (p x : ℕ) (c : TrieChar) (cs : List TrieChar)
      (value : D) (self' : Trie D) : Type 0 where
    pub block : TrieIndex
    pub is_block : block ≡ pos (suc (fresh t self.ro.tail ys))
    pub arc : DArray.walk self'.ro.da (pos p) c ≡ ok (some (pos x))
    pub separate : DArray.is_separate self'.ro.da (pos x) ≡ ok true
    pub tail_index : DArray.get_tail_index self'.ro.da (pos x) ≡ ok block
    pub suffix :
        Tail.get_suffix self'.ro.tail block ≡ some (if c == trie_char_term then c ∷ cs else cs)
    pub data_ : Tail.get_data self'.ro.tail block ≡ some value
    pub kept_cells :
        (k : ℕ)
        → has k (1 ∷ xs) ≡ false
        → get_elem? self'.ro.da.cells k ≡ get_elem? self.ro.da.cells k
    pub kept_blocks :
        (k : ℕ)
        → k ≢ fresh t self.ro.tail ys
        → k < length self.ro.tail.tails
        → get_elem? self'.ro.tail.tails k ≡ get_elem? self.ro.tail.tails k
    pub pool : IsPool self'.ro.da (remove x xs)
    pub size : length self'.ro.da.cells ≡ length self.ro.da.cells
    pub check : check_at self'.ro.da.cells x ≡ some (pos p)
    pub base : base_at self'.ro.da.cells x ≡ some (negsuc (fresh t self.ro.tail ys))
    pub blocks : IsFree self'.ro.tail (rest t ys)
    pub taken : has (fresh t self.ro.tail ys) (rest t ys) ≡ false
    pub dirty : self'.is_dirty_ ≡ true
    pub alphabet : self'.ro.alpha_map ≡ self.ro.alpha_map

  separate-at :
      (da : DArray) (x i : ℕ)
      → base_at da.cells x ≡ some (negsuc i)
      → suc i < 2 ^ 31
      → (DArray.is_separate da (pos x) ≡ ok true)
        × (DArray.get_tail_index da (pos x) ≡ ok (pos (suc i)))
  unfolding DArray.is_separate DArray.get_tail_index get_base
  separate-at da x i e h = (rw e (ground arith), rw (e, neg-negsuc i (omega arith)))

  module _ (v : ArrayVec) (self : Trie D) (p b : ℕ) (c : TrieChar) (cs : List TrieChar) (value : D)
      (xs ys : List ℕ) (pool : IsPool self.ro.da xs) (parent : has p (1 ∷ xs) ≡ false)
      (arc : base_at self.ro.da.cells p ≡ some (pos b)) (positive : 0 < b)
      (free : has (b + c) xs ≡ true) (blocks : IsFree self.ro.tail ys)
      (room : suc (length self.ro.tail.tails) < 2 ^ 31) where
    -- `branch_in_branch` at a node with a positive base, whose cell for the first label is free,
    -- succeeds: the arc leads to a separate node, whose tail block holds the rest of the suffix and
    -- the data, the trie is dirty, the free lists are well-formed, and neither the alphabet nor
    -- another cell or another block in use has changed.
    pub branch_in_branch_lem :
        (self' : Trie D) × (branch_in_branch v t self (pos p) (c ∷ cs) value ≡ ok (self', true))
        × Branched self xs ys p (b + c) c cs value self'
    unfolding branch_in_branch DArray.set_tail_index set_base
    branch_in_branch_lem =
        let (da, run, pool', base, check, changed) =
          insert_branch-arc v self.ro.da p b c xs pool parent arc positive free in
        let (mid, tail, added, stored, new) =
          add_suffix_lem t self.ro.tail ys (skip_branch c cs) value blocks room in
        let x : ℕ = b + c in
        let i : ℕ = fresh t self.ro.tail ys in
        let cells' = with_base da.cells x (negsuc i) in
        let small : suc i < 2 ^ 31 = omega (arith, fresh-le t self.ro.tail ys blocks, room) in
        let (cx, here) = get_elem?-some da.cells x (check_at-lt da.cells x (pos p) check) in
        let link : base_at cells' x ≡ some (negsuc i) =
          base_at-with_base da.cells x cx.base (negsuc i) (ap base_of here) in
        let size : length cells' ≡ length da.cells = length-update da.cells x _ in
        let removed = remove-has 3 x xs pool.sorted in
        let (sep, index) = separate-at (record { cells = cells' }) x i link small in
        (
          record {
            ro = record self.ro { da = record { cells = cells' }; tail = tail };
            is_dirty_ = true;
          },
          rw (run, added, stored, neg-pos i (omega (arith, small))),
          record {
            block = pos (suc i);
            is_block = refl;
            arc =
                arc-walk (record { cells = cells' }) p b c
                  (base_at-ne da.cells x p (negsuc i) (has-apart x p xs free (ground arith)) ∙ base)
                  (check_at-with_base da.cells x x (negsuc i) ∙ check)
                  (next-small v self.ro.da p b c xs pool parent arc positive free);
            separate = sep;
            tail_index = index;
            suffix = new.suffix_there;
            data_ = new.data_there;
            kept_cells = λ k used.
                update_ne da.cells x k _ (has-apart x k xs free (ground arith))
                ∙ changed.kept k used;
            kept_blocks = new.kept;
            pool = record {
              links =
                  frame-base da.cells 1 (remove x xs) x (negsuc i)
                    (ground (arith, removed, has-above 3 x xs pool.sorted free)) pool'.links;
              sorted = pool'.sorted;
              small = subst (λ l. l < 2 ^ 31) (sym size) pool'.small;
              enough = subst (λ l. 3 ≤ l) (sym size) pool'.enough;
            };
            size = size ∙ changed.size;
            check = check_at-with_base da.cells x x (negsuc i) ∙ check;
            base = link;
            blocks = new.free;
            taken = new.taken;
            dirty = refl;
            alphabet = refl;
          },
        )
