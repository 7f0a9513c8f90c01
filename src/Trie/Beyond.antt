-- ===== src/Trie/Beyond.antt =====
-- About `store` where the cell for the new arc is beyond the end of the double array, which grows.
use libdatrie_rs.Common.{
  ℕ, suc, ◌+◌, ◌-◌, ◌^◌, ◌≤◌, ◌<◌, ◌≡◌, refl, sym, ap, ◌∙◌, true, false, List, [], ◌∷◌, ◌++◌, arith,
  length, get_elem?-none,
}
use libdatrie_rs.Common.Int.{pos}
use libdatrie_rs.Common.Run.{ok}
use libdatrie_rs.Types.{TrieChar, AlphaChar, TrieData}
use libdatrie_rs.Symbols.{ArrayVec}
use libdatrie_rs.DArray
use libdatrie_rs.DArray.{DArray}
use libdatrie_rs.DArray.Children.{arc_at}
use libdatrie_rs.DArray.Grow.{Grown, extend_pool_lem}
use libdatrie_rs.DArray.GrowArcs.{grown-no_arc}
use libdatrie_rs.DArray.GrowInsert.{insert_branch-grown, cell-free}
use libdatrie_rs.DArray.Paths.{path_of}
use libdatrie_rs.DArray.Forest.{Forest}
use libdatrie_rs.Trie.Defs.{Trie}
use libdatrie_rs.Trie.Store.{store, branch_in_branch}
use libdatrie_rs.Trie.Compare.{Spells}
use libdatrie_rs.Trie.Along.{first_label}
use libdatrie_rs.Trie.Grow.{Holds, Node, store-missing, after_first}
use libdatrie_rs.Trie.Insert.{Stored, store-Stored}
use libdatrie_rs.Trie.Longer.{longer, xs', longer-Holds, longer-Node, retrieve-longer}
use mathlib.Core.List.{append_assoc}

module _ {D : Type 0} (v : ArrayVec) (t : TrieData D) (self : Trie D) (f : Forest) (xs ys : List ℕ)
    (h : Holds self f xs ys) (above below : List AlphaChar) (ls : List TrieChar)
    (spells : Spells self.ro.alpha_map below ls) (spot : Node self above)
    (beyond : length self.ro.da.cells ≤ spot.base + first_label ls)
    (top : spot.base + first_label ls < 2 ^ 31 - 1)
    (room : suc (length self.ro.tail.tails) < 2 ^ 31) (short : suc (suc (length ls)) ≤ 2 ^ 15)
    (value : D) where
  store-longer :
      (da : DArray) (g : Grown self.ro.da (spot.base + first_label ls) xs da)
      → DArray.extend_pool self.ro.da (pos (spot.base + first_label ls)) ≡ ok (da, true)
      → store v t self (above ++ (below ++ (0 ∷ []))) value
        ≡ store v t
            (longer v t self f xs ys h da (spot.base + first_label ls) beyond g)
            (above ++ (below ++ (0 ∷ [])))
            value
  unfolding branch_in_branch
  store-longer da g run =
      let to : ℕ = spot.base + first_label ls in
      let near : spot.base < 2 ^ 31 = omega (arith, top) in
      let next = longer v t self f xs ys h da to beyond g in
      let next_spot = longer-Node v t self f xs ys h da to beyond g above spot in
      let gone : arc_at self.ro.da.cells spot.node spot.base (first_label ls) ≡ false =
        (let none_ = get_elem?-none self.ro.da.cells to beyond in rw none_ refl) in
      let gone' =
        grown-no_arc v self.ro.da da to xs h.pool h.header beyond g spot.node spot.base
          (first_label ls) spot.has_base gone in
      let inserted =
        insert_branch-grown v self.ro.da da spot.node spot.base h.tree.top.header (first_label ls)
          xs h.pool h.tree.top.no_base h.header spot.has_base spot.positive beyond top run g in
      let same : branch_in_branch v t self (pos spot.node) (first_label ls ∷ after_first ls) value
          ≡ branch_in_branch v t next (pos spot.node) (first_label ls ∷ after_first ls) value =
        rw inserted refl in
      store-missing v t self above below ls value h.tree.size spells spot near gone
      ∙ same
      ∙ sym (store-missing v t next above below ls value g.pool.small spells next_spot near gone')

  pub store-beyond :
      (self' : Trie D) × (store v t self ((above ++ below) ++ (0 ∷ [])) value ≡ ok (self', true))
      × Stored self (above ++ below) (path_of spot.labels ++ ls) value self'
  store-beyond =
      let to : ℕ = spot.base + first_label ls in
      let (da, run, g) = extend_pool_lem self.ro.da to xs h.pool beyond top in
      let next = longer v t self f xs ys h da to beyond g in
      let free =
        cell-free v self.ro.da da spot.node spot.base h.tree.top.header (first_label ls) xs h.pool
          h.tree.top.no_base h.header spot.has_base spot.positive beyond top run g in
      let (self', stored, s) =
        store-Stored v t next f (xs' v t self f xs ys h da to beyond g) ys
          (longer-Holds v t self f xs ys h da to beyond g) above below ls spells
          (longer-Node v t self f xs ys h da to beyond g above spot) free room short value in
      let key = append_assoc above below (0 ∷ []) in
      (
        self',
        ap (λ k. store v t self k value) key
            ∙ store-longer da g run
            ∙ sym (ap (λ k. store v t next k value) key)
            ∙ stored,
        record {
          tree = s.tree;
          free_cells = s.free_cells;
          free_blocks = s.free_blocks;
          holds = s.holds;
          found = s.found;
          others = λ other ls' spells' ne.
              s.others other ls' spells' ne
              ∙ retrieve-longer v t self f xs ys h da to beyond g other ls' spells';
        },
      )
