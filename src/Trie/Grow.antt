-- ===== src/Trie/Grow.antt =====
-- About `store` on a trie that holds a tree, at a node with no arc for the next character: the trie
-- then holds the tree with the new key.
use libdatrie_rs.Common.{
  ℕ, suc, ◌+◌, ◌^◌, ◌≤◌, ◌<◌, ◌≡◌, refl, ap, ◌∙◌, true, false, some, List, [], ◌∷◌, ◌++◌, arith,
  length, ◌==◌, has, All, if◌then◌else◌,
}
use libdatrie_rs.Common.Int.{pos}
use libdatrie_rs.Common.Run.{ok}
use libdatrie_rs.Types.{TrieChar, AlphaChar, TrieData, trie_char_term}
use libdatrie_rs.Symbols.{ArrayVec}
use libdatrie_rs.AlphaMap.Defs.{AlphaMap}
use libdatrie_rs.DArray.Fields.{base_at, check_at}
use libdatrie_rs.DArray.Children.{arc_at}
use libdatrie_rs.DArray.FreeList.{IsPool, has-small}
use libdatrie_rs.DArray
use libdatrie_rs.DArray.GraftPool.{free-no_arc, node-used}
use libdatrie_rs.DArray.Graft.{Arc}
use libdatrie_rs.DArray.Paths.{Way, path_of}
use libdatrie_rs.DArray.Forest.{Forest, entries}
use libdatrie_rs.Tail.Free.{IsFree}
use libdatrie_rs.Tail.AllocBlock.{fresh}
use libdatrie_rs.Trie.Defs.{Trie, missing, walk_branches}
use libdatrie_rs.Trie.Store.{branch_in_branch, store, store_conditionally, store_missing}
use libdatrie_rs.Trie.Branch.{Branched, branch_in_branch_lem}
use libdatrie_rs.Trie.Model.{Represents}
use libdatrie_rs.Trie.Compare.{Spells}
use libdatrie_rs.Trie.Along.{first_label, char_to_trie_str-Spells, walk-Way, walk-gap}

-- The labels behind the first one, as `store` has them, and what of the labels goes to the tail.
abbrev pub after_first : List TrieChar → List TrieChar
after_first [] = 0 ∷ []
after_first (l ∷ ls) = ls ++ (0 ∷ 0 ∷ [])

abbrev pub tail_part : List TrieChar → List TrieChar
tail_part [] = 0 ∷ 0 ∷ []
tail_part (l ∷ ls) = ls ++ (0 ∷ 0 ∷ [])

first-after : (ls : List TrieChar) → ls ++ (0 ∷ 0 ∷ []) ≡ first_label ls ∷ after_first ls
first-after [] = refl
first-after (l ∷ ls) = refl

pub first-byte :
    (am : AlphaMap) (str : List AlphaChar) (ls : List TrieChar)
    → Spells am str ls
    → first_label ls ≤ 255
first-byte am str [] h = omega arith
first-byte am [] (l ∷ ls) h = elim h [ ]
first-byte am (c ∷ str) (l ∷ ls) h = h.0.low

pub first-tail :
    (am : AlphaMap) (str : List AlphaChar) (ls : List TrieChar)
    → Spells am str ls
    → (if first_label ls == trie_char_term then first_label ls ∷ after_first ls else after_first ls)
      ≡ tail_part ls
first-tail am str [] h = refl
first-tail am [] (l ∷ ls) h = elim h [ ]
first-tail am (c ∷ str) (l ∷ ls) h =
    let plain : (l == 0) ≡ false = ground (arith, h.0.no_term) in rw plain refl

has-snoc : (xs : List ℕ) (ys : List ℕ) → has 0 (xs ++ (0 ∷ ys)) ≡ true
has-snoc [] ys = refl
has-snoc (x ∷ xs) ys = ground (arith, has-snoc xs ys)

length-two : (xs : List ℕ) → length (xs ++ (0 ∷ 0 ∷ [])) ≡ suc (suc (length xs))
length-two [] = refl
length-two (x ∷ xs) = ap suc (length-two xs)

pub tail_part-has : (ls : List TrieChar) → has trie_char_term (tail_part ls) ≡ true
tail_part-has [] = refl
tail_part-has (l ∷ ls) = has-snoc ls (0 ∷ [])

pub tail_part-length : (ls : List TrieChar) → length (tail_part ls) ≤ suc (suc (length ls))
tail_part-length [] = omega arith
tail_part-length (l ∷ ls) = omega (arith, length-two ls)

module _ {D : Type 0} where
  -- The trie holds the tree, its free cells are `xs` and its free blocks are `ys`, no block of a
  -- separate cell is free, and the header counts the cells.
  pub record Holds (self : Trie D) (f : Forest) (xs ys : List ℕ) : Type 0 where
    pub tree : Represents self.ro f
    pub pool : IsPool self.ro.da xs
    pub blocks : IsFree self.ro.tail ys
    pub in_use : All (λ e. has e.block ys ≡ false) (entries [] f)
    pub header : check_at self.ro.da.cells 0 ≡ some (pos (length self.ro.da.cells))

  -- The labels of `above` lead from the root to a node with a base for arcs.
  pub record Node (self : Trie D) (above : List AlphaChar) : Type 0 where
    pub node : ℕ
    pub base : ℕ
    pub labels : List TrieChar
    pub path : Way self.ro.da.cells 2 node labels
    pub spells : Spells self.ro.alpha_map above (path_of labels)
    pub has_base : base_at self.ro.da.cells node ≡ some (pos base)
    pub positive : 0 < base

  -- The arc that `store` makes there.
  abbrev pub new_arc :
      TrieData D
      → (self : Trie D) (ys : List ℕ) (above : List AlphaChar) (l : TrieChar) → Node self above
      → Arc
  new_arc t self ys above l spot = record {
    node = spot.node;
    base = spot.base;
    label = l;
    block = fresh t self.ro.tail ys;
  }

  -- `store` at a node with no arc for the next label.
  pub store-missing :
      (v : ArrayVec) (t : TrieData D) (self : Trie D) (above below : List AlphaChar)
      (ls : List TrieChar) (value : D)
      → length self.ro.da.cells < 2 ^ 31
      → Spells self.ro.alpha_map below ls
      → (spot : Node self above) → spot.base < 2 ^ 31
      → arc_at self.ro.da.cells spot.node spot.base (first_label ls) ≡ false
      → store v t self (above ++ (below ++ (0 ∷ []))) value
        ≡ branch_in_branch v t self (pos spot.node) (first_label ls ∷ after_first ls) value
  unfolding store store_conditionally store_missing DArray.get_root
  store-missing v t self above below ls value size spells spot near no_arc =
      let walked : walk_branches self.ro (pos 2) (above ++ (below ++ (0 ∷ [])))
          ≡ ok (missing (pos spot.node) (below ++ (0 ∷ []))) =
        walk-Way self.ro size spot.node spot.labels above (below ++ (0 ∷ [])) spot.path spot.spells
        ∙ walk-gap self.ro spot.node spot.base below ls spot.has_base near size spells
            (omega (arith, first-byte self.ro.alpha_map below ls spells)) no_arc in
      let key = char_to_trie_str-Spells self.ro.alpha_map below ls spells in
      let split = first-after ls in rw (walked, store_missing, key, split) refl

module _ {D : Type 0} (v : ArrayVec) (t : TrieData D) (self : Trie D) (f : Forest) (xs ys : List ℕ)
    (h : Holds self f xs ys) (above below : List AlphaChar) (ls : List TrieChar)
    (spells : Spells self.ro.alpha_map below ls) (spot : Node self above)
    (free : has (spot.base + first_label ls) xs ≡ true)
    (room : suc (length self.ro.tail.tails) < 2 ^ 31) (value : D) where
  pub base-low : spot.base < 2 ^ 31
  base-low = omega (
    arith,
    has-small self.ro.da.cells 1 (spot.base + first_label ls) xs h.pool.links free,
    h.pool.small,
  )

  pub made :
      (self' : Trie D) × (store v t self (above ++ (below ++ (0 ∷ []))) value ≡ ok (self', true))
      × Branched t self xs ys spot.node
          (spot.base + first_label ls)
          (first_label ls)
          (after_first ls)
          value
          self'
  made =
      let no_arc =
        free-no_arc v self.ro.da xs h.pool spot.node spot.base (first_label ls)
          (ground (arith, free)) in
      let parent = node-used v self.ro.da xs h.pool spot.node spot.base spot.has_base in
      let (self', run, new) =
        branch_in_branch_lem t v self spot.node spot.base (first_label ls) (after_first ls) value xs
          ys h.pool parent spot.has_base spot.positive free h.blocks room in
      (
        self',
        store-missing v t self above below ls value h.tree.size spells spot base-low no_arc ∙ run,
        new,
      )
