-- ===== src/Trie/Start.antt =====
-- About a new trie: it holds the empty tree.
use libdatrie_rs.Common.{
  ℕ, suc, ◌+◌, ◌^◌, ◌≤◌, ◌∙◌, ◌≡◌, refl, false, true, none, List, [], ◌∷◌, ◌++◌, arith, length,
  get_elem?-none,
}
use libdatrie_rs.AlphaMap.Defs.{AlphaMap}
use libdatrie_rs.DArray
use libdatrie_rs.DArray.Children.{arc_at}
use libdatrie_rs.DArray.Forest.{end}
use libdatrie_rs.Common.Run.{ok}
use libdatrie_rs.Types.{TrieData, AlphaChar, TrieChar}
use libdatrie_rs.Symbols.{ArrayVec}
use libdatrie_rs.Trie.Defs.{Trie, new, ro_new, retrieve}
use libdatrie_rs.Trie.Store.{store}
use libdatrie_rs.Trie.Pick.{eqb_list}
use libdatrie_rs.Trie.Compare.{Spells}
use libdatrie_rs.Trie.Lookup.{ro_retrieve-pick}
use libdatrie_rs.Trie.Grow.{Holds, Node, first-byte}
use libdatrie_rs.Trie.Insert.{Stored}
use libdatrie_rs.Trie.Beyond.{store-beyond}

-- The root of a new trie has no arcs.
no_arcs : (d : ℕ) → arc_at DArray.da_default.cells 2 3 d ≡ false
unfolding DArray.da_default
no_arcs d = let gone = get_elem?-none DArray.da_default.cells (3 + d) (omega arith) in rw gone refl

module _ {D : Type 0} (am : AlphaMap) where
  pub new-Holds : Holds {D = D} (new am) end [] []
  unfolding new ro_new DArray.da_default
  new-Holds = record {
    tree = record {
      base = 3;
      size = omega arith;
      top = record { header = 620963075; top = refl; no_base = refl };
      root_base = refl;
      inside = omega arith;
      arcs = λ d k l. no_arcs d;
      stored = tt;
    };
    pool = record { links = (refl, refl); sorted = tt; small = omega arith; enough = omega arith };
    blocks = record { chain = refl; sorted = tt; small = omega arith };
    in_use = tt;
    header = refl;
  }

  -- The root, to which the empty string leads.
  abbrev new-root : Node {D = D} (new am) []
  unfolding new ro_new DArray.da_default
  new-root = record {
    node = 2;
    base = 3;
    labels = [];
    path = refl;
    spells = tt;
    has_base = refl;
    positive = omega arith;
  }

  pub retrieve-new :
      (str : List AlphaChar) (ls : List TrieChar)
      → Spells am str ls
      → retrieve {D = D} (new am) (str ++ (0 ∷ [])) ≡ ok none
  unfolding retrieve new ro_new
  retrieve-new str ls spells = ro_retrieve-pick (ro_new am) end new-Holds.tree str ls spells

module _ {D : Type 0} (v : ArrayVec) (t : TrieData D) (am : AlphaMap) (str : List AlphaChar)
    (ls : List TrieChar) (spells : Spells am str ls) (short : suc (suc (length ls)) ≤ 2 ^ 15)
    (value : D) where
  -- On a new trie, Trie::store of a null-terminated string of characters whose labels are 1 to 255,
  -- of fewer than 2^15 - 1 characters, succeeds: the trie then holds a tree, with well-formed free
  -- lists, Trie::retrieve finds the data for the key, and nothing for any string with other labels
  -- from 1 to 255.
  pub store-new :
      (self' : Trie D) × (store v t (new am) (str ++ (0 ∷ [])) value ≡ ok (self', true))
      × Stored (new am) str ls value self'
      × ((other : List AlphaChar) (ls' : List TrieChar)
          → Spells am other ls'
          → eqb_list ls ls' ≡ false
          → retrieve self' (other ++ (0 ∷ [])) ≡ ok none)
  unfolding new ro_new DArray.da_default
  store-new =
      let low = first-byte am str ls spells in
      let (self', run, s) =
        store-beyond v t (new am) end [] [] (new-Holds am) [] str ls spells (new-root am)
          (omega arith) (omega (arith, low)) (omega arith) short value in
      (
        self',
        run,
        s,
        λ other ls' spells' ne. s.others other ls' spells' ne ∙ retrieve-new am other ls' spells',
      )
