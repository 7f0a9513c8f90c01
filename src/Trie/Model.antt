-- ===== src/Trie/Model.antt =====
-- What a trie holds: its tree, and the keys and data of the separate cells.
use libdatrie_rs.Common.{
  ℕ, suc, ◌^◌, ◌≤◌, ◌<◌, ◌≡◌, Bool, true, false, Option, none, some, List, [], ◌∷◌, ◌++◌, length,
  All, ◌==◌, has, if◌then◌else◌,
}
use libdatrie_rs.Common.Int.{pos}
use libdatrie_rs.Types.{TrieChar, trie_char_term}
use libdatrie_rs.DArray.Fields.{base_at}
use libdatrie_rs.DArray.Forest.{Forest, Arcs, Entry, entries, IsRoot}
use libdatrie_rs.Tail
use libdatrie_rs.Trie.Defs.{RoTrie}

-- The labels of a suffix that is there.
abbrev pub labels_of : Option (List TrieChar) → List TrieChar
labels_of none = []
labels_of (some suffix) = suffix

-- The labels up to the first terminator.
abbrev pub until_term : List TrieChar → List TrieChar
until_term [] = []
until_term (c ∷ cs) = if c == trie_char_term then [] else c ∷ until_term cs

-- The path ends with the terminator.
abbrev pub ends_with_term : List TrieChar → Bool
ends_with_term [] = false
ends_with_term (c ∷ []) = c == trie_char_term
ends_with_term (c ∷ d ∷ cs) = ends_with_term (d ∷ cs)

abbrev pub starts_with_term : List TrieChar → Bool
starts_with_term [] = false
starts_with_term (c ∷ cs) = c == trie_char_term

module _ {D : Type 0} (trie : RoTrie D) where
  -- The tail block of a separate cell has a suffix, which is terminated, and which is the terminator
  -- alone where the path was the whole key.
  pub record IsStored (e : Entry) : Type 0 where
    pub suffix : List TrieChar
    pub value : D
    pub there : Tail.get_suffix trie.tail (pos (suc e.block)) ≡ some suffix
    pub data_there : Tail.get_data trie.tail (pos (suc e.block)) ≡ some value
    pub small : suc e.block < 2 ^ 31
    pub short : length suffix ≤ 2 ^ 15
    pub terminated : has trie_char_term suffix ≡ true
    pub whole : ends_with_term e.path ≡ true → starts_with_term suffix ≡ true

  -- The labels of the key that a separate cell stands for, and the data.
  abbrev pub key_of : Entry → List TrieChar
  key_of e = until_term (e.path ++ labels_of (Tail.get_suffix trie.tail (pos (suc e.block))))

  abbrev pub data_of : Entry → Option D
  data_of e = Tail.get_data trie.tail (pos (suc e.block))

  -- The trie holds a tree, with a tail block for each separate cell.
  pub record Represents (f : Forest) : Type 0 where
    pub base : ℕ
    pub size : length trie.da.cells < 2 ^ 31
    pub top : IsRoot trie.da.cells 2
    pub root_base : base_at trie.da.cells 2 ≡ some (pos base)
    pub inside : base ≤ length trie.da.cells
    pub arcs : Arcs trie.da.cells 2 base 0 f
    pub stored : All IsStored (entries [] f)
