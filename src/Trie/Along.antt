-- ===== src/Trie/Along.antt =====
-- About the walks of `store` and `retrieve` from the root along the labels that lead to a node.
use libdatrie_rs.Common.{
  ℕ, ◌+◌, ◌^◌, ◌<◌, ◌≡◌, refl, sym, ap, ◌∙◌, false, none, some, List, [], ◌∷◌, ◌++◌, arith, length,
  ◌==◌,
}
use libdatrie_rs.Common.Int.{pos, as_u8}
use libdatrie_rs.Common.Run.{ok}
use libdatrie_rs.Types.{AlphaChar, TrieChar, trie_char_term}
use libdatrie_rs.AlphaMap.Defs.{AlphaMap, map_to_trie_char, char_to_trie_str}
use libdatrie_rs.DArray
use libdatrie_rs.DArray.{DArray}
use libdatrie_rs.DArray.Fields.{base_at, check_at}
use libdatrie_rs.DArray.Children.{arc_at}
use libdatrie_rs.DArray.Place.{check_at-lt}
use libdatrie_rs.DArray.Kinds.{is_separate-inner}
use libdatrie_rs.DArray.Paths.{Arrow, Way, path_of}
use libdatrie_rs.Trie.Defs.{RoTrie, missing, walk_branches, retrieve_branches}
use libdatrie_rs.Trie.Compare.{Label, Spells, null_label}
use libdatrie_rs.Trie.Step.{walk-arc_at, walk-x, branches-arc}
use mathlib.Core.List.{append_assoc}

-- The label of the next character, or the terminator at the end.
abbrev pub first_label : List TrieChar → TrieChar
first_label [] = trie_char_term
first_label (l ∷ ls) = l

-- A string whose labels fall in two parts.
record Parts (self : AlphaMap) (str : List AlphaChar) (ls ls' : List TrieChar) : Type 0 where
  pub front : List AlphaChar
  pub back : List AlphaChar
  pub joined : str ≡ front ++ back
  pub spells_front : Spells self front ls
  pub spells_back : Spells self back ls'

parts :
    (self : AlphaMap) (str : List AlphaChar) (ls ls' : List TrieChar)
    → Spells self str (ls ++ ls')
    → Parts self str ls ls'
parts self str [] ls' h = record {
  front = [];
  back = str;
  joined = refl;
  spells_front = tt;
  spells_back = h;
}
parts self [] (l ∷ ls) ls' h = elim h [ ]
parts self (c ∷ str) (l ∷ ls) ls' h =
    let p = parts self str ls ls' h.1 in
    record {
      front = c ∷ p.front;
      back = p.back;
      joined = ap (λ k. c ∷ k) p.joined;
      spells_front = (h.0, p.spells_front);
      spells_back = p.spells_back;
    }

-- The last character of a string, and the ones before it.
snoc :
    (self : AlphaMap) (str : List AlphaChar) (ls : List TrieChar) (l : TrieChar)
    → Spells self str (ls ++ (l ∷ []))
    → (front : List AlphaChar) × (c : AlphaChar) × (str ≡ front ++ (c ∷ []))
      × Spells self front ls
      × Label self c l
snoc self str ls l h =
    let p = parts self str ls (l ∷ []) h in one p.front p.back p.joined p.spells_front p.spells_back
  where
    one :
        (front back : List AlphaChar)
        → str ≡ front ++ back
        → Spells self front ls
        → Spells self back (l ∷ [])
        → (front : List AlphaChar) × (c : AlphaChar) × (str ≡ front ++ (c ∷ []))
          × Spells self front ls
          × Label self c l
    one front [] e a b = elim b [ ]
    one front (c ∷ []) e a b = (front, c, e, a, b.0)
    one front (c ∷ d ∷ cs) e a b = elim b.1 [ ]

-- The labels of a key, as `store` gives them to the tail: with a terminator of the key's own null,
-- and one more.
pub char_to_trie_str-Spells :
    (self : AlphaMap) (str : List AlphaChar) (ls : List TrieChar)
    → Spells self str ls
    → char_to_trie_str self (str ++ (0 ∷ [])) ≡ some (ls ++ (0 ∷ 0 ∷ []))
unfolding char_to_trie_str map_to_trie_char
char_to_trie_str-Spells self [] [] h = rw (null_label self) refl
char_to_trie_str-Spells self [] (l ∷ ls) h = elim h [ ]
char_to_trie_str-Spells self (c ∷ str) [] h = elim h [ ]
char_to_trie_str-Spells self (c ∷ str) (l ∷ ls) h =
    rw (h.0.maps, char_to_trie_str-Spells self str ls h.1, h.0.byte) refl

module _ {D : Type 0} (trie : RoTrie D) where
  -- A step of `store` along an arc.
  walk-arc :
      (s b : ℕ) (c : AlphaChar) (l : TrieChar) (x : ℕ) (key : List AlphaChar)
      → base_at trie.da.cells s ≡ some (pos b)
      → b < 2 ^ 31
      → length trie.da.cells < 2 ^ 31
      → Label trie.alpha_map c l
      → x ≡ b + l
      → check_at trie.da.cells x ≡ some (pos s)
      → walk_branches trie (pos s) (c ∷ key) ≡ walk_branches trie (pos x) key
  unfolding walk_branches
  walk-arc s b c l x key base low size h at check =
      let sep = is_separate-inner trie.da s b base in
      let step : DArray.walk trie.da (pos s) l ≡ ok (some (pos x)) =
        walk-x trie s b base low size l x at check in
      let step' : DArray.walk trie.da (pos s) (as_u8 (pos l)) ≡ ok (some (pos x)) =
        rw h.byte step in
      let maps = h.maps in let plain : (c == 0) ≡ false = ground (arith, h.no_null) in cc

  -- A step of `store` where there is no arc.
  pub walk-gap :
      (s b : ℕ) (str : List AlphaChar) (ls : List TrieChar)
      → base_at trie.da.cells s ≡ some (pos b)
      → b < 2 ^ 31
      → length trie.da.cells < 2 ^ 31
      → Spells trie.alpha_map str ls
      → first_label ls < 256
      → arc_at trie.da.cells s b (first_label ls) ≡ false
      → walk_branches trie (pos s) (str ++ (0 ∷ [])) ≡ ok (missing (pos s) (str ++ (0 ∷ [])))
  unfolding walk_branches
  walk-gap s b [] [] base low size spells byte gap =
      let sep = is_separate-inner trie.da s b base in
      let step : DArray.walk trie.da (pos s) 0 ≡ ok none =
        walk-arc_at trie.da s b 0 base low size (omega arith) ∙ rw gap in
      let maps = null_label trie.alpha_map in cc
  walk-gap s b [] (l ∷ ls) base low size spells byte gap = elim spells [ ]
  walk-gap s b (c ∷ str) [] base low size spells byte gap = elim spells [ ]
  walk-gap s b (c ∷ str) (l ∷ ls) base low size spells byte gap =
      let sep = is_separate-inner trie.da s b base in
      let step : DArray.walk trie.da (pos s) l ≡ ok none =
        walk-arc_at trie.da s b l base low size (omega (arith, byte)) ∙ rw gap in
      let step' : DArray.walk trie.da (pos s) (as_u8 (pos l)) ≡ ok none = rw spells.0.byte step in
      let maps = spells.0.maps in cc

  -- From the root the walks come to the node to which the labels lead, with the rest of the key.
  module _ (size : length trie.da.cells < 2 ^ 31) where
    parent-low : (x : ℕ) (c : TrieChar) (a : Arrow trie.da.cells x c) → a.base < 2 ^ 31
    parent-low x c a = omega (arith, a.at, check_at-lt trie.da.cells x (pos a.parent) a.check, size)

    pub walk-Way :
        (x : ℕ) (r : List TrieChar) (str key : List AlphaChar)
        → Way trie.da.cells 2 x r
        → Spells trie.alpha_map str (path_of r)
        → walk_branches trie (pos 2) (str ++ key) ≡ walk_branches trie (pos x) key
    walk-Way x [] [] key p h = ap (λ k. walk_branches trie (pos k) key) (sym p)
    walk-Way x [] (c ∷ str) key p h = elim h [ ]
    walk-Way x (l ∷ r) str key p h =
        let (front, c, joined, above, last) = snoc trie.alpha_map str (path_of r) l h in
        ap (λ k. walk_branches trie (pos 2) (k ++ key)) joined
        ∙ ap (walk_branches trie (pos 2)) (append_assoc front (c ∷ []) key)
        ∙ walk-Way p.0.parent r front (c ∷ key) p.1 above
        ∙ walk-arc p.0.parent p.0.base c l x key p.0.has_base (parent-low x l p.0) size last p.0.at
            p.0.check

    pub branches-Way :
        (x : ℕ) (r : List TrieChar) (str key : List AlphaChar) (first : AlphaChar)
        → Way trie.da.cells 2 x r
        → Spells trie.alpha_map str (path_of r)
        → (last : AlphaChar) × (retrieve_branches trie (pos 2) first (str ++ key)
            ≡ retrieve_branches trie (pos x) last key)
    branches-Way x [] [] key first p h =
        (first, ap (λ k. retrieve_branches trie (pos k) first key) (sym p))
    branches-Way x [] (c ∷ str) key first p h = elim h [ ]
    branches-Way x (l ∷ r) str key first p h =
        let (front, c, joined, above, last) = snoc trie.alpha_map str (path_of r) l h in
        let (before, up) = branches-Way p.0.parent r front (c ∷ key) first p.1 above in
        (
          c,
          ap (λ k. retrieve_branches trie (pos 2) first (k ++ key)) joined
              ∙ ap (retrieve_branches trie (pos 2) first) (append_assoc front (c ∷ []) key)
              ∙ up
              ∙ branches-arc trie p.0.parent p.0.base p.0.has_base (parent-low x l p.0) size before
                  c l x key last p.0.at p.0.check,
        )
