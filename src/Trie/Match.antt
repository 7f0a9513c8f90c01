-- ===== src/Trie/Match.antt =====
-- About the walk of `retrieve` along a suffix.
use libdatrie_rs.Common.{
  ℕ, suc, ◌+◌, ◌^◌, ◌<◌, ◌≤◌, ◌≡◌, refl, ap, ◌∙◌, true, false, some, List, [], ◌∷◌, ◌++◌, arith,
  All, length, get_elem?, ◌==◌,
}
use libdatrie_rs.Common.Int.{pos, as_u8, add_i16_one}
use libdatrie_rs.Common.Run.{ok}
use libdatrie_rs.Types.{TrieIndex, TrieChar, AlphaChar, trie_char_term}
use libdatrie_rs.AlphaMap.Defs.{
  IsRanges, AlphaMap, count_chars, char_to_trie, char_to_trie_str, map_to_trie_char,
}
use libdatrie_rs.AlphaMap.Table.{Tables}
use libdatrie_rs.AlphaMap.Strings.{InAlphabet, label, as_u8-small, not_term}
use libdatrie_rs.Tail.Defs.{get_suffix, walk_char, index}
use libdatrie_rs.Trie.Defs.{RoTrie, retrieve_tail}

-- The elements of `ys` stand in `xs` from position `i` on.
pub Here : List ℕ → ℕ → List ℕ → Type 0
Here xs i [] = Unit
Here xs i (y ∷ ys) = (get_elem? xs i ≡ some y) × Here xs (suc i) ys

Here-cons : (x : ℕ) (xs : List ℕ) (i : ℕ) (ys : List ℕ) → Here xs i ys → Here (x ∷ xs) (suc i) ys
unfolding Here
Here-cons x xs i [] h = tt
Here-cons x xs i (y ∷ ys) h = (h.0, Here-cons x xs (suc i) ys h.1)

pub Here-all : (xs ys : List ℕ) → Here (xs ++ ys) 0 xs
unfolding Here
Here-all [] ys = tt
Here-all (x ∷ xs) ys = (refl, Here-cons x (xs ++ ys) 0 xs (Here-all xs ys))

cons-head : {x y : ℕ} {xs ys : List ℕ} → x ∷ xs ≡ y ∷ ys → x ≡ y
cons-head e = cc

-- The labels of a string that is in the alphabet.
pub Labels : AlphaMap → List AlphaChar → List TrieChar → Type 0
Labels self [] labels = labels ≡ trie_char_term ∷ []
Labels self (c ∷ str) [] = ⊥
Labels self (c ∷ str) (l ∷ labels) =
    (char_to_trie self c ≡ some (pos l))
    × (as_u8 (pos l) ≡ l)
    × ((l == trie_char_term) ≡ false)
    × Labels self str labels

-- A string over the alphabet has labels.
pub labels :
    (self : AlphaMap)
    → Tables self
    → IsRanges 0 self.ranges
    → count_chars self.ranges ≤ 255
    → (str : List AlphaChar) → All (InAlphabet self) str
    → (ls : List TrieChar) × Labels self str ls
unfolding Labels
labels self tables sorted few [] h = (trie_char_term ∷ [], refl)
labels self tables sorted few (c ∷ str) h =
    let (ls, rest) = labels self tables sorted few str h.1 in
    let (i, at, small) = label self c sorted few h.0.0 in
    (suc i ∷ ls, (tables.to_trie i c at h.0.1, as_u8-small (suc i) small, not_term i, rest))

pub Labels-cons :
    (self : AlphaMap) (c : AlphaChar) (str : List AlphaChar) (ls : List TrieChar)
    → Labels self (c ∷ str) ls
    → (l : TrieChar) × (rest : List TrieChar) × (ls ≡ l ∷ rest)
      × (char_to_trie self c ≡ some (pos l))
      × (as_u8 (pos l) ≡ l)
      × ((l == trie_char_term) ≡ false)
      × Labels self str rest
unfolding Labels
Labels-cons self c str [] h = elim h [ ]
Labels-cons self c str (l ∷ rest) h = (l, rest, refl, h.0, h.1, h.2, h.3)

-- `char_to_trie_str` of a string with its null gives the labels and one terminator more.
pub char_to_trie_str-Labels :
    (self : AlphaMap) (str : List AlphaChar) (ls : List TrieChar)
    → Labels self str ls
    → char_to_trie_str self (str ++ (0 ∷ [])) ≡ some (ls ++ (trie_char_term ∷ []))
unfolding char_to_trie_str map_to_trie_char Labels char_to_trie
char_to_trie_str-Labels self [] ls h = rw h refl
char_to_trie_str-Labels self (c ∷ str) [] h = elim h [ ]
char_to_trie_str-Labels self (c ∷ str) (l ∷ ls) h =
    let (e, same, n, rest) = h in rw (e, char_to_trie_str-Labels self str ls rest, same) refl

index-at : (xs : List ℕ) (i x : ℕ) → get_elem? xs i ≡ some x → index xs i ≡ ok x
unfolding index
index-at xs i x e = rw (e, index)

module _ {D : Type 0} (trie : RoTrie D) (t : TrieIndex) (suffix : List TrieChar)
    (at : get_suffix trie.tail t ≡ some suffix) where
  step :
      (i l : ℕ)
      → get_elem? suffix i ≡ some l
      → (l == trie_char_term) ≡ false
      → suc i < 2 ^ 15
      → walk_char trie.tail t (pos i) l ≡ ok (some (pos (suc i)))
  unfolding walk_char get_suffix
  step i l e n small =
      rw (at, walk_char, index-at suffix i l e, n, add_i16_one i small) (ground arith)

  stop :
      (i : ℕ)
      → get_elem? suffix i ≡ some trie_char_term
      → walk_char trie.tail t (pos i) trie_char_term ≡ ok (some (pos i))
  unfolding walk_char get_suffix
  stop i e = rw (at, walk_char, index-at suffix i trie_char_term e)

  -- A string whose labels stand in the suffix, with the terminator, matches.
  pub retrieve_tail-labels :
      (str : List AlphaChar) (labels : List TrieChar) (i : ℕ)
      → Labels trie.alpha_map str labels
      → Here suffix i labels
      → i + length str < 2 ^ 15
      → retrieve_tail trie t (pos i) (str ++ (0 ∷ [])) ≡ ok true
  unfolding retrieve_tail Labels Here char_to_trie
  retrieve_tail-labels [] [] i h k small = cc
  retrieve_tail-labels [] (l ∷ labels) i h k small = rw (stop i (k.0 ∙ ap some (cons-head h))) refl
  retrieve_tail-labels (c ∷ str) [] i h k small = elim h [ ]
  retrieve_tail-labels (c ∷ str) (l ∷ labels) i h k small =
      let (e, same, n, rest) = h in
      rw (e, retrieve_tail, same, step i l k.0 n (omega arith))
        (retrieve_tail-labels str labels (suc i) rest k.1 (omega arith))
