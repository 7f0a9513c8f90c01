-- ===== src/Trie/Compare.antt =====
-- About the walk of `retrieve` along the suffix at a separate cell.
use libdatrie_rs.Common.{
  ℕ, suc, ◌+◌, ◌^◌, ◌≤◌, ◌<◌, ◌≡◌, refl, sym, ap, ◌∙◌, ◌≢◌, true, false, none, some, List, [], ◌∷◌,
  ◌++◌, arith, length, get_elem?, ◌==◌, has, if◌then◌else◌, All, Bool-cases, inl, inr,
}
use libdatrie_rs.Common.Int.{pos, as_u8, add_i16, add_i16_one}
use libdatrie_rs.Common.Run.{ok}
use libdatrie_rs.Types.{TrieIndex, TrieChar, AlphaChar, trie_char_term}
use libdatrie_rs.AlphaMap.Defs.{IsRanges, AlphaMap, count_chars, char_to_trie}
use libdatrie_rs.AlphaMap.Table.{Tables}
use libdatrie_rs.AlphaMap.Strings.{InAlphabet, label, as_u8-small}
use libdatrie_rs.Tail.Defs.{get_suffix, walk_char, index}
use libdatrie_rs.Trie.Defs.{RoTrie, retrieve_tail}
use libdatrie_rs.Trie.Model.{until_term}
use libdatrie_rs.Trie.Pick.{eqb_list}
use mathlib.Core.List.{append_assoc}

-- The labels of a string over the alphabet, without a terminator.
pub record Label (self : AlphaMap) (c : AlphaChar) (l : TrieChar) : Type 0 where
  pub maps : char_to_trie self c ≡ some (pos l)
  pub byte : as_u8 (pos l) ≡ l
  pub low : l ≤ 255
  pub no_term : l ≢ 0
  pub no_null : c ≢ 0

abbrev pub Spells : AlphaMap → List AlphaChar → List TrieChar → Type 0
Spells self [] [] = Unit {0}
Spells self [] (l ∷ ls) = ⊥
Spells self (c ∷ str) [] = ⊥
Spells self (c ∷ str) (l ∷ ls) = Label self c l × Spells self str ls

pub spelling :
    (self : AlphaMap)
    → Tables self
    → IsRanges 0 self.ranges
    → count_chars self.ranges ≤ 255
    → (str : List AlphaChar) → All (InAlphabet self) str
    → (ls : List TrieChar) × Spells self str ls
spelling self tables sorted few [] h = ([], tt)
spelling self tables sorted few (c ∷ str) h =
    let (ls, rest) = spelling self tables sorted few str h.1 in
    let (i, at, small) = label self c sorted few h.0.0 in
    (
      suc i ∷ ls,
      (
        record {
          maps = tables.to_trie i c at h.0.1;
          byte = as_u8-small (suc i) small;
          low = omega (arith, small);
          no_term = λ e. omega (arith, e);
          no_null = h.0.1;
        },
        rest,
      ),
    )

pub null_label : (self : AlphaMap) → char_to_trie self 0 ≡ some (pos 0)
unfolding char_to_trie
null_label self = refl

get_elem?-middle :
    (xs : List ℕ) (y : ℕ) (ys : List ℕ) → get_elem? (xs ++ (y ∷ ys)) (length xs) ≡ some y
get_elem?-middle [] y ys = refl
get_elem?-middle (x ∷ xs) y ys = get_elem?-middle xs y ys

has-length : (c : ℕ) (xs : List ℕ) → has c xs ≡ true → 0 < length xs
has-length c [] h = cc
has-length c (x ∷ xs) h = omega arith

length-snoc : (xs : List ℕ) (y : ℕ) → length (xs ++ (y ∷ [])) ≡ suc (length xs)
length-snoc [] y = refl
length-snoc (x ∷ xs) y = ap suc (length-snoc xs y)

module _ {D : Type 0} (trie : RoTrie D) (t : TrieIndex) where
  walk_char-middle :
      (pre : List TrieChar) (r l : TrieChar) (rest : List TrieChar)
      → get_suffix trie.tail t ≡ some (pre ++ (r ∷ rest))
      → walk_char trie.tail t (pos (length pre)) l
        ≡ ok (
            if r == l
            then (if r == trie_char_term
                then some (pos (length pre))
                else some (add_i16 (pos (length pre)) (pos 1)))
            else none)
  unfolding walk_char get_suffix index
  walk_char-middle pre r l rest at =
      let here = get_elem?-middle pre r rest in rw (at, walk_char, index, here)

  -- The rest of a key matches the rest of the suffix where these have the same labels up to the
  -- terminator.
  pub retrieve_tail-compare :
      (str : List AlphaChar) (ls pre rest : List TrieChar)
      → Spells trie.alpha_map str ls
      → get_suffix trie.tail t ≡ some (pre ++ rest)
      → has trie_char_term rest ≡ true
      → length pre + length rest ≤ 2 ^ 15
      → retrieve_tail trie t (pos (length pre)) (str ++ (0 ∷ []))
        ≡ ok (eqb_list (until_term rest) ls)
  unfolding retrieve_tail
  retrieve_tail-compare str ls pre [] h at term small = cc
  retrieve_tail-compare [] [] pre (r ∷ rest) h at term small =
      let n = null_label trie.alpha_map in
      let w = walk_char-middle pre r 0 rest at in
      elim (Bool-cases (r == trie_char_term)) [
        | inl same ↦
            (let w' : walk_char trie.tail t (pos (length pre)) 0 ≡ ok (some (pos (length pre))) =
                rw same at w in
              rw (n, retrieve_tail, w', same))
        | inr other ↦
            (let w' : walk_char trie.tail t (pos (length pre)) 0 ≡ ok none = rw other at w in
              rw (n, retrieve_tail, w', other))
      ]
  retrieve_tail-compare [] (l ∷ ls) pre (r ∷ rest) h at term small = elim h [ ]
  retrieve_tail-compare (c ∷ str) [] pre (r ∷ rest) h at term small = elim h [ ]
  retrieve_tail-compare (c ∷ str) (l ∷ ls) pre (r ∷ rest) h at term small =
      let w = walk_char-middle pre r l rest at in
      elim (Bool-cases (r == l)) [
        | inl same ↦
            (let plain : (r == trie_char_term) ≡ false = ground (arith, h.0.no_term) in
              let more : has trie_char_term rest ≡ true = ground arith in
              let inner = has-length trie_char_term rest more in
              let w' : walk_char trie.tail t (pos (length pre)) l
                  ≡ ok (some (pos (length (pre ++ (r ∷ []))))) =
                w
                ∙ rw (
                  same,
                  plain,
                  add_i16_one (length pre) (omega (arith, inner)),
                  length-snoc pre r,
                ) in
              let ih =
                retrieve_tail-compare str ls (pre ++ (r ∷ [])) rest h.1
                  (at ∙ ap some (sym (append_assoc pre (r ∷ []) rest))) more
                  (omega (arith, length-snoc pre r)) in
              rw (h.0.maps, retrieve_tail, h.0.byte, w', plain, same) ih)
        | inr other ↦
            (let w' : walk_char trie.tail t (pos (length pre)) l ≡ ok none = rw other at w in
              rw (h.0.maps, retrieve_tail, h.0.byte, w') (ground (arith, h.0.no_term)))
      ]
