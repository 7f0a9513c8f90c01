-- ===== src/AlphaMap/Strings.antt =====
-- Strings over the alphabet: `char_to_trie_str` and `map_to_alpha_char`.
use libdatrie_rs.Common.{
  ℕ, suc, ◌≤◌, ◌<◌, ◌≡◌, refl, ap, ◌∙◌, ◌≢◌, true, false, some, List, [], ◌∷◌, arith, get_elem?,
  has, All, get_elem?_lt, Bool-cases, inl, inr, ◌==◌, ==_iff,
}
use libdatrie_rs.Common.Int.{pos, as_u8}
use libdatrie_rs.Types.{AlphaChar, TrieChar, trie_char_term}
use libdatrie_rs.AlphaMap.Defs.{
  IsRanges, in_ranges, AlphaMap, count_chars, map_to_trie_char, char_to_trie_str, map_to_alpha_char,
}
use libdatrie_rs.AlphaMap.Chars.{chars, length-chars, has-chars}
use libdatrie_rs.AlphaMap.Table.{Tables}

has-get : (c : ℕ) (xs : List ℕ) → has c xs ≡ true → (i : ℕ) × (get_elem? xs i ≡ some c)
has-get c [] h = cc
has-get c (x ∷ xs) h = elim (Bool-cases (x == c)) [
  | inl same ↦ (0, ap some ((==_iff x c).0 same))
  | inr other ↦ (let (i, e) = has-get c xs (ground arith) in (suc i, e))
]

-- A character of the alphabet that a key may contain.
abbrev pub InAlphabet : AlphaMap → AlphaChar → Type 0
InAlphabet self c = (in_ranges c self.ranges ≡ true) × (c ≢ 0)

-- The label of a character, of at most 255.
pub label :
    (self : AlphaMap) (c : AlphaChar)
    → IsRanges 0 self.ranges
    → count_chars self.ranges ≤ 255
    → in_ranges c self.ranges ≡ true
    → (i : ℕ) × (get_elem? (chars self.ranges) i ≡ some c) × (suc i < 256)
label self c sorted few h =
    let (i, e) = has-get c (chars self.ranges) (has-chars 0 c self.ranges sorted ∙ h) in
    (i, e, omega (arith, get_elem?_lt (chars self.ranges) i e, length-chars 0 self.ranges sorted))

pub not_term : (n : ℕ) → (suc n == trie_char_term) ≡ false
not_term n = ground arith

pub as_u8-small : (n : ℕ) → n < 256 → as_u8 (pos n) ≡ n
as_u8-small n h = ground arith

-- In an alphabet of at most 255 characters, a string of them is taken to labels by
-- `char_to_trie_str`, and `map_to_alpha_char` takes these labels back to the string.
pub char_to_trie_str-map_to_alpha_char :
    (self : AlphaMap)
    → Tables self
    → IsRanges 0 self.ranges
    → count_chars self.ranges ≤ 255
    → (str : List AlphaChar) → All (InAlphabet self) str
    → (labels : List TrieChar) × (char_to_trie_str self str ≡ some labels)
      × (map_to_alpha_char self labels ≡ str)
unfolding char_to_trie_str map_to_trie_char map_to_alpha_char
char_to_trie_str-map_to_alpha_char self tables sorted few [] h = (trie_char_term ∷ [], refl, refl)
char_to_trie_str-map_to_alpha_char self tables sorted few (c ∷ str) h =
    let (labels, e, back) = char_to_trie_str-map_to_alpha_char self tables sorted few str h.1 in
    let (i, at, small) = label self c sorted few h.0.0 in
    (
      suc i ∷ labels,
      rw (tables.to_trie i c at h.0.1, e, as_u8-small (suc i) small),
      rw (not_term i, tables.to_char i c at, back),
    )
