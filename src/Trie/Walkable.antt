-- ===== src/Trie/Walkable.antt =====
-- About `walkable_chars` at a node of the double array.
use libdatrie_rs.Common.{
  ℕ, zero, suc, ◌+◌, ◌^◌, ◌≤◌, ◌<◌, ◌≡◌, refl, sym, ap, false, some, List, [], ◌∷◌, arith, ◌==◌,
  length, map, has, has-below, Ascending, if◌then◌else◌,
}
use libdatrie_rs.Common.Int.{pos}
use libdatrie_rs.Common.Run.{ok}
use libdatrie_rs.Types.{TrieChar}
use libdatrie_rs.Symbols.{ArrayVec, iter, capacity}
use libdatrie_rs.AlphaMap.Defs.{AlphaMap, map_to_alpha_char, trie_to_char}
use libdatrie_rs.DArray
use libdatrie_rs.DArray.Labels.{is_arc, labels, output_symbols_lem}
use libdatrie_rs.Trie.Defs.{RoTrie}
use libdatrie_rs.Trie.State.{TrieState, walkable_chars}

map-plain :
    (am : AlphaMap) (m : ℕ) (ls : List TrieChar)
    → Ascending (suc m) ls
    → map_to_alpha_char am ls ≡ map (trie_to_char am) ls
unfolding map_to_alpha_char
map-plain am m [] h = refl
map-plain am m (l ∷ ls) h =
    let plain : (l == 0) ≡ false = ground (arith, h.0) in
    rw plain (ap (λ k. trie_to_char am l ∷ k) (map-plain am l ls h.1))

-- The labels in ascending order, up to the terminator.
map-symbols :
    (am : AlphaMap) (ls : List TrieChar)
    → Ascending 0 ls
    → map_to_alpha_char am ls ≡ (if has 0 ls then [] else map (trie_to_char am) ls)
unfolding map_to_alpha_char
map-symbols am [] h = refl
map-symbols am (zero ∷ ls) h = refl
map-symbols am (suc l ∷ ls) h =
    let none_ = has-below (suc (suc l)) 0 ls h.1 (omega arith) in
    let rest = map-plain am (suc l) ls h.1 in
    let plain : (suc l == 0) ≡ false = ground arith in
    rw (plain, none_) (ap (λ k. trie_to_char am (suc l) ∷ k) rest)

module _ {D : Type 0} (trie : RoTrie D) (v : ArrayVec) (s : TrieState) (b : ℕ)
    (branch : s.is_suffix ≡ false) (base : DArray.get_base trie.da s.index ≡ some (pos b))
    (small : length trie.da.cells < 2 ^ 31) (le : b ≤ length trie.da.cells)
    (low : b + 255 < 2 ^ 31) where
  -- At a node of the double array whose base is in the pool, with fewer than 256 arcs,
  -- TrieState::walkable_chars gives the characters of the labels of all its arcs, in the order of
  -- the labels, unless a key ends at the node: then it gives none, though other characters can be
  -- walked.
  pub walkable_chars_lem :
      length (labels v trie.da s.index b base small le low) ≤ capacity
      → (ls : List TrieChar) × (walkable_chars trie v s
          ≡ ok (
              if is_arc trie.da s.index (pos b) 0
              then []
              else map (trie_to_char trie.alpha_map) ls))
        × Ascending 0 ls
        × ((d : TrieChar) → d ≤ 255 → has d ls ≡ is_arc trie.da s.index (pos b) d)
  unfolding walkable_chars iter
  walkable_chars_lem room =
      let (t, run, ascending, all) =
        output_symbols_lem v trie.da s.index b base small le low room in
      (
        t.symbols,
        rw (branch, run, sym (all 0 (omega arith)))
            (ap ok (map-symbols trie.alpha_map t.symbols ascending)),
        ascending,
        all,
      )
