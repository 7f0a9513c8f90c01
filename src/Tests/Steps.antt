-- ===== src/Tests/Steps.antt =====
-- The steps of the components, at small states.
use libdatrie_rs.Common.{
  sym, subst, ◌∙◌, ◌≢◌, List, ℕ, ◌≡◌, refl, some, [], ◌∷◌, ◌++◌, arith, length,
}
use libdatrie_rs.Common.Int.{ℤ, pos}
use libdatrie_rs.Common.Int
use libdatrie_rs.Common.Run.{ok}
use libdatrie_rs.Types.{TrieChar, trie_index_max}
use libdatrie_rs.Types.Text.{as_alphachar, ac_to_string, ac_to_string-as_alphachar}
use libdatrie_rs.Crates.{array_vec, range_set}
use libdatrie_rs.AlphaMap
use libdatrie_rs.AlphaMap.{AlphaMap, IsRanges}
use libdatrie_rs.AlphaMap.Table.{Tables, recalc_work_area_lem}
use libdatrie_rs.AlphaMap.Strings.{char_to_trie_str-map_to_alpha_char}
use libdatrie_rs.AlphaMap.AddRange.{Extended, add_range_lem}
use libdatrie_rs.Symbols
use libdatrie_rs.Symbols.Defs.{Symbols}
use libdatrie_rs.Symbols.Laws.{Added, add-Added}
use libdatrie_rs.Tail.Defs.{Tail, TailBlock, alloc_block, free_block}
use libdatrie_rs.Tail.Free.{IsFree}
use libdatrie_rs.Tail.FreeBlock.{Freed, free_block_lem}
use libdatrie_rs.Tail.AllocBlock.{Allocated, alloc_block_lem, free_block-zero}
use libdatrie_rs.Tests.{numbers, one_map}

abbrev block : ℕ → TailBlock ℤ
block n = record { next_free = pos n; data_ = pos 9; suffix = some (5 ∷ 0 ∷ []) }

-- Blocks 1 and 3 of five are free.
abbrev blocks : Tail ℤ
blocks = record { tails = block 0 ∷ block 3 ∷ block 0 ∷ block 0 ∷ block 0 ∷ []; first_free = pos 1 }

blocks-IsFree : IsFree blocks (1 ∷ 3 ∷ [])
blocks-IsFree = record {
  chain = (refl, (block 3, refl, (refl, (block 0, refl, refl))));
  sorted = (omega arith, (omega arith, tt));
  small = omega arith;
}

alloc_block_lem_example :
    (self' : Tail ℤ) × (alloc_block numbers blocks ≡ ok (self', pos 2))
    × Allocated numbers blocks (1 ∷ 3 ∷ []) 1 self'
alloc_block_lem_example = alloc_block_lem numbers blocks (1 ∷ 3 ∷ []) blocks-IsFree (omega arith)

free_block_lem_example :
    (self' : Tail ℤ) × (free_block numbers blocks (pos 3) ≡ ok self')
    × Freed numbers blocks 2 (1 ∷ 3 ∷ []) self'
free_block_lem_example =
    free_block_lem numbers blocks 2 (1 ∷ 3 ∷ []) blocks-IsFree (omega arith) (omega arith) refl

free_block-zero_example :
    (self' : Tail ℤ) × (free_block numbers blocks (pos 1) ≡ ok self')
    × IsFree self' []
    × (length self'.tails ≡ 5)
free_block-zero_example = free_block-zero numbers blocks (1 ∷ 3 ∷ []) blocks-IsFree (omega arith)

abbrev two : Symbols
two = record { symbols = 3 ∷ 7 ∷ [] }

add-Added_example : (t : Symbols) × (Symbols.add array_vec two 5 ≡ ok t) × Added two 5 t
add-Added_example = add-Added array_vec two 5 (omega arith, (omega arith, tt)) (omega arith)

add_range_lem_example :
    (self' : AlphaMap) × (AlphaMap.add_range range_set one_map (101, 102) ≡ ok self')
    × Extended one_map 101 102 self'
add_range_lem_example =
    add_range_lem range_set one_map 101 102 (omega arith) ((97, 99) ∷ (101, 102) ∷ []) (omega arith)
      (range_set.insert_last ((97, 99) ∷ []) 101 102 (omega arith, omega arith, tt) (omega arith)
        (omega arith, tt))
      (omega arith)

ac_to_string-as_alphachar_example :
    ac_to_string (as_alphachar (0x0e01 ∷ 0x61 ∷ []) ++ (7 ∷ [])) ≡ some (0x0e01 ∷ 0x61 ∷ [])
ac_to_string-as_alphachar_example =
    ac_to_string-as_alphachar (0x0e01 ∷ 0x61 ∷ []) (7 ∷ [])
      ((refl, λ e. omega (arith, e)), ((refl, λ e. omega (arith, e)), tt))

-- Two ranges, with a gap between them.
abbrev gapped : AlphaMap
gapped = record {
  alpha_begin = 97;
  alpha_end = 101;
  ranges = (97, 98) ∷ (101, 101) ∷ [];
  alpha_to_trie_map = pos 1 ∷ pos 2 ∷ trie_index_max ∷ trie_index_max ∷ pos 3 ∷ [];
  trie_to_alpha_map = 0 ∷ 97 ∷ 98 ∷ 101 ∷ [];
}

gapped-recalc : AlphaMap.recalc_work_area gapped ≡ ok gapped
unfolding AlphaMap.recalc_work_area AlphaMap.Defs.recalc_ranges AlphaMap.Defs.fill_ranges
    AlphaMap.Defs.fill_range AlphaMap.Defs.assign AlphaMap.Defs.write_at Int.◌+ℤ◌
gapped-recalc = refl

gapped-ranges : IsRanges 0 gapped.ranges
gapped-ranges = (omega arith, omega arith, (omega arith, omega arith, tt))

gapped-ne : gapped.ranges ≢ []
gapped-ne e = cc

from_ok : {A : Type 0} {a b : A} → ok a ≡ ok b → a ≡ b
from_ok e = cc

gapped-Tables : Tables gapped
gapped-Tables =
    let (self', e, kept, tables) =
      recalc_work_area_lem gapped gapped-ranges (λ e. gapped-ne e) (omega arith) in
    let same : self' ≡ gapped = from_ok (sym e ∙ gapped-recalc) in subst Tables same tables

char_to_trie_str-map_to_alpha_char_example :
    (labels : List TrieChar) × (AlphaMap.char_to_trie_str gapped (101 ∷ 98 ∷ []) ≡ some labels)
    × (AlphaMap.map_to_alpha_char gapped labels ≡ 101 ∷ 98 ∷ [])
char_to_trie_str-map_to_alpha_char_example =
    char_to_trie_str-map_to_alpha_char gapped gapped-Tables gapped-ranges (omega arith)
      (101 ∷ 98 ∷ []) ((refl, λ e. omega (arith, e)), ((refl, λ e. omega (arith, e)), tt))
