-- ===== src/Trie/Retrieve.antt =====
-- About `store` of a key with a new first character, and `retrieve` after it.
use libdatrie_rs.Common.{
  ℕ, suc, ◌+◌, ◌^◌, ◌<◌, ◌≤◌, ◌≡◌, sym, ap, subst, ◌∙◌, true, false, some, none, List, [], ◌∷◌,
  ◌++◌, arith, All, length, has, ◌==◌,
}
use libdatrie_rs.Common.Int.{pos, as_u8, +ℤ_pos}
use libdatrie_rs.Common.Run.{ok}
use libdatrie_rs.Types.{TrieData, TrieIndex, AlphaChar, TrieChar, alpha_char_error}
use libdatrie_rs.Symbols.{ArrayVec}
use libdatrie_rs.AlphaMap.Defs.{IsRanges, count_chars, char_to_trie, char_to_trie_str}
use libdatrie_rs.AlphaMap.Table.{Tables}
use libdatrie_rs.AlphaMap.Strings.{InAlphabet}
use libdatrie_rs.DArray
use libdatrie_rs.DArray.{DArray}
use libdatrie_rs.DArray.Arcs.{free-check, next-small}
use libdatrie_rs.DArray.Cells.{get_root, base_of}
use libdatrie_rs.DArray.Kinds.{is_separate-inner}
use libdatrie_rs.DArray.Fields.{base_at}
use libdatrie_rs.DArray.FreeList.{IsPool}
use libdatrie_rs.Tail
use libdatrie_rs.Tail.Free.{IsFree}
use libdatrie_rs.Trie.Defs.{
  Trie, RoTrie, missing, walk_branches, retrieve_branches, retrieve_tail, ro_retrieve, retrieve,
}
use libdatrie_rs.Trie.Store.{store, store_conditionally, store_missing}
use libdatrie_rs.Trie.Branch.{branch_in_branch_lem}
use libdatrie_rs.Trie.Suffix.{nonzero}
use libdatrie_rs.Trie.Found.{branches-separate}
use libdatrie_rs.Trie.Match.{
  Labels, Labels-cons, labels, char_to_trie_str-Labels, Here-all, retrieve_tail-labels,
}

module _ {D : Type 0} where
  -- A key with its first character on an arc from the root and the rest in the tail.
  found :
      (ro : RoTrie D) (c l : ℕ) (str : List AlphaChar) (ls cs : List TrieChar) (x block : TrieIndex)
      (value : D)
      → char_to_trie ro.alpha_map c ≡ some (pos l)
      → as_u8 (pos l) ≡ l
      → (c == 0) ≡ false
      → Labels ro.alpha_map str ls
      → DArray.is_separate ro.da (pos 2) ≡ ok false
      → DArray.walk ro.da (pos 2) l ≡ ok (some x)
      → DArray.is_separate ro.da x ≡ ok true
      → DArray.get_tail_index ro.da x ≡ ok block
      → Tail.get_suffix ro.tail block ≡ some (ls ++ cs)
      → Tail.get_data ro.tail block ≡ some value
      → length str < 2 ^ 15
      → ro_retrieve ro (c ∷ str ++ (0 ∷ [])) ≡ ok (some value)
  unfolding ro_retrieve retrieve_branches get_root
  found ro c l str ls cs x block value e same ne rest root arc sep index suffix data_ small =
      let walked : retrieve_branches ro (get_root ro.da) alpha_char_error (c ∷ str ++ (0 ∷ []))
          ≡ ok (some (x, str ++ (0 ∷ []))) =
        let stop = branches-separate ro x c str sep in cc in
      let whole : retrieve_tail ro block (pos 0) (str ++ (0 ∷ [])) ≡ ok true =
        retrieve_tail-labels ro block (ls ++ cs) suffix str ls 0 rest (Here-all ls cs)
          (omega (arith, small)) in
      rw (walked, index, whole, data_)

  walks-missing :
      (ro : RoTrie D) (c l : ℕ) (str : List AlphaChar)
      → char_to_trie ro.alpha_map c ≡ some (pos l)
      → as_u8 (pos l) ≡ l
      → DArray.is_separate ro.da (pos 2) ≡ ok false
      → DArray.walk ro.da (pos 2) l ≡ ok none
      → walk_branches ro (get_root ro.da) (c ∷ str) ≡ ok (missing (pos 2) (c ∷ str))
  unfolding walk_branches get_root
  walks-missing ro c l str e same root arc = cc

-- No arc leads to a free cell.
free-walk :
    (v : ArrayVec) (self : DArray) (b l : ℕ) (xs : List ℕ) (pool : IsPool self xs)
    → has (b + l) xs ≡ true
    → base_at self.cells 2 ≡ some (pos b)
    → b + l < 2 ^ 31
    → DArray.walk self (pos 2) l ≡ ok none
unfolding DArray.walk DArray.get_check DArray.get_base
free-walk v self b l xs pool free base small =
    let (n, e) = free-check v self (b + l) xs pool free in
    rw (base, +ℤ_pos b l small, e) (ground arith)

pos-inj : {a b : ℕ} → some (pos a) ≡ some (pos b) → a ≡ b
pos-inj e = cc

module _ {D : Type 0} (v : ArrayVec) (t : TrieData D) (self : Trie D) (b l : ℕ) (c : AlphaChar)
    (str : List AlphaChar) (value : D) (xs ys : List ℕ) (tables : Tables self.ro.alpha_map)
    (sorted : IsRanges 0 self.ro.alpha_map.ranges)
    (few : count_chars self.ro.alpha_map.ranges ≤ 255)
    (known : All (InAlphabet self.ro.alpha_map) (c ∷ str)) (pool : IsPool self.ro.da xs)
    (parent : has 2 (1 ∷ xs) ≡ false) (base : base_at self.ro.da.cells 2 ≡ some (pos b))
    (positive : 0 < b) (char : char_to_trie self.ro.alpha_map c ≡ some (pos l))
    (free : has (b + l) xs ≡ true) (blocks : IsFree self.ro.tail ys)
    (room : suc (length self.ro.tail.tails) < 2 ^ 31) (short : length str < 2 ^ 15) where
  -- At a root with a positive base, whose cell for the label of the first character is free,
  -- Trie::store of a null-terminated key of 1 to 2^15 characters without null, over an alphabet of
  -- at most 255 characters whose tables and sorted ranges are right, succeeds with well-formed free
  -- lists and room for one more tail block, and Trie::retrieve of the key then finds the data that
  -- was stored.
  pub store-retrieve :
      (self' : Trie D) × (store v t self (c ∷ str ++ (0 ∷ [])) value ≡ ok (self', true))
      × (retrieve self' (c ∷ str ++ (0 ∷ [])) ≡ ok (some value))
  unfolding store store_conditionally store_missing retrieve
  store-retrieve =
      let (all, has_labels) = labels self.ro.alpha_map tables sorted few (c ∷ str) known in
      let (l', ls, shape, e, same, n, rest) = Labels-cons self.ro.alpha_map c str all has_labels in
      let am = self.ro.alpha_map in
      let free' : has (b + l') xs ≡ true =
        subst (λ k. has (b + k) xs ≡ true) (pos-inj (sym char ∙ e)) free in
      let small : b + l' < 2 ^ 31 =
        next-small v self.ro.da 2 b l' xs pool parent base positive free' in
      let gone = free-walk v self.ro.da b l' xs pool free' base small in
      let root = is_separate-inner self.ro.da 2 b base in
      let (self', run, new) =
        branch_in_branch_lem t v self 2 b l' (ls ++ (0 ∷ [])) value xs ys pool parent base positive
          free' blocks room in
      let root' : DArray.is_separate self'.ro.da (pos 2) ≡ ok false =
        is_separate-inner self'.ro.da 2 b (ap base_of (new.kept_cells 2 parent) ∙ base) in
      let key : char_to_trie_str am (c ∷ str ++ (0 ∷ [])) ≡ some (l' ∷ ls ++ (0 ∷ [])) =
        char_to_trie_str-Labels am (c ∷ str) all has_labels
        ∙ ap (λ x. some (x ++ (0 ∷ []))) shape in
      (
        self',
        rw (walks-missing self.ro c l' (str ++ (0 ∷ [])) e same root gone, store_missing, key, run),
        found self'.ro c l' str ls (0 ∷ []) (pos (b + l')) new.block value (rw new.alphabet e) same
            (nonzero c known.0.1) (rw new.alphabet rest) root' new.arc new.separate new.tail_index
            (rw n at new.suffix) new.data_ short,
      )
