-- ===== src/Trie/Present.antt =====
-- The tail block at which the walk of `store` ends, and `retrieve`, which finds its data.
use libdatrie_rs.Common.{
  ◌≡◌, ◌≢◌, refl, sym, ap, ◌∙◌, Bool, true, false, Option, none, some, List, [], ◌∷◌, ◌++◌, All,
  if◌then◌else◌,
}
use libdatrie_rs.Common.Int.{pos}
use libdatrie_rs.Common.Run.{Run, ok, ◌>>=◌, bind_ext, bind_group, >>=-eq-ok, ok-inj}
use libdatrie_rs.Types.{TrieIndex, AlphaChar, alpha_char_error}
use libdatrie_rs.DArray
use libdatrie_rs.Tail
use libdatrie_rs.Tail.{Tail}
use libdatrie_rs.Trie.Defs.{
  RoTrie, Branches, reached, missing, refused, Suffix, matched, differs, unknown, walk_branches,
  walk_tail, retrieve_branches, retrieve_tail, ro_retrieve,
}
use libdatrie_rs.Trie.Outcome.{
  is_match, block_walked, block_retrieved, walk_branches-retrieve_branches,
}

module _ {D : Type 0} (ro : RoTrie D) where
  -- The walk of `store` ends at a separate node, and the tail matches.
  pub record Here (key : List AlphaChar) (t : TrieIndex) : Type 0 where
    pub node : TrieIndex
    pub rest : List AlphaChar
    pub walked : walk_branches ro (DArray.get_root ro.da) key ≡ ok (reached node rest)
    pub at : DArray.get_tail_index ro.da node ≡ ok t
    pub whole : walk_tail ro t (pos 0) rest ≡ ok matched

  pub here :
      (key : List AlphaChar) (t : TrieIndex)
      → (walk_branches ro (DArray.get_root ro.da) key >>= block_walked ro) ≡ ok (some t)
      → Here key t
  here key t h =
      let (w, e, k) = >>=-eq-ok (walk_branches ro (DArray.get_root ro.da) key) _ h in go w e k
    where
      match_of :
          (node u : TrieIndex) (rest : List AlphaChar) (s : Suffix)
          → walk_branches ro (DArray.get_root ro.da) key ≡ ok (reached node rest)
          → DArray.get_tail_index ro.da node ≡ ok u
          → walk_tail ro u (pos 0) rest ≡ ok s
          → ok (if is_match s then some u else none) ≡ ok (some t)
          → Here key t
      match_of node u rest differs e e₁ e₂ k = cc
      match_of node u rest unknown e e₁ e₂ k = cc
      match_of node u rest matched e e₁ e₂ k =
          let same : u ≡ t = cc in
          record {
            node = node;
            rest = rest;
            walked = e;
            at = rw (e₁, same);
            whole = rw (sym same) e₂;
          }

      go :
          (w : Branches)
          → walk_branches ro (DArray.get_root ro.da) key ≡ ok w
          → block_walked ro w ≡ ok (some t)
          → Here key t
      go refused e k = cc
      go (missing s p) e k = cc
      go (reached s p) e k =
          let (u, e₁, k₁) = >>=-eq-ok (DArray.get_tail_index ro.da s) _ k in
          let (found, k₂, k₃) =
            >>=-eq-ok (walk_tail ro u (pos 0) p >>= λ x. ok (is_match x)) _ k₁ in
          let (x, e₂, k₄) = >>=-eq-ok (walk_tail ro u (pos 0) p) _ k₂ in
          match_of s u p x e e₁ e₂ (rw (ok-inj k₄) k₃)

  -- `retrieve`, from the tail block.
  abbrev pub fetch : Option TrieIndex → Run (Option D)
  fetch none = ok none
  fetch (some t) = do d ← DArray.unwrap (Tail.get_data ro.tail t); ok (some d)

  fetch_if :
      (t : TrieIndex) (found : Bool)
      → fetch (if found then some t else none) ≡ elim found [
        | false ↦ ok none
        | true ↦ (do d ← DArray.unwrap (Tail.get_data ro.tail t); ok (some d))
      ]
  fetch_if t true = refl
  fetch_if t false = refl

  fetched :
      (walked : Option (TrieIndex × List AlphaChar))
      → (block_retrieved ro walked >>= fetch) ≡ elim walked [
        | none ↦ ok none
        | some (node, rest) ↦ (do
          t ← DArray.get_tail_index ro.da node
          found ← retrieve_tail ro t (pos 0) rest
          elim found [
            | false ↦ ok none
            | true ↦ (do d ← DArray.unwrap (Tail.get_data ro.tail t); ok (some d))
          ])
      ]
  fetched none = refl
  fetched (some (node, rest)) =
      sym (bind_group (DArray.get_tail_index ro.da node) _ fetch)
      ∙ bind_ext (DArray.get_tail_index ro.da node) (λ t.
        sym (bind_group (retrieve_tail ro t (pos 0) rest) _ fetch)
        ∙ bind_ext (retrieve_tail ro t (pos 0) rest) (fetch_if t))

  -- `retrieve` finds the data of the block at which the walk of `store` ends.
  pub retrieve-fetch :
      (key : List AlphaChar)
      → All (λ c. c ≢ 0) key
      → ((walk_branches ro (DArray.get_root ro.da) (key ++ (0 ∷ [])) >>= block_walked ro) >>= fetch)
        ≡ ro_retrieve ro (key ++ (0 ∷ []))
  unfolding ro_retrieve
  retrieve-fetch key h =
      let root = DArray.get_root ro.da in
      ap (λ r. r >>= fetch) (walk_branches-retrieve_branches ro root alpha_char_error key h)
      ∙ sym (bind_group (retrieve_branches ro root alpha_char_error (key ++ (0 ∷ []))) _ fetch)
      ∙ bind_ext (retrieve_branches ro root alpha_char_error (key ++ (0 ∷ []))) fetched
