-- ===== src/Trie/Found.antt =====
-- What it takes for the loops of `retrieve` to find the data of a key.
use libdatrie_rs.Common.{
  ◌≡◌, refl, ◌∙◌, Bool, true, false, Option, none, some, List, [], ◌∷◌, ◌++◌, ◌==◌,
}
use libdatrie_rs.Common.Int.{ℤ, pos, as_u8}
use libdatrie_rs.Common.Run.{ok, ◌>>=◌, >>=-eq-ok, ok-inj}
use libdatrie_rs.Types.{TrieIndex, AlphaChar, alpha_char_error}
use libdatrie_rs.AlphaMap
use libdatrie_rs.DArray
use libdatrie_rs.DArray.{DArray, DaCell}
use libdatrie_rs.Tail
use libdatrie_rs.Tail.Defs.{walk_char}
use libdatrie_rs.Trie.Defs.{RoTrie, retrieve_branches, retrieve_tail, ro_retrieve}
use libdatrie_rs.Trie.Suffix.{unwrap-ok}

module _ {D : Type 0} (trie : RoTrie D) where
  -- The character has a label, and the tail goes on with it.
  pub retrieve_tail-step :
      (t : TrieIndex) (i : ℤ) (c : AlphaChar) (p : List AlphaChar)
      → retrieve_tail trie t i (c ∷ p) ≡ ok true
      → (tc : TrieIndex) × (j : ℤ) × (AlphaMap.char_to_trie trie.alpha_map c ≡ some tc)
        × (walk_char trie.tail t i (as_u8 tc) ≡ ok (some j))
        × (retrieve_tail trie t j p ≡ ok true)
  unfolding retrieve_tail
  retrieve_tail-step t i c p h = go (AlphaMap.char_to_trie trie.alpha_map c) refl
    where
      go :
          (o : Option TrieIndex)
          → AlphaMap.char_to_trie trie.alpha_map c ≡ o
          → (tc : TrieIndex) × (j : ℤ) × (AlphaMap.char_to_trie trie.alpha_map c ≡ some tc)
            × (walk_char trie.tail t i (as_u8 tc) ≡ ok (some j))
            × (retrieve_tail trie t j p ≡ ok true)
      go none e = let h' = rw (e, retrieve_tail) at h in cc
      go (some tc) e =
          let (next, e₁, e₂) =
            >>=-eq-ok (walk_char trie.tail t i (as_u8 tc)) _ (rw (e, retrieve_tail) at h) in
          stepped next e₁ e₂
        where
          stepped :
              (next : Option ℤ)
              → walk_char trie.tail t i (as_u8 tc) ≡ ok next
              → (elim next [ none ↦ ok false | some next_idx ↦ retrieve_tail trie t next_idx p ])
                ≡ ok true
              → (tc : TrieIndex) × (j : ℤ) × (AlphaMap.char_to_trie trie.alpha_map c ≡ some tc)
                × (walk_char trie.tail t i (as_u8 tc) ≡ ok (some j))
                × (retrieve_tail trie t j p ≡ ok true)
          stepped none e₁ e₂ = cc
          stepped (some j) e₁ e₂ = (tc, j, e, e₁, e₂)

  -- At a separate node the walk along the branches ends.
  pub branches-separate :
      (s : TrieIndex) (l : AlphaChar) (key : List AlphaChar)
      → DArray.is_separate trie.da s ≡ ok true
      → retrieve_branches trie s l (key ++ (0 ∷ [])) ≡ ok (some (s, key ++ (0 ∷ [])))
  unfolding retrieve_branches
  branches-separate s l [] h = rw (h, retrieve_branches)
  branches-separate s l (c ∷ key) h = rw (h, retrieve_branches)

  pub branches-decide :
      (s : TrieIndex) (l : AlphaChar) (key : List AlphaChar)
      {r : Option (TrieIndex × List AlphaChar)}
      → retrieve_branches trie s l (key ++ (0 ∷ [])) ≡ ok r
      → (b : Bool) × (DArray.is_separate trie.da s ≡ ok b)
  unfolding retrieve_branches
  branches-decide s l [] h =
      let (b, e, rest) = >>=-eq-ok (DArray.is_separate trie.da s) _ h in (b, e)
  branches-decide s l (c ∷ key) h =
      let (b, e, rest) = >>=-eq-ok (DArray.is_separate trie.da s) _ h in (b, e)

  -- At another node the character has a label, and an arc leads on.
  pub branches-step :
      (s : TrieIndex) (l c : AlphaChar) (p : List AlphaChar) (r : TrieIndex × List AlphaChar)
      → DArray.is_separate trie.da s ≡ ok false
      → retrieve_branches trie s l (c ∷ p) ≡ ok (some r)
      → (tc next : TrieIndex) × (AlphaMap.char_to_trie trie.alpha_map c ≡ some tc)
        × (DArray.walk trie.da s (as_u8 tc) ≡ ok (some next))
        × ((elim (c == 0) [
          | true ↦ ok (some (next, c ∷ p))
          | false ↦ retrieve_branches trie next c p
        ])
            ≡ ok (some r))
  unfolding retrieve_branches
  branches-step s l c p r sep h =
      go (AlphaMap.char_to_trie trie.alpha_map c) refl (rw (sep, retrieve_branches) at h)
    where
      go :
          (o : Option TrieIndex)
          → AlphaMap.char_to_trie trie.alpha_map c ≡ o
          → (elim o [
            | none ↦ ok none
            | some tc ↦ (do
              next ← DArray.walk trie.da s (as_u8 tc)
              elim next [
                | none ↦ ok none
                | some next_s ↦ (elim (c == 0) [
                  | true ↦ ok (some (next_s, c ∷ p))
                  | false ↦ retrieve_branches trie next_s c p
                ])
              ])
          ])
            ≡ ok (some r)
          → (tc next : TrieIndex) × (AlphaMap.char_to_trie trie.alpha_map c ≡ some tc)
            × (DArray.walk trie.da s (as_u8 tc) ≡ ok (some next))
            × ((elim (c == 0) [
              | true ↦ ok (some (next, c ∷ p))
              | false ↦ retrieve_branches trie next c p
            ])
                ≡ ok (some r))
      go none e k = cc
      go (some tc) e k =
          let (next, e₁, e₂) = >>=-eq-ok (DArray.walk trie.da s (as_u8 tc)) _ k in arrive next e₁ e₂
        where
          arrive :
              (next : Option TrieIndex)
              → DArray.walk trie.da s (as_u8 tc) ≡ ok next
              → (elim next [
                | none ↦ ok none
                | some next_s ↦ (elim (c == 0) [
                  | true ↦ ok (some (next_s, c ∷ p))
                  | false ↦ retrieve_branches trie next_s c p
                ])
              ])
                ≡ ok (some r)
              → (tc next : TrieIndex) × (AlphaMap.char_to_trie trie.alpha_map c ≡ some tc)
                × (DArray.walk trie.da s (as_u8 tc) ≡ ok (some next))
                × ((elim (c == 0) [
                  | true ↦ ok (some (next, c ∷ p))
                  | false ↦ retrieve_branches trie next c p
                ])
                    ≡ ok (some r))
          arrive none e₁ e₂ = cc
          arrive (some next) e₁ e₂ = (tc, next, e, e₁, e₂)

  -- What `retrieve` came by when it found the data `d`.
  pub record RetrieveFound (key : List AlphaChar) (d : D) : Type 0 where
    pub node : TrieIndex
    pub rest : List AlphaChar
    pub t : TrieIndex
    pub walked :
        retrieve_branches trie (DArray.get_root trie.da) alpha_char_error key
        ≡ ok (some (node, rest))
    pub at : DArray.get_tail_index trie.da node ≡ ok t
    pub matched : retrieve_tail trie t (pos 0) rest ≡ ok true
    pub data_ : Tail.get_data trie.tail t ≡ some d

  pub ro_retrieve-found :
      (key : List AlphaChar) (d : D) → ro_retrieve trie key ≡ ok (some d) → RetrieveFound key d
  unfolding ro_retrieve
  ro_retrieve-found key d h =
      let (walked, e, k) =
        >>=-eq-ok (retrieve_branches trie (DArray.get_root trie.da) alpha_char_error key) _ h in
      at-node walked e k
    where
      take :
          (node t : TrieIndex) (rest : List AlphaChar) (found : Bool)
          → retrieve_branches trie (DArray.get_root trie.da) alpha_char_error key
            ≡ ok (some (node, rest))
          → DArray.get_tail_index trie.da node ≡ ok t
          → retrieve_tail trie t (pos 0) rest ≡ ok found
          → (elim found [
            | false ↦ ok none
            | true ↦ (do d ← DArray.unwrap (Tail.get_data trie.tail t); ok (some d))
          ])
            ≡ ok (some d)
          → RetrieveFound key d
      take node t rest false e at m k = cc
      take node t rest true e at m k =
          let (v, got, same) = >>=-eq-ok (DArray.unwrap (Tail.get_data trie.tail t)) _ k in
          record {
            node = node;
            rest = rest;
            t = t;
            walked = e;
            at = at;
            matched = m;
            data_ = unwrap-ok (Tail.get_data trie.tail t) v got ∙ ok-inj same;
          }

      at-node :
          (walked : Option (TrieIndex × List AlphaChar))
          → retrieve_branches trie (DArray.get_root trie.da) alpha_char_error key ≡ ok walked
          → (elim walked [
            | none ↦ ok none
            | some (node, rest) ↦ (do
              t ← DArray.get_tail_index trie.da node
              found ← retrieve_tail trie t (pos 0) rest
              elim found [
                | false ↦ ok none
                | true ↦ (do d ← DArray.unwrap (Tail.get_data trie.tail t); ok (some d))
              ])
          ])
            ≡ ok (some d)
          → RetrieveFound key d
      at-node none e k = cc
      at-node (some (node, rest)) e k =
          let (t, at, k₁) = >>=-eq-ok (DArray.get_tail_index trie.da node) _ k in
          let (found, m, k₂) = >>=-eq-ok (retrieve_tail trie t (pos 0) rest) _ k₁ in
          take node t rest found e at m k₂
