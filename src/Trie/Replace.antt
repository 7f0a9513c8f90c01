-- ===== src/Trie/Replace.antt =====
-- `retrieve` after the data of a tail block is replaced.
use libdatrie_rs.Common.{◌≡◌, refl, ap, true, false, Option, none, some, List, [], ◌∷◌, ◌==◌}
use libdatrie_rs.Common.Int.{ℤ, pos, as_u8}
use libdatrie_rs.Common.Run.{ok, ◌>>=◌}
use libdatrie_rs.Types.{TrieIndex, TrieChar, AlphaChar, alpha_char_error}
use libdatrie_rs.AlphaMap
use libdatrie_rs.DArray
use libdatrie_rs.Tail
use libdatrie_rs.Tail.{Tail}
use libdatrie_rs.Tail.Defs.{get_suffix, walk_char}
use libdatrie_rs.Trie.Defs.{RoTrie, retrieve_branches, retrieve_tail, ro_retrieve}
use libdatrie_rs.Trie.Found.{RetrieveFound}
use mathlib.Core.Path.{fun_ext}

module _ {D : Type 0} (ro : RoTrie D) (tail : Tail D)
    (same : (s : TrieIndex) → get_suffix tail s ≡ get_suffix ro.tail s) where
  abbrev pub with_tail : RoTrie D
  with_tail = record ro { tail = tail }

  same_walk_char :
      (t : TrieIndex) (i : ℤ) (c : TrieChar) → walk_char tail t i c ≡ walk_char ro.tail t i c
  unfolding walk_char
  same_walk_char t i c = rw (walk_char, same t) refl

  same_branches :
      (key : List AlphaChar) (s : TrieIndex) (l : AlphaChar)
      → retrieve_branches with_tail s l key ≡ retrieve_branches ro s l key
  unfolding retrieve_branches
  same_branches [] s l = refl
  same_branches (ch ∷ key) s l =
      ap
        (λ f. DArray.is_separate ro.da s >>= λ separate. elim separate [
          | true ↦ ok (some (s, ch ∷ key))
          | false ↦ (elim (AlphaMap.char_to_trie ro.alpha_map ch) [
            | none ↦ ok none
            | some tc ↦
                (DArray.walk ro.da s (as_u8 tc) >>= λ next. elim next [
                  | none ↦ ok none
                  | some next_s ↦ (elim (ch == 0) [
                    | true ↦ ok (some (next_s, ch ∷ key))
                    | false ↦ f next_s
                  ])
                ])
          ])
        ])
        (fun_ext (λ next. same_branches key next ch))

  same_tail :
      (t : TrieIndex) (key : List AlphaChar) (i : ℤ)
      → retrieve_tail with_tail t i key ≡ retrieve_tail ro t i key
  unfolding retrieve_tail
  same_tail t [] i = refl
  same_tail t (ch ∷ key) i = go (same_tail t key) (AlphaMap.char_to_trie ro.alpha_map ch)
    where
      go :
          ((j : ℤ) → retrieve_tail with_tail t j key ≡ retrieve_tail ro t j key)
          → (o : Option TrieIndex)
          → (elim o [
            | none ↦ ok false
            | some tc ↦
                (walk_char tail t i (as_u8 tc) >>= λ next. elim next [
                  | none ↦ ok false
                  | some next_idx ↦ retrieve_tail with_tail t next_idx key
                ])
          ])
            ≡ (elim o [
              | none ↦ ok false
              | some tc ↦
                  (walk_char ro.tail t i (as_u8 tc) >>= λ next. elim next [
                    | none ↦ ok false
                    | some next_idx ↦ retrieve_tail ro t next_idx key
                  ])
            ])
      go again none = refl
      go again (some tc) = rw (same_walk_char t i (as_u8 tc)) (
          ap
            (λ f. walk_char ro.tail t i (as_u8 tc) >>= λ next. elim next [
              | none ↦ ok false
              | some next_idx ↦ f next_idx
            ])
            (fun_ext again))

  -- The key is found where it was, with the data that is there now.
  pub retrieve-replaced :
      (key : List AlphaChar) (d value : D) (found : RetrieveFound ro key d)
      → Tail.get_data tail found.t ≡ some value
      → ro_retrieve with_tail key ≡ ok (some value)
  unfolding ro_retrieve
  retrieve-replaced key d value found new_data =
      rw
        (
          same_branches key (DArray.get_root ro.da) alpha_char_error,
          found.walked,
          found.at,
          same_tail found.t found.rest (pos 0),
          found.matched,
          new_data,
        )
        refl
