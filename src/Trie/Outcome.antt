-- ===== src/Trie/Outcome.antt =====
-- What the walks of `store`, `store_if_absent` and `delete` come to, beside that of `retrieve`.
use libdatrie_rs.Common.{
  ◌≡◌, ◌≢◌, refl, Bool, true, false, Option, none, some, List, [], ◌∷◌, ◌++◌, ◌==◌, All,
  if◌then◌else◌,
}
use libdatrie_rs.Common.Int.{ℤ, pos, as_u8}
use libdatrie_rs.Common.Run.{
  Run, ok, ◌>>=◌, bind_ext, bind_group_option, bind_agree_bool, bind_agree_option,
}
use libdatrie_rs.Types.{TrieIndex, AlphaChar}
use libdatrie_rs.AlphaMap
use libdatrie_rs.DArray
use libdatrie_rs.Tail
use libdatrie_rs.Trie.Defs.{
  RoTrie, Branches, reached, missing, refused, Suffix, matched, differs, unknown, walk_branches,
  walk_tail, retrieve_branches, retrieve_tail,
}
use libdatrie_rs.Trie.Suffix.{nonzero}

abbrev pub is_match : Suffix → Bool
is_match matched = true
is_match differs = false
is_match unknown = false

module _ {D : Type 0} (ro : RoTrie D) where
  tail_step :
      (t : TrieIndex) (ch : AlphaChar) (p : List AlphaChar)
      → ((next : ℤ)
          → ((elim (ch == 0) [ true ↦ ok matched | false ↦ walk_tail ro t next p ]) >>= λ s.
              ok (is_match s))
            ≡ retrieve_tail ro t next p)
      → (i : ℤ)
      → (walk_tail ro t i (ch ∷ p) >>= λ s. ok (is_match s)) ≡ retrieve_tail ro t i (ch ∷ p)
  unfolding walk_tail retrieve_tail
  tail_step t ch p rest i = go (AlphaMap.char_to_trie ro.alpha_map ch) refl
    where
      go :
          (o : Option TrieIndex)
          → AlphaMap.char_to_trie ro.alpha_map ch ≡ o
          → (walk_tail ro t i (ch ∷ p) >>= λ s. ok (is_match s)) ≡ retrieve_tail ro t i (ch ∷ p)
      go none e = rw (e, walk_tail, retrieve_tail) refl
      go (some tc) e =
          rw (e, walk_tail, retrieve_tail)
            (bind_group_option (Tail.walk_char ro.tail t i (as_u8 tc)) _ _ _ refl rest)

  walk_tail-retrieve_tail :
      (t : TrieIndex) (key : List AlphaChar)
      → All (λ c. c ≢ 0) key
      → (i : ℤ)
      → (walk_tail ro t i (key ++ (0 ∷ [])) >>= λ s. ok (is_match s))
        ≡ retrieve_tail ro t i (key ++ (0 ∷ []))
  unfolding retrieve_tail
  walk_tail-retrieve_tail t [] h = tail_step t 0 [] (λ next. refl)
  walk_tail-retrieve_tail t (c ∷ key) h =
      tail_step t c (key ++ (0 ∷ []))
        (λ next. rw (nonzero c h.0) (walk_tail-retrieve_tail t key h.1 next))

  -- The tail block of the key, where the rest of the key matches it.
  abbrev pub block_walked : Branches → Run (Option TrieIndex)
  block_walked refused = ok none
  block_walked (missing s p) = ok none
  block_walked (reached s p) = do
    t ← DArray.get_tail_index ro.da s
    found ← (walk_tail ro t (pos 0) p >>= λ s. ok (is_match s))
    ok (if found then some t else none)

  abbrev pub block_retrieved : Option (TrieIndex × List AlphaChar) → Run (Option TrieIndex)
  block_retrieved none = ok none
  block_retrieved (some (s, p)) = do
    t ← DArray.get_tail_index ro.da s
    found ← retrieve_tail ro t (pos 0) p
    ok (if found then some t else none)

  blocks-agree :
      (s : TrieIndex) (key : List AlphaChar)
      → All (λ c. c ≢ 0) key
      → block_walked (reached s (key ++ (0 ∷ []))) ≡ block_retrieved (some (s, key ++ (0 ∷ [])))
  blocks-agree s key h =
      bind_ext (DArray.get_tail_index ro.da s)
        (λ t. rw (walk_tail-retrieve_tail t key h (pos 0)) refl)

  branch_step :
      (s : TrieIndex) (l ch : AlphaChar) (p : List AlphaChar)
      → block_walked (reached s (ch ∷ p)) ≡ block_retrieved (some (s, ch ∷ p))
      → ((next : TrieIndex)
          → ((elim (ch == 0) [
            | true ↦ ok (reached next (ch ∷ p))
            | false ↦ walk_branches ro next p
          ])
              >>= block_walked)
            ≡ ((elim (ch == 0) [
              | true ↦ ok (some (next, ch ∷ p))
              | false ↦ retrieve_branches ro next ch p
            ])
                >>= block_retrieved))
      → (walk_branches ro s (ch ∷ p) >>= block_walked)
        ≡ (retrieve_branches ro s l (ch ∷ p) >>= block_retrieved)
  unfolding walk_branches retrieve_branches
  branch_step s l ch p here beyond =
      bind_agree_bool (DArray.is_separate ro.da s) _ block_walked _ block_retrieved here
        (go (AlphaMap.char_to_trie ro.alpha_map ch))
    where
      go :
          (o : Option TrieIndex)
          → ((elim o [
            | none ↦ ok refused
            | some tc ↦ (do
              next ← DArray.walk ro.da s (as_u8 tc)
              elim next [
                | none ↦ ok (missing s (ch ∷ p))
                | some next_s ↦ (elim (ch == 0) [
                  | true ↦ ok (reached next_s (ch ∷ p))
                  | false ↦ walk_branches ro next_s p
                ])
              ])
          ])
              >>= block_walked)
            ≡ ((elim o [
              | none ↦ ok none
              | some tc ↦ (do
                next ← DArray.walk ro.da s (as_u8 tc)
                elim next [
                  | none ↦ ok none
                  | some next_s ↦ (elim (ch == 0) [
                    | true ↦ ok (some (next_s, ch ∷ p))
                    | false ↦ retrieve_branches ro next_s ch p
                  ])
                ])
            ])
                >>= block_retrieved)
      go none = refl
      go (some tc) =
          bind_agree_option (DArray.walk ro.da s (as_u8 tc)) _ block_walked _ block_retrieved refl
            beyond

  pub walk_branches-retrieve_branches :
      (s : TrieIndex) (l : AlphaChar) (key : List AlphaChar)
      → All (λ c. c ≢ 0) key
      → (walk_branches ro s (key ++ (0 ∷ [])) >>= block_walked)
        ≡ (retrieve_branches ro s l (key ++ (0 ∷ [])) >>= block_retrieved)
  walk_branches-retrieve_branches s l [] h =
      branch_step s l 0 [] (blocks-agree s [] h) (λ next. blocks-agree next [] h)
  walk_branches-retrieve_branches s l (c ∷ key) h =
      branch_step s l c (key ++ (0 ∷ [])) (blocks-agree s (c ∷ key) h)
        (λ next. rw (nonzero c h.0) (walk_branches-retrieve_branches next c key h.1))
