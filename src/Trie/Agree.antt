-- ===== src/Trie/Agree.antt =====
-- `retrieve`, and the same walk by a `TrieState`.
use libdatrie_rs.Common.{
  ◌≡◌, refl, sym, ap, subst, ◌∙◌, ◌≢◌, true, false, Option, none, some, List, [], ◌∷◌, ◌++◌, arith,
  All, Bool-cases, inl, inr,
}
use libdatrie_rs.Common.Int.{ℤ, pos, negsuc, neg, IsI32, as_u8}
use libdatrie_rs.Common.Run.{Run, ok, ◌>>=◌, >>=-eq-ok, ok-inj}
use libdatrie_rs.Types.{TrieIndex, TrieChar, AlphaChar, alpha_char_error, trie_char_term}
use libdatrie_rs.AlphaMap
use libdatrie_rs.DArray
use libdatrie_rs.DArray.{DArray, DaCell}
use libdatrie_rs.DArray.RoundTrip.{CellOk}
use libdatrie_rs.Tail
use libdatrie_rs.Tail.Defs.{get_suffix, walk_char, is_walkable_char}
use libdatrie_rs.Trie.Defs.{RoTrie, retrieve_branches, retrieve_tail, ro_retrieve}
use libdatrie_rs.Trie.State.{TrieState, root, enter, walk, get_data}
use libdatrie_rs.Trie.Suffix.{
  walk_char-is_walkable_char, no-suffix, walk_char-none, base-IsI32, nonzero, some-inj,
}
use libdatrie_rs.Trie.Found.{
  retrieve_tail-step, branches-separate, branches-decide, branches-step, ro_retrieve-found,
}

module _ {D : Type 0} (trie : RoTrie D) where
  abbrev in_tail : TrieIndex → ℤ → TrieState
  in_tail t i = record { index = t; suffix_idx = i; is_suffix = true }

  abbrev in_branch : TrieIndex → ℤ → TrieState
  in_branch s i = record { index = s; suffix_idx = i; is_suffix = false }

  -- `walk` along the characters of a string, as long as it succeeds.
  abbrev pub walk_all : TrieState → List AlphaChar → Run (Option TrieState)
  walk_all st [] = ok (some st)
  walk_all st (c ∷ cs) =
      walk trie st c >>= λ r. elim r.1 [ true ↦ walk_all r.0 cs | false ↦ ok none ]

  label-zero : AlphaMap.char_to_trie trie.alpha_map 0 ≡ some (pos 0)
  unfolding AlphaMap.char_to_trie
  label-zero = refl

  walk-tail :
      (t tc : TrieIndex) (i j : ℤ) (c : AlphaChar)
      → AlphaMap.char_to_trie trie.alpha_map c ≡ some tc
      → walk_char trie.tail t i (as_u8 tc) ≡ ok (some j)
      → walk trie (in_tail t i) c ≡ ok (in_tail t j, true)
  unfolding walk
  walk-tail t tc i j c e w = rw (e, walk, w)

  walk-branch :
      (s tc next : TrieIndex) (i : ℤ) (c : AlphaChar) (st : TrieState)
      → AlphaMap.char_to_trie trie.alpha_map c ≡ some tc
      → DArray.walk trie.da s (as_u8 tc) ≡ ok (some next)
      → enter trie (in_branch s i) next ≡ ok st
      → walk trie (in_branch s i) c ≡ ok (st, true)
  unfolding walk
  walk-branch s tc next i c st e w n = rw (e, walk, w, n)

  tail-agree :
      (t : TrieIndex) (i : ℤ) (key : List AlphaChar)
      → retrieve_tail trie t i (key ++ (0 ∷ [])) ≡ ok true
      → (j : ℤ) × (walk_all (in_tail t i) key ≡ ok (some (in_tail t j)))
        × (is_walkable_char trie.tail t j trie_char_term ≡ ok true)
  tail-agree t i [] h =
      let (tc, j, e, w, r) = retrieve_tail-step trie t i 0 [] h in
      let same : tc ≡ pos 0 = some-inj (sym e ∙ label-zero) in
      (
        i,
        refl,
        walk_char-is_walkable_char trie.tail t i j 0
            (subst (λ x. walk_char trie.tail t i (as_u8 x) ≡ ok (some j)) same w),
      )
  tail-agree t i (c ∷ key) h =
      let (tc, j, e, w, r) = retrieve_tail-step trie t i c (key ++ (0 ∷ [])) h in
      let (j', run, last) = tail-agree t j key r in (j', rw (walk-tail t tc i j c e w, run), last)

  -- What a walk to the data of block `t` comes to.
  record Agrees (st : TrieState) (key : List AlphaChar) (t : TrieIndex) : Type 0 where
    pub end : TrieState
    pub run : walk_all st key ≡ ok (some end)
    pub data_ : get_data trie end ≡ ok (Tail.get_data trie.tail t)

  enter-separate :
      (s next t : TrieIndex) (i : ℤ)
      → DArray.is_separate trie.da next ≡ ok true
      → DArray.get_tail_index trie.da next ≡ ok t
      → enter trie (in_branch s i) next ≡ ok (in_tail t (pos 0))
  unfolding enter
  enter-separate s next t i sep e = rw (sep, enter, e)

  enter-branch :
      (s next : TrieIndex) (i : ℤ)
      → DArray.is_separate trie.da next ≡ ok false
      → enter trie (in_branch s i) next ≡ ok (in_branch next i)
  unfolding enter
  enter-branch s next i sep = rw (sep, enter)

  data-tail :
      (t : TrieIndex) (j : ℤ)
      → is_walkable_char trie.tail t j trie_char_term ≡ ok true
      → get_data trie (in_tail t j) ≡ ok (Tail.get_data trie.tail t)
  unfolding get_data
  data-tail t j e = rw (e, get_data)

  data-branch :
      (s next t : TrieIndex) (i : ℤ)
      → DArray.walk trie.da s trie_char_term ≡ ok (some next)
      → DArray.is_separate trie.da next ≡ ok true
      → DArray.get_tail_index trie.da next ≡ ok t
      → get_data trie (in_branch s i) ≡ ok (Tail.get_data trie.tail t)
  unfolding get_data
  data-branch s next t i w sep e = rw (w, get_data, sep, e)

  -- A node whose tail index leads to a suffix is separate.
  tail-separate :
      All CellOk trie.da.cells
      → (node t : TrieIndex) (c : TrieChar) (j : ℤ) → DArray.get_tail_index trie.da node ≡ ok t
      → walk_char trie.tail t (pos 0) c ≡ ok (some j)
      → DArray.is_separate trie.da node ≡ ok true
  unfolding DArray.get_tail_index DArray.is_separate
  tail-separate fits node t c j e w =
      let (base, e₁, e₂) = >>=-eq-ok (DArray.unwrap (DArray.get_base trie.da node)) _ e in
      go base e₁ (base-IsI32 trie.da node base fits e₁) e₂
    where
      go :
          (base : ℤ)
          → DArray.unwrap (DArray.get_base trie.da node) ≡ ok base
          → IsI32 base
          → ok (neg base) ≡ ok t
          → DArray.is_separate trie.da node ≡ ok true
      go (pos m) e₁ fit e₂ =
          let none_there : get_suffix trie.tail (neg (pos m)) ≡ none =
            no-suffix trie.tail m fit.0 in
          let failed = walk_char-none trie.tail t (pos 0) c (rw (ok-inj (sym e₂)) none_there) in cc
      go (negsuc n) e₁ fit e₂ = rw e₁ (ground arith)

  module _ (fits : All CellOk trie.da.cells) where
    -- The walk along the branches, from a node that is not separate.
    branch-agree :
        (s : TrieIndex) (i : ℤ) (l : AlphaChar) (key : List AlphaChar) (node t : TrieIndex)
        (rest : List AlphaChar)
        → All (λ c. c ≢ 0) key
        → DArray.is_separate trie.da s ≡ ok false
        → retrieve_branches trie s l (key ++ (0 ∷ [])) ≡ ok (some (node, rest))
        → DArray.get_tail_index trie.da node ≡ ok t
        → retrieve_tail trie t (pos 0) rest ≡ ok true
        → Agrees (in_branch s i) key t
    branch-agree s i l [] node t rest text sep h e r =
        let (tc, next, lab, w, stop) = branches-step trie s l 0 [] (node, rest) sep h in
        let same : tc ≡ pos 0 = some-inj (sym lab ∙ label-zero) in
        let arc : DArray.walk trie.da s trie_char_term ≡ ok (some next) =
          subst (λ x. DArray.walk trie.da s (as_u8 x) ≡ ok (some next)) same w in
        let reached : (next, 0 ∷ []) ≡ (node, rest) = some-inj (ok-inj stop) in
        let e' : DArray.get_tail_index trie.da next ≡ ok t =
          subst (λ n. DArray.get_tail_index trie.da n ≡ ok t) (sym (ap (λ q. q.0) reached)) e in
        let r' : retrieve_tail trie t (pos 0) (0 ∷ []) ≡ ok true =
          subst (λ p. retrieve_tail trie t (pos 0) p ≡ ok true) (sym (ap (λ q. q.1) reached)) r in
        let (tc', j, lab', w', r'') = retrieve_tail-step trie t (pos 0) 0 [] r' in
        record {
          end = in_branch s i;
          run = refl;
          data_ = data-branch s next t i arc (tail-separate fits next t (as_u8 tc') j e' w') e';
        }
    branch-agree s i l (c ∷ key) node t rest text sep h e r =
        let (tc, next, lab, w, go) =
          branches-step trie s l c (key ++ (0 ∷ [])) (node, rest) sep h in
        let go' : retrieve_branches trie next c (key ++ (0 ∷ [])) ≡ ok (some (node, rest)) =
          rw (nonzero c text.0) at go in
        let (b, decided) = branches-decide trie next c key go' in
        elim (Bool-cases b) [
          | inl is_sep ↦
              (let here : DArray.is_separate trie.da next ≡ ok true = decided ∙ ap ok is_sep in
                let reached : (next, key ++ (0 ∷ [])) ≡ (node, rest) =
                  some-inj (ok-inj (sym (branches-separate trie next c key here) ∙ go')) in
                let e' : DArray.get_tail_index trie.da next ≡ ok t =
                  subst (λ n. DArray.get_tail_index trie.da n ≡ ok t) (sym (ap (λ q. q.0) reached))
                    e in
                let r' : retrieve_tail trie t (pos 0) (key ++ (0 ∷ [])) ≡ ok true =
                  subst (λ p. retrieve_tail trie t (pos 0) p ≡ ok true)
                    (sym (ap (λ q. q.1) reached)) r in
                let (j, run, last) = tail-agree t (pos 0) key r' in
                let first =
                  walk-branch s tc next i c (in_tail t (pos 0)) lab w
                    (enter-separate s next t i here e') in
                record { end = in_tail t j; run = rw (first, run); data_ = data-tail t j last })
          | inr not_sep ↦
              (let here : DArray.is_separate trie.da next ≡ ok false = decided ∙ ap ok not_sep in
                let a = branch-agree next i c key node t rest text.1 here go' e r in
                let first =
                  walk-branch s tc next i c (in_branch next i) lab w (enter-branch s next i here) in
                record { end = a.end; run = rw (first, a.run); data_ = a.data_ })
        ]

    -- When `retrieve` finds the data of a null-terminated key in a trie whose root is not separate
    -- and whose cells hold `i32` values, a `TrieState` that starts at the root and takes the
    -- characters of the key one by one never fails, and ends where `get_data` is the same data.
    pub retrieve-agree :
        (key : List AlphaChar) (d : D)
        → All (λ c. c ≢ 0) key
        → DArray.is_separate trie.da (DArray.get_root trie.da) ≡ ok false
        → ro_retrieve trie (key ++ (0 ∷ [])) ≡ ok (some d)
        → (st : TrieState) × (walk_all (root trie) key ≡ ok (some st))
          × (get_data trie st ≡ ok (some d))
    unfolding root
    retrieve-agree key d text sep h =
        let f = ro_retrieve-found trie (key ++ (0 ∷ [])) d h in
        let a =
          branch-agree (DArray.get_root trie.da) (pos 0) alpha_char_error key f.node f.t f.rest text
            sep f.walked f.at f.matched in
        (a.end, a.run, a.data_ ∙ ap ok f.data_)
