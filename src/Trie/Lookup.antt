-- ===== src/Trie/Lookup.antt =====
-- About `retrieve` on a trie that holds a tree.
use libdatrie_rs.Common.{
  ℕ, suc, ◌+◌, ◌^◌, ◌≤◌, ◌<◌, ◌≡◌, refl, sym, ap, ◌∙◌, ◌≢◌, true, false, some, List, [], ◌∷◌, ◌++◌,
  arith, length, ◌==◌, has, All, All-left, All-right, Bool-cases, inl, inr, ltb, ==_iff,
}
use libdatrie_rs.Common.Int.{pos}
use libdatrie_rs.Common.Run.{ok}
use libdatrie_rs.Types.{TrieChar, AlphaChar, alpha_char_error, trie_char_term}
use libdatrie_rs.DArray
use libdatrie_rs.DArray.{DArray}
use libdatrie_rs.DArray.Fields.{base_at}
use libdatrie_rs.DArray.Place.{check_at-lt}
use libdatrie_rs.DArray.Forest.{Forest, end, leaf, branch, IsInner, Arcs, Entry, entry, entries}
use libdatrie_rs.DArray.Descent.{Arcs-first, first_cell}
use libdatrie_rs.DArray.Order.{entries-Through}
use libdatrie_rs.Trie.Defs.{RoTrie, retrieve_branches, ro_retrieve}
use libdatrie_rs.Trie.Model.{IsStored, Represents, until_term, ends_with_term, starts_with_term}
use libdatrie_rs.Trie.Pick.{pick, pick-append_right}
use mathlib.Core.List.{append-nil}
use libdatrie_rs.Trie.Compare.{Label, Spells, null_label}
use libdatrie_rs.Trie.Step.{after, after-rest, branches-gap, branches-null}
use libdatrie_rs.Trie.Arrive.{misses-Through, key-term, raise, end-miss, miss, hit, through}

pub ends-append :
    (p : List TrieChar) (c : TrieChar) → ends_with_term (p ++ (c ∷ [])) ≡ (c == trie_char_term)
ends-append [] c = refl
ends-append (d ∷ []) c = refl
ends-append (d ∷ e ∷ p) c = ends-append (e ∷ p) c

starts-until : (xs : List TrieChar) → starts_with_term xs ≡ true → until_term xs ≡ []
starts-until [] h = refl
starts-until (c ∷ xs) h = rw h

module _ {D : Type 0} (trie : RoTrie D) where
  -- The base of a node with children is in the pool.
  base-low :
      (x b' : ℕ) (sub : Forest)
      → length trie.da.cells < 2 ^ 31
      → IsInner sub
      → Arcs trie.da.cells x b' 0 sub
      → b' < 2 ^ 31
  base-low x b' sub size inner h =
      let n = Arcs-first trie.da 2 size x b' 0 sub inner h in
      let inside = check_at-lt trie.da.cells (first_cell sub) (pos x) n.arc in
      omega (arith, inside, n.at)

  plain-snoc :
      (p : List TrieChar) (d : TrieChar)
      → has trie_char_term p ≡ false
      → d ≢ 0
      → has trie_char_term (p ++ (d ∷ [])) ≡ false
  plain-snoc [] d h nz = ground arith
  plain-snoc (e ∷ p) d h nz = ground (arith, plain-snoc p d)

  -- Below a node the key may end or go on.
  below :
      (x : ℕ) (c : AlphaChar) (q : List TrieChar) (es : List Entry) (str : List AlphaChar)
      (ls : List TrieChar)
      → Spells trie.alpha_map str ls
      → (after trie (retrieve_branches trie (pos x) c (0 ∷ [])) ≡ ok (pick trie q es))
      → ((c' : AlphaChar) (l' : TrieChar) (str' : List AlphaChar) (ls' : List TrieChar)
          → Label trie.alpha_map c' l'
          → Spells trie.alpha_map str' ls'
          → after trie (retrieve_branches trie (pos x) c (c' ∷ str' ++ (0 ∷ [])))
            ≡ ok (pick trie (q ++ (l' ∷ ls')) es))
      → after trie (retrieve_branches trie (pos x) c (str ++ (0 ∷ [])))
        ≡ ok (pick trie (q ++ ls) es)
  below x c q es [] [] spells ends on = ends ∙ ap (λ k. ok (pick trie k es)) (sym (append-nil q))
  below x c q es [] (l ∷ ls) spells ends on = elim spells [ ]
  below x c q es (c' ∷ str) [] spells ends on = elim spells [ ]
  below x c q es (c' ∷ str) (l ∷ ls) spells ends on = on c' l str ls spells.0 spells.1

  -- The key ends at a node.
  scan-end :
      (s b : ℕ) (p : List TrieChar) (last : AlphaChar) (f : Forest)
      → base_at trie.da.cells s ≡ some (pos b)
      → b < 2 ^ 31
      → length trie.da.cells < 2 ^ 31
      → has trie_char_term p ≡ false
      → Arcs trie.da.cells s b 0 f
      → All (IsStored trie) (entries p f)
      → after trie (retrieve_branches trie (pos s) last (0 ∷ [])) ≡ ok (pick trie p (entries p f))
  scan-end s b p last end base low size plain h stored =
      branches-gap trie s b base low size last 0 0 [] (null_label trie.alpha_map) refl (omega arith)
        (h 0 (omega arith) (omega arith))
  scan-end s b p last (leaf c x i rest) base low size plain h stored = elim (Bool-cases (c == 0)) [
    | inl same ↦
        (let e = entry (p ++ (c ∷ [])) x i in
          let st = stored.0 in
          let zero : c ≡ 0 = (==_iff c 0).0 same in
          let there : x ≡ b + 0 = rw zero at h.0.at in
          let walked = branches-null trie s b base low size last x [] there h.0.arc in
          let begins = st.whole (ends-append p c ∙ same) in
          let empty = starts-until st.suffix begins in
          let found = after-rest trie e [] [] h.1 st tt in
          let hit = key-term trie p plain c x i same in rw (walked, found, empty, hit))
    | inr other ↦
        end-miss trie s b base low size p plain last (leaf c x i rest)
          (raise trie s b 0 1 c x (omega arith) (ground arith) h.0, h.1, h.2)
          (h.0.gap 0 (omega arith) (ground arith))
  ]
  scan-end s b p last (branch c x b' sub rest) base low size plain h stored =
      end-miss trie s b base low size p plain last (branch c x b' sub rest)
        (raise trie s b 0 1 c x (omega arith) (ground (arith, h.5)) h.0, h.1, h.2, h.3, h.4, h.5)
        (h.0.gap 0 (omega arith) (ground (arith, h.5)))

  -- The key goes on from a node with this character.
  scan :
      (s b from : ℕ) (p : List TrieChar) (last c : AlphaChar) (l : TrieChar) (str : List AlphaChar)
      (ls : List TrieChar) (f : Forest)
      → base_at trie.da.cells s ≡ some (pos b)
      → b < 2 ^ 31
      → length trie.da.cells < 2 ^ 31
      → has trie_char_term p ≡ false
      → Arcs trie.da.cells s b from f
      → from ≤ l
      → All (IsStored trie) (entries p f)
      → Label trie.alpha_map c l
      → Spells trie.alpha_map str ls
      → after trie (retrieve_branches trie (pos s) last (c ∷ str ++ (0 ∷ [])))
        ≡ ok (pick trie (p ++ (l ∷ ls)) (entries p f))
  scan s b from p last c l str ls end base low size plain h le stored lab spells =
      branches-gap trie s b base low size last c l (str ++ (0 ∷ [])) lab.maps lab.byte lab.low
        (h l le lab.low)
  scan s b from p last c l str ls (leaf d x i rest) base low size plain h le stored lab spells =
      elim (Bool-cases (d == l)) [
        | inl same ↦
            hit trie s b base low size p plain last c l str ls d x i from rest lab spells
              ((==_iff d l).0 same) h.0 h.1 h.2 stored.0
        | inr other ↦ (elim (Bool-cases (ltb l d)) [
          | inl over ↦
              miss trie s b base low size p plain last c l str ls d (leaf d x i rest) lab
                (raise trie s b from d d x h.0.above (omega arith) h.0, h.1, h.2) (ground arith)
                (h.0.gap l le (ground arith))
          | inr under ↦
              (let ne =
                  misses-Through trie p plain l ls lab.no_term d (entry (p ++ (d ∷ [])) x i ∷ [])
                    (λ z. ground arith) (record { behind = []; is_path = refl }, tt) in
                scan s b (suc d) p last c l str ls rest base low size plain h.2 (ground arith)
                  stored.1 lab spells
                ∙ ap ok (
                    sym (
                      pick-append_right trie (p ++ (l ∷ ls)) (entry (p ++ (d ∷ [])) x i ∷ [])
                        (entries p rest) ne)))
        ])
      ]
  scan s b from p last c l str ls (branch d x b' sub rest) base low size plain h le stored lab
        spells =
      elim (Bool-cases (d == l)) [
        | inl same ↦
            (let q = p ++ (d ∷ []) in
              let low' = base-low x b' sub size h.2 h.3 in
              let plain' = plain-snoc p d plain h.5 in
              let here = All-left (IsStored trie) (entries q sub) (entries p rest) stored in
              through trie s b base low size p plain last c l str ls d x b' from sub rest lab
                ((==_iff d l).0 same) h.0 h.4
                (below x c q (entries q sub) str ls spells
                  (scan-end x b' q c sub h.1 low' size plain' h.3 here)
                  (λ c' l' str' ls' lab' spells'.
                    scan x b' 0 q c c' l' str' ls' sub h.1 low' size plain' h.3 (omega arith) here
                      lab' spells')))
        | inr other ↦ (elim (Bool-cases (ltb l d)) [
          | inl over ↦
              miss trie s b base low size p plain last c l str ls d (branch d x b' sub rest) lab
                (raise trie s b from d d x h.0.above (omega arith) h.0, h.1, h.2, h.3, h.4, h.5)
                (ground arith) (h.0.gap l le (ground arith))
          | inr under ↦
              (let q = p ++ (d ∷ []) in
                let there = All-right (IsStored trie) (entries q sub) (entries p rest) stored in
                let ne =
                  misses-Through trie p plain l ls lab.no_term d (entries q sub) (λ z. ground arith)
                    (entries-Through trie.da.cells x b' p d sub h.3) in
                scan s b (suc d) p last c l str ls rest base low size plain h.4 (ground arith) there
                  lab spells
                ∙ ap ok (
                    sym
                      (pick-append_right trie (p ++ (l ∷ ls)) (entries q sub) (entries p rest) ne)))
        ])
      ]

  -- On a trie that holds a tree of fewer than 2^31 cells, with a terminated suffix of at most 2^15
  -- labels for each separate cell, ROTrie::retrieve of a null-terminated string of characters whose
  -- labels are 1 to 255 gives the data of the separate cell whose labels, those of its path and of
  -- its suffix, are the labels of the string, and nothing where there is none.
  pub ro_retrieve-pick :
      (f : Forest)
      → Represents trie f
      → (str : List AlphaChar) (ls : List TrieChar) → Spells trie.alpha_map str ls
      → ro_retrieve trie (str ++ (0 ∷ [])) ≡ ok (pick trie ls (entries [] f))
  unfolding ro_retrieve DArray.get_root after
  ro_retrieve-pick f h str ls spells =
      let low : h.base < 2 ^ 31 = omega (arith, h.inside, h.size) in
      below 2 alpha_char_error [] (entries [] f) str ls spells
        (scan-end 2 h.base [] alpha_char_error f h.root_base low h.size refl h.arcs h.stored)
        (λ c' l' str' ls' lab spells'.
          scan 2 h.base 0 [] alpha_char_error c' l' str' ls' f h.root_base low h.size refl h.arcs
            (omega arith) h.stored lab spells')
