-- ===== src/Trie/Arrive.antt =====
-- About the arc that `retrieve` takes from a node of a tree, or that is not there.
use libdatrie_rs.Common.{
  ℕ, suc, ◌^◌, ◌≤◌, ◌<◌, ◌≡◌, refl, sym, ap, ◌∙◌, ◌≢◌, true, false, some, List, [], ◌∷◌, ◌++◌,
  arith, length, ◌==◌, has, All, All-map,
}
use libdatrie_rs.Common.Int.{pos, negsuc}
use libdatrie_rs.Common.Run.{ok}
use libdatrie_rs.Types.{TrieChar, AlphaChar, trie_char_term}
use libdatrie_rs.DArray.Fields.{base_at}
use libdatrie_rs.DArray.Kinds.{is_separate-leaf}
use libdatrie_rs.DArray.Children.{arc_at}
use libdatrie_rs.DArray.Forest.{Forest, leaf, branch, Next, Arcs, Entry, entry, entries}
use libdatrie_rs.DArray.Order.{Under, Through, entries-Under}
use libdatrie_rs.Trie.Defs.{RoTrie, retrieve_branches}
use libdatrie_rs.Trie.Found.{branches-separate}
use libdatrie_rs.Trie.Model.{IsStored, key_of, until_term}
use libdatrie_rs.Trie.Pick.{
  pick, pick-none, pick-append_left, Misses-path, Misses-longer, eqb_list, eqb_list-prefix,
  eqb_list-longer, key_of-path, tail_labels,
}
use mathlib.Core.List.{append_assoc}
use libdatrie_rs.Trie.Compare.{Label, Spells, null_label}
use libdatrie_rs.Trie.Step.{after, after-rest, branches-gap, branches-arc}

module _ {D : Type 0} (trie : RoTrie D) where
  module _ (p : List TrieChar) (plain : has trie_char_term p ≡ false) where
    pub misses-end :
        (es : List Entry) → All (Under p 1) es → All (λ e. eqb_list (key_of trie e) p ≡ false) es
    misses-end es h =
        All-map (Under p 1) (λ e. eqb_list (key_of trie e) p ≡ false)
          (λ e u.
            Misses-longer trie e p u.label u.behind plain u.is_path
              (λ z. omega (arith, z, u.above)))
          es h

    module _ (l : TrieChar) (ls : List TrieChar) (nz : l ≢ 0) where
      abbrev MissesKey : Entry → Type 0
      MissesKey e = eqb_list (key_of trie e) (p ++ (l ∷ ls)) ≡ false

      pub misses-above :
          (from : ℕ) (es : List Entry) → l < from → All (Under p from) es → All MissesKey es
      misses-above from es lt h =
          All-map (Under p from) MissesKey
            (λ e u.
              Misses-path trie e p u.label l u.behind ls plain u.is_path
                (λ z. omega (arith, z, u.above, lt)) nz)
            es h

      pub misses-Through :
          (d : TrieChar) (es : List Entry) → d ≢ l → All (Through p d) es → All MissesKey es
      misses-Through d es ne h =
          All-map (Through p d) MissesKey
            (λ e u. Misses-path trie e p d l u.behind ls plain u.is_path ne nz) es h

      -- A separate cell behind the label of the key.
      pub key-leaf :
          (d : TrieChar) (x i : ℕ) (h : IsStored trie (entry (p ++ (d ∷ [])) x i))
          → d ≡ l
          → eqb_list (key_of trie (entry (p ++ (d ∷ [])) x i)) (p ++ (l ∷ ls))
            ≡ eqb_list (until_term h.suffix) ls
      key-leaf d x i h same =
          let e = entry (p ++ (d ∷ [])) x i in
          let there = h.there in
          ap (λ k. eqb_list k (p ++ (l ∷ ls))) (key_of-path trie e p d [] plain refl)
          ∙ eqb_list-prefix p (until_term (d ∷ tail_labels trie e)) (l ∷ ls)
          ∙ rw there (ground (arith, nz, same))

    -- A separate cell behind the terminator.
    pub key-term :
        (c : TrieChar) (x i : ℕ)
        → (c == trie_char_term) ≡ true
        → eqb_list (key_of trie (entry (p ++ (c ∷ [])) x i)) p ≡ true
    key-term c x i same =
        let e = entry (p ++ (c ∷ [])) x i in
        ap (λ k. eqb_list k p) (key_of-path trie e p c [] plain refl)
        ∙ eqb_list-longer p (until_term (c ∷ tail_labels trie e))
        ∙ rw same refl

  pub raise :
      (s b from from' : ℕ) (c : TrieChar) (x : ℕ)
      → from ≤ from'
      → from' ≤ c
      → Next trie.da.cells s b from c x
      → Next trie.da.cells s b from' c x
  raise s b from from' c x le le' n = record {
    at = n.at;
    above = le';
    low = n.low;
    arc = n.arc;
    gap = λ d h k. n.gap d (omega (arith, h, le)) k;
  }

  module _ (s b : ℕ) (base : base_at trie.da.cells s ≡ some (pos b)) (low : b < 2 ^ 31)
      (size : length trie.da.cells < 2 ^ 31) (p : List TrieChar)
      (plain : has trie_char_term p ≡ false) (last : AlphaChar) where
    -- The key ends, and the first arc is not the terminator.
    pub end-miss :
        (f : Forest)
        → Arcs trie.da.cells s b 1 f
        → arc_at trie.da.cells s b 0 ≡ false
        → after trie (retrieve_branches trie (pos s) last (0 ∷ [])) ≡ ok (pick trie p (entries p f))
    end-miss f h gap =
        branches-gap trie s b base low size last 0 0 [] (null_label trie.alpha_map) refl
          (omega arith) gap
        ∙ ap ok (
            sym (
              pick-none trie p (entries p f)
                (misses-end p plain (entries p f) (entries-Under trie.da.cells s b 1 p f h))))

    -- The arcs all have labels above that of the character.
    pub miss :
        (c : AlphaChar) (l : TrieChar) (str : List AlphaChar) (ls : List TrieChar) (from : ℕ)
        (f : Forest)
        → Label trie.alpha_map c l
        → Arcs trie.da.cells s b from f
        → l < from
        → arc_at trie.da.cells s b l ≡ false
        → after trie (retrieve_branches trie (pos s) last (c ∷ str ++ (0 ∷ [])))
          ≡ ok (pick trie (p ++ (l ∷ ls)) (entries p f))
    miss c l str ls from f lab h lt gap =
        branches-gap trie s b base low size last c l (str ++ (0 ∷ [])) lab.maps lab.byte lab.low gap
        ∙ ap ok (
            sym (
              pick-none trie (p ++ (l ∷ ls)) (entries p f) (
                misses-above p plain l ls lab.no_term from (entries p f) lt
                  (entries-Under trie.da.cells s b from p f h))))

    -- The arc leads to a separate cell.
    pub hit :
        (c : AlphaChar) (l : TrieChar) (str : List AlphaChar) (ls : List TrieChar) (d : TrieChar)
        (x i from : ℕ) (rest : Forest)
        → Label trie.alpha_map c l
        → Spells trie.alpha_map str ls
        → d ≡ l
        → Next trie.da.cells s b from d x
        → base_at trie.da.cells x ≡ some (negsuc i)
        → Arcs trie.da.cells s b (suc d) rest
        → IsStored trie (entry (p ++ (d ∷ [])) x i)
        → after trie (retrieve_branches trie (pos s) last (c ∷ str ++ (0 ∷ [])))
          ≡ ok (pick trie (p ++ (l ∷ ls)) (entries p (leaf d x i rest)))
    hit c l str ls d x i from rest lab spells same n leads h st =
        let e = entry (p ++ (d ∷ [])) x i in
        let walked =
          branches-arc trie s b base low size last c l x (str ++ (0 ∷ [])) lab (rw same at n.at)
            n.arc in
        let sep = branches-separate trie (pos x) c str (is_separate-leaf trie.da x i leads) in
        let found = after-rest trie e str ls leads st spells in
        let key = key-leaf p plain l ls lab.no_term d x i st same in
        let others = pick-none trie (p ++ (l ∷ ls)) (entries p rest) (
          misses-above p plain l ls lab.no_term (suc d) (entries p rest) (omega (arith, same))
            (entries-Under trie.da.cells s b (suc d) p rest h)) in
        rw (walked, sep, found, key, others)

    -- The arc leads to a node with arcs of its own.
    pub through :
        (c : AlphaChar) (l : TrieChar) (str : List AlphaChar) (ls : List TrieChar) (d : TrieChar)
        (x b' from : ℕ) (sub rest : Forest)
        → Label trie.alpha_map c l
        → d ≡ l
        → Next trie.da.cells s b from d x
        → Arcs trie.da.cells s b (suc d) rest
        → after trie (retrieve_branches trie (pos x) c (str ++ (0 ∷ [])))
          ≡ ok (pick trie ((p ++ (d ∷ [])) ++ ls) (entries (p ++ (d ∷ [])) sub))
        → after trie (retrieve_branches trie (pos s) last (c ∷ str ++ (0 ∷ [])))
          ≡ ok (pick trie (p ++ (l ∷ ls)) (entries p (branch d x b' sub rest)))
    through c l str ls d x b' from sub rest lab same n h below =
        let key : (p ++ (d ∷ [])) ++ ls ≡ p ++ (l ∷ ls) =
          append_assoc p (d ∷ []) ls ∙ ap (λ k. p ++ (k ∷ ls)) same in
        let others = pick-none trie (p ++ (l ∷ ls)) (entries p rest) (
          misses-above p plain l ls lab.no_term (suc d) (entries p rest) (omega (arith, same))
            (entries-Under trie.da.cells s b (suc d) p rest h)) in
        ap (after trie) (
          branches-arc trie s b base low size last c l x (str ++ (0 ∷ [])) lab (rw same at n.at)
            n.arc)
        ∙ below
        ∙ ap (λ k. ok (pick trie k (entries (p ++ (d ∷ [])) sub))) key
        ∙ ap ok (
            sym (
              pick-append_left trie (p ++ (l ∷ ls)) (entries (p ++ (d ∷ [])) sub) (entries p rest)
                others))
