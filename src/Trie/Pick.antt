-- ===== src/Trie/Pick.antt =====
-- The lookup of a key among the keys of the separate cells, by comparing the labels.
use libdatrie_rs.Common.{
  suc, ◌≡◌, refl, ap, ◌∙◌, ◌≢◌, Bool, true, false, ◌&&◌, Option, none, List, [], ◌∷◌, ◌++◌, arith,
  All, ◌==◌, ==_refl, has, if◌then◌else◌, Bool-cases, inl, inr,
}
use libdatrie_rs.Common.Int.{pos}
use libdatrie_rs.Types.{TrieChar, trie_char_term}
use libdatrie_rs.DArray.Forest.{Entry}
use libdatrie_rs.Tail
use libdatrie_rs.Trie.Defs.{RoTrie}
use libdatrie_rs.Trie.Model.{labels_of, until_term, key_of, data_of}
use mathlib.Core.List.{append_assoc}

abbrev pub eqb_list : List TrieChar → List TrieChar → Bool
eqb_list [] [] = true
eqb_list [] (y ∷ ys) = false
eqb_list (x ∷ xs) [] = false
eqb_list (x ∷ xs) (y ∷ ys) = x == y && eqb_list xs ys

pub eqb_list-prefix : (p xs ys : List TrieChar) → eqb_list (p ++ xs) (p ++ ys) ≡ eqb_list xs ys
eqb_list-prefix [] xs ys = refl
eqb_list-prefix (c ∷ p) xs ys = rw (==_refl c) (eqb_list-prefix p xs ys)

pub eqb_list-longer : (p xs : List TrieChar) → eqb_list (p ++ xs) p ≡ eqb_list xs []
eqb_list-longer [] xs = refl
eqb_list-longer (c ∷ p) xs = rw (==_refl c) (eqb_list-longer p xs)

pub eqb_list_refl : (xs : List TrieChar) → eqb_list xs xs ≡ true
eqb_list_refl [] = refl
eqb_list_refl (x ∷ xs) = rw (==_refl x) (eqb_list_refl xs)

pub until_term-prefix :
    (p xs : List TrieChar)
    → has trie_char_term p ≡ false
    → until_term (p ++ xs) ≡ p ++ until_term xs
until_term-prefix [] xs h = refl
until_term-prefix (c ∷ p) xs h = ground (arith, until_term-prefix p xs)

pub differ :
    (d l : TrieChar) (q ls : List TrieChar)
    → d ≢ l
    → l ≢ 0
    → eqb_list (until_term (d ∷ q)) (l ∷ ls) ≡ false
differ d l q ls h nz = ground arith

pub longer : (d : TrieChar) (q : List TrieChar) → d ≢ 0 → eqb_list (until_term (d ∷ q)) [] ≡ false
longer d q h = ground arith

module _ {D : Type 0} (trie : RoTrie D) where
  -- The data of the first separate cell that stands for this key.
  abbrev pub pick : List TrieChar → List Entry → Option D
  pick key [] = none
  pick key (e ∷ es) = if eqb_list (key_of trie e) key then data_of trie e else pick key es

  abbrev Misses : List TrieChar → Entry → Type 0
  Misses key e = eqb_list (key_of trie e) key ≡ false

  pub pick-none : (key : List TrieChar) (es : List Entry) → All (Misses key) es → pick key es ≡ none
  pick-none key [] h = refl
  pick-none key (e ∷ es) h = rw h.0 (pick-none key es h.1)

  pub pick-append_left :
      (key : List TrieChar) (es es' : List Entry)
      → pick key es' ≡ none
      → pick key (es ++ es') ≡ pick key es
  pick-append_left key [] es' h = h
  pick-append_left key (e ∷ es) es' h = elim (Bool-cases (eqb_list (key_of trie e) key)) [
    | inl hit ↦ rw hit
    | inr miss ↦ rw miss (pick-append_left key es es' h)
  ]

  pub pick-append_right :
      (key : List TrieChar) (es es' : List Entry)
      → All (Misses key) es
      → pick key (es ++ es') ≡ pick key es'
  pick-append_right key [] es' h = refl
  pick-append_right key (e ∷ es) es' h = rw h.0 (pick-append_right key es es' h.1)

  abbrev pub tail_labels : Entry → List TrieChar
  tail_labels e = labels_of (Tail.get_suffix trie.tail (pos (suc e.block)))

  pub key_of-path :
      (e : Entry) (p : List TrieChar) (d : TrieChar) (q : List TrieChar)
      → has trie_char_term p ≡ false
      → e.path ≡ p ++ (d ∷ q)
      → key_of trie e ≡ p ++ until_term (d ∷ (q ++ tail_labels e))
  key_of-path e p d q plain at =
      ap (λ x. until_term (x ++ tail_labels e)) at
      ∙ ap until_term (append_assoc p (d ∷ q) (tail_labels e))
      ∙ until_term-prefix p (d ∷ (q ++ tail_labels e)) plain

  -- A path that leaves the key at another label.
  pub Misses-path :
      (e : Entry) (p : List TrieChar) (d l : TrieChar) (q ls : List TrieChar)
      → has trie_char_term p ≡ false
      → e.path ≡ p ++ (d ∷ q)
      → d ≢ l
      → l ≢ 0
      → Misses (p ++ (l ∷ ls)) e
  Misses-path e p d l q ls plain at ne nz =
      ap (λ k. eqb_list k (p ++ (l ∷ ls))) (key_of-path e p d q plain at)
      ∙ eqb_list-prefix p (until_term (d ∷ (q ++ tail_labels e))) (l ∷ ls)
      ∙ differ d l (q ++ tail_labels e) ls ne nz

  -- A path that goes on where the key ends.
  pub Misses-longer :
      (e : Entry) (p : List TrieChar) (d : TrieChar) (q : List TrieChar)
      → has trie_char_term p ≡ false
      → e.path ≡ p ++ (d ∷ q)
      → d ≢ 0
      → Misses p e
  Misses-longer e p d q plain at nz =
      ap (λ k. eqb_list k p) (key_of-path e p d q plain at)
      ∙ eqb_list-longer p (until_term (d ∷ (q ++ tail_labels e)))
      ∙ longer d (q ++ tail_labels e) nz
