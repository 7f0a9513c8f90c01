-- ===== src/Trie/Kept.antt =====
-- About the separate cells of a trie after `store`: the old ones stand for the same keys and data.
use libdatrie_rs.Common.{
  ℕ, suc, ◌^◌, ◌<◌, ◌≡◌, refl, sym, ap, ◌∙◌, false, Option, none, some, List, [], ◌∷◌, ◌++◌, subst,
  All, length, get_elem?, get_elem?_lt,
}
use libdatrie_rs.Common.Int.{pos}
use libdatrie_rs.Types.{TrieChar}
use libdatrie_rs.DArray.Forest.{Entry}
use libdatrie_rs.DArray.GraftEntries.{Sown, done, keep, sow}
use libdatrie_rs.Tail.Defs.{Tail, TailBlock, get_suffix, get_data}
use libdatrie_rs.Tail.AddSuffix.{block-index}
use libdatrie_rs.Trie.Defs.{RoTrie}
use libdatrie_rs.Trie.Model.{IsStored, key_of, until_term, labels_of}
use libdatrie_rs.Trie.Pick.{eqb_list, pick}

pub All-Sown :
    (P : Entry → Type 0) {e : Entry} {es es' : List Entry}
    → P e
    → All P es
    → Sown e es es'
    → All P es'
All-Sown P new h done = h
All-Sown P new h (keep x s) = (h.0, All-Sown P new h.1 s)
All-Sown P new h (sow x same s) = (subst P (sym same) new, All-Sown P new h s)

module _ {D : Type 0} where
  -- The suffix and the data of block `i` are the same in both tails.
  pub record SameBlock (tail tail' : Tail D) (i : ℕ) : Type 0 where
    pub suffix : get_suffix tail' (pos (suc i)) ≡ get_suffix tail (pos (suc i))
    pub data_ : get_data tail' (pos (suc i)) ≡ get_data tail (pos (suc i))

  pub block-same :
      (tail tail' : Tail D) (i : ℕ)
      → suc i < 2 ^ 31
      → get_elem? tail'.tails i ≡ get_elem? tail.tails i
      → SameBlock tail tail' i
  unfolding get_suffix get_data
  block-same tail tail' i small same = record {
    suffix = rw (block-index i small, same);
    data_ = rw (get_data, block-index i small, same);
  }

  -- A block with a suffix is there.
  pub block-inside :
      (tail : Tail D) (i : ℕ) (suffix : List TrieChar)
      → suc i < 2 ^ 31
      → get_suffix tail (pos (suc i)) ≡ some suffix
      → i < length tail.tails
  unfolding get_suffix
  block-inside tail i suffix small e = go (get_elem? tail.tails i) refl e
    where
      go :
          (o : Option (TailBlock D))
          → get_elem? tail.tails i ≡ o
          → get_suffix tail (pos (suc i)) ≡ some suffix
          → i < length tail.tails
      go none e h = let h' = rw (block-index i small, e) at h in cc
      go (some b) e h = get_elem?_lt tail.tails i e

module _ {D : Type 0} (trie trie' : RoTrie D) where
  abbrev pub Same : Entry → Type 0
  Same e = SameBlock trie.tail trie'.tail e.block

  stored-Same : (e : Entry) → IsStored trie e → Same e → IsStored trie' e
  stored-Same e h same = record {
    suffix = h.suffix;
    value = h.value;
    there = same.suffix ∙ h.there;
    data_there = same.data_ ∙ h.data_there;
    small = h.small;
    short = h.short;
    terminated = h.terminated;
    whole = h.whole;
  }

  pub stored-all :
      (es : List Entry) → All (IsStored trie) es → All Same es → All (IsStored trie') es
  stored-all [] h same = tt
  stored-all (e ∷ es) h same = (stored-Same e h.0 same.0, stored-all es h.1 same.1)

  key-Same : (e : Entry) → Same e → key_of trie' e ≡ key_of trie e
  key-Same e same = ap (λ o. until_term (e.path ++ labels_of o)) same.suffix

  -- Among the separate cells, with the new one here and there, another key is found where it was.
  pub pick-Sown :
      (key : List TrieChar) {new : Entry} {es es' : List Entry}
      → eqb_list (key_of trie' new) key ≡ false
      → All Same es
      → Sown new es es'
      → pick trie' key es' ≡ pick trie key es
  pick-Sown key other same done = refl
  pick-Sown key other same (keep x s) =
      rw (key-Same x same.0, same.0.data_, pick-Sown key other same.1 s) refl
  pick-Sown key other same (sow x is_new s) =
      let miss : eqb_list (key_of trie' x) key ≡ false =
        ap (λ e. eqb_list (key_of trie' e) key) is_new ∙ other in
      rw miss (pick-Sown key other same s)
