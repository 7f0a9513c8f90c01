-- ===== src/Trie/Grown.antt =====
-- About the trie after `store` at a node with no arc: it holds the tree with the new key.
use libdatrie_rs.Common.{
  ℕ, suc, ◌+◌, ◌^◌, ◌≤◌, ◌<◌, ◌≡◌, refl, sym, ap, subst, ◌∙◌, ◌≢◌, true, false, some, List, [], ◌∷◌,
  ◌++◌, arith, length, ◌==◌, ==_iff, has, has-below, All,
}
use libdatrie_rs.Common.Int.{pos}
use libdatrie_rs.Types.{TrieChar, AlphaChar, TrieData, trie_char_term}
use libdatrie_rs.Symbols.{ArrayVec}
use libdatrie_rs.AlphaMap.Defs.{AlphaMap}
use libdatrie_rs.DArray.Cells.{base_of, check_of}
use libdatrie_rs.DArray.Fields.{base_at}
use libdatrie_rs.DArray.GraftPool.{Grafted-free, node-used}
use libdatrie_rs.DArray.Graft.{Arc, graft, Grafted}
use libdatrie_rs.DArray.GraftArcs.{Arcs-graft, below-IsHere}
use libdatrie_rs.DArray.GraftEntries.{new_entry, Sown, Sown-graft}
use libdatrie_rs.DArray.Links.{remove}
use libdatrie_rs.DArray.Paths.{Way, path_of}
use libdatrie_rs.DArray.Forest.{Forest, Entry, entries}
use libdatrie_rs.Tail.Defs.{Tail, get_suffix}
use libdatrie_rs.Tail.AddSuffix.{fresh-le}
use libdatrie_rs.Tail.AllocBlock.{fresh, rest}
use libdatrie_rs.Trie.Defs.{Trie}
use libdatrie_rs.Trie.Branch.{Branched}
use libdatrie_rs.Trie.Model.{IsStored, Represents, starts_with_term, until_term, key_of, labels_of}
use libdatrie_rs.Trie.Pick.{until_term-prefix}
use libdatrie_rs.Trie.Compare.{Spells}
use libdatrie_rs.Trie.Lookup.{ends-append}
use libdatrie_rs.Trie.Along.{first_label}
use libdatrie_rs.Trie.Kept.{All-Sown, Same, block-same, block-inside, stored-all}
use libdatrie_rs.Trie.Grow.{
  Holds, Node, new_arc, first-byte, first-tail, tail_part, after_first, tail_part-has,
  tail_part-length,
}
use mathlib.Core.List.{append-nil, append_assoc}

pub Spells-plain :
    (am : AlphaMap) (str : List AlphaChar) (ls : List TrieChar)
    → Spells am str ls
    → has trie_char_term ls ≡ false
Spells-plain am str [] h = refl
Spells-plain am [] (l ∷ ls) h = elim h [ ]
Spells-plain am (c ∷ str) (l ∷ ls) h = ground (arith, h.0.no_term, Spells-plain am str ls h.1)

key-new :
    (p ls : List TrieChar)
    → has trie_char_term p ≡ false
    → has trie_char_term ls ≡ false
    → until_term ((p ++ (first_label ls ∷ [])) ++ tail_part ls) ≡ p ++ ls
key-new p [] plain plain' =
    ap until_term (append_assoc p (0 ∷ []) (0 ∷ 0 ∷ []))
    ∙ until_term-prefix p (0 ∷ 0 ∷ 0 ∷ []) plain
key-new p (l ∷ ls) plain plain' =
    ap until_term (append_assoc p (l ∷ []) (ls ++ (0 ∷ 0 ∷ [])))
    ∙ until_term-prefix p ((l ∷ ls) ++ (0 ∷ 0 ∷ [])) plain
    ∙ ap (λ k. p ++ k) (until_term-prefix (l ∷ ls) (0 ∷ 0 ∷ []) plain' ∙ append-nil (l ∷ ls))

tail_part-starts :
    (ls : List TrieChar)
    → has trie_char_term ls ≡ false
    → first_label ls ≡ 0
    → starts_with_term (tail_part ls) ≡ true
tail_part-starts [] plain e = refl
tail_part-starts (l ∷ ls) plain e = absurd (ground (arith, e))

module _ {D : Type 0} (t : TrieData D) where
  apart-fresh :
      (tail : Tail D) (k : ℕ) (ys : List ℕ)
      → has k ys ≡ false
      → k < length tail.tails
      → k ≢ fresh t tail ys
  apart-fresh tail k [] out inside e = omega (arith, e)
  apart-fresh tail k (y ∷ ys) out inside e = ground (arith, e)

  has-rest : (k : ℕ) (ys : List ℕ) → has k ys ≡ false → has k (rest t ys) ≡ false
  has-rest k [] out = refl
  has-rest k (y ∷ ys) out = ground arith

module _ {D : Type 0} (v : ArrayVec) (t : TrieData D) (self : Trie D) (f : Forest) (xs ys : List ℕ)
    (h : Holds self f xs ys) (above below : List AlphaChar) (ls : List TrieChar)
    (spells : Spells self.ro.alpha_map below ls) (spot : Node self above)
    (free : has (spot.base + first_label ls) xs ≡ true)
    (room : suc (length self.ro.tail.tails) < 2 ^ 31) (short : suc (suc (length ls)) ≤ 2 ^ 15)
    (value : D) (self' : Trie D)
    (new : Branched t self xs ys spot.node
      (spot.base + first_label ls)
      (first_label ls)
      (after_first ls)
      value
      self') where
  abbrev a : Arc
  a = new_arc t self ys above (first_label ls) spot

  grafted : Grafted a self.ro.da.cells self'.ro.da.cells
  grafted =
      Grafted-free v self.ro.da self'.ro.da xs a h.pool new.pool free spot.has_base
        (first-byte self.ro.alpha_map below ls spells) new.check new.base new.kept_cells

  abbrev pub entry_new : Entry
  entry_new = new_entry a self.ro.da.cells 2 h.tree.top spot.labels spot.path

  plain : has trie_char_term ls ≡ false
  plain = Spells-plain self.ro.alpha_map below ls spells

  suffix_there :
      get_suffix self'.ro.tail (pos (suc (fresh t self.ro.tail ys))) ≡ some (tail_part ls)
  suffix_there =
      ap (get_suffix self'.ro.tail) (sym new.is_block)
      ∙ new.suffix
      ∙ ap some (first-tail self.ro.alpha_map below ls spells)

  pub new-IsStored : IsStored self'.ro entry_new
  new-IsStored = record {
    suffix = tail_part ls;
    value = value;
    there = suffix_there;
    data_there = ap (libdatrie_rs.Tail.Defs.get_data self'.ro.tail) (sym new.is_block) ∙ new.data_;
    small = omega (arith, fresh-le t self.ro.tail ys h.blocks, room);
    short = omega (arith, tail_part-length ls, short);
    terminated = tail_part-has ls;
    whole = λ e. tail_part-starts ls plain (
        (==_iff (first_label ls) 0).0
          (sym (ends-append (path_of spot.labels) (first_label ls)) ∙ e));
  }

  pub new-fields : (new-IsStored.suffix ≡ tail_part ls) × (new-IsStored.value ≡ value)
  unfolding new-IsStored
  new-fields = (refl, refl)

  -- The new separate cell stands for the new key.
  pub key_of-new : key_of self'.ro entry_new ≡ path_of spot.labels ++ ls
  key_of-new =
      ap (λ o. until_term ((path_of spot.labels ++ (first_label ls ∷ [])) ++ labels_of o))
        suffix_there
      ∙ key-new (path_of spot.labels) ls
          (Spells-plain self.ro.alpha_map above (path_of spot.labels) spot.spells) plain

  sames-all :
      (es : List Entry)
      → All (IsStored self.ro) es
      → All (λ e. has e.block ys ≡ false) es
      → All (Same self.ro self'.ro) es
  sames-all [] stored used = tt
  sames-all (e ∷ es) stored used =
      let inside =
        block-inside self.ro.tail e.block stored.0.suffix stored.0.small stored.0.there in
      (
        block-same self.ro.tail self'.ro.tail e.block stored.0.small
            (new.kept_blocks e.block (apart-fresh t self.ro.tail e.block ys used.0 inside) inside),
        sames-all es stored.1 used.1,
      )

  pub sames : All (Same self.ro self'.ro) (entries [] f)
  sames = sames-all (entries [] f) h.tree.stored h.in_use

  abbrev pub f' : Forest
  f' = graft a (2 == spot.node) f

  pub sown : Sown entry_new (entries [] f) (entries [] f')
  sown =
      Sown-graft a self.ro.da.cells 2 h.tree.top spot.labels spot.path 2 h.tree.base 0
        (2 == spot.node) [] f h.tree.root_base refl (λ e. (==_iff 2 spot.node).0 e) h.tree.arcs

  pub kept-base :
      (x b : ℕ)
      → base_at self.ro.da.cells x ≡ some (pos b)
      → base_at self'.ro.da.cells x ≡ some (pos b)
  kept-base x b e = ap base_of (new.kept_cells x (node-used v self.ro.da xs h.pool x b e)) ∙ e

  pub grown-Represents : Represents self'.ro f'
  grown-Represents = record {
    base = h.tree.base;
    size = subst (λ n. n < 2 ^ 31) (sym new.size) h.tree.size;
    top = record {
      header = h.tree.top.header;
      top =
          ap check_of
            (new.kept_cells 2 (node-used v self.ro.da xs h.pool 2 h.tree.base h.tree.root_base))
          ∙ h.tree.top.top;
      no_base =
          ap base_of
            (new.kept_cells 0 (ground (arith, has-below 3 0 xs h.pool.sorted (omega arith))))
          ∙ h.tree.top.no_base;
    };
    root_base = kept-base 2 h.tree.base h.tree.root_base;
    inside = subst (λ n. h.tree.base ≤ n) (sym new.size) h.tree.inside;
    arcs =
        Arcs-graft a self.ro.da.cells self'.ro.da.cells grafted 2 h.tree.base 0 (2 == spot.node) f
          h.tree.root_base (below-IsHere a self.ro.da.cells self'.ro.da.cells grafted 2)
          h.tree.arcs;
    stored =
        All-Sown (IsStored self'.ro) new-IsStored
          (stored-all self.ro self'.ro (entries [] f) h.tree.stored sames) sown;
  }

  in_use-rest :
      (es : List Entry)
      → All (λ e. has e.block ys ≡ false) es
      → All (λ e. has e.block (rest t ys) ≡ false) es
  in_use-rest [] used = tt
  in_use-rest (e ∷ es) used = (has-rest t e.block ys used.0, in_use-rest es used.1)

  pub grown-Holds : Holds self' f' (remove (spot.base + first_label ls) xs) (rest t ys)
  grown-Holds = record {
    tree = grown-Represents;
    pool = new.pool;
    blocks = new.blocks;
    in_use =
        All-Sown (λ e. has e.block (rest t ys) ≡ false) new.taken
          (in_use-rest (entries [] f) h.in_use) sown;
    header =
        ap check_of
          (new.kept_cells 0 (ground (arith, has-below 3 0 xs h.pool.sorted (omega arith))))
        ∙ h.header
        ∙ ap (λ n. some (pos n)) (sym new.size);
  }

  pub kept-Way :
      (x : ℕ) (r : List TrieChar) → Way self.ro.da.cells 2 x r → Way self'.ro.da.cells 2 x r
  kept-Way x [] p = p
  kept-Way x (c ∷ r) p = (
    record {
      parent = p.0.parent;
      base = p.0.base;
      check = ap check_of (grafted.kept x p.0.parent p.0.check) ∙ p.0.check;
      has_base = kept-base p.0.parent p.0.base p.0.has_base;
      at = p.0.at;
    },
    kept-Way p.0.parent r p.1,
  )
