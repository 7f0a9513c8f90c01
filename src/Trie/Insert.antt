-- ===== src/Trie/Insert.antt =====
-- About `store` on a trie that holds a tree, and `retrieve` of all keys after it.
use libdatrie_rs.Common.{
  ℕ, suc, ◌+◌, ◌^◌, ◌≤◌, ◌<◌, ◌≡◌, refl, sym, ap, subst, ◌∙◌, true, false, some, List, [], ◌∷◌,
  ◌++◌, arith, length, has,
}
use libdatrie_rs.Common.Int.{pos, negsuc}
use libdatrie_rs.Common.Run.{ok}
use libdatrie_rs.Types.{TrieChar, AlphaChar, TrieData, alpha_char_error}
use libdatrie_rs.Symbols.{ArrayVec}
use libdatrie_rs.DArray
use libdatrie_rs.DArray.Fields.{base_at, check_at}
use libdatrie_rs.DArray.Kinds.{is_separate-leaf}
use libdatrie_rs.DArray.Links.{remove}
use libdatrie_rs.DArray.Paths.{Way, path_of}
use libdatrie_rs.DArray.Forest.{Forest, Entry}
use libdatrie_rs.Tail.AllocBlock.{rest}
use libdatrie_rs.Trie.Defs.{RoTrie, Trie, retrieve_branches, retrieve, ro_retrieve}
use libdatrie_rs.Trie.Store.{store}
use libdatrie_rs.Trie.Branch.{Branched}
use libdatrie_rs.Trie.Found.{branches-separate}
use libdatrie_rs.Trie.Model.{IsStored, data_of, until_term}
use libdatrie_rs.Trie.Pick.{eqb_list, eqb_list_refl, until_term-prefix}
use libdatrie_rs.Trie.Compare.{Spells}
use libdatrie_rs.Trie.Step.{after, after-rest, branches-arc, branches-null}
use libdatrie_rs.Trie.Lookup.{ro_retrieve-pick}
use libdatrie_rs.Trie.Along.{first_label, branches-Way}
use libdatrie_rs.Trie.Kept.{pick-Sown}
use libdatrie_rs.Trie.Grow.{Holds, Node, tail_part, after_first, made, base-low}
use libdatrie_rs.Trie.Grown.{
  Spells-plain, entry_new, f', new-IsStored, new-fields, key_of-new, sames, sown, kept-base,
  kept-Way, grown-Represents, grown-Holds,
}
use mathlib.Core.List.{append-nil, append_assoc}

-- The characters of a key that are compared with the suffix.
abbrev text_left : List AlphaChar → List AlphaChar
text_left [] = []
text_left (c ∷ str) = str

abbrev labels_left : List TrieChar → List TrieChar
labels_left [] = []
labels_left (l ∷ ls) = ls

tail_part-labels :
    (ls : List TrieChar) → has 0 ls ≡ false → until_term (tail_part ls) ≡ labels_left ls
tail_part-labels [] plain = refl
tail_part-labels (l ∷ ls) plain = until_term-prefix ls (0 ∷ 0 ∷ []) (ground arith) ∙ append-nil ls

module _ {D : Type 0} (trie : RoTrie D) where
  Spells-left :
      (str : List AlphaChar) (ls : List TrieChar)
      → Spells trie.alpha_map str ls
      → Spells trie.alpha_map (text_left str) (labels_left ls)
  Spells-left [] [] h = tt
  Spells-left [] (l ∷ ls) h = elim h [ ]
  Spells-left (c ∷ str) [] h = elim h [ ]
  Spells-left (c ∷ str) (l ∷ ls) h = h.1

  -- From a node `retrieve` takes the arc for the next character, and stops at a separate cell.
  landing :
      (s b i : ℕ) (last : AlphaChar) (str : List AlphaChar) (ls : List TrieChar)
      → base_at trie.da.cells s ≡ some (pos b)
      → b < 2 ^ 31
      → length trie.da.cells < 2 ^ 31
      → Spells trie.alpha_map str ls
      → check_at trie.da.cells (b + first_label ls) ≡ some (pos s)
      → base_at trie.da.cells (b + first_label ls) ≡ some (negsuc i)
      → retrieve_branches trie (pos s) last (str ++ (0 ∷ []))
        ≡ ok (some (pos (b + first_label ls), text_left str ++ (0 ∷ [])))
  landing s b i last [] [] base low size h check sep =
      branches-null trie s b base low size last (b + 0) [] refl check
  landing s b i last [] (l ∷ ls) base low size h check sep = elim h [ ]
  landing s b i last (c ∷ str) [] base low size h check sep = elim h [ ]
  landing s b i last (c ∷ str) (l ∷ ls) base low size h check sep =
      branches-arc trie s b base low size last c l (b + l) (str ++ (0 ∷ [])) h.0 refl check
      ∙ branches-separate trie (pos (b + l)) c str (is_separate-leaf trie.da (b + l) i sep)

  -- `retrieve` of a key that leads to a separate cell, whose suffix is the rest of the key.
  retrieve-there :
      (r : List TrieChar) (s b : ℕ) (e : Entry) (above below : List AlphaChar) (ls : List TrieChar)
      → Way trie.da.cells 2 s r
      → Spells trie.alpha_map above (path_of r)
      → base_at trie.da.cells s ≡ some (pos b)
      → b < 2 ^ 31
      → length trie.da.cells < 2 ^ 31
      → Spells trie.alpha_map below ls
      → e.node ≡ b + first_label ls
      → check_at trie.da.cells (b + first_label ls) ≡ some (pos s)
      → base_at trie.da.cells (b + first_label ls) ≡ some (negsuc e.block)
      → (st : IsStored trie e) → st.suffix ≡ tail_part ls
      → ro_retrieve trie (above ++ (below ++ (0 ∷ []))) ≡ ok (data_of trie e)
  unfolding ro_retrieve DArray.get_root after
  retrieve-there r s b e above below ls path spells base low size spells' at check sep st same =
      let (last, up) =
        branches-Way trie size s r above (below ++ (0 ∷ [])) alpha_char_error path spells in
      let land = landing s b e.block last below ls base low size spells' check sep in
      let sep' : base_at trie.da.cells e.node ≡ some (negsuc e.block) = rw at sep in
      let compared =
        after-rest trie e (text_left below) (labels_left ls) sep' st
          (Spells-left below ls spells') in
      let same' : until_term st.suffix ≡ labels_left ls =
        ap until_term same ∙ tail_part-labels ls (Spells-plain trie.alpha_map below ls spells') in
      let hit : eqb_list (until_term st.suffix) (labels_left ls) ≡ true =
        ap (λ k. eqb_list k (labels_left ls)) same' ∙ eqb_list_refl (labels_left ls) in
      ap (after trie)
        (up ∙ land ∙ ap (λ k. ok (some (pos k, text_left below ++ (0 ∷ [])))) (sym at))
      ∙ compared
      ∙ rw hit refl

-- `self'` holds a tree with the new key, whose labels are `new`, and well-formed free lists;
-- `retrieve` finds the data of the new key, and of every other key what it found before.
pub record Stored {D : Type 0} (self : Trie D) (str : List AlphaChar) (new : List TrieChar)
    (value : D) (self' : Trie D) : Type 0 where
  pub tree : Forest
  pub free_cells : List ℕ
  pub free_blocks : List ℕ
  pub holds : Holds self' tree free_cells free_blocks
  pub found : retrieve self' (str ++ (0 ∷ [])) ≡ ok (some value)
  pub others :
      (other : List AlphaChar) (ls : List TrieChar)
      → Spells self.ro.alpha_map other ls
      → eqb_list new ls ≡ false
      → retrieve self' (other ++ (0 ∷ [])) ≡ retrieve self (other ++ (0 ∷ []))

module _ {D : Type 0} (v : ArrayVec) (t : TrieData D) (self : Trie D) (f : Forest) (xs ys : List ℕ)
    (h : Holds self f xs ys) (above below : List AlphaChar) (ls : List TrieChar)
    (spells : Spells self.ro.alpha_map below ls) (spot : Node self above)
    (free : has (spot.base + first_label ls) xs ≡ true)
    (room : suc (length self.ro.tail.tails) < 2 ^ 31) (short : suc (suc (length ls)) ≤ 2 ^ 15)
    (value : D) where
  module _ (self' : Trie D)
      (new : Branched t self xs ys spot.node
        (spot.base + first_label ls)
        (first_label ls)
        (after_first ls)
        value
        self') where
    there : retrieve self' (above ++ (below ++ (0 ∷ []))) ≡ ok (some value)
    unfolding retrieve
    there =
        let tree =
          grown-Represents v t self f xs ys h above below ls spells spot free room short value self'
            new in
        let st =
          new-IsStored v t self f xs ys h above below ls spells spot free room short value self'
            new in
        let fields =
          new-fields v t self f xs ys h above below ls spells spot free room short value self'
            new in
        let low = base-low v t self f xs ys h above below ls spells spot free room value in
        let e =
          entry_new v t self f xs ys h above below ls spells spot free room short value self' new in
        retrieve-there self'.ro spot.labels spot.node spot.base e above below ls
          (kept-Way v t self f xs ys h above below ls spells spot free room short value self' new
            spot.node spot.labels spot.path)
          (subst (λ am. Spells am above (path_of spot.labels)) (sym new.alphabet) spot.spells)
          (kept-base v t self f xs ys h above below ls spells spot free room short value self' new
            spot.node spot.base spot.has_base)
          low tree.size (subst (λ am. Spells am below ls) (sym new.alphabet) spells) refl new.check
          new.base st fields.0
        ∙ ap ok (st.data_there ∙ ap some fields.1)

    elsewhere :
        (str : List AlphaChar) (ls' : List TrieChar)
        → Spells self.ro.alpha_map str ls'
        → eqb_list (path_of spot.labels ++ ls) ls' ≡ false
        → retrieve self' (str ++ (0 ∷ [])) ≡ retrieve self (str ++ (0 ∷ []))
    unfolding retrieve
    elsewhere str ls' spells' other =
        let tree =
          grown-Represents v t self f xs ys h above below ls spells spot free room short value self'
            new in
        let other' =
          ap (λ k. eqb_list k ls')
            (key_of-new v t self f xs ys h above below ls spells spot free room short value self'
              new)
          ∙ other in
        let same =
          pick-Sown self.ro self'.ro ls' other'
            (sames v t self f xs ys h above below ls spells spot free room short value self' new)
            (sown v t self f xs ys h above below ls spells spot free room short value self' new) in
        ro_retrieve-pick self'.ro _ tree str ls'
          (subst (λ am. Spells am str ls') (sym new.alphabet) spells')
        ∙ ap ok same
        ∙ sym (ro_retrieve-pick self.ro f h.tree str ls' spells')

  -- On a trie that holds a tree of fewer than 2^31 cells, with a terminated suffix of at most 2^15
  -- labels for each separate cell, with well-formed lists of free cells and blocks and room for one
  -- more tail block, Trie::store of a null-terminated string of characters whose labels are 1 to
  -- 255, the first of which lead to a node with a positive base, with no arc for the next one and a
  -- free cell for it, and of which fewer than 2^15 - 1 are left there, succeeds: the trie again
  -- holds a tree, with well-formed free lists, Trie::retrieve finds the new data for the key, and
  -- for every string with other labels from 1 to 255 what it found before.
  pub store-Stored :
      (self' : Trie D) × (store v t self ((above ++ below) ++ (0 ∷ [])) value ≡ ok (self', true))
      × Stored self (above ++ below) (path_of spot.labels ++ ls) value self'
  store-Stored =
      let (self', run, new) = made v t self f xs ys h above below ls spells spot free room value in
      (
        self',
        ap (λ k. store v t self k value) (append_assoc above below (0 ∷ [])) ∙ run,
        record {
          tree = f' v t self f xs ys h above below ls spells spot free room short value self' new;
          holds =
              grown-Holds v t self f xs ys h above below ls spells spot free room short value self'
                new;
          free_cells = remove (spot.base + first_label ls) xs;
          free_blocks = rest t ys;
          found = ap (λ k. retrieve self' k) (append_assoc above below (0 ∷ [])) ∙ there self' new;
          others = elsewhere self' new;
        },
      )
