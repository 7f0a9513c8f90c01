-- ===== src/Trie/Listing.antt =====
-- About `TrieIterator`, run from the root of a trie to its end.
use libdatrie_rs.Common.{
  ℕ, zero, suc, ◌≤◌, ◌<◌, ◌^◌, ◌≡◌, refl, sym, subst, ◌∙◌, true, false, Option, none, some, List,
  [], ◌∷◌, ◌++◌, arith, length, All, map,
}
use libdatrie_rs.Common.Int.{pos, negsuc}
use libdatrie_rs.Common.Run.{Run, ok, out_of_fuel, ◌>>=◌}
use libdatrie_rs.Types.{TrieIndex, AlphaChar, TrieChar}
use libdatrie_rs.AlphaMap
use libdatrie_rs.DArray
use libdatrie_rs.DArray.Fields.{base_at}
use libdatrie_rs.DArray.Walk.{first_loop}
use libdatrie_rs.DArray.Kinds.{is_separate-leaf, get_tail_index-leaf}
use libdatrie_rs.DArray.Forest.{
  Forest, end, leaf, branch, Next, IsInner, Arcs, Entry, entries, IsRoot, Place, IsPlace, remaining,
}
use libdatrie_rs.DArray.Descent.{
  first_label, first_cell, Arcs-first, first_loop-branch, first_separate-empty, descent,
}
use libdatrie_rs.DArray.Ascent.{Outcome, finished, moved, next_separate_lem}
use libdatrie_rs.DArray.Order.{IsOrdered, entries-IsOrdered}
use libdatrie_rs.DArray.Leads.{Leads-short}
use libdatrie_rs.DArray.Place.{base_at-lt}
use mathlib.Core.List.{append-nil}
use libdatrie_rs.Tail
use libdatrie_rs.Trie.Defs.{RoTrie}
use libdatrie_rs.Trie.Model.{labels_of, IsStored, Represents}
use libdatrie_rs.Trie.State.{root}
use libdatrie_rs.Trie.Iter.{TrieIterator, iter_new, next, iter_next, key, value_of}

module _ {D : Type 0} (trie : RoTrie D) where
  -- `for item in iterator { items.push(item) }`
  unfoldable pub collect : ℕ → TrieIterator → Run (List (List AlphaChar × Option D))
  collect zero self = out_of_fuel
  collect (suc fuel) self = do
    (self, found) ← next trie self
    elim found [ none ↦ ok [] | some item ↦ (do items ← collect fuel self; ok (item ∷ items)) ]

  -- The key and the data that a separate cell stands for.
  abbrev pub item : Entry → List AlphaChar × Option D
  item e = (
    AlphaMap.map_to_alpha_char trie.alpha_map e.path
        ++ (AlphaMap.map_to_alpha_char trie.alpha_map
              (labels_of (Tail.get_suffix trie.tail (pos (suc e.block))))
            ++ (0 ∷ [])),
    Tail.get_data trie.tail (pos (suc e.block)),
  )

  -- The iterator at a separate cell.
  abbrev pub iterator_at : Entry → TrieIterator
  iterator_at e = record {
    root = root trie;
    state = some (record (root trie) { index = pos e.node });
    key_ = e.path;
  }

  module _ (e : Entry) (separate : base_at trie.da.cells e.node ≡ some (negsuc e.block))
      (stored : IsStored trie e) where
    key-item : key trie (iterator_at e) ≡ ok (some (item e).0)
    unfolding key root
    key-item =
        let at = get_tail_index-leaf trie.da e.node e.block separate stored.small in
        let there = stored.there in cc

    value-item : value_of trie (iterator_at e) ≡ ok (item e).1
    unfolding value_of root
    value-item =
        let at = get_tail_index-leaf trie.da e.node e.block separate stored.small in
        let sep = is_separate-leaf trie.da e.node e.block separate in cc

    next-item :
        (self : TrieIterator)
        → iter_next trie self ≡ ok (iterator_at e, true)
        → next trie self ≡ ok (iterator_at e, some (item e))
    unfolding next
    next-item self h = let k = key-item in let v = value-item in cc

  -- Nothing is left.
  next-end :
      (self self' : TrieIterator)
      → iter_next trie self ≡ ok (self', false)
      → next trie self ≡ ok (self', none)
  unfolding next
  next-end self self' h = cc

  module _ (small : length trie.da.cells < 2 ^ 31) (top : IsRoot trie.da.cells 2) where
    iter_next-moved :
        (e e' : Entry)
        → DArray.next_separate trie.da (pos 2) (pos e.node) e.path
          ≡ ok (some (pos e'.node), e'.path)
        → iter_next trie (iterator_at e) ≡ ok (iterator_at e', true)
    unfolding iter_next root DArray.get_root
    iter_next-moved e e' h = cc

    iter_next-finished :
        (e : Entry) (keybuff : List TrieChar)
        → DArray.next_separate trie.da (pos 2) (pos e.node) e.path ≡ ok (none, keybuff)
        → (self : TrieIterator) × (iter_next trie (iterator_at e) ≡ ok (self, false))
    unfolding iter_next root DArray.get_root
    iter_next-finished e keybuff h = (record (iterator_at e) { key_ = keybuff }, cc)

    iter_next-first :
        (e : Entry)
        → DArray.first_separate trie.da (pos 2) [] ≡ ok (some (pos e.node), e.path)
        → iter_next trie (iter_new (root trie)) ≡ ok (iterator_at e, true)
    unfolding iter_next iter_new root DArray.get_root
    iter_next-first e h = cc

    iter_next-empty :
        DArray.first_separate trie.da (pos 2) [] ≡ ok (none, [])
        → (self : TrieIterator) × (iter_next trie (iter_new (root trie)) ≡ ok (self, false))
    unfolding iter_next iter_new root DArray.get_root
    iter_next-empty h = (record { root = root trie; state = some (root trie); key_ = [] }, cc)

    abbrev Left : Place → List Entry → Type 0
    Left place left =
        Outcome trie.da 2 small top left
          (DArray.next_separate trie.da (pos 2) (pos place.found.node) place.found.path)

    collect_end : (place : Place) → Left place [] → collect 1 (iterator_at place.found) ≡ ok []
    unfolding collect
    collect_end place (finished keybuff none_left run) =
        let (self, run') = iter_next-finished place.found keybuff run in
        let last = next-end (iterator_at place.found) self run' in cc
    collect_end place (moved after h more run) = cc

    collect_more :
        (place : Place) (e : Entry) (left : List Entry)
        → IsStored trie e
        → Left place (e ∷ left)
        → ((after : Place)
            → IsPlace trie.da.cells 2 after
            → remaining after.found.path after.frames ≡ left
            → collect (suc (length left)) (iterator_at after.found) ≡ ok (map item left))
        → collect (suc (suc (length left))) (iterator_at place.found) ≡ ok (item e ∷ map item left)
    unfolding collect
    collect_more place e left stored (finished keybuff none_left run) rest = cc
    collect_more place e left stored (moved after h more run) rest =
        let same : after.found ≡ e = cc in
        let stored' : IsStored trie after.found = subst (IsStored trie) (sym same) stored in
        let first =
          next-item after.found h.separate stored' (iterator_at place.found)
            (iter_next-moved place.found after.found run) in
        let others = rest after h (cc) in cc

    -- From a separate cell the iterator gives those that are left.
    collect_from :
        (left : List Entry) (place : Place)
        → IsPlace trie.da.cells 2 place
        → remaining place.found.path place.frames ≡ left
        → All (IsStored trie) left
        → collect (suc (length left)) (iterator_at place.found) ≡ ok (map item left)
    collect_from [] place h e stored =
        collect_end place (subst (Left place) e (next_separate_lem trie.da 2 small top place h))
    collect_from (x ∷ left) place h e stored =
        collect_more place x left stored.0
          (subst (Left place) e (next_separate_lem trie.da 2 small top place h))
          (λ after h' e'. collect_from left after h' e' stored.1)

    module _ (b : ℕ) (base : base_at trie.da.cells 2 ≡ some (pos b))
        (inside : b ≤ length trie.da.cells) where
      down :
          (c : TrieChar) (x : ℕ) (r : Option TrieIndex × List TrieChar)
          → Next trie.da.cells 2 b 0 c x
          → first_loop (length trie.da.cells) trie.da (pos x) (c ∷ []) ≡ ok r
          → DArray.first_separate trie.da (pos 2) [] ≡ ok r
      unfolding DArray.first_separate
      down c x r n e =
          first_loop-branch trie.da 2 small (length trie.da.cells) 2 b c x [] base n ∙ e

      start_inner :
          (g : Forest)
          → IsInner g
          → Arcs trie.da.cells 2 b 0 g
          → All (IsStored trie) (entries [] g)
          → collect (suc (length (entries [] g))) (iter_new (root trie))
            ≡ ok (map item (entries [] g))
      unfolding collect
      start_inner g inner h all =
          let d = descent trie.da 2 small 2 b 0 [] g [] inner base h refl in
          let e : d.place.found ∷ remaining d.place.found.path d.place.frames ≡ entries [] g =
            sym d.listing ∙ append-nil (entries [] g) in
          let all' = subst (All (IsStored trie)) (sym e) all in
          let fuel =
            Leads-short trie.da.cells 2 top d.place.found.node d.place.frames
              (base_at-lt trie.da.cells d.place.found.node _ d.is_place.separate)
              d.is_place.leads in
          let found : DArray.first_separate trie.da (pos 2) []
              ≡ ok (some (pos d.place.found.node), d.place.found.path) =
            down (first_label g) (first_cell g) _ (Arcs-first trie.da 2 small 2 b 0 g inner h)
              (d.run (length trie.da.cells) (omega (arith, fuel))) in
          let first =
            next-item d.place.found d.is_place.separate all'.0 (iter_new (root trie))
              (iter_next-first d.place.found found) in
          let others =
            collect_from (remaining d.place.found.path d.place.frames) d.place d.is_place refl
              all'.1 in
          subst (λ l. collect (suc (length l)) (iter_new (root trie)) ≡ ok (map item l)) e (cc)

      start_empty : Arcs trie.da.cells 2 b 0 end → collect 1 (iter_new (root trie)) ≡ ok []
      unfolding collect
      start_empty h =
          let (self, run) =
            iter_next-empty (first_separate-empty trie.da 2 b [] small base inside h) in
          let last = next-end (iter_new (root trie)) self run in cc

      all_of :
          (g : Forest)
          → Arcs trie.da.cells 2 b 0 g
          → All (IsStored trie) (entries [] g)
          → collect (suc (length (entries [] g))) (iter_new (root trie))
            ≡ ok (map item (entries [] g))
      all_of end h all = start_empty h
      all_of (leaf c x i rest) h all = start_inner (leaf c x i rest) tt h all
      all_of (branch c x b' sub rest) h all = start_inner (branch c x b' sub rest) tt h all

  -- The for loop over the TrieIterator of a trie that holds a tree of fewer than 2^31 cells, with a
  -- terminated suffix of at most 2^15 labels for each separate cell, gives the keys and the data of
  -- all its separate cells, in the order of the labels that lead to them, each once, and ends.
  pub collect_lem :
      (f : Forest)
      → Represents trie f
      → (collect (suc (length (entries [] f))) (iter_new (root trie))
          ≡ ok (map item (entries [] f)))
        × IsOrdered (entries [] f)
  collect_lem f h = (
    all_of h.size h.top h.base h.root_base h.inside f h.arcs h.stored,
    entries-IsOrdered trie.da.cells 2 h.base 0 [] f h.arcs,
  )
