-- ===== src/Trie/Longer.antt =====
-- About a trie whose double array is extended: it holds the same tree.
use libdatrie_rs.Common.{
  ℕ, ◌≤◌, ◌≡◌, refl, sym, ap, ◌∙◌, some, List, [], ◌∷◌, ◌++◌, arith, length, All,
}
use libdatrie_rs.Common.Int.{pos}
use libdatrie_rs.Common.Run.{ok}
use libdatrie_rs.Types.{TrieChar, AlphaChar, TrieData}
use libdatrie_rs.Symbols.{ArrayVec}
use libdatrie_rs.DArray
use libdatrie_rs.DArray.{DArray}
use libdatrie_rs.DArray.Cells.{check_of}
use libdatrie_rs.DArray.Grow.{Grown}
use libdatrie_rs.DArray.GraftPool.{node-used}
use libdatrie_rs.DArray.GrowArcs.{Arcs-kept, added, grown-kept, grown-no_arc, grown-base}
use libdatrie_rs.DArray.Paths.{Way}
use libdatrie_rs.DArray.Forest.{Forest, Entry, entries}
use libdatrie_rs.Trie.Defs.{Trie, retrieve}
use libdatrie_rs.Trie.Pick.{pick}
use libdatrie_rs.Trie.Compare.{Spells}
use libdatrie_rs.Trie.Lookup.{ro_retrieve-pick}
use libdatrie_rs.Trie.Kept.{Same, stored-all}
use libdatrie_rs.Trie.Grow.{Holds, Node}

module _ {D : Type 0} (v : ArrayVec) (t : TrieData D) (self : Trie D) (f : Forest) (xs ys : List ℕ)
    (h : Holds self f xs ys) (da : DArray) (to : ℕ) (beyond : length self.ro.da.cells ≤ to)
    (g : Grown self.ro.da to xs da) where
  -- The trie with the longer double array.
  abbrev pub longer : Trie D
  longer = record self { ro = record self.ro { da = da } }

  abbrev pub xs' : List ℕ
  xs' = xs ++ added v self.ro.da da to xs h.pool h.header beyond g

  kept-all : (es : List Entry) → All (Same self.ro longer.ro) es
  kept-all [] = tt
  kept-all (e ∷ es) = (record { suffix = refl; data_ = refl }, kept-all es)

  pub base-longer :
      (p b : ℕ)
      → DArray.Fields.base_at self.ro.da.cells p ≡ some (pos b)
      → DArray.Fields.base_at da.cells p ≡ some (pos b)
  base-longer =
      grown-base v self.ro.da da to xs h.pool h.header beyond g h.tree.top.header h.tree.top.no_base

  pub longer-Holds : Holds longer f xs' ys
  longer-Holds = record {
    tree = record {
      base = h.tree.base;
      size = g.pool.small;
      top = record {
        header = h.tree.top.header;
        top =
            ap check_of (
              let used = node-used v self.ro.da xs h.pool 2 h.tree.base h.tree.root_base in
              g.kept 2 (ground arith) (omega (arith, h.pool.enough)))
            ∙ h.tree.top.top;
        no_base = g.header_base ∙ h.tree.top.no_base;
      };
      root_base = base-longer 2 h.tree.base h.tree.root_base;
      inside = omega (arith, h.tree.inside, g.size, beyond);
      arcs =
          Arcs-kept self.ro.da.cells da.cells
            (grown-kept v self.ro.da da to xs h.pool h.header beyond g)
            (grown-no_arc v self.ro.da da to xs h.pool h.header beyond g) 2 h.tree.base 0 f
            h.tree.root_base h.tree.arcs;
      stored = stored-all self.ro longer.ro (entries [] f) h.tree.stored (kept-all (entries [] f));
    };
    pool = g.pool;
    blocks = h.blocks;
    in_use = h.in_use;
    header = g.header ∙ ap (λ n. some (pos n)) (sym g.size);
  }

  pub longer-Way : (x : ℕ) (r : List TrieChar) → Way self.ro.da.cells 2 x r → Way da.cells 2 x r
  longer-Way x [] p = p
  longer-Way x (c ∷ r) p = (
    record {
      parent = p.0.parent;
      base = p.0.base;
      check =
          ap check_of (
            grown-kept v self.ro.da da to xs h.pool h.header beyond g x p.0.parent p.0.base
              p.0.has_base p.0.check)
          ∙ p.0.check;
      has_base = base-longer p.0.parent p.0.base p.0.has_base;
      at = p.0.at;
    },
    longer-Way p.0.parent r p.1,
  )

  abbrev pub longer-Node : (above : List AlphaChar) → Node self above → Node longer above
  longer-Node above spot = record {
    node = spot.node;
    base = spot.base;
    labels = spot.labels;
    path = longer-Way spot.node spot.labels spot.path;
    spells = spot.spells;
    has_base = base-longer spot.node spot.base spot.has_base;
    positive = spot.positive;
  }

  pick-longer :
      (key : List TrieChar) (es : List Entry) → pick longer.ro key es ≡ pick self.ro key es
  pick-longer key [] = refl
  pick-longer key (e ∷ es) = rw (pick-longer key es) refl

  pub retrieve-longer :
      (str : List AlphaChar) (ls : List TrieChar)
      → Spells self.ro.alpha_map str ls
      → retrieve longer (str ++ (0 ∷ [])) ≡ retrieve self (str ++ (0 ∷ []))
  unfolding retrieve
  retrieve-longer str ls spells =
      ro_retrieve-pick longer.ro f longer-Holds.tree str ls spells
      ∙ ap ok (pick-longer ls (entries [] f))
      ∙ sym (ro_retrieve-pick self.ro f h.tree str ls spells)
