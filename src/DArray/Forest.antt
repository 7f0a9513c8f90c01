-- ===== src/DArray/Forest.antt =====
-- The tree that a double array holds: the arcs below a node, in the order of their labels.
use libdatrie_rs.Common.{ℕ, suc, ◌+◌, ◌≤◌, ◌<◌, ◌≡◌, ◌≢◌, false, some, List, [], ◌∷◌, ◌++◌}
use libdatrie_rs.Common.Int.{pos, negsuc}
use libdatrie_rs.Types.{TrieChar}
use libdatrie_rs.DArray.Cells.{DaCell}
use libdatrie_rs.DArray.Walk.{pop}
use libdatrie_rs.DArray.Fields.{base_at, check_at}
use libdatrie_rs.DArray.Children.{arc_at}

-- The arcs of a node, the first one first: its label, its cell, and what is below. A separate cell
-- holds the number of a tail block, less 1; another has a base and arcs of its own.
pub data Forest : Type 0 where
  end : Forest
  leaf : TrieChar → ℕ → ℕ → Forest → Forest
  branch : TrieChar → ℕ → ℕ → Forest → Forest → Forest

-- The first arc from node `s`, whose base is `b`, with a label of at least `from` has the label
-- `c`, and leads to cell `x`.
pub record Next (cells : List DaCell) (s b from : ℕ) (c : TrieChar) (x : ℕ) : Type 0 where
  pub at : x ≡ b + c
  pub above : from ≤ c
  pub low : c ≤ 255
  pub arc : check_at cells x ≡ some (pos s)
  pub gap : (d : ℕ) → from ≤ d → d < c → arc_at cells s b d ≡ false

-- The node has children.
abbrev pub IsInner : Forest → Type 0
IsInner end = ⊥
IsInner (leaf c x i rest) = Unit {0}
IsInner (branch c x b' sub rest) = Unit {0}

-- The arcs from node `s`, whose base is `b`, with labels of at least `from` are those of the
-- forest, and so on below.
abbrev pub Arcs : List DaCell → ℕ → ℕ → ℕ → Forest → Type 0
Arcs cells s b from end = (d : ℕ) → from ≤ d → d ≤ 255 → arc_at cells s b d ≡ false
Arcs cells s b from (leaf c x i rest) =
    Next cells s b from c x × (base_at cells x ≡ some (negsuc i)) × Arcs cells s b (suc c) rest
Arcs cells s b from (branch c x b' sub rest) =
    Next cells s b from c x
    × (base_at cells x ≡ some (pos b'))
    × IsInner sub
    × Arcs cells x b' 0 sub
    × Arcs cells s b (suc c) rest
    × (c ≢ 0)

-- A separate cell: the labels that lead to it, the cell, and its tail block, less 1.
pub record Entry : Type 0 where
  pub path : List TrieChar
  pub node : ℕ
  pub block : ℕ

abbrev pub entry : List TrieChar → ℕ → ℕ → Entry
entry p x i = record { path = p; node = x; block = i }

-- The separate cells below a node that `p` leads to, in order.
abbrev pub entries : List TrieChar → Forest → List Entry
entries p end = []
entries p (leaf c x i rest) = entry (p ++ (c ∷ [])) x i ∷ entries p rest
entries p (branch c x b' sub rest) = entries (p ++ (c ∷ [])) sub ++ entries p rest

-- A node on the way to a cell: its base, the label of the arc that is taken, and the other arcs,
-- with higher labels.
pub record Frame : Type 0 where
  pub parent : ℕ
  pub base : ℕ
  pub label : TrieChar
  pub rest : Forest

abbrev pub frame : ℕ → ℕ → TrieChar → Forest → Frame
frame s b c rest = record { parent = s; base = b; label = c; rest = rest }

-- The frames lead from the root to cell `x`, the innermost first.
abbrev pub Leads : List DaCell → ℕ → ℕ → List Frame → Type 0
Leads cells root x [] = x ≡ root
Leads cells root x (f ∷ fs) =
    (check_at cells x ≡ some (pos f.parent))
    × (base_at cells f.parent ≡ some (pos f.base))
    × (x ≡ f.base + f.label)
    × (f.label ≤ 255)
    × Arcs cells f.parent f.base (suc f.label) f.rest
    × Leads cells root f.parent fs

-- The root is no child of a node with children: its `check` is the header, which has no base.
pub record IsRoot (cells : List DaCell) (root : ℕ) : Type 0 where
  pub header : ℕ
  pub top : check_at cells root ≡ some (pos 0)
  pub no_base : base_at cells 0 ≡ some (negsuc header)

-- A separate cell, with the way to it.
pub record Place : Type 0 where
  pub found : Entry
  pub frames : List Frame

-- The way to it leads there.
pub record IsPlace (cells : List DaCell) (root : ℕ) (p : Place) : Type 0 where
  pub leads : Leads cells root p.found.node p.frames
  pub separate : base_at cells p.found.node ≡ some (negsuc p.found.block)

-- The separate cells that come after the one to which `p` and the frames lead.
abbrev pub remaining : List TrieChar → List Frame → List Entry
remaining p [] = []
remaining p (f ∷ fs) = entries (pop p) f.rest ++ remaining (pop p) fs
