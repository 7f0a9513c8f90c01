-- ===== src/DArray/Graft.antt =====
-- The tree of a double array with one more arc, that leads to a separate cell.
use libdatrie_rs.Common.{
  ℕ, ◌+◌, ◌≤◌, ◌<◌, ◌≡◌, ◌≢◌, ◌⊎◌, inl, inr, Bool, true, false, ◌&&◌, not, some, List, ltb, ◌==◌,
  if◌then◌else◌, Bool-cases, get_elem?,
}
use libdatrie_rs.Common.Int.{pos, negsuc}
use libdatrie_rs.Types.{TrieChar}
use libdatrie_rs.DArray.Cells.{DaCell}
use libdatrie_rs.DArray.Fields.{base_at, check_at}
use libdatrie_rs.DArray.Children.{arc_at}
use libdatrie_rs.DArray.Forest.{Forest, end, leaf, branch, IsInner}

-- The new arc: the node it leaves, the base of that node, its label, and the new tail block, less 1.
pub record Arc : Type 0 where
  pub node : ℕ
  pub base : ℕ
  pub label : TrieChar
  pub block : ℕ

abbrev pub target : Arc → ℕ
target a = a.base + a.label

-- The arc is put in its place below every occurrence of its node; `here` says that the arcs are
-- those of the node, and that the place is still to come.
abbrev pub graft : Arc → Bool → Forest → Forest
graft a here end = if here then leaf a.label (target a) a.block end else end
graft a here (leaf c x i rest) =
    let over = here && ltb a.label c in
    let kept = leaf c x i (graft a (here && not over) rest) in
    if over then leaf a.label (target a) a.block kept else kept
graft a here (branch c x b' sub rest) =
    let over = here && ltb a.label c in
    let kept = branch c x b' (graft a (x == a.node) sub) (graft a (here && not over) rest) in
    if over then leaf a.label (target a) a.block kept else kept

pub graft-IsInner : (a : Arc) (here : Bool) (f : Forest) → IsInner f → IsInner (graft a here f)
graft-IsInner a true end h = tt
graft-IsInner a false end h = h
graft-IsInner a here (leaf c x i rest) h = elim (Bool-cases (here && ltb a.label c)) [
  | inl over ↦ rw over tt
  | inr not_over ↦ rw not_over tt
]
graft-IsInner a here (branch c x b' sub rest) h = elim (Bool-cases (here && ltb a.label c)) [
  | inl over ↦ rw over tt
  | inr not_over ↦ rw not_over tt
]

-- Where the search for the place stands, at the arcs of node `s` with labels of at least `from`.
pub record IsHere (a : Arc) (here : Bool) (s from : ℕ) : Type 0 where
  pub coming : here ≡ true → (s ≡ a.node) × (from ≤ a.label)
  pub passed : here ≡ false → s ≡ a.node → a.label < from

-- In `cells'` the arc has been made, and nothing else has changed in the cells of the tree.
pub record Grafted (a : Arc) (cells cells' : List DaCell) : Type 0 where
  pub base : base_at cells a.node ≡ some (pos a.base)
  pub low : a.label ≤ 255
  pub fresh : arc_at cells a.node a.base a.label ≡ false
  pub arc : check_at cells' (target a) ≡ some (pos a.node)
  pub leaf_ : base_at cells' (target a) ≡ some (negsuc a.block)
  pub kept : (x s : ℕ) → check_at cells x ≡ some (pos s) → get_elem? cells' x ≡ get_elem? cells x
  pub no_other :
      (s b : ℕ) (d : TrieChar)
      → arc_at cells s b d ≡ false
      → (s ≢ a.node) ⊎ (b + d ≢ target a)
      → arc_at cells' s b d ≡ false
