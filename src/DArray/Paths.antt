-- ===== src/DArray/Paths.antt =====
-- About the labels that lead from the root to a node: there is only one way to it.
use libdatrie_rs.Common.{ℕ, ◌+◌, ◌≡◌, refl, sym, ap, ◌∙◌, some, List, [], ◌∷◌, ◌++◌, arith}
use libdatrie_rs.Common.Int.{pos}
use libdatrie_rs.Types.{TrieChar}
use libdatrie_rs.DArray.Cells.{DaCell}
use libdatrie_rs.DArray.Fields.{base_at, check_at}
use libdatrie_rs.DArray.Forest.{IsRoot}
use libdatrie_rs.DArray.Leads.{not_root}

-- The labels in the order in which they are taken, from the last one back.
abbrev pub path_of : List TrieChar → List TrieChar
path_of [] = []
path_of (c ∷ r) = path_of r ++ (c ∷ [])

-- An arc with label `c` leads from node `s`, whose base is `b`, to cell `x`.
pub record Arrow (cells : List DaCell) (x : ℕ) (c : TrieChar) : Type 0 where
  pub parent : ℕ
  pub base : ℕ
  pub check : check_at cells x ≡ some (pos parent)
  pub has_base : base_at cells parent ≡ some (pos base)
  pub at : x ≡ base + c

-- The labels, the last one first, lead from the root to cell `x`.
abbrev pub Way : List DaCell → ℕ → ℕ → List TrieChar → Type 0
Way cells root x [] = x ≡ root
Way cells root x (c ∷ r) = (a : Arrow cells x c) × Way cells root a.parent r

module _ (cells : List DaCell) (root : ℕ) (top : IsRoot cells root) where
  same_parent : {a b : ℕ} → some (pos a) ≡ some (pos b) → a ≡ b
  same_parent e = cc

  pub Way-unique :
      (x y : ℕ) (r r' : List TrieChar) → x ≡ y → Way cells root x r → Way cells root y r' → r ≡ r'
  Way-unique x y [] [] e p q = refl
  Way-unique x y [] (d ∷ r') e p q =
      absurd (not_root cells root top y q.0.parent q.0.base q.0.check q.0.has_base (sym e ∙ p))
  Way-unique x y (c ∷ r) [] e p q =
      absurd (not_root cells root top x p.0.parent p.0.base p.0.check p.0.has_base (e ∙ q))
  Way-unique x y (c ∷ r) (d ∷ r') e p q =
      let up : p.0.parent ≡ q.0.parent =
        same_parent (sym p.0.check ∙ ap (check_at cells) e ∙ q.0.check) in
      let base : p.0.base ≡ q.0.base =
        same_parent (sym p.0.has_base ∙ ap (base_at cells) up ∙ q.0.has_base) in
      let label : c ≡ d = omega (arith, p.0.at, q.0.at, base, e) in
      let rest = Way-unique p.0.parent q.0.parent r r' up p.1 q.1 in cc
