-- ===== src/DArray/Leads.antt =====
-- About the way from the root to a cell: it is shorter than the number of cells.
use libdatrie_rs.Common.{
  ℕ, suc, ◌<◌, ◌≡◌, refl, sym, ap, ◌∙◌, ◌≢◌, false, some, List, [], ◌∷◌, arith, length, All, has,
  Distinct, Distinct-short,
}
use libdatrie_rs.Common.Int.{pos}
use libdatrie_rs.DArray.Cells.{DaCell}
use libdatrie_rs.DArray.Fields.{base_at, check_at}
use libdatrie_rs.DArray.Place.{base_at-lt}
use libdatrie_rs.DArray.Forest.{Frame, Leads, IsRoot}

abbrev parents : List Frame → List ℕ
parents [] = []
parents (f ∷ fs) = f.parent ∷ parents fs

pos-inj : {a b : ℕ} → some (pos a) ≡ some (pos b) → a ≡ b
pos-inj e = cc

module _ (cells : List DaCell) (root : ℕ) (top : IsRoot cells root) where
  -- The root is no child of a node that has a base.
  pub not_root :
      (x s b : ℕ) → check_at cells x ≡ some (pos s) → base_at cells s ≡ some (pos b) → x ≢ root
  not_root x s b check base e =
      let zero_s : s ≡ 0 = pos-inj (sym check ∙ ap (check_at cells) e ∙ top.top) in
      let base' : base_at cells 0 ≡ some (pos b) = rw zero_s at base in
      let clash = sym base' ∙ top.no_base in cc

  -- A child of `p` is not on the way to it.
  apart :
      (x p b q : ℕ) (fs : List Frame)
      → check_at cells x ≡ some (pos p)
      → base_at cells p ≡ some (pos b)
      → Leads cells root q fs
      → has p (parents fs) ≡ false
      → has x (q ∷ parents fs) ≡ false
  apart x p b q [] check base way out =
      let away = not_root x p b check base in
      let away' : x ≢ q = λ e. away (e ∙ way) in ground arith
  apart x p b q (f ∷ fs) check base way out =
      let rest = apart x p b f.parent fs check base way.5 (ground arith) in
      let away : x ≢ q = λ e.
        let up : p ≡ f.parent = pos-inj (sym check ∙ ap (check_at cells) e ∙ way.0) in
        ground arith in
      ground arith

  Leads-Distinct : (x : ℕ) (fs : List Frame) → Leads cells root x fs → Distinct (x ∷ parents fs)
  Leads-Distinct x [] way = (refl, tt)
  Leads-Distinct x (f ∷ fs) way =
      let up = Leads-Distinct f.parent fs way.5 in
      (apart x f.parent f.base f.parent fs way.0 way.1 way.5 up.0, up)

  parents-lt :
      (x : ℕ) (fs : List Frame) → Leads cells root x fs → All (λ k. k < length cells) (parents fs)
  parents-lt x [] way = tt
  parents-lt x (f ∷ fs) way =
      (base_at-lt cells f.parent (pos f.base) way.1, parents-lt f.parent fs way.5)

  length-parents : (fs : List Frame) → length (parents fs) ≡ length fs
  length-parents [] = refl
  length-parents (f ∷ fs) = ap suc (length-parents fs)

  -- The way to a cell has fewer frames than there are cells.
  pub Leads-short :
      (x : ℕ) (fs : List Frame)
      → x < length cells
      → Leads cells root x fs
      → length fs < length cells
  Leads-short x fs inside way = omega (
    arith,
    Distinct-short (length cells) (x ∷ parents fs) (inside, parents-lt x fs way)
        (Leads-Distinct x fs way),
    length-parents fs,
  )
