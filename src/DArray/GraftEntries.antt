-- ===== src/DArray/GraftEntries.antt =====
-- About the separate cells of a grafted tree: the old ones, and the new one.
use libdatrie_rs.Common.{
  ℕ, suc, ◌≡◌, refl, ap, Bool, true, false, ◌&&◌, not, inl, inr, some, List, [], ◌∷◌, ◌++◌, ltb,
  ◌==◌, ==_iff, Bool-cases,
}
use libdatrie_rs.Common.Int.{pos}
use libdatrie_rs.Types.{TrieChar}
use libdatrie_rs.DArray.Cells.{DaCell}
use libdatrie_rs.DArray.Fields.{base_at}
use libdatrie_rs.DArray.Forest.{Forest, end, leaf, branch, Arcs, Entry, entry, entries, IsRoot}
use libdatrie_rs.DArray.Graft.{Arc, target, graft}
use libdatrie_rs.DArray.Paths.{path_of, Way, Way-unique}

-- The second list is the first one, with the new entry here and there.
pub data Sown (e : Entry) : List Entry → List Entry → Type 0 where
  done : Sown e [] []
  keep : (x : Entry) {es es' : List Entry} → Sown e es es' → Sown e (x ∷ es) (x ∷ es')
  sow : (x : Entry) {es es' : List Entry} → x ≡ e → Sown e es es' → Sown e es (x ∷ es')

pub Sown-append :
    {e : Entry} {es es' fs fs' : List Entry}
    → Sown e es es'
    → Sown e fs fs'
    → Sown e (es ++ fs) (es' ++ fs')
Sown-append done t = t
Sown-append (keep x s) t = keep x (Sown-append s t)
Sown-append (sow x same s) t = sow x same (Sown-append s t)

module _ (a : Arc) (cells : List DaCell) (root : ℕ) (top : IsRoot cells root) (r : List TrieChar)
    (path : Way cells root a.node r) where
  abbrev pub new_entry : Entry
  new_entry = entry (path_of (a.label ∷ r)) (target a) a.block

  same_entry :
      (s : ℕ) (q : List TrieChar)
      → s ≡ a.node
      → Way cells root s q
      → entry (path_of (a.label ∷ q)) (target a) a.block ≡ new_entry
  same_entry s q is_node p =
      ap (λ k. entry (path_of (a.label ∷ k)) (target a) a.block)
        (Way-unique cells root top s a.node q r is_node p path)

  both : (here r : Bool) → (here && r) ≡ true → here ≡ true
  both true r e = refl
  both false r e = e

  pub Sown-graft :
      (s b from : ℕ) (here : Bool) (q : List TrieChar) (f : Forest)
      → base_at cells s ≡ some (pos b)
      → Way cells root s q
      → (here ≡ true → s ≡ a.node)
      → Arcs cells s b from f
      → Sown new_entry (entries (path_of q) f) (entries (path_of q) (graft a here f))
  Sown-graft s b from true q end base p h arcs = sow _ (same_entry s q (h refl) p) done
  Sown-graft s b from false q end base p h arcs = done
  Sown-graft s b from here q (leaf c x i rest) base p h arcs =
      let rest' =
        Sown-graft s b (suc c) (here && not (here && ltb a.label c)) q rest base p
          (λ e. h (both here _ e)) arcs.2 in
      elim (Bool-cases (here && ltb a.label c)) [
        | inl over ↦
            rw over (sow _ (same_entry s q (h (both here _ over)) p) (keep _ (rw over at rest')))
        | inr under ↦ rw under (keep _ (rw under at rest'))
      ]
  Sown-graft s b from here q (branch c x b' sub rest) base p h arcs =
      let n = arcs.0 in
      let down : Way cells root x (c ∷ q) =
        (record { parent = s; base = b; check = n.arc; has_base = base; at = n.at }, p) in
      let sub' =
        Sown-graft x b' 0 (x == a.node) (c ∷ q) sub arcs.1 down (λ e. (==_iff x a.node).0 e)
          arcs.3 in
      let rest' =
        Sown-graft s b (suc c) (here && not (here && ltb a.label c)) q rest base p
          (λ e. h (both here _ e)) arcs.4 in
      elim (Bool-cases (here && ltb a.label c)) [
        | inl over ↦
            rw over (
              sow _ (same_entry s q (h (both here _ over)) p) (Sown-append sub' (rw over at rest')))
        | inr under ↦ rw under (Sown-append sub' (rw under at rest'))
      ]
