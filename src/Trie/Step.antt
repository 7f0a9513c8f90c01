-- ===== src/Trie/Step.antt =====
-- About one step of `retrieve` at a node, and what it does at a separate cell.
use libdatrie_rs.Common.{
  ℕ, suc, ◌+◌, ◌-◌, ◌^◌, ◌≤◌, ◌<◌, ◌≡◌, sym, ap, ◌∙◌, true, false, Option, none, some, List, [],
  ◌∷◌, ◌++◌, arith, length, ◌==◌, if◌then◌else◌, Bool-cases, inl, inr, get_elem?-none, ltb,
}
use libdatrie_rs.Common.Int.{pos, negsuc, as_u8, ◌+ℤ◌, +ℤ_pos}
use libdatrie_rs.Common.Run.{Run, ok, ◌>>=◌}
use libdatrie_rs.Types.{TrieIndex, TrieChar, AlphaChar}
use libdatrie_rs.AlphaMap
use libdatrie_rs.DArray
use libdatrie_rs.DArray.{DArray}
use libdatrie_rs.DArray.Fields.{base_at, check_at}
use libdatrie_rs.DArray.Arcs.{arc-walk}
use libdatrie_rs.DArray.Place.{check_at-lt}
use libdatrie_rs.DArray.Kinds.{is_separate-inner, get_tail_index-leaf}
use libdatrie_rs.DArray.Children.{arc_at}
use libdatrie_rs.DArray.Forest.{Entry}
use libdatrie_rs.Tail
use libdatrie_rs.Trie.Defs.{RoTrie, retrieve_branches, retrieve_tail}
use libdatrie_rs.Trie.Model.{IsStored, data_of, until_term}
use libdatrie_rs.Trie.Pick.{eqb_list}
use libdatrie_rs.Trie.Compare.{Label, Spells, null_label, retrieve_tail-compare}

past-end : (b l : ℕ) → b < 2 ^ 31 → l ≤ 255 → 2 ^ 31 ≤ b + l → (n : ℕ) × (pos b +ℤ pos l ≡ negsuc n)
unfolding ◌+ℤ◌
past-end b l h k over = (2 ^ 32 - 1 - (b + l), ground arith)

-- A step along an arc, or none.
pub walk-arc_at :
    (self : DArray) (s b : ℕ) (l : TrieChar)
    → base_at self.cells s ≡ some (pos b)
    → b < 2 ^ 31
    → length self.cells < 2 ^ 31
    → l ≤ 255
    → DArray.walk self (pos s) l ≡ ok (if arc_at self.cells s b l then some (pos (b + l)) else none)
unfolding DArray.walk DArray.get_base DArray.get_check
walk-arc_at self s b l base low small byte = elim (Bool-cases (ltb (b + l) (2 ^ 31))) [
  | inl inside ↦ rw (base, +ℤ_pos b l (ground arith))
  | inr over ↦
      (let (n, e) = past-end b l low byte (ground arith) in
        let far = get_elem?-none self.cells (b + l) (ground arith) in rw (base, e, far))
]

module _ {D : Type 0} (trie : RoTrie D) where
  -- `retrieve` after the walk along the branches.
  unfoldable pub after : Run (Option (TrieIndex × List AlphaChar)) → Run (Option D)
  after walked = do
    walked ← walked
    elim walked [
      | none ↦ ok none
      | some (node, rest) ↦ (do
        t ← DArray.get_tail_index trie.da node
        found ← retrieve_tail trie t (pos 0) rest
        elim found [
          | false ↦ ok none
          | true ↦ (do d ← DArray.unwrap (Tail.get_data trie.tail t); ok (some d))
        ])
    ]

  -- At a separate cell the rest of the key is compared with the suffix.
  pub after-rest :
      (e : Entry) (str : List AlphaChar) (ls : List TrieChar)
      → base_at trie.da.cells e.node ≡ some (negsuc e.block)
      → (h : IsStored trie e) → Spells trie.alpha_map str ls
      → after (ok (some (pos e.node, str ++ (0 ∷ []))))
        ≡ ok (if eqb_list (until_term h.suffix) ls then data_of trie e else none)
  unfolding after
  after-rest e str ls base h spells =
      let compared =
        retrieve_tail-compare trie (pos (suc e.block)) str ls [] h.suffix spells h.there
          h.terminated (omega (arith, h.short)) in
      let back = get_tail_index-leaf trie.da e.node e.block base h.small in
      let data_ = h.data_there in
      elim (Bool-cases (eqb_list (until_term h.suffix) ls)) [ inl hit ↦ (cc) | inr miss ↦ (cc) ]

  module _ (s b : ℕ) (base : base_at trie.da.cells s ≡ some (pos b)) (low : b < 2 ^ 31)
      (size : length trie.da.cells < 2 ^ 31) where
    -- No arc for the first character.
    pub branches-gap :
        (last c : AlphaChar) (l : TrieChar) (key : List AlphaChar)
        → AlphaMap.char_to_trie trie.alpha_map c ≡ some (pos l)
        → as_u8 (pos l) ≡ l
        → l ≤ 255
        → arc_at trie.da.cells s b l ≡ false
        → after (retrieve_branches trie (pos s) last (c ∷ key)) ≡ ok none
    unfolding retrieve_branches after
    branches-gap last c l key maps byte small gap =
        let sep = is_separate-inner trie.da s b base in
        let step : DArray.walk trie.da (pos s) l ≡ ok none =
          walk-arc_at trie.da s b l base low size small ∙ rw gap in
        let step' : DArray.walk trie.da (pos s) (as_u8 (pos l)) ≡ ok none = rw byte step in cc

    pub walk-x :
        (l : TrieChar) (x : ℕ)
        → x ≡ b + l
        → check_at trie.da.cells x ≡ some (pos s)
        → DArray.walk trie.da (pos s) l ≡ ok (some (pos x))
    walk-x l x at check =
        let inside = check_at-lt trie.da.cells x (pos s) check in
        arc-walk trie.da s b l base (rw at at check) (omega (arith, inside, at))
        ∙ ap (λ k. ok (some (pos k))) (sym at)

    pub branches-arc :
        (last c : AlphaChar) (l : TrieChar) (x : ℕ) (key : List AlphaChar)
        → Label trie.alpha_map c l
        → x ≡ b + l
        → check_at trie.da.cells x ≡ some (pos s)
        → retrieve_branches trie (pos s) last (c ∷ key) ≡ retrieve_branches trie (pos x) c key
    unfolding retrieve_branches
    branches-arc last c l x key h at check =
        let sep = is_separate-inner trie.da s b base in
        let step : DArray.walk trie.da (pos s) l ≡ ok (some (pos x)) = walk-x l x at check in
        let step' : DArray.walk trie.da (pos s) (as_u8 (pos l)) ≡ ok (some (pos x)) =
          rw h.byte step in
        let maps = h.maps in let plain : (c == 0) ≡ false = ground (arith, h.no_null) in cc

    pub branches-null :
        (last : AlphaChar) (x : ℕ) (key : List AlphaChar)
        → x ≡ b + 0
        → check_at trie.da.cells x ≡ some (pos s)
        → retrieve_branches trie (pos s) last (0 ∷ key) ≡ ok (some (pos x, 0 ∷ key))
    unfolding retrieve_branches
    branches-null last x key at check =
        let sep = is_separate-inner trie.da s b base in
        let step : DArray.walk trie.da (pos s) 0 ≡ ok (some (pos x)) = walk-x 0 x at check in
        let maps = null_label trie.alpha_map in cc
