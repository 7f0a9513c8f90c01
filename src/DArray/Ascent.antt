-- ===== src/DArray/Ascent.antt =====
-- About `next_separate`: the way up, and down to the next separate cell.
use libdatrie_rs.Common.{
  ℕ, zero, suc, ◌+◌, ◌-◌, ◌^◌, ◌≤◌, ◌<◌, ◌≡◌, refl, sym, ap, ◌∙◌, some, List, [], ◌∷◌, ◌++◌, arith,
  length, none,
}
use libdatrie_rs.Common.Int.{pos, as_u8, ◌+ℤ◌, ◌-ℤ◌, +ℤ_pos, +ℤ_one, -ℤ_pos, eqb_ℤ_refl, eqb_ℤ_ne}
use libdatrie_rs.Common.Run.{Run, ok}
use libdatrie_rs.Types.{TrieChar}
use libdatrie_rs.DArray.Cells.{DArray, get_base, get_check}
use libdatrie_rs.DArray.Walk.{Found, pop, next_loop, next_separate, first_separate, sibling}
use libdatrie_rs.DArray.Fields.{base_at, check_at}
use libdatrie_rs.DArray.Place.{check_at-lt, base_at-lt}
use libdatrie_rs.DArray.Children.{sibling-none}
use libdatrie_rs.DArray.Forest.{
  Forest, end, leaf, branch, Next, IsInner, Arcs, Entry, Frame, frame, Leads, IsRoot, Place,
  IsPlace, remaining,
}
use libdatrie_rs.DArray.Leads.{not_root, Leads-short}
use libdatrie_rs.DArray.Descent.{
  first_label, first_cell, as_u8-low, Arcs-first, sibling-Next, Descent, descent,
}

pos-inj : {a b : ℕ} → pos a ≡ pos b → a ≡ b
pos-inj e = cc

module _ (self : DArray) (root : ℕ) (small : length self.cells < 2 ^ 31)
    (top : IsRoot self.cells root) where
  -- What the walk comes to, where `left` are the separate cells that are left.
  pub data Outcome (left : List Entry) (r : Run Found) : Type 0 where
    finished : (keybuff : List TrieChar) → left ≡ [] → r ≡ ok (none, keybuff) → Outcome left r
    moved :
        (place : Place)
        → IsPlace self.cells root place
        → left ≡ place.found ∷ remaining place.found.path place.frames
        → r ≡ ok (some (pos place.found.node), place.found.path)
        → Outcome left r

  pub first_separate-Descent :
      (s b : ℕ) (p : List TrieChar) (f : Forest) (fs : List Frame)
      → (d : Descent self root small s b p f fs)
      → first_separate self (pos (first_cell f)) (p ++ (first_label f ∷ []))
        ≡ ok (some (pos d.place.found.node), d.place.found.path)
  unfolding first_separate
  first_separate-Descent s b p f fs d = d.run (suc (length self.cells)) (
      omega (
        arith,
        Leads-short self.cells root top d.place.found.node d.place.frames
            (base_at-lt self.cells d.place.found.node _ d.is_place.separate) d.is_place.leads,
      ))

  next_loop-root :
      (fuel : ℕ) (p : List TrieChar)
      → next_loop (suc fuel) self (pos root) (pos root) p ≡ ok (none, p)
  unfolding next_loop
  next_loop-root fuel p = rw (next_loop, eqb_ℤ_refl (pos root))

  -- The label from which the loop looks for a sibling.
  after_label :
      (b c : ℕ) → b + c < 2 ^ 31 - 1 → c ≤ 255 → (pos (b + c) -ℤ pos b) +ℤ pos 1 ≡ pos (suc c)
  after_label b c h low =
      let diff : pos (b + c) -ℤ pos b ≡ pos c =
        -ℤ_pos (b + c) b (omega arith) (omega arith) ∙ ap pos (omega arith) in
      rw (diff, +ℤ_one c (omega arith))

  module _ (s b : ℕ) (c : TrieChar) (x : ℕ) (fs : List Frame)
      (check : check_at self.cells x ≡ some (pos s)) (base : base_at self.cells s ≡ some (pos b))
      (at : x ≡ b + c) (low : c ≤ 255) (way : Leads self.cells root s fs) where
    next_loop-none :
        (fuel : ℕ) (p : List TrieChar)
        → sibling self (pos s) (pos b) (pos (suc c)) ≡ none
        → next_loop (suc fuel) self (pos root) (pos x) p
          ≡ next_loop fuel self (pos root) (pos s) (pop p)
    unfolding next_loop get_check get_base
    next_loop-none fuel p e =
        let there = check_at-lt self.cells x (pos s) check in
        let label : (pos x -ℤ pos b) +ℤ pos 1 ≡ pos (suc c) =
          rw at (after_label b c (omega (arith, there, at)) low) in
        let away = not_root self.cells root top x s b check base in
        let found : sibling self (pos s) (pos b) ((pos x -ℤ pos b) +ℤ pos 1) ≡ none = rw label e in
        let other = eqb_ℤ_ne (pos x) (pos root) (λ e. away (pos-inj e)) in cc

    next_loop-some :
        (fuel : ℕ) (p : List TrieChar) (c' : TrieChar) (x' : ℕ)
        → Next self.cells s b (suc c) c' x'
        → next_loop (suc fuel) self (pos root) (pos x) p
          ≡ first_separate self (pos x') (pop p ++ (c' ∷ []))
    unfolding next_loop get_check get_base
    next_loop-some fuel p c' x' n =
        let there = check_at-lt self.cells x (pos s) check in
        let there' = check_at-lt self.cells x' (pos s) n.arc in
        let label : (pos x -ℤ pos b) +ℤ pos 1 ≡ pos (suc c) =
          rw at (after_label b c (omega (arith, there, at)) low) in
        let away = not_root self.cells root top x s b check base in
        let inside : b + c' < 2 ^ 31 = omega (arith, there', n.at) in
        let found : sibling self (pos s) (pos b) ((pos x -ℤ pos b) +ℤ pos 1) ≡ some (pos c') =
          rw label (sibling-Next self root small s b (suc c) c' x' n) in
        let other = eqb_ℤ_ne (pos x) (pos root) (λ e. away (pos-inj e)) in
        let next : pos b +ℤ pos c' ≡ pos x' = +ℤ_pos b c' inside ∙ ap pos (sym n.at) in
        let key : as_u8 (pos c') ≡ c' = as_u8-low c' n.low in cc

    onward :
        (fuel : ℕ) (p : List TrieChar) (rest : Forest)
        → IsInner rest
        → Arcs self.cells s b (suc c) rest
        → Outcome
            (remaining p (frame s b c rest ∷ fs))
            (next_loop (suc fuel) self (pos root) (pos x) p)
    onward fuel p rest inner h =
        let d = descent self root small s b (suc c) (pop p) rest fs inner base h way in
        let n = Arcs-first self root small s b (suc c) rest inner h in
        moved d.place d.is_place d.listing (
          next_loop-some fuel p (first_label rest) (first_cell rest) n
          ∙ first_separate-Descent s b (pop p) rest fs d)

    -- One round of the loop, where `rest` are the arcs after the one to `x`.
    step :
        (fuel : ℕ) (p : List TrieChar) (rest : Forest)
        → Arcs self.cells s b (suc c) rest
        → Outcome (remaining (pop p) fs) (next_loop fuel self (pos root) (pos s) (pop p))
        → Outcome
            (remaining p (frame s b c rest ∷ fs))
            (next_loop (suc fuel) self (pos root) (pos x) p)
    step fuel p end h up =
        let there = check_at-lt self.cells x (pos s) check in
        rw
          (next_loop-none fuel p (sibling-none self s b (suc c) small (omega (arith, there, at)) h))
          up
    step fuel p (leaf c' x' i rest) h up = onward fuel p (leaf c' x' i rest) tt h
    step fuel p (branch c' x' b' sub rest) h up = onward fuel p (branch c' x' b' sub rest) tt h

  ascent :
      (fuel x : ℕ) (p : List TrieChar) (fs : List Frame)
      → length fs < fuel
      → Leads self.cells root x fs
      → Outcome (remaining p fs) (next_loop fuel self (pos root) (pos x) p)
  ascent zero x p fs enough way = absurd (omega arith)
  ascent (suc fuel) x p [] enough way = finished p refl (rw way (next_loop-root fuel p))
  ascent (suc fuel) x p (f ∷ fs) enough way =
      step f.parent f.base f.label x fs way.0 way.1 way.2 way.3 way.5 fuel p f.rest way.4
        (ascent fuel f.parent (pop p) fs (omega arith) way.5)

  -- At a separate cell of the tree that a double array holds, DArray::next_separate finds the next
  -- separate cell in the order of the labels, with the labels that lead there, or ends where none
  -- is left; the loops end within their fuel.
  pub next_separate_lem :
      (place : Place)
      → IsPlace self.cells root place
      → Outcome
          (remaining place.found.path place.frames)
          (next_separate self (pos root) (pos place.found.node) place.found.path)
  unfolding next_separate
  next_separate_lem place h =
      ascent (suc (length self.cells)) place.found.node place.found.path place.frames
        (omega (
          arith,
          Leads-short self.cells root top place.found.node place.frames
              (base_at-lt self.cells place.found.node _ h.separate) h.leads,
        ))
        h.leads
