-- ===== src/DArray/Children.antt =====
-- About the search for a child: `find_child`, as `first_separate` and `next_separate` call it.
use libdatrie_rs.Common.{
  ℕ, zero, suc, ◌+◌, ◌-◌, ◌^◌, ◌≤◌, ◌<◌, ◌≡◌, refl, Bool, true, false, none, some, List, arith, leb,
  ◌==◌, ==_iff, if◌then◌else◌, length, get_elem?-none, Bool-cases, inl, inr,
}
use libdatrie_rs.Common.Int.{pos, ◌+ℤ◌, +ℤ_pos, +ℤ_one, -ℤ_pos, as_i32-small}
use libdatrie_rs.Types.{TrieChar}
use libdatrie_rs.DArray.Cells.{DaCell, DArray, get_check, is_some_of}
use libdatrie_rs.DArray.Pool.{find_child, max_char, rounds_to}
use libdatrie_rs.DArray.Walk.{sibling}
use libdatrie_rs.DArray.Fields.{check_at}

-- The cell for the label `d` under node `s`, whose base is `b`, is a child of it.
abbrev pub arc_at : List DaCell → ℕ → ℕ → TrieChar → Bool
arc_at cells s b d = is_some_of (check_at cells (b + d)) (pos s)

module _ (self : DArray) (s b : ℕ) where
  test-arc :
      (c : ℕ)
      → b + c < 2 ^ 31
      → is_some_of (get_check self (pos b +ℤ pos c)) (pos s) ≡ arc_at self.cells s b c
  unfolding get_check
  test-arc c h = rw (+ℤ_pos b c h)

  find-first :
      (n from c : ℕ)
      → from ≤ c
      → c < from + n
      → b + (from + n) ≤ 2 ^ 31
      → from + n ≤ 256
      → ((d : ℕ) → from ≤ d → d < c → arc_at self.cells s b d ≡ false)
      → arc_at self.cells s b c ≡ true
      → find_child self (pos s) (pos b) n (pos from) ≡ some (pos c)
  unfolding find_child
  find-first zero from c le lt small few gap arc = absurd (omega arith)
  find-first (suc n) from c le lt small few gap arc = elim (Bool-cases (from == c)) [
    | inl same ↦
        (let here : from ≡ c = (==_iff from c).0 same in
          rw (find_child, test-arc from (omega arith), here, arc) refl)
    | inr other ↦
        rw
          (
            find_child,
            test-arc from (omega arith),
            gap from (omega arith) (ground arith),
            +ℤ_one from (omega arith),
          )
          (find-first n (suc from) c (ground arith) (omega arith) (omega arith) (omega arith)
            (λ d h k. gap d (omega arith) k) arc)
  ]

  find-none :
      (n from : ℕ)
      → ((d : ℕ)
          → from ≤ d
          → d < from + n
          → (b + d < 2 ^ 31) × (d ≤ 255) × (arc_at self.cells s b d ≡ false))
      → find_child self (pos s) (pos b) n (pos from) ≡ none
  unfolding find_child
  find-none zero from gap = refl
  find-none (suc n) from gap =
      let (near, low, no_arc) = gap from (omega arith) (omega arith) in
      rw (find_child, test-arc from near, no_arc, +ℤ_one from (omega arith))
        (find-none n (suc from) (λ d h k. gap d (omega arith) (omega arith)))

  -- The largest label that is tried.
  abbrev last_char : ℕ
  last_char = if leb 255 (length self.cells - b) then 255 else length self.cells - b

  rounds_from :
      (from : ℕ)
      → length self.cells < 2 ^ 31
      → b ≤ length self.cells
      → rounds_to (pos from) (max_char self (pos b)) ≡ suc last_char - from
  rounds_from from small le =
      rw (as_i32-small (length self.cells) small, -ℤ_pos (length self.cells) b le small)
        (ground arith)

  beyond : (d : ℕ) → length self.cells ≤ b + d → arc_at self.cells s b d ≡ false
  beyond d h = rw (get_elem?-none self.cells (b + d) h)

  -- The next child, from the label `from` on.
  pub sibling-some :
      (from c : ℕ)
      → length self.cells < 2 ^ 31
      → from ≤ c
      → c ≤ 255
      → ((d : ℕ) → from ≤ d → d < c → arc_at self.cells s b d ≡ false)
      → arc_at self.cells s b c ≡ true
      → b + c < length self.cells
      → sibling self (pos s) (pos b) (pos from) ≡ some (pos c)
  unfolding sibling
  sibling-some from c small le low gap arc inside = rw (rounds_from from small (omega arith)) (
      find-first (suc last_char - from) from c le (ground arith) (ground arith) (ground arith) gap
        arc)

  -- There is no child from the label `from` on.
  pub sibling-none :
      (from : ℕ)
      → length self.cells < 2 ^ 31
      → b ≤ length self.cells
      → ((d : ℕ) → from ≤ d → d ≤ 255 → arc_at self.cells s b d ≡ false)
      → sibling self (pos s) (pos b) (pos from) ≡ none
  unfolding sibling
  sibling-none from small le gap = rw (rounds_from from small le) (
      find-none (suc last_char - from) from
        (λ d h k. (ground arith, ground arith, gap d h (ground arith))))
