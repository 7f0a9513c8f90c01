-- ===== src/DArray/Labels.antt =====
-- `output_symbols`: the labels of the arcs from a node.
use libdatrie_rs.Common.{
  ℕ, zero, suc, ◌+◌, ◌-◌, ◌^◌, ◌≤◌, ◌<◌, ◌≡◌, sym, ap, ◌∙◌, Bool, true, false, ◌&&◌, some, List, [],
  ◌∷◌, ◌++◌, arith, ltb, leb, ◌==◌, if◌then◌else◌, length, has, Ascending, Ascending-weaken,
  Bool-cases, inl, inr, get_elem?-none, length-append, ◌⊎◌, ==_iff, ltb→lt,
}
use libdatrie_rs.Common.Int.{◌+ℤ◌, pos, +ℤ_pos, -ℤ_pos, as_i32-small}
use libdatrie_rs.Common.Run.{ok, panic}
use libdatrie_rs.Types.{TrieIndex, TrieChar}
use libdatrie_rs.Symbols.{ArrayVec, Symbols, capacity}
use libdatrie_rs.Symbols.Defs.{add_fast}
use libdatrie_rs.DArray.Cells.{DArray, get_base, get_check, is_some_of}
use libdatrie_rs.DArray.Pool.{max_char, rounds_to, collect_symbols, output_symbols}
use mathlib.Core.List.{append-nil, append_assoc}

-- There is an arc from `s` with the label `c`.
abbrev pub is_arc : DArray → TrieIndex → TrieIndex → TrieChar → Bool
is_arc self s base c = is_some_of (get_check self (base +ℤ pos c)) s

-- The labels of `n`, from `c` on, that have an arc.
abbrev pub arcs : DArray → TrieIndex → TrieIndex → ℕ → ℕ → List TrieChar
arcs self s base zero c = []
arcs self s base (suc n) c =
    let rest = arcs self s base n (c + 1) in if is_arc self s base c then c ∷ rest else rest

module _ (self : DArray) (s base : TrieIndex) where
  arcs-Ascending : (n c : ℕ) → Ascending c (arcs self s base n c)
  arcs-Ascending zero c = tt
  arcs-Ascending (suc n) c = elim (Bool-cases (is_arc self s base c)) [
    | inl arc ↦
        rw arc
          (omega arith, Ascending-weaken (c + 1) (suc c) _ (arcs-Ascending n (c + 1)) (omega arith))
    | inr gap ↦ rw gap (Ascending-weaken (c + 1) c _ (arcs-Ascending n (c + 1)) (omega arith))
  ]

  pub length-arcs : (n c : ℕ) → length (arcs self s base n c) ≤ n
  length-arcs zero c = omega arith
  length-arcs (suc n) c = ground (arith, length-arcs n (c + 1))

  has-arcs :
      (n c d : ℕ)
      → has d (arcs self s base n c) ≡ ((leb c d && ltb d (c + n)) && is_arc self s base d)
  has-arcs zero c d = ground arith
  has-arcs (suc n) c d = elim (Bool-cases (c == d)) [
    | inl same ↦
        (let e : is_arc self s base d ≡ is_arc self s base c =
            ap (is_arc self s base) (sym ((==_iff c d).0 same)) in
          ground (arith, e, has-arcs n (c + 1) d))
    | inr other ↦ ground (arith, has-arcs n (c + 1) d)
  ]

  collect-ok :
      (v : ArrayVec) (n c : ℕ) (syms : List TrieChar)
      → length syms + length (arcs self s base n c) ≤ capacity
      → collect_symbols v self s base n c (record { symbols = syms })
        ≡ ok (record { symbols = syms ++ arcs self s base n c })
  unfolding collect_symbols add_fast
  collect-ok v zero c syms room = rw (append-nil syms)
  collect-ok v (suc n) c syms room = elim (Bool-cases (is_arc self s base c)) [
    | inl arc ↦
        (let rest = arcs self s base n (c + 1) in
          let fits : length syms + suc (length rest) ≤ capacity = rw arc at room in
          let grown =
            collect-ok v n (c + 1) (syms ++ (c ∷ []))
              (omega (arith, fits, length-append syms (c ∷ []))) in
          rw (arc, collect_symbols, v.push_room syms c (omega (arith, fits)))
            (grown ∙ ap (λ xs. ok (record { symbols = xs })) (append_assoc syms (c ∷ []) rest)))
    | inr gap ↦ rw (gap, collect_symbols) (collect-ok v n (c + 1) syms (rw gap at room))
  ]

  collect-full :
      (v : ArrayVec) (n c : ℕ) (syms : List TrieChar)
      → length syms ≤ capacity
      → capacity < length syms + length (arcs self s base n c)
      → collect_symbols v self s base n c (record { symbols = syms }) ≡ panic
  unfolding collect_symbols add_fast
  collect-full v zero c syms low full = absurd (omega arith)
  collect-full v (suc n) c syms low full = elim (Bool-cases (is_arc self s base c)) [
    | inl arc ↦ (elim (Bool-cases (ltb (length syms) capacity)) [
      | inl room ↦
          (let over : capacity < length syms + suc (length (arcs self s base n (c + 1))) =
              rw arc at full in
            rw (collect_symbols, arc, v.push_room syms c (ltb→lt _ _ room))
              (collect-full v n (c + 1) (syms ++ (c ∷ []))
                (omega (arith, ltb→lt (length syms) capacity room, length-append syms (c ∷ [])))
                (omega (arith, over, length-append syms (c ∷ [])))))
      | inr none_left ↦ rw (collect_symbols, arc, v.push_full syms c (ground arith))
    ])
    | inr gap ↦ rw (collect_symbols, gap) (collect-full v n (c + 1) syms low (rw gap at full))
  ]

-- The number of labels that the loop tries.
rounds :
    (self : DArray) (b : ℕ)
    → length self.cells < 2 ^ 31
    → b ≤ length self.cells
    → rounds_to (pos 0) (max_char self (pos b))
      ≡ suc (if leb 255 (length self.cells - b) then 255 else length self.cells - b)
rounds self b small le =
    rw (as_i32-small (length self.cells) small, -ℤ_pos (length self.cells) b le small)
      (ground arith)

-- There is no arc to beyond the last cell.
no-arc :
    (self : DArray) (s : TrieIndex) (b d : ℕ)
    → b + d < 2 ^ 31
    → length self.cells ≤ b + d
    → is_arc self s (pos b) d ≡ false
unfolding get_check
no-arc self s b d small beyond = rw (+ℤ_pos b d small, get_elem?-none self.cells (b + d) beyond)

window :
    (m d : ℕ) (x : Bool) → (ltb d m ≡ true) ⊎ (x ≡ false) → ((leb 0 d && ltb d (0 + m)) && x) ≡ x
window m d x h = ground arith

past-end :
    (l b d : ℕ)
    → b ≤ l
    → d ≤ 255
    → ltb d (suc (if leb 255 (l - b) then 255 else l - b)) ≡ false
    → l ≤ b + d
past-end l b d le h e = ground arith

module _ (v : ArrayVec) (self : DArray) (s : TrieIndex) (b : ℕ)
    (base : get_base self s ≡ some (pos b)) (small : length self.cells < 2 ^ 31)
    (le : b ≤ length self.cells) (low : b + 255 < 2 ^ 31) where
  abbrev pub tried : ℕ
  tried = suc (if leb 255 (length self.cells - b) then 255 else length self.cells - b)

  abbrev pub labels : List TrieChar
  labels = arcs self s (pos b) tried 0

  has-labels : (d : TrieChar) → d ≤ 255 → has d labels ≡ is_arc self s (pos b) d
  has-labels d h = elim (Bool-cases (ltb d tried)) [
    | inl inside ↦ has-arcs self s (pos b) tried 0 d ∙ window tried d _ (inl inside)
    | inr beyond ↦
        (let past : length self.cells ≤ b + d = past-end (length self.cells) b d le h beyond in
          has-arcs self s (pos b) tried 0 d
          ∙ window tried d _ (inr (no-arc self s b d (omega arith) past)))
  ]

  -- On a node whose base is in the pool, with fewer than 256 arcs, `output_symbols` gives, in
  -- ascending order, the labels of all its arcs and no others.
  pub output_symbols_lem :
      length labels ≤ capacity
      → (t : Symbols) × (output_symbols v self s ≡ ok t)
        × Ascending 0 t.symbols
        × ((d : TrieChar) → d ≤ 255 → has d t.symbols ≡ is_arc self s (pos b) d)
  unfolding output_symbols
  output_symbols_lem room = (
    record { symbols = labels },
    rw (base, rounds self b small le)
        (collect-ok self s (pos b) v tried 0 [] (omega (arith, room))),
    arcs-Ascending self s (pos b) tried 0,
    has-labels,
  )

  -- On a node with all 256 arcs it panics.
  pub output_symbols-full : capacity < length labels → output_symbols v self s ≡ panic
  unfolding output_symbols
  output_symbols-full full =
      rw (base, rounds self b small le)
        (collect-full self s (pos b) v tried 0 [] (omega arith) (omega (arith, full)))
