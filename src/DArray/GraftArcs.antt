-- ===== src/DArray/GraftArcs.antt =====
-- About a double array in which one more arc is made: it holds the grafted tree.
use libdatrie_rs.Common.{
  ℕ, suc, ◌+◌, ◌≤◌, ◌<◌, ◌≡◌, refl, sym, ap, ◌∙◌, ◌≢◌, inl, inr, Bool, true, false, ◌&&◌, not, some,
  List, arith, ltb, ◌==◌, ==_iff, Bool-cases,
}
use libdatrie_rs.Common.Int.{pos, eqb_ℤ_refl}
use libdatrie_rs.Types.{TrieChar}
use libdatrie_rs.DArray.Cells.{DaCell, base_of, check_of, is_some_of}
use libdatrie_rs.DArray.Fields.{base_at, check_at}
use libdatrie_rs.DArray.Children.{arc_at}
use libdatrie_rs.DArray.Forest.{Forest, end, leaf, branch, Next, Arcs}
use libdatrie_rs.DArray.Graft.{Arc, target, graft, graft-IsInner, IsHere, Grafted}

module _ (a : Arc) (cells cells' : List DaCell) (g : Grafted a cells cells') where
  same_base : (s b : ℕ) → base_at cells s ≡ some (pos b) → s ≡ a.node → b ≡ a.base
  same_base s b base e =
      let there : base_at cells s ≡ some (pos a.base) = ap (base_at cells) e ∙ g.base in cc

  -- There is still no arc but the new one.
  gap' :
      (s b : ℕ) (d : TrieChar)
      → base_at cells s ≡ some (pos b)
      → arc_at cells s b d ≡ false
      → (s ≡ a.node → d ≢ a.label)
      → arc_at cells' s b d ≡ false
  gap' s b d base none_ other = elim (Bool-cases (s == a.node)) [
    | inl same ↦
        (let here : s ≡ a.node = (==_iff s a.node).0 same in
          let b' = same_base s b base here in
          g.no_other s b d none_ (inr (λ e. other here (omega (arith, e, b')))))
    | inr apart ↦ g.no_other s b d none_ (inl (λ e. ground arith))
  ]

  kept-base : (x s : ℕ) → check_at cells x ≡ some (pos s) → base_at cells' x ≡ base_at cells x
  kept-base x s e = ap base_of (g.kept x s e)

  Next-kept :
      (s b from : ℕ) (to : ℕ) (c : TrieChar) (x : ℕ)
      → base_at cells s ≡ some (pos b)
      → from ≤ to
      → to ≤ c
      → (s ≡ a.node → (d : ℕ) → to ≤ d → d < c → d ≢ a.label)
      → Next cells s b from c x
      → Next cells' s b to c x
  Next-kept s b from to c x base le le' other n = record {
    at = n.at;
    above = le';
    low = n.low;
    arc = ap check_of (g.kept x s n.arc) ∙ n.arc;
    gap = λ d h k. gap' s b d base (n.gap d (omega arith) k) (λ e. other e d h k);
  }

  -- The new arc comes before the others.
  Arcs-new :
      (s b from : ℕ) (f : Forest)
      → base_at cells s ≡ some (pos b)
      → s ≡ a.node
      → from ≤ a.label
      → ((d : ℕ) → from ≤ d → d < a.label → arc_at cells s b d ≡ false)
      → Arcs cells' s b (suc a.label) f
      → Arcs cells' s b from (leaf a.label (target a) a.block f)
  Arcs-new s b from f base is_node le gap arcs = (
    record {
      at = ap (λ k. k + a.label) (sym (same_base s b base is_node));
      above = le;
      low = g.low;
      arc = g.arc ∙ ap (λ k. some (pos k)) (sym is_node);
      gap = λ d h k. gap' s b d base (gap d h k) (λ e same. omega (arith, same));
    },
    g.leaf_,
    arcs,
  )

  graft-end :
      (s b from : ℕ) (here : Bool)
      → base_at cells s ≡ some (pos b)
      → IsHere a here s from
      → Arcs cells s b from end
      → Arcs cells' s b from (graft a here end)
  graft-end s b from true base h arcs =
      let (is_node, le) = h.coming refl in
      Arcs-new s b from end base is_node le (λ d k l. arcs d k (omega (arith, l, g.low)))
        (λ d k l. gap' s b d base (arcs d (omega (arith, le)) l) (λ e same. omega (arith, same)))
  graft-end s b from false base h arcs =
      λ d k l. gap' s b d base (arcs d k l) (λ e same. omega (arith, same, h.passed refl e))

  -- No other arc of the node has the new label.
  taken :
      (s b from : ℕ) (c : TrieChar) (x : ℕ)
      → base_at cells s ≡ some (pos b)
      → s ≡ a.node
      → Next cells s b from c x
      → c ≢ a.label
  taken s b from c x base is_node n e =
      let at : x ≡ target a = omega (arith, n.at, e, same_base s b base is_node) in
      let check : check_at cells (target a) ≡ some (pos a.node) =
        ap (check_at cells) (sym at) ∙ n.arc ∙ ap (λ k. some (pos k)) is_node in
      let there : arc_at cells a.node a.base a.label ≡ true =
        ap (λ o. is_some_of o (pos a.node)) check ∙ eqb_ℤ_refl (pos a.node) in
      let clash = sym there ∙ g.fresh in cc

  -- Behind an arc whose label is lower than that of the new one, or where that one is passed.
  step-under :
      (here : Bool) (s b from : ℕ) (c : TrieChar) (x : ℕ)
      → base_at cells s ≡ some (pos b)
      → IsHere a here s from
      → (here && ltb a.label c) ≡ false
      → Next cells s b from c x
      → Next cells' s b from c x × IsHere a (here && not (here && ltb a.label c)) s (suc c)
  step-under true s b from c x base h under n =
      let (is_node, le) = h.coming refl in
      let ne : c ≢ a.label = taken s b from c x base is_node n in
      (
        Next-kept s b from from c x base (omega arith) n.above (λ e d k l same. ground arith) n,
        record { coming = λ e. (is_node, ground arith); passed = λ e. absurd (ground arith) },
      )
  step-under false s b from c x base h under n = (
    Next-kept s b from from c x base (omega arith) n.above
        (λ e d k l same. omega (arith, same, h.passed refl e)) n,
    record {
      coming = λ e. absurd (ground arith);
      passed = λ e is_node. omega (arith, h.passed refl is_node, n.above);
    },
  )

  step-over :
      (here : Bool) (s b from : ℕ) (c : TrieChar) (x : ℕ) (f : Forest)
      → base_at cells s ≡ some (pos b)
      → IsHere a here s from
      → (here && ltb a.label c) ≡ true
      → Next cells s b from c x
      → (Next cells' s b (suc a.label) c x → Arcs cells' s b (suc a.label) f)
      → Arcs cells' s b from (leaf a.label (target a) a.block f)
  step-over false s b from c x f base h over n rest = absurd (ground arith)
  step-over true s b from c x f base h over n rest =
      let (is_node, le) = h.coming refl in
      Arcs-new s b from f base is_node le (λ d k l. n.gap d k (ground arith))
        (rest (
          Next-kept s b from (suc a.label) c x base (omega (arith, le)) (ground arith)
            (λ e d k l same. omega (arith, same)) n))

  away :
      (here : Bool) (c s : ℕ)
      → (here && ltb a.label c) ≡ true
      → IsHere a (here && not true) s (suc c)
  away true c s over = record {
    coming = λ e. absurd (ground arith);
    passed = λ e is_node. ground arith;
  }
  away false c s over = absurd (ground arith)

  -- The children of the node with the new arc, and no others, are searched for its place.
  pub below-IsHere : (x : ℕ) → IsHere a (x == a.node) x 0
  below-IsHere x = record {
    coming = λ e. ((==_iff x a.node).0 e, omega arith);
    passed = λ e is_node. absurd (ground arith);
  }

  -- Where a double array holds a tree, and the new arc is made, it holds the grafted tree.
  pub Arcs-graft :
      (s b from : ℕ) (here : Bool) (f : Forest)
      → base_at cells s ≡ some (pos b)
      → IsHere a here s from
      → Arcs cells s b from f
      → Arcs cells' s b from (graft a here f)
  Arcs-graft s b from here end base h arcs = graft-end s b from here base h arcs
  Arcs-graft s b from here (leaf c x i rest) base h arcs =
      let leaf' = kept-base x s arcs.0.arc ∙ arcs.1 in
      elim (Bool-cases (here && ltb a.label c)) [
        | inl over ↦ rw over (
            step-over here s b from c x (leaf c x i (graft a (here && false) rest)) base h over
              arcs.0
              (λ n. (
                n,
                leaf',
                Arcs-graft s b (suc c) (here && false) rest base (away here c s over) arcs.2,
              )))
        | inr under ↦
            (let (n, h') = step-under here s b from c x base h under arcs.0 in
              let rest' =
                Arcs-graft s b (suc c) (here && not (here && ltb a.label c)) rest base h' arcs.2 in
              rw under (n, leaf', (rw under at rest')))
      ]
  Arcs-graft s b from here (branch c x b' sub rest) base h arcs =
      let inner = kept-base x s arcs.0.arc ∙ arcs.1 in
      let sub' = Arcs-graft x b' 0 (x == a.node) sub arcs.1 (below-IsHere x) arcs.3 in
      let more = graft-IsInner a (x == a.node) sub arcs.2 in
      elim (Bool-cases (here && ltb a.label c)) [
        | inl over ↦ rw over (
            step-over here s b from c x
              (branch c x b' (graft a (x == a.node) sub) (graft a (here && false) rest)) base h over
              arcs.0
              (λ n. (
                n,
                inner,
                more,
                sub',
                Arcs-graft s b (suc c) (here && false) rest base (away here c s over) arcs.4,
                arcs.5,
              )))
        | inr under ↦
            (let (n, h') = step-under here s b from c x base h under arcs.0 in
              let rest' =
                Arcs-graft s b (suc c) (here && not (here && ltb a.label c)) rest base h' arcs.4 in
              rw under (n, inner, more, sub', (rw under at rest'), arcs.5))
      ]
