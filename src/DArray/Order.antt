-- ===== src/DArray/Order.antt =====
-- About the order of the separate cells below a node.
use libdatrie_rs.Common.{
  ℕ, suc, ◌≤◌, ◌<◌, ◌≡◌, refl, ◌∙◌, Bool, true, false, ◌||◌, ◌&&◌, List, [], ◌∷◌, ◌++◌, arith, All,
  All-append, All-map, ltb, ◌==◌,
}
use libdatrie_rs.Types.{TrieChar}
use libdatrie_rs.DArray.Cells.{DaCell}
use libdatrie_rs.DArray.Forest.{Forest, end, leaf, branch, Arcs, Entry, entry, entries}
use mathlib.Core.List.{append_assoc}

-- The lexicographic order of labels.
abbrev pub lex_lt : List TrieChar → List TrieChar → Bool
lex_lt [] [] = false
lex_lt [] (d ∷ ds) = true
lex_lt (c ∷ cs) [] = false
lex_lt (c ∷ cs) (d ∷ ds) = ltb c d || (c == d && lex_lt cs ds)

-- Each path comes before all that follow.
abbrev pub IsOrdered : List Entry → Type 0
IsOrdered [] = Unit {0}
IsOrdered (e ∷ es) = All (λ e'. lex_lt e.path e'.path ≡ true) es × IsOrdered es

-- The path goes on from `p` with a label of at least `from`.
pub record Under (p : List TrieChar) (from : ℕ) (e : Entry) : Type 0 where
  pub label : TrieChar
  pub behind : List TrieChar
  pub is_path : e.path ≡ p ++ (label ∷ behind)
  pub above : from ≤ label

pub Under-weaken :
    (p : List TrieChar) (from from' : ℕ)
    → from' ≤ from
    → (e : Entry) → Under p from e
    → Under p from' e
Under-weaken p from from' le e u = record {
  label = u.label;
  behind = u.behind;
  is_path = u.is_path;
  above = omega (arith, u.above);
}

-- What is below the arc `c`.
pub record Through (p : List TrieChar) (c : TrieChar) (e : Entry) : Type 0 where
  pub behind : List TrieChar
  pub is_path : e.path ≡ p ++ (c ∷ behind)

Under-Through :
    (p : List TrieChar) (c : TrieChar) (e : Entry) → Under (p ++ (c ∷ [])) 0 e → Through p c e
Under-Through p c e u = record {
  behind = u.label ∷ u.behind;
  is_path = u.is_path ∙ append_assoc p (c ∷ []) (u.label ∷ u.behind);
}

Through-Under :
    (p : List TrieChar) (c : TrieChar) (from : ℕ)
    → from ≤ c
    → (e : Entry) → Through p c e
    → Under p from e
Through-Under p c from le e u = record {
  label = c;
  behind = u.behind;
  is_path = u.is_path;
  above = le;
}

module _ (cells : List DaCell) where
  pub entries-Under :
      (s b from : ℕ) (p : List TrieChar) (f : Forest)
      → Arcs cells s b from f
      → All (Under p from) (entries p f)
  entries-Under s b from p end h = tt
  entries-Under s b from p (leaf c x i rest) h = (
    record { label = c; behind = []; is_path = refl; above = h.0.above },
    All-map (Under p (suc c)) (Under p from)
        (Under-weaken p (suc c) from (omega (arith, h.0.above))) (entries p rest)
        (entries-Under s b (suc c) p rest h.2),
  )
  entries-Under s b from p (branch c x b' sub rest) h =
      let q = p ++ (c ∷ []) in
      All-append (Under p from) (entries q sub) (entries p rest)
        (All-map (Under q 0) (Under p from)
          (λ e u. Through-Under p c from h.0.above e (Under-Through p c e u)) (entries q sub)
          (entries-Under x b' 0 q sub h.3))
        (All-map (Under p (suc c)) (Under p from)
          (Under-weaken p (suc c) from (omega (arith, h.0.above))) (entries p rest)
          (entries-Under s b (suc c) p rest h.4))

  pub entries-Through :
      (x b' : ℕ) (p : List TrieChar) (c : TrieChar) (sub : Forest)
      → Arcs cells x b' 0 sub
      → All (Through p c) (entries (p ++ (c ∷ [])) sub)
  entries-Through x b' p c sub h =
      All-map (Under (p ++ (c ∷ [])) 0) (Through p c) (Under-Through p c) _
        (entries-Under x b' 0 (p ++ (c ∷ [])) sub h)

lex-prefix :
    (p : List TrieChar) (c d : TrieChar) (cs ds : List TrieChar)
    → c < d
    → lex_lt (p ++ (c ∷ cs)) (p ++ (d ∷ ds)) ≡ true
lex-prefix [] c d cs ds h = ground arith
lex-prefix (e ∷ p) c d cs ds h = ground (arith, lex-prefix p c d cs ds h)

Through-lt :
    (p : List TrieChar) (c : TrieChar) (e e' : Entry)
    → Through p c e
    → Under p (suc c) e'
    → lex_lt e.path e'.path ≡ true
Through-lt p c e e' u v =
    rw (u.is_path, v.is_path) (lex-prefix p c v.label u.behind v.behind (omega (arith, v.above)))

IsOrdered-append :
    (p : List TrieChar) (c : TrieChar) (es es' : List Entry)
    → All (Through p c) es
    → All (Under p (suc c)) es'
    → IsOrdered es
    → IsOrdered es'
    → IsOrdered (es ++ es')
IsOrdered-append p c [] es' h k o o' = o'
IsOrdered-append p c (e ∷ es) es' h k o o' = (
  All-append (λ e'. lex_lt e.path e'.path ≡ true) es es' o.0
      (All-map (Under p (suc c)) (λ e'. lex_lt e.path e'.path ≡ true)
        (λ e' u. Through-lt p c e e' h.0 u) es' k),
  IsOrdered-append p c es es' h.1 k o.1 o',
)

-- The separate cells are listed in the order of their paths, each once.
pub entries-IsOrdered :
    (cells : List DaCell) (s b from : ℕ) (p : List TrieChar) (f : Forest)
    → Arcs cells s b from f
    → IsOrdered (entries p f)
entries-IsOrdered cells s b from p end h = tt
entries-IsOrdered cells s b from p (leaf c x i rest) h =
    IsOrdered-append p c (entry (p ++ (c ∷ [])) x i ∷ []) (entries p rest)
      (record { behind = []; is_path = refl }, tt) (entries-Under cells s b (suc c) p rest h.2)
      (tt, tt) (entries-IsOrdered cells s b (suc c) p rest h.2)
entries-IsOrdered cells s b from p (branch c x b' sub rest) h =
    IsOrdered-append p c (entries (p ++ (c ∷ [])) sub) (entries p rest)
      (entries-Through cells x b' p c sub h.3) (entries-Under cells s b (suc c) p rest h.4)
      (entries-IsOrdered cells x b' 0 (p ++ (c ∷ [])) sub h.3)
      (entries-IsOrdered cells s b (suc c) p rest h.4)
