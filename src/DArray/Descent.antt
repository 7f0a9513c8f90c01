-- ===== src/DArray/Descent.antt =====
-- About `first_separate`: the way down to the first separate cell.
use libdatrie_rs.Common.{
  ℕ, zero, suc, ◌+◌, ◌^◌, ◌≤◌, ◌<◌, ◌≡◌, refl, sym, ap, ◌∙◌, false, some, List, [], ◌∷◌, ◌++◌,
  arith, length, none,
}
use libdatrie_rs.Common.Int.{pos, negsuc, as_u8, +ℤ_pos, ltb_ℤ, eqb_ℤ_refl}
use libdatrie_rs.Common.Run.{ok}
use libdatrie_rs.Types.{TrieChar}
use libdatrie_rs.DArray.Cells.{DArray, get_base}
use libdatrie_rs.DArray.Walk.{Found, pop, first_loop, first_separate, sibling}
use libdatrie_rs.DArray.Fields.{base_at, check_at}
use libdatrie_rs.DArray.Place.{check_at-lt}
use libdatrie_rs.DArray.Children.{sibling-some, sibling-none}
use libdatrie_rs.DArray.Forest.{
  Forest, end, leaf, branch, Next, IsInner, Arcs, entry, entries, Frame, frame, Leads, Place,
  IsPlace, remaining,
}
use mathlib.Core.List.{append_assoc}

pub pop-append : (p : List TrieChar) (c : TrieChar) → pop (p ++ (c ∷ [])) ≡ p
pop-append [] c = refl
pop-append (d ∷ []) c = refl
pop-append (d ∷ e ∷ p) c = ap (λ q. d ∷ q) (pop-append (e ∷ p) c)

-- The first arc's label and cell.
abbrev pub first_label : Forest → TrieChar
first_label end = 0
first_label (leaf c x i rest) = c
first_label (branch c x b' sub rest) = c

abbrev pub first_cell : Forest → ℕ
first_cell end = 0
first_cell (leaf c x i rest) = x
first_cell (branch c x b' sub rest) = x

not_negative : (b : ℕ) → ltb_ℤ (pos b) (pos 0) ≡ false
not_negative b = ground arith

pub as_u8-low : (c : ℕ) → c ≤ 255 → as_u8 (pos c) ≡ c
as_u8-low c h = ground arith

module _ (self : DArray) (root : ℕ) (small : length self.cells < 2 ^ 31) where
  pub Arcs-first :
      (s b from : ℕ) (f : Forest)
      → IsInner f
      → Arcs self.cells s b from f
      → Next self.cells s b from (first_label f) (first_cell f)
  Arcs-first s b from end inner h = elim inner [ ]
  Arcs-first s b from (leaf c x i rest) inner h = h.0
  Arcs-first s b from (branch c x b' sub rest) inner h = h.0

  -- The loop comes to the next arc.
  pub sibling-Next :
      (s b from : ℕ) (c : TrieChar) (x : ℕ)
      → Next self.cells s b from c x
      → sibling self (pos s) (pos b) (pos from) ≡ some (pos c)
  sibling-Next s b from c x n =
      let arc : check_at self.cells (b + c) ≡ some (pos s) = rw n.at at n.arc in
      sibling-some self s b from c small n.above n.low n.gap (rw arc (eqb_ℤ_refl (pos s)))
        (check_at-lt self.cells (b + c) (pos s) arc)

  first_loop-leaf :
      (fuel x i : ℕ) (p : List TrieChar)
      → base_at self.cells x ≡ some (negsuc i)
      → first_loop (suc fuel) self (pos x) p ≡ ok (some (pos x), p)
  unfolding first_loop get_base
  first_loop-leaf fuel x i p e = rw (first_loop, e) (ground arith)

  pub first_loop-branch :
      (fuel s b : ℕ) (c : TrieChar) (x : ℕ) (p : List TrieChar)
      → base_at self.cells s ≡ some (pos b)
      → Next self.cells s b 0 c x
      → first_loop (suc fuel) self (pos s) p ≡ first_loop fuel self (pos x) (p ++ (c ∷ []))
  unfolding first_loop get_base sibling
  first_loop-branch fuel s b c x p e n =
      let there = check_at-lt self.cells x (pos s) n.arc in
      let inside : b + c < 2 ^ 31 = omega (arith, there, n.at) in
      rw (
        first_loop,
        e,
        not_negative b,
        sibling-Next s b 0 c x n,
        +ℤ_pos b c inside,
        as_u8-low c n.low,
        ← n.at,
      )

  run-leaf :
      (fuel k x i : ℕ) (p : List TrieChar)
      → suc k ≤ k + fuel
      → base_at self.cells x ≡ some (negsuc i)
      → first_loop fuel self (pos x) p ≡ ok (some (pos x), p)
  run-leaf zero k x i p enough e = absurd (omega arith)
  run-leaf (suc fuel) k x i p enough e = first_loop-leaf fuel x i p e

  run-branch :
      (fuel k n s b : ℕ) (c : TrieChar) (x : ℕ) (p : List TrieChar) (r : Found)
      → n ≤ k + fuel
      → suc k < n
      → base_at self.cells s ≡ some (pos b)
      → Next self.cells s b 0 c x
      → ((m : ℕ) → n ≤ suc k + m → first_loop m self (pos x) (p ++ (c ∷ [])) ≡ ok r)
      → first_loop fuel self (pos s) p ≡ ok r
  run-branch zero k n s b c x p r enough deep e next rest = absurd (omega arith)
  run-branch (suc fuel) k n s b c x p r enough deep e next rest =
      first_loop-branch fuel s b c x p e next ∙ rest fuel (omega arith)

  -- What the way down from a node comes to: `fs` leads to the node, and `p` are the labels.
  pub record Descent (s b : ℕ) (p : List TrieChar) (f : Forest) (fs : List Frame) : Type 0 where
    pub place : Place
    pub is_place : IsPlace self.cells root place
    pub listing :
        entries p f ++ remaining p fs ≡ place.found ∷ remaining place.found.path place.frames
    pub run :
        (fuel : ℕ)
        → length place.frames ≤ length fs + fuel
        → first_loop fuel self (pos (first_cell f)) (p ++ (first_label f ∷ []))
          ≡ ok (some (pos place.found.node), place.found.path)
    pub deeper : length fs < length place.frames

  pub descent :
      (s b from : ℕ) (p : List TrieChar) (f : Forest) (fs : List Frame)
      → IsInner f
      → base_at self.cells s ≡ some (pos b)
      → Arcs self.cells s b from f
      → Leads self.cells root s fs
      → Descent s b p f fs
  descent s b from p end fs inner base h way = elim inner [ ]
  descent s b from p (leaf c x i rest) fs inner base h way = record {
    place = record { found = entry (p ++ (c ∷ [])) x i; frames = frame s b c rest ∷ fs };
    is_place = record { leads = (h.0.arc, base, h.0.at, h.0.low, h.2, way); separate = h.1 };
    listing = rw (pop-append p c) refl;
    run = λ fuel enough. run-leaf fuel (length fs) x i (p ++ (c ∷ [])) enough h.1;
    deeper = omega arith;
  }
  descent s b from p (branch c x b' sub rest) fs inner base h way =
      let q = p ++ (c ∷ []) in
      let d =
        descent x b' 0 q sub (frame s b c rest ∷ fs) h.2 h.1 h.3
          (h.0.arc, base, h.0.at, h.0.low, h.4, way) in
      record {
        place = d.place;
        is_place = d.is_place;
        listing =
            append_assoc (entries q sub) (entries p rest) (remaining p fs)
            ∙ ap (λ k. entries q sub ++ (entries k rest ++ remaining k fs)) (sym (pop-append p c))
            ∙ d.listing;
        run = λ fuel enough.
            run-branch fuel (length fs) (length d.place.frames) x b' (first_label sub)
              (first_cell sub) q (some (pos d.place.found.node), d.place.found.path) enough d.deeper
              h.1 (Arcs-first x b' 0 sub h.2 h.3) d.run;
        deeper = omega (arith, d.deeper);
      }

-- At a node with no children there is no separate cell to go to.
pub first_separate-empty :
    (self : DArray) (s b : ℕ) (p : List TrieChar)
    → length self.cells < 2 ^ 31
    → base_at self.cells s ≡ some (pos b)
    → b ≤ length self.cells
    → Arcs self.cells s b 0 end
    → first_separate self (pos s) p ≡ ok (none, p)
unfolding first_separate first_loop get_base sibling
first_separate-empty self s b p small base inside h = rw (
  first_loop,
  base,
  not_negative b,
  sibling-none self s b 0 small inside (λ d le low. h d le low),
)
