-- ===== src/Tests/Trees.antt =====
-- The trie that holds the keys "ab", "ac", "" and "a", written out, and what it holds.
use libdatrie_rs.Common.{
  ℕ, zero, suc, ◌+◌, ◌≤◌, ◌<◌, ◌≡◌, ◌∙◌, refl, ap, Bool, true, false, ◌&&◌, not, Option, some, List,
  [], ◌∷◌, ◌++◌, map, arith, ◌==◌, ==_iff, Bool-cases, inl, inr, subst, length,
}
use libdatrie_rs.Common.Int.{ℤ, pos, negsuc}
use libdatrie_rs.Common.Run.{ok}
use libdatrie_rs.DArray
use libdatrie_rs.DArray.{DaCell, DArray, cell}
use libdatrie_rs.DArray.Children.{arc_at}
use libdatrie_rs.DArray.Forest.{
  Forest, Arcs, end, leaf, branch, entry, entries, frame, Place, remaining,
}
use libdatrie_rs.DArray.Order.{IsOrdered}
use libdatrie_rs.AlphaMap
use libdatrie_rs.DArray.Ascent.{Outcome, next_separate_lem}
use libdatrie_rs.Tail
use libdatrie_rs.Tail.{Tail}
use libdatrie_rs.Trie
use libdatrie_rs.Trie.{RoTrie}
use libdatrie_rs.Trie.State.{root}
use libdatrie_rs.Trie.Iter.{iter_new}
use libdatrie_rs.Trie.Model.{Represents}
use libdatrie_rs.Trie.Listing.{collect, collect_lem}
use libdatrie_rs.Trie.Compare.{Spells}
use libdatrie_rs.Trie.Lookup.{ro_retrieve-pick}
use libdatrie_rs.Tests.{one_map}

abbrev pub words_of : {D : Type 0} → (ℤ → D) → RoTrie D
words_of data_of = record {
  alpha_map = one_map;
  da = record {
    cells =
        cell (negsuc 620963075) (pos 11)
        ∷ cell (negsuc 7) (negsuc 4)
        ∷ cell (pos 3) (pos 0)
        ∷ cell (negsuc 2) (pos 2)
        ∷ cell (pos 7) (pos 2)
        ∷ cell (negsuc 0) (negsuc 5)
        ∷ cell (negsuc 4) (negsuc 7)
        ∷ cell (negsuc 3) (pos 4)
        ∷ cell (negsuc 5) (negsuc 0)
        ∷ cell (negsuc 0) (pos 4)
        ∷ cell (negsuc 1) (pos 4)
        ∷ [];
  };
  tail = record {
    tails =
        record { next_free = negsuc 0; data_ = data_of (pos 1); suffix = some (0 ∷ 0 ∷ []) }
        ∷ record { next_free = negsuc 0; data_ = data_of (pos 2); suffix = some (0 ∷ 0 ∷ []) }
        ∷ record { next_free = negsuc 0; data_ = data_of (pos 3); suffix = some (0 ∷ 0 ∷ []) }
        ∷ record { next_free = negsuc 0; data_ = data_of (pos 4); suffix = some (0 ∷ 0 ∷ []) }
        ∷ [];
    first_free = pos 0;
  };
}

abbrev pub words_trie : RoTrie ℤ
words_trie = words_of (λ n. n)

abbrev pub words_tree : Forest
words_tree = leaf 0 3 2 (branch 1 4 7 (leaf 0 7 3 (leaf 2 9 0 (leaf 3 10 1 end))) end)

abbrev cells : List DaCell
cells = words_trie.da.cells

-- There is no arc with one of `n` labels from `from` on.
none_of : ℕ → ℕ → ℕ → ℕ → Bool
none_of s b zero from = true
none_of s b (suc n) from = not (arc_at cells s b from) && none_of s b n (suc from)

none_of_sound :
    (s b n from : ℕ)
    → none_of s b n from ≡ true
    → (d : ℕ) → from ≤ d
    → d < from + n
    → arc_at cells s b d ≡ false
unfolding none_of
none_of_sound s b zero from h d le lt = absurd (omega arith)
none_of_sound s b (suc n) from h d le lt = elim (Bool-cases (from == d)) [
  | inl same ↦
      subst (λ k. arc_at cells s b k ≡ false) ((==_iff from d).0 same)
        (head (arc_at cells s b from) _ h)
  | inr other ↦
      none_of_sound s b n (suc from) (tail_of (arc_at cells s b from) _ h) d (ground arith)
        (omega arith)
]
  where
    head : (a : Bool) (r : Bool) → (not a && r) ≡ true → a ≡ false
    head true r e = cc
    head false r e = refl

    tail_of : (a : Bool) (r : Bool) → (not a && r) ≡ true → r ≡ true
    tail_of true r e = cc
    tail_of false r e = e

root_gap : none_of 2 3 254 2 ≡ true
unfolding none_of
root_gap = refl

inner_gap : none_of 4 7 252 4 ≡ true
unfolding none_of
inner_gap = refl

one_gap : none_of 4 7 1 1 ≡ true
unfolding none_of
one_gap = refl

words_arcs : Arcs cells 2 3 0 words_tree
words_arcs = (
  record {
    at = refl;
    above = omega arith;
    low = omega arith;
    arc = refl;
    gap = λ d h k. absurd (omega arith);
  },
  refl,
  (
    record {
      at = refl;
      above = omega arith;
      low = omega arith;
      arc = refl;
      gap = λ d h k. absurd (omega arith);
    },
    refl,
    tt,
    (
      record {
        at = refl;
        above = omega arith;
        low = omega arith;
        arc = refl;
        gap = λ d h k. absurd (omega arith);
      },
      refl,
      (
        record {
          at = refl;
          above = omega arith;
          low = omega arith;
          arc = refl;
          gap = λ d h k. none_of_sound 4 7 1 1 one_gap d h (omega arith);
        },
        refl,
        (
          record {
            at = refl;
            above = omega arith;
            low = omega arith;
            arc = refl;
            gap = λ d h k. absurd (omega arith);
          },
          refl,
          λ d h k. none_of_sound 4 7 252 4 inner_gap d h (omega arith),
        ),
      ),
    ),
    λ d h k. none_of_sound 2 3 254 2 root_gap d h (omega arith),
    λ e. omega (arith, e),
  ),
)

pub words_of-Represents : {D : Type 0} (data_of : ℤ → D) → Represents (words_of data_of) words_tree
unfolding Tail.get_suffix Tail.get_data libdatrie_rs.Common.Int.◌-ℤ◌
words_of-Represents data_of = record {
  base = 3;
  size = omega arith;
  top = record { header = 620963075; top = refl; no_base = refl };
  root_base = refl;
  inside = omega arith;
  arcs = words_arcs;
  stored = (
    record {
      suffix = 0 ∷ 0 ∷ [];
      value = data_of (pos 3);
      there = refl;
      data_there = refl;
      small = omega arith;
      short = omega arith;
      terminated = refl;
      whole = λ e. refl;
    },
    (
      record {
        suffix = 0 ∷ 0 ∷ [];
        value = data_of (pos 4);
        there = refl;
        data_there = refl;
        small = omega arith;
        short = omega arith;
        terminated = refl;
        whole = λ e. refl;
      },
      (
        record {
          suffix = 0 ∷ 0 ∷ [];
          value = data_of (pos 1);
          there = refl;
          data_there = refl;
          small = omega arith;
          short = omega arith;
          terminated = refl;
          whole = λ e. refl;
        },
        (
          record {
            suffix = 0 ∷ 0 ∷ [];
            value = data_of (pos 2);
            there = refl;
            data_there = refl;
            small = omega arith;
            short = omega arith;
            terminated = refl;
            whole = λ e. refl;
          },
          tt,
        ),
      ),
    ),
  );
}

pub words-Represents : Represents words_trie words_tree
words-Represents = words_of-Represents (λ n. n)

collect_lem_example :
    (collect words_trie 5 (iter_new (root words_trie))
      ≡ ok (
          (0 ∷ [], some (pos 3))
          ∷ (97 ∷ 0 ∷ [], some (pos 4))
          ∷ (97 ∷ 98 ∷ 0 ∷ [], some (pos 1))
          ∷ (97 ∷ 99 ∷ 0 ∷ [], some (pos 2))
          ∷ []))
    × IsOrdered (entries [] words_tree)
unfolding Tail.get_suffix Tail.get_data AlphaMap.map_to_alpha_char AlphaMap.trie_to_char
    libdatrie_rs.Common.Int.◌-ℤ◌
collect_lem_example = collect_lem words_trie words_tree words-Represents

pub ac-Spells : Spells one_map (97 ∷ 99 ∷ []) (1 ∷ 3 ∷ [])
unfolding AlphaMap.char_to_trie
ac-Spells = (
  record {
    maps = refl;
    byte = refl;
    low = omega arith;
    no_term = λ e. omega (arith, e);
    no_null = λ e. omega (arith, e);
  },
  (
    record {
      maps = refl;
      byte = refl;
      low = omega arith;
      no_term = λ e. omega (arith, e);
      no_null = λ e. omega (arith, e);
    },
    tt,
  ),
)

ro_retrieve-pick_example : Trie.ro_retrieve words_trie (97 ∷ 99 ∷ 0 ∷ []) ≡ ok (some (pos 2))
unfolding Tail.get_suffix Tail.get_data libdatrie_rs.Common.Int.◌-ℤ◌
ro_retrieve-pick_example =
    ro_retrieve-pick words_trie words_tree words-Represents (97 ∷ 99 ∷ []) (1 ∷ 3 ∷ []) ac-Spells

-- At the cell of the empty key.
abbrev first_place : Place
first_place = record {
  found = entry (0 ∷ []) 3 2;
  frames = frame 2 3 0 (branch 1 4 7 (leaf 0 7 3 (leaf 2 9 0 (leaf 3 10 1 end))) end) ∷ [];
}

next_separate_lem_example :
    Outcome words_trie.da 2 words-Represents.size words-Represents.top
      (remaining (0 ∷ []) first_place.frames)
      (DArray.next_separate words_trie.da (pos 2) (pos 3) (0 ∷ []))
next_separate_lem_example =
    next_separate_lem words_trie.da 2 words-Represents.size words-Represents.top first_place
      (record { leads = (refl, refl, refl, omega arith, words_arcs.2, refl); separate = refl })
