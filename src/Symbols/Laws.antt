-- ===== src/Symbols/Laws.antt =====
-- About `add`: the vector of symbols after it, and the full vector.
use libdatrie_rs.Common.{
  has, Ascending, has-below, ℕ, zero, suc, ◌+◌, ◌≤◌, ◌<◌, ◌≡◌, refl, Bool, true, false, ◌||◌, List,
  [], ◌∷◌, arith, ltb, ◌==◌, if◌then◌else◌, length, get_elem?, Bool-cases, inl, inr,
}
use libdatrie_rs.Common.Run.{ok, panic}
use libdatrie_rs.Types.{TrieChar}
use libdatrie_rs.Symbols.Defs.{ArrayVec, insert_at, capacity, Symbols, partition_point, is_at, add}

-- The elements of `t` are those of `s`, and `c`.
pub record Added (s : Symbols) (c : TrieChar) (t : Symbols) : Type 0 where
  pub sorted : Ascending 0 t.symbols
  pub mem : (d : TrieChar) → has d t.symbols ≡ (c == d || has d s.symbols)
  pub size : length t.symbols ≡ length s.symbols + (if has c s.symbols then 0 else 1)

abbrev point : ℕ → List ℕ → ℕ
point c xs = partition_point (λ no. ltb no c) xs

point-le : (c : ℕ) (xs : List ℕ) → point c xs ≤ length xs
unfolding partition_point
point-le c [] = omega arith
point-le c (x ∷ xs) = ground (arith, point-le c xs)

at-has : (m c : ℕ) (xs : List ℕ) → Ascending m xs → is_at (get_elem? xs (point c xs)) c ≡ has c xs
unfolding partition_point is_at
at-has m c [] h = refl
at-has m c (x ∷ xs) h = ground (arith, at-has (suc x) c xs h.1, has-below (suc x) c xs h.1)

insert-Ascending :
    (m c : ℕ) (xs : List ℕ)
    → Ascending m xs
    → m ≤ c
    → has c xs ≡ false
    → Ascending m (insert_at xs (point c xs) c)
unfolding partition_point
insert-Ascending m c [] h k new = omega arith
insert-Ascending m c (x ∷ xs) h k new = ground (arith, insert-Ascending (suc x) c xs h.1)

has-insert : (c d i : ℕ) (xs : List ℕ) → has d (insert_at xs i c) ≡ (c == d || has d xs)
has-insert c d zero xs = refl
has-insert c d (suc i) [] = refl
has-insert c d (suc i) (x ∷ xs) = ground (arith, has-insert c d i xs)

length-insert : (c i : ℕ) (xs : List ℕ) → length (insert_at xs i c) ≡ suc (length xs)
length-insert c zero xs = refl
length-insert c (suc i) [] = refl
length-insert c (suc i) (x ∷ xs) = omega (arith, length-insert c i xs)

has-absorb : (c d : ℕ) (xs : List ℕ) → has c xs ≡ true → has d xs ≡ (c == d || has d xs)
has-absorb c d xs h = ground arith

room-lt : (n : ℕ) (b : Bool) → n + (if b then 0 else 1) ≤ capacity → b ≡ false → n < capacity
room-lt n b h e = ground arith

module _ (v : ArrayVec) (s : Symbols) (c : TrieChar) (sorted : Ascending 0 s.symbols) where
  -- With room for it, or when it is there already, `add` of a symbol to a strictly ascending vector
  -- adds it and no other, and keeps the vector ascending.
  pub add-Added :
      length s.symbols + (if has c s.symbols then 0 else 1) ≤ capacity
      → (t : Symbols) × (add v s c ≡ ok t) × Added s c t
  unfolding add
  add-Added room = elim (Bool-cases (has c s.symbols)) [
    | inl old ↦ (
      s,
      rw (at-has 0 c s.symbols sorted, old),
      record {
        sorted = sorted;
        mem = λ d. has-absorb c d s.symbols old;
        size = rw old (omega arith);
      },
    )
    | inr new ↦ (
      record { symbols = insert_at s.symbols (point c s.symbols) c },
      rw (
        at-has 0 c s.symbols sorted,
        new,
        v.insert_room s.symbols (point c s.symbols) c (room-lt _ _ room new) (point-le c s.symbols),
      ),
      record {
        sorted = insert-Ascending 0 c s.symbols sorted (omega arith) new;
        mem = λ d. has-insert c d _ s.symbols;
        size = rw new (omega (arith, length-insert c (point c s.symbols) s.symbols));
      },
    )
  ]

  -- On a strictly ascending vector that holds 255 symbols, Symbols::add of a symbol that is there
  -- leaves it as it is, and of another one panics, though a node can have 256 labels.
  pub add-full : capacity ≤ length s.symbols → add v s c ≡ (if has c s.symbols then ok s else panic)
  unfolding add
  add-full full = elim (Bool-cases (has c s.symbols)) [
    | inl old ↦ rw (at-has 0 c s.symbols sorted, old) refl
    | inr new ↦
        rw (at-has 0 c s.symbols sorted, new, v.insert_full s.symbols (point c s.symbols) c full)
          refl
  ]
