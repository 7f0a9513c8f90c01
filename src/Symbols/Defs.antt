-- ===== src/Symbols/Defs.antt =====
-- The operations of `Symbols`, over the `arrayvec` crate as a parameter.
use libdatrie_rs.Common.{
  ℕ, zero, suc, ◌≤◌, ◌<◌, ◌≡◌, Bool, Option, none, some, List, [], ◌∷◌, ◌++◌, ltb, ◌==◌,
  if◌then◌else◌, length, get_elem?,
}
use libdatrie_rs.Common.Run.{Run, ok, panic, ◌>>=◌}
use libdatrie_rs.Types.{TrieChar}

-- `Vec::insert` on the elements of a vector
abbrev pub insert_at : List ℕ → ℕ → ℕ → List ℕ
insert_at xs zero c = c ∷ xs
insert_at [] (suc i) c = c ∷ []
insert_at (x ∷ xs) (suc i) c = x ∷ insert_at xs i c

-- `ArrayVec<TrieChar, { TrieChar::MAX as usize }>`
abbrev pub capacity : ℕ
capacity = 255

-- `arrayvec::ArrayVec` at that capacity, seen as the slice of its elements: `push` and `insert`
-- panic when the vector is full.
pub record ArrayVec : Type 0 where
  pub push : List TrieChar → TrieChar → Run (List TrieChar)
  pub insert : List TrieChar → ℕ → TrieChar → Run (List TrieChar)
  pub push_room :
      (xs : List TrieChar) (c : TrieChar) → length xs < capacity → push xs c ≡ ok (xs ++ (c ∷ []))
  pub push_full : (xs : List TrieChar) (c : TrieChar) → capacity ≤ length xs → push xs c ≡ panic
  pub insert_room :
      (xs : List TrieChar) (i : ℕ) (c : TrieChar)
      → length xs < capacity
      → i ≤ length xs
      → insert xs i c ≡ ok (insert_at xs i c)
  pub insert_full :
      (xs : List TrieChar) (i : ℕ) (c : TrieChar) → capacity ≤ length xs → insert xs i c ≡ panic

pub record Symbols : Type 0 where
  pub symbols : List TrieChar

abbrev pub symbols_default : Symbols
symbols_default = record { symbols = [] }

-- `<[T]>::partition_point` on a partitioned slice: the index of the first element that fails.
unfoldable pub partition_point : (ℕ → Bool) → List ℕ → ℕ
partition_point p [] = 0
partition_point p (x ∷ xs) = if p x then suc (partition_point p xs) else 0

unfoldable pub is_at : Option TrieChar → TrieChar → Bool
is_at none ch = Bool.false
is_at (some c) ch = c == ch

module _ (v : ArrayVec) where
  unfoldable pub add_fast : Symbols → TrieChar → Run Symbols
  add_fast self ch = do symbols ← v.push self.symbols ch; ok (record { symbols = symbols })

  unfoldable pub add : Symbols → TrieChar → Run Symbols
  unfolding partition_point is_at
  add self ch =
      let insertion_point = partition_point (λ no. ltb no ch) self.symbols in
      if is_at (get_elem? self.symbols insertion_point) ch then ok self else (do
        symbols ← v.insert self.symbols insertion_point ch
        ok (record { symbols = symbols }))

unfoldable pub num : Symbols → ℕ
num self = length self.symbols

unfoldable pub get : Symbols → ℕ → Option TrieChar
get self index = get_elem? self.symbols index

unfoldable pub iter : Symbols → List TrieChar
iter self = self.symbols
