-- ===== src/Tail/Defs.antt =====
-- `Tail` and `TailBlock`, and the operations on them. A method that changes `self` returns the new
-- value, with its result where it has one.
use libdatrie_rs.Common.{
  ℕ, zero, suc, ◌+◌, ◌%◌, ◌^◌, Bool, true, false, ◌&&◌, not, Option, none, some, List, [], ◌∷◌,
  ◌++◌, ltb, leb, ◌==◌, if◌then◌else◌, length, get_elem?, set,
}
use libdatrie_rs.Common.Int.{
  ℤ, pos, negsuc, as_i16, as_i32, add_i16, as_usize, eqb_ℤ, ◌+ℤ◌, ◌-ℤ◌, get?,
}
use libdatrie_rs.Common.Run.{Run, ok, panic, out_of_fuel, ◌>>=◌}
use libdatrie_rs.Types.{TrieIndex, TrieChar, trie_char_term, TrieData}

pub record TailBlock (D : Type 0) : Type 0 where
  pub next_free : TrieIndex
  pub data_ : D
  pub suffix : Option (List TrieChar)

pub record Tail (D : Type 0) : Type 0 where
  pub tails : List (TailBlock D)
  pub first_free : TrieIndex

abbrev pub tail_start_blockno : TrieIndex
tail_start_blockno = pos 1

-- `#[derive(Default)]`
abbrev pub tail_default : {D : Type 0} → Tail D
tail_default = record { tails = []; first_free = pos 0 }

-- `v[i]`, which panics out of bounds
unfoldable pub index : {A : Type 0} → List A → ℕ → Run A
index xs i = elim (get_elem? xs i) [ none ↦ panic | some a ↦ ok a ]

-- The loop of `walk_str`, from position `j` of the suffix, with `i` characters walked.
unfoldable pub walk_str_loop : List TrieChar → List TrieChar → ℕ → ℕ → Run (ℤ × ℤ)
walk_str_loop [] suffix i j = ok (as_i16 (j % 2 ^ 16), as_i32 (i % 2 ^ 32))
walk_str_loop (c ∷ str) suffix i j = do
  s ← index suffix j
  let rest = walk_str_loop str suffix (i + 1) (j + 1)
  if c == s
      then (if s == trie_char_term
          then ok (as_i16 (j % 2 ^ 16), as_i32 ((i + 1) % 2 ^ 32))
          else rest)
      else ok (as_i16 (j % 2 ^ 16), as_i32 (i % 2 ^ 32))

module _ {D : Type 0} where
  suffix_of : Option (TailBlock D) → Option (List TrieChar)
  suffix_of none = none
  suffix_of (some v) = v.suffix

  unfoldable pub get_suffix : Tail D → TrieIndex → Option (List TrieChar)
  unfolding suffix_of
  get_suffix self index =
      let index = index -ℤ tail_start_blockno in suffix_of (get? self.tails index)

  set_block_suffix : Tail D → ℕ → Option (List TrieChar) → Option (TailBlock D) → Tail D
  set_block_suffix self i suffix none = self
  set_block_suffix self i suffix (some b) = record self {
    tails = set self.tails i (record b { suffix = suffix });
  }

  unfoldable pub set_suffix : Tail D → TrieIndex → Option (List TrieChar) → Tail D × Bool
  unfolding set_block_suffix
  set_suffix self index suffix =
      let index = as_usize (index -ℤ tail_start_blockno) in
      if leb (length self.tails) index
      then (self, false)
      else (set_block_suffix self index suffix (get_elem? self.tails index), true)

  unfoldable pub get_data : Tail D → TrieIndex → Option D
  get_data self index =
      let index = index -ℤ tail_start_blockno in
      elim (get? self.tails index) [ none ↦ none | some v ↦ some v.data_ ]

  -- The flag is the result: `Some(())` or `None`.
  unfoldable pub set_data : Tail D → TrieIndex → D → Tail D × Bool
  set_data self index value =
      let index = index -ℤ tail_start_blockno in
      elim (get? self.tails index) [
        | none ↦ (self, false)
        | some block ↦ (
          record self { tails = set self.tails (as_usize index) (record block { data_ = value }) },
          true,
        )
      ]

  unfoldable pub walk_str : Tail D → TrieIndex → ℤ → List TrieChar → Run (ℤ × ℤ)
  unfolding walk_str_loop
  walk_str self s suffix_idx str = elim (get_suffix self s) [
    | none ↦ ok (suffix_idx, pos 0)
    | some suffix ↦ walk_str_loop str suffix 0 (as_usize suffix_idx)
  ]

  unfoldable pub walk_char : Tail D → TrieIndex → ℤ → TrieChar → Run (Option ℤ)
  unfolding get_suffix index
  walk_char self s suffix_idx c = elim (get_suffix self s) [
    | none ↦ ok none
    | some suffix ↦ (do
      suffix_char ← index suffix (as_usize suffix_idx)
      ok (
          if suffix_char == c
          then (if suffix_char == trie_char_term
              then some suffix_idx
              else some (add_i16 suffix_idx (pos 1)))
          else none))
  ]

  unfoldable pub is_walkable_char : Tail D → TrieIndex → ℤ → TrieChar → Run Bool
  unfolding get_suffix index
  is_walkable_char self s suffix_idx c = elim (get_suffix self s) [
    | none ↦ panic
    | some suffix ↦ (do suffix_char ← index suffix (as_usize suffix_idx); ok (suffix_char == c))
  ]

  -- `while i != 0 && i < block_idx { j = i; i = self.tails[i].next_free as usize; }`. On more
  -- rounds than there are blocks it would come by one of them twice, and so never end.
  unfoldable pub free_point : ℕ → List (TailBlock D) → ℕ → ℕ → ℕ → Run (ℕ × ℕ)
  free_point zero tails block_idx j i = out_of_fuel
  free_point (suc fuel) tails block_idx j i = elim (not (i == 0) && ltb i block_idx) [
    | true ↦ (elim (get_elem? tails i) [
      | none ↦ panic
      | some b ↦ free_point fuel tails block_idx i (as_usize b.next_free)
    ])
    | false ↦ ok (j, i)
  ]

  abbrev pub set_next : TrieIndex → TailBlock D → TailBlock D
  set_next next b = record b { next_free = next }

module _ {D : Type 0} (t : TrieData D) where
  -- `TailBlock::default()`, and what `reset` makes of a block
  abbrev pub block_default : TailBlock D
  block_default = record { next_free = negsuc 0; data_ = t.default; suffix = none }

  unfoldable pub alloc_block : Tail D → Run (Tail D × TrieIndex)
  unfolding index
  alloc_block self = elim (eqb_ℤ self.first_free (pos 0)) [
    | false ↦ (do
      block ← index self.tails (as_usize self.first_free)
      ok (
        record {
          tails = set self.tails (as_usize self.first_free) block_default;
          first_free = block.next_free;
        },
        self.first_free +ℤ tail_start_blockno,
      ))
    | true ↦ ok (
      record self { tails = self.tails ++ (block_default ∷ []) },
      as_i32 (length self.tails % 2 ^ 32) +ℤ tail_start_blockno,
    )
  ]

  unfoldable pub add_suffix : Tail D → Option (List TrieChar) → Run (Tail D × TrieIndex)
  add_suffix self suffix = do
    (self, new_block) ← alloc_block self
    ok ((set_suffix self new_block suffix).0, new_block)

  -- The writes of `free_block`, once the insertion point is known.
  unfoldable pub unlink : Tail D → ℕ → ℕ × ℕ → Run (Tail D)
  unfolding index
  unlink self block_idx (j, i) = elim (get_elem? self.tails block_idx) [
    | none ↦ ok self
    | some _ ↦
        (let tails = set self.tails block_idx (set_next (as_i32 (i % 2 ^ 32)) block_default) in
          elim (j == 0) [
            | false ↦ (do
              b ← index tails j
              ok (record self { tails = set tails j (set_next (as_i32 (block_idx % 2 ^ 32)) b) }))
            | true ↦ ok (record { tails = tails; first_free = as_i32 (block_idx % 2 ^ 32) })
          ])
  ]

  unfoldable pub free_block : Tail D → TrieIndex → Run (Tail D)
  free_block self block =
      let block_idx = as_usize (block -ℤ tail_start_blockno) in
      free_point (suc (length self.tails)) self.tails block_idx 0 (as_usize self.first_free)
      >>= unlink self block_idx

  unfoldable pub delete : Tail D → TrieIndex → Run (Tail D)
  delete self index = free_block self index
