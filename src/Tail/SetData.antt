-- ===== src/Tail/SetData.antt =====
-- About `set_data` on a block that is there.
use libdatrie_rs.Common.{
  ℕ, ◌≡◌, ◌≢◌, refl, Option, none, some, get_elem?, get_elem?_lt, set, get_elem?-set_self,
  get_elem?-set_ne, Bool-cases, inl, inr, ◌==◌, arith,
}
use libdatrie_rs.Common.Int.{ℤ, pos, negsuc, ◌-ℤ◌}
use libdatrie_rs.Types.{TrieIndex}
use libdatrie_rs.Tail.Defs.{TailBlock, Tail, get_suffix, get_data, set_data, tail_start_blockno}

module _ {D : Type 0} (self : Tail D) (i : ℕ) (value : D) (b : TailBlock D)
    (here : get_elem? self.tails i ≡ some b) where
  abbrev new_block : TailBlock D
  new_block = record b { data_ = value }

  abbrev changed : Tail D
  changed = record self { tails = set self.tails i new_block }

  at_block : get_elem? changed.tails i ≡ some new_block
  at_block = get_elem?-set_self self.tails i new_block (get_elem?_lt self.tails i here)

  same_suffix : (s : TrieIndex) → get_suffix changed s ≡ get_suffix self s
  unfolding get_suffix
  same_suffix s = go (s -ℤ tail_start_blockno) refl
    where
      go : (z : ℤ) → s -ℤ tail_start_blockno ≡ z → get_suffix changed s ≡ get_suffix self s
      go (negsuc k) e = rw (e) refl
      go (pos k) e = elim (Bool-cases (k == i)) [
        | inl same ↦ (let k_is : k ≡ i = ground (arith, same) in rw (e, k_is, at_block, here) refl)
        | inr other ↦
            (let ne : i ≢ k = ground (arith, other) in
              rw (e, get_elem?-set_ne self.tails i k new_block ne) refl)
      ]

module _ {D : Type 0} (self : Tail D) (t : TrieIndex) (value : D) where
  -- What `set_data` of a block that is there leaves behind.
  pub record Replaced (self' : Tail D) : Type 0 where
    pub same_suffixes : (s : TrieIndex) → get_suffix self' s ≡ get_suffix self s
    pub new_data : get_data self' t ≡ some value

  pub set_data_lem : (d : D) → get_data self t ≡ some d → Replaced (set_data self t value).0
  unfolding get_data set_data
  set_data_lem d h = go (t -ℤ tail_start_blockno) refl
    where
      there :
          (i : ℕ) (o : Option (TailBlock D))
          → t -ℤ tail_start_blockno ≡ pos i
          → get_elem? self.tails i ≡ o
          → Replaced (set_data self t value).0
      there i none e here = let gone = rw (get_data, e, here) at h in cc
      there i (some b) e here =
          let same : (set_data self t value).0 ≡ changed self i value b here =
            rw (set_data, e, here, e) refl in
          record {
            same_suffixes = λ s. rw same (same_suffix self i value b here s);
            new_data = rw same (rw (get_data, e, at_block self i value b here) refl);
          }

      go : (z : ℤ) → t -ℤ tail_start_blockno ≡ z → Replaced (set_data self t value).0
      go (negsuc k) e = let gone = rw (get_data, e) at h in cc
      go (pos i) e = there i (get_elem? self.tails i) e refl
