-- ===== src/Tail/AddSuffix.antt =====
-- About `add_suffix` and `set_data` on a new block.
use libdatrie_rs.Common.{
  ℕ, suc, has, false, length-set, ◌^◌, ◌≤◌, ◌<◌, ◌≡◌, sym, ap, ◌∙◌, ◌≢◌, true, Option, some, List,
  [], ◌∷◌, arith, length, get_elem?, set, get_elem?-set_self, get_elem?-set_ne, get_elem?_lt,
}
use libdatrie_rs.Common.Int.{pos, ◌-ℤ◌, -ℤ_pos}
use libdatrie_rs.Common.Run.{ok}
use libdatrie_rs.Types.{TrieChar, TrieData}
use libdatrie_rs.Tail.Defs.{
  TailBlock, Tail, get_suffix, set_suffix, get_data, set_data, add_suffix, block_default,
}
use libdatrie_rs.Tail.Free.{IsFree, frame}
use libdatrie_rs.Tail.AllocBlock.{fresh, rest, alloc_block_lem}

-- Block numbers begin at 1.
pub block-index : (i : ℕ) → suc i < 2 ^ 31 → pos (suc i) -ℤ pos 1 ≡ pos i
block-index i h = -ℤ_pos (suc i) 1 (omega arith) h ∙ ap pos {y = i} (omega arith)

module _ {D : Type 0} where
  pub set_suffix-at :
      (self : Tail D) (i : ℕ) (suffix : Option (List TrieChar)) (b : TailBlock D)
      → suc i < 2 ^ 31
      → get_elem? self.tails i ≡ some b
      → set_suffix self (pos (suc i)) suffix
        ≡ (record self { tails = set self.tails i (record b { suffix = suffix }) }, true)
  unfolding set_suffix
  set_suffix-at self i suffix b h here =
      rw (block-index i h, here) (ground (arith, get_elem?_lt self.tails i here))

  pub set_data-at :
      (self : Tail D) (i : ℕ) (value : D) (b : TailBlock D)
      → suc i < 2 ^ 31
      → get_elem? self.tails i ≡ some b
      → set_data self (pos (suc i)) value
        ≡ (record self { tails = set self.tails i (record b { data_ = value }) }, true)
  unfolding set_data
  set_data-at self i value b h here = rw (set_data, block-index i h, here, block-index i h)

  pub get_suffix-at :
      (self : Tail D) (i : ℕ) (b : TailBlock D)
      → suc i < 2 ^ 31
      → get_elem? self.tails i ≡ some b
      → get_suffix self (pos (suc i)) ≡ b.suffix
  unfolding get_suffix
  get_suffix-at self i b h here = rw (block-index i h, here)

  pub get_data-at :
      (self : Tail D) (i : ℕ) (b : TailBlock D)
      → suc i < 2 ^ 31
      → get_elem? self.tails i ≡ some b
      → get_data self (pos (suc i)) ≡ some b.data_
  unfolding get_data
  get_data-at self i b h here = rw (get_data, block-index i h, here)

module _ {D : Type 0} (t : TrieData D) where
  -- A new block `i` with this suffix and this data, which is no longer free; all other blocks in
  -- use are as they were.
  pub record Added (self : Tail D) (xs : List ℕ) (suffix : List TrieChar) (value : D)
      (self' : Tail D) : Type 0 where
    pub suffix_there : get_suffix self' (pos (suc (fresh t self xs))) ≡ some suffix
    pub data_there : get_data self' (pos (suc (fresh t self xs))) ≡ some value
    pub kept :
        (k : ℕ)
        → k ≢ fresh t self xs
        → k < length self.tails
        → get_elem? self'.tails k ≡ get_elem? self.tails k
    pub free : IsFree self' (rest t xs)
    pub taken : has (fresh t self xs) (rest t xs) ≡ false

  pub fresh-le :
      (self : Tail D) (xs : List ℕ) → IsFree self xs → fresh t self xs ≤ length self.tails
  fresh-le self [] f = omega arith
  fresh-le self (x ∷ xs) f = let (b, g, c) = f.chain.1 in omega (arith, get_elem?_lt self.tails x g)

  -- On a well-formed chain of free blocks, and with room for one more, `add_suffix` and then
  -- `set_data` give the lowest free block, or a new one, the suffix and the data; no other block
  -- has changed, and the chain of the other free blocks is well-formed.
  pub add_suffix_lem :
      (self : Tail D) (xs : List ℕ) (suffix : List TrieChar) (value : D)
      → IsFree self xs
      → suc (length self.tails) < 2 ^ 31
      → (mid self' : Tail D) × (add_suffix t self (some suffix)
          ≡ ok (mid, pos (suc (fresh t self xs))))
        × (set_data mid (pos (suc (fresh t self xs))) value ≡ (self', true))
        × Added self xs suffix value self'
  unfolding add_suffix
  add_suffix_lem self xs suffix value f room =
      let i : ℕ = fresh t self xs in
      let (a, run, al) = alloc_block_lem t self xs f room in
      let small : suc i < 2 ^ 31 = omega (arith, fresh-le self xs f) in
      let b₁ : TailBlock D = record (block_default t) { suffix = some suffix } in
      let b₂ : TailBlock D = record b₁ { data_ = value } in
      let mid : Tail D = record a { tails = set a.tails i b₁ } in
      let end : Tail D = record mid { tails = set mid.tails i b₂ } in
      let inside : i < length a.tails = get_elem?_lt a.tails i al.blank in
      let at₁ : get_elem? mid.tails i ≡ some b₁ = get_elem?-set_self a.tails i b₁ inside in
      let at₂ : get_elem? end.tails i ≡ some b₂ =
        get_elem?-set_self mid.tails i b₂ (get_elem?_lt mid.tails i at₁) in
      (
        mid,
        end,
        rw (run, set_suffix-at a i (some suffix) (block_default t) small al.blank),
        set_data-at mid i value b₁ small at₁,
        record {
          suffix_there = get_suffix-at end i b₂ small at₂;
          data_there = get_data-at end i b₂ small at₂;
          kept = λ k ne h.
              get_elem?-set_ne mid.tails i k b₂ (λ e. ne (sym e))
              ∙ get_elem?-set_ne a.tails i k b₁ (λ e. ne (sym e))
              ∙ al.kept k ne h;
          free = record {
            chain =
                frame mid.tails a.first_free (rest t xs) i b₂ al.taken
                  (frame a.tails a.first_free (rest t xs) i b₁ al.taken al.chain);
            sorted = al.sorted;
            small =
                omega (arith, length-set mid.tails i b₂, length-set a.tails i b₁, al.grown, room);
          };
          taken = al.taken;
        },
      )
