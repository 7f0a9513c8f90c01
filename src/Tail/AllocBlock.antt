-- ===== src/Tail/AllocBlock.antt =====
-- About `alloc_block`, and `free_block` of block 0.
use libdatrie_rs.Common.{
  ℕ, suc, ◌^◌, ◌≤◌, ◌<◌, ◌≡◌, refl, sym, ap, ◌≢◌, false, some, List, [], ◌∷◌, ◌++◌, arith, length,
  get_elem?, set, has, Ascending, Ascending-weaken, has-below, get_elem?-set_self, get_elem?-set_ne,
  get_elem?_lt, get_elem?-some, length-set, get_elem?-append_left, length-append,
}
use libdatrie_rs.Common.Int.{pos, as_usize, +ℤ_one, eqb_ℤ_ne, -ℤ_pos, as_i32-small}
use libdatrie_rs.Common.Run.{ok}
use libdatrie_rs.Types.{TrieIndex, TrieData}
use libdatrie_rs.Tail.Defs.{
  TailBlock, Tail, index, free_point, set_next, block_default, alloc_block, free_block,
}
use libdatrie_rs.Tail.Free.{Chain, IsFree, frame, unlink_front}

module _ {D : Type 0} (t : TrieData D) where
  abbrev pub fresh : Tail D → List ℕ → ℕ
  fresh self [] = length self.tails
  fresh self (x ∷ xs) = x

  -- The free blocks that are left.
  abbrev pub rest : List ℕ → List ℕ
  rest [] = []
  rest (x ∷ xs) = xs

  -- How many blocks there are then: one more where none was free.
  abbrev pub blocks_after : Tail D → List ℕ → ℕ
  blocks_after self [] = suc (length self.tails)
  blocks_after self (x ∷ xs) = length self.tails

  -- Block `idx` was handed out: it is blank, no longer free, and every other block is as it was.
  pub record Allocated (self : Tail D) (xs : List ℕ) (idx : ℕ) (self' : Tail D) : Type 0 where
    pub chain : Chain self'.tails self'.first_free (rest xs)
    pub sorted : Ascending 1 (rest xs)
    pub taken : has idx (rest xs) ≡ false
    pub blank : get_elem? self'.tails idx ≡ some (block_default t)
    pub kept :
        (k : ℕ) → k ≢ idx → k < length self.tails → get_elem? self'.tails k ≡ get_elem? self.tails k
    pub size : length self'.tails ≡ blocks_after self xs
    pub grown : length self'.tails ≤ suc (length self.tails)

  get-last : {A : Type 0} (xs : List A) (a : A) → get_elem? (xs ++ (a ∷ [])) (length xs) ≡ some a
  get-last [] a = refl
  get-last (x ∷ xs) a = get-last xs a

  -- Tail::alloc_block hands out the lowest free block, blank, and appends a block only when none is
  -- free; what is left is the chain of the other free blocks, and every other block is as it was.
  pub alloc_block_lem :
      (self : Tail D) (xs : List ℕ)
      → IsFree self xs
      → suc (length self.tails) < 2 ^ 31
      → (self' : Tail D) × (alloc_block t self ≡ ok (self', pos (suc (fresh self xs))))
        × Allocated self xs (fresh self xs) self'
  unfolding alloc_block index
  alloc_block_lem self [] f room = (
    record self { tails = self.tails ++ (block_default t ∷ []) },
    rw (f.chain, as_i32-small (length self.tails) (omega arith), +ℤ_one (length self.tails) room),
    record {
      chain = f.chain;
      sorted = tt;
      taken = refl;
      blank = get-last self.tails _;
      kept = λ k ne h. get_elem?-append_left self.tails _ k h;
      size = omega (arith, length-append self.tails (block_default t ∷ []));
      grown = omega (arith, length-append self.tails (block_default t ∷ []));
    },
  )
  alloc_block_lem self (x ∷ xs) f room =
      let (b, g, c) = f.chain.1 in
      let out = has-below (suc x) x xs f.sorted.1 (omega arith) in
      (
        record { tails = set self.tails x (block_default t); first_free = b.next_free },
        rw (
          f.chain.0,
          alloc_block,
          eqb_ℤ_ne (pos x) (pos 0) (λ e. omega (arith, ap as_usize e, f.sorted.0)),
          f.chain.0,
          g,
          index,
          +ℤ_one x (omega (arith, get_elem?_lt self.tails x g)),
        ),
        record {
          chain = frame self.tails b.next_free xs x (block_default t) out c;
          sorted = Ascending-weaken (suc x) 1 xs f.sorted.1 (omega arith);
          taken = out;
          blank = get_elem?-set_self self.tails x _ (get_elem?_lt self.tails x g);
          kept = λ k ne h. get_elem?-set_ne self.tails x k _ (λ e. ne (sym e));
          size = length-set self.tails x (block_default t);
          grown = omega (arith, length-set self.tails x (block_default t));
        },
      )

  start-le :
      (tails : List (TailBlock D)) (start : TrieIndex) (xs : List ℕ)
      → Chain tails start xs
      → as_usize start ≤ length tails
  start-le tails start [] c = rw c (omega arith)
  start-le tails start (x ∷ xs) (e, (b, g, c)) = rw e (omega (arith, get_elem?_lt tails x g))

  stops_at_once :
      (fuel i : ℕ) (tails : List (TailBlock D)) → free_point (suc fuel) tails 0 0 i ≡ ok (0, i)
  unfolding free_point
  stops_at_once fuel i tails = ground arith

  -- Freeing block 0 makes the chain empty: whatever blocks were free are never used again.
  pub free_block-zero :
      (self : Tail D) (xs : List ℕ)
      → IsFree self xs
      → 0 < length self.tails
      → (self' : Tail D) × (free_block t self (pos 1) ≡ ok self')
        × IsFree self' []
        × (length self'.tails ≡ length self.tails)
  unfolding free_block
  free_block-zero self xs f inside =
      let (b, here) = get_elem?-some self.tails 0 inside in
      let i : ℕ = as_usize self.first_free in
      let small : i < 2 ^ 31 =
        omega (arith, start-le self.tails self.first_free xs f.chain, f.small) in
      (
        record {
          tails = set self.tails 0 (set_next (pos i) (block_default t));
          first_free = pos 0;
        },
        rw (-ℤ_pos 1 1 (omega arith) (omega arith), stops_at_once (length self.tails) i self.tails)
            (unlink_front t self 0 i b here (omega arith) small),
        record {
          chain = refl;
          sorted = tt;
          small = rw (length-set self.tails 0 (set_next (pos i) (block_default t))) f.small;
        },
        length-set self.tails 0 _,
      )
