-- ===== src/Tail/FreeBlock.antt =====
-- About `free_block`, and the chain of free blocks.
use libdatrie_rs.Common.{
  ℕ, suc, ◌+◌, ◌-◌, ◌^◌, ◌≤◌, ◌<◌, ◌≡◌, refl, sym, subst, ◌∙◌, ◌≢◌, true, false, some, List, [],
  ◌∷◌, arith, ltb, length, get_elem?, set, has, Ascending, place, place-Ascending, ltb→lt, lt→ltb,
  Bool-cases, inl, inr, get_elem?-set_self, get_elem?-set_ne, get_elem?_lt, get_elem?-some,
  length-set,
}
use libdatrie_rs.Common.Int.{pos, -ℤ_pos}
use libdatrie_rs.Common.Run.{ok}
use libdatrie_rs.Types.{TrieIndex, TrieData}
use libdatrie_rs.Tail.Defs.{TailBlock, Tail, set_next, block_default, unlink, free_block}
use libdatrie_rs.Tail.Free.{
  Chain, IsFree, frame, last_below, first_above, free_point_lem, start-above, last_below-le,
  last_below-has, positive, splice, Chain-get, unlink_front, unlink_after, first_above-le,
}

module _ {D : Type 0} (t : TrieData D) where
  -- `free_block` of block `idx`: it is blank and among the free blocks, and no block that was
  -- neither is touched.
  pub record Freed (self : Tail D) (idx : ℕ) (xs : List ℕ) (self' : Tail D) : Type 0 where
    pub free : IsFree self' (place idx xs)
    pub blank :
        (next : TrieIndex) × (get_elem? self'.tails idx ≡ some (set_next next (block_default t)))
    pub kept :
        (k : ℕ) → k ≢ idx → has k xs ≡ false → get_elem? self'.tails k ≡ get_elem? self.tails k
    pub size : length self'.tails ≡ length self.tails

  module _ (self : Tail D) (idx : ℕ) (xs : List ℕ) (b : TailBlock D) (f : IsFree self xs)
      (above : 0 < idx) (here : get_elem? self.tails idx ≡ some b) (new : has idx xs ≡ false) where
    abbrev marked : List (TailBlock D)
    marked = set self.tails idx (set_next (pos (first_above idx xs)) (block_default t))

    inside : idx < length self.tails
    inside = get_elem?_lt self.tails idx here

    -- No free block is below `idx`: it becomes the first.
    place-front :
        Ascending idx xs
        → last_below 0 idx xs ≡ 0
        → place idx xs ≡ idx ∷ xs
        → (self' : Tail D) × (unlink t self idx (last_below 0 idx xs, first_above idx xs)
            ≡ ok self')
          × Freed self idx xs self'
    place-front asc ej ep = (
      record { tails = marked; first_free = pos idx },
      rw ej (
          unlink_front t self idx (first_above idx xs) b here (omega (arith, inside, f.small))
            (omega (arith, f.small, first_above-le self.tails self.first_free idx xs f.chain))),
      record {
        free = record {
          chain = rw ep (
            refl,
            (
              _,
              get_elem?-set_self self.tails idx _ inside,
              subst (λ s. Chain marked s xs)
                  (start-above self.tails self.first_free idx xs f.chain asc)
                  (frame self.tails self.first_free xs idx _ new f.chain),
            ),
          );
          sorted = place-Ascending 1 idx xs f.sorted above new;
          small =
              rw (length-set self.tails idx (set_next (pos (first_above idx xs)) (block_default t)))
                f.small;
        };
        blank = (_, get_elem?-set_self self.tails idx _ inside);
        kept = λ k ne out. get_elem?-set_ne self.tails idx k _ (λ e. ne (sym e));
        size = length-set self.tails idx _;
      },
    )

  has-ne : (j k : ℕ) (xs : List ℕ) → has j xs ≡ true → has k xs ≡ false → j ≢ k
  has-ne j k xs h n e = cc

  module _ (self : Tail D) (idx x : ℕ) (ys : List ℕ) (b bx : TailBlock D) (f : IsFree self (x ∷ ys))
      (here : get_elem? self.tails idx ≡ some b) (new : has idx (x ∷ ys) ≡ false) (low : x < idx)
      (gx : get_elem? self.tails x ≡ some bx) (c : Chain self.tails bx.next_free ys) where
    abbrev spliced : List (TailBlock D)
    spliced = set self.tails idx (set_next (pos (first_above idx ys)) (block_default t))

    within : idx < length self.tails
    within = get_elem?_lt self.tails idx here

    abbrev stop : ℕ
    stop = last_below x idx ys

    stop-has : has stop (x ∷ ys) ≡ true
    stop-has = last_below-has x idx ys

    -- Some free block is below `idx`: the last such is linked to it.
    place-after :
        (bj : TailBlock D)
        → get_elem? spliced stop ≡ some bj
        → (self' : Tail D) × (unlink t self idx (stop, first_above idx ys) ≡ ok self')
          × Freed self idx (x ∷ ys) self'
    place-after bj gj =
        let bi : TailBlock D = set_next (pos (first_above idx ys)) (block_default t) in
        let fits : first_above idx ys ≤ length self.tails =
          first_above-le self.tails bx.next_free idx ys c in
        let new' : has idx ys ≡ false = ground arith in
        let size : length (set spliced stop (set_next (pos idx) bj)) ≡ length self.tails =
          length-set spliced stop _ ∙ length-set self.tails idx _ in
        let gi = get_elem?-set_self self.tails idx bi within in
        (
          record self { tails = set spliced stop (set_next (pos idx) bj) },
          unlink_after t self idx stop (first_above idx ys) b bj here
              (positive stop 0 (omega (arith, f.sorted.0, last_below-le x idx ys f.sorted.1))) gj
              (omega (arith, within, f.small)) (omega (arith, f.small)),
          record {
            free = record {
              chain = rw (lt→ltb x idx low) (
                f.chain.0,
                (splice spliced x idx stop ys bx bi bj
                    (get_elem?-set_ne self.tails idx x bi (omega arith) ∙ gx) gi gj refl refl low
                    (frame self.tails bx.next_free ys idx bi new' c) f.sorted.1 new').1,
              );
              sorted = place-Ascending 1 idx (x ∷ ys) f.sorted (omega (arith, f.sorted.0)) new;
              small = subst (λ n. n < 2 ^ 31) (sym size) f.small;
            };
            blank = (
              _,
              get_elem?-set_ne spliced stop idx _ (has-ne stop idx (x ∷ ys) stop-has new) ∙ gi,
            );
            kept = λ k ne out.
                get_elem?-set_ne spliced stop k _ (has-ne stop k (x ∷ ys) stop-has out)
                ∙ get_elem?-set_ne self.tails idx k _ (λ e. ne (sym e));
            size = size;
          },
        )

  unlink-Freed :
      (self : Tail D) (idx : ℕ) (xs : List ℕ) (b : TailBlock D)
      → IsFree self xs
      → 0 < idx
      → get_elem? self.tails idx ≡ some b
      → has idx xs ≡ false
      → (self' : Tail D) × (unlink t self idx (last_below 0 idx xs, first_above idx xs) ≡ ok self')
        × Freed self idx xs self'
  unlink-Freed self idx [] b f above here new =
      place-front self idx [] b f above here new tt refl refl
  unlink-Freed self idx (x ∷ ys) b f above here new = elim (Bool-cases (ltb x idx)) [
    | inl low ↦
        let (bx, gx, c) = f.chain.1 in
        let (bj, gj) =
          Chain-get (spliced self idx x ys b bx f here new (ltb→lt x idx low) gx c) self.first_free
            (last_below x idx ys) (x ∷ ys)
            (frame self.tails self.first_free (x ∷ ys) idx _ new f.chain)
            (last_below-has x idx ys) in
        at-stop (rw low refl)
          (place-after self idx x ys b bx f here new (ltb→lt x idx low) gx c bj gj)
    | inr high ↦ place-front self idx (x ∷ ys) b f above here new (ground arith) (rw high) (rw high)
  ]
    where
      at-stop :
          {p q : ℕ × ℕ}
          → p ≡ q
          → (self' : Tail D) × (unlink t self idx q ≡ ok self') × Freed self idx (x ∷ ys) self'
          → (self' : Tail D) × (unlink t self idx p ≡ ok self') × Freed self idx (x ∷ ys) self'
      at-stop e r = rw e r

  Chain-short :
      (tails : List (TailBlock D)) (start : TrieIndex) (m : ℕ) (xs : List ℕ)
      → Chain tails start xs
      → Ascending m xs
      → m ≤ length tails
      → length xs + m ≤ length tails
  Chain-short tails start m [] c s h = omega arith
  Chain-short tails start m (x ∷ xs) (e, (b, g, c)) s h =
      let inside = get_elem?_lt tails x g in
      omega (arith, Chain-short tails b.next_free (suc x) xs c s.1 inside)

  -- `free_block` of a block in use blanks it and puts it in its place among the free blocks; every
  -- other block in use is as it was, and the search ends within its fuel.
  pub free_block_lem :
      (self : Tail D) (idx : ℕ) (xs : List ℕ)
      → IsFree self xs
      → 0 < idx
      → idx < length self.tails
      → has idx xs ≡ false
      → (self' : Tail D) × (free_block t self (pos (suc idx)) ≡ ok self') × Freed self idx xs self'
  unfolding free_block
  free_block_lem self idx xs f above inside new =
      let (b, here) = get_elem?-some self.tails idx inside in
      let found =
        free_point_lem (suc (length self.tails)) 0 0 idx self.tails self.first_free xs f.chain
          f.sorted
          (omega
            (arith, Chain-short self.tails self.first_free 1 xs f.chain f.sorted (omega arith))) in
      let same : suc idx - 1 ≡ idx = omega arith in
      rw (-ℤ_pos (suc idx) 1 (omega arith) (omega (arith, f.small)), same, found)
        (unlink-Freed self idx xs b f above here new)
