-- ===== src/Tail/Free.antt =====
-- The chain of free blocks: `alloc_block` takes its first, `free_block` puts one in its place.
use libdatrie_rs.Common.{
  ℕ, zero, suc, ◌^◌, ◌≤◌, ◌<◌, ◌≡◌, refl, subst, ◌∙◌, true, false, some, List, [], ◌∷◌, arith, ltb,
  ◌==◌, if◌then◌else◌, length, get_elem?, set, has, Ascending, has-below, place, ltb→lt, ==_iff,
  Bool-cases, inl, inr, get_elem?-set_self, get_elem?-set_ne, get_elem?_lt,
}
use libdatrie_rs.Common.Int.{pos, as_i32-small, as_usize}
use libdatrie_rs.Common.Run.{ok}
use libdatrie_rs.Types.{TrieIndex, TrieData}
use libdatrie_rs.Tail.Defs.{TailBlock, Tail, index, free_point, set_next, block_default, unlink}

-- The two indices at which the search stops.
abbrev pub last_below : ℕ → ℕ → List ℕ → ℕ
last_below j idx [] = j
last_below j idx (x ∷ xs) = if ltb x idx then last_below x idx xs else j

abbrev pub first_above : ℕ → List ℕ → ℕ
first_above idx [] = 0
first_above idx (x ∷ xs) = if ltb x idx then first_above idx xs else x

pub last_below-le : (j idx : ℕ) (xs : List ℕ) → Ascending (suc j) xs → j ≤ last_below j idx xs
last_below-le j idx [] s = omega arith
last_below-le j idx (x ∷ xs) s = ground (arith, last_below-le x idx xs s.1)

pub last_below-has : (x idx : ℕ) (xs : List ℕ) → has (last_below x idx xs) (x ∷ xs) ≡ true
last_below-has x idx [] = ground arith
last_below-has x idx (y ∷ ys) = ground (arith, last_below-has y idx ys)

pub positive : (x m : ℕ) → suc m ≤ x → (x == 0) ≡ false
positive x m h = ground arith

module _ {D : Type 0} where
  -- From `start` the fields `next_free` lead through the blocks `xs` to the end mark 0.
  abbrev pub Chain : List (TailBlock D) → TrieIndex → List ℕ → Type 0
  Chain tails start [] = start ≡ pos 0
  Chain tails start (x ∷ xs) =
      (start ≡ pos x)
      × ((b : TailBlock D) × (get_elem? tails x ≡ some b) × Chain tails b.next_free xs)

  -- The free blocks are `xs`. Block 0 is never among them, as its index is the end mark.
  pub record IsFree (self : Tail D) (xs : List ℕ) : Type 0 where
    pub chain : Chain self.tails self.first_free xs
    pub sorted : Ascending 1 xs
    pub small : length self.tails < 2 ^ 31

  pub frame :
      (tails : List (TailBlock D)) (start : TrieIndex) (xs : List ℕ) (j : ℕ) (v : TailBlock D)
      → has j xs ≡ false
      → Chain tails start xs
      → Chain (set tails j v) start xs
  frame tails start [] j v out c = c
  frame tails start (x ∷ xs) j v out (e, (b, g, c)) = (
    e,
    (
      b,
      get_elem?-set_ne tails j x v (ground arith) ∙ g,
      frame tails b.next_free xs j v (ground arith) c,
    ),
  )

  pub free_point_lem :
      (fuel m j idx : ℕ) (tails : List (TailBlock D)) (start : TrieIndex) (xs : List ℕ)
      → Chain tails start xs
      → Ascending (suc m) xs
      → length xs < fuel
      → free_point fuel tails idx j (as_usize start) ≡ ok (last_below j idx xs, first_above idx xs)
  unfolding free_point
  free_point_lem zero m j idx tails start xs c s h = absurd (omega arith)
  free_point_lem (suc fuel) m j idx tails start [] c s h = rw c
  free_point_lem (suc fuel) m j idx tails start (x ∷ xs) (e, (b, g, c)) s h =
      rw e
        (ground (arith, positive x m s.0, free_point_lem fuel x x idx tails b.next_free xs c s.1))

  pub start-above :
      (tails : List (TailBlock D)) (start : TrieIndex) (idx : ℕ) (xs : List ℕ)
      → Chain tails start xs
      → Ascending idx xs
      → start ≡ pos (first_above idx xs)
  start-above tails start idx [] c s = c
  start-above tails start idx (x ∷ xs) c s = ground arith

  pub first_above-le :
      (tails : List (TailBlock D)) (start : TrieIndex) (idx : ℕ) (xs : List ℕ)
      → Chain tails start xs
      → first_above idx xs ≤ length tails
  first_above-le tails start idx [] c = omega arith
  first_above-le tails start idx (x ∷ xs) (e, (b, g, c)) =
      ground (arith, first_above-le tails b.next_free idx xs c, get_elem?_lt tails x g)

  -- The block at which the search stopped is linked to `idx`, which is linked to the rest.
  pub splice :
      (tails : List (TailBlock D)) (x idx j : ℕ) (xs : List ℕ) (b bi bj : TailBlock D)
      → get_elem? tails x ≡ some b
      → get_elem? tails idx ≡ some bi
      → get_elem? tails j ≡ some bj
      → last_below x idx xs ≡ j
      → bi.next_free ≡ pos (first_above idx xs)
      → x < idx
      → Chain tails b.next_free xs
      → Ascending (suc x) xs
      → has idx xs ≡ false
      → Chain (set tails j (set_next (pos idx) bj)) (pos x) (x ∷ place idx xs)
  splice tails x idx j [] b bi bj g gi gj ej next lt c s new = (
    refl,
    (
      set_next (pos idx) bj,
      subst (λ k. get_elem? (set tails k (set_next (pos idx) bj)) x ≡ some (set_next (pos idx) bj))
          ej (get_elem?-set_self tails x _ (get_elem?_lt tails x g)),
      (refl, (bi, get_elem?-set_ne tails j idx _ (omega arith) ∙ gi, next)),
    ),
  )
  splice tails x idx j (y ∷ ys) b bi bj g gi gj ej next lt (e, (b', g', c)) s new =
      elim (Bool-cases (ltb y idx)) [
        | inl go ↦
            let ej' : last_below y idx ys ≡ j = rw go at ej in
            let rest =
              splice tails y idx j ys b' bi bj g' gi gj ej' (rw go at next) (ltb→lt y idx go) c s.1
                (ground arith) in
            rw go (
              refl,
              (
                b,
                get_elem?-set_ne tails j x _ (omega (arith, last_below-le y idx ys s.1)) ∙ g,
                (e, rest.1),
              ),
            )
        | inr stop ↦
            let ej' : x ≡ j = rw stop at ej in
            let (_, c') =
              frame tails b.next_free (y ∷ ys) j (set_next (pos idx) bj)
                (subst (λ k. has k (y ∷ ys) ≡ false) ej'
                  (has-below (suc x) x (y ∷ ys) s (omega arith)))
                (e, (b', g', c)) in
            rw stop (
              refl,
              (
                set_next (pos idx) bj,
                subst
                    (λ k.
                      get_elem? (set tails k (set_next (pos idx) bj)) x
                      ≡ some (set_next (pos idx) bj))
                    ej' (get_elem?-set_self tails x _ (get_elem?_lt tails x g)),
                (
                  refl,
                  (bi, get_elem?-set_ne tails j idx _ (omega arith) ∙ gi, (rw stop at next, c')),
                ),
              ),
            )
      ]

  pub Chain-get :
      (tails : List (TailBlock D)) (start : TrieIndex) (k : ℕ) (xs : List ℕ)
      → Chain tails start xs
      → has k xs ≡ true
      → (b : TailBlock D) × (get_elem? tails k ≡ some b)
  Chain-get tails start k [] c h = cc
  Chain-get tails start k (x ∷ xs) (e, (b, g, c)) h = elim (Bool-cases (x == k)) [
    | inl same ↦ (b, subst (λ n. get_elem? tails n ≡ some b) ((==_iff x k).0 same) g)
    | inr other ↦ Chain-get tails b.next_free k xs c (ground arith)
  ]

module _ {D : Type 0} (t : TrieData D) where
  pub unlink_front :
      (self : Tail D) (idx i : ℕ) (b : TailBlock D)
      → get_elem? self.tails idx ≡ some b
      → idx < 2 ^ 31
      → i < 2 ^ 31
      → unlink t self idx (0, i)
        ≡ ok (record {
          tails = set self.tails idx (set_next (pos i) (block_default t));
          first_free = pos idx;
        })
  unfolding unlink
  unlink_front self idx i b here h k = rw (here, unlink, as_i32-small idx h, as_i32-small i k)

  pub unlink_after :
      (self : Tail D) (idx j i : ℕ) (b bj : TailBlock D)
      → get_elem? self.tails idx ≡ some b
      → (j == 0) ≡ false
      → get_elem? (set self.tails idx (set_next (pos i) (block_default t))) j ≡ some bj
      → idx < 2 ^ 31
      → i < 2 ^ 31
      → unlink t self idx (j, i)
        ≡ ok (record self {
          tails =
              set
                (set self.tails idx (set_next (pos i) (block_default t)))
                j
                (set_next (pos idx) bj);
        })
  unfolding unlink index
  unlink_after self idx j i b bj here ne gj h k =
      rw (here, unlink, ne, as_i32-small idx h, as_i32-small i k, gj, index)
