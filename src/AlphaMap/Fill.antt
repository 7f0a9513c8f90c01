-- ===== src/AlphaMap/Fill.antt =====
-- The loop of `recalc_work_area`: each character gets the next label, in both tables.
use libdatrie_rs.Common.{
  ℕ, zero, suc, ◌+◌, ◌-◌, ◌^◌, ◌≤◌, ◌<◌, ◌≡◌, refl, sym, subst, ◌∙◌, false, some, List, [], ◌∷◌,
  arith, length, get_elem?, set, has, Ascending, has-below, All, lt→ltb, get_elem?-set_self,
  get_elem?-set_ne, length-set,
}
use libdatrie_rs.Common.Int.{pos, ◌+ℤ◌, +ℤ_one}
use libdatrie_rs.Common.Run.{ok}
use libdatrie_rs.Types.{TrieIndex, AlphaChar}
use libdatrie_rs.AlphaMap.Defs.{Work, write_at, assign}
use libdatrie_rs.AlphaMap.Chars.{fill_list}

abbrev pub work : TrieIndex → List TrieIndex → List AlphaChar → Work
work c to_trie to_alpha = record { trie_char = c; to_trie = to_trie; to_alpha = to_alpha }

-- After the characters `cs` got the labels from `k` on, and no other entry was written.
pub record Filled (alpha_begin k : ℕ) (cs : List AlphaChar) (v w : Work) : Type 0 where
  pub length_to_trie : length w.to_trie ≡ length v.to_trie
  pub length_to_alpha : length w.to_alpha ≡ length v.to_alpha
  pub hit :
      (i c : ℕ)
      → get_elem? cs i ≡ some c
      → (get_elem? w.to_trie (c - alpha_begin) ≡ some (pos (k + i)))
        × (get_elem? w.to_alpha (k + i) ≡ some c)
  pub miss_trie :
      (a : AlphaChar)
      → alpha_begin ≤ a
      → has a cs ≡ false
      → get_elem? w.to_trie (a - alpha_begin) ≡ get_elem? v.to_trie (a - alpha_begin)
  pub miss_alpha : (j : ℕ) → j < k → get_elem? w.to_alpha j ≡ get_elem? v.to_alpha j

write_at-ok :
    {A : Type 0} (xs : List A) (i : ℕ) (a : A) → i < length xs → write_at xs i a ≡ ok (set xs i a)
unfolding write_at
write_at-ok xs i a h = rw (lt→ltb i (length xs) h)

assign_lem :
    (alpha_begin c k : ℕ) (to_trie : List TrieIndex) (to_alpha : List AlphaChar)
    → 1 ≤ k
    → suc k < 2 ^ 31
    → c - alpha_begin < length to_trie
    → k < length to_alpha
    → assign alpha_begin c (work (pos k) to_trie to_alpha)
      ≡ ok (work (pos (suc k)) (set to_trie (c - alpha_begin) (pos k)) (set to_alpha k c))
unfolding assign
assign_lem alpha_begin c k to_trie to_alpha h small p q = ground (
  arith,
  +ℤ_one k small,
  write_at-ok to_trie (c - alpha_begin) (pos k) p,
  write_at-ok to_alpha k c q,
)

-- The first character gets the label 1, as 0 is the terminator.
pub assign_first :
    (alpha_begin c : ℕ) (to_trie : List TrieIndex) (to_alpha : List AlphaChar)
    → assign alpha_begin c (work (pos 0) to_trie to_alpha)
      ≡ assign alpha_begin c (work (pos 1) to_trie to_alpha)
unfolding assign ◌+ℤ◌ write_at
assign_first alpha_begin c to_trie to_alpha = refl

module _ (alpha_begin : ℕ) where
  Filled-cons :
      (k c : ℕ) (cs : List AlphaChar) (to_trie : List TrieIndex) (to_alpha : List AlphaChar)
      (w : Work)
      → alpha_begin ≤ c
      → Ascending (suc c) cs
      → c - alpha_begin < length to_trie
      → k < length to_alpha
      → Filled alpha_begin
          (suc k)
          cs
          (work (pos (suc k)) (set to_trie (c - alpha_begin) (pos k)) (set to_alpha k c))
          w
      → Filled alpha_begin k (c ∷ cs) (work (pos k) to_trie to_alpha) w
  Filled-cons k c cs to_trie to_alpha w le s p q f = record {
    length_to_trie = f.length_to_trie ∙ length-set to_trie _ _;
    length_to_alpha = f.length_to_alpha ∙ length-set to_alpha _ _;
    hit = at;
    miss_trie = λ a h out.
        f.miss_trie a h (ground arith)
        ∙ get_elem?-set_ne to_trie (c - alpha_begin) (a - alpha_begin) _ (ground arith);
    miss_alpha =
        λ j h. f.miss_alpha j (omega arith) ∙ get_elem?-set_ne to_alpha k j _ (omega arith);
  }
    where
      at :
          (i d : ℕ)
          → get_elem? (c ∷ cs) i ≡ some d
          → (get_elem? w.to_trie (d - alpha_begin) ≡ some (pos (k + i)))
            × (get_elem? w.to_alpha (k + i) ≡ some d)
      at zero d e =
          let same : c ≡ d = ground arith in
          let flat : k + 0 ≡ k = omega arith in
          subst
            (λ d.
              (get_elem? w.to_trie (d - alpha_begin) ≡ some (pos (k + 0)))
              × (get_elem? w.to_alpha (k + 0) ≡ some d))
            same
            (rw flat (
              f.miss_trie c le (has-below (suc c) c cs s (omega arith))
                  ∙ get_elem?-set_self to_trie (c - alpha_begin) (pos k) p,
              f.miss_alpha k (omega arith) ∙ get_elem?-set_self to_alpha k c q,
            ))
      at (suc i) d e = let next : k + suc i ≡ suc k + i = omega arith in rw next (f.hit i d e)

  pub fill_list_lem :
      (k m : ℕ) (cs : List AlphaChar) (to_trie : List TrieIndex) (to_alpha : List AlphaChar)
      → 1 ≤ k
      → alpha_begin ≤ m
      → Ascending m cs
      → All (λ c. c - alpha_begin < length to_trie) cs
      → k + length cs ≤ length to_alpha
      → k + length cs < 2 ^ 31
      → (w : Work) × (fill_list alpha_begin cs (work (pos k) to_trie to_alpha) ≡ ok w)
        × Filled alpha_begin k cs (work (pos k) to_trie to_alpha) w
  unfolding fill_list
  fill_list_lem k m [] to_trie to_alpha h le s p q r = (
    work (pos k) to_trie to_alpha,
    refl,
    record {
      length_to_trie = refl;
      length_to_alpha = refl;
      hit = λ i c e. cc;
      miss_trie = λ a g out. refl;
      miss_alpha = λ j g. refl;
    },
  )
  fill_list_lem k m (c ∷ cs) to_trie to_alpha h le s p q r =
      let (w, e, f) =
        fill_list_lem (suc k) (suc c) cs (set to_trie (c - alpha_begin) (pos k)) (set to_alpha k c)
          (omega arith) (omega arith) s.1
          (subst (λ n. All (λ d. d - alpha_begin < n) cs)
            (sym (length-set to_trie (c - alpha_begin) (pos k))) p.1)
          (rw (length-set to_alpha k c) (omega arith)) (omega arith) in
      (
        w,
        rw (assign_lem alpha_begin c k to_trie to_alpha h (omega arith) p.0 (omega arith)) e,
        Filled-cons k c cs to_trie to_alpha w (omega arith) s.1 p.0 (omega arith) f,
      )
