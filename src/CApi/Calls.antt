-- ===== src/CApi/Calls.antt =====
-- About calls through the C interface: storing and retrieving, and the enumeration of all keys.
use libdatrie_rs.Common.{
  ℕ, zero, suc, ◌^◌, ◌≤◌, ◌<◌, ◌≡◌, refl, sym, ap, ◌≢◌, Bool, true, false, Option, none, some, List,
  [], ◌∷◌, ◌++◌, arith, length, map, All,
}
use libdatrie_rs.Common.Int.{ℤ}
use libdatrie_rs.Common.Run.{ok, ◌>>=◌, >>=-eq-ok, ok-inj}
use libdatrie_rs.Types.{AlphaChar, TrieChar, TrieData}
use libdatrie_rs.Symbols.{ArrayVec}
use libdatrie_rs.AlphaMap.{AlphaMap}
use libdatrie_rs.DArray.Forest.{Forest, entries}
use libdatrie_rs.Trie.Store.{store}
use libdatrie_rs.Trie.State.{root}
use libdatrie_rs.Trie.Iter.{TrieIterator, iter_new, next}
use libdatrie_rs.Trie.Model.{Represents}
use libdatrie_rs.Trie.Pick.{eqb_list}
use libdatrie_rs.Trie.Compare.{Spells}
use libdatrie_rs.Trie.Listing.{collect, item, collect_lem}
use libdatrie_rs.Trie.Start.{store-new}
use libdatrie_rs.CApi.Text.{
  c_true, c_false, from_bool, into_bool, or_error, NulCrate, alpha_char_as_slice,
  as_slice-terminated,
}
use libdatrie_rs.CApi.Tries.{
  CTrie, trie_new, trie_store, trie_retrieve, EnumFunc, enumerate_loop, trie_enumerate,
}

Spells-text :
    (am : AlphaMap) (str : List AlphaChar) (ls : List TrieChar)
    → Spells am str ls
    → All (λ c. c ≢ 0) str × (length str ≡ length ls)
Spells-text am [] [] h = (tt, refl)
Spells-text am [] (l ∷ ls) h = elim h [ ]
Spells-text am (c ∷ str) [] h = elim h [ ]
Spells-text am (c ∷ str) (l ∷ ls) h =
    let (text, same) = Spells-text am str ls h.1 in ((h.0.no_null, text), ap suc same)

module _ (nul : NulCrate) (v : ArrayVec) (t : TrieData (Option ℤ)) (am : AlphaMap) where
  slice-Spells :
      (str memory : List AlphaChar) (ls : List TrieChar)
      → Spells am str ls
      → length ls < 2 ^ 31
      → alpha_char_as_slice nul (str ++ (0 ∷ memory)) ≡ str ++ (0 ∷ [])
  slice-Spells str memory ls spells small =
      let (text, same) = Spells-text am str ls spells in
      as_slice-terminated nul str memory text (omega (arith, same))

  -- On a trie from trie_new, trie_store of a null-terminated string of characters whose labels are
  -- 1 to 255, of fewer than 2^15 - 1 characters, returns TRUE, whatever follows it in memory;
  -- trie_retrieve of the string then returns TRUE and the data, and of any string shorter than 2^31
  -- with other labels from 1 to 255 FALSE.
  pub trie_store-trie_retrieve :
      (str memory : List AlphaChar) (ls : List TrieChar) (value : ℤ)
      → Spells am str ls
      → suc (suc (length ls)) ≤ 2 ^ 15
      → (trie : CTrie) × (trie_store nul v t (trie_new am) (str ++ (0 ∷ memory)) value
          ≡ ok (trie, c_true))
        × ((memory' : List AlphaChar)
            → trie_retrieve nul trie (str ++ (0 ∷ memory')) false ≡ ok (c_true, some value))
        × ((other memory' : List AlphaChar) (ls' : List TrieChar)
            → Spells am other ls'
            → length ls' < 2 ^ 31
            → eqb_list ls ls' ≡ false
            → trie_retrieve nul trie (other ++ (0 ∷ memory')) false ≡ ok (c_false, none))
  unfolding trie_store trie_new trie_retrieve store
  trie_store-trie_retrieve str memory ls value spells short =
      let (trie, run, stored, absent) = store-new v t am str ls spells short (some value) in
      let small : length ls < 2 ^ 31 = omega (arith, short) in
      (
        trie,
        rw (slice-Spells str memory ls spells small, run) refl,
        λ memory'. rw (slice-Spells str memory' ls spells small, stored.found) refl,
        λ other memory' ls' spells' small' ne.
            rw (slice-Spells other memory' ls' spells' small', absent other ls' spells' ne) refl,
      )

module _ {U : Type 0} (trie : CTrie) (enum_func : EnumFunc U) where
  -- The function is called for all items, one after the other, whatever it returns.
  abbrev pub visit_all : List (List AlphaChar × Option (Option ℤ)) → U → Bool → U × Bool
  visit_all [] user_data cont = (user_data, cont)
  visit_all (x ∷ xs) user_data cont =
      let r = enum_func x.0 (or_error x.1) user_data in visit_all xs r.0 (into_bool r.1)

  enumerate-collect :
      (fuel : ℕ) (iter : TrieIterator) (user_data : U) (cont : Bool)
      (xs : List (List AlphaChar × Option (Option ℤ)))
      → collect trie.ro fuel iter ≡ ok xs
      → enumerate_loop trie enum_func fuel iter user_data cont ≡ ok (visit_all xs user_data cont)
  unfolding collect enumerate_loop
  enumerate-collect zero iter user_data cont xs e = cc
  enumerate-collect (suc fuel) iter user_data cont xs e =
      let (r, e₁, e₂) = >>=-eq-ok (next trie.ro iter) _ e in go (enumerate-collect fuel) r e₁ e₂
    where
      go :
          ((iter : TrieIterator) (user_data : U) (cont : Bool)
              (xs : List (List AlphaChar × Option (Option ℤ)))
            → collect trie.ro fuel iter ≡ ok xs
            → enumerate_loop trie enum_func fuel iter user_data cont
              ≡ ok (visit_all xs user_data cont))
          → (r : TrieIterator × Option (List AlphaChar × Option (Option ℤ)))
          → next trie.ro iter ≡ ok r
          → (elim r.1 [
            | none ↦ ok []
            | some x ↦ (collect trie.ro fuel r.0 >>= λ items. ok (x ∷ items))
          ])
            ≡ ok xs
          → enumerate_loop trie enum_func (suc fuel) iter user_data cont
            ≡ ok (visit_all xs user_data cont)
      go again (iter', none) e₁ e₂ = rw (e₁, enumerate_loop, sym (ok-inj e₂)) refl
      go again (iter', some x) e₁ e₂ =
          let (items, rest, same) = >>=-eq-ok (collect trie.ro fuel iter') _ e₂ in
          let r = enum_func x.0 (or_error x.1) user_data in
          rw (e₁, enumerate_loop, sym (ok-inj same)) (again iter' r.0 (into_bool r.1) items rest)

  -- On a trie that holds a tree of fewer than 2^31 cells, with a terminated suffix of at most 2^15
  -- labels for each separate cell, trie_enumerate calls the function for the keys and the data of
  -- all separate cells, in their order, and ends. It goes on after a call that returns FALSE, and
  -- returns what the last call returned, or TRUE without one.
  pub trie_enumerate_lem :
      (f : Forest)
      → Represents trie.ro f
      → (user_data : U)
      → trie_enumerate trie enum_func (suc (length (entries [] f))) user_data
        ≡ ok (
          (visit_all (map (item trie.ro) (entries [] f)) user_data true).0,
          from_bool (visit_all (map (item trie.ro) (entries [] f)) user_data true).1,
        )
  unfolding trie_enumerate
  trie_enumerate_lem f h user_data =
      let (listed, ordered) = collect_lem trie.ro f h in
      rw
        (enumerate-collect (suc (length (entries [] f))) (iter_new (root trie.ro)) user_data true
          (map (item trie.ro) (entries [] f)) listed)
        refl
