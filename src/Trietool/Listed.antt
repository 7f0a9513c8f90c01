-- ===== src/Trietool/Listed.antt =====
-- About the command `list` of trietool.
use libdatrie_rs.Common.{
  ℕ, zero, suc, ◌≡◌, refl, sym, ap, Option, none, some, List, [], ◌∷◌, length, map,
}
use libdatrie_rs.Common.Int.{ℤ}
use libdatrie_rs.Common.Run.{Run, ok, ◌>>=◌, >>=-eq-ok, ok-inj}
use libdatrie_rs.Types.{AlphaChar}
use libdatrie_rs.Types.Text.{ac_to_string}
use libdatrie_rs.DArray
use libdatrie_rs.DArray.Forest.{Forest, entries}
use libdatrie_rs.Trie.State.{root}
use libdatrie_rs.Trie.Iter.{TrieIterator, iter_new, next}
use libdatrie_rs.Trie.Model.{Represents}
use libdatrie_rs.Trie.Listing.{collect, item, collect_lem}
use libdatrie_rs.CApi.Text.{or_error}
use libdatrie_rs.CApi.Tries.{CTrie}
use libdatrie_rs.Trietool.Commands.{Line, listed, list_from, list}

-- The lines for the items, where all keys are text.
abbrev pub lines_of : List (List AlphaChar × Option (Option ℤ)) → Run (List Line)
lines_of [] = ok []
lines_of (x ∷ xs) = do
  text ← DArray.unwrap (ac_to_string x.0)
  lines ← lines_of xs
  ok (listed text (or_error x.1) ∷ lines)

module _ (trie : CTrie) where
  list_from-collect :
      (fuel : ℕ) (iter : TrieIterator) (xs : List (List AlphaChar × Option (Option ℤ)))
      → collect trie.ro fuel iter ≡ ok xs
      → list_from fuel trie iter ≡ lines_of xs
  unfolding collect list_from
  list_from-collect zero iter xs e = cc
  list_from-collect (suc fuel) iter xs e =
      let (r, e₁, e₂) = >>=-eq-ok (next trie.ro iter) _ e in go (list_from-collect fuel) r e₁ e₂
    where
      go :
          ((iter : TrieIterator) (xs : List (List AlphaChar × Option (Option ℤ)))
            → collect trie.ro fuel iter ≡ ok xs
            → list_from fuel trie iter ≡ lines_of xs)
          → (r : TrieIterator × Option (List AlphaChar × Option (Option ℤ)))
          → next trie.ro iter ≡ ok r
          → (elim r.1 [
            | none ↦ ok []
            | some x ↦ (collect trie.ro fuel r.0 >>= λ items. ok (x ∷ items))
          ])
            ≡ ok xs
          → list_from (suc fuel) trie iter ≡ lines_of xs
      go again (iter', none) e₁ e₂ = rw (e₁, list_from, sym (ok-inj e₂)) refl
      go again (iter', some x) e₁ e₂ =
          let (items, rest, same) = >>=-eq-ok (collect trie.ro fuel iter') _ e₂ in
          rw (e₁, list_from, sym (ok-inj same))
            (ap
              (λ r. DArray.unwrap (ac_to_string x.0) >>= λ text.
                r >>= λ lines. ok (listed text (or_error x.1) ∷ lines))
              (again iter' items rest))

  -- On a trie that holds a tree of fewer than 2^31 cells, with a terminated suffix of at most 2^15
  -- labels for each separate cell, the command list prints a line for each separate cell, in their
  -- order, with its key and its data, -1 for none, and ends; it panics where a key is no text.
  pub list_lem :
      (f : Forest)
      → Represents trie.ro f
      → list (suc (length (entries [] f))) trie ≡ lines_of (map (item trie.ro) (entries [] f))
  unfolding list
  list_lem f h =
      let (collected, ordered) = collect_lem trie.ro f h in
      list_from-collect (suc (length (entries [] f))) (iter_new (root trie.ro))
        (map (item trie.ro) (entries [] f)) collected
