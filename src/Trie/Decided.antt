-- ===== src/Trie/Decided.antt =====
-- `store`, `store_if_absent` and `delete`, by what `retrieve` of the key finds.
use libdatrie_rs.Common.{
  ◌≡◌, ◌≢◌, refl, sym, ◌∙◌, true, false, Option, none, some, List, [], ◌∷◌, ◌++◌, All,
  if◌then◌else◌,
}
use libdatrie_rs.Common.Int.{pos}
use libdatrie_rs.Common.Run.{ok, ◌>>=◌, >>=-eq-ok, ok-inj}
use libdatrie_rs.Types.{TrieIndex, AlphaChar, TrieData, alpha_char_error}
use libdatrie_rs.Symbols.{ArrayVec}
use libdatrie_rs.DArray
use libdatrie_rs.Tail
use libdatrie_rs.Tail.SetData.{set_data_lem}
use libdatrie_rs.Trie.Defs.{
  Trie, Branches, reached, missing, refused, Suffix, matched, differs, unknown, walk_branches,
  walk_tail, retrieve, is_dirty,
}
use libdatrie_rs.Trie.Store.{
  store, store_if_absent, store_conditionally, store_reached, delete, delete_reached,
}
use libdatrie_rs.Trie.Found.{RetrieveFound, ro_retrieve-found}
use libdatrie_rs.Trie.Outcome.{is_match, block_walked, walk_branches-retrieve_branches}
use libdatrie_rs.Trie.Present.{here, fetch, retrieve-fetch}
use libdatrie_rs.Trie.Replace.{retrieve-replaced}

module _ {D : Type 0} (v : ArrayVec) (t : TrieData D) (self : Trie D) (key : List AlphaChar)
    (plain : All (λ c. c ≢ 0) key) (value : D) where
  abbrev pub terminated : List AlphaChar
  terminated = key ++ (0 ∷ [])

  -- What the three calls come to where `retrieve` finds nothing, and where it finds data.
  abbrev pub Decided : Option D → Type 0
  Decided none =
      (store_if_absent v t self terminated value ≡ store v t self terminated value)
      × (delete v t self terminated ≡ ok (self, false))
  Decided (some d) =
      (store_if_absent v t self terminated value ≡ ok (self, false))
      × ((self' : Trie D) × (store v t self terminated value ≡ ok (self', true))
          × (is_dirty self' ≡ true)
          × (retrieve self' terminated ≡ ok (some value)))

  absent-reached :
      (s u : TrieIndex) (p : List AlphaChar) (x : Suffix)
      → walk_branches self.ro (DArray.get_root self.ro.da) terminated ≡ ok (reached s p)
      → DArray.get_tail_index self.ro.da s ≡ ok u
      → walk_tail self.ro u (pos 0) p ≡ ok x
      → ok (if is_match x then some u else none) ≡ ok none
      → Decided none
  unfolding store store_if_absent store_conditionally store_reached delete delete_reached
  absent-reached s u p matched e e₁ e₂ h = cc
  absent-reached s u p differs e e₁ e₂ h =
      (rw (e, store_reached, e₁, e₂) refl, rw (e, delete_reached, e₁, e₂) refl)
  absent-reached s u p unknown e e₁ e₂ h =
      (rw (e, store_reached, e₁, e₂) refl, rw (e, delete_reached, e₁, e₂) refl)

  absent :
      (w : Branches)
      → walk_branches self.ro (DArray.get_root self.ro.da) terminated ≡ ok w
      → block_walked self.ro w ≡ ok none
      → Decided none
  unfolding store store_if_absent store_conditionally delete
  absent refused e k = (rw e refl, rw e refl)
  absent (missing s p) e k = (rw e refl, rw e refl)
  absent (reached s p) e k =
      let (u, e₁, k₁) = >>=-eq-ok (DArray.get_tail_index self.ro.da s) _ k in
      let (found, k₂, k₃) =
        >>=-eq-ok (walk_tail self.ro u (pos 0) p >>= λ x. ok (is_match x)) _ k₁ in
      let (x, e₂, k₄) = >>=-eq-ok (walk_tail self.ro u (pos 0) p) _ k₂ in
      absent-reached s u p x e e₁ e₂ (rw (ok-inj k₄) k₃)

  unwrapped : (o : Option TrieIndex) → fetch self.ro o ≡ ok none → o ≡ none
  unwrapped none h = refl
  unwrapped (some u) h =
      let (d, e, k) = >>=-eq-ok (DArray.unwrap (Tail.get_data self.ro.tail u)) _ h in cc

  present : (d : D) → RetrieveFound self.ro terminated d → Decided (some d)
  unfolding store store_if_absent store_conditionally store_reached is_dirty retrieve
  present d found =
      let at_block = here self.ro terminated found.t (
        walk_branches-retrieve_branches self.ro (DArray.get_root self.ro.da) alpha_char_error key
          plain
        ∙ rw (found.walked, found.at, found.matched) refl) in
      let replaced = set_data_lem self.ro.tail found.t value d found.data_ in
      (
        rw (at_block.walked, store_reached, at_block.at, at_block.whole) refl,
        (
          _,
          rw (at_block.walked, store_reached, at_block.at, at_block.whole) refl,
          refl,
          retrieve-replaced self.ro _ replaced.same_suffixes terminated d value found
              replaced.new_data,
        ),
      )

  -- Where Trie::retrieve finds no data of a null-terminated key, Trie::store_if_absent does what
  -- Trie::store does, and Trie::delete returns false and changes nothing. Where it finds data,
  -- store_if_absent returns false and changes nothing, and store succeeds, makes the trie dirty, and
  -- retrieve then finds the new data.
  pub retrieve-Decided : (r : Option D) → retrieve self terminated ≡ ok r → Decided r
  unfolding retrieve
  retrieve-Decided none h =
      let (o, e, k) =
        >>=-eq-ok
          (walk_branches self.ro (DArray.get_root self.ro.da) terminated >>= block_walked self.ro)
          (fetch self.ro) (retrieve-fetch self.ro key plain ∙ h) in
      let gone = unwrapped o k in
      let (w, e₁, e₂) =
        >>=-eq-ok (walk_branches self.ro (DArray.get_root self.ro.da) terminated) _ e in
      absent w e₁ (rw (sym gone) e₂)
  retrieve-Decided (some d) h = present d (ro_retrieve-found self.ro terminated d h)
