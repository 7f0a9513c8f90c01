-- ===== src/CApi/Tries.antt =====
-- The C functions of src/trie.rs on a trie. Its data are `Option<CTrieData>`.
use libdatrie_rs.Common.{
  ℕ, zero, suc, Bool, true, false, Option, none, some, List, [], if◌then◌else◌,
}
use libdatrie_rs.Common.Int.{ℤ, pos, negsuc}
use libdatrie_rs.Common.Run.{Run, ok, panic, out_of_fuel, err, ◌>>=◌}
use libdatrie_rs.Stream.{Sink, ByteOrder}
use libdatrie_rs.Types.{AlphaChar, TrieData, c_trie_data}
use libdatrie_rs.Symbols.{ArrayVec}
use libdatrie_rs.AlphaMap.{AlphaMap, RangeSet}
use libdatrie_rs.Trie.Defs.{Trie, new, is_dirty, retrieve}
use libdatrie_rs.Trie.Store.{store_conditionally, delete}
use libdatrie_rs.Trie.State.{root}
use libdatrie_rs.Trie.Iter.{TrieIterator, iter_new, next}
use libdatrie_rs.Trie.Serial.{serialize, serialized_size, from_reader, from_file}
use libdatrie_rs.CApi.Text.{
  CBool, c_true, c_false, from_bool, into_bool, or_error, NulCrate, alpha_char_as_slice,
}

abbrev pub CTrie : Type 0
CTrie = Trie (Option ℤ)

unfoldable pub trie_new : AlphaMap → CTrie
trie_new alpha_map = new alpha_map

-- `Ok(trie) = … else { return ptr::null_mut(); }`
abbrev pub ok_or_null {ℓ} : {A : Type ℓ} → Run A → Run (Option A)
ok_or_null panic = panic
ok_or_null out_of_fuel = out_of_fuel
ok_or_null (err failure) = ok none
ok_or_null (ok a) = ok (some a)

module _ (b : ByteOrder) where
  -- The file is the bytes to come; what is left of them is returned with the trie.
  unfoldable pub trie_fread : RangeSet → List ℕ → Run (Option (CTrie × List ℕ))
  trie_fread rangemap file = ok_or_null (from_reader b (c_trie_data b) rangemap file)

  unfoldable pub trie_new_from_file : RangeSet → Run (List ℕ) → Run (Option CTrie)
  trie_new_from_file rangemap opened = ok_or_null (from_file b (c_trie_data b) rangemap opened)

  unfoldable pub trie_get_serialized_size : CTrie → Run ℕ
  trie_get_serialized_size trie = serialized_size b (c_trie_data b) trie

  -- `slice::from_raw_parts_mut(ptr, size)`: a writer with room for so many bytes.
  unfoldable pub trie_serialize : CTrie → Run (CTrie × List ℕ)
  trie_serialize trie = do
    size ← serialized_size b (c_trie_data b) trie
    done ← ok_or_null (serialize b (c_trie_data b) trie (record { written = []; room = some size }))
    elim done [ none ↦ panic | some (trie, cursor) ↦ ok (trie, cursor.written) ]

  -- Where the file fails, what it holds is not told.
  unfoldable pub trie_fwrite : CTrie → Sink → Run (CTrie × Option Sink × ℤ)
  trie_fwrite trie file = do
    done ← ok_or_null (serialize b (c_trie_data b) trie file)
    elim done [ none ↦ ok (trie, none, negsuc 0) | some (trie, file) ↦ ok (trie, some file, pos 0) ]

unfoldable pub trie_is_dirty : CTrie → CBool
trie_is_dirty trie = from_bool (is_dirty trie)

module _ (nul : NulCrate) where
  -- The second part is what is written to `o_data`, where that is not null.
  unfoldable pub trie_retrieve : CTrie → List AlphaChar → Bool → Run (CBool × Option ℤ)
  trie_retrieve trie key o_data_is_null = do
    found ← retrieve trie (alpha_char_as_slice nul key)
    ok (elim found [
      | none ↦ (c_false, none)
      | some v ↦ (c_true, if o_data_is_null then none else some (or_error (some v)))
    ])

  module _ (v : ArrayVec) (t : TrieData (Option ℤ)) where
    unfoldable pub trie_store : CTrie → List AlphaChar → ℤ → Run (CTrie × CBool)
    trie_store trie key value = do
      (trie, done) ← store_conditionally v t trie (alpha_char_as_slice nul key) (some value) true
      ok (trie, from_bool done)

    unfoldable pub trie_store_if_absent : CTrie → List AlphaChar → ℤ → Run (CTrie × CBool)
    trie_store_if_absent trie key value = do
      (trie, done) ← store_conditionally v t trie (alpha_char_as_slice nul key) (some value) false
      ok (trie, from_bool done)

    unfoldable pub trie_delete : CTrie → List AlphaChar → Run (CTrie × CBool)
    trie_delete trie key = do
      (trie, done) ← delete v t trie (alpha_char_as_slice nul key)
      ok (trie, from_bool done)

-- `TrieEnumFunc`: a key, its data and the user data, which it may change.
abbrev pub EnumFunc : Type 0 → Type 0
EnumFunc U = List AlphaChar → ℤ → U → U × CBool

module _ {U : Type 0} (trie : CTrie) (enum_func : EnumFunc U) where
  -- `for (key, data) in trie.iter() { cont = enum_func(…) }`, from here on.
  unfoldable pub enumerate_loop : ℕ → TrieIterator → U → Bool → Run (U × Bool)
  enumerate_loop zero iter user_data cont = out_of_fuel
  enumerate_loop (suc fuel) iter user_data cont = do
    (iter, found) ← next trie.ro iter
    elim found [
      | none ↦ ok (user_data, cont)
      | some (key, value) ↦
          (let (user_data, again) = enum_func key (or_error value) user_data in
            enumerate_loop fuel iter user_data (into_bool again))
    ]

  -- A trie that holds a tree takes one round more than it has separate cells.
  unfoldable pub trie_enumerate : ℕ → U → Run (U × CBool)
  trie_enumerate fuel user_data = do
    (user_data, cont) ← enumerate_loop fuel (iter_new (root trie.ro)) user_data true
    ok (user_data, from_bool cont)
