-- ===== src/Types/Data.antt =====
-- The implementations of the traits in src/types.rs and src/types_c.rs.
use libdatrie_rs.Common.{
  ℕ, ◌+◌, ◌^◌, ltb, Option, none, some, List, [], ◌∷◌, length, ◌==◌, if◌then◌else◌,
}
use libdatrie_rs.Common.Int.{ℤ, pos, negsuc, eqb_ℤ}
use libdatrie_rs.Common.Run.{Run, ok, panic, err, invalid_data, unexpected_eof, ◌>>=◌}
use libdatrie_rs.Stream.{Writer, Reader, write, write_all, read_exact, ByteOrder}
use libdatrie_rs.Types.Defs.{TrieData, serialized_size_default}

-- `read_u8`
read_u8 : Reader ℕ
read_u8 [] = err unexpected_eof
read_u8 (b ∷ bs) = ok (b, bs)

module _ {A : Type 0} (t : TrieData A) where
  open t use {serialize, serialized_size, deserialize}

  serialize_option : Option A → Writer
  unfolding write_all
  serialize_option (some v) s = do s ← write_all (1 ∷ []) s; serialize v s
  serialize_option none s = write_all (0 ∷ []) s

  serialized_size_option : Option A → Run ℕ
  serialized_size_option (some v) = do n ← serialized_size v; ok (1 + n)
  serialized_size_option none = ok 1

  deserialize_option : Reader (Option A)
  unfolding read_u8
  deserialize_option bs = do
    (exists, rest) ← read_u8 bs
    if exists == 1
        then (do (v, rest) ← deserialize rest; ok (some v, rest))
        else if exists == 0
        then ok (none, rest)
        else err invalid_data

  unfoldable pub option_data : TrieData (Option A)
  unfolding serialize_option serialized_size_option deserialize_option
  option_data = record {
    default = none;
    serialize = serialize_option;
    serialized_size = serialized_size_option;
    deserialize = deserialize_option;
  }

module _ (b : ByteOrder) where
  open b use {bytes_i32, bytes_u64, read_i32, read_u64}

  unfoldable pub i32_data : TrieData ℤ
  i32_data = record {
    default = pos 0;
    serialize = λ v. write_all (bytes_i32 v);
    serialized_size = λ v. ok 4;
    deserialize = read_i32;
  }

  serialize_vec : List ℕ → Writer
  serialize_vec v s = do s ← write_all (bytes_u64 (length v)) s; write v s

  -- `vec![0; len]` panics where `len` is above `isize::MAX`.
  deserialize_vec : Reader (List ℕ)
  deserialize_vec bs = do
    (len, rest) ← read_u64 bs
    if ltb len (2 ^ 63) then read_exact len rest else panic

  unfoldable pub vec_data : TrieData (List ℕ)
  unfolding serialize_vec deserialize_vec
  vec_data = record {
    default = [];
    serialize = serialize_vec;
    serialized_size = λ v. ok (8 + length v);
    deserialize = deserialize_vec;
  }

  -- `CTrieData` is an `i32`; as an option it has its own encoding, in which -1 is `None`.

  serialize_c : Option ℤ → Writer
  serialize_c (some v) = write_all (bytes_i32 v)
  serialize_c none = write_all (bytes_i32 (negsuc 0))

  deserialize_c : Reader (Option ℤ)
  deserialize_c bs = do
    (value, rest) ← read_i32 bs
    ok (if eqb_ℤ value (negsuc 0) then none else some value, rest)

  unfoldable pub c_trie_data : TrieData (Option ℤ)
  unfolding serialize_c deserialize_c
  c_trie_data = record {
    default = none;
    serialize = serialize_c;
    serialized_size = λ v. serialized_size_default (serialize_c v);
    deserialize = deserialize_c;
  }
