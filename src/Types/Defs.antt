-- ===== src/Types/Defs.antt =====
-- The constants of src/types.rs, and its traits `TrieSerializable` and `TrieDeserializable`.
use libdatrie_rs.Common.{ℕ, ◌≡◌, List, length}
use libdatrie_rs.Common.Int.{ℤ, pos}
use libdatrie_rs.Common.Run.{Run, ok, panic}
use libdatrie_rs.Stream.{vec_sink, Writer, Reader, Writes, Reads}

-- `TrieIndex` is `i32`, `AlphaChar` is `u32`, `TrieChar` is `u8`: `as TrieChar` keeps the
-- low byte.
abbrev pub TrieIndex : Type 0
TrieIndex = ℤ

abbrev pub AlphaChar : Type 0
AlphaChar = ℕ

abbrev pub TrieChar : Type 0
TrieChar = ℕ

abbrev pub trie_index_max : TrieIndex
trie_index_max = pos 0x7fff_ffff

abbrev pub trie_index_error : TrieIndex
trie_index_error = pos 0

abbrev pub alpha_char_error : AlphaChar
alpha_char_error = 0xffff_ffff

abbrev pub trie_char_term : TrieChar
trie_char_term = 0

abbrev pub trie_char_max : TrieChar
trie_char_max = 255

-- `Default`, `TrieSerializable` and `TrieDeserializable` of a data type.
pub record TrieData (D : Type 0) : Type 0 where
  pub default : D
  pub serialize : D → Writer
  pub serialized_size : D → Run ℕ
  pub deserialize : Reader D

-- The default method `serialized_size`: the data is serialized into a buffer.
unfoldable pub serialized_size_default : Writer → Run ℕ
serialized_size_default w = elim (w vec_sink) [
  | Run.ok s ↦ ok (length s.written)
  | Run.out_of_fuel ↦ Run.out_of_fuel
  | _ ↦ panic
]

-- What a trie relies on: each value has its bytes, which are written, counted and read back.
pub record IsSerial {D : Type 0} (t : TrieData D) (Valid : D → Type 0) : Type 0 where
  pub bytes : D → List ℕ
  pub writes : (d : D) → Valid d → Writes (t.serialize d) (bytes d)
  pub size : (d : D) → Valid d → t.serialized_size d ≡ ok (length (bytes d))
  pub reads : (d : D) → Valid d → Reads t.deserialize d (bytes d)
