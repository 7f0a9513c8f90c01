-- ===== src/Trie/Serial.antt =====
-- `serialize`, `serialized_size` and `from_reader` of `ROTrie` and `Trie`.
use libdatrie_rs.Common.{ℕ, ◌+◌, false, List}
use libdatrie_rs.Common.Run.{Run, ok, ◌>>=◌}
use libdatrie_rs.Stream.{Sink, Writer, Reader, ByteOrder}
use libdatrie_rs.Types.{TrieData}
use libdatrie_rs.AlphaMap
use libdatrie_rs.AlphaMap.{RangeSet}
use libdatrie_rs.DArray
use libdatrie_rs.Tail
use libdatrie_rs.Trie.Defs.{RoTrie, Trie}

module _ {D : Type 0} (b : ByteOrder) (t : TrieData D) where
  unfoldable pub ro_serialize : RoTrie D → Writer
  ro_serialize self s = do
    s ← AlphaMap.serialize b self.alpha_map s
    s ← DArray.serialize b self.da s
    Tail.serialize b t self.tail s

  unfoldable pub ro_serialized_size : RoTrie D → Run ℕ
  ro_serialized_size self = do
    n ← Tail.serialized_size b t self.tail
    ok (AlphaMap.serialized_size self.alpha_map + DArray.serialized_size self.da + n)

  -- On an error the flag stays as it was.
  unfoldable pub serialize : Trie D → Sink → Run (Trie D × Sink)
  serialize self s = do s ← ro_serialize self.ro s; ok (record self { is_dirty_ = false }, s)

  unfoldable pub serialized_size : Trie D → Run ℕ
  serialized_size self = ro_serialized_size self.ro

  module _ (rangemap : RangeSet) where
    unfoldable pub ro_from_reader : Reader (RoTrie D)
    ro_from_reader bs = do
      (alpha_map, bs) ← AlphaMap.read b rangemap bs
      (da, bs) ← DArray.read b bs
      (tail, bs) ← Tail.read b t bs
      ok (record { alpha_map = alpha_map; da = da; tail = tail }, bs)

    unfoldable pub from_reader : Reader (Trie D)
    from_reader bs = do (ro, bs) ← ro_from_reader bs; ok (record { ro = ro; is_dirty_ = false }, bs)

    -- `File::open` gives the bytes of the file, or fails.
    unfoldable pub ro_from_file : Run (List ℕ) → Run (RoTrie D)
    ro_from_file opened = do bytes ← opened; (ro, rest) ← ro_from_reader bytes; ok ro

    unfoldable pub from_file : Run (List ℕ) → Run (Trie D)
    from_file opened = do bytes ← opened; (trie, rest) ← from_reader bytes; ok trie
