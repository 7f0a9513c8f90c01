-- ===== src/Trie/RoundTrip.antt =====
-- About saving a trie and reading it back.
use libdatrie_rs.Common.{ℕ, ◌+◌, ◌≡◌, ◌∙◌, false, List, ◌++◌, arith, length, length-append}
use libdatrie_rs.Common.Run.{ok}
use libdatrie_rs.Stream.{Coded, Sink, ByteOrder, Fits, push, then-Writes}
use libdatrie_rs.Types.{TrieData, IsSerial}
use libdatrie_rs.AlphaMap
use libdatrie_rs.AlphaMap.{RangeSet}
use libdatrie_rs.DArray
use libdatrie_rs.AlphaMap.RoundTrip.{AlphaMapOk, alpha_map-Coded}
use libdatrie_rs.DArray.RoundTrip.{DArrayOk, darray-Coded}
use libdatrie_rs.Tail.RoundTrip.{TailOk, tail-Coded}
use libdatrie_rs.Tail.Suffixes.{norm}
use libdatrie_rs.Trie.Defs.{RoTrie, Trie}
use libdatrie_rs.Trie.Serial.{
  ro_serialize, ro_serialized_size, serialize, serialized_size, ro_from_reader, from_reader,
}
use mathlib.Core.List.{append_assoc}

module _ {D : Type 0} {Valid : D → Type 0} (b : ByteOrder) (rangemap : RangeSet) (t : TrieData D)
    (law : IsSerial t Valid) where
  pub record TrieOk (self : RoTrie D) : Type 0 where
    pub alpha_map : AlphaMapOk self.alpha_map
    pub da : DArrayOk self.da
    pub tail : TailOk b t law self.tail

  -- What `from_reader` makes of the trie that was written: only a suffix that was missing is new.
  abbrev pub reread : RoTrie D → RoTrie D
  reread self = record self { tail = norm self.tail }

  -- A trie of well-formed parts is written in exactly `serialized_size` bytes, and `from_reader`
  -- takes exactly these off and gives the trie back, with the terminator for the suffix of every
  -- block that had none.
  pub trie-Coded :
      (self : RoTrie D)
      → TrieOk self
      → (n : ℕ) × (ro_serialized_size b t self ≡ ok n)
        × Coded (ro_serialize b t self) n (ro_from_reader b t rangemap) (reread self)
  unfolding ro_serialize ro_serialized_size ro_from_reader
  trie-Coded self h =
      let a = alpha_map-Coded b rangemap self.alpha_map h.alpha_map in
      let d = darray-Coded b self.da h.da in
      let (m, e, c) = tail-Coded b t law self.tail h.tail in
      (
        AlphaMap.serialized_size self.alpha_map + DArray.serialized_size self.da + m,
        rw e,
        record {
          bytes = a.bytes ++ (d.bytes ++ c.bytes);
          writes = then-Writes a.writes (then-Writes d.writes c.writes);
          size = omega (
            arith,
            a.size,
            d.size,
            c.size,
            length-append a.bytes (d.bytes ++ c.bytes),
            length-append d.bytes c.bytes,
          );
          reads = record {
            run = λ rest. rw (
              append_assoc a.bytes (d.bytes ++ c.bytes) rest,
              a.reads.run ((d.bytes ++ c.bytes) ++ rest),
              append_assoc d.bytes c.bytes rest,
              d.reads.run (c.bytes ++ rest),
              c.reads.run rest,
            );
          };
        },
      )

  -- What is written of a trie, and read back.
  pub record Saved (self : Trie D) : Type 0 where
    pub bytes : List ℕ
    pub size : serialized_size b t self ≡ ok (length bytes)
    pub saves :
        (s : Sink)
        → Fits (length bytes) s.room
        → serialize b t self s ≡ ok (record self { is_dirty_ = false }, push s bytes)
    pub loads :
        (rest : List ℕ)
        → from_reader b t rangemap (bytes ++ rest)
          ≡ ok (record { ro = reread self.ro; is_dirty_ = false }, rest)

  -- `serialize` of a trie of well-formed parts writes `serialized_size` bytes wherever there is
  -- room for them and leaves the trie as it was, but clean; `from_reader` takes exactly these bytes
  -- off what it reads, and gives a clean trie that is the same but for the suffixes that were
  -- missing.
  pub trie_Saved : (self : Trie D) → TrieOk self.ro → Saved self
  unfolding serialize serialized_size from_reader
  trie_Saved self h =
      let (n, e, c) = trie-Coded self.ro h in
      record {
        bytes = c.bytes;
        size = e ∙ rw c.size;
        saves = λ s fits. rw (c.writes.run s fits);
        loads = λ rest. rw (c.reads.run rest);
      }
