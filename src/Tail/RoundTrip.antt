-- ===== src/Tail/RoundTrip.antt =====
-- About `serialize`, `serialized_size` and `read` of the tail.
use libdatrie_rs.Common.{
  ℕ, ◌+◌, ◌*◌, ◌^◌, ◌<◌, ◌≡◌, refl, List, [], ◌∷◌, ◌++◌, arith, length, All, length-append, map,
}
use libdatrie_rs.Common.Int.{pos, IsI32, as_i32-small}
use libdatrie_rs.Common.Run.{ok, >>=-eq-ok}
use libdatrie_rs.Stream.{Coded, ByteOrder, write_all-Writes, then-Writes, skip-Writes}
use libdatrie_rs.Types.{TrieData, IsSerial}
use libdatrie_rs.Tail.Defs.{TailBlock, Tail}
use libdatrie_rs.Tail.Serial.{
  tail_signature, serialize_block, serialize_blocks, serialize, suffix_size, blocks_size,
  serialized_size, read_block, read_blocks, read,
}
use mathlib.Core.List.{append_assoc}
use libdatrie_rs.Tail.Suffixes.{SuffixOk, norm_block, norm, suffix-Coded}

module _ {D : Type 0} (b : ByteOrder) (t : TrieData D) where
  module _ {Valid : D → Type 0} (law : IsSerial t Valid) where
    -- A block that can be written and read back.
    pub record BlockOk (block : TailBlock D) : Type 0 where
      pub next : IsI32 block.next_free
      pub value : Valid block.data_
      pub suffix : SuffixOk block.suffix

    pub record TailOk (self : Tail D) : Type 0 where
      pub first : IsI32 self.first_free
      pub count : length self.tails < 2 ^ 31
      pub blocks : All BlockOk self.tails

    block_size : TailBlock D → ℕ
    block_size block = 4 + (length (law.bytes block.data_) + (2 + suffix_size b t block.suffix))

    block-Coded :
        (block : TailBlock D)
        → BlockOk block
        → Coded (serialize_block b t block) (block_size block) (read_block b t) (norm_block block)
    unfolding serialize_block read_block block_size
    block-Coded block h =
        let c = suffix-Coded b t block.suffix h.suffix in
        record {
          bytes = b.bytes_i32 block.next_free ++ (law.bytes block.data_ ++ c.bytes);
          writes =
              then-Writes (write_all-Writes _)
                (then-Writes (law.writes block.data_ h.value) c.writes);
          size = rw (
            length-append (b.bytes_i32 block.next_free) (law.bytes block.data_ ++ c.bytes),
            b.length_i32 block.next_free,
            length-append (law.bytes block.data_) c.bytes,
            c.size,
          );
          reads = record {
            run = λ rest.
                let (p, e, f) = >>=-eq-ok (b.read_i16 (c.bytes ++ rest)) _ (c.reads.run rest) in
                rw (
                  append_assoc (b.bytes_i32 block.next_free) (law.bytes block.data_ ++ c.bytes)
                      rest,
                  b.reads_i32 block.next_free ((law.bytes block.data_ ++ c.bytes) ++ rest) h.next,
                  append_assoc (law.bytes block.data_) c.bytes rest,
                  (law.reads block.data_ h.value).run (c.bytes ++ rest),
                  e,
                  f,
                );
          };
        }

    abbrev bytes_size : List (TailBlock D) → ℕ
    bytes_size [] = 0
    bytes_size (block ∷ blocks) = block_size block + bytes_size blocks

    blocks-Coded :
        (blocks : List (TailBlock D))
        → All BlockOk blocks
        → Coded
            (serialize_blocks b t blocks)
            (bytes_size blocks)
            (read_blocks b t (length blocks))
            (map norm_block blocks)
    unfolding serialize_blocks read_blocks
    blocks-Coded [] h = record {
      bytes = [];
      writes = skip-Writes;
      size = refl;
      reads = record { run = λ rest. refl };
    }
    blocks-Coded (block ∷ blocks) h =
        let c = block-Coded block h.0 in
        let d = blocks-Coded blocks h.1 in
        record {
          bytes = c.bytes ++ d.bytes;
          writes = then-Writes c.writes d.writes;
          size = rw (length-append c.bytes d.bytes, c.size, d.size);
          reads = record {
            run = λ rest. rw (
              append_assoc c.bytes d.bytes rest,
              c.reads.run (d.bytes ++ rest),
              d.reads.run rest,
            );
          };
        }

    blocks_size_lem :
        (blocks : List (TailBlock D))
        → All BlockOk blocks
        → (n : ℕ) × (blocks_size b t blocks ≡ ok n) × (bytes_size blocks ≡ 6 * length blocks + n)
    unfolding blocks_size block_size
    blocks_size_lem [] h = (0, refl, omega arith)
    blocks_size_lem (block ∷ blocks) h =
        let (n, e, f) = blocks_size_lem blocks h.1 in
        (
          suffix_size b t block.suffix + length (law.bytes block.data_) + n,
          rw (law.size block.data_ h.0.value, e),
          omega (arith, f),
        )

    -- A tail of fewer than 2^31 blocks, whose data can be written and read back by the data's own
    -- trait, and whose suffixes end in their terminator and are at most 32766 long without it, is
    -- written by Tail::serialize in exactly serialized_size bytes, and Tail::read gives it back
    -- with the terminator for the suffix of every block that had none.
    pub tail-Coded :
        (self : Tail D)
        → TailOk self
        → (n : ℕ) × (serialized_size b t self ≡ ok n)
          × Coded (serialize b t self) n (read b t) (norm self)
    unfolding serialize read serialized_size
    tail-Coded self h =
        let (m, e, f) = blocks_size_lem self.tails h.blocks in
        let c = blocks-Coded self.tails h.blocks in
        let n : ℕ = length self.tails in
        (
          4 + 4 + 4 + (4 + 2) * n + m,
          rw e,
          record {
            bytes =
                b.bytes_u32 tail_signature
                ++ (b.bytes_i32 self.first_free ++ (b.bytes_i32 (pos n) ++ c.bytes));
            writes = then-Writes (write_all-Writes _) (
                then-Writes (write_all-Writes _)
                  (rw (as_i32-small n h.count) (then-Writes (write_all-Writes _) c.writes)));
            size = omega (
              arith,
              f,
              c.size,
              b.length_u32 tail_signature,
              b.length_i32 self.first_free,
              b.length_i32 (pos n),
              length-append (b.bytes_u32 tail_signature)
                  (b.bytes_i32 self.first_free ++ (b.bytes_i32 (pos n) ++ c.bytes)),
              length-append (b.bytes_i32 self.first_free) (b.bytes_i32 (pos n) ++ c.bytes),
              length-append (b.bytes_i32 (pos n)) c.bytes,
            );
            reads = record {
              run = λ rest. rw (
                append_assoc (b.bytes_u32 tail_signature)
                    (b.bytes_i32 self.first_free ++ (b.bytes_i32 (pos n) ++ c.bytes)) rest,
                b.reads_u32 tail_signature
                    ((b.bytes_i32 self.first_free ++ (b.bytes_i32 (pos n) ++ c.bytes)) ++ rest)
                    (omega arith),
                append_assoc (b.bytes_i32 self.first_free) (b.bytes_i32 (pos n) ++ c.bytes) rest,
                b.reads_i32 self.first_free ((b.bytes_i32 (pos n) ++ c.bytes) ++ rest) h.first,
                append_assoc (b.bytes_i32 (pos n)) c.bytes rest,
                b.reads_i32 (pos n) (c.bytes ++ rest) (omega (arith, h.count)),
                c.reads.run rest,
              );
            };
          },
        )
