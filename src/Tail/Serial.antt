-- ===== src/Tail/Serial.antt =====
-- `Tail::serialize`, `Tail::serialized_size` and `Tail::read`.
use libdatrie_rs.Common.{
  ℕ, zero, suc, ◌+◌, ◌-◌, ◌*◌, ◌%◌, ◌^◌, Option, none, some, List, [], ◌∷◌, ◌++◌, leb, ◌==◌,
  if◌then◌else◌, length, take,
}
use libdatrie_rs.Common.Int.{ℤ, pos, negsuc, as_i16, as_i32}
use libdatrie_rs.Common.Run.{Run, ok, err, invalid_data, panic, ◌>>=◌}
use libdatrie_rs.Stream.{Writer, Reader, write, write_all, read_exact, ByteOrder}
use libdatrie_rs.Types.{TrieIndex, TrieChar, trie_char_term, TrieData}
use libdatrie_rs.Tail.Defs.{TailBlock, Tail}

abbrev pub tail_signature : ℕ
tail_signature = 0xdffc_dffc

-- `suffix.len() - 1` on `usize`
abbrev pub suffix_len : List TrieChar → ℕ
suffix_len suffix = (length suffix + (2 ^ 64 - 1)) % 2 ^ 64

module _ {D : Type 0} (b : ByteOrder) (t : TrieData D) where
  open b use {bytes_i16, bytes_i32, bytes_u32, read_i16, read_i32, read_u32}

  unfoldable pub serialize_suffix : Option (List TrieChar) → Writer
  serialize_suffix none s = write_all (bytes_i16 (pos 0)) s
  serialize_suffix (some suffix) s =
      let n = suffix_len suffix in
      do
        s ← write_all (bytes_i16 (as_i16 (n % 2 ^ 16))) s
        if leb n (length suffix) then write (take n suffix) s else panic

  unfoldable pub serialize_block : TailBlock D → Writer
  serialize_block block s = do
    s ← write_all (bytes_i32 block.next_free) s
    s ← t.serialize block.data_ s
    serialize_suffix block.suffix s

  unfoldable pub serialize_blocks : List (TailBlock D) → Writer
  serialize_blocks [] s = ok s
  serialize_blocks (block ∷ blocks) s = do s ← serialize_block block s; serialize_blocks blocks s

  unfoldable pub serialize : Tail D → Writer
  serialize self s = do
    s ← write_all (bytes_u32 tail_signature) s
    s ← write_all (bytes_i32 self.first_free) s
    s ← write_all (bytes_i32 (as_i32 (length self.tails % 2 ^ 32))) s
    serialize_blocks self.tails s

  abbrev pub suffix_size : Option (List TrieChar) → ℕ
  suffix_size none = 0
  suffix_size (some suffix) = suffix_len suffix

  unfoldable pub blocks_size : List (TailBlock D) → Run ℕ
  blocks_size [] = ok 0
  blocks_size (block ∷ blocks) = do
    n ← t.serialized_size block.data_
    m ← blocks_size blocks
    ok (suffix_size block.suffix + n + m)

  unfoldable pub serialized_size : Tail D → Run ℕ
  serialized_size self = do
    n ← blocks_size self.tails
    ok (4 + 4 + 4 + (4 + 2) * length self.tails + n)

  -- At the length 32767 `(length + 1) as usize` wraps around, and `vec!` panics.
  unfoldable pub read_suffix : ℤ → Reader (List TrieChar)
  read_suffix (negsuc n) bs = ok (trie_char_term ∷ [], bs)
  read_suffix (pos n) bs =
      if n == 0
      then ok (trie_char_term ∷ [], bs)
      else if n == 32767
      then panic
      else (do (suffix, rest) ← read_exact n bs; ok (suffix ++ (trie_char_term ∷ []), rest))

  unfoldable pub read_block : Reader (TailBlock D)
  read_block bs = do
    (next_free, bs) ← read_i32 bs
    (value, bs) ← t.deserialize bs
    (length, bs) ← read_i16 bs
    (suffix, bs) ← read_suffix length bs
    ok (record { next_free = next_free; data_ = value; suffix = some suffix }, bs)

  unfoldable pub read_blocks : ℕ → Reader (List (TailBlock D))
  read_blocks zero bs = ok ([], bs)
  read_blocks (suc n) bs = do
    (block, bs) ← read_block bs
    (blocks, bs) ← read_blocks n bs
    ok (block ∷ blocks, bs)

  read_tails : TrieIndex → ℤ → Reader (Tail D)
  read_tails first_free (negsuc n) bs = panic
  read_tails first_free (pos n) bs = do
    (blocks, bs) ← read_blocks n bs
    ok (record { tails = blocks; first_free = first_free }, bs)

  -- `num_tails as isize > isize::MAX` never holds, and `Vec::with_capacity` of a negative count
  -- panics.
  unfoldable pub read : Reader (Tail D)
  unfolding read_tails
  read bs = do
    (signature, bs) ← read_u32 bs
    if signature == tail_signature
        then (do
          (first_free, bs) ← read_i32 bs
          (num_tails, bs) ← read_i32 bs
          read_tails first_free num_tails bs)
        else err invalid_data
