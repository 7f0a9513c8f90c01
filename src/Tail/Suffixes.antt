-- ===== src/Tail/Suffixes.antt =====
-- The suffix of a block in a file: what is written of it, and what `read` makes of that.
use libdatrie_rs.Common.{
  ℕ, ◌+◌, ◌%◌, ◌^◌, ◌≤◌, ◌≡◌, refl, ◌∙◌, Option, none, some, List, [], ◌∷◌, ◌++◌, arith, length,
  take, length-append, map, le→leb,
}
use libdatrie_rs.Common.Int.{pos, as_i16}
use libdatrie_rs.Common.Run.{ok, ◌>>=◌}
use libdatrie_rs.Stream.{
  Sink, Reader, Coded, ByteOrder, write, write_all, write-Writes, write_all-Writes, then-Writes,
  then-Reads, length-read_exact,
}
use libdatrie_rs.Types.{TrieChar, trie_char_term, TrieData}
use libdatrie_rs.Tail.Defs.{TailBlock, Tail}
use libdatrie_rs.Tail.Serial.{suffix_len, serialize_suffix, suffix_size, read_suffix}

-- A suffix that ends in its terminator and whose length without it `i16` holds. The reader cannot
-- take 32767, the largest `i16`.
abbrev pub SuffixOk : Option (List TrieChar) → Type 0
SuffixOk none = Unit {0}
SuffixOk (some s) =
    (body : List TrieChar) × (s ≡ body ++ (trie_char_term ∷ [])) × (length body ≤ 32766)

-- The reader gives every block a suffix.
abbrev pub norm_suffix : Option (List TrieChar) → List TrieChar
norm_suffix none = trie_char_term ∷ []
norm_suffix (some s) = s

abbrev pub norm_block : {D : Type 0} → TailBlock D → TailBlock D
norm_block b = record b { suffix = some (norm_suffix b.suffix) }

abbrev pub norm : {D : Type 0} → Tail D → Tail D
norm self = record self { tails = map norm_block self.tails }

pub take-append : (xs ys : List ℕ) → take (length xs) (xs ++ ys) ≡ xs
take-append [] ys = refl
take-append (x ∷ xs) ys = rw (take-append xs ys)

pub suffix_len-append :
    (body : List ℕ) → length body ≤ 32766 → suffix_len (body ++ (0 ∷ [])) ≡ length body
suffix_len-append body h = omega (arith, length-append body (0 ∷ []))

pub as_i16-small : (n : ℕ) → n ≤ 32766 → as_i16 (n % 2 ^ 16) ≡ pos n
as_i16-small n h = ground arith

module _ {D : Type 0} (b : ByteOrder) (t : TrieData D) where
  pub write_body :
      (body : List ℕ) (s : Sink)
      → length body ≤ 32766
      → serialize_suffix b t (some (body ++ (0 ∷ []))) s
        ≡ (write_all (b.bytes_i16 (pos (length body))) s >>= write body)
  unfolding serialize_suffix
  write_body body s h = rw (
    suffix_len-append body h,
    as_i16-small (length body) h,
    le→leb (length body) (length (body ++ (0 ∷ []))) (omega (arith, length-append body (0 ∷ []))),
    take-append body (0 ∷ []),
  )

  pub read_body :
      (body rest : List ℕ)
      → length body ≤ 32766
      → read_suffix b t (pos (length body)) (body ++ rest) ≡ ok (body ++ (0 ∷ []), rest)
  unfolding read_suffix
  read_body [] rest h = refl
  read_body (c ∷ cs) rest h = ground (arith, length-read_exact (c ∷ cs) rest)

  abbrev pub suffix_reader : Reader (List TrieChar)
  suffix_reader bs = b.read_i16 bs >>= λ p. read_suffix b t p.0 p.1

  pub suffix-Coded :
      (suffix : Option (List TrieChar))
      → SuffixOk suffix
      → Coded
          (serialize_suffix b t suffix)
          (2 + suffix_size b t suffix)
          suffix_reader
          (norm_suffix suffix)
  suffix-Coded none h = record {
    bytes = b.bytes_i16 (pos 0);
    writes = unfold serialize_suffix in write_all-Writes _;
    size = b.length_i16 (pos 0);
    reads = record {
      run = λ rest. rw (b.reads_i16 (pos 0) rest (omega arith)) (unfold read_suffix in refl);
    };
  }
  suffix-Coded (some s) (body, e, h) = rw e (record {
    bytes = b.bytes_i16 (pos (length body)) ++ body;
    writes = record {
      run = λ s fits.
          write_body body s h
          ∙ (then-Writes (write_all-Writes (b.bytes_i16 (pos (length body))))
                (write-Writes body)).run
              s fits;
    };
    size = omega (
      arith,
      length-append (b.bytes_i16 (pos (length body))) body,
      b.length_i16 (pos (length body)),
      suffix_len-append body h,
    );
    reads =
        then-Reads (read_suffix b t)
          (record { run = λ rest. b.reads_i16 (pos (length body)) rest (omega arith) })
          (record { run = λ rest. read_body body rest h });
  })
