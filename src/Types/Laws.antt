-- ===== src/Types/Laws.antt =====
-- About the implementations of the serialization traits.
use libdatrie_rs.Common.{
  ℕ, ◌^◌, ◌<◌, ◌≡◌, ◌≢◌, refl, ap, Option, none, some, List, [], ◌∷◌, ◌++◌, arith, length,
  length-append, if◌then◌else◌, lt→ltb,
}
use libdatrie_rs.Common.Int.{ℤ, negsuc, IsI32, eqb_ℤ, eqb_ℤ_ne}
use libdatrie_rs.Common.Run.{ok}
use libdatrie_rs.Stream.{
  Writes, Reads, write_all, ByteOrder, then-Writes, write-Writes, write_all-Writes,
  length-read_exact,
}
use libdatrie_rs.Types.Defs.{TrieData, IsSerial, serialized_size_default}
use libdatrie_rs.Types.Data.{option_data, i32_data, vec_data, c_trie_data}
use mathlib.Core.List.{append_assoc}

-- The value is written as these bytes, which are counted, and read back as `back`.
pub record Written {A : Type 0} (t : TrieData A) (d : A) (bytes : List ℕ) (back : A) : Type 0 where
  pub writes : Writes (t.serialize d) bytes
  pub size : t.serialized_size d ≡ ok (length bytes)
  pub reads : Reads t.deserialize back bytes

module _ {A : Type 0} {t : TrieData A} {Valid : A → Type 0} (law : IsSerial t Valid) where
  abbrev pub OptionValid : Option A → Type 0
  OptionValid none = Unit {0}
  OptionValid (some v) = Valid v

  abbrev pub option_bytes : Option A → List ℕ
  option_bytes none = 0 ∷ []
  option_bytes (some v) = 1 ∷ law.bytes v

  option-Writes :
      (d : Option A) → OptionValid d → Writes ((option_data t).serialize d) (option_bytes d)
  unfolding option_data
  option-Writes none h = write_all-Writes (0 ∷ [])
  option-Writes (some v) h = then-Writes (write_all-Writes (1 ∷ [])) (law.writes v h)

  option_size :
      (d : Option A)
      → OptionValid d
      → (option_data t).serialized_size d ≡ ok (length (option_bytes d))
  unfolding option_data
  option_size none h = refl
  option_size (some v) h = rw (law.size v h) (ap ok (omega arith))

  option-Reads :
      (d : Option A) → OptionValid d → Reads (option_data t).deserialize d (option_bytes d)
  unfolding option_data
  option-Reads none h = record { run = λ rest. refl }
  option-Reads (some v) h = record { run = λ rest. rw ((law.reads v h).run rest) }

  -- Where T is written, counted and read back, None is written as the byte 0, and Some of a value
  -- as the byte 1 and the bytes of the value; the bytes are counted, and read back.
  pub option-Written : (d : Option A) → OptionValid d → Written (option_data t) d (option_bytes d) d
  option-Written d h = record {
    writes = option-Writes d h;
    size = option_size d h;
    reads = option-Reads d h;
  }

  pub option-IsSerial : IsSerial (option_data t) OptionValid
  option-IsSerial = record {
    bytes = option_bytes;
    writes = option-Writes;
    size = option_size;
    reads = option-Reads;
  }

module _ (b : ByteOrder) where
  pub i32-IsSerial : IsSerial (i32_data b) IsI32
  unfolding i32_data
  i32-IsSerial = record {
    bytes = b.bytes_i32;
    writes = λ d h. write_all-Writes (b.bytes_i32 d);
    size = λ d h. rw (b.length_i32 d);
    reads = λ d h. record { run = λ rest. b.reads_i32 d rest h };
  }

  pub vec-IsSerial : IsSerial (vec_data b) (λ v. length v < 2 ^ 63)
  unfolding vec_data
  vec-IsSerial = record {
    bytes = λ v. b.bytes_u64 (length v) ++ v;
    writes = λ v h. then-Writes (write_all-Writes (b.bytes_u64 (length v))) (write-Writes v);
    size = λ v h. rw (length-append (b.bytes_u64 (length v)) v, b.length_u64 (length v));
    reads = λ v h. record {
      run = λ rest.
          rw
            (
              append_assoc (b.bytes_u64 (length v)) v rest,
              b.reads_u64 (length v) (v ++ rest) (omega (arith, h)),
              lt→ltb (length v) (2 ^ 63) h,
            )
            (length-read_exact v rest);
    };
  }

  -- The values that are read back as what they were.
  abbrev pub CValid : Option ℤ → Type 0
  CValid none = Unit {0}
  CValid (some v) = IsI32 v × (v ≢ negsuc 0)

  -- The number that stands for the data, -1 for `None`.
  abbrev pub number_of : Option ℤ → ℤ
  number_of none = negsuc 0
  number_of (some v) = v

  -- What the number is read as.
  abbrev pub data_from : ℤ → Option ℤ
  data_from v = if eqb_ℤ v (negsuc 0) then none else some v

  abbrev c_bytes : Option ℤ → List ℕ
  c_bytes d = b.bytes_i32 (number_of d)

  c-Writes : (d : Option ℤ) → Writes ((c_trie_data b).serialize d) (c_bytes d)
  unfolding c_trie_data
  c-Writes none = write_all-Writes _
  c-Writes (some v) = write_all-Writes _

  c_size : (d : Option ℤ) → (c_trie_data b).serialized_size d ≡ ok (length (c_bytes d))
  unfolding c_trie_data serialized_size_default write_all
  c_size none = refl
  c_size (some v) = refl

  -- An Option<CTrieData> that fits is written as an i32, its number or -1 for None, and counted by
  -- the default method; it is read back, but for Some(-1), which is read as None.
  pub c-Written :
      (d : Option ℤ)
      → IsI32 (number_of d)
      → Written (c_trie_data b) d (b.bytes_i32 (number_of d)) (data_from (number_of d))
  unfolding c_trie_data
  c-Written d h = record {
    writes = c-Writes d;
    size = c_size d;
    reads = record { run = λ rest. rw (b.reads_i32 (number_of d) rest h) refl };
  }

  c-Reads : (d : Option ℤ) → CValid d → Reads (c_trie_data b).deserialize d (c_bytes d)
  unfolding c_trie_data
  c-Reads none h = record { run = λ rest. rw (b.reads_i32 (negsuc 0) rest (omega arith)) }
  c-Reads (some v) h = record {
    run = λ rest. rw (b.reads_i32 v rest h.0, eqb_ℤ_ne v (negsuc 0) h.1);
  }

  pub c-IsSerial : IsSerial (c_trie_data b) CValid
  c-IsSerial = record {
    bytes = c_bytes;
    writes = λ d h. c-Writes d;
    size = λ d h. c_size d;
    reads = c-Reads;
  }
