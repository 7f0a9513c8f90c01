-- ===== src/Tests/Files.antt =====
-- The round trips, at the trie that holds one key.
use libdatrie_rs.Common.{ℕ, ◌≡◌, refl, none, some, [], ◌∷◌, arith}
use libdatrie_rs.Common.Int.{ℤ, pos, negsuc, IsI32, as_i32}
use libdatrie_rs.Common.Int
use libdatrie_rs.Common.Run.{ok}
use libdatrie_rs.Stream.{Coded}
use libdatrie_rs.Stream.BigEndian.{big_endian}
use libdatrie_rs.Types.{option_data, c_trie_data, i32-IsSerial, Written, option-Written, c-Written}
use libdatrie_rs.Crates.{range_set}
use libdatrie_rs.AlphaMap
use libdatrie_rs.AlphaMap.RoundTrip.{AlphaMapOk, Current, alpha_map-Coded}
use libdatrie_rs.DArray
use libdatrie_rs.DArray.RoundTrip.{DArrayOk, darray-Coded}
use libdatrie_rs.Tail
use libdatrie_rs.Tail.RoundTrip.{TailOk, tail-Coded}
use libdatrie_rs.Tail.Suffixes.{norm}
use libdatrie_rs.Trie
use libdatrie_rs.Trie.New.{Fresh, new-Fresh}
use libdatrie_rs.Trie.RoundTrip.{Saved, trie_Saved}
use libdatrie_rs.Tests.{numbers, one_map, one_pool, one_da, one_tail, one_trie}

one_map-Current : Current one_map
unfolding AlphaMap.recalc_work_area AlphaMap.Defs.recalc_ranges AlphaMap.Defs.fill_ranges
    AlphaMap.Defs.fill_range AlphaMap.Defs.assign AlphaMap.Defs.write_at Int.◌+ℤ◌
one_map-Current = refl

pub one_map-Ok : AlphaMapOk one_map
one_map-Ok = record {
  current = one_map-Current;
  sorted = omega arith;
  readable = (omega arith, tt);
  count = omega arith;
}

one_da-Ok : DArrayOk one_da
one_da-Ok = record {
  pool = one_pool;
  header = refl;
  count = omega arith;
  fits = (
    (omega arith, omega arith),
    ((omega arith, omega arith), ((omega arith, omega arith), ((omega arith, omega arith), tt))),
  );
}

one_tail-Ok : TailOk big_endian numbers (i32-IsSerial big_endian) one_tail
one_tail-Ok = record {
  first = omega arith;
  count = omega arith;
  blocks = (
    record { next = omega arith; value = omega arith; suffix = (2 ∷ 0 ∷ [], refl, omega arith) },
    tt,
  );
}

alpha_map-Coded_example :
    Coded
      (AlphaMap.serialize big_endian one_map)
      (AlphaMap.serialized_size one_map)
      (AlphaMap.read big_endian range_set)
      one_map
alpha_map-Coded_example = alpha_map-Coded big_endian range_set one_map one_map-Ok

darray-Coded_example :
    Coded
      (DArray.serialize big_endian one_da)
      (DArray.serialized_size one_da)
      (DArray.read big_endian)
      one_da
darray-Coded_example = darray-Coded big_endian one_da one_da-Ok

tail-Coded_example :
    (n : ℕ) × (Tail.serialized_size big_endian numbers one_tail ≡ ok n)
    × Coded
        (Tail.serialize big_endian numbers one_tail)
        n
        (Tail.read big_endian numbers)
        (norm one_tail)
tail-Coded_example = tail-Coded big_endian numbers (i32-IsSerial big_endian) one_tail one_tail-Ok

trie_Saved_example : Saved big_endian range_set numbers (i32-IsSerial big_endian) one_trie
trie_Saved_example =
    trie_Saved big_endian range_set numbers (i32-IsSerial big_endian) one_trie
      (record { alpha_map = one_map-Ok; da = one_da-Ok; tail = one_tail-Ok })

option-Written_example :
    Written
      (option_data numbers)
      (some (pos 5))
      (1 ∷ (i32-IsSerial big_endian).bytes (pos 5))
      (some (pos 5))
option-Written_example = option-Written (i32-IsSerial big_endian) (some (pos 5)) (omega arith)

-- -1 is read as `None`.
c-Written_example :
    Written (c_trie_data big_endian) (some (negsuc 0)) (big_endian.bytes_i32 (negsuc 0)) none
c-Written_example = c-Written big_endian (some (negsuc 0)) (omega arith)

new-Fresh_example : Fresh big_endian range_set numbers (i32-IsSerial big_endian) (Trie.new one_map)
new-Fresh_example =
    new-Fresh big_endian range_set numbers (i32-IsSerial big_endian) one_map one_map-Ok
