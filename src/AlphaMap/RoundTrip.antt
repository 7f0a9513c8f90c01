-- ===== src/AlphaMap/RoundTrip.antt =====
-- About `serialize`, `serialized_size` and `read` of an alphabet.
use libdatrie_rs.Common.{
  ℕ, ◌+◌, ◌-◌, ◌*◌, ◌^◌, ◌≤◌, ◌<◌, ◌≡◌, refl, ap, ◌∙◌, List, [], ◌∷◌, ◌++◌, arith, length, All,
  length-append,
}
use libdatrie_rs.Common.Int.{pos, IsI32, as_i32, as_u32, as_i32-small}
use libdatrie_rs.Common.Run.{ok}
use libdatrie_rs.Stream.{Coded, Writes, ByteOrder, write_all-Writes, then-Writes, skip-Writes}
use libdatrie_rs.Types.{alpha_char_error}
use libdatrie_rs.AlphaMap.Defs.{
  RangeSet, Range, IsRanges, Before, AlphaMap, alpha_map_default, recalc_work_area,
}
use libdatrie_rs.AlphaMap.Serial.{
  alphamap_signature, serialize_ranges, check_range, read_ranges, serialize, serialized_size, read,
}
use mathlib.Core.List.{append_assoc, append-nil}

-- A range that `read` accepts: fewer than 255 characters, and not the error value.
abbrev pub Readable : Range → Type 0
Readable (lo, hi) = (hi + 1 - lo < 255) × (hi < alpha_char_error)

-- The tables are those of the ranges.
abbrev pub Current : AlphaMap → Type 0
Current self = recalc_work_area (record alpha_map_default { ranges = self.ranges }) ≡ ok self

pub record AlphaMapOk (self : AlphaMap) : Type 0 where
  pub current : Current self
  pub sorted : IsRanges 0 self.ranges
  pub readable : All Readable self.ranges
  pub count : length self.ranges < 2 ^ 31

as_u32-as_i32 : (n : ℕ) → n < 2 ^ 32 → as_u32 (as_i32 n) ≡ n
as_u32-as_i32 n h = ground arith

as_i32-IsI32 : (n : ℕ) → n < 2 ^ 32 → IsI32 (as_i32 n)
as_i32-IsI32 n h = ground arith

Before-append :
    (xs : List Range) (lo hi m : ℕ) → Before xs m → hi + 1 < m → Before (xs ++ ((lo, hi) ∷ [])) m
Before-append [] lo hi m h p = (p, tt)
Before-append ((l, r) ∷ xs) lo hi m h p = (h.0, Before-append xs lo hi m h.1 p)

Before-mono : (xs : List Range) (m n : ℕ) → Before xs m → m ≤ n → Before xs n
Before-mono [] m n h p = tt
Before-mono ((l, r) ∷ xs) m n h p = (omega (arith, h.0), Before-mono xs m n h.1 p)

IsRanges-append :
    (m : ℕ) (xs : List Range) (lo hi : ℕ)
    → IsRanges m xs
    → Before xs lo
    → m ≤ lo
    → lo ≤ hi
    → IsRanges m (xs ++ ((lo, hi) ∷ []))
IsRanges-append m [] lo hi h k p q = (p, q, tt)
IsRanges-append m ((l, r) ∷ xs) lo hi h k p q =
    (h.0, h.1, IsRanges-append (r + 2) xs lo hi h.2 k.1 (omega (arith, k.0)) q)

module _ (b : ByteOrder) (rangemap : RangeSet) where
  check_range_ok :
      (lo hi : ℕ) (done : List Range)
      → IsRanges 0 done
      → Before done lo
      → lo ≤ hi
      → Readable (lo, hi)
      → check_range b rangemap lo hi done ≡ ok (done ++ ((lo, hi) ∷ []))
  unfolding check_range
  check_range_ok lo hi done s before le h =
      ground (arith, rangemap.insert_last done lo hi s le before)

  abbrev range_bytes : List Range → List ℕ
  range_bytes [] = []
  range_bytes ((lo, hi) ∷ rs) =
      b.bytes_i32 (as_i32 lo) ++ (b.bytes_i32 (as_i32 hi) ++ range_bytes rs)

  range-Writes : (rs : List Range) → Writes (serialize_ranges b rs) (range_bytes rs)
  unfolding serialize_ranges
  range-Writes [] = skip-Writes
  range-Writes ((lo, hi) ∷ rs) =
      then-Writes (write_all-Writes _) (then-Writes (write_all-Writes _) (range-Writes rs))

  range_size : (rs : List Range) → length (range_bytes rs) ≡ 8 * length rs
  range_size [] = refl
  range_size ((lo, hi) ∷ rs) = omega (
    arith,
    range_size rs,
    b.length_i32 (as_i32 lo),
    b.length_i32 (as_i32 hi),
    length-append (b.bytes_i32 (as_i32 lo)) (b.bytes_i32 (as_i32 hi) ++ range_bytes rs),
    length-append (b.bytes_i32 (as_i32 hi)) (range_bytes rs),
  )

  range_reads :
      (m : ℕ) (done rs : List Range) (rest : List ℕ)
      → IsRanges 0 done
      → Before done m
      → IsRanges m rs
      → All Readable rs
      → read_ranges b rangemap (length rs) done (range_bytes rs ++ rest) ≡ ok (done ++ rs, rest)
  unfolding read_ranges
  range_reads m done [] rest s before h r = rw (append-nil done)
  range_reads m done ((lo, hi) ∷ rs) rest s before h r =
      let before' = Before-mono done m lo before h.0 in
      rw
        (
          append_assoc (b.bytes_i32 (as_i32 lo)) (b.bytes_i32 (as_i32 hi) ++ range_bytes rs) rest,
          b.reads_i32 (as_i32 lo) ((b.bytes_i32 (as_i32 hi) ++ range_bytes rs) ++ rest)
              (as_i32-IsI32 lo (omega (arith, h.1, r.0))),
          append_assoc (b.bytes_i32 (as_i32 hi)) (range_bytes rs) rest,
          b.reads_i32 (as_i32 hi) (range_bytes rs ++ rest) (as_i32-IsI32 hi (omega (arith, r.0))),
          as_u32-as_i32 lo (omega (arith, h.1, r.0)),
          as_u32-as_i32 hi (omega (arith, r.0)),
          check_range_ok lo hi done s before' h.1 r.0,
        )
        (range_reads (hi + 2) (done ++ ((lo, hi) ∷ [])) rs rest
            (IsRanges-append 0 done lo hi s before' (omega arith) h.1)
            (Before-append done lo hi (hi + 2)
              (Before-mono done lo (hi + 2) before' (omega (arith, h.1))) (omega arith))
            h.2 r.1
          ∙ ap (λ xs. ok (xs, rest)) (append_assoc done ((lo, hi) ∷ []) rs))

  -- A map whose tables are those of its ranges, and whose ranges `read` accepts, is written in
  -- exactly `serialized_size` bytes and read back, its tables included.
  pub alpha_map-Coded :
      (self : AlphaMap)
      → AlphaMapOk self
      → Coded (serialize b self) (serialized_size self) (read b rangemap) self
  unfolding serialize serialized_size read
  alpha_map-Coded self h =
      let n : ℕ = length self.ranges in
      record {
        bytes = b.bytes_u32 alphamap_signature ++ (b.bytes_i32 (pos n) ++ range_bytes self.ranges);
        writes = then-Writes (write_all-Writes _) (
            rw (as_i32-small n h.count)
              (then-Writes (write_all-Writes _) (range-Writes self.ranges)));
        size = omega (
          arith,
          range_size self.ranges,
          b.length_u32 alphamap_signature,
          b.length_i32 (pos n),
          length-append (b.bytes_u32 alphamap_signature)
              (b.bytes_i32 (pos n) ++ range_bytes self.ranges),
          length-append (b.bytes_i32 (pos n)) (range_bytes self.ranges),
        );
        reads = record {
          run = λ rest. rw (
            append_assoc (b.bytes_u32 alphamap_signature)
                (b.bytes_i32 (pos n) ++ range_bytes self.ranges) rest,
            b.reads_u32 alphamap_signature
                ((b.bytes_i32 (pos n) ++ range_bytes self.ranges) ++ rest) (omega arith),
            append_assoc (b.bytes_i32 (pos n)) (range_bytes self.ranges) rest,
            b.reads_i32 (pos n) (range_bytes self.ranges ++ rest) (omega (arith, h.count)),
            range_reads 0 [] self.ranges rest tt tt h.sorted h.readable,
            h.current,
          );
        };
      }
