-- ===== src/AlphaMap/Serial.antt =====
-- `AlphaMap::serialize`, `serialized_size` and `read`.
use libdatrie_rs.Common.{
  ℕ, zero, suc, ◌+◌, ◌-◌, ◌*◌, ◌%◌, ◌^◌, ◌&&◌, List, [], ◌∷◌, ltb, leb, ◌==◌, if◌then◌else◌, length,
}
use libdatrie_rs.Common.Int.{ℤ, pos, negsuc, as_i32, as_u32}
use libdatrie_rs.Common.Run.{Run, ok, err, invalid_data, ◌>>=◌}
use libdatrie_rs.Stream.{Writer, Reader, write_all, ByteOrder}
use libdatrie_rs.Types.{AlphaChar, alpha_char_error}
use libdatrie_rs.AlphaMap.Defs.{RangeSet, Range, AlphaMap, alpha_map_default, recalc_work_area}

abbrev pub alphamap_signature : ℕ
alphamap_signature = 0xd9fc_d9fc

unfoldable pub serialized_size : AlphaMap → ℕ
serialized_size self = 4 + 4 + 4 * 2 * length self.ranges

module _ (b : ByteOrder) where
  open b use {bytes_i32, bytes_u32, read_i32, read_u32}

  unfoldable pub serialize_ranges : List Range → Writer
  serialize_ranges [] buf = ok buf
  serialize_ranges ((lo, hi) ∷ rs) buf = do
    buf ← write_all (bytes_i32 (as_i32 lo)) buf
    buf ← write_all (bytes_i32 (as_i32 hi)) buf
    serialize_ranges rs buf

  unfoldable pub serialize : AlphaMap → Writer
  serialize self buf = do
    buf ← write_all (bytes_u32 alphamap_signature) buf
    buf ← write_all (bytes_i32 (as_i32 (length self.ranges % 2 ^ 32))) buf
    serialize_ranges self.ranges buf

  module _ (rangemap : RangeSet) where
    -- `begin > end`, a range of 255 characters or more, and one with `ALPHA_CHAR_ERROR` in it are
    -- refused.
    unfoldable pub check_range : AlphaChar → AlphaChar → List Range → Run (List Range)
    check_range begin end ranges =
        if ltb end begin
        then err invalid_data
        else if leb 255 (end + 1 - begin)
        then err invalid_data
        else if leb begin alpha_char_error && leb alpha_char_error end
        then err invalid_data
        else rangemap.insert ranges (begin, end)

    unfoldable pub read_ranges : ℕ → List Range → Reader (List Range)
    read_ranges zero ranges bs = ok (ranges, bs)
    read_ranges (suc n) ranges bs = do
      (begin, bs) ← read_i32 bs
      (end, bs) ← read_i32 bs
      ranges ← check_range (as_u32 begin) (as_u32 end) ranges
      read_ranges n ranges bs

    -- `for _ in 0..total`
    abbrev pub rounds : ℤ → ℕ
    rounds (pos n) = n
    rounds (negsuc n) = 0

    unfoldable pub read : Reader AlphaMap
    read bs = do
      (signature, bs) ← read_u32 bs
      if signature == alphamap_signature
          then (do
            (total, bs) ← read_i32 bs
            (ranges, bs) ← read_ranges (rounds total) [] bs
            alphamap ← recalc_work_area (record alpha_map_default { ranges = ranges })
            ok (alphamap, bs))
          else err invalid_data
