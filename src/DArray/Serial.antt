-- ===== src/DArray/Serial.antt =====
-- `DArray::serialize`, `serialized_size` and `read`.
use libdatrie_rs.Common.{ℕ, zero, suc, ◌-◌, ◌*◌, List, [], ◌∷◌, if◌then◌else◌, length}
use libdatrie_rs.Common.Int.{ℤ, pos, negsuc, as_i32, eqb_ℤ}
use libdatrie_rs.Common.Run.{ok, err, invalid_data, ◌>>=◌}
use libdatrie_rs.Stream.{Writer, Reader, write_all, ByteOrder}
use libdatrie_rs.DArray.Cells.{DaCell, DArray, cell, da_signature}

unfoldable pub serialized_size : DArray → ℕ
serialized_size self = 4 * length self.cells * 2

module _ (b : ByteOrder) where
  open b use {bytes_i32, read_i32}

  unfoldable pub serialize_cells : List DaCell → Writer
  serialize_cells [] s = ok s
  serialize_cells (cell ∷ cells) s = do
    s ← write_all (bytes_i32 cell.base) s
    s ← write_all (bytes_i32 cell.check) s
    serialize_cells cells s

  unfoldable pub serialize : DArray → Writer
  serialize self s = serialize_cells self.cells s

  unfoldable pub read_cells : ℕ → Reader (List DaCell)
  read_cells zero bs = ok ([], bs)
  read_cells (suc n) bs = do
    (base, bs) ← read_i32 bs
    (check, bs) ← read_i32 bs
    (cells, bs) ← read_cells n bs
    ok (cell base check ∷ cells, bs)

  -- The first cell is not read again, and is there even when the count is 0. A non-negative `i32`
  -- never exceeds `isize::MAX / size_of::<DACell>()` on a 64-bit machine.
  unfoldable pub read_counted : ℤ → Reader DArray
  read_counted (negsuc n) bs = err invalid_data
  read_counted (pos n) bs = do
    (cells, bs) ← read_cells (n - 1) bs
    ok (record { cells = cell (as_i32 da_signature) (pos n) ∷ cells }, bs)

  unfoldable pub read : Reader DArray
  read bs = do
    (signature, bs) ← read_i32 bs
    if eqb_ℤ signature (as_i32 da_signature)
        then (do (num_cells, bs) ← read_i32 bs; read_counted num_cells bs)
        else err invalid_data
