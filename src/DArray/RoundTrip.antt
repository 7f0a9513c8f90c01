-- ===== src/DArray/RoundTrip.antt =====
-- About `serialize`, `serialized_size` and `read` of a double array.
use libdatrie_rs.Common.{
  ℕ, suc, ◌-◌, ◌*◌, ◌^◌, ◌<◌, ◌≡◌, refl, List, [], ◌∷◌, ◌++◌, arith, length, All, length-append,
}
use libdatrie_rs.Common.Int.{pos, IsI32, as_i32}
use libdatrie_rs.Stream.{Coded, ByteOrder, write_all-Writes, then-Writes, skip-Writes}
use libdatrie_rs.DArray.Cells.{DaCell, DArray, cell, da_signature}
use libdatrie_rs.DArray.Serial.{
  serialized_size, serialize_cells, serialize, read_cells, read_counted, read,
}
use mathlib.Core.List.{append_assoc}

abbrev pub CellOk : DaCell → Type 0
CellOk c = IsI32 c.base × IsI32 c.check

-- The header cell holds the signature and the number of cells, and all values are in range.
pub record DArrayOk (self : DArray) : Type 0 where
  pub pool : List DaCell
  pub header : self.cells ≡ cell (as_i32 da_signature) (pos (suc (length pool))) ∷ pool
  pub count : suc (length pool) < 2 ^ 31
  pub fits : All CellOk pool

module _ (b : ByteOrder) where
  cells-Coded :
      (cells : List DaCell)
      → All CellOk cells
      → Coded (serialize_cells b cells) (8 * length cells) (read_cells b (length cells)) cells
  unfolding serialize_cells read_cells
  cells-Coded [] h = record {
    bytes = [];
    writes = skip-Writes;
    size = refl;
    reads = record { run = λ rest. refl };
  }
  cells-Coded (c ∷ cs) h =
      let d = cells-Coded cs h.1 in
      record {
        bytes = b.bytes_i32 c.base ++ (b.bytes_i32 c.check ++ d.bytes);
        writes = then-Writes (write_all-Writes _) (then-Writes (write_all-Writes _) d.writes);
        size = omega (
          arith,
          d.size,
          b.length_i32 c.base,
          b.length_i32 c.check,
          length-append (b.bytes_i32 c.base) (b.bytes_i32 c.check ++ d.bytes),
          length-append (b.bytes_i32 c.check) d.bytes,
        );
        reads = record {
          run = λ rest. rw (
            append_assoc (b.bytes_i32 c.base) (b.bytes_i32 c.check ++ d.bytes) rest,
            b.reads_i32 c.base ((b.bytes_i32 c.check ++ d.bytes) ++ rest) h.0.0,
            append_assoc (b.bytes_i32 c.check) d.bytes rest,
            b.reads_i32 c.check (d.bytes ++ rest) h.0.1,
            d.reads.run rest,
          );
        };
      }

  counted-Coded :
      (pool : List DaCell)
      → suc (length pool) < 2 ^ 31
      → All CellOk pool
      → let self : DArray = record {
        cells = cell (as_i32 da_signature) (pos (suc (length pool))) ∷ pool;
      } in
        Coded (serialize b self) (serialized_size self) (read b) self
  unfolding serialize serialize_cells serialized_size read read_counted
  counted-Coded pool small h =
      let d = cells-Coded pool h in
      let n : ℕ = suc (length pool) in
      let same : n - 1 ≡ length pool = omega arith in
      record {
        bytes = b.bytes_i32 (as_i32 da_signature) ++ (b.bytes_i32 (pos n) ++ d.bytes);
        writes = then-Writes (write_all-Writes _) (then-Writes (write_all-Writes _) d.writes);
        size = omega (
          arith,
          d.size,
          b.length_i32 (as_i32 da_signature),
          b.length_i32 (pos n),
          length-append (b.bytes_i32 (as_i32 da_signature)) (b.bytes_i32 (pos n) ++ d.bytes),
          length-append (b.bytes_i32 (pos n)) d.bytes,
        );
        reads = record {
          run = λ rest. rw (
            append_assoc (b.bytes_i32 (as_i32 da_signature)) (b.bytes_i32 (pos n) ++ d.bytes) rest,
            b.reads_i32 (as_i32 da_signature) ((b.bytes_i32 (pos n) ++ d.bytes) ++ rest)
                (omega arith),
            append_assoc (b.bytes_i32 (pos n)) d.bytes rest,
            b.reads_i32 (pos n) (d.bytes ++ rest) (omega arith),
            same,
            d.reads.run rest,
          );
        };
      }

  -- A double array whose header is right is written in `serialized_size` bytes and read back.
  pub darray-Coded :
      (self : DArray)
      → DArrayOk self
      → Coded (serialize b self) (serialized_size self) (read b) self
  darray-Coded self h =
      let e : self
          ≡ record { cells = cell (as_i32 da_signature) (pos (suc (length h.pool))) ∷ h.pool } =
        λ i. record { cells = h.header i } in
      rw e (counted-Coded h.pool h.count h.fits)
