-- ===== src/Stream/Defs.antt =====
-- A writer holds what it was given and how much more it takes: `none` is a `Vec<u8>` or a file, a
-- number is what is left of a `Cursor<&mut [u8]>`. A reader is the list of the bytes to come.
use libdatrie_rs.Common.{
  ℕ, zero, suc, ◌-◌, ◌^◌, ◌≤◌, ◌<◌, ◌≡◌, Option, none, some, List, [], ◌∷◌, ◌++◌, leb,
  if◌then◌else◌, length, take,
}
use libdatrie_rs.Common.Int.{ℤ, IsI32, pos_part, neg_part}
use libdatrie_rs.Common.Run.{Run, ok, err, unexpected_eof, write_zero}

abbrev pub Room : Type 0
Room = Option ℕ

pub record Sink : Type 0 where
  pub written : List ℕ
  pub room : Room

-- `Vec::new()` as a writer
abbrev pub vec_sink : Sink
vec_sink = record { written = []; room = none }

abbrev pub Fits : ℕ → Room → Type 0
Fits n none = Unit {0}
Fits n (some r) = n ≤ r

abbrev pub shrink : Room → ℕ → Room
shrink none n = none
shrink (some r) n = some (r - n)

abbrev pub Writer : Type 0
Writer = Sink → Run Sink

abbrev pub Reader : Type 0 → Type 0
Reader A = List ℕ → Run (A × List ℕ)

write_room : Room → List ℕ → Sink → Run Sink
write_room none bs s = ok (record s { written = s.written ++ bs })
write_room (some r) bs s =
    ok (record s { written = s.written ++ take r bs; room = some (r - length bs) })

-- `Write::write` takes as many bytes as there is room for, and is no error when that is fewer.
unfoldable pub write : List ℕ → Writer
unfolding write_room
write bs s = write_room s.room bs s

write_all_room : Room → List ℕ → Sink → Run Sink
unfolding write_room
write_all_room none bs s = write_room none bs s
write_all_room (some r) bs s =
    if leb (length bs) r then write_room (some r) bs s else err write_zero

-- `Write::write_all` fails when the writer takes no more.
unfoldable pub write_all : List ℕ → Writer
unfolding write_all_room
write_all bs s = write_all_room s.room bs s

-- `Read::read_exact` of `n` bytes
unfoldable pub read_exact : ℕ → Reader (List ℕ)
read_exact zero bs = ok ([], bs)
read_exact (suc n) [] = err unexpected_eof
read_exact (suc n) (b ∷ bs) = elim (read_exact n bs) [
  | Run.ok (front, rest) ↦ ok (b ∷ front, rest)
  | Run.err e ↦ err e
  | Run.panic ↦ Run.panic
  | Run.out_of_fuel ↦ Run.out_of_fuel
]

-- The `byteorder` crate at `BigEndian`: `write_t` hands the bytes of a value to `write_all`, and
-- `read_t` reads that many bytes. A read gives back the value whose bytes come first.
pub record ByteOrder : Type 0 where
  pub bytes_i16 : ℤ → List ℕ
  pub bytes_i32 : ℤ → List ℕ
  pub bytes_u32 : ℕ → List ℕ
  pub bytes_u64 : ℕ → List ℕ
  pub read_i16 : List ℕ → Run (ℤ × List ℕ)
  pub read_i32 : List ℕ → Run (ℤ × List ℕ)
  pub read_u32 : List ℕ → Run (ℕ × List ℕ)
  pub read_u64 : List ℕ → Run (ℕ × List ℕ)
  pub length_i16 : (v : ℤ) → length (bytes_i16 v) ≡ 2
  pub length_i32 : (v : ℤ) → length (bytes_i32 v) ≡ 4
  pub length_u32 : (v : ℕ) → length (bytes_u32 v) ≡ 4
  pub length_u64 : (v : ℕ) → length (bytes_u64 v) ≡ 8
  pub reads_i16 :
      (v : ℤ) (rest : List ℕ)
      → (pos_part v < 2 ^ 15) × (neg_part v ≤ 2 ^ 15)
      → read_i16 (bytes_i16 v ++ rest) ≡ ok (v, rest)
  pub reads_i32 : (v : ℤ) (rest : List ℕ) → IsI32 v → read_i32 (bytes_i32 v ++ rest) ≡ ok (v, rest)
  pub reads_u32 :
      (v : ℕ) (rest : List ℕ) → v < 2 ^ 32 → read_u32 (bytes_u32 v ++ rest) ≡ ok (v, rest)
  pub reads_u64 :
      (v : ℕ) (rest : List ℕ) → v < 2 ^ 64 → read_u64 (bytes_u64 v ++ rest) ≡ ok (v, rest)
