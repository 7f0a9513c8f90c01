-- ===== src/Stream/BigEndian.antt =====
-- A concrete `byteorder`: two's complement, the highest byte first.
use libdatrie_rs.Common.{
  ℕ, ◌+◌, ◌*◌, ◌/◌, ◌%◌, ◌^◌, ◌≤◌, ◌<◌, ◌≡◌, refl, ap, List, [], ◌∷◌, ◌++◌, arith,
}
use libdatrie_rs.Common.Int.{
  as_u16, as_i16, ℤ, pos_part, neg_part, IsI32, as_u32, as_i32, as_i32-as_u32, as_u32-lt,
}
use libdatrie_rs.Common.Run.{Run, ok, err, unexpected_eof, ◌>>=◌}
use libdatrie_rs.Stream.{ByteOrder}

abbrev pub byte : ℕ → ℕ → ℕ
byte n k = n / 256 ^ k % 256

pub put_u16 : ℕ → List ℕ
put_u16 n = byte n 1 ∷ byte n 0 ∷ []

pub put_u32 : ℕ → List ℕ
put_u32 n = byte n 3 ∷ byte n 2 ∷ byte n 1 ∷ byte n 0 ∷ []

pub put_u64 : ℕ → List ℕ
put_u64 n =
    byte n 7 ∷ byte n 6 ∷ byte n 5 ∷ byte n 4 ∷ byte n 3 ∷ byte n 2 ∷ byte n 1 ∷ byte n 0 ∷ []

pub get_u16 : List ℕ → Run (ℕ × List ℕ)
get_u16 (a ∷ b ∷ rest) = ok (a * 256 + b, rest)
get_u16 _ = err unexpected_eof

pub get_u32 : List ℕ → Run (ℕ × List ℕ)
get_u32 (a ∷ b ∷ c ∷ d ∷ rest) = ok (((a * 256 + b) * 256 + c) * 256 + d, rest)
get_u32 _ = err unexpected_eof

pub get_u64 : List ℕ → Run (ℕ × List ℕ)
get_u64 (a ∷ b ∷ c ∷ d ∷ e ∷ f ∷ g ∷ h ∷ rest) =
    ok (((((((a * 256 + b) * 256 + c) * 256 + d) * 256 + e) * 256 + f) * 256 + g) * 256 + h, rest)
get_u64 _ = err unexpected_eof

pub get_i16 : List ℕ → Run (ℤ × List ℕ)
unfolding get_u16
get_i16 bs = do (n, rest) ← get_u16 bs; ok (as_i16 n, rest)

pub get_i32 : List ℕ → Run (ℤ × List ℕ)
unfolding get_u32
get_i32 bs = do (n, rest) ← get_u32 bs; ok (as_i32 n, rest)

pub u16_law : (v : ℕ) (rest : List ℕ) → v < 2 ^ 16 → get_u16 (put_u16 v ++ rest) ≡ ok (v, rest)
unfolding get_u16 put_u16
u16_law v rest h = ap (λ (n : ℕ). ok (n, rest)) (omega arith)

pub u32_law : (v : ℕ) (rest : List ℕ) → v < 2 ^ 32 → get_u32 (put_u32 v ++ rest) ≡ ok (v, rest)
unfolding get_u32 put_u32
u32_law v rest h = ap (λ (n : ℕ). ok (n, rest)) (omega arith)

pub u64_law : (v : ℕ) (rest : List ℕ) → v < 2 ^ 64 → get_u64 (put_u64 v ++ rest) ≡ ok (v, rest)
unfolding get_u64 put_u64
u64_law v rest h = ap (λ (n : ℕ). ok (n, rest)) (omega arith)

pub i16-u16 : (v : ℤ) → (pos_part v < 2 ^ 15) × (neg_part v ≤ 2 ^ 15) → as_i16 (as_u16 v) ≡ v
i16-u16 v h = ground arith

pub as_u16-lt : (v : ℤ) → as_u16 v < 2 ^ 16
as_u16-lt v = ground arith

pub i16_law :
    (v : ℤ) (rest : List ℕ)
    → (pos_part v < 2 ^ 15) × (neg_part v ≤ 2 ^ 15)
    → get_i16 (put_u16 (as_u16 v) ++ rest) ≡ ok (v, rest)
unfolding get_i16
i16_law v rest h = rw (u16_law (as_u16 v) rest (as_u16-lt v), i16-u16 v h)

pub i32_law :
    (v : ℤ) (rest : List ℕ) → IsI32 v → get_i32 (put_u32 (as_u32 v) ++ rest) ≡ ok (v, rest)
unfolding get_i32
i32_law v rest h = rw (u32_law (as_u32 v) rest (as_u32-lt v), as_i32-as_u32 v h)

unfoldable pub big_endian : ByteOrder
unfolding put_u16 put_u32 put_u64 get_i16 get_i32 get_u64
big_endian = record {
  bytes_i16 = λ v. put_u16 (as_u16 v);
  bytes_i32 = λ v. put_u32 (as_u32 v);
  bytes_u32 = put_u32;
  bytes_u64 = put_u64;
  read_i16 = get_i16;
  read_i32 = get_i32;
  read_u32 = get_u32;
  read_u64 = get_u64;
  length_i16 = λ v. refl;
  length_i32 = λ v. refl;
  length_u32 = λ v. refl;
  length_u64 = λ v. refl;
  reads_i16 = i16_law;
  reads_i32 = i32_law;
  reads_u32 = u32_law;
  reads_u64 = u64_law;
}
