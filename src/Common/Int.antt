-- ===== src/Common/Int.antt =====
-- Signed integers over the native numbers, and `i32` as the integers from -2^31 to 2^31 - 1.
-- Arithmetic on `i32` wraps around, as in a release build.
use libdatrie_rs.Common.{
  ℕ, suc, ◌+◌, ◌-◌, ◌%◌, ◌^◌, ◌≤◌, ◌<◌, ◌≡◌, ◌≢◌, Bool, true, false, List, Option, none, arith, ltb,
  leb, ◌==◌, if◌then◌else◌, get_elem?,
}

-- `negsuc n` is -(n + 1).
pub data ℤ : Type 0 where
  pos : ℕ → ℤ
  negsuc : ℕ → ℤ

abbrev pub pos_part : ℤ → ℕ
pos_part (pos n) = n
pos_part (negsuc n) = 0

abbrev pub neg_part : ℤ → ℕ
neg_part (pos n) = 0
neg_part (negsuc n) = suc n

-- a - b, as an integer.
abbrev pub sub_ℕ : ℕ → ℕ → ℤ
sub_ℕ a b = if leb b a then pos (a - b) else negsuc (b - a - 1)

abbrev pub ltb_ℤ : ℤ → ℤ → Bool
ltb_ℤ a b = ltb (pos_part a + neg_part b) (pos_part b + neg_part a)

abbrev pub leb_ℤ : ℤ → ℤ → Bool
leb_ℤ a b = leb (pos_part a + neg_part b) (pos_part b + neg_part a)

abbrev pub eqb_ℤ : ℤ → ℤ → Bool
eqb_ℤ a b = pos_part a + neg_part b == pos_part b + neg_part a

-- `v as u32`
abbrev pub as_u32 : ℤ → ℕ
as_u32 (pos n) = n % 2 ^ 32
as_u32 (negsuc n) = 2 ^ 32 - 1 - n % 2 ^ 32

-- `v as u8`
abbrev pub as_u8 : ℤ → ℕ
as_u8 v = as_u32 v % 256

-- `v as i32`, of a `u32`
abbrev pub as_i32 : ℕ → ℤ
as_i32 n = if ltb n (2 ^ 31) then pos n else negsuc (2 ^ 32 - 1 - n)

-- `v as u16` and `v as i16`
abbrev pub as_u16 : ℤ → ℕ
as_u16 (pos n) = n % 2 ^ 16
as_u16 (negsuc n) = 2 ^ 16 - 1 - n % 2 ^ 16

abbrev pub as_i16 : ℕ → ℤ
as_i16 n = if ltb n (2 ^ 15) then pos n else negsuc (2 ^ 16 - 1 - n)

-- `v as usize`, of an `i32`
abbrev pub as_usize : ℤ → ℕ
as_usize (pos n) = n
as_usize (negsuc n) = 2 ^ 64 - 1 - n

unfoldable pub wrap_i32 : ℤ → ℤ
wrap_i32 a = as_i32 (as_u32 a)

infixl 65 ◌+ℤ◌ ◌-ℤ◌
-- `a + b`, `a - b` and `-a` on `i32`
unfoldable pub ◌+ℤ◌ : ℤ → ℤ → ℤ
unfolding wrap_i32
a +ℤ b = wrap_i32 (sub_ℕ (pos_part a + pos_part b) (neg_part a + neg_part b))

unfoldable pub ◌-ℤ◌ : ℤ → ℤ → ℤ
unfolding wrap_i32
a -ℤ b = wrap_i32 (sub_ℕ (pos_part a + neg_part b) (neg_part a + pos_part b))

unfoldable pub neg : ℤ → ℤ
unfolding ◌-ℤ◌
neg a = pos 0 -ℤ a

-- `a + b` on `i16`
unfoldable pub add_i16 : ℤ → ℤ → ℤ
add_i16 a b = as_i16 (as_u16 (sub_ℕ (pos_part a + pos_part b) (neg_part a + neg_part b)))

abbrev pub IsI32 : ℤ → Type 0
IsI32 a = (pos_part a < 2 ^ 31) × (neg_part a ≤ 2 ^ 31)

pub wrap_i32_id : (a : ℤ) → IsI32 a → wrap_i32 a ≡ a
unfolding wrap_i32
wrap_i32_id a h = ground arith

pub as_i32-as_u32 : (a : ℤ) → IsI32 a → as_i32 (as_u32 a) ≡ a
as_i32-as_u32 a h = ground arith

pub as_u32-lt : (a : ℤ) → as_u32 a < 2 ^ 32
as_u32-lt a = ground arith

pub +ℤ_pos : (a b : ℕ) → a + b < 2 ^ 31 → pos a +ℤ pos b ≡ pos (a + b)
unfolding ◌+ℤ◌
+ℤ_pos a b h = ground arith

pub +ℤ_one : (a : ℕ) → suc a < 2 ^ 31 → pos a +ℤ pos 1 ≡ pos (suc a)
unfolding ◌+ℤ◌
+ℤ_one a h = ground arith

pub add_i16_one : (a : ℕ) → suc a < 2 ^ 15 → add_i16 (pos a) (pos 1) ≡ pos (suc a)
unfolding add_i16
add_i16_one a h = ground arith

pub -ℤ_pos : (a b : ℕ) → b ≤ a → a < 2 ^ 31 → pos a -ℤ pos b ≡ pos (a - b)
unfolding ◌-ℤ◌
-ℤ_pos a b h k = ground arith

pub neg-pos : (a : ℕ) → a < 2 ^ 31 → neg (pos (suc a)) ≡ negsuc a
unfolding neg
neg-pos a h = ground arith

pub neg-negsuc : (a : ℕ) → a < 2 ^ 31 - 1 → neg (negsuc a) ≡ pos (suc a)
unfolding neg
neg-negsuc a h = ground arith

pub eqb_ℤ_ne : (a b : ℤ) → a ≢ b → eqb_ℤ a b ≡ false
eqb_ℤ_ne a b h = ground arith

pub eqb_ℤ_eq : (a b : ℤ) → eqb_ℤ a b ≡ true → a ≡ b
eqb_ℤ_eq a b h = ground arith

pub eqb_ℤ_refl : (a : ℤ) → eqb_ℤ a a ≡ true
eqb_ℤ_refl a = ground arith

-- A length that fits `i32` is unchanged by `as i32`.
pub as_i32-small : (n : ℕ) → n < 2 ^ 31 → as_i32 (n % 2 ^ 32) ≡ pos n
as_i32-small n h = ground arith

-- `v.get(i as usize)`: a negative index is beyond the length of any `Vec`.
module _ {ℓ} {A : Type ℓ} where
  abbrev pub get? : List A → ℤ → Option A
  get? xs (pos n) = get_elem? xs n
  get? xs (negsuc n) = none
