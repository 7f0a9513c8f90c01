-- ===== src/CApi/Text.antt =====
-- `Bool` and `TRIE_DATA_ERROR` of src/types_c.rs, and the `AlphaChar` strings of src/types.rs: a
-- pointer to one is the memory from there on.
use libdatrie_rs.Common.{
  ℕ, suc, ◌+◌, ◌%◌, ◌^◌, ◌<◌, ◌≡◌, refl, ap, ◌∙◌, ◌≢◌, Bool, true, false, Option, none, some, List,
  [], ◌∷◌, ◌++◌, arith, ◌==◌, length, take, All,
}
use libdatrie_rs.Common.Int.{ℤ, pos, negsuc, as_i32, as_usize, as_i32-small}
use libdatrie_rs.Types.{AlphaChar}

-- The C type `Bool`, an unsigned number.
pub record CBool : Type 0 where
  pub value : ℕ

abbrev pub c_true : CBool
c_true = record { value = 1 }

abbrev pub c_false : CBool
c_false = record { value = 0 }

-- `From<bool> for Bool`
abbrev pub from_bool : Bool → CBool
from_bool true = c_true
from_bool false = c_false

-- `Into<bool> for Bool`
abbrev pub into_bool : CBool → Bool
into_bool b = b.value == 1

abbrev pub trie_data_error : ℤ
trie_data_error = negsuc 0

-- `o.flatten().unwrap_or(TRIE_DATA_ERROR)`
abbrev pub or_error : Option (Option ℤ) → ℤ
or_error none = trie_data_error
or_error (some none) = trie_data_error
or_error (some (some v)) = v

pub data Order : Type 0 where
  less equal greater : Order

-- What the code uses of the crate null_terminated: the number of elements before the terminator,
-- and the comparison of two terminated strings.
pub record NulCrate : Type 0 where
  pub len : List AlphaChar → ℕ
  pub cmp : List AlphaChar → List AlphaChar → Order
  pub len-prefix :
      (str memory : List AlphaChar) → All (λ c. c ≢ 0) str → len (str ++ (0 ∷ memory)) ≡ length str

module _ (nul : NulCrate) where
  unfoldable pub alpha_char_strlen : List AlphaChar → ℤ
  alpha_char_strlen str = as_i32 (nul.len str % 2 ^ 32)

  -- The slice with the null.
  unfoldable pub alpha_char_as_slice : List AlphaChar → List AlphaChar
  alpha_char_as_slice str = let len = as_usize (alpha_char_strlen str) + 1 in take len str

  unfoldable pub alpha_char_strcmp : List AlphaChar → List AlphaChar → ℤ
  alpha_char_strcmp str1 str2 = elim (nul.cmp str1 str2) [
    | less ↦ negsuc 0
    | equal ↦ pos 0
    | greater ↦ pos 1
  ]

  take-suc :
      (str memory : List AlphaChar)
      → take (suc (length str)) (str ++ (0 ∷ memory)) ≡ str ++ (0 ∷ [])
  take-suc [] memory = refl
  take-suc (c ∷ str) memory = ap (λ k. c ∷ k) (take-suc str memory)

  pub strlen-small :
      (str memory : List AlphaChar)
      → All (λ c. c ≢ 0) str
      → length str < 2 ^ 31
      → alpha_char_strlen (str ++ (0 ∷ memory)) ≡ pos (length str)
  unfolding alpha_char_strlen
  strlen-small str memory text small =
      rw (nul.len-prefix str memory text) (as_i32-small (length str) small)

  -- The slice of a terminated string is the string and its null, whatever follows in memory.
  pub as_slice-terminated :
      (str memory : List AlphaChar)
      → All (λ c. c ≢ 0) str
      → length str < 2 ^ 31
      → alpha_char_as_slice (str ++ (0 ∷ memory)) ≡ str ++ (0 ∷ [])
  unfolding alpha_char_as_slice
  as_slice-terminated str memory text small =
      ap (λ n. take (as_usize n + 1) (str ++ (0 ∷ memory))) (strlen-small str memory text small)
      ∙ ap (λ n. take n (str ++ (0 ∷ memory))) {x = length str + 1} {y = suc (length str)}
          (omega arith)
      ∙ take-suc str memory
