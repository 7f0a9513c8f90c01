-- ===== src/Types/Text.antt =====
-- `AsAlphaChar` and `AlphaCharToString` of src/types.rs. A `&str` is the list of its `char`s.
use libdatrie_rs.Common.{
  ℕ, ◌≡◌, refl, ◌≢◌, Bool, true, ◌&&◌, ◌||◌, Option, none, some, List, [], ◌∷◌, ◌++◌, arith, ltb,
  ◌==◌, if◌then◌else◌, All,
}
use libdatrie_rs.Types.Defs.{AlphaChar, alpha_char_error}

-- `as_alphachar`: the code points and a terminating 0.
pub as_alphachar : List ℕ → List AlphaChar
as_alphachar chars = chars ++ (0 ∷ [])

-- The values of `char`: code points other than surrogates, which `char::from_u32` accepts.
abbrev pub is_char : ℕ → Bool
is_char v = ltb v 0xd800 || (ltb 0xdfff v && ltb v 0x11_0000)

-- `ac_to_string`: up to the first 0, and `None` where a value is no `char`.
unfoldable pub ac_to_string : List AlphaChar → Option (List ℕ)
ac_to_string [] = some []
ac_to_string (v ∷ vs) =
    if v == 0
    then some []
    else if v == alpha_char_error
    then none
    else if is_char v
    then elim (ac_to_string vs) [ none ↦ none | some cs ↦ some (v ∷ cs) ]
    else none

abbrev pub IsText : List ℕ → Type 0
IsText chars = All (λ c. (is_char c ≡ true) × (c ≢ 0)) chars

-- A string with no internal 0 comes back from its null-terminated form, whatever follows that.
pub ac_to_string-as_alphachar :
    (chars rest : List ℕ) → IsText chars → ac_to_string (as_alphachar chars ++ rest) ≡ some chars
unfolding ac_to_string as_alphachar
ac_to_string-as_alphachar [] rest h = refl
ac_to_string-as_alphachar (c ∷ cs) rest h = ground (arith, ac_to_string-as_alphachar cs rest h.1)
