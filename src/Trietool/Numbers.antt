-- ===== src/Trietool/Numbers.antt =====
-- The numbers that trietool reads: `parse::<i32>` and `AlphaChar::from_str_radix` with radix 16.
use libdatrie_rs.Common.{
  ℕ, ◌+◌, ◌-◌, ◌*◌, ◌^◌, ◌&&◌, Option, none, some, List, [], ◌∷◌, ltb, leb, ◌==◌, if◌then◌else◌,
}
use libdatrie_rs.Common.Int.{ℤ, pos, negsuc}

-- The value of a digit, or the radix.
abbrev pub digit : ℕ → ℕ → ℕ
digit radix c =
    if leb 48 c && leb c 57
    then c - 48
    else if leb 97 c && leb c 122
    then c - 87
    else if leb 65 c && leb c 90
    then c - 55
    else radix

abbrev pub digits_from : ℕ → ℕ → List ℕ → Option ℕ
digits_from radix n [] = some n
digits_from radix n (c ∷ cs) =
    let rest = digits_from radix (n * radix + digit radix c) cs in
    if ltb (digit radix c) radix then rest else none

-- A number of at least one digit.
abbrev pub digits : ℕ → List ℕ → Option ℕ
digits radix [] = none
digits radix (c ∷ cs) = digits_from radix 0 (c ∷ cs)

-- A number below `2 ^ 31`, or its negation, which may be `- 2 ^ 31`.
abbrev pub positive : Option ℕ → Option ℤ
positive none = none
positive (some n) = if ltb n (2 ^ 31) then some (pos n) else none

abbrev pub negative : Option ℕ → Option ℤ
negative none = none
negative (some n) =
    if n == 0 then some (pos 0) else if leb n (2 ^ 31) then some (negsuc (n - 1)) else none

unfoldable pub parse_i32 : List ℕ → Option ℤ
parse_i32 [] = none
parse_i32 (c ∷ cs) =
    if c == 43
    then positive (digits 10 cs)
    else if c == 45
    then negative (digits 10 cs)
    else positive (digits 10 (c ∷ cs))

abbrev pub fits_u32 : Option ℕ → Option ℕ
fits_u32 none = none
fits_u32 (some n) = if ltb n (2 ^ 32) then some n else none

unfoldable pub parse_hex : List ℕ → Option ℕ
parse_hex [] = none
parse_hex (c ∷ cs) = fits_u32 (if c == 43 then digits 16 cs else digits 16 (c ∷ cs))
